-- ===== src/Provider/Token/Laws.antt =====
-- What the two token handlers check, and what they hand out.
use mono_sso.Prelude.{
  String, ◌≡◌, refl, subst, ◌∙◌, ap, ◌⊎◌, inl, inr, Option, none, some, List, [], ◌∷◌, arith,
  Option-cases, eq_iff, nat_eq, string_eq,
}
use mono_sso.Prelude.Flow.{return, next, Flow-cases}
use mono_sso.Cache.Redis.{Redis, Reply-cases, found, absent, failed}
use mono_sso.Oauth2.{TokenClaims, generate_jwt}
use mono_sso.Service.Activation.{Cached}
use mono_sso.Service.RefreshToken.{
  NewRefreshTokenRequest, NewRefreshTokenResponse, new_refresh_token,
}
use mono_sso.Provider.Http.{HttpRequest}
use mono_sso.Provider.Messages.{OAuth2DataForm, ExchangeResponse, Content, exchanged}
use mono_sso.Provider.World.{Provider, Moment, new_oauth2_data_form, code_key, Out}
use mono_sso.Provider.Token.{
  exchange_request, refresh_claims, access_claims, take_code_request, ask_refresh_token,
  issue_tokens, exchange_handler,
}

-- The tokens that a response hands out.
abbrev pub tokens_of : List Content → Option ExchangeResponse
tokens_of (exchanged e ∷ []) = some e
tokens_of _ = none

module _ (redis : Redis) where
  open redis use {to_text, take}

  pub taken :
      (p : Provider) (form : OAuth2DataForm) (s s' : Cached redis) (req : NewRefreshTokenRequest)
      → take_code_request redis p form s ≡ next (req, s')
      → (key : String) × (value : redis.Value) × (code_key p form.client_id form.code ≡ some key)
        × ((take s.store key).0 ≡ found value)
        × ((p.token_codec.unmarshal (to_text value)).1.redirect_uri ≡ form.redirect_uri)
        × (req ≡ exchange_request p form (p.token_codec.unmarshal (to_text value)).1)
        × (s' ≡ record s { store = (take s.store key).1 })
  unfolding take_code_request
  taken p form s s' req h = elim (Option-cases (code_key p form.client_id form.code)) [
    | inl e ↦ absurd (ground arith)
    | inr (key, e) ↦ elim (Reply-cases (take s.store key).0) [
      | inr other ↦ absurd (no_value key e other)
      | inl (value, there) ↦
          (key, value, e, there, same key value e there, ground arith, ground arith)
    ]
  ]
    where
      no_value :
          (key : String)
          → code_key p form.client_id form.code ≡ some key
          → ((take s.store key).0 ≡ absent) ⊎ ((take s.store key).0 ≡ failed)
          → ⊥
      no_value key e (inl missing) = ground arith
      no_value key e (inr missing) = ground arith

      same :
          (key : String) (value : redis.Value)
          → code_key p form.client_id form.code ≡ some key
          → (take s.store key).0 ≡ found value
          → (p.token_codec.unmarshal (to_text value)).1.redirect_uri ≡ form.redirect_uri
      same key value e there =
          let stored = (p.token_codec.unmarshal (to_text value)).1 in
          ground (arith, eq_iff stored.redirect_uri form.redirect_uri)

  not_taken :
      (p : Provider) (form : OAuth2DataForm) (s : Cached redis) (out : Out redis)
      → take_code_request redis p form s ≡ return out
      → tokens_of out.0.body ≡ none
  unfolding take_code_request
  not_taken p form s out h = ground arith

  pub not_asked :
      (p : Provider) (m : Moment) (req : NewRefreshTokenRequest) (s : Cached redis)
      (out : Out redis)
      → ask_refresh_token redis p m req s ≡ return out
      → tokens_of out.0.body ≡ none
  unfolding ask_refresh_token
  not_asked p m req s out h = ground arith

  pub asked :
      (p : Provider) (m : Moment) (req : NewRefreshTokenRequest) (s s' : Cached redis)
      (res : NewRefreshTokenResponse)
      → ask_refresh_token redis p m req s ≡ next (res, s')
      → (res ≡ (new_refresh_token p.platform m.call req s.service).0)
        × (s' ≡ record s { service = (new_refresh_token p.platform m.call req s.service).1 })
  unfolding ask_refresh_token
  asked p m req s s' res h = (ground arith, ground arith)

  pub asked_status :
      (p : Provider) (m : Moment) (req : NewRefreshTokenRequest) (s s' : Cached redis)
      (res : NewRefreshTokenResponse)
      → ask_refresh_token redis p m req s ≡ next (res, s')
      → res.status ≡ none
  unfolding ask_refresh_token new_refresh_token
  asked_status p m req s s' res h = ground arith

  issued :
      (p : Provider) (m : Moment) (claims : TokenClaims) (s : Cached redis) (out : Out redis)
      → issue_tokens redis p m claims s ≡ return out
      → tokens_of out.0.body ≡ none
  unfolding issue_tokens
  issued p m claims s out h = ground arith

  tokens-issue_tokens :
      (p : Provider) (m : Moment) (claims : TokenClaims) (s : Cached redis) (out : Out redis)
      (e : ExchangeResponse)
      → issue_tokens redis p m claims s ≡ next out
      → tokens_of out.0.body ≡ some e
      → (generate_jwt p.jose claims ≡ some e.refresh_token)
        × (generate_jwt p.jose (access_claims p m claims) ≡ some e.access_token)
        × (out.1 ≡ s)
  unfolding issue_tokens
  tokens-issue_tokens p m claims s out e h t = (ground arith, ground arith, ground arith)

  -- What a successful exchange consists of: the request that the code stood for, with the state
  -- that taking it leaves, and the answer of sso-service to that request.
  pub record Exchange (p : Provider) (m : Moment) (form : OAuth2DataForm) (s : Cached redis)
      (out : Out redis) (e : ExchangeResponse) : Type 0 where
    pub req : NewRefreshTokenRequest
    pub after : Cached redis
    pub res : NewRefreshTokenResponse
    pub took : take_code_request redis p form s ≡ next (req, after)
    pub served : res ≡ (new_refresh_token p.platform m.call req after.service).0
    pub accepted : res.status ≡ none
    pub refresh : generate_jwt p.jose (refresh_claims p m req res) ≡ some e.refresh_token
    pub access :
        generate_jwt p.jose (access_claims p m (refresh_claims p m req res)) ≡ some e.access_token
    pub left :
        out.1 ≡ record after { service = (new_refresh_token p.platform m.call req after.service).1 }

  pub exchange_handler-Exchange :
      (p : Provider) (m : Moment) (r : HttpRequest) (s : Cached redis) (e : ExchangeResponse)
      → tokens_of (exchange_handler redis p m r s).0.body ≡ some e
      → Exchange p m (new_oauth2_data_form r) s (exchange_handler redis p m r s) e
  unfolding exchange_handler
  exchange_handler-Exchange p m r s e h =
      elim (Flow-cases (take_code_request redis p (new_oauth2_data_form r) s)) [
        | inl (out, c) ↦ absurd (ground (arith, not_taken p (new_oauth2_data_form r) s out c))
        | inr ((req, after), c) ↦ elim (Flow-cases (ask_refresh_token redis p m req after)) [
          | inl (out, d) ↦ absurd (ground (arith, not_asked p m req after out d))
          | inr ((res, s'), d) ↦
              elim (Flow-cases (issue_tokens redis p m (refresh_claims p m req res) s')) [
                | inl (out, f) ↦
                    absurd (ground (arith, issued p m (refresh_claims p m req res) s' out f))
                | inr (out, f) ↦
                    let e' : exchange_handler redis p m r s ≡ out = rw (c, d, f) refl in
                    let (refresh, access, kept) =
                      tokens-issue_tokens p m (refresh_claims p m req res) s' out e f
                        (subst (λ o. tokens_of o.0.body ≡ some e) e' h) in
                    let (answer, left) = asked p m req after s' res d in
                    record {
                      req = req;
                      after = after;
                      res = res;
                      took = c;
                      served = answer;
                      accepted = asked_status p m req after s' res d;
                      refresh = refresh;
                      access = access;
                      left = ap (λ o. o.1) e' ∙ kept ∙ left;
                    }
              ]
        ]
      ]
