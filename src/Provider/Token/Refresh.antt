-- ===== src/Provider/Token/Refresh.antt =====
-- The refresh of an access token.
use mono_sso.Prelude.{
  String, ◌≡◌, sym, ◌∙◌, ap, subst, ◌⊎◌, inl, inr, true, none, some, In, contains, arith,
  Option-cases, eq_iff, nat_eq, string_eq,
}
use mono_sso.Prelude.Flow.{return, next, Flow-cases}
use mono_sso.Cache.Redis.{Redis}
use mono_sso.Datastore.{TokenRow, ok}
use mono_sso.Oauth2.{TokenClaims, claims_of, decode_jwt, generate_jwt}
use mono_sso.Service.Activation.{Cached}
use mono_sso.Service.RefreshToken.{
  NewRefreshTokenResponse, new_refresh_token, select_secret, is_client_secret, is_token_of,
}
use mono_sso.Service.RefreshToken.Checks.{new_refresh_token_checks, new_refresh_token-IsTokenOf}
use mono_sso.Provider.Http.{HttpRequest}
use mono_sso.Provider.Messages.{OAuth2DataForm, ExchangeResponse}
use mono_sso.Provider.World.{Provider, Moment, new_oauth2_data_form, Out}
use mono_sso.Provider.Token.{
  is_claimed_for, check_refresh_token, ask_refresh_token, refresh_request, refreshed_claims,
  refresh_token_handler,
}
use mono_sso.Provider.Token.Laws.{tokens_of, not_asked, asked, asked_status}

-- The claims are for the client, and of the server and its tenant.
pub record IsClaimedFor (p : Provider) (client : String) (claims : TokenClaims) : Type 0 where
  pub audience : contains claims.audience client ≡ true
  pub issuer : claims.issuer ≡ p.authz.issuer
  pub tenant : claims.tenant ≡ p.authn.tenant_id

is_claimed_for-IsClaimedFor :
    (p : Provider) (client : String) (claims : TokenClaims)
    → is_claimed_for p client claims ≡ true
    → IsClaimedFor p client claims
unfolding is_claimed_for
is_claimed_for-IsClaimedFor p client claims h = record {
  audience = ground arith;
  issuer = ground (arith, eq_iff claims.issuer p.authz.issuer);
  tenant = ground (arith, eq_iff claims.tenant p.authn.tenant_id);
}

module _ (redis : Redis) (p : Provider) where
  checked :
      (form : OAuth2DataForm) (s : Cached redis) (claims : TokenClaims)
      → check_refresh_token redis p form s ≡ next claims
      → (decode_jwt p.jose form.refresh_token ≡ claims_of claims)
        × (is_claimed_for p form.client_id claims ≡ true)
  unfolding check_refresh_token
  checked form s claims h = (ground arith, ground arith)

  not_checked :
      (form : OAuth2DataForm) (s : Cached redis) (out : Out redis)
      → check_refresh_token redis p form s ≡ return out
      → tokens_of out.0.body ≡ none
  unfolding check_refresh_token
  not_checked form s out h = ground arith

  -- What a refresh that hands out a token consists of.
  record Refresh (m : Moment) (form : OAuth2DataForm) (s : Cached redis) (out : Out redis)
      (e : ExchangeResponse) : Type 0 where
    pub claims : TokenClaims
    pub res : NewRefreshTokenResponse
    pub check : check_refresh_token redis p form s ≡ next claims
    pub served :
        res ≡ (new_refresh_token p.platform m.call (refresh_request form claims) s.service).0
    pub accepted : res.status ≡ none
    pub current : res.refresh_token_id ≡ claims.id
    pub signed :
        (generate_jwt p.jose (refreshed_claims p m claims) ≡ some e.access_token)
        ⊎ ((generate_jwt p.jose (refreshed_claims p m claims) ≡ none) × (e.access_token ≡ ""))
    pub left :
        out.1.service
        ≡ (new_refresh_token p.platform m.call (refresh_request form claims) s.service).1

  refresh_token_handler-Refresh :
      (m : Moment) (r : HttpRequest) (s : Cached redis) (e : ExchangeResponse)
      → tokens_of (refresh_token_handler redis p m r s).0.body ≡ some e
      → Refresh m (new_oauth2_data_form r) s (refresh_token_handler redis p m r s) e
  unfolding refresh_token_handler
  refresh_token_handler-Refresh m r s e h =
      let form = new_oauth2_data_form r in
      elim (Flow-cases (check_refresh_token redis p form s)) [
        | inl (out, c) ↦ absurd (ground (arith, not_checked form s out c))
        | inr (claims, c) ↦
            elim (Flow-cases (ask_refresh_token redis p m (refresh_request form claims) s)) [
              | inl (out, d) ↦
                  absurd (ground (arith, not_asked redis p m (refresh_request form claims) s out d))
              | inr ((res, s'), d) ↦
                  let (answer, left) = asked redis p m (refresh_request form claims) s s' res d in
                  record {
                    claims = claims;
                    res = res;
                    check = c;
                    served = answer;
                    accepted = asked_status redis p m (refresh_request form claims) s s' res d;
                    current = ground (arith, eq_iff res.refresh_token_id claims.id);
                    left =
                        let same : (refresh_token_handler redis p m r s).1 ≡ s' = ground arith in
                        ap (λ x. x.service) (same ∙ left);
                    signed =
                        elim (Option-cases (generate_jwt p.jose (refreshed_claims p m claims))) [
                          | inl none_signed ↦ inr (none_signed, ground arith)
                          | inr (text, signed) ↦ inl (ground arith)
                        ];
                  }
            ]
      ]

  -- An access token is handed out only for a token that decodes to claims for the client, of the
  -- server and its tenant, with the secret of the client, while the identifier in the claims is that
  -- of a live refresh token of the subject for the client, in the tables that the call leaves. It is
  -- signed from those claims with new dates and no identifier, or, where signing fails, is empty.
  pub refresh_token_handler_checks :
      (m : Moment) (r : HttpRequest) (s : Cached redis) (e : ExchangeResponse)
      → tokens_of (refresh_token_handler redis p m r s).0.body ≡ some e
      → let form = new_oauth2_data_form r in
        (claims : TokenClaims) × (secret : String) × (row : TokenRow) × (decode_jwt p.jose
            form.refresh_token
          ≡ claims_of claims)
        × IsClaimedFor p form.client_id claims
        × (select_secret m.call.outage s.service.db form.client_id ≡ ok secret)
        × (is_client_secret p.platform secret form.client_secret ≡ true)
        × In row (refresh_token_handler redis p m r s).1.service.db.tokens
        × (is_token_of claims.subject form.client_id row ≡ true)
        × (row.id ≡ claims.id)
        × ((generate_jwt p.jose (refreshed_claims p m claims) ≡ some e.access_token)
            ⊎ ((generate_jwt p.jose (refreshed_claims p m claims) ≡ none) × (e.access_token ≡ "")))
  unfolding refresh_request
  refresh_token_handler_checks m r s e h =
      let form = new_oauth2_data_form r in
      let x = refresh_token_handler-Refresh m r s e h in
      let req = refresh_request form x.claims in
      let accepted = ap (λ a. a.status) (sym x.served) ∙ x.accepted in
      let (decodes, claimed) = checked form s x.claims x.check in
      let ((secret, kept, matches), granted, all) =
        new_refresh_token_checks p.platform m.call req s.service accepted in
      let (row, member, is_token, id, expires) =
        new_refresh_token-IsTokenOf p.platform m.call req s.service accepted in
      (
        x.claims,
        secret,
        row,
        decodes,
        is_claimed_for-IsClaimedFor p form.client_id x.claims claimed,
        kept,
        matches,
        subst (λ t. In row t.db.tokens) (sym x.left) member,
        is_token,
        id ∙ ap (λ a. a.refresh_token_id) (sym x.served) ∙ x.current,
        x.signed,
      )
