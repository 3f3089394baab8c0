-- ===== src/Provider/CodeFlow.antt =====
-- The authorization code flow from end to end: a code that `AuthorizationHandler` has issued is
-- good for one exchange.
use mono_sso.Prelude.{
  ℕ, String, len, ◌≡◌, refl, sym, ◌∙◌, ap, true, false, is_some, Option, none, some, List, [], ◌∷◌,
  arith, eq_iff, nat_eq, string_eq,
}
use mono_sso.Prelude.Flow.{next, run}
use mono_sso.Cache.Redis.{Redis, RedisLaws, found}
use mono_sso.Datastore.{Db, Outage, Statement, ok, read_rows-whole}
use mono_sso.Oauth2.{TokenClaims, generate_jwt}
use mono_sso.Service.{Platform}
use mono_sso.Service.Activation.{Cached}
use mono_sso.Service.Authorization.{AuthorizeClientRequest, authorize_client}
use mono_sso.Service.Scopes.{get_unauthorized_scopes, unauthorized_rows}
use mono_sso.Service.Scopes.Laws.{get_unauthorized_scopes-read}
use mono_sso.Service.RefreshToken.{
  NewRefreshTokenRequest, new_refresh_token, select_secret, is_client_secret,
}
use mono_sso.Service.RefreshToken.Reuse.{IsEntitled, new_refresh_token_accepts}
use mono_sso.Provider.Http.{HttpRequest}
use mono_sso.Provider.Messages.{OAuth2UrlQuery, OAuth2DataForm, ReadsMessage}
use mono_sso.Provider.World.{
  Provider, Moment, answered, code_key, is_valid_authorization_request, new_oauth2_data_form,
}
use mono_sso.Provider.Token.{
  exchange_request, refresh_claims, access_claims, is_exchange_form, take_code_request,
  ask_refresh_token, issue_tokens, exchange_handler,
}
use mono_sso.Provider.Token.Laws.{tokens_of}
use mono_sso.Provider.Authorization.{
  authorization_query, authorize_client_request, code_request, Authorized, authorization_handler,
}
use mono_sso.Provider.Authorization.Laws.{code_of}
use mono_sso.Provider.Authorization.Codes.{authorization_handler-Authorization}

-- The form redeems a code that was issued for the query.
pub record IsRedemption (form : OAuth2DataForm) (q : OAuth2UrlQuery) (code : String) : Type 0 where
  pub grant : form.grant_type ≡ "authorization_code"
  pub client : form.client_id ≡ q.client_id
  pub redirect : form.redirect_uri ≡ q.redirect_uri
  pub same_code : form.code ≡ code
  pub code_length : len code ≡ 40

-- The secret of the form is that of its client.
pub record HasSecret (platform : Platform) (form : OAuth2DataForm) (db : Db) : Type 0 where
  pub secret : String
  pub stored : select_secret (λ _. false) db form.client_id ≡ ok secret
  pub matching : is_client_secret platform secret form.client_secret ≡ true

-- The scopes that `AuthorizeClient` has found granted, over all rows, are granted.
granted_later :
    (outage : Outage) (db : Db) (client account : String) (scopes rows : List String)
    → ((i : ℕ) → outage (Statement.next_unauthorized_scope i) ≡ false)
    → get_unauthorized_scopes outage db client account scopes ≡ ok rows
    → get_unauthorized_scopes (λ _. false) db client account scopes ≡ ok rows
unfolding get_unauthorized_scopes
granted_later outage db client account [] rows whole h = absurd (ground arith)
granted_later outage db client account (s ∷ ss) rows whole h =
    let all = unauthorized_rows client account db (s ∷ ss) in
    ap ok (
      read_rows-whole (λ _. false) Statement.next_unauthorized_scope 0 all (λ i. refl)
      ∙ sym (
          get_unauthorized_scopes-read outage db client account (s ∷ ss) rows h
          ∙ read_rows-whole outage Statement.next_unauthorized_scope 0 all whole))

authorize_client-granted :
    (outage : Outage) (db : Db) (req : AuthorizeClientRequest)
    → (authorize_client outage db req).status ≡ none
    → (authorize_client outage db req).unauthorized_scopes ≡ []
    → get_unauthorized_scopes outage db req.client_id req.subject req.scopes ≡ ok []
unfolding authorize_client
authorize_client-granted outage db req h g = ground arith

form_passes :
    (form : OAuth2DataForm) (q : OAuth2UrlQuery) (code : String)
    → is_valid_authorization_request q ≡ true
    → IsRedemption form q code
    → is_exchange_form form ≡ true
unfolding is_exchange_form is_valid_authorization_request
form_passes form q code valid x =
    rw (x.grant, x.client, x.redirect, x.same_code, x.code_length) (ground arith)

module _ (redis : Redis) (laws : RedisLaws redis) (p : Provider) where
  open redis use {Value, of_text, to_text, take}

  -- Taking a code that is held gives the request that was stored with it.
  take_code-code_request :
      (reads : ReadsMessage p.token_codec) (form : OAuth2DataForm) (q : OAuth2UrlQuery)
      (s : Cached redis) (key request : String) (value : Value)
      → is_exchange_form form ≡ true
      → code_key p form.client_id form.code ≡ some key
      → form.redirect_uri ≡ q.redirect_uri
      → p.token_codec.marshal (code_request q) ≡ some request
      → laws.holds s.store key ≡ some (of_text request)
      → (take s.store key).0 ≡ found value
      → take_code_request redis p form s
        ≡ next (exchange_request p form (code_request q), record s { store = (take s.store key).1 })
  unfolding take_code_request code_request
  take_code-code_request reads form q s key request value passes named uri encoded held there =
      let same : to_text value ≡ request =
        ap to_text (some-injective (sym (laws.take_found s.store key value there).0 ∙ held))
        ∙ laws.text_of_text request in
      rw (
        passes,
        named,
        there,
        same,
        reads.reads (code_request q) request encoded,
        uri,
        (eq_iff q.redirect_uri q.redirect_uri).1 refl,
      )
    where
      some-injective : {x y : Value} → some x ≡ some y → x ≡ y
      some-injective e = cc

  ask_refresh_token-answered :
      (m : Moment) (req : NewRefreshTokenRequest) (s : Cached redis)
      → m.delivery ≡ answered
      → (new_refresh_token p.platform m.call req s.service).0.status ≡ none
      → let served = new_refresh_token p.platform m.call req s.service in
        ask_refresh_token redis p m req s ≡ next (served.0, record s { service = served.1 })
  unfolding ask_refresh_token
  ask_refresh_token-answered m req s arrives accepted = rw (arrives, accepted) refl

  issue_tokens-signed :
      (m : Moment) (claims : TokenClaims) (s : Cached redis)
      → ((c : TokenClaims) → is_some (generate_jwt p.jose c) ≡ true)
      → is_some (tokens_of (run (issue_tokens redis p m claims s)).0.body) ≡ true
  unfolding issue_tokens
  issue_tokens-signed m claims s signs =
      let (refresh, e) = is_some-some (generate_jwt p.jose claims) (signs claims) in
      let (access, f) =
        is_some-some (generate_jwt p.jose (access_claims p m claims))
          (signs (access_claims p m claims)) in
      rw (e, f) refl
    where
      is_some-some : (o : Option String) → is_some o ≡ true → (t : String) × (o ≡ some t)
      is_some-some none h = absurd (ground arith)
      is_some-some (some t) h = (t, refl)

  -- The exchange goes through once the code has been taken.
  exchange_handler-take :
      (m : Moment) (r : HttpRequest) (s after : Cached redis) (req : NewRefreshTokenRequest)
      → ((claims : TokenClaims) → is_some (generate_jwt p.jose claims) ≡ true)
      → take_code_request redis p (new_oauth2_data_form r) s ≡ next (req, after)
      → m.delivery ≡ answered
      → (new_refresh_token p.platform m.call req after.service).0.status ≡ none
      → is_some (tokens_of (exchange_handler redis p m r s).0.body) ≡ true
  unfolding exchange_handler
  exchange_handler-take m r s after req signs took arrives accepted =
      let served = new_refresh_token p.platform m.call req after.service in
      rw (took, ask_refresh_token-answered m req after arrives accepted)
        (issue_tokens-signed m (refresh_claims p m req served.0)
          (record after { service = served.1 }) signs)

  -- A code that `AuthorizationHandler` has issued can be exchanged: the client gets its tokens, with
  -- the secret that it has and the redirect URI of its authorization request, where the code is 40
  -- bytes long, Redis still has it, no statement or call of the exchange fails, and the key signs;
  -- while the code was issued, every row of the ungranted scopes could be fetched.
  pub exchange_handler-authorization_handler :
      (m m' : Moment) (r r' : HttpRequest) (s : Cached redis) (a : Authorized redis)
      (q : OAuth2UrlQuery) (code key id : String) (value : Value)
      → ReadsMessage p.token_codec
      → ((claims : TokenClaims) → is_some (generate_jwt p.jose claims) ≡ true)
      → ((i : ℕ) → m.call.outage (Statement.next_unauthorized_scope i) ≡ false)
      → authorization_handler redis p m r s ≡ some a
      → code_of redis (some a) ≡ some code
      → authorization_query p r ≡ some q
      → IsRedemption (new_oauth2_data_form r') q code
      → code_key p q.client_id code ≡ some key
      → (take a.state.store key).0 ≡ found value
      → m'.delivery ≡ answered
      → m'.call.outage ≡ (λ _. false)
      → m'.call.new_id ≡ some id
      → HasSecret p.platform (new_oauth2_data_form r') s.service.db
      → is_some (tokens_of (exchange_handler redis p m' r' a.state).0.body) ≡ true
  unfolding exchange_request code_request authorize_client_request
  exchange_handler-authorization_handler m m' r r' s a q code key id value reads signs whole issued
        coded asked redeems named there arrives healthy fresh known =
      let form = new_oauth2_data_form r' in
      let x = authorization_handler-Authorization redis laws p m r s a code issued coded in
      let same : x.query ≡ q = some-injective (sym x.asked ∙ asked) in
      let named' : code_key p form.client_id form.code ≡ some key =
        rw (redeems.client, redeems.same_code) named in
      let same_key : x.issued.key ≡ key =
        some-injective (sym (rw same at x.issued.named) ∙ named) in
      let took =
        take_code-code_request reads form q a.state key x.issued.request value
          (form_passes form q code (rw same at x.valid) redeems) named' redeems.redirect
          (rw same at x.issued.encoded) (rw same_key at x.issued.held) there in
      let granted =
        granted_later m.call.outage s.service.db q.client_id q.subject_id q.scopes_array [] whole (
          authorize_client-granted m.call.outage s.service.db (authorize_client_request p q)
            (rw same at x.accepted) (rw same at x.granted)) in
      let entitled : IsEntitled p.platform (exchange_request p form (code_request q)) s.service.db =
        record {
          secret = known.secret;
          stored = known.stored;
          matching = known.matching;
          granted = rw redeems.client granted;
        } in
      exchange_handler-take m' r' a.state (record a.state { store = (take a.state.store key).1 })
        (exchange_request p form (code_request q)) signs took arrives
        (new_refresh_token_accepts p.platform m'.call (exchange_request p form (code_request q))
          a.state.service id healthy fresh (rw x.same_tables entitled)
          (λ z. let e = ap len redeems.same_code in let k = redeems.code_length in ground arith))
    where
      some-injective : {A : Type 0} {x y : A} → some x ≡ some y → x ≡ y
      some-injective e = cc
