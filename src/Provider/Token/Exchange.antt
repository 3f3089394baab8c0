-- ===== src/Provider/Token/Exchange.antt =====
-- The exchange of an authorization code for tokens: what it takes, and what the tokens say.
use mono_sso.Prelude.{String, join, ◌≡◌, ◌⊎◌, sym, ◌∙◌, ap, true, none, some, [], ◌∷◌, In}
use mono_sso.Prelude.Int.{◌+ℤ◌}
use mono_sso.Cache.Redis.{Redis, RedisLaws}
use mono_sso.Datastore.{TokenRow, Statement, ok}
use mono_sso.Oauth2.{TokenClaims, claims_of, decode_jwt, ReadsBack}
use mono_sso.Oauth2.Laws.{decode_jwt-generate_jwt}
use mono_sso.Service.Activation.{Cached}
use mono_sso.Service.Scopes.{get_unauthorized_scopes, unauthorized_rows}
use mono_sso.Service.RefreshToken.{
  NewRefreshTokenRequest, select_secret, is_client_secret, is_token_of,
}
use mono_sso.Service.RefreshToken.Checks.{new_refresh_token_checks, new_refresh_token-IsTokenOf}
use mono_sso.Provider.Http.{HttpRequest}
use mono_sso.Provider.Messages.{ExchangeResponse}
use mono_sso.Provider.World.{Provider, Moment, new_oauth2_data_form, code_key}
use mono_sso.Provider.Token.{exchange_request, refresh_claims, access_claims, exchange_handler}
use mono_sso.Provider.Token.Laws.{tokens_of, taken, exchange_handler-Exchange}

-- What the refresh token of an exchange is to say: the request that was stored with the code, and
-- the row of the token.
abbrev pub token_claims :
    Provider → Moment → String → NewRefreshTokenRequest → TokenRow → TokenClaims
token_claims p m client stored row = record {
  issuer = p.authz.issuer;
  subject = stored.subject;
  audience = client ∷ [];
  expiry = row.expires_at;
  not_before = m.now;
  issued_at = m.now;
  id = row.id;
  scope = join stored.scopes " ";
  kid = p.jose.fingerprint;
  tenant = p.authn.tenant_id;
}

module _ (redis : Redis) (p : Provider) (m : Moment) (r : HttpRequest) (s : Cached redis) where
  -- Tokens are handed out only for a code that was in the cache, for the tenant and the client, with
  -- the redirect URI of the form; the secret of the form matches the hash of the client, and
  -- `getUnauthorizedScopes` has reported nothing for the scopes that were stored with the code: they
  -- are still granted, unless the first row of an ungranted one could not be fetched. The code is
  -- gone afterwards.
  pub exchange_handler_checks :
      (laws : RedisLaws redis) (e : ExchangeResponse)
      → tokens_of (exchange_handler redis p m r s).0.body ≡ some e
      → let form = new_oauth2_data_form r in
        (key : String) × (value : redis.Value) × (secret : String) × (code_key p form.client_id
            form.code
          ≡ some key)
        × (laws.holds s.store key ≡ some value)
        × (laws.holds (exchange_handler redis p m r s).1.store key ≡ none)
        × (let stored = (p.token_codec.unmarshal (redis.to_text value)).1 in
            (stored.redirect_uri ≡ form.redirect_uri)
            × (select_secret m.call.outage s.service.db form.client_id ≡ ok secret)
            × (is_client_secret p.platform secret form.client_secret ≡ true)
            × (get_unauthorized_scopes m.call.outage s.service.db form.client_id stored.subject
                  stored.scopes
                ≡ ok [])
            × ((unauthorized_rows form.client_id stored.subject s.service.db stored.scopes ≡ [])
                ⊎ (m.call.outage (Statement.next_unauthorized_scope 0) ≡ true)))
  unfolding exchange_request
  exchange_handler_checks laws e h =
      let form = new_oauth2_data_form r in
      let x = exchange_handler-Exchange redis p m r s e h in
      let (key, value, named, there, uri, asks, left) = taken redis p form s x.after x.req x.took in
      let (held, gone) = laws.take_found s.store key value there in
      let ((secret, kept, matches), granted, all) =
        new_refresh_token_checks p.platform m.call x.req x.after.service
          (ap (λ a. a.status) (sym x.served) ∙ x.accepted) in
      (
        key,
        value,
        secret,
        named,
        held,
        rw (x.left, left) gone,
        (
          uri,
          rw (asks, left) at kept,
          rw asks at matches,
          rw (asks, left) at granted,
          rw (asks, left) at all,
        ),
      )

  -- The tokens of an exchange decode, under the key of the server, to the issuer and the tenant of the
  -- server, the client of the form, and the subject and the scopes of the request that the cache
  -- held for the code of the form. The refresh token carries the identifier and the expiry of a live
  -- refresh token of that subject for the client, in the tables that the exchange leaves; the access
  -- token has no identifier and the configured duration.
  pub exchange_handler-decode_jwt :
      (laws : RedisLaws redis) (back : ReadsBack p.jose) (e : ExchangeResponse)
      → tokens_of (exchange_handler redis p m r s).0.body ≡ some e
      → let form = new_oauth2_data_form r in
        let s' = (exchange_handler redis p m r s).1 in
        (key : String) × (value : redis.Value) × (row : TokenRow) × (code_key p form.client_id
            form.code
          ≡ some key)
        × (laws.holds s.store key ≡ some value)
        × In row s'.service.db.tokens
        × (let stored = (p.token_codec.unmarshal (redis.to_text value)).1 in
            let claims = token_claims p m form.client_id stored row in
            (is_token_of stored.subject form.client_id row ≡ true)
            × (decode_jwt p.jose e.refresh_token ≡ claims_of claims)
            × (decode_jwt p.jose e.access_token
                ≡ claims_of
                    (record claims { expiry = m.later +ℤ p.authz.access_token_duration; id = "" })))
  unfolding exchange_request refresh_claims access_claims
  exchange_handler-decode_jwt laws back e h =
      let form = new_oauth2_data_form r in
      let x = exchange_handler-Exchange redis p m r s e h in
      let (key, value, named, there, uri, asks, left) = taken redis p form s x.after x.req x.took in
      let (row, member, is_token, id, expires) =
        new_refresh_token-IsTokenOf p.platform m.call x.req x.after.service
          (ap (λ a. a.status) (sym x.served) ∙ x.accepted) in
      let same_id : row.id ≡ x.res.refresh_token_id =
        id ∙ ap (λ a. a.refresh_token_id) (sym x.served) in
      let same_expiry : row.expires_at ≡ x.res.expires_at =
        expires ∙ ap (λ a. a.expires_at) (sym x.served) in
      let decoded =
        decode_jwt-generate_jwt p.jose (refresh_claims p m x.req x.res) e.refresh_token back
          x.refresh in
      let decoded_access =
        decode_jwt-generate_jwt p.jose (access_claims p m (refresh_claims p m x.req x.res))
          e.access_token back x.access in
      (
        key,
        value,
        row,
        named,
        (laws.take_found s.store key value there).0,
        rw x.left member,
        (
          rw asks at is_token,
          rw (same_id, same_expiry) (rw asks at decoded),
          rw asks at decoded_access,
        ),
      )
