-- ===== src/Service/Account/Laws.antt =====
-- What signing in and activating a session check, and what they leave in the cache.
use mono_sso.Prelude.{
  String, utf8, ◌≡◌, ◌∙◌, ap, inl, inr, true, none, some, arith, Option-cases, nat_eq, string_eq,
}
use mono_sso.Constants.{internal_error_status}
use mono_sso.Cache.Redis.{Redis, RedisLaws}
use mono_sso.Datastore.{AccountRow, Result-cases, ok}
use mono_sso.Service.State.{State, Call, Platform}
use mono_sso.Service.Activation.{
  SignInRequest, ActivateSessionRequest, Codes, Cached, activation_key, validate_activation_code,
}
use mono_sso.Service.Activation.Laws.{validate_activation_code_consumes}
use mono_sso.Datastore.Account.{RevokeScopesRequest, revoke_scopes}
use mono_sso.Service.Account.{handle_revoke_scopes, sign_in, activate_session, select_account}

-- Whoever is signed in, with whatever status, is the live account that the query finds for the
-- identifier and the tenant, and the password matches its hash.
pub sign_in_checks :
    (redis : Redis) (platform : Platform) (codes : Codes) (call : Call) (req : SignInRequest)
    (s : Cached redis) {name : String}
    → (sign_in redis platform codes call req s).0.profile ≡ some name
    → (acc : AccountRow) × (hash : String) × (select_account call.outage s.service.db req.identifier
          req.tenant_id
        ≡ ok (acc, hash))
      × (platform.bcrypt_matches hash (utf8 req.password) ≡ true)
      × ((sign_in redis platform codes call req s).0.subject ≡ acc.id)
unfolding sign_in
sign_in_checks redis platform codes call req s h =
    elim (Result-cases (select_account call.outage s.service.db req.identifier req.tenant_id)) [
      | inr (e, bad) ↦ absurd (ground arith)
      | inl ((acc, hash), there) ↦ (acc, hash, there, ground arith, ground arith)
    ]

-- A session that `ActivateSession` reports as activated had its code in the cache, for the account
-- of the request, at the key of its session, code and user agent; the code is gone afterwards.
pub activate_session_consumes :
    (redis : Redis) (laws : RedisLaws redis) (codes : Codes) (req : ActivateSessionRequest)
    (s s' : Cached redis)
    → activate_session redis codes req s ≡ some (none, s')
    → (key : String) × (value : redis.Value) × (activation_key codes req.session_id
          req.activation_code req.user_agent
        ≡ some key)
      × (laws.holds s.store key ≡ some value)
      × (redis.to_text value ≡ req.subject)
      × (laws.holds s'.store key ≡ none)
unfolding activate_session
activate_session_consumes redis laws codes req s s' h =
    elim (Option-cases (validate_activation_code redis codes req s)) [
      | inl e ↦ absurd (ground arith)
      | inr ((v, after), e) ↦
          let valid : v.valid ≡ true = ground arith in
          let same : after ≡ s' = ground arith in
          validate_activation_code_consumes redis laws codes req s s' v
            (e ∙ ap (λ x. some (v, x)) same) valid
    ]

-- `RevokeScopes` answers with an internal error whenever it is called, and leaves the tables as
-- they were: its query names a column that sso.scope does not have.
pub handle_revoke_scopes_fails :
    (call : Call) (req : RevokeScopesRequest) (s : State)
    → ((handle_revoke_scopes call req s).0 ≡ some internal_error_status)
      × ((handle_revoke_scopes call req s).1.db ≡ s.db)
unfolding handle_revoke_scopes revoke_scopes
handle_revoke_scopes_fails call req s = (ground arith, ground arith)
