-- ===== src/Manager/Laws.antt =====
-- What the session validation guards in the handlers of sso-manager.
use mono_sso.Prelude.{◌≡◌, ◌≢◌, ◌⊎◌, inl, inr, true, Option, none, some, arith, Option-cases, subst}
use mono_sso.Prelude.Int.{ℤ}
use mono_sso.Oauth2.{TokenClaims}
use mono_sso.Session.Validator.{RequestSession, SessionRequestValidator, validate_session}
use mono_sso.Session.Validator.Laws.{IsAccepted, validate_session-IsAccepted, validated_claims}
use mono_sso.Datastore.{Db}
use mono_sso.Datastore.Upserts.{Surroundings}
use mono_sso.Datastore.Client.{UpsertClientRequest, upsert_client}
use mono_sso.Datastore.Scope.{UpsertScopeRequest}
use mono_sso.Manager.{
  Settings, session_validator, check_session, handle_upsert_client, handle_upsert_scope,
  UpsertClientResponse, UpsertScopeResponse,
}

-- The request carries a session that the validator accepts.
abbrev pub IsAuthorized : SessionRequestValidator → ℤ → Option RequestSession → Type 0
IsAuthorized v now req =
    (session : RequestSession) × (claims : TokenClaims) × (req ≡ some session)
    × IsAccepted v now session claims

authorized :
    (settings : Settings) (v : SessionRequestValidator) (now : ℤ) (req : Option RequestSession)
    → settings.enable_session_validation ≡ true
    → check_session settings v now req ≡ none
    → IsAuthorized v now req
unfolding check_session
authorized settings v now req on h =
    let (session, claims, e, valid) = validated_claims v now req (no_error on h) in
    (
      session,
      claims,
      e,
      (validate_session-IsAccepted v now session claims).0 (
          subst (λ r. validate_session v now r ≡ record { claims = some claims; error = none }) e
            valid),
    )
  where
    no_error :
        settings.enable_session_validation ≡ true
        → check_session settings v now req ≡ none
        → (validate_session v now req).error ≡ none
    no_error on h = elim (Option-cases (validate_session v now req).error) [
      | inl e ↦ e
      | inr (e, failed) ↦ absurd (ground arith)
    ]

module _ (settings : Settings) (env : Surroundings) (now : ℤ) (db : Db) where
  -- Where session validation is enabled, `UpsertClient` leaves the tables as they were, unless the
  -- request has a session that is accepted with the scope superadmin or client:write.
  pub handle_upsert_client_guard :
      (req : UpsertClientRequest) (res : UpsertClientResponse) (db' : Db)
      → settings.enable_session_validation ≡ true
      → handle_upsert_client settings env now db req ≡ some (res, db')
      → (db' ≡ db) ⊎ IsAuthorized (session_validator settings "client:write") now req.session
  unfolding handle_upsert_client
  handle_upsert_client_guard req res db' on h =
      elim (Option-cases
        (check_session settings (session_validator settings "client:write") now req.session)) [
          | inl e ↦ inr (authorized settings _ now req.session on e)
          | inr (status, e) ↦ inl (ground arith)
        ]

  -- Where session validation is enabled, `UpsertScope` leaves the tables as they were, unless the
  -- request has a session that is accepted with the scope superadmin or scope:write.
  pub handle_upsert_scope_guard :
      (req : UpsertScopeRequest) (res : UpsertScopeResponse) (db' : Db)
      → settings.enable_session_validation ≡ true
      → handle_upsert_scope settings env now db req ≡ some (res, db')
      → (db' ≡ db) ⊎ IsAuthorized (session_validator settings "scope:write") now req.session
  unfolding handle_upsert_scope
  handle_upsert_scope_guard req res db' on h =
      elim (Option-cases
        (check_session settings (session_validator settings "scope:write") now req.session)) [
          | inl e ↦ inr (authorized settings _ now req.session on e)
          | inr (status, e) ↦ inl (ground arith)
        ]

  client_returns :
      (req : UpsertClientRequest) (session : RequestSession)
      → req.session ≡ some session
      → upsert_client env db req ≢ none
  unfolding upsert_client
  client_returns req session e h = ground arith

  -- Where session validation is enabled, `UpsertClient` returns: the session of a request that has
  -- none is never dereferenced.
  handle_upsert_client_returns :
      (req : UpsertClientRequest)
      → settings.enable_session_validation ≡ true
      → handle_upsert_client settings env now db req ≢ none
  unfolding handle_upsert_client
  handle_upsert_client_returns req on h =
      elim (Option-cases
        (check_session settings (session_validator settings "client:write") now req.session)) [
          | inl e ↦
              let (session, claims, there, _) = authorized settings _ now req.session on e in
              let returns = client_returns req session there in ground arith
          | inr (status, e) ↦ ground arith
        ]
