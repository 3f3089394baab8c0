-- ===== src/Manager.antt =====
-- cmd/sso-manager: client-server.go and management-server.go.
pub mod SelfRegister
mod Laws
mod Tests
use mono_sso.Prelude.{String, Bool, true, false, Option, none, some, List, [], ◌∷◌, if◌then◌else◌}
use mono_sso.Prelude.Int.{ℤ}
use mono_sso.Prelude.Flow.{Flow, return, next, ◌>>=◌, ◌>>◌, run, return_if}
use mono_sso.Constants.{ResponseStatus}
use mono_sso.Oauth2.{OAuth2Jose}
use mono_sso.Session.Validator.{
  RequestSession, SessionRequestValidator, Messages, SessionError, validate_session,
  validate_session_nil, parse_session_error_to_status,
}
use mono_sso.Datastore.{Db, Result, ok, err}
use mono_sso.Datastore.Upserts.{Surroundings, Upserted, ClientDoc, ScopeDoc, TenantDoc}
use mono_sso.Datastore.Tenant.{UpsertTenantRequest, upsert_tenant}
use mono_sso.Datastore.Client.{UpsertClientRequest, upsert_client}
use mono_sso.Datastore.Scope.{UpsertScopeRequest, upsert_scope}
use mono_sso.Datastore.Status.{Texts, parse_error_into_status}

-- What the configuration gives the servers, and the messages of errors from other packages.
pub record Settings : Type 1 where
  pub enable_session_validation : Bool
  pub session_past_toleration : ℤ
  pub admin_tenant : List String
  pub session_audience : String
  pub jose : OAuth2Jose
  pub messages : Messages
  pub texts : Texts

-- The validator of one operation, as `setupClientServer` builds it.
abbrev pub session_validator : Settings → String → SessionRequestValidator
session_validator settings scope = record {
  timestamp_past_toleration = settings.session_past_toleration;
  required_scopes = ("superadmin" ∷ []) ∷ (scope ∷ []) ∷ [];
  allowed_tenants = settings.admin_tenant;
  audience = settings.session_audience;
  jose = settings.jose;
}

abbrev pub upsert_client_session : Settings → SessionRequestValidator
upsert_client_session settings = session_validator settings "client:write"

abbrev pub upsert_scope_session : Settings → SessionRequestValidator
upsert_scope_session settings = session_validator settings "scope:write"

-- What `setupManagementServer` would set `upsertTenantSession` to. Nothing calls it.
abbrev setup_management_server : Settings → Option SessionRequestValidator
setup_management_server settings = some (session_validator settings "tenant:write")

-- `upsertTenantSession`, which therefore is nil.
abbrev pub upsert_tenant_session : Option SessionRequestValidator
upsert_tenant_session = none

pub record UpsertClientResponse : Type 0 where
  pub status : ResponseStatus
  pub client_id : String
  pub client_secret : String

-- sso.UpsertScopeResponse is its status.
abbrev pub UpsertScopeResponse : Type 0
UpsertScopeResponse = ResponseStatus

pub record UpsertTenantResponse : Type 0 where
  pub status : ResponseStatus
  pub tenant_id : String

abbrev pub empty_status : ResponseStatus
empty_status = record { errors = [] }

-- `if enableSessionValidation { … }`: the status of a session that is refused.
check_session :
    Settings → SessionRequestValidator → ℤ → Option RequestSession → Option ResponseStatus
check_session settings validator now session =
    if settings.enable_session_validation
    then elim ((validate_session validator now session).error) [
      | none ↦ none
      | some e ↦ some (parse_session_error_to_status settings.messages e (some empty_status))
    ]
    else none

-- The same for a validator that may be nil; the outer `none` is a panic.
unfoldable pub check_tenant_session :
    Settings
    → Option SessionRequestValidator
    → ℤ
    → Option RequestSession
    → Option (Option ResponseStatus)
unfolding check_session
check_tenant_session settings (some validator) now session =
    some (check_session settings validator now session)
check_tenant_session settings none now session =
    if settings.enable_session_validation
    then elim (validate_session_nil now session) [
      | none ↦ none
      | some e ↦ some (some (parse_session_error_to_status settings.messages e (some empty_status)))
    ]
    else some none

-- The response and the tables of a handler; `none` is a panic.
abbrev pub Handled : Type 0 → Type 0
Handled R = Option (R × Db)

abbrev answer_client : Settings → Db → Upserted (ClientDoc × Db) → Handled UpsertClientResponse
answer_client settings db none = none
answer_client settings db (some (ok (doc, db'))) =
    some (record { status = empty_status; client_id = doc.id; client_secret = doc.secret }, db')
answer_client settings db (some (err e)) = some (
  record {
    status = parse_error_into_status settings.texts e empty_status;
    client_id = "";
    client_secret = "";
  },
  db,
)

-- `ClientServer.UpsertClient`; `now` is in nanoseconds.
unfoldable pub handle_upsert_client :
    Settings → Surroundings → ℤ → Db → UpsertClientRequest → Handled UpsertClientResponse
unfolding check_session
handle_upsert_client settings env now db req =
    elim (check_session settings (upsert_client_session settings) now req.session) [
      | some status ↦ some (record { status = status; client_id = ""; client_secret = "" }, db)
      | none ↦ answer_client settings db (upsert_client env db req)
    ]

abbrev answer_scope : Settings → Db → Upserted (ScopeDoc × Db) → Handled UpsertScopeResponse
answer_scope settings db none = none
answer_scope settings db (some (ok (doc, db'))) = some (empty_status, db')
answer_scope settings db (some (err e)) =
    some (parse_error_into_status settings.texts e empty_status, db)

-- `ClientServer.UpsertScope`
unfoldable pub handle_upsert_scope :
    Settings → Surroundings → ℤ → Db → UpsertScopeRequest → Handled UpsertScopeResponse
unfolding check_session
handle_upsert_scope settings env now db req =
    elim (check_session settings (upsert_scope_session settings) now req.session) [
      | some status ↦ some (status, db)
      | none ↦ answer_scope settings db (upsert_scope env db req)
    ]

abbrev answer_tenant : Settings → Db → Upserted (TenantDoc × Db) → Handled UpsertTenantResponse
answer_tenant settings db none = none
answer_tenant settings db (some (ok (doc, db'))) =
    some (record { status = empty_status; tenant_id = doc.id }, db')
answer_tenant settings db (some (err e)) =
    some (
      record { status = parse_error_into_status settings.texts e empty_status; tenant_id = "" },
      db,
    )

-- `ManagementServer.UpsertTenant`
unfoldable pub handle_upsert_tenant :
    Settings → Surroundings → ℤ → Db → UpsertTenantRequest → Handled UpsertTenantResponse
unfolding check_tenant_session
handle_upsert_tenant settings env now db req =
    elim (check_tenant_session settings upsert_tenant_session now req.session) [
      | none ↦ none
      | some (some status) ↦ some (record { status = status; tenant_id = "" }, db)
      | some none ↦ answer_tenant settings db (upsert_tenant env db req)
    ]
