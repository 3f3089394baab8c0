-- ===== src/Manager/Tests.antt =====
-- The handlers of sso-manager at concrete requests.
use mono_sso.Prelude.{◌≡◌, refl, ◌⊎◌, inr, true, false, none, some, [], ◌∷◌, fields}
use mono_sso.Prelude.Int.{pos}
use mono_sso.Oauth2.{TokenClaims, decode_jwt}
use mono_sso.Session.Validator.{RequestSession, validate_session, validate_session_nil}
use mono_sso.Datastore.{Db, ClientType, ClientRow}
use mono_sso.Datastore.Upserts.{Surroundings}
use mono_sso.Datastore.Tenant.{UpsertTenantRequest}
use mono_sso.Datastore.Client.{UpsertClientRequest, upsert_client, client_exists_by_id}
use mono_sso.Datastore.Scope.{UpsertScopeRequest, upsert_scope}
use mono_sso.Manager.{
  Settings, session_validator, handle_upsert_client, handle_upsert_scope, handle_upsert_tenant,
  UpsertClientResponse, UpsertTenantResponse, check_tenant_session,
}
use mono_sso.Manager.Laws.{IsAuthorized, handle_upsert_client_guard, handle_upsert_scope_guard}
use mono_sso.Base64.{encode_secret}
use mono_sso.Constants.{ResponseStatus}

abbrev admin_claims : TokenClaims
admin_claims = record {
  issuer = "accounts";
  subject = "root";
  audience = "manager" ∷ [];
  expiry = pos 900;
  not_before = pos 100;
  issued_at = pos 100;
  id = "";
  scope = "superadmin";
  kid = "f1";
  tenant = "admin";
}

-- All tokens are those of the administrator.
abbrev settings : Settings
settings = record {
  enable_session_validation = true;
  session_past_toleration = pos 0;
  admin_tenant = "admin" ∷ [];
  session_audience = "manager";
  jose = record {
    Token = Unit {0};
    fingerprint = "f1";
    parse_signed = λ text. inr tt;
    verify_claims = λ token. inr admin_claims;
    compact_serialize = λ claims. none;
  };
  messages = λ e. "token is expired";
  texts = λ e. "database error";
}

abbrev tables : Db
tables = record {
  tenants = [];
  accounts = [];
  account_tenants = [];
  account_identifiers = [];
  clients = [];
  scopes = [];
  scopes_i18n = [];
  grants = [];
  tokens = [];
}

abbrev env : Surroundings
env = record {
  outage = λ _. false;
  validator = record { tenant = λ _. []; client = λ _. []; scope = λ _. []; scope_i18n = λ _. [] };
  new_id = some "new";
  random_bytes = some (1 ∷ 2 ∷ 3 ∷ []);
  bcrypt_hash = λ _. some "hash";
}

abbrev session : RequestSession
session = record { access_token = "signed"; locale = "en-US"; timestamp = pos 0 }

abbrev new_client : UpsertClientRequest
new_client = record {
  session = some session;
  client_id = "";
  client_type = ClientType.public;
  redirect_uris = [];
  name = "Web";
}

abbrev web : ClientRow
web = record {
  id = "new";
  name = "Web";
  client_type = ClientType.public;
  redirect_uris = [];
  secret = some "hash";
  created_at = pos 0;
  updated_at = pos 0;
  deleted_at = none;
}

abbrev with_client : Db
with_client = record tables { clients = web ∷ [] }

abbrev no_errors : ResponseStatus
no_errors = record { errors = [] }

abbrev client_response : UpsertClientResponse
client_response = record { status = no_errors; client_id = "new"; client_secret = "AQID" }

creates :
    handle_upsert_client settings env (pos 0) tables new_client
    ≡ some (client_response, with_client)
unfolding handle_upsert_client validate_session decode_jwt fields upsert_client encode_secret
creates = refl

handle_upsert_client_guard_example :
    (with_client ≡ tables)
    ⊎ IsAuthorized (session_validator settings "client:write") (pos 0) (some session)
handle_upsert_client_guard_example =
    handle_upsert_client_guard settings env (pos 0) tables new_client client_response with_client
      refl creates

abbrev new_scope : UpsertScopeRequest
new_scope = record {
  session = some session;
  client_id = "new";
  scope = "read";
  description = "Read";
}

abbrev with_scope : Db
with_scope = record with_client {
  scopes =
      record {
        id = "new";
        client_id = "new";
        scope = "read";
        created_at = pos 0;
        updated_at = pos 0;
        deleted_at = none;
      }
      ∷ [];
  scopes_i18n =
      record {
        scope_id = "new";
        locale = "en-US";
        description = "Read";
        created_at = pos 0;
        updated_at = pos 0;
      }
      ∷ [];
}

creates_scope :
    handle_upsert_scope settings env (pos 0) with_client new_scope ≡ some (no_errors, with_scope)
unfolding handle_upsert_scope validate_session decode_jwt fields upsert_scope client_exists_by_id
creates_scope = refl

abbrev new_tenant : UpsertTenantRequest
new_tenant = record { session = some session; tenant_id = ""; name = "Acme" }

-- With a session the handler panics, and without one it refuses.
tenant_panics : handle_upsert_tenant settings env (pos 0) with_client new_tenant ≡ none
unfolding handle_upsert_tenant check_tenant_session validate_session_nil
tenant_panics = refl

abbrev no_session : UpsertTenantRequest
no_session = record { session = none; tenant_id = ""; name = "Acme" }

abbrev refused : UpsertTenantResponse
refused = record {
  status = record {
    errors = record { slug = "INVALID_REQUEST_SESSION"; message = "invalid request session" } ∷ [];
  };
  tenant_id = "";
}

handle_upsert_scope_guard_example :
    (with_scope ≡ with_client)
    ⊎ IsAuthorized (session_validator settings "scope:write") (pos 0) (some session)
handle_upsert_scope_guard_example =
    handle_upsert_scope_guard settings env (pos 0) with_client new_scope no_errors with_scope refl
      creates_scope
