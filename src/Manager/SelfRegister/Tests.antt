-- ===== src/Manager/SelfRegister/Tests.antt =====
-- A first start on empty tables.
use mono_sso.Prelude.{
  utf8, ◌≡◌, refl, false, none, some, [], ◌∷◌, length, ◌==◌, string_eq, nat_eq, ◌&&◌,
}
use mono_sso.Prelude.Int.{pos}
use mono_sso.Base64.{encode_secret}
use mono_sso.Cache.Local.{local_redis}
use mono_sso.Datastore.{Db, ActivationMethod, ClientType, ok}
use mono_sso.Datastore.Upserts.{Surroundings, ClientDoc}
use mono_sso.Datastore.Client.{upsert_client}
use mono_sso.Service.{Call, Platform}
use mono_sso.Service.Activation.{Codes, Cached, SignInRequest}
use mono_sso.Service.Account.{sign_in}
use mono_sso.Manager.SelfRegister.{
  AdminSettings, Start, Setup, client_request, register_sso_manager_app,
}
use mono_sso.Manager.SelfRegister.Laws.{
  IsFirstStart, register_sso_manager_app_once, sign_in-register_sso_manager_app,
}

abbrev settings : AdminSettings
settings = record {
  client_app_name = "SSO Manager";
  client_app_redirect_uris = "https://localhost:3230/sign-in" ∷ [];
  admin_tenant = "appk20hhh83hag8fbk1rad7o5qkq";
  admin_account_name = "SSO Administrator";
  admin_account_identifier = "sso_admin";
  admin_account_password = "sso#mono@6014";
}

abbrev env : Surroundings
env = record {
  outage = λ _. false;
  validator = record { tenant = λ _. []; client = λ _. []; scope = λ _. []; scope_i18n = λ _. [] };
  new_id = some "manager";
  random_bytes = some (1 ∷ 2 ∷ 3 ∷ []);
  bcrypt_hash = λ _. some "hash";
}

abbrev start : Start
start = record { env = env; now = pos 50; account_id = some "admin"; scope_id = some "super" }

abbrev empty : Setup
empty = record {
  sequence = 1;
  db = record {
    tenants = [];
    accounts = [];
    account_tenants = [];
    account_identifiers = [];
    clients = [];
    scopes = [];
    scopes_i18n = [];
    grants = [];
    tokens = [];
  };
}

register_sso_manager_app_once_example :
    let first = (register_sso_manager_app settings start empty).setup in
    register_sso_manager_app settings start first
    ≡ record { error = none; logged = none; setup = first }
register_sso_manager_app_once_example =
    register_sso_manager_app_once settings start start empty refl refl

abbrev manager : ClientDoc
manager = record {
  id = "manager";
  name = "SSO Manager";
  secret = "AQID";
  redirect_uris = "https://localhost:3230/sign-in" ∷ [];
  client_type = ClientType.confidential;
  created_at = some (pos 50);
  updated_at = some (pos 50);
}

abbrev with_manager : Db
with_manager = record empty.db {
  clients =
      record {
        id = "manager";
        name = "SSO Manager";
        client_type = ClientType.confidential;
        redirect_uris = "https://localhost:3230/sign-in" ∷ [];
        secret = some "hash";
        created_at = pos 50;
        updated_at = pos 50;
        deleted_at = none;
      }
      ∷ [];
}

creates :
    upsert_client env empty.db (client_request settings (pos 50))
    ≡ some (ok (manager, with_manager))
unfolding upsert_client encode_secret
creates = refl

abbrev first_start : IsFirstStart settings start empty
first_start = record {
  fresh = refl;
  healthy = refl;
  no_accounts = refl;
  no_identifiers = refl;
  no_memberships = refl;
  account = "admin";
  account_generated = refl;
  scope = "super";
  scope_generated = refl;
  hash = "hash";
  hashed = refl;
  client = manager;
  with_client = with_manager;
  client_created = creates;
}

abbrev platform : Platform
platform = record {
  bcrypt_matches = λ hash raw. hash == "hash" && length raw == 13;
  parse_duration = λ s. some (pos 300);
  format_time = λ t. "later";
}

abbrev codes : Codes
codes = record { sha256_hex = λ s. s; prefix = "sso"; random = 41 }

abbrev call : Call
call = record { outage = λ _. false; database_now = pos 100; process_now = pos 101; new_id = none }

abbrev login : SignInRequest
login = record {
  identifier = "sso_admin";
  password = "sso#mono@6014";
  user_agent = "Browser";
  source_ip = "192.0.2.1";
  client_ip = "";
  forwarded_ips = [];
  session_id = "s1";
  activation_code_duration = "5m";
  tenant_id = "appk20hhh83hag8fbk1rad7o5qkq";
}

abbrev state : Cached local_redis
state = record {
  service = record { db = (register_sso_manager_app settings start empty).setup.db; events = [] };
  store = [];
}

sign_in-register_sso_manager_app_example :
    (sign_in local_redis platform codes call login state).0 ≡ record {
      status = none;
      activation_method = ActivationMethod.none_method;
      subject = "admin";
      profile = some "SSO Administrator";
    }
unfolding utf8
sign_in-register_sso_manager_app_example =
    sign_in-register_sso_manager_app local_redis platform codes call settings start empty
      first_start login state refl refl refl refl refl refl
