-- ===== src/Service/Account/Tests.antt =====
-- Signing in with a second factor, over a cache in memory.
use mono_sso.Prelude.{
  ℕ, ◌&&◌, All, subst, eq_iff, String, utf8, ◌≡◌, refl, true, false, none, some, List, [], ◌∷◌,
  arith, length, ◌==◌, nat_eq, string_eq,
}
use mono_sso.Prelude.Int.{pos}
use mono_sso.Constants.{internal_error_status}
use mono_sso.Base64.{encode_secret}
use mono_sso.Base64.RoundTrip.{IsByte}
use mono_sso.Cache.Ids.{create_id}
use mono_sso.Cache.Local.{lookup, without, reply, local_redis, local_laws}
use mono_sso.Datastore.{Db, AccountRow, ActivationMethod, ClientType, ok}
use mono_sso.Datastore.Account.{RevokeScopesRequest}
use mono_sso.Datastore.Upserts.{Surroundings, ClientDoc}
use mono_sso.Datastore.Client.{UpsertClientRequest, upsert_client}
use mono_sso.Session.Validator.{RequestSession}
use mono_sso.Service.State.{Call, Platform, info}
use mono_sso.Service.Activation.{
  SignInRequest, ActivateSessionRequest, Codes, Cached, activation_key, new_activation_code,
  six_digits, generate_activation_code, validate_activation_code,
}
use mono_sso.Service.Activation.Laws.{
  is_valid, validate_activation_code_exits, validate_activation_code-generate_activation_code,
}
use mono_sso.Service.Account.{sign_in, select_account, activate_session, handle_revoke_scopes}
use mono_sso.Service.Account.Laws.{
  sign_in_checks, activate_session_consumes, handle_revoke_scopes_fails,
}
use mono_sso.Service.RefreshToken.{select_secret, is_client_secret}
use mono_sso.Service.RefreshToken.NewClient.{upsert_client-is_client_secret}

abbrev ann : AccountRow
ann = record {
  id = "ann";
  name = "Ann";
  activation_method = ActivationMethod.email;
  password = some "hash";
  deleted_at = none;
}

abbrev tables : Db
tables = record {
  tenants = [];
  accounts = ann ∷ [];
  account_tenants = record { account_id = "ann"; tenant_id = "acme"; deleted_at = none } ∷ [];
  account_identifiers = record { account_id = "ann"; identifier = "ann@example.org" } ∷ [];
  clients = [];
  scopes = [];
  scopes_i18n = [];
  grants = [];
  tokens = [];
}

abbrev service : Cached local_redis
service = record { service = record { db = tables; events = [] }; store = [] }

abbrev platform : Platform
platform = record {
  bcrypt_matches = λ hash raw. hash == "hash" && length raw == 6;
  parse_duration = λ s. some (pos 300);
  format_time = λ t. "later";
}

abbrev codes : Codes
codes = record { sha256_hex = λ s. s; prefix = "sso"; random = 41 }

abbrev call : Call
call = record {
  outage = λ _. false;
  database_now = pos 100;
  process_now = pos 101;
  new_id = some "t1";
}

abbrev login : SignInRequest
login = record {
  identifier = "ann@example.org";
  password = "secret";
  user_agent = "Browser";
  source_ip = "192.0.2.1";
  client_ip = "";
  forwarded_ips = [];
  session_id = "s1";
  activation_code_duration = "5m";
  tenant_id = "acme";
}

code_42 : new_activation_code codes ≡ "000042"
unfolding six_digits
code_42 = refl

signs_in : (sign_in local_redis platform codes call login service).0.profile ≡ some "Ann"
unfolding sign_in select_account utf8 generate_activation_code
signs_in = refl

sign_in_checks_example :
    (acc : AccountRow) × (hash : String) × (select_account
        (λ _. false)
        tables
        "ann@example.org"
        "acme"
      ≡ ok (acc, hash))
    × (platform.bcrypt_matches hash (utf8 "secret") ≡ true)
    × ((sign_in local_redis platform codes call login service).0.subject ≡ acc.id)
sign_in_checks_example = sign_in_checks local_redis platform codes call login service signs_in

abbrev held : Cached local_redis
held = record service { store = ("sso:act:s1:000042Browser", "ann") ∷ [] }

abbrev activation : ActivateSessionRequest
activation = record {
  activation_code = "000042";
  subject = "ann";
  user_agent = "Browser";
  session_id = "s1";
}

abbrev activated : Cached local_redis
activated = record {
  service = record {
    db = tables;
    events =
        record {
          level = info;
          is_sensitive = true;
          fields =
              ("account_id", "ann")
              ∷ ("user_agent", "Browser")
              ∷ ("session_id", "s1")
              ∷ ("code", "000042")
              ∷ [];
        }
        ∷ [];
  };
  store = [];
}

activates : activate_session local_redis codes activation held ≡ some (none, activated)
unfolding activate_session validate_activation_code activation_key create_id lookup reply without
activates = refl

activate_session_consumes_example :
    (key value : String) × (activation_key codes "s1" "000042" "Browser" ≡ some key)
    × (lookup key held.store ≡ some value)
    × (value ≡ "ann")
    × (lookup key activated.store ≡ none)
activate_session_consumes_example =
    activate_session_consumes local_redis local_laws codes activation held activated activates

validate_activation_code_exits_example :
    validate_activation_code local_redis codes activation activated ≡ none
unfolding activation_key create_id lookup
validate_activation_code_exits_example =
    validate_activation_code_exits local_redis local_laws codes activation activated
      "sso:act:s1:000042Browser" refl refl

validate_activation_code-generate_activation_code_example :
    is_valid local_redis local_laws (
      validate_activation_code local_redis codes activation
        (generate_activation_code local_redis platform codes ActivationMethod.email "ann" login
          service).1)
    ≡ true
unfolding activation_key create_id generate_activation_code six_digits lookup reply
validate_activation_code-generate_activation_code_example =
    validate_activation_code-generate_activation_code local_redis local_laws platform codes
      ActivationMethod.email "ann" login service "sso:act:s1:000042Browser" "ann" refl refl refl
      refl refl

handle_revoke_scopes_fails_example :
    let req : RevokeScopesRequest = record {
      subject = "ann";
      client_id = "web";
      scopes = "read" ∷ [];
    } in
    ((handle_revoke_scopes call req service.service).0 ≡ some internal_error_status)
    × ((handle_revoke_scopes call req service.service).1.db ≡ tables)
handle_revoke_scopes_fails_example =
    handle_revoke_scopes_fails call
      (record { subject = "ann"; client_id = "web"; scopes = "read" ∷ [] }) service.service

abbrev env : Surroundings
env = record {
  outage = λ _. false;
  validator = record { tenant = λ _. []; client = λ _. []; scope = λ _. []; scope_i18n = λ _. [] };
  new_id = some "new";
  random_bytes = some (1 ∷ 2 ∷ 3 ∷ 4 ∷ 5 ∷ 6 ∷ []);
  bcrypt_hash = λ bytes. some "hash";
}

-- bcrypt over one hash.
abbrev one_hash : Platform
one_hash = record platform { bcrypt_matches = λ hash raw. hash == "hash" }

abbrev session : RequestSession
session = record { access_token = "signed"; locale = "en-US"; timestamp = pos 9 }

abbrev new_client : UpsertClientRequest
new_client = record {
  session = some session;
  client_id = "";
  client_type = ClientType.confidential;
  redirect_uris = [];
  name = "Web";
}

abbrev created_doc : ClientDoc
created_doc = record {
  id = "new";
  name = "Web";
  secret = "AQIDBAUG";
  redirect_uris = [];
  client_type = ClientType.confidential;
  created_at = some (pos 9);
  updated_at = some (pos 9);
}

abbrev created : Db
created = record tables {
  clients =
      record {
        id = "new";
        name = "Web";
        client_type = ClientType.confidential;
        redirect_uris = [];
        secret = some "hash";
        created_at = pos 9;
        updated_at = pos 9;
        deleted_at = none;
      }
      ∷ [];
}

creates : upsert_client env tables new_client ≡ some (ok (created_doc, created))
unfolding upsert_client encode_secret
creates = refl

random_bytes-IsByte : All IsByte (1 ∷ 2 ∷ 3 ∷ 4 ∷ 5 ∷ 6 ∷ [])
random_bytes-IsByte =
    (omega arith, (omega arith, (omega arith, (omega arith, (omega arith, (omega arith, tt))))))

some-injective : {xs ys : List ℕ} → some xs ≡ some ys → xs ≡ ys
some-injective e = cc

hash_matches : (h : String) → some "hash" ≡ some h → (h == "hash") ≡ true
hash_matches h e = ground (arith, eq_iff h "hash")

upsert_client-is_client_secret_example :
    (hash : String) × (select_secret (λ _. false) created "new" ≡ ok hash)
    × (is_client_secret one_hash hash "AQIDBAUG" ≡ true)
upsert_client-is_client_secret_example =
    upsert_client-is_client_secret env tables created new_client session created_doc one_hash refl
      refl refl (λ bytes e. subst (All IsByte) (some-injective e) random_bytes-IsByte)
      (λ bytes h e. hash_matches h e) creates
