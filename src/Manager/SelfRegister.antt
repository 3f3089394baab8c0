-- ===== src/Manager/SelfRegister.antt =====
-- cmd/sso-manager/self-register.go: the first start sets up the client and the account of the
-- administration.
pub mod Laws
mod Tests
use mono_sso.Prelude.{
  ℕ, ◌+◌, String, utf8, Bool, true, false, ◌||◌, not, Option, none, some, List, [], ◌∷◌, ◌++◌, leb,
  ◌==◌, nat_eq, if◌then◌else◌,
}
use mono_sso.Prelude.Int.{ℤ}
use mono_sso.Prelude.Flow.{Flow, return, next, ◌>>=◌, ◌>>◌, run, return_if}
use mono_sso.Session.Validator.{RequestSession}
use mono_sso.Datastore.{
  Db, ActivationMethod, ClientType, Outage, Statement, Error, database, id_generation, hashing,
  Result, ok, err,
}
use mono_sso.Datastore.Upserts.{ClientDoc, Surroundings, Upserted}
use mono_sso.Datastore.Client.{UpsertClientRequest, upsert_client}

-- What viper holds for the administration.
pub record AdminSettings : Type 0 where
  pub client_app_name : String
  pub client_app_redirect_uris : List String
  pub admin_tenant : String
  pub admin_account_name : String
  pub admin_account_identifier : String
  pub admin_account_password : String

-- What the start meets: the surroundings of `UpsertClient`, which those of the transaction are too,
-- and what the ID generator yields for the account and the scope.
pub record Start : Type 0 where
  pub env : Surroundings
  pub now : ℤ
  pub account_id : Option String
  pub scope_id : Option String

-- The last value of the sequence sso.setup_admin, whose maximum is 2, and the tables.
pub record Setup : Type 0 where
  pub sequence : ℕ
  pub db : Db

-- The error that is returned, the secret and the identifier of the client, which are logged, and the
-- state that is left.
pub record Registered : Type 0 where
  pub error : Option Error
  pub logged : Option (String × String)
  pub setup : Setup

abbrev start_session : ℤ → RequestSession
start_session now = record { access_token = ""; locale = ""; timestamp = now }

abbrev pub client_request : AdminSettings → ℤ → UpsertClientRequest
client_request settings now = record {
  session = some (start_session now);
  client_id = "";
  client_type = ClientType.confidential;
  redirect_uris = settings.client_app_redirect_uris;
  name = settings.client_app_name;
}

-- The rows that the transaction inserts: the tenant, the account with its identifier and its tenant,
-- and the scope superadmin of the client with its description.
unfoldable pub insert_admin : AdminSettings → ℤ → String → String → String → String → Db → Db
insert_admin settings now client account scope hash db = record db {
  tenants =
      db.tenants
      ++ record {
        id = settings.admin_tenant;
        name = "SSO Administration";
        created_at = now;
        updated_at = now;
      }
        ∷ [];
  accounts =
      db.accounts
      ++ record {
        id = account;
        name = settings.admin_account_name;
        activation_method = ActivationMethod.none_method;
        password = some hash;
        deleted_at = none;
      }
        ∷ [];
  account_identifiers =
      db.account_identifiers
      ++ record { account_id = account; identifier = settings.admin_account_identifier } ∷ [];
  account_tenants =
      db.account_tenants
      ++ record { account_id = account; tenant_id = settings.admin_tenant; deleted_at = none } ∷ [];
  scopes =
      db.scopes
      ++ record {
        id = scope;
        client_id = client;
        scope = "superadmin";
        created_at = now;
        updated_at = now;
        deleted_at = none;
      }
        ∷ [];
  scopes_i18n =
      db.scopes_i18n
      ++ record {
        scope_id = scope;
        locale = "en-US";
        description = "Superadmin role";
        created_at = now;
        updated_at = now;
      }
        ∷ [];
}

abbrev done : Option (String × String) → Setup → Registered
done logged s = record { error = none; logged = logged; setup = s }

abbrev failed : Error → Option (String × String) → Setup → Registered
failed e logged s = record { error = some e; logged = logged; setup = s }

-- `if err != nil { return err }` after a statement of the transaction.
abbrev insert : Outage → Statement → Registered → Flow Registered (Unit {0})
insert outage statement r = elim (outage statement) [
  | true ↦ return (record r { error = some (database statement) })
  | false ↦ next tt
]

abbrev or_failed : {A : Type 0} → Option A → Error → Registered → Flow Registered A
or_failed none e r = return (record r { error = some e })
or_failed (some a) e r = next a

-- From `BeginTx` to the end; the error of the commit is dropped.
unfoldable pub create_admin : AdminSettings → Start → ClientDoc → Setup → Flow Registered Registered
create_admin settings start client s = do
  let outage = start.env.outage
  let r = done (some (client.secret, client.id)) s
  insert outage Statement.begin_tx r
  account ← or_failed start.account_id id_generation r
  insert outage Statement.insert_tenant r
  hash ← or_failed (start.env.bcrypt_hash (utf8 settings.admin_account_password)) hashing r
  insert outage Statement.insert_account r
  insert outage Statement.insert_account_identifier r
  insert outage Statement.insert_account_tenant r
  scope ← or_failed start.scope_id id_generation r
  insert outage Statement.insert_scope r
  insert outage Statement.insert_scope_i18n r
  return_if (outage Statement.commit_tx) r
  next (record r {
    setup = record s { db = insert_admin settings start.now client.id account scope hash s.db };
  })

-- `nextval('sso.setup_admin')`; `none` is an error, also that of a sequence that is used up.
abbrev pub next_value : Outage → ℕ → Option ℕ
next_value outage n = if outage Statement.next_setup || leb 2 n then none else some (n + 1)

abbrev after_value : Option ℕ → Setup → Flow Registered (ℕ × Setup)
after_value none s = return (done none s)
after_value (some n) s = next (n, record s { sequence = n })

-- A nil session would be a panic, and there is one; the error of `UpsertClient` is not returned.
abbrev after_client : Upserted (ClientDoc × Db) → Setup → Flow Registered (ClientDoc × Setup)
after_client none s = return (done none s)
after_client (some (err e)) s = return (done none s)
after_client (some (ok (client, db))) s = next (client, record s { db = db })

-- `registerSSOManagerApp`. With an unexpected value of the sequence the error that is returned is
-- the nil one of `Scan`.
unfoldable pub register_sso_manager_app : AdminSettings → Start → Setup → Registered
unfolding create_admin
register_sso_manager_app settings start s = run do
  value ← after_value (next_value start.env.outage s.sequence) s
  return_if (not (value.0 == 2)) (done none value.1)
  client ←
      after_client (upsert_client start.env value.1.db (client_request settings start.now)) value.1
  create_admin settings start client.0 client.1
