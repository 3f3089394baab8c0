-- ===== src/Datastore/Tests.antt =====
-- The upserts over small tables.
use mono_sso.Prelude.{◌≡◌, refl, false, none, some, [], ◌∷◌, arith, string_eq}
use mono_sso.Prelude.Int.{pos}
use mono_sso.Datastore.Tables.{Db, ClientType, ok, err, version_mismatch}
use mono_sso.Datastore.Upserts.{Surroundings, TenantDoc, ClientDoc, ScopeDoc}
use mono_sso.Datastore.Tenant.{UpsertTenantRequest, upsert_tenant}
use mono_sso.Datastore.Client.{UpsertClientRequest, upsert_client, client_exists_by_id}
use mono_sso.Datastore.Tenant.Versions.{upsert_tenant_replay}
use mono_sso.Datastore.Client.Versions.{upsert_client_replay}
use mono_sso.Datastore.Scope.{UpsertScopeRequest, upsert_scope}
use mono_sso.Datastore.Scope.Versions.{upsert_scope_replay}
use mono_sso.Session.Validator.{RequestSession}

abbrev tables : Db
tables = record {
  tenants = record { id = "acme"; name = "Acme"; created_at = pos 1; updated_at = pos 1 } ∷ [];
  accounts = [];
  account_tenants = [];
  account_identifiers = [];
  clients =
      record {
        id = "web";
        name = "Web";
        client_type = ClientType.confidential;
        redirect_uris = [];
        secret = some "hash";
        created_at = pos 1;
        updated_at = pos 1;
        deleted_at = none;
      }
      ∷ [];
  scopes = [];
  scopes_i18n = [];
  grants = [];
  tokens = [];
}

abbrev env : Surroundings
env = record {
  outage = λ _. false;
  validator = record { tenant = λ _. []; client = λ _. []; scope = λ _. []; scope_i18n = λ _. [] };
  new_id = some "new";
  random_bytes = some (1 ∷ 2 ∷ 3 ∷ []);
  bcrypt_hash = λ _. some "hash";
}

abbrev session : RequestSession
session = record { access_token = "signed"; locale = "en-US"; timestamp = pos 9 }

abbrev rename_tenant : UpsertTenantRequest
rename_tenant = record { session = some session; tenant_id = "acme"; name = "Acme Inc" }

abbrev renamed_tenant : TenantDoc
renamed_tenant = record {
  id = "acme";
  name = "Acme Inc";
  created_at = none;
  updated_at = some (pos 9);
}

abbrev renamed : Db
renamed = record tables {
  tenants = record { id = "acme"; name = "Acme Inc"; created_at = pos 1; updated_at = pos 9 } ∷ [];
}

renames : upsert_tenant env tables rename_tenant ≡ some (ok (renamed_tenant, renamed))
unfolding upsert_tenant
renames = refl

abbrev change_client : UpsertClientRequest
change_client = record {
  session = some session;
  client_id = "web";
  client_type = ClientType.public;
  redirect_uris = "https://web.example/cb" ∷ [];
  name = "Web app";
}

abbrev changed_doc : ClientDoc
changed_doc = record {
  id = "web";
  name = "Web app";
  secret = "";
  redirect_uris = "https://web.example/cb" ∷ [];
  client_type = ClientType.public;
  created_at = none;
  updated_at = some (pos 9);
}

abbrev changed : Db
changed = record tables {
  clients =
      record {
        id = "web";
        name = "Web app";
        client_type = ClientType.public;
        redirect_uris = "https://web.example/cb" ∷ [];
        secret = some "hash";
        created_at = pos 1;
        updated_at = pos 9;
        deleted_at = none;
      }
      ∷ [];
}

changes : upsert_client env tables change_client ≡ some (ok (changed_doc, changed))
unfolding upsert_client
changes = refl

upsert_client_replay_example : upsert_client env changed change_client ≡ some (err version_mismatch)
upsert_client_replay_example =
    upsert_client_replay env env tables changed change_client session changed_doc refl (omega arith)
      refl changes

tenant_replay : upsert_tenant env renamed rename_tenant ≡ some (err version_mismatch)
tenant_replay =
    upsert_tenant_replay env env tables renamed rename_tenant session renamed_tenant refl
      (omega arith) refl renames

abbrev add_scope : UpsertScopeRequest
add_scope = record {
  session = some session;
  client_id = "web";
  scope = "read";
  description = "Read";
}

abbrev added_doc : ScopeDoc
added_doc = record {
  id = "new";
  client_id = "web";
  scope = "read";
  created_at = some (pos 9);
  updated_at = some (pos 9);
}

abbrev added : Db
added = record tables {
  scopes =
      record {
        id = "new";
        client_id = "web";
        scope = "read";
        created_at = pos 9;
        updated_at = pos 9;
        deleted_at = none;
      }
      ∷ [];
  scopes_i18n =
      record {
        scope_id = "new";
        locale = "en-US";
        description = "Read";
        created_at = pos 9;
        updated_at = pos 9;
      }
      ∷ [];
}

adds : upsert_scope env tables add_scope ≡ some (ok (added_doc, added))
unfolding upsert_scope client_exists_by_id
adds = refl

upsert_scope_replay_example : upsert_scope env added add_scope ≡ some (err version_mismatch)
upsert_scope_replay_example =
    upsert_scope_replay env tables added add_scope session added_doc env refl tt (λ id e. refl) refl
      adds
