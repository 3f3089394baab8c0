-- ===== src/Manager/SelfRegister/Laws.antt =====
-- The administrator can sign in after the first start, and no later start changes anything.
use mono_sso.Prelude.{
  String, utf8, ◌≡◌, refl, ◌∙◌, ap, true, false, none, some, [], arith, eq_refl, nat_eq, string_eq,
}
use mono_sso.Datastore.{Db, AccountRow, ActivationMethod, Statement, ok}
use mono_sso.Cache.Redis.{Redis}
use mono_sso.Service.{Call, Platform}
use mono_sso.Service.Activation.{Cached, Codes, SignInRequest, generate_activation_code}
use mono_sso.Service.Account.{sign_in, select_account}
use mono_sso.Datastore.Upserts.{ClientDoc, Surroundings}
use mono_sso.Prelude.Int.{ℤ}
use mono_sso.Datastore.Client.{UpsertClientRequest, upsert_client}
use mono_sso.Manager.SelfRegister.{
  AdminSettings, Start, Setup, register_sso_manager_app, insert_admin, client_request,
}

sequence-register_sso_manager_app :
    (settings : AdminSettings) (start : Start) (s : Setup)
    → start.env.outage Statement.next_setup ≡ false
    → s.sequence ≡ 1
    → (register_sso_manager_app settings start s).setup.sequence ≡ 2
unfolding register_sso_manager_app
sequence-register_sso_manager_app settings start s read fresh = ground arith

used_up :
    (settings : AdminSettings) (start : Start) (s : Setup)
    → s.sequence ≡ 2
    → register_sso_manager_app settings start s ≡ record { error = none; logged = none; setup = s }
unfolding register_sso_manager_app
used_up settings start s used = ground arith

-- A start that reads the sequence for the first time leaves nothing to do for a later one, whatever
-- became of it: a later start returns no error, logs no secret, and changes neither the tables nor
-- the sequence.
pub register_sso_manager_app_once :
    (settings : AdminSettings) (start again : Start) (s : Setup)
    → start.env.outage Statement.next_setup ≡ false
    → s.sequence ≡ 1
    → let first = (register_sso_manager_app settings start s).setup in
      register_sso_manager_app settings again first
      ≡ record { error = none; logged = none; setup = first }
register_sso_manager_app_once settings start again s read fresh =
    used_up settings again (register_sso_manager_app settings start s).setup
      (sequence-register_sso_manager_app settings start s read fresh)

-- What a first start needs: a fresh sequence, tables without accounts, and nothing that fails.
pub record IsFirstStart (settings : AdminSettings) (start : Start) (s : Setup) : Type 0 where
  pub fresh : s.sequence ≡ 1
  pub healthy : start.env.outage ≡ (λ _. false)
  pub no_accounts : s.db.accounts ≡ []
  pub no_identifiers : s.db.account_identifiers ≡ []
  pub no_memberships : s.db.account_tenants ≡ []
  pub account : String
  pub account_generated : start.account_id ≡ some account
  pub scope : String
  pub scope_generated : start.scope_id ≡ some scope
  pub hash : String
  pub hashed : start.env.bcrypt_hash (utf8 settings.admin_account_password) ≡ some hash
  pub client : ClientDoc
  pub with_client : Db
  pub client_created :
      upsert_client start.env s.db (client_request settings start.now)
      ≡ some (ok (client, with_client))

registered :
    (settings : AdminSettings) (start : Start) (s : Setup) (first : IsFirstStart settings start s)
    → (register_sso_manager_app settings start s).setup.db
      ≡ insert_admin settings start.now first.client.id first.account first.scope first.hash
          first.with_client
unfolding register_sso_manager_app
registered settings start s first =
    let runs : (statement : Statement) → start.env.outage statement ≡ false =
      λ statement. ap (λ o. o statement) first.healthy in
    ground (
      arith,
      first.fresh,
      first.account_generated,
      first.scope_generated,
      first.hashed,
      first.client_created,
      runs Statement.next_setup,
      runs Statement.begin_tx,
      runs Statement.insert_tenant,
      runs Statement.insert_account,
      runs Statement.insert_account_identifier,
      runs Statement.insert_account_tenant,
      runs Statement.insert_scope,
      runs Statement.insert_scope_i18n,
      runs Statement.commit_tx,
    )

-- `UpsertClient` leaves the accounts as they were.
upsert_client-accounts :
    (env : Surroundings) (db db' : Db) (req : UpsertClientRequest) (client : ClientDoc)
    → upsert_client env db req ≡ some (ok (client, db'))
    → (db'.accounts ≡ db.accounts)
      × (db'.account_identifiers ≡ db.account_identifiers)
      × (db'.account_tenants ≡ db.account_tenants)
unfolding upsert_client
upsert_client-accounts env db db' req client h = (ground arith, ground arith, ground arith)

-- The administrator's account.
abbrev pub admin : AdminSettings → String → String → AccountRow
admin settings account hash = record {
  id = account;
  name = settings.admin_account_name;
  activation_method = ActivationMethod.none_method;
  password = some hash;
  deleted_at = none;
}

-- The only account is found by its identifier and its tenant.
select_account-insert_admin :
    (settings : AdminSettings) (now : ℤ) (client account scope hash : String) (db : Db)
    → db.accounts ≡ []
    → db.account_identifiers ≡ []
    → db.account_tenants ≡ []
    → select_account
        (λ _. false)
        (insert_admin settings now client account scope hash db)
        settings.admin_account_identifier
        settings.admin_tenant
      ≡ ok (admin settings account hash, hash)
unfolding select_account insert_admin
select_account-insert_admin settings now client account scope hash db none_yet no_ids no_tenants =
    rw (
      none_yet,
      no_ids,
      no_tenants,
      eq_refl account,
      eq_refl settings.admin_account_identifier,
      eq_refl settings.admin_tenant,
    )

module _ (redis : Redis) (platform : Platform) (codes : Codes) (call : Call) where
  -- After a first start in which nothing fails, on tables without accounts, the administrator signs
  -- in to the tenant of the administration with the identifier and the password of the settings, and
  -- needs no second factor, where bcrypt matches the password with its hash.
  pub sign_in-register_sso_manager_app :
      (settings : AdminSettings) (start : Start) (s : Setup) (first : IsFirstStart settings start s)
      (req : SignInRequest) (state : Cached redis)
      → state.service.db ≡ (register_sso_manager_app settings start s).setup.db
      → call.outage ≡ (λ _. false)
      → req.identifier ≡ settings.admin_account_identifier
      → req.password ≡ settings.admin_account_password
      → req.tenant_id ≡ settings.admin_tenant
      → platform.bcrypt_matches first.hash (utf8 settings.admin_account_password) ≡ true
      → (sign_in redis platform codes call req state).0 ≡ record {
        status = none;
        activation_method = ActivationMethod.none_method;
        subject = first.account;
        profile = some settings.admin_account_name;
      }
  unfolding sign_in generate_activation_code
  sign_in-register_sso_manager_app settings start s first req state tables healthy who secret tenant
        matches =
      let (accounts, identifiers, memberships) =
        upsert_client-accounts start.env s.db first.with_client (client_request settings start.now)
          first.client first.client_created in
      let found =
        select_account-insert_admin settings start.now first.client.id first.account first.scope
          first.hash first.with_client (accounts ∙ first.no_accounts)
          (identifiers ∙ first.no_identifiers) (memberships ∙ first.no_memberships) in
      rw (tables, registered settings start s first, healthy, who, tenant, found, secret, matches)
        refl
