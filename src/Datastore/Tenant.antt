-- ===== src/Datastore/Tenant.antt =====
-- pkg/datastore/tenant.go.
pub mod Versions
use mono_sso.Prelude.{
  String, len, Bool, true, false, not, Option, none, some, List, [], ◌∷◌, ◌++◌, map, ltb, length,
  head?, select, ◌==◌, nat_eq, string_eq, if◌then◌else◌,
}
use mono_sso.Prelude.Int.{ℤ, leb_ℤ}
use mono_sso.Prelude.Flow.{Flow, return, next, ◌>>=◌, ◌>>◌, run, return_if}
use mono_sso.Datastore.Tables.{
  Db, TenantRow, Outage, Statement, Error, database, tenant_not_found, version_mismatch,
  id_generation, Result, ok, err, execute,
}
use mono_sso.Datastore.Upserts.{
  TenantDoc, Surroundings, Upserted, attempt, run_statement, validate, require, dereference, finish,
}
use mono_sso.Session.Validator.{RequestSession}

-- sso.UpsertTenantRequest
pub record UpsertTenantRequest : Type 0 where
  pub session : Option RequestSession
  pub tenant_id : String
  pub name : String

-- `FromUpsertTenantRequest`
abbrev from_upsert_tenant_request : UpsertTenantRequest → TenantDoc → TenantDoc
from_upsert_tenant_request req doc = record doc { name = req.name }

abbrev pub tenants_by_id : Db → String → List TenantRow
tenants_by_id db id = select (λ r. r.id == id) db.tenants

-- `TenantExistsByID`
unfoldable pub tenant_exists_by_id : Outage → Db → String → Result Bool
tenant_exists_by_id outage db id =
    execute outage Statement.count_tenants (ltb 0 (length (tenants_by_id db id)))

abbrev stored : Option TenantRow → Result ℤ
stored none = err tenant_not_found
stored (some r) = ok r.updated_at

-- `SELECT updated_at FROM sso.tenant WHERE id = $1`
select_tenant : Outage → Db → String → Result ℤ
select_tenant outage db id =
    if outage Statement.select_tenant
    then err (database Statement.select_tenant)
    else stored (head? (tenants_by_id db id))

-- `UPDATE sso.tenant SET name=$1, updated_at=$2 WHERE id=$3`
pub update_row : String → String → ℤ → TenantRow → TenantRow
update_row id name timestamp r =
    if r.id == id then record r { name = name; updated_at = timestamp } else r

-- The branch of a request that names a tenant.
update_tenant :
    Surroundings → Db → UpsertTenantRequest → ℤ → Flow (Upserted (TenantDoc × Db)) (TenantDoc × Db)
unfolding select_tenant update_row
update_tenant env db req timestamp = do
  updated_at ← attempt (select_tenant env.outage db req.tenant_id)
  return_if (leb_ℤ timestamp updated_at) (some (err version_mismatch))
  let doc =
      from_upsert_tenant_request req
        (record { id = req.tenant_id; name = ""; created_at = none; updated_at = some timestamp })
  validate (env.validator.tenant doc)
  run_statement env.outage Statement.update_tenant
  run_statement env.outage Statement.commit_tx
  next (doc, record db { tenants = map (update_row req.tenant_id req.name timestamp) db.tenants })

insert_tenant :
    Surroundings → Db → UpsertTenantRequest → ℤ → Flow (Upserted (TenantDoc × Db)) (TenantDoc × Db)
insert_tenant env db req timestamp = do
  let doc =
      from_upsert_tenant_request req
        (record { id = ""; name = ""; created_at = none; updated_at = none })
  validate (env.validator.tenant doc)
  id ← require id_generation env.new_id
  run_statement env.outage Statement.insert_tenant
  run_statement env.outage Statement.commit_tx
  let row : TenantRow = record {
    id = id;
    name = req.name;
    created_at = timestamp;
    updated_at = timestamp;
  }
  next (
    record doc { id = id; created_at = some timestamp; updated_at = some timestamp },
    record db { tenants = db.tenants ++ row ∷ [] },
  )

-- `UpsertTenant`: the doc with the new tables, or an error after which the deferred rollback keeps
-- the old.
unfoldable pub upsert_tenant : Surroundings → Db → UpsertTenantRequest → Upserted (TenantDoc × Db)
unfolding update_tenant insert_tenant
upsert_tenant env db req = finish do
  run_statement env.outage Statement.begin_tx
  session ← dereference req.session
  (if not (len req.tenant_id == 0)
      then update_tenant env db req session.timestamp
      else insert_tenant env db req session.timestamp)
