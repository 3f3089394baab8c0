-- ===== src/Datastore/Tenant/Versions.antt =====
-- The optimistic lock of `UpsertTenant`.
use mono_sso.Prelude.{
  String, len, ◌≡◌, ◌≢◌, inl, inr, false, none, some, map, arith, head?, select-map, head?-map,
  head?-select, Option-cases, ◌==◌, nat_eq, string_eq,
}
use mono_sso.Prelude.Int.{ℤ, ◌<ℤ◌}
use mono_sso.Datastore.Tables.{Db, TenantRow, ok, err, version_mismatch}
use mono_sso.Datastore.Upserts.{TenantDoc, Surroundings}
use mono_sso.Datastore.Tenant.{UpsertTenantRequest, upsert_tenant, update_row, tenants_by_id}
use mono_sso.Session.Validator.{RequestSession}

-- What an update that succeeds has done: the tenant was there with an older version.
update_done :
    (env : Surroundings) (db db' : Db) (req : UpsertTenantRequest) (session : RequestSession)
    (row : TenantRow) (doc : TenantDoc)
    → req.session ≡ some session
    → len req.tenant_id ≢ 0
    → head? (tenants_by_id db req.tenant_id) ≡ some row
    → upsert_tenant env db req ≡ some (ok (doc, db'))
    → (row.updated_at <ℤ session.timestamp)
      × (db' ≡ record db {
        tenants = map (update_row req.tenant_id req.name session.timestamp) db.tenants;
      })
unfolding upsert_tenant
update_done env db db' req session row doc es named found h = (ground arith, ground arith)

update_missing :
    (env : Surroundings) (db db' : Db) (req : UpsertTenantRequest) (session : RequestSession)
    (doc : TenantDoc)
    → req.session ≡ some session
    → len req.tenant_id ≢ 0
    → head? (tenants_by_id db req.tenant_id) ≡ none
    → upsert_tenant env db req ≡ some (ok (doc, db'))
    → ⊥
unfolding upsert_tenant
update_missing env db db' req session doc es named found h = ground arith

module _ (id name : String) (timestamp : ℤ) where
  update_row-id :
      (who : String) (r : TenantRow) → ((update_row id name timestamp r).id == who) ≡ (r.id == who)
  unfolding update_row
  update_row-id who r = ground arith

  tenants_by_id-update :
      (who : String) (db : Db)
      → tenants_by_id (record db { tenants = map (update_row id name timestamp) db.tenants }) who
        ≡ map (update_row id name timestamp) (tenants_by_id db who)
  tenants_by_id-update who db =
      select-map (λ r. r.id == who) (update_row id name timestamp) db.tenants (update_row-id who)

-- An update of a tenant that has succeeded cannot be replayed: the same request, made again with
-- the tables that it left and no failing statement, is refused as a version mismatch.
pub upsert_tenant_replay :
    (env again : Surroundings) (db db' : Db) (req : UpsertTenantRequest) (session : RequestSession)
    (doc : TenantDoc)
    → req.session ≡ some session
    → len req.tenant_id ≢ 0
    → again.outage ≡ (λ _. false)
    → upsert_tenant env db req ≡ some (ok (doc, db'))
    → upsert_tenant again db' req ≡ some (err version_mismatch)
unfolding upsert_tenant update_row
upsert_tenant_replay env again db db' req session doc es named healthy h =
    elim (Option-cases (head? (tenants_by_id db req.tenant_id))) [
      | inl missing ↦ absurd (update_missing env db db' req session doc es named missing h)
      | inr (row, found) ↦
          let (older, e) = update_done env db db' req session row doc es named found h in
          let m = head?-select (λ r. r.id == req.tenant_id) row db.tenants found in
          let there : head? (tenants_by_id db' req.tenant_id)
              ≡ some (update_row req.tenant_id req.name session.timestamp row) =
            rw (e, tenants_by_id-update req.tenant_id req.name session.timestamp req.tenant_id db)
              (head?-map (update_row req.tenant_id req.name session.timestamp) row
                (tenants_by_id db req.tenant_id) found) in
          ground arith
    ]
