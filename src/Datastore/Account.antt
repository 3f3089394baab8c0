-- ===== src/Datastore/Account.antt =====
-- pkg/datastore/account.go.
use mono_sso.Prelude.{
  String, Bool, ◌&&◌, some, List, [], ◌∷◌, map, ltb, length, contains, select, all, ◌==◌, nat_eq,
  string_eq, if◌then◌else◌,
}
use mono_sso.Prelude.Int.{ℤ}
use mono_sso.Datastore.Tables.{
  Db, AccountTenantRow, GrantRow, TokenRow, is_live, Outage, Statement, database, Result, ok, err,
  execute, read_rows,
}

-- sso.RevokeScopesRequest
pub record RevokeScopesRequest : Type 0 where
  pub subject : String
  pub client_id : String
  pub scopes : List String

-- sso.RevokeTokenRequest
pub record RevokeTokenRequest : Type 0 where
  pub subject : String
  pub client_id : String

abbrev pub in_tenant : String → String → AccountTenantRow → Bool
in_tenant account tenant r =
    r.account_id == account && (r.tenant_id == tenant && is_live r.deleted_at)

-- `SELECT count(1) FROM sso.account_tenant …`, then `count > 0`.
unfoldable pub is_account_in_tenant : Outage → Db → String → String → Result Bool
is_account_in_tenant outage db account tenant =
    execute outage Statement.count_account_tenants
      (ltb 0 (length (select (in_tenant account tenant) db.account_tenants)))

-- The columns of sso.scope.
abbrev scope_columns : List String
scope_columns = "id" ∷ "client_id" ∷ "scope" ∷ "created_at" ∷ "updated_at" ∷ "deleted_at" ∷ []

-- The columns that the query of `RevokeScopes` names.
abbrev revoke_query_columns : List String
revoke_query_columns = "id" ∷ "client_id" ∷ "scopes" ∷ []

-- The result of the query and the loop over its rows.
abbrev read_revoked : Outage → List String → Result (List String)
read_revoked outage rows =
    let read = read_rows outage Statement.next_scope_id 0 rows in
    if outage Statement.select_scope_ids
    then err (database Statement.select_scope_ids)
    else if outage Statement.scan_scope_id && ltb 0 (length read)
    then err (database Statement.scan_scope_id)
    else ok read

-- `SELECT id FROM sso.scope WHERE client_id = $1 AND scopes IN (…)`: Postgres refuses a query
-- that names a column which the table lacks, and an empty `IN` list.
select_revoked_scope_ids : Outage → Db → RevokeScopesRequest → Result (List String)
select_revoked_scope_ids outage db req =
    if all (contains scope_columns) revoke_query_columns && ltb 0 (length req.scopes)
    then read_revoked outage (
        map (λ r. r.id)
          (select (λ r. r.client_id == req.client_id && contains req.scopes r.scope) db.scopes))
    else err (database Statement.select_scope_ids)

-- `UPDATE sso.grant SET deleted_at = now() WHERE deleted_at IS NULL AND …`
revoke_grant : String → List String → ℤ → GrantRow → GrantRow
revoke_grant account ids now r =
    if is_live r.deleted_at && (r.account_id == account && contains ids r.scope_id)
    then record r { deleted_at = some now }
    else r

-- The second statement has a placeholder for each scope of the request and an argument for each
-- scope that was found: the driver refuses it where their numbers differ.
delete_grants : Outage → ℤ → RevokeScopesRequest → Db → List String → Result Db
unfolding revoke_grant
delete_grants outage now req db ids =
    if length ids == length req.scopes
    then execute outage Statement.delete_grants
        (record db { grants = map (revoke_grant req.subject ids now) db.grants })
    else err (database Statement.delete_grants)

commit : Outage → Result Db → Result Db
commit outage (err e) = err e
commit outage (ok db) = execute outage Statement.commit_tx db

-- `RevokeScopes`: the new tables, or an error after which the deferred rollback keeps the old.
unfoldable pub revoke_scopes : Outage → ℤ → Db → RevokeScopesRequest → Result Db
unfolding select_revoked_scope_ids delete_grants commit
revoke_scopes outage now db req =
    if outage Statement.begin_tx
    then err (database Statement.begin_tx)
    else elim (select_revoked_scope_ids outage db req) [
      | err e ↦ err e
      | ok ids ↦ commit outage (delete_grants outage now req db ids)
    ]

-- `UPDATE sso.token SET deleted_at = now() WHERE deleted_at IS NULL AND …`
unfoldable pub revoked : RevokeTokenRequest → ℤ → TokenRow → TokenRow
revoked req now r =
    if is_live r.deleted_at && (r.account_id == req.subject && r.client_id == req.client_id)
    then record r { deleted_at = some now }
    else r

unfoldable pub revoke_token : Outage → ℤ → Db → RevokeTokenRequest → Result Db
unfolding revoked
revoke_token outage now db req =
    execute outage Statement.delete_tokens (record db { tokens = map (revoked req now) db.tokens })
