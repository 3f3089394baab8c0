-- ===== src/Datastore/Scope.antt =====
-- pkg/datastore/scope.go.
pub mod Versions
use mono_sso.Prelude.{
  String, Bool, true, false, ◌&&◌, not, Option, none, some, List, [], ◌∷◌, ◌++◌, map, head?, select,
  any, ◌==◌, string_eq, if◌then◌else◌,
}
use mono_sso.Prelude.Int.{ℤ, leb_ℤ}
use mono_sso.Prelude.Flow.{Flow, return, next, ◌>>=◌, ◌>>◌, run, return_if}
use mono_sso.Datastore.Tables.{
  Db, ScopeRow, ScopeI18nRow, Outage, Statement, Error, database, client_not_found,
  version_mismatch, id_generation, Result, ok, err, execute,
}
use mono_sso.Datastore.Upserts.{
  ScopeDoc, ScopeI18nDoc, Surroundings, Upserted, attempt, run_statement, validate, require,
  dereference, finish,
}
use mono_sso.Datastore.Client.{client_exists_by_id}
use mono_sso.Session.Validator.{RequestSession}

-- sso.UpsertScopeRequest
pub record UpsertScopeRequest : Type 0 where
  pub session : Option RequestSession
  pub client_id : String
  pub scope : String
  pub description : String

-- `ScopeDoc.FromUpsertScopeRequest`
abbrev scope_from_request : UpsertScopeRequest → ScopeDoc → ScopeDoc
scope_from_request req doc = record doc { client_id = req.client_id; scope = req.scope }

-- `ScopeI18nDoc.FromUpsertScopeRequest`
abbrev scope_i18n_from_request : UpsertScopeRequest → RequestSession → ScopeI18nDoc
scope_i18n_from_request req session = record {
  description = req.description;
  locale = session.locale;
}

abbrev pub is_named : UpsertScopeRequest → ScopeRow → Bool
is_named req r = r.scope == req.scope && r.client_id == req.client_id

-- `SELECT sco.updated_at, sco.id FROM sso.scope AS sco WHERE …`; `ok none` is ErrNoRows.
select_scope : Outage → Db → UpsertScopeRequest → Result (Option ScopeRow)
select_scope outage db req =
    execute outage Statement.select_scope (head? (select (is_named req) db.scopes))

-- The identifier of the scope, a new one or that of the row, once its version has been compared.
scope_id : {A : Type 0} → Surroundings → ℤ → Option ScopeRow → Flow (Upserted A) (String × Option ℤ)
scope_id env timestamp none = do id ← require id_generation env.new_id; next (id, some timestamp)
scope_id env timestamp (some r) = do
  return_if (leb_ℤ timestamp r.updated_at) (some (err version_mismatch))
  next (r.id, none)

-- `INSERT INTO sso.scope … ON CONFLICT ON CONSTRAINT unq_sso_scope_id DO UPDATE SET updated_at = $5`
pub upsert_row : ScopeRow → List ScopeRow → List ScopeRow
upsert_row row [] = row ∷ []
upsert_row row (r ∷ rs) =
    if r.id == row.id then record r { updated_at = row.updated_at } ∷ rs else r ∷ upsert_row row rs

-- `INSERT INTO sso.scope_i18n … ON CONFLICT … DO UPDATE SET description = $3, updated_at = $5`
pub upsert_i18n : ScopeI18nRow → List ScopeI18nRow → List ScopeI18nRow
upsert_i18n row [] = row ∷ []
upsert_i18n row (r ∷ rs) =
    if r.scope_id == row.scope_id && r.locale == row.locale
    then record r { description = row.description; updated_at = row.updated_at } ∷ rs
    else r ∷ upsert_i18n row rs

abbrev pub new_row : UpsertScopeRequest → String → ℤ → ScopeRow
new_row req id timestamp = record {
  id = id;
  client_id = req.client_id;
  scope = req.scope;
  created_at = timestamp;
  updated_at = timestamp;
  deleted_at = none;
}

abbrev pub new_i18n : ScopeI18nDoc → String → ℤ → ScopeI18nRow
new_i18n doc id timestamp = record {
  scope_id = id;
  locale = doc.locale;
  description = doc.description;
  created_at = timestamp;
  updated_at = timestamp;
}

-- `UpsertScope`: the doc with the new tables, or an error after which the deferred rollback keeps
-- the old.
unfoldable pub upsert_scope : Surroundings → Db → UpsertScopeRequest → Upserted (ScopeDoc × Db)
unfolding select_scope scope_id upsert_row upsert_i18n
upsert_scope env db req = finish do
  run_statement env.outage Statement.begin_tx
  session ← dereference req.session
  found ← attempt (select_scope env.outage db req)
  id ← scope_id env session.timestamp found
  exists ← attempt (client_exists_by_id env.outage db req.client_id)
  return_if (not exists) (some (err client_not_found))
  let doc = scope_from_request req (record {
    id = id.0;
    client_id = "";
    scope = "";
    created_at = id.1;
    updated_at = some session.timestamp;
  })
  validate (env.validator.scope doc)
  let i18n = scope_i18n_from_request req session
  validate (env.validator.scope_i18n i18n)
  run_statement env.outage Statement.upsert_scope
  run_statement env.outage Statement.upsert_scope_i18n
  run_statement env.outage Statement.commit_tx
  next (
    doc,
    record db {
      scopes = upsert_row (new_row req id.0 session.timestamp) db.scopes;
      scopes_i18n = upsert_i18n (new_i18n i18n id.0 session.timestamp) db.scopes_i18n;
    },
  )
