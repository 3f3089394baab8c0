-- ===== src/Datastore/Client.antt =====
-- pkg/datastore/client.go.
pub mod Versions
use mono_sso.Prelude.{
  ℕ, String, len, Bool, true, false, not, Option, none, some, List, [], ◌∷◌, ◌++◌, map, ltb, length,
  head?, select, ◌==◌, nat_eq, string_eq, if◌then◌else◌,
}
use mono_sso.Prelude.Int.{ℤ, leb_ℤ}
use mono_sso.Prelude.Flow.{Flow, return, next, ◌>>=◌, ◌>>◌, run, return_if}
use mono_sso.Base64.{encode_secret}
use mono_sso.Datastore.Tables.{
  Db, ClientType, ClientRow, Outage, Statement, Error, database, client_not_found, version_mismatch,
  id_generation, random_source, hashing, Result, ok, err, execute,
}
use mono_sso.Datastore.Upserts.{
  ClientDoc, Surroundings, Upserted, attempt, run_statement, validate, require, dereference, finish,
}
use mono_sso.Session.Validator.{RequestSession}

-- sso.UpsertClientRequest
pub record UpsertClientRequest : Type 0 where
  pub session : Option RequestSession
  pub client_id : String
  pub client_type : ClientType
  pub redirect_uris : List String
  pub name : String

-- `FromUpsertClientRequest`
abbrev from_upsert_client_request : UpsertClientRequest → ClientDoc → ClientDoc
from_upsert_client_request req doc = record doc {
  redirect_uris = req.redirect_uris;
  name = req.name;
  client_type = req.client_type;
}

abbrev pub clients_by_id : Db → String → List ClientRow
clients_by_id db id = select (λ r. r.id == id) db.clients

-- `ClientExistsByID`
unfoldable pub client_exists_by_id : Outage → Db → String → Result Bool
client_exists_by_id outage db id =
    execute outage Statement.count_clients (ltb 0 (length (clients_by_id db id)))

abbrev stored : Option ClientRow → Result ℤ
stored none = err client_not_found
stored (some r) = ok r.updated_at

-- `SELECT updated_at FROM sso.client WHERE id = $1`
select_client : Outage → Db → String → Result ℤ
select_client outage db id =
    if outage Statement.select_client
    then err (database Statement.select_client)
    else stored (head? (clients_by_id db id))

-- `UPDATE sso.client SET name=$1, type=$2, redirect_uris=$3, updated_at=$4 WHERE id=$5`
pub update_row : UpsertClientRequest → ℤ → ClientRow → ClientRow
update_row req timestamp r =
    if r.id == req.client_id
    then record r {
      name = req.name;
      client_type = req.client_type;
      redirect_uris = req.redirect_uris;
      updated_at = timestamp;
    }
    else r

-- An empty `ClientDoc`, whose type is the zero of the enumeration.
abbrev new_doc : ClientDoc
new_doc = record {
  id = "";
  name = "";
  secret = "";
  redirect_uris = [];
  client_type = ClientType.public;
  created_at = none;
  updated_at = none;
}

-- The branch of a request that names a client.
update_client :
    Surroundings → Db → UpsertClientRequest → ℤ → Flow (Upserted (ClientDoc × Db)) (ClientDoc × Db)
unfolding select_client update_row
update_client env db req timestamp = do
  updated_at ← attempt (select_client env.outage db req.client_id)
  return_if (leb_ℤ timestamp updated_at) (some (err version_mismatch))
  let doc =
      from_upsert_client_request req
        (record new_doc { id = req.client_id; updated_at = some timestamp })
  validate (env.validator.client doc)
  run_statement env.outage Statement.update_client
  run_statement env.outage Statement.commit_tx
  next (doc, record db { clients = map (update_row req timestamp) db.clients })

abbrev pub new_row : UpsertClientRequest → String → String → ℤ → ClientRow
new_row req id secret_hash timestamp = record {
  id = id;
  name = req.name;
  client_type = req.client_type;
  redirect_uris = req.redirect_uris;
  secret = some secret_hash;
  created_at = timestamp;
  updated_at = timestamp;
  deleted_at = none;
}

insert_client :
    Surroundings → Db → UpsertClientRequest → ℤ → Flow (Upserted (ClientDoc × Db)) (ClientDoc × Db)
insert_client env db req timestamp = do
  let doc = from_upsert_client_request req new_doc
  validate (env.validator.client doc)
  id ← require id_generation env.new_id
  secret ← require random_source env.random_bytes
  secret_hash ← require hashing (env.bcrypt_hash secret)
  run_statement env.outage Statement.insert_client
  run_statement env.outage Statement.commit_tx
  next (
    record doc {
      id = id;
      secret = encode_secret secret;
      created_at = some timestamp;
      updated_at = some timestamp;
    },
    record db { clients = db.clients ++ new_row req id secret_hash timestamp ∷ [] },
  )

-- `UpsertClient`: the doc with the new tables, or an error after which the deferred rollback keeps
-- the old.
unfoldable pub upsert_client : Surroundings → Db → UpsertClientRequest → Upserted (ClientDoc × Db)
unfolding update_client insert_client
upsert_client env db req = finish do
  run_statement env.outage Statement.begin_tx
  session ← dereference req.session
  (if not (len req.client_id == 0)
      then update_client env db req session.timestamp
      else insert_client env db req session.timestamp)
