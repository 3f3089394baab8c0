-- ===== src/Datastore/Client/Versions.antt =====
-- The optimistic lock of `UpsertClient`.
use mono_sso.Prelude.{
  String, len, ◌≡◌, ◌≢◌, inl, inr, false, none, some, map, arith, head?, select-map, head?-map,
  head?-select, Option-cases, ◌==◌, nat_eq, string_eq,
}
use mono_sso.Prelude.Int.{ℤ, ◌<ℤ◌}
use mono_sso.Datastore.Tables.{Db, ClientRow, ok, err, version_mismatch}
use mono_sso.Datastore.Upserts.{ClientDoc, Surroundings}
use mono_sso.Datastore.Client.{UpsertClientRequest, upsert_client, update_row, clients_by_id}
use mono_sso.Session.Validator.{RequestSession}

-- What an update that succeeds has done: the client was there with an older version.
update_done :
    (env : Surroundings) (db db' : Db) (req : UpsertClientRequest) (session : RequestSession)
    (row : ClientRow) (doc : ClientDoc)
    → req.session ≡ some session
    → len req.client_id ≢ 0
    → head? (clients_by_id db req.client_id) ≡ some row
    → upsert_client env db req ≡ some (ok (doc, db'))
    → (row.updated_at <ℤ session.timestamp)
      × (db' ≡ record db { clients = map (update_row req session.timestamp) db.clients })
unfolding upsert_client
update_done env db db' req session row doc es named found h = (ground arith, ground arith)

update_missing :
    (env : Surroundings) (db db' : Db) (req : UpsertClientRequest) (session : RequestSession)
    (doc : ClientDoc)
    → req.session ≡ some session
    → len req.client_id ≢ 0
    → head? (clients_by_id db req.client_id) ≡ none
    → upsert_client env db req ≡ some (ok (doc, db'))
    → ⊥
unfolding upsert_client
update_missing env db db' req session doc es named found h = ground arith

module _ (req : UpsertClientRequest) (timestamp : ℤ) where
  update_row-id :
      (who : String) (r : ClientRow) → ((update_row req timestamp r).id == who) ≡ (r.id == who)
  unfolding update_row
  update_row-id who r = ground arith

  clients_by_id-update :
      (who : String) (db : Db)
      → clients_by_id (record db { clients = map (update_row req timestamp) db.clients }) who
        ≡ map (update_row req timestamp) (clients_by_id db who)
  clients_by_id-update who db =
      select-map (λ r. r.id == who) (update_row req timestamp) db.clients (update_row-id who)

-- An update of a client that has succeeded cannot be replayed: the same request, made again with
-- the tables that it left and no failing statement, is refused as a version mismatch.
pub upsert_client_replay :
    (env again : Surroundings) (db db' : Db) (req : UpsertClientRequest) (session : RequestSession)
    (doc : ClientDoc)
    → req.session ≡ some session
    → len req.client_id ≢ 0
    → again.outage ≡ (λ _. false)
    → upsert_client env db req ≡ some (ok (doc, db'))
    → upsert_client again db' req ≡ some (err version_mismatch)
unfolding upsert_client update_row
upsert_client_replay env again db db' req session doc es named healthy h =
    elim (Option-cases (head? (clients_by_id db req.client_id))) [
      | inl missing ↦ absurd (update_missing env db db' req session doc es named missing h)
      | inr (row, found) ↦
          let (older, e) = update_done env db db' req session row doc es named found h in
          let m = head?-select (λ r. r.id == req.client_id) row db.clients found in
          let there : head? (clients_by_id db' req.client_id)
              ≡ some (update_row req session.timestamp row) =
            rw (e, clients_by_id-update req session.timestamp req.client_id db)
              (head?-map (update_row req session.timestamp) row (clients_by_id db req.client_id)
                found) in
          ground arith
    ]
