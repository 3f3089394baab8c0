-- ===== src/Service/RefreshToken/NewClient.antt =====
-- The secret that `UpsertClient` hands out, at the check of `NewRefreshToken`.
use mono_sso.Prelude.{
  ℕ, String, len, ◌≡◌, refl, inl, inr, ◌&&◌, true, false, some, List, [], ◌∷◌, ◌++◌, All, arith,
  head?, select, any, Option-cases, eq_iff, ◌==◌, nat_eq, string_eq,
}
use mono_sso.Base64.{encode_secret}
use mono_sso.Base64.RoundTrip.{IsByte, decode_secret-encode_secret}
use mono_sso.Datastore.{Db, ClientRow, is_live, ok}
use mono_sso.Datastore.Upserts.{ClientDoc, Surroundings}
use mono_sso.Datastore.Client.{UpsertClientRequest, upsert_client, new_row}
use mono_sso.Session.Validator.{RequestSession}
use mono_sso.Service.State.{Platform}
use mono_sso.Service.RefreshToken.{select_secret, is_client_secret}

-- A row that no earlier row shares its identifier with is the one that the query finds.
head-appended :
    (row : ClientRow) (rs : List ClientRow)
    → any (λ r. r.id == row.id) rs ≡ false
    → is_live row.deleted_at ≡ true
    → head? (select (λ r. is_live r.deleted_at && r.id == row.id) (rs ++ row ∷ [])) ≡ some row
head-appended row [] fresh live = ground (arith, eq_iff row.id row.id)
head-appended row (r ∷ rs) fresh live = ground (arith, head-appended row rs)

module _ (env : Surroundings) (db db' : Db) (req : UpsertClientRequest) (session : RequestSession)
    (doc : ClientDoc) where
  created :
      (id hash : String) (bytes : List ℕ)
      → req.session ≡ some session
      → len req.client_id ≡ 0
      → env.new_id ≡ some id
      → env.random_bytes ≡ some bytes
      → env.bcrypt_hash bytes ≡ some hash
      → upsert_client env db req ≡ some (ok (doc, db'))
      → (doc.id ≡ id)
        × (doc.secret ≡ encode_secret bytes)
        × (db'.clients ≡ db.clients ++ new_row req id hash session.timestamp ∷ [])
  unfolding upsert_client
  created id hash bytes es unnamed ei eb eh h = (ground arith, ground arith, ground arith)

  generated :
      req.session ≡ some session
      → len req.client_id ≡ 0
      → upsert_client env db req ≡ some (ok (doc, db'))
      → (id hash : String) × (bytes : List ℕ) × (env.new_id ≡ some id)
        × (env.random_bytes ≡ some bytes)
        × (env.bcrypt_hash bytes ≡ some hash)
  unfolding upsert_client
  generated es unnamed h = elim (Option-cases env.new_id) [
    | inl e ↦ absurd (ground arith)
    | inr (id, ei) ↦ elim (Option-cases env.random_bytes) [
      | inl e ↦ absurd (ground arith)
      | inr (bytes, eb) ↦ elim (Option-cases (env.bcrypt_hash bytes)) [
        | inl e ↦ absurd (ground arith)
        | inr (hash, eh) ↦ (id, hash, bytes, ei, eb, eh)
      ]
    ]
  ]

  -- The client that `UpsertClient` has created can authenticate: its stored hash is found under the
  -- identifier of the response, and the secret of the response passes the check of
  -- `NewRefreshToken` against it. The identifier was not in use, the random source yields bytes, and
  -- bcrypt matches what it has hashed.
  pub upsert_client-is_client_secret :
      (platform : Platform)
      → req.session ≡ some session
      → len req.client_id ≡ 0
      → any (λ r. r.id == doc.id) db.clients ≡ false
      → ((bytes : List ℕ) → env.random_bytes ≡ some bytes → All IsByte bytes)
      → ((bytes : List ℕ) (hash : String)
          → env.bcrypt_hash bytes ≡ some hash
          → platform.bcrypt_matches hash bytes ≡ true)
      → upsert_client env db req ≡ some (ok (doc, db'))
      → (hash : String) × (select_secret (λ _. false) db' doc.id ≡ ok hash)
        × (is_client_secret platform hash doc.secret ≡ true)
  unfolding select_secret is_client_secret
  upsert_client-is_client_secret platform es unnamed fresh random matching h =
      let (id, hash, bytes, ei, eb, eh) = generated es unnamed h in
      let (e, secret, rows) = created id hash bytes es unnamed ei eb eh h in
      let row = new_row req id hash session.timestamp in
      (
        hash,
        rw (rows, e, head-appended row db.clients (rw (← e) fresh) refl),
        rw (secret, decode_secret-encode_secret bytes (random bytes eb)) (matching bytes hash eh),
      )
