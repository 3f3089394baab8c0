-- ===== src/Datastore/Scope/Versions.antt =====
-- The keys and the optimistic lock of `UpsertScope`.
use mono_sso.Prelude.{
  String, ◌≡◌, refl, inl, inr, false, none, some, List, [], ◌∷◌, arith, head?, select, any, any-In,
  head?-select, Option-cases, Bool-cases, eq_iff, ◌==◌, nat_eq, string_eq,
}
use mono_sso.Prelude.Int.{ℤ}
use mono_sso.Datastore.Tables.{Db, ScopeRow, ok, err, version_mismatch}
use mono_sso.Datastore.Upserts.{ScopeDoc, Surroundings}
use mono_sso.Datastore.Client.{client_exists_by_id}
use mono_sso.Datastore.Scope.{UpsertScopeRequest, upsert_scope, upsert_row, is_named, new_row}
use mono_sso.Session.Validator.{RequestSession}

-- No two rows have the same identifier.
abbrev IsKeyed : List ScopeRow → Type 0
IsKeyed [] = Unit
IsKeyed (r ∷ rs) = (any (λ q. q.id == r.id) rs ≡ false) × IsKeyed rs

module _ (req : UpsertScopeRequest) (timestamp : ℤ) where
  -- The upsert of the row that the query found updates that row.
  named_updated :
      (r : ScopeRow) (rs : List ScopeRow)
      → IsKeyed rs
      → head? (select (is_named req) rs) ≡ some r
      → head? (select (is_named req) (upsert_row (new_row req r.id timestamp) rs))
        ≡ some (record r { updated_at = timestamp })
  unfolding upsert_row
  named_updated r [] keyed h = absurd (cc)
  named_updated r (q ∷ rs) (fresh, keyed) h = elim (Bool-cases (is_named req q)) [
    | inl named ↦ ground (arith, eq_iff q.id r.id)
    | inr other ↦
        let found : head? (select (is_named req) rs) ≡ some r = rw other at h in
        let m = head?-select (is_named req) r rs found in
        ground (
          arith,
          named_updated r rs keyed found,
          any-In (λ p. p.id == q.id) r rs m.0,
          eq_iff q.id r.id,
          eq_iff r.id q.id,
        )
  ]

  -- The upsert of a row with a fresh identifier adds it.
  named_added :
      (id : String) (rs : List ScopeRow)
      → any (λ q. q.id == id) rs ≡ false
      → head? (select (is_named req) rs) ≡ none
      → head? (select (is_named req) (upsert_row (new_row req id timestamp) rs))
        ≡ some (new_row req id timestamp)
  unfolding upsert_row
  named_added id [] fresh h =
      ground (arith, eq_iff req.scope req.scope, eq_iff req.client_id req.client_id)
  named_added id (q ∷ rs) fresh h = ground (arith, named_added id rs)

module _ (env : Surroundings) (db db' : Db) (req : UpsertScopeRequest) (session : RequestSession)
    (doc : ScopeDoc) where
  updated_rows :
      (r : ScopeRow)
      → req.session ≡ some session
      → head? (select (is_named req) db.scopes) ≡ some r
      → upsert_scope env db req ≡ some (ok (doc, db'))
      → db'.scopes ≡ upsert_row (new_row req r.id session.timestamp) db.scopes
  unfolding upsert_scope client_exists_by_id
  updated_rows r es found h = ground arith

  added_rows :
      (id : String)
      → req.session ≡ some session
      → head? (select (is_named req) db.scopes) ≡ none
      → env.new_id ≡ some id
      → upsert_scope env db req ≡ some (ok (doc, db'))
      → db'.scopes ≡ upsert_row (new_row req id session.timestamp) db.scopes
  unfolding upsert_scope client_exists_by_id
  added_rows id es found fresh h = ground arith

  no_id :
      req.session ≡ some session
      → head? (select (is_named req) db.scopes) ≡ none
      → env.new_id ≡ none
      → upsert_scope env db req ≡ some (ok (doc, db'))
      → ⊥
  unfolding upsert_scope client_exists_by_id
  no_id es found fresh h = ground arith

  -- The scope that an upsert has written, as the query of the next call finds it.
  named_after :
      req.session ≡ some session
      → IsKeyed db.scopes
      → ((id : String) → env.new_id ≡ some id → any (λ r. r.id == id) db.scopes ≡ false)
      → upsert_scope env db req ≡ some (ok (doc, db'))
      → (r : ScopeRow) × (head? (select (is_named req) db'.scopes) ≡ some r)
        × (r.updated_at ≡ session.timestamp)
  named_after es keyed fresh h = elim (Option-cases (head? (select (is_named req) db.scopes))) [
    | inr (r, found) ↦ (
      record r { updated_at = session.timestamp },
      rw (updated_rows r es found h) (named_updated req session.timestamp r db.scopes keyed found),
      refl,
    )
    | inl missing ↦ elim (Option-cases env.new_id) [
      | inl failed ↦ absurd (no_id es missing failed h)
      | inr (id, given) ↦ (
        new_row req id session.timestamp,
        rw (added_rows id es missing given h)
            (named_added req session.timestamp id db.scopes (fresh id given) missing),
        refl,
      )
    ]
  ]

  -- An upsert of a scope that has succeeded, whether it created or updated the scope, cannot be
  -- replayed: the same request, made again with the tables that it left and no failing statement,
  -- is refused as a version mismatch. The identifiers of the scopes before it were all different,
  -- and a generated one was not among them.
  pub upsert_scope_replay :
      (again : Surroundings)
      → req.session ≡ some session
      → IsKeyed db.scopes
      → ((id : String) → env.new_id ≡ some id → any (λ r. r.id == id) db.scopes ≡ false)
      → again.outage ≡ (λ _. false)
      → upsert_scope env db req ≡ some (ok (doc, db'))
      → upsert_scope again db' req ≡ some (err version_mismatch)
  unfolding upsert_scope
  upsert_scope_replay again es keyed fresh healthy h =
      let (r, found, e) = named_after es keyed fresh h in ground arith
