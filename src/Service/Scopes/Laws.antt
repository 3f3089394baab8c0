-- ===== src/Service/Scopes/Laws.antt =====
-- What `getUnauthorizedScopes` reports.
use mono_sso.Prelude.{
  ℕ, String, ◌≡◌, refl, sym, ◌∙◌, subst, ◌↔◌, ◌⊎◌, inl, inr, true, false, List, [], ◌∷◌, ap, arith,
  any, concat_map, In, In-concat_map, concat_map-In, Bool-cases, eq_iff, ◌==◌, string_eq,
}
use mathlib.Core.Path.{fun_ext}
use mono_sso.Datastore.{
  Db, ScopeRow, Outage, Statement, ok, read_rows, read_rows-whole, read_rows-nil,
}
use mono_sso.Service.Scopes.{
  is_scope_of, is_grant_of, join_scope, unauthorized_rows, get_unauthorized_scopes,
}

-- A live scope of the client, of this name, that the account has not granted.
abbrev pub IsUngranted : String → String → Db → String → ScopeRow → Type 0
IsUngranted client account db s sco =
    In sco db.scopes
    × (is_scope_of client sco ≡ true)
    × (sco.scope ≡ s)
    × (any (is_grant_of account sco.id) db.grants ≡ false)

module _ (client account : String) (db : Db) where
  join_scope-In :
      (s r : String) (sco : ScopeRow)
      → In sco db.scopes
      → In s (join_scope client account db r sco)
      → (s ≡ r) × IsUngranted client account db s sco
  unfolding join_scope
  join_scope-In s r sco m h = elim (Bool-cases (is_scope_of client sco)) [
    | inr f ↦ absurd (rw f at h)
    | inl live ↦ elim (Bool-cases (sco.scope == r)) [
      | inr f ↦ absurd (rw (live, f) at h)
      | inl named ↦ elim (Bool-cases (any (is_grant_of account sco.id) db.grants)) [
        | inl g ↦ absurd (rw (live, named, g) at h)
        | inr g ↦ at_row live named g (rw (live, named, g) at h)
      ]
    ]
  ]
    where
      at_row :
          is_scope_of client sco ≡ true
          → (sco.scope == r) ≡ true
          → any (is_grant_of account sco.id) db.grants ≡ false
          → (s ≡ r) ⊎ ⊥
          → (s ≡ r) × IsUngranted client account db s sco
      at_row live named g (inl e) = (e, (m, live, (eq_iff sco.scope r).0 named ∙ sym e, g))
      at_row live named g (inr no_row) = absurd no_row

  In-join_scope :
      (s : String) (sco : ScopeRow)
      → IsUngranted client account db s sco
      → In s (join_scope client account db s sco)
  unfolding join_scope
  In-join_scope s sco (m, live, named, g) = rw (live, (eq_iff sco.scope s).1 named, g) (inl refl)

  pub In-unauthorized_rows :
      (s : String) (sco : ScopeRow) (scopes : List String)
      → In s scopes
      → IsUngranted client account db s sco
      → In s (unauthorized_rows client account db scopes)
  unfolding unauthorized_rows
  In-unauthorized_rows s sco scopes m u =
      In-concat_map (λ r. concat_map (join_scope client account db r) db.scopes) s s scopes m
        (In-concat_map (join_scope client account db s) sco s db.scopes u.0 (In-join_scope s sco u))

  pub unauthorized_rows-In :
      (s : String) (scopes : List String)
      → In s (unauthorized_rows client account db scopes)
      → In s scopes × ((sco : ScopeRow) × IsUngranted client account db s sco)
  unfolding unauthorized_rows
  unauthorized_rows-In s scopes h =
      let outer =
        concat_map-In (λ r. concat_map (join_scope client account db r) db.scopes) s scopes h in
      let inner = concat_map-In (join_scope client account db outer.0) s db.scopes outer.2 in
      let row = join_scope-In s outer.0 inner.0 inner.1 inner.2 in
      (subst (λ t. In t scopes) (sym row.0) outer.1, (inner.0, row.1))

  -- No rows, when every live scope of the client that is asked for has been granted.
  pub unauthorized_rows-nil :
      (scopes : List String)
      → ((s : String) (sco : ScopeRow) → In s scopes → IsUngranted client account db s sco → ⊥)
      → unauthorized_rows client account db scopes ≡ []
  unauthorized_rows-nil scopes h =
      no_member (unauthorized_rows client account db scopes)
        λ s m. let r = unauthorized_rows-In s scopes m in h s r.1.0 r.0 r.1.1
    where
      no_member : (xs : List String) → ((s : String) → In s xs → ⊥) → xs ≡ []
      no_member [] k = refl
      no_member (x ∷ xs) k = absurd (k x (inl refl))

-- What it returns are the rows that it could read.
pub get_unauthorized_scopes-read :
    (outage : Outage) (db : Db) (client account : String) (scopes rows : List String)
    → get_unauthorized_scopes outage db client account scopes ≡ ok rows
    → rows
      ≡ read_rows outage Statement.next_unauthorized_scope 0
          (unauthorized_rows client account db scopes)
unfolding get_unauthorized_scopes
get_unauthorized_scopes-read outage db client account [] rows h = absurd (cc)
get_unauthorized_scopes-read outage db client account (t ∷ ts) rows h = ground arith

-- When it finds none, there is none, or the first could not be fetched.
pub get_unauthorized_scopes-nil :
    (outage : Outage) (db : Db) (client account : String) (scopes : List String)
    → get_unauthorized_scopes outage db client account scopes ≡ ok []
    → (unauthorized_rows client account db scopes ≡ [])
      ⊎ (outage (Statement.next_unauthorized_scope 0) ≡ true)
get_unauthorized_scopes-nil outage db client account scopes h =
    read_rows-nil outage Statement.next_unauthorized_scope 0
      (unauthorized_rows client account db scopes)
      (sym (get_unauthorized_scopes-read outage db client account scopes [] h))

-- `getUnauthorizedScopes`, when it returns and every row could be fetched, reports a scope exactly
-- when it was requested and names a live scope of the client that the account has not granted.
pub get_unauthorized_scopes-IsUngranted :
    (outage : Outage) (db : Db) (client account : String) (scopes rows : List String) (s : String)
    → ((i : ℕ) → outage (Statement.next_unauthorized_scope i) ≡ false)
    → get_unauthorized_scopes outage db client account scopes ≡ ok rows
    → In s rows ↔ (In s scopes × ((sco : ScopeRow) × IsUngranted client account db s sco))
get_unauthorized_scopes-IsUngranted outage db client account scopes rows s whole h =
    let e : rows ≡ unauthorized_rows client account db scopes =
      get_unauthorized_scopes-read outage db client account scopes rows h
      ∙ read_rows-whole outage Statement.next_unauthorized_scope 0
          (unauthorized_rows client account db scopes) whole in
    (
      λ m. unauthorized_rows-In client account db s scopes (subst (λ l. In s l) e m),
      λ (m, (sco, u)).
          subst (λ l. In s l) (sym e) (In-unauthorized_rows client account db s sco scopes m u),
    )

-- The rows depend on the scopes and on which grants of the account are live.
pub unauthorized_rows_congr :
    (client account : String) (db db' : Db) (scopes : List String)
    → db'.scopes ≡ db.scopes
    → ((id : String)
        → any (is_grant_of account id) db'.grants ≡ any (is_grant_of account id) db.grants)
    → unauthorized_rows client account db' scopes ≡ unauthorized_rows client account db scopes
unfolding unauthorized_rows join_scope
unauthorized_rows_congr client account db db' scopes es eg = simp es (
    ap (λ f. concat_map (λ r. concat_map (f r) db.scopes) scopes)
      (fun_ext λ r. fun_ext λ sco. same_row r sco))
  where
    same_row :
        (r : String) (sco : ScopeRow)
        → join_scope client account db' r sco ≡ join_scope client account db r sco
    same_row r sco = rw (eg sco.id)
