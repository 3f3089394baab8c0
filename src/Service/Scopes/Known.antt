-- ===== src/Service/Scopes/Known.antt =====
-- What `hasUnknownScopes` says of each scope.
use mono_sso.Prelude.{
  suc, ◌≤◌, String, ◌≡◌, ◌≢◌, refl, ◌∙◌, ap, inl, inr, ◌&&◌, Bool, true, false, List, [], ◌∷◌, map,
  arith, length, contains, contains-In, select, In, Bool-cases, eq_iff, ◌==◌, nat_eq, string_eq,
  if◌then◌else◌,
}
use mono_sso.Datastore.{Db, ScopeRow, Outage, ok}
use mono_sso.Service.Scopes.{is_scope_of, has_unknown_scopes}

abbrev pub IsDistinct : List String → Type 0
IsDistinct [] = Unit
IsDistinct (x ∷ xs) = (contains xs x ≡ false) × IsDistinct xs

remove : String → List String → List String
remove s [] = []
remove s (x ∷ xs) = if x == s then xs else x ∷ remove s xs

length-remove :
    (s : String) (xs : List String) → contains xs s ≡ true → length xs ≡ suc (length (remove s xs))
unfolding remove
length-remove s [] h = absurd (cc)
length-remove s (x ∷ xs) h = ground (arith, length-remove s xs)

contains-remove :
    (s t : String) (xs : List String)
    → t ≢ s
    → contains xs t ≡ true
    → contains (remove s xs) t ≡ true
unfolding remove
contains-remove s t [] ne h = absurd (cc)
contains-remove s t (x ∷ xs) ne h =
    ground (arith, contains-remove s t xs ne, eq_iff x s, eq_iff x t)

-- Distinct texts among others are at most as many.
length_le :
    (xs ys : List String)
    → IsDistinct xs
    → ((t : String) → contains xs t ≡ true → contains ys t ≡ true)
    → length xs ≤ length ys
length_le [] ys d h = omega arith
length_le (x ∷ xs) ys (fresh, d) h = omega (
  arith,
  length-remove x ys (h x (ground (arith, eq_iff x x))),
  length_le xs (remove x ys) d
      λ t m. contains-remove x t ys (λ e. absurd (differ t m e)) (h t (ground (arith, m))),
)
  where
    differ : (t : String) → contains xs t ≡ true → t ≡ x → ⊥
    differ t m e = ground (arith, ap (contains xs) e)

-- As many distinct texts among others are all of them.
pigeonhole :
    (xs ys : List String) (s : String)
    → IsDistinct xs
    → ((t : String) → contains xs t ≡ true → contains ys t ≡ true)
    → length xs ≡ length ys
    → contains ys s ≡ true
    → contains xs s ≡ true
pigeonhole xs ys s d h e m = elim (Bool-cases (contains xs s)) [
  | inl yes_in ↦ yes_in
  | inr missing ↦ absurd (
      omega (
        arith,
        e,
        length-remove s ys m,
        length_le xs (remove s ys) d
            λ t k. contains-remove s t ys (λ q. absurd (differ missing t k q)) (h t k),
      ))
]
  where
    differ : contains xs s ≡ false → (t : String) → contains xs t ≡ true → t ≡ s → ⊥
    differ missing t k q = ground (arith, ap (contains xs) q)

module _ (client : String) (scopes : List String) where
  abbrev counted : ScopeRow → Bool
  counted r = is_scope_of client r && contains scopes r.scope

  names_asked :
      (rows : List ScopeRow) (t : String)
      → contains (map (λ r. r.scope) (select counted rows)) t ≡ true
      → contains scopes t ≡ true
  names_asked [] t h = absurd (cc)
  names_asked (r ∷ rows) t h = elim (Bool-cases (counted r)) [
    | inr f ↦ names_asked rows t (rw f at h)
    | inl c ↦ elim (Bool-cases (r.scope == t)) [
      | inl e ↦ ground (arith, ap (contains scopes) ((eq_iff r.scope t).0 e))
      | inr f ↦ names_asked rows t (rw (c, f) at h)
    ]
  ]

  names_row :
      (rows : List ScopeRow) (t : String)
      → contains (map (λ r. r.scope) (select counted rows)) t ≡ true
      → (r : ScopeRow) × In r rows × (is_scope_of client r ≡ true) × (r.scope ≡ t)
  names_row [] t h = absurd (cc)
  names_row (r ∷ rows) t h = elim (Bool-cases (counted r)) [
    | inr f ↦ let (q, m, live, named) = names_row rows t (rw f at h) in (q, inr m, live, named)
    | inl c ↦ elim (Bool-cases (r.scope == t)) [
      | inl e ↦ (r, inl refl, ground arith, (eq_iff r.scope t).0 e)
      | inr f ↦
          let (q, m, live, named) = names_row rows t (rw (c, f) at h) in (q, inr m, live, named)
    ]
  ]

  length-names : (rows : List ScopeRow) → length (map (λ r. r.scope) rows) ≡ length rows
  length-names [] = refl
  length-names (r ∷ rows) = ap suc (length-names rows)

  missing_names :
      (rows : List ScopeRow) (t : String)
      → contains (map (λ r. r.scope) (select (is_scope_of client) rows)) t ≡ false
      → contains (map (λ r. r.scope) (select counted rows)) t ≡ false
  missing_names [] t h = refl
  missing_names (r ∷ rows) t h = ground (arith, missing_names rows t)

  names-IsDistinct :
      (rows : List ScopeRow)
      → IsDistinct (map (λ r. r.scope) (select (is_scope_of client) rows))
      → IsDistinct (map (λ r. r.scope) (select counted rows))
  names-IsDistinct [] d = tt
  names-IsDistinct (r ∷ rows) d = elim (Bool-cases (is_scope_of client r)) [
    | inr f ↦ rw f (names-IsDistinct rows (rw f at d))
    | inl live ↦
        let (fresh, rest) = rw live at d in
        elim (Bool-cases (contains scopes r.scope)) [
          | inl asked ↦
              rw (live, asked) (missing_names rows r.scope fresh, names-IsDistinct rows rest)
          | inr other ↦ rw (live, other) (names-IsDistinct rows rest)
        ]
  ]

-- As many live rows as scopes that they are asked for by name: every scope names one.
pub counted_known :
    (db : Db) (client : String) (scopes : List String) (s : String)
    → IsDistinct (map (λ r. r.scope) (select (is_scope_of client) db.scopes))
    → length (select (λ r. is_scope_of client r && contains scopes r.scope) db.scopes)
      ≡ length scopes
    → In s scopes
    → (r : ScopeRow) × In r db.scopes × (is_scope_of client r ≡ true) × (r.scope ≡ s)
counted_known db client scopes s d same m =
    let rows = select (counted client scopes) db.scopes in
    names_row client scopes db.scopes s (
      pigeonhole (map (λ r. r.scope) rows) scopes s (names-IsDistinct client scopes db.scopes d)
        (names_asked client scopes db.scopes) (length-names client scopes rows ∙ same)
        (contains-In s scopes m))

-- Where `hasUnknownScopes`, which compares two numbers, answers no, and the live scopes of the
-- client have different names, every requested scope is the name of one of them.
pub has_unknown_scopes_sound :
    (outage : Outage) (db : Db) (client : String) (scopes : List String) (s : String)
    → IsDistinct (map (λ r. r.scope) (select (is_scope_of client) db.scopes))
    → has_unknown_scopes outage db client scopes ≡ ok false
    → In s scopes
    → (r : ScopeRow) × In r db.scopes × (is_scope_of client r ≡ true) × (r.scope ≡ s)
unfolding has_unknown_scopes
has_unknown_scopes_sound outage db client scopes s d h m =
    counted_known db client scopes s d (ground arith) m
