-- ===== src/Prelude/Members.antt =====
-- Membership as a recursive predicate, and what it says of selections and of concatenated maps.
use Prim.Native.String.{String}
use mathlib.Core.Path.{◌≡◌, refl, ap, sym, ◌∙◌, subst}
use mathlib.Core.Bool.{Bool, true}
use mathlib.Core.Logic.{◌⊎◌, inl, inr}
use mathlib.Core.List.{List, [], ◌∷◌, ◌++◌, map}
use mathlib.Core.Option.{some}
use native.Mathlib.Omega.{arith}
use text.Mathlib.TextEquality.{eq_iff}
use mono_sso.Prelude.Tests.{Bool-cases, ◌==◌, string_eq}
use mono_sso.Prelude.Lists.{select, any, concat_map, head?}
use mono_sso.Prelude.Texts.{contains}

module _ {A : Type 0} where
  abbrev pub In : A → List A → Type 0
  In x [] = ⊥
  In x (y ∷ ys) = (x ≡ y) ⊎ In x ys

  pub In-append_left : (x : A) (xs ys : List A) → In x xs → In x (xs ++ ys)
  In-append_left x [] ys h = absurd h
  In-append_left x (y ∷ xs) ys (inl e) = inl e
  In-append_left x (y ∷ xs) ys (inr h) = inr (In-append_left x xs ys h)

  pub In-append_right : (x : A) (xs ys : List A) → In x ys → In x (xs ++ ys)
  In-append_right x [] ys h = h
  In-append_right x (y ∷ xs) ys h = inr (In-append_right x xs ys h)

  pub In-append : (x : A) (xs ys : List A) → In x (xs ++ ys) → In x xs ⊎ In x ys
  In-append x [] ys h = inr h
  In-append x (y ∷ xs) ys (inl e) = inl (inl e)
  In-append x (y ∷ xs) ys (inr h) = elim (In-append x xs ys h) [
    | inl a ↦ inl (inr a)
    | inr b ↦ inr b
  ]

  pub In-select : (p : A → Bool) (x : A) (xs : List A) → In x xs → p x ≡ true → In x (select p xs)
  In-select p x [] m h = absurd m
  In-select p x (y ∷ xs) (inl e) h = rw (sym (ap p e) ∙ h) (inl e)
  In-select p x (y ∷ xs) (inr m) h = elim (Bool-cases (p y)) [
    | inl t ↦ rw t (inr (In-select p x xs m h))
    | inr f ↦ rw f (In-select p x xs m h)
  ]

  select-In_cases :
      (p : A → Bool) (x y : A) (xs : List A)
      → (In x (select p xs) → In x xs × (p x ≡ true))
      → p y ≡ true
      → (x ≡ y) ⊎ In x (select p xs)
      → In x (y ∷ xs) × (p x ≡ true)
  select-In_cases p x y xs ih t (inl e) = (inl e, ap p e ∙ t)
  select-In_cases p x y xs ih t (inr h) = (inr (ih h).0, (ih h).1)

  pub select-In : (p : A → Bool) (x : A) (xs : List A) → In x (select p xs) → In x xs × (p x ≡ true)
  select-In p x [] m = absurd m
  select-In p x (y ∷ xs) m = elim (Bool-cases (p y)) [
    | inl t ↦ select-In_cases p x y xs (select-In p x xs) t (rw t at m)
    | inr f ↦ let r = select-In p x xs (rw f at m) in (inr r.0, r.1)
  ]

  pub select-append :
      (p : A → Bool) (xs ys : List A) → select p (xs ++ ys) ≡ select p xs ++ select p ys
  select-append p [] ys = refl
  select-append p (x ∷ xs) ys = ground (arith, select-append p xs ys)

  -- A map that keeps the test commutes with the selection.
  pub select-map :
      (p : A → Bool) (f : A → A) (xs : List A)
      → ((x : A) → p (f x) ≡ p x)
      → select p (map f xs) ≡ map f (select p xs)
  select-map p f [] h = refl
  select-map p f (x ∷ xs) h = ground (arith, h x, select-map p f xs h)

  -- A head that passes the test was in the list.
  pub head?-select :
      (p : A → Bool) (x : A) (xs : List A) → head? (select p xs) ≡ some x → In x xs × (p x ≡ true)
  head?-select p x [] h = absurd (cc)
  head?-select p x (y ∷ xs) h = elim (Bool-cases (p y)) [
    | inl t ↦ let e : y ≡ x = ground arith in (inl (sym e), ap p (sym e) ∙ t)
    | inr f ↦ let r = head?-select p x xs (rw f at h) in (inr r.0, r.1)
  ]

  pub any-In : (p : A → Bool) (x : A) (xs : List A) → In x xs → p x ≡ true → any p xs ≡ true
  any-In p x [] m h = absurd m
  any-In p x (y ∷ xs) (inl e) h = rw (sym (ap p e) ∙ h)
  any-In p x (y ∷ xs) (inr m) h = ground (arith, any-In p x xs m h)

module _ {A B : Type 0} where
  pub head?-map :
      (f : A → B) (x : A) (xs : List A) → head? xs ≡ some x → head? (map f xs) ≡ some (f x)
  head?-map f x [] h = absurd (cc)
  head?-map f x (y ∷ xs) h = ground arith

  pub In-map : (f : A → B) (x : A) (xs : List A) → In x xs → In (f x) (map f xs)
  In-map f x [] m = absurd m
  In-map f x (y ∷ xs) (inl e) = inl (ap f e)
  In-map f x (y ∷ xs) (inr m) = inr (In-map f x xs m)

  pub In-concat_map :
      (f : A → List B) (x : A) (y : B) (xs : List A) → In x xs → In y (f x) → In y (concat_map f xs)
  In-concat_map f x y [] m h = absurd m
  In-concat_map f x y (z ∷ xs) (inl e) h =
      In-append_left y (f z) (concat_map f xs) (subst (λ w. In y (f w)) e h)
  In-concat_map f x y (z ∷ xs) (inr m) h =
      In-append_right y (f z) (concat_map f xs) (In-concat_map f x y xs m h)

  -- What stands in a concatenated map comes from an element.
  pub concat_map-In :
      (f : A → List B) (y : B) (xs : List A)
      → In y (concat_map f xs)
      → (x : A) × In x xs × In y (f x)
  concat_map-In f y [] m = absurd m
  concat_map-In f y (x ∷ xs) m = elim (In-append y (f x) (concat_map f xs) m) [
    | inl h ↦ (x, inl refl, h)
    | inr h ↦ let r = concat_map-In f y xs h in (r.0, inr r.1, r.2)
  ]

  pub concat_map-nil :
      (f : A → List B) (xs : List A) → ((x : A) → In x xs → f x ≡ []) → concat_map f xs ≡ []
  concat_map-nil f [] h = refl
  concat_map-nil f (x ∷ xs) h = rw (h x (inl refl)) (concat_map-nil f xs (λ y m. h y (inr m)))

pub contains-In : (s : String) (ts : List String) → In s ts → contains ts s ≡ true
contains-In s [] m = absurd m
contains-In s (t ∷ ts) (inl e) = ground (arith, eq_iff t s)
contains-In s (t ∷ ts) (inr m) = ground (arith, contains-In s ts m)

pub contains_elim : (s : String) (ts : List String) → contains ts s ≡ true → In s ts
contains_elim s [] h = cc
contains_elim s (t ∷ ts) h = elim (Bool-cases (t == s)) [
  | inl e ↦ inl (sym ((eq_iff t s).0 e))
  | inr f ↦ inr (contains_elim s ts (rw f at h))
]
