-- ===== src/Prelude/Flow.antt =====
-- A Go function body: each step returns from the function or goes on with a value.
use mathlib.Core.Path.{◌≡◌, refl}
use mathlib.Core.Logic.{◌⊎◌, inl, inr}
use mathlib.Core.Bool.{Bool, true, false}

pub data Flow {ℓ κ} (R : Type ℓ) (A : Type κ) : Type (ℓ ⊔ κ) where
  return : R → Flow R A
  next : A → Flow R A

infixl 5 ◌>>=◌ ◌>>◌
abbrev pub ◌>>=◌ {ℓ κ ν} :
    {R : Type ℓ} {A : Type κ} {B : Type ν} → Flow R A → (A → Flow R B) → Flow R B
return r >>= f = return r
next a >>= f = f a

abbrev pub ◌>>◌ {ℓ κ} : {R : Type ℓ} {B : Type κ} → Flow R (Unit {0}) → Flow R B → Flow R B
m >> k = m >>= λ _. k

-- What the body returned: its last step hands over the result.
abbrev pub run {ℓ} : {R : Type ℓ} → Flow R R → R
run (return r) = r
run (next r) = r

-- `if test { return r }`
abbrev pub return_if {ℓ} : {R : Type ℓ} → Bool → R → Flow R (Unit {0})
return_if true r = return r
return_if false r = next tt

pub Flow-cases {ℓ κ} :
    {R : Type ℓ} {A : Type κ} (m : Flow R A) → ((r : R) × (m ≡ return r)) ⊎ ((a : A) × (m ≡ next a))
Flow-cases (return r) = inl (r, refl)
Flow-cases (next a) = inr (a, refl)
