-- ===== src/Base64/RoundTrip.antt =====
-- Decoding what has been encoded.
use Prim.Native.Char.{code}
use Prim.Native.String.{String}
use mono_sso.Prelude.{
  ℕ, zero, suc, ◌+◌, ◌*◌, ◌/◌, ◌%◌, ◌<◌, ◌≡◌, refl, ap, subst, Option-cases, inl, inr, ◌&&◌, ◌||◌,
  not, Bool, true, false, Option, none, some, List, [], ◌∷◌, All, arith, ◌==◌, nat_eq, Bool-cases,
}
use mono_sso.Base64.{sextet, sextets, bytes_of, letter, encode_secret, decode_secret}

abbrev is_letter : ℕ → Option ℕ → Bool
is_letter n none = false
is_letter n (some m) = m == n && not (code (letter n) == 10 || code (letter n) == 13)

-- The letters of the numbers below a bound decode to these.
unfoldable letters_below : ℕ → Bool
letters_below zero = true
letters_below (suc n) = is_letter n (sextet (code (letter n))) && letters_below n

all_letters : letters_below 64 ≡ true
unfolding letters_below sextet letter
all_letters = refl

abbrev Decodes : ℕ → Type 0
Decodes n =
    (sextet (code (letter n)) ≡ some n) × ((code (letter n) == 10 || code (letter n) == 13) ≡ false)

letter-Decodes_below : (m n : ℕ) → letters_below m ≡ true → n < m → Decodes n
unfolding letters_below
letter-Decodes_below zero n h l = absurd (omega (arith, l))
letter-Decodes_below (suc m) n h l = elim (Bool-cases (m == n)) [
  | inl e ↦ subst Decodes (ground arith) (at_letter m (ground arith))
  | inr f ↦ letter-Decodes_below m n (ground arith) (ground arith)
]
  where
    at_letter : (k : ℕ) → is_letter k (sextet (code (letter k))) ≡ true → Decodes k
    at_letter k g = elim (Option-cases (sextet (code (letter k)))) [
      | inl e ↦ absurd (ground arith)
      | inr (j, e) ↦ (ground arith, ground arith)
    ]

data IsRead (s : String) (xs : List ℕ) : Type 0 where
  is_read : sextets s ≡ some xs → IsRead s xs

letter-IsRead :
    (n : ℕ) {s : String} {xs : List ℕ}
    → n < 64
    → IsRead s xs
    → IsRead (String.◌∷◌ (letter n) s) (n ∷ xs)
unfolding sextets
letter-IsRead n l (is_read h) =
    let (e, skip) = letter-Decodes_below 64 n all_letters l in is_read (rw (skip, e, h))

-- The sextets of a sequence of bytes.
unfoldable sextets_of : List ℕ → List ℕ
sextets_of [] = []
sextets_of (a ∷ []) = (a / 4) ∷ (a % 4 * 16) ∷ []
sextets_of (a ∷ b ∷ []) = (a / 4) ∷ (a % 4 * 16 + b / 16) ∷ (b % 16 * 4) ∷ []
sextets_of (a ∷ b ∷ c ∷ rest) =
    (a / 4) ∷ (a % 4 * 16 + b / 16) ∷ (b % 16 * 4 + c / 64) ∷ (c % 64) ∷ sextets_of rest

abbrev pub IsByte : ℕ → Type 0
IsByte b = b < 256

encode_secret-IsRead : (bs : List ℕ) → All IsByte bs → IsRead (encode_secret bs) (sextets_of bs)
unfolding encode_secret sextets_of sextets
encode_secret-IsRead [] h = is_read refl
encode_secret-IsRead (a ∷ []) (ha, _) =
    letter-IsRead _ (omega (arith, ha)) (letter-IsRead _ (omega (arith, ha)) (is_read refl))
encode_secret-IsRead (a ∷ b ∷ []) (ha, (hb, _)) =
    letter-IsRead _ (omega (arith, ha))
      (letter-IsRead _ (omega (arith, hb)) (letter-IsRead _ (omega (arith, hb)) (is_read refl)))
encode_secret-IsRead (a ∷ b ∷ c ∷ rest) (ha, (hb, (hc, hs))) = letter-IsRead _ (omega (arith, ha)) (
    letter-IsRead _ (omega (arith, hb)) (
      letter-IsRead _ (omega (arith, hc))
        (letter-IsRead _ (omega (arith, hc)) (encode_secret-IsRead rest hs))))

bytes_of-sextets_of : (bs : List ℕ) → All IsByte bs → bytes_of (sextets_of bs) ≡ some bs
unfolding bytes_of sextets_of
bytes_of-sextets_of [] h = refl
bytes_of-sextets_of (a ∷ []) (ha, _) = ap (λ x. some (x ∷ [])) (omega (arith, ha))
bytes_of-sextets_of (a ∷ b ∷ []) (ha, (hb, _)) =
    let first : a / 4 * 4 + (a % 4 * 16 + b / 16) / 16 ≡ a = omega (arith, ha, hb) in
    let second : (a % 4 * 16 + b / 16) % 16 * 16 + b % 16 * 4 / 4 ≡ b = omega (arith, ha, hb) in
    rw (first, second)
bytes_of-sextets_of (a ∷ b ∷ c ∷ rest) (ha, (hb, (hc, hs))) =
    let first : a / 4 * 4 + (a % 4 * 16 + b / 16) / 16 ≡ a = omega (arith, ha, hb) in
    let second : (a % 4 * 16 + b / 16) % 16 * 16 + (b % 16 * 4 + c / 64) / 4 ≡ b =
      omega (arith, ha, hb, hc) in
    let third : (b % 16 * 4 + c / 64) % 4 * 64 + c % 64 ≡ c = omega (arith, hb, hc) in
    rw (bytes_of-sextets_of rest hs, first, second, third)

-- Decoding the text of an encoded secret gives the secret, whatever its bytes are.
pub decode_secret-encode_secret :
    (bs : List ℕ) → All IsByte bs → decode_secret (encode_secret bs) ≡ some bs
unfolding decode_secret
decode_secret-encode_secret bs h = elim (encode_secret-IsRead bs h) [
  | is_read e ↦ rw (decode_secret, e) (bytes_of-sextets_of bs h)
]
