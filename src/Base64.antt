-- ===== src/Base64.antt =====
-- `base64.StdEncoding.WithPadding(base64.NoPadding)`: what `secretDecoder` of
-- cmd/sso-service/authorization-server.go decodes, and pkg/datastore/client.go encodes.
pub mod RoundTrip
mod Tests
use Prim.Native.Char.{Char, code, nul}
use Prim.Native.String
use Prim.Native.String.{String}
use mono_sso.Prelude.{
  ℕ, zero, suc, ◌+◌, ◌-◌, ◌*◌, ◌/◌, ◌%◌, ◌≡◌, refl, ◌&&◌, ◌||◌, Option, none, some, List, [], ◌∷◌,
  leb, ◌==◌, nat_eq, if◌then◌else◌,
}

-- The six bits that a character of the standard alphabet stands for.
pub sextet : ℕ → Option ℕ
sextet c =
    if leb b'A' c && leb c b'Z'
    then some (c - b'A')
    else if leb b'a' c && leb c b'z'
    then some (c - b'a' + 26)
    else if leb b'0' c && leb c b'9'
    then some (c - b'0' + 52)
    else if c == b'+'
    then some 62
    else if c == b'/'
    then some 63
    else none

abbrev pub add_sextet : Option ℕ → Option (List ℕ) → Option (List ℕ)
add_sextet (some a) (some rest) = some (a ∷ rest)
add_sextet _ _ = none

-- The decoder skips line ends, and fails at any other character outside the alphabet.
unfoldable pub sextets : String → Option (List ℕ)
unfolding sextet
sextets String.[] = some []
sextets (String.◌∷◌ c s) =
    let rest = sextets s in
    if code c == 10 || code c == 13 then rest else add_sextet (sextet (code c)) rest

abbrev pub add_bytes : List ℕ → Option (List ℕ) → Option (List ℕ)
add_bytes [] rest = rest
add_bytes (b ∷ bs) rest = elim (add_bytes bs rest) [ none ↦ none | some r ↦ some (b ∷ r) ]

-- Four sextets make three bytes; two or three at the end make one or two; one is an error.
pub bytes_of : List ℕ → Option (List ℕ)
bytes_of [] = some []
bytes_of (a ∷ []) = none
bytes_of (a ∷ b ∷ []) = some ((a * 4 + b / 16) ∷ [])
bytes_of (a ∷ b ∷ c ∷ []) = some ((a * 4 + b / 16) ∷ (b % 16 * 16 + c / 4) ∷ [])
bytes_of (a ∷ b ∷ c ∷ d ∷ rest) =
    add_bytes ((a * 4 + b / 16) ∷ (b % 16 * 16 + c / 4) ∷ (c % 4 * 64 + d) ∷ []) (bytes_of rest)

unfoldable pub decode_secret : String → Option (List ℕ)
unfolding sextets bytes_of
decode_secret s = elim (sextets s) [ none ↦ none | some xs ↦ bytes_of xs ]

abbrev pub alphabet : String
alphabet = "ABCDEFGHIJKLMNOPQRSTUVWXYZabcdefghijklmnopqrstuvwxyz0123456789+/"

pub letter_at : ℕ → String → Char
letter_at n String.[] = nul
letter_at zero (String.◌∷◌ c s) = c
letter_at (suc n) (String.◌∷◌ c s) = letter_at n s

-- The character of six bits.
unfoldable pub letter : ℕ → Char
unfolding letter_at
letter n = letter_at n alphabet

unfoldable pub encode_secret : List ℕ → String
unfolding letter
encode_secret [] = ""
encode_secret (a ∷ []) = String.◌∷◌ (letter (a / 4)) (String.◌∷◌ (letter (a % 4 * 16)) "")
encode_secret (a ∷ b ∷ []) =
    String.◌∷◌ (letter (a / 4))
      (String.◌∷◌ (letter (a % 4 * 16 + b / 16)) (String.◌∷◌ (letter (b % 16 * 4)) ""))
encode_secret (a ∷ b ∷ c ∷ rest) = String.◌∷◌ (letter (a / 4)) (
    String.◌∷◌ (letter (a % 4 * 16 + b / 16)) (
      String.◌∷◌ (letter (b % 16 * 4 + c / 64))
        (String.◌∷◌ (letter (c % 64)) (encode_secret rest))))

encode_secret_hello : encode_secret (104 ∷ 101 ∷ 108 ∷ 108 ∷ 111 ∷ []) ≡ "aGVsbG8"
unfolding encode_secret
encode_secret_hello = refl

decode_secret_hello : decode_secret "aGVsbG8" ≡ some (104 ∷ 101 ∷ 108 ∷ 108 ∷ 111 ∷ [])
unfolding decode_secret
decode_secret_hello = refl

decode_secret_padded : decode_secret "aGVsbG8=" ≡ none
unfolding decode_secret
decode_secret_padded = refl
