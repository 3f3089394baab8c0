-- ===== src/Prelude/Texts.antt =====
-- Go strings: sets of strings, and what a `strings.Builder` or `strings.Join` makes of a list.
use Prim.Native.Char.{code}
use Prim.Native.Nat.{ℕ, ◌+◌, ◌/◌, ◌%◌}
use Prim.Native.String.{String, ◌++◌}
use mathlib.Core.Bool.{Bool, false, ◌||◌}
use mathlib.Core.List.{List, [], ◌∷◌}
use mono_sso.Prelude.Tests.{◌==◌, string_eq, ltb, if◌then◌else◌}

-- `s` is one of the strings: `s IN (…)`, or a Go map used as a set.
abbrev pub contains : List String → String → Bool
contains [] s = false
contains (t ∷ ts) s = t == s || contains ts s

-- A `strings.Builder` after the writes of these strings.
pub concat : List String → String
concat [] = ""
concat (s ∷ ss) = s ++ concat ss

-- `strings.Join`, the separator last.
unfoldable pub join : List String → String → String
join [] sep = ""
join (s ∷ []) sep = s
join (s ∷ t ∷ ts) sep = s ++ (sep ++ join (t ∷ ts) sep)

-- The bytes of a character in UTF-8.
utf8_char : ℕ → List ℕ
utf8_char n =
    if ltb n 128
    then n ∷ []
    else if ltb n 2048
    then (192 + n / 64) ∷ (128 + n % 64) ∷ []
    else if ltb n 65536
    then (224 + n / 4096) ∷ (128 + n / 64 % 64) ∷ (128 + n % 64) ∷ []
    else (240 + n / 262144) ∷ (128 + n / 4096 % 64) ∷ (128 + n / 64 % 64) ∷ (128 + n % 64) ∷ []

-- Go's conversion of a text to a slice of bytes.
unfoldable pub utf8 : String → List ℕ
unfolding utf8_char
utf8 String.[] = []
utf8 (String.◌∷◌ c s) = mathlib.Core.List.◌++◌ (utf8_char (code c)) (utf8 s)
