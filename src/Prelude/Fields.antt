-- ===== src/Prelude/Fields.antt =====
-- `strings.Fields`: the words of a text, between runs of Unicode white space.
use Prim.Native.Char.{Char, code}
use Prim.Native.String
use Prim.Native.String.{String}
use mathlib.Core.Path.{◌≡◌, refl}
use mathlib.Core.Bool.{Bool, ◌||◌, ◌&&◌}
use mathlib.Core.List.{List, [], ◌∷◌}
use Prim.Native.Nat.{ℕ}
use mono_sso.Prelude.Tests.{◌==◌, nat_eq, string_eq, leb, if◌then◌else◌}

-- `unicode.IsSpace`
unfoldable pub is_space : ℕ → Bool
is_space c =
    (leb 9 c && leb c 13)
    || c == 32
    || c == 0x85
    || c == 0xA0
    || c == 0x1680
    || (leb 0x2000 c && leb c 0x200a)
    || c == 0x2028
    || c == 0x2029
    || c == 0x202f
    || c == 0x205f
    || c == 0x3000

abbrev pub push : String → Char → String
push s c = String.◌++◌ s (String.◌∷◌ c String.[])

-- The word read so far, if there is one, before the words that follow.
abbrev pub flush : String → List String → List String
flush word words = if word == "" then words else word ∷ words

unfoldable pub fields_from : String → String → List String
unfolding is_space
fields_from word String.[] = flush word []
fields_from word (String.◌∷◌ c s) =
    let ended = flush word (fields_from "" s) in
    let longer = fields_from (push word c) s in if is_space (code c) then ended else longer

unfoldable pub fields : String → List String
unfolding fields_from
fields s = fields_from "" s

fields_words : fields "  openid profile\tclient:write " ≡ "openid" ∷ "profile" ∷ "client:write" ∷ []
unfolding fields
fields_words = refl
