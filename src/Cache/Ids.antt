-- ===== src/Cache/Ids.antt =====
-- pkg/cache/cache.go: `CreateID`.
use Prim.Native.Char.{Char}
use Prim.Native.String.{◌++◌}
use mono_sso.Prelude.{String, Option, none, some, List, [], ◌∷◌}

-- What a part of an identifier can be, by the type switch; `other` is any other type.
pub data Part : Type 0 where
  str : String → Part
  rune : Char → Part
  bytes : String → Part
  other : Part

-- The loop over the parts, from what the builder holds; `none` is ErrInvalidIDPart.
write_parts : String → List Part → Option String
write_parts id [] = some id
write_parts id (str s ∷ parts) = write_parts (id ++ s) parts
write_parts id (rune c ∷ parts) = write_parts (id ++ String.◌∷◌ c String.[]) parts
write_parts id (bytes b ∷ parts) = write_parts (id ++ b) parts
write_parts id (other ∷ parts) = none

unfoldable pub create_id : String → List Part → Option String
unfolding write_parts
create_id prefix parts = write_parts prefix parts
