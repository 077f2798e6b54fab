-- ===== src/Paths.antt =====
-- src/utils.hpp: paths and the tests on strings.
pub mod ChDir
mod Examples
use hawck.Prelude.{
  ◌-◌, Bool, ◌&&◌, List, [], ◌∷◌, ◌++◌, Str, codes, str_eq, ltb, take, drop, length,
}

-- `StringJoiner::join`, of one part and more.
unfoldable pub join : Str → Str → List Str → Str
join sep part [] = part
join sep part (next ∷ rest) = part ++ sep ++ join sep next rest

unfoldable pub path_join : Str → List Str → Str
path_join part rest = join (codes "/") part rest

-- Both are strict: a string neither ends nor starts with itself.
unfoldable pub string_ends_with : Str → Str → Bool
string_ends_with a b = ltb (length b) (length a) && str_eq (drop (length a - length b) a) b

unfoldable pub string_starts_with : Str → Str → Bool
string_starts_with a b = ltb (length b) (length a) && str_eq (take (length b) a) b
