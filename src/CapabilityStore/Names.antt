-- ===== src/CapabilityStore/Names.antt =====
-- contracts/capabilities.py: the patterns of capability identifiers and versions; the order of versions
-- in capabilities/capability_store.py. Of the digits that `\d` matches these are the ASCII ones; a
-- version with others is left out.
use capability_runner.Prelude.{
  String, Bool, true, false, List, [], ◌∷◌, ◌&&◌, ◌||◌, ◌==◌, nat_eq, leb, if◌then◌else◌,
}
use Prim.Native.Char.{Char, code}

abbrev pub is_lower : Char → Bool
is_lower c = leb b'a' (code c) && leb (code c) b'z'

abbrev pub is_digit : Char → Bool
is_digit c = leb b'0' (code c) && leb (code c) b'9'

-- `[a-z0-9]*(?:_[a-z0-9]+)*` to the end, where an underscore may stand next or not
unfoldable pub words : Bool → String → Bool
words may_break String.[] = may_break
words may_break (String.◌∷◌ c s) =
    let after_letter = words true s in
    let after_break = words false s in
    if is_lower c || is_digit c then after_letter else code c == b'_' && may_break && after_break

-- `CAPABILITY_ID_PATTERN.fullmatch(value)`
unfoldable pub is_capability_id : String → Bool
unfolding words
is_capability_id String.[] = false
is_capability_id (String.◌∷◌ c s) = is_lower c && words true s

-- The parts of `value.split(".")`.
unfoldable pub split_dots : String → List String
split_dots String.[] = String.[] ∷ []
split_dots (String.◌∷◌ c s) =
    let rest = split_dots s in if code c == b'.' then String.[] ∷ rest else push c rest
  where
    push : Char → List String → List String
    push c [] = String.◌∷◌ c String.[] ∷ []
    push c (part ∷ parts) = String.◌∷◌ c part ∷ parts

unfoldable pub all_digits : String → Bool
all_digits String.[] = true
all_digits (String.◌∷◌ c s) = is_digit c && all_digits s

-- `0|[1-9]\d*`
unfoldable pub is_part : String → Bool
unfolding all_digits
is_part String.[] = false
is_part (String.◌∷◌ c String.[]) = is_digit c
is_part (String.◌∷◌ c (String.◌∷◌ d s)) =
    leb b'1' (code c) && leb (code c) b'9' && is_digit d && all_digits s

-- `SEMVER_PATTERN.fullmatch(value)`
unfoldable pub is_version : String → Bool
unfolding split_dots is_part
is_version value = elim (split_dots value) [
  | a ∷ b ∷ c ∷ [] ↦ is_part a && is_part b && is_part c
  | _ ↦ false
]
