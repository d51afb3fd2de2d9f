-- ===== src/Prelude/Text.antt =====
-- Python's `str` operations over native texts, character by character.
use Prim.Native.Char.{Char, code}
use Prim.Native.String.{String}
use mathlib.Core.Bool.{Bool, true, false, ◌&&◌, ◌||◌}
use mathlib.Core.List.{[], ◌∷◌}
use capability_runner.Prelude.Equality.{◌==◌, nat_eq, string_eq, contains}
use capability_runner.Prelude.Lists.{leb}

-- `s.startswith(t)`
unfoldable pub begins_with : String → String → Bool
begins_with s String.[] = true
begins_with String.[] (String.◌∷◌ d t) = false
begins_with (String.◌∷◌ c s) (String.◌∷◌ d t) = code c == code d && begins_with s t

-- `t in s`
unfoldable pub contains_text : String → String → Bool
unfolding begins_with
contains_text String.[] t = begins_with String.[] t
contains_text (String.◌∷◌ c s) t = begins_with (String.◌∷◌ c s) t || contains_text s t

-- `str.isspace` of one character
unfoldable pub is_space : Char → Bool
is_space c =
    (leb 9 (code c) && leb (code c) 13)
    || (leb 28 (code c) && leb (code c) 32)
    || (leb 0x2000 (code c) && leb (code c) 0x200a)
    || contains (0x85 ∷ 0xa0 ∷ 0x1680 ∷ 0x2028 ∷ 0x2029 ∷ 0x202f ∷ 0x205f ∷ 0x3000 ∷ []) (code c)

unfoldable pub lstrip : (Char → Bool) → String → String
lstrip test String.[] = String.[]
lstrip test (String.◌∷◌ c s) = elim (test c) [ true ↦ lstrip test s | false ↦ String.◌∷◌ c s ]

-- A character in front of what is left of a text that `rstrip` has done with.
unfoldable pub keep_if : Bool → Char → String → String
keep_if drops c (String.◌∷◌ d s) = String.◌∷◌ c (String.◌∷◌ d s)
keep_if true c String.[] = String.[]
keep_if false c String.[] = String.◌∷◌ c String.[]

unfoldable pub rstrip : (Char → Bool) → String → String
unfolding keep_if
rstrip test String.[] = String.[]
rstrip test (String.◌∷◌ c s) = keep_if (test c) c (rstrip test s)

-- `s.strip()`
unfoldable pub strip : String → String
unfolding lstrip rstrip is_space
strip s = rstrip is_space (lstrip is_space s)

-- `s.rstrip("/")`
unfoldable pub rstrip_slash : String → String
unfolding rstrip
rstrip_slash = rstrip (λ c. code c == b'/')
