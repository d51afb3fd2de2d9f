-- ===== src/Evaluator/Parsing.antt =====
-- replay/state_evaluator.py: the two output patterns and the values read by them. `\d` is any Unicode
-- decimal digit, `\s` any character that `str.isspace` accepts.
use Prim.Native.Nat.{◌/◌, ◌%◌, ◌^◌}
use Prim.Native.Char.{Char, code}
use capability_runner.Prelude.{
  ℕ, zero, suc, ◌+◌, ◌-◌, ◌*◌, String, Bool, true, false, Option, none, some, List, [], ◌∷◌, ◌==◌,
  nat_eq, string_eq, leb, ltb, ◌&&◌, ◌||◌, if◌then◌else◌, is_space,
}

-- Where the runs of ten decimal digits begin.
abbrev pub digit_zeros : List ℕ
digit_zeros =
    0x30 ∷ 0x660 ∷ 0x6f0 ∷ 0x7c0 ∷ 0x966 ∷ 0x9e6 ∷ 0xa66 ∷ 0xae6 ∷ 0xb66 ∷ 0xbe6 ∷ 0xc66 ∷ 0xce6
    ∷ 0xd66 ∷ 0xde6 ∷ 0xe50 ∷ 0xed0 ∷ 0xf20 ∷ 0x1040 ∷ 0x1090 ∷ 0x17e0 ∷ 0x1810 ∷ 0x1946 ∷ 0x19d0
    ∷ 0x1a80 ∷ 0x1a90 ∷ 0x1b50 ∷ 0x1bb0 ∷ 0x1c40 ∷ 0x1c50 ∷ 0xa620 ∷ 0xa8d0 ∷ 0xa900 ∷ 0xa9d0
    ∷ 0xa9f0 ∷ 0xaa50 ∷ 0xabf0 ∷ 0xff10 ∷ 0x104a0 ∷ 0x10d30 ∷ 0x11066 ∷ 0x110f0 ∷ 0x11136 ∷ 0x111d0
    ∷ 0x112f0 ∷ 0x11450 ∷ 0x114d0 ∷ 0x11650 ∷ 0x116c0 ∷ 0x11730 ∷ 0x118e0 ∷ 0x11950 ∷ 0x11c50
    ∷ 0x11d50 ∷ 0x11da0 ∷ 0x11f50 ∷ 0x16a60 ∷ 0x16ac0 ∷ 0x16b50 ∷ 0x1d7ce ∷ 0x1d7d8 ∷ 0x1d7e2
    ∷ 0x1d7ec ∷ 0x1d7f6 ∷ 0x1e140 ∷ 0x1e2f0 ∷ 0x1e4f0 ∷ 0x1e950 ∷ 0x1fbf0 ∷ []

-- `unicodedata.digit(c)`
unfoldable pub digit_from : List ℕ → ℕ → Option ℕ
digit_from [] c = none
digit_from (z ∷ zeros) c = if leb z c && leb c (z + 9) then some (c - z) else digit_from zeros c

abbrev pub digit_value : Char → Option ℕ
digit_value c = digit_from digit_zeros (code c)

unfoldable pub is_digit : Char → Bool
unfolding digit_from
is_digit c = elim (digit_value c) [ none ↦ false | some v ↦ true ]

abbrev pub is_nonzero : Char → Bool
is_nonzero c = leb b'1' (code c) && leb (code c) b'9'

abbrev pub is_upper : Char → Bool
is_upper c = leb b'A' (code c) && leb (code c) b'Z'

unfoldable pub all_digits : String → Bool
unfolding is_digit
all_digits String.[] = true
all_digits (String.◌∷◌ c s) = is_digit c && all_digits s

-- `(?:,\d{3})*` to the end
unfoldable pub groups : String → Bool
unfolding is_digit
groups String.[] = true
groups (String.◌∷◌ c (String.◌∷◌ d (String.◌∷◌ e (String.◌∷◌ f s)))) =
    code c == b',' && is_digit d && is_digit e && is_digit f && groups s
groups _ = false

-- `\d{0,n}(?:,\d{3})*` to the end
unfoldable pub up_to_then_groups : ℕ → String → Bool
unfolding groups
up_to_then_groups zero s = groups s
up_to_then_groups (suc n) String.[] = true
up_to_then_groups (suc n) (String.◌∷◌ c s) =
    groups (String.◌∷◌ c s) || (is_digit c && up_to_then_groups n s)

-- `0|[1-9]\d{0,2}(?:,\d{3})*|[1-9]\d*`
unfoldable pub is_amount : String → Bool
unfolding up_to_then_groups all_digits
is_amount String.[] = false
is_amount (String.◌∷◌ c s) =
    (code c == b'0' && s == "") || (is_nonzero c && (up_to_then_groups 2 s || all_digits s))

-- `[A-Z]{3}`
unfoldable pub is_code : String → Bool
is_code (String.◌∷◌ c (String.◌∷◌ d (String.◌∷◌ e String.[]))) =
    is_upper c && is_upper d && is_upper e
is_code _ = false

-- `\s*[A-Z]{3}`
unfoldable pub spaces_code : String → Bool
unfolding is_code is_space
spaces_code String.[] = false
spaces_code (String.◌∷◌ c s) = is_code (String.◌∷◌ c s) || (is_space c && spaces_code s)

-- `(?:\s+[A-Z]{3})?`
unfoldable pub optional_code : String → Bool
unfolding spaces_code
optional_code String.[] = true
optional_code (String.◌∷◌ c s) = is_space c && spaces_code s

-- The text before the first dot, and the text behind it.
unfoldable pub split_dot : String → Option (String × String)
split_dot String.[] = none
split_dot (String.◌∷◌ c s) =
    if code c == b'.'
    then some (String.[], s)
    else elim (split_dot s) [ none ↦ none | some (a, b) ↦ some (String.◌∷◌ c a, b) ]

-- `int` of the digits of a text that may have commas, behind the digits read so far
unfoldable pub read_digits : ℕ → String → ℕ
unfolding digit_from
read_digits n String.[] = n
read_digits n (String.◌∷◌ c s) =
    read_digits (elim (digit_value c) [ none ↦ n | some v ↦ n * 10 + v ]) s

-- `\.(\d{2})(?:\s+[A-Z]{3})?`: the cents
unfoldable pub read_cents : ℕ → String → Option ℕ
unfolding is_digit read_digits optional_code
read_cents n (String.◌∷◌ d (String.◌∷◌ e rest)) =
    if is_digit d && is_digit e && optional_code rest
    then some (read_digits n (String.◌∷◌ d (String.◌∷◌ e String.[])))
    else none
read_cents n _ = none

-- How many decimal digits more than 28 a number has, at most the fuel.
unfoldable pub excess : ℕ → ℕ → ℕ
excess zero n = zero
excess (suc fuel) n = elim (ltb n (10 ^ 28)) [ true ↦ zero | false ↦ suc (excess fuel (n / 10)) ]

-- A quotient rounded to the nearest number, and to the even one of two.
unfoldable pub round_half_even : ℕ → ℕ → ℕ
round_half_even n d =
    let q = n / d in
    let r = n % d in if ltb d (2 * r) || (2 * r == d && q % 2 == 1) then q + 1 else q

-- `int(amount * 100)`, where a `Decimal` product keeps 28 digits
unfoldable pub minor_units : ℕ → ℕ
unfolding excess round_half_even
minor_units n = let e = excess n n in if e == 0 then n else round_half_even n (10 ^ e) * 10 ^ e

abbrev pub drop_dollar : String → String
drop_dollar String.[] = String.[]
drop_dollar (String.◌∷◌ c s) = if code c == b'$' then s else String.◌∷◌ c s

-- `_MONEY_PATTERN.fullmatch`, and the amount in minor units
unfoldable pub parse_money : String → Option ℕ
unfolding split_dot is_amount read_cents read_digits minor_units
parse_money text = elim (split_dot (drop_dollar text)) [
  | none ↦ none
  | some (amount, rest) ↦
      if is_amount amount
      then elim (read_cents (read_digits 0 amount) rest) [
        | none ↦ none
        | some n ↦ some (minor_units n)
      ]
      else none
]

-- `\s+([A-Z]{3})` to the end
unfoldable pub trailing_code : String → Option String
unfolding is_space is_code
trailing_code String.[] = none
trailing_code (String.◌∷◌ c s) =
    if is_space c then (if is_code s then some s else trailing_code s) else none

-- `.+\s+([A-Z]{3})` to the end; the dot matches no line feed
unfoldable pub named_code : String → Option String
unfolding trailing_code
named_code String.[] = none
named_code (String.◌∷◌ c s) =
    let rest : Option String = elim (trailing_code s) [
      | some letters ↦ some letters
      | none ↦ named_code s
    ] in
    if code c == 10 then none else rest

-- `_CURRENCY_CODE_PATTERN.fullmatch`, and `match.group(1) or normalized`
unfoldable pub parse_code : String → Option String
unfolding is_code named_code
parse_code text = if is_code text then some text else named_code text
