-- ===== src/Discovery/Texts.antt =====
-- discovery/discovery_engine.py: the operations on texts that the discovery uses: lines, spans of a
-- text, numbers in a text, and the fences around a model's answer.
use capability_runner.Prelude.{
  ℕ, zero, suc, ◌/◌, ◌%◌, String, ◌<>◌, Bool, Option, none, some, List, [], ◌∷◌, ◌==◌, nat_eq,
  string_eq, ◌&&◌, not, contains, any, if◌then◌else◌, begins_with, contains_text, strip, ltb,
  get_elem?,
}
use Prim.Native.Char.{Char, code}

unfoldable pub digit_text : ℕ → String
digit_text n =
    elim (get_elem? {A = String} ("0" ∷ "1" ∷ "2" ∷ "3" ∷ "4" ∷ "5" ∷ "6" ∷ "7" ∷ "8" ∷ "9" ∷ [])
      n) [ none ↦ "" | some digit ↦ digit ]

unfoldable pub digits : ℕ → ℕ → String
unfolding digit_text
digits zero n = ""
digits (suc fuel) n =
    let front = digits fuel (n / 10) in
    if ltb n 10 then digit_text n else (front <> digit_text (n % 10))

-- `str(n)`; a number has fewer digits than its value and one.
unfoldable pub number_text : ℕ → String
unfolding digits
number_text n = digits (suc n) n

-- Where `str.splitlines` ends a line.
unfoldable pub is_line_break : Char → Bool
is_line_break c = contains (10 ∷ 11 ∷ 12 ∷ 13 ∷ 28 ∷ 29 ∷ 30 ∷ 0x85 ∷ 0x2028 ∷ 0x2029 ∷ []) (code c)

abbrev pub push_char : Char → List String → List String
push_char c [] = String.◌∷◌ c String.[] ∷ []
push_char c (line ∷ lines) = String.◌∷◌ c line ∷ lines

-- `s.splitlines()`; a line break at the end starts no line, and CR with LF is one.
unfoldable pub splitlines : String → List String
unfolding is_line_break
splitlines String.[] = []
splitlines (String.◌∷◌ c String.[]) =
    if is_line_break c then String.[] ∷ [] else String.◌∷◌ c String.[] ∷ []
splitlines (String.◌∷◌ c (String.◌∷◌ d s)) =
    let rest = splitlines (String.◌∷◌ d s) in
    let after = splitlines s in
    if code c == 13 && code d == 10
    then String.[] ∷ after
    else if is_line_break c
    then String.[] ∷ rest
    else push_char c rest

-- `"\n".join(lines)`
unfoldable pub join_lines : List String → String
join_lines [] = ""
join_lines (line ∷ []) = line
join_lines (line ∷ next ∷ lines) = line <> ("\n" <> join_lines (next ∷ lines))

-- The lines but the last, and the last.
abbrev pub but_last : String → List String → List String × String
but_last line [] = ([], line)
but_last line (next ∷ lines) = let (front, last) = but_last next lines in (line ∷ front, last)

abbrev pub opens_fence : String → Bool
opens_fence line = contains ("```" ∷ "```json" ∷ "```JSON" ∷ []) (strip line)

-- The text between the fences, whose opening line is the first; nothing where they are refused.
unfoldable pub fenced : List String → Option String
fenced (first ∷ second ∷ third ∷ lines) =
    let (body, last) = but_last second (third ∷ lines) in
    if strip last == "```" && opens_fence first && not (any (λ line. contains_text line "```") body)
    then some (strip (join_lines body))
    else none
fenced _ = none

-- What `_parse_decision` hands on to the JSON parser.
unfoldable pub unfenced : String → Option String
unfolding splitlines fenced join_lines
unfenced content =
    let stripped = strip content in
    if begins_with stripped "```" then fenced (splitlines stripped) else some stripped

-- `text.find(part)`
unfoldable pub find_text : String → String → Option ℕ
find_text String.[] part = if begins_with String.[] part then some 0 else none
find_text (String.◌∷◌ c s) part =
    let rest = find_text s part in
    if begins_with (String.◌∷◌ c s) part
    then some 0
    else elim rest [ none ↦ none | some n ↦ some (suc n) ]

-- `text[:n]`
unfoldable pub take_text : ℕ → String → String
take_text zero s = String.[]
take_text (suc n) String.[] = String.[]
take_text (suc n) (String.◌∷◌ c s) = String.◌∷◌ c (take_text n s)

-- `text[n:]`
unfoldable pub drop_text : ℕ → String → String
drop_text zero s = s
drop_text (suc n) String.[] = String.[]
drop_text (suc n) (String.◌∷◌ c s) = drop_text n s
