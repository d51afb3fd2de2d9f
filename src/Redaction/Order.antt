-- ===== src/Redaction/Order.antt =====
-- evidence/redaction.py: the order of `_redact_text` loses no explicit value.
use capability_runner.Prelude.{String, Bool, true, false, List, [], ◌∷◌, All, if◌then◌else◌, leb}
use capability_runner.Replay.Checks.{text_length}
use capability_runner.Redaction.{place, longest_first}

place-All :
    (P : String → Type 0) (value : String) (values : List String)
    → P value
    → All P values
    → All P (place value values)
unfolding place
place-All P value [] p all = (p, tt)
place-All P value (x ∷ xs) p all =
    go (leb (text_length x) (text_length value)) (place-All P value xs p all.1)
  where
    go :
        (b : Bool)
        → All P (place value xs)
        → All P (if b then value ∷ x ∷ xs else x ∷ place value xs)
    go true rest = (p, all)
    go false rest = (all.0, rest)

pub longest_first-All :
    (P : String → Type 0) (values : List String) → All P values → All P (longest_first values)
unfolding longest_first
longest_first-All P [] all = tt
longest_first-All P (value ∷ values) all =
    place-All P value (longest_first values) all.0 (longest_first-All P values all.1)

place-back :
    (P : String → Type 0) (value : String) (values : List String)
    → All P (place value values)
    → P value × All P values
unfolding place
place-back P value [] all = all
place-back P value (x ∷ xs) all =
    go (leb (text_length x) (text_length value)) (place-back P value xs) all
  where
    go :
        (b : Bool)
        → (All P (place value xs) → P value × All P xs)
        → All P (if b then value ∷ x ∷ xs else x ∷ place value xs)
        → P value × (P x × All P xs)
    go true back all = all
    go false back all = let (v, rest) = back all.1 in (v, (all.0, rest))

pub longest_first-back :
    (P : String → Type 0) (values : List String) → All P (longest_first values) → All P values
unfolding longest_first
longest_first-back P [] all = tt
longest_first-back P (value ∷ values) all =
    let (v, rest) = place-back P value (longest_first values) all in
    (v, longest_first-back P values rest)
