-- ===== src/Discovery/Grounding.antt =====
-- discovery/discovery_engine.py: what the checks of the model's decisions establish.
use capability_runner.Prelude.{
  ℕ, suc, ◌+◌, ◌-◌, String, ◌≡◌, refl, sym, ap, ◌∙◌, Bool, true, false, Option, none, some, List,
  [], ◌∷◌, ◌++◌, map, ◌==◌, nat_eq, string_eq, option_eq, ◌&&◌, ◌||◌, not, contains, any, All,
  arith, lookup, begins_with, contains_text, if◌then◌else◌,
}
use text.Mathlib.TextEquality.{Char-path}
use mathlib.Core.Option.{some-injective}
use capability_runner.Contracts.Capabilities.{EvaluationSnapshot}
use capability_runner.Contracts.Discovery.{
  discovery_fill, CompletionEvidence, GoalSpanValueSource, VerifiedCompletionEvidence,
}
use capability_runner.Replay.Checks.{text_length}
use capability_runner.Discovery.Texts.{find_text, take_text, drop_text}
use capability_runner.Discovery.Decisions.{
  GoalValues, matching_source, validate_action, current_texts, verify_evidence,
  verified_completion_evidence, goal_span_source,
}

-- The citations of a goal's text.
abbrev pub quotes : String → CompletionEvidence → Bool
quotes goal e = not (e.observed_text == "") && contains_text goal e.observed_text

-- A citation of a trusted target with the text that is visible there.
abbrev pub Shown : EvaluationSnapshot → List String → CompletionEvidence → Type 0
Shown snapshot trusted e =
    (contains trusted e.target ≡ true)
    × (lookup e.target (current_texts snapshot.observed_targets []) ≡ some e.observed_text)

append_assoc : {A : Type 0} (a : List A) (x : A) (b : List A) → (a ++ x ∷ []) ++ b ≡ a ++ x ∷ b
append_assoc [] x b = refl
append_assoc (y ∷ a) x b = ap (λ l. y ∷ l) (append_assoc a x b)

append_nil : {A : Type 0} (a : List A) → a ++ [] ≡ a
append_nil [] = refl
append_nil (y ∷ a) = ap (λ l. y ∷ l) (append_nil a)

map-append : {A B : Type 0} (f : A → B) (a b : List A) → map f (a ++ b) ≡ map f a ++ map f b
map-append f [] b = refl
map-append f (x ∷ a) b = ap (λ l. f x ∷ l) (map-append f a b)

module _ (sha256 : String → String) (snapshot : EvaluationSnapshot) (goal : String)
    (trusted : List String) (values : GoalValues) where
  -- What is verified of a list of citations, behind what was verified before.
  abbrev ShownFrom :
      List CompletionEvidence
      → Bool
      → List VerifiedCompletionEvidence
      → List VerifiedCompletionEvidence
      → Type 0
  ShownFrom evidence grounded verified v =
      (map (λ e. e.target) v ≡ map (λ e. e.target) verified ++ map (λ e. e.target) evidence)
      × All (Shown snapshot trusted) evidence
      × ((grounded || any (quotes goal) evidence) ≡ true)

  abbrev accepts : CompletionEvidence → List String → Bool
  accepts e cited =
      contains trusted e.target
      && not (contains cited e.target)
      && lookup e.target (current_texts snapshot.observed_targets []) == some e.observed_text

  accepts-Shown :
      (e : CompletionEvidence) (cited : List String)
      → accepts e cited ≡ true
      → Shown snapshot trusted e
  accepts-Shown e cited h = (ground arith, ground arith)

  verified_here : CompletionEvidence → VerifiedCompletionEvidence
  verified_here e = record {
    target = e.target;
    text_fingerprint = sha256 e.observed_text;
    goal_span_action_target = matching_source e.observed_text values;
  }

  or_assoc : (a b c : Bool) → ((a || b) || c) ≡ (a || (b || c))
  or_assoc true b c = refl
  or_assoc false b c = refl

  verify-Shown :
      (evidence : List CompletionEvidence) (cited : List String) (grounded : Bool)
      (verified v : List VerifiedCompletionEvidence)
      → verify_evidence sha256
          (current_texts snapshot.observed_targets [])
          goal
          trusted
          values
          evidence
          cited
          grounded
          verified
        ≡ some v
      → ShownFrom evidence grounded verified v
  unfolding verify_evidence verified_here
  verify-Shown [] cited grounded verified v h =
      let same : (verified ≡ v) × (grounded ≡ true) = settled grounded h in
      (
        ap (map (λ e. e.target)) (sym same.0) ∙ sym (append_nil (map (λ e. e.target) verified)),
        tt,
        rw same.1 refl,
      )
    where
      settled :
          (b : Bool) → (if b then some verified else none) ≡ some v → (verified ≡ v) × (b ≡ true)
      settled true e = (some-injective verified v e, refl)
      settled false e = absurd (ground arith)
  verify-Shown (e ∷ evidence) cited grounded verified v h = go (accepts e cited) refl h (
      verify-Shown evidence (e.target ∷ cited) (grounded || quotes goal e)
        (verified ++ verified_here e ∷ []) v)
    where
      rest : Option (List VerifiedCompletionEvidence)
      rest =
          verify_evidence sha256 (current_texts snapshot.observed_targets []) goal trusted values
            evidence (e.target ∷ cited) (grounded || quotes goal e)
            (verified ++ verified_here e ∷ [])

      go :
          (b : Bool)
          → accepts e cited ≡ b
          → (if b then rest else none) ≡ some v
          → (rest ≡ some v
              → ShownFrom evidence (grounded || quotes goal e) (verified ++ verified_here e ∷ []) v)
          → ShownFrom (e ∷ evidence) grounded verified v
      go false f k onward = absurd (ground arith)
      go true f k onward =
          let (names, shown, some_quote) = onward k in
          (
            names
                ∙ ap (λ l. l ++ map (λ e. e.target) evidence)
                    (map-append (λ e. e.target) verified (verified_here e ∷ []))
                ∙ append_assoc (map (λ e. e.target) verified) e.target
                    (map (λ e. e.target) evidence),
            (accepts-Shown e cited f, shown),
            sym (or_assoc grounded (quotes goal e) (any (quotes goal) evidence)) ∙ some_quote,
          )

  -- What `_verified_completion_evidence` verifies: its targets are those that the model cited, in
  -- order; every citation is of a trusted target and repeats the text that is visible there; and the
  -- text of at least one is a non-empty part of the goal.
  pub verified-Shown :
      (evidence : List CompletionEvidence) (v : List VerifiedCompletionEvidence)
      → verified_completion_evidence sha256 evidence snapshot goal trusted values ≡ some v
      → (map (λ e. e.target) v ≡ map (λ e. e.target) evidence)
        × All (Shown snapshot trusted) evidence
        × (any (quotes goal) evidence ≡ true)
  unfolding verified_completion_evidence
  verified-Shown evidence v h = verify-Shown evidence [] false [] v h

take-begins_with :
    (s part : String) → begins_with s part ≡ true → take_text (text_length part) s ≡ part
unfolding begins_with take_text
take-begins_with s String.[] h = refl
take-begins_with String.[] (String.◌∷◌ d part) h = absurd (ground arith)
take-begins_with (String.◌∷◌ c s) (String.◌∷◌ d part) h =
    let same : c ≡ d = Char-path c d (ground arith) in
    let more : begins_with s part ≡ true = ground arith in
    ap (λ x. String.◌∷◌ x (take_text (text_length part) s)) same
    ∙ ap (String.◌∷◌ d) (take-begins_with s part more)

-- `text.find(part)` is where the part stands.
find-take :
    (s part : String) (n : ℕ)
    → find_text s part ≡ some n
    → take_text (text_length part) (drop_text n s) ≡ part
unfolding find_text drop_text
find-take String.[] part n h = go (begins_with String.[] part) refl
  where
    go :
        (b : Bool)
        → begins_with String.[] part ≡ b
        → take_text (text_length part) (drop_text n String.[]) ≡ part
    go false e = absurd (ground arith)
    go true e =
        let first : 0 ≡ n = some-injective 0 n (rw (find_text, e) at h) in
        rw (sym first) (take-begins_with String.[] part e)
find-take (String.◌∷◌ c s) part n h =
    go (begins_with (String.◌∷◌ c s) part) refl (find_text s part) refl (λ m. find-take s part m)
  where
    go :
        (b : Bool)
        → begins_with (String.◌∷◌ c s) part ≡ b
        → (o : Option ℕ) → find_text s part ≡ o
        → ((m : ℕ)
            → find_text s part ≡ some m
            → take_text (text_length part) (drop_text m s) ≡ part)
        → take_text (text_length part) (drop_text n (String.◌∷◌ c s)) ≡ part
    go true e o f later =
        let first : 0 ≡ n = some-injective 0 n (rw (find_text, e) at h) in
        rw (sym first) (take-begins_with (String.◌∷◌ c s) part e)
    go false e none f later = absurd (ground arith)
    go false e (some m) f later =
        let next : suc m ≡ n = some-injective (suc m) n (rw (find_text, e, f) at h) in
        rw (sym next) (later m f)

contains-find :
    (s part : String) → contains_text s part ≡ true → (n : ℕ) × (find_text s part ≡ some n)
unfolding contains_text find_text
contains-find String.[] part h = (0, ground arith)
contains-find (String.◌∷◌ c s) part h =
    go (begins_with (String.◌∷◌ c s) part) refl (contains-find s part)
  where
    go :
        (b : Bool)
        → begins_with (String.◌∷◌ c s) part ≡ b
        → (contains_text s part ≡ true → (n : ℕ) × (find_text s part ≡ some n))
        → (n : ℕ) × (find_text (String.◌∷◌ c s) part ≡ some n)
    go true e later = (0, ground arith)
    go false e later = let (n, f) = later (ground arith) in (suc n, ground arith)

cut-minus : (start size : ℕ) → (start + size) - start ≡ size
cut-minus start size = omega arith

-- A fill that passes `_validate_action` has a value source, and cutting the goal at that source gives
-- the value back: `goal[source.start:source.end] == value`.
pub validated-goal_span :
    (goal target value : String) (trusted : List String)
    → validate_action (discovery_fill target value) goal trusted ≡ none
    → (span : GoalSpanValueSource) × (goal_span_source (discovery_fill target value) goal
        ≡ some span)
      × (take_text (span.stop - span.start) (drop_text span.start goal) ≡ value)
unfolding validate_action goal_span_source
validated-goal_span goal target value trusted h =
    let (n, e) = contains-find goal value (ground arith) in
    (
      record { start = n; stop = n + text_length value },
      rw (goal_span_source, e) refl,
      rw cut-minus (find-take goal value n e),
    )
