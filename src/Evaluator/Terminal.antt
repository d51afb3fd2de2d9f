-- ===== src/Evaluator/Terminal.antt =====
-- replay/state_evaluator.py: what the verdicts of `evaluate_terminal_state` mean.
use capability_runner.Prelude.{
  String, ◌≡◌, refl, ◌≢◌, ◌↔◌, ◌⊎◌, inl, inr, Bool, true, false, Option, none, some, List, [], ◌∷◌,
  find, any, ◌==◌, All, Dict, arith, map,
}
use capability_runner.Contracts.Capabilities.{
  ConditionSpec, EvaluationSnapshot, BusinessOutcomeRule, CapabilityDefinition,
}
use capability_runner.Policy.Soundness.{find-some}
use capability_runner.Evaluator.{
  ConditionResult, holds, fails, unknown, ConditionEvaluation, success, business_outcome,
  condition_result_eq, evaluate_condition, conjunction, all_conditions, outcome_codes,
  has_unknown_outcome, terminal_verdict, evaluate_terminal_state,
}

module _ (f : ConditionSpec → ConditionEvaluation) where
  holding-any :
      (cs : List ConditionSpec)
      → All (λ c. (f c).result ≡ holds) cs
      → (any (λ e. e.result == fails) (map f cs) ≡ false)
        × (find (λ e. e.result == unknown) (map f cs) ≡ none)
  holding-any [] all = (refl, refl)
  holding-any (c ∷ cs) (h, rest) = let (a, b) = holding-any cs rest in (ground arith, ground arith)

  any-holding :
      (cs : List ConditionSpec)
      → any (λ e. e.result == fails) (map f cs) ≡ false
      → find (λ e. e.result == unknown) (map f cs) ≡ none
      → All (λ c. (f c).result ≡ holds) cs
  any-holding [] a b = tt
  any-holding (c ∷ cs) a b = go (f c).result refl (any-holding cs)
    where
      go :
          (r : ConditionResult)
          → (f c).result ≡ r
          → (any (λ e. e.result == fails) (map f cs) ≡ false
              → find (λ e. e.result == unknown) (map f cs) ≡ none
              → All (λ c. (f c).result ≡ holds) cs)
          → ((f c).result ≡ holds) × All (λ c. (f c).result ≡ holds) cs
      go holds e rest = (e, rest (ground arith) (ground arith))
      go fails e rest = absurd (ground arith)
      go unknown e rest = absurd (ground arith)

  find-unknown :
      (es : List ConditionEvaluation) (e : ConditionEvaluation)
      → find (λ e. e.result == unknown) es ≡ some e
      → e.result ≡ unknown
  find-unknown es e h = let (m, t) = find-some (λ e. e.result == unknown) es e h in ground arith

  conjunction-holds :
      (cs : List ConditionSpec)
      → ((conjunction (map f cs)).result ≡ holds) ↔ All (λ c. (f c).result ≡ holds) cs
  unfolding conjunction
  conjunction-holds cs = (to, back)
    where
      back : All (λ c. (f c).result ≡ holds) cs → (conjunction (map f cs)).result ≡ holds
      back h = let (a, b) = holding-any cs h in ground arith

      to : (conjunction (map f cs)).result ≡ holds → All (λ c. (f c).result ≡ holds) cs
      to h = go (find (λ e. e.result == unknown) (map f cs)) refl
        where
          go :
              (o : Option ConditionEvaluation)
              → find (λ e. e.result == unknown) (map f cs) ≡ o
              → All (λ c. (f c).result ≡ holds) cs
          go none e = any-holding cs (ground arith) e
          go (some x) e = let u = find-unknown (map f cs) x e in absurd (ground arith)

verdict-success :
    (codes : List String) (met : ConditionResult) (uncertain : Bool)
    → ((terminal_verdict codes met uncertain).state ≡ success) ↔ ((codes ≡ []) × (met ≡ holds))
unfolding terminal_verdict
verdict-success [] met true = (λ e. (refl, ground arith), λ (c, m). ground arith)
verdict-success [] met false = (λ e. (refl, ground arith), λ (c, m). ground arith)
verdict-success (a ∷ []) met uncertain = (λ e. absurd (ground arith), λ (c, m). absurd (cc))
verdict-success (a ∷ b ∷ codes) met uncertain = (λ e. absurd (ground arith), λ (c, m). absurd (cc))

verdict-outcome :
    (codes : List String) (met : ConditionResult) (uncertain : Bool) (code : String)
    → (((terminal_verdict codes met uncertain).state ≡ business_outcome)
        × ((terminal_verdict codes met uncertain).business_outcome_code ≡ some code))
      ↔ ((codes ≡ code ∷ []) × (met ≢ holds))
unfolding terminal_verdict
verdict-outcome [] met uncertain code = (λ (st, e). absurd (ground arith), λ (c, m). absurd (cc))
verdict-outcome (a ∷ []) met uncertain code =
    (λ (st, e). (ground arith, ground arith), λ (c, m). ground arith)
verdict-outcome (a ∷ b ∷ codes) met uncertain code =
    (λ (st, e). absurd (ground arith), λ (c, m). absurd (cc))

module _ (snapshot : EvaluationSnapshot) (inputs : Dict String) where
  -- A list of conditions holds when each of its conditions does.
  abbrev pub Hold : List ConditionSpec → Type 0
  Hold conditions = All (λ c. (evaluate_condition c snapshot inputs).result ≡ holds) conditions

  -- No declared business outcome has all its conditions.
  abbrev pub NoOutcome : List BusinessOutcomeRule → Type 0
  NoOutcome rules = All (λ rule. ¬ Hold rule.conditions) rules

  -- Exactly one of the declared business outcomes has all its conditions, and its code is this one.
  abbrev pub OneOutcome : String → List BusinessOutcomeRule → Type 0
  OneOutcome code [] = ⊥
  OneOutcome code (rule ∷ rules) =
      (Hold rule.conditions × (rule.code ≡ code) × NoOutcome rules)
      ⊎ (¬ Hold rule.conditions × OneOutcome code rules)

  all_conditions-Hold :
      (conditions : List ConditionSpec)
      → ((all_conditions conditions snapshot inputs).result ≡ holds) ↔ Hold conditions
  unfolding all_conditions
  all_conditions-Hold conditions =
      conjunction-holds (λ c. evaluate_condition c snapshot inputs) conditions

  Hold-cases :
      (conditions : List ConditionSpec)
      → (((all_conditions conditions snapshot inputs).result ≡ holds) × Hold conditions)
        ⊎ (((all_conditions conditions snapshot inputs).result ≢ holds) × ¬ Hold conditions)
  Hold-cases conditions =
      let (to, back) = all_conditions-Hold conditions in
      elim (condition_result_eq.dec (all_conditions conditions snapshot inputs).result holds) [
        | yes e ↦ inl (e, to e)
        | no n ↦ inr (n, λ h. n (back h))
      ]

  codes-NoOutcome :
      (rules : List BusinessOutcomeRule)
      → (outcome_codes rules snapshot inputs ≡ []) ↔ NoOutcome rules
  unfolding outcome_codes
  codes-NoOutcome [] = (λ _. tt, λ _. refl)
  codes-NoOutcome (rule ∷ rules) =
      let (to, back) = codes-NoOutcome rules in
      elim (Hold-cases rule.conditions) [
        | inl (e, h) ↦ (λ c. absurd (ground arith), λ (n, rest). absurd (n h))
        | inr (e, n) ↦ (λ c. (n, to (ground arith)), λ (m, rest). let q = back rest in ground arith)
      ]

  codes-OneOutcome :
      (rules : List BusinessOutcomeRule) (code : String)
      → (outcome_codes rules snapshot inputs ≡ code ∷ []) ↔ OneOutcome code rules
  unfolding outcome_codes
  codes-OneOutcome [] code = (λ e. absurd (cc), λ h. absurd h)
  codes-OneOutcome (rule ∷ rules) code =
      let (to, back) = codes-OneOutcome rules code in
      let (to_none, of_none) = codes-NoOutcome rules in
      elim (Hold-cases rule.conditions) [
        | inl (e, h) ↦ (
          λ c. inl (h, ground arith, to_none (ground arith)),
          λ one. elim one [
            | inl (_, same, none_left) ↦ let q = of_none none_left in ground arith
            | inr (n, _) ↦ absurd (n h)
          ],
        )
        | inr (e, n) ↦ (
          λ c. inr (n, to (ground arith)),
          λ one. elim one [
            | inl (h, _, _) ↦ absurd (n h)
            | inr (_, one) ↦ let q = back one in ground arith
          ],
        )
      ]

  -- Success is declared exactly when every success condition holds and no business outcome does.
  pub success_exact :
      (definition : CapabilityDefinition)
      → ((evaluate_terminal_state definition snapshot inputs).state ≡ success)
        ↔ (Hold definition.success_conditions × NoOutcome definition.business_outcomes)
  unfolding evaluate_terminal_state
  success_exact definition =
      let (to, back) = all_conditions-Hold definition.success_conditions in
      let (to_none, of_none) = codes-NoOutcome definition.business_outcomes in
      let (parts, whole) =
        verdict-success (outcome_codes definition.business_outcomes snapshot inputs)
          (all_conditions definition.success_conditions snapshot inputs).result
          (has_unknown_outcome definition snapshot inputs) in
      (λ e. let (c, m) = parts e in (to m, to_none c), λ (h, n). whole (of_none n, back h))

  -- The state BUSINESS_OUTCOME is declared with a code exactly when the conditions of the outcome of
  -- that code hold, those of no other outcome do, and the success conditions do not all hold.
  pub business_outcome_exact :
      (definition : CapabilityDefinition) (code : String)
      → (((evaluate_terminal_state definition snapshot inputs).state ≡ business_outcome)
          × ((evaluate_terminal_state definition snapshot inputs).business_outcome_code
              ≡ some code))
        ↔ (OneOutcome code definition.business_outcomes × ¬ Hold definition.success_conditions)
  unfolding evaluate_terminal_state
  business_outcome_exact definition code =
      let (to, back) = all_conditions-Hold definition.success_conditions in
      let (to_one, of_one) = codes-OneOutcome definition.business_outcomes code in
      let (parts, whole) =
        verdict-outcome (outcome_codes definition.business_outcomes snapshot inputs)
          (all_conditions definition.success_conditions snapshot inputs).result
          (has_unknown_outcome definition snapshot inputs) code in
      (
        λ e. let (c, m) = parts e in (to_one c, λ h. m (back h)),
        λ (one, n). whole (of_one one, λ m. n (to m)),
      )
