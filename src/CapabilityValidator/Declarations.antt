-- ===== src/CapabilityValidator/Declarations.antt =====
-- capabilities/capability_validator.py: the definitions that `validate` accepts.
use capability_runner.Prelude.{
  String, ◌≡◌, ◌≢◌, refl, ◌∙◌, ◌↔◌, Bool, true, false, Option, none, some, List, [], ◌∷◌, ◌++◌, map,
  ok, contains, ◌==◌, string_eq, ◌||◌, ◌<>◌, if◌then◌else◌, All, arith,
}
use capability_runner.Contracts.Surfaces.{TargetValueRef, literal_value, input_value}
use capability_runner.Contracts.Capabilities.{
  ConditionSpec, target_visible, target_text_equals, target_text_contains, CapabilityInput,
  CapabilityActionTemplate, fill_template, click_template, ActionStep, CapabilityDefinition,
}
use capability_runner.CapabilityValidator.{
  unique_errors, value_errors, condition_errors, optional_errors, action_errors, step_errors,
  outcome_errors, errors_of, above, length_errors, success_errors, definition_errors, validate,
}

-- No two of the values are the same.
abbrev pub Distinct : List String → Type 0
Distinct [] = Unit
Distinct (v ∷ vs) = (contains vs v ≡ false) × Distinct vs

module _ (names : List String) where
  abbrev pub Declared : TargetValueRef → Type 0
  Declared (literal_value value) = Unit
  Declared (input_value name) = contains names name ≡ true

  abbrev pub ConditionDeclared : ConditionSpec → Type 0
  ConditionDeclared (target_visible target) = Unit
  ConditionDeclared (target_text_equals target expected) = Declared expected
  ConditionDeclared (target_text_contains target expected) = Declared expected

  abbrev pub OptionDeclared : Option ConditionSpec → Type 0
  OptionDeclared none = Unit
  OptionDeclared (some condition) = ConditionDeclared condition

  abbrev pub ActionDeclared : CapabilityActionTemplate → Type 0
  ActionDeclared (fill_template target value) = Declared value
  ActionDeclared (click_template target) = Unit

  pub record StepDeclared (step : ActionStep) : Type 0 where
    pub action : ActionDeclared step.action
    pub before : OptionDeclared step.precondition
    pub behind : OptionDeclared step.postcondition

-- What a definition has to satisfy: names are not repeated, something tells success, every input that
-- is referred to is declared, and no input has to be longer than it may be.
pub record IsWellFormed (d : CapabilityDefinition) : Type 0 where
  pub inputs_distinct : Distinct (map (λ item. item.name) d.inputs)
  pub outputs_distinct : Distinct (map (λ item. item.name) d.outputs)
  pub steps_distinct : Distinct (map (λ step. step.step_id) d.steps)
  pub outcomes_distinct : Distinct (map (λ outcome. outcome.code) d.business_outcomes)
  pub tells_success : d.success_conditions ≢ []
  pub steps_declared : All (StepDeclared (map (λ item. item.name) d.inputs)) d.steps
  pub success_declared :
      All (ConditionDeclared (map (λ item. item.name) d.inputs)) d.success_conditions
  pub outcomes_declared :
      All
        (λ outcome. All (ConditionDeclared (map (λ item. item.name) d.inputs)) outcome.conditions)
        d.business_outcomes
  pub lengths : All (λ item. above item.min_length item.max_length ≡ false) d.inputs

append-none : {A : Type 0} (a b : List A) → (a ++ b ≡ []) ↔ ((a ≡ []) × (b ≡ []))
append-none [] b = ((λ h. (refl, h)), (λ h. h.1))
append-none (x ∷ a) b = ((λ h. absurd (ground arith)), (λ h. absurd (ground arith)))

All-iff :
    {A : Type 0} (Q R : A → Type 0) (xs : List A) → ((x : A) → Q x ↔ R x) → All Q xs ↔ All R xs
All-iff Q R [] h = ((λ a. a), (λ a. a))
All-iff Q R (x ∷ xs) h =
    let rest = All-iff Q R xs h in
    ((λ a. ((h x).0 a.0, rest.0 a.1)), (λ a. ((h x).1 a.0, rest.1 a.1)))

errors_of-none :
    {A : Type 0} (check : A → List String) (Q : A → Type 0) (xs : List A)
    → ((x : A) → (check x ≡ []) ↔ Q x)
    → (errors_of check xs ≡ []) ↔ All Q xs
errors_of-none check Q [] h = ((λ e. tt), (λ a. refl))
errors_of-none check Q (x ∷ xs) h =
    let rest = errors_of-none check Q xs h in
    let split = append-none (check x) (errors_of check xs) in
    (
      (λ e. let (p, q) = split.0 e in ((h x).0 p, rest.0 q)),
      (λ a. split.1 ((h x).1 a.0, rest.1 a.1)),
    )

value_errors-none :
    (names : List String) (v : TargetValueRef) → (value_errors names v ≡ []) ↔ Declared names v
unfolding value_errors
value_errors-none names (literal_value value) = ((λ e. tt), (λ d. refl))
value_errors-none names (input_value name) = ((λ e. ground arith), (λ d. ground arith))

condition_errors-none :
    (names : List String) (c : ConditionSpec)
    → (condition_errors names c ≡ []) ↔ ConditionDeclared names c
unfolding condition_errors
condition_errors-none names (target_visible target) = ((λ e. tt), (λ d. refl))
condition_errors-none names (target_text_equals target expected) = value_errors-none names expected
condition_errors-none names (target_text_contains target expected) =
    value_errors-none names expected

optional_errors-none :
    (names : List String) (c : Option ConditionSpec)
    → (optional_errors names c ≡ []) ↔ OptionDeclared names c
optional_errors-none names none = ((λ e. tt), (λ d. refl))
optional_errors-none names (some c) = condition_errors-none names c

action_errors-none :
    (names : List String) (a : CapabilityActionTemplate)
    → (action_errors names a ≡ []) ↔ ActionDeclared names a
action_errors-none names (fill_template target value) = value_errors-none names value
action_errors-none names (click_template target) = ((λ e. tt), (λ d. refl))

step_errors-none :
    (names : List String) (step : ActionStep)
    → (step_errors names step ≡ []) ↔ StepDeclared names step
unfolding step_errors
step_errors-none names step =
    let first =
      append-none (action_errors names step.action)
        (optional_errors names step.precondition ++ optional_errors names step.postcondition) in
    let second =
      append-none (optional_errors names step.precondition)
        (optional_errors names step.postcondition) in
    let a = action_errors-none names step.action in
    let b = optional_errors-none names step.precondition in
    let c = optional_errors-none names step.postcondition in
    (
      (λ e.
          let (p, q) = first.0 e in
          let (r, s) = second.0 q in record { action = a.0 p; before = b.0 r; behind = c.0 s }),
      (λ d. first.1 (a.1 d.action, second.1 (b.1 d.before, c.1 d.behind))),
    )

length_errors-none :
    (item : CapabilityInput)
    → (length_errors item ≡ []) ↔ (above item.min_length item.max_length ≡ false)
unfolding length_errors
length_errors-none item = ((λ e. ground arith), (λ e. ground arith))

success_errors-none : (cs : List ConditionSpec) → (success_errors cs ≡ []) ↔ (cs ≢ [])
success_errors-none [] = ((λ e. absurd (ground arith)), (λ n. absurd (n refl)))
success_errors-none (c ∷ cs) = ((λ e p. ground arith), (λ n. refl))

-- Distinct values, none of which was seen before.
abbrev Fresh : List String → List String → Type 0
Fresh seen vs = Distinct vs × All (λ v. contains seen v ≡ false) vs

or_false : (a b : Bool) → ((a || b) ≡ false) ↔ ((a ≡ false) × (b ≡ false))
or_false true b = ((λ e. absurd (ground arith)), (λ h. absurd (ground arith)))
or_false false b = ((λ e. (refl, e)), (λ h. h.1))

eq_swap : (u v : String) → (u == v) ≡ (v == u)
eq_swap u v = ground arith

unseen :
    (v : String) (seen vs : List String)
    → All (λ u. contains (v ∷ seen) u ≡ false) vs
      ↔ ((contains vs v ≡ false) × All (λ u. contains seen u ≡ false) vs)
unseen v seen [] = ((λ a. (refl, tt)), (λ h. tt))
unseen v seen (u ∷ us) =
    let rest = unseen v seen us in
    let here = or_false (u == v) (contains seen u) in
    let there = or_false (v == u) (contains us v) in
    (
      (λ a.
          let (p, q) = here.0 a.0 in
          let (r, s) = rest.0 a.1 in (there.1 (eq_swap v u ∙ p, r), (q, s))),
      (λ h. let (p, q) = there.0 h.0 in (here.1 (eq_swap u v ∙ p, h.1.0), rest.1 (q, h.1.1))),
    )

unique_errors-none :
    (label : String) (seen vs : List String) → (unique_errors label seen vs ≡ []) ↔ Fresh seen vs
unfolding unique_errors
unique_errors-none label seen [] = ((λ e. (tt, tt)), (λ f. refl))
unique_errors-none label seen (v ∷ vs) =
    let rest = unique_errors-none label (v ∷ seen) vs in
    let spread = unseen v seen vs in
    (
      (λ e.
          let (fresh, none_left) = taken (contains seen v) e in
          let (d, a) = rest.0 none_left in let (p, q) = spread.0 a in ((p, d), (fresh, q))),
      (λ f. back (contains seen v) f.1.0 (rest.1 (f.0.1, spread.1 (f.0.0, f.1.1)))),
    )
  where
    message : String
    message = "duplicate " <> label <> " name: " <> v

    taken :
        (b : Bool)
        → (if b
            then message ∷ unique_errors label (v ∷ seen) vs
            else unique_errors label (v ∷ seen) vs)
          ≡ []
        → (b ≡ false) × (unique_errors label (v ∷ seen) vs ≡ [])
    taken true e = absurd (ground arith)
    taken false e = (refl, e)

    back :
        (b : Bool)
        → b ≡ false
        → unique_errors label (v ∷ seen) vs ≡ []
        → (if b
            then message ∷ unique_errors label (v ∷ seen) vs
            else unique_errors label (v ∷ seen) vs)
          ≡ []
    back true e f = absurd (ground arith)
    back false e f = f

unique-Distinct :
    (label : String) (vs : List String) → (unique_errors label [] vs ≡ []) ↔ Distinct vs
unique-Distinct label vs =
    let h = unique_errors-none label [] vs in ((λ e. (h.0 e).0), (λ d. h.1 (d, nothing vs)))
  where
    nothing : (vs : List String) → All (λ v. contains [] v ≡ false) vs
    nothing [] = tt
    nothing (v ∷ vs) = (refl, nothing vs)

both_none :
    (a b : List String) (Q R : Type 0) → (a ≡ []) ↔ Q → (b ≡ []) ↔ R → (a ++ b ≡ []) ↔ (Q × R)
both_none a b Q R h k =
    let split = append-none a b in
    ((λ e. let (p, q) = split.0 e in (h.0 p, k.0 q)), (λ x. split.1 (h.1 x.0, k.1 x.1)))

definition_errors-none : (d : CapabilityDefinition) → (definition_errors d ≡ []) ↔ IsWellFormed d
unfolding definition_errors outcome_errors
definition_errors-none d =
    let names = map (λ item. item.name) d.inputs in
    let lengths =
      errors_of-none length_errors (λ item. above item.min_length item.max_length ≡ false) d.inputs
        length_errors-none in
    let outcomes =
      errors_of-none (outcome_errors names) (λ o. All (ConditionDeclared names) o.conditions)
        d.business_outcomes
        (λ o.
          errors_of-none (condition_errors names) (ConditionDeclared names) o.conditions
            (condition_errors-none names)) in
    let successes =
      errors_of-none (condition_errors names) (ConditionDeclared names) d.success_conditions
        (condition_errors-none names) in
    let steps =
      errors_of-none (step_errors names) (StepDeclared names) d.steps (step_errors-none names) in
    let all_parts = both_none _ _ _ _ (unique-Distinct "input" names) (
      both_none _ _ _ _ (unique-Distinct "output" (map (λ item. item.name) d.outputs)) (
        both_none _ _ _ _ (unique-Distinct "step" (map (λ step. step.step_id) d.steps)) (
          both_none _ _ _ _
            (unique-Distinct "business outcome" (map (λ outcome. outcome.code) d.business_outcomes))
            (both_none _ _ _ _ (success_errors-none d.success_conditions) (
              both_none _ _ _ _ steps
                (both_none _ _ _ _ successes (both_none _ _ _ _ outcomes lengths))))))) in
    (
      (λ e.
          let (a, (b, (c, (f, (g, (h, (i, (j, k)))))))) = all_parts.0 e in
          record {
            inputs_distinct = a;
            outputs_distinct = b;
            steps_distinct = c;
            outcomes_distinct = f;
            tells_success = g;
            steps_declared = h;
            success_declared = i;
            outcomes_declared = j;
            lengths = k;
          }),
      (λ w. all_parts.1 (
        w.inputs_distinct,
        (
          w.outputs_distinct,
          (
            w.steps_distinct,
            (
              w.outcomes_distinct,
              (
                w.tells_success,
                (w.steps_declared, (w.success_declared, (w.outcomes_declared, w.lengths))),
              ),
            ),
          ),
        ),
      )),
    )

-- `validate` accepts a definition just where it is well-formed: its input, output, step and outcome
-- names are not repeated, it has a success condition, every input that a step or a condition refers
-- to is declared, and no input's least length is above its greatest. It returns what it is given.
pub validate-IsWellFormed : (d : CapabilityDefinition) → (validate d ≡ ok d) ↔ IsWellFormed d
unfolding validate
validate-IsWellFormed d = (
  (λ e. (definition_errors-none d).0 (no_errors (definition_errors d) refl e)),
  (λ w. rw (validate, (definition_errors-none d).1 w) refl),
)
  where
    no_errors :
        (es : List String) → definition_errors d ≡ es → validate d ≡ ok d → definition_errors d ≡ []
    no_errors [] f e = f
    no_errors (x ∷ es) f e = absurd (ground arith)
