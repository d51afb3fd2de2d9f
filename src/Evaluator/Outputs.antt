-- ===== src/Evaluator/Outputs.antt =====
-- replay/state_evaluator.py: what `extract_outputs` returns.
use capability_runner.Prelude.{
  String, ◌≡◌, refl, sym, ◌∙◌, ◌⊎◌, inl, inr, true, Option, none, some, List, [], ◌∷◌, ◌++◌, Result,
  ok, err, arith,
}
use mathlib.Core.List.{Memᴰ, append_assoc, append-nil}
use capability_runner.Contracts.Capabilities.{
  EvaluationSnapshot, TargetObservation, CapabilityOutput, CapabilityDefinition, visible,
}
use capability_runner.Evaluator.{
  EvaluationIssue, ExtractedOutput, OutputExtraction, find_observation, output_text, parse_output,
  matches_output_type, extract_output, extract_loop, extract_outputs,
}

-- A value that was read for a declared output: from the text of its own target, visible in the
-- snapshot, by its own parser, and of its own type.
pub record Reads (snapshot : EvaluationSnapshot) (output : CapabilityOutput)
    (value : ExtractedOutput) : Type 0 where
  pub observation : TargetObservation
  pub observed : find_observation output.source.target.value snapshot ≡ some observation
  pub shown : observation.state ≡ visible
  pub text : String
  pub written : observation.text ≡ some text
  pub parsed : parse_output output text ≡ ok value.value
  pub typed : matches_output_type output.value_type value.value ≡ true
  pub named : value.name ≡ output.name

module _ (snapshot : EvaluationSnapshot) where
  -- One value was read for each declared output, in order.
  abbrev pub ReadsAll : List CapabilityOutput → List ExtractedOutput → Type 0
  ReadsAll [] [] = Unit
  ReadsAll (output ∷ outputs) (value ∷ values) =
      Reads snapshot output value × ReadsAll outputs values
  ReadsAll _ _ = ⊥

  output_text-visible :
      (output : CapabilityOutput) (found : Option TargetObservation) (text : String)
      → output_text output found ≡ ok text
      → (o : TargetObservation) × (found ≡ some o) × (o.state ≡ visible) × (o.text ≡ some text)
  unfolding output_text
  output_text-visible output none text e = absurd (cc)
  output_text-visible output (some o) text e = (o, refl, ground arith, ground arith)

  extract_output-Reads :
      (output : CapabilityOutput) (value : ExtractedOutput)
      → extract_output output snapshot ≡ ok value
      → Reads snapshot output value
  unfolding extract_output
  extract_output-Reads output value e =
      go (output_text output (find_observation output.source.target.value snapshot)) refl
    where
      go :
          (r : Result EvaluationIssue String)
          → output_text output (find_observation output.source.target.value snapshot) ≡ r
          → Reads snapshot output value
      go (err issue) h = absurd (ground arith)
      go (ok text) h =
          let (o, found, shown, written) = output_text-visible output _ text h in
          record {
            observation = o;
            observed = found;
            shown = shown;
            text = text;
            written = written;
            parsed = ground arith;
            typed = ground arith;
            named = ground arith;
          }

  -- An extraction that read everything, or stopped at an output and returned none.
  abbrev pub AllOrNothing : List CapabilityOutput → List ExtractedOutput → OutputExtraction → Type 0
  AllOrNothing outputs before x =
      ((values : List ExtractedOutput) × (x.issue ≡ none)
        × (x.outputs ≡ before ++ values)
        × ReadsAll outputs values)
      ⊎ ((issue : EvaluationIssue) × (output : CapabilityOutput) × (x.issue ≡ some issue)
          × (x.outputs ≡ [])
          × Memᴰ output outputs
          × (extract_output output snapshot ≡ err issue))

  loop-AllOrNothing :
      (outputs : List CapabilityOutput) (before : List ExtractedOutput)
      → AllOrNothing outputs before (extract_loop outputs snapshot before)
  unfolding extract_loop
  loop-AllOrNothing [] before = inl ([], refl, sym (append-nil before), tt)
  loop-AllOrNothing (output ∷ outputs) before =
      go (extract_output output snapshot) refl (λ v. loop-AllOrNothing outputs (before ++ v ∷ []))
    where
      go :
          (r : Result EvaluationIssue ExtractedOutput)
          → extract_output output snapshot ≡ r
          → ((v : ExtractedOutput)
              → AllOrNothing outputs
                  (before ++ v ∷ [])
                  (extract_loop outputs snapshot (before ++ v ∷ [])))
          → AllOrNothing (output ∷ outputs) before (extract_loop (output ∷ outputs) snapshot before)
      go (err issue) e rest = inr (issue, output, ground arith, ground arith, Memᴰ.head refl, e)
      go (ok v) e rest = elim (rest v) [
        | inl (values, done, kept, reads) ↦ inl (
          v ∷ values,
          rw (extract_loop, e) done,
          rw (extract_loop, e) (kept ∙ append_assoc before (v ∷ []) values),
          (extract_output-Reads output v e, reads),
        )
        | inr (issue, o, stopped, emptied, m, bad) ↦
            inr (
              issue,
              o,
              rw (extract_loop, e) stopped,
              rw (extract_loop, e) emptied,
              Memᴰ.tail m,
              bad,
            )
      ]

  -- Outputs are extracted all or none. Without an issue there is one value for each declared output,
  -- in order, read from the visible text of its target by its parser and of its type. With an issue
  -- there is no value, and the issue is that of a declared output.
  pub extract_outputs-AllOrNothing :
      (definition : CapabilityDefinition)
      → AllOrNothing definition.outputs [] (extract_outputs definition snapshot)
  unfolding extract_outputs
  extract_outputs-AllOrNothing definition = loop-AllOrNothing definition.outputs []
