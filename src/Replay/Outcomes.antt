-- ===== src/Replay/Outcomes.antt =====
-- replay/replay_engine.py: what the results of a replay rest on.
use capability_runner.Prelude.{
  ℕ, String, ◌≡◌, ◌≢◌, refl, Option, none, some, [], string_eq, Dict, arith,
}
use mathlib.Core.Option.{some-ne-none}
use capability_runner.Contracts.Capabilities.{EvaluationSnapshot, ActionStep, CapabilityDefinition}
use capability_runner.Contracts.Gateway.{GatewayExecutionContext}
use capability_runner.Contracts.Replay.{
  ReplayCheckpoint, ReplayOutcome, succeeded, declared_outcome, failure, ReplayResult,
}
use capability_runner.Evaluator.{
  TerminalState, success, business_outcome, incomplete, undetermined, conflict, EvaluationIssue,
  evaluate_terminal_state, extract_outputs,
}
use capability_runner.Ports.{Ports}
use capability_runner.Replay.Checks.{validate_checkpoint_identity}
use capability_runner.Replay.Results.{outputs_by_name, success_result, terminal_result}
use capability_runner.Replay.Steps.{
  Engine, Observed, returned, left_loop, precondition_of, precondition_failure, postcondition_of,
  verdict_of,
}

module _ (definition : CapabilityDefinition) (inputs : Dict String)
    (context : GatewayExecutionContext) where
  -- What an outcome rests on: a snapshot on which the definition declares it, or a reason to fail.
  abbrev pub Justified : ReplayOutcome → ReplayResult → Type 0
  Justified succeeded r =
      (snapshot : EvaluationSnapshot) × ((evaluate_terminal_state definition snapshot inputs).state
        ≡ success)
      × ((extract_outputs definition snapshot).issue ≡ none)
      × (r.outputs ≡ outputs_by_name (extract_outputs definition snapshot).outputs [])
  Justified declared_outcome r =
      (snapshot : EvaluationSnapshot) × ((evaluate_terminal_state definition snapshot inputs).state
        ≡ business_outcome)
      × (r.business_outcome_code
          ≡ (evaluate_terminal_state definition snapshot inputs).business_outcome_code)
  Justified failure r = r.reason_code ≢ none

  -- A checkpoint, where there is one, is of this capability and this generation, and is accepted; its
  -- result is the failure of this run that asks for approval.
  abbrev pub Resumable : Option ReplayCheckpoint → ReplayResult → Type 0
  Resumable none r = Unit
  Resumable (some checkpoint) r =
      (validate_checkpoint_identity definition checkpoint ≡ none)
      × (checkpoint.suspended_generation ≡ context.expected_generation)
      × (r.outcome ≡ failure)
      × (r.reason_code ≡ some "APPROVAL_REQUIRED")
      × (r.run_id ≡ context.run_id)

  abbrev pub IsSound : ReplayResult → Type 0
  IsSound r = Justified r.outcome r × Resumable r.checkpoint r

  pub failure-IsSound :
      (r : ReplayResult)
      → r.outcome ≡ failure
      → r.reason_code ≢ none
      → r.checkpoint ≡ none
      → IsSound r
  failure-IsSound r failing reason plain = rw (Justified, Resumable, failing, plain) (reason, tt)

  abbrev pub SoundOption : Option ReplayResult → Type 0
  SoundOption none = Unit
  SoundOption (some r) = IsSound r

  abbrev pub SoundObserved : Observed → Type 0
  SoundObserved (returned r) = IsSound r
  SoundObserved (left_loop met) = Unit

  success_result-IsSound :
      (snapshot : EvaluationSnapshot) (run_id step_id : String) (n : ℕ)
      → (evaluate_terminal_state definition snapshot inputs).state ≡ success
      → IsSound (success_result (extract_outputs definition snapshot) run_id step_id n)
  unfolding success_result
  success_result-IsSound snapshot run_id step_id n e =
      go (extract_outputs definition snapshot).issue refl
    where
      go :
          (i : Option EvaluationIssue)
          → (extract_outputs definition snapshot).issue ≡ i
          → IsSound (success_result (extract_outputs definition snapshot) run_id step_id n)
      go none h = rw h ((snapshot, e, h, refl), tt)
      go (some i) h = rw h (some-ne-none _, tt)

  pub terminal_result-IsSound :
      (snapshot : EvaluationSnapshot) (run_id step_id : String) (n : ℕ)
      → SoundOption (terminal_result definition snapshot inputs run_id step_id n)
  unfolding terminal_result
  terminal_result-IsSound snapshot run_id step_id n =
      go (evaluate_terminal_state definition snapshot inputs).state refl
    where
      go :
          (s : TerminalState)
          → (evaluate_terminal_state definition snapshot inputs).state ≡ s
          → SoundOption (terminal_result definition snapshot inputs run_id step_id n)
      go success e = rw (SoundOption, e) (success_result-IsSound snapshot run_id step_id n e)
      go business_outcome e = rw (SoundOption, e) ((snapshot, e, refl), tt)
      go incomplete e = rw (SoundOption, e) tt
      go undetermined e = rw (SoundOption, e) tt
      go conflict e = rw (SoundOption, e) (some-ne-none _, tt)

  pub precondition-IsSound :
      (step : ActionStep) (n : ℕ) (before : EvaluationSnapshot) (P : Ports) (engine : Engine)
      (r : ReplayResult)
      → precondition_failure P engine definition inputs context step n before ≡ some r
      → IsSound r
  unfolding precondition_failure precondition_of
  precondition-IsSound step n before P engine r e =
      failure-IsSound r (ground arith) (ground arith) (ground arith)

  pub verdict-SoundObserved :
      (step : ActionStep) (n : ℕ) (after : EvaluationSnapshot) (P : Ports) (engine : Engine)
      (o : Observed)
      → verdict_of P engine definition inputs context step n after ≡ some o
      → SoundObserved o
  unfolding verdict_of postcondition_of
  verdict-SoundObserved step n after P engine (left_loop met) e = tt
  verdict-SoundObserved step n after P engine (returned r) e =
      failure-IsSound r (ground arith) (ground arith) (ground arith)
