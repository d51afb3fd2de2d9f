-- ===== src/Coordination/Results.antt =====
-- application/run_coordinator.py: the coordinator's results, and its tests of replay results and of
-- interventions.
use capability_runner.Prelude.{
  String, Bool, true, false, Option, none, some, ◌==◌, string_eq, nat_eq, ◌&&◌, ltb, get_elem?,
  if◌then◌else◌,
}
use capability_runner.Contracts.Capabilities.{ActionStep, CapabilityDefinition}
use capability_runner.Contracts.Gateway.{GatewayExecutionContext}
use capability_runner.Contracts.Intervention.{
  InterventionRecord, ResumeValidationResult, valid, invalid, InterventionOutcome,
  InterventionResult,
}
use capability_runner.Contracts.Replay.{
  ReplayOutcome, ReplayCheckpoint, ReplayResult, succeeded, declared_outcome,
}
use capability_runner.Contracts.Continuation.{
  ContinuationOutcome, success, business_outcome, failure, validation_failed, session_stopped,
  continuation_already_consumed, invalid_continuation, ReplayContinuationResult,
}
use capability_runner.Replay.Engine.{ResumeValidation}
use capability_runner.Coordination.Registry.{
  PendingReplayContinuation, ReplayContinuationRegistry, was_consumed,
}

-- `_result`, whose keyword arguments may be left out
abbrev pub result : ContinuationOutcome → String → String → ReplayContinuationResult
result outcome reason summary = record {
  outcome = outcome;
  reason_code = reason;
  summary = summary;
  intervention = none;
  replay_result = none;
  generation_before = none;
  generation_after = none;
}

-- `_unavailable`
unfoldable pub unavailable : String → ReplayContinuationRegistry → ReplayContinuationResult
unavailable id registry =
    if was_consumed id registry
    then result continuation_already_consumed "CONTINUATION_ALREADY_CONSUMED"
        "Replay continuation was already consumed."
    else result invalid_continuation "CONTINUATION_NOT_FOUND" "Replay continuation was not found."

abbrev pub transition_outcome : InterventionOutcome → ContinuationOutcome
transition_outcome InterventionOutcome.session_stopped = session_stopped
transition_outcome InterventionOutcome.validation_failed = validation_failed
transition_outcome _ = failure

-- `_transition_failure`
abbrev pub transition_failure : InterventionResult → ReplayCheckpoint → ReplayContinuationResult
transition_failure t checkpoint =
    record (result (transition_outcome t.outcome) t.reason_code t.summary) {
      intervention = t.record_of;
      generation_before = some checkpoint.suspended_generation;
    }

-- Whether the step at the checkpoint's index is there and is the blocked one.
abbrev pub blocked_at : ReplayCheckpoint → Option ActionStep → Bool
blocked_at checkpoint none = false
blocked_at checkpoint (some step) = step.step_id == checkpoint.blocked_step_id

abbrev pub is_failure : ReplayOutcome → Bool
is_failure ReplayOutcome.failure = true
is_failure _ = false

abbrev pub asks_approval : Option String → Bool
asks_approval none = false
asks_approval (some reason) = reason == "APPROVAL_REQUIRED"

-- The checkpoint of a replay result that is safely resumable; nothing where the guard of
-- `suspend_for_intervention` refuses it.
unfoldable pub safe_checkpoint :
    ReplayResult → CapabilityDefinition → GatewayExecutionContext → Option ReplayCheckpoint
safe_checkpoint r capability context = elim r.checkpoint [
  | none ↦ none
  | some checkpoint ↦
      if is_failure r.outcome
        && asks_approval r.reason_code
        && r.run_id == context.run_id
        && checkpoint.suspended_generation == context.expected_generation
        && checkpoint.capability_id == capability.capability_id
        && checkpoint.capability_version == capability.capability_version
        && blocked_at checkpoint (get_elem? capability.steps checkpoint.blocked_step_index)
      then some checkpoint
      else none
]

-- `_matches_record`
unfoldable pub matches_record : PendingReplayContinuation → InterventionRecord → Bool
matches_record p r =
    r.run_id == p.continuation.context.run_id
    && r.control_session_id == p.continuation.context.control_session_id
    && r.surface_session.surface_session_id
      == p.continuation.context.surface_session.surface_session_id
    && ltb p.continuation.checkpoint.suspended_generation r.requested_generation

abbrev pub invalid_record : ResumeValidationResult
invalid_record = record {
  outcome = invalid;
  reason_code = "INVALID_CONTINUATION";
  summary = "Replay continuation does not match the intervention.";
}

abbrev pub validation_result : ResumeValidation → ResumeValidationResult
validation_result v = record {
  outcome = if v.valid then valid else invalid;
  reason_code = v.reason_code;
  summary = v.summary;
}

abbrev pub some_validation : Option ResumeValidation → Option ResumeValidationResult
some_validation none = none
some_validation (some v) = some (validation_result v)

-- `reason_code or outcome`
abbrev pub reason_or_outcome : Option String → ReplayOutcome → String
reason_or_outcome (some (String.◌∷◌ c s)) o = String.◌∷◌ c s
reason_or_outcome _ succeeded = "SUCCESS"
reason_or_outcome _ declared_outcome = "BUSINESS_OUTCOME"
reason_or_outcome _ ReplayOutcome.failure = "FAILURE"

abbrev pub continuation_outcome : ReplayOutcome → ContinuationOutcome
continuation_outcome succeeded = success
continuation_outcome declared_outcome = business_outcome
continuation_outcome ReplayOutcome.failure = failure
