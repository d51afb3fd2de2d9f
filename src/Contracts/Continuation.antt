-- ===== src/Contracts/Continuation.antt =====
-- contracts/continuation.py: the results of suspending and resuming a replay.
use capability_runner.Prelude.{ℕ, String, Option}
use capability_runner.Contracts.Intervention.{InterventionRecord}
use capability_runner.Contracts.Replay.{ReplayResult}

pub data ContinuationOutcome : Type 0 where
  intervention_required success business_outcome failure : ContinuationOutcome
  validation_failed session_stopped : ContinuationOutcome
  continuation_already_consumed invalid_continuation : ContinuationOutcome

pub record ReplayContinuationResult : Type 0 where
  pub outcome : ContinuationOutcome
  pub reason_code : String
  pub summary : String
  pub intervention : Option InterventionRecord
  pub replay_result : Option ReplayResult
  pub generation_before : Option ℕ
  pub generation_after : Option ℕ
