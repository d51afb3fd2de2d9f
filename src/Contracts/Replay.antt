-- ===== src/Contracts/Replay.antt =====
-- contracts/replay.py and the answer of contracts/intervention.py that a replay gives on resumption.
use capability_runner.Prelude.{ℕ, String, Option, Dict}
use capability_runner.Evaluator.{OutputValue}

pub data ReplayOutcome : Type 0 where
  succeeded declared_outcome failure : ReplayOutcome

-- `outcome.casefold()`
abbrev pub replay_outcome_folded : ReplayOutcome → String
replay_outcome_folded succeeded = "success"
replay_outcome_folded declared_outcome = "business_outcome"
replay_outcome_folded failure = "failure"

-- `reason_code` and `action_effect_state` have one value each.
pub record ReplayCheckpoint : Type 0 where
  pub capability_id : String
  pub capability_version : String
  pub blocked_step_id : String
  pub blocked_step_index : ℕ
  pub suspended_generation : ℕ

pub record ReplayResult : Type 0 where
  pub outcome : ReplayOutcome
  pub run_id : String
  pub outputs : Dict OutputValue
  pub business_outcome_code : Option String
  pub reason_code : Option String
  pub step_id : Option String
  pub summary : String
  pub steps_attempted : ℕ
  pub checkpoint : Option ReplayCheckpoint
