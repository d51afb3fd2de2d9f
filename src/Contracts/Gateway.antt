-- ===== src/Contracts/Gateway.antt =====
-- contracts/gateway.py: what a gateway is asked, in which context, and what it answers.
use capability_runner.Prelude.{ℕ, String, Option}
use capability_runner.Contracts.Actions.{ActionSpec}
use capability_runner.Contracts.Surfaces.{
  ApplicationProfile, SemanticTargetRef, SurfaceActionOutcome, SurfaceSessionRef,
}

pub record GatewayActionRequest : Type 0 where
  pub action_id : String
  pub semantic_target : SemanticTargetRef
  pub action : ActionSpec
  pub step_id : Option String

pub record GatewayExecutionContext : Type 0 where
  pub run_id : String
  pub control_session_id : String
  pub expected_generation : ℕ
  pub surface_session : SurfaceSessionRef
  pub profile : ApplicationProfile

pub data GatewayOutcome : Type 0 where
  executed denied approval_required failed : GatewayOutcome

-- `outcome.casefold()`
abbrev pub outcome_folded : GatewayOutcome → String
outcome_folded executed = "executed"
outcome_folded denied = "denied"
outcome_folded approval_required = "approval_required"
outcome_folded failed = "failed"

pub record GatewayResult : Type 0 where
  pub outcome : GatewayOutcome
  pub reason_code : String
  pub summary : String
  pub action_id : String
  pub semantic_target : SemanticTargetRef
  pub surface_outcome : Option SurfaceActionOutcome
