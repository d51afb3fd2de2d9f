-- ===== src/Discovery/Variables.antt =====
-- discovery/discovery_engine.py: the engine's parts, and the variables of its loop.
use capability_runner.Prelude.{
  ℕ, suc, String, Bool, Option, none, some, List, [], ◌∷◌, map, Result, string_eq, insert,
}
use capability_runner.Contracts.Capabilities.{visible, TargetObservation, EvaluationSnapshot}
use capability_runner.Contracts.Discovery.{
  DiscoveryAction, discovery_fill, GoalSpanValueSource, VerifiedCompletionEvidence, DecisionKind,
  DiscoveryTraceEntry, DiscoveryOutcome, DiscoveryResult, ModelErrorCode, ModelRequest,
}
use capability_runner.Contracts.Evidence.{Value}
use capability_runner.Contracts.Gateway.{GatewayOutcome, executed}
use capability_runner.Contracts.Surfaces.{SemanticTargetRef, ApplicationProfile, SurfaceSessionRef}
use capability_runner.Ports.{Ports, World}
use capability_runner.Gateway.{Gateway}
use capability_runner.Discovery.Decisions.{DecisionParser, GoalValues, SnapshotKey}

pub data Await : Type 0 where
  collecting consulting acting : Await

-- What a discovery engine is built from.
pub record DiscoveryEngine (P : Ports) : Type 0 where
  -- `model_client.complete`: nothing where it raises anything but a `ModelClientError`
  pub complete : ModelRequest → World P → Option (Result ModelErrorCode String) × World P
  -- `snapshot_collector.collect`
  pub collect :
      SurfaceSessionRef
      → ApplicationProfile
      → List SemanticTargetRef
      → World P
      → Option EvaluationSnapshot × World P
  -- whether the timeout strikes at an await, and what it leaves
  pub strikes : Await → World P → Option (World P)
  pub parse : DecisionParser
  pub dumps : Value → String
  pub dumps_compact : Value → String
  pub sha256 : String → String
  pub gateway : Gateway
  pub records : Bool

pub data Ended : Type 0 where
  returned : DiscoveryResult → Ended
  timed_out raised : Ended

-- The variables of the loop.
pub record Progress : Type 0 where
  pub trace : List DiscoveryTraceEntry
  pub actions : ℕ
  pub invalid_responses : ℕ
  pub repair_code : Option String
  pub previous_proposal : Option DiscoveryAction
  pub previous_snapshot : Option SnapshotKey
  pub executed_goal_values : GoalValues

abbrev pub first_progress : Progress
first_progress = record {
  trace = [];
  actions = 0;
  invalid_responses = 0;
  repair_code = none;
  previous_proposal = none;
  previous_snapshot = none;
  executed_goal_values = [];
}

abbrev pub max_turns : ℕ
max_turns = 12

abbrev pub max_actions : ℕ
max_actions = 8

abbrev pub max_invalid_responses : ℕ
max_invalid_responses = 2

-- `_result`
abbrev pub result :
    DiscoveryOutcome
    → String
    → ℕ
    → ℕ
    → List DiscoveryTraceEntry
    → List VerifiedCompletionEvidence
    → DiscoveryResult
result outcome reason turns actions trace evidence = record {
  outcome = outcome;
  reason_code = reason;
  turns = turns;
  actions = actions;
  verified_targets = map (λ e. e.target) evidence;
  completion_evidence = evidence;
  trace = trace;
}

-- A trace entry of anything but an action.
abbrev pub plain_entry : ℕ → DecisionKind → String → String → DiscoveryTraceEntry
plain_entry turn kind fingerprint outcome = record {
  turn = turn;
  decision_kind = kind;
  action_kind = none;
  semantic_target = none;
  value_source = none;
  gateway_outcome = none;
  observation_fingerprint = some fingerprint;
  outcome = outcome;
}

abbrev pub count_visible : List TargetObservation → ℕ
count_visible [] = 0
count_visible (item ∷ rest) = elim item.state [
  | visible ↦ suc (count_visible rest)
  | other ↦ count_visible rest
]

-- What an executed fill adds to the values taken from the goal.
abbrev pub remember :
    DiscoveryAction → GatewayOutcome → Option GoalSpanValueSource → GoalValues → GoalValues
remember (discovery_fill target value) executed (some span) values =
    insert target (value, span) values
remember action outcome span values = values
