-- ===== src/CapabilityValidator/Supply.antt =====
-- capabilities/capability_validator.py and replay/replay_engine.py: a validated capability does not want
-- for inputs when it is replayed.
use capability_runner.Prelude.{◌<>◌, String, ◌≡◌, true, none, List, map, All, arith, Dict}
use capability_runner.Contracts.Capabilities.{CapabilityDefinition}
use capability_runner.Contracts.Gateway.{GatewayExecutionContext}
use capability_runner.Ports.{Ports}
use capability_runner.Replay.Checks.{validate_inputs}
use capability_runner.Replay.Steps.{Engine, accepts_action_id}
use capability_runner.Replay.Engine.{entry_failure}

module _ (P : Ports) (engine : Engine) (definition : CapabilityDefinition) (inputs : Dict String)
    (context : GatewayExecutionContext)
    (required : All (λ item. item.required ≡ true) definition.inputs)
    (short : All
      (λ step. accepts_action_id (context.run_id <> "-" <> step.step_id) ≡ true)
      definition.steps) where
  abbrev names : List String
  names = map (λ item. item.name) definition.inputs

  entered :
      entry_failure P engine definition inputs context ≡ none
      → validate_inputs engine.fullmatch definition.inputs inputs ≡ none
  unfolding entry_failure
  entered e = ground arith
