-- ===== src/Replay/Totality.antt =====
-- replay/replay_engine.py: `replay` returns.
use capability_runner.Prelude.{String, ◌≡◌, refl, Option, none, some, Dict, All}
use capability_runner.Contracts.Capabilities.{CapabilityDefinition}
use capability_runner.Contracts.Gateway.{GatewayExecutionContext}
use capability_runner.Contracts.Replay.{ReplayResult}
use capability_runner.Ports.{Ports, World}
use capability_runner.Replay.Collection.{and_then}
use capability_runner.Replay.Steps.{Engine}
use capability_runner.Replay.Engine.{
  replay, replay_unrecorded, entry_failure, run_from, from_index, record_completed, log_started,
  log_completed,
}
use capability_runner.Replay.Returning.{IsReliable, IsReady, Returns, and_then-Returns, log-Returns}
use capability_runner.Replay.Returning.Steps.{execute_steps-Returns}

-- What a replay that is not refused at its entry has at hand: every runtime input that a step fills in,
-- and identifiers of actions that are not too long.
abbrev pub SuppliedAfter :
    (P : Ports) (engine : Engine) (definition : CapabilityDefinition) (inputs : Dict String)
    (context : GatewayExecutionContext)
    → Option ReplayResult
    → Type 0
SuppliedAfter P engine definition inputs context none =
    All (IsReady inputs context.run_id) definition.steps
SuppliedAfter P engine definition inputs context (some r) = Unit

module _ (P : Ports) (reliable : IsReliable P) (engine : Engine) (definition : CapabilityDefinition)
    (inputs : Dict String) (context : GatewayExecutionContext)
    (supplied : SuppliedAfter P engine definition inputs context
      (entry_failure P engine definition inputs context)) where
  replay_unrecorded-Returns : Returns P (replay_unrecorded P engine definition inputs context)
  unfolding replay_unrecorded run_from from_index
  replay_unrecorded-Returns w = go (entry_failure P engine definition inputs context) refl supplied
    where
      go :
          (o : Option ReplayResult)
          → entry_failure P engine definition inputs context ≡ o
          → SuppliedAfter P engine definition inputs context o
          → (r : ReplayResult) × ((replay_unrecorded P engine definition inputs context w).0
              ≡ some r)
      go (some r) e s = rw (replay_unrecorded, e) (r, refl)
      go none e s =
          rw (replay_unrecorded, e)
            (execute_steps-Returns P reliable context engine definition inputs definition.steps 0 s
              w)

  -- A replay comes to an end and returns a result, in every world and whatever the surface, the policy
  -- and the other tasks do: if the evidence can be written, targets can be inspected, and, unless the
  -- replay is refused at its entry, every runtime input that a step fills in is supplied and no action's
  -- identifier is too long.
  pub replay_returns :
      (w : World P)
      → (r : ReplayResult) × ((replay P engine definition inputs context w).0 ≡ some r)
  unfolding replay log_started record_completed log_completed
  replay_returns =
      and_then-Returns P (log_started P engine definition inputs context)
        (λ _.
          and_then P (replay_unrecorded P engine definition inputs context)
            (record_completed P engine definition inputs context))
        (log-Returns P reliable context engine.records _ _ _ _ _)
        (λ _.
          and_then-Returns P (replay_unrecorded P engine definition inputs context)
            (record_completed P engine definition inputs context) replay_unrecorded-Returns
            (λ r.
              and_then-Returns P (log_completed P engine definition inputs context r)
                (λ _ w. (some r, w)) (log-Returns P reliable context engine.records _ _ _ _ _)
                (λ _ w. (r, refl))))
