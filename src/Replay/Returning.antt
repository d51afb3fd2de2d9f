-- ===== src/Replay/Returning.antt =====
-- replay/replay_engine.py, replay/snapshot_collector.py: when a task returns, rather than raise.
pub mod Steps
use capability_runner.Prelude.{
  ℕ, zero, suc, String, ◌≡◌, ◌≢◌, ◌⊎◌, ◌<>◌, refl, Bool, true, false, Option, none, some, List, [],
  ◌∷◌, ◌++◌, Dict, lookup, Result, ok, err, arith, All, if◌then◌else◌,
}
use capability_runner.Contracts.Surfaces.{
  SemanticTargetRef, literal_value, input_value, BrowserTargetBinding, SurfaceSessionRef,
  TargetInspectionResult, InspectionOutcome,
}
use capability_runner.Contracts.Evidence.{EvidenceEvent, RedactionContext, Fields}
use capability_runner.Contracts.Actions.{TargetSpec, ActionSpec}
use capability_runner.Contracts.Capabilities.{
  CapabilityActionTemplate, fill_template, click_template, EvaluationSnapshot, TargetObservation,
  ActionStep, CapabilityDefinition, RetryPolicy,
}
use capability_runner.Contracts.Gateway.{
  GatewayExecutionContext, GatewayResult, GatewayOutcome, executed, denied, failed,
  approval_required,
}
use capability_runner.Contracts.Replay.{ReplayResult, replay_outcome_folded}
use capability_runner.Ports.{Ports, World, wait, record_event}
use capability_runner.Gateway.{execute}
use capability_runner.Replay.Checks.{materialize, targets_for}
use capability_runner.Replay.Results.{terminal_result, failed_at}
use capability_runner.Replay.Steps.{accepts_action_id}
use capability_runner.Replay.Collection.{
  Task, and_then, bindings_by_target, inspect, inspected, state_of, observation, gather,
  collect_targets, collect, log, SnapshotCollectionError, engine_event,
}
use capability_runner.Replay.Steps.{
  Engine, Observed, returned, left_loop, observe, collected, precondition_failure, verdict_of,
  checkpoint_for, judge, observations, conclude_step, after_gateway, after_outcome, observe_step,
  block_step, act_step, enter_step, run_step, execute_steps, surface_target, request_of, log_step,
  index_fields, log_dispatched, log_blocked, max_observations, log_started,
}

-- Ports that do not raise where the engine would not catch it: the evidence is written, and a target
-- can be inspected, with a text only where it is visible.
pub record IsReliable (P : Ports) : Type 0 where
  pub writes :
      (event : EvidenceEvent) (redaction : Option RedactionContext) (evidence : P.Evidence)
      → (P.write event redaction evidence).0 ≡ true
  pub inspects :
      (session : SurfaceSessionRef) (binding : BrowserTargetBinding) (surface : P.Surface)
      → (r : TargetInspectionResult) × ((P.inspect_target session binding surface).0 ≡ some r)
        × ((r.outcome ≡ InspectionOutcome.visible) ⊎ (r.text ≡ none))

-- The value that a step fills in is at hand.
abbrev pub IsSupplied : Dict String → CapabilityActionTemplate → Type 0
IsSupplied inputs (fill_template t (input_value name)) = lookup name inputs ≢ none
IsSupplied inputs (fill_template t (literal_value value)) = Unit
IsSupplied inputs (click_template t) = Unit

-- A step that can be asked of the gateway: its value is at hand, and the identifier that the run gives to
-- its action is not too long.
abbrev pub IsReady : Dict String → String → ActionStep → Type 0
IsReady inputs run_id step =
    IsSupplied inputs step.action × (accepts_action_id (run_id <> "-" <> step.step_id) ≡ true)

-- A task that returns in every world.
abbrev pub Returns : {A : Type 0} (P : Ports) → Task P A → Type 0
Returns {A} P task = (w : World P) → (a : A) × ((task w).0 ≡ some a)

pub and_then-Returns :
    {A B : Type 0} (P : Ports) (task : Task P A) (next : A → Task P B)
    → Returns P task
    → ((a : A) → Returns P (next a))
    → Returns P (and_then P task next)
and_then-Returns P task next first onward w =
    let (a, e) = first w in let (b, f) = onward a (task w).1 in (b, rw (and_then, e) f)

pub from_some : {A : Type 0} (o : Option A) → o ≢ none → (a : A) × (o ≡ some a)
from_some none h = absurd (h refl)
from_some (some a) h = (a, refl)

module _ (P : Ports) (reliable : IsReliable P) (context : GatewayExecutionContext) where
  pub log-Returns :
      (records : Bool) (reason outcome : String) (metadata : Fields) (step action : Option String)
      → Returns P (log P context records reason outcome metadata step action)
  unfolding log record_event
  log-Returns false reason outcome metadata step action w = (tt, refl)
  log-Returns true reason outcome metadata step action w = (
    tt,
    rw (
        reliable.writes (engine_event P context reason outcome metadata step action) none
          w.evidence),
  )

  inspect-Returns :
      (target : SemanticTargetRef) (binding : BrowserTargetBinding)
      → Returns P (inspect P context target binding)
  unfolding inspect inspected state_of observation
  inspect-Returns target binding w =
      let (r, e, fits) = reliable.inspects context.surface_session binding w.surface in
      rw (e, inspect)
        (shown r fits (
          wait P (record w {
            surface = (P.inspect_target context.surface_session binding w.surface).1;
          })))
    where
      shown :
          (r : TargetInspectionResult)
          → ((r.outcome ≡ InspectionOutcome.visible) ⊎ (r.text ≡ none))
          → (after : World P)
          → (x : Result SnapshotCollectionError TargetObservation) × ((inspected P context target r
                after).0
              ≡ some x)
      shown r fits after = from_some (inspected P context target r after).0 (ground arith)

  pub collect_targets-Returns :
      (bindings : Dict BrowserTargetBinding) (targets : List SemanticTargetRef)
      (before : List TargetObservation)
      → Returns P (collect_targets P context bindings targets before)
  unfolding collect_targets gather
  collect_targets-Returns bindings [] before w = (_, refl)
  collect_targets-Returns bindings (target ∷ targets) before w =
      go (lookup target.value bindings) refl (λ all. collect_targets-Returns bindings targets all)
    where
      go :
          (b : Option BrowserTargetBinding)
          → lookup target.value bindings ≡ b
          → ((all : List TargetObservation)
              → Returns P (collect_targets P context bindings targets all))
          → (x : Result SnapshotCollectionError EvaluationSnapshot) × ((collect_targets P context
                bindings
                (target ∷ targets)
                before
                w).0
              ≡ some x)
      go none e rest = rw (collect_targets, e) (_, refl)
      go (some binding) e rest =
          rw (collect_targets, e)
            (and_then-Returns P (inspect P context target binding)
              (gather P context before (λ all. collect_targets P context bindings targets all))
              (inspect-Returns target binding) gathered w)
        where
          gathered :
              (r : Result SnapshotCollectionError TargetObservation)
              → Returns P (
                  gather P context before (λ all. collect_targets P context bindings targets all) r)
          gathered (err x) v = (_, refl)
          gathered (ok o) v = rest (before ++ o ∷ []) v
