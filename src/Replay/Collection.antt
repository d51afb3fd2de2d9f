-- ===== src/Replay/Collection.antt =====
-- replay/snapshot_collector.py: `SnapshotCollector.collect`. The tasks of a replay, and `_record_event`
-- of replay/replay_engine.py.
use capability_runner.Prelude.{
  String, Bool, true, false, Option, none, some, List, [], ◌∷◌, ◌++◌, Dict, lookup, insert,
  if◌then◌else◌, Result, ok, err,
}
use capability_runner.Contracts.Surfaces.{
  SemanticTargetRef, BrowserTargetBinding, InspectionOutcome, TargetInspectionResult,
}
use capability_runner.Contracts.Capabilities.{
  ObservationState, TargetObservation, EvaluationSnapshot,
}
use capability_runner.Contracts.Evidence.{EvidenceEvent, Fields, lifecycle}
use capability_runner.Contracts.Gateway.{GatewayExecutionContext}
use capability_runner.Ports.{Ports, World, wait, record_event}

-- `SnapshotCollectionError`
pub record SnapshotCollectionError : Type 0 where
  pub code : String
  pub summary : String

-- A task that may raise: `none` is an exception that the engine does not catch.
abbrev pub Task : Ports → Type 0 → Type 0
Task P A = World P → Option A × World P

abbrev pub and_then : {A B : Type 0} (P : Ports) → Task P A → (A → Task P B) → Task P B
and_then P task next w = let (a, w') = task w in elim a [ none ↦ (none, w') | some x ↦ next x w' ]

-- `{item.semantic_target.value: item for item in profile.target_bindings}`
unfoldable pub bindings_by_target :
    List BrowserTargetBinding → Dict BrowserTargetBinding → Dict BrowserTargetBinding
unfolding insert
bindings_by_target [] d = d
bindings_by_target (item ∷ rest) d =
    bindings_by_target rest (insert item.semantic_target.value item d)

unfoldable pub state_of : InspectionOutcome → Option ObservationState
state_of InspectionOutcome.visible = some ObservationState.visible
state_of InspectionOutcome.not_visible = some ObservationState.not_visible
state_of InspectionOutcome.unavailable = some ObservationState.unavailable
state_of InspectionOutcome.ambiguous = none

-- `TargetObservation(...)`: its validator raises, uncaught, for a text of a target that is not visible.
unfoldable pub observation :
    SemanticTargetRef
    → ObservationState
    → Option String
    → Option (Result SnapshotCollectionError TargetObservation)
observation target ObservationState.visible shown =
    some (ok (record { target = target; state = ObservationState.visible; text = shown }))
observation target state none = some (ok (record { target = target; state = state; text = none }))
observation target state (some shown) = none

module _ (P : Ports) (context : GatewayExecutionContext) where
  -- What the surface's answer leads to.
  unfoldable pub inspected :
      SemanticTargetRef
      → TargetInspectionResult
      → Task P (Result SnapshotCollectionError TargetObservation)
  unfolding state_of observation
  inspected target r after = elim (state_of r.outcome) [
    | none ↦ (
      some
          (err (record { code = "TARGET_AMBIGUOUS"; summary = "Target inspection is ambiguous." })),
      after,
    )
    | some state ↦ (observation target state r.text, after)
  ]

  -- The observation of one target, which the surface takes while other tasks run.
  unfoldable pub inspect :
      SemanticTargetRef
      → BrowserTargetBinding
      → Task P (Result SnapshotCollectionError TargetObservation)
  unfolding inspected
  inspect target binding w =
      let (found, surface) = P.inspect_target context.surface_session binding w.surface in
      let after = wait P (record w { surface = surface }) in
      elim found [ none ↦ (none, after) | some r ↦ inspected target r after ]

  -- What an observation adds to a collection.
  unfoldable pub gather :
      List TargetObservation
      → (List TargetObservation → Task P (Result SnapshotCollectionError EvaluationSnapshot))
      → Result SnapshotCollectionError TargetObservation
      → Task P (Result SnapshotCollectionError EvaluationSnapshot)
  gather observations next (err e) w = (some (err e), w)
  gather observations next (ok o) w = next (observations ++ o ∷ []) w

  unfoldable pub collect_targets :
      Dict BrowserTargetBinding
      → List SemanticTargetRef
      → List TargetObservation
      → Task P (Result SnapshotCollectionError EvaluationSnapshot)
  unfolding gather
  collect_targets bindings [] observations w =
      (some (ok (record { observed_targets = observations })), w)
  collect_targets bindings (target ∷ targets) observations w = elim (lookup target.value bindings) [
    | none ↦ (
      some (
          err (record {
            code = "TARGET_BINDING_MISSING";
            summary = "Trusted target binding is missing.";
          })),
      w,
    )
    | some binding ↦
        and_then P (inspect target binding)
          (gather observations (λ all. collect_targets bindings targets all)) w
  ]

  -- `collect`
  unfoldable pub collect :
      List SemanticTargetRef → Task P (Result SnapshotCollectionError EvaluationSnapshot)
  unfolding bindings_by_target collect_targets
  collect targets =
      collect_targets (bindings_by_target context.profile.target_bindings []) targets []

  unfoldable pub engine_event :
      String → String → Fields → Option String → Option String → EvidenceEvent
  engine_event reason_code outcome metadata step_id action_id = record {
    event_type = lifecycle;
    component = "replay-engine";
    run_id = context.run_id;
    session_id = some context.control_session_id;
    step_id = step_id;
    action_id = action_id;
    outcome = some outcome;
    reason_code = some reason_code;
    summary = none;
    metadata = metadata;
  }

  -- `_record_event`; an exception of the recorder is not caught.
  unfoldable pub log :
      Bool → String → String → Fields → Option String → Option String → Task P (Unit {0})
  unfolding record_event engine_event
  log records reason_code outcome metadata step_id action_id w = elim records [
    | false ↦ (some tt, w)
    | true ↦
        let (written, w') =
          record_event P (engine_event reason_code outcome metadata step_id action_id) none w in
        (if written then some tt else none, w')
  ]
