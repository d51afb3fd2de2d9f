-- ===== src/Coordination.antt =====
-- application/run_coordinator.py: `ReplayContinuationResumeValidator` and
-- `ReplayContinuationCoordinator`, which suspend a replay that waits for an approval and go on with
-- it once, after the intervention manager has validated that it may.
--
-- The other tasks share the registry and the manager. What they do while one task waits for the lock
-- of a continuation, for its validation or for its replay is a parameter, applied after the wait.
pub mod Registry
pub mod Ledger
pub mod Refinement
pub mod Once
pub mod Results
pub mod Suspension
pub mod Reach
pub mod Resumption
use capability_runner.Prelude.{
  ℕ, String, Bool, true, false, Option, none, some, Dict, Result, ok, err, get_elem?, if◌then◌else◌,
}
use capability_runner.Contracts.Sessions.{SessionState}
use capability_runner.Contracts.Capabilities.{
  ActionStep, CapabilityDefinition, template_kind, template_target,
}
use capability_runner.Contracts.Evidence.{
  EvidenceEvent, EvidenceEventType, field, end, text, number, items,
}
use capability_runner.Contracts.Gateway.{GatewayExecutionContext}
use capability_runner.Contracts.Intervention.{
  InterventionRequest, InterventionRecord, InterventionOutcome, InterventionResult,
  intervention_requested, resumed, session_stopped,
}
use capability_runner.Contracts.Replay.{ReplayCheckpoint, ReplayResult}
use capability_runner.Contracts.Continuation.{
  intervention_required, invalid_continuation, failure, ReplayContinuationResult,
}
use capability_runner.Ports.{Ports, World, record_event}
use capability_runner.Intervention.{
  Manager, ManagerError, Answer, Validator, request_intervention, complete_resume_validation,
}
use capability_runner.Replay.Checks.{sorted_names}
use capability_runner.Replay.Steps.{Engine}
use capability_runner.Replay.Engine.{text_items, validate_resume}
use capability_runner.Replay.Engine as ReplayEngine
use Registry.{
  Continuation, PendingReplayContinuation, ReplayContinuationRegistry, revealed_inputs, get,
  register, discard, is_same, consume,
}
use Results.{
  result, unavailable, transition_failure, safe_checkpoint, matches_record, invalid_record,
  some_validation, reason_or_outcome, continuation_outcome,
}

-- `evidence_recorder is not None`, and the engine that replays
pub record Coordinator : Type 0 where
  pub records : Bool
  pub replay_engine : Engine

-- What the coordinator shares with the other tasks.
pub record Hub (P : Ports) : Type 0 where
  pub manager : Manager P
  pub registry : ReplayContinuationRegistry

pub data Moment : Type 0 where
  locking validating replaying : Moment

-- The other tasks, while one task waits.
abbrev pub Peers : Ports → Type 0
Peers P = Moment → Hub P → Hub P

abbrev pub context_event :
    String
    → CapabilityDefinition
    → ReplayCheckpoint
    → Dict String
    → GatewayExecutionContext
    → ℕ
    → ActionStep
    → EvidenceEvent
context_event id capability checkpoint inputs context generation step = record {
  event_type = EvidenceEventType.intervention;
  component = "replay-continuation-coordinator";
  run_id = context.run_id;
  session_id = some context.control_session_id;
  step_id = some checkpoint.blocked_step_id;
  action_id = none;
  outcome = some "context_recorded";
  reason_code = some "INTERVENTION_CONTEXT_RECORDED";
  summary = some "Sanitized replay intervention context recorded.";
  metadata = field "action_effect_state" (text "NOT_EXECUTED") (
      field "action_kind" (text (template_kind step.action)) (
        field "blocked_step_index" (number checkpoint.blocked_step_index) (
          field "capability_id" (text capability.capability_id) (
            field "capability_name" (text capability.name) (
              field "capability_version" (text capability.capability_version) (
                field "control_generation" (number generation) (
                  field "current_state" (text "blocked_before_dispatch") (
                    field "input_names" (items (text_items (sorted_names inputs))) (
                      field "intervention_id" (text id) (
                        field "semantic_target" (text (template_target step.action).value) (
                          field "surface_session_id"
                            (text context.surface_session.surface_session_id) end)))))))))));
}

module _ (P : Ports) (coordinator : Coordinator) where
  abbrev pub Continued : Type 0
  Continued = Option ReplayContinuationResult × Hub P

  -- `_record_intervention_context`: whether it returned.
  unfoldable pub record_intervention_context :
      String
      → CapabilityDefinition
      → ReplayCheckpoint
      → Dict String
      → GatewayExecutionContext
      → ℕ
      → World P
      → Bool × World P
  unfolding record_event
  record_intervention_context id capability checkpoint inputs context generation w =
      if coordinator.records
      then elim (get_elem? capability.steps checkpoint.blocked_step_index) [
        | none ↦ (false, w)
        | some step ↦
            record_event P (context_event id capability checkpoint inputs context generation step)
              none w
      ]
      else (true, w)

  abbrev pub in_world : World P → Manager P → Manager P
  in_world w m = record m { world = w }

  -- The rest of `suspend_for_intervention` once the intervention has a record.
  unfoldable pub intervened :
      String
      → ReplayResult
      → CapabilityDefinition
      → Dict String
      → GatewayExecutionContext
      → ReplayCheckpoint
      → InterventionRecord
      → Hub P
      → Continued
  unfolding record_intervention_context
  intervened id r capability inputs context checkpoint subject hub =
      let (done, w) =
        record_intervention_context id capability checkpoint inputs context
          subject.requested_generation hub.manager.world in
      let hub' = record hub { manager = in_world w hub.manager } in
      if done
      then (
        some
            (record (result intervention_required "APPROVAL_REQUIRED"
              "Human approval/action is required before automation can continue.") {
                intervention = some subject;
                replay_result = some r;
                generation_before = some checkpoint.suspended_generation;
              }),
        hub',
      )
      else (none, hub')

  unfoldable pub not_intervened : String → ReplayResult → InterventionResult → Hub P → Continued
  unfolding discard
  not_intervened id r i hub = (
    some (record (result failure i.reason_code i.summary) { replay_result = some r }),
    record hub { registry = discard id hub.registry },
  )

  -- What the answer of the intervention manager leads to.
  unfoldable pub requested :
      String
      → ReplayResult
      → CapabilityDefinition
      → Dict String
      → GatewayExecutionContext
      → ReplayCheckpoint
      → Answer P
      → ReplayContinuationRegistry
      → Continued
  unfolding intervened not_intervened
  requested id r capability inputs context checkpoint (err e, m) registry =
      (none, record { manager = m; registry = registry })
  requested id r capability inputs context checkpoint (ok i, m) registry =
      let hub : Hub P = record { manager = m; registry = registry } in
      elim i.outcome [
        | intervention_requested ↦ elim i.record_of [
          | none ↦ not_intervened id r i hub
          | some subject ↦ intervened id r capability inputs context checkpoint subject hub
        ]
        | other ↦ not_intervened id r i hub
      ]

  abbrev pub approval_request : String → GatewayExecutionContext → InterventionRequest
  approval_request id context = record {
    intervention_id = id;
    run_id = context.run_id;
    control_session_id = context.control_session_id;
    surface_session = context.surface_session;
    reason_code = "APPROVAL_REQUIRED";
    summary = "Human approval/action is required before automation can continue.";
  }

  unfoldable pub registered :
      String
      → ReplayResult
      → CapabilityDefinition
      → Dict String
      → GatewayExecutionContext
      → ReplayCheckpoint
      → Option PendingReplayContinuation × ReplayContinuationRegistry
      → Hub P
      → Continued
  unfolding requested
  registered id r capability inputs context checkpoint (none, registry) hub = (
    some
        (record (result invalid_continuation "CONTINUATION_ALREADY_EXISTS"
          "Replay continuation identifier already exists.") { replay_result = some r }),
    hub,
  )
  registered id r capability inputs context checkpoint (some p, registry) hub =
      requested id r capability inputs context checkpoint
        (request_intervention P (approval_request id context) hub.manager) registry

  unfoldable pub suspend_for_intervention :
      String
      → ReplayResult
      → CapabilityDefinition
      → Dict String
      → GatewayExecutionContext
      → Hub P
      → Continued
  unfolding registered
  suspend_for_intervention id r capability inputs context hub =
      elim (safe_checkpoint r capability context) [
        | none ↦ (
          some
              (record (result invalid_continuation "UNSAFE_REPLAY_SUSPENSION"
                "Replay result is not safely resumable.") { replay_result = some r }),
          hub,
        )
        | some checkpoint ↦
            registered id r capability inputs context checkpoint
              (register id
                (record {
                  capability = capability;
                  checkpoint = checkpoint;
                  runtime_inputs = inputs;
                  context = context;
                })
                hub.registry)
              hub
      ]

  -- `ReplayContinuationResumeValidator.validate`, over the registry as it is when it is asked
  unfoldable pub validate : ReplayContinuationRegistry → Validator P
  validate registry subject w = elim (get subject.intervention_id registry) [
    | none ↦ (some invalid_record, w)
    | some p ↦
        if matches_record p subject
        then (let (v, w') =
              validate_resume P coordinator.replay_engine p.continuation.capability
                (revealed_inputs p) p.continuation.context p.continuation.checkpoint w in
            (some_validation v, w'))
        else (some invalid_record, w)
  ]

  abbrev pub final_result :
      ReplayCheckpoint → GatewayExecutionContext → ReplayResult → ReplayContinuationResult
  final_result checkpoint context r =
      record (result (continuation_outcome r.outcome) (reason_or_outcome r.reason_code r.outcome)
        r.summary) {
          replay_result = some r;
          generation_before = some checkpoint.suspended_generation;
          generation_after = some context.expected_generation;
        }

  -- What the replay's result leads to: a new suspension where it has a checkpoint again.
  unfoldable pub after_replay :
      String
      → PendingReplayContinuation
      → GatewayExecutionContext
      → Option ReplayResult
      → Hub P
      → Continued
  unfolding suspend_for_intervention
  after_replay fresh_id p context none hub = (none, hub)
  after_replay fresh_id p context (some r) hub = elim r.checkpoint [
    | none ↦ (some (final_result p.continuation.checkpoint context r), hub)
    | some checkpoint ↦
        suspend_for_intervention fresh_id r p.continuation.capability (revealed_inputs p) context
          hub
  ]

  abbrev pub resumed_context : PendingReplayContinuation → SessionState → GatewayExecutionContext
  resumed_context p state = record (p.continuation.context) {
    expected_generation = state.control_generation;
  }

  module _ (peers : Peers P) (fresh_id id : String) where
    -- The replay of a consumed continuation.
    unfoldable pub replay_on : PendingReplayContinuation → SessionState → Hub P → Continued
    unfolding after_replay
    replay_on p state hub =
        let (r, w) =
          ReplayEngine.resume P coordinator.replay_engine p.continuation.capability
            (revealed_inputs p) (resumed_context p state) p.continuation.checkpoint
            hub.manager.world in
        after_replay fresh_id p (resumed_context p state) r
          (peers replaying (record hub { manager = in_world w hub.manager }))

    unfoldable pub continue :
        PendingReplayContinuation
        → SessionState
        → Bool × ReplayContinuationRegistry
        → Hub P
        → Continued
    unfolding replay_on
    continue p state (false, registry) hub = (some (unavailable id registry), hub)
    continue p state (true, registry) hub = replay_on p state (record hub { registry = registry })

    unfoldable pub not_resumed : PendingReplayContinuation → InterventionResult → Hub P → Continued
    not_resumed p t hub =
        let answer = transition_failure t p.continuation.checkpoint in
        elim t.outcome [
          | session_stopped ↦ (some answer, record hub { registry = (consume id p hub.registry).1 })
          | other ↦ (some answer, hub)
        ]

    -- What the transition of the session leads to.
    unfoldable pub transitioned :
        PendingReplayContinuation → Result ManagerError InterventionResult → Hub P → Continued
    unfolding continue not_resumed
    transitioned p (err e) hub = (none, hub)
    transitioned p (ok t) hub = elim t.outcome [
      | resumed ↦ elim t.session_state [
        | none ↦ not_resumed p t hub
        | some state ↦ continue p state (consume id p hub.registry) hub
      ]
      | other ↦ not_resumed p t hub
    ]

    -- Under the continuation's lock
    unfoldable pub resume_locked : PendingReplayContinuation → Hub P → Continued
    unfolding transitioned validate
    resume_locked p hub =
        if is_same (get id hub.registry) p
        then (let (t, m) = complete_resume_validation P (validate hub.registry) id hub.manager in
            transitioned p t (peers validating (record hub { manager = m })))
        else (some (unavailable id hub.registry), hub)

    unfoldable pub resume : Hub P → Continued
    unfolding resume_locked
    resume hub = elim (get id hub.registry) [
      | none ↦ (some (unavailable id hub.registry), hub)
      | some p ↦ resume_locked p (peers locking hub)
    ]
