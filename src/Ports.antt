-- ===== src/Ports.antt =====
-- What the gateways, the manager and the replay engine use and do not implement: the evidence
-- writer, the surface adapter and the other tasks of the event loop (the protocols `EvidenceWriter`,
-- `SurfaceAdapter` and `BrowserObservationPort`). Each keeps a state of its own, of which nothing is
-- known. `false` and `none` stand for an exception.
use capability_runner.Prelude.{String, ◌≡◌, Bool, true, Option, Result}
use capability_runner.Contracts.Sessions.{SessionControllerError}
use capability_runner.Contracts.Actions.{ActionSpec}
use capability_runner.Contracts.Surfaces.{
  BrowserTargetBinding, SurfaceSessionRef, SurfaceActionResult, TargetInspectionResult,
}
use capability_runner.Contracts.Evidence.{EvidenceEvent, RedactionContext}
use capability_runner.Contracts.Browser.{InteractiveElement}
use capability_runner.Session.{Controller, is_free}

-- How a surface call fails: with a `SessionControllerError`, which the gateways report under its own
-- code, or with any other exception and its text.
pub data SurfaceError : Type 0 where
  controller_error : SessionControllerError → SurfaceError
  other_error : String → SurfaceError

pub record Ports : Type 1 where
  pub Evidence : Type 0
  pub write : EvidenceEvent → Option RedactionContext → Evidence → Bool × Evidence
  pub Surface : Type 0
  pub perform_action :
      SurfaceSessionRef
      → ActionSpec
      → BrowserTargetBinding
      → Surface
      → Result SurfaceError SurfaceActionResult × Surface
  pub inspect_target :
      SurfaceSessionRef → BrowserTargetBinding → Surface → Option TargetInspectionResult × Surface
  pub inspect_bound_element :
      SurfaceSessionRef → BrowserTargetBinding → Surface → Option InteractiveElement × Surface
  pub resolve_observed :
      SurfaceSessionRef
      → String
      → String
      → Surface
      → Result SurfaceError InteractiveElement × Surface
  pub Others : Type 0
  -- What the other tasks do to the sessions while one task waits.
  pub run_others : Others → Controller → Controller × Others
  -- What they do while it waits for the dispatch lock of a session. `asyncio.Lock` is given to a task
  -- at a moment when nobody holds it; a task that waits for ever has no result.
  pub run_until_free : String → Others → Controller → Controller × Others
  pub until_free :
      (session_id : String) (others : Others) (c : Controller)
      → is_free session_id (run_until_free session_id others c).0 ≡ true

-- One task's view of the process.
pub record World (P : Ports) : Type 0 where
  pub controller : Controller
  pub evidence : P.Evidence
  pub surface : P.Surface
  pub others : P.Others

module _ (P : Ports) where
  -- The task waits, and the others run.
  unfoldable pub wait : World P → World P
  wait w =
      let (controller, others) = P.run_others w.others w.controller in
      record w { controller = controller; others = others }

  -- The task waits until it can have the dispatch lock of a session.
  unfoldable pub wait_free : String → World P → World P
  wait_free session_id w =
      let (controller, others) = P.run_until_free session_id w.others w.controller in
      record w { controller = controller; others = others }

  pub wait_free-is_free :
      (session_id : String) (w : World P)
      → is_free session_id (wait_free session_id w).controller ≡ true
  unfolding wait_free
  wait_free-is_free session_id w = P.until_free session_id w.others w.controller

  -- `evidence_recorder.record(event, redaction_context=context)`: whether it returned.
  unfoldable pub record_event : EvidenceEvent → Option RedactionContext → World P → Bool × World P
  record_event event context w =
      let (done, evidence) = P.write event context w.evidence in
      (done, record w { evidence = evidence })
