-- ===== src/Lib.antt =====
-- A verification library for capability-runner, which runs recorded browser capabilities under a
-- policy, lets a human operator take over a live session, and resumes the run afterwards. Paths below
-- are from the repository's root; the program is src/capability_runner.
--
-- The parts and how they interact:
--   Session (interaction/session_controller.py) keeps who controls each live session and at what
--     generation. `SessionController`'s methods are the functions of the same names; `automation_dispatch`
--     and `operator_dispatch` are `begin_automation_dispatch` or `begin_operator_dispatch` and then
--     `end_dispatch`, since other tasks run inside the `async with` block. Session.Steps is the relation of
--     all calls on one session, Session.Traces a whole controller under a list of calls.
--   Policy (interaction/policy_guard.py, contracts/policy.py) decides actions: `PolicyGuard.evaluate` is
--     `evaluate`, `_validate_unique_rules` is `valid_definition`.
--   Scope (surfaces/browser_observation.py, and `observed_action_allowed` of the guard) is the operator's
--     read-only scope.
--   Gateway (interaction/action_gateway.py) is the way to the surface for automation, and OperatorGateway
--     (intervention/operator_action_gateway.py) for an operator. They ask the policy, write evidence, and
--     act while they hold the session's dispatch lock.
--   Intervention (intervention/intervention_manager.py) moves a session between its run and an operator.
--   Evaluator (replay/state_evaluator.py) decides conditions and terminal states on a snapshot and reads
--     the outputs.
--   Replay (replay/replay_engine.py, replay/snapshot_collector.py) runs the steps of a capability through
--     the gateway and observes them: `ReplayEngine.replay`, `resume` and `validate_resume`.
--   Coordination (application/run_coordinator.py) suspends a replay that waits for an approval and goes on
--     with it once: Coordination.Registry is `ReplayContinuationRegistry`, the module itself
--     `ReplayContinuationResumeValidator` and `ReplayContinuationCoordinator`. It calls the manager of
--     Intervention and the engine of Replay.
--   Discovery (discovery/discovery_engine.py, observation_presenter.py, snapshot_collector.py) lets a model
--     propose actions on a live surface and checks each: `DiscoveryEngine.discover` is `discover`,
--     Discovery.Turns its loop, Discovery.Presenter and Discovery.Texts what the model is shown, and
--     Discovery.Decisions the checks of a proposal. Its actions go through Gateway.
--   CapabilityValidator (capabilities/capability_validator.py) checks a definition before it is stored or
--     replayed, and CapabilityStore (capabilities/capability_store.py) keeps definitions and packages in
--     files, a dict from paths to texts.
--   Redaction (evidence/redaction.py, evidence/evidence_recorder.py) takes secrets out of an evidence event
--     and appends it to the file of its run. The gateways and engines write evidence through a port of
--     Ports, which any such recorder can be.
--   Contracts (contracts/*.py) has their data, Prelude the shared names and lemmas, Ports the collaborators
--     that are not modelled, and Examples the tests.
--
-- State is passed explicitly. `World` of Ports is what one task sees: the controller, the evidence, the
-- surface, and the other tasks. Wherever a task waits, `wait` lets the others change the sessions in any
-- way. Where it waits for a dispatch lock, `wait_free` lets them, and the task goes on at a moment when
-- nobody holds the lock; a task that waits for ever has no result. Evidence writers, surfaces and other
-- tasks are arbitrary functions of `Ports`, of which nothing else is assumed. URL parsing, `unquote`,
-- `normpath`, `casefold`, `re.fullmatch`, and the class `\w` and equal letters under `IGNORECASE` of
-- `re` are parameters as well, and so are the model client with its timeout, JSON, pydantic's
-- models as codecs, the hash, `str.replace`, and what other processes do to the files while one saves.
-- What other tasks do while the coordinator waits for a run's lock, a validation or a replay is its
-- parameter `Peers`. An exception is an `err`, or `none` where its kind does not matter.
--
-- Every loop is a recursion on the list, the turns or the attempts that it runs over. `decode` has the
-- source's own bound of three rounds, and discovery the source's twelve turns. Only `digits`, the decimal
-- writing of a number, has fuel: the number and one, which is more than its digits. Numbers are natural:
-- a wait's seconds are counted in microseconds, and the amounts of money are minor units.
--
-- Not modelled: pydantic's length and pattern checks of the contracts, other than the length of an
-- action's identifier in a replay, that a target which is not visible has no text, and the patterns of a
-- capability's identifier and version (of `\d` the ASCII digits); event identifiers and times, and the
-- redaction of such values; the capability builder and discovery without a profile
-- (discovery/browser_discovery.py), which are parts of their own; the store's `list_versions`, which
-- reads a directory; the Playwright adapter, the model providers and the HTTP interfaces, which are input
-- and output.
pub mod Prelude
pub mod Contracts
pub mod Session
pub mod Policy
pub mod Scope
pub mod Ports
pub mod Gateway
pub mod OperatorGateway
pub mod Intervention
pub mod Evaluator
pub mod Replay
pub mod Coordination
pub mod Discovery
pub mod CapabilityValidator
pub mod CapabilityStore
pub mod Redaction
pub mod Examples
