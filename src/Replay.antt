-- ===== src/Replay.antt =====
-- replay/replay_engine.py and replay/snapshot_collector.py: `ReplayEngine`, which runs the steps of a
-- capability through the automation gateway and observes their effects, without a model.
pub mod Checks
pub mod Results
pub mod Collection
pub mod Steps
pub mod Engine
pub mod Outcomes
pub mod Tasks
pub mod Progress
pub mod Guarantees
pub mod Returning
pub mod Totality
