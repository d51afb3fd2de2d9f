-- ===== src/Contracts.antt =====
-- The data that the components exchange (src/capability_runner/contracts).
pub mod Sessions
pub mod Actions
pub mod Surfaces
pub mod Policy
pub mod Evidence
pub mod Browser
pub mod Gateway
pub mod Intervention
pub mod Capabilities
pub mod Replay
pub mod Continuation
pub mod Discovery
