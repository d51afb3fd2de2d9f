-- ===== src/Examples.antt =====
-- Tests of the models at concrete inputs, and the theorems applied there.
mod Fixtures
mod Sessions
mod Policies
mod Gateways
mod Evaluations
mod Replays
mod Interventions
mod Redactions
mod Stores
mod Coordinations
mod Discoveries
