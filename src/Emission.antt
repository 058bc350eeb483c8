-- ===== src/Emission.antt =====
-- Witnessed emissions (packages/node/src/kernel/emission-witness.ts).
pub mod Proofs
pub mod State
pub mod Rates
pub mod Finalize
pub mod Handlers
pub mod Quorum
pub mod Bounds
pub mod Runs
pub mod Replays
pub mod Caps
pub mod HexRuns
mod Tests
