-- ===== src/Payment.antt =====
-- The payment gate (packages/node/src/core/payment-gate.ts): escrow of Lux while a task runs.
pub mod Gate
pub mod Costs
pub mod Expiry
pub mod Escrow
pub mod Runs
pub mod Closing
mod Tests
