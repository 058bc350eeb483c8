-- ===== src/Capabilities.antt =====
-- The map of capabilities of the network's nodes (packages/node/src/platform/capability-
-- registry.ts).
pub mod Registry
pub mod Lookup
mod Tests
