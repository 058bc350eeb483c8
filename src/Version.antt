-- ===== src/Version.antt =====
-- Version coordination of nodes (packages/node/src/core/version-protocol.ts).
pub mod Protocol
pub mod Agreement
mod Tests
