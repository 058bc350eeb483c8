-- ===== src/RequestReply.antt =====
-- Broadcast queries and their replies (packages/node/src/core/request-reply.ts).
pub mod Manager
pub mod Events
pub mod Settling
pub mod Refinement
pub mod Resolution
mod Tests
