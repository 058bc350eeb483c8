-- ===== src/Tasks.antt =====
-- The task queue (packages/node/src/platform/task-queue.ts, task-database.ts).
pub mod Types
pub mod Queue
pub mod Completion
pub mod Transitions
pub mod Cascade
pub mod Runs
pub mod Claims
pub mod Cleanup
pub mod Removal
mod Tests
