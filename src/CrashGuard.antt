-- ===== src/CrashGuard.antt =====
-- The crash guard (packages/node/src/kernel/crash-guard.ts): it counts the startups that did not
-- follow a clean exit, and restores the backup of the build once there are too many.
pub mod Startup
pub mod Rollback
mod Tests
