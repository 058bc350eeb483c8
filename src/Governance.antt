-- ===== src/Governance.antt =====
-- Governance (packages/node/src/kernel/governance.ts): proposals, votes, decisions and stakes.
pub mod Types
pub mod Processed
pub mod Store
pub mod Stakes
pub mod Quorum
pub mod Comments
pub mod Proposals
pub mod Creation
pub mod Votes
pub mod Archive
pub mod Queries
pub mod Sync
pub mod Load
pub mod Writes
pub mod Decisions
pub mod Steps
pub mod Casting
pub mod Known
pub mod Drafting
pub mod Syncing
pub mod Calls
pub mod Authenticity
pub mod Finality
pub mod Lux
pub mod VoteRows
pub mod Mirror
pub mod Mirroring
pub mod Restore
pub mod Restart
pub mod Liveness
pub mod Cap
pub mod Restatus
pub mod Archiving
mod Tests
