-- ===== src/Governance/Restart.antt =====
-- A restart of packages/node/src/kernel/governance.ts: `loadFromDatabase` after any run.
use pando.Common.{none, []}
use pando.Governance.Types.{Database, GovernanceSync}

-- the fields of a new `GovernanceSync`, with the tables of an earlier one
abbrev pub restarted : Database → GovernanceSync
restarted db = record {
  proposals = [];
  comments = [];
  votes = [];
  decisions = [];
  processed_ids = [];
  rewarded_votes = [];
  rewards = [];
  payment_gate = none;
  database = db;
}
