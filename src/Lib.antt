-- ===== src/Lib.antt =====
-- Pando: the core of a node, modelled and verified.
--
-- A Pando node keeps a ledger of Lux, mints Lux for work that other nodes have witnessed, holds Lux
-- in escrow while a task runs, works through a queue of tasks, and decides on proposals by vote. The
-- library models:
--
-- * Ledger (packages/ledger/src/accounts.ts, transactions.ts, contributions.ts, database.ts): one record
--   `Ledger` holds the tables. Ledger/Accounts and Ledger/Claims are `AccountStore`, Ledger/Transactions is
--   `TransactionStore`, Ledger/Contributions is `ContributionStore`. A method that throws gives an
--   error, and its caller keeps the ledger it had, as the database's transaction does;
--   `apply_remote_claim`, which runs outside of one, gives the ledger beside its answer.
--   Ledger/Arrivals and Ledger/Remote are about received transactions.
-- * Payment (packages/node/src/core/payment-gate.ts): Payment/Gate is `PaymentGate` over the ledger, Payment/Costs
--   its estimates. The other files are about the escrow.
-- * Emission (packages/node/src/kernel/emission-witness.ts): Emission/State, Proofs, Rates, Finalize and Handlers
--   are `EmissionWitness`. A method that awaits is two functions, before and after (`propose_begin`
--   and `propose_finish`, `attest_begin` and `attest_finish`), and the runs interleave them freely.
--   What the emission callback answers and the signature check are parameters.
-- * Tasks (packages/node/src/platform/task-queue.ts, task-database.ts): the rows of the task database, the
--   operations that change a status, and the completion of a task with its cascade. Tasks/Runs has the runs.
-- * Governance (packages/node/src/kernel/governance.ts): the record `GovernanceSync` holds the Maps, the sets, the
--   payment gate and the four SQLite tables. Governance/Quorum, Proposals, Comments, Creation, Votes, Archive,
--   Queries, Sync and Load are the methods of the class, and Governance/Stakes what they ask of the
--   payment gate. `Env` is what a call reads from outside: the clock, the count of peers, the
--   signature checks, the reputation weights, the ids of rewards. Governance/Writes splits the methods into single writes and
--   Governance/Calls has the runs; a proof about all runs is a case for each write. What stands
--   between two waits of a method is a step of its own in the runs (`begin_vote` and `finish_vote`,
--   `begin_creation`, `store_new` and `auto_approve`, `finish_proposal`), beside the whole methods.
--   The ratio 0.8 is compared exactly, and weights are whole hundredths.
-- * RequestReply (packages/node/src/core/request-reply.ts): RequestReply/Manager is `RequestReplyManager`, with the
--   promises that `query` resolves and the timers that are set as fields. RequestReply/Events has what can
--   happen to it, and one query by itself.
-- * Capabilities (packages/node/src/platform/capability-registry.ts): Capabilities/Registry is `CapabilityRegistry`.
-- * CrashGuard (packages/node/src/kernel/crash-guard.ts): the count of startups and the rollback.
-- * Version (packages/node/src/core/version-protocol.ts): comparison and compatibility of versions.
--
-- The payment gate uses the ledger's accounts; the emission witness mints through a callback into
-- the ledger's `reward_work`; governance holds its stakes in the payment gate and mints its rewards
-- into the gate's ledger. Common holds tests,
-- lists, integers, keyed tables and results.
--
-- Lux amounts are integers in units of 10^-8 Lux, the grid to which the code rounds balances. The code
-- rounds neither the amounts that its methods are given nor the sums that it compares, and computes
-- in floating point: what is shown of the ledger and the escrow is for amounts on the grid, with fees
-- and sums taken exactly, where the code can be one unit off.
-- Peer ids, hashes, keys and texts that are only compared are numbers, work proofs are lists of
-- character codes, and times are milliseconds. A handler that runs without waiting reads the clock
-- once. Ids that the code draws at random or hashes are arguments. All loops are over lists, so no
-- fuel is used.
--
-- Not modelled: files, sockets and logs; the columns `updated_at` of network_stats; the total of
-- burned Lux, which no method writes; published events; creation of tasks;
-- snapshots, synchronization of the ledger, checks of upgrade diffs, reputation, the scheduler, the
-- HTTP interfaces and the user interfaces.
pub mod Common
pub mod Ledger
pub mod Payment
pub mod Emission
pub mod Tasks
pub mod Capabilities
pub mod CrashGuard
pub mod Governance
pub mod RequestReply
pub mod Version
