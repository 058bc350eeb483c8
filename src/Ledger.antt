-- ===== src/Ledger.antt =====
-- The ledger (packages/ledger/src): a store of accounts, transactions, emissions and contributions.
pub mod Types
pub mod Accounts
pub mod Claims
pub mod Transactions
pub mod Contributions
pub mod Balances
pub mod Debits
pub mod Transfers
pub mod Movements
pub mod Emissions
pub mod Soundness
pub mod Remote
pub mod Arrivals
pub mod Backing
pub mod Preservation
pub mod Usage
pub mod Reach
pub mod Names
mod Tests
