-- ===== src/Ledger/Types.antt =====
-- The rows of the ledger's tables (packages/shared/src/types.ts, packages/ledger/src/database.ts).
-- Lux amounts are integers in units of 10^-8 Lux, the grid of `roundLux`. Texts that the code only
-- compares (peer ids, keys, hashes) are numbers; a user name is the list of its character codes.
use pando.Common.{
  ℕ, ◌*◌, Bool, true, false, ◌&&◌, Option, none, some, List, [], ◌∷◌, leb, ◌==◌, ◌+◌, if◌then◌else◌,
}
use pando.Common.Int.{ℤ, pos}

pub record Account : Type 0 where
  pub peer_id : ℕ
  pub public_key : ℕ
  pub balance : ℤ
  pub created_at : ℕ
  pub updated_at : ℕ
  pub username : Option (List ℕ)
  pub display_name : Option (List ℕ)
  pub password_hash : Option ℕ
  pub is_claimed : Bool
  pub banned : Bool

pub data TransactionType : Type 0 where
  transfer emission : TransactionType

abbrev pub is_emission : TransactionType → Bool
is_emission TransactionType.emission = true
is_emission TransactionType.transfer = false

pub record Transaction : Type 0 where
  pub id : ℕ
  pub from : ℕ
  pub to : ℕ
  pub amount : ℤ
  pub fee : ℤ
  pub relay : Option ℕ
  pub type : TransactionType
  pub timestamp : ℕ
  pub signature : ℕ

pub data WorkType : Type 0 where
  query_answered code_verified content_relayed api_contributed peer_relayed : WorkType
  proposal_accepted vote_cast task_completed uptime_epoch guest_welcome : WorkType
  compute_contributed : WorkType

pub record Emission : Type 0 where
  pub id : ℕ
  pub peer_id : ℕ
  pub amount : ℤ
  pub work_type : WorkType
  pub work_proof : List ℕ
  pub timestamp : ℕ

pub data ApiProvider : Type 0 where
  claude openai google other : ApiProvider

pub record ApiContribution : Type 0 where
  pub id : ℕ
  pub peer_id : ℕ
  pub provider : ApiProvider
  pub monthly_cap : ℤ
  pub used_usd : ℤ
  pub tasks_completed : ℕ
  pub lux_earned : ℤ
  pub registered_at : ℕ
  pub last_used_at : Option ℕ
  pub active : Bool

-- a row `deficit:<peer>` of the table network_stats
pub record Deficit : Type 0 where
  pub peer_id : ℕ
  pub value : ℤ

-- the whole database
pub record Ledger : Type 0 where
  pub accounts : List Account
  pub transactions : List Transaction
  pub emissions : List Emission
  pub contributions : List ApiContribution
  pub next_contribution : ℕ
  pub deficits : List Deficit
  pub total_supply : ℤ
  pub total_relay_fees : ℤ
  pub total_accounts : ℕ

abbrev pub empty_ledger : Ledger
empty_ledger = record {
  accounts = [];
  transactions = [];
  emissions = [];
  contributions = [];
  next_contribution = 1;
  deficits = [];
  total_supply = pos 0;
  total_relay_fees = pos 0;
  total_accounts = 0;
}

-- what the methods throw, in the order in which the files throw it
pub data LedgerError : Type 0 where
  amount_not_positive self_transfer sender_not_found recipient_not_found : LedgerError
  insufficient_balance emission_not_positive hard_cap_reached account_not_found : LedgerError
  contribution_not_found contribution_inactive monthly_cap_exceeded constraint_failed
        unsupported_version :
      LedgerError

-- the signatures '' and 'network-emission'
abbrev pub no_signature : ℕ
no_signature = 0

abbrev pub emission_signature : ℕ
emission_signature = 1

-- one Lux in the model's units
abbrev pub lux : ℕ → ℕ
lux n = n * 100_000_000

abbrev pub lux_hard_cap : ℤ
lux_hard_cap = pos (lux 10_000_000_000)

abbrev pub daily_emission_cap : ℤ
daily_emission_cap = pos (lux 500)

-- the special account 'NETWORK'
abbrev pub network_account : ℕ
network_account = 0

abbrev pub emission_rewards : WorkType → ℕ
emission_rewards WorkType.query_answered = 100_000_000
emission_rewards WorkType.code_verified = 500_000_000
emission_rewards WorkType.content_relayed = 1_000_000
emission_rewards WorkType.api_contributed = 200_000_000
emission_rewards WorkType.peer_relayed = 100_000
emission_rewards WorkType.proposal_accepted = 500_000_000
emission_rewards WorkType.vote_cast = 10_000_000
emission_rewards WorkType.task_completed = 500_000_000
emission_rewards WorkType.uptime_epoch = 5_000_000
emission_rewards WorkType.guest_welcome = 2_500_000_000
emission_rewards WorkType.compute_contributed = 1_000_000_000

-- EARLY_MULTIPLIERS, by the number of accounts (`ContributionStore.getMultiplier`)
abbrev pub early_multiplier : ℕ → ℕ
early_multiplier accounts =
    if leb accounts 100
    then 5
    else if leb accounts 1000
    then 3
    else if leb accounts 10000
    then 2
    else 1

abbrev pub account_key : Account → ℕ
account_key a = a.peer_id

abbrev pub transaction_key : Transaction → ℕ
transaction_key t = t.id

abbrev pub emission_key : Emission → ℕ
emission_key e = e.id

abbrev pub contribution_key : ApiContribution → ℕ
contribution_key c = c.id

abbrev pub deficit_key : Deficit → ℕ
deficit_key d = d.peer_id

-- SQLite's NOCASE folds the letters A to Z
abbrev pub fold_case : ℕ → ℕ
fold_case c = if leb 65 c && leb c 90 then c + 32 else c

-- `a = b COLLATE NOCASE`
abbrev pub nocase_eq : List ℕ → List ℕ → Bool
nocase_eq [] [] = true
nocase_eq [] (d ∷ ds) = false
nocase_eq (c ∷ cs) [] = false
nocase_eq (c ∷ cs) (d ∷ ds) = fold_case c == fold_case d && nocase_eq cs ds

-- `username = ? COLLATE NOCASE`; NULL equals nothing
abbrev pub has_username : List ℕ → Option (List ℕ) → Bool
has_username name none = false
has_username name (some held) = nocase_eq held name
