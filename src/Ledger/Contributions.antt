-- ===== src/Ledger/Contributions.antt =====
-- `ContributionStore` (packages/ledger/src/contributions.ts). US dollars are integers in one unit.
use pando.Common.{ℕ, ◌+◌, ◌*◌, true, false, not, Option, none, some, List}
use pando.Common.Int.{ℤ, pos, ◌+ℤ◌, ltb_ℤ}
use pando.Common.Table.{find, update, put, sum}
use pando.Common.Result.{Result, ok, err, ◌>>=◌, ◌>>◌, throw_if}
use pando.Ledger.Types.{
  Transaction, WorkType, ApiProvider, ApiContribution, Ledger, LedgerError, account_not_found,
  contribution_not_found, contribution_inactive, monthly_cap_exceeded, contribution_key,
  emission_rewards, early_multiplier,
}
use pando.Ledger.Accounts.{exists, get_account_count}
use pando.Ledger.Transactions.{emit}

-- the key is AUTOINCREMENT
unfoldable pub register :
    ℕ → ℕ → ApiProvider → ℤ → Ledger → Result LedgerError (ApiContribution × Ledger)
register now peer provider monthly_cap l = do
  throw_if (not (exists peer l)) account_not_found
  let c : ApiContribution = record {
    id = l.next_contribution;
    peer_id = peer;
    provider = provider;
    monthly_cap = monthly_cap;
    used_usd = pos 0;
    tasks_completed = 0;
    lux_earned = pos 0;
    registered_at = now;
    last_used_at = none;
    active = true;
  }
  ok (
    c,
    record l {
      contributions = put contribution_key c l.contributions;
      next_contribution = l.next_contribution + 1;
    },
  )

unfoldable pub get_contribution : ℕ → Ledger → Option ApiContribution
get_contribution id l = find contribution_key id l.contributions

-- a reward of some kind of work, with the multiplier of the moment
unfoldable pub reward : WorkType → Ledger → ℤ
reward work l = pos (emission_rewards work * early_multiplier (get_account_count l))

abbrev pub use_contribution : ℕ → ℤ → ℤ → ApiContribution → ApiContribution
use_contribution now cost earned c = record c {
  used_usd = c.used_usd +ℤ cost;
  tasks_completed = c.tasks_completed + 1;
  lux_earned = c.lux_earned +ℤ earned;
  last_used_at = some now;
}

-- once the contribution is found
unfoldable pub use_found :
    ℕ → ℕ → ℤ → List ℕ → ApiContribution → Ledger → Result LedgerError (ℤ × Ledger)
use_found now tx_id cost work_proof c l = do
  throw_if (not c.active) contribution_inactive
  throw_if (ltb_ℤ c.monthly_cap (c.used_usd +ℤ cost)) monthly_cap_exceeded
  let earned = reward WorkType.api_contributed l
  let used = record l {
    contributions = update contribution_key c.id (use_contribution now cost earned) l.contributions;
  }
  done ← emit now tx_id c.peer_id earned WorkType.api_contributed work_proof used
  ok (earned, done.1)

-- both writes are one database transaction
unfoldable pub record_usage : ℕ → ℕ → ℕ → ℤ → List ℕ → Ledger → Result LedgerError (ℤ × Ledger)
record_usage now tx_id contribution_id cost work_proof l =
    elim (find contribution_key contribution_id l.contributions) [
      | none ↦ err contribution_not_found
      | some c ↦ use_found now tx_id cost work_proof c l
    ]

unfoldable pub reward_work :
    ℕ → ℕ → ℕ → WorkType → List ℕ → Ledger → Result LedgerError (Transaction × Ledger)
reward_work now tx_id peer work work_proof l = do
  throw_if (not (exists peer l)) account_not_found
  emit now tx_id peer (reward work l) work work_proof l

unfoldable pub deactivate : ℕ → Ledger → Ledger
deactivate id l = record l {
  contributions = update contribution_key id (λ c. record c { active = false }) l.contributions;
}

-- SELECT SUM(used_usd)
unfoldable pub get_total_api_spend : Ledger → ℤ
get_total_api_spend l = sum (λ c. c.used_usd) l.contributions
