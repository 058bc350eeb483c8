-- ===== src/Ledger/Usage.antt =====
-- What `recordUsage` (packages/ledger/src/contributions.ts) does.
use pando.Common.{
  sym, ℕ, ◌+◌, ◌≤◌, ◌<◌, ◌⊎◌, refl, ◌==◌, ==-eq, ne_of_==, leb, ◌≡◌, inl, inr, true, some, List,
  arith, Option-cases, Bool-cases,
}
use mathlib.Core.Path.{subst}
use pando.Common.Int.{ℤ, pos, ◌+ℤ◌, ◌≤ℤ◌}
use pando.Common.Table.Laws.{find-update_self, find-update_ne, key-find}
use pando.Common.Table.{find, update}
use pando.Common.Result.{ok, Result-cases}
use pando.Ledger.Types.{Transaction, WorkType, ApiContribution, contribution_key, Ledger}
use pando.Ledger.Accounts.{get_account_count}
use pando.Ledger.Transactions.{emit}
use pando.Ledger.Contributions.{use_contribution, get_contribution, record_usage, use_found, reward}
use pando.Ledger.Emissions.{Minted, emit-Minted}
use pando.Ledger.Soundness.{IsSound}
use pando.Ledger.Preservation.{Minted-IsSound}

-- what a recorded usage has done: the contribution is active, its cap is kept, its row is charged,
-- and a reward is minted: 2 Lux, five times that up to 100 accounts, three times up to 1000 and
-- twice up to 10000
pub record Used (now contribution : ℕ) (cost : ℤ) (l : Ledger) (earned : ℤ) (l' : Ledger)
    : Type 0 where
  pub row : ApiContribution
  pub tx : Transaction
  pub found : get_contribution contribution l ≡ some row
  pub active : row.active ≡ true
  pub within : row.used_usd +ℤ cost ≤ℤ row.monthly_cap
  pub earns :
      ((get_account_count l ≤ 100) × (earned ≡ pos 1_000_000_000))
      ⊎ (((100 < get_account_count l) × (get_account_count l ≤ 1000) × (earned ≡ pos 600_000_000))
          ⊎ (((1000 < get_account_count l)
                × (get_account_count l ≤ 10000)
                × (earned ≡ pos 400_000_000))
              ⊎ ((10000 < get_account_count l) × (earned ≡ pos 200_000_000))))
  pub charged :
      (row' : ApiContribution) × (get_contribution contribution l' ≡ some row')
      × (row'.used_usd ≡ row.used_usd +ℤ cost)
      × (row'.tasks_completed ≡ row.tasks_completed + 1)
      × (row'.lux_earned ≡ row.lux_earned +ℤ earned)
      × (row'.last_used_at ≡ some now)
      × (row'.monthly_cap ≡ row.monthly_cap)
      × (row'.active ≡ true)
  pub others : (j : ℕ) → (j ≡ contribution) ⊎ (get_contribution j l' ≡ get_contribution j l)
  pub minted :
      Minted now row.peer_id earned
        (record l {
          contributions =
              update contribution_key row.id (use_contribution now cost earned) l.contributions;
        })
        tx
        l'

reward_lem :
    (l : Ledger) (n : ℕ)
    → get_account_count l ≡ n
    → let earned = reward WorkType.api_contributed l in
      ((n ≤ 100) × (earned ≡ pos 1_000_000_000))
      ⊎ (((100 < n) × (n ≤ 1000) × (earned ≡ pos 600_000_000))
          ⊎ (((1000 < n) × (n ≤ 10000) × (earned ≡ pos 400_000_000))
              ⊎ ((10000 < n) × (earned ≡ pos 200_000_000))))
unfolding reward
reward_lem l n e = elim (Bool-cases (leb n 100)) [
  | inl few ↦ inl (ground arith, rw (e, few) refl)
  | inr over ↦ elim (Bool-cases (leb n 1000)) [
    | inl some_more ↦ inr (inl (ground arith, ground arith, rw (e, over, some_more) refl))
    | inr over' ↦ elim (Bool-cases (leb n 10000)) [
      | inl many ↦ inr (inr (inl (ground arith, ground arith, rw (e, over, over', many) refl)))
      | inr most ↦ inr (inr (inr (ground arith, rw (e, over, over', most) refl)))
    ]
  ]
]

module _ (now contribution : ℕ) (cost earned : ℤ) (c : ApiContribution) (l l' : Ledger)
    (found : get_contribution contribution l ≡ some c)
    (written : l'.contributions
      ≡ update contribution_key c.id (use_contribution now cost earned) l.contributions) where
  charged_row : get_contribution contribution l' ≡ some (use_contribution now cost earned c)
  unfolding get_contribution
  charged_row = rw written (
      subst
        (λ k.
          find contribution_key contribution
            (update contribution_key k (use_contribution now cost earned) l.contributions)
          ≡ some (use_contribution now cost earned c))
        (sym (key-find contribution_key contribution l.contributions found))
        (find-update_self contribution_key contribution (use_contribution now cost earned)
          l.contributions refl found))

  other_rows : (j : ℕ) → (j ≡ contribution) ⊎ (get_contribution j l' ≡ get_contribution j l)
  unfolding get_contribution
  other_rows j = elim (Bool-cases (j == contribution)) [
    | inl same ↦ inl (==-eq j contribution same)
    | inr other ↦ inr (
        rw (written, key-find contribution_key contribution l.contributions found)
          (find-update_ne contribution_key j contribution (use_contribution now cost earned)
            l.contributions (λ r. refl) (ne_of_== j contribution other)))
  ]

use_found-Used :
    (now id contribution : ℕ) (cost : ℤ) (proof : List ℕ) (c : ApiContribution) (l : Ledger)
    (earned : ℤ) (l' : Ledger)
    → get_contribution contribution l ≡ some c
    → use_found now id cost proof c l ≡ ok (earned, l')
    → Used now contribution cost l earned l'
unfolding use_found
use_found-Used now id contribution cost proof c l earned l' f e =
    let gain = reward WorkType.api_contributed l in
    let charged = record l {
      contributions = update contribution_key c.id (use_contribution now cost gain) l.contributions;
    } in
    elim (Result-cases (emit now id c.peer_id gain WorkType.api_contributed proof charged)) [
      | inl ((tx, m), done) ↦
          let facts : (c.active ≡ true)
              × (c.used_usd +ℤ cost ≤ℤ c.monthly_cap)
              × (earned ≡ gain)
              × (l' ≡ m) =
            ground arith in
          let minted =
            emit-Minted now id c.peer_id gain WorkType.api_contributed proof charged tx m done in
          record {
            row = c;
            tx = tx;
            found = f;
            active = facts.0;
            within = facts.1;
            earns = rw facts.2 (reward_lem l (get_account_count l) refl);
            charged = (
              use_contribution now cost gain c,
              rw facts.3 (charged_row now contribution cost gain c l m f minted.contributions),
              refl,
              refl,
              rw facts.2,
              refl,
              refl,
              facts.0,
            );
            others =
                rw facts.3 (other_rows now contribution cost gain c l m f minted.contributions);
            minted = rw (facts.2, facts.3) minted;
          }
      | inr (x, failed) ↦ absurd (ground arith)
    ]

-- A usage that is recorded is of an active contribution and keeps its cap: afterwards the row's used
-- amount is greater by the cost, its count of tasks by one and its earned Lux by the reward, and no
-- other contribution has changed. The reward is 2 Lux, five times that with at most 100 accounts,
-- three times with at most 1000, twice with at most 10000; what the hard cap leaves of it is minted
-- to the contributor.
pub record_usage-Used :
    (now id contribution : ℕ) (cost : ℤ) (proof : List ℕ) (l : Ledger) (earned : ℤ) (l' : Ledger)
    → record_usage now id contribution cost proof l ≡ ok (earned, l')
    → Used now contribution cost l earned l'
unfolding record_usage get_contribution
record_usage-Used now id contribution cost proof l earned l' e =
    elim (Option-cases (find contribution_key contribution l.contributions)) [
      | inl missing ↦ absurd (ground arith)
      | inr (c, found) ↦
          use_found-Used now id contribution cost proof c l earned l' found
            (rw (found, record_usage) at e)
    ]

pub record_usage-IsSound :
    (now id contribution : ℕ) (cost : ℤ) (proof : List ℕ) (l : Ledger) (earned : ℤ) (l' : Ledger)
    → IsSound l
    → record_usage now id contribution cost proof l ≡ ok (earned, l')
    → IsSound l'
record_usage-IsSound now id contribution cost proof l earned l' s e =
    let u = record_usage-Used now id contribution cost proof l earned l' e in
    Minted-IsSound now u.row.peer_id earned _ u.tx l' u.minted
      (record { solvent = s.solvent; capped = s.capped; backed = s.backed })
