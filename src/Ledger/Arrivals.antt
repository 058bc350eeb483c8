-- ===== src/Ledger/Arrivals.antt =====
-- Which received transactions are applied (`applyRemoteTransaction` of
-- packages/ledger/src/transactions.ts), in numbers of 10^-8 Lux.
use pando.Common.{ℕ, ◌*◌, ◌≤◌, ◌<◌, ◌≡◌, ◌⊎◌, none, some}
use pando.Common.Int.{ℤ, pos, ◌+ℤ◌, ◌≤ℤ◌}
use pando.Ledger.Types.{Transaction, TransactionType, Ledger}
use pando.Ledger.Transactions.{get_transaction}

-- ten thousand million Lux
abbrev pub cap : ℤ
cap = pos 1_000_000_000_000_000_000

-- A transaction of amount `a` and fee `f` that changes nothing: it is known, or an emission past the
-- cap when the cap is reached, or a transfer whose fee is more than 0.000001 Lux and more than 0.15 percent.
abbrev pub IsRefused : ℕ → ℕ → Transaction → Ledger → Type 0
IsRefused a f tx l =
    ((old : Transaction) × (get_transaction tx.id l ≡ some old))
    ⊎ (((tx.type ≡ TransactionType.emission)
          × (cap ≤ℤ l.total_supply)
          × (cap +ℤ pos 1 ≤ℤ l.total_supply +ℤ pos a))
        ⊎ ((tx.type ≡ TransactionType.transfer) × (100 < f) × (3 * a < 2000 * f)))

-- one that is written: a transfer as it is, an emission with what the cap leaves of it
abbrev pub IsWritten : ℕ → ℕ → Transaction → Ledger → Ledger → Type 0
IsWritten a f tx l l' =
    (m : ℤ) × (get_transaction tx.id l ≡ none)
    × (get_transaction tx.id l' ≡ some (record tx { amount = m }))
    × (((tx.type ≡ TransactionType.transfer)
          × ((f ≤ 100) ⊎ (2000 * f ≤ 3 * a))
          × (m ≡ pos a)
          × (l'.total_supply ≡ l.total_supply))
        ⊎ ((tx.type ≡ TransactionType.emission)
            × (l'.total_supply ≡ l.total_supply +ℤ m)
            × (((m ≡ pos a) × (l.total_supply +ℤ pos a ≤ℤ cap))
                ⊎ ((l'.total_supply ≡ cap) × (pos 1 ≤ℤ m) × (m ≤ℤ pos a)))))
