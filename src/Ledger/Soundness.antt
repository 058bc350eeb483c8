-- ===== src/Ledger/Soundness.antt =====
-- The invariant of the ledger, and that the account updates keep it.
use pando.Common.{ℕ, ◌≡◌, inl, inr, List, arith, Option-cases, Bool-cases}
use pando.Common.Int.{ℤ, pos, ◌+ℤ◌, ◌-ℤ◌, ◌≤ℤ◌, ltb_ℤ, int_laws}
use pando.Common.Table.{find, update, IsKeyed, Each}
use pando.Common.Table.Laws.{
  Each-update, Each-find, Each-put, update-IsKeyed, put-IsKeyed, sum-update_same, sum-put_new,
}
use pando.Ledger.Types.{Account, Ledger, account_key, lux_hard_cap, empty_ledger}
use pando.Ledger.Accounts.{
  exists, get_balance, add_balance, set_balance, subtract_balance, force_subtract_balance, create,
  new_account,
}
use pando.Ledger.Balances.{balance_of, balances, IsKeyed-set_balance}
use pando.Ledger.Debits.{deficits_of}

abbrev pub IsNonneg : Account → Type 0
IsNonneg a = pos 0 ≤ℤ a.balance

-- every account once, and none overdrawn
pub record IsSolvent (rows : List Account) : Type 0 where
  pub keyed : IsKeyed account_key rows
  pub nonneg : Each IsNonneg rows

-- no more Lux in accounts than was minted and could not be debited, and the hard cap kept
pub record IsSound (l : Ledger) : Type 0 where
  pub solvent : IsSolvent l.accounts
  pub capped : l.total_supply ≤ℤ lux_hard_cap
  pub backed : balances l ≤ℤ l.total_supply +ℤ deficits_of l

pub empty_ledger-IsSound : IsSound empty_ledger
empty_ledger-IsSound = record {
  solvent = record { keyed = tt; nonneg = tt };
  capped = omega arith;
  backed = grind int_laws;
}

set_balance-IsSolvent :
    (now peer : ℕ) (b : ℤ) (rows : List Account)
    → pos 0 ≤ℤ b
    → IsSolvent rows
    → IsSolvent (update account_key peer (set_balance now b) rows)
set_balance-IsSolvent now peer b rows p s = record {
  keyed = IsKeyed-set_balance now peer b rows s.keyed;
  nonneg = Each-update account_key IsNonneg peer (set_balance now b) rows (λ r h. p) s.nonneg;
}

pub get_balance_nonneg :
    (peer : ℕ) (l : Ledger) → IsSolvent l.accounts → pos 0 ≤ℤ get_balance peer l
unfolding get_balance
get_balance_nonneg peer l s = elim (Option-cases (find account_key peer l.accounts)) [
  | inl missing ↦ rw (missing, get_balance) (omega arith)
  | inr (a, found) ↦
      rw (found, get_balance) (Each-find account_key IsNonneg peer l.accounts s.nonneg found)
]

pub add_balance-IsSolvent :
    (now peer : ℕ) (amount : ℤ) (l : Ledger)
    → pos 0 ≤ℤ amount
    → IsSolvent l.accounts
    → IsSolvent (add_balance now peer amount l).accounts
unfolding add_balance
add_balance-IsSolvent now peer amount l p s =
    set_balance-IsSolvent now peer (get_balance peer l +ℤ amount) l.accounts
      (let q = get_balance_nonneg peer l s in grind int_laws) s

pub subtract_balance-IsSolvent :
    (now peer : ℕ) (amount : ℤ) (l : Ledger)
    → IsSolvent l.accounts
    → IsSolvent (subtract_balance now peer amount l).1.accounts
unfolding subtract_balance
subtract_balance-IsSolvent now peer amount l s =
    elim (Bool-cases (ltb_ℤ (get_balance peer l) amount)) [
      | inl short ↦ rw short s
      | inr covered ↦ rw covered (
          set_balance-IsSolvent now peer (get_balance peer l -ℤ amount) l.accounts (grind int_laws)
            s)
    ]

pub force_subtract_balance-IsSolvent :
    (now peer : ℕ) (amount : ℤ) (l : Ledger)
    → IsSolvent l.accounts
    → IsSolvent (force_subtract_balance now peer amount l).accounts
unfolding force_subtract_balance
force_subtract_balance-IsSolvent now peer amount l s =
    elim (Bool-cases (ltb_ℤ (get_balance peer l -ℤ amount) (pos 0))) [
      | inl short ↦ rw short (set_balance-IsSolvent now peer (pos 0) l.accounts (omega arith) s)
      | inr covered ↦
          rw covered (
            set_balance-IsSolvent now peer (get_balance peer l -ℤ amount) l.accounts (grind arith)
              s)
    ]

-- an update that leaves ids and balances, as those of claims and bans
pub update-IsSound :
    (peer : ℕ) (f : Account → Account) (l : Ledger)
    → ((a : Account) → (f a).peer_id ≡ a.peer_id)
    → ((a : Account) → (f a).balance ≡ a.balance)
    → IsSound l
    → IsSound (record l { accounts = update account_key peer f l.accounts })
update-IsSound peer f l same_id same_balance s = record {
  solvent = record {
    keyed = update-IsKeyed account_key peer f l.accounts same_id s.solvent.keyed;
    nonneg =
        Each-update account_key IsNonneg peer f l.accounts (λ a h. rw (same_balance a) h)
          s.solvent.nonneg;
  };
  capped = s.capped;
  backed = rw (sum-update_same account_key balance_of peer f l.accounts same_balance) s.backed;
}

pub create-IsSound :
    (now peer public_key : ℕ) (l : Ledger) → IsSound l → IsSound (create now peer public_key l)
unfolding create exists
create-IsSound now peer public_key l s = elim (Option-cases (find account_key peer l.accounts)) [
  | inl missing ↦ rw missing (record {
    solvent = record {
      keyed = put-IsKeyed account_key (new_account now peer public_key) l.accounts s.solvent.keyed;
      nonneg =
          Each-put account_key IsNonneg (new_account now peer public_key) l.accounts (omega arith)
            s.solvent.nonneg;
    };
    capped = s.capped;
    backed =
        rw (sum-put_new account_key balance_of (new_account now peer public_key) l.accounts missing)
          (let b = s.backed in grind int_laws);
  })
  | inr (a, found) ↦ rw found (record { solvent = s.solvent; capped = s.capped; backed = s.backed })
]
