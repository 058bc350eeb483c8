-- ===== src/Ledger/Debits.antt =====
-- What the debits of `AccountStore` do to the sum of the balances: the checked debit, and the one
-- of a remote transaction, which records what it could not take.
use pando.Common.{ℕ, ◌≡◌, refl, ◌≢◌, inl, inr, true, false, List, arith, Option-cases, Bool-cases}
use pando.Common.Int.{ℤ, pos, ◌+ℤ◌, ◌-ℤ◌, ◌≤ℤ◌, ltb_ℤ, int_laws}
use pando.Common.Table.{find, IsKeyed, sum}
use pando.Common.Table.Laws.{update_absent, find-update_self, find-update_ne, sum-put, sum-put_new}
use pando.Ledger.Types.{Account, Deficit, Ledger, account_key, deficit_key}
use pando.Ledger.Accounts.{
  exists, get_balance, set_balance, subtract_balance, force_subtract_balance, add_deficit,
}
use pando.Ledger.Balances.{balances, balances-set_balance, is_some-set_balance}

abbrev pub deficit_of : Deficit → ℤ
deficit_of d = d.value

-- all the Lux that remote debits could not take
abbrev pub deficits_of : Ledger → ℤ
deficits_of l = sum deficit_of l.deficits

-- a covered debit takes exactly its amount
pub subtract_balance-balances :
    (now peer : ℕ) (amount : ℤ) (l : Ledger)
    → IsKeyed account_key l.accounts
    → exists peer l ≡ true
    → ltb_ℤ (get_balance peer l) amount ≡ false
    → balances (subtract_balance now peer amount l).1 +ℤ amount ≡ balances l
unfolding subtract_balance get_balance exists
subtract_balance-balances now peer amount l h e c =
    elim (Option-cases (find account_key peer l.accounts)) [
      | inl missing ↦ ground arith
      | inr (a, found) ↦
          grind (int_laws, balances-set_balance now peer (a.balance -ℤ amount) l.accounts h found)
    ]

pub subtract_balance-done :
    (now peer : ℕ) (amount : ℤ) (l : Ledger)
    → ltb_ℤ (get_balance peer l) amount ≡ false
    → (subtract_balance now peer amount l).0 ≡ true
unfolding subtract_balance
subtract_balance-done now peer amount l c = rw c

pub add_deficit-sum :
    (peer : ℕ) (d : ℤ) (rows : List Deficit)
    → sum deficit_of (add_deficit peer d rows) ≡ sum deficit_of rows +ℤ d
unfolding add_deficit
add_deficit-sum peer d rows = elim (Option-cases (find deficit_key peer rows)) [
  | inl missing ↦ grind (
    int_laws,
    sum-put_new deficit_key deficit_of (record { peer_id = peer; value = d }) rows missing,
  )
  | inr (r, found) ↦ grind (
    int_laws,
    sum-put deficit_key deficit_of (record { peer_id = peer; value = r.value +ℤ d }) rows found,
  )
]

-- a forced debit takes its amount from the balances, or adds to the deficits what is missing
pub force_subtract_balance-balances :
    (now peer : ℕ) (amount : ℤ) (l : Ledger)
    → IsKeyed account_key l.accounts
    → pos 0 ≤ℤ amount
    → balances (force_subtract_balance now peer amount l) +ℤ amount +ℤ deficits_of l
      ≡ balances l +ℤ deficits_of (force_subtract_balance now peer amount l)
unfolding force_subtract_balance get_balance
force_subtract_balance-balances now peer amount l h p =
    elim (Option-cases (find account_key peer l.accounts)) [
      | inl missing ↦ grind (
        int_laws,
        add_deficit-sum peer (pos 0 -ℤ (pos 0 -ℤ amount)) l.deficits,
        update_absent account_key peer (set_balance now (pos 0)) l.accounts missing,
        update_absent account_key peer (set_balance now (pos 0 -ℤ amount)) l.accounts missing,
      )
      | inr (a, found) ↦ elim (Bool-cases (ltb_ℤ (a.balance -ℤ amount) (pos 0))) [
        | inl short ↦ grind (
          int_laws,
          add_deficit-sum peer (pos 0 -ℤ (a.balance -ℤ amount)) l.deficits,
          balances-set_balance now peer (pos 0) l.accounts h found,
        )
        | inr covered ↦
            grind (int_laws, balances-set_balance now peer (a.balance -ℤ amount) l.accounts h found)
      ]
    ]

pub exists-subtract_balance :
    (now j peer : ℕ) (amount : ℤ) (l : Ledger)
    → exists j (subtract_balance now peer amount l).1 ≡ exists j l
unfolding subtract_balance exists
exists-subtract_balance now j peer amount l =
    ground (arith, is_some-set_balance j now peer (get_balance peer l -ℤ amount) l.accounts)

pub exists-force_subtract_balance :
    (now j peer : ℕ) (amount : ℤ) (l : Ledger)
    → exists j (force_subtract_balance now peer amount l) ≡ exists j l
unfolding force_subtract_balance exists
exists-force_subtract_balance now j peer amount l = ground (
  arith,
  is_some-set_balance j now peer (pos 0) l.accounts,
  is_some-set_balance j now peer (get_balance peer l -ℤ amount) l.accounts,
)

pub get_balance-subtract_balance_self :
    (now peer : ℕ) (amount : ℤ) (l : Ledger)
    → exists peer l ≡ true
    → ltb_ℤ (get_balance peer l) amount ≡ false
    → get_balance peer (subtract_balance now peer amount l).1 ≡ get_balance peer l -ℤ amount
unfolding subtract_balance get_balance exists
get_balance-subtract_balance_self now peer amount l e c =
    elim (Option-cases (find account_key peer l.accounts)) [
      | inl missing ↦ ground arith
      | inr (a, found) ↦ ground (
        arith,
        find-update_self account_key peer (set_balance now (a.balance -ℤ amount)) {r = a} l.accounts
            refl,
      )
    ]

pub get_balance-subtract_balance_ne :
    (now j peer : ℕ) (amount : ℤ) (l : Ledger)
    → j ≢ peer
    → get_balance j (subtract_balance now peer amount l).1 ≡ get_balance j l
unfolding subtract_balance get_balance
get_balance-subtract_balance_ne now j peer amount l ne = ground (
  arith,
  find-update_ne account_key j peer (set_balance now (get_balance peer l -ℤ amount)) l.accounts
      (λ (r : Account). refl),
)
