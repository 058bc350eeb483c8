-- ===== src/Ledger/Balances.antt =====
-- What the balance updates of `AccountStore` do to the table of accounts: its keys, its rows and
-- the sum of its balances.
use pando.Common.{
  ℕ, ◌≡◌, refl, ◌≢◌, inl, inr, true, some, List, [], ◌∷◌, arith, if◌then◌else◌, is_some,
  Option-cases,
}
use pando.Common.Int.{ℤ, pos, ◌+ℤ◌, int_laws}
use pando.Common.Table.{find, update, IsKeyed, sum}
use pando.Common.Table.Laws.{
  update-IsKeyed, sum-update, update_absent, find-update_self, find-update_ne,
}
use pando.Ledger.Types.{Account, Ledger, account_key}
use pando.Ledger.Accounts.{exists, get_balance, set_balance, add_balance}

abbrev pub balance_of : Account → ℤ
balance_of a = a.balance

-- all the Lux in accounts
abbrev pub balances : Ledger → ℤ
balances l = sum balance_of l.accounts

-- what a credit of `amount` really credits
abbrev pub credited : ℕ → ℤ → Ledger → ℤ
credited peer amount l = if is_some (find account_key peer l.accounts) then amount else pos 0

pub balances-set_balance :
    (now peer : ℕ) (b : ℤ) {a : Account} (rows : List Account)
    → IsKeyed account_key rows
    → find account_key peer rows ≡ some a
    → sum balance_of (update account_key peer (set_balance now b) rows) +ℤ a.balance
      ≡ sum balance_of rows +ℤ b
balances-set_balance now peer b rows h e =
    sum-update account_key balance_of peer (set_balance now b) rows h e

pub IsKeyed-set_balance :
    (now peer : ℕ) (b : ℤ) (rows : List Account)
    → IsKeyed account_key rows
    → IsKeyed account_key (update account_key peer (set_balance now b) rows)
IsKeyed-set_balance now peer b rows h =
    update-IsKeyed account_key peer (set_balance now b) rows (λ r. refl) h

-- a write of a balance makes no account and removes none
pub is_some-set_balance :
    (j now peer : ℕ) (b : ℤ) (rows : List Account)
    → is_some (find account_key j (update account_key peer (set_balance now b) rows))
      ≡ is_some (find account_key j rows)
is_some-set_balance j now peer b [] = refl
is_some-set_balance j now peer b (a ∷ rows) = ground (arith, is_some-set_balance j now peer b rows)

pub add_balance-balances :
    (now peer : ℕ) (amount : ℤ) (l : Ledger)
    → IsKeyed account_key l.accounts
    → balances (add_balance now peer amount l) ≡ balances l +ℤ credited peer amount l
unfolding add_balance get_balance
add_balance-balances now peer amount l h = elim (Option-cases (find account_key peer l.accounts)) [
  | inl e ↦
      grind
        (int_laws, update_absent account_key peer (set_balance now (pos 0 +ℤ amount)) l.accounts e)
  | inr (a, e) ↦
      grind (int_laws, balances-set_balance now peer (a.balance +ℤ amount) l.accounts h e)
]

pub get_balance-add_balance_self :
    (now peer : ℕ) (amount : ℤ) (l : Ledger)
    → exists peer l ≡ true
    → get_balance peer (add_balance now peer amount l) ≡ get_balance peer l +ℤ amount
unfolding add_balance get_balance exists
get_balance-add_balance_self now peer amount l e =
    elim (Option-cases (find account_key peer l.accounts)) [
      | inl missing ↦ ground arith
      | inr (a, found) ↦ ground (
        arith,
        find-update_self account_key peer (set_balance now (a.balance +ℤ amount)) {r = a} l.accounts
            refl,
      )
    ]

-- a write at one account leaves the others
pub get_balance-add_balance_ne :
    (now j peer : ℕ) (amount : ℤ) (l : Ledger)
    → j ≢ peer
    → get_balance j (add_balance now peer amount l) ≡ get_balance j l
unfolding add_balance get_balance
get_balance-add_balance_ne now j peer amount l ne = ground (
  arith,
  find-update_ne account_key j peer (set_balance now (get_balance peer l +ℤ amount)) l.accounts
      (λ (r : Account). refl),
)

pub exists-add_balance :
    (now j peer : ℕ) (amount : ℤ) (l : Ledger)
    → exists j (add_balance now peer amount l) ≡ exists j l
unfolding add_balance exists
exists-add_balance now j peer amount l = is_some-set_balance j now peer _ l.accounts
