-- ===== src/Ledger/Accounts.antt =====
-- `AccountStore` (packages/ledger/src/accounts.ts), method by method.
use pando.Common.{ℕ, Bool, true, false, Option, none, some, List, length, if◌then◌else◌, is_some}
use pando.Common.Int.{ℤ, pos, ◌+ℤ◌, ◌-ℤ◌, ltb_ℤ}
use pando.Common.Table.{find, update, put}
use pando.Ledger.Types.{Account, Deficit, Ledger, account_key, deficit_key}

unfoldable pub get : ℕ → Ledger → Option Account
get peer l = find account_key peer l.accounts

unfoldable pub get_balance : ℕ → Ledger → ℤ
get_balance peer l = elim (find account_key peer l.accounts) [ none ↦ pos 0 | some a ↦ a.balance ]

unfoldable pub exists : ℕ → Ledger → Bool
exists peer l = is_some (find account_key peer l.accounts)

abbrev pub new_account : ℕ → ℕ → ℕ → Account
new_account now peer public_key = record {
  peer_id = peer;
  public_key = public_key;
  balance = pos 0;
  created_at = now;
  updated_at = now;
  username = none;
  display_name = none;
  password_hash = none;
  is_claimed = false;
  banned = false;
}

-- INSERT OR IGNORE, then the count is written to network_stats
unfoldable pub create : ℕ → ℕ → ℕ → Ledger → Ledger
unfolding exists
create now peer public_key l =
    let rows =
      if exists peer l
      then l.accounts
      else put account_key (new_account now peer public_key) l.accounts in
    record l { accounts = rows; total_accounts = length rows }

-- UPDATE accounts SET balance = …, updated_at = … WHERE peer_id = …
abbrev pub set_balance : ℕ → ℤ → Account → Account
set_balance now balance a = record a { balance = balance; updated_at = now }

-- The code rounds the new balance to 10^-8 Lux, the unit here; an amount that is given is a whole
-- number of units.
unfoldable pub add_balance : ℕ → ℕ → ℤ → Ledger → Ledger
unfolding get_balance
add_balance now peer amount l =
    let new_balance = get_balance peer l +ℤ amount in
    record l { accounts = update account_key peer (set_balance now new_balance) l.accounts }

unfoldable pub subtract_balance : ℕ → ℕ → ℤ → Ledger → Bool × Ledger
unfolding get_balance
subtract_balance now peer amount l =
    let current = get_balance peer l in
    let new_balance = current -ℤ amount in
    if ltb_ℤ current amount then (false, l) else (
      true,
      record l { accounts = update account_key peer (set_balance now new_balance) l.accounts },
    )

-- ON CONFLICT(key) DO UPDATE SET value = value + deficit
unfoldable pub add_deficit : ℕ → ℤ → List Deficit → List Deficit
add_deficit peer deficit rows = elim (find deficit_key peer rows) [
  | none ↦ put deficit_key (record { peer_id = peer; value = deficit }) rows
  | some d ↦ put deficit_key (record { peer_id = peer; value = d.value +ℤ deficit }) rows
]

unfoldable pub force_subtract_balance : ℕ → ℕ → ℤ → Ledger → Ledger
unfolding get_balance
force_subtract_balance now peer amount l =
    let new_balance = get_balance peer l -ℤ amount in
    let deficit = pos 0 -ℤ new_balance in
    if ltb_ℤ new_balance (pos 0)
    then record l {
      deficits = add_deficit peer deficit l.deficits;
      accounts = update account_key peer (set_balance now (pos 0)) l.accounts;
    }
    else record l { accounts = update account_key peer (set_balance now new_balance) l.accounts }

unfoldable pub get_account_count : Ledger → ℕ
get_account_count l = length l.accounts
