-- ===== src/Ledger/Transfers.antt =====
-- A successful transfer: its guards, and what it does to the accounts.
use pando.Common.{ℕ, ◌≡◌, refl, true, false, Option, none, some, arith, ◌==◌, if◌then◌else◌, ◌∙◌}
use pando.Common.Int.{ℤ, pos, ◌+ℤ◌, ◌-ℤ◌, ltb_ℤ, leb_ℤ, int_laws}
use pando.Common.Table.{put, IsKeyed}
use pando.Common.Result.{ok}
use pando.Ledger.Types.{Transaction, Ledger, account_key, transaction_key}
use pando.Ledger.Accounts.{exists, get_balance, add_balance, subtract_balance}
use pando.Ledger.Transactions.{transfer, relay_fee, pay_relay, record_transaction}
use pando.Ledger.Balances.{balances, add_balance-balances, exists-add_balance, IsKeyed-set_balance}
use pando.Ledger.Debits.{subtract_balance-balances, exists-subtract_balance}

-- the ledger after the balance writes of a transfer
abbrev pub paid : ℕ → ℕ → ℕ → ℤ → Option ℕ → Ledger → Ledger
paid now from to amount relay l =
    let fee = relay_fee amount relay in
    let debited = (subtract_balance now from (amount +ℤ fee) l).1 in
    pay_relay now fee relay (add_balance now to amount debited)

pub record Passed (now id from to : ℕ) (amount : ℤ) (relay : Option ℕ) (l : Ledger)
    (tx : Transaction) (l' : Ledger) : Type 0 where
  pub positive : leb_ℤ amount (pos 0) ≡ false
  pub distinct : (from == to) ≡ false
  pub sender : exists from l ≡ true
  pub recipient : exists to l ≡ true
  pub covered : ltb_ℤ (get_balance from l) (amount +ℤ relay_fee amount relay) ≡ false
  pub tx_from : tx.from ≡ from
  pub tx_to : tx.to ≡ to
  pub tx_amount : tx.amount ≡ amount
  pub tx_fee : tx.fee ≡ relay_fee amount relay
  pub result : l' ≡ record (paid now from to amount relay l) {
    transactions = put transaction_key tx (paid now from to amount relay l).transactions;
  }

pub transfer-Passed :
    (now id from to : ℕ) (amount : ℤ) (relay : Option ℕ) (l : Ledger) (tx : Transaction)
    (l' : Ledger)
    → transfer now id from to amount relay l ≡ ok (tx, l')
    → Passed now id from to amount relay l tx l'
unfolding transfer record_transaction
transfer-Passed now id from to amount relay l tx l' h = ground arith

-- the part of the fee that no account receives: the whole fee of a relay without an account
abbrev pub unpaid : Option ℕ → ℤ → Ledger → ℤ
unpaid none fee l = pos 0
unpaid (some relay) fee l = if exists relay l then pos 0 else fee

pub IsKeyed-add_balance :
    (now peer : ℕ) (amount : ℤ) (l : Ledger)
    → IsKeyed account_key l.accounts
    → IsKeyed account_key (add_balance now peer amount l).accounts
unfolding add_balance
IsKeyed-add_balance now peer amount l h = IsKeyed-set_balance now peer _ l.accounts h

pub IsKeyed-subtract_balance :
    (now peer : ℕ) (amount : ℤ) (l : Ledger)
    → IsKeyed account_key l.accounts
    → IsKeyed account_key (subtract_balance now peer amount l).1.accounts
unfolding subtract_balance
IsKeyed-subtract_balance now peer amount l h =
    ground (arith, IsKeyed-set_balance now peer (get_balance peer l -ℤ amount) l.accounts h)

add_balance-exists :
    (now peer : ℕ) (amount : ℤ) (l : Ledger)
    → IsKeyed account_key l.accounts
    → balances (add_balance now peer amount l)
      ≡ (if exists peer l then balances l +ℤ amount else balances l)
unfolding exists
add_balance-exists now peer amount l h = grind (int_laws, add_balance-balances now peer amount l h)

pay_relay-balances :
    (now : ℕ) (amount : ℤ) (relay : Option ℕ) (l : Ledger)
    → IsKeyed account_key l.accounts
    → balances (pay_relay now (relay_fee amount relay) relay l)
        +ℤ unpaid relay (relay_fee amount relay) l
      ≡ balances l +ℤ relay_fee amount relay
unfolding pay_relay
pay_relay-balances now amount none l h = omega int_laws
pay_relay-balances now amount (some relay) l h =
    grind (int_laws, add_balance-exists now relay (relay_fee amount (some relay)) l h)

unpaid-same :
    (relay : Option ℕ) (fee : ℤ) (l m : Ledger)
    → ((j : ℕ) → exists j m ≡ exists j l)
    → unpaid relay fee m ≡ unpaid relay fee l
unpaid-same none fee l m same = refl
unpaid-same (some relay) fee l m same = rw (same relay)

paid-balances :
    (now from to : ℕ) (amount : ℤ) (relay : Option ℕ) (l : Ledger)
    → IsKeyed account_key l.accounts
    → exists from l ≡ true
    → exists to l ≡ true
    → ltb_ℤ (get_balance from l) (amount +ℤ relay_fee amount relay) ≡ false
    → balances (paid now from to amount relay l) +ℤ unpaid relay (relay_fee amount relay) l
      ≡ balances l
paid-balances now from to amount relay l h s r c =
    let fee = relay_fee amount relay in
    let debited = (subtract_balance now from (amount +ℤ fee) l).1 in
    let credit = add_balance now to amount debited in
    let keyed = IsKeyed-subtract_balance now from (amount +ℤ fee) l h in
    grind (
      int_laws,
      subtract_balance-balances now from (amount +ℤ fee) l h s c,
      add_balance-exists now to amount debited keyed,
      pay_relay-balances now amount relay credit (IsKeyed-add_balance now to amount debited keyed),
      exists-subtract_balance now to from (amount +ℤ fee) l,
      unpaid-same relay fee l credit (λ (j : ℕ).
          exists-add_balance now j to amount debited
          ∙ exists-subtract_balance now j from (amount +ℤ fee) l),
    )

-- In a ledger that lists every account once, a successful transfer takes from the sum of all
-- balances exactly the fee of a relay that has no account, and nothing otherwise.
pub transfer-balances :
    (now id from to : ℕ) (amount : ℤ) (relay : Option ℕ) (l : Ledger) (tx : Transaction)
    (l' : Ledger)
    → IsKeyed account_key l.accounts
    → transfer now id from to amount relay l ≡ ok (tx, l')
    → balances l' +ℤ unpaid relay tx.fee l ≡ balances l
transfer-balances now id from to amount relay l tx l' h e =
    let p = transfer-Passed now id from to amount relay l tx l' e in
    rw (p.result, p.tx_fee)
      (paid-balances now from to amount relay l h p.sender p.recipient p.covered)
