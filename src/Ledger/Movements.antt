-- ===== src/Ledger/Movements.antt =====
-- A transfer account by account.
use pando.Common.{
  ℕ, ◌≡◌, refl, ◌≢◌, inl, inr, Option, none, some, Bool-cases, sym, ap, ◌∙◌, ne_of_==,
}
use pando.Common.Int.{ℤ, pos, ◌+ℤ◌, ◌-ℤ◌, ltb_ℤ}
use pando.Common.Result.{ok}
use pando.Ledger.Types.{Transaction, Ledger}
use pando.Ledger.Accounts.{get_balance, add_balance, subtract_balance}
use pando.Ledger.Transactions.{transfer, relay_fee, pay_relay, add_relay_fees}
use pando.Ledger.Balances.{get_balance-add_balance_self, get_balance-add_balance_ne}
use pando.Ledger.Debits.{
  exists-subtract_balance, get_balance-subtract_balance_self, get_balance-subtract_balance_ne,
}
use pando.Ledger.Transfers.{paid, transfer-Passed}

-- the relay is not the account `j`
abbrev pub IsNotRelay : ℕ → Option ℕ → Type 0
IsNotRelay j none = Unit {0}
IsNotRelay j (some relay) = j ≢ relay

-- the transactions and the counters hold no balance
get_balance-accounts :
    (j : ℕ) (l m : Ledger) → m.accounts ≡ l.accounts → get_balance j m ≡ get_balance j l
unfolding get_balance
get_balance-accounts j l m e = rw e

get_balance-pay_relay_ne :
    (now j : ℕ) (fee : ℤ) (relay : Option ℕ) (l : Ledger)
    → IsNotRelay j relay
    → get_balance j (pay_relay now fee relay l) ≡ get_balance j l
unfolding pay_relay
get_balance-pay_relay_ne now j fee none l n = refl
get_balance-pay_relay_ne now j fee (some relay) l n = elim (Bool-cases (ltb_ℤ (pos 0) fee)) [
  | inl paid_out ↦ rw paid_out (
      get_balance-accounts j (add_balance now relay fee l)
        (add_relay_fees fee (add_balance now relay fee l)) refl
      ∙ get_balance-add_balance_ne now j relay fee l n)
  | inr nothing ↦ rw nothing
]

-- A successful transfer lowers the sender's balance by the amount and the fee, raises the
-- recipient's by the amount, and leaves every other account that is not the relay, if the
-- relay is neither sender nor recipient.
pub transfer-get_balance :
    (now id from to : ℕ) (amount : ℤ) (relay : Option ℕ) (l : Ledger) (tx : Transaction)
    (l' : Ledger) (j : ℕ)
    → transfer now id from to amount relay l ≡ ok (tx, l')
    → IsNotRelay from relay
    → IsNotRelay to relay
    → IsNotRelay j relay
    → j ≢ from
    → j ≢ to
    → (get_balance from l' ≡ get_balance from l -ℤ (amount +ℤ tx.fee))
      × (get_balance to l' ≡ get_balance to l +ℤ amount)
      × (get_balance j l' ≡ get_balance j l)
transfer-get_balance now id from to amount relay l tx l' j e nf nt nj jf jt =
    let p = transfer-Passed now id from to amount relay l tx l' e in
    let debit = amount +ℤ relay_fee amount relay in
    let debited = (subtract_balance now from debit l).1 in
    let credited = add_balance now to amount debited in
    let at = λ (k : ℕ) (n : IsNotRelay k relay).
      get_balance-accounts k (paid now from to amount relay l) l'
        (ap (λ (m : Ledger). m.accounts) p.result)
      ∙ get_balance-pay_relay_ne now k (relay_fee amount relay) relay credited n in
    let ne : from ≢ to = ne_of_== from to p.distinct in
    (
      rw p.tx_fee (
          at from nf
          ∙ get_balance-add_balance_ne now from to amount debited ne
          ∙ get_balance-subtract_balance_self now from debit l p.sender p.covered),
      at to nt
          ∙ get_balance-add_balance_self now to amount debited
              (exists-subtract_balance now to from debit l ∙ p.recipient)
          ∙ ap (λ (b : ℤ). b +ℤ amount)
              (get_balance-subtract_balance_ne now to from debit l (λ same. ne (sym same))),
      at j nj
          ∙ get_balance-add_balance_ne now j to amount debited jt
          ∙ get_balance-subtract_balance_ne now j from debit l jf,
    )
