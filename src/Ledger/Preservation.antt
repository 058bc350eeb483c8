-- ===== src/Ledger/Preservation.antt =====
-- The operations on balances keep the ledger sound.
use pando.Common.{ℕ, ◌≡◌, inl, inr, Option, none, some, List, arith, Bool-cases, ap}
use pando.Common.Int.{ℤ, pos, ◌+ℤ◌, ◌≤ℤ◌, ltb_ℤ, int_laws, ≤ℤ_of_eq}
use pando.Common.Table.{sum}
use pando.Common.Result.{ok}
use pando.Ledger.Types.{Transaction, WorkType, Ledger}
use pando.Ledger.Accounts.{exists, add_balance, subtract_balance}
use pando.Ledger.Transactions.{transfer, relay_fee, pay_relay}
use pando.Ledger.Contributions.{reward_work, reward}
use pando.Ledger.Balances.{balance_of, balances}
use pando.Ledger.Transfers.{transfer-Passed, transfer-balances, unpaid, paid}
use pando.Ledger.Emissions.{Minted, emit-Minted}
use pando.Ledger.Debits.{deficits_of, deficit_of}
use pando.Ledger.Soundness.{IsSound, IsSolvent, add_balance-IsSolvent, subtract_balance-IsSolvent}
use pando.Ledger.Backing.{add_balance-le}

pay_relay-IsSolvent :
    (now : ℕ) (amount : ℤ) (relay : Option ℕ) (l : Ledger)
    → IsSolvent l.accounts
    → IsSolvent (pay_relay now (relay_fee amount relay) relay l).accounts
unfolding pay_relay
pay_relay-IsSolvent now amount none l s = s
pay_relay-IsSolvent now amount (some relay) l s =
    elim (Bool-cases (ltb_ℤ (pos 0) (relay_fee amount (some relay)))) [
      | inl due ↦
          rw due (add_balance-IsSolvent now relay (relay_fee amount (some relay)) l (omega arith) s)
      | inr nothing ↦ rw nothing s
    ]

paid-same :
    (now from to : ℕ) (amount : ℤ) (relay : Option ℕ) (l : Ledger)
    → ((paid now from to amount relay l).total_supply ≡ l.total_supply)
      × ((paid now from to amount relay l).deficits ≡ l.deficits)
unfolding pay_relay add_balance subtract_balance
paid-same now from to amount none l = ground arith
paid-same now from to amount (some relay) l = ground arith

unpaid_nonneg :
    (amount : ℤ) (relay : Option ℕ) (l : Ledger) → pos 0 ≤ℤ unpaid relay (relay_fee amount relay) l
unpaid_nonneg amount none l = omega arith
unpaid_nonneg amount (some relay) l = ground arith

sound_sum :
    (b b' lost supply d : ℤ)
    → b' +ℤ lost ≤ℤ b
    → pos 0 ≤ℤ lost
    → b ≤ℤ supply +ℤ d
    → b' ≤ℤ supply +ℤ d
sound_sum b b' lost supply d p q r = omega int_laws

pub transfer-IsSound :
    (now id from to : ℕ) (amount : ℤ) (relay : Option ℕ) (l : Ledger) (tx : Transaction)
    (l' : Ledger)
    → IsSound l
    → transfer now id from to amount relay l ≡ ok (tx, l')
    → IsSound l'
transfer-IsSound now id from to amount relay l tx l' s e =
    let p = transfer-Passed now id from to amount relay l tx l' e in
    let same = paid-same now from to amount relay l in
    let fee = relay_fee amount relay in
    let debited = (subtract_balance now from (amount +ℤ fee) l).1 in
    record {
      solvent = rw p.result (
          pay_relay-IsSolvent now amount relay (add_balance now to amount debited) (
            add_balance-IsSolvent now to amount debited (let q = p.positive in ground arith)
              (subtract_balance-IsSolvent now from (amount +ℤ fee) l s.solvent)));
      capped = rw (p.result, same.0) s.capped;
      backed =
          rw
            (
              ap (λ (m : Ledger). m.total_supply) p.result,
              ap (λ (m : Ledger). deficits_of m) p.result,
              same.0,
              same.1,
            )
            (sound_sum (balances l) (balances l') (unpaid relay tx.fee l) l.total_supply
              (deficits_of l)
              (≤ℤ_of_eq (transfer-balances now id from to amount relay l tx l' s.solvent.keyed e))
              (rw p.tx_fee (unpaid_nonneg amount relay l)) s.backed);
    }

minted_sum :
    (b b' made supply d : ℤ) → b' ≤ℤ b +ℤ made → b ≤ℤ supply +ℤ d → b' ≤ℤ supply +ℤ made +ℤ d
minted_sum b b' made supply d p q = omega int_laws

pub Minted-IsSound :
    (now to : ℕ) (amount : ℤ) (l : Ledger) (tx : Transaction) (l' : Ledger)
    → Minted now to amount l tx l'
    → IsSound l
    → IsSound l'
Minted-IsSound now to amount l tx l' m s = record {
  solvent =
      rw m.accounts
        (add_balance-IsSolvent now to tx.amount l (let g = m.gains in omega arith) s.solvent);
  capped = m.capped;
  backed =
      rw (ap (sum balance_of) m.accounts, m.supply, ap (sum deficit_of) m.deficits)
        (minted_sum (balances l) (balances (add_balance now to tx.amount l)) tx.amount
          l.total_supply (deficits_of l)
          (add_balance-le now to tx.amount l s.solvent.keyed (let g = m.gains in omega arith))
          s.backed);
}

-- rewards of any kind of work
pub reward_work-Minted :
    (now id peer : ℕ) (work : WorkType) (proof : List ℕ) (l : Ledger) (tx : Transaction)
    (l' : Ledger)
    → reward_work now id peer work proof l ≡ ok (tx, l')
    → Minted now peer (reward work l) l tx l'
unfolding reward_work
reward_work-Minted now id peer work proof l tx l' e = elim (Bool-cases (exists peer l)) [
  | inl known ↦ emit-Minted now id peer (reward work l) work proof l tx l' (rw known at e)
  | inr unknown ↦ cc (rw unknown at e)
]

pub reward_work-IsSound :
    (now id peer : ℕ) (work : WorkType) (proof : List ℕ) (l : Ledger) (tx : Transaction)
    (l' : Ledger)
    → IsSound l
    → reward_work now id peer work proof l ≡ ok (tx, l')
    → IsSound l'
reward_work-IsSound now id peer work proof l tx l' s e =
    Minted-IsSound now peer (reward work l) l tx l'
      (reward_work-Minted now id peer work proof l tx l' e) s
