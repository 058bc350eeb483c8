-- ===== src/Ledger/Backing.antt =====
-- A remote transaction makes no Lux: what it credits is debited, minted, or recorded as a deficit.
use pando.Common.{
  ℕ, ◌≡◌, inl, inr, true, false, not, ◌&&◌, Option, none, some, arith, ◌==◌, if◌then◌else◌,
  Option-cases, Bool-cases,
}
use pando.Common.Int.{ℤ, pos, ◌+ℤ◌, ◌-ℤ◌, ◌≤ℤ◌, ltb_ℤ, leb_ℤ, int_laws, +ℤ-nonneg, ≤ℤ_of_eq}
use pando.Common.Table.{IsKeyed}
use pando.Common.Result.{ok}
use pando.Ledger.Types.{
  Transaction, is_emission, Ledger, account_key, lux_hard_cap, network_account,
}
use pando.Ledger.Accounts.{exists, add_balance, force_subtract_balance}
use pando.Ledger.Transactions.{
  apply_remote_transaction, debit_sender, credit_relay, count_supply, clamp_remote, clamp_emission,
  is_over_cap,
}
use pando.Ledger.Balances.{balances, add_balance-balances}
use pando.Ledger.Debits.{deficits_of, force_subtract_balance-balances}
use pando.Ledger.Soundness.{
  IsSound, IsSolvent, add_balance-IsSolvent, force_subtract_balance-IsSolvent,
}
use pando.Ledger.Remote.{settled, written, is_skipped, apply_or_skip}

-- what the sync layer checks of a received transaction, and that an emission charges no fee
pub record IsHonest (tx : Transaction) : Type 0 where
  pub amount : pos 0 ≤ℤ tx.amount
  pub fee : pos 0 ≤ℤ tx.fee
  pub sender : is_emission tx.type ≡ false → (tx.from == network_account) ≡ false
  pub free : is_emission tx.type ≡ true → tx.fee ≡ pos 0

-- what a transaction takes from its sender
abbrev debit : Transaction → ℤ
debit tx = if is_emission tx.type then pos 0 else tx.amount +ℤ tx.fee

debit_sender-IsSolvent :
    (now : ℕ) (tx : Transaction) (l : Ledger)
    → IsSolvent l.accounts
    → IsSolvent (debit_sender now tx l).accounts
unfolding debit_sender
debit_sender-IsSolvent now tx l s =
    elim (Bool-cases (not (is_emission tx.type) && not (tx.from == network_account))) [
      | inl debited ↦
          rw debited (force_subtract_balance-IsSolvent now tx.from (tx.amount +ℤ tx.fee) l s)
      | inr free ↦ rw free s
    ]

debit_sender-balances :
    (now : ℕ) (tx : Transaction) (l : Ledger)
    → IsHonest tx
    → IsKeyed account_key l.accounts
    → balances (debit_sender now tx l) +ℤ debit tx +ℤ deficits_of l
      ≡ balances l +ℤ deficits_of (debit_sender now tx l)
unfolding debit_sender
debit_sender-balances now tx l t h = elim (Bool-cases (is_emission tx.type)) [
  | inl minted ↦ rw minted (omega int_laws)
  | inr moved ↦
      rw (moved, t.sender moved)
        (force_subtract_balance-balances now tx.from (tx.amount +ℤ tx.fee) l h
          (+ℤ-nonneg tx.amount tx.fee t.amount t.fee))
]

credit_relay-IsSolvent :
    (now : ℕ) (tx : Transaction) (relay : Option ℕ) (l : Ledger)
    → pos 0 ≤ℤ tx.fee
    → IsSolvent l.accounts
    → IsSolvent (credit_relay now tx relay l).accounts
unfolding credit_relay
credit_relay-IsSolvent now tx none l p s = s
credit_relay-IsSolvent now tx (some relay) l p s =
    elim (Bool-cases (ltb_ℤ (pos 0) tx.fee && exists relay l)) [
      | inl paid ↦ rw paid (add_balance-IsSolvent now relay tx.fee l p s)
      | inr unpaid ↦ rw unpaid s
    ]

-- a credit adds at most its amount
pub add_balance-le :
    (now peer : ℕ) (amount : ℤ) (l : Ledger)
    → IsKeyed account_key l.accounts
    → pos 0 ≤ℤ amount
    → balances (add_balance now peer amount l) ≤ℤ balances l +ℤ amount
add_balance-le now peer amount l h p = grind (int_laws, add_balance-balances now peer amount l h)

credit_relay-le :
    (now : ℕ) (tx : Transaction) (relay : Option ℕ) (l : Ledger)
    → IsKeyed account_key l.accounts
    → pos 0 ≤ℤ tx.fee
    → balances (credit_relay now tx relay l) ≤ℤ balances l +ℤ tx.fee
unfolding credit_relay
credit_relay-le now tx none l h p = omega int_laws
credit_relay-le now tx (some relay) l h p =
    elim (Bool-cases (ltb_ℤ (pos 0) tx.fee && exists relay l)) [
      | inl paid ↦ rw paid (add_balance-le now relay tx.fee l h p)
      | inr unpaid ↦ rw unpaid (omega int_laws)
    ]

-- credits record no deficit and mint nothing
credits-deficits :
    (now : ℕ) (tx : Transaction) (l : Ledger)
    → deficits_of (settled now tx l) ≡ deficits_of (debit_sender now tx l)
unfolding credit_relay add_balance
credits-deficits now tx l = elim (Option-cases tx.relay) [
  | inl direct ↦ rw direct
  | inr (relay, e) ↦ rw e (ground arith)
]

pub settled-total_supply :
    (now : ℕ) (tx : Transaction) (l : Ledger) → (settled now tx l).total_supply ≡ l.total_supply
unfolding credit_relay add_balance debit_sender force_subtract_balance
settled-total_supply now tx l = elim (Option-cases tx.relay) [
  | inl direct ↦ rw direct (ground arith)
  | inr (relay, e) ↦ rw e (ground arith)
]

-- what is minted: the amount of an emission
abbrev pub minted : Transaction → ℤ
minted tx = if is_emission tx.type then tx.amount else pos 0

settled-IsSolvent :
    (now : ℕ) (tx : Transaction) (l : Ledger)
    → IsHonest tx
    → IsSolvent l.accounts
    → IsSolvent (settled now tx l).accounts
settled-IsSolvent now tx l t s =
    credit_relay-IsSolvent now tx tx.relay (add_balance now tx.to tx.amount (debit_sender now tx l))
      t.fee
      (add_balance-IsSolvent now tx.to tx.amount (debit_sender now tx l) t.amount
        (debit_sender-IsSolvent now tx l s))

-- a debit, a credit and a fee in sequence
settle_sum :
    (bs bc bd bl ds dl amount fee taken made : ℤ)
    → bd +ℤ taken +ℤ dl ≤ℤ bl +ℤ ds
    → bc ≤ℤ bd +ℤ amount
    → bs ≤ℤ bc +ℤ fee
    → amount +ℤ fee ≤ℤ taken +ℤ made
    → bs +ℤ dl ≤ℤ bl +ℤ made +ℤ ds
settle_sum bs bc bd bl ds dl amount fee taken made p q r s = omega int_laws

-- what is credited is taken or made
debit-minted : (tx : Transaction) → IsHonest tx → tx.amount +ℤ tx.fee ≤ℤ debit tx +ℤ minted tx
debit-minted tx t = elim (Bool-cases (is_emission tx.type)) [
  | inl emitted ↦ rw (emitted, t.free emitted) (omega int_laws)
  | inr moved ↦ rw moved (omega int_laws)
]

settled-le :
    (now : ℕ) (tx : Transaction) (l : Ledger)
    → IsHonest tx
    → IsSolvent l.accounts
    → balances (settled now tx l) +ℤ deficits_of l
      ≤ℤ balances l +ℤ minted tx +ℤ deficits_of (settled now tx l)
settled-le now tx l t s =
    let d = debit_sender now tx l in
    let c = add_balance now tx.to tx.amount d in
    let sd = debit_sender-IsSolvent now tx l s in
    let sc = add_balance-IsSolvent now tx.to tx.amount d t.amount sd in
    rw (credits-deficits now tx l) (
      settle_sum (balances (settled now tx l)) (balances c) (balances d) (balances l)
        (deficits_of d) (deficits_of l) tx.amount tx.fee (debit tx) (minted tx)
        (≤ℤ_of_eq (debit_sender-balances now tx l t s.keyed))
        (add_balance-le now tx.to tx.amount d sd.keyed t.amount)
        (credit_relay-le now tx tx.relay c sc.keyed t.fee) (debit-minted tx t))

-- the clamped amount of an emission
clamp_emission-capped : (amount supply : ℤ) → supply +ℤ clamp_emission amount supply ≤ℤ lux_hard_cap
clamp_emission-capped amount supply = elim (Bool-cases (ltb_ℤ lux_hard_cap (supply +ℤ amount))) [
  | inl over ↦ rw over (omega int_laws)
  | inr within ↦ rw within (ground arith)
]

clamp_emission-nonneg :
    (amount supply : ℤ)
    → (ltb_ℤ lux_hard_cap (supply +ℤ amount) && leb_ℤ (lux_hard_cap -ℤ supply) (pos 0)) ≡ false
    → pos 0 ≤ℤ amount
    → pos 0 ≤ℤ clamp_emission amount supply
clamp_emission-nonneg amount supply o p =
    elim (Bool-cases (ltb_ℤ lux_hard_cap (supply +ℤ amount))) [
      | inl over ↦ rw over (let o' = rw over at o in grind arith)
      | inr within ↦ rw within p
    ]

-- an emission within the hard cap stays within it, and loses nothing of its honesty
clamp_remote-capped :
    (tx : Transaction) (l : Ledger)
    → l.total_supply ≤ℤ lux_hard_cap
    → l.total_supply +ℤ minted (clamp_remote tx l) ≤ℤ lux_hard_cap
clamp_remote-capped tx l c = elim (Bool-cases (is_emission tx.type)) [
  | inl emitted ↦ rw (emitted, emitted) (clamp_emission-capped tx.amount l.total_supply)
  | inr moved ↦ rw (moved, moved) (omega int_laws)
]

clamp_remote-IsHonest :
    (tx : Transaction) (l : Ledger)
    → is_over_cap tx l ≡ false
    → IsHonest tx
    → IsHonest (clamp_remote tx l)
clamp_remote-IsHonest tx l o t = elim (Bool-cases (is_emission tx.type)) [
  | inl emitted ↦ rw emitted (record {
    amount = clamp_emission-nonneg tx.amount l.total_supply (rw emitted at o) t.amount;
    fee = t.fee;
    sender = t.sender;
    free = t.free;
  })
  | inr moved ↦ rw moved t
]

pub count_supply_lem :
    (tx : Transaction) (l : Ledger)
    → count_supply tx l ≡ record l { total_supply = l.total_supply +ℤ minted tx }
unfolding count_supply
count_supply_lem tx l = elim (Bool-cases (is_emission tx.type)) [
  | inl emitted ↦ rw emitted
  | inr moved ↦
      rw moved
        (let zero_add : l.total_supply +ℤ pos 0 ≡ l.total_supply = omega int_laws in rw zero_add)
]

back_sum :
    (bs ds bl dl made supply : ℤ)
    → bs +ℤ dl ≤ℤ bl +ℤ made +ℤ ds
    → bl ≤ℤ supply +ℤ dl
    → bs ≤ℤ supply +ℤ made +ℤ ds
back_sum bs ds bl dl made supply p q = omega int_laws

written-IsSound :
    (now : ℕ) (tx : Transaction) (l : Ledger)
    → IsHonest tx
    → l.total_supply +ℤ minted tx ≤ℤ lux_hard_cap
    → IsSound l
    → IsSound (written now tx l)
written-IsSound now tx l t c s = rw (count_supply_lem tx _) (record {
  solvent = settled-IsSolvent now tx l t s.solvent;
  capped = rw (settled-total_supply now tx l) c;
  backed = rw (settled-total_supply now tx l) (
      back_sum (balances (settled now tx l)) (deficits_of (settled now tx l)) (balances l)
        (deficits_of l) (minted tx) l.total_supply (settled-le now tx l t s.solvent) s.backed);
})

-- Receiving a transaction keeps the ledger sound, if its amount and fee are not negative, a
-- transfer does not name the network's account as its sender, and an emission charges no fee.
pub apply_remote_transaction-IsSound :
    (now : ℕ) (tx : Transaction) (l l' : Ledger)
    → IsHonest tx
    → IsSound l
    → apply_remote_transaction now tx l ≡ ok l'
    → IsSound l'
apply_remote_transaction-IsSound now tx l l' t s h = elim (Bool-cases (is_skipped tx l)) [
  | inl skipped ↦
      let same : l ≡ l' = cc (rw (apply_or_skip now tx l, skipped) at h) in rw (← same) s
  | inr fresh ↦
      let done : written now (clamp_remote tx l) l ≡ l' =
        cc (rw (apply_or_skip now tx l, fresh) at h) in
      rw (← done) (
        written-IsSound now (clamp_remote tx l) l (clamp_remote-IsHonest tx l (ground arith) t)
          (clamp_remote-capped tx l s.capped) s)
]
