-- ===== src/Payment/Escrow.antt =====
-- The escrow keeps every Lux: what leaves a balance is held, and what is held goes back to one.
use pando.Common.{ℕ, ◌≡◌, refl, inl, inr, true, false, none, some, Bool-cases, Option-cases, sym}
use mathlib.Core.Path.{subst}
use pando.Common.Int.{ℤ, pos, ◌+ℤ◌, int_laws}
use pando.Common.Table.{find, update, sum}
use pando.Common.Table.Laws.{sum-update, update-IsKeyed, Each-update, Each-find, key-find}
use pando.Ledger.Accounts.{exists}
use pando.Ledger.Balances.{balances}
use pando.Payment.Gate.{
  PaymentHold, HoldStatus, released, refunded, PaymentKind, earning, refund, Gate, hold_key,
  is_held, pay_out, set_status, settle, release_payment, refund_payment, amount_if,
}
use pando.Payment.Expiry.{
  IsFunded, IsSettled, total, lost, pay_out-IsSolvent, pay_out-exists, pay_out-balances,
  IsFunded-same,
}

regroup :
    (bf miss b a rf r : ℤ) → bf +ℤ miss ≡ b +ℤ a → rf +ℤ a ≡ r +ℤ pos 0 → bf +ℤ rf +ℤ miss ≡ b +ℤ r
regroup bf miss b a rf r p q = grind int_laws

pub no_loss : (b c : ℤ) → b +ℤ pos 0 ≡ c → b ≡ c
no_loss b c h = grind int_laws

-- settling a hold that is held: its share leaves the escrow
settle-total :
    (now : ℕ) (status : HoldStatus) (kind : PaymentKind) (peer : ℕ) (h : PaymentHold) (g : Gate)
    → IsSettled g.holds g.ledger
    → find hold_key h.hold_id g.holds ≡ some h
    → is_held h.status ≡ true
    → is_held status ≡ false
    → total (settle now status kind peer h g).holds (settle now status kind peer h g).ledger
        +ℤ lost peer h.amount g.ledger
      ≡ total g.holds g.ledger
unfolding settle
settle-total now status kind peer h g s found was is =
    let funded = Each-find hold_key (IsFunded g.ledger) h.hold_id g.holds s.funded found in
    let paid = pay_out-balances now peer h.amount g.ledger s.solvent.keyed funded.0 in
    let moved =
      sum-update hold_key (amount_if is_held) h.hold_id (set_status now status) g.holds s.keyed
        found in
    regroup (balances (pay_out now peer h.amount g.ledger)) (lost peer h.amount g.ledger)
      (balances g.ledger) h.amount
      (sum (amount_if is_held) (update hold_key h.hold_id (set_status now status) g.holds))
      (sum (amount_if is_held) g.holds) paid (rw (was, is) at moved)

pub settle-IsSettled :
    (now : ℕ) (status : HoldStatus) (kind : PaymentKind) (peer : ℕ) (h : PaymentHold) (g : Gate)
    → IsSettled g.holds g.ledger
    → IsSettled (settle now status kind peer h g).holds (settle now status kind peer h g).ledger
unfolding settle
settle-IsSettled now status kind peer h g s =
    let l = pay_out now peer h.amount g.ledger in
    record {
      solvent = pay_out-IsSolvent now peer h.amount g.ledger s.solvent;
      keyed = update-IsKeyed hold_key h.hold_id (set_status now status) g.holds (λ r. refl) s.keyed;
      funded =
          Each-update hold_key (IsFunded l) h.hold_id (set_status now status) g.holds (λ r f. f)
            (IsFunded-same g.ledger l g.holds (λ j. pay_out-exists now j peer h.amount g.ledger)
              s.funded);
    }

at_own_key :
    (id : ℕ) (g : Gate) (h : PaymentHold)
    → find hold_key id g.holds ≡ some h
    → find hold_key h.hold_id g.holds ≡ some h
at_own_key id g h found =
    subst (λ k. find hold_key k g.holds ≡ some h) (sym (key-find hold_key id g.holds found)) found

-- what the hold `id` still holds
abbrev pub held_amount : ℕ → Gate → ℤ
held_amount id g = elim (find hold_key id g.holds) [ none ↦ pos 0 | some h ↦ amount_if is_held h ]

-- a call that finds no held hold leaves the gate
unheld-total :
    (peer : ℕ) (amount : ℤ) (g : Gate)
    → amount ≡ pos 0
    → total g.holds g.ledger +ℤ lost peer amount g.ledger ≡ total g.holds g.ledger
unheld-total peer amount g z = rw z (elim (Bool-cases (exists peer g.ledger)) [
  | inl known ↦ rw known (omega int_laws)
  | inr unknown ↦ rw unknown (omega int_laws)
])

-- From a state in which every balance and every hold is sound, a release moves the held amount from
-- the escrow to the recipient's balance: the sum of balances and escrow stays the same, less that
-- amount if the recipient has no account.
pub release_payment-total :
    (now id recipient : ℕ) (g : Gate)
    → IsSettled g.holds g.ledger
    → let g' = (release_payment now id recipient g).1 in
      total g'.holds g'.ledger +ℤ lost recipient (held_amount id g) g.ledger
      ≡ total g.holds g.ledger
unfolding release_payment
release_payment-total now id recipient g s = elim (Option-cases (find hold_key id g.holds)) [
  | inl missing ↦
      let same : release_payment now id recipient g ≡ (false, g) = rw (missing, release_payment) in
      let none_held : held_amount id g ≡ pos 0 = rw (missing, held_amount) in
      rw (same, none_held) (unheld-total recipient (pos 0) g refl)
  | inr (h, found) ↦ elim (Bool-cases (is_held h.status)) [
    | inl open_hold ↦
        let paid : release_payment now id recipient g
            ≡ (true, settle now released earning recipient h g) =
          rw (found, open_hold, release_payment) in
        let all_held : held_amount id g ≡ h.amount = rw (found, open_hold, held_amount) in
        rw (paid, all_held)
          (settle-total now released earning recipient h g s (at_own_key id g h found) open_hold
            refl)
    | inr closed ↦
        let same : release_payment now id recipient g ≡ (false, g) =
          rw (found, closed, release_payment) in
        let none_held : held_amount id g ≡ pos 0 = rw (found, closed, held_amount) in
        rw (same, none_held) (unheld-total recipient (pos 0) g refl)
  ]
]

-- From a state in which every balance and every hold is sound, a refund moves the held amount from
-- the escrow back to its payer's balance: the sum of balances and escrow stays the same.
pub refund_payment-total :
    (now id : ℕ) (g : Gate)
    → IsSettled g.holds g.ledger
    → let g' = (refund_payment now id g).1 in total g'.holds g'.ledger ≡ total g.holds g.ledger
unfolding refund_payment
refund_payment-total now id g s = elim (Option-cases (find hold_key id g.holds)) [
  | inl missing ↦ rw (missing, refund_payment)
  | inr (h, found) ↦ elim (Bool-cases (is_held h.status)) [
    | inl open_hold ↦
        rw (found, open_hold, refund_payment)
          (let funded = Each-find hold_key (IsFunded g.ledger) id g.holds s.funded found in
            let e =
              settle-total now refunded refund h.peer_id h g s (at_own_key id g h found) open_hold
                refl in
            no_loss _ _ (rw funded.1 at e))
    | inr closed ↦ rw (found, closed, refund_payment)
  ]
]

pub release_payment-IsSettled :
    (now id recipient : ℕ) (g : Gate)
    → IsSettled g.holds g.ledger
    → let g' = (release_payment now id recipient g).1 in IsSettled g'.holds g'.ledger
unfolding release_payment
release_payment-IsSettled now id recipient g s = elim (Option-cases (find hold_key id g.holds)) [
  | inl missing ↦ rw (missing, release_payment) s
  | inr (h, found) ↦ elim (Bool-cases (is_held h.status)) [
    | inl open_hold ↦
        rw (found, open_hold, release_payment)
          (settle-IsSettled now released earning recipient h g s)
    | inr closed ↦ rw (found, closed, release_payment) s
  ]
]

pub refund_payment-IsSettled :
    (now id : ℕ) (g : Gate)
    → IsSettled g.holds g.ledger
    → let g' = (refund_payment now id g).1 in IsSettled g'.holds g'.ledger
unfolding refund_payment
refund_payment-IsSettled now id g s = elim (Option-cases (find hold_key id g.holds)) [
  | inl missing ↦ rw (missing, refund_payment) s
  | inr (h, found) ↦ elim (Bool-cases (is_held h.status)) [
    | inl open_hold ↦
        rw (found, open_hold, refund_payment) (settle-IsSettled now refunded refund h.peer_id h g s)
    | inr closed ↦ rw (found, closed, refund_payment) s
  ]
]
