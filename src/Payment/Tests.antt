-- ===== src/Payment/Tests.antt =====
-- The payment gate's theorems at a gate with one hold.
use pando.Common.{some, ℕ, ◌≡◌, refl, true, false, [], ◌∷◌, arith}
use pando.Common.Int.{ℤ, pos, ◌+ℤ◌, ◌-ℤ◌}
use pando.Ledger.Types.{Account, empty_ledger, lux}
use pando.Ledger.Accounts.{new_account, exists, subtract_balance, get_balance}
use pando.Payment.Gate.{
  Gate, PaymentHold, held, release_payment, refund_payment, hold_payment, hold_after, take_payment,
  can_afford, settle, expire_from, expire_stale_holds,
}
use pando.Payment.Costs.{estimate_cost, CostEstimate, IsTotalled, is_inherited}
use pando.Payment.Costs.{estimate_cost_adds_up}
use pando.Payment.Expiry.{IsSettled, total, lost}
use pando.Payment.Escrow.{held_amount, release_payment-total, refund_payment-total}
use pando.Payment.Runs.{
  hold_payment-total, here, next, holds_payment, releases, refunds, GateRun-total,
}
use pando.Payment.Closing.{Later, none_since, then_call, release_payment_once}

abbrev account : ℕ → ℤ → Account
account peer balance = record (new_account 0 peer 9) { balance = balance }

abbrev hold : PaymentHold
hold = record {
  hold_id = 1;
  peer_id = 5;
  task_id = 8;
  amount = pos (lux 2);
  status = held;
  created_at = 10;
  updated_at = 10;
}

abbrev gate : Gate
gate = record {
  ledger = record empty_ledger { accounts = account 5 (pos (lux 10)) ∷ account 6 (pos 0) ∷ [] };
  holds = hold ∷ [];
  history = [];
}

gate-IsSettled : IsSettled gate.holds gate.ledger
unfolding exists
gate-IsSettled = record {
  solvent = record { keyed = (refl, (refl, tt)); nonneg = (omega arith, (omega arith, tt)) };
  keyed = (refl, tt);
  funded = ((omega arith, refl), tt);
}

abbrev released : Gate
released = (release_payment 20 1 6 gate).1

release_payment-total_example :
    total released.holds released.ledger +ℤ lost 6 (held_amount 1 gate) gate.ledger
    ≡ total gate.holds gate.ledger
release_payment-total_example = release_payment-total 20 1 6 gate gate-IsSettled

refund_payment-total_example :
    let g' = (refund_payment 20 1 gate).1 in total g'.holds g'.ledger ≡ total gate.holds gate.ledger
refund_payment-total_example = refund_payment-total 20 1 gate gate-IsSettled

release_ok : (release_payment 20 1 6 gate).0 ≡ true
unfolding release_payment
release_ok = refl

-- the other hold of the payer is made and refunded before
abbrev busy : Gate
busy = (refund_payment 26 2 (hold_payment 25 2 5 9 (pos (lux 1)) released).1).1

Later-calls : Later 1 released busy
unfolding release_payment settle
Later-calls =
    then_call (then_call none_since (holds_payment 25 2 5 9 (pos (lux 1)) refl) refl) (refunds 26 2)
      refl

release_payment_once_example :
    (release_payment 30 1 5 busy ≡ (false, busy)) × (refund_payment 30 1 busy ≡ (false, busy))
release_payment_once_example =
    release_payment_once 20 30 1 6 5 gate busy gate-IsSettled release_ok Later-calls

abbrev holding : Gate
holding = (hold_payment 20 2 5 9 (pos (lux 3)) gate).1

hold_payment-total_example :
    IsSettled holding.holds holding.ledger
    × (total holding.holds holding.ledger ≡ total gate.holds gate.ledger)
hold_payment-total_example = hold_payment-total 20 2 5 9 (pos (lux 3)) gate gate-IsSettled refl

abbrev finished : Gate
finished = (release_payment 30 2 6 holding).1

recipient_known : exists 6 holding.ledger ≡ true
unfolding hold_payment hold_after take_payment subtract_balance get_balance can_afford
    expire_stale_holds expire_from exists ◌+ℤ◌ ◌-ℤ◌
recipient_known = refl

GateRun-total_example :
    IsSettled finished.holds finished.ledger
    × (total finished.holds finished.ledger ≡ total gate.holds gate.ledger)
GateRun-total_example =
    GateRun-total gate finished
      (next (next here (holds_payment 20 2 5 9 (pos (lux 3)) refl))
        (releases 30 2 6 recipient_known))
      gate-IsSettled

estimate_cost_adds_up_example :
    (e : CostEstimate) × (estimate_cost "complex" "coding" ≡ some e) × IsTotalled e
unfolding is_inherited
estimate_cost_adds_up_example = estimate_cost_adds_up "complex" "coding" refl
