-- ===== src/Payment/Runs.antt =====
-- New holds, and every run of the payment gate: no Lux is made or lost.
use pando.Common.{
  ℕ, ◌≡◌, refl, inl, inr, true, false, none, List, [], ◌∷◌, ◌++◌, keep_if, arith, Bool-cases,
  Option-cases, ap, ◌∙◌,
}
use pando.Common.Int.{ℤ, pos, ◌+ℤ◌, ltb_ℤ, leb_ℤ, int_laws}
use pando.Common.Table.{find, put, sum}
use pando.Common.Table.Laws.{sum-put_new, put-IsKeyed, Each-put}
use pando.Ledger.Types.{Ledger, account_key}
use pando.Ledger.Accounts.{exists, get_balance, subtract_balance}
use pando.Ledger.Balances.{balances}
use pando.Ledger.Debits.{subtract_balance-done, subtract_balance-balances, exists-subtract_balance}
use pando.Ledger.Soundness.{subtract_balance-IsSolvent}
use pando.Payment.Gate.{
  PaymentHold, payment, take_payment, hold_after, can_afford, cleanup, stays, payment_record, Gate,
  hold_key, is_held, expire_stale_holds, hold_payment, release_payment, refund_payment, amount_if,
  new_hold,
}
use pando.Payment.Expiry.{
  IsFunded, IsSettled, total, IsFunded-same, find-expire_from, expire_from-IsSettled,
  expire_from-total,
}
use pando.Payment.Escrow.{
  no_loss, release_payment-IsSettled, refund_payment-IsSettled, release_payment-total,
  refund_payment-total,
}

-- the payer of a new hold has an account, since an unknown balance is 0
payer-exists :
    (peer : ℕ) (amount : ℤ) (l : Ledger)
    → leb_ℤ amount (pos 0) ≡ false
    → ltb_ℤ (get_balance peer l) amount ≡ false
    → exists peer l ≡ true
unfolding get_balance exists
payer-exists peer amount l p c = elim (Option-cases (find account_key peer l.accounts)) [
  | inl missing ↦ ground arith
  | inr (a, found) ↦ rw found
]

taken_sum : (bf b a r rf : ℤ) → bf +ℤ a ≡ b → rf ≡ r +ℤ a → bf +ℤ rf ≡ b +ℤ r
taken_sum bf b a r rf p q = grind int_laws

-- a debit that goes through
take_payment_lem :
    (now id peer task : ℕ) (amount : ℤ) (g : Gate)
    → leb_ℤ amount (pos 0) ≡ false
    → IsSettled g.holds g.ledger
    → find hold_key id g.holds ≡ none
    → let g' = (take_payment now id peer task amount g).1 in
      IsSettled g'.holds g'.ledger × (total g'.holds g'.ledger ≡ total g.holds g.ledger)
unfolding take_payment can_afford
take_payment_lem now id peer task amount g p s fresh =
    elim (Bool-cases (ltb_ℤ (get_balance peer g.ledger) amount)) [
      | inl short ↦
          let refused : take_payment now id peer task amount g ≡ (none, g) = ground arith in
          rw refused (s, refl)
      | inr covered ↦
          let debited = (subtract_balance now peer amount g.ledger).1 in
          let hold = new_hold now id peer task amount in
          let known = payer-exists peer amount g.ledger p covered in
          let same = λ (j : ℕ). exists-subtract_balance now j peer amount g.ledger in
          let taken : (take_payment now id peer task amount g).1 ≡ record {
            ledger = debited;
            holds = put hold_key hold g.holds;
            history = g.history ++ payment_record now payment peer hold ∷ [];
          } =
            ground (arith, subtract_balance-done now peer amount g.ledger covered) in
          rw taken (
            record {
              solvent = subtract_balance-IsSolvent now peer amount g.ledger s.solvent;
              keyed = put-IsKeyed hold_key hold g.holds s.keyed;
              funded =
                  Each-put hold_key (IsFunded debited) hold g.holds
                    (ground arith, rw (same peer ∙ known))
                    (IsFunded-same g.ledger debited g.holds same s.funded);
            },
            taken_sum (balances debited) (balances g.ledger) amount
                (sum (amount_if is_held) g.holds)
                (sum (amount_if is_held) (put hold_key hold g.holds))
                (subtract_balance-balances now peer amount g.ledger s.solvent.keyed known covered)
                (sum-put_new hold_key (amount_if is_held) hold g.holds fresh),
          )
    ]

plus_nothing : (a b : ℤ) → a ≡ b +ℤ pos 0 → a ≡ b
plus_nothing a b h = grind int_laws

hold_after_lem :
    (now id peer task : ℕ) (amount : ℤ) (g : Gate)
    → IsSettled g.holds g.ledger
    → find hold_key id g.holds ≡ none
    → let g' = (hold_after now id peer task amount g).1 in
      IsSettled g'.holds g'.ledger × (total g'.holds g'.ledger ≡ total g.holds g.ledger)
unfolding hold_after
hold_after_lem now id peer task amount g s fresh = elim (Bool-cases (leb_ℤ amount (pos 0))) [
  | inl nothing ↦
      let hold = new_hold now id peer task (pos 0) in
      rw nothing (
        record {
          solvent = s.solvent;
          keyed = put-IsKeyed hold_key hold g.holds s.keyed;
          funded =
              Each-put hold_key (IsFunded g.ledger) hold g.holds (omega arith, ground arith)
                s.funded;
        },
        ap (λ (r : ℤ). balances g.ledger +ℤ r)
            (plus_nothing _ _ (sum-put_new hold_key (amount_if is_held) hold g.holds fresh)),
      )
  | inr due ↦ rw due (take_payment_lem now id peer task amount g due s fresh)
]

expire_stale_holds_lem :
    (now : ℕ) (g : Gate)
    → IsSettled g.holds g.ledger
    → let g' = expire_stale_holds now g in
      IsSettled g'.holds g'.ledger × (total g'.holds g'.ledger ≡ total g.holds g.ledger)
unfolding expire_stale_holds
expire_stale_holds_lem now g s = (
  expire_from-IsSettled now g.holds g.ledger g.history s,
  expire_from-total now g.holds g.ledger g.history s,
)

find-expire_stale_holds :
    (now id : ℕ) (g : Gate)
    → find hold_key id g.holds ≡ none
    → find hold_key id (expire_stale_holds now g).holds ≡ none
unfolding expire_stale_holds
find-expire_stale_holds now id g fresh = find-expire_from now id g.holds g.ledger g.history fresh

-- From a state in which every balance and every hold is sound, a hold moves its amount from the
-- payer's balance to the escrow, and first returns the stale holds: the state stays sound and the
-- sum of balances and escrow the same. The new hold's id is not in use.
pub hold_payment-total :
    (now id peer task : ℕ) (amount : ℤ) (g : Gate)
    → IsSettled g.holds g.ledger
    → find hold_key id g.holds ≡ none
    → let g' = (hold_payment now id peer task amount g).1 in
      IsSettled g'.holds g'.ledger × (total g'.holds g'.ledger ≡ total g.holds g.ledger)
unfolding hold_payment
hold_payment-total now id peer task amount g s fresh =
    let e = expire_stale_holds_lem now g s in
    let h =
      hold_after_lem now id peer task amount (expire_stale_holds now g) e.0
        (find-expire_stale_holds now id g fresh) in
    (h.0, h.1 ∙ e.1)

-- the cleanup drops settled holds only
pub kept_none :
    (now k : ℕ) (holds : List PaymentHold)
    → find hold_key k holds ≡ none
    → find hold_key k (keep_if (stays now) holds) ≡ none
kept_none now k [] e = refl
kept_none now k (h ∷ holds) e = ground (arith, kept_none now k holds)

kept_sum : (b x k k' : ℤ) → b +ℤ k' ≡ b +ℤ k → b +ℤ (x +ℤ k') ≡ b +ℤ (x +ℤ k)
kept_sum b x k k' h = grind int_laws

dropped_sum : (b x k k' : ℤ) → x ≡ pos 0 → b +ℤ k' ≡ b +ℤ k → b +ℤ k' ≡ b +ℤ (x +ℤ k)
dropped_sum b x k k' z h = grind int_laws

kept-IsSettled :
    (now : ℕ) (holds : List PaymentHold) (l : Ledger)
    → IsSettled holds l
    → IsSettled (keep_if (stays now) holds) l
      × (total (keep_if (stays now) holds) l ≡ total holds l)
kept-IsSettled now [] l s = (s, refl)
kept-IsSettled now (h ∷ holds) l s =
    let rest =
      kept-IsSettled now holds l
        (record { solvent = s.solvent; keyed = s.keyed.1; funded = s.funded.1 }) in
    elim (Bool-cases (stays now h)) [
      | inl kept ↦ rw kept (
        record {
          solvent = s.solvent;
          keyed = (kept_none now h.hold_id holds s.keyed.0, rest.0.keyed);
          funded = (s.funded.0, rest.0.funded);
        },
        kept_sum (balances l) (amount_if is_held h) _ _ rest.1,
      )
      | inr dropped ↦
          let settled : is_held h.status ≡ false = ground arith in
          rw dropped
            (rest.0, dropped_sum (balances l) (amount_if is_held h) _ _ (rw settled) rest.1)
    ]

-- one call of the gate; a new hold's id is not in use, and a recipient has an account
pub data GateStep : Gate → Gate → Type 0 where
  holds_payment :
      (now id peer task : ℕ) (amount : ℤ) {g : Gate}
      → find hold_key id g.holds ≡ none
      → GateStep g (hold_payment now id peer task amount g).1
  releases :
      (now id recipient : ℕ) {g : Gate}
      → exists recipient g.ledger ≡ true
      → GateStep g (release_payment now id recipient g).1
  refunds : (now id : ℕ) {g : Gate} → GateStep g (refund_payment now id g).1
  expires : (now : ℕ) {g : Gate} → GateStep g (expire_stale_holds now g)
  cleans : (now : ℕ) {g : Gate} → GateStep g (cleanup now g)

pub data GateRun (start : Gate) : Gate → Type 0 where
  here : GateRun start start
  next : {g g' : Gate} → GateRun start g → GateStep g g' → GateRun start g'

pub GateStep_lem :
    {g g' : Gate}
    → GateStep g g'
    → IsSettled g.holds g.ledger
    → IsSettled g'.holds g'.ledger × (total g'.holds g'.ledger ≡ total g.holds g.ledger)
unfolding cleanup
GateStep_lem (holds_payment now id peer task amount {g} fresh) s =
    hold_payment-total now id peer task amount g s fresh
GateStep_lem (releases now id recipient {g} known) s = (
  release_payment-IsSettled now id recipient g s,
  let e = release_payment-total now id recipient g s in no_loss _ _ (rw known at e),
)
GateStep_lem (refunds now id {g}) s =
    (refund_payment-IsSettled now id g s, refund_payment-total now id g s)
GateStep_lem (expires now {g}) s = expire_stale_holds_lem now g s
GateStep_lem (cleans now {g}) s = kept-IsSettled now g.holds g.ledger s

-- Over every run of holds, releases, refunds, expiries and cleanups, from a state in which every
-- balance and every hold is sound, balances and escrow together keep exactly their sum, and stay
-- sound. New holds have new ids and recipients have accounts.
pub GateRun-total :
    (start g : Gate)
    → GateRun start g
    → IsSettled start.holds start.ledger
    → IsSettled g.holds g.ledger × (total g.holds g.ledger ≡ total start.holds start.ledger)
GateRun-total start g here s = (s, refl)
GateRun-total start g' (next {g} r st) s =
    let before = GateRun-total start g r s in
    let after = GateStep_lem st before.0 in (after.0, after.1 ∙ before.1)
