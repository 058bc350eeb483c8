-- ===== src/Payment/Closing.antt =====
-- A hold of packages/node/src/core/payment-gate.ts that is settled stays settled.
use pando.Common.{
  ℕ, ◌≡◌, ◌≢◌, refl, inl, inr, Bool, true, false, none, some, List, [], ◌∷◌, ◌++◌, ◌==◌, ne_of_==,
  keep_if, arith, sym, Bool-cases, Option-cases,
}
use pando.Common.Int.{ℤ, pos}
use pando.Common.Table.{find, update, put, IsKeyed}
use pando.Common.Table.Laws.{find-put_ne, key-find, find-update_self}
use pando.Ledger.Types.{Ledger}
use pando.Payment.Gate.{
  PaymentHold, PaymentRecord, HoldStatus, released, refunded, Gate, hold_key, is_held, is_stale,
  pay_out, payment_record, refund, set_status, settle, hold_payment, hold_after, take_payment,
  release_payment, refund_payment, expire_from, expire_stale_holds, cleanup, stays, new_hold,
}
use pando.Payment.Expiry.{IsSettled}
use pando.Payment.Escrow.{release_payment-IsSettled}
use pando.Payment.Runs.{
  GateStep, holds_payment, releases, refunds, expires, cleans, GateStep_lem, kept_none,
}

-- whether the hold is there and held
abbrev pub is_open : ℕ → List PaymentHold → Bool
is_open id holds = elim (find hold_key id holds) [ none ↦ false | some h ↦ is_held h.status ]

-- whether the call makes a hold of this id
abbrev pub reuses : ℕ → {g g' : Gate} → GateStep g g' → Bool
reuses id (holds_payment now j peer task amount fresh) = j == id
reuses id (releases now j recipient known) = false
reuses id (refunds now j) = false
reuses id (expires now) = false
reuses id (cleans now) = false

-- calls of the gate, none of which makes a hold of this id
pub data Later (id : ℕ) (g : Gate) : Gate → Type 0 where
  none_since : Later id g g
  then_call :
      {g' g'' : Gate} → Later id g g' → (s : GateStep g' g'') → reuses id s ≡ false → Later id g g''

update_closed :
    (now id k : ℕ) (st : HoldStatus) (holds : List PaymentHold)
    → is_held st ≡ false
    → is_open id holds ≡ false
    → is_open id (update hold_key k (set_status now st) holds) ≡ false
update_closed now id k st [] e h = refl
update_closed now id k st (x ∷ holds) e h = ground (arith, update_closed now id k st holds)

expire_closed :
    (now id : ℕ) (holds : List PaymentHold) (l : Ledger) (history : List PaymentRecord)
    → is_open id holds ≡ false
    → is_open id (expire_from now holds l history).0 ≡ false
unfolding expire_from
expire_closed now id [] l history h = refl
expire_closed now id (x ∷ holds) l history h = elim (Bool-cases (x.hold_id == id)) [
  | inl same ↦ ground arith
  | inr other ↦
      let tail : is_open id holds ≡ false = ground arith in
      elim (Bool-cases (is_stale now x)) [
        | inl old ↦
            let rest =
              expire_closed now id holds (pay_out now x.peer_id x.amount l)
                (history ++ payment_record now refund x.peer_id x ∷ []) tail in
            ground arith
        | inr fresh ↦ let rest = expire_closed now id holds l history tail in ground arith
      ]
]

put_closed :
    (id : ℕ) (new : PaymentHold) (holds : List PaymentHold)
    → id ≢ new.hold_id
    → is_open id holds ≡ false
    → is_open id (put hold_key new holds) ≡ false
put_closed id new holds ne h = rw (find-put_ne hold_key id new holds ne, is_open) h

kept_closed :
    (now id : ℕ) (holds : List PaymentHold)
    → IsKeyed hold_key holds
    → is_open id holds ≡ false
    → is_open id (keep_if (stays now) holds) ≡ false
kept_closed now id [] k h = refl
kept_closed now id (x ∷ holds) k h =
    ground (arith, kept_closed now id holds k.1, kept_none now x.hold_id holds k.0)

hold_after_closed :
    (now id j peer task : ℕ) (amount : ℤ) (g : Gate)
    → id ≢ j
    → is_open id g.holds ≡ false
    → is_open id (hold_after now j peer task amount g).1.holds ≡ false
unfolding hold_after take_payment
hold_after_closed now id j peer task amount g ne h = ground (
  arith,
  put_closed id (new_hold now j peer task amount) g.holds ne h,
  put_closed id (new_hold now j peer task (pos 0)) g.holds ne h,
)

hold_payment_closed :
    (now id j peer task : ℕ) (amount : ℤ) (g : Gate)
    → id ≢ j
    → is_open id g.holds ≡ false
    → is_open id (hold_payment now j peer task amount g).1.holds ≡ false
unfolding hold_payment expire_stale_holds
hold_payment_closed now id j peer task amount g ne h =
    hold_after_closed now id j peer task amount (expire_stale_holds now g) ne
      (expire_closed now id g.holds g.ledger g.history h)

release_closed :
    (now id j recipient : ℕ) (g : Gate)
    → is_open id g.holds ≡ false
    → is_open id (release_payment now j recipient g).1.holds ≡ false
unfolding release_payment settle
release_closed now id j recipient g h = elim (Option-cases (find hold_key j g.holds)) [
  | inl missing ↦ rw (missing, release_payment) h
  | inr (x, found) ↦ elim (Bool-cases (is_held x.status)) [
    | inl still ↦
        rw (found, still, release_payment) (update_closed now id x.hold_id released g.holds refl h)
    | inr settled ↦ rw (found, settled, release_payment) h
  ]
]

refund_closed :
    (now id j : ℕ) (g : Gate)
    → is_open id g.holds ≡ false
    → is_open id (refund_payment now j g).1.holds ≡ false
unfolding refund_payment settle
refund_closed now id j g h = elim (Option-cases (find hold_key j g.holds)) [
  | inl missing ↦ rw (missing, refund_payment) h
  | inr (x, found) ↦ elim (Bool-cases (is_held x.status)) [
    | inl still ↦
        rw (found, still, refund_payment) (update_closed now id x.hold_id refunded g.holds refl h)
    | inr settled ↦ rw (found, settled, refund_payment) h
  ]
]

step_closed :
    (id : ℕ) {g g' : Gate}
    → (s : GateStep g g') → reuses id s ≡ false
    → IsSettled g.holds g.ledger
    → is_open id g.holds ≡ false
    → is_open id g'.holds ≡ false
unfolding expire_stale_holds cleanup
step_closed id (holds_payment now j peer task amount {g} fresh) n s h =
    hold_payment_closed now id j peer task amount g (λ e. ne_of_== j id n (sym e)) h
step_closed id (releases now j recipient {g} known) n s h = release_closed now id j recipient g h
step_closed id (refunds now j {g}) n s h = refund_closed now id j g h
step_closed id (expires now {g}) n s h = expire_closed now id g.holds g.ledger g.history h
step_closed id (cleans now {g}) n s h = kept_closed now id g.holds s.keyed h

Later-closed :
    (id : ℕ) {g g' : Gate}
    → Later id g g'
    → IsSettled g.holds g.ledger
    → is_open id g.holds ≡ false
    → (is_open id g'.holds ≡ false) × IsSettled g'.holds g'.ledger
Later-closed id none_since s h = (h, s)
Later-closed id (then_call r st n) s h =
    let (closed, settled) = Later-closed id r s h in
    (step_closed id st n settled closed, (GateStep_lem st settled).0)

released_closed :
    (now id recipient : ℕ) (g : Gate)
    → (release_payment now id recipient g).0 ≡ true
    → is_open id (release_payment now id recipient g).1.holds ≡ false
unfolding release_payment settle
released_closed now id recipient g done = elim (Option-cases (find hold_key id g.holds)) [
  | inl missing ↦ absurd (ground arith)
  | inr (h, found) ↦
      let key = key-find hold_key id g.holds found in
      let after =
        find-update_self hold_key id (set_status now released) {r = h} g.holds refl found in
      ground arith
]

nothing_happens :
    (later id recipient : ℕ) (g : Gate)
    → is_open id g.holds ≡ false
    → (release_payment later id recipient g ≡ (false, g)) × (refund_payment later id g ≡ (false, g))
unfolding release_payment refund_payment
nothing_happens later id recipient g h = (ground arith, ground arith)

-- From a state in which every balance and every hold is sound, once a hold is released, no release
-- and no refund of it does anything, after any later holds, releases, refunds, expiries and
-- cleanups, if no hold is made under its id again.
pub release_payment_once :
    (now later id recipient other_recipient : ℕ) (g g' : Gate)
    → IsSettled g.holds g.ledger
    → (release_payment now id recipient g).0 ≡ true
    → Later id (release_payment now id recipient g).1 g'
    → (release_payment later id other_recipient g' ≡ (false, g'))
      × (refund_payment later id g' ≡ (false, g'))
release_payment_once now later id recipient other_recipient g g' s done r =
    nothing_happens later id other_recipient g'
      (Later-closed id r (release_payment-IsSettled now id recipient g s)
        (released_closed now id recipient g done)).0
