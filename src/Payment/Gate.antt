-- ===== src/Payment/Gate.antt =====
-- `PaymentGate` (packages/node/src/core/payment-gate.ts). Its state is the ledger that it debits
-- and credits, the holds in insertion order, and the history; what it writes to disk is left out.
use pando.Common.{
  ℕ, ◌+◌, ◌-◌, Bool, true, false, not, ◌&&◌, ◌||◌, Option, none, some, List, [], ◌∷◌, ◌++◌, length,
  drop, keep_if, count_if, ltb, leb, ◌==◌, if◌then◌else◌,
}
use pando.Common.Int.{ℤ, pos, ltb_ℤ, leb_ℤ}
use pando.Common.Table.{find, update, put, sum}
use pando.Ledger.Types.{Ledger}
use pando.Ledger.Accounts.{get_balance, add_balance, subtract_balance}

pub data HoldStatus : Type 0 where
  held released refunded : HoldStatus

pub record PaymentHold : Type 0 where
  pub hold_id : ℕ
  pub peer_id : ℕ
  pub task_id : ℕ
  pub amount : ℤ
  pub status : HoldStatus
  pub created_at : ℕ
  pub updated_at : ℕ

pub data PaymentKind : Type 0 where
  payment refund earning : PaymentKind

pub record PaymentRecord : Type 0 where
  pub hold_id : ℕ
  pub peer_id : ℕ
  pub task_id : ℕ
  pub amount : ℤ
  pub kind : PaymentKind
  pub timestamp : ℕ

pub record Gate : Type 0 where
  pub ledger : Ledger
  pub holds : List PaymentHold
  pub history : List PaymentRecord

abbrev pub hold_key : PaymentHold → ℕ
hold_key h = h.hold_id

abbrev pub is_held : HoldStatus → Bool
is_held held = true
is_held released = false
is_held refunded = false

-- 24 hours
abbrev pub hold_expiry_ms : ℕ
hold_expiry_ms = 86_400_000

-- `if (hold.amount > 0) addBalance(peer, hold.amount)`
abbrev pub pay_out : ℕ → ℕ → ℤ → Ledger → Ledger
pay_out now peer amount l = if ltb_ℤ (pos 0) amount then add_balance now peer amount l else l

abbrev pub payment_record : ℕ → PaymentKind → ℕ → PaymentHold → PaymentRecord
payment_record now kind peer h = record {
  hold_id = h.hold_id;
  peer_id = peer;
  task_id = h.task_id;
  amount = h.amount;
  kind = kind;
  timestamp = now;
}

abbrev pub set_status : ℕ → HoldStatus → PaymentHold → PaymentHold
set_status now status h = record h { status = status; updated_at = now }

abbrev pub is_stale : ℕ → PaymentHold → Bool
is_stale now h = is_held h.status && ltb hold_expiry_ms (now - h.created_at)

-- the loop of `expireStaleHolds` over the holds, with the ledger and the history it writes
unfoldable pub expire_from :
    ℕ
    → List PaymentHold
    → Ledger
    → List PaymentRecord
    → List PaymentHold × Ledger × List PaymentRecord
expire_from now [] l history = ([], l, history)
expire_from now (h ∷ holds) l history =
    let stale = is_stale now h in
    let l' = if stale then pay_out now h.peer_id h.amount l else l in
    let history' =
      if stale then history ++ payment_record now refund h.peer_id h ∷ [] else history in
    let (rest, l'', history'') = expire_from now holds l' history' in
    ((if stale then set_status now refunded h else h) ∷ rest, l'', history'')

unfoldable pub expire_stale_holds : ℕ → Gate → Gate
expire_stale_holds now g =
    let (holds, l, history) = expire_from now g.holds g.ledger g.history in
    record { ledger = l; holds = holds; history = history }

unfoldable pub can_afford : ℕ → ℤ → Ledger → Bool
can_afford peer amount l = if leb_ℤ amount (pos 0) then true else leb_ℤ amount (get_balance peer l)

abbrev pub new_hold : ℕ → ℕ → ℕ → ℕ → ℤ → PaymentHold
new_hold now id peer task amount = record {
  hold_id = id;
  peer_id = peer;
  task_id = task;
  amount = amount;
  status = held;
  created_at = now;
  updated_at = now;
}

-- a hold whose amount is taken from the payer, once the stale holds are gone
unfoldable pub take_payment : ℕ → ℕ → ℕ → ℕ → ℤ → Gate → Option PaymentHold × Gate
take_payment now id peer task amount g =
    let hold = new_hold now id peer task amount in
    let (deducted, l) = subtract_balance now peer amount g.ledger in
    if not (can_afford peer amount g.ledger)
    then (none, g)
    else if not deducted
    then (none, g)
    else (
      some hold,
      record {
        ledger = l;
        holds = put hold_key hold g.holds;
        history = g.history ++ payment_record now payment peer hold ∷ [];
      },
    )

unfoldable pub hold_after : ℕ → ℕ → ℕ → ℕ → ℤ → Gate → Option PaymentHold × Gate
hold_after now id peer task amount g =
    let free_hold = new_hold now id peer task (pos 0) in
    if leb_ℤ amount (pos 0)
    then (some free_hold, record g { holds = put hold_key free_hold g.holds })
    else take_payment now id peer task amount g

unfoldable pub hold_payment : ℕ → ℕ → ℕ → ℕ → ℤ → Gate → Option PaymentHold × Gate
hold_payment now id peer task amount g =
    hold_after now id peer task amount (expire_stale_holds now g)

-- the common part of release and refund, for a hold that is still held
unfoldable pub settle : ℕ → HoldStatus → PaymentKind → ℕ → PaymentHold → Gate → Gate
settle now status kind peer h g = record {
  ledger = pay_out now peer h.amount g.ledger;
  holds = update hold_key h.hold_id (set_status now status) g.holds;
  history = g.history ++ payment_record now kind peer h ∷ [];
}

unfoldable pub release_payment : ℕ → ℕ → ℕ → Gate → Bool × Gate
release_payment now id recipient g = elim (find hold_key id g.holds) [
  | none ↦ (false, g)
  | some h ↦
      if is_held h.status then (true, settle now released earning recipient h g) else (false, g)
]

unfoldable pub refund_payment : ℕ → ℕ → Gate → Bool × Gate
refund_payment now id g = elim (find hold_key id g.holds) [
  | none ↦ (false, g)
  | some h ↦
      if is_held h.status then (true, settle now refunded refund h.peer_id h g) else (false, g)
]

-- by peer, or the whole history
unfoldable pub get_payment_history : ℕ → Option ℕ → Gate → List PaymentRecord × Gate
get_payment_history now none g = let g' = expire_stale_holds now g in (g'.history, g')
get_payment_history now (some peer) g =
    let g' = expire_stale_holds now g in (keep_if (λ r. r.peer_id == peer) g'.history, g')

unfoldable pub get_active_holds : Gate → List PaymentHold
get_active_holds g = keep_if (λ h. is_held h.status) g.holds

unfoldable pub get_hold_for_task : ℕ → List PaymentHold → Option PaymentHold
get_hold_for_task task [] = none
get_hold_for_task task (h ∷ holds) =
    if h.task_id == task && is_held h.status then some h else get_hold_for_task task holds

abbrev pub amount_if : (HoldStatus → Bool) → PaymentHold → ℤ
amount_if p h = if p h.status then h.amount else pos 0

abbrev pub is_released : HoldStatus → Bool
is_released held = false
is_released released = true
is_released refunded = false

abbrev pub is_refunded : HoldStatus → Bool
is_refunded held = false
is_refunded released = false
is_refunded refunded = true

pub record GateStats : Type 0 where
  pub total_holds : ℕ
  pub active_holds : ℕ
  pub total_lux_held : ℤ
  pub total_lux_released : ℤ
  pub total_lux_refunded : ℤ

unfoldable pub get_stats : Gate → GateStats
get_stats g = record {
  total_holds = length g.holds;
  active_holds = count_if (λ h. is_held h.status) g.holds;
  total_lux_held = sum (amount_if is_held) g.holds;
  total_lux_released = sum (amount_if is_released) g.holds;
  total_lux_refunded = sum (amount_if is_refunded) g.holds;
}

-- settled holds older than seven days go, and the history keeps its last 1000 records
abbrev pub seven_days_ms : ℕ
seven_days_ms = 604_800_000

abbrev pub stays : ℕ → PaymentHold → Bool
stays now h = is_held h.status || leb now (h.updated_at + seven_days_ms)

unfoldable pub cleanup : ℕ → Gate → Gate
cleanup now g = record g {
  holds = keep_if (stays now) g.holds;
  history = drop (length g.history - 1000) g.history;
}
