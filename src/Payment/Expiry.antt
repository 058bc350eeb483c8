-- ===== src/Payment/Expiry.antt =====
-- Expiring stale holds returns what they hold, and keeps the escrow's invariant.
use pando.Common.{
  ℕ, ◌≡◌, refl, inl, inr, true, none, List, [], ◌∷◌, ◌++◌, arith, if◌then◌else◌, Bool-cases, ◌∙◌,
}
use pando.Common.Int.{ℤ, pos, ◌+ℤ◌, ◌≤ℤ◌, ltb_ℤ, int_laws}
use pando.Common.Table.{find, IsKeyed, sum, Each}
use pando.Ledger.Types.{Ledger, account_key}
use pando.Ledger.Accounts.{exists}
use pando.Ledger.Balances.{balances, add_balance-balances, exists-add_balance}
use pando.Ledger.Soundness.{IsSolvent, add_balance-IsSolvent}
use pando.Payment.Gate.{
  PaymentHold, refunded, PaymentRecord, refund, payment_record, hold_key, is_held, pay_out,
  set_status, is_stale, expire_from, amount_if,
}

-- what a payment to an account without a row would lose
abbrev pub lost : ℕ → ℤ → Ledger → ℤ
lost peer amount l = if exists peer l then pos 0 else amount

-- a hold of nothing less than zero, whose refund loses nothing
abbrev pub IsFunded : Ledger → PaymentHold → Type 0
IsFunded l h = (pos 0 ≤ℤ h.amount) × (lost h.peer_id h.amount l ≡ pos 0)

pub record IsSettled (holds : List PaymentHold) (l : Ledger) : Type 0 where
  pub solvent : IsSolvent l.accounts
  pub keyed : IsKeyed hold_key holds
  pub funded : Each (IsFunded l) holds

-- the Lux in balances and in escrow
abbrev pub total : List PaymentHold → Ledger → ℤ
total holds l = balances l +ℤ sum (amount_if is_held) holds

pub pay_out-IsSolvent :
    (now peer : ℕ) (amount : ℤ) (l : Ledger)
    → IsSolvent l.accounts
    → IsSolvent (pay_out now peer amount l).accounts
pay_out-IsSolvent now peer amount l s = elim (Bool-cases (ltb_ℤ (pos 0) amount)) [
  | inl due ↦ rw due (add_balance-IsSolvent now peer amount l (ground arith) s)
  | inr nothing ↦ rw nothing s
]

pub pay_out-exists :
    (now j peer : ℕ) (amount : ℤ) (l : Ledger) → exists j (pay_out now peer amount l) ≡ exists j l
pay_out-exists now j peer amount l = elim (Bool-cases (ltb_ℤ (pos 0) amount)) [
  | inl due ↦ rw due (exists-add_balance now j peer amount l)
  | inr nothing ↦ rw nothing
]

pub pay_out-balances :
    (now peer : ℕ) (amount : ℤ) (l : Ledger)
    → IsKeyed account_key l.accounts
    → pos 0 ≤ℤ amount
    → balances (pay_out now peer amount l) +ℤ lost peer amount l ≡ balances l +ℤ amount
unfolding exists
pay_out-balances now peer amount l h p = grind (int_laws, add_balance-balances now peer amount l h)

-- the funding of a hold does not depend on balances
pub IsFunded-same :
    (l m : Ledger) (holds : List PaymentHold)
    → ((j : ℕ) → exists j m ≡ exists j l)
    → Each (IsFunded l) holds
    → Each (IsFunded m) holds
IsFunded-same l m [] same f = tt
IsFunded-same l m (h ∷ holds) same f =
    ((f.0.0, rw (same h.peer_id) f.0.1), IsFunded-same l m holds same f.1)

-- the state that one round of the loop hands to the next
abbrev ledger_after : ℕ → PaymentHold → Ledger → Ledger
ledger_after now h l = if is_stale now h then pay_out now h.peer_id h.amount l else l

abbrev history_after : ℕ → PaymentHold → List PaymentRecord → List PaymentRecord
history_after now h history =
    if is_stale now h then history ++ payment_record now refund h.peer_id h ∷ [] else history

-- expiring the holds keeps their ids
pub find-expire_from :
    (now k : ℕ) (holds : List PaymentHold) (l : Ledger) (history : List PaymentRecord)
    → find hold_key k holds ≡ none
    → find hold_key k (expire_from now holds l history).0 ≡ none
unfolding expire_from
find-expire_from now k [] l history e = refl
find-expire_from now k (h ∷ holds) l history e =
    ground
      (arith, find-expire_from now k holds (ledger_after now h l) (history_after now h history))

ledger_after-exists :
    (now j : ℕ) (h : PaymentHold) (l : Ledger) → exists j (ledger_after now h l) ≡ exists j l
ledger_after-exists now j h l = elim (Bool-cases (is_stale now h)) [
  | inl stale ↦ rw stale (pay_out-exists now j h.peer_id h.amount l)
  | inr fresh ↦ rw fresh
]

ledger_after-IsSolvent :
    (now : ℕ) (h : PaymentHold) (l : Ledger)
    → IsSolvent l.accounts
    → IsSolvent (ledger_after now h l).accounts
ledger_after-IsSolvent now h l s = elim (Bool-cases (is_stale now h)) [
  | inl stale ↦ rw stale (pay_out-IsSolvent now h.peer_id h.amount l s)
  | inr fresh ↦ rw fresh s
]

-- one round moves a stale hold's amount back to its payer
ledger_after-total :
    (now : ℕ) (h : PaymentHold) (l : Ledger)
    → IsKeyed account_key l.accounts
    → IsFunded l h
    → balances (ledger_after now h l)
        +ℤ amount_if is_held (if is_stale now h then set_status now refunded h else h)
      ≡ balances l +ℤ amount_if is_held h
ledger_after-total now h l k f = elim (Bool-cases (is_stale now h)) [
  | inl stale ↦
      let open_hold : is_held h.status ≡ true = ground arith in
      rw (stale, open_hold) (rw f.1 at (pay_out-balances now h.peer_id h.amount l k f.0))
  | inr fresh ↦ rw fresh
]

pub expire_from-exists :
    (now j : ℕ) (holds : List PaymentHold) (l : Ledger) (history : List PaymentRecord)
    → exists j (expire_from now holds l history).1 ≡ exists j l
unfolding expire_from
expire_from-exists now j [] l history = refl
expire_from-exists now j (h ∷ holds) l history =
    expire_from-exists now j holds (ledger_after now h l) (history_after now h history)
    ∙ ledger_after-exists now j h l

pub expire_from-IsSettled :
    (now : ℕ) (holds : List PaymentHold) (l : Ledger) (history : List PaymentRecord)
    → IsSettled holds l
    → IsSettled (expire_from now holds l history).0 (expire_from now holds l history).1
unfolding expire_from
expire_from-IsSettled now [] l history s = s
expire_from-IsSettled now (h ∷ holds) l history s =
    let l' = ledger_after now h l in
    let history' = history_after now h history in
    let same = λ (j : ℕ). ledger_after-exists now j h l in
    let rest = expire_from-IsSettled now holds l' history' (record {
      solvent = ledger_after-IsSolvent now h l s.solvent;
      keyed = s.keyed.1;
      funded = IsFunded-same l l' holds same s.funded.1;
    }) in
    record {
      solvent = rest.solvent;
      keyed =
          (ground (arith, find-expire_from now h.hold_id holds l' history' s.keyed.0), rest.keyed);
      funded = (
        (
          ground arith,
          ground (
            arith,
            expire_from-exists now h.peer_id holds l' history',
            ledger_after-exists now h.peer_id h l,
          ),
        ),
        rest.funded,
      );
    }

-- the first hold's share and the rest's
regroup :
    (bf rf b' r b a a' : ℤ)
    → bf +ℤ rf ≡ b' +ℤ r
    → b' +ℤ a' ≡ b +ℤ a
    → bf +ℤ (a' +ℤ rf) ≡ b +ℤ (a +ℤ r)
regroup bf rf b' r b a a' p q = grind int_laws

pub expire_from-total :
    (now : ℕ) (holds : List PaymentHold) (l : Ledger) (history : List PaymentRecord)
    → IsSettled holds l
    → total (expire_from now holds l history).0 (expire_from now holds l history).1 ≡ total holds l
unfolding expire_from
expire_from-total now [] l history s = refl
expire_from-total now (h ∷ holds) l history s =
    let l' = ledger_after now h l in
    let rest = expire_from-total now holds l' (history_after now h history) (record {
      solvent = ledger_after-IsSolvent now h l s.solvent;
      keyed = s.keyed.1;
      funded = IsFunded-same l l' holds (λ j. ledger_after-exists now j h l) s.funded.1;
    }) in
    regroup _ _ _ _ _ _ _ rest (ledger_after-total now h l s.solvent.keyed s.funded.0)
