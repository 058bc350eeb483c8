-- ===== src/Governance/Lux.antt =====
-- The Lux behind the stakes of packages/node/src/kernel/governance.ts, in the payment gate
-- (packages/node/src/core/payment-gate.ts).
use pando.Common.{
  List, [], ◌∷◌, ℕ, ◌≡◌, inl, inr, refl, true, some, arith, ◌∙◌, ap, Bool-cases, Option-cases,
}
use pando.Common.Int.{ℤ, ◌+ℤ◌, int_laws}
use pando.Common.Table.{find, sum}
use pando.Common.Result.{Result-cases}
use pando.Ledger.Types.{network_account, Ledger, Transaction, WorkType}
use pando.Ledger.Accounts.{exists, add_balance, subtract_balance}
use pando.Ledger.Debits.{exists-subtract_balance}
use pando.Payment.Gate.{
  Gate, PaymentHold, PaymentRecord, pay_out, expire_from, amount_if, hold_key, is_held, is_stale,
  hold_payment, hold_after, take_payment, expire_stale_holds, release_payment, refund_payment,
  settle,
}
use pando.Payment.Expiry.{IsSettled, IsFunded-same, total, pay_out-exists, expire_from-exists}
use pando.Payment.Escrow.{
  no_loss, release_payment-total, refund_payment-total, release_payment-IsSettled,
  refund_payment-IsSettled,
}
use pando.Payment.Runs.{hold_payment-total}
use pando.Ledger.Contributions.{reward, reward_work}
use pando.Ledger.Emissions.{Minted}
use pando.Ledger.Preservation.{reward_work-Minted}
use pando.Ledger.Soundness.{add_balance-IsSolvent}
use pando.Ledger.Balances.{balances, credited, add_balance-balances, exists-add_balance}
use pando.Governance.Stakes.{mint_reward}
use pando.Governance.Types.{GovernanceSync}
use pando.Governance.Store.{set_status, record_decision, record_vote}
use pando.Governance.Archive.{remove_proposal_data}
use pando.Governance.Writes.{
  GateCall, Node, Write, Writes, here, next, skips, takes, burns, refunds, mints, marks,
  sets_status, decides, casts, discusses, clears, stores, touches, pays, calls, removes,
}
use pando.Governance.Known.{IsKnown}
use pando.Governance.Calls.{Run, Run-Writes}

release_payment-exists :
    (now id recipient j : ℕ) (g : Gate)
    → exists j (release_payment now id recipient g).1.ledger ≡ exists j g.ledger
unfolding release_payment settle
release_payment-exists now id recipient j g = elim (Option-cases (find hold_key id g.holds)) [
  | inl missing ↦ rw (missing, release_payment)
  | inr (h, found) ↦ elim (Bool-cases (is_held h.status)) [
    | inl still ↦
        rw (found, still, release_payment) (pay_out-exists now j recipient h.amount g.ledger)
    | inr settled ↦ rw (found, settled, release_payment)
  ]
]

refund_payment-exists :
    (now id j : ℕ) (g : Gate) → exists j (refund_payment now id g).1.ledger ≡ exists j g.ledger
unfolding refund_payment settle
refund_payment-exists now id j g = elim (Option-cases (find hold_key id g.holds)) [
  | inl missing ↦ rw (missing, refund_payment)
  | inr (h, found) ↦ elim (Bool-cases (is_held h.status)) [
    | inl still ↦
        rw (found, still, refund_payment) (pay_out-exists now j h.peer_id h.amount g.ledger)
    | inr settled ↦ rw (found, settled, refund_payment)
  ]
]

hold_after-exists :
    (now id peer task j : ℕ) (amount : ℤ) (g : Gate)
    → exists j (hold_after now id peer task amount g).1.ledger ≡ exists j g.ledger
unfolding hold_after take_payment
hold_after-exists now id peer task j amount g =
    ground (arith, exists-subtract_balance now j peer amount g.ledger)

hold_payment-exists :
    (now id peer task j : ℕ) (amount : ℤ) (g : Gate)
    → exists j (hold_payment now id peer task amount g).1.ledger ≡ exists j g.ledger
unfolding hold_payment expire_stale_holds
hold_payment-exists now id peer task j amount g =
    hold_after-exists now id peer task j amount (expire_stale_holds now g)
    ∙ expire_from-exists now j g.holds g.ledger g.history

pay_out-supply :
    (now peer : ℕ) (amount : ℤ) (l : Ledger)
    → (pay_out now peer amount l).total_supply ≡ l.total_supply
unfolding add_balance
pay_out-supply now peer amount l = ground arith

release_payment-supply :
    (now id recipient : ℕ) (g : Gate)
    → (release_payment now id recipient g).1.ledger.total_supply ≡ g.ledger.total_supply
unfolding release_payment settle
release_payment-supply now id recipient g = grind (arith, pay_out-supply)

refund_payment-supply :
    (now id : ℕ) (g : Gate)
    → (refund_payment now id g).1.ledger.total_supply ≡ g.ledger.total_supply
unfolding refund_payment settle
refund_payment-supply now id g = grind (arith, pay_out-supply)

expire_from-supply :
    (now : ℕ) (hs : List PaymentHold) (l : Ledger) (history : List PaymentRecord)
    → (expire_from now hs l history).1.total_supply ≡ l.total_supply
unfolding expire_from
expire_from-supply now [] l history = refl
expire_from-supply now (h ∷ hs) l history =
    expire_from-supply now hs _ _ ∙ elim (Bool-cases (is_stale now h)) [
      | inl old ↦ rw old (pay_out-supply now h.peer_id h.amount l)
      | inr fresh ↦ rw fresh refl
    ]

hold_after-supply :
    (now id peer task : ℕ) (amount : ℤ) (g : Gate)
    → (hold_after now id peer task amount g).1.ledger.total_supply ≡ g.ledger.total_supply
unfolding hold_after take_payment subtract_balance
hold_after-supply now id peer task amount g = ground arith

hold_payment-supply :
    (now id peer task : ℕ) (amount : ℤ) (g : Gate)
    → (hold_payment now id peer task amount g).1.ledger.total_supply ≡ g.ledger.total_supply
unfolding hold_payment expire_stale_holds
hold_payment-supply now id peer task amount g =
    hold_after-supply now id peer task amount (expire_stale_holds now g)
    ∙ expire_from-supply now g.holds g.ledger g.history

-- every balance and every hold is sound, and the account that burned stakes go to is there
pub record IsBacked (g : Gate) : Type 0 where
  pub settled : IsSettled g.holds g.ledger
  pub network : exists network_account g.ledger ≡ true

-- a reward that is minted: the balance of its peer and the total supply grow alike
minted_sum : (b b' r s s' m : ℤ) → b' ≡ b +ℤ m → s' ≡ s +ℤ m → b' +ℤ r +ℤ s ≡ b +ℤ r +ℤ s'
minted_sum b b' r s s' m p q = grind int_laws

exists-same : (j : ℕ) (l m : Ledger) → m.accounts ≡ l.accounts → exists j m ≡ exists j l
unfolding exists
exists-same j l m e = rw e refl

credited_known :
    (peer : ℕ) (amount : ℤ) (l : Ledger) → exists peer l ≡ true → credited peer amount l ≡ amount
unfolding exists
credited_known peer amount l h = rw (h, credited) refl

Minted-IsBacked :
    (now to : ℕ) (amount : ℤ) (g : Gate) (tx : Transaction) (l' : Ledger)
    → Minted now to amount g.ledger tx l'
    → IsBacked g
    → IsBacked (record g { ledger = l' })
      × (total g.holds l' +ℤ g.ledger.total_supply ≡ total g.holds g.ledger +ℤ l'.total_supply)
Minted-IsBacked now to amount g tx l' m b =
    let l = g.ledger in
    let credited_row = add_balance now to tx.amount l in
    let same : (j : ℕ) → exists j l' ≡ exists j l =
      λ j. exists-same j credited_row l' m.accounts ∙ exists-add_balance now j to tx.amount l in
    let grown : balances l' ≡ balances l +ℤ tx.amount = rw m.accounts (
      add_balance-balances now to tx.amount l b.settled.solvent.keyed
      ∙ ap (λ (x : ℤ). balances l +ℤ x) (credited_known to tx.amount l m.recipient)) in
    (
      record {
        settled = record {
          solvent = rw m.accounts (
              add_balance-IsSolvent now to tx.amount l (let g = m.gains in omega arith)
                b.settled.solvent);
          keyed = b.settled.keyed;
          funded = IsFunded-same l l' g.holds same b.settled.funded;
        };
        network = same network_account ∙ b.network;
      },
      minted_sum (balances l) (balances l') (sum (amount_if is_held) g.holds) l.total_supply
          l'.total_supply tx.amount grown m.supply,
    )

mint_reward-IsBacked :
    (now id peer : ℕ) (work : WorkType) (proof : List ℕ) (g : Gate)
    → IsBacked g
    → let g' = mint_reward now id peer work proof g in
      IsBacked g'
      × (total g'.holds g'.ledger +ℤ g.ledger.total_supply
          ≡ total g.holds g.ledger +ℤ g'.ledger.total_supply)
unfolding mint_reward
mint_reward-IsBacked now id peer work proof g b =
    elim (Result-cases (reward_work now id peer work proof g.ledger)) [
      | inl ((tx, l'), done) ↦
          rw (done, mint_reward)
            (Minted-IsBacked now peer (reward work g.ledger) g tx l'
              (reward_work-Minted now id peer work proof g.ledger tx l' done) b)
      | inr (x, failed) ↦ rw (failed, mint_reward) (b, refl)
    ]

same_supply : (t t' s s' : ℤ) → t' ≡ t → s' ≡ s → t' +ℤ s ≡ t +ℤ s'
same_supply t t' s s' p q = grind int_laws

GateCall-total :
    {g g' : Gate}
    → GateCall g g'
    → IsBacked g
    → IsBacked g'
      × (total g'.holds g'.ledger +ℤ g.ledger.total_supply
          ≡ total g.holds g.ledger +ℤ g'.ledger.total_supply)
GateCall-total skips b = (b, refl)
GateCall-total (mints now id peer work proof {g}) b =
    mint_reward-IsBacked now id peer work proof g b
GateCall-total (takes now id peer task amount {g} new) b =
    let h = hold_payment-total now id peer task amount g b.settled new in
    (
      record {
        settled = h.0;
        network = hold_payment-exists now id peer task network_account amount g ∙ b.network;
      },
      same_supply _ _ _ _ h.1 (hold_payment-supply now id peer task amount g),
    )
GateCall-total (burns now id {g}) b = (
  record {
    settled = release_payment-IsSettled now id network_account g b.settled;
    network = release_payment-exists now id network_account network_account g ∙ b.network;
  },
  same_supply _ _ _ _
      (let e = release_payment-total now id network_account g b.settled in
        no_loss _ _ (rw b.network at e))
      (release_payment-supply now id network_account g),
)
GateCall-total (refunds now id {g}) b = (
  record {
    settled = refund_payment-IsSettled now id g b.settled;
    network = refund_payment-exists now id network_account g ∙ b.network;
  },
  same_supply _ _ _ _ (refund_payment-total now id g b.settled) (refund_payment-supply now id g),
)

-- the gate of a state is sound, and holds this much Lux beside the total supply
abbrev pub HasLux : ℤ → GovernanceSync → Type 0
HasLux rest s =
    (g : Gate) × ((s.payment_gate ≡ some g)
      × (IsBacked g × (total g.holds g.ledger ≡ rest +ℤ g.ledger.total_supply)))

moved_sum : (x t t' s s' : ℤ) → t' +ℤ s ≡ t +ℤ s' → t ≡ x +ℤ s → t' ≡ x +ℤ s'
moved_sum x t t' s s' p q = grind int_laws

Write-HasLux : {n : Node} (x : ℤ) {s s' : GovernanceSync} → Write n s s' → HasLux x s → HasLux x s'
unfolding set_status record_decision record_vote remove_proposal_data
Write-HasLux x (marks k) l = l
Write-HasLux x (sets_status id st c) l = l
Write-HasLux x (decides d) l = l
Write-HasLux x (casts v a) l = l
Write-HasLux x (discusses c t) l = l
Write-HasLux x (clears id) l = l
Write-HasLux x (touches id) l = l
Write-HasLux x (stores p new marked) l = l
Write-HasLux x (pays ks rs) l = l
Write-HasLux x (calls {g} {g'} {s} set c) (h, (found, (b, e))) =
    let same : g ≡ h = ground arith in
    let (b', e') = GateCall-total c (rw same b) in
    (g', (refl, (b', moved_sum x _ _ _ _ e' (rw same e))))
Write-HasLux x (removes id allowed) l = l

Writes-HasLux :
    {n : Node} (x : ℤ) {s s' : GovernanceSync} → Writes n s s' → HasLux x s → HasLux x s'
Writes-HasLux x here l = l
Writes-HasLux x (next r w) l = Write-HasLux x w (Writes-HasLux x r l)

-- Over every run of governance without `cleanup`, with a payment gate, balances and escrow of the
-- gate together differ from the ledger's total supply by the same amount as at the start: they grow
-- by exactly the Lux that rewards mint, and a stake is held, returned or moved to NETWORK without
-- making or losing any. The gate stays sound: every balance and every hold, if they are at the start
-- and the account NETWORK exists. The proposals at the start are marked as processed, and new
-- proposals and holds have new ids.
pub Run-HasLux :
    (n : Node) (s s' : GovernanceSync) (x : ℤ) → Run n s s' → IsKnown s → HasLux x s → HasLux x s'
Run-HasLux n s s' x r known l = Writes-HasLux x (Run-Writes r known) l
