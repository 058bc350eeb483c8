-- ===== src/Ledger/Remote.antt =====
-- Transactions received from other nodes: applied once, within the hard cap, and paid for.
use pando.Common.{
  ℕ, ◌≡◌, refl, inl, inr, Bool, ◌||◌, Option, none, some, arith, if◌then◌else◌, is_some,
  Option-cases, Bool-cases, ◌∙◌,
}
use mathlib.Core.Path.{subst}
use pando.Common.Table.{put}
use pando.Common.Table.Laws.{find-put_self}
use pando.Common.Result.{ok}
use pando.Ledger.Types.{Transaction, Ledger, transaction_key}
use pando.Ledger.Accounts.{add_balance, force_subtract_balance}
use pando.Ledger.Transactions.{
  apply_remote_transaction, apply_writes, debit_sender, credit_relay, count_supply, clamp_remote,
  is_inflated, is_over_cap, record_transaction, get_transaction,
}

-- the transactions table and the counters of a debit, and of a credit
credited_transactions :
    (now : ℕ) (tx : Transaction) (relay : Option ℕ) (l : Ledger)
    → (credit_relay now tx relay l).transactions ≡ l.transactions
unfolding credit_relay add_balance
credited_transactions now tx none l = refl
credited_transactions now tx (some relay) l = ground arith

debited_transactions :
    (now : ℕ) (tx : Transaction) (l : Ledger)
    → (debit_sender now tx l).transactions ≡ l.transactions
unfolding debit_sender force_subtract_balance
debited_transactions now tx l = ground arith

-- the balance writes of a remote transaction
abbrev pub settled : ℕ → Transaction → Ledger → Ledger
settled now tx l =
    credit_relay now tx tx.relay (add_balance now tx.to tx.amount (debit_sender now tx l))

settled_transactions :
    (now : ℕ) (tx : Transaction) (l : Ledger) → (settled now tx l).transactions ≡ l.transactions
unfolding add_balance
settled_transactions now tx l =
    credited_transactions now tx tx.relay (add_balance now tx.to tx.amount (debit_sender now tx l))
    ∙ debited_transactions now tx l

-- the writes never throw on a new id, and give this ledger
abbrev pub written : ℕ → Transaction → Ledger → Ledger
written now tx l =
    count_supply tx
      (record (settled now tx l) { transactions = put transaction_key tx l.transactions })

pub apply_writes_lem :
    (now : ℕ) (tx : Transaction) (l : Ledger)
    → get_transaction tx.id l ≡ none
    → apply_writes now tx l ≡ ok (written now tx l)
unfolding apply_writes record_transaction get_transaction
apply_writes_lem now tx l h = ground (arith, settled_transactions now tx l)

clamp_remote-id : (tx : Transaction) (l : Ledger) → (clamp_remote tx l).id ≡ tx.id
clamp_remote-id tx l = ground arith

-- a transaction that is known, an emission past the hard cap, or a transfer with an inflated fee
abbrev pub is_skipped : Transaction → Ledger → Bool
is_skipped tx l =
    is_some (get_transaction tx.id l) || is_over_cap tx l || is_inflated (clamp_remote tx l)

-- A remote transaction is handled without an error: the ledger stays as it was if the transaction
-- is known, past the hard cap or charges too much; otherwise it is written, with the amount that
-- the hard cap leaves.
pub apply_or_skip :
    (now : ℕ) (tx : Transaction) (l : Ledger)
    → apply_remote_transaction now tx l
      ≡ ok (if is_skipped tx l then l else written now (clamp_remote tx l) l)
unfolding apply_remote_transaction
apply_or_skip now tx l = elim (Option-cases (get_transaction tx.id l)) [
  | inl new ↦ elim (Bool-cases (is_over_cap tx l || is_inflated (clamp_remote tx l))) [
    | inl refused ↦ ground arith
    | inr fair ↦
        rw (new, fair)
          (ground
            (arith, apply_writes_lem now (clamp_remote tx l) l (rw (clamp_remote-id tx l) new)))
  ]
  | inr (old, known) ↦ rw (known)
]

count_supply-transactions :
    (tx : Transaction) (l : Ledger) → (count_supply tx l).transactions ≡ l.transactions
unfolding count_supply
count_supply-transactions tx l = ground arith

written-known :
    (now : ℕ) (tx : Transaction) (l : Ledger) → get_transaction tx.id (written now tx l) ≡ some tx
unfolding get_transaction
written-known now tx l =
    rw (count_supply-transactions tx _) (find-put_self transaction_key tx l.transactions)

pub clamped-known :
    (now : ℕ) (tx : Transaction) (l : Ledger)
    → get_transaction tx.id (written now (clamp_remote tx l) l) ≡ some (clamp_remote tx l)
clamped-known now tx l =
    subst (λ i. get_transaction i (written now (clamp_remote tx l) l) ≡ some (clamp_remote tx l))
      (clamp_remote-id tx l) (written-known now (clamp_remote tx l) l)

known_skips :
    (now : ℕ) (tx old : Transaction) (l : Ledger)
    → get_transaction tx.id l ≡ some old
    → apply_remote_transaction now tx l ≡ ok l
unfolding apply_remote_transaction
known_skips now tx old l h = rw h

-- Receiving a transaction a second time, whatever happened the first time, changes nothing.
pub apply_remote_transaction_twice :
    (now later : ℕ) (tx : Transaction) (l l' : Ledger)
    → apply_remote_transaction now tx l ≡ ok l'
    → apply_remote_transaction later tx l' ≡ ok l'
apply_remote_transaction_twice now later tx l l' h = elim (Bool-cases (is_skipped tx l)) [
  | inl skipped ↦
      let same : l ≡ l' = cc (rw (apply_or_skip now tx l, skipped) at h) in
      rw (← same) (rw (apply_or_skip later tx l, skipped))
  | inr fresh ↦
      let done : written now (clamp_remote tx l) l ≡ l' =
        cc (rw (apply_or_skip now tx l, fresh) at h) in
      known_skips later tx (clamp_remote tx l) l' (rw (← done) (clamped-known now tx l))
]
