-- ===== src/Ledger/Transactions.antt =====
-- `TransactionStore` (packages/ledger/src/transactions.ts), method by method. A database
-- transaction that throws leaves the ledger that the caller still holds.
use pando.Common.{
  ℕ, ◌*◌, ◌/◌, Bool, not, ◌&&◌, Option, none, some, List, length, ◌==◌, if◌then◌else◌, is_some, ltb,
}
use Prim.Native.Nat.{max}
use pando.Common.Int.{ℤ, pos, pos_part, ◌+ℤ◌, ◌-ℤ◌, ltb_ℤ, leb_ℤ}
use pando.Common.Table.{find, update, put}
use pando.Common.Result.{Result, ok, err, ◌>>=◌, ◌>>◌, throw_if}
use pando.Ledger.Types.{
  Transaction, TransactionType, is_emission, Emission, WorkType, Ledger, LedgerError,
  amount_not_positive, self_transfer, sender_not_found, recipient_not_found, insufficient_balance,
  emission_not_positive, hard_cap_reached, constraint_failed, transaction_key, emission_key,
  lux_hard_cap, network_account, no_signature, emission_signature,
}
use pando.Ledger.Accounts.{
  exists, get_balance, add_balance, subtract_balance, force_subtract_balance,
}

-- the least fee, 0.000001 Lux
abbrev pub min_relay_fee : ℕ
min_relay_fee = 100

-- `Math.max(MIN_RELAY_FEE, Math.floor(amount * RELAY_FEE_RATE * 1e8) / 1e8)`, or 0 without a relay.
-- The product is exact here; the code computes it in floating point, which can floor it to one unit
-- less.
abbrev pub relay_fee : ℤ → Option ℕ → ℤ
relay_fee amount none = pos 0
relay_fee amount (some relay) = pos (max min_relay_fee (pos_part amount / 1000))

-- the network_stats counters
abbrev pub add_relay_fees : ℤ → Ledger → Ledger
add_relay_fees fee l = record l { total_relay_fees = l.total_relay_fees +ℤ fee }

abbrev pub add_supply : ℤ → Ledger → Ledger
add_supply amount l = record l { total_supply = l.total_supply +ℤ amount }

unfoldable pub get_transaction : ℕ → Ledger → Option Transaction
get_transaction id l = find transaction_key id l.transactions

-- INSERT INTO transactions; a duplicate id throws
unfoldable pub record_transaction : Transaction → Ledger → Result LedgerError Ledger
record_transaction tx l =
    if is_some (find transaction_key tx.id l.transactions)
    then err constraint_failed
    else ok (record l { transactions = put transaction_key tx l.transactions })

-- `if (fee > 0 && relay)`: the relay is credited, and the fee counted
unfoldable pub pay_relay : ℕ → ℤ → Option ℕ → Ledger → Ledger
pay_relay now fee none l = l
pay_relay now fee (some relay) l =
    if ltb_ℤ (pos 0) fee then add_relay_fees fee (add_balance now relay fee l) else l

-- The debit is compared exactly here; the code compares the balance with a sum in floating point,
-- which can be a rounding error more, and then refuses a transfer that is exactly covered.
unfoldable pub transfer :
    ℕ → ℕ → ℕ → ℕ → ℤ → Option ℕ → Ledger → Result LedgerError (Transaction × Ledger)
transfer now id from to amount relay l = do
  throw_if (leb_ℤ amount (pos 0)) amount_not_positive
  throw_if (from == to) self_transfer
  throw_if (not (exists from l)) sender_not_found
  throw_if (not (exists to l)) recipient_not_found
  let fee = relay_fee amount relay
  let total_debit = amount +ℤ fee
  throw_if (ltb_ℤ (get_balance from l) total_debit) insufficient_balance
  let tx : Transaction = record {
    id = id;
    from = from;
    to = to;
    amount = amount;
    fee = fee;
    relay = relay;
    type = TransactionType.transfer;
    timestamp = now;
    signature = no_signature;
  }
  let debited = (subtract_balance now from total_debit l).1
  let credited = add_balance now to amount debited
  l' ← record_transaction tx (pay_relay now fee relay credited)
  ok (tx, l')

-- INSERT INTO emissions; a duplicate id throws
unfoldable pub record_emission : Emission → Ledger → Result LedgerError Ledger
record_emission e l =
    if is_some (find emission_key e.id l.emissions)
    then err constraint_failed
    else ok (record l { emissions = put emission_key e l.emissions })

-- what the hard cap leaves of an emission
abbrev pub clamp_emission : ℤ → ℤ → ℤ
clamp_emission amount supply =
    if ltb_ℤ lux_hard_cap (supply +ℤ amount) then lux_hard_cap -ℤ supply else amount

unfoldable pub emit :
    ℕ → ℕ → ℕ → ℤ → WorkType → List ℕ → Ledger → Result LedgerError (Transaction × Ledger)
emit now id to amount work_type work_proof l = do
  throw_if (leb_ℤ amount (pos 0)) emission_not_positive
  throw_if (not (exists to l)) recipient_not_found
  throw_if
      (ltb_ℤ lux_hard_cap (l.total_supply +ℤ amount)
        && leb_ℤ (lux_hard_cap -ℤ l.total_supply) (pos 0))
      hard_cap_reached
  let minted = clamp_emission amount l.total_supply
  let tx : Transaction = record {
    id = id;
    from = network_account;
    to = to;
    amount = minted;
    fee = pos 0;
    relay = none;
    type = TransactionType.emission;
    timestamp = now;
    signature = emission_signature;
  }
  recorded ← record_transaction tx (add_balance now to minted l)
  let e : Emission = record {
    id = id;
    peer_id = to;
    amount = minted;
    work_type = work_type;
    work_proof = work_proof;
    timestamp = now;
  }
  l' ← record_emission e (add_supply minted recorded)
  ok (tx, l')

-- `fee > Math.max(MIN_RELAY_FEE, amount * RELAY_FEE_RATE * 1.5)`, without the fraction
abbrev pub is_inflated : Transaction → Bool
is_inflated tx =
    not (is_emission tx.type)
    && ltb_ℤ (pos 0) tx.fee
    && ltb_ℤ (pos min_relay_fee) tx.fee
    && ltb (3 * pos_part tx.amount) (2000 * pos_part tx.fee)

-- the three writes inside the database transaction of `applyRemoteTransaction`
unfoldable pub debit_sender : ℕ → Transaction → Ledger → Ledger
debit_sender now tx l =
    if not (is_emission tx.type) && not (tx.from == network_account)
    then force_subtract_balance now tx.from (tx.amount +ℤ tx.fee) l
    else l

unfoldable pub credit_relay : ℕ → Transaction → Option ℕ → Ledger → Ledger
credit_relay now tx none l = l
credit_relay now tx (some relay) l =
    if ltb_ℤ (pos 0) tx.fee && exists relay l
    then add_relay_fees tx.fee (add_balance now relay tx.fee l)
    else l

unfoldable pub count_supply : Transaction → Ledger → Ledger
count_supply tx l = if is_emission tx.type then add_supply tx.amount l else l

unfoldable pub apply_writes : ℕ → Transaction → Ledger → Result LedgerError Ledger
apply_writes now tx l = do
  let debited = debit_sender now tx l
  let credited = add_balance now tx.to tx.amount debited
  recorded ← record_transaction tx (credit_relay now tx tx.relay credited)
  ok (count_supply tx recorded)

-- the hard cap refuses a remote emission, or lowers its amount
abbrev pub is_over_cap : Transaction → Ledger → Bool
is_over_cap tx l =
    is_emission tx.type
    && ltb_ℤ lux_hard_cap (l.total_supply +ℤ tx.amount)
    && leb_ℤ (lux_hard_cap -ℤ l.total_supply) (pos 0)

abbrev pub clamp_remote : Transaction → Ledger → Transaction
clamp_remote tx l =
    if is_emission tx.type
    then record tx { amount = clamp_emission tx.amount l.total_supply }
    else tx

unfoldable pub apply_remote_transaction : ℕ → Transaction → Ledger → Result LedgerError Ledger
apply_remote_transaction now tx l =
    if is_some (get_transaction tx.id l)
    then ok l
    else if is_over_cap tx l
    then ok l
    else if is_inflated (clamp_remote tx l)
    then ok l
    else apply_writes now (clamp_remote tx l) l

unfoldable pub get_total_supply : Ledger → ℤ
get_total_supply l = l.total_supply

unfoldable pub get_transaction_count : Ledger → ℕ
get_transaction_count l = length l.transactions

unfoldable pub update_signature : ℕ → ℕ → Ledger → Ledger
update_signature id signature l = record l {
  transactions =
      update transaction_key id (λ tx. record tx { signature = signature }) l.transactions;
}
