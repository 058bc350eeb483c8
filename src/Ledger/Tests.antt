-- ===== src/Ledger/Tests.antt =====
-- The ledger's theorems at a ledger of three accounts and one contribution.
use pando.Common.{ℕ, ◌≡◌, refl, true, none, some, [], ◌∷◌, arith, Bool}
use pando.Common.Int.{ℤ, pos, ◌+ℤ◌, ◌-ℤ◌}
use pando.Common.Result.{Result, ok, err}
use pando.Ledger.Types.{
  Account, Transaction, TransactionType, WorkType, ApiProvider, ApiContribution, Ledger,
  LedgerError, empty_ledger, lux,
}
use pando.Ledger.Accounts.{
  new_account, exists, get_balance, add_balance, subtract_balance, force_subtract_balance, create,
  get_account_count,
}
use pando.Ledger.Transactions.{
  transfer, emit, record_transaction, record_emission, get_transaction, pay_relay,
  apply_remote_transaction, apply_writes, debit_sender, credit_relay, count_supply,
}
use pando.Ledger.Contributions.{record_usage, use_found, reward, reward_work}
use pando.Ledger.Balances.{balances}
use pando.Ledger.Transfers.{transfer-balances, unpaid}
use pando.Ledger.Movements.{transfer-get_balance}
use pando.Ledger.Emissions.{emit-Minted, Minted}
use pando.Ledger.Remote.{apply_remote_transaction_twice}
use pando.Ledger.Soundness.{IsSound}
use pando.Ledger.Backing.{IsHonest, apply_remote_transaction-IsSound}
use pando.Ledger.Usage.{record_usage-Used, Used}
use pando.Ledger.Claims.{claim_account, find_other, store_claim, apply_remote_claim}
use pando.Ledger.Names.{claim_account-alone, apply_remote_claim-alone}
use pando.Ledger.Reach.{here, next, register_node, rewarded, Reach-IsSound}

abbrev account : ℕ → ℤ → Account
account peer balance = record (new_account 0 peer 9) { balance = balance }

abbrev contribution : ApiContribution
contribution = record {
  id = 1;
  peer_id = 5;
  provider = ApiProvider.claude;
  monthly_cap = pos 100;
  used_usd = pos 0;
  tasks_completed = 0;
  lux_earned = pos 0;
  registered_at = 0;
  last_used_at = none;
  active = true;
}

abbrev start : Ledger
start = record empty_ledger {
  accounts = account 5 (pos (lux 10)) ∷ account 6 (pos 0) ∷ account 7 (pos 0) ∷ [];
  contributions = contribution ∷ [];
  next_contribution = 2;
  total_supply = pos (lux 10);
  total_accounts = 3;
}

abbrev remote : Transaction
remote = record {
  id = 40;
  from = 5;
  to = 6;
  amount = pos (lux 3);
  fee = pos 0;
  relay = none;
  type = TransactionType.transfer;
  timestamp = 50;
  signature = 3;
}

abbrev ok_or {ℓ} : {A : Type ℓ} → A → Result LedgerError A → A
ok_or a (ok b) = b
ok_or a (err e) = a

abbrev sent : Transaction × Ledger
sent = ok_or (remote, start) (transfer 60 41 5 6 (pos (lux 1)) (some 7) start)

abbrev minted : Transaction × Ledger
minted = ok_or (remote, start) (emit 60 42 6 (pos (lux 2)) WorkType.task_completed [] start)

abbrev received : Ledger
received = ok_or start (apply_remote_transaction 60 remote start)

abbrev used : ℤ × Ledger
used = ok_or (pos 0, start) (record_usage 60 43 1 (pos 4) [] start)

sent_ok : transfer 60 41 5 6 (pos (lux 1)) (some 7) start ≡ ok sent
unfolding transfer record_transaction get_transaction pay_relay add_balance subtract_balance
    get_balance exists ◌+ℤ◌ ◌-ℤ◌
sent_ok = refl

minted_ok : emit 60 42 6 (pos (lux 2)) WorkType.task_completed [] start ≡ ok minted
unfolding emit record_transaction get_transaction record_emission add_balance get_balance exists
    ◌+ℤ◌ ◌-ℤ◌
minted_ok = refl

received_ok : apply_remote_transaction 60 remote start ≡ ok received
unfolding apply_remote_transaction apply_writes get_transaction debit_sender credit_relay
    count_supply record_transaction force_subtract_balance add_balance get_balance exists ◌+ℤ◌ ◌-ℤ◌
received_ok = refl

used_ok : record_usage 60 43 1 (pos 4) [] start ≡ ok used
unfolding record_usage use_found reward get_account_count emit record_transaction get_transaction
    record_emission add_balance get_balance exists ◌+ℤ◌ ◌-ℤ◌
used_ok = refl

start-IsSound : IsSound start
unfolding ◌+ℤ◌
start-IsSound = record {
  solvent = record {
    keyed = (refl, (refl, (refl, tt)));
    nonneg = (omega arith, (omega arith, (omega arith, tt)));
  };
  capped = omega arith;
  backed = omega arith;
}

remote-IsHonest : IsHonest remote
remote-IsHonest = record {
  amount = omega arith;
  fee = omega arith;
  sender = λ h. refl;
  free = λ h. ground arith;
}

transfer-balances_example : balances sent.1 +ℤ unpaid (some 7) sent.0.fee start ≡ balances start
transfer-balances_example =
    transfer-balances 60 41 5 6 (pos (lux 1)) (some 7) start sent.0 sent.1
      (refl, (refl, (refl, tt))) sent_ok

transfer-get_balance_example :
    (get_balance 5 sent.1 ≡ get_balance 5 start -ℤ (pos (lux 1) +ℤ sent.0.fee))
    × (get_balance 6 sent.1 ≡ get_balance 6 start +ℤ pos (lux 1))
    × (get_balance 8 sent.1 ≡ get_balance 8 start)
transfer-get_balance_example =
    transfer-get_balance 60 41 5 6 (pos (lux 1)) (some 7) start sent.0 sent.1 8 sent_ok
      (ground arith) (ground arith) (ground arith) (omega arith) (omega arith)

emit-Minted_example : Minted 60 6 (pos (lux 2)) start minted.0 minted.1
emit-Minted_example =
    emit-Minted 60 42 6 (pos (lux 2)) WorkType.task_completed [] start minted.0 minted.1 minted_ok

apply_remote_transaction_twice_example : apply_remote_transaction 70 remote received ≡ ok received
apply_remote_transaction_twice_example =
    apply_remote_transaction_twice 60 70 remote start received received_ok

apply_remote_transaction-IsSound_example : IsSound received
apply_remote_transaction-IsSound_example =
    apply_remote_transaction-IsSound 60 remote start received remote-IsHonest start-IsSound
      received_ok

record_usage-Used_example : Used 60 1 (pos 4) start used.0 used.1
record_usage-Used_example = record_usage-Used 60 43 1 (pos 4) [] start used.0 used.1 used_ok

-- a node registers and is rewarded for a task
abbrev joined : Ledger
joined = create 10 5 9 empty_ledger

abbrev paid_out : Transaction × Ledger
paid_out = ok_or (remote, joined) (reward_work 60 44 5 WorkType.task_completed [] joined)

paid_out_ok : reward_work 60 44 5 WorkType.task_completed [] joined ≡ ok paid_out
unfolding create reward_work reward get_account_count emit record_transaction get_transaction
    record_emission add_balance get_balance exists ◌+ℤ◌ ◌-ℤ◌
paid_out_ok = refl

Reach-IsSound_example : IsSound paid_out.1
Reach-IsSound_example =
    Reach-IsSound (λ peer. none) paid_out.1
      (next (next here (register_node 10 5 9))
        (rewarded 60 44 5 WorkType.task_completed [] paid_out.0 paid_out_ok))

abbrev claimed : Ledger
claimed = ok_or start (claim_account 70 5 (some (65 ∷ 98 ∷ [])) none 8 start)

claimed_ok : claim_account 70 5 (some (65 ∷ 98 ∷ [])) none 8 start ≡ ok claimed
unfolding claim_account find_other exists
claimed_ok = refl

claim_account-alone_example : find_other (65 ∷ 98 ∷ []) 5 claimed.accounts ≡ none
claim_account-alone_example =
    claim_account-alone 70 5 8 (65 ∷ 98 ∷ []) none start claimed claimed_ok

-- peer 6 claims the name of peer 5 with an older claim
abbrev overtaken : Result LedgerError Bool × Ledger
overtaken = apply_remote_claim (λ peer. none) 80 6 (some (97 ∷ 98 ∷ [])) none 9 60 claimed

overtaken_ok :
    apply_remote_claim (λ peer. none) 80 6 (some (97 ∷ 98 ∷ [])) none 9 60 claimed
    ≡ (ok true, overtaken.1)
unfolding apply_remote_claim store_claim claim_account find_other exists
overtaken_ok = refl

apply_remote_claim-alone_example : find_other (97 ∷ 98 ∷ []) 6 overtaken.1.accounts ≡ none
apply_remote_claim-alone_example =
    apply_remote_claim-alone (λ peer. none) 80 6 9 60 (97 ∷ 98 ∷ []) none claimed overtaken.1
      overtaken_ok
