-- ===== src/Ledger/Reach.antt =====
-- Every ledger that the operations reach from an empty database is sound.
use pando.Common.{
  ℕ, ◌≡◌, refl, inl, inr, Bool, true, false, Option, none, some, List, [], ◌∷◌, arith,
  if◌then◌else◌, leb, Option-cases, Bool-cases, ap,
}
use pando.Common.Int.{ℤ}
use pando.Common.Table.{update, sum}
use pando.Common.Result.{ok, Result}
use pando.Ledger.Types.{
  Transaction, WorkType, ApiProvider, ApiContribution, Ledger, account_key, empty_ledger,
  LedgerError,
}
use pando.Ledger.Accounts.{create, exists}
use pando.Ledger.Claims.{
  claim_account, apply_remote_claim, store_claim, find_other, is_taken, key_or_unknown, ban_account,
  unban_account, set_claim, clear_claim, set_banned,
}
use pando.Ledger.Transactions.{transfer, apply_remote_transaction, update_signature}
use pando.Ledger.Contributions.{register, record_usage, reward_work, deactivate}
use pando.Ledger.Balances.{balance_of}
use pando.Ledger.Debits.{deficit_of}
use pando.Ledger.Soundness.{IsSound, empty_ledger-IsSound, create-IsSound, update-IsSound}
use pando.Ledger.Backing.{IsHonest, apply_remote_transaction-IsSound}
use pando.Ledger.Preservation.{transfer-IsSound, reward_work-IsSound}
use pando.Ledger.Usage.{record_usage-IsSound}

-- one operation that succeeds; what the library that reads peer ids extracts is a parameter
pub data Step (extract_key : ℕ → Option ℕ) : Ledger → Ledger → Type 0 where
  register_node :
      (now peer public_key : ℕ) {l : Ledger} → Step extract_key l (create now peer public_key l)
  transferred :
      (now id from to : ℕ) (amount : ℤ) (relay : Option ℕ) (tx : Transaction) {l l' : Ledger}
      → transfer now id from to amount relay l ≡ ok (tx, l')
      → Step extract_key l l'
  received :
      (now : ℕ) (tx : Transaction) {l l' : Ledger}
      → IsHonest tx
      → apply_remote_transaction now tx l ≡ ok l'
      → Step extract_key l l'
  rewarded :
      (now id peer : ℕ) (work : WorkType) (proof : List ℕ) (tx : Transaction) {l l' : Ledger}
      → reward_work now id peer work proof l ≡ ok (tx, l')
      → Step extract_key l l'
  contributed :
      (now peer : ℕ) (provider : ApiProvider) (monthly_cap : ℤ) (c : ApiContribution)
      {l l' : Ledger}
      → register now peer provider monthly_cap l ≡ ok (c, l')
      → Step extract_key l l'
  used :
      (now id contribution : ℕ) (cost : ℤ) (proof : List ℕ) (earned : ℤ) {l l' : Ledger}
      → record_usage now id contribution cost proof l ≡ ok (earned, l')
      → Step extract_key l l'
  deactivated : (contribution : ℕ) {l : Ledger} → Step extract_key l (deactivate contribution l)
  signed : (id signature : ℕ) {l : Ledger} → Step extract_key l (update_signature id signature l)
  claimed :
      (now peer : ℕ) (username display_name : Option (List ℕ)) (password_hash : ℕ) {l l' : Ledger}
      → claim_account now peer username display_name password_hash l ≡ ok l'
      → Step extract_key l l'
  claim_received :
      (now peer : ℕ) (username display_name : Option (List ℕ)) (password_hash claimed_at : ℕ)
      (answer : Result LedgerError Bool) {l l' : Ledger}
      → apply_remote_claim extract_key now peer username display_name password_hash claimed_at l
        ≡ (answer, l')
      → Step extract_key l l'
  banned : (now peer : ℕ) {l : Ledger} → Step extract_key l (ban_account now peer l).1
  unbanned : (now peer : ℕ) {l : Ledger} → Step extract_key l (unban_account now peer l).1

pub data Reach (extract_key : ℕ → Option ℕ) (start : Ledger) : Ledger → Type 0 where
  here : Reach extract_key start start
  next :
      {l l' : Ledger}
      → Reach extract_key start l
      → Step extract_key l l'
      → Reach extract_key start l'

module _ (extract_key : ℕ → Option ℕ) where
  store_claim-IsSound :
      (now peer : ℕ) (username display_name : Option (List ℕ)) (password_hash claimed_at : ℕ)
      (answer : Result LedgerError Bool) (l l' : Ledger)
      → IsSound l
      → store_claim extract_key now peer username display_name password_hash claimed_at l
        ≡ (answer, l')
      → IsSound l'
  unfolding store_claim
  store_claim-IsSound now peer username display_name password_hash claimed_at answer l l' s e =
      let joined =
        if exists peer l then l else create now peer (key_or_unknown (extract_key peer)) l in
      let set = set_claim username display_name password_hash claimed_at in
      let sound : IsSound joined = elim (Bool-cases (exists peer l)) [
        | inl old ↦ rw old s
        | inr new ↦ rw new (create-IsSound now peer (key_or_unknown (extract_key peer)) l s)
      ] in
      elim (Bool-cases (is_taken username peer joined.accounts)) [
        | inl taken ↦ let same : joined ≡ l' = ground arith in rw (← same) sound
        | inr free ↦
            let stored : record joined { accounts = update account_key peer set joined.accounts }
                ≡ l' =
              ground arith in
            rw (← stored) (update-IsSound peer set joined (λ a. refl) (λ a. refl) sound)
      ]

  apply_remote_claim-IsSound :
      (now peer : ℕ) (username display_name : Option (List ℕ)) (password_hash claimed_at : ℕ)
      (answer : Result LedgerError Bool) (l l' : Ledger)
      → IsSound l
      → apply_remote_claim extract_key now peer username display_name password_hash claimed_at l
        ≡ (answer, l')
      → IsSound l'
  unfolding apply_remote_claim
  apply_remote_claim-IsSound now peer none display_name password_hash claimed_at answer l l' s e =
      store_claim-IsSound now peer none display_name password_hash claimed_at answer l l' s e
  apply_remote_claim-IsSound now peer (some []) display_name password_hash claimed_at answer l l' s
        e =
      store_claim-IsSound now peer (some []) display_name password_hash claimed_at answer l l' s e
  apply_remote_claim-IsSound now peer (some (c ∷ cs)) display_name password_hash claimed_at answer l
        l' s e =
      elim (Option-cases (find_other (c ∷ cs) peer l.accounts)) [
        | inl free ↦
            store_claim-IsSound now peer (some (c ∷ cs)) display_name password_hash claimed_at
              answer l l' s (rw (free, apply_remote_claim) at e)
        | inr (rival, held) ↦ elim (Bool-cases (leb rival.updated_at claimed_at)) [
          | inl older ↦
              let same : l ≡ l' = cc (rw (held, older, apply_remote_claim) at e) in rw (← same) s
          | inr newer ↦
              store_claim-IsSound now peer (some (c ∷ cs)) display_name password_hash claimed_at
                answer
                (record l {
                  accounts = update account_key rival.peer_id (clear_claim now) l.accounts;
                })
                l' (update-IsSound rival.peer_id (clear_claim now) l (λ a. refl) (λ a. refl) s)
                (rw (held, newer, apply_remote_claim) at e)
        ]
      ]

claim_account-IsSound :
    (now peer : ℕ) (username display_name : Option (List ℕ)) (password_hash : ℕ) (l l' : Ledger)
    → IsSound l
    → claim_account now peer username display_name password_hash l ≡ ok l'
    → IsSound l'
unfolding claim_account
claim_account-IsSound now peer username display_name password_hash l l' s e =
    let set = set_claim username display_name password_hash now in
    let stored : record l { accounts = update account_key peer set l.accounts } ≡ l' =
      ground arith in
    rw (← stored) (update-IsSound peer set l (λ a. refl) (λ a. refl) s)

register-IsSound :
    (now peer : ℕ) (provider : ApiProvider) (monthly_cap : ℤ) (c : ApiContribution) (l l' : Ledger)
    → IsSound l
    → register now peer provider monthly_cap l ≡ ok (c, l')
    → IsSound l'
unfolding register
register-IsSound now peer provider monthly_cap c l l' s e =
    let same : (l'.accounts ≡ l.accounts)
        × (l'.total_supply ≡ l.total_supply)
        × (l'.deficits ≡ l.deficits) =
      ground arith in
    record {
      solvent = rw same.0 s.solvent;
      capped = rw same.1 s.capped;
      backed = rw (ap (sum balance_of) same.0, same.1, ap (sum deficit_of) same.2) s.backed;
    }

Step-IsSound :
    (extract_key : ℕ → Option ℕ) {l l' : Ledger} → Step extract_key l l' → IsSound l → IsSound l'
unfolding deactivate update_signature ban_account unban_account
Step-IsSound k (register_node now peer public_key) s = create-IsSound now peer public_key _ s
Step-IsSound k (transferred now id from to amount relay tx e) s =
    transfer-IsSound now id from to amount relay _ tx _ s e
Step-IsSound k (received now tx t e) s = apply_remote_transaction-IsSound now tx _ _ t s e
Step-IsSound k (rewarded now id peer work proof tx e) s =
    reward_work-IsSound now id peer work proof _ tx _ s e
Step-IsSound k (contributed now peer provider monthly_cap c e) s =
    register-IsSound now peer provider monthly_cap c _ _ s e
Step-IsSound k (used now id contribution cost proof earned e) s =
    record_usage-IsSound now id contribution cost proof _ earned _ s e
Step-IsSound k (deactivated contribution) s = record {
  solvent = s.solvent;
  capped = s.capped;
  backed = s.backed;
}
Step-IsSound k (signed id signature) s = record {
  solvent = s.solvent;
  capped = s.capped;
  backed = s.backed;
}
Step-IsSound k (claimed now peer username display_name password_hash e) s =
    claim_account-IsSound now peer username display_name password_hash _ _ s e
Step-IsSound k (claim_received now peer username display_name password_hash claimed_at answer e) s =
    apply_remote_claim-IsSound k now peer username display_name password_hash claimed_at answer _ _
      s e
Step-IsSound k (banned now peer {l}) s =
    update-IsSound peer (set_banned now true) l (λ a. refl) (λ a. refl) s
Step-IsSound k (unbanned now peer {l}) s =
    update-IsSound peer (set_banned now false) l (λ a. refl) (λ a. refl) s

-- Whatever sequence of successful operations leads from an empty ledger: no account is listed twice
-- or overdrawn, the total supply is within the hard cap, and the accounts hold no more Lux than was
-- minted and recorded as deficits. Received transactions have amounts and fees that are not
-- negative, transfers that do not come from the network's account, and emissions without a fee.
pub Reach-IsSound :
    (extract_key : ℕ → Option ℕ) (l : Ledger) → Reach extract_key empty_ledger l → IsSound l
Reach-IsSound k l here = empty_ledger-IsSound
Reach-IsSound k l (next r st) = Step-IsSound k st (Reach-IsSound k _ r)
