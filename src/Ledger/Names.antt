-- ===== src/Ledger/Names.antt =====
-- User names (packages/ledger/src/accounts.ts): who holds a name once it is claimed.
use pando.Common.{
  ℕ, ◌≡◌, refl, true, false, Option, none, some, List, [], ◌∷◌, if◌then◌else◌, is_some, arith,
}
use pando.Common.Table.{update}
use pando.Common.Result.{ok}
use pando.Ledger.Types.{Account, Ledger, account_key}
use pando.Ledger.Accounts.{exists, create}
use pando.Ledger.Claims.{
  find_other, set_claim, claim_account, store_claim, apply_remote_claim, key_or_unknown,
}

-- the other holders of a name do not change with a row of the peer itself
find_other-update :
    (name : List ℕ) (peer : ℕ) (f : Account → Account) (rows : List Account)
    → ((a : Account) → (f a).peer_id ≡ a.peer_id)
    → find_other name peer (update account_key peer f rows) ≡ find_other name peer rows
unfolding find_other
find_other-update name peer f [] kept = refl
find_other-update name peer f (a ∷ rows) kept =
    ground (arith, kept a, find_other-update name peer f rows kept)

not_taken : (o : Option Account) → is_some o ≡ false → o ≡ none
not_taken o h = ground arith

-- A claim of a name that succeeds leaves no other account with that name, in whatever case it is
-- written.
pub claim_account-alone :
    (now peer password_hash : ℕ) (name : List ℕ) (display_name : Option (List ℕ)) (l l' : Ledger)
    → claim_account now peer (some name) display_name password_hash l ≡ ok l'
    → find_other name peer l'.accounts ≡ none
unfolding claim_account
claim_account-alone now peer password_hash name display_name l l' e = grind (
  arith,
  find_other-update name peer (set_claim (some name) display_name password_hash now) l.accounts
      (λ a. refl),
  not_taken,
)

module _ (extract_key : ℕ → Option ℕ) where
  store_claim-alone :
      (now peer password_hash claimed_at : ℕ) (name : List ℕ) (display_name : Option (List ℕ))
      (l l' : Ledger)
      → store_claim extract_key now peer (some name) display_name password_hash claimed_at l
        ≡ (ok true, l')
      → find_other name peer l'.accounts ≡ none
  unfolding store_claim
  store_claim-alone now peer password_hash claimed_at name display_name l l' e =
      let joined =
        if exists peer l then l else create now peer (key_or_unknown (extract_key peer)) l in
      let same =
        find_other-update name peer (set_claim (some name) display_name password_hash claimed_at)
          joined.accounts (λ a. refl) in
      grind (arith, same, not_taken)

  -- A received claim that is applied leaves no other account with its name, in whatever case it is
  -- written, also when it takes the name from a later claim.
  pub apply_remote_claim-alone :
      (now peer password_hash claimed_at : ℕ) (name : List ℕ) (display_name : Option (List ℕ))
      (l l' : Ledger)
      → apply_remote_claim extract_key now peer (some name) display_name password_hash claimed_at l
        ≡ (ok true, l')
      → find_other name peer l'.accounts ≡ none
  unfolding apply_remote_claim
  apply_remote_claim-alone now peer password_hash claimed_at [] display_name l l' e =
      store_claim-alone now peer password_hash claimed_at [] display_name l l' e
  apply_remote_claim-alone now peer password_hash claimed_at (c ∷ cs) display_name l l' e =
      grind (arith, store_claim-alone)
