-- ===== src/Ledger/Claims.antt =====
-- The account claims, bans and name lookups of `AccountStore` (packages/ledger/src/accounts.ts).
use pando.Common.{
  ℕ, Bool, true, false, not, ◌&&◌, Option, none, some, List, [], ◌∷◌, ◌==◌, if◌then◌else◌, is_some,
  leb, keep_if,
}
use pando.Common.Table.{find, update}
use pando.Common.Result.{Result, ok, err}
use pando.Ledger.Types.{
  Account, Ledger, LedgerError, account_not_found, constraint_failed, account_key, has_username,
}
use pando.Ledger.Accounts.{exists, create}

-- `WHERE username = ? COLLATE NOCASE`, the first row
unfoldable pub find_username : List ℕ → List Account → Option Account
find_username name [] = none
find_username name (a ∷ rows) =
    if has_username name a.username then some a else find_username name rows

-- `… AND peer_id != ?`
unfoldable pub find_other : List ℕ → ℕ → List Account → Option Account
find_other name peer [] = none
find_other name peer (a ∷ rows) =
    if has_username name a.username && not (a.peer_id == peer)
    then some a
    else find_other name peer rows

-- the unique index on `username` refuses a name that another row holds
abbrev pub is_taken : Option (List ℕ) → ℕ → List Account → Bool
is_taken none peer rows = false
is_taken (some name) peer rows = is_some (find_other name peer rows)

-- UPDATE accounts SET username = …, is_claimed = 1, … WHERE peer_id = …
abbrev pub set_claim : Option (List ℕ) → Option (List ℕ) → ℕ → ℕ → Account → Account
set_claim username display_name password_hash at a = record a {
  username = username;
  display_name = display_name;
  password_hash = some password_hash;
  is_claimed = true;
  updated_at = at;
}

unfoldable pub claim_account :
    ℕ → ℕ → Option (List ℕ) → Option (List ℕ) → ℕ → Ledger → Result LedgerError Ledger
claim_account now peer username display_name password_hash l =
    if is_taken username peer l.accounts && exists peer l
    then err constraint_failed
    else if exists peer l
    then ok (record l {
      accounts =
          update account_key peer (set_claim username display_name password_hash now) l.accounts;
    })
    else err account_not_found

-- a claim that lost its name to an older one
abbrev pub clear_claim : ℕ → Account → Account
clear_claim now a = record a { username = none; is_claimed = false; updated_at = now }

-- the key that `peerIdFromString` extracts from a peer id, or 'unknown'
abbrev pub unknown_key : ℕ
unknown_key = 0

abbrev pub key_or_unknown : Option ℕ → ℕ
key_or_unknown none = unknown_key
key_or_unknown (some k) = k

module _ (extract_key : ℕ → Option ℕ) where
  -- the part of `applyRemoteClaim` after the name conflict is settled; an error of the unique index
  -- leaves what was written before it
  unfoldable pub store_claim :
      ℕ → ℕ → Option (List ℕ) → Option (List ℕ) → ℕ → ℕ → Ledger → Result LedgerError Bool × Ledger
  store_claim now peer username display_name password_hash claimed_at l =
      let l' = if exists peer l then l else create now peer (key_or_unknown (extract_key peer)) l in
      if is_taken username peer l'.accounts then (err constraint_failed, l') else (
        ok true,
        record l' {
          accounts =
              update account_key peer (set_claim username display_name password_hash claimed_at)
                l'.accounts;
        },
      )

  -- the older claim keeps a contested name; an empty name is not contested
  unfoldable pub apply_remote_claim :
      ℕ → ℕ → Option (List ℕ) → Option (List ℕ) → ℕ → ℕ → Ledger → Result LedgerError Bool × Ledger
  apply_remote_claim now peer none display_name password_hash claimed_at l =
      store_claim now peer none display_name password_hash claimed_at l
  apply_remote_claim now peer (some []) display_name password_hash claimed_at l =
      store_claim now peer (some []) display_name password_hash claimed_at l
  apply_remote_claim now peer (some (c ∷ cs)) display_name password_hash claimed_at l =
      elim (find_other (c ∷ cs) peer l.accounts) [
        | none ↦ store_claim now peer (some (c ∷ cs)) display_name password_hash claimed_at l
        | some rival ↦
            if leb rival.updated_at claimed_at
            then (ok false, l)
            else store_claim now peer (some (c ∷ cs)) display_name password_hash claimed_at
                (record l {
                  accounts = update account_key rival.peer_id (clear_claim now) l.accounts;
                })
      ]

unfoldable pub get_by_username : List ℕ → Ledger → Option Account
get_by_username name l = find_username name l.accounts

unfoldable pub is_username_available : List ℕ → Ledger → Bool
is_username_available name l = not (is_some (find_username name l.accounts))

abbrev pub set_banned : ℕ → Bool → Account → Account
set_banned now b a = record a { banned = b; updated_at = now }

-- `result.changes > 0` is whether the row is there
unfoldable pub ban_account : ℕ → ℕ → Ledger → Bool × Ledger
ban_account now peer l = (
  exists peer l,
  record l { accounts = update account_key peer (set_banned now true) l.accounts },
)

unfoldable pub unban_account : ℕ → ℕ → Ledger → Bool × Ledger
unban_account now peer l = (
  exists peer l,
  record l { accounts = update account_key peer (set_banned now false) l.accounts },
)

unfoldable pub is_banned : ℕ → Ledger → Bool
is_banned peer l = elim (find account_key peer l.accounts) [ none ↦ false | some a ↦ a.banned ]

unfoldable pub get_claimed_accounts : Ledger → List Account
get_claimed_accounts l = keep_if (λ a. a.is_claimed) l.accounts
