-- ===== src/Governance/Known.antt =====
-- The proposals in memory are marked as processed (packages/node/src/kernel/governance.ts), so that
-- no message brings one in again.
use pando.Common.{
  ℕ, ◌≡◌, ◌≢◌, inl, inr, refl, arith, ◌∙◌, true, false, ◌||◌, none, List, [], ◌∷◌, ◌++◌, ◌==◌,
  ==-eq, ==-refl, ne_of_==, Bool-cases, sym,
}
use pando.Common.Table.Laws.{find-update-none, find-remove-none, find-remove_self, find-put_ne}
use pando.Governance.Types.{ProcessedId, GovernanceSync, proposal_key}
use pando.Governance.Processed.{same_id, has_processed, add_processed, delete_processed}
use pando.Governance.Store.{proposal_of, with_status, set_status, record_decision, record_vote}
use pando.Governance.Archive.{remove_proposal_data}
use pando.Governance.Writes.{
  Node, Write, Writes, here, next, marks, sets_status, decides, casts, discusses, clears, stores,
  touches, pays, calls, removes,
}

abbrev pub IsKnown : GovernanceSync → Type 0
IsKnown s =
    (id : ℕ)
    → has_processed (ProcessedId.proposal id) s.processed_ids ≡ false
    → proposal_of id s ≡ none

same_id_self : (k : ProcessedId) → same_id k k ≡ true
same_id_self (ProcessedId.proposal i) = ==-refl i
same_id_self (ProcessedId.comment i) = ==-refl i
same_id_self (ProcessedId.decision i) = ==-refl i
same_id_self (ProcessedId.vote i v) = rw (==-refl i, ==-refl v)

has_processed-append :
    (k j : ProcessedId) (xs : List ProcessedId)
    → has_processed k (xs ++ j ∷ []) ≡ has_processed k xs || same_id k j
has_processed-append k j [] = ground arith
has_processed-append k j (x ∷ xs) = ground (arith, has_processed-append k j xs)

pub has_processed_marked :
    (k : ProcessedId) (s : GovernanceSync)
    → has_processed k (add_processed k s).processed_ids ≡ true
has_processed_marked k s = ground (arith, has_processed-append k k s.processed_ids, same_id_self k)

unmarked :
    (k j : ProcessedId) (s : GovernanceSync)
    → has_processed k (add_processed j s).processed_ids ≡ false
    → has_processed k s.processed_ids ≡ false
unmarked k j s h = ground (arith, has_processed-append k j s.processed_ids)

kept_proposal :
    (j id : ℕ) (xs : List ProcessedId)
    → j ≢ id
    → has_processed (ProcessedId.proposal j) (delete_processed (ProcessedId.proposal id) xs)
      ≡ has_processed (ProcessedId.proposal j) xs
kept_proposal j id [] ne = refl
kept_proposal j id (ProcessedId.proposal i ∷ xs) ne = ground (arith, kept_proposal j id xs ne)
kept_proposal j id (ProcessedId.comment i ∷ xs) ne = kept_proposal j id xs ne
kept_proposal j id (ProcessedId.decision i ∷ xs) ne = kept_proposal j id xs ne
kept_proposal j id (ProcessedId.vote i v ∷ xs) ne = kept_proposal j id xs ne

kept_decision :
    (j id : ℕ) (xs : List ProcessedId)
    → has_processed (ProcessedId.proposal j) (delete_processed (ProcessedId.decision id) xs)
      ≡ has_processed (ProcessedId.proposal j) xs
kept_decision j id [] = refl
kept_decision j id (ProcessedId.proposal i ∷ xs) = ground (arith, kept_decision j id xs)
kept_decision j id (ProcessedId.comment i ∷ xs) = kept_decision j id xs
kept_decision j id (ProcessedId.decision i ∷ xs) = ground (arith, kept_decision j id xs)
kept_decision j id (ProcessedId.vote i v ∷ xs) = kept_decision j id xs

Write-IsKnown : {n : Node} {s s' : GovernanceSync} → Write n s s' → IsKnown s → IsKnown s'
unfolding set_status record_decision record_vote remove_proposal_data
Write-IsKnown (marks k {s}) known id h = known id (unmarked (ProcessedId.proposal id) k s h)
Write-IsKnown (sets_status j st {s} c) known id h =
    find-update-none proposal_key id j (with_status st) s.proposals (λ r. refl) (known id h)
Write-IsKnown (decides d) known id h = known id h
Write-IsKnown (casts v a) known id h = known id h
Write-IsKnown (discusses c t) known id h = known id h
Write-IsKnown (clears j) known id h = known id h
Write-IsKnown (touches j) known id h = known id h
Write-IsKnown (stores p {s} new marked) known id h = elim (Bool-cases (id == p.id)) [
  | inl same ↦ absurd (ground (arith, ==-eq id p.id same))
  | inr other ↦ find-put_ne proposal_key id p s.proposals (ne_of_== id p.id other) ∙ known id h
]
Write-IsKnown (pays ks rs) known id h = known id h
Write-IsKnown (calls g c) known id h = known id h
Write-IsKnown (removes j {s} allowed) known id h = elim (Bool-cases (id == j)) [
  | inl same ↦ rw (==-eq id j same) (find-remove_self proposal_key j s.proposals)
  | inr other ↦ find-remove-none proposal_key id j s.proposals (
      known id (
        sym (
          kept_decision id j (delete_processed (ProcessedId.proposal j) s.processed_ids)
          ∙ kept_proposal id j s.processed_ids (ne_of_== id j other))
        ∙ h))
]

pub Writes-IsKnown : {n : Node} {s s' : GovernanceSync} → Writes n s s' → IsKnown s → IsKnown s'
Writes-IsKnown here known = known
Writes-IsKnown (next r w) known = Write-IsKnown w (Writes-IsKnown r known)
