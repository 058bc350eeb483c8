-- ===== src/Governance/Calls.antt =====
-- Every run of calls of the methods of packages/node/src/kernel/governance.ts but `cleanup`, as
-- writes. `cleanup` forgets processed ids, and what is forgotten can come in again.
use pando.Common.{ℕ, ◌≡◌, inl, inr, arith, true, Option, List, Option-cases, none}
use mathlib.Core.Path.{subst}
use pando.Common.Result.{ok}
use pando.Governance.Types.{
  VoteChoice, GovernanceProposal, GovernanceComment, GovernanceVote, GovernanceDecision,
  ProcessedId, GovernanceSync, PandoMessage, Env,
}
use pando.Governance.Processed.{has_processed, add_processed}
use pando.Governance.Store.{proposal_of}
use pando.Governance.Comments.{handle_comment, add_comment}
use pando.Governance.Proposals.{
  handle_proposal, UpgradeValidation, approve_upgrade, resubmit_proposal, finish_proposal,
  auto_approve,
}
use pando.Governance.Creation.{Draft, create_proposal, begin_creation, store_new}
use pando.Governance.Votes.{handle_vote, cast_vote, handle_decision, begin_vote, finish_vote}
use pando.Governance.Archive.{remove_proposal_data, delete_proposal, archive_expired_proposals}
use pando.Governance.Queries.{get_proposals, get_proposal}
use pando.Governance.Sync.{SyncPayload, handle_sync_response}
use pando.Governance.Writes.{Node, SameNode, Writes, Writes-trans, one, here, removes, marks}
use pando.Governance.Known.{IsKnown, Writes-IsKnown}
use pando.Governance.Steps.{
  handle_comment-Writes, handle_proposal-Writes, resubmit_proposal-Writes, approve_upgrade-Writes,
  handle_vote-Writes, finish_proposal-Writes, auto_approve-Writes,
}
use pando.Governance.Casting.{
  handle_decision-Writes, cast_vote-Writes, expire_all-Writes, get_proposal-Writes,
  archive_expired_proposals-Writes, begin_vote-Writes, finish_vote-Writes,
}
use pando.Governance.Drafting.{
  IsNew, create_proposal-Writes, add_comment-Writes, begin_creation-Writes, store_new-Writes,
}
use pando.Governance.Syncing.{handle_sync_response-Writes}

delete_proposal-Writes :
    (n : Node) (id : ℕ) (s s' : GovernanceSync)
    → n.removes_proposals ≡ true
    → delete_proposal id s ≡ ok s'
    → Writes n s s'
unfolding delete_proposal
delete_proposal-Writes n id s s' allowed h = elim (Option-cases (proposal_of id s)) [
  | inl missing ↦ absurd (ground arith)
  | inr (p, found) ↦
      let gone : remove_proposal_data id s ≡ s' = ground arith in
      subst (λ x. Writes n s x) gone (one (removes id allowed))
]

-- one call, or the part of one between two waits; what a proposal's draft names is new, and a
-- proposal that is stored after its signature is checked is marked and not in memory
pub data Call (n : Node) : GovernanceSync → GovernanceSync → Type 0 where
  receives_proposal :
      (e : Env) (m : PandoMessage GovernanceProposal) {s : GovernanceSync}
      → Call n s (handle_proposal e m s)
  marks_proposal :
      (p : GovernanceProposal) {s : GovernanceSync}
      → Call n s (add_processed (ProcessedId.proposal p.id) s)
  checks_proposal :
      (e : Env) (p : GovernanceProposal) {s : GovernanceSync}
      → proposal_of p.id s ≡ none
      → has_processed (ProcessedId.proposal p.id) s.processed_ids ≡ true
      → Call n s (finish_proposal e p s)
  receives_comment :
      (e : Env) (m : PandoMessage GovernanceComment) {s : GovernanceSync}
      → Call n s (handle_comment e m s)
  receives_vote :
      (e : Env) (m : PandoMessage GovernanceVote) {s : GovernanceSync}
      → SameNode n e
      → Call n s (handle_vote e m s)
  receives_decision :
      (e : Env) (m : PandoMessage GovernanceDecision) {s : GovernanceSync}
      → Call n s (handle_decision e m s)
  receives_sync :
      (e : Env) (from : ℕ) (payload : SyncPayload) {s : GovernanceSync}
      → SameNode n e
      → Call n s (handle_sync_response e from payload s)
  creates :
      (e : Env) (v : UpgradeValidation) (d : Draft) {s s' : GovernanceSync}
      → IsNew d s
      → create_proposal e v d s ≡ ok s'
      → Call n s s'
  begins_creation :
      (e : Env) (d : Draft) (p : GovernanceProposal) {s s' : GovernanceSync}
      → IsNew d s
      → begin_creation e d s ≡ ok (p, s')
      → Call n s s'
  stores_new :
      (p : GovernanceProposal) {s : GovernanceSync}
      → proposal_of p.id s ≡ none
      → Call n s (store_new p s)
  auto_approves :
      (e : Env) (v : UpgradeValidation) (p : GovernanceProposal) {s : GovernanceSync}
      → Call n s (auto_approve e v p s)
  approves : (e : Env) (id : ℕ) {s : GovernanceSync} → Call n s (approve_upgrade e id s)
  resubmits :
      (id : ℕ) (requester : Option ℕ) {s : GovernanceSync}
      → Call n s (resubmit_proposal id requester s).1
  adds_comment :
      (e : Env) (c id : ℕ) (content : List ℕ) {s s' : GovernanceSync}
      → add_comment e c id content s ≡ ok s'
      → Call n s s'
  casts_vote :
      (e : Env) (id : ℕ) (c : VoteChoice) (r : List ℕ) (a : Option ℕ) {s : GovernanceSync}
      → SameNode n e
      → Call n s (cast_vote e id c r a s).1
  begins_vote :
      (e : Env) (id : ℕ) (c : VoteChoice) (r : List ℕ) (a : Option ℕ) {s : GovernanceSync}
      → SameNode n e
      → Call n s (begin_vote e id c r a s).1
  finishes_vote : (e : Env) (id : ℕ) {s : GovernanceSync} → Call n s (finish_vote e id s)
  gets_proposals : (e : Env) {s : GovernanceSync} → Call n s (get_proposals e s).1
  gets_proposal : (e : Env) (id : ℕ) {s : GovernanceSync} → Call n s (get_proposal e id s).1
  archives :
      (e : Env) (max_age : ℕ) {s : GovernanceSync}
      → n.removes_proposals ≡ true
      → Call n s (archive_expired_proposals e max_age s).1
  deletes :
      (id : ℕ) {s s' : GovernanceSync}
      → n.removes_proposals ≡ true
      → delete_proposal id s ≡ ok s'
      → Call n s s'

pub data Run (n : Node) (s : GovernanceSync) : GovernanceSync → Type 0 where
  starts : Run n s s
  then_calls : {s' s'' : GovernanceSync} → Run n s s' → Call n s' s'' → Run n s s''

Call-Writes : {n : Node} {s s' : GovernanceSync} → Call n s s' → IsKnown s → Writes n s s'
unfolding get_proposals
Call-Writes {n} (receives_proposal e m {s}) known = handle_proposal-Writes n e m s known
Call-Writes {n} (marks_proposal p {s}) known = one (marks (ProcessedId.proposal p.id))
Call-Writes {n} (checks_proposal e p {s} new marked) known =
    finish_proposal-Writes n e p s new marked
Call-Writes {n} (receives_comment e m {s}) known = handle_comment-Writes n e m s
Call-Writes {n} (receives_vote e m {s} same) known = handle_vote-Writes n e m s same
Call-Writes {n} (receives_decision e m {s}) known = handle_decision-Writes n e m s
Call-Writes {n} (receives_sync e from payload {s} same) known =
    handle_sync_response-Writes n e from payload s same known
Call-Writes {n} (creates e v d {s} {s'} new h) known = create_proposal-Writes n e v d s s' new h
Call-Writes {n} (begins_creation e d p {s} {s'} new h) known =
    (begin_creation-Writes n e d s p s' new h).0
Call-Writes {n} (stores_new p {s} new) known = store_new-Writes n p s new
Call-Writes {n} (auto_approves e v p {s}) known = auto_approve-Writes n e v p s
Call-Writes {n} (approves e id {s}) known = approve_upgrade-Writes n e id s
Call-Writes {n} (resubmits id requester {s}) known = resubmit_proposal-Writes n id requester s
Call-Writes {n} (adds_comment e c id content {s} {s'} h) known =
    add_comment-Writes n e c id content s s' h
Call-Writes {n} (casts_vote e id c r a {s} same) known = cast_vote-Writes n e id c r a s same
Call-Writes {n} (begins_vote e id c r a {s} same) known = begin_vote-Writes n e id c r a s same
Call-Writes {n} (finishes_vote e id {s}) known = finish_vote-Writes n e id s
Call-Writes {n} (gets_proposals e {s}) known = expire_all-Writes n e s.proposals s
Call-Writes {n} (gets_proposal e id {s}) known = get_proposal-Writes n e id s
Call-Writes {n} (archives e max_age {s} allowed) known =
    archive_expired_proposals-Writes n e max_age s allowed
Call-Writes {n} (deletes id {s} {s'} allowed h) known = delete_proposal-Writes n id s s' allowed h

-- a run is a sequence of writes
pub Run-Writes : {n : Node} {s s' : GovernanceSync} → Run n s s' → IsKnown s → Writes n s s'
Run-Writes starts known = here
Run-Writes (then_calls r c) known =
    let before = Run-Writes r known in
    Writes-trans before (Call-Writes c (Writes-IsKnown before known))
