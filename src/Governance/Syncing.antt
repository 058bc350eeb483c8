-- ===== src/Governance/Syncing.antt =====
-- `handleSyncResponse` of packages/node/src/kernel/governance.ts as writes.
use pando.Common.{ℕ, inl, inr, not, ◌||◌, List, [], ◌∷◌, Bool-cases, includes, map}
use pando.Governance.Types.{
  GovernanceProposal, GovernanceComment, GovernanceVote, GovernanceDecision, ProcessedId,
  GovernanceSync, Env, proposal_key,
}
use pando.Governance.Processed.{has_processed}
use pando.Governance.Store.{add_rewarded}
use pando.Governance.Proposals.{handle_proposal}
use pando.Governance.Sync.{
  SyncPayload, relayed, is_stale, sync_proposals, sync_comments, sync_vote, sync_votes,
  sync_decisions, handle_sync_response,
}
use pando.Governance.Writes.{Node, SameNode, Writes, Writes-trans, one, by_if, here, pays}
use pando.Governance.Known.{IsKnown, Writes-IsKnown}
use pando.Governance.Steps.{handle_comment-Writes, handle_proposal-Writes, handle_vote-Writes}
use pando.Governance.Casting.{handle_decision-Writes}

sync_proposals-Writes :
    (n : Node) (e : Env) (from : ℕ) (ps : List GovernanceProposal) (accepted : List ℕ)
    (s : GovernanceSync)
    → IsKnown s
    → Writes n s (sync_proposals e from ps accepted s).1
unfolding sync_proposals
sync_proposals-Writes n e from [] accepted s known = here
sync_proposals-Writes n e from (p ∷ ps) accepted s known = elim (Bool-cases (is_stale e p)) [
  | inl stale ↦ rw stale (sync_proposals-Writes n e from ps accepted s known)
  | inr fresh ↦
      let first = handle_proposal-Writes n e (relayed from p) s known in
      rw fresh (
        Writes-trans first (
          sync_proposals-Writes n e from ps (p.id ∷ accepted) (handle_proposal e (relayed from p) s)
            (Writes-IsKnown first known)))
]

sync_comments-Writes :
    (n : Node) (e : Env) (from : ℕ) (accepted : List ℕ) (cs : List GovernanceComment)
    (s : GovernanceSync)
    → Writes n s (sync_comments e from accepted cs s)
unfolding sync_comments
sync_comments-Writes n e from accepted [] s = here
sync_comments-Writes n e from accepted (c ∷ cs) s =
    Writes-trans
      (by_if (includes c.proposal_id accepted) (λ h. handle_comment-Writes n e (relayed from c) s)
        (λ h. here))
      (sync_comments-Writes n e from accepted cs _)

sync_vote-Writes :
    (n : Node) (e : Env) (from : ℕ) (accepted : List ℕ) (v : GovernanceVote) (s : GovernanceSync)
    → SameNode n e
    → Writes n s (sync_vote e from accepted v s)
unfolding sync_vote
sync_vote-Writes n e from accepted v s same =
    by_if
      (not (includes v.proposal_id accepted)
        || has_processed (ProcessedId.vote v.proposal_id v.voter) s.processed_ids)
      (λ h. here)
      (λ h.
        Writes-trans (one (pays (add_rewarded v.proposal_id v.voter s.rewarded_votes) s.rewards))
          (handle_vote-Writes n e (relayed from v) _ same))

sync_votes-Writes :
    (n : Node) (e : Env) (from : ℕ) (accepted : List ℕ) (vs : List GovernanceVote)
    (s : GovernanceSync)
    → SameNode n e
    → Writes n s (sync_votes e from accepted vs s)
unfolding sync_votes
sync_votes-Writes n e from accepted [] s same = here
sync_votes-Writes n e from accepted (v ∷ vs) s same =
    Writes-trans (sync_vote-Writes n e from accepted v s same)
      (sync_votes-Writes n e from accepted vs _ same)

sync_decisions-Writes :
    (n : Node) (e : Env) (from : ℕ) (accepted : List ℕ) (ds : List GovernanceDecision)
    (s : GovernanceSync)
    → Writes n s (sync_decisions e from accepted ds s)
unfolding sync_decisions
sync_decisions-Writes n e from accepted [] s = here
sync_decisions-Writes n e from accepted (d ∷ ds) s =
    Writes-trans
      (by_if (includes d.proposal_id accepted) (λ h. handle_decision-Writes n e (relayed from d) s)
        (λ h. here))
      (sync_decisions-Writes n e from accepted ds _)

pub handle_sync_response-Writes :
    (n : Node) (e : Env) (from : ℕ) (payload : SyncPayload) (s : GovernanceSync)
    → SameNode n e
    → IsKnown s
    → Writes n s (handle_sync_response e from payload s)
unfolding handle_sync_response
handle_sync_response-Writes n e from payload s same known =
    Writes-trans
      (Writes-trans
        (Writes-trans
          (sync_proposals-Writes n e from payload.proposals (map proposal_key s.proposals) s known)
          (sync_comments-Writes n e from _ payload.comments _))
        (sync_votes-Writes n e from _ payload.votes _ same))
      (sync_decisions-Writes n e from _ payload.decisions _)
