-- ===== src/Governance/Steps.antt =====
-- The methods of packages/node/src/kernel/governance.ts on proposals, comments and votes as writes.
use pando.Common.{
  ℕ, ◌≡◌, inl, inr, refl, arith, ◌+◌, ◌∙◌, true, not, ◌&&◌, ◌||◌, Option, none, ◌==◌, ==-eq, leb,
  Bool-cases, Option-cases,
}
use pando.Governance.Types.{
  ProposalStatus, GovernanceProposal, GovernanceComment, GovernanceVote, ProcessedId,
  GovernanceSync, PandoMessage, Env, is_upgrade,
}
use pando.Governance.Processed.{has_processed, add_processed}
use pando.Governance.Store.{proposal_of}
use pando.Governance.Comments.{comment_allowed, record_comment, handle_comment}
use pando.Governance.Proposals.{
  signature_allows, sanitized, store_proposal, is_empty, handle_proposal, finish_proposal,
  UpgradeValidation, approve_upgrade, auto_approve, is_revision_requested, may_resubmit,
  resubmit_proposal,
}
use pando.Governance.Votes.{vote_allowed, accept_vote, handle_vote}
use pando.Governance.Writes.{
  Node, IsAuthentic, SameNode, Writes, Writes-trans, one, by_if, by_option, here, next, marks,
  sets_status, decides, casts, discusses, clears, stores, touches,
}
use pando.Governance.Known.{IsKnown, has_processed_marked}
use pando.Governance.Decisions.{emit_vote_reward-Writes, check_quorum-Writes}

pub handle_comment-Writes :
    (n : Node) (e : Env) (m : PandoMessage GovernanceComment) (s : GovernanceSync)
    → Writes n s (handle_comment e m s)
unfolding handle_comment record_comment
handle_comment-Writes n e m s =
    by_if (has_processed (ProcessedId.comment m.payload.id) s.processed_ids) (λ h. here)
      (λ new.
        by_if (comment_allowed e m)
          (λ a. next (one (marks (ProcessedId.comment m.payload.id))) (discusses _ _))
          (λ r. one (marks (ProcessedId.comment m.payload.id))))

pub record_comment-Writes :
    (n : Node) (c : GovernanceComment) (s : GovernanceSync) → Writes n s (record_comment c s)
unfolding record_comment
record_comment-Writes n c s = one (discusses _ _)

store_proposal-Writes :
    (n : Node) (p : GovernanceProposal) (s : GovernanceSync)
    → proposal_of p.id s ≡ none
    → has_processed (ProcessedId.proposal p.id) s.processed_ids ≡ true
    → Writes n s (store_proposal p s)
unfolding store_proposal
store_proposal-Writes n p s new marked =
    next (next (one (stores p new marked)) (touches p.id)) (discusses _ _)

pub finish_proposal-Writes :
    (n : Node) (e : Env) (p : GovernanceProposal) (s : GovernanceSync)
    → proposal_of p.id s ≡ none
    → has_processed (ProcessedId.proposal p.id) s.processed_ids ≡ true
    → Writes n s (finish_proposal e p s)
unfolding finish_proposal
finish_proposal-Writes n e p s new marked =
    by_if (signature_allows e p) (λ a. store_proposal-Writes n (sanitized p) s new marked)
      (λ r. here)

pub handle_proposal-Writes :
    (n : Node) (e : Env) (m : PandoMessage GovernanceProposal) (s : GovernanceSync)
    → IsKnown s
    → Writes n s (handle_proposal e m s)
unfolding handle_proposal
handle_proposal-Writes n e m s known =
    by_if
      (is_empty m.payload.title
        || has_processed (ProcessedId.proposal m.payload.id) s.processed_ids)
      (λ h. here)
      (λ new. Writes-trans (one (marks (ProcessedId.proposal m.payload.id))) (
        finish_proposal-Writes n e m.payload (add_processed (ProcessedId.proposal m.payload.id) s)
          (known m.payload.id (ground arith))
          (has_processed_marked (ProcessedId.proposal m.payload.id) s)))

pub resubmit_proposal-Writes :
    (n : Node) (id : ℕ) (requester : Option ℕ) (s : GovernanceSync)
    → Writes n s (resubmit_proposal id requester s).1
unfolding resubmit_proposal
resubmit_proposal-Writes n id requester s = elim (Option-cases (proposal_of id s)) [
  | inl missing ↦ rw (missing, resubmit_proposal) here
  | inr (p, found) ↦
      elim (Bool-cases (is_revision_requested p.status && may_resubmit requester p)) [
        | inl back ↦
            rw (found, back, resubmit_proposal)
              (next (one (sets_status id ProposalStatus.active (λ q x y. ground arith)))
                (clears id))
        | inr kept ↦ rw (found, kept, resubmit_proposal) here
      ]
]

pub approve_upgrade-Writes :
    (n : Node) (e : Env) (id : ℕ) (s : GovernanceSync) → Writes n s (approve_upgrade e id s)
unfolding approve_upgrade
approve_upgrade-Writes n e id s =
    next (one (sets_status id ProposalStatus.passed (λ q x y. refl))) (decides _)

pub auto_approve-Writes :
    (n : Node) (e : Env) (v : UpgradeValidation) (p : GovernanceProposal) (s : GovernanceSync)
    → Writes n s (auto_approve e v p s)
unfolding auto_approve
auto_approve-Writes n e v p s =
    by_option p.upgrade_payload (λ h. here)
      (λ u h.
        by_if (not (is_upgrade p.category)) (λ x. here)
          (λ x.
            by_if (not v.approved)
              (λ y. one (sets_status p.id ProposalStatus.rejected (λ q a b. refl)))
              (λ y.
                by_if
                  (leb (e.peer_count + 1) e.upgrade_auto_approve_threshold && not v.kernel_delay)
                  (λ z. approve_upgrade-Writes n e p.id s) (λ z. here))))

pub accept_vote-Writes :
    (n : Node) (e : Env) (v : GovernanceVote) (s : GovernanceSync)
    → IsAuthentic n v
    → Writes n s (accept_vote e v s)
unfolding accept_vote
accept_vote-Writes n e v s authentic =
    Writes-trans
      (Writes-trans
        (next (one (marks (ProcessedId.vote v.proposal_id v.voter))) (casts v authentic))
        (by_if (v.voter == e.local_peer_id) (λ h. here)
          (λ h. emit_vote_reward-Writes n e v.voter v.proposal_id _)))
      (check_quorum-Writes n e v.proposal_id _)

-- a vote that `handleVote` lets through is authentic
vote_allowed-IsAuthentic :
    (n : Node) (e : Env) (m : PandoMessage GovernanceVote)
    → SameNode n e
    → vote_allowed e m ≡ true
    → IsAuthentic n m.payload
vote_allowed-IsAuthentic n e m same allowed =
    elim (Bool-cases (m.payload.voter == e.local_peer_id)) [
      | inl own ↦ inl (==-eq m.payload.voter e.local_peer_id own ∙ same.0)
      | inr other ↦ elim (Option-cases m.signature) [
        | inl unsigned ↦ absurd (ground arith)
        | inr (sig, signed) ↦ elim (Option-cases (e.verify_vote m sig m.payload.voter)) [
          | inl failed ↦ absurd (ground arith)
          | inr (valid, checked) ↦ inr (
            m,
            sig,
            (
              refl,
              (==-eq m.from m.payload.voter (ground arith), (signed, rw (← same.1) (ground arith))),
            ),
          )
        ]
      ]
    ]

pub handle_vote-Writes :
    (n : Node) (e : Env) (m : PandoMessage GovernanceVote) (s : GovernanceSync)
    → SameNode n e
    → Writes n s (handle_vote e m s)
unfolding handle_vote
handle_vote-Writes n e m s same =
    by_if (not (vote_allowed e m)) (λ h. here)
      (λ h.
        by_if
          (has_processed (ProcessedId.vote m.payload.proposal_id m.payload.voter) s.processed_ids)
          (λ k. here)
          (λ k.
            accept_vote-Writes n e m.payload s
              (vote_allowed-IsAuthentic n e m same (ground arith))))
