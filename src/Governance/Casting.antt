-- ===== src/Governance/Casting.antt =====
-- `handleDecision`, `castVote`, the queries and the archive of
-- packages/node/src/kernel/governance.ts as writes.
use pando.Common.{
  ℕ, ◌≡◌, inl, inr, refl, true, Option, List, [], ◌∷◌, ◌==◌, leb, Bool-cases, Option-cases, length,
  none, some,
}
use pando.Governance.Types.{
  VoteChoice, Outcome, GovernanceProposal, GovernanceVote, GovernanceDecision, ProcessedId,
  GovernanceSync, PandoMessage, Env,
}
use pando.Governance.Processed.{has_processed, add_processed}
use pando.Governance.Store.{proposal_of, record_decision}
use pando.Governance.Comments.{GovernanceError}
use pando.Governance.Votes.{
  own_vote, store_own_vote, finish_vote, vote_error, store_if_active, begin_vote, cast_vote,
  remote_status, remote_stake_outcome, apply_decision, handle_decision,
}
use pando.Governance.Archive.{
  remove_proposal_data, expire_all, is_archived, archive_each, max_proposals, evict,
  enforce_proposal_cap, archive_expired_proposals,
}
use pando.Governance.Queries.{get_proposal}
use pando.Governance.Writes.{
  Node, is_final, IsAuthentic, SameNode, Writes, Writes-trans, one, by_if, by_option, here, next,
  marks, sets_status, decides, casts, removes,
}
use pando.Governance.Decisions.{
  emit_vote_reward-Writes, resolve_proposal_stake-Writes, check_quorum-Writes,
  expire_if_needed-Writes,
}

remote_status-final : (o : Outcome) → is_final (remote_status o) ≡ true
remote_status-final Outcome.passed = refl
remote_status-final Outcome.rejected = refl
remote_status-final Outcome.expired = refl

pub handle_decision-Writes :
    (n : Node) (e : Env) (m : PandoMessage GovernanceDecision) (s : GovernanceSync)
    → Writes n s (handle_decision e m s)
unfolding handle_decision apply_decision
handle_decision-Writes n e m s =
    let d = m.payload in
    by_if (has_processed (ProcessedId.decision d.proposal_id) s.processed_ids) (λ h. here)
      (λ new. Writes-trans (next (one (marks (ProcessedId.decision d.proposal_id))) (decides d)) (
        by_option
          (proposal_of d.proposal_id
            (record_decision d (add_processed (ProcessedId.decision d.proposal_id) s)))
          (λ h. here)
          (λ p h.
            by_if (p.proposed_by == e.local_peer_id)
              (λ own.
                Writes-trans
                  (one (
                    sets_status d.proposal_id (remote_status d.outcome)
                      (λ q x y. remote_status-final d.outcome)))
                  (resolve_proposal_stake-Writes n e.now d.proposal_id
                    (remote_stake_outcome d.outcome) _))
              (λ other. one (
                sets_status d.proposal_id (remote_status d.outcome)
                  (λ q x y. remote_status-final d.outcome))))))

store_if_active-Writes :
    (n : Node) (e : Env) (v : GovernanceVote) (s : GovernanceSync)
    → IsAuthentic n v
    → Writes n s (store_if_active e v s).1
unfolding store_if_active store_own_vote
store_if_active-Writes n e v s authentic = elim (Option-cases (proposal_of v.proposal_id s)) [
  | inl missing ↦ rw (missing, store_if_active) here
  | inr (p, found) ↦ elim (Option-cases (vote_error e p)) [
    | inl fine ↦
        rw (found, fine, store_if_active)
          (next (one (casts v authentic)) (marks (ProcessedId.vote v.proposal_id v.voter)))
    | inr (x, thrown) ↦ rw (found, thrown, store_if_active) here
  ]
]

pub begin_vote-Writes :
    (n : Node) (e : Env) (id : ℕ) (c : VoteChoice) (r : List ℕ) (a : Option ℕ) (s : GovernanceSync)
    → SameNode n e
    → Writes n s (begin_vote e id c r a s).1
unfolding begin_vote
begin_vote-Writes n e id c r a s same = elim (Option-cases (proposal_of id s)) [
  | inl missing ↦ rw (missing, begin_vote) here
  | inr (p, found) ↦
      rw (found, begin_vote)
        (Writes-trans (expire_if_needed-Writes n e p s)
          (store_if_active-Writes n e (own_vote e id c r a) _ (inl same.0)))
]

pub finish_vote-Writes :
    (n : Node) (e : Env) (id : ℕ) (s : GovernanceSync) → Writes n s (finish_vote e id s)
unfolding finish_vote
finish_vote-Writes n e id s =
    Writes-trans (emit_vote_reward-Writes n e e.local_peer_id id s) (check_quorum-Writes n e id _)

finish_begun :
    (n : Node) (e : Env) (id : ℕ) (thrown : Option GovernanceError) (s : GovernanceSync)
    → Writes n s (elim thrown [ none ↦ finish_vote e id s | some x ↦ s ])
finish_begun n e id none s = finish_vote-Writes n e id s
finish_begun n e id (some x) s = here

pub cast_vote-Writes :
    (n : Node) (e : Env) (id : ℕ) (c : VoteChoice) (r : List ℕ) (a : Option ℕ) (s : GovernanceSync)
    → SameNode n e
    → Writes n s (cast_vote e id c r a s).1
unfolding cast_vote
cast_vote-Writes n e id c r a s same =
    Writes-trans (begin_vote-Writes n e id c r a s same)
      (finish_begun n e id (begin_vote e id c r a s).0 (begin_vote e id c r a s).1)

pub expire_all-Writes :
    (n : Node) (e : Env) (ps : List GovernanceProposal) (s : GovernanceSync)
    → Writes n s (expire_all e ps s)
unfolding expire_all
expire_all-Writes n e [] s = here
expire_all-Writes n e (p ∷ ps) s =
    Writes-trans (expire_if_needed-Writes n e p s) (expire_all-Writes n e ps _)

pub get_proposal-Writes :
    (n : Node) (e : Env) (id : ℕ) (s : GovernanceSync) → Writes n s (get_proposal e id s).1
unfolding get_proposal
get_proposal-Writes n e id s = elim (Option-cases (proposal_of id s)) [
  | inl missing ↦ rw (missing, get_proposal) here
  | inr (p, found) ↦ rw (found, get_proposal) (expire_if_needed-Writes n e p s)
]

archive_each-Writes :
    (n : Node) (now max_age : ℕ) (ps : List GovernanceProposal) (s : GovernanceSync)
    → n.removes_proposals ≡ true
    → Writes n s (archive_each now max_age ps s).1
unfolding archive_each
archive_each-Writes n now max_age [] s allowed = here
archive_each-Writes n now max_age (p ∷ ps) s allowed =
    elim (Bool-cases (is_archived now max_age s.votes p)) [
      | inl old ↦ rw (old) (
          Writes-trans (one (removes p.id allowed))
            (archive_each-Writes n now max_age ps (remove_proposal_data p.id s) allowed))
      | inr kept ↦ rw (kept) (archive_each-Writes n now max_age ps s allowed)
    ]

evict-Writes :
    (n : Node) (ps : List GovernanceProposal) (s : GovernanceSync)
    → n.removes_proposals ≡ true
    → Writes n s (evict ps s).1
unfolding evict
evict-Writes n [] s allowed = here
evict-Writes n (p ∷ ps) s allowed = elim (Bool-cases (leb (length s.proposals) max_proposals)) [
  | inl fits ↦ rw fits here
  | inr full ↦ rw full (
      Writes-trans (one (removes p.id allowed))
        (evict-Writes n ps (remove_proposal_data p.id s) allowed))
]

enforce_proposal_cap-Writes :
    (n : Node) (s : GovernanceSync)
    → n.removes_proposals ≡ true
    → Writes n s (enforce_proposal_cap s).1
unfolding enforce_proposal_cap
enforce_proposal_cap-Writes n s allowed =
    elim (Bool-cases (leb (length s.proposals) max_proposals)) [
      | inl fits ↦ rw (fits, enforce_proposal_cap) here
      | inr full ↦ rw (full, enforce_proposal_cap) (evict-Writes n _ s allowed)
    ]

pub archive_expired_proposals-Writes :
    (n : Node) (e : Env) (max_age : ℕ) (s : GovernanceSync)
    → n.removes_proposals ≡ true
    → Writes n s (archive_expired_proposals e max_age s).1
unfolding archive_expired_proposals
archive_expired_proposals-Writes n e max_age s allowed =
    Writes-trans
      (Writes-trans (expire_all-Writes n e s.proposals s)
        (archive_each-Writes n e.now max_age _ _ allowed))
      (enforce_proposal_cap-Writes n _ allowed)
