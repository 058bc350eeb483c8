-- ===== src/Governance/Sync.antt =====
-- Synchronization of packages/node/src/kernel/governance.ts: `handleSyncRequest` and
-- `handleSyncResponse`, which hands what a peer sends to the handlers, in a message from that peer
-- and without a signature.
use pando.Common.{
  ℕ, ◌+◌, Bool, not, ◌&&◌, ◌||◌, none, some, List, [], ◌∷◌, ◌++◌, map, ltb, if◌then◌else◌, includes,
}
use pando.Governance.Types.{
  GovernanceProposal, GovernanceComment, GovernanceVote, GovernanceDecision, ProcessedId,
  GovernanceSync, PandoMessage, Env, proposal_key, is_active,
}
use pando.Governance.Processed.{has_processed}
use pando.Governance.Store.{add_rewarded}
use pando.Governance.Comments.{handle_comment}
use pando.Governance.Proposals.{handle_proposal}
use pando.Governance.Votes.{handle_vote, handle_decision}
use pando.Governance.Queries.{get_proposals, get_comments, get_votes, get_decision}

pub record SyncPayload : Type 0 where
  pub proposals : List GovernanceProposal
  pub comments : List GovernanceComment
  pub votes : List GovernanceVote
  pub decisions : List GovernanceDecision

-- what is known of the proposals, each in turn
abbrev pub comments_of : List GovernanceProposal → GovernanceSync → List GovernanceComment
comments_of [] s = []
comments_of (p ∷ ps) s = get_comments p.id s ++ comments_of ps s

abbrev pub votes_of : List GovernanceProposal → GovernanceSync → List GovernanceVote
votes_of [] s = []
votes_of (p ∷ ps) s = get_votes p.id s ++ votes_of ps s

abbrev pub decisions_of : List GovernanceProposal → GovernanceSync → List GovernanceDecision
decisions_of [] s = []
decisions_of (p ∷ ps) s =
    let rest = decisions_of ps s in elim (get_decision p.id s) [ none ↦ rest | some d ↦ d ∷ rest ]

-- the payload that is sent to the peer
unfoldable pub handle_sync_request : Env → GovernanceSync → SyncPayload × GovernanceSync
handle_sync_request e s =
    let (proposals, fresh) = get_proposals e s in
    (
      record {
        proposals = proposals;
        comments = comments_of proposals fresh;
        votes = votes_of proposals fresh;
        decisions = decisions_of proposals fresh;
      },
      fresh,
    )

-- `{ type, from: message.from, timestamp, payload }`: no signature
abbrev pub relayed : {A : Type 0} → ℕ → A → PandoMessage A
relayed from x = record { from = from; signature = none; payload = x }

-- SYNC_PROPOSAL_MAX_AGE_MS
abbrev pub sync_proposal_max_age_ms : ℕ
sync_proposal_max_age_ms = 604_800_000

abbrev pub is_stale : Env → GovernanceProposal → Bool
is_stale e p = ltb (p.created_at + sync_proposal_max_age_ms) e.now && not (is_active p.status)

-- the loop over the proposals, with the ids accepted so far
unfoldable pub sync_proposals :
    Env → ℕ → List GovernanceProposal → List ℕ → GovernanceSync → List ℕ × GovernanceSync
sync_proposals e from [] accepted s = (accepted, s)
sync_proposals e from (p ∷ ps) accepted s =
    if is_stale e p
    then sync_proposals e from ps accepted s
    else sync_proposals e from ps (p.id ∷ accepted) (handle_proposal e (relayed from p) s)

unfoldable pub sync_comments :
    Env → ℕ → List ℕ → List GovernanceComment → GovernanceSync → GovernanceSync
sync_comments e from accepted [] s = s
sync_comments e from accepted (c ∷ cs) s =
    sync_comments e from accepted cs
      (if includes c.proposal_id accepted then handle_comment e (relayed from c) s else s)

-- a vote that is not processed yet is marked as rewarded, then handled
unfoldable pub sync_vote : Env → ℕ → List ℕ → GovernanceVote → GovernanceSync → GovernanceSync
sync_vote e from accepted v s =
    if not (includes v.proposal_id accepted)
      || has_processed (ProcessedId.vote v.proposal_id v.voter) s.processed_ids
    then s
    else handle_vote e (relayed from v)
        (record s { rewarded_votes = add_rewarded v.proposal_id v.voter s.rewarded_votes })

unfoldable pub sync_votes : Env → ℕ → List ℕ → List GovernanceVote → GovernanceSync → GovernanceSync
sync_votes e from accepted [] s = s
sync_votes e from accepted (v ∷ vs) s =
    sync_votes e from accepted vs (sync_vote e from accepted v s)

unfoldable pub sync_decisions :
    Env → ℕ → List ℕ → List GovernanceDecision → GovernanceSync → GovernanceSync
sync_decisions e from accepted [] s = s
sync_decisions e from accepted (d ∷ ds) s =
    sync_decisions e from accepted ds
      (if includes d.proposal_id accepted then handle_decision e (relayed from d) s else s)

unfoldable pub handle_sync_response : Env → ℕ → SyncPayload → GovernanceSync → GovernanceSync
handle_sync_response e from payload s =
    let (accepted, s1) = sync_proposals e from payload.proposals (map proposal_key s.proposals) s in
    sync_decisions e from accepted payload.decisions
      (sync_votes e from accepted payload.votes (sync_comments e from accepted payload.comments s1))
