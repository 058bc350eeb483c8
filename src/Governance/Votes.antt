-- ===== src/Governance/Votes.antt =====
-- Votes and decisions of packages/node/src/kernel/governance.ts: `handleVote`, `castVote` and
-- `handleDecision`.
use pando.Common.{
  ℕ, Bool, false, not, ◌&&◌, ◌||◌, Option, none, some, List, ltb, ◌==◌, if◌then◌else◌,
}
use pando.Governance.Processed.{has_processed, add_processed}
use pando.Governance.Types.{
  ProposalStatus, VoteChoice, Outcome, GovernanceProposal, GovernanceVote, GovernanceDecision,
  ProcessedId, GovernanceSync, PandoMessage, Env, is_active,
}
use pando.Governance.Store.{proposal_of, set_status, record_decision, record_vote}
use pando.Governance.Stakes.{StakeOutcome, emit_vote_reward, resolve_proposal_stake}
use pando.Governance.Quorum.{check_quorum, expire_if_needed}
use pando.Governance.Comments.{GovernanceError}

-- whether a vote is by the sender of its message, and signed unless it is local
abbrev pub vote_allowed : Env → PandoMessage GovernanceVote → Bool
vote_allowed e m =
    let v = m.payload in
    m.from == v.voter
    && (v.voter == e.local_peer_id || elim m.signature [
      | none ↦ false
      | some sig ↦ elim (e.verify_vote m sig v.voter) [ none ↦ false | some valid ↦ valid ]
    ])

abbrev pub reward_remote : Env → GovernanceVote → GovernanceSync → GovernanceSync
reward_remote e v s =
    if v.voter == e.local_peer_id then s else emit_vote_reward e v.voter v.proposal_id s

-- a vote that is allowed and new
unfoldable pub accept_vote : Env → GovernanceVote → GovernanceSync → GovernanceSync
accept_vote e v s =
    check_quorum e v.proposal_id
      (reward_remote e v (record_vote v (add_processed (ProcessedId.vote v.proposal_id v.voter) s)))

unfoldable pub handle_vote : Env → PandoMessage GovernanceVote → GovernanceSync → GovernanceSync
handle_vote e m s =
    let v = m.payload in
    if not (vote_allowed e m)
    then s
    else if has_processed (ProcessedId.vote v.proposal_id v.voter) s.processed_ids
    then s
    else accept_vote e v s

-- a local vote is stored before it is published
abbrev pub own_vote : Env → ℕ → VoteChoice → List ℕ → Option ℕ → GovernanceVote
own_vote e id choice reasoning attestation = record {
  proposal_id = id;
  voter = e.local_peer_id;
  choice = choice;
  reasoning = reasoning;
  created_at = e.now;
  model_attestation = attestation;
}

unfoldable pub store_own_vote : GovernanceVote → GovernanceSync → GovernanceSync
store_own_vote v s = add_processed (ProcessedId.vote v.proposal_id v.voter) (record_vote v s)

-- and rewarded and counted after it
unfoldable pub finish_vote : Env → ℕ → GovernanceSync → GovernanceSync
finish_vote e id s = check_quorum e id (emit_vote_reward e e.local_peer_id id s)

-- the checks of `castVote` on the proposal as it is after `expireIfNeeded`
abbrev pub vote_error : Env → GovernanceProposal → Option GovernanceError
vote_error e p =
    if not (is_active p.status)
    then some GovernanceError.not_active
    else if ltb p.voting_ends_at e.now
    then some GovernanceError.voting_ended
    else none

-- `castVote` past `expireIfNeeded`, up to the publication
unfoldable pub store_if_active :
    Env → GovernanceVote → GovernanceSync → Option GovernanceError × GovernanceSync
store_if_active e v s = elim (proposal_of v.proposal_id s) [
  | none ↦ (some GovernanceError.proposal_not_found, s)
  | some p ↦ elim (vote_error e p) [ some x ↦ (some x, s) | none ↦ (none, store_own_vote v s) ]
]

-- the error thrown, if any, and the state: `expireIfNeeded` has run even if an error is thrown
unfoldable pub begin_vote :
    Env
    → ℕ
    → VoteChoice
    → List ℕ
    → Option ℕ
    → GovernanceSync
    → Option GovernanceError × GovernanceSync
begin_vote e id choice reasoning attestation s = elim (proposal_of id s) [
  | none ↦ (some GovernanceError.proposal_not_found, s)
  | some p ↦ store_if_active e (own_vote e id choice reasoning attestation) (expire_if_needed e p s)
]

unfoldable pub cast_vote :
    Env
    → ℕ
    → VoteChoice
    → List ℕ
    → Option ℕ
    → GovernanceSync
    → Option GovernanceError × GovernanceSync
cast_vote e id choice reasoning attestation s =
    let (thrown, begun) = begin_vote e id choice reasoning attestation s in
    (thrown, elim thrown [ none ↦ finish_vote e id begun | some x ↦ begun ])

-- `decision.outcome === 'passed' ? 'passed' : 'rejected'`
abbrev pub remote_status : Outcome → ProposalStatus
remote_status Outcome.passed = ProposalStatus.passed
remote_status Outcome.rejected = ProposalStatus.rejected
remote_status Outcome.expired = ProposalStatus.rejected

-- the outcome that is passed on to the stake as it came
abbrev pub remote_stake_outcome : Outcome → StakeOutcome
remote_stake_outcome Outcome.passed = StakeOutcome.passed
remote_stake_outcome Outcome.rejected = StakeOutcome.rejected
remote_stake_outcome Outcome.expired = StakeOutcome.expired

-- the status and the stake of a known proposal
unfoldable pub apply_decision : Env → GovernanceDecision → GovernanceSync → GovernanceSync
apply_decision e d s = elim (proposal_of d.proposal_id s) [
  | none ↦ s
  | some p ↦
      let decided = set_status d.proposal_id (remote_status d.outcome) s in
      if p.proposed_by == e.local_peer_id
      then resolve_proposal_stake e.now d.proposal_id (remote_stake_outcome d.outcome) decided
      else decided
]

unfoldable pub handle_decision :
    Env → PandoMessage GovernanceDecision → GovernanceSync → GovernanceSync
handle_decision e m s =
    let d = m.payload in
    if has_processed (ProcessedId.decision d.proposal_id) s.processed_ids
    then s
    else apply_decision e d
        (record_decision d (add_processed (ProcessedId.decision d.proposal_id) s))
