-- ===== src/Governance/Quorum.antt =====
-- `checkQuorum`, `getQuorum` and `expireIfNeeded` (packages/node/src/kernel/governance.ts). The
-- approval ratio 0.8 is compared exactly, and the weights are whole hundredths.
use pando.Common.{
  ℕ, ◌+◌, ◌*◌, ◌/◌, Bool, true, false, not, ◌&&◌, ◌||◌, Option, none, some, List, length, count_if,
  ltb, leb, ◌==◌, if◌then◌else◌,
}
use pando.Common.Table.{find}
use pando.Governance.Processed.{add_processed}
use pando.Governance.Types.{
  ProposalStatus, VoteChoice, Outcome, GovernanceProposal, GovernanceVote, GovernanceDecision,
  ProcessedId, GovernanceSync, WeightedVoteResult, Env, ballots_key, is_active,
  is_governance_change,
}
use pando.Governance.Store.{proposal_of, votes_on, set_status, record_decision}
use pando.Governance.Stakes.{StakeOutcome, emit_proposal_reward, resolve_proposal_stake}

abbrev pub max : ℕ → ℕ → ℕ
max m n = if ltb m n then n else m

abbrev pub min : ℕ → ℕ → ℕ
min m n = if ltb m n then m else n

-- `Math.ceil(n * 0.5)` and `Math.ceil(n * 0.05)`
unfoldable pub get_quorum : ℕ → ℕ
get_quorum peers =
    let n = peers + 1 in
    if n == 1
    then 1
    else if leb n 10
    then max 2 ((n + 1) / 2)
    else if leb n 100
    then 5
    else if leb n 1000
    then 10
    else (n + 19) / 20

-- GOVERNANCE_CHANGE_MIN_VOTES
abbrev pub governance_change_min_votes : ℕ
governance_change_min_votes = 5

-- the quorum of the proposal's category, before the rules for small networks
abbrev pub category_quorum : ℕ → GovernanceProposal → ℕ
category_quorum peers p =
    if is_governance_change p.category
    then min governance_change_min_votes (peers + 1)
    else if p.human_only
    then 2
    else get_quorum peers

-- the quorum that `totalVotes` is compared with
unfoldable pub needed_votes : ℕ → GovernanceProposal → ℕ → ℕ
needed_votes peers p votes =
    if ltb (peers + 1) 10
    then 1
    else if leb (peers + 1) votes && ltb votes (category_quorum peers p)
    then peers + 1
    else category_quorum peers p

abbrev pub is_choice : VoteChoice → VoteChoice → Bool
is_choice VoteChoice.approve VoteChoice.approve = true
is_choice VoteChoice.approve VoteChoice.reject = false
is_choice VoteChoice.approve VoteChoice.abstain = false
is_choice VoteChoice.reject VoteChoice.approve = false
is_choice VoteChoice.reject VoteChoice.reject = true
is_choice VoteChoice.reject VoteChoice.abstain = false
is_choice VoteChoice.abstain VoteChoice.approve = false
is_choice VoteChoice.abstain VoteChoice.reject = false
is_choice VoteChoice.abstain VoteChoice.abstain = true

abbrev pub count_choice : VoteChoice → List GovernanceVote → ℕ
count_choice c votes = count_if (λ v. is_choice c v.choice) votes

-- `votesFor`, `votesAgainst` and `votesAbstain` of the decision, and the outcome
pub record Tally : Type 0 where
  pub votes_for : ℕ
  pub votes_against : ℕ
  pub votes_abstain : ℕ
  pub passes : Bool

-- whether what is for it suffices: 80% of the deciding votes, or a majority of them
abbrev pub approved : GovernanceProposal → ℕ → ℕ → Bool
approved p for_it against =
    if is_governance_change p.category
    then leb (4 * (for_it + against)) (5 * for_it)
    else ltb against for_it

-- `Math.round` of a weight
abbrev pub round_weight : ℕ → ℕ
round_weight w = (w + 50) / 100

-- none while all abstained
unfoldable pub tally_counts : GovernanceProposal → List GovernanceVote → Option Tally
tally_counts p votes =
    let for_it = count_choice VoteChoice.approve votes in
    let against = count_choice VoteChoice.reject votes in
    if for_it + against == 0
    then none
    else some (record {
      votes_for = for_it;
      votes_against = against;
      votes_abstain = count_choice VoteChoice.abstain votes;
      passes = approved p for_it against;
    })

unfoldable pub tally_weights : GovernanceProposal → WeightedVoteResult → Option Tally
tally_weights p w =
    if w.approve_weight + w.reject_weight == 0
    then none
    else some (record {
      votes_for = round_weight w.approve_weight;
      votes_against = round_weight w.reject_weight;
      votes_abstain = round_weight w.abstain_weight;
      passes = approved p w.approve_weight w.reject_weight;
    })

-- `getWeightedVoteResult`: null without a reputation service, and without a vote
abbrev pub get_weighted_vote_result : Env → List GovernanceVote → Option WeightedVoteResult
get_weighted_vote_result e votes = elim e.apply_weighting [
  | none ↦ none
  | some weigh ↦ if length votes == 0 then none else some (weigh votes (e.peer_count + 1))
]

unfoldable pub tally : Env → GovernanceProposal → List GovernanceVote → Option Tally
tally e p votes = elim (get_weighted_vote_result e votes) [
  | none ↦ tally_counts p votes
  | some w ↦ tally_weights p w
]

abbrev pub outcome_of : Bool → Outcome
outcome_of true = Outcome.passed
outcome_of false = Outcome.rejected

abbrev pub status_of : Bool → ProposalStatus
status_of true = ProposalStatus.passed
status_of false = ProposalStatus.rejected

abbrev pub stake_outcome_of : Bool → StakeOutcome
stake_outcome_of true = StakeOutcome.passed
stake_outcome_of false = StakeOutcome.rejected

abbrev pub new_decision : ℕ → ℕ → Tally → GovernanceDecision
new_decision now id t = record {
  proposal_id = id;
  outcome = outcome_of t.passes;
  votes_for = t.votes_for;
  votes_against = t.votes_against;
  votes_abstain = t.votes_abstain;
  decided_at = now;
}

-- the writes of a decision
unfoldable pub conclude : Env → GovernanceProposal → Tally → GovernanceSync → GovernanceSync
conclude e p t s =
    let decided =
      set_status p.id (status_of t.passes) (
        add_processed (ProcessedId.decision p.id)
          (record_decision (new_decision e.now p.id t) s)) in
    let rewarded =
      if t.passes then emit_proposal_reward e p.proposed_by p.id decided else decided in
    resolve_proposal_stake e.now p.id (stake_outcome_of t.passes) rewarded

-- the votes of a proposal are counted once there are enough of them
unfoldable pub count_votes :
    Env → GovernanceProposal → List GovernanceVote → GovernanceSync → GovernanceSync
count_votes e p votes s =
    if leb (needed_votes e.peer_count p (length votes)) (length votes)
    then elim (tally e p votes) [ none ↦ s | some t ↦ conclude e p t s ]
    else s

unfoldable pub check_quorum : Env → ℕ → GovernanceSync → GovernanceSync
check_quorum e id s = elim (proposal_of id s) [
  | none ↦ s
  | some p ↦
      if is_active p.status
      then elim (find ballots_key id s.votes) [ none ↦ s | some b ↦ count_votes e p b.votes s ]
      else s
]

-- a proposal whose voting period has ended is decided if `getQuorum` is reached, else it expires
unfoldable pub expire_if_needed : Env → GovernanceProposal → GovernanceSync → GovernanceSync
expire_if_needed e p s =
    if not (is_active p.status) || leb e.now p.voting_ends_at
    then s
    else if leb (get_quorum e.peer_count) (length (votes_on p.id s.votes))
    then check_quorum e p.id s
    else resolve_proposal_stake e.now p.id StakeOutcome.expired
        (set_status p.id ProposalStatus.expired s)
