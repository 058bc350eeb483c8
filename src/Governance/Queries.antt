-- ===== src/Governance/Queries.antt =====
-- The queries of packages/node/src/kernel/governance.ts. `getProposals` and `getProposal` expire
-- what they read.
use pando.Common.{
  ℕ, Bool, true, false, ◌&&◌, Option, none, some, List, length, keep_if, count_if, leb,
  if◌then◌else◌,
}
use pando.Common.Int.{ℤ, pos, ltb_ℤ}
use pando.Common.Table.{find, sum}
use pando.Common.Table.Sort.{sort_by}
use pando.Governance.Types.{
  ProposalStatus, GovernanceProposal, GovernanceComment, GovernanceVote, GovernanceDecision,
  GovernanceSync, Env, decision_key, is_active, is_governance_change,
}
use pando.Governance.Store.{proposal_of, votes_on, comments_on}
use pando.Governance.Quorum.{expire_if_needed}
use pando.Governance.Archive.{expire_all}

-- by `createdAt`, the newest first
abbrev pub sort_newest : List GovernanceProposal → List GovernanceProposal
sort_newest ps = sort_by (λ p q. leb q.created_at p.created_at) ps

unfoldable pub get_proposals : Env → GovernanceSync → List GovernanceProposal × GovernanceSync
get_proposals e s = let fresh = expire_all e s.proposals s in (sort_newest fresh.proposals, fresh)

unfoldable pub get_active_proposals :
    Env → GovernanceSync → List GovernanceProposal × GovernanceSync
get_active_proposals e s =
    let (all, fresh) = get_proposals e s in (keep_if (λ p. is_active p.status) all, fresh)

unfoldable pub get_proposal : Env → ℕ → GovernanceSync → Option GovernanceProposal × GovernanceSync
get_proposal e id s = elim (proposal_of id s) [
  | none ↦ (none, s)
  | some p ↦ let fresh = expire_if_needed e p s in (proposal_of id fresh, fresh)
]

unfoldable pub get_comments : ℕ → GovernanceSync → List GovernanceComment
get_comments id s = comments_on id s.comments

unfoldable pub get_votes : ℕ → GovernanceSync → List GovernanceVote
get_votes id s = votes_on id s.votes

unfoldable pub get_decision : ℕ → GovernanceSync → Option GovernanceDecision
get_decision id s = find decision_key id s.decisions

-- a stake counts while its proposal is active, in review or under revision
abbrev pub is_staked : ProposalStatus → Bool
is_staked ProposalStatus.active = true
is_staked ProposalStatus.in_review = true
is_staked ProposalStatus.passed = false
is_staked ProposalStatus.rejected = false
is_staked ProposalStatus.expired = false
is_staked ProposalStatus.revision_requested = true

abbrev pub pooled_stake : GovernanceProposal → ℤ
pooled_stake p =
    if ltb_ℤ (pos 0) p.stake_amount && is_staked p.status then p.stake_amount else pos 0

-- `reviewedCount` and `avgRiskScore` are always 0
pub record GovernanceStats : Type 0 where
  pub total_proposals : ℕ
  pub stake_pool : ℤ
  pub human_only_count : ℕ
  pub governance_change_count : ℕ

unfoldable pub get_governance_stats : GovernanceSync → GovernanceStats
get_governance_stats s = record {
  total_proposals = length s.proposals;
  stake_pool = sum pooled_stake s.proposals;
  human_only_count = count_if (λ p. p.human_only) s.proposals;
  governance_change_count = count_if (λ p. is_governance_change p.category) s.proposals;
}
