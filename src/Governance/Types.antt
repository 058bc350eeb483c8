-- ===== src/Governance/Types.antt =====
-- The rows and messages of governance (packages/shared/src/types.ts), and the state of
-- `GovernanceSync` (packages/node/src/kernel/governance.ts): its Maps, its sets, the payment gate
-- and its SQLite tables. Peer ids, hashes and ids are numbers; a text that the code cleans is its
-- list of character codes; Lux amounts are in the ledger's units, and 0 Lux stands for no stake.
use pando.Common.{ℕ, Bool, true, false, Option, none, some, List}
use pando.Common.Int.{ℤ}
use pando.Ledger.Types.{WorkType}
use pando.Payment.Gate.{Gate}

pub data ProposalStatus : Type 0 where
  active in_review passed rejected expired revision_requested : ProposalStatus

pub data VoteChoice : Type 0 where
  approve reject abstain : VoteChoice

pub data ProposalCategory : Type 0 where
  code_change config_change economic_change governance_change social emergency upgrade :
      ProposalCategory

-- `outcome` of a decision
pub data Outcome : Type 0 where
  passed rejected expired : Outcome

pub record GovernanceProposal : Type 0 where
  pub id : ℕ
  pub title : List ℕ
  pub description : List ℕ
  pub proposed_by : ℕ
  pub created_at : ℕ
  pub voting_ends_at : ℕ
  pub status : ProposalStatus
  pub stake_amount : ℤ
  pub stake_hold_id : Option ℕ
  pub category : Option ProposalCategory
  pub reviewer_count : ℕ
  pub human_only : Bool
  pub upgrade_payload : Option ℕ
  pub proposer_signature : Option ℕ

pub record GovernanceComment : Type 0 where
  pub id : ℕ
  pub proposal_id : ℕ
  pub from : ℕ
  pub content : List ℕ
  pub created_at : ℕ

pub record GovernanceVote : Type 0 where
  pub proposal_id : ℕ
  pub voter : ℕ
  pub choice : VoteChoice
  pub reasoning : List ℕ
  pub created_at : ℕ
  pub model_attestation : Option ℕ

pub record GovernanceDecision : Type 0 where
  pub proposal_id : ℕ
  pub outcome : Outcome
  pub votes_for : ℕ
  pub votes_against : ℕ
  pub votes_abstain : ℕ
  pub decided_at : ℕ

-- an entry of `votes`: the votes on one proposal by voter
pub record Ballots : Type 0 where
  pub proposal_id : ℕ
  pub votes : List GovernanceVote

-- an entry of `comments`
pub record Thread : Type 0 where
  pub proposal_id : ℕ
  pub comments : List GovernanceComment

-- the strings of `processedIds`
pub data ProcessedId : Type 0 where
  proposal comment decision : ℕ → ProcessedId
  vote : ℕ → ℕ → ProcessedId

-- a key of `rewardedVotes`
pub record VoteKey : Type 0 where
  pub proposal_id : ℕ
  pub voter : ℕ

-- a call of `rewardWork`
pub record RewardCall : Type 0 where
  pub peer_id : ℕ
  pub work_type : WorkType
  pub proposal_id : ℕ

-- the four tables
pub record Database : Type 0 where
  pub proposals : List GovernanceProposal
  pub comments : List GovernanceComment
  pub votes : List GovernanceVote
  pub decisions : List GovernanceDecision

pub record GovernanceSync : Type 0 where
  pub proposals : List GovernanceProposal
  pub comments : List Thread
  pub votes : List Ballots
  pub decisions : List GovernanceDecision
  pub processed_ids : List ProcessedId
  pub rewarded_votes : List VoteKey
  pub rewards : List RewardCall
  pub payment_gate : Option Gate
  pub database : Database

-- what `applyWeighting` returns, in hundredths of a vote
pub record WeightedVoteResult : Type 0 where
  pub approve_weight : ℕ
  pub reject_weight : ℕ
  pub abstain_weight : ℕ

-- A message whose payload is of one kind.
pub record PandoMessage (A : Type 0) : Type 0 where
  pub from : ℕ
  pub signature : Option ℕ
  pub payload : A

-- What a call reads from outside the class: the clock, the local peer, `getPeerCount`, the
-- callbacks that are set, and the libraries' signature checks, which may throw (none).
pub record Env : Type 0 where
  pub now : ℕ
  pub local_peer_id : ℕ
  pub peer_count : ℕ
  pub rewards_work : Bool
  pub reward_id : RewardCall → ℕ
  pub reward_proof : RewardCall → List ℕ
  pub upgrade_auto_approve_threshold : ℕ
  pub apply_weighting : Option (List GovernanceVote → ℕ → WeightedVoteResult)
  pub verify_proposal_signature : GovernanceProposal → ℕ → Option Bool
  pub verify_vote : PandoMessage GovernanceVote → ℕ → ℕ → Option Bool
  pub verify_comment : PandoMessage GovernanceComment → ℕ → ℕ → Option Bool

abbrev pub proposal_key : GovernanceProposal → ℕ
proposal_key p = p.id

abbrev pub comment_key : GovernanceComment → ℕ
comment_key c = c.id

abbrev pub voter_key : GovernanceVote → ℕ
voter_key v = v.voter

abbrev pub decision_key : GovernanceDecision → ℕ
decision_key d = d.proposal_id

abbrev pub ballots_key : Ballots → ℕ
ballots_key b = b.proposal_id

abbrev pub thread_key : Thread → ℕ
thread_key t = t.proposal_id

abbrev pub is_active : ProposalStatus → Bool
is_active ProposalStatus.active = true
is_active ProposalStatus.in_review = false
is_active ProposalStatus.passed = false
is_active ProposalStatus.rejected = false
is_active ProposalStatus.expired = false
is_active ProposalStatus.revision_requested = false

-- `proposal.category === 'governance_change'`
abbrev pub is_governance_change : Option ProposalCategory → Bool
is_governance_change none = false
is_governance_change (some ProposalCategory.code_change) = false
is_governance_change (some ProposalCategory.config_change) = false
is_governance_change (some ProposalCategory.economic_change) = false
is_governance_change (some ProposalCategory.governance_change) = true
is_governance_change (some ProposalCategory.social) = false
is_governance_change (some ProposalCategory.emergency) = false
is_governance_change (some ProposalCategory.upgrade) = false

-- `proposal.category === 'upgrade'`
abbrev pub is_upgrade : Option ProposalCategory → Bool
is_upgrade none = false
is_upgrade (some ProposalCategory.code_change) = false
is_upgrade (some ProposalCategory.config_change) = false
is_upgrade (some ProposalCategory.economic_change) = false
is_upgrade (some ProposalCategory.governance_change) = false
is_upgrade (some ProposalCategory.social) = false
is_upgrade (some ProposalCategory.emergency) = false
is_upgrade (some ProposalCategory.upgrade) = true
