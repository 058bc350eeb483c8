-- ===== src/Governance/Creation.antt =====
-- `createProposal` of packages/node/src/kernel/governance.ts, in the parts between its
-- waits. The ids, which are
-- hashes and random numbers, are fields of the draft.
use pando.Common.{
  ℕ, ◌+◌, Bool, true, false, not, ◌&&◌, ◌||◌, Option, none, some, List, [], ◌∷◌, length, leb, ◌==◌,
  if◌then◌else◌,
}
use pando.Common.Int.{ℤ, pos, ltb_ℤ}
use pando.Common.Table.{put}
use pando.Common.Result.{Result, ok, err}
use pando.Ledger.Types.{lux}
use pando.Payment.Gate.{Gate, PaymentHold, can_afford, hold_payment}
use pando.Governance.Types.{
  ProposalStatus, ProposalCategory, GovernanceProposal, Ballots, ProcessedId, GovernanceSync, Env,
  proposal_key, ballots_key, thread_key, is_active, is_governance_change,
}
use pando.Governance.Processed.{add_processed, sanitize_text}
use pando.Governance.Store.{votes_on, insert_proposal}
use pando.Governance.Comments.{GovernanceError}
use pando.Governance.Proposals.{UpgradeValidation, auto_approve}

-- PROPOSAL_STAKE_LUX, EMERGENCY_STAKE_LUX, FREE_TIER_THRESHOLD
abbrev pub proposal_stake_lux : ℤ
proposal_stake_lux = pos (lux 10)

abbrev pub emergency_stake_lux : ℤ
emergency_stake_lux = pos (lux 50)

abbrev pub free_tier_threshold : ℤ
free_tier_threshold = pos (lux 100)

-- a proposal of the local peer that nobody has voted on yet
abbrev pub blocks_creation : Env → List Ballots → GovernanceProposal → Bool
blocks_creation e b p =
    is_active p.status
    && p.proposed_by == e.local_peer_id
    && leb e.now p.voting_ends_at
    && length (votes_on p.id b) == 0

abbrev pub any_proposal : (GovernanceProposal → Bool) → List GovernanceProposal → Bool
any_proposal f [] = false
any_proposal f (p ∷ ps) = if f p then true else any_proposal f ps

unfoldable pub has_proposal_history : ℕ → GovernanceSync → Bool
has_proposal_history peer s =
    any_proposal (λ p. p.proposed_by == peer) s.proposals
    || any_proposal (λ p. p.proposed_by == peer) s.database.proposals

-- the probe for a balance of at least the threshold; else 0
unfoldable pub get_proposer_balance : ℕ → Gate → ℤ
get_proposer_balance peer g =
    if can_afford peer free_tier_threshold g.ledger then free_tier_threshold else pos 0

-- what the caller of `createProposal` asks for, with the hashes it computes
pub record Draft : Type 0 where
  pub id : ℕ
  pub stake_hold_id : ℕ
  pub stake_task_id : ℕ
  pub title : List ℕ
  pub description : List ℕ
  pub voting_duration_ms : ℕ
  pub is_emergency : Bool
  pub category : Option ProposalCategory
  pub proposer_balance : Option ℤ
  pub upgrade_payload : Option ℕ
  pub signature : Option ℕ

-- `options?.proposerBalance ?? getProposerBalance(local)`
abbrev pub known_balance : Env → Draft → Gate → ℤ
known_balance e d g = elim d.proposer_balance [
  | none ↦ get_proposer_balance e.local_peer_id g
  | some b ↦ b
]

abbrev pub base_stake : Env → Draft → ℤ
base_stake e d =
    if d.is_emergency
    then emergency_stake_lux
    else if leb (e.peer_count + 1) e.upgrade_auto_approve_threshold
    then pos (lux 1)
    else proposal_stake_lux

-- the stake asked for: none for a first proposal below the threshold
unfoldable pub stake_for : Env → Draft → Gate → GovernanceSync → ℤ
stake_for e d g s =
    if not (has_proposal_history e.local_peer_id s)
      && ltb_ℤ (known_balance e d g) free_tier_threshold
    then pos 0
    else base_stake e d

-- what `createProposal` stakes: the amount, the hold and the gate after it
pub record Stake : Type 0 where
  pub amount : ℤ
  pub hold : Option ℕ
  pub payment_gate : Option Gate

abbrev pub held_stake : ℤ → Option PaymentHold × Gate → Result GovernanceError Stake
held_stake amount (none, g) = err GovernanceError.hold_failed
held_stake amount (some h, g) =
    ok (record { amount = amount; hold = some h.hold_id; payment_gate = some g })

unfoldable pub take_stake : Env → Draft → GovernanceSync → Result GovernanceError Stake
take_stake e d s = elim s.payment_gate [
  | none ↦ ok (record { amount = pos 0; hold = none; payment_gate = none })
  | some g ↦
      let amount = stake_for e d g s in
      if not (ltb_ℤ (pos 0) amount)
      then ok (record { amount = amount; hold = none; payment_gate = some g })
      else if not (can_afford e.local_peer_id amount g.ledger)
      then err GovernanceError.insufficient_stake
      else held_stake amount
          (hold_payment e.now d.stake_hold_id e.local_peer_id d.stake_task_id amount g)
]

-- 24 hours for a governance change, half an hour for an emergency
abbrev pub voting_duration : Draft → ℕ
voting_duration d =
    if is_governance_change d.category
    then 86_400_000
    else if d.is_emergency
    then 1_800_000
    else d.voting_duration_ms

abbrev pub new_proposal : Env → Draft → Stake → GovernanceProposal
new_proposal e d k = record {
  id = d.id;
  title = sanitize_text d.title;
  description = sanitize_text d.description;
  proposed_by = e.local_peer_id;
  created_at = e.now;
  voting_ends_at = e.now + voting_duration d;
  status = ProposalStatus.active;
  stake_amount = k.amount;
  stake_hold_id = k.hold;
  category = d.category;
  reviewer_count = 0;
  human_only = false;
  upgrade_payload = d.upgrade_payload;
  proposer_signature = d.signature;
}

-- the writes of a new proposal, with an empty thread and no votes
unfoldable pub store_new : GovernanceProposal → GovernanceSync → GovernanceSync
store_new p s = add_processed (ProcessedId.proposal p.id) (record s {
  proposals = put proposal_key p s.proposals;
  comments = put thread_key (record { proposal_id = p.id; comments = [] }) s.comments;
  votes = put ballots_key (record { proposal_id = p.id; votes = [] }) s.votes;
  database = record s.database { proposals = insert_proposal p s.database.proposals };
})

-- `createProposal` up to the signing of the proposal: the proposal, and the state with its stake held
unfoldable pub begin_creation :
    Env → Draft → GovernanceSync → Result GovernanceError (GovernanceProposal × GovernanceSync)
begin_creation e d s =
    if any_proposal (blocks_creation e s.votes) s.proposals
    then err GovernanceError.rate_limited
    else elim (take_stake e d s) [
      | err x ↦ err x
      | ok k ↦ ok (new_proposal e d k, record s { payment_gate = k.payment_gate })
    ]

unfoldable pub create_proposal :
    Env → UpgradeValidation → Draft → GovernanceSync → Result GovernanceError GovernanceSync
create_proposal e v d s = elim (begin_creation e d s) [
  | err x ↦ err x
  | ok begun ↦ ok (auto_approve e v begun.0 (store_new begun.0 begun.1))
]
