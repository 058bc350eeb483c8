-- ===== src/Governance/Stakes.antt =====
-- Rewards and stakes: `emitVoteReward`, `emitProposalReward` and `resolveProposalStake`
-- (packages/node/src/kernel/governance.ts). A reward is minted by the ledger's `rewardWork`, whose
-- errors the code catches; its calls are recorded.
use pando.Common.{
  List, ℕ, not, ◌||◌, Option, none, some, [], ◌∷◌, ◌++◌, length, ◌==◌, if◌then◌else◌,
}
use pando.Common.Int.{pos, ltb_ℤ}
use pando.Ledger.Types.{WorkType, network_account}
use pando.Common.Result.{ok, err}
use pando.Ledger.Contributions.{reward_work}
use pando.Payment.Gate.{Gate, refund_payment, release_payment}
use pando.Governance.Types.{GovernanceProposal, GovernanceSync, Env, RewardCall}
use pando.Governance.Store.{proposal_of, votes_on, was_rewarded, add_rewarded}

-- `rewardWork` is that of the ledger that the gate works on (packages/node/src/init-kernel.ts)
unfoldable pub mint_reward : ℕ → ℕ → ℕ → WorkType → List ℕ → Gate → Gate
mint_reward now id peer work proof g = elim (reward_work now id peer work proof g.ledger) [
  | ok done ↦ record g { ledger = done.1 }
  | err thrown ↦ g
]

-- without a gate the state has no ledger, and only the call is kept
unfoldable pub call_reward_work : Env → RewardCall → GovernanceSync → GovernanceSync
call_reward_work e call s =
    let called = record s { rewards = s.rewards ++ call ∷ [] } in
    elim s.payment_gate [
      | none ↦ called
      | some g ↦ record called {
        payment_gate = some (
            mint_reward e.now (e.reward_id call) call.peer_id call.work_type (e.reward_proof call)
              g);
      }
    ]

unfoldable pub emit_vote_reward : Env → ℕ → ℕ → GovernanceSync → GovernanceSync
emit_vote_reward e voter id s =
    if was_rewarded id voter s.rewarded_votes || not e.rewards_work
    then s
    else call_reward_work e
        (record { peer_id = voter; work_type = WorkType.vote_cast; proposal_id = id })
        (record s { rewarded_votes = add_rewarded id voter s.rewarded_votes })

unfoldable pub emit_proposal_reward : Env → ℕ → ℕ → GovernanceSync → GovernanceSync
emit_proposal_reward e proposer id s =
    if not e.rewards_work
    then s
    else call_reward_work e
        (record { peer_id = proposer; work_type = WorkType.proposal_accepted; proposal_id = id }) s

-- the outcomes that `resolveProposalStake` takes
pub data StakeOutcome : Type 0 where
  passed rejected expired revision_requested : StakeOutcome

-- the `switch` over the outcome, for a proposal with `votes` votes
unfoldable pub settle_stake : ℕ → ℕ → StakeOutcome → ℕ → Gate → Gate
settle_stake now hold StakeOutcome.passed votes g = (refund_payment now hold g).1
settle_stake now hold StakeOutcome.rejected votes g = (release_payment now hold network_account g).1
settle_stake now hold StakeOutcome.expired votes g =
    if votes == 0
    then (refund_payment now hold g).1
    else (release_payment now hold network_account g).1
settle_stake now hold StakeOutcome.revision_requested votes g = g

-- the hold of a proposal whose stake is to be resolved, past the early returns
abbrev pub stake_hold : GovernanceProposal → Option ℕ
stake_hold p = elim p.stake_hold_id [
  | none ↦ none
  | some hold ↦ if ltb_ℤ (pos 0) p.stake_amount then some hold else none
]

abbrev pub resolve_gate : ℕ → GovernanceProposal → StakeOutcome → ℕ → Gate → Gate
resolve_gate now p outcome votes g = elim (stake_hold p) [
  | none ↦ g
  | some hold ↦ settle_stake now hold outcome votes g
]

unfoldable pub resolve_proposal_stake : ℕ → ℕ → StakeOutcome → GovernanceSync → GovernanceSync
resolve_proposal_stake now id outcome s = elim (proposal_of id s) [
  | none ↦ s
  | some p ↦ elim s.payment_gate [
    | none ↦ s
    | some g ↦ record s {
      payment_gate = some (resolve_gate now p outcome (length (votes_on id s.votes)) g);
    }
  ]
]
