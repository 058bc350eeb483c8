-- ===== src/Governance/Decisions.antt =====
-- `checkQuorum`, `expireIfNeeded` and the steps of stakes and rewards
-- (packages/node/src/kernel/governance.ts) as writes.
use pando.Common.{
  ℕ, List, ◌≡◌, inl, inr, refl, Bool, true, false, not, ◌||◌, ◌==◌, leb, Bool-cases, Option-cases,
  length,
}
use pando.Common.Table.{find}
use pando.Payment.Gate.{Gate}
use pando.Governance.Types.{
  ProposalStatus, GovernanceProposal, ProcessedId, GovernanceSync, Env, RewardCall, VoteKey,
  ballots_key, is_active,
}
use pando.Governance.Store.{proposal_of, votes_on, was_rewarded}
use pando.Governance.Stakes.{
  call_reward_work, emit_vote_reward, emit_proposal_reward, StakeOutcome, settle_stake, stake_hold,
  resolve_gate, resolve_proposal_stake,
}
use pando.Governance.Quorum.{
  get_quorum, needed_votes, Tally, tally, status_of, stake_outcome_of, new_decision, conclude,
  count_votes, check_quorum, expire_if_needed,
}
use pando.Governance.Writes.{
  Node, here, next, skips, burns, refunds, mints, marks, sets_status, decides, pays, calls,
  GateCall, is_final, Writes, Writes-trans, one, by_if, by_option,
}

call_reward_work-Writes :
    (n : Node) (e : Env) (call : RewardCall) (ks : List VoteKey) (s : GovernanceSync)
    → Writes n s (call_reward_work e call (record s { rewarded_votes = ks }))
unfolding call_reward_work
call_reward_work-Writes n e call ks s =
    by_option s.payment_gate (λ h. one (pays ks _))
      (λ g h. next (one (pays ks _)) (
        calls h (mints e.now (e.reward_id call) call.peer_id call.work_type (e.reward_proof call))))

pub emit_vote_reward-Writes :
    (n : Node) (e : Env) (voter id : ℕ) (s : GovernanceSync)
    → Writes n s (emit_vote_reward e voter id s)
unfolding emit_vote_reward
emit_vote_reward-Writes n e voter id s =
    by_if (was_rewarded id voter s.rewarded_votes || not e.rewards_work) (λ h. here)
      (λ h. call_reward_work-Writes n e _ _ s)

emit_proposal_reward-Writes :
    (n : Node) (e : Env) (proposer id : ℕ) (s : GovernanceSync)
    → Writes n s (emit_proposal_reward e proposer id s)
unfolding emit_proposal_reward
emit_proposal_reward-Writes n e proposer id s =
    by_if (not e.rewards_work) (λ h. here) (λ h. call_reward_work-Writes n e _ s.rewarded_votes s)

settle_stake-GateCall :
    (now hold : ℕ) (o : StakeOutcome) (votes : ℕ) (g : Gate)
    → GateCall g (settle_stake now hold o votes g)
unfolding settle_stake
settle_stake-GateCall now hold StakeOutcome.passed votes g = refunds now hold
settle_stake-GateCall now hold StakeOutcome.rejected votes g = burns now hold
settle_stake-GateCall now hold StakeOutcome.expired votes g = elim (Bool-cases (votes == 0)) [
  | inl unseen ↦ rw unseen (refunds now hold)
  | inr seen ↦ rw seen (burns now hold)
]
settle_stake-GateCall now hold StakeOutcome.revision_requested votes g = skips

resolve_gate-GateCall :
    (now : ℕ) (p : GovernanceProposal) (o : StakeOutcome) (votes : ℕ) (g : Gate)
    → GateCall g (resolve_gate now p o votes g)
resolve_gate-GateCall now p o votes g = elim (Option-cases (stake_hold p)) [
  | inl free ↦ rw (free, resolve_gate) skips
  | inr (hold, staked) ↦ rw (staked, resolve_gate) (settle_stake-GateCall now hold o votes g)
]

pub resolve_proposal_stake-Writes :
    (n : Node) (now id : ℕ) (o : StakeOutcome) (s : GovernanceSync)
    → Writes n s (resolve_proposal_stake now id o s)
unfolding resolve_proposal_stake
resolve_proposal_stake-Writes n now id o s =
    by_option (proposal_of id s) (λ h. here)
      (λ p h.
        by_option s.payment_gate (λ k. here)
          (λ g k. one (calls k (resolve_gate-GateCall now p o (length (votes_on id s.votes)) g))))

pub status_of-final : (b : Bool) → is_final (status_of b) ≡ true
status_of-final true = refl
status_of-final false = refl

pub conclude-Writes :
    (n : Node) (e : Env) (p : GovernanceProposal) (t : Tally) (s : GovernanceSync)
    → Writes n s (conclude e p t s)
unfolding conclude
conclude-Writes n e p t s =
    let decided =
      next (next (one (decides (new_decision e.now p.id t))) (marks (ProcessedId.decision p.id)))
        (sets_status p.id (status_of t.passes) (λ q x y. status_of-final t.passes)) in
    Writes-trans
      (Writes-trans decided
        (by_if t.passes (λ h. emit_proposal_reward-Writes n e p.proposed_by p.id _) (λ h. here)))
      (resolve_proposal_stake-Writes n e.now p.id (stake_outcome_of t.passes) _)

pub check_quorum-Writes :
    (n : Node) (e : Env) (id : ℕ) (s : GovernanceSync) → Writes n s (check_quorum e id s)
unfolding check_quorum count_votes
check_quorum-Writes n e id s =
    by_option (proposal_of id s) (λ h. here)
      (λ p h.
        by_if (is_active p.status)
          (λ a.
            by_option (find ballots_key id s.votes) (λ k. here)
              (λ b k.
                by_if (leb (needed_votes e.peer_count p (length b.votes)) (length b.votes))
                  (λ enough.
                    by_option (tally e p b.votes) (λ x. here) (λ t x. conclude-Writes n e p t s))
                  (λ few. here)))
          (λ i. here))

pub expire_if_needed-Writes :
    (n : Node) (e : Env) (p : GovernanceProposal) (s : GovernanceSync)
    → Writes n s (expire_if_needed e p s)
unfolding expire_if_needed
expire_if_needed-Writes n e p s =
    by_if (not (is_active p.status) || leb e.now p.voting_ends_at) (λ h. here)
      (λ ended.
        by_if (leb (get_quorum e.peer_count) (length (votes_on p.id s.votes)))
          (λ enough. check_quorum-Writes n e p.id s)
          (λ few.
            Writes-trans (one (sets_status p.id ProposalStatus.expired (λ q x y. refl)))
              (resolve_proposal_stake-Writes n e.now p.id StakeOutcome.expired _)))
