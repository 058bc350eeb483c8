-- ===== src/Governance/Restatus.antt =====
-- What the expiry of packages/node/src/kernel/governance.ts leaves of the Map of proposals.
use pando.Common.{
  ℕ, ◌≡◌, refl, Bool, true, false, not, ◌||◌, Option, none, some, List, [], ◌∷◌, length, leb,
  if◌then◌else◌, arith, ◌∙◌, ap,
}
use pando.Common.Table.{find, IsKeyed}
use pando.Common.Table.Laws.{update-IsKeyed, length-update}
use pando.Governance.Types.{
  ProposalStatus, GovernanceProposal, ProcessedId, GovernanceSync, Env, proposal_key, ballots_key,
  is_active,
}
use pando.Governance.Processed.{add_processed}
use pando.Governance.Store.{proposal_of, votes_on, with_status, set_status, record_decision}
use pando.Governance.Stakes.{emit_proposal_reward, StakeOutcome}
use pando.Governance.Quorum.{
  get_quorum, needed_votes, Tally, tally, status_of, stake_outcome_of, new_decision, conclude,
  count_votes, check_quorum, expire_if_needed,
}
use pando.Governance.Archive.{expire_all}
use pando.Governance.Liveness.{resolve_proposal_stake-others, emit_proposal_reward-others}

-- the proposals with other statuses
pub record IsRestatused (s s' : GovernanceSync) : Type 0 where
  pub as_many : length s'.proposals ≡ length s.proposals
  pub keyed : IsKeyed proposal_key s.proposals → IsKeyed proposal_key s'.proposals

same : {s s' : GovernanceSync} → s'.proposals ≡ s.proposals → IsRestatused s s'
same e = record { as_many = ap length e; keyed = λ h. rw e h }

IsRestatused-trans :
    {s s' s'' : GovernanceSync} → IsRestatused s s' → IsRestatused s' s'' → IsRestatused s s''
IsRestatused-trans r t = record {
  as_many = t.as_many ∙ r.as_many;
  keyed = λ h. t.keyed (r.keyed h);
}

set_status-IsRestatused :
    (id : ℕ) (st : ProposalStatus) (s : GovernanceSync) → IsRestatused s (set_status id st s)
unfolding set_status
set_status-IsRestatused id st s = record {
  as_many = length-update proposal_key id (with_status st) s.proposals;
  keyed = update-IsKeyed proposal_key id (with_status st) s.proposals (λ r. refl);
}

conclude-IsRestatused :
    (e : Env) (p : GovernanceProposal) (t : Tally) (s : GovernanceSync)
    → IsRestatused s (conclude e p t s)
unfolding conclude record_decision
conclude-IsRestatused e p t s =
    let d = new_decision e.now p.id t in
    let marked = add_processed (ProcessedId.decision p.id) (record_decision d s) in
    let decided = set_status p.id (status_of t.passes) marked in
    let rewarded =
      if t.passes then emit_proposal_reward e p.proposed_by p.id decided else decided in
    let kept : rewarded.proposals ≡ decided.proposals =
      ground (arith, (emit_proposal_reward-others e p.proposed_by p.id decided).0) in
    let first : IsRestatused s marked = same refl in
    IsRestatused-trans
      (IsRestatused-trans first (set_status-IsRestatused p.id (status_of t.passes) marked))
      (same
        ((resolve_proposal_stake-others e.now p.id (stake_outcome_of t.passes) rewarded).0 ∙ kept))

module _ (s : GovernanceSync) where
  by_if :
      (c : Bool) {x y : GovernanceSync}
      → (c ≡ true → IsRestatused s x)
      → (c ≡ false → IsRestatused s y)
      → IsRestatused s (if c then x else y)
  by_if true f g = f refl
  by_if false f g = g refl

  by_option {ℓ} :
      {B : Type ℓ} (o : Option B) {x : GovernanceSync} {f : B → GovernanceSync}
      → IsRestatused s x
      → ((b : B) → IsRestatused s (f b))
      → IsRestatused s (elim o [ none ↦ x | some b ↦ f b ])
  by_option none n f = n
  by_option (some b) n f = f b

check_quorum-IsRestatused :
    (e : Env) (id : ℕ) (s : GovernanceSync) → IsRestatused s (check_quorum e id s)
unfolding check_quorum count_votes
check_quorum-IsRestatused e id s = by_option s (proposal_of id s) (same refl) (λ p.
    by_if s (is_active p.status)
      (λ a. by_option s (find ballots_key id s.votes) (same refl) (λ b.
        by_if s (leb (needed_votes e.peer_count p (length b.votes)) (length b.votes))
          (λ enough.
            by_option s (tally e p b.votes) (same refl) (λ t. conclude-IsRestatused e p t s))
          (λ few. same refl)))
      (λ i. same refl))

expire_if_needed-IsRestatused :
    (e : Env) (p : GovernanceProposal) (s : GovernanceSync)
    → IsRestatused s (expire_if_needed e p s)
unfolding expire_if_needed
expire_if_needed-IsRestatused e p s =
    by_if s (not (is_active p.status) || leb e.now p.voting_ends_at) (λ h. same refl)
      (λ ended.
        by_if s (leb (get_quorum e.peer_count) (length (votes_on p.id s.votes)))
          (λ enough. check_quorum-IsRestatused e p.id s)
          (λ few. IsRestatused-trans (set_status-IsRestatused p.id ProposalStatus.expired s) (
            same
              (resolve_proposal_stake-others e.now p.id StakeOutcome.expired
                (set_status p.id ProposalStatus.expired s)).0)))

pub expire_all-IsRestatused :
    (e : Env) (ps : List GovernanceProposal) (s : GovernanceSync)
    → IsRestatused s (expire_all e ps s)
unfolding expire_all
expire_all-IsRestatused e [] s = same refl
expire_all-IsRestatused e (p ∷ ps) s =
    IsRestatused-trans (expire_if_needed-IsRestatused e p s)
      (expire_all-IsRestatused e ps (expire_if_needed e p s))
