-- ===== src/Governance/Restore.antt =====
-- What `loadFromDatabase` (packages/node/src/kernel/governance.ts) brings back after a restart.
use pando.Common.{
  ℕ, ◌≡◌, inl, inr, refl, ◌&&◌, none, some, List, [], ◌∷◌, ◌==◌, ==-eq, ==-refl, ne_of_==,
  Bool-cases, arith, ◌∙◌,
}
use pando.Common.Table.{find, IsKeyed}
use pando.Common.Table.Laws.{find-put_self, find-put_ne}
use pando.Governance.Types.{
  GovernanceProposal, GovernanceVote, GovernanceDecision, GovernanceSync, proposal_key,
  decision_key,
}
use pando.Governance.Store.{proposal_of, find_vote}
use pando.Governance.Load.{load_proposals, load_votes, load_decisions}
use pando.Governance.VoteRows.{AreUnique, cast_by, cast_by-set_vote_self, cast_by-set_vote_ne}

pub load_proposals-none :
    (j : ℕ) (ps : List GovernanceProposal) (s : GovernanceSync)
    → find proposal_key j ps ≡ none
    → proposal_of j (load_proposals ps s) ≡ proposal_of j s
unfolding load_proposals
load_proposals-none j [] s h = refl
load_proposals-none j (p ∷ ps) s h = elim (Bool-cases (j == p.id)) [
  | inl same ↦ absurd (ground (arith, ==-eq j p.id same, ==-refl j))
  | inr other ↦
      load_proposals-none j ps _ (ground arith)
      ∙ find-put_ne proposal_key j p s.proposals (ne_of_== j p.id other)
]

pub load_proposals-some :
    (j : ℕ) (r : GovernanceProposal) (ps : List GovernanceProposal) (s : GovernanceSync)
    → IsKeyed proposal_key ps
    → find proposal_key j ps ≡ some r
    → proposal_of j (load_proposals ps s) ≡ some r
unfolding load_proposals
load_proposals-some j r [] s k h = absurd (ground arith)
load_proposals-some j r (p ∷ ps) s k h = elim (Bool-cases (p.id == j)) [
  | inl same ↦
      let e : p.id ≡ j = ==-eq p.id j same in
      let p_r : p ≡ r = ground arith in
      rw (← e, ← p_r) (load_proposals-none p.id ps _ k.0 ∙ find-put_self proposal_key p s.proposals)
  | inr other ↦ load_proposals-some j r ps _ k.1 (ground arith)
]

pub load_decisions-none :
    (j : ℕ) (ds : List GovernanceDecision) (s : GovernanceSync)
    → find decision_key j ds ≡ none
    → find decision_key j (load_decisions ds s).decisions ≡ find decision_key j s.decisions
unfolding load_decisions
load_decisions-none j [] s h = refl
load_decisions-none j (d ∷ ds) s h = elim (Bool-cases (j == d.proposal_id)) [
  | inl same ↦ absurd (ground (arith, ==-eq j d.proposal_id same, ==-refl j))
  | inr other ↦
      load_decisions-none j ds _ (ground arith)
      ∙ find-put_ne decision_key j d s.decisions (ne_of_== j d.proposal_id other)
]

pub load_decisions-some :
    (j : ℕ) (r : GovernanceDecision) (ds : List GovernanceDecision) (s : GovernanceSync)
    → IsKeyed decision_key ds
    → find decision_key j ds ≡ some r
    → find decision_key j (load_decisions ds s).decisions ≡ some r
unfolding load_decisions
load_decisions-some j r [] s k h = absurd (ground arith)
load_decisions-some j r (d ∷ ds) s k h = elim (Bool-cases (d.proposal_id == j)) [
  | inl same ↦
      let e : d.proposal_id ≡ j = ==-eq d.proposal_id j same in
      let d_r : d ≡ r = ground arith in
      rw (← e, ← d_r)
        (load_decisions-none d.proposal_id ds _ k.0 ∙ find-put_self decision_key d s.decisions)
  | inr other ↦ load_decisions-some j r ds _ k.1 (ground arith)
]

pub load_votes-none :
    (id w : ℕ) (vs : List GovernanceVote) (s : GovernanceSync)
    → find_vote id w vs ≡ none
    → cast_by id w (load_votes vs s).votes ≡ cast_by id w s.votes
unfolding load_votes
load_votes-none id w [] s h = refl
load_votes-none id w (v ∷ vs) s h = elim (Bool-cases (v.proposal_id == id && v.voter == w)) [
  | inl same ↦ absurd (ground arith)
  | inr other ↦ load_votes-none id w vs _ (ground arith) ∙ cast_by-set_vote_ne id w v s.votes other
]

pub load_votes-some :
    (id w : ℕ) (u : GovernanceVote) (vs : List GovernanceVote) (s : GovernanceSync)
    → AreUnique vs
    → find_vote id w vs ≡ some u
    → cast_by id w (load_votes vs s).votes ≡ some u
unfolding load_votes
load_votes-some id w u [] s k h = absurd (ground arith)
load_votes-some id w u (v ∷ vs) s k h = elim (Bool-cases (v.proposal_id == id && v.voter == w)) [
  | inl same ↦
      let i : v.proposal_id ≡ id = ==-eq v.proposal_id id (ground arith) in
      let x : v.voter ≡ w = ==-eq v.voter w (ground arith) in
      let v_u : v ≡ u = ground arith in
      rw (← i, ← x, ← v_u)
        (load_votes-none v.proposal_id v.voter vs _ k.0 ∙ cast_by-set_vote_self v s.votes)
  | inr other ↦ load_votes-some id w u vs _ k.1 (ground arith)
]
