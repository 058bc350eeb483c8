-- ===== src/Governance/Mirror.antt =====
-- The Maps of packages/node/src/kernel/governance.ts and the tables behind them.
use pando.Common.{
  ℕ, ◌≡◌, inl, inr, refl, ◌&&◌, none, some, List, [], ◌∷◌, ◌++◌, ◌==◌, ==-eq, ne_of_==, Bool-cases,
  arith, ◌∙◌, sym, ap,
}
use pando.Common.Table.{find, put, remove, IsKeyed}
use pando.Common.Table.Laws.{find-remove_self, find-remove_ne, remove-IsKeyed}
use pando.Common.Table.Append.{Agree, append-put-Agree, append-IsKeyed}
use pando.Governance.Types.{
  GovernanceProposal, GovernanceVote, GovernanceDecision, Ballots, GovernanceSync, proposal_key,
  voter_key, decision_key, ballots_key,
}
use pando.Governance.Store.{
  proposal_of, votes_on, set_vote, insert_proposal, find_vote, drop_vote, upsert_vote,
  insert_decision,
}
use pando.Governance.Archive.{drop_ballots}
use pando.Governance.VoteRows.{
  AreUnique, find_vote-append-some, find_vote-append-none, find_vote-drop_vote_self,
  find_vote-drop_vote_ne, find_vote-drop_ballots_ne, cast_by, votes_on-put_self, votes_on-put_ne,
  cast_by-set_vote_self, cast_by-set_vote_ne,
}

-- the tables hold the proposals and decisions in memory, and every vote in memory; each table keeps
-- its primary key
pub record IsMirrored (s : GovernanceSync) : Type 0 where
  pub proposals : Agree proposal_key s.database.proposals s.proposals
  pub decisions : Agree decision_key s.database.decisions s.decisions
  pub votes :
      (id w : ℕ) (v : GovernanceVote)
      → cast_by id w s.votes ≡ some v
      → find_vote id w s.database.votes ≡ some v
  pub proposals_keyed : IsKeyed proposal_key s.database.proposals
  pub decisions_keyed : IsKeyed decision_key s.database.decisions
  pub votes_unique : AreUnique s.database.votes

pub casts-votes :
    (v : GovernanceVote) (s : GovernanceSync)
    → IsMirrored s
    → (id w : ℕ) (u : GovernanceVote) → cast_by id w (set_vote v s.votes) ≡ some u
    → find_vote id w (upsert_vote v s.database.votes) ≡ some u
casts-votes v s m id w u h = elim (Bool-cases (v.proposal_id == id && v.voter == w)) [
  | inl same ↦
      let i : v.proposal_id ≡ id = ==-eq v.proposal_id id (ground arith) in
      let k : v.voter ≡ w = ==-eq v.voter w (ground arith) in
      let dropped = drop_vote v.proposal_id v.voter s.database.votes in
      let mine : cast_by id w (set_vote v s.votes) ≡ some v =
        rw (← i, ← k) (cast_by-set_vote_self v s.votes) in
      let u_v : u ≡ v = ground (arith, mine, h) in
      let last : find_vote id w (v ∷ []) ≡ some v = rw same refl in
      let gone : find_vote id w dropped ≡ none =
        rw (← i, ← k) (find_vote-drop_vote_self v.proposal_id v.voter s.database.votes) in
      rw u_v (find_vote-append-none id w dropped (v ∷ []) gone ∙ last)
  | inr other ↦
      let dropped = drop_vote v.proposal_id v.voter s.database.votes in
      let before : cast_by id w s.votes ≡ some u =
        sym (cast_by-set_vote_ne id w v s.votes other) ∙ h in
      find_vote-append-some id w dropped (v ∷ []) (
        find_vote-drop_vote_ne id w v.proposal_id v.voter s.database.votes other
        ∙ m.votes id w u before)
]

-- a new entry of the Map that holds no vote that was not there
pub entry-votes :
    (x : Ballots) (s : GovernanceSync)
    → IsMirrored s
    → ((w : ℕ) (u : GovernanceVote)
        → find voter_key w x.votes ≡ some u
        → cast_by x.proposal_id w s.votes ≡ some u)
    → (id w : ℕ) (u : GovernanceVote) → cast_by id w (put ballots_key x s.votes) ≡ some u
    → find_vote id w s.database.votes ≡ some u
entry-votes x s m old id w u h = elim (Bool-cases (id == x.proposal_id)) [
  | inl same ↦
      let i : id ≡ x.proposal_id = ==-eq id x.proposal_id same in
      let here_ : find voter_key w x.votes ≡ some u =
        ap (λ (l : List GovernanceVote). find voter_key w l) (sym (votes_on-put_self x s.votes))
        ∙ rw i at h in
      rw i (m.votes x.proposal_id w u (old w u here_))
  | inr other ↦ m.votes id w u (
      ap (λ (l : List GovernanceVote). find voter_key w l)
        (sym (votes_on-put_ne id x s.votes (ne_of_== id x.proposal_id other)))
      ∙ h)
]

pub removes-votes :
    (j : ℕ) (s : GovernanceSync)
    → IsMirrored s
    → (id w : ℕ) (u : GovernanceVote) → cast_by id w (remove ballots_key j s.votes) ≡ some u
    → find_vote id w (drop_ballots j s.database.votes) ≡ some u
removes-votes j s m id w u h = elim (Bool-cases (id == j)) [
  | inl same ↦
      let i : id ≡ j = ==-eq id j same in
      let empty : votes_on j (remove ballots_key j s.votes) ≡ [] =
        rw (find-remove_self ballots_key j s.votes, votes_on) in
      let nothing : cast_by j w (remove ballots_key j s.votes) ≡ none =
        ap (λ (l : List GovernanceVote). find voter_key w l) empty in
      absurd (ground (arith, sym nothing ∙ rw i at h))
  | inr other ↦
      let ne = ne_of_== id j other in
      let same_votes : votes_on id (remove ballots_key j s.votes) ≡ votes_on id s.votes =
        rw (find-remove_ne ballots_key id j s.votes ne, votes_on) in
      find_vote-drop_ballots_ne id w j s.database.votes ne
      ∙ m.votes id w u (ap (λ (l : List GovernanceVote). find voter_key w l) (sym same_votes) ∙ h)
]

pub mirrors-decision :
    (d : GovernanceDecision) (s : GovernanceSync)
    → IsMirrored s
    → Agree decision_key (insert_decision d s.database.decisions) (put decision_key d s.decisions)
      × IsKeyed decision_key (insert_decision d s.database.decisions)
mirrors-decision d s m =
    let rest = remove decision_key d.proposal_id s.database.decisions in
    let gone = find-remove_self decision_key d.proposal_id s.database.decisions in
    (
      append-put-Agree decision_key d rest s.decisions gone (λ j ne.
          find-remove_ne decision_key j d.proposal_id s.database.decisions ne ∙ m.decisions j),
      append-IsKeyed decision_key d rest gone
          (remove-IsKeyed decision_key d.proposal_id s.database.decisions m.decisions_keyed),
    )

pub mirrors-proposal :
    (p : GovernanceProposal) (s : GovernanceSync)
    → IsMirrored s
    → proposal_of p.id s ≡ none
    → Agree proposal_key (insert_proposal p s.database.proposals) (put proposal_key p s.proposals)
      × IsKeyed proposal_key (insert_proposal p s.database.proposals)
mirrors-proposal p s m new =
    let absent : find proposal_key p.id s.database.proposals ≡ none = m.proposals p.id ∙ new in
    let added : insert_proposal p s.database.proposals ≡ s.database.proposals ++ p ∷ [] =
      rw (absent, insert_proposal) refl in
    rw added (
      append-put-Agree proposal_key p s.database.proposals s.proposals absent
          (λ j ne. m.proposals j),
      append-IsKeyed proposal_key p s.database.proposals absent m.proposals_keyed,
    )
