-- ===== src/Governance/Liveness.antt =====
-- When a vote decides a proposal (`handleVote`, `checkQuorum` of
-- packages/node/src/kernel/governance.ts).
use pando.Common.{
  ℕ, ◌+◌, ◌≤◌, ◌<◌, ◌⊎◌, ◌≡◌, refl, inl, inr, true, false, none, some, List, [], ◌∷◌, ◌==◌, length,
  leb, if◌then◌else◌, arith, ◌∙◌, sym, ap,
}
use mathlib.Core.Path.{subst}
use pando.Common.Table.{find, put}
use pando.Common.Table.Laws.{key-find, find-update_self, find-put_self}
use pando.Governance.Types.{
  VoteChoice, GovernanceProposal, GovernanceVote, GovernanceDecision, Ballots, ProcessedId,
  GovernanceSync, PandoMessage, Env, proposal_key, voter_key, decision_key, ballots_key, is_active,
}
use pando.Governance.Processed.{has_processed, add_processed}
use pando.Governance.Store.{
  proposal_of, votes_on, set_vote, with_status, set_status, record_decision, record_vote,
}
use pando.Governance.Stakes.{
  call_reward_work, emit_vote_reward, emit_proposal_reward, StakeOutcome, resolve_proposal_stake,
}
use pando.Governance.Quorum.{
  needed_votes, is_choice, count_choice, Tally, approved, tally_counts, tally, status_of,
  stake_outcome_of, new_decision, conclude, count_votes, check_quorum,
}
use pando.Governance.Votes.{vote_allowed, reward_remote, accept_vote, handle_vote}
use pando.Governance.VoteRows.{votes_on-put_self}

pub resolve_proposal_stake-others :
    (now id : ℕ) (o : StakeOutcome) (s : GovernanceSync)
    → ((resolve_proposal_stake now id o s).proposals ≡ s.proposals)
      × ((resolve_proposal_stake now id o s).decisions ≡ s.decisions)
unfolding resolve_proposal_stake
resolve_proposal_stake-others now id o s = (ground arith, ground arith)

pub emit_proposal_reward-others :
    (e : Env) (proposer id : ℕ) (s : GovernanceSync)
    → ((emit_proposal_reward e proposer id s).proposals ≡ s.proposals)
      × ((emit_proposal_reward e proposer id s).decisions ≡ s.decisions)
unfolding emit_proposal_reward call_reward_work
emit_proposal_reward-others e proposer id s = (ground arith, ground arith)

reward_remote-others :
    (e : Env) (v : GovernanceVote) (s : GovernanceSync)
    → ((reward_remote e v s).proposals ≡ s.proposals) × ((reward_remote e v s).votes ≡ s.votes)
unfolding emit_vote_reward call_reward_work
reward_remote-others e v s = (ground arith, ground arith)

-- what a decision writes
conclude_lem :
    (e : Env) (p : GovernanceProposal) (t : Tally) (s : GovernanceSync)
    → proposal_of p.id s ≡ some p
    → (proposal_of p.id (conclude e p t s) ≡ some (with_status (status_of t.passes) p))
      × (find decision_key p.id (conclude e p t s).decisions ≡ some (new_decision e.now p.id t))
unfolding conclude set_status record_decision
conclude_lem e p t s found =
    let d = new_decision e.now p.id t in
    let decided =
      set_status p.id (status_of t.passes)
        (add_processed (ProcessedId.decision p.id) (record_decision d s)) in
    let rewarded =
      if t.passes then emit_proposal_reward e p.proposed_by p.id decided else decided in
    let (rp, rd) = resolve_proposal_stake-others e.now p.id (stake_outcome_of t.passes) rewarded in
    let (ep, ed) = emit_proposal_reward-others e p.proposed_by p.id decided in
    let ip : rewarded.proposals ≡ decided.proposals = ground (arith, ep) in
    let id_ : rewarded.decisions ≡ decided.decisions = ground (arith, ed) in
    (
      ap (λ (l : List GovernanceProposal). find proposal_key p.id l) (rp ∙ ip)
          ∙ find-update_self proposal_key p.id (with_status (status_of t.passes)) s.proposals refl
              found,
      ap (λ (l : List GovernanceDecision). find decision_key p.id l) (rd ∙ id_)
          ∙ find-put_self decision_key d s.decisions,
    )

pub counted :
    (c : VoteChoice) (w : ℕ) (v : GovernanceVote) (l : List GovernanceVote)
    → find voter_key w l ≡ some v
    → is_choice c v.choice ≡ true
    → 1 ≤ count_choice c l
counted c w v [] h k = absurd (ground arith)
counted c w v (x ∷ l) h k = ground (arith, counted c w v l)

present :
    (w : ℕ) (v : GovernanceVote) (l : List GovernanceVote)
    → find voter_key w l ≡ some v
    → 1 ≤ length l
present w v [] h = absurd (ground arith)
present w v (x ∷ l) h = omega arith

choice_cases :
    (c : VoteChoice)
    → is_choice VoteChoice.abstain c ≡ false
    → (is_choice VoteChoice.approve c ≡ true) ⊎ (is_choice VoteChoice.reject c ≡ true)
choice_cases VoteChoice.approve k = inl refl
choice_cases VoteChoice.reject k = inr refl
choice_cases VoteChoice.abstain k = absurd (ground arith)

-- the tally of votes that do not all abstain
abbrev pub counts : GovernanceProposal → List GovernanceVote → Tally
counts p l = record {
  votes_for = count_choice VoteChoice.approve l;
  votes_against = count_choice VoteChoice.reject l;
  votes_abstain = count_choice VoteChoice.abstain l;
  passes = approved p (count_choice VoteChoice.approve l) (count_choice VoteChoice.reject l);
}

tally_counts_lem :
    (p : GovernanceProposal) (w : ℕ) (v : GovernanceVote) (l : List GovernanceVote)
    → find voter_key w l ≡ some v
    → is_choice VoteChoice.abstain v.choice ≡ false
    → tally_counts p l ≡ some (counts p l)
unfolding tally_counts
tally_counts_lem p w v l h k =
    let deciding : 1 ≤ count_choice VoteChoice.approve l + count_choice VoteChoice.reject l =
      elim (choice_cases v.choice k) [
        | inl approves ↦ omega (arith, counted VoteChoice.approve w v l h approves)
        | inr rejects ↦ omega (arith, counted VoteChoice.reject w v l h rejects)
      ] in
    let some_decide : (count_choice VoteChoice.approve l + count_choice VoteChoice.reject l == 0)
        ≡ false =
      ground (arith, deciding) in
    rw some_decide refl

-- a proposal that is active and has votes enough is decided
check_quorum_lem :
    (e : Env) (p : GovernanceProposal) (b : Ballots) (t : Tally) (s : GovernanceSync)
    → proposal_of p.id s ≡ some p
    → is_active p.status ≡ true
    → find ballots_key p.id s.votes ≡ some b
    → leb (needed_votes e.peer_count p (length b.votes)) (length b.votes) ≡ true
    → tally e p b.votes ≡ some t
    → check_quorum e p.id s ≡ conclude e p t s
unfolding check_quorum count_votes
check_quorum_lem e p b t s found active has enough tallied =
    rw (found, active, has, enough, tallied, check_quorum, count_votes) refl

handle_vote-accepted :
    (e : Env) (m : PandoMessage GovernanceVote) (s : GovernanceSync)
    → vote_allowed e m ≡ true
    → has_processed (ProcessedId.vote m.payload.proposal_id m.payload.voter) s.processed_ids ≡ false
    → handle_vote e m s ≡ accept_vote e m.payload s
unfolding handle_vote
handle_vote-accepted e m s allowed new = rw (allowed, new) refl

-- In a network of fewer than ten nodes without weights, a vote that is allowed and new and does not
-- abstain decides its active proposal at once: the proposal is no longer active, and its status and
-- the decision on record follow the count of the votes, with this one.
pub handle_vote-decides :
    (e : Env) (m : PandoMessage GovernanceVote) (p : GovernanceProposal) (s : GovernanceSync)
    → e.peer_count + 1 < 10
    → e.apply_weighting ≡ none
    → vote_allowed e m ≡ true
    → has_processed (ProcessedId.vote m.payload.proposal_id m.payload.voter) s.processed_ids ≡ false
    → is_choice VoteChoice.abstain m.payload.choice ≡ false
    → proposal_of m.payload.proposal_id s ≡ some p
    → is_active p.status ≡ true
    → let cast = votes_on p.id (set_vote m.payload s.votes) in
      let s' = handle_vote e m s in
      (proposal_of p.id s' ≡ some (with_status (status_of (counts p cast).passes) p))
      × (find decision_key p.id s'.decisions ≡ some (new_decision e.now p.id (counts p cast)))
unfolding accept_vote record_vote needed_votes tally
handle_vote-decides e m p s small unweighted allowed new decides found active =
    let v = m.payload in
    let key : p.id ≡ v.proposal_id = key-find proposal_key v.proposal_id s.proposals found in
    let cast = votes_on p.id (set_vote v s.votes) in
    let s1 = record_vote v (add_processed (ProcessedId.vote v.proposal_id v.voter) s) in
    let s2 = reward_remote e v s1 in
    let (rp, rv) = reward_remote-others e v s1 in
    let found' : proposal_of p.id s2 ≡ some p =
      ap (λ (l : List GovernanceProposal). find proposal_key p.id l) rp
      ∙ subst (λ k. find proposal_key k s.proposals ≡ some p) (sym key) found in
    let b : Ballots = record {
      proposal_id = v.proposal_id;
      votes = put voter_key v (votes_on v.proposal_id s.votes);
    } in
    let has_b : find ballots_key p.id s2.votes ≡ some b =
      ap (λ (l : List Ballots). find ballots_key p.id l) rv
      ∙ rw key (find-put_self ballots_key b s.votes) in
    let cast_b : cast ≡ b.votes = rw key (votes_on-put_self b s.votes) in
    let mine : find voter_key v.voter b.votes ≡ some v =
      find-put_self voter_key v (votes_on v.proposal_id s.votes) in
    let enough : leb (needed_votes e.peer_count p (length b.votes)) (length b.votes) ≡ true =
      ground (arith, present v.voter v b.votes mine) in
    let tallied : tally e p b.votes ≡ some (counts p b.votes) =
      rw unweighted (tally_counts_lem p v.voter v b.votes mine decides) in
    let done = check_quorum_lem e p b (counts p b.votes) s2 found' active has_b enough tallied in
    let accepted : accept_vote e v s ≡ conclude e p (counts p b.votes) s2 =
      subst (λ k. check_quorum e k s2 ≡ conclude e p (counts p b.votes) s2) key done in
    let handled : handle_vote e m s ≡ conclude e p (counts p b.votes) s2 =
      handle_vote-accepted e m s allowed new ∙ accepted in
    rw (handled, cast_b) (conclude_lem e p (counts p b.votes) s2 found')
