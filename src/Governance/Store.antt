-- ===== src/Governance/Store.antt =====
-- The reads and writes that the methods of packages/node/src/kernel/governance.ts share: a Map and
-- the table behind it.
use pando.Common.{
  ℕ, Bool, true, false, ◌&&◌, Option, none, some, List, [], ◌∷◌, ◌++◌, ◌==◌, if◌then◌else◌,
}
use pando.Common.Table.{find, update, put, remove}
use pando.Governance.Types.{
  ProposalStatus, GovernanceProposal, GovernanceComment, GovernanceVote, GovernanceDecision,
  Ballots, Thread, VoteKey, GovernanceSync, proposal_key, comment_key, voter_key, decision_key,
  ballots_key, thread_key,
}

-- `proposals.get(id)`
abbrev pub proposal_of : ℕ → GovernanceSync → Option GovernanceProposal
proposal_of id s = find proposal_key id s.proposals

-- `votes.get(id)?.…`, with nothing where the Map has no entry
abbrev pub votes_on : ℕ → List Ballots → List GovernanceVote
votes_on id b = elim (find ballots_key id b) [ none ↦ [] | some e ↦ e.votes ]

abbrev pub comments_on : ℕ → List Thread → List GovernanceComment
comments_on id b = elim (find thread_key id b) [ none ↦ [] | some e ↦ e.comments ]

-- `proposalVotes.set(vote.voter, vote)` for the proposal's Map, a new one if there is none
abbrev pub set_vote : GovernanceVote → List Ballots → List Ballots
set_vote v b =
    let entry : Ballots = record {
      proposal_id = v.proposal_id;
      votes = put voter_key v (votes_on v.proposal_id b);
    } in
    put ballots_key entry b

-- `existing.push(comment)` for the proposal's thread, a new one if there is none
abbrev pub push_comment : GovernanceComment → List Thread → List Thread
push_comment c b =
    let entry : Thread = record {
      proposal_id = c.proposal_id;
      comments = comments_on c.proposal_id b ++ c ∷ [];
    } in
    put thread_key entry b

-- `INSERT OR IGNORE`
abbrev pub insert_proposal : GovernanceProposal → List GovernanceProposal → List GovernanceProposal
insert_proposal p rows = elim (find proposal_key p.id rows) [
  | none ↦ rows ++ p ∷ []
  | some old ↦ rows
]

abbrev pub insert_comment : GovernanceComment → List GovernanceComment → List GovernanceComment
insert_comment c rows = elim (find comment_key c.id rows) [
  | none ↦ rows ++ c ∷ []
  | some old ↦ rows
]

-- the row of governance_votes with this primary key
abbrev pub find_vote : ℕ → ℕ → List GovernanceVote → Option GovernanceVote
find_vote id voter [] = none
find_vote id voter (v ∷ rows) =
    if v.proposal_id == id && v.voter == voter then some v else find_vote id voter rows

-- `INSERT OR REPLACE`: the old row goes, the new one is the last
abbrev pub drop_vote : ℕ → ℕ → List GovernanceVote → List GovernanceVote
drop_vote id voter [] = []
drop_vote id voter (v ∷ rows) =
    if v.proposal_id == id && v.voter == voter
    then drop_vote id voter rows
    else v ∷ drop_vote id voter rows

abbrev pub upsert_vote : GovernanceVote → List GovernanceVote → List GovernanceVote
upsert_vote v rows = drop_vote v.proposal_id v.voter rows ++ v ∷ []

abbrev pub insert_decision : GovernanceDecision → List GovernanceDecision → List GovernanceDecision
insert_decision d rows = remove decision_key d.proposal_id rows ++ d ∷ []

abbrev pub with_status : ProposalStatus → GovernanceProposal → GovernanceProposal
with_status status p = record p { status = status }

-- `proposal.status = status` and `stmtUpdateProposalStatus.run(status, id)`
unfoldable pub set_status : ℕ → ProposalStatus → GovernanceSync → GovernanceSync
set_status id status s = record s {
  proposals = update proposal_key id (with_status status) s.proposals;
  database = record s.database {
    proposals = update proposal_key id (with_status status) s.database.proposals;
  };
}

-- `decisions.set(…)` and `stmtInsertDecision.run(…)`
unfoldable pub record_decision : GovernanceDecision → GovernanceSync → GovernanceSync
record_decision d s = record s {
  decisions = put decision_key d s.decisions;
  database = record s.database { decisions = insert_decision d s.database.decisions };
}

-- `votes.set(…)` and `stmtUpsertVote.run(…)`
unfoldable pub record_vote : GovernanceVote → GovernanceSync → GovernanceSync
record_vote v s = record s {
  votes = set_vote v s.votes;
  database = record s.database { votes = upsert_vote v s.database.votes };
}

-- `rewardedVotes.has(key)`
abbrev pub was_rewarded : ℕ → ℕ → List VoteKey → Bool
was_rewarded id voter [] = false
was_rewarded id voter (k ∷ ks) =
    if k.proposal_id == id && k.voter == voter then true else was_rewarded id voter ks

-- `rewardedVotes.add(key)`
abbrev pub add_rewarded : ℕ → ℕ → List VoteKey → List VoteKey
add_rewarded id voter ks =
    if was_rewarded id voter ks then ks else ks ++ record { proposal_id = id; voter = voter } ∷ []
