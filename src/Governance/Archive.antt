-- ===== src/Governance/Archive.antt =====
-- What removes data in packages/node/src/kernel/governance.ts: `deleteProposal`, `cleanup`,
-- `archiveExpiredProposals` and `enforceProposalCap`, with the queries that expire proposals.
use pando.Common.{
  ℕ, ◌+◌, ◌-◌, suc, Bool, true, false, not, ◌&&◌, ◌||◌, none, some, List, [], ◌∷◌, length, drop,
  keep_if, ltb, leb, ◌==◌, if◌then◌else◌,
}
use pando.Common.Table.{remove}
use pando.Common.Result.{Result, ok, err}
use pando.Common.Table.Sort.{sort_by}
use pando.Governance.Types.{
  ProposalStatus, GovernanceProposal, GovernanceComment, GovernanceVote, Ballots, ProcessedId,
  GovernanceSync, Env, proposal_key, decision_key, ballots_key, thread_key,
}
use pando.Governance.Processed.{delete_processed}
use pando.Governance.Store.{proposal_of, votes_on}
use pando.Governance.Quorum.{expire_if_needed}
use pando.Governance.Comments.{GovernanceError}

-- the rows of other proposals
abbrev pub drop_ballots : ℕ → List GovernanceVote → List GovernanceVote
drop_ballots id rows = keep_if (λ v. not (v.proposal_id == id)) rows

abbrev pub drop_thread : ℕ → List GovernanceComment → List GovernanceComment
drop_thread id rows = keep_if (λ c. not (c.proposal_id == id)) rows

-- a proposal and all that belongs to it, from the Maps and the tables; its votes and comments stay
-- marked as processed
unfoldable pub remove_proposal_data : ℕ → GovernanceSync → GovernanceSync
remove_proposal_data id s = record s {
  proposals = remove proposal_key id s.proposals;
  comments = remove thread_key id s.comments;
  votes = remove ballots_key id s.votes;
  decisions = remove decision_key id s.decisions;
  processed_ids =
      delete_processed (ProcessedId.decision id)
        (delete_processed (ProcessedId.proposal id) s.processed_ids);
  database = record {
    proposals = remove proposal_key id s.database.proposals;
    comments = drop_thread id s.database.comments;
    votes = drop_ballots id s.database.votes;
    decisions = remove decision_key id s.database.decisions;
  };
}

unfoldable pub delete_proposal : ℕ → GovernanceSync → Result GovernanceError GovernanceSync
delete_proposal id s = elim (proposal_of id s) [
  | none ↦ err GovernanceError.proposal_not_found
  | some p ↦ ok (remove_proposal_data id s)
]

-- more than 10000 processed ids: the last 5000 stay
unfoldable pub cleanup : GovernanceSync → GovernanceSync
cleanup s = record s {
  processed_ids =
      if ltb 10000 (length s.processed_ids)
      then drop (length s.processed_ids - 5000) s.processed_ids
      else s.processed_ids;
}

-- `for (const p of proposals) expireIfNeeded(p)`, each as the Map then has it
unfoldable pub expire_all : Env → List GovernanceProposal → GovernanceSync → GovernanceSync
expire_all e [] s = s
expire_all e (p ∷ ps) s = expire_all e ps (expire_if_needed e p s)

-- being processed: never removed for its age or for the cap
abbrev pub is_in_progress : ProposalStatus → Bool
is_in_progress ProposalStatus.active = true
is_in_progress ProposalStatus.in_review = true
is_in_progress ProposalStatus.passed = false
is_in_progress ProposalStatus.rejected = false
is_in_progress ProposalStatus.expired = false
is_in_progress ProposalStatus.revision_requested = false

abbrev pub is_expired : ProposalStatus → Bool
is_expired ProposalStatus.active = false
is_expired ProposalStatus.in_review = false
is_expired ProposalStatus.passed = false
is_expired ProposalStatus.rejected = false
is_expired ProposalStatus.expired = true
is_expired ProposalStatus.revision_requested = false

-- expired without a vote, or created `maxAgeMs` ago or earlier
abbrev pub is_archived : ℕ → ℕ → List Ballots → GovernanceProposal → Bool
is_archived now max_age b p =
    not (is_in_progress p.status)
    && (is_expired p.status && length (votes_on p.id b) == 0 || leb (p.created_at + max_age) now)

-- the second pass, with the count of what it removed
unfoldable pub archive_each : ℕ → ℕ → List GovernanceProposal → GovernanceSync → ℕ × GovernanceSync
archive_each now max_age [] s = (0, s)
archive_each now max_age (p ∷ ps) s =
    if is_archived now max_age s.votes p
    then (let (n, s') = archive_each now max_age ps (remove_proposal_data p.id s) in (suc n, s'))
    else archive_each now max_age ps s

-- MAX_PROPOSALS
abbrev pub max_proposals : ℕ
max_proposals = 500

-- by `createdAt`, the oldest first
abbrev pub sort_by_age : List GovernanceProposal → List GovernanceProposal
sort_by_age ps = sort_by (λ p q. leb p.created_at q.created_at) ps

-- the eviction loop
unfoldable pub evict : List GovernanceProposal → GovernanceSync → ℕ × GovernanceSync
evict [] s = (0, s)
evict (p ∷ ps) s =
    if leb (length s.proposals) max_proposals
    then (0, s)
    else (let (n, s') = evict ps (remove_proposal_data p.id s) in (suc n, s'))

unfoldable pub enforce_proposal_cap : GovernanceSync → ℕ × GovernanceSync
enforce_proposal_cap s =
    if leb (length s.proposals) max_proposals
    then (0, s)
    else evict (sort_by_age (keep_if (λ p. not (is_in_progress p.status)) s.proposals)) s

unfoldable pub archive_expired_proposals : Env → ℕ → GovernanceSync → ℕ × GovernanceSync
archive_expired_proposals e max_age s =
    let fresh = expire_all e s.proposals s in
    let (n, kept) = archive_each e.now max_age fresh.proposals fresh in
    let (m, capped) = enforce_proposal_cap kept in (n + m, capped)
