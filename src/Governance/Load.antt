-- ===== src/Governance/Load.antt =====
-- `loadFromDatabase` of packages/node/src/kernel/governance.ts. The rows come in the order that the
-- queries ask for, ties in the order of the table.
use pando.Common.{List, [], ◌∷◌, leb}
use pando.Common.Table.{put}
use pando.Common.Table.Sort.{sort_by}
use pando.Governance.Types.{
  GovernanceProposal, GovernanceComment, GovernanceVote, GovernanceDecision, ProcessedId,
  GovernanceSync, proposal_key, decision_key,
}
use pando.Governance.Processed.{add_processed}
use pando.Governance.Store.{set_vote, push_comment}
use pando.Governance.Queries.{sort_newest}

unfoldable pub load_proposals : List GovernanceProposal → GovernanceSync → GovernanceSync
load_proposals [] s = s
load_proposals (p ∷ ps) s = load_proposals ps (
    add_processed (ProcessedId.proposal p.id)
      (record s { proposals = put proposal_key p s.proposals }))

-- `ORDER BY created_at ASC`
abbrev pub sort_oldest : List GovernanceComment → List GovernanceComment
sort_oldest cs = sort_by (λ c d. leb c.created_at d.created_at) cs

unfoldable pub load_comments : List GovernanceComment → GovernanceSync → GovernanceSync
load_comments [] s = s
load_comments (c ∷ cs) s =
    load_comments cs
      (add_processed (ProcessedId.comment c.id) (record s { comments = push_comment c s.comments }))

unfoldable pub load_votes : List GovernanceVote → GovernanceSync → GovernanceSync
load_votes [] s = s
load_votes (v ∷ vs) s = load_votes vs (
    add_processed (ProcessedId.vote v.proposal_id v.voter)
      (record s { votes = set_vote v s.votes }))

unfoldable pub load_decisions : List GovernanceDecision → GovernanceSync → GovernanceSync
load_decisions [] s = s
load_decisions (d ∷ ds) s = load_decisions ds (
    add_processed (ProcessedId.decision d.proposal_id)
      (record s { decisions = put decision_key d s.decisions }))

unfoldable pub load_from_database : GovernanceSync → GovernanceSync
load_from_database s =
    let db = s.database in
    load_decisions db.decisions (
      load_votes db.votes
        (load_comments (sort_oldest db.comments) (load_proposals (sort_newest db.proposals) s)))
