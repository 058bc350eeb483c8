-- ===== src/Governance/Comments.antt =====
-- Comments of packages/node/src/kernel/governance.ts: `handleComment` and `addComment`; the id of a
-- new comment, a hash, is an argument.
use pando.Common.{ℕ, Bool, false, ◌&&◌, ◌||◌, none, some, List, ◌==◌, if◌then◌else◌}
use pando.Common.Result.{Result, ok, err}
use pando.Governance.Types.{GovernanceComment, ProcessedId, GovernanceSync, PandoMessage, Env}
use pando.Governance.Processed.{has_processed, add_processed, sanitize_text}
use pando.Governance.Store.{proposal_of, push_comment, insert_comment}

-- what the methods throw
pub data GovernanceError : Type 0 where
  rate_limited insufficient_stake hold_failed proposal_not_found not_active voting_ended :
      GovernanceError

-- whether a comment is by the sender of its message, and signed unless it is local
abbrev pub comment_allowed : Env → PandoMessage GovernanceComment → Bool
comment_allowed e m =
    let c = m.payload in
    m.from == c.from
    && (c.from == e.local_peer_id || elim m.signature [
      | none ↦ false
      | some sig ↦ elim (e.verify_comment m sig c.from) [ none ↦ false | some valid ↦ valid ]
    ])

unfoldable pub record_comment : GovernanceComment → GovernanceSync → GovernanceSync
record_comment c s = record s {
  comments = push_comment c s.comments;
  database = record s.database { comments = insert_comment c s.database.comments };
}

unfoldable pub handle_comment :
    Env → PandoMessage GovernanceComment → GovernanceSync → GovernanceSync
handle_comment e m s =
    let c = m.payload in
    if has_processed (ProcessedId.comment c.id) s.processed_ids
    then s
    else (let seen = add_processed (ProcessedId.comment c.id) s in
        if comment_allowed e m
        then record_comment (record c { content = sanitize_text c.content }) seen
        else seen)

unfoldable pub add_comment :
    Env → ℕ → ℕ → List ℕ → GovernanceSync → Result GovernanceError GovernanceSync
add_comment e comment_id id content s = elim (proposal_of id s) [
  | none ↦ err GovernanceError.proposal_not_found
  | some p ↦ ok (
      add_processed (ProcessedId.comment comment_id) (
        record_comment
          (record {
            id = comment_id;
            proposal_id = id;
            from = e.local_peer_id;
            content = sanitize_text content;
            created_at = e.now;
          })
          s))
]
