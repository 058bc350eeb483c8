-- ===== src/Governance/Proposals.antt =====
-- Proposals of packages/node/src/kernel/governance.ts: `handleProposal`, `resubmitProposal` and
-- the automatic approval of upgrades. The verdict of the upgrade validation
-- is an argument.
use pando.Common.{
  ℕ, ◌+◌, Bool, true, false, not, ◌&&◌, ◌||◌, Option, none, some, List, [], ◌∷◌, leb, ◌==◌,
  if◌then◌else◌,
}
use pando.Common.Table.{put}
use pando.Governance.Types.{
  ProposalStatus, Outcome, GovernanceProposal, ProcessedId, GovernanceSync, PandoMessage, Env,
  proposal_key, ballots_key, thread_key, is_upgrade,
}
use pando.Governance.Processed.{has_processed, add_processed, sanitize_text}
use pando.Governance.Store.{
  proposal_of, votes_on, comments_on, insert_proposal, set_status, record_decision,
}

-- whether the signature lets the proposal in: a check that throws lets it in
abbrev pub signature_allows : Env → GovernanceProposal → Bool
signature_allows e p = elim p.proposer_signature [
  | none ↦ not (is_upgrade p.category)
  | some sig ↦ elim (e.verify_proposal_signature p sig) [ none ↦ true | some valid ↦ valid ]
]

abbrev pub sanitized : GovernanceProposal → GovernanceProposal
sanitized p = record p { title = sanitize_text p.title; description = sanitize_text p.description }

-- a proposal with its threads and votes, in the Maps and in its table
unfoldable pub store_proposal : GovernanceProposal → GovernanceSync → GovernanceSync
store_proposal p s = record s {
  proposals = put proposal_key p s.proposals;
  comments =
      put thread_key (record { proposal_id = p.id; comments = comments_on p.id s.comments })
        s.comments;
  votes = put ballots_key (record { proposal_id = p.id; votes = votes_on p.id s.votes }) s.votes;
  database = record s.database { proposals = insert_proposal p s.database.proposals };
}

-- an empty title; ids and peer ids are never empty here
abbrev pub is_empty : List ℕ → Bool
is_empty [] = true
is_empty (c ∷ cs) = false

-- `handleProposal` once the signature is checked
unfoldable pub finish_proposal : Env → GovernanceProposal → GovernanceSync → GovernanceSync
finish_proposal e p s = if signature_allows e p then store_proposal (sanitized p) s else s

unfoldable pub handle_proposal :
    Env → PandoMessage GovernanceProposal → GovernanceSync → GovernanceSync
handle_proposal e m s =
    let p = m.payload in
    if is_empty p.title || has_processed (ProcessedId.proposal p.id) s.processed_ids
    then s
    else finish_proposal e p (add_processed (ProcessedId.proposal p.id) s)

-- what `validateUpgradeProposal` answers
pub record UpgradeValidation : Type 0 where
  pub approved : Bool
  pub kernel_delay : Bool

-- `approveUpgrade`, at once or by the timer a minute later
unfoldable pub approve_upgrade : Env → ℕ → GovernanceSync → GovernanceSync
approve_upgrade e id s =
    record_decision
      (record {
        proposal_id = id;
        outcome = Outcome.passed;
        votes_for = 1;
        votes_against = 0;
        votes_abstain = 0;
        decided_at = e.now;
      })
      (set_status id ProposalStatus.passed s)

-- the end of `createProposal` for an upgrade with a payload
unfoldable pub auto_approve :
    Env → UpgradeValidation → GovernanceProposal → GovernanceSync → GovernanceSync
auto_approve e v p s = elim p.upgrade_payload [
  | none ↦ s
  | some payload ↦
      if not (is_upgrade p.category)
      then s
      else if not v.approved
      then set_status p.id ProposalStatus.rejected s
      else if leb (e.peer_count + 1) e.upgrade_auto_approve_threshold && not v.kernel_delay
      then approve_upgrade e p.id s
      else s
]

abbrev pub is_revision_requested : ProposalStatus → Bool
is_revision_requested ProposalStatus.active = false
is_revision_requested ProposalStatus.in_review = false
is_revision_requested ProposalStatus.passed = false
is_revision_requested ProposalStatus.rejected = false
is_revision_requested ProposalStatus.expired = false
is_revision_requested ProposalStatus.revision_requested = true

-- the requester, if one is named, is the proposer
abbrev pub may_resubmit : Option ℕ → GovernanceProposal → Bool
may_resubmit none p = true
may_resubmit (some requester) p = p.proposed_by == requester

unfoldable pub resubmit_proposal : ℕ → Option ℕ → GovernanceSync → Bool × GovernanceSync
resubmit_proposal id requester s = elim (proposal_of id s) [
  | none ↦ (false, s)
  | some p ↦
      if is_revision_requested p.status && may_resubmit requester p
      then (
        true,
        (let reopened = set_status id ProposalStatus.active s in
            record reopened {
              votes = put ballots_key (record { proposal_id = id; votes = [] }) reopened.votes;
            }),
      )
      else (false, s)
]
