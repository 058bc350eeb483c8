-- ===== src/Governance/Tests.antt =====
-- The theorems on governance at a node with one staked proposal.
use pando.Common.{
  ℕ, ◌+◌, ◌≤◌, ◌<◌, ◌⊎◌, ◌≡◌, refl, true, false, none, some, List, [], ◌∷◌, arith, length, ◌==◌,
  if◌then◌else◌,
}
use pando.Common.Int.{ℤ, pos}
use pando.Common.Table.{find}
use pando.Ledger.Types.{Account, empty_ledger, lux}
use pando.Ledger.Accounts.{new_account, exists}
use pando.Payment.Gate.{Gate, PaymentHold, held}
use pando.Governance.Types.{
  ProposalStatus, VoteChoice, Outcome, GovernanceProposal, GovernanceVote, GovernanceDecision,
  ProcessedId, Database, GovernanceSync, PandoMessage, Env, decision_key,
}
use pando.Governance.Store.{
  proposal_of, votes_on, set_vote, with_status, set_status, record_decision, record_vote,
}
use pando.Governance.Stakes.{call_reward_work, emit_vote_reward, resolve_proposal_stake}
use pando.Governance.Quorum.{
  needed_votes, tally_counts, tally, status_of, new_decision, conclude, count_votes, check_quorum,
}
use pando.Governance.Votes.{accept_vote, handle_vote, begin_vote, finish_vote, handle_decision}
use pando.Governance.Archive.{archive_expired_proposals}
use pando.Governance.Writes.{Node}
use pando.Governance.Known.{IsKnown}
use pando.Governance.Calls.{Run}
use pando.Governance.Calls.{
  starts, then_calls, receives_vote, receives_decision, begins_vote, finishes_vote,
}
use pando.Governance.Authenticity.{AreAuthentic, Run-AreAuthentic}
use pando.Governance.Finality.{IsFinal, Run-IsFinal}
use pando.Governance.Lux.{HasLux, Run-HasLux}
use pando.Governance.Liveness.{counts, handle_vote-decides}
use pando.Governance.Cap.{IsCapped}
use pando.Governance.Archiving.{archive_expired_proposals-IsCapped}

abbrev env : Env
env = record {
  now = 50;
  local_peer_id = 1;
  peer_count = 3;
  rewards_work = true;
  reward_id = λ call. call.peer_id;
  reward_proof = λ call. [];
  upgrade_auto_approve_threshold = 8;
  apply_weighting = none;
  verify_proposal_signature = λ p sig. some true;
  verify_vote = λ m sig voter. some (sig == voter);
  verify_comment = λ m sig peer. some true;
}

abbrev node : Node
node = record {
  local_peer_id = 1;
  verify_vote = λ m sig voter. some (sig == voter);
  removes_proposals = false;
}

abbrev proposal_7 : GovernanceProposal
proposal_7 = record {
  id = 7;
  title = 80 ∷ [];
  description = [];
  proposed_by = 1;
  created_at = 10;
  voting_ends_at = 90;
  status = ProposalStatus.active;
  stake_amount = pos (lux 1);
  stake_hold_id = some 3;
  category = none;
  reviewer_count = 0;
  human_only = false;
  upgrade_payload = none;
  proposer_signature = none;
}

abbrev account : ℕ → ℤ → Account
account peer balance = record (new_account 0 peer 9) { balance = balance }

abbrev stake : PaymentHold
stake = record {
  hold_id = 3;
  peer_id = 1;
  task_id = 7;
  amount = pos (lux 1);
  status = held;
  created_at = 10;
  updated_at = 10;
}

abbrev gate : Gate
gate = record {
  ledger = record empty_ledger { accounts = account 0 (pos 0) ∷ account 1 (pos (lux 5)) ∷ [] };
  holds = stake ∷ [];
  history = [];
}

abbrev tables : List GovernanceProposal → Database
tables ps = record { proposals = ps; comments = []; votes = []; decisions = [] }

abbrev state : List GovernanceProposal → GovernanceSync
state ps = record {
  proposals = ps;
  comments = [];
  votes = [];
  decisions = [];
  processed_ids = ProcessedId.proposal 7 ∷ [];
  rewarded_votes = [];
  rewards = [];
  payment_gate = some gate;
  database = tables ps;
}

abbrev start : GovernanceSync
start = state (proposal_7 ∷ [])

abbrev vote_by : ℕ → VoteChoice → GovernanceVote
vote_by voter c = record {
  proposal_id = 7;
  voter = voter;
  choice = c;
  reasoning = [];
  created_at = 40;
  model_attestation = none;
}

abbrev signed_vote : PandoMessage GovernanceVote
signed_vote = record { from = 2; signature = some 2; payload = vote_by 2 VoteChoice.reject }

-- the node begins to vote, a signed rejection decides the proposal, and then the vote goes on
abbrev begun : GovernanceSync
begun = (begin_vote env 7 VoteChoice.approve [] none start).1

abbrev rejected : GovernanceSync
rejected = handle_vote env signed_vote start

abbrev end : GovernanceSync
end = finish_vote env 7 (handle_vote env signed_vote begun)

abbrev run : Run node start end
run =
    then_calls
      (then_calls (then_calls starts (begins_vote env 7 VoteChoice.approve [] none (refl, refl)))
        (receives_vote env signed_vote (refl, refl)))
      (finishes_vote env 7)

start-IsKnown : IsKnown start
start-IsKnown id h = ground arith

start-AreAuthentic : AreAuthentic node start
start-AreAuthentic = record { cast = tt; stored = tt }

Run-AreAuthentic_example : AreAuthentic node end
Run-AreAuthentic_example = Run-AreAuthentic node start end run start-IsKnown start-AreAuthentic

start-HasLux : HasLux (pos (lux 6)) start
unfolding exists pando.Common.Int.◌+ℤ◌
start-HasLux = (
  gate,
  (
    refl,
    (
      record {
        settled = record {
          solvent = record {
            keyed = (refl, (refl, tt));
            nonneg = (omega arith, (omega arith, tt));
          };
          keyed = (refl, tt);
          funded = ((omega arith, refl), tt);
        };
        network = refl;
      },
      refl,
    ),
  ),
)

Run-HasLux_example : HasLux (pos (lux 6)) end
Run-HasLux_example = Run-HasLux node start end (pos (lux 6)) run start-IsKnown start-HasLux

abbrev decided : GovernanceSync
decided = state (record proposal_7 { status = ProposalStatus.passed } ∷ [])

abbrev overruling : PandoMessage GovernanceDecision
overruling = record {
  from = 4;
  signature = none;
  payload = record {
    proposal_id = 7;
    outcome = Outcome.rejected;
    votes_for = 0;
    votes_against = 1;
    votes_abstain = 0;
    decided_at = 45;
  };
}

Run-IsFinal_example :
    IsFinal 7 (handle_vote env signed_vote (handle_decision env overruling decided))
Run-IsFinal_example =
    Run-IsFinal node 7 decided
      (handle_vote env signed_vote (handle_decision env overruling decided)) refl
      (then_calls (then_calls starts (receives_decision env overruling))
        (receives_vote env signed_vote (refl, refl)))
      (λ id h. ground arith) (record proposal_7 { status = ProposalStatus.passed }, (refl, refl))

abbrev cast : List GovernanceVote
cast = votes_on 7 (set_vote signed_vote.payload start.votes)

handle_vote-decides_example :
    (proposal_of 7 rejected
      ≡ some (with_status (status_of (counts proposal_7 cast).passes) proposal_7))
    × (find decision_key 7 rejected.decisions ≡ some (new_decision 50 7 (counts proposal_7 cast)))
handle_vote-decides_example =
    handle_vote-decides env signed_vote proposal_7 start (omega arith) refl refl refl refl refl refl

archive_expired_proposals-IsCapped_example :
    let (n, s') = archive_expired_proposals env 20 decided in
    (n + length s'.proposals ≡ 1) × IsCapped s'.proposals
archive_expired_proposals-IsCapped_example =
    archive_expired_proposals-IsCapped env 20 decided (refl, tt)

-- the stake of the rejected proposal goes to NETWORK
rejection_test :
    proposal_of 7 rejected ≡ some (record proposal_7 { status = ProposalStatus.rejected })
unfolding handle_vote accept_vote record_vote emit_vote_reward call_reward_work check_quorum
    count_votes needed_votes tally tally_counts conclude record_decision set_status
    resolve_proposal_stake
rejection_test = refl
