-- ===== src/Governance/Writes.antt =====
-- The writes that the methods of packages/node/src/kernel/governance.ts are made of, and every
-- method as a sequence of them.
use pando.Common.{ℕ, ◌≡◌, ◌⊎◌, refl, Bool, true, false, Option, none, some, List, [], if◌then◌else◌}
use pando.Common.Int.{ℤ}
use pando.Common.Table.{find, put}
use pando.Ledger.Types.{network_account, WorkType}
use pando.Payment.Gate.{Gate, hold_key, hold_payment, release_payment, refund_payment}
use pando.Governance.Types.{
  ProposalStatus, GovernanceProposal, GovernanceComment, GovernanceVote, GovernanceDecision, Thread,
  ProcessedId, VoteKey, RewardCall, GovernanceSync, PandoMessage, Env, proposal_key, ballots_key,
}
use pando.Governance.Processed.{has_processed, add_processed}
use pando.Governance.Store.{
  proposal_of, votes_on, insert_proposal, set_status, record_decision, record_vote,
}
use pando.Governance.Stakes.{mint_reward}
use pando.Governance.Archive.{remove_proposal_data}

-- a call of the gate, or a reward of its ledger; a new hold's id is not in use
pub data GateCall : Gate → Gate → Type 0 where
  skips : {g : Gate} → GateCall g g
  takes :
      (now id peer task : ℕ) (amount : ℤ) {g : Gate}
      → find hold_key id g.holds ≡ none
      → GateCall g (hold_payment now id peer task amount g).1
  burns : (now id : ℕ) {g : Gate} → GateCall g (release_payment now id network_account g).1
  refunds : (now id : ℕ) {g : Gate} → GateCall g (refund_payment now id g).1
  mints :
      (now id peer : ℕ) (work : WorkType) (proof : List ℕ) {g : Gate}
      → GateCall g (mint_reward now id peer work proof g)

abbrev pub is_final : ProposalStatus → Bool
is_final ProposalStatus.active = false
is_final ProposalStatus.in_review = false
is_final ProposalStatus.passed = true
is_final ProposalStatus.rejected = true
is_final ProposalStatus.expired = true
is_final ProposalStatus.revision_requested = false

-- the node whose calls these are: its peer id, its check of signatures on votes, and whether it
-- removes proposals
pub record Node : Type 0 where
  pub local_peer_id : ℕ
  pub verify_vote : PandoMessage GovernanceVote → ℕ → ℕ → Option Bool
  pub removes_proposals : Bool

-- A vote that names the local peer, or one that came in a message from its voter whose own signature
-- checks against the voter. `handleVote` does not check a vote that names the local peer.
abbrev pub IsAuthentic : Node → GovernanceVote → Type 0
IsAuthentic n v =
    (v.voter ≡ n.local_peer_id)
    ⊎ ((m : PandoMessage GovernanceVote) × (sig : ℕ) × ((m.payload ≡ v)
          × ((m.from ≡ v.voter)
              × ((m.signature ≡ some sig) × (n.verify_vote m sig v.voter ≡ some true)))))

-- the environment of a call of this node
abbrev pub SameNode : Node → Env → Type 0
SameNode n e = (e.local_peer_id ≡ n.local_peer_id) × (e.verify_vote ≡ n.verify_vote)

pub data Write (n : Node) : GovernanceSync → GovernanceSync → Type 0 where
  marks : (k : ProcessedId) {s : GovernanceSync} → Write n s (add_processed k s)
  sets_status :
      (id : ℕ) (st : ProposalStatus) {s : GovernanceSync}
      → ((p : GovernanceProposal)
          → proposal_of id s ≡ some p
          → is_final p.status ≡ true
          → is_final st ≡ true)
      → Write n s (set_status id st s)
  decides : (d : GovernanceDecision) {s : GovernanceSync} → Write n s (record_decision d s)
  casts : (v : GovernanceVote) {s : GovernanceSync} → IsAuthentic n v → Write n s (record_vote v s)
  discusses :
      (c : List Thread) (t : List GovernanceComment) {s : GovernanceSync}
      → Write n s (record s { comments = c; database = record s.database { comments = t } })
  clears :
      (id : ℕ) {s : GovernanceSync}
      → Write n s
          (record s { votes = put ballots_key (record { proposal_id = id; votes = [] }) s.votes })
  stores :
      (p : GovernanceProposal) {s : GovernanceSync}
      → proposal_of p.id s ≡ none
      → has_processed (ProcessedId.proposal p.id) s.processed_ids ≡ true
      → Write n s (record s {
        proposals = put proposal_key p s.proposals;
        database = record s.database { proposals = insert_proposal p s.database.proposals };
      })
  touches :
      (id : ℕ) {s : GovernanceSync}
      → Write n s (record s {
        votes = put ballots_key (record { proposal_id = id; votes = votes_on id s.votes }) s.votes;
      })
  pays :
      (ks : List VoteKey) (rs : List RewardCall) {s : GovernanceSync}
      → Write n s (record s { rewarded_votes = ks; rewards = rs })
  calls :
      {g g' : Gate} {s : GovernanceSync}
      → s.payment_gate ≡ some g
      → GateCall g g'
      → Write n s (record s { payment_gate = some g' })
  removes :
      (id : ℕ) {s : GovernanceSync}
      → n.removes_proposals ≡ true
      → Write n s (remove_proposal_data id s)

-- writes, one after another
pub data Writes (n : Node) (s : GovernanceSync) : GovernanceSync → Type 0 where
  here : Writes n s s
  next : {s' s'' : GovernanceSync} → Writes n s s' → Write n s' s'' → Writes n s s''

pub Writes-trans :
    {n : Node} {s s' s'' : GovernanceSync} → Writes n s s' → Writes n s' s'' → Writes n s s''
Writes-trans r here = r
Writes-trans r (next t w) = next (Writes-trans r t) w

pub one : {n : Node} {s s' : GovernanceSync} → Write n s s' → Writes n s s'
one w = next here w

pub by_if :
    (c : Bool) {n : Node} {s x y : GovernanceSync}
    → (c ≡ true → Writes n s x)
    → (c ≡ false → Writes n s y)
    → Writes n s (if c then x else y)
by_if true f g = f refl
by_if false f g = g refl

pub by_option {ℓ} :
    {B : Type ℓ} (o : Option B) {n : Node} {s x : GovernanceSync} {f : B → GovernanceSync}
    → (o ≡ none → Writes n s x)
    → ((b : B) → o ≡ some b → Writes n s (f b))
    → Writes n s (elim o [ none ↦ x | some b ↦ f b ])
by_option none f g = f refl
by_option (some b) f g = g b refl
