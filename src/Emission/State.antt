-- ===== src/Emission/State.antt =====
-- The state of `EmissionWitness` (packages/node/src/kernel/emission-witness.ts). A proposal is a
-- shared object, so each has a reference; a Map is a table in insertion order.
use pando.Common.{ℕ, Bool, true, false, Option, none, List, []}
use pando.Common.Int.{ℤ, pos}
use pando.Ledger.Types.{WorkType, lux}

pub record WitnessAttestation : Type 0 where
  pub witness_peer_id : ℕ
  pub proposal_id : ℕ
  pub approved : Bool
  pub signature : Option ℕ
  pub timestamp : ℕ

pub data ProposalStatus : Type 0 where
  pending approved rejected expired : ProposalStatus

pub record EmissionProposal : Type 0 where
  pub ref : ℕ
  pub id : ℕ
  pub peer_id : ℕ
  pub work_type : WorkType
  pub work_proof : List ℕ
  pub amount : ℤ
  pub timestamp : ℕ
  pub expires_at : ℕ
  pub status : ProposalStatus
  pub witnesses : List WitnessAttestation
  pub finalized_at : Option ℕ
  pub transaction_id : Option ℕ

-- the proposals of one peer within the last hour
pub record RateEntry : Type 0 where
  pub peer_id : ℕ
  pub timestamps : List ℕ

-- the key `witness:proposal` of an attestation
pub record AttestKey : Type 0 where
  pub witness : ℕ
  pub proposal : ℕ

pub record Witness : Type 0 where
  pub local_peer_id : ℕ
  pub pending_map : List EmissionProposal
  pub history : List EmissionProposal
  pub rate_limits : List RateEntry
  pub processed : List AttestKey
  pub locally_proposed : List ℕ
  pub total_approved : ℕ
  pub total_rejected : ℕ
  pub total_expired : ℕ
  pub total_lux_emitted : ℤ
  pub daily_emitted_lux : ℤ
  pub daily_emitted_date : Option ℕ
  pub daily_bootstrap_lux : ℤ
  pub daily_bootstrap_date : Option ℕ
  pub next_ref : ℕ

-- what the emission callback did: it is not set, gave no transaction, threw, or minted
pub data EmitOutcome : Type 0 where
  no_callback no_transaction threw : EmitOutcome
  minted : ℤ → ℕ → EmitOutcome

abbrev pub proposal_key : EmissionProposal → ℕ
proposal_key p = p.id

abbrev pub rate_key : RateEntry → ℕ
rate_key e = e.peer_id

abbrev pub proposal_timeout_ms : ℕ
proposal_timeout_ms = 300_000

abbrev pub rate_limit_per_hour : ℕ
rate_limit_per_hour = 10

abbrev pub rate_limit_window_ms : ℕ
rate_limit_window_ms = 3_600_000

abbrev pub quorum_required : ℕ
quorum_required = 2

abbrev pub bootstrap_node_threshold : ℕ
bootstrap_node_threshold = 3

abbrev pub max_history : ℕ
max_history = 500

abbrev pub day_ms : ℕ
day_ms = 86_400_000

abbrev pub bootstrap_daily_cap : ℤ
bootstrap_daily_cap = pos (lux 50)

-- the amount that a proposal is taken to mint before it mints
abbrev pub estimated_amount : ℤ
estimated_amount = pos (lux 25)

abbrev pub is_pending : ProposalStatus → Bool
is_pending ProposalStatus.pending = true
is_pending ProposalStatus.approved = false
is_pending ProposalStatus.rejected = false
is_pending ProposalStatus.expired = false

abbrev pub initial : ℕ → Witness
initial peer = record {
  local_peer_id = peer;
  pending_map = [];
  history = [];
  rate_limits = [];
  processed = [];
  locally_proposed = [];
  total_approved = 0;
  total_rejected = 0;
  total_expired = 0;
  total_lux_emitted = pos 0;
  daily_emitted_lux = pos 0;
  daily_emitted_date = none;
  daily_bootstrap_lux = pos 0;
  daily_bootstrap_date = none;
  next_ref = 0;
}
