-- ===== src/Emission/Tests.antt =====
-- The theorems on witnessed emissions at one proposal of this node.
use pando.Common.{
  refl, ap, ℕ, ◌≡◌, ◌≢◌, ◌≤◌, ◌↔◌, ◌⊎◌, Bool, true, false, none, some, List, [], ◌∷◌, length,
  includes, arith,
}
use pando.Common.Int.{ℤ, pos, ◌+ℤ◌, ◌≤ℤ◌}
use pando.Common.Table.{find}
use pando.Ledger.Types.{WorkType, lux}
use pando.Emission.State.{
  EmissionProposal, ProposalStatus, WitnessAttestation, Witness, EmitOutcome, minted, proposal_key,
  is_pending, initial,
}
use pando.Emission.Proofs.{validate_work_proof, trim, starts_with_digit, uptime_prefix}
use pando.Emission.Rates.{reset_daily_counters, record_daily_emission}
use pando.Emission.Finalize.{approvals, finalize_proposal, mint_outcome, archive}
use pando.Emission.Handlers.{
  find_ref, push_witness, is_processed, apply_attestation, handle_remote_attestation, propose_begin,
  cleanup,
}
use pando.Emission.Quorum.{handle_remote_attestation-quorum}
use pando.Emission.Replays.{Onward, here, next, handle_remote_attestation_once}
use pando.Emission.Bounds.{IsBounded}
use pando.Emission.Runs.{starts, steps, proposes, receives_attestation, cleans, Run-IsBounded}
use pando.Emission.Caps.{counted, finalize_proposal-cap}
use pando.Emission.HexRuns.{HasHexRun, validate_work_proof_accepts_iff}

abbrev attestation : ℕ → WitnessAttestation
attestation witness = record {
  witness_peer_id = witness;
  proposal_id = 3;
  approved = true;
  signature = some 77;
  timestamp = 50;
}

-- "deadbeef"
abbrev proof : List ℕ
proof = b'd' ∷ b'e' ∷ b'a' ∷ b'd' ∷ b'b' ∷ b'e' ∷ b'e' ∷ b'f' ∷ []

abbrev proposal : EmissionProposal
proposal = record {
  ref = 0;
  id = 3;
  peer_id = 1;
  work_type = WorkType.task_completed;
  work_proof = proof;
  amount = pos 0;
  timestamp = 10;
  expires_at = 300_010;
  status = ProposalStatus.pending;
  witnesses = attestation 2 ∷ [];
  finalized_at = none;
  transaction_id = none;
}

abbrev witness : Witness
witness = record (initial 1) {
  pending_map = proposal ∷ [];
  locally_proposed = 3 ∷ [];
  next_ref = 1;
}

abbrev verify : WitnessAttestation → Bool
verify a = true

abbrev mint : EmitOutcome
mint = minted (pos (lux 5)) 90

abbrev after : Witness
after = handle_remote_attestation verify 60 mint (attestation 4) 4 witness

mints : after.total_lux_emitted ≢ witness.total_lux_emitted
unfolding handle_remote_attestation apply_attestation push_witness find_ref is_processed
    finalize_proposal mint_outcome archive reset_daily_counters record_daily_emission ◌+ℤ◌
mints h = ground arith

handle_remote_attestation-quorum_example :
    (p : EmissionProposal) × (q : EmissionProposal) × (find proposal_key 3 witness.pending_map
      ≡ some p)
    × (find_ref p.ref (push_witness p.ref (attestation 4) witness.pending_map) ≡ some q)
    × (2 ≤ approvals q)
    × (is_pending q.status ≡ true)
    × (includes q.id witness.locally_proposed ≡ true)
    × ((attestation 4).witness_peer_id ≡ 4)
    × ((attestation 4).witness_peer_id ≢ p.peer_id)
    × (verify (attestation 4) ≡ true)
    × (is_processed 4 3 witness.processed ≡ false)
handle_remote_attestation-quorum_example =
    handle_remote_attestation-quorum verify 60 mint (attestation 4) 4 witness mints

-- another witness attests before the first attestation arrives again
again : Onward verify after (handle_remote_attestation verify 65 mint (attestation 5) 5 after)
again = next here (receives_attestation 65 mint (attestation 5) 5) refl

changed : after ≢ witness
changed e = mints (ap (λ (w : Witness). w.total_lux_emitted) e)

handle_remote_attestation_once_example :
    let w = handle_remote_attestation verify 65 mint (attestation 5) 5 after in
    handle_remote_attestation verify 70 mint (attestation 4) 4 w ≡ w
handle_remote_attestation_once_example =
    handle_remote_attestation_once verify 60 70 mint mint (attestation 4) 4 witness
      (handle_remote_attestation verify 65 mint (attestation 5) 5 after) changed again

abbrev cleaned : Witness
cleaned = cleanup 90 (propose_begin 60 3 1 WorkType.task_completed proof 0 [] (initial 1)).1

Run-IsBounded_example : IsBounded cleaned
Run-IsBounded_example =
    Run-IsBounded verify 1
      (steps (steps starts (proposes 60 3 1 WorkType.task_completed proof 0 [])) (cleans 90))

small : (amount : ℤ) (t : ℕ) → mint ≡ minted amount t → amount ≤ℤ pos (lux 125)
small amount t h = ground arith

few : counted 60 witness ≤ℤ pos (lux 475) +ℤ pos (lux 125)
unfolding reset_daily_counters ◌+ℤ◌
few = omega arith

finalize_proposal-cap_example :
    counted 60 (finalize_proposal 60 mint false proposal witness) ≤ℤ pos (lux 475) +ℤ pos (lux 125)
finalize_proposal-cap_example =
    finalize_proposal-cap 60 false proposal (pos (lux 125)) mint witness small few

validate_work_proof_accepts_iff_example : (validate_work_proof proof ≡ none) ↔ (
    (8 ≤ length (trim proof)) × (HasHexRun proof ⊎ (starts_with_digit uptime_prefix proof ≡ true)))
validate_work_proof_accepts_iff_example = validate_work_proof_accepts_iff proof
