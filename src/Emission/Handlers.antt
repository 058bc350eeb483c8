-- ===== src/Emission/Handlers.antt =====
-- The operations of `EmissionWitness` (packages/node/src/kernel/emission-witness.ts). A method that
-- awaits is two functions, before and after; what awaited code answers is an argument of the
-- second.
use pando.Common.{
  ℕ, ◌+◌, Bool, true, false, not, ◌&&◌, ◌||◌, Option, none, some, List, [], ◌∷◌, ◌++◌, length, ltb,
  leb, ◌==◌, if◌then◌else◌, includes, is_some,
}
use pando.Common.Int.{pos}
use pando.Common.Table.{find, put}
use pando.Ledger.Types.{WorkType}
use pando.Emission.State.{
  EmissionProposal, ProposalStatus, WitnessAttestation, AttestKey, Witness, EmitOutcome,
  proposal_key, is_pending, estimated_amount, quorum_required, bootstrap_node_threshold,
  proposal_timeout_ms,
}
use pando.Emission.Proofs.{validate_work_proof}
use pando.Emission.Rates.{
  check_rate_limit, record_proposal, reset_daily_counters, exceeds_bootstrap_cap, clean_rate_limits,
}
use pando.Emission.Finalize.{archive, approvals, finalize_proposal}

-- the object with a reference
unfoldable pub find_ref : ℕ → List EmissionProposal → Option EmissionProposal
find_ref ref [] = none
find_ref ref (p ∷ ps) = if p.ref == ref then some p else find_ref ref ps

unfoldable pub is_processed : ℕ → ℕ → List AttestKey → Bool
is_processed witness proposal [] = false
is_processed witness proposal (k ∷ ks) =
    if k.witness == witness && k.proposal == proposal
    then true
    else is_processed witness proposal ks

abbrev pub add_processed : ℕ → ℕ → Witness → Witness
add_processed witness proposal w =
    let key : AttestKey = record { witness = witness; proposal = proposal } in
    record w {
      processed =
          if is_processed witness proposal w.processed then w.processed else key ∷ w.processed;
    }

-- the checks of `propose`
abbrev pub may_propose : ℕ → ℕ → List ℕ → ℕ → List ℕ → Witness → Bool
may_propose now peer proof peer_count known_peers w =
    not (is_some (validate_work_proof proof))
    && check_rate_limit now peer w
    && (peer == w.local_peer_id || not (ltb 0 peer_count) || includes peer known_peers)

abbrev pub new_proposal : ℕ → ℕ → ℕ → ℕ → WorkType → List ℕ → EmissionProposal
new_proposal now ref id peer work proof = record {
  ref = ref;
  id = id;
  peer_id = peer;
  work_type = work;
  work_proof = proof;
  amount = pos 0;
  timestamp = now;
  expires_at = now + proposal_timeout_ms;
  status = ProposalStatus.pending;
  witnesses = [];
  finalized_at = none;
  transaction_id = none;
}

-- `propose` up to its broadcast
unfoldable pub propose_begin :
    ℕ → ℕ → ℕ → WorkType → List ℕ → ℕ → List ℕ → Witness → Option ℕ × Witness
propose_begin now id peer work proof peer_count known_peers w =
    let limited = record_proposal now peer w in
    if may_propose now peer proof peer_count known_peers w
    then (
      some w.next_ref,
      record limited {
        pending_map =
            put proposal_key (new_proposal now w.next_ref id peer work proof) w.pending_map;
        locally_proposed =
            if includes id w.locally_proposed then w.locally_proposed else id ∷ w.locally_proposed;
        next_ref = w.next_ref + 1;
      },
    )
    else (none, w)

-- `propose` after its broadcast: in a network of fewer than three peers the proposal is approved at
-- once, within the bootstrap cap
unfoldable pub propose_finish : ℕ → ℕ → ℕ → EmitOutcome → Witness → Witness
propose_finish now ref peer_count outcome w =
    let r = reset_daily_counters now w in
    if not (ltb peer_count bootstrap_node_threshold)
    then w
    else if exceeds_bootstrap_cap estimated_amount r
    then r
    else elim (find_ref ref r.pending_map) [
      | none ↦ r
      | some p ↦ finalize_proposal now outcome true p r
    ]

-- `attestProposal` up to its signature: the reference of the proposal, if it will be attested
unfoldable pub attest_begin : ℕ → Witness → Option ℕ
attest_begin id w = elim (find proposal_key id w.pending_map) [
  | none ↦ none
  | some p ↦
      if is_pending p.status
        && not (p.peer_id == w.local_peer_id)
        && not (is_processed w.local_peer_id id w.processed)
      then some p.ref
      else none
]

-- `proposal.witnesses.push(attestation)`, wherever the object is
abbrev pub add_witness : WitnessAttestation → EmissionProposal → EmissionProposal
add_witness a p = record p { witnesses = p.witnesses ++ a ∷ [] }

unfoldable pub push_witness : ℕ → WitnessAttestation → List EmissionProposal → List EmissionProposal
push_witness ref a [] = []
push_witness ref a (p ∷ ps) = (if p.ref == ref then add_witness a p else p) ∷ push_witness ref a ps

-- the push, and the quorum
unfoldable pub apply_attestation : ℕ → EmitOutcome → ℕ → WitnessAttestation → Witness → Witness
apply_attestation now outcome ref a w =
    let pushed = record w {
      pending_map = push_witness ref a w.pending_map;
      history = push_witness ref a w.history;
    } in
    elim (find_ref ref pushed.pending_map) [
      | none ↦ pushed
      | some p ↦
          if leb quorum_required (approvals p)
          then finalize_proposal now outcome false p pushed
          else pushed
    ]

-- `attestProposal` once it is signed
unfoldable pub attest_finish : ℕ → EmitOutcome → ℕ → ℕ → Bool → Option ℕ → Witness → Witness
attest_finish now outcome ref id approved signature w =
    let a : WitnessAttestation = record {
      witness_peer_id = w.local_peer_id;
      proposal_id = id;
      approved = approved;
      signature = signature;
      timestamp = now;
    } in
    apply_attestation now outcome ref a (add_processed w.local_peer_id id w)

-- the checks of `handleRemoteProposal`
abbrev pub accepts_proposal : ℕ → EmissionProposal → ℕ → Witness → Bool
accepts_proposal now p from w =
    not (p.peer_id == w.local_peer_id)
    && p.peer_id == from
    && not (is_some (validate_work_proof p.work_proof))
    && not (ltb p.expires_at now)
    && check_rate_limit now from w

-- a received proposal is stored, unless its id is known, and its attestation begins
unfoldable pub handle_remote_proposal : ℕ → EmissionProposal → ℕ → Witness → Option ℕ × Witness
handle_remote_proposal now p from w =
    let limited = record_proposal now from w in
    let copy = record p { ref = w.next_ref; witnesses = []; status = ProposalStatus.pending } in
    let stored =
      if is_some (find proposal_key p.id w.pending_map) then limited else record limited {
        pending_map = put proposal_key copy w.pending_map;
        next_ref = w.next_ref + 1;
      } in
    if accepts_proposal now p from w then (attest_begin p.id stored, stored) else (none, w)

-- the checks of `handleRemoteAttestation` before it looks the proposal up
abbrev pub accepts_attestation : (WitnessAttestation → Bool) → WitnessAttestation → ℕ → Bool
accepts_attestation verify a from = a.witness_peer_id == from && is_some a.signature && verify a

module _ (verify : WitnessAttestation → Bool) where
  -- the signature check is that of the shared library
  unfoldable pub handle_remote_attestation :
      ℕ → EmitOutcome → WitnessAttestation → ℕ → Witness → Witness
  handle_remote_attestation now outcome a from w =
      let known = add_processed a.witness_peer_id a.proposal_id w in
      if not (accepts_attestation verify a from)
      then w
      else elim (find proposal_key a.proposal_id w.pending_map) [
        | none ↦ w
        | some p ↦
            if not (is_pending p.status) || is_processed a.witness_peer_id a.proposal_id w.processed
            then w
            else if a.witness_peer_id == p.peer_id
            then known
            else apply_attestation now outcome p.ref a known
      ]

-- the loop of `cleanup` over the proposals that were pending when it began
unfoldable pub expire_proposals : ℕ → List EmissionProposal → Witness → Witness
expire_proposals now [] w = w
expire_proposals now (p ∷ ps) w = expire_proposals now ps (
    if ltb p.expires_at now
    then archive (record p { status = ProposalStatus.expired })
        (record w { total_expired = w.total_expired + 1 })
    else w)

unfoldable pub cleanup : ℕ → Witness → Witness
cleanup now w =
    let e = expire_proposals now w.pending_map w in
    record e {
      rate_limits = clean_rate_limits now e.rate_limits;
      processed = if ltb 10000 (length e.processed) then [] else e.processed;
    }
