-- ===== src/Emission/Quorum.antt =====
-- Attestations and the quorum of `EmissionWitness` (packages/node/src/kernel/emission-witness.ts).
use pando.Common.{
  ℕ, ◌≤◌, ◌≡◌, refl, ◌≢◌, Bool, true, false, not, ◌&&◌, none, some, ne_of_==, ==-refl, ==-eq, arith,
  includes,
}
use pando.Common.Table.{find}
use pando.Emission.State.{
  EmissionProposal, WitnessAttestation, Witness, EmitOutcome, no_callback, no_transaction, threw,
  minted, proposal_key, is_pending, estimated_amount,
}
use pando.Emission.Rates.{reset_daily_counters, exceeds_daily_cap, record_daily_emission}
use pando.Emission.Finalize.{archive, approvals, reject, mint_outcome, finalize_proposal}
use pando.Emission.Handlers.{
  is_processed, add_processed, find_ref, push_witness, apply_attestation, handle_remote_attestation,
  accepts_attestation,
}

archive-processed : (p : EmissionProposal) (w : Witness) → (archive p w).processed ≡ w.processed
unfolding archive
archive-processed p w = refl

mint_outcome-processed :
    (now : ℕ) (o : EmitOutcome) (b : Bool) (p : EmissionProposal) (w : Witness)
    → (mint_outcome now o b p w).processed ≡ w.processed
unfolding mint_outcome archive record_daily_emission reset_daily_counters
mint_outcome-processed now no_callback b p w = refl
mint_outcome-processed now no_transaction b p w = refl
mint_outcome-processed now threw b p w = refl
mint_outcome-processed now (minted a t) b p w = refl

pub finalize_proposal-processed :
    (now : ℕ) (o : EmitOutcome) (b : Bool) (p : EmissionProposal) (w : Witness)
    → (finalize_proposal now o b p w).processed ≡ w.processed
unfolding finalize_proposal reject archive reset_daily_counters
finalize_proposal-processed now o b p w = ground (
  arith,
  mint_outcome-processed now o b p (reset_daily_counters now w),
  mint_outcome-processed now no_callback b p (reset_daily_counters now w),
)

pub apply_attestation-processed :
    (now : ℕ) (o : EmitOutcome) (ref : ℕ) (a : WitnessAttestation) (w : Witness)
    → (apply_attestation now o ref a w).processed ≡ w.processed
unfolding apply_attestation
apply_attestation-processed now o ref a w = grind (arith, finalize_proposal-processed)

add_processed_lem :
    (witness proposal : ℕ) (w : Witness)
    → is_processed witness proposal (add_processed witness proposal w).processed ≡ true
unfolding is_processed
add_processed_lem witness proposal w = ground (arith, ==-refl witness, ==-refl proposal)

-- the attestation is for a pending proposal, and not yet counted
abbrev pub acts : (WitnessAttestation → Bool) → WitnessAttestation → ℕ → Witness → Bool
acts verify a from w =
    accepts_attestation verify a from
    && not (is_processed a.witness_peer_id a.proposal_id w.processed)
    && elim (find proposal_key a.proposal_id w.pending_map) [
      | none ↦ false
      | some p ↦ is_pending p.status
    ]

module _ (verify : WitnessAttestation → Bool) (now : ℕ) (o : EmitOutcome) (a : WitnessAttestation)
    (from : ℕ) (w : Witness) where
  pub skips : acts verify a from w ≡ false → handle_remote_attestation verify now o a from w ≡ w
  unfolding handle_remote_attestation
  skips h = grind arith

  pub marks :
      acts verify a from w ≡ true
      → is_processed a.witness_peer_id a.proposal_id
          (handle_remote_attestation verify now o a from w).processed
        ≡ true
  unfolding handle_remote_attestation
  marks h = grind (arith, add_processed_lem, apply_attestation-processed)

reset_daily_counters-lux :
    (now : ℕ) (w : Witness) → (reset_daily_counters now w).total_lux_emitted ≡ w.total_lux_emitted
unfolding reset_daily_counters
reset_daily_counters-lux now w = refl

reset_daily_counters-local :
    (now : ℕ) (w : Witness) → (reset_daily_counters now w).locally_proposed ≡ w.locally_proposed
unfolding reset_daily_counters
reset_daily_counters-local now w = refl

module _ (now : ℕ) (o : EmitOutcome) (b : Bool) (p : EmissionProposal) where
  no_callback-lux :
      (w : Witness) → (mint_outcome now no_callback b p w).total_lux_emitted ≡ w.total_lux_emitted
  unfolding mint_outcome archive
  no_callback-lux w = refl

  reject-lux : (w : Witness) → (reject p w).total_lux_emitted ≡ w.total_lux_emitted
  unfolding reject archive
  reject-lux w = refl

  pub finalize_proposal-lux :
      (w : Witness)
      → (finalize_proposal now o b p w).total_lux_emitted ≢ w.total_lux_emitted
      → (is_pending p.status ≡ true)
        × (includes p.id w.locally_proposed ≡ true)
        × (exceeds_daily_cap estimated_amount (reset_daily_counters now w) ≡ false)
  unfolding finalize_proposal
  finalize_proposal-lux w h = ground (
    arith,
    no_callback-lux (reset_daily_counters now w),
    reject-lux (reset_daily_counters now w),
    reset_daily_counters-lux now w,
    reset_daily_counters-local now w,
  )

pub apply_attestation-lux :
    (now : ℕ) (o : EmitOutcome) (ref : ℕ) (a : WitnessAttestation) (w : Witness)
    → (apply_attestation now o ref a w).total_lux_emitted ≢ w.total_lux_emitted
    → (q : EmissionProposal) × (find_ref ref (push_witness ref a w.pending_map) ≡ some q)
      × (2 ≤ approvals q)
      × (is_pending q.status ≡ true)
      × (includes q.id w.locally_proposed ≡ true)
unfolding apply_attestation
apply_attestation-lux now o ref a w h = grind (arith, finalize_proposal-lux)

module _ (verify : WitnessAttestation → Bool) where
  -- A received attestation changes the total of minted Lux only if it is signed by the peer that
  -- sent it, with a signature that verifies, was not counted before, is not from the proposer, and
  -- the proposal it names is pending, was proposed by this node, and has, with this attestation,
  -- two approvals or more.
  pub handle_remote_attestation-quorum :
      (now : ℕ) (o : EmitOutcome) (a : WitnessAttestation) (from : ℕ) (w : Witness)
      → (handle_remote_attestation verify now o a from w).total_lux_emitted ≢ w.total_lux_emitted
      → (p : EmissionProposal) × (q : EmissionProposal) × (find proposal_key a.proposal_id
            w.pending_map
          ≡ some p)
        × (find_ref p.ref (push_witness p.ref a w.pending_map) ≡ some q)
        × (2 ≤ approvals q)
        × (is_pending q.status ≡ true)
        × (includes q.id w.locally_proposed ≡ true)
        × (a.witness_peer_id ≡ from)
        × (a.witness_peer_id ≢ p.peer_id)
        × (verify a ≡ true)
        × (is_processed a.witness_peer_id a.proposal_id w.processed ≡ false)
  unfolding handle_remote_attestation
  handle_remote_attestation-quorum now o a from w h =
      grind (arith, apply_attestation-lux, ==-eq, ne_of_==)
