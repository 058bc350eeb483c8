-- ===== src/Emission/Bounds.antt =====
-- The bounds that `EmissionWitness` (packages/node/src/kernel/emission-witness.ts) keeps: the
-- length of the history and the recorded proposals of a peer.
use pando.Common.{
  ℕ, ◌≤◌, ◌≡◌, refl, Bool, true, Option, List, [], ◌∷◌, ◌++◌, length, length-append, length-drop,
  length-keep_if, count_if-le-length, arith,
}
use pando.Common.Table.{put, Each}
use pando.Ledger.Types.{WorkType}
use pando.Emission.State.{
  EmissionProposal, WitnessAttestation, RateEntry, Witness, EmitOutcome, no_callback,
  no_transaction, threw, minted, rate_key, max_history, rate_limit_per_hour,
}
use pando.Emission.Rates.{
  recent, is_recent, check_rate_limit, record_proposal, reset_daily_counters, record_daily_emission,
  clean_rate_limits,
}
use pando.Emission.Finalize.{archive, reject, mint_outcome, finalize_proposal}
use pando.Emission.Handlers.{
  push_witness, apply_attestation, attest_finish, propose_begin, propose_finish,
  handle_remote_proposal, handle_remote_attestation, expire_proposals, cleanup,
}

-- at most ten timestamps
abbrev IsLimited : RateEntry → Type 0
IsLimited e = length e.timestamps ≤ rate_limit_per_hour

-- at most 500 proposals in the history, at most ten recorded proposals for a peer
abbrev pub IsBounded : Witness → Type 0
IsBounded w = (length w.history ≤ max_history) × Each IsLimited w.rate_limits

put-IsLimited :
    (e : RateEntry) (es : List RateEntry)
    → IsLimited e
    → Each IsLimited es
    → Each IsLimited (put rate_key e es)
put-IsLimited e [] h hs = (h, tt)
put-IsLimited e (x ∷ es) h hs = ground (arith, put-IsLimited e es h hs.1)

module _ (now : ℕ) where
  archive-IsBounded : (p : EmissionProposal) (w : Witness) → IsBounded w → IsBounded (archive p w)
  unfolding archive
  archive-IsBounded p w h = (
    ground (arith, length-append w.history (p ∷ []), length-drop 1 (w.history ++ p ∷ []), h.0),
    h.1,
  )

  reset_daily_counters-IsBounded :
      (w : Witness) → IsBounded w → IsBounded (reset_daily_counters now w)
  unfolding reset_daily_counters
  reset_daily_counters-IsBounded w h = h

  mint_outcome-IsBounded :
      (o : EmitOutcome) (b : Bool) (p : EmissionProposal) (w : Witness)
      → IsBounded w
      → IsBounded (mint_outcome now o b p w)
  unfolding mint_outcome record_daily_emission reset_daily_counters
  mint_outcome-IsBounded no_callback b p w h = archive-IsBounded _ _ h
  mint_outcome-IsBounded no_transaction b p w h = archive-IsBounded _ _ h
  mint_outcome-IsBounded threw b p w h = archive-IsBounded _ _ h
  mint_outcome-IsBounded (minted a t) b p w h = archive-IsBounded _ _ h

  reject-IsBounded : (p : EmissionProposal) (w : Witness) → IsBounded w → IsBounded (reject p w)
  unfolding reject
  reject-IsBounded p w h = archive-IsBounded _ _ h

  finalize_proposal-IsBounded :
      (o : EmitOutcome) (b : Bool) (p : EmissionProposal) (w : Witness)
      → IsBounded w
      → IsBounded (finalize_proposal now o b p w)
  unfolding finalize_proposal
  finalize_proposal-IsBounded o b p w h =
      grind (arith, reset_daily_counters-IsBounded, reject-IsBounded, mint_outcome-IsBounded)

  length-push_witness :
      (ref : ℕ) (a : WitnessAttestation) (ps : List EmissionProposal)
      → length (push_witness ref a ps) ≡ length ps
  unfolding push_witness
  length-push_witness ref a [] = refl
  length-push_witness ref a (p ∷ ps) = omega (arith, length-push_witness ref a ps)

  apply_attestation-IsBounded :
      (o : EmitOutcome) (ref : ℕ) (a : WitnessAttestation) (w : Witness)
      → IsBounded w
      → IsBounded (apply_attestation now o ref a w)
  unfolding apply_attestation
  apply_attestation-IsBounded o ref a w h =
      let pushed : Witness = record w {
        pending_map = push_witness ref a w.pending_map;
        history = push_witness ref a w.history;
      } in
      let bounded : IsBounded pushed =
        (omega (arith, length-push_witness ref a w.history, h.0), h.1) in
      grind (arith, bounded, finalize_proposal-IsBounded)

  record_proposal-IsBounded :
      (peer : ℕ) (w : Witness)
      → check_rate_limit now peer w ≡ true
      → IsBounded w
      → IsBounded (record_proposal now peer w)
  unfolding record_proposal check_rate_limit
  record_proposal-IsBounded peer w c h =
      (h.0, put-IsLimited _ _ (ground (arith, length-append (recent now peer w) (now ∷ []))) h.1)

  clean_rate_limits-IsLimited :
      (es : List RateEntry) → Each IsLimited es → Each IsLimited (clean_rate_limits now es)
  unfolding clean_rate_limits
  clean_rate_limits-IsLimited [] h = tt
  clean_rate_limits-IsLimited (e ∷ es) h = ground (
    arith,
    clean_rate_limits-IsLimited es h.1,
    length-keep_if (is_recent now) e.timestamps,
    count_if-le-length (is_recent now) e.timestamps,
  )

  expire_proposals-IsBounded :
      (ps : List EmissionProposal) (w : Witness)
      → IsBounded w
      → IsBounded (expire_proposals now ps w)
  unfolding expire_proposals
  expire_proposals-IsBounded [] w h = h
  expire_proposals-IsBounded (p ∷ ps) w h =
      expire_proposals-IsBounded ps _ (grind (arith, archive-IsBounded))

  pub propose_begin-IsBounded :
      (id peer : ℕ) (wt : WorkType) (proof : List ℕ) (n : ℕ) (known : List ℕ) (w : Witness)
      → IsBounded w
      → IsBounded (propose_begin now id peer wt proof n known w).1
  unfolding propose_begin
  propose_begin-IsBounded id peer wt proof n known w h = grind (arith, record_proposal-IsBounded)

  pub propose_finish-IsBounded :
      (ref n : ℕ) (o : EmitOutcome) (w : Witness)
      → IsBounded w
      → IsBounded (propose_finish now ref n o w)
  unfolding propose_finish
  propose_finish-IsBounded ref n o w h =
      grind (arith, reset_daily_counters-IsBounded, finalize_proposal-IsBounded)

  pub attest_finish-IsBounded :
      (o : EmitOutcome) (ref id : ℕ) (approved : Bool) (sig : Option ℕ) (w : Witness)
      → IsBounded w
      → IsBounded (attest_finish now o ref id approved sig w)
  unfolding attest_finish
  attest_finish-IsBounded o ref id approved sig w h = apply_attestation-IsBounded _ _ _ _ h

  pub handle_remote_proposal-IsBounded :
      (p : EmissionProposal) (from : ℕ) (w : Witness)
      → IsBounded w
      → IsBounded (handle_remote_proposal now p from w).1
  unfolding handle_remote_proposal
  handle_remote_proposal-IsBounded p from w h = grind (arith, record_proposal-IsBounded)

  pub handle_remote_attestation-IsBounded :
      (verify : WitnessAttestation → Bool) (o : EmitOutcome) (a : WitnessAttestation) (from : ℕ)
      (w : Witness)
      → IsBounded w
      → IsBounded (handle_remote_attestation verify now o a from w)
  unfolding handle_remote_attestation
  handle_remote_attestation-IsBounded verify o a from w h =
      grind (arith, apply_attestation-IsBounded)

  pub cleanup-IsBounded : (w : Witness) → IsBounded w → IsBounded (cleanup now w)
  unfolding cleanup
  cleanup-IsBounded w h =
      let e = expire_proposals-IsBounded w.pending_map w h in
      (e.0, clean_rate_limits-IsLimited _ e.1)
