-- ===== src/Emission/Replays.antt =====
-- Attestations that arrive again (`handleRemoteAttestation` of
-- packages/node/src/kernel/emission-witness.ts): the keys of counted attestations are kept until a
-- cleanup.
use pando.Common.{ℕ, List, Option, ◌≡◌, ◌≢◌, inl, inr, Bool, true, false, arith, Bool-cases}
use pando.Ledger.Types.{WorkType}
use pando.Emission.State.{EmissionProposal, WitnessAttestation, Witness, EmitOutcome}
use pando.Emission.Rates.{reset_daily_counters, record_proposal}
use pando.Emission.Handlers.{
  is_processed, add_processed, propose_begin, propose_finish, attest_finish, handle_remote_proposal,
  handle_remote_attestation,
}
use pando.Emission.Quorum.{
  acts, skips, marks, finalize_proposal-processed, apply_attestation-processed,
}
use pando.Emission.Runs.{
  Step, proposes, proposed, attested, receives_proposal, receives_attestation, cleans,
}

abbrev pub is_cleanup :
    {verify : WitnessAttestation → Bool} {w w' : Witness} → Step verify w w' → Bool
is_cleanup (proposes now id peer work proof n known) = false
is_cleanup (proposed now ref n o) = false
is_cleanup (attested now o ref id approved sig) = false
is_cleanup (receives_proposal now p from) = false
is_cleanup (receives_attestation now o a from) = false
is_cleanup (cleans now) = true

-- operations other than the cleanup, one after another
pub data Onward (verify : WitnessAttestation → Bool) (w : Witness) : Witness → Type 0 where
  here : Onward verify w w
  next :
      {w' w'' : Witness}
      → Onward verify w w'
      → (s : Step verify w' w'') → is_cleanup s ≡ false
      → Onward verify w w''

module _ (witness proposal : ℕ) where
  abbrev IsKept : Witness → Type 0
  IsKept w = is_processed witness proposal w.processed ≡ true

  add_processed-IsKept : (a b : ℕ) (w : Witness) → IsKept w → IsKept (add_processed a b w)
  unfolding is_processed
  add_processed-IsKept a b w h = ground arith

  propose_finish-IsKept :
      (now ref n : ℕ) (o : EmitOutcome) (w : Witness)
      → IsKept w
      → IsKept (propose_finish now ref n o w)
  unfolding propose_finish reset_daily_counters
  propose_finish-IsKept now ref n o w h = grind (arith, finalize_proposal-processed)

  handle_remote_attestation-IsKept :
      (verify : WitnessAttestation → Bool) (now : ℕ) (o : EmitOutcome) (a : WitnessAttestation)
      (from : ℕ) (w : Witness)
      → IsKept w
      → IsKept (handle_remote_attestation verify now o a from w)
  unfolding handle_remote_attestation
  handle_remote_attestation-IsKept verify now o a from w h =
      grind (arith, add_processed-IsKept, apply_attestation-processed)

  propose_begin-IsKept :
      (now id peer : ℕ) (work : WorkType) (proof : List ℕ) (n : ℕ) (known : List ℕ) (w : Witness)
      → IsKept w
      → IsKept (propose_begin now id peer work proof n known w).1
  unfolding propose_begin record_proposal
  propose_begin-IsKept now id peer work proof n known w h = ground arith

  attest_finish-IsKept :
      (now : ℕ) (o : EmitOutcome) (ref id : ℕ) (approved : Bool) (signature : Option ℕ)
      (w : Witness)
      → IsKept w
      → IsKept (attest_finish now o ref id approved signature w)
  unfolding attest_finish
  attest_finish-IsKept now o ref id approved signature w h =
      grind (arith, add_processed-IsKept, apply_attestation-processed)

  handle_remote_proposal-IsKept :
      (now : ℕ) (p : EmissionProposal) (from : ℕ) (w : Witness)
      → IsKept w
      → IsKept (handle_remote_proposal now p from w).1
  unfolding handle_remote_proposal record_proposal
  handle_remote_proposal-IsKept now p from w h = ground arith

  step-IsKept :
      (verify : WitnessAttestation → Bool) {w w' : Witness}
      → (s : Step verify w w') → is_cleanup s ≡ false
      → IsKept w
      → IsKept w'
  step-IsKept verify {w} (proposes now id peer work proof n known) c h =
      propose_begin-IsKept now id peer work proof n known w h
  step-IsKept verify {w} (proposed now ref n o) c h = propose_finish-IsKept now ref n o w h
  step-IsKept verify {w} (attested now o ref id approved sig) c h =
      attest_finish-IsKept now o ref id approved sig w h
  step-IsKept verify {w} (receives_proposal now p from) c h =
      handle_remote_proposal-IsKept now p from w h
  step-IsKept verify {w} (receives_attestation now o a from) c h =
      handle_remote_attestation-IsKept verify now o a from w h
  step-IsKept verify {w} (cleans now) c h = cc

  Onward-IsKept :
      (verify : WitnessAttestation → Bool) {w w' : Witness}
      → Onward verify w w'
      → IsKept w
      → IsKept w'
  Onward-IsKept verify here h = h
  Onward-IsKept verify (next r s c) h = step-IsKept verify s c (Onward-IsKept verify r h)

module _ (verify : WitnessAttestation → Bool) where
  -- An attestation that has changed anything when it arrived changes nothing when it arrives again,
  -- after any operations but a cleanup, at any time and whatever the mint answers.
  pub handle_remote_attestation_once :
      (now later : ℕ) (o o' : EmitOutcome) (a : WitnessAttestation) (from : ℕ) (w w' : Witness)
      → handle_remote_attestation verify now o a from w ≢ w
      → Onward verify (handle_remote_attestation verify now o a from w) w'
      → handle_remote_attestation verify later o' a from w' ≡ w'
  handle_remote_attestation_once now later o o' a from w w' changed r =
      elim (Bool-cases (acts verify a from w)) [
        | inl h ↦
            let kept =
              Onward-IsKept a.witness_peer_id a.proposal_id verify r
                (marks verify now o a from w h) in
            skips verify later o' a from w' (ground arith)
        | inr h ↦ absurd (changed (skips verify now o a from w h))
      ]
