-- ===== src/Emission/Runs.antt =====
-- The runs of `EmissionWitness` (packages/node/src/kernel/emission-witness.ts): every operation in
-- any order, what was awaited arriving at any later time.
use pando.Common.{ℕ, Bool, Option, List, arith}
use pando.Ledger.Types.{WorkType}
use pando.Emission.State.{EmissionProposal, WitnessAttestation, Witness, EmitOutcome, initial}
use pando.Emission.Handlers.{
  propose_begin, propose_finish, attest_finish, handle_remote_proposal, handle_remote_attestation,
  cleanup,
}
use pando.Emission.Bounds.{
  IsBounded, propose_begin-IsBounded, propose_finish-IsBounded, attest_finish-IsBounded,
  handle_remote_proposal-IsBounded, handle_remote_attestation-IsBounded, cleanup-IsBounded,
}

module _ (verify : WitnessAttestation → Bool) where
  pub data Step (w : Witness) : Witness → Type 0 where
    proposes :
        (now id peer : ℕ) (work : WorkType) (proof : List ℕ) (n : ℕ) (known : List ℕ)
        → Step w (propose_begin now id peer work proof n known w).1
    proposed : (now ref n : ℕ) (o : EmitOutcome) → Step w (propose_finish now ref n o w)
    attested :
        (now : ℕ) (o : EmitOutcome) (ref id : ℕ) (approved : Bool) (signature : Option ℕ)
        → Step w (attest_finish now o ref id approved signature w)
    receives_proposal :
        (now : ℕ) (p : EmissionProposal) (from : ℕ) → Step w (handle_remote_proposal now p from w).1
    receives_attestation :
        (now : ℕ) (o : EmitOutcome) (a : WitnessAttestation) (from : ℕ)
        → Step w (handle_remote_attestation verify now o a from w)
    cleans : (now : ℕ) → Step w (cleanup now w)

  pub data Run (peer : ℕ) : Witness → Type 0 where
    starts : Run peer (initial peer)
    steps : {w w' : Witness} → Run peer w → Step w w' → Run peer w'

  step-IsBounded : {w w' : Witness} → Step w w' → IsBounded w → IsBounded w'
  step-IsBounded {w} (proposes now id peer work proof n known) h =
      propose_begin-IsBounded now id peer work proof n known w h
  step-IsBounded {w} (proposed now ref n o) h = propose_finish-IsBounded now ref n o w h
  step-IsBounded {w} (attested now o ref id approved sig) h =
      attest_finish-IsBounded now o ref id approved sig w h
  step-IsBounded {w} (receives_proposal now p from) h =
      handle_remote_proposal-IsBounded now p from w h
  step-IsBounded {w} (receives_attestation now o a from) h =
      handle_remote_attestation-IsBounded now verify o a from w h
  step-IsBounded {w} (cleans now) h = cleanup-IsBounded now w h

  -- Whatever operations run in whatever order, the history holds at most 500 proposals and every
  -- peer has at most ten recorded proposals.
  pub Run-IsBounded : (peer : ℕ) {w : Witness} → Run peer w → IsBounded w
  Run-IsBounded peer starts = (omega arith, tt)
  Run-IsBounded peer (steps r s) = step-IsBounded s (Run-IsBounded peer r)
