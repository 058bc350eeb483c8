-- ===== src/Emission/Caps.antt =====
-- The daily cap of `EmissionWitness` (packages/node/src/kernel/emission-witness.ts).
use pando.Common.{ℕ, ◌≡◌, refl, ◌⊎◌, inl, inr, Bool, false, ==-refl, arith}
use pando.Common.Int.{ℤ, pos, ◌+ℤ◌, ◌≤ℤ◌, ltb_ℤ, int_laws}
use pando.Ledger.Types.{daily_emission_cap, lux}
use pando.Emission.State.{
  EmissionProposal, Witness, EmitOutcome, no_callback, no_transaction, threw, minted,
  estimated_amount,
}
use pando.Emission.Rates.{today, reset_daily_counters, exceeds_daily_cap, record_daily_emission}
use pando.Emission.Finalize.{archive, reject, mint_outcome, finalize_proposal}

-- the Lux counted on the day of a moment
abbrev pub counted : ℕ → Witness → ℤ
counted now w = (reset_daily_counters now w).daily_emitted_lux

reset_twice : (now : ℕ) (w : Witness) → counted now (reset_daily_counters now w) ≡ counted now w
unfolding reset_daily_counters
reset_twice now w = ground (arith, ==-refl (today now))

archive-counted :
    (now : ℕ) (p : EmissionProposal) (w : Witness) → counted now (archive p w) ≡ counted now w
unfolding archive reset_daily_counters
archive-counted now p w = refl

reject-counted :
    (now : ℕ) (p : EmissionProposal) (w : Witness) → counted now (reject p w) ≡ counted now w
unfolding archive reject reset_daily_counters
reject-counted now p w = refl

record_daily_emission-counted :
    (now : ℕ) (amount : ℤ) (b : Bool) (w : Witness)
    → counted now (record_daily_emission now amount b w) ≡ counted now w +ℤ amount
unfolding record_daily_emission reset_daily_counters
record_daily_emission-counted now amount b w = ground (arith, ==-refl (today now))

past :
    (day amount most : ℤ)
    → ltb_ℤ daily_emission_cap (day +ℤ estimated_amount) ≡ false
    → amount ≤ℤ most
    → day +ℤ amount ≤ℤ pos (lux 475) +ℤ most
past day amount most h k =
    let under : day +ℤ estimated_amount ≤ℤ daily_emission_cap = ground arith in omega int_laws

module _ (now : ℕ) (b : Bool) (p : EmissionProposal) where
  mint_outcome-counted :
      (o : EmitOutcome) (w : Witness)
      → (counted now (mint_outcome now o b p w) ≡ counted now w)
        ⊎ ((amount : ℤ) × (t : ℕ) × (o ≡ minted amount t)
            × (counted now (mint_outcome now o b p w) ≡ counted now w +ℤ amount))
  unfolding mint_outcome reset_daily_counters archive record_daily_emission
  mint_outcome-counted no_callback w = inl refl
  mint_outcome-counted no_transaction w = inl refl
  mint_outcome-counted threw w = inl refl
  mint_outcome-counted (minted amount t) w =
      inr (amount, t, refl, record_daily_emission-counted now amount b w)

  finalize_proposal-counted :
      (o : EmitOutcome) (w : Witness)
      → (counted now (finalize_proposal now o b p w) ≡ counted now w)
        ⊎ ((amount : ℤ) × (t : ℕ) × (o ≡ minted amount t)
            × (counted now (finalize_proposal now o b p w) ≡ counted now w +ℤ amount)
            × (exceeds_daily_cap estimated_amount (reset_daily_counters now w) ≡ false))
  unfolding finalize_proposal
  finalize_proposal-counted o w =
      let r = reset_daily_counters now w in
      grind (
        arith,
        mint_outcome-counted o r,
        mint_outcome-counted no_callback r,
        reset_twice now w,
        reject-counted now p r,
      )

  -- With mints of at most some amount, whatever is finalized leaves the day's count at most that
  -- amount past 475 Lux, if it was so before: the daily cap of 500 Lux less the estimate of 25.
  pub finalize_proposal-cap :
      (most : ℤ) (o : EmitOutcome) (w : Witness)
      → ((amount : ℤ) (t : ℕ) → o ≡ minted amount t → amount ≤ℤ most)
      → counted now w ≤ℤ pos (lux 475) +ℤ most
      → counted now (finalize_proposal now o b p w) ≤ℤ pos (lux 475) +ℤ most
  finalize_proposal-cap most o w small before = elim (finalize_proposal-counted o w) [
    | inl same ↦ rw same before
    | inr (amount, t, e, more, capped) ↦
        rw more (past (counted now w) amount most capped (small amount t e))
  ]
