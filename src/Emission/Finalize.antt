-- ===== src/Emission/Finalize.antt =====
-- `finalizeProposal` (packages/node/src/kernel/emission-witness.ts).
use pando.Common.{
  ℕ, ◌+◌, Bool, not, some, List, [], ◌∷◌, ◌++◌, length, drop, ltb, ◌==◌, if◌then◌else◌, keep_if,
  count_if, includes,
}
use pando.Common.Int.{◌+ℤ◌}
use pando.Common.Table.{remove}
use pando.Emission.State.{
  EmissionProposal, ProposalStatus, Witness, EmitOutcome, no_callback, no_transaction, threw,
  minted, proposal_key, max_history, estimated_amount, is_pending,
}
use pando.Emission.Rates.{reset_daily_counters, exceeds_daily_cap, record_daily_emission}

-- `history.push(p)`, and `shift()` past the limit
abbrev pub push_history : EmissionProposal → List EmissionProposal → List EmissionProposal
push_history p history =
    let longer = history ++ p ∷ [] in
    if ltb max_history (length longer) then drop 1 longer else longer

-- from the pending proposals to the history
unfoldable pub archive : EmissionProposal → Witness → Witness
archive p w = record w {
  pending_map = remove proposal_key p.id w.pending_map;
  locally_proposed = keep_if (λ i. not (i == p.id)) w.locally_proposed;
  history = push_history p w.history;
}

-- `witnesses.filter(w => w.approved).length`
abbrev pub approvals : EmissionProposal → ℕ
approvals p = count_if (λ a. a.approved) p.witnesses

-- past the daily cap
unfoldable pub reject : EmissionProposal → Witness → Witness
reject p w =
    archive (record p { status = ProposalStatus.rejected })
      (record w { total_rejected = w.total_rejected + 1 })

abbrev pub approved_at : ℕ → EmissionProposal → EmissionProposal
approved_at now p = record p { status = ProposalStatus.approved; finalized_at = some now }

-- only the proposing node calls the callback
unfoldable pub mint_outcome : ℕ → EmitOutcome → Bool → EmissionProposal → Witness → Witness
mint_outcome now no_callback is_bootstrap p w =
    archive (approved_at now p) (record w { total_approved = w.total_approved + 1 })
mint_outcome now no_transaction is_bootstrap p w =
    archive (approved_at now p) (record w { total_approved = w.total_approved + 1 })
mint_outcome now threw is_bootstrap p w =
    archive (record (approved_at now p) { status = ProposalStatus.rejected })
      (record w { total_rejected = w.total_rejected + 1 })
mint_outcome now (minted amount transaction) is_bootstrap p w =
    let counted = record w {
      total_approved = w.total_approved + 1;
      total_lux_emitted = w.total_lux_emitted +ℤ amount;
    } in
    archive (record (approved_at now p) { amount = amount; transaction_id = some transaction })
      (record_daily_emission now amount is_bootstrap counted)

unfoldable pub finalize_proposal : ℕ → EmitOutcome → Bool → EmissionProposal → Witness → Witness
finalize_proposal now outcome is_bootstrap p w =
    let r = reset_daily_counters now w in
    if not (is_pending p.status)
    then w
    else if exceeds_daily_cap estimated_amount r
    then reject p r
    else if includes p.id r.locally_proposed
    then mint_outcome now outcome is_bootstrap p r
    else mint_outcome now no_callback is_bootstrap p r
