-- ===== src/Governance/Cap.antt =====
-- How many proposals the archive of packages/node/src/kernel/governance.ts leaves:
-- `enforceProposalCap` and its loop.
use pando.Common.{
  ℕ, suc, ◌+◌, ◌≤◌, ◌≡◌, ◌⊎◌, refl, inl, inr, true, false, none, some, List, [], ◌∷◌, ◌==◌, ==-eq,
  ==-refl, ne_of_==, length, leb, arith, ◌∙◌, sym, ap, Bool-cases,
}
use mathlib.Core.Path.{subst}
use pando.Common.Table.{find, remove, IsKeyed}
use pando.Common.Table.Laws.{find-remove_ne, find-remove_self, remove-IsKeyed}
use pando.Governance.Types.{GovernanceProposal, GovernanceSync, proposal_key}
use pando.Governance.Archive.{remove_proposal_data, is_in_progress, max_proposals, evict}

remove_absent :
    (k : ℕ) (rows : List GovernanceProposal)
    → find proposal_key k rows ≡ none
    → remove proposal_key k rows ≡ rows
remove_absent k [] h = refl
remove_absent k (p ∷ rows) h = ground (arith, remove_absent k rows)

pub length-remove :
    (k : ℕ) (p : GovernanceProposal) (rows : List GovernanceProposal)
    → IsKeyed proposal_key rows
    → find proposal_key k rows ≡ some p
    → suc (length (remove proposal_key k rows)) ≡ length rows
length-remove k p [] keyed h = absurd (ground arith)
length-remove k p (q ∷ rows) keyed h = elim (Bool-cases (q.id == k)) [
  | inl same ↦
      let e : q.id ≡ k = ==-eq q.id k same in
      let gone : find proposal_key k rows ≡ none =
        subst (λ j. find proposal_key j rows ≡ none) e keyed.0 in
      rw (same, remove_absent k rows gone) refl
  | inr other ↦ rw other (ap suc (length-remove k p rows keyed.1 (ground arith)))
]

-- the rows to go are in the table, each once
abbrev pub AreListed : List GovernanceProposal → List GovernanceProposal → Type 0
AreListed ps rows =
    (j : ℕ) (p : GovernanceProposal)
    → find proposal_key j ps ≡ some p
    → find proposal_key j rows ≡ some p

-- every row that is not in progress is to go
abbrev pub AreCovered : List GovernanceProposal → List GovernanceProposal → Type 0
AreCovered ps rows =
    (j : ℕ) (p : GovernanceProposal)
    → find proposal_key j rows ≡ some p
    → is_in_progress p.status ≡ false
    → find proposal_key j ps ≡ some p

-- the table after the loop: no more than the cap, or only proposals in progress
abbrev pub IsCapped : List GovernanceProposal → Type 0
IsCapped rows =
    (length rows ≤ max_proposals)
    ⊎ ((j : ℕ) (p : GovernanceProposal)
        → find proposal_key j rows ≡ some p
        → is_in_progress p.status ≡ true)

pub listed_rest :
    (p : GovernanceProposal) (ps rows : List GovernanceProposal)
    → IsKeyed proposal_key (p ∷ ps)
    → AreListed (p ∷ ps) rows
    → AreListed ps (remove proposal_key p.id rows)
listed_rest p ps rows keyed listed j q h = elim (Bool-cases (p.id == j)) [
  | inl same ↦ absurd (
      let gone : find proposal_key j ps ≡ none =
        subst (λ k. find proposal_key k ps ≡ none) (==-eq p.id j same) keyed.0 in
      ground arith)
  | inr other ↦
      find-remove_ne proposal_key j p.id rows (λ e. ne_of_== p.id j other (sym e))
      ∙ listed j q (ground arith)
]

covered_rest :
    (p : GovernanceProposal) (ps rows : List GovernanceProposal)
    → AreCovered (p ∷ ps) rows
    → AreCovered ps (remove proposal_key p.id rows)
covered_rest p ps rows covered j q h ended = elim (Bool-cases (p.id == j)) [
  | inl same ↦ absurd (
      let e : p.id ≡ j = ==-eq p.id j same in
      let gone : find proposal_key j (remove proposal_key p.id rows) ≡ none =
        subst (λ k. find proposal_key k (remove proposal_key p.id rows) ≡ none) e
          (find-remove_self proposal_key p.id rows) in
      ground arith)
  | inr other ↦
      let before =
        covered j q
          (sym (find-remove_ne proposal_key j p.id rows (λ e. ne_of_== p.id j other (sym e))) ∙ h)
          ended in
      ground (arith, before)
]

pub evict_lem :
    (ps : List GovernanceProposal) (s : GovernanceSync)
    → IsKeyed proposal_key s.proposals
    → IsKeyed proposal_key ps
    → AreListed ps s.proposals
    → AreCovered ps s.proposals
    → ((evict ps s).0 + length (evict ps s).1.proposals ≡ length s.proposals)
      × IsCapped (evict ps s).1.proposals
unfolding evict remove_proposal_data
evict_lem [] s keyed ps_keyed listed covered = (
  omega arith,
  inr (λ j p h. elim (Bool-cases (is_in_progress p.status)) [
    | inl going ↦ going
    | inr ended ↦ absurd (ground (arith, covered j p h ended))
  ]),
)
evict_lem (p ∷ ps) s keyed ps_keyed listed covered =
    elim (Bool-cases (leb (length s.proposals) max_proposals)) [
      | inl fits ↦ rw fits (omega arith, inl (ground arith))
      | inr full ↦
          let rest =
            evict_lem ps (remove_proposal_data p.id s)
              (remove-IsKeyed proposal_key p.id s.proposals keyed) ps_keyed.1
              (listed_rest p ps s.proposals ps_keyed listed)
              (covered_rest p ps s.proposals covered) in
          let first : find proposal_key p.id s.proposals ≡ some p =
            listed p.id p (ground (arith, ==-refl p.id)) in
          rw full (omega (arith, rest.0, length-remove p.id p s.proposals keyed first), rest.1)
    ]
