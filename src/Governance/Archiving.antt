-- ===== src/Governance/Archiving.antt =====
-- `archiveExpiredProposals` of packages/node/src/kernel/governance.ts: what it counts and what it
-- leaves.
use pando.Common.{
  ℕ, ◌+◌, ◌≡◌, refl, inl, inr, not, none, some, List, [], ◌∷◌, ◌==◌, ==-eq, ==-refl, length,
  keep_if, leb, arith, ◌∙◌, sym, Bool-cases,
}
use pando.Common.Table.{find, IsKeyed}
use pando.Common.Table.Laws.{remove-IsKeyed}
use pando.Common.Table.Sort.{sort_by_lem}
use pando.Governance.Types.{GovernanceProposal, GovernanceSync, Env, proposal_key}
use pando.Governance.Archive.{
  remove_proposal_data, expire_all, is_in_progress, is_archived, archive_each, max_proposals,
  sort_by_age, enforce_proposal_cap, archive_expired_proposals,
}
use pando.Governance.Cap.{length-remove, AreListed, AreCovered, IsCapped, listed_rest, evict_lem}
use pando.Governance.Restatus.{expire_all-IsRestatused}

archive_each_lem :
    (now max_age : ℕ) (ps : List GovernanceProposal) (s : GovernanceSync)
    → IsKeyed proposal_key s.proposals
    → IsKeyed proposal_key ps
    → AreListed ps s.proposals
    → ((archive_each now max_age ps s).0 + length (archive_each now max_age ps s).1.proposals
        ≡ length s.proposals)
      × IsKeyed proposal_key (archive_each now max_age ps s).1.proposals
unfolding archive_each remove_proposal_data
archive_each_lem now max_age [] s keyed ps_keyed listed = (omega arith, keyed)
archive_each_lem now max_age (p ∷ ps) s keyed ps_keyed listed =
    elim (Bool-cases (is_archived now max_age s.votes p)) [
      | inl old ↦
          let (sum, k) =
            archive_each_lem now max_age ps (remove_proposal_data p.id s)
              (remove-IsKeyed proposal_key p.id s.proposals keyed) ps_keyed.1
              (listed_rest p ps s.proposals ps_keyed listed) in
          let first : find proposal_key p.id s.proposals ≡ some p =
            listed p.id p (ground (arith, ==-refl p.id)) in
          rw old (omega (arith, sum, length-remove p.id p s.proposals keyed first), k)
      | inr kept ↦ rw kept (
          archive_each_lem now max_age ps s keyed ps_keyed.1
            (λ j q h. listed j q (ground (arith, ==-eq p.id j, ps_keyed.0))))
    ]

-- the proposals that are not in progress
abbrev completed : List GovernanceProposal → List GovernanceProposal
completed rows = keep_if (λ p. not (is_in_progress p.status)) rows

completed-none :
    (j : ℕ) (rows : List GovernanceProposal)
    → find proposal_key j rows ≡ none
    → find proposal_key j (completed rows) ≡ none
completed-none j [] h = refl
completed-none j (p ∷ rows) h = ground (arith, completed-none j rows)

completed-IsKeyed :
    (rows : List GovernanceProposal)
    → IsKeyed proposal_key rows
    → IsKeyed proposal_key (completed rows)
completed-IsKeyed [] h = tt
completed-IsKeyed (p ∷ rows) h = elim (Bool-cases (is_in_progress p.status)) [
  | inl going ↦ rw going (completed-IsKeyed rows h.1)
  | inr ended ↦ rw ended (completed-none p.id rows h.0, completed-IsKeyed rows h.1)
]

completed-listed :
    (rows : List GovernanceProposal) → IsKeyed proposal_key rows → AreListed (completed rows) rows
completed-listed [] keyed j p h = h
completed-listed (q ∷ rows) keyed j p h = elim (Bool-cases (is_in_progress q.status)) [
  | inl going ↦
      let rest = completed-listed rows keyed.1 j p (rw going at h) in
      elim (Bool-cases (q.id == j)) [
        | inl same ↦ absurd (ground (arith, ==-eq q.id j same, keyed.0))
        | inr other ↦ rw other rest
      ]
  | inr ended ↦ elim (Bool-cases (q.id == j)) [
    | inl same ↦ ground arith
    | inr other ↦ rw other (completed-listed rows keyed.1 j p (ground arith))
  ]
]

completed-covered : (rows : List GovernanceProposal) → AreCovered (completed rows) rows
completed-covered [] j p h ended = h
completed-covered (q ∷ rows) j p h ended = elim (Bool-cases (q.id == j)) [
  | inl same ↦ ground arith
  | inr other ↦ ground (arith, completed-covered rows j p (rw other at h) ended)
]

enforce_proposal_cap_lem :
    (s : GovernanceSync)
    → IsKeyed proposal_key s.proposals
    → ((enforce_proposal_cap s).0 + length (enforce_proposal_cap s).1.proposals
        ≡ length s.proposals)
      × IsCapped (enforce_proposal_cap s).1.proposals
unfolding enforce_proposal_cap
enforce_proposal_cap_lem s keyed = elim (Bool-cases (leb (length s.proposals) max_proposals)) [
  | inl fits ↦ rw fits (omega arith, inl (ground arith))
  | inr full ↦
      let older = λ (p q : GovernanceProposal). leb p.created_at q.created_at in
      let (k, found) =
        sort_by_lem older proposal_key (completed s.proposals)
          (completed-IsKeyed s.proposals keyed) in
      rw full (
        evict_lem (sort_by_age (completed s.proposals)) s keyed k
          (λ j p h. completed-listed s.proposals keyed j p (sym (found j) ∙ h))
          (λ j p h ended. found j ∙ completed-covered s.proposals j p h ended))
]

-- The archive returns how many proposals it removed, and leaves at most 500 proposals or only
-- proposals that are active or in review, when each proposal has its own id.
pub archive_expired_proposals-IsCapped :
    (e : Env) (max_age : ℕ) (s : GovernanceSync)
    → IsKeyed proposal_key s.proposals
    → let (n, s') = archive_expired_proposals e max_age s in
      (n + length s'.proposals ≡ length s.proposals) × IsCapped s'.proposals
unfolding archive_expired_proposals
archive_expired_proposals-IsCapped e max_age s keyed =
    let fresh = expire_all e s.proposals s in
    let r = expire_all-IsRestatused e s.proposals s in
    let keyed' = r.keyed keyed in
    let (sum, k) =
      archive_each_lem e.now max_age fresh.proposals fresh keyed' keyed' (λ j p h. h) in
    let (sum', capped) =
      enforce_proposal_cap_lem (archive_each e.now max_age fresh.proposals fresh).1 k in
    (omega (arith, r.as_many, sum, sum'), capped)
