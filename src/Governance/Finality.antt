-- ===== src/Governance/Finality.antt =====
-- The status of the proposals of packages/node/src/kernel/governance.ts over time.
use pando.Common.{
  ℕ, ◌≡◌, inl, inr, refl, true, false, some, ◌==◌, ==-eq, ne_of_==, arith, ◌∙◌, Bool-cases,
}
use pando.Common.Table.Laws.{find-update_self, find-update_ne, find-put_ne}
use pando.Governance.Types.{GovernanceProposal, GovernanceSync, proposal_key}
use pando.Governance.Store.{proposal_of, with_status, set_status, record_decision, record_vote}
use pando.Governance.Writes.{
  is_final, Node, Write, Writes, here, next, marks, sets_status, decides, casts, discusses, clears,
  stores, touches, pays, calls, removes,
}
use pando.Governance.Known.{IsKnown}
use pando.Governance.Calls.{Run, Run-Writes}

-- a proposal that has passed, was rejected or has expired
abbrev pub IsFinal : ℕ → GovernanceSync → Type 0
IsFinal id s = (p : GovernanceProposal) × ((proposal_of id s ≡ some p) × (is_final p.status ≡ true))

Write-IsFinal :
    (n : Node) (id : ℕ) {s s' : GovernanceSync}
    → n.removes_proposals ≡ false
    → Write n s s'
    → IsFinal id s
    → IsFinal id s'
unfolding set_status record_decision record_vote
Write-IsFinal n id kept (marks k) f = f
Write-IsFinal n id kept (sets_status j st {s} keeps) (p, (found, final)) =
    elim (Bool-cases (id == j)) [
      | inl same ↦
          let e : id ≡ j = ==-eq id j same in
          (
            with_status st p,
            (
              rw e (
                  find-update_self proposal_key j (with_status st) s.proposals refl
                    (rw e at found)),
              keeps p (rw e at found) final,
            ),
          )
      | inr other ↦ (
        p,
        (
          find-update_ne proposal_key id j (with_status st) s.proposals (λ r. refl)
                (ne_of_== id j other)
              ∙ found,
          final,
        ),
      )
    ]
Write-IsFinal n id kept (decides d) f = f
Write-IsFinal n id kept (casts v a) f = f
Write-IsFinal n id kept (discusses c t) f = f
Write-IsFinal n id kept (clears j) f = f
Write-IsFinal n id kept (touches j) f = f
Write-IsFinal n id kept (stores q {s} new marked) (p, (found, final)) =
    elim (Bool-cases (id == q.id)) [
      | inl same ↦ absurd (ground (arith, ==-eq id q.id same))
      | inr other ↦
          (p, (find-put_ne proposal_key id q s.proposals (ne_of_== id q.id other) ∙ found, final))
    ]
Write-IsFinal n id kept (pays ks rs) f = f
Write-IsFinal n id kept (calls g c) f = f
Write-IsFinal n id kept (removes j allowed) f = absurd (ground arith)

Writes-IsFinal :
    (n : Node) (id : ℕ) {s s' : GovernanceSync}
    → n.removes_proposals ≡ false
    → Writes n s s'
    → IsFinal id s
    → IsFinal id s'
Writes-IsFinal n id kept here f = f
Writes-IsFinal n id kept (next r w) f = Write-IsFinal n id kept w (Writes-IsFinal n id kept r f)

-- Over every run of governance without `cleanup` that removes no proposal, a proposal that has
-- passed, was rejected or has expired is still passed, rejected or expired, though perhaps another of
-- the three: no vote, decision, resubmission, synchronization or new message makes it active, or
-- puts it in review or under revision, again. The proposals at the start are marked as processed,
-- and new proposals have new ids.
pub Run-IsFinal :
    (n : Node) (id : ℕ) (s s' : GovernanceSync)
    → n.removes_proposals ≡ false
    → Run n s s'
    → IsKnown s
    → IsFinal id s
    → IsFinal id s'
Run-IsFinal n id s s' kept r known f = Writes-IsFinal n id kept (Run-Writes r known) f
