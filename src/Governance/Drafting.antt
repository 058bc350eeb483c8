-- ===== src/Governance/Drafting.antt =====
-- `createProposal` and `addComment` of packages/node/src/kernel/governance.ts as writes.
use pando.Common.{ℕ, ◌≡◌, inl, inr, arith, Option, none, some, List, Bool-cases, Option-cases, sym}
use mathlib.Core.Path.{subst}
use pando.Common.Int.{ℤ, pos, ltb_ℤ}
use pando.Common.Table.{find}
use pando.Common.Result.{ok, Result-cases}
use pando.Payment.Gate.{Gate, PaymentHold, hold_key, hold_payment, can_afford}
use pando.Governance.Types.{GovernanceProposal, GovernanceComment, ProcessedId, GovernanceSync, Env}
use pando.Governance.Processed.{add_processed, sanitize_text}
use pando.Governance.Store.{proposal_of}
use pando.Governance.Comments.{record_comment, add_comment}
use pando.Governance.Proposals.{UpgradeValidation, auto_approve}
use pando.Governance.Creation.{
  blocks_creation, any_proposal, Draft, stake_for, Stake, held_stake, take_stake, new_proposal,
  store_new, create_proposal, begin_creation,
}
use pando.Governance.Writes.{
  Node, Writes, Writes-trans, one, here, next, takes, marks, discusses, clears, stores, calls,
}
use pando.Governance.Known.{has_processed_marked}
use pando.Governance.Steps.{record_comment-Writes, auto_approve-Writes}

held_stake-hold :
    (amount : ℤ) (r : Option PaymentHold × Gate) (k : Stake)
    → held_stake amount r ≡ ok k
    → k.payment_gate ≡ some r.1
held_stake-hold amount (none, g) k h = absurd (ground arith)
held_stake-hold amount (some x, g) k h = ground arith

-- the ids that a draft brings are new
abbrev pub IsNew : Draft → GovernanceSync → Type 0
IsNew d s =
    (proposal_of d.id s ≡ none)
    × ((g : Gate) → s.payment_gate ≡ some g → find hold_key d.stake_hold_id g.holds ≡ none)

take_stake-Writes :
    (n : Node) (e : Env) (d : Draft) (s : GovernanceSync) (k : Stake)
    → IsNew d s
    → take_stake e d s ≡ ok k
    → Writes n s (record s { payment_gate = k.payment_gate })
unfolding take_stake
take_stake-Writes n e d s k new h = elim (Option-cases s.payment_gate) [
  | inl unset ↦
      let kept : k.payment_gate ≡ s.payment_gate = ground arith in
      subst (λ o. Writes n s (record s { payment_gate = o })) (sym kept) here
  | inr (g, set) ↦ elim (Bool-cases (ltb_ℤ (pos 0) (stake_for e d g s))) [
    | inl due ↦ elim (Bool-cases (can_afford e.local_peer_id (stake_for e d g s) g.ledger)) [
      | inl afforded ↦
          let amount = stake_for e d g s in
          let r = hold_payment e.now d.stake_hold_id e.local_peer_id d.stake_task_id amount g in
          let held : k.payment_gate ≡ some r.1 = held_stake-hold amount r k (ground arith) in
          subst (λ o. Writes n s (record s { payment_gate = o })) (sym held)
            (one (
              calls set
                (takes e.now d.stake_hold_id e.local_peer_id d.stake_task_id amount (new.1 g set))))
      | inr short ↦ absurd (ground arith)
    ]
    | inr free ↦
        let kept : k.payment_gate ≡ s.payment_gate = ground arith in
        subst (λ o. Writes n s (record s { payment_gate = o })) (sym kept) here
  ]
]

pub store_new-Writes :
    (n : Node) (p : GovernanceProposal) (s : GovernanceSync)
    → proposal_of p.id s ≡ none
    → Writes n s (store_new p s)
unfolding store_new
store_new-Writes n p s new =
    next
      (next
        (next (one (marks (ProcessedId.proposal p.id)))
          (stores p new (has_processed_marked (ProcessedId.proposal p.id) s)))
        (clears p.id))
      (discusses _ _)

pub begin_creation-Writes :
    (n : Node) (e : Env) (d : Draft) (s : GovernanceSync) (p : GovernanceProposal)
    (s' : GovernanceSync)
    → IsNew d s
    → begin_creation e d s ≡ ok (p, s')
    → Writes n s s' × (proposal_of p.id s' ≡ none)
unfolding begin_creation
begin_creation-Writes n e d s p s' new h =
    elim (Bool-cases (any_proposal (blocks_creation e s.votes) s.proposals)) [
      | inl blocked ↦ absurd (ground arith)
      | inr clear ↦ elim (Result-cases (take_stake e d s)) [
        | inl (k, staked) ↦
            let s1 : GovernanceSync = record s { payment_gate = k.payment_gate } in
            let made : s1 ≡ s' = ground arith in
            let drafted : new_proposal e d k ≡ p = ground arith in
            (
              subst (λ x. Writes n s x) made (take_stake-Writes n e d s k new staked),
              subst (λ x. proposal_of p.id x ≡ none) made
                  (subst (λ (x : GovernanceProposal). proposal_of x.id s1 ≡ none) drafted new.0),
            )
        | inr (x, thrown) ↦ absurd (ground arith)
      ]
    ]

pub create_proposal-Writes :
    (n : Node) (e : Env) (v : UpgradeValidation) (d : Draft) (s s' : GovernanceSync)
    → IsNew d s
    → create_proposal e v d s ≡ ok s'
    → Writes n s s'
unfolding create_proposal
create_proposal-Writes n e v d s s' new h = elim (Result-cases (begin_creation e d s)) [
  | inl ((p, s1), begun) ↦
      let (w, absent) = begin_creation-Writes n e d s p s1 new begun in
      let made : auto_approve e v p (store_new p s1) ≡ s' = ground arith in
      subst (λ x. Writes n s x) made
        (Writes-trans (Writes-trans w (store_new-Writes n p s1 absent))
          (auto_approve-Writes n e v p (store_new p s1)))
  | inr (x, thrown) ↦ absurd (ground arith)
]

pub add_comment-Writes :
    (n : Node) (e : Env) (c id : ℕ) (content : List ℕ) (s s' : GovernanceSync)
    → add_comment e c id content s ≡ ok s'
    → Writes n s s'
unfolding add_comment
add_comment-Writes n e c id content s s' h = elim (Option-cases (proposal_of id s)) [
  | inl missing ↦ absurd (ground arith)
  | inr (p, found) ↦
      let c' : GovernanceComment = record {
        id = c;
        proposal_id = id;
        from = e.local_peer_id;
        content = sanitize_text content;
        created_at = e.now;
      } in
      let made : add_processed (ProcessedId.comment c) (record_comment c' s) ≡ s' = ground arith in
      subst (λ x. Writes n s x) made
        (next (record_comment-Writes n c' s) (marks (ProcessedId.comment c)))
]
