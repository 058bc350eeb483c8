-- ===== src/Tasks/Removal.antt =====
-- What `cleanupExpiredTasks` (packages/node/src/platform/task-database.ts) does to one task: its
-- status changes along VALID_TRANSITIONS, or its row is deleted.
use pando.Common.{
  ℕ, ◌+◌, ◌<◌, ◌≡◌, ◌⊎◌, refl, inl, inr, true, not, some, List, [], ◌∷◌, ◌==◌, Bool-cases, arith,
  map, keep_if,
}
use mathlib.Core.Path.{subst, ap}
use pando.Common.Table.{find}
use pando.Tasks.Types.{Task, TaskStatus, Queue, task_key, get_task, is_valid_transition}
use pando.Tasks.Cleanup.{
  expire_open, reset_claim, reset_work, is_stale_open, is_stale_claim, is_stale_work,
  is_old_terminal, cleanup_expired_tasks,
}
use pando.Tasks.Transitions.{Reaches, stays, moves, Reaches_trans}

-- a row that a cleanup at `now` deletes: seven days in milliseconds
pub record IsRemovable (now : ℕ) (t : Task) : Type 0 where
  pub terminal :
      (t.status ≡ TaskStatus.done)
      ⊎ ((t.status ≡ TaskStatus.rejected) ⊎ (t.status ≡ TaskStatus.expired))
  pub untouched : t.updated_at + 604_800_000 < now

module _ (now : ℕ) where
  abbrev cleaned : Task → Task
  cleaned t = reset_work now (reset_claim now (expire_open now t))

  cleaned-id : (t : Task) → (cleaned t).id ≡ t.id
  unfolding expire_open reset_claim reset_work
  cleaned-id t = ground arith

  stale_open_valid :
      (t : Task)
      → is_stale_open now t ≡ true
      → is_valid_transition t.status TaskStatus.expired ≡ true
  unfolding is_valid_transition
  stale_open_valid t h = ground arith

  stale_claim_valid :
      (t : Task)
      → is_stale_claim now t ≡ true
      → is_valid_transition t.status TaskStatus.opened ≡ true
  unfolding is_valid_transition
  stale_claim_valid t h = ground arith

  stale_work_valid :
      (t : Task)
      → is_stale_work now t ≡ true
      → is_valid_transition t.status TaskStatus.opened ≡ true
  unfolding is_valid_transition
  stale_work_valid t h = ground arith

  expire_open-Reaches : (t : Task) → Reaches t.status (expire_open now t).status
  unfolding expire_open
  expire_open-Reaches t = elim (Bool-cases (is_stale_open now t)) [
    | inl old ↦ rw old (moves stays (stale_open_valid t old))
    | inr new ↦ rw new stays
  ]

  reset_claim-Reaches : (t : Task) → Reaches t.status (reset_claim now t).status
  unfolding reset_claim
  reset_claim-Reaches t = elim (Bool-cases (is_stale_claim now t)) [
    | inl old ↦ rw old (moves stays (stale_claim_valid t old))
    | inr new ↦ rw new stays
  ]

  reset_work-Reaches : (t : Task) → Reaches t.status (reset_work now t).status
  unfolding reset_work
  reset_work-Reaches t = elim (Bool-cases (is_stale_work now t)) [
    | inl old ↦ rw old (moves stays (stale_work_valid t old))
    | inr new ↦ rw new stays
  ]

  cleaned-Reaches : (t : Task) → Reaches t.status (cleaned t).status
  cleaned-Reaches t =
      let opened = expire_open now t in
      Reaches_trans (Reaches_trans (expire_open-Reaches t) (reset_claim-Reaches opened))
        (reset_work-Reaches (reset_claim now opened))

  -- the updates leave no row old
  old_before : (t : Task) → is_old_terminal now (cleaned t) ≡ true → is_old_terminal now t ≡ true
  unfolding expire_open reset_claim reset_work
  old_before t h = ground arith

  removable :
      (s : TaskStatus) (t : Task) → t.status ≡ s → is_old_terminal now t ≡ true → IsRemovable now t
  removable TaskStatus.done t e h = record { terminal = inl e; untouched = ground arith }
  removable TaskStatus.rejected t e h = record { terminal = inr (inl e); untouched = ground arith }
  removable TaskStatus.expired t e h = record { terminal = inr (inr e); untouched = ground arith }
  removable TaskStatus.opened t e h = absurd (ground arith)
  removable TaskStatus.claimed t e h = absurd (ground arith)
  removable TaskStatus.in_progress t e h = absurd (ground arith)
  removable TaskStatus.review t e h = absurd (ground arith)
  removable TaskStatus.archived t e h = absurd (ground arith)

  terminal_lem : (t : Task) → is_old_terminal now (cleaned t) ≡ true → IsRemovable now t
  terminal_lem t h = removable t.status t refl (old_before t h)

  cleaned_rows :
      (ts : List Task) (id : ℕ) (t : Task)
      → find task_key id ts ≡ some t
      → (find task_key id (
            keep_if
              (λ r. not (is_old_terminal now r))
              (map (reset_work now) (map (reset_claim now) (map (expire_open now) ts))))
          ≡ some (cleaned t))
        ⊎ IsRemovable now t
  unfolding reset_work
  cleaned_rows [] id t e = cc
  cleaned_rows (x ∷ ts) id t e = elim (Bool-cases (x.id == id)) [
    | inl is_x ↦
        let x_t : x ≡ t = ground arith in
        elim (Bool-cases (is_old_terminal now (cleaned x))) [
          | inl old ↦ inr (subst (IsRemovable now) x_t (terminal_lem x old))
          | inr kept ↦ inl (rw (kept, cleaned-id x, is_x) (ap (λ (r : Task). some (cleaned r)) x_t))
        ]
    | inr other ↦ elim (Bool-cases (is_old_terminal now (cleaned x))) [
      | inl old ↦ rw old (cleaned_rows ts id t (rw other at e))
      | inr kept ↦ rw (kept, cleaned-id x, other) (cleaned_rows ts id t (rw other at e))
    ]
  ]

  pub cleanup_expired_tasks-Reaches :
      (q : Queue) (id : ℕ) (t : Task)
      → get_task id q ≡ some t
      → ((t' : Task) × (get_task id (cleanup_expired_tasks now q).1 ≡ some t')
          × Reaches t.status t'.status)
        ⊎ IsRemovable now t
  unfolding cleanup_expired_tasks
  cleanup_expired_tasks-Reaches q id t e = elim (cleaned_rows q.tasks id t e) [
    | inl found ↦ inl (cleaned t, found, cleaned-Reaches t)
    | inr gone ↦ inr gone
  ]
