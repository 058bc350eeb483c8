-- ===== src/Tasks/Cascade.antt =====
-- The changes of status that `completeTask` and `setParentChild` make, and a received task
-- (packages/node/src/platform/task-queue.ts).
use pando.Common.{
  ℕ, ◌≡◌, refl, ◌∙◌, inl, inr, true, not, ◌||◌, some, List, [], ◌∷◌, ◌++◌, ◌==◌, Bool-cases,
  Option-cases, arith, is_some, keep_if,
}
use pando.Common.Table.{find}
use pando.Common.Table.Laws.{update_absent}
use pando.Tasks.Types.{Task, TaskStatus, Queue, task_key, get_task, is_status, is_valid_transition}
use pando.Tasks.Queue.{write, insert_remote_task}
use pando.Tasks.Completion.{
  CompletionInfo, complete_row, reject_child, cascade_reject, approve_sibling, approve_siblings,
  siblings, complete_task, set_parents, set_parent_child, distinct,
}
use pando.Tasks.Transitions.{
  stays, moves, Follows, Follows-refl, Follows-trans, write-Follows, Keeps, same, by_if, by_option,
  valid,
}

with_tasks : (q q' q'' : Queue) → q''.tasks ≡ q'.tasks → Follows q q' → Follows q q''
with_tasks q q' q'' e f id t h = let (t', e', r) = f id t h in (t', rw e e', r)

-- a write that keeps the status
rewrites :
    (id : ℕ) (f : Task → Task) (q : Queue)
    → ((r : Task) → (f r).id ≡ r.id)
    → ((r : Task) → (f r).status ≡ r.status)
    → Follows q (write id f q)
rewrites id f q kept same_status = elim (Option-cases (get_task id q)) [
  | inl missing ↦
      with_tasks q q (write id f q) (update_absent task_key id f q.tasks missing) (Follows-refl q)
  | inr (t, found) ↦ write-Follows id f q found kept (rw (same_status t) stays)
]

rejected_valid :
    (s : TaskStatus)
    → (is_status s TaskStatus.opened || is_status s TaskStatus.claimed) ≡ true
    → is_valid_transition s TaskStatus.rejected ≡ true
unfolding is_valid_transition
rejected_valid s h = ground arith

reject_child-Follows : (now parent c : ℕ) (q : Queue) → Follows q (reject_child now parent c q)
unfolding reject_child
reject_child-Follows now parent c q = elim (Option-cases (get_task c q)) [
  | inl missing ↦ rw (missing, reject_child) (Follows-refl q)
  | inr (child, found) ↦
      elim (Bool-cases
        (is_status child.status TaskStatus.opened || is_status child.status TaskStatus.claimed)) [
          | inl settled ↦
              rw (found, settled, reject_child)
                (write-Follows c _ q found (λ r. refl)
                  (moves stays (rejected_valid child.status settled)))
          | inr other ↦ rw (found, other, reject_child) (Follows-refl q)
        ]
]

cascade_reject-Follows :
    (now parent : ℕ) (cs : List ℕ) (q : Queue) → Follows q (cascade_reject now parent cs q)
unfolding cascade_reject
cascade_reject-Follows now parent [] q = Follows-refl q
cascade_reject-Follows now parent (c ∷ cs) q =
    Follows-trans q (reject_child now parent c q) (cascade_reject now parent (c ∷ cs) q)
      (reject_child-Follows now parent c q)
      (cascade_reject-Follows now parent cs (reject_child now parent c q))

approve_sibling-tasks : (now id s : ℕ) (q : Queue) → (approve_sibling now id s q).tasks ≡ q.tasks
unfolding approve_sibling
approve_sibling-tasks now id s q = ground arith

approve_siblings-tasks :
    (now id : ℕ) (ss : List ℕ) (q : Queue) → (approve_siblings now id ss q).tasks ≡ q.tasks
unfolding approve_siblings
approve_siblings-tasks now id [] q = refl
approve_siblings-tasks now id (s ∷ ss) q =
    approve_siblings-tasks now id ss (approve_sibling now id s q) ∙ approve_sibling-tasks now id s q

pub complete_task-Keeps :
    (now id : ℕ) (info : CompletionInfo) (q : Queue) → Keeps q (complete_task now id info q)
unfolding complete_task
complete_task-Keeps now id info q =
    by_option q (get_task id q) (λ e. same q _)
      (λ t e.
        by_if q (is_status t.status TaskStatus.done) (λ h. same q _)
          (λ h.
            by_if q (not (is_valid_transition t.status TaskStatus.done)) (λ k. same q _)
              (λ v.
                let completed = write id (complete_row now q.local_peer_id info) q in
                let first =
                  write-Follows id (complete_row now q.local_peer_id info) q e (λ r. refl)
                    (moves stays (valid v)) in
                let cascaded = cascade_reject now id t.child_tasks completed in
                let second = cascade_reject-Follows now id t.child_tasks completed in
                let approved = approve_siblings now id (siblings id t cascaded) cascaded in
                record {
                  follows =
                      with_tasks q cascaded approved
                        (approve_siblings-tasks now id (siblings id t cascaded) cascaded)
                        (Follows-trans q completed cascaded first second);
                })))

set_parents-Follows :
    (now parent : ℕ) (cs : List ℕ) (q : Queue) → Follows q (set_parents now parent cs q)
unfolding set_parents
set_parents-Follows now parent [] q = Follows-refl q
set_parents-Follows now parent (c ∷ cs) q =
    let row : Task → Task = λ t. record t { parent_task = some parent; updated_at = now } in
    Follows-trans q (write c row q) (set_parents now parent (c ∷ cs) q)
      (rewrites c row q (λ r. refl) (λ r. refl)) (set_parents-Follows now parent cs (write c row q))

pub set_parent_child-Keeps :
    (now parent : ℕ) (cs : List ℕ) (q : Queue) → Keeps q (set_parent_child now parent cs q)
unfolding set_parent_child
set_parent_child-Keeps now parent cs q =
    let row : Task → Task = λ t. record t {
      child_tasks = distinct (keep_if (λ c. not (c == parent)) cs);
      updated_at = now;
    } in
    by_if q (is_some (get_task parent q))
      (λ h. record {
        follows =
            Follows-trans q (write parent row q) (set_parents now parent cs (write parent row q))
              (rewrites parent row q (λ r. refl) (λ r. refl))
              (set_parents-Follows now parent cs (write parent row q));
      })
      (λ h. same q _)

find-snoc :
    (id : ℕ) (ts : List Task) (new : Task) {t : Task}
    → find task_key id ts ≡ some t
    → find task_key id (ts ++ new ∷ []) ≡ some t
find-snoc id [] new e = cc
find-snoc id (x ∷ ts) new {t} e = ground (arith, find-snoc id ts new {t = t})

pub insert_remote_task-Keeps : (t : Task) (q : Queue) → Keeps q (insert_remote_task t q)
unfolding insert_remote_task
insert_remote_task-Keeps t q =
    by_if q (is_some (get_task t.id q)) (λ h. same q _)
      (λ h. record { follows = λ id u e. (u, find-snoc id q.tasks t e, stays) })
