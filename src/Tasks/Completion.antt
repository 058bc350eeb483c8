-- ===== src/Tasks/Completion.antt =====
-- `completeTask`, `setParentChild` and `areAllChildrenDone` (packages/node/src/platform/task-
-- queue.ts).
use pando.Common.{
  ℕ, Bool, true, false, not, ◌&&◌, ◌||◌, Option, none, some, List, [], ◌∷◌, ◌++◌, ◌==◌,
  if◌then◌else◌, keep_if, is_some,
}
use pando.Common.Table.{find, update}
use pando.Tasks.Types.{
  Task, TaskStatus, TaskResult, TaskCost, cascade_rejected, sibling_auto_approved, Queue, task_key,
  get_task, is_status, is_valid_transition, or_kept, merge_result, merge_cost, with_note,
}
use pando.Tasks.Queue.{write, is_done}

-- the text 'Parent task completed'
abbrev pub parent_completed : ℕ
parent_completed = 0

pub record CompletionInfo : Type 0 where
  pub executed_by : Option ℕ
  pub result : TaskResult
  pub cost : TaskCost

-- the row of the completed task; the node itself executed it if nobody else is named
abbrev pub complete_row : ℕ → Option ℕ → CompletionInfo → Task → Task
complete_row now self info row = record row {
  status = TaskStatus.done;
  updated_at = now;
  result = merge_result info.result row.result;
  executed_by_node = or_kept info.executed_by (or_kept row.executed_by_node self);
  cost = merge_cost info.cost row.cost;
}

-- the loop over the children: those that are open or claimed are rejected
unfoldable pub reject_child : ℕ → ℕ → ℕ → Queue → Queue
reject_child now parent c q = elim (get_task c q) [
  | none ↦ q
  | some child ↦
      if is_status child.status TaskStatus.opened || is_status child.status TaskStatus.claimed
      then record q {
        tasks =
            update task_key c
              (λ row. record row {
                status = TaskStatus.rejected;
                assigned_to = none;
                updated_at = now;
                result = with_note (some parent_completed) row.result;
              })
              q.tasks;
        timeline = q.timeline ++ cascade_rejected c parent now ∷ [];
      }
      else q
]

unfoldable pub cascade_reject : ℕ → ℕ → List ℕ → Queue → Queue
cascade_reject now parent [] q = q
cascade_reject now parent (c ∷ cs) q = cascade_reject now parent cs (reject_child now parent c q)

-- every dependency is done or rejected
unfoldable pub deps_resolved : List ℕ → List Task → Bool
deps_resolved [] ts = true
deps_resolved (d ∷ ds) ts =
    elim (find task_key d ts) [
      | none ↦ false
      | some dep ↦ is_status dep.status TaskStatus.done || is_status dep.status TaskStatus.rejected
    ]
    && deps_resolved ds ts

-- the loop over the siblings: an event for each open one whose dependencies are resolved
unfoldable pub approve_sibling : ℕ → ℕ → ℕ → Queue → Queue
approve_sibling now completed s q = elim (get_task s q) [
  | none ↦ q
  | some sibling ↦
      if is_status sibling.status TaskStatus.opened && deps_resolved sibling.dependencies q.tasks
      then record q { timeline = q.timeline ++ sibling_auto_approved s completed now ∷ [] }
      else q
]

unfoldable pub approve_siblings : ℕ → ℕ → List ℕ → Queue → Queue
approve_siblings now completed [] q = q
approve_siblings now completed (s ∷ ss) q =
    approve_siblings now completed ss (approve_sibling now completed s q)

abbrev pub siblings : ℕ → Task → Queue → List ℕ
siblings id t q = elim t.parent_task [
  | none ↦ []
  | some parent ↦ elim (get_task parent q) [
    | none ↦ []
    | some p ↦ keep_if (λ c. not (c == id)) p.child_tasks
  ]
]

unfoldable pub complete_task : ℕ → ℕ → CompletionInfo → Queue → Bool × Queue
complete_task now id info q = elim (get_task id q) [
  | none ↦ (false, q)
  | some t ↦
      if is_status t.status TaskStatus.done
      then (true, q)
      else if not (is_valid_transition t.status TaskStatus.done)
      then (false, q)
      else let completed = write id (complete_row now q.local_peer_id info) q in
        let cascaded = cascade_reject now id t.child_tasks completed in
        (true, approve_siblings now id (siblings id t cascaded) cascaded)
]

-- `INSERT OR IGNORE` into a table keyed by both columns
unfoldable pub distinct : List ℕ → List ℕ
distinct [] = []
distinct (c ∷ cs) = c ∷ keep_if (λ d. not (d == c)) (distinct cs)

unfoldable pub set_parents : ℕ → ℕ → List ℕ → Queue → Queue
set_parents now parent [] q = q
set_parents now parent (c ∷ cs) q =
    set_parents now parent cs
      (write c (λ row. record row { parent_task = some parent; updated_at = now }) q)

unfoldable pub set_parent_child : ℕ → ℕ → List ℕ → Queue → Bool × Queue
set_parent_child now parent children q =
    if is_some (get_task parent q)
    then (
      true,
      set_parents now parent children (
          write parent
            (λ row. record row {
              child_tasks = distinct (keep_if (λ c. not (c == parent)) children);
              updated_at = now;
            })
            q),
    )
    else (false, q)

unfoldable pub all_done : List ℕ → List Task → Bool
all_done [] ts = true
all_done (c ∷ cs) ts = if is_done c ts then all_done cs ts else false

unfoldable pub are_all_children_done : ℕ → Queue → Bool
are_all_children_done parent q = elim (get_task parent q) [
  | none ↦ false
  | some p ↦ elim p.child_tasks [ [] ↦ false | c ∷ cs ↦ all_done (c ∷ cs) q.tasks ]
]
