-- ===== src/Tasks/Queue.antt =====
-- The operations of `TaskQueue` on one task (packages/node/src/platform/task-queue.ts). Each gives
-- what the method returns, and the queue. Events that are published to the network are left out.
use pando.Common.{
  ℕ, ◌+◌, Bool, true, false, not, ◌&&◌, ◌||◌, Option, none, some, List, [], ◌∷◌, ◌++◌, ltb, ◌==◌,
  if◌then◌else◌, includes, is_some,
}
use pando.Common.Table.{find, update}
use pando.Tasks.Types.{
  Task, TaskStatus, TaskResult, Queue, task_key, get_task, is_status, is_valid_transition, or_kept,
  merge_result, with_note,
}

abbrev pub write : ℕ → (Task → Task) → Queue → Queue
write id f q = record q { tasks = update task_key id f q.tasks }

-- `SELECT id FROM tasks WHERE status IN ('claimed', 'in_progress')`
abbrev pub is_active : TaskStatus → Bool
is_active s = is_status s TaskStatus.claimed || is_status s TaskStatus.in_progress

-- the files of the active tasks
unfoldable pub get_locked_files : List Task → List ℕ
get_locked_files [] = []
get_locked_files (t ∷ ts) = (if is_active t.status then t.files else []) ++ get_locked_files ts

unfoldable pub first_locked : List ℕ → List ℕ → Option ℕ
first_locked locked [] = none
first_locked locked (f ∷ fs) = if includes f locked then some f else first_locked locked fs

abbrev pub get_conflicting_files : List ℕ → List Task → Option ℕ
get_conflicting_files files ts = first_locked (get_locked_files ts) files

abbrev pub is_done : ℕ → List Task → Bool
is_done id ts = elim (find task_key id ts) [
  | none ↦ false
  | some t ↦ is_status t.status TaskStatus.done
]

unfoldable pub get_unmet_dependency : List ℕ → List Task → Option ℕ
get_unmet_dependency [] ts = none
get_unmet_dependency (d ∷ ds) ts = if is_done d ts then get_unmet_dependency ds ts else some d

unfoldable pub insert_remote_task : Task → Queue → Bool × Queue
insert_remote_task t q =
    if is_some (get_task t.id q) then (false, q) else (true, record q { tasks = q.tasks ++ t ∷ [] })

pub data ClaimError : Type 0 where
  task_not_found not_open not_claimed_by_agent not_releasable : ClaimError
  file_conflict dependency_not_met : ℕ → ClaimError

unfoldable pub claim_task : ℕ → ℕ → ℕ → Queue → Option ClaimError × Queue
claim_task now id agent q = elim (get_task id q) [
  | none ↦ (some task_not_found, q)
  | some t ↦
      if not (is_status t.status TaskStatus.opened)
      then (some not_open, q)
      else elim (get_conflicting_files t.files q.tasks) [
        | some f ↦ (some (file_conflict f), q)
        | none ↦ elim (get_unmet_dependency t.dependencies q.tasks) [
          | some d ↦ (some (dependency_not_met d), q)
          | none ↦ (
            none,
            write id
                (λ row. record row {
                  status = TaskStatus.claimed;
                  assigned_to = some agent;
                  claimed_by_node = q.local_peer_id;
                  claimed_at = some now;
                  updated_at = now;
                })
                q,
          )
        ]
      ]
]

unfoldable pub update_status : ℕ → ℕ → TaskStatus → Option ℕ → Queue → Bool × Queue
update_status now id status assigned q = elim (get_task id q) [
  | none ↦ (false, q)
  | some t ↦
      if is_status t.status status
      then (true, q)
      else if not (is_valid_transition t.status status)
      then (false, q)
      else (
        true,
        write id
            (λ row. record row {
              status = status;
              updated_at = now;
              assigned_to = or_kept assigned row.assigned_to;
            })
            q,
      )
]

unfoldable pub update_remote_status :
    ℕ → ℕ → TaskStatus → Option ℕ → Option TaskResult → Option ℕ → Option ℕ → Queue → Bool × Queue
update_remote_status now id status assigned result claimed_by executed_by q = elim (get_task id q) [
  | none ↦ (false, q)
  | some t ↦
      if is_status t.status status
      then (true, q)
      else if not (is_valid_transition t.status status)
      then (false, q)
      else (
        true,
        write id
            (λ row. record row {
              status = status;
              updated_at = now;
              assigned_to = or_kept assigned row.assigned_to;
              claimed_by_node = or_kept claimed_by row.claimed_by_node;
              executed_by_node = or_kept executed_by row.executed_by_node;
              result = elim result [ none ↦ row.result | some r ↦ merge_result r row.result ];
            })
            q,
      )
]

-- back to open; a reason is written if there is one
unfoldable pub reject_task : ℕ → ℕ → Option ℕ → Queue → Bool × Queue
reject_task now id reason q = elim (get_task id q) [
  | none ↦ (false, q)
  | some t ↦
      if is_status t.status TaskStatus.opened
      then (true, q)
      else if not (is_valid_transition t.status TaskStatus.opened)
      then (false, q)
      else (
        true,
        write id
            (λ row. record row {
              status = TaskStatus.opened;
              assigned_to = none;
              updated_at = now;
              result = with_note (or_kept reason row.result.note) row.result;
            })
            q,
      )
]

abbrev pub is_agent : ℕ → Option ℕ → Bool
is_agent agent none = false
is_agent agent (some a) = a == agent

unfoldable pub release_task : ℕ → ℕ → ℕ → Queue → Option ClaimError × Queue
release_task now id agent q = elim (get_task id q) [
  | none ↦ (some task_not_found, q)
  | some t ↦
      if not (is_agent agent t.assigned_to)
      then (some not_claimed_by_agent, q)
      else if not (is_active t.status)
      then (some not_releasable, q)
      else (
        none,
        write id
            (λ row. record row { status = TaskStatus.opened; assigned_to = none; updated_at = now })
            q,
      )
]

unfoldable pub force_release_task : ℕ → ℕ → Queue → Bool × Queue
force_release_task now id q = elim (get_task id q) [
  | none ↦ (false, q)
  | some t ↦ if not (is_active t.status) then (false, q) else (
    true,
    write id
        (λ row. record row {
          status = TaskStatus.opened;
          assigned_to = none;
          claimed_by_node = none;
          claimed_at = none;
          updated_at = now;
        })
        q,
  )
]

-- `status IN ('done', 'rejected') AND updated_at < now - olderThanMs`
abbrev pub is_old : ℕ → ℕ → Task → Bool
is_old now older t =
    (is_status t.status TaskStatus.done || is_status t.status TaskStatus.rejected)
    && ltb (t.updated_at + older) now

unfoldable pub archive_row : ℕ → ℕ → Task → Task
archive_row now older t =
    if is_old now older t then record t { status = TaskStatus.archived; updated_at = now } else t

unfoldable pub archive_rows : ℕ → ℕ → List Task → List Task
archive_rows now older [] = []
archive_rows now older (t ∷ ts) = archive_row now older t ∷ archive_rows now older ts

unfoldable pub archive_tasks : ℕ → ℕ → Queue → Queue
archive_tasks now older q = record q { tasks = archive_rows now older q.tasks }
