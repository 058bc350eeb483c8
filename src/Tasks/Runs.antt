-- ===== src/Tasks/Runs.antt =====
-- The runs of the task queue (packages/node/src/platform/task-queue.ts): what any sequence of its
-- calls keeps.
use pando.Common.{ℕ, ◌≡◌, Bool, ◌||◌, Option, some, List}
use pando.Tasks.Types.{Task, TaskStatus, TaskResult, Queue, get_task, is_status}
use pando.Tasks.Queue.{
  insert_remote_task, claim_task, update_status, update_remote_status, reject_task, release_task,
  force_release_task, archive_tasks,
}
use pando.Tasks.Cleanup.{cleanup_expired_tasks}
use pando.Tasks.Removal.{IsRemovable}
use pando.Tasks.Completion.{CompletionInfo, complete_task, set_parent_child}
use pando.Tasks.Transitions.{Reaches}

-- One call of the queue: the methods of TaskQueue that write a task's status, assignee, parent or
-- children, or its row. A created task is inserted like a remote one, under a new id;
-- `autoCompleteByCommit` completes tasks; notes, tiers, messages and outputs are left out.
pub data QueueStep (q : Queue) : Queue → Type 0 where
  inserts : (t : Task) → QueueStep q (insert_remote_task t q).1
  claims : (now id agent : ℕ) → QueueStep q (claim_task now id agent q).1
  updates :
      (now id : ℕ) (s : TaskStatus) (a : Option ℕ) → QueueStep q (update_status now id s a q).1
  updates_remote :
      (now id : ℕ) (s : TaskStatus) (a : Option ℕ) (r : Option TaskResult)
      (claimed executed : Option ℕ)
      → QueueStep q (update_remote_status now id s a r claimed executed q).1
  completes : (now id : ℕ) (info : CompletionInfo) → QueueStep q (complete_task now id info q).1
  parents : (now parent : ℕ) (cs : List ℕ) → QueueStep q (set_parent_child now parent cs q).1
  rejects : (now id : ℕ) (reason : Option ℕ) → QueueStep q (reject_task now id reason q).1
  releases : (now id agent : ℕ) → QueueStep q (release_task now id agent q).1
  forces : (now id : ℕ) → QueueStep q (force_release_task now id q).1
  archives : (now older : ℕ) → QueueStep q (archive_tasks now older q)
  cleans : (now : ℕ) → QueueStep q (cleanup_expired_tasks now q).1

pub data QueueRun (q : Queue) : Queue → Type 0 where
  none_yet : QueueRun q q
  then_step : {q' q'' : Queue} → QueueRun q q' → QueueStep q' q'' → QueueRun q q''

-- the task's row was deleted on the way: a cleanup ran in a state where the row, in a status that
-- the one it had reaches, was removable
pub record WasRemoved (q q' : Queue) (id : ℕ) (s : TaskStatus) : Type 0 where
  pub at : ℕ
  pub before : Queue
  pub row : Task
  pub until : QueueRun q before
  pub found : get_task id before ≡ some row
  pub reached : Reaches s row.status
  pub removable : IsRemovable at row
  pub after : QueueRun (cleanup_expired_tasks at before).1 q'

-- done, rejected, archived or expired
abbrev pub is_finished : TaskStatus → Bool
is_finished s =
    is_status s TaskStatus.done
    || is_status s TaskStatus.rejected
    || is_status s TaskStatus.archived
    || is_status s TaskStatus.expired
