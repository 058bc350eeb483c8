-- ===== src/Tasks/Tests.antt =====
-- The task queue's theorems at a queue of three tasks.
use pando.Common.{ℕ, ◌≡◌, refl, none, some, List, [], ◌∷◌}
use pando.Common.Table.{Each}
use pando.Tasks.Types.{Task, TaskStatus, TaskResult, TaskCost, Queue, get_task}
use pando.Tasks.Queue.{
  claim_task, get_locked_files, first_locked, get_unmet_dependency, archive_tasks,
}
use pando.Tasks.Completion.{CompletionInfo, complete_task}
use pando.Tasks.Claims.{LeavesFree, IsMet, claim_task_lem}
use pando.Tasks.Cleanup.{cleanup_expired_tasks, cleanup_expired_tasks_lem, IsFresh}

abbrev no_result : TaskResult
no_result = record {
  commit_hash = none;
  build_passed = none;
  tests_passed = none;
  approved = none;
  approved_by = none;
  note = none;
}

abbrev no_cost : TaskCost
no_cost = record {
  input_tokens = none;
  output_tokens = none;
  cost_usd = none;
  duration_ms = none;
  tier = none;
  model = none;
}

abbrev task : ℕ → TaskStatus → List ℕ → List ℕ → List ℕ → Task
task id status files dependencies children = record {
  id = id;
  status = status;
  assigned_to = none;
  files = files;
  dependencies = dependencies;
  created_at = 0;
  updated_at = 0;
  result = no_result;
  parent_task = none;
  child_tasks = children;
  claimed_by_node = none;
  claimed_at = none;
  executed_by_node = none;
  cost = no_cost;
}

-- a parent whose file is its own and whose dependency is done, and its child
abbrev parent : Task
parent = task 1 TaskStatus.opened (20 ∷ []) (3 ∷ []) (2 ∷ [])

abbrev finished : Task
finished = task 3 TaskStatus.done (21 ∷ []) [] []

abbrev queue : Queue
queue = record {
  tasks =
      parent
      ∷ task 2 TaskStatus.opened (22 ∷ []) [] []
      ∷ finished
      ∷ task 4 TaskStatus.in_progress (23 ∷ []) [] []
      ∷ [];
  timeline = [];
  local_peer_id = some 9;
}

abbrev info : CompletionInfo
info = record { executed_by = none; result = no_result; cost = no_cost }

abbrev claimed : Queue
claimed = (claim_task 10 1 30 queue).1

abbrev completed : Queue
completed = (complete_task 20 1 info claimed).1

abbrev archived : Queue
archived = archive_tasks 100 50 completed

claim_ok : (claim_task 10 1 30 queue).0 ≡ none
unfolding claim_task get_locked_files first_locked get_unmet_dependency
claim_ok = refl

-- the parent goes through the cleanup, and the finished task is older than a week
abbrev cleaned : Queue
cleaned = (cleanup_expired_tasks 700_000_000 archived).1

claim_task_lem_example :
    (t : Task) × (get_task 1 queue ≡ some t)
    × (t.status ≡ TaskStatus.opened)
    × Each (λ u. LeavesFree u.status u.files t.files) queue.tasks
    × Each (IsMet queue) t.dependencies
    × ((t' : Task) × (get_task 1 claimed ≡ some t')
        × (t'.status ≡ TaskStatus.claimed)
        × (t'.assigned_to ≡ some 30))
claim_task_lem_example = claim_task_lem 10 1 30 queue claim_ok

cleanup_expired_tasks_lem_example :
    Each (λ u. IsFresh 200_000_000 u.status u) (cleanup_expired_tasks 200_000_000 queue).1.tasks
cleanup_expired_tasks_lem_example = cleanup_expired_tasks_lem 200_000_000 queue
