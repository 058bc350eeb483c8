-- ===== src/Tasks/Types.antt =====
-- The rows of the task database and the allowed changes of status
-- (packages/node/src/platform/task-queue.ts). Texts and ids that are only compared are numbers.
use pando.Common.{ℕ, Bool, true, false, Option, none, some, List, ◌==◌}
use pando.Common.Table.{find}

pub data TaskStatus : Type 0 where
  opened claimed in_progress review done rejected archived expired : TaskStatus

pub record TaskResult : Type 0 where
  pub commit_hash : Option ℕ
  pub build_passed : Option Bool
  pub tests_passed : Option Bool
  pub approved : Option Bool
  pub approved_by : Option ℕ
  pub note : Option ℕ

pub record TaskCost : Type 0 where
  pub input_tokens : Option ℕ
  pub output_tokens : Option ℕ
  pub cost_usd : Option ℕ
  pub duration_ms : Option ℕ
  pub tier : Option ℕ
  pub model : Option ℕ

pub record Task : Type 0 where
  pub id : ℕ
  pub status : TaskStatus
  pub assigned_to : Option ℕ
  pub files : List ℕ
  pub dependencies : List ℕ
  pub created_at : ℕ
  pub updated_at : ℕ
  pub result : TaskResult
  pub parent_task : Option ℕ
  pub child_tasks : List ℕ
  pub claimed_by_node : Option ℕ
  pub claimed_at : Option ℕ
  pub executed_by_node : Option ℕ
  pub cost : TaskCost

-- which event was added to the timeline of which task
pub data TimelineEvent : Type 0 where
  cascade_rejected : (task parent at : ℕ) → TimelineEvent
  sibling_auto_approved : (task completed at : ℕ) → TimelineEvent

pub record Queue : Type 0 where
  pub tasks : List Task
  pub timeline : List TimelineEvent
  pub local_peer_id : Option ℕ

abbrev pub task_key : Task → ℕ
task_key t = t.id

abbrev pub get_task : ℕ → Queue → Option Task
get_task id q = find task_key id q.tasks

abbrev pub status_number : TaskStatus → ℕ
status_number opened = 0
status_number claimed = 1
status_number in_progress = 2
status_number review = 3
status_number done = 4
status_number rejected = 5
status_number archived = 6
status_number expired = 7

abbrev pub is_status : TaskStatus → TaskStatus → Bool
is_status s s' = status_number s == status_number s'

-- VALID_TRANSITIONS
unfoldable pub is_valid_transition : TaskStatus → TaskStatus → Bool
is_valid_transition opened claimed = true
is_valid_transition opened rejected = true
is_valid_transition opened done = true
is_valid_transition opened expired = true
is_valid_transition claimed in_progress = true
is_valid_transition claimed opened = true
is_valid_transition claimed done = true
is_valid_transition claimed rejected = true
is_valid_transition in_progress review = true
is_valid_transition in_progress opened = true
is_valid_transition in_progress done = true
is_valid_transition in_progress rejected = true
is_valid_transition review done = true
is_valid_transition review rejected = true
is_valid_transition done rejected = true
is_valid_transition done archived = true
is_valid_transition rejected archived = true
is_valid_transition expired archived = true
is_valid_transition _ _ = false

-- a field that is written only if a value is given
abbrev pub or_kept {ℓ} : {A : Type ℓ} → Option A → Option A → Option A
or_kept (some new) old = some new
or_kept none old = old

abbrev pub merge_result : TaskResult → TaskResult → TaskResult
merge_result new old = record {
  commit_hash = or_kept new.commit_hash old.commit_hash;
  build_passed = or_kept new.build_passed old.build_passed;
  tests_passed = or_kept new.tests_passed old.tests_passed;
  approved = or_kept new.approved old.approved;
  approved_by = or_kept new.approved_by old.approved_by;
  note = or_kept new.note old.note;
}

abbrev pub merge_cost : TaskCost → TaskCost → TaskCost
merge_cost new old = record {
  input_tokens = or_kept new.input_tokens old.input_tokens;
  output_tokens = or_kept new.output_tokens old.output_tokens;
  cost_usd = or_kept new.cost_usd old.cost_usd;
  duration_ms = or_kept new.duration_ms old.duration_ms;
  tier = or_kept new.tier old.tier;
  model = or_kept new.model old.model;
}

abbrev pub with_note : Option ℕ → TaskResult → TaskResult
with_note note r = record r { note = note }
