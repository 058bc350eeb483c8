-- ===== src/Tasks/Claims.antt =====
-- Claims of tasks (packages/node/src/platform/task-queue.ts): what a claim that succeeds has
-- checked.
use pando.Common.{
  ℕ, ◌≡◌, refl, true, false, none, some, List, [], ◌∷◌, arith, includes, ◌++◌, if◌then◌else◌,
  Option-cases, inl, inr,
}
use pando.Common.Table.{Each}
use pando.Common.Table.Laws.{find-update_self}
use pando.Tasks.Types.{Task, TaskStatus, Queue, task_key, get_task, is_status}
use pando.Tasks.Queue.{
  get_locked_files, first_locked, is_done, get_unmet_dependency, claim_task, is_active,
}

first_locked-none :
    (locked files : List ℕ)
    → first_locked locked files ≡ none
    → Each (λ f. includes f locked ≡ false) files
unfolding first_locked
first_locked-none locked [] h = tt
first_locked-none locked (f ∷ fs) h = ground (arith, first_locked-none locked fs)

unmet_none :
    (ds : List ℕ) (ts : List Task)
    → get_unmet_dependency ds ts ≡ none
    → Each (λ d. is_done d ts ≡ true) ds
unfolding get_unmet_dependency
unmet_none [] ts h = tt
unmet_none (d ∷ ds) ts h = ground (arith, unmet_none ds ts)

-- what a task in this status, with its files, leaves to a claim of these files: a claimed or started
-- task keeps its own files
abbrev pub LeavesFree : TaskStatus → List ℕ → List ℕ → Type 0
LeavesFree TaskStatus.claimed theirs files = Each (λ f. includes f theirs ≡ false) files
LeavesFree TaskStatus.in_progress theirs files = Each (λ f. includes f theirs ≡ false) files
LeavesFree TaskStatus.opened theirs files = Unit
LeavesFree TaskStatus.review theirs files = Unit
LeavesFree TaskStatus.done theirs files = Unit
LeavesFree TaskStatus.rejected theirs files = Unit
LeavesFree TaskStatus.archived theirs files = Unit
LeavesFree TaskStatus.expired theirs files = Unit

abbrev pub IsMet : Queue → ℕ → Type 0
IsMet q d = (r : Task) × (get_task d q ≡ some r) × (r.status ≡ TaskStatus.done)

includes-append :
    (f : ℕ) (xs ys : List ℕ)
    → includes f (xs ++ ys) ≡ false
    → (includes f xs ≡ false) × (includes f ys ≡ false)
includes-append f [] ys h = (refl, h)
includes-append f (x ∷ xs) ys h = ground (arith, includes-append f xs ys)

apart :
    (xs ys files : List ℕ)
    → Each (λ f. includes f (xs ++ ys) ≡ false) files
    → Each (λ f. includes f xs ≡ false) files × Each (λ f. includes f ys ≡ false) files
apart xs ys [] h = (tt, tt)
apart xs ys (f ∷ fs) h =
    let (here, there) = includes-append f xs ys h.0 in
    let (heres, theres) = apart xs ys fs h.1 in ((here, heres), (there, theres))

leaves_free :
    (s : TaskStatus) (theirs files : List ℕ)
    → Each (λ f. includes f (if is_active s then theirs else []) ≡ false) files
    → LeavesFree s theirs files
leaves_free TaskStatus.claimed theirs files h = h
leaves_free TaskStatus.in_progress theirs files h = h
leaves_free TaskStatus.opened theirs files h = tt
leaves_free TaskStatus.review theirs files h = tt
leaves_free TaskStatus.done theirs files h = tt
leaves_free TaskStatus.rejected theirs files h = tt
leaves_free TaskStatus.archived theirs files h = tt
leaves_free TaskStatus.expired theirs files h = tt

unlocked :
    (ts : List Task) (files : List ℕ)
    → Each (λ f. includes f (get_locked_files ts) ≡ false) files
    → Each (λ u. LeavesFree u.status u.files files) ts
unfolding get_locked_files
unlocked [] files h = tt
unlocked (u ∷ ts) files h =
    let (mine, rest) =
      apart (if is_active u.status then u.files else []) (get_locked_files ts) files h in
    (leaves_free u.status u.files files mine, unlocked ts files rest)

status_done : (s : TaskStatus) → is_status s TaskStatus.done ≡ true → s ≡ TaskStatus.done
status_done s h = ground arith

status_opened : (s : TaskStatus) → is_status s TaskStatus.opened ≡ true → s ≡ TaskStatus.opened
status_opened s h = ground arith

IsMet-one : (q : Queue) (d : ℕ) → is_done d q.tasks ≡ true → IsMet q d
IsMet-one q d h = elim (Option-cases (get_task d q)) [
  | inl missing ↦ absurd (ground arith)
  | inr (r, found) ↦ (r, found, status_done r.status (ground arith))
]

met : (q : Queue) (ds : List ℕ) → Each (λ d. is_done d q.tasks ≡ true) ds → Each (IsMet q) ds
met q [] h = tt
met q (d ∷ ds) h = (IsMet-one q d h.0, met q ds h.1)

checks :
    (now id agent : ℕ) (q : Queue)
    → (claim_task now id agent q).0 ≡ none
    → (t : Task) × (get_task id q ≡ some t)
      × (is_status t.status TaskStatus.opened ≡ true)
      × Each (λ f. includes f (get_locked_files q.tasks) ≡ false) t.files
      × Each (λ d. is_done d q.tasks ≡ true) t.dependencies
unfolding claim_task
checks now id agent q h = grind (arith, first_locked-none, unmet_none)

assigned :
    (now id agent : ℕ) (q : Queue) (t : Task)
    → get_task id q ≡ some t
    → (claim_task now id agent q).0 ≡ none
    → (t' : Task) × (get_task id (claim_task now id agent q).1 ≡ some t')
      × (t'.status ≡ TaskStatus.claimed)
      × (t'.assigned_to ≡ some agent)
unfolding claim_task
assigned now id agent q t e h =
    let row : Task → Task = λ r. record r {
      status = TaskStatus.claimed;
      assigned_to = some agent;
      claimed_by_node = q.local_peer_id;
      claimed_at = some now;
      updated_at = now;
    } in
    (row t, grind (arith, find-update_self task_key id row q.tasks refl e), refl, refl)

-- A claim that succeeds is of an open task; none of its files is a file of a task of the queue that
-- is claimed or in progress; each of its dependencies has a row, whose status is done; and the claim
-- makes the task claimed and assigned to the agent.
pub claim_task_lem :
    (now id agent : ℕ) (q : Queue)
    → (claim_task now id agent q).0 ≡ none
    → (t : Task) × (get_task id q ≡ some t)
      × (t.status ≡ TaskStatus.opened)
      × Each (λ u. LeavesFree u.status u.files t.files) q.tasks
      × Each (IsMet q) t.dependencies
      × ((t' : Task) × (get_task id (claim_task now id agent q).1 ≡ some t')
          × (t'.status ≡ TaskStatus.claimed)
          × (t'.assigned_to ≡ some agent))
claim_task_lem now id agent q h =
    let (t, e, o, files, deps) = checks now id agent q h in
    (
      t,
      e,
      status_opened t.status o,
      unlocked q.tasks t.files files,
      met q t.dependencies deps,
      assigned now id agent q t e h,
    )
