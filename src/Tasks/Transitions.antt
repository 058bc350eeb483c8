-- ===== src/Tasks/Transitions.antt =====
-- The changes of status that the operations of packages/node/src/platform/task-queue.ts make.
use pando.Common.{
  ℕ, ◌≡◌, refl, inl, inr, Bool, true, false, not, Option, none, some, List, [], ◌∷◌, ◌==◌, ==-eq,
  ne_of_==, if◌then◌else◌, Bool-cases, arith,
}
use mathlib.Core.Path.{subst}
use pando.Common.Table.{find}
use pando.Common.Table.Laws.{find-update_self, find-update_ne}
use pando.Tasks.Types.{
  Task, TaskStatus, TaskResult, Queue, task_key, get_task, is_status, is_valid_transition,
}
use pando.Tasks.Queue.{
  is_agent, get_conflicting_files, get_unmet_dependency, write, is_active, claim_task,
  update_status, update_remote_status, reject_task, release_task, force_release_task, archive_row,
  archive_rows, archive_tasks, is_old,
}

-- one valid transition after another
pub data Reaches (s : TaskStatus) : TaskStatus → Type 0 where
  stays : Reaches s s
  moves : {s' s'' : TaskStatus} → Reaches s s' → is_valid_transition s' s'' ≡ true → Reaches s s''

pub Reaches_trans : {a b c : TaskStatus} → Reaches a b → Reaches b c → Reaches a c
Reaches_trans r stays = r
Reaches_trans r (moves s v) = moves (Reaches_trans r s) v

-- every task is still there, in a status that its old status reaches
abbrev pub Follows : Queue → Queue → Type 0
Follows q q' =
    (id : ℕ) (t : Task)
    → get_task id q ≡ some t
    → (t' : Task) × (get_task id q' ≡ some t') × Reaches t.status t'.status

pub Follows-refl : (q : Queue) → Follows q q
Follows-refl q id t e = (t, e, stays)

pub Follows-trans : (q q' q'' : Queue) → Follows q q' → Follows q' q'' → Follows q q''
Follows-trans q q' q'' f g id t e =
    let (t', e', r) = f id t e in let (t'', e'', r') = g id t' e' in (t'', e'', Reaches_trans r r')

pub write-Follows :
    (id : ℕ) (f : Task → Task) (q : Queue) {t : Task}
    → get_task id q ≡ some t
    → ((r : Task) → (f r).id ≡ r.id)
    → Reaches t.status (f t).status
    → Follows q (write id f q)
write-Follows id f q {t} e kept r j u h = elim (Bool-cases (j == id)) [
  | inl same ↦
      let j_id : j ≡ id = ==-eq j id same in
      let t_u : t ≡ u = cc in
      (
        f t,
        rw j_id (find-update_self task_key id f q.tasks (kept t) e),
        subst (λ x. Reaches x.status (f t).status) t_u r,
      )
  | inr other ↦ (u, rw (find-update_ne task_key j id f q.tasks kept (ne_of_== j id other)) h, stays)
]

-- the queue that an operation gives follows the one it had
pub record Keeps {A : Type 0} (q : Queue) (r : A × Queue) : Type 0 where
  pub follows : Follows q r.1

module _ {A : Type 0} (q : Queue) where
  pub same : (a : A) → Keeps q (a, q)
  same a = record { follows = Follows-refl q }

  pub by_if :
      (c : Bool) {x y : A × Queue}
      → (c ≡ true → Keeps q x)
      → (c ≡ false → Keeps q y)
      → Keeps q (if c then x else y)
  by_if true f g = f refl
  by_if false f g = g refl

  pub by_option {ℓ} :
      {B : Type ℓ} (o : Option B) {x : A × Queue} {f : B → A × Queue}
      → (o ≡ none → Keeps q x)
      → ((b : B) → o ≡ some b → Keeps q (f b))
      → Keeps {A = A} q (elim o [ none ↦ x | some b ↦ f b ])
  by_option none f g = f refl
  by_option (some b) f g = g b refl

  pub writes :
      (id : ℕ) (f : Task → Task) (a : A) {t : Task}
      → get_task id q ≡ some t
      → ((r : Task) → (f r).id ≡ r.id)
      → Reaches t.status (f t).status
      → Keeps q (a, write id f q)
  writes id f a e kept r = record { follows = write-Follows id f q e kept r }

pub valid : {b : Bool} → not b ≡ false → b ≡ true
valid h = ground arith

opened_valid :
    (s : TaskStatus) → not (is_active s) ≡ false → is_valid_transition s TaskStatus.opened ≡ true
unfolding is_valid_transition
opened_valid s h = ground arith

claimed_valid :
    (s : TaskStatus)
    → not (is_status s TaskStatus.opened) ≡ false
    → is_valid_transition s TaskStatus.claimed ≡ true
unfolding is_valid_transition
claimed_valid s h = ground arith

module _ (now id : ℕ) (q : Queue) where
  pub update_status-Keeps : (s : TaskStatus) (a : Option ℕ) → Keeps q (update_status now id s a q)
  unfolding update_status
  update_status-Keeps s a =
      by_option q (get_task id q) (λ e. same q _)
        (λ t e.
          by_if q (is_status t.status s) (λ h. same q _)
            (λ h.
              by_if q (not (is_valid_transition t.status s)) (λ k. same q _)
                (λ v. writes q id _ _ e (λ r. refl) (moves stays (valid v)))))

  pub update_remote_status-Keeps :
      (s : TaskStatus) (a : Option ℕ) (result : Option TaskResult) (claimed executed : Option ℕ)
      → Keeps q (update_remote_status now id s a result claimed executed q)
  unfolding update_remote_status
  update_remote_status-Keeps s a result claimed executed =
      by_option q (get_task id q) (λ e. same q _)
        (λ t e.
          by_if q (is_status t.status s) (λ h. same q _)
            (λ h.
              by_if q (not (is_valid_transition t.status s)) (λ k. same q _)
                (λ v. writes q id _ _ e (λ r. refl) (moves stays (valid v)))))

  pub reject_task-Keeps : (reason : Option ℕ) → Keeps q (reject_task now id reason q)
  unfolding reject_task
  reject_task-Keeps reason =
      by_option q (get_task id q) (λ e. same q _)
        (λ t e.
          by_if q (is_status t.status TaskStatus.opened) (λ h. same q _)
            (λ h.
              by_if q (not (is_valid_transition t.status TaskStatus.opened)) (λ k. same q _)
                (λ v. writes q id _ _ e (λ r. refl) (moves stays (valid v)))))

  pub release_task-Keeps : (agent : ℕ) → Keeps q (release_task now id agent q)
  unfolding release_task
  release_task-Keeps agent =
      by_option q (get_task id q) (λ e. same q _)
        (λ t e.
          by_if q (not (is_agent agent t.assigned_to)) (λ h. same q _)
            (λ h.
              by_if q (not (is_active t.status)) (λ k. same q _)
                (λ v. writes q id _ _ e (λ r. refl) (moves stays (opened_valid t.status v)))))

  pub force_release_task-Keeps : Keeps q (force_release_task now id q)
  unfolding force_release_task
  force_release_task-Keeps =
      by_option q (get_task id q) (λ e. same q _)
        (λ t e.
          by_if q (not (is_active t.status)) (λ h. same q _)
            (λ v. writes q id _ _ e (λ r. refl) (moves stays (opened_valid t.status v))))

  pub claim_task-Keeps : (agent : ℕ) → Keeps q (claim_task now id agent q)
  unfolding claim_task
  claim_task-Keeps agent =
      by_option q (get_task id q) (λ e. same q _)
        (λ t e.
          by_if q (not (is_status t.status TaskStatus.opened)) (λ h. same q _)
            (λ o.
              by_option q (get_conflicting_files t.files q.tasks)
                (λ a.
                  by_option q (get_unmet_dependency t.dependencies q.tasks)
                    (λ b. writes q id _ _ e (λ r. refl) (moves stays (claimed_valid t.status o)))
                    (λ d b. same q _))
                (λ f a. same q _)))

module _ (now older : ℕ) where
  archive_row-id : (t : Task) → (archive_row now older t).id ≡ t.id
  unfolding archive_row
  archive_row-id t = ground arith

  old_valid :
      (t : Task)
      → is_old now older t ≡ true
      → is_valid_transition t.status TaskStatus.archived ≡ true
  unfolding is_valid_transition
  old_valid t h = ground arith

  archive_row-Reaches : (t : Task) → Reaches t.status (archive_row now older t).status
  unfolding archive_row
  archive_row-Reaches t = elim (Bool-cases (is_old now older t)) [
    | inl h ↦ rw h (moves stays (old_valid t h))
    | inr h ↦ rw h stays
  ]

  archive_rows_lem :
      (ts : List Task) (id : ℕ) (t : Task)
      → find task_key id ts ≡ some t
      → (t' : Task) × (find task_key id (archive_rows now older ts) ≡ some t')
        × Reaches t.status t'.status
  unfolding archive_rows
  archive_rows_lem [] id t e = cc
  archive_rows_lem (x ∷ ts) id t e = elim (Bool-cases (x.id == id)) [
    | inl is_x ↦
        let x_t : x ≡ t = ground arith in
        (
          archive_row now older x,
          rw (archive_row-id x, is_x) refl,
          subst (λ y. Reaches y.status (archive_row now older x).status) x_t
              (archive_row-Reaches x),
        )
    | inr other ↦ rw (archive_row-id x, other) (archive_rows_lem ts id t (rw other at e))
  ]

  pub archive_tasks-Follows : (q : Queue) → Follows q (archive_tasks now older q)
  unfolding archive_tasks
  archive_tasks-Follows q = archive_rows_lem q.tasks
