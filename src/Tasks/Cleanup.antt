-- ===== src/Tasks/Cleanup.antt =====
-- `cleanupExpiredTasks` (packages/node/src/platform/task-database.ts): three updates of the whole
-- table, then the removal of old rows. An update changes each row by itself.
use pando.Common.{
  ℕ, ◌+◌, ◌*◌, ◌≡◌, Bool, false, not, ◌&&◌, ◌||◌, none, some, List, [], ◌∷◌, ltb, ◌==◌,
  if◌then◌else◌, keep_if, count_if, map, Bool-cases, inl, inr, arith, ◌≤◌, ◌⊎◌, refl, ==-eq, Option,
}
use pando.Common.Table.{Each}
use pando.Tasks.Types.{Task, TaskStatus, Queue, is_status}

abbrev hours : ℕ → ℕ
hours n = n * 3_600_000

-- `created_at < now - 48 h`
abbrev pub is_stale_open : ℕ → Task → Bool
is_stale_open now t = is_status t.status TaskStatus.opened && ltb (t.created_at + hours 48) now

-- `claimed_at < now - 2 h`; NULL is not
abbrev pub is_stale_claim : ℕ → Task → Bool
is_stale_claim now t =
    is_status t.status TaskStatus.claimed
    && elim t.claimed_at [ none ↦ false | some at ↦ ltb (at + hours 2) now ]

-- `updated_at < now - 4 h`
abbrev pub is_stale_work : ℕ → Task → Bool
is_stale_work now t = is_status t.status TaskStatus.in_progress && ltb (t.updated_at + hours 4) now

-- `updated_at < now - 7 days`
abbrev pub is_old_terminal : ℕ → Task → Bool
is_old_terminal now t =
    (is_status t.status TaskStatus.done
      || is_status t.status TaskStatus.rejected
      || is_status t.status TaskStatus.expired)
    && ltb (t.updated_at + hours 168) now

unfoldable pub expire_open : ℕ → Task → Task
expire_open now t =
    if is_stale_open now t then record t { status = TaskStatus.expired; updated_at = now } else t

abbrev pub reopened : ℕ → Task → Task
reopened now t = record t {
  status = TaskStatus.opened;
  claimed_by_node = none;
  claimed_at = none;
  assigned_to = none;
  updated_at = now;
}

unfoldable pub reset_claim : ℕ → Task → Task
reset_claim now t = if is_stale_claim now t then reopened now t else t

unfoldable pub reset_work : ℕ → Task → Task
reset_work now t =
    if is_stale_work now t then record (reopened now t) { executed_by_node = none } else t

pub record CleanupCounts : Type 0 where
  pub expired : ℕ
  pub removed : ℕ

unfoldable pub cleanup_expired_tasks : ℕ → Queue → CleanupCounts × Queue
cleanup_expired_tasks now q =
    let expired = map (expire_open now) q.tasks in
    let unclaimed = map (reset_claim now) expired in
    let updated = map (reset_work now) unclaimed in
    (
      record {
        expired =
            count_if (is_stale_open now) q.tasks
            + count_if (is_stale_claim now) expired
            + count_if (is_stale_work now) unclaimed;
        removed = count_if (is_old_terminal now) updated;
      },
      record q { tasks = keep_if (λ t. not (is_old_terminal now t)) updated },
    )

-- What a cleanup at `now` leaves of a row, by its status: milliseconds written out.
abbrev pub IsFresh : ℕ → TaskStatus → Task → Type 0
IsFresh now TaskStatus.opened t = (now ≤ t.created_at + 172_800_000) ⊎ (t.updated_at ≡ now)
IsFresh now TaskStatus.claimed t =
    (t.claimed_at ≡ none) ⊎ ((at : ℕ) × (t.claimed_at ≡ some at) × (now ≤ at + 7_200_000))
IsFresh now TaskStatus.in_progress t = now ≤ t.updated_at + 14_400_000
IsFresh now TaskStatus.review t = Unit
IsFresh now TaskStatus.done t = now ≤ t.updated_at + 604_800_000
IsFresh now TaskStatus.rejected t = now ≤ t.updated_at + 604_800_000
IsFresh now TaskStatus.expired t = now ≤ t.updated_at + 604_800_000
IsFresh now TaskStatus.archived t = Unit

row_lem :
    (now : ℕ) (t : Task)
    → let u = reset_work now (reset_claim now (expire_open now t)) in
      (is_stale_claim now u ≡ false)
      × (is_stale_work now u ≡ false)
      × ((is_stale_open now u && not (u.updated_at == now)) ≡ false)
unfolding expire_open reset_claim reset_work
row_lem now t = ground arith

young : (at limit now : ℕ) → ltb (at + limit) now ≡ false → now ≤ at + limit
young at limit now h = ground arith

young_open :
    (created updated now : ℕ)
    → (ltb (created + 172_800_000) now && not (updated == now)) ≡ false
    → (now ≤ created + 172_800_000) ⊎ (updated ≡ now)
young_open created updated now h = elim (Bool-cases (updated == now)) [
  | inl same ↦ inr (==-eq updated now same)
  | inr other ↦ inl (ground arith)
]

young_claim :
    (claimed_at : Option ℕ) (now : ℕ)
    → (elim claimed_at [ none ↦ false | some at ↦ ltb (at + 7_200_000) now ]) ≡ false
    → (claimed_at ≡ none) ⊎ ((at : ℕ) × (claimed_at ≡ some at) × (now ≤ at + 7_200_000))
young_claim none now h = inl refl
young_claim (some at) now h = inr (at, refl, ground arith)

fresh :
    (now : ℕ) (s : TaskStatus) (t : Task)
    → t.status ≡ s
    → is_stale_claim now t ≡ false
    → is_stale_work now t ≡ false
    → is_old_terminal now t ≡ false
    → (is_stale_open now t && not (t.updated_at == now)) ≡ false
    → IsFresh now s t
fresh now TaskStatus.opened t e c w o p = young_open t.created_at t.updated_at now (ground arith)
fresh now TaskStatus.claimed t e c w o p = young_claim t.claimed_at now (rw e at c)
fresh now TaskStatus.in_progress t e c w o p = ground arith
fresh now TaskStatus.review t e c w o p = tt
fresh now TaskStatus.done t e c w o p = ground arith
fresh now TaskStatus.rejected t e c w o p = ground arith
fresh now TaskStatus.expired t e c w o p = ground arith
fresh now TaskStatus.archived t e c w o p = tt

rows_lem :
    (now : ℕ) (ts : List Task)
    → Each
        (λ u. IsFresh now u.status u)
        (keep_if
          (λ t. not (is_old_terminal now t))
          (map (reset_work now) (map (reset_claim now) (map (expire_open now) ts))))
rows_lem now [] = tt
rows_lem now (t ∷ ts) =
    let u = reset_work now (reset_claim now (expire_open now t)) in
    let row = row_lem now t in
    elim (Bool-cases (is_old_terminal now u)) [
      | inl old ↦ rw old (rows_lem now ts)
      | inr kept ↦ rw kept (fresh now u.status u refl row.0 row.1 kept row.2, rows_lem now ts)
    ]

-- After a cleanup a claimed task was claimed at most two hours ago, or has no time of its claim; a
-- task in progress was updated in the last four hours; a done, rejected or expired task in the last
-- seven days; and an open task was created at most two days ago, or last updated at the time of this
-- cleanup.
pub cleanup_expired_tasks_lem :
    (now : ℕ) (q : Queue) → Each (λ u. IsFresh now u.status u) (cleanup_expired_tasks now q).1.tasks
unfolding cleanup_expired_tasks
cleanup_expired_tasks_lem now q = rows_lem now q.tasks
