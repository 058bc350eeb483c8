-- ===== src/CrashGuard/Startup.antt =====
-- `checkAndRecordStartup`, `markStable` and `restoreDistBackups`
-- (packages/node/src/kernel/crash-guard.ts). The state is what the guard keeps on disk; the content
-- of a directory is a number.
use pando.Common.{
  ℕ, ◌+◌, ◌*◌, Bool, true, false, not, ◌&&◌, ◌||◌, Option, none, some, List, [], ◌∷◌, ◌++◌, length,
  keep_if, ltb, ◌==◌, if◌then◌else◌,
}

pub record CrashLog : Type 0 where
  pub startups : List ℕ
  pub last_rollback : Option ℕ

-- a package's dist and dist.backup, and whether the copy of the backup goes through
pub record Package : Type 0 where
  pub dist : Option ℕ
  pub backup : Option ℕ
  pub copies : Bool

-- the marker file, the log file if it is there and holds an array of startups, the packages
pub record Disk : Type 0 where
  pub clean_exit : Bool
  pub crash_log : Option CrashLog
  pub packages : List Package

pub record StartupCheck : Type 0 where
  pub crash_loop : Bool
  pub rolled_back : Bool

abbrev pub crash_window_ms : ℕ
crash_window_ms = 60_000

abbrev pub crash_threshold : ℕ
crash_threshold = 6

abbrev pub empty_log : CrashLog
empty_log = record { startups = []; last_rollback = none }

-- a copy that fails has already removed the old dist
abbrev pub restore : Package → Package
restore p = elim p.backup [
  | none ↦ p
  | some content ↦ record p { dist = if p.copies then some content else none }
]

abbrev pub is_restored : Package → Bool
is_restored p = elim p.backup [ none ↦ false | some content ↦ p.copies ]

-- the packages after it, and whether at least one was restored
unfoldable pub restore_dist_backups : List Package → Bool × List Package
restore_dist_backups [] = (false, [])
restore_dist_backups (p ∷ ps) =
    let rest = restore_dist_backups ps in (is_restored p || rest.0, restore p ∷ rest.1)

-- `now - ts < CRASH_WINDOW_MS`
abbrev pub in_window : ℕ → ℕ → Bool
in_window now ts = ltb now (ts + crash_window_ms)

abbrev pub stored_log : Disk → CrashLog
stored_log d = elim d.crash_log [ none ↦ empty_log | some log ↦ log ]

-- the log once this startup is recorded
unfoldable pub record_startup : ℕ → Disk → CrashLog
record_startup now d =
    let kept = keep_if (in_window now) (stored_log d).startups in
    record (stored_log d) { startups = if d.clean_exit then kept else kept ++ now ∷ [] }

-- `log.lastRollback && now - log.lastRollback < CRASH_WINDOW_MS * 2`; a rollback at 0 is none
abbrev pub is_recent_rollback : ℕ → Option ℕ → Bool
is_recent_rollback now none = false
is_recent_rollback now (some t) = not (t == 0) && ltb now (t + 2 * crash_window_ms)

unfoldable pub check_and_record_startup : ℕ → Disk → StartupCheck × Disk
check_and_record_startup now d =
    let log = record_startup now d in
    let recorded = record d { clean_exit = false; crash_log = some log } in
    let restored = restore_dist_backups d.packages in
    let cleared : CrashLog = record { startups = []; last_rollback = some now } in
    if ltb (length log.startups) crash_threshold
    then (record { crash_loop = false; rolled_back = false }, recorded)
    else if is_recent_rollback now log.last_rollback
    then (record { crash_loop = true; rolled_back = false }, recorded)
    else (
      record { crash_loop = true; rolled_back = restored.0 },
      record recorded {
        packages = restored.1;
        crash_log = some (if restored.0 then cleared else log);
      },
    )

unfoldable pub mark_stable : Disk → Disk
mark_stable d = record d { crash_log = some empty_log }
