-- ===== src/CrashGuard/Rollback.antt =====
-- When the guard (packages/node/src/kernel/crash-guard.ts) rolls a build back, and when it does
-- not.
use pando.Common.{
  ℕ, ◌+◌, ◌*◌, ◌≤◌, ◌<◌, ◌≡◌, ap, ◌∙◌, true, false, some, [], ◌∷◌, length, length-append,
  length-keep_if, count_if, keep_if, if◌then◌else◌, ◌↔◌, arith,
}
use pando.CrashGuard.Startup.{
  Disk, CrashLog, crash_window_ms, in_window, stored_log, record_startup, is_recent_rollback,
  check_and_record_startup,
}

-- the startups that count: those within the window, and this one unless the last exit was clean
abbrev pub crashes : ℕ → Disk → ℕ
crashes now d = count_if (in_window now) (stored_log d).startups + (if d.clean_exit then 0 else 1)

record_startup_lem : (now : ℕ) (d : Disk) → length (record_startup now d).startups ≡ crashes now d
unfolding record_startup
record_startup_lem now d = ground (
  arith,
  length-keep_if (in_window now) (stored_log d).startups,
  length-append (keep_if (in_window now) (stored_log d).startups) (now ∷ []),
)

-- A startup is a crash loop exactly if, with it, six startups or more within the last minute count.
pub check_and_record_startup_loops_iff :
    (now : ℕ) (d : Disk)
    → ((check_and_record_startup now d).0.crash_loop ≡ true) ↔ (6 ≤ crashes now d)
unfolding check_and_record_startup
check_and_record_startup_loops_iff now d =
    ((λ h. ground (arith, record_startup_lem now d)), λ h. ground (arith, record_startup_lem now d))

rolled_back_log :
    (now : ℕ) (d : Disk)
    → (check_and_record_startup now d).0.rolled_back ≡ true
    → stored_log (check_and_record_startup now d).1
      ≡ record { startups = []; last_rollback = some now }
unfolding check_and_record_startup
rolled_back_log now d h = ground arith

recent_waits :
    (now : ℕ) (d : Disk)
    → is_recent_rollback now (record_startup now d).last_rollback ≡ true
    → (check_and_record_startup now d).0.rolled_back ≡ false
unfolding check_and_record_startup
recent_waits now d h = ground arith

-- After a rollback, no startup of the next two minutes rolls back, whatever else on disk changed
-- but the time of the rollback.
pub check_and_record_startup_once :
    (now later : ℕ) (d d' : Disk)
    → (check_and_record_startup now d).0.rolled_back ≡ true
    → (stored_log d').last_rollback ≡ (stored_log (check_and_record_startup now d).1).last_rollback
    → 0 < now
    → later < now + 2 * crash_window_ms
    → (check_and_record_startup later d').0.rolled_back ≡ false
unfolding record_startup
check_and_record_startup_once now later d d' done same after soon =
    let at_now : (stored_log d').last_rollback ≡ some now =
      same ∙ ap (λ (log : CrashLog). log.last_rollback) (rolled_back_log now d done) in
    recent_waits later d' (rw at_now (ground arith))
