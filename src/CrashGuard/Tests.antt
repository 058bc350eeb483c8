-- ===== src/CrashGuard/Tests.antt =====
-- The crash guard's theorems at six startups within a second.
use pando.Common.{◌≤◌, ◌≡◌, refl, ◌↔◌, true, false, none, some, [], ◌∷◌, arith}
use pando.CrashGuard.Startup.{
  Disk, Package, CrashLog, restore_dist_backups, record_startup, check_and_record_startup,
}
use pando.CrashGuard.Rollback.{
  crashes, check_and_record_startup_loops_iff, check_and_record_startup_once,
}

abbrev log : CrashLog
log = record { startups = 100 ∷ 200 ∷ 300 ∷ 400 ∷ 500 ∷ []; last_rollback = none }

abbrev build : Package
build = record { dist = some 1; backup = some 2; copies = true }

abbrev disk : Disk
disk = record { clean_exit = false; crash_log = some log; packages = build ∷ [] }

abbrev after : Disk
after = (check_and_record_startup 600 disk).1

rolled_back_ok : (check_and_record_startup 600 disk).0.rolled_back ≡ true
unfolding check_and_record_startup record_startup restore_dist_backups
rolled_back_ok = refl

check_and_record_startup_loops_iff_example :
    ((check_and_record_startup 600 disk).0.crash_loop ≡ true) ↔ (6 ≤ crashes 600 disk)
check_and_record_startup_loops_iff_example = check_and_record_startup_loops_iff 600 disk

check_and_record_startup_once_example : (check_and_record_startup 700 after).0.rolled_back ≡ false
check_and_record_startup_once_example =
    check_and_record_startup_once 600 700 disk after rolled_back_ok refl (omega arith) (omega arith)
