-- ===== src/Auth/Lockout/Tests.antt =====
-- A login that has failed four times and is about to fail again (auth/lockout.go).
use huawei_api.Base.{◌/◌, ◌*◌, ◌≤◌, suc, str_eq, if◌then◌else◌, some, none}
use huawei_api.Base.Int.{pos, pos_part}
use huawei_api.Auth.Lockout.{LockoutPolicy, LockoutTable, check, penalty_for, fail}
use huawei_api.Auth.Lockout.Laws.{penalty_for_bounds, fail_locks}

abbrev default_lockout : LockoutPolicy
default_lockout = record {
  threshold = pos 5;
  window = pos 900000000000;
  penalty = pos 900000000000;
  max_penalty = pos 7200000000000;
}

abbrev four_failures : LockoutTable
four_failures subject =
    if str_eq subject "admin"
    then some record { failures = 4; first_at = 1000; locked_until = 0 }
    else none

penalty_for_bounds_example :
    (penalty_for default_lockout 7 ≤ pos_part default_lockout.max_penalty)
    × (penalty_for default_lockout 7 ≤ penalty_for default_lockout (suc 7))
penalty_for_bounds_example = penalty_for_bounds default_lockout 7

fail_locks_example :
    let done = fail default_lockout 2000 four_failures "admin" in
    done.0 / 1000000 * 1000000 ≤ check 2000 done.1 "admin"
fail_locks_example = fail_locks default_lockout 2000 four_failures "admin"
