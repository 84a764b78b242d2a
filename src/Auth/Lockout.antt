-- ===== src/Auth/Lockout.antt =====
-- auth/lockout.go with its table auth_lockout, a map by its primary key. Times are milliseconds, and
-- durations nanoseconds, which may be negative until NewLockout has normalized the policy; a Lockout
-- only ever has a normalized one. A query that fails is left out.
pub mod Laws
mod Tests
use huawei_api.Base.{
  ℕ, zero, suc, ◌+◌, ◌-◌, ◌*◌, ◌/◌, String, Bool, ◌&&◌, ltb, leb, str_eq, if◌then◌else◌, Option,
  some, none,
}
use huawei_api.Base.Int.{ℤ, pos, ltb_ℤ, leb_ℤ, pos_part}

pub record LockoutPolicy : Type 0 where
  pub threshold : ℤ
  pub window : ℤ
  pub penalty : ℤ
  pub max_penalty : ℤ

-- LockoutPolicy.normalize: the defaults are 5 failures, 15 minutes, 15 minutes and 2 hours.
unfoldable pub normalize : LockoutPolicy → LockoutPolicy
normalize p =
    let penalty = if leb_ℤ p.penalty (pos 0) then pos 900000000000 else p.penalty in
    record {
      threshold = if ltb_ℤ p.threshold (pos 1) then pos 5 else p.threshold;
      window = if leb_ℤ p.window (pos 0) then pos 900000000000 else p.window;
      penalty = penalty;
      max_penalty = if ltb_ℤ p.max_penalty penalty then pos 7200000000000 else p.max_penalty;
    }

pub record LockoutRow : Type 0 where
  pub failures : ℕ
  pub first_at : ℕ
  pub locked_until : ℕ

abbrev pub LockoutTable : Type 0
LockoutTable = String → Option LockoutRow

abbrev pub put : String → LockoutRow → LockoutTable → LockoutTable
put subject row db s = if str_eq subject s then some row else db s

-- Duration.Milliseconds of a duration that is not negative.
abbrev pub milliseconds : ℤ → ℕ
milliseconds d = pos_part d / 1000000

-- Lockout.Check once the row has been read: how long the subject stays locked, in nanoseconds.
abbrev pub remaining : ℕ → Option LockoutRow → ℕ
remaining now none = 0
remaining now (some row) =
    if ltb now row.locked_until then (row.locked_until - now) * 1000000 else 0

-- Lockout.Check
unfoldable pub check : ℕ → LockoutTable → String → ℕ
check now db subject = remaining now (db subject)

-- The INSERT of Fail with its ON CONFLICT: a failure within the window of the first is counted on,
-- and a later one begins anew.
abbrev counted : ℕ → ℕ → Option LockoutRow → LockoutRow
counted now window none = record { failures = 1; first_at = now; locked_until = 0 }
counted now window (some row) = record {
  failures = if leb now (row.first_at + window) then row.failures + 1 else 1;
  first_at = if leb now (row.first_at + window) then row.first_at else now;
  locked_until = row.locked_until;
}

-- The loop of penaltyFor, with the number of rounds left.
unfoldable pub doubled : ℕ → ℕ → ℕ → ℕ
doubled zero penalty most = penalty
doubled (suc n) penalty most =
    let rest = doubled n (penalty * 2) most in if ltb penalty most then rest else penalty

-- Lockout.penaltyFor
unfoldable pub penalty_for : LockoutPolicy → ℕ → ℕ
unfolding doubled
penalty_for p failures =
    let most = pos_part p.max_penalty in
    let penalty = doubled (failures - pos_part p.threshold) (pos_part p.penalty) most in
    if ltb most penalty then most else penalty

-- The UPDATE of Fail: max(?, locked_until).
abbrev locked_to : ℕ → LockoutRow → LockoutRow
locked_to at row = record row {
  locked_until = if ltb row.locked_until at then at else row.locked_until;
}

-- Lockout.Fail: the penalty, and the table.
unfoldable pub fail : LockoutPolicy → ℕ → LockoutTable → String → ℕ × LockoutTable
unfolding penalty_for
fail p now db subject =
    let row = counted now (milliseconds p.window) (db subject) in
    let locked = penalty_for p row.failures in
    if ltb row.failures (pos_part p.threshold)
    then (0, put subject row db)
    else (locked, put subject (locked_to (now + locked / 1000000) row) db)

-- Lockout.Reset
unfoldable pub reset : LockoutTable → String → LockoutTable
reset db subject s = if str_eq subject s then none else db s

-- The WHERE of Sweep; `first_at <= now - window`, as a sum.
abbrev is_stale : ℕ → ℕ → LockoutRow → Bool
is_stale now window row = leb row.locked_until now && leb (row.first_at + window) now

abbrev swept : ℕ → ℕ → Option LockoutRow → Option LockoutRow
swept now window none = none
swept now window (some row) = if is_stale now window row then none else some row

-- Lockout.Sweep
unfoldable pub sweep : LockoutPolicy → ℕ → LockoutTable → LockoutTable
sweep p now db s = swept now (milliseconds p.window) (db s)
