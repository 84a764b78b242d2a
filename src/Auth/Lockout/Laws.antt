-- ===== src/Auth/Lockout/Laws.antt =====
-- What a failed login, a reset and a sweep of auth/lockout.go do to the locks.
use huawei_api.Base.{
  ℕ, zero, suc, ◌-◌, ◌*◌, ◌/◌, ◌≤◌, ◌≡◌, ◌⊎◌, inl, inr, String, str_eq, str_eq→≡, str_eq_self,
  Bool-cases, arith,
}
use huawei_api.Base.Int.{pos_part}
use huawei_api.Auth.Lockout.{LockoutPolicy, LockoutTable, check, doubled, penalty_for, fail, sweep}

doubled_mono : (n penalty most : ℕ) → doubled n penalty most ≤ doubled (suc n) penalty most
unfolding doubled
doubled_mono zero penalty most = ground arith
doubled_mono (suc n) penalty most = ground (arith, doubled_mono n (penalty * 2) most)

doubled_step :
    (n m penalty most : ℕ) → (m ≡ n) ⊎ (m ≡ suc n) → doubled n penalty most ≤ doubled m penalty most
doubled_step n m penalty most (inl e) = rw e (omega arith)
doubled_step n m penalty most (inr e) = rw e (doubled_mono n penalty most)

step_cases : (a b : ℕ) → (suc a - b ≡ a - b) ⊎ (suc a - b ≡ suc (a - b))
step_cases a b = ground arith

-- The penalty never exceeds MaxPenalty, and one more failure never makes it shorter.
pub penalty_for_bounds :
    (p : LockoutPolicy) (failures : ℕ)
    → (penalty_for p failures ≤ pos_part p.max_penalty)
      × (penalty_for p failures ≤ penalty_for p (suc failures))
unfolding penalty_for
penalty_for_bounds p failures =
    let least = pos_part p.threshold in
    let grown =
      doubled_step (failures - least) (suc failures - least) (pos_part p.penalty)
        (pos_part p.max_penalty) (step_cases failures least) in
    (ground arith, ground (arith, grown))

-- A failure never shortens the lock of any subject, at any time.
pub fail_keeps_locks :
    (p : LockoutPolicy) (now later : ℕ) (db : LockoutTable) (subject s : String)
    → check later db s ≤ check later (fail p now db subject).1 s
unfolding check fail
fail_keeps_locks p now later db subject s = elim (Bool-cases (str_eq subject s)) [
  | inr other ↦ ground arith
  | inl same ↦ rw (← str_eq→≡ subject s same) (ground (arith, str_eq_self subject))
]

-- Right after a failure the subject is locked for the penalty that Fail returns, in whole
-- milliseconds, or for longer.
pub fail_locks :
    (p : LockoutPolicy) (now : ℕ) (db : LockoutTable) (subject : String)
    → let done = fail p now db subject in done.0 / 1000000 * 1000000 ≤ check now done.1 subject
unfolding check fail
fail_locks p now db subject = ground (arith, str_eq_self subject)

-- A sweep changes no lock, at the time of the sweep or later.
pub sweep_keeps_locks :
    (p : LockoutPolicy) (now later : ℕ) (db : LockoutTable) (s : String)
    → now ≤ later
    → check later (sweep p now db) s ≡ check later db s
unfolding check sweep
sweep_keeps_locks p now later db s h = ground arith
