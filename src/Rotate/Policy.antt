-- ===== src/Rotate/Policy.antt =====
-- rotate/policy.go. Durations (nanoseconds) and counts are Go integers and may be negative until the
-- policy is validated. A sum of two durations is not near the end of int64.
pub mod Ladder
pub mod Tests
use huawei_api.Base.{
  ℕ, zero, suc, ◌+◌, ◌-◌, Bool, true, false, not, ◌||◌, leb, ltb, if◌then◌else◌, any, length,
  Option, some, none, List, [], ◌∷◌, ◌++◌,
}
use huawei_api.Base.Int.{ℤ, pos, negsuc, ◌+ℤ◌, ◌-ℤ◌, ltb_ℤ, leb_ℤ, pos_part}
use huawei_api.Domain.Enums.{RotateStep}
use huawei_api.Domain.Errors.{Err, invalid, Result, ok, err, ◌>>=◌, ◌>>◌, refuse_if}

pub record Policy : Type 0 where
  pub hard_deadline : ℤ
  pub hold_escalate : List ℤ
  pub wait_connect : ℤ
  pub poll_interval : ℤ
  pub verify_timeout : ℤ
  pub max_attempts : ℤ
  pub reboot_budget_per_day : ℤ
  pub reboot_cooldown : ℤ
  pub min_interval : ℤ
  pub max_concurrent : ℤ
  pub jitter : ℤ

abbrev pub not_positive : ℤ → Bool
not_positive d = leb_ℤ d (pos 0)

abbrev pub negative : ℤ → Bool
negative d = ltb_ℤ d (pos 0)

abbrev pub is_nil {ℓ} : {A : Type ℓ} → List A → Bool
is_nil [] = true
is_nil (x ∷ xs) = false

-- Policy.Validate
unfoldable pub validate : Policy → Result (Unit {0})
validate p = do
  refuse_if (is_nil p.hold_escalate) invalid
  refuse_if (any not_positive p.hold_escalate) invalid
  refuse_if
      (not_positive p.hard_deadline || not_positive p.wait_connect || not_positive p.verify_timeout)
      invalid
  refuse_if (not_positive p.poll_interval) invalid
  refuse_if (ltb_ℤ p.max_attempts (pos 1)) invalid
  refuse_if (ltb_ℤ p.max_concurrent (pos 1)) invalid
  refuse_if (negative p.jitter || negative p.min_interval || negative p.reboot_cooldown) invalid
  refuse_if (negative p.reboot_budget_per_day) invalid

-- `HoldEscalate[i]` for an index that is past the end: the last rung. The empty ladder gives 0.
unfoldable pub rung_at : List ℤ → ℕ → ℤ
rung_at [] i = pos 0
rung_at (h ∷ []) i = h
rung_at (h ∷ k ∷ hs) zero = h
rung_at (h ∷ k ∷ hs) (suc i) = rung_at (k ∷ hs) i

-- Policy.HoldFor: an attempt below 1 reads the first rung.
unfoldable pub hold_for : Policy → ℕ → ℤ
unfolding rung_at
hold_for p attempt = rung_at p.hold_escalate (attempt - 1)

pub record Rung : Type 0 where
  pub attempt : ℕ
  pub hold : ℤ
  pub reboot : Bool

-- The loop of Ladder, with the number of attempts left.
ladder_from : Policy → ℕ → ℕ → List Rung
ladder_from p attempt zero = record { attempt = attempt; hold = pos 0; reboot = true } ∷ []
ladder_from p attempt (suc n) =
    record { attempt = attempt; hold = hold_for p attempt; reboot = false }
    ∷ ladder_from p (suc attempt) n

-- Policy.Ladder, with RebootRung at its end.
unfoldable pub ladder : Policy → List Rung
unfolding ladder_from
ladder p = ladder_from p 1 (pos_part p.max_attempts)

-- Policy.RowDeadline
unfoldable pub row_deadline : Policy → ℤ
row_deadline p = p.hard_deadline +ℤ p.hard_deadline

-- Policy.AttemptFits
unfoldable pub attempt_fits : Policy → ℤ → ℕ → Bool
attempt_fits p remaining attempt = leb_ℤ (hold_for p attempt +ℤ p.verify_timeout) remaining

-- StepPct
abbrev pub step_pct : RotateStep → ℕ
step_pct RotateStep.precheck = 5
step_pct RotateStep.fence = 15
step_pct RotateStep.data_off = 25
step_pct RotateStep.hold = 40
step_pct RotateStep.data_on = 55
step_pct RotateStep.wait_connect = 70
step_pct RotateStep.unfence = 85
step_pct RotateStep.verify = 95
step_pct RotateStep.done = 100
