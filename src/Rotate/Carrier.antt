-- ===== src/Rotate/Carrier.antt =====
-- rotate/carrier.go, DefaultPolicy of rotate/policy.go with the defaults of config/config.go, and
-- CarrierProfile of domain/model.go. Durations are nanoseconds, and names ASCII.
pub mod Valid
mod Tests
use huawei_api.Base.{ℕ, Bool, true, false, not, ◌&&◌, ◌||◌, if◌then◌else◌, List, [], ◌∷◌}
use huawei_api.Base.Int.{ℤ, pos, ltb_ℤ}
use huawei_api.Base.Text.{Text, text_eq, trim_space, is_empty, lower}
use huawei_api.Domain.Errors.{invalid, Result, refuse_if, ◌>>◌}
use huawei_api.Rotate.Policy.{Policy, not_positive, is_nil}

pub record CarrierProfile : Type 0 where
  pub name : Text
  pub hold_escalate : List ℤ
  pub wait_connect : ℤ
  pub verify_timeout : ℤ
  pub hard_deadline : ℤ
  pub poll_interval : ℤ
  pub max_attempts : ℤ
  pub min_rotate_interval : ℤ

-- CarrierProfile.Validate
unfoldable pub validate_profile : CarrierProfile → Result (Unit {0})
validate_profile p = do
  refuse_if (is_nil p.hold_escalate) invalid
  refuse_if (not_positive p.hard_deadline || not_positive p.wait_connect) invalid

-- DefaultPolicy
abbrev pub default_policy : Policy
default_policy = record {
  hard_deadline = pos 90000000000;
  hold_escalate = pos 6000000000 ∷ pos 15000000000 ∷ pos 40000000000 ∷ [];
  wait_connect = pos 45000000000;
  poll_interval = pos 1000000000;
  verify_timeout = pos 10000000000;
  max_attempts = pos 3;
  reboot_budget_per_day = pos 4;
  reboot_cooldown = pos 1800000000000;
  min_interval = pos 60000000000;
  max_concurrent = pos 4;
  jitter = pos 3000000000;
}

-- `if c > 0 { p = c }`
abbrev pub over : ℤ → ℤ → ℤ
over p c = if ltb_ℤ (pos 0) c then c else p

abbrev pub over_ladder : List ℤ → List ℤ → List ℤ
over_ladder p c = if is_nil c then p else c

-- PolicyForCarrier
unfoldable pub policy_for_carrier : CarrierProfile → Policy
policy_for_carrier c = record default_policy {
  hold_escalate = over_ladder default_policy.hold_escalate c.hold_escalate;
  wait_connect = over default_policy.wait_connect c.wait_connect;
  verify_timeout = over default_policy.verify_timeout c.verify_timeout;
  hard_deadline = over default_policy.hard_deadline c.hard_deadline;
  poll_interval = over default_policy.poll_interval c.poll_interval;
  max_attempts = over default_policy.max_attempts c.max_attempts;
  min_interval = over default_policy.min_interval c.min_rotate_interval;
}

-- PolicyForCarrierName
pub policy_for_name : Text → List CarrierProfile → Policy
policy_for_name name [] = default_policy
policy_for_name name (c ∷ cs) =
    let want = trim_space name in
    let rest = policy_for_name name cs in
    if text_eq (lower (trim_space c.name)) (lower want) && not (is_empty (lower want))
    then policy_for_carrier c
    else rest
