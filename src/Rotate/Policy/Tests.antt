-- ===== src/Rotate/Policy/Tests.antt =====
-- A policy of two attempts with a ladder of two holds (rotate/policy.go).
use huawei_api.Base.{[], ◌∷◌}
use huawei_api.Base.Int.{pos}
use huawei_api.Rotate.Policy.{Policy}

abbrev pub two_attempts : Policy
two_attempts = record {
  hard_deadline = pos 60000000000;
  hold_escalate = pos 5000000000 ∷ pos 15000000000 ∷ [];
  wait_connect = pos 30000000000;
  poll_interval = pos 1000000000;
  verify_timeout = pos 8000000000;
  max_attempts = pos 2;
  reboot_budget_per_day = pos 3;
  reboot_cooldown = pos 600000000000;
  min_interval = pos 60000000000;
  max_concurrent = pos 3;
  jitter = pos 2000000000;
}
