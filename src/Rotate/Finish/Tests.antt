-- ===== src/Rotate/Finish/Tests.antt =====
-- A run that changed nothing, recorded with a reboot in its wake (rotate/rotate.go).
use huawei_api.Base.{none, some}
use huawei_api.Base.Int.{pos}
use huawei_api.Rotate.Policy.Tests.{two_attempts}
use huawei_api.Rotate.Run.{RunResult, unchanged, empty_result}
use huawei_api.Rotate.Finish.{Finish, Rebooter}

abbrev pub run_of_two : RunResult
run_of_two = record empty_result { reason = unchanged; attempts = 2; hold = pos 15000000000 }

-- A rebooter that refuses.
abbrev refusing : Rebooter
refusing table dongle_id = (table, none)

abbrev pub ended_at : Finish
ended_at = record {
  policy = two_attempts;
  rebooter = some refusing;
  encode = λ r. r.reason;
  now = 1800060000000000;
  started_at = 1800000000000000;
  rotation_id = "rot_9";
  detail = "";
}
