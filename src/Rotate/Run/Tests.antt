-- ===== src/Rotate/Run/Tests.antt =====
-- Two runs of rotate/rotate.go: one in which the device stops answering once mobile data is off, and
-- one that changes the address.
use huawei_api.Base.{
  ℕ, ◌+◌, ◌≡◌, ◌≢◌, refl, Bool, true, false, leb, if◌then◌else◌, some, none, [], ◌∷◌, arith,
}
use huawei_api.Base.Int.{pos_part, ◌+ℤ◌, ◌-ℤ◌}
use huawei_api.Domain.Addr.{Addr}
use huawei_api.Rotate.Policy.{hold_for, attempt_fits}
use huawei_api.Rotate.Policy.Tests.{two_attempts}
use huawei_api.Rotate.Run.{
  Env, Trace, lifted, switched, execute, status_asked, slept, changed, no_fuel, cycle, poll_conn,
  poll, probe_egress, is_leak,
}
use huawei_api.Rotate.Run.Poll.{ClockLaws}
use huawei_api.Rotate.Run.Ends.{execute_ends}
use huawei_api.Rotate.Run.Outcome.{IsSound, execute-IsSound}
use huawei_api.Rotate.Run.Fence.{left_fenced, left_off, execute_undoes}

-- The clock stands still until a status is asked for, and then jumps by a minute.
abbrev clock : Trace → ℕ
clock [] = 0
clock (status_asked ∷ tr) = 60000000000
clock (_ ∷ tr) = clock tr

abbrev silent_device : Env
silent_device = record {
  now = clock;
  for_slot = λ tr. true;
  pin_status = λ tr. some 257;
  status = λ tr. none;
  data_switch = λ on tr. true;
  fence = λ tr. true;
  unfence = λ tr. lifted;
  kill_sockets = λ tr. 3;
  probe_source = λ tr. some (Addr.v4 167772161);
  sleep = λ d tr. true;
}

execute_undoes_example :
    let end = (execute silent_device two_attempts true (Addr.v4 3221225985) []).1 in
    (left_fenced end ≡ false) × (left_off end ≡ false)
execute_undoes_example =
    execute_undoes silent_device two_attempts true (Addr.v4 3221225985) [] refl refl

-- Each sleep takes 15 seconds.
abbrev ticking : Trace → ℕ
ticking [] = 0
ticking (slept ∷ tr) = ticking tr + 15000000000
ticking (_ ∷ tr) = ticking tr

-- Mobile data has been off.
abbrev was_off : Trace → Bool
was_off [] = false
was_off (switched false ok ∷ tr) = true
was_off (_ ∷ tr) = was_off tr

abbrev good_device : Env
good_device = record silent_device {
  now = ticking;
  status = λ tr. some record { conn = if left_off tr then 902 else 901; wan_ip = Addr.invalid };
  probe_source = λ tr. some (Addr.v4 (if was_off tr then 167772162 else 167772161));
  sleep = λ d tr. leb (pos_part d) 15000000000;
}

good_clock : ClockLaws good_device
good_clock = record { onward = λ c tr. ground arith; sleeps = λ d tr h. ground arith }

execute_ends_example :
    (execute good_device two_attempts true (Addr.v4 3221225985) []).0.error ≢ some no_fuel
execute_ends_example =
    execute_ends good_device two_attempts good_clock (ground arith) true (Addr.v4 3221225985) []

execute-IsSound_example :
    IsSound (Addr.v4 3221225985) 2 (execute good_device two_attempts true (Addr.v4 3221225985) []).0
execute-IsSound_example = execute-IsSound good_device two_attempts true (Addr.v4 3221225985) []

-- The run does change the address.
good_run : (execute good_device two_attempts true (Addr.v4 3221225985) []).0.reason ≡ changed
unfolding execute cycle poll_conn poll probe_egress is_leak hold_for attempt_fits ◌+ℤ◌ ◌-ℤ◌
good_run = refl
