-- ===== src/Devops/Reboot/Tests.antt =====
-- Runs of runReboot (devops/reboot.go) against a device that is down for a while.
use huawei_api.Base.{
  ℕ, if◌then◌else◌, ◌+◌, ◌≡◌, refl, true, ltb, leb, length, some, none, [], ◌∷◌, arith,
}
use huawei_api.Base.Int.{pos, ◌+ℤ◌, pos_part}
use huawei_api.Domain.Addr.{Addr}
use huawei_api.Devops.Watch.{RebootAnswer, accepted, lost, watch, Call, slept, Trace, Env}
use huawei_api.Devops.Watch.Ends.{ClockLaws}
use huawei_api.Devops.Reboot.{Timeouts, poll_timeout, down_look, up_look, conn_look, run_reboot}
use huawei_api.Devops.Reboot.Success.{IsBack, run_reboot-IsBack}

abbrev step_time : Call → ℕ
step_time (slept true) = 5
step_time c = 1

-- A clock in which a sleep takes five units and any other call takes one.
abbrev clock : Trace → ℕ
clock [] = 0
clock (c ∷ tr) = step_time c + clock tr

-- The device answers the Reboot call as given, and again after twelve calls, and its session is up after `up` calls.
abbrev device : RebootAnswer → ℕ → Env
device answer up = record {
  now = clock;
  for_slot = λ _. true;
  reboot = λ _. answer;
  reachable = λ tr. ltb 12 (length tr);
  status = λ tr.
      some (record { conn = if ltb up (length tr) then 901 else 900; wan_ip = Addr.v4 167772167 });
  pin_status = λ _. some 257;
  data_on = λ _. true;
  sleep = λ d tr. leb (pos_part d) 5;
}

abbrev quick : Timeouts
quick = record {
  poll_interval = pos 2;
  reboot_wait_down = pos 40;
  reboot_wait_up = pos 60;
  connect_timeout = pos 30;
}

returns : (run_reboot (device lost 20) quick []).error ≡ none
unfolding run_reboot watch down_look up_look conn_look ◌+ℤ◌
returns = refl

never_connects : (run_reboot (device lost 400) quick []).error ≡ some poll_timeout
unfolding run_reboot watch down_look up_look conn_look ◌+ℤ◌
never_connects = refl

clock_laws : (answer : RebootAnswer) (up : ℕ) → ClockLaws (device answer up)
clock_laws answer up = record { onward = λ c tr. omega arith; sleeps = λ d tr h. ground arith }

run_reboot-IsBack_example : IsBack (run_reboot (device accepted 20) quick [])
run_reboot-IsBack_example =
    run_reboot-IsBack (device accepted 20) quick (clock_laws accepted 20) (omega arith)
