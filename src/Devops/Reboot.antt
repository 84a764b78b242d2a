-- ===== src/Devops/Reboot.antt =====
-- devops/reboot.go: runReboot with its loops waitDown, waitUp and pollConn. The number of the slot is
-- left out, and so are the texts of errors and notes.
mod Stages
pub mod Success
mod Tests
use huawei_api.Base.{
  ℕ, ◌-◌, ◌/◌, Bool, true, false, not, ◌==◌, if◌then◌else◌, Option, some, none, ◌∷◌,
}
use huawei_api.Base.Int.{ℤ}
use huawei_api.Domain.Addr.{Addr, is_valid}
use huawei_api.Reconcile.World.{sim_locked, is_connected}
use huawei_api.Devops.Watch.{
  RebootStep, RebootAnswer, accepted, lost, rejected, LinkStatus, stepped, reboot_called,
  reachable_asked, status_asked, pin_asked, switched_on, Trace, Env, Look, decided, undecided, Loop,
  watch,
}

-- The Timeouts that a reboot reads.
pub record Timeouts : Type 0 where
  pub poll_interval : ℤ
  pub reboot_wait_down : ℤ
  pub reboot_wait_up : ℤ
  pub connect_timeout : ℤ

pub data Fault : Type 0 where
  device_error unreachable sim_is_locked poll_timeout context_error no_fuel : Fault

-- `last`: the error that a loop has seen.
abbrev pub Seen : Type 0
Seen = Option Fault

abbrev pub down_from_status : Option LinkStatus → Trace → Look (Unit {0}) Bool × Trace
down_from_status none tr = (undecided tt, tr)
down_from_status (some st) tr = (if is_connected st.conn then undecided tt else decided true, tr)

-- One look of waitDown.
unfoldable pub down_look : Env → Unit {0} → Trace → Look (Unit {0}) Bool × Trace
down_look env _ tr =
    let up = env.reachable tr in
    let asked = reachable_asked up ∷ tr in
    if not up
    then (decided true, asked)
    else down_from_status (env.status asked) (status_asked (env.status asked) ∷ asked)

-- waitDown
abbrev pub wait_down_loop : Loop (Unit {0}) Bool
wait_down_loop = record { look = down_look; late = λ _. false; broken_off = false }

-- The answer of PinStatus, as waitUp takes it; `none` decides for success.
abbrev pub up_from_pin : Option ℕ → Trace → Look Seen (Option Fault) × Trace
up_from_pin none tr = (undecided (some device_error), tr)
up_from_pin (some sim) tr = (decided (if sim_locked sim then some sim_is_locked else none), tr)

-- One look of waitUp.
unfoldable pub up_look : Env → Seen → Trace → Look Seen (Option Fault) × Trace
up_look env last tr =
    let up = env.reachable tr in
    let asked = reachable_asked up ∷ tr in
    if up
    then up_from_pin (env.pin_status asked) (pin_asked (env.pin_status asked) ∷ asked)
    else (undecided last, asked)

abbrev pub or_else : Seen → Fault → Option Fault
or_else none f = some f
or_else (some last) f = some last

-- waitUp
abbrev pub wait_up_loop : Loop Seen (Option Fault)
wait_up_loop = record {
  look = up_look;
  late = λ last. or_else last unreachable;
  broken_off = some context_error;
}

abbrev pub conn_from_status : ℕ → Seen → Option LinkStatus → Look Seen (Option Fault)
conn_from_status want last none = undecided (some device_error)
conn_from_status want last (some st) = if st.conn == want then decided none else undecided last

-- One look of pollConn.
unfoldable pub conn_look : ℕ → Env → Seen → Trace → Look Seen (Option Fault) × Trace
conn_look want env last tr =
    (conn_from_status want last (env.status tr), status_asked (env.status tr) ∷ tr)

-- pollConn
abbrev pub poll_conn_loop : ℕ → Loop Seen (Option Fault)
poll_conn_loop want = record {
  look = conn_look want;
  late = λ last. or_else last poll_timeout;
  broken_off = some context_error;
}

pub data Reason : Type 0 where
  no_reason device_unreachable no_data_session : Reason

pub record RebootResult : Type 0 where
  pub reachable : Bool
  pub down_observed : Bool
  pub conn_status : ℕ
  pub wan_ip : Addr
  pub duration_ms : ℕ

-- What runReboot returns, with the calls that were made.
pub record Run : Type 0 where
  pub result : RebootResult
  pub reason : Reason
  pub error : Option Fault
  pub trace : Trace

abbrev pub blank_result : RebootResult
blank_result = record {
  reachable = false;
  down_observed = false;
  conn_status = 0;
  wan_ip = Addr.invalid;
  duration_ms = 0;
}

abbrev stopped : RebootResult → Reason → Fault → Trace → Run
stopped res reason error tr = record {
  result = res;
  reason = reason;
  error = some error;
  trace = tr;
}

-- elapsedMS, of a clock that does not run back.
abbrev timed : Env → ℕ → RebootResult → Trace → RebootResult
timed env start res tr = record res { duration_ms = (env.now tr - start) / 1000000 }

-- The status that StepVerify reads; a failure is passed over.
abbrev pub verified : Option LinkStatus → RebootResult → RebootResult
verified none res = res
verified (some st) res = record res {
  conn_status = st.conn;
  wan_ip = if is_valid st.wan_ip then st.wan_ip else res.wan_ip;
}

-- runReboot from StepVerify on.
unfoldable pub run_verify : Env → ℕ → RebootResult → Trace → Run
run_verify env start res tr =
    let checking = stepped RebootStep.verify ∷ tr in
    let asked = status_asked (env.status checking) ∷ checking in
    record {
      result = timed env start (verified (env.status checking) res) asked;
      reason = no_reason;
      error = none;
      trace = stepped RebootStep.done ∷ asked;
    }

-- runReboot after pollConn; the first `none` is a loop without fuel.
unfoldable pub run_connected : Env → ℕ → RebootResult → Option (Option Fault) → Trace → Run
unfolding run_verify
run_connected env start res none tr = stopped res no_data_session no_fuel tr
run_connected env start res (some (some f)) tr =
    stopped (timed env start res tr) no_data_session f tr
run_connected env start res (some none) tr = run_verify env start res tr

-- runReboot from StepDataOn on.
unfoldable pub run_data_on : Env → Timeouts → ℕ → RebootResult → Trace → Run
unfolding run_connected
run_data_on env to start res tr =
    let ready = stepped RebootStep.data_on ∷ tr in
    let on = env.data_on ready in
    let called = switched_on on ∷ ready in
    let (polled, done) =
      watch env to.poll_interval (poll_conn_loop 901) to.connect_timeout none called in
    let connected = run_connected env start res polled done in
    if on
    then connected
    else stopped (timed env start res called) device_unreachable device_error called

-- runReboot after waitUp.
unfoldable pub run_up : Env → Timeouts → ℕ → RebootResult → Option (Option Fault) → Trace → Run
unfolding run_data_on
run_up env to start res none tr = stopped res device_unreachable no_fuel tr
run_up env to start res (some (some f)) tr =
    stopped (timed env start res tr) device_unreachable f tr
run_up env to start res (some none) tr =
    run_data_on env to start (record res { reachable = true }) tr

-- runReboot after waitDown.
unfoldable pub run_down : Env → Timeouts → ℕ → Option Bool → Trace → Run
unfolding run_up
run_down env to start none tr = stopped blank_result device_unreachable no_fuel tr
run_down env to start (some down) tr =
    let (up, seen) =
      watch env to.poll_interval wait_up_loop to.reboot_wait_up none
        (stepped RebootStep.wait_up ∷ tr) in
    run_up env to start (record blank_result { down_observed = down }) up seen

-- runReboot after the Reboot call; ErrUnreachable (`lost`) is passed over.
unfoldable pub run_rebooted : Env → Timeouts → ℕ → RebootAnswer → Trace → Run
unfolding run_down
run_rebooted env to start rejected tr = stopped blank_result device_unreachable device_error tr
run_rebooted env to start _ tr =
    let (down, seen) =
      watch env to.poll_interval wait_down_loop to.reboot_wait_down tt
        (stepped RebootStep.wait_down ∷ tr) in
    run_down env to start down seen

-- runReboot
unfoldable pub run_reboot : Env → Timeouts → Trace → Run
unfolding run_rebooted
run_reboot env to tr =
    let ready = stepped RebootStep.precheck ∷ tr in
    let calling = stepped RebootStep.reboot ∷ ready in
    let answer = env.reboot calling in
    let rest = run_rebooted env to (env.now tr) answer (reboot_called answer ∷ calling) in
    if env.for_slot ready then rest else stopped blank_result device_unreachable device_error ready
