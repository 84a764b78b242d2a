-- ===== src/Rotate/Run.antt =====
-- rotate/rotate.go (execute, cycle, pollConn, fenceGuard) and verify.go (CheckLeak, probeEgress).
-- A run is a list of the calls that it has made so far, newest first. The outside world, `Env`, is
-- any function from that list to the answer of the next call; a context that ends shows as a call
-- that fails. The texts of notes and errors are left out.
pub mod Fence
pub mod Outcome
pub mod Poll
pub mod Ends
mod Tests
use huawei_api.Base.{
  ℕ, zero, suc, ◌+◌, ◌/◌, Bool, true, false, not, ◌&&◌, ◌||◌, leb, ltb, ◌==◌, if◌then◌else◌, Option,
  some, none, List, [], ◌∷◌,
}
use huawei_api.Base.Int.{ℤ, pos, ◌+ℤ◌, ◌-ℤ◌, ltb_ℤ, pos_part}
use huawei_api.Domain.Addr.{Addr, is_valid, addr_eq, unmap}
use huawei_api.Domain.Enums.{RotateStep}
use huawei_api.Reconcile.World.{sim_locked}
use huawei_api.Rotate.Policy.{Policy, hold_for, attempt_fits}

-- What Unfence answers; ErrUnknownIface is the one error that is told apart.
pub data FwAnswer : Type 0 where
  lifted unknown_iface refused : FwAnswer

pub data Call : Type 0 where
  progressed : RotateStep → Call
  sim_asked status_asked probed sockets_killed conntrack_flushed slept : Call
  -- DataSwitch: on or off, and whether it succeeded.
  switched : Bool → Bool → Call
  fence_called : Bool → Call
  unfence_called : FwAnswer → Call

abbrev pub Trace : Type 0
Trace = List Call

-- device.Status, the fields that are read.
pub record LinkStatus : Type 0 where
  pub conn : ℕ
  pub wan_ip : Addr

pub record Env : Type 0 where
  pub now : Trace → ℕ
  pub for_slot : Trace → Bool
  pub pin_status : Trace → Option ℕ
  pub status : Trace → Option LinkStatus
  pub data_switch : Bool → Trace → Bool
  pub fence : Trace → Bool
  pub unfence : Trace → FwAnswer
  pub kill_sockets : Trace → ℕ
  pub probe_source : Trace → Option Addr
  pub sleep : ℤ → Trace → Bool

pub data PollResult : Type 0 where
  reached device_failed timed_out interrupted out_of_fuel : PollResult

-- The loop of pollConn; `failing` tells that some status call failed.
unfoldable pub poll : Env → Policy → ℕ → ℤ → ℕ → Bool → Trace → PollResult × Trace
poll env pol want deadline zero failing tr = (out_of_fuel, tr)
poll env pol want deadline (suc fuel) failing tr =
    let answer = env.status tr in
    let asked = status_asked ∷ tr in
    let failing' = failing || (elim answer [ none ↦ true | some st ↦ false ]) in
    let rest = poll env pol want deadline fuel failing' (slept ∷ asked) in
    if (elim answer [ none ↦ false | some st ↦ st.conn == want ])
    then (reached, asked)
    else if not (ltb_ℤ (pos (env.now asked)) deadline)
    then (if failing' then device_failed else timed_out, asked)
    else if env.sleep pol.poll_interval asked
    then rest
    else (interrupted, slept ∷ asked)

-- One round for each interval of the budget, and two more.
abbrev pub poll_fuel : ℤ → ℤ → ℕ
poll_fuel budget interval = suc (suc (pos_part budget / pos_part interval))

-- pollConn
unfoldable pub poll_conn : Env → Policy → ℕ → ℤ → Trace → PollResult × Trace
unfolding poll
poll_conn env pol want budget tr =
    poll env pol want (pos (env.now tr) +ℤ budget) (poll_fuel budget pol.poll_interval) false tr

pub data RunError : Type 0 where
  fence_failed poll_timeout device_error firewall_error context_error no_fuel : RunError
  no_dongle no_device sim_is_locked egress_leak probe_error expired : RunError

abbrev poll_error : PollResult → Option RunError
poll_error reached = none
poll_error device_failed = some device_error
poll_error timed_out = some poll_timeout
poll_error interrupted = some context_error
poll_error out_of_fuel = some no_fuel

-- What a cycle leaves: the sockets killed, its error, the flag of the fence guard, the calls.
pub record Cycle : Type 0 where
  pub killed : ℕ
  pub error : Option RunError
  pub fenced : Bool
  pub trace : Trace

abbrev ended : ℕ → Option RunError → Bool → Trace → Cycle
ended killed error fenced tr = record {
  killed = killed;
  error = error;
  fenced = fenced;
  trace = tr;
}

-- fenceGuard.unfence after the firewall has answered.
after_unfence : ℕ → FwAnswer → Trace → Cycle
after_unfence killed lifted tr = ended killed none false (unfence_called lifted ∷ tr)
after_unfence killed unknown_iface tr = ended killed none false (unfence_called unknown_iface ∷ tr)
after_unfence killed refused tr =
    ended killed (some firewall_error) true (unfence_called refused ∷ tr)

-- fenceGuard.unfence
guard_unfence : Env → ℕ → Bool → Trace → Cycle
unfolding after_unfence
guard_unfence env killed false tr = ended killed none false tr
guard_unfence env killed true tr = after_unfence killed (env.unfence tr) tr

-- The end of cycle: the poll for the connection has ended, then StepUnfence.
cycle_connected : Env → ℕ → PollResult → Trace → Cycle
unfolding guard_unfence
cycle_connected env killed reached tr =
    guard_unfence env killed true (progressed RotateStep.unfence ∷ tr)
cycle_connected env killed result tr = ended killed (poll_error result) true tr

-- cycle from StepWaitConnect on: mobile data is on again.
cycle_on : Env → Policy → ℕ → Trace → Cycle
unfolding cycle_connected poll_conn
cycle_on env pol killed tr =
    let (result, polled) =
      poll_conn env pol 901 pol.wait_connect (progressed RotateStep.wait_connect ∷ tr) in
    cycle_connected env killed result polled

-- A return of cycle with mobile data off: the deferred restoreDataSession runs.
restored : Env → ℕ → RunError → Trace → Cycle
restored env killed error tr =
    ended killed (some error) true (switched true (env.data_switch true tr) ∷ tr)

-- cycle from StepHold on.
cycle_hold : Env → Policy → ℕ → ℤ → Trace → Cycle
unfolding restored cycle_on
cycle_hold env pol killed hold tr =
    let holding = progressed RotateStep.hold ∷ tr in
    let waking = progressed RotateStep.data_on ∷ slept ∷ holding in
    let back = env.data_switch true waking in
    let on = cycle_on env pol killed (switched true true ∷ waking) in
    let stuck = restored env killed device_error (switched true false ∷ waking) in
    if not (env.sleep hold holding)
    then restored env killed context_error (slept ∷ holding)
    else if back
    then on
    else stuck

-- cycle after the poll for the disconnection: a timeout is noted and passed over.
cycle_disconnected : Env → Policy → ℕ → ℤ → PollResult → Trace → Cycle
unfolding restored cycle_hold
cycle_disconnected env pol killed hold reached tr = cycle_hold env pol killed hold tr
cycle_disconnected env pol killed hold timed_out tr = cycle_hold env pol killed hold tr
cycle_disconnected env pol killed hold device_failed tr = restored env killed device_error tr
cycle_disconnected env pol killed hold interrupted tr = restored env killed context_error tr
cycle_disconnected env pol killed hold out_of_fuel tr = restored env killed no_fuel tr

-- minDuration(WaitConnect, waitDisconnectCap): 15 seconds at most.
abbrev disconnect_budget : Policy → ℤ
disconnect_budget pol =
    if ltb_ℤ pol.wait_connect (pos 15000000000) then pol.wait_connect else pos 15000000000

-- cycle from StepDataOff on.
cycle_off : Env → Policy → ℤ → Trace → Cycle
unfolding cycle_disconnected poll_conn
cycle_off env pol hold tr =
    let killed = env.kill_sockets tr in
    let ready = progressed RotateStep.data_off ∷ conntrack_flushed ∷ sockets_killed ∷ tr in
    let off = switched false true ∷ ready in
    let (result, polled) = poll_conn env pol 902 (disconnect_budget pol) off in
    let gone_on = cycle_disconnected env pol killed hold result polled in
    if env.data_switch false ready
    then gone_on
    else ended killed (some device_error) true (switched false false ∷ ready)

-- cycle, with the flag of the guard before it.
unfoldable pub cycle : Env → Policy → ℤ → Bool → Trace → Cycle
unfolding cycle_off
cycle env pol hold fenced tr =
    let ready = progressed RotateStep.fence ∷ tr in
    let done = cycle_off env pol hold (fence_called true ∷ ready) in
    if env.fence ready
    then done
    else ended 0 (some fence_failed) fenced (fence_called false ∷ ready)

pub data Reason : Type 0 where
  no_reason changed unchanged sim_lock leak device_unreachable no_data_session slot_empty : Reason
  fence_failure probe_failure deadline canceled : Reason

pub record RunResult : Type 0 where
  pub reason : Reason
  pub old : Addr
  pub new : Addr
  pub is_changed : Bool
  pub attempts : ℕ
  pub hold : ℤ
  pub conns_killed : ℕ
  pub error : Option RunError

abbrev pub empty_result : RunResult
empty_result = record {
  reason = no_reason;
  old = Addr.invalid;
  new = Addr.invalid;
  is_changed = false;
  attempts = 0;
  hold = pos 0;
  conns_killed = 0;
  error = none;
}

-- `failed`
abbrev fail : RunResult → Reason → RunError → RunResult
fail res reason error = record res { reason = reason; error = some error }

-- CheckLeak: did the probe leave by the node's own address?
unfoldable pub is_leak : Addr → Addr → Bool
is_leak seen host =
    if not (is_valid seen) || not (is_valid host) then false else addr_eq (unmap seen) (unmap host)

pub data Probe : Type 0 where
  clean leaked : Addr → Probe
  broken : Probe

-- probeEgress
unfoldable pub probe_egress : Addr → Option Addr → Probe
unfolding is_leak
probe_egress host none = broken
probe_egress host (some seen) = if is_leak seen host then leaked seen else clean seen

-- One round of execute's loop ends the run, or goes on with the next attempt.
pub data Round : Type 0 where
  stop again : RunResult → Bool → Trace → Round

-- The verification of an attempt, whether more attempts are left.
verify : Bool → RunResult → Bool → Trace → Probe → Round
verify more res fenced tr (leaked seen) =
    stop (fail (record res { new = seen }) leak egress_leak) fenced tr
verify more res fenced tr broken =
    if more then again res fenced tr else stop (fail res probe_failure probe_error) fenced tr
verify more res fenced tr (clean seen) =
    let verified = record res { new = seen } in
    if is_valid seen && is_valid res.old && not (addr_eq seen res.old)
    then stop (record verified { is_changed = true; reason = changed }) fenced
        (progressed RotateStep.done ∷ tr)
    else again verified fenced tr

-- What follows a cycle that ended with or without an error.
after_cycle : Env → Addr → Bool → RunResult → Bool → Trace → Option RunError → Round
unfolding verify probe_egress
after_cycle env host more res fenced tr none =
    let checking = progressed RotateStep.verify ∷ tr in
    verify more res fenced (probed ∷ checking) (probe_egress host (env.probe_source checking))
after_cycle env host more res fenced tr (some fence_failed) =
    stop (fail res fence_failure fence_failed) fenced tr
after_cycle env host more res fenced tr (some poll_timeout) =
    if more then again res fenced tr else stop (fail res no_data_session poll_timeout) fenced tr
after_cycle env host more res fenced tr (some error) =
    stop (fail res device_unreachable error) fenced tr

-- The body of execute's loop, once the attempt fits before the deadline.
try_once : Env → Policy → Addr → ℕ → RunResult → Bool → Trace → Round
unfolding after_cycle cycle
try_once env pol host attempt res fenced tr =
    let hold = hold_for pol attempt in
    let c = cycle env pol hold fenced tr in
    after_cycle env host (ltb attempt (pos_part pol.max_attempts))
      (record res { attempts = attempt; hold = hold; conns_killed = res.conns_killed + c.killed })
      c.fenced c.trace c.error

abbrev go_on :
    (RunResult → Bool → Trace → RunResult × Bool × Trace) → Round → RunResult × Bool × Trace
go_on next (stop res fenced tr) = (res, fenced, tr)
go_on next (again res fenced tr) = next res fenced tr

-- The loop of execute, with the number of attempts left.
attempts_from :
    Env → Policy → Addr → ℤ → ℕ → ℕ → RunResult → Bool → Trace → RunResult × Bool × Trace
unfolding try_once
attempts_from env pol host due zero attempt res fenced tr =
    (record res { reason = unchanged }, fenced, tr)
attempts_from env pol host due (suc n) attempt res fenced tr =
    let tried = try_once env pol host attempt res fenced tr in
    let out =
      go_on (λ res' fenced' tr'. attempts_from env pol host due n (suc attempt) res' fenced' tr')
        tried in
    if attempt_fits pol (due -ℤ pos (env.now tr)) attempt
    then out
    else if attempt == 1
    then (fail res deadline expired, fenced, tr)
    else (record res { reason = unchanged }, fenced, tr)

-- The deferred fenceGuard.release.
release : Env → RunResult × Bool × Trace → RunResult × Trace
unfolding guard_unfence
release env (res, fenced, tr) = (res, (guard_unfence env 0 fenced tr).trace)

-- execute once the first probe has answered: the old address, or the end of the run.
from_probe : Env → Policy → Addr → ℤ → Trace → Probe → RunResult × Trace
unfolding attempts_from release
from_probe env pol host due tr (leaked seen) =
    (fail (record empty_result { new = seen }) leak egress_leak, tr)
from_probe env pol host due tr (clean seen) = release env (
    attempts_from env pol host due (pos_part pol.max_attempts) 1
      (record empty_result { old = seen }) false tr)
from_probe env pol host due tr broken = release env (
    attempts_from env pol host due (pos_part pol.max_attempts) 1
      (record empty_result {
        old = elim (env.status tr) [ none ↦ Addr.invalid | some st ↦ st.wan_ip ];
      })
      false (status_asked ∷ tr))

-- execute from the answer of PinStatus on.
from_sim : Env → Policy → Addr → ℤ → Trace → Option ℕ → RunResult × Trace
unfolding from_probe probe_egress
from_sim env pol host due tr none = (fail empty_result device_unreachable device_error, tr)
from_sim env pol host due tr (some sim) =
    let go = from_probe env pol host due (probed ∷ tr) (probe_egress host (env.probe_source tr)) in
    if sim_locked sim then (fail empty_result sim_lock sim_is_locked, tr) else go

-- execute: is the slot occupied, and the node's public host.
unfoldable pub execute : Env → Policy → Bool → Addr → Trace → RunResult × Trace
unfolding from_sim
execute env pol occupied host tr =
    let ready = progressed RotateStep.precheck ∷ tr in
    let due = pos (env.now tr) +ℤ pol.hard_deadline in
    let go = from_sim env pol host due (sim_asked ∷ ready) (env.pin_status ready) in
    if not occupied
    then (fail empty_result slot_empty no_dongle, ready)
    else if not (env.for_slot ready)
    then (fail empty_result device_unreachable no_device, ready)
    else go
