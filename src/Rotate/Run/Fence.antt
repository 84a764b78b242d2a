-- ===== src/Rotate/Run/Fence.antt =====
-- The fence and the data switch in a run of rotate/rotate.go, on every path.
use huawei_api.Base.{
  ℕ, zero, suc, ◌≡◌, refl, ◌∙◌, sym, inl, inr, Bool, true, false, ◌==◌, if◌then◌else◌, Bool-cases,
  Option, some, none, [], ◌∷◌, arith,
}
use huawei_api.Base.Int.{ℤ, pos, ◌+ℤ◌, ◌-ℤ◌, pos_part}
use huawei_api.Domain.Addr.{Addr}
use huawei_api.Domain.Enums.{RotateStep}
use huawei_api.Reconcile.World.{sim_locked}
use huawei_api.Rotate.Policy.{Policy, hold_for, attempt_fits}
use huawei_api.Rotate.Run.{
  FwAnswer, lifted, unknown_iface, refused, progressed, sim_asked, status_asked, probed,
  sockets_killed, conntrack_flushed, slept, switched, fence_called, unfence_called, Trace, Env,
  PollResult, reached, device_failed, timed_out, interrupted, out_of_fuel, poll, poll_fuel,
  poll_conn, disconnect_budget, probe_egress, RunError, Cycle, after_unfence, guard_unfence,
  cycle_connected, cycle_on, restored, cycle_hold, cycle_disconnected, cycle_off, cycle, RunResult,
  empty_result, Probe, clean, leaked, broken, Round, stop, again, verify, after_cycle, try_once,
  attempts_from, go_on, release, from_probe, from_sim, execute, poll_timeout, fence_failed,
}

-- The last successful Fence has no later call of Unfence.
abbrev pub left_fenced : Trace → Bool
left_fenced [] = false
left_fenced (fence_called true ∷ tr) = true
left_fenced (unfence_called answer ∷ tr) = false
left_fenced (_ ∷ tr) = left_fenced tr

-- The last successful DataSwitch(false) has no later call of DataSwitch(true).
abbrev pub left_off : Trace → Bool
left_off [] = false
left_off (switched false true ∷ tr) = true
left_off (switched true ok ∷ tr) = false
left_off (_ ∷ tr) = left_off tr

poll_neutral :
    (env : Env) (pol : Policy) (want : ℕ) (deadline : ℤ) (fuel : ℕ) (failing : Bool) (tr : Trace)
    → (left_fenced (poll env pol want deadline fuel failing tr).1 ≡ left_fenced tr)
      × (left_off (poll env pol want deadline fuel failing tr).1 ≡ left_off tr)
unfolding poll
poll_neutral env pol want deadline zero failing tr = (refl, refl)
poll_neutral env pol want deadline (suc fuel) failing tr =
    let rest =
      λ (b : Bool). poll_neutral env pol want deadline fuel b (slept ∷ status_asked ∷ tr) in
    (
      ground (arith, (rest true).0, (rest failing).0),
      ground (arith, (rest true).1, (rest failing).1),
    )

poll_conn_neutral :
    (env : Env) (pol : Policy) (want : ℕ) (budget : ℤ) (tr : Trace)
    → (left_fenced (poll_conn env pol want budget tr).1 ≡ left_fenced tr)
      × (left_off (poll_conn env pol want budget tr).1 ≡ left_off tr)
unfolding poll_conn
poll_conn_neutral env pol want budget tr =
    poll_neutral env pol want (pos (env.now tr) +ℤ budget) (poll_fuel budget pol.poll_interval)
      false tr

-- The guard knows of every fence that is left, and mobile data is not left off.
abbrev IsTidy : Cycle → Type 0
IsTidy c = (left_fenced c.trace ≡ true → c.fenced ≡ true) × (left_off c.trace ≡ false)

after_unfence-IsTidy :
    (killed : ℕ) (answer : FwAnswer) (tr : Trace)
    → left_off tr ≡ false
    → IsTidy (after_unfence killed answer tr)
unfolding after_unfence
after_unfence-IsTidy killed lifted tr h = (λ e. cc, h)
after_unfence-IsTidy killed unknown_iface tr h = (λ e. cc, h)
after_unfence-IsTidy killed refused tr h = (λ e. cc, h)

cycle_connected-IsTidy :
    (env : Env) (killed : ℕ) (result : PollResult) (tr : Trace)
    → left_off tr ≡ false
    → IsTidy (cycle_connected env killed result tr)
unfolding cycle_connected guard_unfence
cycle_connected-IsTidy env killed reached tr h =
    after_unfence-IsTidy killed (env.unfence _) (progressed RotateStep.unfence ∷ tr) h
cycle_connected-IsTidy env killed device_failed tr h = (λ _. refl, h)
cycle_connected-IsTidy env killed timed_out tr h = (λ _. refl, h)
cycle_connected-IsTidy env killed interrupted tr h = (λ _. refl, h)
cycle_connected-IsTidy env killed out_of_fuel tr h = (λ _. refl, h)

cycle_on-IsTidy :
    (env : Env) (pol : Policy) (killed : ℕ) (tr : Trace)
    → left_off tr ≡ false
    → IsTidy (cycle_on env pol killed tr)
unfolding cycle_on
cycle_on-IsTidy env pol killed tr h =
    let waiting = progressed RotateStep.wait_connect ∷ tr in
    let end = poll_conn env pol 901 pol.wait_connect waiting in
    cycle_connected-IsTidy env killed end.0 end.1
      ((poll_conn_neutral env pol 901 pol.wait_connect waiting).1 ∙ h)

-- With mobile data off every way out of the cycle switches it on again.
cycle_hold-IsTidy :
    (env : Env) (pol : Policy) (killed : ℕ) (hold : ℤ) (tr : Trace)
    → IsTidy (cycle_hold env pol killed hold tr)
unfolding cycle_hold restored
cycle_hold-IsTidy env pol killed hold tr =
    let holding = progressed RotateStep.hold ∷ tr in
    let waking = progressed RotateStep.data_on ∷ slept ∷ holding in
    elim (Bool-cases (env.sleep hold holding)) [
      | inr woken ↦ rw woken (λ _. refl, refl)
      | inl slept_well ↦ elim (Bool-cases (env.data_switch true waking)) [
        | inl back ↦ rw (slept_well, back) (cycle_on-IsTidy env pol killed _ refl)
        | inr stuck ↦ rw (slept_well, stuck) (λ _. refl, refl)
      ]
    ]

cycle_disconnected-IsTidy :
    (env : Env) (pol : Policy) (killed : ℕ) (hold : ℤ) (result : PollResult) (tr : Trace)
    → IsTidy (cycle_disconnected env pol killed hold result tr)
unfolding cycle_disconnected restored
cycle_disconnected-IsTidy env pol killed hold reached tr = cycle_hold-IsTidy env pol killed hold tr
cycle_disconnected-IsTidy env pol killed hold timed_out tr =
    cycle_hold-IsTidy env pol killed hold tr
cycle_disconnected-IsTidy env pol killed hold device_failed tr = (λ _. refl, refl)
cycle_disconnected-IsTidy env pol killed hold interrupted tr = (λ _. refl, refl)
cycle_disconnected-IsTidy env pol killed hold out_of_fuel tr = (λ _. refl, refl)

cycle_off-IsTidy :
    (env : Env) (pol : Policy) (hold : ℤ) (tr : Trace)
    → left_off tr ≡ false
    → IsTidy (cycle_off env pol hold tr)
unfolding cycle_off
cycle_off-IsTidy env pol hold tr h =
    let ready = progressed RotateStep.data_off ∷ conntrack_flushed ∷ sockets_killed ∷ tr in
    let end = poll_conn env pol 902 (disconnect_budget pol) (switched false true ∷ ready) in
    elim (Bool-cases (env.data_switch false ready)) [
      | inl off ↦ rw off (cycle_disconnected-IsTidy env pol (env.kill_sockets tr) hold end.0 end.1)
      | inr on ↦ rw on (λ _. refl, h)
    ]

cycle-IsTidy :
    (env : Env) (pol : Policy) (hold : ℤ) (fenced : Bool) (tr : Trace)
    → (left_fenced tr ≡ true → fenced ≡ true)
    → left_off tr ≡ false
    → IsTidy (cycle env pol hold fenced tr)
unfolding cycle
cycle-IsTidy env pol hold fenced tr f h =
    elim (Bool-cases (env.fence (progressed RotateStep.fence ∷ tr))) [
      | inl up ↦ rw up (cycle_off-IsTidy env pol hold _ h)
      | inr down ↦ rw down (f, h)
    ]

abbrev round_fenced : Round → Bool
round_fenced (stop res fenced tr) = fenced
round_fenced (again res fenced tr) = fenced

abbrev round_trace : Round → Trace
round_trace (stop res fenced tr) = tr
round_trace (again res fenced tr) = tr

abbrev IsTidyAt : Bool → Trace → Type 0
IsTidyAt fenced tr = (left_fenced tr ≡ true → fenced ≡ true) × (left_off tr ≡ false)

abbrev IsTidyRound : Round → Type 0
IsTidyRound r = IsTidyAt (round_fenced r) (round_trace r)

stop_or_again-IsTidy :
    (b : Bool) (r r' : RunResult) (fenced : Bool) (tr tr' : Trace)
    → IsTidyAt fenced tr
    → IsTidyAt fenced tr'
    → IsTidyRound (if b then stop r fenced tr else again r' fenced tr')
stop_or_again-IsTidy true r r' fenced tr tr' h h' = h
stop_or_again-IsTidy false r r' fenced tr tr' h h' = h'

verify-IsTidy :
    (more : Bool) (res : RunResult) (fenced : Bool) (tr : Trace) (p : Probe)
    → IsTidyAt fenced tr
    → IsTidyRound (verify more res fenced tr p)
unfolding verify
verify-IsTidy more res fenced tr (leaked seen) h = h
verify-IsTidy true res fenced tr broken h = h
verify-IsTidy false res fenced tr broken h = h
verify-IsTidy more res fenced tr (clean seen) h =
    stop_or_again-IsTidy _ _ _ fenced (progressed RotateStep.done ∷ tr) tr h h

after_cycle-IsTidy :
    (env : Env) (host : Addr) (more : Bool) (res : RunResult) (fenced : Bool) (tr : Trace)
    (error : Option RunError)
    → IsTidyAt fenced tr
    → IsTidyRound (after_cycle env host more res fenced tr error)
unfolding after_cycle
after_cycle-IsTidy env host more res fenced tr none h = verify-IsTidy more res fenced _ _ h
after_cycle-IsTidy env host true res fenced tr (some poll_timeout) h = h
after_cycle-IsTidy env host false res fenced tr (some poll_timeout) h = h
after_cycle-IsTidy env host more res fenced tr (some fence_failed) h = h
after_cycle-IsTidy env host more res fenced tr (some _) h = h

try_once-IsTidy :
    (env : Env) (pol : Policy) (host : Addr) (attempt : ℕ) (res : RunResult) (fenced : Bool)
    (tr : Trace)
    → IsTidyAt fenced tr
    → IsTidyRound (try_once env pol host attempt res fenced tr)
unfolding try_once
try_once-IsTidy env pol host attempt res fenced tr (f, h) =
    after_cycle-IsTidy env host _ _ _ _ _
      (cycle-IsTidy env pol (hold_for pol attempt) fenced tr f h)

go_on-IsTidy :
    (next : RunResult → Bool → Trace → RunResult × Bool × Trace) (r : Round)
    → ((res : RunResult) (fenced : Bool) (tr : Trace)
        → IsTidyAt fenced tr
        → IsTidyAt (next res fenced tr).1 (next res fenced tr).2)
    → IsTidyRound r
    → IsTidyAt (go_on next r).1 (go_on next r).2
go_on-IsTidy next (stop res fenced tr) k h = h
go_on-IsTidy next (again res fenced tr) k h = k res fenced tr h

attempts_from-IsTidy :
    (env : Env) (pol : Policy) (host : Addr) (due : ℤ) (n attempt : ℕ) (res : RunResult)
    (fenced : Bool) (tr : Trace)
    → IsTidyAt fenced tr
    → let end = attempts_from env pol host due n attempt res fenced tr in IsTidyAt end.1 end.2
unfolding attempts_from
attempts_from-IsTidy env pol host due zero attempt res fenced tr h = h
attempts_from-IsTidy env pol host due (suc n) attempt res fenced tr h =
    let next = attempts_from env pol host due n (suc attempt) in
    let tidy = attempts_from-IsTidy env pol host due n (suc attempt) in
    elim (Bool-cases (attempt_fits pol (due -ℤ pos (env.now tr)) attempt)) [
      | inr late ↦ elim (Bool-cases (attempt == 1)) [
        | inl first ↦ rw (late, first) h
        | inr later ↦ rw (late, later) h
      ]
      | inl fits ↦ rw fits (
          go_on-IsTidy next (try_once env pol host attempt res fenced tr) tidy
            (try_once-IsTidy env pol host attempt res fenced tr h))
    ]

release_undoes :
    (env : Env) (done : RunResult × Bool × Trace)
    → IsTidyAt done.1 done.2
    → let end = (release env done).1 in (left_fenced end ≡ false) × (left_off end ≡ false)
unfolding release guard_unfence after_unfence
release_undoes env (res, fenced, tr) h = ground arith

attempts_undo :
    (env : Env) (pol : Policy) (host : Addr) (due : ℤ) (res : RunResult) (tr : Trace)
    → left_fenced tr ≡ false
    → left_off tr ≡ false
    → let done = attempts_from env pol host due (pos_part pol.max_attempts) 1 res false tr in
      let end = (release env done).1 in (left_fenced end ≡ false) × (left_off end ≡ false)
attempts_undo env pol host due res tr f h =
    release_undoes env (attempts_from env pol host due (pos_part pol.max_attempts) 1 res false tr) (
      attempts_from-IsTidy env pol host due (pos_part pol.max_attempts) 1 res false tr
        (λ e. sym f ∙ e, h))

from_probe_undoes :
    (env : Env) (pol : Policy) (host : Addr) (due : ℤ) (tr : Trace) (p : Probe)
    → left_fenced tr ≡ false
    → left_off tr ≡ false
    → let end = (from_probe env pol host due tr p).1 in
      (left_fenced end ≡ false) × (left_off end ≡ false)
unfolding from_probe
from_probe_undoes env pol host due tr (leaked seen) f h = (f, h)
from_probe_undoes env pol host due tr (clean seen) f h =
    attempts_undo env pol host due (record empty_result { old = seen }) tr f h
from_probe_undoes env pol host due tr broken f h =
    attempts_undo env pol host due
      (record empty_result {
        old = elim (env.status tr) [ none ↦ Addr.invalid | some st ↦ st.wan_ip ];
      })
      (status_asked ∷ tr) f h

from_sim_undoes :
    (env : Env) (pol : Policy) (host : Addr) (due : ℤ) (tr : Trace) (sim : Option ℕ)
    → left_fenced tr ≡ false
    → left_off tr ≡ false
    → let end = (from_sim env pol host due tr sim).1 in
      (left_fenced end ≡ false) × (left_off end ≡ false)
unfolding from_sim
from_sim_undoes env pol host due tr none f h = (f, h)
from_sim_undoes env pol host due tr (some sim) f h = elim (Bool-cases (sim_locked sim)) [
  | inl locked ↦ rw locked (f, h)
  | inr free ↦ rw free (
      from_probe_undoes env pol host due (probed ∷ tr) (probe_egress host (env.probe_source tr)) f
        h)
]

-- Whatever the outside world answers, a run that starts with nothing fenced and mobile data not
-- switched off ends so that every successful Fence is followed by a call of Unfence, and every
-- successful DataSwitch(false) by a call of DataSwitch(true).
pub execute_undoes :
    (env : Env) (pol : Policy) (occupied : Bool) (host : Addr) (tr : Trace)
    → left_fenced tr ≡ false
    → left_off tr ≡ false
    → let end = (execute env pol occupied host tr).1 in
      (left_fenced end ≡ false) × (left_off end ≡ false)
unfolding execute
execute_undoes env pol false host tr f h = (f, h)
execute_undoes env pol true host tr f h =
    let ready = progressed RotateStep.precheck ∷ tr in
    elim (Bool-cases (env.for_slot ready)) [
      | inr gone ↦ rw gone (f, h)
      | inl found ↦ rw found (
          from_sim_undoes env pol host (pos (env.now tr) +ℤ pol.hard_deadline) (sim_asked ∷ ready)
            (env.pin_status ready) f h)
    ]
