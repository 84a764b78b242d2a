-- ===== src/Rotate/Run/Ends.antt =====
-- The polls of a whole run of rotate/rotate.go.
use huawei_api.Base.{
  ℕ, zero, suc, ◌+◌, ◌<◌, ◌≡◌, ◌≢◌, refl, inl, inr, Bool, true, false, not, ◌&&◌, ◌==◌, ltb,
  Bool-cases, Option, some, none, ◌∷◌, arith,
}
use huawei_api.Base.Int.{ℤ, pos, ◌+ℤ◌, ◌-ℤ◌, pos_part}
use huawei_api.Domain.Addr.{Addr, is_valid, addr_eq}
use huawei_api.Domain.Enums.{RotateStep}
use huawei_api.Reconcile.World.{sim_locked}
use huawei_api.Rotate.Policy.{Policy, hold_for, attempt_fits}
use huawei_api.Rotate.Run.Poll.{ClockLaws, poll_conn_returns}
use huawei_api.Rotate.Run.{
  lifted, unknown_iface, refused, FwAnswer, progressed, sim_asked, status_asked, probed,
  sockets_killed, conntrack_flushed, slept, switched, fence_called, Trace, Env, PollResult, reached,
  device_failed, timed_out, interrupted, out_of_fuel, poll_conn, disconnect_budget, poll_timeout,
  fence_failed, no_fuel, RunError, after_unfence, guard_unfence, cycle_connected, cycle_on,
  restored, cycle_hold, cycle_disconnected, cycle_off, cycle, RunResult, empty_result, Probe, clean,
  leaked, broken, probe_egress, Round, stop, again, verify, after_cycle, try_once, go_on,
  attempts_from, release, from_probe, from_sim, execute,
}

module _ (env : Env) (pol : Policy) (laws : ClockLaws env)
    (positive : 0 < pos_part pol.poll_interval) where
  after_unfence_ends :
      (killed : ℕ) (answer : FwAnswer) (tr : Trace)
      → (after_unfence killed answer tr).error ≢ some no_fuel
  unfolding after_unfence
  after_unfence_ends killed lifted tr e = ground arith
  after_unfence_ends killed unknown_iface tr e = ground arith
  after_unfence_ends killed refused tr e = ground arith

  cycle_connected_ends :
      (killed : ℕ) (result : PollResult) (tr : Trace)
      → result ≢ out_of_fuel
      → (cycle_connected env killed result tr).error ≢ some no_fuel
  unfolding cycle_connected guard_unfence
  cycle_connected_ends killed reached tr h =
      let lifting = progressed RotateStep.unfence ∷ tr in
      after_unfence_ends killed (env.unfence lifting) lifting
  cycle_connected_ends killed device_failed tr h = λ e. ground arith
  cycle_connected_ends killed timed_out tr h = λ e. ground arith
  cycle_connected_ends killed interrupted tr h = λ e. ground arith
  cycle_connected_ends killed out_of_fuel tr h = λ e. h refl

  cycle_on_ends : (killed : ℕ) (tr : Trace) → (cycle_on env pol killed tr).error ≢ some no_fuel
  unfolding cycle_on
  cycle_on_ends killed tr =
      let waiting = progressed RotateStep.wait_connect ∷ tr in
      let end = poll_conn env pol 901 pol.wait_connect waiting in
      cycle_connected_ends killed end.0 end.1
        (poll_conn_returns env pol 901 pol.wait_connect waiting laws positive)

  cycle_hold_ends :
      (killed : ℕ) (hold : ℤ) (tr : Trace)
      → (cycle_hold env pol killed hold tr).error ≢ some no_fuel
  unfolding cycle_hold restored
  cycle_hold_ends killed hold tr =
      let holding = progressed RotateStep.hold ∷ tr in
      let waking = progressed RotateStep.data_on ∷ slept ∷ holding in
      elim (Bool-cases (env.sleep hold holding)) [
        | inr woken ↦ rw woken (λ e. ground arith)
        | inl slept_well ↦ elim (Bool-cases (env.data_switch true waking)) [
          | inl back ↦ rw (slept_well, back) (cycle_on_ends killed (switched true true ∷ waking))
          | inr stuck ↦ rw (slept_well, stuck) (λ e. ground arith)
        ]
      ]

  cycle_disconnected_ends :
      (killed : ℕ) (hold : ℤ) (result : PollResult) (tr : Trace)
      → result ≢ out_of_fuel
      → (cycle_disconnected env pol killed hold result tr).error ≢ some no_fuel
  unfolding cycle_disconnected restored
  cycle_disconnected_ends killed hold reached tr h = cycle_hold_ends killed hold tr
  cycle_disconnected_ends killed hold timed_out tr h = cycle_hold_ends killed hold tr
  cycle_disconnected_ends killed hold device_failed tr h = λ e. ground arith
  cycle_disconnected_ends killed hold interrupted tr h = λ e. ground arith
  cycle_disconnected_ends killed hold out_of_fuel tr h = λ e. h refl

  cycle_ends :
      (hold : ℤ) (fenced : Bool) (tr : Trace) → (cycle env pol hold fenced tr).error ≢ some no_fuel
  unfolding cycle cycle_off
  cycle_ends hold fenced tr =
      let asking = progressed RotateStep.fence ∷ tr in
      let up = fence_called true ∷ asking in
      let ready = progressed RotateStep.data_off ∷ conntrack_flushed ∷ sockets_killed ∷ up in
      let budget = disconnect_budget pol in
      let off = switched false true ∷ ready in
      let end = poll_conn env pol 902 budget off in
      elim (Bool-cases (env.fence asking)) [
        | inr down ↦ rw down (λ e. ground arith)
        | inl raised ↦ elim (Bool-cases (env.data_switch false ready)) [
          | inr on ↦ rw (raised, on) (λ e. ground arith)
          | inl gone ↦
              rw (raised, gone)
                (cycle_disconnected_ends (env.kill_sockets up) hold end.0 end.1
                  (poll_conn_returns env pol 902 budget off laws positive))
        ]
      ]

  -- A round has not run out of fuel, and goes on only without an error.
  abbrev HasFuel : Round → Type 0
  HasFuel (stop res fenced tr) = res.error ≢ some no_fuel
  HasFuel (again res fenced tr) = res.error ≡ none

  verify-HasFuel :
      (more : Bool) (res : RunResult) (fenced : Bool) (tr : Trace) (p : Probe)
      → res.error ≡ none
      → HasFuel (verify more res fenced tr p)
  unfolding verify
  verify-HasFuel more res fenced tr (leaked seen) h = λ e. ground arith
  verify-HasFuel true res fenced tr broken h = h
  verify-HasFuel false res fenced tr broken h = λ e. ground arith
  verify-HasFuel more res fenced tr (clean seen) h =
      elim (Bool-cases (is_valid seen && is_valid res.old && not (addr_eq seen res.old))) [
        | inr same ↦ rw same h
        | inl moved ↦ rw moved (λ e. ground arith)
      ]

  after_cycle-HasFuel :
      (host : Addr) (more : Bool) (res : RunResult) (fenced : Bool) (tr : Trace)
      (error : Option RunError)
      → res.error ≡ none
      → error ≢ some no_fuel
      → HasFuel (after_cycle env host more res fenced tr error)
  unfolding after_cycle
  after_cycle-HasFuel host more res fenced tr none h n =
      let checking = progressed RotateStep.verify ∷ tr in
      verify-HasFuel more res fenced (probed ∷ checking)
        (probe_egress host (env.probe_source checking)) h
  after_cycle-HasFuel host true res fenced tr (some poll_timeout) h n = h
  after_cycle-HasFuel host false res fenced tr (some poll_timeout) h n = λ e. ground arith
  after_cycle-HasFuel host more res fenced tr (some fence_failed) h n = λ e. ground arith
  after_cycle-HasFuel host more res fenced tr (some _) h n = n

  go_on_ends :
      (next : RunResult → Bool → Trace → RunResult × Bool × Trace) (r : Round)
      → ((res : RunResult) (fenced : Bool) (tr : Trace)
          → res.error ≡ none
          → (next res fenced tr).0.error ≢ some no_fuel)
      → HasFuel r
      → (go_on next r).0.error ≢ some no_fuel
  go_on_ends next (stop res fenced tr) k h = h
  go_on_ends next (again res fenced tr) k h = k res fenced tr h

  attempts_from_ends :
      (host : Addr) (due : ℤ) (n attempt : ℕ) (res : RunResult) (fenced : Bool) (tr : Trace)
      → res.error ≡ none
      → (attempts_from env pol host due n attempt res fenced tr).0.error ≢ some no_fuel
  unfolding attempts_from try_once
  attempts_from_ends host due zero attempt res fenced tr h = λ e. ground arith
  attempts_from_ends host due (suc n) attempt res fenced tr h =
      let hold = hold_for pol attempt in
      let c = cycle env pol hold fenced tr in
      let more = ltb attempt (pos_part pol.max_attempts) in
      let tried = record res {
        attempts = attempt;
        hold = hold;
        conns_killed = res.conns_killed + c.killed;
      } in
      elim (Bool-cases (attempt_fits pol (due -ℤ pos (env.now tr)) attempt)) [
        | inr late ↦ elim (Bool-cases (attempt == 1)) [
          | inl first ↦ rw (late, first) (λ e. ground arith)
          | inr later ↦ rw (late, later) (λ e. ground arith)
        ]
        | inl fits ↦ rw fits (
            go_on_ends (attempts_from env pol host due n (suc attempt))
              (try_once env pol host attempt res fenced tr)
              (attempts_from_ends host due n (suc attempt))
              (after_cycle-HasFuel host more tried c.fenced c.trace c.error h
                (cycle_ends hold fenced tr)))
      ]

  from_probe_ends :
      (host : Addr) (due : ℤ) (tr : Trace) (p : Probe)
      → (from_probe env pol host due tr p).0.error ≢ some no_fuel
  unfolding from_probe release
  from_probe_ends host due tr (leaked seen) = λ e. ground arith
  from_probe_ends host due tr (clean seen) =
      attempts_from_ends host due (pos_part pol.max_attempts) 1 (record empty_result { old = seen })
        false tr refl
  from_probe_ends host due tr broken =
      attempts_from_ends host due (pos_part pol.max_attempts) 1
        (record empty_result {
          old = elim (env.status tr) [ none ↦ Addr.invalid | some st ↦ st.wan_ip ];
        })
        false (status_asked ∷ tr) refl

  from_sim_ends :
      (host : Addr) (due : ℤ) (tr : Trace) (sim : Option ℕ)
      → (from_sim env pol host due tr sim).0.error ≢ some no_fuel
  unfolding from_sim
  from_sim_ends host due tr none = λ e. ground arith
  from_sim_ends host due tr (some sim) = elim (Bool-cases (sim_locked sim)) [
    | inl locked ↦ rw locked (λ e. ground arith)
    | inr free ↦
        rw free (from_probe_ends host due (probed ∷ tr) (probe_egress host (env.probe_source tr)))
  ]

  -- Under a positive poll interval, a clock that never runs back and sleeps that take their time,
  -- no poll of a run outlasts its fuel: the run never ends in the error for that.
  pub execute_ends :
      (occupied : Bool) (host : Addr) (tr : Trace)
      → (execute env pol occupied host tr).0.error ≢ some no_fuel
  unfolding execute
  execute_ends false host tr = λ e. ground arith
  execute_ends true host tr =
      let ready = progressed RotateStep.precheck ∷ tr in
      elim (Bool-cases (env.for_slot ready)) [
        | inr gone ↦ rw gone (λ e. ground arith)
        | inl found ↦ rw found (
            from_sim_ends host (pos (env.now tr) +ℤ pol.hard_deadline) (sim_asked ∷ ready)
              (env.pin_status ready))
      ]
