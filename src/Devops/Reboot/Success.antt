-- ===== src/Devops/Reboot/Success.antt =====
-- What stands behind the result of runReboot (devops/reboot.go).
use huawei_api.Base.{
  ℕ, ◌<◌, ◌≡◌, ◌≢◌, refl, ◌∙◌, inl, inr, Bool, true, Bool-cases, Option, some, none, [], ◌∷◌,
}
use huawei_api.Base.Int.{ℤ, pos_part}
use huawei_api.Devops.Watch.{
  RebootStep, RebootAnswer, accepted, lost, rejected, LinkStatus, stepped, reboot_called,
  switched_on, Trace, Env, watch,
}
use huawei_api.Devops.Watch.Ends.{ClockLaws, watch_ends}
use huawei_api.Devops.Watch.Rule.{Holds, watch-Holds}
use huawei_api.Devops.Reboot.{
  Timeouts, Fault, no_fuel, wait_down_loop, wait_up_loop, poll_conn_loop, RebootResult, verified,
  blank_result, Run, run_verify, run_connected, run_data_on, run_up, run_down, run_rebooted,
  run_reboot,
}
use huawei_api.Devops.Reboot.Stages.{
  fresh, reboot_sent, unlocked, switched, connected, stage, FaultOr, SeenAt, down_laws, up_laws,
  conn_laws, down_look-onward, up_look-onward, conn_look-onward,
}

-- A success comes from a device that answers and is connected; an error is one of the code's own.
abbrev pub IsBack : Run → Type 0
IsBack run = elim run.error [
  | none ↦ (run.result.reachable ≡ true) × (stage run.trace ≡ connected)
  | some f ↦ f ≢ no_fuel
]

module _ (env : Env) (laws : ClockLaws env) where
  verified-reachable :
      (answer : Option LinkStatus) (res : RebootResult)
      → (verified answer res).reachable ≡ res.reachable
  verified-reachable none res = refl
  verified-reachable (some st) res = refl

  run_verify-IsBack :
      (start : ℕ) (res : RebootResult) (tr : Trace)
      → res.reachable ≡ true
      → stage tr ≡ connected
      → IsBack (run_verify env start res tr)
  unfolding run_verify
  run_verify-IsBack start res tr back h =
      (verified-reachable (env.status (stepped RebootStep.verify ∷ tr)) res ∙ back, rw h refl)

  run_connected-IsBack :
      (interval : ℤ) (start : ℕ) (res : RebootResult) (polled : Option (Option Fault)) (tr : Trace)
      → res.reachable ≡ true
      → polled ≢ none
      → Holds env interval (poll_conn_loop 901) (SeenAt switched) (FaultOr connected) polled tr
      → IsBack (run_connected env start res polled tr)
  unfolding run_connected
  run_connected-IsBack interval start res none tr back ends h = absurd (ends refl)
  run_connected-IsBack interval start res (some none) tr back ends h =
      run_verify-IsBack start res tr back h
  run_connected-IsBack interval start res (some (some f)) tr back ends h = h

  module _ (to : Timeouts) (positive : 0 < pos_part to.poll_interval) where
    run_data_on-IsBack :
        (start : ℕ) (res : RebootResult) (tr : Trace)
        → res.reachable ≡ true
        → stage tr ≡ unlocked
        → IsBack (run_data_on env to start res tr)
    unfolding run_data_on
    run_data_on-IsBack start res tr back h =
        let ready = stepped RebootStep.data_on ∷ tr in
        let called = switched_on true ∷ ready in
        let loop = poll_conn_loop 901 in
        elim (Bool-cases (env.data_on ready)) [
          | inr off ↦ rw off (λ e. cc)
          | inl on ↦ rw on (
              run_connected-IsBack to.poll_interval start res
                (watch env to.poll_interval loop to.connect_timeout none called).0
                (watch env to.poll_interval loop to.connect_timeout none called).1 back
                (watch_ends env to.poll_interval loop laws (conn_look-onward env laws)
                  to.connect_timeout none called positive)
                (watch-Holds env to.poll_interval loop (SeenAt switched) (FaultOr connected)
                  (conn_laws env to.poll_interval) to.connect_timeout none called
                  (rw h refl, λ e. cc)))
        ]

    run_up-IsBack :
        (start : ℕ) (res : RebootResult) (answer : Option (Option Fault)) (tr : Trace)
        → answer ≢ none
        → Holds env to.poll_interval wait_up_loop (SeenAt reboot_sent) (FaultOr unlocked) answer tr
        → IsBack (run_up env to start res answer tr)
    unfolding run_up
    run_up-IsBack start res none tr ends h = absurd (ends refl)
    run_up-IsBack start res (some none) tr ends h =
        run_data_on-IsBack start (record res { reachable = true }) tr refl h
    run_up-IsBack start res (some (some f)) tr ends h = h

    run_down-IsBack :
        (start : ℕ) (answer : Option Bool) (tr : Trace)
        → answer ≢ none
        → Holds env to.poll_interval wait_down_loop
            (λ _ tr'. stage tr' ≡ reboot_sent)
            (λ _ tr'. stage tr' ≡ reboot_sent)
            answer
            tr
        → IsBack (run_down env to start answer tr)
    unfolding run_down
    run_down-IsBack start none tr ends h = absurd (ends refl)
    run_down-IsBack start (some down) tr ends h =
        let called = stepped RebootStep.wait_up ∷ tr in
        run_up-IsBack start (record blank_result { down_observed = down })
          (watch env to.poll_interval wait_up_loop to.reboot_wait_up none called).0
          (watch env to.poll_interval wait_up_loop to.reboot_wait_up none called).1
          (watch_ends env to.poll_interval wait_up_loop laws (up_look-onward env laws)
            to.reboot_wait_up none called positive)
          (watch-Holds env to.poll_interval wait_up_loop (SeenAt reboot_sent) (FaultOr unlocked)
            (up_laws env to.poll_interval) to.reboot_wait_up none called (rw h refl, λ e. cc))

    -- The rest of runReboot after a Reboot call that ends well or with ErrUnreachable.
    awaited-IsBack :
        (start : ℕ) (tr : Trace)
        → stage tr ≡ reboot_sent
        → let called = stepped RebootStep.wait_down ∷ tr in
          let end = watch env to.poll_interval wait_down_loop to.reboot_wait_down tt called in
          IsBack (run_down env to start end.0 end.1)
    awaited-IsBack start tr h =
        let called = stepped RebootStep.wait_down ∷ tr in
        run_down-IsBack start
          (watch env to.poll_interval wait_down_loop to.reboot_wait_down tt called).0
          (watch env to.poll_interval wait_down_loop to.reboot_wait_down tt called).1
          (watch_ends env to.poll_interval wait_down_loop laws (down_look-onward env laws)
            to.reboot_wait_down tt called positive)
          (watch-Holds env to.poll_interval wait_down_loop (λ _ tr'. stage tr' ≡ reboot_sent)
            (λ _ tr'. stage tr' ≡ reboot_sent) (down_laws env to.poll_interval) to.reboot_wait_down
            tt called (rw h refl))

    run_rebooted-IsBack :
        (start : ℕ) (answer : RebootAnswer) (tr : Trace)
        → stage tr ≡ fresh
        → IsBack (run_rebooted env to start answer (reboot_called answer ∷ tr))
    unfolding run_rebooted
    run_rebooted-IsBack start accepted tr h =
        awaited-IsBack start (reboot_called accepted ∷ tr) (rw h refl)
    run_rebooted-IsBack start lost tr h = awaited-IsBack start (reboot_called lost ∷ tr) (rw h refl)
    run_rebooted-IsBack start rejected tr h = λ e. cc

-- With a clock that goes forward and a positive poll interval, runReboot always returns: with an error
-- of its own, or with success. On success the result says reachable, and the calls show in this order
-- that the Reboot call ended without an error or with ErrUnreachable, that the device answered PinStatus
-- unlocked, had its mobile data switched on, and reported the status 901. Whether it took the command
-- is not said: a call that ends with ErrUnreachable may never have reached it.
pub run_reboot-IsBack :
    (env : Env) (to : Timeouts)
    → ClockLaws env
    → 0 < pos_part to.poll_interval
    → IsBack (run_reboot env to [])
unfolding run_reboot
run_reboot-IsBack env to laws positive =
    let ready = stepped RebootStep.precheck ∷ [] in
    let calling = stepped RebootStep.reboot ∷ ready in
    elim (Bool-cases (env.for_slot ready)) [
      | inl found ↦
          rw found (
            run_rebooted-IsBack env laws to positive (env.now []) (env.reboot calling) calling refl)
      | inr missing ↦ rw missing (λ e. cc)
    ]
