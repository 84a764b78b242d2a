-- ===== src/Devops/Reboot/Stages.antt =====
-- How far a reboot has come, as the loops of devops/reboot.go see it.
use huawei_api.Base.{
  ℕ, ◌≤◌, ◌≡◌, ◌≢◌, refl, ap, inl, inr, true, ◌==◌, if◌then◌else◌, Bool-cases, Option, some, none,
  [], ◌∷◌, arith,
}
use huawei_api.Base.Int.{ℤ}
use huawei_api.Reconcile.World.{sim_locked, is_connected}
use huawei_api.Devops.Watch.{
  accepted, lost, LinkStatus, Call, reboot_called, reachable_asked, status_asked, pin_asked,
  switched_on, Trace, Env,
}
use huawei_api.Devops.Watch.Ends.{ClockLaws}
use huawei_api.Devops.Watch.Rule.{LookHolds, LoopLaws}
use huawei_api.Devops.Reboot.{
  Fault, unreachable, poll_timeout, no_fuel, Seen, down_from_status, down_look, wait_down_loop,
  up_from_pin, up_look, wait_up_loop, conn_from_status, or_else, conn_look, poll_conn_loop,
}

-- How far a reboot has come, as its calls show.
pub data Stage : Type 0 where
  fresh reboot_sent unlocked switched connected : Stage

-- The Reboot call ends without an error, or with ErrUnreachable (`lost`), of which the code cannot tell
-- whether the device took the command; then the device answers with no PIN in the way, has its mobile
-- data switched on, and reports 901.
abbrev pub advance : Stage → Call → Stage
advance fresh (reboot_called accepted) = reboot_sent
advance fresh (reboot_called lost) = reboot_sent
advance reboot_sent (pin_asked (some sim)) = if sim_locked sim then reboot_sent else unlocked
advance unlocked (switched_on true) = switched
advance switched (status_asked (some st)) = if st.conn == 901 then connected else switched
advance s _ = s

abbrev pub stage : Trace → Stage
stage [] = fresh
stage (c ∷ tr) = advance (stage tr) c

abbrev pub FaultOr : Stage → Option Fault → Trace → Type 0
FaultOr goal none tr = stage tr ≡ goal
FaultOr goal (some f) tr = f ≢ no_fuel

abbrev pub SeenAt : Stage → Option Fault → Trace → Type 0
SeenAt here last tr = (stage tr ≡ here) × (last ≢ some no_fuel)

module _ (env : Env) (interval : ℤ) where
  down_from_status-Holds :
      (answer : Option LinkStatus) (tr : Trace)
      → stage tr ≡ reboot_sent
      → let end = down_from_status answer (status_asked answer ∷ tr) in
        LookHolds env interval wait_down_loop
          (λ _ tr'. stage tr' ≡ reboot_sent)
          (λ _ tr'. stage tr' ≡ reboot_sent)
          end.0
          end.1
  down_from_status-Holds none tr h = rw h refl
  down_from_status-Holds (some st) tr h = elim (Bool-cases (is_connected st.conn)) [
    | inl up ↦ rw (up, h) refl
    | inr down ↦ rw (down, h) refl
  ]

  down_look-Holds :
      (s : Unit {0}) (tr : Trace)
      → stage tr ≡ reboot_sent
      → let end = down_look env s tr in
        LookHolds env interval wait_down_loop
          (λ _ tr'. stage tr' ≡ reboot_sent)
          (λ _ tr'. stage tr' ≡ reboot_sent)
          end.0
          end.1
  unfolding down_look
  down_look-Holds s tr h = elim (Bool-cases (env.reachable tr)) [
    | inl up ↦ rw up (
        down_from_status-Holds (env.status (reachable_asked true ∷ tr)) (reachable_asked true ∷ tr)
          (rw h refl))
    | inr down ↦ rw (down, h) refl
  ]

  pub down_laws :
      LoopLaws env interval wait_down_loop
        (λ _ tr. stage tr ≡ reboot_sent)
        (λ _ tr. stage tr ≡ reboot_sent)
  down_laws = record {
    looks = down_look-Holds;
    lates = λ s tr h. h;
    breaks = λ s tr h. rw h refl;
    sleeps = λ s tr h. rw h refl;
  }

  up_from_pin-Holds :
      (answer : Option ℕ) (tr : Trace)
      → stage tr ≡ reboot_sent
      → let end = up_from_pin answer (pin_asked answer ∷ tr) in
        LookHolds env interval wait_up_loop (SeenAt reboot_sent) (FaultOr unlocked) end.0 end.1
  up_from_pin-Holds none tr h = (rw h refl, λ e. cc)
  up_from_pin-Holds (some sim) tr h = elim (Bool-cases (sim_locked sim)) [
    | inl locked ↦ rw locked (λ e. cc)
    | inr free ↦ rw (free, h, free) refl
  ]

  up_look-Holds :
      (s : Seen) (tr : Trace)
      → SeenAt reboot_sent s tr
      → let end = up_look env s tr in
        LookHolds env interval wait_up_loop (SeenAt reboot_sent) (FaultOr unlocked) end.0 end.1
  unfolding up_look
  up_look-Holds s tr h = elim (Bool-cases (env.reachable tr)) [
    | inl up ↦ rw up (
        up_from_pin-Holds (env.pin_status (reachable_asked true ∷ tr)) (reachable_asked true ∷ tr)
          (rw h.0 refl))
    | inr down ↦ rw down (rw h.0 refl, h.1)
  ]

  or_else-FaultOr :
      (goal : Stage) (last : Seen) (f : Fault) (tr : Trace)
      → last ≢ some no_fuel
      → f ≢ no_fuel
      → FaultOr goal (or_else last f) tr
  or_else-FaultOr goal none f tr h hf = hf
  or_else-FaultOr goal (some last) f tr h hf = λ e. h (ap some e)

  pub up_laws : LoopLaws env interval wait_up_loop (SeenAt reboot_sent) (FaultOr unlocked)
  up_laws = record {
    looks = up_look-Holds;
    lates = λ s tr h. or_else-FaultOr unlocked s unreachable tr h.1 (λ e. cc);
    breaks = λ s tr h e. cc;
    sleeps = λ s tr h. (rw h.0 refl, h.1);
  }

  conn_from_status-Holds :
      (answer : Option LinkStatus) (s : Seen) (tr : Trace)
      → SeenAt switched s tr
      → LookHolds env interval
          (poll_conn_loop 901)
          (SeenAt switched)
          (FaultOr connected)
          (conn_from_status 901 s answer)
          (status_asked answer ∷ tr)
  conn_from_status-Holds none s tr h = (rw h.0 refl, λ e. cc)
  conn_from_status-Holds (some st) s tr h = elim (Bool-cases (st.conn == 901)) [
    | inl up ↦ rw (up, h.0, up) refl
    | inr down ↦ rw down ((rw (h.0, down) refl, h.1))
  ]

  conn_look-Holds :
      (s : Seen) (tr : Trace)
      → SeenAt switched s tr
      → let end = conn_look 901 env s tr in
        LookHolds env interval
          (poll_conn_loop 901)
          (SeenAt switched)
          (FaultOr connected)
          end.0
          end.1
  unfolding conn_look
  conn_look-Holds s tr h = conn_from_status-Holds (env.status tr) s tr h

  pub conn_laws : LoopLaws env interval (poll_conn_loop 901) (SeenAt switched) (FaultOr connected)
  conn_laws = record {
    looks = conn_look-Holds;
    lates = λ s tr h. or_else-FaultOr connected s poll_timeout tr h.1 (λ e. cc);
    breaks = λ s tr h e. cc;
    sleeps = λ s tr h. (rw h.0 refl, h.1);
  }

module _ (env : Env) (laws : ClockLaws env) where
  down_from_status-onward :
      (answer : Option LinkStatus) (tr : Trace)
      → env.now tr ≤ env.now (down_from_status answer tr).1
  down_from_status-onward none tr = omega arith
  down_from_status-onward (some st) tr = omega arith

  pub down_look-onward : (s : Unit {0}) (tr : Trace) → env.now tr ≤ env.now (down_look env s tr).1
  unfolding down_look
  down_look-onward s tr =
      let asked = reachable_asked (env.reachable tr) ∷ tr in
      ground (
        arith,
        laws.onward (reachable_asked (env.reachable tr)) tr,
        laws.onward (status_asked (env.status asked)) asked,
        down_from_status-onward (env.status asked) (status_asked (env.status asked) ∷ asked),
      )

  up_from_pin-onward :
      (answer : Option ℕ) (tr : Trace) → env.now tr ≤ env.now (up_from_pin answer tr).1
  up_from_pin-onward none tr = omega arith
  up_from_pin-onward (some sim) tr = omega arith

  pub up_look-onward : (s : Seen) (tr : Trace) → env.now tr ≤ env.now (up_look env s tr).1
  unfolding up_look
  up_look-onward s tr =
      let asked = reachable_asked (env.reachable tr) ∷ tr in
      ground (
        arith,
        laws.onward (reachable_asked (env.reachable tr)) tr,
        laws.onward (pin_asked (env.pin_status asked)) asked,
        up_from_pin-onward (env.pin_status asked) (pin_asked (env.pin_status asked) ∷ asked),
      )

  pub conn_look-onward : (s : Seen) (tr : Trace) → env.now tr ≤ env.now (conn_look 901 env s tr).1
  unfolding conn_look
  conn_look-onward s tr = laws.onward (status_asked (env.status tr)) tr
