-- ===== src/Rotate/Run/Poll.antt =====
-- The loop of pollConn in rotate/rotate.go, with what it relies on of the clock.
use native.Mathlib.Nat.{lt-div-mul-add}
use huawei_api.Base.{
  ℕ, zero, suc, ◌+◌, ◌*◌, ◌/◌, ◌≤◌, ◌<◌, ◌≡◌, ◌≢◌, inl, inr, Bool, true, false, Bool-cases, ◌∷◌,
  arith,
}
use huawei_api.Base.Int.{ℤ, pos, ◌+ℤ◌, +ℤ_parts, pos_part}
use huawei_api.Rotate.Policy.{Policy}
use huawei_api.Rotate.Run.{Call, status_asked, slept, Trace, Env, out_of_fuel, poll, poll_conn}

-- The clock never runs back, and a sleep that succeeds takes its time.
pub record ClockLaws (env : Env) : Type 0 where
  pub onward : (c : Call) (tr : Trace) → env.now tr ≤ env.now (c ∷ tr)
  pub sleeps :
      (d : ℤ) (tr : Trace) → env.sleep d tr ≡ true → env.now tr + pos_part d ≤ env.now (slept ∷ tr)

poll_returns :
    (env : Env) (pol : Policy) (want : ℕ) (deadline : ℤ) (fuel : ℕ) (failing : Bool) (tr : Trace)
    → ClockLaws env
    → pos_part deadline ≤ env.now tr + fuel * pos_part pol.poll_interval
    → (poll env pol want deadline (suc fuel) failing tr).0 ≢ out_of_fuel
unfolding poll
poll_returns env pol want deadline zero failing tr laws h =
    ground (arith, laws.onward status_asked tr)
poll_returns env pol want deadline (suc fuel) failing tr laws h =
    let asked = status_asked ∷ tr in
    let later = laws.onward status_asked tr in
    let next = λ (b : Bool). poll_returns env pol want deadline fuel b (slept ∷ asked) laws in
    elim (Bool-cases (env.sleep pol.poll_interval asked)) [
      | inr woken ↦ ground arith
      | inl rested ↦
          let due = laws.sleeps pol.poll_interval asked rested in
          let in_time : pos_part deadline
              ≤ env.now (slept ∷ asked) + fuel * pos_part pol.poll_interval =
            omega (arith, due, later, h) in
          ground (arith, next true in_time, next failing in_time)
    ]

-- Under a positive poll interval, a clock that never runs back and sleeps that take their time, the
-- poll ends with an answer: its fuel is enough.
pub poll_conn_returns :
    (env : Env) (pol : Policy) (want : ℕ) (budget : ℤ) (tr : Trace)
    → ClockLaws env
    → 0 < pos_part pol.poll_interval
    → (poll_conn env pol want budget tr).0 ≢ out_of_fuel
unfolding poll_conn
poll_conn_returns env pol want budget tr laws positive =
    poll_returns env pol want (pos (env.now tr) +ℤ budget)
      (suc (pos_part budget / pos_part pol.poll_interval)) false tr laws
      (ground
        (arith, lt-div-mul-add {a = pos_part budget} positive, +ℤ_parts (pos (env.now tr)) budget))
