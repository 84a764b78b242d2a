-- ===== src/Devops/Watch/Ends.antt =====
-- The loops of devops/reboot.go under a clock that goes forward.
use native.Mathlib.Nat.{lt-div-mul-add}
use huawei_api.Base.{
  ℕ, zero, suc, ◌+◌, ◌*◌, ◌/◌, ◌≤◌, ◌<◌, ◌≡◌, ◌≢◌, true, Option, none, ◌∷◌, arith,
}
use huawei_api.Base.Int.{ℤ, pos, ◌+ℤ◌, +ℤ_parts, pos_part}
use huawei_api.Devops.Watch.{
  Call, slept, Trace, Env, Look, decided, undecided, Loop, after_look, watch_from, watch,
}

-- The clock never runs back, and a sleep that succeeds takes its time.
pub record ClockLaws (env : Env) : Type 0 where
  pub onward : (c : Call) (tr : Trace) → env.now tr ≤ env.now (c ∷ tr)
  pub sleeps :
      (d : ℤ) (tr : Trace)
      → env.sleep d tr ≡ true
      → env.now tr + pos_part d ≤ env.now (slept true ∷ tr)

module _ {ℓ} {S R : Type ℓ} (env : Env) (interval : ℤ) (loop : Loop S R) (laws : ClockLaws env)
    (onward : (s : S) (tr : Trace) → env.now tr ≤ env.now (loop.look env s tr).1) where
  after_look_ends :
      (deadline : ℤ) (looked : Trace) (next : S → Option R × Trace) (seen : Look S R)
      → ((s : S)
          → env.now looked < pos_part deadline
          → env.sleep interval looked ≡ true
          → (next s).0 ≢ none)
      → (after_look env interval loop deadline looked next seen).0 ≢ none
  unfolding after_look
  after_look_ends deadline looked next (decided r) k = λ e. cc
  after_look_ends deadline looked next (undecided s) k = ground (arith, k s)

  watch_from_ends :
      (deadline : ℤ) (fuel : ℕ) (s : S) (tr : Trace)
      → pos_part deadline ≤ env.now tr + fuel * pos_part interval
      → (watch_from env interval loop deadline (suc fuel) s tr).0 ≢ none
  unfolding watch_from
  watch_from_ends deadline zero s tr h =
      let looked = (loop.look env s tr).1 in
      let later = onward s tr in
      after_look_ends deadline looked
        (λ s'. watch_from env interval loop deadline zero s' (slept true ∷ looked))
        (loop.look env s tr).0 (λ s' early awake. absurd (omega (arith, h, later, early)))
  watch_from_ends deadline (suc fuel) s tr h =
      let looked = (loop.look env s tr).1 in
      let later = onward s tr in
      after_look_ends deadline looked
        (λ s'. watch_from env interval loop deadline (suc fuel) s' (slept true ∷ looked))
        (loop.look env s tr).0
        (λ s' early awake.
          watch_from_ends deadline fuel s' (slept true ∷ looked)
            (omega (arith, h, later, laws.sleeps interval looked awake)))

  -- A loop with a positive interval never runs out of fuel.
  pub watch_ends :
      (budget : ℤ) (s : S) (tr : Trace)
      → 0 < pos_part interval
      → (watch env interval loop budget s tr).0 ≢ none
  unfolding watch
  watch_ends budget s tr positive =
      watch_from_ends (pos (env.now tr) +ℤ budget) (suc (pos_part budget / pos_part interval)) s tr
        (ground (
          arith,
          lt-div-mul-add {a = pos_part budget} positive,
          +ℤ_parts (pos (env.now tr)) budget,
        ))
