-- ===== src/Devops/Watch/Rule.antt =====
-- An invariant rule for the loops of devops/reboot.go.
use huawei_api.Base.{
  ℕ, zero, suc, ◌/◌, inl, inr, true, false, not, Bool-cases, Option, some, none, ◌∷◌,
}
use huawei_api.Base.Int.{ℤ, pos, ◌+ℤ◌, ltb_ℤ, pos_part}
use huawei_api.Devops.Watch.{
  slept, Trace, Env, Look, decided, undecided, Loop, after_look, watch_from, watch,
}

module _ {ℓ} {S R : Type ℓ} (env : Env) (interval : ℤ) (loop : Loop S R) (Seen : S → Trace → Type 0)
    (Result : R → Trace → Type 0) where
  -- What a look leaves is a result, or what the next look starts from.
  abbrev pub LookHolds : Look S R → Trace → Type 0
  LookHolds (decided r) tr = Result r tr
  LookHolds (undecided s) tr = Seen s tr

  abbrev pub Holds : Option R → Trace → Type 0
  Holds none tr = Unit {0}
  Holds (some r) tr = Result r tr

  pub record LoopLaws : Type ℓ where
    pub looks :
        (s : S) (tr : Trace) → Seen s tr → LookHolds (loop.look env s tr).0 (loop.look env s tr).1
    pub lates : (s : S) (tr : Trace) → Seen s tr → Result (loop.late s) tr
    pub breaks : (s : S) (tr : Trace) → Seen s tr → Result loop.broken_off (slept false ∷ tr)
    pub sleeps : (s : S) (tr : Trace) → Seen s tr → Seen s (slept true ∷ tr)

module _ {ℓ} {S R : Type ℓ} (env : Env) (interval : ℤ) (loop : Loop S R) (Seen : S → Trace → Type 0)
    (Result : R → Trace → Type 0) (laws : LoopLaws env interval loop Seen Result) where
  after_look-Holds :
      (deadline : ℤ) (looked : Trace) (next : S → Option R × Trace) (seen : Look S R)
      → LookHolds env interval loop Seen Result seen looked
      → ((s : S) → Seen s looked → Holds env interval loop Seen Result (next s).0 (next s).1)
      → let end = after_look env interval loop deadline looked next seen in
        Holds env interval loop Seen Result end.0 end.1
  unfolding after_look
  after_look-Holds deadline looked next (decided r) h k = h
  after_look-Holds deadline looked next (undecided s) h k =
      elim (Bool-cases (not (ltb_ℤ (pos (env.now looked)) deadline))) [
        | inl late ↦ rw late (laws.lates s looked h)
        | inr early ↦ elim (Bool-cases (env.sleep interval looked)) [
          | inl awake ↦ rw (early, awake) (k s h)
          | inr woken ↦ rw (early, woken) (laws.breaks s looked h)
        ]
      ]

  watch_from-Holds :
      (deadline : ℤ) (fuel : ℕ) (s : S) (tr : Trace)
      → Seen s tr
      → let end = watch_from env interval loop deadline fuel s tr in
        Holds env interval loop Seen Result end.0 end.1
  unfolding watch_from
  watch_from-Holds deadline zero s tr h = tt
  watch_from-Holds deadline (suc fuel) s tr h =
      let looked = (loop.look env s tr).1 in
      after_look-Holds deadline looked
        (λ s'. watch_from env interval loop deadline fuel s' (slept true ∷ looked))
        (loop.look env s tr).0 (laws.looks s tr h)
        (λ s' h'.
          watch_from-Holds deadline fuel s' (slept true ∷ looked) (laws.sleeps s' looked h'))

  pub watch-Holds :
      (budget : ℤ) (s : S) (tr : Trace)
      → Seen s tr
      → let end = watch env interval loop budget s tr in
        Holds env interval loop Seen Result end.0 end.1
  unfolding watch
  watch-Holds budget s tr h =
      watch_from-Holds (pos (env.now tr) +ℤ budget)
        (suc (suc (pos_part budget / pos_part interval))) s tr h
