-- ===== src/Reconcile/Actuator/Laws.antt =====
-- When an action of reconcile/actuator.go reaches a driver, and what a sweep reports.
use huawei_api.Base.{
  ℕ, ◌+◌, ◌≤◌, ◌≡◌, ◌≢◌, refl, ◌⊎◌, inl, inr, String, Bool, true, Bool-cases, length, length-append,
  some, List, [], ◌∷◌, arith,
}
use huawei_api.Reconcile.World.{World}
use huawei_api.Reconcile.Action.{Action, destructive}
use huawei_api.Reconcile.Generations.{Generations, is_fenced}
use huawei_api.Reconcile.Actuator.{
  Fault, Found, free, broken, live, Deps, Outcome, apply, Counts, no_counts, count_outcome, act_on,
  run_actions,
}

-- The outcome is skipped, or it has failed.
abbrev pub IsWithheld : Outcome → Type 0
IsWithheld o = (o.skipped ≡ true) ⊎ ((f : Fault) × (o.error ≡ some f))

module _ {E : Type 0} (deps : Deps E) (w : World) (a : Action) (e : E) where
  -- A destructive action whose subject the store does not report free leaves the outside world as it
  -- is, and its outcome is skipped or failed.
  pub apply_not_free :
      destructive a.kind ≡ true
      → deps.find_active a.subject a.subject_id e ≢ free
      → ((apply deps w a e).0 ≡ e) × IsWithheld (apply deps w a e).1
  unfolding apply
  apply_not_free d busy = go (deps.find_active a.subject a.subject_id e) refl
    where
      go :
          (r : Found)
          → deps.find_active a.subject a.subject_id e ≡ r
          → ((apply deps w a e).0 ≡ e) × IsWithheld (apply deps w a e).1
      go free h = absurd (busy h)
      go (broken f) h = rw (d, h) (refl, inr (f, refl))
      go (live op) h = rw (d, h) (refl, inl refl)

-- The counts of a sweep add up to its outcomes.
abbrev pub IsCounted : Counts → Type 0
IsCounted c = c.applied + c.skipped + c.failed ≡ length c.outcomes

count_outcome-IsCounted : (c : Counts) (o : Outcome) → IsCounted c → IsCounted (count_outcome c o)
unfolding count_outcome
count_outcome-IsCounted c o h = ground (arith, length-append c.outcomes (o ∷ []))

length-count_outcome :
    (c : Counts) (o : Outcome) → length (count_outcome c o).outcomes ≡ length c.outcomes + 1
unfolding count_outcome
length-count_outcome c o = ground (arith, length-append c.outcomes (o ∷ []))

module _ {E : Type 0} (deps : Deps E) (gens : E → Generations) (canceled : E → Bool) (w : World)
    (snap : List (String × ℕ)) where
  -- In a sweep, an action whose target moved on since the snapshot, or a destructive one whose subject
  -- the store does not report free, leaves the outside world as it is, and
  -- its outcome is skipped or failed.
  pub act_on_untouched :
      (a : Action) (e : E)
      → (is_fenced (gens e) a snap ≡ true)
        ⊎ ((destructive a.kind ≡ true) × (deps.find_active a.subject a.subject_id e ≢ free))
      → ((act_on deps gens canceled w snap a e).0 ≡ e)
        × IsWithheld (act_on deps gens canceled w snap a e).1
  unfolding act_on
  act_on_untouched a e (inl h) = (rw h refl, rw h (inl refl))
  act_on_untouched a e (inr (d, busy)) =
      let (same, shown) = apply_not_free deps w a e d busy in
      elim (Bool-cases (is_fenced (gens e) a snap)) [
        | inl h ↦ (rw h refl, rw h (inl refl))
        | inr h ↦ (rw h same, rw h shown)
      ]

  run_actions-IsCounted_from :
      (actions : List Action) (e : E) (c : Counts)
      → IsCounted c
      → IsCounted (run_actions deps gens canceled w snap actions e c).1
        × (length (run_actions deps gens canceled w snap actions e c).1.outcomes
            ≤ length c.outcomes + length actions)
  unfolding run_actions
  run_actions-IsCounted_from [] e c h = (h, omega arith)
  run_actions-IsCounted_from (a ∷ rest) e c h = elim (Bool-cases (canceled e)) [
    | inl stop ↦ rw stop (h, omega arith)
    | inr on ↦
        let (e', out) = act_on deps gens canceled w snap a e in
        let (sum, len) =
          run_actions-IsCounted_from rest e' (count_outcome c out)
            (count_outcome-IsCounted c out h) in
        rw on (sum, omega (arith, len, length-count_outcome c out))
  ]

  -- A sweep reports one outcome at most for each action, and counts each as applied, skipped or failed.
  pub run_actions-IsCounted :
      (actions : List Action) (e : E)
      → let c = (run_actions deps gens canceled w snap actions e no_counts).1 in
        (c.applied + c.skipped + c.failed ≡ length c.outcomes)
        × (length c.outcomes ≤ length actions)
  run_actions-IsCounted actions e =
      let (sum, len) = run_actions-IsCounted_from actions e no_counts refl in
      (sum, omega (arith, len))
