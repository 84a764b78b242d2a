-- ===== src/Reconcile/Actuator/Sweep.antt =====
-- What a sweep (the loop of Engine.Once over Apply of reconcile/actuator.go) does to the outside world,
-- while targets move and operations are live.
use huawei_api.Base.{
  ℕ, ◌≡◌, ◌≢◌, refl, sym, ap, ◌∙◌, inl, inr, String, Bool, true, false, not, ◌&&◌, ◌||◌, ◌==◌,
  str_eq, Bool-cases, any, keep, List, [], ◌∷◌, arith,
}
use huawei_api.Domain.Enums.{SubjectType}
use huawei_api.Reconcile.World.{World}
use huawei_api.Reconcile.Action.{Action, destructive, target}
use huawei_api.Reconcile.Generations.{Generations, get, snapshot, is_fenced, is_fenced-snapshot}
use huawei_api.Reconcile.Actuator.{
  free, Deps, Counts, no_counts, count_outcome, act_on, run_actions,
}
use huawei_api.Reconcile.Actuator.Laws.{act_on_untouched}

module _ {E : Type 0} (deps : Deps E) (gens : E → Generations) (canceled : E → Bool) (w : World)
    (snap : List (String × ℕ)) where
  run_actions-canceled :
      (actions : List Action) (e : E) (c : Counts)
      → canceled e ≡ true
      → (run_actions deps gens canceled w snap actions e c).0 ≡ e
  unfolding run_actions
  run_actions-canceled [] e c h = refl
  run_actions-canceled (a ∷ rest) e c h = rw h refl

  module _ (Inv : E → Type 0) (out : Action → Bool)
      (keeps : (a : Action) (e : E) → Inv e → Inv (act_on deps gens canceled w snap a e).0)
      (untouched : (a : Action) (e : E)
        → Inv e
        → out a ≡ true
        → (act_on deps gens canceled w snap a e).0 ≡ e) where
    run_actions_without :
        (actions : List Action) (e : E) (c c' : Counts)
        → Inv e
        → (run_actions deps gens canceled w snap actions e c).0
          ≡ (run_actions deps gens canceled w snap (keep (λ a. not (out a)) actions) e c').0
    unfolding run_actions
    run_actions_without [] e c c' v = refl
    run_actions_without (a ∷ rest) e c c' v = elim (Bool-cases (canceled e)) [
      | inl stop ↦
          run_actions-canceled (a ∷ rest) e c stop
          ∙ sym (run_actions-canceled (keep (λ x. not (out x)) (a ∷ rest)) e c' stop)
      | inr on ↦
          let shown = count_outcome c (act_on deps gens canceled w snap a e).1 in
          elim (Bool-cases (out a)) [
            | inl o ↦
                rw (on, o)
                  (ap (λ x. (run_actions deps gens canceled w snap rest x shown).0)
                      (untouched a e v o)
                    ∙ run_actions_without rest e shown c' v)
            | inr i ↦
                rw (on, i, on)
                  (run_actions_without rest (act_on deps gens canceled w snap a e).0 shown
                    (count_outcome c' (act_on deps gens canceled w snap a e).1) (keeps a e v))
          ]
    ]

module _ {E : Type 0} (deps : Deps E) (gens : E → Generations) (canceled : E → Bool) (w : World)
    (before : Generations) (actions : List Action) where
  moved-fenced :
      (a : Action) (e : E)
      → (get (gens e) (target a) == get before (target a)) ≡ false
      → is_fenced (gens e) a (snapshot before actions) ≡ true
  moved-fenced a e h =
      is_fenced-snapshot before (gens e) actions a
      ∙ elim (Bool-cases (any (λ b. str_eq (target b) (target a)) actions)) [
        | inl planned ↦ rw (planned, h) refl
        | inr other ↦ rw other refl
      ]

  -- A sweep does to the outside world what it would do without the actions whose target has moved since
  -- the snapshot and without the destructive ones on a subject that the store does not report free.
  -- `Inv` holds at the start and after each action; in its states the targets in `moved` have a
  -- generation other than at the snapshot, and the subjects in `busy` are not free.
  pub sweep_passes_over :
      (Inv : E → Type 0) (moved : String → Bool) (busy : SubjectType → String → Bool) (e : E)
      → ((a : Action) (x : E)
          → Inv x
          → Inv (act_on deps gens canceled w (snapshot before actions) a x).0)
      → ((t : String) (x : E) → Inv x → moved t ≡ true → (get (gens x) t == get before t) ≡ false)
      → ((s : SubjectType) (i : String) (x : E)
          → Inv x
          → busy s i ≡ true
          → deps.find_active s i x ≢ free)
      → Inv e
      → (run_actions deps gens canceled w (snapshot before actions) actions e no_counts).0
        ≡ (run_actions deps gens canceled w
            (snapshot before actions)
            (keep
              (λ a. not (moved (target a) || destructive a.kind && busy a.subject a.subject_id))
              actions)
            e
            no_counts).0
  sweep_passes_over Inv moved busy e keeps moves lives v =
      run_actions_without deps gens canceled w (snapshot before actions) Inv
        (λ a. moved (target a) || destructive a.kind && busy a.subject a.subject_id) keeps passed
        actions e no_counts no_counts v
    where
      passed :
          (a : Action) (x : E)
          → Inv x
          → moved (target a) || destructive a.kind && busy a.subject a.subject_id ≡ true
          → (act_on deps gens canceled w (snapshot before actions) a x).0 ≡ x
      passed a x u o = elim (Bool-cases (moved (target a))) [
        | inl m ↦
            (act_on_untouched deps gens canceled w (snapshot before actions) a x
              (inl (moved-fenced a x (moves (target a) x u m)))).0
        | inr stays ↦
            (act_on_untouched deps gens canceled w (snapshot before actions) a x (
              inr (
                ground (arith, o, stays),
                lives a.subject a.subject_id x u (ground (arith, o, stays)),
              ))).0
      ]
