-- ===== src/Reconcile/Actuator/Tests.antt =====
-- A sweep over a dongle that is busy, a proxy that has moved and a proxy that is free
-- (reconcile/actuator.go), and the bump of a generation (generation.go). The outside world counts the
-- operations that are begun.
use huawei_api.Base.{
  ℕ, suc, ◌≡◌, ◌≢◌, ◌==◌, refl, String, Bool, true, false, ltb, if◌then◌else◌, str_eq→≡, some, none,
  [], ◌∷◌, str_eq, arith, lookup,
}
use huawei_api.Domain.Addr.{Addr}
use huawei_api.Domain.Enums.{SubjectType}
use huawei_api.Domain.Model.{op_key}
use huawei_api.Reconcile.Action.{ActionKind, Reason, Action, act, target}
use huawei_api.Reconcile.Generations.{Generations, bump, get, snapshot, is_fenced, is_fenced-bump}
use huawei_api.Reconcile.Actuator.{failure, broken, free, Deps, no_counts, run_actions}
use huawei_api.Reconcile.Actuator.Sweep.{sweep_passes_over}
use huawei_api.Reconcile.Plan.Tests.{silent_world}

abbrev reboot : Action
reboot = act ActionKind.reboot_dongle SubjectType.dongle "dg_1" 7 Reason.dongle_unreachable []

abbrev stop : Action
stop = act ActionKind.stop_proxy SubjectType.proxy "px_1" 7 Reason.proxy_disabled []

abbrev none_yet : Generations
none_yet = record { gen = []; live = [] }

abbrev turn : Action
turn = act ActionKind.recover_rotate SubjectType.proxy "px_2" 8 Reason.data_session_down []

-- A store that cannot tell whether the dongle dg_1 is free.
abbrev counting : Deps ℕ
counting = record {
  find_active = λ subject id e. if str_eq id "dg_1" then broken failure else free;
  set_enabled = λ id on e. (e, none);
  net = none;
  add_dongle = none;
  set_max_idle_time = none;
  proxy = none;
  ops = some record {
    recover_rotate = λ id reason e. (suc e, ("op_1", none));
    reboot_dongle = λ id reason e. (suc e, ("op_2", none));
  };
  nserver_fallback = Addr.invalid;
  sort_prefixes = λ ps. ps;
}

-- The proxy px_1 has moved.
abbrev gens : ℕ → Generations
gens e = record { gen = ("proxy:px_1", 1) ∷ []; live = [] }

abbrev canceled : ℕ → Bool
canceled e = ltb 9 e

abbrev is_px_1 : String → Bool
is_px_1 t = str_eq t "proxy:px_1"

abbrev is_dg_1 : SubjectType → String → Bool
is_dg_1 s id = str_eq id "dg_1"

px_1_moved :
    (t : String) (e : ℕ) → Unit {0} → is_px_1 t ≡ true → (get (gens e) t == get none_yet t) ≡ false
unfolding get lookup str_eq
px_1_moved t e u h = rw (str_eq→≡ t "proxy:px_1" h) refl

dg_1_busy :
    (s : SubjectType) (id : String) (e : ℕ)
    → Unit {0}
    → is_dg_1 s id ≡ true
    → counting.find_active s id e ≢ free
dg_1_busy s id e u h = rw h (λ k. cc)

sweep_passes_over_example :
    (run_actions counting gens canceled silent_world
      (snapshot none_yet (reboot ∷ stop ∷ turn ∷ []))
      (reboot ∷ stop ∷ turn ∷ [])
      4
      no_counts).0
    ≡ (run_actions counting gens canceled silent_world
        (snapshot none_yet (reboot ∷ stop ∷ turn ∷ []))
        (turn ∷ [])
        4
        no_counts).0
unfolding target op_key str_eq
sweep_passes_over_example =
    sweep_passes_over counting gens canceled silent_world none_yet (reboot ∷ stop ∷ turn ∷ [])
      (λ x. Unit {0}) is_px_1 is_dg_1 4 (λ a x u. tt) px_1_moved dg_1_busy tt

is_fenced-bump_example :
    is_fenced (bump none_yet "dongle:dg_1") reboot (snapshot none_yet (reboot ∷ stop ∷ []))
    ≡ str_eq "dongle:dg_1" (target reboot)
unfolding get str_eq target lookup op_key
is_fenced-bump_example =
    is_fenced-bump none_yet (reboot ∷ stop ∷ []) reboot "dongle:dg_1" (ground arith) refl
