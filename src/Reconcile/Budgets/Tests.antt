-- ===== src/Reconcile/Budgets/Tests.antt =====
-- A dongle that was rebooted once today (reconcile/world.go, devops/reboot.go).
use huawei_api.Base.{◌≡◌, refl, inl, inr, [], ◌∷◌, str_eq}
use huawei_api.Base.Int.{pos}
use huawei_api.Domain.Enums.{OpKind, SubjectType}
use huawei_api.Domain.Model.{Operation}
use huawei_api.Store.Operations.{Table}
use huawei_api.Store.Operations.Tests.{rotation, finished}
use huawei_api.Reconcile.World.{reboot_allowed}
use huawei_api.Reconcile.Budgets.{BudgetPolicy, load_budgets}
use huawei_api.Reconcile.Budgets.Agree.{load_budgets_agree}
use huawei_api.Rotate.Request.{may_reboot}

abbrev rebooted : Operation
rebooted = record finished {
  kind = OpKind.reboot;
  subject_type = SubjectType.dongle;
  subject_id = "dg_1";
}

abbrev today : Table
today = rebooted ∷ rotation ∷ []

abbrev twice_a_day : BudgetPolicy
twice_a_day = record {
  reboot_per_day = 2;
  reboot_cooldown = 600000000000;
  max_concurrent_rotate = 3;
  min_rotate_interval = 60000000000;
}

load_budgets_agree_example :
    reboot_allowed (load_budgets today [] twice_a_day 1800000000000 []) "dg_1" 1800000000000
    ≡ may_reboot (pos 2) (pos 600000000000) 1800000000000 today "dg_1"
unfolding str_eq
load_budgets_agree_example =
    load_budgets_agree today [] twice_a_day 1800000000000 [] "dg_1" (inr refl, (inl refl, tt))
