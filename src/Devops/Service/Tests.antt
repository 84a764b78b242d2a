-- ===== src/Devops/Service/Tests.antt =====
-- An automatic reboot of a free dongle (devops/reboot.go), and one in the wake of a rotation.
use huawei_api.Base.{◌≡◌, refl, String, Bool, false, none, some, [], str_eq}
use huawei_api.Base.Int.{pos, ◌+ℤ◌, ◌-ℤ◌}
use huawei_api.Domain.Enums.{OpKind, SubjectType, Trigger}
use huawei_api.Domain.Errors.{not_found, ok, err}
use huawei_api.Store.Operations.{find_active, create, filled, get}
use huawei_api.Store.Operations.Listing.{listed}
use huawei_api.Store.Operations.Tests.{rotation, mixed}
use huawei_api.Reconcile.Plan.Tests.{slot_row, dongle_row, proxy_row}
use huawei_api.Rotate.Request.{granted, check_conflict, may_reboot}
use huawei_api.Rotate.Request.Tests.{request}
use huawei_api.Rotate.Finish.{finish_run}
use huawei_api.Rotate.Finish.Laws.{IsRecorded}
use huawei_api.Rotate.Finish.Tests.{run_of_two, ended_at}
use huawei_api.Devops.Service.{
  DeviceRows, Limits, DongleTarget, target, normalize, system_actor, may_start, start_row, start,
  after_start, reboot_as, reboot_auto,
}
use huawei_api.Devops.Service.Granted.{IsGuarded, IsStarted, reboot_as_granted}
use huawei_api.Devops.Service.Rebooter.{escalating_run-IsRecorded}

abbrev rows : DeviceRows
rows = record {
  dongle = λ _. ok dongle_row;
  slot_of_dongle = λ _. ok slot_row;
  node = λ _. err not_found;
  proxy_of_slot = λ _. ok proxy_row;
}

abbrev limits : Limits
limits = record {
  reboot_deadline = pos 300000000000;
  reboot_budget_per_day = pos 4;
  reboot_cooldown = pos 1800000000000;
}

abbrev blank : String → Bool
blank id = str_eq id ""

-- While a rotation runs on the proxy of its slot.
reboot_as_granted_example :
    ((t : DongleTarget) × (target blank rows "dg_1" ≡ granted t)
      × IsGuarded limits 1800000000000 mixed "dg_1" Trigger.auto_recovery t)
    × IsStarted mixed "op_9" "dg_1"
        (reboot_as blank rows limits 1800000000000 "op_9" false none mixed "dg_1"
          (system_actor "no_data")).0
unfolding reboot_as start may_start target check_conflict may_reboot find_active create filled
    listed str_eq after_start start_row normalize ◌+ℤ◌ ◌-ℤ◌
reboot_as_granted_example =
    reboot_as_granted blank rows limits 1800000000000 "op_9" false none mixed "dg_1"
      (system_actor "no_data")
      (start_row (pos 300000000000) 1800000000000 "op_9" OpKind.reboot SubjectType.dongle "dg_1"
        (system_actor "no_data"))
      refl

escalating_run-IsRecorded_example :
    IsRecorded
      (finish_run
        (record ended_at {
          rebooter =
              some (reboot_auto blank rows limits 1800060000000000 "op_9" false none "unchanged");
        })
        request
        rotation
        (some dongle_row)
        run_of_two
        mixed
        []).0
      "op_1"
      rotation
      run_of_two
unfolding get str_eq
escalating_run-IsRecorded_example =
    escalating_run-IsRecorded blank rows limits 1800060000000000 "op_9" false none "unchanged"
      ended_at request rotation (some dongle_row) run_of_two mixed [] rotation
      ((refl, tt), (tt, tt)) refl refl
