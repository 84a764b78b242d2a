-- ===== src/Rotate/Finish/Laws.antt =====
-- What finish of rotate/rotate.go leaves in the tables.
use huawei_api.Base.{
  ℕ, ◌≡◌, refl, inl, inr, String, true, false, ◌&&◌, str_eq, if◌then◌else◌, Bool-cases, Option,
  some, none, arith,
}
use huawei_api.Domain.Enums.{OpState, terminal}
use huawei_api.Domain.Model.{Dongle, Operation}
use huawei_api.Store.Operations.{Table, is_live, get, find_active, finished_as}
use huawei_api.Store.Operations.Invariant.{Consistent}
use huawei_api.Store.Operations.Busy.{finish_frees}
use huawei_api.Store.Operations.Ending.{get-finish}
use huawei_api.Reconcile.World.{unix_millis}
use huawei_api.Store.Rotations.{Rotations}
use huawei_api.Rotate.Policy.{Policy}
use huawei_api.Rotate.Request.{may_reboot, Request}
use huawei_api.Rotate.Run.{RunResult}
use huawei_api.Rotate.Finish.{
  ending_of, Rebooter, escalate, is_unchanged_result, escalated, closed_op, recorded_as, Finish,
  finish_run,
}

-- What finish relies on of RebootAuto: it keeps the table consistent, and the rows that are there.
pub record RebooterLaws (reboot : Rebooter) : Type 0 where
  pub keeps_consistent :
      (table : Table) (id : String) → Consistent table → Consistent (reboot table id).0
  pub keeps_rows :
      (table : Table) (id i : String) (o : Operation)
      → get table i ≡ some o
      → get (reboot table id).0 i ≡ some o

abbrev pub LawsOf : Option Rebooter → Type 0
LawsOf none = Unit {0}
LawsOf (some reboot) = RebooterLaws reboot

escalate_keeps :
    (pol : Policy) (now : ℕ) (rebooter : Option Rebooter) (table : Table) (dongle : Option Dongle)
    (i : String) (o : Operation)
    → LawsOf rebooter
    → Consistent table
    → get table i ≡ some o
    → let t = (escalate pol now rebooter table dongle).0 in Consistent t × (get t i ≡ some o)
unfolding escalate
escalate_keeps pol now none table dongle i o laws c h = (c, h)
escalate_keeps pol now (some reboot) table none i o laws c h = (c, h)
escalate_keeps pol now (some reboot) table (some d) i o laws c h =
    elim (Bool-cases (str_eq d.id "")) [
      | inl e ↦ rw e (c, h)
      | inr e ↦
          elim (Bool-cases
            (may_reboot pol.reboot_budget_per_day pol.reboot_cooldown now table d.id)) [
              | inr no_budget ↦ rw (e, no_budget) (c, h)
              | inl allowed ↦
                  rw (e, allowed)
                    (laws.keeps_consistent table d.id c, laws.keeps_rows table d.id i o h)
            ]
    ]

escalated_keeps :
    (f : Finish) (req : Request) (dongle : Option Dongle) (res : RunResult) (table : Table)
    (i : String) (o : Operation)
    → LawsOf f.rebooter
    → Consistent table
    → get table i ≡ some o
    → let t = (escalated f req dongle res table).0 in Consistent t × (get t i ≡ some o)
unfolding escalated
escalated_keeps f req dongle res table i o laws c h =
    let kept = escalate_keeps f.policy f.now f.rebooter table dongle i o laws c h in
    elim (Bool-cases (is_unchanged_result (ending_of res).result && req.allow_reboot)) [
      | inl e ↦ rw e kept
      | inr e ↦ rw e (c, h)
    ]

ending_of_state :
    (res : RunResult)
    → (ending_of res).state ≡ (if res.is_changed then OpState.succeeded else OpState.failed)
unfolding ending_of
ending_of_state res = ground arith

ending_of-terminal : (res : RunResult) → terminal (ending_of res).state ≡ true
ending_of-terminal res = rw (ending_of_state res) (ground arith)

-- The operation `i` is over, as a success exactly if the address changed, and its subject is free.
abbrev pub IsRecorded : Table → String → Operation → RunResult → Type 0
IsRecorded t i o res =
    (o' : Operation) × (get t i ≡ some o')
    × (is_live o' ≡ false)
    × (o'.state ≡ (if res.is_changed then OpState.succeeded else OpState.failed))
    × (find_active t o.subject_type o.subject_id ≡ none)

closed_op-IsRecorded :
    (f : Finish) (op : Operation) (res : RunResult) (table : Table) (reboot_id : Option String)
    (o : Operation)
    → Consistent table
    → get table op.id ≡ some o
    → is_live o ≡ true
    → IsRecorded (closed_op f op res (table, reboot_id)) op.id o res
unfolding closed_op
closed_op-IsRecorded f op res table reboot_id o c h l =
    let e = ending_of res in
    let ended = recorded_as f res reboot_id in
    let (t, done, free) =
      finish_frees (unix_millis f.now) table op.id o e.state e.message ended (unix_millis f.now) c h
        l (ending_of-terminal res) in
    (
      finished_as (unix_millis f.now) e.state e.message ended (unix_millis f.now) o,
      get-finish (unix_millis f.now) table op.id o e.state e.message ended (unix_millis f.now) h l
          (ending_of-terminal res),
      refl,
      ending_of_state res,
      rw done free,
    )

-- The recording of a live run, in a consistent table, ends its operation, as a success exactly if the
-- address changed, and leaves its subject with no live operation, whether the run is escalated to a
-- reboot or not.
pub finish_run-IsRecorded :
    (f : Finish) (req : Request) (op : Operation) (dongle : Option Dongle) (res : RunResult)
    (table : Table) (rotations : Rotations) (o : Operation)
    → LawsOf f.rebooter
    → Consistent table
    → get table op.id ≡ some o
    → is_live o ≡ true
    → IsRecorded (finish_run f req op dongle res table rotations).0 op.id o res
unfolding finish_run
finish_run-IsRecorded f req op dongle res table rotations o laws c h l =
    let (c', h') = escalated_keeps f req dongle res table op.id o laws c h in
    let e = escalated f req dongle res table in closed_op-IsRecorded f op res e.0 e.1 o c' h' l
