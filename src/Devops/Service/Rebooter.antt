-- ===== src/Devops/Service/Rebooter.antt =====
-- RebootAuto of devops/reboot.go as the Rebooter of rotate/rotate.go.
use huawei_api.Base.{
  ℕ, ◌≡◌, refl, inl, inr, String, Bool, true, false, str_eq, str_eq→≡, str_eq_self, Bool-cases,
  Option, some, none, arith,
}
use huawei_api.Base.Int.{ℤ}
use huawei_api.Domain.Enums.{OpKind, OpState, SubjectType}
use huawei_api.Domain.Errors.{Result, ok, err, after}
use huawei_api.Domain.Model.{Dongle, Operation}
use huawei_api.Store.Operations.{Table, is_live, get, create, filled}
use huawei_api.Store.Operations.Invariant.{
  Consistent, create-ok-filled, create-Consistent, finish-Consistent,
}
use huawei_api.Store.Operations.History.{fresh_id, create-get}
use huawei_api.Store.Operations.Ending.{get-named, get-finish_other}
use huawei_api.Reconcile.World.{unix_millis}
use huawei_api.Rotate.Request.{Reply, granted, refused, Request, on_reply}
use huawei_api.Store.Rotations.{Rotations}
use huawei_api.Rotate.Run.{RunResult}
use huawei_api.Rotate.Finish.{Finish, finish_run}
use huawei_api.Rotate.Finish.Laws.{RebooterLaws, IsRecorded, finish_run-IsRecorded}
use huawei_api.Devops.Service.{
  Actor, normalize, DeviceRows, Limits, may_start, start_row, after_start, start, reboot_as,
  system_actor, reboot_auto,
}

module _ (since : Option ℕ) (now : ℕ) (table : Table) (op : Operation) where
  after_start-Consistent :
      (r : Result Table)
      → Consistent table
      → Consistent (after table r)
      → Consistent (after_start since table op r).0
  unfolding after_start
  after_start-Consistent (err e) c d = c
  after_start-Consistent (ok t) c d =
      elim since as (λ k. Consistent (after_start k table op (ok t)).0) [
        | none ↦ d
        | some at ↦
            finish-Consistent at t op.id OpState.canceled "devops: service is shutting down" "{}" at
              d
      ]

  created_apart :
      (t : Table) (i : String) (o : Operation)
      → create now table op ≡ ok t
      → get table i ≡ some o
      → str_eq o.id op.id ≡ false
  created_apart t i o e h =
      let (_, fresh, named) = create-ok-filled now table op e in
      ground (
        arith,
        named,
        fresh_id (filled now op) o table i fresh h,
        get-named table i o h,
        str_eq→≡ o.id i,
        str_eq→≡ o.id op.id,
        str_eq_self i,
      )

  after_start-get :
      (r : Result Table) (i : String) (o : Operation)
      → create now table op ≡ r
      → get table i ≡ some o
      → get (after table r) i ≡ some o
      → get (after_start since table op r).0 i ≡ some o
  unfolding after_start
  after_start-get (err e) i o eq h kept = h
  after_start-get (ok t) i o eq h kept =
      elim since as (λ k. get (after_start k table op (ok t)).0 i ≡ some o) [
        | none ↦ kept
        | some at ↦
            get-finish_other at t op.id i o OpState.canceled "devops: service is shutting down" "{}"
              kept (created_apart t i o eq h)
      ]

module _ (deadline : ℤ) (now : ℕ) (id : String) (is_closed : Bool) (since : Option ℕ)
    (kind : OpKind) (subject : SubjectType) (subject_id : String) (a : Actor) (table : Table) where
  pub start-Consistent :
      Consistent table
      → Consistent (start deadline now id is_closed since table kind subject subject_id a).0
  unfolding start
  start-Consistent c =
      let op = start_row deadline now id kind subject subject_id (normalize a) in
      elim (Bool-cases is_closed) [
        | inl shut ↦ rw shut c
        | inr open_ ↦ rw open_ (
            after_start-Consistent since (unix_millis now) table op _ c
              (create-Consistent (unix_millis now) table op c))
      ]

  pub start-get :
      (i : String) (o : Operation)
      → get table i ≡ some o
      → get (start deadline now id is_closed since table kind subject subject_id a).0 i ≡ some o
  unfolding start
  start-get i o h =
      let op = start_row deadline now id kind subject subject_id (normalize a) in
      elim (Bool-cases is_closed) [
        | inl shut ↦ rw shut h
        | inr open_ ↦ rw open_ (
            after_start-get since (unix_millis now) table op _ i o refl h
              (create-get (unix_millis now) table op i o h))
      ]

module _ (blank : String → Bool) (rows : DeviceRows) (lim : Limits) (now : ℕ) (id : String)
    (is_closed : Bool) (since : Option ℕ) where
  -- Both parts of a claim on the tables of RebootAs, from that of its start.
  reboot_as_keeps :
      (P : Table → Type 0) (table : Table) (dongle_id : String) (a : Actor)
      → P table
      → P
          (start lim.reboot_deadline now id is_closed since table OpKind.reboot SubjectType.dongle
            dongle_id
            (normalize a)).0
      → P (reboot_as blank rows lim now id is_closed since table dongle_id a).0
  unfolding reboot_as
  reboot_as_keeps P table dongle_id a before started =
      go (may_start blank rows lim now table dongle_id (normalize a).trigger)
    where
      go :
          (m : Reply (Unit {0}))
          → P
              (on_reply m
                (λ why. (table, refused why))
                (λ _.
                  start lim.reboot_deadline now id is_closed since table OpKind.reboot
                    SubjectType.dongle dongle_id
                    (normalize a))).0
      go (refused why) = before
      go (granted _) = started

  -- RebootAuto does what finish asks of a Rebooter: whatever it answers, the table of operations stays
  -- consistent and every row that was there stays as it was.
  pub reboot_auto-RebooterLaws :
      (reason : String) → RebooterLaws (reboot_auto blank rows lim now id is_closed since reason)
  unfolding reboot_auto
  reboot_auto-RebooterLaws reason = record {
    keeps_consistent = λ table d c. reboot_as_keeps Consistent table d (system_actor reason) c (
        start-Consistent lim.reboot_deadline now id is_closed since OpKind.reboot SubjectType.dongle
          d (normalize (system_actor reason)) table c);
    keeps_rows = λ table d i o h.
        reboot_as_keeps (λ t. get t i ≡ some o) table d (system_actor reason) h
          (start-get lim.reboot_deadline now id is_closed since OpKind.reboot SubjectType.dongle d
            (normalize (system_actor reason)) table i o h);
  }

  -- With RebootAuto as its Rebooter, finish ends the live operation of a run in a consistent table, as
  -- a success exactly if the address changed, and leaves its subject free.
  pub escalating_run-IsRecorded :
      (reason : String) (f : Finish) (req : Request) (op : Operation) (dongle : Option Dongle)
      (res : RunResult) (table : Table) (rotations : Rotations) (o : Operation)
      → Consistent table
      → get table op.id ≡ some o
      → is_live o ≡ true
      → let f' = record f {
        rebooter = some (reboot_auto blank rows lim now id is_closed since reason);
      } in
        IsRecorded (finish_run f' req op dongle res table rotations).0 op.id o res
  escalating_run-IsRecorded reason f req op dongle res table rotations o c h l =
      finish_run-IsRecorded
        (record f { rebooter = some (reboot_auto blank rows lim now id is_closed since reason) })
        req op dongle res table rotations o (reboot_auto-RebooterLaws reason) c h l
