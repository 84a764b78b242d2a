-- ===== src/Devops/Service/Granted.antt =====
-- What a granted RebootAs of devops/reboot.go has checked, and what it leaves.
use huawei_api.Base.{
  ℕ, ◌≡◌, refl, ◌⊎◌, inl, inr, String, Bool, true, false, str_eq, Bool-cases, Option, some, none,
  ◌∷◌, arith,
}
use huawei_api.Base.Int.{ℤ}
use huawei_api.Domain.Enums.{OpKind, SubjectType, Trigger}
use huawei_api.Domain.Errors.{Result, ok, err}
use huawei_api.Domain.Model.{Proxy, Operation}
use huawei_api.Store.Operations.{Table, is_live, find_active, create}
use huawei_api.Store.Operations.Busy.{create-find_active}
use huawei_api.Reconcile.World.{unix_millis}
use huawei_api.Rotate.Request.{
  Reply, granted, refused, ◌>>=◌, check_conflict, may_reboot, on_reply, in_conflict,
}
use huawei_api.Devops.Service.{
  Actor, normalize, DeviceRows, DongleTarget, target, check_rotate_fence, Limits, is_auto_recovery,
  allowed, may_start, start_row, after_start, start, reboot_as,
}

bind_granted {ℓ κ} :
    {A : Type ℓ} {B : Type κ} (m : Reply A) (f : A → Reply B) (b : B)
    → (m >>= f) ≡ granted b
    → (a : A) × (m ≡ granted a) × (f a ≡ granted b)
bind_granted (refused why) f b h = absurd (cc)
bind_granted (granted a) f b h = (a, refl, h)

check_conflict_conflicts :
    (table : Table) (s : SubjectType) (id : String) (live : Operation)
    → find_active table s id ≡ some live
    → check_conflict table s id ≡ refused (in_conflict live.id)
unfolding check_conflict
check_conflict_conflicts table s id live h = rw (h, check_conflict) refl

check_conflict_free :
    (table : Table) (s : SubjectType) (id : String)
    → check_conflict table s id ≡ granted tt
    → find_active table s id ≡ none
check_conflict_free table s id h = go (find_active table s id) refl
  where
    go : (m : Option Operation) → find_active table s id ≡ m → find_active table s id ≡ none
    go none e = e
    go (some live) e = let busy = check_conflict_conflicts table s id live e in absurd (cc)

-- No operation is live on the proxy of the slot, if it has one.
abbrev pub IsProxyFree : Table → Option Proxy → Type 0
IsProxyFree table none = Unit {0}
IsProxyFree table (some px) =
    (str_eq px.id "" ≡ true) ⊎ (find_active table SubjectType.proxy px.id ≡ none)

-- No operation is live on the dongle; an automatic reboot is within its budget, and any other one meets
-- no live operation on the proxy of the slot.
abbrev pub IsGuarded : Limits → ℕ → Table → String → Trigger → DongleTarget → Type 0
IsGuarded lim now table dongle_id trigger t =
    (find_active table SubjectType.dongle dongle_id ≡ none)
    × (((is_auto_recovery trigger ≡ true)
          × (may_reboot lim.reboot_budget_per_day lim.reboot_cooldown now table dongle_id ≡ true))
        ⊎ ((is_auto_recovery trigger ≡ false) × IsProxyFree table t.proxy))

fence_free :
    (table : Table) (t : DongleTarget) (px : Option Proxy)
    → check_rotate_fence table (record t { proxy = px }) ≡ granted tt
    → IsProxyFree table px
fence_free table t none h = tt
fence_free table t (some px) h = elim (Bool-cases (str_eq px.id "")) [
  | inl blank ↦ inl blank
  | inr named ↦ inr (check_conflict_free table SubjectType.proxy px.id (ground (arith, named, h)))
]

allowed_guards :
    (lim : Limits) (now : ℕ) (table : Table) (dongle_id : String) (trigger : Trigger)
    (t : DongleTarget)
    → check_conflict table SubjectType.dongle dongle_id ≡ granted tt
    → allowed lim now table dongle_id trigger t ≡ granted tt
    → IsGuarded lim now table dongle_id trigger t
allowed_guards lim now table dongle_id trigger t free h = (
  check_conflict_free table SubjectType.dongle dongle_id free,
  elim (Bool-cases (is_auto_recovery trigger)) [
    | inl auto ↦ inl (auto, ground arith)
    | inr asked ↦ inr (asked, fence_free table t t.proxy (ground arith))
  ],
)

-- The operation with the new id is added, and is then the live one of the dongle.
abbrev pub IsStarted : Table → String → String → Table → Type 0
IsStarted table id dongle_id later =
    (row : Operation) × (later ≡ row ∷ table)
    × (row.id ≡ id)
    × (find_active later SubjectType.dongle dongle_id ≡ some row)

after_start-IsStarted :
    (since : Option ℕ) (now : ℕ) (table : Table) (op new : Operation) (r : Result Table)
    → create now table new ≡ r
    → is_live new ≡ true
    → new.subject_type ≡ SubjectType.dongle
    → (after_start since table new r).1 ≡ granted op
    → IsStarted table new.id new.subject_id (after_start since table new r).0
unfolding after_start
after_start-IsStarted since now table op new (err e) eq l s h = absurd (cc)
after_start-IsStarted (some at) now table op new (ok t) eq l s h = absurd (cc)
after_start-IsStarted none now table op new (ok t) eq l s h =
    let (row, grown, named, live) = create-find_active now table new eq l in
    (row, grown, named, rw (← s) live)

start-IsStarted :
    (deadline : ℤ) (now : ℕ) (id : String) (is_closed : Bool) (since : Option ℕ) (table : Table)
    (dongle_id : String) (a : Actor) (op : Operation)
    → let answer =
        start deadline now id is_closed since table OpKind.reboot SubjectType.dongle dongle_id a in
      answer.1 ≡ granted op → IsStarted table id dongle_id answer.0
unfolding start start_row
start-IsStarted deadline now id true since table dongle_id a op h = absurd (cc)
start-IsStarted deadline now id false since table dongle_id a op h =
    let new = start_row deadline now id OpKind.reboot SubjectType.dongle dongle_id (normalize a) in
    after_start-IsStarted since (unix_millis now) table op new (create (unix_millis now) table new)
      refl refl refl h

may_start_guards :
    (blank : String → Bool) (rows : DeviceRows) (lim : Limits) (now : ℕ) (table : Table)
    (dongle_id : String) (trigger : Trigger)
    → may_start blank rows lim now table dongle_id trigger ≡ granted tt
    → (t : DongleTarget) × (target blank rows dongle_id ≡ granted t)
      × IsGuarded lim now table dongle_id trigger t
unfolding may_start
may_start_guards blank rows lim now table dongle_id trigger h =
    let (t, found, rest) = bind_granted (target blank rows dongle_id) _ tt h in
    let (_, free, guard) =
      bind_granted (check_conflict table SubjectType.dongle dongle_id) _ tt rest in
    (t, found, allowed_guards lim now table dongle_id trigger t free guard)

-- A granted RebootAs found the dongle and its slot, and no operation live on the dongle. An automatic
-- one was within the budget and the cooldown, and any other one met no live operation on the proxy of
-- the slot. Its operation, with the new id, is added to the table, and is then the live one of the dongle.
pub reboot_as_granted :
    (blank : String → Bool) (rows : DeviceRows) (lim : Limits) (now : ℕ) (id : String)
    (is_closed : Bool) (since : Option ℕ) (table : Table) (dongle_id : String) (a : Actor)
    (op : Operation)
    → (reboot_as blank rows lim now id is_closed since table dongle_id a).1 ≡ granted op
    → ((t : DongleTarget) × (target blank rows dongle_id ≡ granted t)
        × IsGuarded lim now table dongle_id (normalize a).trigger t)
      × IsStarted table id dongle_id
          (reboot_as blank rows lim now id is_closed since table dongle_id a).0
unfolding reboot_as
reboot_as_granted blank rows lim now id is_closed since table dongle_id a op h =
    go (may_start blank rows lim now table dongle_id (normalize a).trigger) refl h
  where
    answer : Reply (Unit {0}) → Table × Reply Operation
    answer m =
        on_reply m (λ why. (table, refused why))
          (λ _.
            start lim.reboot_deadline now id is_closed since table OpKind.reboot SubjectType.dongle
              dongle_id (normalize a))

    go :
        (m : Reply (Unit {0}))
        → may_start blank rows lim now table dongle_id (normalize a).trigger ≡ m
        → (answer m).1 ≡ granted op
        → ((t : DongleTarget) × (target blank rows dongle_id ≡ granted t)
            × IsGuarded lim now table dongle_id (normalize a).trigger t)
          × IsStarted table id dongle_id (answer m).0
    go (refused why) e h' = absurd (cc)
    go (granted tt) e h' = (
      may_start_guards blank rows lim now table dongle_id (normalize a).trigger e,
      start-IsStarted lim.reboot_deadline now id is_closed since table dongle_id (normalize a) op
          h',
    )
