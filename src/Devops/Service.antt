-- ===== src/Devops/Service.antt =====
-- devops/reboot.go: the Service that starts reboots, with its guards, and what step and finishOp write.
-- It writes only to the table of operations; the other rows are read through functions that may fail.
-- Events and the goroutine of a run are left out.
pub mod Granted
pub mod Rebooter
mod Tests
use huawei_api.Base.{
  ℕ, suc, ◌+◌, ◌*◌, ◌/◌, String, Bool, true, false, not, str_eq, if◌then◌else◌, length, Option,
  some, none, List, [], ◌∷◌,
}
use huawei_api.Base.Int.{ℤ, pos, ◌+ℤ◌, pos_part}
use huawei_api.Domain.Enums.{OpKind, OpState, Trigger, SubjectType, ActorType}
use huawei_api.Domain.Errors.{Err, not_found, invalid, op_in_progress, Result, ok, err, after}
use huawei_api.Domain.Model.{Node, Dongle, SlotRow, Proxy, Operation}
use huawei_api.Store.Operations.{Table, find_active, create, progress, finish}
use huawei_api.Reconcile.World.{unix_millis}
use huawei_api.Rotate.Request.{
  Refusal, by_store, closed, over_budget, in_conflict, Reply, granted, refused, ◌>>=◌, ◌>>◌, demand,
  from_store, check_conflict, default_trigger, may_reboot, on_reply,
}

pub record Actor : Type 0 where
  pub trigger : Trigger
  pub actor_type : ActorType
  pub id : String
  pub request_id : String

-- AdminActor
abbrev pub admin_actor : Actor
admin_actor = record {
  trigger = Trigger.admin_ui;
  actor_type = ActorType.admin;
  id = "";
  request_id = "";
}

-- SystemActor
abbrev pub system_actor : String → Actor
system_actor reason = record {
  trigger = Trigger.auto_recovery;
  actor_type = ActorType.system;
  id = reason;
  request_id = "";
}

abbrev type_of : Trigger → ActorType
type_of Trigger.auto_recovery = ActorType.system
type_of Trigger.customer_api = ActorType.api_key
type_of _ = ActorType.admin

abbrev typed : Trigger → ActorType → ActorType
typed t (ActorType.other s) = if str_eq s "" then type_of t else ActorType.other s
typed t a = a

-- Actor.normalize
unfoldable pub normalize : Actor → Actor
normalize a =
    let trigger = default_trigger a.trigger in
    record a { trigger = trigger; actor_type = typed trigger a.actor_type }

-- Dongles().Get, Slots().GetByDongle, Nodes().Get and Proxies().GetBySlot.
pub record DeviceRows : Type 0 where
  pub dongle : String → Result Dongle
  pub slot_of_dongle : String → Result SlotRow
  pub node : String → Result Node
  pub proxy_of_slot : String → Result Proxy

-- dongleTarget; a node or proxy that is not found is the zero one.
pub record DongleTarget : Type 0 where
  pub dongle : Dongle
  pub slot : SlotRow
  pub node : Option Node
  pub proxy : Option Proxy

abbrev if_found {ℓ} : {A : Type ℓ} → Result A → Reply (Option A)
if_found (ok a) = granted (some a)
if_found (err not_found) = granted none
if_found (err e) = refused (by_store e)

-- Service.target. `blank` is `strings.TrimSpace(id) == ""`.
unfoldable pub target : (String → Bool) → DeviceRows → String → Reply DongleTarget
target blank rows dongle_id = do
  demand (not (blank dongle_id)) (by_store invalid)
  d ← from_store (rows.dongle dongle_id)
  row ← from_store (rows.slot_of_dongle dongle_id)
  node ← if_found (rows.node row.node_id)
  px ← if_found (rows.proxy_of_slot row.id)
  granted (record { dongle = d; slot = row; node = node; proxy = px })

-- checkRotateFence
abbrev pub check_rotate_fence : Table → DongleTarget → Reply (Unit {0})
check_rotate_fence table t = elim t.proxy [
  | none ↦ granted tt
  | some px ↦ if str_eq px.id "" then granted tt else check_conflict table SubjectType.proxy px.id
]

-- The Timeouts that a start reads.
pub record Limits : Type 0 where
  pub reboot_deadline : ℤ
  pub reboot_budget_per_day : ℤ
  pub reboot_cooldown : ℤ

abbrev pub is_auto_recovery : Trigger → Bool
is_auto_recovery Trigger.auto_recovery = true
is_auto_recovery _ = false

-- The guard of RebootAs that depends on the trigger.
abbrev pub allowed : Limits → ℕ → Table → String → Trigger → DongleTarget → Reply (Unit {0})
allowed lim now table dongle_id trigger t =
    if is_auto_recovery trigger
    then demand (may_reboot lim.reboot_budget_per_day lim.reboot_cooldown now table dongle_id)
        over_budget
    else check_rotate_fence table t

-- RebootAs up to start. One reading of the clock stands for all of them.
unfoldable pub may_start :
    (String → Bool) → DeviceRows → Limits → ℕ → Table → String → Trigger → Reply (Unit {0})
unfolding target
may_start blank rows lim now table dongle_id trigger = do
  t ← target blank rows dongle_id
  check_conflict table SubjectType.dongle dongle_id
  allowed lim now table dongle_id trigger t

-- The row that start creates, under a new id.
unfoldable pub start_row : ℤ → ℕ → String → OpKind → SubjectType → String → Actor → Operation
start_row deadline now id kind subject subject_id a = record {
  id = id;
  kind = kind;
  subject_type = subject;
  subject_id = subject_id;
  state = OpState.pending;
  step = "";
  pct = 0;
  started_at = unix_millis now;
  deadline_at = unix_millis (pos_part (pos now +ℤ deadline));
  finished_at = none;
  error = "";
  result_json = "";
  trigger = a.trigger;
  actor_type = a.actor_type;
  actor_id = a.id;
  request_id = a.request_id;
  created_at = 0;
  updated_at = 0;
}

-- The error of Create, as start returns it.
abbrev start_refusal : Table → SubjectType → String → Err → Refusal
start_refusal table subject id op_in_progress = elim (find_active table subject id) [
  | some live ↦ in_conflict live.id
  | none ↦ by_store op_in_progress
]
start_refusal table subject id e = by_store e

-- start after Create. If the service was closed meanwhile, the new operation is cancelled at once.
unfoldable pub after_start : Option ℕ → Table → Operation → Result Table → Table × Reply Operation
after_start since table op (err e) =
    (table, refused (start_refusal table op.subject_type op.subject_id e))
after_start none table op (ok started) = (started, granted op)
after_start (some at) table op (ok started) = (
  after started
      (finish at started op.id OpState.canceled "devops: service is shutting down" "{}" at),
  refused closed,
)

-- start. `is_closed` is the flag at the start, and `closed_since` the time at which the service is
-- found closed after Create.
unfoldable pub start :
    ℤ
    → ℕ
    → String
    → Bool
    → Option ℕ
    → Table
    → OpKind
    → SubjectType
    → String
    → Actor
    → Table × Reply Operation
unfolding normalize
start deadline now id is_closed since table kind subject subject_id a =
    let op = start_row deadline now id kind subject subject_id (normalize a) in
    if is_closed
    then (table, refused closed)
    else after_start since table op (create (unix_millis now) table op)

-- RebootAs
unfoldable pub reboot_as :
    (String → Bool)
    → DeviceRows
    → Limits
    → ℕ
    → String
    → Bool
    → Option ℕ
    → Table
    → String
    → Actor
    → Table × Reply Operation
unfolding normalize
reboot_as blank rows lim now id is_closed since table dongle_id a =
    on_reply (may_start blank rows lim now table dongle_id (normalize a).trigger)
      (λ why. (table, refused why))
      (λ _.
        start lim.reboot_deadline now id is_closed since table OpKind.reboot SubjectType.dongle
          dongle_id (normalize a))

-- RebootAuto, with the id of the operation that it returns.
unfoldable pub reboot_auto :
    (String → Bool)
    → DeviceRows
    → Limits
    → ℕ
    → String
    → Bool
    → Option ℕ
    → String
    → Table
    → String
    → Table × Option String
unfolding reboot_as
reboot_auto blank rows lim now id is_closed since reason table dongle_id =
    let (t, r) =
      reboot_as blank rows lim now id is_closed since table dongle_id (system_actor reason) in
    (t, on_reply r (λ _. none) (λ op. some op.id))

-- pctOf
unfoldable pub pct_of : String → List String → ℕ
pct_of name steps = go steps 0
  where
    go : List String → ℕ → ℕ
    go [] i = 0
    go (v ∷ vs) i = if str_eq v name then (i + 1) * 100 / length steps else go vs (suc i)

-- What step writes; its errors are passed over.
unfoldable pub mark_step : ℕ → Table → String → String → List String → Table
mark_step now table id name steps =
    after table (progress (unix_millis now) table id OpState.running name (pct_of name steps))

-- What finishOp writes: `failure` is the reason and the text of the error, and `body` the JSON.
unfoldable pub finish_op : ℕ → Table → String → String → Option (String × String) → Table
finish_op now table id body none =
    after table (finish (unix_millis now) table id OpState.succeeded "" body (unix_millis now))
finish_op now table id body (some (reason, text)) = after table (
    finish (unix_millis now) table id OpState.failed (if str_eq reason "" then text else reason)
      body (unix_millis now))
