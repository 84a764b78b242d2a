-- ===== src/Rotate/Request.antt =====
-- rotate/rotate.go: Rotate with the checks before it, and the budget of reboots. Rotate writes only to
-- the table of operations; the rows of proxies, slots, nodes and dongles are read through functions
-- that may fail. Events are left out: publishOp ignores its errors.
pub mod Accepted
pub mod Closed
pub mod Refused
pub mod Tests
use huawei_api.Base.{
  ℕ, ◌*◌, ◌/◌, String, Bool, true, false, not, ◌&&◌, str_eq, if◌then◌else◌, any, length, Option,
  some, none,
}
use huawei_api.Base.Int.{ℤ, pos, ◌+ℤ◌, ◌-ℤ◌, ltb_ℤ, leb_ℤ, pos_part}
use huawei_api.Domain.Enums.{OpKind, OpState, Trigger, trigger_valid, SubjectType, ActorType}
use huawei_api.Domain.Errors.{Err, not_found, invalid, op_in_progress, Result, ok, err, after}
use huawei_api.Domain.Model.{Node, Dongle, SlotRow, Proxy, Operation, Rotation, occupied}
use huawei_api.Store.Operations.{Table, find_active, create, finish}
use huawei_api.Store.Operations.Listing.{OperationFilter, no_filter, listed}
use huawei_api.Store.Rotations.{Rotations, last_for}
use huawei_api.Reconcile.World.{unix_millis}
use huawei_api.Reconcile.Budgets.{from_unix_millis, day_start}
use huawei_api.Rotate.Policy.{Policy, row_deadline}

-- What Rotate refuses with: an error of the store, ErrClosed, TooSoonError with the time to wait, or
-- ConflictError with the live operation. RebootAs of devops/reboot.go has ErrRebootBudget besides.
pub data Refusal : Type 0 where
  by_store : Err → Refusal
  closed : Refusal
  too_soon : ℤ → Refusal
  over_budget : Refusal
  in_conflict : String → Refusal

pub data Reply {ℓ} (A : Type ℓ) : Type ℓ where
  granted : A → Reply A
  refused : Refusal → Reply A

infixl 5 ◌>>=◌ ◌>>◌
abbrev pub ◌>>=◌ {ℓ κ} :
    {First : Type ℓ} {Last : Type κ} → Reply First → (First → Reply Last) → Reply Last
refused why >>= rest = refused why
granted a >>= rest = rest a

abbrev pub ◌>>◌ {ℓ} : {Last : Type ℓ} → Reply (Unit {0}) → Reply Last → Reply Last
test >> rest = test >>= λ _. rest

abbrev pub demand : Bool → Refusal → Reply (Unit {0})
demand true why = granted tt
demand false why = refused why

abbrev pub from_store {ℓ} : {A : Type ℓ} → Result A → Reply A
from_store (ok a) = granted a
from_store (err e) = refused (by_store e)

-- Proxies().Get, Slots().Get, Nodes().Get and Dongles().Get.
pub record Rows : Type 0 where
  pub proxy : String → Result Proxy
  pub slot : String → Result SlotRow
  pub node : String → Result Node
  pub dongle : String → Result Dongle

pub record Target : Type 0 where
  pub proxy : Proxy
  pub slot : SlotRow
  pub node : Node
  pub dongle : Option Dongle

-- The dongle of an occupied slot; one that is gone is the zero dongle.
abbrev dongle_read : Result Dongle → Reply (Option Dongle)
dongle_read (ok d) = granted (some d)
dongle_read (err not_found) = granted none
dongle_read (err e) = refused (by_store e)

abbrev dongle_in : Rows → SlotRow → Reply (Option Dongle)
dongle_in rows row =
    if occupied row
    then (elim row.dongle_id [ none ↦ granted none | some id ↦ dongle_read (rows.dongle id) ])
    else granted none

-- Engine.target
unfoldable pub target : Rows → String → Reply Target
target rows proxy_id = do
  px ← from_store (rows.proxy proxy_id)
  row ← from_store (rows.slot px.slot_id)
  node ← from_store (rows.node row.node_id)
  d ← dongle_in rows row
  granted (record { proxy = px; slot = row; node = node; dongle = d })

-- checkInterval once the last rotation of the proxy is read.
abbrev interval_since : Policy → ℕ → Option Rotation → Reply (Unit {0})
interval_since pol now none = granted tt
interval_since pol now (some last) =
    let elapsed = pos now -ℤ pos (from_unix_millis last.requested_at) in
    demand (leb_ℤ pol.min_interval elapsed) (too_soon (pol.min_interval -ℤ elapsed))

-- checkInterval
unfoldable pub check_interval : Policy → ℕ → Rotations → String → Reply (Unit {0})
check_interval pol now rotations proxy_id =
    if leb_ℤ pol.min_interval (pos 0)
    then granted tt
    else interval_since pol now (last_for rotations proxy_id)

-- checkConflict
unfoldable pub check_conflict : Table → SubjectType → String → Reply (Unit {0})
check_conflict table subject id = elim (find_active table subject id) [
  | none ↦ granted tt
  | some live ↦ refused (in_conflict live.id)
]

pub record Request : Type 0 where
  pub proxy_id : String
  pub trigger : Trigger
  pub actor_type : ActorType
  pub actor_id : String
  pub request_id : String
  pub allow_reboot : Bool

-- actorFor
abbrev pub actor_for : Trigger → ActorType
actor_for Trigger.customer_api = ActorType.api_key
actor_for Trigger.auto_recovery = ActorType.system
actor_for _ = ActorType.admin

abbrev pub default_trigger : Trigger → Trigger
default_trigger (Trigger.other s) = if str_eq s "" then Trigger.admin_ui else Trigger.other s
default_trigger t = t

abbrev default_actor : Trigger → ActorType → ActorType
default_actor t (ActorType.other s) = if str_eq s "" then actor_for t else ActorType.other s
default_actor t a = a

-- What Rotate fills in.
unfoldable pub completed : Request → Request
completed req =
    let trigger = default_trigger req.trigger in
    record req { trigger = trigger; actor_type = default_actor trigger req.actor_type }

-- The row that Rotate creates, under a new id.
unfoldable pub rotate_row : Policy → ℕ → String → Request → Operation
rotate_row pol now id req = record {
  id = id;
  kind = OpKind.rotate;
  subject_type = SubjectType.proxy;
  subject_id = req.proxy_id;
  state = OpState.pending;
  step = "";
  pct = 0;
  started_at = unix_millis now;
  deadline_at = unix_millis (pos_part (pos now +ℤ row_deadline pol));
  finished_at = none;
  error = "";
  result_json = "";
  trigger = req.trigger;
  actor_type = req.actor_type;
  actor_id = req.actor_id;
  request_id = req.request_id;
  created_at = 0;
  updated_at = 0;
}

-- Rotate up to Create. `blank` is `strings.TrimSpace(id) == ""`.
unfoldable pub checked :
    (String → Bool) → Rows → Policy → ℕ → Bool → Table → Rotations → Request → Reply Target
checked blank rows pol now is_closed table rotations req = do
  demand (not (blank req.proxy_id)) (by_store invalid)
  demand (trigger_valid req.trigger) (by_store invalid)
  demand (not is_closed) closed
  t ← target rows req.proxy_id
  check_interval pol now rotations req.proxy_id
  check_conflict table SubjectType.proxy req.proxy_id
  granted t

-- The error of Create, as Rotate returns it.
abbrev create_refusal : Table → String → Err → Refusal
create_refusal table proxy_id op_in_progress = elim (find_active table SubjectType.proxy proxy_id) [
  | some live ↦ in_conflict live.id
  | none ↦ by_store op_in_progress
]
create_refusal table proxy_id e = by_store e

-- Rotate after Create. If the engine was closed meanwhile, the new operation is cancelled at once.
pub after_create : Option ℕ → Table → Operation → Result Table → Table × Reply Operation
after_create since table op (err e) = (table, refused (create_refusal table op.subject_id e))
after_create none table op (ok created) = (created, granted op)
after_create (some at) table op (ok created) = (
  after created
      (finish at created op.id OpState.canceled "rotate: engine is shutting down" "{}" at),
  refused closed,
)

-- Rotate from Create on.
unfoldable pub submit : ℕ → Option ℕ → Table → Operation → Table × Reply Operation
unfolding after_create
submit now_ms since table op = after_create since table op (create now_ms table op)

abbrev pub on_reply {ℓ κ} : {A : Type ℓ} {B : Type κ} → Reply A → (Refusal → B) → (A → B) → B
on_reply (refused why) no_ yes_ = no_ why
on_reply (granted a) no_ yes_ = yes_ a

-- Rotate. `is_closed` is the flag before the checks, and `closed_since` the time at which the engine is
-- found closed after Create. One reading of the clock stands for those of the checks.
unfoldable pub rotate :
    (String → Bool)
    → Rows
    → Policy
    → ℕ
    → String
    → Bool
    → Option ℕ
    → Table
    → Rotations
    → Request
    → Table × Reply Operation
unfolding completed
rotate blank rows pol now id is_closed closed_since table rotations req =
    on_reply (checked blank rows pol now is_closed table rotations (completed req))
      (λ why. (table, refused why))
      (λ t. submit (unix_millis now) closed_since table (rotate_row pol now id (completed req)))

-- The List call of RebootAllowed.
abbrev pub reboots_of : ℕ → String → OperationFilter
reboots_of now dongle_id = record no_filter {
  kind = some OpKind.reboot;
  subject_type = some SubjectType.dongle;
  subject_id = some dongle_id;
  since_ms = day_start now;
}

-- `now.Sub(startedAt) < cooldown`
abbrev pub cooling : ℤ → ℕ → Operation → Bool
cooling cooldown now o = ltb_ℤ (pos now -ℤ pos (from_unix_millis o.started_at)) cooldown

-- RebootAllowed, here and in devops/reboot.go, by the budget for a day and the cooldown.
unfoldable pub may_reboot : ℤ → ℤ → ℕ → Table → String → Bool
may_reboot per_day cooldown now table dongle_id =
    let ops = listed table (reboots_of now dongle_id) in
    if leb_ℤ per_day (pos 0)
    then false
    else if leb_ℤ per_day (pos (length ops))
    then false
    else not (any (cooling cooldown now) ops)
