-- ===== src/Rotate/Finish.antt =====
-- rotate/rotate.go: finish and escalateReboot, which record the result of a run. The Rebooter is a
-- function on the table of operations that answers with the id of its operation; `encode` is the JSON
-- of the result. The note of the run is left out, and so are the events.
pub mod Laws
pub mod Tests
use huawei_api.Base.{
  ℕ, ◌-◌, ◌/◌, String, Bool, true, false, not, ◌&&◌, ◌==◌, str_eq, if◌then◌else◌, Option, some,
  none,
}
use huawei_api.Base.Int.{ℤ, pos_part}
use huawei_api.Domain.Addr.{Addr}
use huawei_api.Domain.Enums.{OpState, RotationResult}
use huawei_api.Domain.Errors.{Result, after}
use huawei_api.Domain.Model.{Dongle, Operation, Rotation}
use huawei_api.Store.Operations.{Table, finish}
use huawei_api.Store.Rotations.{Rotations, create_rotation}
use huawei_api.Reconcile.World.{unix_millis}
use huawei_api.Rotate.Policy.{Policy}
use huawei_api.Rotate.Request.{may_reboot, Request}
use huawei_api.Rotate.Run.{
  RunResult, Reason, no_reason, changed, unchanged, sim_lock, leak, device_unreachable,
  no_data_session, slot_empty, fence_failure, probe_failure, deadline, canceled,
}

-- The text of the constant.
abbrev pub reason_text : Reason → String
reason_text no_reason = ""
reason_text changed = "changed"
reason_text unchanged = "unchanged"
reason_text sim_lock = "sim_locked"
reason_text leak = "egress_leak"
reason_text device_unreachable = "device_unreachable"
reason_text no_data_session = "no_data_session"
reason_text slot_empty = "slot_has_no_dongle"
reason_text fence_failure = "fence_failed"
reason_text probe_failure = "probe_failed"
reason_text deadline = "deadline_exceeded"
reason_text canceled = "canceled"

abbrev is_unchanged : Reason → Bool
is_unchanged unchanged = true
is_unchanged _ = false

-- What the switch of finish settles: the result, the state and the error.
pub record Ending : Type 0 where
  pub result : RotationResult
  pub state : OpState
  pub message : String

abbrev ending : RotationResult → OpState → String → Ending
ending result state message = record { result = result; state = state; message = message }

-- The switch of finish.
unfoldable pub ending_of : RunResult → Ending
ending_of res =
    if res.is_changed
    then ending RotationResult.changed OpState.succeeded ""
    else if is_unchanged res.reason
    then ending RotationResult.unchanged OpState.failed "unchanged"
    else ending RotationResult.failed OpState.failed (reason_text res.reason)

-- OpResult, without the note.
pub record OpResult : Type 0 where
  pub result : RotationResult
  pub ip_changed : Bool
  pub old_public_ip : Addr
  pub new_public_ip : Addr
  pub attempts : ℕ
  pub hold_ms : ℕ
  pub duration_ms : ℕ
  pub conns_killed : ℕ
  pub reason : String
  pub reboot_op_id : String

-- RebootAuto: the table, and the id of the operation unless it is refused.
abbrev pub Rebooter : Type 0
Rebooter = Table → String → Table × Option String

-- escalateReboot; the zero dongle has no id.
unfoldable pub escalate :
    Policy → ℕ → Option Rebooter → Table → Option Dongle → Table × Option String
escalate pol now none table dongle = (table, none)
escalate pol now (some reboot) table none = (table, none)
escalate pol now (some reboot) table (some d) =
    if str_eq d.id ""
    then (table, none)
    else if may_reboot pol.reboot_budget_per_day pol.reboot_cooldown now table d.id
    then reboot table d.id
    else (table, none)

abbrev is_unchanged_result : RotationResult → Bool
is_unchanged_result RotationResult.unchanged = true
is_unchanged_result _ = false

abbrev id_or_empty : Option String → String
id_or_empty none = ""
id_or_empty (some id) = id

-- What finish works with; `now` is not before `started_at`.
pub record Finish : Type 0 where
  pub policy : Policy
  pub rebooter : Option Rebooter
  pub encode : OpResult → String
  pub now : ℕ
  pub started_at : ℕ
  pub rotation_id : String
  -- `res.Err.Error()`
  pub detail : String

-- The row that finish adds to the rotations.
unfoldable pub rotation_row : Finish → Operation → RunResult → Rotation
unfolding ending_of
rotation_row f op res = record {
  id = f.rotation_id;
  operation_id = op.id;
  proxy_id = op.subject_id;
  requested_at = unix_millis f.started_at;
  duration_ms = unix_millis (f.now - f.started_at);
  old_public_ip = res.old;
  new_public_ip = res.new;
  ip_changed = res.is_changed;
  result = (ending_of res).result;
  trigger = op.trigger;
  request_id = op.request_id;
  hold_ms = unix_millis (pos_part res.hold);
  attempts = res.attempts;
  error = f.detail;
}

-- The escalation of a run that changed nothing.
pub escalated : Finish → Request → Option Dongle → RunResult → Table → Table × Option String
unfolding ending_of
escalated f req dongle res table =
    if is_unchanged_result (ending_of res).result && req.allow_reboot
    then escalate f.policy f.now f.rebooter table dongle
    else (table, none)

-- The payload of finish, encoded.
pub recorded_as : Finish → RunResult → Option String → String
unfolding ending_of
recorded_as f res reboot_id = f.encode (record {
  result = (ending_of res).result;
  ip_changed = res.is_changed;
  old_public_ip = res.old;
  new_public_ip = res.new;
  attempts = res.attempts;
  hold_ms = unix_millis (pos_part res.hold);
  duration_ms = unix_millis (f.now - f.started_at);
  conns_killed = res.conns_killed;
  reason = reason_text res.reason;
  reboot_op_id = id_or_empty reboot_id;
})

-- The Finish call, with the table after the escalation and the id of the reboot.
pub closed_op : Finish → Operation → RunResult → Table × Option String → Table
unfolding ending_of recorded_as
closed_op f op res (table, reboot_id) =
    let now_ms = unix_millis f.now in
    let e = ending_of res in
    after table (finish now_ms table op.id e.state e.message (recorded_as f res reboot_id) now_ms)

-- finish: the tables of operations and rotations after it.
unfoldable pub finish_run :
    Finish → Request → Operation → Option Dongle → RunResult → Table → Rotations → Table × Rotations
unfolding rotation_row escalated closed_op
finish_run f req op dongle res table rotations = (
  closed_op f op res (escalated f req dongle res table),
  after rotations (create_rotation (unix_millis f.now) rotations (rotation_row f op res)),
)
