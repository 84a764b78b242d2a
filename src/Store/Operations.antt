-- ===== src/Store/Operations.antt =====
-- store/repo_operation.go with the table, its checks and its unique indexes of
-- migrations/0001_init.sql. `now` is the clock that `base.now` reads.
pub mod Invariant
pub mod History
pub mod Busy
pub mod Listing
pub mod Ending
pub mod Tests
use huawei_api.Base.{
  ℕ, suc, ◌+◌, String, Bool, true, false, not, ◌&&◌, ◌||◌, ltb, leb, ◌==◌, str_eq, if◌then◌else◌,
  any, Option, some, none, List, [], ◌∷◌,
}
use huawei_api.Domain.Enums.{
  OpState, terminal, op_state_valid, SubjectType, ActorType, op_kind_valid, trigger_valid,
}
use huawei_api.Domain.Model.{Operation, is_none}
use huawei_api.Domain.Errors.{
  Err, not_found, conflict, invalid, op_in_progress, Result, ok, err, ◌>>=◌, ◌>>◌, refuse_if, after,
}

abbrev pub Table : Type 0
Table = List Operation

-- finished_at IS NULL
abbrev pub is_live : Operation → Bool
is_live o = is_none o.finished_at

abbrev pub subject_eq : SubjectType → SubjectType → Bool
subject_eq SubjectType.proxy SubjectType.proxy = true
subject_eq SubjectType.dongle SubjectType.dongle = true
subject_eq SubjectType.slot SubjectType.slot = true
subject_eq SubjectType.node SubjectType.node = true
subject_eq _ _ = false

abbrev pub on_subject : SubjectType → String → Operation → Bool
on_subject t i o = subject_eq o.subject_type t && str_eq o.subject_id i

-- The primary key, and the unique index ux_operations_active over the live rows.
abbrev pub clashes : Operation → Operation → Bool
clashes o p =
    str_eq o.id p.id || (is_live o && is_live p && on_subject p.subject_type p.subject_id o)

-- The CHECKs that the method does not make itself.
abbrev pub row_checked : Operation → Bool
row_checked o = leb o.pct 100 && actor_checked o.actor_type
  where
    actor_checked : ActorType → Bool
    actor_checked (ActorType.other s) = str_eq s ""
    actor_checked _ = true

-- INSERT INTO operations
abbrev insert_row : Table → Operation → Result Table
insert_row table o = do
  refuse_if (not (row_checked o)) invalid
  refuse_if (any (clashes o) table) conflict
  ok (o ∷ table)

-- The SELECT of FindActive; the index leaves one row at most.
unfoldable pub find_active : Table → SubjectType → String → Option Operation
find_active [] t i = none
find_active (o ∷ os) t i = if is_live o && on_subject t i o then some o else find_active os t i

-- The SELECT of Get.
unfoldable pub get : Table → String → Option Operation
get [] i = none
get (o ∷ os) i = if str_eq o.id i then some o else get os i

-- base.stamps
abbrev stamp : ℕ → ℕ → ℕ
stamp now created = if ltb 0 created then created else now

abbrev is_empty_state : OpState → Bool
is_empty_state (OpState.other s) = str_eq s ""
is_empty_state _ = false

-- What Create fills in before the INSERT.
unfoldable pub filled : ℕ → Operation → Operation
filled now o =
    let created = stamp now o.created_at in
    record o {
      state = if is_empty_state o.state then OpState.pending else o.state;
      started_at = if o.started_at == 0 then created else o.started_at;
      created_at = created;
      updated_at = now;
    }

-- The error of Create: a conflict of a live row becomes ErrOpInProgress, if another operation is
-- live on the subject.
abbrev create_error : Table → Operation → Err → Err
create_error table o conflict = elim (find_active table o.subject_type o.subject_id) [
  | some other ↦ if is_live o && not (str_eq other.id o.id) then op_in_progress else conflict
  | none ↦ conflict
]
create_error table o e = e

-- Create
unfoldable pub create : ℕ → Table → Operation → Result Table
unfolding filled
create now table o = do
  refuse_if (str_eq o.id "" || str_eq o.subject_id "") invalid
  refuse_if (not (op_kind_valid o.kind)) invalid
  refuse_if (not (trigger_valid o.trigger)) invalid
  let row = filled now o
  refuse_if (not (op_state_valid row.state)) invalid
  elim (insert_row table row) [ ok t ↦ ok t | err e ↦ err (create_error table row e) ]

-- UPDATE operations SET … WHERE …, and the number of rows affected.
pub update : (Operation → Bool) → (Operation → Operation) → Table → Table
update p f [] = []
update p f (o ∷ os) = (if p o then f o else o) ∷ update p f os

pub affected : (Operation → Bool) → Table → ℕ
affected p [] = 0
affected p (o ∷ os) = (if p o then 1 else 0) + affected p os

-- base.execAffecting: no row affected is ErrNotFound.
abbrev exec_affecting : (Operation → Bool) → (Operation → Operation) → Table → Result Table
exec_affecting p f table = if affected p table == 0 then err not_found else ok (update p f table)

abbrev live_id : String → Operation → Bool
live_id i o = str_eq o.id i && is_live o

abbrev progressed : ℕ → OpState → String → ℕ → Operation → Operation
progressed now state step pct o = record o {
  state = state;
  step = step;
  pct = pct;
  updated_at = now;
}

-- Progress
unfoldable pub progress : ℕ → Table → String → OpState → String → ℕ → Result Table
unfolding update affected
progress now table i state step pct = do
  refuse_if (not (op_state_valid state)) invalid
  refuse_if (terminal state) invalid
  refuse_if (ltb 100 pct) invalid
  exec_affecting (live_id i) (progressed now state step pct) table

abbrev pub finished_as : ℕ → OpState → String → String → ℕ → Operation → Operation
finished_as now state msg result at o = record o {
  state = state;
  error = msg;
  result_json = result;
  finished_at = some (if at == 0 then now else at);
  pct = 100;
  updated_at = now;
}

-- Finish
unfoldable pub finish : ℕ → Table → String → OpState → String → String → ℕ → Result Table
unfolding update affected
finish now table i state msg result at = do
  refuse_if (not (terminal state)) invalid
  exec_affecting (live_id i) (finished_as now state msg result at) table

abbrev is_waiting : OpState → Bool
is_waiting OpState.pending = true
is_waiting OpState.running = true
is_waiting _ = false

-- The WHERE of MarkStalled.
abbrev pub overdue : ℕ → Operation → Bool
overdue now o = is_live o && ltb 0 o.deadline_at && ltb o.deadline_at now && is_waiting o.state

abbrev stalled_past_deadline : String
stalled_past_deadline = "stalled; the operation passed its deadline without finishing"

abbrev orphaned_by_restart : String
orphaned_by_restart = "orphaned by a panel restart; no process was adopted"

abbrev close_as : OpState → String → ℕ → Operation → Operation
close_as state msg now o = record o {
  state = state;
  error = msg;
  finished_at = some now;
  updated_at = now;
}

-- MarkStalled: the table and the number of rows.
unfoldable pub mark_stalled : ℕ → Table → Table × ℕ
unfolding update affected
mark_stalled now table = (
  update (overdue now) (close_as OpState.stalled stalled_past_deadline now) table,
  affected (overdue now) table,
)

-- ReconcileOrphans
unfoldable pub reconcile_orphans : ℕ → Table → Table × ℕ
unfolding update affected
reconcile_orphans now table =
    (update is_live (close_as OpState.failed orphaned_by_restart now) table, affected is_live table)

-- ListActive, without its order.
unfoldable pub list_active : Table → Table
list_active [] = []
list_active (o ∷ os) = let rest = list_active os in if is_live o then o ∷ rest else rest

-- The calls that write, with their arguments.
pub data Call : Type 0 where
  creates : Operation → Call
  progresses : String → OpState → String → ℕ → Call
  finishes : String → OpState → String → String → ℕ → Call
  marks_stalled reconciles : Call

-- One call at the time `now`.
unfoldable pub step : Table → ℕ × Call → Table
unfolding create progress finish mark_stalled reconcile_orphans
step table (now, creates o) = after table (create now table o)
step table (now, progresses i state name pct) = after table (progress now table i state name pct)
step table (now, finishes i state msg result at) =
    after table (finish now table i state msg result at)
step table (now, marks_stalled) = (mark_stalled now table).0
step table (now, reconciles) = (reconcile_orphans now table).0

unfoldable pub run : Table → List (ℕ × Call) → Table
run table [] = table
run table (c ∷ cs) = run (step table c) cs
