-- ===== src/Store/Operations/Tests.antt =====
-- Two operations on one proxy, and the calls on their table (store/repo_operation.go).
use huawei_api.Base.{ℕ, ◌≡◌, false, str_eq, refl, All, length, some, none, List, [], ◌∷◌}
use huawei_api.Domain.Enums.{OpKind, OpState, Trigger, SubjectType, ActorType}
use huawei_api.Domain.Errors.{op_in_progress, err}
use huawei_api.Domain.Model.{Operation}
use huawei_api.Store.Operations.{
  Table, Call, creates, progresses, finishes, marks_stalled, find_active, filled, get, create,
  mark_stalled, reconcile_orphans, list_active, run, step, is_live,
}
use huawei_api.Store.Operations.Invariant.{Consistent, run-Consistent}
use huawei_api.Store.Operations.History.{finished_forever}
use huawei_api.Store.Operations.Ending.{finish_settles}
use huawei_api.Store.Operations.Busy.{
  IsAcceptable, create_busy, orphans_freed, InTime, stalled_swept,
}

abbrev pub rotation : Operation
rotation = record {
  id = "op_1";
  kind = OpKind.rotate;
  subject_type = SubjectType.proxy;
  subject_id = "px_1";
  state = OpState.pending;
  step = "";
  pct = 0;
  started_at = 1000;
  deadline_at = 5000;
  finished_at = none;
  error = "";
  result_json = "";
  trigger = Trigger.admin_ui;
  actor_type = ActorType.admin;
  actor_id = "admin";
  request_id = "rq_1";
  created_at = 1000;
  updated_at = 1000;
}

abbrev second : Operation
second = record rotation { id = "op_2" }

abbrev pub finished : Operation
finished = record rotation { id = "op_0"; state = OpState.succeeded; finished_at = some 900 }

abbrev pub mixed : Table
mixed = rotation ∷ finished ∷ []

abbrev history : List (ℕ × Call)
history =
    (1000, creates rotation)
    ∷ (1100, creates second)
    ∷ (1200, progresses "op_1" OpState.running "fence" 15)
    ∷ (1300, finishes "op_1" OpState.succeeded "" "" 0)
    ∷ (1400, creates second)
    ∷ (9000, marks_stalled)
    ∷ []

run-Consistent_example : Consistent (run [] history)
run-Consistent_example = run-Consistent [] history tt

finished_forever_example : get (run mixed history) "op_0" ≡ some finished
unfolding get str_eq
finished_forever_example = finished_forever mixed history "op_0" finished refl refl

second-IsAcceptable : IsAcceptable 1100 second
unfolding filled str_eq
second-IsAcceptable = record {
  id_given = refl;
  subject_given = refl;
  kind_known = refl;
  trigger_known = refl;
  state_known = refl;
  row_fits = refl;
  unfinished = refl;
}

create_busy_example : create 1100 mixed second ≡ err op_in_progress
unfolding find_active str_eq
create_busy_example = create_busy 1100 mixed second rotation second-IsAcceptable refl refl

orphans_freed_example :
    (find_active (reconcile_orphans 2000 mixed).0 SubjectType.proxy "px_1" ≡ none)
    × ((reconcile_orphans 2000 mixed).1 ≡ length (list_active mixed))
orphans_freed_example = orphans_freed 2000 mixed SubjectType.proxy "px_1"

stalled_swept_example :
    All (InTime 6000) (mark_stalled 6000 mixed).0
    × ((mark_stalled 6000 (mark_stalled 6000 mixed).0).1 ≡ 0)
stalled_swept_example = stalled_swept 6000 mixed

finish_settles_example :
    (o : Operation) × (get
        (run
          (step
            (run mixed ((1200, progresses "op_1" OpState.running "fence" 15) ∷ []))
            (1300, finishes "op_1" OpState.failed "timeout" "{}" 1300))
          ((1400, creates second) ∷ (9000, marks_stalled) ∷ []))
        "op_1"
      ≡ some o)
    × (is_live o ≡ false)
unfolding get str_eq
finish_settles_example =
    finish_settles mixed ((1200, progresses "op_1" OpState.running "fence" 15) ∷ [])
      ((1400, creates second) ∷ (9000, marks_stalled) ∷ []) "op_1" rotation 1300 OpState.failed
      "timeout" "{}" 1300 refl refl
