-- ===== src/Rotate/Request/Tests.antt =====
-- Requests for one proxy (rotate/rotate.go): while it is busy, and once it is free.
use huawei_api.Base.{ℕ, ◌≡◌, refl, inl, String, Bool, true, false, str_eq, some, none, [], ◌∷◌}
use huawei_api.Domain.Addr.{Addr}
use huawei_api.Domain.Enums.{Trigger, SubjectType, ActorType, RotationResult}
use huawei_api.Domain.Errors.{ok}
use huawei_api.Domain.Model.{Rotation, occupied}
use huawei_api.Store.Operations.{find_active, create, filled, get}
use huawei_api.Store.Operations.Tests.{rotation, finished, mixed}
use huawei_api.Store.Rotations.{last_for}
use huawei_api.Reconcile.Plan.Tests.{slot_row, dongle_row, proxy_row}
use huawei_api.Rotate.Policy.Tests.{two_attempts}
use huawei_api.Rotate.Request.{
  Rows, Request, closed, completed, rotate_row, target, check_interval, check_conflict, checked,
  submit, after_create, rotate,
}
use huawei_api.Rotate.Request.Refused.{is_refused, rotate_refuses}
use huawei_api.Rotate.Request.Closed.{rotate_refused_keeps}

abbrev pub rows : Rows
rows = record {
  proxy = λ _. ok proxy_row;
  slot = λ _. ok slot_row;
  node = λ _. ok (record { id = "nd_1"; public_host = Addr.v4 3405803777 });
  dongle = λ _. ok dongle_row;
}

abbrev pub request : Request
request = record {
  proxy_id = "px_1";
  trigger = Trigger.other "";
  actor_type = ActorType.other "";
  actor_id = "admin";
  request_id = "rq_9";
  allow_reboot = true;
}

abbrev blank : String → Bool
blank id = str_eq id ""

-- Half an hour after 1970.
abbrev now : ℕ
now = 1800000000000

abbrev past : Rotation
past = record {
  id = "rot_1";
  operation_id = "op_0";
  proxy_id = "px_1";
  requested_at = 900;
  duration_ms = 40000;
  old_public_ip = Addr.v4 167772161;
  new_public_ip = Addr.v4 167772162;
  ip_changed = true;
  result = RotationResult.changed;
  trigger = Trigger.admin_ui;
  request_id = "rq_0";
  hold_ms = 5000;
  attempts = 1;
  error = "";
}

rotate_refuses_example :
    let answer = rotate blank rows two_attempts now "op_9" false none mixed [] request in
    (answer.0 ≡ mixed) × (is_refused answer.1 ≡ true)
unfolding find_active str_eq
rotate_refuses_example =
    rotate_refuses blank rows two_attempts now "op_9" false none mixed [] request
      (inl (rotation, refl))

rotate_refused_keeps_example :
    find_active
      (rotate blank rows two_attempts now "op_9" false (some 1800001) (finished ∷ []) [] request).0
      SubjectType.proxy
      "px_1"
    ≡ find_active (finished ∷ []) SubjectType.proxy "px_1"
unfolding rotate checked submit after_create rotate_row completed target check_interval
    check_conflict last_for find_active get create filled str_eq occupied
rotate_refused_keeps_example =
    rotate_refused_keeps blank rows two_attempts now "op_9" false (some 1800001) (finished ∷ []) []
      request closed (tt, tt) refl
