-- ===== src/Rotate/Request/Accepted.antt =====
-- The requests that Rotate of rotate/rotate.go takes on.
use huawei_api.Store.Rotations.{Rotations}
use huawei_api.Rotate.Policy.{Policy}
use huawei_api.Rotate.Request.{Request}
