-- ===== src/Store/Rotations.antt =====
-- store/repo_rotation.go with the keys and checks of migrations/0001_init.sql. The rows that the
-- foreign keys name are taken to exist, and the order of List is left out.
use huawei_api.Base.{
  ℕ, String, Bool, true, not, ◌&&◌, ◌||◌, ltb, leb, ◌==◌, str_eq, str_le, if◌then◌else◌, keep, any,
  Option, some, none, List, [], ◌∷◌,
}
use huawei_api.Domain.Enums.{trigger_valid}
use huawei_api.Domain.Model.{Rotation}
use huawei_api.Domain.Errors.{conflict, invalid, Result, ok, ◌>>◌, refuse_if}

abbrev pub Rotations : Type 0
Rotations = List Rotation

-- The primary key and ux_rotations_operation.
abbrev pub rotation_clashes : Rotation → Rotation → Bool
rotation_clashes r s = str_eq r.id s.id || str_eq r.operation_id s.operation_id

-- Create. The type of the result admits no other text.
unfoldable pub create_rotation : ℕ → Rotations → Rotation → Result Rotations
create_rotation now rows r = do
  refuse_if (str_eq r.id "" || str_eq r.operation_id "" || str_eq r.proxy_id "") invalid
  refuse_if (not (trigger_valid r.trigger)) invalid
  let row = record r { requested_at = if r.requested_at == 0 then now else r.requested_at }
  refuse_if (any (rotation_clashes row) rows) conflict
  ok (row ∷ rows)

-- List, filtered by time alone.
unfoldable pub rotations_since : Rotations → ℕ → Rotations
rotations_since rows since_ms =
    keep (λ r. if since_ms == 0 then true else leb since_ms r.requested_at) rows

-- ORDER BY requested_at DESC, id DESC: does the first come before the second?
abbrev comes_first : Rotation → Rotation → Bool
comes_first r s =
    ltb s.requested_at r.requested_at
    || (r.requested_at == s.requested_at && not (str_le r.id s.id))

abbrev first_of : Rotation → Option Rotation → Rotation
first_of r none = r
first_of r (some s) = if comes_first r s then r else s

-- LastFor
unfoldable pub last_for : Rotations → String → Option Rotation
last_for [] proxy_id = none
last_for (r ∷ rows) proxy_id =
    let rest = last_for rows proxy_id in
    if str_eq r.proxy_id proxy_id then some (first_of r rest) else rest
