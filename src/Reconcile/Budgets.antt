-- ===== src/Reconcile/Budgets.antt =====
-- reconcile/world.go: LoadBudgets and LoadActiveOps, which read the budgets of a sweep from the tables
-- of operations and rotations.
pub mod Agree
mod Tests
use huawei_api.Base.{
  ℕ, ◌+◌, ◌-◌, ◌*◌, ◌/◌, String, Bool, true, ltb, ◌==◌, if◌then◌else◌, lookup, insert, Option, some,
  none, List, [], ◌∷◌,
}
use huawei_api.Domain.Enums.{OpKind, is_rotate}
use huawei_api.Domain.Model.{Operation, Rotation, op_key}
use huawei_api.Store.Operations.{Table, list_active}
use huawei_api.Store.Operations.Listing.{OperationFilter, no_filter, listed}
use huawei_api.Store.Rotations.{Rotations, rotations_since}
use huawei_api.Reconcile.World.{Budgets, count_of, unix_millis}

pub record BudgetPolicy : Type 0 where
  pub reboot_per_day : ℕ
  pub reboot_cooldown : ℕ
  pub max_concurrent_rotate : ℕ
  pub min_rotate_interval : ℕ

-- FromUnixMillis
abbrev pub from_unix_millis : ℕ → ℕ
from_unix_millis ms = ms * 1000000

-- The start of the day in UTC, in milliseconds: `Truncate(24 * time.Hour)`, and startOfDay of the
-- packages rotate and devops.
unfoldable pub day_start : ℕ → ℕ
day_start now = now / 86400000000000 * 86400000

-- RebootUsed[id]++
abbrev counted : List (String × ℕ) → String → List (String × ℕ)
counted m id = insert id (count_of m id + 1) m

-- `m[id] = at`, if there is no entry or an earlier one.
abbrev latest : List (String × ℕ) → String → ℕ → List (String × ℕ)
latest m id at = elim (lookup m id) [
  | none ↦ insert id at m
  | some prev ↦ if ltb prev at then insert id at m else m
]

-- The loop over the reboots, for each of its two maps.
unfoldable pub used_from : List (String × ℕ) → Table → List (String × ℕ)
used_from m [] = m
used_from m (o ∷ ops) = used_from (counted m o.subject_id) ops

unfoldable pub last_from : List (String × ℕ) → Table → List (String × ℕ)
last_from m [] = m
last_from m (o ∷ ops) = last_from (latest m o.subject_id (from_unix_millis o.started_at)) ops

-- The loop over the rotations.
unfoldable pub last_rotate_from : List (String × ℕ) → Rotations → List (String × ℕ)
last_rotate_from m [] = m
last_rotate_from m (r ∷ rows) =
    last_rotate_from (latest m r.proxy_id (from_unix_millis r.requested_at)) rows

-- The loop over the live operations.
unfoldable pub rotates_in : List (String × Operation) → ℕ
rotates_in [] = 0
rotates_in ((k, o) ∷ active) = (if is_rotate o.kind then 1 else 0) + rotates_in active

-- The List call of LoadBudgets.
abbrev pub reboots_since : ℕ → OperationFilter
reboots_since now = record no_filter { kind = some OpKind.reboot; since_ms = day_start now }

-- LoadBudgets
unfoldable pub load_budgets :
    Table → Rotations → BudgetPolicy → ℕ → List (String × Operation) → Budgets
unfolding used_from last_from
load_budgets table rows policy now active =
    let reboots = listed table (reboots_since now) in
    record {
      reboot_per_day = policy.reboot_per_day;
      reboot_cooldown = policy.reboot_cooldown;
      reboot_used = used_from [] reboots;
      last_reboot_at = last_from [] reboots;
      rotate_in_flight = rotates_in active;
      max_concurrent_rotate = policy.max_concurrent_rotate;
      min_rotate_interval = policy.min_rotate_interval;
      last_rotate_at =
          last_rotate_from [] (rotations_since rows (unix_millis (now - 86400000000000)));
    }

-- The loop of LoadActiveOps.
unfoldable pub active_from : List (String × Operation) → Table → List (String × Operation)
active_from m [] = m
active_from m (o ∷ ops) = active_from (insert (op_key o.subject_type o.subject_id) o m) ops

-- LoadActiveOps
unfoldable pub load_active_ops : Table → List (String × Operation)
unfolding active_from
load_active_ops table = active_from [] (list_active table)
