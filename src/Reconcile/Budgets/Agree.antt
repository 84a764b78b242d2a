-- ===== src/Reconcile/Budgets/Agree.antt =====
-- The budgets of a sweep (LoadBudgets, Budgets.RebootAllowed) beside the check that the engines make
-- themselves before a reboot (RebootAllowed of the packages rotate and devops).
use huawei_api.Base.{
  ℕ, ◌+◌, ◌≡◌, refl, ap, ◌⊎◌, String, Bool, true, false, ◌||◌, ltb, str_eq, str_eq→≡, if◌then◌else◌,
  length, keep, any, All, lookup, lookup-insert, List, [], ◌∷◌, arith,
}
use huawei_api.Base.Int.{pos, -ℤ_parts}
use huawei_api.Domain.Enums.{kind_text, SubjectType}
use huawei_api.Domain.Model.{Operation}
use huawei_api.Store.Operations.{Table, subject_eq}
use huawei_api.Store.Operations.Listing.{listed}
use huawei_api.Store.Rotations.{Rotations}
use huawei_api.Reconcile.World.{count_of, sooner_than, reboot_allowed}
use huawei_api.Reconcile.Budgets.{
  BudgetPolicy, from_unix_millis, counted, latest, used_from, last_from, reboots_since,
  load_budgets,
}
use huawei_api.Rotate.Request.{reboots_of, cooling, may_reboot}

abbrev of_subject : String → Operation → Bool
of_subject id o = str_eq o.subject_id id

count_of-counted :
    (m : List (String × ℕ)) (k id : String)
    → count_of (counted m k) id ≡ (if str_eq k id then count_of m id + 1 else count_of m id)
count_of-counted m k id = ground (arith, lookup-insert k id (count_of m k + 1) m, str_eq→≡ k id)

count_of-used_from :
    (m : List (String × ℕ)) (ops : Table) (id : String)
    → count_of (used_from m ops) id ≡ count_of m id + length (keep (of_subject id) ops)
unfolding used_from
count_of-used_from m [] id = omega arith
count_of-used_from m (o ∷ ops) id =
    rw (count_of-used_from (counted m o.subject_id) ops id, count_of-counted m o.subject_id id)
      (ground arith)

sooner_than-latest :
    (now wait : ℕ) (m : List (String × ℕ)) (k : String) (at : ℕ) (id : String)
    → sooner_than now wait (lookup (latest m k at) id) ≡ (
        if str_eq k id
        then sooner_than now wait (lookup m id) || ltb now (at + wait)
        else sooner_than now wait (lookup m id))
sooner_than-latest now wait m k at id = ground (arith, lookup-insert k id at m, str_eq→≡ k id)

sooner_than-last_from :
    (now wait : ℕ) (m : List (String × ℕ)) (ops : Table) (id : String)
    → sooner_than now wait (lookup (last_from m ops) id)
      ≡ sooner_than now wait (lookup m id)
        || any (cooling (pos wait) now) (keep (of_subject id) ops)
unfolding last_from
sooner_than-last_from now wait m [] id = ground arith
sooner_than-last_from now wait m (o ∷ ops) id =
    let at = from_unix_millis o.started_at in
    rw
      (
        sooner_than-last_from now wait (latest m o.subject_id at) ops id,
        sooner_than-latest now wait m o.subject_id at id,
      )
      (ground (arith, -ℤ_parts (pos now) (pos at)))

-- A reboot is an operation on a dongle.
abbrev pub IsOfDongle : Operation → Type 0
IsOfDongle o =
    (str_eq (kind_text o.kind) "reboot" ≡ false)
    ⊎ (subject_eq o.subject_type SubjectType.dongle ≡ true)

listed-reboots_of :
    (now : ℕ) (table : Table) (id : String)
    → All IsOfDongle table
    → listed table (reboots_of now id) ≡ keep (of_subject id) (listed table (reboots_since now))
unfolding listed
listed-reboots_of now [] id h = refl
listed-reboots_of now (o ∷ table) id h = ground (arith, listed-reboots_of now table id h.1, h.0)

-- Where every reboot in the table is of a dongle, and the budget and the cooldown are not negative,
-- the budget that a sweep has loaded allows a reboot exactly when RebootAllowed does.
pub load_budgets_agree :
    (table : Table) (rows : Rotations) (policy : BudgetPolicy) (now : ℕ)
    (active : List (String × Operation)) (id : String)
    → All IsOfDongle table
    → reboot_allowed (load_budgets table rows policy now active) id now
      ≡ may_reboot (pos policy.reboot_per_day) (pos policy.reboot_cooldown) now table id
unfolding reboot_allowed load_budgets may_reboot lookup
load_budgets_agree table rows policy now active id h =
    let reboots = listed table (reboots_since now) in
    ground (
      arith,
      ap length (listed-reboots_of now table id h),
      ap (any (cooling (pos policy.reboot_cooldown) now)) (listed-reboots_of now table id h),
      count_of-used_from [] reboots id,
      sooner_than-last_from now policy.reboot_cooldown [] reboots id,
    )
