-- ===== src/Rotate/Request/Refused.antt =====
-- The requests that Rotate of rotate/rotate.go turns away: a proxy that is busy, or was rotated a
-- moment ago.
use huawei_api.Base.{
  ℕ, ◌≡◌, refl, ◌⊎◌, inl, inr, String, Bool, true, false, not, Option, some, arith,
}
use huawei_api.Base.Int.{pos, ◌-ℤ◌, leb_ℤ, ◌<ℤ◌}
use huawei_api.Domain.Enums.{SubjectType, trigger_valid}
use huawei_api.Domain.Errors.{invalid}
use huawei_api.Domain.Model.{Operation, Rotation}
use huawei_api.Store.Operations.{Table, find_active}
use huawei_api.Store.Rotations.{Rotations, last_for}
use huawei_api.Reconcile.Budgets.{from_unix_millis}
use huawei_api.Rotate.Policy.{Policy}
use huawei_api.Rotate.Request.{
  Reply, granted, refused, ◌>>=◌, ◌>>◌, demand, Rows, Target, target, check_interval,
  check_conflict, Request, completed, closed, by_store, checked, rotate,
}

abbrev pub is_refused {ℓ} : {A : Type ℓ} → Reply A → Bool
is_refused (refused why) = true
is_refused (granted a) = false

is_refused-bind {ℓ κ} :
    {First : Type ℓ} {Last : Type κ} (m : Reply First) (f : First → Reply Last)
    → ((a : First) → is_refused (f a) ≡ true)
    → is_refused (m >>= f) ≡ true
is_refused-bind (refused why) f h = refl
is_refused-bind (granted a) f h = h a

is_refused-then {ℓ} :
    {Last : Type ℓ} (m : Reply (Unit {0})) (rest : Reply Last)
    → (is_refused m ≡ true) ⊎ (is_refused rest ≡ true)
    → is_refused (m >> rest) ≡ true
is_refused-then (refused why) rest h = refl
is_refused-then (granted a) rest h = ground arith

-- The last rotation of the proxy was requested less than the interval ago.
abbrev pub IsRecent : Policy → ℕ → Rotation → Type 0
IsRecent pol now last = pos now -ℤ pos (from_unix_millis last.requested_at) <ℤ pol.min_interval

pub check_conflict_refuses :
    (table : Table) (id : String) (live : Operation)
    → find_active table SubjectType.proxy id ≡ some live
    → is_refused (check_conflict table SubjectType.proxy id) ≡ true
unfolding check_conflict
check_conflict_refuses table id live h = rw (h, is_refused) refl

check_interval_refuses :
    (pol : Policy) (now : ℕ) (rotations : Rotations) (id : String) (last : Rotation)
    → pos 0 <ℤ pol.min_interval
    → last_for rotations id ≡ some last
    → IsRecent pol now last
    → is_refused (check_interval pol now rotations id) ≡ true
unfolding check_interval
check_interval_refuses pol now rotations id last p h soon =
    let some_interval : leb_ℤ pol.min_interval (pos 0) ≡ false = ground arith in
    let too_early : leb_ℤ pol.min_interval (pos now -ℤ pos (from_unix_millis last.requested_at))
        ≡ false =
      ground arith in
    rw (some_interval, h, too_early) refl

module _ (blank : String → Bool) (rows : Rows) (pol : Policy) (now : ℕ) (is_closed : Bool)
    (table : Table) (rotations : Rotations) (req : Request) where
  pub checked_refuses :
      (is_refused (check_interval pol now rotations req.proxy_id) ≡ true)
        ⊎ (is_refused (check_conflict table SubjectType.proxy req.proxy_id) ≡ true)
      → is_refused (checked blank rows pol now is_closed table rotations req) ≡ true
  unfolding checked
  checked_refuses h = is_refused-then (demand (not (blank req.proxy_id)) (by_store invalid)) _ (
      inr (
        is_refused-then (demand (trigger_valid req.trigger) (by_store invalid)) _ (
          inr (
            is_refused-then (demand (not is_closed) closed) _ (
              inr (
                is_refused-bind (target rows req.proxy_id) _ (λ t.
                  is_refused-then (check_interval pol now rotations req.proxy_id) _
                    (tail t h))))))))
    where
      tail :
          (t : Target)
          → (is_refused (check_interval pol now rotations req.proxy_id) ≡ true)
            ⊎ (is_refused (check_conflict table SubjectType.proxy req.proxy_id) ≡ true)
          → (is_refused (check_interval pol now rotations req.proxy_id) ≡ true)
            ⊎ (is_refused (check_conflict table SubjectType.proxy req.proxy_id >> granted t) ≡ true)
      tail t (inl e) = inl e
      tail t (inr e) = inr (
          is_refused-then (check_conflict table SubjectType.proxy req.proxy_id) (granted t) (inl e))

module _ (blank : String → Bool) (rows : Rows) (pol : Policy) (now : ℕ) (id : String)
    (is_closed : Bool) (closed_since : Option ℕ) (table : Table) (rotations : Rotations)
    (req : Request) where
  refused_unchanged :
      is_refused (checked blank rows pol now is_closed table rotations (completed req)) ≡ true
      → let answer = rotate blank rows pol now id is_closed closed_since table rotations req in
        (answer.0 ≡ table) × (is_refused answer.1 ≡ true)
  unfolding rotate
  refused_unchanged h = ground arith

  -- A request for a proxy on which an operation is live, or whose last rotation was requested less
  -- than the minimal interval ago, is refused, whatever the rest of the request and the state are,
  -- and the table of operations stays as it is.
  pub rotate_refuses :
      ((live : Operation) × (find_active table SubjectType.proxy req.proxy_id ≡ some live))
        ⊎ ((last : Rotation) × (pos 0 <ℤ pol.min_interval)
            × (last_for rotations req.proxy_id ≡ some last)
            × IsRecent pol now last)
      → let answer = rotate blank rows pol now id is_closed closed_since table rotations req in
        (answer.0 ≡ table) × (is_refused answer.1 ≡ true)
  unfolding completed
  rotate_refuses (inl (live, h)) = refused_unchanged (
      checked_refuses blank rows pol now is_closed table rotations (completed req)
        (inr (check_conflict_refuses table req.proxy_id live h)))
  rotate_refuses (inr (last, p, h, soon)) = refused_unchanged (
      checked_refuses blank rows pol now is_closed table rotations (completed req)
        (inl (check_interval_refuses pol now rotations req.proxy_id last p h soon)))
