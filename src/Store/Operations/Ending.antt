-- ===== src/Store/Operations/Ending.antt =====
-- The end of an operation of repo_operation.go, whatever is called between its start and its Finish.
use huawei_api.Base.{
  ℕ, ◌≡◌, refl, inl, inr, String, Bool, true, false, not, ltb, ◌==◌, if◌then◌else◌, str_eq,
  Bool-cases, some, List, [], ◌∷◌, arith,
}
use huawei_api.Domain.Enums.{OpState, terminal, op_state_valid}
use huawei_api.Domain.Errors.{Err, invalid, Result, after, refuse_if, ◌>>◌}
use huawei_api.Domain.Model.{Operation}
use huawei_api.Store.Operations.{
  Table, is_live, get, update, affected, exec_affecting, live_id, progress, progressed, finish,
  finished_as, mark_stalled, reconcile_orphans, overdue, Call, creates, progresses, finishes,
  marks_stalled, reconciles, step, run,
}
use huawei_api.Store.Operations.History.{create-get, finished_forever}

pub get-named :
    (table : Table) (i : String) (o : Operation) → get table i ≡ some o → str_eq o.id i ≡ true
unfolding get
get-named [] i o h = absurd (cc)
get-named (r ∷ rs) i o h = ground (arith, get-named rs i o)

get-update :
    (p : Operation → Bool) (f : Operation → Operation) (table : Table) (i : String) (o : Operation)
    → ((r : Operation) → (f r).id ≡ r.id)
    → get table i ≡ some o
    → get (update p f table) i ≡ some (if p o then f o else o)
unfolding get update
get-update p f [] i o k h = absurd (cc)
get-update p f (r ∷ rs) i o k h = ground (arith, k r, get-update p f rs i o k)

-- The row is still there.
abbrev IsKept : Table → String → Type 0
IsKept table i = (o : Operation) × (get table i ≡ some o)

exec-IsKept :
    (p : Operation → Bool) (f : Operation → Operation) (table : Table) (i : String)
    → ((r : Operation) → (f r).id ≡ r.id)
    → IsKept table i
    → IsKept (after table (exec_affecting p f table)) i
exec-IsKept p f table i k (o, h) = elim (Bool-cases (affected p table == 0)) [
  | inl missed ↦ rw missed (o, h)
  | inr hit ↦ rw hit ((if p o then f o else o), get-update p f table i o k h)
]

refuse-IsKept :
    (bad : Bool) (e : Err) (table : Table) (r : Result Table) (i : String)
    → IsKept table i
    → IsKept (after table r) i
    → IsKept (after table (refuse_if bad e >> r)) i
refuse-IsKept true e table r i k kept = k
refuse-IsKept false e table r i k kept = kept

step-IsKept : (table : Table) (c : ℕ × Call) (i : String) → IsKept table i → IsKept (step table c) i
unfolding step progress finish mark_stalled reconcile_orphans
step-IsKept table (now, creates row) i (o, h) = (o, create-get now table row i o h)
step-IsKept table (now, progresses j state name pct) i k =
    let written = exec-IsKept (live_id j) (progressed now state name pct) table i (λ r. refl) k in
    refuse-IsKept (not (op_state_valid state)) invalid table _ i k (
      refuse-IsKept (terminal state) invalid table _ i k
        (refuse-IsKept (ltb 100 pct) invalid table _ i k written))
step-IsKept table (now, finishes j state msg result at) i k =
    refuse-IsKept (not (terminal state)) invalid table _ i k
      (exec-IsKept (live_id j) (finished_as now state msg result at) table i (λ r. refl) k)
step-IsKept table (now, marks_stalled) i (o, h) =
    (_, get-update (overdue now) _ table i o (λ r. refl) h)
step-IsKept table (now, reconciles) i (o, h) = (_, get-update is_live _ table i o (λ r. refl) h)

run-IsKept :
    (table : Table) (cs : List (ℕ × Call)) (i : String) → IsKept table i → IsKept (run table cs) i
unfolding run
run-IsKept table [] i k = k
run-IsKept table (c ∷ cs) i k = run-IsKept (step table c) cs i (step-IsKept table c i k)

done_dead :
    (now : ℕ) (i : String) (o : Operation) (state : OpState) (msg result : String) (at : ℕ)
    → str_eq o.id i ≡ true
    → is_live (if live_id i o then finished_as now state msg result at o else o) ≡ false
done_dead now i o state msg result at h = ground arith

missed_dead :
    (table : Table) (i : String) (o : Operation)
    → get table i ≡ some o
    → (affected (live_id i) table == 0) ≡ true
    → is_live o ≡ false
unfolding get affected
missed_dead [] i o h m = absurd (cc)
missed_dead (r ∷ rs) i o h m = ground (arith, missed_dead rs i o)

finish_ends :
    (now : ℕ) (table : Table) (i : String) (o : Operation) (state : OpState) (msg result : String)
    (at : ℕ)
    → get table i ≡ some o
    → terminal state ≡ true
    → (o' : Operation) × (get (after table (finish now table i state msg result at)) i ≡ some o')
      × (is_live o' ≡ false)
unfolding finish
finish_ends now table i o state msg result at h t =
    let f = finished_as now state msg result at in
    let written = get-update (live_id i) f table i o (λ r. refl) h in
    elim (Bool-cases (affected (live_id i) table == 0)) [
      | inl missed ↦ rw (t, missed) (o, h, missed_dead table i o h missed)
      | inr hit ↦
          rw (t, hit)
            (
              (if live_id i o then f o else o),
              written,
              done_dead now i o state msg result at (get-named table i o h),
            )
    ]

-- What a Finish of a live operation with a terminal state writes.
pub get-finish :
    (now : ℕ) (table : Table) (i : String) (o : Operation) (state : OpState) (msg result : String)
    (at : ℕ)
    → get table i ≡ some o
    → is_live o ≡ true
    → terminal state ≡ true
    → get (after table (finish now table i state msg result at)) i
      ≡ some (finished_as now state msg result at o)
unfolding finish
get-finish now table i o state msg result at h l t =
    let written =
      get-update (live_id i) (finished_as now state msg result at) table i o (λ r. refl) h in
    elim (Bool-cases (affected (live_id i) table == 0)) [
      | inl missed ↦ absurd (ground (arith, missed_dead table i o h missed))
      | inr hit ↦ rw (t, hit) (ground (arith, written, get-named table i o h))
    ]

-- A Finish of another operation leaves a row alone.
pub get-finish_other :
    (now : ℕ) (table : Table) (id i : String) (o : Operation) (state : OpState)
    (msg result : String)
    → get table i ≡ some o
    → str_eq o.id id ≡ false
    → get (after table (finish now table id state msg result now)) i ≡ some o
unfolding finish
get-finish_other now table id i o state msg result h d =
    let written =
      get-update (live_id id) (finished_as now state msg result now) table i o (λ r. refl) h in
    elim (Bool-cases (terminal state)) [
      | inr bad ↦ rw bad h
      | inl good ↦ elim (Bool-cases (affected (live_id id) table == 0)) [
        | inl missed ↦ rw (good, missed) h
        | inr hit ↦ rw (good, hit) (ground (arith, written))
      ]
    ]

-- An operation that exists is finished once Finish is called for it with a terminal state, whatever
-- calls came before, and stays finished whatever calls come after.
pub finish_settles :
    (table : Table) (before later : List (ℕ × Call)) (i : String) (o : Operation) (now : ℕ)
    (state : OpState) (msg result : String) (at : ℕ)
    → get table i ≡ some o
    → terminal state ≡ true
    → (o' : Operation) × (get
          (run (step (run table before) (now, finishes i state msg result at)) later)
          i
        ≡ some o')
      × (is_live o' ≡ false)
unfolding step
finish_settles table before later i o now state msg result at h t =
    let (p, kept) = run-IsKept table before i (o, h) in
    let (o', ended, dead) = finish_ends now (run table before) i p state msg result at kept t in
    (o', finished_forever _ later i o' ended dead, dead)
