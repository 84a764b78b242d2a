-- ===== src/Store/Operations/Invariant.antt =====
-- The ids and the live rows of the operations table, between two calls of repo_operation.go.
use huawei_api.Base.{
  ℕ, ◌≡◌, refl, inl, inr, String, Bool, true, false, ◌==◌, if◌then◌else◌, any, All, Bool-cases,
  List, [], ◌∷◌, arith,
}
use huawei_api.Domain.Enums.{OpState}
use huawei_api.Domain.Errors.{Result, ok, err, after}
use huawei_api.Domain.Model.{Operation}
use huawei_api.Store.Operations.{
  Table, is_live, clashes, create, update, affected, progress, finish, filled, live_id,
  exec_affecting, progressed, finished_as, close_as, overdue, stalled_past_deadline,
  orphaned_by_restart, Call, creates, progresses, finishes, marks_stalled, reconciles, step, run,
}

-- No row clashes with a later one.
abbrev pub Consistent : Table → Type 0
Consistent [] = Unit {0}
Consistent (o ∷ os) = All (λ p. clashes o p ≡ false) os × Consistent os

-- An update that keeps the keys and revives nothing.
abbrev Keeps : (Operation → Operation) → Type 0
Keeps u =
    (o : Operation)
    → ((u o).id ≡ o.id)
      × ((u o).subject_type ≡ o.subject_type)
      × ((u o).subject_id ≡ o.subject_id)
      × (is_live (u o) ≡ true → is_live o ≡ true)

abbrev updated : (Operation → Bool) → (Operation → Operation) → Operation → Operation
updated p f o = if p o then f o else o

clashes-updated :
    (u : Operation → Operation) (a b : Operation)
    → Keeps u
    → clashes a b ≡ false
    → clashes (u a) (u b) ≡ false
clashes-updated u a b k h =
    rw ((k a).0, (k a).1, (k a).2, (k b).0, (k b).1, (k b).2) (ground (arith, (k a).3, (k b).3))

All-clashes-update :
    (p : Operation → Bool) (f : Operation → Operation) (a : Operation) (os : Table)
    → Keeps (updated p f)
    → All (λ b. clashes a b ≡ false) os
    → All (λ b. clashes (updated p f a) b ≡ false) (update p f os)
unfolding update
All-clashes-update p f a [] k h = tt
All-clashes-update p f a (b ∷ os) k h =
    (clashes-updated (updated p f) a b k h.0, All-clashes-update p f a os k h.1)

Consistent-update :
    (p : Operation → Bool) (f : Operation → Operation) (os : Table)
    → Keeps (updated p f)
    → Consistent os
    → Consistent (update p f os)
unfolding update
Consistent-update p f [] k h = tt
Consistent-update p f (o ∷ os) k h =
    (All-clashes-update p f o os k h.0, Consistent-update p f os k h.1)

All-clashes_of_any :
    (o : Operation) (os : Table) → any (clashes o) os ≡ false → All (λ p. clashes o p ≡ false) os
All-clashes_of_any o [] h = tt
All-clashes_of_any o (p ∷ os) h = elim (Bool-cases (clashes o p)) [
  | inl e ↦ absurd (cc (rw e at h))
  | inr e ↦ (e, All-clashes_of_any o os (rw e at h))
]

pub create-ok-filled :
    (now : ℕ) (table : Table) (o : Operation) {t : Table}
    → create now table o ≡ ok t
    → (t ≡ filled now o ∷ table)
      × (any (clashes (filled now o)) table ≡ false)
      × ((filled now o).id ≡ o.id)
unfolding create filled
create-ok-filled now table o h = (ground arith, ground arith, refl)

-- A successful Create adds one row, which clashes with none.
pub create-eq-ok :
    (now : ℕ) (table : Table) (o : Operation) {t : Table}
    → create now table o ≡ ok t
    → (row : Operation) × (t ≡ row ∷ table) × (any (clashes row) table ≡ false)
create-eq-ok now table o h =
    let (eq, fresh, _) = create-ok-filled now table o h in (filled now o, eq, fresh)

pub create-Consistent :
    (now : ℕ) (table : Table) (o : Operation)
    → Consistent table
    → Consistent (after table (create now table o))
create-Consistent now table o c = go (create now table o) refl
  where
    go : (r : Result Table) → create now table o ≡ r → Consistent (after table r)
    go (ok t) e =
        let (row, eq, fresh) = create-eq-ok now table o e in
        rw eq (All-clashes_of_any row table fresh, c)
    go (err e) _ = c

exec-Consistent :
    (p : Operation → Bool) (f : Operation → Operation) (table : Table)
    → Keeps (updated p f)
    → Consistent table
    → Consistent (after table (exec_affecting p f table))
exec-Consistent p f table k c = elim (Bool-cases (affected p table == 0)) [
  | inl e ↦ rw e c
  | inr e ↦ rw e (Consistent-update p f table k c)
]

progress-Consistent :
    (now : ℕ) (table : Table) (i : String) (state : OpState) (name : String) (pct : ℕ)
    → Consistent table
    → Consistent (after table (progress now table i state name pct))
unfolding progress
progress-Consistent now table i state name pct c =
    let rest =
      exec-Consistent (live_id i) (progressed now state name pct) table (λ o. ground arith) c in
    ground (arith, rest)

pub finish-Consistent :
    (now : ℕ) (table : Table) (i : String) (state : OpState) (msg result : String) (at : ℕ)
    → Consistent table
    → Consistent (after table (finish now table i state msg result at))
unfolding finish
finish-Consistent now table i state msg result at c =
    let rest =
      exec-Consistent (live_id i) (finished_as now state msg result at) table (λ o. ground arith)
        c in
    ground (arith, rest)

-- Every call, refused or not, leaves the ids unique and one live operation at most on each subject.
pub step-Consistent : (table : Table) (c : ℕ × Call) → Consistent table → Consistent (step table c)
unfolding step
step-Consistent table (now, creates o) c = create-Consistent now table o c
step-Consistent table (now, progresses i state name pct) c =
    progress-Consistent now table i state name pct c
step-Consistent table (now, finishes i state msg result at) c =
    finish-Consistent now table i state msg result at c
step-Consistent table (now, marks_stalled) c =
    Consistent-update (overdue now) (close_as OpState.stalled stalled_past_deadline now) table
      (λ o. ground arith) c
step-Consistent table (now, reconciles) c =
    Consistent-update is_live (close_as OpState.failed orphaned_by_restart now) table
      (λ o. ground arith) c

-- Every history of calls, refused or not, keeps a table consistent: its ids are unique, and each
-- subject has one live operation at most.
pub run-Consistent :
    (table : Table) (cs : List (ℕ × Call)) → Consistent table → Consistent (run table cs)
unfolding run
run-Consistent table [] h = h
run-Consistent table (c ∷ cs) h = run-Consistent (step table c) cs (step-Consistent table c h)
