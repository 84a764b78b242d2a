-- ===== src/Store/Operations/Busy.antt =====
-- Who may start an operation (Create, FindActive), and the calls that free subjects: Finish,
-- MarkStalled and ReconcileOrphans.
use huawei_api.Base.{
  ℕ, ◌≡◌, ◌≤◌, refl, ◌⊎◌, inl, inr, String, true, false, ◌==◌, if◌then◌else◌, str_eq, str_eq→≡,
  str_eq_self, any, All, Bool-cases, some, none, [], ◌∷◌, arith, length,
}
use huawei_api.Domain.Enums.{
  OpState, SubjectType, terminal, op_kind_valid, trigger_valid, op_state_valid,
}
use huawei_api.Domain.Errors.{op_in_progress, ok, err}
use huawei_api.Domain.Model.{Operation}
use huawei_api.Store.Operations.Invariant.{Consistent, create-ok-filled}
use huawei_api.Store.Operations.{
  Table, is_live, clashes, create, update, affected, finish, mark_stalled, reconcile_orphans,
  find_active, filled, row_checked, live_id, finished_as, close_as, is_waiting, overdue,
  stalled_past_deadline, orphaned_by_restart, get, list_active,
}

-- A request that passes every check but those of the unique indexes.
pub record IsAcceptable (now : ℕ) (o : Operation) : Type 0 where
  pub id_given : str_eq o.id "" ≡ false
  pub subject_given : str_eq o.subject_id "" ≡ false
  pub kind_known : op_kind_valid o.kind ≡ true
  pub trigger_known : trigger_valid o.trigger ≡ true
  pub state_known : op_state_valid (filled now o).state ≡ true
  pub row_fits : row_checked (filled now o) ≡ true
  pub unfinished : o.finished_at ≡ none

clash_of_active :
    (row o : Operation) (table : Table)
    → is_live row ≡ true
    → find_active table row.subject_type row.subject_id ≡ some o
    → any (clashes row) table ≡ true
unfolding find_active
clash_of_active row o [] l h = absurd cc
clash_of_active row o (r ∷ rs) l h = ground (
  arith,
  clash_of_active row o rs l,
  str_eq→≡ r.subject_id row.subject_id,
  str_eq_self r.subject_id,
)

no_clash :
    (row : Operation) (table : Table)
    → find_active table row.subject_type row.subject_id ≡ none
    → get table row.id ≡ none
    → any (clashes row) table ≡ false
unfolding find_active get
no_clash row [] h g = refl
no_clash row (r ∷ rs) h g = ground (
  arith,
  no_clash row rs,
  str_eq→≡ row.subject_id r.subject_id,
  str_eq_self r.subject_id,
  str_eq→≡ row.id r.id,
  str_eq_self r.id,
)

-- An acceptable request for a subject on which another operation is live is refused with
-- ErrOpInProgress.
pub create_busy :
    (now : ℕ) (table : Table) (o live : Operation)
    → IsAcceptable now o
    → find_active table o.subject_type o.subject_id ≡ some live
    → str_eq live.id o.id ≡ false
    → create now table o ≡ err op_in_progress
unfolding create filled
create_busy now table o live a h d =
    ground (arith, clash_of_active (filled now o) live table (ground arith) h)

-- An acceptable request for a free subject, under a new id, succeeds, and its operation is then the
-- live one of the subject; the rows before it are all still there.
pub create_free :
    (now : ℕ) (table : Table) (o : Operation)
    → IsAcceptable now o
    → find_active table o.subject_type o.subject_id ≡ none
    → get table o.id ≡ none
    → (row : Operation) × (create now table o ≡ ok (row ∷ table))
      × (row.id ≡ o.id)
      × (find_active (row ∷ table) o.subject_type o.subject_id ≡ some row)
unfolding create filled find_active
create_free now table o a h g = (
  filled now o,
  ground (arith, no_clash (filled now o) table h g),
  refl,
  ground (arith, str_eq_self o.subject_id),
)

-- The row of a successful Create of a live operation is the live one of its subject.
pub create-find_active :
    (now : ℕ) (table : Table) (o : Operation) {t : Table}
    → create now table o ≡ ok t
    → is_live o ≡ true
    → (row : Operation) × (t ≡ row ∷ table)
      × (row.id ≡ o.id)
      × (find_active t o.subject_type o.subject_id ≡ some row)
unfolding filled find_active
create-find_active now table o e l =
    let (eq, _, named) = create-ok-filled now table o e in
    (filled now o, eq, named, rw (eq, find_active) (ground (arith, str_eq_self o.subject_id)))

find_active-close :
    (u : Operation → Operation) (table : Table) (t : SubjectType) (i : String)
    → ((o : Operation) → is_live (u o) ≡ false)
    → find_active (update is_live u table) t i ≡ none
unfolding find_active update
find_active-close u [] t i k = refl
find_active-close u (o ∷ os) t i k = ground (arith, k o, find_active-close u os t i k)

affected_live : (table : Table) → affected is_live table ≡ length (list_active table)
unfolding affected list_active
affected_live [] = refl
affected_live (o ∷ os) = ground (arith, affected_live os)

-- After a restart no subject has a live operation, and the number reported is that of the operations
-- that were live.
pub orphans_freed :
    (now : ℕ) (table : Table) (t : SubjectType) (i : String)
    → (find_active (reconcile_orphans now table).0 t i ≡ none)
      × ((reconcile_orphans now table).1 ≡ length (list_active table))
unfolding reconcile_orphans
orphans_freed now table t i = (
  find_active-close (close_as OpState.failed orphaned_by_restart now) table t i (λ o. refl),
  affected_live table,
)

-- The row is finished, is not waiting, has no deadline or has not passed it.
abbrev pub InTime : ℕ → Operation → Type 0
InTime now o =
    (is_live o ≡ false)
    ⊎ ((is_waiting o.state ≡ false) ⊎ ((o.deadline_at ≡ 0) ⊎ (now ≤ o.deadline_at)))

in_time :
    (now : ℕ) (o : Operation)
    → InTime now (if overdue now o then close_as OpState.stalled stalled_past_deadline now o else o)
in_time now o = elim (Bool-cases (overdue now o)) [
  | inl e ↦ rw e (inl refl)
  | inr e ↦ rw e (ground arith)
]

-- After MarkStalled every pending or running live row has no deadline or is within it, and marking
-- again at that time affects no row.
pub stalled_swept :
    (now : ℕ) (table : Table)
    → All (InTime now) (mark_stalled now table).0
      × ((mark_stalled now (mark_stalled now table).0).1 ≡ 0)
unfolding mark_stalled update affected
stalled_swept now [] = (tt, refl)
stalled_swept now (o ∷ os) =
    let rest = stalled_swept now os in ((in_time now o, rest.0), ground (arith, rest.1))

active_none_of_clash :
    (r : Operation) (i : String) (f : Operation → Operation) (os : Table)
    → ((o : Operation) → is_live (f o) ≡ false)
    → is_live r ≡ true
    → All (λ p. clashes r p ≡ false) os
    → find_active (update (live_id i) f os) r.subject_type r.subject_id ≡ none
unfolding find_active update
active_none_of_clash r i f [] k l h = refl
active_none_of_clash r i f (p ∷ os) k l h = ground (
  arith,
  k p,
  h.0,
  active_none_of_clash r i f os k l h.1,
  str_eq→≡ p.subject_id r.subject_id,
  str_eq_self r.subject_id,
)

clash_of_get :
    (r o : Operation) (i : String) (os : Table)
    → All (λ p. clashes r p ≡ false) os
    → get os i ≡ some o
    → clashes r o ≡ false
unfolding get
clash_of_get r o i [] h g = absurd cc
clash_of_get r o i (p ∷ os) h g = ground (arith, h.0, clash_of_get r o i os h.1)

active_none_of_get :
    (o : Operation) (i : String) (f : Operation → Operation) (table : Table)
    → ((o : Operation) → is_live (f o) ≡ false)
    → Consistent table
    → is_live o ≡ true
    → get table i ≡ some o
    → find_active (update (live_id i) f table) o.subject_type o.subject_id ≡ none
unfolding find_active update get
active_none_of_get o i f [] k c l g = refl
active_none_of_get o i f (r ∷ os) k c l g = elim (Bool-cases (str_eq r.id i)) [
  | inl e ↦ ground (arith, k r, active_none_of_clash r i f os k (ground arith) c.0)
  | inr e ↦ ground (
    arith,
    k r,
    active_none_of_get o i f os k c.1 l,
    clash_of_get r o i os c.0,
    str_eq→≡ r.subject_id o.subject_id,
    str_eq_self o.subject_id,
  )
]

affected_of_get :
    (o : Operation) (i : String) (table : Table)
    → get table i ≡ some o
    → is_live o ≡ true
    → (affected (live_id i) table == 0) ≡ false
unfolding affected get
affected_of_get o i [] g l = absurd cc
affected_of_get o i (r ∷ os) g l = ground (arith, affected_of_get o i os)

-- In a consistent table, Finish of a live operation with a terminal state succeeds and leaves its
-- subject with no live operation.
pub finish_frees :
    (now : ℕ) (table : Table) (i : String) (o : Operation) (state : OpState) (msg result : String)
    (at : ℕ)
    → Consistent table
    → get table i ≡ some o
    → is_live o ≡ true
    → terminal state ≡ true
    → (t : Table) × (finish now table i state msg result at ≡ ok t)
      × (find_active t o.subject_type o.subject_id ≡ none)
unfolding finish
finish_frees now table i o state msg result at c g l s = (
  update (live_id i) (finished_as now state msg result at) table,
  ground (arith, affected_of_get o i table g l),
  active_none_of_get o i (finished_as now state msg result at) table (λ r. refl) c l g,
)
