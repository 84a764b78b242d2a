-- ===== src/Store/Operations/History.antt =====
-- A row of repo_operation.go over further calls.
use huawei_api.Base.{
  ℕ, ◌≡◌, refl, String, Bool, true, false, str_eq, str_eq→≡, any, some, List, [], ◌∷◌, arith,
}
use huawei_api.Domain.Errors.{Result, ok, err, after}
use huawei_api.Domain.Model.{Operation}
use huawei_api.Store.Operations.Invariant.{create-eq-ok}
use huawei_api.Store.Operations.{
  Table, is_live, clashes, create, update, progress, finish, mark_stalled, reconcile_orphans,
  live_id, exec_affecting, progressed, finished_as, overdue, get, Call, creates, progresses,
  finishes, marks_stalled, reconciles, step, run,
}

get-update_dead :
    (p : Operation → Bool) (f : Operation → Operation) (table : Table) (i : String) (o : Operation)
    → ((r : Operation) → (p r ≡ true → is_live r ≡ true) × ((f r).id ≡ r.id))
    → get table i ≡ some o
    → is_live o ≡ false
    → get (update p f table) i ≡ some o
unfolding get update
get-update_dead p f [] i o k h d = h
get-update_dead p f (r ∷ rs) i o k h d =
    ground (arith, (k r).0, (k r).1, get-update_dead p f rs i o k)

get-exec_dead :
    (p : Operation → Bool) (f : Operation → Operation) (table : Table) (i : String) (o : Operation)
    → ((r : Operation) → (p r ≡ true → is_live r ≡ true) × ((f r).id ≡ r.id))
    → get table i ≡ some o
    → is_live o ≡ false
    → get (after table (exec_affecting p f table)) i ≡ some o
get-exec_dead p f table i o k h d = ground (arith, get-update_dead p f table i o k h d)

pub fresh_id :
    (row o : Operation) (table : Table) (i : String)
    → any (clashes row) table ≡ false
    → get table i ≡ some o
    → str_eq row.id i ≡ false
unfolding get
fresh_id row o [] i c h = absurd (cc)
fresh_id row o (r ∷ rs) i c h = ground (arith, fresh_id row o rs i, str_eq→≡ r.id i)

pub create-get :
    (now : ℕ) (table : Table) (row : Operation) (i : String) (o : Operation)
    → get table i ≡ some o
    → get (after table (create now table row)) i ≡ some o
create-get now table row i o h = go (create now table row) refl
  where
    go : (r : Result Table) → create now table row ≡ r → get (after table r) i ≡ some o
    go (ok t) e =
        let (new, eq, fresh) = create-eq-ok now table row e in
        rw eq (unfold get in rw (fresh_id new o table i fresh h) h)
    go (err e) _ = h

step-get_dead :
    (table : Table) (c : ℕ × Call) (i : String) (o : Operation)
    → get table i ≡ some o
    → is_live o ≡ false
    → get (step table c) i ≡ some o
unfolding step
step-get_dead table (now, creates row) i o h d = create-get now table row i o h
step-get_dead table (now, progresses j state name pct) i o h d =
    let rest =
      get-exec_dead (live_id j) (progressed now state name pct) table i o (λ r. ground arith) h d in
    unfold progress in ground (arith, rest)
step-get_dead table (now, finishes j state msg result at) i o h d =
    let rest =
      get-exec_dead (live_id j) (finished_as now state msg result at) table i o (λ r. ground arith)
        h d in
    unfold finish in ground (arith, rest)
step-get_dead table (now, marks_stalled) i o h d =
    unfold mark_stalled in get-update_dead (overdue now) _ table i o (λ r. ground arith) h d
step-get_dead table (now, reconciles) i o h d =
    unfold reconcile_orphans in get-update_dead is_live _ table i o (λ r. ground arith) h d

-- A row that is finished is read back unchanged after any further calls.
pub finished_forever :
    (table : Table) (cs : List (ℕ × Call)) (i : String) (o : Operation)
    → get table i ≡ some o
    → is_live o ≡ false
    → get (run table cs) i ≡ some o
unfolding run
finished_forever table [] i o h d = h
finished_forever table (c ∷ cs) i o h d =
    finished_forever (step table c) cs i o (step-get_dead table c i o h d) d
