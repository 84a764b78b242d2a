-- ===== src/Rotate/Request/Closed.antt =====
-- What a refusal of Rotate (rotate/rotate.go) leaves behind, above all when the engine is found closed
-- after Create.
use huawei_api.Base.{
  ℕ, ◌≡◌, refl, sym, ap, subst, ◌∙◌, inr, String, Bool, true, str_eq_self, Option, some, none, ◌∷◌,
}
use huawei_api.Domain.Enums.{OpState, SubjectType}
use huawei_api.Domain.Errors.{Result, ok, err, after}
use huawei_api.Domain.Model.{Operation}
use huawei_api.Store.Operations.{Table, is_live, find_active, filled, get, create, finish}
use huawei_api.Store.Operations.Invariant.{Consistent, create-Consistent, create-ok-filled}
use huawei_api.Store.Operations.Busy.{finish_frees}
use huawei_api.Store.Rotations.{Rotations}
use huawei_api.Reconcile.World.{unix_millis}
use huawei_api.Rotate.Policy.{Policy}
use huawei_api.Rotate.Request.{
  Reply, granted, refused, Refusal, Rows, Target, Request, completed, rotate_row, checked,
  after_create, submit, on_reply, rotate,
}
use huawei_api.Rotate.Request.Refused.{is_refused, check_conflict_refuses, checked_refuses}

get_first :
    (row : Operation) (table : Table) (id : String) → row.id ≡ id → get (row ∷ table) id ≡ some row
unfolding get
get_first row table id e = rw (sym e, str_eq_self row.id) refl

-- An operation that is created and at once finished leaves its subject free.
cancelled_frees :
    (now at : ℕ) (table : Table) (op : Operation) (t : Table) (msg result : String)
    → Consistent table
    → create now table op ≡ ok t
    → is_live op ≡ true
    → find_active
        (after t (finish at t op.id OpState.canceled msg result at))
        op.subject_type
        op.subject_id
      ≡ none
unfolding filled
cancelled_frees now at table op t msg result c e l =
    let (eq, fresh, named) = create-ok-filled now table op e in
    let kept : Consistent t =
      subst (λ r. Consistent (after table r)) e (create-Consistent now table op c) in
    let there : get t op.id ≡ some (filled now op) =
      ap (λ x. get x op.id) eq ∙ get_first (filled now op) table op.id named in
    let (u, done, gone) =
      finish_frees at t op.id (filled now op) OpState.canceled msg result at kept there l refl in
    ap (λ r. find_active (after t r) op.subject_type op.subject_id) done ∙ gone

after_create_frees :
    (now : ℕ) (since : Option ℕ) (table : Table) (op : Operation) (r : Result Table) (why : Refusal)
    → Consistent table
    → create now table op ≡ r
    → is_live op ≡ true
    → find_active table op.subject_type op.subject_id ≡ none
    → (after_create since table op r).1 ≡ refused why
    → find_active (after_create since table op r).0 op.subject_type op.subject_id ≡ none
unfolding after_create
after_create_frees now since table op (err f) why c e l free no_ = free
after_create_frees now none table op (ok t) why c e l free no_ = absurd (cc)
after_create_frees now (some at) table op (ok t) why c e l free no_ =
    cancelled_frees now at table op t "rotate: engine is shutting down" "{}" c e l

module _ (blank : String → Bool) (rows : Rows) (pol : Policy) (now : ℕ) (id : String)
    (is_closed : Bool) (closed_since : Option ℕ) (table : Table) (rotations : Rotations)
    (req : Request) where
  granted_free :
      (t : Target) (o : Option Operation)
      → checked blank rows pol now is_closed table rotations (completed req) ≡ granted t
      → find_active table SubjectType.proxy req.proxy_id ≡ o
      → find_active table SubjectType.proxy req.proxy_id ≡ none
  unfolding completed
  granted_free t none m h = h
  granted_free t (some live) m h =
      let turned_away : is_refused
            (checked blank rows pol now is_closed table rotations (completed req))
          ≡ true =
        checked_refuses blank rows pol now is_closed table rotations (completed req)
          (inr (check_conflict_refuses table req.proxy_id live h)) in
      let passed = ap is_refused m in absurd (cc)

  -- A request that is refused, for whatever reason, leaves the proxy as it was: free if it was free, and
  -- else with the same live operation. This holds even if the operation has been created before the
  -- engine is found closed.
  pub rotate_refused_keeps :
      (why : Refusal)
      → Consistent table
      → (rotate blank rows pol now id is_closed closed_since table rotations req).1 ≡ refused why
      → find_active
          (rotate blank rows pol now id is_closed closed_since table rotations req).0
          SubjectType.proxy
          req.proxy_id
        ≡ find_active table SubjectType.proxy req.proxy_id
  unfolding rotate submit rotate_row completed
  rotate_refused_keeps why c no_ =
      go (checked blank rows pol now is_closed table rotations (completed req)) refl no_
    where
      go :
          (m : Reply Target)
          → checked blank rows pol now is_closed table rotations (completed req) ≡ m
          → (on_reply m
              (λ w. (table, refused w))
              (λ t.
                submit
                  (unix_millis now)
                  closed_since
                  table
                  (rotate_row pol now id (completed req)))).1
            ≡ refused why
          → find_active
              (on_reply m
                (λ w. (table, refused w))
                (λ t.
                  submit
                    (unix_millis now)
                    closed_since
                    table
                    (rotate_row pol now id (completed req)))).0
              SubjectType.proxy
              req.proxy_id
            ≡ find_active table SubjectType.proxy req.proxy_id
      go (refused w) e r = refl
      go (granted t) e r =
          let free = granted_free t (find_active table SubjectType.proxy req.proxy_id) e refl in
          after_create_frees (unix_millis now) closed_since table
            (rotate_row pol now id (completed req))
            (create (unix_millis now) table (rotate_row pol now id (completed req))) why c refl refl
            free r
          ∙ sym free
