-- ===== src/Store/Slots/Invariant.antt =====
-- The unique indexes of the table of slots, between two calls of repo_slot.go.
use huawei_api.Base.{
  ℕ, ◌≡◌, refl, String, Bool, true, false, not, str_eq, keep, any, any-keep, List, [], ◌∷◌, arith,
}
use huawei_api.Domain.Errors.{
  Err, not_found, conflict, invalid, Result, ok, err, after, ◌>>=◌, ◌>>◌, refuse_if, slot_occupied,
}
use huawei_api.Domain.Model.{SlotRow}
use huawei_api.Store.Slots.{
  SlotTable, named, slot_clashes, slot_checked, stamped, inserted, create_slot, rewrite_all,
  has_clash, update_where, update_slot, delete_slot, attach, detach, slot_by_id, taken_by_other,
  elsewhere, get_by_dongle,
}

-- The ids, the USB paths and slots of each node, and the dongles are all unique.
abbrev pub IsUnique : SlotTable → Type 0
IsUnique rows = has_clash rows ≡ false

refused-IsUnique :
    (bad : Bool) (e : Err) (rows : SlotTable) (r : Result SlotTable)
    → IsUnique rows
    → (bad ≡ false → IsUnique (after rows r))
    → IsUnique (after rows (refuse_if bad e >> r))
refused-IsUnique true e rows r u k = u
refused-IsUnique false e rows r u k = k refl

-- A step that cannot change the table.
read-IsUnique {ℓ} :
    {A : Type ℓ} (m : Result A) (rows : SlotTable) (f : A → Result SlotTable)
    → IsUnique rows
    → ((a : A) → IsUnique (after rows (f a)))
    → IsUnique (after rows (m >>= f))
read-IsUnique (ok a) rows f u k = k a
read-IsUnique (err e) rows f u k = u

inserted-IsUnique :
    (rows : SlotTable) (row : SlotRow) → IsUnique rows → IsUnique (after rows (inserted rows row))
unfolding has_clash
inserted-IsUnique rows row u =
    refused-IsUnique (any (slot_clashes row) rows) conflict rows (ok (row ∷ rows)) u
      (λ fresh. ground (arith, fresh, u))

update_where-IsUnique :
    (id : String) (f : SlotRow → SlotRow) (rows : SlotTable)
    → IsUnique rows
    → IsUnique (after rows (update_where id f rows))
unfolding update_where
update_where-IsUnique id f rows u =
    refused-IsUnique (not (any (named id) rows)) not_found rows _ u
      (λ _. refused-IsUnique (has_clash (rewrite_all id f rows)) conflict rows _ u (λ fresh. fresh))

has_clash-keep :
    (q : SlotRow → Bool) (rows : SlotTable)
    → has_clash rows ≡ false
    → has_clash (keep q rows) ≡ false
unfolding has_clash
has_clash-keep q [] h = refl
has_clash-keep q (r ∷ rows) h =
    ground (arith, has_clash-keep q rows, any-keep (slot_clashes r) q rows)

pub data SlotCall : Type 0 where
  creates updates : SlotRow → SlotCall
  deletes : String → SlotCall
  attaches : String → String → SlotCall
  detaches : String → SlotCall

-- One call, at a time; a call that is refused changes nothing.
pub slot_step : (ℕ → String) → SlotTable → ℕ × SlotCall → SlotTable
slot_step iface_name rows (now, creates s) = after rows (create_slot iface_name now rows s)
slot_step iface_name rows (now, updates s) = after rows (update_slot iface_name now rows s)
slot_step iface_name rows (now, deletes id) = after rows (delete_slot rows id)
slot_step iface_name rows (now, attaches slot_id dongle_id) =
    after rows (attach now rows slot_id dongle_id)
slot_step iface_name rows (now, detaches slot_id) = after rows (detach now rows slot_id)

pub slot_run : (ℕ → String) → SlotTable → List (ℕ × SlotCall) → SlotTable
unfolding slot_step
slot_run iface_name rows [] = rows
slot_run iface_name rows (c ∷ cs) = slot_run iface_name (slot_step iface_name rows c) cs

slot_step-IsUnique :
    (iface_name : ℕ → String) (rows : SlotTable) (c : ℕ × SlotCall)
    → IsUnique rows
    → IsUnique (slot_step iface_name rows c)
unfolding slot_step create_slot update_slot delete_slot attach detach has_clash
slot_step-IsUnique iface_name rows (now, creates s) u =
    read-IsUnique (slot_checked iface_name s) rows _ u
      (λ row. inserted-IsUnique rows (stamped now s.created_at row) u)
slot_step-IsUnique iface_name rows (now, updates s) u =
    read-IsUnique (slot_checked iface_name s) rows _ u (λ row. update_where-IsUnique s.id _ rows u)
slot_step-IsUnique iface_name rows (now, deletes id) u =
    refused-IsUnique (not (any (named id) rows)) not_found rows _ u (λ _. has_clash-keep _ rows u)
slot_step-IsUnique iface_name rows (now, attaches slot_id dongle_id) u =
    refused-IsUnique (str_eq dongle_id "") invalid rows _ u (λ _.
      read-IsUnique (slot_by_id rows slot_id) rows _ u (λ cur.
        refused-IsUnique (taken_by_other cur.dongle_id dongle_id) slot_occupied rows _ u (λ _.
          refused-IsUnique (elsewhere slot_id (get_by_dongle rows dongle_id)) conflict rows _ u
            (λ _. update_where-IsUnique slot_id _ rows u))))
slot_step-IsUnique iface_name rows (now, detaches slot_id) u =
    update_where-IsUnique slot_id _ rows u

-- Every history of calls, refused ones included, keeps the ids unique, the USB paths and the slot
-- numbers of each node, and every dongle in one slot at most.
pub slot_run-IsUnique :
    (iface_name : ℕ → String) (rows : SlotTable) (cs : List (ℕ × SlotCall))
    → IsUnique rows
    → IsUnique (slot_run iface_name rows cs)
unfolding slot_run
slot_run-IsUnique iface_name rows [] u = u
slot_run-IsUnique iface_name rows (c ∷ cs) u =
    slot_run-IsUnique iface_name (slot_step iface_name rows c) cs
      (slot_step-IsUnique iface_name rows c u)
