-- ===== src/Store/Slots.antt =====
-- store/repo_slot.go with the keys of migrations/0001_init.sql. The rows that the foreign keys name are
-- taken to exist, and the order of List is left out; `iface_name` is IfaceName, which fmt formats.
pub mod Invariant
pub mod Attached
pub mod Free
mod Tests
use huawei_api.Base.{
  ℕ, zero, suc, String, Bool, true, false, not, ◌&&◌, ◌||◌, ◌==◌, str_eq, if◌then◌else◌, keep, any,
  Option, some, none, List, [], ◌∷◌,
}
use huawei_api.Domain.Errors.{
  Err, not_found, conflict, invalid, slot_occupied, no_free_slot, Result, ok, err, ◌>>=◌, ◌>>◌,
  refuse_if,
}
use huawei_api.Domain.Model.{SlotRow}
use huawei_api.Domain.Slot.{slot_valid, max_slots}

abbrev pub SlotTable : Type 0
SlotTable = List SlotRow

abbrev pub named : String → SlotRow → Bool
named id r = str_eq r.id id

-- A NULL equals nothing.
abbrev pub holds : Option String → String → Bool
holds none id = false
holds (some d) id = str_eq d id

abbrev pub same_dongle : Option String → Option String → Bool
same_dongle d none = false
same_dongle d (some e) = holds d e

-- The primary key, ux_slots_node_usb, ux_slots_node_slot and ux_slots_dongle.
abbrev pub slot_clashes : SlotRow → SlotRow → Bool
slot_clashes r s =
    str_eq r.id s.id
    || str_eq r.node_id s.node_id && (str_eq r.usb_path s.usb_path || r.slot == s.slot)
    || same_dongle r.dongle_id s.dongle_id

-- nullText
abbrev null_text : Option String → Option String
null_text none = none
null_text (some s) = if str_eq s "" then none else some s

-- The first row that a test holds of, as Get, GetBySlot and GetByDongle find it.
abbrev pub first_row : (SlotRow → Bool) → SlotTable → Result SlotRow
first_row p [] = err not_found
first_row p (r ∷ rows) = let rest = first_row p rows in if p r then ok r else rest

abbrev pub slot_by_id : SlotTable → String → Result SlotRow
slot_by_id rows id = first_row (named id) rows

-- GetBySlot
abbrev pub get_by_slot : SlotTable → String → ℕ → Result SlotRow
get_by_slot rows node_id n = first_row (λ r. str_eq r.node_id node_id && r.slot == n) rows

-- GetByDongle
abbrev pub get_by_dongle : SlotTable → String → Result SlotRow
get_by_dongle rows dongle_id = first_row (λ r. holds r.dongle_id dongle_id) rows

-- List
abbrev pub list_slots : SlotTable → String → SlotTable
list_slots rows node_id = keep (λ r. str_eq node_id "" || str_eq r.node_id node_id) rows

-- What Create and Update check and fill in.
pub slot_checked : (ℕ → String) → SlotRow → Result SlotRow
slot_checked iface_name s = do
  refuse_if (str_eq s.id "") invalid
  refuse_if (not (slot_valid s.slot)) invalid
  ok (record s {
    if_name = if str_eq s.if_name "" then iface_name s.slot else s.if_name;
    dongle_id = null_text s.dongle_id;
  })

abbrev pub stamped : ℕ → ℕ → SlotRow → SlotRow
stamped now given row = record row {
  created_at = if given == 0 then now else given;
  updated_at = now;
}

abbrev pub inserted : SlotTable → SlotRow → Result SlotTable
inserted rows row = do refuse_if (any (slot_clashes row) rows) conflict; ok (row ∷ rows)

-- Create
pub create_slot : (ℕ → String) → ℕ → SlotTable → SlotRow → Result SlotTable
unfolding slot_checked
create_slot iface_name now rows s = do
  row ← slot_checked iface_name s
  inserted rows (stamped now s.created_at row)

-- A row under an UPDATE of one id.
abbrev pub rewritten : String → (SlotRow → SlotRow) → SlotRow → SlotRow
rewritten id f r = if named id r then f r else r

pub rewrite_all : String → (SlotRow → SlotRow) → SlotTable → SlotTable
rewrite_all id f [] = []
rewrite_all id f (r ∷ rows) = rewritten id f r ∷ rewrite_all id f rows

pub has_clash : SlotTable → Bool
has_clash [] = false
has_clash (r ∷ rows) = any (slot_clashes r) rows || has_clash rows

-- execAffecting with an UPDATE of one id; one after which two rows would clash is refused.
pub update_where : String → (SlotRow → SlotRow) → SlotTable → Result SlotTable
unfolding rewrite_all has_clash
update_where id f rows = do
  refuse_if (not (any (named id) rows)) not_found
  refuse_if (has_clash (rewrite_all id f rows)) conflict
  ok (rewrite_all id f rows)

-- Update
pub update_slot : (ℕ → String) → ℕ → SlotTable → SlotRow → Result SlotTable
unfolding slot_checked update_where
update_slot iface_name now rows s = do
  row ← slot_checked iface_name s
  update_where s.id (λ r. record row { created_at = r.created_at; updated_at = now }) rows

-- Delete
pub delete_slot : SlotTable → String → Result SlotTable
delete_slot rows id = do
  refuse_if (not (any (named id) rows)) not_found
  ok (keep (λ r. not (named id r)) rows)

-- The second check of Attach: no other slot holds the dongle.
abbrev pub elsewhere : String → Result SlotRow → Bool
elsewhere slot_id (ok other) = not (str_eq other.id slot_id)
elsewhere slot_id (err e) = false

-- SlotRow.Occupied with another dongle.
abbrev pub taken_by_other : Option String → String → Bool
taken_by_other none dongle_id = false
taken_by_other (some d) dongle_id = not (str_eq d "") && not (str_eq d dongle_id)

-- Attach
pub attach : ℕ → SlotTable → String → String → Result SlotTable
unfolding update_where
attach now rows slot_id dongle_id = do
  refuse_if (str_eq dongle_id "") invalid
  cur ← slot_by_id rows slot_id
  refuse_if (taken_by_other cur.dongle_id dongle_id) slot_occupied
  refuse_if (elsewhere slot_id (get_by_dongle rows dongle_id)) conflict
  update_where slot_id (λ r. record r { dongle_id = some dongle_id; updated_at = now }) rows

-- Detach
pub detach : ℕ → SlotTable → String → Result SlotTable
unfolding update_where
detach now rows slot_id =
    update_where slot_id (λ r. record r { dongle_id = none; updated_at = now }) rows

abbrev pub is_taken : SlotTable → String → ℕ → Bool
is_taken rows node_id n = any (λ r. str_eq r.node_id node_id && r.slot == n) rows

-- The loop of NextFree from a slot on, over the slots that are left.
pub next_from : SlotTable → String → ℕ → ℕ → Result ℕ
next_from rows node_id zero i = err no_free_slot
next_from rows node_id (suc left) i =
    let rest = next_from rows node_id left (suc i) in if is_taken rows node_id i then rest else ok i

-- NextFree
pub next_free : SlotTable → String → Result ℕ
unfolding next_from
next_free rows node_id = next_from rows node_id max_slots 1
