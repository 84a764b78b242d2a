-- ===== src/Store/Slots/Tests.antt =====
-- Two slots of one node, one with a dongle (store/repo_slot.go).
use huawei_api.Base.{ℕ, ◌≡◌, ◌≤◌, refl, true, false, str_eq, none, some, [], ◌∷◌}
use huawei_api.Domain.Errors.{ok}
use huawei_api.Domain.Model.{SlotRow, occupied}
use huawei_api.Domain.Slot.{slot_valid}
use huawei_api.Store.Slots.{SlotTable, get_by_dongle, attach, is_taken, has_clash, next_free}
use huawei_api.Store.Slots.Invariant.{IsUnique}
use huawei_api.Store.Slots.Attached.{attach_free}
use huawei_api.Store.Slots.Free.{next_free_least}

abbrev first : SlotRow
first = record {
  id = "sl_1";
  node_id = "nd_1";
  slot = 1;
  usb_path = "1-1.1";
  id_path = "";
  if_name = "dg01";
  dongle_id = some "dg_1";
  created_at = 1000;
  updated_at = 1000;
}

abbrev third : SlotRow
third = record first {
  id = "sl_3";
  slot = 3;
  usb_path = "1-1.3";
  if_name = "dg03";
  dongle_id = none;
}

abbrev two_slots : SlotTable
two_slots = first ∷ third ∷ []

attach_free_example :
    (later : SlotTable) × (attach 2000 two_slots "sl_3" "dg_2" ≡ ok later)
    × (get_by_dongle later "dg_2"
        ≡ ok (record third { dongle_id = some "dg_2"; updated_at = 2000 }))
    × IsUnique later
unfolding has_clash str_eq occupied
attach_free_example = attach_free 2000 two_slots "sl_3" "dg_2" third refl refl refl refl refl

next_free_least_example :
    (n : ℕ) × (next_free two_slots "nd_1" ≡ ok n)
    × (slot_valid n ≡ true)
    × (is_taken two_slots "nd_1" n ≡ false)
    × (n ≤ 7)
unfolding str_eq
next_free_least_example = next_free_least two_slots "nd_1" 7 refl refl
