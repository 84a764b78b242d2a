-- ===== src/Domain/Slot/Tests.antt =====
-- The resources of slots 2, 7 and 150 (domain/slot.go).
use huawei_api.Base.{ℕ, ◌≡◌, ◌↔◌, true, some}
use huawei_api.Domain.Slot.{slot_valid, uid, slot_from_uid}
use huawei_api.Domain.Slot.Unique.{slot_from_uid_iff}

abbrev slot_two : ℕ
slot_two = 2

slot_from_uid_iff_example :
    slot_from_uid 6150 ≡ some 150 ↔ (slot_valid 150 ≡ true) × (6150 ≡ uid 150)
slot_from_uid_iff_example = slot_from_uid_iff 6150 150
