-- ===== src/Domain/Slot/Unique.antt =====
-- The resources of two slots side by side (domain/slot.go).
use huawei_api.Base.{ℕ, ◌≡◌, ◌↔◌, true, some, arith}
use huawei_api.Domain.Slot.{slot_valid, uid, slot_from_uid}

-- A uid is read back as a slot exactly when it is the uid of that slot and the slot is valid.
pub slot_from_uid_iff : (u s : ℕ) → slot_from_uid u ≡ some s ↔ (slot_valid s ≡ true) × (u ≡ uid s)
unfolding slot_from_uid uid
slot_from_uid_iff u s = (λ e. ground arith, λ h. ground (arith, h.0, h.1))
