-- ===== src/Store/Slots/Free.antt =====
-- The choice of a slot by NextFree (repo_slot.go).
use huawei_api.Base.{
  ℕ, zero, suc, ◌+◌, ◌≤◌, ◌<◌, ◌≡◌, refl, inl, inr, String, true, false, leb, Bool-cases, arith,
}
use huawei_api.Domain.Errors.{ok}
use huawei_api.Domain.Slot.{slot_valid, max_slots}
use huawei_api.Store.Slots.{SlotTable, is_taken, next_from, next_free}

next_from_least :
    (rows : SlotTable) (node_id : String) (left i m : ℕ)
    → i ≤ m
    → m < i + left
    → is_taken rows node_id m ≡ false
    → (n : ℕ) × (next_from rows node_id left i ≡ ok n)
      × (is_taken rows node_id n ≡ false)
      × (i ≤ n)
      × (n ≤ m)
unfolding next_from
next_from_least rows node_id zero i m low high free = absurd (omega arith)
next_from_least rows node_id (suc left) i m low high free =
    elim (Bool-cases (is_taken rows node_id i)) [
      | inr here ↦ (i, rw here refl, here, omega arith, low)
      | inl busy ↦
          let later : suc i ≤ m = go i m low busy free in
          let (n, found, free', above, below) =
            next_from_least rows node_id left (suc i) m later (omega arith) free in
          (n, rw busy found, free', omega arith, below)
    ]
  where
    go :
        (j k : ℕ)
        → j ≤ k
        → is_taken rows node_id j ≡ true
        → is_taken rows node_id k ≡ false
        → suc j ≤ k
    go j k le busy free = elim (Bool-cases (leb (suc j) k)) [
      | inl later ↦ ground arith
      | inr late ↦
          let same : k ≡ j = ground arith in
          let busy' : is_taken rows node_id k ≡ true = rw same busy in absurd (cc)
    ]

-- If some slot of the node is free, NextFree returns a valid free slot that is not after it.
pub next_free_least :
    (rows : SlotTable) (node_id : String) (m : ℕ)
    → slot_valid m ≡ true
    → is_taken rows node_id m ≡ false
    → (n : ℕ) × (next_free rows node_id ≡ ok n)
      × (slot_valid n ≡ true)
      × (is_taken rows node_id n ≡ false)
      × (n ≤ m)
unfolding next_free
next_free_least rows node_id m valid free =
    let (n, found, free', above, below) =
      next_from_least rows node_id max_slots 1 m (ground arith) (ground arith) free in
    (n, found, ground arith, free', below)
