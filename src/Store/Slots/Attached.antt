-- ===== src/Store/Slots/Attached.antt =====
-- A dongle that Attach of repo_slot.go puts into a free slot.
use huawei_api.Base.{
  ℕ, ◌≡◌, refl, String, Bool, true, false, str_eq, str_eq→≡, str_eq_self, any, Option, some, none,
  [], ◌∷◌, arith,
}
use huawei_api.Domain.Errors.{not_found, ok, err}
use huawei_api.Domain.Model.{SlotRow, occupied}
use huawei_api.Store.Slots.{
  SlotTable, named, holds, same_dongle, slot_clashes, first_row, slot_by_id, get_by_dongle,
  rewritten, rewrite_all, has_clash, update_where, attach,
}
use huawei_api.Store.Slots.Invariant.{IsUnique}

-- What Attach writes.
abbrev attached : ℕ → String → SlotRow → SlotRow
attached now dongle_id r = record r { dongle_id = some dongle_id; updated_at = now }

module _ (now : ℕ) (slot_id dongle_id : String) where
  clash-attached :
      (x y : SlotRow)
      → slot_clashes x y ≡ false
      → holds x.dongle_id dongle_id ≡ false
      → holds y.dongle_id dongle_id ≡ false
      → slot_clashes
          (rewritten slot_id (attached now dongle_id) x)
          (rewritten slot_id (attached now dongle_id) y)
        ≡ false
  clash-attached x y h hx hy = ground (
    arith,
    str_eq→≡ x.id slot_id,
    str_eq→≡ y.id slot_id,
    str_eq_self slot_id,
    holds_sym dongle_id y.dongle_id,
  )
    where
      holds_sym :
          (d : String) (o : Option String) → holds o d ≡ false → same_dongle (some d) o ≡ false
      holds_sym d none e = refl
      holds_sym d (some s) e = ground (arith, str_eq→≡ d s, str_eq_self s)

  any-attached :
      (x : SlotRow) (rows : SlotTable)
      → any (slot_clashes x) rows ≡ false
      → holds x.dongle_id dongle_id ≡ false
      → any (λ r. holds r.dongle_id dongle_id) rows ≡ false
      → any
          (slot_clashes (rewritten slot_id (attached now dongle_id) x))
          (rewrite_all slot_id (attached now dongle_id) rows)
        ≡ false
  unfolding rewrite_all
  any-attached x [] h hx free = refl
  any-attached x (y ∷ rows) h hx free = ground (arith, clash-attached x y, any-attached x rows)

  has_clash-attached :
      (rows : SlotTable)
      → IsUnique rows
      → any (λ r. holds r.dongle_id dongle_id) rows ≡ false
      → IsUnique (rewrite_all slot_id (attached now dongle_id) rows)
  unfolding rewrite_all has_clash
  has_clash-attached [] u free = refl
  has_clash-attached (x ∷ rows) u free =
      ground (arith, any-attached x rows, has_clash-attached rows)

  first_row-attached :
      (rows : SlotTable) (cur : SlotRow)
      → slot_by_id rows slot_id ≡ ok cur
      → any (λ r. holds r.dongle_id dongle_id) rows ≡ false
      → get_by_dongle (rewrite_all slot_id (attached now dongle_id) rows) dongle_id
        ≡ ok (attached now dongle_id cur)
  unfolding rewrite_all
  first_row-attached [] cur h free = absurd (cc)
  first_row-attached (x ∷ rows) cur h free =
      ground (arith, first_row-attached rows cur, str_eq_self dongle_id)

any-first_row :
    (p : SlotRow → Bool) (rows : SlotTable) → first_row p rows ≡ err not_found → any p rows ≡ false
any-first_row p [] h = refl
any-first_row p (r ∷ rows) h = ground (arith, any-first_row p rows)

first_row-any :
    (p : SlotRow → Bool) (rows : SlotTable) (r : SlotRow)
    → first_row p rows ≡ ok r
    → any p rows ≡ true
first_row-any p [] r h = absurd (cc)
first_row-any p (x ∷ rows) r h = ground (arith, first_row-any p rows r)

-- In a table with its indexes unique, Attach of a dongle that no slot holds to a slot that is there and
-- empty succeeds, and GetByDongle then finds the dongle in that slot.
pub attach_free :
    (now : ℕ) (rows : SlotTable) (slot_id dongle_id : String) (cur : SlotRow)
    → IsUnique rows
    → str_eq dongle_id "" ≡ false
    → slot_by_id rows slot_id ≡ ok cur
    → occupied cur ≡ false
    → get_by_dongle rows dongle_id ≡ err not_found
    → (later : SlotTable) × (attach now rows slot_id dongle_id ≡ ok later)
      × (get_by_dongle later dongle_id
          ≡ ok (record cur { dongle_id = some dongle_id; updated_at = now }))
      × IsUnique later
unfolding attach update_where occupied
attach_free now rows slot_id dongle_id cur u named_ here empty nowhere =
    let free = any-first_row (λ r. holds r.dongle_id dongle_id) rows nowhere in
    let unique = has_clash-attached now slot_id dongle_id rows u free in
    (
      rewrite_all slot_id (attached now dongle_id) rows,
      rw (named_, here, nowhere)
          (ground (arith, first_row-any (named slot_id) rows cur here, empty, unique)),
      first_row-attached now slot_id dongle_id rows cur here free,
      unique,
    )
