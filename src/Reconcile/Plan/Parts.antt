-- ===== src/Reconcile/Plan/Parts.antt =====
-- From the parts of reconcile/plan.go (planNode, planSlot and its pieces) to Plan.
use huawei_api.Base.{
  ℕ, ◌≡◌, refl, inl, inr, String, not, All, All-append, All-keep, Bool-cases, Option, some, none,
  List, [], ◌∷◌,
}
use huawei_api.Domain.Model.{SlotRow, Dongle, Proxy}
use huawei_api.Reconcile.World.{World, slot_lookup, proxies_by_slot, in_startup_grace}
use huawei_api.Reconcile.Action.{Action, destructive, drop_destructive}
use huawei_api.Reconcile.Plan.{
  plan_node, plan_proxy, plan_recovery, plan_egress, plan_firewall, plan_max_idle, for_some,
  egress_ready, plan_free_slot, plan_slot, plan_slots, plan_all, plan,
}

module _ (P : Action → Type 0) (w : World) where
  for_some-All {ℓ} :
      {A : Type ℓ} (o : Option A) (f : A → List Action)
      → ((a : A) → o ≡ some a → All P (f a))
      → All P (for_some o f)
  for_some-All none f h = tt
  for_some-All (some a) f h = h a refl

  pub plan_free_slot-All :
      (row : SlotRow) (px : Option Proxy) (dongle : Option Dongle)
      → All P (plan_egress row (egress_ready w row))
      → All P (plan_firewall w row)
      → ((d : Dongle)
          → dongle ≡ some d
          → All P (plan_max_idle row d (slot_lookup w.observed.devices row.slot)))
      → ((p : Proxy) → px ≡ some p → All P (plan_proxy w row p (egress_ready w row)))
      → ((d : Dongle)
          → dongle ≡ some d
          → All P (plan_recovery w row d px (slot_lookup w.observed.devices row.slot)))
      → All P (plan_free_slot w row px dongle)
  unfolding plan_free_slot
  plan_free_slot-All row px dongle egress firewall idle proxy recovery = All-append P _ _ egress (
      All-append P _ _ firewall (
        All-append P _ _ (for_some-All dongle _ idle)
          (All-append P _ _ (for_some-All px _ proxy) (for_some-All dongle _ recovery))))

  plan_slots-All :
      (proxies : List (String × Proxy)) (ss : List ℕ)
      → ((s : ℕ) (row : SlotRow)
          → slot_lookup w.desired.slots s ≡ some row
          → All P (plan_slot w row proxies))
      → All P (plan_slots w proxies ss)
  unfolding plan_slots
  plan_slots-All proxies [] h = tt
  plan_slots-All proxies (s ∷ ss) h =
      All-append P _ _ (at (slot_lookup w.desired.slots s) refl) (plan_slots-All proxies ss h)
    where
      at :
          (o : Option SlotRow)
          → slot_lookup w.desired.slots s ≡ o
          → All P (elim o [ none ↦ [] | some row ↦ plan_slot w row proxies ])
      at none e = tt
      at (some row) e = h s row e

  pub plan_all-All :
      All P (plan_node w)
      → ((s : ℕ) (row : SlotRow)
          → slot_lookup w.desired.slots s ≡ some row
          → All P (plan_slot w row (proxies_by_slot w.desired)))
      → All P (plan_all w)
  unfolding plan_all
  plan_all-All node slots = All-append P _ _ node (plan_slots-All _ _ slots)

  pub plan-All :
      All P (plan_node w)
      → ((s : ℕ) (row : SlotRow)
          → slot_lookup w.desired.slots s ≡ some row
          → All P (plan_slot w row (proxies_by_slot w.desired)))
      → All P (plan w)
  unfolding plan drop_destructive
  plan-All node slots = elim (Bool-cases (in_startup_grace w)) [
    | inl e ↦ rw e (All-keep P (λ a. not (destructive a.kind)) _ (plan_all-All node slots))
    | inr e ↦ rw e (plan_all-All node slots)
  ]
