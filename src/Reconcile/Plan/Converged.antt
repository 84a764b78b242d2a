-- ===== src/Reconcile/Plan/Converged.antt =====
-- The plan of reconcile/plan.go in a world that is as it should be.
use huawei_api.Base.{
  ℕ, ◌≡◌, refl, inl, inr, Bool, true, false, All, Bool-cases, lookup, Option, some, none, List, [],
  ◌∷◌, ◌++◌, arith, ◌==◌,
}
use huawei_api.Domain.Enums.{ProxyState}
use huawei_api.Domain.Model.{SlotRow, Dongle, Proxy, desired_state, occupied}
use huawei_api.Reconcile.World.{
  World, slot_lookup, dongle_for, proxies_by_slot, DeviceObservation, unix_millis,
}
use huawei_api.Reconcile.Action.{drop_destructive}
use huawei_api.Reconcile.Plan.{
  plan_node, apply_drifted, plan_served, plan_in_state, plan_proxy, plan_recovery, plan_egress,
  plan_firewall, plan_max_idle, for_some, plan_free_slot, plan_slot, plan_slots, sorted_slots,
  plan_all, plan, is_empty, egress_ready, proxy_drift, status_of,
}

abbrev pub ForEach {ℓ} : {A : Type ℓ} → Option A → (A → Type 0) → Type 0
ForEach none P = Unit {0}
ForEach (some a) P = P a

-- The device answers, is connected and keeps idle sessions.
abbrev pub IsWell : DeviceObservation → Type 0
IsWell dev = (dev.reachable ≡ true) × (dev.max_idle_time ≡ 0) × (dev.conn ≡ 901)

-- The proxy runs healthy if it should run, and does not run if it should not. An expired proxy is
-- never at rest: it has yet to be marked.
abbrev pub IsServed : ProxyState → World → SlotRow → Type 0
IsServed ProxyState.active w row =
    (occupied row ≡ true) × (proxy_drift (status_of w row.slot) ≡ none)
IsServed ProxyState.disabled w row = (status_of w row.slot).is_running ≡ false
IsServed ProxyState.suspended w row = (status_of w row.slot).is_running ≡ false
IsServed _ w row = ⊥

pub record IsSettled (w : World) (row : SlotRow) : Type 0 where
  pub egress : egress_ready w row ≡ none
  pub fenced : (known : Bool) × (lookup w.observed.fenced row.if_name ≡ some known)
  pub device : ForEach (slot_lookup w.observed.devices row.slot) IsWell
  pub proxy :
      ForEach
        (lookup (proxies_by_slot w.desired) row.id)
        λ px. IsServed (desired_state px (unix_millis w.now)) w row

plan_in_state_settled :
    (s : ProxyState) (w : World) (row : SlotRow) (px : Proxy)
    → IsServed s w row
    → plan_in_state s w row px none ≡ []
unfolding plan_in_state plan_served apply_drifted
plan_in_state_settled ProxyState.active w row px h = ground arith
plan_in_state_settled ProxyState.disabled w row px h = ground arith
plan_in_state_settled ProxyState.suspended w row px h = ground arith
plan_in_state_settled ProxyState.expired w row px h = absurd h
plan_in_state_settled ProxyState.degraded w row px h = absurd h
plan_in_state_settled ProxyState.unknown w row px h = absurd h

plan_proxies_settled :
    (w : World) (row : SlotRow) (px : Option Proxy)
    → ForEach px (λ p. IsServed (desired_state p (unix_millis w.now)) w row)
    → for_some px (λ p. plan_proxy w row p none) ≡ []
unfolding plan_proxy
plan_proxies_settled w row none h = refl
plan_proxies_settled w row (some px) h = plan_in_state_settled _ w row px h

plan_dongle_settled :
    (w : World) (row : SlotRow) (d : Option Dongle) (px : Option Proxy)
    (dev : Option DeviceObservation)
    → ForEach dev IsWell
    → (for_some d (λ d. plan_max_idle row d dev) ≡ [])
      × (for_some d (λ d. plan_recovery w row d px dev) ≡ [])
unfolding plan_max_idle plan_recovery
plan_dongle_settled w row none px dev h = (refl, refl)
plan_dongle_settled w row (some d) px none h = (refl, refl)
plan_dongle_settled w row (some d) none (some dev) h = (ground arith, ground arith)
plan_dongle_settled w row (some d) (some px) (some dev) h = (ground arith, ground arith)

plan_firewall_settled :
    (w : World) (row : SlotRow) (known : Bool)
    → lookup w.observed.fenced row.if_name ≡ some known
    → plan_firewall w row ≡ []
unfolding plan_firewall
plan_firewall_settled w row known h = ground arith

plan_free_slot_settled :
    (w : World) (row : SlotRow) (d : Option Dongle)
    → IsSettled w row
    → plan_free_slot w row (lookup (proxies_by_slot w.desired) row.id) d ≡ []
unfolding plan_free_slot plan_egress
plan_free_slot_settled w row d h =
    let px = lookup (proxies_by_slot w.desired) row.id in
    let (idle, recovery) = plan_dongle_settled w row d px _ h.device in
    rw (
      h.egress,
      plan_firewall_settled w row h.fenced.0 h.fenced.1,
      idle,
      plan_proxies_settled w row px h.proxy,
      recovery,
    )

plan_slot_settled :
    (w : World) (row : SlotRow) → IsSettled w row → plan_slot w row (proxies_by_slot w.desired) ≡ []
unfolding plan_slot
plan_slot_settled w row h =
    ground (arith, plan_free_slot_settled w row (dongle_for w.desired row) h)

slot_lookup-All :
    (P : SlotRow → Type 0) (m : List (ℕ × SlotRow)) (s : ℕ)
    → All (λ e. P e.1) m
    → ForEach (slot_lookup m s) P
unfolding slot_lookup
slot_lookup-All P [] s h = tt
slot_lookup-All P ((k, row) ∷ m) s h = elim (Bool-cases (k == s)) [
  | inl e ↦ rw e h.0
  | inr e ↦ rw e (slot_lookup-All P m s h.1)
]

plan_slots_settled :
    (w : World) (ss : List ℕ)
    → All (λ e. IsSettled w e.1) w.desired.slots
    → plan_slots w (proxies_by_slot w.desired) ss ≡ []
unfolding plan_slots
plan_slots_settled w [] h = refl
plan_slots_settled w (s ∷ ss) h =
    rw (plan_slots_settled w ss h)
      (at (slot_lookup w.desired.slots s) (slot_lookup-All (IsSettled w) w.desired.slots s h))
  where
    at :
        (o : Option SlotRow)
        → ForEach o (IsSettled w)
        → (elim o [ none ↦ [] | some row ↦ plan_slot w row (proxies_by_slot w.desired) ]) ++ [] ≡ []
    at none k = refl
    at (some row) k = rw (plan_slot_settled w row k)

plan_node_settled :
    (w : World)
    → is_empty w.observed.net.public_src_rules ≡ false
    → w.observed.net.route_table_names_ok ≡ true
    → plan_node w ≡ []
unfolding plan_node
plan_node_settled w rules names = ground arith

-- If the public rule and the table names are in place and every slot is settled, the plan is empty.
pub plan_settled :
    (w : World)
    → is_empty w.observed.net.public_src_rules ≡ false
    → w.observed.net.route_table_names_ok ≡ true
    → All (λ e. IsSettled w e.1) w.desired.slots
    → plan w ≡ []
unfolding plan plan_all drop_destructive
plan_settled w rules names h =
    rw (plan_node_settled w rules names, plan_slots_settled w (sorted_slots w.desired.slots) h)
      (ground arith)
