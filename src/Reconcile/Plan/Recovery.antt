-- ===== src/Reconcile/Plan/Recovery.antt =====
-- The reasons of planRecovery and planProxy (reconcile/plan.go) to reboot, rotate, evict or start.
use huawei_api.Base.{
  ℕ, ◌+◌, ◌≤◌, ◌≡◌, refl, ◌⊎◌, inl, inr, Bool, true, false, All, Bool-cases, lookup, Option, some,
  none, arith, ltb, ◌==◌,
}
use huawei_api.Domain.Enums.{ProxyState}
use huawei_api.Domain.Model.{SlotRow, Dongle, Proxy, desired_state, occupied}
use huawei_api.Reconcile.World.{
  World, slot_lookup, dongle_for, proxies_by_slot, DeviceObservation, reboot_allowed,
  rotate_allowed, sim_locked, unix_millis,
}
use huawei_api.Reconcile.Action.{Action, ActionKind, Reason}
use huawei_api.Reconcile.Plan.Parts.{plan_free_slot-All, plan-All}
use huawei_api.Reconcile.Plan.{
  plan_node, apply_drifted, plan_served, plan_in_state, plan_proxy, plan_reboot, reboot_since,
  plan_rotate, plan_recovery, plan_egress, plan_firewall, plan_max_idle, plan_slot, plan,
  silent_since, is_active_state, egress_ready, proxy_drift, status_of,
}

-- The dongle may be recovered at all: the operator allows it and no PIN or password is in the way.
abbrev pub IsRecoverable : Dongle → DeviceObservation → Type 0
IsRecoverable d dev =
    (d.auto_recover_enabled ≡ true) × (sim_locked dev.sim ≡ false) × (dev.login_needed ≡ false)

-- The row of a slot that the action is for, in the desired state.
pub record IsPlaced (w : World) (a : Action) (row : SlotRow) : Type 0 where
  pub key : ℕ
  pub desired : slot_lookup w.desired.slots key ≡ some row
  pub in_slot : row.slot ≡ a.slot

-- The dongle is the one that the desired state puts into the slot. Its device has not answered for a
-- minute, and the budget has room.
pub record MayReboot (w : World) (a : Action) (row : SlotRow) (d : Dongle) (dev : DeviceObservation)
    (since : ℕ) : Type 0 where
  pub placed : IsPlaced w a row
  pub held : dongle_for w.desired row ≡ some d
  pub named : d.id ≡ a.subject_id
  pub observed : slot_lookup w.observed.devices a.slot ≡ some dev
  pub recoverable : IsRecoverable d dev
  pub unreachable : dev.reachable ≡ false
  pub silent : silent_since dev ≡ some since
  pub for_a_minute : unix_millis since + 60000 ≤ unix_millis w.now
  pub in_budget : reboot_allowed w.budgets d.id w.now ≡ true

-- The dongle and the proxy are those of the slot in the desired state. The device answers and has no
-- data session, the proxy should run, and the budget has room.
pub record MayRotate (w : World) (a : Action) (row : SlotRow) (d : Dongle) (dev : DeviceObservation)
    (px : Proxy) : Type 0 where
  pub placed : IsPlaced w a row
  pub held : dongle_for w.desired row ≡ some d
  pub served : lookup (proxies_by_slot w.desired) row.id ≡ some px
  pub named : px.id ≡ a.subject_id
  pub observed : slot_lookup w.observed.devices a.slot ≡ some dev
  pub recoverable : IsRecoverable d dev
  pub reachable : dev.reachable ≡ true
  pub down : (dev.conn == 901) ≡ false
  pub wanted : desired_state px (unix_millis w.now) ≡ ProxyState.active
  pub in_budget : rotate_allowed w.budgets px.id w.now ≡ true

-- The proxy of the slot in the desired state is past its expiry or suspended.
pub record MayEvict (w : World) (a : Action) (row : SlotRow) (px : Proxy) : Type 0 where
  pub placed : IsPlaced w a row
  pub served : lookup (proxies_by_slot w.desired) row.id ≡ some px
  pub named : px.id ≡ a.subject_id
  pub unwanted :
      (desired_state px (unix_millis w.now) ≡ ProxyState.expired)
      ⊎ (desired_state px (unix_millis w.now) ≡ ProxyState.suspended)

-- The state that planProxy takes to the end of its switch.
abbrev pub is_served_state : ProxyState → Bool
is_served_state ProxyState.expired = false
is_served_state ProxyState.disabled = false
is_served_state ProxyState.suspended = false
is_served_state _ = true

-- The proxy of the slot in the desired state should run, its slot holds a dongle and has egress, and
-- its listener is not healthy.
pub record MayApply (w : World) (a : Action) (row : SlotRow) (px : Proxy) : Type 0 where
  pub placed : IsPlaced w a row
  pub served : lookup (proxies_by_slot w.desired) row.id ≡ some px
  pub named : px.id ≡ a.subject_id
  pub wanted : is_served_state (desired_state px (unix_millis w.now)) ≡ true
  pub held : occupied row ≡ true
  pub ready : egress_ready w row ≡ none
  pub drifted : proxy_drift (status_of w row.slot) ≡ some a.reason

abbrev pub IsJustified : World → Action → Type 0
IsJustified w a = elim a.kind [
  | ActionKind.reboot_dongle ↦
      (row : SlotRow) × (d : Dongle) × (dev : DeviceObservation) × (since : ℕ) × MayReboot w a row d
        dev since
  | ActionKind.recover_rotate ↦
      (row : SlotRow) × (d : Dongle) × (dev : DeviceObservation) × (px : Proxy) × MayRotate w a row
        d dev px
  | ActionKind.evict_proxy ↦ (row : SlotRow) × (px : Proxy) × MayEvict w a row px
  | ActionKind.apply_proxy ↦ (row : SlotRow) × (px : Proxy) × MayApply w a row px
  | _ ↦ Unit {0}
]

plan_node-IsJustified : (w : World) → All (IsJustified w) (plan_node w)
unfolding plan_node
plan_node-IsJustified w = ground arith

plan_reboot-IsJustified :
    (w : World) (s : ℕ) (row : SlotRow) (d : Dongle) (dev : DeviceObservation)
    → slot_lookup w.desired.slots s ≡ some row
    → dongle_for w.desired row ≡ some d
    → slot_lookup w.observed.devices row.slot ≡ some dev
    → IsRecoverable d dev
    → dev.reachable ≡ false
    → All (IsJustified w) (plan_reboot w row d dev)
unfolding plan_reboot
plan_reboot-IsJustified w s row d dev here held seen ok down = go (silent_since dev) refl
  where
    go : (o : Option ℕ) → silent_since dev ≡ o → All (IsJustified w) (reboot_since w row d o)
    go none e = tt
    go (some t) e = elim (Bool-cases (ltb (unix_millis w.now) (unix_millis t + 60000))) [
      | inl soon ↦ rw soon tt
      | inr late ↦ elim (Bool-cases (reboot_allowed w.budgets d.id w.now)) [
        | inr spent ↦ rw (late, spent) tt
        | inl room ↦
            rw (late, room)
              (
                (
                  row,
                  d,
                  dev,
                  t,
                  record {
                    placed = record { key = s; desired = here; in_slot = refl };
                    held = held;
                    named = refl;
                    observed = seen;
                    recoverable = ok;
                    unreachable = down;
                    silent = e;
                    for_a_minute = ground arith;
                    in_budget = room;
                  },
                ),
                tt,
              )
      ]
    ]

state-cases : (s : ProxyState) → (s ≡ ProxyState.active) ⊎ (is_active_state s ≡ false)
state-cases s = ground arith

plan_rotate-IsJustified :
    (w : World) (s : ℕ) (row : SlotRow) (d : Dongle) (px : Option Proxy) (dev : DeviceObservation)
    → slot_lookup w.desired.slots s ≡ some row
    → dongle_for w.desired row ≡ some d
    → lookup (proxies_by_slot w.desired) row.id ≡ px
    → slot_lookup w.observed.devices row.slot ≡ some dev
    → IsRecoverable d dev
    → dev.reachable ≡ true
    → All (IsJustified w) (plan_rotate w row d px dev)
unfolding plan_rotate
plan_rotate-IsJustified w s row d none dev here held served seen ok up = tt
plan_rotate-IsJustified w s row d (some px) dev here held served seen ok up =
    elim (Bool-cases (dev.conn == 901)) [
      | inl fine ↦ rw fine tt
      | inr down ↦ elim (state-cases (desired_state px (unix_millis w.now))) [
        | inr idle ↦ rw (down, idle) tt
        | inl wanted ↦ elim (Bool-cases (rotate_allowed w.budgets px.id w.now)) [
          | inr spent ↦ rw (down, wanted, spent) tt
          | inl room ↦
              rw (down, wanted, room)
                (
                  (
                    row,
                    d,
                    dev,
                    px,
                    record {
                      placed = record { key = s; desired = here; in_slot = refl };
                      held = held;
                      served = served;
                      named = refl;
                      observed = seen;
                      recoverable = ok;
                      reachable = up;
                      down = down;
                      wanted = wanted;
                      in_budget = room;
                    },
                  ),
                  tt,
                )
        ]
      ]
    ]

plan_recovery-IsJustified :
    (w : World) (s : ℕ) (row : SlotRow) (d : Dongle) (px : Option Proxy)
    (dev : Option DeviceObservation)
    → slot_lookup w.desired.slots s ≡ some row
    → dongle_for w.desired row ≡ some d
    → lookup (proxies_by_slot w.desired) row.id ≡ px
    → slot_lookup w.observed.devices row.slot ≡ dev
    → All (IsJustified w) (plan_recovery w row d px dev)
unfolding plan_recovery
plan_recovery-IsJustified w s row d px none here held served seen = tt
plan_recovery-IsJustified w s row d px (some dev) here held served seen = ground (
  arith,
  λ (e : d.auto_recover_enabled ≡ true) (l : sim_locked dev.sim ≡ false)
        (n : dev.login_needed ≡ false) (down : dev.reachable ≡ false).
      plan_reboot-IsJustified w s row d dev here held seen (e, l, n) down,
  λ (e : d.auto_recover_enabled ≡ true) (l : sim_locked dev.sim ≡ false)
        (n : dev.login_needed ≡ false) (up : dev.reachable ≡ true).
      plan_rotate-IsJustified w s row d px dev here held served seen (e, l, n) up,
)

module _ (w : World) (s : ℕ) (row : SlotRow) (px : Proxy)
    (here : slot_lookup w.desired.slots s ≡ some row)
    (served : lookup (proxies_by_slot w.desired) row.id ≡ some px) where
  apply_drifted-IsJustified :
      (drift : Option Reason)
      → is_served_state (desired_state px (unix_millis w.now)) ≡ true
      → occupied row ≡ true
      → egress_ready w row ≡ none
      → proxy_drift (status_of w row.slot) ≡ drift
      → All (IsJustified w) (apply_drifted row px drift)
  unfolding apply_drifted
  apply_drifted-IsJustified none wanted held ready e = tt
  apply_drifted-IsJustified (some reason) wanted held ready e = (
    (
      row,
      px,
      record {
        placed = record { key = s; desired = here; in_slot = refl };
        served = served;
        named = refl;
        wanted = wanted;
        held = held;
        ready = ready;
        drifted = e;
      },
    ),
    tt,
  )

  plan_served-IsJustified :
      (unready : Option Reason)
      → is_served_state (desired_state px (unix_millis w.now)) ≡ true
      → egress_ready w row ≡ unready
      → All (IsJustified w) (plan_served w row px unready)
  unfolding plan_served
  plan_served-IsJustified (some reason) wanted e = ground arith
  plan_served-IsJustified none wanted e = elim (Bool-cases (occupied row)) [
    | inr empty ↦ rw empty (ground arith)
    | inl held ↦ rw held (unfold apply_drifted in apply_drifted-IsJustified _ wanted held e refl)
  ]

  evicted-IsJustified :
      (a : Action)
      → row.slot ≡ a.slot
      → px.id ≡ a.subject_id
      → (desired_state px (unix_millis w.now) ≡ ProxyState.expired)
        ⊎ (desired_state px (unix_millis w.now) ≡ ProxyState.suspended)
      → (r : SlotRow) × (p : Proxy) × MayEvict w a r p
  evicted-IsJustified a i n u = (
    row,
    px,
    record {
      placed = record { key = s; desired = here; in_slot = i };
      served = served;
      named = n;
      unwanted = u;
    },
  )

  plan_in_state-IsJustified :
      (st : ProxyState) (unready : Option Reason)
      → egress_ready w row ≡ unready
      → desired_state px (unix_millis w.now) ≡ st
      → All (IsJustified w) (plan_in_state st w row px unready)
  unfolding plan_in_state
  plan_in_state-IsJustified ProxyState.expired unready e d =
      (tt, (evicted-IsJustified _ refl refl (inl d), tt))
  plan_in_state-IsJustified ProxyState.disabled unready e d = ground arith
  plan_in_state-IsJustified ProxyState.suspended unready e d =
      elim (Bool-cases (status_of w row.slot).is_running) [
        | inl up ↦ rw up (evicted-IsJustified _ refl refl (inr d), tt)
        | inr down ↦ rw down tt
      ]
  plan_in_state-IsJustified _ unready e d = plan_served-IsJustified unready (rw d refl) e

  plan_proxy-IsJustified : All (IsJustified w) (plan_proxy w row px (egress_ready w row))
  unfolding plan_proxy
  plan_proxy-IsJustified = plan_in_state-IsJustified _ _ refl refl

plan_rest-IsJustified :
    (w : World) (row : SlotRow) (unready : Option Reason)
    → All (IsJustified w) (plan_egress row unready) × All (IsJustified w) (plan_firewall w row)
unfolding plan_egress plan_firewall
plan_rest-IsJustified w row unready = (ground arith, ground arith)

plan_max_idle-IsJustified :
    (w : World) (row : SlotRow) (d : Dongle) (dev : Option DeviceObservation)
    → All (IsJustified w) (plan_max_idle row d dev)
unfolding plan_max_idle
plan_max_idle-IsJustified w row d dev = ground arith

plan_slot-IsJustified :
    (w : World) (s : ℕ) (row : SlotRow)
    → slot_lookup w.desired.slots s ≡ some row
    → All (IsJustified w) (plan_slot w row (proxies_by_slot w.desired))
unfolding plan_slot
plan_slot-IsJustified w s row here =
    let px = lookup (proxies_by_slot w.desired) row.id in
    let rest = plan_rest-IsJustified w row (egress_ready w row) in
    ground (
      arith,
      plan_free_slot-All (IsJustified w) w row px (dongle_for w.desired row) rest.0 rest.1
          (λ d _. plan_max_idle-IsJustified w row d _)
          (λ p served. plan_proxy-IsJustified w s row p here served)
          (λ d held. plan_recovery-IsJustified w s row d px _ here held refl refl),
    )

-- Every planned reboot is of the dongle that the desired state puts into the slot of the action; it is
-- recoverable, has not answered for a minute and is within its budget. Every rotation is of the proxy of
-- the slot, which should be active and is within its budget, and the dongle of the slot is recoverable
-- and answers with no data session. Every eviction is of the proxy of the slot, which has expired or is
-- suspended. Every proxy that is applied is that of the slot, is neither expired nor disabled nor
-- suspended, sits in an occupied slot with ready egress, and has drifted for the reason given.
pub plan-IsJustified : (w : World) → All (IsJustified w) (plan w)
plan-IsJustified w = plan-All (IsJustified w) w (plan_node-IsJustified w) (plan_slot-IsJustified w)
