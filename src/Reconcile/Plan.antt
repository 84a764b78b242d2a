-- ===== src/Reconcile/Plan.antt =====
-- reconcile/plan.go: from the world that a sweep sees to the actions that it takes. A Go pair of a
-- value and a flag is an `Option` here; `egress_ready` gives `none` for ready and else the reason.
mod Parts
pub mod Quiet
pub mod Recovery
pub mod Converged
pub mod Tests
use huawei_api.Base.{
  ℕ, ◌+◌, ◌≤◌, String, Bool, true, false, not, ◌&&◌, ◌||◌, ltb, leb, ◌==◌, str_eq, if◌then◌else◌,
  any, lookup, Option, some, none, List, [], ◌∷◌, ◌++◌,
}
use huawei_api.Domain.Addr.{Addr, is_valid, Prefix, prefix_eq}
use huawei_api.Domain.Enums.{SubjectType, ProxyState}
use huawei_api.Domain.Slot.{
  slot_valid, host_prefix, gateway_ip, rule_prio_src, rule_prio_uid, route_table,
}
use huawei_api.Domain.Model.{SlotRow, Dongle, Proxy, occupied, desired_state}
use huawei_api.Reconcile.World.{
  slot_lookup, dongle_for, proxies_by_slot, LinkState, RuleState, RouteState, ProxyStatus,
  zero_status, DeviceObservation, sim_locked, is_connected, reboot_allowed, rotate_allowed, World,
  unix_millis, in_startup_grace, active_op_on,
}
use huawei_api.Reconcile.Action.{
  ActionKind, Reason, ParamKey, ParamValue, Action, act, drop_destructive,
}

-- Is an operation live on the subject?
abbrev pub busy : World → SubjectType → String → Bool
busy w subject id = elim (active_op_on w subject id) [ none ↦ false | some op ↦ true ]

abbrev pub is_empty {ℓ} : {A : Type ℓ} → List A → Bool
is_empty [] = true
is_empty (x ∷ xs) = false

-- planNode
unfoldable pub plan_node : World → List Action
plan_node w =
    if not (is_empty w.observed.net.public_src_rules) && w.observed.net.route_table_names_ok
    then []
    else if busy w SubjectType.node w.desired.node.id
    then []
    else act ActionKind.apply_netcfg SubjectType.node w.desired.node.id 0
        Reason.global_routing_missing ((ParamKey.scope, ParamValue.text "global") ∷ [])
      ∷ []

-- hasPrefix
abbrev pub has_prefix : List Prefix → Prefix → Bool
has_prefix have want = any (λ p. prefix_eq p want) have

-- hasRule
abbrev pub has_rule : List RuleState → ℕ → Bool
has_rule rules priority = any (λ r. r.priority == priority) rules

-- `Dst.Bits() == 0 || !Dst.IsValid()`
abbrev is_default_dst : Prefix → Bool
is_default_dst Prefix.zero_prefix = true
is_default_dst (Prefix.prefix a bits) = bits == 0 || not (is_valid a)

-- hasDefaultRoute; a table with no entry has no routes.
abbrev pub has_default_route : Option (List RouteState) → String → Bool
has_default_route none dev = false
has_default_route (some routes) dev = any (λ r. str_eq r.dev dev && is_default_dst r.dst) routes

-- egressReady
unfoldable pub egress_ready : World → SlotRow → Option Reason
egress_ready w row =
    let net = w.observed.net in
    elim (lookup net.links row.if_name) [
      | none ↦ some Reason.link_missing
      | some link ↦
          if not (has_prefix link.addrs (host_prefix row.slot))
          then some Reason.address_missing
          else if not (has_rule net.rules (rule_prio_src row.slot))
              || not (has_rule net.rules (rule_prio_uid row.slot))
          then some Reason.rule_missing
          else if not
              (has_default_route (slot_lookup net.routes (route_table row.slot)) row.if_name)
          then some Reason.route_missing
          else none
    ]

-- proxyDrift
unfoldable pub proxy_drift : ProxyStatus → Option Reason
proxy_drift st =
    if not st.is_running
    then some Reason.proxy_not_running
    else if not st.socks_bound || not st.http_bound
    then some Reason.proxy_not_bound
    else if not st.probe_ok
    then some Reason.proxy_probe_failed
    else none

-- `expiresAt`: the empty text for no expiry.
abbrev expiry : Proxy → ParamKey × ParamValue
expiry px = (
  ParamKey.expires_at,
  elim px.expires_at [ none ↦ ParamValue.text "" | some at ↦ ParamValue.num at ],
)

abbrev pub status_of : World → ℕ → ProxyStatus
status_of w s = elim (slot_lookup w.observed.proxy_status s) [ none ↦ zero_status | some st ↦ st ]

-- A proxy that should not run is stopped by the given action, if it runs.
abbrev stop_running : ProxyStatus → Action → List Action
stop_running st a = if not st.is_running then [] else a ∷ []

-- planProxy after its switch: a proxy that should run. The parameter `unit` is the name of the
-- slot's unit, kept as the slot.
apply_drifted : SlotRow → Proxy → Option Reason → List Action
apply_drifted row px none = []
apply_drifted row px (some reason) =
    act ActionKind.apply_proxy SubjectType.proxy px.id row.slot reason
      ((ParamKey.unit, ParamValue.num row.slot) ∷ [])
    ∷ []

unfoldable pub plan_served : World → SlotRow → Proxy → Option Reason → List Action
unfolding apply_drifted
plan_served w row px unready =
    let st = status_of w row.slot in
    if not (occupied row)
    then stop_running st
        (act ActionKind.stop_proxy SubjectType.proxy px.id row.slot Reason.slot_has_no_dongle [])
    else elim unready [ some reason ↦ [] | none ↦ apply_drifted row px (proxy_drift st) ]

-- The switch of planProxy.
unfoldable pub plan_in_state : ProxyState → World → SlotRow → Proxy → Option Reason → List Action
unfolding plan_served
plan_in_state ProxyState.expired w row px unready =
    act ActionKind.mark_expired SubjectType.proxy px.id row.slot Reason.proxy_expired
      (expiry px ∷ [])
    ∷ act ActionKind.evict_proxy SubjectType.proxy px.id row.slot Reason.proxy_expired
        ((ParamKey.evict, ParamValue.text "true") ∷ expiry px ∷ [])
    ∷ []
plan_in_state ProxyState.disabled w row px unready =
    stop_running (status_of w row.slot)
      (act ActionKind.stop_proxy SubjectType.proxy px.id row.slot Reason.proxy_disabled [])
plan_in_state ProxyState.suspended w row px unready = stop_running (status_of w row.slot) (
    act ActionKind.evict_proxy SubjectType.proxy px.id row.slot Reason.proxy_suspended
      ((ParamKey.evict, ParamValue.text "true") ∷ []))
plan_in_state _ w row px unready = plan_served w row px unready

-- planProxy
unfoldable pub plan_proxy : World → SlotRow → Proxy → Option Reason → List Action
unfolding plan_in_state
plan_proxy w row px unready = plan_in_state (desired_state px (unix_millis w.now)) w row px unready

abbrev pub is_active_state : ProxyState → Bool
is_active_state ProxyState.active = true
is_active_state _ = false

-- When the dongle last answered, or else when it began to fail.
abbrev pub silent_since : DeviceObservation → Option ℕ
silent_since dev = elim dev.observed_at [ some t ↦ some t | none ↦ dev.failing_since ]

-- The part of planRecovery for a dongle that does not answer, by the time since when.
unfoldable pub reboot_since : World → SlotRow → Dongle → Option ℕ → List Action
reboot_since w row d none = []
reboot_since w row d (some t) =
    if ltb (unix_millis w.now) (unix_millis t + 60000)
    then []
    else if not (reboot_allowed w.budgets d.id w.now)
    then []
    else act ActionKind.reboot_dongle SubjectType.dongle d.id row.slot Reason.dongle_unreachable
        ((ParamKey.trigger, ParamValue.text "auto_recovery") ∷ [])
      ∷ []

unfoldable pub plan_reboot : World → SlotRow → Dongle → DeviceObservation → List Action
unfolding reboot_since
plan_reboot w row d dev = reboot_since w row d (silent_since dev)

-- The part of planRecovery for a dongle that answers and has no data session.
unfoldable pub plan_rotate :
    World → SlotRow → Dongle → Option Proxy → DeviceObservation → List Action
plan_rotate w row d none dev = []
plan_rotate w row d (some px) dev =
    if is_connected dev.conn
    then []
    else if not (is_active_state (desired_state px (unix_millis w.now)))
    then []
    else if not (rotate_allowed w.budgets px.id w.now)
    then []
    else act ActionKind.recover_rotate SubjectType.proxy px.id row.slot Reason.data_session_down (
        (ParamKey.trigger, ParamValue.text "auto_recovery")
        ∷ (ParamKey.dongle_id, ParamValue.text d.id)
        ∷ (ParamKey.conn_status, ParamValue.num dev.conn)
        ∷ [])
      ∷ []

-- planRecovery
unfoldable pub plan_recovery :
    World → SlotRow → Dongle → Option Proxy → Option DeviceObservation → List Action
unfolding plan_reboot plan_rotate
plan_recovery w row d px none = []
plan_recovery w row d px (some dev) =
    if not d.auto_recover_enabled
    then []
    else if sim_locked dev.sim || dev.login_needed
    then []
    else if not dev.reachable
    then plan_reboot w row d dev
    else plan_rotate w row d px dev

-- The first action of planSlot.
unfoldable pub plan_egress : SlotRow → Option Reason → List Action
plan_egress row none = []
plan_egress row (some reason) =
    act ActionKind.apply_netcfg SubjectType.slot row.id row.slot reason (
      (ParamKey.scope, ParamValue.text "slot") ∷ (ParamKey.iface, ParamValue.text row.if_name) ∷ [])
    ∷ []

-- The second: a present interface that the firewall does not know.
unfoldable pub plan_firewall : World → SlotRow → List Action
plan_firewall w row = elim (lookup w.observed.net.links row.if_name) [
  | none ↦ []
  | some link ↦
      if not w.observed.nft_table_present then [] else elim (lookup w.observed.fenced row.if_name) [
        | some known ↦ []
        | none ↦
            act ActionKind.add_fw_dongle SubjectType.slot row.id row.slot
              Reason.firewall_set_missing
              ((ParamKey.iface, ParamValue.text row.if_name)
                ∷ (ParamKey.gateway, ParamValue.addr (gateway_ip row.slot))
                ∷ [])
            ∷ []
      ]
]

-- The third: a dongle that would drop an idle session. 0 disables the limit.
unfoldable pub plan_max_idle : SlotRow → Dongle → Option DeviceObservation → List Action
plan_max_idle row d none = []
plan_max_idle row d (some dev) =
    if dev.reachable && not (dev.max_idle_time == 0)
    then act ActionKind.set_max_idle SubjectType.dongle d.id row.slot Reason.max_idle_not_disabled (
        (ParamKey.seconds, ParamValue.num 0)
        ∷ (ParamKey.observed, ParamValue.num dev.max_idle_time)
        ∷ [])
      ∷ []
    else []

abbrev pub for_some {ℓ} : {A : Type ℓ} → Option A → (A → List Action) → List Action
for_some none f = []
for_some (some a) f = f a

-- What planSlot appends once no subject of the slot is busy.
unfoldable pub plan_free_slot : World → SlotRow → Option Proxy → Option Dongle → List Action
plan_free_slot w row px dongle =
    let unready = egress_ready w row in
    let dev = slot_lookup w.observed.devices row.slot in
    plan_egress row unready
    ++ (plan_firewall w row
        ++ (for_some dongle (λ d. plan_max_idle row d dev)
            ++ (for_some px (λ p. plan_proxy w row p unready)
                ++ for_some dongle (λ d. plan_recovery w row d px dev))))

abbrev pub busy_proxy : World → Option Proxy → Bool
busy_proxy w none = false
busy_proxy w (some px) = busy w SubjectType.proxy px.id

abbrev pub busy_dongle : World → Option Dongle → Bool
busy_dongle w none = false
busy_dongle w (some d) = busy w SubjectType.dongle d.id

-- planSlot
unfoldable pub plan_slot : World → SlotRow → List (String × Proxy) → List Action
plan_slot w row proxies =
    let px = lookup proxies row.id in
    let dongle = dongle_for w.desired row in
    if not (slot_valid row.slot)
    then []
    else if busy w SubjectType.slot row.id
    then []
    else if busy_proxy w px
    then []
    else if busy_dongle w dongle
    then []
    else plan_free_slot w row px dongle

-- sortedSlots: the keys of the map in rising order.
insert_key : ℕ → List ℕ → List ℕ
insert_key k [] = k ∷ []
insert_key k (j ∷ js) = if leb k j then k ∷ j ∷ js else j ∷ insert_key k js

unfoldable pub sorted_slots : List (ℕ × SlotRow) → List ℕ
unfolding insert_key
sorted_slots [] = []
sorted_slots ((k, row) ∷ m) = insert_key k (sorted_slots m)

-- The loop of Plan. Each key is in the map; a missing one would read as the zero row, whose slot is
-- not valid.
unfoldable pub plan_slots : World → List (String × Proxy) → List ℕ → List Action
plan_slots w proxies [] = []
plan_slots w proxies (s ∷ ss) =
    (elim (slot_lookup w.desired.slots s) [ none ↦ [] | some row ↦ plan_slot w row proxies ])
    ++ plan_slots w proxies ss

-- What Plan has collected when it asks for the grace.
unfoldable pub plan_all : World → List Action
plan_all w = plan_node w ++ plan_slots w (proxies_by_slot w.desired) (sorted_slots w.desired.slots)

-- The whole of a sweep: the destructive actions are dropped in the grace.
unfoldable pub plan : World → List Action
plan w = if in_startup_grace w then drop_destructive (plan_all w) else plan_all w
