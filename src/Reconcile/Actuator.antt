-- ===== src/Reconcile/Actuator.antt =====
-- reconcile/actuator.go and the loop over the actions of Engine.Once (engine.go). The drivers that an
-- action calls are parameters: each takes the state of the outside world to the next one, and may
-- fail. A driver that is not wired is `none`.
pub mod Laws
pub mod Sweep
mod Tests
use huawei_api.Base.{
  ℕ, ◌+◌, String, Bool, true, false, str_eq, if◌then◌else◌, lookup, Option, some, none, List, [],
  ◌∷◌, ◌++◌,
}
use huawei_api.Domain.Addr.{Addr, is_valid, Prefix}
use huawei_api.Domain.Enums.{SubjectType, AuthMode}
use huawei_api.Domain.Slot.{gateway_ip, host_ip, uid}
use huawei_api.Domain.Model.{Node, SlotRow, Proxy, ProxyPolicy, Operation}
use huawei_api.Reconcile.World.{World, slot_lookup, LinkState}
use huawei_api.Reconcile.Action.{
  ActionKind, Reason, ParamKey, ParamValue, Action, destructive, target,
}
use huawei_api.Reconcile.Generations.{Generations, is_fenced}

-- ErrNotFound is the one error that the actuator tells apart.
pub data Fault : Type 0 where
  missing no_ops failure : Fault

-- What FindActive answers: ErrNotFound, another error, or the live operation.
pub data Found : Type 0 where
  free : Found
  broken : Fault → Found
  live : Operation → Found

abbrev pub Effect : Type 0 → Type 0
Effect E = E → E × Option Fault

-- proxysup.Spec, without the paths, the texts derived from the slot. The prefixes are sorted by the
-- standard library.
pub record Spec : Type 0 where
  pub slot : ℕ
  pub internal_ip : Addr
  pub external_ip : Addr
  pub socks_port : ℕ
  pub http_port : ℕ
  pub username : String
  pub password : String
  pub auth_mode : AuthMode
  pub auth_ips : List Prefix
  pub policy : ProxyPolicy
  pub nservers : List Addr
  pub uid : ℕ

pub record NetDriver (E : Type 0) : Type 0 where
  pub ensure_route_table_names : Effect E
  pub ensure_global : List Addr → Effect E
  pub apply_slot : ℕ → String → String → Effect E

pub record ProxyDriver (E : Type 0) : Type 0 where
  pub apply : Spec → Effect E
  pub stop : ℕ → Bool → Effect E

-- RecoverRotate and RebootDongle: the operation's id, or an error.
pub record OpsDriver (E : Type 0) : Type 0 where
  pub recover_rotate : String → Reason → E → E × (String × Option Fault)
  pub reboot_dongle : String → Reason → E → E × (String × Option Fault)

pub record Deps (E : Type 0) : Type 0 where
  -- Operations().FindActive
  pub find_active : SubjectType → String → E → Found
  -- Proxies().SetEnabled
  pub set_enabled : String → Bool → Effect E
  pub net : Option (NetDriver E)
  pub add_dongle : Option (String → Addr → Effect E)
  -- Registry.ForSlot, then SetMaxIdleTime on the device.
  pub set_max_idle_time : Option (ℕ → ℕ → Effect E)
  pub proxy : Option (ProxyDriver E)
  pub ops : Option (OpsDriver E)
  pub nserver_fallback : Addr
  pub sort_prefixes : List Prefix → List Prefix

pub record Outcome : Type 0 where
  pub kind : ActionKind
  pub target : String
  pub slot : ℕ
  pub reason : Reason
  pub skipped : Bool
  pub operation_id : String
  pub error : Option Fault

abbrev key_eq : ParamKey → ParamKey → Bool
key_eq ParamKey.scope ParamKey.scope = true
key_eq ParamKey.iface ParamKey.iface = true
key_eq ParamKey.gateway ParamKey.gateway = true
key_eq _ _ = false

-- `param`, for the keys that the actuator reads.
unfoldable pub param : List (ParamKey × ParamValue) → ParamKey → Option ParamValue
param [] k = none
param ((j, v) ∷ ps) k = if key_eq j k then some v else param ps k

abbrev text_of : Option ParamValue → String
text_of (some (ParamValue.text t)) = t
text_of _ = ""

-- SpecFor
unfoldable pub spec_for : (List Prefix → List Prefix) → Node → SlotRow → Proxy → Addr → Spec
spec_for sort node row px fallback = record {
  slot = row.slot;
  internal_ip = node.public_host;
  external_ip = host_ip row.slot;
  socks_port = px.socks_port;
  http_port = px.http_port;
  username = px.username;
  password = px.password;
  auth_mode = px.auth_mode;
  auth_ips = sort px.auth_ips;
  policy = px.policy;
  nservers = gateway_ip row.slot ∷ (if is_valid fallback then fallback ∷ [] else []);
  uid = uid row.slot;
}

module _ {E : Type 0} (deps : Deps E) where
  -- One effect after another, unless the first fails.
  abbrev then_do : Effect E → Effect E → Effect E
  then_do first second e =
      let (e', fault) = first e in elim fault [ some f ↦ (e', some f) | none ↦ second e' ]

  abbrev fail_with : Fault → Effect E
  fail_with f e = (e, some f)

  -- The case of a driver that is not wired.
  abbrev nothing : Effect E
  nothing e = (e, none)

  -- applyNetcfg
  pub apply_netcfg : World → Action → Effect E
  apply_netcfg w a = elim deps.net [
    | none ↦ nothing
    | some net ↦
        if str_eq (text_of (param a.params ParamKey.scope)) "global"
        then then_do net.ensure_route_table_names (
            net.ensure_global
              (if is_valid w.desired.node.public_host then w.desired.node.public_host ∷ [] else []))
        else elim (slot_lookup w.desired.slots a.slot) [
          | none ↦ fail_with missing
          | some row ↦
              net.apply_slot a.slot row.id_path
                (elim (lookup w.observed.net.links row.if_name) [ none ↦ "" | some l ↦ l.mac ])
        ]
  ]

  -- addFwDongle: a gateway that does not parse is derived from the slot.
  pub add_fw_dongle : Action → Effect E
  add_fw_dongle a = elim deps.add_dongle [
    | none ↦ nothing
    | some add ↦
        add (text_of (param a.params ParamKey.iface)) (elim (param a.params ParamKey.gateway) [
          | some (ParamValue.addr gw) ↦ if is_valid gw then gw else gateway_ip a.slot
          | _ ↦ gateway_ip a.slot
        ])
  ]

  -- setMaxIdle
  pub set_max_idle : Action → Effect E
  set_max_idle a = elim deps.set_max_idle_time [ none ↦ nothing | some set ↦ set a.slot 0 ]

  -- applyProxy
  pub apply_proxy : World → Action → Effect E
  apply_proxy w a = elim deps.proxy [
    | none ↦ nothing
    | some driver ↦ elim (lookup w.desired.proxies a.subject_id) [
      | none ↦ fail_with missing
      | some px ↦ elim (slot_lookup w.desired.slots a.slot) [
        | none ↦ fail_with missing
        | some row ↦
            driver.apply (spec_for deps.sort_prefixes w.desired.node row px deps.nserver_fallback)
      ]
    ]
  ]

  -- stopProxy
  pub stop_proxy : Action → Bool → Effect E
  stop_proxy a evict = elim deps.proxy [ none ↦ nothing | some driver ↦ driver.stop a.slot evict ]

  -- markExpired: a proxy that is gone is no error.
  pub mark_expired : Action → Effect E
  mark_expired a e =
      let (e', fault) = deps.set_enabled a.subject_id false e in
      (e', elim fault [ some missing ↦ none | f ↦ f ])

  -- recoverRotate and rebootDongle
  pub recover : ActionKind → Action → E → E × (String × Option Fault)
  recover kind a e = elim deps.ops [
    | none ↦ (e, ("", some no_ops))
    | some ops ↦ elim kind [
      | ActionKind.recover_rotate ↦ ops.recover_rotate a.subject_id a.reason e
      | _ ↦ ops.reboot_dongle a.subject_id a.reason e
    ]
  ]

  abbrev no_id : E × Option Fault → E × (String × Option Fault)
  no_id (e, fault) = (e, ("", fault))

  -- The switch of Apply.
  dispatch : ActionKind → World → Action → E → E × (String × Option Fault)
  unfolding apply_netcfg add_fw_dongle set_max_idle apply_proxy stop_proxy mark_expired recover
  dispatch ActionKind.apply_netcfg w a e = no_id (apply_netcfg w a e)
  dispatch ActionKind.add_fw_dongle w a e = no_id (add_fw_dongle a e)
  dispatch ActionKind.set_max_idle w a e = no_id (set_max_idle a e)
  dispatch ActionKind.apply_proxy w a e = no_id (apply_proxy w a e)
  dispatch ActionKind.stop_proxy w a e = no_id (stop_proxy a false e)
  dispatch ActionKind.evict_proxy w a e = no_id (stop_proxy a true e)
  dispatch ActionKind.mark_expired w a e = no_id (mark_expired a e)
  dispatch ActionKind.recover_rotate w a e = recover ActionKind.recover_rotate a e
  dispatch ActionKind.reboot_dongle w a e = recover ActionKind.reboot_dongle a e

  abbrev pub outcome : Action → Bool → String → Option Fault → Outcome
  outcome a skipped id fault = record {
    kind = a.kind;
    target = target a;
    slot = a.slot;
    reason = a.reason;
    skipped = skipped;
    operation_id = id;
    error = fault;
  }

  carry_out : World → Action → E → E × Outcome
  unfolding dispatch
  carry_out w a e = let (e', (id, fault)) = dispatch a.kind w a e in (e', outcome a false id fault)

  -- Apply: a destructive action asks the store once more for a live operation.
  pub apply : World → Action → E → E × Outcome
  unfolding carry_out
  apply w a e =
      let done = carry_out w a e in
      if destructive a.kind
      then (elim (deps.find_active a.subject a.subject_id e) [
        | broken fault ↦ (e, outcome a false "" (some fault))
        | live op ↦ (e, outcome a true op.id none)
        | free ↦ done
      ])
      else done

-- engine.Result, without the world and the actions that it repeats.
pub record Counts : Type 0 where
  pub outcomes : List Outcome
  pub applied : ℕ
  pub skipped : ℕ
  pub failed : ℕ

-- One outcome is counted as skipped, failed or applied.
count_outcome : Counts → Outcome → Counts
count_outcome c out =
    let listed = record c { outcomes = c.outcomes ++ out ∷ [] } in
    if out.skipped then record listed { skipped = c.skipped + 1 } else elim out.error [
      | some fault ↦ record listed { failed = c.failed + 1 }
      | none ↦ record listed { applied = c.applied + 1 }
    ]

abbrev pub no_counts : Counts
no_counts = record { outcomes = []; applied = 0; skipped = 0; failed = 0 }

-- The loop of Once. The generations and the cancellation of the context may change while it runs, so
-- they are read from the outside world.
module _ {E : Type 0} (deps : Deps E) (gens : E → Generations) (canceled : E → Bool) (w : World)
    (snap : List (String × ℕ)) where
  unfoldable pub act_on : Action → E → E × Outcome
  unfolding apply
  act_on a e =
      let done = apply deps w a e in
      if is_fenced (gens e) a snap then (e, outcome deps a true "" none) else done

  unfoldable pub run_actions : List Action → E → Counts → E × Counts
  unfolding act_on count_outcome
  run_actions [] e c = (e, c)
  run_actions (a ∷ rest) e c =
      let next = (let (e', out) = act_on a e in run_actions rest e' (count_outcome c out)) in
      if canceled e then (e, c) else next
