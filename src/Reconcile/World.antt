-- ===== src/Reconcile/World.antt =====
-- reconcile/contract.go and world.go: the desired and the observed state, the budgets, the grace
-- after a start. A time is in nanoseconds since 1970; a zero `time.Time` that the code tests for is
-- `none`. Of the observation's records the fields are those that planning reads.
use huawei_api.Base.{
  ℕ, ◌+◌, ◌/◌, String, Bool, true, false, not, ◌&&◌, ◌||◌, ltb, leb, ◌==◌, str_le, if◌then◌else◌,
  lookup, insert, Option, some, none, List, [], ◌∷◌,
}
use huawei_api.Domain.Addr.{Prefix}
use huawei_api.Domain.Enums.{SubjectType}
use huawei_api.Domain.Model.{Node, SlotRow, Dongle, Proxy, Operation, occupied, op_key}

-- A Go map whose keys are slots.
unfoldable pub slot_lookup {ℓ} : {V : Type ℓ} → List (ℕ × V) → ℕ → Option V
slot_lookup [] k = none
slot_lookup ((j, v) ∷ m) k = if j == k then some v else slot_lookup m k

pub record DesiredState : Type 0 where
  pub node : Node
  pub slots : List (ℕ × SlotRow)
  pub dongles : List (String × Dongle)
  pub proxies : List (String × Proxy)

-- DesiredState.DongleFor
unfoldable pub dongle_for : DesiredState → SlotRow → Option Dongle
dongle_for d row = elim row.dongle_id [
  | none ↦ none
  | some id ↦ if occupied row then lookup d.dongles id else none
]

-- One round of the loop of ProxiesBySlot.
add_proxy : List (String × Proxy) → Proxy → List (String × Proxy)
add_proxy out p =
    let added = insert p.slot_id p out in
    elim (lookup out p.slot_id) [
      | none ↦ added
      | some cur ↦ if str_le cur.id p.id then out else added
    ]

by_slot : List (String × Proxy) → List (String × Proxy) → List (String × Proxy)
unfolding add_proxy
by_slot out [] = out
by_slot out ((k, p) ∷ m) = by_slot (add_proxy out p) m

-- DesiredState.ProxiesBySlot: the key is the id of the slot's row.
unfoldable pub proxies_by_slot : DesiredState → List (String × Proxy)
unfolding by_slot
proxies_by_slot d = by_slot [] d.proxies

-- netcfg.LinkState, RuleState, RouteState and Observation.
pub record LinkState : Type 0 where
  pub mac : String
  pub addrs : List Prefix

pub record RuleState : Type 0 where
  pub priority : ℕ

pub record RouteState : Type 0 where
  pub dst : Prefix
  pub dev : String

pub record NetObservation : Type 0 where
  pub links : List (String × LinkState)
  pub rules : List RuleState
  pub routes : List (ℕ × List RouteState)
  pub public_src_rules : List RuleState
  pub route_table_names_ok : Bool

-- proxysup.Status
pub record ProxyStatus : Type 0 where
  pub is_running : Bool
  pub socks_bound : Bool
  pub http_bound : Bool
  pub probe_ok : Bool

-- The zero Status, which a map gives for a missing key.
abbrev pub zero_status : ProxyStatus
zero_status = record {
  is_running = false;
  socks_bound = false;
  http_bound = false;
  probe_ok = false;
}

pub record DeviceObservation : Type 0 where
  pub reachable : Bool
  pub conn : ℕ
  pub sim : ℕ
  pub max_idle_time : ℕ
  pub login_needed : Bool
  pub observed_at : Option ℕ
  pub failing_since : Option ℕ

-- device.SimState.Locked: PIN checking, PIN required, PUK required.
abbrev pub sim_locked : ℕ → Bool
sim_locked s = s == 259 || s == 260 || s == 261

-- device.ConnStatus.Connected
abbrev pub is_connected : ℕ → Bool
is_connected c = c == 901

pub record ObservedState : Type 0 where
  pub net : NetObservation
  pub nft_table_present : Bool
  pub fenced : List (String × Bool)
  pub proxy_status : List (ℕ × ProxyStatus)
  pub devices : List (ℕ × DeviceObservation)
  pub sweeps_completed : ℕ

pub record Budgets : Type 0 where
  pub reboot_per_day : ℕ
  pub reboot_cooldown : ℕ
  pub reboot_used : List (String × ℕ)
  pub last_reboot_at : List (String × ℕ)
  pub rotate_in_flight : ℕ
  pub max_concurrent_rotate : ℕ
  pub min_rotate_interval : ℕ
  pub last_rotate_at : List (String × ℕ)

-- `now.Sub(last) < d`, with the difference as a signed number.
abbrev pub sooner_than : ℕ → ℕ → Option ℕ → Bool
sooner_than now d none = false
sooner_than now d (some last) = ltb now (last + d)

-- A missing key reads as 0.
abbrev pub count_of : List (String × ℕ) → String → ℕ
count_of m k = elim (lookup m k) [ none ↦ 0 | some n ↦ n ]

-- Budgets.RebootAllowed
unfoldable pub reboot_allowed : Budgets → String → ℕ → Bool
reboot_allowed b id now =
    if leb b.reboot_per_day (count_of b.reboot_used id)
    then false
    else if sooner_than now b.reboot_cooldown (lookup b.last_reboot_at id)
    then false
    else true

-- Budgets.RotateAllowed
unfoldable pub rotate_allowed : Budgets → String → ℕ → Bool
rotate_allowed b id now =
    if ltb 0 b.max_concurrent_rotate && leb b.max_concurrent_rotate b.rotate_in_flight
    then false
    else if sooner_than now b.min_rotate_interval (lookup b.last_rotate_at id)
    then false
    else true

pub record World : Type 0 where
  pub now : ℕ
  pub host_booted_at : ℕ
  pub process_started_at : ℕ
  pub startup_grace : ℕ
  pub cache_warm : Bool
  pub desired : DesiredState
  pub observed : ObservedState
  pub budgets : Budgets
  pub active_ops : List (String × Operation)

-- domain.UnixMillis
abbrev pub unix_millis : ℕ → ℕ
unix_millis t = t / 1000000

-- World.GraceUntil
unfoldable pub grace_until : World → ℕ
grace_until w =
    (if ltb w.host_booted_at w.process_started_at then w.process_started_at else w.host_booted_at)
    + w.startup_grace

-- World.InStartupGrace
unfoldable pub in_startup_grace : World → Bool
unfolding grace_until
in_startup_grace w = not w.cache_warm || ltb w.now (grace_until w)

-- World.ActiveOpOn
unfoldable pub active_op_on : World → SubjectType → String → Option Operation
active_op_on w subject id = lookup w.active_ops (op_key subject id)
