-- ===== src/Reconcile/Plan/Tests.antt =====
-- A node with one slot, whose dongle has been silent for two minutes, and the same node at rest.
use huawei_api.Base.{
  ◌≡◌, refl, inr, true, false, All, str_eq, some, none, [], ◌∷◌, lookup, insert, arith,
}
use huawei_api.Domain.Addr.{Addr, Prefix}
use huawei_api.Domain.Enums.{AuthMode}
use huawei_api.Domain.Slot.{host_prefix, rule_prio_src, rule_prio_uid, route_table}
use huawei_api.Domain.Model.{SlotRow, Dongle, Proxy, occupied, desired_state, is_expired}
use huawei_api.Reconcile.World.{World, DeviceObservation, LinkState, slot_lookup, proxies_by_slot}
use huawei_api.Reconcile.Action.{destructive}
use huawei_api.Reconcile.Plan.{plan, egress_ready, proxy_drift}
use huawei_api.Reconcile.Plan.Quiet.{IsQuiet, plan-IsQuiet, plan_in_grace}
use huawei_api.Reconcile.Plan.Recovery.{IsJustified, plan-IsJustified}
use huawei_api.Reconcile.Plan.Converged.{IsSettled, plan_settled}

abbrev pub slot_row : SlotRow
slot_row = record {
  id = "sl_7";
  node_id = "nd_1";
  slot = 7;
  usb_path = "1-1.4";
  id_path = "pci-0000:00:14.0-usb-0:1.4:1.0";
  if_name = "dg07";
  dongle_id = some "dg_1";
  created_at = 1000;
  updated_at = 1000;
}

abbrev pub dongle_row : Dongle
dongle_row = record { id = "dg_1"; node_id = "nd_1"; auto_recover_enabled = true }

abbrev pub proxy_row : Proxy
proxy_row = record {
  id = "px_1";
  slot_id = "sl_7";
  enabled = true;
  is_suspended = false;
  socks_port = 21007;
  http_port = 22007;
  username = "user";
  password = "secret";
  auth_mode = AuthMode.both;
  auth_ips = [];
  policy = record { allow_all_ports = true; allowed_ports = []; max_conn = 100; conn_limit = 100 };
  expires_at = none;
}

abbrev silent : DeviceObservation
silent = record {
  reachable = false;
  conn = 0;
  sim = 257;
  max_idle_time = 0;
  login_needed = false;
  observed_at = some 1000000000000;
  failing_since = some 1000000000000;
}

abbrev link : LinkState
link = record { mac = "0c:5b:8f:27:9a:64"; addrs = host_prefix 7 ∷ [] }

abbrev pub silent_world : World
silent_world = record {
  now = 1120000000000;
  host_booted_at = 0;
  process_started_at = 0;
  startup_grace = 90000000000;
  cache_warm = true;
  desired = record {
    node = record { id = "nd_1"; public_host = Addr.v4 3221225985 };
    slots = (7, slot_row) ∷ [];
    dongles = ("dg_1", dongle_row) ∷ [];
    proxies = ("px_1", proxy_row) ∷ [];
  };
  observed = record {
    net = record {
      links = ("dg07", link) ∷ [];
      rules = record { priority = 1007 } ∷ record { priority = 1507 } ∷ [];
      routes = (1007, record { dst = Prefix.zero_prefix; dev = "dg07" } ∷ []) ∷ [];
      public_src_rules = record { priority = 900 } ∷ [];
      route_table_names_ok = true;
    };
    nft_table_present = true;
    fenced = ("dg07", false) ∷ [];
    proxy_status =
        (7, record { is_running = true; socks_bound = true; http_bound = true; probe_ok = true })
        ∷ [];
    devices = (7, silent) ∷ [];
    sweeps_completed = 12;
  };
  budgets = record {
    reboot_per_day = 3;
    reboot_cooldown = 600000000000;
    reboot_used = [];
    last_reboot_at = [];
    rotate_in_flight = 0;
    max_concurrent_rotate = 3;
    min_rotate_interval = 60000000000;
    last_rotate_at = [];
  };
  active_ops = [];
}

abbrev restarted : World
restarted = record silent_world { process_started_at = 1100000000000 }

abbrev settled_world : World
settled_world = record silent_world {
  observed = record silent_world.observed {
    devices = (7, record silent { reachable = true; conn = 901 }) ∷ [];
  };
}

plan-IsQuiet_example : All (IsQuiet silent_world) (plan silent_world)
plan-IsQuiet_example = plan-IsQuiet silent_world

plan-IsJustified_example : All (IsJustified silent_world) (plan silent_world)
plan-IsJustified_example = plan-IsJustified silent_world

plan_in_grace_example : All (λ a. destructive a.kind ≡ false) (plan restarted)
plan_in_grace_example = plan_in_grace restarted (inr (inr (omega arith)))

slot_row-IsSettled : IsSettled settled_world slot_row
unfolding egress_ready proxy_drift lookup slot_lookup proxies_by_slot desired_state occupied str_eq
    insert is_expired host_prefix rule_prio_src rule_prio_uid route_table
slot_row-IsSettled = record {
  egress = refl;
  fenced = (false, refl);
  device = (refl, refl, refl);
  proxy = (refl, refl);
}

plan_settled_example : plan settled_world ≡ []
plan_settled_example = plan_settled settled_world refl refl (slot_row-IsSettled, tt)
