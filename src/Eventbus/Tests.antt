-- ===== src/Eventbus/Tests.antt =====
-- A reader of operations and a slow reader of everything (eventbus/bus.go).
use huawei_api.Base.{ℕ, ◌≡◌, refl, true, some, [], ◌∷◌, List}
use huawei_api.Base.Int.{pos}
use huawei_api.Eventbus.{
  Event, op_update, proxy_patch, Subscriber, MemBus, new_bus, BusCall, publishes, receives, cancels,
  bus_run, all_accepted,
}
use huawei_api.Eventbus.Delivery.{with_number, IsServed, bus_run_serves}

abbrev update : ℕ → Event
update at = record {
  event_type = op_update;
  topic = "";
  node_id = "nd_1";
  subject = "op_1";
  ts = at;
  payload = "null";
}

abbrev reader : Subscriber
reader = record {
  number = 1;
  topics = "operations" ∷ [];
  is_open = true;
  queue = [];
  received = [];
}

abbrev two_readers : MemBus
two_readers = record (new_bus (pos 1)) {
  subs = reader ∷ record reader { number = 2; topics = "*" ∷ [] } ∷ [];
}

-- The second reader never reads and is cut off.
abbrev calls : List BusCall
calls =
    publishes (update 1000)
    ∷ receives 1
    ∷ publishes (record (update 1100) { event_type = proxy_patch })
    ∷ publishes (update 1200)
    ∷ cancels 2
    ∷ []

bus_run_serves_example :
    (s : Subscriber) × (with_number (bus_run two_readers calls).subs 1 ≡ some s)
    × (s.topics ≡ "operations" ∷ [])
    × IsServed reader s (all_accepted two_readers calls)
bus_run_serves_example = bus_run_serves two_readers calls 1 reader refl
