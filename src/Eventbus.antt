-- ===== src/Eventbus.antt =====
-- eventbus/bus.go: MemBus, with the types of eventbus/types.go that it reads. A subscriber carries what
-- its reader has received so far; a map of topics is a list, and a context that is done is left out.
pub mod Delivery
mod Tests
use huawei_api.Base.{
  ℕ, ◌+◌, ◌^◌, ◌%◌, ◌≤◌, String, Bool, true, false, not, ◌&&◌, ◌||◌, ◌==◌, str_eq, ltb,
  if◌then◌else◌, any, keep, length, map, List, [], ◌∷◌, ◌++◌,
}
use huawei_api.Base.Int.{ℤ, pos, leb_ℤ, pos_part}
use huawei_api.Domain.Errors.{
  Err, invalid, conflict, Result, ok, err, ◌>>=◌, ◌>>◌, refuse_if, after,
}

pub data EventType : Type 0 where
  hello proxy_patch dongle_patch op_update op_done sms_received system_notice : EventType
  other : String → EventType

-- EventType.Valid
abbrev pub type_valid : EventType → Bool
type_valid (other s) = false
type_valid _ = true

-- EventType.Topic
abbrev pub topic_of : EventType → String
topic_of proxy_patch = "proxies"
topic_of dongle_patch = "dongles"
topic_of op_update = "operations"
topic_of op_done = "operations"
topic_of sms_received = "sms"
topic_of _ = "system"

pub record Event : Type 0 where
  pub event_type : EventType
  pub topic : String
  pub node_id : String
  pub subject : String
  pub ts : ℕ
  pub payload : String

-- A subscriber, its channel open or closed; the oldest event of the channel comes first.
pub record Subscriber : Type 0 where
  pub number : ℕ
  pub topics : List String
  pub is_open : Bool
  pub queue : List Event
  pub received : List Event

-- subscriber.wants
abbrev pub wants : List String → Event → Bool
wants topics e = any (λ t. str_eq t "*" || str_eq t e.topic) topics

pub record MemBus : Type 0 where
  pub buffer : ℕ
  pub subs : List Subscriber
  pub is_closed : Bool
  pub published : ℕ
  pub lagged : ℕ

-- NewMemBus
abbrev pub new_bus : ℤ → MemBus
new_bus buffer = record {
  buffer = if leb_ℤ buffer (pos 0) then 256 else pos_part buffer;
  subs = [];
  is_closed = false;
  published = 0;
  lagged = 0;
}

-- delete from subs, and close
abbrev pub shut : Subscriber → Subscriber
shut s = record s { is_open = false }

-- What the loop of Publish does for one subscriber: one whose channel is full is cut off.
pub offer : ℕ → Event → Subscriber → Subscriber
offer buffer e s =
    if s.is_open && wants s.topics e
    then (if ltb (length s.queue) buffer then record s { queue = s.queue ++ (e ∷ []) } else shut s)
    else s

abbrev is_lagging : ℕ → Event → Subscriber → Bool
is_lagging buffer e s = s.is_open && wants s.topics e && not (ltb (length s.queue) buffer)

abbrev pub with_topic : Event → Event
with_topic e = record e { topic = if str_eq e.topic "" then topic_of e.event_type else e.topic }

-- Publish
pub publish : MemBus → Event → Result MemBus
unfolding offer
publish b e = do
  refuse_if (not (type_valid e.event_type)) invalid
  refuse_if b.is_closed conflict
  ok (record b {
    subs = map (offer b.buffer (with_topic e)) b.subs;
    published = (b.published + 1) % 2 ^ 64;
    lagged = (b.lagged + length (keep (is_lagging b.buffer (with_topic e)) b.subs)) % 2 ^ 64;
  })

abbrev all_if_none : List String → List String
all_if_none [] = "*" ∷ []
all_if_none (t ∷ ts) = t ∷ ts

-- Subscribe; the number tells the subscribers apart.
pub subscribe : MemBus → ℕ → List String → Result MemBus
subscribe b n topics = do
  refuse_if b.is_closed conflict
  ok (record b {
    subs =
        b.subs
        ++ (record {
          number = n;
          topics = all_if_none topics;
          is_open = true;
          queue = [];
          received = [];
        }
            ∷ []);
  })

-- A change of one subscriber.
abbrev pub at_number : ℕ → (Subscriber → Subscriber) → Subscriber → Subscriber
at_number n f s = if s.number == n then f s else s

-- The function that Subscribe returns.
pub cancel : MemBus → ℕ → MemBus
cancel b n = record b { subs = map (at_number n shut) b.subs }

-- The reader of a channel takes its oldest event, also after the channel is closed.
pub take_from : List Event → Subscriber → Subscriber
take_from [] s = s
take_from (e ∷ es) s = record s { queue = es; received = s.received ++ (e ∷ []) }

pub receive : MemBus → ℕ → MemBus
unfolding take_from
receive b n = record b { subs = map (at_number n (λ s. take_from s.queue s)) b.subs }

-- Close
pub close : MemBus → MemBus
close b = if b.is_closed then b else record b { is_closed = true; subs = map shut b.subs }

-- Subscribers
abbrev pub subscribers : MemBus → ℕ
subscribers b = length (keep (λ s. s.is_open) b.subs)

pub data BusCall : Type 0 where
  publishes : Event → BusCall
  subscribes : ℕ → List String → BusCall
  cancels receives : ℕ → BusCall
  closes : BusCall

-- One call; a call that is refused changes nothing.
pub bus_step : MemBus → BusCall → MemBus
unfolding publish subscribe cancel receive close
bus_step b (publishes e) = after b (publish b e)
bus_step b (subscribes n topics) = after b (subscribe b n topics)
bus_step b (cancels n) = cancel b n
bus_step b (receives n) = receive b n
bus_step b closes = close b

pub bus_run : MemBus → List BusCall → MemBus
unfolding bus_step
bus_run b [] = b
bus_run b (c ∷ cs) = bus_run (bus_step b c) cs

-- The event that a call publishes, unless it is refused.
abbrev pub accepted : MemBus → BusCall → List Event
accepted b (publishes e) =
    if type_valid e.event_type && not b.is_closed then with_topic e ∷ [] else []
accepted b _ = []

-- The events that a history publishes, in order.
pub all_accepted : MemBus → List BusCall → List Event
unfolding bus_step
all_accepted b [] = []
all_accepted b (c ∷ cs) = accepted b c ++ all_accepted (bus_step b c) cs
