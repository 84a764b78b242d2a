-- ===== src/Domain/Model.antt =====
-- domain/model.go: the rows of the store; of a node and a dongle, the fields that planning reads. Times are milliseconds since 1970 and never negative; a
-- pointer that may be nil is an `Option`.
use huawei_api.Base.{
  ℕ, String, Bool, true, false, not, ◌&&◌, ltb, leb, str_eq, if◌then◌else◌, Option, some, none,
  List,
}
use huawei_api.Domain.Addr.{Addr, Prefix}
use huawei_api.Domain.Enums.{
  OpKind, OpState, terminal, Trigger, SubjectType, subject_text, ActorType, AuthMode,
  RotationResult, ProxyState,
}
use Prim.Native.String

pub record Node : Type 0 where
  pub id : String
  pub public_host : Addr

pub record Dongle : Type 0 where
  pub id : String
  pub node_id : String
  pub auto_recover_enabled : Bool

pub record SlotRow : Type 0 where
  pub id : String
  pub node_id : String
  pub slot : ℕ
  pub usb_path : String
  pub id_path : String
  pub if_name : String
  pub dongle_id : Option String
  pub created_at : ℕ
  pub updated_at : ℕ

-- SlotRow.Occupied
unfoldable pub occupied : SlotRow → Bool
occupied r = elim r.dongle_id [ none ↦ false | some d ↦ not (str_eq d "") ]

pub record PortRange : Type 0 where
  pub lo : ℕ
  pub hi : ℕ

-- PortRange.Valid
unfoldable pub port_range_valid : PortRange → Bool
port_range_valid r = leb 1 r.lo && leb r.hi 65535 && leb r.lo r.hi

pub record ProxyPolicy : Type 0 where
  pub allow_all_ports : Bool
  pub allowed_ports : List PortRange
  pub max_conn : ℕ
  pub conn_limit : ℕ

pub record Proxy : Type 0 where
  pub id : String
  pub slot_id : String
  pub enabled : Bool
  pub is_suspended : Bool
  pub socks_port : ℕ
  pub http_port : ℕ
  pub username : String
  pub password : String
  pub auth_mode : AuthMode
  pub auth_ips : List Prefix
  pub policy : ProxyPolicy
  pub expires_at : Option ℕ

-- Proxy.Expired
unfoldable pub is_expired : Proxy → ℕ → Bool
is_expired p now_ms = elim p.expires_at [ none ↦ false | some at ↦ ltb 0 at && leb at now_ms ]

-- Proxy.DesiredState: the cases are tried in this order.
unfoldable pub desired_state : Proxy → ℕ → ProxyState
desired_state p now_ms =
    if not p.enabled
    then ProxyState.disabled
    else if is_expired p now_ms
    then ProxyState.expired
    else if p.is_suspended
    then ProxyState.suspended
    else ProxyState.active

pub record Operation : Type 0 where
  pub id : String
  pub kind : OpKind
  pub subject_type : SubjectType
  pub subject_id : String
  pub state : OpState
  pub step : String
  pub pct : ℕ
  pub started_at : ℕ
  pub deadline_at : ℕ
  pub finished_at : Option ℕ
  pub error : String
  pub result_json : String
  pub trigger : Trigger
  pub actor_type : ActorType
  pub actor_id : String
  pub request_id : String
  pub created_at : ℕ
  pub updated_at : ℕ

abbrev pub is_none {ℓ} : {A : Type ℓ} → Option A → Bool
is_none none = true
is_none (some a) = false

-- Operation.Active
unfoldable pub is_active : Operation → Bool
is_active o = is_none o.finished_at && not (terminal o.state)

-- Operation.Stalled
unfoldable pub is_stalled : Operation → ℕ → Bool
unfolding is_active
is_stalled o now_ms = is_active o && ltb 0 o.deadline_at && ltb o.deadline_at now_ms

-- OpKey, Operation.Target and BaseAction.Target: "proxy:px_1".
unfoldable pub op_key : SubjectType → String → String
op_key subject id = String.◌++◌ (subject_text subject) (String.◌++◌ ":" id)

pub record Rotation : Type 0 where
  pub id : String
  pub operation_id : String
  pub proxy_id : String
  pub requested_at : ℕ
  pub duration_ms : ℕ
  pub old_public_ip : Addr
  pub new_public_ip : Addr
  pub ip_changed : Bool
  pub result : RotationResult
  pub trigger : Trigger
  pub request_id : String
  pub hold_ms : ℕ
  pub attempts : ℕ
  pub error : String
