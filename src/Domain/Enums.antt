-- ===== src/Domain/Enums.antt =====
-- domain/enums.go: the text enumerations. A Go value of such a type may be any text, so each type
-- whose `Valid` is called has a constructor `other` for a text that is none of the constants.
use huawei_api.Base.{String, Bool, true, false}

pub data OpKind : Type 0 where
  rotate reboot set_auth set_ports set_lan_ip set_net_mode enroll selftest : OpKind
  other : String → OpKind

-- The text of the constant.
abbrev pub kind_text : OpKind → String
kind_text OpKind.rotate = "rotate"
kind_text OpKind.reboot = "reboot"
kind_text OpKind.set_auth = "set_auth"
kind_text OpKind.set_ports = "set_ports"
kind_text OpKind.set_lan_ip = "set_lan_ip"
kind_text OpKind.set_net_mode = "set_net_mode"
kind_text OpKind.enroll = "enroll"
kind_text OpKind.selftest = "selftest"
kind_text (OpKind.other s) = s

-- OpKind.Valid
abbrev pub op_kind_valid : OpKind → Bool
op_kind_valid (OpKind.other s) = false
op_kind_valid _ = true

abbrev pub is_rotate : OpKind → Bool
is_rotate OpKind.rotate = true
is_rotate _ = false

abbrev pub is_reboot : OpKind → Bool
is_reboot OpKind.reboot = true
is_reboot _ = false

pub data OpState : Type 0 where
  pending running stalled succeeded failed canceled : OpState
  other : String → OpState

-- The text of the constant.
abbrev pub state_text : OpState → String
state_text OpState.pending = "pending"
state_text OpState.running = "running"
state_text OpState.stalled = "stalled"
state_text OpState.succeeded = "succeeded"
state_text OpState.failed = "failed"
state_text OpState.canceled = "canceled"
state_text (OpState.other s) = s

-- OpState.Terminal
abbrev pub terminal : OpState → Bool
terminal OpState.succeeded = true
terminal OpState.failed = true
terminal OpState.canceled = true
terminal OpState.stalled = true
terminal _ = false

-- OpState.Valid
abbrev pub op_state_valid : OpState → Bool
op_state_valid (OpState.other s) = false
op_state_valid _ = true

pub data Trigger : Type 0 where
  admin_ui customer_api auto_recovery : Trigger
  other : String → Trigger

-- The text of the constant.
abbrev pub trigger_text : Trigger → String
trigger_text Trigger.admin_ui = "admin_ui"
trigger_text Trigger.customer_api = "customer_api"
trigger_text Trigger.auto_recovery = "auto_recovery"
trigger_text (Trigger.other s) = s

-- Trigger.Valid
abbrev pub trigger_valid : Trigger → Bool
trigger_valid (Trigger.other s) = false
trigger_valid _ = true

pub data SubjectType : Type 0 where
  proxy dongle slot node : SubjectType

-- The text of the constant.
abbrev pub subject_text : SubjectType → String
subject_text SubjectType.proxy = "proxy"
subject_text SubjectType.dongle = "dongle"
subject_text SubjectType.slot = "slot"
subject_text SubjectType.node = "node"

pub data ActorType : Type 0 where
  admin api_key system : ActorType
  other : String → ActorType

pub data AuthMode : Type 0 where
  user_pass ip_list both : AuthMode
  other : String → AuthMode

-- AuthMode.UsesUserPass
abbrev pub uses_user_pass : AuthMode → Bool
uses_user_pass AuthMode.user_pass = true
uses_user_pass AuthMode.both = true
uses_user_pass _ = false

-- AuthMode.UsesIPList
abbrev pub uses_ip_list : AuthMode → Bool
uses_ip_list AuthMode.ip_list = true
uses_ip_list AuthMode.both = true
uses_ip_list _ = false

pub data RotationResult : Type 0 where
  changed unchanged failed : RotationResult

pub data ProxyState : Type 0 where
  active suspended disabled expired degraded unknown : ProxyState

pub data RotateStep : Type 0 where
  precheck fence data_off hold data_on wait_connect unfence verify done : RotateStep
