-- ===== src/Reconcile/Action.antt =====
-- reconcile/contract.go and actions.go: the actions that a sweep plans. A parameter keeps its value,
-- where the program keeps its text.
use huawei_api.Base.{ℕ, String, Bool, true, false, not, keep, List}
use huawei_api.Domain.Addr.{Addr}
use huawei_api.Domain.Enums.{SubjectType}
use huawei_api.Domain.Model.{op_key}

pub data ActionKind : Type 0 where
  apply_netcfg apply_proxy stop_proxy evict_proxy add_fw_dongle recover_rotate : ActionKind
  reboot_dongle set_max_idle mark_expired : ActionKind

-- ActionKind.Destructive
abbrev pub destructive : ActionKind → Bool
destructive ActionKind.recover_rotate = true
destructive ActionKind.reboot_dongle = true
destructive ActionKind.evict_proxy = true
destructive _ = false

pub data Reason : Type 0 where
  global_routing_missing link_missing address_missing rule_missing route_missing : Reason
  firewall_set_missing max_idle_not_disabled proxy_expired proxy_disabled : Reason
  proxy_suspended slot_has_no_dongle proxy_not_running proxy_not_bound : Reason
  proxy_probe_failed dongle_unreachable data_session_down : Reason

pub data ParamKey : Type 0 where
  scope iface gateway seconds observed trigger evict expires_at dongle_id conn_status unit :
      ParamKey

pub data ParamValue : Type 0 where
  text : String → ParamValue
  num : ℕ → ParamValue
  addr : Addr → ParamValue

-- BaseAction
pub record Action : Type 0 where
  pub kind : ActionKind
  pub subject : SubjectType
  pub subject_id : String
  pub slot : ℕ
  pub reason : Reason
  pub params : List (ParamKey × ParamValue)

-- `act`
abbrev pub act :
    ActionKind → SubjectType → String → ℕ → Reason → List (ParamKey × ParamValue) → Action
act kind subject id slot reason params = record {
  kind = kind;
  subject = subject;
  subject_id = id;
  slot = slot;
  reason = reason;
  params = params;
}

-- BaseAction.Target
unfoldable pub target : Action → String
target a = op_key a.subject a.subject_id

-- dropDestructive
unfoldable pub drop_destructive : List Action → List Action
drop_destructive actions = keep (λ a. not (destructive a.kind)) actions

-- Actions.Destructive
unfoldable pub only_destructive : List Action → List Action
only_destructive actions = keep (λ a. destructive a.kind) actions
