-- ===== src/Reconcile/Plan/Quiet.antt =====
-- The subjects and the kinds of the actions of reconcile/plan.go.
use huawei_api.Base.{
  ℕ, ◌+◌, ◌<◌, ◌≡◌, ◌⊎◌, String, true, false, not, All, All-keep_passed, All-map, lookup, Option,
  some, none, List, arith,
}
use huawei_api.Domain.Enums.{SubjectType}
use huawei_api.Domain.Model.{SlotRow, Dongle, Proxy}
use huawei_api.Reconcile.World.{
  World, active_op_on, dongle_for, DeviceObservation, in_startup_grace,
}
use huawei_api.Reconcile.Action.{
  Action, ActionKind, Reason, act, target, destructive, drop_destructive,
}
use huawei_api.Reconcile.Plan.Parts.{plan_free_slot-All, plan-All}
use huawei_api.Reconcile.Plan.{
  busy, plan_node, plan_proxy, plan_recovery, plan_egress, plan_firewall, plan_max_idle,
  plan_free_slot, busy_proxy, busy_dongle, plan_slot, plan_all, plan,
}

-- No operation is live on the subject of the action.
abbrev pub IsQuiet : World → Action → Type 0
IsQuiet w a = lookup w.active_ops (target a) ≡ none

busy-IsQuiet :
    (w : World) (kind : ActionKind) (subject : SubjectType) (id : String) (s : ℕ) (r : Reason)
    (ps : List (_ × _))
    → busy w subject id ≡ false
    → IsQuiet w (act kind subject id s r ps)
unfolding active_op_on target
busy-IsQuiet w kind subject id s r ps h = ground arith

plan_node-IsQuiet : (w : World) → All (IsQuiet w) (plan_node w)
unfolding plan_node active_op_on target
plan_node-IsQuiet w = ground arith

plan_proxy-IsQuiet :
    (w : World) (row : SlotRow) (px : Proxy) (unready : Option Reason)
    → busy w SubjectType.proxy px.id ≡ false
    → All (IsQuiet w) (plan_proxy w row px unready)
unfolding plan_proxy active_op_on target
plan_proxy-IsQuiet w row px unready h = ground arith

plan_recovery-IsQuiet :
    (w : World) (row : SlotRow) (d : Dongle) (px : Option Proxy) (dev : Option DeviceObservation)
    → busy_proxy w px ≡ false
    → busy w SubjectType.dongle d.id ≡ false
    → All (IsQuiet w) (plan_recovery w row d px dev)
unfolding plan_recovery active_op_on target
plan_recovery-IsQuiet w row d px dev h k = ground arith

plan_egress-IsQuiet :
    (w : World) (row : SlotRow) (unready : Option Reason)
    → busy w SubjectType.slot row.id ≡ false
    → All (IsQuiet w) (plan_egress row unready)
unfolding plan_egress active_op_on target
plan_egress-IsQuiet w row none h = tt
plan_egress-IsQuiet w row (some r) h = ground arith

plan_firewall-IsQuiet :
    (w : World) (row : SlotRow)
    → busy w SubjectType.slot row.id ≡ false
    → All (IsQuiet w) (plan_firewall w row)
unfolding plan_firewall active_op_on target
plan_firewall-IsQuiet w row h = ground arith

plan_max_idle-IsQuiet :
    (w : World) (row : SlotRow) (d : Dongle) (dev : Option DeviceObservation)
    → busy w SubjectType.dongle d.id ≡ false
    → All (IsQuiet w) (plan_max_idle row d dev)
unfolding plan_max_idle active_op_on target
plan_max_idle-IsQuiet w row d dev h = ground arith

plan_free_slot-IsQuiet :
    (w : World) (row : SlotRow) (px : Option Proxy) (dongle : Option Dongle)
    → busy w SubjectType.slot row.id ≡ false
    → busy_proxy w px ≡ false
    → busy_dongle w dongle ≡ false
    → All (IsQuiet w) (plan_free_slot w row px dongle)
plan_free_slot-IsQuiet w row px dongle hs hp hd =
    plan_free_slot-All (IsQuiet w) w row px dongle (plan_egress-IsQuiet w row _ hs)
      (plan_firewall-IsQuiet w row hs) (λ d e. plan_max_idle-IsQuiet w row d _ (rw e at hd))
      (λ p e. plan_proxy-IsQuiet w row p _ (rw e at hp))
      (λ d e. plan_recovery-IsQuiet w row d px _ hp (rw e at hd))

plan_slot-IsQuiet :
    (w : World) (row : SlotRow) (proxies : List (String × Proxy))
    → All (IsQuiet w) (plan_slot w row proxies)
unfolding plan_slot
plan_slot-IsQuiet w row proxies =
    ground (arith, plan_free_slot-IsQuiet w row (lookup proxies row.id) (dongle_for w.desired row))

-- Every planned action is on a subject with no live operation.
pub plan-IsQuiet : (w : World) → All (IsQuiet w) (plan w)
plan-IsQuiet w = plan-All (IsQuiet w) w (plan_node-IsQuiet w) (λ s row e. plan_slot-IsQuiet w row _)

in_grace :
    (w : World)
    → (w.cache_warm ≡ false)
      ⊎ (w.now < w.host_booted_at + w.startup_grace)
      ⊎ (w.now < w.process_started_at + w.startup_grace)
    → in_startup_grace w ≡ true
unfolding in_startup_grace
in_grace w h = ground arith

-- While the observation is cold, or less than the grace has passed since the host booted or since the
-- process started, no planned action reboots a dongle, rotates a proxy or evicts its clients.
pub plan_in_grace :
    (w : World)
    → (w.cache_warm ≡ false)
      ⊎ (w.now < w.host_booted_at + w.startup_grace)
      ⊎ (w.now < w.process_started_at + w.startup_grace)
    → All (λ a. destructive a.kind ≡ false) (plan w)
unfolding plan drop_destructive
plan_in_grace w h = rw (in_grace w h) (
    All-map _ (λ a. destructive a.kind ≡ false) _ (λ a e. ground arith)
      (All-keep_passed (λ a. not (destructive a.kind)) (plan_all w)))
