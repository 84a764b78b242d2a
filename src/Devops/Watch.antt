-- ===== src/Devops/Watch.antt =====
-- The loop that waitDown, waitUp and pollConn of devops/reboot.go share: look, give up after the
-- deadline, sleep for the poll interval. A run is a list of its calls with their answers, newest
-- first, and the outside world any function of that list.
pub mod Ends
pub mod Rule
use huawei_api.Base.{
  ℕ, zero, suc, ◌/◌, Bool, true, false, not, if◌then◌else◌, Option, some, none, List, ◌∷◌,
}
use huawei_api.Base.Int.{ℤ, pos, ◌+ℤ◌, ltb_ℤ, pos_part}
use huawei_api.Domain.Addr.{Addr}

pub data RebootStep : Type 0 where
  precheck reboot wait_down wait_up data_on verify done : RebootStep

-- What Reboot answers; ErrUnreachable is told apart.
pub data RebootAnswer : Type 0 where
  accepted lost rejected : RebootAnswer

-- device.Status, the fields that are read.
pub record LinkStatus : Type 0 where
  pub conn : ℕ
  pub wan_ip : Addr

pub data Call : Type 0 where
  stepped : RebootStep → Call
  reboot_called : RebootAnswer → Call
  reachable_asked : Bool → Call
  status_asked : Option LinkStatus → Call
  pin_asked : Option ℕ → Call
  switched_on : Bool → Call
  slept : Bool → Call

abbrev pub Trace : Type 0
Trace = List Call

pub record Env : Type 0 where
  pub now : Trace → ℕ
  pub for_slot : Trace → Bool
  pub reboot : Trace → RebootAnswer
  pub reachable : Trace → Bool
  pub status : Trace → Option LinkStatus
  pub pin_status : Trace → Option ℕ
  pub data_on : Trace → Bool
  pub sleep : ℤ → Trace → Bool

-- One look decides, or goes on with what it has seen.
pub data Look {ℓ} (S R : Type ℓ) : Type ℓ where
  decided : R → Look S R
  undecided : S → Look S R

-- What a loop does: its look, its answer after the deadline, and its answer if the sleep is broken off.
pub record Loop {ℓ} (S R : Type ℓ) : Type ℓ where
  pub look : Env → S → Trace → Look S R × Trace
  pub late : S → R
  pub broken_off : R

module _ {ℓ} {S R : Type ℓ} (env : Env) (interval : ℤ) (loop : Loop S R) (deadline : ℤ) where
  -- A round after its look; `next` is the round that follows.
  pub after_look : Trace → (S → Option R × Trace) → Look S R → Option R × Trace
  after_look looked next (decided r) = (some r, looked)
  after_look looked next (undecided s) =
      if not (ltb_ℤ (pos (env.now looked)) deadline)
      then (some (loop.late s), looked)
      else if env.sleep interval looked
      then next s
      else (some loop.broken_off, slept false ∷ looked)

  -- The loop with fuel; `none` means that the fuel ran out.
  unfoldable pub watch_from : ℕ → S → Trace → Option R × Trace
  unfolding after_look
  watch_from zero s tr = (none, tr)
  watch_from (suc fuel) s tr =
      let (seen, looked) = loop.look env s tr in
      after_look looked (λ s'. watch_from fuel s' (slept true ∷ looked)) seen

-- One round for each interval of the budget, and two more.
unfoldable pub watch {ℓ} : {S R : Type ℓ} → Env → ℤ → Loop S R → ℤ → S → Trace → Option R × Trace
unfolding watch_from
watch env interval loop budget s tr =
    watch_from env interval loop (pos (env.now tr) +ℤ budget)
      (suc (suc (pos_part budget / pos_part interval))) s tr
