-- ===== src/Rotate/Run/Outcome.antt =====
-- The result of a run in rotate/rotate.go.
use huawei_api.Base.{
  ℕ, zero, suc, ◌+◌, ◌≤◌, ◌≡◌, ◌≢◌, refl, ap, ◌⊎◌, inl, inr, Bool, true, false, not, ◌&&◌, ◌==◌,
  ltb, Bool-cases, Option, some, none, ◌∷◌, arith,
}
use huawei_api.Base.Int.{ℤ, pos, ◌+ℤ◌, ◌-ℤ◌, pos_part}
use huawei_api.Domain.Addr.{Addr, is_valid, addr_eq}
use huawei_api.Domain.Enums.{RotateStep}
use huawei_api.Reconcile.World.{sim_locked}
use huawei_api.Rotate.Policy.{Policy, hold_for, attempt_fits}
use huawei_api.Rotate.Run.{
  progressed, sim_asked, status_asked, probed, Trace, Env, poll_timeout, fence_failed, RunError,
  cycle, RunResult, no_reason, changed, empty_result, is_leak, Probe, clean, leaked, broken,
  probe_egress, Round, stop, again, verify, after_cycle, try_once, go_on, attempts_from, release,
  from_probe, from_sim, execute,
}

-- The address changed: both addresses are known and differ, and the new one is not the node's own.
pub record IsChange (host : Addr) (res : RunResult) : Type 0 where
  pub reason_given : res.reason ≡ changed
  pub no_error : res.error ≡ none
  pub old_valid : is_valid res.old ≡ true
  pub new_valid : is_valid res.new ≡ true
  pub differ : addr_eq res.new res.old ≡ false
  pub no_leak : is_leak res.new host ≡ false

-- A change is claimed in both fields, with its proof, or in neither.
abbrev pub IsVerdict : Addr → RunResult → Type 0
IsVerdict host res =
    ((res.is_changed ≡ false) × (res.reason ≢ changed))
    ⊎ ((res.is_changed ≡ true) × IsChange host res)

-- Nothing is claimed so far.
abbrev IsOpen : RunResult → Type 0
IsOpen res = (res.is_changed ≡ false) × (res.error ≡ none) × (res.reason ≡ no_reason)

-- A round makes the given attempt; what it stops with is a verdict.
abbrev IsSoundRound : Addr → ℕ → Round → Type 0
IsSoundRound host n (stop res fenced tr) = IsVerdict host res × (res.attempts ≡ n)
IsSoundRound host n (again res fenced tr) = IsOpen res × (res.attempts ≡ n)

abbrev IsSoundProbe : Addr → Probe → Type 0
IsSoundProbe host (clean seen) = is_leak seen host ≡ false
IsSoundProbe host _ = Unit {0}

probe_egress-IsSoundProbe :
    (host : Addr) (answer : Option Addr) → IsSoundProbe host (probe_egress host answer)
unfolding probe_egress
probe_egress-IsSoundProbe host none = tt
probe_egress-IsSoundProbe host (some seen) = elim (Bool-cases (is_leak seen host)) [
  | inl e ↦ rw e tt
  | inr e ↦ rw e e
]

verify-IsSoundRound :
    (host : Addr) (more : Bool) (res : RunResult) (fenced : Bool) (tr : Trace) (p : Probe)
    → IsSoundProbe host p
    → IsOpen res
    → IsSoundRound host res.attempts (verify more res fenced tr p)
unfolding verify
verify-IsSoundRound host more res fenced tr (leaked seen) s o = (inl (o.0, λ e. ground arith), refl)
verify-IsSoundRound host true res fenced tr broken s o = (o, refl)
verify-IsSoundRound host false res fenced tr broken s o = (inl (o.0, λ e. ground arith), refl)
verify-IsSoundRound host more res fenced tr (clean seen) s o =
    elim (Bool-cases (is_valid seen && is_valid res.old && not (addr_eq seen res.old))) [
      | inr same ↦ rw same (o, refl)
      | inl moved ↦ rw moved (
        inr (
          refl,
          record {
            reason_given = refl;
            no_error = o.1;
            old_valid = ground arith;
            new_valid = ground arith;
            differ = ground arith;
            no_leak = s;
          },
        ),
        refl,
      )
    ]

after_cycle-IsSoundRound :
    (env : Env) (host : Addr) (more : Bool) (res : RunResult) (fenced : Bool) (tr : Trace)
    (error : Option RunError)
    → IsOpen res
    → IsSoundRound host res.attempts (after_cycle env host more res fenced tr error)
unfolding after_cycle
after_cycle-IsSoundRound env host more res fenced tr none o =
    let checking = progressed RotateStep.verify ∷ tr in
    verify-IsSoundRound host more res fenced (probed ∷ checking)
      (probe_egress host (env.probe_source checking))
      (probe_egress-IsSoundProbe host (env.probe_source checking)) o
after_cycle-IsSoundRound env host true res fenced tr (some poll_timeout) o = (o, refl)
after_cycle-IsSoundRound env host false res fenced tr (some poll_timeout) o =
    (inl (o.0, λ e. ground arith), refl)
after_cycle-IsSoundRound env host more res fenced tr (some fence_failed) o =
    (inl (o.0, λ e. ground arith), refl)
after_cycle-IsSoundRound env host more res fenced tr (some _) o =
    (inl (o.0, λ e. ground arith), refl)

try_once-IsSoundRound :
    (env : Env) (pol : Policy) (host : Addr) (attempt : ℕ) (res : RunResult) (fenced : Bool)
    (tr : Trace)
    → IsOpen res
    → IsSoundRound host attempt (try_once env pol host attempt res fenced tr)
unfolding try_once
try_once-IsSoundRound env pol host attempt res fenced tr o =
    let hold = hold_for pol attempt in
    let c = cycle env pol hold fenced tr in
    after_cycle-IsSoundRound env host (ltb attempt (pos_part pol.max_attempts))
      (record res { attempts = attempt; hold = hold; conns_killed = res.conns_killed + c.killed })
      c.fenced c.trace c.error o

-- The result of a run of at most `n` attempts.
abbrev pub IsSound : Addr → ℕ → RunResult → Type 0
IsSound host n res = IsVerdict host res × (res.attempts ≤ n)

go_on-IsSound :
    (host : Addr) (attempt n : ℕ) (next : RunResult → Bool → Trace → RunResult × Bool × Trace)
    (r : Round)
    → attempt ≤ n
    → ((res : RunResult) (fenced : Bool) (tr : Trace)
        → IsOpen res
        → res.attempts ≡ attempt
        → IsSound host n (next res fenced tr).0)
    → IsSoundRound host attempt r
    → IsSound host n (go_on next r).0
go_on-IsSound host attempt n next (stop res fenced tr) le k (v, e) = (v, rw e le)
go_on-IsSound host attempt n next (again res fenced tr) le k (o, e) = k res fenced tr o e

attempts_from-IsSound :
    (env : Env) (pol : Policy) (host : Addr) (due : ℤ) (n attempt : ℕ) (res : RunResult)
    (fenced : Bool) (tr : Trace)
    → IsOpen res
    → suc res.attempts ≡ attempt
    → IsSound host (res.attempts + n) (attempts_from env pol host due n attempt res fenced tr).0
unfolding attempts_from
attempts_from-IsSound env pol host due zero attempt res fenced tr o e =
    (inl (o.0, λ h. ground arith), omega arith)
attempts_from-IsSound env pol host due (suc n) attempt res fenced tr o e =
    let next = attempts_from env pol host due n (suc attempt) in
    elim (Bool-cases (attempt_fits pol (due -ℤ pos (env.now tr)) attempt)) [
      | inr late ↦ elim (Bool-cases (attempt == 1)) [
        | inl first ↦ rw (late, first) (inl (o.0, λ h. ground arith), omega arith)
        | inr later ↦ rw (late, later) (inl (o.0, λ h. ground arith), omega arith)
      ]
      | inl fits ↦ rw fits (
          go_on-IsSound host attempt (res.attempts + suc n) next
            (try_once env pol host attempt res fenced tr) (omega arith)
            (λ res' fenced' tr' o' e'.
              let (v, le) =
                attempts_from-IsSound env pol host due n (suc attempt) res' fenced' tr' o'
                  (omega arith) in
              (v, omega arith))
            (try_once-IsSoundRound env pol host attempt res fenced tr o))
    ]

first_attempt-IsSound :
    (env : Env) (pol : Policy) (host : Addr) (due : ℤ) (res : RunResult) (tr : Trace)
    → IsOpen res
    → res.attempts ≡ 0
    → let done = attempts_from env pol host due (pos_part pol.max_attempts) 1 res false tr in
      IsSound host (pos_part pol.max_attempts) done.0
first_attempt-IsSound env pol host due res tr o e =
    let (v, le) =
      attempts_from-IsSound env pol host due (pos_part pol.max_attempts) 1 res false tr o
        (ap suc e) in
    (v, omega (arith, le, e))

from_probe-IsSound :
    (env : Env) (pol : Policy) (host : Addr) (due : ℤ) (tr : Trace) (p : Probe)
    → IsSound host (pos_part pol.max_attempts) (from_probe env pol host due tr p).0
unfolding from_probe release
from_probe-IsSound env pol host due tr (leaked seen) = (inl (refl, λ e. ground arith), omega arith)
from_probe-IsSound env pol host due tr (clean seen) =
    first_attempt-IsSound env pol host due (record empty_result { old = seen }) tr
      (refl, refl, refl) refl
from_probe-IsSound env pol host due tr broken =
    first_attempt-IsSound env pol host due
      (record empty_result {
        old = elim (env.status tr) [ none ↦ Addr.invalid | some st ↦ st.wan_ip ];
      })
      (status_asked ∷ tr) (refl, refl, refl) refl

from_sim-IsSound :
    (env : Env) (pol : Policy) (host : Addr) (due : ℤ) (tr : Trace) (sim : Option ℕ)
    → IsSound host (pos_part pol.max_attempts) (from_sim env pol host due tr sim).0
unfolding from_sim
from_sim-IsSound env pol host due tr none = (inl (refl, λ e. ground arith), omega arith)
from_sim-IsSound env pol host due tr (some sim) = elim (Bool-cases (sim_locked sim)) [
  | inl locked ↦ rw locked (inl (refl, λ e. ground arith), omega arith)
  | inr free ↦
      rw free (
        from_probe-IsSound env pol host due (probed ∷ tr) (probe_egress host (env.probe_source tr)))
]

-- A run makes MaxAttempts attempts at most. It reports a changed address with the reason `changed`,
-- in which case there is no error, both addresses are valid, they differ, and the new one is not
-- found to be the node's own; or it reports neither the change nor that reason.
pub execute-IsSound :
    (env : Env) (pol : Policy) (occupied : Bool) (host : Addr) (tr : Trace)
    → IsSound host (pos_part pol.max_attempts) (execute env pol occupied host tr).0
unfolding execute
execute-IsSound env pol false host tr = (inl (refl, λ e. ground arith), omega arith)
execute-IsSound env pol true host tr =
    let ready = progressed RotateStep.precheck ∷ tr in
    elim (Bool-cases (env.for_slot ready)) [
      | inr gone ↦ rw gone (inl (refl, λ e. ground arith), omega arith)
      | inl found ↦ rw found (
          from_sim-IsSound env pol host (pos (env.now tr) +ℤ pol.hard_deadline) (sim_asked ∷ ready)
            (env.pin_status ready))
    ]
