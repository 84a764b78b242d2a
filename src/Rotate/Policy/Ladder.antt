-- ===== src/Rotate/Policy/Ladder.antt =====
-- The rungs of rotate/policy.go.
use huawei_api.Base.{
  ℕ, zero, suc, ◌-◌, ◌≤◌, ◌≡◌, refl, true, false, any, length, List, [], ◌∷◌, arith,
}
use huawei_api.Base.Int.{ℤ, pos, ◌<ℤ◌, pos_part}
use huawei_api.Domain.Errors.{ok}
use huawei_api.Rotate.Policy.{
  Policy, not_positive, is_nil, validate, rung_at, hold_for, Rung, ladder_from, ladder,
}

rung_at_pos :
    (hs : List ℤ) (i : ℕ) → is_nil hs ≡ false → any not_positive hs ≡ false → pos 0 <ℤ rung_at hs i
unfolding rung_at
rung_at_pos [] i n h = absurd cc
rung_at_pos (a ∷ []) i n h = ground arith
rung_at_pos (a ∷ b ∷ hs) zero n h = ground arith
rung_at_pos (a ∷ b ∷ hs) (suc i) n h = rung_at_pos (b ∷ hs) i refl (ground arith)

-- Under a validated policy every attempt, however late, holds for a positive time, and at least one
-- attempt is made.
pub validated_holds :
    (p : Policy) (attempt : ℕ)
    → validate p ≡ ok tt
    → (pos 0 <ℤ hold_for p attempt) × (1 ≤ pos_part p.max_attempts)
unfolding validate hold_for
validated_holds p attempt h =
    (rung_at_pos p.hold_escalate (attempt - 1) (ground arith) (ground arith), ground arith)

-- The rungs number the attempts one by one, hold by HoldFor and do not reboot; the last rung reboots
-- and does not hold.
abbrev pub IsLadder : Policy → ℕ → List Rung → Type 0
IsLadder p attempt [] = ⊥
IsLadder p attempt (r ∷ []) = (r.attempt ≡ attempt) × (r.reboot ≡ true) × (r.hold ≡ pos 0)
IsLadder p attempt (r ∷ s ∷ rs) =
    ((r.attempt ≡ attempt) × (r.reboot ≡ false) × (r.hold ≡ hold_for p attempt))
    × IsLadder p (suc attempt) (s ∷ rs)

ladder_from-IsLadder :
    (p : Policy) (attempt n : ℕ)
    → IsLadder p attempt (ladder_from p attempt n) × (length (ladder_from p attempt n) ≡ suc n)
unfolding ladder_from
ladder_from-IsLadder p attempt zero = ((refl, refl, refl), refl)
ladder_from-IsLadder p attempt (suc zero) = (((refl, refl, refl), (refl, refl, refl)), refl)
ladder_from-IsLadder p attempt (suc (suc n)) =
    let (rest, len) = ladder_from-IsLadder p (suc attempt) (suc n) in
    (((refl, refl, refl), rest), omega (arith, len))

-- Ladder has MaxAttempts rungs that hold, in order, and then the one that reboots.
pub ladder-IsLadder :
    (p : Policy) → IsLadder p 1 (ladder p) × (length (ladder p) ≡ suc (pos_part p.max_attempts))
unfolding ladder
ladder-IsLadder p = ladder_from-IsLadder p 1 (pos_part p.max_attempts)
