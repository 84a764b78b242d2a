-- ===== src/Rotate/Carrier/Valid.antt =====
-- The policies of rotate/carrier.go are valid.
use huawei_api.Base.{
  ◌≡◌, refl, inl, inr, false, not, ◌&&◌, Bool-cases, any, All, List, [], ◌∷◌, arith,
}
use huawei_api.Base.Int.{ℤ, pos, ltb_ℤ}
use huawei_api.Base.Text.{Text, text_eq, trim_space, is_empty, lower}
use huawei_api.Domain.Errors.{ok}
use huawei_api.Rotate.Policy.{not_positive, negative, is_nil, validate}
use huawei_api.Rotate.Carrier.{
  CarrierProfile, default_policy, over, over_ladder, policy_for_carrier, policy_for_name,
}

over_positive : (p c : ℤ) → not_positive p ≡ false → not_positive (over p c) ≡ false
over_positive p c h = elim (Bool-cases (ltb_ℤ (pos 0) c)) [
  | inl e ↦ rw e (ground (arith, e))
  | inr e ↦ rw e h
]

positive_not_negative : (p : ℤ) → not_positive p ≡ false → negative p ≡ false
positive_not_negative p h = ground (arith, h)

positive_at_least_one : (p : ℤ) → not_positive p ≡ false → ltb_ℤ p (pos 1) ≡ false
positive_at_least_one p h = ground (arith, h)

ladder_not_nil : (p c : List ℤ) → is_nil p ≡ false → is_nil (over_ladder p c) ≡ false
ladder_not_nil p [] h = h
ladder_not_nil p (x ∷ xs) h = refl

ladder_positive :
    (p c : List ℤ)
    → any not_positive p ≡ false
    → any not_positive c ≡ false
    → any not_positive (over_ladder p c) ≡ false
ladder_positive p [] h k = h
ladder_positive p (x ∷ xs) h k = k

policy_for_carrier_valid :
    (c : CarrierProfile)
    → any not_positive c.hold_escalate ≡ false
    → validate (policy_for_carrier c) ≡ ok tt
unfolding validate policy_for_carrier
policy_for_carrier_valid c h =
    let interval = over_positive default_policy.min_interval c.min_rotate_interval refl in
    let attempts = over_positive default_policy.max_attempts c.max_attempts refl in
    rw
      (
        ladder_not_nil default_policy.hold_escalate c.hold_escalate refl,
        ladder_positive default_policy.hold_escalate c.hold_escalate refl h,
        over_positive default_policy.hard_deadline c.hard_deadline refl,
        over_positive default_policy.wait_connect c.wait_connect refl,
        over_positive default_policy.verify_timeout c.verify_timeout refl,
        over_positive default_policy.poll_interval c.poll_interval refl,
        positive_at_least_one (over default_policy.max_attempts c.max_attempts) attempts,
        positive_not_negative (over default_policy.min_interval c.min_rotate_interval) interval,
      )
      refl

-- Whatever the name, the policy that is chosen for it is valid, if no profile has a hold that is not
-- positive; the other values of the profiles may be anything.
pub policy_for_name_valid :
    (name : Text) (cs : List CarrierProfile)
    → All (λ c. any not_positive c.hold_escalate ≡ false) cs
    → validate (policy_for_name name cs) ≡ ok tt
unfolding policy_for_name validate
policy_for_name_valid name [] h = refl
policy_for_name_valid name (c ∷ cs) h =
    elim (Bool-cases (
      text_eq (lower (trim_space c.name)) (lower (trim_space name))
      && not (is_empty (lower (trim_space name))))) [
        | inl e ↦ rw e (policy_for_carrier_valid c h.0)
        | inr e ↦ rw e (policy_for_name_valid name cs h.1)
      ]
