-- ===== src/Rotate/Carrier/Tests.antt =====
-- A carrier with a short ladder and broken times (rotate/carrier.go).
use huawei_api.Base.{◌≡◌, refl, List, [], ◌∷◌}
use huawei_api.Base.Int.{pos, negsuc}
use huawei_api.Domain.Errors.{ok}
use huawei_api.Rotate.Policy.{validate}
use huawei_api.Rotate.Carrier.{CarrierProfile, policy_for_name}
use huawei_api.Rotate.Carrier.Valid.{policy_for_name_valid}

abbrev carriers : List CarrierProfile
carriers =
    record {
      name = b'T' ∷ b'K' ∷ [];
      hold_escalate = pos 3000000000 ∷ [];
      wait_connect = negsuc 4;
      verify_timeout = pos 0;
      hard_deadline = pos 60000000000;
      poll_interval = pos 0;
      max_attempts = pos 5;
      min_rotate_interval = negsuc 0;
    }
    ∷ []

policy_for_name_valid_example :
    validate (policy_for_name (b' ' ∷ b't' ∷ b'k' ∷ []) carriers) ≡ ok tt
policy_for_name_valid_example = policy_for_name_valid (b' ' ∷ b't' ∷ b'k' ∷ []) carriers (refl, tt)
