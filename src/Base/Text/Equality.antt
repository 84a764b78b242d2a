-- ===== src/Base/Text/Equality.antt =====
-- When the test for equal texts holds.
use huawei_api.Base.{◌≡◌, refl, true, [], ◌∷◌, arith}
use huawei_api.Base.Text.{Text, text_eq}

pub text_eq→≡ : (s t : Text) → text_eq s t ≡ true → s ≡ t
text_eq→≡ [] [] h = refl
text_eq→≡ [] (d ∷ t) h = absurd (cc)
text_eq→≡ (c ∷ s) [] h = absurd (cc)
text_eq→≡ (c ∷ s) (d ∷ t) h = ground (arith, text_eq→≡ s t)

pub text_eq_self : (s : Text) → text_eq s s ≡ true
text_eq_self [] = refl
text_eq_self (c ∷ s) = ground (arith, text_eq_self s)
