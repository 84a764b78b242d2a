-- ===== src/Base/Text/Decimal.antt =====
-- Numbers that are printed and read back.
use huawei_api.Base.{
  ℕ, zero, suc, ◌+◌, ◌-◌, ◌*◌, ◌/◌, ◌%◌, ◌≤◌, ◌<◌, ◌≡◌, refl, ap, ◌∙◌, inl, inr, true, false, ltb,
  ◌==◌, Bool-cases, some, [], ◌∷◌, ◌++◌, All, All-append, arith,
}
use huawei_api.Base.Int.{pos}
use huawei_api.Base.Text.{Text, is_empty, digits, itoa, is_digit, digits_value, atoi}

abbrev pub AreDigits : Text → Type 0
AreDigits s = All (λ c. is_digit c ≡ true) s

digits-AreDigits : (fuel n : ℕ) → AreDigits (digits fuel n)
unfolding digits
digits-AreDigits zero n = (ground arith, tt)
digits-AreDigits (suc fuel) n = elim (Bool-cases (ltb n 10)) [
  | inl small ↦ rw small (ground arith, tt)
  | inr large ↦ rw large (
      All-append (λ c. is_digit c ≡ true) (digits fuel (n / 10)) ((48 + n % 10) ∷ [])
        (digits-AreDigits fuel (n / 10)) (ground arith, tt))
]

digits_value-concat :
    (acc c : ℕ) (s : Text) (n : ℕ)
    → is_digit c ≡ true
    → digits_value acc s ≡ some n
    → digits_value acc (s ++ (c ∷ [])) ≡ some (n * 10 + (c - 48))
unfolding digits_value
digits_value-concat acc c [] n d h = ground arith
digits_value-concat acc c (x ∷ s) n d h = elim (Bool-cases (is_digit x)) [
  | inl e ↦ rw e (digits_value-concat (acc * 10 + (x - 48)) c s n d (ground (arith, h, e)))
  | inr e ↦ absurd (ground (arith, h, e))
]

digits_value-digits : (fuel n : ℕ) → n ≤ fuel → digits_value 0 (digits fuel n) ≡ some n
unfolding digits
digits_value-digits zero n h = unfold digits_value in ground arith
digits_value-digits (suc fuel) n h = elim (Bool-cases (ltb n 10)) [
  | inl small ↦ rw small (unfold digits_value in ground arith)
  | inr large ↦ rw large (
      digits_value-concat 0 (48 + n % 10) (digits fuel (n / 10)) (n / 10) (ground arith)
        (digits_value-digits fuel (n / 10) (ground arith))
      ∙ ap some (ground arith))
]

concat_not_empty : (s : Text) (c : ℕ) → is_empty (s ++ (c ∷ [])) ≡ false
concat_not_empty [] c = refl
concat_not_empty (x ∷ s) c = refl

digits_not_empty : (fuel n : ℕ) → is_empty (digits fuel n) ≡ false
unfolding digits
digits_not_empty zero n = refl
digits_not_empty (suc fuel) n = elim (Bool-cases (ltb n 10)) [
  | inl small ↦ rw small refl
  | inr large ↦ rw large (concat_not_empty (digits fuel (n / 10)) (48 + n % 10))
]

pub itoa-AreDigits : (n : ℕ) → AreDigits (itoa n)
unfolding itoa
itoa-AreDigits n = digits-AreDigits n n

pub itoa_not_empty : (n : ℕ) → is_empty (itoa n) ≡ false
unfolding itoa
itoa_not_empty n = digits_not_empty n n

atoi-digits :
    (s : Text) (n : ℕ)
    → is_empty s ≡ false
    → AreDigits s
    → digits_value 0 s ≡ some n
    → n < 9223372036854775808
    → atoi s ≡ some (pos n)
unfolding atoi
atoi-digits [] n e d v h = absurd (cc)
atoi-digits (c ∷ s) n e d v h =
    let minus : (c == b'-') ≡ false = ground (arith, d.0) in
    let plus : (c == b'+') ≡ false = ground (arith, d.0) in rw (minus, plus, v) (ground arith)

-- A number in the range of int64 is read back as it was printed.
pub atoi-itoa : (n : ℕ) → n < 9223372036854775808 → atoi (itoa n) ≡ some (pos n)
unfolding itoa
atoi-itoa n h =
    atoi-digits (digits n n) n (digits_not_empty n n) (digits-AreDigits n n)
      (digits_value-digits n n (omega arith)) h
