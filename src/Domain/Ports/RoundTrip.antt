-- ===== src/Domain/Ports/RoundTrip.antt =====
-- Port ranges that are printed and read back (domain/model.go).
use huawei_api.Base.{
  ℕ, ◌≤◌, ◌≡◌, refl, ap, ◌∙◌, inl, inr, true, false, ◌==◌, if◌then◌else◌, Bool-cases, List, [], ◌∷◌,
  ◌++◌, All, All-map, All-append, arith,
}
use huawei_api.Base.Int.{pos}
use huawei_api.Base.Text.{Text, is_space, is_digit, is_empty, cut, split, join, itoa, atoi}
use huawei_api.Base.Text.Decimal.{itoa-AreDigits, itoa_not_empty, atoi-itoa}
use huawei_api.Base.Text.Split.{
  IsWithout, cut_whole, cut_at, split-join, IsSolid, trim_space_solid, join_not_empty, join-All,
}
use huawei_api.Domain.Errors.{Result, ok, ◌>>=◌}
use huawei_api.Domain.Model.{PortRange, port_range_valid}
use huawei_api.Domain.Ports.{
  range_text, bound_texts, if_number, number, valid_range, parse_port_range, range_texts,
  format_port_ranges, parse_parts, parse_port_ranges,
}

itoa-IsSolid : (n : ℕ) → IsSolid (itoa n)
itoa-IsSolid n =
    All-map (λ c. is_digit c ≡ true) (λ c. is_space c ≡ false) (itoa n) (λ c d. ground arith)
      (itoa-AreDigits n)

itoa-IsWithout : (sep n : ℕ) → is_digit sep ≡ false → IsWithout sep (itoa n)
itoa-IsWithout sep n h =
    All-map (λ c. is_digit c ≡ true) (λ c. (c == sep) ≡ false) (itoa n) (λ c d. ground arith)
      (itoa-AreDigits n)

number-itoa : (n : ℕ) → n ≤ 65535 → number (itoa n) ≡ ok (pos n)
number-itoa n h =
    ap (λ t. if_number (atoi t)) (trim_space_solid (itoa n) (itoa-IsSolid n))
    ∙ ap if_number (atoi-itoa n (omega arith))

-- What a text of a range is made of: no space and no comma, and something.
range_text-All :
    (P : ℕ → Type 0) (r : PortRange) → ((n : ℕ) → All P (itoa n)) → P b'-' → All P (range_text r)
unfolding range_text
range_text-All P r h d = elim (Bool-cases (r.lo == r.hi)) [
  | inl e ↦ rw e (h r.lo)
  | inr e ↦ rw e (All-append P (itoa r.lo) (b'-' ∷ itoa r.hi) (h r.lo) (d, h r.hi))
]

append_not_empty {ℓ} : {A : Type ℓ} (s t : List A) → is_empty s ≡ false → is_empty (s ++ t) ≡ false
append_not_empty [] t h = absurd (cc)
append_not_empty (c ∷ s) t h = refl

range_text_not_empty : (r : PortRange) → is_empty (range_text r) ≡ false
unfolding range_text
range_text_not_empty r = elim (Bool-cases (r.lo == r.hi)) [
  | inl e ↦ rw e (itoa_not_empty r.lo)
  | inr e ↦ rw e (append_not_empty (itoa r.lo) (b'-' ∷ itoa r.hi) (itoa_not_empty r.lo))
]

range_text-IsSolid : (r : PortRange) → IsSolid (range_text r)
range_text-IsSolid r = range_text-All (λ c. is_space c ≡ false) r itoa-IsSolid (ground arith)

valid_bounds : (r : PortRange) → port_range_valid r ≡ true → (r.lo ≤ 65535) × (r.hi ≤ 65535)
unfolding port_range_valid
valid_bounds r h = (ground arith, ground arith)

valid_range_of_valid :
    (r : PortRange) → port_range_valid r ≡ true → valid_range (pos r.lo) (pos r.hi) ≡ ok r
unfolding port_range_valid
valid_range_of_valid r h = ground arith

bounds-range_text : (r : PortRange) → bound_texts (cut b'-' (range_text r)) ≡ (itoa r.lo, itoa r.hi)
unfolding range_text
bounds-range_text r = elim (Bool-cases (r.lo == r.hi)) [
  | inl e ↦
      let same : r.lo ≡ r.hi = ground arith in
      rw (e, cut_whole b'-' (itoa r.lo) (itoa-IsWithout b'-' r.lo refl))
        (ap (λ n. (itoa r.lo, itoa n)) same)
  | inr e ↦ rw (e, cut_at b'-' (itoa r.lo) (itoa r.hi) (itoa-IsWithout b'-' r.lo refl)) refl
]

-- ParsePortRange from its two texts on.
abbrev range_of : Text × Text → Result PortRange
range_of bounds = number bounds.0 >>= λ l. number bounds.1 >>= λ h. valid_range l h

range_of_bounds :
    (r : PortRange) → port_range_valid r ≡ true → range_of (itoa r.lo, itoa r.hi) ≡ ok r
range_of_bounds r h =
    let (low, high) = valid_bounds r h in
    ap (λ m. m >>= λ l. number (itoa r.hi) >>= λ u. valid_range l u) (number-itoa r.lo low)
    ∙ ap (λ m. m >>= λ u. valid_range (pos r.lo) u) (number-itoa r.hi high)
    ∙ valid_range_of_valid r h

parse_port_range-text :
    (r : PortRange) → port_range_valid r ≡ true → parse_port_range (range_text r) ≡ ok r
unfolding parse_port_range
parse_port_range-text r h =
    ap (λ t. range_of (bound_texts (cut b'-' t)))
      (trim_space_solid (range_text r) (range_text-IsSolid r))
    ∙ ap range_of (bounds-range_text r)
    ∙ range_of_bounds r h

parse_parts-texts :
    (rs : List PortRange)
    → All (λ r. port_range_valid r ≡ true) rs
    → parse_parts (range_texts rs) ≡ ok rs
unfolding parse_parts
parse_parts-texts [] h = refl
parse_parts-texts (r ∷ rs) h =
    rw
      (
        ap is_empty (trim_space_solid (range_text r) (range_text-IsSolid r))
            ∙ range_text_not_empty r,
        parse_port_range-text r h.0,
        parse_parts-texts rs h.1,
      )
      refl

texts-IsSolid : (rs : List PortRange) → All (λ s. IsSolid s) (range_texts rs)
texts-IsSolid [] = tt
texts-IsSolid (r ∷ rs) = (range_text-IsSolid r, texts-IsSolid rs)

texts-IsWithout : (rs : List PortRange) → All (λ s. IsWithout b',' s) (range_texts rs)
texts-IsWithout [] = tt
texts-IsWithout (r ∷ rs) = (
  range_text-All (λ c. (c == b',') ≡ false) r (λ n. itoa-IsWithout b',' n refl) refl,
  texts-IsWithout rs,
)

-- Valid port ranges, printed by FormatPortRanges, are read back by ParsePortRanges.
pub parse_port_ranges-format :
    (rs : List PortRange)
    → All (λ r. port_range_valid r ≡ true) rs
    → parse_port_ranges (format_port_ranges rs) ≡ ok rs
unfolding parse_port_ranges format_port_ranges
parse_port_ranges-format [] h = refl
parse_port_ranges-format (r ∷ rs) h =
    let printed = join b',' (range_texts (r ∷ rs)) in
    let solid = trim_space_solid printed (
      join-All (λ c. is_space c ≡ false) b',' (range_texts (r ∷ rs)) refl
        (texts-IsSolid (r ∷ rs))) in
    ap (λ t. if is_empty t then ok [] else parse_parts (split b',' t)) solid
    ∙ ap (λ b. if b then ok [] else parse_parts (split b',' printed))
        (join_not_empty b',' (range_text r) (range_texts rs) (range_text_not_empty r))
    ∙ ap parse_parts (split-join b',' (range_text r) (range_texts rs) (texts-IsWithout (r ∷ rs)))
    ∙ parse_parts-texts (r ∷ rs) h
