-- ===== src/Base/Text/Split.antt =====
-- Texts that are joined and split again, and texts with nothing to trim.
use huawei_api.Base.{
  ℕ, ◌≡◌, refl, ap, ◌∙◌, true, false, ◌==◌, none, some, List, [], ◌∷◌, ◌++◌, All, All-append, arith,
}
use huawei_api.Base.Text.{
  Text, is_space, trim_left, trim_right, trim_space, is_empty, cut, split, join,
}

-- The byte does not stand in the text.
abbrev pub IsWithout : ℕ → Text → Type 0
IsWithout sep s = All (λ c. (c == sep) ≡ false) s

pub IsWithout-append :
    (sep : ℕ) (s t : Text) → IsWithout sep s → IsWithout sep t → IsWithout sep (s ++ t)
IsWithout-append sep s t hs ht = All-append (λ c. (c == sep) ≡ false) s t hs ht

pub cut_whole : (sep : ℕ) (s : Text) → IsWithout sep s → cut sep s ≡ (s, none)
cut_whole sep [] h = refl
cut_whole sep (c ∷ s) h = rw (h.0, cut_whole sep s h.1) refl

pub cut_at : (sep : ℕ) (s t : Text) → IsWithout sep s → cut sep (s ++ (sep ∷ t)) ≡ (s, some t)
cut_at sep [] t h = let same : (sep == sep) ≡ true = ground arith in rw same refl
cut_at sep (c ∷ s) t h = rw (h.0, cut_at sep s t h.1) refl

split_whole : (sep : ℕ) (s : Text) → IsWithout sep s → split sep s ≡ s ∷ []
split_whole sep [] h = refl
split_whole sep (c ∷ s) h = rw (h.0, split_whole sep s h.1) refl

split_at : (sep : ℕ) (s t : Text) → IsWithout sep s → split sep (s ++ (sep ∷ t)) ≡ s ∷ split sep t
split_at sep [] t h = let same : (sep == sep) ≡ true = ground arith in rw same refl
split_at sep (c ∷ s) t h = rw (h.0, split_at sep s t h.1) refl

-- Parts without the separator are found again.
pub split-join :
    (sep : ℕ) (s : Text) (ss : List Text)
    → All (IsWithout sep) (s ∷ ss)
    → split sep (join sep (s ∷ ss)) ≡ s ∷ ss
split-join sep s [] h = split_whole sep s h.0
split-join sep s (t ∷ ss) h =
    split_at sep s (join sep (t ∷ ss)) h.0 ∙ ap (λ l. s ∷ l) (split-join sep t ss h.1)

abbrev pub IsSolid : Text → Type 0
IsSolid s = All (λ c. is_space c ≡ false) s

trim_left_solid : (s : Text) → IsSolid s → trim_left s ≡ s
trim_left_solid [] h = refl
trim_left_solid (c ∷ s) h = rw h.0 refl

trim_right_solid : (s : Text) → IsSolid s → trim_right s ≡ s
trim_right_solid [] h = refl
trim_right_solid (c ∷ []) h = rw h.0 refl
trim_right_solid (c ∷ d ∷ s) h = rw (trim_right_solid (d ∷ s) h.1) refl

pub trim_space_solid : (s : Text) → IsSolid s → trim_space s ≡ s
trim_space_solid s h = ap trim_right (trim_left_solid s h) ∙ trim_right_solid s h

pub join_not_empty :
    (sep : ℕ) (s : Text) (ss : List Text)
    → is_empty s ≡ false
    → is_empty (join sep (s ∷ ss)) ≡ false
join_not_empty sep s [] h = h
join_not_empty sep [] (t ∷ ss) h = absurd (cc)
join_not_empty sep (c ∷ s) (t ∷ ss) h = refl

pub join-All {ℓ} :
    (P : ℕ → Type ℓ) (sep : ℕ) (ss : List Text)
    → P sep
    → All (λ s. All P s) ss
    → All P (join sep ss)
join-All P sep [] p h = tt
join-All P sep (s ∷ []) p h = h.0
join-All P sep (s ∷ t ∷ ss) p h =
    All-append P s (sep ∷ join sep (t ∷ ss)) h.0 (p, join-All P sep (t ∷ ss) p h.1)
