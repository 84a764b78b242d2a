-- ===== src/Base/Text.antt =====
-- Texts as the lists of their bytes, ASCII only, with what the program uses of Go's strings and strconv.
pub mod Decimal
pub mod Equality
pub mod Split
use huawei_api.Base.{
  ℕ, zero, suc, ◌+◌, ◌-◌, ◌*◌, ◌/◌, ◌%◌, Bool, true, false, not, ◌&&◌, ◌||◌, ltb, leb, ◌==◌,
  if◌then◌else◌, Option, none, some, List, [], ◌∷◌, ◌++◌,
}
use huawei_api.Base.Int.{ℤ, pos, negsuc}

abbrev pub Text : Type 0
Text = List ℕ

-- `==`
abbrev pub text_eq : Text → Text → Bool
text_eq [] [] = true
text_eq [] (d ∷ t) = false
text_eq (c ∷ s) [] = false
text_eq (c ∷ s) (d ∷ t) = c == d && text_eq s t

-- Tab, line feed, vertical tab, form feed, carriage return and space.
abbrev pub is_space : ℕ → Bool
is_space c = leb 9 c && leb c 13 || c == 32

abbrev pub trim_left : Text → Text
trim_left [] = []
trim_left (c ∷ s) = let rest = trim_left s in if is_space c then rest else c ∷ s

-- One byte in front of a text whose end is trimmed.
abbrev pub keep_front : ℕ → Text → Text
keep_front c [] = if is_space c then [] else c ∷ []
keep_front c (d ∷ s) = c ∷ d ∷ s

abbrev pub trim_right : Text → Text
trim_right [] = []
trim_right (c ∷ s) = keep_front c (trim_right s)

-- strings.TrimSpace
abbrev pub trim_space : Text → Text
trim_space s = trim_right (trim_left s)

-- strings.ToLower
abbrev pub lower : Text → Text
lower [] = []
lower (c ∷ s) = let rest = lower s in (if leb 65 c && leb c 90 then c + 32 else c) ∷ rest

-- strings.ToUpper
abbrev pub upper : Text → Text
upper [] = []
upper (c ∷ s) = let rest = upper s in (if leb 97 c && leb c 122 then c - 32 else c) ∷ rest

abbrev pub is_empty {ℓ} : {A : Type ℓ} → List A → Bool
is_empty [] = true
is_empty (a ∷ as_) = false

-- strings.Cut at one byte: what stands before it, and what stands after it, if it is found.
abbrev pub cut : ℕ → Text → Text × Option Text
cut sep [] = ([], none)
cut sep (c ∷ s) =
    let (before, rest) = cut sep s in if c == sep then ([], some s) else (c ∷ before, rest)

abbrev pub onto_first : ℕ → List Text → List Text
onto_first c [] = (c ∷ []) ∷ []
onto_first c (s ∷ ss) = (c ∷ s) ∷ ss

-- strings.Split at one byte
abbrev pub split : ℕ → Text → List Text
split sep [] = [] ∷ []
split sep (c ∷ s) = let rest = split sep s in if c == sep then [] ∷ rest else onto_first c rest

-- strings.Join with one byte
abbrev pub join : ℕ → List Text → Text
join sep [] = []
join sep (s ∷ []) = s
join sep (s ∷ t ∷ ss) = s ++ (sep ∷ join sep (t ∷ ss))

-- strings.HasPrefix
abbrev pub has_prefix : Text → Text → Bool
has_prefix s [] = true
has_prefix [] (c ∷ p) = false
has_prefix (d ∷ s) (c ∷ p) = d == c && has_prefix s p

abbrev pub take : ℕ → Text → Text
take zero s = []
take (suc n) [] = []
take (suc n) (c ∷ s) = c ∷ take n s

abbrev pub drop : ℕ → Text → Text
drop zero s = s
drop (suc n) [] = []
drop (suc n) (c ∷ s) = drop n s

-- The digits of a number; each step takes one off, so that the number itself is fuel enough.
pub digits : ℕ → ℕ → Text
digits zero n = (48 + n % 10) ∷ []
digits (suc fuel) n =
    let front = digits fuel (n / 10) in
    if ltb n 10 then (48 + n) ∷ [] else front ++ ((48 + n % 10) ∷ [])

-- strconv.Itoa of a number that is not negative
unfoldable pub itoa : ℕ → Text
unfolding digits
itoa n = digits n n

abbrev pub is_digit : ℕ → Bool
is_digit c = leb 48 c && leb c 57

-- The value of a text of digits, after the value of what stands before it.
pub digits_value : ℕ → Text → Option ℕ
digits_value acc [] = some acc
digits_value acc (c ∷ s) =
    let rest = digits_value (acc * 10 + (c - 48)) s in if is_digit c then rest else none

abbrev pub at_least_one : Text → Option ℕ
at_least_one [] = none
at_least_one (c ∷ s) = digits_value 0 (c ∷ s)

-- The bounds of int64.
abbrev pub as_int64 : Bool → Option ℕ → Option ℤ
as_int64 negative none = none
as_int64 false (some n) = if ltb n 9223372036854775808 then some (pos n) else none
as_int64 true (some zero) = some (pos 0)
as_int64 true (some (suc n)) = if ltb n 9223372036854775808 then some (negsuc n) else none

-- strconv.Atoi
pub atoi : Text → Option ℤ
unfolding digits_value
atoi [] = none
atoi (c ∷ s) =
    if c == b'-'
    then as_int64 true (at_least_one s)
    else if c == b'+'
    then as_int64 false (at_least_one s)
    else as_int64 false (digits_value 0 (c ∷ s))
