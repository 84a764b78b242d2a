-- ===== src/Base/Lists.antt =====
-- Lists measured by native numbers, tests and predicates on all or some of their items, and maps
-- with text keys as association lists.
use Prim.Native.Nat.{ℕ, suc, ◌+◌, ◌≤◌}
use Prim.Native.String.{String}
use mathlib.Core.Path.{◌≡◌, refl}
use mathlib.Core.Logic.{inl, inr}
use mathlib.Core.Bool.{Bool, true, false, ◌||◌}
use mathlib.Core.Option.{Option, none, some}
use mathlib.Core.List.{List, [], ◌∷◌, ◌++◌}
use native.Mathlib.Omega.{arith}
use huawei_api.Base.Tests.{if◌then◌else◌, str_eq, str_eq→≡, str_eq_self, Bool-cases}

-- The item stands in the list.
pub data IsIn {ℓ} {A : Type ℓ} (a : A) : List A → Type ℓ where
  in_front : {xs : List A} → IsIn a (a ∷ xs)
  further : {x : A} {xs : List A} → IsIn a xs → IsIn a (x ∷ xs)

module _ {ℓ} {A : Type ℓ} where
  abbrev pub length : List A → ℕ
  length [] = 0
  length (x ∷ xs) = suc (length xs)

  pub length-append : (xs ys : List A) → length (xs ++ ys) ≡ length xs + length ys
  length-append [] ys = omega arith
  length-append (x ∷ xs) ys = omega (arith, length-append xs ys)

  -- Keep the items that pass the test.
  abbrev pub keep : (A → Bool) → List A → List A
  keep p [] = []
  keep p (x ∷ xs) = let rest = keep p xs in if p x then x ∷ rest else rest

  abbrev pub any : (A → Bool) → List A → Bool
  any p [] = false
  any p (x ∷ xs) = p x || any p xs

  abbrev pub All {κ} : (A → Type κ) → List A → Type κ
  All P [] = Unit
  All P (x ∷ xs) = P x × All P xs

  pub All-append {κ} : (P : A → Type κ) (xs ys : List A) → All P xs → All P ys → All P (xs ++ ys)
  All-append P [] ys hx hy = hy
  All-append P (x ∷ xs) ys hx hy = (hx.0, All-append P xs ys hx.1 hy)

  pub All-map {κ μ} :
      (P : A → Type κ) (Q : A → Type μ) (xs : List A) → ((x : A) → P x → Q x) → All P xs → All Q xs
  All-map P Q [] f h = tt
  All-map P Q (x ∷ xs) f h = (f x h.0, All-map P Q xs f h.1)

  pub All-keep {κ} : (P : A → Type κ) (p : A → Bool) (xs : List A) → All P xs → All P (keep p xs)
  All-keep P p [] h = tt
  All-keep P p (x ∷ xs) h = elim (Bool-cases (p x)) [
    | inl e ↦ rw e (h.0, All-keep P p xs h.1)
    | inr e ↦ rw e (All-keep P p xs h.1)
  ]

  -- What is kept passes the test.
  pub All-keep_passed : (p : A → Bool) (xs : List A) → All (λ x. p x ≡ true) (keep p xs)
  All-keep_passed p [] = tt
  All-keep_passed p (x ∷ xs) = ground (arith, All-keep_passed p xs)

  pub any-keep : (p q : A → Bool) (xs : List A) → any p xs ≡ false → any p (keep q xs) ≡ false
  any-keep p q [] h = refl
  any-keep p q (x ∷ xs) h = ground (arith, any-keep p q xs)

  IsIn-if :
      (b : Bool) (a x : A) (rest xs : List A)
      → (IsIn a rest → IsIn a xs)
      → IsIn a (if b then x ∷ rest else rest)
      → IsIn a (x ∷ xs)
  IsIn-if true a _ rest xs f in_front = in_front
  IsIn-if true a x rest xs f (further m) = further (f m)
  IsIn-if false a x rest xs f m = further (f m)

  -- What is kept was there before.
  pub IsIn-keep : (p : A → Bool) (a : A) (xs : List A) → IsIn a (keep p xs) → IsIn a xs
  IsIn-keep p a [] m = m
  IsIn-keep p a (x ∷ xs) m = IsIn-if (p x) a x (keep p xs) xs (IsIn-keep p a xs) m

  pub length-keep-le : (p : A → Bool) (xs : List A) → length (keep p xs) ≤ length xs
  length-keep-le p [] = omega arith
  length-keep-le p (x ∷ xs) = ground (arith, length-keep-le p xs)

-- A Go map with text keys. Where two entries have one key the first is in force.
module _ {ℓ} {V : Type ℓ} where
  unfoldable pub lookup : List (String × V) → String → Option V
  lookup [] k = none
  lookup ((j, v) ∷ m) k = if str_eq j k then some v else lookup m k

  unfoldable pub insert : String → V → List (String × V) → List (String × V)
  insert k v [] = (k, v) ∷ []
  insert k v ((j, w) ∷ m) = if str_eq j k then (k, v) ∷ m else (j, w) ∷ insert k v m

  unfoldable pub delete : String → List (String × V) → List (String × V)
  delete k [] = []
  delete k ((j, w) ∷ m) = let rest = delete k m in if str_eq j k then rest else (j, w) ∷ rest

  pub lookup-insert :
      (k j : String) (v : V) (m : List (String × V))
      → lookup (insert k v m) j ≡ (if str_eq k j then some v else lookup m j)
  unfolding lookup insert
  lookup-insert k j v [] = refl
  lookup-insert k j v ((i, w) ∷ m) = elim (Bool-cases (str_eq i k)) [
    | inl e ↦ rw (str_eq→≡ i k e, str_eq_self k) (ground arith)
    | inr e ↦ ground (arith, lookup-insert k j v m, str_eq→≡ k j, str_eq→≡ i j, str_eq_self j)
  ]

  pub lookup-delete :
      (k j : String) (m : List (String × V))
      → lookup (delete k m) j ≡ (if str_eq k j then none else lookup m j)
  unfolding lookup delete
  lookup-delete k j [] = ground arith
  lookup-delete k j ((i, w) ∷ m) =
      ground (arith, lookup-delete k j m, str_eq→≡ i k, str_eq→≡ k j, str_eq→≡ i j, str_eq_self j)
