-- ===== src/Reconcile/Generations.antt =====
-- reconcile/generation.go: a counter for each target, which fences off an action whose target changed
-- after the plan was made. A counter is a uint64 and wraps.
use huawei_api.Base.{
  ℕ, ◌+◌, ◌%◌, ◌<◌, ◌≡◌, refl, inl, inr, String, Bool, true, not, ◌==◌, str_eq, str_eq→≡,
  if◌then◌else◌, any, Bool-cases, lookup, lookup-insert, insert, delete, Option, some, none, List,
  [], ◌∷◌, arith,
}
use huawei_api.Domain.Model.{Operation}
use huawei_api.Reconcile.Action.{Action, target}

pub record Generations : Type 0 where
  pub gen : List (String × ℕ)
  pub live : List (String × String)

abbrev pub u64 : ℕ → ℕ
u64 n = n % 18446744073709551616

-- Get: a missing key reads as 0.
unfoldable pub get : Generations → String → ℕ
get g t = elim (lookup g.gen t) [ none ↦ 0 | some n ↦ n ]

-- Bump
unfoldable pub bump : Generations → String → Generations
unfolding get
bump g t = record g { gen = insert t (u64 (get g t + 1)) g.gen }

-- A missing entry of `live` reads as the empty text.
abbrev live_id : Generations → String → String
live_id g t = elim (lookup g.live t) [ none ↦ "" | some id ↦ id ]

-- The first loop of Sync: new operations.
unfoldable pub sync_new : Generations → ℕ → List (String × Operation) → Generations × ℕ
unfolding bump
sync_new g changed [] = (g, changed)
sync_new g changed ((t, op) ∷ rest) =
    let (g', changed') =
      if str_eq (live_id g t) op.id
      then (g, changed)
      else (bump (record g { live = insert t op.id g.live }) t, changed + 1) in
    sync_new g' changed' rest

-- The second loop of Sync: targets whose operation is gone, over the entries before the loop.
gone_round : Generations → ℕ → Option Operation → String → Generations × ℕ
unfolding bump
gone_round g changed (some op) t = (g, changed)
gone_round g changed none t = (bump (record g { live = delete t g.live }) t, changed + 1)

unfoldable pub sync_gone :
    Generations → ℕ → List (String × Operation) → List (String × String) → Generations × ℕ
unfolding gone_round
sync_gone g changed active [] = (g, changed)
sync_gone g changed active ((t, id) ∷ rest) =
    let (g', changed') = gone_round g changed (lookup active t) t in
    sync_gone g' changed' active rest

-- Sync
unfoldable pub sync : Generations → List (String × Operation) → Generations × ℕ
unfolding sync_new sync_gone
sync g active = let (g', changed) = sync_new g 0 active in sync_gone g' changed active g'.live

-- Snapshot
unfoldable pub snapshot : Generations → List Action → List (String × ℕ)
unfolding get
snapshot g [] = []
snapshot g (a ∷ rest) = insert (target a) (get g (target a)) (snapshot g rest)

-- Fenced
unfoldable pub is_fenced : Generations → Action → List (String × ℕ) → Bool
unfolding get
is_fenced g a snap = elim (lookup snap (target a)) [
  | none ↦ true
  | some want ↦ not (get g (target a) == want)
]

pub get-bump :
    (g : Generations) (t u : String)
    → get (bump g t) u ≡ (if str_eq t u then u64 (get g t + 1) else get g u)
unfolding get bump
get-bump g t u = ground (arith, lookup-insert t u (u64 (get g t + 1)) g.gen)

-- A snapshot has an entry for the target of each action, and for nothing else.
lookup-snapshot :
    (g : Generations) (actions : List Action) (t : String)
    → lookup (snapshot g actions) t
      ≡ (if any (λ a. str_eq (target a) t) actions then some (get g t) else none)
unfolding snapshot lookup
lookup-snapshot g [] t = refl
lookup-snapshot g (a ∷ rest) t =
    rw (lookup-insert (target a) t (get g (target a)) (snapshot g rest))
      (elim (Bool-cases (str_eq (target a) t)) [
        | inl e ↦ rw (e, str_eq→≡ (target a) t e) refl
        | inr e ↦ rw e (lookup-snapshot g rest t)
      ])

-- An action of the plan is fenced exactly when the generation of its target differs from what it was
-- at the snapshot; an action on a target outside the plan is always fenced.
pub is_fenced-snapshot :
    (g later : Generations) (actions : List Action) (a : Action)
    → is_fenced later a (snapshot g actions) ≡ (
        if any (λ b. str_eq (target b) (target a)) actions
        then not (get later (target a) == get g (target a))
        else true)
unfolding is_fenced
is_fenced-snapshot g later actions a = ground (arith, lookup-snapshot g actions (target a))

-- A bump of a target fences the planned actions on that target, even where the counter wraps, and no
-- planned action on another one.
pub is_fenced-bump :
    (g : Generations) (actions : List Action) (a : Action) (t : String)
    → get g t < 18446744073709551616
    → any (λ b. str_eq (target b) (target a)) actions ≡ true
    → is_fenced (bump g t) a (snapshot g actions) ≡ str_eq t (target a)
is_fenced-bump g actions a t small planned =
    rw (is_fenced-snapshot g (bump g t) actions a, planned, get-bump g t (target a))
      (elim (Bool-cases (str_eq t (target a))) [
        | inl e ↦ rw (e, ← str_eq→≡ t (target a) e) (ground arith)
        | inr e ↦ rw e (ground arith)
      ])
