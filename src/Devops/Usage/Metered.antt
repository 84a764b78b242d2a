-- ===== src/Devops/Usage/Metered.antt =====
-- What devops/usage.go has added up after a number of readings.
use huawei_api.Base.{
  ℕ, ◌+◌, ◌-◌, ◌==◌, ◌≡◌, refl, sym, ap, subst, ◌∙◌, inl, inr, String, Bool, true, false, not, ◌&&◌,
  ◌||◌, ltb, leb, str_eq, str_eq→≡, str_eq_self, str_le, if◌then◌else◌, Bool-cases, Option, none,
  some, List, [], ◌∷◌, lookup, insert, lookup-insert, lookup-delete, arith,
}
use huawei_api.Domain.Errors.{Err, Result, ok, err}
use huawei_api.Store.Usage.{UsageTable, add_daily, sum_since}
use huawei_api.Store.Usage.Sums.{sum_since-add_row}
use huawei_api.Devops.Usage.{
  Counters, Meter, Usage, delta_from, reset_baseline, usage_status, after_add, add_delta,
  collect_usage,
}

-- The calls of the meter: a reading with its day and time, and the error with which the database breaks
-- off its write, if it does; or a baseline that is forgotten.
pub data MeterCall : Type 0 where
  collects : String → Result (ℕ × ℕ) → String → ℕ → Option Err → MeterCall
  forgets : String → MeterCall

module _ (known : String → Bool) (cap : String → ℕ) (cycle : String) where
  pub meter_step : Meter → MeterCall → Meter
  meter_step s (collects id traffic day now broken) =
      (collect_usage known broken (cap id) now day cycle s id traffic).0
  meter_step s (forgets id) = reset_baseline s id

  pub meter_run : Meter → List MeterCall → Meter
  unfolding meter_step
  meter_run s [] = s
  meter_run s (c ∷ cs) = meter_run (meter_step s c) cs

-- The last reading of a dongle.
unfoldable pub last_reading : String → ℕ → ℕ → List MeterCall → ℕ × ℕ
last_reading d up down [] = (up, down)
last_reading d up down (collects id (err e) day now broken ∷ cs) = last_reading d up down cs
last_reading d up down (collects id (ok (u, w)) day now broken ∷ cs) =
    let own = last_reading d u w cs in
    let other = last_reading d up down cs in if str_eq id d then own else other
last_reading d up down (forgets id ∷ cs) = last_reading d up down cs

-- What a write adds that the database may break off, and what is then missing.
abbrev pub kept : Option Err → ℕ → ℕ
kept none n = n
kept (some e) n = 0

abbrev pub missed : Option Err → ℕ → ℕ
missed none n = 0
missed (some e) n = n

kept-missed : (broken : Option Err) (n : ℕ) → kept broken n + missed broken n ≡ n
kept-missed none n = omega arith
kept-missed (some e) n = omega arith

-- The growth of a dongle's counters at the readings whose write broke off.
unfoldable pub missing_bytes : String → ℕ → ℕ → List MeterCall → ℕ × ℕ
missing_bytes d up down [] = (0, 0)
missing_bytes d up down (collects id (err e) day now broken ∷ cs) = missing_bytes d up down cs
missing_bytes d up down (collects id (ok (u, w)) day now broken ∷ cs) =
    let own = missing_bytes d u w cs in
    let other = missing_bytes d up down cs in
    if str_eq id d
    then (missed broken (u - up) + own.0, missed broken (w - down) + own.1)
    else other
missing_bytes d up down (forgets id ∷ cs) = missing_bytes d up down cs

-- No counter of the dongle falls, each of its days has a name and is no earlier than the first one,
-- and its baseline is not forgotten.
unfoldable pub rises : String → String → ℕ → ℕ → List MeterCall → Bool
rises d from up down [] = true
rises d from up down (collects id (err e) day now broken ∷ cs) = rises d from up down cs
rises d from up down (collects id (ok (u, w)) day now broken ∷ cs) =
    let own = rises d from u w cs in
    let other = rises d from up down cs in
    if str_eq id d
    then leb up u && leb down w && not (str_eq day "") && str_le from day && own
    else other
rises d from up down (forgets id ∷ cs) = not (str_eq id d) && rises d from up down cs

-- A table whose sums for the dongle are those of another, and so many bytes more.
abbrev IsMore : String → String → ℕ → ℕ → UsageTable → UsageTable → Type 0
IsMore d from up down before later =
    ((sum_since later d from).0 ≡ up + (sum_since before d from).0)
    × ((sum_since later d from).1 ≡ down + (sum_since before d from).1)

after_add-counters :
    (s : Meter) (status : UsageTable → Result Usage) (r : Result UsageTable)
    → (after_add s status r).0.counters ≡ s.counters
after_add-counters s status (err e) = refl
after_add-counters s status (ok days) = refl

add_delta-counters :
    (known : String → Bool) (broken : Option Err) (s : Meter) (id day : String) (p : ℕ × ℕ)
    (now : ℕ) (status : UsageTable → Result Usage)
    → (add_delta known broken id now day status (s, p)).0.counters ≡ s.counters
add_delta-counters known broken s id day (up, down) now status =
    elim (Bool-cases (ltb 0 up || ltb 0 down)) [
      | inr still ↦ rw still refl
      | inl moved ↦
          rw moved
            (after_add-counters s status (add_daily known now broken s.days id day up down now))
    ]

delta_from_rising :
    (a b u w : ℕ) (o : Option Counters)
    → o ≡ some record { up = a; down = b; set = true }
    → leb a u ≡ true
    → leb b w ≡ true
    → delta_from o u w ≡ (u - a, w - b)
delta_from_rising a b u w o at up_ok down_ok =
    let no_up : ltb u a ≡ false = ground (arith, up_ok) in
    let no_down : ltb w b ≡ false = ground (arith, down_ok) in rw (at, no_up, no_down) refl

module _ (known : String → Bool) (cap : String → ℕ) (cycle d from : String) where
  broken_off-IsMore :
      (e : Err) (s : Meter) (id day : String) (up down now : ℕ) (status : UsageTable → Result Usage)
      → IsMore d from 0 0 s.days (add_delta known (some e) id now day status (s, (up, down))).0.days
  unfolding add_daily
  broken_off-IsMore e s id day up down now status = elim (Bool-cases (ltb 0 up || ltb 0 down)) [
    | inr still ↦ rw still (omega arith, omega arith)
    | inl moved ↦ elim (Bool-cases (str_eq id "" || str_eq day "")) [
      | inl bad ↦ rw (moved, bad) (omega arith, omega arith)
      | inr good ↦ rw (moved, good) (omega arith, omega arith)
    ]
  ]

  other-IsMore :
      (broken : Option Err) (s : Meter) (id day : String) (up down now : ℕ)
      (status : UsageTable → Result Usage)
      → str_eq id d ≡ false
      → IsMore d from 0 0 s.days (add_delta known broken id now day status (s, (up, down))).0.days
  unfolding add_daily
  other-IsMore (some e) s id day up down now status other =
      broken_off-IsMore e s id day up down now status
  other-IsMore none s id day up down now status other = elim (Bool-cases (ltb 0 up || ltb 0 down)) [
    | inr still ↦ rw still (omega arith, omega arith)
    | inl moved ↦ elim (Bool-cases (str_eq id "" || str_eq day "")) [
      | inl bad ↦ rw (moved, bad) (omega arith, omega arith)
      | inr good ↦ elim (Bool-cases (known id)) [
        | inr lost ↦ rw (moved, good, lost) (omega arith, omega arith)
        | inl there ↦
            let sums =
              sum_since-add_row s.days id day up down (if now == 0 then now else now) d from in
            rw (moved, good, there) (ground (arith, sums.0, other), ground (arith, sums.1, other))
      ]
    ]
  ]

  own-IsMore :
      (broken : Option Err) (s : Meter) (day : String) (up down now : ℕ)
      (status : UsageTable → Result Usage)
      → known d ≡ true
      → str_eq d "" ≡ false
      → str_eq day "" ≡ false
      → str_le from day ≡ true
      → IsMore d from
          (kept broken up)
          (kept broken down)
          s.days
          (add_delta known broken d now day status (s, (up, down))).0.days
  unfolding add_daily
  own-IsMore (some e) s day up down now status k n g late =
      broken_off-IsMore e s d day up down now status
  own-IsMore none s day up down now status k n g late = elim (Bool-cases (ltb 0 up || ltb 0 down)) [
    | inr still ↦ rw still (ground (arith, still), ground (arith, still))
    | inl moved ↦
        let sums = sum_since-add_row s.days d day up down (if now == 0 then now else now) d from in
        let good : str_eq d "" || str_eq day "" ≡ false = ground (arith, n, g) in
        let self = str_eq_self d in
        rw (moved, good, k) (ground (arith, sums.0, self, late), ground (arith, sums.1, self, late))
  ]

  abbrev stands : ℕ → ℕ → Option Counters
  stands up down = some record { up = up; down = down; set = true }

  abbrev inserted : Meter → String → ℕ → ℕ → Meter
  inserted s id u w = record s {
    counters = insert id (record { up = u; down = w; set = true }) s.counters;
  }

  own_step :
      (s : Meter) (a b u w : ℕ) (day : String) (now : ℕ) (broken : Option Err)
      → known d ≡ true
      → str_eq d "" ≡ false
      → lookup s.counters d ≡ stands a b
      → leb a u && leb b w && not (str_eq day "") && str_le from day ≡ true
      → (lookup (meter_step known cap cycle s (collects d (ok (u, w)) day now broken)).counters d
          ≡ stands u w)
        × IsMore d from
            (kept broken (u - a))
            (kept broken (w - b))
            s.days
            (meter_step known cap cycle s (collects d (ok (u, w)) day now broken)).days
  unfolding meter_step collect_usage
  own_step s a b u w day now broken k n at good =
      let s' = inserted s d u w in
      let p = delta_from (lookup s.counters d) u w in
      let status : UsageTable → Result Usage = λ days. usage_status days d (cap d) day cycle in
      let dp : p ≡ (u - a, w - b) =
        delta_from_rising a b u w (lookup s.counters d) at (ground (arith, good))
          (ground (arith, good)) in
      let self : (if str_eq d d then stands u w else lookup s.counters d) ≡ stands u w =
        rw (str_eq_self d) refl in
      let more =
        own-IsMore broken s' day p.0 p.1 now status k n (ground (arith, good))
          (ground (arith, good)) in
      (
        ap (λ m. lookup m d) (add_delta-counters known broken s' d day p now status)
            ∙ lookup-insert d d (record { up = u; down = w; set = true }) s.counters
            ∙ self,
        (
          more.0 ∙ ap (λ q. kept broken q.0 + (sum_since s.days d from).0) dp,
          more.1 ∙ ap (λ q. kept broken q.1 + (sum_since s.days d from).1) dp,
        ),
      )

  other_step :
      (s : Meter) (id : String) (u w : ℕ) (day : String) (now : ℕ) (broken : Option Err)
      → str_eq id d ≡ false
      → (lookup (meter_step known cap cycle s (collects id (ok (u, w)) day now broken)).counters d
          ≡ lookup s.counters d)
        × IsMore d from 0 0 s.days
            (meter_step known cap cycle s (collects id (ok (u, w)) day now broken)).days
  unfolding meter_step collect_usage
  other_step s id u w day now broken other =
      let s' = inserted s id u w in
      let p = delta_from (lookup s.counters id) u w in
      let status : UsageTable → Result Usage = λ days. usage_status days id (cap id) day cycle in
      let apart : (if str_eq id d then stands u w else lookup s.counters d) ≡ lookup s.counters d =
        rw other refl in
      let more = other-IsMore broken s' id day p.0 p.1 now status other in
      (
        ap (λ m. lookup m d) (add_delta-counters known broken s' id day p now status)
            ∙ lookup-insert id d (record { up = u; down = w; set = true }) s.counters
            ∙ apart,
        more,
      )

  -- Between a baseline and the last reading, the sums of a dongle grow by the growth of its counters, less
  -- the growth at those of its readings whose write the database broke off, whatever readings the device
  -- fails to give and whatever is read and written of other dongles. The dongle has an id and a row, its
  -- counters do not fall, its baseline is not forgotten, and each of its days has a name and is not before
  -- the first one of the sums.
  pub meter_run_exact :
      (s : Meter) (a b : ℕ) (cs : List MeterCall)
      → known d ≡ true
      → str_eq d "" ≡ false
      → lookup s.counters d ≡ some record { up = a; down = b; set = true }
      → rises d from a b cs ≡ true
      → ((sum_since (meter_run known cap cycle s cs).days d from).0 + (missing_bytes d a b cs).0 + a
          ≡ (sum_since s.days d from).0 + (last_reading d a b cs).0)
        × ((sum_since (meter_run known cap cycle s cs).days d from).1
              + (missing_bytes d a b cs).1
              + b
            ≡ (sum_since s.days d from).1 + (last_reading d a b cs).1)
  unfolding meter_run meter_step last_reading missing_bytes rises collect_usage reset_baseline
  meter_run_exact s a b [] k n at up = (omega arith, omega arith)
  meter_run_exact s a b (collects id (err e) day now broken ∷ cs) k n at up =
      meter_run_exact s a b cs k n at up
  meter_run_exact s a b (forgets id ∷ cs) k n at up =
      let apart : (if str_eq id d then none else lookup s.counters d) ≡ lookup s.counters d =
        ground (arith, up) in
      meter_run_exact (reset_baseline s id) a b cs k n (lookup-delete id d s.counters ∙ apart ∙ at)
        (ground (arith, up))
  meter_run_exact s a b (collects id (ok (u, w)) day now broken ∷ cs) k n at up =
      elim (Bool-cases (str_eq id d)) [
        | inr other ↦
            let step = other_step s id u w day now broken other in
            let rest =
              meter_run_exact
                (meter_step known cap cycle s (collects id (ok (u, w)) day now broken)) a b cs k n
                (step.0 ∙ at) (ground (arith, up, other)) in
            rw other (ground (arith, rest.0, step.1.0), ground (arith, rest.1, step.1.1))
        | inl own ↦
            let same = sym (str_eq→≡ id d own) in
            let good : leb a u && leb b w && not (str_eq day "") && str_le from day ≡ true =
              ground (arith, up, own) in
            let step =
              subst
                (λ x.
                  (lookup
                      (meter_step known cap cycle s
                        (collects x (ok (u, w)) day now broken)).counters
                      d
                    ≡ stands u w)
                  × IsMore d from (kept broken (u - a)) (kept broken (w - b)) s.days
                      (meter_step known cap cycle s (collects x (ok (u, w)) day now broken)).days)
                same (own_step s a b u w day now broken k n at good) in
            let rest =
              meter_run_exact
                (meter_step known cap cycle s (collects id (ok (u, w)) day now broken)) u w cs k n
                step.0 (ground (arith, up, own)) in
            rw own (
              ground (arith, rest.0, step.1.0, good, kept-missed broken (u - a)),
              ground (arith, rest.1, step.1.1, good, kept-missed broken (w - b)),
            )
      ]
