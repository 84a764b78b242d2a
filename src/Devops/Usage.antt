-- ===== src/Devops/Usage.antt =====
-- devops/usage.go: the traffic counters of the dongles, added up by day. What ForSlot and Traffic of the
-- device answer is an argument, with the day and the first day of the billing cycle, which come from the
-- calendar. Counters are natural numbers; their sums stay below the end of int64. The write of
-- AddDongleDaily may break off (`broken`); a read of UsageStatus that the database breaks off is left out.
pub mod Metered
mod Tests
use huawei_api.Base.{
  ℕ, ◌+◌, ◌-◌, ◌*◌, ◌/◌, String, Bool, true, false, not, ◌&&◌, ◌||◌, ltb, leb, if◌then◌else◌,
  Option, none, some, List, lookup, insert, delete,
}
use huawei_api.Domain.Errors.{Err, not_found, Result, ok, err}
use huawei_api.Store.Usage.{UsageDay, UsageTable, add_daily, get_daily, sum_since}

pub record Counters : Type 0 where
  pub up : ℕ
  pub down : ℕ
  pub set : Bool

-- The counters that the Service remembers, and the table of its repository.
pub record Meter : Type 0 where
  pub counters : List (String × Counters)
  pub days : UsageTable

-- Usage
pub record Usage : Type 0 where
  pub dongle_id : String
  pub day : String
  pub up_bytes : ℕ
  pub down_bytes : ℕ
  pub cycle_start : String
  pub cycle_up : ℕ
  pub cycle_down : ℕ
  pub cap_bytes : ℕ
  pub pct : ℕ
  pub warn : Bool
  pub over : Bool

-- A counter that has fallen has begun again.
abbrev pub since_last : ℕ → ℕ → ℕ
since_last prev n = if ltb n prev then n else n - prev

abbrev pub delta_from : Option Counters → ℕ → ℕ → ℕ × ℕ
delta_from none up down = (0, 0)
delta_from (some prev) up down =
    if prev.set then (since_last prev.up up, since_last prev.down down) else (0, 0)

-- delta
abbrev pub delta : Meter → String → ℕ → ℕ → Meter × (ℕ × ℕ)
delta s dongle_id up down = (
  record s { counters = insert dongle_id (record { up = up; down = down; set = true }) s.counters },
  delta_from (lookup s.counters dongle_id) up down,
)

-- ResetUsageBaseline
unfoldable pub reset_baseline : Meter → String → Meter
reset_baseline s dongle_id = record s { counters = delete dongle_id s.counters }

abbrev pub today_bytes : Result UsageDay → Result (ℕ × ℕ)
today_bytes (ok u) = ok (u.up_bytes, u.down_bytes)
today_bytes (err not_found) = ok (0, 0)
today_bytes (err e) = err e

abbrev pub usage_of : String → ℕ → String → String → ℕ × ℕ → Result (ℕ × ℕ) → Result Usage
usage_of dongle_id cap day cycle (cu, cd) (err e) = err e
usage_of dongle_id cap day cycle (cu, cd) (ok (up, down)) =
    let used = cu + cd in
    let capped = ltb 0 cap in
    ok record {
      dongle_id = dongle_id;
      day = day;
      up_bytes = up;
      down_bytes = down;
      cycle_start = cycle;
      cycle_up = cu;
      cycle_down = cd;
      cap_bytes = cap;
      pct = if capped then used * 100 / cap else 0;
      warn = capped && leb 90 (used * 100 / cap);
      over = capped && leb cap used;
    }

-- UsageStatus, given the data cap of the dongle.
unfoldable pub usage_status : UsageTable → String → ℕ → String → String → Result Usage
usage_status days dongle_id cap day cycle =
    usage_of dongle_id cap day cycle (sum_since days dongle_id cycle)
      (today_bytes (get_daily days dongle_id day))

abbrev pub after_add :
    Meter → (UsageTable → Result Usage) → Result UsageTable → Meter × Result Usage
after_add s status (err e) = (s, err e)
after_add s status (ok days) = (record s { days = days }, status days)

abbrev pub add_delta :
    (String → Bool)
    → Option Err
    → String
    → ℕ
    → String
    → (UsageTable → Result Usage)
    → Meter × (ℕ × ℕ)
    → Meter × Result Usage
add_delta known broken dongle_id now day status (s, (up, down)) =
    let added = after_add s status (add_daily known now broken s.days dongle_id day up down now) in
    if ltb 0 up || ltb 0 down then added else (s, status s.days)

-- CollectUsage. The counters are remembered before the bytes are written, whether or not the write breaks
-- off.
unfoldable pub collect_usage :
    (String → Bool)
    → Option Err
    → ℕ
    → ℕ
    → String
    → String
    → Meter
    → String
    → Result (ℕ × ℕ)
    → Meter × Result Usage
collect_usage known broken cap now day cycle s dongle_id (err e) = (s, err e)
collect_usage known broken cap now day cycle s dongle_id (ok (up, down)) =
    add_delta known broken dongle_id now day (λ days. usage_status days dongle_id cap day cycle)
      (delta s dongle_id up down)
