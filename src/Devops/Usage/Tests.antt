-- ===== src/Devops/Usage/Tests.antt =====
-- Readings of two dongles over two days (devops/usage.go).
use huawei_api.Base.{
  ℕ, ◌+◌, ◌≡◌, refl, String, Bool, true, ◌||◌, str_eq, str_le, none, some, List, [], ◌∷◌, lookup,
}
use huawei_api.Domain.Errors.{not_found, conflict, ok, err}
use huawei_api.Store.Usage.{UsageDay, sum_since}
use huawei_api.Devops.Usage.{Meter}
use huawei_api.Devops.Usage.Metered.{
  MeterCall, collects, forgets, meter_run, last_reading, missing_bytes, rises, meter_run_exact,
}

abbrev old_day : UsageDay
old_day = record {
  dongle_id = "d1";
  day = "2026-01-04";
  up_bytes = 5;
  down_bytes = 50;
  updated_at = 1;
}

abbrev metering : Meter
metering = record {
  counters = ("d1", record { up = 100; down = 1000; set = true }) ∷ [];
  days = old_day ∷ [];
}

-- The write of the third reading of d1 breaks off.
abbrev readings : List MeterCall
readings =
    collects "d1" (ok (130, 1000)) "2026-01-05" 10 none
    ∷ collects "d2" (ok (7, 7)) "2026-01-05" 11 none
    ∷ forgets "d2"
    ∷ collects "d1" (err not_found) "2026-01-05" 12 none
    ∷ collects "d1" (ok (135, 1200)) "2026-01-06" 13 (some conflict)
    ∷ collects "d1" (ok (140, 1500)) "2026-01-06" 14 none
    ∷ []

abbrev is_known : String → Bool
is_known id = str_eq id "d1" || str_eq id "d2"

abbrev ten_gigabytes : String → ℕ
ten_gigabytes id = 10000000000

meter_run_exact_example :
    ((sum_since
          (meter_run is_known ten_gigabytes "2026-01-01" metering readings).days
          "d1"
          "2026-01-01").0
        + 5
        + 100
      ≡ (sum_since metering.days "d1" "2026-01-01").0 + 140)
    × ((sum_since
            (meter_run is_known ten_gigabytes "2026-01-01" metering readings).days
            "d1"
            "2026-01-01").1
          + 200
          + 1000
        ≡ (sum_since metering.days "d1" "2026-01-01").1 + 1500)
unfolding str_eq str_le lookup last_reading missing_bytes rises
meter_run_exact_example =
    meter_run_exact is_known ten_gigabytes "2026-01-01" "d1" "2026-01-01" metering 100 1000 readings
      refl refl refl refl
