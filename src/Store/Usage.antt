-- ===== src/Store/Usage.antt =====
-- store/repo_usage.go with its table usage_daily (migrations/0001_init.sql). Bytes are natural numbers,
-- so that the refusal of negative ones never comes to bear; their sums stay below the end of int64. A
-- day is a text like 2006-01-02, and `known` tells which dongles have a row. A write may break off; a
-- read that the database breaks off is left out.
pub mod Sums
use huawei_api.Base.{
  ℕ, zero, ◌+◌, String, Bool, true, false, not, ◌&&◌, ◌||◌, ◌==◌, str_eq, str_le, if◌then◌else◌,
  any, map, Option, none, some, List, [], ◌∷◌, ◌++◌,
}
use huawei_api.Domain.Errors.{Err, invalid, not_found, Result, ok, err}

-- UsageDay
pub record UsageDay : Type 0 where
  pub dongle_id : String
  pub day : String
  pub up_bytes : ℕ
  pub down_bytes : ℕ
  pub updated_at : ℕ

abbrev pub UsageTable : Type 0
UsageTable = List UsageDay

abbrev pub is_day_of : String → String → UsageDay → Bool
is_day_of dongle_id day u = str_eq u.dongle_id dongle_id && str_eq u.day day

abbrev pub add_bytes : ℕ → ℕ → ℕ → UsageDay → UsageDay
add_bytes up down now u = record u {
  up_bytes = u.up_bytes + up;
  down_bytes = u.down_bytes + down;
  updated_at = now;
}

-- INSERT … ON CONFLICT(dongle_id, day) DO UPDATE
pub add_row : String → String → ℕ → ℕ → ℕ → UsageTable → UsageTable
add_row dongle_id day up down now [] =
    record { dongle_id = dongle_id; day = day; up_bytes = up; down_bytes = down; updated_at = now }
    ∷ []
add_row dongle_id day up down now (u ∷ us) =
    let rest = add_row dongle_id day up down now us in
    if is_day_of dongle_id day u then add_bytes up down now u ∷ us else u ∷ rest

-- What a statement comes to when the database breaks off with an error, or does not.
abbrev pub unless_broken {ℓ} : {A : Type ℓ} → Option Err → Result A → Result A
unless_broken none r = r
unless_broken (some e) r = err e

-- AddDongleDaily; `clock` is the time that stands in for a zero, and `broken` the error with which the
-- database breaks off, if it does. A dongle without a row is refused by the foreign key.
unfoldable pub add_daily :
    (String → Bool) → ℕ → Option Err → UsageTable → String → String → ℕ → ℕ → ℕ → Result UsageTable
unfolding add_row
add_daily known clock broken us dongle_id day up down now_ms =
    let now = if now_ms == 0 then clock else now_ms in
    let done =
      if not (known dongle_id) then err invalid else ok (add_row dongle_id day up down now us) in
    if str_eq dongle_id "" || str_eq day "" then err invalid else unless_broken broken done

-- GetDongleDaily
pub get_daily : UsageTable → String → String → Result UsageDay
get_daily [] dongle_id day = err not_found
get_daily (u ∷ us) dongle_id day =
    let rest = get_daily us dongle_id day in if is_day_of dongle_id day u then ok u else rest

abbrev pub counts_for : String → String → UsageDay → Bool
counts_for dongle_id from u = str_eq u.dongle_id dongle_id && str_le from u.day

abbrev pub plus_row : UsageDay → ℕ × ℕ → ℕ × ℕ
plus_row u (up, down) = (u.up_bytes + up, u.down_bytes + down)

-- SumDongleSince
pub sum_since : UsageTable → String → String → ℕ × ℕ
sum_since [] dongle_id from = (0, 0)
sum_since (u ∷ us) dongle_id from =
    let rest = sum_since us dongle_id from in
    if counts_for dongle_id from u then plus_row u rest else rest
