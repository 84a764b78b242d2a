-- ===== src/Store/Usage/Sums.antt =====
-- The sums of store/repo_usage.go after an addition.
use huawei_api.Base.{
  ℕ, ◌+◌, ◌≡◌, sym, inl, inr, String, ◌&&◌, str_eq, str_eq→≡, str_le, if◌then◌else◌, Bool-cases, [],
  ◌∷◌, arith,
}
use huawei_api.Store.Usage.{UsageTable, is_day_of, add_row, sum_since}

-- An addition raises the sums of its dongle from a day no later than its own, and no other sum.
pub sum_since-add_row :
    (us : UsageTable) (dongle_id day : String) (up down now : ℕ) (who from : String)
    → ((sum_since (add_row dongle_id day up down now us) who from).0
        ≡ (if str_eq dongle_id who && str_le from day then up else 0) + (sum_since us who from).0)
      × ((sum_since (add_row dongle_id day up down now us) who from).1
          ≡ (if str_eq dongle_id who && str_le from day then down else 0)
            + (sum_since us who from).1)
unfolding sum_since add_row
sum_since-add_row [] dongle_id day up down now who from = (ground arith, ground arith)
sum_since-add_row (u ∷ us) dongle_id day up down now who from =
    let rest = sum_since-add_row us dongle_id day up down now who from in
    elim (Bool-cases (is_day_of dongle_id day u)) [
      | inl e ↦
          let same_id : u.dongle_id ≡ dongle_id =
            str_eq→≡ u.dongle_id dongle_id (ground (arith, e)) in
          let same_day : u.day ≡ day = str_eq→≡ u.day day (ground (arith, e)) in
          rw (e, sym same_id, sym same_day) (ground arith, ground arith)
      | inr e ↦ rw e (ground (arith, rest.0), ground (arith, rest.1))
    ]
