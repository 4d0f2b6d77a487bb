-- ===== src/Tests/Dates.antt =====
-- Civil dates at concrete days.
use demanage.Prelude.{ℕ, ◌+◌, ◌<◌, ◌≡◌, ◌↔◌, refl, arith, true, min}
use demanage.Prelude.Int.{pos, negsuc, ◌+ℤ◌}
use demanage.CivilDate.{
  DayKey, day_key, noon, midnight, day_number, day_key_from_number, add_days_to_key,
  day_key_to_date, day_key_of_date, weekday_of_key, add_months_clamped, month_key, month_bounds,
  last_day_of_month, clamp_day_to_month, key_le, key_gt, diff_days, utc_day,
}
use demanage.CivilDate.Years.{
  utc_year, is_leap, days_in_month, days_before_year, days_before_month, year_of_day, month_of_day,
}
use demanage.CivilDate.Order.{IsKey, rank}
use demanage.CivilDate.Numbers.{
  day_number-rank, day_key_from_number-day_number, day_key_of_date-day_key_to_date,
  add_days_to_key_add, add_days_to_key_back,
}
use demanage.CivilDate.Months.{add_months_clamped_lem, month_bounds_lem}

unfoldable pub dates : Unit {0}
unfolding day_number day_key_from_number add_days_to_key day_key_to_date day_key_of_date
    weekday_of_key add_months_clamped month_key month_bounds last_day_of_month clamp_day_to_month
    key_le key_gt diff_days utc_day utc_year is_leap days_in_month days_before_year
    days_before_month year_of_day month_of_day ◌+ℤ◌
dates = tt

abbrev pub leap_day : DayKey
leap_day = day_key 2028 1 29

abbrev pub new_year : DayKey
new_year = day_key 2027 0 1

pub leap_day-IsKey : IsKey leap_day
unfolding dates
leap_day-IsKey = omega arith

pub new_year-IsKey : IsKey new_year
unfolding dates
new_year-IsKey = omega arith

runs :
    (add_days_to_key leap_day (pos 1) ≡ day_key 2028 2 1)
    × (add_days_to_key new_year (negsuc 0) ≡ day_key 2026 11 31)
    × (weekday_of_key (day_key 2026 10 26) ≡ 4)
    × (add_months_clamped (day_key 2027 0 31) (pos 1) ≡ day_key 2027 1 28)
    × (day_key_of_date (day_key_to_date leap_day noon) ≡ leap_day)
    × (day_key_of_date (day_key_to_date (day_key 50 0 1) noon) ≡ day_key 1950 0 1)
unfolding dates
runs = (refl, refl, refl, refl, refl, refl)

day_number-rank_example :
    (rank new_year < rank leap_day) ↔ (day_number new_year < day_number leap_day)
day_number-rank_example =
    day_number-rank new_year leap_day new_year-IsKey leap_day-IsKey (omega arith) (omega arith)

day_key_from_number-day_number_example : day_key_from_number (day_number leap_day) ≡ leap_day
day_key_from_number-day_number_example =
    day_key_from_number-day_number leap_day leap_day-IsKey (omega arith)

day_key_of_date-day_key_to_date_example :
    day_key_of_date (day_key_to_date leap_day midnight) ≡ leap_day
day_key_of_date-day_key_to_date_example =
    day_key_of_date-day_key_to_date leap_day midnight leap_day-IsKey (omega arith)

add_days_to_key_add_example :
    add_days_to_key (add_days_to_key leap_day (pos 1)) (pos 30)
    ≡ add_days_to_key leap_day (pos (1 + 30))
add_days_to_key_add_example = add_days_to_key_add leap_day 1 30 leap_day-IsKey (omega arith)

add_days_to_key_back_example :
    add_days_to_key (add_days_to_key leap_day (pos 28)) (negsuc 27) ≡ leap_day
add_days_to_key_back_example = add_days_to_key_back leap_day 27 leap_day-IsKey (omega arith)

add_months_clamped_lem_example :
    let j = add_months_clamped leap_day (pos 12) in
    IsKey j × (month_key j ≡ 24349) × (j.day ≡ min 29 (last_day_of_month j.year j.month_index))
unfolding month_key ◌+ℤ◌
add_months_clamped_lem_example = add_months_clamped_lem leap_day (pos 12) 24349 leap_day-IsKey refl

month_bounds_lem_example :
    let b = month_bounds 2028 1 in
    ((key_le b.start_key leap_day ≡ true) × (key_le leap_day b.end_key ≡ true))
    ↔ (◌≡◌ {A = ℕ} 2028 2028 × ◌≡◌ {A = ℕ} 1 1)
month_bounds_lem_example = month_bounds_lem leap_day 2028 1 leap_day-IsKey (omega arith)
