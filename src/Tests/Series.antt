-- ===== src/Tests/Series.antt =====
-- Series of market data, at concrete days.
use demanage.Prelude.{ℕ, ◌+◌, ◌*◌, ◌≤◌, ◌<◌, ◌≡◌, refl, arith, true, some, List, [], ◌∷◌}
use demanage.Prelude.Int.{◌+ℤ◌, ◌-ℤ◌}
use demanage.CivilDate.{Instant, day_key, noon, ms_per_day, day_key_to_date}
use demanage.CivilDate.Zone.{IsFullKey}
use demanage.CivilDate.Text.{text, parse_day_key}
use demanage.Patrimony.{MarketPoint}
use demanage.Patrimony.Rows.{value_of_day}
use demanage.Piggy.Interest.History.{max_history_range_days, weekday_back}
use demanage.Market.{
  ok, range_of, validate_history_range, last_completed_day_key, set_point, set_points, insert_point,
  sort_points, dedupe_points, last_weekday_on_or_before, is_fresh_history, last_before,
  value_on_or_before, days_between, completed_points_only,
}
use demanage.Market.Range.{validate_history_range_bounds}
use demanage.Market.Series.{dedupe_points_lem}
use demanage.Market.Series.Order.{Ascends}
use demanage.Tests.Model.{three_hours_back}
use demanage.Tests.Texts.{texts, text_2028_02_29, text_2027_01_01}
use demanage.Tests.Dates.{leap_day, new_year}
use demanage.Tests.Cards.{date}

unfoldable series : Unit {0}
unfolding texts three_hours_back range_of validate_history_range last_completed_day_key set_point
    set_points insert_point sort_points dedupe_points value_of_day weekday_back
    last_weekday_on_or_before is_fresh_history last_before value_on_or_before days_between
    completed_points_only ◌+ℤ◌ ◌-ℤ◌
series = tt

-- Two days out of order, the first of them twice.
abbrev points : List (MarketPoint ℕ)
points =
    record { date = day_key 2026 9 27; value = 5 }
    ∷ record { date = day_key 2026 9 26; value = 4 }
    ∷ record { date = day_key 2026 9 27; value = 6 }
    ∷ []

points_run :
    (dedupe_points points
      ≡ record { date = day_key 2026 9 26; value = 4 }
        ∷ record { date = day_key 2026 9 27; value = 6 }
        ∷ [])
    × (value_on_or_before (dedupe_points points) (day_key 2026 9 30) ≡ some 6)
    × (last_weekday_on_or_before (day_key 2026 9 25) ≡ day_key 2026 9 23)
    × (days_between (date 2026 9 26) (date 2026 9 28) ≡ 3)
    × (is_fresh_history three_hours_back points
          (day_key 2026 9 26)
          (day_key 2026 9 27)
          (date 2026 9 30)
          true
        ≡ true)
unfolding series
points_run = (refl, refl, refl, refl, refl)

dedupe_points_lem_example :
    Ascends (dedupe_points points)
    × (value_of_day (dedupe_points points) (day_key 2026 9 27)
        ≡ value_of_day points (day_key 2026 9 27))
dedupe_points_lem_example = dedupe_points_lem points (day_key 2026 9 27)

-- From the new year to the leap day, asked for on the day after it.
abbrev later : Instant
later = date 2028 2 1

parsed :
    (parse_day_key (text text_2027_01_01) ≡ some new_year)
    × (parse_day_key (text text_2028_02_29) ≡ some leap_day)
unfolding series
parsed = (refl, refl)

range_found :
    validate_history_range three_hours_back text_2027_01_01 text_2028_02_29 later
    ≡ ok (date 2027 0 1) (date 2028 1 29)
unfolding series
range_found = refl

today-IsFullKey : IsFullKey (three_hours_back later) × ((three_hours_back later).year < 10000)
unfolding series
today-IsFullKey = ((omega arith, omega arith), omega arith)

validate_history_range_bounds_example :
    (date 2027 0 1 ≤ date 2028 1 29)
    × (date 2028 1 29 ≤ day_key_to_date (three_hours_back later) noon)
    × (date 2028 1 29 < date 2027 0 1 + max_history_range_days * ms_per_day)
validate_history_range_bounds_example =
    validate_history_range_bounds three_hours_back text_2027_01_01 text_2028_02_29 later
      (date 2027 0 1) (date 2028 1 29) new_year leap_day parsed.0 parsed.1 (omega arith)
      (omega arith) today-IsFullKey.0 today-IsFullKey.1 range_found
