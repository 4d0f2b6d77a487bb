-- ===== src/Market.antt =====
-- The checks of a series of market data (`backend/src/lib/market/series.ts`). The time zone is a
-- parameter.
pub mod Series
pub mod Range
use demanage.Prelude.{
  ℕ, zero, suc, ◌+◌, ◌-◌, ◌/◌, max, Bool, true, false, not, ◌&&◌, ◌||◌, Option, none, some, List,
  [], ◌∷◌, filter, ◌==◌, if◌then◌else◌,
}
use demanage.Prelude.Int.{pos, negsuc, ◌+ℤ◌, ◌≤ℤ◌, ltb_ℤ}
use demanage.CivilDate.{
  DayKey, Instant, noon, key_lt, key_gt, key_le, add_days_to_key, diff_days, weekday_of_key,
  day_key_to_date, ms_per_day,
}
use demanage.CivilDate.Text.{Text, text_of, text, parse_day_key, text_lt}
use demanage.Patrimony.{MarketPoint}
use demanage.Patrimony.Rows.{value_of_day}
use demanage.Piggy.Interest.{is_same_day}
use demanage.Piggy.Interest.History.{max_history_range_days, weekday_back}

pub data MarketDataError : Type 0 where
  invalid_date invalid_period future_date period_too_long : MarketDataError

pub data RangeAnswer : Type 0 where
  ok : Instant → Instant → RangeAnswer
  throw : MarketDataError → RangeAnswer

module _ (zone : Instant → DayKey) where
  -- The checks on the two days that parse.
  unfoldable pub range_of : Text → Text → Instant → DayKey → DayKey → RangeAnswer
  range_of from_input to_input now from to =
      if text_lt to_input from_input
      then throw invalid_period
      else if text_lt (text_of (zone now)) to_input
      then throw future_date
      else if ltb_ℤ (pos max_history_range_days) (diff_days to from +ℤ pos 1)
      then throw period_too_long
      else ok (day_key_to_date from noon) (day_key_to_date to noon)

  unfoldable pub validate_history_range : Text → Text → Instant → RangeAnswer
  unfolding range_of
  validate_history_range from_input to_input now = elim (parse_day_key (text from_input)) [
    | none ↦ throw invalid_date
    | some from ↦ elim (parse_day_key (text to_input)) [
      | none ↦ throw invalid_date
      | some to ↦ range_of from_input to_input now from to
    ]
  ]

  -- Yesterday.
  unfoldable pub last_completed_day_key : Instant → DayKey
  last_completed_day_key now = add_days_to_key (zone now) (negsuc 0)

  unfoldable pub completed_points_only :
      {D : Type 0} → List (MarketPoint D) → Instant → List (MarketPoint D)
  unfolding last_completed_day_key
  completed_points_only points now =
      let last_done = last_completed_day_key now in filter (λ p. key_le p.date last_done) points

module _ {D : Type 0} where
  -- `map.set(date, value)`: a value of the day is replaced in its place.
  unfoldable pub set_point : MarketPoint D → List (MarketPoint D) → List (MarketPoint D)
  set_point p [] = p ∷ []
  set_point p (q ∷ qs) = if is_same_day q.date p.date then p ∷ qs else q ∷ set_point p qs

  unfoldable pub set_points : List (MarketPoint D) → List (MarketPoint D) → List (MarketPoint D)
  unfolding set_point
  set_points [] entries = entries
  set_points (p ∷ ps) entries = set_points ps (set_point p entries)

  -- `sort` by `localeCompare` of the days, an insertion sort.
  unfoldable pub insert_point : MarketPoint D → List (MarketPoint D) → List (MarketPoint D)
  insert_point p [] = p ∷ []
  insert_point p (q ∷ qs) = if key_lt q.date p.date then q ∷ insert_point p qs else p ∷ q ∷ qs

  unfoldable pub sort_points : List (MarketPoint D) → List (MarketPoint D)
  unfolding insert_point
  sort_points [] = []
  sort_points (p ∷ ps) = insert_point p (sort_points ps)

  unfoldable pub dedupe_points : List (MarketPoint D) → List (MarketPoint D)
  unfolding set_points sort_points
  dedupe_points points = sort_points (set_points points [])

-- Days between two dates, at least 1; a first date after the last counts as the last.
unfoldable pub days_between : Instant → Instant → ℕ
days_between from to = max 1 ((to - from + (ms_per_day - 1)) / ms_per_day + 1)

-- Two steps back reach a Friday.
unfoldable pub last_weekday_on_or_before : DayKey → DayKey
unfolding weekday_back
last_weekday_on_or_before key = weekday_back 2 key

module _ {D : Type 0} where
  abbrev pub last_date : MarketPoint D → List (MarketPoint D) → DayKey
  last_date p [] = p.date
  last_date p (q ∷ qs) = last_date q qs

  abbrev pub reaches : DayKey → DayKey → List (MarketPoint D) → Bool
  reaches expected from [] = false
  reaches expected from (p ∷ ps) =
      not (key_lt (last_date p ps) expected) && key_le p.date (add_days_to_key from (pos 4))

  -- The last flag is `businessDaysOnly`.
  unfoldable pub is_fresh_history :
      (Instant → DayKey) → List (MarketPoint D) → DayKey → DayKey → Instant → Bool → Bool
  unfolding last_completed_day_key last_weekday_on_or_before
  is_fresh_history zone points from to now business_days =
      let done = last_completed_day_key zone now in
      let due = if key_lt to done then to else done in
      let expected = if business_days then last_weekday_on_or_before due else due in
      if key_lt expected from then true else reaches expected from points

  -- The loop over sorted keys.
  unfoldable pub last_before : DayKey → Option D → List (MarketPoint D) → Option D
  last_before day found [] = found
  last_before day found (p ∷ ps) =
      if key_gt p.date day then found else last_before day (some p.value) ps

  unfoldable pub value_on_or_before : List (MarketPoint D) → DayKey → Option D
  unfolding value_of_day last_before
  value_on_or_before entries day = elim (value_of_day entries day) [
    | some v ↦ some v
    | none ↦ last_before day none entries
  ]
