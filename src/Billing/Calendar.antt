-- ===== src/Billing/Calendar.antt =====
-- `backend/src/lib/billing/calendar.ts`: the closing days of a card.
pub mod Closings
pub mod Next
use demanage.Prelude.{
  ℕ, zero, suc, ◌+◌, ◌≤◌, Bool, true, false, not, ◌&&◌, Option, none, some, List, [], ◌∷◌, map,
  if◌then◌else◌,
}
use demanage.CivilDate.{
  DayKey, day_key, Instant, noon, clamp_day_to_month, key_gt, key_lt, day_key_of_date,
  day_key_to_date, next_year, next_month,
}

-- The closing day clamped to the month.
unfoldable pub closing_day_key_in_month : ℕ → ℕ → ℕ → DayKey
closing_day_key_in_month y m c = day_key y m (clamp_day_to_month y m c)

-- The safety bound on the months that a loop visits.
abbrev pub max_months : ℕ
max_months = 1200

module _ (closing_day : ℕ) (after until : DayKey) where
  -- The loop of `listClosingDayKeys` at a month, with the rounds left.
  unfoldable pub closings_from : ℕ → ℕ → ℕ → List DayKey
  closings_from zero y m = []
  closings_from (suc rounds) y m =
      let candidate = closing_day_key_in_month y m closing_day in
      let rest = closings_from rounds (next_year y m) (next_month m) in
      if key_gt candidate until
      then []
      else if key_gt candidate after
      then candidate ∷ rest
      else rest

-- The closing days strictly after `after`, up to and with `until`.
unfoldable pub list_closing_day_keys : ℕ → DayKey → DayKey → List DayKey
list_closing_day_keys closing_day after until =
    closings_from closing_day after until max_months after.year after.month_index

-- The same for dates.
unfoldable pub list_due_closing_dates : ℕ → Instant → Instant → List Instant
unfolding list_closing_day_keys
list_due_closing_dates closing_day after until =
    map (λ k. day_key_to_date k noon)
      (list_closing_day_keys closing_day (day_key_of_date after) (day_key_of_date until))

module _ (closing_day : ℕ) (after not_before : DayKey) where
  -- The loop of `nextClosingOnOrAfter`; `none` is the error after the last round.
  unfoldable pub next_from : ℕ → ℕ → ℕ → Option DayKey
  next_from zero y m = none
  next_from (suc rounds) y m =
      let candidate = closing_day_key_in_month y m closing_day in
      let rest = next_from rounds (next_year y m) (next_month m) in
      if key_gt candidate after && not (key_lt candidate not_before) then some candidate else rest

-- The first closing day after `after` that is not before `not_before`.
unfoldable pub next_closing_on_or_after : ℕ → DayKey → DayKey → Option DayKey
next_closing_on_or_after closing_day after not_before =
    next_from closing_day after not_before max_months after.year after.month_index
