-- ===== src/CivilDate.antt =====
-- `backend/src/lib/civil-date.ts`: civil dates. A day key `YYYY-MM-DD` is kept as the record of the
-- three numbers that its text shows, whose order is that of the texts. A JavaScript `Date`
-- is the number of its milliseconds since 0000-01-01T00:00Z, which is 719528 days before the Unix
-- epoch, so that the dates of every four-digit year are natural numbers; day numbers count from the
-- same day.
pub mod Years
pub mod Order
pub mod Numbers
pub mod Months
pub mod Zone
pub mod Text
use demanage.Prelude.{
  ℕ, zero, suc, ◌+◌, ◌-◌, ◌*◌, ◌/◌, ◌%◌, Bool, true, false, not, ◌&&◌, ◌||◌, Option, none, some,
  min, max, ltb, leb, ◌==◌, if◌then◌else◌, ◌≤◌, ◌<◌, ◌≡◌,
}
use demanage.Prelude.Int.{ℤ, pos, pos_part, ◌+ℤ◌, ◌-ℤ◌}
use Prim.Native.Nat.{Ordering}
use Years.{utc_year, days_in_month, days_before_year, days_before_month, year_of_day, month_of_day}

pub record DayKey : Type 0 where
  pub year : ℕ
  pub month_index : ℕ
  pub day : ℕ

abbrev pub day_key : ℕ → ℕ → ℕ → DayKey
day_key y m d = record { year = y; month_index = m; day = d }

-- A `Date`, in milliseconds.
abbrev pub Instant : Type 0
Instant = ℕ

pub data DateConvention : Type 0 where
  noon midnight : DateConvention

abbrev pub ms_per_day : ℕ
ms_per_day = 86_400_000

abbrev pub ms_per_hour : ℕ
ms_per_hour = 3_600_000

unfoldable pub last_day_of_month : ℕ → ℕ → ℕ
last_day_of_month y m = days_in_month (utc_year y) m

unfoldable pub clamp_day_to_month : ℕ → ℕ → ℕ → ℕ
clamp_day_to_month y m d = min (max d 1) (last_day_of_month y m)

-- `Date.UTC(y, m, d)` in days.
unfoldable pub utc_day : ℕ → ℕ → ℕ → ℕ
utc_day y m d = days_before_year (utc_year y) + days_before_month (utc_year y) m + (d - 1)

-- Of a valid key; the error on another one is left out.
unfoldable pub day_number : DayKey → ℕ
unfolding utc_day
day_number k = utc_day k.year k.month_index k.day

convention_ms : DateConvention → ℕ
convention_ms noon = 12 * ms_per_hour
convention_ms midnight = 0

-- Of a valid key; the error on another one is left out.
unfoldable pub day_key_to_date : DayKey → DateConvention → Instant
unfolding convention_ms
day_key_to_date k c = day_number k * ms_per_day + convention_ms c

-- The UTC components of a day: `getUTCFullYear`, `getUTCMonth`, `getUTCDate`.
unfoldable pub day_key_from_number : ℕ → DayKey
day_key_from_number n =
    let y = year_of_day n in
    let r = n - days_before_year y in
    let m = month_of_day y r in day_key y m (r - days_before_month y m + 1)

unfoldable pub day_key_of_date : Instant → DayKey
day_key_of_date t = day_key_from_number (t / ms_per_day)

-- The texts of keys up to the year 9999 have one length, and compare as their numbers do, from the
-- left; later keys are outside of the model.
unfoldable pub key_lt : DayKey → DayKey → Bool
key_lt a b =
    if a.year == b.year
    then (if a.month_index == b.month_index
        then ltb a.day b.day
        else ltb a.month_index b.month_index)
    else ltb a.year b.year

-- -1, 0 or 1.
unfoldable pub compare_day_keys : DayKey → DayKey → Ordering
unfolding key_lt
compare_day_keys a b =
    if key_lt a b then Ordering.lt else if key_lt b a then Ordering.gt else Ordering.eq

-- `compareDayKeys(a, b) > 0`, and `<= 0`.
unfoldable pub key_gt : DayKey → DayKey → Bool
unfolding compare_day_keys
key_gt a b = elim (compare_day_keys a b) [ Ordering.gt ↦ true | _ ↦ false ]

unfoldable pub key_le : DayKey → DayKey → Bool
unfolding key_gt
key_le a b = not (key_gt a b)

-- Not to before the year 0.
unfoldable pub add_days_to_key : DayKey → ℤ → DayKey
add_days_to_key k n = day_key_from_number (pos_part (pos (day_number k) +ℤ n))

unfoldable pub diff_days : DayKey → DayKey → ℤ
diff_days a b = pos (day_number a) -ℤ pos (day_number b)

unfoldable pub add_days : Instant → ℤ → Instant
add_days t n = pos_part (pos t +ℤ n)

-- 0000-01-01 is a Saturday.
unfoldable pub weekday_of_key : DayKey → ℕ
weekday_of_key k = (day_number k + 6) % 7

-- The month `YYYY-MM` of a key, as a number: months compare as their texts do.
unfoldable pub month_key : DayKey → ℕ
month_key k = k.year * 12 + k.month_index

pub record MonthBounds : Type 0 where
  pub start_key : DayKey
  pub end_key : DayKey
  pub start : Instant
  pub end : Instant
  pub last_day : ℕ

unfoldable pub month_bounds : ℕ → ℕ → MonthBounds
month_bounds y m =
    let last = last_day_of_month y m in
    record {
      start_key = day_key y m 1;
      end_key = day_key y m last;
      start = day_key_to_date (day_key y m 1) noon;
      end = day_key_to_date (day_key y m last) noon;
      last_day = last;
    }

-- `months` may be negative; the months counted from the year 0 do not fall below 0.
unfoldable pub add_months_clamped : DayKey → ℤ → DayKey
add_months_clamped k months =
    let total = pos_part (pos (k.year * 12 + k.month_index) +ℤ months) in
    let y = total / 12 in let m = total - y * 12 in day_key y m (clamp_day_to_month y m k.day)

-- The step of the loops over months: `month += 1; if (month > 11) { month = 0; year += 1 }`.
abbrev pub next_year : ℕ → ℕ → ℕ
next_year y m = if ltb 11 (m + 1) then y + 1 else y

abbrev pub next_month : ℕ → ℕ
next_month m = if ltb 11 (m + 1) then 0 else m + 1
