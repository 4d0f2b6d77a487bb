-- ===== src/Billing/Occurrences/MonthDays.antt =====
-- The days of a month by their numbers, for the loop of `countMonthlyOccurrences`
-- (`backend/src/lib/billing/charges.ts`).
use native.Mathlib.Numerals.{add-one}
use demanage.Prelude.{
  ℕ, ◌+◌, ◌-◌, ◌≤◌, ◌<◌, ◌≡◌, ap, ◌∙◌, Bool, ◌&&◌, arith, ltb, leb, ◌==◌, if◌then◌else◌,
}
use demanage.Prelude.Counting.{count_from, count_from-agree, count_from-one}
use demanage.CivilDate.{
  day_key, day_number, day_key_from_number, last_day_of_month, clamp_day_to_month, next_year,
  next_month,
}
use demanage.CivilDate.Years.{
  days_before_year-suc, days_before_month-suc, twelve_months, days_before_month,
}
use demanage.CivilDate.Order.{clamp_day_to_month_lem}
use demanage.CivilDate.Numbers.{IsFull, utc_year_full, day_key_from_number-day_number}

-- The number of the first day of a month.
abbrev pub month_start : ℕ → ℕ → ℕ
month_start y m = day_number (day_key y m 1)

pub month_start_day : (y m d : ℕ) → 1 ≤ d → day_number (day_key y m d) ≡ month_start y m + (d - 1)
unfolding day_number
month_start_day y m d h = omega arith

-- The next month starts after the last day.
pub month_start-next :
    (y m : ℕ)
    → m < 12
    → IsFull y
    → month_start (next_year y m) (next_month m) ≡ month_start y m + last_day_of_month y m
unfolding day_number last_day_of_month days_before_month
month_start-next y m h f = ground (
  arith,
  utc_year_full y f,
  utc_year_full (y + 1) (omega arith),
  add-one y,
  days_before_year-suc y,
  twelve_months y,
  days_before_month-suc y m,
)

-- The key of a day within a month.
pub month_key_from_number :
    (y m n : ℕ)
    → m < 12
    → IsFull y
    → month_start y m ≤ n
    → n < month_start y m + last_day_of_month y m
    → day_key_from_number n ≡ day_key y m (n - month_start y m + 1)
month_key_from_number y m n h f lo hi =
    let d = n - month_start y m + 1 in
    let e : n ≡ day_number (day_key y m d) = omega (arith, month_start_day y m d (omega arith)) in
    ap day_key_from_number e
    ∙ day_key_from_number-day_number (day_key y m d)
        (record { month_in = h; day_in = (omega arith, omega arith) }) f

-- A monthly charge on day `d` falls on the day that is `d` clamped to its month.
abbrev pub on_day : ℕ → ℕ → Bool
on_day d n = let k = day_key_from_number n in k.day == clamp_day_to_month k.year k.month_index d

-- Within a month it falls on one day.
pub count_in_month :
    (y m d s l : ℕ)
    → m < 12
    → IsFull y
    → month_start y m ≤ s
    → s + l ≤ month_start y m + last_day_of_month y m
    → let o = month_start y m + (clamp_day_to_month y m d - 1) in
      count_from (on_day d) s l ≡ (if leb s o && ltb o (s + l) then 1 else 0)
count_in_month y m d s l h f lo hi =
    let o = month_start y m + (clamp_day_to_month y m d - 1) in
    count_from-agree (on_day d) (λ n. n == o) s l
      (λ n a b.
        rw (month_key_from_number y m n h f (omega arith) (omega arith))
          (ground (arith, clamp_day_to_month_lem y m d)))
    ∙ count_from-one o s l
