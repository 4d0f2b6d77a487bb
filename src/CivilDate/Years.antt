-- ===== src/CivilDate/Years.antt =====
-- The calendar behind JavaScript's `Date.UTC` and its inverse, as the language defines them: years
-- and months of the proleptic Gregorian calendar counted from the year 0. `Date.UTC` reads a year
-- from 0 to 99 as one of the twentieth century.
use native.Mathlib.Nat.{le_refl}
use native.Mathlib.Numerals.{add-one}
use native.Mathlib.Decide.{le_ind}
use demanage.Prelude.{
  ℕ, zero, suc, ◌+◌, ◌-◌, ◌*◌, ◌/◌, ◌%◌, ◌≤◌, ◌<◌, ◌≡◌, refl, Bool, not, ◌&&◌, ◌||◌, arith, leb,
  ◌==◌, if◌then◌else◌,
}

unfoldable pub utc_year : ℕ → ℕ
utc_year y = if leb y 99 then 1900 + y else y

unfoldable pub is_leap : ℕ → Bool
is_leap y = (y % 4 == 0) && (not (y % 100 == 0) || (y % 400 == 0))

-- `m` counts from 0.
unfoldable pub days_in_month : ℕ → ℕ → ℕ
unfolding is_leap
days_in_month y m =
    if m == 1
    then (if is_leap y then 29 else 28)
    else if (m == 3) || (m == 5) || (m == 8) || (m == 10)
    then 30
    else 31

unfoldable pub days_in_year : ℕ → ℕ
unfolding is_leap
days_in_year y = if is_leap y then 366 else 365

unfoldable pub days_before_year : ℕ → ℕ
days_before_year y = 365 * y + (y + 3) / 4 + (y + 399) / 400 - (y + 99) / 100

unfoldable pub days_before_month : ℕ → ℕ → ℕ
unfolding days_in_month
days_before_month y zero = 0
days_before_month y (suc m) = days_before_month y m + days_in_month y m

-- The last year that starts on or before day `n`, sought upwards from a year that does.
walk_year : ℕ → ℕ → ℕ → ℕ
walk_year zero y n = y
walk_year (suc fuel) y n =
    let later = walk_year fuel (y + 1) n in if leb (days_before_year (y + 1)) n then later else y

unfoldable pub year_of_day : ℕ → ℕ
unfolding walk_year days_before_year
year_of_day n = walk_year (suc n) (n / 366) n

-- The month of the day `r` of a year, both from 0.
walk_month : ℕ → ℕ → ℕ → ℕ → ℕ
walk_month zero y m r = m
walk_month (suc fuel) y m r =
    let later = walk_month fuel y (m + 1) r in
    if leb (days_before_month y (suc m)) r then later else m

unfoldable pub month_of_day : ℕ → ℕ → ℕ
unfolding walk_month days_before_month
month_of_day y r = walk_month 11 y 0 r

pub days_before_year-suc : (y : ℕ) → days_before_year (suc y) ≡ days_before_year y + days_in_year y
unfolding days_before_year days_in_year
days_before_year-suc y = ground arith

pub days_in_month_bounds : (y m : ℕ) → (28 ≤ days_in_month y m) × (days_in_month y m ≤ 31)
unfolding days_in_month
days_in_month_bounds y m = ground arith

-- The twelve months make up the year.
pub twelve_months : (y : ℕ) → days_before_month y 12 ≡ days_in_year y
unfolding days_before_month days_in_year
twelve_months y = ground arith

div-366 : (n : ℕ) → days_before_year (n / 366) ≤ n
unfolding days_before_year
div-366 n = omega arith

lt-days_before_year : (y : ℕ) → y ≤ days_before_year y
unfolding days_before_year
lt-days_before_year y = omega arith

walk_year_lem :
    (fuel y n : ℕ)
    → days_before_year y ≤ n
    → n < y + fuel
    → let z = walk_year fuel y n in (days_before_year z ≤ n) × (n < days_before_year (suc z))
unfolding walk_year
walk_year_lem zero y n h f = absurd (omega (arith, lt-days_before_year y))
walk_year_lem (suc fuel) y n h f = ground (arith, add-one y, walk_year_lem fuel (y + 1) n)

-- The year of a day starts on or before it, and the next year starts after it.
pub year_of_day_lem :
    (n : ℕ) → (days_before_year (year_of_day n) ≤ n) × (n < days_before_year (suc (year_of_day n)))
unfolding year_of_day
year_of_day_lem n = walk_year_lem (suc n) (n / 366) n (div-366 n) (omega arith)

walk_month_lem :
    (fuel y m r : ℕ)
    → m + fuel ≡ 11
    → days_before_month y m ≤ r
    → r < days_in_year y
    → let z = walk_month fuel y m r in
      (days_before_month y z ≤ r) × (r < days_before_month y (suc z)) × (z < 12)
unfolding walk_month
walk_month_lem zero y m r e lo hi =
    let e' : m ≡ 11 = omega arith in rw e' (rw e' at lo, rw (twelve_months y) hi, omega arith)
walk_month_lem (suc fuel) y m r e lo hi = ground (arith, add-one m, walk_month_lem fuel y (m + 1) r)

-- The month of a day of the year starts on or before it, and the next month starts after it.
pub month_of_day_lem :
    (y r : ℕ)
    → r < days_in_year y
    → (days_before_month y (month_of_day y r) ≤ r)
      × (r < days_before_month y (suc (month_of_day y r)))
      × (month_of_day y r < 12)
unfolding month_of_day days_before_month
month_of_day_lem y r h = walk_month_lem 11 y 0 r refl (omega arith) h

pub days_before_year_mono : (a b : ℕ) → a ≤ b → days_before_year a ≤ days_before_year b
days_before_year_mono a b =
    le_ind (λ m. days_before_year a ≤ days_before_year m) (le_refl _)
      (λ m le ih. omega (arith, days_before_year-suc m)) b

pub days_before_month-suc :
    (y m : ℕ) → days_before_month y (suc m) ≡ days_before_month y m + days_in_month y m
unfolding days_before_month
days_before_month-suc y m = refl

pub days_before_month_mono : (y a b : ℕ) → a ≤ b → days_before_month y a ≤ days_before_month y b
days_before_month_mono y a b =
    le_ind (λ m. days_before_month y a ≤ days_before_month y m) (le_refl _)
      (λ m le ih. omega (arith, days_before_month-suc y m)) b
