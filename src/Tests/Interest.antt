-- ===== src/Tests/Interest.antt =====
-- The interest of a piggy bank, at concrete days and rates.
use demanage.Prelude.{ℕ, ◌-◌, ◌≤◌, ◌<◌, ◌≡◌, refl, arith, true, false, none, List, [], ◌∷◌, All}
use demanage.Prelude.Int.{ℤ, pos, negsuc, ◌+ℤ◌, ◌-ℤ◌, ◌*ℤ◌, ◌≤ℤ◌}
use demanage.Prelude.Counting.{count_between}
use demanage.Prelude.Decimals.{RoundsDown}
use demanage.Billing.Charges.Totals.{sum_of}
use demanage.CivilDate.{day_key, day_number, day_key_of_date, key_lt, key_le}
use demanage.CivilDate.Zone.{IsDated}
use demanage.Piggy.Ledger.{deposit, balance_prefix_sums, prefix_sums_from, signed_amount}
use demanage.Piggy.Interest.{
  InterestTransaction, CdiPoint, ledger_rows, points_between, sort_points, pass, exact_cdi_interest,
  initial_carry, accrue_day, step_day, accrue_days, start_state, accrue_cdi_interest,
}
use demanage.Piggy.Interest.Exact.{IsNewDay, exact_days, accrue_cdi_interest_exact}
use demanage.Piggy.Interest.History.{
  Tiles, split_cdi_history_range, split_cdi_history_range-Tiles, last_completed_weekday,
  last_completed_weekday_lem, falls_on_weekend, is_working,
}
use demanage.Tests.Model.{whole, whole-IsExact, three_hours_back, three_hours_back-IsZone}
use demanage.Tests.Dates.{dates}
use demanage.Tests.Cards.{date}

times_nonneg : (a b : ℤ) → pos 0 ≤ℤ a → pos 0 ≤ℤ b → pos 0 ≤ℤ a *ℤ b
unfolding ◌*ℤ◌
times_nonneg (pos a) (pos b) h k = grind arith
times_nonneg (pos a) (negsuc b) h k = absurd (omega arith)
times_nonneg (negsuc a) b h k = absurd (omega arith)

cents_gt : (a : ℤ) → pos 0 ≤ℤ a → a ≤ℤ whole.cents_down a +ℤ pos 100 -ℤ pos 1
unfolding ◌+ℤ◌ ◌-ℤ◌
cents_gt (pos a) h = ground arith
cents_gt (negsuc a) h = absurd (omega arith)

cents_le : (a : ℤ) → pos 0 ≤ℤ a → whole.cents_down a ≤ℤ a
cents_le (pos a) h = omega arith
cents_le (negsuc a) h = absurd (omega arith)

abbrev whole-RoundsDown : RoundsDown whole-IsExact
whole-RoundsDown = record {
  times_nonneg = times_nonneg;
  over_nonneg = λ a n h. omega arith;
  to_interest_nonneg = λ a h. h;
  cents_down_nonneg = λ a h. omega arith;
  cents_down_le = cents_le;
  cents_down_gt = cents_gt;
  cent_pos = omega arith;
}

-- A deposit, and the rates of three days.
abbrev saved : List (InterestTransaction ℤ)
saved =
    record {
      kind = deposit;
      amount = pos 100_000;
      date = date 2026 2 2;
      interest_key = none;
      resulting_balance = none;
    }
    ∷ []

abbrev rate : ℕ → ℕ → CdiPoint ℤ
rate d v = record { date = day_key 2026 2 d; value = pos v }

abbrev rates : List (CdiPoint ℤ)
rates = rate 4 5 ∷ rate 3 4 ∷ rate 9 7 ∷ []

unfoldable accruals : Unit {0}
unfolding dates accrue_cdi_interest accrue_days step_day accrue_day exact_cdi_interest pass
    sort_points points_between start_state ledger_rows balance_prefix_sums prefix_sums_from
    signed_amount initial_carry three_hours_back ◌*ℤ◌ ◌+ℤ◌ ◌-ℤ◌ key_lt
accruals = tt

new_days :
    All
      (IsNewDay whole 7 (ledger_rows whole three_hours_back saved))
      (points_between (day_key 2026 2 2) (day_key 2026 2 6) rates)
unfolding accruals
new_days = (refl, (refl, tt))

accrue_cdi_interest_exact_example :
    let rows = ledger_rows whole three_hours_back saved in
    let a =
      accrue_cdi_interest whole three_hours_back 7 saved none rates
        (pos 100)
        (day_key 2026 2 2)
        (day_key 2026 2 6) in
    (sum_of (λ p. p.amount) a.postings +ℤ a.carry
      ≡ exact_days whole
          (pos 100)
          (points_between (day_key 2026 2 2) (day_key 2026 2 6) rates)
          (initial_carry whole none rows)
          (pos 0)
          rows)
    × (pos 0 ≤ℤ a.carry)
    × (a.carry +ℤ pos 1 ≤ℤ pos 100)
accrue_cdi_interest_exact_example =
    accrue_cdi_interest_exact whole-IsExact whole-RoundsDown three_hours_back 7 saved none rates
      (pos 100) (day_key 2026 2 2) (day_key 2026 2 6) new_days

-- 4,000 on the third of March, 5,200 on the fourth: both whole cents here.
interest_run :
    let a =
      accrue_cdi_interest whole three_hours_back 7 saved none rates
        (pos 100)
        (day_key 2026 2 2)
        (day_key 2026 2 6) in
    (sum_of (λ p. p.amount) a.postings ≡ pos 9200) × (a.carry ≡ pos 0)
unfolding accruals
interest_run = (refl, refl)

from_dated : IsDated (date 2010 0 1)
unfolding dates
from_dated = omega arith

to_dated : IsDated (date 2026 2 6)
unfolding dates
to_dated = omega arith

in_order : key_le (day_key_of_date (date 2010 0 1)) (day_key_of_date (date 2026 2 6)) ≡ true
unfolding dates
in_order = refl

split_cdi_history_range-Tiles_example :
    Tiles
      (day_number (day_key_of_date (date 2010 0 1)))
      (day_number (day_key_of_date (date 2026 2 6)))
      (split_cdi_history_range (date 2010 0 1) (date 2026 2 6))
split_cdi_history_range-Tiles_example =
    split_cdi_history_range-Tiles (date 2010 0 1) (date 2026 2 6) from_dated to_dated in_order

late_year : 101 ≤ (three_hours_back (date 2026 2 9)).year
unfolding dates three_hours_back
late_year = omega arith

today_dated : IsDated (date 2026 2 9)
unfolding dates
today_dated = omega arith

last_completed_weekday_lem_example :
    let last = day_key_of_date (last_completed_weekday three_hours_back (date 2026 2 9)) in
    let today = three_hours_back (date 2026 2 9) in
    (falls_on_weekend (day_number last) ≡ false)
    × (day_number last < day_number today)
    × (count_between is_working (day_number last) (day_number today - 1) ≡ 1)
last_completed_weekday_lem_example =
    last_completed_weekday_lem three_hours_back-IsZone (date 2026 2 9) today_dated late_year
