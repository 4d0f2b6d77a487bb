-- ===== src/CivilDate/Months.antt =====
-- `addMonthsClamped`, `monthBounds` and `monthKey` (`backend/src/lib/civil-date.ts`).
use demanage.Prelude.{ℕ, suc, ◌-◌, ◌*◌, ◌/◌, ◌≤◌, ◌<◌, ◌≡◌, ◌↔◌, true, arith, min}
use demanage.Prelude.Int.{ℤ, pos, negsuc, ◌+ℤ◌}
use demanage.CivilDate.{
  DayKey, day_key, last_day_of_month, clamp_day_to_month, key_le, month_key, month_bounds,
  add_months_clamped, day_key_of_date, noon,
}
use demanage.CivilDate.Order.{
  IsKey, rank, IsKey-bounds, last_day_of_month_bounds, clamp_day_to_month-IsKey, key_le_iff,
}
use demanage.CivilDate.Numbers.{IsFull, day_key_of_date-day_key_to_date}

-- Moving a valid day by months whose sum with its month is a month from the year 0 on gives a
-- valid day of that month: the same day of the month, or the last day where the month is too
-- short.
pub add_months_clamped_lem :
    (k : DayKey) (months : ℤ) (total : ℕ)
    → IsKey k
    → pos (month_key k) +ℤ months ≡ pos total
    → let j = add_months_clamped k months in
      IsKey j × (month_key j ≡ total) × (j.day ≡ min k.day (last_day_of_month j.year j.month_index))
unfolding add_months_clamped month_key clamp_day_to_month
add_months_clamped_lem k months total v e = rw e (
  clamp_day_to_month-IsKey (total / 12) (total - total / 12 * 12) k.day (omega arith),
  omega arith,
  omega (arith, v.day_in),
)

-- There and back again loses nothing where no day was clamped.
pub add_months_clamped_back :
    (k : DayKey) (n : ℕ)
    → IsKey k
    → (add_months_clamped k (pos (suc n))).day ≡ k.day
    → add_months_clamped (add_months_clamped k (pos (suc n))) (negsuc n) ≡ k
unfolding add_months_clamped clamp_day_to_month ◌+ℤ◌
add_months_clamped_back k n v e = ground (arith, last_day_of_month_bounds k.year k.month_index)

-- A valid day is between the bounds of a month if and only if it is a day of that month.
pub month_bounds_lem :
    (k : DayKey) (y m : ℕ)
    → IsKey k
    → m < 12
    → let b = month_bounds y m in
      ((key_le b.start_key k ≡ true) × (key_le k b.end_key ≡ true))
      ↔ ((k.year ≡ y) × (k.month_index ≡ m))
unfolding month_bounds
month_bounds_lem k y m v h = (
  λ p. (
    omega (arith, lo.0 p.0, hi.0 p.1, d, IsKey-bounds v),
    omega (arith, lo.0 p.0, hi.0 p.1, d, IsKey-bounds v),
  ),
  λ p. (lo.1 (omega (arith, p)), hi.1 (rw (← p.0, ← p.1) (omega (arith, v.day_in)))),
)
  where
    d : (28 ≤ last_day_of_month y m) × (last_day_of_month y m ≤ 31)
    d = last_day_of_month_bounds y m

    first-IsKey : IsKey (day_key y m 1)
    first-IsKey = record { month_in = h; day_in = (omega arith, omega (arith, d)) }

    last-IsKey : IsKey (day_key y m (last_day_of_month y m))
    last-IsKey = record { month_in = h; day_in = (omega (arith, d), omega arith) }

    lo : (key_le (day_key y m 1) k ≡ true) ↔ (rank (day_key y m 1) ≤ rank k)
    lo = key_le_iff first-IsKey v

    hi :
        (key_le k (day_key y m (last_day_of_month y m)) ≡ true)
        ↔ (rank k ≤ rank (day_key y m (last_day_of_month y m)))
    hi = key_le_iff v last-IsKey

-- The stored ends of a month read back as its first and last day.
pub month_bounds_dates :
    (y m : ℕ)
    → m < 12
    → IsFull y
    → let b = month_bounds y m in
      (day_key_of_date b.start ≡ b.start_key) × (day_key_of_date b.end ≡ b.end_key)
unfolding month_bounds
month_bounds_dates y m h f =
    let d = last_day_of_month_bounds y m in
    (
      day_key_of_date-day_key_to_date _ noon
          (record { month_in = h; day_in = (omega arith, omega arith) }) f,
      day_key_of_date-day_key_to_date _ noon
          (record { month_in = h; day_in = (omega arith, omega arith) }) f,
    )
