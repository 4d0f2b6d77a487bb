-- ===== src/Tests/Model.antt =====
-- Decimals and a time zone that meet the laws which the theorems take: whole numbers, and the offset
-- of three hours.
use demanage.Prelude.{◌+◌, ◌-◌, ◌*◌, ◌/◌, ◌≡◌, refl, arith}
use demanage.Prelude.Int.{ℤ, pos, pos_part, ◌+ℤ◌, ◌-ℤ◌, ◌*ℤ◌, ltb_ℤ, eq_ℤ}
use demanage.Prelude.Decimals.{Decimals, IsExact}
use demanage.CivilDate.{
  DayKey, Instant, noon, ms_per_day, ms_per_hour, day_key_of_date, day_key_to_date, day_number,
}
use demanage.CivilDate.Years.{days_before_year}
use demanage.CivilDate.Numbers.{day_key_from_number_lem, day_key_from_number-day_number}
use demanage.CivilDate.Zone.{IsZone, IsDated, IsFullKey}

abbrev pub whole : Decimals
whole = record {
  Decimal = ℤ;
  of_ℕ = pos;
  plus = ◌+ℤ◌;
  minus = ◌-ℤ◌;
  times = ◌*ℤ◌;
  over = λ a b. pos (pos_part a / pos_part b);
  negated = λ a. pos 0 -ℤ a;
  lt = ltb_ℤ;
  eq = eq_ℤ;
  to_money = λ a. a;
  to_quantity = λ a. a;
  to_interest = λ a. a;
  cents_down = λ a. pos (pos_part a / 100 * 100);
  cent = pos 100;
}

abbrev pub whole-IsExact : IsExact whole
whole-IsExact = record {
  scaled = λ a. a;
  scaled_inj = λ a b e. e;
  scaled-zero = refl;
  scaled-plus = λ a b. refl;
  scaled-minus = λ a b. refl;
  scaled-negated = λ a. refl;
  scaled-times = λ a n. refl;
  lt-scaled = λ a b. refl;
  eq-scaled = λ a b. refl;
}

unfoldable pub three_hours_back : Instant → DayKey
unfolding day_key_of_date
three_hours_back t = day_key_of_date (t - 3 * ms_per_hour)

valid : (t : Instant) → IsDated t → IsFullKey (three_hours_back t)
unfolding three_hours_back days_before_year
valid t h =
    let v = day_key_from_number_lem ((t - 3 * ms_per_hour) / ms_per_day) (omega arith) in (v.0, v.1)

keeps_noon : (k : DayKey) → IsFullKey k → three_hours_back (day_key_to_date k noon) ≡ k
unfolding three_hours_back day_key_to_date
keeps_noon k v =
    let e : (day_number k * ms_per_day + 12 * 3_600_000 - 3 * ms_per_hour) / ms_per_day
        ≡ day_number k =
      omega arith in
    rw e (day_key_from_number-day_number k v.0 v.1)

pub three_hours_back-IsZone : IsZone three_hours_back
three_hours_back-IsZone = record { valid = valid; keeps_noon = keeps_noon }
