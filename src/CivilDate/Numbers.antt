-- ===== src/CivilDate/Numbers.antt =====
-- Day keys and day numbers: `dayNumber`, `dayKeyFromNumber` and what is built from them.
use demanage.Prelude.{
  ℕ, suc, ◌+◌, ◌-◌, ◌*◌, ◌/◌, ◌≤◌, ◌<◌, ◌≡◌, sym, ap, ◌∙◌, ◌↔◌, true, arith, dec_lt, dec_le, lt→ltb,
}
use demanage.Prelude.Int.{ℤ, pos, negsuc, ◌+ℤ◌}
use demanage.CivilDate.{
  DayKey, day_key, key_lt, last_day_of_month, day_number, day_key_from_number, DateConvention,
  add_days_to_key, noon, midnight, day_key_to_date, day_key_of_date, ms_per_day,
}
use demanage.CivilDate.Years.{
  utc_year, days_in_month, days_in_year, days_before_year, days_before_month, year_of_day,
  month_of_day, year_of_day_lem, month_of_day_lem, days_before_year-suc, days_before_month-suc,
  twelve_months, days_before_year_mono, days_before_month_mono,
}
use demanage.CivilDate.Order.{IsKey, rank, key_lt-rank, rank_inj}

-- `Date.UTC` takes the year as it stands.
abbrev pub IsFull : ℕ → Type 0
IsFull y = 100 ≤ y

pub utc_year_full : (y : ℕ) → IsFull y → utc_year y ≡ y
unfolding utc_year
utc_year_full y h = ground arith

pub day_number_lem :
    (k : DayKey)
    → IsFull k.year
    → day_number k ≡ days_before_year k.year + days_before_month k.year k.month_index + (k.day - 1)
unfolding day_number
day_number_lem k h = rw (utc_year_full k.year h)

last_day_lem : (y m : ℕ) → IsFull y → last_day_of_month y m ≡ days_in_month y m
unfolding last_day_of_month
last_day_lem y m h = rw (utc_year_full y h)

-- The day of the year, from 0, lies in its month and its year.
day_of_year_range :
    (k : DayKey)
    → IsKey k
    → IsFull k.year
    → days_before_month k.year k.month_index + (k.day - 1) < days_in_year k.year
day_of_year_range k v h = omega (
  arith,
  v.month_in,
  v.day_in,
  last_day_lem k.year k.month_index h,
  days_before_month-suc k.year k.month_index,
  days_before_month_mono k.year (suc k.month_index) 12 v.month_in,
  twelve_months k.year,
)

day_number-key_lt :
    (a b : DayKey)
    → IsKey a
    → IsKey b
    → IsFull a.year
    → key_lt a b ≡ true
    → day_number a < day_number b
unfolding key_lt
day_number-key_lt a b va vb h lt = ground (
  arith,
  day_number_lem a h,
  day_number_lem b,
  va.day_in,
  va.month_in,
  last_day_lem a.year a.month_index h,
  day_of_year_range a va h,
  days_before_year-suc a.year,
  days_before_year_mono (suc a.year) b.year,
  days_before_month-suc a.year a.month_index,
  days_before_month_mono b.year (suc a.month_index) b.month_index,
)

pub full_number : (k : DayKey) → IsKey k → IsFull k.year → days_before_year 100 ≤ day_number k
full_number k v h = omega (arith, day_number_lem k h, days_before_year_mono 100 k.year h)

-- A later key has a greater day number.
pub day_number_mono :
    (a b : DayKey)
    → IsKey a
    → IsKey b
    → IsFull a.year
    → rank a < rank b
    → day_number a < day_number b
day_number_mono a b va vb h lt = day_number-key_lt a b va vb h (key_lt-rank va vb ∙ lt→ltb _ _ lt)

-- Valid days of the year 100 or later come in the order of their numbers.
pub day_number-rank :
    (a b : DayKey)
    → IsKey a
    → IsKey b
    → IsFull a.year
    → IsFull b.year
    → (rank a < rank b) ↔ (day_number a < day_number b)
day_number-rank a b va vb ha hb = (
  day_number_mono a b va vb ha,
  λ lt. elim (dec_lt (rank a) (rank b)) [
    | yes p ↦ p
    | no p ↦ elim (dec_lt (rank b) (rank a)) [
      | yes q ↦ absurd (omega (arith, day_number_mono b a vb va hb q))
      | no q ↦ absurd (omega (arith, ap day_number (rank_inj va vb (omega arith))))
    ]
  ],
)

pub day_number_inj :
    (a b : DayKey)
    → IsKey a
    → IsKey b
    → IsFull a.year
    → IsFull b.year
    → day_number a ≡ day_number b
    → a ≡ b
day_number_inj a b va vb ha hb e =
    rank_inj va vb (grind (arith, day_number-rank a b va vb ha hb, day_number-rank b a vb va hb))

year_of_day-IsFull : (n : ℕ) → days_before_year 100 ≤ n → IsFull (year_of_day n)
year_of_day-IsFull n h = elim (dec_le 100 (year_of_day n)) [
  | yes p ↦ p
  | no p ↦ absurd (
      omega
        (arith, year_of_day_lem n, days_before_year_mono (suc (year_of_day n)) 100 (omega arith)))
]

-- A day number from the year 100 on has a valid key, and the key has that day number.
pub day_key_from_number_lem :
    (n : ℕ)
    → days_before_year 100 ≤ n
    → let k = day_key_from_number n in IsKey k × IsFull k.year × (day_number k ≡ n)
unfolding day_key_from_number
day_key_from_number_lem n h = (
  record {
    month_in = month.2;
    day_in = (omega arith, omega (arith, month, last_day_lem y m full, days_before_month-suc y m));
  },
  full,
  day_number_lem (day_key y m (r - days_before_month y m + 1)) full ∙ omega (arith, start, month),
)
  where
    y : ℕ
    y = year_of_day n

    full : IsFull y
    full = year_of_day-IsFull n h

    r : ℕ
    r = n - days_before_year y

    m : ℕ
    m = month_of_day y r

    start : (days_before_year y ≤ n) × (n < days_before_year (suc y))
    start = year_of_day_lem n

    month : (days_before_month y m ≤ r) × (r < days_before_month y (suc m)) × (m < 12)
    month = month_of_day_lem y r (omega (arith, start, days_before_year-suc y))

-- A valid day of the year 100 or later is the day of its number.
pub day_key_from_number-day_number :
    (k : DayKey) → IsKey k → IsFull k.year → day_key_from_number (day_number k) ≡ k
day_key_from_number-day_number k v h =
    let (v', h', e) = day_key_from_number_lem (day_number k) (full_number k v h) in
    day_number_inj _ k v' v h' h e

-- A valid day of the year 100 or later is read back from its date, by either convention.
pub day_key_of_date-day_key_to_date :
    (k : DayKey) (c : DateConvention)
    → IsKey k
    → IsFull k.year
    → day_key_of_date (day_key_to_date k c) ≡ k
unfolding day_key_of_date day_key_to_date
day_key_of_date-day_key_to_date k noon v h =
    let e : (day_number k * ms_per_day + 12 * 3_600_000) / ms_per_day ≡ day_number k =
      omega arith in
    rw e (day_key_from_number-day_number k v h)
day_key_of_date-day_key_to_date k midnight v h =
    let e : (day_number k * ms_per_day + 0) / ms_per_day ≡ day_number k = omega arith in
    rw e (day_key_from_number-day_number k v h)

-- `addDaysToKey` moves the day number by the days wanted, and ends on a valid key.
pub add_days_to_key_lem :
    (k : DayKey) (n : ℤ) (m : ℕ)
    → pos (day_number k) +ℤ n ≡ pos m
    → days_before_year 100 ≤ m
    → let j = add_days_to_key k n in IsKey j × IsFull j.year × (day_number j ≡ m)
unfolding add_days_to_key
add_days_to_key_lem k n m e h = rw e (day_key_from_number_lem m h)

pub add_days_to_key_pos :
    (k : DayKey) (a : ℕ) → add_days_to_key k (pos a) ≡ day_key_from_number (day_number k + a)
unfolding add_days_to_key ◌+ℤ◌
add_days_to_key_pos k a = ground arith

pub add_days_to_key_neg :
    (k : DayKey) (a : ℕ) → add_days_to_key k (negsuc a) ≡ day_key_from_number (day_number k - suc a)
unfolding add_days_to_key ◌+ℤ◌
add_days_to_key_neg k a = ground arith

-- Moving forward from a full year stays on valid keys of full years.
pub add_days_to_key_forward :
    (k : DayKey) (a : ℕ)
    → IsKey k
    → IsFull k.year
    → let j = add_days_to_key k (pos a) in
      IsKey j × IsFull j.year × (day_number j ≡ day_number k + a)
add_days_to_key_forward k a v h =
    rw (add_days_to_key_pos k a)
      (day_key_from_number_lem (day_number k + a) (omega (arith, full_number k v h)))

-- To move a valid day of the year 100 or later on by two numbers of days is to move it on by
-- their sum.
pub add_days_to_key_add :
    (k : DayKey) (a b : ℕ)
    → IsKey k
    → IsFull k.year
    → add_days_to_key (add_days_to_key k (pos a)) (pos b) ≡ add_days_to_key k (pos (a + b))
add_days_to_key_add k a b v h =
    let (vj, hj, ej) = add_days_to_key_forward k a v h in
    add_days_to_key_pos _ b
    ∙ ap day_key_from_number (omega (arith, ej))
    ∙ sym (add_days_to_key_pos k (a + b))

-- To move a valid day of the year 100 or later on, and back by as many days, changes nothing.
pub add_days_to_key_back :
    (k : DayKey) (a : ℕ)
    → IsKey k
    → IsFull k.year
    → add_days_to_key (add_days_to_key k (pos (suc a))) (negsuc a) ≡ k
add_days_to_key_back k a v h =
    let (vj, hj, ej) = add_days_to_key_forward k (suc a) v h in
    add_days_to_key_neg _ a
    ∙ ap day_key_from_number (omega (arith, ej))
    ∙ day_key_from_number-day_number k v h
