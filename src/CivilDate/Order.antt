-- ===== src/CivilDate/Order.antt =====
-- Valid day keys and their order. `rank` is a number that orders valid keys as their texts are
-- ordered; it moves by 31 from month to month, which makes the closing days of cards linear.
use demanage.Prelude.{ℕ, ◌+◌, ◌-◌, ◌*◌, ◌≤◌, ◌<◌, ◌≡◌, ◌↔◌, true, false, arith, ltb, leb}
use demanage.CivilDate.{
  DayKey, day_key, last_day_of_month, clamp_day_to_month, key_lt, key_gt, key_le,
}
use demanage.CivilDate.Years.{days_in_month_bounds, utc_year}

-- What `parseDayKey` accepts.
pub record IsKey (k : DayKey) : Type 0 where
  pub month_in : k.month_index < 12
  pub day_in : (1 ≤ k.day) × (k.day ≤ last_day_of_month k.year k.month_index)

pub last_day_of_month_bounds :
    (y m : ℕ) → (28 ≤ last_day_of_month y m) × (last_day_of_month y m ≤ 31)
unfolding last_day_of_month
last_day_of_month_bounds y m = days_in_month_bounds (utc_year y) m

-- The clamped day is a day of the month, and the wanted day where the month has it.
pub clamp_day_to_month_lem :
    (y m d : ℕ)
    → (1 ≤ clamp_day_to_month y m d)
      × (clamp_day_to_month y m d ≤ last_day_of_month y m)
      × (1 ≤ d → d ≤ last_day_of_month y m → clamp_day_to_month y m d ≡ d)
unfolding clamp_day_to_month
clamp_day_to_month_lem y m d =
    let b = last_day_of_month_bounds y m in (omega arith, omega arith, λ h g. omega arith)

pub clamp_day_to_month-IsKey : (y m d : ℕ) → m < 12 → IsKey (day_key y m (clamp_day_to_month y m d))
clamp_day_to_month-IsKey y m d h =
    let c = clamp_day_to_month_lem y m d in record { month_in = h; day_in = (c.0, c.1) }

abbrev pub rank : DayKey → ℕ
rank k = 372 * k.year + 31 * k.month_index + (k.day - 1)

-- What the order needs to know of a key.
pub IsKey-bounds : {k : DayKey} → IsKey k → (k.month_index < 12) × (1 ≤ k.day) × (k.day ≤ 31)
IsKey-bounds {k} v =
    let b = last_day_of_month_bounds k.year k.month_index in omega (arith, v.month_in, v.day_in)

module _ {a b : DayKey} (va : IsKey a) (vb : IsKey b) where
  -- Comparing the texts compares the ranks.
  pub key_lt-rank : key_lt a b ≡ ltb (rank a) (rank b)
  unfolding key_lt
  key_lt-rank = ground (arith, IsKey-bounds va, IsKey-bounds vb)

  pub key_gt-rank : key_gt a b ≡ ltb (rank b) (rank a)
  unfolding key_gt key_lt
  key_gt-rank = ground (arith, IsKey-bounds va, IsKey-bounds vb)

  pub key_le-rank : key_le a b ≡ leb (rank a) (rank b)
  unfolding key_le key_lt
  key_le-rank = ground (arith, IsKey-bounds va, IsKey-bounds vb)

  pub rank_inj : rank a ≡ rank b → a ≡ b
  rank_inj e = ground (arith, IsKey-bounds va, IsKey-bounds vb)

  pub key_le_iff : (key_le a b ≡ true) ↔ (rank a ≤ rank b)
  key_le_iff = rw key_le-rank (ground arith)

  pub key_gt_iff : (key_gt a b ≡ true) ↔ (rank b < rank a)
  key_gt_iff = rw key_gt-rank (ground arith)

  pub key_lt_iff : (key_lt a b ≡ true) ↔ (rank a < rank b)
  key_lt_iff = rw key_lt-rank (ground arith)

  pub key_gt-false : key_gt a b ≡ false → rank a ≤ rank b
  key_gt-false e = ground (arith, key_gt-rank)

  pub key_gt_of_le : rank a ≤ rank b → key_gt a b ≡ false
  key_gt_of_le h = ground (arith, key_gt-rank)

  pub key_lt-false : key_lt a b ≡ false → rank b ≤ rank a
  key_lt-false e = ground (arith, key_lt-rank)

  pub key_lt_of_le : rank b ≤ rank a → key_lt a b ≡ false
  key_lt_of_le h = ground (arith, key_lt-rank)
