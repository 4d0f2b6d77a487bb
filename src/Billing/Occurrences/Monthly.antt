-- ===== src/Billing/Occurrences/Monthly.antt =====
-- `countMonthlyOccurrences` (`backend/src/lib/billing/charges.ts`) and the days on which a monthly
-- charge falls.
use native.Mathlib.Nat.{zero-add}
use demanage.Prelude.{
  ℕ, zero, suc, ◌+◌, ◌-◌, ◌*◌, ◌<◌, ◌≡◌, refl, ◌∙◌, inl, inr, Bool, not, ◌&&◌, ◌||◌, Option, arith,
  Bool-cases, ltb, leb, ◌==◌, if◌then◌else◌, max, dec_lt,
}
use demanage.Prelude.Counting.{count_between, count_from-append, count_between-anchor}
use demanage.CivilDate.{
  DayKey, day_key, day_number, last_day_of_month, clamp_day_to_month, key_gt, key_lt, key_le,
  next_year, next_month,
}
use demanage.CivilDate.Order.{
  IsKey, IsKey-bounds, clamp_day_to_month_lem, clamp_day_to_month-IsKey, last_day_of_month_bounds,
}
use demanage.CivilDate.Numbers.{IsFull, day_number-rank}
use demanage.Billing.Occurrences.{
  count_months, count_monthly_occurrences, monthly_day, later_key, month_rounds,
}
use demanage.Billing.Calendar.Closings.{next_month_lem}
use demanage.Billing.Occurrences.Weekly.{
  key_gt-number, key_lt-number, later_key_number, later_key-IsKey,
}
use demanage.Billing.Occurrences.MonthDays.{
  month_start, month_start_day, month_start-next, on_day, count_in_month,
}

-- A day on which a monthly charge with this anchor falls.
abbrev pub falls_monthly : DayKey → Option ℕ → ℕ → Bool
falls_monthly anchor due_day n = leb (day_number anchor) n && on_day (monthly_day anchor due_day) n

-- The test of the loop compares the months.
loop_test :
    (y m : ℕ) (hi : DayKey)
    → m < 12
    → hi.month_index < 12
    → (ltb y hi.year || ((y == hi.year) && leb m hi.month_index))
      ≡ leb (12 * y + m) (12 * hi.year + hi.month_index)
loop_test y m hi h k = ground arith

first-IsKey : (y m : ℕ) → m < 12 → IsKey (day_key y m 1)
first-IsKey y m h = record {
  month_in = h;
  day_in = (omega arith, omega (arith, last_day_of_month_bounds y m));
}

-- A key stands on or after the first day of its month and of the months before, and before that
-- of the months after.
month_start-le :
    (y m : ℕ) (k : DayKey)
    → m < 12
    → IsFull y
    → IsKey k
    → IsFull k.year
    → leb (12 * y + m) (12 * k.year + k.month_index) ≡ leb (month_start y m) (day_number k)
month_start-le y m k h f v g =
    ground (arith, IsKey-bounds v, day_number-rank k (day_key y m 1) v (first-IsKey y m h) g f)

bump : (b : Bool) (count : ℕ) → (if b then count + 1 else count) ≡ count + (if b then 1 else 0)
bump b count = ground arith

module _ {lo hi : DayKey} (vl : IsKey lo) (vh : IsKey hi) (fl : IsFull lo.year)
    (fh : IsFull hi.year) (d : ℕ) where
  -- The test of one month.
  hit_number :
      (y m : ℕ)
      → m < 12
      → IsFull y
      → let k = day_key y m (clamp_day_to_month y m d) in
        let o = month_start y m + (clamp_day_to_month y m d - 1) in
        (not (key_lt k lo) && key_le k hi) ≡ (leb (day_number lo) o && leb o (day_number hi))
  unfolding key_le
  hit_number y m h f =
      let k = day_key y m (clamp_day_to_month y m d) in
      let vk = clamp_day_to_month-IsKey y m d h in
      let b = clamp_day_to_month_lem y m d in
      rw
        (
          key_lt-number vk vl f fl,
          key_gt-number vk vh f fh,
          month_start_day y m (clamp_day_to_month y m d) b.0,
        )
        (ground arith)

  -- The days counted by one round.
  one_month :
      (y m s : ℕ)
      → m < 12
      → IsFull y
      → s ≡ max (day_number lo) (month_start y m)
      → s < month_start y m + last_day_of_month y m
      → let next = month_start y m + last_day_of_month y m in
        let o = month_start y m + (clamp_day_to_month y m d - 1) in
        count_between (on_day d) s (day_number hi)
        ≡ (if leb (day_number lo) o && leb o (day_number hi) then 1 else 0)
          + count_between (on_day d) (max (day_number lo) next) (day_number hi)
  one_month y m s h f e before =
      let top = suc (day_number hi) in
      let next = month_start y m + last_day_of_month y m in
      let em : max (day_number lo) next ≡ next = omega arith in
      let b = clamp_day_to_month_lem y m d in
      elim (dec_lt top next) [
        | yes p ↦
            let z : top - next ≡ 0 = omega arith in
            count_in_month y m d s (top - s) h f (omega arith) (omega arith)
            ∙ rw (em, z) (ground arith)
        | no p ↦
            let split : top - s ≡ (next - s) + (top - next) = omega arith in
            let there : s + (next - s) ≡ next = omega arith in
            rw (em, split)
              (count_from-append (on_day d) s (next - s) (top - next)
                ∙ rw (there, count_in_month y m d s (next - s) h f (omega arith) (omega arith))
                    (ground arith))
      ]

  count_months_lem :
      (rounds y m count : ℕ)
      → m < 12
      → IsFull y
      → day_number lo < month_start y m + last_day_of_month y m
      → 12 * hi.year + hi.month_index < 12 * y + m + rounds
      → count_months rounds lo hi d y m count
        ≡ count + count_between (on_day d) (max (day_number lo) (month_start y m)) (day_number hi)
  unfolding count_months
  count_months_lem zero y m count h f before few =
      let past : day_number hi < month_start y m =
        ground (arith, month_start-le y m hi h f vh fh) in
      let z : suc (day_number hi) - max (day_number lo) (month_start y m) ≡ 0 = omega arith in
      rw z (omega arith)
  count_months_lem (suc rounds) y m count h f before few =
      let b = last_day_of_month_bounds y m in
      let step = next_month_lem y m h in
      let f' : IsFull (next_year y m) = ground arith in
      let next = month_start-next y m h f in
      let hit =
        not (key_lt (day_key y m (clamp_day_to_month y m d)) lo)
        && key_le (day_key y m (clamp_day_to_month y m d)) hi in
      let ih =
        count_months_lem rounds (next_year y m) (next_month m) (if hit then count + 1 else count)
          step.1 f' (omega (arith, last_day_of_month_bounds (next_year y m) (next_month m)))
          (omega arith) in
      elim (Bool-cases (leb (12 * y + m) (12 * hi.year + hi.month_index))) [
        | inl inside ↦
            rw (loop_test y m hi h vh.month_in, inside)
              (ih
                ∙ rw (next, hit_number y m h f, bump)
                    (omega (arith, one_month y m _ h f refl (omega arith))))
        | inr past ↦
            let past' : day_number hi < month_start y m =
              ground (arith, month_start-le y m hi h f vh fh) in
            let z : suc (day_number hi) - max (day_number lo) (month_start y m) ≡ 0 = omega arith in
            rw (loop_test y m hi h vh.month_in, past) (rw z (omega arith))
      ]

module _ {anchor lo hi : DayKey} (va : IsKey anchor) (vl : IsKey lo) (vh : IsKey hi)
    (fa : IsFull anchor.year) (fl : IsFull lo.year) (fh : IsFull hi.year) where
  -- The monthly count, by a loop over months, is the number of the days from `lo` to `hi` that
  -- are not before the anchor and are the due day of their month, clamped to the month; the
  -- three are valid days of the year 100 or later.
  pub count_monthly_occurrences_lem :
      (due_day : Option ℕ)
      → count_monthly_occurrences anchor lo hi due_day
        ≡ count_between (falls_monthly anchor due_day) (day_number lo) (day_number hi)
  unfolding count_monthly_occurrences
  count_monthly_occurrences_lem due_day =
      let from = later_key lo anchor in
      let d = monthly_day anchor due_day in
      let (vf, ff) = later_key-IsKey vl va fl fa in
      let n = later_key_number vl va fl fa in
      let tail =
        count_between-anchor (on_day d) (day_number anchor) (day_number lo) (day_number hi)
          (day_number from) n in
      let b = last_day_of_month_bounds from.year from.month_index in
      let start = month_start_day from.year from.month_index from.day vf.day_in.0 in
      let m : max (day_number from) (month_start from.year from.month_index) ≡ day_number from =
        omega arith in
      elim (Bool-cases (key_gt from hi)) [
        | inl past ↦
            let z : suc (day_number hi) - day_number from ≡ 0 =
              ground (arith, key_gt-number vf vh ff fh) in
            rw past (rw z at tail)
        | inr open_ ↦ rw open_ (
            count_months_lem vf vh ff fh d (month_rounds from hi) from.year from.month_index 0
              vf.month_in ff (omega (arith, vf.day_in)) (omega (arith, vf.month_in))
            ∙ rw (m, zero-add) tail)
      ]
