-- ===== src/Billing/Occurrences/Weekly.antt =====
-- `countWeeklyOccurrences` (`backend/src/lib/billing/charges.ts`) and the days on which a weekly
-- charge falls.
use demanage.Prelude.{
  ℕ, suc, ◌+◌, ◌-◌, ◌/◌, ◌%◌, ◌≡◌, sym, ◌∙◌, inl, inr, Bool, ◌&&◌, arith, Bool-cases, ltb, leb,
  ◌==◌, if◌then◌else◌,
}
use demanage.Prelude.Int.{◌-ℤ◌}
use demanage.Prelude.Counting.{count_between, count_from-weekly, count_between-anchor}
use demanage.CivilDate.{DayKey, day_number, weekday_of_key, key_gt, key_lt, key_le, diff_days}
use demanage.CivilDate.Order.{IsKey, key_gt-rank, key_lt-rank}
use demanage.CivilDate.Numbers.{IsFull, day_number-rank, add_days_to_key_forward}
use demanage.Billing.Occurrences.{count_weekly_occurrences, later_key}

-- A day on which a weekly charge with this anchor falls.
abbrev pub falls_weekly : DayKey → ℕ → Bool
falls_weekly anchor n = leb (day_number anchor) n && (n % 7 == day_number anchor % 7)

module _ {a b : DayKey} (va : IsKey a) (vb : IsKey b) (ha : IsFull a.year)
    (hb : IsFull b.year) where
  -- The order of keys is that of their day numbers.
  pub key_gt-number : key_gt a b ≡ ltb (day_number b) (day_number a)
  key_gt-number = ground (arith, key_gt-rank va vb, day_number-rank b a vb va hb ha)

  pub key_lt-number : key_lt a b ≡ ltb (day_number a) (day_number b)
  key_lt-number = ground (arith, key_lt-rank va vb, day_number-rank a b va vb ha hb)

  pub key_le-number : key_le a b ≡ leb (day_number a) (day_number b)
  unfolding key_le
  key_le-number = ground (arith, key_gt-number)

  pub later_key_number :
      (day_number (later_key a b)
        ≡ (if ltb (day_number a) (day_number b) then day_number b else day_number a))
  later_key_number = ground (arith, key_lt-number)

  pub later_key-IsKey : IsKey (later_key a b) × IsFull (later_key a b).year
  later_key-IsKey = elim (Bool-cases (key_lt a b)) [ inl e ↦ rw e (vb, hb) | inr e ↦ rw e (va, ha) ]

weekly_count :
    (a lo hi first : ℕ)
    → first ≡ (if ltb lo a then a else lo)
    → let shift = (a % 7 + 7 - first % 7) % 7 in
      let len = suc hi - first in
      (if leb len shift then 0 else (len - shift - 1) / 7 + 1)
      ≡ count_between (λ n. leb a n && (n % 7 == a % 7)) lo hi
weekly_count a lo hi first e =
    sym (count_from-weekly (a % 7) first (suc hi - first) (omega arith))
    ∙ count_between-anchor (λ n. n % 7 == a % 7) a lo hi first e

module _ {anchor lo hi : DayKey} (va : IsKey anchor) (vl : IsKey lo) (vh : IsKey hi)
    (fa : IsFull anchor.year) (fl : IsFull lo.year) (fh : IsFull hi.year) where
  -- From the later of the two on, in day numbers.
  count_weekly_number :
      let first = day_number (later_key lo anchor) in
      let shift = (day_number anchor % 7 + 7 - first % 7) % 7 in
      let len = suc (day_number hi) - first in
      count_weekly_occurrences anchor lo hi
      ≡ (if leb len shift then 0 else (len - shift - 1) / 7 + 1)
  unfolding count_weekly_occurrences weekday_of_key diff_days ◌-ℤ◌
  count_weekly_number =
      let first = later_key lo anchor in
      let shift = ((day_number anchor + 6) % 7 + 7 - (day_number first + 6) % 7) % 7 in
      let (vf, ff) = later_key-IsKey vl va fl fa in
      let (vs, fs, es) = add_days_to_key_forward first shift vf ff in
      let e : shift ≡ (day_number anchor % 7 + 7 - day_number first % 7) % 7 = omega arith in
      rw (key_gt-number vf vh ff fh, key_gt-number vs vh fs fh, es, e) (ground arith)

  -- The weekly count, by division, is the number of the days from `lo` to `hi` that are not
  -- before the anchor and have its weekday; the three are valid days of the year 100 or later.
  pub count_weekly_occurrences_lem :
      count_weekly_occurrences anchor lo hi
      ≡ count_between (falls_weekly anchor) (day_number lo) (day_number hi)
  count_weekly_occurrences_lem =
      count_weekly_number
      ∙ weekly_count (day_number anchor) (day_number lo) (day_number hi) _
          (later_key_number vl va fl fa)
