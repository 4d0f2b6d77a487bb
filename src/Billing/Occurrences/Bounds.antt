-- ===== src/Billing/Occurrences/Bounds.antt =====
-- The worst case that the limit check reserves, `maxChargesForWindow`
-- (`backend/src/lib/billing/charges.ts`).
use demanage.Prelude.{
  ℕ, zero, suc, ◌+◌, ◌-◌, ◌%◌, ◌≤◌, ◌<◌, ◌≡◌, ◌≢◌, refl, max, inl, inr, Bool, true, false, Option,
  none, some, arith, Bool-cases, ◌==◌,
}
use demanage.Prelude.Counting.{count_between, count_from_le}
use demanage.CivilDate.{
  DayKey, day_key, Instant, day_number, add_days_to_key, key_gt, last_day_of_month,
}
use demanage.CivilDate.Years.{days_before_year, days_in_month}
use demanage.CivilDate.Order.{IsKey, IsKey-bounds}
use demanage.CivilDate.Numbers.{
  IsFull, day_number_mono, add_days_to_key_neg, add_days_to_key_pos, utc_year_full,
  day_key_from_number_lem,
}
use demanage.CivilDate.Zone.{IsFullKey, IsZone}
use demanage.Billing.Expense.{BillableExpense, Frequency, unica, semanal, mensal, CycleWindow}
use demanage.Billing.Occurrences.{
  minus_days, count_weekly_occurrences, count_monthly_occurrences, monthly_day, worst_weekly,
  worst_monthly, worst_case_charges_in_window, max_charges_for_window, MaxCharges,
  charge_occurrences, lower_inclusive, recurring_start_key,
}
use demanage.Billing.Occurrences.Weekly.{falls_weekly, key_gt-number, count_weekly_occurrences_lem}
use demanage.Billing.Occurrences.Monthly.{falls_monthly, count_monthly_occurrences_lem}
use demanage.Billing.Occurrences.Cycles.{
  IsDatedExpense, IsWindow, lower_inclusive_lem, charges_on, charge_occurrences_lem,
  recurring_start_key-IsFullKey,
}

-- `maxCharges[frequency] ?? 1`.
abbrev pub charges_for : MaxCharges → Frequency → ℕ
charges_for m unica = m.unica
charges_for m semanal = m.semanal
charges_for m mensal = m.mensal
charges_for m Frequency.other = 1

worst_weekly_keeps :
    (rounds i : ℕ) (lo hi : DayKey) (worst : ℕ) → worst ≤ worst_weekly rounds i lo hi worst
unfolding worst_weekly
worst_weekly_keeps zero i lo hi worst = omega arith
worst_weekly_keeps (suc rounds) i lo hi worst = omega (
  arith,
  worst_weekly_keeps rounds (i + 1) lo hi
      (max worst (count_weekly_occurrences (add_days_to_key lo (minus_days i)) lo hi)),
)

worst_weekly_covers :
    (rounds i j : ℕ) (lo hi : DayKey) (worst : ℕ)
    → i ≤ j
    → j < i + rounds
    → count_weekly_occurrences (add_days_to_key lo (minus_days j)) lo hi
      ≤ worst_weekly rounds i lo hi worst
unfolding worst_weekly
worst_weekly_covers zero i j lo hi worst h k = absurd (omega arith)
worst_weekly_covers (suc rounds) i j lo hi worst h k =
    let here = max worst (count_weekly_occurrences (add_days_to_key lo (minus_days i)) lo hi) in
    elim (Bool-cases (i == j)) [
      | inl same ↦
          let e : i ≡ j = ground arith in
          rw (← e) (omega (arith, worst_weekly_keeps rounds (i + 1) lo hi here))
      | inr differ ↦ worst_weekly_covers rounds (i + 1) j lo hi here (ground arith) (omega arith)
    ]

worst_monthly_keeps :
    (rounds d : ℕ) (lo hi : DayKey) (worst : ℕ) → worst ≤ worst_monthly rounds d lo hi worst
unfolding worst_monthly
worst_monthly_keeps zero d lo hi worst = omega arith
worst_monthly_keeps (suc rounds) d lo hi worst = omega (
  arith,
  worst_monthly_keeps rounds (d + 1) lo hi
      (max worst (count_monthly_occurrences (day_key (lo.year - 1) 0 d) lo hi none)),
)

worst_monthly_covers :
    (rounds d j : ℕ) (lo hi : DayKey) (worst : ℕ)
    → d ≤ j
    → j < d + rounds
    → count_monthly_occurrences (day_key (lo.year - 1) 0 j) lo hi none
      ≤ worst_monthly rounds d lo hi worst
unfolding worst_monthly
worst_monthly_covers zero d j lo hi worst h k = absurd (omega arith)
worst_monthly_covers (suc rounds) d j lo hi worst h k =
    let here = max worst (count_monthly_occurrences (day_key (lo.year - 1) 0 d) lo hi none) in
    elim (Bool-cases (d == j)) [
      | inl same ↦
          let e : d ≡ j = ground arith in
          rw (← e) (omega (arith, worst_monthly_keeps rounds (d + 1) lo hi here))
      | inr differ ↦ worst_monthly_covers rounds (d + 1) j lo hi here (ground arith) (omega arith)
    ]

-- The days before a key, down to the first of the year 100.
days_before :
    (k : DayKey) (i : ℕ)
    → days_before_year 100 + i ≤ day_number k
    → IsFullKey (add_days_to_key k (minus_days i))
      × (day_number (add_days_to_key k (minus_days i)) ≡ day_number k - i)
days_before k zero h = rw (add_days_to_key_pos k 0) (
    let v = day_key_from_number_lem (day_number k + 0) (omega arith) in
    ((v.0, v.1), omega (arith, v.2)))
days_before k (suc i) h =
    rw (add_days_to_key_neg k i)
      (let v = day_key_from_number_lem (day_number k - suc i) (omega arith) in ((v.0, v.1), v.2))

-- A key of the year 101 or later is more than a week after the first of the year 100.
late_number : (k : DayKey) → IsKey k → 101 ≤ k.year → days_before_year 101 ≤ day_number k
unfolding day_number days_before_year
late_number k v h = omega (arith, utc_year_full k.year (omega arith))

january : (y d : ℕ) → 1 ≤ d → d ≤ 31 → IsKey (day_key y 0 d)
unfolding last_day_of_month days_in_month
january y d lo hi = record { month_in = omega arith; day_in = (lo, hi) }

century : days_before_year 100 + 365 ≤ days_before_year 101
unfolding days_before_year
century = omega arith

-- The day of a monthly charge.
monthly_day_bounds :
    (anchor : DayKey) (due_day : Option ℕ)
    → IsKey anchor
    → (1 ≤ monthly_day anchor due_day) × (monthly_day anchor due_day ≤ 31)
unfolding monthly_day
monthly_day_bounds anchor none v = let b = IsKey-bounds v in (b.1, b.2)
monthly_day_bounds anchor (some d) v = ground (arith, IsKey-bounds v)

own_day : (anchor : DayKey) → monthly_day anchor none ≡ anchor.day
unfolding monthly_day
own_day anchor = refl

worst_case_weekly :
    (w : CycleWindow) (j : ℕ)
    → key_gt (lower_inclusive w) w.closing_key ≡ false
    → j < 7
    → count_weekly_occurrences
        (add_days_to_key (lower_inclusive w) (minus_days j))
        (lower_inclusive w)
        w.closing_key
      ≤ worst_case_charges_in_window semanal w
unfolding worst_case_charges_in_window
worst_case_weekly w j inside h =
    simp inside
      (worst_weekly_covers 7 0 j (lower_inclusive w) w.closing_key 0 (omega arith) (omega arith))

worst_case_monthly :
    (w : CycleWindow) (j : ℕ)
    → key_gt (lower_inclusive w) w.closing_key ≡ false
    → 1 ≤ j
    → j ≤ 31
    → count_monthly_occurrences
        (day_key ((lower_inclusive w).year - 1) 0 j)
        (lower_inclusive w)
        w.closing_key
        none
      ≤ worst_case_charges_in_window mensal w
unfolding worst_case_charges_in_window
worst_case_monthly w j inside lo hi =
    simp inside (worst_monthly_covers 31 1 j (lower_inclusive w) w.closing_key 0 lo (omega arith))

module _ {D : Type 0} {zone : Instant → DayKey} (z : IsZone zone) (e : BillableExpense D)
    (v : IsDatedExpense e) (w : CycleWindow) (vw : IsWindow w)
    (late : 101 ≤ (lower_inclusive w).year) where
  -- An empty window charges nothing.
  past_window :
      (n : ℕ) → key_gt (lower_inclusive w) w.closing_key ≡ true → charge_occurrences zone e w ≤ n
  past_window n past =
      let (vl, _) = lower_inclusive_lem w vw in
      let none_left : suc (day_number w.closing_key) - day_number (lower_inclusive w) ≡ 0 =
        ground (arith, key_gt-number vl.0 vw.closing.0 vl.1 vw.closing.1) in
      rw (charge_occurrences_lem z e v w vw, none_left) (omega arith)

  -- The days on which the expense charges are among those of another schedule.
  charges_among :
      (q : ℕ → Bool)
      → ((n : ℕ) → day_number (lower_inclusive w) ≤ n → charges_on zone e n ≡ true → q n ≡ true)
      → charge_occurrences zone e w
        ≤ count_between q (day_number (lower_inclusive w)) (day_number w.closing_key)
  charges_among q h =
      rw (charge_occurrences_lem z e v w vw)
        (count_from_le (charges_on zone e) q (day_number (lower_inclusive w)) _ (λ n lo hi. h n lo))

  charges_weekly :
      (n : ℕ)
      → e.frequency ≡ semanal
      → charges_on zone e n ≡ true
      → falls_weekly (recurring_start_key zone e) n ≡ true
  charges_weekly n f c = ground (arith, f, c)

  charges_monthly :
      (n : ℕ)
      → e.frequency ≡ mensal
      → charges_on zone e n ≡ true
      → falls_monthly (recurring_start_key zone e) e.due_day n ≡ true
  charges_monthly n f c = ground (arith, f, c)

  weekly_bound :
      e.frequency ≡ semanal → charge_occurrences zone e w ≤ worst_case_charges_in_window semanal w
  weekly_bound f = elim (Bool-cases (key_gt (lower_inclusive w) w.closing_key)) [
    | inl past ↦ past_window _ past
    | inr inside ↦
        let lo = lower_inclusive w in
        let (vl, _) = lower_inclusive_lem w vw in
        let a = day_number (recurring_start_key zone e) in
        let j = (day_number lo % 7 + 7 - a % 7) % 7 in
        let small : j < 7 = omega arith in
        let enough : days_before_year 100 + j ≤ day_number lo =
          omega (arith, late_number lo vl.0 late, century) in
        let (vb, eb) = days_before lo j enough in
        let anchored = count_weekly_occurrences_lem vb.0 vl.0 vw.closing.0 vb.1 vl.1 vw.closing.1 in
        let among =
          charges_among (falls_weekly (add_days_to_key lo (minus_days j)))
            (λ n from c. ground (arith, eb, charges_weekly n f c)) in
        omega (arith, anchored, among, worst_case_weekly w j inside small)
  ]

  monthly_bound :
      e.frequency ≡ mensal → charge_occurrences zone e w ≤ worst_case_charges_in_window mensal w
  monthly_bound f = elim (Bool-cases (key_gt (lower_inclusive w) w.closing_key)) [
    | inl past ↦ past_window _ past
    | inr inside ↦
        let lo = lower_inclusive w in
        let (vl, _) = lower_inclusive_lem w vw in
        let vs = recurring_start_key-IsFullKey z e v in
        let j = monthly_day (recurring_start_key zone e) e.due_day in
        let b = monthly_day_bounds (recurring_start_key zone e) e.due_day vs.0 in
        let anchor = day_key (lo.year - 1) 0 j in
        let va = january (lo.year - 1) j b.0 b.1 in
        let fa : IsFull anchor.year = omega arith in
        let before : day_number anchor < day_number lo =
          day_number_mono anchor lo va vl.0 fa
            (omega (arith, IsKey-bounds va, IsKey-bounds vl.0)) in
        let anchored =
          count_monthly_occurrences_lem va vl.0 vw.closing.0 fa vl.1 vw.closing.1 none in
        let among =
          charges_among (falls_monthly anchor none)
            (λ n from c. rw (own_day anchor) (ground (arith, before, charges_monthly n f c))) in
        omega (arith, anchored, among, worst_case_monthly w j inside b.0 b.1)
  ]

  one_off_bound : e.frequency ≡ unica → charge_occurrences zone e w ≤ 1
  unfolding charge_occurrences
  one_off_bound f = rw f (ground arith)

  -- An expense of one of the three frequencies is charged in a window at most as often as the
  -- worst case of its frequency, over seven weekdays or thirty-one days of the month, says. The
  -- zone is lawful, the expense is dated from the year 101 on, and the window is of valid days
  -- of the year 100 or later, its first day of the year 101 or later.
  pub charge_occurrences_bound :
      e.frequency ≢ Frequency.other
      → charge_occurrences zone e w ≤ charges_for (max_charges_for_window w) e.frequency
  unfolding max_charges_for_window
  charge_occurrences_bound known = go e.frequency refl
    where
      go :
          (f : Frequency)
          → e.frequency ≡ f
          → charge_occurrences zone e w ≤ charges_for (max_charges_for_window w) e.frequency
      go unica h = simp h (one_off_bound h)
      go semanal h = simp h (omega (arith, weekly_bound h))
      go mensal h = simp h (omega (arith, monthly_bound h))
      go Frequency.other h = absurd (known h)
