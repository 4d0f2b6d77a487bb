-- ===== src/Billing/Occurrences.antt =====
-- How often an expense charges a card in a billing cycle (`backend/src/lib/billing/charges.ts`).
-- `dayKeyInSaoPaulo` reads a time zone that the code does not hold: it is the parameter `zone`.
pub mod Weekly
pub mod MonthDays
pub mod Monthly
pub mod Cycles
pub mod Bounds
use demanage.Prelude.{
  ℕ, zero, suc, ◌+◌, ◌-◌, ◌*◌, ◌/◌, ◌%◌, max, Bool, true, false, not, ◌&&◌, ◌||◌, Option, none,
  some, ltb, leb, ◌==◌, if◌then◌else◌,
}
use demanage.Prelude.Int.{ℤ, pos, negsuc, pos_part}
use demanage.CivilDate.{
  DayKey, day_key, Instant, clamp_day_to_month, key_gt, key_lt, key_le, day_number, diff_days,
  add_days_to_key, weekday_of_key, day_key_of_date, next_year, next_month,
}
use demanage.Billing.Expense.{
  BillableExpense, Frequency, unica, semanal, mensal, CycleWindow, is_unica, is_semanal,
}

-- `compareDayKeys(lo, anchor) >= 0 ? lo : anchor`.
abbrev pub later_key : DayKey → DayKey → DayKey
later_key lo anchor = if not (key_lt lo anchor) then lo else anchor

unfoldable pub count_weekly_occurrences : DayKey → DayKey → DayKey → ℕ
count_weekly_occurrences anchor lo hi =
    let first = later_key lo anchor in
    let shift = (weekday_of_key anchor + 7 - weekday_of_key first) % 7 in
    let first_occurrence = add_days_to_key first (pos shift) in
    if key_gt first hi
    then 0
    else if key_gt first_occurrence hi
    then 0
    else pos_part (diff_days hi first_occurrence) / 7 + 1

-- The day of the month of a monthly charge.
unfoldable pub monthly_day : DayKey → Option ℕ → ℕ
monthly_day anchor none = anchor.day
monthly_day anchor (some d) = if leb 1 d && leb d 31 then d else anchor.day

-- The loop of `countMonthlyOccurrences` at a month, with its counter; `rounds` bounds its rounds.
unfoldable pub count_months : ℕ → DayKey → DayKey → ℕ → ℕ → ℕ → ℕ → ℕ
count_months zero lo hi day y m count = count
count_months (suc rounds) lo hi day y m count =
    let occurrence = day_key y m (clamp_day_to_month y m day) in
    let hit = not (key_lt occurrence lo) && key_le occurrence hi in
    let rest =
      count_months rounds lo hi day (next_year y m) (next_month m)
        (if hit then count + 1 else count) in
    if ltb y hi.year || ((y == hi.year) && leb m hi.month_index) then rest else count

-- Enough rounds for the months from `lo` to `hi`.
abbrev pub month_rounds : DayKey → DayKey → ℕ
month_rounds lo hi = suc (12 * hi.year + hi.month_index) - (12 * lo.year + lo.month_index)

unfoldable pub count_monthly_occurrences : DayKey → DayKey → DayKey → Option ℕ → ℕ
count_monthly_occurrences anchor lo hi due_day =
    let from = later_key lo anchor in
    if key_gt from hi
    then 0
    else count_months (month_rounds from hi) from hi (monthly_day anchor due_day) from.year
        from.month_index 0

-- The first day that a cycle charges.
unfoldable pub lower_inclusive : CycleWindow → DayKey
lower_inclusive w =
    if w.include_period_start
    then w.period_start_key
    else add_days_to_key w.period_start_key (pos 1)

-- `hi`, or `limit` where there is one and it is earlier.
abbrev pub capped : DayKey → Option DayKey → DayKey
capped hi none = hi
capped hi (some limit) = if key_lt limit hi then limit else hi

module _ {D : Type 0} (zone : Instant → DayKey) where
  unfoldable pub recurring_start_key : BillableExpense D → DayKey
  recurring_start_key e = elim e.starts_at [ none ↦ zone e.created_at | some t ↦ day_key_of_date t ]

  unfoldable pub one_off_key : BillableExpense D → DayKey
  one_off_key e = elim e.occurred_at [ none ↦ zone e.created_at | some t ↦ zone t ]

  -- The last day that a recurring expense charges in the cycle.
  unfoldable pub last_charge_key : BillableExpense D → DayKey → DayKey
  last_charge_key e closing =
      capped (capped closing (elim e.ends_at [ none ↦ none | some t ↦ some (day_key_of_date t) ]))
        (elim e.archived_at [ none ↦ none | some t ↦ some (zone t) ])

  unfoldable pub charge_occurrences : BillableExpense D → CycleWindow → ℕ
  charge_occurrences e w =
      let lower = lower_inclusive w in
      let key = one_off_key e in
      let hi = last_charge_key e w.closing_key in
      if e.is_invoice
      then 0
      else if is_unica e.frequency
      then (if not (key_lt key lower) && key_le key w.closing_key then 1 else 0)
      else if key_gt lower hi
      then 0
      else if is_semanal e.frequency
      then count_weekly_occurrences (recurring_start_key e) lower hi
      else count_monthly_occurrences (recurring_start_key e) lower hi e.due_day

-- The most charges that one expense makes in a normal cycle.
unfoldable pub max_charges_per_cycle : Frequency → ℕ
max_charges_per_cycle semanal = 5
max_charges_per_cycle _ = 1

-- `-i`.
abbrev minus_days : ℕ → ℤ
minus_days zero = pos 0
minus_days (suc n) = negsuc n

-- The loop of the seven weekdays, from `i` on.
unfoldable pub worst_weekly : ℕ → ℕ → DayKey → DayKey → ℕ → ℕ
worst_weekly zero i lo hi worst = worst
worst_weekly (suc rounds) i lo hi worst =
    worst_weekly rounds (i + 1) lo hi
      (max worst (count_weekly_occurrences (add_days_to_key lo (minus_days i)) lo hi))

-- The loop of the days 1 to 31 of the January before.
unfoldable pub worst_monthly : ℕ → ℕ → DayKey → DayKey → ℕ → ℕ
worst_monthly zero d lo hi worst = worst
worst_monthly (suc rounds) d lo hi worst =
    worst_monthly rounds (d + 1) lo hi
      (max worst (count_monthly_occurrences (day_key (lo.year - 1) 0 d) lo hi none))

unfoldable pub worst_case_charges_in_window : Frequency → CycleWindow → ℕ
unfolding worst_weekly worst_monthly
worst_case_charges_in_window unica w = 1
worst_case_charges_in_window semanal w =
    let lo = lower_inclusive w in
    if key_gt lo w.closing_key then 0 else worst_weekly 7 0 lo w.closing_key 0
worst_case_charges_in_window mensal w =
    let lo = lower_inclusive w in
    if key_gt lo w.closing_key then 0 else worst_monthly 31 1 lo w.closing_key 0
worst_case_charges_in_window Frequency.other w =
    let lo = lower_inclusive w in if key_gt lo w.closing_key then 0 else 1

pub record MaxCharges : Type 0 where
  pub unica : ℕ
  pub mensal : ℕ
  pub semanal : ℕ

unfoldable pub max_charges_for_window : CycleWindow → MaxCharges
max_charges_for_window w = record {
  unica = 1;
  mensal = max (max_charges_per_cycle mensal) (worst_case_charges_in_window mensal w);
  semanal = max (max_charges_per_cycle semanal) (worst_case_charges_in_window semanal w);
}
