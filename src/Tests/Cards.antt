-- ===== src/Tests/Cards.antt =====
-- A card that closes on the 10th, with a change to the 20th waiting; a monthly expense in two
-- versions, a weekly one and a purchase.
use demanage.Prelude.{
  ℕ, ◌+◌, ◌*◌, ◌≤◌, ◌<◌, ◌≡◌, refl, arith, false, some, none, List, [], ◌∷◌, All,
}
use demanage.Prelude.Int.{ℤ, pos, ◌+ℤ◌, ◌*ℤ◌}
use demanage.Prelude.Counting.{count_between}
use demanage.Prelude.Sums.{sum_between}
use demanage.CivilDate.{
  DayKey, day_key, Instant, noon, day_key_to_date, day_key_of_date, day_number,
}
use demanage.CivilDate.Years.{days_before_year}
use demanage.CivilDate.Order.{IsKey}
use demanage.CivilDate.Zone.{IsFullKey}
use demanage.Billing.Calendar.{
  closing_day_key_in_month, closings_from, list_closing_day_keys, next_closing_on_or_after,
}
use demanage.Billing.Calendar.Closings.{
  Due, Ascends, In, month_no, list_closing_day_keys-Due, list_closing_day_keys-Ascends,
  list_closing_day_keys_complete,
}
use demanage.Billing.Calendar.Next.{IsFirst, next_closing_on_or_after-IsFirst}
use demanage.Billing.Expense.{SplitKind, BillableExpense, unica, semanal, mensal, CycleWindow}
use demanage.Billing.Occurrences.{
  count_weekly_occurrences, monthly_day, count_months, count_monthly_occurrences,
  recurring_start_key, last_charge_key, charge_occurrences, lower_inclusive,
}
use demanage.Billing.Occurrences.Weekly.{falls_weekly, count_weekly_occurrences_lem}
use demanage.Billing.Occurrences.Monthly.{falls_monthly, count_monthly_occurrences_lem}
use demanage.Billing.Occurrences.Cycles.{
  IsDatedExpense, IsWindow, charges_on, charge_occurrences_lem, charge_occurrences_split,
}
use demanage.Billing.Charges.{
  active_version, add_charges, charge_versions, charge_amount_decimal, charges_total_decimal,
  late_one_offs_decimal,
}
use demanage.Billing.Charges.Days.{day_charge, charge_amount_decimal_lem}
use demanage.Billing.Charges.Totals.{
  sum_of, late_one_offs_decimal_none, charges_total_decimal_split,
}
use demanage.Billing.Plan.{
  BillingCardState, next_closing, cycle_of, close_cycle, start_state, plan_card_billing,
  apply_update, plan_rounds, plan_loop, reschedule,
}
use demanage.Billing.Plan.Cycles.{plan_card_billing_ends}
use demanage.Billing.Plan.Chain.{plan_cycles, plan_cycles_total}
use demanage.Billing.Plan.Rerun.{plan_card_billing_again}
use demanage.Tests.Model.{whole, whole-IsExact, three_hours_back, three_hours_back-IsZone}
use demanage.Tests.Dates.{dates}

unfoldable pub cards : Unit {0}
unfolding dates closing_day_key_in_month list_closing_day_keys next_closing lower_inclusive
    charge_amount_decimal start_state plan_card_billing three_hours_back apply_update closings_from
    charge_versions add_charges charge_occurrences plan_loop close_cycle reschedule
cards = tt

abbrev pub date : ℕ → ℕ → ℕ → Instant
date y m d = day_key_to_date (day_key y m d) noon

abbrev pub october : DayKey
october = day_key 2026 9 10

abbrev pub november : DayKey
november = day_key 2026 10 10

abbrev pub december : DayKey
december = day_key 2026 11 10

abbrev pub cycle : CycleWindow
cycle = record { period_start_key = october; closing_key = december; include_period_start = false }

abbrev pub gym : BillableExpense ℤ
gym = record {
  amount = pos 90;
  card_id = some 1;
  is_invoice = false;
  frequency = mensal;
  due_day = some 31;
  starts_at = none;
  ends_at = none;
  occurred_at = none;
  created_at = date 2026 8 5;
  archived_at = none;
  splits = [];
  obligation_versions =
      record {
        sequence = 1;
        effective_month = 24320;
        amount = pos 90;
        card_id = some 1;
        splits = [];
      }
      ∷ record {
        sequence = 2;
        effective_month = 24322;
        amount = pos 100;
        card_id = some 1;
        splits = [];
      }
      ∷ [];
}

abbrev pub lesson : BillableExpense ℤ
lesson = record gym { amount = pos 20; frequency = semanal; obligation_versions = [] }

abbrev pub dinner : BillableExpense ℤ
dinner = record gym {
  amount = pos 70;
  frequency = unica;
  occurred_at = some (date 2026 9 20);
  obligation_versions = [];
  splits =
      record { kind = SplitKind.card; card_id = some 1; amount = pos 30 }
      ∷ record { kind = SplitKind.pix; card_id = none; amount = pos 40 }
      ∷ [];
}

abbrev pub purchases : List (BillableExpense ℤ)
purchases = gym ∷ lesson ∷ dinner ∷ []

pub october-IsFullKey : IsFullKey october
unfolding dates
october-IsFullKey = (omega arith, omega arith)

pub november-IsFullKey : IsFullKey november
unfolding dates
november-IsFullKey = (omega arith, omega arith)

pub december-IsFullKey : IsFullKey december
unfolding dates
december-IsFullKey = (omega arith, omega arith)

pub cycle-IsWindow : IsWindow cycle
cycle-IsWindow = record { start = october-IsFullKey; closing = december-IsFullKey }

gym-IsDatedExpense : IsDatedExpense gym
unfolding dates
gym-IsDatedExpense = record {
  created = omega arith;
  starts = tt;
  ends = tt;
  occurred = tt;
  archived = tt;
}

pub lesson-IsDatedExpense : IsDatedExpense lesson
unfolding dates
lesson-IsDatedExpense = record {
  created = omega arith;
  starts = tt;
  ends = tt;
  occurred = tt;
  archived = tt;
}

dinner-IsDatedExpense : IsDatedExpense dinner
unfolding dates
dinner-IsDatedExpense = record {
  created = omega arith;
  starts = tt;
  ends = tt;
  occurred = omega arith;
  archived = tt;
}

purchases-dated : All IsDatedExpense purchases
purchases-dated = (gym-IsDatedExpense, (lesson-IsDatedExpense, (dinner-IsDatedExpense, tt)))

cycle-full : days_before_year 100 < day_number (lower_inclusive cycle)
unfolding cards
cycle-full = omega arith

abbrev pub blue : BillingCardState
blue = record {
  id = 1;
  closing_day = 10;
  pending_closing_day = some 20;
  pending_closing_day_set_at = some (date 2026 10 5);
  minimum_next_closing_on = none;
  last_invoiced_on = some (date 2026 9 10);
  last_billing_processed_at = some (date 2026 9 11);
  created_at = date 2026 8 1;
}

pub blue_start : IsFullKey (start_state whole three_hours_back blue).period_start_key
unfolding cards
blue_start = october-IsFullKey

abbrev pub december_15 : Instant
december_15 = date 2026 11 15

pub december_15-IsKey : IsKey (day_key_of_date december_15)
unfolding cards
december_15-IsKey = omega arith

blue_full :
    days_before_year 100 < day_number (start_state whole three_hours_back blue).period_start_key
unfolding cards
blue_full = omega arith

blue_next :
    next_closing (start_state whole three_hours_back blue) (day_key_of_date december_15)
    ≡ some november
unfolding cards
blue_next = refl

cycle-lo : day_number (lower_inclusive cycle) ≤ day_number november + 1
unfolding cards
cycle-lo = omega arith

cycle-hi : day_number november ≤ day_number december
unfolding cards
cycle-hi = omega arith

purchases-early : All (λ e. e.created_at ≤ date 2026 9 11) purchases
unfolding cards
purchases-early = (omega arith, (omega arith, (omega arith, tt)))

-- The November invoice: the gym under its first terms and then its second, lessons on five days,
-- and the card's part of the dinner; the change of the day takes hold, with its bound.
runs :
    (charge_amount_decimal whole three_hours_back gym 1 cycle ≡ pos 190)
    × (let t = plan_card_billing whole three_hours_back blue purchases december_15 december_15 in
        (t.closing_day ≡ 20) × (t.pending_closing_day ≡ none))
unfolding cards active_version last_charge_key count_monthly_occurrences recurring_start_key
    count_months monthly_day ◌*ℤ◌
runs = (refl, (refl, refl))

plan_card_billing_again_example :
    let t = plan_card_billing whole three_hours_back blue purchases december_15 december_15 in
    let again =
      plan_card_billing whole three_hours_back
        (apply_update blue t.update)
        purchases
        december_15
        december_15 in
    (again.invoices ≡ []) × (again.update ≡ none)
plan_card_billing_again_example =
    plan_card_billing_again whole three_hours_back blue purchases (day_key_of_date december_15)
      december_15-IsKey december_15 december_15 purchases december_15 refl blue_start

plan_card_billing_ends_example :
    let t = plan_card_billing whole three_hours_back blue purchases december_15 december_15 in
    (next_closing t (day_key_of_date december_15) ≡ none) × IsKey t.period_start_key
plan_card_billing_ends_example =
    plan_card_billing_ends whole three_hours_back blue purchases (day_key_of_date december_15)
      december_15-IsKey december_15 december_15 refl blue_start.0

plan_cycles_total_example :
    let s = start_state whole three_hours_back blue in
    let t = plan_card_billing whole three_hours_back blue purchases december_15 december_15 in
    let cutoff = day_key_of_date december_15 in
    sum_of
      (λ w. charges_total_decimal whole three_hours_back purchases 1 w)
      (plan_cycles whole three_hours_back
        (plan_rounds s cutoff)
        blue
        purchases
        cutoff
        december_15
        s)
    ≡ charges_total_decimal whole three_hours_back purchases 1 (cycle_of s t.period_start_key)
plan_cycles_total_example =
    plan_cycles_total whole-IsExact three_hours_back-IsZone blue purchases purchases-dated
      (day_key_of_date december_15) december_15-IsKey december_15 december_15 november refl
      blue_start blue_full blue_next

charge_amount_decimal_lem_example :
    charge_amount_decimal whole three_hours_back gym 1 cycle
    ≡ sum_between
        (day_charge whole-IsExact three_hours_back gym 1)
        (day_number (lower_inclusive cycle))
        (day_number december)
charge_amount_decimal_lem_example =
    charge_amount_decimal_lem whole-IsExact three_hours_back-IsZone gym gym-IsDatedExpense 1 cycle
      cycle-IsWindow cycle-full

charges_total_decimal_split_example :
    charges_total_decimal whole three_hours_back purchases 1 cycle
    ≡ charges_total_decimal whole three_hours_back purchases 1
        (record cycle { closing_key = november })
      +ℤ charges_total_decimal whole three_hours_back purchases 1
          (record cycle { period_start_key = november; include_period_start = false })
charges_total_decimal_split_example =
    charges_total_decimal_split whole-IsExact three_hours_back-IsZone 1 cycle november
      cycle-IsWindow november-IsFullKey cycle-full cycle-lo cycle-hi purchases purchases-dated

charge_occurrences_lem_example :
    charge_occurrences three_hours_back gym cycle
    ≡ count_between
        (charges_on three_hours_back gym)
        (day_number (lower_inclusive cycle))
        (day_number december)
charge_occurrences_lem_example =
    charge_occurrences_lem three_hours_back-IsZone gym gym-IsDatedExpense cycle cycle-IsWindow

charge_occurrences_split_example :
    charge_occurrences three_hours_back lesson cycle
    ≡ charge_occurrences three_hours_back lesson (record cycle { closing_key = november })
      + charge_occurrences three_hours_back lesson
          (record cycle { period_start_key = november; include_period_start = false })
charge_occurrences_split_example =
    charge_occurrences_split three_hours_back-IsZone lesson lesson-IsDatedExpense cycle november
      cycle-IsWindow november-IsFullKey cycle-lo cycle-hi

late_one_offs_decimal_none_example :
    late_one_offs_decimal whole three_hours_back purchases 1 (date 2026 9 10) (date 2026 9 11)
    ≡ pos 0
late_one_offs_decimal_none_example =
    late_one_offs_decimal_none whole three_hours_back purchases 1 (date 2026 9 10) (date 2026 9 11)
      purchases-early

count_weekly_occurrences_lem_example :
    count_weekly_occurrences october october december
    ≡ count_between (falls_weekly october) (day_number october) (day_number december)
count_weekly_occurrences_lem_example =
    count_weekly_occurrences_lem october-IsFullKey.0 october-IsFullKey.0 december-IsFullKey.0
      october-IsFullKey.1 october-IsFullKey.1 december-IsFullKey.1

count_monthly_occurrences_lem_example :
    count_monthly_occurrences october october december (some 31)
    ≡ count_between (falls_monthly october (some 31)) (day_number october) (day_number december)
count_monthly_occurrences_lem_example =
    count_monthly_occurrences_lem october-IsFullKey.0 october-IsFullKey.0 december-IsFullKey.0
      october-IsFullKey.1 october-IsFullKey.1 december-IsFullKey.1 (some 31)

list_closing_day_keys-Due_example :
    All (Due 31 october december) (list_closing_day_keys 31 october december)
list_closing_day_keys-Due_example =
    list_closing_day_keys-Due 31 october december october-IsFullKey.0 december-IsFullKey.0

list_closing_day_keys-Ascends_example :
    Ascends (31 * month_no 2026 9) (list_closing_day_keys 31 october december)
list_closing_day_keys-Ascends_example =
    list_closing_day_keys-Ascends 31 october december october-IsFullKey.0 december-IsFullKey.0

list_closing_day_keys_complete_example :
    In (closing_day_key_in_month 2026 10 31) (list_closing_day_keys 31 october december)
unfolding cards
list_closing_day_keys_complete_example =
    list_closing_day_keys_complete 31 october december october-IsFullKey.0 december-IsFullKey.0 2026
      10 (omega arith) (omega arith) (omega arith) (omega arith)

next_closing_on_or_after-IsFirst_example :
    (k : DayKey) × (next_closing_on_or_after 31 october december ≡ some k)
    × IsFirst 31 october december k
next_closing_on_or_after-IsFirst_example =
    next_closing_on_or_after-IsFirst 31 october december october-IsFullKey.0 december-IsFullKey.0
      (omega arith)
