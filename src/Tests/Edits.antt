-- ===== src/Tests/Edits.antt =====
-- What is committed on a card, and a new schedule on a card with an invoice, at concrete days.
use demanage.Prelude.{
  ℕ, ◌+◌, ◌<◌, ◌≤◌, ◌≡◌, ◌↔◌, refl, arith, false, some, none, [], ◌∷◌, if◌then◌else◌,
}
use demanage.Prelude.Int.{ℤ, pos, negsuc, ltb_ℤ}
use demanage.CivilDate.{
  DayKey, day_key, noon, day_number, day_key_of_date, day_key_to_date, add_days_to_key,
}
use demanage.CivilDate.Years.{days_before_year}
use demanage.CivilDate.Zone.{IsDated, IsFullKey}
use demanage.Billing.Calendar.{max_months, next_from, next_closing_on_or_after}
use demanage.Billing.Expense.{CycleWindow, mensal}
use demanage.Billing.Occurrences.Cycles.{charges_on}
use demanage.Billing.Plan.{
  PlanState, current_cycle_window, next_closing, start_state, plan_card_billing,
}
use demanage.Billing.Calendar.Closings.{month_no}
use demanage.Billing.Committed.{cycle_card, get_committed}
use demanage.Billing.Committed.Invoice.{billed, get_committed_lem}
use demanage.Billing.Retroactive.{NewSchedule, expense_of, has_retroactive_closed_card_charge}
use demanage.Billing.Retroactive.Closed.{has_retroactive_closed_card_charge_lem}
use demanage.Tests.Model.{whole, whole-IsExact, three_hours_back, three_hours_back-IsZone}
use demanage.Tests.Cards.{cards, date, october, november, purchases, blue}

abbrev open_cycle : CycleWindow
open_cycle = record {
  period_start_key = october;
  closing_key = november;
  include_period_start = false;
}

-- A day of the cycle, after its start.
abbrev today : DayKey
today = day_key 2026 9 26

blue_open : current_cycle_window three_hours_back (cycle_card blue) today ≡ some open_cycle
unfolding cards current_cycle_window next_closing_on_or_after next_from
blue_open = refl

blue_closed :
    next_closing (start_state whole three_hours_back blue) (add_days_to_key today (negsuc 0)) ≡ none
unfolding cards
blue_closed = refl

today-IsFullKey : IsFullKey today
unfolding cards
today-IsFullKey = (omega arith, omega arith)

today_full : days_before_year 100 < day_number today
unfolding cards
today_full = omega arith

blue_near :
    month_no today.year today.month_index + 1
    < month_no
        (day_key_of_date (date 2026 9 10)).year
        (day_key_of_date (date 2026 9 10)).month_index
      + max_months
unfolding cards
blue_near = omega arith

-- The run on the day after the closing.
abbrev closing_run : PlanState ℤ
closing_run =
    plan_card_billing whole three_hours_back blue purchases (day_key_to_date november noon)
      (date 2026 10 11)

card_invoiced : IsDated (date 2026 9 10)
unfolding cards
card_invoiced = omega arith

get_committed_lem_example :
    (a : ℤ) × (get_committed whole three_hours_back purchases today blue ≡ some a)
    × (billed closing_run.invoices
        ≡ (if ltb_ℤ (pos 0) a then (day_key_to_date november noon, a) ∷ [] else []))
    × (closing_run.period_start_key ≡ november)
get_committed_lem_example =
    get_committed_lem whole-IsExact three_hours_back blue purchases (date 2026 9 10) refl today
      open_cycle (date 2026 10 11) card_invoiced tt today-IsFullKey today_full blue_near blue_closed
      blue_open

abbrev rent : NewSchedule ℤ
rent = record {
  frequency = mensal;
  amount = pos 900;
  starts_at = some (date 2026 8 15);
  ends_at = none;
  due_day = some 5;
}

card_created : IsDated (date 2026 8 1)
unfolding cards
card_created = omega arith

rent_starts : IsDated (date 2026 8 15)
unfolding cards
rent_starts = omega arith

has_retroactive_closed_card_charge_lem_example :
    (has_retroactive_closed_card_charge three_hours_back
        (date 2026 8 1)
        (some (date 2026 9 10))
        rent
      ≡ false)
    ↔ ((n : ℕ)
        → day_number (three_hours_back (date 2026 8 1)) ≤ n
        → n ≤ day_number (day_key_of_date (date 2026 9 10))
        → charges_on three_hours_back (expense_of rent (date 2026 8 1)) n ≡ false)
has_retroactive_closed_card_charge_lem_example =
    has_retroactive_closed_card_charge_lem three_hours_back-IsZone (date 2026 8 1) (date 2026 9 10)
      rent card_created card_invoiced rent_starts tt
