-- ===== src/Tests/Money.antt =====
-- Parts of an expense, limits, the guard and an asset at concrete values.
use demanage.Prelude.{
  ℕ, ◌≤◌, ◌<◌, ◌≡◌, ◌≢◌, ◌↔◌, refl, arith, true, false, some, none, List, [], ◌∷◌, Option,
}
use demanage.Prelude.Int.{ℤ, pos, negsuc, ◌+ℤ◌, ◌-ℤ◌, ◌*ℤ◌, ◌≤ℤ◌}
use demanage.CivilDate.{day_number}
use demanage.CivilDate.Years.{days_before_year}
use demanage.Billing.Expense.{SplitKind, CycleWindow, Frequency, semanal}
use demanage.Billing.Occurrences.{
  charge_occurrences, max_charges_for_window, worst_case_charges_in_window, worst_weekly,
  count_weekly_occurrences, max_charges_per_cycle, lower_inclusive,
}
use demanage.Billing.Occurrences.Bounds.{charges_for, charge_occurrences_bound}
use demanage.Billing.Occurrences.Cycles.{IsWindow}
use demanage.Billing.Charges.{charge_amount_decimal, card_share}
use demanage.Billing.Charges.Totals.{sum_of}
use demanage.Billing.Run.{process_user_card_billing, cards_with_unclosed_billing}
use demanage.Billing.Run.Guard.{cards_with_unclosed_billing_none}
use demanage.Splits.{
  SplitInput, on_card, on_pix, allocate_by_percent, validate_split_shape, assert_card_limits,
  over_limit,
}
use demanage.Splits.Allocation.{allocate_by_percent_lem}
use demanage.Splits.Shape.{IsShape, validate_split_shape_lem}
use demanage.Splits.Limits.{assert_card_limits_lem}
use demanage.Assets.{
  AccountingTransaction, buy, sell, manual_adjustment, remove_from_buckets, is_asset_timeline_valid,
  calculate_asset_accounting,
}
use demanage.Assets.Removals.{IsRemoval, remove_from_buckets-IsRemoval}
use demanage.Assets.Timeline.{signed_quantity, calculate_asset_accounting_lem}
use demanage.Tests.Model.{whole, whole-IsExact, three_hours_back, three_hours_back-IsZone}
use demanage.Tests.Cards.{
  cards, november, december, lesson, purchases, blue, december_15, november-IsFullKey,
  december-IsFullKey, lesson-IsDatedExpense, blue_start,
}

abbrev december_cycle : CycleWindow
december_cycle = record {
  period_start_key = november;
  closing_key = december;
  include_period_start = false;
}

december_cycle-IsWindow : IsWindow december_cycle
december_cycle-IsWindow = record { start = november-IsFullKey; closing = december-IsFullKey }

late : 101 ≤ (lower_inclusive december_cycle).year
unfolding cards
late = omega arith

is_weekly : semanal ≢ Frequency.other
is_weekly e = cc

charge_occurrences_bound_example :
    charge_occurrences three_hours_back lesson december_cycle
    ≤ charges_for (max_charges_for_window december_cycle) semanal
charge_occurrences_bound_example =
    charge_occurrences_bound three_hours_back-IsZone lesson lesson-IsDatedExpense december_cycle
      december_cycle-IsWindow late is_weekly

late_now : days_before_year 100 < day_number (three_hours_back december_15)
unfolding cards
late_now = omega arith

cards_with_unclosed_billing_none_example :
    cards_with_unclosed_billing whole three_hours_back
      (process_user_card_billing whole three_hours_back (blue ∷ []) purchases december_15).cards
      december_15
    ≡ []
cards_with_unclosed_billing_none_example =
    cards_with_unclosed_billing_none whole three_hours_back december_15 late_now (blue ∷ [])
      purchases december_15 (blue_start, tt) refl

allocate_by_percent_lem_example :
    sum_of (λ a. a) (allocate_by_percent whole (pos 1999) (pos 50 ∷ pos 50 ∷ [])) ≡ pos 1999
allocate_by_percent_lem_example =
    allocate_by_percent_lem whole-IsExact (pos 1999) (pos 50) (pos 50 ∷ [])

abbrev half_and_half : List (SplitInput ℤ)
half_and_half = on_card 1 (pos 50) ∷ on_pix (pos 50) ∷ []

validate_split_shape_lem_example :
    (validate_split_shape whole (λ p. false) half_and_half ≡ none)
    ↔ IsShape whole (λ p. false) half_and_half
validate_split_shape_lem_example = validate_split_shape_lem whole (λ p. false) half_and_half

abbrev limit_of : ℕ → Option ℤ
limit_of c = some (pos 500)

abbrev used_of : ℕ → Option ℤ
used_of c = some (pos 100)

abbrev window_of : ℕ → Option CycleWindow
window_of c = some december_cycle

fits_limit :
    assert_card_limits whole limit_of used_of semanal window_of (
      record {
        kind = SplitKind.card;
        card_id = some 1;
        percent = pos 100;
        amount = card_share whole lesson 1;
      }
      ∷ [])
    ≡ none
unfolding cards assert_card_limits over_limit max_charges_for_window worst_case_charges_in_window
    worst_weekly count_weekly_occurrences max_charges_per_cycle ◌*ℤ◌ ◌-ℤ◌ card_share
fits_limit = refl

lesson_share : card_share whole lesson 1 ≡ pos 20
unfolding card_share
lesson_share = refl

assert_card_limits_lem_example :
    pos 100 +ℤ charge_amount_decimal whole three_hours_back lesson 1 december_cycle ≤ℤ pos 500
assert_card_limits_lem_example =
    assert_card_limits_lem whole-IsExact three_hours_back-IsZone limit_of used_of window_of lesson 1
      (pos 500) (pos 100) december_cycle 20 refl refl refl lesson_share refl [] [] (pos 100)
      fits_limit refl is_weekly lesson-IsDatedExpense december_cycle-IsWindow late

remove_from_buckets-IsRemoval_example :
    IsRemoval whole-IsExact
      (pos 6)
      (pos 4)
      (pos 5)
      (remove_from_buckets whole (pos 6) (pos 4) (pos 600) (pos 5))
remove_from_buckets-IsRemoval_example =
    remove_from_buckets-IsRemoval whole-IsExact (pos 6) (pos 4) (pos 600) (pos 5) (omega arith)
      (omega arith) (omega arith)

abbrev bought : AccountingTransaction ℤ
bought = record {
  id = 1;
  created_at = none;
  asset = 7;
  kind = buy;
  quantity = pos 10;
  cash_amount_brl = pos 1000;
  fee_amount_brl = some (pos 3);
  cost_basis_known = true;
  date = 100;
}

abbrev trades : List (AccountingTransaction ℤ)
trades =
    record bought { id = 2; kind = sell; quantity = pos 4; cash_amount_brl = pos 600; date = 200 }
    ∷ bought
    ∷ record bought { id = 3; kind = manual_adjustment; quantity = negsuc 1; date = 300 }
    ∷ []

trades_valid : is_asset_timeline_valid whole trades ≡ true
unfolding is_asset_timeline_valid ◌+ℤ◌ ◌-ℤ◌
trades_valid = refl

calculate_asset_accounting_lem_example :
    let a = calculate_asset_accounting whole 7 trades in
    (a.quantity ≡ sum_of (signed_quantity whole-IsExact) trades)
    × (pos 0 ≤ℤ a.known_quantity)
    × (pos 0 ≤ℤ a.unknown_quantity)
calculate_asset_accounting_lem_example =
    calculate_asset_accounting_lem whole-IsExact 7 trades (refl, (refl, (refl, tt)))
      (omega arith, (omega arith, (tt, tt))) trades_valid
