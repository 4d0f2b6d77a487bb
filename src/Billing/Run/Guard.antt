-- ===== src/Billing/Run/Guard.antt =====
-- `cardsWithUnclosedBilling` (`backend/src/lib/billing/guard.ts`), which edits of expenses ask,
-- after a run of the billing.
use demanage.Prelude.{◌<◌, ◌≡◌, refl, ap, false, List, [], ◌∷◌, All}
use demanage.Prelude.Decimals.{Decimals}
use demanage.CivilDate.{DayKey, Instant, noon, day_number, add_days_to_key}
use demanage.Prelude.Int.{negsuc}
use demanage.CivilDate.Years.{days_before_year}
use demanage.CivilDate.Numbers.{day_key_of_date-day_key_to_date}
use demanage.CivilDate.Zone.{IsFullKey}
use demanage.Billing.Expense.{BillableExpense, is_some}
use demanage.Billing.Charges.Days.{day_before}
use demanage.Billing.Plan.{BillingCardState, start_state, plan_card_billing, apply_update}
use demanage.Billing.Plan.Rerun.{plan_card_billing_again}
use demanage.Billing.Run.{
  bill_cards, process_user_card_billing, cards_with_unclosed_billing, cutoff_of,
}

module _ (dec : Decimals) (zone : Instant → DayKey) (now : Instant)
    (late : days_before_year 100 < day_number (zone now)) where
  -- The open period of a card starts on a valid day of the year 100 or later.
  abbrev pub IsOpen : BillingCardState → Type 0
  IsOpen card = IsFullKey (start_state dec zone card).period_start_key

  abbrev yesterday : DayKey
  yesterday = add_days_to_key (zone now) (negsuc 0)

  nothing_behind :
      (es : List (BillableExpense dec.Decimal)) (again : Instant) (card : BillingCardState)
      → zone again ≡ zone now
      → IsOpen card
      → let plan = plan_card_billing dec zone card es (cutoff_of zone now) now in
        is_some
          (plan_card_billing dec zone
            (apply_update card plan.update)
            []
            (cutoff_of zone again)
            again).update
        ≡ false
  nothing_behind es again card same v =
      let b = day_before (zone now) late in
      let e = day_key_of_date-day_key_to_date yesterday noon b.0.0 b.0.1 in
      rw same (
        ap is_some
          (plan_card_billing_again dec zone card es yesterday b.0.0 now (cutoff_of zone now) []
            again e v).1)

  none_behind :
      (es : List (BillableExpense dec.Decimal)) (again : Instant) (cards : List BillingCardState)
      → zone again ≡ zone now
      → All IsOpen cards
      → cards_with_unclosed_billing dec zone (bill_cards dec zone es now cards).cards again ≡ []
  unfolding bill_cards cards_with_unclosed_billing
  none_behind es again [] same v = refl
  none_behind es again (card ∷ cards) same v =
      rw (nothing_behind es again card same v.0) (none_behind es again cards same v.1)

  -- After a run of the billing over the cards of a user, the guard names none of the cards as
  -- they are stored, at any instant of the same day, whatever the expenses of the run were. The
  -- day is after the first of the year 100, and the open period of each card starts on a valid
  -- day of the year 100 or later.
  pub cards_with_unclosed_billing_none :
      (cards : List BillingCardState) (es : List (BillableExpense dec.Decimal)) (again : Instant)
      → All IsOpen cards
      → zone again ≡ zone now
      → cards_with_unclosed_billing dec zone
          (process_user_card_billing dec zone cards es now).cards
          again
        ≡ []
  unfolding process_user_card_billing
  cards_with_unclosed_billing_none cards es again v same = none_behind es again cards same v
