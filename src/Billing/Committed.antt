-- ===== src/Billing/Committed.antt =====
-- What is committed on a card in its open cycle: `getCommittedByCard` and
-- `assertProspectiveVersionedCardLimits` (`backend/src/lib/expense-splits.ts`), over the cards and
-- expenses that the queries return.
pub mod Invoice
pub mod Closing
use demanage.Prelude.{ℕ, Bool, true, false, not, Option, none, some, List, [], ◌∷◌, if◌then◌else◌}
use demanage.Prelude.Decimals.{Decimals}
use demanage.CivilDate.{DayKey, Instant, noon, day_key_to_date}
use demanage.Billing.Expense.{BillableExpense, CycleWindow}
use demanage.Billing.Charges.{charge_amount_decimal, charges_total_decimal, late_one_offs_decimal}
use demanage.Billing.Plan.{BillingCardState, CycleCard, current_cycle_window}

-- The fields of a card that its open cycle reads.
abbrev pub cycle_card : BillingCardState → CycleCard
cycle_card card = record {
  closing_day = card.closing_day;
  created_at = card.created_at;
  last_invoiced_on = card.last_invoiced_on;
  minimum_next_closing_on = card.minimum_next_closing_on;
}

module _ (dec : Decimals) (zone : Instant → DayKey) where
  open dec use {Decimal, of_ℕ, plus, minus, lt}

  -- What the window charges, and the late purchases where a cycle was closed.
  unfoldable pub committed_in :
      BillingCardState → List (BillableExpense Decimal) → CycleWindow → Decimal
  committed_in card billable w =
      let cycle = charges_total_decimal dec zone billable card.id w in
      elim card.last_invoiced_on [
        | none ↦ cycle
        | some _ ↦ elim card.last_billing_processed_at [
          | none ↦ cycle
          | some t ↦ plus cycle (
              late_one_offs_decimal dec zone billable card.id
                (day_key_to_date w.period_start_key noon) t)
        ]
      ]

  -- The entry of a card in the map; `none` is the error of the search for a closing day.
  unfoldable pub get_committed :
      List (BillableExpense Decimal) → DayKey → BillingCardState → Option Decimal
  unfolding committed_in current_cycle_window
  get_committed billable today card = elim (current_cycle_window zone (cycle_card card) today) [
    | none ↦ none
    | some w ↦ some (committed_in card billable w)
  ]

  -- Whether the projected charges of an expense are over what a card has left: `true` is the error.
  unfoldable pub over_prospective_limit :
      (ℕ → Option Decimal)
      → (ℕ → Option Decimal)
      → BillableExpense Decimal
      → BillingCardState
      → CycleWindow
      → Bool
  over_prospective_limit limits committed prospective card w = elim (limits card.id) [
    | none ↦ false
    | some limit ↦
        let projected = charge_amount_decimal dec zone prospective card.id w in
        let used : Decimal = elim (committed card.id) [ none ↦ of_ℕ 0 | some u ↦ u ] in
        if not (lt (of_ℕ 0) projected) then false else lt (minus limit used) projected
  ]
