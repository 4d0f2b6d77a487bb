-- ===== src/Billing/Run.antt =====
-- `processUserCardBilling` (`backend/src/lib/billing/run.ts`) and `cardsWithUnclosedBilling`
-- (`guard.ts`). The cards and the expenses are what the queries of the transaction return; the
-- result holds what it writes.
pub mod Guard
use demanage.Prelude.{ℕ, ◌+◌, Bool, true, false, Option, List, [], ◌∷◌, ◌++◌, map, filter, length}
use demanage.Prelude.Int.{negsuc}
use demanage.Prelude.Decimals.{Decimals}
use demanage.CivilDate.{DayKey, Instant, noon, add_days_to_key, day_key_to_date}
use demanage.Billing.Expense.{BillableExpense, is_some}
use demanage.Billing.Plan.{
  BillingCardState, PlannedInvoice, PlanState, Notes, plan_card_billing, apply_update,
}

pub record InvoiceRow (D : Type 0) : Type 0 where
  pub card_id : ℕ
  pub amount : D
  pub occurred_at : Instant
  pub billing_period_start : Instant
  pub billing_period_end : Instant
  pub notes : Notes

-- The rows to create, and the cards as they are stored.
pub record BillingRun (D : Type 0) : Type 0 where
  pub cards : List BillingCardState
  pub invoice_rows : List (InvoiceRow D)
  pub created_count : ℕ

abbrev row_of : {D : Type 0} → ℕ → PlannedInvoice D → InvoiceRow D
row_of card_id invoice = record {
  card_id = card_id;
  amount = invoice.amount;
  occurred_at = invoice.closing_on;
  billing_period_start = invoice.period_start;
  billing_period_end = invoice.closing_on;
  notes = invoice.notes;
}

-- The day before today, at noon.
abbrev pub cutoff_of : (Instant → DayKey) → Instant → Instant
cutoff_of zone now = day_key_to_date (add_days_to_key (zone now) (negsuc 0)) noon

module _ (dec : Decimals) (zone : Instant → DayKey) where
  -- The loop over the cards.
  unfoldable pub bill_cards :
      List (BillableExpense dec.Decimal) → Instant → List BillingCardState → BillingRun dec.Decimal
  unfolding apply_update
  bill_cards billable now [] = record { cards = []; invoice_rows = []; created_count = 0 }
  bill_cards billable now (card ∷ cards) =
      let plan = plan_card_billing dec zone card billable (cutoff_of zone now) now in
      let rest = bill_cards billable now cards in
      let rows = map (row_of card.id) plan.invoices in
      record {
        cards = apply_update card plan.update ∷ rest.cards;
        invoice_rows = rows ++ rest.invoice_rows;
        created_count = length rows + rest.created_count;
      }

  unfoldable pub process_user_card_billing :
      List BillingCardState → List (BillableExpense dec.Decimal) → Instant → BillingRun dec.Decimal
  unfolding bill_cards
  process_user_card_billing cards billable now = bill_cards billable now cards

  -- The cards whose billing is behind.
  unfoldable pub cards_with_unclosed_billing : List BillingCardState → Instant → List ℕ
  cards_with_unclosed_billing cards now =
      map (λ card. card.id)
        (filter
          (λ card. is_some (plan_card_billing dec zone card [] (cutoff_of zone now) now).update)
          cards)
