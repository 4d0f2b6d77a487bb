-- ===== src/Billing/Plan.antt =====
-- `planCardBilling` (`backend/src/lib/billing/plan.ts`) and `currentCycleWindow`
-- (`cycle-window.ts`): the cycles of a card that are due, the invoice of each and the card after
-- them. The loop is a step on the variables of the source; `none` from a step is its `break`.
pub mod Cycles
pub mod Chain
pub mod Rerun
pub mod CatchUp
use demanage.Prelude.{
  ℕ, zero, suc, ◌+◌, ◌-◌, ◌*◌, Bool, true, false, not, Option, none, some, List, [], ◌∷◌, ◌++◌,
  find, if◌then◌else◌,
}
use demanage.Prelude.Int.{pos}
use demanage.Prelude.Decimals.{Decimals}
use demanage.CivilDate.{
  DayKey, Instant, noon, key_gt, key_lt, day_key_of_date, day_key_to_date, add_days_to_key,
}
use demanage.CivilDate.Order.{rank}
use demanage.Billing.Calendar.{list_closing_day_keys, next_closing_on_or_after}
use demanage.Billing.Expense.{BillableExpense, CycleWindow, is_some}
use demanage.Billing.Charges.{
  charges_total_decimal, late_one_offs_decimal, pre_creation_one_offs_decimal,
}

pub record CycleCard : Type 0 where
  pub closing_day : ℕ
  pub created_at : Instant
  pub last_invoiced_on : Option Instant
  pub minimum_next_closing_on : Option Instant

module _ (zone : Instant → DayKey) where
  -- The day that the open cycle starts after.
  abbrev pub period_start_of : Option Instant → Instant → DayKey
  period_start_of none created = zone created
  period_start_of (some t) created = day_key_of_date t

  -- `none` is the error of the search for a closing day.
  unfoldable pub current_cycle_window : CycleCard → DayKey → Option CycleWindow
  current_cycle_window card today =
      let start = period_start_of card.last_invoiced_on card.created_at in
      let minimum : DayKey = elim card.minimum_next_closing_on [
        | none ↦ today
        | some t ↦ day_key_of_date t
      ] in
      elim (next_closing_on_or_after card.closing_day start
        (if key_gt minimum today then minimum else today)) [
          | none ↦ none
          | some closing ↦ some (record {
            period_start_key = start;
            closing_key = closing;
            include_period_start = not (is_some card.last_invoiced_on);
          })
        ]

pub record BillingCardState : Type 0 where
  pub id : ℕ
  pub closing_day : ℕ
  pub pending_closing_day : Option ℕ
  pub pending_closing_day_set_at : Option Instant
  pub minimum_next_closing_on : Option Instant
  pub last_invoiced_on : Option Instant
  pub last_billing_processed_at : Option Instant
  pub created_at : Instant

-- The three texts of an invoice, which all name its closing.
pub data Notes : Type 0 where
  late_purchases earlier_purchases plain : Notes

pub record PlannedInvoice (D : Type 0) : Type 0 where
  pub closing_on : Instant
  pub period_start : Instant
  pub amount : D
  pub notes : Notes

-- A field that the update leaves out is `none`; `pending_cleared` is `pendingClosingDay: null` with
-- its date.
pub record CardUpdate : Type 0 where
  pub last_invoiced_on : Instant
  pub last_billing_processed_at : Instant
  pub closing_day : Option ℕ
  pub pending_cleared : Bool
  pub minimum_next_closing_on : Option (Option Instant)

-- The shortest cycle that a change of the closing day leaves.
abbrev pub min_cycle_days_after_closing_change : ℕ
min_cycle_days_after_closing_change = 28

-- The variables of the loop.
pub record PlanState (D : Type 0) : Type 0 where
  pub period_start_key : DayKey
  pub last_billing_processed_at : Option Instant
  pub has_closed_cycle : Bool
  pub closing_day : ℕ
  pub pending_closing_day : Option ℕ
  pub include_period_start : Bool
  pub minimum_next_closing_key : Option DayKey
  pub invoices : List (PlannedInvoice D)
  pub update : Option CardUpdate

-- `!minimumKey || compareDayKeys(candidate, minimumKey) >= 0`.
abbrev pub not_before : Option DayKey → DayKey → Bool
not_before none k = true
not_before (some m) k = not (key_lt k m)

module _ {D : Type 0} where
  unfoldable pub next_closing : PlanState D → DayKey → Option DayKey
  next_closing s cutoff =
      find (not_before s.minimum_next_closing_key)
        (list_closing_day_keys s.closing_day s.period_start_key cutoff)

  -- The window that a closing day ends.
  abbrev pub cycle_of : PlanState D → DayKey → CycleWindow
  cycle_of s closing = record {
    period_start_key = s.period_start_key;
    closing_key = closing;
    include_period_start = s.include_period_start;
  }

abbrev update_of : Option CardUpdate → Instant → Instant → CardUpdate
update_of none closing now = record {
  last_invoiced_on = closing;
  last_billing_processed_at = now;
  closing_day = none;
  pending_cleared = false;
  minimum_next_closing_on = none;
}
update_of (some u) closing now = record u {
  last_invoiced_on = closing;
  last_billing_processed_at = now;
}

-- The changes of the closing day and of its bound at the end of a round.
pub record Schedule : Type 0 where
  pub closing_day : ℕ
  pub pending_closing_day : Option ℕ
  pub minimum_next_closing_key : Option DayKey
  pub update : CardUpdate

-- The bound is met, and falls away.
unfoldable pub clear_minimum : ℕ → Option ℕ → Option DayKey → DayKey → CardUpdate → Schedule
clear_minimum day pending none closing next = record {
  closing_day = day;
  pending_closing_day = pending;
  minimum_next_closing_key = none;
  update = next;
}
clear_minimum day pending (some m) closing next =
    if key_lt closing m
    then record {
      closing_day = day;
      pending_closing_day = pending;
      minimum_next_closing_key = some m;
      update = next;
    }
    else record {
      closing_day = day;
      pending_closing_day = pending;
      minimum_next_closing_key = none;
      update = record next { minimum_next_closing_on = some none };
    }

-- The closing day that waits takes over, from a closing on or after the day it was set.
unfoldable pub reschedule :
    ℕ → Option ℕ → Option DayKey → Option DayKey → DayKey → CardUpdate → Schedule
unfolding clear_minimum
reschedule day none set_key minimum closing next = clear_minimum day none minimum closing next
reschedule day (some pending) set_key minimum closing next =
    let floor = add_days_to_key closing (pos min_cycle_days_after_closing_change) in
    if not_before set_key closing
    then record {
      closing_day = pending;
      pending_closing_day = none;
      minimum_next_closing_key = some floor;
      update = record next {
        closing_day = some pending;
        pending_cleared = true;
        minimum_next_closing_on = some (some (day_key_to_date floor noon));
      };
    }
    else clear_minimum day (some pending) minimum closing next

-- `date ? dayKeyOfDate(date) : null`.
abbrev pub key_of_date : Option Instant → Option DayKey
key_of_date none = none
key_of_date (some t) = some (day_key_of_date t)

-- Every round moves the start of the period on, up to the cutoff.
abbrev pub plan_rounds : {D : Type 0} → PlanState D → DayKey → ℕ
plan_rounds s cutoff = suc (rank cutoff - rank s.period_start_key)

module _ (dec : Decimals) (zone : Instant → DayKey) where
  open dec use {Decimal, of_ℕ, plus, lt, to_money}

  abbrev pub Expenses : Type 0
  Expenses = List (BillableExpense Decimal)

  unfoldable pub late_adjustment : BillingCardState → Expenses → PlanState Decimal → Decimal
  late_adjustment card es s =
      if s.has_closed_cycle
      then elim s.last_billing_processed_at [
        | none ↦ of_ℕ 0
        | some t ↦
            late_one_offs_decimal dec zone es card.id (day_key_to_date s.period_start_key noon) t
      ]
      else of_ℕ 0

  unfoldable pub first_close_adjustment : BillingCardState → Expenses → PlanState Decimal → Decimal
  first_close_adjustment card es s =
      if s.has_closed_cycle
      then of_ℕ 0
      else pre_creation_one_offs_decimal dec zone es card.id card.created_at

  -- What the invoice of a cycle amounts to.
  unfoldable pub cycle_amount : BillingCardState → Expenses → PlanState Decimal → DayKey → Decimal
  unfolding late_adjustment first_close_adjustment
  cycle_amount card es s closing = to_money (
      plus
        (plus (charges_total_decimal dec zone es card.id (cycle_of s closing))
          (late_adjustment card es s))
        (first_close_adjustment card es s))

  unfoldable pub invoice_of :
      BillingCardState → Expenses → PlanState Decimal → DayKey → List (PlannedInvoice Decimal)
  unfolding cycle_amount
  invoice_of card es s closing =
      if lt (of_ℕ 0) (cycle_amount card es s closing)
      then record {
        closing_on = day_key_to_date closing noon;
        period_start = day_key_to_date s.period_start_key noon;
        amount = cycle_amount card es s closing;
        notes =
            if lt (of_ℕ 0) (late_adjustment card es s)
            then late_purchases
            else if lt (of_ℕ 0) (first_close_adjustment card es s)
            then earlier_purchases
            else plain;
      }
        ∷ []
      else []

  -- `pendingSetKey`.
  abbrev pub pending_set_key : BillingCardState → Option DayKey
  pending_set_key card = elim card.pending_closing_day_set_at [
    | none ↦ none
    | some t ↦ some (zone t)
  ]

  -- The state after a closing.
  unfoldable pub close_cycle :
      BillingCardState → Expenses → Instant → PlanState Decimal → DayKey → PlanState Decimal
  unfolding invoice_of reschedule
  close_cycle card es now s closing =
      let r =
        reschedule s.closing_day s.pending_closing_day (pending_set_key card)
          s.minimum_next_closing_key closing
          (update_of s.update (day_key_to_date closing noon) now) in
      record {
        period_start_key = closing;
        last_billing_processed_at = some now;
        has_closed_cycle = true;
        closing_day = r.closing_day;
        pending_closing_day = r.pending_closing_day;
        include_period_start = false;
        minimum_next_closing_key = r.minimum_next_closing_key;
        invoices = s.invoices ++ invoice_of card es s closing;
        update = some r.update;
      }

  unfoldable pub plan_loop :
      ℕ → BillingCardState → Expenses → DayKey → Instant → PlanState Decimal → PlanState Decimal
  plan_loop zero card es cutoff now s = s
  plan_loop (suc rounds) card es cutoff now s = elim (next_closing s cutoff) [
    | none ↦ s
    | some closing ↦ plan_loop rounds card es cutoff now (close_cycle card es now s closing)
  ]

  unfoldable pub start_state : BillingCardState → PlanState Decimal
  start_state card = record {
    period_start_key = period_start_of zone card.last_invoiced_on card.created_at;
    last_billing_processed_at = card.last_billing_processed_at;
    has_closed_cycle = is_some card.last_invoiced_on;
    closing_day = card.closing_day;
    pending_closing_day = card.pending_closing_day;
    include_period_start = not (is_some card.last_invoiced_on);
    minimum_next_closing_key = key_of_date card.minimum_next_closing_on;
    invoices = [];
    update = none;
  }

  -- The invoices and the update of `planCardBilling` are fields of the last state.
  unfoldable pub plan_card_billing :
      BillingCardState → Expenses → Instant → Instant → PlanState Decimal
  plan_card_billing card es cutoff now =
      let s = start_state card in
      plan_loop (plan_rounds s (day_key_of_date cutoff)) card es (day_key_of_date cutoff) now s

-- What `card.update` stores: a field that the update leaves out keeps its value.
unfoldable pub apply_update : BillingCardState → Option CardUpdate → BillingCardState
apply_update card none = card
apply_update card (some u) = record card {
  last_invoiced_on = some u.last_invoiced_on;
  last_billing_processed_at = some u.last_billing_processed_at;
  closing_day = elim u.closing_day [ none ↦ card.closing_day | some d ↦ d ];
  pending_closing_day = if u.pending_cleared then none else card.pending_closing_day;
  pending_closing_day_set_at = if u.pending_cleared then none else card.pending_closing_day_set_at;
  minimum_next_closing_on = elim u.minimum_next_closing_on [
    | none ↦ card.minimum_next_closing_on
    | some m ↦ m
  ];
}
