-- ===== src/Billing/Retroactive.antt =====
-- Edits that would change what is invoiced already (`backend/src/lib/billing/retroactive-recurring.ts`).
pub mod Closed
use demanage.Prelude.{
  ℕ, zero, suc, ◌+◌, ◌-◌, ◌/◌, ◌%◌, Bool, true, false, not, ◌&&◌, ◌||◌, Option, none, some, List,
  [], ◌∷◌, ltb, ◌==◌, if◌then◌else◌,
}
use demanage.Prelude.Int.{ℤ, pos, pos_part}
use demanage.Prelude.Decimals.{Decimals}
use demanage.CivilDate.{
  DayKey, day_key, Instant, noon, last_day_of_month, key_lt, key_gt, day_number, diff_days,
  add_days_to_key, day_key_of_date, day_key_to_date,
}
use demanage.Billing.Expense.{
  BillableExpense, Frequency, unica, semanal, mensal, SplitTarget, CycleWindow,
}
use demanage.Billing.Occurrences.{charge_occurrences, recurring_start_key}
use demanage.Billing.Charges.{
  active_version, with_terms, split_share_for, charge_amount_decimal, month_first, later_of,
}

-- A card as the edit of an expense sees it.
pub record ClosedCard : Type 0 where
  pub id : ℕ
  pub last_invoiced_on : Option Instant
  pub created_at : Option Instant

-- The schedule of a new expense: its frequency is monthly or weekly.
pub record NewSchedule (D : Type 0) : Type 0 where
  pub frequency : Frequency
  pub amount : D
  pub starts_at : Option Instant
  pub ends_at : Option Instant
  pub due_day : Option ℕ

-- The expense that the schedule is for the billing.
abbrev pub expense_of : {D : Type 0} → NewSchedule D → Instant → BillableExpense D
expense_of s created = record {
  amount = s.amount;
  card_id = none;
  is_invoice = false;
  frequency = s.frequency;
  due_day = s.due_day;
  starts_at = s.starts_at;
  ends_at = s.ends_at;
  occurred_at = none;
  created_at = created;
  archived_at = none;
  splits = [];
  obligation_versions = [];
}

abbrev pub closed_window : DayKey → DayKey → CycleWindow
closed_window start closing = record {
  period_start_key = start;
  closing_key = closing;
  include_period_start = true;
}

unfoldable pub has_retroactive_closed_card_charge :
    {D : Type 0} → (Instant → DayKey) → Instant → Option Instant → NewSchedule D → Bool
has_retroactive_closed_card_charge zone created none schedule = false
has_retroactive_closed_card_charge zone created (some invoiced) schedule =
    let start = zone created in
    let closing = day_key_of_date invoiced in
    if key_lt closing start
    then false
    else ltb 0 (charge_occurrences zone (expense_of schedule created) (closed_window start closing))

abbrev same_frequency : Frequency → Frequency → Bool
same_frequency unica unica = true
same_frequency semanal semanal = true
same_frequency mensal mensal = true
same_frequency Frequency.other Frequency.other = true
same_frequency _ _ = false

abbrev same_number : Option ℕ → Option ℕ → Bool
same_number none none = true
same_number (some a) (some b) = a == b
same_number _ _ = false

-- Equality of `datePart`s.
abbrev same_day : Option Instant → Option Instant → Bool
same_day none none = true
same_day (some a) (some b) =
    let j = day_key_of_date a in let k = day_key_of_date b in not (key_lt j k) && not (key_lt k j)
same_day _ _ = false

abbrev earlier_of : DayKey → DayKey → DayKey
earlier_of a b = if key_lt b a then b else a

module _ (dec : Decimals) (zone : Instant → DayKey) where
  open dec use {Decimal, of_ℕ, times, lt, eq}

  abbrev occurrence_calendar_changed : BillableExpense Decimal → BillableExpense Decimal → Bool
  occurrence_calendar_changed before after =
      not (same_frequency before.frequency after.frequency)
      || not (same_number before.due_day after.due_day)
      || not (same_day before.starts_at after.starts_at)

  abbrev schedule_changed : BillableExpense Decimal → BillableExpense Decimal → Bool
  schedule_changed before after =
      occurrence_calendar_changed before after || not (same_day before.ends_at after.ends_at)

  abbrev effective_terms : BillableExpense Decimal → ℕ → BillableExpense Decimal
  effective_terms e month = elim (active_version e.obligation_versions month) [
    | none ↦ e
    | some v ↦ with_terms e v
  ]

  -- The loop over the days: whether one of them charges before the edit and not after, or after and
  -- not before.
  unfoldable pub footprint_differs :
      ℕ → BillableExpense Decimal → BillableExpense Decimal → ℕ → DayKey → DayKey → Bool
  footprint_differs zero before after c day closed = false
  footprint_differs (suc rounds) before after c day closed =
      let daily = closed_window day day in
      let prior = lt (of_ℕ 0) (charge_amount_decimal dec zone before c daily) in
      let proposed = lt (of_ℕ 0) (charge_amount_decimal dec zone after c daily) in
      let rest = footprint_differs rounds before after c (add_days_to_key day (pos 1)) closed in
      if key_gt day closed
      then false
      else if (prior && not proposed) || (proposed && not prior)
      then true
      else rest

  -- The charges of the month of the edit that are closed, where the card's share changes.
  unfoldable pub allocation_settled :
      BillableExpense Decimal → BillableExpense Decimal → ℕ → ℕ → DayKey → DayKey → Bool
  allocation_settled before after c month history closed =
      let old_terms = effective_terms before month in
      let new_terms = effective_terms after month in
      let old_share = split_share_for dec old_terms (SplitTarget.card c) in
      let new_share = split_share_for dec new_terms (SplitTarget.card c) in
      let changed =
        not (eq (times old_share new_terms.amount) (times new_share old_terms.amount)) in
      let y = month / 12 in
      let m = month % 12 in
      let start = month_first month in
      let end = day_key_of_date (day_key_to_date (day_key y m (last_day_of_month y m)) noon) in
      let closing = if key_lt closed end then closed else end in
      let cycle_start = if key_gt history start then history else start in
      let w = closed_window cycle_start closing in
      changed
      && not (key_lt closed start)
      && not (key_gt cycle_start closing)
      && (lt (of_ℕ 0) (charge_amount_decimal dec zone before c w)
          || lt (of_ℕ 0) (charge_amount_decimal dec zone after c w))

  -- The charges of the closed history, where the schedule changes.
  unfoldable pub schedule_settled :
      BillableExpense Decimal → BillableExpense Decimal → ℕ → DayKey → DayKey → Bool
  unfolding footprint_differs
  schedule_settled before after c history closed =
      let w = closed_window history closed in
      let previous = charge_amount_decimal dec zone before c w in
      let proposed = charge_amount_decimal dec zone after c w in
      if not (schedule_changed before after)
      then false
      else if occurrence_calendar_changed before after
      then (if not (lt (of_ℕ 0) previous) && not (lt (of_ℕ 0) proposed)
          then false
          else if ltb 10_000 (pos_part (diff_days closed history))
          then true
          else footprint_differs (suc (day_number closed) - day_number history) before after c
              history closed)
      else not (eq previous proposed)

  -- One card of the loop.
  unfoldable pub settled_on :
      BillableExpense Decimal → BillableExpense Decimal → ℕ → ClosedCard → Bool
  unfolding allocation_settled schedule_settled
  settled_on before after month card = elim card.last_invoiced_on [
    | none ↦ false
    | some invoiced ↦
        let closed = day_key_of_date invoiced in
        let earliest =
          earlier_of (recurring_start_key zone before) (recurring_start_key zone after) in
        let history : DayKey = elim card.created_at [
          | none ↦ earliest
          | some t ↦ later_of (zone t) earliest
        ] in
        if key_gt history closed
        then false
        else allocation_settled before after card.id month history closed
          || schedule_settled before after card.id history closed
  ]

  unfoldable pub has_settled_recurring_mutation :
      BillableExpense Decimal → BillableExpense Decimal → List ClosedCard → ℕ → Bool
  unfolding settled_on
  has_settled_recurring_mutation before after [] month = false
  has_settled_recurring_mutation before after (card ∷ cards) month =
      let rest = has_settled_recurring_mutation before after cards month in
      if settled_on before after month card then true else rest
