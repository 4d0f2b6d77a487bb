-- ===== src/Billing/Plan/Rerun.antt =====
-- `planCardBilling` (`backend/src/lib/billing/plan.ts`) on a card as a run of it leaves it.
use demanage.Prelude.{
  ℕ, zero, suc, ◌-◌, ◌≡◌, refl, ◌∙◌, ap, inl, inr, Option, none, some, List, [], arith,
  Option-cases,
}
use demanage.Prelude.Int.{pos}
use demanage.Prelude.Decimals.{Decimals}
use demanage.CivilDate.{DayKey, Instant, noon, day_key_of_date, day_key_to_date, add_days_to_key}
use demanage.CivilDate.Order.{IsKey, rank}
use demanage.CivilDate.Numbers.{add_days_to_key_forward, day_key_of_date-day_key_to_date}
use demanage.CivilDate.Zone.{IsFullKey}
use demanage.Billing.Expense.{BillableExpense}
use demanage.Billing.Plan.{
  BillingCardState, CardUpdate, PlanState, update_of, clear_minimum, reschedule, next_closing,
  close_cycle, plan_loop, plan_rounds, start_state, plan_card_billing, apply_update, key_of_date,
  period_start_of, min_cycle_days_after_closing_change, pending_set_key,
}
use demanage.Billing.Plan.Cycles.{next_closing-IsNext, full_after, plan_loop_ends}

-- The stored schedule is that of the loop.
pub record Stored (card : BillingCardState) (u : Option CardUpdate) (day : ℕ) (pending : Option ℕ)
    (minimum : Option DayKey) : Type 0 where
  pub day_is : (apply_update card u).closing_day ≡ day
  pub pending_is : (apply_update card u).pending_closing_day ≡ pending
  pub minimum_is : key_of_date (apply_update card u).minimum_next_closing_on ≡ minimum

-- The round keeps that, whatever it does with the schedule.
reschedule-Stored :
    (card : BillingCardState) (u : Option CardUpdate) (day : ℕ) (pending : Option ℕ)
    (set_key minimum : Option DayKey) (closing : DayKey) (at now : Instant)
    → IsFullKey closing
    → Stored card u day pending minimum
    → let r = reschedule day pending set_key minimum closing (update_of u at now) in
      Stored card (some r.update) r.closing_day r.pending_closing_day r.minimum_next_closing_key
      × (r.update.last_invoiced_on ≡ at)
unfolding reschedule clear_minimum apply_update
reschedule-Stored card none day pending set_key minimum closing at now v h =
    let floor = add_days_to_key closing (pos min_cycle_days_after_closing_change) in
    let f = add_days_to_key_forward closing min_cycle_days_after_closing_change v.0 v.1 in
    let e = day_key_of_date-day_key_to_date floor noon f.0 f.1 in ground (arith, e)
reschedule-Stored card (some u) day pending set_key minimum closing at now v h =
    let floor = add_days_to_key closing (pos min_cycle_days_after_closing_change) in
    let f = add_days_to_key_forward closing min_cycle_days_after_closing_change v.0 v.1 in
    let e = day_key_of_date-day_key_to_date floor noon f.0 f.1 in ground (arith, e)

nothing_due :
    (dec : Decimals) (zone : Instant → DayKey) (card : BillingCardState)
    (es : List (BillableExpense dec.Decimal)) (cutoff : DayKey) (now : Instant) (rounds : ℕ)
    (s : PlanState dec.Decimal)
    → next_closing s cutoff ≡ none
    → plan_loop dec zone (suc rounds) card es cutoff now s ≡ s
unfolding plan_loop
nothing_due dec zone card es cutoff now rounds s done = rw (done, plan_loop)

module _ (dec : Decimals) (zone : Instant → DayKey) (card : BillingCardState)
    (es : List (BillableExpense dec.Decimal)) (cutoff : DayKey) (vc : IsKey cutoff)
    (now : Instant) where
  -- The card with the update of a state stands where the state does.
  pub record Follows (s : PlanState dec.Decimal) : Type 0 where
    pub stored : Stored card s.update s.closing_day s.pending_closing_day s.minimum_next_closing_key
    pub start_is :
        period_start_of zone
          (apply_update card s.update).last_invoiced_on
          (apply_update card s.update).created_at
        ≡ s.period_start_key
    pub full : IsFullKey s.period_start_key

  pub start_state-Follows :
      IsFullKey (start_state dec zone card).period_start_key → Follows (start_state dec zone card)
  unfolding start_state apply_update
  start_state-Follows v = record {
    stored = record { day_is = refl; pending_is = refl; minimum_is = refl };
    start_is = refl;
    full = v;
  }

  close_cycle-Follows :
      (s : PlanState dec.Decimal) (k : DayKey)
      → Follows s
      → IsFullKey k
      → Follows (close_cycle dec zone card es now s k)
  unfolding close_cycle apply_update
  close_cycle-Follows s k h v =
      let (kept, at) =
        reschedule-Stored card s.update s.closing_day s.pending_closing_day
          (pending_set_key dec zone card) s.minimum_next_closing_key k (day_key_to_date k noon) now
          v h.stored in
      record {
        stored = kept;
        start_is = ap day_key_of_date at ∙ day_key_of_date-day_key_to_date k noon v.0 v.1;
        full = v;
      }

  pub plan_loop-Follows :
      (rounds : ℕ) (s : PlanState dec.Decimal)
      → Follows s
      → Follows (plan_loop dec zone rounds card es cutoff now s)
  unfolding plan_loop
  plan_loop-Follows zero s h = h
  plan_loop-Follows (suc rounds) s h = elim (Option-cases (next_closing s cutoff)) [
    | inl done ↦ rw (done, plan_loop) h
    | inr (k, found) ↦
        let n = next_closing-IsNext s cutoff k h.full.0 vc found in
        rw (found, plan_loop)
          (plan_loop-Follows rounds (close_cycle dec zone card es now s k) (
            close_cycle-Follows s k h
              (full_after s.period_start_key k h.full n.due.valid n.due.above)))
  ]

  -- A state that a `Follows` state is stored as has the same closing days left.
  next_closing-stored :
      (s : PlanState dec.Decimal)
      → Follows s
      → next_closing (start_state dec zone (apply_update card s.update)) cutoff
        ≡ next_closing s cutoff
  unfolding next_closing start_state
  next_closing-stored s h = rw (h.stored.minimum_is, h.stored.day_is, h.start_is)

  -- With the card stored as a run up to a day leaves it, a second run up to the same day plans
  -- no invoice and no update, whatever the expenses and the clock are by then; the cutoff is a
  -- valid day, and the open period of the card starts on a valid day of the year 100 or later.
  pub plan_card_billing_again :
      (cutoff_date : Instant) (later : List (BillableExpense dec.Decimal)) (then_ : Instant)
      → day_key_of_date cutoff_date ≡ cutoff
      → IsFullKey (start_state dec zone card).period_start_key
      → let t = plan_card_billing dec zone card es cutoff_date now in
        let again =
          plan_card_billing dec zone (apply_update card t.update) later cutoff_date then_ in
        (again.invoices ≡ []) × (again.update ≡ none)
  unfolding plan_card_billing start_state
  plan_card_billing_again cutoff_date later then_ e v =
      rw e (nothing (next_closing-stored t follows ∙ ends.0))
    where
      t : PlanState dec.Decimal
      t =
          plan_loop dec zone (plan_rounds (start_state dec zone card) cutoff) card es cutoff now
            (start_state dec zone card)

      follows : Follows t
      follows =
          plan_loop-Follows (plan_rounds (start_state dec zone card) cutoff)
            (start_state dec zone card) (start_state-Follows v)

      ends : (next_closing t cutoff ≡ none) × IsKey t.period_start_key
      ends =
          plan_loop_ends dec zone card es cutoff vc now
            (plan_rounds (start_state dec zone card) cutoff) (start_state dec zone card) v.0
            (omega arith)

      s : PlanState dec.Decimal
      s = start_state dec zone (apply_update card t.update)

      nothing :
          next_closing s cutoff ≡ none
          → let again =
              plan_loop dec zone
                (plan_rounds s cutoff)
                (apply_update card t.update)
                later
                cutoff
                then_
                s in
            (again.invoices ≡ []) × (again.update ≡ none)
      nothing done =
          rw
            (nothing_due dec zone (apply_update card t.update) later cutoff then_
              (rank cutoff - rank s.period_start_key) s done)
            (refl, refl)
