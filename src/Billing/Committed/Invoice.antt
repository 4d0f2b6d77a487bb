-- ===== src/Billing/Committed/Invoice.antt =====
-- The amount of `getCommittedByCard` (`backend/src/lib/expense-splits.ts`) and the planner's
-- invoice.
use demanage.Prelude.{
  ◌+◌, ◌-◌, ◌<◌, ◌≡◌, refl, sym, ap, ◌∙◌, inl, inr, Bool, true, false, Option, none, some, List, [],
  ◌∷◌, map, Bool-cases, Option-cases, if◌then◌else◌,
}
use demanage.Prelude.Int.{int_laws, negsuc}
use demanage.Prelude.Decimals.{Decimals, IsExact}
use demanage.CivilDate.{
  DayKey, Instant, noon, key_gt, day_number, add_days_to_key, day_key_of_date, day_key_to_date,
}
use demanage.CivilDate.Years.{days_before_year}
use demanage.CivilDate.Order.{rank}
use demanage.CivilDate.Numbers.{day_key_of_date-day_key_to_date}
use demanage.CivilDate.Zone.{IsFullKey, IsDated, AllDated, day_key_of_date-IsFullKey}
use demanage.Billing.Calendar.{max_months, next_closing_on_or_after}
use demanage.Billing.Calendar.Closings.{month_no}
use demanage.Billing.Expense.{BillableExpense, CycleWindow}
use demanage.Billing.Charges.{charges_total_decimal, late_one_offs_decimal}
use demanage.Billing.Plan.{
  BillingCardState, PlannedInvoice, current_cycle_window, period_start_of, start_state,
  cycle_amount, late_adjustment, first_close_adjustment, cycle_of, key_of_date, next_closing,
  invoice_of, close_cycle, plan_card_billing,
}
use demanage.Billing.Plan.Cycles.{full_after, plan_loop-last}
use demanage.Billing.Plan.Chain.{close_cycle-start}
use demanage.Billing.Committed.{cycle_card, committed_in, get_committed}
use demanage.Billing.Committed.Closing.{floor_of, IsKeyIfAny, find_next, yesterday_follows}

some_inj {ℓ} : {A : Type ℓ} {a b : A} → some a ≡ some b → b ≡ a
some_inj e = cc

no_window {ℓ} : {A : Type ℓ} {a : A} → none ≡ some a → ⊥
no_window e = cc

-- A window that is made of a closing day found has that closing day.
window_of :
    (start : DayKey) (open_ : Bool) (o : Option DayKey) (w : CycleWindow)
    → Path
        (Option CycleWindow)
        (elim o [
          | none ↦ none
          | some k ↦
              some
                (record { period_start_key = start; closing_key = k; include_period_start = open_ })
        ])
        (some w)
    → w ≡ record {
      period_start_key = start;
      closing_key = w.closing_key;
      include_period_start = open_;
    }
window_of start open_ none w e = absurd (no_window e)
window_of start open_ (some k) w e = rw (some_inj e) refl

found_of :
    (start : DayKey) (open_ : Bool) (o : Option DayKey) (w : CycleWindow)
    → Path
        (Option CycleWindow)
        (elim o [
          | none ↦ none
          | some k ↦
              some
                (record { period_start_key = start; closing_key = k; include_period_start = open_ })
        ])
        (some w)
    → o ≡ some w.closing_key
found_of start open_ none w e = absurd (no_window e)
found_of start open_ (some k) w e = rw (some_inj e) refl

floor_lem :
    (minimum : Option Instant) (today : DayKey)
    → (let least : DayKey = elim minimum [ none ↦ today | some t ↦ day_key_of_date t ] in
        if key_gt least today then least else today)
      ≡ floor_of (key_of_date minimum) today
floor_lem none today = same (key_gt today today)
  where
    same : (b : Bool) → (if b then today else today) ≡ today
    same true = refl
    same false = refl
floor_lem (some t) today = refl

-- The closing and the amount of each invoice.
abbrev pub billed : {D : Type 0} → List (PlannedInvoice D) → List (Instant × D)
billed invoices = map (λ i. (i.closing_on, i.amount)) invoices

minimum_key : (minimum : Option Instant) → AllDated minimum → IsKeyIfAny (key_of_date minimum)
minimum_key none h = tt
minimum_key (some t) h = (day_key_of_date-IsFullKey t h).0

module _ {dec : Decimals} (x : IsExact dec) (zone : Instant → DayKey) where
  plus_zero : (a : dec.Decimal) → dec.plus a (dec.of_ℕ 0) ≡ a
  plus_zero a = x.scaled_inj _ _ (x.scaled-plus a (dec.of_ℕ 0) ∙ rw x.scaled-zero (omega int_laws))

  module _ (card : BillingCardState) (es : List (BillableExpense dec.Decimal)) (invoiced : Instant)
      (closed : card.last_invoiced_on ≡ some invoiced) where
    -- The window of the open cycle is the planner's, at its closing day.
    window_lem :
        (today : DayKey) (w : CycleWindow)
        → current_cycle_window zone (cycle_card card) today ≡ some w
        → w ≡ cycle_of (start_state dec zone card) w.closing_key
    unfolding current_cycle_window start_state
    window_lem today w e =
        window_of _ _ _ w e
        ∙ ap
            (λ o. record {
              period_start_key = period_start_of zone card.last_invoiced_on card.created_at;
              closing_key = w.closing_key;
              include_period_start = o;
            })
            refl

    opened :
        (k : DayKey)
        → ◌≡◌ {A = CycleWindow}
            (record {
              period_start_key = day_key_of_date invoiced;
              closing_key = k;
              include_period_start = false;
            })
            (cycle_of (start_state dec zone card) k)
    unfolding start_state
    opened k = rw (closed, start_state) refl

    amount_lem :
        (k : DayKey)
        → cycle_amount dec zone card es (start_state dec zone card) k
          ≡ dec.to_money (committed_in dec zone card es (cycle_of (start_state dec zone card) k))
    unfolding cycle_amount committed_in late_adjustment first_close_adjustment start_state
    amount_lem k = elim (Option-cases card.last_billing_processed_at) [
      | inl never ↦
          rw (closed, never, cycle_amount, late_adjustment, first_close_adjustment, committed_in)
            (ap dec.to_money (
              plus_zero _
              ∙ plus_zero _
              ∙ ap (λ w. charges_total_decimal dec zone es card.id w) (opened k)))
      | inr (t, processed) ↦
          rw
            (closed, processed, cycle_amount, late_adjustment, first_close_adjustment, committed_in)
            (ap dec.to_money (
              plus_zero _
              ∙ ap
                  (λ w. dec.plus (charges_total_decimal dec zone es card.id w) (
                    late_one_offs_decimal dec zone es card.id
                      (day_key_to_date (start_state dec zone card).period_start_key noon) t))
                  (opened k)))
    ]

    -- The search of the open cycle, from the start of the planner's state.
    searched :
        (today : DayKey) (w : CycleWindow)
        → current_cycle_window zone (cycle_card card) today ≡ some w
        → next_closing_on_or_after card.closing_day
            (start_state dec zone card).period_start_key
            (floor_of (key_of_date card.minimum_next_closing_on) today)
          ≡ some w.closing_key
    unfolding current_cycle_window start_state
    searched today w e =
        ap (next_closing_on_or_after card.closing_day (start_state dec zone card).period_start_key)
          (sym (floor_lem card.minimum_next_closing_on today))
        ∙ found_of _ _ _ w e

    start_is : (start_state dec zone card).period_start_key ≡ day_key_of_date invoiced
    unfolding start_state
    start_is = rw closed refl

    -- The planner closes the open cycle next.
    closes_next :
        (today : DayKey) (w : CycleWindow)
        → IsDated invoiced
        → AllDated card.minimum_next_closing_on
        → IsFullKey today
        → days_before_year 100 < day_number today
        → month_no
              (floor_of (key_of_date card.minimum_next_closing_on) today).year
              (floor_of (key_of_date card.minimum_next_closing_on) today).month_index
            + 1
          < month_no (day_key_of_date invoiced).year (day_key_of_date invoiced).month_index
            + max_months
        → next_closing (start_state dec zone card) (add_days_to_key today (negsuc 0)) ≡ none
        → current_cycle_window zone (cycle_card card) today ≡ some w
        → (next_closing (start_state dec zone card) w.closing_key ≡ some w.closing_key)
          × IsFullKey w.closing_key
          × (rank (start_state dec zone card).period_start_key < rank w.closing_key)
    unfolding next_closing start_state
    closes_next today w di dm vt early near done e =
        let vs : IsFullKey (start_state dec zone card).period_start_key =
          rw closed (day_key_of_date-IsFullKey invoiced di) in
        let (vy, follows) = yesterday_follows today vt early in
        let (found, vk, after) =
          find_next card.closing_day (start_state dec zone card).period_start_key today
            (add_days_to_key today (negsuc 0)) (key_of_date card.minimum_next_closing_on) vs.0 vt.0
            vy.0 (minimum_key card.minimum_next_closing_on dm) follows (rw start_is near) done
            w.closing_key (searched today w e) in
        (
          found,
          full_after (start_state dec zone card).period_start_key w.closing_key vs vk after,
          after,
        )

    billed_once :
        (now : Instant) (k : DayKey)
        → billed (close_cycle dec zone card es now (start_state dec zone card) k).invoices ≡ (
            if dec.lt (dec.of_ℕ 0) (cycle_amount dec zone card es (start_state dec zone card) k)
            then (
              day_key_to_date k noon,
              cycle_amount dec zone card es (start_state dec zone card) k,
            )
              ∷ []
            else [])
    unfolding close_cycle invoice_of start_state
    billed_once now k =
        elim (Bool-cases
          (dec.lt (dec.of_ℕ 0) (cycle_amount dec zone card es (start_state dec zone card) k))) [
            | inl owed ↦ rw (owed, invoice_of) refl
            | inr nothing ↦ rw (nothing, invoice_of) refl
          ]

    run_once :
        (now : Instant) (k : DayKey)
        → IsFullKey k
        → next_closing (start_state dec zone card) k ≡ some k
        → plan_card_billing dec zone card es (day_key_to_date k noon) now
          ≡ close_cycle dec zone card es now (start_state dec zone card) k
    unfolding plan_card_billing
    run_once now k vk found = rw (day_key_of_date-day_key_to_date k noon vk.0 vk.1) (
        plan_loop-last dec zone card es k now
          (rank k - rank (start_state dec zone card).period_start_key) (start_state dec zone card)
          vk.0 found)

    -- On a card with an invoice and no closing due up to yesterday, where the open cycle is
    -- found, a run of the planner up to the closing of that cycle ends at it, and bills for the
    -- same expenses one invoice, dated at the closing, of what is committed, rounded to cents,
    -- or none where that is not above zero. Today is a valid day after the first of the year
    -- 100, the invoice and the bound of the next closing, if any, are dated from the year 101
    -- on, the month after that of today, or of a later bound, is less than 1200 months after
    -- that of the invoice, and the decimals are exact.
    pub get_committed_lem :
        (today : DayKey) (w : CycleWindow) (now : Instant)
        → IsDated invoiced
        → AllDated card.minimum_next_closing_on
        → IsFullKey today
        → days_before_year 100 < day_number today
        → month_no
              (floor_of (key_of_date card.minimum_next_closing_on) today).year
              (floor_of (key_of_date card.minimum_next_closing_on) today).month_index
            + 1
          < month_no (day_key_of_date invoiced).year (day_key_of_date invoiced).month_index
            + max_months
        → next_closing (start_state dec zone card) (add_days_to_key today (negsuc 0)) ≡ none
        → current_cycle_window zone (cycle_card card) today ≡ some w
        → let closing_on = day_key_to_date w.closing_key noon in
          let run = plan_card_billing dec zone card es closing_on now in
          (a : dec.Decimal) × (get_committed dec zone es today card ≡ some a)
          × (billed run.invoices ≡ (
              if dec.lt (dec.of_ℕ 0) (dec.to_money a)
              then (closing_on, dec.to_money a) ∷ []
              else []))
          × (run.period_start_key ≡ w.closing_key)
    unfolding get_committed
    get_committed_lem today w now di dm vt early near done e =
        let (found, vk, _) = closes_next today w di dm vt early near done e in
        let run = run_once now w.closing_key vk found in
        let amount : cycle_amount dec zone card es (start_state dec zone card) w.closing_key
            ≡ dec.to_money (committed_in dec zone card es w) =
          amount_lem w.closing_key
          ∙ ap (λ v. dec.to_money (committed_in dec zone card es v)) (sym (window_lem today w e)) in
        (
          committed_in dec zone card es w,
          rw (e, get_committed) refl,
          ap (λ s. billed s.invoices) run
              ∙ billed_once now w.closing_key
              ∙ ap
                  (λ a.
                    if dec.lt (dec.of_ℕ 0) a
                    then (day_key_to_date w.closing_key noon, a) ∷ []
                    else [])
                  amount,
          ap (λ s. s.period_start_key) run
              ∙ close_cycle-start dec zone card es now (start_state dec zone card) w.closing_key,
        )
