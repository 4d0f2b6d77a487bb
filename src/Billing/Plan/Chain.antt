-- ===== src/Billing/Plan/Chain.antt =====
-- The cycles that a run of `planCardBilling` (`backend/src/lib/billing/plan.ts`) closes, and what
-- they charge.
use native.Mathlib.Nat.{le_refl}
use demanage.Prelude.{
  ℕ, zero, suc, ◌+◌, ◌-◌, ◌≤◌, ◌<◌, ◌≡◌, refl, sym, ◌∙◌, ap, ◌⊎◌, inl, inr, false, none, some, List,
  [], ◌∷◌, arith, All, Option-cases,
}
use demanage.Prelude.Int.{ℤ, pos, ◌+ℤ◌, int_laws}
use demanage.Prelude.Decimals.{Decimals, IsExact}
use demanage.CivilDate.{DayKey, Instant, day_number, day_key_of_date}
use demanage.CivilDate.Years.{days_before_year}
use demanage.CivilDate.Order.{IsKey, rank}
use demanage.CivilDate.Numbers.{day_number_mono, full_number}
use demanage.CivilDate.Zone.{IsFullKey, IsZone}
use demanage.Billing.Expense.{BillableExpense, CycleWindow}
use demanage.Billing.Occurrences.{lower_inclusive}
use demanage.Billing.Occurrences.Cycles.{IsDatedExpense, IsWindow, lower_inclusive_lem}
use demanage.Billing.Charges.{charge_amount_decimal, charges_total_decimal}
use demanage.Billing.Charges.Days.{charge_amount_decimal_lem}
use demanage.Billing.Charges.Totals.{sum_of, charges_total_decimal_sum, charges_total_decimal_split}
use demanage.Billing.Plan.{
  BillingCardState, PlanState, next_closing, cycle_of, close_cycle, plan_loop, plan_rounds,
  start_state, plan_card_billing,
}
use demanage.Billing.Plan.Cycles.{next_closing-IsNext, full_after}

-- The cycles that the loop closes, in order.
pub plan_cycles :
    (dec : Decimals) (zone : Instant → DayKey)
    → ℕ
    → BillingCardState
    → List (BillableExpense dec.Decimal)
    → DayKey
    → Instant
    → PlanState dec.Decimal
    → List CycleWindow
plan_cycles dec zone zero card es cutoff now s = []
plan_cycles dec zone (suc rounds) card es cutoff now s = elim (next_closing s cutoff) [
  | none ↦ []
  | some k ↦
      cycle_of s k
      ∷ plan_cycles dec zone rounds card es cutoff now (close_cycle dec zone card es now s k)
]

-- The period from the start of a state to a key.
abbrev pub period_to : {D : Type 0} → PlanState D → DayKey → CycleWindow
period_to s k = cycle_of s k

pub close_cycle-start :
    (dec : Decimals) (zone : Instant → DayKey) (card : BillingCardState)
    (es : List (BillableExpense dec.Decimal)) (now : Instant) (s : PlanState dec.Decimal)
    (k : DayKey)
    → (close_cycle dec zone card es now s k).period_start_key ≡ k
unfolding close_cycle
close_cycle-start dec zone card es now s k = refl

close_cycle-include :
    (dec : Decimals) (zone : Instant → DayKey) (card : BillingCardState)
    (es : List (BillableExpense dec.Decimal)) (now : Instant) (s : PlanState dec.Decimal)
    (k : DayKey)
    → (close_cycle dec zone card es now s k).include_period_start ≡ false
unfolding close_cycle
close_cycle-include dec zone card es now s k = refl

module _ {dec : Decimals} (x : IsExact dec) {zone : Instant → DayKey} (z : IsZone zone)
    (card : BillingCardState) (es : List (BillableExpense dec.Decimal))
    (dated : All IsDatedExpense es) (cutoff : DayKey) (vc : IsKey cutoff) (now : Instant) where
  abbrev total_of : CycleWindow → ℤ
  total_of w = x.scaled (charges_total_decimal dec zone es card.id w)

  -- No day lies in the cycle from a key to itself.
  empty_cycle :
      (k : DayKey)
      → IsFullKey k
      → total_of (record { period_start_key = k; closing_key = k; include_period_start = false })
        ≡ pos 0
  empty_cycle k v = charges_total_decimal_sum x zone es card.id w ∙ go es dated
    where
      w : CycleWindow
      w = record { period_start_key = k; closing_key = k; include_period_start = false }

      vw : IsWindow w
      vw = record { start = v; closing = v }

      lower : day_number (lower_inclusive w) ≡ day_number k + 1
      lower = (lower_inclusive_lem w vw).1

      none_left : suc (day_number k) - day_number (lower_inclusive w) ≡ 0
      none_left = omega (arith, lower)

      go :
          (fs : List (BillableExpense dec.Decimal))
          → All IsDatedExpense fs
          → sum_of (λ e. x.scaled (charge_amount_decimal dec zone e card.id w)) fs ≡ pos 0
      go [] h = refl
      go (f ∷ fs) h =
          rw
            (
              charge_amount_decimal_lem x z f h.0 card.id w vw
                  (omega (arith, lower, full_number k v.0 v.1)),
              go fs h.1,
            )
            (rw none_left (omega int_laws))

  -- What is shown of the loop: where it ends, and what its cycles charge.
  abbrev Covers : ℕ → PlanState dec.Decimal → Type 0
  Covers rounds s =
      let t = plan_loop dec zone rounds card es cutoff now s in
      IsFullKey t.period_start_key
      × (day_number s.period_start_key ≤ day_number t.period_start_key)
      × (sum_of total_of (plan_cycles dec zone rounds card es cutoff now s)
          ≡ total_of (cycle_of s t.period_start_key))

  stopped :
      (s : PlanState dec.Decimal)
      → IsFullKey s.period_start_key
      → s.include_period_start ≡ false
      → pos 0 ≡ total_of (cycle_of s s.period_start_key)
  stopped s v i = sym (
      ap
        (λ b. total_of (record {
          period_start_key = s.period_start_key;
          closing_key = s.period_start_key;
          include_period_start = b;
        }))
        i
      ∙ empty_cycle s.period_start_key v)

  -- A cycle and what follows it charge what the period of both does.
  joined :
      (s : PlanState dec.Decimal) (k t : DayKey)
      → IsFullKey s.period_start_key
      → IsFullKey k
      → IsFullKey t
      → rank s.period_start_key < rank k
      → day_number k ≤ day_number t
      → days_before_year 100 < day_number (lower_inclusive (cycle_of s t))
      → total_of (cycle_of s k)
          +ℤ total_of
              (record { period_start_key = k; closing_key = t; include_period_start = false })
        ≡ total_of (cycle_of s t)
  joined s k t v vk vt above le full =
      let w = cycle_of s t in
      let vw : IsWindow w = record { start = v; closing = vt } in
      let (_, el) = lower_inclusive_lem w vw in
      let before = day_number_mono s.period_start_key k v.0 vk.0 v.1 above in
      sym (charges_total_decimal_split x z card.id w k vw vk full (ground arith) le es dated)

  -- A round before the others.
  one_more :
      (rounds : ℕ) (s : PlanState dec.Decimal) (k : DayKey)
      → IsFullKey s.period_start_key
      → next_closing s cutoff ≡ some k
      → (IsFullKey k → Covers rounds (close_cycle dec zone card es now s k))
      → days_before_year 100 < day_number s.period_start_key + 1
      → (s.include_period_start ≡ false) ⊎ (days_before_year 100 < day_number s.period_start_key)
      → let t =
          plan_loop dec zone rounds card es cutoff now (close_cycle dec zone card es now s k) in
        IsFullKey t.period_start_key
        × (day_number s.period_start_key ≤ day_number t.period_start_key)
        × (total_of (cycle_of s k)
              +ℤ sum_of total_of (
                  plan_cycles dec zone rounds card es cutoff now
                    (close_cycle dec zone card es now s k))
            ≡ total_of (cycle_of s t.period_start_key))
  unfolding close_cycle
  one_more rounds s k v found rest full opens =
      let n = next_closing-IsNext s cutoff k v.0 vc found in
      let vk = full_after s.period_start_key k v n.due.valid n.due.above in
      let (vt, le, sum) = rest vk in
      let before = day_number_mono s.period_start_key k v.0 vk.0 v.1 n.due.above in
      let t =
        (plan_loop dec zone rounds card es cutoff now
          (close_cycle dec zone card es now s k)).period_start_key in
      let w = cycle_of s t in
      let vw : IsWindow w = record { start = v; closing = vt } in
      let (_, el) = lower_inclusive_lem w vw in
      (
        vt,
        omega arith,
        ap (λ a. total_of (cycle_of s k) +ℤ a) sum
            ∙ joined s k t v vk vt n.due.above le (ground arith),
      )

  -- From a state after a closing on.
  plan_cycles_rest :
      (rounds : ℕ) (s : PlanState dec.Decimal)
      → IsFullKey s.period_start_key
      → s.include_period_start ≡ false
      → Covers rounds s
  unfolding plan_cycles plan_loop
  plan_cycles_rest zero s v i = (v, le_refl _, stopped s v i)
  plan_cycles_rest (suc rounds) s v i = elim (Option-cases (next_closing s cutoff)) [
    | inl done ↦ rw (done, plan_loop, plan_cycles) (v, le_refl _, stopped s v i)
    | inr (k, found) ↦
        rw (found, plan_loop, plan_cycles)
          (one_more rounds s k v found
            (λ vk.
              plan_cycles_rest rounds (close_cycle dec zone card es now s k)
                (rw (close_cycle-start dec zone card es now s k) vk)
                (close_cycle-include dec zone card es now s k))
            (omega (arith, full_number s.period_start_key v.0 v.1)) (inl i))
  ]

  -- From a state that has a cycle to close.
  plan_cycles_first :
      (rounds : ℕ) (s : PlanState dec.Decimal) (k : DayKey)
      → IsFullKey s.period_start_key
      → days_before_year 100 < day_number s.period_start_key
      → next_closing s cutoff ≡ some k
      → Covers (suc rounds) s
  unfolding plan_loop plan_cycles
  plan_cycles_first rounds s k v full found =
      rw (found, plan_loop, plan_cycles)
        (one_more rounds s k v found
          (λ vk.
            plan_cycles_rest rounds (close_cycle dec zone card es now s k)
              (rw (close_cycle-start dec zone card es now s k) vk)
              (close_cycle-include dec zone card es now s k))
          (omega arith) (inr full))

  -- Where a run closes a cycle, the cycles that it closes charge the card together what the one
  -- period from the start of the first to the last closing does, so that no charge is made
  -- twice or skipped, also where the closing day changes on the way. The decimals are exact and
  -- the zone lawful, the expenses are dated from the year 101 on, the cutoff is a valid day,
  -- and the period starts on a valid day after the first of the year 100.
  pub plan_cycles_total :
      (cutoff_date : Instant) (k : DayKey)
      → day_key_of_date cutoff_date ≡ cutoff
      → let s = start_state dec zone card in
        IsFullKey s.period_start_key
        → days_before_year 100 < day_number s.period_start_key
        → next_closing s cutoff ≡ some k
        → let t = plan_card_billing dec zone card es cutoff_date now in
          sum_of total_of (plan_cycles dec zone (plan_rounds s cutoff) card es cutoff now s)
          ≡ total_of (cycle_of s t.period_start_key)
  unfolding plan_card_billing
  plan_cycles_total cutoff_date k e v full found =
      let s = start_state dec zone card in
      rw e (plan_cycles_first (rank cutoff - rank s.period_start_key) s k v full found).2
