-- ===== src/Billing/Plan/Cycles.antt =====
-- The rounds of the loop of `planCardBilling` (`backend/src/lib/billing/plan.ts`).
use demanage.Prelude.{
  ℕ, zero, suc, ◌+◌, ◌<◌, ◌≡◌, refl, ap, inl, inr, Bool, true, none, some, List, [], ◌∷◌, arith,
  All, Bool-cases, Option-cases, find,
}
use demanage.Prelude.Decimals.{Decimals}
use demanage.CivilDate.{DayKey, Instant, day_key_of_date}
use demanage.CivilDate.Order.{IsKey, rank, IsKey-bounds}
use demanage.CivilDate.Zone.{IsFullKey}
use demanage.Billing.Calendar.{list_closing_day_keys}
use demanage.Billing.Calendar.Closings.{Due, list_closing_day_keys-Due}
use demanage.Billing.Expense.{BillableExpense}
use demanage.Billing.Plan.{
  BillingCardState, PlanState, not_before, next_closing, close_cycle, plan_loop, plan_rounds,
  start_state, plan_card_billing,
}

find-All {ℓ κ} :
    {A : Type ℓ} (P : A → Type κ) (p : A → Bool) (xs : List A) (a : A)
    → All P xs
    → find p xs ≡ some a
    → P a × (p a ≡ true)
find-All P p [] a h e = cc
find-All P p (x ∷ xs) a h e = elim (Bool-cases (p x)) [
  | inl hit ↦
      let e' : some x ≡ some a = rw hit at e in let same : x ≡ a = cc in rw (← same) (h.0, hit)
  | inr miss ↦ find-All P p xs a h.1 (rw miss at e)
]

-- The closing day that a round finds.
pub record IsNext {D : Type 0} (s : PlanState D) (cutoff k : DayKey) : Type 0 where
  pub due : Due s.closing_day s.period_start_key cutoff k
  pub on_or_after : not_before s.minimum_next_closing_key k ≡ true

pub next_closing-IsNext :
    {D : Type 0} (s : PlanState D) (cutoff k : DayKey)
    → IsKey s.period_start_key
    → IsKey cutoff
    → next_closing s cutoff ≡ some k
    → IsNext s cutoff k
unfolding next_closing
next_closing-IsNext s cutoff k vs vc e =
    let (due, late) =
      find-All (Due s.closing_day s.period_start_key cutoff) (not_before s.minimum_next_closing_key)
        (list_closing_day_keys s.closing_day s.period_start_key cutoff) k
        (list_closing_day_keys-Due s.closing_day s.period_start_key cutoff vs vc) e in
    record { due = due; on_or_after = late }

-- A key after a key of a full year is of a full year.
pub full_after : (a b : DayKey) → IsFullKey a → IsKey b → rank a < rank b → IsFullKey b
full_after a b va vb lt = (vb, omega (arith, IsKey-bounds va.0, IsKey-bounds vb))

-- A loop with no closing day left stays.
pub idle :
    (dec : Decimals) (zone : Instant → DayKey) (card : BillingCardState)
    (es : List (BillableExpense dec.Decimal)) (cutoff : DayKey) (now : Instant) (rounds : ℕ)
    (s : PlanState dec.Decimal)
    → next_closing s cutoff ≡ none
    → plan_loop dec zone rounds card es cutoff now s ≡ s
unfolding plan_loop
idle dec zone card es cutoff now zero s done = refl
idle dec zone card es cutoff now (suc rounds) s done = rw (done, plan_loop) refl

-- One closing day is left, the cutoff: the loop closes it and stops.
pub plan_loop-last :
    (dec : Decimals) (zone : Instant → DayKey) (card : BillingCardState)
    (es : List (BillableExpense dec.Decimal)) (k : DayKey) (now : Instant) (rounds : ℕ)
    (s : PlanState dec.Decimal)
    → IsKey k
    → next_closing s k ≡ some k
    → plan_loop dec zone (suc rounds) card es k now s ≡ close_cycle dec zone card es now s k
unfolding plan_loop close_cycle
plan_loop-last dec zone card es k now rounds s vk found =
    let t = close_cycle dec zone card es now s k in
    rw (found, plan_loop) (idle dec zone card es k now rounds t (stopped t refl))
  where
    stopped : (t : PlanState dec.Decimal) → t.period_start_key ≡ k → next_closing t k ≡ none
    stopped t same = elim (Option-cases (next_closing t k)) [
      | inl done ↦ done
      | inr (j, again) ↦
          let vt : IsKey t.period_start_key = rw same vk in
          let n = next_closing-IsNext t k j vt vk again in
          let e : rank t.period_start_key ≡ rank k = ap rank same in
          absurd (omega (arith, n.due.above, n.due.below, e))
    ]

module _ (dec : Decimals) (zone : Instant → DayKey) (card : BillingCardState)
    (es : List (BillableExpense dec.Decimal)) (cutoff : DayKey) (vc : IsKey cutoff)
    (now : Instant) where
  -- With a round for each day up to the cutoff the loop stops by itself.
  pub plan_loop_ends :
      (rounds : ℕ) (s : PlanState dec.Decimal)
      → IsKey s.period_start_key
      → rank cutoff < rank s.period_start_key + rounds
      → let t = plan_loop dec zone rounds card es cutoff now s in
        (next_closing t cutoff ≡ none) × IsKey t.period_start_key
  unfolding plan_loop close_cycle
  plan_loop_ends zero s vs few = elim (Option-cases (next_closing s cutoff)) [
    | inl done ↦ (done, vs)
    | inr (k, found) ↦
        let n = next_closing-IsNext s cutoff k vs vc found in
        absurd (omega (arith, n.due.above, n.due.below))
  ]
  plan_loop_ends (suc rounds) s vs few = elim (Option-cases (next_closing s cutoff)) [
    | inl done ↦ rw (done, plan_loop) (done, vs)
    | inr (k, found) ↦
        let n = next_closing-IsNext s cutoff k vs vc found in
        rw (found, plan_loop)
          (plan_loop_ends rounds (close_cycle dec zone card es now s k) n.due.valid
            (omega (arith, n.due.above, few)))
  ]

  -- The rounds given to the planner's loop are enough: a run ends with no closing day left up
  -- to the cutoff, which is the loop's own test, and on a valid day. The cutoff and the start
  -- of the open period are valid days.
  pub plan_card_billing_ends :
      (cutoff_date : Instant)
      → day_key_of_date cutoff_date ≡ cutoff
      → IsKey (start_state dec zone card).period_start_key
      → let t = plan_card_billing dec zone card es cutoff_date now in
        (next_closing t cutoff ≡ none) × IsKey t.period_start_key
  unfolding plan_card_billing
  plan_card_billing_ends cutoff_date e vs = rw e (
      plan_loop_ends (plan_rounds (start_state dec zone card) cutoff) (start_state dec zone card) vs
        (omega arith))
