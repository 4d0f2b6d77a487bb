-- ===== src/Billing/Plan/CatchUp.antt =====
-- A run of `planCardBilling` (`backend/src/lib/billing/plan.ts`) up to a day, and one from there up
-- to a later day.
use demanage.Prelude.{
  ℕ, zero, suc, ◌+◌, ◌≤◌, ◌<◌, ◌≡◌, refl, sym, ◌∙◌, ◌⊎◌, inl, inr, Bool, false, Option, none, some,
  List, arith, Bool-cases, Option-cases, find,
}
use demanage.Prelude.Decimals.{Decimals}
use demanage.CivilDate.{
  DayKey, Instant, noon, day_key_of_date, day_key_to_date, key_gt, next_year, next_month,
}
use demanage.CivilDate.Order.{IsKey, rank, key_gt-rank}
use demanage.CivilDate.Zone.{IsFullKey}
use demanage.Billing.Calendar.{
  closing_day_key_in_month, closings_from, list_closing_day_keys, max_months,
}
use demanage.Billing.Calendar.Closings.{closing-IsKey, next_month_lem}
use demanage.Billing.Expense.{BillableExpense}
use demanage.Billing.Plan.{
  BillingCardState, PlanState, CardUpdate, update_of, not_before, clear_minimum, reschedule,
  next_closing, close_cycle, plan_loop, plan_rounds, start_state, plan_card_billing, apply_update,
  pending_set_key,
}
use demanage.Billing.Plan.Cycles.{next_closing-IsNext, idle}
use demanage.Billing.Plan.Chain.{close_cycle-start}
use demanage.Billing.Plan.Rerun.{Follows, plan_loop-Follows, start_state-Follows}

module _ (c : ℕ) (after near far : DayKey) (vn : IsKey near) (vf : IsKey far)
    (le : rank near ≤ rank far) where
  -- The first closing day of a range is that of a longer range.
  closings_from-longer :
      (p : DayKey → Bool) (n y m : ℕ) (k : DayKey)
      → m < 12
      → find p (closings_from c after near n y m) ≡ some k
      → find p (closings_from c after far n y m) ≡ some k
  unfolding closings_from
  closings_from-longer p zero y m k h e = e
  closings_from-longer p (suc n) y m k h e =
      let d = closing_day_key_in_month y m c in
      let vd = closing-IsKey y m c h in
      let rest =
        closings_from-longer p n (next_year y m) (next_month m) k (next_month_lem y m h).1 in
      elim (Bool-cases (key_gt d near)) [
        | inl past ↦ absurd (nothing (rw past at e))
        | inr within ↦
            let within' : key_gt d far ≡ false =
              ground (arith, within, key_gt-rank vd vn, key_gt-rank vd vf) in
            elim (Bool-cases (key_gt d after)) [
              | inr early ↦ rw (within', early) (rest (rw (within, early) at e))
              | inl due ↦ elim (Bool-cases (p d)) [
                | inl hit ↦ rw (within', due, hit) (rw (within, due, hit) at e)
                | inr miss ↦ rw (within', due, miss) (rest (rw (within, due, miss) at e))
              ]
            ]
      ]
    where
      nothing : {k : DayKey} → none ≡ some k → ⊥
      nothing e = cc

  next_closing-longer :
      {D : Type 0} (s : PlanState D) (k : DayKey)
      → s.closing_day ≡ c
      → s.period_start_key ≡ after
      → IsKey after
      → next_closing s near ≡ some k
      → next_closing s far ≡ some k
  unfolding next_closing list_closing_day_keys
  next_closing-longer s k ec ea va e =
      rw (ec, ea)
        (closings_from-longer (not_before s.minimum_next_closing_key) max_months after.year
          after.month_index k va.month_in (rw (ec, ea) at e))

-- Two states that close the same cycles.
pub record SameSchedule {D : Type 0} (s t : PlanState D) : Type 0 where
  pub start_is : s.period_start_key ≡ t.period_start_key
  pub day_is : s.closing_day ≡ t.closing_day
  pub pending_is : s.pending_closing_day ≡ t.pending_closing_day
  pub minimum_is : s.minimum_next_closing_key ≡ t.minimum_next_closing_key

-- The change of a schedule does not rest on the update, nor on the day a change was set where none
-- waits.
reschedule_same :
    (day : ℕ) (pending : Option ℕ) (set_key set_key' minimum : Option DayKey) (closing : DayKey)
    (u u' : CardUpdate)
    → (pending ≡ none) ⊎ (set_key ≡ set_key')
    → let r = reschedule day pending set_key minimum closing u in
      let r' = reschedule day pending set_key' minimum closing u' in
      (r.closing_day ≡ r'.closing_day)
      × (r.pending_closing_day ≡ r'.pending_closing_day)
      × (r.minimum_next_closing_key ≡ r'.minimum_next_closing_key)
unfolding reschedule clear_minimum
reschedule_same day pending set_key set_key' minimum closing u u' h = ground (arith, h)

reschedule_agree :
    (day day' : ℕ) (pending pending' : Option ℕ) (set_key set_key' minimum minimum' : Option DayKey)
    (closing : DayKey) (u u' : CardUpdate)
    → day ≡ day'
    → pending ≡ pending'
    → minimum ≡ minimum'
    → (pending ≡ none) ⊎ (set_key ≡ set_key')
    → let r = reschedule day pending set_key minimum closing u in
      let r' = reschedule day' pending' set_key' minimum' closing u' in
      (r.closing_day ≡ r'.closing_day)
      × (r.pending_closing_day ≡ r'.pending_closing_day)
      × (r.minimum_next_closing_key ≡ r'.minimum_next_closing_key)
reschedule_agree day day' pending pending' set_key set_key' minimum minimum' closing u u' ed ep em
      h =
    rw (← ed, ← ep, ← em) (reschedule_same day pending set_key set_key' minimum closing u u' h)

-- What waits after a round waited before it.
reschedule_pending :
    (day : ℕ) (pending : Option ℕ) (set_key minimum : Option DayKey) (closing : DayKey)
    (u : CardUpdate)
    → let r = reschedule day pending set_key minimum closing u in
      (r.pending_closing_day ≡ none) ⊎ (r.pending_closing_day ≡ pending)
unfolding reschedule clear_minimum
reschedule_pending day pending set_key minimum closing u = ground arith

next_closing_same :
    {D : Type 0} (s t : PlanState D) (cutoff : DayKey)
    → SameSchedule s t
    → next_closing s cutoff ≡ next_closing t cutoff
unfolding next_closing
next_closing_same s t cutoff h = simp (h.minimum_is, h.day_is, h.start_is) refl

module _ (dec : Decimals) (zone : Instant → DayKey) where
  abbrev set_key_of : BillingCardState → Option DayKey
  set_key_of card = pending_set_key dec zone card

  -- The change that waits, if one does, was set on the same day.
  abbrev SameChange : PlanState dec.Decimal → BillingCardState → BillingCardState → Type 0
  SameChange s card card' = (s.pending_closing_day ≡ none) ⊎ (set_key_of card ≡ set_key_of card')

  module _ (card card' : BillingCardState) (es es' : List (BillableExpense dec.Decimal))
      (now now' : Instant) where
    close_cycle_same :
        (s t : PlanState dec.Decimal) (k : DayKey)
        → SameSchedule s t
        → SameChange s card card'
        → SameSchedule
            (close_cycle dec zone card es now s k)
            (close_cycle dec zone card' es' now' t k)
          × SameChange (close_cycle dec zone card es now s k) card card'
    unfolding close_cycle
    close_cycle_same s t k h c =
        let u = update_of s.update (day_key_to_date k noon) now in
        let u' = update_of t.update (day_key_to_date k noon) now' in
        let r =
          reschedule_agree s.closing_day t.closing_day s.pending_closing_day t.pending_closing_day
            (set_key_of card) (set_key_of card') s.minimum_next_closing_key
            t.minimum_next_closing_key k u u' h.day_is h.pending_is h.minimum_is c in
        let p =
          reschedule_pending s.closing_day s.pending_closing_day (set_key_of card)
            s.minimum_next_closing_key k u in
        (record { start_is = refl; day_is = r.0; pending_is = r.1; minimum_is = r.2 }, change p c)
      where
        change :
            {o o' : Option ℕ}
            → (o' ≡ none) ⊎ (o' ≡ o)
            → (o ≡ none) ⊎ (set_key_of card ≡ set_key_of card')
            → (o' ≡ none) ⊎ (set_key_of card ≡ set_key_of card')
        change (inl e) c = inl e
        change (inr e) (inl f) = inl (e ∙ f)
        change (inr e) (inr f) = inr f

    module _ (cutoff : DayKey) (vc : IsKey cutoff) where
      no_round :
          (s : PlanState dec.Decimal) (k : DayKey)
          → IsKey s.period_start_key
          → next_closing s cutoff ≡ some k
          → rank cutoff < rank s.period_start_key + 0
          → ⊥
      no_round s k vs found few =
          let n = next_closing-IsNext s cutoff k vs vc found in
          omega (arith, n.due.above, n.due.below)

      both_idle :
          (rounds rounds' : ℕ) (s t : PlanState dec.Decimal)
          → SameSchedule s t
          → next_closing s cutoff ≡ none
          → SameSchedule
              (plan_loop dec zone rounds card es cutoff now s)
              (plan_loop dec zone rounds' card' es' cutoff now' t)
      both_idle rounds rounds' s t h done =
          rw
            (
              idle dec zone card es cutoff now rounds s done,
              idle dec zone card' es' cutoff now' rounds' t
                  (sym (next_closing_same s t cutoff h) ∙ done),
            )
            h

      -- Two loops that stop by themselves, up to the same day, from two such states.
      plan_loop_same :
          (rounds rounds' : ℕ) (s t : PlanState dec.Decimal)
          → IsKey s.period_start_key
          → SameSchedule s t
          → SameChange s card card'
          → rank cutoff < rank s.period_start_key + rounds
          → rank cutoff < rank s.period_start_key + rounds'
          → SameSchedule
              (plan_loop dec zone rounds card es cutoff now s)
              (plan_loop dec zone rounds' card' es' cutoff now' t)
      unfolding plan_loop
      plan_loop_same zero rounds' s t vs h c few few' =
          elim (Option-cases (next_closing s cutoff)) [
            | inl done ↦ both_idle zero rounds' s t h done
            | inr (k, found) ↦ absurd (no_round s k vs found few)
          ]
      plan_loop_same (suc rounds) zero s t vs h c few few' =
          elim (Option-cases (next_closing s cutoff)) [
            | inl done ↦ both_idle (suc rounds) zero s t h done
            | inr (k, found) ↦ absurd (no_round s k vs found few')
          ]
      plan_loop_same (suc rounds) (suc rounds') s t vs h c few few' =
          elim (Option-cases (next_closing s cutoff)) [
            | inl done ↦ both_idle (suc rounds) (suc rounds') s t h done
            | inr (k, found) ↦
                let found' = sym (next_closing_same s t cutoff h) ∙ found in
                let n = next_closing-IsNext s cutoff k vs vc found in
                let step = close_cycle_same s t k h c in
                rw (found, found', plan_loop)
                  (plan_loop_same rounds rounds' (close_cycle dec zone card es now s k)
                    (close_cycle dec zone card' es' now' t k)
                    (rw (close_cycle-start dec zone card es now s k) n.due.valid) step.0 step.1
                    (rw (close_cycle-start dec zone card es now s k) (omega (arith, n.due.above)))
                    (rw (close_cycle-start dec zone card es now s k) (omega (arith, n.due.above))))
          ]

  module _ (card card' : BillingCardState) (es es' : List (BillableExpense dec.Decimal))
      (now now' : Instant) (near far : DayKey) (vn : IsKey near) (vf : IsKey far)
      (le : rank near ≤ rank far) where
    joined :
        (s d u : PlanState dec.Decimal)
        → SameSchedule s d
        → SameSchedule s u
        → SameChange s card card'
        → SameSchedule d u × SameChange d card card'
    joined s d u h k c = (
      record {
        start_is = sym h.start_is ∙ k.start_is;
        day_is = sym h.day_is ∙ k.day_is;
        pending_is = sym h.pending_is ∙ k.pending_is;
        minimum_is = sym h.minimum_is ∙ k.minimum_is;
      },
      change c,
    )
      where
        change : SameChange s card card' → SameChange d card card'
        change (inl e) = inl (sym h.pending_is ∙ e)
        change (inr e) = inr e

    -- Where the near run stops, the far one goes on.
    at_end :
        (rounds_d rounds_u : ℕ) (s d u : PlanState dec.Decimal)
        → IsKey s.period_start_key
        → SameSchedule s d
        → rank far < rank s.period_start_key + rounds_d
        → SameSchedule s u
        → SameChange s card card'
        → rank far < rank s.period_start_key + rounds_u
        → SameSchedule
            (plan_loop dec zone rounds_d card es' far now' d)
            (plan_loop dec zone rounds_u card' es' far now' u)
    at_end rounds_d rounds_u s d u vs h few hu cu few' =
        let j = joined s d u h hu cu in
        plan_loop_same card card' es' es' now' now' far vf rounds_d rounds_u d u
          (rw (← h.start_is) vs) j.0 j.1 (rw (← h.start_is) few) (rw (← h.start_is) few')

    -- A closing of the near run is one of the far run.
    found_far :
        (s d : PlanState dec.Decimal) (k : DayKey)
        → IsKey s.period_start_key
        → SameSchedule s d
        → next_closing s near ≡ some k
        → next_closing d far ≡ some k
    found_far s d k vs h found =
        sym (next_closing_same s d far h)
        ∙ next_closing-longer s.closing_day s.period_start_key near far vn vf le s k refl refl vs
            found

    -- The run up to the near day, and from where it stops up to the far one, against one run.
    plan_loop_joined :
        (rounds rounds_d rounds_u : ℕ) (s d u : PlanState dec.Decimal)
        → IsKey s.period_start_key
        → SameSchedule s d
        → rank far < rank s.period_start_key + rounds_d
        → let t = plan_loop dec zone rounds card es near now s in
          SameSchedule t u
          → SameChange t card card'
          → rank far < rank t.period_start_key + rounds_u
          → SameSchedule
              (plan_loop dec zone rounds_d card es' far now' d)
              (plan_loop dec zone rounds_u card' es' far now' u)
    unfolding plan_loop
    plan_loop_joined zero rounds_d rounds_u s d u vs h few hu cu few' =
        at_end rounds_d rounds_u s d u vs h few hu cu few'
    plan_loop_joined (suc rounds) zero rounds_u s d u vs h few hu cu few' =
        elim (Option-cases (next_closing s near)) [
          | inl done ↦
              let e = idle dec zone card es near now (suc rounds) s done in
              at_end zero rounds_u s d u vs h few (rw e at hu) (rw e at cu) (rw e at few')
          | inr (k, found) ↦ absurd (
              no_round card card' es es' now now' far vf s k vs
                (next_closing-longer s.closing_day s.period_start_key near far vn vf le s k refl
                  refl vs found)
                few)
        ]
    plan_loop_joined (suc rounds) (suc rounds_d) rounds_u s d u vs h few hu cu few' =
        elim (Option-cases (next_closing s near)) [
          | inl done ↦
              let e = idle dec zone card es near now (suc rounds) s done in
              at_end (suc rounds_d) rounds_u s d u vs h few (rw e at hu) (rw e at cu) (rw e at few')
          | inr (k, found) ↦
              let n = next_closing-IsNext s near k vs vn found in
              let far_found = found_far s d k vs h found in
              let step = close_cycle_same card card es es' now now' s d k h (inr refl) in
              let start = close_cycle-start dec zone card es now s k in
              rw (far_found, plan_loop)
                (plan_loop_joined rounds rounds_d rounds_u (close_cycle dec zone card es now s k)
                  (close_cycle dec zone card es' now' d k) u (rw start n.due.valid) step.0
                  (rw start (omega (arith, n.due.above))) (rw (found, plan_loop) at hu)
                  (rw (found, plan_loop) at cu) (rw (found, plan_loop) at few'))
        ]

  stored_change :
      (card : BillingCardState) (u : Option CardUpdate) (pending : Option ℕ)
      → (apply_update card u).pending_closing_day ≡ pending
      → (pending ≡ none) ⊎ (set_key_of card ≡ set_key_of (apply_update card u))
  unfolding apply_update
  stored_change card none pending e = inr refl
  stored_change card (some u) pending e = elim (Bool-cases u.pending_cleared) [
    | inl cleared ↦ inl (sym (rw cleared at e))
    | inr kept ↦ inr (rw kept refl)
  ]

  -- To run up to a day, store the card, and run up to a later day ends with the same schedule
  -- as one run up to the later day: the same last closing, closing day, waiting change and
  -- bound on the next closing, whatever the expenses of the first run and its clock are. The
  -- two days are valid, and the open period of the card starts on a valid day of the year 100
  -- or later.
  pub plan_card_billing_catch_up :
      (card : BillingCardState) (es es' : List (BillableExpense dec.Decimal))
      (near_date far_date now now' : Instant)
      → IsKey (day_key_of_date near_date)
      → IsKey (day_key_of_date far_date)
      → rank (day_key_of_date near_date) ≤ rank (day_key_of_date far_date)
      → IsFullKey (start_state dec zone card).period_start_key
      → let t = plan_card_billing dec zone card es near_date now in
        SameSchedule
          (plan_card_billing dec zone card es' far_date now')
          (plan_card_billing dec zone (apply_update card t.update) es' far_date now')
  unfolding plan_card_billing start_state
  plan_card_billing_catch_up card es es' near_date far_date now now' vn vf le v =
      plan_loop_joined card card' es es' now now' near far vn vf le rounds (plan_rounds s far)
        (plan_rounds u far) s s u v.0
        (record { start_is = refl; day_is = refl; pending_is = refl; minimum_is = refl })
        (omega arith)
        (record {
          start_is = sym follows.start_is;
          day_is = sym follows.stored.day_is;
          pending_is = sym follows.stored.pending_is;
          minimum_is = sym follows.stored.minimum_is;
        })
        (stored_change card t.update t.pending_closing_day follows.stored.pending_is)
        (rw (← follows.start_is) (omega arith))
    where
      near : DayKey
      near = day_key_of_date near_date

      far : DayKey
      far = day_key_of_date far_date

      s : PlanState dec.Decimal
      s = start_state dec zone card

      rounds : ℕ
      rounds = plan_rounds s near

      t : PlanState dec.Decimal
      t = plan_loop dec zone rounds card es near now s

      follows : Follows dec zone card es near vn now t
      follows =
          plan_loop-Follows dec zone card es near vn now rounds s
            (start_state-Follows dec zone card es near vn now v)

      card' : BillingCardState
      card' = apply_update card t.update

      u : PlanState dec.Decimal
      u = start_state dec zone card'
