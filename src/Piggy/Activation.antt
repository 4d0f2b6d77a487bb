-- ===== src/Piggy/Activation.antt =====
-- When a debit or the yield of a piggy bank is switched on (`backend/src/lib/piggy/activation.ts`).
use demanage.Prelude.{
  ℕ, ◌<◌, ◌≡◌, ap, ◌∙◌, Bool, true, false, not, ◌&&◌, ◌||◌, Option, none, some, All, arith, ◌==◌,
  if◌then◌else◌,
}
use demanage.Prelude.Int.{negsuc}
use demanage.CivilDate.{DayKey, Instant, noon, add_days_to_key, day_key_to_date, key_lt}
use demanage.CivilDate.Order.{clamp_day_to_month-IsKey}
use demanage.CivilDate.Numbers.{IsFull}
use demanage.CivilDate.Zone.{IsDated, IsZone}
use demanage.Piggy.AutoDebit.{AutoDebitCycle, cycle_for_month, due_key, list_due_auto_debit_cycles}
use demanage.Piggy.AutoDebit.Due.{cycle_for_month_due, list_due_auto_debit_cycles-All}

pub record Existing : Type 0 where
  pub auto_debit : Bool
  pub auto_debit_enabled_at : Option Instant

unfoldable pub next_auto_debit_enabled_at : Existing → Bool → Instant → Option Instant
next_auto_debit_enabled_at existing auto_debit now =
    if not auto_debit
    then none
    else if existing.auto_debit
    then existing.auto_debit_enabled_at
    else some now

unfoldable pub auto_debit_enabled_at_after_goal_reopened :
    Bool → Bool → Option Instant → Instant → Option Instant
auto_debit_enabled_at_after_goal_reopened was_completed now_below previous reopened =
    if was_completed && now_below then some reopened else previous

unfoldable pub interest_accrued_through_on_activation :
    (Instant → DayKey) → Bool → Bool → Instant → Option Instant
interest_accrued_through_on_activation zone was_yielding will_yield now =
    if was_yielding || not will_yield
    then none
    else some (day_key_to_date (add_days_to_key (zone now) (negsuc 0)) noon)

enabled_cycle :
    (y m : ℕ) (today created : DayKey) (day : ℕ) (enabled : DayKey) (c : AutoDebitCycle)
    → cycle_for_month y m today created day (some enabled) ≡ some c
    → key_lt (due_key y m day) enabled ≡ false
unfolding cycle_for_month
enabled_cycle y m today created day enabled c e = ground (arith, e)

module _ {zone : Instant → DayKey} (z : IsZone zone) where
  -- Where a debit that was off is switched on, no cycle that is due at any later time has its
  -- day before the day of the switch. The zone is lawful, and the bank and the switch are dated
  -- from the year 101 on.
  pub next_auto_debit_enabled_at_lem :
      (existing : Existing) (switched now created_at : Instant) (day : ℕ)
      → existing.auto_debit ≡ false
      → IsDated created_at
      → IsDated switched
      → All
          (λ c. key_lt (zone c.due_on) (zone switched) ≡ false)
          (list_due_auto_debit_cycles zone now created_at day
            (next_auto_debit_enabled_at existing true switched))
  unfolding next_auto_debit_enabled_at
  next_auto_debit_enabled_at_lem existing switched now created_at day off c s = simp off (
      list_due_auto_debit_cycles-All z now created_at day (some switched)
        (λ c. key_lt (zone c.due_on) (zone switched) ≡ false) each c s)
    where
      each :
          (y m : ℕ) (c : AutoDebitCycle)
          → m < 12
          → IsFull y
          → cycle_for_month y m (zone now) (zone created_at) day (some (zone switched)) ≡ some c
          → key_lt (zone c.due_on) (zone switched) ≡ false
      each y m c h f found =
          let v = clamp_day_to_month-IsKey y m (if day == 0 then 1 else day) h in
          let same : zone c.due_on ≡ due_key y m day =
            ap zone (cycle_for_month_due y m _ _ day _ c found)
            ∙ z.keeps_noon (due_key y m day) (v, f) in
          ap (λ k. key_lt k (zone switched)) same
          ∙ enabled_cycle y m (zone now) (zone created_at) day (zone switched) c found
