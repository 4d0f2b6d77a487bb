-- ===== src/Piggy/AutoDebit/Due.antt =====
-- `listDueAutoDebitCycles` and the check before a debit is posted
-- (`backend/src/lib/piggy/auto-debit.ts`).
use demanage.Prelude.{
  ℕ, zero, suc, ◌-◌, ◌≤◌, ◌<◌, ◌≡◌, ap, ◌∙◌, inl, inr, true, ◌&&◌, ◌||◌, Option, none, some, List,
  [], ◌∷◌, length, drop, All, arith, Bool-cases, Option-cases, leb, ltb, ◌==◌, if◌then◌else◌,
}
use demanage.CivilDate.{DayKey, Instant, noon, day_key_to_date, key_lt, next_year, next_month}
use demanage.CivilDate.Order.{clamp_day_to_month-IsKey}
use demanage.CivilDate.Numbers.{IsFull}
use demanage.CivilDate.Zone.{IsFullKey, IsDated, AllDated, IsZone}
use demanage.Billing.Calendar.Closings.{next_month_lem}
use demanage.Billing.Occurrences.{month_rounds}
use demanage.Piggy.AutoDebit.{
  AutoDebitCycle, due_key, cycle_for_month, cycles_from, later_start, same_cycle, enabled_key,
  list_due_auto_debit_cycles, is_scheduled_auto_debit_cycle_still_due,
}

pub drop-All {ℓ κ} :
    {A : Type ℓ} (P : A → Type κ) (n : ℕ) (xs : List A) → All P xs → All P (drop n xs)
drop-All P zero xs h = h
drop-All P (suc n) [] h = h
drop-All P (suc n) (x ∷ xs) h = drop-All P n xs h.1

length-drop {ℓ} : {A : Type ℓ} (n : ℕ) (xs : List A) → length (drop n xs) ≡ length xs - n
length-drop zero xs = omega arith
length-drop (suc n) [] = omega arith
length-drop (suc n) (x ∷ xs) = omega (arith, length-drop n xs)

pub cycle_for_month_due :
    (y m : ℕ) (today created : DayKey) (day : ℕ) (enabled : Option DayKey) (c : AutoDebitCycle)
    → cycle_for_month y m today created day enabled ≡ some c
    → c.due_on ≡ day_key_to_date (due_key y m day) noon
unfolding cycle_for_month
cycle_for_month_due y m today created day enabled c e = ground (arith, e)

same_cycle_refl : (c : AutoDebitCycle) → same_cycle c c ≡ true
same_cycle_refl c = ground arith

module _ {zone : Instant → DayKey} (z : IsZone zone) (now created_at : Instant) (day : ℕ)
    (enabled_at : Option Instant) where
  abbrev pub StillDue : AutoDebitCycle → Type 0
  StillDue c = is_scheduled_auto_debit_cycle_still_due zone c now created_at day enabled_at ≡ true

  still_due :
      (y m : ℕ) (c : AutoDebitCycle)
      → m < 12
      → IsFull y
      → cycle_for_month y m (zone now) (zone created_at) day (enabled_key zone enabled_at) ≡ some c
      → StillDue c
  unfolding is_scheduled_auto_debit_cycle_still_due
  still_due y m c h f found =
      let v = clamp_day_to_month-IsKey y m (if day == 0 then 1 else day) h in
      let due = cycle_for_month_due y m _ _ day _ c found in
      let same : zone c.due_on ≡ due_key y m day =
        ap zone due ∙ z.keeps_noon (due_key y m day) (v, f) in
      rw (same, found, is_scheduled_auto_debit_cycle_still_due) (same_cycle_refl c)

  -- What each cycle of a month has, all that are listed have.
  module _ {κ} (P : AutoDebitCycle → Type κ)
      (each : (y m : ℕ) (c : AutoDebitCycle)
        → m < 12
        → IsFull y
        → cycle_for_month y m (zone now) (zone created_at) day (enabled_key zone enabled_at)
          ≡ some c
        → P c) where
    cycles_from-All :
        (rounds y m : ℕ)
        → m < 12
        → IsFull y
        → All P
            (cycles_from rounds y m (zone now) (zone created_at) day (enabled_key zone enabled_at))
    unfolding cycles_from
    cycles_from-All zero y m h f = tt
    cycles_from-All (suc rounds) y m h f =
        let today = zone now in
        let rest =
          cycles_from-All rounds (next_year y m) (next_month m) (next_month_lem y m h).1
            (ground arith) in
        elim (Bool-cases (ltb y today.year || ((y == today.year) && leb m today.month_index))) [
          | inr past ↦ rw past tt
          | inl inside ↦
              elim (Option-cases
                (cycle_for_month y m today (zone created_at) day (enabled_key zone enabled_at))) [
                  | inl out ↦ rw (inside, out) rest
                  | inr (c, found) ↦ rw (inside, found) (each y m c h f found, rest)
                ]
        ]

  later_start-IsFullKey :
      IsDated created_at
      → AllDated enabled_at
      → IsFullKey (later_start (zone created_at) (enabled_key zone enabled_at))
  later_start-IsFullKey c e = go enabled_at e
    where
      go :
          (o : Option Instant)
          → AllDated o
          → IsFullKey (later_start (zone created_at) (enabled_key zone o))
      go none u = z.valid created_at c
      go (some t) u = elim (Bool-cases (key_lt (zone created_at) (zone t))) [
        | inl e ↦ rw e (z.valid t u)
        | inr e ↦ rw e (z.valid created_at c)
      ]

  pub list_due_auto_debit_cycles-All {κ} :
      (P : AutoDebitCycle → Type κ)
      → ((y m : ℕ) (c : AutoDebitCycle)
          → m < 12
          → IsFull y
          → cycle_for_month y m (zone now) (zone created_at) day (enabled_key zone enabled_at)
            ≡ some c
          → P c)
      → IsDated created_at
      → AllDated enabled_at
      → All P (list_due_auto_debit_cycles zone now created_at day enabled_at)
  unfolding list_due_auto_debit_cycles
  list_due_auto_debit_cycles-All P each c e =
      let start = later_start (zone created_at) (enabled_key zone enabled_at) in
      let v = later_start-IsFullKey c e in
      drop-All P _ _ (
        cycles_from-All P each (month_rounds start (zone now)) start.year start.month_index
          v.0.month_in v.1)

  list_due_auto_debit_cycles-length :
      length (list_due_auto_debit_cycles zone now created_at day enabled_at) ≤ 60
  unfolding list_due_auto_debit_cycles
  list_due_auto_debit_cycles-length =
      let start = later_start (zone created_at) (enabled_key zone enabled_at) in
      let all =
        cycles_from (month_rounds start (zone now)) start.year start.month_index (zone now)
          (zone created_at) day (enabled_key zone enabled_at) in
      omega (arith, length-drop (length all - 60) all)

  -- Each cycle that is listed as due passes the check before it is posted, for the same bank
  -- and time, and at most 60 are listed. The zone is lawful, and the bank and its debit are
  -- dated from the year 101 on.
  pub list_due_auto_debit_cycles-StillDue :
      IsDated created_at
      → AllDated enabled_at
      → All StillDue (list_due_auto_debit_cycles zone now created_at day enabled_at)
        × (length (list_due_auto_debit_cycles zone now created_at day enabled_at) ≤ 60)
  list_due_auto_debit_cycles-StillDue c e =
      (list_due_auto_debit_cycles-All StillDue still_due c e, list_due_auto_debit_cycles-length)
