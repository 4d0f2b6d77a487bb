-- ===== src/Billing/Charges/Totals.antt =====
-- `chargesTotalDecimal` and `lateOneOffsDecimal` (`backend/src/lib/billing/charges.ts`).
use demanage.Prelude.{ℕ, ◌+◌, ◌≤◌, ◌<◌, ◌≡◌, refl, sym, ap, ◌∙◌, false, List, [], ◌∷◌, arith, All}
use demanage.Prelude.Int.{ℤ, pos, ◌+ℤ◌, int_laws}
use demanage.Prelude.Decimals.{Decimals, IsExact}
use demanage.Prelude.Sums.{sum_between_split}
use demanage.CivilDate.{DayKey, Instant, day_number}
use demanage.CivilDate.Years.{days_before_year}
use demanage.CivilDate.Zone.{IsFullKey, IsZone}
use demanage.Billing.Expense.{BillableExpense, CycleWindow}
use demanage.Billing.Occurrences.{lower_inclusive}
use demanage.Billing.Occurrences.Cycles.{IsDatedExpense, IsWindow, lower_inclusive_lem}
use demanage.Billing.Charges.{
  charge_amount_decimal, sum_charges, charges_total_decimal, is_late, late_one_offs,
  late_one_offs_decimal,
}
use demanage.Billing.Charges.Days.{day_charge, charge_amount_decimal_lem, zero-sum}

-- The sum of a quantity over a list.
abbrev pub sum_of : {A : Type 0} → (A → ℤ) → List A → ℤ
sum_of f [] = pos 0
sum_of f (a ∷ rest) = f a +ℤ sum_of f rest

module _ {dec : Decimals} (x : IsExact dec) (zone : Instant → DayKey) where
  sum_charges_lem :
      (total : dec.Decimal) (es : List (BillableExpense dec.Decimal)) (c : ℕ) (w : CycleWindow)
      → x.scaled (sum_charges dec zone total es c w)
        ≡ x.scaled total +ℤ sum_of (λ e. x.scaled (charge_amount_decimal dec zone e c w)) es
  unfolding sum_charges
  sum_charges_lem total [] c w = omega int_laws
  sum_charges_lem total (e ∷ es) c w =
      sum_charges_lem (dec.plus total (charge_amount_decimal dec zone e c w)) es c w
      ∙ rw (x.scaled-plus total (charge_amount_decimal dec zone e c w)) (omega int_laws)

  pub charges_total_decimal_sum :
      (es : List (BillableExpense dec.Decimal)) (c : ℕ) (w : CycleWindow)
      → x.scaled (charges_total_decimal dec zone es c w)
        ≡ sum_of (λ e. x.scaled (charge_amount_decimal dec zone e c w)) es
  unfolding charges_total_decimal
  charges_total_decimal_sum es c w =
      sum_charges_lem (dec.of_ℕ 0) es c w
      ∙ ap (λ a. a +ℤ sum_of (λ e. x.scaled (charge_amount_decimal dec zone e c w)) es)
          x.scaled-zero
      ∙ zero-sum (sum_of (λ e. x.scaled (charge_amount_decimal dec zone e c w)) es)

module _ (dec : Decimals) (zone : Instant → DayKey) where
  late_one_offs_none :
      (sum : dec.Decimal) (es : List (BillableExpense dec.Decimal)) (c : ℕ) (closed now : Instant)
      → All (λ e. e.created_at ≤ now) es
      → late_one_offs dec zone sum es c closed now ≡ sum
  unfolding late_one_offs
  late_one_offs_none sum [] c closed now h = refl
  late_one_offs_none sum (e ∷ es) c closed now h =
      let early : is_late dec zone closed now e ≡ false = ground arith in
      simp early (late_one_offs_none sum es c closed now h.1)

  -- Purchases that were entered by the time the card was last processed add nothing to a later
  -- invoice as late purchases.
  pub late_one_offs_decimal_none :
      (es : List (BillableExpense dec.Decimal)) (c : ℕ) (closed now : Instant)
      → All (λ e. e.created_at ≤ now) es
      → late_one_offs_decimal dec zone es c closed now ≡ dec.of_ℕ 0
  unfolding late_one_offs_decimal
  late_one_offs_decimal_none es c closed now h = late_one_offs_none (dec.of_ℕ 0) es c closed now h

module _ {dec : Decimals} (x : IsExact dec) {zone : Instant → DayKey} (z : IsZone zone) (c : ℕ)
    (w : CycleWindow) (mid : DayKey) (vw : IsWindow w) (vm : IsFullKey mid)
    (full : days_before_year 100 < day_number (lower_inclusive w))
    (lo : day_number (lower_inclusive w) ≤ day_number mid + 1)
    (hi : day_number mid ≤ day_number w.closing_key) where
  abbrev before_mid : CycleWindow
  before_mid = record w { closing_key = mid }

  abbrev after_mid : CycleWindow
  after_mid = record w { period_start_key = mid; include_period_start = false }

  -- One expense charges in a cycle what it charges in two that make it up, whatever its versions.
  pub charge_amount_decimal_split :
      (e : BillableExpense dec.Decimal)
      → IsDatedExpense e
      → x.scaled (charge_amount_decimal dec zone e c w)
        ≡ x.scaled (charge_amount_decimal dec zone e c before_mid)
          +ℤ x.scaled (charge_amount_decimal dec zone e c after_mid)
  unfolding lower_inclusive
  charge_amount_decimal_split e v =
      let v1 : IsWindow before_mid = record { start = vw.start; closing = vm } in
      let v2 : IsWindow after_mid = record { start = vm; closing = vw.closing } in
      let (_, e2) = lower_inclusive_lem after_mid v2 in
      let split =
        sum_between_split (day_charge x zone e c) (day_number (lower_inclusive w)) (day_number mid)
          (day_number w.closing_key) lo hi in
      charge_amount_decimal_lem x z e v c w vw full
      ∙ split
      ∙ sym (
          rw (
            charge_amount_decimal_lem x z e v c before_mid v1 full,
            charge_amount_decimal_lem x z e v c after_mid v2 (omega arith),
            e2,
          ))

  sum_of_split :
      (es : List (BillableExpense dec.Decimal))
      → All IsDatedExpense es
      → sum_of (λ e. x.scaled (charge_amount_decimal dec zone e c w)) es
        ≡ sum_of (λ e. x.scaled (charge_amount_decimal dec zone e c before_mid)) es
          +ℤ sum_of (λ e. x.scaled (charge_amount_decimal dec zone e c after_mid)) es
  sum_of_split [] v = omega int_laws
  sum_of_split (e ∷ es) v =
      rw (charge_amount_decimal_split e v.0, sum_of_split es v.1) (omega int_laws)

  -- What a list of expenses charges a card in a cycle is what it charges in the cycle up to a
  -- day in between plus what it charges in the cycle after that day, whatever versions the
  -- expenses have. The decimals are exact and the zone lawful, the expenses are dated from the
  -- year 101 on, the days are valid and of the year 100 or later, the first day of the cycle is
  -- after the first of the year 100, and the day in between lies in the cycle or just before
  -- it.
  pub charges_total_decimal_split :
      (es : List (BillableExpense dec.Decimal))
      → All IsDatedExpense es
      → x.scaled (charges_total_decimal dec zone es c w)
        ≡ x.scaled (charges_total_decimal dec zone es c before_mid)
          +ℤ x.scaled (charges_total_decimal dec zone es c after_mid)
  charges_total_decimal_split es v =
      rw
        (
          charges_total_decimal_sum x zone es c w,
          charges_total_decimal_sum x zone es c before_mid,
          charges_total_decimal_sum x zone es c after_mid,
        )
        (sum_of_split es v)
