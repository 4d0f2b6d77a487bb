-- ===== src/Splits/Limits.antt =====
-- `assertCardLimits` (`backend/src/lib/split-allocation.ts`) and what billing charges.
use native.Mathlib.Nat.{mul-add, mul-zero}
use demanage.Prelude.{
  ℕ, zero, suc, ◌+◌, ◌-◌, ◌*◌, ◌≤◌, ◌≡◌, ◌≢◌, sym, ◌∙◌, ap, inl, inr, false, Option, none, some,
  List, [], ◌∷◌, ◌++◌, arith, Bool-cases, ◌==◌, if◌then◌else◌,
}
use demanage.Prelude.Int.{pos, ◌+ℤ◌, ◌-ℤ◌, ◌*ℤ◌, ◌≤ℤ◌, ltb_ℤ, int_laws}
use demanage.Prelude.Decimals.{Decimals, IsExact}
use demanage.CivilDate.{DayKey, Instant}
use demanage.CivilDate.Zone.{IsZone}
use demanage.Billing.Expense.{SplitKind, BillableExpense, Frequency, CycleWindow, is_unica}
use demanage.Billing.Occurrences.{lower_inclusive, charge_occurrences, max_charges_for_window}
use demanage.Billing.Occurrences.Cycles.{IsDatedExpense, IsWindow}
use demanage.Billing.Occurrences.Bounds.{charges_for, charge_occurrences_bound}
use demanage.Billing.Charges.{card_share, split_share_for, charge_amount_decimal}
use demanage.Splits.{ResolvedSplit, over_limit, assert_card_limits}

-- More charges of an amount are more.
mul_mono : (a n m : ℕ) → n ≤ m → a * n ≤ a * m
mul_mono a n m h =
    let e : m ≡ n + (m - n) = omega arith in
    let f = ap (λ k. a * k) e ∙ mul-add a n (m - n) in omega (arith, f)

pos-times : (a n : ℕ) → pos a *ℤ pos n ≡ pos (a * n)
unfolding ◌*ℤ◌
pos-times a n = ground arith

module _ {dec : Decimals} (x : IsExact dec) {zone : Instant → DayKey} (z : IsZone zone) where
  passes :
      (limits committed : ℕ → Option dec.Decimal) (f : Frequency) (windows : ℕ → Option CycleWindow)
      (before after : List (ResolvedSplit dec.Decimal)) (s : ResolvedSplit dec.Decimal)
      → assert_card_limits dec limits committed f windows (before ++ s ∷ after) ≡ none
      → over_limit dec limits committed f windows s ≡ false
  unfolding assert_card_limits
  passes limits committed f windows [] after s e = ground (arith, e)
  passes limits committed f windows (b ∷ before) after s e =
      passes limits committed f windows before after s (ground (arith, e))

  times_share :
      (s : dec.Decimal) (n a : ℕ)
      → x.scaled s ≡ pos a
      → x.scaled (if n == 0 then dec.of_ℕ 0 else dec.times s (dec.of_ℕ n)) ≡ pos (a * n)
  times_share s zero a h = rw (mul-zero a) x.scaled-zero
  times_share s (suc n) a h =
      let some_left : (suc n == 0) ≡ false = ground arith in
      rw some_left (x.scaled-times s (suc n) ∙ rw h (pos-times a (suc n)))

  -- An expense without versions is charged its share at each occurrence.
  plain_amount :
      (e : BillableExpense dec.Decimal) (c : ℕ) (w : CycleWindow) (a : ℕ)
      → e.obligation_versions ≡ []
      → x.scaled (card_share dec e c) ≡ pos a
      → x.scaled (charge_amount_decimal dec zone e c w) ≡ pos (a * charge_occurrences zone e w)
  unfolding charge_amount_decimal split_share_for
  plain_amount e c w a unversioned h =
      let n = charge_occurrences zone e w in
      elim (Bool-cases (is_unica e.frequency)) [
        | inl once ↦ simp once (times_share (card_share dec e c) n a h)
        | inr often ↦ simp (often, unversioned) (times_share (card_share dec e c) n a h)
      ]

  module _ (limits committed : ℕ → Option dec.Decimal) (windows : ℕ → Option CycleWindow)
      (e : BillableExpense dec.Decimal) (c : ℕ) (limit used : dec.Decimal) (w : CycleWindow) (a : ℕ)
      (el : limits c ≡ some limit) (eu : committed c ≡ some used) (ew : windows c ≡ some w)
      (ea : x.scaled (card_share dec e c) ≡ pos a)
      (money : dec.to_money (dec.minus limit used) ≡ dec.minus limit used) where
    -- The part of an expense that is on the card.
    abbrev pub part_of : dec.Decimal → ResolvedSplit dec.Decimal
    part_of percent = record {
      kind = SplitKind.card;
      card_id = some c;
      percent = percent;
      amount = card_share dec e c;
    }

    fits :
        (percent : dec.Decimal)
        → over_limit dec limits committed e.frequency windows (part_of percent) ≡ false
        → pos (a * charges_for (max_charges_for_window w) e.frequency)
          ≤ℤ x.scaled limit -ℤ x.scaled used
    unfolding over_limit
    fits percent over =
        let m = charges_for (max_charges_for_window w) e.frequency in
        let share = card_share dec e c in
        let room : dec.lt (dec.minus limit used) (dec.times share (dec.of_ℕ m)) ≡ false =
          rw (el, eu, ew, money) at over in
        let charge : x.scaled (dec.times share (dec.of_ℕ m)) ≡ pos (a * m) =
          x.scaled-times share m ∙ rw ea (pos-times a m) in
        let over_ints : ltb_ℤ (x.scaled (dec.minus limit used))
              (x.scaled (dec.times share (dec.of_ℕ m)))
            ≡ false =
          sym (x.lt-scaled _ _) ∙ room in
        let ints = rw (charge, x.scaled-minus limit used) at over_ints in ground (arith, ints)

    -- Where the check of the limits lets the parts of an expense pass, what the expense is
    -- charged on a card of them in the window, with what was committed before, is within the
    -- limit of the card. The card has a limit, a committed amount and a window; its part is the
    -- share of the expense, a whole number of units that is not negative; what is left of the
    -- limit is an amount of money already; the expense has no versions, is of one of the three
    -- frequencies and dated from the year 101 on; the decimals are exact and the zone lawful;
    -- and the window is of valid days of the year 100 or later, its first day of the year 101
    -- or later.
    pub assert_card_limits_lem :
        (before after : List (ResolvedSplit dec.Decimal)) (percent : dec.Decimal)
        → assert_card_limits dec limits committed e.frequency windows
            (before ++ part_of percent ∷ after)
          ≡ none
        → e.obligation_versions ≡ []
        → e.frequency ≢ Frequency.other
        → IsDatedExpense e
        → IsWindow w
        → 101 ≤ (lower_inclusive w).year
        → x.scaled used +ℤ x.scaled (charge_amount_decimal dec zone e c w) ≤ℤ x.scaled limit
    assert_card_limits_lem before after percent pass plain known v vw late =
        let n = charge_occurrences zone e w in
        let m = charges_for (max_charges_for_window w) e.frequency in
        let bound = mul_mono a n m (charge_occurrences_bound z e v w vw late known) in
        let room = fits percent (passes limits committed e.frequency windows before after _ pass) in
        rw (plain_amount e c w a plain ea) (omega (int_laws, bound, room))
