-- ===== src/Billing/Charges/Days.antt =====
-- `chargeAmountDecimal` (`backend/src/lib/billing/charges.ts`) and what a day charges.
use demanage.Prelude.{
  ℕ, zero, suc, ◌+◌, ◌-◌, ◌≤◌, ◌<◌, ◌≡◌, refl, sym, ◌∙◌, ap, inl, inr, false, Option, none, some,
  [], ◌∷◌, arith, Bool-cases, List-cases, ◌==◌, if◌then◌else◌, min,
}
use demanage.Prelude.Int.{ℤ, pos, negsuc, ◌+ℤ◌, ◌*ℤ◌, int_laws}
use demanage.Prelude.Decimals.{Decimals, IsExact}
use demanage.Prelude.Sums.{
  sum_between, sum_from-agree, sum_from-count, sum_between_split, times-zero, zero-times,
}
use demanage.CivilDate.{
  DayKey, day_key, Instant, day_number, add_days_to_key, day_key_from_number, month_key, key_gt,
  key_lt, next_year, next_month, last_day_of_month,
}
use demanage.CivilDate.Years.{days_before_year}
use demanage.CivilDate.Order.{last_day_of_month_bounds}
use demanage.CivilDate.Numbers.{
  full_number, add_days_to_key_neg, add_days_to_key_forward, day_key_from_number_lem,
}
use demanage.CivilDate.Zone.{IsFullKey, IsZone}
use demanage.Billing.Expense.{
  BillableExpense, ObligationVersion, CycleWindow, SplitTarget, is_unica,
}
use demanage.Billing.Occurrences.{
  charge_occurrences, lower_inclusive, one_off_key, recurring_start_key, last_charge_key,
}
use demanage.Billing.Occurrences.Weekly.{key_gt-number, key_lt-number}
use demanage.Billing.Occurrences.MonthDays.{
  month_start, month_start_day, month_start-next, month_key_from_number,
}
use demanage.Billing.Occurrences.Cycles.{
  IsDatedExpense, IsWindow, lower_inclusive_lem, charges_on, charge_occurrences_lem,
}
use demanage.Billing.Charges.{
  active_version, with_terms, card_share, split_share_for, add_charges, charge_versions,
  charge_rounds, charge_amount_decimal,
}

-- The terms of a version.
abbrev pub under :
    {D : Type 0} → BillableExpense D → Option (ObligationVersion D) → Option (BillableExpense D)
under e none = none
under e (some v) = some (with_terms e v)

-- The terms of an expense in a month.
abbrev pub terms_in : {D : Type 0} → BillableExpense D → ℕ → Option (BillableExpense D)
terms_in e month = if is_unica e.frequency then some e else elim e.obligation_versions [
  | [] ↦ some e
  | _ ∷ _ ↦ under e (active_version e.obligation_versions month)
]

module _ {dec : Decimals} (x : IsExact dec) (zone : Instant → DayKey) where
  abbrev pub share_of : Option (BillableExpense dec.Decimal) → ℕ → ℤ
  share_of none c = pos 0
  share_of (some t) c = x.scaled (card_share dec t c)

  -- What an expense with versions charges a card on a day.
  abbrev pub version_charge : BillableExpense dec.Decimal → ℕ → ℕ → ℤ
  version_charge e c n =
      if charges_on zone e n
      then share_of
          (under e (active_version e.obligation_versions (month_key (day_key_from_number n)))) c
      else pos 0

  -- What an expense charges a card on a day.
  abbrev pub day_charge : BillableExpense dec.Decimal → ℕ → ℕ → ℤ
  day_charge e c n =
      if charges_on zone e n
      then share_of (terms_in e (month_key (day_key_from_number n))) c
      else pos 0

-- The day before a key, and the last day of its month.
pub day_before :
    (k : DayKey)
    → days_before_year 100 < day_number k
    → IsFullKey (add_days_to_key k (negsuc 0))
      × (day_number (add_days_to_key k (negsuc 0)) ≡ day_number k - 1)
day_before k h =
    rw (add_days_to_key_neg k 0)
      (let v = day_key_from_number_lem (day_number k - 1) (omega arith) in ((v.0, v.1), v.2))

month_end_lem :
    (k : DayKey)
    → IsFullKey k
    → let next = day_key (next_year k.year k.month_index) (next_month k.month_index) 1 in
      let end = add_days_to_key next (negsuc 0) in
      IsFullKey end
      × (day_number end + 1
          ≡ month_start k.year k.month_index + last_day_of_month k.year k.month_index)
month_end_lem k v =
    let next = month_start-next k.year k.month_index v.0.month_in v.1 in
    let b = last_day_of_month_bounds k.year k.month_index in
    let full =
      full_number (day_key k.year k.month_index 1)
        (record { month_in = v.0.month_in; day_in = (omega arith, omega arith) }) v.1 in
    let (w, e) =
      day_before (day_key (next_year k.year k.month_index) (next_month k.month_index) 1)
        (omega arith) in
    (w, omega arith)

-- The earlier of two keys.
first_of_keys :
    (a b : DayKey)
    → IsFullKey a
    → IsFullKey b
    → let k = if key_lt a b then a else b in
      IsFullKey k × (day_number k ≡ min (day_number a) (day_number b))
first_of_keys a b va vb = elim (Bool-cases (key_lt a b)) [
  | inl e ↦ rw e (va, ground (arith, key_lt-number va.0 vb.0 va.1 vb.1))
  | inr e ↦ rw e (vb, ground (arith, key_lt-number va.0 vb.0 va.1 vb.1))
]

-- The days from a key to the end of its month are of its month.
same_month :
    (k : DayKey) (n : ℕ)
    → IsFullKey k
    → day_number k ≤ n
    → n < month_start k.year k.month_index + last_day_of_month k.year k.month_index
    → month_key (day_key_from_number n) ≡ month_key k
unfolding month_key
same_month k n v lo hi =
    let s = month_start_day k.year k.month_index k.day v.0.day_in.0 in
    rw (month_key_from_number k.year k.month_index n v.0.month_in v.1 (omega arith) hi)

-- How often an expense charges does not depend on its terms.
pub occurrences-with_terms :
    {D : Type 0} (zone : Instant → DayKey) (e : BillableExpense D) (u : ObligationVersion D)
    (w : CycleWindow)
    → charge_occurrences zone (with_terms e u) w ≡ charge_occurrences zone e w
unfolding charge_occurrences one_off_key recurring_start_key last_charge_key
occurrences-with_terms zone e u w = refl

pub zero-sum : (a : ℤ) → pos 0 +ℤ a ≡ a
zero-sum a = omega int_laws

module _ {dec : Decimals} (x : IsExact dec) {zone : Instant → DayKey} (z : IsZone zone)
    (e : BillableExpense dec.Decimal) (v : IsDatedExpense e) (c : ℕ) where
  -- Occurrences times a share is the sum over the days.
  occurrences_sum :
      (w : CycleWindow)
      → IsWindow w
      → (a : ℤ)
      → a *ℤ pos (charge_occurrences zone e w)
        ≡ sum_between
            (λ n. if charges_on zone e n then a else pos 0)
            (day_number (lower_inclusive w))
            (day_number w.closing_key)
  occurrences_sum w vw a = rw (charge_occurrences_lem z e v w vw) (sym (sum_from-count _ a _ _))

  -- `n` charges of a share.
  times_share :
      (s : dec.Decimal) (n : ℕ)
      → x.scaled (if n == 0 then dec.of_ℕ 0 else dec.times s (dec.of_ℕ n)) ≡ x.scaled s *ℤ pos n
  times_share s n = elim (Bool-cases (n == 0)) [
    | inl none_left ↦
        let e0 : n ≡ 0 = ground arith in rw e0 (x.scaled-zero ∙ sym (times-zero (x.scaled s)))
    | inr some_left ↦ rw some_left (x.scaled-times s n)
  ]

  -- Without versions.
  plain_charge :
      (w : CycleWindow) (t : BillableExpense dec.Decimal)
      → IsWindow w
      → let n = charge_occurrences zone e w in
        x.scaled (
          if n == 0
          then dec.of_ℕ 0
          else dec.times (split_share_for dec t (SplitTarget.card c)) (dec.of_ℕ n))
        ≡ sum_between
            (λ n. if charges_on zone e n then x.scaled (card_share dec t c) else pos 0)
            (day_number (lower_inclusive w))
            (day_number w.closing_key)
  unfolding split_share_for
  plain_charge w t vw =
      times_share (card_share dec t c) (charge_occurrences zone e w)
      ∙ occurrences_sum w vw (x.scaled (card_share dec t c))

  -- The charges of one month under a version.
  add_charges_lem :
      (w : CycleWindow) (total : dec.Decimal) (a : Option (ObligationVersion dec.Decimal))
      → IsWindow w
      → x.scaled (add_charges dec zone e c w total a)
        ≡ x.scaled total
          +ℤ sum_between
              (λ n. if charges_on zone e n then share_of x zone (under e a) c else pos 0)
              (day_number (lower_inclusive w))
              (day_number w.closing_key)
  unfolding add_charges split_share_for
  add_charges_lem w total none vw = rw (← occurrences_sum w vw (pos 0), zero-times) (omega int_laws)
  add_charges_lem w total (some u) vw =
      let n = charge_occurrences zone (with_terms e u) w in
      let share = card_share dec (with_terms e u) c in
      let same = occurrences-with_terms zone e u w in
      rw (← occurrences_sum w vw (x.scaled share), ← same)
        (elim (Bool-cases (n == 0)) [
          | inl none_left ↦
              let e0 : n ≡ 0 = ground arith in rw none_left (rw (e0, times-zero) (omega int_laws))
          | inr some_left ↦ rw some_left (x.scaled-plus total _ ∙ rw (x.scaled-times share n))
        ])

  -- One round of the loop: within a month the terms do not change.
  round_charge :
      (cursor hi : DayKey) (total : dec.Decimal)
      → IsFullKey cursor
      → days_before_year 100 < day_number cursor
      → IsFullKey hi
      → day_number hi
        < month_start cursor.year cursor.month_index
          + last_day_of_month cursor.year cursor.month_index
      → let w : CycleWindow = record {
        period_start_key = add_days_to_key cursor (negsuc 0);
        closing_key = hi;
        include_period_start = false;
      } in
        x.scaled (
          add_charges dec zone e c w total
            (active_version e.obligation_versions (month_key cursor)))
        ≡ x.scaled total
          +ℤ sum_between (version_charge x zone e c) (day_number cursor) (day_number hi)
  round_charge cursor hi total vc lo vh within =
      let w : CycleWindow = record {
        period_start_key = add_days_to_key cursor (negsuc 0);
        closing_key = hi;
        include_period_start = false;
      } in
      let (vb, eb) = day_before cursor lo in
      let vw : IsWindow w = record { start = vb; closing = vh } in
      let (_, el) = lower_inclusive_lem w vw in
      let first : day_number (lower_inclusive w) ≡ day_number cursor = omega arith in
      add_charges_lem w total (active_version e.obligation_versions (month_key cursor)) vw
      ∙ rw first (
          ap (λ s. x.scaled total +ℤ s)
            (sum_from-agree _ _ (day_number cursor) (suc (day_number hi) - day_number cursor)
              (λ n from to. rw (same_month cursor n vc from (omega arith)))))

  -- The loop over the months.
  charge_versions_lem :
      (rounds : ℕ) (w : CycleWindow) (cursor : DayKey) (total : dec.Decimal)
      → IsFullKey cursor
      → days_before_year 100 < day_number cursor
      → IsFullKey w.closing_key
      → day_number w.closing_key < day_number cursor + rounds
      → x.scaled (charge_versions dec zone rounds e c w cursor total)
        ≡ x.scaled total
          +ℤ sum_between (version_charge x zone e c) (day_number cursor) (day_number w.closing_key)
  unfolding charge_versions
  charge_versions_lem zero w cursor total vc lo vh few =
      let none_left : suc (day_number w.closing_key) - day_number cursor ≡ 0 = omega arith in
      rw none_left (omega int_laws)
  charge_versions_lem (suc rounds) w cursor total vc lo vh few =
      let month_end =
        add_days_to_key
          (day_key (next_year cursor.year cursor.month_index) (next_month cursor.month_index) 1)
          (negsuc 0) in
      let (vm, em) = month_end_lem cursor vc in
      let hi = if key_lt month_end w.closing_key then month_end else w.closing_key in
      let (vi, ei) = first_of_keys month_end w.closing_key vm vh in
      let start = month_start_day cursor.year cursor.month_index cursor.day vc.0.day_in.0 in
      let (vn, fn, en) = add_days_to_key_forward hi 1 vi.0 vi.1 in
      elim (Bool-cases (key_gt cursor w.closing_key)) [
        | inl past ↦
            let none_left : suc (day_number w.closing_key) - day_number cursor ≡ 0 =
              ground (arith, key_gt-number vc.0 vh.0 vc.1 vh.1) in
            rw past (rw none_left (omega int_laws))
        | inr inside ↦
            let reach : day_number cursor ≤ day_number w.closing_key =
              ground (arith, key_gt-number vc.0 vh.0 vc.1 vh.1) in
            let charged =
              add_charges dec zone e c
                (record {
                  period_start_key = add_days_to_key cursor (negsuc 0);
                  closing_key = hi;
                  include_period_start = false;
                })
                total (active_version e.obligation_versions (month_key cursor)) in
            let split =
              sum_between_split (version_charge x zone e c) (day_number cursor) (day_number hi)
                (day_number w.closing_key) (omega arith) (omega arith) in
            rw inside (
              charge_versions_lem rounds w (add_days_to_key hi (pos 1)) charged (vn, fn)
                (omega arith) vh (omega arith)
              ∙ rw (en, round_charge cursor hi total vc lo vi (omega arith), split)
                  (omega int_laws))
      ]

  -- The month-by-month charge of a cycle is the sum, over the days of the cycle on which the
  -- expense charges, of the card's share under the terms in force in the month of that day. The
  -- decimals are exact and the zone lawful, the expense is dated from the year 101 on, the ends
  -- of the cycle are valid days of the year 100 or later and its first day is after the first
  -- of the year 100.
  pub charge_amount_decimal_lem :
      (w : CycleWindow)
      → IsWindow w
      → days_before_year 100 < day_number (lower_inclusive w)
      → x.scaled (charge_amount_decimal dec zone e c w)
        ≡ sum_between
            (day_charge x zone e c)
            (day_number (lower_inclusive w))
            (day_number w.closing_key)
  unfolding charge_amount_decimal
  charge_amount_decimal_lem w vw lo =
      let (vl, _) = lower_inclusive_lem w vw in
      let first = day_number (lower_inclusive w) in
      let last = day_number w.closing_key in
      elim (Bool-cases (is_unica e.frequency)) [
        | inl once ↦
            simp once (plain_charge w e vw ∙ sum_from-agree _ _ _ _ (λ n from to. simp once))
        | inr often ↦ elim (List-cases e.obligation_versions) [
          | inl unversioned ↦
              simp (often, unversioned)
                (plain_charge w e vw
                  ∙ sum_from-agree _ _ _ _ (λ n from to. simp (often, unversioned)))
          | inr (u, us, versioned) ↦
              simp (often, versioned)
                (charge_versions_lem (charge_rounds w) w (lower_inclusive w) (dec.of_ℕ 0) vl lo
                    vw.closing (omega arith)
                  ∙ ap (λ a. a +ℤ sum_between (version_charge x zone e c) first last) x.scaled-zero
                  ∙ zero-sum (sum_between (version_charge x zone e c) first last)
                  ∙ sum_from-agree (version_charge x zone e c) (day_charge x zone e c) first _
                      (λ n from to. simp (often, versioned)))
        ]
      ]
