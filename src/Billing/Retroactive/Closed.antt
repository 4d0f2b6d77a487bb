-- ===== src/Billing/Retroactive/Closed.antt =====
-- `hasRetroactiveClosedCardCharge` (`backend/src/lib/billing/retroactive-recurring.ts`).
use demanage.Prelude.{
  ℕ, zero, suc, ◌+◌, ◌-◌, ◌≤◌, ◌<◌, ◌≡◌, ◌↔◌, refl, sym, ◌∙◌, inl, inr, Bool, true, false, some,
  arith, Bool-cases, ltb, leb,
}
use demanage.Prelude.Counting.{count_from, count_from_none}
use demanage.CivilDate.{DayKey, Instant, day_number, day_key_of_date, key_lt}
use demanage.CivilDate.Zone.{IsFullKey, IsDated, AllDated, IsZone, day_key_of_date-IsFullKey}
use demanage.Billing.Occurrences.{charge_occurrences, lower_inclusive}
use demanage.Billing.Occurrences.Weekly.{key_lt-number}
use demanage.Billing.Occurrences.Cycles.{IsDatedExpense, charges_on, charge_occurrences_lem}
use demanage.Billing.Retroactive.{
  NewSchedule, expense_of, closed_window, has_retroactive_closed_card_charge,
}

-- Nothing is counted only where nothing passes.
count_from_zero :
    (p : ℕ → Bool) (start len : ℕ)
    → count_from p start len ≡ 0
    → (n : ℕ) → start ≤ n
    → n < start + len
    → p n ≡ false
count_from_zero p start zero e n lo hi = absurd (omega arith)
count_from_zero p start (suc len) e n lo hi = elim (Bool-cases (p start)) [
  | inl hit ↦ absurd (ground (arith, e, hit))
  | inr miss ↦ elim (Bool-cases (leb (start + 1) n)) [
    | inl later ↦
        count_from_zero p (start + 1) len (ground (arith, e, miss)) n (ground arith) (omega arith)
    | inr here ↦ let same : start ≡ n = ground arith in rw (← same) miss
  ]
]

module _ {D : Type 0} {zone : Instant → DayKey} (z : IsZone zone) (created invoiced : Instant)
    (schedule : NewSchedule D) (dc : IsDated created) (di : IsDated invoiced)
    (ds : AllDated schedule.starts_at) (de : AllDated schedule.ends_at) where
  -- The test lets a new schedule on an invoiced card pass if and only if the schedule charges
  -- on no day from the card's creation to its last invoice. The zone is lawful, and the
  -- creation, the invoice, the start and the end are dated from the year 101 on.
  pub has_retroactive_closed_card_charge_lem :
      (has_retroactive_closed_card_charge zone created (some invoiced) schedule ≡ false) ↔ (
        (n : ℕ)
        → day_number (zone created) ≤ n
        → n ≤ day_number (day_key_of_date invoiced)
        → charges_on zone (expense_of schedule created) n ≡ false)
  unfolding has_retroactive_closed_card_charge lower_inclusive
  has_retroactive_closed_card_charge_lem = elim (Bool-cases (key_lt closing start)) [
    | inl past ↦ simp past ((λ e n lo hi. absurd (before past n lo hi), λ h. refl))
    | inr open_ ↦ simp open_ (
        (
          λ e n lo hi.
              count_from_zero charges (day_number start) len (counted ∙ none_of e) n lo
                (omega arith),
          λ h. some_none (
              sym counted
              ∙ count_from_none charges (day_number start) len (λ n lo hi. h n lo (omega arith))),
        ))
  ]
    where
      start : DayKey
      start = zone created

      closing : DayKey
      closing = day_key_of_date invoiced

      charges : ℕ → Bool
      charges = charges_on zone (expense_of schedule created)

      len : ℕ
      len = suc (day_number closing) - day_number start

      vs : IsFullKey start
      vs = z.valid created dc

      vc : IsFullKey closing
      vc = day_key_of_date-IsFullKey invoiced di

      dated : IsDatedExpense (expense_of schedule created)
      dated = record { created = dc; starts = ds; ends = de; occurred = tt; archived = tt }

      counted :
          count_from charges (day_number start) len
          ≡ charge_occurrences zone (expense_of schedule created) (closed_window start closing)
      counted = sym (
          charge_occurrences_lem z (expense_of schedule created) dated (closed_window start closing)
            (record { start = vs; closing = vc }))

      before :
          key_lt closing start ≡ true → (n : ℕ) → day_number start ≤ n → n ≤ day_number closing → ⊥
      before past n lo hi = ground (arith, past, lo, hi, key_lt-number vc.0 vs.0 vc.1 vs.1)

      none_of : {n : ℕ} → ltb 0 n ≡ false → n ≡ 0
      none_of e = ground (arith, e)

      some_none : {n : ℕ} → n ≡ 0 → ltb 0 n ≡ false
      some_none e = ground (arith, e)
