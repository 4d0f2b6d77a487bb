-- ===== src/Splits/Allocation.antt =====
-- `allocateByPercent` (`backend/src/lib/money.ts`).
use demanage.Prelude.{◌≡◌, ◌∙◌, List, [], ◌∷◌}
use demanage.Prelude.Int.{◌-ℤ◌, int_laws}
use demanage.Prelude.Decimals.{Decimals, IsExact}
use demanage.Billing.Charges.Totals.{sum_of}
use demanage.Splits.{allocate_parts, allocate_by_percent}

module _ {dec : Decimals} (x : IsExact dec) where
  parts_sum :
      (total allocated p : dec.Decimal) (ps : List dec.Decimal)
      → sum_of x.scaled (allocate_parts dec total allocated (p ∷ ps))
        ≡ x.scaled total -ℤ x.scaled allocated
  unfolding allocate_parts
  parts_sum total allocated p [] = rw (x.scaled-minus total allocated) (omega int_laws)
  parts_sum total allocated p (q ∷ ps) =
      let part = dec.to_money (dec.over (dec.times total p) (dec.of_ℕ 100)) in
      rw (parts_sum total (dec.plus allocated part) q ps, x.scaled-plus allocated part)
        (omega int_laws)

  -- The parts of an amount by one or more percents, whatever they are, add up to the amount
  -- rounded to cents; the decimals are exact.
  pub allocate_by_percent_lem :
      (total p : dec.Decimal) (ps : List dec.Decimal)
      → sum_of x.scaled (allocate_by_percent dec total (p ∷ ps)) ≡ x.scaled (dec.to_money total)
  unfolding allocate_by_percent
  allocate_by_percent_lem total p ps =
      parts_sum (dec.to_money total) (dec.of_ℕ 0) p ps ∙ rw x.scaled-zero (omega int_laws)
