-- ===== src/Piggy/Interest/Exact.antt =====
-- The interest that is posted and carried (`accrueCdiInterest` of
-- `backend/src/lib/piggy/interest.ts`), beside an accrual that never rounds to cents.
use mathlib.Core.Path.{subst}
use mathlib.Core.List.{reverse}
use demanage.Prelude.{
  ℕ, ◌≡◌, refl, sym, ap, ◌∙◌, Bool, true, false, not, ◌&&◌, ◌||◌, Option, none, some, List, [], ◌∷◌,
  ◌++◌, All, if◌then◌else◌, Bool-cases, inl, inr, arith,
}
use demanage.Prelude.Int.{pos, ◌+ℤ◌, ◌≤ℤ◌, ltb_ℤ, +ℤ_parts, int_laws}
use demanage.Prelude.Decimals.{Decimals, IsExact, RoundsDown}
use demanage.Billing.Charges.Totals.{sum_of}
use demanage.CivilDate.{DayKey, Instant, key_lt}
use demanage.Piggy.Withdraw.{is_interest}
use demanage.Piggy.Interest.{
  CdiPoint, LedgerRow, InterestPosting, InterestTransaction, AccrualState, row_of_key,
  points_between, is_same_day, pass, is_pos, exact_cdi_interest, carry_of, carry_after, carry_from,
  initial_carry, accrue_day, step_day, accrue_days, ledger_rows, start_state, accrue_cdi_interest,
}

all_hold : (a b c : Bool) → (not a || not b || not c) ≡ false → (a ≡ true) × (b ≡ true) × (c ≡ true)
all_hold true true true e = (refl, refl, refl)
all_hold true true false e = cc
all_hold true false c e = cc
all_hold false b c e = cc

module _ (dec : Decimals) where
  open dec use {Decimal, of_ℕ, plus}

  -- The accrual without cents: what has been earned, with the carry at the start, grows by the
  -- interest on the balance of the ledger with all of it.
  pub exact_days :
      Decimal → List (CdiPoint Decimal) → Decimal → Decimal → List (LedgerRow Decimal) → Decimal
  exact_days percent [] earned before ahead = earned
  exact_days percent (p ∷ ps) earned before ahead =
      let (before', ahead') = pass p.date before ahead in
      exact_days percent ps
        (plus earned (exact_cdi_interest dec (plus before' earned) p.value percent)) before' ahead'

  -- No row of the ledger has the key of the day.
  abbrev pub IsNewDay : ℕ → List (LedgerRow Decimal) → CdiPoint Decimal → Type 0
  IsNewDay bank rows p = row_of_key (record { bank_id = bank; day = p.date }) rows ≡ none

module _ {dec : Decimals} (x : IsExact dec) (r : RoundsDown x) where
  open dec use {Decimal, of_ℕ, plus, minus, times, over, lt, cents_down, cent}

  abbrev pub IsCarry : Decimal → Type 0
  IsCarry a = (pos 0 ≤ℤ x.scaled a) × (x.scaled a +ℤ pos 1 ≤ℤ x.scaled cent)

  pos_iff : (a : Decimal) → is_pos dec a ≡ ltb_ℤ (pos 0) (x.scaled a)
  pos_iff a = x.lt-scaled (of_ℕ 0) a ∙ ap (λ z. ltb_ℤ z (x.scaled a)) x.scaled-zero

  pos_nonneg : (a : Decimal) → is_pos dec a ≡ true → pos 0 ≤ℤ x.scaled a
  pos_nonneg a e =
      let h : ltb_ℤ (pos 0) (x.scaled a) ≡ true = sym (pos_iff a) ∙ e in ground (arith, h)

  exact_cdi_interest_nonneg :
      (balance rate percent : Decimal)
      → pos 0 ≤ℤ x.scaled (exact_cdi_interest dec balance rate percent)
  unfolding exact_cdi_interest
  exact_cdi_interest_nonneg balance rate percent =
      elim (Bool-cases
        (not (is_pos dec balance) || not (is_pos dec rate) || not (is_pos dec percent))) [
          | inl zero ↦ rw (zero, x.scaled-zero) (omega arith)
          | inr all ↦
              let (b, q, p) =
                all_hold (is_pos dec balance) (is_pos dec rate) (is_pos dec percent) all in
              rw all (earns (pos_nonneg balance b) (pos_nonneg rate q) (pos_nonneg percent p))
        ]
    where
      earns :
          pos 0 ≤ℤ x.scaled balance
          → pos 0 ≤ℤ x.scaled rate
          → pos 0 ≤ℤ x.scaled percent
          → pos 0
            ≤ℤ x.scaled (
                dec.to_interest
                  (over (times (over (times balance rate) (of_ℕ 100)) percent) (of_ℕ 100)))
      earns b q p = r.to_interest_nonneg _ (
          r.over_nonneg _ 100
            (r.times_nonneg _ percent (r.over_nonneg _ 100 (r.times_nonneg balance rate b q)) p))

  -- What has been earned is what is posted and what is carried.
  pub record IsExactly (earned : Decimal) (s : AccrualState Decimal) : Type 0 where
    pub sum : plus s.posted_sum s.carry ≡ earned
    pub carried : IsCarry s.carry
    pub posted : x.scaled s.posted_sum ≡ sum_of (λ p. x.scaled p.amount) s.postings

  sum_of-append :
      (ps : List (InterestPosting Decimal)) (p : InterestPosting Decimal)
      → sum_of (λ q. x.scaled q.amount) (ps ++ p ∷ [])
        ≡ sum_of (λ q. x.scaled q.amount) ps +ℤ x.scaled p.amount
  sum_of-append [] p = omega int_laws
  sum_of-append (q ∷ ps) p = rw (sum_of-append ps p) (omega int_laws)

  -- The carry of a day, and what its cents leave.
  minus-cents_down-IsCarry :
      (total : Decimal) → pos 0 ≤ℤ x.scaled total → IsCarry (minus total (cents_down total))
  minus-cents_down-IsCarry total h =
      let le = r.cents_down_le total h in
      let gt = r.cents_down_gt total h in
      rw (x.scaled-minus total (cents_down total)) (omega (int_laws, le, gt))

  plus_assoc : (a b c : Decimal) → plus (plus a b) c ≡ plus a (plus b c)
  plus_assoc a b c = x.scaled_inj _ _ (
      rw
        (
          x.scaled-plus (plus a b) c,
          x.scaled-plus a b,
          x.scaled-plus a (plus b c),
          x.scaled-plus b c,
        )
        (omega int_laws))

  -- Whole cents that are not above zero are zero.
  no_cents :
      (total : Decimal)
      → pos 0 ≤ℤ x.scaled total
      → is_pos dec (cents_down total) ≡ false
      → x.scaled (cents_down total) ≡ pos 0
  no_cents total h e =
      let none_above : ltb_ℤ (pos 0) (x.scaled (cents_down total)) ≡ false =
        sym (pos_iff (cents_down total)) ∙ e in
      ground (arith, none_above, r.cents_down_nonneg total h)

  posted_and_carried :
      (posted carry interest : Decimal)
      → let total = plus carry interest in
        let cents = cents_down total in
        pos 0 ≤ℤ x.scaled total
        → plus (if is_pos dec cents then plus posted cents else posted) (minus total cents)
          ≡ plus (plus posted carry) interest
  posted_and_carried posted carry interest h =
      let total = plus carry interest in
      let cents = cents_down total in
      elim (Bool-cases (is_pos dec cents)) [
        | inl some_cents ↦ rw some_cents (
            x.scaled_inj _ _ (
              rw
                (
                  x.scaled-plus (plus posted cents) (minus total cents),
                  x.scaled-plus posted cents,
                  x.scaled-minus total cents,
                  x.scaled-plus carry interest,
                  x.scaled-plus (plus posted carry) interest,
                  x.scaled-plus posted carry,
                )
                (omega int_laws)))
        | inr none_posted ↦ rw none_posted (
            x.scaled_inj _ _ (
              rw
                (
                  x.scaled-plus posted (minus total cents),
                  x.scaled-minus total cents,
                  no_cents total h none_posted,
                  x.scaled-plus carry interest,
                  x.scaled-plus (plus posted carry) interest,
                  x.scaled-plus posted carry,
                )
                (omega int_laws)))
      ]

  total_nonneg :
      (carry balance rate percent : Decimal)
      → IsCarry carry
      → pos 0 ≤ℤ x.scaled (plus carry (exact_cdi_interest dec balance rate percent))
  total_nonneg carry balance rate percent c =
      let interest = exact_cdi_interest dec balance rate percent in
      rw (x.scaled-plus carry interest)
        (omega (int_laws, c, exact_cdi_interest_nonneg balance rate percent))

  posted_sums :
      (some_cents : Bool) (posted cents : Decimal) (ps : List (InterestPosting Decimal))
      (p : InterestPosting Decimal)
      → p.amount ≡ cents
      → x.scaled posted ≡ sum_of (λ q. x.scaled q.amount) ps
      → x.scaled (if some_cents then plus posted cents else posted)
        ≡ sum_of (λ q. x.scaled q.amount) (if some_cents then ps ++ p ∷ [] else ps)
  posted_sums true posted cents ps p same e =
      x.scaled-plus posted cents
      ∙ ap (λ a. a +ℤ x.scaled cents) e
      ∙ sym (sum_of-append ps p ∙ ap (λ a. sum_of (λ q. x.scaled q.amount) ps +ℤ x.scaled a) same)
  posted_sums false posted cents ps p same e = e

  accrue_day-IsExactly :
      (bank : ℕ) (percent : Decimal) (p : CdiPoint Decimal) (earned : Decimal)
      (s : AccrualState Decimal)
      → IsExactly earned s
      → IsExactly
          (plus earned (exact_cdi_interest dec (plus s.before earned) p.value percent))
          (accrue_day dec bank percent p s)
  unfolding accrue_day
  accrue_day-IsExactly bank percent p earned s e =
      let base = plus (plus s.before s.posted_sum) s.carry in
      let interest = exact_cdi_interest dec base p.value percent in
      let same_base : base ≡ plus s.before earned =
        plus_assoc s.before s.posted_sum s.carry ∙ ap (plus s.before) e.sum in
      let total = plus s.carry interest in
      let above = total_nonneg s.carry base p.value percent e.carried in
      let sums = posted_and_carried s.posted_sum s.carry interest above in
      record {
        sum =
            sums
            ∙ ap (λ a. plus a interest) e.sum
            ∙ ap (λ b. plus earned (exact_cdi_interest dec b p.value percent)) same_base;
        carried = minus-cents_down-IsCarry total above;
        posted =
            posted_sums (is_pos dec (cents_down total)) s.posted_sum (cents_down total) s.postings _
              refl e.posted;
      }

  new_day :
      (bank : ℕ) (rows : List (LedgerRow Decimal)) (percent : Decimal) (p : CdiPoint Decimal)
      (s : AccrualState Decimal)
      → IsNewDay dec bank rows p
      → let (before, ahead) = pass p.date s.before s.ahead in
        step_day dec bank rows percent p s
        ≡ accrue_day dec bank percent p (record s { before = before; ahead = ahead })
  unfolding step_day
  new_day bank rows percent p s h = rw (h, step_day) refl

  zero-IsCarry : IsCarry (of_ℕ 0)
  zero-IsCarry = rw x.scaled-zero (omega (int_laws, r.cent_pos))

  carry_of-IsCarry :
      (resulting : Option Decimal) (balance : Decimal) → IsCarry (carry_of dec resulting balance)
  carry_of-IsCarry none balance = zero-IsCarry
  carry_of-IsCarry (some resulting) balance =
      let carry = minus resulting balance in
      elim (Bool-cases (lt carry (of_ℕ 0) || not (lt carry cent))) [
        | inl outside ↦ rw outside zero-IsCarry
        | inr inside ↦ rw inside (carry_inside carry inside)
      ]
    where
      carry_inside :
          (carry : Decimal) → (lt carry (of_ℕ 0) || not (lt carry cent)) ≡ false → IsCarry carry
      carry_inside carry e = ground (
        arith,
        e,
        x.lt-scaled carry (of_ℕ 0),
        x.scaled-zero,
        x.lt-scaled carry cent,
        +ℤ_parts (x.scaled carry) (pos 1),
      )

  carry_from-IsCarry :
      (through : DayKey) (rows : List (LedgerRow Decimal)) → IsCarry (carry_from dec through rows)
  unfolding carry_from carry_after
  carry_from-IsCarry through [] = zero-IsCarry
  carry_from-IsCarry through (row ∷ rows) = elim (Bool-cases (key_lt row.day through)) [
    | inl older ↦ rw older zero-IsCarry
    | inr recent ↦ elim (Bool-cases (is_same_day row.day through && is_interest row.row.kind)) [
      | inl here ↦ rw (recent, here) (carry_of-IsCarry row.row.resulting_balance row.balance)
      | inr other ↦ rw (recent, other) (carry_from-IsCarry through rows)
    ]
  ]

  accrue_days-IsExactly :
      (bank : ℕ) (rows : List (LedgerRow Decimal)) (percent : Decimal)
      (ps : List (CdiPoint Decimal)) (earned : Decimal) (s : AccrualState Decimal)
      → All (IsNewDay dec bank rows) ps
      → IsExactly earned s
      → IsExactly
          (exact_days dec percent ps earned s.before s.ahead)
          (accrue_days dec bank rows percent ps s)
  unfolding accrue_days exact_days accrue_day
  accrue_days-IsExactly bank rows percent [] earned s h e = e
  accrue_days-IsExactly bank rows percent (p ∷ ps) earned s h e =
      let (before, ahead) = pass p.date s.before s.ahead in
      let moved = record s { before = before; ahead = ahead } in
      let day =
        accrue_day-IsExactly bank percent p earned moved
          (record { sum = e.sum; carried = e.carried; posted = e.posted }) in
      subst
        (λ next.
          IsExactly
            (exact_days dec percent ps
              (plus earned (exact_cdi_interest dec (plus before earned) p.value percent)) before
              ahead)
            (accrue_days dec bank rows percent ps next))
        (sym (new_day bank rows percent p s h.0))
        (accrue_days-IsExactly bank rows percent ps
          (plus earned (exact_cdi_interest dec (plus before earned) p.value percent))
          (accrue_day dec bank percent p moved) h.1 day)

  initial_carry-IsCarry :
      (through : Option DayKey) (rows : List (LedgerRow Decimal))
      → IsCarry (initial_carry dec through rows)
  unfolding initial_carry
  initial_carry-IsCarry none rows = zero-IsCarry
  initial_carry-IsCarry (some day) rows = carry_from-IsCarry day (reverse rows)

  -- What an accrual posts in whole cents and what it carries add up to what an accrual that
  -- never rounds to cents earns from the same carry, and the carry is from zero to below a
  -- cent. No day of the accrual has a row yet; the decimals are exact, and rounding down leaves
  -- less than a cent.
  pub accrue_cdi_interest_exact :
      (zone : Instant → DayKey) (bank : ℕ) (ts : List (InterestTransaction Decimal))
      (through : Option DayKey) (points : List (CdiPoint Decimal)) (percent : Decimal)
      (start target : DayKey)
      → All (IsNewDay dec bank (ledger_rows dec zone ts)) (points_between start target points)
      → let rows = ledger_rows dec zone ts in
        let a = accrue_cdi_interest dec zone bank ts through points percent start target in
        (sum_of (λ p. x.scaled p.amount) a.postings +ℤ x.scaled a.carry
          ≡ x.scaled (
              exact_days dec percent
                (points_between start target points)
                (initial_carry dec through rows)
                (of_ℕ 0)
                rows))
        × (pos 0 ≤ℤ x.scaled a.carry)
        × (x.scaled a.carry +ℤ pos 1 ≤ℤ x.scaled cent)
  unfolding accrue_cdi_interest start_state
  accrue_cdi_interest_exact zone bank ts through points percent start target h =
      let rows = ledger_rows dec zone ts in
      let s = start_state dec through rows in
      let carried = initial_carry-IsCarry through rows in
      let last = accrue_days dec bank rows percent (points_between start target points) s in
      let e =
        accrue_days-IsExactly bank rows percent (points_between start target points) s.carry s h
          (record {
            sum =
                x.scaled_inj _ _
                  (rw (x.scaled-plus (of_ℕ 0) s.carry, x.scaled-zero) (omega int_laws));
            carried = carried;
            posted = x.scaled-zero;
          }) in
      (
        ap (λ a. a +ℤ x.scaled last.carry) (sym e.posted)
            ∙ sym (x.scaled-plus _ _)
            ∙ ap x.scaled e.sum,
        e.carried.0,
        e.carried.1,
      )
