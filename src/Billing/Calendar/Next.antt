-- ===== src/Billing/Calendar/Next.antt =====
-- `nextClosingOnOrAfter` (`backend/src/lib/billing/calendar.ts`).
use native.Mathlib.Nat.{le_refl}
use demanage.Prelude.{
  ℕ, zero, suc, ◌+◌, ◌-◌, ◌/◌, ◌%◌, ◌≤◌, ◌<◌, ◌≡◌, refl, inl, inr, Bool, true, false, not, ◌&&◌,
  some, arith, Bool-cases, dec_lt,
}
use demanage.CivilDate.{DayKey, key_gt, key_lt, next_year, next_month}
use demanage.CivilDate.Order.{IsKey, rank, IsKey-bounds, key_gt_iff, key_lt-false, key_lt_of_le}
use demanage.Billing.Calendar.{
  closing_day_key_in_month, next_from, next_closing_on_or_after, max_months,
}
use demanage.Billing.Calendar.Closings.{
  month_no, closing-IsKey, closing-rank, next_month_lem, IsClosing,
}

-- `k` is the first closing day after `after` and not before `floor`.
pub record IsFirst (c : ℕ) (after floor k : DayKey) : Type 0 where
  pub valid : IsKey k
  pub closing : IsClosing c k
  pub above : rank after < rank k
  pub on_or_after : rank floor ≤ rank k
  pub first :
      (y m : ℕ)
      → m < 12
      → rank after < rank (closing_day_key_in_month y m c)
      → rank floor ≤ rank (closing_day_key_in_month y m c)
      → rank k ≤ rank (closing_day_key_in_month y m c)

and_left : (a b : Bool) → (a && not b) ≡ true → a ≡ true
and_left a b e = ground arith

and_right : (a b : Bool) → (a && not b) ≡ true → b ≡ false
and_right a b e = ground arith

-- Closing days of later months are later.
pub closing_mono :
    (c y m y' m' : ℕ)
    → m < 12
    → m' < 12
    → month_no y m ≤ month_no y' m'
    → rank (closing_day_key_in_month y m c) ≤ rank (closing_day_key_in_month y' m' c)
closing_mono c y m y' m' h h' le = elim (dec_lt (month_no y m) (month_no y' m')) [
  | yes p ↦ omega (arith, closing-rank y m c, closing-rank y' m' c)
  | no p ↦ let ey : y ≡ y' = omega arith in let em : m ≡ m' = omega arith in rw (ey, em) (le_refl _)
]

module _ (c : ℕ) (after floor : DayKey) (va : IsKey after) (vf : IsKey floor) where
  -- No closing day of an earlier month is in the range.
  abbrev NoneBefore : ℕ → Type 0
  NoneBefore t =
      (y m : ℕ)
      → m < 12
      → rank after < rank (closing_day_key_in_month y m c)
      → rank floor ≤ rank (closing_day_key_in_month y m c)
      → t ≤ month_no y m

  -- The month after both bounds has a closing day in the range.
  late_month :
      (t : ℕ)
      → NoneBefore t
      → month_no floor.year floor.month_index + 1 < t
      → month_no after.year after.month_index + 1 < t
      → ⊥
  late_month t none_before f a =
      let s = t - 1 in
      let r = closing-rank (s / 12) (s % 12) c in
      let bf = IsKey-bounds vf in
      let ba = IsKey-bounds va in
      omega (arith, none_before (s / 12) (s % 12) (omega arith) (omega arith) (omega arith))

  candidate-IsFirst :
      (y m : ℕ)
      → m < 12
      → NoneBefore (month_no y m)
      → key_gt (closing_day_key_in_month y m c) after ≡ true
      → key_lt (closing_day_key_in_month y m c) floor ≡ false
      → IsFirst c after floor (closing_day_key_in_month y m c)
  unfolding closing_day_key_in_month
  candidate-IsFirst y m h none_before gt lt = record {
    valid = closing-IsKey y m c h;
    closing = refl;
    above = (key_gt_iff (closing-IsKey y m c h) va).0 gt;
    on_or_after = key_lt-false (closing-IsKey y m c h) vf lt;
    first = λ y' m' h' a f. closing_mono c y m y' m' h h' (none_before y' m' h' a f);
  }

  NoneBefore-next :
      (y m : ℕ)
      → m < 12
      → NoneBefore (month_no y m)
      → (key_gt (closing_day_key_in_month y m c) after
          && not (key_lt (closing_day_key_in_month y m c) floor))
        ≡ false
      → NoneBefore (month_no (next_year y m) (next_month m))
  NoneBefore-next y m h none_before out y' m' h' a f =
      elim (dec_lt (month_no y m) (month_no y' m')) [
        | yes p ↦ omega (arith, next_month_lem y m h)
        | no p ↦
            let ey : y ≡ y' = omega (arith, none_before y' m' h' a f) in
            let em : m ≡ m' = omega (arith, none_before y' m' h' a f) in
            let v = closing-IsKey y m c h in
            let gt = (key_gt_iff v va).1 (rw (ey, em) a) in
            let lt = key_lt_of_le v vf (rw (ey, em) f) in absurd (ground arith)
      ]

  next_from-IsFirst :
      (n y m : ℕ)
      → m < 12
      → NoneBefore (month_no y m)
      → month_no floor.year floor.month_index + 1 < month_no y m + n
      → month_no after.year after.month_index + 1 < month_no y m + n
      → (k : DayKey) × (next_from c after floor n y m ≡ some k) × IsFirst c after floor k
  unfolding next_from
  next_from-IsFirst zero y m h none_before f a =
      absurd (late_month (month_no y m) none_before (omega arith) (omega arith))
  next_from-IsFirst (suc n) y m h none_before f a =
      let k = closing_day_key_in_month y m c in
      let s = next_month_lem y m h in
      elim (Bool-cases (key_gt k after && not (key_lt k floor))) [
        | inl found ↦ (
          k,
          rw found,
          candidate-IsFirst y m h none_before (and_left _ _ found) (and_right _ _ found),
        )
        | inr out ↦ rw out (
            next_from-IsFirst n (next_year y m) (next_month m) s.1
              (NoneBefore-next y m h none_before out) (omega arith) (omega arith))
      ]

  -- The search does not fail, and returns the first closing day that is after `after` and not
  -- before `floor`. Both are valid days, and the month after that of `floor` is less than 1200
  -- months after that of `after`.
  pub next_closing_on_or_after-IsFirst :
      month_no floor.year floor.month_index + 1 < month_no after.year after.month_index + max_months
      → (k : DayKey) × (next_closing_on_or_after c after floor ≡ some k) × IsFirst c after floor k
  unfolding next_closing_on_or_after
  next_closing_on_or_after-IsFirst near =
      next_from-IsFirst max_months after.year after.month_index va.month_in
        (λ y m h a f. omega (arith, closing-rank y m c, IsKey-bounds va)) near (omega arith)
