-- ===== src/Patrimony/Rows/Cash.antt =====
-- The cash of a day of the timeline (`buildPatrimonyRows` of
-- `backend/src/lib/patrimony-calc.ts`).
use demanage.Prelude.{
  ℕ, ◌+◌, ◌≤◌, ◌≡◌, refl, ◌∙◌, inl, inr, arith, Bool, true, ◌&&◌, List, [], ◌∷◌, All, filter, ltb,
  leb, ◌==◌, Bool-cases, if◌then◌else◌,
}
use demanage.Prelude.Int.{ℤ, pos, ◌+ℤ◌, int_laws}
use demanage.Prelude.Decimals.{Decimals, IsExact}
use demanage.CivilDate.{DayKey, day_number}
use demanage.CivilDate.Order.{IsKey-bounds, rank}
use demanage.CivilDate.Numbers.{day_number-rank}
use demanage.CivilDate.Zone.{IsFullKey}
use demanage.Billing.Charges.Totals.{sum_of}
use demanage.Billing.Occurrences.Weekly.{key_gt-number, key_le-number}
use demanage.Piggy.Interest.{is_same_day}
use demanage.Patrimony.{CashFlow, in_period}
use demanage.Patrimony.Rows.{PatrimonyArgs, add_flows}

pub same_day_refl : (a : DayKey) → is_same_day a a ≡ true
same_day_refl a = ground arith

same_day-rank : (a b : DayKey) → IsFullKey a → IsFullKey b → is_same_day a b ≡ (rank a == rank b)
same_day-rank a b va vb = ground (arith, IsKey-bounds va.0, IsKey-bounds vb.0)

pub same_day-number :
    (a b : DayKey) → IsFullKey a → IsFullKey b → is_same_day a b ≡ (day_number a == day_number b)
same_day-number a b va vb =
    same_day-rank a b va vb
    ∙ ground
        (arith, day_number-rank a b va.0 vb.0 va.1 vb.1, day_number-rank b a vb.0 va.0 vb.1 va.1)

-- What is counted up to a day, and the day after it.
counted_by_number :
    (s f k : ℕ) (a : ℤ)
    → s ≤ k
    → (if ltb s f && leb f (k + 1) then a else pos 0)
      ≡ (if ltb s f && leb f k then a else pos 0) +ℤ (if f == k + 1 then a else pos 0)
counted_by_number s f k a h =
    let right : a +ℤ pos 0 ≡ a = omega int_laws in
    let left : pos 0 +ℤ a ≡ a = omega int_laws in
    let none : pos 0 +ℤ pos 0 ≡ pos 0 = omega int_laws in ground (arith, right, left, none)

counted_step :
    (stored day key next : DayKey) (a : ℤ)
    → IsFullKey stored
    → IsFullKey day
    → IsFullKey key
    → IsFullKey next
    → day_number next ≡ day_number key + 1
    → day_number stored ≤ day_number key
    → (if in_period stored next day then a else pos 0)
      ≡ (if in_period stored key day then a else pos 0)
        +ℤ (if is_same_day day next then a else pos 0)
counted_step stored day key next a vs vd vk vn e h =
    rw
      (
        key_gt-number vd.0 vs.0 vd.1 vs.1,
        key_le-number vd.0 vn.0 vd.1 vn.1,
        key_le-number vd.0 vk.0 vd.1 vk.1,
        same_day-number day next vd vn,
        e,
      )
      (counted_by_number (day_number stored) (day_number day) (day_number key) a h)

pub sum_of-filter :
    {A : Type 0} (f : A → ℤ) (p : A → Bool) (xs : List A)
    → sum_of f (filter p xs) ≡ sum_of (λ a. if p a then f a else pos 0) xs
sum_of-filter f p [] = refl
sum_of-filter f p (a ∷ xs) = elim (Bool-cases (p a)) [
  | inl yes_p ↦ rw (yes_p, sum_of-filter f p xs) refl
  | inr no_p ↦ rw (no_p, sum_of-filter f p xs) (omega int_laws)
]

module _ {dec : Decimals} (x : IsExact dec) where
  abbrev pub amount_of : CashFlow dec.Decimal → ℤ
  amount_of f = x.scaled f.amount

  -- The flows dated after one day and up to another.
  abbrev pub moved_in : DayKey → DayKey → List (CashFlow dec.Decimal) → ℤ
  moved_in after day fs = sum_of (λ f. if in_period after day f.date then amount_of f else pos 0) fs

  -- The opening cash, and the flows after the stored base day up to a day.
  abbrev pub cash_at : PatrimonyArgs dec.Decimal → DayKey → ℤ
  cash_at args day = x.scaled args.opening_cash +ℤ moved_in args.stored_base_key day args.flows

  pub add_flows_lem :
      (cash : dec.Decimal) (fs : List (CashFlow dec.Decimal))
      → x.scaled (add_flows dec cash fs) ≡ x.scaled cash +ℤ sum_of amount_of fs
  unfolding add_flows
  add_flows_lem cash [] = omega int_laws
  add_flows_lem cash (f ∷ fs) =
      add_flows_lem (dec.plus cash f.amount) fs ∙ rw (x.scaled-plus cash f.amount) (omega int_laws)

  pub moved_in_step :
      (stored key next : DayKey) (fs : List (CashFlow dec.Decimal))
      → IsFullKey stored
      → IsFullKey key
      → IsFullKey next
      → day_number next ≡ day_number key + 1
      → day_number stored ≤ day_number key
      → All (λ f. IsFullKey f.date) fs
      → moved_in stored next fs
        ≡ moved_in stored key fs
          +ℤ sum_of (λ f. if is_same_day f.date next then amount_of f else pos 0) fs
  moved_in_step stored key next [] vs vk vn e h all = omega int_laws
  moved_in_step stored key next (f ∷ fs) vs vk vn e h all =
      rw
        (
          counted_step stored f.date key next (amount_of f) vs all.0 vk vn e h,
          moved_in_step stored key next fs vs vk vn e h all.1,
        )
        (omega int_laws)
