-- ===== src/Billing/Calendar/Closings.antt =====
-- `listClosingDayKeys` (`backend/src/lib/billing/calendar.ts`).
use demanage.Prelude.{
  ℕ, zero, suc, ◌+◌, ◌*◌, ◌≤◌, ◌<◌, ◌≡◌, refl, ◌⊎◌, inl, inr, true, false, List, [], ◌∷◌, arith,
  All, Bool-cases, dec_lt,
}
use demanage.CivilDate.{DayKey, key_gt, next_year, next_month}
use demanage.CivilDate.Order.{
  IsKey, rank, IsKey-bounds, clamp_day_to_month_lem, clamp_day_to_month-IsKey,
  last_day_of_month_bounds, key_gt_iff, key_gt-false, key_gt_of_le,
}
use demanage.Billing.Calendar.{
  closing_day_key_in_month, closings_from, list_closing_day_keys, max_months,
}

-- A month as a number, and the first rank of a month.
abbrev pub month_no : ℕ → ℕ → ℕ
month_no y m = 12 * y + m

pub closing-IsKey : (y m c : ℕ) → m < 12 → IsKey (closing_day_key_in_month y m c)
unfolding closing_day_key_in_month
closing-IsKey y m c h = clamp_day_to_month-IsKey y m c h

-- A closing day lies in its month.
pub closing-rank :
    (y m c : ℕ)
    → (31 * month_no y m ≤ rank (closing_day_key_in_month y m c))
      × (rank (closing_day_key_in_month y m c) < 31 * suc (month_no y m))
unfolding closing_day_key_in_month
closing-rank y m c =
    let b = clamp_day_to_month_lem y m c in let l = last_day_of_month_bounds y m in omega arith

-- The step over months moves to the month after, and stays within the year.
pub next_month_lem :
    (y m : ℕ)
    → m < 12
    → (month_no (next_year y m) (next_month m) ≡ suc (month_no y m)) × (next_month m < 12)
next_month_lem y m h = ground arith

-- `k` is the closing day of its month.
abbrev pub IsClosing : ℕ → DayKey → Type 0
IsClosing c k = k ≡ closing_day_key_in_month k.year k.month_index c

-- Strictly ascending, from a rank on.
abbrev pub Ascends : ℕ → List DayKey → Type 0
Ascends r [] = Unit
Ascends r (k ∷ ks) = (r ≤ rank k) × Ascends (suc (rank k)) ks

abbrev pub In : DayKey → List DayKey → Type 0
In k [] = ⊥
In k (j ∷ js) = (k ≡ j) ⊎ In k js

Ascends-le : (r s : ℕ) (ks : List DayKey) → r ≤ s → Ascends s ks → Ascends r ks
Ascends-le r s [] h a = tt
Ascends-le r s (k ∷ ks) h a = (omega arith, a.1)

-- What the list promises of a key.
pub record Due (c : ℕ) (after until k : DayKey) : Type 0 where
  pub valid : IsKey k
  pub closing : IsClosing c k
  pub above : rank after < rank k
  pub below : rank k ≤ rank until

module _ (c : ℕ) (after until : DayKey) (va : IsKey after) (vu : IsKey until) where
  closing-Due :
      (y m : ℕ)
      → m < 12
      → key_gt (closing_day_key_in_month y m c) until ≡ false
      → key_gt (closing_day_key_in_month y m c) after ≡ true
      → Due c after until (closing_day_key_in_month y m c)
  unfolding closing_day_key_in_month
  closing-Due y m h u a = record {
    valid = closing-IsKey y m c h;
    closing = refl;
    above = (key_gt_iff (closing-IsKey y m c h) va).0 a;
    below = key_gt-false (closing-IsKey y m c h) vu u;
  }

  closings_from-Due :
      (n y m : ℕ) → m < 12 → All (Due c after until) (closings_from c after until n y m)
  unfolding closings_from
  closings_from-Due zero y m h = tt
  closings_from-Due (suc n) y m h =
      elim (Bool-cases (key_gt (closing_day_key_in_month y m c) until)) [
        | inl past ↦ rw past tt
        | inr open_ ↦ elim (Bool-cases (key_gt (closing_day_key_in_month y m c) after)) [
          | inl due ↦
              rw (open_, due)
                (
                  closing-Due y m h open_ due,
                  closings_from-Due n (next_year y m) (next_month m) (next_month_lem y m h).1,
                )
          | inr early ↦
              rw (open_, early)
                (closings_from-Due n (next_year y m) (next_month m) (next_month_lem y m h).1)
        ]
      ]

  closings_from-Ascends :
      (n y m : ℕ) → m < 12 → Ascends (31 * month_no y m) (closings_from c after until n y m)
  unfolding closings_from
  closings_from-Ascends zero y m h = tt
  closings_from-Ascends (suc n) y m h =
      let s = next_month_lem y m h in
      let r = closing-rank y m c in
      let ih = closings_from-Ascends n (next_year y m) (next_month m) s.1 in
      elim (Bool-cases (key_gt (closing_day_key_in_month y m c) until)) [
        | inl past ↦ rw past tt
        | inr open_ ↦ elim (Bool-cases (key_gt (closing_day_key_in_month y m c) after)) [
          | inl due ↦ rw (open_, due) (omega arith, Ascends-le _ _ _ (omega arith) ih)
          | inr early ↦ rw (open_, early) (Ascends-le _ _ _ (omega arith) ih)
        ]
      ]

  closings_from_complete :
      (n y m y' m' : ℕ)
      → m < 12
      → m' < 12
      → month_no y m ≤ month_no y' m'
      → month_no y' m' < month_no y m + n
      → rank after < rank (closing_day_key_in_month y' m' c)
      → rank (closing_day_key_in_month y' m' c) ≤ rank until
      → In (closing_day_key_in_month y' m' c) (closings_from c after until n y m)
  unfolding closings_from
  closings_from_complete zero y m y' m' h h' lo hi a u = absurd (omega arith)
  closings_from_complete (suc n) y m y' m' h h' lo hi a u =
      let s = next_month_lem y m h in
      let k = closing_day_key_in_month y m c in
      let r = closing-rank y m c in
      let r' = closing-rank y' m' c in
      let vk = closing-IsKey y m c h in
      elim (dec_lt (month_no y m) (month_no y' m')) [
        | yes p ↦
            let ih =
              closings_from_complete n (next_year y m) (next_month m) y' m' s.1 h' (omega arith)
                (omega arith) a u in
            elim (Bool-cases (key_gt k after)) [
              | inl due ↦ rw (key_gt_of_le vk vu (omega arith), due) (inr ih)
              | inr early ↦ rw (key_gt_of_le vk vu (omega arith), early) ih
            ]
        | no p ↦
            let ey : y ≡ y' = omega arith in
            let em : m ≡ m' = omega arith in
            let a' : rank after < rank k = rw (ey, em) a in
            let u' : rank k ≤ rank until = rw (ey, em) u in
            rw (key_gt_of_le vk vu u', (key_gt_iff vk va).1 a') (inl (rw (ey, em)))
      ]

  -- Every key of the list is a valid day, the closing day of its month, after `after` and not
  -- after `until`; both are valid days.
  pub list_closing_day_keys-Due : All (Due c after until) (list_closing_day_keys c after until)
  unfolding list_closing_day_keys
  list_closing_day_keys-Due = closings_from-Due max_months after.year after.month_index va.month_in

  -- The list ascends strictly, from the month of `after` on; `after` and `until` are valid
  -- days.
  pub list_closing_day_keys-Ascends :
      Ascends (31 * month_no after.year after.month_index) (list_closing_day_keys c after until)
  unfolding list_closing_day_keys
  list_closing_day_keys-Ascends =
      closings_from-Ascends max_months after.year after.month_index va.month_in

  -- Every closing day after `after`, up to and with `until`, is in the list, where its month is
  -- less than 1200 months after that of `after`; both are valid days.
  pub list_closing_day_keys_complete :
      (y m : ℕ)
      → m < 12
      → month_no y m < month_no after.year after.month_index + max_months
      → rank after < rank (closing_day_key_in_month y m c)
      → rank (closing_day_key_in_month y m c) ≤ rank until
      → In (closing_day_key_in_month y m c) (list_closing_day_keys c after until)
  unfolding list_closing_day_keys
  list_closing_day_keys_complete y m h near a u =
      let r = closing-rank y m c in
      let b = IsKey-bounds va in
      closings_from_complete max_months after.year after.month_index y m va.month_in h (omega arith)
        near a u
