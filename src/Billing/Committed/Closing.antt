-- ===== src/Billing/Committed/Closing.antt =====
-- The closing day of the open cycle is the one that the planner closes next
-- (`currentCycleWindow` of `backend/src/lib/billing/cycle-window.ts` and `planCardBilling`).
use demanage.Prelude.{
  ℕ, ◌+◌, ◌-◌, ◌/◌, ◌%◌, ◌↔◌, ◌≤◌, ◌<◌, ◌≡◌, refl, sym, ◌∙◌, inl, inr, Bool, true, false, Option,
  none, some, List, [], ◌∷◌, arith, All, Bool-cases, find, dec_lt, if◌then◌else◌,
}
use mathlib.Core.Path.{subst}
use demanage.Prelude.Int.{negsuc}
use demanage.CivilDate.{DayKey, key_gt, day_number, day_key_from_number, add_days_to_key}
use demanage.CivilDate.Years.{days_before_year}
use demanage.CivilDate.Zone.{IsFullKey}
use demanage.CivilDate.Numbers.{
  day_number_mono, day_number-rank, day_key_from_number_lem, add_days_to_key_neg,
}
use demanage.Billing.Plan.Cycles.{full_after}
use demanage.CivilDate.Order.{
  IsKey, rank, IsKey-bounds, rank_inj, key_gt_iff, key_gt-false, key_lt-false, key_lt_of_le,
}
use demanage.Billing.Calendar.{list_closing_day_keys, next_closing_on_or_after, max_months}
use demanage.Billing.Calendar.Closings.{
  month_no, closing-rank, IsClosing, In, Due, list_closing_day_keys-Due,
  list_closing_day_keys_complete,
}
use demanage.Billing.Calendar.Next.{IsFirst, next_closing_on_or_after-IsFirst}
use demanage.Billing.Plan.{not_before}

All-map :
    {A : Type 0} (P Q : A → Type 0) (xs : List A) → ((a : A) → P a → Q a) → All P xs → All Q xs
All-map P Q [] f h = tt
All-map P Q (a ∷ xs) f h = (f a h.0, All-map P Q xs f h.1)

find-none :
    (p : DayKey → Bool) (xs : List DayKey) (k : DayKey) → find p xs ≡ none → In k xs → p k ≡ false
find-none p [] k e i = absurd i
find-none p (x ∷ xs) k e i = elim (Bool-cases (p x)) [
  | inl hit ↦ absurd (found (rw hit at e))
  | inr miss ↦ elim i [
    | inl same ↦ rw same miss
    | inr later ↦ find-none p xs k (rw miss at e) later
  ]
]
  where
    found : Path (Option DayKey) (some x) none → ⊥
    found e = cc

find_only :
    (p : DayKey → Bool) (xs : List DayKey) (k : DayKey)
    → In k xs
    → p k ≡ true
    → All (λ j. p j ≡ true → j ≡ k) xs
    → find p xs ≡ some k
find_only p [] k i hit only = absurd i
find_only p (x ∷ xs) k i hit only = elim (Bool-cases (p x)) [
  | inl hit_x ↦ rw hit_x (rw (only.0 hit_x) refl)
  | inr miss ↦ elim i [
    | inl same ↦ let missed : p k ≡ false = rw same miss in absurd (cc (missed, hit))
    | inr later ↦ rw miss (find_only p xs k later hit only.1)
  ]
]

-- The day that the open cycle closes on or after.
abbrev pub floor_of : Option DayKey → DayKey → DayKey
floor_of none today = today
floor_of (some m) today = if key_gt m today then m else today

abbrev pub IsKeyIfAny : Option DayKey → Type 0
IsKeyIfAny none = Unit
IsKeyIfAny (some m) = IsKey m

pub floor_of-IsKey :
    (minimum : Option DayKey) (today : DayKey)
    → IsKeyIfAny minimum
    → IsKey today
    → IsKey (floor_of minimum today)
floor_of-IsKey none today vm vt = vt
floor_of-IsKey (some m) today vm vt = elim (Bool-cases (key_gt m today)) [
  | inl later ↦ rw later vm
  | inr early ↦ rw early vt
]

-- A key that is not before either is not before the later of them.
after_both :
    (minimum : Option DayKey) (today k : DayKey)
    → IsKeyIfAny minimum
    → IsKey k
    → not_before minimum k ≡ true
    → rank today ≤ rank k
    → rank (floor_of minimum today) ≤ rank k
after_both none today k vm vk n h = h
after_both (some m) today k vm vk n h = elim (Bool-cases (key_gt m today)) [
  | inl later ↦ rw later (key_lt-false vk vm (ground (arith, n)))
  | inr early ↦ rw early h
]

not_before_floor :
    (minimum : Option DayKey) (today k : DayKey)
    → IsKeyIfAny minimum
    → IsKey today
    → IsKey k
    → rank (floor_of minimum today) ≤ rank k
    → (not_before minimum k ≡ true) × (rank today ≤ rank k)
not_before_floor none today k vm vt vk h = (refl, h)
not_before_floor (some m) today k vm vt vk h = elim (Bool-cases (key_gt m today)) [
  | inl later ↦
      let le : rank m ≤ rank k = rw later at h in
      let gt = (key_gt_iff vm vt).0 later in
      (rw (key_lt_of_le vk vm le) refl, omega (arith, gt, le))
  | inr early ↦
      let le : rank today ≤ rank k = rw early at h in
      let m_le = key_gt-false vm vt early in
      (rw (key_lt_of_le vk vm (omega (arith, le, m_le))) refl, le)
]

module _ (c : ℕ) (start today yesterday : DayKey) (minimum : Option DayKey) (vs : IsKey start)
    (vt : IsKey today) (vy : IsKey yesterday) (vm : IsKeyIfAny minimum)
    (follows : (j : DayKey) → IsKey j → rank yesterday < rank j → rank today ≤ rank j)
    (near : month_no (floor_of minimum today).year (floor_of minimum today).month_index + 1
      < month_no start.year start.month_index + max_months)
    (closed : find (not_before minimum) (list_closing_day_keys c start yesterday) ≡ none) where
  -- The first closing day is in one of the months that the loops visit.
  near_first :
      (k : DayKey)
      → IsFirst c start (floor_of minimum today) k
      → month_no k.year k.month_index < month_no start.year start.month_index + max_months
  near_first k f =
      let fl = floor_of minimum today in
      let vf = floor_of-IsKey minimum today vm vt in
      let bk = IsKey-bounds f.valid in
      let bs = IsKey-bounds vs in
      let bf = IsKey-bounds vf in
      elim (dec_lt (month_no fl.year fl.month_index) (month_no start.year start.month_index)) [
        | yes p ↦
            let t = month_no start.year start.month_index + 1 in
            let r = closing-rank (t / 12) (t % 12) c in
            omega
              (arith, f.first (t / 12) (t % 12) (omega arith) (omega (arith, r)) (omega (arith, r)))
        | no p ↦
            let t = month_no fl.year fl.month_index + 1 in
            let r = closing-rank (t / 12) (t % 12) c in
            omega
              (arith, f.first (t / 12) (t % 12) (omega arith) (omega (arith, r)) (omega (arith, r)))
      ]

  -- A closing day is in the list of those up to a day that it is not after.
  listed :
      (j until : DayKey)
      → IsKey until
      → IsKey j
      → IsClosing c j
      → month_no j.year j.month_index < month_no start.year start.month_index + max_months
      → rank start < rank j
      → rank j ≤ rank until
      → In j (list_closing_day_keys c start until)
  listed j until vu vj cj n a u =
      subst (λ k. In k (list_closing_day_keys c start until)) (sym cj)
        (list_closing_day_keys_complete c start until vs vu j.year j.month_index vj.month_in n
          (subst (λ k. rank start < rank k) cj a) (subst (λ k. rank k ≤ rank until) cj u))

  -- A closing day that the planner may take, up to the first of the open cycle, is that one.
  only_first :
      (k j : DayKey)
      → IsFirst c start (floor_of minimum today) k
      → Due c start k j
      → not_before minimum j ≡ true
      → j ≡ k
  only_first k j f d n = elim (dec_lt (rank yesterday) (rank j)) [
    | yes p ↦
        let late = after_both minimum today j vm d.valid n (follows j d.valid p) in
        let least =
          f.first j.year j.month_index d.valid.month_in
            (subst (λ i. rank start < rank i) d.closing d.above)
            (subst (λ i. rank (floor_of minimum today) ≤ rank i) d.closing late) in
        let above : rank k ≤ rank j = subst (λ i. rank k ≤ rank i) (sym d.closing) least in
        rank_inj d.valid f.valid (omega (arith, above, d.below))
    | no p ↦
        let bj = IsKey-bounds d.valid in
        let bk = IsKey-bounds f.valid in
        let month : month_no j.year j.month_index
            < month_no start.year start.month_index + max_months =
          omega (arith, near_first k f, d.below, bj, bk) in
        let old = listed j yesterday vy d.valid d.closing month d.above (omega arith) in
        absurd (cc (find-none (not_before minimum) _ j closed old, n))
  ]

  pub find_next :
      (k : DayKey)
      → next_closing_on_or_after c start (floor_of minimum today) ≡ some k
      → (find (not_before minimum) (list_closing_day_keys c start k) ≡ some k)
        × IsKey k
        × (rank start < rank k)
  find_next k e =
      let vf = floor_of-IsKey minimum today vm vt in
      let (first, found, is_first) =
        next_closing_on_or_after-IsFirst c start (floor_of minimum today) vs vf near in
      let f : IsFirst c start (floor_of minimum today) k =
        subst (λ j. IsFirst c start (floor_of minimum today) j) (same (sym found ∙ e)) is_first in
      let (passes, _) = not_before_floor minimum today k vm vt f.valid f.on_or_after in
      (
        find_only (not_before minimum) (list_closing_day_keys c start k) k
            (listed k k f.valid f.valid f.closing (near_first k f) f.above (omega arith)) passes
            (All-map (Due c start k) (λ j. not_before minimum j ≡ true → j ≡ k) _
              (λ j d n. only_first k j f d n) (list_closing_day_keys-Due c start k vs f.valid)),
        f.valid,
        f.above,
      )
    where
      same : {a b : DayKey} → some a ≡ some b → a ≡ b
      same h = cc

-- Every valid day after the day before today is today or later.
pub yesterday_follows :
    (today : DayKey)
    → IsFullKey today
    → days_before_year 100 < day_number today
    → let yesterday = add_days_to_key today (negsuc 0) in
      IsFullKey yesterday × ((j : DayKey) → IsKey j → rank yesterday < rank j → rank today ≤ rank j)
yesterday_follows today vt h = rw (add_days_to_key_neg today 0) (
    let (v, full, e) = day_key_from_number_lem (day_number today - 1) (omega arith) in
    (
      (v, full),
      λ j vj after.
          let vfj = full_after (day_key_from_number (day_number today - 1)) j (v, full) vj after in
          let later =
            day_number_mono (day_key_from_number (day_number today - 1)) j v vj full after in
          not_earlier j today (day_number-rank j today vj vt.0 vfj.1 vt.1)
            (omega (arith, later, e)),
    ))
  where
    not_earlier :
        (j today : DayKey)
        → (rank j < rank today) ↔ (day_number j < day_number today)
        → day_number today ≤ day_number j
        → rank today ≤ rank j
    not_earlier j today iff le = elim (dec_lt (rank j) (rank today)) [
      | yes p ↦ absurd (omega (arith, iff.0 p, le))
      | no p ↦ omega arith
    ]
