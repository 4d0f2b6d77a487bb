-- ===== src/Patrimony/Running.antt =====
-- A running total read at ascending days (`createRunningTotal` of
-- `backend/src/lib/patrimony-calc.ts`).
use demanage.Prelude.{
  ◌≡◌, refl, sym, ap, ◌∙◌, inl, inr, arith, true, false, List, [], ◌∷◌, All, map, Bool-cases,
  if◌then◌else◌,
}
use demanage.Prelude.Int.{ℤ, pos, ◌+ℤ◌, int_laws}
use demanage.Prelude.Decimals.{Decimals, IsExact}
use demanage.CivilDate.{DayKey, key_lt, key_gt, key_le, compare_day_keys}
use demanage.Billing.Charges.Totals.{sum_of}
use demanage.Patrimony.{
  Step, RunningTotal, insert_step, sort_steps, create_running_total, total_from, total_at,
}

pub key_le_trans : (a b c : DayKey) → key_le a b ≡ true → key_le b c ≡ true → key_le a c ≡ true
unfolding key_le key_gt compare_day_keys key_lt
key_le_trans a b c h g = ground (arith, h, g)

pub key_le_refl : (a : DayKey) → key_le a a ≡ true
unfolding key_le key_gt compare_day_keys key_lt
key_le_refl a = ground arith

key_lt-key_le : (a b : DayKey) → key_lt a b ≡ true → key_le a b ≡ true
unfolding key_le key_gt compare_day_keys key_lt
key_lt-key_le a b h = ground (arith, h)

key_lt-false-key_le : (a b : DayKey) → key_lt a b ≡ false → key_le b a ≡ true
unfolding key_le key_gt compare_day_keys key_lt
key_lt-false-key_le a b h = ground (arith, h)

abbrev pub IsSorted : {D : Type 0} → List (Step D) → Type 0
IsSorted [] = Unit
IsSorted (s ∷ ss) = All (λ u. key_le s.day u.day ≡ true) ss × IsSorted ss

insert_step-All :
    {D : Type 0} (P : Step D → Type 0) (s : Step D) (us : List (Step D))
    → P s
    → All P us
    → All P (insert_step s us)
unfolding insert_step
insert_step-All P s [] p h = (p, tt)
insert_step-All P s (u ∷ us) p h = elim (Bool-cases (key_lt u.day s.day)) [
  | inl after ↦ rw after (h.0, insert_step-All P s us p h.1)
  | inr before ↦ rw before (p, h)
]

All-later :
    {D : Type 0} (a b : DayKey) (us : List (Step D))
    → key_le a b ≡ true
    → All (λ u. key_le b u.day ≡ true) us
    → All (λ u. key_le a u.day ≡ true) us
All-later a b [] h g = tt
All-later a b (u ∷ us) h g = (key_le_trans a b u.day h g.0, All-later a b us h g.1)

insert_step-IsSorted :
    {D : Type 0} (s : Step D) (us : List (Step D)) → IsSorted us → IsSorted (insert_step s us)
unfolding insert_step
insert_step-IsSorted s [] h = (tt, tt)
insert_step-IsSorted s (u ∷ us) h = elim (Bool-cases (key_lt u.day s.day)) [
  | inl after ↦ rw after (
    insert_step-All (λ v. key_le u.day v.day ≡ true) s us (key_lt-key_le u.day s.day after) h.0,
    insert_step-IsSorted s us h.1,
  )
  | inr before ↦
      let le = key_lt-false-key_le u.day s.day before in
      rw before ((le, All-later s.day u.day us le h.0), h)
]

sort_steps-IsSorted : {D : Type 0} (ss : List (Step D)) → IsSorted (sort_steps ss)
unfolding sort_steps
sort_steps-IsSorted [] = tt
sort_steps-IsSorted (s ∷ ss) = insert_step-IsSorted s (sort_steps ss) (sort_steps-IsSorted ss)

sum_of-insert_step :
    {D : Type 0} (f : Step D → ℤ) (s : Step D) (us : List (Step D))
    → sum_of f (insert_step s us) ≡ f s +ℤ sum_of f us
unfolding insert_step
sum_of-insert_step f s [] = refl
sum_of-insert_step f s (u ∷ us) = elim (Bool-cases (key_lt u.day s.day)) [
  | inl after ↦ rw (after, sum_of-insert_step f s us) (omega int_laws)
  | inr before ↦ rw before refl
]

sum_of-sort_steps :
    {D : Type 0} (f : Step D → ℤ) (ss : List (Step D)) → sum_of f (sort_steps ss) ≡ sum_of f ss
unfolding sort_steps
sum_of-sort_steps f [] = refl
sum_of-sort_steps f (s ∷ ss) =
    sum_of-insert_step f s (sort_steps ss) ∙ ap (λ n. f s +ℤ n) (sum_of-sort_steps f ss)

module _ {dec : Decimals} (x : IsExact dec) where
  -- A step, if it is dated on or before a day.
  abbrev pub counted : DayKey → Step dec.Decimal → ℤ
  counted day s = if key_le s.day day then x.scaled s.delta else pos 0

  -- The sum of all steps dated on or before a day.
  abbrev pub up_to : List (Step dec.Decimal) → DayKey → ℤ
  up_to ss day = sum_of (counted day) ss

  late_zero :
      (a day : DayKey) (ss : List (Step dec.Decimal))
      → key_le a day ≡ false
      → All (λ u. key_le a u.day ≡ true) ss
      → up_to ss day ≡ pos 0
  late_zero a day [] late h = refl
  late_zero a day (s ∷ ss) late h = elim (Bool-cases (key_le s.day day)) [
    | inl early ↦ absurd (cc (key_le_trans a s.day day h.0 early, late))
    | inr after ↦ rw (after, late_zero a day ss late h.1) (omega int_laws)
  ]

  first_late :
      (day : DayKey) (s : Step dec.Decimal) (ss : List (Step dec.Decimal))
      → key_le s.day day ≡ false
      → All (λ u. key_le s.day u.day ≡ true) ss
      → up_to (s ∷ ss) day ≡ pos 0
  first_late day s ss late h = rw (late, late_zero s.day day ss late h) (omega int_laws)

  -- A total whose steps are those of `items`, for every day from `day` on.
  abbrev pub IsTotalOf : List (Step dec.Decimal) → DayKey → RunningTotal dec.Decimal → Type 0
  IsTotalOf items day r =
      IsSorted r.rest
      × ((d : DayKey) → key_le day d ≡ true → x.scaled r.total +ℤ up_to r.rest d ≡ up_to items d)

  total_from_lem :
      (day : DayKey) (ss : List (Step dec.Decimal)) (total : dec.Decimal)
      → IsSorted ss
      → IsSorted (total_from dec day ss total).rest
        × ((d : DayKey)
            → key_le day d ≡ true
            → x.scaled (total_from dec day ss total).total
                +ℤ up_to (total_from dec day ss total).rest d
              ≡ x.scaled total +ℤ up_to ss d)
        × (up_to (total_from dec day ss total).rest day ≡ pos 0)
  unfolding total_from
  total_from_lem day [] total h = (tt, λ d g. refl, refl)
  total_from_lem day (s ∷ ss) total h = elim (Bool-cases (key_le s.day day)) [
    | inl early ↦
        let (sorted, same, none_left) = total_from_lem day ss (dec.plus total s.delta) h.1 in
        rw early (
          sorted,
          λ d g.
              same d g
              ∙ rw (x.scaled-plus total s.delta, key_le_trans s.day day d early g) (omega int_laws),
          none_left,
        )
    | inr late ↦ rw late (h, λ d g. refl, first_late day s ss late h.0)
  ]

  last : (a b c : ℤ) → a +ℤ b ≡ c → b ≡ pos 0 → a ≡ c
  last a b c h g = let e : a +ℤ b ≡ a = rw g (omega int_laws) in sym e ∙ h

  -- A read at a later day is the sum up to it.
  pub total_at-IsTotalOf :
      (items : List (Step dec.Decimal)) (day next : DayKey) (r : RunningTotal dec.Decimal)
      → key_le day next ≡ true
      → IsTotalOf items day r
      → IsTotalOf items next (total_at dec r next)
        × (x.scaled (total_at dec r next).total ≡ up_to items next)
  unfolding total_at
  total_at-IsTotalOf items day next r h (sorted, total) =
      let (sorted_rest, same, none_left) = total_from_lem next r.rest r.total sorted in
      let le = key_le_refl next in
      (
        (sorted_rest, λ d g. same d g ∙ total d (key_le_trans day next d h g)),
        (let both = same next le ∙ total next h in last _ _ _ both none_left),
      )

  created-IsTotalOf :
      (items : List (Step dec.Decimal)) (day : DayKey)
      → IsTotalOf items day (create_running_total dec items)
  unfolding create_running_total
  created-IsTotalOf items day = (
    sort_steps-IsSorted items,
    λ d h. rw (x.scaled-zero, sum_of-sort_steps (counted d) items) (omega int_laws),
  )

  -- A total that was read at a day.
  pub first_read-IsTotalOf :
      (items : List (Step dec.Decimal)) (day : DayKey)
      → IsTotalOf items day (total_at dec (create_running_total dec items) day)
        × (x.scaled (total_at dec (create_running_total dec items) day).total ≡ up_to items day)
  first_read-IsTotalOf items day =
      total_at-IsTotalOf items day day (create_running_total dec items) (key_le_refl day)
        (created-IsTotalOf items day)

  -- What `at` returns at each of some days, one after the other.
  abbrev pub reads : RunningTotal dec.Decimal → List DayKey → List dec.Decimal
  reads r [] = []
  reads r (day ∷ days) = (total_at dec r day).total ∷ reads (total_at dec r day) days

  abbrev pub Ascends : DayKey → List DayKey → Type 0
  Ascends day [] = Unit
  Ascends day (next ∷ days) = (key_le day next ≡ true) × Ascends next days

  reads_lem :
      (items : List (Step dec.Decimal)) (day : DayKey) (r : RunningTotal dec.Decimal)
      (days : List DayKey)
      → IsTotalOf items day r
      → Ascends day days
      → map x.scaled (reads r days) ≡ map (up_to items) days
  reads_lem items day r [] h a = refl
  reads_lem items day r (next ∷ days) h a =
      let (after, now) = total_at-IsTotalOf items day next r a.0 h in
      rw (now, reads_lem items next (total_at dec r next) days after a.1) refl

  -- The totals that a running total returns at days that do not descend are, for each day, the
  -- sum of all its steps dated on or before the day, in whatever order the steps came. The
  -- decimals are exact.
  pub create_running_total_lem :
      (items : List (Step dec.Decimal)) (first : DayKey) (days : List DayKey)
      → Ascends first days
      → map x.scaled (reads (create_running_total dec items) days) ≡ map (up_to items) days
  create_running_total_lem items first days a =
      reads_lem items first (create_running_total dec items) days (created-IsTotalOf items first) a
