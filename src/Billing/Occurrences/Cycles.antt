-- ===== src/Billing/Occurrences/Cycles.antt =====
-- `chargeOccurrences` (`backend/src/lib/billing/charges.ts`) and the days on which an expense
-- charges.
use demanage.Prelude.{
  ℕ, suc, ◌+◌, ◌-◌, ◌≤◌, ◌≡◌, refl, sym, ◌∙◌, inl, inr, Bool, true, false, not, ◌&&◌, Option, none,
  some, arith, Bool-cases, leb, ◌==◌, if◌then◌else◌,
}
use demanage.Prelude.Counting.{
  count_between, count_from-agree, count_from_none, count_from-one, count_between-cap,
  count_between_split,
}
use demanage.CivilDate.{DayKey, Instant, day_number, day_key_of_date, key_gt, key_lt, key_le}
use demanage.CivilDate.Numbers.{add_days_to_key_forward}
use demanage.CivilDate.Zone.{IsFullKey, IsDated, AllDated, IsZone, day_key_of_date-IsFullKey}
use demanage.Billing.Expense.{BillableExpense, CycleWindow, is_unica, is_semanal}
use demanage.Billing.Occurrences.{
  lower_inclusive, capped, recurring_start_key, one_off_key, last_charge_key, charge_occurrences,
  count_weekly_occurrences, count_monthly_occurrences,
}
use demanage.Billing.Occurrences.Weekly.{
  falls_weekly, key_gt-number, key_lt-number, key_le-number, count_weekly_occurrences_lem,
}
use demanage.Billing.Occurrences.Monthly.{falls_monthly, count_monthly_occurrences_lem}

-- The dates of an expense are on or after the year 101.
pub record IsDatedExpense {D : Type 0} (e : BillableExpense D) : Type 0 where
  pub created : IsDated e.created_at
  pub starts : AllDated e.starts_at
  pub ends : AllDated e.ends_at
  pub occurred : AllDated e.occurred_at
  pub archived : AllDated e.archived_at

pub record IsWindow (w : CycleWindow) : Type 0 where
  pub start : IsFullKey w.period_start_key
  pub closing : IsFullKey w.closing_key

pub lower_inclusive_lem :
    (w : CycleWindow)
    → IsWindow w
    → IsFullKey (lower_inclusive w)
      × (day_number (lower_inclusive w) ≡ (
          if w.include_period_start
          then day_number w.period_start_key
          else day_number w.period_start_key + 1))
unfolding lower_inclusive
lower_inclusive_lem w v =
    let (vk, fk, e) = add_days_to_key_forward w.period_start_key 1 v.start.0 v.start.1 in
    elim (Bool-cases w.include_period_start) [
      | inl i ↦ rw i (v.start, refl)
      | inr i ↦ rw i ((vk, fk), e)
    ]

-- Not after the limit, where there is one.
abbrev pub within : Option DayKey → ℕ → Bool
within none n = true
within (some limit) n = leb n (day_number limit)

abbrev pub FullKeys : Option DayKey → Type 0
FullKeys none = Unit
FullKeys (some k) = IsFullKey k

capped_lem :
    (hi : DayKey) (limit : Option DayKey)
    → IsFullKey hi
    → FullKeys limit
    → IsFullKey (capped hi limit)
      × ((n : ℕ) → leb n (day_number (capped hi limit)) ≡ (leb n (day_number hi) && within limit n))
capped_lem hi none v l = (v, λ n. ground arith)
capped_lem hi (some k) v l = elim (Bool-cases (key_lt k hi)) [
  | inl e ↦ rw e (l, λ n. ground (arith, key_lt-number l.0 v.0 l.1 v.1))
  | inr e ↦ rw e (v, λ n. ground (arith, key_lt-number l.0 v.0 l.1 v.1))
]

module _ {D : Type 0} (zone : Instant → DayKey) where
  -- The end of the schedule and the day of archiving, as days.
  abbrev pub ends_key : BillableExpense D → Option DayKey
  ends_key e = elim e.ends_at [ none ↦ none | some t ↦ some (day_key_of_date t) ]

  abbrev pub archived_key : BillableExpense D → Option DayKey
  archived_key e = elim e.archived_at [ none ↦ none | some t ↦ some (zone t) ]

  -- The schedule of a recurring expense.
  abbrev pub falls_on : BillableExpense D → ℕ → Bool
  falls_on e n =
      if is_semanal e.frequency
      then falls_weekly (recurring_start_key zone e) n
      else falls_monthly (recurring_start_key zone e) e.due_day n

  -- The days on which an expense charges a card.
  abbrev pub charges_on : BillableExpense D → ℕ → Bool
  charges_on e n =
      if e.is_invoice
      then false
      else if is_unica e.frequency
      then n == day_number (one_off_key zone e)
      else within (ends_key e) n && within (archived_key e) n && falls_on e n

key_of :
    {zone : Instant → DayKey} (z : IsZone zone) (o : Option Instant) (d : Instant)
    → AllDated o
    → IsDated d
    → IsFullKey (elim o [ none ↦ zone d | some t ↦ zone t ])
key_of z none d o h = z.valid d h
key_of z (some t) d o h = z.valid t o

start_of :
    {zone : Instant → DayKey} (z : IsZone zone) (o : Option Instant) (d : Instant)
    → AllDated o
    → IsDated d
    → IsFullKey (elim o [ none ↦ zone d | some t ↦ day_key_of_date t ])
start_of z none d o h = z.valid d h
start_of z (some t) d o h = day_key_of_date-IsFullKey t o

date_keys :
    (o : Option Instant)
    → AllDated o
    → FullKeys (elim o [ none ↦ none | some t ↦ some (day_key_of_date t) ])
date_keys none h = tt
date_keys (some t) h = day_key_of_date-IsFullKey t h

zone_keys :
    {zone : Instant → DayKey} (z : IsZone zone) (o : Option Instant)
    → AllDated o
    → FullKeys (elim o [ none ↦ none | some t ↦ some (zone t) ])
zone_keys z none h = tt
zone_keys z (some t) h = z.valid t h

module _ {D : Type 0} {zone : Instant → DayKey} (z : IsZone zone) (e : BillableExpense D)
    (v : IsDatedExpense e) where
  pub recurring_start_key-IsFullKey : IsFullKey (recurring_start_key zone e)
  unfolding recurring_start_key
  recurring_start_key-IsFullKey = start_of z e.starts_at e.created_at v.starts v.created

  pub one_off_key-IsFullKey : IsFullKey (one_off_key zone e)
  unfolding one_off_key
  one_off_key-IsFullKey = key_of z e.occurred_at e.created_at v.occurred v.created

  -- The last day of charging is the first of the closing, the end and the archiving.
  last_charge_key_lem :
      (closing : DayKey)
      → IsFullKey closing
      → IsFullKey (last_charge_key zone e closing)
        × ((n : ℕ)
            → leb n (day_number (last_charge_key zone e closing)) ≡ (
                leb n (day_number closing)
                && (within (ends_key zone e) n && within (archived_key zone e) n)))
  unfolding last_charge_key
  last_charge_key_lem closing k =
      let (v1, h1) = capped_lem closing (ends_key zone e) k (date_keys e.ends_at v.ends) in
      let (v2, h2) =
        capped_lem (capped closing (ends_key zone e)) (archived_key zone e) v1
          (zone_keys z e.archived_at v.archived) in
      (v2, λ n. rw (h2 n, h1 n) (ground arith))

  module _ (w : CycleWindow) (vw : IsWindow w) where
    one_off_count :
        (if not (key_lt (one_off_key zone e) (lower_inclusive w))
            && key_le (one_off_key zone e) w.closing_key
          then 1
          else 0)
        ≡ count_between
            (λ n. n == day_number (one_off_key zone e))
            (day_number (lower_inclusive w))
            (day_number w.closing_key)
    one_off_count =
        let k = one_off_key-IsFullKey in
        let (vl, _) = lower_inclusive_lem w vw in
        rw (key_lt-number k.0 vl.0 k.1 vl.1, key_le-number k.0 vw.closing.0 k.1 vw.closing.1)
          (ground (
            arith,
            count_from-one (day_number (one_off_key zone e)) (day_number (lower_inclusive w))
                (suc (day_number w.closing_key) - day_number (lower_inclusive w)),
          ))

    scheduled_count :
        let last = last_charge_key zone e w.closing_key in
        (if key_gt (lower_inclusive w) last
          then 0
          else if is_semanal e.frequency
          then count_weekly_occurrences (recurring_start_key zone e) (lower_inclusive w) last
          else count_monthly_occurrences
              (recurring_start_key zone e)
              (lower_inclusive w)
              last
              e.due_day)
        ≡ count_between (falls_on zone e) (day_number (lower_inclusive w)) (day_number last)
    scheduled_count =
        let last = last_charge_key zone e w.closing_key in
        let (vl, _) = lower_inclusive_lem w vw in
        let (vk, _) = last_charge_key_lem w.closing_key vw.closing in
        let vs = recurring_start_key-IsFullKey in
        elim (Bool-cases (key_gt (lower_inclusive w) last)) [
          | inl past ↦
              let none_left : suc (day_number last) - day_number (lower_inclusive w) ≡ 0 =
                ground (arith, key_gt-number vl.0 vk.0 vl.1 vk.1) in
              simp past (rw none_left)
          | inr open_ ↦ elim (Bool-cases (is_semanal e.frequency)) [
            | inl weekly ↦
                simp (open_, weekly)
                  (count_weekly_occurrences_lem vs.0 vl.0 vk.0 vs.1 vl.1 vk.1
                    ∙ count_from-agree _ _ _ _ (λ n from to. ground arith))
            | inr monthly ↦
                simp (open_, monthly)
                  (count_monthly_occurrences_lem vs.0 vl.0 vk.0 vs.1 vl.1 vk.1 e.due_day
                    ∙ count_from-agree _ _ _ _ (λ n from to. ground arith))
          ]
        ]

    recurring_count :
        (if key_gt (lower_inclusive w) (last_charge_key zone e w.closing_key)
          then 0
          else if is_semanal e.frequency
          then count_weekly_occurrences
              (recurring_start_key zone e)
              (lower_inclusive w)
              (last_charge_key zone e w.closing_key)
          else count_monthly_occurrences
              (recurring_start_key zone e)
              (lower_inclusive w)
              (last_charge_key zone e w.closing_key)
              e.due_day)
        ≡ count_between
            (λ n. within (ends_key zone e) n && within (archived_key zone e) n && falls_on zone e n)
            (day_number (lower_inclusive w))
            (day_number w.closing_key)
    recurring_count =
        let last = last_charge_key zone e w.closing_key in
        let (vk, h) = last_charge_key_lem w.closing_key vw.closing in
        let le : day_number last ≤ day_number w.closing_key = ground (arith, h (day_number last)) in
        scheduled_count
        ∙ count_between-cap (falls_on zone e) (day_number (lower_inclusive w)) (day_number last)
            (day_number w.closing_key) le
        ∙ count_from-agree _ _ (day_number (lower_inclusive w)) _ (λ n l u. rw (h n) (ground arith))

    -- The charges that an expense makes in a cycle, in every branch (an invoice, a purchase, a
    -- weekly and a monthly schedule with its end and its day of archiving), are the days of the
    -- cycle on which it charges by the description `charges_on`. The zone is lawful, the
    -- expense is dated from the year 101 on, and the ends of the cycle are valid days of the
    -- year 100 or later.
    pub charge_occurrences_lem :
        charge_occurrences zone e w
        ≡ count_between
            (charges_on zone e)
            (day_number (lower_inclusive w))
            (day_number w.closing_key)
    unfolding charge_occurrences
    charge_occurrences_lem = elim (Bool-cases e.is_invoice) [
      | inl i ↦ simp i (
          sym (
            count_from_none (charges_on zone e) (day_number (lower_inclusive w)) _
              (λ n from to. ground arith)))
      | inr i ↦ elim (Bool-cases (is_unica e.frequency)) [
        | inl u ↦
            simp (i, u)
              (one_off_count
                ∙ count_from-agree _ (charges_on zone e) _ _ (λ n from to. ground arith))
        | inr u ↦
            simp (i, u)
              (recurring_count
                ∙ count_from-agree _ (charges_on zone e) _ _ (λ n from to. ground arith))
      ]
    ]

  -- A cycle that is closed early and the cycle that goes on from there make together the
  -- charges of the whole cycle. The zone is lawful, the expense is dated from the year 101 on,
  -- the days are valid and of the year 100 or later, and the day in between lies in the cycle
  -- or just before it.
  pub charge_occurrences_split :
      (w : CycleWindow) (mid : DayKey)
      → IsWindow w
      → IsFullKey mid
      → day_number (lower_inclusive w) ≤ day_number mid + 1
      → day_number mid ≤ day_number w.closing_key
      → charge_occurrences zone e w
        ≡ charge_occurrences zone e (record w { closing_key = mid })
          + charge_occurrences zone e
              (record w { period_start_key = mid; include_period_start = false })
  unfolding lower_inclusive
  charge_occurrences_split w mid vw vm lo hi =
      let w1 = record w { closing_key = mid } in
      let w2 = record w { period_start_key = mid; include_period_start = false } in
      let v1 : IsWindow w1 = record { start = vw.start; closing = vm } in
      let v2 : IsWindow w2 = record { start = vm; closing = vw.closing } in
      let (_, e2) = lower_inclusive_lem w2 v2 in
      let split =
        count_between_split (charges_on zone e) (day_number (lower_inclusive w)) (day_number mid)
          (day_number w.closing_key) lo hi in
      rw (charge_occurrences_lem w vw, charge_occurrences_lem w1 v1, charge_occurrences_lem w2 v2)
        (rw e2 split)
