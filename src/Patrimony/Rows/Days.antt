-- ===== src/Patrimony/Rows/Days.antt =====
-- The rows of the timeline, day by day (`buildPatrimonyRows` of
-- `backend/src/lib/patrimony-calc.ts`).
use demanage.Prelude.{
  ℕ, zero, suc, ◌+◌, ◌-◌, ◌≤◌, ◌≡◌, refl, sym, ap, ◌∙◌, inl, inr, arith, true, false, not, List, [],
  ◌∷◌, ◌++◌, All, map, filter, Bool-cases, if◌then◌else◌,
}
use demanage.Prelude.Int.{pos, ◌+ℤ◌, int_laws}
use demanage.Prelude.Decimals.{Decimals, IsExact}
use demanage.CivilDate.{DayKey, Instant, key_lt, key_le, day_number, add_days_to_key}
use demanage.CivilDate.Numbers.{add_days_to_key_forward}
use demanage.CivilDate.Zone.{IsFullKey}
use demanage.Billing.Occurrences.Weekly.{key_le-number}
use demanage.Piggy.Interest.{is_same_day}
use demanage.Patrimony.{Step, create_point_cursor, point_at, in_period}
use demanage.Patrimony.Running.{
  up_to, IsTotalOf, total_at-IsTotalOf, first_read-IsTotalOf, key_le_refl, key_le_trans,
}
use demanage.Patrimony.Rows.{
  PatrimonyArgs, PatrimonyRow, insufficient_history, quote_missing, Answer, ok, throw, ◌>>=◌,
  Timeline, both_values, pass_day, show_day, show_if_asked, reached, rows_from, piggy_steps,
  base_timeline, build_patrimony_rows,
}
use demanage.Patrimony.Rows.Cash.{
  same_day_refl, same_day-number, sum_of-filter, amount_of, cash_at, add_flows_lem, moved_in_step,
}

bind-eq_ok :
    {A B : Type 0} (m : Answer A) (f : A → Answer B) {b : B}
    → (m >>= f) ≡ ok b
    → (a : A) × (m ≡ ok a) × (f a ≡ ok b)
bind-eq_ok (ok a) f h = (a, refl, h)
bind-eq_ok (throw e) f h = cc

ok_inj : {A : Type 0} (a b : A) → Path (Answer A) (ok a) (ok b) → a ≡ b
ok_inj a b h = cc h

All-append : {A : Type 0} (P : A → Type 0) (xs ys : List A) → All P xs → All P ys → All P (xs ++ ys)
All-append P [] ys h g = g
All-append P (a ∷ xs) ys h g = (h.0, All-append P xs ys h.1 g)

map-append : {A B : Type 0} (f : A → B) (xs ys : List A) → map f (xs ++ ys) ≡ map f xs ++ map f ys
map-append f [] ys = refl
map-append f (a ∷ xs) ys = ap (λ zs. f a ∷ zs) (map-append f xs ys)

-- The days from `key` on.
abbrev pub days_from : ℕ → DayKey → List DayKey
days_from zero key = []
days_from (suc n) key = key ∷ days_from n (add_days_to_key key (pos 1))

module _ {dec : Decimals} (x : IsExact dec) (zone : Instant → DayKey)
    (args : PatrimonyArgs dec.Decimal) where
  -- The deposits, withdrawals and interest of the piggy banks.
  abbrev pub saved : List (Step dec.Decimal)
  saved = piggy_steps dec zone args.piggy_transactions

  -- The state at a day.
  abbrev pub IsAt : DayKey → Timeline dec.Decimal → Type 0
  IsAt key t = (x.scaled t.cash ≡ cash_at x args key) × IsTotalOf x saved key t.piggy

  -- The row shows the cash and the savings of its day, and the patrimony is the sum of its parts.
  abbrev pub IsRow : PatrimonyRow dec.Decimal → Type 0
  IsRow r =
      (x.scaled r.cash ≡ cash_at x args r.date)
      × (x.scaled r.piggy ≡ up_to x saved r.date)
      × (x.scaled r.patrimony
          ≡ x.scaled r.cash +ℤ x.scaled r.piggy +ℤ x.scaled r.btc +ℤ x.scaled r.usd)

  abbrev Shown : DayKey → PatrimonyRow dec.Decimal × Timeline dec.Decimal → Type 0
  Shown key p = IsRow p.0 × (p.0.date ≡ key) × IsAt key p.1

  show_day-IsRow :
      (key : DayKey) (t : Timeline dec.Decimal)
      (p : PatrimonyRow dec.Decimal × Timeline dec.Decimal)
      → IsAt key t
      → show_day dec key t ≡ ok p
      → Shown key p
  unfolding show_day
  show_day-IsRow key t p at h =
      let (quotes, found, rest) =
        bind-eq_ok
          (both_values (point_at t.btc_price key).found (point_at t.usd_price key).found
            (quote_missing key))
          _ h in
      let (after, total) = total_at-IsTotalOf x saved key key t.piggy (key_le_refl key) at.1 in
      let same = ok_inj _ p rest in
      rw (← same)
        ((at.0, total, rw (x.scaled-plus, x.scaled-plus, x.scaled-plus) refl), refl, (at.0, after))

  abbrev ShownIfAsked : DayKey → List (PatrimonyRow dec.Decimal) × Timeline dec.Decimal → Type 0
  ShownIfAsked key p =
      All IsRow p.0
      × (map (λ r. r.date) p.0 ≡ (if key_lt key args.from_key then [] else key ∷ []))
      × IsAt key p.1

  Shown-asked :
      (key : DayKey) (shown : PatrimonyRow dec.Decimal × Timeline dec.Decimal)
      (p : List (PatrimonyRow dec.Decimal) × Timeline dec.Decimal)
      → key_lt key args.from_key ≡ false
      → Shown key shown
      → (shown.0 ∷ [], shown.1) ≡ p
      → ShownIfAsked key p
  Shown-asked key shown p asked (row, date, after) same =
      rw (← same, asked) ((row, tt), ap (λ d. d ∷ []) date, after)

  show_if_asked-IsRow :
      (key : DayKey) (t : Timeline dec.Decimal)
      (p : List (PatrimonyRow dec.Decimal) × Timeline dec.Decimal)
      → IsAt key t
      → show_if_asked dec args key t ≡ ok p
      → ShownIfAsked key p
  unfolding show_if_asked
  show_if_asked-IsRow key t p at h = elim (Bool-cases (key_lt key args.from_key)) [
    | inl early ↦
        let same = ok_inj ([], t) p (rw (early, show_if_asked) at h) in
        rw (← same, early) (tt, refl, at)
    | inr asked ↦
        let (shown, found, rest) =
          bind-eq_ok (show_day dec key t) _ (rw (asked, show_if_asked) at h) in
        Shown-asked key shown p asked (show_day-IsRow key t shown at found) (ok_inj _ p rest)
  ]

  -- The days from `fromKey` on among the first days from `key` on.
  abbrev pub asked_days : ℕ → DayKey → List DayKey
  asked_days n key = filter (λ day. not (key_lt day args.from_key)) (days_from n key)

  asked_first :
      (n : ℕ) (key : DayKey)
      → asked_days (suc n) key
        ≡ (if key_lt key args.from_key then [] else key ∷ [])
          ++ asked_days n (add_days_to_key key (pos 1))
  asked_first n key = elim (Bool-cases (key_lt key args.from_key)) [
    | inl early ↦ rw early refl
    | inr asked ↦ rw asked refl
  ]

  -- What a day after the base makes of the state of the day before.
  pass_day-IsAt :
      (key next : DayKey) (t : Timeline dec.Decimal)
      → IsFullKey args.stored_base_key
      → IsFullKey key
      → IsFullKey next
      → day_number next ≡ day_number key + 1
      → day_number args.stored_base_key ≤ day_number key
      → All (λ f. IsFullKey f.date) args.flows
      → IsAt key t
      → IsAt next (pass_day dec args next t)
  unfolding pass_day
  pass_day-IsAt key next t vs vk vn e h all at =
      let le : key_le key next ≡ true =
        rw (key_le-number vk.0 vn.0 vk.1 vn.1) (ground (arith, e)) in
      (
        add_flows_lem x t.cash (filter (λ f. is_same_day f.date next) args.flows)
            ∙ rw
                (
                  at.0,
                  sum_of-filter (amount_of x) (λ f. is_same_day f.date next) args.flows,
                  moved_in_step x args.stored_base_key key next args.flows vs vk vn e h all,
                )
                (omega int_laws),
        (at.1.0, λ d g. at.1.1 d (key_le_trans key next d le g)),
      )

  -- The rows of the first days from `key` on.
  abbrev pub IsTimeline : ℕ → DayKey → List (PatrimonyRow dec.Decimal) → Type 0
  IsTimeline n key rows = All IsRow rows × (map (λ r. r.date) rows ≡ asked_days n key)

  -- The rows of a day and of those after it.
  day_added :
      (n : ℕ) (key : DayKey) (shown : List (PatrimonyRow dec.Decimal) × Timeline dec.Decimal)
      (rows all : List (PatrimonyRow dec.Decimal))
      → ShownIfAsked key shown
      → IsTimeline n (add_days_to_key key (pos 1)) rows
      → shown.0 ++ rows ≡ all
      → IsTimeline (suc n) key all
  day_added n key shown rows all (here, day, _) (later, days) same = rw (← same) (
    All-append IsRow shown.0 rows here later,
    map-append (λ r. r.date) shown.0 rows ∙ rw (day, days) (sym (asked_first n key)),
  )

  rows_from-IsTimeline :
      (rounds : ℕ) (key : DayKey) (t : Timeline dec.Decimal)
      (rows : List (PatrimonyRow dec.Decimal))
      → IsFullKey args.stored_base_key
      → IsFullKey args.calculation_base_key
      → IsFullKey args.to_key
      → day_number args.stored_base_key ≤ day_number args.calculation_base_key
      → All (λ f. IsFullKey f.date) args.flows
      → IsFullKey key
      → day_number args.calculation_base_key ≤ day_number key
      → rounds ≡ suc (day_number args.to_key) - day_number key
      → IsAt key (reached dec args key t)
      → rows_from dec rounds args key t ≡ ok rows
      → IsTimeline rounds key rows
  unfolding rows_from
  rows_from-IsTimeline zero key t rows vs vb vt sb all vk bk r at h =
      rw (← ok_inj [] rows h) (tt, refl)
  rows_from-IsTimeline (suc rounds) key t rows vs vb vt sb all vk bk r at h =
      let le : key_le key args.to_key ≡ true =
        rw (key_le-number vk.0 vt.0 vk.1 vt.1) (ground (arith, r)) in
      let (shown, found, rest) =
        bind-eq_ok (show_if_asked dec args key (reached dec args key t)) _
          (rw (le, rows_from) at h) in
      let (later, later_found, last) =
        bind-eq_ok (rows_from dec rounds args (add_days_to_key key (pos 1)) shown.1) _ rest in
      let here = show_if_asked-IsRow key (reached dec args key t) shown at found in
      let next = add_days_to_key key (pos 1) in
      let (kn, fn, en) = add_days_to_key_forward key 1 vk.0 vk.1 in
      let new : is_same_day next args.calculation_base_key ≡ false =
        same_day-number next args.calculation_base_key (kn, fn) vb ∙ ground (arith, en, bk) in
      let passed : IsAt next (reached dec args next shown.1) =
        rw new (pass_day-IsAt key next shown.1 vs vk (kn, fn) en (omega arith) all here.2) in
      day_added rounds key shown later rows here
        (rows_from-IsTimeline rounds next shown.1 later vs vb vt sb all (kn, fn) (omega arith)
          (omega arith) passed later_found)
        (ok_inj (shown.0 ++ later) rows last)

  base_timeline-IsAt :
      (t : Timeline dec.Decimal)
      → base_timeline dec zone args ≡ ok t
      → IsAt args.calculation_base_key t
  unfolding base_timeline
  base_timeline-IsAt t h =
      let base = args.calculation_base_key in
      let (prices, found, rest) =
        bind-eq_ok
          (both_values (point_at (create_point_cursor args.btc_points) base).found
            (point_at (create_point_cursor args.usd_points) base).found insufficient_history)
          _ h in
      let (read, _) = first_read-IsTotalOf x saved base in
      let same = ok_inj _ t rest in
      rw (← same) (
        add_flows_lem x args.opening_cash
              (filter (λ f. in_period args.stored_base_key base f.date) args.flows)
            ∙ ap (λ n. x.scaled args.opening_cash +ℤ n)
                (sum_of-filter (amount_of x) (λ f. in_period args.stored_base_key base f.date)
                  args.flows),
        read,
      )

  -- The rows of a timeline are those of the days from the base to the last, from the first day
  -- asked for on, one for each day; each shows the opening cash with all flows dated after the
  -- stored base day and up to the row's day, the savings of all transactions up to that day,
  -- and a patrimony that is the sum of its four parts. The stored base day is not after the
  -- base day, these, the last day and the days of the flows are valid and of the year 100 or
  -- later, the decimals are exact and the timeline is not refused.
  pub build_patrimony_rows-IsTimeline :
      (rows : List (PatrimonyRow dec.Decimal))
      → IsFullKey args.stored_base_key
      → IsFullKey args.calculation_base_key
      → IsFullKey args.to_key
      → day_number args.stored_base_key ≤ day_number args.calculation_base_key
      → All (λ f. IsFullKey f.date) args.flows
      → build_patrimony_rows dec zone args ≡ ok rows
      → IsTimeline
          (suc (day_number args.to_key) - day_number args.calculation_base_key)
          args.calculation_base_key
          rows
  unfolding build_patrimony_rows
  build_patrimony_rows-IsTimeline rows vs vb vt sb all h =
      let (t, found, rest) = bind-eq_ok (base_timeline dec zone args) _ h in
      let at : IsAt args.calculation_base_key (reached dec args args.calculation_base_key t) =
        rw (same_day_refl args.calculation_base_key) (base_timeline-IsAt t found) in
      rows_from-IsTimeline (suc (day_number args.to_key) - day_number args.calculation_base_key)
        args.calculation_base_key t rows vs vb vt sb all vb (omega arith) refl at rest
