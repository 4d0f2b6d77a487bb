-- ===== src/Patrimony/Rows/Errors.antt =====
-- When the timeline is refused (`buildPatrimonyRows` of `backend/src/lib/patrimony-calc.ts`).
use demanage.Prelude.{
  ℕ, zero, suc, ◌-◌, ◌≡◌, ◌⊎◌, refl, ◌∙◌, inl, inr, true, false, Option, none, some, List, [], ◌∷◌,
  ◌++◌, Bool-cases,
}
use demanage.Prelude.Int.{pos}
use demanage.Prelude.Decimals.{Decimals}
use demanage.CivilDate.{DayKey, Instant, key_lt, key_le, day_number, add_days_to_key}
use demanage.Piggy.Interest.{is_same_day}
use demanage.Patrimony.{MarketPoint, PointCursor, create_point_cursor, cursor_from, point_at}
use demanage.Patrimony.Rows.{
  PatrimonyArgs, PatrimonyRow, PatrimonyError, insufficient_history, quote_missing, Answer, ok,
  throw, ◌>>=◌, Timeline, both_values, pass_day, show_day, show_if_asked, reached, rows_from,
  base_timeline, build_patrimony_rows,
}

bind_ok : {A B : Type 0} (m : Answer A) (f : A → Answer B) (a : A) → m ≡ ok a → (m >>= f) ≡ f a
bind_ok m f a h = rw h refl

-- No point of the series is on or before the day: the first one is later.
abbrev pub IsLate : {D : Type 0} → DayKey → List (MarketPoint D) → Type 0
IsLate day [] = Unit
IsLate day (p ∷ ps) = key_le p.date day ≡ false

-- The first point of the series is on or before the day.
abbrev pub IsEarly : {D : Type 0} → DayKey → List (MarketPoint D) → Type 0
IsEarly day [] = ⊥
IsEarly day (p ∷ ps) = key_le p.date day ≡ true

module _ {D : Type 0} where
  abbrev HasPoint : PointCursor D → Type 0
  HasPoint c = (p : MarketPoint D) × (c.found ≡ some p)

  cursor_from-HasPoint :
      (day : DayKey) (p : MarketPoint D) (ps : List (MarketPoint D))
      → HasPoint (cursor_from day (some p) ps)
  unfolding cursor_from
  cursor_from-HasPoint day p [] = (p, refl)
  cursor_from-HasPoint day p (q ∷ ps) = elim (Bool-cases (key_le q.date day)) [
    | inl early ↦ rw early (cursor_from-HasPoint day q ps)
    | inr late ↦ rw late (p, refl)
  ]

  -- A pointer never leaves the points.
  point_at-HasPoint : (c : PointCursor D) (day : DayKey) → HasPoint c → HasPoint (point_at c day)
  unfolding point_at
  point_at-HasPoint c day (p, h) = rw h (cursor_from-HasPoint day p c.ahead)

  first_point :
      (points : List (MarketPoint D)) (day : DayKey)
      → (HasPoint (point_at (create_point_cursor points) day) × IsEarly day points)
        ⊎ (((point_at (create_point_cursor points) day).found ≡ none) × IsLate day points)
  unfolding point_at create_point_cursor cursor_from
  first_point [] day = inr (refl, tt)
  first_point (p ∷ ps) day = elim (Bool-cases (key_le p.date day)) [
    | inl early ↦ inl (rw early (cursor_from-HasPoint day p ps), early)
    | inr late ↦ inr (rw late refl, late)
  ]

module _ (dec : Decimals) (args : PatrimonyArgs dec.Decimal) where
  -- Both prices are known.
  abbrev IsQuoted : Timeline dec.Decimal → Type 0
  IsQuoted t = HasPoint t.btc_price × HasPoint t.usd_price

  quoted :
      (a b : PointCursor dec.Decimal) (e : PatrimonyError)
      → HasPoint a
      → HasPoint b
      → (q : dec.Decimal × dec.Decimal) × (both_values a.found b.found e ≡ ok q)
  quoted a b e (p, h) (r, g) = ((p.value, r.value), rw (h, g) refl)

  show_day-IsQuoted :
      (key : DayKey) (t : Timeline dec.Decimal)
      → IsQuoted t
      → (p : PatrimonyRow dec.Decimal × Timeline dec.Decimal) × (show_day dec key t ≡ ok p)
        × IsQuoted p.1
  unfolding show_day
  show_day-IsQuoted key t (b, u) =
      let b_now = point_at-HasPoint t.btc_price key b in
      let u_now = point_at-HasPoint t.usd_price key u in
      let (q, found) =
        quoted (point_at t.btc_price key) (point_at t.usd_price key) (quote_missing key) b_now
          u_now in
      (_, bind_ok _ _ q found, (b_now, u_now))

  show_if_asked-IsQuoted :
      (key : DayKey) (t : Timeline dec.Decimal)
      → IsQuoted t
      → (p : List (PatrimonyRow dec.Decimal) × Timeline dec.Decimal) × (show_if_asked dec args key t
          ≡ ok p)
        × IsQuoted p.1
  unfolding show_if_asked
  show_if_asked-IsQuoted key t h = elim (Bool-cases (key_lt key args.from_key)) [
    | inl early ↦ (([], t), rw (early, show_if_asked) refl, h)
    | inr asked ↦
        let (p, found, after) = show_day-IsQuoted key t h in
        ((p.0 ∷ [], p.1), rw (asked, show_if_asked) (bind_ok (show_day dec key t) _ p found), after)
  ]

  reached-IsQuoted :
      (key : DayKey) (t : Timeline dec.Decimal) → IsQuoted t → IsQuoted (reached dec args key t)
  unfolding pass_day
  reached-IsQuoted key t h = elim (Bool-cases (is_same_day key args.calculation_base_key)) [
    | inl same ↦ rw same h
    | inr new ↦ rw new h
  ]

  rows_from_total :
      (rounds : ℕ) (key : DayKey) (t : Timeline dec.Decimal)
      → IsQuoted t
      → (rows : List (PatrimonyRow dec.Decimal)) × (rows_from dec rounds args key t ≡ ok rows)
  unfolding rows_from
  rows_from_total zero key t h = ([], refl)
  rows_from_total (suc rounds) key t h =
      let (p, found, after) =
        show_if_asked-IsQuoted key (reached dec args key t) (reached-IsQuoted key t h) in
      let (rows, rest) = rows_from_total rounds (add_days_to_key key (pos 1)) p.1 after in
      elim (Bool-cases (key_le key args.to_key)) [
        | inr past ↦ ([], rw (past, rows_from) refl)
        | inl due ↦ (
          p.0 ++ rows,
          rw (due, rows_from)
              (bind_ok (show_if_asked dec args key (reached dec args key t)) _ p found
                ∙ bind_ok (rows_from dec rounds args (add_days_to_key key (pos 1)) p.1) _ rows
                    rest),
        )
      ]

-- Both series start on or before the base day, or the error and a series that does not.
abbrev pub IsAnswerOf : {D : Type 0} → PatrimonyArgs D → Answer (List (PatrimonyRow D)) → Type 0
IsAnswerOf args (ok rows) =
    IsEarly args.calculation_base_key args.btc_points
    × IsEarly args.calculation_base_key args.usd_points
IsAnswerOf args (throw e) =
    (e ≡ insufficient_history)
    × (IsLate args.calculation_base_key args.btc_points
        ⊎ IsLate args.calculation_base_key args.usd_points)

bind_throw :
    {A B : Type 0} (m : Answer A) (f : A → Answer B) (e : PatrimonyError)
    → m ≡ throw e
    → (m >>= f) ≡ throw e
bind_throw m f e h = rw h refl

both_values-none :
    {D : Type 0} (a b : Option (MarketPoint D)) (e : PatrimonyError)
    → (a ≡ none) ⊎ (b ≡ none)
    → both_values a b e ≡ throw e
both_values-none a b e (inl h) = rw h refl
both_values-none none b e (inr h) = refl
both_values-none (some p) b e (inr h) = rw h refl

module _ (dec : Decimals) (zone : Instant → DayKey) (args : PatrimonyArgs dec.Decimal) where
  base_timeline-IsQuoted :
      HasPoint (point_at (create_point_cursor args.btc_points) args.calculation_base_key)
      → HasPoint (point_at (create_point_cursor args.usd_points) args.calculation_base_key)
      → (t : Timeline dec.Decimal) × (base_timeline dec zone args ≡ ok t) × IsQuoted dec args t
  unfolding base_timeline
  base_timeline-IsQuoted b u =
      let (q, found) =
        quoted dec args (point_at (create_point_cursor args.btc_points) args.calculation_base_key)
          (point_at (create_point_cursor args.usd_points) args.calculation_base_key)
          insufficient_history b u in
      (_, bind_ok _ _ q found, (b, u))

  base_timeline-none :
      ((point_at (create_point_cursor args.btc_points) args.calculation_base_key).found ≡ none)
        ⊎ ((point_at (create_point_cursor args.usd_points) args.calculation_base_key).found ≡ none)
      → base_timeline dec zone args ≡ throw insufficient_history
  unfolding base_timeline
  base_timeline-none h = bind_throw _ _ insufficient_history (both_values-none _ _ _ h)

  refused_rows :
      (answer : Answer (List (PatrimonyRow dec.Decimal)))
      → answer ≡ throw insufficient_history
      → IsLate args.calculation_base_key args.btc_points
        ⊎ IsLate args.calculation_base_key args.usd_points
      → IsAnswerOf args answer
  refused_rows answer h late = rw h (refl, late)

  shown_rows :
      (answer : Answer (List (PatrimonyRow dec.Decimal))) (rows : List (PatrimonyRow dec.Decimal))
      → answer ≡ ok rows
      → IsEarly args.calculation_base_key args.btc_points
        × IsEarly args.calculation_base_key args.usd_points
      → IsAnswerOf args answer
  shown_rows answer rows h early = rw h early

  -- A timeline is answered with rows, and then the quotes of both currencies start on or before
  -- the base day, or it is refused for lack of history, and then the quotes of one of the two
  -- do not; a quote is missing on no later day.
  pub build_patrimony_rows-IsAnswerOf : IsAnswerOf args (build_patrimony_rows dec zone args)
  unfolding build_patrimony_rows
  build_patrimony_rows-IsAnswerOf =
      let base = args.calculation_base_key in
      elim (first_point args.btc_points base) [
        | inr (gone, late) ↦
            refused_rows _ (bind_throw _ _ _ (base_timeline-none (inl gone))) (inl late)
        | inl (b, early_b) ↦ elim (first_point args.usd_points base) [
          | inr (gone, late) ↦
              refused_rows _ (bind_throw _ _ _ (base_timeline-none (inr gone))) (inr late)
          | inl (u, early_u) ↦
              let (t, found, priced) = base_timeline-IsQuoted b u in
              let (rows, shown) =
                rows_from_total dec args
                  (suc (day_number args.to_key) - day_number args.calculation_base_key)
                  args.calculation_base_key t priced in
              shown_rows _ rows (bind_ok _ _ t found ∙ shown) (early_b, early_u)
        ]
      ]
