-- ===== src/Market/Series.antt =====
-- The points of a series, each day once (`dedupePoints` of `backend/src/lib/market/series.ts`).
pub mod Order
use demanage.Prelude.{
  ◌≡◌, refl, sym, ◌∙◌, inl, inr, arith, Bool, true, false, Option, none, some, List, [], ◌∷◌, All,
  Bool-cases, if◌then◌else◌,
}
use demanage.CivilDate.{DayKey, key_lt}
use demanage.Patrimony.{MarketPoint}
use demanage.Patrimony.Rows.{value_of_day}
use demanage.Piggy.Interest.{is_same_day}
use demanage.Market.{set_point, set_points, insert_point, sort_points, dedupe_points}
use demanage.Market.Series.Order.{
  IsOther, IsDistinct, Ascends, same_day_sym, set_point-IsOther, moved-IsOther,
  set_point-IsDistinct, set_points-IsDistinct, insert_point-All, sort_points-All,
  sort_points-Ascends,
}

same_day_agree : (a b d : DayKey) → is_same_day a b ≡ true → is_same_day a d ≡ is_same_day b d
same_day_agree a b d h = ground (arith, h)

same_day_once :
    (a b d : DayKey) → is_same_day a b ≡ false → is_same_day b d ≡ true → is_same_day a d ≡ false
same_day_once a b d h g = ground (arith, h, g)

module _ {D : Type 0} where
  other_value :
      (day d : DayKey) (qs : List (MarketPoint D))
      → IsOther day qs
      → is_same_day day d ≡ true
      → value_of_day qs d ≡ none
  unfolding value_of_day
  other_value day d [] o h = refl
  other_value day d (q ∷ qs) o h =
      rw (other_value day d qs o.1 h, same_day_once q.date day d o.0 h) refl

  -- The value of a day, where the first point is the only one of its day.
  first_value :
      (p : MarketPoint D) (ps : List (MarketPoint D)) (d : DayKey)
      → IsOther p.date ps
      → value_of_day (p ∷ ps) d ≡ (if is_same_day p.date d then some p.value else value_of_day ps d)
  unfolding value_of_day
  first_value p ps d o = elim (Bool-cases (is_same_day p.date d)) [
    | inl same ↦ rw (other_value p.date d ps o same, same) refl
    | inr new ↦ by_day (value_of_day ps d) (is_same_day p.date d) new
  ]
    where
      by_day :
          (o : Option D) (b : Bool)
          → b ≡ false
          → elim o [ some v ↦ some v | none ↦ if b then some p.value else none ]
            ≡ (if b then some p.value else o)
      by_day none true h = refl
      by_day none false h = refl
      by_day (some v) true h = cc
      by_day (some v) false h = refl

  swapped :
      (a b : Bool) (u v w : Option D)
      → (b ≡ true → a ≡ false)
      → (if a then u else if b then v else w) ≡ (if b then v else if a then u else w)
  swapped true true u v w h = absurd (cc (h refl))
  swapped true false u v w h = refl
  swapped false b u v w h = refl

  set_point_value :
      (p : MarketPoint D) (qs : List (MarketPoint D)) (d : DayKey)
      → IsDistinct qs
      → value_of_day (set_point p qs) d
        ≡ (if is_same_day p.date d then some p.value else value_of_day qs d)
  unfolding set_point
  set_point_value p [] d h = first_value p [] d tt
  set_point_value p (q ∷ qs) d h = elim (Bool-cases (is_same_day q.date p.date)) [
    | inl same ↦
        rw
          (
            same,
            first_value p qs d (moved-IsOther q.date p.date qs same h.0),
            first_value q qs d h.0,
            same_day_agree q.date p.date d same,
          )
          (twice (is_same_day p.date d) (some p.value) (some q.value) (value_of_day qs d))
    | inr new ↦
        rw
          (
            new,
            first_value q (set_point p qs) d
                (set_point-IsOther q.date p qs (same_day_sym q.date p.date new) h.0),
            set_point_value p qs d h.1,
            first_value q qs d h.0,
          )
          (swapped (is_same_day q.date d) (is_same_day p.date d) (some q.value) (some p.value)
            (value_of_day qs d) (λ is_p. same_day_once q.date p.date d new is_p))
  ]
    where
      twice :
          (b : Bool) (u v w : Option D)
          → (if b then u else w) ≡ (if b then u else if b then v else w)
      twice true u v w = refl
      twice false u v w = refl

  -- The later value of two.
  abbrev later_value : Option D → Option D → Option D
  later_value none earlier = earlier
  later_value (some v) earlier = some v

  set_points_value :
      (ps qs : List (MarketPoint D)) (d : DayKey)
      → IsDistinct qs
      → value_of_day (set_points ps qs) d ≡ later_value (value_of_day ps d) (value_of_day qs d)
  unfolding set_points value_of_day
  set_points_value [] qs d h = refl
  set_points_value (p ∷ ps) qs d h =
      set_points_value ps (set_point p qs) d (set_point-IsDistinct p qs h)
      ∙ rw (set_point_value p qs d h)
          (cases (value_of_day ps d) (is_same_day p.date d) p.value (value_of_day qs d))
    where
      cases :
          (o : Option D) (b : Bool) (v : D) (w : Option D)
          → later_value o (if b then some v else w)
            ≡ later_value (elim o [ some u ↦ some u | none ↦ if b then some v else none ]) w
      cases none true v w = refl
      cases none false v w = refl
      cases (some u) b v w = refl

  insert_point_value :
      (p : MarketPoint D) (qs : List (MarketPoint D)) (d : DayKey)
      → IsOther p.date qs
      → IsDistinct qs
      → value_of_day (insert_point p qs) d ≡ value_of_day (p ∷ qs) d
  unfolding insert_point
  insert_point_value p [] d o h = refl
  insert_point_value p (q ∷ qs) d o h = elim (Bool-cases (key_lt q.date p.date)) [
    | inr before ↦ rw before refl
    | inl after ↦
        rw
          (
            after,
            first_value q (insert_point p qs) d (
                insert_point-All (λ r. is_same_day r.date q.date ≡ false) p qs
                  (same_day_sym q.date p.date o.0) h.0),
            insert_point_value p qs d o.1 h.1,
            first_value p qs d o.1,
            first_value p (q ∷ qs) d o,
            first_value q qs d h.0,
          )
          (swapped (is_same_day q.date d) (is_same_day p.date d) (some q.value) (some p.value)
            (value_of_day qs d) (λ is_p. same_day_once q.date p.date d o.0 is_p))
  ]

  insert_point-IsDistinct :
      (p : MarketPoint D) (qs : List (MarketPoint D))
      → IsOther p.date qs
      → IsDistinct qs
      → IsDistinct (insert_point p qs)
  unfolding insert_point
  insert_point-IsDistinct p [] o h = (tt, tt)
  insert_point-IsDistinct p (q ∷ qs) o h = elim (Bool-cases (key_lt q.date p.date)) [
    | inr before ↦ rw before (o, h)
    | inl after ↦ rw after (
      insert_point-All (λ r. is_same_day r.date q.date ≡ false) p qs
          (same_day_sym q.date p.date o.0) h.0,
      insert_point-IsDistinct p qs o.1 h.1,
    )
  ]

  sort_points-IsDistinct : (ps : List (MarketPoint D)) → IsDistinct ps → IsDistinct (sort_points ps)
  unfolding sort_points
  sort_points-IsDistinct [] h = tt
  sort_points-IsDistinct (p ∷ ps) h =
      insert_point-IsDistinct p (sort_points ps)
        (sort_points-All (λ q. is_same_day q.date p.date ≡ false) ps h.0)
        (sort_points-IsDistinct ps h.1)

  sort_points_value :
      (ps : List (MarketPoint D)) (d : DayKey)
      → IsDistinct ps
      → value_of_day (sort_points ps) d ≡ value_of_day ps d
  unfolding sort_points
  sort_points_value [] d h = refl
  sort_points_value (p ∷ ps) d h =
      let o = sort_points-All (λ q. is_same_day q.date p.date ≡ false) ps h.0 in
      insert_point_value p (sort_points ps) d o (sort_points-IsDistinct ps h.1)
      ∙ first_value p (sort_points ps) d o
      ∙ rw (sort_points_value ps d h.1) (sym (first_value p ps d h.0))

  -- The points of a series, each day once, are in strictly ascending order of their days, and
  -- the value of a day is the one that the last point of the day has in the series, or none.
  pub dedupe_points_lem :
      (points : List (MarketPoint D)) (day : DayKey)
      → Ascends (dedupe_points points)
        × (value_of_day (dedupe_points points) day ≡ value_of_day points day)
  unfolding dedupe_points value_of_day
  dedupe_points_lem points day =
      let distinct = set_points-IsDistinct points [] tt in
      (
        sort_points-Ascends (set_points points []) distinct,
        sort_points_value (set_points points []) day distinct
            ∙ set_points_value points [] day tt
            ∙ none_later (value_of_day points day),
      )
    where
      none_later : (o : Option D) → later_value o none ≡ o
      none_later none = refl
      none_later (some v) = refl
