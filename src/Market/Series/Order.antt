-- ===== src/Market/Series/Order.antt =====
-- The order of the points of a series, each day once (`dedupePoints` of
-- `backend/src/lib/market/series.ts`).
use demanage.Prelude.{◌≡◌, inl, inr, arith, true, false, List, [], ◌∷◌, All, Bool-cases}
use demanage.CivilDate.{DayKey, key_lt}
use demanage.Patrimony.{MarketPoint}
use demanage.Piggy.Interest.{is_same_day}
use demanage.Market.{set_point, set_points, insert_point, sort_points}

key_lt_trans : (a b c : DayKey) → key_lt a b ≡ true → key_lt b c ≡ true → key_lt a c ≡ true
unfolding key_lt
key_lt_trans a b c h g = ground (arith, h, g)

key_lt_total : (a b : DayKey) → key_lt a b ≡ false → is_same_day a b ≡ false → key_lt b a ≡ true
unfolding key_lt
key_lt_total a b h g = ground (arith, h, g)

pub same_day_sym : (a b : DayKey) → is_same_day a b ≡ false → is_same_day b a ≡ false
same_day_sym a b h = ground (arith, h)

key_lt-not_same : (a b : DayKey) → key_lt a b ≡ true → is_same_day a b ≡ false
unfolding key_lt
key_lt-not_same a b h = ground (arith, h)

same_day_moved :
    (a b c : DayKey) → is_same_day a b ≡ true → is_same_day c a ≡ false → is_same_day c b ≡ false
same_day_moved a b c h g = ground (arith, h, g)

module _ {D : Type 0} where
  -- No day but those of the points.
  abbrev pub IsOther : DayKey → List (MarketPoint D) → Type 0
  IsOther day ps = All (λ q. is_same_day q.date day ≡ false) ps

  abbrev pub IsDistinct : List (MarketPoint D) → Type 0
  IsDistinct [] = Unit
  IsDistinct (p ∷ ps) = IsOther p.date ps × IsDistinct ps

  abbrev pub Ascends : List (MarketPoint D) → Type 0
  Ascends [] = Unit
  Ascends (p ∷ ps) = All (λ q. key_lt p.date q.date ≡ true) ps × Ascends ps

  pub set_point-IsOther :
      (day : DayKey) (p : MarketPoint D) (qs : List (MarketPoint D))
      → is_same_day p.date day ≡ false
      → IsOther day qs
      → IsOther day (set_point p qs)
  unfolding set_point
  set_point-IsOther day p [] n h = (n, tt)
  set_point-IsOther day p (q ∷ qs) n h = elim (Bool-cases (is_same_day q.date p.date)) [
    | inl same ↦ rw same (n, h.1)
    | inr new ↦ rw new (h.0, set_point-IsOther day p qs n h.1)
  ]

  pub moved-IsOther :
      (a b : DayKey) (qs : List (MarketPoint D))
      → is_same_day a b ≡ true
      → IsOther a qs
      → IsOther b qs
  moved-IsOther a b [] h g = tt
  moved-IsOther a b (q ∷ qs) h g = (same_day_moved a b q.date h g.0, moved-IsOther a b qs h g.1)

  pub set_point-IsDistinct :
      (p : MarketPoint D) (qs : List (MarketPoint D)) → IsDistinct qs → IsDistinct (set_point p qs)
  unfolding set_point
  set_point-IsDistinct p [] h = (tt, tt)
  set_point-IsDistinct p (q ∷ qs) h = elim (Bool-cases (is_same_day q.date p.date)) [
    | inl same ↦ rw same (moved-IsOther q.date p.date qs same h.0, h.1)
    | inr new ↦ rw new (
      set_point-IsOther q.date p qs (same_day_sym q.date p.date new) h.0,
      set_point-IsDistinct p qs h.1,
    )
  ]

  pub set_points-IsDistinct :
      (ps qs : List (MarketPoint D)) → IsDistinct qs → IsDistinct (set_points ps qs)
  unfolding set_points
  set_points-IsDistinct [] qs h = h
  set_points-IsDistinct (p ∷ ps) qs h =
      set_points-IsDistinct ps (set_point p qs) (set_point-IsDistinct p qs h)

  pub insert_point-All :
      (P : MarketPoint D → Type 0) (p : MarketPoint D) (qs : List (MarketPoint D))
      → P p
      → All P qs
      → All P (insert_point p qs)
  unfolding insert_point
  insert_point-All P p [] h g = (h, tt)
  insert_point-All P p (q ∷ qs) h g = elim (Bool-cases (key_lt q.date p.date)) [
    | inl after ↦ rw after (g.0, insert_point-All P p qs h g.1)
    | inr before ↦ rw before (h, g)
  ]

  All-later :
      (a b : DayKey) (qs : List (MarketPoint D))
      → key_lt a b ≡ true
      → All (λ q. key_lt b q.date ≡ true) qs
      → All (λ q. key_lt a q.date ≡ true) qs
  All-later a b [] h g = tt
  All-later a b (q ∷ qs) h g = (key_lt_trans a b q.date h g.0, All-later a b qs h g.1)

  insert_point-Ascends :
      (p : MarketPoint D) (qs : List (MarketPoint D))
      → IsOther p.date qs
      → Ascends qs
      → Ascends (insert_point p qs)
  unfolding insert_point
  insert_point-Ascends p [] o h = (tt, tt)
  insert_point-Ascends p (q ∷ qs) o h = elim (Bool-cases (key_lt q.date p.date)) [
    | inl after ↦ rw after (
      insert_point-All (λ r. key_lt q.date r.date ≡ true) p qs after h.0,
      insert_point-Ascends p qs o.1 h.1,
    )
    | inr before ↦
        let lt = key_lt_total q.date p.date before o.0 in
        rw before ((lt, All-later p.date q.date qs lt h.0), h)
  ]

  pub sort_points-All :
      (P : MarketPoint D → Type 0) (ps : List (MarketPoint D)) → All P ps → All P (sort_points ps)
  unfolding sort_points
  sort_points-All P [] h = tt
  sort_points-All P (p ∷ ps) h =
      insert_point-All P p (sort_points ps) h.0 (sort_points-All P ps h.1)

  pub sort_points-Ascends : (ps : List (MarketPoint D)) → IsDistinct ps → Ascends (sort_points ps)
  unfolding sort_points
  sort_points-Ascends [] h = tt
  sort_points-Ascends (p ∷ ps) h =
      insert_point-Ascends p (sort_points ps)
        (sort_points-All (λ q. is_same_day q.date p.date ≡ false) ps h.0)
        (sort_points-Ascends ps h.1)
