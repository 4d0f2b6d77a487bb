-- ===== src/Splits/Shape.antt =====
-- `validateSplitShape` (`backend/src/lib/split-allocation.ts`).
use demanage.Prelude.{
  ◌≡◌, ◌≢◌, ◌↔◌, refl, Bool, false, none, List, [], ◌∷◌, map, if◌then◌else◌, arith,
}
use demanage.Prelude.Decimals.{Decimals}
use demanage.Splits.{SplitInput, on_card, on_pix, percent, sum_values, validate_split_shape}

module _ (dec : Decimals) (number_off : dec.Decimal → Bool) where
  -- The percents are at most a hundredth over or under 100.
  abbrev AddsUp : List (SplitInput dec.Decimal) → Type 0
  AddsUp inputs =
      let over_by =
        dec.minus (sum_values dec (dec.of_ℕ 0) (map (percent dec) inputs)) (dec.of_ℕ 100) in
      let hundredth = dec.over (dec.of_ℕ 1) (dec.of_ℕ 100) in
      (if dec.lt over_by (dec.of_ℕ 0)
        then dec.lt hundredth (dec.negated over_by)
        else dec.lt hundredth over_by)
      ≡ false

  -- Nothing, a card alone, two cards that differ, or a card and pix.
  abbrev pub IsShape : List (SplitInput dec.Decimal) → Type 0
  IsShape [] = Unit
  IsShape (on_card c p ∷ []) = AddsUp (on_card c p ∷ []) × (number_off p ≡ false)
  IsShape (on_pix p ∷ []) = ⊥
  IsShape (on_card c p ∷ on_card d q ∷ []) = AddsUp (on_card c p ∷ on_card d q ∷ []) × (c ≢ d)
  IsShape (on_card c p ∷ on_pix q ∷ []) = AddsUp (on_card c p ∷ on_pix q ∷ [])
  IsShape (on_pix p ∷ on_card d q ∷ []) = AddsUp (on_pix p ∷ on_card d q ∷ [])
  IsShape (on_pix p ∷ on_pix q ∷ []) = ⊥
  IsShape (i ∷ j ∷ k ∷ rest) = ⊥

  -- The check of the shape lets the parts of an expense pass if and only if there are none, or
  -- the percents add up to 100 within a hundredth and they are a card alone that the test on
  -- numbers takes for 100, two different cards, or a card and pix.
  pub validate_split_shape_lem :
      (inputs : List (SplitInput dec.Decimal))
      → (validate_split_shape dec number_off inputs ≡ none) ↔ IsShape inputs
  unfolding validate_split_shape
  validate_split_shape_lem [] = (λ e. tt, λ u. refl)
  validate_split_shape_lem (on_card c p ∷ []) = (λ e. ground (arith, e), λ h. ground (arith, h))
  validate_split_shape_lem (on_pix p ∷ []) = (λ e. ground (arith, e), λ h. absurd h)
  validate_split_shape_lem (on_card c p ∷ on_card d q ∷ []) =
      (λ e. ground (arith, e), λ h. ground (arith, h))
  validate_split_shape_lem (on_card c p ∷ on_pix q ∷ []) =
      (λ e. ground (arith, e), λ h. ground (arith, h))
  validate_split_shape_lem (on_pix p ∷ on_card d q ∷ []) =
      (λ e. ground (arith, e), λ h. ground (arith, h))
  validate_split_shape_lem (on_pix p ∷ on_pix q ∷ []) = (λ e. ground (arith, e), λ h. absurd h)
  validate_split_shape_lem (i ∷ j ∷ k ∷ rest) = (λ e. ground (arith, e), λ h. absurd h)
