-- ===== src/Prelude/Decimals.antt =====
-- The package behind `Prisma.Decimal`, which is not part of the repository: its operations are a
-- parameter of every definition that computes with money, and what the theorems rely on is the
-- record of laws `IsExact`.
use Prim.Native.Nat.{ℕ}
use mathlib.Core.Path.{◌≡◌}
use mathlib.Core.Bool.{Bool}
use demanage.Prelude.Int.{ℤ, pos, ◌+ℤ◌, ◌-ℤ◌, ◌*ℤ◌, ◌≤ℤ◌, ltb_ℤ, eq_ℤ}

pub record Decimals : Type 1 where
  pub Decimal : Type 0
  -- `new Decimal(n)` at a whole number, and `mul` and `div`.
  pub of_ℕ : ℕ → Decimal
  pub plus : Decimal → Decimal → Decimal
  pub minus : Decimal → Decimal → Decimal
  pub times : Decimal → Decimal → Decimal
  pub over : Decimal → Decimal → Decimal
  pub negated : Decimal → Decimal
  -- `a.lt(b)` and `a.eq(b)`.
  pub lt : Decimal → Decimal → Bool
  pub eq : Decimal → Decimal → Bool
  -- `toDecimalPlaces(2, ROUND_HALF_UP)`.
  pub to_money : Decimal → Decimal
  -- `toDecimalPlaces(12, ROUND_HALF_UP)`.
  pub to_quantity : Decimal → Decimal
  -- `toDecimalPlaces(8, ROUND_HALF_UP)`, `toDecimalPlaces(2, ROUND_DOWN)` and 0.01.
  pub to_interest : Decimal → Decimal
  pub cents_down : Decimal → Decimal
  pub cent : Decimal

-- Sums, differences and order are exact on the values of the program: each decimal is a whole
-- number of some smallest unit, `scaled`.
pub record IsExact (d : Decimals) : Type 0 where
  pub scaled : d.Decimal → ℤ
  pub scaled_inj : (a b : d.Decimal) → scaled a ≡ scaled b → a ≡ b
  pub scaled-zero : scaled (d.of_ℕ 0) ≡ pos 0
  pub scaled-plus : (a b : d.Decimal) → scaled (d.plus a b) ≡ scaled a +ℤ scaled b
  pub scaled-minus : (a b : d.Decimal) → scaled (d.minus a b) ≡ scaled a -ℤ scaled b
  pub scaled-negated : (a : d.Decimal) → scaled (d.negated a) ≡ pos 0 -ℤ scaled a
  pub scaled-times : (a : d.Decimal) (n : ℕ) → scaled (d.times a (d.of_ℕ n)) ≡ scaled a *ℤ pos n
  pub lt-scaled : (a b : d.Decimal) → d.lt a b ≡ ltb_ℤ (scaled a) (scaled b)
  pub eq-scaled : (a b : d.Decimal) → d.eq a b ≡ eq_ℤ (scaled a) (scaled b)

-- What the interest relies on: its factors and their rounding keep a value from below zero, and the
-- whole cents of a value are at most the value and less than a cent below it.
pub record RoundsDown {d : Decimals} (x : IsExact d) : Type 0 where
  pub times_nonneg :
      (a b : d.Decimal)
      → pos 0 ≤ℤ x.scaled a
      → pos 0 ≤ℤ x.scaled b
      → pos 0 ≤ℤ x.scaled (d.times a b)
  pub over_nonneg :
      (a : d.Decimal) (n : ℕ) → pos 0 ≤ℤ x.scaled a → pos 0 ≤ℤ x.scaled (d.over a (d.of_ℕ n))
  pub to_interest_nonneg :
      (a : d.Decimal) → pos 0 ≤ℤ x.scaled a → pos 0 ≤ℤ x.scaled (d.to_interest a)
  pub cents_down_nonneg : (a : d.Decimal) → pos 0 ≤ℤ x.scaled a → pos 0 ≤ℤ x.scaled (d.cents_down a)
  pub cents_down_le :
      (a : d.Decimal) → pos 0 ≤ℤ x.scaled a → x.scaled (d.cents_down a) ≤ℤ x.scaled a
  pub cents_down_gt :
      (a : d.Decimal)
      → pos 0 ≤ℤ x.scaled a
      → x.scaled a ≤ℤ x.scaled (d.cents_down a) +ℤ x.scaled d.cent -ℤ pos 1
  pub cent_pos : pos 1 ≤ℤ x.scaled d.cent
