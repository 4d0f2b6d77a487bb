-- ===== src/Http/Written.antt =====
-- Amounts that a request writes well (`parseMoneyAmount` of `backend/src/lib/validate.ts`).
use demanage.Prelude.{
  ℕ, suc, ◌+◌, ◌*◌, ◌/◌, ◌%◌, ◌≤◌, ◌<◌, ◌≡◌, refl, sym, ap, ◌∙◌, Bool, true, false, not, ◌&&◌, ◌||◌,
  Option, none, some, [], ◌∷◌, ◌++◌, length, ltb, leb, ◌==◌, dec_lt, arith, if◌then◌else◌,
}
use mathlib.Core.Path.{subst}
use demanage.CivilDate.Text.{Text, JsonValue, whole, text, digits, pad, is_digit}
use demanage.CivilDate.Text.Digits.{pad_two}
use demanage.Http.{
  is_space, trim, number_of, span_digits, fraction_of, match_money, strip_zeros, cents_of,
  max_money_amount, raw_of, amount_of_text, parse_money_amount,
}
use demanage.Http.Trim.{IsBlank, IsSolid, trim_lem}
use demanage.Http.Numbers.{
  IsNumeric, digits-IsNumeric, number_of-digits, length-digits, digits-first, length-strip_zeros,
}

-- A number of units, of tenths or of hundredths in decimal notation, and a number of units that is
-- no text.
pub data Written : Type 0 where
  units tenths hundredths number : ℕ → Written

-- The units, and what follows them.
abbrev pub written_units : Written → ℕ
written_units (units n) = n
written_units (tenths n) = n / 10
written_units (hundredths n) = n / 100
written_units (number n) = n

abbrev pub written_fraction : Written → Text
written_fraction (units n) = []
written_fraction (tenths n) = 46 ∷ (48 + n % 10) ∷ []
written_fraction (hundredths n) = 46 ∷ pad (n % 100) 2
written_fraction (number n) = []

abbrev pub notation : Written → Text
notation w = digits (suc (written_units w)) (written_units w) ++ written_fraction w

-- The notation in a request, between white space.
abbrev pub written_in : Text → Text → Written → JsonValue
written_in before after (number n) = whole n
written_in before after w = text (before ++ (notation w ++ after))

-- The value in cents.
abbrev pub cents_written : Written → ℕ
cents_written (units n) = n * 100
cents_written (tenths n) = n * 10
cents_written (hundredths n) = n
cents_written (number n) = n * 100

-- What is accepted of a value in cents.
abbrev pub accepted : Bool → ℕ → Option ℕ
accepted allow_zero cents =
    if leb cents 999_999_999_999 && (allow_zero || ltb 0 cents) then some cents else none

pub digit_solid : (c : ℕ) → is_digit c ≡ true → is_space c ≡ false
digit_solid c h = ground (arith, h)

pub numeric-IsSolid : (s t : Text) → IsNumeric s → IsSolid t → IsSolid (s ++ t)
numeric-IsSolid [] t h g = g
numeric-IsSolid (c ∷ s) t h g = (digit_solid c h.0, numeric-IsSolid s t h.1 g)

-- The fraction without its point.
abbrev decimals : Written → Text
decimals (units n) = []
decimals (tenths n) = (48 + n % 10) ∷ []
decimals (hundredths n) = (48 + n % 100 / 10) ∷ (48 + n % 100 % 10) ∷ []
decimals (number n) = []

pub digit_of : (d : ℕ) → d < 10 → is_digit (48 + d) ≡ true
digit_of d h = ground arith

fraction-IsSolid : (w : Written) → IsSolid (written_fraction w)
fraction-IsSolid (units n) = tt
fraction-IsSolid (tenths n) =
    (refl, (digit_solid (48 + n % 10) (digit_of (n % 10) (omega arith)), tt))
fraction-IsSolid (hundredths n) = rw (pad_two (n % 100) (omega arith)) (
  refl,
  (
    digit_solid (48 + n % 100 / 10) (digit_of (n % 100 / 10) (omega arith)),
    (digit_solid (48 + n % 100 % 10) (digit_of (n % 100 % 10) (omega arith)), tt),
  ),
)
fraction-IsSolid (number n) = tt

fraction_found : (w : Written) → fraction_of (written_fraction w) ≡ some (decimals w)
fraction_found (units n) = refl
fraction_found (tenths n) = rw (digit_of (n % 10) (omega arith)) refl
fraction_found (hundredths n) =
    rw (pad_two (n % 100) (omega arith))
      (rw (digit_of (n % 100 / 10) (omega arith), digit_of (n % 100 % 10) (omega arith)) refl)
fraction_found (number n) = refl

span_digits-numeric :
    (s : Text) (w : Written)
    → IsNumeric s
    → span_digits (s ++ written_fraction w) ≡ (s, written_fraction w)
unfolding span_digits
span_digits-numeric [] (units n) h = refl
span_digits-numeric [] (tenths n) h = refl
span_digits-numeric [] (hundredths n) h = refl
span_digits-numeric [] (number n) h = refl
span_digits-numeric (c ∷ s) w h = rw (span_digits-numeric s w h.1, h.0) refl

match_money-found :
    (c : ℕ) (s : Text) (w : Written)
    → IsNumeric (c ∷ s)
    → match_money ((c ∷ s) ++ written_fraction w)
      ≡ some (record { integer = c ∷ s; fraction = decimals w })
unfolding match_money
match_money-found c s w h =
    ap
      (λ p. elim (fraction_of p.1) [
        | none ↦ none
        | some f ↦ if length p.0 == 0 then none else some (record { integer = p.0; fraction = f })
      ])
      (span_digits-numeric (c ∷ s) w h)
    ∙ rw (fraction_found w) (ground arith)

cents_found : (w : Written) → written_units w * 100 + cents_of (decimals w) ≡ cents_written w
cents_found (units n) = omega arith
cents_found (tenths n) = omega arith
cents_found (hundredths n) = omega arith
cents_found (number n) = omega arith

-- The limits of an amount; a value below the largest has at most ten digits.
in_limits :
    (ds : Text) (w : Written) (allow_zero : Bool)
    → number_of 0 ds ≡ written_units w
    → (written_units w < 10_000_000_000 → length ds ≤ 10)
    → amount_of_text (record { integer = ds; fraction = decimals w }) allow_zero
      ≡ accepted allow_zero (cents_written w)
unfolding amount_of_text
in_limits ds w allow_zero read short =
    let stripped = length-strip_zeros ds in
    rw (read, cents_found w)
      (tested (ltb 10 (length (strip_zeros ds))) allow_zero (cents_written w) (λ long.
        elim (dec_lt (written_units w) 10_000_000_000) [
          | yes p ↦ absurd (ground (arith, long, stripped, short p))
          | no p ↦ omega (arith, cents_found w)
        ]))
  where
    tested :
        (long allow : Bool) (cents : ℕ)
        → (long ≡ true → 999_999_999_999 < cents)
        → (if long
            then none
            else if ltb max_money_amount cents || (not allow && (cents == 0))
            then none
            else some cents)
          ≡ accepted allow cents
    tested true allow cents h = let big = h refl in ground (arith, big)
    tested false true cents h = ground arith
    tested false false cents h = ground arith

-- The amount of a text that is trimmed.
abbrev pub read_as : Text → Bool → Option ℕ
read_as t allow_zero = elim (match_money t) [ none ↦ none | some m ↦ amount_of_text m allow_zero ]

-- The notation, where its units begin with `c`.
module _ (w : Written) (c : ℕ) (s : Text)
    (first : digits (suc (written_units w)) (written_units w) ≡ c ∷ s) where
  first-IsNumeric : IsNumeric (c ∷ s)
  first-IsNumeric =
      subst IsNumeric first (digits-IsNumeric (suc (written_units w)) (written_units w))

  notation-first : notation w ≡ (c ∷ s) ++ written_fraction w
  notation-first = ap (λ ds. ds ++ written_fraction w) first

  read_notation :
      (allow_zero : Bool) → read_as (notation w) allow_zero ≡ accepted allow_zero (cents_written w)
  read_notation allow_zero =
      let n = written_units w in
      let value : number_of 0 (c ∷ s) ≡ n =
        subst (λ ds. number_of 0 ds ≡ n) first (number_of-digits (suc n) n (omega arith)) in
      ap (λ t. read_as t allow_zero) notation-first
      ∙ ap (λ o. elim o [ none ↦ none | some m ↦ amount_of_text m allow_zero ])
          (match_money-found c s w first-IsNumeric)
      ∙ in_limits (c ∷ s) w allow_zero value
          (λ h. subst (λ ds. length ds ≤ 10) first (length-digits 9 (suc n) n (omega arith)))

  notation_trimmed :
      (before after : Text)
      → IsBlank before
      → IsBlank after
      → trim (before ++ (notation w ++ after)) ≡ notation w
  notation_trimmed before after b a =
      let solid =
        numeric-IsSolid (c ∷ s) (written_fraction w) first-IsNumeric (fraction-IsSolid w) in
      rw notation-first (trim_lem before after (s ++ written_fraction w) c b a solid)

  read_text :
      (before after : Text) (allow_zero : Bool)
      → IsBlank before
      → IsBlank after
      → parse_money_amount (text (before ++ (notation w ++ after))) allow_zero
        ≡ accepted allow_zero (cents_written w)
  unfolding parse_money_amount raw_of
  read_text before after allow_zero b a =
      ap (λ t. read_as t allow_zero) (notation_trimmed before after b a) ∙ read_notation allow_zero

pub append_nil : (s : Text) → s ++ [] ≡ s
append_nil [] = refl
append_nil (c ∷ s) = ap (λ t. c ∷ t) (append_nil s)

-- The same of a number that is no text.
module _ (n : ℕ) (c : ℕ) (s : Text) (first : digits (suc n) n ≡ c ∷ s) where
  read_number :
      (allow_zero : Bool) → parse_money_amount (whole n) allow_zero ≡ accepted allow_zero (n * 100)
  unfolding parse_money_amount raw_of
  read_number allow_zero =
      ap (λ t. read_as t allow_zero) (sym (append_nil (digits (suc n) n)))
      ∙ read_notation (number n) c s first allow_zero

pub read_written :
    (w : Written) (before after : Text) (allow_zero : Bool)
    → IsBlank before
    → IsBlank after
    → parse_money_amount (written_in before after w) allow_zero
      ≡ accepted allow_zero (cents_written w)
read_written (units n) before after allow_zero b a =
    let (c, s, first) = digits-first n n in
    read_text (units n) c s first before after allow_zero b a
read_written (tenths n) before after allow_zero b a =
    let (c, s, first) = digits-first (n / 10) (n / 10) in
    read_text (tenths n) c s first before after allow_zero b a
read_written (hundredths n) before after allow_zero b a =
    let (c, s, first) = digits-first (n / 100) (n / 100) in
    read_text (hundredths n) c s first before after allow_zero b a
read_written (number n) before after allow_zero b a =
    let (c, s, first) = digits-first n n in read_number n c s first allow_zero
