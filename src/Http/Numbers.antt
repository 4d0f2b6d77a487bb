-- ===== src/Http/Numbers.antt =====
-- The digits of a number, read again (`Number` and the digits of an amount, in
-- `backend/src/lib/validate.ts`).
use demanage.Prelude.{
  ℕ, zero, suc, ◌+◌, ◌-◌, ◌*◌, ◌/◌, ◌%◌, ◌≤◌, ◌<◌, ◌≡◌, refl, ◌∙◌, true, [], ◌∷◌, ◌++◌, All, length,
  dec_lt, arith,
}
use demanage.Prelude.Lists.{All-snoc, length-append}
use demanage.CivilDate.Text.{Text, digits, is_digit}
use demanage.CivilDate.Text.Digits.{digits_more}
use demanage.Http.{number_of, strip_zeros}

abbrev pub IsNumeric : Text → Type 0
IsNumeric s = All (λ c. is_digit c ≡ true) s

digits_small : (f n : ℕ) → n < 10 → digits (suc f) n ≡ (48 + n) ∷ []
unfolding digits
digits_small f n h = ground arith

digit_of : (d : ℕ) → d < 10 → is_digit (48 + d) ≡ true
digit_of d h = ground arith

pub digits-IsNumeric : (f n : ℕ) → IsNumeric (digits f n)
unfolding digits
digits-IsNumeric zero n = tt
digits-IsNumeric (suc f) n = elim (dec_lt n 10) [
  | yes p ↦ rw (digits_small f n p) (digit_of n p, tt)
  | no p ↦ rw (digits_more f n (omega arith)) (
      All-snoc (λ c. is_digit c ≡ true) (digits f (n / 10)) (48 + n % 10)
        (digits-IsNumeric f (n / 10)) (digit_of (n % 10) (omega arith)))
]

number_of-append : (v : ℕ) (s t : Text) → number_of v (s ++ t) ≡ number_of (number_of v s) t
unfolding number_of
number_of-append v [] t = refl
number_of-append v (c ∷ s) t = number_of-append (10 * v + (c - 48)) s t

number_of-last : (v d : ℕ) → d < 10 → number_of v ((48 + d) ∷ []) ≡ 10 * v + d
unfolding number_of
number_of-last v d h = omega arith

pub number_of-digits : (f n : ℕ) → n < f → number_of 0 (digits f n) ≡ n
number_of-digits zero n h = absurd (omega arith)
number_of-digits (suc f) n h = elim (dec_lt n 10) [
  | yes p ↦ rw (digits_small f n p) (number_of-last 0 n p ∙ omega arith)
  | no p ↦ rw (digits_more f n (omega arith)) (
      number_of-append 0 (digits f (n / 10)) ((48 + n % 10) ∷ [])
      ∙ rw (number_of-digits f (n / 10) (omega arith))
          (number_of-last (n / 10) (n % 10) (omega arith) ∙ omega arith))
]

abbrev pub ten_to : ℕ → ℕ
ten_to zero = 1
ten_to (suc k) = 10 * ten_to k

pub length-digits : (k f n : ℕ) → n < ten_to (suc k) → length (digits f n) ≤ suc k
unfolding digits
length-digits k zero n h = omega arith
length-digits zero (suc f) n h = rw (digits_small f n (omega arith)) (omega arith)
length-digits (suc k) (suc f) n h = elim (dec_lt n 10) [
  | yes p ↦ rw (digits_small f n p) (omega arith)
  | no p ↦
      rw (digits_more f n (omega arith), length-append (digits f (n / 10)) ((48 + n % 10) ∷ []))
        (omega (arith, length-digits k f (n / 10) (omega arith)))
]

pub digits-first : (f n : ℕ) → (c : ℕ) × (s : Text) × (digits (suc f) n ≡ c ∷ s)
digits-first f n = elim (dec_lt n 10) [
  | yes p ↦ (48 + n, [], digits_small f n p)
  | no p ↦ more (digits f (n / 10)) (48 + n % 10) (digits_more f n (omega arith))
]
  where
    more : {t : Text} (xs : Text) (d : ℕ) → t ≡ xs ++ d ∷ [] → (c : ℕ) × (s : Text) × (t ≡ c ∷ s)
    more [] d h = (d, [], h)
    more (x ∷ xs) d h = (x, xs ++ d ∷ [], h)

pub length-strip_zeros : (s : Text) → length (strip_zeros s) ≤ length s
unfolding strip_zeros
length-strip_zeros [] = omega arith
length-strip_zeros (c ∷ s) = let h = length-strip_zeros s in ground (arith, h)
