-- ===== src/CivilDate/Text/Digits.antt =====
-- The digits of a padded number (`pad` of `backend/src/lib/civil-date.ts`).
use demanage.Prelude.{
  ℕ, zero, suc, ◌+◌, ◌/◌, ◌%◌, ◌≤◌, ◌<◌, ◌≡◌, refl, ◌∙◌, [], ◌∷◌, ◌++◌, dec_lt, ltb, ◌==◌, arith,
  if◌then◌else◌,
}
use demanage.CivilDate.Text.{Text, digits, pad, text_lt}

digits_one : (f n : ℕ) → n < f → n < 10 → digits f n ≡ (48 + n) ∷ []
unfolding digits
digits_one zero n h k = absurd (omega arith)
digits_one (suc f) n h k = ground arith

pub digits_more : (f n : ℕ) → 10 ≤ n → digits (suc f) n ≡ digits f (n / 10) ++ (48 + n % 10) ∷ []
unfolding digits
digits_more f n h = ground arith

digits_two : (f n : ℕ) → n < f → 10 ≤ n → n < 100 → digits f n ≡ (48 + n / 10) ∷ (48 + n % 10) ∷ []
digits_two zero n h k l = absurd (omega arith)
digits_two (suc f) n h k l =
    digits_more f n k ∙ rw (digits_one f (n / 10) (omega arith) (omega arith)) refl

digits_three :
    (f n : ℕ)
    → n < f
    → 100 ≤ n
    → n < 1000
    → digits f n ≡ (48 + n / 100) ∷ (48 + n / 10 % 10) ∷ (48 + n % 10) ∷ []
digits_three zero n h k l = absurd (omega arith)
digits_three (suc f) n h k l =
    let e : n / 10 / 10 ≡ n / 100 = omega arith in
    digits_more f n (omega arith)
    ∙ rw (digits_two f (n / 10) (omega arith) (omega arith) (omega arith), e) refl

digits_four :
    (f n : ℕ)
    → n < f
    → 1000 ≤ n
    → n < 10000
    → digits f n ≡ (48 + n / 1000) ∷ (48 + n / 100 % 10) ∷ (48 + n / 10 % 10) ∷ (48 + n % 10) ∷ []
digits_four zero n h k l = absurd (omega arith)
digits_four (suc f) n h k l =
    let e : n / 10 / 100 ≡ n / 1000 = omega arith in
    let e' : n / 10 / 10 % 10 ≡ n / 100 % 10 = omega arith in
    digits_more f n (omega arith)
    ∙ rw (digits_three f (n / 10) (omega arith) (omega arith) (omega arith), e, e') refl

pub pad_two : (n : ℕ) → n < 100 → pad n 2 ≡ (48 + n / 10) ∷ (48 + n % 10) ∷ []
unfolding pad
pad_two n h = elim (dec_lt n 10) [
  | yes p ↦
      let a : 48 ≡ 48 + n / 10 = omega arith in
      let b : 48 + n ≡ 48 + n % 10 = omega arith in
      rw (digits_one (suc n) n (omega arith) p) (ground (arith, a, b))
  | no p ↦ rw (digits_two (suc n) n (omega arith) (omega arith) h) refl
]

pub pad_four :
    (n : ℕ)
    → n < 10000
    → pad n 4 ≡ (48 + n / 1000) ∷ (48 + n / 100 % 10) ∷ (48 + n / 10 % 10) ∷ (48 + n % 10) ∷ []
unfolding pad
pad_four n h = elim (dec_lt n 10) [
  | yes p ↦ rw (digits_one (suc n) n (omega arith) p) (ground arith)
  | no p ↦ elim (dec_lt n 100) [
    | yes q ↦ rw (digits_two (suc n) n (omega arith) (omega arith) q) (ground arith)
    | no q ↦ elim (dec_lt n 1000) [
      | yes r ↦ rw (digits_three (suc n) n (omega arith) (omega arith) r) (ground arith)
      | no r ↦ rw (digits_four (suc n) n (omega arith) (omega arith) h) refl
    ]
  ]
]

-- Texts that begin with padded numbers compare by the numbers first.
pub text_lt-two :
    (a b : ℕ) (r s : Text)
    → a < 100
    → b < 100
    → text_lt (pad a 2 ++ r) (pad b 2 ++ s) ≡ (if a == b then text_lt r s else ltb a b)
unfolding text_lt
text_lt-two a b r s h k = rw (pad_two a h, pad_two b k) (ground arith)

pub text_lt-four :
    (a b : ℕ) (r s : Text)
    → a < 10000
    → b < 10000
    → text_lt (pad a 4 ++ r) (pad b 4 ++ s) ≡ (if a == b then text_lt r s else ltb a b)
unfolding text_lt
text_lt-four a b r s h k = rw (pad_four a h, pad_four b k) (ground arith)

pub text_lt-two_end : (a b : ℕ) → a < 100 → b < 100 → text_lt (pad a 2) (pad b 2) ≡ ltb a b
unfolding text_lt
text_lt-two_end a b h k = rw (pad_two a h, pad_two b k) (ground arith)
