-- ===== src/Prelude/Sums.antt =====
-- Sums of integers over a range of numbers and over a list.
use demanage.Prelude.{
  ℕ, zero, suc, ◌+◌, ◌-◌, ◌≤◌, ◌<◌, ◌≡◌, refl, sym, ◌∙◌, Bool, arith, if◌then◌else◌, Bool-cases,
  inl, inr,
}
use demanage.Prelude.Int.{ℤ, pos, negsuc, ◌+ℤ◌, ◌*ℤ◌, int_laws}
use demanage.Prelude.Counting.{count_from}
use native.Mathlib.Nat.{zero-add, add-zero, suc-add}

pub times-zero : (a : ℤ) → a *ℤ pos 0 ≡ pos 0
unfolding ◌*ℤ◌
times-zero a = ground arith

pub zero-times : (n : ℕ) → pos 0 *ℤ pos n ≡ pos 0
unfolding ◌*ℤ◌
zero-times n = ground arith

pub times-suc : (a : ℤ) (n : ℕ) → a *ℤ pos (suc n) ≡ a +ℤ a *ℤ pos n
unfolding ◌*ℤ◌ ◌+ℤ◌
times-suc (pos x) n = ground arith
times-suc (negsuc x) n = ground arith

pub times-add : (a : ℤ) (m n : ℕ) → a *ℤ pos (m + n) ≡ a *ℤ pos m +ℤ a *ℤ pos n
times-add a zero n = simp (zero-add, times-zero) (omega int_laws)
times-add a (suc m) n =
    rw (suc-add m n, times-suc a (m + n), times-suc a m, times-add a m n) (omega int_laws)

-- Over the `len` numbers from `start` on.
abbrev pub sum_from : (ℕ → ℤ) → ℕ → ℕ → ℤ
sum_from f start zero = pos 0
sum_from f start (suc len) = f start +ℤ sum_from f (start + 1) len

-- Over the numbers from `lo` to `hi`.
abbrev pub sum_between : (ℕ → ℤ) → ℕ → ℕ → ℤ
sum_between f lo hi = sum_from f lo (suc hi - lo)

pub sum_from-append :
    (f : ℕ → ℤ) (start a b : ℕ)
    → sum_from f start (a + b) ≡ sum_from f start a +ℤ sum_from f (start + a) b
sum_from-append f start zero b = simp (zero-add, add-zero) (omega int_laws)
sum_from-append f start (suc a) b =
    let e : start + 1 + a ≡ start + suc a = omega arith in
    rw (suc-add a b, ← e, sum_from-append f (start + 1) a b) (omega int_laws)

pub sum_from-agree :
    (f g : ℕ → ℤ) (start len : ℕ)
    → ((n : ℕ) → start ≤ n → n < start + len → f n ≡ g n)
    → sum_from f start len ≡ sum_from g start len
sum_from-agree f g start zero h = refl
sum_from-agree f g start (suc len) h = rw (
  h start (omega arith) (omega arith),
  sum_from-agree f g (start + 1) len (λ n lo hi. h n (omega arith) (omega arith)),
)

-- A constant taken at the numbers that pass a test.
pub sum_from-count :
    (p : ℕ → Bool) (a : ℤ) (start len : ℕ)
    → sum_from (λ n. if p n then a else pos 0) start len ≡ a *ℤ pos (count_from p start len)
sum_from-count p a start zero = sym (times-zero a)
sum_from-count p a start (suc len) = elim (Bool-cases (p start)) [
  | inl hit ↦
      rw (hit, sum_from-count p a (start + 1) len, times-add a 1 (count_from p (start + 1) len))
        (rw one)
  | inr miss ↦ rw (miss, sum_from-count p a (start + 1) len) (rw zero-add (omega int_laws))
]
  where
    one : a *ℤ pos 1 ≡ a
    one = times-suc a 0 ∙ rw (times-zero a) (omega int_laws)

pub sum_between_split :
    (f : ℕ → ℤ) (lo mid hi : ℕ)
    → lo ≤ mid + 1
    → mid ≤ hi
    → sum_between f lo hi ≡ sum_between f lo mid +ℤ sum_between f (mid + 1) hi
sum_between_split f lo mid hi h k =
    let e : suc hi - lo ≡ (suc mid - lo) + (suc hi - (mid + 1)) = omega arith in
    let e' : lo + (suc mid - lo) ≡ mid + 1 = omega arith in
    rw e (rw (sum_from-append f lo (suc mid - lo) (suc hi - (mid + 1))) (rw e'))
