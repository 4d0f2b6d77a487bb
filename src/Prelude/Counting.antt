-- ===== src/Prelude/Counting.antt =====
-- How many of the numbers of a range pass a test.
use native.Mathlib.Nat.{zero-add, add-zero, suc-add}
use demanage.Prelude.{
  ℕ, zero, suc, ◌+◌, ◌-◌, ◌≤◌, ◌<◌, ◌≡◌, refl, sym, dec_lt, Bool, true, false, arith, ltb, leb,
  ◌==◌, ◌&&◌, if◌then◌else◌, ◌/◌, ◌%◌,
}

-- Of the `len` numbers from `start` on.
abbrev pub count_from : (ℕ → Bool) → ℕ → ℕ → ℕ
count_from p start zero = 0
count_from p start (suc len) = (if p start then 1 else 0) + count_from p (start + 1) len

-- Of the numbers from `lo` to `hi`.
abbrev pub count_between : (ℕ → Bool) → ℕ → ℕ → ℕ
count_between p lo hi = count_from p lo (suc hi - lo)

pub count_from-append :
    (p : ℕ → Bool) (start a b : ℕ)
    → count_from p start (a + b) ≡ count_from p start a + count_from p (start + a) b
count_from-append p start zero b = simp (zero-add, add-zero)
count_from-append p start (suc a) b =
    let e : start + 1 + a ≡ start + suc a = omega arith in
    rw (suc-add a b, ← e) (omega (arith, count_from-append p (start + 1) a b))

-- Tests that agree on the range count alike.
pub count_from-agree :
    (p q : ℕ → Bool) (start len : ℕ)
    → ((n : ℕ) → start ≤ n → n < start + len → p n ≡ q n)
    → count_from p start len ≡ count_from q start len
count_from-agree p q start zero h = refl
count_from-agree p q start (suc len) h = rw (h start (omega arith) (omega arith)) (
    omega
      (arith, count_from-agree p q (start + 1) len (λ n lo hi. h n (omega arith) (omega arith))))

pub count_from_none :
    (p : ℕ → Bool) (start len : ℕ)
    → ((n : ℕ) → start ≤ n → n < start + len → p n ≡ false)
    → count_from p start len ≡ 0
count_from_none p start zero h = refl
count_from_none p start (suc len) h =
    rw (h start (omega arith) (omega arith)) (
      omega (arith, count_from_none p (start + 1) len (λ n lo hi. h n (omega arith) (omega arith))))

-- One number passes.
pub count_from-one :
    (o start len : ℕ)
    → count_from (λ n. n == o) start len ≡ (if leb start o && ltb o (start + len) then 1 else 0)
count_from-one o start zero = ground arith
count_from-one o start (suc len) = ground (arith, count_from-one o (start + 1) len)

-- Every seventh number passes.
pub count_from-weekly :
    (r start len : ℕ)
    → r < 7
    → let shift = (r + 7 - start % 7) % 7 in
      count_from (λ n. n % 7 == r) start len
      ≡ (if leb len shift then 0 else (len - shift - 1) / 7 + 1)
count_from-weekly r start zero h = ground arith
count_from-weekly r start (suc len) h = ground (arith, count_from-weekly r (start + 1) len h)

-- A range is counted in two parts.
pub count_between_split :
    (p : ℕ → Bool) (lo mid hi : ℕ)
    → lo ≤ mid + 1
    → mid ≤ hi
    → count_between p lo hi ≡ count_between p lo mid + count_between p (mid + 1) hi
count_between_split p lo mid hi h k =
    let e : suc hi - lo ≡ (suc mid - lo) + (suc hi - (mid + 1)) = omega arith in
    let e' : lo + (suc mid - lo) ≡ mid + 1 = omega arith in
    rw e (rw (count_from-append p lo (suc mid - lo) (suc hi - (mid + 1))) (rw e'))

count_between-from :
    (p : ℕ → Bool) (a lo hi : ℕ)
    → lo ≤ a
    → count_between p a hi ≡ count_between (λ n. leb a n && p n) lo hi
count_between-from p a lo hi h = elim (dec_lt hi a) [
  | yes q ↦
      let e : suc hi - a ≡ 0 = omega arith in
      rw e (sym (count_from_none _ lo (suc hi - lo) (λ n l u. ground arith)))
  | no q ↦
      let e : suc hi - lo ≡ (a - lo) + (suc hi - a) = omega arith in
      let e' : lo + (a - lo) ≡ a = omega arith in
      rw e (
        rw (count_from-append (λ n. leb a n && p n) lo (a - lo) (suc hi - a)) (
          rw (e', count_from_none (λ n. leb a n && p n) lo (a - lo) (λ n l u. ground arith))
            (rw zero-add (count_from-agree _ _ a (suc hi - a) (λ n l u. ground arith)))))
]

-- Counting from the later of `lo` and `a` is counting what is not before `a`.
pub count_between-anchor :
    (p : ℕ → Bool) (a lo hi first : ℕ)
    → first ≡ (if ltb lo a then a else lo)
    → count_between p first hi ≡ count_between (λ n. leb a n && p n) lo hi
count_between-anchor p a lo hi first e = elim (dec_lt lo a) [
  | yes q ↦ let f : first ≡ a = ground arith in rw f (count_between-from p a lo hi (omega arith))
  | no q ↦
      let f : first ≡ lo = ground arith in
      rw f (count_from-agree _ _ lo (suc hi - lo) (λ n l u. ground arith))
]

-- Counting up to an earlier end is counting what is not after that end.
pub count_between-cap :
    (p : ℕ → Bool) (lo cap hi : ℕ)
    → cap ≤ hi
    → count_between p lo cap ≡ count_between (λ n. leb n cap && p n) lo hi
count_between-cap p lo cap hi h = elim (dec_lt (suc cap) lo) [
  | yes q ↦
      let e : suc cap - lo ≡ 0 = omega arith in
      rw e (sym (count_from_none _ lo (suc hi - lo) (λ n l u. ground arith)))
  | no q ↦
      let e : suc hi - lo ≡ (suc cap - lo) + (suc hi - suc cap) = omega arith in
      let e' : lo + (suc cap - lo) ≡ suc cap = omega arith in
      rw e (
        rw (count_from-append (λ n. leb n cap && p n) lo (suc cap - lo) (suc hi - suc cap)) (
          rw
            (
              e',
              count_from_none (λ n. leb n cap && p n) (suc cap) (suc hi - suc cap)
                  (λ n l u. ground arith),
            )
            (rw add-zero (count_from-agree _ _ lo (suc cap - lo) (λ n l u. ground arith)))))
]

-- A stronger test counts less.
pub count_from_le :
    (p q : ℕ → Bool) (start len : ℕ)
    → ((n : ℕ) → start ≤ n → n < start + len → p n ≡ true → q n ≡ true)
    → count_from p start len ≤ count_from q start len
count_from_le p q start zero h = omega arith
count_from_le p q start (suc len) h =
    let ih = count_from_le p q (start + 1) len (λ n lo hi. h n (omega arith) (omega arith)) in
    let first = h start (omega arith) (omega arith) in ground (arith, ih, first)

pub count_from_full :
    (p : ℕ → Bool) (start len : ℕ)
    → ((n : ℕ) → start ≤ n → n < start + len → p n ≡ true)
    → count_from p start len ≡ len
count_from_full p start zero h = refl
count_from_full p start (suc len) h =
    let ih = count_from_full p (start + 1) len (λ n lo hi. h n (omega arith) (omega arith)) in
    rw (h start (omega arith) (omega arith), ih) (omega arith)
