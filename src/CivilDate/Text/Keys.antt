-- ===== src/CivilDate/Text/Keys.antt =====
-- Reading back the text of a day key, and the order of such texts
-- (`backend/src/lib/civil-date.ts`).
use demanage.Prelude.{
  ℕ, ◌+◌, ◌-◌, ◌*◌, ◌/◌, ◌%◌, ◌≤◌, ◌<◌, ◌≡◌, ◌↔◌, refl, sym, ap, ◌∙◌, true, ◌&&◌, some, [], ◌∷◌,
  ◌++◌, ◌==◌, Bool-cases, Option-cases, inl, inr, arith, and_parts, not_some, ==_iff,
}
use demanage.CivilDate.{DayKey, day_key, last_day_of_month, key_lt}
use demanage.CivilDate.Order.{IsKey, IsKey-bounds}
use demanage.CivilDate.Text.{
  Text, dash, pad, format_day_key, text_of, text, is_digit, two, DateParts, match_day_key,
  key_of_parts, parse_text, parse_day_key, text_lt,
}
use demanage.CivilDate.Text.Digits.{pad_two, pad_four, text_lt-two, text_lt-four, text_lt-two_end}

-- The ten characters of a key.
format_lem :
    (y m d : ℕ)
    → y < 10000
    → m < 12
    → d < 100
    → format_day_key y m d
      ≡ (48 + y / 1000)
        ∷ (48 + y / 100 % 10)
        ∷ (48 + y / 10 % 10)
        ∷ (48 + y % 10)
        ∷ dash
        ∷ (48 + (m + 1) / 10)
        ∷ (48 + (m + 1) % 10)
        ∷ dash
        ∷ (48 + d / 10)
        ∷ (48 + d % 10)
        ∷ []
unfolding format_day_key
format_lem y m d hy hm hd = rw (pad_four y hy, pad_two (m + 1) (omega arith), pad_two d hd) refl

digit : (q : ℕ) → q < 10 → is_digit (48 + q) ≡ true
digit q h = ground arith

match_format :
    (y m d : ℕ)
    → y < 10000
    → m < 12
    → d < 100
    → match_day_key (format_day_key y m d) ≡ some (record { year = y; month = m + 1; day = d })
unfolding match_day_key
match_format y m d hy hm hd =
    let year : 100 * two (48 + y / 1000) (48 + y / 100 % 10) + two (48 + y / 10 % 10) (48 + y % 10)
        ≡ y =
      omega arith in
    let month : two (48 + (m + 1) / 10) (48 + (m + 1) % 10) ≡ m + 1 = omega arith in
    let day : two (48 + d / 10) (48 + d % 10) ≡ d = omega arith in
    rw (format_lem y m d hy hm hd) (
      rw
        (
          digit (y / 1000) (omega arith),
          digit (y / 100 % 10) (omega arith),
          digit (y / 10 % 10) (omega arith),
          digit (y % 10) (omega arith),
          digit ((m + 1) / 10) (omega arith),
          digit ((m + 1) % 10) (omega arith),
          digit (d / 10) (omega arith),
          digit (d % 10) (omega arith),
          year,
          month,
          day,
        )
        refl)

key_of_parts_lem :
    (k : DayKey)
    → IsKey k
    → key_of_parts (record { year = k.year; month = k.month_index + 1; day = k.day }) ≡ some k
unfolding key_of_parts
key_of_parts_lem k v =
    let e : k.month_index + 1 - 1 ≡ k.month_index = omega arith in
    rw e (ground (arith, v.month_in, v.day_in))

parse-format : (k : DayKey) → IsKey k → k.year < 10000 → parse_text (text_of k) ≡ some k
unfolding parse_text
parse-format k v h =
    rw
      (
        match_format k.year k.month_index k.day h v.month_in (omega (arith, IsKey-bounds v)),
        parse_text,
      )
      (key_of_parts_lem k v)

is_digit_bounds : (c : ℕ) → is_digit c ≡ true → (48 ≤ c) × (c ≤ 57)
is_digit_bounds c e = ground arith

-- The characters of the text of ten digits.
two_bounds : (a b : ℕ) → is_digit a ≡ true → is_digit b ≡ true → two a b < 100
two_bounds a b h k = omega (arith, is_digit_bounds a h, is_digit_bounds b k)

digits_lem :
    (a b c d f g i j : ℕ)
    → (is_digit a ≡ true) × (is_digit b ≡ true) × (is_digit c ≡ true) × (is_digit d ≡ true)
    → (is_digit f ≡ true) × (is_digit g ≡ true)
    → (is_digit i ≡ true) × (is_digit j ≡ true)
    → 1 ≤ two f g
    → two f g ≤ 12
    → format_day_key (100 * two a b + two c d) (two f g - 1) (two i j)
      ≡ a ∷ b ∷ c ∷ d ∷ dash ∷ f ∷ g ∷ dash ∷ i ∷ j ∷ []
digits_lem a b c d f g i j (da, db, dc, dd) (df, dg) (di, dj) lo hi =
    let ba = is_digit_bounds a da in
    let bb = is_digit_bounds b db in
    let bc = is_digit_bounds c dc in
    let bd = is_digit_bounds d dd in
    let bf = is_digit_bounds f df in
    let bg = is_digit_bounds g dg in
    let bi = is_digit_bounds i di in
    let bj = is_digit_bounds j dj in
    let y = 100 * two a b + two c d in
    let m = two f g - 1 in
    let n = two i j in
    let e1 : 48 + y / 1000 ≡ a = omega arith in
    let e2 : 48 + y / 100 % 10 ≡ b = omega arith in
    let e3 : 48 + y / 10 % 10 ≡ c = omega arith in
    let e4 : 48 + y % 10 ≡ d = omega arith in
    let e5 : 48 + (m + 1) / 10 ≡ f = omega arith in
    let e6 : 48 + (m + 1) % 10 ≡ g = omega arith in
    let e7 : 48 + n / 10 ≡ i = omega arith in
    let e8 : 48 + n % 10 ≡ j = omega arith in
    format_lem y m n (omega arith) (omega arith) (omega arith)
    ∙ rw (e1, e2, e3, e4, e5, e6, e7, e8) refl

-- The test of the expression, taken apart.
record IsShaped (a b c d e f g h i j : ℕ) : Type 0 where
  year : (is_digit a ≡ true) × (is_digit b ≡ true) × (is_digit c ≡ true) × (is_digit d ≡ true)
  first : e ≡ dash
  month : (is_digit f ≡ true) × (is_digit g ≡ true)
  second : h ≡ dash
  day : (is_digit i ≡ true) × (is_digit j ≡ true)

shaped :
    (a b c d e f g h i j : ℕ)
    → (is_digit a
        && is_digit b
        && is_digit c
        && is_digit d
        && (e == dash)
        && (is_digit f && is_digit g && (h == dash) && is_digit i && is_digit j))
      ≡ true
    → IsShaped a b c d e f g h i j
shaped a b c d e f g h i j t =
    let (l, r) =
      and_parts _ (is_digit f && is_digit g && (h == dash) && is_digit i && is_digit j) t in
    let (l4, e5) = and_parts _ (e == dash) l in
    let (l3, e4) = and_parts _ (is_digit d) l4 in
    let (l2, e3) = and_parts _ (is_digit c) l3 in
    let (e1, e2) = and_parts (is_digit a) (is_digit b) l2 in
    let (r4, e10) = and_parts _ (is_digit j) r in
    let (r3, e9) = and_parts _ (is_digit i) r4 in
    let (r2, e8) = and_parts _ (h == dash) r3 in
    let (e6, e7) = and_parts (is_digit f) (is_digit g) r2 in
    record {
      year = (e1, e2, e3, e4);
      first = (==_iff e dash).0 e5;
      month = (e6, e7);
      second = (==_iff h dash).0 e8;
      day = (e9, e10);
    }

-- What the expression matches is the text of its parts.
match_day_key-eq_some :
    (s : Text) (p : DateParts)
    → match_day_key s ≡ some p
    → 1 ≤ p.month
    → p.month ≤ 12
    → (p.year < 10000) × (format_day_key p.year (p.month - 1) p.day ≡ s)
unfolding match_day_key
match_day_key-eq_some (a ∷ b ∷ c ∷ d ∷ e ∷ f ∷ g ∷ h ∷ i ∷ j ∷ []) p eq lo hi =
    elim (Bool-cases (
      is_digit a
      && is_digit b
      && is_digit c
      && is_digit d
      && (e == dash)
      && (is_digit f && is_digit g && (h == dash) && is_digit i && is_digit j))) [
        | inr out ↦ absurd (not_some p (rw (out, match_day_key) at eq))
        | inl inside ↦
            at_shape (shaped a b c d e f g h i j inside) p (rw (inside, match_day_key) at eq) lo hi
      ]
  where
    at_shape :
        IsShaped a b c d e f g h i j
        → (p : DateParts)
        → some (record { year = 100 * two a b + two c d; month = two f g; day = two i j }) ≡ some p
        → 1 ≤ p.month
        → p.month ≤ 12
        → (p.year < 10000)
          × (format_day_key p.year (p.month - 1) p.day ≡ a ∷ b ∷ c ∷ d ∷ e ∷ f ∷ g ∷ h ∷ i ∷ j ∷ [])
    at_shape w p same lo hi =
        let parts : record { year = 100 * two a b + two c d; month = two f g; day = two i j } ≡ p =
          cc same in
        let lo' : 1 ≤ two f g = omega (arith, ap (λ (q : DateParts). q.month) parts) in
        let hi' : two f g ≤ 12 = omega (arith, ap (λ (q : DateParts). q.month) parts) in
        rw (← parts) (
          omega (arith, two_bounds a b w.year.0 w.year.1, two_bounds c d w.year.2 w.year.3),
          rw (w.first, w.second) (digits_lem a b c d f g i j w.year w.month w.day lo' hi'),
        )
match_day_key-eq_some s p eq lo hi = cc

key_of_parts-eq_some :
    (p : DateParts) (k : DayKey)
    → key_of_parts p ≡ some k
    → (k ≡ day_key p.year (p.month - 1) p.day)
      × ((1 ≤ p.month)
          × (p.month ≤ 12)
          × (1 ≤ p.day)
          × (p.day ≤ last_day_of_month p.year (p.month - 1)))
unfolding key_of_parts
key_of_parts-eq_some p k e = ground (arith, e)

-- A text parses to a key if and only if the key is a day of the calendar of a year below 10000
-- and the text is the one that the key is printed as.
pub parse_day_key_lem :
    (s : Text) (k : DayKey)
    → (parse_day_key (text s) ≡ some k) ↔ (IsKey k × (k.year < 10000) × (s ≡ text_of k))
unfolding parse_day_key
parse_day_key_lem s k = (read s k, λ (v, h, e). rw e (parse-format k v h))
  where
    read :
        (s : Text) (k : DayKey)
        → parse_text s ≡ some k
        → IsKey k × (k.year < 10000) × (s ≡ text_of k)
    read s k e = elim (Option-cases (match_day_key s)) [
      | inl out ↦ absurd (not_some k (rw (out, parse_text) at e))
      | inr (p, found) ↦
          let key : key_of_parts p ≡ some k = rw (found, parse_text) at e in
          let (same, (lo, hi, first, last)) = key_of_parts-eq_some p k key in
          let (small, whole_text) = match_day_key-eq_some s p found lo hi in
          rw same (record { month_in = omega arith; day_in = (first, last) }, small, sym whole_text)
    ]

format_parts :
    (y m d : ℕ) → format_day_key y m d ≡ pad y 4 ++ dash ∷ (pad (m + 1) 2 ++ dash ∷ pad d 2)
unfolding format_day_key
format_parts y m d = refl

-- The order of the texts of two days is the order of the days. Both are days of the calendar,
-- of years below 10000.
pub text_lt-key_lt :
    (a b : DayKey)
    → IsKey a
    → IsKey b
    → a.year < 10000
    → b.year < 10000
    → text_lt (text_of a) (text_of b) ≡ key_lt a b
unfolding text_lt key_lt
text_lt-key_lt a b va vb ha hb =
    let ba = IsKey-bounds va in
    let bb = IsKey-bounds vb in
    let days = text_lt-two_end a.day b.day (omega (arith, ba)) (omega (arith, bb)) in
    let months =
      text_lt-two (a.month_index + 1) (b.month_index + 1) (dash ∷ pad a.day 2) (dash ∷ pad b.day 2)
        (omega (arith, ba)) (omega (arith, bb)) in
    rw (format_parts a.year a.month_index a.day, format_parts b.year b.month_index b.day)
      (text_lt-four a.year b.year _ _ ha hb ∙ rw (months, days) (ground arith))
