-- ===== src/Assets/Removals.antt =====
-- `removeFromBuckets` (`backend/src/lib/asset-accounting.ts`).
use demanage.Prelude.{
  ◌≡◌, refl, sym, ◌∙◌, inl, inr, true, false, not, arith, Bool-cases, if◌then◌else◌,
}
use demanage.Prelude.Int.{pos, ◌+ℤ◌, ◌-ℤ◌, ◌≤ℤ◌, ltb_ℤ, eq_ℤ, eq_of_parts, int_laws}
use demanage.Prelude.Decimals.{Decimals, IsExact}
use demanage.Assets.{Removal, bounded, remove_part, remove_from_buckets}

-- What the removal of `requested` from two buckets promises.
pub record IsRemoval {dec : Decimals} (x : IsExact dec) (known unknown requested : dec.Decimal)
    (r : Removal dec.Decimal) : Type 0 where
  pub parts : x.scaled r.removed_known +ℤ x.scaled r.removed_unknown ≡ x.scaled r.removed
  pub known_left : x.scaled r.known_qty ≡ x.scaled known -ℤ x.scaled r.removed_known
  pub unknown_left : x.scaled r.unknown_qty ≡ x.scaled unknown -ℤ x.scaled r.removed_unknown
  pub known_nonneg : pos 0 ≤ℤ x.scaled r.known_qty
  pub unknown_nonneg : pos 0 ≤ℤ x.scaled r.unknown_qty
  pub all_of_it :
      x.scaled requested ≤ℤ x.scaled known +ℤ x.scaled unknown
      → x.scaled r.removed ≡ x.scaled requested
  pub no_more : x.scaled r.removed ≤ℤ x.scaled known +ℤ x.scaled unknown

module _ {dec : Decimals} (x : IsExact dec) where
  pub lt_true : (a b : dec.Decimal) → dec.lt a b ≡ true → ltb_ℤ (x.scaled a) (x.scaled b) ≡ true
  lt_true a b e = sym (x.lt-scaled a b) ∙ e

  pub lt_false : (a b : dec.Decimal) → dec.lt a b ≡ false → x.scaled b ≤ℤ x.scaled a
  lt_false a b e =
      let f : ltb_ℤ (x.scaled a) (x.scaled b) ≡ false = sym (x.lt-scaled a b) ∙ e in
      ground (arith, f)

  pub lt_le : (a b : dec.Decimal) → dec.lt a b ≡ true → x.scaled a ≤ℤ x.scaled b
  lt_le a b e = let f = lt_true a b e in ground (arith, f)

  pub lt_zero : (a : dec.Decimal) → dec.lt (dec.of_ℕ 0) a ≡ false → x.scaled a ≤ℤ pos 0
  lt_zero a e = let f = lt_false (dec.of_ℕ 0) a e in rw x.scaled-zero at f

  pub zero_lt : (a : dec.Decimal) → dec.lt (dec.of_ℕ 0) a ≡ true → pos 0 ≤ℤ x.scaled a
  zero_lt a e = let f = lt_le (dec.of_ℕ 0) a e in rw x.scaled-zero at f

  below_zero : (a : dec.Decimal) → dec.lt a (dec.of_ℕ 0) ≡ true → x.scaled a ≤ℤ pos 0
  below_zero a e = let f = lt_le a (dec.of_ℕ 0) e in rw x.scaled-zero at f

  pub not_below : (a : dec.Decimal) → dec.lt a (dec.of_ℕ 0) ≡ false → pos 0 ≤ℤ x.scaled a
  not_below a e = let f = lt_false a (dec.of_ℕ 0) e in rw x.scaled-zero at f

  pub eq_true : (a b : dec.Decimal) → dec.eq a b ≡ true → x.scaled a ≡ x.scaled b
  eq_true a b e =
      let f : eq_ℤ (x.scaled a) (x.scaled b) ≡ true = sym (x.eq-scaled a b) ∙ e in
      eq_of_parts _ _ (ground (arith, f))

  -- A value is kept from rising over `most`, and from falling below `least`.
  at_most :
      (most part : dec.Decimal)
      → let a = if dec.lt most part then most else part in x.scaled a ≤ℤ x.scaled most
  at_most most part = elim (Bool-cases (dec.lt most part)) [
    | inl over ↦ rw over (omega arith)
    | inr within ↦ rw within (lt_false most part within)
  ]

  at_least :
      (least a most : dec.Decimal)
      → x.scaled a ≤ℤ x.scaled most
      → x.scaled least ≤ℤ x.scaled most
      → let b = if dec.lt a least then least else a in
        (x.scaled b ≤ℤ x.scaled most) × (x.scaled least ≤ℤ x.scaled b)
  at_least least a most h k = elim (Bool-cases (dec.lt a least)) [
    | inl under ↦ rw under (k, omega arith)
    | inr within ↦ rw within (h, lt_false a least within)
  ]

  pub bounded_lem :
      (most least part : dec.Decimal)
      → pos 0 ≤ℤ x.scaled most
      → x.scaled least ≤ℤ x.scaled most
      → let k = bounded dec most least part in
        (pos 0 ≤ℤ x.scaled k) × (x.scaled k ≤ℤ x.scaled most) × (x.scaled least ≤ℤ x.scaled k)
  bounded_lem most least part h k =
      let a = if dec.lt most part then most else part in
      let b = if dec.lt a least then least else a in
      let hb = at_least least a most (at_most most part) k in
      elim (Bool-cases (dec.lt b (dec.of_ℕ 0))) [
        | inl under ↦
            rw (under, x.scaled-zero) (omega arith, h, omega (arith, hb, below_zero b under))
        | inr within ↦ rw within (not_below b within, hb.0, hb.1)
      ]

  module _ (known unknown cost requested : dec.Decimal) (hk : pos 0 ≤ℤ x.scaled known)
      (hu : pos 0 ≤ℤ x.scaled unknown) where
    remove_part_lem :
        (removed : dec.Decimal)
        → pos 0 ≤ℤ x.scaled removed
        → x.scaled removed ≤ℤ x.scaled known +ℤ x.scaled unknown
        → (x.scaled requested ≤ℤ x.scaled known +ℤ x.scaled unknown
            → x.scaled removed ≡ x.scaled requested)
        → IsRemoval x known unknown requested (remove_part dec known unknown cost removed)
    unfolding remove_part
    remove_part_lem removed h le all =
        let most = if not (dec.lt known removed) then removed else known in
        let part = dec.to_quantity (dec.over (dec.times removed known) (dec.plus known unknown)) in
        let least = dec.minus removed unknown in
        let (m0, mk, mr, ml) = most_lem removed h le in
        let k = bounded dec most least part in
        let (k0, km, kl) = bounded_lem most least part m0 ml in
        let kl' = rw (x.scaled-minus removed unknown) at kl in
        let eu = x.scaled-minus removed k in
        let ek = x.scaled-minus known k in
        let en = x.scaled-minus unknown (dec.minus removed k) in
        record {
          parts = rw eu (omega int_laws);
          known_left = ek;
          unknown_left = en;
          known_nonneg = rw ek (omega (int_laws, km, mk));
          unknown_nonneg = rw (en, eu) (omega (int_laws, kl'));
          all_of_it = all;
          no_more = le;
        }
      where
        most_lem :
            (removed : dec.Decimal)
            → pos 0 ≤ℤ x.scaled removed
            → x.scaled removed ≤ℤ x.scaled known +ℤ x.scaled unknown
            → let most = if not (dec.lt known removed) then removed else known in
              (pos 0 ≤ℤ x.scaled most)
              × (x.scaled most ≤ℤ x.scaled known)
              × (x.scaled most ≤ℤ x.scaled removed)
              × (x.scaled (dec.minus removed unknown) ≤ℤ x.scaled most)
        most_lem removed h le = elim (Bool-cases (dec.lt known removed)) [
          | inl over ↦
              let o = lt_le known removed over in
              rw (over, x.scaled-minus removed unknown) (hk, omega arith, o, omega int_laws)
          | inr within ↦
              let o = lt_false known removed within in
              rw (within, x.scaled-minus removed unknown) (h, o, omega arith, omega int_laws)
        ]

    -- Nothing is removed.
    abbrev nothing : Removal dec.Decimal
    nothing = record {
      total = dec.plus known unknown;
      removed = dec.of_ℕ 0;
      removed_known = dec.of_ℕ 0;
      removed_unknown = dec.of_ℕ 0;
      removed_known_cost = dec.of_ℕ 0;
      known_qty = known;
      unknown_qty = unknown;
      known_cost = cost;
    }

    nothing-IsRemoval :
        (x.scaled requested ≤ℤ x.scaled known +ℤ x.scaled unknown → pos 0 ≡ x.scaled requested)
        → IsRemoval x known unknown requested nothing
    nothing-IsRemoval all = record {
      parts = rw x.scaled-zero (omega int_laws);
      known_left = rw x.scaled-zero (omega int_laws);
      unknown_left = rw x.scaled-zero (omega int_laws);
      known_nonneg = hk;
      unknown_nonneg = hu;
      all_of_it = λ le. x.scaled-zero ∙ all le;
      no_more = rw x.scaled-zero (omega int_laws);
    }

    everything-IsRemoval :
        (removed : dec.Decimal)
        → x.scaled removed ≡ x.scaled known +ℤ x.scaled unknown
        → (x.scaled requested ≤ℤ x.scaled known +ℤ x.scaled unknown
            → x.scaled removed ≡ x.scaled requested)
        → IsRemoval x known unknown requested (record {
          total = dec.plus known unknown;
          removed = removed;
          removed_known = known;
          removed_unknown = unknown;
          removed_known_cost = cost;
          known_qty = dec.of_ℕ 0;
          unknown_qty = dec.of_ℕ 0;
          known_cost = dec.of_ℕ 0;
        })
    everything-IsRemoval removed e all = record {
      parts = sym e;
      known_left = rw x.scaled-zero (omega int_laws);
      unknown_left = rw x.scaled-zero (omega int_laws);
      known_nonneg = rw x.scaled-zero (omega arith);
      unknown_nonneg = rw x.scaled-zero (omega arith);
      all_of_it = all;
      no_more = rw e (omega arith);
    }

    removed_lem :
        pos 0 ≤ℤ x.scaled requested
        → let removed =
            if not (dec.lt (dec.plus known unknown) requested)
            then requested
            else dec.plus known unknown in
          (pos 0 ≤ℤ x.scaled removed)
          × (x.scaled removed ≤ℤ x.scaled known +ℤ x.scaled unknown)
          × (x.scaled requested ≤ℤ x.scaled known +ℤ x.scaled unknown
              → x.scaled removed ≡ x.scaled requested)
    removed_lem h =
        let total = dec.plus known unknown in
        let et = x.scaled-plus known unknown in
        elim (Bool-cases (dec.lt total requested)) [
          | inl over ↦
              let o = lt_le total requested over in
              let o' = rw et at o in
              rw (over, et) (omega int_laws, omega arith, λ le. omega (int_laws, o', le))
          | inr within ↦
              let o = lt_false total requested within in
              let o' = rw et at o in rw within (h, o', λ le. refl)
        ]

    -- A removal from two buckets that are not below zero, of a quantity that is not negative,
    -- is split over the two without loss: the parts add up to what is removed, each bucket
    -- loses its part and neither goes below zero, no more than is held is removed, and all that
    -- is asked for where so much is held. The decimals are exact.
    pub remove_from_buckets-IsRemoval :
        pos 0 ≤ℤ x.scaled requested
        → IsRemoval x known unknown requested (remove_from_buckets dec known unknown cost requested)
    unfolding remove_from_buckets
    remove_from_buckets-IsRemoval h =
        let total = dec.plus known unknown in
        let et = x.scaled-plus known unknown in
        let removed = if not (dec.lt total requested) then requested else total in
        let (r0, rt, ra) = removed_lem h in
        elim (Bool-cases (dec.lt (dec.of_ℕ 0) total)) [
          | inr empty ↦
              let t = lt_zero total empty in
              let t' = rw et at t in rw empty (nothing-IsRemoval (λ le. omega (int_laws, t')))
          | inl some_held ↦ elim (Bool-cases (dec.lt (dec.of_ℕ 0) requested)) [
            | inr none_wanted ↦
                let q = lt_zero requested none_wanted in
                rw (some_held, none_wanted) (nothing-IsRemoval (λ le. omega (int_laws, q)))
            | inl wanted ↦ elim (Bool-cases (dec.eq removed total)) [
              | inl all ↦
                  rw (some_held, wanted, all)
                    (everything-IsRemoval removed (eq_true removed total all ∙ et) ra)
              | inr part ↦ rw (some_held, wanted, part) (remove_part_lem removed r0 rt ra)
            ]
          ]
        ]
