-- ===== src/Assets/Timeline.antt =====
-- `isAssetTimelineValid` and `calculateAssetAccounting` (`backend/src/lib/asset-accounting.ts`).
use demanage.Prelude.{
  ℕ, ◌≡◌, refl, sym, ap, ◌∙◌, inl, inr, true, false, not, ◌&&◌, ◌||◌, none, some, List, [], ◌∷◌,
  All, arith, Bool-cases, Option-cases, filter, ◌==◌, if◌then◌else◌,
}
use demanage.Prelude.Int.{ℤ, pos, ◌+ℤ◌, ◌-ℤ◌, ◌≤ℤ◌, int_laws}
use demanage.Prelude.Decimals.{Decimals, IsExact}
use demanage.Billing.Charges.Totals.{sum_of}
use demanage.Assets.{
  AssetTransactionType, buy, sell, manual_adjustment, fee_of, AccountingTransaction, Buckets,
  sort_transactions, timeline_step, timeline_from, is_asset_timeline_valid, remove_from_buckets,
  Removal, remove_part, sell_by, adjust_by, buy_step, sell_step, adjustment_step, step_of,
  accounting_step, accounting_from, no_buckets, calculate_asset_accounting,
}
use demanage.Assets.Sorting.{sort_transactions-All, sum_of-sort_transactions}
use demanage.Assets.Removals.{
  remove_from_buckets-IsRemoval, lt_false, lt_zero, zero_lt, not_below, eq_true,
}

some_inj {ℓ} : {A : Type ℓ} {a b : A} → some a ≡ some b → b ≡ a
some_inj e = cc

no_none {ℓ} : {A : Type ℓ} {a : A} → none ≡ some a → ⊥
no_none e = cc

not_true : false ≡ true → ⊥
not_true e = cc

filter-All :
    {D : Type 0} (asset : ℕ) (ts : List (AccountingTransaction D))
    → All (λ t. t.asset ≡ asset) ts
    → filter (λ t. t.asset == asset) ts ≡ ts
filter-All asset [] h = refl
filter-All asset (t ∷ ts) h =
    let same : (t.asset == asset) ≡ true = ground (arith, h.0) in
    simp (same, filter-All asset ts h.1)

module _ {dec : Decimals} (x : IsExact dec) where
  abbrev TradeOf : AssetTransactionType → ℤ → Type 0
  TradeOf buy q = pos 0 ≤ℤ q
  TradeOf sell q = pos 0 ≤ℤ q
  TradeOf manual_adjustment q = Unit

  abbrev signed_of : AssetTransactionType → ℤ → ℤ
  signed_of buy q = q
  signed_of sell q = pos 0 -ℤ q
  signed_of manual_adjustment q = q

  -- A purchase or a sale is not of a negative quantity.
  abbrev pub IsTrade : AccountingTransaction dec.Decimal → Type 0
  IsTrade t = TradeOf t.kind (x.scaled t.quantity)

  -- What a transaction adds to what is held.
  abbrev pub signed_quantity : AccountingTransaction dec.Decimal → ℤ
  signed_quantity t = signed_of t.kind (x.scaled t.quantity)

  -- Both buckets are not below zero, and hold a quantity together.
  record Holds (known unknown : dec.Decimal) (held : ℤ) : Type 0 where
    known_nonneg : pos 0 ≤ℤ x.scaled known
    unknown_nonneg : pos 0 ≤ℤ x.scaled unknown
    together : x.scaled known +ℤ x.scaled unknown ≡ held

  abbrev State : Buckets dec.Decimal → ℤ → Type 0
  State s held = Holds s.known_qty s.unknown_qty held

  Holds-add :
      (k u q : dec.Decimal) (held : ℤ)
      → Holds k u held
      → pos 0 ≤ℤ x.scaled q
      → Holds (dec.plus k q) u (held +ℤ x.scaled q) × Holds k (dec.plus u q) (held +ℤ x.scaled q)
  Holds-add k u q held h p =
      let ek = x.scaled-plus k q in
      let eu = x.scaled-plus u q in
      (
        record {
          known_nonneg = rw ek (omega (int_laws, h.known_nonneg));
          unknown_nonneg = h.unknown_nonneg;
          together = rw (ek, ← h.together) (omega int_laws);
        },
        record {
          known_nonneg = h.known_nonneg;
          unknown_nonneg = rw eu (omega (int_laws, h.unknown_nonneg));
          together = rw (eu, ← h.together) (omega int_laws);
        },
      )

  Holds-same :
      (k u : dec.Decimal) (held held' : ℤ) → Holds k u held → held ≡ held' → Holds k u held'
  Holds-same k u held held' h e = rw (← e) h

  -- A removal of what is held takes it from both together.
  Holds-remove :
      (k u cost q : dec.Decimal) (held : ℤ)
      → Holds k u held
      → pos 0 ≤ℤ x.scaled q
      → x.scaled q ≤ℤ held
      → let r = remove_from_buckets dec k u cost q in
        Holds r.known_qty r.unknown_qty (held -ℤ x.scaled q)
  Holds-remove k u cost q held h p le =
      let r = remove_from_buckets dec k u cost q in
      let v = remove_from_buckets-IsRemoval x k u cost q h.known_nonneg h.unknown_nonneg p in
      let le' : x.scaled q ≤ℤ x.scaled k +ℤ x.scaled u = rw h.together le in
      let all = v.all_of_it le' in
      record {
        known_nonneg = v.known_nonneg;
        unknown_nonneg = v.unknown_nonneg;
        together =
            rw (v.known_left, v.unknown_left, ← all, ← v.parts, ← h.together) (omega int_laws);
      }

  buy_step-State :
      (s : Buckets dec.Decimal) (t : AccountingTransaction dec.Decimal) (held : ℤ)
      → State s held
      → pos 0 ≤ℤ x.scaled t.quantity
      → State (buy_step dec s t) (held +ℤ x.scaled t.quantity)
  unfolding buy_step
  buy_step-State s t held h q =
      let added = Holds-add s.known_qty s.unknown_qty t.quantity held h q in
      elim (Bool-cases (dec.lt (dec.of_ℕ 0) t.quantity)) [
        | inr none_bought ↦
            let z = lt_zero x t.quantity none_bought in
            simp none_bought (Holds-same _ _ held _ h (omega (int_laws, z)))
        | inl bought ↦ elim (Bool-cases t.cost_basis_known) [
          | inl known ↦ simp (bought, known) added.0
          | inr unknown ↦ simp (bought, unknown) added.1
        ]
      ]

  -- The total is that of the buckets.
  removal_total :
      (k u cost q : dec.Decimal) → (remove_from_buckets dec k u cost q).total ≡ dec.plus k u
  unfolding remove_from_buckets remove_part
  removal_total k u cost q =
      let total = dec.plus k u in
      let removed = if not (dec.lt total q) then q else total in
      elim (Bool-cases (not (dec.lt (dec.of_ℕ 0) total) || not (dec.lt (dec.of_ℕ 0) q))) [
        | inl nothing ↦ rw nothing refl
        | inr something ↦ elim (Bool-cases (dec.eq removed total)) [
          | inl all ↦ rw (something, all) refl
          | inr part ↦ rw (something, part) refl
        ]
      ]

  sell_by-State :
      (s : Buckets dec.Decimal) (t : AccountingTransaction dec.Decimal) (r : Removal dec.Decimal)
      (held : ℤ)
      → State s held
      → pos 0 ≤ℤ x.scaled t.quantity
      → x.scaled t.quantity ≤ℤ held
      → r.total ≡ dec.plus s.known_qty s.unknown_qty
      → Holds r.known_qty r.unknown_qty (held -ℤ x.scaled t.quantity)
      → State (sell_by dec s t r) (held +ℤ (pos 0 -ℤ x.scaled t.quantity))
  unfolding sell_by
  sell_by-State s t r held h q le total v = elim (Bool-cases (dec.lt (dec.of_ℕ 0) t.quantity)) [
    | inr none_sold ↦
        let z = lt_zero x t.quantity none_sold in
        simp none_sold (Holds-same _ _ held _ h (omega (int_laws, z)))
    | inl sold ↦ elim (Bool-cases (dec.lt (dec.of_ℕ 0) r.total)) [
      | inr empty ↦
          let z = lt_zero x r.total empty in
          let z' = rw (total, x.scaled-plus s.known_qty s.unknown_qty, h.together) at z in
          simp (sold, empty) (Holds-same _ _ held _ h (omega (int_laws, z')))
      | inl some_held ↦ simp (sold, some_held) (Holds-same _ _ _ _ v (omega int_laws))
    ]
  ]

  adjust_by-State :
      (s : Buckets dec.Decimal) (t : AccountingTransaction dec.Decimal) (r : Removal dec.Decimal)
      (held : ℤ)
      → State s held
      → pos 0 ≤ℤ held +ℤ x.scaled t.quantity
      → r.total ≡ dec.plus s.known_qty s.unknown_qty
      → (x.scaled t.quantity ≤ℤ pos 0
          → Holds r.known_qty r.unknown_qty (held +ℤ x.scaled t.quantity))
      → State (adjust_by dec s t r) (held +ℤ x.scaled t.quantity)
  unfolding adjust_by
  adjust_by-State s t r held h q total v = elim (Bool-cases (dec.eq t.quantity (dec.of_ℕ 0))) [
    | inl zero_quantity ↦
        let z = eq_true x t.quantity (dec.of_ℕ 0) zero_quantity ∙ x.scaled-zero in
        simp zero_quantity (Holds-same _ _ held _ h (rw z (omega int_laws)))
    | inr some_quantity ↦ elim (Bool-cases (dec.lt (dec.of_ℕ 0) t.quantity)) [
      | inl more ↦
          let added =
            Holds-add s.known_qty s.unknown_qty t.quantity held h (zero_lt x t.quantity more) in
          elim (Bool-cases (t.cost_basis_known && dec.lt (dec.of_ℕ 0) t.cash_amount_brl)) [
            | inl known ↦ simp (some_quantity, more, known) added.0
            | inr unknown ↦ simp (some_quantity, more, unknown) added.1
          ]
      | inr less ↦
          let n = lt_zero x t.quantity less in
          elim (Bool-cases (dec.lt (dec.of_ℕ 0) r.total)) [
            | inr empty ↦
                let z = lt_zero x r.total empty in
                let z' = rw (total, x.scaled-plus s.known_qty s.unknown_qty, h.together) at z in
                simp (some_quantity, less, empty)
                  (Holds-same _ _ held _ h (omega (int_laws, z', n)))
            | inl some_held ↦ simp (some_quantity, less, some_held) (v n)
          ]
    ]
  ]

  sell_step-State :
      (s : Buckets dec.Decimal) (t : AccountingTransaction dec.Decimal) (held : ℤ)
      → State s held
      → pos 0 ≤ℤ x.scaled t.quantity
      → x.scaled t.quantity ≤ℤ held
      → State (sell_step dec s t) (held +ℤ (pos 0 -ℤ x.scaled t.quantity))
  unfolding sell_step
  sell_step-State s t held h q le =
      sell_by-State s t (remove_from_buckets dec s.known_qty s.unknown_qty s.known_cost t.quantity)
        held h q le (removal_total s.known_qty s.unknown_qty s.known_cost t.quantity)
        (Holds-remove s.known_qty s.unknown_qty s.known_cost t.quantity held h q le)

  adjustment_step-State :
      (s : Buckets dec.Decimal) (t : AccountingTransaction dec.Decimal) (held : ℤ)
      → State s held
      → pos 0 ≤ℤ held +ℤ x.scaled t.quantity
      → State (adjustment_step dec s t) (held +ℤ x.scaled t.quantity)
  unfolding adjustment_step
  adjustment_step-State s t held h q =
      let n = dec.negated t.quantity in
      let e = x.scaled-negated t.quantity in
      adjust_by-State s t (remove_from_buckets dec s.known_qty s.unknown_qty s.known_cost n) held h
        q (removal_total s.known_qty s.unknown_qty s.known_cost n)
        (λ less.
          Holds-same _ _ _ _
            (Holds-remove s.known_qty s.unknown_qty s.known_cost n held h
              (rw e (omega (int_laws, less))) (rw e (omega (int_laws, q))))
            (rw e (omega int_laws)))

  -- What a round of the one loop lets pass, the other carries out.
  step_of-State :
      (k : AssetTransactionType) (s : Buckets dec.Decimal) (t : AccountingTransaction dec.Decimal)
      (balance after : dec.Decimal)
      → State s (x.scaled balance)
      → TradeOf k (x.scaled t.quantity)
      → timeline_step dec k balance t.quantity ≡ some after
      → State (step_of dec k s t) (x.scaled after)
        × (x.scaled after ≡ x.scaled balance +ℤ signed_of k (x.scaled t.quantity))
  unfolding step_of timeline_step
  step_of-State buy s t balance after h trade ok =
      let e : x.scaled after ≡ x.scaled balance +ℤ x.scaled t.quantity =
        ap x.scaled (some_inj ok) ∙ x.scaled-plus balance t.quantity in
      (Holds-same _ _ _ _ (buy_step-State s t (x.scaled balance) h trade) (sym e), e)
  step_of-State sell s t balance after h trade ok = elim (Bool-cases (dec.lt balance t.quantity)) [
    | inl short ↦ absurd (no_none (rw short at ok))
    | inr covered ↦
        let e : x.scaled after ≡ x.scaled balance +ℤ (pos 0 -ℤ x.scaled t.quantity) =
          ap x.scaled (some_inj (rw covered at ok))
          ∙ x.scaled-minus balance t.quantity
          ∙ omega int_laws in
        (
          Holds-same _ _ _ _
              (sell_step-State s t (x.scaled balance) h trade
                (lt_false x balance t.quantity covered))
              (sym e),
          e,
        )
  ]
  step_of-State manual_adjustment s t balance after h trade ok =
      elim (Bool-cases (dec.lt (dec.plus balance t.quantity) (dec.of_ℕ 0))) [
        | inl short ↦ absurd (no_none (rw short at ok))
        | inr covered ↦
            let e : x.scaled after ≡ x.scaled balance +ℤ x.scaled t.quantity =
              ap x.scaled (some_inj (rw covered at ok)) ∙ x.scaled-plus balance t.quantity in
            let n = not_below x (dec.plus balance t.quantity) covered in
            let n' = rw (x.scaled-plus balance t.quantity) at n in
            (Holds-same _ _ _ _ (adjustment_step-State s t (x.scaled balance) h n') (sym e), e)
      ]

  accounting_from-State :
      (ts : List (AccountingTransaction dec.Decimal)) (s : Buckets dec.Decimal)
      (balance : dec.Decimal)
      → State s (x.scaled balance)
      → All IsTrade ts
      → timeline_from dec balance ts ≡ true
      → State (accounting_from dec s ts) (x.scaled balance +ℤ sum_of signed_quantity ts)
  unfolding accounting_from accounting_step timeline_from
  accounting_from-State [] s balance h trades ok = Holds-same _ _ _ _ h (omega int_laws)
  accounting_from-State (t ∷ ts) s balance h trades ok =
      let paid : Buckets dec.Decimal = record s {
        fees = dec.plus s.fees (fee_of dec t.fee_amount_brl);
      } in
      elim (Option-cases (timeline_step dec t.kind balance t.quantity)) [
        | inl stop ↦ absurd (not_true (rw (stop, timeline_from) at ok))
        | inr (after, found) ↦
            let step = step_of-State t.kind paid t balance after h trades.0 found in
            Holds-same _ _ _ _
              (accounting_from-State ts (step_of dec t.kind paid t) after step.0 trades.1
                (rw (found, timeline_from) at ok))
              (rw step.1 (omega int_laws))
      ]

  -- Where the timeline of the transactions of an asset is valid, the accounting ends with the
  -- sum of their signed quantities, and neither bucket is below zero. The transactions are all
  -- of the asset, the purchases and sales are not of negative quantities, and the decimals are
  -- exact.
  pub calculate_asset_accounting_lem :
      (asset : ℕ) (input : List (AccountingTransaction dec.Decimal))
      → All (λ t. t.asset ≡ asset) input
      → All IsTrade input
      → is_asset_timeline_valid dec input ≡ true
      → let a = calculate_asset_accounting dec asset input in
        (x.scaled a.quantity ≡ sum_of signed_quantity input)
        × (pos 0 ≤ℤ x.scaled a.known_quantity)
        × (pos 0 ≤ℤ x.scaled a.unknown_quantity)
  unfolding calculate_asset_accounting is_asset_timeline_valid
  calculate_asset_accounting_lem asset input mine trades ok =
      let sorted = sort_transactions input in
      let start : State (no_buckets dec) (x.scaled (dec.of_ℕ 0)) = record {
        known_nonneg = rw x.scaled-zero (omega arith);
        unknown_nonneg = rw x.scaled-zero (omega arith);
        together = rw x.scaled-zero (omega int_laws);
      } in
      let final =
        accounting_from-State sorted (no_buckets dec) (dec.of_ℕ 0) start
          (sort_transactions-All IsTrade input trades) ok in
      let end = accounting_from dec (no_buckets dec) sorted in
      rw (filter-All asset input mine) (
        x.scaled-plus end.known_qty end.unknown_qty
            ∙ final.together
            ∙ rw (x.scaled-zero, sum_of-sort_transactions signed_quantity input) (omega int_laws),
        final.known_nonneg,
        final.unknown_nonneg,
      )
