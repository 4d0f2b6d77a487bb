-- ===== src/Piggy/Ledger.antt =====
-- The balance of a piggy bank (`backend/src/lib/piggy/ledger.ts`).
use demanage.Prelude.{◌≡◌, refl, ◌∙◌, ap, Bool, true, false, List, [], ◌∷◌, ◌++◌, if◌then◌else◌}
use demanage.Prelude.Int.{ℤ, pos, ◌+ℤ◌, ◌-ℤ◌, int_laws}
use demanage.Prelude.Decimals.{Decimals, IsExact}
use demanage.Billing.Charges.Totals.{sum_of}

-- Every text but `withdraw` adds.
pub data LedgerType : Type 0 where
  deposit withdraw interest other : LedgerType

pub record LedgerEntry (D : Type 0) : Type 0 where
  pub kind : LedgerType
  pub amount : D

abbrev pub is_withdraw : LedgerType → Bool
is_withdraw withdraw = true
is_withdraw _ = false

module _ (dec : Decimals) where
  open dec use {Decimal, of_ℕ, plus, negated}

  unfoldable pub signed_amount : LedgerType → Decimal → Decimal
  signed_amount kind amount = if is_withdraw kind then negated amount else amount

  -- The loop, from a balance on.
  unfoldable pub balance_from : Decimal → List (LedgerEntry Decimal) → Decimal
  unfolding signed_amount
  balance_from balance [] = balance
  balance_from balance (t ∷ ts) = balance_from (plus balance (signed_amount t.kind t.amount)) ts

  unfoldable pub balance_decimal_from_transactions : List (LedgerEntry Decimal) → Decimal
  unfolding balance_from
  balance_decimal_from_transactions ts = balance_from (of_ℕ 0) ts

  unfoldable pub prefix_sums_from : Decimal → List (LedgerEntry Decimal) → List Decimal
  unfolding signed_amount
  prefix_sums_from balance [] = []
  prefix_sums_from balance (t ∷ ts) =
      let next = plus balance (signed_amount t.kind t.amount) in next ∷ prefix_sums_from next ts

  unfoldable pub balance_prefix_sums : List (LedgerEntry Decimal) → List Decimal
  unfolding prefix_sums_from
  balance_prefix_sums ts = prefix_sums_from (of_ℕ 0) ts

  prefix_sums_from_snoc :
      (balance : Decimal) (ts : List (LedgerEntry Decimal)) (t : LedgerEntry Decimal)
      → prefix_sums_from balance (ts ++ t ∷ [])
        ≡ prefix_sums_from balance ts ++ balance_from balance (ts ++ t ∷ []) ∷ []
  unfolding prefix_sums_from balance_from
  prefix_sums_from_snoc balance [] t = refl
  prefix_sums_from_snoc balance (u ∷ ts) t =
      let next = plus balance (signed_amount u.kind u.amount) in
      ap (λ xs. next ∷ xs) (prefix_sums_from_snoc next ts t)

  -- The running totals of a ledger with a transaction at its end are those of the ledger,
  -- followed by the balance of all of it.
  pub balance_prefix_sums_lem :
      (ts : List (LedgerEntry Decimal)) (t : LedgerEntry Decimal)
      → balance_prefix_sums (ts ++ t ∷ [])
        ≡ balance_prefix_sums ts ++ balance_decimal_from_transactions (ts ++ t ∷ []) ∷ []
  unfolding balance_prefix_sums balance_decimal_from_transactions
  balance_prefix_sums_lem ts t = prefix_sums_from_snoc (of_ℕ 0) ts t

module _ {dec : Decimals} (x : IsExact dec) where
  abbrev pub put_in : LedgerEntry dec.Decimal → ℤ
  put_in t = if is_withdraw t.kind then pos 0 else x.scaled t.amount

  abbrev pub taken_out : LedgerEntry dec.Decimal → ℤ
  taken_out t = if is_withdraw t.kind then x.scaled t.amount else pos 0

  signed_amount_lem :
      (t : LedgerEntry dec.Decimal)
      → x.scaled (signed_amount dec t.kind t.amount) ≡ put_in t -ℤ taken_out t
  unfolding signed_amount
  signed_amount_lem t = go t.kind t.amount
    where
      go :
          (k : LedgerType) (a : dec.Decimal)
          → x.scaled (if is_withdraw k then dec.negated a else a)
            ≡ (if is_withdraw k then pos 0 else x.scaled a)
              -ℤ (if is_withdraw k then x.scaled a else pos 0)
      go withdraw a = x.scaled-negated a
      go deposit a = omega int_laws
      go interest a = omega int_laws
      go other a = omega int_laws

  balance_from_lem :
      (balance : dec.Decimal) (ts : List (LedgerEntry dec.Decimal))
      → x.scaled (balance_from dec balance ts)
        ≡ x.scaled balance +ℤ (sum_of put_in ts -ℤ sum_of taken_out ts)
  unfolding balance_from
  balance_from_lem balance [] = omega int_laws
  balance_from_lem balance (t ∷ ts) =
      balance_from_lem (dec.plus balance (signed_amount dec t.kind t.amount)) ts
      ∙ rw (x.scaled-plus balance (signed_amount dec t.kind t.amount), signed_amount_lem t)
          (omega int_laws)

  -- The balance is the sum of what was put in less the sum of what was taken out; the decimals
  -- are exact.
  pub balance_decimal_from_transactions_lem :
      (ts : List (LedgerEntry dec.Decimal))
      → x.scaled (balance_decimal_from_transactions dec ts)
        ≡ sum_of put_in ts -ℤ sum_of taken_out ts
  unfolding balance_decimal_from_transactions
  balance_decimal_from_transactions_lem ts =
      balance_from_lem (dec.of_ℕ 0) ts ∙ rw x.scaled-zero (omega int_laws)
