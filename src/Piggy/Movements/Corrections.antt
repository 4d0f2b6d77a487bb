-- ===== src/Piggy/Movements/Corrections.antt =====
-- What corrections take out of the deposits that they reverse (`validateCorrectionSource` of
-- `backend/src/lib/piggy/transactions.ts`).
use mathlib.Core.Path.{subst}
use demanage.Prelude.{
  ℕ, ◌≡◌, refl, ◌∙◌, Bool, true, false, not, ◌&&◌, ◌||◌, Option, none, some, List, [], ◌∷◌, ◌++◌,
  any, if◌then◌else◌, Bool-cases, Option-cases, inl, inr, arith,
}
use demanage.Prelude.Int.{ℤ, pos, ◌+ℤ◌, ◌-ℤ◌, ◌≤ℤ◌, ltb_ℤ, +ℤ_parts, -ℤ_parts, int_laws}
use demanage.Prelude.Decimals.{Decimals, IsExact}
use demanage.Billing.Charges.Totals.{sum_of}
use demanage.CivilDate.{DayKey, Instant}
use demanage.Piggy.Ledger.{is_withdraw}
use demanage.Piggy.AutoDebit.{is_deposit}
use demanage.Piggy.Store.{
  PiggyTransaction, PiggyBank, StoredExpense, Store, CorrectionOrigin, debited, not_debited, ok,
  throw, PiggyError, find_bank,
}
use demanage.Piggy.Deposit.{is_set, bank_balance}
use demanage.Piggy.Withdraw.{
  ByOrigin, spend, spent_from, provide, provided_from, of_origin, no_sums, is_short,
  validate_correction_source, correction_error, WithdrawParams, withdraw_row, withdrawn,
  write_withdrawal, is_interest, is_manual, is_own_debit, linked_expense, withdraw_from_bank,
  is_contradictory, withdraw_from_piggy_bank,
}
use demanage.Piggy.Movements.Rows.{find_passes, is_bank, find_updated}

abbrev pub is_origin : CorrectionOrigin → Option CorrectionOrigin → Bool
is_origin debited (some debited) = true
is_origin not_debited (some not_debited) = true
is_origin _ _ = false

-- A deposit has debited the cash where an expense is linked to it.
abbrev pub is_funded_by : CorrectionOrigin → Option ℕ → Bool
is_funded_by debited id = is_set id
is_funded_by not_debited id = not (is_set id)

module _ {dec : Decimals} (x : IsExact dec) where
  open dec use {Decimal, of_ℕ, plus, minus, lt, to_money}

  abbrev pub corrected : CorrectionOrigin → PiggyTransaction Decimal → ℤ
  corrected o t =
      if is_withdraw t.kind && is_origin o t.correction_origin then x.scaled t.amount else pos 0

  abbrev pub funded : CorrectionOrigin → PiggyTransaction Decimal → ℤ
  funded o t = if is_deposit t.kind && is_funded_by o t.expense_id then x.scaled t.amount else pos 0

  plus_none : (a : ℤ) → a ≡ a +ℤ pos 0
  plus_none a = omega int_laws

  -- Through the `some` of a step.
  origin_after :
      (o : CorrectionOrigin) (stepped next : ByOrigin Decimal) {r : ℤ}
      → some stepped ≡ some next
      → x.scaled (of_origin dec o stepped) ≡ r
      → x.scaled (of_origin dec o next) ≡ r
  origin_after o stepped next {r} e h = subst (λ sums. x.scaled (of_origin dec o sums) ≡ r) (cc e) h

  spend_lem :
      (o : CorrectionOrigin) (origin : Option CorrectionOrigin) (linked : Bool) (amount : Decimal)
      (sums next : ByOrigin Decimal)
      → spend dec origin linked amount sums ≡ some next
      → x.scaled (of_origin dec o next)
        ≡ x.scaled (of_origin dec o sums) +ℤ (if is_origin o origin then x.scaled amount else pos 0)
  unfolding spend
  spend_lem debited (some debited) true amount sums next e =
      origin_after debited _ next e (x.scaled-plus sums.from_debited amount)
  spend_lem debited (some not_debited) false amount sums next e =
      origin_after debited _ next e (plus_none (x.scaled sums.from_debited))
  spend_lem not_debited (some debited) true amount sums next e =
      origin_after not_debited _ next e (plus_none (x.scaled sums.from_not_debited))
  spend_lem not_debited (some not_debited) false amount sums next e =
      origin_after not_debited _ next e (x.scaled-plus sums.from_not_debited amount)
  spend_lem o none linked amount sums next e = cc
  spend_lem o (some debited) false amount sums next e = cc
  spend_lem o (some not_debited) true amount sums next e = cc

  spent_from_lem :
      (o : CorrectionOrigin) (sums out : ByOrigin Decimal) (ts : List (PiggyTransaction Decimal))
      → spent_from dec sums ts ≡ some out
      → x.scaled (of_origin dec o out) ≡ x.scaled (of_origin dec o sums) +ℤ sum_of (corrected o) ts
  unfolding spent_from
  spent_from_lem o sums out [] e = origin_after o sums out e (plus_none _)
  spent_from_lem o sums out (t ∷ ts) e = elim (Bool-cases (is_withdraw t.kind)) [
    | inr kept ↦
        let rest : spent_from dec sums ts ≡ some out = rw (kept, spent_from) at e in
        rw (kept, spent_from_lem o sums out ts rest) (omega int_laws)
    | inl spent ↦
        let step = spend dec t.correction_origin (is_set t.entry_id) t.amount sums in
        elim (Option-cases step) [
          | inl refused ↦
              let bad : none ≡ some out = rw (spent, refused, spent_from) at e in absurd (cc bad)
          | inr (next, taken) ↦
              let rest : spent_from dec next ts ≡ some out = rw (spent, taken, spent_from) at e in
              rw (spent, spent_from_lem o next out ts rest)
                (rw (spend_lem o t.correction_origin (is_set t.entry_id) t.amount sums next taken)
                  (omega int_laws))
        ]
  ]

  provide_lem :
      (o : CorrectionOrigin) (user : ℕ) (expenses : List (StoredExpense Decimal)) (id : Option ℕ)
      (amount : Decimal) (sums next : ByOrigin Decimal)
      → provide dec user expenses id amount sums ≡ some next
      → x.scaled (of_origin dec o next)
        ≡ x.scaled (of_origin dec o sums) +ℤ (if is_funded_by o id then x.scaled amount else pos 0)
  unfolding provide
  provide_lem debited user expenses none amount sums next e =
      origin_after debited _ next e (plus_none (x.scaled sums.from_debited))
  provide_lem not_debited user expenses none amount sums next e =
      origin_after not_debited _ next e (x.scaled-plus sums.from_not_debited amount)
  provide_lem o user expenses (some id) amount sums next e =
      elim (Bool-cases (is_own_debit dec amount (linked_expense dec user expenses id))) [
        | inl own ↦
            let step : some (record sums { from_debited = plus sums.from_debited amount })
                ≡ some next =
              rw (own, provide) at e in
            from_own o step
        | inr other ↦ let bad : none ≡ some next = rw (other, provide) at e in absurd (cc bad)
      ]
    where
      from_own :
          (o : CorrectionOrigin)
          → some (record sums { from_debited = plus sums.from_debited amount }) ≡ some next
          → x.scaled (of_origin dec o next)
            ≡ x.scaled (of_origin dec o sums)
              +ℤ (if is_funded_by o (some id) then x.scaled amount else pos 0)
      from_own debited step =
          origin_after debited _ next step (x.scaled-plus sums.from_debited amount)
      from_own not_debited step =
          origin_after not_debited _ next step (plus_none (x.scaled sums.from_not_debited))

  provided_from_lem :
      (o : CorrectionOrigin) (user : ℕ) (expenses : List (StoredExpense Decimal))
      (sums out : ByOrigin Decimal) (ts : List (PiggyTransaction Decimal))
      → provided_from dec user expenses sums ts ≡ some out
      → x.scaled (of_origin dec o out) ≡ x.scaled (of_origin dec o sums) +ℤ sum_of (funded o) ts
  unfolding provided_from
  provided_from_lem o user expenses sums out [] e = origin_after o sums out e (plus_none _)
  provided_from_lem o user expenses sums out (t ∷ ts) e = elim (Bool-cases (is_deposit t.kind)) [
    | inr other ↦
        let rest : provided_from dec user expenses sums ts ≡ some out =
          rw (other, provided_from) at e in
        rw (other, provided_from_lem o user expenses sums out ts rest) (omega int_laws)
    | inl paid ↦
        let step = provide dec user expenses t.expense_id t.amount sums in
        elim (Option-cases step) [
          | inl refused ↦
              let bad : none ≡ some out = rw (paid, refused, provided_from) at e in absurd (cc bad)
          | inr (next, given) ↦
              let rest : provided_from dec user expenses next ts ≡ some out =
                rw (paid, given, provided_from) at e in
              rw (paid, provided_from_lem o user expenses next out ts rest)
                (rw (provide_lem o user expenses t.expense_id t.amount sums next given)
                  (omega int_laws))
        ]
  ]

  sum_of-append :
      (f : PiggyTransaction Decimal → ℤ) (ts : List (PiggyTransaction Decimal))
      (t : PiggyTransaction Decimal)
      → sum_of f (ts ++ t ∷ []) ≡ sum_of f ts +ℤ f t
  sum_of-append f [] t = omega int_laws
  sum_of-append f (u ∷ ts) t = rw (sum_of-append f ts t) (omega int_laws)

  -- What is available covers the request.
  within :
      (o : CorrectionOrigin) (provided spent : ByOrigin Decimal) (requested : Decimal)
      → is_short dec o provided spent requested ≡ false
      → x.scaled (of_origin dec o spent) +ℤ x.scaled requested
        ≤ℤ x.scaled (of_origin dec o provided)
  within o provided spent requested e =
      let a = of_origin dec o provided in
      let b = of_origin dec o spent in
      let covered : ltb_ℤ (x.scaled a -ℤ x.scaled b) (x.scaled requested) ≡ false =
        rw (← x.scaled-minus a b, ← x.lt-scaled (minus a b) requested) e in
      ground (
        arith,
        covered,
        -ℤ_parts (x.scaled a) (x.scaled b),
        +ℤ_parts (x.scaled b) (x.scaled requested),
      )

  no_sums_lem : (o : CorrectionOrigin) (a : ℤ) → x.scaled (of_origin dec o (no_sums dec)) +ℤ a ≡ a
  no_sums_lem debited a = rw x.scaled-zero (omega int_laws)
  no_sums_lem not_debited a = rw x.scaled-zero (omega int_laws)

  -- A correction that is accepted leaves what is corrected from its origin within what was funded.
  accepted_within :
      (expenses : List (StoredExpense Decimal)) (bank : PiggyBank Decimal) (requested : Decimal)
      (o : CorrectionOrigin) (user : ℕ)
      → validate_correction_source dec expenses bank requested o user ≡ none
      → sum_of (corrected o) bank.transactions +ℤ x.scaled requested
        ≤ℤ sum_of (funded o) bank.transactions
  unfolding validate_correction_source
  accepted_within expenses bank requested o user e =
      let ts = bank.transactions in
      let yields =
        bank.yield_enabled
        || is_set bank.interest_accrued_through
        || any (λ t. is_interest t.kind) ts in
      let automatic =
        bank.auto_debit || any (λ t. is_deposit t.kind && not (is_manual t.source)) ts in
      elim (Bool-cases yields) [
        | inl bad ↦ absurd (refused _ (rw (bad, validate_correction_source) at e))
        | inr calm ↦ elim (Bool-cases automatic) [
          | inl bad ↦ absurd (refused _ (rw (calm, bad, validate_correction_source) at e))
          | inr by_hand ↦ elim (Option-cases (spent_from dec (no_sums dec) ts)) [
            | inl bad ↦
                absurd (refused _ (rw (calm, by_hand, bad, validate_correction_source) at e))
            | inr (spent, taken) ↦
                elim (Option-cases (provided_from dec user expenses (no_sums dec) ts)) [
                  | inl bad ↦
                      absurd (
                        refused _ (rw (calm, by_hand, taken, bad, validate_correction_source) at e))
                  | inr (provided, given) ↦
                      elim (Bool-cases (is_short dec o provided spent requested)) [
                        | inl bad ↦ absurd (
                            refused _ (
                              rw (calm, by_hand, taken, given, bad, validate_correction_source) at
                                e))
                        | inr covers ↦
                            let left =
                              spent_from_lem o (no_sums dec) spent ts taken ∙ no_sums_lem o _ in
                            let right =
                              provided_from_lem o user expenses (no_sums dec) provided ts given
                              ∙ no_sums_lem o _ in
                            rw (← left, ← right) (within o provided spent requested covers)
                      ]
                ]
          ]
        ]
      ]
    where
      refused : (e : PiggyError) → some e ≡ none → ⊥
      refused e h = cc

module _ {dec : Decimals} (x : IsExact dec) (zone : Instant → DayKey) where
  open dec use {Decimal, lt, to_money}

  correction_of_bank :
      (p : WithdrawParams Decimal) (now : Instant) (fresh : ℕ) (s t : Store Decimal)
      (o : CorrectionOrigin) (bank : PiggyBank Decimal)
      → p.correction_origin ≡ some o
      → withdraw_from_bank dec zone p now fresh s bank ≡ ok t
      → (t ≡ write_withdrawal dec zone p now fresh (to_money p.amount) bank s)
        × (validate_correction_source dec s.expenses bank (to_money p.amount) o p.user_id ≡ none)
  unfolding withdraw_from_bank
  correction_of_bank p now fresh s t o bank origin e =
      let error =
        correction_error dec p.correction_origin s.expenses bank (to_money p.amount) p.user_id in
      elim (Bool-cases (is_set bank.archived_at)) [
        | inl off ↦ absurd (not_thrown _ _ (rw (off, withdraw_from_bank) at e))
        | inr on ↦ elim (Bool-cases (lt (bank_balance dec bank) (to_money p.amount))) [
          | inl short ↦ absurd (not_thrown _ _ (rw (on, short, withdraw_from_bank) at e))
          | inr enough ↦ elim (Option-cases error) [
            | inr (refused, why) ↦
                absurd (not_thrown _ _ (rw (on, enough, why, withdraw_from_bank) at e))
            | inl fine ↦ (
              written _ t (rw (on, enough, fine, withdraw_from_bank) at e),
              validated p.correction_origin origin fine,
            )
          ]
        ]
      ]
    where
      not_thrown : (error : PiggyError) (t : Store Decimal) → throw error ≡ ok t → ⊥
      not_thrown error t h = cc

      written : (a t : Store Decimal) → ok a ≡ ok t → t ≡ a
      written a t h = cc

      validated :
          (c : Option CorrectionOrigin)
          → c ≡ some o
          → correction_error dec c s.expenses bank (to_money p.amount) p.user_id ≡ none
          → validate_correction_source dec s.expenses bank (to_money p.amount) o p.user_id ≡ none
      validated c h none_of = rw h at none_of

  corrected_by_row :
      (p : WithdrawParams Decimal) (fresh : ℕ) (amount : Decimal) (o : CorrectionOrigin)
      → p.correction_origin ≡ some o
      → corrected x o (withdraw_row dec zone p fresh amount) ≡ x.scaled amount
  corrected_by_row p fresh amount o origin = go o p.correction_origin origin
    where
      go :
          (o : CorrectionOrigin) (c : Option CorrectionOrigin)
          → c ≡ some o
          → (if is_origin o c then x.scaled amount else pos 0) ≡ x.scaled amount
      go debited c h = rw h refl
      go not_debited c h = rw h refl

  -- The ledger after an accepted correction.
  row_within :
      (p : WithdrawParams Decimal) (fresh : ℕ) (expenses : List (StoredExpense Decimal))
      (bank : PiggyBank Decimal) (amount : Decimal) (o : CorrectionOrigin)
      → p.correction_origin ≡ some o
      → validate_correction_source dec expenses bank amount o p.user_id ≡ none
      → let ts = bank.transactions ++ withdraw_row dec zone p fresh amount ∷ [] in
        sum_of (corrected x o) ts ≤ℤ sum_of (funded x o) ts
  row_within p fresh expenses bank amount o origin valid =
      let ts = bank.transactions in
      let row = withdraw_row dec zone p fresh amount in
      let within = accepted_within x expenses bank amount o p.user_id valid in
      rw
        (
          sum_of-append x (corrected x o) ts row,
          sum_of-append x (funded x o) ts row,
          corrected_by_row p fresh amount o origin,
        )
        (omega (arith, within, +ℤ_parts (sum_of (funded x o) ts) (pos 0)))

  -- After a correction that is accepted, the bank is in the rows, and what all its corrections
  -- of the same origin have taken out is at most what its deposits of that origin have put in:
  -- those with an expense for debited, those without for not debited. The decimals are exact.
  pub correction_within :
      (p : WithdrawParams Decimal) (now : Instant) (fresh : ℕ) (s t : Store Decimal)
      (o : CorrectionOrigin)
      → p.correction_origin ≡ some o
      → withdraw_from_piggy_bank dec zone p now fresh s ≡ ok t
      → (bank : PiggyBank Decimal) × (find_bank t p.user_id p.piggy_bank_id ≡ some bank)
        × (sum_of (corrected x o) bank.transactions ≤ℤ sum_of (funded x o) bank.transactions)
  unfolding withdraw_from_piggy_bank find_bank write_withdrawal withdrawn
  correction_within p now fresh s t o origin e = elim (Bool-cases (is_contradictory dec zone p)) [
    | inl bad ↦ absurd (not_thrown _ _ (rw (bad, withdraw_from_piggy_bank) at e))
    | inr clear ↦ elim (Option-cases (find_bank s p.user_id p.piggy_bank_id)) [
      | inl gone ↦ absurd (not_thrown _ _ (rw (clear, gone, withdraw_from_piggy_bank) at e))
      | inr (bank, found) ↦
          let done : withdraw_from_bank dec zone p now fresh s bank ≡ ok t =
            rw (clear, found, withdraw_from_piggy_bank) at e in
          let (written, valid) = correction_of_bank p now fresh s t o bank origin done in
          (
            withdrawn dec zone p now fresh (to_money p.amount) bank,
            rw written (found_again bank found),
            row_within p fresh s.expenses bank (to_money p.amount) o origin valid,
          )
    ]
  ]
    where
      not_thrown : (error : PiggyError) (t : Store Decimal) → throw error ≡ ok t → ⊥
      not_thrown error t h = cc

      found_again :
          (bank : PiggyBank Decimal)
          → find_bank s p.user_id p.piggy_bank_id ≡ some bank
          → find_bank
              (write_withdrawal dec zone p now fresh (to_money p.amount) bank s)
              p.user_id
              p.piggy_bank_id
            ≡ some (withdrawn dec zone p now fresh (to_money p.amount) bank)
      found_again bank found =
          find_updated p.piggy_bank_id p.user_id bank
            (withdrawn dec zone p now fresh (to_money p.amount) bank) s.banks
            (find_passes (is_bank p.piggy_bank_id p.user_id) s.banks found) found
