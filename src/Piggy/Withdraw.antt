-- ===== src/Piggy/Withdraw.antt =====
-- Withdrawals and corrections (`validateCorrectionSource` and `withdrawFromPiggyBank` of
-- `backend/src/lib/piggy/transactions.ts`). The identifier of the new entry and the time of the
-- server are arguments; the note of a row and the name of its entry are text.
use demanage.Prelude.{
  ℕ, Bool, true, false, not, ◌&&◌, ◌||◌, Option, none, some, List, [], ◌∷◌, ◌++◌, find, any, ◌==◌,
  if◌then◌else◌,
}
use demanage.Prelude.Decimals.{Decimals}
use demanage.CivilDate.{DayKey, Instant}
use demanage.Piggy.Ledger.{LedgerType, withdraw, interest, is_withdraw}
use demanage.Piggy.AutoDebit.{is_deposit}
use demanage.Piggy.Activation.{auto_debit_enabled_at_after_goal_reopened}
use demanage.Piggy.Store.{
  Source, manual, PiggyTransaction, PiggyBank, StoredExpense, StoredEntry, Store, PiggyError,
  CorrectionOrigin, debited, not_debited, Outcome, ok, throw, find_bank, update_banks,
}
use demanage.Piggy.Deposit.{is_set, today_in_sao_paulo, bank_balance, next_monthly_goal}

pub record WithdrawParams (D : Type 0) : Type 0 where
  pub user_id : ℕ
  pub piggy_bank_id : ℕ
  pub amount : D
  pub credit_to_balance : Bool
  pub correction_origin : Option CorrectionOrigin
  pub date : Instant

abbrev pub is_interest : LedgerType → Bool
is_interest interest = true
is_interest _ = false

abbrev pub is_manual : Source → Bool
is_manual manual = true
is_manual _ = false

-- A sum for each origin.
pub record ByOrigin (D : Type 0) : Type 0 where
  pub from_debited : D
  pub from_not_debited : D

module _ (dec : Decimals) where
  open dec use {Decimal, of_ℕ, plus, minus, lt, eq, to_money}

  abbrev pub no_sums : ByOrigin Decimal
  no_sums = record { from_debited = of_ℕ 0; from_not_debited = of_ℕ 0 }

  -- The sums after a withdrawal, by its origin and whether an entry is linked to it.
  unfoldable pub spend :
      Option CorrectionOrigin → Bool → Decimal → ByOrigin Decimal → Option (ByOrigin Decimal)
  spend (some debited) true amount sums =
      some (record sums { from_debited = plus sums.from_debited amount })
  spend (some not_debited) false amount sums =
      some (record sums { from_not_debited = plus sums.from_not_debited amount })
  spend _ _ amount sums = none

  -- The loop over the withdrawals; `none` is `CORRECTION_ORIGIN_AMBIGUOUS`.
  unfoldable pub spent_from :
      ByOrigin Decimal → List (PiggyTransaction Decimal) → Option (ByOrigin Decimal)
  unfolding spend
  spent_from sums [] = some sums
  spent_from sums (t ∷ ts) = elim (is_withdraw t.kind) [
    | false ↦ spent_from sums ts
    | true ↦ elim (spend t.correction_origin (is_set t.entry_id) t.amount sums) [
      | none ↦ none
      | some next ↦ spent_from next ts
    ]
  ]

  -- The expenses that `findMany` returns, by identifier.
  abbrev pub linked_expense : ℕ → List (StoredExpense Decimal) → ℕ → Option (StoredExpense Decimal)
  linked_expense user expenses id =
      find (λ e. (e.id == id) && (e.user_id == user) && e.is_piggy && not e.archived) expenses

  abbrev pub is_own_debit : Decimal → Option (StoredExpense Decimal) → Bool
  is_own_debit amount none = false
  is_own_debit amount (some e) = e.is_cofrinho && e.is_unica && eq e.amount amount

  -- The sums after a deposit.
  unfoldable pub provide :
      ℕ
      → List (StoredExpense Decimal)
      → Option ℕ
      → Decimal
      → ByOrigin Decimal
      → Option (ByOrigin Decimal)
  provide user expenses none amount sums =
      some (record sums { from_not_debited = plus sums.from_not_debited amount })
  provide user expenses (some id) amount sums =
      if is_own_debit amount (linked_expense user expenses id)
      then some (record sums { from_debited = plus sums.from_debited amount })
      else none

  -- The loop over the deposits.
  unfoldable pub provided_from :
      ℕ
      → List (StoredExpense Decimal)
      → ByOrigin Decimal
      → List (PiggyTransaction Decimal)
      → Option (ByOrigin Decimal)
  unfolding provide
  provided_from user expenses sums [] = some sums
  provided_from user expenses sums (t ∷ ts) = elim (is_deposit t.kind) [
    | false ↦ provided_from user expenses sums ts
    | true ↦ elim (provide user expenses t.expense_id t.amount sums) [
      | none ↦ none
      | some next ↦ provided_from user expenses next ts
    ]
  ]

  abbrev pub of_origin : CorrectionOrigin → ByOrigin Decimal → Decimal
  of_origin debited sums = sums.from_debited
  of_origin not_debited sums = sums.from_not_debited

  -- `available.lt(requested)`.
  abbrev pub is_short : CorrectionOrigin → ByOrigin Decimal → ByOrigin Decimal → Decimal → Bool
  is_short origin provided spent requested =
      lt (minus (of_origin origin provided) (of_origin origin spent)) requested

  -- `none` where the correction is accepted.
  unfoldable pub validate_correction_source :
      List (StoredExpense Decimal)
      → PiggyBank Decimal
      → Decimal
      → CorrectionOrigin
      → ℕ
      → Option PiggyError
  unfolding spent_from provided_from
  validate_correction_source expenses bank requested origin user =
      if bank.yield_enabled
        || is_set bank.interest_accrued_through
        || any (λ t. is_interest t.kind) bank.transactions
      then some PiggyError.correction_yield_blocked
      else if bank.auto_debit
          || any (λ t. is_deposit t.kind && not (is_manual t.source)) bank.transactions
      then some PiggyError.correction_origin_ambiguous
      else elim (spent_from no_sums bank.transactions) [
        | none ↦ some PiggyError.correction_origin_ambiguous
        | some spent ↦ elim (provided_from user expenses no_sums bank.transactions) [
          | none ↦ some PiggyError.correction_origin_ambiguous
          | some provided ↦
              if is_short origin provided spent requested
              then some PiggyError.correction_origin_insufficient
              else none
        ]
      ]

  -- `correctionOrigin ? await validateCorrectionSource(...)`.
  unfoldable pub correction_error :
      Option CorrectionOrigin
      → List (StoredExpense Decimal)
      → PiggyBank Decimal
      → Decimal
      → ℕ
      → Option PiggyError
  unfolding validate_correction_source
  correction_error none expenses bank requested user = none
  correction_error (some origin) expenses bank requested user =
      validate_correction_source expenses bank requested origin user

  -- `goalAmount != null && nextBalance.lt(goalAmount)`.
  abbrev pub is_below : Option Decimal → Decimal → Bool
  is_below none balance = false
  is_below (some goal) balance = lt balance goal

abbrev pub is_debited : Option CorrectionOrigin → Bool
is_debited (some debited) = true
is_debited _ = false

module _ (dec : Decimals) (zone : Instant → DayKey) where
  open dec use {Decimal, of_ℕ, plus, minus, lt, to_money}

  abbrev pub creates_entry : WithdrawParams Decimal → Bool
  creates_entry p = p.credit_to_balance || is_debited p.correction_origin

  abbrev pub withdraw_row : WithdrawParams Decimal → ℕ → Decimal → PiggyTransaction Decimal
  withdraw_row p fresh requested = record {
    kind = withdraw;
    source = manual;
    amount = requested;
    date = today_in_sao_paulo zone p.date;
    expense_id = none;
    entry_id = if creates_entry p then some fresh else none;
    correction_origin = p.correction_origin;
  }

  abbrev pub withdraw_entry : WithdrawParams Decimal → ℕ → Decimal → StoredEntry Decimal
  withdraw_entry p fresh requested = record {
    id = fresh;
    user_id = p.user_id;
    amount = requested;
    date = today_in_sao_paulo zone p.date;
  }

  -- The row of the bank after the withdrawal; the monthly goal still reads the rows before it.
  unfoldable pub withdrawn :
      WithdrawParams Decimal → Instant → ℕ → Decimal → PiggyBank Decimal → PiggyBank Decimal
  unfolding next_monthly_goal auto_debit_enabled_at_after_goal_reopened
  withdrawn p now fresh requested bank =
      let next = minus (bank_balance dec bank) requested in
      let reopened = is_below dec bank.goal_amount next in
      record bank {
        completed_at = if reopened then none else bank.completed_at;
        monthly_goal = next_monthly_goal dec zone bank now next bank.transactions;
        auto_debit_enabled_at =
            if bank.auto_debit
            then auto_debit_enabled_at_after_goal_reopened (is_set bank.completed_at) reopened
                bank.auto_debit_enabled_at p.date
            else bank.auto_debit_enabled_at;
        transactions = bank.transactions ++ withdraw_row p fresh requested ∷ [];
      }

  unfoldable pub write_withdrawal :
      WithdrawParams Decimal
      → Instant
      → ℕ
      → Decimal
      → PiggyBank Decimal
      → Store Decimal
      → Store Decimal
  unfolding withdrawn
  write_withdrawal p now fresh requested bank s = record s {
    entries =
        if creates_entry p then s.entries ++ withdraw_entry p fresh requested ∷ [] else s.entries;
    banks = update_banks bank.id (withdrawn p now fresh requested bank) s.banks;
  }

  -- The guards of a withdrawal, once the bank is found.
  unfoldable pub withdraw_from_bank :
      WithdrawParams Decimal
      → Instant
      → ℕ
      → Store Decimal
      → PiggyBank Decimal
      → Outcome (Store Decimal)
  unfolding correction_error write_withdrawal
  withdraw_from_bank p now fresh s bank =
      let requested = to_money p.amount in
      if is_set bank.archived_at
      then throw PiggyError.archived
      else if lt (bank_balance dec bank) requested
      then throw PiggyError.insufficient_balance
      else elim (correction_error dec p.correction_origin s.expenses bank requested p.user_id) [
        | some error ↦ throw error
        | none ↦ ok (write_withdrawal p now fresh requested bank s)
      ]

  -- `(!creditToBalance) !== (correctionOrigin !== undefined)`.
  abbrev pub is_contradictory : WithdrawParams Decimal → Bool
  is_contradictory p =
      if p.credit_to_balance then is_set p.correction_origin else not (is_set p.correction_origin)

  unfoldable pub withdraw_from_piggy_bank :
      WithdrawParams Decimal → Instant → ℕ → Store Decimal → Outcome (Store Decimal)
  unfolding find_bank withdraw_from_bank
  withdraw_from_piggy_bank p now fresh s =
      if is_contradictory p
      then throw PiggyError.correction_origin_ambiguous
      else elim (find_bank s p.user_id p.piggy_bank_id) [
        | none ↦ throw PiggyError.not_found
        | some bank ↦ withdraw_from_bank p now fresh s bank
      ]
