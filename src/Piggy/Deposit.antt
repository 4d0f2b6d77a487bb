-- ===== src/Piggy/Deposit.antt =====
-- Deposits (`depositToPiggyBankInTransaction` of `backend/src/lib/piggy/transactions.ts`). The
-- identifier of the new expense and the time of the server are arguments; the note of a row and the
-- name of its expense are text.
use demanage.Prelude.{
  ℕ, ◌+◌, Bool, true, false, not, ◌&&◌, ◌||◌, Option, none, some, List, [], ◌∷◌, ◌++◌, map, any,
  ltb, leb, if◌then◌else◌,
}
use demanage.Prelude.Decimals.{Decimals}
use demanage.CivilDate.{
  DayKey, Instant, noon, ms_per_day, day_key_of_date, day_key_to_date, month_bounds,
}
use demanage.Piggy.Ledger.{deposit, balance_decimal_from_transactions}
use demanage.Piggy.AutoDebit.{is_deposit}
use demanage.Piggy.Goals.{compute_monthly_goal, has_auto_debit_in_current_month}
use demanage.Piggy.Store.{
  Source, PiggyTransaction, PiggyBank, StoredExpense, Store, PiggyError, Outcome, ok, throw,
  find_bank, update_banks, cycle_view, ledger_of, is_auto_debit,
}

abbrev pub is_set {ℓ} : {A : Type ℓ} → Option A → Bool
is_set none = false
is_set (some a) = true

pub record DepositParams (D : Type 0) : Type 0 where
  pub user_id : ℕ
  pub piggy_bank_id : ℕ
  pub amount : D
  pub source : Source
  pub deduct_from_balance : Bool
  pub date : Instant

-- What is returned beside the rows.
pub record DepositResult (D : Type 0) : Type 0 where
  pub completed : Bool
  pub deposit_amount : D
  pub already_processed : Bool

-- `todayInSaoPaulo(date)`.
abbrev pub today_in_sao_paulo : (Instant → DayKey) → Instant → Instant
today_in_sao_paulo zone t = day_key_to_date (zone t) noon

-- A debit of the month of `day`: its date is on or after the first day's noon and before the noon
-- after the last day's.
unfoldable pub in_month_of : Instant → Instant → Bool
in_month_of day t =
    let key = day_key_of_date day in
    let month = month_bounds key.year key.month_index in
    leb month.start t && ltb t (month.end + ms_per_day)

module _ {D : Type 0} where
  unfoldable pub existing_auto_debit : Instant → List (PiggyTransaction D) → Bool
  unfolding in_month_of
  existing_auto_debit day ts =
      any (λ t. is_auto_debit t.source && is_deposit t.kind && in_month_of day t.date) ts

module _ (dec : Decimals) where
  open dec use {Decimal, of_ℕ, plus, minus, lt, to_money}

  -- `remaining != null && remaining.lte(0)`.
  abbrev pub goal_is_met : Option Decimal → Decimal → Bool
  goal_is_met none balance = false
  goal_is_met (some goal) balance = not (lt (of_ℕ 0) (minus goal balance))

  abbrev pub capped_amount : Option Decimal → Decimal → Decimal → Decimal
  capped_amount none balance requested = requested
  capped_amount (some goal) balance requested =
      let remaining = minus goal balance in
      if not (lt remaining requested) then requested else remaining

  -- `goalAmount != null && nextBalance.gte(goalAmount)`.
  abbrev pub reaches : Option Decimal → Decimal → Bool
  reaches none balance = false
  reaches (some goal) balance = not (lt balance goal)

  abbrev pub bank_balance : PiggyBank Decimal → Decimal
  bank_balance bank = balance_decimal_from_transactions dec (ledger_of bank.transactions)

module _ (dec : Decimals) (zone : Instant → DayKey) where
  open dec use {Decimal, of_ℕ, plus, minus, lt, to_money}

  -- The `monthlyGoal` of an update, which stays without a goal or a target.
  unfoldable pub next_monthly_goal :
      PiggyBank Decimal → Instant → Decimal → List (PiggyTransaction Decimal) → Decimal
  next_monthly_goal bank now balance ts =
      if is_set bank.goal_amount && is_set bank.target_date
      then compute_monthly_goal dec zone bank.goal_amount bank.target_date now balance
          (if bank.auto_debit then some bank.auto_debit_day else none)
          (has_auto_debit_in_current_month zone (map cycle_view ts) now)
      else bank.monthly_goal

  -- `expense?.id ?? null`.
  abbrev pub created_id : Bool → ℕ → Option ℕ
  created_id created id = if created then some id else none

  abbrev pub deposit_row : DepositParams Decimal → ℕ → Decimal → PiggyTransaction Decimal
  deposit_row p fresh amount = record {
    kind = deposit;
    source = p.source;
    amount = amount;
    date = today_in_sao_paulo zone p.date;
    expense_id = created_id (is_auto_debit p.source || p.deduct_from_balance) fresh;
    entry_id = none;
    correction_origin = none;
  }

  abbrev pub deposit_expense : DepositParams Decimal → ℕ → Decimal → StoredExpense Decimal
  deposit_expense p fresh amount = record {
    id = fresh;
    user_id = p.user_id;
    amount = amount;
    is_piggy = true;
    is_cofrinho = true;
    is_unica = true;
    archived = false;
    occurred_at = today_in_sao_paulo zone p.date;
  }

  abbrev pub completes : PiggyBank Decimal → Decimal → Bool
  completes bank next = reaches dec bank.goal_amount next && not (is_set bank.completed_at)

  -- The row of the bank after the deposit of `amount`.
  unfoldable pub deposited :
      DepositParams Decimal → Instant → ℕ → Decimal → PiggyBank Decimal → PiggyBank Decimal
  unfolding next_monthly_goal
  deposited p now fresh amount bank =
      let ts = bank.transactions ++ deposit_row p fresh amount ∷ [] in
      let next = plus (bank_balance dec bank) amount in
      record bank {
        completed_at =
            if completes bank next
            then some (today_in_sao_paulo zone p.date)
            else bank.completed_at;
        monthly_goal = next_monthly_goal bank now next ts;
        transactions = ts;
      }

  unfoldable pub deposit_amount_of : PiggyBank Decimal → Decimal → Decimal
  deposit_amount_of bank requested =
      capped_amount dec bank.goal_amount (bank_balance dec bank) requested

  -- The rows that a deposit writes.
  unfoldable pub write_deposit :
      DepositParams Decimal
      → Instant
      → ℕ
      → Decimal
      → PiggyBank Decimal
      → Store Decimal
      → Store Decimal × DepositResult Decimal
  unfolding deposited
  write_deposit p now fresh amount bank s = (
    record s {
      expenses =
          if is_auto_debit p.source || p.deduct_from_balance
          then s.expenses ++ deposit_expense p fresh amount ∷ []
          else s.expenses;
      banks = update_banks bank.id (deposited p now fresh amount bank) s.banks;
    },
    record {
      completed = completes bank (plus (bank_balance dec bank) amount);
      deposit_amount = amount;
      already_processed = false;
    },
  )

  -- The guards of a deposit, once the bank is found.
  unfoldable pub deposit_to_bank :
      DepositParams Decimal
      → Instant
      → ℕ
      → Store Decimal
      → PiggyBank Decimal
      → Outcome (Store Decimal × DepositResult Decimal)
  unfolding existing_auto_debit deposit_amount_of write_deposit
  deposit_to_bank p now fresh s bank =
      if is_set bank.archived_at
      then throw PiggyError.archived
      else if is_auto_debit p.source
          && existing_auto_debit (today_in_sao_paulo zone p.date) bank.transactions
      then ok (s, record { completed = false; deposit_amount = of_ℕ 0; already_processed = true })
      else if goal_is_met dec bank.goal_amount (bank_balance dec bank)
      then throw PiggyError.already_complete
      else ok (write_deposit p now fresh (deposit_amount_of bank (to_money p.amount)) bank s)

  unfoldable pub deposit_to_piggy_bank :
      DepositParams Decimal
      → Instant
      → ℕ
      → Store Decimal
      → Outcome (Store Decimal × DepositResult Decimal)
  unfolding find_bank deposit_to_bank
  deposit_to_piggy_bank p now fresh s = elim (find_bank s p.user_id p.piggy_bank_id) [
    | none ↦ throw PiggyError.not_found
    | some bank ↦ deposit_to_bank p now fresh s bank
  ]
