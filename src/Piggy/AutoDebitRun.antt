-- ===== src/Piggy/AutoDebitRun.antt =====
-- The run of the monthly debits (`backend/src/lib/piggy/auto-debit-run.ts`). The identifier that the
-- database gives to the expense of a deposit is an argument that depends on the rows.
pub mod Months
pub mod Cycle
pub mod Loop
pub mod Paid
use demanage.Prelude.{
  ℕ, suc, ◌+◌, Bool, true, false, not, ◌&&◌, ◌||◌, Option, none, some, List, [], ◌∷◌, ◌++◌, map,
  filter, ◌==◌, if◌then◌else◌,
}
use demanage.Prelude.Decimals.{Decimals}
use demanage.CivilDate.{DayKey, Instant}
use demanage.Piggy.AutoDebit.{
  AutoDebitCycle, is_scheduled_auto_debit_cycle_still_due, has_auto_debit_in_cycle,
  list_due_auto_debit_cycles,
}
use demanage.Piggy.Store.{auto_debit, PiggyBank, Store, Outcome, ok, throw, find_bank, cycle_view}
use demanage.Piggy.Deposit.{
  is_set, goal_is_met, bank_balance, DepositParams, DepositResult, deposit_to_piggy_bank,
}

pub data CycleOutcome : Type 0 where
  created skipped stop : CycleOutcome

-- How the cycles of a bank end: all were processed, one stopped the rest, or one threw.
pub data RunEnd : Type 0 where
  went_through stopped failed : RunEnd

pub record CyclesRun (D : Type 0) : Type 0 where
  pub store : Store D
  pub created_count : ℕ
  pub end : RunEnd

-- The whole run.
pub record DebitsRun (D : Type 0) : Type 0 where
  pub store : Store D
  pub created_count : ℕ
  pub failed_bank_ids : List ℕ

module _ {D : Type 0} where
  -- `autoDebit: true, archivedAt: null, completedAt: null`.
  abbrev pub is_active : PiggyBank D → Bool
  is_active b = b.auto_debit && not (is_set b.archived_at) && not (is_set b.completed_at)

  -- `findFirst({ where: { id, userId, autoDebit, archivedAt, completedAt } })`: an identifier has one
  -- row, which is tested.
  unfoldable pub find_active : Store D → ℕ → ℕ → Option (PiggyBank D)
  find_active s user id = elim (find_bank s user id) [
    | none ↦ none
    | some b ↦ if is_active b then some b else none
  ]

abbrev pub failures : RunEnd → ℕ → List ℕ
failures failed id = id ∷ []
failures _ id = []

module _ (dec : Decimals) (zone : Instant → DayKey) (new_id : Store dec.Decimal → ℕ) where
  open dec use {Decimal, of_ℕ, minus, lt}

  -- The monthly goal, or what remains to the goal where that is less.
  abbrev pub debit_amount : Option Decimal → Decimal → Decimal → Decimal
  debit_amount none balance monthly = monthly
  debit_amount (some goal) balance monthly =
      let remaining = minus goal balance in if lt remaining monthly then remaining else monthly

  abbrev pub debit_params : ℕ → ℕ → AutoDebitCycle → Decimal → DepositParams Decimal
  debit_params user id c amount = record {
    user_id = user;
    piggy_bank_id = id;
    amount = amount;
    source = auto_debit;
    deduct_from_balance = true;
    date = c.due_on;
  }

  abbrev pub cycle_outcome :
      Outcome (Store Decimal × DepositResult Decimal) → Outcome (Store Decimal × CycleOutcome)
  cycle_outcome (throw e) = throw e
  cycle_outcome (ok (s, r)) = ok (s, if r.already_processed then skipped else created)

  -- The deposit of a cycle.
  unfoldable pub debit_cycle :
      ℕ
      → AutoDebitCycle
      → Instant
      → Store Decimal
      → PiggyBank Decimal
      → Outcome (Store Decimal × CycleOutcome)
  debit_cycle user c now s bank =
      let amount = debit_amount bank.goal_amount (bank_balance dec bank) bank.monthly_goal in
      cycle_outcome
        (deposit_to_piggy_bank dec zone (debit_params user bank.id c amount) now (new_id s) s)

  -- The guards of a cycle, once the bank is found; `now` is the time of the run, `server_now` that of
  -- the deposit.
  unfoldable pub process_active :
      ℕ
      → AutoDebitCycle
      → Instant
      → Instant
      → Store Decimal
      → PiggyBank Decimal
      → Outcome (Store Decimal × CycleOutcome)
  unfolding debit_cycle
  process_active user c now server_now s bank =
      if not (lt (of_ℕ 0) bank.monthly_goal)
      then ok (s, stop)
      else if not (
          is_scheduled_auto_debit_cycle_still_due zone c now bank.created_at bank.auto_debit_day
            bank.auto_debit_enabled_at)
      then ok (s, skipped)
      else if has_auto_debit_in_cycle zone (map cycle_view bank.transactions) (some c)
      then ok (s, skipped)
      else if goal_is_met dec bank.goal_amount (bank_balance dec bank)
      then ok (s, stop)
      else debit_cycle user c server_now s bank

  unfoldable pub process_piggy_auto_debit_cycle :
      ℕ
      → ℕ
      → AutoDebitCycle
      → Instant
      → Instant
      → Store Decimal
      → Outcome (Store Decimal × CycleOutcome)
  unfolding find_active process_active
  process_piggy_auto_debit_cycle user id c now server_now s = elim (find_active s user id) [
    | none ↦ ok (s, stop)
    | some bank ↦ process_active user c now server_now s bank
  ]

  -- The loop over the cycles of a bank, each a transaction of its own.
  unfoldable pub run_cycles :
      ℕ → ℕ → Instant → Instant → List AutoDebitCycle → Store Decimal → CyclesRun Decimal
  run_cycles user id now server_now [] s = record {
    store = s;
    created_count = 0;
    end = went_through;
  }
  run_cycles user id now server_now (c ∷ cs) s =
      elim (process_piggy_auto_debit_cycle user id c now server_now s) [
        | throw e ↦ record { store = s; created_count = 0; end = failed }
        | ok (t, stop) ↦ record { store = t; created_count = 0; end = stopped }
        | ok (t, skipped) ↦ run_cycles user id now server_now cs t
        | ok (t, created) ↦
            let rest = run_cycles user id now server_now cs t in
            record rest { created_count = suc rest.created_count }
      ]

  abbrev pub due_cycles : Instant → PiggyBank Decimal → List AutoDebitCycle
  due_cycles now bank =
      list_due_auto_debit_cycles zone now bank.created_at bank.auto_debit_day
        bank.auto_debit_enabled_at

  -- The loop over the banks; a bank that fails does not stop the others.
  unfoldable pub run_banks :
      ℕ → Instant → Instant → List (PiggyBank Decimal) → Store Decimal → DebitsRun Decimal
  unfolding run_cycles
  run_banks user now server_now [] s = record { store = s; created_count = 0; failed_bank_ids = [] }
  run_banks user now server_now (b ∷ bs) s =
      let first = run_cycles user b.id now server_now (due_cycles now b) s in
      let rest = run_banks user now server_now bs first.store in
      record {
        store = rest.store;
        created_count = first.created_count + rest.created_count;
        failed_bank_ids = failures first.end b.id ++ rest.failed_bank_ids;
      }

  unfoldable pub run_piggy_auto_debits : ℕ → Instant → Instant → Store Decimal → DebitsRun Decimal
  unfolding run_banks
  run_piggy_auto_debits user now server_now s =
      run_banks user now server_now (filter (λ b. (b.user_id == user) && is_active b) s.banks) s
