-- ===== src/Tests/Movements.antt =====
-- Deposits, withdrawals and debits of a piggy bank, at concrete days.
use demanage.Prelude.{ℕ, ◌≡◌, refl, arith, true, false, some, none, [], ◌∷◌, All, length}
use demanage.Prelude.Int.{ℤ, pos, ◌≤ℤ◌, ◌+ℤ◌, ◌-ℤ◌}
use demanage.Billing.Charges.Totals.{sum_of}
use demanage.CivilDate.{key_lt}
use demanage.CivilDate.Zone.{IsDated}
use demanage.Piggy.Ledger.{balance_decimal_from_transactions, balance_from, signed_amount}
use demanage.Piggy.Activation.{auto_debit_enabled_at_after_goal_reopened}
use demanage.Piggy.AutoDebit.{
  list_due_auto_debit_cycles, cycles_from, cycle_for_month, is_scheduled_auto_debit_cycle_still_due,
  has_auto_debit_in_cycle,
}
use demanage.Piggy.Goals.{
  compute_monthly_goal, months_until_target, has_auto_debit_in_current_month,
}
use demanage.Piggy.Store.{
  manual, debited, not_debited, PiggyBank, Store, ok, throw, find_bank, update_banks, PiggyError,
}
use demanage.Piggy.Deposit.{
  deposit_to_piggy_bank, deposit_to_bank, existing_auto_debit, in_month_of, deposit_amount_of,
  write_deposit, deposited, next_monthly_goal,
}
use demanage.Piggy.Withdraw.{
  WithdrawParams, withdraw_from_piggy_bank, withdraw_from_bank, correction_error,
  validate_correction_source, spent_from, spend, provided_from, provide, write_withdrawal,
  withdrawn,
}
use demanage.Piggy.Movements.{Movement, put, take, after_withdrawal, perform, run}
use demanage.Piggy.Movements.Goal.{IsKept, run-IsKept}
use demanage.Piggy.Movements.Monthly.{IsMonthly, run-IsMonthly}
use demanage.Piggy.Movements.Corrections.{corrected, funded, correction_within}
use demanage.Piggy.AutoDebitRun.{
  CyclesRun, due_cycles, run_piggy_auto_debits, run_banks, run_cycles,
  process_piggy_auto_debit_cycle, find_active, process_active, debit_cycle,
}
use demanage.Piggy.AutoDebitRun.Loop.{Ending}
use demanage.Piggy.AutoDebitRun.Paid.{run_due, run_due-Ending, run_due_again}
use demanage.Tests.Model.{whole, whole-IsExact, three_hours_back, three_hours_back-IsZone}
use demanage.Tests.Dates.{dates}
use demanage.Tests.Cards.{date}

-- A bank of a thousand with a debit of 300 on the 31st.
abbrev bank : PiggyBank ℤ
bank = record {
  id = 7;
  user_id = 1;
  goal_amount = some (pos 1000);
  target_date = none;
  monthly_goal = pos 300;
  auto_debit = true;
  auto_debit_day = 31;
  auto_debit_enabled_at = none;
  yield_enabled = false;
  interest_accrued_through = none;
  archived_at = none;
  completed_at = none;
  created_at = date 2026 2 20;
  transactions = [];
}

-- One that is paid by hand.
abbrev by_hand : PiggyBank ℤ
by_hand = record bank { auto_debit = false }

abbrev rows : PiggyBank ℤ → Store ℤ
rows b = record { banks = b ∷ []; expenses = []; entries = [] }

abbrev put_in : ℕ → Movement ℤ
put_in amount =
    put
      (record {
        user_id = 1;
        piggy_bank_id = 7;
        amount = pos amount;
        source = manual;
        deduct_from_balance = true;
        date = date 2026 3 5;
      })
      (date 2026 3 5) 50

abbrev taking : ℕ → WithdrawParams ℤ
taking amount = record {
  user_id = 1;
  piggy_bank_id = 7;
  amount = pos amount;
  credit_to_balance = true;
  correction_origin = none;
  date = date 2026 3 6;
}

abbrev take_out : ℕ → Movement ℤ
take_out amount = take (taking amount) (date 2026 3 6) 60

-- All that a movement runs through.
unfoldable moves : Unit {0}
unfolding dates balance_decimal_from_transactions balance_from signed_amount find_bank update_banks
    deposit_to_piggy_bank deposit_to_bank existing_auto_debit in_month_of deposit_amount_of
    write_deposit deposited next_monthly_goal compute_monthly_goal months_until_target
    has_auto_debit_in_current_month withdraw_from_piggy_bank withdraw_from_bank correction_error
    validate_correction_source spent_from spend provided_from provide write_withdrawal withdrawn
    auto_debit_enabled_at_after_goal_reopened perform run three_hours_back ◌+ℤ◌ ◌-ℤ◌
moves = tt

empty-IsKept : IsKept whole-IsExact bank
unfolding balance_decimal_from_transactions
empty-IsKept = record { solvent = omega arith; marked = refl }

run-IsKept_example :
    All
      (IsKept whole-IsExact)
      (run whole three_hours_back (put_in 800 ∷ put_in 500 ∷ take_out 100 ∷ []) (rows bank)).banks
run-IsKept_example =
    run-IsKept whole-IsExact three_hours_back (put_in 800 ∷ put_in 500 ∷ take_out 100 ∷ [])
      (rows bank) (omega arith) (empty-IsKept, tt)

fourth_of_march : IsDated (date 2026 3 5)
unfolding dates
fourth_of_march = omega arith

run-IsMonthly_example :
    All IsMonthly (run whole three_hours_back (put_in 800 ∷ take_out 100 ∷ []) (rows bank)).banks
run-IsMonthly_example =
    run-IsMonthly whole three_hours_back-IsZone (put_in 800 ∷ take_out 100 ∷ []) (rows bank)
      (fourth_of_march, (tt, tt)) (record { dated = tt; once = λ month. omega arith }, tt)

-- A deposit of 800 that was debited, of which 300 are corrected.
abbrev after_put : Store ℤ
after_put = run whole three_hours_back (put_in 800 ∷ []) (rows by_hand)

abbrev correction : WithdrawParams ℤ
correction = record (taking 300) { credit_to_balance = false; correction_origin = some debited }

abbrev corrected_rows : Store ℤ
corrected_rows =
    after_withdrawal after_put
      (withdraw_from_piggy_bank whole three_hours_back correction (date 2026 3 6) 61 after_put)

accepted :
    withdraw_from_piggy_bank whole three_hours_back correction (date 2026 3 6) 61 after_put
    ≡ ok corrected_rows
unfolding moves
accepted = refl

correction_within_example :
    (b : PiggyBank ℤ) × (find_bank corrected_rows 1 7 ≡ some b)
    × (sum_of (corrected whole-IsExact debited) b.transactions
        ≤ℤ sum_of (funded whole-IsExact debited) b.transactions)
correction_within_example =
    correction_within whole-IsExact three_hours_back correction (date 2026 3 6) 61 after_put
      corrected_rows debited refl accepted

refused :
    (withdraw_from_piggy_bank whole three_hours_back
        (record correction { amount = pos 801 })
        (date 2026 3 6)
        61
        after_put
      ≡ throw PiggyError.insufficient_balance)
    × (withdraw_from_piggy_bank whole three_hours_back
          (record correction { correction_origin = some not_debited })
          (date 2026 3 6)
          61
          after_put
        ≡ throw PiggyError.correction_origin_insufficient)
unfolding moves
refused = (refl, refl)

-- The debits of February to April, on the 28th, the 31st and the 30th.
abbrev new_id : Store ℤ → ℕ
new_id s = length s.expenses

abbrev due : Store ℤ → CyclesRun ℤ
due = run_due whole three_hours_back-IsZone new_id 1 7 (date 2026 5 10) (date 2026 5 10) bank

opened : IsDated (date 2026 2 20)
unfolding dates
opened = omega arith

found : find_bank (rows bank) 1 7 ≡ some bank
unfolding find_bank
found = refl

run_due-Ending_example :
    let r = due (rows bank) in
    (after : PiggyBank ℤ) × (find_bank r.store 1 7 ≡ some after)
    × Ending whole three_hours_back-IsZone new_id 1 7
        (date 2026 5 10)
        (date 2026 5 10)
        (record { opened_at = date 2026 2 20; day = 31; enabled_at = none })
        r.end
        after
        (due_cycles whole three_hours_back new_id (date 2026 5 10) bank)
run_due-Ending_example =
    run_due-Ending whole three_hours_back-IsZone new_id 1 7 (date 2026 5 10) (date 2026 5 10)
      (rows bank) bank found opened tt tt

run_due_again_example :
    let first = due (rows bank) in
    let second = due first.store in (second.store ≡ first.store) × (second.created_count ≡ 0)
run_due_again_example =
    run_due_again whole three_hours_back-IsZone new_id 1 7 (date 2026 5 10) (date 2026 5 10)
      (rows bank) bank found opened tt tt

three_debits :
    let r =
      run_piggy_auto_debits whole three_hours_back new_id 1
        (date 2026 5 10)
        (date 2026 5 10)
        (rows bank) in
    (r.created_count ≡ 3) × (length r.store.expenses ≡ 3)
unfolding moves run_piggy_auto_debits run_banks run_cycles process_piggy_auto_debit_cycle
    find_active process_active debit_cycle list_due_auto_debit_cycles cycles_from cycle_for_month
    is_scheduled_auto_debit_cycle_still_due has_auto_debit_in_cycle key_lt
three_debits = (refl, refl)
