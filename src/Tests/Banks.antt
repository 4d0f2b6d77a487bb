-- ===== src/Tests/Banks.antt =====
-- A piggy bank with a monthly debit, at concrete days.
use demanage.Prelude.{
  ◌≤◌, ◌≡◌, refl, arith, true, false, some, none, List, [], ◌∷◌, ◌++◌, All, length, max,
}
use demanage.Prelude.Int.{ℤ, pos, ◌-ℤ◌}
use demanage.Prelude.Counting.{count_between}
use demanage.CivilDate.{day_key, key_lt, month_key}
use demanage.CivilDate.Zone.{IsDated}
use demanage.Billing.Charges.Totals.{sum_of}
use demanage.Piggy.Ledger.{
  LedgerEntry, deposit, withdraw, interest, put_in, taken_out, balance_prefix_sums,
  balance_decimal_from_transactions, balance_prefix_sums_lem, balance_decimal_from_transactions_lem,
}
use demanage.Piggy.AutoDebit.{list_due_auto_debit_cycles}
use demanage.Piggy.AutoDebit.Due.{StillDue, list_due_auto_debit_cycles-StillDue}
use demanage.Piggy.Activation.{next_auto_debit_enabled_at, next_auto_debit_enabled_at_lem}
use demanage.Piggy.Goals.{months_until_target, pays, months_until_target_lem}
use demanage.Tests.Model.{whole, whole-IsExact, three_hours_back, three_hours_back-IsZone}
use demanage.Tests.Dates.{dates}
use demanage.Tests.Cards.{date}

abbrev ledger : List (LedgerEntry ℤ)
ledger =
    record { kind = deposit; amount = pos 100 } ∷ record { kind = withdraw; amount = pos 30 } ∷ []

balance_prefix_sums_lem_example :
    balance_prefix_sums whole (ledger ++ record { kind = interest; amount = pos 1 } ∷ [])
    ≡ balance_prefix_sums whole ledger
      ++ balance_decimal_from_transactions whole
          (ledger ++ record { kind = interest; amount = pos 1 } ∷ [])
        ∷ []
balance_prefix_sums_lem_example =
    balance_prefix_sums_lem whole ledger (record { kind = interest; amount = pos 1 })

balance_decimal_from_transactions_lem_example :
    balance_decimal_from_transactions whole ledger
    ≡ sum_of (put_in whole-IsExact) ledger -ℤ sum_of (taken_out whole-IsExact) ledger
balance_decimal_from_transactions_lem_example =
    balance_decimal_from_transactions_lem whole-IsExact ledger

created : IsDated (date 2026 2 20)
unfolding dates
created = omega arith

switched : IsDated (date 2026 4 12)
unfolding dates
switched = omega arith

list_due_auto_debit_cycles-StillDue_example :
    let cycles =
      list_due_auto_debit_cycles three_hours_back
        (date 2026 7 10)
        (date 2026 2 20)
        31
        (some (date 2026 4 12)) in
    All
      (StillDue three_hours_back-IsZone
        (date 2026 7 10)
        (date 2026 2 20)
        31
        (some (date 2026 4 12)))
      cycles
    × (length cycles ≤ 60)
list_due_auto_debit_cycles-StillDue_example =
    list_due_auto_debit_cycles-StillDue three_hours_back-IsZone (date 2026 7 10) (date 2026 2 20) 31
      (some (date 2026 4 12)) created switched

next_auto_debit_enabled_at_lem_example :
    All
      (λ c. key_lt (three_hours_back c.due_on) (three_hours_back (date 2026 4 12)) ≡ false)
      (list_due_auto_debit_cycles three_hours_back (date 2026 7 10) (date 2026 2 20) 5 (
        next_auto_debit_enabled_at
          (record { auto_debit = false; auto_debit_enabled_at = none })
          true
          (date 2026 4 12)))
next_auto_debit_enabled_at_lem_example =
    next_auto_debit_enabled_at_lem three_hours_back-IsZone
      (record { auto_debit = false; auto_debit_enabled_at = none }) (date 2026 4 12)
      (date 2026 7 10) (date 2026 2 20) 5 refl created switched

months_until_target_lem_example :
    months_until_target (day_key 2026 6 15) (day_key 2026 11 9) (some 10) false
    ≡ max 1 (
        count_between
          (pays (day_key 2026 6 15) (day_key 2026 11 9) 10 false)
          (month_key (day_key 2026 6 15))
          (month_key (day_key 2026 11 9)))
months_until_target_lem_example =
    months_until_target_lem (day_key 2026 6 15) (day_key 2026 11 9) 10 false
