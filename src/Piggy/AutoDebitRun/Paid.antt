-- ===== src/Piggy/AutoDebitRun/Paid.antt =====
-- The due cycles of a bank (`runPiggyAutoDebits` of `backend/src/lib/piggy/auto-debit-run.ts`).
use demanage.Prelude.{ℕ, ◌≡◌, refl, some, All, All-both}
use demanage.Prelude.Decimals.{Decimals}
use demanage.CivilDate.{DayKey, Instant}
use demanage.CivilDate.Zone.{IsDated, AllDated, IsZone}
use demanage.Piggy.AutoDebit.Due.{
  list_due_auto_debit_cycles-All, list_due_auto_debit_cycles-StillDue,
}
use demanage.Piggy.Store.{PiggyBank, Store, find_bank}
use demanage.Piggy.Movements.Monthly.{IsNoonDated}
use demanage.Piggy.AutoDebitRun.{CyclesRun, run_cycles, due_cycles}
use demanage.Piggy.AutoDebitRun.Cycle.{IsCycle, cycle_for_month-IsCycle}
use demanage.Piggy.AutoDebitRun.Loop.{Schedule, IsPlanned, Ran, Ending, run_cycles_lem, idle}

module _ (dec : Decimals) {zone : Instant → DayKey} (z : IsZone zone)
    (new_id : Store dec.Decimal → ℕ) (user id : ℕ) (now server_now : Instant) where
  open dec use {Decimal}

  abbrev plan_of : PiggyBank Decimal → Schedule
  plan_of b = record {
    opened_at = b.created_at;
    day = b.auto_debit_day;
    enabled_at = b.auto_debit_enabled_at;
  }

  -- The run over the cycles of a bank that are due.
  abbrev pub run_due : PiggyBank Decimal → Store Decimal → CyclesRun Decimal
  run_due b s =
      run_cycles dec zone new_id user id now server_now (due_cycles dec zone new_id now b) s

  planned :
      (b : PiggyBank Decimal)
      → IsDated b.created_at
      → AllDated b.auto_debit_enabled_at
      → All
          (IsPlanned dec z new_id user id now server_now (plan_of b))
          (due_cycles dec zone new_id now b)
  planned b c e =
      All-both (IsCycle b.auto_debit_day) _ (due_cycles dec zone new_id now b)
        (list_due_auto_debit_cycles-All z now b.created_at b.auto_debit_day b.auto_debit_enabled_at
          (IsCycle b.auto_debit_day)
          (λ y m cycle h f found.
            cycle_for_month-IsCycle y m _ _ b.auto_debit_day _ cycle h f found)
          c e)
        (list_due_auto_debit_cycles-StillDue z now b.created_at b.auto_debit_day
          b.auto_debit_enabled_at c e).0

  ran :
      (s : Store Decimal) (b : PiggyBank Decimal)
      → find_bank s user id ≡ some b
      → IsDated b.created_at
      → AllDated b.auto_debit_enabled_at
      → All IsNoonDated b.transactions
      → Ran dec z new_id user id now server_now
          (plan_of b)
          b
          (due_cycles dec zone new_id now b)
          (run_due b s)
  ran s b found c e dated =
      run_cycles_lem dec z new_id user id now server_now (plan_of b)
        (due_cycles dec zone new_id now b) s b
        (record { found = found; opened = refl; on_day = refl; enabled = refl; dated = dated })
        (planned b c e)

  -- The run over the due cycles of a bank never fails: it goes through them all, and then the
  -- bank in the rows has a debit in each of the months, or it stops, and then the bank takes no
  -- debit, since it is not active, has no monthly amount or has met its goal. The bank is in
  -- the rows, its creation and the switch of its debit are dated from the year 101 on and its
  -- debits at noon of a day, and the zone is lawful.
  pub run_due-Ending :
      (s : Store Decimal) (b : PiggyBank Decimal)
      → find_bank s user id ≡ some b
      → IsDated b.created_at
      → AllDated b.auto_debit_enabled_at
      → All IsNoonDated b.transactions
      → let r = run_due b s in
        (after : PiggyBank Decimal) × (find_bank r.store user id ≡ some after)
        × Ending dec z new_id user id now server_now
            (plan_of b)
            r.end
            after
            (due_cycles dec zone new_id now b)
  run_due-Ending s b found c e dated =
      let r = ran s b found c e dated in (r.bank, r.tracked.found, r.ending)

  -- To run over the due cycles of a bank a second time, at the same time, changes no row and
  -- creates no debit. The bank is in the rows, its creation and the switch of its debit are
  -- dated from the year 101 on and its debits at noon of a day, and the zone is lawful.
  pub run_due_again :
      (s : Store Decimal) (b : PiggyBank Decimal)
      → find_bank s user id ≡ some b
      → IsDated b.created_at
      → AllDated b.auto_debit_enabled_at
      → All IsNoonDated b.transactions
      → let first = run_due b s in
        let second = run_due b first.store in
        (second.store ≡ first.store) × (second.created_count ≡ 0)
  run_due_again s b found c e dated =
      let r = ran s b found c e dated in
      idle dec z new_id user id now server_now (plan_of b) (run_due b s).end
        (due_cycles dec zone new_id now b) (run_due b s).store r.bank r.tracked (planned b c e)
        r.ending
