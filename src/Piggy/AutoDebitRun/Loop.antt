-- ===== src/Piggy/AutoDebitRun/Loop.antt =====
-- The loop over the cycles of a bank (`runPiggyAutoDebits` of `backend/src/lib/piggy/auto-debit-run.ts`).
use mathlib.Core.Path.{subst}
use demanage.Prelude.{
  ℕ, suc, ◌≡◌, refl, sym, ap, ◌∙◌, true, false, Option, some, List, [], ◌∷◌, ◌++◌, All, All-snoc,
  not_both,
}
use demanage.Prelude.Decimals.{Decimals}
use demanage.CivilDate.{DayKey, Instant, noon, day_key_to_date}
use demanage.CivilDate.Zone.{IsFullKey, IsZone}
use demanage.Piggy.AutoDebit.{AutoDebitCycle, due_key, is_scheduled_auto_debit_cycle_still_due}
use demanage.Piggy.Store.{PiggyTransaction, PiggyBank, Store, find_bank}
use demanage.Piggy.Deposit.{deposit_row, deposited, deposit_amount_of}
use demanage.Piggy.Movements.Monthly.{IsNoonDated}
use demanage.Piggy.AutoDebitRun.{RunEnd, went_through, stopped, failed, CyclesRun, run_cycles}
use demanage.Piggy.AutoDebitRun.Cycle.{
  IsCycle, has, has_lem, has-snoc, due_key-IsFullKey, takes_none, StillDue, debited_bank, params_of,
  closed, had, made, process_lem, any-last,
}
use demanage.Piggy.AutoDebitRun.Months.{found_by_days, in_cycle_days, in_cycle_days_self}

-- The schedule of a bank, which its debits do not change.
pub record Schedule : Type 0 where
  pub opened_at : Instant
  pub day : ℕ
  pub enabled_at : Option Instant

module _ (dec : Decimals) {zone : Instant → DayKey} (z : IsZone zone)
    (new_id : Store dec.Decimal → ℕ) (user id : ℕ) (now server_now : Instant)
    (plan : Schedule) where
  open dec use {Decimal, to_money}

  abbrev pub IsPlanned : AutoDebitCycle → Type 0
  IsPlanned c =
      IsCycle plan.day c
      × (is_scheduled_auto_debit_cycle_still_due zone c now plan.opened_at plan.day plan.enabled_at
          ≡ true)

  -- The bank is in the rows, on its schedule, and its debits are dated at noon.
  pub record Tracked (s : Store Decimal) (b : PiggyBank Decimal) : Type 0 where
    pub found : find_bank s user id ≡ some b
    pub opened : b.created_at ≡ plan.opened_at
    pub on_day : b.auto_debit_day ≡ plan.day
    pub enabled : b.auto_debit_enabled_at ≡ plan.enabled_at
    pub dated : All IsNoonDated b.transactions

  -- What the end of the cycles says: each has its debit, or the bank takes no more; none throws.
  abbrev pub Ending : RunEnd → PiggyBank Decimal → List AutoDebitCycle → Type 0
  Ending went_through bank cs = All (λ c. has z bank.transactions c ≡ true) cs
  Ending stopped bank cs = takes_none dec z new_id user id now server_now bank ≡ true
  Ending failed bank cs = ⊥

  -- How the cycles `cs` of the bank `b` end.
  pub record Ran (b : PiggyBank Decimal) (cs : List AutoDebitCycle) (r : CyclesRun Decimal)
      : Type 0 where
    pub bank : PiggyBank Decimal
    pub tracked : Tracked r.store bank
    pub keeps :
        (c : AutoDebitCycle)
        → IsCycle plan.day c
        → has z b.transactions c ≡ true
        → has z bank.transactions c ≡ true
    pub ending : Ending r.end bank cs

  abbrev next_bank : Store Decimal → PiggyBank Decimal → AutoDebitCycle → PiggyBank Decimal
  next_bank s b c = debited_bank dec z new_id user id now server_now s b c

  abbrev row : Store Decimal → PiggyBank Decimal → AutoDebitCycle → PiggyTransaction Decimal
  row s b c =
      let p = params_of dec z new_id user id now server_now b c in
      deposit_row dec zone p (new_id s) (deposit_amount_of dec zone b (to_money p.amount))

  due_day :
      (c : AutoDebitCycle) (i : IsCycle plan.day c)
      → zone c.due_on ≡ due_key i.year i.month plan.day
  due_day c i =
      ap zone i.due ∙ z.keeps_noon _ (due_key-IsFullKey i.year i.month plan.day i.month_in i.full)

  due_on-IsFullKey : (c : AutoDebitCycle) (i : IsCycle plan.day c) → IsFullKey (zone c.due_on)
  due_on-IsFullKey c i =
      subst IsFullKey (sym (due_day c i))
        (due_key-IsFullKey i.year i.month plan.day i.month_in i.full)

  next_bank-Tracked :
      (s t : Store Decimal) (b : PiggyBank Decimal) (c : AutoDebitCycle)
      → Tracked s b
      → IsCycle plan.day c
      → find_bank t user id ≡ some (next_bank s b c)
      → Tracked t (next_bank s b c)
  unfolding deposited
  next_bank-Tracked s t b c k i found = record {
    found = found;
    opened = k.opened;
    on_day = k.on_day;
    enabled = k.enabled;
    dated =
        All-snoc IsNoonDated b.transactions (row s b c) k.dated
          (λ debit. (zone c.due_on, (due_on-IsFullKey c i, refl)));
  }

  next_bank-has :
      (s : Store Decimal) (b : PiggyBank Decimal) (c : AutoDebitCycle)
      → (i : IsCycle plan.day c) → has z (next_bank s b c).transactions c ≡ true
  unfolding deposited
  next_bank-has s b c i =
      let day : zone (day_key_to_date (zone c.due_on) noon) ≡ due_key i.year i.month plan.day =
        z.keeps_noon (zone c.due_on) (due_on-IsFullKey c i) ∙ due_day c i in
      let v = due_key-IsFullKey i.year i.month plan.day i.month_in i.full in
      has_lem z c i (b.transactions ++ row s b c ∷ [])
      ∙ any-last z (found_by_days zone i.year i.month) b.transactions (row s b c) (
          ap (in_cycle_days i.year i.month) day
          ∙ in_cycle_days_self i.year i.month _ i.month_in v.0)

  still_due :
      (b : PiggyBank Decimal) (c : AutoDebitCycle) {s : Store Decimal}
      → Tracked s b
      → (is_scheduled_auto_debit_cycle_still_due zone c now plan.opened_at plan.day plan.enabled_at
          ≡ true)
      → StillDue dec z new_id user id now server_now b c
  still_due b c k due = simp (k.opened, k.on_day, k.enabled, due)

  abbrev pub run_from : List AutoDebitCycle → Store Decimal → CyclesRun Decimal
  run_from cs s = run_cycles dec zone new_id user id now server_now cs s

  also :
      (e : RunEnd) (bank : PiggyBank Decimal) (c : AutoDebitCycle) (cs : List AutoDebitCycle)
      → has z bank.transactions c ≡ true
      → Ending e bank cs
      → Ending e bank (c ∷ cs)
  also went_through bank c cs h rest = (h, rest)
  also stopped bank c cs h rest = rest
  also failed bank c cs h rest = rest

  -- The rest after a cycle that was paid before.
  after_paid :
      (c : AutoDebitCycle) (cs : List AutoDebitCycle) (s : Store Decimal) (b : PiggyBank Decimal)
      → IsCycle plan.day c
      → has z b.transactions c ≡ true
      → Ran b cs (run_from cs s)
      → Ran b (c ∷ cs) (run_from cs s)
  after_paid c cs s b i paid rest = record {
    bank = rest.bank;
    tracked = rest.tracked;
    keeps = rest.keeps;
    ending = also (run_from cs s).end rest.bank c cs (rest.keeps c i paid) rest.ending;
  }

  -- The rest after a debit.
  after_made :
      (c : AutoDebitCycle) (cs : List AutoDebitCycle) (s t : Store Decimal) (b : PiggyBank Decimal)
      → IsCycle plan.day c
      → Ran (next_bank s b c) cs (run_from cs t)
      → Ran b
          (c ∷ cs)
          (record (run_from cs t) { created_count = suc (run_from cs t).created_count })
  unfolding deposited
  after_made c cs s t b i rest = record {
    bank = rest.bank;
    tracked = rest.tracked;
    keeps = λ d j e. rest.keeps d j (has-snoc z d j b.transactions (row s b c) e);
    ending =
        also (run_from cs t).end rest.bank c cs (rest.keeps c i (next_bank-has s b c i))
          rest.ending;
  }

  pub run_cycles_lem :
      (cs : List AutoDebitCycle) (s : Store Decimal) (b : PiggyBank Decimal)
      → Tracked s b
      → All IsPlanned cs
      → Ran b cs (run_cycles dec zone new_id user id now server_now cs s)
  unfolding run_cycles
  run_cycles_lem [] s b k h = record { bank = b; tracked = k; keeps = λ c i e. e; ending = tt }
  run_cycles_lem (c ∷ cs) s b k h =
      let (i, due) = h.0 in
      let i' : IsCycle b.auto_debit_day c = subst (λ d. IsCycle d c) (sym k.on_day) i in
      elim (process_lem dec z new_id user id now server_now s b c k.found (still_due b c k due) i'
        k.dated) [
          | closed e none_taken ↦
              rw (e, run_cycles)
                (record { bank = b; tracked = k; keeps = λ c i e. e; ending = none_taken })
          | had e paid ↦
              rw (e, run_cycles) (after_paid c cs s b i paid (run_cycles_lem cs s b k h.1))
          | made t e found takes new ↦
              let rest =
                run_cycles_lem cs t (next_bank s b c) (next_bank-Tracked s t b c k i found) h.1 in
              rw (e, run_cycles) (after_made c cs s t b i rest)
        ]

  -- A bank whose cycles have ended is left alone.
  pub idle :
      (e : RunEnd) (cs : List AutoDebitCycle) (s : Store Decimal) (b : PiggyBank Decimal)
      → Tracked s b
      → All IsPlanned cs
      → Ending e b cs
      → ((run_from cs s).store ≡ s) × ((run_from cs s).created_count ≡ 0)
  unfolding run_cycles
  idle e [] s b k h ending = (refl, refl)
  idle e (c ∷ cs) s b k h ending =
      let (i, due) = h.0 in
      let i' : IsCycle b.auto_debit_day c = subst (λ d. IsCycle d c) (sym k.on_day) i in
      elim (process_lem dec z new_id user id now server_now s b c k.found (still_due b c k due) i'
        k.dated) [
          | closed o none_taken ↦ rw (o, run_cycles) (refl, refl)
          | had o paid ↦ rw (o, run_cycles) (idle e cs s b k h.1 (rest e ending))
          | made t o found takes new ↦ absurd (busy e takes new ending)
        ]
    where
      rest : (e : RunEnd) → Ending e b (c ∷ cs) → Ending e b cs
      rest went_through h = h.1
      rest stopped h = h
      rest failed h = h

      busy :
          (e : RunEnd)
          → takes_none dec z new_id user id now server_now b ≡ false
          → has z b.transactions c ≡ false
          → Ending e b (c ∷ cs)
          → ⊥
      busy went_through takes new h = not_both _ h.0 new
      busy stopped takes new h = not_both _ h takes
      busy failed takes new h = h
