-- ===== src/Piggy/AutoDebitRun/Cycle.antt =====
-- One cycle of a bank (`processPiggyAutoDebitCycle` of `backend/src/lib/piggy/auto-debit-run.ts`).
use demanage.Prelude.{
  ℕ, ◌<◌, ◌≡◌, refl, sym, ap, ◌∙◌, Bool, true, false, not, ◌&&◌, ◌||◌, Option, some, List, [], ◌∷◌,
  ◌++◌, map, All, any, ◌==◌, ==_iff, if◌then◌else◌, Bool-cases, inl, inr, arith, and_parts,
  not_both,
}
use demanage.Prelude.Decimals.{Decimals}
use demanage.CivilDate.{
  DayKey, day_key, Instant, noon, last_day_of_month, day_key_to_date, month_bounds, key_lt, key_le,
}
use demanage.CivilDate.Order.{clamp_day_to_month-IsKey}
use demanage.CivilDate.Numbers.{IsFull}
use demanage.CivilDate.Zone.{IsFullKey, IsZone}
use demanage.Piggy.AutoDebit.{
  AutoDebitCycle, due_key, cycle_for_month, has_auto_debit_in_cycle, is_deposit,
  is_scheduled_auto_debit_cycle_still_due,
}
use demanage.Piggy.Store.{
  PiggyTransaction, PiggyBank, Store, Outcome, ok, find_bank, cycle_view, is_auto_debit,
}
use demanage.Piggy.Deposit.{
  is_set, goal_is_met, bank_balance, DepositParams, deposited, deposit_to_piggy_bank,
  deposit_to_bank, write_deposit, existing_auto_debit, today_in_sao_paulo, deposit_amount_of,
}
use demanage.Piggy.Movements.Monthly.{IsNoonDated}
use demanage.Piggy.Movements.Rows.{find_passes, is_bank, find_updated}
use demanage.Piggy.AutoDebitRun.{
  CycleOutcome, created, skipped, stop, is_active, find_active, debit_amount, debit_params,
  cycle_outcome, debit_cycle, process_active, process_piggy_auto_debit_cycle,
}
use demanage.Piggy.AutoDebitRun.Months.{
  first-IsKey, last-IsKey, found_by_days, existing_auto_debit_by_days,
}

-- A cycle as the listing makes them: that of a month, for a day of debit.
pub record IsCycle (day : ℕ) (c : AutoDebitCycle) : Type 0 where
  pub year : ℕ
  pub month : ℕ
  pub month_in : month < 12
  pub full : IsFull year
  pub due : c.due_on ≡ day_key_to_date (due_key year month day) noon
  pub start : c.month_start ≡ day_key_to_date (day_key year month 1) noon
  pub end : c.month_end ≡ day_key_to_date (day_key year month (last_day_of_month year month)) noon

pub cycle_for_month-IsCycle :
    (y m : ℕ) (today created : DayKey) (day : ℕ) (enabled : Option DayKey) (c : AutoDebitCycle)
    → m < 12
    → IsFull y
    → cycle_for_month y m today created day enabled ≡ some c
    → IsCycle day c
unfolding cycle_for_month month_bounds
cycle_for_month-IsCycle y m today opened day enabled c h f e = record {
  year = y;
  month = m;
  month_in = h;
  full = f;
  due = ground (arith, e);
  start = ground (arith, e);
  end = ground (arith, e);
}

cycle_test :
    (auto paid a b : Bool)
    → (if not paid || not auto then false else a && b) ≡ ((auto && paid) && (a && b))
cycle_test true true a b = refl
cycle_test true false a b = refl
cycle_test false true a b = refl
cycle_test false false a b = refl

pub due_key-IsFullKey : (y m day : ℕ) → m < 12 → IsFull y → IsFullKey (due_key y m day)
due_key-IsFullKey y m day h f = (clamp_day_to_month-IsKey y m (if day == 0 then 1 else day) h, f)

module _ {zone : Instant → DayKey} (z : IsZone zone) {D : Type 0} where
  abbrev pub has : List (PiggyTransaction D) → AutoDebitCycle → Bool
  has ts c = has_auto_debit_in_cycle zone (map cycle_view ts) (some c)

  -- The test of a cycle is that of the days of its month.
  pub has_lem :
      {day : ℕ} (c : AutoDebitCycle) (i : IsCycle day c) (ts : List (PiggyTransaction D))
      → has ts c ≡ any (found_by_days zone i.year i.month) ts
  unfolding has_auto_debit_in_cycle
  has_lem c i [] = refl
  has_lem c i (t ∷ ts) =
      let first =
        z.keeps_noon (day_key i.year i.month 1) (first-IsKey i.year i.month i.month_in, i.full) in
      let last =
        z.keeps_noon (day_key i.year i.month (last_day_of_month i.year i.month))
          (last-IsKey i.year i.month i.month_in, i.full) in
      let starts = ap zone i.start ∙ first in
      let ends = ap zone i.end ∙ last in
      let test =
        cycle_test (is_auto_debit t.source) (is_deposit t.kind)
          (not (key_lt (zone t.date) (zone c.month_start)))
          (key_le (zone t.date) (zone c.month_end)) in
      rw (test, has_lem c i ts, starts, ends) refl

  any-snoc :
      (p : PiggyTransaction D → Bool) (ts : List (PiggyTransaction D)) (t : PiggyTransaction D)
      → any p ts ≡ true
      → any p (ts ++ t ∷ []) ≡ true
  any-snoc p [] t e = cc
  any-snoc p (u ∷ ts) t e = elim (Bool-cases (p u)) [
    | inl hit ↦ rw hit refl
    | inr miss ↦ let rest : any p ts ≡ true = rw miss at e in rw miss (any-snoc p ts t rest)
  ]

  pub any-last :
      (p : PiggyTransaction D → Bool) (ts : List (PiggyTransaction D)) (t : PiggyTransaction D)
      → p t ≡ true
      → any p (ts ++ t ∷ []) ≡ true
  any-last p [] t e = rw e refl
  any-last p (u ∷ ts) t e = elim (Bool-cases (p u)) [
    | inl hit ↦ rw hit refl
    | inr miss ↦ rw miss (any-last p ts t e)
  ]

  -- More transactions take no debit away.
  pub has-snoc :
      {day : ℕ} (c : AutoDebitCycle) (i : IsCycle day c) (ts : List (PiggyTransaction D))
      (t : PiggyTransaction D)
      → has ts c ≡ true
      → has (ts ++ t ∷ []) c ≡ true
  has-snoc c i ts t e =
      has_lem c i (ts ++ t ∷ [])
      ∙ any-snoc (found_by_days zone i.year i.month) ts t (sym (has_lem c i ts) ∙ e)

module _ (dec : Decimals) {zone : Instant → DayKey} (z : IsZone zone)
    (new_id : Store dec.Decimal → ℕ) (user id : ℕ) (now server_now : Instant) where
  open dec use {Decimal, of_ℕ, lt, to_money}

  -- The bank takes no debit: it is not active, or has nothing to pay, or its goal is met.
  abbrev pub takes_none : PiggyBank Decimal → Bool
  takes_none b =
      not (is_active b)
      || not (lt (of_ℕ 0) b.monthly_goal)
      || goal_is_met dec b.goal_amount (bank_balance dec b)

  abbrev pub StillDue : PiggyBank Decimal → AutoDebitCycle → Type 0
  StillDue b c =
      is_scheduled_auto_debit_cycle_still_due zone c now b.created_at b.auto_debit_day
        b.auto_debit_enabled_at
      ≡ true

  abbrev pub params_of : PiggyBank Decimal → AutoDebitCycle → DepositParams Decimal
  params_of b c =
      debit_params dec zone new_id user b.id c
        (debit_amount dec zone new_id b.goal_amount (bank_balance dec b) b.monthly_goal)

  -- The bank after the debit of a cycle.
  abbrev pub debited_bank : Store Decimal → PiggyBank Decimal → AutoDebitCycle → PiggyBank Decimal
  debited_bank s b c =
      let p = params_of b c in
      deposited dec zone p server_now (new_id s) (deposit_amount_of dec zone b (to_money p.amount))
        b

  -- What a cycle that is due does to a bank.
  pub data Processed (s : Store Decimal) (b : PiggyBank Decimal) (c : AutoDebitCycle)
      (o : Outcome (Store Decimal × CycleOutcome)) : Type 0 where
    closed : o ≡ ok (s, stop) → takes_none b ≡ true → Processed s b c o
    had : o ≡ ok (s, skipped) → has z b.transactions c ≡ true → Processed s b c o
    made :
        (t : Store Decimal)
        → o ≡ ok (t, created)
        → find_bank t user id ≡ some (debited_bank s b c)
        → takes_none b ≡ false
        → has z b.transactions c ≡ false
        → Processed s b c o

  deposit_lem :
      (s : Store Decimal) (b : PiggyBank Decimal) (c : AutoDebitCycle)
      → find_bank s user id ≡ some b
      → is_active b ≡ true
      → goal_is_met dec b.goal_amount (bank_balance dec b) ≡ false
      → existing_auto_debit (today_in_sao_paulo zone c.due_on) b.transactions ≡ false
      → let p = params_of b c in
        deposit_to_piggy_bank dec zone p server_now (new_id s) s
        ≡ ok (
            write_deposit dec zone p server_now
              (new_id s)
              (deposit_amount_of dec zone b (to_money p.amount))
              b
              s)
  unfolding deposit_to_piggy_bank deposit_to_bank
  deposit_lem s b c found active unmet unpaid =
      let passes = find_passes (is_bank id user) s.banks found in
      let same : b.id ≡ id = (==_iff b.id id).0 (and_parts _ _ passes).0 in
      let again : find_bank s user b.id ≡ some b = ap (find_bank s user) same ∙ found in
      let on =
        not_true (is_set b.archived_at)
          (and_parts b.auto_debit _ (and_parts _ (not (is_set b.completed_at)) active).0).1 in
      rw (again, deposit_to_piggy_bank) (rw (on, unpaid, unmet, deposit_to_bank) refl)
    where
      not_true : (x : Bool) → not x ≡ true → x ≡ false
      not_true true e = cc
      not_true false e = refl

  debit_cycle_lem :
      (s : Store Decimal) (b : PiggyBank Decimal) (c : AutoDebitCycle)
      → find_bank s user id ≡ some b
      → is_active b ≡ true
      → goal_is_met dec b.goal_amount (bank_balance dec b) ≡ false
      → existing_auto_debit (today_in_sao_paulo zone c.due_on) b.transactions ≡ false
      → takes_none b ≡ false
      → has z b.transactions c ≡ false
      → Processed s b c (debit_cycle dec zone new_id user c server_now s b)
  unfolding debit_cycle write_deposit find_bank deposited
  debit_cycle_lem s b c found active unmet unpaid takes new =
      made (write_deposit dec zone p server_now (new_id s) amount b s).0
        (ap (cycle_outcome dec zone new_id) (deposit_lem s b c found active unmet unpaid))
        (find_updated id user b (debited_bank s b c) s.banks
          (find_passes (is_bank id user) s.banks found) found)
        takes new
    where
      p : DepositParams Decimal
      p = params_of b c

      amount : Decimal
      amount = deposit_amount_of dec zone b (to_money p.amount)

  process_active_lem :
      (s : Store Decimal) (b : PiggyBank Decimal) (c : AutoDebitCycle)
      → find_bank s user id ≡ some b
      → is_active b ≡ true
      → StillDue b c
      → IsCycle b.auto_debit_day c
      → All IsNoonDated b.transactions
      → Processed s b c (process_active dec zone new_id user c now server_now s b)
  unfolding process_active
  process_active_lem s b c found active due i dated =
      elim (Bool-cases (lt (of_ℕ 0) b.monthly_goal)) [
        | inr nothing ↦ rw nothing (closed refl (none_to_pay nothing))
        | inl some_goal ↦ elim (Bool-cases (has z b.transactions c)) [
          | inl paid ↦ rw (some_goal, due, paid) (had refl paid)
          | inr unpaid ↦ elim (Bool-cases (goal_is_met dec b.goal_amount (bank_balance dec b))) [
            | inl met ↦ rw (some_goal, due, unpaid, met) (closed refl (goal_met met))
            | inr unmet ↦
                rw (some_goal, due, unpaid, unmet)
                  (debit_cycle_lem s b c found active unmet (unfound unpaid) (takes some_goal unmet)
                    unpaid)
          ]
        ]
      ]
    where
      none_to_pay : lt (of_ℕ 0) b.monthly_goal ≡ false → takes_none b ≡ true
      none_to_pay e = ground (arith, e)

      goal_met : goal_is_met dec b.goal_amount (bank_balance dec b) ≡ true → takes_none b ≡ true
      goal_met e = ground (arith, e)

      takes :
          lt (of_ℕ 0) b.monthly_goal ≡ true
          → goal_is_met dec b.goal_amount (bank_balance dec b) ≡ false
          → takes_none b ≡ false
      takes e u = rw (active, e, u) refl

      unfound :
          has z b.transactions c ≡ false
          → existing_auto_debit (today_in_sao_paulo zone c.due_on) b.transactions ≡ false
      unfound e =
          elim (Bool-cases
            (existing_auto_debit (today_in_sao_paulo zone c.due_on) b.transactions)) [
              | inr none_there ↦ none_there
              | inl there ↦
                  let k = due_key i.year i.month b.auto_debit_day in
                  let v = (due_key-IsFullKey i.year i.month b.auto_debit_day i.month_in i.full) in
                  let day : zone c.due_on ≡ k = ap zone i.due ∙ z.keeps_noon k v in
                  let there' : existing_auto_debit (day_key_to_date k noon) b.transactions ≡ true =
                    rw day at there in
                  let days = existing_auto_debit_by_days z k b.transactions v dated there' in
                  absurd (not_both (has z b.transactions c) (has_lem z c i b.transactions ∙ days) e)
            ]

  -- What a cycle that is due does, where the bank is in the rows.
  pub process_lem :
      (s : Store Decimal) (b : PiggyBank Decimal) (c : AutoDebitCycle)
      → find_bank s user id ≡ some b
      → StillDue b c
      → IsCycle b.auto_debit_day c
      → All IsNoonDated b.transactions
      → Processed s b c (process_piggy_auto_debit_cycle dec zone new_id user id c now server_now s)
  unfolding process_piggy_auto_debit_cycle find_active
  process_lem s b c found due i dated = elim (Bool-cases (is_active b)) [
    | inr off ↦
        rw (found, process_piggy_auto_debit_cycle)
          (rw (off, process_piggy_auto_debit_cycle) (closed refl (rw off refl)))
    | inl on ↦
        rw (found, process_piggy_auto_debit_cycle)
          (rw (on, process_piggy_auto_debit_cycle) (process_active_lem s b c found on due i dated))
  ]
