-- ===== src/Piggy/Movements/Goal.antt =====
-- The balance of a bank and the mark of its goal under the movements
-- (`backend/src/lib/piggy/transactions.ts`).
use mathlib.Core.Path.{subst}
use demanage.Prelude.{
  ℕ, ◌≡◌, refl, sym, ◌∙◌, false, not, ◌&&◌, Option, none, some, List, [], ◌∷◌, ◌++◌, All,
  if◌then◌else◌, Bool-cases, inl, inr, arith,
}
use demanage.Prelude.Int.{ℤ, pos, ◌-ℤ◌, ◌≤ℤ◌, ltb_ℤ, +ℤ_parts, -ℤ_parts, int_laws}
use demanage.Prelude.Decimals.{Decimals, IsExact}
use demanage.CivilDate.{DayKey, Instant}
use demanage.Piggy.Ledger.{signed_amount, balance_from, balance_decimal_from_transactions}
use demanage.Piggy.Store.{PiggyTransaction, PiggyBank, Store, ledger_of}
use demanage.Piggy.Deposit.{
  is_set, goal_is_met, capped_amount, reaches, bank_balance, DepositParams, deposited,
  deposit_amount_of, deposit_row, today_in_sao_paulo,
}
use demanage.Piggy.Withdraw.{WithdrawParams, withdrawn, is_below, withdraw_row}
use demanage.Piggy.Movements.{Movement, put, take, amount_of, perform, run}
use demanage.Piggy.Movements.Rows.{deposit-All, withdrawal-All}

pub balance_from-append :
    (dec : Decimals) (b : dec.Decimal) (ts : List (PiggyTransaction dec.Decimal))
    (t : PiggyTransaction dec.Decimal)
    → balance_from dec b (ledger_of (ts ++ t ∷ []))
      ≡ dec.plus (balance_from dec b (ledger_of ts)) (signed_amount dec t.kind t.amount)
unfolding balance_from
balance_from-append dec b [] t = refl
balance_from-append dec b (u ∷ ts) t =
    balance_from-append dec (dec.plus b (signed_amount dec u.kind u.amount)) ts t

module _ {dec : Decimals} (x : IsExact dec) where
  open dec use {Decimal, of_ℕ, plus, minus, lt, to_money}

  -- A withdrawal adds the negated amount, which is the difference.
  plus-negated : (a b : Decimal) → plus a (dec.negated b) ≡ minus a b
  plus-negated a b = x.scaled_inj _ _ (
      rw (x.scaled-plus a (dec.negated b), x.scaled-negated b, x.scaled-minus a b) (omega int_laws))

  abbrev pub balance_of : PiggyBank Decimal → ℤ
  balance_of bank = x.scaled (bank_balance dec bank)

  -- With a goal the bank is marked as complete exactly when its balance is at the goal.
  abbrev pub IsMarked : Option Decimal → Option Instant → Decimal → Type 0
  IsMarked none completed balance = Unit
  IsMarked (some goal) completed balance = is_set completed ≡ not (lt balance goal)

  pub record IsKept (bank : PiggyBank Decimal) : Type 0 where
    pub solvent : pos 0 ≤ℤ balance_of bank
    pub marked : IsMarked bank.goal_amount bank.completed_at (bank_balance dec bank)

  capped_amount_nonneg :
      (goal : Option Decimal) (balance requested : Decimal)
      → goal_is_met dec goal balance ≡ false
      → pos 0 ≤ℤ x.scaled requested
      → pos 0 ≤ℤ x.scaled (capped_amount dec goal balance requested)
  capped_amount_nonneg none balance requested e h = h
  capped_amount_nonneg (some g) balance requested e h = ground (
    arith,
    x.lt-scaled (of_ℕ 0) (minus g balance),
    x.scaled-zero,
    x.lt-scaled (minus g balance) requested,
  )

  -- What is at the goal stays there under a deposit, and was there before a withdrawal.
  at_goal_after :
      (g balance amount : Decimal)
      → pos 0 ≤ℤ x.scaled amount
      → lt balance g ≡ false
      → lt (plus balance amount) g ≡ false
  at_goal_after g balance amount h e =
      let sum = x.scaled-plus balance amount in
      let before : ltb_ℤ (x.scaled balance) (x.scaled g) ≡ false =
        sym (x.lt-scaled balance g) ∙ e in
      rw (x.lt-scaled (plus balance amount) g, sum)
        (ground (arith, before, +ℤ_parts (x.scaled balance) (x.scaled amount)))

  at_goal_before :
      (g balance amount : Decimal)
      → pos 0 ≤ℤ x.scaled amount
      → lt (minus balance amount) g ≡ false
      → lt balance g ≡ false
  at_goal_before g balance amount h e =
      let before : ltb_ℤ (x.scaled balance -ℤ x.scaled amount) (x.scaled g) ≡ false =
        rw (← x.scaled-minus balance amount, ← x.lt-scaled (minus balance amount) g) e in
      rw (x.lt-scaled balance g)
        (ground (arith, before, -ℤ_parts (x.scaled balance) (x.scaled amount)))

  IsMarked-by_deposit :
      (goal : Option Decimal) (completed : Option Instant) (day : Instant)
      (balance amount : Decimal)
      → IsMarked goal completed balance
      → pos 0 ≤ℤ x.scaled amount
      → IsMarked goal
          (if reaches dec goal (plus balance amount) && not (is_set completed)
            then some day
            else completed)
          (plus balance amount)
  IsMarked-by_deposit none completed day balance amount m h = tt
  IsMarked-by_deposit (some g) completed day balance amount m h = elim (Bool-cases (lt balance g)) [
    | inl below ↦ ground (arith, m, below)
    | inr at ↦ ground (arith, m, at, at_goal_after g balance amount h at)
  ]

  IsMarked-by_withdrawal :
      (goal : Option Decimal) (completed : Option Instant) (balance amount : Decimal)
      → IsMarked goal completed balance
      → pos 0 ≤ℤ x.scaled amount
      → IsMarked goal
          (if is_below dec goal (minus balance amount) then none else completed)
          (minus balance amount)
  IsMarked-by_withdrawal none completed balance amount m h = tt
  IsMarked-by_withdrawal (some g) completed balance amount m h =
      ground (arith, m, at_goal_before g balance amount h)

  -- From the balance after the movement to the row of the bank.
  IsKept-at :
      (bank : PiggyBank Decimal) (next : Decimal)
      → bank_balance dec bank ≡ next
      → pos 0 ≤ℤ x.scaled next
      → IsMarked bank.goal_amount bank.completed_at next
      → IsKept bank
  IsKept-at bank next e nonneg m = record {
    solvent = subst (λ b. pos 0 ≤ℤ x.scaled b) (sym e) nonneg;
    marked = subst (λ b. IsMarked bank.goal_amount bank.completed_at b) (sym e) m;
  }

  pub deposited-IsKept :
      (zone : Instant → DayKey) (p : DepositParams Decimal) (now : Instant) (fresh : ℕ)
      (amount : Decimal) (bank : PiggyBank Decimal)
      → pos 0 ≤ℤ x.scaled amount
      → IsKept bank
      → IsKept (deposited dec zone p now fresh amount bank)
  unfolding deposited signed_amount balance_decimal_from_transactions
  deposited-IsKept zone p now fresh amount bank small k =
      let balance = bank_balance dec bank in
      let row = deposit_row dec zone p fresh amount in
      let solvent : pos 0 ≤ℤ x.scaled (plus balance amount) =
        rw (x.scaled-plus balance amount)
          (omega (arith, +ℤ_parts (x.scaled balance) (x.scaled amount), small, k.solvent)) in
      IsKept-at (deposited dec zone p now fresh amount bank) (plus balance amount)
        (balance_from-append dec (of_ℕ 0) bank.transactions row) solvent
        (IsMarked-by_deposit bank.goal_amount bank.completed_at (today_in_sao_paulo zone p.date)
          balance amount k.marked small)

  pub withdrawn-IsKept :
      (zone : Instant → DayKey) (p : WithdrawParams Decimal) (now : Instant) (fresh : ℕ)
      (amount : Decimal) (bank : PiggyBank Decimal)
      → pos 0 ≤ℤ x.scaled amount
      → lt (bank_balance dec bank) amount ≡ false
      → IsKept bank
      → IsKept (withdrawn dec zone p now fresh amount bank)
  unfolding withdrawn signed_amount balance_decimal_from_transactions
  withdrawn-IsKept zone p now fresh amount bank h enough k =
      let balance = bank_balance dec bank in
      let next = minus balance amount in
      let row = withdraw_row dec zone p fresh amount in
      let covered : ltb_ℤ (x.scaled balance) (x.scaled amount) ≡ false =
        sym (x.lt-scaled balance amount) ∙ enough in
      let solvent : pos 0 ≤ℤ x.scaled next =
        rw (x.scaled-minus balance amount)
          (ground (arith, -ℤ_parts (x.scaled balance) (x.scaled amount), covered)) in
      IsKept-at (withdrawn dec zone p now fresh amount bank) next
        (balance_from-append dec (of_ℕ 0) bank.transactions row ∙ plus-negated balance amount)
        solvent
        (IsMarked-by_withdrawal bank.goal_amount bank.completed_at balance amount k.marked h)

  -- The amount that a movement asks for is not negative.
  abbrev pub IsAmount : Movement Decimal → Type 0
  IsAmount m = pos 0 ≤ℤ x.scaled (to_money (amount_of m))

  perform-IsKept :
      (zone : Instant → DayKey) (m : Movement Decimal) (s : Store Decimal)
      → IsAmount m
      → All IsKept s.banks
      → All IsKept (perform dec zone m s).banks
  unfolding perform deposit_amount_of
  perform-IsKept zone (put p now fresh) s h k =
      deposit-All dec zone IsKept p now fresh s
        (λ bank unpaid unmet good.
          deposited-IsKept zone p now fresh _ bank
            (capped_amount_nonneg bank.goal_amount (bank_balance dec bank) (to_money p.amount) unmet
              h)
            good)
        k
  perform-IsKept zone (take p now fresh) s h k =
      withdrawal-All dec zone IsKept p now fresh s
        (λ bank enough fine good.
          withdrawn-IsKept zone p now fresh (to_money p.amount) bank h enough good)
        k

  -- Deposits and withdrawals in any sequence, those that are refused included, keep every bank
  -- of the rows from a balance below zero, and keep a bank with a goal marked as complete
  -- exactly when its balance is at the goal. No amount asked for is negative once it is rounded
  -- to cents, and the decimals are exact.
  pub run-IsKept :
      (zone : Instant → DayKey) (ms : List (Movement Decimal)) (s : Store Decimal)
      → All IsAmount ms
      → All IsKept s.banks
      → All IsKept (run dec zone ms s).banks
  unfolding run
  run-IsKept zone [] s h k = k
  run-IsKept zone (m ∷ ms) s h k =
      run-IsKept zone ms (perform dec zone m s) h.1 (perform-IsKept zone m s h.0 k)
