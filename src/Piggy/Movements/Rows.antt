-- ===== src/Piggy/Movements/Rows.antt =====
-- What a movement does to the rows of the banks, for any property of a bank
-- (`backend/src/lib/piggy/transactions.ts`).
use mathlib.Core.Path.{subst}
use demanage.Prelude.{
  ℕ, ◌≡◌, refl, Bool, true, false, ◌&&◌, Option, none, some, List, [], ◌∷◌, All, find, ◌==◌,
  Bool-cases, Option-cases, inl, inr, arith,
}
use demanage.Prelude.Decimals.{Decimals}
use demanage.CivilDate.{DayKey, Instant}
use demanage.Piggy.Store.{PiggyBank, PiggyError, Store, find_bank, update_banks, is_auto_debit}
use demanage.Piggy.Deposit.{
  is_set, today_in_sao_paulo, existing_auto_debit, goal_is_met, bank_balance, DepositParams,
  deposited, deposit_amount_of, deposit_to_bank, deposit_to_piggy_bank, write_deposit,
}
use demanage.Piggy.Movements.{after_deposit, after_withdrawal}
use demanage.Piggy.Withdraw.{
  WithdrawParams, withdrawn, withdraw_from_bank, withdraw_from_piggy_bank, correction_error,
  is_contradictory, write_withdrawal,
}

module _ {A : Type 0} (P : A → Type 0) where
  find-All : (test : A → Bool) (xs : List A) {a : A} → find test xs ≡ some a → All P xs → P a
  find-All test [] e h = cc
  find-All test (x ∷ xs) {a} e h = elim (Bool-cases (test x)) [
    | inl hit ↦ let same : some x ≡ some a = rw hit at e in subst P (cc same) h.0
    | inr miss ↦ let later : find test xs ≡ some a = rw miss at e in find-All test xs later h.1
  ]

-- The row that an update writes is found again.
module _ {A : Type 0} where
  pub find_passes : (test : A → Bool) (xs : List A) {a : A} → find test xs ≡ some a → test a ≡ true
  find_passes test [] e = cc
  find_passes test (x ∷ xs) {a} e = elim (Bool-cases (test x)) [
    | inl hit ↦ let same : some x ≡ some a = rw hit at e in subst (λ y. test y ≡ true) (cc same) hit
    | inr miss ↦ let later : find test xs ≡ some a = rw miss at e in find_passes test xs later
  ]

module _ {D : Type 0} where
  abbrev pub is_bank : ℕ → ℕ → PiggyBank D → Bool
  is_bank id user b = (b.id == id) && (b.user_id == user)

  pub find_updated :
      (id user : ℕ) (bank row : PiggyBank D) (bs : List (PiggyBank D))
      → is_bank id user row ≡ true
      → find (is_bank id user) bs ≡ some bank
      → find (is_bank id user) (update_banks bank.id row bs) ≡ some row
  unfolding update_banks
  find_updated id user bank row [] p e = cc
  find_updated id user bank row (b ∷ bs) p e = elim (Bool-cases (b.id == bank.id)) [
    | inl hit ↦ rw (hit, p) refl
    | inr miss ↦ elim (Bool-cases (is_bank id user b)) [
      | inl found ↦
          let same : some b ≡ some bank = rw found at e in
          let same_id : b.id ≡ bank.id = cc same in absurd (ground (arith, same_id, miss))
      | inr other ↦
          let later : find (is_bank id user) bs ≡ some bank = rw other at e in
          rw (miss, other) (find_updated id user bank row bs p later)
    ]
  ]

module _ {D : Type 0} (P : PiggyBank D → Type 0) where
  update_banks-All :
      (id : ℕ) (bank : PiggyBank D) (bs : List (PiggyBank D))
      → P bank
      → All P bs
      → All P (update_banks id bank bs)
  unfolding update_banks
  update_banks-All id bank [] p h = tt
  update_banks-All id bank (b ∷ bs) p h = elim (Bool-cases (b.id == id)) [
    | inl hit ↦ rw hit (p, update_banks-All id bank bs p h.1)
    | inr miss ↦ rw miss (h.0, update_banks-All id bank bs p h.1)
  ]

module _ (dec : Decimals) (zone : Instant → DayKey) (P : PiggyBank dec.Decimal → Type 0) where
  open dec use {Decimal, to_money, lt}

  -- A property of all banks is kept by a deposit, if it is by the row that it writes.
  pub deposit-All :
      (p : DepositParams Decimal) (now : Instant) (fresh : ℕ) (s : Store Decimal)
      → ((bank : PiggyBank Decimal)
          → (is_auto_debit p.source
              && existing_auto_debit (today_in_sao_paulo zone p.date) bank.transactions)
            ≡ false
          → goal_is_met dec bank.goal_amount (bank_balance dec bank) ≡ false
          → P bank
          → P (
              deposited dec zone p now fresh
                (deposit_amount_of dec zone bank (to_money p.amount))
                bank))
      → All P s.banks
      → All P (after_deposit s (deposit_to_piggy_bank dec zone p now fresh s)).banks
  unfolding deposit_to_piggy_bank write_deposit deposit_to_bank
  deposit-All p now fresh s keep h = elim (Option-cases (find_bank s p.user_id p.piggy_bank_id)) [
    | inl gone ↦ rw (gone, deposit_to_piggy_bank, All) h
    | inr (bank, found) ↦
        rw (found, deposit_to_piggy_bank, All) (at_bank bank (find-All P _ s.banks found h))
  ]
    where
      day : Instant
      day = today_in_sao_paulo zone p.date

      at_bank :
          (bank : PiggyBank Decimal)
          → P bank
          → All P (after_deposit s (deposit_to_bank dec zone p now fresh s bank)).banks
      at_bank bank good = elim (Bool-cases (is_set bank.archived_at)) [
        | inl off ↦ rw off h
        | inr on ↦
            elim (Bool-cases
              (is_auto_debit p.source && existing_auto_debit day bank.transactions)) [
                | inl paid ↦ rw (on, paid) h
                | inr unpaid ↦
                    elim (Bool-cases (goal_is_met dec bank.goal_amount (bank_balance dec bank))) [
                      | inl met ↦ rw (on, unpaid, met) h
                      | inr unmet ↦
                          rw (on, unpaid, unmet)
                            (update_banks-All P bank.id _ s.banks (keep bank unpaid unmet good) h)
                    ]
              ]
      ]

  -- Likewise for a withdrawal.
  pub withdrawal-All :
      (p : WithdrawParams Decimal) (now : Instant) (fresh : ℕ) (s : Store Decimal)
      → ((bank : PiggyBank Decimal)
          → lt (bank_balance dec bank) (to_money p.amount) ≡ false
          → correction_error dec p.correction_origin s.expenses bank (to_money p.amount) p.user_id
            ≡ none
          → P bank
          → P (withdrawn dec zone p now fresh (to_money p.amount) bank))
      → All P s.banks
      → All P (after_withdrawal s (withdraw_from_piggy_bank dec zone p now fresh s)).banks
  unfolding withdraw_from_piggy_bank write_withdrawal withdraw_from_bank
  withdrawal-All p now fresh s keep h = elim (Bool-cases (is_contradictory dec zone p)) [
    | inl bad ↦ rw bad h
    | inr good ↦ elim (Option-cases (find_bank s p.user_id p.piggy_bank_id)) [
      | inl gone ↦ rw (good, gone) h
      | inr (bank, found) ↦ rw (good, found) (at_bank bank (find-All P _ s.banks found h))
    ]
  ]
    where
      error : PiggyBank Decimal → Option PiggyError
      error bank =
          correction_error dec p.correction_origin s.expenses bank (to_money p.amount) p.user_id

      at_bank :
          (bank : PiggyBank Decimal)
          → P bank
          → All P (after_withdrawal s (withdraw_from_bank dec zone p now fresh s bank)).banks
      at_bank bank good = elim (Bool-cases (is_set bank.archived_at)) [
        | inl off ↦ rw off h
        | inr on ↦ elim (Bool-cases (lt (bank_balance dec bank) (to_money p.amount))) [
          | inl short ↦ rw (on, short) h
          | inr enough ↦ elim (Option-cases (error bank)) [
            | inl fine ↦
                rw (on, enough, fine)
                  (update_banks-All P bank.id _ s.banks (keep bank enough fine good) h)
            | inr (e, refused) ↦ rw (on, enough, refused) h
          ]
        ]
      ]
