-- ===== src/Piggy/Movements.antt =====
-- Sequences of deposits and withdrawals on the rows of a user
-- (`backend/src/lib/piggy/transactions.ts`). A movement that throws leaves the rows as they were: its
-- database transaction is rolled back.
pub mod Rows
pub mod Goal
pub mod Corrections
pub mod Monthly
use demanage.Prelude.{ℕ, List, [], ◌∷◌}
use demanage.Prelude.Decimals.{Decimals}
use demanage.CivilDate.{DayKey, Instant}
use demanage.Piggy.Store.{Store, Outcome, ok, throw}
use demanage.Piggy.Deposit.{DepositParams, DepositResult, deposit_to_piggy_bank}
use demanage.Piggy.Withdraw.{WithdrawParams, withdraw_from_piggy_bank}

-- The parameters, the time of the server and the identifier of the new row.
pub data Movement (D : Type 0) : Type 0 where
  put : DepositParams D → Instant → ℕ → Movement D
  take : WithdrawParams D → Instant → ℕ → Movement D

module _ {D : Type 0} where
  abbrev pub after_deposit : Store D → Outcome (Store D × DepositResult D) → Store D
  after_deposit s (ok (t, r)) = t
  after_deposit s (throw e) = s

  abbrev pub after_withdrawal : Store D → Outcome (Store D) → Store D
  after_withdrawal s (ok t) = t
  after_withdrawal s (throw e) = s

  abbrev pub amount_of : Movement D → D
  amount_of (put p now fresh) = p.amount
  amount_of (take p now fresh) = p.amount

module _ (dec : Decimals) (zone : Instant → DayKey) where
  open dec use {Decimal}

  unfoldable pub perform : Movement Decimal → Store Decimal → Store Decimal
  perform (put p now fresh) s = after_deposit s (deposit_to_piggy_bank dec zone p now fresh s)
  perform (take p now fresh) s =
      after_withdrawal s (withdraw_from_piggy_bank dec zone p now fresh s)

  -- A history: movements of a user that are asked for one after the other.
  unfoldable pub run : List (Movement Decimal) → Store Decimal → Store Decimal
  unfolding perform
  run [] s = s
  run (m ∷ ms) s = run ms (perform m s)
