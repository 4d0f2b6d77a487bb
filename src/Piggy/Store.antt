-- ===== src/Piggy/Store.antt =====
-- What the movements of a piggy bank read and write (`backend/src/lib/piggy/transactions.ts`): the
-- rows of the bank, of its transactions, and of the expenses and entries that they create. The rows
-- stand in the order of their creation.
use demanage.Prelude.{
  ℕ, Bool, true, false, ◌&&◌, Option, List, [], ◌∷◌, map, find, ◌==◌, if◌then◌else◌,
}
use demanage.CivilDate.{Instant}
use demanage.Piggy.Ledger.{LedgerType, LedgerEntry}
use demanage.Piggy.AutoDebit.{CycleTransaction}

pub data Source : Type 0 where
  manual auto_debit yield : Source

pub data CorrectionOrigin : Type 0 where
  debited not_debited : CorrectionOrigin

pub record PiggyTransaction (D : Type 0) : Type 0 where
  pub kind : LedgerType
  pub source : Source
  pub amount : D
  pub date : Instant
  pub expense_id : Option ℕ
  pub entry_id : Option ℕ
  pub correction_origin : Option CorrectionOrigin

pub record PiggyBank (D : Type 0) : Type 0 where
  pub id : ℕ
  pub user_id : ℕ
  pub goal_amount : Option D
  pub target_date : Option Instant
  pub monthly_goal : D
  pub auto_debit : Bool
  pub auto_debit_day : ℕ
  pub auto_debit_enabled_at : Option Instant
  pub yield_enabled : Bool
  pub interest_accrued_through : Option Instant
  pub archived_at : Option Instant
  pub completed_at : Option Instant
  pub created_at : Instant
  pub transactions : List (PiggyTransaction D)

-- An expense as the corrections read it; the flags compare its texts with `piggy`, `cofrinho` and
-- `unica`.
pub record StoredExpense (D : Type 0) : Type 0 where
  pub id : ℕ
  pub user_id : ℕ
  pub amount : D
  pub is_piggy : Bool
  pub is_cofrinho : Bool
  pub is_unica : Bool
  pub archived : Bool
  pub occurred_at : Instant

pub record StoredEntry (D : Type 0) : Type 0 where
  pub id : ℕ
  pub user_id : ℕ
  pub amount : D
  pub date : Instant

pub record Store (D : Type 0) : Type 0 where
  pub banks : List (PiggyBank D)
  pub expenses : List (StoredExpense D)
  pub entries : List (StoredEntry D)

pub data PiggyError : Type 0 where
  not_found archived already_complete insufficient_balance correction_yield_blocked
        correction_origin_ambiguous correction_origin_insufficient :
      PiggyError

pub data Outcome (A : Type 0) : Type 0 where
  ok : A → Outcome A
  throw : PiggyError → Outcome A

abbrev pub is_auto_debit : Source → Bool
is_auto_debit auto_debit = true
is_auto_debit _ = false

module _ {D : Type 0} where
  -- `piggyBank.findFirst({ where: { id, userId } })`.
  unfoldable pub find_bank : Store D → ℕ → ℕ → Option (PiggyBank D)
  find_bank s user id = find (λ b. (b.id == id) && (b.user_id == user)) s.banks

  -- `piggyBank.update({ where: { id } })`: the row of the identifier is replaced.
  unfoldable pub update_banks : ℕ → PiggyBank D → List (PiggyBank D) → List (PiggyBank D)
  update_banks id bank [] = []
  update_banks id bank (b ∷ bs) = (if b.id == id then bank else b) ∷ update_banks id bank bs

  -- A row as the ledger reads it, and as the debits do.
  abbrev pub ledger_entry : PiggyTransaction D → LedgerEntry D
  ledger_entry t = record { kind = t.kind; amount = t.amount }

  abbrev pub cycle_view : PiggyTransaction D → CycleTransaction
  cycle_view t = record { kind = t.kind; is_auto_debit = is_auto_debit t.source; date = t.date }

  abbrev pub ledger_of : List (PiggyTransaction D) → List (LedgerEntry D)
  ledger_of = map ledger_entry
