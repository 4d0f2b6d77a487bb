-- ===== src/Billing/Expense.antt =====
-- The data that billing reads (`backend/src/lib/billing/charges.ts`): expenses, their splits and
-- their versions. Identifiers are only compared, so they are numbers; an amount is of the type `D`
-- of decimals. A month `YYYY-MM` is its number, as `month_key` gives it.
use demanage.Prelude.{ℕ, Bool, true, false, Option, none, some, List, ◌==◌}
use demanage.CivilDate.{DayKey, Instant}

pub data SplitKind : Type 0 where
  card pix other : SplitKind

pub record BillableSplit (D : Type 0) : Type 0 where
  pub kind : SplitKind
  pub card_id : Option ℕ
  pub amount : D

-- `frequency` is a text; every text but the three is `other`.
pub data Frequency : Type 0 where
  unica semanal mensal other : Frequency

pub record ObligationVersion (D : Type 0) : Type 0 where
  pub sequence : ℕ
  pub effective_month : ℕ
  pub amount : D
  pub card_id : Option ℕ
  pub splits : List (BillableSplit D)

pub record BillableExpense (D : Type 0) : Type 0 where
  pub amount : D
  pub card_id : Option ℕ
  pub is_invoice : Bool
  pub frequency : Frequency
  pub due_day : Option ℕ
  pub starts_at : Option Instant
  pub ends_at : Option Instant
  pub occurred_at : Option Instant
  pub created_at : Instant
  pub archived_at : Option Instant
  pub splits : List (BillableSplit D)
  pub obligation_versions : List (ObligationVersion D)

pub data SplitTarget : Type 0 where
  card : ℕ → SplitTarget
  pix cash : SplitTarget

pub record CycleWindow : Type 0 where
  pub period_start_key : DayKey
  pub closing_key : DayKey
  pub include_period_start : Bool

-- `id === other` where the first may be null.
abbrev pub is_id : Option ℕ → ℕ → Bool
is_id none c = false
is_id (some a) c = a == c

abbrev pub is_some {ℓ} : {A : Type ℓ} → Option A → Bool
is_some none = false
is_some (some a) = true

abbrev pub is_unica : Frequency → Bool
is_unica Frequency.unica = true
is_unica _ = false

abbrev pub is_semanal : Frequency → Bool
is_semanal Frequency.semanal = true
is_semanal _ = false
