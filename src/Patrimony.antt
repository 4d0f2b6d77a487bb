-- ===== src/Patrimony.antt =====
-- The cash flows and the running totals behind the daily timeline of the patrimony
-- (`backend/src/lib/patrimony-calc.ts`, `createPointCursor` of `backend/src/lib/market/series.ts`).
-- Decimals and the time zone are parameters.
pub mod Rows
pub mod Flows
pub mod Running
use demanage.Prelude.{
  ℕ, Bool, true, false, not, ◌&&◌, Option, none, some, List, [], ◌∷◌, ◌++◌, filter, ◌==◌,
  if◌then◌else◌,
}
use demanage.Prelude.Int.{negsuc}
use demanage.Prelude.Decimals.{Decimals}
use demanage.CivilDate.{DayKey, Instant, key_lt, key_gt, key_le, add_days, ms_per_day}
use demanage.CivilDate.Text.{JsonValue, text}
use demanage.Billing.Expense.{BillableSplit, BillableExpense, Frequency, is_some}
use demanage.Billing.Charges.{cash_share}
use demanage.Piggy.Interest.{is_same_day}

pub data SystemOrigin : Type 0 where
  manual other : SystemOrigin

abbrev pub is_manual : SystemOrigin → Bool
is_manual manual = true
is_manual other = false

-- A payment of an expense, or a receipt of an entry.
pub record Settlement (D : Type 0) : Type 0 where
  pub amount : D
  pub at : Instant

pub record ExpenseForFlows (D : Type 0) : Type 0 where
  pub id : ℕ
  pub amount : D
  pub is_invoice : Bool
  pub card_id : Option ℕ
  pub frequency : Frequency
  pub starts_at : Option Instant
  pub ends_at : Option Instant
  pub occurred_at : Option Instant
  pub created_at : Instant
  pub archived_at : Option Instant
  pub system_origin : SystemOrigin
  pub splits : List (BillableSplit D)
  pub payments : List (Settlement D)

pub record EntryForFlows (D : Type 0) : Type 0 where
  pub id : ℕ
  pub amount : D
  pub date : Option Instant
  pub created_at : Instant
  pub archived_at : Option Instant
  pub system_origin : SystemOrigin
  pub receipts : List (Settlement D)

pub record CashFlow (D : Type 0) : Type 0 where
  pub date : DayKey
  pub amount : D
  pub external : Bool

-- What `splitShareFor` reads of it.
abbrev pub billable_of : {D : Type 0} → ExpenseForFlows D → BillableExpense D
billable_of e = record {
  amount = e.amount;
  card_id = e.card_id;
  is_invoice = e.is_invoice;
  frequency = e.frequency;
  due_day = none;
  starts_at = e.starts_at;
  ends_at = e.ends_at;
  occurred_at = e.occurred_at;
  created_at = e.created_at;
  archived_at = e.archived_at;
  splits = e.splits;
  obligation_versions = [];
}

abbrev pub or_else : Option Instant → Instant → Instant
or_else none t = t
or_else (some t) _ = t

-- `set.has(id)`.
abbrev pub has_id : List ℕ → ℕ → Bool
has_id [] id = false
has_id (a ∷ rest) id = if a == id then true else has_id rest id

-- `when > baseKey && when <= toKey`.
abbrev pub in_period : DayKey → DayKey → DayKey → Bool
in_period base to day = key_gt day base && key_le day to

module _ (dec : Decimals) (zone : Instant → DayKey) where
  open dec use {Decimal, of_ℕ, lt, negated}

  -- A movement of an amount at an instant, where it counts; what leaves is negated.
  unfoldable pub flow_at :
      DayKey → DayKey → Bool → Bool → Decimal → Instant → List (CashFlow Decimal)
  flow_at base to leaves external amount t =
      if lt (of_ℕ 0) amount && in_period base to (zone t)
      then record {
        date = zone t;
        amount = if leaves then negated amount else amount;
        external = external;
      }
        ∷ []
      else []

  -- The loop over payments or receipts.
  unfoldable pub settlement_flows :
      DayKey → DayKey → Bool → Bool → List (Settlement Decimal) → List (CashFlow Decimal)
  unfolding flow_at
  settlement_flows base to leaves external [] = []
  settlement_flows base to leaves external (s ∷ ss) =
      flow_at base to leaves external s.amount s.at ++ settlement_flows base to leaves external ss

  unfoldable pub expense_flows :
      DayKey → DayKey → List ℕ → ExpenseForFlows Decimal → List (CashFlow Decimal)
  unfolding flow_at settlement_flows cash_share
  expense_flows base to internal e =
      if is_manual e.system_origin
      then settlement_flows base to true (not (has_id internal e.id)) e.payments
      else if is_some e.archived_at
      then []
      else flow_at base to true false (cash_share dec (billable_of e))
          (or_else e.occurred_at e.created_at)

  unfoldable pub entry_flows :
      DayKey → DayKey → List ℕ → EntryForFlows Decimal → List (CashFlow Decimal)
  unfolding flow_at settlement_flows
  entry_flows base to internal e =
      if is_manual e.system_origin
      then settlement_flows base to false (not (has_id internal e.id)) e.receipts
      else if is_some e.archived_at
      then []
      else flow_at base to false false e.amount (or_else e.date e.created_at)

  unfoldable pub flows_of_expenses :
      DayKey → DayKey → List ℕ → List (ExpenseForFlows Decimal) → List (CashFlow Decimal)
  unfolding expense_flows
  flows_of_expenses base to internal [] = []
  flows_of_expenses base to internal (e ∷ es) =
      expense_flows base to internal e ++ flows_of_expenses base to internal es

  unfoldable pub flows_of_entries :
      DayKey → DayKey → List ℕ → List (EntryForFlows Decimal) → List (CashFlow Decimal)
  unfolding entry_flows
  flows_of_entries base to internal [] = []
  flows_of_entries base to internal (e ∷ es) =
      entry_flows base to internal e ++ flows_of_entries base to internal es

  unfoldable pub build_cash_flows :
      Instant
      → Instant
      → List (ExpenseForFlows Decimal)
      → List (EntryForFlows Decimal)
      → List ℕ
      → List ℕ
      → List (CashFlow Decimal)
  unfolding flows_of_expenses flows_of_entries
  build_cash_flows base_date to expenses entries internal_expenses internal_entries =
      flows_of_expenses (zone base_date) (zone to) internal_expenses expenses
      ++ flows_of_entries (zone base_date) (zone to) internal_entries entries

-- A dated step of a running total.
pub record Step (D : Type 0) : Type 0 where
  pub day : DayKey
  pub delta : D

-- The steps that are not yet in the total, in order.
pub record RunningTotal (D : Type 0) : Type 0 where
  pub rest : List (Step D)
  pub total : D

-- `sort` by `localeCompare` of the days, an insertion sort.
unfoldable pub insert_step : {D : Type 0} → Step D → List (Step D) → List (Step D)
insert_step s [] = s ∷ []
insert_step s (u ∷ us) = if key_lt u.day s.day then u ∷ insert_step s us else s ∷ u ∷ us

unfoldable pub sort_steps : {D : Type 0} → List (Step D) → List (Step D)
unfolding insert_step
sort_steps [] = []
sort_steps (s ∷ ss) = insert_step s (sort_steps ss)

module _ (dec : Decimals) where
  open dec use {Decimal, of_ℕ, plus}

  unfoldable pub create_running_total : List (Step Decimal) → RunningTotal Decimal
  unfolding sort_steps
  create_running_total items = record { rest = sort_steps items; total = of_ℕ 0 }

  -- The loop of `at`.
  unfoldable pub total_from : DayKey → List (Step Decimal) → Decimal → RunningTotal Decimal
  total_from day [] total = record { rest = []; total = total }
  total_from day (s ∷ ss) total =
      let further = total_from day ss (plus total s.delta) in
      if key_le s.day day then further else record { rest = s ∷ ss; total = total }

  -- `at(day)`: the total read is that of the new state.
  unfoldable pub total_at : RunningTotal Decimal → DayKey → RunningTotal Decimal
  unfolding total_from
  total_at r day = total_from day r.rest r.total

pub record MarketPoint (D : Type 0) : Type 0 where
  pub date : DayKey
  pub value : D

-- The point that the pointer is on, and those after it.
pub record PointCursor (D : Type 0) : Type 0 where
  pub found : Option (MarketPoint D)
  pub ahead : List (MarketPoint D)

module _ {D : Type 0} where
  unfoldable pub create_point_cursor : List (MarketPoint D) → PointCursor D
  create_point_cursor points = record { found = none; ahead = points }

  unfoldable pub cursor_from :
      DayKey → Option (MarketPoint D) → List (MarketPoint D) → PointCursor D
  cursor_from day found [] = record { found = found; ahead = [] }
  cursor_from day found (p ∷ ps) =
      let further = cursor_from day (some p) ps in
      if key_le p.date day then further else record { found = found; ahead = p ∷ ps }

  -- `at(day)`: the point read is that of the new state.
  unfoldable pub point_at : PointCursor D → DayKey → PointCursor D
  unfolding cursor_from
  point_at c day = cursor_from day c.found c.ahead
