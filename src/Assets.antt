-- ===== src/Assets.antt =====
-- The accounting of an asset (`backend/src/lib/asset-accounting.ts`). The results are decimals, as
-- they are before `plainDecimal` prints them.
pub mod Sorting
pub mod Removals
pub mod Timeline
use demanage.Prelude.{
  ℕ, ◌*◌, Bool, true, false, not, ◌&&◌, ◌||◌, Option, none, some, List, [], ◌∷◌, filter, ltb, leb,
  ◌==◌, if◌then◌else◌,
}
use demanage.Prelude.Decimals.{Decimals}
use demanage.CivilDate.{Instant, ms_per_day}

pub data AssetTransactionType : Type 0 where
  buy sell manual_adjustment : AssetTransactionType

-- Texts of identifiers are numbers in their order.
pub record AccountingTransaction (D : Type 0) : Type 0 where
  pub id : ℕ
  pub created_at : Option Instant
  pub asset : ℕ
  pub kind : AssetTransactionType
  pub quantity : D
  pub cash_amount_brl : D
  pub fee_amount_brl : Option D
  pub cost_basis_known : Bool
  pub date : Instant

-- `createdAt?.getTime() ?? 0`: the epoch, where there is no date.
abbrev created_time : Option Instant → Instant
created_time none = 719_528 * ms_per_day
created_time (some t) = t

-- `compareTransactions(left, right) > 0`.
abbrev pub comes_after : {D : Type 0} → AccountingTransaction D → AccountingTransaction D → Bool
comes_after l r =
    if l.date == r.date
    then (if created_time l.created_at == created_time r.created_at
        then ltb r.id l.id
        else ltb (created_time r.created_at) (created_time l.created_at))
    else ltb r.date l.date

module _ {D : Type 0} where
  -- The stable `sort`, an insertion sort.
  unfoldable pub insert_transaction :
      AccountingTransaction D → List (AccountingTransaction D) → List (AccountingTransaction D)
  insert_transaction t [] = t ∷ []
  insert_transaction t (u ∷ us) =
      if comes_after t u then u ∷ insert_transaction t us else t ∷ u ∷ us

  unfoldable pub sort_transactions : List (AccountingTransaction D) → List (AccountingTransaction D)
  unfolding insert_transaction
  sort_transactions [] = []
  sort_transactions (t ∷ ts) = insert_transaction t (sort_transactions ts)

pub record Removal (D : Type 0) : Type 0 where
  pub total : D
  pub removed : D
  pub removed_known : D
  pub removed_unknown : D
  pub removed_known_cost : D
  pub known_qty : D
  pub unknown_qty : D
  pub known_cost : D

-- The variables of the loop of `calculateAssetAccounting`.
pub record Buckets (D : Type 0) : Type 0 where
  pub known_qty : D
  pub unknown_qty : D
  pub known_cost : D
  pub realized_pnl : D
  pub realized_cost : D
  pub fees : D
  pub pnl_complete : Bool

pub record AssetAccounting (D : Type 0) : Type 0 where
  pub asset : ℕ
  pub quantity : D
  pub known_quantity : D
  pub unknown_quantity : D
  pub invested_brl : D
  pub average_cost_brl : Option D
  pub fees_brl : D
  pub realized_pnl_brl : D
  pub realized_cost_basis_brl : D
  pub pnl_complete : Bool

module _ (dec : Decimals) where
  open dec use {Decimal, of_ℕ, plus, minus, times, over, negated, lt, eq, to_quantity}

  -- A round of the loop of `isAssetTimelineValid`: the balance after it, or `none` to return false.
  unfoldable pub timeline_step : AssetTransactionType → Decimal → Decimal → Option Decimal
  timeline_step buy balance quantity = some (plus balance quantity)
  timeline_step sell balance quantity =
      if lt balance quantity then none else some (minus balance quantity)
  timeline_step manual_adjustment balance quantity =
      if lt (plus balance quantity) (of_ℕ 0) then none else some (plus balance quantity)

  unfoldable pub timeline_from : Decimal → List (AccountingTransaction Decimal) → Bool
  unfolding timeline_step
  timeline_from balance [] = true
  timeline_from balance (t ∷ ts) = elim (timeline_step t.kind balance t.quantity) [
    | none ↦ false
    | some after ↦ timeline_from after ts
  ]

  unfoldable pub is_asset_timeline_valid : List (AccountingTransaction Decimal) → Bool
  unfolding timeline_from sort_transactions
  is_asset_timeline_valid input = timeline_from (of_ℕ 0) (sort_transactions input)

  -- The three bounds on the known part of what is removed.
  abbrev pub bounded : Decimal → Decimal → Decimal → Decimal
  bounded most least part =
      let a = if lt most part then most else part in
      let b = if lt a least then least else a in if lt b (of_ℕ 0) then of_ℕ 0 else b

  -- The case that leaves something.
  unfoldable pub remove_part : Decimal → Decimal → Decimal → Decimal → Removal Decimal
  remove_part known unknown cost removed =
      let total = plus known unknown in
      let removed_known =
        bounded (if not (lt known removed) then removed else known) (minus removed unknown)
          (to_quantity (over (times removed known) total)) in
      let removed_unknown = minus removed removed_known in
      let next_known = minus known removed_known in
      let removed_cost =
        if eq removed_known known
        then cost
        else if lt (of_ℕ 0) known
        then over (times cost removed_known) known
        else of_ℕ 0 in
      record {
        total = total;
        removed = removed;
        removed_known = removed_known;
        removed_unknown = removed_unknown;
        removed_known_cost = removed_cost;
        known_qty = next_known;
        unknown_qty = minus unknown removed_unknown;
        known_cost = if eq next_known (of_ℕ 0) then of_ℕ 0 else minus cost removed_cost;
      }

  unfoldable pub remove_from_buckets : Decimal → Decimal → Decimal → Decimal → Removal Decimal
  unfolding remove_part
  remove_from_buckets known unknown cost requested =
      let total = plus known unknown in
      let removed = if not (lt total requested) then requested else total in
      if not (lt (of_ℕ 0) total) || not (lt (of_ℕ 0) requested)
      then record {
        total = total;
        removed = of_ℕ 0;
        removed_known = of_ℕ 0;
        removed_unknown = of_ℕ 0;
        removed_known_cost = of_ℕ 0;
        known_qty = known;
        unknown_qty = unknown;
        known_cost = cost;
      }
      else if eq removed total
      then record {
        total = total;
        removed = removed;
        removed_known = known;
        removed_unknown = unknown;
        removed_known_cost = cost;
        known_qty = of_ℕ 0;
        unknown_qty = of_ℕ 0;
        known_cost = of_ℕ 0;
      }
      else remove_part known unknown cost removed

  -- A purchase into the bucket that its cost belongs to.
  abbrev add_quantity : Buckets Decimal → Bool → Decimal → Decimal → Buckets Decimal
  add_quantity s known quantity cash =
      if known
      then record s { known_qty = plus s.known_qty quantity; known_cost = plus s.known_cost cash }
      else record s { unknown_qty = plus s.unknown_qty quantity; pnl_complete = false }

  -- The buckets after a removal.
  abbrev take_away : Buckets Decimal → Removal Decimal → Buckets Decimal
  take_away s r = record s {
    known_qty = r.known_qty;
    unknown_qty = r.unknown_qty;
    known_cost = r.known_cost;
    pnl_complete = if lt (of_ℕ 0) r.removed_unknown then false else s.pnl_complete;
  }

  unfoldable pub buy_step : Buckets Decimal → AccountingTransaction Decimal → Buckets Decimal
  buy_step s t =
      if not (lt (of_ℕ 0) t.quantity)
      then s
      else add_quantity s t.cost_basis_known t.quantity t.cash_amount_brl

  -- `r` is the removal of the quantity without its sign.
  unfoldable pub adjust_by :
      Buckets Decimal → AccountingTransaction Decimal → Removal Decimal → Buckets Decimal
  adjust_by s t r =
      let quantity = t.quantity in
      if eq quantity (of_ℕ 0)
      then s
      else if lt (of_ℕ 0) quantity
      then add_quantity s (t.cost_basis_known && lt (of_ℕ 0) t.cash_amount_brl) quantity
          t.cash_amount_brl
      else if not (lt (of_ℕ 0) r.total)
      then s
      else take_away s r

  unfoldable pub adjustment_step : Buckets Decimal → AccountingTransaction Decimal → Buckets Decimal
  unfolding adjust_by remove_from_buckets
  adjustment_step s t =
      adjust_by s t
        (remove_from_buckets s.known_qty s.unknown_qty s.known_cost (negated t.quantity))

  unfoldable pub sell_by :
      Buckets Decimal → AccountingTransaction Decimal → Removal Decimal → Buckets Decimal
  sell_by s t r =
      let share = if eq r.removed (of_ℕ 0) then of_ℕ 0 else over r.removed_known r.removed in
      if not (lt (of_ℕ 0) t.quantity)
      then s
      else if not (lt (of_ℕ 0) r.total)
      then s
      else record (take_away s r) {
        realized_pnl =
            plus s.realized_pnl (minus (times t.cash_amount_brl share) r.removed_known_cost);
        realized_cost = plus s.realized_cost r.removed_known_cost;
      }

  unfoldable pub sell_step : Buckets Decimal → AccountingTransaction Decimal → Buckets Decimal
  unfolding sell_by remove_from_buckets
  sell_step s t =
      sell_by s t (remove_from_buckets s.known_qty s.unknown_qty s.known_cost t.quantity)

  abbrev pub fee_of : Option Decimal → Decimal
  fee_of none = of_ℕ 0
  fee_of (some f) = f

  -- The branch for a type.
  unfoldable pub step_of :
      AssetTransactionType → Buckets Decimal → AccountingTransaction Decimal → Buckets Decimal
  unfolding buy_step sell_step adjustment_step
  step_of buy s t = buy_step s t
  step_of sell s t = sell_step s t
  step_of manual_adjustment s t = adjustment_step s t

  -- One round of the loop.
  unfoldable pub accounting_step : Buckets Decimal → AccountingTransaction Decimal → Buckets Decimal
  unfolding step_of
  accounting_step s t = step_of t.kind (record s { fees = plus s.fees (fee_of t.fee_amount_brl) }) t

  unfoldable pub accounting_from :
      Buckets Decimal → List (AccountingTransaction Decimal) → Buckets Decimal
  unfolding accounting_step
  accounting_from s [] = s
  accounting_from s (t ∷ ts) = accounting_from (accounting_step s t) ts

  abbrev pub no_buckets : Buckets Decimal
  no_buckets = record {
    known_qty = of_ℕ 0;
    unknown_qty = of_ℕ 0;
    known_cost = of_ℕ 0;
    realized_pnl = of_ℕ 0;
    realized_cost = of_ℕ 0;
    fees = of_ℕ 0;
    pnl_complete = true;
  }

  unfoldable pub calculate_asset_accounting :
      ℕ → List (AccountingTransaction Decimal) → AssetAccounting Decimal
  unfolding accounting_from sort_transactions
  calculate_asset_accounting asset input =
      let s =
        accounting_from no_buckets (sort_transactions (filter (λ t. t.asset == asset) input)) in
      record {
        asset = asset;
        quantity = plus s.known_qty s.unknown_qty;
        known_quantity = s.known_qty;
        unknown_quantity = s.unknown_qty;
        invested_brl = s.known_cost;
        average_cost_brl =
            if lt (of_ℕ 0) s.known_qty then some (over s.known_cost s.known_qty) else none;
        fees_brl = s.fees;
        realized_pnl_brl = s.realized_pnl;
        realized_cost_basis_brl = s.realized_cost;
        pnl_complete = s.pnl_complete;
      }
