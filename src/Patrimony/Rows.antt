-- ===== src/Patrimony/Rows.antt =====
-- The daily timeline of the patrimony (`buildPatrimonyRows` of
-- `backend/src/lib/patrimony-calc.ts`). The amounts of a row are kept as decimals, before
-- `plainDecimal` prints them.
pub mod Cash
pub mod Days
pub mod Errors
use demanage.Prelude.{
  ℕ, zero, suc, ◌-◌, Bool, true, false, ◌&&◌, Option, none, some, List, [], ◌∷◌, ◌++◌, map, filter,
  if◌then◌else◌,
}
use demanage.Prelude.Int.{pos}
use demanage.Prelude.Decimals.{Decimals}
use demanage.CivilDate.{DayKey, Instant, key_gt, key_lt, key_le, day_number, add_days_to_key}
use demanage.Piggy.Ledger.{LedgerType, signed_amount}
use demanage.Piggy.Interest.{is_same_day}
use demanage.Patrimony.{
  CashFlow, Step, RunningTotal, create_running_total, total_at, MarketPoint, PointCursor,
  create_point_cursor, point_at, in_period,
}

pub record PiggyTransaction (D : Type 0) : Type 0 where
  pub kind : LedgerType
  pub amount : D
  pub date : Instant

pub data AssetName : Type 0 where
  btc usd other : AssetName

pub record AssetTransaction (D : Type 0) : Type 0 where
  pub asset : AssetName
  pub is_sell : Bool
  pub quantity : D
  pub date : Instant

pub record PatrimonyArgs (D : Type 0) : Type 0 where
  pub stored_base_key : DayKey
  pub calculation_base_key : DayKey
  pub from_key : DayKey
  pub to_key : DayKey
  pub opening_cash : D
  pub flows : List (CashFlow D)
  pub piggy_transactions : List (PiggyTransaction D)
  pub asset_transactions : List (AssetTransaction D)
  pub btc_points : List (MarketPoint D)
  pub usd_points : List (MarketPoint D)
  pub cdi_points : List (MarketPoint D)
  pub ipca_points : List (MarketPoint D)

pub record PatrimonyRow (D : Type 0) : Type 0 where
  pub date : DayKey
  pub patrimony : D
  pub cash : D
  pub piggy : D
  pub btc : D
  pub usd : D
  pub cdi : D
  pub ipca : D

pub data PatrimonyError : Type 0 where
  insufficient_history : PatrimonyError
  quote_missing : DayKey → PatrimonyError

pub data Answer (A : Type 0) : Type 0 where
  ok : A → Answer A
  throw : PatrimonyError → Answer A

infixl 5 ◌>>=◌
abbrev pub ◌>>=◌ : {A B : Type 0} → Answer A → (A → Answer B) → Answer B
ok a >>= f = f a
throw e >>= f = throw e

-- The variables of the loop over the days.
pub record Timeline (D : Type 0) : Type 0 where
  pub cash : D
  pub cdi_benchmark : D
  pub ipca_benchmark : D
  pub last_ipca_value : Option D
  pub piggy : RunningTotal D
  pub btc_quantity : RunningTotal D
  pub usd_quantity : RunningTotal D
  pub btc_price : PointCursor D
  pub usd_price : PointCursor D

abbrev pub is_asset : AssetName → AssetName → Bool
is_asset btc btc = true
is_asset usd usd = true
is_asset other other = true
is_asset _ _ = false

-- `new Map(points.map(...)).get(key)`: a later point of the day replaces an earlier one.
unfoldable pub value_of_day : {D : Type 0} → List (MarketPoint D) → DayKey → Option D
value_of_day [] key = none
value_of_day (p ∷ ps) key =
    let later = value_of_day ps key in
    elim later [ some v ↦ some v | none ↦ if is_same_day p.date key then some p.value else none ]

-- The values of two points, if both are there.
abbrev pub both_values :
    {D : Type 0} → Option (MarketPoint D) → Option (MarketPoint D) → PatrimonyError → Answer (D × D)
both_values (some a) (some b) e = ok (a.value, b.value)
both_values _ _ e = throw e

abbrev pub value_of : {D : Type 0} → Option (MarketPoint D) → Option D
value_of none = none
value_of (some p) = some p.value

module _ (dec : Decimals) where
  open dec use {Decimal, of_ℕ, plus, times, over}

  -- The sum of flows onto the cash.
  unfoldable pub add_flows : Decimal → List (CashFlow Decimal) → Decimal
  add_flows cash [] = cash
  add_flows cash (f ∷ fs) = add_flows (plus cash f.amount) fs

  -- `ipcaBenchmark.mul(newIpca).div(lastIpcaValue)`, where both are there.
  abbrev pub indexed : Decimal → Option Decimal → Option Decimal → Decimal
  indexed benchmark none last = benchmark
  indexed benchmark (some new) none = benchmark
  indexed benchmark (some new) (some last) = over (times benchmark new) last

  abbrev pub latest : Option Decimal → Option Decimal → Option Decimal
  latest none last = last
  latest (some new) last = some new

  abbrev pub grown : Decimal → Option Decimal → Decimal
  grown benchmark none = benchmark
  grown benchmark (some rate) = times benchmark (plus (of_ℕ 1) (over rate (of_ℕ 100)))

  -- The flows and the indices of a day after the base.
  unfoldable pub pass_day : PatrimonyArgs Decimal → DayKey → Timeline Decimal → Timeline Decimal
  unfolding add_flows value_of_day
  pass_day args key t =
      let day_flows = filter (λ f. is_same_day f.date key) args.flows in
      let external = add_flows (of_ℕ 0) (filter (λ f. f.external) day_flows) in
      let new_ipca = value_of_day args.ipca_points key in
      record t {
        cash = add_flows t.cash day_flows;
        ipca_benchmark = plus (indexed t.ipca_benchmark new_ipca t.last_ipca_value) external;
        last_ipca_value = latest new_ipca t.last_ipca_value;
        cdi_benchmark = grown (plus t.cdi_benchmark external) (value_of_day args.cdi_points key);
      }

  -- The row of a day.
  unfoldable pub show_day :
      DayKey → Timeline Decimal → Answer (PatrimonyRow Decimal × Timeline Decimal)
  unfolding total_at point_at
  show_day key t = do
    let btc_price = point_at t.btc_price key
    let usd_price = point_at t.usd_price key
    quotes ← both_values btc_price.found usd_price.found (quote_missing key)
    let piggy = total_at dec t.piggy key
    let btcs = total_at dec t.btc_quantity key
    let usds = total_at dec t.usd_quantity key
    let btc_value = times btcs.total quotes.0
    let usd_value = times usds.total quotes.1
    ok (
      record {
        date = key;
        patrimony = plus (plus (plus t.cash piggy.total) btc_value) usd_value;
        cash = t.cash;
        piggy = piggy.total;
        btc = btc_value;
        usd = usd_value;
        cdi = t.cdi_benchmark;
        ipca = t.ipca_benchmark;
      },
      record t {
        piggy = piggy;
        btc_quantity = btcs;
        usd_quantity = usds;
        btc_price = btc_price;
        usd_price = usd_price;
      },
    )

  -- The row of a day from `fromKey` on, and none before it.
  unfoldable pub show_if_asked :
      PatrimonyArgs Decimal
      → DayKey
      → Timeline Decimal
      → Answer (List (PatrimonyRow Decimal) × Timeline Decimal)
  unfolding show_day
  show_if_asked args key t =
      if key_lt key args.from_key
      then ok ([], t)
      else (show_day key t >>= (λ shown. ok (shown.0 ∷ [], shown.1)))

  abbrev pub reached : PatrimonyArgs Decimal → DayKey → Timeline Decimal → Timeline Decimal
  reached args key t = if is_same_day key args.calculation_base_key then t else pass_day args key t

  -- The rows of the days from `key` on, a round for each.
  unfoldable pub rows_from :
      ℕ → PatrimonyArgs Decimal → DayKey → Timeline Decimal → Answer (List (PatrimonyRow Decimal))
  unfolding pass_day show_if_asked
  rows_from zero args key t = ok []
  rows_from (suc rounds) args key t =
      let shown = (do
        (today, after) ← show_if_asked args key (reached args key t)
        rows ← rows_from rounds args (add_days_to_key key (pos 1)) after
        ok (today ++ rows)) in
      if key_le key args.to_key then shown else ok []

module _ (dec : Decimals) (zone : Instant → DayKey) where
  open dec use {Decimal, of_ℕ, plus, times, negated}

  unfoldable pub piggy_steps : List (PiggyTransaction Decimal) → List (Step Decimal)
  unfolding signed_amount
  piggy_steps ts =
      map (λ t. record { day = zone t.date; delta = signed_amount dec t.kind t.amount }) ts

  -- `quantityOf`.
  unfoldable pub quantity_steps : AssetName → List (AssetTransaction Decimal) → List (Step Decimal)
  quantity_steps a ts =
      map
        (λ t. record {
          day = zone t.date;
          delta = if t.is_sell then negated t.quantity else t.quantity;
        })
        (filter (λ t. is_asset t.asset a) ts)

  -- The state at the base day.
  unfoldable pub base_timeline : PatrimonyArgs Decimal → Answer (Timeline Decimal)
  unfolding create_running_total total_at create_point_cursor point_at piggy_steps quantity_steps
      add_flows
  base_timeline args = do
    let base = args.calculation_base_key
    let btc_price = point_at (create_point_cursor args.btc_points) base
    let usd_price = point_at (create_point_cursor args.usd_points) base
    prices ← both_values btc_price.found usd_price.found insufficient_history
    let cash =
        add_flows dec args.opening_cash
          (filter (λ f. in_period args.stored_base_key base f.date) args.flows)
    let piggy = total_at dec (create_running_total dec (piggy_steps args.piggy_transactions)) base
    let btcs =
        total_at dec (create_running_total dec (quantity_steps btc args.asset_transactions)) base
    let usds =
        total_at dec (create_running_total dec (quantity_steps usd args.asset_transactions)) base
    let base_real =
        plus (plus (plus cash piggy.total) (times btcs.total prices.0)) (times usds.total prices.1)
    ok (record {
      cash = cash;
      cdi_benchmark = base_real;
      ipca_benchmark = base_real;
      last_ipca_value = value_of (point_at (create_point_cursor args.ipca_points) base).found;
      piggy = piggy;
      btc_quantity = btcs;
      usd_quantity = usds;
      btc_price = btc_price;
      usd_price = usd_price;
    })

  unfoldable pub build_patrimony_rows : PatrimonyArgs Decimal → Answer (List (PatrimonyRow Decimal))
  unfolding base_timeline rows_from
  build_patrimony_rows args = do
    t ← base_timeline args
    rows_from dec (suc (day_number args.to_key) - day_number args.calculation_base_key) args
        args.calculation_base_key t
