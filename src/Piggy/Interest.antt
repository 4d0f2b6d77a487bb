-- ===== src/Piggy/Interest.antt =====
-- The daily interest of a piggy bank (`backend/src/lib/piggy/interest.ts`). A key `bankId:day` is the
-- pair of the two; the cursor into the sorted transactions is kept as the rows from it on, with the
-- balance before them.
pub mod History
pub mod Exact
use demanage.Prelude.{
  ℕ, suc, ◌+◌, Bool, true, false, not, ◌&&◌, ◌||◌, Option, none, some, List, [], ◌∷◌, ◌++◌, map,
  filter, find, ◌==◌, if◌then◌else◌,
}
use mathlib.Core.List.{reverse}
use demanage.Prelude.Decimals.{Decimals}
use demanage.CivilDate.{DayKey, Instant, key_lt, key_gt, key_le}
use demanage.Piggy.Ledger.{LedgerType, LedgerEntry, balance_prefix_sums}
use demanage.Piggy.Withdraw.{is_interest}

pub record InterestKey : Type 0 where
  pub bank_id : ℕ
  pub day : DayKey

abbrev pub is_same_day : DayKey → DayKey → Bool
is_same_day a b = (a.year == b.year) && (a.month_index == b.month_index) && (a.day == b.day)

abbrev pub same_key : InterestKey → InterestKey → Bool
same_key a b = (a.bank_id == b.bank_id) && is_same_day a.day b.day

pub record InterestTransaction (D : Type 0) : Type 0 where
  pub kind : LedgerType
  pub amount : D
  pub date : Instant
  pub interest_key : Option InterestKey
  pub resulting_balance : Option D

pub record InterestPosting (D : Type 0) : Type 0 where
  pub day : DayKey
  pub interest_key : InterestKey
  pub amount : D
  pub rate : D
  pub base_balance : D
  pub resulting_balance : D

pub record InterestAccrual (D : Type 0) : Type 0 where
  pub postings : List (InterestPosting D)
  pub accrued_through : Option DayKey
  pub carry : D

-- The rate of a day, in percent.
pub record CdiPoint (D : Type 0) : Type 0 where
  pub date : DayKey
  pub value : D

-- A transaction with its day, `days[index]`, and the balance after it, `prefix[index]`.
pub record LedgerRow (D : Type 0) : Type 0 where
  pub row : InterestTransaction D
  pub day : DayKey
  pub balance : D

-- The variables of the loop over the days.
pub record AccrualState (D : Type 0) : Type 0 where
  pub before : D
  pub ahead : List (LedgerRow D)
  pub carry : D
  pub posted_sum : D
  pub postings : List (InterestPosting D)
  pub accrued_through : Option DayKey

abbrev pub has_key : InterestKey → Option InterestKey → Bool
has_key key none = false
has_key key (some k) = same_key key k

module _ {D : Type 0} where
  -- `indexByKey.get(key)`: the last row with the key.
  abbrev pub row_of_key : InterestKey → List (LedgerRow D) → Option (LedgerRow D)
  row_of_key key rows = find (λ r. has_key key r.row.interest_key) (reverse rows)

  abbrev pub zip_rows : List (InterestTransaction D) → List DayKey → List D → List (LedgerRow D)
  zip_rows (t ∷ ts) (d ∷ ds) (b ∷ bs) = record { row = t; day = d; balance = b } ∷ zip_rows ts ds bs
  zip_rows ts ds bs = []

  -- `points.sort((a, b) => a.date.localeCompare(b.date))`, which is stable.
  abbrev pub insert_point : CdiPoint D → List (CdiPoint D) → List (CdiPoint D)
  insert_point p [] = p ∷ []
  insert_point p (q ∷ qs) = if key_gt p.date q.date then q ∷ insert_point p qs else p ∷ q ∷ qs

  unfoldable pub sort_points : List (CdiPoint D) → List (CdiPoint D)
  sort_points [] = []
  sort_points (p ∷ ps) = insert_point p (sort_points ps)

  -- The points of the days from `start` to `target`, in order.
  unfoldable pub points_between : DayKey → DayKey → List (CdiPoint D) → List (CdiPoint D)
  unfolding sort_points
  points_between start target ps =
      sort_points (filter (λ p. not (key_lt p.date start) && key_le p.date target) ps)

  -- `while (cursor < transactions.length && days[cursor] <= day) cursor += 1`.
  unfoldable pub pass : DayKey → D → List (LedgerRow D) → D × List (LedgerRow D)
  pass day before [] = (before, [])
  pass day before (r ∷ rs) = if key_le r.day day then pass day r.balance rs else (before, r ∷ rs)

module _ (dec : Decimals) where
  open dec use {
    Decimal, of_ℕ, plus, minus, times, over, lt, eq, to_money, to_interest, cents_down, cent,
  }

  abbrev pub is_pos : Decimal → Bool
  is_pos a = lt (of_ℕ 0) a

  unfoldable pub exact_cdi_interest : Decimal → Decimal → Decimal → Decimal
  exact_cdi_interest balance rate percent =
      if not (is_pos balance) || not (is_pos rate) || not (is_pos percent)
      then of_ℕ 0
      else to_interest (over (times (over (times balance rate) (of_ℕ 100)) percent) (of_ℕ 100))

  unfoldable pub calculate_cdi_interest : Decimal → Decimal → Decimal → Decimal
  unfolding exact_cdi_interest
  calculate_cdi_interest balance rate percent = to_money (exact_cdi_interest balance rate percent)

  abbrev pub carry_of : Option Decimal → Decimal → Decimal
  carry_of none balance = of_ℕ 0
  carry_of (some resulting) balance =
      let carry = minus resulting balance in
      if lt carry (of_ℕ 0) || not (lt carry cent) then of_ℕ 0 else carry

  unfoldable pub carry_after : LedgerRow Decimal → Decimal
  carry_after r = carry_of r.row.resulting_balance r.balance

  -- The loop from the last row back to the interest of the day accrued through.
  unfoldable pub carry_from : DayKey → List (LedgerRow Decimal) → Decimal
  unfolding carry_after
  carry_from through [] = of_ℕ 0
  carry_from through (r ∷ rs) =
      if key_lt r.day through
      then of_ℕ 0
      else if is_same_day r.day through && is_interest r.row.kind
      then carry_after r
      else carry_from through rs

  unfoldable pub initial_carry : Option DayKey → List (LedgerRow Decimal) → Decimal
  unfolding carry_from
  initial_carry none rows = of_ℕ 0
  initial_carry (some through) rows = carry_from through (reverse rows)

  -- A day with no row yet.
  unfoldable pub accrue_day :
      ℕ → Decimal → CdiPoint Decimal → AccrualState Decimal → AccrualState Decimal
  accrue_day bank percent p s =
      let base = plus (plus s.before s.posted_sum) s.carry in
      let interest = exact_cdi_interest base p.value percent in
      let total = plus s.carry interest in
      let cents = cents_down total in
      let carry = minus total cents in
      record s {
        carry = carry;
        postings =
            if is_pos cents
            then s.postings
              ++ record {
                day = p.date;
                interest_key = record { bank_id = bank; day = p.date };
                amount = cents;
                rate = p.value;
                base_balance = base;
                resulting_balance = plus base interest;
              }
                ∷ []
            else s.postings;
        posted_sum = if is_pos cents then plus s.posted_sum cents else s.posted_sum;
        accrued_through =
            if is_pos cents || eq carry (of_ℕ 0) then some p.date else s.accrued_through;
      }

  -- A day of the loop.
  unfoldable pub step_day :
      ℕ
      → List (LedgerRow Decimal)
      → Decimal
      → CdiPoint Decimal
      → AccrualState Decimal
      → AccrualState Decimal
  unfolding pass accrue_day carry_after
  step_day bank rows percent p s =
      let (before, ahead) = pass p.date s.before s.ahead in
      let moved = record s { before = before; ahead = ahead } in
      elim (row_of_key (record { bank_id = bank; day = p.date }) rows) [
        | some r ↦ record moved { carry = carry_after r; accrued_through = some p.date }
        | none ↦ accrue_day bank percent p moved
      ]

  unfoldable pub accrue_days :
      ℕ
      → List (LedgerRow Decimal)
      → Decimal
      → List (CdiPoint Decimal)
      → AccrualState Decimal
      → AccrualState Decimal
  accrue_days bank rows percent [] s = s
  accrue_days bank rows percent (p ∷ ps) s =
      accrue_days bank rows percent ps (step_day bank rows percent p s)

  abbrev pub interest_entry : InterestTransaction Decimal → LedgerEntry Decimal
  interest_entry t = record { kind = t.kind; amount = t.amount }

  -- The rows of a bank with their days and balances.
  unfoldable pub ledger_rows :
      (Instant → DayKey) → List (InterestTransaction Decimal) → List (LedgerRow Decimal)
  ledger_rows zone ts =
      zip_rows ts (map (λ t. zone t.date) ts) (balance_prefix_sums dec (map interest_entry ts))

  unfoldable pub start_state : Option DayKey → List (LedgerRow Decimal) → AccrualState Decimal
  unfolding initial_carry
  start_state through rows = record {
    before = of_ℕ 0;
    ahead = rows;
    carry = initial_carry through rows;
    posted_sum = of_ℕ 0;
    postings = [];
    accrued_through = none;
  }

  unfoldable pub accrue_cdi_interest :
      (Instant → DayKey)
      → ℕ
      → List (InterestTransaction Decimal)
      → Option DayKey
      → List (CdiPoint Decimal)
      → Decimal
      → DayKey
      → DayKey
      → InterestAccrual Decimal
  unfolding accrue_days start_state ledger_rows points_between
  accrue_cdi_interest zone bank ts through points percent start target =
      let rows = ledger_rows zone ts in
      let s =
        accrue_days bank rows percent (points_between start target points)
          (start_state through rows) in
      record { postings = s.postings; accrued_through = s.accrued_through; carry = s.carry }
