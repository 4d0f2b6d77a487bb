-- ===== src/Tests/Timeline.antt =====
-- The timeline of the patrimony over three days.
use demanage.Prelude.{ℕ, ◌-◌, suc, ◌≡◌, refl, arith, true, false, some, none, List, [], ◌∷◌, map}
use demanage.Prelude.Int.{ℤ, pos, negsuc, ◌+ℤ◌, ◌-ℤ◌, ◌*ℤ◌}
use demanage.CivilDate.{DayKey, day_key, day_number, key_le}
use demanage.CivilDate.Zone.{IsFullKey}
use demanage.Billing.Charges.{cash_share, sum_splits}
use demanage.Billing.Expense.{Frequency}
use demanage.Piggy.Ledger.{deposit, signed_amount}
use demanage.Patrimony.{
  SystemOrigin, ExpenseForFlows, EntryForFlows, flow_at, settlement_flows, expense_flows,
  entry_flows, flows_of_expenses, flows_of_entries, build_cash_flows, insert_step, sort_steps,
  create_running_total, total_from, Step, total_at, create_point_cursor, cursor_from, point_at,
}
use demanage.Patrimony.Flows.{total_of, build_cash_flows_split}
use demanage.Patrimony.Running.{reads, up_to, create_running_total_lem}
use demanage.Patrimony.Rows.{
  btc, ok, PatrimonyArgs, PatrimonyRow, value_of_day, piggy_steps, quantity_steps, add_flows,
  base_timeline, pass_day, show_day, show_if_asked, rows_from, build_patrimony_rows,
}
use demanage.Patrimony.Rows.Days.{IsTimeline, build_patrimony_rows-IsTimeline}
use demanage.Patrimony.Rows.Errors.{IsAnswerOf, build_patrimony_rows-IsAnswerOf}
use demanage.Tests.Model.{whole, whole-IsExact, three_hours_back}
use demanage.Tests.Dates.{dates}
use demanage.Tests.Cards.{date}

unfoldable timeline : Unit {0}
unfolding dates sum_splits cash_share signed_amount flow_at settlement_flows expense_flows
    entry_flows flows_of_expenses flows_of_entries build_cash_flows insert_step sort_steps
    create_running_total total_from total_at create_point_cursor cursor_from point_at value_of_day
    piggy_steps quantity_steps add_flows base_timeline pass_day show_day show_if_asked rows_from
    build_patrimony_rows ◌+ℤ◌ ◌-ℤ◌ ◌*ℤ◌
timeline = tt

-- Days of October 2026.
abbrev october : ℕ → DayKey
october d = day_key 2026 9 d

-- A deposit of 30 and two bitcoins at 10, and 50 that leave the cash on the second day.
abbrev args : PatrimonyArgs ℤ
args = record {
  stored_base_key = october 26;
  calculation_base_key = october 26;
  from_key = october 27;
  to_key = october 28;
  opening_cash = pos 1000;
  flows = record { date = october 27; amount = negsuc 49; external = true } ∷ [];
  piggy_transactions = record { kind = deposit; amount = pos 30; date = date 2026 9 27 } ∷ [];
  asset_transactions =
      record { asset = btc; is_sell = false; quantity = pos 2; date = date 2026 9 26 } ∷ [];
  btc_points = record { date = october 25; value = pos 10 } ∷ [];
  usd_points = record { date = october 26; value = pos 5 } ∷ [];
  cdi_points = [];
  ipca_points = [];
}

abbrev row : ℕ → PatrimonyRow ℤ
row d = record {
  date = october d;
  patrimony = pos 1000;
  cash = pos 950;
  piggy = pos 30;
  btc = pos 20;
  usd = pos 0;
  cdi = pos 970;
  ipca = pos 970;
}

rows_found : build_patrimony_rows whole three_hours_back args ≡ ok (row 27 ∷ row 28 ∷ [])
unfolding timeline three_hours_back
rows_found = refl

days-IsFullKey : IsFullKey (october 26) × IsFullKey (october 27) × IsFullKey (october 28)
unfolding dates
days-IsFullKey =
    ((omega arith, omega arith), (omega arith, omega arith), (omega arith, omega arith))

build_patrimony_rows-IsTimeline_example :
    IsTimeline whole-IsExact three_hours_back args
      (suc (day_number (october 28)) - day_number (october 26))
      (october 26)
      (row 27 ∷ row 28 ∷ [])
build_patrimony_rows-IsTimeline_example =
    build_patrimony_rows-IsTimeline whole-IsExact three_hours_back args (row 27 ∷ row 28 ∷ [])
      days-IsFullKey.0 days-IsFullKey.0 days-IsFullKey.2 (omega arith) (days-IsFullKey.1, tt)
      rows_found

build_patrimony_rows-IsAnswerOf_example :
    IsAnswerOf args (build_patrimony_rows whole three_hours_back args)
build_patrimony_rows-IsAnswerOf_example =
    build_patrimony_rows-IsAnswerOf whole three_hours_back args

-- Steps out of order, and their total on three days.
abbrev steps : List (Step ℤ)
steps =
    record { day = october 28; delta = pos 5 }
    ∷ record { day = october 26; delta = pos 30 }
    ∷ record { day = october 27; delta = negsuc 9 }
    ∷ []

totals_read :
    reads whole-IsExact (create_running_total whole steps) (october 26 ∷ october 28 ∷ [])
    ≡ pos 30 ∷ pos 25 ∷ []
unfolding timeline
totals_read = refl

in_order : (key_le (october 26) (october 26) ≡ true) × (key_le (october 26) (october 28) ≡ true)
unfolding dates
in_order = (refl, refl)

create_running_total_lem_example :
    map
      (λ a. a)
      (reads whole-IsExact (create_running_total whole steps) (october 26 ∷ october 28 ∷ []))
    ≡ map (up_to whole-IsExact steps) (october 26 ∷ october 28 ∷ [])
create_running_total_lem_example =
    create_running_total_lem whole-IsExact steps (october 26) (october 26 ∷ october 28 ∷ [])
      (in_order.0, (in_order.1, tt))

-- An expense paid in two parts, and an entry of an asset that was sold.
abbrev paid_in_parts : ExpenseForFlows ℤ
paid_in_parts = record {
  id = 1;
  amount = pos 80;
  is_invoice = false;
  card_id = none;
  frequency = Frequency.unica;
  starts_at = none;
  ends_at = none;
  occurred_at = none;
  created_at = date 2026 9 20;
  archived_at = none;
  system_origin = SystemOrigin.manual;
  splits = [];
  payments =
      record { amount = pos 50; at = date 2026 9 27 }
      ∷ record { amount = pos 30; at = date 2026 9 28 }
      ∷ [];
}

abbrev sale : EntryForFlows ℤ
sale = record {
  id = 2;
  amount = pos 70;
  date = some (date 2026 9 28);
  created_at = date 2026 9 28;
  archived_at = none;
  system_origin = SystemOrigin.other;
  receipts = [];
}

flows_run :
    build_cash_flows whole three_hours_back
      (date 2026 9 26)
      (date 2026 9 28)
      (paid_in_parts ∷ [])
      (sale ∷ [])
      []
      []
    ≡ record { date = october 27; amount = negsuc 49; external = true }
      ∷ record { date = october 28; amount = negsuc 29; external = true }
      ∷ record { date = october 28; amount = pos 70; external = false }
      ∷ []
unfolding timeline three_hours_back
flows_run = refl

zone_order :
    (key_le (three_hours_back (date 2026 9 26)) (three_hours_back (date 2026 9 27)) ≡ true)
    × (key_le (three_hours_back (date 2026 9 27)) (three_hours_back (date 2026 9 28)) ≡ true)
unfolding timeline three_hours_back
zone_order = (refl, refl)

build_cash_flows_split_example :
    total_of whole-IsExact three_hours_back (
      build_cash_flows whole three_hours_back
        (date 2026 9 26)
        (date 2026 9 28)
        (paid_in_parts ∷ [])
        (sale ∷ [])
        []
        [])
    ≡ total_of whole-IsExact three_hours_back (
        build_cash_flows whole three_hours_back
          (date 2026 9 26)
          (date 2026 9 27)
          (paid_in_parts ∷ [])
          (sale ∷ [])
          []
          [])
      +ℤ total_of whole-IsExact three_hours_back (
          build_cash_flows whole three_hours_back
            (date 2026 9 27)
            (date 2026 9 28)
            (paid_in_parts ∷ [])
            (sale ∷ [])
            []
            [])
build_cash_flows_split_example =
    build_cash_flows_split whole-IsExact three_hours_back (date 2026 9 26) (date 2026 9 27)
      (date 2026 9 28) (paid_in_parts ∷ []) (sale ∷ []) [] [] zone_order.0 zone_order.1
