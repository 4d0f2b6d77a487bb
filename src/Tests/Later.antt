-- ===== src/Tests/Later.antt =====
-- A card billed in November and again in December, against December alone.
use demanage.Prelude.{◌≤◌, arith}
use demanage.CivilDate.{day_key_of_date}
use demanage.CivilDate.Order.{IsKey, rank}
use demanage.Billing.Plan.{plan_card_billing, apply_update}
use demanage.Billing.Plan.CatchUp.{SameSchedule, plan_card_billing_catch_up}
use demanage.Tests.Model.{whole, three_hours_back}
use demanage.Tests.Cards.{cards, date, purchases, blue, blue_start, december_15, december_15-IsKey}

november_15-IsKey : IsKey (day_key_of_date (date 2026 10 15))
unfolding cards
november_15-IsKey = omega arith

in_order : rank (day_key_of_date (date 2026 10 15)) ≤ rank (day_key_of_date december_15)
unfolding cards
in_order = omega arith

plan_card_billing_catch_up_example :
    let t =
      plan_card_billing whole three_hours_back blue purchases (date 2026 10 15) (date 2026 10 16) in
    SameSchedule (plan_card_billing whole three_hours_back blue purchases december_15 december_15) (
      plan_card_billing whole three_hours_back
        (apply_update blue t.update)
        purchases
        december_15
        december_15)
plan_card_billing_catch_up_example =
    plan_card_billing_catch_up whole three_hours_back blue purchases purchases (date 2026 10 15)
      december_15 (date 2026 10 16) december_15 november_15-IsKey december_15-IsKey in_order
      blue_start
