-- ===== src/Market/Range.antt =====
-- The range of days of a request (`validateHistoryRange` of `backend/src/lib/market/series.ts`).
use demanage.Prelude.{
  ℕ, ◌+◌, ◌*◌, ◌≤◌, ◌<◌, ◌≡◌, refl, ◌∙◌, arith, Bool, true, false, some, if◌then◌else◌,
}
use demanage.Prelude.Int.{pos, ◌+ℤ◌, ◌-ℤ◌, ltb_ℤ}
use demanage.CivilDate.{DayKey, Instant, noon, ms_per_day, day_number, diff_days, day_key_to_date}
use demanage.CivilDate.Numbers.{IsFull}
use demanage.CivilDate.Zone.{IsFullKey}
use demanage.CivilDate.Text.{Text, text, text_of, text_lt, parse_day_key}
use demanage.CivilDate.Text.Keys.{parse_day_key_lem, text_lt-key_lt}
use demanage.Billing.Occurrences.Weekly.{key_lt-number}
use demanage.Market.{
  invalid_period, future_date, period_too_long, ok, throw, range_of, validate_history_range,
}
use demanage.Piggy.Interest.History.{max_history_range_days}

checks_passed :
    (p q r : Bool) (x y : Instant) {a b : Instant}
    → (if p
        then throw invalid_period
        else if q
        then throw future_date
        else if r
        then throw period_too_long
        else ok x y)
      ≡ ok a b
    → (p ≡ false) × (q ≡ false) × (r ≡ false) × (x ≡ a) × (y ≡ b)
checks_passed true q r x y h = cc
checks_passed false true r x y h = cc
checks_passed false false true x y h = cc
checks_passed false false false x y h = (refl, refl, refl, cc h, cc h)

days_within :
    (f t : ℕ)
    → ltb_ℤ (pos max_history_range_days) (pos t -ℤ pos f +ℤ pos 1) ≡ false
    → t + 1 ≤ f + max_history_range_days
unfolding ◌-ℤ◌ ◌+ℤ◌
days_within f t h = ground (arith, h)

noon_of : (k : DayKey) → day_key_to_date k noon ≡ day_number k * ms_per_day + 43_200_000
unfolding day_key_to_date
noon_of k = refl

text_order :
    (a b : DayKey)
    → IsFullKey a
    → IsFullKey b
    → a.year < 10000
    → b.year < 10000
    → text_lt (text_of a) (text_of b) ≡ false
    → day_number b ≤ day_number a
text_order a b va vb ha hb h =
    let e = text_lt-key_lt a b va.0 vb.0 ha hb ∙ key_lt-number va.0 vb.0 va.1 vb.1 in
    ground (arith, e, h)

-- The dates of a range that is accepted are in order, the last is not after noon of today, and
-- they are less than 3663 days apart. The two texts are those of days of the year 100 or later,
-- and today is a valid day of the years 100 to 9999.
pub validate_history_range_bounds :
    (zone : Instant → DayKey) (from_input to_input : Text) (now first last : Instant)
    (from to : DayKey)
    → parse_day_key (text from_input) ≡ some from
    → parse_day_key (text to_input) ≡ some to
    → IsFull from.year
    → IsFull to.year
    → IsFullKey (zone now)
    → (zone now).year < 10000
    → validate_history_range zone from_input to_input now ≡ ok first last
    → (first ≤ last)
      × (last ≤ day_key_to_date (zone now) noon)
      × (last < first + max_history_range_days * ms_per_day)
unfolding validate_history_range range_of diff_days
validate_history_range_bounds zone from_input to_input now first last from to pf pt ff ft vn hn h =
    let (kf, yf, ef) = (parse_day_key_lem from_input from).0 pf in
    let (kt, yt, et) = (parse_day_key_lem to_input to).0 pt in
    let (in_order, past, short, is_first, is_last) =
      checks_passed (text_lt to_input from_input) (text_lt (text_of (zone now)) to_input)
        (ltb_ℤ (pos max_history_range_days) (pos (day_number to) -ℤ pos (day_number from) +ℤ pos 1))
        (day_key_to_date from noon) (day_key_to_date to noon)
        (rw (pf, pt, validate_history_range) at h) in
    let ordered = text_order to from (kt, ft) (kf, ff) yt yf (rw (et, ef) at in_order) in
    let ended = text_order (zone now) to vn (kt, ft) hn yt (rw et at past) in
    let within = days_within (day_number from) (day_number to) short in
    rw (← is_first, ← is_last, noon_of from, noon_of to, noon_of (zone now))
      (omega (arith, ordered), omega (arith, ended), omega (arith, within))
