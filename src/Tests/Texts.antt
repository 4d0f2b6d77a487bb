-- ===== src/Tests/Texts.antt =====
-- Texts of days, fields of requests and schedules, at concrete values.
use demanage.Prelude.{◌<◌, ◌≡◌, ◌↔◌, refl, arith, true, false, some, none, [], ◌∷◌}
use demanage.CivilDate.{key_lt}
use demanage.CivilDate.Order.{IsKey}
use demanage.CivilDate.Text.{
  Text, text_of, undefined, null, whole, text, parse_day_key, text_lt, digits, pad, format_day_key,
  match_day_key, key_of_parts, parse_text, parse_civil_date, is_valid_day_key,
}
use demanage.CivilDate.Text.Keys.{parse_day_key_lem, text_lt-key_lt}
use demanage.Http.{
  cleared, given, trim_start, trim, number_of, parse_day_of_month, utc_day_of_parts,
  iso_date_of_parts, parse_iso_date, parse_optional_iso_date, parse_unique_date, span_digits,
  match_money, strip_zeros, raw_of, amount_of_text, parse_money_amount, parse_positive_amount,
  parse_optional_card_limit,
}
use demanage.Http.Written.{hundredths, notation}
use demanage.Http.Money.{thousandths, malformed_text}
use demanage.Services.Schedule.{
  expense, income, end_before_start, BadRequest, ok, ScheduleBody, ExistingSchedule,
  ResolvedSchedule, resolve_date, resolve_day, resolve_start, resolve_end, resolve_recurring,
  resolve_unica, resolve_schedule,
}
use demanage.Services.Schedule.Resolved.{stored_by, IsWellFormed, resolve_schedule-IsWellFormed}
use demanage.Tests.Dates.{dates, leap_day, leap_day-IsKey, new_year, new_year-IsKey}

unfoldable pub texts : Unit {0}
unfolding dates digits pad format_day_key match_day_key key_of_parts parse_text parse_day_key
    is_valid_day_key parse_civil_date text_lt key_lt trim_start trim number_of parse_day_of_month
    utc_day_of_parts iso_date_of_parts parse_iso_date parse_optional_iso_date parse_unique_date
    span_digits match_money strip_zeros raw_of amount_of_text parse_money_amount
    parse_positive_amount parse_optional_card_limit resolve_date resolve_day resolve_start
    resolve_end resolve_recurring resolve_unica resolve_schedule
texts = tt

-- 2028-02-29, 2027-02-29 and 2027-01-01.
abbrev pub text_2028_02_29 : Text
text_2028_02_29 = 50 ∷ 48 ∷ 50 ∷ 56 ∷ 45 ∷ 48 ∷ 50 ∷ 45 ∷ 50 ∷ 57 ∷ []

abbrev pub text_2027_02_29 : Text
text_2027_02_29 = 50 ∷ 48 ∷ 50 ∷ 55 ∷ 45 ∷ 48 ∷ 50 ∷ 45 ∷ 50 ∷ 57 ∷ []

abbrev pub text_2027_01_01 : Text
text_2027_01_01 = 50 ∷ 48 ∷ 50 ∷ 55 ∷ 45 ∷ 48 ∷ 49 ∷ 45 ∷ 48 ∷ 49 ∷ []

key_runs :
    (text_of leap_day ≡ text_2028_02_29)
    × (parse_day_key (text text_2027_02_29) ≡ none)
    × (parse_day_key (whole 2027) ≡ none)
    × (is_valid_day_key (text text_2027_01_01) ≡ true)
unfolding texts
key_runs = (refl, refl, refl, refl)

parse_day_key_lem_example :
    (parse_day_key (text text_2028_02_29) ≡ some leap_day)
    ↔ (IsKey leap_day × (2028 < 10000) × (text_2028_02_29 ≡ text_of leap_day))
parse_day_key_lem_example = parse_day_key_lem text_2028_02_29 leap_day

text_lt-key_lt_example : text_lt (text_of new_year) (text_of leap_day) ≡ key_lt new_year leap_day
text_lt-key_lt_example =
    text_lt-key_lt new_year leap_day new_year-IsKey leap_day-IsKey (omega arith) (omega arith)

-- " 0012.50 ".
abbrev amount : Text
amount = 32 ∷ 48 ∷ 48 ∷ 49 ∷ 50 ∷ 46 ∷ 53 ∷ 48 ∷ 32 ∷ []

amount_found : parse_money_amount (text amount) false ≡ some 1250
unfolding texts
amount_found = refl

notation_run : notation (hundredths 1205) ≡ 49 ∷ 50 ∷ 46 ∷ 48 ∷ 53 ∷ []
unfolding texts
notation_run = refl

amount_runs :
    (parse_positive_amount (whole 0) ≡ none)
    × (parse_money_amount (whole 0) true ≡ some 0)
    × (parse_positive_amount (whole 9_999_999_999) ≡ some 999_999_999_900)
    × (parse_positive_amount (whole 10_000_000_000) ≡ none)
    × (parse_optional_card_limit null ≡ some cleared)
    × (parse_day_of_month (text (32 ∷ 51 ∷ 49 ∷ [])) ≡ some (given 31))
    × (parse_day_of_month (whole 32) ≡ none)
    × (parse_money_amount (text (malformed_text (thousandths 12345))) true ≡ none)
unfolding texts
amount_runs = (refl, refl, refl, refl, refl, refl, refl, refl)

-- An expense on the 5th from the leap day on.
abbrev body : ScheduleBody
body = record {
  day = whole 5;
  starts_at = text text_2028_02_29;
  ends_at = undefined;
  date = undefined;
}

abbrev resolved : ResolvedSchedule
resolved = record {
  day = given 5;
  starts_at = given 64_002_614_400_000;
  ends_at = cleared;
  date = cleared;
}

schedule_found : resolve_schedule expense false body none ≡ ok resolved
unfolding texts
schedule_found = refl

resolve_schedule-IsWellFormed_example : IsWellFormed false (stored_by resolved none)
resolve_schedule-IsWellFormed_example =
    resolve_schedule-IsWellFormed expense false body none resolved tt schedule_found

-- The stored schedule, and an end before its start.
abbrev stored : ExistingSchedule
stored = stored_by resolved none

abbrev early_end : ScheduleBody
early_end = record {
  day = undefined;
  starts_at = undefined;
  ends_at = text text_2027_01_01;
  date = undefined;
}

abbrev refusal : BadRequest
refusal = record { kind = income; message = end_before_start }
