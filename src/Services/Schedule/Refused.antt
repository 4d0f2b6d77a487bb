-- ===== src/Services/Schedule/Refused.antt =====
-- Why a schedule is refused (`resolveSchedule` of `backend/src/services/schedule.ts`).
mod Fields
mod Left
use demanage.Prelude.{
  ℕ, ◌<◌, ◌≡◌, [], ◌∷◌, sym, ap, ◌∙◌, Bool, true, false, Option, none, some, Bool-cases,
}
use demanage.CivilDate.{Instant}
use demanage.CivilDate.Text.{Text, JsonValue, undefined, null, whole, other_number, text, other}
use demanage.Http.{
  absent, cleared, given, day_in_range, short_number, given_date, trim, parse_day_of_month,
  parse_iso_date, parse_optional_iso_date, parse_unique_date,
}
use demanage.Services.Schedule.{
  ScheduleMessage, day_required, day_invalid, start_required, start_invalid, end_invalid,
  end_before_start, date_required, ScheduleBody, ExistingSchedule, fail, required, kept,
  parsed_date, parsed_end, stored_start, stored_end, is_undefined,
}
use demanage.Services.Schedule.Resolved.{stored_day, stored_date, bind-eq_ok}
use demanage.Services.Schedule.Refused.Fields.{IsEmpty, left_by, date_left}

-- The end is before the start.
abbrev pub EndsEarly : Option Instant → Option Instant → Type 0
EndsEarly none end = ⊥
EndsEarly (some start) none = ⊥
EndsEarly (some start) (some end) = end < start

-- The cause of each message.
abbrev pub Cause : ScheduleBody → Option ExistingSchedule → Bool → ScheduleMessage → Type 0
Cause body existing unica date_required = (unica ≡ true) × (date_left body.date existing ≡ none)
Cause body existing unica day_invalid = (unica ≡ false) × (parse_day_of_month body.day ≡ none)
Cause body existing unica day_required =
    (unica ≡ false)
    × (IsEmpty (parse_day_of_month body.day)
        × (left_by (parse_day_of_month body.day) (stored_day existing) ≡ none))
Cause body existing unica start_invalid =
    (unica ≡ false) × (parse_optional_iso_date body.starts_at ≡ none)
Cause body existing unica start_required =
    (unica ≡ false)
    × (IsEmpty (parse_optional_iso_date body.starts_at)
        × (left_by (parse_optional_iso_date body.starts_at) (stored_start existing) ≡ none))
Cause body existing unica end_invalid =
    (unica ≡ false) × (parse_optional_iso_date body.ends_at ≡ none)
Cause body existing unica end_before_start =
    (unica ≡ false)
    × EndsEarly (left_by (parse_optional_iso_date body.starts_at) (stored_start existing))
        (left_by (parse_optional_iso_date body.ends_at) (stored_end existing))
