-- ===== src/Services/Schedule.antt =====
-- The schedule of an entry or an expense (`resolveSchedule` of `backend/src/services/schedule.ts`).
-- An error is the name of its message, with the kind that selects the text.
pub mod Resolved
pub mod Refused
use demanage.Prelude.{ℕ, Bool, true, false, not, Option, none, some, ltb, if◌then◌else◌}
use demanage.CivilDate.{Instant}
use demanage.CivilDate.Text.{JsonValue, undefined, null, whole, other_number, text, other}
use demanage.Http.{
  Field, absent, cleared, given, parse_day_of_month, parse_optional_iso_date, parse_unique_date,
}

pub data ScheduleKind : Type 0 where
  income expense : ScheduleKind

pub data ScheduleMessage : Type 0 where
  day_required day_invalid start_required start_invalid end_invalid end_before_start date_required :
      ScheduleMessage

pub record BadRequest : Type 0 where
  pub kind : ScheduleKind
  pub message : ScheduleMessage

pub data Answer (A : Type 0) : Type 0 where
  ok : A → Answer A
  throw : BadRequest → Answer A

infixl 5 ◌>>=◌
abbrev pub ◌>>=◌ : {A B : Type 0} → Answer A → (A → Answer B) → Answer B
ok a >>= f = f a
throw e >>= f = throw e

pub record ScheduleBody : Type 0 where
  pub day : JsonValue
  pub starts_at : JsonValue
  pub ends_at : JsonValue
  pub date : JsonValue

pub record ExistingSchedule : Type 0 where
  pub day : Option ℕ
  pub starts_at : Option Instant
  pub ends_at : Option Instant
  pub date : Option Instant

pub record ResolvedSchedule : Type 0 where
  pub day : Field ℕ
  pub starts_at : Field Instant
  pub ends_at : Field Instant
  pub date : Field Instant

abbrev pub fail : {A : Type 0} → ScheduleKind → ScheduleMessage → Answer A
fail kind message = throw (record { kind = kind; message = message })

abbrev pub is_undefined : JsonValue → Bool
is_undefined undefined = true
is_undefined _ = false

-- A value that is required: `parsed == null` is the second error.
abbrev pub required :
    {A : Type 0}
    → ScheduleKind
    → ScheduleMessage
    → ScheduleMessage
    → Option (Field A)
    → Answer (Field A)
required kind invalid missing none = fail kind invalid
required kind invalid missing (some absent) = fail kind missing
required kind invalid missing (some cleared) = fail kind missing
required kind invalid missing (some (given a)) = ok (given a)

-- What is stored stays, if there is something.
abbrev pub kept : {A : Type 0} → ScheduleKind → ScheduleMessage → Option A → Answer (Field A)
kept kind missing none = fail kind missing
kept kind missing (some a) = ok absent

abbrev pub parsed_date : ScheduleKind → Option Instant → Answer (Field Instant)
parsed_date kind none = fail kind date_required
parsed_date kind (some t) = ok (given t)

unfoldable pub resolve_date :
    ScheduleKind → JsonValue → Option ExistingSchedule → Answer (Field Instant)
resolve_date kind v none = parsed_date kind (parse_unique_date v)
resolve_date kind v (some e) =
    if is_undefined v
    then kept kind date_required e.date
    else parsed_date kind (parse_unique_date v)

unfoldable pub resolve_day : ScheduleKind → JsonValue → Option ExistingSchedule → Answer (Field ℕ)
resolve_day kind v none = required kind day_invalid day_required (parse_day_of_month v)
resolve_day kind v (some e) =
    if is_undefined v
    then kept kind day_required e.day
    else required kind day_invalid day_required (parse_day_of_month v)

unfoldable pub resolve_start :
    ScheduleKind → JsonValue → Option ExistingSchedule → Answer (Field Instant)
resolve_start kind v none = required kind start_invalid start_required (parse_optional_iso_date v)
resolve_start kind v (some e) =
    if is_undefined v
    then kept kind start_required e.starts_at
    else required kind start_invalid start_required (parse_optional_iso_date v)

abbrev pub parsed_end : ScheduleKind → Option (Field Instant) → Answer (Field Instant)
parsed_end kind none = fail kind end_invalid
parsed_end kind (some f) = ok f

-- `endsAt = null` on a creation without one.
unfoldable pub resolve_end :
    ScheduleKind → JsonValue → Option ExistingSchedule → Answer (Field Instant)
resolve_end kind v none =
    if is_undefined v then ok cleared else parsed_end kind (parse_optional_iso_date v)
resolve_end kind v (some e) =
    if is_undefined v then ok absent else parsed_end kind (parse_optional_iso_date v)

-- `startsAt !== undefined ? startsAt : existing?.startsAt`.
abbrev pub effective : {A : Type 0} → Field A → Option A → Option A
effective absent stored = stored
effective cleared stored = none
effective (given a) stored = some a

abbrev pub stored_start : Option ExistingSchedule → Option Instant
stored_start none = none
stored_start (some e) = e.starts_at

abbrev pub stored_end : Option ExistingSchedule → Option Instant
stored_end none = none
stored_end (some e) = e.ends_at

-- The end is before the start.
abbrev pub is_backwards : Option Instant → Option Instant → Bool
is_backwards (some start) (some end) = ltb end start
is_backwards _ _ = false

unfoldable pub resolve_recurring :
    ScheduleKind → ScheduleBody → Option ExistingSchedule → Answer ResolvedSchedule
unfolding resolve_day resolve_start resolve_end
resolve_recurring kind body existing = do
  day ← resolve_day kind body.day existing
  starts_at ← resolve_start kind body.starts_at existing
  ends_at ← resolve_end kind body.ends_at existing
  if is_backwards (effective starts_at (stored_start existing))
        (effective ends_at (stored_end existing))
      then fail kind end_before_start
      else ok (record { day = day; starts_at = starts_at; ends_at = ends_at; date = cleared })

unfoldable pub resolve_unica :
    ScheduleKind → ScheduleBody → Option ExistingSchedule → Answer ResolvedSchedule
unfolding resolve_date
resolve_unica kind body existing = do
  date ← resolve_date kind body.date existing
  ok (record { day = cleared; starts_at = cleared; ends_at = cleared; date = date })

-- The flag says `frequency === 'unica'`.
unfoldable pub resolve_schedule :
    ScheduleKind → Bool → ScheduleBody → Option ExistingSchedule → Answer ResolvedSchedule
unfolding resolve_unica resolve_recurring
resolve_schedule kind unica body existing =
    if unica then resolve_unica kind body existing else resolve_recurring kind body existing
