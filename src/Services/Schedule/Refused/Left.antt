-- ===== src/Services/Schedule/Refused/Left.antt =====
-- What an answer leaves of a field (`resolveSchedule` of `backend/src/services/schedule.ts`).
use demanage.Prelude.{◌≡◌, refl, Option, none, some, Bool-cases, inl, inr}
use demanage.CivilDate.{Instant}
use demanage.CivilDate.Text.{JsonValue}
use demanage.Http.{Field, absent, cleared, given, parse_optional_iso_date}
use demanage.Services.Schedule.{
  ScheduleKind, ScheduleMessage, start_required, start_invalid, Answer, ok, ExistingSchedule,
  required, kept, resolve_start, parsed_end, resolve_end, effective, stored_start, stored_end,
  is_undefined,
}
use demanage.Services.Schedule.Refused.Fields.{left_by, date_of_undefined}

-- What the answer leaves is what the field leaves.
required-left :
    {A : Type 0} (kind : ScheduleKind) (bad missing : ScheduleMessage) (o : Option (Field A))
    (stored : Option A) {f : Field A}
    → required kind bad missing o ≡ ok f
    → effective f stored ≡ left_by o stored
required-left kind bad missing none stored h = cc
required-left kind bad missing (some absent) stored h = cc
required-left kind bad missing (some cleared) stored h = cc
required-left kind bad missing (some (given a)) stored {f} h =
    let same : given a ≡ f = cc h in rw (← same) refl

kept-left :
    {A : Type 0} (kind : ScheduleKind) (missing : ScheduleMessage) (o : Option (Field A))
    (stored : Option A) {f : Field A}
    → o ≡ some absent
    → kept kind missing stored ≡ ok f
    → effective f stored ≡ left_by o stored
kept-left kind missing o none same h = cc
kept-left kind missing o (some a) {f} same h =
    let kept_as : absent ≡ f = cc h in rw (← kept_as, same) refl

parsed_end-left :
    (kind : ScheduleKind) (o : Option (Field Instant)) (stored : Option Instant) {f : Field Instant}
    → parsed_end kind o ≡ ok f
    → effective f stored ≡ left_by o stored
parsed_end-left kind none stored h = cc
parsed_end-left kind (some g) stored {f} h = let same : g ≡ f = cc h in rw (← same) refl

pub resolve_start-left :
    (kind : ScheduleKind) (v : JsonValue) (existing : Option ExistingSchedule) {f : Field Instant}
    → resolve_start kind v existing ≡ ok f
    → effective f (stored_start existing)
      ≡ left_by (parse_optional_iso_date v) (stored_start existing)
unfolding resolve_start
resolve_start-left kind v none h =
    required-left kind start_invalid start_required (parse_optional_iso_date v) none h
resolve_start-left kind v (some s) h = elim (Bool-cases (is_undefined v)) [
  | inl same ↦
      kept-left kind start_required (parse_optional_iso_date v) s.starts_at
        (date_of_undefined v same) (rw (same, resolve_start) at h)
  | inr new ↦
      required-left kind start_invalid start_required (parse_optional_iso_date v) s.starts_at
        (rw (new, resolve_start) at h)
]

no_end :
    (f g : Field Instant) (o : Option (Field Instant)) (stored : Option Instant)
    → o ≡ some absent
    → Path (Answer (Field Instant)) (ok f) (ok g)
    → effective f stored ≡ stored
    → effective g stored ≡ left_by o stored
no_end f g o stored same h left = let is_g : f ≡ g = cc h in rw (← is_g, same) left

pub resolve_end-left :
    (kind : ScheduleKind) (v : JsonValue) (existing : Option ExistingSchedule) {f : Field Instant}
    → resolve_end kind v existing ≡ ok f
    → effective f (stored_end existing) ≡ left_by (parse_optional_iso_date v) (stored_end existing)
unfolding resolve_end
resolve_end-left kind v none {f} h = elim (Bool-cases (is_undefined v)) [
  | inl same ↦
      no_end cleared f (parse_optional_iso_date v) none (date_of_undefined v same)
        (rw (same, resolve_end) at h) refl
  | inr new ↦ parsed_end-left kind (parse_optional_iso_date v) none (rw (new, resolve_end) at h)
]
resolve_end-left kind v (some s) {f} h = elim (Bool-cases (is_undefined v)) [
  | inl same ↦
      no_end absent f (parse_optional_iso_date v) s.ends_at (date_of_undefined v same)
        (rw (same, resolve_end) at h) refl
  | inr new ↦
      parsed_end-left kind (parse_optional_iso_date v) s.ends_at (rw (new, resolve_end) at h)
]
