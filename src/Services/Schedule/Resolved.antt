-- ===== src/Services/Schedule/Resolved.antt =====
-- What a schedule that passes is, and why one is refused (`resolveSchedule` of
-- `backend/src/services/schedule.ts`).
use demanage.Prelude.{
  arith, ℕ, ◌≤◌, ◌≡◌, refl, Bool, true, false, Option, none, some, if◌then◌else◌, Bool-cases, inl,
  inr,
}
use demanage.CivilDate.{Instant}
use demanage.CivilDate.Text.{JsonValue}
use demanage.Http.{
  Field, absent, cleared, given, parse_day_of_month, parse_optional_iso_date, parse_unique_date,
}
use demanage.Http.Bounds.{parse_day_of_month_bounds}
use demanage.Services.Schedule.{
  ScheduleKind, ScheduleMessage, day_required, day_invalid, start_required, start_invalid,
  end_before_start, date_required, Answer, ok, throw, ScheduleBody, ExistingSchedule,
  ResolvedSchedule, required, kept, parsed_date, resolve_date, resolve_day, resolve_start,
  resolve_end, effective, stored_start, stored_end, is_backwards, resolve_recurring, resolve_unica,
  resolve_schedule, is_undefined, ◌>>=◌,
}

abbrev pub stored_day : Option ExistingSchedule → Option ℕ
stored_day none = none
stored_day (some e) = e.day

abbrev pub stored_date : Option ExistingSchedule → Option Instant
stored_date none = none
stored_date (some e) = e.date

-- The schedule in the database after the answer.
abbrev pub stored_by : ResolvedSchedule → Option ExistingSchedule → ExistingSchedule
stored_by r existing = record {
  day = effective r.day (stored_day existing);
  starts_at = effective r.starts_at (stored_start existing);
  ends_at = effective r.ends_at (stored_end existing);
  date = effective r.date (stored_date existing);
}

abbrev pub IsSome : {A : Type 0} → Option A → Type 0
IsSome none = ⊥
IsSome (some a) = Unit

abbrev pub IsDay : Option ℕ → Type 0
IsDay none = ⊥
IsDay (some d) = (1 ≤ d) × (d ≤ 31)

-- No day, or one of a month.
abbrev pub IsDayIfAny : Option ℕ → Type 0
IsDayIfAny none = Unit
IsDayIfAny (some d) = (1 ≤ d) × (d ≤ 31)

-- The end, where both are there, is not before the start.
abbrev pub IsInOrder : Option Instant → Option Instant → Type 0
IsInOrder none end = Unit
IsInOrder (some start) none = Unit
IsInOrder (some start) (some end) = start ≤ end

-- A single movement has a date and nothing else; a recurring one a day, a start and no date, and its
-- end is not before its start.
abbrev pub IsWellFormed : Bool → ExistingSchedule → Type 0
IsWellFormed true s = ((s.day ≡ none) × (s.starts_at ≡ none) × (s.ends_at ≡ none)) × IsSome s.date
IsWellFormed false s =
    (IsDay s.day × IsSome s.starts_at × (s.date ≡ none)) × IsInOrder s.starts_at s.ends_at

pub bind-eq_ok :
    {A B : Type 0} (m : Answer A) (f : A → Answer B) {b : B}
    → (m >>= f) ≡ ok b
    → (a : A) × (m ≡ ok a) × (f a ≡ ok b)
bind-eq_ok (ok a) f h = (a, refl, h)
bind-eq_ok (throw e) f h = cc

required-IsSome :
    (kind : ScheduleKind) (bad missing : ScheduleMessage) (o : Option (Field Instant))
    (stored : Option Instant) {f : Field Instant}
    → required kind bad missing o ≡ ok f
    → IsSome (effective f stored)
required-IsSome kind bad missing none stored h = cc
required-IsSome kind bad missing (some absent) stored h = cc
required-IsSome kind bad missing (some cleared) stored h = cc
required-IsSome kind bad missing (some (given t)) stored {f} h =
    let same : given t ≡ f = cc h in rw (← same) tt

required-IsDay :
    (kind : ScheduleKind) (bad missing : ScheduleMessage) (v : JsonValue) (stored : Option ℕ)
    (f : Field ℕ)
    → required kind bad missing (parse_day_of_month v) ≡ ok f
    → IsDay (effective f stored)
required-IsDay kind bad missing v stored f h =
    go (parse_day_of_month v) (λ d e. parse_day_of_month_bounds v d e) h
  where
    go :
        (o : Option (Field ℕ))
        → ((d : ℕ) → o ≡ some (given d) → (1 ≤ d) × (d ≤ 31))
        → required kind bad missing o ≡ ok f
        → IsDay (effective f stored)
    go none b h = cc
    go (some absent) b h = cc
    go (some cleared) b h = cc
    go (some (given d)) b h = let same : given d ≡ f = cc h in rw (← same) (b d refl)

kept-IsSome :
    (kind : ScheduleKind) (missing : ScheduleMessage) (stored : Option Instant) {f : Field Instant}
    → kept kind missing stored ≡ ok f
    → IsSome (effective f stored)
kept-IsSome kind missing none h = cc
kept-IsSome kind missing (some t) {f} h = let same : absent ≡ f = cc h in rw (← same) tt

kept-IsDay :
    (kind : ScheduleKind) (missing : ScheduleMessage) (stored : Option ℕ) {f : Field ℕ}
    → IsDayIfAny stored
    → kept kind missing stored ≡ ok f
    → IsDay (effective f stored)
kept-IsDay kind missing none d h = cc
kept-IsDay kind missing (some t) {f} d h = let same : absent ≡ f = cc h in rw (← same) d

parsed_date-IsSome :
    (kind : ScheduleKind) (o stored : Option Instant) {f : Field Instant}
    → parsed_date kind o ≡ ok f
    → IsSome (effective f stored)
parsed_date-IsSome kind none stored h = cc
parsed_date-IsSome kind (some t) stored {f} h = let same : given t ≡ f = cc h in rw (← same) tt

resolve_date-IsSome :
    (kind : ScheduleKind) (v : JsonValue) (existing : Option ExistingSchedule) {f : Field Instant}
    → resolve_date kind v existing ≡ ok f
    → IsSome (effective f (stored_date existing))
unfolding resolve_date
resolve_date-IsSome kind v none h = parsed_date-IsSome kind (parse_unique_date v) none h
resolve_date-IsSome kind v (some e) h = elim (Bool-cases (is_undefined v)) [
  | inl same ↦ kept-IsSome kind date_required e.date (rw (same, resolve_date) at h)
  | inr new ↦ parsed_date-IsSome kind (parse_unique_date v) e.date (rw (new, resolve_date) at h)
]

resolve_start-IsSome :
    (kind : ScheduleKind) (v : JsonValue) (existing : Option ExistingSchedule) {f : Field Instant}
    → resolve_start kind v existing ≡ ok f
    → IsSome (effective f (stored_start existing))
unfolding resolve_start
resolve_start-IsSome kind v none h =
    required-IsSome kind start_invalid start_required (parse_optional_iso_date v) none h
resolve_start-IsSome kind v (some e) h = elim (Bool-cases (is_undefined v)) [
  | inl same ↦ kept-IsSome kind start_required e.starts_at (rw (same, resolve_start) at h)
  | inr new ↦
      required-IsSome kind start_invalid start_required (parse_optional_iso_date v) e.starts_at
        (rw (new, resolve_start) at h)
]

resolve_day-IsDay :
    (kind : ScheduleKind) (v : JsonValue) (existing : Option ExistingSchedule) (f : Field ℕ)
    → IsDayIfAny (stored_day existing)
    → resolve_day kind v existing ≡ ok f
    → IsDay (effective f (stored_day existing))
unfolding resolve_day
resolve_day-IsDay kind v none f d h = required-IsDay kind day_invalid day_required v none f h
resolve_day-IsDay kind v (some e) f d h = elim (Bool-cases (is_undefined v)) [
  | inl same ↦ kept-IsDay kind day_required e.day d (rw (same, resolve_day) at h)
  | inr new ↦ required-IsDay kind day_invalid day_required v e.day f (rw (new, resolve_day) at h)
]

resolve_unica-IsWellFormed :
    (kind : ScheduleKind) (body : ScheduleBody) (existing : Option ExistingSchedule)
    (r : ResolvedSchedule)
    → resolve_unica kind body existing ≡ ok r
    → IsWellFormed true (stored_by r existing)
unfolding resolve_unica
resolve_unica-IsWellFormed kind body existing r h =
    let (date, found, rest) = bind-eq_ok (resolve_date kind body.date existing) _ h in
    let same : record { day = cleared; starts_at = cleared; ends_at = cleared; date = date } ≡ r =
      cc rest in
    rw (← same) ((refl, refl, refl), resolve_date-IsSome kind body.date existing found)

is_backwards-IsInOrder :
    (start end : Option Instant) → is_backwards start end ≡ false → IsInOrder start end
is_backwards-IsInOrder none end h = tt
is_backwards-IsInOrder (some start) none h = tt
is_backwards-IsInOrder (some start) (some end) h = ground (arith, h)

-- The last test of a recurring schedule.
in_order :
    (kind : ScheduleKind) (test : Bool) (r : ResolvedSchedule) {s : ResolvedSchedule}
    → (if test then throw (record { kind = kind; message = end_before_start }) else ok r) ≡ ok s
    → (test ≡ false) × (r ≡ s)
in_order kind true r h = cc
in_order kind false r h = (refl, cc h)

resolve_recurring-IsWellFormed :
    (kind : ScheduleKind) (body : ScheduleBody) (existing : Option ExistingSchedule)
    (r : ResolvedSchedule)
    → IsDayIfAny (stored_day existing)
    → resolve_recurring kind body existing ≡ ok r
    → IsWellFormed false (stored_by r existing)
unfolding resolve_recurring
resolve_recurring-IsWellFormed kind body existing r d h =
    let (day, day_found, h1) = bind-eq_ok (resolve_day kind body.day existing) _ h in
    let (starts, start_found, h2) = bind-eq_ok (resolve_start kind body.starts_at existing) _ h1 in
    let (ends, end_found, h3) = bind-eq_ok (resolve_end kind body.ends_at existing) _ h2 in
    let test =
      is_backwards (effective starts (stored_start existing))
        (effective ends (stored_end existing)) in
    let (forwards, same) =
      in_order kind test (record { day = day; starts_at = starts; ends_at = ends; date = cleared })
        h3 in
    rw (← same) (
      (
        resolve_day-IsDay kind body.day existing day d day_found,
        resolve_start-IsSome kind body.starts_at existing start_found,
        refl,
      ),
      is_backwards-IsInOrder (effective starts (stored_start existing))
          (effective ends (stored_end existing)) forwards,
    )

-- A schedule that is accepted, stored over what was there, is well formed: a single movement
-- has a date and no day, start or end; a recurring one has a day from 1 to 31, a start and no
-- date, and its end, if any, is not before its start. A stored day, if any, is from 1 to 31.
pub resolve_schedule-IsWellFormed :
    (kind : ScheduleKind) (unica : Bool) (body : ScheduleBody) (existing : Option ExistingSchedule)
    (r : ResolvedSchedule)
    → IsDayIfAny (stored_day existing)
    → resolve_schedule kind unica body existing ≡ ok r
    → IsWellFormed unica (stored_by r existing)
unfolding resolve_schedule
resolve_schedule-IsWellFormed kind true body existing r d h =
    resolve_unica-IsWellFormed kind body existing r h
resolve_schedule-IsWellFormed kind false body existing r d h =
    resolve_recurring-IsWellFormed kind body existing r d h
