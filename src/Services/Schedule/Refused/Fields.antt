-- ===== src/Services/Schedule/Refused/Fields.antt =====
-- What each field of a schedule leaves, and why it is refused (`resolveSchedule` of
-- `backend/src/services/schedule.ts`).
use demanage.Prelude.{
  ℕ, ◌≡◌, ◌⊎◌, arith, [], ◌∷◌, refl, sym, ap, true, false, Option, none, some, if◌then◌else◌,
  Bool-cases, inl, inr,
}
use demanage.CivilDate.{Instant}
use demanage.CivilDate.Text.{Text, JsonValue, undefined, null, whole, other_number, text, other}
use demanage.Http.{
  Field, absent, cleared, given, day_in_range, short_number, given_date, trim, parse_day_of_month,
  parse_iso_date, parse_optional_iso_date, parse_unique_date,
}
use demanage.Services.Schedule.{
  ScheduleKind, ScheduleMessage, day_required, day_invalid, start_required, start_invalid,
  end_invalid, date_required, BadRequest, Answer, throw, ExistingSchedule, fail, required, kept,
  parsed_date, resolve_date, resolve_day, resolve_start, parsed_end, resolve_end, effective,
  stored_start, is_undefined,
}
use demanage.Services.Schedule.Resolved.{stored_day, stored_date}

-- The field reads, and holds no value.
abbrev pub IsEmpty : {A : Type 0} → Option (Field A) → Type 0
IsEmpty none = ⊥
IsEmpty (some absent) = Unit
IsEmpty (some cleared) = Unit
IsEmpty (some (given a)) = ⊥

-- What the field leaves of what is stored; one that does not read changes nothing.
abbrev pub left_by : {A : Type 0} → Option (Field A) → Option A → Option A
left_by none stored = stored
left_by (some f) stored = effective f stored

-- What is stored after the date of a single movement; `none` where it does not read.
abbrev pub date_left : JsonValue → Option ExistingSchedule → Option Instant
date_left v existing = if is_undefined v then stored_date existing else parse_unique_date v

-- A refusal with the two messages of a value that is required.
abbrev pub IsRefused :
    {A : Type 0}
    → ScheduleKind
    → ScheduleMessage
    → ScheduleMessage
    → Option (Field A)
    → Option A
    → BadRequest
    → Type 0
IsRefused kind bad missing o stored e =
    (e.kind ≡ kind)
    × (((e.message ≡ bad) × (o ≡ none))
        ⊎ ((e.message ≡ missing) × (IsEmpty o × (left_by o stored ≡ none))))

pub thrown :
    {A : Type 0} (kind : ScheduleKind) (message : ScheduleMessage) {e : BadRequest}
    → Path (Answer A) (fail kind message) (throw e)
    → (e.kind ≡ kind) × (e.message ≡ message)
thrown kind message {e} h =
    let same : record { kind = kind; message = message } ≡ e = cc h in
    (sym (ap (λ x. x.kind) same), sym (ap (λ x. x.message) same))

required-IsRefused :
    {A : Type 0} (kind : ScheduleKind) (bad missing : ScheduleMessage) (o : Option (Field A))
    (stored : Option A) {e : BadRequest}
    → (o ≡ some absent → stored ≡ none)
    → required kind bad missing o ≡ throw e
    → IsRefused kind bad missing o stored e
required-IsRefused kind bad missing none stored gone h =
    let (k, m) = thrown kind bad h in (k, inl (m, refl))
required-IsRefused kind bad missing (some absent) stored gone h =
    let (k, m) = thrown kind missing h in (k, inr (m, (tt, gone refl)))
required-IsRefused kind bad missing (some cleared) stored gone h =
    let (k, m) = thrown kind missing h in (k, inr (m, (tt, refl)))
required-IsRefused kind bad missing (some (given a)) stored gone h = cc

kept-IsRefused :
    {A : Type 0} (kind : ScheduleKind) (bad missing : ScheduleMessage) (o : Option (Field A))
    (stored : Option A) {e : BadRequest}
    → o ≡ some absent
    → kept kind missing stored ≡ throw e
    → IsRefused kind bad missing o stored e
kept-IsRefused kind bad missing o none same h =
    let (k, m) = thrown kind missing h in rw same (k, inr (m, (tt, refl)))
kept-IsRefused kind bad missing o (some a) same h = cc

is_undefined-eq_true : (v : JsonValue) → is_undefined v ≡ true → v ≡ undefined
is_undefined-eq_true undefined h = refl
is_undefined-eq_true null h = cc
is_undefined-eq_true (text s) h = cc
is_undefined-eq_true (whole n) h = cc
is_undefined-eq_true (other_number s) h = cc
is_undefined-eq_true other h = cc

pub day_of_undefined : (v : JsonValue) → is_undefined v ≡ true → parse_day_of_month v ≡ some absent
unfolding parse_day_of_month
day_of_undefined v h = rw (is_undefined-eq_true v h) refl

day_in_range-given : (n : ℕ) → day_in_range n ≡ some absent → ⊥
day_in_range-given n h = ground (arith, h)

short_number-given : (s : Text) → short_number s ≡ some absent → ⊥
short_number-given s h = ground (arith, h)

day_absent : (v : JsonValue) → is_undefined v ≡ false → parse_day_of_month v ≡ some absent → ⊥
unfolding parse_day_of_month
day_absent undefined u h = cc
day_absent null u h = cc
day_absent (text []) u h = cc
day_absent (text (c ∷ s)) u h = short_number-given (trim (c ∷ s)) h
day_absent (whole n) u h = day_in_range-given n h
day_absent (other_number s) u h = cc
day_absent other u h = cc

pub date_of_undefined :
    (v : JsonValue) → is_undefined v ≡ true → parse_optional_iso_date v ≡ some absent
unfolding parse_optional_iso_date
date_of_undefined v h = rw (is_undefined-eq_true v h) refl

given_date-given : (o : Option Instant) → given_date o ≡ some absent → ⊥
given_date-given none h = cc
given_date-given (some t) h = cc

date_absent : (v : JsonValue) → is_undefined v ≡ false → parse_optional_iso_date v ≡ some absent → ⊥
unfolding parse_optional_iso_date
date_absent undefined u h = cc
date_absent null u h = cc
date_absent (text []) u h = cc
date_absent (text (c ∷ s)) u h = given_date-given (parse_iso_date (text (c ∷ s))) h
date_absent (whole n) u h = cc
date_absent (other_number s) u h = cc
date_absent other u h = cc

pub resolve_day-IsRefused :
    (kind : ScheduleKind) (v : JsonValue) (existing : Option ExistingSchedule) {e : BadRequest}
    → resolve_day kind v existing ≡ throw e
    → IsRefused kind day_invalid day_required (parse_day_of_month v) (stored_day existing) e
unfolding resolve_day
resolve_day-IsRefused kind v none h =
    required-IsRefused kind day_invalid day_required (parse_day_of_month v) none (λ _. refl) h
resolve_day-IsRefused kind v (some s) h = elim (Bool-cases (is_undefined v)) [
  | inl same ↦
      kept-IsRefused kind day_invalid day_required (parse_day_of_month v) s.day
        (day_of_undefined v same) (rw (same, resolve_day) at h)
  | inr new ↦
      required-IsRefused kind day_invalid day_required (parse_day_of_month v) s.day
        (λ a. absurd (day_absent v new a)) (rw (new, resolve_day) at h)
]

pub resolve_start-IsRefused :
    (kind : ScheduleKind) (v : JsonValue) (existing : Option ExistingSchedule) {e : BadRequest}
    → resolve_start kind v existing ≡ throw e
    → IsRefused kind start_invalid start_required
        (parse_optional_iso_date v)
        (stored_start existing)
        e
unfolding resolve_start
resolve_start-IsRefused kind v none h =
    required-IsRefused kind start_invalid start_required (parse_optional_iso_date v) none
      (λ _. refl) h
resolve_start-IsRefused kind v (some s) h = elim (Bool-cases (is_undefined v)) [
  | inl same ↦
      kept-IsRefused kind start_invalid start_required (parse_optional_iso_date v) s.starts_at
        (date_of_undefined v same) (rw (same, resolve_start) at h)
  | inr new ↦
      required-IsRefused kind start_invalid start_required (parse_optional_iso_date v) s.starts_at
        (λ a. absurd (date_absent v new a)) (rw (new, resolve_start) at h)
]

parsed_end-eq_throw :
    (kind : ScheduleKind) (o : Option (Field Instant)) {e : BadRequest}
    → parsed_end kind o ≡ throw e
    → (e.kind ≡ kind) × (e.message ≡ end_invalid) × (o ≡ none)
parsed_end-eq_throw kind none h = let (k, m) = thrown kind end_invalid h in (k, m, refl)
parsed_end-eq_throw kind (some f) h = cc

pub resolve_end-eq_throw :
    (kind : ScheduleKind) (v : JsonValue) (existing : Option ExistingSchedule) {e : BadRequest}
    → resolve_end kind v existing ≡ throw e
    → (e.kind ≡ kind) × (e.message ≡ end_invalid) × (parse_optional_iso_date v ≡ none)
unfolding resolve_end
resolve_end-eq_throw kind v none h = elim (Bool-cases (is_undefined v)) [
  | inl same ↦ absurd (cc (rw (same, resolve_end) at h))
  | inr new ↦ parsed_end-eq_throw kind (parse_optional_iso_date v) (rw (new, resolve_end) at h)
]
resolve_end-eq_throw kind v (some s) h = elim (Bool-cases (is_undefined v)) [
  | inl same ↦ absurd (cc (rw (same, resolve_end) at h))
  | inr new ↦ parsed_end-eq_throw kind (parse_optional_iso_date v) (rw (new, resolve_end) at h)
]

parsed_date-eq_throw :
    (kind : ScheduleKind) (o : Option Instant) {e : BadRequest}
    → parsed_date kind o ≡ throw e
    → (e.kind ≡ kind) × (e.message ≡ date_required) × (o ≡ none)
parsed_date-eq_throw kind none h = let (k, m) = thrown kind date_required h in (k, m, refl)
parsed_date-eq_throw kind (some t) h = cc

kept_date-eq_throw :
    (kind : ScheduleKind) (o : Option Instant) {e : BadRequest}
    → kept kind date_required o ≡ throw e
    → (e.kind ≡ kind) × (e.message ≡ date_required) × (o ≡ none)
kept_date-eq_throw kind none h = let (k, m) = thrown kind date_required h in (k, m, refl)
kept_date-eq_throw kind (some t) h = cc

date_left-none : (v : JsonValue) → parse_unique_date v ≡ none → date_left v none ≡ none
date_left-none v h = elim (Bool-cases (is_undefined v)) [
  | inl same ↦ rw same refl
  | inr new ↦ rw new h
]

pub resolve_date-eq_throw :
    (kind : ScheduleKind) (v : JsonValue) (existing : Option ExistingSchedule) {e : BadRequest}
    → resolve_date kind v existing ≡ throw e
    → (e.kind ≡ kind) × (e.message ≡ date_required) × (date_left v existing ≡ none)
unfolding resolve_date
resolve_date-eq_throw kind v none h =
    let (k, m, out) = parsed_date-eq_throw kind (parse_unique_date v) h in
    (k, m, date_left-none v out)
resolve_date-eq_throw kind v (some s) h = elim (Bool-cases (is_undefined v)) [
  | inl same ↦
      let (k, m, out) = kept_date-eq_throw kind s.date (rw (same, resolve_date) at h) in
      (k, m, rw same out)
  | inr new ↦
      let (k, m, out) =
        parsed_date-eq_throw kind (parse_unique_date v) (rw (new, resolve_date) at h) in
      (k, m, rw new out)
]
