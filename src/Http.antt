-- ===== src/Http.antt =====
-- The parsers of the fields of a request (`backend/src/http/parsers.ts` and
-- `backend/src/lib/validate.ts`). `none` is the error with the message that the caller gives.
pub mod Bounds
pub mod Trim
pub mod Numbers
pub mod Written
pub mod Money
use demanage.Prelude.{
  ℕ, zero, suc, ◌+◌, ◌-◌, ◌*◌, ◌/◌, ◌%◌, Bool, true, false, not, ◌&&◌, ◌||◌, Option, none, some,
  List, [], ◌∷◌, length, ltb, leb, ◌==◌, if◌then◌else◌,
}
use mathlib.Core.List.{reverse}
use demanage.CivilDate.{
  DayKey, day_key, Instant, DateConvention, noon, midnight, ms_per_day, day_key_from_number,
  day_key_to_date,
}
use demanage.CivilDate.Years.{utc_year, days_before_year, days_before_month}
use demanage.CivilDate.Text.{
  Text, JsonValue, undefined, null, whole, other_number, text, other, is_digit, digits,
  match_day_key, DateParts, parse_civil_date,
}

-- A field of a request or of an update: `undefined`, `null` or a value.
pub data Field (A : Type 0) : Type 0 where
  absent cleared : Field A
  given : A → Field A

-- The white space that `trim` takes away.
abbrev pub is_space : ℕ → Bool
is_space c =
    (leb 9 c && leb c 13)
    || (c == 32)
    || (c == 160)
    || (c == 0x1680)
    || (leb 0x2000 c && leb c 0x200a)
    || (c == 0x2028)
    || (c == 0x2029)
    || (c == 0x202f)
    || (c == 0x205f)
    || (c == 0x3000)
    || (c == 0xfeff)

unfoldable pub trim_start : Text → Text
trim_start [] = []
trim_start (c ∷ s) = if is_space c then trim_start s else c ∷ s

unfoldable pub trim : Text → Text
unfolding trim_start
trim s = reverse (trim_start (reverse (trim_start s)))

-- `Number(s)` of digits.
unfoldable pub number_of : ℕ → Text → ℕ
number_of value [] = value
number_of value (c ∷ s) = number_of (10 * value + (c - 48)) s

abbrev pub all_digits : Text → Bool
all_digits [] = true
all_digits (c ∷ s) = is_digit c && all_digits s

abbrev pub is_day : ℕ → Bool
is_day n = leb 1 n && leb n 31

-- A day that is no `undefined`, `null` or empty text.
abbrev pub day_in_range : ℕ → Option (Field ℕ)
day_in_range n = if is_day n then some (given n) else none

-- `/^\d{1,2}$/.test(value.trim())`.
abbrev pub short_number : Text → Option (Field ℕ)
short_number s =
    if all_digits s && leb 1 (length s) && leb (length s) 2
    then day_in_range (number_of 0 s)
    else none

unfoldable pub parse_day_of_month : JsonValue → Option (Field ℕ)
unfolding trim number_of
parse_day_of_month undefined = some absent
parse_day_of_month null = some cleared
parse_day_of_month (text []) = some cleared
parse_day_of_month (text (c ∷ s)) = short_number (trim (c ∷ s))
parse_day_of_month (whole n) = day_in_range n
parse_day_of_month (other_number s) = none
parse_day_of_month other = none

-- `Date.UTC(year, month - 1, day)` in days, where the month and the day may overflow.
unfoldable pub utc_day_of_parts : DateParts → ℕ
utc_day_of_parts p =
    let months = utc_year p.year * 12 + p.month - 1 in
    days_before_year (months / 12) + days_before_month (months / 12) (months % 12) + p.day - 1

-- `getUTCFullYear() !== year` and so on.
abbrev pub reads_as : DayKey → DateParts → Bool
reads_as k p = (k.year == p.year) && (k.month_index + 1 == p.month) && (k.day == p.day)

unfoldable pub iso_date_of_parts : DateParts → Option Instant
unfolding utc_day_of_parts
iso_date_of_parts p =
    let n = utc_day_of_parts p in
    if reads_as (day_key_from_number n) p then some (n * ms_per_day) else none

unfoldable pub parse_iso_date : JsonValue → Option Instant
unfolding iso_date_of_parts
parse_iso_date (text s) = elim (match_day_key s) [ none ↦ none | some p ↦ iso_date_of_parts p ]
parse_iso_date _ = none

abbrev pub given_date : Option Instant → Option (Field Instant)
given_date none = none
given_date (some t) = some (given t)

unfoldable pub parse_optional_iso_date : JsonValue → Option (Field Instant)
unfolding parse_iso_date
parse_optional_iso_date undefined = some absent
parse_optional_iso_date null = some cleared
parse_optional_iso_date (text []) = some cleared
parse_optional_iso_date (text (c ∷ s)) = given_date (parse_iso_date (text (c ∷ s)))
parse_optional_iso_date (whole n) = none
parse_optional_iso_date (other_number s) = none
parse_optional_iso_date other = none

-- Dates of single movements, at noon.
unfoldable pub parse_unique_date : JsonValue → Option Instant
unfolding parse_civil_date
parse_unique_date v = parse_civil_date v noon

-- The digits at the start of a text, and what follows.
unfoldable pub span_digits : Text → Text × Text
span_digits [] = ([], [])
span_digits (c ∷ s) =
    let (ds, rest) = span_digits s in if is_digit c then (c ∷ ds, rest) else ([], c ∷ s)

-- An amount in its two parts.
pub record MoneyText : Type 0 where
  pub integer : Text
  pub fraction : Text

-- `(?:\.\d{1,2})?$`.
abbrev pub fraction_of : Text → Option Text
fraction_of [] = some []
fraction_of (c ∷ f) =
    if (c == 46) && all_digits f && leb 1 (length f) && leb (length f) 2 then some f else none

-- `/^\d+(?:\.\d{1,2})?$/`.
unfoldable pub match_money : Text → Option MoneyText
unfolding span_digits
match_money s =
    let (ds, rest) = span_digits s in
    elim (fraction_of rest) [
      | none ↦ none
      | some f ↦ if length ds == 0 then none else some (record { integer = ds; fraction = f })
    ]

-- `.replace(/^0+/, '')`.
unfoldable pub strip_zeros : Text → Text
strip_zeros [] = []
strip_zeros (c ∷ s) = if c == 48 then strip_zeros s else c ∷ s

-- The cents of a fraction of at most two digits.
abbrev pub cents_of : Text → ℕ
cents_of [] = 0
cents_of (c ∷ []) = (c - 48) * 10
cents_of (c ∷ d ∷ _) = (c - 48) * 10 + (d - 48)

-- 9_999_999_999.99 in cents.
abbrev pub max_money_amount : ℕ
max_money_amount = 999_999_999_999

-- `typeof value === 'number' ? String(value) : typeof value === 'string' ? value.trim() : ''`.
unfoldable pub raw_of : JsonValue → Text
unfolding trim digits
raw_of (whole n) = digits (suc n) n
raw_of (other_number s) = s
raw_of (text s) = trim s
raw_of _ = []

-- The amount in cents.
unfoldable pub amount_of_text : MoneyText → Bool → Option ℕ
unfolding strip_zeros number_of
amount_of_text m allow_zero =
    let amount = number_of 0 m.integer * 100 + cents_of m.fraction in
    if ltb 10 (length (strip_zeros m.integer))
    then none
    else if ltb max_money_amount amount || (not allow_zero && (amount == 0))
    then none
    else some amount

unfoldable pub parse_money_amount : JsonValue → Bool → Option ℕ
unfolding raw_of match_money amount_of_text
parse_money_amount v allow_zero = elim (match_money (raw_of v)) [
  | none ↦ none
  | some m ↦ amount_of_text m allow_zero
]

unfoldable pub parse_positive_amount : JsonValue → Option ℕ
unfolding parse_money_amount
parse_positive_amount v = parse_money_amount v false

abbrev pub given_limit : Option ℕ → Option (Field ℕ)
given_limit none = none
given_limit (some n) = some (given n)

-- The limit of a card; `none` where there is an error.
unfoldable pub parse_optional_card_limit : JsonValue → Option (Field ℕ)
unfolding parse_positive_amount
parse_optional_card_limit undefined = some absent
parse_optional_card_limit null = some cleared
parse_optional_card_limit (text []) = some cleared
parse_optional_card_limit (text (c ∷ s)) = given_limit (parse_positive_amount (text (c ∷ s)))
parse_optional_card_limit (whole n) = given_limit (parse_positive_amount (whole n))
parse_optional_card_limit (other_number s) = given_limit (parse_positive_amount (other_number s))
parse_optional_card_limit other = given_limit (parse_positive_amount other)
