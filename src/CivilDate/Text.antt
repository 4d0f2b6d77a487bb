-- ===== src/CivilDate/Text.antt =====
-- The text of a day key (`formatDayKey`, `parseDayKey`, `isValidDayKey` and `parseCivilDate` of
-- `backend/src/lib/civil-date.ts`). A text is the list of its character codes.
pub mod Digits
pub mod Keys
use demanage.Prelude.{
  ℕ, zero, suc, ◌+◌, ◌-◌, ◌*◌, ◌/◌, ◌%◌, Bool, true, false, ◌&&◌, ◌||◌, Option, none, some, List,
  [], ◌∷◌, ◌++◌, length, ltb, leb, ◌==◌, if◌then◌else◌,
}
use demanage.CivilDate.{
  DayKey, day_key, Instant, DateConvention, last_day_of_month, day_key_to_date,
}

abbrev pub Text : Type 0
Text = List ℕ

abbrev pub dash : ℕ
dash = 45

-- `String(n)`: a round for each digit, of which `n` has at most `n + 1`.
unfoldable pub digits : ℕ → ℕ → Text
digits zero n = []
digits (suc rounds) n =
    let rest = digits rounds (n / 10) ++ (48 + n % 10) ∷ [] in
    if ltb n 10 then (48 + n) ∷ [] else rest

abbrev pub zeros : ℕ → Text
zeros zero = []
zeros (suc n) = 48 ∷ zeros n

-- `String(value).padStart(width, '0')`.
unfoldable pub pad : ℕ → ℕ → Text
unfolding digits
pad value width = let s = digits (suc value) value in zeros (width - length s) ++ s

unfoldable pub format_day_key : ℕ → ℕ → ℕ → Text
unfolding pad
format_day_key y m d = pad y 4 ++ dash ∷ (pad (m + 1) 2 ++ dash ∷ pad d 2)

-- The text that a key stands for.
abbrev pub text_of : DayKey → Text
text_of k = format_day_key k.year k.month_index k.day

-- What a request or a file may hold where a text is expected.
pub data JsonValue : Type 0 where
  undefined null : JsonValue
  -- A whole number from 0 to below 10^21, and any other number with its `String(value)`.
  whole : ℕ → JsonValue
  other_number : Text → JsonValue
  text : Text → JsonValue
  other : JsonValue

abbrev pub is_digit : ℕ → Bool
is_digit c = leb 48 c && leb c 57

abbrev pub two : ℕ → ℕ → ℕ
two a b = 10 * (a - 48) + (b - 48)

pub record DateParts : Type 0 where
  pub year : ℕ
  pub month : ℕ
  pub day : ℕ

-- `/^(\d{4})-(\d{2})-(\d{2})$/`, with its groups as numbers.
unfoldable pub match_day_key : Text → Option DateParts
match_day_key (a ∷ b ∷ c ∷ d ∷ e ∷ f ∷ g ∷ h ∷ i ∷ j ∷ []) =
    if is_digit a
      && is_digit b
      && is_digit c
      && is_digit d
      && (e == dash)
      && (is_digit f && is_digit g && (h == dash) && is_digit i && is_digit j)
    then some (record { year = 100 * two a b + two c d; month = two f g; day = two i j })
    else none
match_day_key _ = none

-- The guards on the parts; a month 00 has the index -1.
unfoldable pub key_of_parts : DateParts → Option DayKey
key_of_parts p =
    let m = p.month - 1 in
    if (p.month == 0) || ltb 12 p.month || (p.day == 0)
    then none
    else if ltb (last_day_of_month p.year m) p.day
    then none
    else some (day_key p.year m p.day)

unfoldable pub parse_text : Text → Option DayKey
unfolding match_day_key key_of_parts
parse_text s = elim (match_day_key s) [ none ↦ none | some p ↦ key_of_parts p ]

unfoldable pub parse_day_key : JsonValue → Option DayKey
unfolding parse_text
parse_day_key (text s) = parse_text s
parse_day_key _ = none

unfoldable pub is_valid_day_key : JsonValue → Bool
unfolding parse_day_key
is_valid_day_key v = elim (parse_day_key v) [ none ↦ false | some k ↦ true ]

-- `dayKeyToDate(value)` of a valid key.
unfoldable pub parse_civil_date : JsonValue → DateConvention → Option Instant
unfolding parse_day_key
parse_civil_date v c = elim (parse_day_key v) [ none ↦ none | some k ↦ some (day_key_to_date k c) ]

-- `a < b` of two texts: the first codes that differ decide.
unfoldable pub text_lt : Text → Text → Bool
text_lt [] [] = false
text_lt [] (b ∷ bs) = true
text_lt (a ∷ as') [] = false
text_lt (a ∷ as') (b ∷ bs) = if a == b then text_lt as' bs else ltb a b
