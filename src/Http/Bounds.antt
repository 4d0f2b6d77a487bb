-- ===== src/Http/Bounds.antt =====
-- The range of the days that are read from a request (`backend/src/http/parsers.ts`).
use demanage.Prelude.{ℕ, ◌≤◌, ◌≡◌, some, List, [], ◌∷◌, arith}
use demanage.CivilDate.Text.{JsonValue, undefined, null, whole, other_number, text, other}
use demanage.Http.{given, trim, short_number, day_in_range, parse_day_of_month}

day_in_range_lem : (n d : ℕ) → day_in_range n ≡ some (given d) → (1 ≤ d) × (d ≤ 31)
day_in_range_lem n d e = ground (arith, e)

short_number_lem : (s : List ℕ) (d : ℕ) → short_number s ≡ some (given d) → (1 ≤ d) × (d ≤ 31)
short_number_lem s d e = ground (arith, e)

pub parse_day_of_month_bounds :
    (v : JsonValue) (d : ℕ) → parse_day_of_month v ≡ some (given d) → (1 ≤ d) × (d ≤ 31)
unfolding parse_day_of_month
parse_day_of_month_bounds undefined d e = cc
parse_day_of_month_bounds null d e = cc
parse_day_of_month_bounds (text []) d e = cc
parse_day_of_month_bounds (text (c ∷ s)) d e = short_number_lem (trim (c ∷ s)) d e
parse_day_of_month_bounds (whole n) d e = day_in_range_lem n d e
parse_day_of_month_bounds (other_number s) d e = cc
parse_day_of_month_bounds other d e = cc
