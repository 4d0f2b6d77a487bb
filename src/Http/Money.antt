-- ===== src/Http/Money.antt =====
-- Amounts as a request writes them, well formed or not (`parseMoneyAmount` of
-- `backend/src/lib/validate.ts`).
use demanage.Prelude.{ℕ, suc, ◌+◌, ◌/◌, ◌%◌, Bool, Option, none, [], ◌∷◌, ◌++◌}
use demanage.CivilDate.Text.{Text, JsonValue, text, digits}
use demanage.Http.Written.{Written, written_in, cents_written, accepted}

-- A number with a point and nothing after it, one with three decimals, and one below zero.
pub data Malformed : Type 0 where
  pointed thousandths negated : ℕ → Malformed

-- The digits that a malformed number begins with, and what follows them.
abbrev head_digits : Malformed → Text
head_digits (pointed n) = digits (suc n) n
head_digits (thousandths n) = digits (suc (n / 1000)) (n / 1000)
head_digits (negated n) = []

abbrev tail_of : Malformed → Text
tail_of (pointed n) = 46 ∷ []
tail_of (thousandths n) = 46 ∷ (48 + n / 100 % 10) ∷ (48 + n / 10 % 10) ∷ (48 + n % 10) ∷ []
tail_of (negated n) = 45 ∷ digits (suc n) n

abbrev pub malformed_text : Malformed → Text
malformed_text m = head_digits m ++ tail_of m

-- An amount of a request, well formed or not.
pub data RequestAmount : Type 0 where
  right : Written → RequestAmount
  wrong : Malformed → RequestAmount

abbrev pub request_in : Text → Text → RequestAmount → JsonValue
request_in before after (right w) = written_in before after w
request_in before after (wrong m) = text (before ++ (malformed_text m ++ after))

-- What is read of it.
abbrev pub answered : Bool → RequestAmount → Option ℕ
answered allow_zero (right w) = accepted allow_zero (cents_written w)
answered allow_zero (wrong m) = none
