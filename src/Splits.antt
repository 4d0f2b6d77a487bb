-- ===== src/Splits.antt =====
-- The parts of an expense: `allocateByPercent` and `sumMoney` (`backend/src/lib/money.ts`), and
-- `backend/src/lib/split-allocation.ts`. An error is the constructor named for its message.
pub mod Allocation
pub mod Shape
pub mod Limits
use demanage.Prelude.{
  ℕ, zero, suc, Bool, true, false, not, ◌&&◌, ◌||◌, Option, none, some, List, [], ◌∷◌, map, filter,
  length, ltb, ◌==◌, if◌then◌else◌,
}
use demanage.Prelude.Decimals.{Decimals}
use demanage.Billing.Expense.{SplitKind, Frequency, CycleWindow}
use demanage.Billing.Charges.{is_card}
use demanage.Billing.Occurrences.{max_charges_for_window, max_charges_per_cycle}
use demanage.Billing.Occurrences.Bounds.{charges_for}

pub data SplitInput (D : Type 0) : Type 0 where
  on_card : ℕ → D → SplitInput D
  on_pix : D → SplitInput D

-- `kind` is the card or pix.
pub record ResolvedSplit (D : Type 0) : Type 0 where
  pub kind : SplitKind
  pub card_id : Option ℕ
  pub percent : D
  pub amount : D

pub data ExpenseSplitError : Type 0 where
  invalid_splits invalid_percent card_needed card_or_pix too_many_parts percents_not_100
        one_pix_only pix_alone card_and_pix lone_card_not_100 same_card invalid_cards
        limit_exceeded :
      ExpenseSplitError

pub data Checked (A : Type 0) : Type 0 where
  ok : A → Checked A
  throw : ExpenseSplitError → Checked A

-- The `cardId` of a request: falsy, a value that is no usable text, or a text that names a card.
pub data RawId : Type 0 where
  absent unusable : RawId
  named : ℕ → RawId

pub data RawKind : Type 0 where
  card pix other : RawKind

-- An element of the array `splits`; a percent that is not a finite number is `none`.
pub data RawSplit (D : Type 0) : Type 0 where
  not_object : RawSplit D
  item : RawKind → RawId → Option D → RawSplit D

pub data RawSplits (D : Type 0) : Type 0 where
  undefined null not_array : RawSplits D
  array : List (RawSplit D) → RawSplits D

module _ (dec : Decimals) where
  open dec use {Decimal, of_ℕ, plus, minus, times, over, negated, lt, to_money}

  abbrev percent_of : Decimal → Decimal → Decimal
  percent_of total p = to_money (over (times total p) (of_ℕ 100))

  -- The loop of `allocateByPercent`: the last part is what is left.
  unfoldable pub allocate_parts : Decimal → Decimal → List Decimal → List Decimal
  allocate_parts total allocated [] = []
  allocate_parts total allocated (p ∷ []) = minus total allocated ∷ []
  allocate_parts total allocated (p ∷ q ∷ ps) =
      percent_of total p ∷ allocate_parts total (plus allocated (percent_of total p)) (q ∷ ps)

  unfoldable pub allocate_by_percent : Decimal → List Decimal → List Decimal
  unfolding allocate_parts
  allocate_by_percent total percents = allocate_parts (to_money total) (of_ℕ 0) percents

  unfoldable pub sum_values : Decimal → List Decimal → Decimal
  sum_values total [] = total
  sum_values total (v ∷ vs) = sum_values (plus total v) vs

  unfoldable pub sum_money : List Decimal → Decimal
  unfolding sum_values
  sum_money values = to_money (sum_values (of_ℕ 0) values)

  abbrev pub percent : SplitInput Decimal → Decimal
  percent (on_card c p) = p
  percent (on_pix p) = p

  abbrev resolved_part : SplitInput Decimal → Decimal → ResolvedSplit Decimal
  resolved_part (on_card c p) a = record {
    kind = SplitKind.card;
    card_id = some c;
    percent = to_money p;
    amount = a;
  }
  resolved_part (on_pix p) a = record {
    kind = SplitKind.pix;
    card_id = none;
    percent = to_money p;
    amount = a;
  }

  -- `parts.map((part, index) => ... amounts[index])`.
  unfoldable pub resolve_parts :
      List (SplitInput Decimal) → List Decimal → List (ResolvedSplit Decimal)
  resolve_parts (i ∷ is) (a ∷ amounts) = resolved_part i a ∷ resolve_parts is amounts
  resolve_parts [] amounts = []
  resolve_parts (i ∷ is) [] = []

  unfoldable pub allocate_split_amounts :
      Decimal → List (SplitInput Decimal) → List (ResolvedSplit Decimal)
  unfolding allocate_by_percent resolve_parts
  allocate_split_amounts total inputs =
      resolve_parts inputs (allocate_by_percent total (map percent inputs))

  -- The card or pix of an element.
  unfoldable pub normalize_target : RawKind → RawId → Decimal → Checked (SplitInput Decimal)
  normalize_target RawKind.pix i p = ok (on_pix p)
  normalize_target RawKind.card (named c) p = ok (on_card c p)
  normalize_target RawKind.card _ p = throw card_needed
  normalize_target RawKind.other absent p = throw card_or_pix
  normalize_target RawKind.other unusable p = throw card_needed
  normalize_target RawKind.other (named c) p = ok (on_card c p)

  -- One element of the array.
  unfoldable pub normalize_split : RawSplit Decimal → Checked (SplitInput Decimal)
  unfolding normalize_target
  normalize_split not_object = throw invalid_splits
  normalize_split (item k i none) = throw invalid_percent
  normalize_split (item k i (some p)) =
      if not (lt (of_ℕ 0) p) || lt (of_ℕ 100) p
      then throw invalid_percent
      else normalize_target k i p

  -- `splits.map`, which throws at the first element that does.
  unfoldable pub normalize_items : List (RawSplit Decimal) → Checked (List (SplitInput Decimal))
  unfolding normalize_split
  normalize_items [] = ok []
  normalize_items (r ∷ rs) = elim (normalize_split r) [
    | throw e ↦ throw e
    | ok i ↦ elim (normalize_items rs) [ throw e ↦ throw e | ok is ↦ ok (i ∷ is) ]
  ]

  -- `null`, the result for an expense that names neither, is `ok none`.
  unfoldable pub normalize_split_inputs :
      RawSplits Decimal → Option ℕ → Checked (Option (List (SplitInput Decimal)))
  unfolding normalize_items
  normalize_split_inputs undefined none = ok none
  normalize_split_inputs undefined (some c) = ok (some (on_card c (of_ℕ 100) ∷ []))
  normalize_split_inputs null id = ok (some [])
  normalize_split_inputs not_array id = throw invalid_splits
  normalize_split_inputs (array rs) id = elim (normalize_items rs) [
    | throw e ↦ throw e
    | ok is ↦ ok (some is)
  ]

  abbrev is_pix_input : SplitInput Decimal → Bool
  is_pix_input (on_card c p) = false
  is_pix_input (on_pix p) = true

  -- `percentSum.minus(100).abs().gt('0.01')`.
  abbrev pub off_100 : Decimal → Bool
  off_100 sum =
      let apart = minus sum (of_ℕ 100) in
      lt (over (of_ℕ 1) (of_ℕ 100)) (if lt apart (of_ℕ 0) then negated apart else apart)

  abbrev same_card_twice : List (SplitInput Decimal) → Bool
  same_card_twice (on_card c p ∷ on_card d q ∷ rest) = c == d
  same_card_twice _ = false

  -- `number_off` is the test `Math.abs(percent - 100) > 0.01` on JavaScript's numbers.
  module _ (number_off : Decimal → Bool) where
    abbrev lone_card_off : List (SplitInput Decimal) → Bool
    lone_card_off (on_card c p ∷ rest) = number_off p
    lone_card_off _ = false

    -- `none` is to return, without an error.
    unfoldable pub validate_split_shape : List (SplitInput Decimal) → Option ExpenseSplitError
    unfolding sum_values
    validate_split_shape [] = none
    validate_split_shape (i ∷ is) =
        let inputs = i ∷ is in
        let parts = length inputs in
        let pix_count = length (filter is_pix_input inputs) in
        let card_inputs = filter (λ j. not (is_pix_input j)) inputs in
        let cards = length card_inputs in
        if ltb 2 parts
        then some too_many_parts
        else if off_100 (sum_values (of_ℕ 0) (map percent inputs))
        then some percents_not_100
        else if ltb 1 pix_count
        then some one_pix_only
        else if (pix_count == 1) && (parts == 1)
        then some pix_alone
        else if (pix_count == 1) && not (cards == 1)
        then some card_and_pix
        else if (pix_count == 0) && (cards == 1) && (parts == 1)
        then (if lone_card_off card_inputs then some lone_card_not_100 else none)
        else if (pix_count == 0) && (cards == 2)
        then (if same_card_twice card_inputs then some same_card else none)
        else if (pix_count == 0) && not (cards == 1) && not (cards == 2)
        then some invalid_cards
        else none

  -- What a card can still take.
  abbrev pub available_of : Decimal → Option Decimal → Decimal
  available_of limit none = to_money (minus limit (of_ℕ 0))
  available_of limit (some committed) = to_money (minus limit committed)

  abbrev pub charges_of : Frequency → Option CycleWindow → ℕ
  charges_of frequency none = max_charges_per_cycle frequency
  charges_of frequency (some w) = charges_for (max_charges_for_window w) frequency

  -- The maps of the arguments are functions; a card without a limit, like a card that is not
  -- there, is `none` under `limits`.
  module _ (limits : ℕ → Option Decimal) (committed_by_card : ℕ → Option Decimal)
      (frequency : Frequency) (windows : ℕ → Option CycleWindow) where
    -- Whether a part is over the limit of its card.
    unfoldable pub over_limit : ResolvedSplit Decimal → Bool
    over_limit s = if not (is_card s.kind) then false else elim s.card_id [
      | none ↦ false
      | some c ↦ elim (limits c) [
        | none ↦ false
        | some limit ↦
            lt (available_of limit (committed_by_card c))
              (times s.amount (of_ℕ (charges_of frequency (windows c))))
      ]
    ]

    unfoldable pub assert_card_limits : List (ResolvedSplit Decimal) → Option ExpenseSplitError
    unfolding over_limit
    assert_card_limits [] = none
    assert_card_limits (s ∷ ss) =
        let rest = assert_card_limits ss in if over_limit s then some limit_exceeded else rest

-- The card of an expense that is all on one card.
unfoldable pub denormalized_card_id : {D : Type 0} → List (ResolvedSplit D) → Option ℕ
denormalized_card_id resolved = elim (filter (λ s. is_card s.kind) resolved) [
  | s ∷ [] ↦ if length resolved == 1 then s.card_id else none
  | _ ↦ none
]
