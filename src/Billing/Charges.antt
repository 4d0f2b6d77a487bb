-- ===== src/Billing/Charges.antt =====
-- What an expense charges a card (`backend/src/lib/billing/charges.ts`). Decimals and the time zone
-- are parameters.
pub mod Days
pub mod Totals
use demanage.Prelude.{
  ℕ, zero, suc, ◌+◌, ◌-◌, ◌*◌, ◌/◌, ◌%◌, Bool, true, false, not, ◌&&◌, ◌||◌, Option, none, some,
  List, [], ◌∷◌, ◌++◌, ltb, leb, ◌==◌, if◌then◌else◌, filter,
}
use demanage.Prelude.Int.{pos, negsuc}
use demanage.Prelude.Decimals.{Decimals}
use demanage.CivilDate.{
  DayKey, day_key, Instant, key_gt, key_lt, key_le, day_number, add_days_to_key, day_key_of_date,
  month_key, next_year, next_month,
}
use demanage.Billing.Expense.{
  SplitKind, BillableSplit, BillableExpense, ObligationVersion, Frequency, SplitTarget, CycleWindow,
  is_id, is_some, is_unica,
}
use demanage.Billing.Occurrences.{
  charge_occurrences, lower_inclusive, one_off_key, recurring_start_key,
}

abbrev pub is_card : SplitKind → Bool
is_card SplitKind.card = true
is_card _ = false

abbrev pub is_pix : SplitKind → Bool
is_pix SplitKind.pix = true
is_pix _ = false

-- Of two versions, the one that a stable sort by falling sequence puts first.
abbrev first_by_sequence :
    {D : Type 0} → ObligationVersion D → Option (ObligationVersion D) → ObligationVersion D
first_by_sequence v none = v
first_by_sequence v (some later) = if ltb v.sequence later.sequence then later else v

module _ {D : Type 0} where
  -- The head of the versions in force in `month`, sorted by falling sequence.
  unfoldable pub active_version : List (ObligationVersion D) → ℕ → Option (ObligationVersion D)
  active_version [] month = none
  active_version (v ∷ vs) month =
      let rest = active_version vs month in
      if leb v.effective_month month then some (first_by_sequence v rest) else rest

  -- `{ ...expense, ...version }`.
  abbrev pub with_terms : BillableExpense D → ObligationVersion D → BillableExpense D
  with_terms e v = record e { amount = v.amount; card_id = v.card_id; splits = v.splits }

  -- `sort` by month and then by sequence, an insertion sort.
  unfoldable pub insert_version :
      ObligationVersion D → List (ObligationVersion D) → List (ObligationVersion D)
  insert_version v [] = v ∷ []
  insert_version v (w ∷ ws) =
      if ltb w.effective_month v.effective_month
        || ((w.effective_month == v.effective_month) && ltb w.sequence v.sequence)
      then w ∷ insert_version v ws
      else v ∷ w ∷ ws

  unfoldable pub sort_versions : List (ObligationVersion D) → List (ObligationVersion D)
  unfolding insert_version
  sort_versions [] = []
  sort_versions (v ∷ vs) = insert_version v (sort_versions vs)

  -- `xs.at(-1)`, as a list.
  abbrev last_of : List (ObligationVersion D) → List (ObligationVersion D)
  last_of [] = []
  last_of (v ∷ []) = v ∷ []
  last_of (v ∷ w ∷ ws) = last_of (w ∷ ws)

  -- The last version in force in `month`, and those that come into force later, of a sorted list.
  unfoldable pub relevant_versions : List (ObligationVersion D) → ℕ → List (ObligationVersion D)
  relevant_versions vs month =
      last_of (filter (λ v. leb v.effective_month month) vs)
      ++ filter (λ v. ltb month v.effective_month) vs

-- The first day of a month given by its number.
abbrev pub month_first : ℕ → DayKey
month_first t = day_key (t / 12) (t % 12) 1

-- The later of two keys.
abbrev pub later_of : DayKey → DayKey → DayKey
later_of a b = if key_lt a b then b else a

-- Rounds for the loop over the months, each of which moves on by a day at least.
abbrev pub charge_rounds : CycleWindow → ℕ
charge_rounds w = suc (day_number w.closing_key) - day_number (lower_inclusive w)

module _ (dec : Decimals) where
  open dec use {Decimal, of_ℕ, plus, times, lt}

  unfoldable pub sum_splits : Decimal → List (BillableSplit Decimal) → Decimal
  sum_splits total [] = total
  sum_splits total (s ∷ ss) = sum_splits (plus total s.amount) ss

  abbrev pub on_card : ℕ → BillableSplit Decimal → Bool
  on_card c s = is_card s.kind && is_id s.card_id c

  -- `splitShareFor` on a card.
  unfoldable pub card_share : BillableExpense Decimal → ℕ → Decimal
  unfolding sum_splits
  card_share e c = elim (filter (on_card c) e.splits) [
    | [] ↦ if is_id e.card_id c then e.amount else of_ℕ 0
    | s ∷ ss ↦ sum_splits (of_ℕ 0) (s ∷ ss)
  ]

  -- `splitShareFor` on pix and on cash.
  unfoldable pub cash_share : BillableExpense Decimal → Decimal
  unfolding sum_splits
  cash_share e = elim e.splits [
    | [] ↦ if is_some e.card_id then of_ℕ 0 else e.amount
    | s ∷ ss ↦ sum_splits (of_ℕ 0) (filter (λ t. is_pix t.kind) (s ∷ ss))
  ]

  unfoldable pub split_share_for : BillableExpense Decimal → SplitTarget → Decimal
  unfolding card_share cash_share
  split_share_for e (SplitTarget.card c) = card_share e c
  split_share_for e SplitTarget.pix = cash_share e
  split_share_for e SplitTarget.cash = cash_share e

  module _ (zone : Instant → DayKey) where
    -- The charges of one month, under the version in force, if there is one.
    unfoldable pub add_charges :
        BillableExpense Decimal
        → ℕ
        → CycleWindow
        → Decimal
        → Option (ObligationVersion Decimal)
        → Decimal
    add_charges e c w total none = total
    add_charges e c w total (some v) =
        let n = charge_occurrences zone (with_terms e v) w in
        if n == 0
        then total
        else plus total (times (split_share_for (with_terms e v) (SplitTarget.card c)) (of_ℕ n))

    -- The loop over the months of a cycle, for an expense whose terms have versions.
    unfoldable pub charge_versions :
        ℕ → BillableExpense Decimal → ℕ → CycleWindow → DayKey → Decimal → Decimal
    unfolding add_charges
    charge_versions zero e c w cursor total = total
    charge_versions (suc rounds) e c w cursor total =
        let month_end =
          add_days_to_key
            (day_key (next_year cursor.year cursor.month_index) (next_month cursor.month_index) 1)
            (negsuc 0) in
        let hi = if key_lt month_end w.closing_key then month_end else w.closing_key in
        let window : CycleWindow = record {
          period_start_key = add_days_to_key cursor (negsuc 0);
          closing_key = hi;
          include_period_start = false;
        } in
        let charged =
          add_charges e c window total (active_version e.obligation_versions (month_key cursor)) in
        let rest = charge_versions rounds e c w (add_days_to_key hi (pos 1)) charged in
        if key_gt cursor w.closing_key then total else rest

    unfoldable pub charge_amount_decimal : BillableExpense Decimal → ℕ → CycleWindow → Decimal
    unfolding charge_versions split_share_for
    charge_amount_decimal e c w =
        let n = charge_occurrences zone e w in
        let plain =
          if n == 0 then of_ℕ 0 else times (split_share_for e (SplitTarget.card c)) (of_ℕ n) in
        let versioned = charge_versions (charge_rounds w) e c w (lower_inclusive w) (of_ℕ 0) in
        if is_unica e.frequency
        then plain
        else elim e.obligation_versions [ [] ↦ plain | _ ∷ _ ↦ versioned ]

    unfoldable pub sum_charges :
        Decimal → List (BillableExpense Decimal) → ℕ → CycleWindow → Decimal
    sum_charges total [] c w = total
    sum_charges total (e ∷ es) c w = sum_charges (plus total (charge_amount_decimal e c w)) es c w

    unfoldable pub charges_total_decimal :
        List (BillableExpense Decimal) → ℕ → CycleWindow → Decimal
    unfolding sum_charges
    charges_total_decimal es c w = sum_charges (of_ℕ 0) es c w

    -- The one-off expenses from before the card, which its first invoice takes in.
    abbrev pub is_pre_creation : Instant → BillableExpense Decimal → Bool
    is_pre_creation created e =
        not e.is_invoice && is_unica e.frequency && key_lt (one_off_key zone e) (zone created)

    unfoldable pub pre_creation_one_offs :
        Decimal → List (BillableExpense Decimal) → ℕ → Instant → Decimal
    pre_creation_one_offs sum [] c created = sum
    pre_creation_one_offs sum (e ∷ es) c created =
        pre_creation_one_offs
          (if is_pre_creation created e
            then plus sum (split_share_for e (SplitTarget.card c))
            else sum)
          es c created

    unfoldable pub pre_creation_one_offs_decimal :
        List (BillableExpense Decimal) → ℕ → Instant → Decimal
    unfolding pre_creation_one_offs
    pre_creation_one_offs_decimal es c created = pre_creation_one_offs (of_ℕ 0) es c created

    -- A one-off expense that was entered after a closing which its day had passed.
    abbrev pub is_late : Instant → Instant → BillableExpense Decimal → Bool
    is_late closed_through processed_at e =
        not e.is_invoice
        && is_unica e.frequency
        && ltb processed_at e.created_at
        && key_le (one_off_key zone e) (day_key_of_date closed_through)

    unfoldable pub late_one_offs :
        Decimal → List (BillableExpense Decimal) → ℕ → Instant → Instant → Decimal
    late_one_offs sum [] c closed processed = sum
    late_one_offs sum (e ∷ es) c closed processed =
        late_one_offs
          (if is_late closed processed e
            then plus sum (split_share_for e (SplitTarget.card c))
            else sum)
          es c closed processed

    unfoldable pub late_one_offs_decimal :
        List (BillableExpense Decimal) → ℕ → Instant → Instant → Decimal
    unfolding late_one_offs
    late_one_offs_decimal es c closed processed = late_one_offs (of_ℕ 0) es c closed processed

    -- Whether one of the versions, each until the next one starts, still charges the card.
    unfoldable pub any_future_charge :
        BillableExpense Decimal → ℕ → DayKey → List (ObligationVersion Decimal) → Bool
    any_future_charge e c first [] = false
    any_future_charge e c first (v ∷ vs) =
        let start =
          later_of (later_of first (recurring_start_key zone e)) (month_first v.effective_month) in
        let until : DayKey = elim vs [
          | [] ↦ add_days_to_key start (pos 31)
          | next ∷ _ ↦ add_days_to_key (month_first next.effective_month) (negsuc 0)
        ] in
        let end : DayKey = elim e.ends_at [
          | none ↦ until
          | some t ↦ if key_lt (day_key_of_date t) until then day_key_of_date t else until
        ] in
        let n =
          charge_occurrences zone (with_terms e v)
            (record { period_start_key = start; closing_key = end; include_period_start = true }) in
        let rest = any_future_charge e c first vs in
        if key_lt end start
        then rest
        else if lt (of_ℕ 0) (split_share_for (with_terms e v) (SplitTarget.card c)) && ltb 0 n
        then true
        else rest

    -- The versions, or the terms of the expense itself as the first of them.
    unfoldable pub own_versions : BillableExpense Decimal → List (ObligationVersion Decimal)
    own_versions e = elim e.obligation_versions [
      | [] ↦
          record {
            sequence = 1;
            effective_month = 0;
            amount = e.amount;
            card_id = e.card_id;
            splits = e.splits;
          }
          ∷ []
      | v ∷ vs ↦ v ∷ vs
    ]

    unfoldable pub has_future_recurring_card_charge : BillableExpense Decimal → ℕ → DayKey → Bool
    unfolding any_future_charge relevant_versions sort_versions own_versions
    has_future_recurring_card_charge e c first =
        let ended : Bool = elim e.ends_at [
          | none ↦ false
          | some t ↦ key_lt (day_key_of_date t) first
        ] in
        if e.is_invoice || is_unica e.frequency || is_some e.archived_at
        then false
        else if ended
        then false
        else any_future_charge e c first
            (relevant_versions (sort_versions (own_versions e)) (month_key first))
