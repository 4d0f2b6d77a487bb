-- ===== src/Patrimony/Flows.antt =====
-- The cash flows of two periods, one after the other (`buildCashFlows` of
-- `backend/src/lib/patrimony-calc.ts`).
use demanage.Prelude.{
  ℕ, ◌≡◌, refl, inl, inr, arith, Bool, true, false, not, ◌&&◌, List, [], ◌∷◌, ◌++◌, Bool-cases,
  if◌then◌else◌,
}
use demanage.Prelude.Int.{ℤ, pos, ◌+ℤ◌, int_laws}
use demanage.Prelude.Decimals.{Decimals, IsExact}
use demanage.CivilDate.{DayKey, Instant, key_lt, key_gt, key_le, compare_day_keys}
use demanage.Billing.Charges.{cash_share}
use demanage.Billing.Charges.Totals.{sum_of}
use demanage.Billing.Expense.{is_some}
use demanage.Patrimony.{
  is_manual, Settlement, ExpenseForFlows, EntryForFlows, CashFlow, billable_of, or_else, has_id,
  in_period, flow_at, settlement_flows, expense_flows, entry_flows, flows_of_expenses,
  flows_of_entries, build_cash_flows,
}
use demanage.Patrimony.Rows.Cash.{amount_of}

sum_of-append :
    {A : Type 0} (f : A → ℤ) (xs ys : List A) → sum_of f (xs ++ ys) ≡ sum_of f xs +ℤ sum_of f ys
sum_of-append f [] ys = omega int_laws
sum_of-append f (a ∷ xs) ys = rw (sum_of-append f xs ys) (omega int_laws)

key_gt_trans : (a b c : DayKey) → key_gt a b ≡ false → key_le b c ≡ true → key_gt a c ≡ false
unfolding key_le key_gt compare_day_keys key_lt
key_gt_trans a b c h g = ground (arith, h, g)

-- What counts in the whole period counts in one of its parts; `b`, `m` and `t` say that the day is
-- after the base, the middle and the end.
counted_by_part :
    (b m t : Bool) (a : ℤ)
    → (m ≡ false → t ≡ false)
    → (b ≡ false → m ≡ false)
    → (if b && not t then a else pos 0)
      ≡ (if b && not m then a else pos 0) +ℤ (if m && not t then a else pos 0)
counted_by_part true true true a h g = omega int_laws
counted_by_part true true false a h g = omega int_laws
counted_by_part true false true a h g = absurd (cc (h refl))
counted_by_part true false false a h g = omega int_laws
counted_by_part false true true a h g = absurd (cc (g refl))
counted_by_part false true false a h g = absurd (cc (g refl))
counted_by_part false false true a h g = omega int_laws
counted_by_part false false false a h g = omega int_laws

counted_in_period :
    (base mid to day : DayKey) (a : ℤ)
    → key_le base mid ≡ true
    → key_le mid to ≡ true
    → (if in_period base to day then a else pos 0)
      ≡ (if in_period base mid day then a else pos 0) +ℤ (if in_period mid to day then a else pos 0)
unfolding key_le
counted_in_period base mid to day a h g =
    counted_by_part (key_gt day base) (key_gt day mid) (key_gt day to) a
      (λ before. key_gt_trans day mid to before g) (λ before. key_gt_trans day base mid before h)

module _ {dec : Decimals} (x : IsExact dec) (zone : Instant → DayKey) where
  -- The sum of flows.
  abbrev pub total_of : List (CashFlow dec.Decimal) → ℤ
  total_of fs = sum_of (amount_of x) fs

  module _ (base mid to : DayKey) (bm : key_le base mid ≡ true) (mt : key_le mid to ≡ true) where
    flow_at_total :
        (from until : DayKey) (leaves external : Bool) (a : dec.Decimal) (t : Instant)
        → total_of (flow_at dec zone from until leaves external a t) ≡ (
            if in_period from until (zone t)
            then (if dec.lt (dec.of_ℕ 0) a
                then x.scaled (if leaves then dec.negated a else a)
                else pos 0)
            else pos 0)
    unfolding flow_at
    flow_at_total from until leaves external a t =
        go (dec.lt (dec.of_ℕ 0) a) (in_period from until (zone t))
      where
        go :
            (p q : Bool)
            → total_of (
                if p && q
                then record {
                  date = zone t;
                  amount = if leaves then dec.negated a else a;
                  external = external;
                }
                  ∷ []
                else [])
              ≡ (if q
                  then (if p then x.scaled (if leaves then dec.negated a else a) else pos 0)
                  else pos 0)
        go true true = omega int_laws
        go true false = refl
        go false true = refl
        go false false = refl

    flow_at_split :
        (leaves external : Bool) (a : dec.Decimal) (t : Instant)
        → total_of (flow_at dec zone base to leaves external a t)
          ≡ total_of (flow_at dec zone base mid leaves external a t)
            +ℤ total_of (flow_at dec zone mid to leaves external a t)
    flow_at_split leaves external a t =
        rw
          (
            flow_at_total base to leaves external a t,
            flow_at_total base mid leaves external a t,
            flow_at_total mid to leaves external a t,
          )
          (counted_in_period base mid to (zone t) _ bm mt)

    -- The parts of two lists whose heads and tails are split.
    both_split :
        (xs xs1 xs2 ys ys1 ys2 : List (CashFlow dec.Decimal))
        → total_of xs ≡ total_of xs1 +ℤ total_of xs2
        → total_of ys ≡ total_of ys1 +ℤ total_of ys2
        → total_of (xs ++ ys) ≡ total_of (xs1 ++ ys1) +ℤ total_of (xs2 ++ ys2)
    both_split xs xs1 xs2 ys ys1 ys2 h g =
        rw
          (
            sum_of-append (amount_of x) xs ys,
            sum_of-append (amount_of x) xs1 ys1,
            sum_of-append (amount_of x) xs2 ys2,
            h,
            g,
          )
          (omega int_laws)

    settlement_flows_split :
        (leaves external : Bool) (ss : List (Settlement dec.Decimal))
        → total_of (settlement_flows dec zone base to leaves external ss)
          ≡ total_of (settlement_flows dec zone base mid leaves external ss)
            +ℤ total_of (settlement_flows dec zone mid to leaves external ss)
    unfolding settlement_flows
    settlement_flows_split leaves external [] = omega int_laws
    settlement_flows_split leaves external (s ∷ ss) =
        both_split _ _ _ _ _ _ (flow_at_split leaves external s.amount s.at)
          (settlement_flows_split leaves external ss)

    expense_flows_split :
        (internal : List ℕ) (e : ExpenseForFlows dec.Decimal)
        → total_of (expense_flows dec zone base to internal e)
          ≡ total_of (expense_flows dec zone base mid internal e)
            +ℤ total_of (expense_flows dec zone mid to internal e)
    unfolding expense_flows
    expense_flows_split internal e = elim (Bool-cases (is_manual e.system_origin)) [
      | inl by_hand ↦
          rw (by_hand, expense_flows)
            (settlement_flows_split true (not (has_id internal e.id)) e.payments)
      | inr by_system ↦ elim (Bool-cases (is_some e.archived_at)) [
        | inl gone ↦ rw (by_system, gone, expense_flows) (omega int_laws)
        | inr live ↦
            rw (by_system, live, expense_flows)
              (flow_at_split true false (cash_share dec (billable_of e))
                (or_else e.occurred_at e.created_at))
      ]
    ]

    entry_flows_split :
        (internal : List ℕ) (e : EntryForFlows dec.Decimal)
        → total_of (entry_flows dec zone base to internal e)
          ≡ total_of (entry_flows dec zone base mid internal e)
            +ℤ total_of (entry_flows dec zone mid to internal e)
    unfolding entry_flows
    entry_flows_split internal e = elim (Bool-cases (is_manual e.system_origin)) [
      | inl by_hand ↦
          rw (by_hand, entry_flows)
            (settlement_flows_split false (not (has_id internal e.id)) e.receipts)
      | inr by_system ↦ elim (Bool-cases (is_some e.archived_at)) [
        | inl gone ↦ rw (by_system, gone, entry_flows) (omega int_laws)
        | inr live ↦
            rw (by_system, live, entry_flows)
              (flow_at_split false false e.amount (or_else e.date e.created_at))
      ]
    ]

    flows_of_expenses_split :
        (internal : List ℕ) (es : List (ExpenseForFlows dec.Decimal))
        → total_of (flows_of_expenses dec zone base to internal es)
          ≡ total_of (flows_of_expenses dec zone base mid internal es)
            +ℤ total_of (flows_of_expenses dec zone mid to internal es)
    unfolding flows_of_expenses
    flows_of_expenses_split internal [] = omega int_laws
    flows_of_expenses_split internal (e ∷ es) =
        both_split _ _ _ _ _ _ (expense_flows_split internal e)
          (flows_of_expenses_split internal es)

    flows_of_entries_split :
        (internal : List ℕ) (es : List (EntryForFlows dec.Decimal))
        → total_of (flows_of_entries dec zone base to internal es)
          ≡ total_of (flows_of_entries dec zone base mid internal es)
            +ℤ total_of (flows_of_entries dec zone mid to internal es)
    unfolding flows_of_entries
    flows_of_entries_split internal [] = omega int_laws
    flows_of_entries_split internal (e ∷ es) =
        both_split _ _ _ _ _ _ (entry_flows_split internal e) (flows_of_entries_split internal es)

  -- The cash flows of a period have the total of those of its two parts: none is lost or
  -- counted twice at the day between. The days of the three instants do not descend, and the
  -- decimals are exact.
  pub build_cash_flows_split :
      (base mid to : Instant) (expenses : List (ExpenseForFlows dec.Decimal))
      (entries : List (EntryForFlows dec.Decimal)) (internal_expenses internal_entries : List ℕ)
      → key_le (zone base) (zone mid) ≡ true
      → key_le (zone mid) (zone to) ≡ true
      → total_of
          (build_cash_flows dec zone base to expenses entries internal_expenses internal_entries)
        ≡ total_of
            (build_cash_flows dec zone base mid expenses entries internal_expenses internal_entries)
          +ℤ total_of
              (build_cash_flows dec zone mid to expenses entries internal_expenses internal_entries)
  unfolding build_cash_flows
  build_cash_flows_split base mid to expenses entries internal_expenses internal_entries bm mt =
      both_split (zone base) (zone mid) (zone to) bm mt _ _ _ _ _ _
        (flows_of_expenses_split (zone base) (zone mid) (zone to) bm mt internal_expenses expenses)
        (flows_of_entries_split (zone base) (zone mid) (zone to) bm mt internal_entries entries)
