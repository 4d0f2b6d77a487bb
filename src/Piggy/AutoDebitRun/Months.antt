-- ===== src/Piggy/AutoDebitRun/Months.antt =====
-- The two ways in which a debit is found in a month: by the query of
-- `depositToPiggyBankInTransaction`, on instants (`backend/src/lib/piggy/transactions.ts`), and by
-- `hasAutoDebitInCycle`, on days (`backend/src/lib/piggy/auto-debit.ts`).
use demanage.Prelude.{
  ℕ, ◌+◌, ◌*◌, ◌≤◌, ◌<◌, ◌≡◌, refl, ap, ◌∙◌, Bool, true, not, ◌&&◌, List, [], ◌∷◌, All, any, dec_lt,
  leb, ltb, leb→le, ltb→lt, Bool-cases, inl, inr, arith, and_parts, not_both,
}
use demanage.CivilDate.{
  DayKey, day_key, Instant, noon, ms_per_day, last_day_of_month, day_number, day_key_to_date,
  month_bounds, key_lt, key_le,
}
use demanage.CivilDate.Order.{IsKey, rank, last_day_of_month_bounds, key_le_iff, key_lt_of_le}
use demanage.CivilDate.Numbers.{IsFull, day_number-rank, day_key_of_date-day_key_to_date}
use demanage.CivilDate.Zone.{IsFullKey, IsZone}
use demanage.Piggy.Store.{PiggyTransaction}
use demanage.Piggy.Deposit.{in_month_of, existing_auto_debit}
use demanage.Piggy.Movements.Monthly.{IsNoonDated, is_debit, found_in}

pub first-IsKey : (y m : ℕ) → m < 12 → IsKey (day_key y m 1)
first-IsKey y m h =
    let d = last_day_of_month_bounds y m in
    record { month_in = h; day_in = (omega arith, omega (arith, d)) }

pub last-IsKey : (y m : ℕ) → m < 12 → IsKey (day_key y m (last_day_of_month y m))
last-IsKey y m h =
    let d = last_day_of_month_bounds y m in
    record { month_in = h; day_in = (omega (arith, d), omega arith) }

-- By days.
abbrev pub in_cycle_days : ℕ → ℕ → DayKey → Bool
in_cycle_days y m k =
    not (key_lt k (day_key y m 1)) && key_le k (day_key y m (last_day_of_month y m))

-- By instants.
abbrev pub in_cycle_instants : ℕ → ℕ → Instant → Bool
in_cycle_instants y m t =
    leb (month_bounds y m).start t && ltb t ((month_bounds y m).end + ms_per_day)

instants_order :
    (a b : ℕ) → leb (a * ms_per_day + 43_200_000) (b * ms_per_day + 43_200_000) ≡ true → a ≤ b
instants_order a b h = omega (arith, leb→le _ _ h)

instants_before :
    (a b : ℕ)
    → ltb (a * ms_per_day + 43_200_000) (b * ms_per_day + 43_200_000 + ms_per_day) ≡ true
    → a ≤ b
instants_before a b h = omega (arith, ltb→lt _ _ h)

rank-day_number :
    (a b : DayKey)
    → IsKey a
    → IsFull a.year
    → IsKey b
    → IsFull b.year
    → day_number a ≤ day_number b
    → rank a ≤ rank b
rank-day_number a b va fa vb fb h = elim (dec_lt (rank b) (rank a)) [
  | yes p ↦ absurd (omega (arith, (day_number-rank b a vb va fb fa).0 p))
  | no p ↦ omega arith
]

-- At noon of a day, what the instants find the days find.
pub in_cycle_days_of_instants :
    (y m : ℕ) (k : DayKey)
    → m < 12
    → IsFull y
    → IsFullKey k
    → in_cycle_instants y m (day_key_to_date k noon) ≡ true
    → in_cycle_days y m k ≡ true
unfolding month_bounds day_key_to_date
in_cycle_days_of_instants y m k h f v e =
    let first = day_key y m 1 in
    let last = day_key y m (last_day_of_month y m) in
    let vf = first-IsKey y m h in
    let vl = last-IsKey y m h in
    let (a, b) = and_parts _ _ e in
    let lo : rank first ≤ rank k =
      rank-day_number first k vf f v.0 v.1 (instants_order (day_number first) (day_number k) a) in
    let hi : rank k ≤ rank last =
      rank-day_number k last v.0 v.1 vl f (instants_before (day_number k) (day_number last) b) in
    rw (key_lt_of_le v.0 vf lo, (key_le_iff v.0 vl).1 hi) refl

-- A day of the month is found by its day.
pub in_cycle_days_self :
    (y m d : ℕ) → m < 12 → IsKey (day_key y m d) → in_cycle_days y m (day_key y m d) ≡ true
in_cycle_days_self y m d h v =
    let lo : rank (day_key y m 1) ≤ rank (day_key y m d) = omega (arith, v.day_in) in
    let hi : rank (day_key y m d) ≤ rank (day_key y m (last_day_of_month y m)) =
      omega (arith, v.day_in) in
    rw (key_lt_of_le v (first-IsKey y m h) lo, (key_le_iff v (last-IsKey y m h)).1 hi) refl

module _ {D : Type 0} where
  -- A debit is found by the days of the month of a cycle.
  abbrev pub found_by_days : (Instant → DayKey) → ℕ → ℕ → PiggyTransaction D → Bool
  found_by_days zone y m t = is_debit t && in_cycle_days y m (zone t.date)

  found_here :
      {zone : Instant → DayKey} (z : IsZone zone) (k : DayKey) (t : PiggyTransaction D)
      → IsFullKey k
      → IsNoonDated t
      → found_in (day_key_to_date k noon) t ≡ true
      → found_by_days zone k.year k.month_index t ≡ true
  unfolding in_month_of
  found_here {zone} z k t v dated e =
      let (debit, inside) = and_parts (is_debit t) _ e in
      let day = dated debit in
      let here : zone t.date ≡ day.0 = ap zone day.1.1 ∙ z.keeps_noon day.0 day.1.0 in
      let month : in_cycle_instants k.year k.month_index (day_key_to_date day.0 noon) ≡ true =
        rw (← day.1.1, ← day_key_of_date-day_key_to_date k noon v.0 v.1) inside in
      let days =
        in_cycle_days_of_instants k.year k.month_index day.0 v.0.month_in v.1 day.1.0 month in
      rw (debit, here) days

  -- The debit that the query finds in the month of `day` is found by the days.
  pub existing_auto_debit_by_days :
      {zone : Instant → DayKey} (z : IsZone zone) (k : DayKey) (ts : List (PiggyTransaction D))
      → IsFullKey k
      → All IsNoonDated ts
      → existing_auto_debit (day_key_to_date k noon) ts ≡ true
      → any (found_by_days zone k.year k.month_index) ts ≡ true
  unfolding existing_auto_debit in_month_of
  existing_auto_debit_by_days z k [] v h e = e
  existing_auto_debit_by_days {zone} z k (t ∷ ts) v h e =
      let here = found_by_days zone k.year k.month_index t in
      elim (Bool-cases here) [
        | inl hit ↦ rw hit refl
        | inr miss ↦ elim (Bool-cases (found_in (day_key_to_date k noon) t)) [
          | inl found ↦ absurd (not_both here (found_here z k t v h.0 found) miss)
          | inr other ↦
              let rest : existing_auto_debit (day_key_to_date k noon) ts ≡ true =
                rw (other, existing_auto_debit) at e in
              rw miss (existing_auto_debit_by_days z k ts v h.1 rest)
        ]
      ]
