-- ===== src/Piggy/Movements/Monthly.antt =====
-- The monthly debits under the movements: the guard of `depositToPiggyBankInTransaction` against a
-- second debit of a month (`backend/src/lib/piggy/transactions.ts`).
use mathlib.Core.Path.{subst}
use demanage.Prelude.{
  ℕ, ◌+◌, ◌*◌, ◌≤◌, ◌≡◌, refl, sym, ap, ◌∙◌, Bool, true, false, ◌&&◌, List, [], ◌∷◌, ◌++◌, All, leb,
  ltb, ◌==◌, if◌then◌else◌, Bool-cases, inl, inr, arith, ==_iff, any_none, and_parts, not_both,
  All-snoc,
}
use demanage.Prelude.Decimals.{Decimals}
use demanage.CivilDate.{
  DayKey, day_key, Instant, noon, ms_per_day, last_day_of_month, day_number, day_key_of_date,
  day_key_to_date, month_bounds, month_key,
}
use demanage.CivilDate.Numbers.{day_key_of_date-day_key_to_date}
use demanage.CivilDate.Zone.{IsDated, IsFullKey, IsZone}
use demanage.Piggy.AutoDebit.{is_deposit}
use demanage.Piggy.Store.{PiggyTransaction, PiggyBank, Store, is_auto_debit}
use demanage.Piggy.Deposit.{
  DepositParams, deposit_row, deposited, in_month_of, existing_auto_debit, today_in_sao_paulo,
}
use demanage.Piggy.Withdraw.{WithdrawParams, withdraw_row, withdrawn}
use demanage.Piggy.Movements.{Movement, put, take, perform, run}
use demanage.Piggy.Movements.Rows.{deposit-All, withdrawal-All}

between :
    (a n b : ℕ)
    → a ≤ n
    → n ≤ b
    → (leb (a * ms_per_day + 43_200_000) (n * ms_per_day + 43_200_000)
        && ltb (n * ms_per_day + 43_200_000) (b * ms_per_day + 43_200_000 + ms_per_day))
      ≡ true
between a n b h k = ground arith

in_month_mono : (y m a b : ℕ) → a ≤ b → day_number (day_key y m a) ≤ day_number (day_key y m b)
unfolding day_number
in_month_mono y m a b h = omega arith

month_holds :
    (y m d : ℕ)
    → 1 ≤ d
    → d ≤ last_day_of_month y m
    → let t = day_key_to_date (day_key y m d) noon in
      (leb (month_bounds y m).start t && ltb t ((month_bounds y m).end + ms_per_day)) ≡ true
unfolding month_bounds day_key_to_date
month_holds y m d h k =
    between (day_number (day_key y m 1)) (day_number (day_key y m d))
      (day_number (day_key y m (last_day_of_month y m))) (within-day_number 1 d h)
      (within-day_number d (last_day_of_month y m) k)
  where
    within-day_number : (a b : ℕ) → a ≤ b → day_number (day_key y m a) ≤ day_number (day_key y m b)
    within-day_number a b h = in_month_mono y m a b h

-- A day of the month of `k` is found by the query for that month.
in_month_of_day :
    (k d : DayKey)
    → IsFullKey k
    → IsFullKey d
    → month_key d ≡ month_key k
    → in_month_of (day_key_to_date k noon) (day_key_to_date d noon) ≡ true
unfolding in_month_of month_key
in_month_of_day k d vk vd same =
    let year : d.year ≡ k.year = omega (arith, same, vd.0.month_in, vk.0.month_in) in
    let month : d.month_index ≡ k.month_index = omega (arith, same, vd.0.month_in, vk.0.month_in) in
    let day : d ≡ day_key k.year k.month_index d.day = ground (arith, year, month) in
    let last : d.day ≤ last_day_of_month k.year k.month_index =
      subst (λ y. d.day ≤ last_day_of_month y k.month_index) year
        (subst (λ m. d.day ≤ last_day_of_month d.year m) month vd.0.day_in.1) in
    rw (day_key_of_date-day_key_to_date k noon vk.0 vk.1) (
      subst
        (λ j.
          (leb (month_bounds k.year k.month_index).start (day_key_to_date j noon)
            && ltb (day_key_to_date j noon) ((month_bounds k.year k.month_index).end + ms_per_day))
          ≡ true)
        (sym day) (month_holds k.year k.month_index d.day vd.0.day_in.0 last))

module _ {D : Type 0} where
  abbrev pub is_debit : PiggyTransaction D → Bool
  is_debit t = is_auto_debit t.source && is_deposit t.kind

  abbrev pub is_debit_of : ℕ → PiggyTransaction D → Bool
  is_debit_of month t = is_debit t && (month_key (day_key_of_date t.date) == month)

  -- How many debits of a month a ledger holds.
  abbrev pub debits_of : ℕ → List (PiggyTransaction D) → ℕ
  debits_of month [] = 0
  debits_of month (t ∷ ts) = (if is_debit_of month t then 1 else 0) + debits_of month ts

  -- A debit is dated at noon of a day.
  abbrev pub IsNoonDated : PiggyTransaction D → Type 0
  IsNoonDated t =
      is_debit t ≡ true → (k : DayKey) × (IsFullKey k × (t.date ≡ day_key_to_date k noon))

  pub record IsMonthly (bank : PiggyBank D) : Type 0 where
    pub dated : All IsNoonDated bank.transactions
    pub once : (month : ℕ) → debits_of month bank.transactions ≤ 1

  debits_of-append :
      (month : ℕ) (ts : List (PiggyTransaction D)) (t : PiggyTransaction D)
      → debits_of month (ts ++ t ∷ []) ≡ debits_of month ts + (if is_debit_of month t then 1 else 0)
  debits_of-append month [] t = omega arith
  debits_of-append month (u ∷ ts) t = omega (arith, debits_of-append month ts t)

  abbrev pub found_in : Instant → PiggyTransaction D → Bool
  found_in day t = is_auto_debit t.source && is_deposit t.kind && in_month_of day t.date

  -- A debit that the query for a month does not find is not of the month.
  debit_elsewhere :
      (k : DayKey) (t : PiggyTransaction D)
      → IsFullKey k
      → IsNoonDated t
      → found_in (day_key_to_date k noon) t ≡ false
      → is_debit_of (month_key k) t ≡ false
  debit_elsewhere k t v dated e = elim (Bool-cases (is_debit_of (month_key k) t)) [
    | inr other ↦ other
    | inl hit ↦
        let (is, month) = and_parts (is_debit t) _ hit in
        let (auto, paid) = and_parts (is_auto_debit t.source) _ is in
        let (d, vd, date) = day_of (dated is) in
        let read : day_key_of_date t.date ≡ d =
          ap day_key_of_date date ∙ day_key_of_date-day_key_to_date d noon vd.0 vd.1 in
        let same : month_key d ≡ month_key k = sym (ap month_key read) ∙ (==_iff _ _).0 month in
        let inside : in_month_of (day_key_to_date k noon) t.date ≡ true =
          ap (in_month_of (day_key_to_date k noon)) date ∙ in_month_of_day k d v vd same in
        absurd (not_both (found_in (day_key_to_date k noon) t) (rw (auto, paid, inside) refl) e)
  ]
    where
      day_of :
          ((j : DayKey) × (IsFullKey j × (t.date ≡ day_key_to_date j noon)))
          → (j : DayKey) × IsFullKey j × (t.date ≡ day_key_to_date j noon)
      day_of p = (p.0, p.1.0, p.1.1)

  -- Where the query finds no debit of the month, there is none.
  debits_of_none :
      (k : DayKey) (ts : List (PiggyTransaction D))
      → IsFullKey k
      → All IsNoonDated ts
      → existing_auto_debit (day_key_to_date k noon) ts ≡ false
      → debits_of (month_key k) ts ≡ 0
  unfolding existing_auto_debit
  debits_of_none k [] v h e = refl
  debits_of_none k (t ∷ ts) v h e =
      let (miss, rest) = any_none (found_in (day_key_to_date k noon)) t ts e in
      rw (debit_elsewhere k t v h.0 miss, debits_of_none k ts v h.1 rest) refl

module _ (dec : Decimals) {zone : Instant → DayKey} (z : IsZone zone) where
  open dec use {Decimal}

  deposited-IsMonthly :
      (p : DepositParams Decimal) (now : Instant) (fresh : ℕ) (amount : Decimal)
      (bank : PiggyBank Decimal)
      → IsDated p.date
      → (is_auto_debit p.source
          && existing_auto_debit (today_in_sao_paulo zone p.date) bank.transactions)
        ≡ false
      → IsMonthly bank
      → IsMonthly (deposited dec zone p now fresh amount bank)
  unfolding deposited
  deposited-IsMonthly p now fresh amount bank h unpaid m = record {
    dated =
        All-snoc IsNoonDated bank.transactions row m.dated
          (λ debit. (zone p.date, (z.valid p.date h, refl)));
    once = λ month. rw (debits_of-append month bank.transactions row) (at month);
  }
    where
      row : PiggyTransaction Decimal
      row = deposit_row dec zone p fresh amount

      key : IsFullKey (zone p.date)
      key = z.valid p.date h

      of_month : (month : ℕ) → is_debit_of month row ≡ true → month_key (zone p.date) ≡ month
      of_month month hit =
          sym (ap month_key (day_key_of_date-day_key_to_date (zone p.date) noon key.0 key.1))
          ∙ (==_iff _ _).0 (and_parts (is_debit row) _ hit).1

      none_yet : is_debit row ≡ true → debits_of (month_key (zone p.date)) bank.transactions ≡ 0
      none_yet debit =
          let auto = (and_parts (is_auto_debit p.source) _ debit).0 in
          debits_of_none (zone p.date) bank.transactions key m.dated (rw auto at unpaid)

      at :
          (month : ℕ)
          → debits_of month bank.transactions + (if is_debit_of month row then 1 else 0) ≤ 1
      at month = elim (Bool-cases (is_debit_of month row)) [
        | inl hit ↦
            let empty : debits_of month bank.transactions ≡ 0 =
              ap (λ n. debits_of n bank.transactions) (sym (of_month month hit))
              ∙ none_yet (and_parts (is_debit row) _ hit).0 in
            rw hit (omega (arith, empty))
        | inr miss ↦ rw miss (omega (arith, m.once month))
      ]

  withdrawn-IsMonthly :
      (p : WithdrawParams Decimal) (now : Instant) (fresh : ℕ) (amount : Decimal)
      (bank : PiggyBank Decimal)
      → IsMonthly bank
      → IsMonthly (withdrawn dec zone p now fresh amount bank)
  unfolding withdrawn
  withdrawn-IsMonthly p now fresh amount bank m = record {
    dated = All-snoc IsNoonDated bank.transactions row m.dated (λ debit. absurd (cc debit));
    once = λ month. rw (debits_of-append month bank.transactions row) (omega (arith, m.once month));
  }
    where
      row : PiggyTransaction Decimal
      row = withdraw_row dec zone p fresh amount

  -- A deposit is dated from the year 101 on.
  abbrev pub IsDatedMovement : Movement Decimal → Type 0
  IsDatedMovement (put p now fresh) = IsDated p.date
  IsDatedMovement (take p now fresh) = Unit

  perform-IsMonthly :
      (m : Movement Decimal) (s : Store Decimal)
      → IsDatedMovement m
      → All IsMonthly s.banks
      → All IsMonthly (perform dec zone m s).banks
  unfolding perform
  perform-IsMonthly (put p now fresh) s h k =
      deposit-All dec zone IsMonthly p now fresh s
        (λ bank unpaid unmet good. deposited-IsMonthly p now fresh _ bank h unpaid good) k
  perform-IsMonthly (take p now fresh) s h k =
      withdrawal-All dec zone IsMonthly p now fresh s
        (λ bank enough fine good. withdrawn-IsMonthly p now fresh _ bank good) k

  -- Deposits and withdrawals in any sequence keep it so that every bank of the rows has at most
  -- one automatic debit in each month, and each debit is dated at noon of a day. The deposits
  -- are dated from the year 101 on, and the zone is lawful.
  pub run-IsMonthly :
      (ms : List (Movement Decimal)) (s : Store Decimal)
      → All IsDatedMovement ms
      → All IsMonthly s.banks
      → All IsMonthly (run dec zone ms s).banks
  unfolding run
  run-IsMonthly [] s h k = k
  run-IsMonthly (m ∷ ms) s h k =
      run-IsMonthly ms (perform dec zone m s) h.1 (perform-IsMonthly m s h.0 k)
