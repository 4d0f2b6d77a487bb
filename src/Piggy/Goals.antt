-- ===== src/Piggy/Goals.antt =====
-- The monthly amount that reaches a goal in time (`backend/src/lib/piggy/model.ts`).
use demanage.Prelude.{
  ℕ, suc, ◌+◌, ◌-◌, ◌≡◌, max, min, Bool, not, ◌&&◌, ◌||◌, Option, none, some, List, any, arith,
  dec_lt, ltb, leb, ◌==◌, if◌then◌else◌,
}
use demanage.Prelude.Decimals.{Decimals}
use demanage.Prelude.Counting.{count_between, count_from-append, count_from_full}
use demanage.CivilDate.{
  DayKey, Instant, noon, last_day_of_month, month_key, day_key_of_date, day_key_to_date,
}
use demanage.Piggy.AutoDebit.{CycleTransaction, is_deposit}

-- `dueDay`.
abbrev pub due_day : ℕ → DayKey → ℕ
due_day day k = min day (last_day_of_month k.year k.month_index)

-- Subtraction stops at 0, below which `Math.max` takes 1 all the same.
unfoldable pub months_until_target : DayKey → DayKey → Option ℕ → Bool → ℕ
months_until_target from target none paid = max 1 (month_key target + 1 - month_key from)
months_until_target from target (some day) paid =
    let months = month_key target + 1 - month_key from in
    let missed_current = if paid || ltb (due_day day from) from.day then 1 else 0 in
    let beyond_target = if ltb target.day (due_day day target) then 1 else 0 in
    if months == 0 then 1 else max 1 (months - missed_current - beyond_target)

unfoldable pub has_auto_debit_in_current_month :
    (Instant → DayKey) → List CycleTransaction → Instant → Bool
has_auto_debit_in_current_month zone ts now =
    any
      (λ t.
        is_deposit t.kind
        && t.is_auto_debit
        && (month_key (day_key_of_date t.date) == month_key (zone now)))
      ts

module _ (dec : Decimals) (zone : Instant → DayKey) where
  open dec use {Decimal, of_ℕ, minus, over, lt, to_money}

  unfoldable pub compute_monthly_goal :
      Option Decimal → Option Instant → Instant → Decimal → Option ℕ → Bool → Decimal
  unfolding months_until_target
  compute_monthly_goal none target now balance day paid = of_ℕ 0
  compute_monthly_goal (some goal) none now balance day paid = of_ℕ 0
  compute_monthly_goal (some goal) (some target) now balance day paid =
      let remaining = minus goal balance in
      let today = day_key_to_date (zone now) noon in
      if not (lt (of_ℕ 0) remaining)
      then of_ℕ 0
      else to_money (
          over remaining
            (of_ℕ (months_until_target (day_key_of_date today) (day_key_of_date target) day paid)))

-- A payment of the month `t` is still to come, and comes before the target: the day of this month
-- and that of the target's month decide at the two ends.
abbrev pub pays : DayKey → DayKey → ℕ → Bool → ℕ → Bool
pays from target day paid t =
    (ltb (month_key from) t || (not paid && leb from.day (due_day day from)))
    && (ltb t (month_key target) || leb (due_day day target) target.day)

-- The months until a target, with a day of debit, are the number of months from that of today
-- to that of the target whose debit is still to come and comes by the target, or 1 where there
-- is none.
pub months_until_target_lem :
    (from target : DayKey) (day : ℕ) (paid : Bool)
    → months_until_target from target (some day) paid
      ≡ max 1 (count_between (pays from target day paid) (month_key from) (month_key target))
unfolding months_until_target
months_until_target_lem from target day paid = elim (dec_lt (month_key target) (month_key from)) [
  | yes past ↦
      let none_left : month_key target + 1 - month_key from ≡ 0 = omega arith in
      let none_left' : suc (month_key target) - month_key from ≡ 0 = omega arith in
      rw (none_left, none_left') (omega arith)
  | no ahead ↦ elim (dec_lt (month_key from) (month_key target)) [
    | no same ↦
        let e : month_key target ≡ month_key from = omega arith in
        let one : suc (month_key target) - month_key from ≡ 1 = omega arith in rw one (ground arith)
    | yes apart ↦
        let n = month_key target - month_key from - 1 in
        let p = pays from target day paid in
        let len : suc (month_key target) - month_key from ≡ suc (n + 1) = omega arith in
        let full = count_from_full p (month_key from + 1) n (λ t lo hi. ground arith) in
        let parts = count_from-append p (month_key from + 1) n 1 in
        let last : month_key from + 1 + n ≡ month_key target = omega arith in
        rw (len, parts, full, last) (ground arith)
  ]
]
