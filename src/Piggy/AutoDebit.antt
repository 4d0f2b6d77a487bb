-- ===== src/Piggy/AutoDebit.antt =====
-- The monthly debits of a piggy bank (`backend/src/lib/piggy/auto-debit.ts`).
pub mod Due
use demanage.Prelude.{
  ℕ, zero, suc, ◌+◌, ◌-◌, ◌*◌, Bool, true, false, not, ◌&&◌, ◌||◌, Option, none, some, List, [],
  ◌∷◌, length, drop, any, leb, ltb, ◌==◌, if◌then◌else◌,
}
use demanage.CivilDate.{
  DayKey, day_key, Instant, noon, clamp_day_to_month, key_lt, key_le, day_key_to_date, month_bounds,
  next_year, next_month,
}
use demanage.Billing.Occurrences.{month_rounds}
use demanage.Piggy.Ledger.{LedgerType, deposit}

pub record AutoDebitCycle : Type 0 where
  pub due_on : Instant
  pub month_start : Instant
  pub month_end : Instant

abbrev pub max_auto_debit_catch_up_cycles : ℕ
max_auto_debit_catch_up_cycles = 60

-- The due day of a month; `autoDebitDay || 1`.
abbrev pub due_key : ℕ → ℕ → ℕ → DayKey
due_key y m day = day_key y m (clamp_day_to_month y m (if day == 0 then 1 else day))

-- `enabledKey && enabledKey > dueKey`.
abbrev pub enabled_after : Option DayKey → DayKey → Bool
enabled_after none due = false
enabled_after (some k) due = key_lt due k

unfoldable pub cycle_for_month : ℕ → ℕ → DayKey → DayKey → ℕ → Option DayKey → Option AutoDebitCycle
cycle_for_month y m today created day enabled =
    let due = due_key y m day in
    if key_lt today due || not (key_lt created due)
    then none
    else if enabled_after enabled due
    then none
    else some (record {
      due_on = day_key_to_date due noon;
      month_start = (month_bounds y m).start;
      month_end = (month_bounds y m).end;
    })

-- The loop over the months.
unfoldable pub cycles_from : ℕ → ℕ → ℕ → DayKey → DayKey → ℕ → Option DayKey → List AutoDebitCycle
cycles_from zero y m today created day enabled = []
cycles_from (suc rounds) y m today created day enabled =
    let rest = cycles_from rounds (next_year y m) (next_month m) today created day enabled in
    if ltb y today.year || ((y == today.year) && leb m today.month_index)
    then elim (cycle_for_month y m today created day enabled) [ none ↦ rest | some c ↦ c ∷ rest ]
    else []

-- `xs.slice(-n)`.
abbrev pub last_part {ℓ} : {A : Type ℓ} → ℕ → List A → List A
last_part n xs = drop (length xs - n) xs

abbrev pub later_start : DayKey → Option DayKey → DayKey
later_start created none = created
later_start created (some k) = if key_lt created k then k else created

abbrev pub same_cycle : AutoDebitCycle → AutoDebitCycle → Bool
same_cycle a b =
    (a.due_on == b.due_on) && (a.month_start == b.month_start) && (a.month_end == b.month_end)

module _ (zone : Instant → DayKey) where
  abbrev pub enabled_key : Option Instant → Option DayKey
  enabled_key none = none
  enabled_key (some t) = some (zone t)

  unfoldable pub current_auto_debit_cycle :
      Instant → Instant → ℕ → Option Instant → Option AutoDebitCycle
  unfolding cycle_for_month
  current_auto_debit_cycle now created_at day enabled_at =
      let today = zone now in
      cycle_for_month today.year today.month_index today (zone created_at) day
        (enabled_key enabled_at)

  unfoldable pub list_due_auto_debit_cycles :
      Instant → Instant → ℕ → Option Instant → List AutoDebitCycle
  unfolding cycles_from
  list_due_auto_debit_cycles now created_at day enabled_at =
      let start = later_start (zone created_at) (enabled_key enabled_at) in
      last_part max_auto_debit_catch_up_cycles (
        cycles_from (month_rounds start (zone now)) start.year start.month_index (zone now)
          (zone created_at) day (enabled_key enabled_at))

  unfoldable pub is_scheduled_auto_debit_cycle_still_due :
      AutoDebitCycle → Instant → Instant → ℕ → Option Instant → Bool
  unfolding cycle_for_month
  is_scheduled_auto_debit_cycle_still_due cycle now created_at day enabled_at =
      let due = zone cycle.due_on in
      elim (cycle_for_month due.year due.month_index (zone now) (zone created_at) day
        (enabled_key enabled_at)) [ none ↦ false | some current ↦ same_cycle current cycle ]

-- What the debits look at in a transaction.
pub record CycleTransaction : Type 0 where
  pub kind : LedgerType
  pub is_auto_debit : Bool
  pub date : Instant

abbrev pub is_deposit : LedgerType → Bool
is_deposit deposit = true
is_deposit _ = false

unfoldable pub has_auto_debit_in_cycle :
    (Instant → DayKey) → List CycleTransaction → Option AutoDebitCycle → Bool
has_auto_debit_in_cycle zone ts none = false
has_auto_debit_in_cycle zone ts (some c) =
    any
      (λ t.
        if not (is_deposit t.kind) || not t.is_auto_debit
        then false
        else not (key_lt (zone t.date) (zone c.month_start))
          && key_le (zone t.date) (zone c.month_end))
      ts
