-- ===== src/CivilDate/Zone.antt =====
-- What the program relies on of the time zone database: the civil day of an instant in São Paulo
-- (`dayKeyInSaoPaulo`). The function itself is a parameter, `zone`.
use demanage.Prelude.{◌*◌, ◌/◌, ◌≤◌, ◌≡◌, arith, Option, none, some}
use demanage.CivilDate.{DayKey, Instant, ms_per_day, day_key_of_date, day_key_to_date, noon}
use demanage.CivilDate.Years.{days_before_year}
use demanage.CivilDate.Order.{IsKey}
use demanage.CivilDate.Numbers.{IsFull, day_key_from_number_lem}

-- A key of a year that `Date.UTC` takes as it stands.
abbrev pub IsFullKey : DayKey → Type 0
IsFullKey k = IsKey k × IsFull k.year

-- An instant on or after the year 101: its day is in a full year in every zone.
abbrev pub IsDated : Instant → Type 0
IsDated t = days_before_year 101 * ms_per_day ≤ t

abbrev pub AllDated : Option Instant → Type 0
AllDated none = Unit
AllDated (some t) = IsDated t

-- A zone names a real day, and keeps noon of a day on that day.
pub record IsZone (zone : Instant → DayKey) : Type 0 where
  pub valid : (t : Instant) → IsDated t → IsFullKey (zone t)
  pub keeps_noon : (k : DayKey) → IsFullKey k → zone (day_key_to_date k noon) ≡ k

-- A stored date reads as a valid key.
pub day_key_of_date-IsFullKey : (t : Instant) → IsDated t → IsFullKey (day_key_of_date t)
unfolding day_key_of_date days_before_year
day_key_of_date-IsFullKey t h =
    let v = day_key_from_number_lem (t / ms_per_day) (omega arith) in (v.0, v.1)
