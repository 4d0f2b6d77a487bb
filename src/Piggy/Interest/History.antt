-- ===== src/Piggy/Interest/History.antt =====
-- The days whose rates are asked for (`lastCompletedWeekday` and `splitCdiHistoryRange` of
-- `backend/src/lib/piggy/interest.ts`). A week has five weekdays, so two steps back from a weekend
-- are enough; each range is of one day at least, so a round for each day is.
use mathlib.Core.Path.{subst}
use demanage.Prelude.{
  ℕ, zero, suc, ◌+◌, ◌-◌, ◌%◌, ◌≤◌, ◌<◌, ◌≡◌, refl, sym, ◌∙◌, Bool, true, false, not, ◌||◌, List,
  [], ◌∷◌, ◌==◌, leb, ltb, if◌then◌else◌, Bool-cases, inl, inr, arith,
}
use demanage.Prelude.Int.{pos, negsuc}
use demanage.Prelude.Counting.{count_from, count_between}
use demanage.CivilDate.{
  DayKey, Instant, noon, day_number, add_days_to_key, weekday_of_key, day_key_to_date,
  day_key_of_date, key_lt, key_le,
}
use demanage.CivilDate.Years.{days_before_year, days_before_year_mono}
use demanage.CivilDate.Order.{IsKey, key_lt-rank, key_le-rank}
use demanage.CivilDate.Numbers.{
  day_number-rank, day_key_from_number_lem, add_days_to_key_neg, add_days_to_key_forward,
  day_number_lem, day_key_of_date-day_key_to_date,
}
use demanage.CivilDate.Zone.{IsFullKey, IsDated, IsZone, day_key_of_date-IsFullKey}

abbrev pub max_history_range_days : ℕ
max_history_range_days = 3663

abbrev pub is_weekend : DayKey → Bool
is_weekend k = (weekday_of_key k == 0) || (weekday_of_key k == 6)

-- The loop back to a weekday.
unfoldable pub weekday_back : ℕ → DayKey → DayKey
weekday_back zero k = k
weekday_back (suc rounds) k =
    let earlier = weekday_back rounds (add_days_to_key k (negsuc 0)) in
    if is_weekend k then earlier else k

-- `dayKeyToDate(key)` of the key found.
unfoldable pub last_completed_weekday : (Instant → DayKey) → Instant → Instant
unfolding weekday_back
last_completed_weekday zone now =
    day_key_to_date (weekday_back 2 (add_days_to_key (zone now) (negsuc 0))) noon

pub record HistoryRange : Type 0 where
  pub from_key : DayKey
  pub to_key : DayKey

-- The end of a range that begins at the cursor.
abbrev pub range_end : DayKey → DayKey → DayKey
range_end cursor last =
    let max_end = add_days_to_key cursor (pos 3662) in if key_lt max_end last then max_end else last

-- The loop; `rounds` bounds the ranges.
unfoldable pub ranges_from : ℕ → DayKey → DayKey → List HistoryRange
ranges_from zero cursor last = []
ranges_from (suc rounds) cursor last =
    let rest = ranges_from rounds (add_days_to_key (range_end cursor last) (pos 1)) last in
    if key_le cursor last
    then record { from_key = cursor; to_key = range_end cursor last } ∷ rest
    else []

unfoldable pub split_cdi_history_range : Instant → Instant → List HistoryRange
unfolding ranges_from
split_cdi_history_range from to =
    let first = day_key_of_date from in
    let last = day_key_of_date to in ranges_from (day_number last + 1 - day_number first) first last

-- The ranges cover the days from number `n` to number `last`, in order, without gap or overlap,
-- and none is longer than the limit.
abbrev pub Tiles : ℕ → ℕ → List HistoryRange → Type 0
Tiles n last [] = n ≡ last + 1
Tiles n last (r ∷ rs) =
    ((day_number r.from_key ≡ n)
      × (n ≤ day_number r.to_key)
      × (day_number r.to_key < n + max_history_range_days))
    × Tiles (day_number r.to_key + 1) last rs

key_lt-day_number :
    (a b : DayKey) → IsFullKey a → IsFullKey b → key_lt a b ≡ ltb (day_number a) (day_number b)
key_lt-day_number a b va vb =
    let iff = day_number-rank a b va.0 vb.0 va.1 vb.1 in key_lt-rank va.0 vb.0 ∙ ground (arith, iff)

key_le-day_number :
    (a b : DayKey) → IsFullKey a → IsFullKey b → key_le a b ≡ leb (day_number a) (day_number b)
key_le-day_number a b va vb =
    let iff = day_number-rank b a vb.0 va.0 vb.1 va.1 in key_le-rank va.0 vb.0 ∙ ground (arith, iff)

range_end_lem :
    (cursor last : DayKey)
    → IsFullKey cursor
    → IsFullKey last
    → day_number cursor ≤ day_number last
    → IsFullKey (range_end cursor last)
      × ((day_number cursor ≤ day_number (range_end cursor last))
          × (day_number (range_end cursor last) < day_number cursor + max_history_range_days)
          × (day_number (range_end cursor last) ≤ day_number last))
range_end_lem cursor last vc vl h =
    let (v, f, e) = add_days_to_key_forward cursor 3662 vc.0 vc.1 in
    let far = add_days_to_key cursor (pos 3662) in
    let test = key_lt-day_number far last (v, f) vl in
    elim (Bool-cases (key_lt far last)) [
      | inl before ↦
          rw before ((v, f), (omega (arith, e), omega (arith, e), ground (arith, test, before)))
      | inr beyond ↦ rw beyond (vl, (omega arith, ground (arith, test, beyond, e), omega arith))
    ]

ranges_from-Tiles :
    (rounds : ℕ) (cursor last : DayKey)
    → IsFullKey cursor
    → IsFullKey last
    → day_number cursor ≤ day_number last + 1
    → day_number last + 1 ≤ rounds + day_number cursor
    → Tiles (day_number cursor) (day_number last) (ranges_from rounds cursor last)
unfolding ranges_from
ranges_from-Tiles zero cursor last vc vl h k = omega arith
ranges_from-Tiles (suc rounds) cursor last vc vl h k =
    let test = key_le-day_number cursor last vc vl in
    elim (Bool-cases (key_le cursor last)) [
      | inr done ↦ rw done (ground (arith, test, done))
      | inl inside ↦
          let le : day_number cursor ≤ day_number last = ground (arith, test, inside) in
          let (ve, ends) = range_end_lem cursor last vc vl le in
          let (vn, fn, next) = add_days_to_key_forward (range_end cursor last) 1 ve.0 ve.1 in
          let rest =
            ranges_from-Tiles rounds (add_days_to_key (range_end cursor last) (pos 1)) last (vn, fn)
              vl (omega (arith, next, ends)) (omega (arith, next, ends)) in
          rw inside (
            (refl, ends.0, ends.1),
            subst
                (λ n.
                  Tiles n (day_number last)
                    (ranges_from rounds (add_days_to_key (range_end cursor last) (pos 1)) last))
                next rest,
          )
    ]

-- The ranges that a span of days is split into follow one another without gap or overlap from
-- its first day to its last, and none is empty or longer than 3663 days. The ends are dated
-- from the year 101 on and in order.
pub split_cdi_history_range-Tiles :
    (from to : Instant)
    → IsDated from
    → IsDated to
    → key_le (day_key_of_date from) (day_key_of_date to) ≡ true
    → Tiles
        (day_number (day_key_of_date from))
        (day_number (day_key_of_date to))
        (split_cdi_history_range from to)
unfolding split_cdi_history_range
split_cdi_history_range-Tiles from to hf ht h =
    let vf = day_key_of_date-IsFullKey from hf in
    let vt = day_key_of_date-IsFullKey to ht in
    let test = key_le-day_number (day_key_of_date from) (day_key_of_date to) vf vt in
    let le : day_number (day_key_of_date from) ≤ day_number (day_key_of_date to) =
      ground (arith, test, h) in
    ranges_from-Tiles _ (day_key_of_date from) (day_key_of_date to) vf vt (omega (arith, le))
      (omega (arith, le))

-- The day of a number in a week: 0 is Sunday.
abbrev pub falls_on_weekend : ℕ → Bool
falls_on_weekend n = ((n + 6) % 7 == 0) || ((n + 6) % 7 == 6)

-- A day back, as a number.
back_one :
    (k : DayKey)
    → days_before_year 100 < day_number k
    → let j = add_days_to_key k (negsuc 0) in IsFullKey j × (day_number j + 1 ≡ day_number k)
back_one k h =
    let (v, f, e) = day_key_from_number_lem (day_number k - 1) (omega arith) in
    rw (add_days_to_key_neg k 0) ((v, f), omega (arith, e))

-- The weekdays of the days from `n` on.
abbrev pub is_working : ℕ → Bool
is_working n = not (falls_on_weekend n)

-- The last of `skipped + 1` days in a row is the only weekday from it on.
one_working :
    (j n skipped : ℕ)
    → n ≡ j + skipped
    → count_from is_working j (suc skipped) ≡ 1
    → count_between is_working j n ≡ 1
one_working j n skipped e h = let len : suc n - j ≡ suc skipped = omega (arith, e) in rw len h

abbrev IsLastWorking : DayKey → DayKey → Type 0
IsLastWorking k j =
    IsFullKey j
    × ((falls_on_weekend (day_number j) ≡ false)
        × (day_number j ≤ day_number k)
        × (count_between is_working (day_number j) (day_number k) ≡ 1))

-- `j` lies `skipped` weekend days before `k`.
last_working :
    (k j : DayKey) (skipped : ℕ)
    → IsFullKey j
    → day_number k ≡ day_number j + skipped
    → falls_on_weekend (day_number j) ≡ false
    → count_from is_working (day_number j) (suc skipped) ≡ 1
    → IsLastWorking k j
last_working k j skipped v e w h =
    (v, (w, omega (arith, e), one_working (day_number j) (day_number k) skipped e h))

weekday_back_lem :
    (k : DayKey)
    → IsFullKey k
    → days_before_year 100 + 2 ≤ day_number k
    → IsLastWorking k (weekday_back 2 k)
unfolding weekday_back weekday_of_key
weekday_back_lem k v h =
    let (v1, e1) = back_one k (omega arith) in
    let j1 = add_days_to_key k (negsuc 0) in
    let (v2, e2) = back_one j1 (omega (arith, e1)) in
    let j2 = add_days_to_key j1 (negsuc 0) in
    elim (Bool-cases (is_weekend k)) [
      | inr work ↦ rw work (last_working k k 0 v (omega arith) work (ground (arith, work)))
      | inl rest ↦ elim (Bool-cases (is_weekend j1)) [
        | inr work ↦
            rw (rest, work)
              (last_working k j1 1 v1 (omega (arith, e1)) work (ground (arith, work, rest, e1)))
        | inl rest1 ↦
            rw (rest, rest1)
              (last_working k j2 2 v2 (omega (arith, e1, e2)) (ground (arith, rest, rest1, e1, e2))
                (ground (arith, rest, rest1, e1, e2)))
      ]
    ]

-- A day of the year 101 or later is well after the start of the year 100.
late_number : (k : DayKey) → IsKey k → 101 ≤ k.year → days_before_year 100 + 300 ≤ day_number k
unfolding days_before_year
late_number k v h =
    omega (arith, day_number_lem k (omega arith), days_before_year_mono 101 k.year h)

weekday_read :
    (zone : Instant → DayKey) (now : Instant)
    → IsFullKey (weekday_back 2 (add_days_to_key (zone now) (negsuc 0)))
    → day_key_of_date (last_completed_weekday zone now)
      ≡ weekday_back 2 (add_days_to_key (zone now) (negsuc 0))
unfolding last_completed_weekday
weekday_read zone now v = day_key_of_date-day_key_to_date _ noon v.0 v.1

-- Two steps back are enough: the day that is found is a weekday before today, and the only one
-- from it to yesterday. The instant is dated from the year 101 on, its day is of a year from
-- 101 on, and the zone is lawful.
pub last_completed_weekday_lem :
    {zone : Instant → DayKey} (z : IsZone zone) (now : Instant)
    → IsDated now
    → 101 ≤ (zone now).year
    → let last = day_key_of_date (last_completed_weekday zone now) in
      (falls_on_weekend (day_number last) ≡ false)
      × (day_number last < day_number (zone now))
      × (count_between is_working (day_number last) (day_number (zone now) - 1) ≡ 1)
last_completed_weekday_lem {zone} z now dated h =
    let today = zone now in
    let v = z.valid now dated in
    let late = late_number today v.0 h in
    let (vy, ey) = back_one today (omega (arith, late)) in
    let yesterday = add_days_to_key today (negsuc 0) in
    let number : day_number yesterday ≡ day_number today - 1 = omega (arith, ey) in
    let found = weekday_back_lem yesterday vy (omega (arith, late, ey)) in
    let (work, le, one) = found.1 in
    subst
      (λ j.
        (falls_on_weekend (day_number j) ≡ false)
        × (day_number j < day_number today)
        × (count_between is_working (day_number j) (day_number today - 1) ≡ 1))
      (sym (weekday_read zone now found.0))
      (
        work,
        omega (arith, le, ey),
        subst (λ n. count_between is_working (day_number (weekday_back 2 yesterday)) n ≡ 1) number
            one,
      )
