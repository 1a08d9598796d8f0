-- ===== src/Date/Fields.antt =====
-- The getters and the setters of `Date` (MonaBase/include/Mona/Date.h and
-- MonaBase/sources/Date.cpp). A date whose day is 0 has no fields yet: a getter fills them from the
-- clock. A getter returns what it reads and the date with its cache.
use mona_server.Base.{
  ℕ, ◌+◌, ◌-◌, ◌*◌, ◌%◌, ◌^◌, Bool, true, false, not, ◌&&◌, ◌||◌, Option, none, some, ltb, leb,
  ◌==◌, if◌then◌else◌, ◌>>=◌, get_or, bit_and,
}
use mona_server.Base.Integers.{ℤ, pos, ◌+ℤ◌, ◌-ℤ◌, scale, ltb_ℤ, eqb_ℤ, floor}
use mona_server.Date.{
  Date, Zone, gmt, local, is_leap_year, leap_years, month_days, compute_week_day, update,
  ms_per_day,
}

unfoldable pub set_year : Date → ℤ → Date
set_year d year =
    if ltb 0 d.day && eqb_ℤ year d.year then d else record d { changed = true; year = year }

abbrev pub clamped : ℕ → ℕ → ℕ → ℕ
clamped low high n = if ltb n low then low else if ltb high n then high else n

unfoldable pub set_month : Date → ℕ → Date
set_month d month =
    let value = clamped 1 12 month in
    if ltb 0 d.day && (value == d.month) then d else record d { changed = true; month = value }

-- The last day that a month has, for a day from 29 to 31.
unfoldable pub day_of_month : ℕ → Bool → ℕ → ℕ
day_of_month month leap day =
    let is_odd = not (bit_and month 1 == 0) in
    let at_most = if leb 30 day then 29 else day in
    if ltb month 8
    then (if month == 2
        then (if (at_most == 29) && not leap then 28 else at_most)
        else if (day == 31) && not is_odd
        then 30
        else day)
    else if (day == 31) && is_odd
    then 30
    else day

unfoldable pub put_day : Date → ℕ → Date
put_day d day =
    if not d.changed && (day == d.day) then d else record d { changed = true; day = day }

unfoldable pub set_hour : Date → ℕ → Date
set_hour d hour =
    let value = if ltb 59 hour then 59 else hour in
    if ltb 0 d.day && (value == d.hour) then d else record d { changed = true; hour = value }

unfoldable pub set_minute : Date → ℕ → Date
set_minute d minute =
    let value = if ltb 59 minute then 59 else minute in
    if ltb 0 d.day && (value == d.minute) then d else record d { changed = true; minute = value }

unfoldable pub set_second : Date → ℕ → Date
set_second d second =
    let value = if ltb 59 second then 59 else second in
    if ltb 0 d.day && (value == d.second) then d else record d { changed = true; second = value }

unfoldable pub clock_of : Date → ℕ
clock_of d = (d.hour * 3600000 + d.minute * 60000 + d.second * 1000 + d.millisecond) % 2 ^ 32

-- The days of the fields, and their time as if their offset were 0.
unfoldable pub days_of : Bool → ℕ → ℤ → ℕ → ℤ → ℤ
days_of leap day leap_days before year =
    let first = pos day -ℤ pos 1 +ℤ leap_days in
    let shifted = if leap && ltb_ℤ (pos 0) year then first -ℤ pos 1 else first in
    shifted +ℤ pos before +ℤ scale (year -ℤ pos 1970) 365

unfoldable pub time_of_fields : Date → ℤ
time_of_fields d =
    let leap = is_leap_year d.year in
    let before = get_or (month_days leap) (d.month - 1) 0 in
    scale (days_of leap d.day (leap_years d.year) before d.year) ms_per_day +ℤ pos (clock_of d)

unfoldable pub moved : Date → ℤ → Date
moved d offset = record d {
  instant = if d.changed then d.instant else d.instant -ℤ d.offset -ℤ offset;
  offset = offset;
}

unfoldable pub set_offset : Date → ℤ → Date
set_offset d offset =
    if d.day == 0
    then record d { offset = offset }
    else if eqb_ℤ offset local
    then (if eqb_ℤ d.offset local || d.is_local
        then d
        else moved (record d { is_local = true }) offset)
    else if eqb_ℤ offset gmt
    then (let global = record d { is_dst = false; is_local = false } in
        if eqb_ℤ d.offset gmt || eqb_ℤ d.offset (pos 0) then global else moved global offset)
    else moved d offset

-- `none` also where the month is past the table: in December.
unfoldable pub day_from : Date → Option (ℕ × Date)
day_from d =
    if ltb d.month 12
    then some ((d.day + get_or (month_days (is_leap_year d.year)) d.month 0 - 1) % 2 ^ 16, d)
    else none

module _ (fuel : ℕ) (zone : Zone) (now : ℤ) where
  -- `update(_offset)` on a date without fields.
  unfoldable pub filled : Date → Option Date
  filled d = if d.day == 0 then update fuel zone d now d.offset else some d

  unfoldable pub set_day : Date → ℕ → Option Date
  set_day d day =
      let value = clamped 1 31 day in
      if ltb 0 d.day && (day == d.day)
      then some d
      else if ltb 28 value
      then (do
        d' ← filled d
        some (put_day d' (day_of_month d'.month (is_leap_year d'.year) value)))
      else some (put_day d value)

  unfoldable pub clock : Date → Option (ℕ × Date)
  clock d = do d' ← filled d; some (clock_of d', d')

  -- `time` of a date that has changed: the offset is asked for while it counts as 0.
  unfoldable pub refreshed : Date → Date
  refreshed d =
      let time = time_of_fields d in
      let clean = record d { instant = time; changed = false; week_day = 7 } in
      let settled : Date =
        if eqb_ℤ d.offset gmt
        then record clean { is_local = false; is_dst = false; offset = pos 0 }
        else if eqb_ℤ d.offset local || d.is_local
        then (let (asked, offset, is_dst) =
              zone.of_date (record clean { offset = gmt }) (clock_of d) in
            record asked { offset = offset; is_dst = is_dst; is_local = true })
        else record clean { is_local = false } in
      record settled { instant = time -ℤ settled.offset }

  unfoldable pub time : Date → Option (ℤ × Date)
  time d =
      if d.day == 0
      then (do d' ← filled d; some (d'.instant, d'))
      else if not d.changed
      then some (d.instant, d)
      else some ((refreshed d).instant, refreshed d)

  unfoldable pub set_millisecond : Date → ℕ → Option Date
  set_millisecond d millisecond =
      let value = if ltb 999 millisecond then 999 else millisecond in
      if ltb 0 d.day && (value == d.millisecond)
      then some d
      else if d.changed
      then some (record d { millisecond = value })
      else (do
        (instant, d') ← time d
        some (record d' {
          instant = instant -ℤ pos d'.millisecond +ℤ pos value;
          millisecond = value;
        }))

  unfoldable pub set_clock : Date → ℕ → ℕ → ℕ → ℕ → Option Date
  set_clock d hour minute second millisecond =
      set_millisecond (set_second (set_minute (set_hour d hour) minute) second) millisecond

  -- `update` from a date, and from a date with its clock.
  unfoldable pub update_date : Date → ℤ → ℕ → ℕ → Option Date
  update_date d year month day = set_day (set_month (set_year d year) month) day

  unfoldable pub update_date_clock : Date → ℤ → ℕ → ℕ → ℕ → ℕ → ℕ → ℕ → Option Date
  update_date_clock d year month day hour minute second millisecond = do
    d' ← set_clock (set_month (set_year d year) month) hour minute second millisecond
    set_day d' day

  unfoldable pub offset_of : Date → Option (ℤ × Date)
  offset_of d =
      if d.day == 0
      then (do d' ← filled d; some (d'.offset, d'))
      else if eqb_ℤ d.offset gmt
      then some (pos 0, record d { offset = pos 0; is_dst = false; is_local = false })
      else let is_local = eqb_ℤ d.offset local || d.is_local in
        let d' = record d { is_local = is_local } in
        if not is_local
        then some (d.offset, d')
        else if d.changed
        then (do (_, d2) ← time d'; some (d2.offset, d2))
        else if eqb_ℤ d.offset local
        then (let (asked, offset, is_dst) =
              zone.of_date (record d' { offset = gmt }) (clock_of d) in
            some (offset, record asked { offset = offset; is_dst = is_dst }))
        else some (d.offset, d')

  unfoldable pub week_day : Date → Option (ℕ × Date)
  week_day d =
      if d.day == 0
      then (do d' ← filled d; some (d'.week_day, d'))
      else if d.changed || (d.week_day == 7)
      then (do
        (instant, d1) ← time d
        (offset, d2) ← offset_of d1
        let known = compute_week_day d2 (floor (instant +ℤ offset) ms_per_day)
        some (known.week_day, known))
      else some (d.week_day, d)

  unfoldable pub year_day : Date → Option (ℕ × Date)
  year_day d = do d' ← filled d; day_from d'
