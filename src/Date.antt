-- ===== src/Date.antt =====
-- `Date` of MonaBase/include/Mona/Date.h and MonaBase/sources/Date.cpp: a time and its fields.
-- `now` is the clock, and what `Timezone` answers is the argument `zone`. `none` is a loop that
-- never ends.
pub mod Fields
pub mod Calendar
pub mod Years
pub mod Exact
pub mod Setters
pub mod RoundTrip
mod Tests
use mona_server.Base.{
  ℕ, zero, suc, ◌+◌, ◌*◌, ◌/◌, ◌%◌, ◌^◌, Bool, true, false, not, ◌&&◌, ◌||◌, List, [], ◌∷◌, Option,
  none, some, ltb, leb, ◌==◌, if◌then◌else◌, ◌>>=◌, get_or, bit_and,
}
use mona_server.Base.Integers.{
  ℤ, pos, negsuc, ◌+ℤ◌, ◌-ℤ◌, scale, ltb_ℤ, eqb_ℤ, quot, rem, floor, wrap, wrap_signed, pos_part,
}

-- The special offsets.
abbrev pub gmt : ℤ
gmt = pos 0x7fffffff

abbrev pub local : ℤ
local = negsuc 0x7fffffff

unfoldable pub is_leap_year : ℤ → Bool
is_leap_year year =
    eqb_ℤ (rem year 400) (pos 0)
    || ((bit_and (wrap (2 ^ 32) year) 3 == 0) && not (eqb_ℤ (rem year 100) (pos 0)))

-- `MonthDays`, where an index past the end is no number of the table; here it is 0.
unfoldable pub month_days : Bool → List ℕ
month_days leap =
    if leap
    then 0 ∷ 31 ∷ 60 ∷ 91 ∷ 121 ∷ 152 ∷ 182 ∷ 213 ∷ 244 ∷ 274 ∷ 305 ∷ 335 ∷ []
    else 0 ∷ 31 ∷ 59 ∷ 90 ∷ 120 ∷ 151 ∷ 181 ∷ 212 ∷ 243 ∷ 273 ∷ 304 ∷ 334 ∷ []

unfoldable pub leap_years : ℤ → ℤ
leap_years year =
    let result = quot year 4 -ℤ quot year 100 +ℤ quot year 400 -ℤ pos 477 in
    if ltb_ℤ (pos 0) year then result else result -ℤ pos 1

-- `instant` is `Time::_time`. The `mutable` fields are a cache that a getter may fill.
pub record Date : Type 0 where
  pub instant : ℤ
  pub year : ℤ
  pub month : ℕ
  pub day : ℕ
  pub week_day : ℕ
  pub hour : ℕ
  pub minute : ℕ
  pub second : ℕ
  pub millisecond : ℕ
  pub offset : ℤ
  pub is_local : Bool
  pub is_dst : Bool
  pub changed : Bool

pub data TimeType : Type 0 where
  dst standard check_dst_with_rules : TimeType

-- `Timezone::LocalOffset` of a time, `LocalOffsetUsingRules`, and `LocalOffset` of a date and its
-- clock, which asks the date for its fields and so may fill its cache.
pub record Zone : Type 0 where
  pub local_offset : ℤ → ℤ × TimeType
  pub using_rules : Date → ℕ → ℤ × Bool
  pub of_date : Date → ℕ → Date × ℤ × Bool

unfoldable pub week_day_of : ℤ → ℕ
week_day_of days =
    let shifted = days +ℤ pos 4 in
    let before = ltb_ℤ shifted (pos 0) in
    let result = rem (if before then shifted +ℤ pos 1 else shifted) 7 in
    wrap 256 (if before then result +ℤ pos 6 else result)

unfoldable pub compute_week_day : Date → ℤ → Date
compute_week_day d days = record d { week_day = week_day_of days }

-- The loop of `update` over the years from 1970 on: the days with the correction for leap years.
unfoldable pub year_loop : ℕ → ℤ → ℤ → ℤ → Option (ℤ × ℤ)
year_loop zero days year delta = none
year_loop (suc fuel) days year delta =
    let next = wrap_signed (2 ^ 32) (quot days 366) in
    let delta' = next -ℤ leap_years (next +ℤ pos 1970) in
    let rest = year_loop fuel (days -ℤ delta +ℤ delta') next delta' in
    if eqb_ℤ next year then some (days, year) else rest

-- The year, and the day of it from 1 on. `before` is a time before 1970.
unfoldable pub day_in_year : Bool → ℤ → ℤ → ℤ × ℤ
day_in_year before days year =
    let leap = is_leap_year year in
    if before
    then (let shifted = if ltb_ℤ (pos 0) year && leap then days +ℤ pos 1 else days in
        let year' = if ltb_ℤ shifted (pos 0) then year -ℤ pos 1 else year in
        let day = shifted +ℤ pos 1 in
        let whole = if is_leap_year year' then pos 366 else pos 365 in
        (year', if ltb_ℤ (pos 0) day then day else day +ℤ whole))
    else (year, if leap then days +ℤ pos 1 else days)

unfoldable pub year_and_day : ℕ → Bool → ℤ → Option (ℤ × ℤ)
year_and_day fuel before days = do
  (days', year) ← year_loop fuel (if before then days else days +ℤ pos 1) (pos 0) (pos 0)
  some (day_in_year before (rem days' 366) (year +ℤ pos 1970))

-- The loop over the months: the month, and the days in front of it.
unfoldable pub month_loop : ℕ → List ℕ → ℤ → ℕ → ℕ → ℕ × ℕ
month_loop zero table days month count = (month, count)
month_loop (suc left) table days month count =
    let delta = get_or table month 0 in
    let rest = month_loop left table days (month + 1) delta in
    if ltb_ℤ (pos delta) days then rest else (month, count)

-- The end of `update`: the clock. With a summer time by rules `time` may leave the day.
unfoldable pub with_clock : Date → ℤ → Date
with_clock d time =
    let minutes = rem time 3600000 in
    let seconds = rem minutes 60000 in
    record d {
      hour = wrap 256 (quot time 3600000);
      minute = wrap 256 (quot minutes 60000);
      second = wrap 256 (quot seconds 1000);
      millisecond = wrap (2 ^ 16) (rem seconds 1000);
    }

abbrev pub by_rules : TimeType → Bool
by_rules check_dst_with_rules = true
by_rules _ = false

abbrev pub in_summer : TimeType → Bool
in_summer dst = true
in_summer _ = false

-- The offset that `update` starts with, and how it knows it.
unfoldable pub resolve : Zone → ℤ → ℤ → ℤ × TimeType × Bool
resolve zone time offset =
    if eqb_ℤ offset gmt
    then (pos 0, standard, false)
    else if eqb_ℤ offset local
    then (let (value, kind) = zone.local_offset time in (value, kind, true))
    else (offset, standard, false)

abbrev pub ms_per_day : ℕ
ms_per_day = 86400000

unfoldable pub time_of_day : ℤ → ℤ
time_of_day time =
    let rest = rem time ms_per_day in if ltb_ℤ rest (pos 0) then rest +ℤ pos ms_per_day else rest

-- The date part of `update`, at the time with its offset.
unfoldable pub with_date : ℕ → Date → ℤ → Option Date
with_date fuel d time = do
  let days = floor time ms_per_day
  (year, of_year) ← year_and_day fuel (ltb_ℤ time (pos 0)) days
  let (month, count) = month_loop 11 (month_days (is_leap_year year)) of_year 1 0
  some (record d {
    week_day = week_day_of days;
    year = year;
    month = month;
    day = wrap 256 (of_year -ℤ pos count);
  })

unfoldable pub update : ℕ → Zone → Date → ℤ → ℤ → Option Date
update fuel zone d time offset = do
  let (value, kind, is_local) = resolve zone time offset
  let start = record d {
    instant = time;
    changed = false;
    offset = value;
    is_local = is_local;
    is_dst = in_summer kind;
  }
  dated ← with_date fuel start (time +ℤ value)
  let clock = time_of_day (time +ℤ value)
  let (summer, is_dst) = zone.using_rules dated (wrap (2 ^ 32) clock)
  some (
      if by_rules kind
      then with_clock (record dated { offset = summer; is_dst = is_dst }) (clock -ℤ value +ℤ summer)
      else with_clock dated clock)
