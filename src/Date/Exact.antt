-- ===== src/Date/Exact.antt =====
-- `Date::update` of a time from 1970 on gives the fields of that time, and `Date::time` of those
-- fields gives the time back.
use mona_server.Base.{
  ℕ, zero, suc, ◌+◌, ◌-◌, ◌*◌, ◌/◌, ◌%◌, ◌^◌, ◌≤◌, ◌<◌, ◌≡◌, refl, ap, sym, ◌∙◌, Bool, true, false,
  some, ltb, if◌then◌else◌, arith, inl, inr, Bool-cases, subst,
}
use mona_server.Base.Integers.{ℤ, pos, ◌+ℤ◌, ◌-ℤ◌, ltb_ℤ, quot, rem, wrap}
use mona_server.Date.{
  Date, Zone, day_in_year, year_and_day, month_days, month_loop, is_leap_year, with_date,
  with_clock, week_day_of, update, resolve, time_of_day, TimeType, by_rules, in_summer,
}
use mona_server.Date.Calendar.{
  is_leap, month_length, year_start, month_start, year_start-closed, is_leap_year-is_leap,
}
use mona_server.Date.Years.{IsIn, short, year_loop-finds}

-- The month: `month_loop` finds the one whose days hold the day of the year.
pub record IsMonth (leap : Bool) (n m count : ℕ) : Type 0 where
  pub from_january : 1 ≤ m
  pub to_december : m ≤ 12
  pub starts : count ≡ month_start leap (m - 1)
  pub after : count < n
  pub within : n ≤ count + month_length leap m

month_loop-IsMonth :
    (leap : Bool) (n : ℕ)
    → 1 ≤ n
    → n ≤ (if leap then 366 else 365)
    → IsMonth leap n
        (month_loop 11 (month_days leap) (pos n) 1 0).0
        (month_loop 11 (month_days leap) (pos n) 1 0).1
unfolding month_loop month_days month_start
month_loop-IsMonth true n h k = record {
  from_january = ground arith;
  to_december = ground arith;
  starts = ground arith;
  after = ground arith;
  within = ground arith;
}
month_loop-IsMonth false n h k = record {
  from_january = ground arith;
  to_december = ground arith;
  starts = ground arith;
  after = ground arith;
  within = ground arith;
}

-- Some year holds the day.
year_of : (n : ℕ) → (y : ℕ) × IsIn (suc n) y × (y ≤ n)
unfolding year_start
year_of zero = (0, record { after = omega arith; up_to = ground arith }, omega arith)
year_of (suc n) =
    let (y, i, le) = year_of n in
    elim (Bool-cases (ltb (suc n) (year_start (suc y)))) [
      | inl inside ↦ (
        y,
        record { after = omega (arith, i.after); up_to = ground (arith, inside) },
        omega arith,
      )
      | inr last ↦ (
        suc y,
        record { after = ground (arith, last, i.up_to); up_to = ground (arith, last, i.up_to) },
        omega arith,
      )
    ]

rem-pos : (a b : ℕ) → a % 366 ≡ b → rem (pos a) 366 ≡ pos b
rem-pos a b e = ground arith

day_in_year-exact :
    (n y : ℕ)
    → IsIn n y
    → y < 2 ^ 31
    → day_in_year false (rem (pos (n + short y)) 366) (pos y +ℤ pos 1970)
      ≡ (pos (1970 + y), pos (n - year_start y))
unfolding day_in_year year_start
day_in_year-exact n y i small =
    let year : pos y +ℤ pos 1970 ≡ pos (1970 + y) = ground arith in
    let closed = year_start-closed y in
    elim (Bool-cases (is_leap (1970 + y))) [
      | inl leap ↦
          let left =
            rem-pos (n + short y) (n - year_start y - 1)
              (ground (arith, closed, leap, i.after, i.up_to)) in
          rw (year, is_leap_year-is_leap y small, leap, left)
            (ground (arith, i.after, closed, leap))
      | inr common ↦
          let left =
            rem-pos (n + short y) (n - year_start y)
              (ground (arith, closed, common, i.after, i.up_to)) in
          rw (year, is_leap_year-is_leap y small, common, left) refl
    ]

-- The date part of `d` is the day `days`, counted from the first of January 1970.
pub record IsOn (d : Date) (days : ℕ) : Type 0 where
  pub years : ℕ
  pub year_is : d.year ≡ pos (1970 + years)
  pub from_january : 1 ≤ d.month
  pub to_december : d.month ≤ 12
  pub from_first : 1 ≤ d.day
  pub to_last : d.day ≤ month_length (is_leap (1970 + years)) d.month
  pub counts :
      year_start years + month_start (is_leap (1970 + years)) (d.month - 1) + (d.day - 1) ≡ days
  pub week_day_is : d.week_day ≡ (days + 4) % 7

abbrev dated : Date → ℕ → ℕ → ℕ → ℕ → Date
dated d days y m day = record d {
  week_day = (days + 4) % 7;
  year = pos (1970 + y);
  month = m;
  day = day;
}

week_day_of-pos : (days : ℕ) → week_day_of (pos days) ≡ (days + 4) % 7
unfolding week_day_of
week_day_of-pos days = ground arith

from_1970 : (time : ℕ) → ltb_ℤ (pos time) (pos 0) ≡ false
from_1970 time = ground arith

year_and_day-exact :
    (fuel days y : ℕ)
    → IsIn (suc days) y
    → y < fuel
    → y ≤ days
    → days < 2 ^ 30
    → year_and_day fuel false (pos days) ≡ some (pos (1970 + y), pos (suc days - year_start y))
unfolding year_and_day
year_and_day-exact fuel days y i f le small =
    let start : pos days +ℤ pos 1 ≡ pos (suc days + short 0) = ground arith in
    let found = year_loop-finds fuel (suc days) y 0 i (omega arith) (omega arith) (omega arith) in
    rw (start, found) (ap (λ (p : ℤ × ℤ). some p) (day_in_year-exact (suc days) y i (omega arith)))

with_date-dated :
    (fuel : ℕ) (d : Date) (time days y m count : ℕ)
    → time / 86400000 ≡ days
    → year_and_day fuel false (pos days) ≡ some (pos (1970 + y), pos (suc days - year_start y))
    → month_loop 11 (month_days (is_leap_year (pos (1970 + y)))) (pos (suc days - year_start y)) 1 0
      ≡ (m, count)
    → count < suc days - year_start y
    → suc days - year_start y ≤ count + 31
    → with_date fuel d (pos time) ≡ some (dated d days y m (suc days - year_start y - count))
unfolding with_date
with_date-dated fuel d time days y m count e found months after within =
    let day : wrap 256 (pos (suc days - year_start y) -ℤ pos count)
        ≡ suc days - year_start y - count =
      ground (arith, after, within) in
    rw (e, from_1970 time, found, months, day, week_day_of-pos days) refl

-- What the fields of the date leave alone.
pub record Keeps (d e : Date) : Type 0 where
  pub same_instant : e.instant ≡ d.instant
  pub same_offset : e.offset ≡ d.offset
  pub same_local : e.is_local ≡ d.is_local
  pub same_changed : e.changed ≡ d.changed

pub month_length-≤ : (leap : Bool) (m : ℕ) → month_length leap m ≤ 31
month_length-≤ leap m = ground arith

pub with_date-IsOn :
    (fuel : ℕ) (d : Date) (time : ℕ)
    → time / 86400000 < 2 ^ 30
    → time / 86400000 < fuel
    → (e : Date) × (with_date fuel d (pos time) ≡ some e) × IsOn e (time / 86400000) × Keeps d e
unfolding year_start
with_date-IsOn fuel d time small f =
    let days = time / 86400000 in
    let (y, i, le) = year_of days in
    let closed = year_start-closed y in
    let leap = is_leap_year-is_leap y (omega (arith, le, small)) in
    let n = suc days - year_start y in
    let k =
      month_loop-IsMonth (is_leap (1970 + y)) n (omega (arith, i.after))
        (ground (arith, i.up_to)) in
    let months : month_loop 11 (month_days (is_leap_year (pos (1970 + y)))) (pos n) 1 0
        ≡ month_loop 11 (month_days (is_leap (1970 + y))) (pos n) 1 0 =
      ap (λ (b : Bool). month_loop 11 (month_days b) (pos n) 1 0) leap in
    (
      dated d days y (month_loop 11 (month_days (is_leap (1970 + y))) (pos n) 1 0).0
          (n - (month_loop 11 (month_days (is_leap (1970 + y))) (pos n) 1 0).1),
      with_date-dated fuel d time days y _ _ refl
          (year_and_day-exact fuel days y i (omega (arith, le)) le small) months k.after
          (omega (
            arith,
            k.within,
            month_length-≤ (is_leap (1970 + y))
                (month_loop 11 (month_days (is_leap (1970 + y))) (pos n) 1 0).0,
          )),
      record {
        years = y;
        year_is = refl;
        from_january = k.from_january;
        to_december = k.to_december;
        from_first = omega (arith, k.after);
        to_last = omega (arith, k.within);
        counts = omega (arith, k.after, k.starts, i.after);
        week_day_is = refl;
      },
      record { same_instant = refl; same_offset = refl; same_local = refl; same_changed = refl },
    )

-- The fields of `d` are those of the time `t`.
pub record HasFields (d : Date) (t : ℕ) : Type 0 where
  pub on : IsOn d (t / 86400000)
  pub hour_fits : d.hour < 24
  pub minute_fits : d.minute < 60
  pub second_fits : d.second < 60
  pub millisecond_fits : d.millisecond < 1000
  pub clock_is :
      d.hour * 3600000 + d.minute * 60000 + d.second * 1000 + d.millisecond ≡ t % 86400000

with_clock-pos :
    (d : Date) (c : ℕ)
    → c < 86400000
    → with_clock d (pos c) ≡ record d {
      hour = c / 3600000;
      minute = c % 3600000 / 60000;
      second = c % 3600000 % 60000 / 1000;
      millisecond = c % 3600000 % 60000 % 1000;
    }
unfolding with_clock
with_clock-pos d c h =
    let a : rem (pos c) 3600000 ≡ pos (c % 3600000) = ground arith in
    let b : rem (pos (c % 3600000)) 60000 ≡ pos (c % 3600000 % 60000) = ground arith in
    let e : wrap 256 (quot (pos c) 3600000) ≡ c / 3600000 = ground arith in
    let f : wrap 256 (quot (pos (c % 3600000)) 60000) ≡ c % 3600000 / 60000 = ground arith in
    let g : wrap 256 (quot (pos (c % 3600000 % 60000)) 1000) ≡ c % 3600000 % 60000 / 1000 =
      ground arith in
    let i : wrap (2 ^ 16) (rem (pos (c % 3600000 % 60000)) 1000) ≡ c % 3600000 % 60000 % 1000 =
      ground arith in
    rw (a, b, e, f, g, i) refl

clock-HasFields :
    (d : Date) (t : ℕ) → IsOn d (t / 86400000) → HasFields (with_clock d (pos (t % 86400000))) t
clock-HasFields d t o =
    subst (λ (x : Date). HasFields x t) (sym (with_clock-pos d (t % 86400000) (omega arith)))
      (record {
        on = record {
          years = o.years;
          year_is = o.year_is;
          from_january = o.from_january;
          to_december = o.to_december;
          from_first = o.from_first;
          to_last = o.to_last;
          counts = o.counts;
          week_day_is = o.week_day_is;
        };
        hour_fits = omega arith;
        minute_fits = omega arith;
        second_fits = omega arith;
        millisecond_fits = omega arith;
        clock_is = omega arith;
      })

time_of_day-pos : (t : ℕ) → time_of_day (pos t) ≡ pos (t % 86400000)
unfolding time_of_day
time_of_day-pos t = ground arith

-- `e` is the time `time` with that offset, and its fields are those of `t`.
pub record Shows (e : Date) (time value : ℤ) (is_local : Bool) (t : ℕ) : Type 0 where
  pub fields : HasFields e t
  pub instant_is : e.instant ≡ time
  pub offset_is : e.offset ≡ value
  pub local_is : e.is_local ≡ is_local
  pub changed_is : e.changed ≡ false

clock-Shows :
    (d e : Date) (time value : ℤ) (is_local : Bool) (t : ℕ)
    → Keeps d e
    → IsOn e (t / 86400000)
    → d.instant ≡ time
    → d.offset ≡ value
    → d.is_local ≡ is_local
    → d.changed ≡ false
    → Shows (with_clock e (pos (t % 86400000))) time value is_local t
unfolding with_clock
clock-Shows d e time value is_local t k o i v l c = record {
  fields = clock-HasFields e t o;
  instant_is = k.same_instant ∙ i;
  offset_is = k.same_offset ∙ v;
  local_is = k.same_local ∙ l;
  changed_is = k.same_changed ∙ c;
}

-- A time whose sum with its offset is not negative and below 2 ^ 53, the offset known without the
-- rules of summer time, with more fuel than days since 1970: `update` returns. The date keeps the
-- time and the offset and has not changed. Counted year by year and month by month, its fields are
-- the day of that sum with its day of the week, the day within its month, and the clock within the
-- day.
pub update-Shows :
    (fuel : ℕ) (zone : Zone) (d : Date) (time offset value : ℤ) (kind : TimeType) (is_local : Bool)
    (t : ℕ)
    → resolve zone time offset ≡ (value, kind, is_local)
    → by_rules kind ≡ false
    → time +ℤ value ≡ pos t
    → t < 2 ^ 53
    → t / 86400000 < fuel
    → (e : Date) × (update fuel zone d time offset ≡ some e) × Shows e time value is_local t
unfolding update
update-Shows fuel zone d time offset value kind is_local t known fixed moved small f =
    let start : Date = record d {
      instant = time;
      changed = false;
      offset = value;
      is_local = is_local;
      is_dst = in_summer kind;
    } in
    let (dated, found, on, kept) = with_date-IsOn fuel start t (omega arith) f in
    (
      with_clock dated (pos (t % 86400000)),
      rw (known, moved, time_of_day-pos t, found, fixed) refl,
      clock-Shows start dated time value is_local t kept on refl refl refl refl,
    )
