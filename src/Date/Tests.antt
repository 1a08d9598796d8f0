-- ===== src/Date/Tests.antt =====
-- Runs of `Date` on a few times.
use mona_server.Base.{ℕ, ◌≡◌, refl, true, false, Option, some, none, arith}
use mona_server.Base.Integers.{ℤ, pos, negsuc}
use mona_server.Date.{Date, Zone, gmt, standard, update}
use mona_server.Date.Fields.{set_day, refreshed, time}
use mona_server.Date.Calendar.{is_leap, month_length, year_start}
use mona_server.Date.Exact.{IsOn, Shows, update-Shows}
use mona_server.Date.RoundTrip.{touched, time-update}
use mona_server.Date.Setters.{OnDay, set_day-OnDay}

-- A zone without summer time, an hour before the sun.
abbrev zone : Zone
zone = record {
  local_offset = λ time. (pos 3600000, standard);
  using_rules = λ date clock. (pos 3600000, false);
  of_date = λ date clock. (date, pos 3600000, false);
}

abbrev blank : Date
blank = record {
  instant = pos 0;
  year = pos 0;
  month = 0;
  day = 0;
  week_day = 7;
  hour = 0;
  minute = 0;
  second = 0;
  millisecond = 0;
  offset = gmt;
  is_local = true;
  is_dst = false;
  changed = true;
}

-- Tuesday, the 29th of February 2000, 12:34:56.789 at an offset of an hour.
abbrev leap_day_2000 : Date
leap_day_2000 = record {
  instant = pos 951824096789;
  year = pos 2000;
  month = 2;
  day = 29;
  week_day = 2;
  hour = 12;
  minute = 34;
  second = 56;
  millisecond = 789;
  offset = pos 3600000;
  is_local = false;
  is_dst = false;
  changed = false;
}

update_leap_day : update 20000 zone blank (pos 951824096789) (pos 3600000) ≡ some leap_day_2000
unfolding update mona_server.Date.resolve mona_server.Date.with_date mona_server.Date.year_and_day
    mona_server.Date.year_loop mona_server.Date.day_in_year mona_server.Date.month_loop
    mona_server.Date.month_days mona_server.Date.leap_years mona_server.Date.is_leap_year
    mona_server.Date.with_clock mona_server.Date.week_day_of mona_server.Date.time_of_day
update_leap_day = refl

abbrev fields_of : Option Date → Option (ℤ × ℕ × ℕ × ℕ)
fields_of none = none
fields_of (some d) = some (d.year, d.month, d.day, d.week_day)

-- Before 1970: Wednesday, the 31st of December 1969.
day_before : fields_of (update 20000 zone blank (negsuc 0) (pos 0)) ≡ some (pos 1969, 12, 31, 3)
unfolding update mona_server.Date.resolve mona_server.Date.with_date mona_server.Date.year_and_day
    mona_server.Date.year_loop mona_server.Date.day_in_year mona_server.Date.month_loop
    mona_server.Date.month_days mona_server.Date.leap_years mona_server.Date.is_leap_year
    mona_server.Date.with_clock mona_server.Date.week_day_of mona_server.Date.time_of_day
day_before = refl

leap_day_2000-IsOn : IsOn leap_day_2000 11016
unfolding year_start mona_server.Date.Calendar.month_start
leap_day_2000-IsOn = record {
  years = 30;
  year_is = refl;
  from_january = omega arith;
  to_december = omega arith;
  from_first = omega arith;
  to_last = omega arith;
  counts = refl;
  week_day_is = refl;
}

leap_day_2000-Shows : Shows leap_day_2000 (pos 951824096789) (pos 3600000) false 951827696789
leap_day_2000-Shows = record {
  fields = record {
    on = leap_day_2000-IsOn;
    hour_fits = omega arith;
    minute_fits = omega arith;
    second_fits = omega arith;
    millisecond_fits = omega arith;
    clock_is = refl;
  };
  instant_is = refl;
  offset_is = refl;
  local_is = refl;
  changed_is = refl;
}

update-Shows_example :
    (e : Date) × (update 20000 zone blank (pos 951824096789) (pos 3600000) ≡ some e)
    × Shows e (pos 951824096789) (pos 3600000) false 951827696789
unfolding mona_server.Date.resolve
update-Shows_example =
    update-Shows 20000 zone blank (pos 951824096789) (pos 3600000) (pos 3600000) standard false
      951827696789 refl refl refl (omega arith) (omega arith)

time-update_example :
    (e : Date) × (update 20000 zone blank (pos 951824096789) (pos 3600000) ≡ some e)
    × (time 20000 zone (pos 0) (touched e)
        ≡ some (pos 951824096789, refreshed 20000 zone (pos 0) (touched e)))
time-update_example =
    time-update 20000 zone (pos 0) blank (pos 951824096789) (pos 3600000) 951827696789 refl refl
      refl (omega arith) (omega arith)

set_day-OnDay_example :
    (e : Date) × (set_day 20000 zone (pos 0) leap_day_2000 31 ≡ some e)
    × OnDay leap_day_2000 30 31 e
set_day-OnDay_example =
    set_day-OnDay 20000 zone (pos 0) leap_day_2000 30 31
      (record {
        filled_in = omega arith;
        from_january = omega arith;
        to_december = omega arith;
        year_is = refl;
        year_fits = omega arith;
      })
      (λ e. absurd (omega (arith, e)))
