-- ===== src/Date/Setters.antt =====
-- What the setters of `Date` make of a date that has its fields, and what `yearDay` counts.
use mona_server.Base.{
  ℕ, zero, suc, ◌+◌, ◌-◌, ◌*◌, ◌%◌, ◌^◌, ◌≤◌, ◌<◌, ◌≡◌, ◌≢◌, ◌⊎◌, refl, ap, ◌∙◌, Bool, true, false,
  some, none, ltb, ◌==◌, arith, inl, inr, Bool-cases,
}
use mona_server.Base.Bits.{bit_and-low}
use mona_server.Base.Integers.{ℤ, pos, ◌+ℤ◌, ◌-ℤ◌, eqb_ℤ}
use mona_server.Date.{Date, Zone, is_leap_year, gmt, local}
use mona_server.Date.Fields.{
  set_day, put_day, day_of_month, filled, set_offset, moved, day_from, clamped,
}
use mona_server.Date.Calendar.{
  is_leap, month_length, month_start, year_start, year_start-closed, is_leap_year-is_leap,
}
use mona_server.Date.Exact.{IsOn, Shows, month_length-≤}
use mona_server.Date.RoundTrip.{month_days-month_start}

-- The month and the year of a date that has its fields.
pub record HasMonth (d : Date) (years : ℕ) : Type 0 where
  pub filled_in : 1 ≤ d.day
  pub from_january : 1 ≤ d.month
  pub to_december : d.month ≤ 12
  pub year_is : d.year ≡ pos (1970 + years)
  pub year_fits : years < 2 ^ 31

-- `e` is `d` at another day of its month, `day` itself if the month has it.
pub record OnDay (d : Date) (years day : ℕ) (e : Date) : Type 0 where
  pub same_year : e.year ≡ d.year
  pub same_month : e.month ≡ d.month
  pub from_first : 1 ≤ e.day
  pub to_last : e.day ≤ month_length (is_leap (1970 + years)) d.month
  pub is_day : (1 ≤ day) × (day ≤ month_length (is_leap (1970 + years)) d.month) → e.day ≡ day

day_of_month-fits :
    (month : ℕ) (leap : Bool) (day : ℕ)
    → 1 ≤ month
    → month ≤ 12
    → 28 < day
    → day ≤ 31
    → (1 ≤ day_of_month month leap day)
      × (day_of_month month leap day ≤ month_length leap month)
      × (day ≤ month_length leap month → day_of_month month leap day ≡ day)
unfolding day_of_month
day_of_month-fits month leap day first last low high =
    let odd = bit_and-low 1 month in
    (ground (arith, odd), ground (arith, odd), λ fits. ground (arith, odd, fits))

put_day-OnDay :
    (d : Date) (years day value : ℕ)
    → 1 ≤ value
    → value ≤ month_length (is_leap (1970 + years)) d.month
    → ((1 ≤ day) × (day ≤ month_length (is_leap (1970 + years)) d.month) → value ≡ day)
    → OnDay d years day (put_day d value)
unfolding put_day
put_day-OnDay d years day value first last is_day =
    let put : (put_day d value).day ≡ value = ground arith in
    record {
      same_year = ground arith;
      same_month = ground arith;
      from_first = omega (arith, put);
      to_last = omega (arith, put);
      is_day = λ h. put ∙ is_day h;
    }

-- A date that has its fields, in a month from 1 to 12 of a year from 1970 on and before 1970 + 2 ^
-- 31, is set to a day of another number: `setDay` returns, keeps the year and the month, and
-- leaves a day that this month has, the one asked for if it is such.
pub set_day-OnDay :
    (fuel : ℕ) (zone : Zone) (now : ℤ) (d : Date) (years day : ℕ)
    → HasMonth d years
    → day ≢ d.day
    → (e : Date) × (set_day fuel zone now d day ≡ some e) × OnDay d years day e
unfolding set_day filled
set_day-OnDay fuel zone now d years day h other =
    let leap = ap is_leap_year h.year_is ∙ is_leap_year-is_leap years h.year_fits in
    let has_day : ltb 0 d.day ≡ true = ground (arith, h.filled_in) in
    let not_same : (day == d.day) ≡ false = ground (arith, other) in
    let full : (d.day == 0) ≡ false = ground (arith, h.filled_in) in
    let value : ℕ = clamped 1 31 day in
    let length = month_length (is_leap (1970 + years)) d.month in
    elim (Bool-cases (ltb 28 value)) [
      | inl late ↦
          let fits =
            day_of_month-fits d.month (is_leap (1970 + years)) value h.from_january h.to_december
              (ground (arith, late)) (ground arith) in
          (
            put_day d (day_of_month d.month (is_leap (1970 + years)) value),
            rw (has_day, not_same, late, full, leap) refl,
            put_day-OnDay d years day _ fits.0 fits.1 (λ in_month.
                let same : value ≡ day =
                  ground (arith, in_month, month_length-≤ (is_leap (1970 + years)) d.month) in
                fits.2 (omega (arith, same, in_month)) ∙ same),
          )
      | inr early ↦ (
        put_day d value,
        rw (has_day, not_same, early) refl,
        put_day-OnDay d years day value (ground arith) (ground (arith, early))
            (λ in_month. ground (arith, in_month, early)),
      )
    ]

month_start-≤ : (leap : Bool) (m : ℕ) → month_start leap m ≤ 31 * m
unfolding month_start
month_start-≤ leap zero = omega arith
month_start-≤ leap (suc m) = omega (arith, month_start-≤ leap m, month_length-≤ leap (suc m))

month_start_next :
    (leap : Bool) (m : ℕ)
    → 1 ≤ m
    → month_start leap m ≡ month_start leap (m - 1) + month_length leap m
unfolding month_start
month_start_next leap zero h = absurd (omega arith)
month_start_next leap (suc m) h = let e : suc m - 1 ≡ m = omega arith in rw e refl

late_day :
    (d : Date) (days : ℕ) (o : IsOn d days)
    → d.month < 12
    → (d.day + month_start (is_leap (1970 + o.years)) d.month - 1) % 2 ^ 16
      ≡ days - year_start o.years + month_length (is_leap (1970 + o.years)) d.month
late_day d days o h =
    let leap = is_leap (1970 + o.years) in
    omega (
      arith,
      o.from_first,
      o.to_last,
      o.counts,
      month_start_next leap d.month o.from_january,
      month_start-≤ leap (d.month - 1),
      month_length-≤ leap d.month,
    )

-- The fields of a date are those of a day before 2 ^ 31: `yearDay` is the number of the day in its
-- year, from 0 on, plus the length of its month, and in December it reads past the end of its
-- table.
day_from_late :
    (d : Date) (days : ℕ) (o : IsOn d days)
    → days < 2 ^ 31
    → ((d.month < 12)
        × (day_from d
            ≡ some
                (days - year_start o.years + month_length (is_leap (1970 + o.years)) d.month, d)))
      ⊎ ((d.month ≡ 12) × (day_from d ≡ none))
unfolding day_from month_start
day_from_late d days o small =
    let leap =
      ap is_leap_year o.year_is
      ∙ is_leap_year-is_leap o.years (ground (arith, o.counts, year_start-closed o.years, small)) in
    elim (Bool-cases (ltb d.month 12)) [
      | inl within ↦ inl (
        ground (arith, within),
        rw
            (
              within,
              leap,
              month_days-month_start (is_leap (1970 + o.years)) d.month (ground (arith, within)),
            )
            (ap (λ (n : ℕ). some (n, d)) (late_day d days o (ground (arith, within)))),
      )
      | inr december ↦ inr (ground (arith, december, o.to_december), rw december refl)
    ]

moved_fixed :
    (d : Date) (offset : ℤ)
    → d.changed ≡ false
    → (moved d offset).instant ≡ d.instant -ℤ d.offset -ℤ offset
unfolding moved
moved_fixed d offset e = rw e refl

-- A date that shows the fields of `t` at a fixed offset `old` gets another fixed offset by
-- `setOffset`: it should become the time `t` less the new offset, but it is twice the old offset
-- earlier.
set_offset_drifts :
    (d : Date) (time old offset : ℤ) (t : ℕ)
    → Shows d time old false t
    → time +ℤ old ≡ pos t
    → eqb_ℤ offset gmt ≡ false
    → eqb_ℤ offset local ≡ false
    → (set_offset d offset).instant +ℤ offset +ℤ old +ℤ old ≡ pos t
unfolding set_offset
set_offset_drifts d time old offset t s sum no_gmt no_local =
    let full : (d.day == 0) ≡ false = ground (arith, s.fields.on.from_first) in
    let instant =
      moved_fixed d offset s.changed_is
      ∙ ap (λ (o : ℤ). d.instant -ℤ o -ℤ offset) s.offset_is
      ∙ ap (λ (i : ℤ). i -ℤ old -ℤ offset) s.instant_is in
    let after : (set_offset d offset).instant ≡ time -ℤ old -ℤ offset =
      rw (full, no_gmt, no_local) instant in
    ap (λ (i : ℤ). i +ℤ offset +ℤ old +ℤ old) after
    ∙ ap (λ (i : ℤ). i +ℤ old +ℤ old) (sub-add (time -ℤ old) offset)
    ∙ ap (λ (i : ℤ). i +ℤ old) (sub-add time old)
    ∙ sum
  where
    sub-add : (a b : ℤ) → a -ℤ b +ℤ b ≡ a
    sub-add a b = ground arith
