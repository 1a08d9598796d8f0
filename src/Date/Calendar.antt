-- ===== src/Date/Calendar.antt =====
-- The Gregorian calendar, counted year by year and month by month: what `Date` is measured by.
use mona_server.Base.{
  ℕ, zero, suc, ◌+◌, ◌-◌, ◌*◌, ◌/◌, ◌%◌, ◌^◌, ◌<◌, ◌≡◌, refl, Bool, true, false, ◌||◌, ◌==◌,
  if◌then◌else◌, arith,
}
use mona_server.Base.Bits.{bit_and-low}
use mona_server.Base.Integers.{pos}
use mona_server.Date.{is_leap_year, leap_years}

abbrev pub is_leap : ℕ → Bool
is_leap y = if y % 400 == 0 then true else if y % 100 == 0 then false else y % 4 == 0

abbrev pub month_length : Bool → ℕ → ℕ
month_length leap m =
    if m == 2
    then (if leap then 29 else 28)
    else if (m == 4) || (m == 6) || (m == 9) || (m == 11)
    then 30
    else 31

-- The days from the first of January 1970 to that of the year `1970 + k`.
unfoldable pub year_start : ℕ → ℕ
year_start zero = 0
year_start (suc k) = year_start k + (if is_leap (1970 + k) then 366 else 365)

-- The days from the first of January to the first of the month `m + 1`.
unfoldable pub month_start : Bool → ℕ → ℕ
month_start leap zero = 0
month_start leap (suc m) = month_start leap m + month_length leap (suc m)

-- The leap days from 1970 up to the end of `1970 + k`.
abbrev pub leaps : ℕ → ℕ
leaps k = (1970 + k) / 4 + (1970 + k) / 400 - (1970 + k) / 100 - 477

abbrev pub leap_day : ℕ → ℕ
leap_day k = if is_leap (1970 + k) then 1 else 0

pub leaps-suc : (k : ℕ) → leaps (suc k) ≡ leaps k + leap_day (suc k)
leaps-suc k = ground arith

pub year_start-closed : (k : ℕ) → year_start k + leap_day k ≡ 365 * k + leaps k
unfolding year_start
year_start-closed zero = refl
year_start-closed (suc k) = ground (arith, year_start-closed k, leaps-suc k)

pub leap_years-leaps : (k : ℕ) → leap_years (pos (1970 + k)) ≡ pos (leaps k)
unfolding leap_years
leap_years-leaps k = ground arith

pub is_leap_year-is_leap : (k : ℕ) → k < 2 ^ 31 → is_leap_year (pos (1970 + k)) ≡ is_leap (1970 + k)
unfolding is_leap_year
is_leap_year-is_leap k h = ground (arith, bit_and-low 2 ((1970 + k) % 2 ^ 32))
