-- ===== src/Date/RoundTrip.antt =====
-- `Date::time` of the fields that `Date::update` has set is the time again.
use mona_server.Base.{
  ℕ, zero, suc, ◌+◌, ◌-◌, ◌*◌, ◌/◌, ◌%◌, ◌^◌, ◌≤◌, ◌<◌, ◌≡◌, ◌⊎◌, refl, ap, sym, ◌∙◌, Bool, true,
  false, ◌||◌, List, [], ◌∷◌, some, length, ◌==◌, if◌then◌else◌, get_or, arith, inl, inr, subst,
}
use mona_server.Base.Integers.{ℤ, pos, ◌+ℤ◌, ◌-ℤ◌, eqb_ℤ, ltb_ℤ, scale}
use mona_server.Date.{
  Date, Zone, month_days, is_leap_year, leap_years, update, resolve, gmt, local, standard,
}
use mona_server.Date.Fields.{time_of_fields, clock_of, days_of, refreshed, time}
use mona_server.Date.Calendar.{
  is_leap, year_start, month_start, year_start-closed, leaps, leap_years-leaps, leaps-suc,
  is_leap_year-is_leap,
}
use mona_server.Date.Exact.{HasFields, Shows, update-Shows}

-- The list has the starts of the months from the `m + 1`-th on.
abbrev HasStarts : Bool → ℕ → List ℕ → Type 0
HasStarts leap m [] = Unit {0}
HasStarts leap m (days ∷ rest) = (days ≡ month_start leap m) × HasStarts leap (suc m) rest

get_or-HasStarts :
    (leap : Bool) (k : ℕ) (table : List ℕ) (m : ℕ)
    → HasStarts leap k table
    → m < length table
    → get_or table m 0 ≡ month_start leap (k + m)
get_or-HasStarts leap k [] m a h = absurd (omega arith)
get_or-HasStarts leap k (days ∷ rest) zero a h = let e : k + 0 ≡ k = omega arith in rw e a.0
get_or-HasStarts leap k (days ∷ rest) (suc m) a h =
    let e : k + suc m ≡ suc k + m = omega arith in
    rw e (get_or-HasStarts leap (suc k) rest m a.1 (omega arith))

pub month_days-month_start :
    (leap : Bool) (m : ℕ) → m < 12 → get_or (month_days leap) m 0 ≡ month_start leap m
unfolding month_days month_start
month_days-month_start true m h =
    let e : 0 + m ≡ m = omega arith in
    subst (λ (k : ℕ). get_or (month_days true) m 0 ≡ month_start true k) e
      (get_or-HasStarts true 0 (month_days true) m
        (
          refl,
          (
            refl,
            (refl, (refl, (refl, (refl, (refl, (refl, (refl, (refl, (refl, (refl, tt)))))))))),
          ),
        )
        h)
month_days-month_start false m h =
    let e : 0 + m ≡ m = omega arith in
    subst (λ (k : ℕ). get_or (month_days false) m 0 ≡ month_start false k) e
      (get_or-HasStarts false 0 (month_days false) m
        (
          refl,
          (
            refl,
            (refl, (refl, (refl, (refl, (refl, (refl, (refl, (refl, (refl, (refl, tt)))))))))),
          ),
        )
        h)

clock_of-HasFields : (d : Date) (t : ℕ) → HasFields d t → clock_of d ≡ t % 86400000
unfolding clock_of
clock_of-HasFields d t h = omega (arith, h.clock_is)

-- The sums of the source, in natural numbers.
sum-sub : (a b c : ℕ) → b ≤ a → pos a -ℤ pos b +ℤ pos c ≡ pos (a - b + c)
sum-sub a b c h = ground arith

from_year : (a y : ℕ) → pos a +ℤ scale (pos (1970 + y) -ℤ pos 1970) 365 ≡ pos (a + y * 365)
from_year a y = ground arith

add-pos : (a b : ℕ) → pos a +ℤ pos b ≡ pos (a + b)
add-pos a b = ground arith

first_day : (day l : ℕ) → 1 ≤ day + l → pos day -ℤ pos 1 +ℤ pos l ≡ pos (day + l - 1)
first_day day l h = ground arith

-- From the first term, shifted or not, to the sum.
sum_from :
    (first : ℤ) (a m y : ℕ)
    → first ≡ pos a
    → first +ℤ pos m +ℤ scale (pos (1970 + y) -ℤ pos 1970) 365 ≡ pos (a + m + y * 365)
sum_from first a m y e =
    ap (λ (z : ℤ). z +ℤ pos m +ℤ scale (pos (1970 + y) -ℤ pos 1970) 365) e
    ∙ ap (λ (z : ℤ). z +ℤ scale (pos (1970 + y) -ℤ pos 1970) 365) (add-pos a m)
    ∙ from_year (a + m) y

shift_one : (a : ℕ) → 1 ≤ a → pos a -ℤ pos 1 ≡ pos (a - 1)
shift_one a h = ground arith

days_of-pos :
    (leap : Bool) (day l m y s : ℕ)
    → 1 ≤ day
    → s + (if leap then 1 else 0) ≡ 365 * y + l
    → (leap ≡ false) ⊎ (1 ≤ l)
    → days_of leap day (pos l) m (pos (1970 + y)) ≡ pos (s + m + (day - 1))
unfolding days_of
days_of-pos true day l m y s h e k =
    let first = pos day -ℤ pos 1 +ℤ pos l in
    let some_leap : 1 ≤ l = elim k [
      | inl never ↦ absurd (ground (arith, never))
      | inr some_l ↦ some_l
    ] in
    let after : ltb_ℤ (pos 0) (pos (1970 + y)) ≡ true = ground arith in
    let shifted : (if ltb_ℤ (pos 0) (pos (1970 + y)) then first -ℤ pos 1 else first)
        ≡ pos (day + l - 1 - 1) =
      ap (λ (b : Bool). if b then first -ℤ pos 1 else first) after
      ∙ ap (λ (z : ℤ). z -ℤ pos 1) (first_day day l (omega arith))
      ∙ shift_one (day + l - 1) (omega arith) in
    sum_from (if ltb_ℤ (pos 0) (pos (1970 + y)) then first -ℤ pos 1 else first) (day + l - 1 - 1) m
      y shifted
    ∙ ap (λ (n : ℕ). pos n) (omega arith)
days_of-pos false day l m y s h e k =
    sum_from (pos day -ℤ pos 1 +ℤ pos l) (day + l - 1) m y (first_day day l (omega arith))
    ∙ ap (λ (n : ℕ). pos n) (omega arith)

leaps_some : (y : ℕ) → (is_leap (1970 + y) ≡ false) ⊎ (1 ≤ leaps y)
leaps_some zero = inl refl
leaps_some (suc y) = ground (arith, leaps-suc y)

whole_time : (days c : ℕ) → scale (pos days) 86400000 +ℤ pos c ≡ pos (days * 86400000 + c)
whole_time days c = ground arith

pub time_of_fields-HasFields :
    (d : Date) (t : ℕ) → t < 2 ^ 53 → HasFields d t → time_of_fields d ≡ pos t
unfolding time_of_fields
time_of_fields-HasFields d t small h =
    let o = h.on in
    let leap =
      is_leap_year-is_leap o.years (ground (arith, o.counts, year_start-closed o.years, small)) in
    let table =
      month_days-month_start (is_leap (1970 + o.years)) (d.month - 1)
        (omega (arith, o.to_december, o.from_january)) in
    let days : days_of (is_leap_year d.year) d.day (leap_years d.year)
          (get_or (month_days (is_leap_year d.year)) (d.month - 1) 0) d.year
        ≡ pos (t / 86400000) =
      rw (o.year_is, leap, leap_years-leaps o.years, table)
        (days_of-pos (is_leap (1970 + o.years)) d.day (leaps o.years)
            (month_start (is_leap (1970 + o.years)) (d.month - 1)) o.years (year_start o.years)
            o.from_first (year_start-closed o.years) (leaps_some o.years)
          ∙ ap (λ (n : ℕ). pos n) o.counts) in
    ap (λ (z : ℤ). scale z 86400000 +ℤ pos (clock_of d)) days
    ∙ ap (λ (c : ℕ). scale (pos (t / 86400000)) 86400000 +ℤ pos c) (clock_of-HasFields d t h)
    ∙ whole_time (t / 86400000) (t % 86400000)
    ∙ ap (λ (n : ℕ). pos n) (omega arith)

cancel : (time offset : ℤ) (t : ℕ) → time +ℤ offset ≡ pos t → pos t -ℤ offset ≡ time
cancel time offset t e = ap (λ (z : ℤ). z -ℤ offset) (sym e) ∙ add-sub time offset
  where
    add-sub : (a b : ℤ) → a +ℤ b -ℤ b ≡ a
    add-sub a b = ground arith

abbrev pub touched : Date → Date
touched d = record d { changed = true }

touched-HasFields : (d : Date) (t : ℕ) → HasFields d t → HasFields (touched d) t
touched-HasFields d t h = record {
  on = record {
    years = h.on.years;
    year_is = h.on.year_is;
    from_january = h.on.from_january;
    to_december = h.on.to_december;
    from_first = h.on.from_first;
    to_last = h.on.to_last;
    counts = h.on.counts;
    week_day_is = h.on.week_day_is;
  };
  hour_fits = h.hour_fits;
  minute_fits = h.minute_fits;
  second_fits = h.second_fits;
  millisecond_fits = h.millisecond_fits;
  clock_is = h.clock_is;
}

pick :
    (b c : Bool) (x y z : Date) → b ≡ false → c ≡ false → (if b then x else if c then y else z) ≡ z
pick b c x y z e f = rw (e, f) refl

neither : {b c : Bool} → b ≡ false → c ≡ false → (b || c) ≡ false
neither e f = rw (e, f) refl

-- A changed date with a fixed offset.
refreshed_fixed :
    (fuel : ℕ) (zone : Zone) (now : ℤ) (d : Date) (time offset : ℤ) (t : ℕ)
    → eqb_ℤ offset gmt ≡ false
    → eqb_ℤ offset local ≡ false
    → t < 2 ^ 53
    → time +ℤ offset ≡ pos t
    → Shows d time offset false t
    → (refreshed fuel zone now (touched d)).instant ≡ time
unfolding refreshed
refreshed_fixed fuel zone now d time offset t no_gmt no_local small moved s =
    let clean : Date = record d {
      instant = time_of_fields (touched d);
      changed = false;
      week_day = 7;
    } in
    let b = ap (λ (o : ℤ). eqb_ℤ o gmt) s.offset_is ∙ no_gmt in
    let c = ap (λ (o : ℤ). eqb_ℤ o local) s.offset_is ∙ no_local in
    let fields : time_of_fields (touched d) ≡ pos t =
      time_of_fields-HasFields (touched d) t small (touched-HasFields d t s.fields) in
    ap (λ (e : Date). time_of_fields (touched d) -ℤ e.offset)
      (pick _ _ _ _ (record clean { is_local = false }) b (neither c s.local_is))
    ∙ ap (λ (z : ℤ). z -ℤ d.offset) fields
    ∙ ap (λ (o : ℤ). pos t -ℤ o) s.offset_is
    ∙ cancel time offset t moved

-- A time is set with a fixed offset that is neither GMT nor LOCAL, their sum not negative and
-- below 2 ^ 53, with more fuel than days since 1970. Then `update` returns, and `time` of its
-- fields, when they count as changed, is that time again.
pub time-update :
    (fuel : ℕ) (zone : Zone) (now : ℤ) (d : Date) (instant offset : ℤ) (t : ℕ)
    → eqb_ℤ offset gmt ≡ false
    → eqb_ℤ offset local ≡ false
    → instant +ℤ offset ≡ pos t
    → t < 2 ^ 53
    → t / 86400000 < fuel
    → (e : Date) × (update fuel zone d instant offset ≡ some e)
      × (time fuel zone now (touched e) ≡ some (instant, refreshed fuel zone now (touched e)))
unfolding time resolve
time-update fuel zone now d instant offset t no_gmt no_local moved small f =
    let known : resolve zone instant offset ≡ (offset, standard, false) =
      rw (no_gmt, no_local) refl in
    let (e, found, s) =
      update-Shows fuel zone d instant offset offset standard false t known refl moved small f in
    let filled : (e.day == 0) ≡ false = ground (arith, s.fields.on.from_first) in
    (
      e,
      found,
      rw filled (
          ap (λ (i : ℤ). some (i, refreshed fuel zone now (touched e)))
            (refreshed_fixed fuel zone now e instant offset t no_gmt no_local small moved s)),
    )
