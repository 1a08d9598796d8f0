-- ===== src/Date/Years.antt =====
-- The loop of `Date::update` over the years finds the year of a day from 1970 on.
use mona_server.Base.{
  ℕ, zero, suc, ◌+◌, ◌-◌, ◌/◌, ◌^◌, ◌≤◌, ◌<◌, ◌≡◌, refl, ap, ◌∙◌, Bool, some, ltb, ◌==◌,
  if◌then◌else◌, arith, inl, inr, ◌≢◌, Bool-cases, subst,
}
use mona_server.Base.Integers.{pos, ◌+ℤ◌, ◌-ℤ◌, eqb_ℤ, quot, wrap_signed}
use mona_server.Date.{year_loop, leap_years}
use mona_server.Date.Calendar.{year_start, year_start-closed, leaps, leaps-suc, leap_years-leaps}

-- The days that the loop adds for the years that are shorter than 366 days.
abbrev pub short : ℕ → ℕ
short p = p - leaps p

leaps-≤ : (p : ℕ) → leaps p ≤ p
leaps-≤ p = omega arith

short_add : (p d : ℕ) → short p ≤ short (p + d)
short_add p zero = omega arith
short_add p (suc d) = ground (arith, short_add p d, leaps-suc (p + d), leaps-≤ (p + d))

pub short_mono : (p y : ℕ) → p ≤ y → short p ≤ short y
short_mono p y h = omega (arith, short_add p (y - p))

year_start_add : (p d : ℕ) → year_start p ≤ year_start (p + d)
unfolding year_start
year_start_add p zero = let e : p + 0 ≡ p = omega arith in omega (arith, ap year_start e)
year_start_add p (suc d) =
    let e : p + suc d ≡ suc (p + d) = omega arith in rw e (ground (arith, year_start_add p d))

year_start_mono : (p y : ℕ) → p ≤ y → year_start p ≤ year_start y
year_start_mono p y h =
    let e : p + (y - p) ≡ y = omega arith in
    omega (arith, year_start_add p (y - p), ap year_start e)

-- The day `n`, from 1 on, is in the year `1970 + y`.
pub record IsIn (n y : ℕ) : Type 0 where
  pub after : year_start y < n
  pub up_to : n ≤ year_start (suc y)

module _ (n y : ℕ) (i : IsIn n y) where
  next_within : (p : ℕ) → p ≤ y → (n + short p) / 366 ≤ y
  unfolding year_start
  next_within p h = ground (arith, i.up_to, short_mono p y h, year_start-closed y, leaps-≤ y)

  next_reaches : (p : ℕ) → p ≤ y → p ≤ (n + short p) / 366
  next_reaches p h = ground (arith, i.after, year_start_mono p y h, year_start-closed p, leaps-≤ p)

  next_moves : (p : ℕ) → p < y → p < (n + short p) / 366
  unfolding year_start
  next_moves p h =
      ground
        (arith, i.after, year_start_mono (suc p) y (omega arith), year_start-closed p, leaps-≤ p)

  stays : (p : ℕ) → p ≤ y → (n + short p) / 366 ≡ p → p ≡ y
  stays p h e = elim (Bool-cases (ltb p y)) [
    | inl less ↦ absurd (omega (arith, e, next_moves p (ground (arith, less))))
    | inr rest ↦ ground (arith, rest, h)
  ]

-- A round of the loop in terms of natural numbers.
quot_round : (a q : ℕ) → a / 366 ≡ q → q < 2 ^ 31 → wrap_signed (2 ^ 32) (quot (pos a) 366) ≡ pos q
quot_round a q e h = ground arith

add_year : (q : ℕ) → pos q +ℤ pos 1970 ≡ pos (1970 + q)
add_year q = ground arith

sub_leaps : (q l : ℕ) → l ≤ q → pos q -ℤ pos l ≡ pos (q - l)
sub_leaps q l h = ground arith

exchange : (n s t : ℕ) → pos (n + s) -ℤ pos s +ℤ pos t ≡ pos (n + t)
exchange n s t = ground arith

delta_of : (q : ℕ) → pos q -ℤ leap_years (pos q +ℤ pos 1970) ≡ pos (short q)
delta_of q = rw (add_year q, leap_years-leaps q) (sub_leaps q (leaps q) (leaps-≤ q))

eqb-pos : (q p : ℕ) → eqb_ℤ (pos q) (pos p) ≡ (q == p)
eqb-pos q p = ground arith

round_of :
    (fuel a s p q : ℕ) (n : ℕ)
    → a ≡ n + s
    → a / 366 ≡ q
    → q < 2 ^ 31
    → year_loop (suc fuel) (pos a) (pos p) (pos s) ≡ (
        if q == p
        then some (pos a, pos p)
        else year_loop fuel (pos (n + short q)) (pos q) (pos (short q)))
unfolding year_loop
round_of fuel a s p q n ea e h =
    let next = quot_round a q e h in
    let days : pos a -ℤ pos s +ℤ pos (short q) ≡ pos (n + short q) =
      rw ea (exchange n s (short q)) in
    rw (next, delta_of q, days, eqb-pos q p) refl

-- The loop from a year that is not past the year looked for.
pub year_loop-finds :
    (fuel n y p : ℕ)
    → IsIn n y
    → p ≤ y
    → y < p + fuel
    → n + short y < 2 ^ 31
    → year_loop fuel (pos (n + short p)) (pos p) (pos (short p)) ≡ some (pos (n + short y), pos y)
year_loop-finds zero n y p i h f small = absurd (omega arith)
year_loop-finds (suc fuel) n y p i h f small =
    let q = (n + short p) / 366 in
    let within = next_within n y i p h in
    let reaches = next_reaches n y i p h in
    let step =
      round_of fuel (n + short p) (short p) p q n refl refl (omega (arith, within, small)) in
    elim (Bool-cases (q == p)) [
      | inl same ↦
          let last : p ≡ y = stays n y i p h (ground (arith, same)) in
          subst
            (λ (k : ℕ).
              year_loop (suc fuel) (pos (n + short p)) (pos p) (pos (short p))
              ≡ some (pos (n + short k), pos k))
            last
            (step
              ∙ ap
                  (λ (b : Bool).
                    if b
                    then some (pos (n + short p), pos p)
                    else year_loop fuel (pos (n + short q)) (pos q) (pos (short q)))
                  same)
      | inr other ↦
          let apart : q ≢ p = λ e. ground (arith, e, other) in
          step
          ∙ ap
              (λ (b : Bool).
                if b
                then some (pos (n + short p), pos p)
                else year_loop fuel (pos (n + short q)) (pos q) (pos (short q)))
              other
          ∙ year_loop-finds fuel n y q i within (omega (arith, reaches, apart, f)) small
    ]
