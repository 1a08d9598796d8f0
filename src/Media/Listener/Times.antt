-- ===== src/Media/Listener/Times.antt =====
-- `computeTime` with a base and what is added to it.
use mona_server.Base.{
  ℕ, ◌+◌, ◌-◌, ◌<◌, ◌≤◌, ◌^◌, ◌%◌, ◌≡◌, refl, true, false, ◌||◌, ltb, ◌==◌, if◌then◌else◌, arith,
}
use mona_server.Base.Words.{add32, sub32}
use mona_server.Media.Listener.{Listener, clocked, compute_time}

-- A time from the base on, that fits with what is added.
pub record Follows (base adding t : ℕ) : Type 0 where
  pub some_time : 0 < t
  pub after_base : base ≤ t
  pub fits : t + adding < 2 ^ 32

pub record Based (base adding : ℕ) (l : Listener) : Type 0 where
  pub not_first : l.first_time ≡ false
  pub delta_is : l.delta_time ≡ base
  pub adding_is : l.adding_time ≡ adding

shift :
    (base adding t : ℕ) → Follows base adding t → add32 (sub32 t base) adding ≡ t - base + adding
shift base adding t f = omega (arith, f.after_base, f.fits)

pub compute_one :
    (now base adding t : ℕ) (l : Listener)
    → Based base adding l
    → Follows base adding t
    → ((compute_time now l t).time ≡ t - base + adding) × Based base adding (compute_time now l t)
unfolding compute_time clocked
compute_one now base adding t l b f =
    let clock : (if t == 0 then sub32 (now % 2 ^ 32) (l.updated % 2 ^ 32) else t) ≡ t =
      ground (arith, f.some_time) in
    let delta : (if l.first_time || ltb t l.delta_time then t else l.delta_time) ≡ base =
      ground (arith, b.not_first, b.delta_is, f.after_base) in
    (
      rw (clock, delta, b.adding_is) (shift base adding t f),
      record { not_first = refl; delta_is = rw (clock, delta) refl; adding_is = b.adding_is },
    )

pub compute_first :
    (now t : ℕ) (l : Listener)
    → l.first_time ≡ true
    → Follows t l.adding_time t
    → ((compute_time now l t).time ≡ t - t + l.adding_time)
      × Based t l.adding_time (compute_time now l t)
unfolding compute_time clocked
compute_first now t l first f =
    let clock : (if t == 0 then sub32 (now % 2 ^ 32) (l.updated % 2 ^ 32) else t) ≡ t =
      ground (arith, f.some_time) in
    let delta : (if l.first_time || ltb t l.delta_time then t else l.delta_time) ≡ t =
      ground (arith, first) in
    (
      rw (clock, delta) (shift t l.adding_time t f),
      record { not_first = refl; delta_is = rw (clock, delta) refl; adding_is = refl },
    )
