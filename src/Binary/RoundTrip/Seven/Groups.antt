-- ===== src/Binary/RoundTrip/Seven/Groups.antt =====
-- The groups that both loops go through.
use mona_server.Base.{
  ℕ, zero, suc, ◌+◌, ◌-◌, ◌*◌, ◌/◌, ◌%◌, ◌^◌, ◌≤◌, ◌<◌, ◌≡◌, refl, sym, ap, ◌∙◌, subst, Bool, false,
  List, [], ◌∷◌, ◌++◌, ltb, ◌==◌, bit_and, bit_or, arith, le→leb, lt→leb_false, drop, ◌≢◌,
}
use native.Mathlib.Nat.{div-div-eq-div-mul, div-le_self, pow-suc}
use native.Mathlib.Numerals.{towards_suc}
use mona_server.Base.Bits.{bit_and-low, bit_and-shifted, bit_or-add}
use mona_server.Binary.Reader.{Reader, read8, seven_loop}
use mona_server.Binary.Reader.Rest.{At, read8-cons}
use mona_server.Binary.Writer.{write8, seven_out}
use mona_server.Binary.Writer.Appends.{Writes, write8-Writes, Writes-then, Writes-none}

-- The shift of the `k`-th group above bit `s`.
abbrev pub shift_of : ℕ → ℕ → ℕ
shift_of zero s = s
shift_of (suc k) s = shift_of k s + 7

-- The bytes of `k` groups of `v` above the last byte, which has the bits below `s + 7`.
abbrev pub heads : ℕ → ℕ → ℕ → List ℕ
heads v zero s = []
heads v (suc k) s = (128 + v / 2 ^ shift_of (suc k) s % 128) ∷ heads v k s

pub not_the_end : (v s last : ℕ) (tail : List ℕ) (k : ℕ) → [] ≢ heads v k s ++ last ∷ tail
not_the_end v s last tail zero e = cc
not_the_end v s last tail (suc k) e = cc

pub shift_of-eq : (k s : ℕ) → shift_of k s ≡ 7 * k + s
shift_of-eq zero s = omega arith
shift_of-eq (suc k) s = omega (arith, shift_of-eq k s)

wider : (p : ℕ) → 2 ^ (p + 7) ≡ 2 ^ p * 128
wider p = simp towards_suc (omega arith)

seven_more : (v p : ℕ) → v / 2 ^ (p + 7) ≡ v / 2 ^ p / 128
seven_more v p = ap (λ (t : ℕ). v / t) (wider p) ∙ sym (div-div-eq-div-mul v (2 ^ p) 128)

pub groups_width : (k : ℕ) → 2 ^ (shift_of k 0 + 7) ≡ 128 ^ suc k
groups_width zero = refl
groups_width (suc k) = omega (arith, wider (shift_of k 0 + 7), pow-suc 128 (suc k), groups_width k)

-- A byte with the top bit set, and its two parts.
pub marked : (x : ℕ) → bit_or 0x80 (bit_and x 0x7f) ≡ 128 + x % 128
marked x = ground (arith, bit_and-low 7 x, bit_or-add 7 1 (x % 128))

pub top_bit : (c : ℕ) → bit_and c 0x80 ≡ c / 128 % 2 * 128
top_bit c = bit_and-shifted 7 1 c

back_by_seven : (p : ℕ) → p + 7 - 7 ≡ p
back_by_seven p = omega arith

-- The loop of the writers puts out the groups.
pub seven_out-Writes :
    (flip : Bool) (v s k fuel : ℕ)
    → s < 7
    → k < fuel
    → Writes flip (λ w. seven_out fuel w v (shift_of k s)) (heads v k s)
unfolding seven_out
seven_out-Writes flip v s k zero hs h = absurd (omega arith)
seven_out-Writes flip v s zero (suc fuel) hs h = rw (lt→leb_false 7 s hs) (Writes-none flip)
seven_out-Writes flip v s (suc k) (suc fuel) hs h =
    let p = shift_of k s in
    let c = bit_or 0x80 (bit_and (v / 2 ^ (p + 7)) 0x7f) in
    let e = marked (v / 2 ^ (p + 7)) in
    rw (le→leb 7 (p + 7) (omega arith), back_by_seven p)
      (Writes-then flip (λ w. write8 w c) (λ w. seven_out fuel w v p)
        ((128 + v / 2 ^ (p + 7) % 128) ∷ []) (heads v k s)
        (rw e (write8-Writes flip (128 + v / 2 ^ (p + 7) % 128) (omega arith)))
        (seven_out-Writes flip v s k fuel hs (omega arith)))

-- One step of the readers: the bits of `v` from `p + 7` on, and the group below them.
module _ (shl : ℕ → ℕ → ℕ) (v : ℕ) (keeps : (x : ℕ) → x * 128 ≤ v → shl x 7 ≡ x * 128) where
  group_joins :
      (p b : ℕ)
      → b ≡ 128 + v / 2 ^ p % 128
      → bit_or (shl (v / 2 ^ (p + 7)) 7) (bit_and b 0x7f) ≡ v / 2 ^ p
  group_joins p b e =
      let x : ℕ = v / 2 ^ p in
      let high = seven_more v p in
      let below : x ≤ v = div-le_self v (2 ^ p) in
      ground (
        arith,
        high,
        keeps (x / 128) (omega arith),
        ap (λ (t : ℕ). shl t 7) high,
        bit_and-low 7 b,
        bit_or-add 7 (x / 128) (x % 128),
      )

  -- The loop of the readers takes the groups in again, onto the bits of `v` above them.
  module _ (s last : ℕ) (tail : List ℕ) where
    one_round :
        (k rounds b y : ℕ) (r after : Reader)
        → b ≡ 128 + v / 2 ^ shift_of (suc k) s % 128
        → (read8 r).0 ≡ y
        → seven_loop shl rounds (v / 2 ^ (shift_of k s + 7)) y (read8 r).1
          ≡ (ltb k rounds, v / 2 ^ (s + 7), last, after)
        → seven_loop shl (suc rounds) (v / 2 ^ (shift_of (suc k) s + 7)) b r
          ≡ (ltb (suc k) (suc rounds), v / 2 ^ (s + 7), last, after)
    unfolding seven_loop
    one_round k rounds b y r after marks got eq =
        let test : (bit_and b 0x80 == 0) ≡ false = ground (arith, top_bit b) in
        let next = group_joins (shift_of (suc k) s) b marks in
        rw (test, next, got, eq) (ap (λ t. (t, v / 2 ^ (s + 7), last, after)) (ground arith))

    pub seven_loop_lem :
        (k rounds b : ℕ) (xs : List ℕ) (r : Reader)
        → k ≤ rounds
        → b ∷ xs ≡ heads v k s ++ last ∷ tail
        → (k < rounds → last / 128 % 2 ≡ 0)
        → At r xs
        → (after : Reader) × (seven_loop shl rounds (v / 2 ^ (shift_of k s + 7)) b r
            ≡ (ltb k rounds, v / 2 ^ (s + 7), last, after))
          × At after tail
    unfolding seven_loop
    seven_loop_lem zero zero b xs r h e clear a = (r, cc, subst (At r) (cc) a)
    seven_loop_lem zero (suc rounds) b xs r h e clear a =
        (r, ground (arith, top_bit b, clear (omega arith)), subst (At r) (cc) a)
    seven_loop_lem (suc k) zero b xs r h e clear a = absurd (omega arith)
    seven_loop_lem (suc k) (suc rounds) b [] r h e clear a =
        absurd (not_the_end v s last tail k (ap (drop 1) e))
    seven_loop_lem (suc k) (suc rounds) b (y ∷ ys) r h e clear a =
        let (got, left) = read8-cons r y ys a in
        let (after, eq, here) =
          seven_loop_lem k rounds y ys (read8 r).1 (omega arith) (ap (drop 1) e)
            (λ lt. clear (omega arith)) left in
        (after, one_round k rounds b y r after (cc) got eq, here)
