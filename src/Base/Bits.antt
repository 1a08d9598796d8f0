-- ===== src/Base/Bits.antt =====
-- `&` with a low mask and `|` of disjoint fields, as arithmetic.
use Prim.Native.Nat.{
  ℕ, zero, suc, ◌+◌, ◌-◌, ◌*◌, ◌/◌, ◌%◌, ◌^◌, ◌≤◌, ◌<◌, min, max, bit_and, bit_or, digits,
  bit_and-bitwise, bit_or-bitwise, bit_xor, bit_xor-bitwise, differ,
}
use mathlib.Core.Path.{◌≡◌, refl, ap, ◌∙◌}
use native.Mathlib.Omega.{arith}
use native.Mathlib.Nat.{pow-suc, pow-succ', one-le-pow, div-div-eq-div-mul}

module _ (z : ℕ → ℕ) (f : ℕ → ℕ → ℕ) (even : (b : ℕ) → z b ≡ z (b / 2) * 2 + f 0 (b % 2)) where
  -- More rounds than the first number has digits change nothing.
  digits_rounds : (n m a b : ℕ) → a ≤ n → a ≤ m → digits z f n a b ≡ digits z f m a b
  digits_rounds zero zero a b p q = refl
  digits_rounds zero (suc m) zero b p q = refl
  digits_rounds zero (suc m) (suc a) b p q = absurd (omega arith)
  digits_rounds (suc n) zero zero b p q = refl
  digits_rounds (suc n) zero (suc a) b p q = absurd (omega arith)
  digits_rounds (suc n) (suc m) zero b p q = refl
  digits_rounds (suc n) (suc m) (suc a) b p q =
      ap (λ (t : ℕ). t * 2 + f (suc a % 2) (b % 2))
        (digits_rounds n m (suc a / 2) (b / 2) (omega arith) (omega arith))

  -- The lowest digit apart.
  digits_lowest :
      (a b : ℕ) → digits z f a a b ≡ digits z f (a / 2) (a / 2) (b / 2) * 2 + f (a % 2) (b % 2)
  digits_lowest zero b = even b
  digits_lowest (suc a) b =
      ap (λ (t : ℕ). t * 2 + f (suc a % 2) (b % 2))
        (digits_rounds a (suc a / 2) (suc a / 2) (b / 2) (omega arith) (omega arith))

pub bit_and_digit : (a b : ℕ) → bit_and a b ≡ bit_and (a / 2) (b / 2) * 2 + min (a % 2) (b % 2)
bit_and_digit a b = simp bit_and-bitwise (digits_lowest (λ _. 0) min (λ c. omega arith) a b)

pub bit_or_digit : (a b : ℕ) → bit_or a b ≡ bit_or (a / 2) (b / 2) * 2 + max (a % 2) (b % 2)
bit_or_digit a b = simp bit_or-bitwise (digits_lowest (λ c. c) max (λ c. omega arith) a b)

bit_and-zero_below : (n a : ℕ) → a ≤ n → bit_and a 0 ≡ 0
bit_and-zero_below zero zero h = bit_and-bitwise 0 0
bit_and-zero_below zero (suc a) h = absurd (omega arith)
bit_and-zero_below (suc n) a h =
    omega (arith, bit_and_digit a 0, bit_and-zero_below n (a / 2) (omega arith))

bit_or-zero_below : (n a : ℕ) → a ≤ n → bit_or a 0 ≡ a
bit_or-zero_below zero zero h = bit_or-bitwise 0 0
bit_or-zero_below zero (suc a) h = absurd (omega arith)
bit_or-zero_below (suc n) a h =
    omega (arith, bit_or_digit a 0, bit_or-zero_below n (a / 2) (omega arith))

half_pow : (q k : ℕ) → q * 2 ^ suc k ≡ 2 * (q * 2 ^ k)
half_pow q k = omega (arith, ap (λ (t : ℕ). q * t) (pow-suc 2 k))

-- Splitting a number at bit `k`, `&` with the `k` low ones keeps the low part.
and_low_part : (k q r : ℕ) → r < 2 ^ k → bit_and (q * 2 ^ k + r) (2 ^ k - 1) ≡ r
and_low_part zero q r h =
    omega (arith, bit_and-zero_below (q * 2 ^ 0 + r) (q * 2 ^ 0 + r) (omega arith))
and_low_part (suc k) q r h = ground (
  arith,
  bit_and_digit (q * 2 ^ suc k + r) (2 ^ suc k - 1),
  half_pow q k,
  pow-suc 2 k,
  one-le-pow k 2,
  and_low_part k q (r / 2) (omega (arith, pow-suc 2 k)),
)

-- `a & (2^k - 1)` is the remainder by `2^k`.
pub bit_and-low : (k a : ℕ) → bit_and a (2 ^ k - 1) ≡ a % 2 ^ k
bit_and-low k a = ground (arith, one-le-pow k 2, and_low_part k (a / 2 ^ k) (a % 2 ^ k))

-- `(q << k) | r` is a sum when `r` fits `k` bits.
pub bit_or-add : (k q r : ℕ) → r < 2 ^ k → bit_or (q * 2 ^ k) r ≡ q * 2 ^ k + r
bit_or-add zero q r h =
    let e : r ≡ 0 = omega arith in
    rw e (omega (arith, bit_or-zero_below (q * 2 ^ 0) (q * 2 ^ 0) (omega arith)))
bit_or-add (suc k) q r h = ground (
  arith,
  bit_or_digit (q * 2 ^ suc k) r,
  half_pow q k,
  bit_or-add k q (r / 2) (omega (arith, pow-suc 2 k)),
)

zero-bit_or : (b : ℕ) → bit_or 0 b ≡ b
zero-bit_or b = bit_or-bitwise 0 b

-- `r | (q << k)`, the other way round.
pub bit_or-add_swap : (k q r : ℕ) → r < 2 ^ k → bit_or r (q * 2 ^ k) ≡ r + q * 2 ^ k
bit_or-add_swap zero q r h = rw e (omega (arith, zero-bit_or (q * 2 ^ 0)))
  where
    e : r ≡ 0
    e = omega arith
bit_or-add_swap (suc k) q r h = ground (
  arith,
  bit_or_digit r (q * 2 ^ suc k),
  half_pow q k,
  bit_or-add_swap k q (r / 2) (omega (arith, pow-suc 2 k)),
)

-- `&` with ones at bits `k` up to `k + j` keeps those bits.
pub bit_and-shifted : (k j a : ℕ) → bit_and a ((2 ^ j - 1) * 2 ^ k) ≡ a / 2 ^ k % 2 ^ j * 2 ^ k
bit_and-shifted zero j a = ground (arith, bit_and-low j a)
bit_and-shifted (suc k) j a = ground (
  arith,
  bit_and_digit a ((2 ^ j - 1) * 2 ^ suc k),
  half_pow (2 ^ j - 1) k,
  half_pow (a / 2 / 2 ^ k % 2 ^ j) k,
  pow-succ' 2 k,
  div-div-eq-div-mul a 2 (2 ^ k),
  ap (λ (t : ℕ). t / 2) (half_pow (2 ^ j - 1) k),
  bit_and-shifted k j (a / 2),
)

pub bit_xor_digit : (a b : ℕ) → bit_xor a b ≡ bit_xor (a / 2) (b / 2) * 2 + differ (a % 2) (b % 2)
bit_xor_digit a b = simp bit_xor-bitwise (digits_lowest (λ c. c) differ (λ c. omega arith) a b)

differ_bits : (x y : ℕ) → x < 2 → y < 2 → (differ (differ x y) y ≡ x) × (differ x y < 2)
differ_bits zero zero h k = (refl, omega arith)
differ_bits zero (suc zero) h k = (refl, omega arith)
differ_bits zero (suc (suc y)) h k = absurd (omega arith)
differ_bits (suc zero) zero h k = (refl, omega arith)
differ_bits (suc zero) (suc zero) h k = (refl, omega arith)
differ_bits (suc zero) (suc (suc y)) h k = absurd (omega arith)
differ_bits (suc (suc x)) y h k = absurd (omega arith)

bit_xor_below : (n a b : ℕ) → a + b ≤ n → bit_xor (bit_xor a b) b ≡ a
bit_xor_below zero a b h =
    let a' : a ≡ 0 = omega arith in
    let b' : b ≡ 0 = omega arith in rw (a', b') (ap (λ (x : ℕ). bit_xor x 0) zero_xor ∙ zero_xor)
  where
    zero_xor : bit_xor 0 0 ≡ 0
    zero_xor = refl
bit_xor_below (suc n) a b h =
    let more = bit_xor_below n (a / 2) (b / 2) (omega arith) in
    let bits = differ_bits (a % 2) (b % 2) (omega arith) (omega arith) in
    let x = bit_xor a b in
    let half : x / 2 ≡ bit_xor (a / 2) (b / 2) = omega (arith, bit_xor_digit a b, bits.1) in
    let low : x % 2 ≡ differ (a % 2) (b % 2) = omega (arith, bit_xor_digit a b, bits.1) in
    bit_xor_digit x b
    ∙ ap (λ (y : ℕ). bit_xor y (b / 2) * 2 + differ (x % 2) (b % 2)) half
    ∙ ap (λ (y : ℕ). y * 2 + differ (x % 2) (b % 2)) more
    ∙ ap (λ (y : ℕ). a / 2 * 2 + differ y (b % 2)) low
    ∙ omega (arith, bits.0)

-- A second exclusive or takes the first away.
pub bit_xor-cancel : (a b : ℕ) → bit_xor (bit_xor a b) b ≡ a
bit_xor-cancel a b = bit_xor_below (a + b) a b (omega arith)
