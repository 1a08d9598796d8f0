-- ===== src/Binary/Flips.antt =====
-- The flips reverse the bytes of a word.
use mona_server.Base.{ℕ, zero, suc, ◌+◌, ◌*◌, ◌/◌, ◌%◌, ◌^◌, ◌<◌, ◌≡◌, ap, [], ◌∷◌, arith}
use native.Mathlib.Nat.{pow-suc}
use mona_server.Base.Bits.{bit_and-low, bit_and-shifted, bit_or-add_swap}
use mona_server.Base.Words.{IsU16, IsU32, IsU64}
use mona_server.Binary.{load, store, flip16, flip24, flip32, flip64}

pub flip16_lem : (v : ℕ) → IsU16 v → flip16 v ≡ v / 2 ^ 8 + v % 2 ^ 8 * 2 ^ 8
unfolding flip16
flip16_lem v h = ground (
  arith,
  bit_and-low 8 (v / 2 ^ 8),
  bit_and-shifted 8 8 (v * 2 ^ 8),
  bit_or-add_swap 8 (v % 2 ^ 8) (v / 2 ^ 8),
)

pub flip24_lem :
    (v : ℕ) → v < 2 ^ 24 → flip24 v ≡ v / 2 ^ 16 + v / 2 ^ 8 % 2 ^ 8 * 2 ^ 8 + v % 2 ^ 8 * 2 ^ 16
unfolding flip24
flip24_lem v h = ground (
  arith,
  bit_and-low 8 (v / 2 ^ 16),
  bit_and-shifted 8 8 v,
  bit_and-shifted 16 8 (v * 2 ^ 16 % 2 ^ 32),
  bit_or-add_swap 8 (v / 2 ^ 8 % 2 ^ 8) (v / 2 ^ 16),
  bit_or-add_swap 16 (v % 2 ^ 8) (v / 2 ^ 16 + v / 2 ^ 8 % 2 ^ 8 * 2 ^ 8),
)

pub flip32_lem :
    (v : ℕ)
    → IsU32 v
    → flip32 v
      ≡ v / 2 ^ 24 + v / 2 ^ 16 % 2 ^ 8 * 2 ^ 8 + v / 2 ^ 8 % 2 ^ 8 * 2 ^ 16 + v % 2 ^ 8 * 2 ^ 24
unfolding flip32
flip32_lem v h = ground (
  arith,
  bit_and-low 8 (v / 2 ^ 24),
  bit_and-shifted 8 8 (v / 2 ^ 8),
  bit_and-shifted 16 8 (v * 2 ^ 8 % 2 ^ 32),
  bit_and-shifted 24 8 (v * 2 ^ 24 % 2 ^ 32),
  bit_or-add_swap 8 (v / 2 ^ 16 % 2 ^ 8) (v / 2 ^ 24),
  bit_or-add_swap 16 (v / 2 ^ 8 % 2 ^ 8) (v / 2 ^ 24 + v / 2 ^ 16 % 2 ^ 8 * 2 ^ 8),
  bit_or-add_swap 24 (v % 2 ^ 8)
      (v / 2 ^ 24 + v / 2 ^ 16 % 2 ^ 8 * 2 ^ 8 + v / 2 ^ 8 % 2 ^ 8 * 2 ^ 16),
)

flip32-IsU32 : (v : ℕ) → IsU32 v → IsU32 (flip32 v)
flip32-IsU32 v h = omega (arith, flip32_lem v h)

flip64_lem : (v : ℕ) → IsU64 v → flip64 v ≡ flip32 (v / 2 ^ 32) + flip32 (v % 2 ^ 32) * 2 ^ 32
unfolding flip64
flip64_lem v h = ground (
  arith,
  bit_and-low 32 v,
  flip32-IsU32 (v / 2 ^ 32) (omega arith),
  flip32-IsU32 (v % 2 ^ 32) (omega arith),
  bit_or-add_swap 32 (flip32 (v % 2 ^ 32)) (flip32 (v / 2 ^ 32)),
)

-- Each flip undoes itself on the words of its width.
pub flip16_involutive : (v : ℕ) → IsU16 v → IsU16 (flip16 v) × (flip16 (flip16 v) ≡ v)
flip16_involutive v h =
    let e = flip16_lem v h in
    let small : IsU16 (flip16 v) = omega arith in
    (small, omega (arith, flip16_lem (flip16 v) small))

pub flip24_involutive : (v : ℕ) → v < 2 ^ 24 → (flip24 v < 2 ^ 24) × (flip24 (flip24 v) ≡ v)
flip24_involutive v h =
    let e = flip24_lem v h in
    let small : flip24 v < 2 ^ 24 = omega arith in
    (small, omega (arith, flip24_lem (flip24 v) small))

pub flip32_involutive : (v : ℕ) → IsU32 v → IsU32 (flip32 v) × (flip32 (flip32 v) ≡ v)
flip32_involutive v h =
    let e = flip32_lem v h in
    let small : IsU32 (flip32 v) = omega arith in
    (small, omega (arith, flip32_lem (flip32 v) small))

-- `Flip64` of a UInt64 is a UInt64, and flipping it again gives the value back.
pub flip64_involutive : (v : ℕ) → IsU64 v → IsU64 (flip64 v) × (flip64 (flip64 v) ≡ v)
flip64_involutive v h = (
  small,
  ground (
    arith,
    flip64_lem (flip64 v) small,
    halves,
    ap flip32 halves.0,
    ap flip32 halves.1,
    (flip32_involutive (v / 2 ^ 32) (omega arith)).1,
    (flip32_involutive (v % 2 ^ 32) (omega arith)).1,
  ),
)
  where
    hi : IsU32 (flip32 (v / 2 ^ 32))
    hi = flip32-IsU32 (v / 2 ^ 32) (omega arith)

    lo : IsU32 (flip32 (v % 2 ^ 32))
    lo = flip32-IsU32 (v % 2 ^ 32) (omega arith)

    small : IsU64 (flip64 v)
    small = omega (arith, flip64_lem v h, hi, lo)

    halves : (flip64 v / 2 ^ 32 ≡ flip32 (v % 2 ^ 32)) × (flip64 v % 2 ^ 32 ≡ flip32 (v / 2 ^ 32))
    halves = omega (arith, flip64_lem v h, hi, lo)

-- What `n` bytes hold is read back from them.
pub load-store : (n v : ℕ) → v < 256 ^ n → load (store n v) ≡ v
load-store zero v h = omega arith
load-store (suc n) v h = omega (arith, load-store n (v / 256) (omega (arith, pow-suc 256 n)))

-- The network order: a flipped word is stored with its highest byte first.
pub store-flip16 : (v : ℕ) → IsU16 v → store 2 (flip16 v) ≡ v / 2 ^ 8 ∷ v % 2 ^ 8 ∷ []
store-flip16 v h = ground (arith, flip16_lem v h)

-- A UInt32 that is flipped and then stored by a little-endian host lies in memory with its highest
-- byte first.
store-flip32 :
    (v : ℕ)
    → IsU32 v
    → store 4 (flip32 v) ≡ v / 2 ^ 24 ∷ v / 2 ^ 16 % 2 ^ 8 ∷ v / 2 ^ 8 % 2 ^ 8 ∷ v % 2 ^ 8 ∷ []
store-flip32 v h = ground (arith, flip32_lem v h)
