-- ===== src/Binary.antt =====
-- `Binary` of MonaBase/include/Mona/Binary.h, on a little-endian host: the order of bytes, and the
-- words that `memcpy` reads and writes.
pub mod Flips
pub mod Reader
pub mod Writer
pub mod RoundTrip
mod Tests
use mona_server.Base.{
  ℕ, zero, suc, ◌+◌, ◌*◌, ◌/◌, ◌%◌, ◌^◌, Bool, true, false, List, [], ◌∷◌, bit_and, bit_or,
}
use mona_server.Base.Words.{shr, shl32, shl64}

pub data Order : Type 0 where
  big_endian little_endian : Order

-- The host is little-endian, so that bytes are flipped for the other order.
abbrev pub flips : Order → Bool
flips big_endian = true
flips little_endian = false

-- The word of some bytes in memory, the lowest first; the first `n` bytes of a word.
abbrev pub load : List ℕ → ℕ
load [] = 0
load (b ∷ bs) = b + 2 ^ 8 * load bs

abbrev pub store : ℕ → ℕ → List ℕ
store zero v = []
store (suc n) v = (v % 2 ^ 8) ∷ store n (v / 2 ^ 8)

-- A shift of a UInt16 is done in `int`, so it loses no bit.
unfoldable pub flip16 : ℕ → ℕ
flip16 value = bit_or (bit_and (shr value 8) 0x00ff) (bit_and (value * 2 ^ 8) 0xff00)

unfoldable pub flip24 : ℕ → ℕ
flip24 value =
    bit_or (bit_or (bit_and (shr value 16) 0x0000_00ff) (bit_and value 0x0000_ff00))
      (bit_and (shl32 value 16) 0x00ff_0000)

unfoldable pub flip32 : ℕ → ℕ
flip32 value =
    bit_or
      (bit_or (bit_or (bit_and (shr value 24) 0x0000_00ff) (bit_and (shr value 8) 0x0000_ff00))
        (bit_and (shl32 value 8) 0x00ff_0000))
      (bit_and (shl32 value 24) 0xff00_0000)

unfoldable pub flip64 : ℕ → ℕ
flip64 value =
    let hi = shr value 32 % 2 ^ 32 in
    let lo = bit_and value 0xffff_ffff % 2 ^ 32 in bit_or (flip32 hi) (shl64 (flip32 lo) 32)
