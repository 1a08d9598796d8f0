-- ===== src/Binary/Reader.antt =====
-- `BinaryReader` of MonaBase/include/Mona/BinaryReader.h and MonaBase/sources/BinaryReader.cpp.
-- A pointer is its distance from `_data`, and `memory` holds the bytes from there on.
pub mod Rest
use mona_server.Base.{
  ℕ, zero, suc, ◌+◌, ◌*◌, ◌%◌, ◌^◌, Bool, true, false, not, ◌&&◌, ◌||◌, List, [], ◌∷◌, ◌++◌, Option,
  none, some, ltb, leb, ◌==◌, if◌then◌else◌, ◌>>=◌, length, get_or, take, drop, replicate, bit_and,
  bit_or,
}
use mona_server.Base.Words.{add32, sub32, shl32, shl64}
use mona_server.Binary.{Order, flips, load, flip16, flip24, flip32, flip64}

pub record Reader : Type 0 where
  pub flip_bytes : Bool
  pub memory : List ℕ
  pub end : ℕ
  pub current : ℕ
  pub size : ℕ

unfoldable pub reader : List ℕ → Order → Reader
reader memory order = record {
  flip_bytes = flips order;
  memory = memory;
  end = length memory;
  current = 0;
  size = length memory;
}

abbrev pub available : Reader → ℕ
available r = sub32 r.end r.current

abbrev pub position : Reader → ℕ
position r = r.current

unfoldable pub next : Reader → ℕ → Reader
next r count = record r {
  current = r.current + (if ltb (available r) count then available r else count);
}

unfoldable pub reset : Reader → ℕ → Reader
reset r position = record r { current = if ltb r.size position then r.size else position }

unfoldable pub shrink : Reader → ℕ → Reader
shrink r wanted =
    let rest = if ltb (available r) wanted then available r else wanted in
    record r { end = r.current + rest; size = r.current + rest }

-- `readRaw(UInt8* value, UInt32 size)`: the bytes of `value` after the call, and the reader. What
-- is missing of the input stays as it was in `value`.
unfoldable pub read_raw : Reader → List ℕ → List ℕ × Reader
read_raw r value =
    let size = if ltb (available r) (length value) then available r else length value in
    if size == 0 then (value, r) else (
      take size (drop r.current r.memory) ++ drop size value,
      record r { current = r.current + size },
    )

-- `readRaw(UInt32 size, string& value)` of an empty string: `resize` fills it with zero bytes.
unfoldable pub read_text : Reader → ℕ → List ℕ × Reader
read_text r size = read_raw r (replicate size 0)

unfoldable pub read8 : Reader → ℕ × Reader
read8 r =
    if r.current == r.end
    then (0, r)
    else (get_or r.memory r.current 0, record r { current = r.current + 1 })

unfoldable pub read_bool : Reader → Bool × Reader
read_bool r =
    if r.current == r.end
    then (false, r)
    else (not (get_or r.memory r.current 0 == 0), record r { current = r.current + 1 })

-- A word of some bytes: zero, then read over, then flipped.
unfoldable pub read_word : ℕ → (ℕ → ℕ) → Reader → ℕ × Reader
read_word bytes flip r =
    let (value, r') = read_raw r (replicate bytes 0) in
    (if r.flip_bytes then flip (load value) else load value, r')

unfoldable pub read16 : Reader → ℕ × Reader
read16 = read_word 2 flip16

unfoldable pub read24 : Reader → ℕ × Reader
read24 = read_word 3 flip24

unfoldable pub read32 : Reader → ℕ × Reader
read32 = read_word 4 flip32

unfoldable pub read64 : Reader → ℕ × Reader
read64 = read_word 8 flip64

-- The loop of `read7BitEncoded` with the shift so far. `none` is a shift of a UInt32 by 32 bits or
-- more, which C++ leaves undefined; it also bounds the rounds, so that no fuel is needed beyond 5.
unfoldable pub encoded_loop : ℕ → Reader → ℕ → ℕ → Option (ℕ × Reader)
encoded_loop zero r value s = none
encoded_loop (suc rounds) r value s =
    let (c, r') = read8 r in
    let value' = add32 value (shl32 (bit_and c 0x7f) s) in
    let more = encoded_loop rounds r' value' (s + 7) in
    if bit_and c 0x80 == 0 then some (value', r') else more

unfoldable pub read7_bit_encoded : Reader → Option (ℕ × Reader)
read7_bit_encoded r = encoded_loop 5 r 0 0

-- The loop of `read7BitValue` (and of the long one, by `shl`) with the rounds that `n` leaves:
-- what it gives back is `n < limit`, the result so far, the last byte and the reader.
unfoldable pub seven_loop : (ℕ → ℕ → ℕ) → ℕ → ℕ → ℕ → Reader → Bool × ℕ × ℕ × Reader
seven_loop shl zero result b r = (false, result, b, r)
seven_loop shl (suc rounds) result b r =
    let (b', r') = read8 r in
    let more = seven_loop shl rounds (bit_or (shl result 7) (bit_and b 0x7f)) b' r' in
    if bit_and b 0x80 == 0 then (true, result, b, r) else more

-- All 8 bits are used from the last byte that there can be.
unfoldable pub seven_value : (ℕ → ℕ → ℕ) → ℕ → Reader → ℕ × Reader
seven_value shl rounds r =
    let (b, r') = read8 r in
    let (below, result, last, r'') = seven_loop shl rounds 0 b r' in
    (bit_or (shl result (if below then 7 else 8)) last, r'')

unfoldable pub read7_bit_value : Reader → ℕ × Reader
read7_bit_value = seven_value shl32 3

unfoldable pub read7_bit_long_value : Reader → ℕ × Reader
read7_bit_long_value = seven_value shl64 8

unfoldable pub read_string : Reader → Option (List ℕ × Reader)
read_string r = do (size, r') ← read7_bit_encoded r; some (read_text r' size)

unfoldable pub read_string8 : Reader → List ℕ × Reader
read_string8 r = let (size, r') = read8 r in read_text r' size

unfoldable pub read_string16 : Reader → List ℕ × Reader
read_string16 r = let (size, r') = read16 r in read_text r' size
