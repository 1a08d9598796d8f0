-- ===== src/Binary/Writer.antt =====
-- `BinaryWriter` of MonaBase/include/Mona/BinaryWriter.h and MonaBase/sources/BinaryWriter.cpp, and
-- `Util::Get7BitValueSize`. Every function returns the writer, or `none` if it never returns: it is
-- then stuck in `Buffer::resize`, or in the loop of `Get7BitValueSize`.
pub mod Appends
pub mod Window
pub mod Sizes
use mona_server.Base.{
  ℕ, zero, suc, ◌+◌, ◌-◌, ◌*◌, ◌/◌, ◌%◌, ◌^◌, Bool, true, false, List, [], ◌∷◌, ◌++◌, Option, none,
  some, ltb, leb, ◌==◌, if◌then◌else◌, ◌>>=◌, length, take, drop, bit_and, bit_or,
}
use mona_server.Base.Words.{add32, sub32, shr, shl64}
use mona_server.Binary.{Order, flips, store, flip16, flip24, flip32, flip64}
use mona_server.Buffer
use mona_server.Buffer.{Buffer}

pub record Writer : Type 0 where
  pub flip_bytes : Bool
  pub buffer : Buffer

-- `BinaryWriter(UInt8* buffer, UInt32 size, Binary::Order)`: a window, emptied.
unfoldable pub writer : List ℕ → Order → Option Writer
writer window order = do
  (_, b) ← Buffer.resize (Buffer.over window) 0 true
  some (record { flip_bytes = flips order; buffer = b })

abbrev pub contents : Writer → List ℕ
contents w = Buffer.contents w.buffer

-- `memcpy` of `value` to `i`.
abbrev pub overwrite : ℕ → List ℕ → List ℕ → List ℕ
overwrite i value bytes = take i bytes ++ value ++ drop (i + length value) bytes

unfoldable pub write_raw : Writer → List ℕ → Option Writer
write_raw w value = do
  let old_size = w.buffer.size
  (resized, b) ← Buffer.resize w.buffer (add32 (length value) old_size) true
  let copied = if resized then value else take (sub32 b.size old_size) value
  some (record w { buffer = record b { bytes = overwrite old_size copied b.bytes } })

unfoldable pub next : Writer → ℕ → Option Writer
next w count = do
  (_, b) ← Buffer.resize w.buffer (add32 w.buffer.size count) true
  some (record w { buffer = b })

unfoldable pub clear : Writer → ℕ → Option Writer
clear w size = do (_, b) ← Buffer.resize w.buffer size true; some (record w { buffer = b })

unfoldable pub clip : Writer → ℕ → Writer
clip w offset = record w { buffer = Buffer.clip w.buffer offset }

unfoldable pub write8 : Writer → ℕ → Option Writer
write8 w value = write_raw w (value % 2 ^ 8 ∷ [])

unfoldable pub write_bool : Writer → Bool → Option Writer
write_bool w value = write8 w (if value then 1 else 0)

abbrev pub write_word : ℕ → (ℕ → ℕ) → Writer → ℕ → Option Writer
write_word bytes flip w value =
    write_raw w (store bytes (if w.flip_bytes then flip value else value))

unfoldable pub write16 : Writer → ℕ → Option Writer
write16 = write_word 2 flip16

unfoldable pub write24 : Writer → ℕ → Option Writer
write24 = write_word 3 flip24

unfoldable pub write32 : Writer → ℕ → Option Writer
write32 = write_word 4 flip32

unfoldable pub write64 : Writer → ℕ → Option Writer
write64 = write_word 8 flip64

-- The loop of `write7BitEncoded`, with fuel: a UInt32 is 0 after 5 rounds.
unfoldable pub encoded_out : ℕ → Writer → ℕ → Option Writer
encoded_out zero w value = none
encoded_out (suc fuel) w value =
    let group = bit_and value 0x7f in
    let value' = shr value 7 in
    let continued = (do w' ← write8 w (bit_or group 0x80); encoded_out fuel w' value') in
    if value' == 0 then write8 w group else continued

unfoldable pub write7_bit_encoded : Writer → ℕ → Option Writer
write7_bit_encoded w value = encoded_out 5 w value

-- The loop of `Get7BitValueSize`, with fuel. The limit is a UInt64 and the result a UInt8.
unfoldable pub size_loop : ℕ → ℕ → ℕ → ℕ → Option ℕ
size_loop zero value limit result = none
size_loop (suc fuel) value limit result =
    let more = size_loop fuel value (shl64 limit 7) ((result + 1) % 2 ^ 8) in
    if leb limit value then more else some result

unfoldable pub get7_bit_value_size : ℕ → Option ℕ
get7_bit_value_size value = size_loop 10 value 0x80 1

-- The loops of `write7BitValue` and `write7BitLongValue`; nine rounds bring `shift` below 7.
unfoldable pub seven_out : ℕ → Writer → ℕ → ℕ → Option Writer
seven_out zero w value shift = none
seven_out (suc fuel) w value shift =
    let group = bit_or 0x80 (bit_and (shr value shift) 0x7f) in
    let continued = (do w' ← write8 w group; seven_out fuel w' value (shift - 7)) in
    if leb 7 shift then continued else some w

unfoldable pub write7_bit_value : Writer → ℕ → Option Writer
write7_bit_value w value = do
  n ← get7_bit_value_size value
  let wanted = (n - 1) * 7 % 2 ^ 8
  let max = leb 21 wanted
  w' ← seven_out 10 w value (if max then 22 else wanted)
  write8 w' (if max then bit_and value 0xff else bit_and value 0x7f)

unfoldable pub write7_bit_long_value : Writer → ℕ → Option Writer
write7_bit_long_value w value = do
  n ← get7_bit_value_size value
  let wanted = (n - 1) * 7 % 2 ^ 8
  let max = leb 63 wanted
  w' ← seven_out 10 w value (if max then wanted + 1 else wanted)
  write8 w' (if max then bit_and value 0xff else bit_and value 0x7f)

unfoldable pub write_string8 : Writer → List ℕ → Option Writer
write_string8 w value = do w' ← write8 w (length value); write_raw w' value

unfoldable pub write_string16 : Writer → List ℕ → Option Writer
write_string16 w value = do w' ← write16 w (length value % 2 ^ 16); write_raw w' value

unfoldable pub write_string : Writer → List ℕ → Option Writer
write_string w value = do w' ← write7_bit_encoded w (length value); write_raw w' value
