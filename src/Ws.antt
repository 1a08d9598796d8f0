-- ===== src/Ws.antt =====
-- WebSocket frames: `WS` of MonaCore/sources/WebSocket/WS.cpp, `WSSession::buildPacket` of
-- MonaCore/sources/WebSocket/WSSession.cpp and `WSUnmasking`
-- (MonaCore/include/Mona/WebSocket/WSUnmasking.h).
pub mod Unmasking
pub mod Frames
mod Tests
use mona_server.Base.{
  ℕ, ◌+◌, ◌-◌, ◌*◌, ◌%◌, ◌^◌, Bool, List, [], ◌∷◌, ◌++◌, Option, none, some, not, ltb, ◌==◌,
  if◌then◌else◌, ◌>>=◌, take, drop, get_or, replicate, bit_and, bit_or, bit_xor,
}
use mona_server.Base.Words.{add32}
use mona_server.Binary.{Order}
use mona_server.Binary.Reader.{
  Reader, reader, available, reset, shrink, read_raw, read8, read16, read64,
}
use mona_server.Binary.Writer.{Writer, write8, write16, write64}

unfoldable pub header_size : ℕ → ℕ
header_size size = if ltb size 126 then 2 else if ltb size 65536 then 4 else 10

-- `WriteHeader`, which also returns the number of bytes; a type of 0 is TYPE_NIL.
unfoldable pub write_size : Writer → ℕ → Option Writer
write_size w size =
    if ltb size 126
    then write8 w size
    else if ltb size 65536
    then (do w' ← write8 w 126; write16 w' (size % 2 ^ 16))
    else (do w' ← write8 w 127; write64 w' size)

unfoldable pub write_header : ℕ → ℕ → Writer → Option (ℕ × Writer)
write_header type size w = if type == 0 then some (0, w) else (do
  w' ← write8 w (bit_or type 0x80)
  w'' ← write_size w' size
  some (header_size size, w''))

-- The first byte to be read, replaced in the memory.
unfoldable pub put : Reader → ℕ → Reader
put r byte = record r { memory = take r.current r.memory ++ byte ∷ drop (r.current + 1) r.memory }

-- The type in front of what is to be read.
unfoldable pub put_type : Reader → ℕ → Reader
put_type r type = put (reset r (r.current - 1)) type

-- `Unmask`, where `initial` is what its array has at first.
unfoldable pub xor_mask : List ℕ → ℕ → List ℕ → List ℕ
xor_mask mask i [] = []
xor_mask mask i (byte ∷ rest) = bit_xor byte (get_or mask (i % 4) 0) ∷ xor_mask mask (i + 1) rest

-- The loop over the bytes behind the mask.
unfoldable pub unmask_bytes : List ℕ → Reader → Reader
unmask_bytes mask r =
    let n = available r in
    record r {
      memory =
          take r.current r.memory
          ++ xor_mask mask 0 (take n (drop r.current r.memory))
          ++ drop (r.current + n) r.memory;
    }

unfoldable pub unmask : List ℕ → Reader → Reader
unmask initial r = let (mask, r') = read_raw r initial in unmask_bytes mask r'

-- The constructor of `Decoding` copies the bytes; `WSUnmasking::decode` gives the packet.
unfoldable pub decode : List ℕ → List ℕ → ℕ → Reader
decode initial bytes type = put_type (unmask initial (reader bytes Order.big_endian)) type

-- What `buildPacket` gives: a packet with its type in front, or bytes that are to be unmasked.
pub data Built : Type 0 where
  plain : Reader → Built
  masked : ℕ → List ℕ → Built

-- The size of a frame, `none` where its bytes are not all there.
unfoldable pub read_size : Reader → ℕ → Option (ℕ × Reader)
read_size r length_bits =
    if length_bits == 127
    then (if ltb (available r) 8
        then none
        else (let (size, r') = read64 r in some (size % 2 ^ 32, r')))
    else if length_bits == 126
    then (if ltb (available r) 2 then none else some (read16 r))
    else some (length_bits, r)

unfoldable pub built : Reader → ℕ → Bool → ℕ → Option Built
built r type is_masked size =
    let whole = if is_masked then add32 size 4 else size in
    let packet = shrink r whole in
    if ltb (available r) whole
    then none
    else some (
        if is_masked
        then masked type (take (available packet) (drop packet.current packet.memory))
        else plain (put_type packet type))

unfoldable pub build_packet : Reader → Option Built
build_packet packet =
    let (first, r) = read8 packet in
    let (second, r') = read8 r in
    if ltb (available packet) 2 then none else (do
      (size, r'') ← read_size r' (bit_and second 0x7f)
      built r'' (bit_and first 0x0f) (not (bit_and second 0x80 == 0)) size)
