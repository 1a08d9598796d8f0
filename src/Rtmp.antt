-- ===== src/Rtmp.antt =====
-- RTMP messages: `RTMPChannel` of MonaCore/include/Mona/RTMP/RTMP.h, `write` of
-- MonaCore/sources/RTMP/RTMPWriter.cpp, `pack` of MonaCore/sources/RTMP/RTMPSender.cpp, and
-- `buildPacket` of MonaCore/sources/RTMP/RTMPSession.cpp after the handshake, without encryption.
pub mod Headers
pub mod Fields
pub mod Chunks
pub mod Messages
pub mod Reassembly
pub mod Written
pub mod Exchange
mod Tests
use mona_server.Base.{
  ℕ, zero, suc, ◌+◌, ◌-◌, ◌*◌, ◌/◌, ◌%◌, ◌^◌, Bool, true, false, not, ◌&&◌, List, [], ◌∷◌, ◌++◌,
  Option, none, some, ltb, leb, ◌==◌, if◌then◌else◌, ◌>>=◌, length, take, drop, min, bit_and,
  bit_or,
}
use mona_server.Base.Words.{add32, sub32, shl32}
use mona_server.Binary.{store, flip24, flip32}
use mona_server.Binary.Reader.{Reader, available, shrink, read8, read24, read32}

pub record Channel : Type 0 where
  pub body_size : ℕ
  pub time : ℕ
  pub absolute_time : ℕ
  pub stream_id : ℕ
  pub type : ℕ

unfoldable pub channel : Channel
channel = record { body_size = 0; time = 0; absolute_time = 0; stream_id = 0; type = 0 }

-- `RTMPSender`, with the bytes of its `_writer.packet`.
pub record Sender : Type 0 where
  pub packet : List ℕ
  pub size_pos : ℕ
  pub head_size : ℕ

unfoldable pub sender : Sender
sender = record { packet = []; size_pos = 0; head_size = 0 }

-- `pack`: the size of the last message goes to its place, and to the channel that is given.
unfoldable pub packed_size : Sender → ℕ
packed_size s = sub32 (add32 (sub32 (length s.packet) s.size_pos) 4) s.head_size

unfoldable pub pack : Sender → Channel → Sender × Channel
pack s c =
    let size = packed_size s in
    if s.size_pos == 0 then (s, c) else (
      record s {
        packet =
            take s.size_pos s.packet ++ store 3 (flip24 size) ++ drop (s.size_pos + 3) s.packet;
        size_pos = 0;
      },
      record c { body_size = size },
    )

-- `headerFlag`, from the channel, the stream, the type, the body, and the relative time.
unfoldable pub header_flag : Channel → ℕ → ℕ → Option (List ℕ) → ℕ → ℕ
header_flag c stream type body time =
    if not (c.stream_id == stream)
    then 0
    else if not ((c.type == type) && is_size c.body_size body)
    then 1
    else if not (c.time == time)
    then 2
    else 3
  where
    is_size : ℕ → Option (List ℕ) → Bool
    is_size size none = false
    is_size size (some bytes) = size == length bytes

-- `time` once it is relative, where the stream stays.
unfoldable pub header_time : Channel → ℕ → ℕ → ℕ
header_time c stream time =
    if c.stream_id == stream
    then time - (if ltb time c.absolute_time then time else c.absolute_time)
    else time

-- The four bytes of the stream, the lowest first, and then the time again, if it is extended.
unfoldable pub stream_bytes : ℕ → ℕ → ℕ → List ℕ
stream_bytes head stream time =
    if ltb 8 head then store 4 stream ++ (if ltb 12 head then store 4 (flip32 time) else []) else []

-- What `write` writes behind the first byte, from the size of the header; the three bytes that
-- `pack` is to fill are 0.
unfoldable pub header_bytes : ℕ → ℕ → ℕ → ℕ → List ℕ
header_bytes head stream type time =
    let head' = if ltb time 0xffffff then head else head + 4 in
    let time24 = if ltb time 0xffffff then time else 0xffffff in
    if ltb 0 head
    then store 3 (flip24 time24)
      ++ (if ltb 4 head' then 0 ∷ 0 ∷ 0 ∷ type ∷ stream_bytes head' stream time else [])
    else []

unfoldable pub body_bytes : Option (List ℕ) → List ℕ
body_bytes none = []
body_bytes (some bytes) = bytes

-- `write` once the flag and the time of the header are known.
unfoldable pub write_flagged :
    ℕ → ℕ → ℕ → ℕ → ℕ → ℕ → Option (List ℕ) → Channel → Sender → Sender × Channel
write_flagged flag time id stream type absolute body c s =
    let head = 12 - 4 * flag in
    let head' = if ltb time 0xffffff then head else if ltb 0 head then head + 4 else head in
    let p =
      pack s
        (record c { time = time; absolute_time = absolute; stream_id = stream; type = type }) in
    let front = p.0.packet ++ bit_or (flag * 2 ^ 6) id ∷ [] in
    (
      record {
        packet = front ++ (header_bytes head stream type time ++ body_bytes body);
        size_pos = if ltb 4 head' then length front + 3 else 0;
        head_size = head';
      },
      p.1,
    )

-- `write`, but for a writer that is closed. `id` and `stream` are those of the writer and of its
-- public channel.
unfoldable pub write : ℕ → ℕ → ℕ → ℕ → Option (List ℕ) → Channel → Sender → Sender × Channel
write id stream type absolute body c s =
    let time = header_time c stream absolute in
    write_flagged (header_flag c stream type body time) time id stream type absolute body c s

-- The fields of the header of a size in front of the extended time.
unfoldable pub read_stream : Reader → ℕ × Reader
read_stream r =
    let (a, r1) = read8 r in
    let (b, r2) = read8 r1 in
    let (c, r3) = read8 r2 in
    let (d, r4) = read8 r3 in (add32 (add32 (add32 a (shl32 b 8)) (shl32 c 16)) (shl32 d 24), r4)

unfoldable pub read_size_type : ℕ → Channel → Reader → Channel × Reader
read_size_type head c r =
    let (size, r1) = read24 r in
    let (type, r2) = read8 r1 in
    let (stream, r3) = read_stream r2 in
    if ltb head 8
    then (c, r)
    else if ltb head 12
    then (record c { body_size = size; type = type }, r2)
    else (record c { body_size = size; type = type; stream_id = stream }, r3)

-- `none` where the extended time is not all there.
unfoldable pub read_extended : Channel → Reader → Option (Channel × Reader)
read_extended c r =
    let (time, r') = read32 r in
    if ltb c.time 0xffffff
    then some (c, r)
    else if ltb (available r) 4
    then none
    else some (record c { time = time }, r')

unfoldable pub read_header : ℕ → Channel → Reader → Option (Channel × Reader)
read_header head c r =
    let (time, r') = read24 r in
    let (c', r'') = read_size_type head (record c { time = time }) r' in
    if ltb head 4 then some (c, r) else read_extended c' r''

-- `chunks`, a UInt16: how many bytes stand between the chunks of a body.
unfoldable pub chunk_count : ℕ → ℕ → ℕ
chunk_count size chunk_size =
    (((size + chunk_size - 1) / chunk_size) % 2 ^ 16 + 2 ^ 16 - 1) % 2 ^ 16

-- The loop that takes these bytes out: `rounds` are left, `chunk` is the next one, `i` its place.
unfoldable pub join_chunks : ℕ → ℕ → ℕ → ℕ → ℕ → List ℕ → List ℕ
join_chunks zero chunk_size size chunk i bytes = bytes
join_chunks (suc rounds) chunk_size size chunk i bytes =
    let n = min chunk_size (size - i) in
    join_chunks rounds chunk_size size (chunk + 1) (i + chunk_size)
      (take i bytes ++ take n (drop (i + chunk) bytes) ++ drop (i + n) bytes)

-- A packet: its channel, and its bytes up to the size of the body, as `packetHandler` shrinks it.
unfoldable pub finish : ℕ → ℕ → Channel → Reader → Option (Channel × List ℕ)
finish chunk_size head c r =
    let chunks = chunk_count c.body_size chunk_size in
    let total = add32 c.body_size chunks in
    let absolute = if ltb head 12 then add32 c.absolute_time c.time else c.time in
    let packet = shrink r total in
    let bytes = take (available packet) (drop packet.current packet.memory) in
    if ltb (available r) total
    then none
    else some (
      record c { absolute_time = absolute },
      take c.body_size
          (join_chunks ((chunks + 1) % 2 ^ 16 - 1) chunk_size c.body_size 1 chunk_size bytes),
    )

-- `buildPacket` of a message for the writer of its id, whose channel is `c`. `none` is where it waits
-- for more bytes: what it has assigned by then it assigns again.
unfoldable pub build_message : ℕ → Channel → Reader → Option (Channel × List ℕ)
build_message chunk_size c packet =
    let (first, r) = read8 packet in
    let flag = first / 2 ^ 6 in
    let head = 12 - 4 * flag in
    let head' = if head == 0 then 1 else head in
    if ltb (available r) head'
    then none
    else (do (c', r') ← read_header head' c r; finish chunk_size head' c' r')
