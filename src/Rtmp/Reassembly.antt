-- ===== src/Rtmp/Reassembly.antt =====
-- A message of `buildPacket` whose body comes in chunks.
use mona_server.Base.{
  ℕ, ◌+◌, ◌/◌, ◌^◌, ◌<◌, ◌≤◌, ◌≡◌, true, List, ◌∷◌, ◌++◌, some, length, length-append, arith, refl,
}
use mona_server.Base.Words.{IsU32}
use mona_server.Binary.{store, flip24}
use mona_server.Binary.Reader.{Reader}
use mona_server.Binary.Reader.Rest.{At}
use mona_server.Rtmp.{Channel, build_message}
use mona_server.Rtmp.Chunks.{Cut, chunked, whole, AreFull, length-chunked, length-whole}
use mona_server.Rtmp.Messages.{header_12, build_message-Chunks}

-- A message with the header of 12 bytes.
abbrev pub in_chunks : ℕ → ℕ → ℕ → ℕ → Cut → List ℕ → List ℕ → List ℕ
in_chunks id time type stream cut last tail =
    id
    ∷ (store 3 (flip24 time)
        ++ (store 3 (flip24 (length (whole cut last)))
            ++ type ∷ (store 4 stream ++ (chunked cut last ++ tail))))

-- Behind a header of 12 bytes with an id below 64, a time below 0xFFFFFF and a UInt32 as stream,
-- the body comes in chunks: all but the last have exactly the size of a chunk, any byte stands
-- behind each of them, the last is not empty and no longer, and there are fewer than 2 ^ 16 chunks
-- and fewer than 2 ^ 24 bytes of body. `buildPacket`, in network order and whatever follows, gives
-- the body without these bytes, and the channel of the header.
pub build_message-whole :
    (chunk_size id time type stream : ℕ) (cut : Cut) (last tail : List ℕ) (c : Channel) (r : Reader)
    → id < 64
    → time < 0xffffff
    → IsU32 stream
    → AreFull chunk_size cut
    → 0 < length last
    → length last ≤ chunk_size
    → length cut + 1 < 2 ^ 16
    → length (whole cut last) < 2 ^ 24
    → r.flip_bytes ≡ true
    → At r (in_chunks id time type stream cut last tail)
    → build_message chunk_size c r
      ≡ some (
        record {
          body_size = length (whole cut last);
          time = time;
          absolute_time = time;
          stream_id = stream;
          type = type;
        },
        whole cut last,
      )
build_message-whole chunk_size id time type stream cut last tail c r id_small time_small
      stream_small full some_bytes fits few small network a =
    let n = length (whole cut last) in
    let no_flag : id / 2 ^ 6 ≡ 0 = omega arith in
    build_message-Chunks chunk_size 12 c
      (record c { body_size = n; time = time; type = type; stream_id = stream }) r id
      (store 3 (flip24 time)
        ++ (store 3 (flip24 n) ++ type ∷ (store 4 stream ++ (chunked cut last ++ tail))))
      cut last tail (record { network = network; at = a }) (rw no_flag refl)
      (omega (
        arith,
        length-append (chunked cut last) tail,
        length-chunked cut last,
        length-whole chunk_size cut last full,
      ))
      (λ r1 st.
        header_12 c r1 time n type stream (chunked cut last ++ tail) time_small small stream_small
          st)
      refl full some_bytes fits few small
