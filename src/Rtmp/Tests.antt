-- ===== src/Rtmp/Tests.antt =====
-- Runs of the RTMP messages.
use mona_server.Base.{◌≡◌, refl, List, [], ◌∷◌, some, ℕ, arith, ◌++◌, take, length, subst, sym}
use mona_server.Binary.{Order, flip24}
use mona_server.Binary.Reader.{Reader, reader}
use mona_server.Binary.Reader.Rest.{At, reader-IsValid, rest-reader}
use mona_server.Rtmp.{
  Channel, channel, Sender, sender, packed_size, pack, header_flag, header_time, stream_bytes,
  header_bytes, body_bytes, write_flagged, write, build_message,
}
use mona_server.Rtmp.Chunks.{Cut}
use mona_server.Rtmp.Reassembly.{in_chunks, build_message-whole}
use mona_server.Rtmp.Exchange.Whole.{send_whole, added, write-build_message}

-- Three bytes of sound at 70 seconds, and a byte of the next message.
abbrev sound : List ℕ
sound = 1 ∷ 2 ∷ 3 ∷ []

abbrev sound_message : List ℕ
sound_message = 3 ∷ 1 ∷ 17 ∷ 112 ∷ 0 ∷ 0 ∷ 3 ∷ 8 ∷ 1 ∷ 0 ∷ 0 ∷ 0 ∷ 1 ∷ 2 ∷ 3 ∷ []

abbrev arrived : Reader
arrived = reader (sound_message ++ 0xc3 ∷ []) Order.big_endian

abbrev sound_sent : Sender × Channel
sound_sent = send_whole 3 1 8 70000 sound channel sender

sent_runs : added sender sound_sent ≡ sound_message
unfolding sender channel packed_size pack header_flag header_time stream_bytes header_bytes
    body_bytes write_flagged write flip24
sent_runs = refl

arrived-At : At arrived (added sender sound_sent ++ 0xc3 ∷ [])
arrived-At =
    subst (λ (xs : List ℕ). At arrived (xs ++ 0xc3 ∷ [])) (sym sent_runs)
      (record {
        valid = reader-IsValid (sound_message ++ 0xc3 ∷ []) Order.big_endian (omega arith);
        unread = rest-reader (sound_message ++ 0xc3 ∷ []) Order.big_endian;
      })

write-build_message_example :
    (take (length sender.packet) sound_sent.0.packet ≡ sender.packet)
    × (build_message 128 channel arrived ≡ some (sound_sent.1, sound))
unfolding sender channel reader
write-build_message_example =
    write-build_message 128 3 1 8 70000 sound (0xc3 ∷ []) channel sender arrived refl (omega arith)
      refl (omega arith) (omega arith) (omega arith) (omega arith) (omega arith) (omega arith)
      (omega arith) (λ _. omega arith) arrived-At

-- Five bytes in chunks of two, with 0xc3 between.
abbrev two_chunks : Cut
two_chunks = (1 ∷ 2 ∷ [], 0xc3) ∷ (3 ∷ 4 ∷ [], 0xc3) ∷ []

abbrev chunked_bytes : List ℕ
chunked_bytes =
    3 ∷ 1 ∷ 17 ∷ 112 ∷ 0 ∷ 0 ∷ 5 ∷ 8 ∷ 1 ∷ 0 ∷ 0 ∷ 0 ∷ 1 ∷ 2 ∷ 0xc3 ∷ 3 ∷ 4 ∷ 0xc3 ∷ 5 ∷ 0x43 ∷ []

chunks_arrived :
    At
      (reader chunked_bytes Order.big_endian)
      (in_chunks 3 70000 8 1 two_chunks (5 ∷ []) (0x43 ∷ []))
unfolding flip24
chunks_arrived = record {
  valid = reader-IsValid chunked_bytes Order.big_endian (omega arith);
  unread = rest-reader chunked_bytes Order.big_endian;
}

build_message-whole_example :
    build_message 2 channel (reader chunked_bytes Order.big_endian)
    ≡ some (
      record { body_size = 5; time = 70000; absolute_time = 70000; stream_id = 1; type = 8 },
      1 ∷ 2 ∷ 3 ∷ 4 ∷ 5 ∷ [],
    )
unfolding reader
build_message-whole_example =
    build_message-whole 2 3 70000 8 1 two_chunks (5 ∷ []) (0x43 ∷ []) channel
      (reader chunked_bytes Order.big_endian) (omega arith) (omega arith) (omega arith)
      (refl, (refl, tt)) (omega arith) (omega arith) (omega arith) (omega arith) refl chunks_arrived
