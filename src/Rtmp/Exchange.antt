-- ===== src/Rtmp/Exchange.antt =====
-- The messages that `write` writes and `buildPacket` reads, by the flag of the header.
pub mod Whole
use mona_server.Base.{
  ℕ, suc, ◌+◌, ◌-◌, ◌*◌, ◌/◌, ◌^◌, ◌<◌, ◌≤◌, ◌≡◌, ◌≢◌, refl, sym, ap, ◌∙◌, subst, Bool, true, false,
  not, ◌&&◌, List, [], ◌∷◌, ◌++◌, Option, none, some, ltb, ◌==◌, if◌then◌else◌, if_true, length,
  length-append, append_assoc, take, drop, take-append_length, drop-append_length, bit_or, arith,
  Bool-cases, inl, inr,
}
use mona_server.Base.Bits.{bit_or-add}
use mona_server.Base.Words.{IsU32, add32}
use mona_server.Binary.{store, flip24, flip32}
use mona_server.Binary.Reader.{Reader}
use mona_server.Binary.Reader.Rest.{At}
use mona_server.Rtmp.{
  Channel, Sender, pack, header_flag, header_time, stream_bytes, header_bytes, body_bytes,
  write_flagged, write, read_header, build_message,
}
use mona_server.Rtmp.Headers.{pack-filled}
use mona_server.Rtmp.Messages.{header_4, header_8, header_12, header_16, build_message-Chunks}
use mona_server.Rtmp.Fields.{Stands, Parses}
use mona_server.Rtmp.Written.{Written, sent, packed_message, short_message, long_message}

-- Four header sizes, and one with the extended time.
module _ (chunk_size id stream type absolute : ℕ) (body tail : List ℕ) (c : Channel) (s : Sender)
    (r : Reader) (packed : s.size_pos ≡ 0) (fits : length s.packet + 20 + length body < 2 ^ 32)
    (network : r.flip_bytes ≡ true) (id_small : id < 64) (stream_small : IsU32 stream)
    (absolute_small : IsU32 absolute) (some_body : 0 < length body)
    (body_small : length body < 2 ^ 24) (one_chunk : length body ≤ chunk_size) where
  -- The bytes of the message are read, and the channels are the same.
  pub record Read (time flag : ℕ) : Type 0 where
    pub bytes : List ℕ
    pub after : Channel
    pub written :
        Written s
          (packed_message id stream type absolute time body c s packed fits flag)
          bytes
          after
    pub reads : At r (bytes ++ tail) → build_message chunk_size c r ≡ some (after, body)

  first_flag : (flag : ℕ) → flag < 4 → bit_or (flag * 2 ^ 6) id / 2 ^ 6 ≡ flag
  first_flag flag h = omega (arith, bit_or-add 6 flag id id_small, id_small)

  pub bare-Read :
      (time : ℕ)
      → c.body_size ≡ length body
      → sent id stream type absolute time body c s packed fits
        ≡ record c { absolute_time = add32 c.absolute_time c.time }
      → Read time 3
  unfolding header_bytes read_header
  bare-Read time size same =
      let first = bit_or (3 * 2 ^ 6) id in
      let f = first_flag 3 (omega arith) in
      record {
        bytes = first ∷ body;
        after = sent id stream type absolute time body c s packed fits;
        written =
            short_message id stream type absolute time body c s packed fits 3 0 (ground arith) refl;
        reads = λ a.
            build_message-Chunks chunk_size 1 c c r first (body ++ tail) [] body tail
              (record { network = network; at = a }) (rw f refl)
              (omega (arith, length-append body tail, some_body))
              (λ r1 st. record { left = r1; gives = refl; stands = st }) size tt some_body one_chunk
              (omega arith) body_small
            ∙ ap (λ (x : Channel). some (x, body)) (sym same);
      }

  pub timed-Read :
      (time : ℕ)
      → time < 0xffffff
      → c.body_size ≡ length body
      → sent id stream type absolute time body c s packed fits
        ≡ record c { time = time; absolute_time = add32 c.absolute_time time }
      → Read time 2
  unfolding header_bytes
  timed-Read time low size same =
      let first = bit_or (2 * 2 ^ 6) id in
      let f = first_flag 2 (omega arith) in
      let less : ltb time 0xffffff ≡ true = ground (arith, low) in
      record {
        bytes = first ∷ (header_bytes 4 stream type time ++ body);
        after = sent id stream type absolute time body c s packed fits;
        written =
            short_message id stream type absolute time body c s packed fits 2 4 (rw less refl) refl;
        reads = λ a.
            let bytes : header_bytes 4 stream type time ≡ store 3 (flip24 time) = rw less refl in
            let a' : At r (first ∷ (store 3 (flip24 time) ++ (body ++ tail))) =
              subst (λ (h : List ℕ). At r (first ∷ (h ++ body ++ tail))) bytes a in
            build_message-Chunks chunk_size 4 c (record c { time = time }) r first
              (store 3 (flip24 time) ++ (body ++ tail)) [] body tail
              (record { network = network; at = a' }) (rw f refl)
              (omega (arith, length-append body tail, some_body))
              (λ r1 st. header_4 c r1 time (body ++ tail) low st) size tt some_body one_chunk
              (omega arith) body_small
            ∙ ap (λ (x : Channel). some (x, body)) (sym same);
      }

  pub sized-Read :
      (time : ℕ)
      → time < 0xffffff
      → record (sent id stream type absolute time body c s packed fits) { body_size = length body }
        ≡ record c {
          body_size = length body;
          time = time;
          type = type;
          absolute_time = add32 c.absolute_time time;
        }
      → Read time 1
  unfolding header_bytes stream_bytes
  sized-Read time low same =
      let first = bit_or (1 * 2 ^ 6) id in
      let f = first_flag 1 (omega arith) in
      let less : ltb time 0xffffff ≡ true = ground (arith, low) in
      let stamp = store 3 (flip24 time) in
      let sized = store 3 (flip24 (length body)) in
      record {
        bytes = first ∷ (stamp ++ (sized ++ type ∷ body));
        after = record (sent id stream type absolute time body c s packed fits) {
          body_size = length body;
        };
        written =
            long_message id stream type absolute time body c s packed fits 1 8 stamp []
              (rw less refl) refl refl refl (omega arith) (rw less refl);
        reads = λ a.
            build_message-Chunks chunk_size 8 c
              (record c { body_size = length body; time = time; type = type }) r first
              (stamp ++ (sized ++ type ∷ (body ++ tail))) [] body tail
              (record { network = network; at = a }) (rw f refl)
              (omega (arith, length-append body tail, some_body))
              (λ r1 st. header_8 c r1 time (length body) type (body ++ tail) low body_small st) refl
              tt some_body one_chunk (omega arith) body_small
            ∙ ap (λ (x : Channel). some (x, body)) (sym same);
      }

  pub full-Read :
      (time : ℕ)
      → time < 0xffffff
      → record (sent id stream type absolute time body c s packed fits) { body_size = length body }
        ≡ record c {
          body_size = length body;
          time = time;
          type = type;
          stream_id = stream;
          absolute_time = time;
        }
      → Read time 0
  unfolding header_bytes stream_bytes
  full-Read time low same =
      let first = bit_or (0 * 2 ^ 6) id in
      let f = first_flag 0 (omega arith) in
      let less : ltb time 0xffffff ≡ true = ground (arith, low) in
      let stamp = store 3 (flip24 time) in
      let sized = store 3 (flip24 (length body)) in
      record {
        bytes = first ∷ (stamp ++ (sized ++ type ∷ (store 4 stream ++ body)));
        after = record (sent id stream type absolute time body c s packed fits) {
          body_size = length body;
        };
        written =
            long_message id stream type absolute time body c s packed fits 0 12 stamp
              (store 4 stream) (rw less refl) refl refl refl (omega arith) (rw less refl);
        reads = λ a.
            build_message-Chunks chunk_size 12 c
              (record c { body_size = length body; time = time; type = type; stream_id = stream }) r
              first (stamp ++ (sized ++ type ∷ (store 4 stream ++ (body ++ tail)))) [] body tail
              (record { network = network; at = a }) (rw f refl)
              (omega (arith, length-append body tail, some_body))
              (λ r1 st.
                header_12 c r1 time (length body) type stream (body ++ tail) low body_small
                  stream_small st)
              refl tt some_body one_chunk (omega arith) body_small
            ∙ ap (λ (x : Channel). some (x, body)) (sym same);
      }

  pub extended-Read :
      (time : ℕ)
      → IsU32 time
      → 0xffffff ≤ time
      → record (sent id stream type absolute time body c s packed fits) { body_size = length body }
        ≡ record c {
          body_size = length body;
          time = time;
          type = type;
          stream_id = stream;
          absolute_time = time;
        }
      → Read time 0
  unfolding header_bytes stream_bytes
  extended-Read time time_small high same =
      let first = bit_or (0 * 2 ^ 6) id in
      let f = first_flag 0 (omega arith) in
      let more : ltb time 0xffffff ≡ false = ground (arith, high) in
      let stamp = store 3 (flip24 0xffffff) in
      let sized = store 3 (flip24 (length body)) in
      let late = store 4 (flip32 time) in
      record {
        bytes = first ∷ (stamp ++ (sized ++ type ∷ (store 4 stream ++ (late ++ body))));
        after = record (sent id stream type absolute time body c s packed fits) {
          body_size = length body;
        };
        written =
            long_message id stream type absolute time body c s packed fits 0 16 stamp
              (store 4 stream ++ late) (rw more refl) refl refl refl (omega arith) (rw more refl);
        reads = λ a.
            build_message-Chunks chunk_size 12 c
              (record c { body_size = length body; time = time; type = type; stream_id = stream }) r
              first (stamp ++ (sized ++ type ∷ (store 4 stream ++ (late ++ (body ++ tail))))) []
              body tail (record { network = network; at = a }) (rw f refl)
              (omega (arith, length-append body tail, some_body))
              (λ r1 st.
                header_16 c r1 time (length body) type stream (body ++ tail) time_small body_small
                  stream_small st)
              refl tt some_body one_chunk (omega arith) body_small
            ∙ ap (λ (x : Channel). some (x, body)) (sym same);
      }
