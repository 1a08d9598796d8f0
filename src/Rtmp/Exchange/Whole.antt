-- ===== src/Rtmp/Exchange/Whole.antt =====
-- A message goes through `write`, `pack` and `buildPacket`, whichever header it gets.
use mona_server.Base.{
  ℕ, ◌+◌, ◌-◌, ◌^◌, ◌<◌, ◌≤◌, ◌≡◌, refl, sym, ap, ◌∙◌, subst, true, false, not, ◌&&◌, List, ◌++◌,
  some, ltb, ◌==◌, if◌then◌else◌, either_way, length, take, drop, take-append_length,
  drop-append_length, arith, Bool-cases, inl, inr,
}
use mona_server.Base.Words.{IsU32, add32}
use mona_server.Binary.Reader.{Reader}
use mona_server.Binary.Reader.Rest.{At}
use mona_server.Rtmp.{Channel, Sender, pack, header_flag, header_time, write, build_message}
use mona_server.Rtmp.Exchange.{Read, bare-Read, timed-Read, sized-Read, full-Read, extended-Read}

-- The writer's next message, with the size that the following `pack` fills in.
abbrev pub send_whole : ℕ → ℕ → ℕ → ℕ → List ℕ → Channel → Sender → Sender × Channel
send_whole id stream type absolute body c s =
    let p = write id stream type absolute (some body) c s in pack p.0 p.1

-- The bytes that it adds to the packet.
abbrev pub added : Sender → Sender × Channel → List ℕ
added s q = drop (length s.packet) q.0.packet

module _ (chunk_size id stream type absolute : ℕ) (body tail : List ℕ) (c : Channel) (s : Sender)
    (r : Reader) (packed : s.size_pos ≡ 0) (fits : length s.packet + 20 + length body < 2 ^ 32)
    (network : r.flip_bytes ≡ true) (id_small : id < 64) (stream_small : IsU32 stream)
    (absolute_small : IsU32 absolute) (some_body : 0 < length body)
    (body_small : length body < 2 ^ 24) (one_chunk : length body ≤ chunk_size) where
  abbrev Fits : ℕ → ℕ → Type 0
  Fits =
      Read chunk_size id stream type absolute body tail c s r packed fits network id_small
        stream_small absolute_small some_body body_small one_chunk

  same_stream :
      (time : ℕ)
      → c.stream_id ≡ stream
      → time < 0xffffff
      → absolute ≡ add32 c.absolute_time time
      → Fits time (header_flag c stream type (some body) time)
  unfolding header_flag
  same_stream time same low sum =
      either_way (Fits time) (not (c.stream_id == stream)) 0 _
        (λ e. absurd (ground (arith, same, e)))
        (λ _.
          either_way (Fits time) (not ((c.type == type) && (c.body_size == length body))) 1 _
            (λ _. sized) equal)
    where
      sized : Fits time 1
      sized =
          sized-Read chunk_size id stream type absolute body tail c s r packed fits network id_small
            stream_small absolute_small some_body body_small one_chunk time low
            (rw (same, sum) refl)

      equal :
          not ((c.type == type) && (c.body_size == length body)) ≡ false
          → Fits time (if not (c.time == time) then 2 else 3)
      equal e =
          let size : c.body_size ≡ length body = ground (arith, e) in
          let kind : c.type ≡ type = ground (arith, e) in
          either_way (Fits time) (not (c.time == time)) 2 3
            (λ _.
              timed-Read chunk_size id stream type absolute body tail c s r packed fits network
                id_small stream_small absolute_small some_body body_small one_chunk time low size
                (rw (same, kind, sum) refl))
            (λ f.
              let still : c.time ≡ time = ground (arith, f) in
              bare-Read chunk_size id stream type absolute body tail c s r packed fits network
                id_small stream_small absolute_small some_body body_small one_chunk time size
                (rw (same, kind, still, sum) refl))

  other_stream :
      (c.stream_id == stream) ≡ false
      → Fits absolute (header_flag c stream type (some body) absolute)
  unfolding header_flag
  other_stream other = elim (Bool-cases (ltb absolute 0xffffff)) [
    | inl e ↦ subst (Fits absolute) (sym none_known) (
        full-Read chunk_size id stream type absolute body tail c s r packed fits network id_small
          stream_small absolute_small some_body body_small one_chunk absolute (ground (arith, e))
          refl)
    | inr e ↦ subst (Fits absolute) (sym none_known) (
        extended-Read chunk_size id stream type absolute body tail c s r packed fits network
          id_small stream_small absolute_small some_body body_small one_chunk absolute
          absolute_small (ground (arith, e)) refl)
  ]
    where
      none_known : header_flag c stream type (some body) absolute ≡ 0
      none_known = rw other refl

  write-Fits :
      c.absolute_time ≤ absolute
      → (c.stream_id ≡ stream → absolute - c.absolute_time < 0xffffff)
      → Fits
          (header_time c stream absolute)
          (header_flag c stream type (some body) (header_time c stream absolute))
  unfolding header_time
  write-Fits later near = elim (Bool-cases (c.stream_id == stream)) [
    | inl e ↦
        let same : c.stream_id ≡ stream = ground (arith, e) in
        subst FitsAt (sym (relative e)) (
          same_stream (absolute - c.absolute_time) same (near same)
            (omega (arith, later, absolute_small)))
    | inr e ↦ subst FitsAt (sym (plain e)) (other_stream e)
  ]
    where
      FitsAt : ℕ → Type 0
      FitsAt t = Fits t (header_flag c stream type (some body) t)

      relative :
          (c.stream_id == stream) ≡ true
          → header_time c stream absolute ≡ absolute - c.absolute_time
      relative e = ground (arith, e, later)

      plain : (c.stream_id == stream) ≡ false → header_time c stream absolute ≡ absolute
      plain e = rw e refl

  -- A writer and a reader have the same channel, the sender waits for no size and stays below 2 ^
  -- 32 bytes, the id is below 64, the stream and the time are UInt32s, the time is not before the
  -- last one, by less than 0xFFFFFF on the same stream, and the body has at least one byte, fewer
  -- than 2 ^ 24, and fits in a chunk. What `write` and the next `pack` add to the sender leaves
  -- the earlier bytes, and `buildPacket`, in network order, reads from it, whatever follows, the
  -- body, and leaves the channel that the writer then has.
  pub write-build_message :
      c.absolute_time ≤ absolute
      → (c.stream_id ≡ stream → absolute - c.absolute_time < 0xffffff)
      → At r (added s (send_whole id stream type absolute body c s) ++ tail)
      → (take (length s.packet) (send_whole id stream type absolute body c s).0.packet ≡ s.packet)
        × (build_message chunk_size c r
            ≡ some ((send_whole id stream type absolute body c s).1, body))
  unfolding write
  write-build_message later near a =
      let q = send_whole id stream type absolute body c s in
      let f = write-Fits later near in
      let kept : q.0.packet ≡ s.packet ++ f.bytes = f.written.packet_is in
      let new : added s q ≡ f.bytes =
        ap (drop (length s.packet)) kept ∙ drop-append_length s.packet f.bytes in
      (
        ap (take (length s.packet)) kept ∙ take-append_length s.packet f.bytes,
        f.reads (subst (λ (xs : List ℕ). At r (xs ++ tail)) new a)
            ∙ ap (λ (c' : Channel). some (c', body)) (sym f.written.channel_is),
      )
