-- ===== src/Rtmp/Messages.antt =====
-- How `buildPacket` reads the parts of a message.
use mona_server.Base.{
  ℕ, ◌+◌, ◌-◌, ◌*◌, ◌/◌, ◌%◌, ◌^◌, ◌<◌, ◌≤◌, ◌≡◌, refl, ap, ◌∙◌, subst, false, List, ◌∷◌, ◌++◌,
  some, ltb, ◌==◌, if◌then◌else◌, length, length-append, length-take, length-drop, take, drop,
  take-append_length, arith,
}
use mona_server.Base.Words.{IsU32, add32}
use mona_server.Binary.{store, flip24, flip32}
use mona_server.Binary.Reader.{Reader, available, shrink, read8, read24}
use mona_server.Binary.Reader.Rest.{At, IsValid, rest, shrink-At, available-length}
use mona_server.Rtmp.{
  Channel, read_size_type, read_extended, read_header, chunk_count, finish, build_message,
  join_chunks,
}
use mona_server.Rtmp.Chunks.{
  Cut, chunked, whole, AreFull, length-chunked, chunk_count-chunked, joined-chunks,
}
use mona_server.Rtmp.Fields.{
  Stands, available-Stands, byte_read, word24_read, Parses, size_8, size_12, timed, extended_none,
  extended_some,
}

length-rest : (r : Reader) → IsValid r → length (rest r) ≡ r.end - r.current
length-rest r v = omega (
  arith,
  length-take (r.end - r.current) (drop r.current r.memory),
  length-drop r.current r.memory,
  v,
)

-- The end: the chunks of the body are there.
pub body_read :
    (chunk_size head : ℕ) (c : Channel) (r : Reader) (cut : Cut) (last tail : List ℕ)
    → c.body_size ≡ length (whole cut last)
    → AreFull chunk_size cut
    → 0 < length last
    → length last ≤ chunk_size
    → length cut + 1 < 2 ^ 16
    → length (whole cut last) < 2 ^ 24
    → Stands r (chunked cut last ++ tail)
    → finish chunk_size head c r
      ≡ some (
        record c { absolute_time = if ltb head 12 then add32 c.absolute_time c.time else c.time },
        whole cut last,
      )
unfolding finish
body_read chunk_size head c r cut last tail size full some_bytes fits few small s =
    let bytes = chunked cut last in
    let between : chunk_count c.body_size chunk_size ≡ length cut =
      ap (λ (n : ℕ). chunk_count n chunk_size) size
      ∙ chunk_count-chunked chunk_size cut last full some_bytes fits few in
    let rounds : (length cut + 1) % 2 ^ 16 - 1 ≡ length cut = omega arith in
    let total : add32 c.body_size (length cut) ≡ length bytes =
      omega (arith, size, small, few, length-chunked cut last) in
    let enough : ltb (available r) (length bytes) ≡ false =
      ground (arith, available-Stands r (bytes ++ tail) s, length-append bytes tail) in
    let packet = shrink r (length bytes) in
    let cut_off : At packet bytes =
      subst (At packet) (ap (take (length bytes)) s.at.unread ∙ take-append_length bytes tail)
        (shrink-At r s.at.valid (length bytes)) in
    let held : take (available packet) (drop packet.current packet.memory) ≡ bytes =
      ap (λ (k : ℕ). take k (drop packet.current packet.memory))
        (available-length packet cut_off.valid ∙ length-rest packet cut_off.valid)
      ∙ cut_off.unread in
    rw (between, total, enough, rounds, held)
      (ap
        (λ (xs : List ℕ). some (
          record c { absolute_time = if ltb head 12 then add32 c.absolute_time c.time else c.time },
          xs,
        ))
        (ap (λ (n : ℕ). take n (join_chunks (length cut) chunk_size n 1 chunk_size bytes)) size
          ∙ joined-chunks chunk_size cut last full fits))

pub header_4 :
    (c : Channel) (r : Reader) (t : ℕ) (xs : List ℕ)
    → t < 0xffffff
    → Stands r (store 3 (flip24 t) ++ xs)
    → Parses (read_header 4 c r) (timed c t) xs some
unfolding read_header read_size_type
header_4 c r t xs h s =
    let a = word24_read r t xs (omega arith) s in
    record {
      left = (read24 r).1;
      gives =
          ap (λ (n : ℕ). read_extended (timed c n) (read24 r).1) a.0
          ∙ extended_none (timed c t) (read24 r).1 h;
      stands = a.1;
    }

pub header_8 :
    (c : Channel) (r : Reader) (t n type : ℕ) (xs : List ℕ)
    → t < 0xffffff
    → n < 2 ^ 24
    → Stands r (store 3 (flip24 t) ++ (store 3 (flip24 n) ++ type ∷ xs))
    → Parses (read_header 8 c r) (record c { body_size = n; time = t; type = type }) xs some
unfolding read_header
header_8 c r t n type xs h k s =
    let a = word24_read r t (store 3 (flip24 n) ++ type ∷ xs) (omega arith) s in
    let r1 = (read24 r).1 in
    let b = size_8 (timed c t) r1 n type xs k a.1 in
    record {
      left = b.left;
      gives =
          ap (λ (m : ℕ). let p = read_size_type 8 (timed c m) r1 in read_extended p.0 p.1) a.0
          ∙ ap (λ (p : Channel × Reader). read_extended p.0 p.1) b.gives
          ∙ extended_none (record c { body_size = n; time = t; type = type }) b.left h;
      stands = b.stands;
    }

pub header_12 :
    (c : Channel) (r : Reader) (t n type stream : ℕ) (xs : List ℕ)
    → t < 0xffffff
    → n < 2 ^ 24
    → IsU32 stream
    → Stands r (store 3 (flip24 t) ++ (store 3 (flip24 n) ++ type ∷ (store 4 stream ++ xs)))
    → Parses
        (read_header 12 c r)
        (record c { body_size = n; time = t; type = type; stream_id = stream })
        xs
        some
unfolding read_header
header_12 c r t n type stream xs h k l s =
    let a = word24_read r t (store 3 (flip24 n) ++ type ∷ (store 4 stream ++ xs)) (omega arith) s in
    let r1 = (read24 r).1 in
    let b = size_12 (timed c t) r1 n type stream xs k l a.1 in
    record {
      left = b.left;
      gives =
          ap (λ (m : ℕ). let p = read_size_type 12 (timed c m) r1 in read_extended p.0 p.1) a.0
          ∙ ap (λ (p : Channel × Reader). read_extended p.0 p.1) b.gives
          ∙ extended_none (record c { body_size = n; time = t; type = type; stream_id = stream })
              b.left h;
      stands = b.stands;
    }

-- The extended time.
pub header_16 :
    (c : Channel) (r : Reader) (t n type stream : ℕ) (xs : List ℕ)
    → IsU32 t
    → n < 2 ^ 24
    → IsU32 stream
    → Stands r (
        store 3 (flip24 0xffffff)
        ++ (store 3 (flip24 n) ++ type ∷ (store 4 stream ++ (store 4 (flip32 t) ++ xs))))
    → Parses
        (read_header 12 c r)
        (record c { body_size = n; time = t; type = type; stream_id = stream })
        xs
        some
unfolding read_header
header_16 c r t n type stream xs h k l s =
    let more = store 4 (flip32 t) ++ xs in
    let a =
      word24_read r 0xffffff (store 3 (flip24 n) ++ type ∷ (store 4 stream ++ more)) (omega arith)
        s in
    let r1 = (read24 r).1 in
    let b = size_12 (timed c 0xffffff) r1 n type stream more k l a.1 in
    let full : Channel = record c {
      body_size = n;
      time = 0xffffff;
      type = type;
      stream_id = stream;
    } in
    let d = extended_some full b.left t xs refl h b.stands in
    record {
      left = d.left;
      gives =
          ap (λ (m : ℕ). let p = read_size_type 12 (timed c m) r1 in read_extended p.0 p.1) a.0
          ∙ ap (λ (p : Channel × Reader). read_extended p.0 p.1) b.gives
          ∙ d.gives;
      stands = d.stands;
    }

-- A message whose first byte and header are read, and whose body comes in chunks.
pub build_message-Chunks :
    (chunk_size head : ℕ) (c c' : Channel) (r : Reader) (first : ℕ) (head_bytes : List ℕ)
    (cut : Cut) (last tail : List ℕ)
    → Stands r (first ∷ head_bytes)
    → (if 12 - 4 * (first / 2 ^ 6) == 0 then 1 else 12 - 4 * (first / 2 ^ 6)) ≡ head
    → head ≤ length head_bytes
    → ((r1 : Reader)
        → Stands r1 head_bytes
        → Parses (read_header head c r1) c' (chunked cut last ++ tail) some)
    → c'.body_size ≡ length (whole cut last)
    → AreFull chunk_size cut
    → 0 < length last
    → length last ≤ chunk_size
    → length cut + 1 < 2 ^ 16
    → length (whole cut last) < 2 ^ 24
    → build_message chunk_size c r
      ≡ some (
        record c' {
          absolute_time = if ltb head 12 then add32 c'.absolute_time c'.time else c'.time;
        },
        whole cut last,
      )
unfolding build_message
build_message-Chunks chunk_size head c c' r first head_bytes cut last tail s head_is long parse size
      full some_bytes fits few small =
    let a = byte_read r first head_bytes s in
    let p = parse (read8 r).1 a.1 in
    let enough : ltb (available (read8 r).1) head ≡ false =
      ground (arith, available-Stands (read8 r).1 head_bytes a.1, long) in
    rw (a.0, head_is, enough, p.gives)
      (body_read chunk_size head c' p.left cut last tail size full some_bytes fits few small
        p.stands)
