-- ===== src/Rtmfp/Writer/Pieces.antt =====
-- `RTMFPWriter::flush`: the size that is declared for a fragment is what is written of it.
use mona_server.Base.{
  ℕ, ◌+◌, ◌-◌, ◌%◌, ◌^◌, ◌≤◌, ◌<◌, ◌≡◌, ◌⊎◌, refl, sym, ap, ◌∙◌, Bool, true, false, inl, inr,
  Bool-cases, List, [], ◌∷◌, ◌++◌, Option, some, ltb, if◌then◌else◌, length, take, drop,
  length-take, length-drop, arith,
}
use mona_server.Base.Words.{add32, add64, sub32, sub64}
use mona_server.Binary.Writer.{get7_bit_value_size}
use mona_server.Binary.Writer.Sizes.{get7_bit_value_size-IsGroupCount}
use mona_server.Rtmfp.Fragment.{Sent}
use mona_server.Rtmfp.Band
use mona_server.Rtmfp.Band.{
  Band, available_to_write, write_message, fields_size, opened, opened_size,
}
use mona_server.Rtmfp.Band.Log.{IsValid, log, flush-Flushed, written, room_is}
use mona_server.Rtmfp.Writer.{
  RtmfpMessage, RtmfpWriter, Round, assign, signature_size, header_size, signature_fields,
  fragment_fields, send_piece, prepare, send_round, place_flags, message_kind,
}

-- A writer whose headers take 50 bytes at most, at its stage.
pub record IsSmall (w : RtmfpWriter) : Type 0 where
  pub id_small : w.id < 2 ^ 63
  pub flow_small : w.flow_id < 2 ^ 63
  pub stage_small : w.stage < 2 ^ 63
  pub behind : w.stage_ack ≤ w.stage
  pub short : length w.signature ≤ 10

sized : (v : ℕ) → v < 2 ^ 63 → (n : ℕ) × (get7_bit_value_size v ≡ some n) × (1 ≤ n) × (n ≤ 9)
sized v h =
    let (n, e, count, few) = get7_bit_value_size-IsGroupCount v h in (n, e, count.some_group, few)

-- The sizes of a header, and of the fields that it has.
record Header (w : RtmfpWriter) : Type 0 where
  head : ℕ
  head_is : header_size w w.stage ≡ some head
  some_head : 3 ≤ head
  small : head ≤ 50
  fields_are :
      (flags : ℕ) (content : List ℕ)
      → fields_size (fragment_fields w w.stage flags true content)
        ≡ some (1 + head + length content)

header_lem : (w : RtmfpWriter) → IsSmall w → Header w
unfolding header_size signature_size fragment_fields signature_fields
header_lem w s =
    let (a, a_is, a1, a9) = sized w.id s.id_small in
    let (b, b_is, b1, b9) = sized w.stage s.stage_small in
    let (c, c_is, c1, c9) =
      sized (sub64 w.stage w.stage_ack) (omega (arith, s.stage_small, s.behind)) in
    let (d, d_is, d1, d9) = sized w.flow_id s.flow_small in
    record {
      head =
          a
          + b
          + c
          + (if ltb 0 w.stage_ack
              then 0
              else if ltb 0 w.flow_id
              then length w.signature + (4 + d)
              else length w.signature + 2);
      head_is = ground (arith, a_is, b_is, c_is, d_is);
      some_head = omega arith;
      small = ground (arith, s.short);
      fields_are = λ flags content. ground (arith, a_is, b_is, c_is, d_is);
    }

-- A packet with room for a header and some bytes.
record Prepared (w : RtmfpWriter) (b : Band) (result : Option (Band × Bool × ℕ)) : Type 0 where
  band : Band
  header : Bool
  head : ℕ
  returns : result ≡ some (band, header, head)
  same_log : log band ≡ log b
  valid : IsValid band
  room : head + 12 ≤ available_to_write band
  small : head ≤ 50
  fields_are :
      (flags : ℕ) (content : List ℕ)
      → fields_size (fragment_fields w w.stage flags header content)
        ≡ some (1 + head + length content)

no_header :
    (w : RtmfpWriter) (flags : ℕ) (content : List ℕ)
    → fields_size (fragment_fields w w.stage flags false content) ≡ some (1 + 0 + length content)
unfolding fragment_fields
no_header w flags content = ground arith

prepare_cases :
    (w : RtmfpWriter) (b : Band) (header : Bool) (h : ℕ)
    → header_size w w.stage ≡ some h
    → 3 ≤ h
    → h ≤ 50
    → (prepare w b header ≡ some (Band.flush b, true, h))
      ⊎ ((prepare w b header ≡ some (b, header, if header then h else 0))
          × ((if header then h else 0) + 12 ≤ available_to_write b))
unfolding prepare
prepare_cases w b true h e low high = elim (Bool-cases (ltb (available_to_write b) 62)) [
  | inl little ↦ elim (Bool-cases (ltb (available_to_write b) (h + 12))) [
    | inl full ↦ inl (ground (arith, little, e, full))
    | inr room ↦ inr (ground (arith, little, e, room), ground (arith, room))
  ]
  | inr much ↦ inr (ground (arith, much, e), ground (arith, much))
]
prepare_cases w b false h e low high = elim (Bool-cases (ltb (available_to_write b) 12)) [
  | inl full ↦ inl (ground (arith, e, full))
  | inr room ↦ inr (ground (arith, e, room), ground (arith, room))
]

measured :
    (w : RtmfpWriter) (h : Header w) (header : Bool) (flags : ℕ) (content : List ℕ)
    → fields_size (fragment_fields w w.stage flags header content)
      ≡ some (1 + (if header then h.head else 0) + length content)
measured w h true flags content = h.fields_are flags content
measured w h false flags content = no_header w flags content

prepare-Prepared :
    (w : RtmfpWriter) (b : Band) (header : Bool)
    → IsSmall w
    → IsValid b
    → Prepared w b (prepare w b header)
prepare-Prepared w b header s v =
    let h = header_lem w s in
    let f = flush-Flushed b v in
    elim (prepare_cases w b header h.head h.head_is h.some_head h.small) [
      | inl full ↦ record {
        band = Band.flush b;
        header = true;
        head = h.head;
        returns = full;
        same_log = f.same_log;
        valid = f.valid;
        room = omega (arith, f.room, h.small);
        small = h.small;
        fields_are = h.fields_are;
      }
      | inr (same, enough) ↦ record {
        band = b;
        header = header;
        head = if header then h.head else 0;
        returns = same;
        same_log = refl;
        valid = v;
        room = enough;
        small = ground (arith, h.small);
        fields_are = measured w h header;
      }
    ]

-- What one round of the loop of `flush` does to the message and to the band.
pub record Sends (w : RtmfpWriter) (b : Band) (m : RtmfpMessage) (place : ℕ) (result : Option Round)
    : Type 0 where
  pub round : Round
  pub returns : result ≡ some round
  pub same_writer : round.writer ≡ w
  pub same_content : round.message.content ≡ m.content
  pub valid : IsValid round.band
  pub message : Sent
  pub logged : log round.band ≡ log b ++ message ∷ []
  pub declared : fields_size message.fields ≡ some message.size
  pub head : Bool
  pub fields_are :
      message.fields
      ≡ fragment_fields w w.stage
          (place_flags place (ltb (place + round.count) (length m.content)))
          head
          (take round.count (drop place m.content))
  pub within : place + round.count ≤ length m.content
  pub forward : (place + round.count ≡ length m.content) ⊎ (1 ≤ round.count)

abbrev sent_round : RtmfpWriter → Bool → RtmfpMessage → ℕ → ℕ → Bool → ℕ → Band → Round
sent_round w header m place now cut count band = record {
  writer = w;
  band = band;
  header = cut;
  message = record m { fragments = assign place w.stage m.fragments; sending_time = now };
  count = count;
}

-- `cut`, `count` and `size` are what the round computes.
send_piece-eq :
    (w : RtmfpWriter) (b : Band) (header : Bool) (head : ℕ) (m : RtmfpMessage) (place now : ℕ)
    (cut : Bool) (count size : ℕ) (band : Band)
    → ltb (available_to_write b) (add32 (add32 (length m.content - place) 4) head) ≡ cut
    → (if cut
        then sub32
            (available_to_write b)
            (sub32 (add32 (add32 (length m.content - place) 4) head) (length m.content - place))
        else length m.content - place)
      ≡ count
    → count < 2 ^ 16
    → sub32
          (if cut then available_to_write b else add32 (add32 (length m.content - place) 4) head)
          3
        % 2 ^ 16
      ≡ size
    → write_message b (message_kind header) size (some w.id) (
        fragment_fields w w.stage
          (place_flags place cut)
          header
          (take count (drop place m.content)))
      ≡ some band
    → send_piece w b header head m place now ≡ some (sent_round w header m place now cut count band)
unfolding send_piece
send_piece-eq w b header head m place now cut count size band e1 e2 small e3 e4 =
    let whole : count % 2 ^ 16 ≡ count = omega arith in rw (e1, e2, whole, e3, e4) refl

module _ (w : RtmfpWriter) (b : Band) (header : Bool) (head : ℕ) (m : RtmfpMessage) (place now : ℕ)
    (v : IsValid b) (room : head + 12 ≤ available_to_write b) (small : head ≤ 50)
    (fields : (flags : ℕ) (content : List ℕ)
      → fields_size (fragment_fields w w.stage flags header content)
        ≡ some (1 + head + length content))
    (big : length m.content < 2 ^ 31) (inside : place ≤ length m.content) where
  length-piece :
      (count : ℕ)
      → count ≤ length m.content - place
      → length (take count (drop place m.content)) ≡ count
  length-piece count h =
      omega (arith, length-take count (drop place m.content), length-drop place m.content)

  piece-Sends :
      (cut : Bool) (count : ℕ)
      → ltb (available_to_write b) (add32 (add32 (length m.content - place) 4) head) ≡ cut
      → (if cut
          then sub32
              (available_to_write b)
              (sub32 (add32 (add32 (length m.content - place) 4) head) (length m.content - place))
          else length m.content - place)
        ≡ count
      → count < 2 ^ 16
      → sub32
            (if cut then available_to_write b else add32 (add32 (length m.content - place) 4) head)
            3
          % 2 ^ 16
        ≡ 1 + head + count
      → 1 + head + count + 3 ≤ available_to_write b
      → count ≤ length m.content - place
      → ltb (place + count) (length m.content) ≡ cut
      → ((place + count ≡ length m.content) ⊎ (1 ≤ count))
      → Sends w b m place (send_piece w b header head m place now)
  piece-Sends cut count e1 e2 c e3 fit le after forward =
      let piece = take count (drop place m.content) in
      let written_fields = fragment_fields w w.stage (place_flags place cut) header piece in
      let sizes : fields_size written_fields ≡ some (1 + head + count) =
        fields (place_flags place cut) piece
        ∙ ap (λ (n : ℕ). some (1 + head + n)) (length-piece count le) in
      let (band, wrote, valid, logged) =
        written b (message_kind header) (1 + head + count) (some w.id) written_fields v sizes fit in
      record {
        round = sent_round w header m place now cut count band;
        returns =
            send_piece-eq w b header head m place now cut count (1 + head + count) band e1 e2 c e3
              wrote;
        same_writer = refl;
        same_content = refl;
        valid = valid;
        message = record {
          kind = message_kind header;
          size = 1 + head + count;
          fields = written_fields;
        };
        logged = logged;
        declared = sizes;
        head = header;
        fields_are =
            ap (λ (t : Bool). fragment_fields w w.stage (place_flags place t) header piece)
              (sym after);
        within = omega arith;
        forward = forward;
      }

  send_piece-Sends : Sends w b m place (send_piece w b header head m place now)
  send_piece-Sends =
      let r = room_is b v in
      elim (Bool-cases
        (ltb (available_to_write b) (add32 (add32 (length m.content - place) 4) head))) [
          | inl cut ↦
              piece-Sends true (available_to_write b - (4 + head)) cut
                (ground (arith, r, room, small, big, inside)) (omega (arith, r))
                (ground (arith, r, room)) (omega (arith, room)) (ground (arith, cut, big))
                (ground (arith, cut, big, room, inside)) (inr (omega (arith, room)))
          | inr whole ↦
              piece-Sends false (length m.content - place) whole refl
                (ground (arith, r, whole, big, small)) (ground (arith, big, small))
                (ground (arith, whole, big, small)) (omega arith) (ground (arith, inside))
                (inl (omega (arith, inside)))
        ]

Sends-relog :
    (w : RtmfpWriter) (b c : Band) (m : RtmfpMessage) (place : ℕ) (result : Option Round)
    → log c ≡ log b
    → Sends w c m place result
    → Sends w b m place result
Sends-relog w b c m place result e d = record {
  round = d.round;
  returns = d.returns;
  same_writer = d.same_writer;
  same_content = d.same_content;
  valid = d.valid;
  message = d.message;
  logged = d.logged ∙ ap (λ (l : List Sent). l ++ d.message ∷ []) e;
  declared = d.declared;
  head = d.head;
  fields_are = d.fields_are;
  within = d.within;
  forward = d.forward;
}

-- On a valid band, with an id, a flow id and a next stage below 2 ^ 63 and not before the
-- acknowledged one, a signature of at most ten bytes and fewer than 2 ^ 31 bytes in the message: a
-- round of `flush` returns and writes one message more to the band. The size it declares is
-- exactly what its fields take, its piece stays within the message and has at least a byte unless
-- nothing is left, and the packet stays within 1192 bytes.
pub send_round-Sends :
    (w : RtmfpWriter) (b : Band) (header : Bool) (m : RtmfpMessage) (place now : ℕ)
    → IsSmall (record w { stage = w.stage + 1 })
    → IsValid b
    → length m.content < 2 ^ 31
    → place ≤ length m.content
    → Sends (record w { stage = w.stage + 1 }) b m place (send_round w b header m place now)
unfolding send_round
send_round-Sends w b header m place now s v big inside =
    let next : add64 w.stage 1 ≡ w.stage + 1 = omega (arith, s.stage_small) in
    let w' : RtmfpWriter = record w { stage = w.stage + 1 } in
    let p = prepare-Prepared w' b header s v in
    let d =
      send_piece-Sends w' p.band p.header p.head m place now p.valid p.room p.small p.fields_are big
        inside in
    rw (next, p.returns) (Sends-relog w' b p.band m place _ p.same_log d)
