-- ===== src/Rtmfp/Writer.antt =====
-- `RTMFPWriter` and `RTMFPMessage` of MonaCore/include/Mona/RTMFP and
-- MonaCore/sources/RTMFP/RTMFPWriter.cpp: the messages of a flow, cut into fragments and sent.
-- `now` is the clock. `none` is a call that never returns. Handlers and logging are left out.
pub mod Repeat
pub mod Acknowledge
pub mod Pieces
pub mod Marks
pub mod Rounds
pub mod Received
use mona_server.Base.{
  ℕ, zero, suc, ◌+◌, ◌-◌, ◌%◌, ◌^◌, Bool, true, false, not, ◌&&◌, ◌||◌, List, [], ◌∷◌, ◌++◌, Option,
  none, some, ltb, leb, ◌==◌, if◌then◌else◌, ◌>>=◌, length, take, drop, bit_or,
}
use mona_server.Base.Words.{add32, sub32, add64, sub64}
use mona_server.Binary.{store, flip32}
use mona_server.Binary.Reader.{Reader}
use mona_server.Binary.Writer.{get7_bit_value_size}
use mona_server.Quality.{Quality}
use mona_server.Trigger
use mona_server.Trigger.{Trigger}
use mona_server.Rtmfp.Fragment.{Field, long_value, byte, text8, raw_bytes, unread}
use mona_server.Rtmfp.Flow.{data_type}
use mona_server.Rtmfp.Band
use mona_server.Rtmfp.Band.{Band, available_to_write, can_write_following, write_message}

-- `RTMFPMessage`: `fragments` has the stage of each fragment at its place, by ascending places.
-- `sending_time` is 0, in place of the time of the construction, until a fragment is sent.
pub record RtmfpMessage : Type 0 where
  pub repeatable : Bool
  pub content : List ℕ
  pub fragments : List (ℕ × ℕ)
  pub sending_time : ℕ

pub data State : Type 0 where
  connecting connected closed : State

abbrev pub is_closed : State → Bool
is_closed closed = true
is_closed _ = false

abbrev pub is_connecting : State → Bool
is_connecting connecting = true
is_connecting _ = false

-- `connected_size` is none for -1.
pub record RtmfpWriter : Type 0 where
  pub id : ℕ
  pub flow_id : ℕ
  pub critical : Bool
  pub signature : List ℕ
  pub reliable : Bool
  pub state : State
  pub stage : ℕ
  pub stage_ack : ℕ
  pub messages : List RtmfpMessage
  pub messages_sent : List RtmfpMessage
  pub connected_size : Option ℕ
  pub lost_count : ℕ
  pub ack_count : ℕ
  pub repeatable : ℕ
  pub trigger : Trigger
  pub quality : Quality

-- What the signature takes in a header, as long as nothing is acknowledged.
unfoldable pub signature_size : RtmfpWriter → Option ℕ
signature_size w =
    if ltb 0 w.stage_ack
    then some 0
    else if w.flow_id == 0
    then some (length w.signature + 2)
    else (do n ← get7_bit_value_size w.flow_id; some (length w.signature + (4 + n)))

unfoldable pub header_size : RtmfpWriter → ℕ → Option ℕ
header_size w stage = do
  id_size ← get7_bit_value_size w.id
  stage_size ← get7_bit_value_size stage
  delta_size ← get7_bit_value_size (sub64 stage w.stage_ack)
  signed ← signature_size w
  some (id_size + stage_size + delta_size + signed)

-- `flush(BinaryWriter&, ...)`: the flags and the fields of one fragment. Where the size of the id of
-- the flow is never returned, neither is that of its field.
unfoldable pub fragment_flags : RtmfpWriter → ℕ → Bool → List ℕ → ℕ
fragment_flags w flags header content =
    let with_header = if (w.stage_ack == 0) && header then bit_or flags 0x80 else flags in
    let with_abandonment = if length content == 0 then bit_or with_header 0x02 else with_header in
    if is_closed w.state && (length w.messages == 1)
    then bit_or with_abandonment 0x01
    else with_abandonment

unfoldable pub signature_fields : RtmfpWriter → List Field
signature_fields w =
    text8 w.signature
    ∷ (if ltb 0 w.flow_id
        then byte (elim (get7_bit_value_size w.flow_id) [ none ↦ 0 | some n ↦ (1 + n) % 2 ^ 8 ])
          ∷ byte 0x0a
          ∷ long_value w.flow_id
          ∷ byte 0
          ∷ []
        else byte 0 ∷ [])

unfoldable pub fragment_fields : RtmfpWriter → ℕ → ℕ → Bool → List ℕ → List Field
fragment_fields w stage flags header content =
    let body = if ltb 0 (length content) then raw_bytes content ∷ [] else [] in
    let signed = if w.stage_ack == 0 then signature_fields w ++ body else body in
    byte (fragment_flags w flags header content)
    ∷ (if header
        then long_value w.id ∷ long_value stage ∷ long_value (sub64 stage w.stage_ack) ∷ signed
        else body)

-- `fragments[place] = stage` in the map.
unfoldable pub assign : ℕ → ℕ → List (ℕ × ℕ) → List (ℕ × ℕ)
assign place stage [] = (place, stage) ∷ []
assign place stage ((p, s) ∷ rest) =
    if ltb p place
    then (p, s) ∷ assign place stage rest
    else if p == place
    then (place, stage) ∷ rest
    else (place, stage) ∷ (p, s) ∷ rest

-- One round of the loop of `flush` over a message: what is sent from `place` on.
pub record Round : Type 0 where
  pub writer : RtmfpWriter
  pub band : Band
  pub header : Bool
  pub message : RtmfpMessage
  pub count : ℕ

abbrev pub place_flags : ℕ → Bool → ℕ
place_flags place after = bit_or (if ltb 0 place then 0x20 else 0) (if after then 0x10 else 0)

abbrev pub message_kind : Bool → ℕ
message_kind header = if header then 0x10 else 0x11

-- A packet with too little room is sent first. The size of a header is 0 where none is written.
unfoldable pub prepare : RtmfpWriter → Band → Bool → Option (Band × Bool × ℕ)
prepare w b header = do
  known ← if header && ltb (available_to_write b) 62 then header_size w w.stage else some 0
  let full = ltb (available_to_write b) (known + 12)
  let header' = full || header
  head ← if not header' then some 0 else if ltb 0 known then some known else header_size w w.stage
  some (if full then Band.flush b else b, header', head)

unfoldable pub send_piece : RtmfpWriter → Band → Bool → ℕ → RtmfpMessage → ℕ → ℕ → Option Round
send_piece w b header head m place now = do
  let available = length m.content - place
  let size = add32 (add32 available 4) head
  let room = available_to_write b
  let cut = ltb room size
  let count = if cut then sub32 room (sub32 size available) else available
  let piece = take (count % 2 ^ 16) (drop place m.content)
  b' ←
      write_message b (message_kind header) (sub32 (if cut then room else size) 3 % 2 ^ 16)
        (some w.id) (fragment_fields w w.stage (place_flags place cut) header piece)
  some (record {
    writer = w;
    band = b';
    header = cut;
    message = record m { fragments = assign place w.stage m.fragments; sending_time = now };
    count = count;
  })

unfoldable pub send_round : RtmfpWriter → Band → Bool → RtmfpMessage → ℕ → ℕ → Option Round
send_round w b header m place now = do
  let w' = record w { stage = add64 w.stage 1 }
  (b', header', head) ← prepare w' b header
  send_piece w' b' header' head m place now

-- The loop, with fuel: a round that sends nothing of a message that is not empty repeats for ever.
unfoldable pub send_loop : ℕ → RtmfpWriter → Band → Bool → RtmfpMessage → ℕ → ℕ → Option Round
send_loop zero w b header m place now = none
send_loop (suc fuel) w b header m place now = do
  r ← send_round w b header m place now
  let rest = send_loop fuel r.writer r.band r.header r.message (place + r.count) now
  if ltb (place + r.count) (length m.content) then rest else some r

unfoldable pub started : RtmfpWriter → RtmfpMessage → ℕ → RtmfpWriter
started w m now =
    if m.repeatable
    then record w { repeatable = add32 w.repeatable 1; trigger = Trigger.start w.trigger now }
    else w

unfoldable pub flush_messages :
    List RtmfpMessage → RtmfpWriter → Band → Bool → ℕ → Option (RtmfpWriter × Band)
flush_messages [] w b header now = some (w, b)
flush_messages (m ∷ rest) w b header now = do
  r ← send_loop (suc (length m.content)) (started w m now) b header m 0 now
  let w' = record (r.writer) {
    messages = rest;
    messages_sent = r.writer.messages_sent ++ r.message ∷ [];
  }
  flush_messages rest w' r.band r.header now

unfoldable pub flush : RtmfpWriter → Band → Bool → ℕ → Option (RtmfpWriter × Band)
flush w b full now = if is_connecting w.state then some (w, b) else (do
  (w', b') ← flush_messages w.messages w b (not (can_write_following b w.id)) now
  some (w', if full then Band.flush b' else b'))

-- `createBufferedMessage`, with what the caller writes into it. No signature is the writer of the
-- null flow.
unfoldable pub create_buffered : RtmfpWriter → Band → List ℕ → RtmfpWriter
create_buffered w b content =
    if is_closed w.state || (length w.signature == 0) || b.failed
    then w
    else let message : RtmfpMessage = record {
      repeatable = w.reliable;
      content = content;
      fragments = [];
      sending_time = 0;
    } in
      record w { messages = w.messages ++ message ∷ [] }

unfoldable pub write_raw : RtmfpWriter → Band → List ℕ → ℕ → Option (RtmfpWriter × Band)
write_raw w b content now =
    if w.reliable || is_connecting w.state
    then some (create_buffered w b content, b)
    else if is_closed w.state || (length w.signature == 0) || b.failed
    then some (w, b)
    else let message : RtmfpMessage = record {
      repeatable = false;
      content = content;
      fragments = [];
      sending_time = 0;
    } in
      flush (record w { messages = w.messages ++ message ∷ [] }) b false now

-- `write`: the type, the time in network order, and for data a null byte, in front of the packet.
unfoldable pub head_bytes : ℕ → ℕ → List ℕ
head_bytes type time = type ∷ store 4 (flip32 time) ++ (if type == data_type then 0 ∷ [] else [])

unfoldable pub write : RtmfpWriter → Band → ℕ → ℕ → Option Reader → ℕ → Option (RtmfpWriter × Band)
write w b type time packet now = elim packet [
  | none ↦ some (create_buffered w b (head_bytes type time), b)
  | some p ↦
      if not w.reliable && leb (if type == data_type then 6 else 5) p.current
      then write_raw w b (head_bytes type time ++ unread p) now
      else some (create_buffered w b (head_bytes type time ++ unread p), b)
]

-- `state(value, minimal)` for a value that is not GET.
unfoldable pub set_state : RtmfpWriter → State → Bool → RtmfpWriter
set_state w value minimal =
    if is_connecting value
    then record w { connected_size = some (length w.messages); state = value }
    else record w {
      messages = elim w.connected_size [
        | none ↦ w.messages
        | some n ↦ if minimal || is_closed value then take n w.messages else w.messages
      ];
      connected_size = none;
      state = value;
    }

abbrev pub some_connected : Option ℕ → Bool
some_connected none = false
some_connected (some n) = ltb 0 n

unfoldable pub close : RtmfpWriter → Band → ℕ → Option (RtmfpWriter × Band)
close w b now =
    if is_closed w.state
    then some (w, b)
    else let ended =
        if ltb 0 w.stage || some_connected w.connected_size || ltb 0 (length w.messages)
        then create_buffered w b []
        else w in
      flush (set_state ended closed false) b false now
