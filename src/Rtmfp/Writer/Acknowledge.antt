-- ===== src/Rtmfp/Writer/Acknowledge.antt =====
-- `RTMFPWriter::acknowledgment` of MonaCore/sources/RTMFP/RTMFPWriter.cpp: what the peer has
-- received is let go, and what it says to have lost is sent again.
use mona_server.Base.{
  ℕ, zero, suc, ◌+◌, ◌*◌, ◌%◌, ◌^◌, Bool, true, false, not, ◌&&◌, ◌||◌, List, [], ◌∷◌, ◌++◌, Option,
  none, some, ltb, leb, ◌==◌, if◌then◌else◌, ◌>>=◌, length, take, drop,
}
use mona_server.Base.Words.{add32, sub32, add64, sub64}
use mona_server.Binary.Reader.{Reader, available, read7_bit_long_value}
use mona_server.Quality
use mona_server.Trigger
use mona_server.Rtmfp.Band
use mona_server.Rtmfp.Band.{Band, available_to_write, write_message}
use mona_server.Rtmfp.Writer.{
  RtmfpMessage, RtmfpWriter, header_size, fragment_fields, place_flags, message_kind,
}
use mona_server.Rtmfp.Writer.Repeat.{Outcome, fail, next_place, is_some}

-- The locals of `acknowledgment`. `max_stage` is `maxStageRecv`.
pub record Acking : Type 0 where
  pub writer : RtmfpWriter
  pub band : Band
  pub packet : Reader
  pub stage_readen : ℕ
  pub max_stage : ℕ
  pub stage : ℕ
  pub lost_count : ℕ
  pub lost_stage : ℕ
  pub repeated : Bool
  pub header : Bool
  pub stop : Bool

-- The loop that sums up what was received; each round reads two values, so that the fuel is the
-- number of bytes.
unfoldable pub sum_received : ℕ → Reader → ℕ → ℕ
sum_received zero packet sum = sum
sum_received (suc fuel) packet sum =
    let (missing, r) = read7_bit_long_value packet in
    let (count, r') = read7_bit_long_value r in
    let rest = sum_received fuel r' (add64 sum (add64 (add64 missing count) 2)) in
    if available packet == 0 then sum else rest

-- `lostCount` and `lostStage` from the next pair of the packet.
unfoldable pub read_pair : Acking → Acking
read_pair a =
    let (missing, r) = read7_bit_long_value a.packet in
    let (count, r') = read7_bit_long_value r in
    record a {
      packet = r';
      lost_count = add64 missing 1;
      lost_stage = add64 a.stage_readen 1;
      stage_readen = add64 (add64 (add64 a.stage_readen 1) (add64 missing 1)) count;
    }

-- The loop `while (!stop)`: the next lost stage that is sent and not acknowledged.
unfoldable pub read_losts : ℕ → Acking → Option Acking
read_losts zero a = none
read_losts (suc fuel) a =
    let b = if a.lost_count == 0 then read_pair a else a in
    let more =
      read_losts fuel
        (record b { lost_count = sub64 b.lost_count 1; lost_stage = add64 b.lost_stage 1 }) in
    if (a.lost_count == 0) && (available a.packet == 0)
    then some (record a { stop = true })
    else if ltb b.writer.stage b.lost_stage
    then some (record b { stop = true })
    else if leb b.lost_stage b.writer.stage_ack
    then more
    else some b

-- The fragments of a message in front of the iterator, and from it on.
pub record Position : Type 0 where
  pub acking : Acking
  pub before : List (ℕ × ℕ)
  pub after : List (ℕ × ℕ)

abbrev pub lost_told : Acking → Acking
lost_told a = record a { lost_count = sub64 a.lost_count 1; lost_stage = add64 a.lost_stage 1 }

abbrev pub stage_passed : Acking → Acking
stage_passed a = record a { stage = add64 a.stage 1; header = true }

-- A lost fragment at `place` is sent again.
unfoldable pub repeat_fragment : Acking → RtmfpMessage → ℕ → List (ℕ × ℕ) → Option Acking
repeat_fragment a m place rest = do
  let next = next_place rest
  let count : ℕ = elim next [ none ↦ sub32 (length m.content) place | some p ↦ sub32 p place ]
  let room = available_to_write a.band
  let flushed = not a.header && ltb room (add32 count 4)
  let band = if flushed then Band.flush a.band else a.band
  let header = flushed || a.header
  head ← if header then header_size a.writer a.stage else some 0
  let size = add32 (add32 count 4) head
  let band' = if ltb room size then Band.flush band else band
  let piece = take (count % 2 ^ 16) (drop place m.content)
  let fields = fragment_fields a.writer a.stage (place_flags place (is_some next)) header piece
  b ← write_message band' (message_kind header) (sub32 size 3 % 2 ^ 16) none fields
  some (record (lost_told a) { band = b; header = false; stage = add64 a.stage 1 })

-- One round at the fragment at `place` that was sent at `sent`, once a lost stage is known.
unfoldable pub handle_lost :
    Acking → RtmfpMessage → List (ℕ × ℕ) → ℕ → ℕ → List (ℕ × ℕ) → Option Position
handle_lost a m before place sent rest =
    let here : Acking → Position =
      λ b. record { acking = b; before = before; after = (place, sent) ∷ rest } in
    let past : Acking → Position =
      λ b. record { acking = b; before = before ++ (place, sent) ∷ []; after = rest } in
    let given_up : Acking = record a { writer = record (a.writer) { stage_ack = a.stage } } in
    if not (a.lost_stage == a.stage)
    then some (if a.repeated then past (stage_passed a) else here given_up)
    else if not m.repeatable
    then some (
        if a.repeated
        then past (lost_told (stage_passed a))
        else here (
            lost_told (record a {
              writer = record (a.writer) {
                ack_count = sub32 a.writer.ack_count 1;
                lost_count = add32 a.writer.lost_count 1;
                stage_ack = a.stage;
              };
            })))
    else if leb a.max_stage sent
    then some (past (lost_told (stage_passed (record a { repeated = true }))))
    else (do
      b ← repeat_fragment (record a { repeated = true }) m place rest
      some (record { acking = b; before = before ++ (place, a.writer.stage) ∷ []; after = rest }))

-- The first fragment of all is acknowledged, and the iterator goes back to the front.
unfoldable pub acknowledge_first : Position → Position
acknowledge_first p = record {
  acking = record (p.acking) {
    writer = record (p.acking.writer) { ack_count = add32 p.acking.writer.ack_count 1 };
    stage = add64 p.acking.stage 1;
  };
  before = [];
  after = drop 1 (p.before ++ p.after);
}

-- The loop over the fragments of a message. Each fragment takes two rounds at most.
unfoldable pub ack_fragments : ℕ → ℕ → RtmfpMessage → Position → Option Position
ack_fragments zero fuel' m p = none
ack_fragments (suc fuel) fuel' m p =
    let acked = ack_fragments fuel fuel' m (acknowledge_first p) in
    elim p.after [
      | [] ↦ some p
      | (place, sent) ∷ rest ↦ if leb p.acking.stage p.acking.writer.stage_ack then acked else (do
        a ← read_losts fuel' p.acking
        let go_on = (do
          p' ← handle_lost a m p.before place sent rest
          ack_fragments fuel fuel' m p')
        if a.stop then some (record p { acking = a }) else go_on)
    ]

-- The end of a message of which every fragment is acknowledged.
unfoldable pub message_acked : RtmfpWriter → RtmfpMessage → ℕ → RtmfpWriter
message_acked w m now =
    let less = record w {
      repeatable = if m.repeatable then sub32 w.repeatable 1 else w.repeatable;
    } in
    if ltb 0 w.ack_count
    then record less {
      quality =
          Quality.add w.quality now (m.sending_time % 2 ^ 32) (length m.content) w.ack_count
            w.lost_count;
      ack_count = 0;
      lost_count = 0;
    }
    else less

-- The loop over the messages sent: what is left of them, and the locals after it.
unfoldable pub ack_messages :
    ℕ → ℕ → List RtmfpMessage → Acking → Option (List RtmfpMessage × Acking)
ack_messages fuel' now [] a = some ([], a)
ack_messages fuel' now (m ∷ rest) a =
    if a.stop
    then some (m ∷ rest, a)
    else if length m.fragments == 0
    then (do (left, a') ← ack_messages fuel' now rest a; some (m ∷ left, a'))
    else (do
      p ←
          ack_fragments (suc (2 * length m.fragments)) fuel' m
            (record { acking = a; before = []; after = m.fragments })
      let left = record m { fragments = p.before ++ p.after }
      let ended = length left.fragments == 0
      (others, a') ← ack_messages fuel' now rest (
          if ended
          then record (p.acking) { writer = message_acked p.acking.writer left now }
          else p.acking)
      some (if ended then others else left ∷ others, a'))

-- The stage that is acknowledged for certain.
unfoldable pub stage_acked : RtmfpWriter → ℕ → ℕ
stage_acked w readen =
    if ltb w.stage readen then w.stage else if leb readen w.stage_ack then w.stage_ack else readen

unfoldable pub acknowledge : RtmfpWriter → Band → Reader → ℕ → ℕ → Option (RtmfpWriter × Band)
acknowledge w b packet readen now = do
  let start : Acking = record {
    writer = record w { stage_ack = stage_acked w readen };
    band = b;
    packet = packet;
    stage_readen = readen;
    max_stage = sum_received (available packet) packet readen;
    stage = add64 w.stage_ack 1;
    lost_count = 0;
    lost_stage = 0;
    repeated = false;
    header = true;
    stop = false;
  }
  (left, a) ← ack_messages (suc (suc w.stage + available packet)) now w.messages_sent start
  let w' = record (a.writer) { messages_sent = left }
  let trigger =
      if w'.repeatable == 0
      then Trigger.stop w'.trigger
      else if ltb w.stage_ack w'.stage_ack || a.repeated
      then Trigger.reset w'.trigger now
      else w'.trigger
  some (record w' { trigger = trigger }, a.band)

unfoldable pub acknowledgment : RtmfpWriter → Band → Reader → ℕ → ℕ → ℕ → Option Outcome
acknowledgment w b packet new_id flow_id now =
    let (buffer_size, r) = read7_bit_long_value packet in
    let (readen, r') = read7_bit_long_value r in
    if buffer_size == 0 then fail w b new_id flow_id now else (do
      (w', b') ← acknowledge w b r' readen now
      some (record { writer = w'; band = b'; replaced = none }))
