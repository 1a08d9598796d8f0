-- ===== src/Rtmfp/Flow.antt =====
-- `RTMFPFlow` with `RTMFPPacket` and `RTMFPFragment`, of MonaCore/sources/RTMFP/RTMFPFlow.cpp: the
-- fragments of a flow, put in order and joined to messages.
-- What the flow does to others is recorded in order: the calls of `FlashStream::process`, and the
-- messages written to the `BandWriter` as the calls that write their fields. Logging is left out.

pub mod Handled
pub mod Draining
pub mod Buffering
pub mod Commit
pub mod Acknowledgment
pub mod Arrival
pub mod Messages
pub mod Reordering
pub mod Collected
pub mod Stepped
pub mod AnyOrder
pub mod Eventual
use mona_server.Base.{
  ℕ, zero, suc, ◌+◌, ◌-◌, ◌*◌, ◌/◌, ◌%◌, ◌^◌, Bool, true, false, not, ◌&&◌, ◌||◌, List, [], ◌∷◌,
  ◌++◌, Option, none, some, map, ltb, leb, ◌==◌, if◌then◌else◌, ◌>>=◌, length, take, drop, bit_and,
  bit_or,
}
use mona_server.Base.Words.{add32, add64, sub64}
use mona_server.Binary.{big_endian}
use mona_server.Binary.Reader.{Reader, reader, available, read8, read32, next}
use mona_server.Binary.Writer.{get7_bit_value_size}
use mona_server.Rtmfp.Fragment.{
  has, with_afterpart, with_beforepart, abandonment, message_end, unread, new_packet, add,
  new_fragment, Packet, Fragment, Message, Field, long_value, value, byte, Sent,
}

-- `_pStream` is null for the flow that stands for unknown ones. The map `_fragments` is the list
-- of its entries, by ascending stage.
pub record Flow : Type 0 where
  pub id : ℕ
  pub stage : ℕ
  pub completed : Bool
  pub has_stream : Bool
  pub packet : Option Packet
  pub fragments : List (ℕ × Fragment)
  pub number_lost : ℕ
  pub processed : List Message
  pub band : List Sent

unfoldable pub complete : Flow → Flow
complete f = if f.completed then f else record f { fragments = []; packet = none; completed = true }

-- `none` means that `Get7BitValueSize` never returns.
unfoldable pub fail : Flow → Option Flow
fail f = if f.completed then some f else (do
  size ← get7_bit_value_size f.id
  let sent : Sent = record {
    kind = 0x5e;
    size = (size + 1) % 2 ^ 16;
    fields = long_value f.id ∷ byte 0 ∷ [];
  }
  some (record f { band = f.band ++ sent ∷ [] }))

-- The values of `AMF::ContentType` that `unpack` tells apart.
abbrev pub empty_type : ℕ
empty_type = 0x00

abbrev pub raw : ℕ
raw = 0x04

abbrev pub audio : ℕ
audio = 0x08

abbrev pub video : ℕ
video = 0x09

abbrev pub data_type : ℕ
data_type = 0x0f

abbrev pub invocation_amf3 : ℕ
invocation_amf3 = 0x11

abbrev pub invocation : ℕ
invocation = 0x14

-- The type, the time and the reader behind the head. An unknown type is only logged.
unfoldable pub unpack : Reader → ℕ × ℕ × Reader
unpack packet =
    if available packet == 0
    then (empty_type, 0, packet)
    else let (type, r) = read8 packet in
      if type == invocation_amf3
      then (invocation, 0, next (next r 1) 4)
      else if type == invocation
      then (invocation, 0, next r 4)
      else if (type == audio) || (type == video)
      then (let (time, r') = read32 r in (type, time, r'))
      else if type == data_type
      then (type, 0, next (next r 1) 4)
      else if type == raw
      then (type, 0, next r 4)
      else (type, 0, r)

-- The end of `fragmentSortedHandler`: the message goes to the stream.
unfoldable pub process : Flow → Reader → ℕ → Flow
process f packet fragments =
    let (type, time, r) = unpack packet in
    let message : Message = record {
      kind = type;
      time = time;
      packet = r;
      fragments = fragments;
      lost = f.number_lost;
    } in
    record f { processed = f.processed ++ message ∷ []; number_lost = 0; packet = none }

-- The joined message, as `RTMFPPacket::release` reads it.
abbrev pub release : Packet → Reader
release p = reader p.buffer big_endian

-- A fragment that continues the packet `p`.
unfoldable pub join : Flow → Packet → Reader → ℕ → Flow
join f p fragment flags =
    let p' = add p fragment in
    if with_afterpart flags
    then record f { packet = some p' }
    else process (record f { packet = some p' }) (release p') (p'.fragments % 2 ^ 16)

-- `fragmentSortedHandler` from the test of MESSAGE_ABANDONMENT on.
unfoldable pub assemble : Flow → Reader → ℕ → Flow
assemble f fragment flags =
    if abandonment flags
    then record f { packet = none }
    else if with_beforepart flags
    then elim f.packet [
      | none ↦ record f { number_lost = add32 f.number_lost 1 }
      | some p ↦ join f p fragment flags
    ]
    else if with_afterpart flags
    then record f {
      packet = some (new_packet fragment);
      number_lost = elim f.packet [
        | none ↦ f.number_lost
        | some p ↦ add32 f.number_lost p.fragments
      ];
    }
    else process f fragment 0

-- The branch of `fragmentSortedHandler` at a stage that does not follow.
unfoldable pub after_gap : Flow → ℕ → Reader → ℕ → Flow
after_gap f stage fragment flags =
    let lost_count = (stage - f.stage - 1) % 2 ^ 32 in
    let jumped = record f { stage = stage; packet = none } in
    if with_beforepart flags
    then record jumped { number_lost = add32 f.number_lost (add32 lost_count 1) }
    else assemble (record jumped { number_lost = add32 f.number_lost lost_count }) fragment flags

unfoldable pub sorted_handler : Flow → ℕ → Reader → ℕ → Flow
sorted_handler f stage fragment flags =
    if leb stage f.stage
    then f
    else if ltb (add64 f.stage 1) stage
    then after_gap f stage fragment flags
    else assemble (record f { stage = stage }) fragment flags

-- A `PacketReader` over a buffered fragment.
abbrev pub buffered : Fragment → Reader
buffered fragment = reader fragment.bytes big_endian

-- The first loop of `fragmentHandler`: all entries up to `stage`. The flag is its `return`.
unfoldable pub drain_up_to : ℕ → List (ℕ × Fragment) → Flow → Flow × Bool
drain_up_to stage [] f = (f, false)
drain_up_to stage ((first, second) ∷ rest) f =
    let handled = sorted_handler f first (buffered second) second.flags in
    let more = drain_up_to stage rest (record handled { fragments = rest }) in
    if ltb stage first
    then (f, false)
    else if message_end second.flags
    then (complete handled, true)
    else more

-- The second loop: the entries that follow without a gap.
unfoldable pub drain_following : ℕ → List (ℕ × Fragment) → Flow → Flow
drain_following next_stage [] f = f
drain_following next_stage ((first, second) ∷ rest) f =
    let handled = sorted_handler f next_stage (buffered second) second.flags in
    let more = drain_following (add64 next_stage 1) rest (record handled { fragments = rest }) in
    if ltb next_stage first then f else if message_end second.flags then complete handled else more

-- `emplace_hint` at `lower_bound`, unless the stage is there.
unfoldable pub emplace : ℕ → Fragment → List (ℕ × Fragment) → List (ℕ × Fragment)
emplace stage x [] = (stage, x) ∷ []
emplace stage x ((first, second) ∷ rest) =
    if ltb first stage
    then (first, second) ∷ emplace stage x rest
    else if first == stage
    then (first, second) ∷ rest
    else (stage, x) ∷ (first, second) ∷ rest

-- The branches at `_stage > nextStage`.
unfoldable pub place : Flow → ℕ → ℕ → Reader → ℕ → Flow
place f next_stage stage fragment flags =
    if ltb next_stage stage
    then record f { fragments = emplace stage (new_fragment fragment flags) f.fragments }
    else let handled = sorted_handler f next_stage fragment flags in
      let ended = if message_end flags then complete handled else handled in
      drain_following (add64 next_stage 1) ended.fragments ended

unfoldable pub fragment_handler : Flow → ℕ → ℕ → Reader → ℕ → Option Flow
fragment_handler f stage delta_nack fragment flags =
    if f.completed
    then some f
    else if not f.has_stream
    then (do failed ← fail f; some (record failed { stage = stage }))
    else if ltb stage (add64 f.stage 1)
    then some f
    else let delta = if ltb stage delta_nack then stage else delta_nack in
      let (drained, ended) = drain_up_to stage f.fragments f in
      if ltb f.stage (stage - delta)
      then some (if ended then drained else place drained stage stage fragment flags)
      else some (place f (add64 f.stage 1) stage fragment flags)
