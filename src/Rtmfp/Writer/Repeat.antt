-- ===== src/Rtmfp/Writer/Repeat.antt =====
-- `RTMFPWriter` of MonaCore/sources/RTMFP/RTMFPWriter.cpp: `raiseMessage`, `manage`, `clear` and
-- `fail`. A writer that fails goes on under a new id, and a closed copy takes its place.
use mona_server.Base.{
  ℕ, ◌%◌, ◌^◌, Bool, true, false, ◌&&◌, ◌||◌, List, [], ◌∷◌, Option, none, some, ltb, ◌==◌,
  if◌then◌else◌, ◌>>=◌, length, take, drop,
}
use mona_server.Base.Words.{add32, sub32, add64}
use mona_server.Quality
use mona_server.Trigger
use mona_server.Trigger.{raise, Raised}
use mona_server.Rtmfp.Band
use mona_server.Rtmfp.Band.{Band, available_to_write, write_message}
use mona_server.Rtmfp.Writer.{
  RtmfpMessage, RtmfpWriter, is_closed, header_size, fragment_fields, place_flags, message_kind,
  create_buffered, flush, close,
}

-- The loops of `raiseMessage`: `full` is their `return` at a packet that is full.
pub record Raising : Type 0 where
  pub band : Band
  pub header : Bool
  pub stage : ℕ
  pub full : Bool

-- Where the next fragment starts, if there is one.
abbrev pub next_place : List (ℕ × ℕ) → Option ℕ
next_place [] = none
next_place ((place, _) ∷ _) = some place

abbrev pub is_some {ℓ} : {A : Type ℓ} → Option A → Bool
is_some none = false
is_some (some _) = true

unfoldable pub raise_fragments : RtmfpWriter → List ℕ → List (ℕ × ℕ) → ℕ → Raising → Option Raising
raise_fragments w content [] available r = some r
raise_fragments w content ((place, _) ∷ rest) available r = do
  let next = next_place rest
  let count : ℕ = elim next [ none ↦ available | some p ↦ sub32 p place ]
  head ← if r.header then header_size w r.stage else some 0
  let size = add32 (add32 count 4) head
  let piece = take (count % 2 ^ 16) (drop place content)
  let fields = fragment_fields w r.stage (place_flags place (is_some next)) r.header piece
  let written = (do
    b ← write_message r.band (message_kind r.header) (sub32 size 3 % 2 ^ 16) none fields
    raise_fragments w content rest (sub32 available count)
        (record { band = b; header = false; stage = add64 r.stage 1; full = false }))
  if ltb (available_to_write r.band) size then some (record r { full = true }) else written

unfoldable pub raise_messages :
    List RtmfpMessage → RtmfpWriter → Raising → Bool → Option (RtmfpWriter × Band)
raise_messages [] w r stop =
    some (if stop then record w { trigger = Trigger.stop w.trigger } else w, r.band)
raise_messages (m ∷ rest) w r stop = elim m.fragments [
  | [] ↦ some (if stop then record w { trigger = Trigger.stop w.trigger } else w, r.band)
  | (place, sent) ∷ fragments ↦
      let skipped =
        raise_messages rest w
          (record r { stage = add64 r.stage (length m.fragments); header = true }) stop in
      let repeated = (do
        let start = record r { band = if stop then Band.flush r.band else r.band }
        r' ← raise_fragments w m.content m.fragments (sub32 (length m.content) place) start
        let more = raise_messages rest w r' false
        if r'.full then some (w, r'.band) else more) in
      if m.repeatable then repeated else skipped
]

unfoldable pub raise_message : RtmfpWriter → Band → Option (RtmfpWriter × Band)
raise_message w b =
    raise_messages w.messages_sent w
      (record { band = b; header = true; stage = add64 w.stage_ack 1; full = false }) true

abbrev pub fragments_lost : List RtmfpMessage → ℕ → ℕ
fragments_lost [] lost = lost
fragments_lost (m ∷ rest) lost = fragments_lost rest (add32 lost (length m.fragments))

abbrev pub repeatable_left : List RtmfpMessage → ℕ → ℕ
repeatable_left [] n = n
repeatable_left (m ∷ rest) n = repeatable_left rest (if m.repeatable then sub32 n 1 else n)

unfoldable pub clear : RtmfpWriter → Band → ℕ → Option (RtmfpWriter × Band)
clear w b now =
    let empty = record w {
      lost_count = fragments_lost w.messages_sent (fragments_lost w.messages w.lost_count);
      repeatable = repeatable_left w.messages_sent w.repeatable;
      messages = [];
      messages_sent = [];
    } in
    if ltb 0 w.stage
    then (do
      (w', b') ← flush (create_buffered empty b []) b false now
      some (record w' { trigger = Trigger.stop w'.trigger }, b'))
    else some (empty, b)

-- `RTMFPWriter(RTMFPWriter&)` before its `close`.
unfoldable pub copied : RtmfpWriter → ℕ → RtmfpWriter
copied w now = record w {
  critical = false;
  flow_id = 0;
  reliable = true;
  connected_size = none;
  messages = [];
  messages_sent = [];
  trigger = Trigger.trigger now;
  quality = Quality.quality;
}

-- What is left of a call that may fail: the writer, and the closed one if it was replaced.
pub record Outcome : Type 0 where
  pub writer : RtmfpWriter
  pub band : Band
  pub replaced : Option RtmfpWriter

-- `new_id` and `flow_id` are what `initWriter` of the session assigns.
unfoldable pub fail : RtmfpWriter → Band → ℕ → ℕ → ℕ → Option Outcome
fail w b new_id flow_id now =
    if is_closed w.state then some (record { writer = w; band = b; replaced = none }) else (do
      (w', b') ← clear w b now
      let zero_w = record w' { stage = 0; stage_ack = 0; lost_count = 0; ack_count = 0 }
      (old, b'') ← close (copied zero_w now) b' now
      some (record {
        writer = record zero_w {
          id = new_id;
          flow_id = flow_id;
          quality = Quality.reset zero_w.quality;
        };
        band = b'';
        replaced = some old;
      }))

abbrev pub is_consumed : RtmfpWriter → Bool
is_consumed w = (length w.messages == 0) && is_closed w.state

-- The end of `manage`.
unfoldable pub managed : RtmfpWriter → Band → Bool → ℕ → ℕ → ℕ → Option (Outcome × Bool)
managed w b failed new_id flow_id now =
    if failed
    then (do o ← fail w b new_id flow_id now; some (o, true))
    else if w.critical && is_closed w.state
    then some (record { writer = w; band = b; replaced = none }, true)
    else (do
      (w', b') ← flush w b false now
      some (record { writer = w'; band = b'; replaced = none }, false))

-- `manage`, with whether it sets the exception.
unfoldable pub manage : RtmfpWriter → Band → ℕ → ℕ → ℕ → Option (Outcome × Bool)
manage w b new_id flow_id now =
    let raised : Raised =
      if is_consumed w || b.failed
      then record { after = w.trigger; result = 0; fails = false }
      else raise w.trigger now in
    let ticked = record w { trigger = raised.after } in
    (do
      (w', b') ← if raised.result == 0 then some (ticked, b) else raise_message ticked b
      managed w' b' raised.fails new_id flow_id now)
