-- ===== src/Media/Listener.antt =====
-- `Listener` of MonaCore/include/Mona/Listener.h and MonaCore/sources/Listener.cpp, but for the data
-- packets. Its writers are virtual: what they are called with is a log, the newest first, and
-- whether `writeMedia` accepts is a parameter. The media's writers are objects of their own, as
-- `RTMFPWriter::newWriter` makes them. `now` is the clock, in milliseconds.
pub mod Safe
pub mod Video
pub mod Sound
pub mod Times
pub mod Pushes
pub mod Given
use mona_server.Base.{
  ℕ, suc, ◌+◌, ◌-◌, ◌%◌, ◌^◌, Bool, true, false, not, ◌&&◌, ◌||◌, List, [], ◌∷◌, Option, none, some,
  length, ltb, ◌==◌, if◌then◌else◌,
}
use mona_server.Base.Words.{add32, sub32}
use mona_server.Media.{is_key_frame, h264_infos, aac_infos}

-- `Writer::AUDIO`, `Writer::VIDEO` and `Writer::DATA`.
pub data Medium : Type 0 where
  audio : Medium
  video : Medium
  message : Medium

-- A call on a writer: INIT, START and STOP of the session's; INIT, a packet with the `reliable` of
-- the moment and its time, and `flush` of a medium's; the full `flush`.
pub data Event : Type 0 where
  announced : Event
  told_start : Event
  told_stop : Event
  told_init : Medium → Event
  wrote : Medium → Bool → ℕ → List ℕ → Event
  flushed : Medium → Event
  all_flushed : Event

-- A medium's writer is held as its `reliable`, a null pointer as `none`.
pub record Listener : Type 0 where
  pub unbuffered : Bool
  pub first_key_frame : Bool
  pub first_audio : Bool
  pub first_video : Bool
  pub first_time : Bool
  pub receive_audio : Bool
  pub receive_video : Bool
  pub delta_time : ℕ
  pub adding_time : ℕ
  pub time : ℕ
  pub updated : ℕ
  pub dropped_frames : ℕ
  pub audio_writer : Option Bool
  pub video_writer : Option Bool
  pub data_writer : Option Bool
  pub log : List Event

unfoldable pub listener : Bool → ℕ → Listener
listener unbuffered now = record {
  unbuffered = unbuffered;
  first_key_frame = false;
  first_audio = true;
  first_video = true;
  first_time = true;
  receive_audio = true;
  receive_video = true;
  delta_time = 0;
  adding_time = 0;
  time = 0;
  updated = now;
  dropped_frames = 0;
  audio_writer = none;
  video_writer = none;
  data_writer = none;
  log = [];
}

unfoldable pub tell : Event → Listener → Listener
tell e l = record l { log = e ∷ l.log }

unfoldable pub reliable_of : Option Bool → Bool
reliable_of none = true
reliable_of (some reliable) = reliable

-- `init` of one writer: a new one is reliable but for an unbuffered listener.
unfoldable pub opened_writer : Bool → Option Bool → Option Bool
opened_writer unbuffered none = some (not unbuffered)
opened_writer unbuffered (some reliable) = some reliable

unfoldable pub open_writers : Listener → Listener
open_writers l = tell (Event.told_init Medium.message) (
    tell (Event.told_init Medium.video) (
      tell (Event.told_init Medium.audio) (record l {
        audio_writer = opened_writer l.unbuffered l.audio_writer;
        video_writer = opened_writer l.unbuffered l.video_writer;
        data_writer = opened_writer l.unbuffered l.data_writer;
      })))

-- `computeTime`; the listener's `time` is also what it returns.
unfoldable pub clocked : ℕ → Listener → ℕ → ℕ
clocked now l time = if time == 0 then sub32 (now % 2 ^ 32) (l.updated % 2 ^ 32) else time

unfoldable pub compute_time : ℕ → Listener → ℕ → Listener
compute_time now l time =
    let time' = clocked now l time in
    let delta = if l.first_time || ltb time' l.delta_time then time' else l.delta_time in
    record l {
      first_time = false;
      delta_time = delta;
      time = add32 (sub32 time' delta) l.adding_time;
    }

unfoldable pub set_video_writer : Option Bool → Listener → Listener
set_video_writer w l = record l { video_writer = w }

unfoldable pub set_audio_writer : Option Bool → Listener → Listener
set_audio_writer w l = record l { audio_writer = w }

unfoldable pub start_publishing : ℕ → Listener → Listener
start_publishing now l = record (tell Event.told_start l) { first_key_frame = false; updated = now }

unfoldable pub stop_publishing : Listener → Listener
stop_publishing l =
    tell Event.told_stop (record l { delta_time = 0; adding_time = l.time; dropped_frames = 0 })

-- `close` up to its code.
unfoldable pub detached : Medium → Listener → Listener
detached Medium.video l = record l { video_writer = none }
detached Medium.audio l = record l { audio_writer = none }
detached Medium.message l = record l { data_writer = none }

unfoldable pub drop_frame : Listener → Listener
drop_frame l = record l { dropped_frames = (l.dropped_frames + 1) % 2 ^ 32 }

unfoldable pub keyed : List ℕ → Listener → Listener
keyed packet l = if is_key_frame packet then record l { first_key_frame = true } else l

-- The writers' answers, from what they were called with before.
module _ (accepts : List Event → Event → Bool) where
  -- `init`: whether it succeeds.
  unfoldable pub init : ℕ → Listener → Bool × Listener
  init now l =
      if accepts l.log Event.announced
      then (
        true,
        record (open_writers (tell Event.announced l)) {
          time = 0;
          adding_time = 0;
          updated = now;
          first_time = true;
        },
      )
      else (
        false,
        record (tell Event.announced l) {
          audio_writer = none;
          video_writer = none;
          data_writer = none;
        },
      )

  -- `close` of a medium's writer; the code -1 is the listener's own.
  unfoldable pub close : ℕ → Medium → Bool → Listener → Listener
  close now m itself l = let l' = detached m l in if itself then l' else (init now l').1

  -- The test at the head of a push: a writer, or an `init` that succeeds.
  unfoldable pub ready : ℕ → Option Bool → Listener → Bool × Listener
  ready now none l = init now l
  ready now (some reliable) l = (true, l)

  -- `writeMedia` of a packet, then `init` where it is refused.
  unfoldable pub write_packet : ℕ → Event → Listener → Bool × Listener
  write_packet now e l = if accepts l.log e then (true, tell e l) else init now (tell e l)

  -- The codec's settings before the first frame of a listener: whether the frame follows.
  unfoldable pub video_settings : ℕ → List ℕ → List ℕ → Listener → Bool × Listener
  video_settings now codec packet l =
      let l' : Listener = record l { first_video = false } in
      let reliable = l.video_writer in
      let r =
        write_packet now (Event.wrote Medium.video true l.time codec)
          (set_video_writer (some true) l') in
      if not l.first_video
      then (true, l)
      else if not (h264_infos packet) && ltb 0 (length codec)
      then (r.0, if r.0 then set_video_writer reliable r.1 else r.1)
      else (true, l')

  unfoldable pub audio_settings : ℕ → List ℕ → List ℕ → Listener → Bool × Listener
  audio_settings now codec packet l =
      let l' : Listener = record l { first_audio = false } in
      let reliable = l.audio_writer in
      let r =
        write_packet now (Event.wrote Medium.audio true l.time codec)
          (set_audio_writer (some true) l') in
      if not l.first_audio
      then (true, l)
      else if not (aac_infos packet) && ltb 0 (length codec)
      then (r.0, if r.0 then set_audio_writer reliable r.1 else r.1)
      else (true, l')

  unfoldable pub push_frame : ℕ → List ℕ → List ℕ → ℕ → Listener → Listener
  push_frame now codec packet time l =
      let r = video_settings now codec packet (compute_time now l time) in
      let e =
        Event.wrote Medium.video (reliable_of r.1.video_writer) (compute_time now l time).time
          packet in
      if r.0 then (write_packet now e r.1).1 else r.1

  -- `codec` is `publication.videoCodecBuffer()`.
  unfoldable pub push_video_packet : ℕ → List ℕ → List ℕ → ℕ → Listener → Listener
  push_video_packet now codec packet time l =
      let r = ready now l.video_writer l in
      let l' = keyed packet r.1 in
      if not l.receive_video
      then record l { first_key_frame = false; first_video = true }
      else if not r.0
      then r.1
      else if not l'.first_key_frame
      then drop_frame l'
      else push_frame now codec packet time l'

  unfoldable pub push_sound : ℕ → List ℕ → List ℕ → ℕ → Listener → Listener
  push_sound now codec packet time l =
      let r = audio_settings now codec packet (compute_time now l time) in
      let e =
        Event.wrote Medium.audio (reliable_of r.1.audio_writer) (compute_time now l time).time
          packet in
      if r.0 then (write_packet now e r.1).1 else r.1

  -- `codec` is `publication.audioCodecBuffer()`.
  unfoldable pub push_audio_packet : ℕ → List ℕ → List ℕ → ℕ → Listener → Listener
  push_audio_packet now codec packet time l =
      let r = ready now l.audio_writer l in
      if not l.receive_audio
      then record l { first_audio = true }
      else if not r.0
      then r.1
      else push_sound now codec packet time r.1

unfoldable pub flush_writer : Medium → Option Bool → Listener → Listener
flush_writer m none l = l
flush_writer m (some reliable) l = tell (Event.flushed m) l

unfoldable pub flush : Listener → Listener
flush l = tell Event.all_flushed (
    flush_writer Medium.message l.data_writer
      (flush_writer Medium.video l.video_writer (flush_writer Medium.audio l.audio_writer l)))
