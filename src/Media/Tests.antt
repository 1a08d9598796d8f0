-- ===== src/Media/Tests.antt =====
-- Runs of publications and listeners.
use mona_server.Base.{
  ℕ, ◌+◌, ◌<◌, ◌≤◌, ◌%◌, ◌^◌, ◌≡◌, refl, Bool, true, false, List, [], ◌∷◌, some, map, arith,
}
use mona_server.Media.Listener.{Event, Medium, Listener, start_publishing, stop_publishing}
use mona_server.Media.Listener.Times.{Follows}
use mona_server.Media.Listener.Pushes.{Push, pushes, all_given, IsPlaying}
use mona_server.Media.Listener.Given.{pushes-stop_publishing}
use mona_server.Media.Publication.{PeerCall, Publication, Arrival, publication}
use mona_server.Media.Publication.Served.{Call, Serves, run, run-Serves}
use mona_server.Media.Publication.Forwards.{
  push_videos, forwarded, skipped, push_videos-forwarded, Stops, stop-flush,
}
use mona_server.Quality.{Quality}
use mona_server.Media.{is_key_frame}

abbrev anyone : ℕ → Bool
anyone peer = true

abbrev writers : ℕ → List Event → Event → Bool
writers client log e = true

abbrev frame : List ℕ → ℕ → ℕ → Arrival
frame packet time lost = record {
  packet = packet;
  fragments = 1;
  time = time;
  lost = lost;
  ping = 30;
  now = 1000 + time;
}

-- A delta frame, a key frame with H264 settings, a frame, a frame after a loss, a key frame.
abbrev frames : List Arrival
frames =
    frame (0x27 ∷ 1 ∷ []) 40 0
    ∷ frame (0x17 ∷ 0 ∷ 9 ∷ []) 80 0
    ∷ frame (0x27 ∷ 1 ∷ 5 ∷ []) 120 0
    ∷ frame (0x27 ∷ 1 ∷ 6 ∷ []) 160 2
    ∷ frame (0x17 ∷ 1 ∷ []) 200 0
    ∷ []

abbrev calls : List Call
calls = Call.subscribed 900 7 false ∷ Call.began 950 3 ∷ map Call.seen frames

run-Serves_example : Serves (run anyone anyone writers calls publication)
run-Serves_example = run-Serves anyone anyone writers calls

abbrev idle : Quality
idle = record {
  lost_rate = (0, 1);
  byte_rate = (0, 1);
  latency = 0;
  samples = [];
  total = 0;
  num = 0;
  den = 0;
}

-- A publication with a publisher, to which packets were pushed.
abbrev playing : Publication
playing = record {
  publisher = some 3;
  first_key_frame = false;
  listeners = [];
  audio_codec = [];
  video_codec = [];
  audio_qos = idle;
  video_qos = idle;
  data_qos = idle;
  dropped_frames = 0;
  is_new = true;
  calls = [];
}

push_videos-forwarded_example :
    let q = push_videos anyone anyone writers frames playing in
    (q.calls ≡ forwarded 3 true frames []) × (q.dropped_frames ≡ (0 + skipped true frames) % 2 ^ 32)
push_videos-forwarded_example =
    push_videos-forwarded anyone anyone writers 3 frames playing refl (omega arith)

-- The second and third frames pass, and the last.
forwarded-frames :
    forwarded 3 true frames []
    ≡ PeerCall.sees 3 200 (0x17 ∷ 1 ∷ [])
      ∷ PeerCall.sees 3 120 (0x27 ∷ 1 ∷ 5 ∷ [])
      ∷ PeerCall.sees 3 80 (0x17 ∷ 0 ∷ 9 ∷ [])
      ∷ []
unfolding forwarded is_key_frame
forwarded-frames = refl

stop-flush_example : Stops 3 playing
stop-flush_example = stop-flush 3 playing refl refl

-- A listener that a refused packet has just initialised again.
abbrev late : Listener
late = record {
  unbuffered = false;
  first_key_frame = true;
  first_audio = false;
  first_video = false;
  first_time = true;
  receive_audio = true;
  receive_video = true;
  delta_time = 0;
  adding_time = 500;
  time = 500;
  updated = 900;
  dropped_frames = 0;
  audio_writer = some true;
  video_writer = some false;
  data_writer = some true;
  log = [];
}

late-IsPlaying : IsPlaying true false late
late-IsPlaying = record {
  hears = refl;
  sees = refl;
  hear_is = refl;
  see_is = refl;
  heard_settings = refl;
  seen_settings = refl;
}

abbrev mixed : List Push
mixed =
    Push.seen 1000 [] 7000 (0x27 ∷ 1 ∷ [])
    ∷ Push.heard 1001 [] 7040 (0xaf ∷ 1 ∷ [])
    ∷ Push.seen 1002 [] 7020 (0x27 ∷ 2 ∷ [])
    ∷ []

follow : (base adding t : ℕ) → 0 < t → base ≤ t → t + adding < 2 ^ 32 → Follows base adding t
follow base adding t a b c = record { some_time = a; after_base = b; fits = c }

-- At their distances from the first, 500 later.
mixed-given :
    all_given true false 7000 500 true mixed []
    ≡ Event.wrote Medium.video false 520 (0x27 ∷ 2 ∷ [])
      ∷ Event.wrote Medium.audio true 540 (0xaf ∷ 1 ∷ [])
      ∷ Event.wrote Medium.video false 500 (0x27 ∷ 1 ∷ [])
      ∷ []
unfolding all_given is_key_frame
mixed-given = refl

abbrev running : Listener
running = record late { first_time = false }

-- A frame that waits, audio, a key frame.
abbrev again : List Push
again =
    Push.seen 1000 [] 20 (0x27 ∷ 1 ∷ [])
    ∷ Push.heard 1001 [] 40 (0xaf ∷ 1 ∷ [])
    ∷ Push.seen 1002 [] 60 (0x17 ∷ 1 ∷ [])
    ∷ []

pushes-stop_publishing_example :
    (pushes (writers 7) again (start_publishing 1000 (stop_publishing running))).log
    ≡ all_given true false 0 500 false again (Event.told_start ∷ Event.told_stop ∷ [])
pushes-stop_publishing_example =
    pushes-stop_publishing (writers 7) (λ log e. refl) true false 1000 again running late-IsPlaying
      refl
      (
        follow 0 500 20 (omega arith) (omega arith) (omega arith),
        (
          follow 0 500 40 (omega arith) (omega arith) (omega arith),
          (follow 0 500 60 (omega arith) (omega arith) (omega arith), tt),
        ),
      )

again-given :
    all_given true false 0 500 false again []
    ≡ Event.wrote Medium.video false 560 (0x17 ∷ 1 ∷ [])
      ∷ Event.wrote Medium.audio true 540 (0xaf ∷ 1 ∷ [])
      ∷ []
unfolding all_given is_key_frame
again-given = refl
