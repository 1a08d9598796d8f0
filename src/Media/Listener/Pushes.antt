-- ===== src/Media/Listener/Pushes.antt =====
-- Packets that a listener gives to its writers, when these accept everything.
use mona_server.Base.{
  ℕ, ◌+◌, ◌-◌, ◌≡◌, refl, ◌∙◌, ap, Bool, true, false, not, ◌||◌, List, [], ◌∷◌, Option, some,
  if◌then◌else◌, Bool-cases, inl, inr,
}
use mona_server.Media.{is_key_frame}
use mona_server.Media.Listener.{
  Medium, Event, Listener, tell, compute_time, ready, write_packet, reliable_of, audio_settings,
  video_settings, push_sound, push_audio_packet, push_frame, push_video_packet, drop_frame, keyed,
}

-- A packet of audio or of video: the clock, the settings of the codec, its time and its bytes.
pub data Push : Type 0 where
  heard : ℕ → List ℕ → ℕ → List ℕ → Push
  seen : ℕ → List ℕ → ℕ → List ℕ → Push

abbrev pub time_of : Push → ℕ
time_of (Push.heard now codec time packet) = time
time_of (Push.seen now codec time packet) = time

-- Packets one after the other.
unfoldable pub push : (List Event → Event → Bool) → Push → Listener → Listener
push accepts (Push.heard now codec time packet) l =
    push_audio_packet accepts now codec packet time l
push accepts (Push.seen now codec time packet) l = push_video_packet accepts now codec packet time l

unfoldable pub pushes : (List Event → Event → Bool) → List Push → Listener → Listener
pushes accepts [] l = l
pushes accepts (x ∷ xs) l = pushes accepts xs (push accepts x l)

-- Audio passes, and video from a packet that `IsKeyFrame` accepts on.
abbrev pub passes : Bool → Push → Bool
passes key (Push.heard now codec time packet) = true
passes key (Push.seen now codec time packet) = is_key_frame packet || key

abbrev pub had_key : Bool → Push → Bool
had_key key (Push.heard now codec time packet) = key
had_key key (Push.seen now codec time packet) = is_key_frame packet || key

-- A packet that is written at its distance from the base, plus what is added.
abbrev pub given : Bool → Bool → ℕ → ℕ → Push → Event
given hear see base adding (Push.heard now codec time packet) =
    Event.wrote Medium.audio hear (time - base + adding) packet
given hear see base adding (Push.seen now codec time packet) =
    Event.wrote Medium.video see (time - base + adding) packet

-- The log of the writers after the packets, the newest first.
unfoldable pub all_given : Bool → Bool → ℕ → ℕ → Bool → List Push → List Event → List Event
all_given hear see base adding key [] log = log
all_given hear see base adding key (x ∷ xs) log =
    all_given hear see base adding (had_key key x) xs
      (if passes key x then given hear see base adding x ∷ log else log)

-- A listener that wants both media, has their writers and has sent the settings of both codecs.
pub record IsSetUp (hear see receive_audio receive_video : Bool)
    (audio_writer video_writer : Option Bool) (first_audio first_video : Bool) : Type 0 where
  pub hears : receive_audio ≡ true
  pub sees : receive_video ≡ true
  pub hear_is : audio_writer ≡ some hear
  pub see_is : video_writer ≡ some see
  pub heard_settings : first_audio ≡ false
  pub seen_settings : first_video ≡ false

abbrev pub IsPlaying : Bool → Bool → Listener → Type 0
IsPlaying hear see l =
    IsSetUp hear see l.receive_audio l.receive_video l.audio_writer l.video_writer l.first_audio
      l.first_video

abbrev pub lit : Bool → Listener → Listener
lit key l = record l { first_key_frame = key }

keyed_is :
    (packet : List ℕ) (l : Listener)
    → keyed packet l ≡ lit (is_key_frame packet || l.first_key_frame) l
unfolding keyed
keyed_is packet l = elim (Bool-cases (is_key_frame packet)) [
  | inl key ↦ rw key refl
  | inr other ↦ rw other refl
]

module _ (accepts : List Event → Event → Bool)
    (accepting : (log : List Event) (e : Event) → accepts log e ≡ true) where
  pub sound_written :
      (hear see : Bool) (now : ℕ) (codec : List ℕ) (t : ℕ) (packet : List ℕ) (l : Listener)
      → IsPlaying hear see l
      → let timed = compute_time now l t in
        push_audio_packet accepts now codec packet t l
        ≡ tell (Event.wrote Medium.audio hear timed.time packet) timed
  unfolding push_audio_packet push_sound ready audio_settings write_packet reliable_of compute_time
  sound_written hear see now codec t packet l h =
      rw (h.hears, h.hear_is, h.heard_settings, accepting) refl

  video_shown :
      (hear see : Bool) (now : ℕ) (codec : List ℕ) (t : ℕ) (packet : List ℕ) (l : Listener)
      → IsPlaying hear see l
      → let l' = keyed packet l in
        push_video_packet accepts now codec packet t l ≡ (
          if not l'.first_key_frame
          then drop_frame l'
          else push_frame accepts now codec packet t l')
  unfolding push_video_packet ready
  video_shown hear see now codec t packet l h = simp (h.sees, h.see_is)

  frame_written :
      (hear see : Bool) (now : ℕ) (codec : List ℕ) (t : ℕ) (packet : List ℕ) (l : Listener)
      → IsPlaying hear see l
      → let timed = compute_time now l t in
        push_frame accepts now codec packet t l
        ≡ tell (Event.wrote Medium.video see timed.time packet) timed
  unfolding push_frame video_settings write_packet reliable_of compute_time
  frame_written hear see now codec t packet l h = rw (h.seen_settings, h.see_is, accepting) refl

  pub video_written :
      (hear see : Bool) (now : ℕ) (codec : List ℕ) (t : ℕ) (packet : List ℕ) (l : Listener)
      → IsPlaying hear see l
      → (is_key_frame packet || l.first_key_frame) ≡ true
      → let timed = compute_time now (lit true l) t in
        push_video_packet accepts now codec packet t l
        ≡ tell (Event.wrote Medium.video see timed.time packet) timed
  video_written hear see now codec t packet l h key =
      video_shown hear see now codec t packet l h
      ∙ ap
          (λ (m : Listener).
            if not m.first_key_frame then drop_frame m else push_frame accepts now codec packet t m)
          (keyed_is packet l ∙ ap (λ (b : Bool). lit b l) key)
      ∙ frame_written hear see now codec t packet (lit true l) h

  pub video_dropped :
      (hear see : Bool) (now : ℕ) (codec : List ℕ) (t : ℕ) (packet : List ℕ) (l : Listener)
      → IsPlaying hear see l
      → (is_key_frame packet || l.first_key_frame) ≡ false
      → push_video_packet accepts now codec packet t l ≡ drop_frame (lit false l)
  video_dropped hear see now codec t packet l h key =
      video_shown hear see now codec t packet l h
      ∙ ap
          (λ (m : Listener).
            if not m.first_key_frame then drop_frame m else push_frame accepts now codec packet t m)
          (keyed_is packet l ∙ ap (λ (b : Bool). lit b l) key)
