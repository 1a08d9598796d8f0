-- ===== src/Media/Listener/Safe.antt =====
-- What a listener offers to its writers of the video: `IsKeyFrame` accepts the first packet since
-- the last START. It also accepts the settings of H264, and a packet counts even if the writer
-- refuses it, or is replaced later.
use mona_server.Base.{
  ℕ, ◌≡◌, refl, sym, ◌∙◌, Bool, true, false, ◌||◌, List, [], ◌∷◌, Option, none, some, ltb, length,
  Bool-cases, inl, inr,
}
use mona_server.Media.{is_key_frame}
use mona_server.Media.Listener.{
  Medium, Event, Listener, listener, tell, open_writers, init, start_publishing, stop_publishing,
  ready, write_packet, flush_writer, flush,
}

-- Whether a packet that `IsKeyFrame` accepts was offered since the last START; the newest call is
-- first.
unfoldable pub key_offered : List Event → Bool
key_offered [] = false
key_offered (Event.told_start ∷ log) = false
key_offered (Event.wrote Medium.video reliable time packet ∷ log) =
    is_key_frame packet || key_offered log
key_offered (Event.wrote Medium.audio reliable time packet ∷ log) = key_offered log
key_offered (Event.wrote Medium.message reliable time packet ∷ log) = key_offered log
key_offered (Event.announced ∷ log) = key_offered log
key_offered (Event.told_stop ∷ log) = key_offered log
key_offered (Event.told_init m ∷ log) = key_offered log
key_offered (Event.flushed m ∷ log) = key_offered log
key_offered (Event.all_flushed ∷ log) = key_offered log

-- Each video packet offered is one that `IsKeyFrame` accepts, or came after one since START.
unfoldable pub IsKeyed : List Event → Type 0
IsKeyed [] = Unit
IsKeyed (Event.wrote Medium.video reliable time packet ∷ log) =
    ((is_key_frame packet || key_offered log) ≡ true) × IsKeyed log
IsKeyed (Event.wrote Medium.audio reliable time packet ∷ log) = IsKeyed log
IsKeyed (Event.wrote Medium.message reliable time packet ∷ log) = IsKeyed log
IsKeyed (Event.told_start ∷ log) = IsKeyed log
IsKeyed (Event.announced ∷ log) = IsKeyed log
IsKeyed (Event.told_stop ∷ log) = IsKeyed log
IsKeyed (Event.told_init m ∷ log) = IsKeyed log
IsKeyed (Event.flushed m ∷ log) = IsKeyed log
IsKeyed (Event.all_flushed ∷ log) = IsKeyed log

-- A listener whose flag of the first key frame tells the truth, with its log.
pub record IsSafe (l : Listener) : Type 0 where
  pub keyed_is : l.first_key_frame ≡ true → key_offered l.log ≡ true
  pub keyed_log : IsKeyed l.log

pub listener-IsSafe : (unbuffered : Bool) (now : ℕ) → IsSafe (listener unbuffered now)
unfolding listener key_offered IsKeyed
listener-IsSafe unbuffered now = record { keyed_is = λ e. absurd cc; keyed_log = tt }

pub start_publishing-IsSafe : (now : ℕ) (l : Listener) → IsSafe l → IsSafe (start_publishing now l)
unfolding start_publishing tell IsKeyed
start_publishing-IsSafe now l h = record { keyed_is = λ e. absurd cc; keyed_log = h.keyed_log }

pub stop_publishing-IsSafe : (l : Listener) → IsSafe l → IsSafe (stop_publishing l)
unfolding stop_publishing tell IsKeyed key_offered
stop_publishing-IsSafe l h = record { keyed_is = h.keyed_is; keyed_log = h.keyed_log }

flush_writer-IsSafe :
    (m : Medium) (w : Option Bool) (l : Listener) → IsSafe l → IsSafe (flush_writer m w l)
unfolding flush_writer tell IsKeyed key_offered
flush_writer-IsSafe m none l h = h
flush_writer-IsSafe m (some r) l h = record { keyed_is = h.keyed_is; keyed_log = h.keyed_log }

pub flush-IsSafe : (l : Listener) → IsSafe l → IsSafe (flush l)
unfolding flush tell IsKeyed key_offered
flush-IsSafe l h =
    let a = flush_writer-IsSafe Medium.audio l.audio_writer l h in
    let v =
      flush_writer-IsSafe Medium.video l.video_writer (flush_writer Medium.audio l.audio_writer l)
        a in
    let d =
      flush_writer-IsSafe Medium.message l.data_writer
        (flush_writer Medium.video l.video_writer (flush_writer Medium.audio l.audio_writer l)) v in
    record { keyed_is = d.keyed_is; keyed_log = d.keyed_log }

-- `IsKeyFrame` accepts the settings of the codec, if there are any.
unfoldable pub IsCodec : List ℕ → Type 0
IsCodec codec = ltb 0 (length codec) ≡ true → is_key_frame codec ≡ true

module _ (accepts : List Event → Event → Bool) where
  -- `init` offers no video.
  pub record Quiet (l m : Listener) : Type 0 where
    pub same_key : m.first_key_frame ≡ l.first_key_frame
    pub same_offered : key_offered m.log ≡ key_offered l.log
    pub keyed_log : IsKeyed l.log → IsKeyed m.log

  pub Quiet-IsSafe : (l m : Listener) → Quiet l m → IsSafe l → IsSafe m
  Quiet-IsSafe l m q h = record {
    keyed_is = λ e. q.same_offered ∙ h.keyed_is (sym q.same_key ∙ e);
    keyed_log = q.keyed_log h.keyed_log;
  }

  pub init-Quiet : (now : ℕ) (l : Listener) → Quiet l (init accepts now l).1
  unfolding init open_writers tell key_offered IsKeyed
  init-Quiet now l = elim (Bool-cases (accepts l.log Event.announced)) [
    | inl e ↦ rw e (record { same_key = refl; same_offered = refl; keyed_log = λ h. h })
    | inr e ↦ rw e (record { same_key = refl; same_offered = refl; keyed_log = λ h. h })
  ]

  pub write_packet-IsSafe :
      (now : ℕ) (e : Event) (l : Listener)
      → IsSafe (tell e l)
      → IsSafe (write_packet accepts now e l).1
  unfolding write_packet
  write_packet-IsSafe now e l h = elim (Bool-cases (accepts l.log e)) [
    | inl accepted ↦ rw accepted h
    | inr refused ↦
        rw refused
          (Quiet-IsSafe (tell e l) (init accepts now (tell e l)).1 (init-Quiet now (tell e l)) h)
  ]

  pub ready-IsSafe :
      (now : ℕ) (w : Option Bool) (l : Listener) → IsSafe l → IsSafe (ready accepts now w l).1
  unfolding ready
  ready-IsSafe now none l h = Quiet-IsSafe l (init accepts now l).1 (init-Quiet now l) h
  ready-IsSafe now (some r) l h = h
