-- ===== src/Media/Listener/Given.antt =====
-- The times at which a listener gives its packets to the writers.
use mona_server.Base.{
  ℕ, ◌+◌, ◌-◌, ◌≡◌, refl, sym, ap, subst, Bool, true, false, ◌||◌, List, [], ◌∷◌, All,
  if◌then◌else◌, Bool-cases, inl, inr,
}
use mona_server.Media.{is_key_frame}
use mona_server.Media.Listener.{
  Medium, Event, Listener, tell, clocked, compute_time, start_publishing, stop_publishing,
  drop_frame,
}
use mona_server.Media.Listener.Times.{Follows, Based, compute_one}
use mona_server.Media.Listener.Pushes.{
  Push, time_of, push, pushes, passes, had_key, given, all_given, IsPlaying, lit, sound_written,
  video_written, video_dropped,
}

-- The times of packets that fit.
abbrev pub AllFollow : ℕ → ℕ → List Push → Type 0
AllFollow base adding = All (λ (x : Push). Follows base adding (time_of x))

-- What a packet leaves of a listener whose base is set.
record Pushed (hear see : Bool) (base adding : ℕ) (key : Bool) (log : List Event) (l : Listener)
    : Type 0 where
  playing : IsPlaying hear see l
  based : Based base adding l
  key_is : l.first_key_frame ≡ key
  log_is : l.log ≡ log

abbrev logged : Bool → Bool → ℕ → ℕ → Bool → Push → List Event → List Event
logged hear see base adding key x log =
    if passes key x then given hear see base adding x ∷ log else log

abbrev now_of : Push → ℕ
now_of (Push.heard now codec time packet) = now
now_of (Push.seen now codec time packet) = now

abbrev Timed : ℕ → ℕ → ℕ → ℕ → Listener → Type 0
Timed base adding now t l =
    ((compute_time now l t).time ≡ t - base + adding) × Based base adding (compute_time now l t)

Timed-lit :
    (base adding now t : ℕ) (key : Bool) (l : Listener)
    → Timed base adding now t l
    → Timed base adding now t (lit key l)
unfolding compute_time clocked
Timed-lit base adding now t key l h =
    (h.0, record { not_first = h.1.not_first; delta_is = h.1.delta_is; adding_is = h.1.adding_is })

-- A packet that passes, at its time.
told-Pushed :
    (hear see : Bool) (base adding now t : ℕ) (e : ℕ → Event) (l : Listener)
    → IsPlaying hear see l
    → Timed base adding now t l
    → let timed = compute_time now l t in
      Pushed hear see base adding l.first_key_frame
        (e (t - base + adding) ∷ l.log)
        (tell (e timed.time) timed)
unfolding tell compute_time clocked
told-Pushed hear see base adding now t e l h timed = record {
  playing = h;
  based = record {
    not_first = timed.1.not_first;
    delta_is = timed.1.delta_is;
    adding_is = timed.1.adding_is;
  };
  key_is = refl;
  log_is = ap (λ (x : ℕ). e x ∷ l.log) timed.0;
}

drop_frame-Pushed :
    (hear see : Bool) (base adding : ℕ) (l : Listener)
    → IsPlaying hear see l
    → Based base adding l
    → Pushed hear see base adding false l.log (drop_frame (lit false l))
unfolding drop_frame
drop_frame-Pushed hear see base adding l h b = record {
  playing = h;
  based = record { not_first = b.not_first; delta_is = b.delta_is; adding_is = b.adding_is };
  key_is = refl;
  log_is = refl;
}

module _ (accepts : List Event → Event → Bool)
    (accepting : (log : List Event) (e : Event) → accepts log e ≡ true) where
  -- A packet that passes.
  push-Pushed :
      (hear see : Bool) (base adding : ℕ) (x : Push) (l : Listener)
      → IsPlaying hear see l
      → Timed base adding (now_of x) (time_of x) l
      → passes l.first_key_frame x ≡ true
      → Pushed hear see base adding
          (had_key l.first_key_frame x)
          (given hear see base adding x ∷ l.log)
          (push accepts x l)
  unfolding push
  push-Pushed hear see base adding (Push.heard now codec t packet) l h timed pass =
      rw (sound_written accepts accepting hear see now codec t packet l h) (
        told-Pushed hear see base adding now t (λ x. Event.wrote Medium.audio hear x packet) l h
          timed)
  push-Pushed hear see base adding (Push.seen now codec t packet) l h timed pass =
      rw (video_written accepts accepting hear see now codec t packet l h pass, pass)
        (told-Pushed hear see base adding now t (λ x. Event.wrote Medium.video see x packet)
          (lit true l) h (Timed-lit base adding now t true l timed))

  push_one :
      (hear see : Bool) (base adding : ℕ) (x : Push) (l : Listener)
      → IsPlaying hear see l
      → Based base adding l
      → Follows base adding (time_of x)
      → Pushed hear see base adding
          (had_key l.first_key_frame x)
          (logged hear see base adding l.first_key_frame x l.log)
          (push accepts x l)
  unfolding push
  push_one hear see base adding (Push.heard now codec t packet) l h b f =
      push-Pushed hear see base adding (Push.heard now codec t packet) l h
        (compute_one now base adding t l b f) refl
  push_one hear see base adding (Push.seen now codec t packet) l h b f =
      let x = Push.seen now codec t packet in
      elim (Bool-cases (is_key_frame packet || l.first_key_frame)) [
        | inl pass ↦
            subst
              (λ (c : Bool).
                Pushed hear see base adding (had_key l.first_key_frame x)
                  (if c then given hear see base adding x ∷ l.log else l.log) (push accepts x l))
              (sym pass)
              (push-Pushed hear see base adding x l h (compute_one now base adding t l b f) pass)
        | inr late ↦
            rw (video_dropped accepts accepting hear see now codec t packet l h late, late)
              (drop_frame-Pushed hear see base adding l h b)
      ]

  rest_given :
      (hear see : Bool) (base adding : ℕ) (xs : List Push) (key : Bool) (log : List Event)
      (l : Listener)
      → Pushed hear see base adding key log l
      → AllFollow base adding xs
      → (pushes accepts xs l).log ≡ all_given hear see base adding key xs log
  unfolding pushes all_given
  rest_given hear see base adding [] key log l p f = p.log_is
  rest_given hear see base adding (x ∷ xs) key log l p f =
      rest_given hear see base adding xs (had_key key x) (logged hear see base adding key x log)
        (push accepts x l)
        (subst
          (λ (k : Bool).
            Pushed hear see base adding (had_key k x) (logged hear see base adding k x log)
              (push accepts x l))
          p.key_is
          (subst
            (λ (g : List Event).
              Pushed hear see base adding (had_key l.first_key_frame x)
                (logged hear see base adding l.first_key_frame x g) (push accepts x l))
            p.log_is (push_one hear see base adding x l p.playing p.based f.0)))
        f.1

  -- A listener wants both media, has their writers, which accept everything, has sent the settings
  -- of both codecs, and has given packets since its last `init`. It is told of a stop and a start,
  -- then audio and video are pushed, interleaved, at times which are not 0 and fit in 32 bits with
  -- the listener's last time. The log of its writers is STOP, START, and what a filter gives:
  -- audio and, from a packet that `IsKeyFrame` accepts on, video, each once and in the order of
  -- the pushes, at its time plus that last time.
  pub pushes-stop_publishing :
      (hear see : Bool) (now : ℕ) (xs : List Push) (l : Listener)
      → IsPlaying hear see l
      → l.first_time ≡ false
      → AllFollow 0 l.time xs
      → (pushes accepts xs (start_publishing now (stop_publishing l))).log
        ≡ all_given hear see 0 l.time false xs (Event.told_start ∷ Event.told_stop ∷ l.log)
  unfolding start_publishing stop_publishing tell
  pushes-stop_publishing hear see now xs l h first f =
      rest_given hear see 0 l.time xs false (Event.told_start ∷ Event.told_stop ∷ l.log)
        (start_publishing now (stop_publishing l))
        (record {
          playing = h;
          based = record { not_first = first; delta_is = refl; adding_is = refl };
          key_is = refl;
          log_is = refl;
        })
        f
