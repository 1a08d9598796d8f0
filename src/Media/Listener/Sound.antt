-- ===== src/Media/Listener/Sound.antt =====
-- So does an audio packet, and the closing of a writer.
use mona_server.Base.{
  ℕ, Bool, true, false, not, ◌&&◌, List, Option, some, ltb, length, if◌then◌else◌, either_way,
}
use mona_server.Media.{aac_infos}
use mona_server.Media.Listener.{
  Medium, Event, Listener, tell, init, detached, close, ready, write_packet, audio_settings,
  push_sound, push_audio_packet, compute_time, set_audio_writer, reliable_of,
}
use mona_server.Media.Listener.Safe.{
  key_offered, IsKeyed, IsSafe, Quiet-IsSafe, init-Quiet, write_packet-IsSafe, ready-IsSafe,
}

module _ (accepts : List Event → Event → Bool) where
  write_sound-IsSafe :
      (now : ℕ) (reliable : Bool) (time : ℕ) (packet : List ℕ) (l : Listener)
      → IsSafe l
      → IsSafe (write_packet accepts now (Event.wrote Medium.audio reliable time packet) l).1
  unfolding tell key_offered IsKeyed
  write_sound-IsSafe now reliable time packet l h =
      write_packet-IsSafe accepts now (Event.wrote Medium.audio reliable time packet) l
        (record { keyed_is = h.keyed_is; keyed_log = h.keyed_log })

  set_audio_writer-IsSafe :
      (w : Option Bool) (l : Listener) → IsSafe l → IsSafe (set_audio_writer w l)
  unfolding set_audio_writer
  set_audio_writer-IsSafe w l h = record { keyed_is = h.keyed_is; keyed_log = h.keyed_log }

  audio_settings-IsSafe :
      (now : ℕ) (codec packet : List ℕ) (l : Listener)
      → IsSafe l
      → IsSafe (audio_settings accepts now codec packet l).1
  unfolding audio_settings
  audio_settings-IsSafe now codec packet l h =
      let l' : Listener = record l { first_audio = false } in
      let h' : IsSafe l' = record { keyed_is = h.keyed_is; keyed_log = h.keyed_log } in
      let e = Event.wrote Medium.audio true l.time codec in
      let r = write_packet accepts now e (set_audio_writer (some true) l') in
      let t =
        write_sound-IsSafe now true l.time codec (set_audio_writer (some true) l')
          (set_audio_writer-IsSafe (some true) l' h') in
      let P : Bool × Listener → Type 0 = λ (x : Bool × Listener). IsSafe x.1 in
      let back = if r.0 then set_audio_writer l.audio_writer r.1 else r.1 in
      let back-IsSafe : IsSafe back =
        either_way IsSafe r.0 (set_audio_writer l.audio_writer r.1) r.1
          (λ x. set_audio_writer-IsSafe l.audio_writer r.1 t) (λ x. t) in
      either_way P (not l.first_audio) (true, l)
        (if not (aac_infos packet) && ltb 0 (length codec) then (r.0, back) else (true, l'))
        (λ x. h)
        (λ x.
          either_way P (not (aac_infos packet) && ltb 0 (length codec)) (r.0, back) (true, l')
            (λ y. back-IsSafe) (λ y. h'))

  push_sound-IsSafe :
      (now : ℕ) (codec packet : List ℕ) (time : ℕ) (l : Listener)
      → IsSafe l
      → IsSafe (push_sound accepts now codec packet time l)
  unfolding push_sound compute_time
  push_sound-IsSafe now codec packet time l h =
      let timed = compute_time now l time in
      let r = audio_settings accepts now codec packet timed in
      let s =
        audio_settings-IsSafe now codec packet timed
          (record { keyed_is = h.keyed_is; keyed_log = h.keyed_log }) in
      let reliable = reliable_of r.1.audio_writer in
      either_way IsSafe r.0
        (write_packet accepts now (Event.wrote Medium.audio reliable timed.time packet) r.1).1 r.1
        (λ x. write_sound-IsSafe now reliable timed.time packet r.1 s) (λ x. s)

  pub push_audio_packet-IsSafe :
      (now : ℕ) (codec packet : List ℕ) (time : ℕ) (l : Listener)
      → IsSafe l
      → IsSafe (push_audio_packet accepts now codec packet time l)
  unfolding push_audio_packet
  push_audio_packet-IsSafe now codec packet time l h =
      let r = ready accepts now l.audio_writer l in
      let s = ready-IsSafe accepts now l.audio_writer l h in
      either_way IsSafe (not l.receive_audio) (record l { first_audio = true })
        (if not r.0 then r.1 else push_sound accepts now codec packet time r.1)
        (λ e. record { keyed_is = h.keyed_is; keyed_log = h.keyed_log })
        (λ e.
          either_way IsSafe (not r.0) r.1 (push_sound accepts now codec packet time r.1) (λ x. s)
            (λ x. push_sound-IsSafe now codec packet time r.1 s))

  detached-IsSafe : (m : Medium) (l : Listener) → IsSafe l → IsSafe (detached m l)
  unfolding detached
  detached-IsSafe Medium.audio l h = record { keyed_is = h.keyed_is; keyed_log = h.keyed_log }
  detached-IsSafe Medium.video l h = record { keyed_is = h.keyed_is; keyed_log = h.keyed_log }
  detached-IsSafe Medium.message l h = record { keyed_is = h.keyed_is; keyed_log = h.keyed_log }

  pub close-IsSafe :
      (now : ℕ) (m : Medium) (itself : Bool) (l : Listener)
      → IsSafe l
      → IsSafe (close accepts now m itself l)
  unfolding close
  close-IsSafe now m itself l h =
      let c = detached-IsSafe m l h in
      either_way IsSafe itself (detached m l) (init accepts now (detached m l)).1 (λ e. c)
        (λ e.
          Quiet-IsSafe accepts (detached m l) (init accepts now (detached m l)).1
            (init-Quiet accepts now (detached m l)) c)
