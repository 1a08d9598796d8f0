-- ===== src/Media/Listener/Video.antt =====
-- A video packet is offered after one that `IsKeyFrame` accepts.
use mona_server.Base.{
  ℕ, ◌≡◌, refl, sym, ◌∙◌, ap, subst, Bool, true, false, not, ◌&&◌, ◌||◌, List, Option, some, ltb,
  length, if◌then◌else◌, Bool-cases, either_way, arith, inl, inr,
}
use mona_server.Media.{is_key_frame, h264_infos}
use mona_server.Media.Listener.{
  Medium, Event, Listener, tell, init, ready, write_packet, video_settings, push_frame, drop_frame,
  keyed, push_video_packet, compute_time, set_video_writer, reliable_of,
}
use mona_server.Media.Listener.Safe.{
  key_offered, IsKeyed, IsSafe, IsCodec, Quiet-IsSafe, init-Quiet, write_packet-IsSafe,
  ready-IsSafe,
}

module _ (accepts : List Event → Event → Bool) where
  -- A frame may be offered: `IsKeyFrame` accepts it, or accepted one before.
  record MayShow (packet : List ℕ) (l : Listener) : Type 0 where
    shown : (is_key_frame packet || key_offered l.log) ≡ true
    keyed_log : IsKeyed l.log

  tell-video :
      (reliable : Bool) (time : ℕ) (packet : List ℕ) (l : Listener)
      → MayShow packet l
      → IsSafe (tell (Event.wrote Medium.video reliable time packet) l)
  unfolding tell key_offered IsKeyed
  tell-video reliable time packet l h = record {
    keyed_is = λ e. h.shown;
    keyed_log = (h.shown, h.keyed_log);
  }

  show :
      (packet : List ℕ) (r : Bool × Listener)
      → (r.0 ≡ false → IsSafe r.1)
      → (r.0 ≡ true → MayShow packet r.1)
      → (now : ℕ) (e : Event) → (MayShow packet r.1 → IsSafe (tell e r.1))
      → IsSafe (if r.0 then (write_packet accepts now e r.1).1 else r.1)
  show packet r refused accepted now e told = elim (Bool-cases r.0) [
    | inl x ↦
        subst (λ (b : Bool). IsSafe (if b then (write_packet accepts now e r.1).1 else r.1)) (sym x)
          (write_packet-IsSafe accepts now e r.1 (told (accepted x)))
    | inr x ↦
        subst (λ (b : Bool). IsSafe (if b then (write_packet accepts now e r.1).1 else r.1)) (sym x)
          (refused x)
  ]

  -- What the settings leave.
  record Prepared (packet : List ℕ) (r : Bool × Listener) : Type 0 where
    may_show : MayShow packet r.1
    is_safe : r.0 ≡ false → IsSafe r.1

  written :
      (now : ℕ) (codec packet : List ℕ) (time : ℕ) (l : Listener)
      → IsKeyed l.log
      → is_key_frame codec ≡ true
      → let r = write_packet accepts now (Event.wrote Medium.video true time codec) l in
        MayShow packet r.1 × IsSafe r.1
  unfolding write_packet tell key_offered
  written now codec packet time l d key =
      let e = Event.wrote Medium.video true time codec in
      let told = tell-video true time codec l (record { shown = rw key refl; keyed_log = d }) in
      let t = tell e l in
      let had = offered_tell true time codec l key in
      elim (Bool-cases (accepts l.log e)) [
        | inl accepted ↦
            rw accepted (record { shown = ground (arith, had); keyed_log = told.keyed_log }, told)
        | inr refused ↦
            let q = init-Quiet accepts now t in
            rw refused (
              record {
                shown = ground (arith, had, q.same_offered);
                keyed_log = q.keyed_log told.keyed_log;
              },
              Quiet-IsSafe accepts t (init accepts now t).1 q told,
            )
      ]
    where
      offered_tell :
          (reliable : Bool) (time : ℕ) (codec : List ℕ) (l : Listener)
          → is_key_frame codec ≡ true
          → key_offered (tell (Event.wrote Medium.video reliable time codec) l).log ≡ true
      offered_tell reliable time codec l key = rw key refl

  restored :
      (r : Bool × Listener) (w : Option Bool) (packet : List ℕ)
      → MayShow packet r.1 × IsSafe r.1
      → Prepared packet (r.0, if r.0 then set_video_writer w r.1 else r.1)
  unfolding set_video_writer
  restored (true, l) w packet h = record {
    may_show = record { shown = h.0.shown; keyed_log = h.0.keyed_log };
    is_safe = λ e. absurd cc;
  }
  restored (false, l) w packet h = record { may_show = h.0; is_safe = λ e. h.1 }

  video_settings-Prepared :
      (now : ℕ) (codec packet : List ℕ) (l : Listener)
      → IsCodec codec
      → MayShow packet l
      → Prepared packet (video_settings accepts now codec packet l)
  unfolding video_settings set_video_writer IsCodec
  video_settings-Prepared now codec packet l c h = elim (Bool-cases l.first_video) [
    | inr later ↦ rw later (record {
      may_show = record { shown = h.shown; keyed_log = h.keyed_log };
      is_safe = λ e. absurd cc;
    })
    | inl first ↦ elim (Bool-cases (not (h264_infos packet) && ltb 0 (length codec))) [
      | inl some_codec ↦
          rw (first, some_codec)
            (restored
              (write_packet accepts now (Event.wrote Medium.video true l.time codec)
                (set_video_writer (some true) (record l { first_video = false })))
              l.video_writer packet
              (written now codec packet l.time
                (set_video_writer (some true) (record l { first_video = false })) h.keyed_log
                (c (ground (arith, some_codec)))))
      | inr no_codec ↦
          rw (first, no_codec)
            (record {
              may_show = record { shown = h.shown; keyed_log = h.keyed_log };
              is_safe = λ e. absurd cc;
            })
    ]
  ]

  compute_time-MayShow :
      (now : ℕ) (l : Listener) (time : ℕ) (packet : List ℕ)
      → MayShow packet l
      → MayShow packet (compute_time now l time)
  unfolding compute_time
  compute_time-MayShow now l time packet h = record { shown = h.shown; keyed_log = h.keyed_log }

  push_frame-IsSafe :
      (now : ℕ) (codec packet : List ℕ) (time : ℕ) (l : Listener)
      → IsCodec codec
      → MayShow packet l
      → IsSafe (push_frame accepts now codec packet time l)
  unfolding push_frame
  push_frame-IsSafe now codec packet time l c h =
      let timed = compute_time now l time in
      let r = video_settings accepts now codec packet timed in
      let reliable = reliable_of r.1.video_writer in
      let p =
        video_settings-Prepared now codec packet timed c
          (compute_time-MayShow now l time packet h) in
      show packet r p.is_safe (λ e. p.may_show) now
        (Event.wrote Medium.video reliable timed.time packet)
        (tell-video reliable timed.time packet r.1)

  keyed-MayShow :
      (packet : List ℕ) (l : Listener)
      → IsSafe l
      → (keyed packet l).first_key_frame ≡ true
      → MayShow packet (keyed packet l)
  unfolding keyed
  keyed-MayShow packet l h e = elim (Bool-cases (is_key_frame packet)) [
    | inl key ↦ rw key (record { shown = rw key refl; keyed_log = h.keyed_log })
    | inr other ↦
        let same : (if is_key_frame packet then record l { first_key_frame = true } else l) ≡ l =
          rw other refl in
        let had = h.keyed_is (ap (λ (m : Listener). m.first_key_frame) (sym same) ∙ e) in
        rw other (record { shown = ground (arith, had); keyed_log = h.keyed_log })
  ]

  drop_frame-IsSafe :
      (packet : List ℕ) (l : Listener)
      → IsSafe l
      → (keyed packet l).first_key_frame ≡ false
      → IsSafe (drop_frame (keyed packet l))
  unfolding drop_frame keyed
  drop_frame-IsSafe packet l h e = elim (Bool-cases (is_key_frame packet)) [
    | inl key ↦
        let clash : (if is_key_frame packet
              then record l { first_key_frame = true }
              else l).first_key_frame
            ≡ true =
          rw key refl in
        absurd (ground (arith, clash, e))
    | inr other ↦ rw other (record { keyed_is = h.keyed_is; keyed_log = h.keyed_log })
  ]

  pub push_video_packet-IsSafe :
      (now : ℕ) (codec packet : List ℕ) (time : ℕ) (l : Listener)
      → IsCodec codec
      → IsSafe l
      → IsSafe (push_video_packet accepts now codec packet time l)
  unfolding push_video_packet
  push_video_packet-IsSafe now codec packet time l c h =
      let r = ready accepts now l.video_writer l in
      let s = ready-IsSafe accepts now l.video_writer l h in
      let l' = keyed packet r.1 in
      either_way IsSafe (not l.receive_video)
        (record l { first_key_frame = false; first_video = true })
        (if not r.0
          then r.1
          else if not l'.first_key_frame
          then drop_frame l'
          else push_frame accepts now codec packet time l')
        (λ e. record { keyed_is = λ x. absurd cc; keyed_log = h.keyed_log })
        (λ e.
          either_way IsSafe (not r.0) r.1
            (if not l'.first_key_frame
              then drop_frame l'
              else push_frame accepts now codec packet time l')
            (λ x. s)
            (λ x.
              either_way IsSafe (not l'.first_key_frame) (drop_frame l')
                (push_frame accepts now codec packet time l')
                (λ y. drop_frame-IsSafe packet r.1 s (ground (arith, y)))
                (λ y.
                  push_frame-IsSafe now codec packet time l' c
                    (keyed-MayShow packet r.1 s (ground (arith, y))))))
