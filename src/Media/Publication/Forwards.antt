-- ===== src/Media/Publication/Forwards.antt =====
-- Which frames a publication forwards, and a flush behind a stop.
use mona_server.Base.{
  ℕ, ◌+◌, ◌%◌, ◌^◌, ◌≡◌, refl, sym, ◌∙◌, ap, Bool, true, false, not, ◌&&◌, ◌||◌, List, [], ◌∷◌,
  none, some, ltb, if◌then◌else◌, Bool-cases, arith, ◌==◌, inl, inr, either_option, either_way,
  if_true, if_false, ◌<◌,
}
use mona_server.Media.{is_key_frame}
use mona_server.Media.Listener.{Event}
use mona_server.Media.Listener
use mona_server.Media.Publication.{
  PeerCall, Publication, Arrival, each, flush, flush_publisher, called, stop, unpublished,
  push_video, video_seen, video_of,
}

-- Frames one after the other.
unfoldable pub push_videos :
    (ℕ → Bool)
    → (ℕ → Bool)
    → (ℕ → List Event → Event → Bool)
    → List Arrival
    → Publication
    → Publication
push_videos may_publish may_subscribe accepts [] p = p
push_videos may_publish may_subscribe accepts (a ∷ rest) p =
    push_videos may_publish may_subscribe accepts rest
      (push_video may_publish may_subscribe accepts a p)

-- After a start or a loss the frames wait for a key frame.
abbrev pub still_waits : Bool → Arrival → Bool
still_waits waiting a = not (is_key_frame a.packet) && (ltb 0 a.lost || waiting)

-- The publisher's log after the frames, the newest first.
unfoldable pub forwarded : ℕ → Bool → List Arrival → List PeerCall → List PeerCall
forwarded peer waiting [] log = log
forwarded peer waiting (a ∷ rest) log =
    let kept = forwarded peer true rest log in
    let sent = forwarded peer false rest (PeerCall.sees peer a.time a.packet ∷ log) in
    if still_waits waiting a then kept else sent

-- How many frames do not pass.
unfoldable pub skipped : Bool → List Arrival → ℕ
skipped waiting [] = 0
skipped waiting (a ∷ rest) =
    let kept = skipped true rest in
    let sent = skipped false rest in if still_waits waiting a then kept + 1 else sent

found {ℓ} : {A : Type ℓ} {a b : A} → some a ≡ some b → a ≡ b
found e = cc

counted :
    (q p one s t : ℕ) → s ≡ t → q ≡ (p + one) % 2 ^ 32 → (q + s) % 2 ^ 32 ≡ (p + (t + one)) % 2 ^ 32
counted q p one s t e f = omega (arith, e, f)

module _ (may_publish may_subscribe : ℕ → Bool) (accepts : ℕ → List Event → Event → Bool) where
  record Forwarded (peer : ℕ) (a : Arrival) (p q : Publication) : Type 0 where
    same_publisher : q.publisher ≡ some peer
    waits_is : not q.first_key_frame ≡ still_waits (not p.first_key_frame) a
    calls_are : q.calls ≡ (
        if still_waits (not p.first_key_frame) a
        then p.calls
        else PeerCall.sees peer a.time a.packet ∷ p.calls)
    dropped_are : q.dropped_frames ≡ (
        if still_waits (not p.first_key_frame) a
        then (p.dropped_frames + 1) % 2 ^ 32
        else p.dropped_frames)

  waiting_is :
      (a : Arrival) (p : Publication)
      → not (video_seen a p).first_key_frame ≡ still_waits (not p.first_key_frame) a
  unfolding video_seen
  waiting_is a p = ground arith

  push_one :
      (peer : ℕ) (a : Arrival) (p : Publication)
      → p.publisher ≡ some peer
      → Forwarded peer a p (push_video may_publish may_subscribe accepts a p)
  unfolding push_video video_of video_seen
  push_one peer a p e =
      let p' = video_seen a p in
      let w = waiting_is a p in
      let P = Forwarded peer a p in
      let late = still_waits (not p.first_key_frame) a in
      let dropped : Publication = record p' { dropped_frames = (p'.dropped_frames + 1) % 2 ^ 32 } in
      let through : ℕ → Publication = λ q. video_of may_publish may_subscribe accepts q a p' in
      either_option P p.publisher p (λ q. if not p'.first_key_frame then dropped else through q)
        (λ none_is. let clash = sym none_is ∙ e in absurd cc)
        (λ q q_is.
          either_way P (not p'.first_key_frame) dropped (through q)
            (λ waits. record {
              same_publisher = e;
              waits_is = w;
              calls_are = sym (
                  if_true late p.calls (PeerCall.sees peer a.time a.packet ∷ p.calls)
                    (sym w ∙ waits));
              dropped_are =
                  sym (
                    if_true late ((p.dropped_frames + 1) % 2 ^ 32) p.dropped_frames
                      (sym w ∙ waits));
            })
            (λ passes. record {
              same_publisher = e;
              waits_is = w;
              calls_are =
                  ap (λ (x : ℕ). PeerCall.sees x a.time a.packet ∷ p.calls) (found (sym q_is ∙ e))
                  ∙ sym (
                      if_false late p.calls (PeerCall.sees peer a.time a.packet ∷ p.calls)
                        (sym w ∙ passes));
              dropped_are = sym (
                  if_false late ((p.dropped_frames + 1) % 2 ^ 32) p.dropped_frames
                    (sym w ∙ passes));
            }))

  -- Frames are pushed to a publication with a publisher, its dropped frames below 2 ^ 32. The
  -- calls of `onVideoPacket` and the dropped frames are what a filter of the frames gives: after a
  -- start or a frame with losses, those without a key frame are skipped and counted, and the
  -- others are forwarded in order.
  pub push_videos-forwarded :
      (peer : ℕ) (frames : List Arrival) (p : Publication)
      → p.publisher ≡ some peer
      → p.dropped_frames < 2 ^ 32
      → let q = push_videos may_publish may_subscribe accepts frames p in
        (q.calls ≡ forwarded peer (not p.first_key_frame) frames p.calls)
        × (q.dropped_frames ≡ (p.dropped_frames + skipped (not p.first_key_frame) frames) % 2 ^ 32)
  unfolding push_videos forwarded skipped
  push_videos-forwarded peer [] p e d = (refl, ground arith)
  push_videos-forwarded peer (a ∷ rest) p e d =
      let late = still_waits (not p.first_key_frame) a in
      let q = push_video may_publish may_subscribe accepts a p in
      let one = push_one peer a p e in
      elim (Bool-cases late) [
        | inl waits ↦
            let more = push_videos-forwarded peer rest q one.same_publisher small in
            let none_sent =
              if_true late p.calls (PeerCall.sees peer a.time a.packet ∷ p.calls) waits in
            let one_more =
              one.dropped_are
              ∙ if_true late ((p.dropped_frames + 1) % 2 ^ 32) p.dropped_frames waits in
            let flag = one.waits_is ∙ waits in
            (
              more.0
                  ∙ ap (λ (b : Bool). forwarded peer b rest q.calls) flag
                  ∙ ap (forwarded peer true rest) (one.calls_are ∙ none_sent)
                  ∙ sym (
                      if_true late (forwarded peer true rest p.calls)
                        (forwarded peer false rest (PeerCall.sees peer a.time a.packet ∷ p.calls))
                        waits),
              more.1
                  ∙ counted q.dropped_frames p.dropped_frames 1
                      (skipped (not q.first_key_frame) rest) (skipped true rest)
                      (ap (λ (b : Bool). skipped b rest) flag) one_more
                  ∙ ap (λ (n : ℕ). (p.dropped_frames + n) % 2 ^ 32)
                      (sym (if_true late (skipped true rest + 1) (skipped false rest) waits)),
            )
        | inr passes ↦
            let more = push_videos-forwarded peer rest q one.same_publisher small in
            let sent =
              if_false late p.calls (PeerCall.sees peer a.time a.packet ∷ p.calls) passes in
            let none_more =
              one.dropped_are
              ∙ if_false late ((p.dropped_frames + 1) % 2 ^ 32) p.dropped_frames passes in
            let flag = one.waits_is ∙ passes in
            (
              more.0
                  ∙ ap (λ (b : Bool). forwarded peer b rest q.calls) flag
                  ∙ ap (forwarded peer false rest) (one.calls_are ∙ sent)
                  ∙ sym (
                      if_false late (forwarded peer true rest p.calls)
                        (forwarded peer false rest (PeerCall.sees peer a.time a.packet ∷ p.calls))
                        passes),
              more.1
                  ∙ ap (λ (n : ℕ). (n + skipped (not q.first_key_frame) rest) % 2 ^ 32) none_more
                  ∙ ap (λ (b : Bool). (p.dropped_frames + skipped b rest) % 2 ^ 32) flag
                  ∙ ap (λ (n : ℕ). (p.dropped_frames + n) % 2 ^ 32)
                      (sym (if_false late (skipped true rest + 1) (skipped false rest) passes)),
            )
      ]
    where
      small : (push_video may_publish may_subscribe accepts a p).dropped_frames < 2 ^ 32
      small = let one = push_one peer a p e in ground (arith, one.dropped_are, d)

-- A stop that returns, after which a `flush` does not.
pub record Stops (peer : ℕ) (p : Publication) : Type 0 where
  pub after : Publication
  pub returns : stop peer p ≡ some after
  pub no_publisher : after.publisher ≡ none
  pub calls_are : after.calls ≡ PeerCall.unpublishes peer ∷ PeerCall.flushes peer ∷ p.calls
  pub flush_fails : flush after ≡ none

-- After a packet was pushed, a publisher stops: `stop` returns, it flushed the peer, then told it
-- of the end, and there is no publisher. A `flush` that follows reads the null pointer, as nothing
-- sets `_new` back.
pub stop-flush :
    (peer : ℕ) (p : Publication) → p.publisher ≡ some peer → p.is_new ≡ true → Stops peer p
unfolding stop flush flush_publisher unpublished called
stop-flush peer p e new =
    let same : (peer == peer) ≡ true = ground arith in
    let ls = each (λ client. Listener.stop_publishing) p.listeners in
    let flushed =
      called (PeerCall.flushes peer)
        (record p { listeners = each (λ client. Listener.flush) ls }) in
    record {
      after = unpublished peer flushed;
      returns = rw (e, same, new) refl;
      no_publisher = refl;
      calls_are = refl;
      flush_fails = rw new refl;
    }
