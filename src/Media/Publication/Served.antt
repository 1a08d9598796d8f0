-- ===== src/Media/Publication/Served.antt =====
-- Sequences of calls on a publication: the listeners wait for a packet that `IsKeyFrame` accepts.
use mona_server.Base.{
  ℕ, ◌≡◌, refl, Bool, true, false, not, ◌&&◌, List, [], ◌∷◌, Option, some, All, ◌==◌, lookup,
  insert, erase, if◌then◌else◌, ◌>>=◌, Bool-cases, either_way, either_option, ◌+◌, ◌%◌, ◌^◌, arith,
  inl, inr, ltb,
}
use mona_server.Media.{is_key_frame, h264_infos, aac_infos}
use mona_server.Media.Listener.{
  Event, Medium, Listener, listener, start_publishing, push_audio_packet, push_video_packet, close,
}
use mona_server.Media.Listener
use mona_server.Media.Listener.Safe.{
  IsSafe, IsCodec, listener-IsSafe, start_publishing-IsSafe, stop_publishing-IsSafe, flush-IsSafe,
}
use mona_server.Media.Listener.Video.{push_video_packet-IsSafe}
use mona_server.Media.Listener.Sound.{push_audio_packet-IsSafe, close-IsSafe}
use mona_server.Media.Publication.{
  Publication, Arrival, publication, each, flush, flush_publisher, is_published, called,
  add_listener, remove_listener, start, begun, stop, unpublished, PeerCall, push_audio, audio_of,
  push_video, video_seen, video_of,
}

-- A call: `addListener` and `removeListener` of a peer, `start` and `stop`, a packet, and, of a
-- client's listener, `receiveAudio` and `receiveVideo` and the `close` of a writer.
pub data Call : Type 0 where
  subscribed : ℕ → ℕ → Bool → Call
  unsubscribed : ℕ → Call
  began : ℕ → ℕ → Call
  ended : ℕ → Call
  heard : Arrival → Call
  seen : Arrival → Call
  wanted : ℕ → Bool → Bool → Call
  lost_writer : ℕ → ℕ → Medium → Bool → Call

unfoldable pub on_client : ℕ → (Listener → Listener) → Publication → Publication
on_client client f p = record p {
  listeners = each (λ c l. if c == client then f l else l) p.listeners;
}

unfoldable pub wanting : Bool → Bool → Listener → Listener
wanting hear see l = record l { receive_audio = hear; receive_video = see }

module _ (may_publish may_subscribe : ℕ → Bool) (accepts : ℕ → List Event → Event → Bool) where
  unfoldable pub call : Call → Publication → Option Publication
  call (Call.subscribed now peer unbuffered) p =
      some (add_listener may_publish may_subscribe accepts now peer unbuffered p).1
  call (Call.unsubscribed peer) p = some (remove_listener peer p)
  call (Call.began now peer) p =
      start may_publish may_subscribe accepts now peer p >>= (λ r. some r.1)
  call (Call.ended peer) p = stop peer p
  call (Call.heard a) p = some (push_audio may_publish may_subscribe accepts a p)
  call (Call.seen a) p = some (push_video may_publish may_subscribe accepts a p)
  call (Call.wanted client hear see) p = some (on_client client (wanting hear see) p)
  call (Call.lost_writer now client m itself) p =
      some (on_client client (close (accepts client) now m itself) p)

  unfoldable pub run : List Call → Publication → Option Publication
  run [] p = some p
  run (c ∷ cs) p = call c p >>= run cs

abbrev pub AreSafe : List (ℕ × Listener) → Type 0
AreSafe = All (λ (e : ℕ × Listener). IsSafe e.1)

pub record IsServed (p : Publication) : Type 0 where
  pub codec : IsCodec p.video_codec
  pub safe : AreSafe p.listeners

-- A call returns, and the publication serves its listeners.
pub record Serves (result : Option Publication) : Type 0 where
  pub after : Publication
  pub returns : result ≡ some after
  pub served : IsServed after

publication-IsServed : IsServed publication
unfolding publication IsCodec
publication-IsServed = record { codec = λ e. absurd (ground (arith, e)); safe = tt }

each-AreSafe :
    (f : ℕ → Listener → Listener) (ls : List (ℕ × Listener))
    → ((c : ℕ) (l : Listener) → IsSafe l → IsSafe (f c l))
    → AreSafe ls
    → AreSafe (each f ls)
unfolding each
each-AreSafe f [] h s = tt
each-AreSafe f ((c, l) ∷ ls) h s = (h c l s.0, each-AreSafe f ls h s.1)

insert-AreSafe :
    (c : ℕ) (l : Listener) (ls : List (ℕ × Listener))
    → IsSafe l
    → AreSafe ls
    → AreSafe (insert c l ls)
insert-AreSafe c l [] h s = (h, tt)
insert-AreSafe c l ((d, m) ∷ ls) h s =
    either_way AreSafe (ltb c d) ((c, l) ∷ (d, m) ∷ ls)
      (if d == c then (c, l) ∷ ls else (d, m) ∷ insert c l ls) (λ e. (h, s))
      (λ e.
        either_way AreSafe (d == c) ((c, l) ∷ ls) ((d, m) ∷ insert c l ls) (λ x. (h, s.1))
          (λ x. (s.0, insert-AreSafe c l ls h s.1)))

erase-AreSafe : (c : ℕ) (ls : List (ℕ × Listener)) → AreSafe ls → AreSafe (erase c ls)
erase-AreSafe c [] s = tt
erase-AreSafe c ((d, m) ∷ ls) s =
    either_way AreSafe (d == c) (erase c ls) ((d, m) ∷ erase c ls) (λ e. erase-AreSafe c ls s.1)
      (λ e. (s.0, erase-AreSafe c ls s.1))

flush-Serves :
    (p : Publication) (peer : ℕ) → p.publisher ≡ some peer → IsServed p → Serves (flush p)
unfolding flush flush_publisher called
flush-Serves p peer e h =
    let ls = each (λ client. Listener.flush) p.listeners in
    let s =
      each-AreSafe (λ client. Listener.flush) p.listeners (λ c l x. flush-IsSafe l x) h.safe in
    elim (Bool-cases p.is_new) [
      | inr old ↦ record { after = p; returns = rw old refl; served = h }
      | inl new ↦ record {
        after = called (PeerCall.flushes peer) (record p { listeners = ls });
        returns = rw (new, e) refl;
        served = record { codec = h.codec; safe = s };
      }
    ]

returned : {p : Publication} → IsServed p → Serves (some p)
returned {p} h = record { after = p; returns = refl; served = h }

remove_listener-IsServed :
    (peer : ℕ) (p : Publication) → IsServed p → IsServed (remove_listener peer p)
unfolding remove_listener called
remove_listener-IsServed peer p h =
    either_option IsServed (lookup peer p.listeners) p
      (λ l. record (called (PeerCall.unsubscribes peer) p) { listeners = erase peer p.listeners })
      (λ e. h) (λ l e. record { codec = h.codec; safe = erase-AreSafe peer p.listeners h.safe })

stop-Serves : (peer : ℕ) (p : Publication) → IsServed p → Serves (stop peer p)
unfolding stop unpublished called IsCodec
stop-Serves peer p h =
    let ls = each (λ client. Listener.stop_publishing) p.listeners in
    let s =
      each-AreSafe (λ client. Listener.stop_publishing) p.listeners
        (λ c l x. stop_publishing-IsSafe l x) h.safe in
    let flushed = flush (record p { listeners = ls }) >>= (λ p'. some (unpublished peer p')) in
    either_option Serves p.publisher (some p)
      (λ publisher. if not (publisher == peer) then some p else flushed) (λ e. returned h)
      (λ publisher e.
        either_way Serves (not (publisher == peer)) (some p) flushed (λ x. returned h)
          (λ x.
            let f =
              flush-Serves (record p { listeners = ls }) publisher e
                (record { codec = h.codec; safe = s }) in
            record {
              after = unpublished peer f.after;
              returns = rw f.returns refl;
              served = record { codec = λ y. absurd (ground (arith, y)); safe = f.served.safe };
            }))

on_client-IsServed :
    (client : ℕ) (f : Listener → Listener) (p : Publication)
    → ((l : Listener) → IsSafe l → IsSafe (f l))
    → IsServed p
    → IsServed (on_client client f p)
unfolding on_client
on_client-IsServed client f p keep h = record {
  codec = h.codec;
  safe =
      each-AreSafe (λ c l. if c == client then f l else l) p.listeners
        (λ c l x. either_way IsSafe (c == client) (f l) l (λ e. keep l x) (λ e. x)) h.safe;
}

wanting-IsSafe : (hear see : Bool) (l : Listener) → IsSafe l → IsSafe (wanting hear see l)
unfolding wanting
wanting-IsSafe hear see l h = record { keyed_is = h.keyed_is; keyed_log = h.keyed_log }

-- `IsKeyFrame` accepts the settings that a publication keeps.
video_seen-IsCodec :
    (a : Arrival) (p : Publication) → IsServed p → IsCodec (video_seen a p).video_codec
unfolding video_seen IsCodec
video_seen-IsCodec a p h =
    either_way IsCodec (is_key_frame a.packet && h264_infos a.packet) a.packet p.video_codec
      (λ e x. ground (arith, e)) (λ e. h.codec)

module _ (may_publish may_subscribe : ℕ → Bool) (accepts : ℕ → List Event → Event → Bool) where
  add_listener-IsServed :
      (now peer : ℕ) (unbuffered : Bool) (p : Publication)
      → IsServed p
      → IsServed (add_listener may_publish may_subscribe accepts now peer unbuffered p).1
  unfolding add_listener called
  add_listener-IsServed now peer unbuffered p h =
      let l = listener unbuffered now in
      let l' = if is_published p.publisher then start_publishing now l else l in
      let p' = called (PeerCall.subscribes peer) p in
      let joined : Publication = record p' { listeners = insert peer l' p.listeners } in
      let P : Bool × Publication → Type 0 = λ (r : Bool × Publication). IsServed r.1 in
      let s = listener-IsSafe unbuffered now in
      let s' =
        either_way IsSafe (is_published p.publisher) (start_publishing now l) l
          (λ e. start_publishing-IsSafe now l s) (λ e. s) in
      either_option P (lookup peer p.listeners)
        (if may_subscribe peer then (false, joined) else (true, p')) (λ already. (false, p))
        (λ e.
          either_way P (may_subscribe peer) (false, joined) (true, p')
            (λ x. record { codec = h.codec; safe = insert-AreSafe peer l' p.listeners s' h.safe })
            (λ x. record { codec = h.codec; safe = h.safe }))
        (λ already e. h)

  start-Serves :
      (now peer : ℕ) (p : Publication)
      → IsServed p
      → Serves (start may_publish may_subscribe accepts now peer p >>= (λ r. some r.1))
  unfolding start begun called
  start-Serves now peer p h =
      let P : Option (Bool × Publication) → Type 0 =
        λ (o : Option (Bool × Publication)). Serves (o >>= (λ r. some r.1)) in
      let s =
        each-AreSafe (λ client. start_publishing now) p.listeners
          (λ c l x. start_publishing-IsSafe now l x) h.safe in
      let f = flush-Serves (begun now peer p) peer refl (record { codec = h.codec; safe = s }) in
      let flushed = flush (begun now peer p) >>= (λ p'. some (false, p')) in
      let refused = some (true, called (PeerCall.publishes peer) p) in
      either_option P p.publisher (if may_publish peer then flushed else refused)
        (λ publisher. some (true, p))
        (λ e.
          either_way P (may_publish peer) flushed refused
            (λ x. record { after = f.after; returns = rw f.returns refl; served = f.served })
            (λ x. record {
              after = called (PeerCall.publishes peer) p;
              returns = refl;
              served = record { codec = h.codec; safe = h.safe };
            }))
        (λ publisher e. record { after = p; returns = refl; served = h })

  push_audio-IsServed :
      (a : Arrival) (p : Publication)
      → IsServed p
      → IsServed (push_audio may_publish may_subscribe accepts a p)
  unfolding push_audio audio_of
  push_audio-IsServed a p h =
      let codec = if aac_infos a.packet then a.packet else p.audio_codec in
      either_option IsServed p.publisher p
        (λ peer. audio_of may_publish may_subscribe accepts peer a p) (λ e. h)
        (λ peer e. record {
          codec = h.codec;
          safe =
              each-AreSafe
                (λ client. push_audio_packet (accepts client) a.now codec a.packet a.time)
                p.listeners
                (λ c l x. push_audio_packet-IsSafe (accepts c) a.now codec a.packet a.time l x)
                h.safe;
        })

  push_video-IsServed :
      (a : Arrival) (p : Publication)
      → IsServed p
      → IsServed (push_video may_publish may_subscribe accepts a p)
  unfolding push_video video_of video_seen
  push_video-IsServed a p h =
      let p' = video_seen a p in
      let c = video_seen-IsCodec a p h in
      let dropped : Publication = record p' { dropped_frames = (p'.dropped_frames + 1) % 2 ^ 32 } in
      let forwarded = video_of may_publish may_subscribe accepts in
      either_option IsServed p.publisher p
        (λ peer. if not p'.first_key_frame then dropped else forwarded peer a p') (λ e. h)
        (λ peer e.
          either_way IsServed (not p'.first_key_frame) dropped (forwarded peer a p')
            (λ x. record { codec = c; safe = h.safe })
            (λ x. record {
              codec = c;
              safe =
                  each-AreSafe
                    (λ client.
                      push_video_packet (accepts client) a.now p'.video_codec a.packet a.time)
                    p.listeners
                    (λ k l y.
                      push_video_packet-IsSafe (accepts k) a.now p'.video_codec a.packet a.time l c
                        y)
                    h.safe;
            }))

  call-Serves :
      (c : Call) (p : Publication)
      → IsServed p
      → Serves (call may_publish may_subscribe accepts c p)
  unfolding call
  call-Serves (Call.subscribed now peer unbuffered) p h =
      returned (add_listener-IsServed now peer unbuffered p h)
  call-Serves (Call.unsubscribed peer) p h = returned (remove_listener-IsServed peer p h)
  call-Serves (Call.began now peer) p h = start-Serves now peer p h
  call-Serves (Call.ended peer) p h = stop-Serves peer p h
  call-Serves (Call.heard a) p h = returned (push_audio-IsServed a p h)
  call-Serves (Call.seen a) p h = returned (push_video-IsServed a p h)
  call-Serves (Call.wanted client hear see) p h =
      returned
        (on_client-IsServed client (wanting hear see) p (λ l x. wanting-IsSafe hear see l x) h)
  call-Serves (Call.lost_writer now client m itself) p h = returned (
      on_client-IsServed client (close (accepts client) now m itself) p
        (λ l x. close-IsSafe (accepts client) now m itself l x) h)

  run-IsServed :
      (cs : List Call) (p : Publication)
      → IsServed p
      → Serves (run may_publish may_subscribe accepts cs p)
  unfolding run
  run-IsServed [] p h = returned h
  run-IsServed (c ∷ cs) p h =
      let first = call-Serves c p h in
      let rest = run-IsServed cs first.after first.served in
      record { after = rest.after; returns = rw first.returns rest.returns; served = rest.served }

  -- Of a new publication, in any order, peers subscribe, unsubscribe, start and stop, audio and
  -- video arrive with or without losses, listeners turn their media off and on, and writers close.
  -- Whatever the writers and the peers answer, every call returns, and what each listener offered
  -- to its writers is such: the first video packet after each START is one that `IsKeyFrame`
  -- accepts. The settings of H264 count as such, and a packet counts even if the writer refuses
  -- it, or is initialised again or replaced later.
  pub run-Serves : (cs : List Call) → Serves (run may_publish may_subscribe accepts cs publication)
  run-Serves cs = run-IsServed cs publication publication-IsServed
