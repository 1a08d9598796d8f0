-- ===== src/Media/Publication.antt =====
-- `Publication` of MonaCore/include/Mona/Publication.h and MonaCore/sources/Publication.cpp, but for
-- `pushData`. A peer is a number; its callbacks are a log, the newest first, and its answers are
-- parameters, like those of the listeners' writers. An exception is held as whether it is set. A
-- step that follows the null `_pPublisher` gives `none`.
pub mod Served
pub mod Forwards
use mona_server.Base.{
  ℕ, ◌+◌, ◌%◌, ◌^◌, Bool, true, false, not, ◌&&◌, List, [], ◌∷◌, Option, none, some, map, length,
  ltb, ◌==◌, if◌then◌else◌, ◌>>=◌, lookup, insert, erase, on_option,
}
use mona_server.Quality.{Quality, quality, reset, add}
use mona_server.Media.{is_key_frame, h264_infos, aac_infos}
use mona_server.Media.Listener
use mona_server.Media.Listener.{
  Event, Listener, listener, start_publishing, stop_publishing, push_audio_packet,
  push_video_packet,
}

-- `onPublish`, `onUnpublish`, `onSubscribe`, `onUnsubscribe`, `onFlushPackets`, `onAudioPacket` and
-- `onVideoPacket` of a peer.
pub data PeerCall : Type 0 where
  publishes : ℕ → PeerCall
  unpublishes : ℕ → PeerCall
  subscribes : ℕ → PeerCall
  unsubscribes : ℕ → PeerCall
  flushes : ℕ → PeerCall
  hears : ℕ → ℕ → List ℕ → PeerCall
  sees : ℕ → ℕ → List ℕ → PeerCall

pub record Publication : Type 0 where
  pub publisher : Option ℕ
  pub first_key_frame : Bool
  pub listeners : List (ℕ × Listener)
  pub audio_codec : List ℕ
  pub video_codec : List ℕ
  pub audio_qos : Quality
  pub video_qos : Quality
  pub data_qos : Quality
  pub dropped_frames : ℕ
  pub is_new : Bool
  pub calls : List PeerCall

unfoldable pub publication : Publication
publication = record {
  publisher = none;
  first_key_frame = false;
  listeners = [];
  audio_codec = [];
  video_codec = [];
  audio_qos = quality;
  video_qos = quality;
  data_qos = quality;
  dropped_frames = 0;
  is_new = false;
  calls = [];
}

-- A packet with its time, `numberLostFragments`, the publisher's ping and the clock.
pub record Arrival : Type 0 where
  pub packet : List ℕ
  pub fragments : ℕ
  pub time : ℕ
  pub lost : ℕ
  pub ping : ℕ
  pub now : ℕ

-- A loop over the listeners.
unfoldable pub each : (ℕ → Listener → Listener) → List (ℕ × Listener) → List (ℕ × Listener)
each f [] = []
each f ((client, l) ∷ rest) = (client, f client l) ∷ each f rest

unfoldable pub called : PeerCall → Publication → Publication
called c p = record p { calls = c ∷ p.calls }

-- `_pPublisher->onFlushPackets` at the end of a flush.
unfoldable pub flush_publisher : Option ℕ → Publication → Option Publication
flush_publisher none p = none
flush_publisher (some peer) p = some (called (PeerCall.flushes peer) p)

unfoldable pub flush : Publication → Option Publication
flush p =
    if not p.is_new
    then some p
    else flush_publisher p.publisher
        (record p { listeners = each (λ client. Listener.flush) p.listeners })

unfoldable pub is_published : Option ℕ → Bool
is_published none = false
is_published (some peer) = true

unfoldable pub remove_listener : ℕ → Publication → Publication
remove_listener peer p =
    on_option (lookup peer p.listeners) p
      (λ l. record (called (PeerCall.unsubscribes peer) p) { listeners = erase peer p.listeners })

-- `start` of a publication without a publisher, once the peer allows it.
unfoldable pub begun : ℕ → ℕ → Publication → Publication
begun now peer p = record p {
  publisher = some peer;
  first_key_frame = false;
  listeners = each (λ client. start_publishing now) p.listeners;
  calls = PeerCall.publishes peer ∷ p.calls;
}

-- What `stop` does after its flush.
unfoldable pub unpublished : ℕ → Publication → Publication
unpublished peer p = record (called (PeerCall.unpublishes peer) p) {
  video_qos = reset p.video_qos;
  audio_qos = reset p.audio_qos;
  data_qos = reset p.data_qos;
  video_codec = [];
  audio_codec = [];
  dropped_frames = 0;
  publisher = none;
}

unfoldable pub stop : ℕ → Publication → Option Publication
stop peer p = on_option p.publisher (some p) (λ publisher.
    if not (publisher == peer)
    then some p
    else flush (record p { listeners = each (λ client. stop_publishing) p.listeners })
      >>= (λ p'. some (unpublished peer p')))

-- `pushVideo` up to the test of `_firstKeyFrame`.
unfoldable pub video_seen : Arrival → Publication → Publication
video_seen a p = record p {
  first_key_frame =
      if is_key_frame a.packet then true else if ltb 0 a.lost then false else p.first_key_frame;
  video_qos = add p.video_qos a.now a.ping (length a.packet + 4) a.fragments a.lost;
  video_codec = if is_key_frame a.packet && h264_infos a.packet then a.packet else p.video_codec;
}

-- The answers of `onPublish` and `onSubscribe`, and those of the writers.
module _ (may_publish may_subscribe : ℕ → Bool) (accepts : ℕ → List Event → Event → Bool) where
  unfoldable pub add_listener : ℕ → ℕ → Bool → Publication → Bool × Publication
  add_listener now peer unbuffered p =
      let l = listener unbuffered now in
      let p' = called (PeerCall.subscribes peer) p in
      let l' = if is_published p.publisher then start_publishing now l else l in
      on_option (lookup peer p.listeners)
        (if may_subscribe peer
          then (false, record p' { listeners = insert peer l' p.listeners })
          else (true, p'))
        (λ already. (false, p))

  unfoldable pub start : ℕ → ℕ → Publication → Option (Bool × Publication)
  start now peer p =
      on_option p.publisher
        (if may_publish peer
          then flush (begun now peer p) >>= (λ p'. some (false, p'))
          else some (true, called (PeerCall.publishes peer) p))
        (λ publisher. some (true, p))

  -- `pushAudio` with a publisher.
  unfoldable pub audio_of : ℕ → Arrival → Publication → Publication
  audio_of peer a p =
      let codec = if aac_infos a.packet then a.packet else p.audio_codec in
      record p {
        audio_qos = add p.audio_qos a.now a.ping (length a.packet + 4) a.fragments a.lost;
        audio_codec = codec;
        is_new = true;
        listeners =
            each (λ client. push_audio_packet (accepts client) a.now codec a.packet a.time)
              p.listeners;
        calls = PeerCall.hears peer a.time a.packet ∷ p.calls;
      }

  unfoldable pub push_audio : Arrival → Publication → Publication
  push_audio a p = on_option p.publisher p (λ peer. audio_of peer a p)

  -- The rest of it for a frame that is not dropped.
  unfoldable pub video_of : ℕ → Arrival → Publication → Publication
  video_of peer a p = record p {
    is_new = true;
    listeners =
        each (λ client. push_video_packet (accepts client) a.now p.video_codec a.packet a.time)
          p.listeners;
    calls = PeerCall.sees peer a.time a.packet ∷ p.calls;
  }

  unfoldable pub push_video : Arrival → Publication → Publication
  push_video a p =
      let p' = video_seen a p in
      on_option p.publisher p (λ peer.
        if not p'.first_key_frame
        then record p' { dropped_frames = (p'.dropped_frames + 1) % 2 ^ 32 }
        else video_of peer a p')
