-- ===== src/Rtmfp/Delivery.antt =====
-- `RTMFPWriter` against `RTMFPFlow`: a message that is flushed is what the flow gives to its stream.
pub mod Shuffled
use mona_server.Base.{
  ℕ, suc, ◌+◌, ◌^◌, ◌≤◌, ◌<◌, ◌≡◌, ◌≢◌, refl, sym, ap, ◌∙◌, subst, Bool, true, false, List, [], ◌∷◌,
  ◌++◌, Option, none, some, if◌then◌else◌, length, length-append, append-nil, take_all, All, not,
  arith,
}
use mona_server.Base.Words.{IsU32}
use mona_server.Binary.{big_endian}
use mona_server.Binary.Reader.{Reader, reader}
use mona_server.Rtmfp.Fragment.{Message, Sent, unread, message_end}
use mona_server.Rtmfp.Flow.{Flow, unpack, assemble, process}
use mona_server.Rtmfp.Flow.Messages.{
  Pieces, in_order, joined, IsMiddle, IsLast, Delivers, in_order-Delivers, sorted_handler-next,
}
use mona_server.Rtmfp.Band
use mona_server.Rtmfp.Band.{Band, can_write_following}
use mona_server.Rtmfp.Band.Log.{IsValid, log, flush-Flushed}
use mona_server.Rtmfp.Writer.{
  RtmfpMessage, RtmfpWriter, is_closed, is_connecting, started, flush_messages, flush,
}
use mona_server.Rtmfp.Writer.Marks.{flags_of, bytes_of, all_bytes, ends, IsMarked, AreMarked}
use mona_server.Rtmfp.Writer.Rounds.{CanCount, Cuts, send_loop-Cuts}

-- What a flow is given of the messages of a packet.
abbrev pub parcels : List Sent → Pieces
parcels [] = []
parcels (s ∷ rest) = (reader (bytes_of s.fields) big_endian, flags_of s.fields) ∷ parcels rest

unread-reader : (bytes : List ℕ) → IsU32 (length bytes) → unread (reader bytes big_endian) ≡ bytes
unfolding reader
unread-reader bytes h = take_all _ bytes (omega arith)

joined-parcels : (l : List Sent) → IsU32 (length (all_bytes l)) → joined (parcels l) ≡ all_bytes l
joined-parcels [] h = refl
joined-parcels (s ∷ rest) h =
    let parts = length-append (bytes_of s.fields) (all_bytes rest) in
    ap (λ (x : List ℕ). x ++ joined (parcels rest))
      (unread-reader (bytes_of s.fields) (omega (arith, parts)))
    ∙ ap (λ (x : List ℕ). bytes_of s.fields ++ x) (joined-parcels rest (omega (arith, parts)))

-- `g` is `f` after one message of these bytes more.
pub record Arrives (f : Flow) (content : List ℕ) (g : Flow) : Type 0 where
  pub nothing_held : g.packet ≡ none
  pub none_lost : g.number_lost ≡ 0
  pub message : Message
  pub one_more : g.processed ≡ f.processed ++ message ∷ []
  pub unpacked : (message.kind, message.time, message.packet) ≡ unpack (reader content big_endian)
  pub lost_is : message.lost ≡ f.number_lost

one-Arrives :
    (f : Flow) (bytes : List ℕ) (flags : ℕ)
    → f.stage + 1 < 2 ^ 64
    → IsMarked false false flags
    → Arrives f bytes (in_order f ((reader bytes big_endian, flags) ∷ []))
unfolding assemble process
one-Arrives f bytes flags fits mark =
    subst (Arrives f bytes) (sym (sorted_handler-next f (reader bytes big_endian) flags fits)) (
      let (type, time, r) = unpack (reader bytes big_endian) in
      record {
        nothing_held = ground (arith, mark);
        none_lost = ground (arith, mark);
        message = record {
          kind = type;
          time = time;
          packet = r;
          fragments = 0;
          lost = f.number_lost;
        };
        one_more = ground (arith, mark);
        unpacked = refl;
        lost_is = refl;
      })

-- The marked pieces behind the first: some in the middle, and the last.
record Ends (l : List Sent) : Type 0 where
  middles : Pieces
  last : Reader
  flags : ℕ
  splits : parcels l ≡ middles ++ (last, flags) ∷ []
  are_middles : All (λ (p : Reader × ℕ). IsMiddle p.1) middles
  is_last : IsLast flags
  count : length middles + 1 ≡ length l

marked-Ends : (s : Sent) (rest : List Sent) → AreMarked true (s ∷ rest) → Ends (s ∷ rest)
marked-Ends s [] a = record {
  middles = [];
  last = reader (bytes_of s.fields) big_endian;
  flags = flags_of s.fields;
  splits = refl;
  are_middles = tt;
  is_last = a;
  count = omega arith;
}
marked-Ends s (t ∷ rest) a =
    let e = marked-Ends t rest a.1 in
    let head : Reader × ℕ = (reader (bytes_of s.fields) big_endian, flags_of s.fields) in
    record {
      middles = head ∷ e.middles;
      last = e.last;
      flags = e.flags;
      splits = ap (λ (l : Pieces). head ∷ l) e.splits;
      are_middles = (a.0, e.are_middles);
      is_last = e.is_last;
      count = omega (arith, e.count);
    }

Delivers-Arrives : {f g : Flow} {n : ℕ} {bytes : List ℕ} → Delivers f n bytes g → Arrives f bytes g
Delivers-Arrives d = record {
  nothing_held = d.nothing_held;
  none_lost = d.none_lost;
  message = d.message;
  one_more = d.one_more;
  unpacked = d.unpacked;
  lost_is = d.lost_is;
}

-- Marked pieces that arrive in order give one message.
marked-Arrives :
    (f : Flow) (l : List Sent)
    → l ≢ []
    → f.packet ≡ none
    → AreMarked false l
    → length l < 2 ^ 16
    → f.stage + length l < 2 ^ 64
    → IsU32 (length (all_bytes l))
    → Arrives f (all_bytes l) (in_order f (parcels l))
marked-Arrives f [] any e a short fits small = absurd (any refl)
marked-Arrives f (s ∷ []) any e a short fits small =
    subst (λ (c : List ℕ). Arrives f c (in_order f (parcels (s ∷ []))))
      (sym (append-nil (bytes_of s.fields)))
      (one-Arrives f (bytes_of s.fields) (flags_of s.fields) (omega arith) a)
marked-Arrives f (s ∷ t ∷ rest) any e a short fits small =
    let k = marked-Ends t rest a.1 in
    let first = reader (bytes_of s.fields) big_endian in
    let flags = flags_of s.fields in
    let d =
      in_order-Delivers f first flags k.middles k.last k.flags e a.0 k.are_middles k.is_last
        (omega (arith, k.count)) (omega (arith, k.count)) in
    let same : parcels (s ∷ t ∷ rest) ≡ (first, flags) ∷ k.middles ++ (k.last, k.flags) ∷ [] =
      ap (λ (p : Pieces). (first, flags) ∷ p) k.splits in
    let bytes = sym (joined-parcels (s ∷ t ∷ rest) small) ∙ ap joined same in
    subst (λ (c : List ℕ). Arrives f c (in_order f (parcels (s ∷ t ∷ rest)))) (sym bytes)
      (subst
        (λ (p : Pieces).
          Arrives f (joined ((first, flags) ∷ k.middles ++ (k.last, k.flags) ∷ [])) (in_order f p))
        (sym same) (Delivers-Arrives d))

-- The writer and the band after a flush, and the flow after what it sent: every message has left
-- the queue, and `f` processed one message of these bytes more.
pub record Exchanged (w : RtmfpWriter) (b : Band) (f : Flow) (content : List ℕ)
    (result : Option (RtmfpWriter × Band)) : Type 0 where
  pub writer : RtmfpWriter
  pub band : Band
  pub pieces : List Sent
  pub returns : result ≡ some (writer, band)
  pub all_sent : writer.messages ≡ []
  pub valid : IsValid band
  pub logged : log band ≡ log b ++ pieces
  pub carries : all_bytes pieces ≡ content
  pub few : length pieces ≤ length content
  pub same_end : All (λ (s : Sent). message_end (flags_of s.fields) ≡ ends w) pieces
  pub arrives : Arrives f content (in_order f (parcels pieces))

started-CanCount :
    (w : RtmfpWriter) (m : RtmfpMessage) (now n : ℕ) → CanCount w n → CanCount (started w m now) n
unfolding started
started-CanCount w m now n c = ground (arith, c)

started-ends : (w : RtmfpWriter) (m : RtmfpMessage) (now : ℕ) → ends (started w m now) ≡ ends w
unfolding started
started-ends w m now = ground arith

marked_some :
    (l : List Sent) (content : List ℕ) → all_bytes l ≡ content → 0 < length content → l ≢ []
marked_some l content e h n = absurd (omega (arith, ap length (sym e ∙ ap all_bytes n)))

full_flush :
    (b : Band) (full : Bool)
    → IsValid b
    → IsValid (if full then Band.flush b else b) × (log (if full then Band.flush b else b) ≡ log b)
full_flush b true v = let f = flush-Flushed b v in (f.valid, f.same_log)
full_flush b false v = (v, refl)

-- A writer that is not connecting, whose signature has at most ten bytes, whose ids and stages
-- stay below 2 ^ 63 and whose acknowledged stage is not past the last one sent, has one message of
-- more than 0 and fewer than 2 ^ 16 bytes in its queue, and the band is valid. Then `flush`
-- returns, empties the queue and leaves a valid band with some messages more. A flow that holds no
-- packet, with its next stages below 2 ^ 64, is given their fragments in order: it processes
-- exactly one message more, which is what `unpack` gives of the bytes of the queue.
pub flush-Exchanged :
    (w : RtmfpWriter) (b : Band) (full : Bool) (m : RtmfpMessage) (now : ℕ) (f : Flow)
    → w.messages ≡ m ∷ []
    → is_connecting w.state ≡ false
    → CanCount w (length m.content + 1)
    → IsValid b
    → 0 < length m.content
    → length m.content < 2 ^ 16
    → f.packet ≡ none
    → f.stage + length m.content < 2 ^ 64
    → Exchanged w b f m.content (flush w b full now)
unfolding flush flush_messages
flush-Exchanged w b full m now f one running can v some_bytes short nothing fits =
    let header = not (can_write_following b w.id) in
    let c : Cuts (ends (started w m now)) b m 0 _ =
      send_loop-Cuts (suc (length m.content)) (started w m now) b header m 0 now
        (started-CanCount w m now (suc (length m.content)) (subst (CanCount w) (omega arith) can)) v
        (omega arith) some_bytes (omega arith) in
    let last = full_flush c.round.band full c.valid in
    record {
      writer = record (c.round.writer) {
        messages = [];
        messages_sent = c.round.writer.messages_sent ++ c.round.message ∷ [];
      };
      band = if full then Band.flush c.round.band else c.round.band;
      pieces = c.pieces;
      returns = ground (
        arith,
        running,
        one,
        c.returns,
        ap (λ (l : List RtmfpMessage). flush_messages l w b header now) one,
      );
      all_sent = refl;
      valid = last.0;
      logged = last.1 ∙ c.logged;
      carries = c.carries;
      few = omega (arith, c.few);
      same_end =
          subst (λ (e : Bool). All (λ (s : Sent). message_end (flags_of s.fields) ≡ e) c.pieces)
            (started-ends w m now) c.same_end;
      arrives =
          subst (λ (l : List ℕ). Arrives f l (in_order f (parcels c.pieces))) c.carries
            (marked-Arrives f c.pieces (marked_some c.pieces m.content c.carries some_bytes) nothing
              c.marked (omega (arith, c.few)) (omega (arith, c.few, fits))
              (omega (arith, ap length c.carries, short)));
    }
