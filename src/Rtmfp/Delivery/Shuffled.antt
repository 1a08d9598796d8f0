-- ===== src/Rtmfp/Delivery/Shuffled.antt =====
-- `RTMFPWriter` against `RTMFPFlow` when the fragments of a message come in any order.
use mona_server.Base.{
  ℕ, suc, ◌+◌, ◌^◌, ◌≤◌, ◌<◌, ◌≡◌, refl, sym, ap, ◌∙◌, subst, Bool, ◌&&◌, ◌==◌, true, false, List,
  [], ◌∷◌, Option, none, some, length, length-append, drop, drop-append_length, map, All, inr,
  arith,
}
use mathlib.Core.Option.{some_inj}
use mona_server.Rtmfp.Fragment.{Fragment, Sent, message_end}
use mona_server.Rtmfp.Flow.{Flow, buffered}
use mona_server.Rtmfp.Flow.Handled.{with_fragments}
use mona_server.Rtmfp.Flow.Messages.{Pieces, in_order}
use mona_server.Rtmfp.Flow.Reordering.{IsPart, pieces, Waiting}
use mona_server.Rtmfp.Flow.AnyOrder.{Arrival, arrive, Brings, ComesIn, arrive-in_order}
use mona_server.Rtmfp.Band.{Band}
use mona_server.Rtmfp.Band.Log.{IsValid, log}
use mona_server.Rtmfp.Writer.{RtmfpMessage, RtmfpWriter, is_closed, is_connecting, flush}
use mona_server.Rtmfp.Writer.Marks.{flags_of, bytes_of, all_bytes}
use mona_server.Rtmfp.Writer.Rounds.{CanCount}
use mona_server.Rtmfp.Delivery.{parcels, Arrives, flush-Exchanged}

-- The fragment that a message of a packet carries.
abbrev pub fragment_in : Sent → Fragment
fragment_in s = record { bytes = bytes_of s.fields; flags = flags_of s.fields }

pieces-fragments : (l : List Sent) → pieces (map fragment_in l) ≡ parcels l
pieces-fragments [] = refl
pieces-fragments (s ∷ l) =
    ap (λ (p : Pieces). (buffered (fragment_in s), flags_of s.fields) ∷ p) (pieces-fragments l)

length-fragments : (l : List Sent) → length (map fragment_in l) ≡ length l
length-fragments [] = refl
length-fragments (s ∷ l) = ap suc (length-fragments l)

fragments-IsPart :
    (l : List Sent)
    → All (λ (s : Sent). message_end (flags_of s.fields) ≡ false) l
    → length (all_bytes l) < 2 ^ 16
    → All IsPart (map fragment_in l)
fragments-IsPart [] a small = tt
fragments-IsPart (s ∷ l) a small =
    let parts = length-append (bytes_of s.fields) (all_bytes l) in
    ((a.0, omega (arith, parts)), fragments-IsPart l a.1 (omega (arith, parts)))

with_fragments-Arrives :
    (f : Flow) (bytes : List ℕ) (g : Flow)
    → Arrives f bytes g
    → Arrives f bytes (with_fragments [] g)
with_fragments-Arrives f bytes g a = record {
  nothing_held = a.nothing_held;
  none_lost = a.none_lost;
  message = a.message;
  one_more = a.one_more;
  unpacked = a.unpacked;
  lost_is = a.lost_is;
}

-- The fragments that `flush` has written, where `b` is the band before and `b'` behind it.
abbrev pub written : Band → Band → List Fragment
written b b' = map fragment_in (drop (length (log b)) (log b'))

-- `f` has got one message of these bytes more, and nothing waits.
pub record Reached (f : Flow) (content : List ℕ) (result : Option Flow) : Type 0 where
  pub flow : Flow
  pub returns : result ≡ some flow
  pub none_wait : flow.fragments ≡ []
  pub arrives : Arrives f content flow

-- A writer is neither connecting nor closed, its signature has at most ten bytes, its ids and
-- stages stay below 2 ^ 63, its acknowledged stage is not past the last one sent, it has one
-- message of more than 0 and fewer than 2 ^ 16 bytes in its queue, and the band is valid; `flush`
-- returns a band. An open flow with a stream, in which no packet and no fragments wait and whose
-- next stages are below 2 ^ 64, gets the fragments that the band has more, at the stages that
-- follow: in any order, each at least once, perhaps old stages too, where `delta_nack` gives up
-- none of them and what is not a part of a message is read from its own bytes. Then its calls
-- return, nothing waits, and exactly one message more was processed, which is what `unpack` gives
-- of the bytes of the queue.
pub flush-Reached :
    (w : RtmfpWriter) (b : Band) (full : Bool) (m : RtmfpMessage) (now : ℕ) (f : Flow)
    (w' : RtmfpWriter) (b' : Band) (arrivals : List Arrival)
    → w.messages ≡ m ∷ []
    → is_connecting w.state ≡ false
    → is_closed w.state ≡ false
    → CanCount w (length m.content + 1)
    → IsValid b
    → 0 < length m.content
    → length m.content < 2 ^ 16
    → f.completed ≡ false
    → f.has_stream ≡ true
    → f.packet ≡ none
    → f.fragments ≡ []
    → f.stage + length m.content + 1 < 2 ^ 64
    → flush w b full now ≡ some (w', b')
    → All (Brings f.stage (written b b')) arrivals
    → ((stage : ℕ)
        → f.stage < stage
        → stage ≤ f.stage + length (written b b')
        → ComesIn stage arrivals)
    → Reached f m.content (arrive arrivals f)
flush-Reached w b full m now f w' b' arrivals one running open_writer can v some_bytes short o s
      nothing none_wait fits returns brings comes =
    let e =
      flush-Exchanged w b full m now f one running can v some_bytes short nothing (omega arith) in
    let same : b' ≡ e.band =
      ap (λ (p : RtmfpWriter × Band). p.1) (some_inj.0 (sym returns ∙ e.returns)) in
    let sent : drop (length (log b)) (log b') ≡ e.pieces =
      ap (λ (c : Band). drop (length (log b)) (log c)) same
      ∙ ap (drop (length (log b))) e.logged
      ∙ drop-append_length (log b) e.pieces in
    let all : written b b' ≡ map fragment_in e.pieces = ap (map fragment_in) sent in
    let count = length-fragments e.pieces in
    record {
      flow = with_fragments [] (in_order f (pieces (written b b')));
      returns =
          arrive-in_order f (written b b') arrivals o s (omega (arith, ap length all, count, e.few))
            (subst (All IsPart) (sym all) (
              fragments-IsPart e.pieces
                (subst
                  (λ (t : Bool). All (λ (x : Sent). message_end (flags_of x.fields) ≡ t) e.pieces)
                  (ap (λ (c : Bool). c && (length w.messages == 1)) open_writer) e.same_end)
                (omega (arith, ap length e.carries))))
            (subst (Waiting f.stage (written b b') (f.stage + 1)) (sym none_wait) tt) brings
            (λ stage l u. inr (comes stage l u));
      none_wait = refl;
      arrives = with_fragments-Arrives f m.content (in_order f (pieces (written b b'))) (
          subst (λ (p : Pieces). Arrives f m.content (in_order f p))
            (sym (ap pieces all ∙ pieces-fragments e.pieces)) e.arrives);
    }
