-- ===== src/Rtmfp/Flow/Eventual.antt =====
-- A message is delivered once all its fragments have come.
use mona_server.Base.{
  ℕ, suc, ◌+◌, ◌^◌, ◌≤◌, ◌<◌, ◌≡◌, refl, sym, ap, ◌∙◌, subst, true, false, List, [], ◌∷◌, ◌++◌,
  Option, none, some, length, length-append, All, inr, arith,
}
use mona_server.Binary.Reader.{Reader}
use mona_server.Rtmfp.Fragment.{Fragment}
use mona_server.Rtmfp.Flow.{Flow, buffered}
use mona_server.Rtmfp.Flow.Handled.{with_fragments}
use mona_server.Rtmfp.Flow.Messages.{
  Pieces, joined, in_order, Delivers, IsFirst, IsMiddle, IsLast, in_order-Delivers, Delivers-cast,
}
use mona_server.Rtmfp.Flow.Reordering.{IsPart, pieces, Waiting, unread-buffered}
use mona_server.Rtmfp.Flow.AnyOrder.{Arrival, arrive, Brings, ComesIn, arrive-in_order}

-- A message of two fragments or more.
pub record Parts : Type 0 where
  pub first : Fragment
  pub middles : List Fragment
  pub last : Fragment

abbrev pub fragments_of : Parts → List Fragment
fragments_of m = m.first ∷ m.middles ++ m.last ∷ []

-- Its flags: AFTERPART, BEFOREPART and AFTERPART, BEFOREPART, none with MESSAGE_ABANDONMENT or
-- MESSAGE_END.
pub record IsWhole (m : Parts) : Type 0 where
  pub starts : IsFirst m.first.flags
  pub goes_on : All (λ (x : Fragment). IsMiddle x.flags) m.middles
  pub ends : IsLast m.last.flags
  pub parts : All IsPart (fragments_of m)
  pub few : length m.middles + 2 < 2 ^ 16

abbrev pub content : List Fragment → List ℕ
content [] = []
content (x ∷ rest) = x.bytes ++ content rest

joined-pieces : (l : List Fragment) → All IsPart l → joined (pieces l) ≡ content l
joined-pieces [] p = refl
joined-pieces (x ∷ l) p =
    ap (λ (b : List ℕ). b ++ joined (pieces l)) (unread-buffered x p.0.1)
    ∙ ap (λ (b : List ℕ). x.bytes ++ b) (joined-pieces l p.1)

pieces-append : (l m : List Fragment) → pieces (l ++ m) ≡ pieces l ++ pieces m
pieces-append [] m = refl
pieces-append (x ∷ l) m = ap (λ (p : Pieces). (buffered x, x.flags) ∷ p) (pieces-append l m)

length-pieces : (l : List Fragment) → length (pieces l) ≡ length l
length-pieces [] = refl
length-pieces (x ∷ l) = ap suc (length-pieces l)

pieces-IsMiddle :
    (l : List Fragment)
    → All (λ (x : Fragment). IsMiddle x.flags) l
    → All (λ (p : Reader × ℕ). IsMiddle p.1) (pieces l)
pieces-IsMiddle [] a = tt
pieces-IsMiddle (x ∷ l) a = (a.0, pieces-IsMiddle l a.1)

-- `result` is the flow after the message, with nothing that waits.
pub record Completes (f : Flow) (m : Parts) (result : Option Flow) : Type 0 where
  pub flow : Flow
  pub returns : result ≡ some flow
  pub none_wait : flow.fragments ≡ []
  pub delivers : Delivers f (length m.middles + 2) (content (fragments_of m)) flow

with_fragments-Delivers :
    (f : Flow) (n : ℕ) (bytes : List ℕ) (g : Flow)
    → Delivers f n bytes g
    → Delivers f n bytes (with_fragments [] g)
with_fragments-Delivers f n bytes g d = record {
  stage_is = d.stage_is;
  nothing_held = d.nothing_held;
  none_lost = d.none_lost;
  message = d.message;
  one_more = d.one_more;
  unpacked = d.unpacked;
  fragments_are = d.fragments_are;
  lost_is = d.lost_is;
}

-- An open flow with a stream, in which no packet and no fragments wait, is to get a message of two
-- fragments or more and fewer than 2 ^ 16 at the stages that follow, below 2 ^ 64: AFTERPART, then
-- BEFOREPART and AFTERPART, at last BEFOREPART, none with MESSAGE_ABANDONMENT or MESSAGE_END, each
-- below 2 ^ 32 bytes. Calls of the handler bring each of them at least once, in any order, perhaps
-- old stages too, `delta_nack` gives up none of them, and what is not a part of a message is read
-- from its own bytes. Then the calls return a flow in which nothing waits and no losses are
-- counted, its stage has moved on by their number, and exactly one message more was processed:
-- what `unpack` gives of the joined bytes, with the number of fragments and of those lost before.
pub arrive-Completes :
    (f : Flow) (m : Parts) (arrivals : List Arrival)
    → f.completed ≡ false
    → f.has_stream ≡ true
    → f.packet ≡ none
    → f.fragments ≡ []
    → f.stage + length m.middles + 3 < 2 ^ 64
    → IsWhole m
    → All (Brings f.stage (fragments_of m)) arrivals
    → ((stage : ℕ)
        → f.stage < stage
        → stage ≤ f.stage + length m.middles + 2
        → ComesIn stage arrivals)
    → Completes f m (arrive arrivals f)
arrive-Completes f m arrivals o s e w n whole b c =
    let size : length (fragments_of m) ≡ length m.middles + 2 =
      omega (arith, length-append m.middles (m.last ∷ [])) in
    let same : pieces (fragments_of m)
        ≡ (buffered m.first, m.first.flags) ∷ pieces m.middles
          ++ (buffered m.last, m.last.flags) ∷ [] =
      ap (λ (p : Pieces). (buffered m.first, m.first.flags) ∷ p)
        (pieces-append m.middles (m.last ∷ [])) in
    let d =
      in_order-Delivers f (buffered m.first) m.first.flags (pieces m.middles) (buffered m.last)
        m.last.flags e whole.starts (pieces-IsMiddle m.middles whole.goes_on) whole.ends
        (omega (arith, length-pieces m.middles, whole.few))
        (omega (arith, length-pieces m.middles)) in
    record {
      flow = with_fragments [] (in_order f (pieces (fragments_of m)));
      returns =
          arrive-in_order f (fragments_of m) arrivals o s (omega (arith, size)) whole.parts
            (subst (Waiting f.stage (fragments_of m) (f.stage + 1)) (sym w) tt) b
            (λ stage l u. inr (c stage l (omega (arith, u, size))));
      none_wait = refl;
      delivers = with_fragments-Delivers f (length m.middles + 2) (content (fragments_of m)) _ (
          Delivers-cast (ap (λ (k : ℕ). k + 2) (length-pieces m.middles))
            (sym (ap joined same) ∙ joined-pieces (fragments_of m) whole.parts)
            (ap (in_order f) same) d);
    }
