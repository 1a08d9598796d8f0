-- ===== src/Rtmfp/Writer/Received.antt =====
-- What `RTMFPWriter::acknowledgment` lets go when nothing was lost: the fragments in front.
use mona_server.Base.{
  ℕ, zero, suc, ◌+◌, ◌-◌, ◌*◌, ◌^◌, ◌≤◌, ◌<◌, ◌≡◌, ◌⊎◌, inl, inr, refl, sym, ap, ◌∙◌, Bool, true,
  false, ◌&&◌, ◌||◌, List, [], ◌∷◌, ◌++◌, Option, some, ◌>>=◌, All, ltb, leb, ◌==◌, if◌then◌else◌,
  length, length-append, length-drop, drop, drop_all, Bool-cases, arith,
}
use mona_server.Base.Words.{add64, add32}
use mona_server.Binary.Reader.{Reader, available}
use mona_server.Trigger
use mona_server.Rtmfp.Band.{Band}
use mona_server.Rtmfp.Writer.{RtmfpMessage, RtmfpWriter}
use mona_server.Rtmfp.Writer.Acknowledge.{
  Acking, Position, read_losts, acknowledge_first, ack_fragments, message_acked, ack_messages,
  stage_acked, sum_received, acknowledge,
}

-- The fragments that are not acknowledged, in the order of their stages.
abbrev pub pending : List RtmfpMessage → List (ℕ × ℕ)
pending [] = []
pending (m ∷ rest) = m.fragments ++ pending rest

abbrev pub HasFragments : RtmfpMessage → Type 0
HasFragments m = 0 < length m.fragments

-- No loss is known or told.
record Lossless (r : ℕ) (a : Acking) : Type 0 where
  stage_ack_is : a.writer.stage_ack ≡ r
  drained : available a.packet ≡ 0
  none_lost : a.lost_count ≡ 0

record Released (r : ℕ) (a : Acking) (fragments : List (ℕ × ℕ)) (result : Option Position)
    : Type 0 where
  position : Position
  returns : result ≡ some position
  nothing_before : position.before ≡ []
  left : position.after ≡ drop (suc r - a.stage) fragments
  same_band : position.acking.band ≡ a.band
  lossless : Lossless r (position.acking)
  ending :
      ((position.acking.stop ≡ false)
        × (position.acking.stage ≡ a.stage + length fragments)
        × (length fragments ≤ suc r - a.stage))
      ⊎ ((position.acking.stop ≡ true) × (suc r - a.stage < length fragments))

stops :
    (fuel : ℕ) (r : ℕ) (a : Acking)
    → Lossless r a
    → read_losts (suc fuel) a ≡ some (record a { stop = true })
unfolding read_losts
stops fuel r a l =
    let test : ((a.lost_count == 0) && (available a.packet == 0)) ≡ true =
      ground (arith, l.drained, l.none_lost) in
    rw test refl

abbrev at_front : Acking → List (ℕ × ℕ) → Position
at_front a fragments = record { acking = a; before = []; after = fragments }

abbrev one_acked : Acking → Acking
one_acked a = record a {
  writer = record (a.writer) { ack_count = add32 a.writer.ack_count 1 };
  stage = add64 a.stage 1;
}

ack_fragments-Released :
    (fuel fuel' r : ℕ) (m : RtmfpMessage) (a : Acking) (fragments : List (ℕ × ℕ))
    → Lossless r a
    → a.stop ≡ false
    → length fragments < fuel
    → a.stage + length fragments < 2 ^ 64
    → Released r a fragments (ack_fragments fuel (suc fuel') m (at_front a fragments))
unfolding ack_fragments acknowledge_first
ack_fragments-Released zero fuel' r m a fragments l going enough fits = absurd (omega arith)
ack_fragments-Released (suc fuel) fuel' r m a [] l going enough fits = record {
  position = at_front a [];
  returns = refl;
  nothing_before = refl;
  left = sym (drop_all (suc r - a.stage) [] (omega arith));
  same_band = refl;
  lossless = l;
  ending = inl (going, omega arith, omega arith);
}
ack_fragments-Released (suc fuel) fuel' r m a ((place, sent) ∷ rest) l going enough fits =
    elim (Bool-cases (leb a.stage a.writer.stage_ack)) [
      | inl acked ↦
          let d =
            ack_fragments-Released fuel fuel' r m (one_acked a) rest
              (record {
                stage_ack_is = l.stage_ack_is;
                drained = l.drained;
                none_lost = l.none_lost;
              })
              going (omega arith) (omega arith) in
          let more : suc r - a.stage ≡ suc (suc r - add64 a.stage 1) =
            ground (arith, acked, l.stage_ack_is) in
          record {
            position = d.position;
            returns = rw acked d.returns;
            nothing_before = d.nothing_before;
            left = d.left ∙ ap (λ (k : ℕ). drop k ((place, sent) ∷ rest)) (sym more);
            same_band = d.same_band;
            lossless = d.lossless;
            ending = elim d.ending [
              | inl e ↦ inl (e.0, omega (arith, e.1, fits), omega (arith, e.2, more))
              | inr e ↦ inr (e.0, omega (arith, e.1, more))
            ];
          }
      | inr open_stage ↦
          let none_more : suc r - a.stage ≡ 0 = ground (arith, open_stage, l.stage_ack_is) in
          record {
            position = at_front (record a { stop = true }) ((place, sent) ∷ rest);
            returns = rw (open_stage, stops fuel' r a l) refl;
            nothing_before = refl;
            left = ap (λ (k : ℕ). drop k ((place, sent) ∷ rest)) (sym none_more);
            same_band = refl;
            lossless = record {
              stage_ack_is = l.stage_ack_is;
              drained = l.drained;
              none_lost = l.none_lost;
            };
            ending = inr (refl, omega (arith, none_more));
          }
    ]

-- What the loop over the messages leaves.
record AllReleased (r : ℕ) (a : Acking) (messages : List RtmfpMessage)
    (result : Option (List RtmfpMessage × Acking)) : Type 0 where
  left : List RtmfpMessage
  acking : Acking
  returns : result ≡ some (left, acking)
  rest_pending : pending left ≡ drop (suc r - a.stage) (pending messages)
  same_band : acking.band ≡ a.band
  acked : acking.writer.stage_ack ≡ r
  have_fragments : All HasFragments left

message_acked-stage_ack :
    (w : RtmfpWriter) (m : RtmfpMessage) (now : ℕ) → (message_acked w m now).stage_ack ≡ w.stage_ack
unfolding message_acked
message_acked-stage_ack w m now = ground arith

-- After a stop nothing more is read.
stopped :
    (r fuel' now : ℕ) (a : Acking) (messages : List RtmfpMessage)
    → a.stop ≡ true
    → ack_messages fuel' now messages a ≡ some (messages, a)
unfolding ack_messages
stopped r fuel' now a [] e = refl
stopped r fuel' now a (m ∷ rest) e = rw e refl

drop-append_left :
    {A : Type 0} (k : ℕ) (xs ys : List A) → k ≤ length xs → drop k (xs ++ ys) ≡ drop k xs ++ ys
drop-append_left zero xs ys h = refl
drop-append_left (suc k) [] ys h = absurd (omega arith)
drop-append_left (suc k) (x ∷ xs) ys h = drop-append_left k xs ys (omega arith)

drop-append_right :
    {A : Type 0} (k : ℕ) (xs ys : List A)
    → length xs ≤ k
    → drop k (xs ++ ys) ≡ drop (k - length xs) ys
drop-append_right k [] ys h = ap (λ (n : ℕ). drop n ys) (omega arith)
drop-append_right zero (x ∷ xs) ys h = absurd (omega arith)
drop-append_right (suc k) (x ∷ xs) ys h =
    drop-append_right k xs ys (omega arith) ∙ ap (λ (n : ℕ). drop n ys) (omega arith)

abbrev ended : Acking → RtmfpMessage → ℕ → Acking
ended a m now = record a { writer = message_acked a.writer m now }

abbrev with_fragments : RtmfpMessage → List (ℕ × ℕ) → RtmfpMessage
with_fragments m fragments = record m { fragments = fragments }

pick :
    {A : Type 0} (b c : Bool) (x y z : A)
    → b ≡ false
    → c ≡ false
    → (if b then x else if c then y else z) ≡ z
pick b c x y z e f = rw (e, f) refl

abbrev after_fragments :
    ℕ → ℕ → RtmfpMessage → List RtmfpMessage → Position → Option (List RtmfpMessage × Acking)
after_fragments fuel' now m rest p = do
  let left = with_fragments m (p.before ++ p.after)
  let is_ended = length left.fragments == 0
  (others, c) ←
      ack_messages (suc fuel') now rest (if is_ended then ended p.acking left now else p.acking)
  some (if is_ended then others else left ∷ others, c)

-- A message with fragments is first: what `ack_messages` does once its fragments are through.
round_eq :
    (fuel' now : ℕ) (a : Acking) (m : RtmfpMessage) (rest : List RtmfpMessage) (b : Acking)
    (after : List (ℕ × ℕ))
    → a.stop ≡ false
    → HasFragments m
    → ack_fragments (suc (2 * length m.fragments)) (suc fuel') m (at_front a m.fragments)
      ≡ some (at_front b after)
    → ack_messages (suc fuel') now (m ∷ rest) a ≡ (do
      (others, c) ←
          ack_messages
            (suc fuel')
            now
            rest
            (if length after == 0 then ended b (with_fragments m after) now else b)
      some (if length after == 0 then others else with_fragments m after ∷ others, c))
unfolding ack_messages
round_eq fuel' now a m rest b after going any e =
    let filled : (length m.fragments == 0) ≡ false = ground (arith, any) in
    pick a.stop (length m.fragments == 0) _ _ _ going filled
    ∙ ap (λ (o : Option Position). o >>= after_fragments fuel' now m rest) e

first_stopped :
    (fuel' now r : ℕ) (a : Acking) (m : RtmfpMessage) (rest : List RtmfpMessage) (b : Acking)
    (after : List (ℕ × ℕ))
    → ack_messages (suc fuel') now (m ∷ rest) a
      ≡ after_fragments fuel' now m rest (at_front b after)
    → b.stop ≡ true
    → after ≡ drop (suc r - a.stage) m.fragments
    → suc r - a.stage < length m.fragments
    → Lossless r b
    → b.band ≡ a.band
    → All HasFragments rest
    → AllReleased r a (m ∷ rest) (ack_messages (suc fuel') now (m ∷ rest) a)
first_stopped fuel' now r a m rest b after e stop left some_left l same_band any =
    let more : (length after == 0) ≡ false =
      ground (arith, ap length left, length-drop (suc r - a.stage) m.fragments, some_left) in
    record {
      left = with_fragments m after ∷ rest;
      acking = b;
      returns = e ∙ rw more (rw (stopped r (suc fuel') now b rest stop) refl);
      rest_pending =
          ap (λ (l : List (ℕ × ℕ)). l ++ pending rest) left
          ∙ sym (drop-append_left (suc r - a.stage) m.fragments (pending rest) (omega arith));
      same_band = same_band;
      acked = l.stage_ack_is;
      have_fragments = (ground (arith, more), any);
    }

first_ended :
    (fuel' now r : ℕ) (a : Acking) (m : RtmfpMessage) (rest : List RtmfpMessage) (b : Acking)
    (after : List (ℕ × ℕ))
    → ack_messages (suc fuel') now (m ∷ rest) a
      ≡ after_fragments fuel' now m rest (at_front b after)
    → after ≡ []
    → length m.fragments ≤ suc r - a.stage
    → b.stage ≡ a.stage + length m.fragments
    → b.band ≡ a.band
    → AllReleased r
        (ended b (with_fragments m after) now)
        rest
        (ack_messages (suc fuel') now rest (ended b (with_fragments m after) now))
    → AllReleased r a (m ∷ rest) (ack_messages (suc fuel') now (m ∷ rest) a)
first_ended fuel' now r a m rest b after e none_left enough stage same_band d =
    let all : (length after == 0) ≡ true = ground (arith, ap length none_left) in
    record {
      left = d.left;
      acking = d.acking;
      returns = e ∙ rw (all, d.returns) refl;
      rest_pending =
          d.rest_pending
          ∙ ap (λ (k : ℕ). drop k (pending rest)) (omega (arith, stage))
          ∙ sym (drop-append_right (suc r - a.stage) m.fragments (pending rest) enough);
      same_band = d.same_band ∙ same_band;
      acked = d.acked;
      have_fragments = d.have_fragments;
    }

ack_messages-AllReleased :
    (fuel' now r : ℕ) (a : Acking) (messages : List RtmfpMessage)
    → Lossless r a
    → a.stop ≡ false
    → All HasFragments messages
    → a.stage + length (pending messages) < 2 ^ 64
    → AllReleased r a messages (ack_messages (suc fuel') now messages a)
unfolding ack_messages
ack_messages-AllReleased fuel' now r a [] l going any fits = record {
  left = [];
  acking = a;
  returns = refl;
  rest_pending = sym (drop_all (suc r - a.stage) [] (omega arith));
  same_band = refl;
  acked = l.stage_ack_is;
  have_fragments = tt;
}
ack_messages-AllReleased fuel' now r a (m ∷ rest) l going any fits =
    let parts = length-append m.fragments (pending rest) in
    let d =
      ack_fragments-Released (suc (2 * length m.fragments)) fuel' r m a m.fragments l going
        (omega arith) (omega (arith, parts)) in
    let p = d.position in
    let front : at_front p.acking p.after ≡ p =
      ap (λ (x : List (ℕ × ℕ)). record { acking = p.acking; before = x; after = p.after })
        (sym d.nothing_before) in
    let step =
      round_eq fuel' now a m rest p.acking p.after going any.0
        (d.returns ∙ ap (λ (q : Position). some q) (sym front)) in
    elim d.ending [
      | inl e ↦
          let none_left = d.left ∙ drop_all (suc r - a.stage) m.fragments e.2 in
          first_ended fuel' now r a m rest p.acking p.after step none_left e.2 e.1 d.same_band (
            ack_messages-AllReleased fuel' now r (ended p.acking (with_fragments m p.after) now)
              rest
              (record {
                stage_ack_is =
                    message_acked-stage_ack p.acking.writer (with_fragments m p.after) now
                    ∙ d.lossless.stage_ack_is;
                drained = d.lossless.drained;
                none_lost = d.lossless.none_lost;
              })
              e.0 any.1 (omega (arith, parts, e.1)))
      | inr e ↦
          first_stopped fuel' now r a m rest p.acking p.after step e.0 d.left e.1 d.lossless
            d.same_band any.1
    ]

-- The writer after an acknowledgment without losses.
pub record Acknowledged (w : RtmfpWriter) (b : Band) (readen : ℕ)
    (result : Option (RtmfpWriter × Band)) : Type 0 where
  pub writer : RtmfpWriter
  pub returns : result ≡ some (writer, b)
  pub let_go : pending writer.messages_sent ≡ drop (readen - w.stage_ack) (pending w.messages_sent)
  pub acked : writer.stage_ack ≡ readen
  pub have_fragments : All HasFragments writer.messages_sent

-- An acknowledgment of a stage from the one acknowledged last up to the one sent last, without
-- losses, of a writer whose sent messages all have fragments and whose stages stay below 2 ^ 64.
-- It returns and leaves the band alone; that stage is acknowledged, as many fragments are let go
-- at the front, across the messages, as stages were acknowledged, and no message is kept without a
-- fragment.
pub acknowledge-Acknowledged :
    (w : RtmfpWriter) (b : Band) (packet : Reader) (readen now : ℕ)
    → available packet ≡ 0
    → w.stage_ack ≤ readen
    → readen ≤ w.stage
    → All HasFragments w.messages_sent
    → w.stage_ack + 1 + length (pending w.messages_sent) < 2 ^ 64
    → Acknowledged w b readen (acknowledge w b packet readen now)
unfolding acknowledge stage_acked
acknowledge-Acknowledged w b packet readen now empty low high any fits =
    let acked : stage_acked w readen ≡ readen = ground (arith, low, high) in
    let start : Acking = record {
      writer = record w { stage_ack = stage_acked w readen };
      band = b;
      packet = packet;
      stage_readen = readen;
      max_stage = sum_received (available packet) packet readen;
      stage = add64 w.stage_ack 1;
      lost_count = 0;
      lost_stage = 0;
      repeated = false;
      header = true;
      stop = false;
    } in
    let d =
      ack_messages-AllReleased (suc w.stage + available packet) now readen start w.messages_sent
        (record { stage_ack_is = acked; drained = empty; none_lost = refl }) refl any
        (omega arith) in
    let kept : RtmfpWriter = record (d.acking.writer) { messages_sent = d.left } in
    let trigger =
      if kept.repeatable == 0
      then Trigger.stop kept.trigger
      else if ltb w.stage_ack kept.stage_ack || d.acking.repeated
      then Trigger.reset kept.trigger now
      else kept.trigger in
    record {
      writer = record kept { trigger = trigger };
      returns =
          rw d.returns (ap (λ (c : Band). some (record kept { trigger = trigger }, c)) d.same_band);
      let_go = d.rest_pending ∙ ap (λ (k : ℕ). drop k (pending w.messages_sent)) (omega arith);
      acked = d.acked;
      have_fragments = d.have_fragments;
    }
