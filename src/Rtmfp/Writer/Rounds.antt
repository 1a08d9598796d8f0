-- ===== src/Rtmfp/Writer/Rounds.antt =====
-- `RTMFPWriter::flush`: the fragments of a message carry its bytes in order, each with the flags that
-- tell what is in front of it and behind it.
use mona_server.Base.{
  ℕ, zero, suc, ◌+◌, ◌^◌, ◌≤◌, ◌<◌, ◌≡◌, ◌≢◌, refl, sym, ap, ◌∙◌, subst, Bool, true, false, inl,
  inr, ◌&&◌, Bool-cases, List, [], ◌∷◌, ◌++◌, Option, some, ltb, ◌==◌, length, take, drop,
  length-take, length-drop, append_assoc, append-nil, take_all, take-append-drop, drop-drop, All,
  arith,
}
use mona_server.Rtmfp.Fragment.{Sent, message_end}
use mona_server.Rtmfp.Band.{Band}
use mona_server.Rtmfp.Band.Log.{IsValid, log}
use mona_server.Rtmfp.Writer.{RtmfpMessage, RtmfpWriter, Round, place_flags, send_loop}
use mona_server.Rtmfp.Writer.Pieces.{IsSmall, Sends, send_round-Sends}
use mona_server.Rtmfp.Writer.Marks.{
  flags_of, bytes_of, all_flags, ends, all_flags-lem, all_flags-end, fragment_flags-eq,
  bytes_of-fields, flags_of-fields, IsMarked, AreMarked, all_bytes,
}

-- The loop: it returns, with the stage and the place moved on, and what it adds to the log are
-- marked pieces that together are the rest of the message. `ended` is whether they end the flow.
pub record Cuts (ended : Bool) (b : Band) (m : RtmfpMessage) (place : ℕ) (result : Option Round)
    : Type 0 where
  pub round : Round
  pub returns : result ≡ some round
  pub pieces : List Sent
  pub logged : log round.band ≡ log b ++ pieces
  pub carries : all_bytes pieces ≡ drop place m.content
  pub marked : AreMarked (ltb 0 place) pieces
  pub few : place + length pieces ≤ length m.content
  pub same_end : All (λ (s : Sent). message_end (flags_of s.fields) ≡ ended) pieces
  pub valid : IsValid round.band

module _ (w : RtmfpWriter) (b : Band) (m : RtmfpMessage) (place : ℕ) (result : Option Round)
    (d : Sends w b m place result) (some_left : place < length m.content) where
  abbrev piece : List ℕ
  piece = take d.round.count (drop place m.content)

  length-piece : length piece ≡ d.round.count
  length-piece = omega (
    arith,
    length-take d.round.count (drop place m.content),
    length-drop place m.content,
    d.within,
  )

  forward_one : 1 ≤ d.round.count
  forward_one = omega (arith, d.forward)

  piece_bytes : bytes_of d.message.fields ≡ piece
  piece_bytes = ap bytes_of d.fields_are ∙ bytes_of-fields w w.stage _ d.head piece

  piece_flags :
      flags_of d.message.fields
      ≡ all_flags
          (ltb 0 place)
          (ltb (place + d.round.count) (length m.content))
          ((w.stage_ack == 0) && d.head)
          (ends w)
  piece_flags =
      let after = ltb (place + d.round.count) (length m.content) in
      ap flags_of d.fields_are
      ∙ flags_of-fields w w.stage (place_flags place after) d.head piece
      ∙ fragment_flags-eq w place after d.head piece (omega (arith, length-piece, forward_one))

  piece_flagged :
      IsMarked
        (ltb 0 place)
        (ltb (place + d.round.count) (length m.content))
        (flags_of d.message.fields)
  piece_flagged =
      let after = ltb (place + d.round.count) (length m.content) in
      subst (IsMarked (ltb 0 place) after) (sym piece_flags) (all_flags-lem (ltb 0 place) after _ _)

  piece_ends : message_end (flags_of d.message.fields) ≡ ends w
  piece_ends =
      ap message_end piece_flags
      ∙ all_flags-end (ltb 0 place) (ltb (place + d.round.count) (length m.content))
          ((w.stage_ack == 0) && d.head) (ends w)

-- A writer that can count `n` more stages.
pub record CanCount (w : RtmfpWriter) (n : ℕ) : Type 0 where
  pub id_small : w.id < 2 ^ 63
  pub flow_small : w.flow_id < 2 ^ 63
  pub stage_small : w.stage + n < 2 ^ 63
  pub behind : w.stage_ack ≤ w.stage
  pub short : length w.signature ≤ 10

-- The rest of the message behind a piece, if there is any.
module _ (w : RtmfpWriter) (b : Band) (m : RtmfpMessage) (place : ℕ) (first : Option Round)
    (d : Sends w b m place first) (some_left : place < length m.content) where
  cut_last : place + d.round.count ≡ length m.content → Cuts (ends w) b m place (some d.round)
  cut_last e = record {
    round = d.round;
    returns = refl;
    pieces = d.message ∷ [];
    logged = d.logged;
    few = omega (arith, some_left);
    same_end = (piece_ends w b m place first d some_left, tt);
    carries =
        append-nil (bytes_of d.message.fields)
        ∙ piece_bytes w b m place first d some_left
        ∙ take_all d.round.count (drop place m.content)
            (omega (arith, length-drop place m.content));
    marked =
        let last : ltb (place + d.round.count) (length m.content) ≡ false = ground (arith, e) in
        subst (λ (t : Bool). IsMarked (ltb 0 place) t (flags_of d.message.fields)) last
          (piece_flagged w b m place first d some_left);
    valid = d.valid;
  }

  cut_more :
      (result : Option Round)
      → place + d.round.count < length m.content
      → Cuts (ends w) d.round.band d.round.message (place + d.round.count) result
      → Cuts (ends w) b m place result
  cut_more result more c = record {
    round = c.round;
    returns = c.returns;
    pieces = d.message ∷ c.pieces;
    logged =
        c.logged
        ∙ ap (λ (l : List Sent). l ++ c.pieces) d.logged
        ∙ append_assoc (log b) (d.message ∷ []) c.pieces;
    few = omega (arith, c.few, ap length d.same_content, forward_one w b m place first d some_left);
    same_end = (piece_ends w b m place first d some_left, c.same_end);
    carries = whole;
    marked = marks c.pieces some_more c.marked;
    valid = c.valid;
  }
    where
      some_more : c.pieces ≢ []
      some_more e =
          let none_left : drop (place + d.round.count) d.round.message.content ≡ [] =
            sym c.carries ∙ ap all_bytes e in
          absurd (
            omega (
              arith,
              more,
              ap length none_left,
              ap length d.same_content,
              length-drop (place + d.round.count) d.round.message.content,
            ))

      whole : bytes_of d.message.fields ++ all_bytes c.pieces ≡ drop place m.content
      whole =
          ap (λ (l : List ℕ). l ++ all_bytes c.pieces) (piece_bytes w b m place first d some_left)
          ∙ ap (λ (l : List ℕ). take d.round.count (drop place m.content) ++ l)
              (c.carries
                ∙ ap (drop (place + d.round.count)) d.same_content
                ∙ sym (drop-drop d.round.count place m.content))
          ∙ take-append-drop d.round.count (drop place m.content)

      marks :
          (l : List Sent)
          → l ≢ []
          → AreMarked (ltb 0 (place + d.round.count)) l
          → AreMarked (ltb 0 place) (d.message ∷ l)
      marks [] n a = absurd (n refl)
      marks (s ∷ l) n a =
          let one = forward_one w b m place first d some_left in
          let behind : ltb 0 (place + d.round.count) ≡ true = ground (arith, one) in
          let after : ltb (place + d.round.count) (length m.content) ≡ true =
            ground (arith, more) in
          (
            subst (λ (t : Bool). IsMarked (ltb 0 place) t (flags_of d.message.fields)) after
                (piece_flagged w b m place first d some_left),
            subst (λ (t : Bool). AreMarked t (s ∷ l)) behind a,
          )

-- From a place inside a message of fewer than 2 ^ 31 bytes, on a valid band, with as much fuel as
-- bytes are left, an id, a flow id and stages below 2 ^ 63, the acknowledged stage not past the
-- last one sent, and a signature of at most ten bytes: the loop of `flush` returns. What it writes
-- to the band are at most as many pieces as bytes were left, which together are those bytes; the
-- first has BEFOREPART if it is not at the front, the others have it, all but the last have
-- AFTERPART, none is abandoned, and all of them or none have MESSAGE_END: all if the writer is
-- closed and this is its only message.
pub send_loop-Cuts :
    (fuel : ℕ) (w : RtmfpWriter) (b : Band) (header : Bool) (m : RtmfpMessage) (place now : ℕ)
    → CanCount w fuel
    → IsValid b
    → length m.content < 2 ^ 31
    → place < length m.content
    → length m.content ≤ place + fuel
    → Cuts (ends w) b m place (send_loop fuel w b header m place now)
unfolding send_loop
send_loop-Cuts zero w b header m place now s v big some_left enough = absurd (omega arith)
send_loop-Cuts (suc fuel) w b header m place now s v big some_left enough =
    let w' : RtmfpWriter = record w { stage = w.stage + 1 } in
    let small : IsSmall w' = record {
      id_small = s.id_small;
      flow_small = s.flow_small;
      stage_small = omega (arith, s.stage_small);
      behind = omega (arith, s.behind);
      short = s.short;
    } in
    let d = send_round-Sends w b header m place now small v big (omega arith) in
    rw d.returns (elim (Bool-cases (ltb (place + d.round.count) (length m.content))) [
      | inl more ↦ rw more (
          let length_same = ap length d.same_content in
          let next : CanCount d.round.writer fuel =
            subst (λ (u : RtmfpWriter). CanCount u fuel) (sym d.same_writer)
              (record {
                id_small = s.id_small;
                flow_small = s.flow_small;
                stage_small = omega (arith, s.stage_small);
                behind = omega (arith, s.behind);
                short = s.short;
              }) in
          let one = forward_one w' b m place _ d some_left in
          cut_more w' b m place _ d some_left _ (ground (arith, more)) (
            subst
              (λ (u : RtmfpWriter).
                Cuts (ends u) d.round.band d.round.message (place + d.round.count) (
                  send_loop fuel d.round.writer d.round.band d.round.header d.round.message
                    (place + d.round.count) now))
              d.same_writer
              (send_loop-Cuts fuel d.round.writer d.round.band d.round.header d.round.message
                (place + d.round.count) now next d.valid (omega (arith, big, length_same))
                (ground (arith, more, length_same)) (omega (arith, enough, length_same, one)))))
      | inr last ↦ rw last (cut_last w' b m place _ d some_left (ground (arith, last, d.within)))
    ])
