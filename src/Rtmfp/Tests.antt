-- ===== src/Rtmfp/Tests.antt =====
-- Runs of `RTMFPFlow` on a few fragments.
use mona_server.Base.{
  ℕ, ◌+◌, ◌<◌, ◌≤◌, All, inl, inr, length, take, drop, subst, sym, ap, ◌≡◌, refl, true, false, List,
  [], ◌∷◌, none, some, arith,
}
use mona_server.Binary.{big_endian}
use mona_server.Binary.Reader.{Reader, reader}
use mona_server.Rtmfp.Flow.{Flow, fragment_handler}
use mona_server.Rtmfp.Flow.Commit.{lost_loop, commit}
use mona_server.Rtmfp.Flow.Draining.{IsValid, Later}
use mona_server.Rtmfp.Flow.Buffering.{fragment_handler-IsValid}
use mona_server.Rtmfp.Flow.Acknowledgment.{Acknowledges, commit-Acknowledges, received}
use mona_server.Rtmfp.Fragment.{Fragment, new_fragment}
use mona_server.Rtmfp.Flow.Handled.{with_fragments}
use mona_server.Rtmfp.Flow.Reordering.{pieces}
use mona_server.Rtmfp.Flow.AnyOrder.{Arrival, arrive, Brings, ComesIn, arrive-in_order}
use mona_server.Rtmfp.Flow.Eventual.{Parts, fragments_of, IsWhole, Completes, arrive-Completes}
use mona_server.Rtmfp.Flow.Messages.{in_order}
use mona_server.Quality
use mona_server.Trigger
use mona_server.Rtmfp.Band.{Band}
use mona_server.Rtmfp.Band.Log
use mona_server.Rtmfp.Writer.{RtmfpMessage, RtmfpWriter, connected, flush, send_loop, send_round}
use mona_server.Rtmfp.Writer.Pieces.{Sends, send_round-Sends}
use mona_server.Rtmfp.Writer.Rounds.{CanCount, Cuts, send_loop-Cuts}
use mona_server.Rtmfp.Writer.Acknowledge.{acknowledge}
use mona_server.Rtmfp.Writer.Received.{Acknowledged, acknowledge-Acknowledged}
use mona_server.Rtmfp.Delivery.Shuffled.{written, Reached, flush-Reached}
use mona_server.Rtmfp.Delivery.{Exchanged, flush-Exchanged}

abbrev piece : List ℕ → Reader
piece bytes = reader bytes big_endian

abbrev idle : Flow
idle = record {
  id = 2;
  stage = 5;
  completed = false;
  has_stream = true;
  packet = none;
  fragments = [];
  number_lost = 0;
  processed = [];
  band = [];
}

-- Two runs of stages wait: 8 and 9, and 12.
abbrev waiting : Flow
waiting = record idle {
  fragments =
      (8, record { bytes = 1 ∷ []; flags = 0 })
      ∷ (9, record { bytes = 2 ∷ []; flags = 0 })
      ∷ (12, record { bytes = 3 ∷ []; flags = 0 })
      ∷ [];
}

waiting-IsValid : IsValid waiting
waiting-IsValid = record {
  stage_fits = omega arith;
  waiting = (omega arith, omega arith, (omega arith, omega arith, (omega arith, omega arith, tt)));
  closed = λ c. cc;
}

losts_of_waiting : lost_loop 4 5 waiting.fragments ≡ some (4, 1 ∷ 1 ∷ 1 ∷ 0 ∷ [])
unfolding lost_loop mona_server.Rtmfp.Flow.Commit.run_length
    mona_server.Binary.Writer.get7_bit_value_size mona_server.Binary.Writer.size_loop
losts_of_waiting = refl

losts_read : received 5 (1 ∷ 1 ∷ 1 ∷ 0 ∷ []) ≡ 8 ∷ 9 ∷ 12 ∷ []
losts_read = refl

-- Three fragments, of which the last arrives first, and twice.
abbrev three : Parts
three = record {
  first = record { bytes = 4 ∷ 0 ∷ 0 ∷ 0 ∷ 0 ∷ []; flags = 0x10 };
  middles = record { bytes = 7 ∷ []; flags = 0x30 } ∷ [];
  last = record { bytes = 8 ∷ []; flags = 0x20 };
}

abbrev arrival : ℕ → List ℕ → ℕ → Arrival
arrival stage bytes flags = record {
  stage = stage;
  delta_nack = 10;
  fragment = piece bytes;
  flags = flags;
}

abbrev shuffled : List Arrival
shuffled =
    arrival 8 (8 ∷ []) 0x20
    ∷ arrival 6 (4 ∷ 0 ∷ 0 ∷ 0 ∷ 0 ∷ []) 0x10
    ∷ arrival 8 (8 ∷ []) 0x20
    ∷ arrival 7 (7 ∷ []) 0x30
    ∷ []

three-IsWhole : IsWhole three
three-IsWhole = record {
  starts = (refl, refl, refl);
  goes_on = ((refl, refl, refl), tt);
  ends = (refl, refl, refl);
  parts = ((refl, omega arith), ((refl, omega arith), ((refl, omega arith), tt)));
  few = omega arith;
}

shuffled-Brings : All (Brings 5 (fragments_of three)) shuffled
unfolding new_fragment reader
shuffled-Brings = (
  (omega arith, inr refl, inl refl),
  (
    (omega arith, inr refl, inl refl),
    ((omega arith, inr refl, inl refl), ((omega arith, inr refl, inl refl), tt)),
  ),
)

shuffled-ComesIn : (stage : ℕ) → 5 < stage → stage ≤ 8 → ComesIn stage shuffled
shuffled-ComesIn stage l u = omega arith

arrive-in_order_example :
    arrive shuffled idle ≡ some (with_fragments [] (in_order idle (pieces (fragments_of three))))
arrive-in_order_example =
    arrive-in_order idle (fragments_of three) shuffled refl refl (omega arith) three-IsWhole.parts
      tt shuffled-Brings (λ stage l u. inr (shuffled-ComesIn stage l u))

arrive-Completes_example : Completes idle three (arrive shuffled idle)
arrive-Completes_example =
    arrive-Completes idle three shuffled refl refl refl refl (omega arith) three-IsWhole
      shuffled-Brings shuffled-ComesIn

fragment_handler-IsValid_example :
    (g : Flow) × (fragment_handler waiting 7 4 (piece (7 ∷ [])) 0 ≡ some g) × Later 5 g
fragment_handler-IsValid_example =
    fragment_handler-IsValid waiting 7 4 (piece (7 ∷ [])) 0 waiting-IsValid refl (omega arith)

commit-Acknowledges_example : Acknowledges waiting (commit waiting)
commit-Acknowledges_example =
    commit-Acknowledges waiting waiting-IsValid (omega arith) (omega arith)
      (omega arith, (omega arith, (omega arith, tt))) (omega arith)

abbrev text : List ℕ
text =
    0x14 ∷ 0 ∷ 0 ∷ 0 ∷ 0 ∷ 2 ∷ 0 ∷ 4 ∷ 112 ∷ 108 ∷ 97 ∷ 121 ∷ 0 ∷ 64 ∷ 0 ∷ 0 ∷ 0 ∷ 0 ∷ 0 ∷ 0 ∷ 0 ∷ 5
    ∷ []

abbrev call : RtmfpMessage
call = record { repeatable = true; content = text; fragments = []; sending_time = 0 }

abbrev sender : RtmfpWriter
sender = record {
  id = 2;
  flow_id = 3;
  critical = false;
  signature = 0 ∷ 84 ∷ 67 ∷ 4 ∷ [];
  reliable = true;
  state = connected;
  stage = 7;
  stage_ack = 0;
  messages = call ∷ [];
  messages_sent = [];
  connected_size = none;
  lost_count = 0;
  ack_count = 0;
  repeatable = 0;
  trigger = Trigger.trigger 0;
  quality = Quality.quality;
}

-- A packet with so little room that the message is cut.
abbrev crowded : Band
crowded = record { failed = false; packet = some []; used = 1162; last = none; sent = [] }

crowded-IsValid : Log.IsValid crowded
crowded-IsValid = record { alive = refl; fits = (omega arith, omega arith) }

can_count : CanCount sender 23
can_count = record {
  id_small = omega arith;
  flow_small = omega arith;
  stage_small = omega arith;
  behind = omega arith;
  short = omega arith;
}

flush-Exchanged_example : Exchanged sender crowded idle text (flush sender crowded true 100)
flush-Exchanged_example =
    flush-Exchanged sender crowded true call 100 idle refl refl can_count crowded-IsValid
      (omega arith) (omega arith) refl (omega arith)

abbrev outcome : RtmfpWriter × Band
outcome = elim (flush sender crowded true 100) [ none ↦ (sender, crowded) | some p ↦ p ]

flushed_returns : flush sender crowded true 100 ≡ some outcome
unfolding flush mona_server.Rtmfp.Writer.flush_messages send_loop send_round
    mona_server.Rtmfp.Writer.prepare mona_server.Rtmfp.Band.can_write_following
    mona_server.Rtmfp.Band.available_to_write mona_server.Rtmfp.Writer.header_size
    mona_server.Binary.Writer.get7_bit_value_size mona_server.Binary.Writer.size_loop
    mona_server.Rtmfp.Writer.started mona_server.Rtmfp.Writer.signature_size
    mona_server.Rtmfp.Writer.send_piece mona_server.Rtmfp.Band.write_message
    mona_server.Rtmfp.Writer.fragment_fields mona_server.Rtmfp.Writer.signature_fields
    mona_server.Rtmfp.Band.flush
flushed_returns = refl

-- The message is cut behind its fourteenth byte.
abbrev two : List Fragment
two =
    record { bytes = take 14 text; flags = 0x90 }
    ∷ record { bytes = drop 14 text; flags = 0xa0 }
    ∷ []

sent_fragments : written crowded outcome.1 ≡ two
unfolding mona_server.Rtmfp.Writer.fragment_flags flush mona_server.Rtmfp.Writer.flush_messages
    send_loop send_round mona_server.Rtmfp.Writer.prepare mona_server.Rtmfp.Band.can_write_following
    mona_server.Rtmfp.Band.available_to_write mona_server.Rtmfp.Writer.header_size
    mona_server.Binary.Writer.get7_bit_value_size mona_server.Binary.Writer.size_loop
    mona_server.Rtmfp.Writer.started mona_server.Rtmfp.Writer.signature_size
    mona_server.Rtmfp.Writer.send_piece mona_server.Rtmfp.Band.write_message
    mona_server.Rtmfp.Writer.fragment_fields mona_server.Rtmfp.Writer.signature_fields
    mona_server.Rtmfp.Band.flush
sent_fragments = refl

-- The second fragment arrives first.
abbrev swapped : List Arrival
swapped = arrival 7 (drop 14 text) 0xa0 ∷ arrival 6 (take 14 text) 0x90 ∷ []

swapped-Brings : All (Brings 5 two) swapped
unfolding new_fragment reader
swapped-Brings = ((omega arith, inr refl, inl refl), ((omega arith, inr refl, inl refl), tt))

flush-Reached_example : Reached idle text (arrive swapped idle)
flush-Reached_example =
    flush-Reached sender crowded true call 100 idle outcome.0 outcome.1 swapped refl refl refl
      can_count crowded-IsValid (omega arith) (omega arith) refl refl refl refl (omega arith)
      flushed_returns
      (subst (λ (l : List Fragment). All (Brings 5 l) swapped) (sym sent_fragments) swapped-Brings)
      (λ stage l u. two_come stage l (omega (arith, u, ap length sent_fragments)))
  where
    two_come : (stage : ℕ) → 5 < stage → stage ≤ 7 → ComesIn stage swapped
    two_come stage l u = omega arith

send_loop-Cuts_example : Cuts false crowded call 0 (send_loop 23 sender crowded true call 0 100)
send_loop-Cuts_example =
    send_loop-Cuts 23 sender crowded true call 0 100 can_count crowded-IsValid (omega arith)
      (omega arith) (omega arith)

send_round-Sends_example :
    Sends
      (record sender { stage = sender.stage + 1 })
      crowded
      call
      4
      (send_round sender crowded true call 4 100)
send_round-Sends_example =
    send_round-Sends sender crowded true call 4 100
      (record {
        id_small = omega arith;
        flow_small = omega arith;
        stage_small = omega arith;
        behind = omega arith;
        short = omega arith;
      })
      crowded-IsValid (omega arith) (omega arith)

-- Two messages were sent, in two fragments and in one, at the stages 4 to 6.
abbrev unacknowledged : RtmfpWriter
unacknowledged = record sender {
  stage_ack = 3;
  messages = [];
  messages_sent =
      record call { fragments = (0, 4) ∷ (12, 5) ∷ [] }
      ∷ record call { fragments = (0, 6) ∷ [] }
      ∷ [];
  repeatable = 2;
}

acknowledge-Acknowledged_example :
    Acknowledged unacknowledged crowded 5 (acknowledge unacknowledged crowded (piece []) 5 100)
unfolding reader
acknowledge-Acknowledged_example =
    acknowledge-Acknowledged unacknowledged crowded (piece []) 5 100 refl (omega arith)
      (omega arith) (omega arith, (omega arith, tt)) (omega arith)
