-- ===== src/Rtmfp/Band/Log.antt =====
-- The messages that were written to a `BandWriter`, whatever packets they went into.
use mona_server.Base.{
  ℕ, ◌+◌, ◌%◌, ◌^◌, ◌≤◌, ◌≡◌, refl, sym, ap, ◌∙◌, Bool, true, false, List, [], ◌∷◌, ◌++◌, Option,
  none, some, ltb, append_assoc, append-nil, arith, le→ltb_false, le→leb, leb, subst,
}
use mona_server.Rtmfp.Fragment.{Field, Sent}
use mona_server.Rtmfp.Band.{
  Band, available_to_write, flush, write_message, fields_size, opened, opened_size, max_packet_size,
}

abbrev pub all_of : List (List Sent) → List Sent
all_of [] = []
all_of (packet ∷ packets) = packet ++ all_of packets

abbrev pub log : Band → List Sent
log b = all_of b.sent ++ opened b.packet

-- A packet is begun with a message of at least three bytes, and is never too long.
abbrev pub IsPacket : Option (List Sent) → ℕ → Type 0
IsPacket none used = Unit {0}
IsPacket (some messages) used = (14 ≤ used) × (used ≤ max_packet_size)

pub record IsValid (b : Band) : Type 0 where
  pub alive : b.failed ≡ false
  pub fits : IsPacket b.packet b.used

all_of-append : (ps : List (List Sent)) (p : List Sent) → all_of (ps ++ p ∷ []) ≡ all_of ps ++ p
all_of-append [] p = append-nil p
all_of-append (q ∷ ps) p =
    ap (λ (l : List Sent). q ++ l) (all_of-append ps p) ∙ sym (append_assoc q (all_of ps) p)

-- After a flush everything is written still, and the next packet has all its room.
pub record Flushed (b c : Band) : Type 0 where
  pub same_log : log c ≡ log b
  pub valid : IsValid c
  pub room : available_to_write c ≡ 1181

flush_sent :
    (sent : List (List Sent)) (packet : Option (List Sent)) (used : ℕ) (last : Option ℕ)
    → IsPacket packet used
    → Flushed
        (record { failed = false; packet = packet; used = used; last = last; sent = sent })
        (flush (record { failed = false; packet = packet; used = used; last = last; sent = sent }))
unfolding flush available_to_write
flush_sent sent none used last p = record {
  same_log = refl;
  valid = record { alive = refl; fits = tt };
  room = refl;
}
flush_sent sent (some messages) used last p =
    let long : leb 12 used ≡ true = le→leb 12 used (omega arith) in
    rw long (record {
      same_log = append-nil (all_of (sent ++ messages ∷ [])) ∙ all_of-append sent messages;
      valid = record { alive = refl; fits = tt };
      room = refl;
    })

pub flush-Flushed : (b : Band) → IsValid b → Flushed b (flush b)
flush-Flushed b v =
    let d = flush_sent b.sent b.packet b.used b.last v.fits in
    subst (λ (f : Bool). Flushed (record b { failed = f }) (flush (record b { failed = f })))
      (sym v.alive) d

abbrev with_message : Band → Option ℕ → Sent → ℕ → Band
with_message b writer message n = record b {
  last = writer;
  packet = some (opened b.packet ++ message ∷ []);
  used = opened_size b + 3 + n;
}

opened_bounds :
    (packet : Option (List Sent)) (used : ℕ)
    → IsPacket packet used
    → (11 ≤ elim packet as (λ _. ℕ) [ none ↦ 11 | some _ ↦ used ])
      × (elim packet as (λ _. ℕ) [ none ↦ 11 | some _ ↦ used ] ≤ max_packet_size)
opened_bounds none used p = (omega arith, omega arith)
opened_bounds (some l) used p = (omega arith, omega arith)

write_message-fits :
    (b : Band) (kind size n : ℕ) (writer : Option ℕ) (fields : List Field)
    → b.failed ≡ false
    → fields_size fields ≡ some n
    → ltb (available_to_write b) ((size + 3) % 2 ^ 16) ≡ false
    → write_message b kind size writer fields
      ≡ some (with_message b writer (record { kind = kind; size = size; fields = fields }) n)
unfolding write_message
write_message-fits b kind size n writer fields alive e fits = rw (e, fits) (ground (arith, alive))

pub room_is : (b : Band) → IsValid b → (available_to_write b + opened_size b ≡ max_packet_size)
unfolding available_to_write
room_is b v = omega (arith, opened_bounds b.packet b.used v.fits)

-- A message that fits is written behind the others, and the packet stays within its bound.
pub written :
    (b : Band) (kind size : ℕ) (writer : Option ℕ) (fields : List Field)
    → IsValid b
    → fields_size fields ≡ some size
    → size + 3 ≤ available_to_write b
    → (c : Band) × (write_message b kind size writer fields ≡ some c)
      × IsValid c
      × (log c ≡ log b ++ record { kind = kind; size = size; fields = fields } ∷ [])
written b kind size writer fields v e room =
    let message : Sent = record { kind = kind; size = size; fields = fields } in
    let bounds = opened_bounds b.packet b.used v.fits in
    (
      with_message b writer message size,
      write_message-fits b kind size size writer fields v.alive e
          (le→ltb_false _ _ (omega (arith, room_is b v))),
      record { alive = v.alive; fits = (omega arith, omega (arith, room_is b v)) },
      sym (append_assoc (all_of b.sent) (opened b.packet) (message ∷ [])),
    )
