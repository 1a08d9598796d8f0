-- ===== src/Rtmfp/Band.antt =====
-- `RTMFPSession` of MonaCore/sources/RTMFP/RTMFPSession.cpp as a `BandWriter`: the packet that is
-- being filled, and those that were sent. A packet is the list of its messages, each with what is
-- written into it; `used` is the size of the packet with its head.
pub mod Log
use mona_server.Base.{
  ℕ, ◌+◌, ◌%◌, ◌^◌, Bool, List, [], ◌∷◌, ◌++◌, Option, none, some, ltb, leb, ◌==◌, if◌then◌else◌,
  ◌>>=◌, length, min,
}
use mona_server.Base.Words.{add32, sub32}
use mona_server.Binary.Writer.{get7_bit_value_size}
use mona_server.Rtmfp.Fragment.{Field, long_value, value, byte, text8, raw_bytes, Sent}

abbrev pub header_size : ℕ
header_size = 11

abbrev pub max_packet_size : ℕ
max_packet_size = 1192

-- `packet` is none where `_pSender` is null; `last` is the id of the writer of `_pLastWriter`.
pub record Band : Type 0 where
  pub failed : Bool
  pub packet : Option (List Sent)
  pub used : ℕ
  pub last : Option ℕ
  pub sent : List (List Sent)

-- The bytes that a field takes; `none` means that `Get7BitValueSize` never returns.
abbrev pub field_size : Field → Option ℕ
field_size (long_value v) = get7_bit_value_size v
field_size (value v) = do n ← get7_bit_value_size v; some (min 4 n)
field_size (byte v) = some 1
field_size (text8 t) = some (1 + length t)
field_size (raw_bytes t) = some (length t)

abbrev pub fields_size : List Field → Option ℕ
fields_size [] = some 0
fields_size (f ∷ fs) = do n ← field_size f; m ← fields_size fs; some (n + m)

unfoldable pub available_to_write : Band → ℕ
available_to_write b =
    sub32 max_packet_size (elim b.packet [ none ↦ header_size | some _ ↦ b.used ])

unfoldable pub can_write_following : Band → ℕ → Bool
can_write_following b id = elim b.last [ none ↦ Bool.false | some other ↦ other == id ]

-- `flush` of a session that has not died: a packet of more than its head is sent, and the next
-- one starts empty.
unfoldable pub flush : Band → Band
flush b = record b {
  last = none;
  packet = none;
  used = header_size;
  sent = elim b.packet [
    | none ↦ b.sent
    | some messages ↦ if leb 12 b.used then b.sent ++ messages ∷ [] else b.sent
  ];
}

-- The packet of the sender, created if there is none.
abbrev pub opened : Option (List Sent) → List Sent
opened none = []
opened (some messages) = messages

abbrev pub opened_size : Band → ℕ
opened_size b = elim b.packet [ none ↦ header_size | some _ ↦ b.used ]

-- `writeMessage`, then the fields that the caller writes: the type, the size and these.
unfoldable pub write_message : Band → ℕ → ℕ → Option ℕ → List Field → Option Band
write_message b kind size writer fields = if b.failed then some b else (do
  n ← fields_size fields
  let full = ltb (available_to_write b) ((size + 3) % 2 ^ 16)
  let b' = if full then flush b else b
  let message : Sent = record { kind = kind; size = size; fields = fields }
  some (record b' {
    last = if full then none else writer;
    packet = some (opened b'.packet ++ message ∷ []);
    used = opened_size b' + 3 + n;
  }))
