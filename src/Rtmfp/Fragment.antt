-- ===== src/Rtmfp/Fragment.antt =====
-- The flags of a fragment (MonaCore/include/Mona/RTMFP/RTMFPWriter.h), `RTMFPPacket` and
-- `RTMFPFragment` (MonaCore/sources/RTMFP/RTMFPFlow.cpp), and what a flow gives to others.
use mona_server.Base.{ℕ, ◌+◌, ◌*◌, ◌/◌, ◌%◌, ◌^◌, Bool, not, List, ◌++◌, ◌==◌, take, drop, bit_and}
use mona_server.Binary.Reader.{Reader, available}

-- The flags of a fragment, as MonaCore/include/Mona/RTMFP/RTMFPWriter.h defines them.
abbrev pub has : ℕ → ℕ → Bool
has mask flags = not (bit_and flags mask == 0)

abbrev pub with_afterpart : ℕ → Bool
with_afterpart = has 0x10

abbrev pub with_beforepart : ℕ → Bool
with_beforepart = has 0x20

abbrev pub abandonment : ℕ → Bool
abandonment = has 0x02

abbrev pub message_end : ℕ → Bool
message_end = has 0x01

-- The bytes of a `PacketReader` from `current()` on.
abbrev pub unread : Reader → List ℕ
unread r = take (available r) (drop r.current r.memory)

-- `RTMFPPacket`: the fragments of a message so far. The count is a UInt32 of which only the lower
-- 16 bits are incremented.
pub record Packet : Type 0 where
  pub fragments : ℕ
  pub buffer : List ℕ

unfoldable pub new_packet : Reader → Packet
new_packet fragment = record { fragments = 1; buffer = unread fragment }

unfoldable pub add : Packet → Reader → Packet
add p fragment = record {
  fragments = p.fragments / 2 ^ 16 * 2 ^ 16 + (p.fragments + 1) % 2 ^ 16;
  buffer = p.buffer ++ unread fragment;
}

-- `RTMFPFragment`: a copy of the unread bytes, with the flags.
pub record Fragment : Type 0 where
  pub bytes : List ℕ
  pub flags : ℕ

unfoldable pub new_fragment : Reader → ℕ → Fragment
new_fragment packet flags = record { bytes = unread packet; flags = flags }

-- One call of `FlashStream::process`; `fragments` is the field of the `PacketReader`.
pub record Message : Type 0 where
  pub kind : ℕ
  pub time : ℕ
  pub packet : Reader
  pub fragments : ℕ
  pub lost : ℕ

-- The fields that are written to the band, and one call of `writeMessage` with what is written.
pub data Field : Type 0 where
  long_value : ℕ → Field
  value : ℕ → Field
  byte : ℕ → Field
  text8 raw_bytes : List ℕ → Field

pub record Sent : Type 0 where
  pub kind : ℕ
  pub size : ℕ
  pub fields : List Field
