-- ===== src/Binary/Tests.antt =====
-- Runs of `BinaryReader` and `BinaryWriter` on small inputs.
use mona_server.Base.{ℕ, ◌+◌, ◌*◌, ◌/◌, ◌%◌, ◌≤◌, ◌≡◌, refl, true, false, List, [], ◌∷◌, arith}
use mona_server.Binary.{big_endian, little_endian, flip32}
use mona_server.Binary.Reader.{
  Reader, reader, read16, read24, read32, read64, read7_bit_value, read7_bit_long_value,
  read_string,
}
use mona_server.Binary.Reader.Rest.{IsValid, At, reader-IsValid, rest-reader}
use mona_server.Binary.Writer.{
  Writer, write16, write24, write32, write64, write7_bit_value, write7_bit_long_value, write_string,
}
use mona_server.Binary.RoundTrip.Survival.{
  Survives, HasRoom, Decodes, write_word-Survives, write7_bit_value-Survives,
  write7_bit_long_value_corrupts, write_string-Decodes,
}
use mona_server.Buffer.{new, over}
use mona_server.Buffer.Shape.{new-IsValid}

-- A writer that holds three bytes, for the network order.
abbrev network : Writer
network = record { flip_bytes = true; buffer = new 3 }

abbrev tail : List ℕ
tail = 0xaa ∷ 0xbb ∷ []

network-HasRoom : (n : ℕ) → n ≤ 100 → HasRoom big_endian network tail n
unfolding new
network-HasRoom n h = record {
  same_order = refl;
  grows = record { valid = new-IsValid 3 (omega arith); is_owned = refl; some_room = omega arith };
  room = omega arith;
}

-- A window of four bytes that holds none of its own, emptied.
abbrev window : Writer
window = record { flip_bytes = false; buffer = record (over (1 ∷ 2 ∷ 3 ∷ 4 ∷ [])) { size = 1 } }

abbrev four : Reader
four = reader (1 ∷ 2 ∷ 3 ∷ 4 ∷ []) little_endian

four-IsValid : IsValid four
four-IsValid = reader-IsValid (1 ∷ 2 ∷ 3 ∷ 4 ∷ []) little_endian (omega arith)

four-At : At four (1 ∷ 2 ∷ 3 ∷ 4 ∷ [])
four-At = record { valid = four-IsValid; unread = rest-reader (1 ∷ 2 ∷ 3 ∷ 4 ∷ []) little_endian }

flip_swaps : flip32 0x1122_3344 ≡ 0x4433_2211
unfolding flip32
flip_swaps = refl

write_word-Survives_example :
    Survives big_endian network tail (write16 network 0x1234) read16 0x1234
    × Survives big_endian network tail (write24 network 0x12_3456) read24 0x12_3456
    × Survives big_endian network tail (write32 network 0x1234_5678) read32 0x1234_5678
    × Survives big_endian network tail (write64 network 0x1234) read64 0x1234
write_word-Survives_example =
    write_word-Survives big_endian network tail 0x1234 0x12_3456 0x1234_5678 0x1234
      (network-HasRoom 16 (omega arith)) (omega arith) (omega arith) (omega arith) (omega arith)

write7_bit_value-Survives_example :
    Survives big_endian network tail
      (write7_bit_value network 0x1234_5678)
      read7_bit_value
      0x1234_5678
write7_bit_value-Survives_example =
    write7_bit_value-Survives big_endian network tail 0x1234_5678 (network-HasRoom 16 (omega arith))
      (omega arith)

write7_bit_long_value_corrupts_example :
    Survives big_endian network tail
      (write7_bit_long_value network 0x0100_0000_0000_0000)
      read7_bit_long_value
      (0x0100_0000_0000_0000 / 128 * 256 + 0x0100_0000_0000_0000 % 128)
write7_bit_long_value_corrupts_example =
    write7_bit_long_value_corrupts big_endian network tail 0x0100_0000_0000_0000
      (network-HasRoom 16 (omega arith)) (omega arith) (omega arith)

write_string-Decodes_example :
    Decodes big_endian network tail
      (write_string network (104 ∷ 105 ∷ []))
      read_string
      (104 ∷ 105 ∷ [])
write_string-Decodes_example =
    write_string-Decodes big_endian network tail (104 ∷ 105 ∷ []) (network-HasRoom 7 (omega arith))
