-- ===== src/Ws/Tests.antt =====
-- Runs of the WebSocket frames.
use mona_server.Base.{◌+◌, ◌≤◌, ◌≡◌, refl, true, [], ◌∷◌, List, ℕ, length, arith}
use mona_server.Buffer.{new}
use mona_server.Buffer.Shape.{new-IsValid}
use mona_server.Binary.{Order}
use mona_server.Binary.Writer.{Writer}
use mona_server.Binary.RoundTrip.Survival.{HasRoom}
use mona_server.Ws.{xor_mask}
use mona_server.Ws.Frames.Sent.{Frames, write_header-Frames, IsUnmasked, write_header-IsUnmasked}

-- A writer that holds three bytes.
abbrev client : Writer
client = record { flip_bytes = true; buffer = new 3 }

client-HasRoom :
    (tail : List ℕ) (n : ℕ) → n + length tail ≤ 1000 → HasRoom Order.big_endian client tail n
unfolding new
client-HasRoom tail n h = record {
  same_order = refl;
  grows = record { valid = new-IsValid 3 (omega arith); is_owned = refl; some_room = omega arith };
  room = omega arith;
}

-- A text frame of two bytes, and two bytes of the next frame.
write_header-Frames_example : Frames Order.big_endian client (0x81 ∷ 3 ∷ []) 1 (104 ∷ 105 ∷ [])
write_header-Frames_example =
    write_header-Frames Order.big_endian client (0x81 ∷ 3 ∷ []) 1 (104 ∷ 105 ∷ [])
      (client-HasRoom (0x81 ∷ 3 ∷ []) 12 (omega arith)) (omega arith) (omega arith)

write_header-IsUnmasked_example :
    IsUnmasked Order.big_endian client 2
      (0 ∷ 0 ∷ 0 ∷ 0 ∷ [])
      0x12
      0x34
      0x56
      0x78
      (1 ∷ 2 ∷ 3 ∷ 4 ∷ 5 ∷ [])
      (0x81 ∷ [])
write_header-IsUnmasked_example =
    write_header-IsUnmasked Order.big_endian client 2 (0 ∷ 0 ∷ 0 ∷ 0 ∷ []) 0x12 0x34 0x56 0x78
      (1 ∷ 2 ∷ 3 ∷ 4 ∷ 5 ∷ []) (0x81 ∷ []) (client-HasRoom [] 10 (omega arith)) (omega arith)
      (omega arith) refl (omega arith)

xor_mask_runs :
    xor_mask (0x12 ∷ 0x34 ∷ 0x56 ∷ 0x78 ∷ []) 0 (1 ∷ 2 ∷ 3 ∷ 4 ∷ 5 ∷ [])
    ≡ 0x13 ∷ 0x36 ∷ 0x55 ∷ 0x7c ∷ 0x17 ∷ []
unfolding xor_mask
xor_mask_runs = refl
