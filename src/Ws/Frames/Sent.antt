-- ===== src/Ws/Frames/Sent.antt =====
-- A frame is written with `WriteHeader`, and `buildPacket` reads it.
use mona_server.Base.{
  ℕ, ◌+◌, ◌^◌, ◌<◌, ◌≡◌, refl, sym, ap, ◌∙◌, subst, Bool, true, false, not, List, [], ◌∷◌, ◌++◌,
  Option, none, some, ◌==◌, ◌>>=◌, length, length-append, append_assoc, drop, drop-append_length,
  bit_and, bit_or, arith,
}
use mona_server.Base.Words.{IsU32}
use mona_server.Binary.{Order, flips}
use mona_server.Binary.Reader.{Reader, reader, next}
use mona_server.Binary.Reader.Rest.{At, reader-IsValid, rest-reader}
use mona_server.Binary.Writer.{Writer, contents, write8, write_raw}
use mona_server.Binary.Writer.Appends.{
  Appends, Writes, Writes-then, write8-Writes, write_raw-Writes,
}
use mona_server.Binary.RoundTrip.Survival.{back_at, back_at-At, HasRoom}
use mona_server.Ws.{
  header_size, write_size, write_header, plain, masked, built, build_packet, decode,
}
use mona_server.Ws.Unmasking.{hide, xor_mask-hide, length-xor_mask, decode-At}
use mona_server.Ws.Frames.{
  HasSize, has_size, first_type, type_back, second_low, second_masked, bit_low, bit_high,
  build_packet-Headed, built-plain, built-masked, header_size-le,
}

bind_then {ℓ} :
    {A : Type ℓ} (o : Option Writer) (f : Writer → Option Writer) (g : Writer → Option A)
    (b : Writer)
    → (o >>= f) ≡ some b
    → (o >>= (λ a. f a >>= g)) ≡ g b
bind_then none f g b e = absurd cc
bind_then (some a) f g b e = ap (λ (m : Option Writer). m >>= g) e

-- The header of a frame.
module _ (type size : ℕ) (flip : Bool) (h : HasSize flip size) (some_type : 0 < type)
    (small : type < 16) where
  abbrev header : List ℕ
  header = (type + 0x80) ∷ h.second ∷ h.more

  header-Writes :
      Writes flip (λ w. write8 w (bit_or type 0x80) >>= (λ w'. write_size w' size)) header
  header-Writes =
      Writes-then flip (λ w. write8 w (bit_or type 0x80)) (λ w'. write_size w' size)
        ((type + 0x80) ∷ []) (h.second ∷ h.more)
        (subst (λ (b : ℕ). Writes flip (λ w. write8 w b) ((type + 0x80) ∷ []))
          (sym (first_type type small)) (write8-Writes flip (type + 0x80) (omega arith)))
        h.writes

  write_header-returns :
      (w : Writer)
      (a : Appends w header (write8 w (bit_or type 0x80) >>= (λ w'. write_size w' size)))
      → write_header type size w ≡ some (header_size size, a.after)
  unfolding write_header
  write_header-returns w a =
      let typed : (type == 0) ≡ false = ground arith in
      rw typed (
        bind_then (write8 w (bit_or type 0x80)) (λ w'. write_size w' size)
          (λ w''. some (header_size size, w'')) a.after a.returns)

back_at-flip :
    (order : Order) (n : ℕ) (w : Writer) (tail : List ℕ)
    → (back_at order n w tail).flip_bytes ≡ flips order
unfolding next reader
back_at-flip order n w tail = refl

reader-flip : (bytes : List ℕ) (order : Order) → (reader bytes order).flip_bytes ≡ flips order
unfolding reader
reader-flip bytes order = refl

flags :
    (r : Reader) (type second size : ℕ)
    → type < 16
    → second < 128
    → built r (bit_and (type + 0x80) 0x0f) (not (bit_and second 0x80 == 0)) size
      ≡ built r type false size
flags r type second size small low = rw (type_back type small, bit_low second low) refl

-- A frame that a writer ends with, in front of the tail.
pub record Frames (order : Order) (w : Writer) (tail : List ℕ) (type : ℕ) (payload : List ℕ)
    : Type 0 where
  pub headed : Writer
  pub header_written :
      write_header type (length payload) w ≡ some (header_size (length payload), headed)
  pub header_long : length (contents headed) ≡ length (contents w) + header_size (length payload)
  pub after : Writer
  pub returns : write_raw headed payload ≡ some after
  pub packet : Reader
  pub builds : build_packet (back_at order (length (contents w)) after tail) ≡ some (plain packet)
  pub packet_at : At packet (type ∷ payload)

-- A type from 1 to 15 and the size of a payload are given to `WriteHeader` on a growable writer
-- with room for ten bytes more than the payload, which is written behind: both return,
-- `WriteHeader` with the number of bytes that it wrote. From there on, in front of any tail,
-- `buildPacket` gives a packet of the type and the payload.
pub write_header-Frames :
    (order : Order) (w : Writer) (tail : List ℕ) (type : ℕ) (payload : List ℕ)
    → HasRoom order w tail (10 + length payload)
    → 0 < type
    → type < 16
    → Frames order w tail type payload
write_header-Frames order w tail type payload room some_type small =
    let h = has_size (flips order) (length payload) (omega (arith, room)) in
    let head = header type (length payload) (flips order) h some_type small in
    let short = header_size-le (length payload) in
    let a =
      header-Writes type (length payload) (flips order) h some_type small w room.same_order
        room.grows (omega (arith, room.room, h.length_is, short)) in
    let b =
      write_raw-Writes (flips order) payload a.after (a.same_order ∙ room.same_order) a.grows (
        omega (
          arith,
          ap length a.written,
          length-append (contents w) head,
          room.room,
          h.length_is,
          short,
        )) in
    let all =
      b.written
      ∙ ap (λ (c : List ℕ). c ++ payload) a.written
      ∙ append_assoc (contents w) head payload in
    let at =
      subst (At (back_at order (length (contents w)) b.after tail)) (append_assoc head payload tail)
        (back_at-At order w tail b.after (head ++ payload) (10 + length payload) room
          (omega (arith, length-append head payload, h.length_is, short)) all) in
    let read =
      build_packet-Headed (flips order) (back_at order (length (contents w)) b.after tail)
        (type + 0x80) h.second (length payload) h (payload ++ tail)
        (back_at-flip order (length (contents w)) b.after tail) (second_low h.second h.is_byte)
        at in
    let got =
      built-plain read.behind type (length payload) payload tail read.at_tail refl read.not_first in
    record {
      headed = a.after;
      header_written =
          write_header-returns type (length payload) (flips order) h some_type small w a;
      header_long =
          omega (arith, ap length a.written, length-append (contents w) head, h.length_is);
      after = b.after;
      returns = b.returns;
      packet = got.0;
      builds =
          read.builds ∙ flags read.behind type h.second (length payload) small h.is_byte ∙ got.1.0;
      packet_at = got.1.1;
    }

-- The same header with the bit of the mask, as a client sends it.
pub with_mask : List ℕ → List ℕ
with_mask [] = []
with_mask (first ∷ []) = first ∷ []
with_mask (first ∷ second ∷ more) = first ∷ (second + 0x80) ∷ more

flags_masked :
    (r : Reader) (type second size : ℕ)
    → type < 16
    → second < 128
    → built r (bit_and (type + 0x80) 0x0f) (not (bit_and (second + 0x80) 0x80 == 0)) size
      ≡ built r type true size
flags_masked r type second size small low = rw (type_back type small, bit_high second low) refl

-- A masked frame, in front of other bytes.
pub record IsUnmasked (order : Order) (w : Writer) (type : ℕ) (initial : List ℕ) (a b c d : ℕ)
    (payload others : List ℕ) : Type 0 where
  pub headed : Writer
  pub header_written :
      write_header type (length payload) w ≡ some (header_size (length payload), headed)
  pub hidden : List ℕ
  pub builds :
      build_packet (
        reader
          (with_mask (drop (length (contents w)) (contents headed))
            ++ (((a ∷ b ∷ c ∷ d ∷ []) ++ hide a b c d payload) ++ others))
          order)
      ≡ some (masked type hidden)
  pub packet_at : At (decode initial hidden type) (type ∷ payload)

-- A header as before, of which the second byte gets the bit of the mask, is followed by a mask of
-- four bytes, a payload under that mask, which turns with every byte, and other bytes, fewer than
-- 2 ^ 32 in all: `buildPacket` takes the frame for the thread, and what `decode` gives of it,
-- whatever the mask's array held before, is the type and the payload.
pub write_header-IsUnmasked :
    (order : Order) (w : Writer) (type : ℕ) (initial : List ℕ) (a b c d : ℕ)
    (payload others : List ℕ)
    → HasRoom order w [] 10
    → 0 < type
    → type < 16
    → length initial ≡ 4
    → 14 + length payload + length others < 2 ^ 32
    → IsUnmasked order w type initial a b c d payload others
unfolding with_mask
write_header-IsUnmasked order w type initial a b c d payload others room some_type small four
      total =
    let h = has_size (flips order) (length payload) (omega (arith, total)) in
    let head = header type (length payload) (flips order) h some_type small in
    let short = header_size-le (length payload) in
    let sent =
      header-Writes type (length payload) (flips order) h some_type small w room.same_order
        room.grows (omega (arith, room.room, h.length_is, short)) in
    let mask = a ∷ b ∷ c ∷ d ∷ [] in
    let hidden = mask ++ hide a b c d payload in
    let masked_is = xor_mask-hide a b c d payload in
    let whole : length hidden ≡ length payload + 4 = omega (
      arith,
      length-append mask (hide a b c d payload),
      ap length masked_is,
      length-xor_mask mask 0 payload,
    ) in
    let bytes = (type + 0x80) ∷ (h.second + 0x80) ∷ h.more ++ (hidden ++ others) in
    let fits : IsU32 (length bytes) = omega (
      arith,
      length-append h.more (hidden ++ others),
      length-append hidden others,
      whole,
      h.length_is,
      short,
      total,
    ) in
    let r = reader bytes order in
    let at : At r bytes = record {
      valid = reader-IsValid bytes order fits;
      unread = rest-reader bytes order;
    } in
    let read =
      build_packet-Headed (flips order) r (type + 0x80) (h.second + 0x80) (length payload) h
        (hidden ++ others) (reader-flip bytes order) (second_masked h.second h.is_byte) at in
    let got =
      built-masked read.behind type (length payload + 4) hidden others read.at_tail whole
        (omega (arith, whole, total)) (length payload) (omega (arith, total)) in
    let head_is : drop (length (contents w)) (contents sent.after) ≡ head =
      ap (drop (length (contents w))) sent.written ∙ drop-append_length (contents w) head in
    record {
      headed = sent.after;
      header_written =
          write_header-returns type (length payload) (flips order) h some_type small w sent;
      hidden = hidden;
      builds =
          ap (λ (b : List ℕ). build_packet (reader (with_mask b ++ (hidden ++ others)) order))
            head_is
          ∙ read.builds
          ∙ flags_masked read.behind type h.second (length payload) small h.is_byte
          ∙ got;
      packet_at =
          subst (λ (xs : List ℕ). At (decode initial (mask ++ xs) type) (type ∷ payload)) masked_is
            (decode-At initial mask payload type four refl (omega (arith, total)));
    }
