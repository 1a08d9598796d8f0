-- ===== src/Binary/RoundTrip/Survival.antt =====
-- What a `BinaryWriter` appends to its buffer, a `BinaryReader` over the buffer reads back.
use mona_server.Base.{
  ℕ, ◌+◌, ◌*◌, ◌/◌, ◌%◌, ◌^◌, ◌≤◌, ◌<◌, ◌≡◌, refl, ap, ◌∙◌, subst, List, ◌++◌, Option, some, length,
  length-append, drop, drop-append_length, append_assoc, arith,
}
use mona_server.Base.Words.{IsU16, IsU32, IsU64}
use mona_server.Binary.{Order, flips}
use mona_server.Binary.Reader.{
  Reader, reader, next, read16, read24, read32, read64, read7_bit_value, read7_bit_long_value,
  read7_bit_encoded, read_string,
}
use mona_server.Binary.Reader.Rest.{At, next-At, reader-IsValid, rest-reader}
use mona_server.Binary.Writer.{
  Writer, contents, write16, write24, write32, write64, write7_bit_value, write7_bit_long_value,
  write7_bit_encoded, write_string,
}
use mona_server.Binary.Writer.Appends.{Appends}
use mona_server.Binary.RoundTrip.{Reads, RoundTrips}
use mona_server.Binary.RoundTrip.Words.{
  write16-RoundTrips, write24-RoundTrips, write32-RoundTrips, write64-RoundTrips,
}
use mona_server.Binary.RoundTrip.Seven.{
  write7_bit_value-RoundTrips, write7_bit_long_value-RoundTrips, write7_bit_long_value_shifted,
}
use mona_server.Binary.RoundTrip.Encoded.{
  Decoded, encoded, length-encoded, write7_bit_encoded-Writes, read7_bit_encoded-Decoded,
  write_string-Writes, read_string-Decoded,
}
use mona_server.Buffer.Resize.{CanGrow}

-- A reader over what `w` holds and `tail`, moved to position `n`.
abbrev pub back_at : Order → ℕ → Writer → List ℕ → Reader
back_at order n w tail = next (reader (contents w ++ tail) order) n

-- `m` is `w` with some bytes appended; a reader over the new contents and `tail`, moved to where
-- the old contents end, reads `v` and is then at `tail`.
pub record Survives {ℓ} {A : Type ℓ} (order : Order) (w : Writer) (tail : List ℕ)
    (m : Option Writer) (read : Reader → A × Reader) (v : A) : Type ℓ where
  pub after : Writer
  pub encoding : List ℕ
  pub returns : m ≡ some after
  pub appended : contents after ≡ contents w ++ encoding
  pub reads : Reads v tail (read (back_at order (length (contents w)) after tail))

-- A writer that can take 16 more bytes, in front of the tail.
pub record HasRoom (order : Order) (w : Writer) (tail : List ℕ) (n : ℕ) : Type 0 where
  pub same_order : w.flip_bytes ≡ flips order
  pub grows : CanGrow w.buffer
  pub room : length (contents w) + n + length tail ≤ 2 ^ 31

module _ (order : Order) (w : Writer) (tail : List ℕ) where
  pub back_at-At :
      (after : Writer) (encoding : List ℕ) (n : ℕ)
      → HasRoom order w tail n
      → length encoding ≤ n
      → contents after ≡ contents w ++ encoding
      → At (back_at order (length (contents w)) after tail) (encoding ++ tail)
  back_at-At after encoding n h short e =
      let all = contents after ++ tail in
      let valid = reader-IsValid all order (
        omega (
          arith,
          length-append (contents after) tail,
          ap length e,
          length-append (contents w) encoding,
          h.room,
        )) in
      subst (At (next (reader all order) (length (contents w))))
        (ap (drop (length (contents w))) (
            rest-reader all order
            ∙ ap (λ (c : List ℕ). c ++ tail) e
            ∙ append_assoc (contents w) encoding tail)
          ∙ drop-append_length (contents w) (encoding ++ tail))
        (next-At (reader all order) valid (length (contents w)))

  survives {ℓ} :
      {A : Type ℓ} (write : Writer → Option Writer) (read : Reader → A × Reader) (v : A)
      → HasRoom order w tail 16
      → RoundTrips (flips order) write read v
      → Survives order w tail (write w) read v
  unfolding next reader
  survives write read v h t =
      let a : Appends w t.encoding (write w) =
        t.writes w h.same_order h.grows (omega (arith, t.short, h.room)) in
      record {
        after = a.after;
        encoding = t.encoding;
        returns = a.returns;
        appended = a.written;
        reads =
            t.reads (back_at order (length (contents w)) a.after tail) tail refl
              (back_at-At a.after t.encoding 16 h t.short a.written);
      }

  -- Words of 16, 24, 32 and 64 bits within their width, each written to a growable writer which
  -- stays below 2 ^ 31 bytes, are appended and read back, in either byte order and in front of any
  -- tail.
  pub write_word-Survives :
      (a b c d : ℕ)
      → HasRoom order w tail 16
      → IsU16 a
      → b < 2 ^ 24
      → IsU32 c
      → IsU64 d
      → Survives order w tail (write16 w a) read16 a
        × Survives order w tail (write24 w b) read24 b
        × Survives order w tail (write32 w c) read32 c
        × Survives order w tail (write64 w d) read64 d
  write_word-Survives a b c d h ha hb hc hd = (
    survives (λ w'. write16 w' a) read16 a h (write16-RoundTrips (flips order) a ha),
    survives (λ w'. write24 w' b) read24 b h (write24-RoundTrips (flips order) b hb),
    survives (λ w'. write32 w' c) read32 c h (write32-RoundTrips (flips order) c hc),
    survives (λ w'. write64 w' d) read64 d h (write64-RoundTrips (flips order) d hd),
  )

  -- A value below 2 ^ 29 that `write7BitValue` writes to a growable writer, which stays below 2 ^
  -- 31 bytes, is appended and read back by `read7BitValue`, in either byte order and in front of
  -- any tail.
  pub write7_bit_value-Survives :
      (v : ℕ)
      → HasRoom order w tail 16
      → v < 2 ^ 29
      → Survives order w tail (write7_bit_value w v) read7_bit_value v
  write7_bit_value-Survives v h small =
      survives (λ w'. write7_bit_value w' v) read7_bit_value v h
        (write7_bit_value-RoundTrips (flips order) v small)

  -- A value below 2 ^ 56 that `write7BitLongValue` writes to a growable writer, which stays below
  -- 2 ^ 31 bytes, is appended and read back by `read7BitLongValue`, in either byte order and in
  -- front of any tail.
  write7_bit_long_value-Survives :
      (v : ℕ)
      → HasRoom order w tail 16
      → v < 2 ^ 56
      → Survives order w tail (write7_bit_long_value w v) read7_bit_long_value v
  write7_bit_long_value-Survives v h small =
      survives (λ w'. write7_bit_long_value w' v) read7_bit_long_value v h
        (write7_bit_long_value-RoundTrips (flips order) v small)

  -- From 2 ^ 56 up to 2 ^ 63, `write7BitLongValue` to a growable writer, which stays below 2 ^ 31
  -- bytes, appends bytes from which `read7BitLongValue` reads another value: all but the lowest
  -- seven bits come back doubled.
  pub write7_bit_long_value_corrupts :
      (v : ℕ)
      → HasRoom order w tail 16
      → 2 ^ 56 ≤ v
      → v < 2 ^ 63
      → Survives order w tail
          (write7_bit_long_value w v)
          read7_bit_long_value
          (v / 128 * 256 + v % 128)
  write7_bit_long_value_corrupts v h low high =
      survives (λ w'. write7_bit_long_value w' v) read7_bit_long_value (v / 128 * 256 + v % 128) h
        (write7_bit_long_value_shifted (flips order) v low high)

-- The same for a read that may fail.
pub record Decodes {ℓ} {A : Type ℓ} (order : Order) (w : Writer) (tail : List ℕ) (m : Option Writer)
    (read : Reader → Option (A × Reader)) (v : A) : Type ℓ where
  pub after : Writer
  pub encoding : List ℕ
  pub returns : m ≡ some after
  pub appended : contents after ≡ contents w ++ encoding
  pub reads : Decoded v tail (read (back_at order (length (contents w)) after tail))

module _ (order : Order) (w : Writer) (tail : List ℕ) where
  -- Any UInt32 that `write7BitEncoded` writes to a growable writer, which stays below 2 ^ 31
  -- bytes, is appended and read back by `read7BitEncoded` without an undefined shift, in front of
  -- any tail.
  write7_bit_encoded-Decodes :
      (v : ℕ)
      → HasRoom order w tail 5
      → IsU32 v
      → Decodes order w tail (write7_bit_encoded w v) read7_bit_encoded v
  write7_bit_encoded-Decodes v h small =
      let short = length-encoded v in
      let a : Appends w (encoded v) (write7_bit_encoded w v) =
        write7_bit_encoded-Writes (flips order) v small w h.same_order h.grows
          (omega (arith, short, h.room)) in
      record {
        after = a.after;
        encoding = encoded v;
        returns = a.returns;
        appended = a.written;
        reads =
            read7_bit_encoded-Decoded v (back_at order (length (contents w)) a.after tail) tail
              small (back_at-At order w tail a.after (encoded v) 5 h short a.written);
      }

  -- A text of any bytes that `writeString` writes to a growable writer, which stays below 2 ^ 31
  -- bytes, is appended and read back by `readString` from where it starts, in front of any tail.
  pub write_string-Decodes :
      (text : List ℕ)
      → HasRoom order w tail (5 + length text)
      → Decodes order w tail (write_string w text) read_string text
  write_string-Decodes text h =
      let small : IsU32 (length text) = omega (arith, h.room) in
      let whole : List ℕ = encoded (length text) ++ text in
      let short : length whole ≤ 5 + length text =
        omega (arith, length-append (encoded (length text)) text, length-encoded (length text)) in
      let a : Appends w whole (write_string w text) =
        write_string-Writes (flips order) text small w h.same_order h.grows
          (omega (arith, short, h.room)) in
      record {
        after = a.after;
        encoding = whole;
        returns = a.returns;
        appended = a.written;
        reads =
            read_string-Decoded text (back_at order (length (contents w)) a.after tail) tail small
              (back_at-At order w tail a.after whole (5 + length text) h short a.written);
      }
