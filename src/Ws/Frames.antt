-- ===== src/Ws/Frames.antt =====
-- The header of a frame, and how `buildPacket` reads it.
pub mod Sent
use mona_server.Base.{
  ℕ, zero, suc, ◌+◌, ◌-◌, ◌*◌, ◌%◌, ◌^◌, ◌≤◌, ◌<◌, ◌≡◌, refl, sym, ap, ◌∙◌, subst, Bool, true,
  false, not, List, [], ◌∷◌, ◌++◌, Option, none, some, ltb, ◌==◌, if◌then◌else◌, ◌>>=◌, length,
  length-append, append_assoc, take, drop, take-append_length, length-take, length-drop, bit_and,
  bit_or, arith, Bool-cases, inl, inr,
}
use mona_server.Base.Bits.{bit_and-low, bit_or-add_swap, bit_and-shifted}
use mona_server.Base.Words.{IsByte, IsU32, add32}
use mona_server.Binary.Reader.{
  Reader, available, reset, shrink, read_raw, read_word, read8, read16, read64,
}
use mona_server.Binary.Reader.Rest.{At, IsValid, rest, read8-cons, shrink-At, available-length}
use mona_server.Binary.Writer.{Writer, write8, write16, write64}
use mona_server.Binary.Writer.Appends.{Writes, Writes-then, write8-Writes}
use mona_server.Binary.RoundTrip.{Reads, RoundTrips}
use mona_server.Binary.RoundTrip.Words.{Measured, write16-Measured, write64-Measured}
use mona_server.Ws.Unmasking.{put_type-At}
use mona_server.Ws.{
  header_size, write_size, write_header, put, put_type, Built, plain, masked, read_size, built,
  build_packet,
}

-- The size: its first byte, the bytes behind it, and what is read of these.
pub record HasSize (flip : Bool) (size : ℕ) : Type 0 where
  pub second : ℕ
  pub is_byte : second < 128
  pub more : List ℕ
  pub length_is : length more + 2 ≡ header_size size
  pub writes : Writes flip (λ w. write_size w size) (second ∷ more)
  pub reads :
      (r : Reader) (tail : List ℕ)
      → r.flip_bytes ≡ flip
      → At r (more ++ tail)
      → (r' : Reader) × ((read_size r second ≡ some (size, r'))
          × (At r' tail × (r.current ≤ r'.current)))

available-At : (r : Reader) (xs : List ℕ) → At r xs → available r ≡ length xs
available-At r xs a = available-length r a.valid ∙ ap length a.unread

forward16 : (r : Reader) → r.current ≤ (read16 r).1.current
unfolding read16 read_word read_raw
forward16 r = ground arith

forward64 : (r : Reader) → r.current ≤ (read64 r).1.current
unfolding read64 read_word read_raw
forward64 r = ground arith

small-HasSize : (flip : Bool) (size : ℕ) → size < 126 → HasSize flip size
unfolding write_size read_size header_size
small-HasSize flip size h =
    let less : ltb size 126 ≡ true = ground (arith, h) in
    let other : (size == 127) ≡ false = ground (arith, h) in
    let other' : (size == 126) ≡ false = ground (arith, h) in
    record {
      second = size;
      is_byte = omega arith;
      more = [];
      length_is = rw less refl;
      writes = rw less (write8-Writes flip size (omega arith));
      reads = λ r tail same a. (r, (rw (other, other') refl, (a, omega arith)));
    }

pair_eq : (p : ℕ × Reader) (n : ℕ) → p.0 ≡ n → p ≡ (n, p.1)
pair_eq (m, r) n e = ap (λ (k : ℕ). (k, r)) e

middle-HasSize : (flip : Bool) (size : ℕ) → 126 ≤ size → size < 65536 → HasSize flip size
unfolding write_size read_size header_size
middle-HasSize flip size low high =
    let m = write16-Measured flip size high in
    let t = m.trips in
    let not_less : ltb size 126 ≡ false = ground (arith, low) in
    let less : ltb size 65536 ≡ true = ground (arith, high) in
    let same_size : size % 2 ^ 16 ≡ size = omega arith in
    record {
      second = 126;
      is_byte = omega arith;
      more = t.encoding;
      length_is = rw (not_less, less) (omega (arith, m.length_is));
      writes =
          rw (not_less, less, same_size)
            (Writes-then flip (λ w. write8 w 126) (λ w. write16 w size) (126 ∷ []) t.encoding
              (write8-Writes flip 126 (omega arith)) t.writes);
      reads = λ r tail same a.
          let got = t.reads r tail same a in
          let enough : ltb (available r) 2 ≡ false = ground (
            arith,
            available-At r (t.encoding ++ tail) a,
            length-append t.encoding tail,
            m.length_is,
          ) in
          (
            (read16 r).1,
            (rw enough (ap some (pair_eq (read16 r) size got.0)), (got.1, forward16 r)),
          );
    }

large-HasSize : (flip : Bool) (size : ℕ) → 65536 ≤ size → size < 2 ^ 32 → HasSize flip size
unfolding write_size read_size header_size
large-HasSize flip size low high =
    let m = write64-Measured flip size (omega arith) in
    let t = m.trips in
    let not_less : ltb size 126 ≡ false = ground (arith, low) in
    let not_less' : ltb size 65536 ≡ false = ground (arith, low) in
    record {
      second = 127;
      is_byte = omega arith;
      more = t.encoding;
      length_is = rw (not_less, not_less') (omega (arith, m.length_is));
      writes =
          rw (not_less, not_less')
            (Writes-then flip (λ w. write8 w 127) (λ w. write64 w size) (127 ∷ []) t.encoding
              (write8-Writes flip 127 (omega arith)) t.writes);
      reads = λ r tail same a.
          let got = t.reads r tail same a in
          let enough : ltb (available r) 8 ≡ false = ground (
            arith,
            available-At r (t.encoding ++ tail) a,
            length-append t.encoding tail,
            m.length_is,
          ) in
          let value : (read64 r).0 % 2 ^ 32 ≡ size = omega (arith, got.0, high) in
          ((read64 r).1, (rw (enough, value) refl, (got.1, forward64 r)));
    }

pub has_size : (flip : Bool) (size : ℕ) → size < 2 ^ 32 → HasSize flip size
has_size flip size h = elim (Bool-cases (ltb size 126)) [
  | inl low ↦ small-HasSize flip size (ground (arith, low))
  | inr e ↦ elim (Bool-cases (ltb size 65536)) [
    | inl low ↦ middle-HasSize flip size (ground (arith, e)) (ground (arith, low))
    | inr high ↦ large-HasSize flip size (ground (arith, high)) h
  ]
]

-- The first byte.
pub first_type : (type : ℕ) → type < 16 → bit_or type 0x80 ≡ type + 0x80
first_type type h = bit_or-add_swap 7 1 type (omega arith)

pub type_back : (type : ℕ) → type < 16 → bit_and (type + 0x80) 0x0f ≡ type
type_back type h = bit_and-low 4 (type + 0x80) ∙ omega (arith, h)

-- The second byte, without and with the bit of the mask.
pub second_low : (b : ℕ) → b < 128 → bit_and b 0x7f ≡ b
second_low b h = bit_and-low 7 b ∙ omega (arith, h)

pub second_masked : (b : ℕ) → b < 128 → bit_and (b + 0x80) 0x7f ≡ b
second_masked b h = bit_and-low 7 (b + 0x80) ∙ omega (arith, h)

pub bit_low : (b : ℕ) → b < 128 → bit_and b 0x80 ≡ 0
bit_low b h = bit_and-shifted 7 1 b ∙ omega (arith, h)

pub bit_high : (b : ℕ) → b < 128 → bit_and (b + 0x80) 0x80 ≡ 0x80
bit_high b h = bit_and-shifted 7 1 (b + 0x80) ∙ omega (arith, h)

read8-same : (r : Reader) → (read8 r).1.flip_bytes ≡ r.flip_bytes
unfolding read8
read8-same r = ground arith

read8-forward : (r : Reader) (b : ℕ) (xs : List ℕ) → At r (b ∷ xs) → r.current < (read8 r).1.current
unfolding read8
read8-forward r b xs a = ground (arith, available-At r (b ∷ xs) a, a.valid)

-- The head of a frame is read.
pub record Headed (r : Reader) (first second size : ℕ) (tail : List ℕ) : Type 0 where
  pub behind : Reader
  pub builds :
      build_packet r ≡ built behind (bit_and first 0x0f) (not (bit_and second 0x80 == 0)) size
  pub at_tail : At behind tail
  pub not_first : 1 ≤ behind.current

pub build_packet-Headed :
    (flip : Bool) (r : Reader) (first second size : ℕ) (h : HasSize flip size) (tail : List ℕ)
    → r.flip_bytes ≡ flip
    → bit_and second 0x7f ≡ h.second
    → At r (first ∷ second ∷ h.more ++ tail)
    → Headed r first second size tail
unfolding build_packet
build_packet-Headed flip r first second size h tail same low a =
    let one = read8-cons r first (second ∷ h.more ++ tail) a in
    let r1 = (read8 r).1 in
    let two = read8-cons r1 second (h.more ++ tail) one.1 in
    let r2 = (read8 r1).1 in
    let got = h.reads r2 tail (read8-same r1 ∙ read8-same r ∙ same) two.1 in
    let enough : ltb (available r) 2 ≡ false =
      ground (arith, available-At r (first ∷ second ∷ h.more ++ tail) a) in
    record {
      behind = got.0;
      builds = rw (enough, one.0, two.0, low, got.1.0) refl;
      at_tail = got.1.1.0;
      not_first = omega (
        arith,
        got.1.1.1,
        read8-forward r1 second (h.more ++ tail) one.1,
        read8-forward r first (second ∷ h.more ++ tail) a,
      );
    }

length-rest' : (r : Reader) → IsValid r → length (rest r) ≡ r.end - r.current
length-rest' r v = omega (
  arith,
  length-take (r.end - r.current) (drop r.current r.memory),
  length-drop r.current r.memory,
  v,
)

-- The bytes of a frame, and those behind.
module _ (r : Reader) (type size : ℕ) (bytes others : List ℕ) (a : At r (bytes ++ others))
    (whole : length bytes ≡ size) where
  enough : ltb (available r) size ≡ false
  enough = ground (arith, available-At r (bytes ++ others) a, length-append bytes others, whole)

  cut : At (shrink r size) bytes
  cut =
      subst (At (shrink r size))
        (ap (take size) a.unread
          ∙ ap (λ (n : ℕ). take n (bytes ++ others)) (sym whole)
          ∙ take-append_length bytes others)
        (shrink-At r a.valid size)

  pub built-plain :
      1 ≤ r.current
      → (packet : Reader) × ((built r type false size ≡ some (plain packet))
          × At packet (type ∷ bytes))
  unfolding built shrink
  built-plain h = (
    put_type (shrink r size) type,
    (rw enough refl, put_type-At (shrink r size) bytes type cut h),
  )

  pub built-masked :
      IsU32 (length bytes)
      → (n : ℕ) → add32 n 4 ≡ size
      → built r type true n ≡ some (masked type bytes)
  unfolding built
  built-masked small n e =
      let packet = shrink r size in
      let all : take (available packet) (drop packet.current packet.memory) ≡ bytes =
        ap (λ (k : ℕ). take k (drop packet.current packet.memory))
          (available-length packet cut.valid ∙ length-rest' packet cut.valid)
        ∙ cut.unread in
      rw (e, enough, all) refl

pub header_size-le : (size : ℕ) → header_size size ≤ 10
unfolding header_size
header_size-le size = ground arith
