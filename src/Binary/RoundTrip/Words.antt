-- ===== src/Binary/RoundTrip/Words.antt =====
-- Words of 8, 16, 24, 32 and 64 bits, and the texts behind a length of 8 or 16 bits.
use mona_server.Base.{
  ℕ, zero, suc, ◌/◌, ◌%◌, ◌^◌, ◌<◌, ◌≤◌, ◌≡◌, refl, ap, ◌∙◌, Bool, true, false, List, [], ◌∷◌, ◌++◌,
  sym, subst, Option, if◌then◌else◌, length, take, drop, replicate, arith, take-append_length,
  drop-append_length, length-append, length-replicate, append-nil, drop_all,
}
use mona_server.Base.Words.{IsByte, IsU16, IsU32, IsU64}
use mona_server.Binary.{load, store, flip16, flip24, flip32, flip64}
use mona_server.Binary.Flips.{
  load-store, flip16_involutive, flip24_involutive, flip32_involutive, flip64_involutive,
}
use mona_server.Binary.Reader.{Reader, read_raw, read_word, read8, read16, read24, read32, read64}
use mona_server.Binary.Reader.Rest.{At, read8-cons, read_raw-At}
use mona_server.Binary.Writer.{
  Writer, write8, write_raw, write_word, write16, write24, write32, write64,
}
use mona_server.Binary.Writer.Appends.{Appends, write_raw-Writes}
use mona_server.Binary.RoundTrip.{Reads, RoundTrips}

-- All the bytes that are asked for are there.
pub read_raw_whole :
    (r : Reader) (value bs tail : List ℕ)
    → length value ≡ length bs
    → At r (bs ++ tail)
    → Reads bs tail (read_raw r value)
read_raw_whole r value bs tail same a =
    let (got, left) = read_raw-At r value (bs ++ tail) a in
    (
      got
          ∙ ap (λ (xs : List ℕ). xs ++ drop (length (bs ++ tail)) value)
              (ap (λ (n : ℕ). take n (bs ++ tail)) same ∙ take-append_length bs tail)
          ∙ ap (λ (xs : List ℕ). bs ++ xs)
              (drop_all (length (bs ++ tail)) value (omega (arith, length-append bs tail)))
          ∙ append-nil bs,
      subst (At _) (ap (λ (n : ℕ). drop n (bs ++ tail)) same ∙ drop-append_length bs tail) left,
    )

pub length-store : (n v : ℕ) → length (store n v) ≡ n
length-store zero v = refl
length-store (suc n) v = ap suc (length-store n (v / 2 ^ 8))

abbrev pub ordered : (ℕ → ℕ) → Bool → ℕ → ℕ
ordered flip flipped v = if flipped then flip v else v

-- A round trip by known bytes.
pub record Measured (bytes : List ℕ) (n : ℕ) (flip : Bool) (write : Writer → Option Writer)
    (read : Reader → ℕ × Reader) (v : ℕ) : Type 0 where
  pub trips : RoundTrips flip write read v
  pub bytes_are : trips.encoding ≡ bytes
  pub length_is : length trips.encoding ≡ n

-- A word goes round under any flip that undoes itself.
module _ (n : ℕ) (flip : ℕ → ℕ) (v : ℕ) (fits : v < 256 ^ n)
    (involutive : (flip v < 256 ^ n) × (flip (flip v) ≡ v)) (narrow : n ≤ 16) where
  back : (flipped : Bool) → ordered flip flipped (load (store n (ordered flip flipped v))) ≡ v
  back true = rw (load-store n (flip v) involutive.0) involutive.1
  back false = load-store n v fits

  word-Measured :
      (flipped : Bool)
      → Measured
          (store n (ordered flip flipped v))
          n
          flipped
          (λ w. write_word n flip w v)
          (read_word n flip)
          v
  unfolding read_word
  word-Measured flipped = record {
    trips = record {
      encoding = bytes;
      short = omega (arith, length-store n (ordered flip flipped v));
      writes = λ w same grow room.
          subst (λ b. Appends w bytes (write_raw w (store n (ordered flip b v)))) (sym same)
            (write_raw-Writes flipped bytes w same grow room);
      reads = λ r tail same a.
          let (got, left) = read_raw_whole r (replicate n 0) bytes tail (long bytes refl) a in
          (
            ap (λ (b : Bool). ordered flip b (load (read_raw r (replicate n 0)).0)) same
                ∙ ap (λ (xs : List ℕ). ordered flip flipped (load xs)) got
                ∙ back flipped,
            left,
          );
    };
    bytes_are = refl;
    length_is = length-store n (ordered flip flipped v);
  }
    where
      bytes : List ℕ
      bytes = store n (ordered flip flipped v)

      long : (bs : List ℕ) → bs ≡ bytes → length {A = ℕ} (replicate n 0) ≡ length bs
      long bs e =
          let zero_byte : ℕ = 0 in
          length-replicate n zero_byte
          ∙ sym (length-store n (ordered flip flipped v))
          ∙ ap length (sym e)

-- A word that lies in network order.
module _ (r : Reader) (v : ℕ) (tail : List ℕ) (same : r.flip_bytes ≡ true) where
  stored :
      (n : ℕ) (flip : ℕ → ℕ)
      → v < 256 ^ n
      → (flip v < 256 ^ n) × (flip (flip v) ≡ v)
      → n ≤ 16
      → At r (store n (flip v) ++ tail)
      → Reads v tail (read_word n flip r)
  stored n flip fits involutive narrow a =
      let m = word-Measured n flip v fits involutive narrow true in
      m.trips.reads r tail same (subst (λ (xs : List ℕ). At r (xs ++ tail)) (sym m.bytes_are) a)

  pub read24-store : v < 2 ^ 24 → At r (store 3 (flip24 v) ++ tail) → Reads v tail (read24 r)
  unfolding read24
  read24-store h = stored 3 flip24 h (flip24_involutive v h) (omega arith)

  pub read32-store : IsU32 v → At r (store 4 (flip32 v) ++ tail) → Reads v tail (read32 r)
  unfolding read32
  read32-store h = stored 4 flip32 h (flip32_involutive v h) (omega arith)

module _ (flipped : Bool) (v : ℕ) where
  pub write16-Measured :
      IsU16 v → Measured (store 2 (ordered flip16 flipped v)) 2 flipped (λ w. write16 w v) read16 v
  unfolding write16 read16
  write16-Measured h = word-Measured 2 flip16 v h (flip16_involutive v h) (omega arith) flipped

  pub write64-Measured :
      IsU64 v → Measured (store 8 (ordered flip64 flipped v)) 8 flipped (λ w. write64 w v) read64 v
  unfolding write64 read64
  write64-Measured h = word-Measured 8 flip64 v h (flip64_involutive v h) (omega arith) flipped

  -- Each word that fits its width is read back, in either byte order.
  pub write16-RoundTrips : IsU16 v → RoundTrips flipped (λ w. write16 w v) read16 v
  write16-RoundTrips h = (write16-Measured h).trips

  pub write24-RoundTrips : v < 2 ^ 24 → RoundTrips flipped (λ w. write24 w v) read24 v
  unfolding write24 read24
  write24-RoundTrips h =
      (word-Measured 3 flip24 v h (flip24_involutive v h) (omega arith) flipped).trips

  pub write32-RoundTrips : IsU32 v → RoundTrips flipped (λ w. write32 w v) read32 v
  unfolding write32 read32
  write32-RoundTrips h =
      (word-Measured 4 flip32 v h (flip32_involutive v h) (omega arith) flipped).trips

  pub write64-RoundTrips : IsU64 v → RoundTrips flipped (λ w. write64 w v) read64 v
  write64-RoundTrips h = (write64-Measured h).trips

  pub write8-RoundTrips : IsByte v → RoundTrips flipped (λ w. write8 w v) read8 v
  unfolding write8
  write8-RoundTrips h = record {
    encoding = v % 2 ^ 8 ∷ [];
    short = omega arith;
    writes = write_raw-Writes flipped (v % 2 ^ 8 ∷ []);
    reads = λ r tail same a.
        let (got, left) = read8-cons r (v % 2 ^ 8) tail a in (got ∙ omega arith, left);
  }
