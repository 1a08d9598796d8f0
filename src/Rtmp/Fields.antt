-- ===== src/Rtmp/Fields.antt =====
-- The fields of a message's header, as `buildPacket` reads them.
use mona_server.Base.{
  ℕ, ◌/◌, ◌%◌, ◌^◌, ◌<◌, ◌≡◌, refl, ap, ◌∙◌, Bool, true, false, List, ◌∷◌, ◌++◌, Option, none, some,
  ltb, if◌then◌else◌, length, arith,
}
use mona_server.Base.Words.{IsU32}
use mona_server.Binary.{store, flip24, flip32}
use mona_server.Binary.Reader.{Reader, available, read_raw, read_word, read8, read24, read32}
use mona_server.Binary.Reader.Rest.{At, read8-cons, available-length}
use mona_server.Binary.RoundTrip.Words.{read24-store, read32-store}
use mona_server.Rtmp.{Channel, read_stream, read_size_type, read_extended}

-- A reader in network order at some bytes.
pub record Stands (r : Reader) (xs : List ℕ) : Type 0 where
  pub network : r.flip_bytes ≡ true
  pub at : At r xs

pub available-Stands : (r : Reader) (xs : List ℕ) → Stands r xs → available r ≡ length xs
available-Stands r xs s = available-length r s.at.valid ∙ ap length s.at.unread

read8-same : (r : Reader) → (read8 r).1.flip_bytes ≡ r.flip_bytes
unfolding read8
read8-same r = ground arith

read24-same : (r : Reader) → (read24 r).1.flip_bytes ≡ r.flip_bytes
unfolding read24 read_word read_raw
read24-same r = ground arith

read32-same : (r : Reader) → (read32 r).1.flip_bytes ≡ r.flip_bytes
unfolding read32 read_word read_raw
read32-same r = ground arith

pub byte_read :
    (r : Reader) (b : ℕ) (xs : List ℕ)
    → Stands r (b ∷ xs)
    → ((read8 r).0 ≡ b) × Stands (read8 r).1 xs
byte_read r b xs s =
    let got = read8-cons r b xs s.at in
    (got.0, record { network = read8-same r ∙ s.network; at = got.1 })

pub word24_read :
    (r : Reader) (v : ℕ) (xs : List ℕ)
    → v < 2 ^ 24
    → Stands r (store 3 (flip24 v) ++ xs)
    → ((read24 r).0 ≡ v) × Stands (read24 r).1 xs
word24_read r v xs h s =
    let got = read24-store r v xs s.network h s.at in
    (got.0, record { network = read24-same r ∙ s.network; at = got.1 })

word32_read :
    (r : Reader) (v : ℕ) (xs : List ℕ)
    → IsU32 v
    → Stands r (store 4 (flip32 v) ++ xs)
    → ((read32 r).0 ≡ v) × Stands (read32 r).1 xs
word32_read r v xs h s =
    let got = read32-store r v xs s.network h s.at in
    (got.0, record { network = read32-same r ∙ s.network; at = got.1 })

stream_read :
    (r : Reader) (v : ℕ) (xs : List ℕ)
    → IsU32 v
    → Stands r (store 4 v ++ xs)
    → ((read_stream r).0 ≡ v) × Stands (read_stream r).1 xs
unfolding read_stream
stream_read r v xs h s =
    let a =
      byte_read r (v % 256) (v / 256 % 256 ∷ v / 256 / 256 % 256 ∷ v / 256 / 256 / 256 % 256 ∷ xs)
        s in
    let r1 = (read8 r).1 in
    let b =
      byte_read r1 (v / 256 % 256) (v / 256 / 256 % 256 ∷ v / 256 / 256 / 256 % 256 ∷ xs) a.1 in
    let r2 = (read8 r1).1 in
    let c = byte_read r2 (v / 256 / 256 % 256) (v / 256 / 256 / 256 % 256 ∷ xs) b.1 in
    let r3 = (read8 r2).1 in
    let d = byte_read r3 (v / 256 / 256 / 256 % 256) xs c.1 in
    (omega (arith, a.0, b.0, c.0, d.0, h), d.1)

-- What a part of the header gives, and where it leaves the reader.
pub record Parses {ℓ} {A : Type ℓ} (result : A) (c : Channel) (xs : List ℕ)
    (make : Channel × Reader → A) : Type ℓ where
  pub left : Reader
  pub gives : result ≡ make (c, left)
  pub stands : Stands left xs

abbrev pub plainly : Channel × Reader → Channel × Reader
plainly p = p

pub size_8 :
    (c : Channel) (r : Reader) (n type : ℕ) (xs : List ℕ)
    → n < 2 ^ 24
    → Stands r (store 3 (flip24 n) ++ type ∷ xs)
    → Parses (read_size_type 8 c r) (record c { body_size = n; type = type }) xs plainly
unfolding read_size_type
size_8 c r n type xs h s =
    let a = word24_read r n (type ∷ xs) h s in
    let b = byte_read (read24 r).1 type xs a.1 in
    record {
      left = (read8 (read24 r).1).1;
      gives =
          ap (λ (m : ℕ). sized m (read8 (read24 r).1).0 (read8 (read24 r).1).1) a.0
          ∙ ap (λ (m : ℕ). sized n m (read8 (read24 r).1).1) b.0;
      stands = b.1;
    }
  where
    sized : ℕ → ℕ → Reader → Channel × Reader
    sized n type r = (record c { body_size = n; type = type }, r)

pub size_12 :
    (c : Channel) (r : Reader) (n type stream : ℕ) (xs : List ℕ)
    → n < 2 ^ 24
    → IsU32 stream
    → Stands r (store 3 (flip24 n) ++ type ∷ (store 4 stream ++ xs))
    → Parses
        (read_size_type 12 c r)
        (record c { body_size = n; type = type; stream_id = stream })
        xs
        plainly
unfolding read_size_type
size_12 c r n type stream xs h k s =
    let a = word24_read r n (type ∷ (store 4 stream ++ xs)) h s in
    let b = byte_read (read24 r).1 type (store 4 stream ++ xs) a.1 in
    let r2 = (read8 (read24 r).1).1 in
    let d = stream_read r2 stream xs k b.1 in
    record {
      left = (read_stream r2).1;
      gives =
          ap (λ (m : ℕ). sized m (read8 (read24 r).1).0 (read_stream r2).0 (read_stream r2).1) a.0
          ∙ ap (λ (m : ℕ). sized n m (read_stream r2).0 (read_stream r2).1) b.0
          ∙ ap (λ (m : ℕ). sized n type m (read_stream r2).1) d.0;
      stands = d.1;
    }
  where
    sized : ℕ → ℕ → ℕ → Reader → Channel × Reader
    sized n type stream r = (record c { body_size = n; type = type; stream_id = stream }, r)

-- The time, and the fields behind it.
abbrev pub timed : Channel → ℕ → Channel
timed c t = record c { time = t }

pub extended_none : (c : Channel) (r : Reader) → c.time < 0xffffff → read_extended c r ≡ some (c, r)
unfolding read_extended
extended_none c r h = let e : ltb c.time 0xffffff ≡ true = ground (arith, h) in rw e refl

pub extended_some :
    (c : Channel) (r : Reader) (t : ℕ) (xs : List ℕ)
    → c.time ≡ 0xffffff
    → IsU32 t
    → Stands r (store 4 (flip32 t) ++ xs)
    → Parses (read_extended c r) (timed c t) xs some
unfolding read_extended
extended_some c r t xs e h s =
    let got = word32_read r t xs h s in
    let late : ltb c.time 0xffffff ≡ false = ground (arith, e) in
    let enough : ltb (available r) 4 ≡ false =
      ground (arith, available-Stands r (store 4 (flip32 t) ++ xs) s) in
    record {
      left = (read32 r).1;
      gives =
          pick (ltb c.time 0xffffff) (ltb (available r) 4) (some (c, r)) none
            (some (timed c (read32 r).0, (read32 r).1)) late enough
          ∙ ap (λ (n : ℕ). some (timed c n, (read32 r).1)) got.0;
      stands = got.1;
    }
  where
    pick :
        (a b : Bool) (x y z : Option (Channel × Reader))
        → a ≡ false
        → b ≡ false
        → (if a then x else if b then y else z) ≡ z
    pick a b x y z e f = rw (e, f) refl
