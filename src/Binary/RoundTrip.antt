-- ===== src/Binary/RoundTrip.antt =====
-- What `BinaryWriter` writes, `BinaryReader` reads back: words, texts and the 7-bit encodings.
pub mod Words
pub mod Seven
pub mod Encoded
pub mod Survival
use mona_server.Base.{ℕ, ◌≤◌, length, ◌≡◌, Bool, List, ◌++◌, Option}
use mona_server.Binary.Reader.{Reader}
use mona_server.Binary.Reader.Rest.{At}
use mona_server.Binary.Writer.{Writer}
use mona_server.Binary.Writer.Appends.{Writes}

-- A read that gives `v` and leaves `tail`.
abbrev pub Reads {ℓ} : {A : Type ℓ} → A → List ℕ → A × Reader → Type ℓ
Reads v tail result = (result.0 ≡ v) × At result.1 tail

-- Some bytes are what `write` appends to any growable writer, and any reader of the same byte order
-- that is at those bytes reads `v` from them and is then behind them.
pub record RoundTrips {ℓ} {A : Type ℓ} (flip : Bool) (write : Writer → Option Writer)
    (read : Reader → A × Reader) (v : A) : Type ℓ where
  pub encoding : List ℕ
  pub short : length encoding ≤ 16
  pub writes : Writes flip write encoding
  pub reads :
      (r : Reader) (tail : List ℕ)
      → r.flip_bytes ≡ flip
      → At r (encoding ++ tail)
      → Reads v tail (read r)
