-- ===== src/Util/Hex.antt =====
-- Bytes that `FormatHex` writes are those that `UnformatHex` reads.
use mona_server.Base.{
  ℕ, ◌*◌, ◌/◌, ◌%◌, ◌^◌, ◌<◌, ◌≡◌, refl, false, List, [], ◌∷◌, All, arith, bit_and, bit_or,
}
use mona_server.Base.Bits.{bit_and-low, bit_or-add}
use mona_server.Base.Words.{IsByte}
use mona_server.Util.{hex_digit, unhex, format_bytes, format_hex, unformat_hex}

unhex-hex_digit : (v : ℕ) → v < 16 → unhex (hex_digit v) ≡ v
unfolding unhex hex_digit
unhex-hex_digit v h = ground arith

unformat_byte :
    (byte : ℕ)
    → IsByte byte
    → bit_or
        (unhex (hex_digit (byte / 2 ^ 4)) * 2 ^ 4 % 256)
        (bit_and (unhex (hex_digit (bit_and byte 0x0f))) 0x0f)
      ≡ byte
unformat_byte byte h =
    let high = unhex-hex_digit (byte / 16) (omega arith) in
    let low = unhex-hex_digit (byte % 16) (omega arith) in
    let mask = bit_and-low 4 byte in
    let mask' = bit_and-low 4 (byte % 16) in
    let whole : byte / 16 * 16 % 256 ≡ byte / 16 * 16 = omega arith in
    rw (mask, high, low, mask', whole)
      (omega (arith, bit_or-add 4 (byte / 16) (byte % 16 % 16) (omega arith)))

unformat-format_bytes :
    (bytes : List ℕ) → All IsByte bytes → unformat_hex (format_bytes false false bytes) ≡ bytes
unfolding unformat_hex format_bytes
unformat-format_bytes [] a = refl
unformat-format_bytes (byte ∷ rest) a =
    rw (unformat_byte byte a.0, unformat-format_bytes rest a.1) refl

-- What `FormatHex` writes of any bytes without an option is read back by `UnformatHex`.
unformat_hex-format_hex :
    (bytes buffer : List ℕ)
    → All IsByte bytes
    → unformat_hex (format_hex bytes buffer false false false) ≡ bytes
unfolding format_hex
unformat_hex-format_hex bytes buffer a = unformat-format_bytes bytes a
