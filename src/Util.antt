-- ===== src/Util.antt =====
-- `Util` of MonaBase/include/Mona/Util.h and MonaBase/sources/Util.cpp: bytes as base 64 and as
-- hexadecimal digits. A buffer or a string is the list of its bytes.
pub mod Base64
pub mod Hex
pub mod Query
mod Tests
use mona_server.Base.{
  ℕ, zero, suc, ◌+◌, ◌-◌, ◌*◌, ◌/◌, ◌%◌, ◌^◌, Bool, not, ◌&&◌, ◌||◌, List, [], ◌∷◌, ◌++◌, Option,
  none, some, ltb, leb, ◌==◌, if◌then◌else◌, length, replicate, take, get_or, bit_and, bit_or,
}
use mona_server.Base.Words.{shl32}

-- `_B64Table`: the letters, the digits, `+` and `/`.
unfoldable pub b64_table : List ℕ
b64_table =
    65 ∷ 66 ∷ 67 ∷ 68 ∷ 69 ∷ 70 ∷ 71 ∷ 72 ∷ 73 ∷ 74 ∷ 75 ∷ 76 ∷ 77 ∷ 78 ∷ 79 ∷ 80 ∷ 81 ∷ 82 ∷ 83
    ∷ 84 ∷ 85 ∷ 86 ∷ 87 ∷ 88 ∷ 89 ∷ 90 ∷ 97 ∷ 98 ∷ 99 ∷ 100 ∷ 101 ∷ 102 ∷ 103 ∷ 104 ∷ 105 ∷ 106
    ∷ 107 ∷ 108 ∷ 109 ∷ 110 ∷ 111 ∷ 112 ∷ 113 ∷ 114 ∷ 115 ∷ 116 ∷ 117 ∷ 118 ∷ 119 ∷ 120 ∷ 121 ∷ 122
    ∷ 48 ∷ 49 ∷ 50 ∷ 51 ∷ 52 ∷ 53 ∷ 54 ∷ 55 ∷ 56 ∷ 57 ∷ 43 ∷ 47 ∷ []

-- `_ReverseB64Table`, for a character below 128.
unfoldable pub reverse_b64_table : List ℕ
reverse_b64_table =
    64 ∷ 64 ∷ 64 ∷ 64 ∷ 64 ∷ 64 ∷ 64 ∷ 64 ∷ 64 ∷ 64 ∷ 64 ∷ 64 ∷ 64 ∷ 64 ∷ 64 ∷ 64 ∷ 64 ∷ 64 ∷ 64
    ∷ 64 ∷ 64 ∷ 64 ∷ 64 ∷ 64 ∷ 64 ∷ 64 ∷ 64 ∷ 64 ∷ 64 ∷ 64 ∷ 64 ∷ 64 ∷ 64 ∷ 64 ∷ 64 ∷ 64 ∷ 64 ∷ 64
    ∷ 64 ∷ 64 ∷ 64 ∷ 64 ∷ 64 ∷ 62 ∷ 64 ∷ 64 ∷ 64 ∷ 63 ∷ 52 ∷ 53 ∷ 54 ∷ 55 ∷ 56 ∷ 57 ∷ 58 ∷ 59 ∷ 60
    ∷ 61 ∷ 64 ∷ 64 ∷ 64 ∷ 64 ∷ 64 ∷ 64 ∷ 64 ∷ 0 ∷ 1 ∷ 2 ∷ 3 ∷ 4 ∷ 5 ∷ 6 ∷ 7 ∷ 8 ∷ 9 ∷ 10 ∷ 11 ∷ 12
    ∷ 13 ∷ 14 ∷ 15 ∷ 16 ∷ 17 ∷ 18 ∷ 19 ∷ 20 ∷ 21 ∷ 22 ∷ 23 ∷ 24 ∷ 25 ∷ 64 ∷ 64 ∷ 64 ∷ 64 ∷ 64 ∷ 64
    ∷ 26 ∷ 27 ∷ 28 ∷ 29 ∷ 30 ∷ 31 ∷ 32 ∷ 33 ∷ 34 ∷ 35 ∷ 36 ∷ 37 ∷ 38 ∷ 39 ∷ 40 ∷ 41 ∷ 42 ∷ 43 ∷ 44
    ∷ 45 ∷ 46 ∷ 47 ∷ 48 ∷ 49 ∷ 50 ∷ 51 ∷ 64 ∷ 64 ∷ 64 ∷ 64 ∷ 64 ∷ []

unfoldable pub b64_char : ℕ → ℕ
b64_char n = get_or b64_table (bit_and n 0x3f) 0

-- The inner loop of `ToBase64`: the characters, and the bits that are left. There are fewer than 14
-- bits, so that it ends within 3 rounds.
unfoldable pub emit : ℕ → ℕ → ℕ → List ℕ × ℕ
emit zero accumulator bits = ([], bits)
emit (suc rounds) accumulator bits =
    let (chars, left) = emit rounds accumulator (bits - 6) in
    if leb 6 bits then (b64_char (accumulator / 2 ^ (bits - 6)) ∷ chars, left) else ([], bits)

unfoldable pub to_base64_loop : List ℕ → ℕ → ℕ → List ℕ
to_base64_loop [] accumulator bits =
    if ltb 0 bits then b64_char (shl32 accumulator (6 - bits)) ∷ [] else []
to_base64_loop (byte ∷ rest) accumulator bits =
    let accumulator' = bit_or (shl32 accumulator 8) (bit_and byte 0xff) in
    let (chars, left) = emit 3 accumulator' (bits + 8) in
    chars ++ to_base64_loop rest accumulator' left

-- With `=` up to the size of the buffer.
unfoldable pub to_base64 : List ℕ → List ℕ
to_base64 bytes =
    let chars = to_base64_loop bytes 0 0 in
    chars ++ replicate ((length bytes + 2) / 3 * 4 % 2 ^ 32 - length chars) 61

unfoldable pub is_space : ℕ → Bool
is_space c = (leb 9 c && leb c 13) || (c == 32)

unfoldable pub prepend : ℕ → Option (List ℕ) → Option (List ℕ)
prepend byte none = none
prepend byte (some bytes) = some (byte ∷ bytes)

-- `FromBase64` on bytes: what the buffer has at the end, `none` where the result is false.
unfoldable pub from_base64_loop : List ℕ → ℕ → ℕ → Option (List ℕ)
from_base64_loop [] accumulator bits = some []
from_base64_loop (c ∷ rest) accumulator bits =
    let code = get_or reverse_b64_table c 64 in
    let accumulator' = bit_or (shl32 accumulator 6) code in
    let skipped = from_base64_loop rest accumulator bits in
    let waiting = from_base64_loop rest accumulator' (bits + 6) in
    let written = from_base64_loop rest accumulator' (bits + 6 - 8) in
    if is_space c || (c == 61)
    then skipped
    else if ltb 127 c || ltb 63 code
    then none
    else if leb 8 (bits + 6)
    then prepend (bit_and (accumulator' / 2 ^ (bits + 6 - 8)) 0xff) written
    else waiting

unfoldable pub from_base64 : List ℕ → Option (List ℕ)
from_base64 buffer = from_base64_loop buffer 0 0

unfoldable pub hex_digit : ℕ → ℕ
hex_digit value = if ltb 9 value then (value + 55) % 256 else (48 + value) % 256

-- `FormatHex`: the bytes from `i` on, without the upper digit of the first if `skip_left`.
unfoldable pub format_bytes : Bool → Bool → List ℕ → List ℕ
format_bytes cpp skip_left [] = []
format_bytes cpp skip_left (byte ∷ rest) =
    (if cpp then 92 ∷ 120 ∷ [] else [])
    ++ (if skip_left then [] else hex_digit (byte / 2 ^ 4) ∷ [])
    ++ hex_digit (bit_and byte 0x0f) ∷ format_bytes cpp Bool.false rest

-- The bytes that `HEX_TRIM_LEFT` leaves, and whether a digit is skipped.
unfoldable pub trim_left : List ℕ → List ℕ × Bool
trim_left [] = ([], Bool.false)
trim_left (byte ∷ rest) =
    let more = trim_left rest in
    if ltb 0 (byte / 2 ^ 4)
    then (byte ∷ rest, Bool.false)
    else if ltb 0 (bit_and byte 0x0f)
    then (byte ∷ rest, Bool.true)
    else more

-- `buffer` is what the buffer had, which stays in front with `HEX_APPEND`.
unfoldable pub format_hex : List ℕ → List ℕ → Bool → Bool → Bool → List ℕ
format_hex source buffer cpp trim append =
    let (bytes, skip_left) = if trim then trim_left source else (source, Bool.false) in
    (if append then buffer else []) ++ format_bytes cpp skip_left bytes

-- The digits as a UInt8; what is no digit wraps.
unfoldable pub unhex : ℕ → ℕ
unhex digit = (digit + 256 - (if leb digit 57 then 48 else 55)) % 256

unfoldable pub unformat_hex : List ℕ → List ℕ
unformat_hex [] = []
unformat_hex (first ∷ []) = (unhex first * 2 ^ 4) % 256 ∷ []
unformat_hex (first ∷ second ∷ rest) =
    bit_or (unhex first * 2 ^ 4 % 256) (bit_and (unhex second) 0x0f) ∷ unformat_hex rest
