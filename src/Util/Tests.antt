-- ===== src/Util/Tests.antt =====
-- Runs of `Util` on a few bytes.
use mona_server.Base.{
  ℕ, ◌+◌, ◌*◌, ◌/◌, ◌≡◌, refl, false, true, List, [], ◌∷◌, ◌++◌, none, some, length, arith,
}
use mona_server.Util.{to_base64, from_base64, format_hex, unformat_hex}
use mona_server.Util.Base64.{from_base64-to_base64}
use mona_server.Util.Query.{unpack_query, decode_uri}
use mona_server.Util.Query.Pairs.{joined, unpack_query-joined, unpack_query_hangs}

-- "Mona"
abbrev mona : List ℕ
mona = 77 ∷ 111 ∷ 110 ∷ 97 ∷ []

mona_in_base64 : to_base64 mona ≡ 84 ∷ 87 ∷ 57 ∷ 117 ∷ 89 ∷ 81 ∷ 61 ∷ 61 ∷ []
unfolding to_base64 mona_server.Util.to_base64_loop mona_server.Util.emit mona_server.Util.b64_char
    mona_server.Util.b64_table
mona_in_base64 = refl

from_base64-to_base64_example :
    (from_base64 (to_base64 mona) ≡ some mona)
    × (length (to_base64 mona) ≡ (length mona + 2) / 3 * 4)
from_base64-to_base64_example =
    from_base64-to_base64 mona (omega arith, (omega arith, (omega arith, (omega arith, tt))))
      (omega arith)

-- A byte of one digit after a trim is read with another digit behind.
trimmed : unformat_hex (format_hex (10 ∷ []) [] false true false) ≡ 160 ∷ []
unfolding unformat_hex format_hex mona_server.Util.trim_left mona_server.Util.format_bytes
    mona_server.Util.hex_digit mona_server.Util.unhex
trimmed = refl

-- "%41" is not decoded.
percent : decode_uri 37 ≡ 37
unfolding decode_uri
percent = refl

-- "id=7&on="
unpack_query-joined_example :
    unpack_query 3 (joined ((105 ∷ 100 ∷ [], 55 ∷ []) ∷ (111 ∷ 110 ∷ [], []) ∷ []))
    ≡ some ((105 ∷ 100 ∷ [], 55 ∷ []) ∷ (111 ∷ 110 ∷ [], []) ∷ [])
unpack_query-joined_example =
    unpack_query-joined ((105 ∷ 100 ∷ [], 55 ∷ []) ∷ (111 ∷ 110 ∷ [], []) ∷ []) (
      (
        (
          (λ e. omega (arith, e), λ e. omega (arith, e), λ e. omega (arith, e), refl),
          ((λ e. omega (arith, e), λ e. omega (arith, e), λ e. omega (arith, e), refl), tt),
        ),
        ((λ e. omega (arith, e), λ e. omega (arith, e), λ e. omega (arith, e), refl), tt),
      ),
      (
        (
          (
            (λ e. omega (arith, e), λ e. omega (arith, e), λ e. omega (arith, e), refl),
            ((λ e. omega (arith, e), λ e. omega (arith, e), λ e. omega (arith, e), refl), tt),
          ),
          tt,
        ),
        tt,
      ),
    )

-- "a&b=1"
unpack_query_hangs_example : unpack_query 100 ((97 ∷ []) ++ (38 ∷ 98 ∷ 61 ∷ 49 ∷ [])) ≡ none
unpack_query_hangs_example =
    unpack_query_hangs 100 (97 ∷ []) (98 ∷ 61 ∷ 49 ∷ [])
      ((λ e. omega (arith, e), λ e. omega (arith, e), λ e. omega (arith, e), refl), tt)
