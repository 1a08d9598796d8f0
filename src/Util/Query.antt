-- ===== src/Util/Query.antt =====
-- `Util::UnpackQuery` and `Util::DecodeURI` of MonaBase/sources/Util.cpp. The result is the list of
-- the calls of `setString`; `none` means that the loop never ends.
pub mod Pairs
use mona_server.Base.{
  ℕ, zero, suc, ◌+◌, ◌-◌, ◌*◌, ◌%◌, Bool, ◌&&◌, ◌||◌, List, [], ◌∷◌, Option, none, some, leb, ◌==◌,
  if◌then◌else◌, drop,
}

abbrev pub hex_value : ℕ → Option ℕ
hex_value c =
    if leb 48 c && leb c 57
    then some (c - 48)
    else if leb 65 c && leb c 70
    then some (c - 65 + 10)
    else if leb 97 c && leb c 102
    then some (c - 97 + 10)
    else none

-- `DecodeURI` at the character `c`. Both digits are read there, as `it` does not move.
unfoldable pub decode_uri : ℕ → ℕ
decode_uri c = elim (hex_value c) [
  | none ↦ 37
  | some high ↦ elim (hex_value c) [ none ↦ 37 | some low ↦ (high * 16 + low) % 256 ]
]

-- The character that is added for `c`.
unfoldable pub decoded : ℕ → ℕ
decoded c = if c == 43 then 32 else if c == 37 then decode_uri c else c

-- The loops over a name, which also ends at `=`, and over a value: what is read, and the rest.
unfoldable pub read_part : Bool → List ℕ → List ℕ × List ℕ
read_part is_name [] = ([], [])
read_part is_name (c ∷ rest) =
    let (text, left) = read_part is_name rest in
    if (is_name && (c == 61)) || (c == 38) then ([], c ∷ rest) else (decoded c ∷ text, left)

unfoldable pub read_value : List ℕ → List ℕ × List ℕ
read_value [] = ([], [])
read_value (c ∷ rest) =
    let (value, left) = read_part Bool.false rest in
    if c == 38 then ([], c ∷ rest) else (value, drop 1 left)

unfoldable pub with_property :
    List ℕ × List ℕ → Option (List (List ℕ × List ℕ)) → Option (List (List ℕ × List ℕ))
with_property p none = none
with_property p (some properties) = some (p ∷ properties)

unfoldable pub unpack_query : ℕ → List ℕ → Option (List (List ℕ × List ℕ))
unpack_query zero query = none
unpack_query (suc fuel) [] = some []
unpack_query (suc fuel) (c ∷ rest) =
    let (name, after_name) = read_part Bool.true (c ∷ rest) in
    let (value, left) = read_value after_name in
    with_property (name, value) (unpack_query fuel left)
