-- ===== src/Text.antt =====
-- `String` of MonaBase/include/Mona/String.h and MonaBase/sources/String.cpp. A text is the list of
-- its bytes, and `isspace` and `tolower` are those of the C locale. In `icompare` the null byte
-- behind a text is what is read at its end.
pub mod Split
pub mod Compare
mod Tests
use mona_server.Base.{
  ℕ, zero, suc, ◌+◌, ◌-◌, Bool, true, false, not, ◌&&◌, ◌||◌, List, [], ◌∷◌, Option, none, some,
  ltb, leb, ◌==◌, if◌then◌else◌, ◌>>=◌, length, drop, map,
}
use mona_server.Base.Integers.{ℤ, pos, ◌-ℤ◌}
use mona_server.Util.{is_space}

unfoldable pub skip_spaces : List ℕ → List ℕ
skip_spaces [] = []
skip_spaces (c ∷ rest) = if is_space c then skip_spaces rest else c ∷ rest

-- Without the spaces at the end.
unfoldable pub drop_spaces : List ℕ → List ℕ
drop_spaces [] = []
drop_spaces (c ∷ rest) =
    let kept = drop_spaces rest in if (length kept == 0) && is_space c then [] else c ∷ kept

-- `Trim` with the bits of its option.
unfoldable pub trim : Bool → Bool → List ℕ → List ℕ
trim left right value =
    let last = if right then drop_spaces value else value in if left then skip_spaces last else last

unfoldable pub to_lower : ℕ → ℕ
to_lower c = if leb 65 c && leb c 90 then c + 32 else c

unfoldable pub lower : List ℕ → List ℕ
lower value = map to_lower value

abbrev pub is_in : ℕ → List ℕ → Bool
is_in c [] = false
is_in c (d ∷ rest) = (c == d) || is_in c rest

-- Up to a separator, and from it on.
unfoldable pub cut : List ℕ → List ℕ → List ℕ × List ℕ
cut separators [] = ([], [])
cut separators (c ∷ rest) =
    let (token, left) = cut separators rest in
    if is_in c separators then ([], c ∷ rest) else (c ∷ token, left)

-- `Split` with SPLIT_TRIM and SPLIT_IGNORE_EMPTY: what is added to the values.
unfoldable pub split_loop : ℕ → Bool → Bool → List ℕ → List ℕ → Option (List (List ℕ))
split_loop zero trims ignores separators value = none
split_loop (suc fuel) trims ignores separators [] = some []
split_loop (suc fuel) trims ignores separators (c ∷ rest) = do
  let (whole, left) = cut separators (if trims then skip_spaces (c ∷ rest) else c ∷ rest)
  let token = if trims then drop_spaces whole else whole
  values ← split_loop fuel trims ignores separators (drop 1 left)
  some (if ignores && (length token == 0) then values else token ∷ values)

unfoldable pub split : Bool → Bool → List ℕ → List ℕ → Option (List (List ℕ))
split trims ignores separators value =
    split_loop (suc (length value)) trims ignores separators value

-- `ICompare` of two texts; a size of none is `npos`.
abbrev pub head : List ℕ → ℕ
head [] = 0
head (c ∷ rest) = c

abbrev pub less_one : Option ℕ → Option ℕ
less_one none = none
less_one (some n) = some (n - 1)

abbrev pub is_zero : Option ℕ → Bool
is_zero none = false
is_zero (some n) = n == 0

unfoldable pub icompare : List ℕ → List ℕ → Option ℕ → ℤ
icompare [] value2 size = if is_zero size then pos 0 else pos 0 -ℤ pos (to_lower (head value2))
icompare (c ∷ rest) value2 size =
    let f = to_lower c in
    let l = to_lower (head value2) in
    let more = icompare rest (drop 1 value2) (less_one size) in
    if is_zero size then pos 0 else if not (f == 0) && (f == l) then more else pos f -ℤ pos l
