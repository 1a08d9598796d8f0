-- ===== src/Util/Query/Pairs.antt =====
-- What `UnpackQuery` makes of a query of names and values, and of a name without `=`.
use mona_server.Base.{
  ℕ, zero, suc, ◌≡◌, ◌≢◌, refl, sym, ap, ◌∙◌, Bool, true, false, ◌&&◌, ◌||◌, List, [], ◌∷◌, ◌++◌,
  Option, none, some, All, ◌==◌, if◌then◌else◌, length, drop, arith, append-nil,
}
use mona_server.Util.Query.{decode_uri, decoded, read_part, read_value, with_property, unpack_query}

-- A character that stands for itself: neither `&`, `+`, `%` nor, in a name, `=`.
abbrev pub IsPlain : Bool → ℕ → Type 0
IsPlain is_name c = (c ≢ 38) × (c ≢ 43) × (c ≢ 37) × ((is_name && (c == 61)) ≡ false)

-- The query of the names and their values, with `=` and `&` between.
abbrev pub joined : List (List ℕ × List ℕ) → List ℕ
joined [] = []
joined (p ∷ []) = p.0 ++ (61 ∷ p.1)
joined (p ∷ q ∷ rest) = p.0 ++ (61 ∷ (p.1 ++ (38 ∷ joined (q ∷ rest))))

abbrev pub ArePlain : List ℕ × List ℕ → Type 0
ArePlain p = All (IsPlain true) p.0 × All (IsPlain false) p.1

-- Where a part ends: at the end of the query, or at a character that ends it.
abbrev ends : Bool → List ℕ → Bool
ends is_name [] = true
ends is_name (c ∷ rest) = (is_name && (c == 61)) || (c == 38)

read_part-plain :
    (is_name : Bool) (text rest : List ℕ)
    → All (IsPlain is_name) text
    → ends is_name rest ≡ true
    → read_part is_name (text ++ rest) ≡ (text, rest)
unfolding read_part decoded
read_part-plain is_name [] [] a e = refl
read_part-plain is_name [] (c ∷ rest) a e = rw e refl
read_part-plain is_name (c ∷ text) rest a e =
    let more = read_part-plain is_name text rest a.1 e in
    let inside : ((is_name && (c == 61)) || (c == 38)) ≡ false = ground (arith, a.0) in
    let itself : (if c == 43 then 32 else if c == 37 then decode_uri c else c) ≡ c =
      ground (arith, a.0) in
    rw (more, inside, itself) refl

-- What a round of `unpack_query` does with what `read_part` leaves of the query.
abbrev after_name : ℕ → List ℕ × List ℕ → Option (List (List ℕ × List ℕ))
after_name fuel r = with_property (r.0, (read_value r.1).0) (unpack_query fuel (read_value r.1).1)

round_is :
    (fuel : ℕ) (name : List ℕ) (c : ℕ) (tail : List ℕ)
    → All (IsPlain true) name
    → ends true (c ∷ tail) ≡ true
    → unpack_query (suc fuel) (name ++ (c ∷ tail)) ≡ after_name fuel (name, c ∷ tail)
unfolding unpack_query
round_is fuel [] c tail a e = ap (after_name fuel) (read_part-plain true [] (c ∷ tail) a e)
round_is fuel (d ∷ name) c tail a e =
    ap (after_name fuel) (read_part-plain true (d ∷ name) (c ∷ tail) a e)

-- One property at the front, the name and the value plain.
unpack_one :
    (fuel : ℕ) (name value rest : List ℕ)
    → All (IsPlain true) name
    → All (IsPlain false) value
    → ends false rest ≡ true
    → unpack_query (suc fuel) (name ++ (61 ∷ (value ++ rest)))
      ≡ with_property (name, value) (unpack_query fuel (drop 1 rest))
unfolding read_value
unpack_one fuel name value rest an av e =
    round_is fuel name 61 (value ++ rest) an refl
    ∙ ap (λ (r : List ℕ × List ℕ). with_property (name, r.0) (unpack_query fuel (drop 1 r.1)))
        (read_part-plain false value rest av e)

-- A query of any number of names and values, joined by `=` and `&`, where no character is `&`, `+`
-- or `%` and none of a name is `=`: `UnpackQuery` returns and sets exactly these properties, in
-- order.
pub unpack_query-joined :
    (pairs : List (List ℕ × List ℕ))
    → All ArePlain pairs
    → unpack_query (suc (length pairs)) (joined pairs) ≡ some pairs
unfolding unpack_query with_property
unpack_query-joined [] a = refl
unpack_query-joined (p ∷ []) a =
    ap (λ (v : List ℕ). unpack_query 2 (p.0 ++ (61 ∷ v))) (sym (append-nil p.1))
    ∙ unpack_one 1 p.0 p.1 [] a.0.0 a.0.1 refl
unpack_query-joined (p ∷ q ∷ rest) a =
    unpack_one (suc (length (q ∷ rest))) p.0 p.1 (38 ∷ joined (q ∷ rest)) a.0.0 a.0.1 refl
    ∙ ap (with_property p) (unpack_query-joined (q ∷ rest) a.1)

-- A query that starts with a name, without `=`, `+`, `%` or `&`, and an `&` behind it:
-- `UnpackQuery` never returns, as no number of rounds ends its loop.
pub unpack_query_hangs :
    (fuel : ℕ) (name rest : List ℕ)
    → All (IsPlain true) name
    → unpack_query fuel (name ++ (38 ∷ rest)) ≡ none
unfolding read_value with_property unpack_query
unpack_query_hangs zero name rest a = refl
unpack_query_hangs (suc fuel) name rest a =
    round_is fuel name 38 rest a refl
    ∙ ap (with_property (name, [])) (unpack_query_hangs fuel [] rest tt)
