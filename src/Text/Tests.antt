-- ===== src/Text/Tests.antt =====
-- Runs of `String` on a few texts.
use mona_server.Base.{◌≡◌, refl, true, false, [], ◌∷◌, some, arith}
use mona_server.Text.{split, lower, icompare}
use mona_server.Text.Split.{joined, split-joined}

-- "ab;;c" at ";" and ","
split-joined_example :
    split false false (44 ∷ 59 ∷ []) (joined 59 ((97 ∷ 98 ∷ []) ∷ [] ∷ []) (99 ∷ []))
    ≡ some ((97 ∷ 98 ∷ []) ∷ [] ∷ (99 ∷ []) ∷ [])
split-joined_example =
    split-joined 59 (44 ∷ 59 ∷ []) ((97 ∷ 98 ∷ []) ∷ [] ∷ []) (99 ∷ []) refl
      ((refl, (refl, tt)), (tt, tt)) (refl, tt) (omega arith)

-- " a , b" at "," with SPLIT_TRIM
split_trim :
    split true false (44 ∷ []) (32 ∷ 97 ∷ 32 ∷ 44 ∷ 32 ∷ 98 ∷ [])
    ≡ some ((97 ∷ []) ∷ (98 ∷ []) ∷ [])
unfolding split mona_server.Text.split_loop mona_server.Text.cut mona_server.Text.skip_spaces
    mona_server.Text.drop_spaces mona_server.Util.is_space
split_trim = refl
