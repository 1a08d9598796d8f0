-- ===== src/Buffer/Tests.antt =====
-- Runs of `Buffer` on small arrays.
use mona_server.Base.{◌≡◌, refl, true, [], ◌∷◌, some, none, ℕ, arith}
use mona_server.Buffer.{Buffer, contents, new, over, clip_by, clip, double, resize}
use mona_server.Buffer.Shape.{IsValid, over-IsValid, new-IsValid}
use mona_server.Buffer.Resize.{CanGrow, Resized, resize-Resized, resize_hangs}

abbrev five : Buffer
five = over (1 ∷ 2 ∷ 3 ∷ 4 ∷ 5 ∷ [])

five-IsValid : IsValid five
five-IsValid = over-IsValid (1 ∷ 2 ∷ 3 ∷ 4 ∷ 5 ∷ []) (omega arith)

abbrev small : Buffer
small = new 3

small-CanGrow : CanGrow small
unfolding new
small-CanGrow = record {
  valid = new-IsValid 3 (omega arith);
  is_owned = refl;
  some_room = omega arith;
}

clip_moves : contents (clip five 2) ≡ 3 ∷ 4 ∷ 5 ∷ []
unfolding over clip clip_by
clip_moves = refl

resize_doubles :
    resize small 7 true
    ≡ some (
      true,
      record {
        clipped = [];
        bytes = 0 ∷ 0 ∷ 0 ∷ 0 ∷ 0 ∷ 0 ∷ 0 ∷ 0 ∷ 0 ∷ 0 ∷ 0 ∷ 0 ∷ [];
        offset = 0;
        size = 7;
        capacity = 12;
        owned = true;
      },
    )
unfolding new resize double
resize_doubles = refl

resize-Resized_example : Resized small 100 (resize small 100 true)
resize-Resized_example = resize-Resized small 100 small-CanGrow (omega arith)

-- The capacity is used up by `clip`.
abbrev used_up : Buffer
used_up = clip small 3

resize_hangs_example :
    (resize used_up 4 true ≡ none) × ((fuel : ℕ) → double fuel used_up.capacity 4 ≡ none)
unfolding new clip clip_by
resize_hangs_example = resize_hangs used_up 4 true refl refl (omega arith)
