-- ===== src/Pool/Tests.antt =====
-- Runs of `PoolBuffers`.
use mona_server.Base.{refl, true, [], ◌∷◌, All, arith}
use mona_server.Buffer.{Buffer, new}
use mona_server.Pool.{pool, clear_all, begin_buffer, end_buffer}
use mona_server.Pool.Lending.{Lends}
use mona_server.Pool.Lifetime.{
  IsUsable, State, borrow, work, give_back, empty, Reached, start, next, Reached-Lends,
}

-- A buffer of which three of the four bytes are clipped.
abbrev used : Buffer
used = record {
  clipped = 1 ∷ 2 ∷ 3 ∷ [];
  bytes = 4 ∷ [];
  offset = 3;
  size = 1;
  capacity = 1;
  owned = true;
}

used-IsUsable : IsUsable used
used-IsUsable = record {
  valid = record { fits = omega arith; backed = refl; behind = refl; total = omega arith };
  is_owned = refl;
  some_array = omega arith;
}

-- A large buffer is lent, used, and not taken back by a pool for small ones.
abbrev emptied : State
emptied = record { pool = clear_all (end_buffer (pool 16 5) used 7); lent = [] }

emptied-Reached : Reached emptied
unfolding begin_buffer pool
emptied-Reached =
    next
      (next
        (next (next (start 16 5) (borrow 20 6 (new 20) (pool 16 5) (omega arith) refl))
          (work [] [] (new 20) used refl used-IsUsable))
        (give_back [] [] used 7 refl))
      empty

Reached-Lends_example : Lends 10 (begin_buffer emptied.pool 10 8) × All IsUsable emptied.lent
Reached-Lends_example = Reached-Lends emptied 10 8 emptied-Reached (omega arith)
