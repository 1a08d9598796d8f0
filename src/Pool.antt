-- ===== src/Pool.antt =====
-- `PoolBuffers` of MonaBase/include/Mona/PoolBuffers.h and MonaBase/sources/PoolBuffers.cpp: buffers
-- that are lent and taken back. `now` is the clock; a step is what runs under the lock.
pub mod Lending
pub mod Lifetime
mod Tests
use mona_server.Base.{
  ℕ, Bool, List, [], ◌∷◌, ◌++◌, Option, none, some, ltb, ◌==◌, if◌then◌else◌, ◌>>=◌, length,
}
use mona_server.Buffer.{Buffer, new, clear, resize}
use mona_server.Trigger.{is_elapsed}

pub record Pool : Type 0 where
  pub buffers : List Buffer
  pub maximum_capacity : ℕ
  pub last_empty : ℕ

-- The constructor, and `clear` but for the destructor.
unfoldable pub pool : ℕ → ℕ → Pool
pool maximum_capacity now = record {
  buffers = new 0 ∷ [];
  maximum_capacity = maximum_capacity;
  last_empty = now;
}

unfoldable pub clear_all : Pool → Pool
clear_all p = record p { buffers = new 0 ∷ [] }

-- The pool without its first buffer: never empty.
unfoldable pub without_front : Pool → List Buffer → ℕ → Pool
without_front p rest now =
    if length rest == 0
    then record p { buffers = new 0 ∷ []; last_empty = now }
    else record p { buffers = rest }

-- `beginBuffer`; `none` is a pool without a buffer, or a call that never returns.
unfoldable pub begin_buffer : Pool → ℕ → ℕ → Option (Buffer × Pool)
begin_buffer p size now =
    if ltb p.maximum_capacity size then some (new size, p) else elim p.buffers [
      | [] ↦ none
      | front ∷ rest ↦
          let sized = (do
            (_, b) ← resize front size Bool.false
            some (b, without_front p rest now)) in
          if ltb 0 size then sized else some (front, without_front p rest now)
    ]

unfoldable pub end_buffer : Pool → Buffer → ℕ → Pool
end_buffer p b now =
    if ltb p.maximum_capacity b.capacity
    then p
    else if is_elapsed now p.last_empty 120000
    then record p { last_empty = now }
    else record p { buffers = p.buffers ++ clear b ∷ [] }
