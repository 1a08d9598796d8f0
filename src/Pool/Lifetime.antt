-- ===== src/Pool/Lifetime.antt =====
-- `PoolBuffers` and the buffers that it has lent, over any sequence of calls.
use mona_server.Base.{
  ℕ, ◌+◌, ◌^◌, ◌<◌, ◌≡◌, sym, ◌∙◌, subst, true, List, [], ◌∷◌, ◌++◌, some, All, arith,
}
use mathlib.Core.Option.{some_inj}
use mona_server.Buffer.{Buffer}
use mona_server.Buffer.Shape
use mona_server.Pool.{Pool, pool, clear_all, begin_buffer, end_buffer}
use mona_server.Pool.Lending.{IsValid, Lends, new-IsFree, begin_buffer-Lends, end_buffer-IsValid}

-- A buffer that owns an array of some length, clipped or not.
pub record IsUsable (b : Buffer) : Type 0 where
  pub valid : Shape.IsValid b
  pub is_owned : b.owned ≡ true
  pub some_array : 0 < b.offset + b.capacity

pub record State : Type 0 where
  pub pool : Pool
  pub lent : List Buffer

-- A call of the pool, or what a borrower makes of its buffer.
pub data Step : State → State → Type 0 where
  borrow :
      {s : State} (size now : ℕ) (b : Buffer) (p : Pool)
      → size < 2 ^ 31
      → begin_buffer s.pool size now ≡ some (b, p)
      → Step s (record { pool = p; lent = b ∷ s.lent })
  work :
      {s : State} (before after : List Buffer) (b b' : Buffer)
      → s.lent ≡ before ++ b ∷ after
      → IsUsable b'
      → Step s (record { pool = s.pool; lent = before ++ b' ∷ after })
  give_back :
      {s : State} (before after : List Buffer) (b : Buffer) (now : ℕ)
      → s.lent ≡ before ++ b ∷ after
      → Step s (record { pool = end_buffer s.pool b now; lent = before ++ after })
  empty : {s : State} → Step s (record { pool = clear_all s.pool; lent = s.lent })

-- What a new pool comes to.
pub data Reached : State → Type 0 where
  start :
      (maximum_capacity now : ℕ) → Reached (record { pool = pool maximum_capacity now; lent = [] })
  next : {s t : State} → Reached s → Step s t → Reached t

record Sound (s : State) : Type 0 where
  valid : IsValid s.pool
  usable : All IsUsable s.lent

append_lent :
    (before after : List Buffer)
    → All IsUsable before
    → All IsUsable after
    → All IsUsable (before ++ after)
append_lent [] after a c = c
append_lent (b ∷ before) after a c = (a.0, append_lent before after a.1 c)

before_lent : (before after : List Buffer) → All IsUsable (before ++ after) → All IsUsable before
before_lent [] after a = tt
before_lent (b ∷ before) after a = (a.0, before_lent before after a.1)

after_lent : (before after : List Buffer) → All IsUsable (before ++ after) → All IsUsable after
after_lent [] after a = a
after_lent (b ∷ before) after a = after_lent before after a.1

borrow-Sound :
    (s : State) (size now : ℕ) (b : Buffer) (p : Pool)
    → size < 2 ^ 31
    → begin_buffer s.pool size now ≡ some (b, p)
    → Sound s
    → Sound (record { pool = p; lent = b ∷ s.lent })
borrow-Sound s size now b p small e i =
    let l = begin_buffer-Lends s.pool size now i.valid small in
    let g = l.can_grow in
    let same : (l.buffer, l.pool) ≡ (b, p) = some_inj.0 (sym l.returns ∙ e) in
    subst (λ (q : Buffer × Pool). Sound (record { pool = q.1; lent = q.0 ∷ s.lent })) same
      (record {
        valid = l.still_valid;
        usable = (
          record {
            valid = g.valid;
            is_owned = g.is_owned;
            some_array = omega (arith, g.some_room);
          },
          i.usable,
        );
      })

Step-Sound : {s t : State} → Step s t → Sound s → Sound t
unfolding clear_all
Step-Sound {s} {t} (borrow size now b p small e) i = borrow-Sound s size now b p small e i
Step-Sound {s} {t} (work before after b b' e u) i =
    let all = subst (All IsUsable) e i.usable in
    record {
      valid = i.valid;
      usable =
          append_lent before (b' ∷ after) (before_lent before (b ∷ after) all)
            (u, (after_lent before (b ∷ after) all).1);
    }
Step-Sound {s} {t} (give_back before after b now e) i =
    let all = subst (All IsUsable) e i.usable in
    let rest = after_lent before (b ∷ after) all in
    let u = rest.0 in
    record {
      valid = end_buffer-IsValid s.pool b now i.valid u.valid u.is_owned u.some_array;
      usable = append_lent before after (before_lent before (b ∷ after) all) rest.1;
    }
Step-Sound {s} {t} (empty) i = record {
  valid = record { some_buffer = omega arith; are_free = (new-IsFree, tt) };
  usable = i.usable;
}

Reached-Sound : {s : State} → Reached s → Sound s
unfolding pool
Reached-Sound {s} (start maximum_capacity now) = record {
  valid = record { some_buffer = omega arith; are_free = (new-IsFree, tt) };
  usable = tt;
}
Reached-Sound (next r step) = Step-Sound step (Reached-Sound r)

-- From a new pool come, in any order, `beginBuffer` for fewer than 2 ^ 31 bytes, `endBuffer` of a
-- lent buffer, `clear`, and borrowers who make any valid buffer with an array of some length of
-- theirs. Whatever they come to, `beginBuffer` for fewer than 2 ^ 31 bytes returns, never from an
-- empty pool; its buffer has that size and can grow, the pool still has a buffer and all that wait
-- are empty with room to grow, and all that are lent are valid and own their arrays.
pub Reached-Lends :
    (s : State) (size now : ℕ)
    → Reached s
    → size < 2 ^ 31
    → Lends size (begin_buffer s.pool size now) × All IsUsable s.lent
Reached-Lends s size now r small =
    let i = Reached-Sound r in (begin_buffer-Lends s.pool size now i.valid small, i.usable)
