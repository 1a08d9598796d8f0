-- ===== src/Pool/Lending.antt =====
-- A pool always has a buffer to lend, and what it lends is of the size asked for.
use mona_server.Base.{
  ℕ, ◌+◌, ◌<◌, ◌≡◌, ◌^◌, refl, true, false, List, [], ◌∷◌, ◌++◌, Option, some, All, ltb, ◌==◌,
  length, length-append, arith, Bool-cases, inl, inr,
}
use mona_server.Buffer.{Buffer, new, clear, resize}
use mona_server.Buffer.Shape
use mona_server.Buffer.Shape.{new-IsValid, clear-IsValid}
use mona_server.Buffer.Resize.{CanGrow, resize-Resized}
use mona_server.Trigger.{is_elapsed}
use mona_server.Pool.{Pool, without_front, begin_buffer, end_buffer}

-- A buffer that waits in the pool: empty, with room.
abbrev pub IsFree : Buffer → Type 0
IsFree b = CanGrow b × (b.size ≡ 0)

pub record IsValid (p : Pool) : Type 0 where
  pub some_buffer : 0 < length p.buffers
  pub are_free : All IsFree p.buffers

pub new-IsFree : IsFree (new 0)
unfolding new
new-IsFree =
    (record { valid = new-IsValid 0 (omega arith); is_owned = refl; some_room = omega arith }, refl)

without_front-IsValid :
    (p : Pool) (rest : List Buffer) (now : ℕ) → All IsFree rest → IsValid (without_front p rest now)
unfolding without_front
without_front-IsValid p [] now a = record { some_buffer = omega arith; are_free = (new-IsFree, tt) }
without_front-IsValid p (b ∷ rest) now a =
    let more : (length (b ∷ rest) == 0) ≡ false = ground arith in
    rw more (record { some_buffer = omega arith; are_free = a })

-- A free buffer has nothing to preserve.
resize_free : (b : Buffer) (size : ℕ) → b.size ≡ 0 → resize b size false ≡ resize b size true
unfolding resize
resize_free b size e = ground (arith, e)

pub record Lends (size : ℕ) (result : Option (Buffer × Pool)) : Type 0 where
  pub buffer : Buffer
  pub pool : Pool
  pub returns : result ≡ some (buffer, pool)
  pub can_grow : CanGrow buffer
  pub size_is : buffer.size ≡ size
  pub still_valid : IsValid pool

front_lent :
    (buffers : List Buffer) (maximum last size now : ℕ)
    → IsValid (record { buffers = buffers; maximum_capacity = maximum; last_empty = last })
    → size < 2 ^ 31
    → ltb maximum size ≡ false
    → Lends size (
        begin_buffer
          (record { buffers = buffers; maximum_capacity = maximum; last_empty = last })
          size
          now)
unfolding begin_buffer
front_lent [] maximum last size now v small e = absurd (omega (arith, v.some_buffer))
front_lent (front ∷ rest) maximum last size now v small e =
    let p : Pool = record {
      buffers = front ∷ rest;
      maximum_capacity = maximum;
      last_empty = last;
    } in
    let r = resize-Resized front size v.are_free.0.0 (omega arith) in
    elim (Bool-cases (ltb 0 size)) [
      | inl some_size ↦ record {
        buffer = r.after;
        pool = without_front p rest now;
        returns = rw (e, some_size, resize_free front size v.are_free.0.1, r.returns) refl;
        can_grow = r.grows;
        size_is = r.size_is;
        still_valid = without_front-IsValid p rest now v.are_free.1;
      }
      | inr no_size ↦ record {
        buffer = front;
        pool = without_front p rest now;
        returns = rw (e, no_size) refl;
        can_grow = v.are_free.0.0;
        size_is = ground (arith, v.are_free.0.1, no_size);
        still_valid = without_front-IsValid p rest now v.are_free.1;
      }
    ]

new_lent :
    (p : Pool) (size now : ℕ)
    → IsValid p
    → size < 2 ^ 31
    → ltb p.maximum_capacity size ≡ true
    → Lends size (begin_buffer p size now)
unfolding begin_buffer new
new_lent p size now v small e = record {
  buffer = new size;
  pool = p;
  returns = rw e refl;
  can_grow = record {
    valid = new-IsValid size (omega arith);
    is_owned = refl;
    some_room = ground arith;
  };
  size_is = refl;
  still_valid = v;
}

-- A valid pool, which has a buffer and where every buffer that waits is empty with room to grow,
-- is asked for fewer than 2 ^ 31 bytes: `beginBuffer` returns, it never takes from an empty pool,
-- its buffer has that size and can grow, and the pool is still valid.
pub begin_buffer-Lends :
    (p : Pool) (size now : ℕ) → IsValid p → size < 2 ^ 31 → Lends size (begin_buffer p size now)
begin_buffer-Lends p size now v small = elim (Bool-cases (ltb p.maximum_capacity size)) [
  | inl large ↦ new_lent p size now v small large
  | inr fits ↦ front_lent p.buffers p.maximum_capacity p.last_empty size now v small fits
]

clear-IsFree :
    (b : Buffer) → Shape.IsValid b → b.owned ≡ true → 0 < b.offset + b.capacity → IsFree (clear b)
unfolding clear
clear-IsFree b v own room = (
  record {
    valid = clear-IsValid b v;
    is_owned = ground (arith, own);
    some_room = ground (arith, v.total, room);
  },
  ground arith,
)

All-append : (xs : List Buffer) (b : Buffer) → All IsFree xs → IsFree b → All IsFree (xs ++ b ∷ [])
All-append [] b a f = (f, tt)
All-append (x ∷ xs) b a f = (a.0, All-append xs b a.1 f)

-- A pool that is valid stays so when `endBuffer` takes back any valid buffer that owns an array of
-- some length, clipped or not.
pub end_buffer-IsValid :
    (p : Pool) (b : Buffer) (now : ℕ)
    → IsValid p
    → Shape.IsValid b
    → b.owned ≡ true
    → 0 < b.offset + b.capacity
    → IsValid (end_buffer p b now)
unfolding end_buffer
end_buffer-IsValid p b now v valid own room =
    elim (Bool-cases (ltb p.maximum_capacity b.capacity)) [
      | inl large ↦ rw large v
      | inr fits ↦ elim (Bool-cases (is_elapsed now p.last_empty 120000)) [
        | inl old ↦ rw (fits, old) (record { some_buffer = v.some_buffer; are_free = v.are_free })
        | inr recent ↦
            rw (fits, recent)
              (record {
                some_buffer = omega (arith, length-append p.buffers (clear b ∷ []));
                are_free =
                    All-append p.buffers (clear b) v.are_free (clear-IsFree b valid own room);
              })
      ]
    ]
