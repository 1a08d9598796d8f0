-- ===== src/Buffer/Resize.antt =====
-- `Buffer::resize`: when it returns, what it keeps, and when it loops for ever.
use mona_server.Base.{
  ℕ, zero, suc, ◌-◌, ◌*◌, ◌%◌, ◌^◌, ◌≤◌, ◌<◌, ◌≡◌, refl, ap, inl, inr, Bool, true, false, [], take,
  replicate, length, Option, none, some, leb, ltb, Bool-cases, arith, length-append,
  length-replicate, take-append_length, take-zero, lt→ltb, min,
}
use native.Mathlib.Nat.{pow-suc}
use mona_server.Base.Words.{IsU32}
use mona_server.Buffer.{Buffer, contents, double, moved, resize}
use mona_server.Buffer.Shape.{IsValid, length-contents}

-- From a capacity that is not 0, below 2 ^ 32, the loop ends within 32 rounds.
double_reaches :
    (k capacity size : ℕ)
    → 0 < capacity
    → size ≤ 2 ^ 31
    → size ≤ capacity * 2 ^ k
    → capacity < size
    → (c : ℕ) × (double k capacity size ≡ some c) × (size ≤ c) × IsU32 c
unfolding double
double_reaches zero capacity size pos low reach below = absurd (omega arith)
double_reaches (suc k) capacity size pos low reach below =
    elim (Bool-cases (ltb (capacity * 2 % 2 ^ 32) size)) [
      | inl more ↦ rw more (
          double_reaches k (capacity * 2 % 2 ^ 32) size (ground arith) low
            (ground (arith, pow-suc 2 k, doubled, fits)) (ground arith))
      | inr done ↦ rw done (capacity * 2 % 2 ^ 32, refl, ground arith, omega arith)
    ]
  where
    fits : capacity * 2 % 2 ^ 32 ≡ capacity * 2
    fits = omega arith

    doubled : capacity * 2 ^ suc k ≡ capacity * 2 * 2 ^ k
    doubled = omega (arith, ap (λ (t : ℕ). capacity * t) (pow-suc 2 k))

-- From 0 the loop never gets anywhere.
double-zero : (fuel size : ℕ) → 0 < size → double fuel 0 size ≡ none
unfolding double
double-zero zero size h = refl
double-zero (suc fuel) size h = rw (lt→ltb 0 size h) (double-zero fuel size h)

-- A buffer that can grow: it owns its array, which is not empty.
pub record CanGrow (b : Buffer) : Type 0 where
  pub valid : IsValid b
  pub is_owned : b.owned ≡ true
  pub some_room : 0 < b.capacity

-- What a successful, preserving `resize` leaves.
pub record Resized (b : Buffer) (size : ℕ) (r : Option (Bool × Buffer)) : Type 0 where
  pub after : Buffer
  pub returns : r ≡ some (true, after)
  pub grows : CanGrow after
  pub size_is : after.size ≡ size
  pub keeps : take b.size after.bytes ≡ contents b

take-moved :
    (b : Buffer) (c : ℕ) → IsValid b → b.size ≤ c → take b.size (moved b true c) ≡ contents b
take-moved b c v h = ground (
  arith,
  take-append_length (contents b) (replicate (c - b.size) 0),
  length-contents b v,
  take-zero {A = ℕ} b.size (replicate c 0),
  take-zero b.size b.bytes,
)

length-moved : (b : Buffer) (c : ℕ) → IsValid b → b.size ≤ c → length (moved b true c) ≡ c
length-moved b c v h =
    let zero_byte : ℕ = 0 in
    ground (
      arith,
      length-contents b v,
      length-append (contents b) (replicate (c - b.size) 0),
      length-replicate (c - b.size) zero_byte,
      length-replicate c zero_byte,
    )

abbrev grown : Buffer → ℕ → ℕ → Buffer
grown b size c = record {
  clipped = [];
  bytes = moved b true c;
  offset = 0;
  size = size;
  capacity = c;
  owned = true;
}

-- Of a valid buffer that owns an array with some room, to any size up to 2 ^ 31: the preserving
-- `resize` returns true, the buffer can still grow, has that size, and its first bytes are those
-- that were in use.
pub resize-Resized :
    (b : Buffer) (size : ℕ) → CanGrow b → size ≤ 2 ^ 31 → Resized b size (resize b size true)
unfolding resize
resize-Resized b size g low = elim (Bool-cases (leb size b.capacity)) [
  | inl fits ↦ record {
    after = record b { size = size };
    returns = ground arith;
    grows = ground arith;
    size_is = refl;
    keeps = refl;
  }
  | inr short ↦
      let (c, stops, enough, small) =
        double_reaches 33 b.capacity size g.some_room low (ground arith) (ground arith) in
      record {
        after = grown b size c;
        returns = ground (arith, stops);
        grows = ground (arith, length-moved b c g.valid);
        size_is = refl;
        keeps = take-moved b c g.valid (ground arith);
      }
]

-- A window keeps its length: a larger size is cut to the capacity, and the call says so.
pub resize_window :
    (b : Buffer) (size : ℕ) (preserve : Bool)
    → b.owned ≡ false
    → resize b size preserve ≡ some (leb size b.capacity, record b { size = min size b.capacity })
unfolding resize
resize_window b size preserve w = ground arith

-- Of a buffer that owns its array and has capacity 0, to a size that is not 0: `resize` never
-- returns, as no number of rounds ends the loop that doubles the capacity.
pub resize_hangs :
    (b : Buffer) (size : ℕ) (preserve : Bool)
    → b.owned ≡ true
    → b.capacity ≡ 0
    → 0 < size
    → (resize b size preserve ≡ none) × ((fuel : ℕ) → double fuel b.capacity size ≡ none)
unfolding resize
resize_hangs b size preserve own zero_capacity h = (
  ground (arith, double-zero 33 size h, ap (λ (c : ℕ). double 33 c size) zero_capacity),
  λ fuel. rw zero_capacity (double-zero fuel size h),
)
