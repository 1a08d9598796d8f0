-- ===== src/Buffer.antt =====
-- `Buffer` of MonaBase/include/Mona/Buffer.h and MonaBase/sources/Buffer.cpp: a growable array of
-- bytes, or a window on an array that the caller owns.
-- `bytes` holds the bytes from `_data` on, as many as the capacity; `clipped` holds those in front
-- of it, back to the start of the array. `owned` says that `_buffer` is not null.
pub mod Shape
pub mod Resize
mod Tests
use mona_server.Base.{
  ℕ, zero, suc, ◌+◌, ◌-◌, ◌*◌, ◌%◌, ◌^◌, Bool, true, false, not, ◌&&◌, List, [], ◌∷◌, ◌++◌, Option,
  none, some, ltb, leb, ◌==◌, if◌then◌else◌, ◌>>=◌, length, get_elem?, take, drop, replicate,
}
use mona_server.Base.Words.{add32, sub32}

pub record Buffer : Type 0 where
  pub clipped : List ℕ
  pub bytes : List ℕ
  pub offset : ℕ
  pub size : ℕ
  pub capacity : ℕ
  pub owned : Bool

-- The bytes in use.
abbrev pub contents : Buffer → List ℕ
contents b = take b.size b.bytes

-- `Buffer(UInt32 size = 0)`: 64 bytes are taken for an empty one, and all are zero.
unfoldable pub new : ℕ → Buffer
new size =
    let capacity = if size == 0 then 64 else size in
    record {
      clipped = [];
      bytes = replicate capacity 0;
      offset = 0;
      size = size;
      capacity = capacity;
      owned = true;
    }

-- `Buffer(UInt8* buffer, UInt32 size)`
unfoldable pub over : List ℕ → Buffer
over window = record {
  clipped = [];
  bytes = window;
  offset = 0;
  size = length window;
  capacity = length window;
  owned = false;
}

-- `operator[]`; `none` is a read out of the array.
unfoldable pub at : Buffer → ℕ → Option ℕ
at b index = get_elem? b.bytes (if leb b.size index then sub32 b.size 1 else index)

-- `clip` past its first test, on an offset within the size.
unfoldable pub clip_by : Buffer → ℕ → Buffer
clip_by b offset = if offset == 0 then b else record {
  clipped = b.clipped ++ take offset b.bytes;
  bytes = drop offset b.bytes;
  offset = add32 b.offset offset;
  size = sub32 b.size offset;
  capacity = sub32 b.capacity offset;
  owned = b.owned;
}

unfoldable pub clip : Buffer → ℕ → Buffer
clip b offset = clip_by b (if ltb b.size offset then b.size else offset)

unfoldable pub clear : Buffer → Buffer
clear b =
    if ltb 0 b.offset
    then record {
      clipped = [];
      bytes = b.clipped ++ b.bytes;
      offset = 0;
      size = 0;
      capacity = add32 b.capacity b.offset;
      owned = b.owned;
    }
    else record b { size = 0 }

-- `do { _capacity *= 2; } while (size > _capacity);` with fuel; `none` means that it ran out.
-- After 32 rounds the capacity has wrapped to 0, so a loop that outlives them never ends.
unfoldable pub double : ℕ → ℕ → ℕ → Option ℕ
double zero capacity size = none
double (suc fuel) capacity size =
    let doubled = capacity * 2 % 2 ^ 32 in
    let more = double fuel doubled size in if ltb doubled size then more else some doubled

-- The new array: zero, with the old bytes in use in front of it if they are to be preserved.
abbrev pub moved : Buffer → Bool → ℕ → List ℕ
moved b preserve capacity =
    if preserve && ltb 0 b.size
    then contents b ++ replicate (capacity - b.size) 0
    else replicate capacity 0

-- `none` means that the call never returns.
unfoldable pub resize : Buffer → ℕ → Bool → Option (Bool × Buffer)
resize b size preserve =
    if leb size b.capacity
    then some (true, record b { size = size })
    else if not b.owned
    then some (false, record b { size = b.capacity })
    else (do
      capacity ← double 33 b.capacity size
      some (
        true,
        record {
          clipped = [];
          bytes = moved b preserve capacity;
          offset = 0;
          size = size;
          capacity = capacity;
          owned = true;
        },
      ))
