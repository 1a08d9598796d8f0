-- ===== src/Binary/RoundTrip/Seven.antt =====
-- `write7BitValue` and `write7BitLongValue` against `read7BitValue` and `read7BitLongValue`: groups
-- of seven bits, the highest first, each but the last with the top bit set.
mod Groups
use Groups.{
  shift_of, heads, seven_out-Writes, seven_loop_lem, not_the_end, shift_of-eq, groups_width,
}
use mona_server.Base.{
  ℕ, zero, suc, ◌+◌, ◌-◌, ◌*◌, ◌/◌, ◌%◌, ◌^◌, ◌≤◌, ◌<◌, ◌≡◌, refl, sym, ap, ◌∙◌, subst, Bool, true,
  false, List, [], ◌∷◌, ◌++◌, Option, some, ltb, leb, if◌then◌else◌, bit_and, bit_or, arith,
  append_assoc, ◌>>=◌, ◌⊎◌, inl, inr, Bool-cases, length,
}
use native.Mathlib.Decide.{dec_le}
use native.Mathlib.Nat.{pow-le-pow_right, div-eq_of_lt}
use mona_server.Base.Bits.{bit_and-low, bit_or-add}
use mona_server.Base.Words.{IsByte, IsU32, shl32, shl64}
use mona_server.Binary.Reader.{
  Reader, read8, seven_loop, seven_value, read7_bit_value, read7_bit_long_value,
}
use mona_server.Binary.Reader.Rest.{At, read8-cons}
use mona_server.Binary.Writer.{
  Writer, write8, seven_out, get7_bit_value_size, write7_bit_value, write7_bit_long_value,
}
use mona_server.Binary.Writer.Appends.{Appends, Writes, Writes-then, write8-Writes}
use mona_server.Binary.Writer.Sizes.{IsGroupCount, get7_bit_value_size-IsGroupCount}
use mona_server.Binary.RoundTrip.{Reads, RoundTrips}

-- The groups, then a last byte.
abbrev packed : ℕ → ℕ → ℕ → ℕ → List ℕ
packed v k s last = heads v k s ++ last ∷ []

-- What `seven_value` reads from them.
seven_value-packed :
    (shl : ℕ → ℕ → ℕ) (v k s last rounds : ℕ) (r : Reader) (tail : List ℕ)
    → ((x : ℕ) → x * 128 ≤ v → shl x 7 ≡ x * 128)
    → v / 2 ^ (shift_of k s + 7) ≡ 0
    → k ≤ rounds
    → (k < rounds → last / 128 % 2 ≡ 0)
    → At r (packed v k s last ++ tail)
    → Reads
        (bit_or (shl (v / 2 ^ (s + 7)) (if ltb k rounds then 7 else 8)) last)
        tail
        (seven_value shl rounds r)
unfolding seven_value
seven_value-packed shl v k s last rounds r tail keeps top few clear a =
    go (heads v k s ++ last ∷ tail) refl (rw (append_assoc (heads v k s) (last ∷ []) tail) at a)
  where
    go :
        (bs : List ℕ)
        → bs ≡ heads v k s ++ last ∷ tail
        → At r bs
        → Reads
            (bit_or (shl (v / 2 ^ (s + 7)) (if ltb k rounds then 7 else 8)) last)
            tail
            (seven_value shl rounds r)
    go [] e here = absurd (not_the_end v s last tail k e)
    go (b ∷ xs) e here =
        let (got, left) = read8-cons r b xs here in
        let (after, eq, there) =
          seven_loop_lem shl v keeps s last tail k rounds b xs (read8 r).1 few e clear left in
        rw (got, ← top, eq) (refl, there)

-- What the writers put out once the size is known.
packed-Writes :
    (flip : Bool) (v k s last : ℕ)
    → s < 7
    → k < 10
    → IsByte last
    → Writes flip
        (λ w. seven_out 10 w v (shift_of k s) >>= λ w'. write8 w' last)
        (packed v k s last)
packed-Writes flip v k s last hs hk hl =
    Writes-then flip (λ w. seven_out 10 w v (shift_of k s)) (λ w. write8 w last) (heads v k s)
      (last ∷ []) (seven_out-Writes flip v s k 10 hs hk) (write8-Writes flip last hl)

length-packed : (v s last k : ℕ) → length (packed v k s last) ≡ k + 1
length-packed v s last zero = omega arith
length-packed v s last (suc k) = omega (arith, length-packed v s last k)

groups_below : (v n m : ℕ) → IsGroupCount v n → v < 128 ^ m → 1 ≤ m → n ≤ m
groups_below v n m count h pos = elim (dec_le n m) [
  | yes few ↦ few
  | no many ↦
      let p : m ≤ n - 1 = omega arith in
      absurd (omega (arith, count.least, pow-le-pow_right {n = 128} (omega arith) p))
]

-- The high part of a value of `k + 1` groups is all in the groups.
no_more_above : (v k s : ℕ) → v < 2 ^ (shift_of k s + 7) → v / 2 ^ (shift_of k s + 7) ≡ 0
no_more_above v k s h = div-eq_of_lt h

-- One writer and one reader, at a count of groups and a last byte.
module _ (v k s last rounds : ℕ) (shl : ℕ → ℕ → ℕ) (write : Writer → Option Writer)
    (keeps : (x : ℕ) → x * 128 ≤ v → shl x 7 ≡ x * 128) (few : k ≤ rounds) (some_left : k < 10)
    (low : s < 7) (byte : IsByte last) (clear : k < rounds → last / 128 % 2 ≡ 0)
    (above : v / 2 ^ (shift_of k s + 7) ≡ 0)
    (writes : (w : Writer)
      → write w ≡ (seven_out 10 w v (shift_of k s) >>= λ w'. write8 w' last)) where
  packed-RoundTrips :
      (flip : Bool)
      → RoundTrips flip write
          (seven_value shl rounds)
          (bit_or (shl (v / 2 ^ (s + 7)) (if ltb k rounds then 7 else 8)) last)
  packed-RoundTrips flip = record {
    encoding = packed v k s last;
    short = omega (arith, length-packed v s last k);
    writes = λ w same grow room.
        subst (Appends w (packed v k s last)) (sym (writes w))
          (packed-Writes flip v k s last low some_left byte w same grow room);
    reads =
        λ r tail same a. seven_value-packed shl v k s last rounds r tail keeps above few clear a;
  }

shl32_keeps : (v : ℕ) → IsU32 v → (x : ℕ) → x * 128 ≤ v → shl32 x 7 ≡ x * 128
shl32_keeps v h x le = omega arith

shl64_keeps : (v : ℕ) → v < 2 ^ 63 → (x : ℕ) → x * 128 ≤ v → shl64 x 7 ≡ x * 128
shl64_keeps v h x le = omega arith

-- Up to `n` groups of seven bits, the last byte with a clear top bit.
module _ (v n : ℕ) (size : get7_bit_value_size v ≡ some n) (count : IsGroupCount v n) where
  nothing_above : v / 2 ^ (shift_of (n - 1) 0 + 7) ≡ 0
  nothing_above =
      let all : suc (n - 1) ≡ n = omega (arith, count.some_group) in
      no_more_above v (n - 1) 0
        (omega (arith, groups_width (n - 1), ap (λ (k : ℕ). 128 ^ k) all, count.enough))

  whole : bit_or (v / 2 ^ 7 * 2 ^ 7) (v % 128) ≡ v
  whole = omega (arith, bit_or-add 7 (v / 2 ^ 7) (v % 128) (omega arith))

  write7_bit_value-eq :
      (w : Writer)
      → n ≤ 3
      → write7_bit_value w v ≡ (seven_out 10 w v (shift_of (n - 1) 0) >>= λ w'. write8 w' (v % 128))
  unfolding write7_bit_value
  write7_bit_value-eq w few =
      let below : leb 21 ((n - 1) * 7 % 2 ^ 8) ≡ false = ground arith in
      let shift : (n - 1) * 7 % 2 ^ 8 ≡ shift_of (n - 1) 0 = omega (arith, shift_of-eq (n - 1) 0) in
      rw (size, below, shift, bit_and-low 7 v)

  write7_bit_long_value-eq :
      (w : Writer)
      → n ≤ 9
      → write7_bit_long_value w v
        ≡ (seven_out 10 w v (shift_of (n - 1) 0) >>= λ w'. write8 w' (v % 128))
  unfolding write7_bit_long_value
  write7_bit_long_value-eq w few =
      let below : leb 63 ((n - 1) * 7 % 2 ^ 8) ≡ false = ground arith in
      let shift : (n - 1) * 7 % 2 ^ 8 ≡ shift_of (n - 1) 0 = omega (arith, shift_of-eq (n - 1) 0) in
      rw (size, below, shift, bit_and-low 7 v)

  module _ (flip : Bool) where
    short-RoundTrips :
        n ≤ 3 → IsU32 v → RoundTrips flip (λ w. write7_bit_value w v) read7_bit_value v
    unfolding read7_bit_value
    short-RoundTrips few small =
        let first = count.some_group in
        let shift : ltb (n - 1) 3 ≡ true = ground arith in
        let value : bit_or (shl32 (v / 2 ^ 7) (if ltb (n - 1) 3 then 7 else 8)) (v % 128) ≡ v =
          rw (shift, shl32_keeps v small (v / 2 ^ 7) (omega arith)) whole in
        subst (RoundTrips flip (λ w. write7_bit_value w v) (seven_value shl32 3)) value (
          packed-RoundTrips v (n - 1) 0 (v % 128) 3 shl32 (λ w. write7_bit_value w v)
            (shl32_keeps v small) (omega arith) (omega arith) (omega arith) (omega arith)
            (λ lt. omega arith) nothing_above (λ w. write7_bit_value-eq w few) flip)

    long-RoundTrips :
        n ≤ 8 → v < 2 ^ 63 → RoundTrips flip (λ w. write7_bit_long_value w v) read7_bit_long_value v
    unfolding read7_bit_long_value
    long-RoundTrips few small =
        let first = count.some_group in
        let shift : ltb (n - 1) 8 ≡ true = ground arith in
        let value : bit_or (shl64 (v / 2 ^ 7) (if ltb (n - 1) 8 then 7 else 8)) (v % 128) ≡ v =
          rw (shift, shl64_keeps v small (v / 2 ^ 7) (omega arith)) whole in
        subst (RoundTrips flip (λ w. write7_bit_long_value w v) (seven_value shl64 8)) value (
          packed-RoundTrips v (n - 1) 0 (v % 128) 8 shl64 (λ w. write7_bit_long_value w v)
            (shl64_keeps v small) (omega arith) (omega arith) (omega arith) (omega arith)
            (λ lt. omega arith) nothing_above (λ w. write7_bit_long_value-eq w (omega arith)) flip)

-- From 22 bits on: three groups and a last byte of 8 bits.
max-eq :
    (v n : ℕ) (w : Writer)
    → get7_bit_value_size v ≡ some n
    → 4 ≤ n
    → n ≤ 9
    → write7_bit_value w v ≡ (seven_out 10 w v (shift_of 3 1) >>= λ w'. write8 w' (v % 2 ^ 8))
unfolding write7_bit_value
max-eq v n w size many few =
    let above : leb 21 ((n - 1) * 7 % 2 ^ 8) ≡ true = ground arith in
    rw (size, above, bit_and-low 8 v)

max-RoundTrips :
    (flip : Bool) (v n : ℕ)
    → v < 2 ^ 29
    → get7_bit_value_size v ≡ some n
    → 4 ≤ n
    → n ≤ 9
    → RoundTrips flip (λ w. write7_bit_value w v) read7_bit_value v
unfolding read7_bit_value
max-RoundTrips flip v n h size many few =
    let value : bit_or (shl32 (v / 2 ^ 8) 8) (v % 2 ^ 8) ≡ v =
      rw fits (omega (arith, bit_or-add 8 (v / 2 ^ 8) (v % 2 ^ 8) (omega arith))) in
    subst (RoundTrips flip (λ w. write7_bit_value w v) (seven_value shl32 3)) value (
      packed-RoundTrips v 3 1 (v % 2 ^ 8) 3 shl32 (λ w. write7_bit_value w v)
        (shl32_keeps v (omega arith)) (omega arith) (omega arith) (omega arith) (omega arith)
        (λ lt. absurd (omega arith)) (omega arith) (λ w. max-eq v n w size many few) flip)
  where
    fits : shl32 (v / 2 ^ 8) 8 ≡ v / 2 ^ 8 * 2 ^ 8
    fits = omega arith

-- A value below 2 ^ 29 survives `write7BitValue` and `read7BitValue`.
pub write7_bit_value-RoundTrips :
    (flip : Bool) (v : ℕ)
    → v < 2 ^ 29
    → RoundTrips flip (λ w. write7_bit_value w v) read7_bit_value v
write7_bit_value-RoundTrips flip v h =
    let (n, size, count, few) = get7_bit_value_size-IsGroupCount v (omega arith) in
    elim (dec_le n 3) [
      | yes short ↦ short-RoundTrips v n size count flip short (omega arith)
      | no long ↦ max-RoundTrips flip v n h size (omega arith) few
    ]

-- A value below 2 ^ 56 survives `write7BitLongValue` and `read7BitLongValue`.
pub write7_bit_long_value-RoundTrips :
    (flip : Bool) (v : ℕ)
    → v < 2 ^ 56
    → RoundTrips flip (λ w. write7_bit_long_value w v) read7_bit_long_value v
write7_bit_long_value-RoundTrips flip v h =
    let (n, size, count, few) = get7_bit_value_size-IsGroupCount v (omega arith) in
    long-RoundTrips v n size count flip (groups_below v n 8 count h (omega arith)) (omega arith)

groups_above : (v n : ℕ) → IsGroupCount v n → 2 ^ 56 ≤ v → 9 ≤ n
groups_above v n count low = elim (dec_le n 8) [
  | yes few ↦ absurd (omega (arith, count.enough, pow-le-pow_right {n = 128} (omega arith) few))
  | no many ↦ omega arith
]

nine-RoundTrips :
    (flip : Bool) (v n : ℕ)
    → v < 2 ^ 63
    → get7_bit_value_size v ≡ some n
    → IsGroupCount v n
    → n ≤ 9
    → 9 ≤ n
    → RoundTrips flip
        (λ w. write7_bit_long_value w v)
        read7_bit_long_value
        (v / 128 * 256 + v % 128)
unfolding read7_bit_long_value
nine-RoundTrips flip v n high size count few many =
    let value : bit_or (shl64 (v / 2 ^ 7) 8) (v % 128) ≡ v / 128 * 256 + v % 128 =
      rw fits (bit_or-add 8 (v / 2 ^ 7) (v % 128) (omega arith)) in
    let eight : n - 1 ≡ 8 = omega arith in
    subst (RoundTrips flip (λ w. write7_bit_long_value w v) (seven_value shl64 8)) value (
      packed-RoundTrips v 8 0 (v % 128) 8 shl64 (λ w. write7_bit_long_value w v)
        (shl64_keeps v high) (omega arith) (omega arith) (omega arith) (omega arith)
        (λ lt. absurd (omega arith)) (omega arith)
        (λ w. rw eight at (write7_bit_long_value-eq v n size count w few)) flip)
  where
    fits : shl64 (v / 2 ^ 7) 8 ≡ v / 2 ^ 7 * 2 ^ 8
    fits = omega arith

-- From 2 ^ 56 up to 2 ^ 63 the writer puts seven bits into its ninth byte where the reader takes
-- eight: all but the lowest seven bits come back doubled.
pub write7_bit_long_value_shifted :
    (flip : Bool) (v : ℕ)
    → 2 ^ 56 ≤ v
    → v < 2 ^ 63
    → RoundTrips flip
        (λ w. write7_bit_long_value w v)
        read7_bit_long_value
        (v / 128 * 256 + v % 128)
write7_bit_long_value_shifted flip v low high =
    let (n, size, count, few) = get7_bit_value_size-IsGroupCount v high in
    nine-RoundTrips flip v n high size count few (groups_above v n count low)
