-- ===== src/Binary/Writer/Sizes.antt =====
-- `Util::Get7BitValueSize`: the least number of 7-bit groups, and the values on which it hangs.
use mona_server.Base.{
  ℕ, zero, suc, ◌+◌, ◌-◌, ◌*◌, ◌%◌, ◌^◌, ◌≤◌, ◌<◌, ◌≡◌, refl, ◌⊎◌, inl, inr, none, some, leb,
  Bool-cases, le→leb, arith,
}
use native.Mathlib.Nat.{pow-suc, pow-le-pow_right}
use native.Mathlib.Decide.{dec_le}
use mona_server.Binary.Writer.{size_loop, get7_bit_value_size}

-- `n` groups hold `v`, and fewer do not.
pub record IsGroupCount (v n : ℕ) : Type 0 where
  pub some_group : 1 ≤ n
  pub enough : v < 128 ^ n
  pub least : (n ≡ 1) ⊎ (128 ^ (n - 1) ≤ v)

below_nine : (v r : ℕ) → v < 2 ^ 63 → 128 ^ r ≤ v → r ≤ 8
below_nine v r h low = elim (dec_le r 8) [
  | yes few ↦ few
  | no many ↦
      let p : 9 ≤ r = omega arith in
      absurd (omega (arith, pow-le-pow_right {n = 128} (omega arith) p))
]

next_limit : (r : ℕ) → r ≤ 8 → 128 ^ r * 2 ^ 7 % 2 ^ 64 ≡ 128 ^ suc r
next_limit r h =
    let bound = pow-le-pow_right {n = 128} (omega arith) h in omega (arith, bound, pow-suc 128 r)

next_result : (r : ℕ) → r ≤ 8 → (r + 1) % 2 ^ 8 ≡ suc r
next_result r h = omega arith

size_loop-IsGroupCount :
    (v fuel r : ℕ)
    → v < 2 ^ 63
    → 1 ≤ r
    → r ≤ 9
    → r + fuel ≡ 11
    → (r ≡ 1) ⊎ (128 ^ (r - 1) ≤ v)
    → (n : ℕ) × (size_loop fuel v (128 ^ r) r ≡ some n) × IsGroupCount v n × (n ≤ 9)
unfolding size_loop
size_loop-IsGroupCount v zero r h pos top sum low = absurd (omega arith)
size_loop-IsGroupCount v (suc fuel) r h pos top sum low = elim (Bool-cases (leb (128 ^ r) v)) [
  | inl more ↦
      let few = below_nine v r h (ground arith) in
      rw (more, next_limit r few, next_result r few)
        (size_loop-IsGroupCount v fuel (suc r) h (omega arith) (omega arith) (omega arith)
          (inr (ground arith)))
  | inr done ↦
      rw done
        (r, refl, record { some_group = pos; enough = ground arith; least = low }, omega arith)
]

-- Below 2 ^ 63 `Get7BitValueSize` returns, and its result is the least number of 7-bit groups, at
-- least one, that hold the value; it is at most 9.
pub get7_bit_value_size-IsGroupCount :
    (v : ℕ) → v < 2 ^ 63 → (n : ℕ) × (get7_bit_value_size v ≡ some n) × IsGroupCount v n × (n ≤ 9)
unfolding get7_bit_value_size
get7_bit_value_size-IsGroupCount v h =
    size_loop-IsGroupCount v 10 1 h (omega arith) (omega arith) refl (inl refl)

size_loop-zero : (v fuel result : ℕ) → size_loop fuel v 0 result ≡ none
unfolding size_loop
size_loop-zero v zero result = refl
size_loop-zero v (suc fuel) result = rw (le→leb 0 v (omega arith)) (size_loop-zero v fuel _)

size_loop_hangs :
    (v fuel r result : ℕ) → 2 ^ 63 ≤ v → r ≤ 9 → size_loop fuel v (128 ^ r) result ≡ none
unfolding size_loop
size_loop_hangs v zero r result h hr = refl
size_loop_hangs v (suc fuel) r result h hr =
    let bound : 128 ^ r ≤ 128 ^ 9 = pow-le-pow_right (omega arith) hr in
    rw (le→leb (128 ^ r) v (omega arith)) (elim (dec_le r 8) [
      | yes few ↦ rw (next_limit r few) (size_loop_hangs v fuel (suc r) _ h (omega arith))
      | no many ↦ let last : r ≡ 9 = omega arith in rw last (size_loop-zero v fuel _)
    ])

-- From 2 ^ 63 on `Get7BitValueSize` never returns: its limit wraps to 0, and no number of rounds
-- ends the loop.
get7_bit_value_size_hangs :
    (v : ℕ)
    → 2 ^ 63 ≤ v
    → (get7_bit_value_size v ≡ none) × ((fuel : ℕ) → size_loop fuel v 0x80 1 ≡ none)
unfolding get7_bit_value_size
get7_bit_value_size_hangs v h =
    (size_loop_hangs v 10 1 1 h (omega arith), λ fuel. size_loop_hangs v fuel 1 1 h (omega arith))
