-- ===== src/Binary/RoundTrip/Encoded.antt =====
-- `write7BitEncoded` against `read7BitEncoded`: groups of seven bits, the lowest first; and the texts
-- behind such a length.
use mona_server.Base.{
  ℕ, zero, suc, ◌+◌, ◌*◌, ◌/◌, ◌%◌, ◌^◌, ◌≤◌, ◌<◌, ◌≡◌, ap, ◌∙◌, Bool, true, false, List, [], ◌∷◌,
  ◌++◌, Option, some, ◌==◌, if◌then◌else◌, bit_and, bit_or, arith, append_assoc, ◌>>=◌, inl, inr,
  Bool-cases, length, replicate, length-replicate,
}
use native.Mathlib.Nat.{pow-suc, div-add-mod}
use native.Mathlib.Numerals.{towards_suc}
use mona_server.Base.Bits.{bit_and-low, bit_and-shifted, bit_or-add_swap}
use mona_server.Base.Words.{IsU32, add32, shl32}
use mona_server.Binary.Reader.{
  Reader, read8, read_raw, read_text, encoded_loop, read7_bit_encoded, read_string,
}
use mona_server.Binary.Reader.Rest.{At, read8-cons}
use mona_server.Binary.RoundTrip.Words.{read_raw_whole}
use mona_server.Binary.Writer.{
  Writer, write8, write_raw, encoded_out, write7_bit_encoded, write_string,
}
use mona_server.Binary.Writer.Appends.{Writes, Writes-then, write_raw-Writes, write8-Writes}

-- `k + 1` groups of `v`.
abbrev groups : ℕ → ℕ → List ℕ
groups zero v = v ∷ []
groups (suc k) v =
    let rest = groups k (v / 128) in if v / 128 == 0 then v ∷ [] else (v % 128 + 128) ∷ rest

marked : (v : ℕ) → bit_or (bit_and v 0x7f) 0x80 ≡ v % 128 + 128
marked v = ground (arith, bit_and-low 7 v, bit_or-add_swap 7 1 (v % 128))

last_group : (fuel v : ℕ) (w : Writer) → v < 128 → encoded_out (suc fuel) w v ≡ write8 w v
unfolding encoded_out
last_group fuel v w h =
    let done : (v / 2 ^ 7 == 0) ≡ true = ground arith in
    rw (done, bit_and-low 7 v) (ap (write8 w) (omega arith))

first_group :
    (fuel v : ℕ) (w : Writer)
    → (v / 128 == 0) ≡ false
    → encoded_out (suc fuel) w v
      ≡ (write8 w (v % 128 + 128) >>= λ w'. encoded_out fuel w' (v / 128))
unfolding encoded_out
first_group fuel v w more = rw (more, marked v)

encoded_out-Writes :
    (flip : Bool) (k v : ℕ)
    → v < 128 ^ suc k
    → Writes flip (λ w. encoded_out (suc k) w v) (groups k v)
encoded_out-Writes flip zero v h w = rw (last_group 0 v w h) (write8-Writes flip v (omega arith) w)
encoded_out-Writes flip (suc k) v h w = elim (Bool-cases (v / 128 == 0)) [
  | inl done ↦
      rw (done, last_group (suc k) v w (ground arith)) (write8-Writes flip v (ground arith) w)
  | inr more ↦
      rw (more, first_group (suc k) v w more)
        (Writes-then flip (λ w'. write8 w' (v % 128 + 128)) (λ w'. encoded_out (suc k) w' (v / 128))
          ((v % 128 + 128) ∷ []) (groups k (v / 128))
          (write8-Writes flip (v % 128 + 128) (omega arith))
          (encoded_out-Writes flip k (v / 128) (omega (arith, pow-suc 128 (suc k)))) w)
]

split_group : (v s : ℕ) → v * 2 ^ s ≡ v % 128 * 2 ^ s + v / 128 * 2 ^ (s + 7)
split_group v s =
    omega (arith, ap (λ (t : ℕ). t * 2 ^ s) (div-add-mod v 128), ap (λ (t : ℕ). v / 128 * t) wider)
  where
    wider : 2 ^ (s + 7) ≡ 2 ^ s * 128
    wider = simp towards_suc (omega arith)

-- The reader at the last byte, and at one before it.
module _ (c s value : ℕ) (r : Reader) (tail : List ℕ) (a : At r (c ∷ tail))
    (fits : value + c % 128 * 2 ^ s < 2 ^ 32) where
  sum_fits : add32 value (shl32 (c % 128) s) ≡ value + c % 128 * 2 ^ s
  sum_fits = omega arith

  last_byte :
      (rounds : ℕ)
      → c < 128
      → encoded_loop (suc rounds) r value s ≡ some (value + c % 128 * 2 ^ s, (read8 r).1)
  unfolding encoded_loop
  last_byte rounds h =
      let got = (read8-cons r c tail a).0 in
      let clear : (bit_and c 0x80 == 0) ≡ true = ground (arith, bit_and-shifted 7 1 c) in
      rw (got, bit_and-low 7 c, sum_fits, clear)

  inner_byte :
      (rounds : ℕ)
      → c / 128 ≡ 1
      → encoded_loop (suc rounds) r value s
        ≡ encoded_loop rounds (read8 r).1 (value + c % 128 * 2 ^ s) (s + 7)
  unfolding encoded_loop
  inner_byte rounds h =
      let got = (read8-cons r c tail a).0 in
      let set : (bit_and c 0x80 == 0) ≡ false = ground (arith, bit_and-shifted 7 1 c) in
      rw (got, bit_and-low 7 c, sum_fits, set)

-- The loop of the reader at shift `s`, where `value` is what the groups below made up.
abbrev Decodes : ℕ → ℕ → ℕ → ℕ → List ℕ → Reader → Type 0
Decodes rounds v s value tail r =
    (after : Reader) × (encoded_loop rounds r value s ≡ some (value + v * 2 ^ s, after))
    × At after tail

last-Decodes :
    (rounds v s value : ℕ) (r : Reader) (tail : List ℕ)
    → v < 128
    → value + v * 2 ^ s < 2 ^ 32
    → At r (v ∷ tail)
    → Decodes (suc rounds) v s value tail r
last-Decodes rounds v s value r tail h fits a =
    let same : v % 128 ≡ v = omega arith in
    (
      (read8 r).1,
      rw same at (last_byte v s value r tail a (rw same fits) rounds h),
      (read8-cons r v tail a).1,
    )

inner-Decodes :
    (rounds v s value : ℕ) (r : Reader) (bs tail : List ℕ)
    → value + v * 2 ^ s < 2 ^ 32
    → At r ((v % 128 + 128) ∷ bs)
    → Decodes rounds (v / 128) (s + 7) (value + v % 128 * 2 ^ s) tail (read8 r).1
    → Decodes (suc rounds) v s value tail r
inner-Decodes rounds v s value r bs tail fits a (after, eq, there) =
    let low : (v % 128 + 128) % 128 ≡ v % 128 = omega arith in
    let small : value + v % 128 * 2 ^ s < 2 ^ 32 = omega (arith, split_group v s) in
    let step = inner_byte (v % 128 + 128) s value r bs a (rw low small) rounds (omega arith) in
    (
      after,
      rw (step, low, eq) (ap (λ (t : ℕ). some (t, after)) (omega (arith, split_group v s))),
      there,
    )

encoded_loop-Decodes :
    (k v s value : ℕ) (r : Reader) (tail : List ℕ)
    → v < 128 ^ suc k
    → value + v * 2 ^ s < 2 ^ 32
    → At r (groups k v ++ tail)
    → Decodes (suc k) v s value tail r
encoded_loop-Decodes zero v s value r tail h fits a = last-Decodes 0 v s value r tail h fits a
encoded_loop-Decodes (suc k) v s value r tail h fits a = elim (Bool-cases (v / 128 == 0)) [
  | inl done ↦ last-Decodes (suc k) v s value r tail (ground arith) fits (rw done at a)
  | inr more ↦
      let here : At r ((v % 128 + 128) ∷ groups k (v / 128) ++ tail) = rw more at a in
      inner-Decodes (suc k) v s value r (groups k (v / 128) ++ tail) tail fits here (
        encoded_loop-Decodes k (v / 128) (s + 7) (value + v % 128 * 2 ^ s) (read8 r).1 tail
          (omega (arith, pow-suc 128 (suc k))) (omega (arith, split_group v s))
          (read8-cons r (v % 128 + 128) (groups k (v / 128) ++ tail) here).1)
]

-- Every UInt32 survives `write7BitEncoded` and `read7BitEncoded`, in 1 to 5 bytes, and the read
-- never shifts by 32 bits or more.
pub record Decoded {ℓ} {A : Type ℓ} (v : A) (tail : List ℕ) (m : Option (A × Reader)) : Type ℓ where
  pub after : Reader
  pub reads : m ≡ some (v, after)
  pub here : At after tail

abbrev pub encoded : ℕ → List ℕ
encoded v = groups 4 v

pub write7_bit_encoded-Writes :
    (flip : Bool) (v : ℕ) → IsU32 v → Writes flip (λ w. write7_bit_encoded w v) (encoded v)
unfolding write7_bit_encoded
write7_bit_encoded-Writes flip v h = encoded_out-Writes flip 4 v (omega arith)

pub read7_bit_encoded-Decoded :
    (v : ℕ) (r : Reader) (tail : List ℕ)
    → IsU32 v
    → At r (encoded v ++ tail)
    → Decoded v tail (read7_bit_encoded r)
unfolding read7_bit_encoded
read7_bit_encoded-Decoded v r tail h a =
    let (after, eq, there) = encoded_loop-Decodes 4 v 0 0 r tail (omega arith) (omega arith) a in
    record {
      after = after;
      reads = eq ∙ ap (λ (t : ℕ). some (t, after)) (omega arith);
      here = there;
    }

text_back :
    (text : List ℕ) (r : Reader) (tail : List ℕ)
    → IsU32 (length text)
    → At r (encoded (length text) ++ (text ++ tail))
    → Decoded text tail (read_string r)
unfolding read_string read_text
text_back text r tail h a =
    let d = read7_bit_encoded-Decoded (length text) r (text ++ tail) h a in
    let zero_byte : ℕ = 0 in
    let (got, left) =
      read_raw_whole d.after (replicate (length text) zero_byte) text tail
        (length-replicate (length text) zero_byte) d.here in
    let after = (read_raw d.after (replicate (length text) zero_byte)).1 in
    record { after = after; reads = rw d.reads (ap (λ xs. some (xs, after)) got); here = left }

pub read_string-Decoded :
    (text : List ℕ) (r : Reader) (tail : List ℕ)
    → IsU32 (length text)
    → At r ((encoded (length text) ++ text) ++ tail)
    → Decoded text tail (read_string r)
read_string-Decoded text r tail h a =
    text_back text r tail h (rw (append_assoc (encoded (length text)) text tail) at a)

pub write_string-Writes :
    (flip : Bool) (text : List ℕ)
    → IsU32 (length text)
    → Writes flip (λ w. write_string w text) (encoded (length text) ++ text)
unfolding write_string
write_string-Writes flip text h =
    Writes-then flip (λ w. write7_bit_encoded w (length text)) (λ w. write_raw w text)
      (encoded (length text)) text (write7_bit_encoded-Writes flip (length text) h)
      (write_raw-Writes flip text)

length-groups : (k v : ℕ) → length (groups k v) ≤ k + 1
length-groups zero v = omega arith
length-groups (suc k) v = ground (arith, length-groups k (v / 128))

pub length-encoded : (v : ℕ) → length (encoded v) ≤ 5
length-encoded v = length-groups 4 v
