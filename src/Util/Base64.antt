-- ===== src/Util/Base64.antt =====
-- Bytes that `ToBase64` writes are those that `FromBase64` reads.
use mona_server.Base.{
  ℕ, zero, suc, ◌+◌, ◌-◌, ◌*◌, ◌/◌, ◌%◌, ◌^◌, ◌<◌, ◌≤◌, ◌≡◌, refl, ap, ◌∙◌, Bool, true, false, not,
  ◌&&◌, ◌||◌, List, [], ◌∷◌, ◌++◌, Option, some, All, ltb, leb, ◌==◌, arith, bit_and, bit_or,
  length, replicate, get_or, length-append, length-replicate, inl, inr, Bool-cases,
}
use mona_server.Base.Bits.{bit_and-low, bit_or-add}
use mona_server.Base.Words.{IsByte, shl32}
use mona_server.Util.{
  b64_table, reverse_b64_table, b64_char, emit, to_base64_loop, to_base64, is_space, prepend,
  from_base64_loop, from_base64,
}

-- Below a bound a Boolean test holds everywhere if it holds at each number.
all_below : ℕ → (ℕ → Bool) → Bool
all_below zero test = true
all_below (suc n) test = test n && all_below n test

all_below-holds :
    (n : ℕ) (test : ℕ → Bool) → all_below n test ≡ true → (k : ℕ) → k < n → test k ≡ true
unfolding all_below
all_below-holds zero test a k h = absurd (omega arith)
all_below-holds (suc n) test a k h = elim (Bool-cases (k == n)) [
  | inl last ↦ let e : k ≡ n = ground (arith, last) in rw e (and_left (test n) (all_below n test) a)
  | inr before ↦
      all_below-holds n test (and_right (test n) (all_below n test) a) k (ground (arith, before))
]
  where
    and_left : (b c : Bool) → (b && c) ≡ true → b ≡ true
    and_left b c e = ground (arith, e)

    and_right : (b c : Bool) → (b && c) ≡ true → c ≡ true
    and_right b c e = ground (arith, e)

abbrev is_code : ℕ → Bool
is_code s =
    let c = b64_char s in
    not (is_space c || (c == 61)) && not (ltb 127 c) && (get_or reverse_b64_table c 64 == s)

codes : (s : ℕ) → s < 64 → is_code s ≡ true
unfolding b64_char b64_table reverse_b64_table is_space all_below
codes = all_below-holds 64 is_code refl

char_masked : (n : ℕ) → b64_char n ≡ b64_char (n % 64)
unfolding b64_char
char_masked n =
    let m = bit_and-low 6 n in
    let m' = bit_and-low 6 (n % 64) in
    let e : n % 64 % 64 ≡ n % 64 = omega arith in rw (m, m', e) refl

or_code : (acc s : ℕ) → s < 64 → bit_or (shl32 acc 6) s ≡ acc * 64 % 2 ^ 32 + s
or_code acc s h =
    let e : acc * 64 % 2 ^ 32 ≡ acc % 2 ^ 26 * 2 ^ 6 = omega arith in
    rw e (bit_or-add 6 (acc % 2 ^ 26) s h)

or_byte : (acc b : ℕ) → IsByte b → bit_or (shl32 acc 8) (bit_and b 0xff) ≡ acc * 256 % 2 ^ 32 + b
or_byte acc b h =
    let m = bit_and-low 8 b in
    let small : b % 2 ^ 8 ≡ b = omega arith in
    let e : acc * 256 % 2 ^ 32 ≡ acc % 2 ^ 24 * 2 ^ 8 = omega arith in
    rw (m, small, e) (bit_or-add 8 (acc % 2 ^ 24) b h)

-- What `is_code` tells, apart.
module _ (s : ℕ) (h : s < 64) where
  no_skip : (is_space (b64_char s) || (b64_char s == 61)) ≡ false
  no_skip = ground (arith, codes s h)

  in_table : ltb 127 (b64_char s) ≡ false
  in_table = ground (arith, codes s h)

  code_back : get_or reverse_b64_table (b64_char s) 64 ≡ s
  code_back = ground (arith, codes s h)

-- A character is read: fewer than eight bits wait, and with eight a byte is written.
waits :
    (n s : ℕ) (rest : List ℕ) (acc : ℕ)
    → n % 64 ≡ s
    → from_base64_loop (b64_char n ∷ rest) acc 0 ≡ from_base64_loop rest (acc * 64 % 2 ^ 32 + s) 6
unfolding from_base64_loop
waits n s rest acc e =
    let h : s < 64 = omega (arith, e) in
    let low : ltb 63 s ≡ false = ground (arith, h) in
    rw (char_masked n, e, no_skip s h, code_back s h, in_table s h, low, or_code acc s h) refl

writes :
    (n s : ℕ) (rest : List ℕ) (acc bits byte : ℕ)
    → n % 64 ≡ s
    → 2 ≤ bits
    → (acc * 64 % 2 ^ 32 + s) / 2 ^ (bits + 6 - 8) % 256 ≡ byte
    → from_base64_loop (b64_char n ∷ rest) acc bits
      ≡ prepend byte (from_base64_loop rest (acc * 64 % 2 ^ 32 + s) (bits + 6 - 8))
unfolding from_base64_loop
writes n s rest acc bits byte e some_bits b =
    let h : s < 64 = omega (arith, e) in
    let low : ltb 63 s ≡ false = ground (arith, h) in
    let full : leb 8 (bits + 6) ≡ true = ground (arith, some_bits) in
    let mask = bit_and-low 8 ((acc * 64 % 2 ^ 32 + s) / 2 ^ (bits + 6 - 8)) in
    rw
      (
        char_masked n,
        e,
        no_skip s h,
        code_back s h,
        in_table s h,
        low,
        full,
        or_code acc s h,
        mask,
        b,
      )
      refl

-- What three bytes become, and what is read of them.
fours :
    (n1 n2 n3 n4 a b c : ℕ) (rest out : List ℕ) (acc : ℕ)
    → IsByte a
    → IsByte b
    → IsByte c
    → n1 % 64 ≡ a / 4
    → n2 % 64 ≡ a % 4 * 16 + b / 16
    → n3 % 64 ≡ b % 16 * 4 + c / 64
    → n4 % 64 ≡ c % 64
    → ((acc : ℕ) → from_base64_loop rest acc 0 ≡ some out)
    → from_base64_loop (b64_char n1 ∷ b64_char n2 ∷ b64_char n3 ∷ b64_char n4 ∷ rest) acc 0
      ≡ some (a ∷ b ∷ c ∷ out)
unfolding prepend
fours n1 n2 n3 n4 a b c rest out acc ha hb hc e1 e2 e3 e4 more =
    let acc1 = acc * 64 % 2 ^ 32 + a / 4 in
    let acc2 = acc1 * 64 % 2 ^ 32 + (a % 4 * 16 + b / 16) in
    let acc3 = acc2 * 64 % 2 ^ 32 + (b % 16 * 4 + c / 64) in
    waits n1 (a / 4) _ acc e1
    ∙ writes n2 (a % 4 * 16 + b / 16) _ acc1 6 a e2 (omega arith) (omega arith)
    ∙ ap (prepend a) (writes n3 (b % 16 * 4 + c / 64) _ acc2 4 b e3 (omega arith) (omega arith))
    ∙ ap (λ (o : Option (List ℕ)). prepend a (prepend b o))
        (writes n4 (c % 64) rest acc3 2 c e4 (omega arith) (omega arith))
    ∙ ap (λ (o : Option (List ℕ)). prepend a (prepend b (prepend c o))) (more _)

abbrev next : ℕ → ℕ → ℕ
next acc byte = acc * 256 % 2 ^ 32 + byte

to_three :
    (a b c : ℕ) (rest : List ℕ) (acc : ℕ)
    → IsByte a
    → IsByte b
    → IsByte c
    → to_base64_loop (a ∷ b ∷ c ∷ rest) acc 0
      ≡ b64_char (next acc a / 4)
        ∷ b64_char (next (next acc a) b / 16)
        ∷ b64_char (next (next (next acc a) b) c / 64)
        ∷ b64_char (next (next (next acc a) b) c / 1)
        ∷ to_base64_loop rest (next (next (next acc a) b) c) 0
unfolding to_base64_loop emit
to_three a b c rest acc ha hb hc =
    rw (or_byte acc a ha, or_byte (next acc a) b hb, or_byte (next (next acc a) b) c hc) refl

to_two :
    (a b : ℕ) (acc : ℕ)
    → IsByte a
    → IsByte b
    → to_base64_loop (a ∷ b ∷ []) acc 0
      ≡ b64_char (next acc a / 4)
        ∷ b64_char (next (next acc a) b / 16)
        ∷ b64_char (next (next acc a) b * 4 % 2 ^ 32)
        ∷ []
unfolding to_base64_loop emit
to_two a b acc ha hb = rw (or_byte acc a ha, or_byte (next acc a) b hb) refl

to_one :
    (a acc : ℕ)
    → IsByte a
    → to_base64_loop (a ∷ []) acc 0
      ≡ b64_char (next acc a / 4) ∷ b64_char (next acc a * 16 % 2 ^ 32) ∷ []
unfolding to_base64_loop emit
to_one a acc ha = rw (or_byte acc a ha) refl

padding : (n acc bits : ℕ) → from_base64_loop (replicate n 61) acc bits ≡ some []
unfolding from_base64_loop is_space
padding zero acc bits = refl
padding (suc n) acc bits = padding n acc bits

threes :
    (bytes : List ℕ) (n acc acc' : ℕ)
    → All IsByte bytes
    → from_base64_loop (to_base64_loop bytes acc 0 ++ replicate n 61) acc' 0 ≡ some bytes
unfolding to_base64_loop prepend
threes [] n acc acc' h = padding n acc' 0
threes (a ∷ []) n acc acc' h = rw (to_one a acc h.0) (
    waits (next acc a / 4) (a / 4) _ acc' (omega (arith, h.0))
    ∙ writes (next acc a * 16 % 2 ^ 32) (a % 4 * 16) _ (acc' * 64 % 2 ^ 32 + a / 4) 6 a
        (omega (arith, h.0)) (omega arith) (omega (arith, h.0))
    ∙ ap (prepend a) (padding n _ 4))
threes (a ∷ b ∷ []) n acc acc' h =
    let acc1 = acc' * 64 % 2 ^ 32 + a / 4 in
    let acc2 = acc1 * 64 % 2 ^ 32 + (a % 4 * 16 + b / 16) in
    rw (to_two a b acc h.0 h.1.0) (
      waits (next acc a / 4) (a / 4) _ acc' (omega (arith, h.0))
      ∙ writes (next (next acc a) b / 16) (a % 4 * 16 + b / 16) _ acc1 6 a
          (omega (arith, h.0, h.1.0)) (omega arith) (omega (arith, h.0, h.1.0))
      ∙ ap (prepend a) (
          writes (next (next acc a) b * 4 % 2 ^ 32) (b % 16 * 4) _ acc2 4 b
            (omega (arith, h.0, h.1.0)) (omega arith) (omega (arith, h.0, h.1.0)))
      ∙ ap (λ (o : Option (List ℕ)). prepend a (prepend b o)) (padding n _ 2))
threes (a ∷ b ∷ c ∷ rest) n acc acc' h = rw (to_three a b c rest acc h.0 h.1.0 h.1.1.0) (
    fours (next acc a / 4) (next (next acc a) b / 16) (next (next (next acc a) b) c / 64)
      (next (next (next acc a) b) c / 1) a b c _ rest acc' h.0 h.1.0 h.1.1.0 (omega (arith, h.0))
      (omega (arith, h.0, h.1.0)) (omega (arith, h.0, h.1.0, h.1.1.0)) (omega (arith, h.1.1.0))
      (λ x. threes rest n (next (next (next acc a) b) c) x h.1.1.1))

length-to_base64_loop :
    (bytes : List ℕ) (acc : ℕ)
    → All IsByte bytes
    → length (to_base64_loop bytes acc 0) ≡ (length bytes * 4 + 2) / 3
unfolding to_base64_loop
length-to_base64_loop [] acc h = refl
length-to_base64_loop (a ∷ []) acc h = ap length (to_one a acc h.0)
length-to_base64_loop (a ∷ b ∷ []) acc h = ap length (to_two a b acc h.0 h.1.0)
length-to_base64_loop (a ∷ b ∷ c ∷ rest) acc h = omega (
  arith,
  ap length (to_three a b c rest acc h.0 h.1.0 h.1.1.0),
  length-to_base64_loop rest (next (next (next acc a) b) c) h.1.1.1,
)

-- Of fewer than 2 ^ 31 bytes: what `ToBase64` writes is read back by `FromBase64`, and it has four
-- characters for every three bytes begun.
pub from_base64-to_base64 :
    (bytes : List ℕ)
    → All IsByte bytes
    → length bytes < 2 ^ 31
    → (from_base64 (to_base64 bytes) ≡ some bytes)
      × (length (to_base64 bytes) ≡ (length bytes + 2) / 3 * 4)
unfolding from_base64 to_base64
from_base64-to_base64 bytes h small =
    let chars = to_base64_loop bytes 0 0 in
    let pad = (length bytes + 2) / 3 * 4 % 2 ^ 32 - length chars in
    (
      threes bytes pad 0 0 h,
      omega (
        arith,
        length-append chars (replicate pad 61),
        length-replicate {A = ℕ} pad 61,
        length-to_base64_loop bytes 0 h,
      ),
    )
