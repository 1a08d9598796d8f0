-- ===== src/Buffer/Shape.antt =====
-- The invariant of `Buffer`, and the operations that move no bytes.
use mona_server.Base.{
  ℕ, zero, suc, ◌+◌, ◌-◌, ◌%◌, ◌^◌, ◌≤◌, ◌<◌, ◌≡◌, refl, ap, ◌≢◌, ◌↔◌, inl, inr, List, [], ◌∷◌,
  ◌++◌, sym, ◌∙◌, ltb, if◌then◌else◌, append_assoc, take-append-drop, take, drop, length, none, leb,
  Bool-cases, arith, length-append, length-take, length-drop, length-replicate, drop-take, drop_all,
  get_elem?_inside, get_elem?_outside,
}
use mona_server.Base.Words.{IsU32}
use mona_server.Buffer.{Buffer, contents, new, over, at, clip_by, clip, clear}

pub record IsValid (b : Buffer) : Type 0 where
  pub fits : b.size ≤ b.capacity
  pub backed : length b.bytes ≡ b.capacity
  pub behind : length b.clipped ≡ b.offset
  pub total : IsU32 (b.offset + b.capacity)

pub new-IsValid : (size : ℕ) → IsU32 size → IsValid (new size)
unfolding new
new-IsValid size h =
    let zero_byte : ℕ = 0 in
    ground (arith, length-replicate size zero_byte, length-replicate 64 zero_byte)

pub over-IsValid : (window : List ℕ) → IsU32 (length window) → IsValid (over window)
unfolding over
over-IsValid window h = omega arith

module _ (b : Buffer) (v : IsValid b) where
  clip_by-IsValid : (o : ℕ) → o ≤ b.size → IsValid (clip_by b o)
  unfolding clip_by
  clip_by-IsValid o h = ground (
    arith,
    length-append b.clipped (take o b.bytes),
    length-take o b.bytes,
    length-drop o b.bytes,
  )

  contents-clip_by : (o : ℕ) → o ≤ b.size → contents (clip_by b o) ≡ drop o (contents b)
  unfolding clip_by
  contents-clip_by zero h = refl
  contents-clip_by (suc o) h =
      ground (
        arith,
        drop-take (suc o) b.size b.bytes,
        ap (λ (k : ℕ). take k (drop (suc o) b.bytes)) fewer,
      )
    where
      fewer : (b.size + 2 ^ 32 - suc o) % 2 ^ 32 ≡ b.size - suc o
      fewer = omega arith

  -- A `clip` of any number of bytes keeps a buffer valid.
  clip-IsValid : (n : ℕ) → IsValid (clip b n)
  unfolding clip
  clip-IsValid n = ground (arith, clip_by-IsValid b.size, clip_by-IsValid n)

  pub clear-IsValid : IsValid (clear b)
  unfolding clear
  clear-IsValid = ground (arith, length-append b.clipped b.bytes)

  pub length-contents : length (contents b) ≡ b.size
  length-contents = omega (arith, length-take b.size b.bytes)

  -- On a valid buffer, a `clip` drops that many bytes in use from the front, at most all.
  contents-clip : (n : ℕ) → contents (clip b n) ≡ drop n (contents b)
  unfolding clip
  contents-clip n = ground (
    arith,
    contents-clip_by b.size,
    contents-clip_by n,
    length-contents,
    drop_all n (contents b),
    drop_all b.size (contents b),
  )

  -- On a valid buffer and at any index, `operator[]` reads inside the array exactly if some bytes
  -- are in use.
  at_inside : (i : ℕ) → (at b i ≢ none) ↔ (0 < b.size)
  unfolding at
  at_inside i = elim (Bool-cases (leb b.size i)) [
    | inl past ↦
        rw past (ground (arith, get_elem?_inside b.bytes last, get_elem?_outside b.bytes last))
    | inr within ↦ rw within (ground (arith, get_elem?_inside b.bytes i))
  ]
    where
      last : ℕ
      last = (b.size + 2 ^ 32 - 1) % 2 ^ 32

-- The whole array, empty.
abbrev emptied : Buffer → Buffer
emptied b = record {
  clipped = [];
  bytes = b.clipped ++ b.bytes;
  offset = 0;
  size = 0;
  capacity = b.capacity + b.offset;
  owned = b.owned;
}

no_elements : (xs : List ℕ) → length xs ≡ 0 → xs ≡ []
no_elements [] h = refl
no_elements (x ∷ xs) h = absurd (omega arith)

clear-emptied : (b : Buffer) → IsValid b → clear b ≡ emptied b
unfolding clear
clear-emptied b v = ground (arith, no_elements b.clipped)

emptied-clip_by : (b : Buffer) (o : ℕ) → IsValid b → o ≤ b.size → emptied (clip_by b o) ≡ emptied b
unfolding clip_by
emptied-clip_by b o v h =
    ground
      (arith, append_assoc b.clipped (take o b.bytes) (drop o b.bytes), take-append-drop o b.bytes)

-- On a valid buffer, `clear` after a `clip` of any number of bytes gives what `clear` alone gives:
-- the whole array again, unused.
clear-clip : (b : Buffer) (n : ℕ) → IsValid b → clear (clip b n) ≡ clear b
unfolding clip
clear-clip b n v =
    let o : ℕ = if ltb b.size n then b.size else n in
    let h : o ≤ b.size = ground arith in
    clear-emptied (clip_by b o) (clip_by-IsValid b v o h)
    ∙ emptied-clip_by b o v h
    ∙ sym (clear-emptied b v)
