-- ===== src/Binary/Writer/Appends.antt =====
-- What a writer on a growable buffer does to the bytes written so far: it appends.
use mona_server.Base.{
  ℕ, ◌+◌, ◌%◌, ◌^◌, ◌≤◌, ◌≡◌, refl, ap, ◌∙◌, Bool, true, List, [], ◌∷◌, ◌++◌, Option, some, ◌>>=◌,
  length, take, drop, append_assoc, sym, length-drop, append-nil, subst, length-append,
  take-append_length, arith, length-take,
}
use mona_server.Base.Words.{IsByte}
use mona_server.Buffer
use mona_server.Buffer.{Buffer}
use mona_server.Buffer.Shape.{length-contents}
use mona_server.Buffer.Resize.{CanGrow, Resized, resize-Resized}
use mona_server.Binary.Writer.{Writer, contents, overwrite, write_raw, write8}

-- `m` is a writer that has `bs` behind what `w` had.
pub record Appends (w : Writer) (bs : List ℕ) (m : Option Writer) : Type 0 where
  pub after : Writer
  pub returns : m ≡ some after
  pub grows : CanGrow after.buffer
  pub same_order : after.flip_bytes ≡ w.flip_bytes
  pub written : contents after ≡ contents w ++ bs

-- `f` appends `bs` to every growable writer of that byte order which stays below 2 ^ 31 bytes.
abbrev pub Writes : Bool → (Writer → Option Writer) → List ℕ → Type 0
Writes flip f bs =
    (w : Writer)
    → w.flip_bytes ≡ flip
    → CanGrow w.buffer
    → length (contents w) + length bs ≤ 2 ^ 31
    → Appends w bs (f w)

module _ (i : ℕ) (value bytes : List ℕ) (fits : i + length value ≤ length bytes) where
  length-front : length (take i bytes ++ value) ≡ i + length value
  length-front = omega (arith, length-append (take i bytes) value, length-take i bytes)

  pub length-overwrite : length (overwrite i value bytes) ≡ length bytes
  length-overwrite = omega (
    arith,
    length-front,
    length-append (take i bytes ++ value) (drop (i + length value) bytes),
    length-drop (i + length value) bytes,
  )

  pub take-overwrite : take (i + length value) (overwrite i value bytes) ≡ take i bytes ++ value
  take-overwrite =
      ap (λ (n : ℕ). take n (overwrite i value bytes)) (sym length-front)
      ∙ take-append_length (take i bytes ++ value) (drop (i + length value) bytes)

module _ (w : Writer) (bs : List ℕ) (grow : CanGrow w.buffer) where
  write_raw-Resized :
      length (contents w) + length bs ≤ 2 ^ 31
      → Resized w.buffer
          ((length bs + w.buffer.size) % 2 ^ 32)
          (Buffer.resize w.buffer ((length bs + w.buffer.size) % 2 ^ 32) true)
      → Appends w bs (write_raw w bs)
  unfolding write_raw
  write_raw-Resized room r = record {
    after = record w { buffer = record (r.after) { bytes = overwrite old bs r.after.bytes } };
    returns = ground (arith, r.returns);
    grows = ground (arith, r.grows, length-overwrite old bs r.after.bytes fits);
    same_order = refl;
    written =
        ap (λ (n : ℕ). take n (overwrite old bs r.after.bytes)) total
        ∙ take-overwrite old bs r.after.bytes fits
        ∙ ap (λ (xs : List ℕ). xs ++ bs) r.keeps;
  }
    where
      old : ℕ
      old = w.buffer.size

      total : r.after.size ≡ old + length bs
      total = omega (arith, r.size_is, length-contents w.buffer grow.valid)

      fits : old + length bs ≤ length r.after.bytes
      fits = omega (arith, total, r.grows.valid)

module _ (flip : Bool) where
  pub write_raw-Writes : (bs : List ℕ) → Writes flip (λ w. write_raw w bs) bs
  write_raw-Writes bs w same grow room = write_raw-Resized w bs grow room (
      resize-Resized w.buffer ((length bs + w.buffer.size) % 2 ^ 32) grow
        (omega (arith, length-contents w.buffer grow.valid)))

  pub Writes-then :
      (f g : Writer → Option Writer) (bs cs : List ℕ)
      → Writes flip f bs
      → Writes flip g cs
      → Writes flip (λ w. f w >>= g) (bs ++ cs)
  Writes-then f g bs cs hf hg w same grow room = record {
    after = b.after;
    returns = ground (arith, a.returns, b.returns);
    grows = b.grows;
    same_order = b.same_order ∙ a.same_order;
    written = ground (arith, a.written, b.written, append_assoc (contents w) bs cs);
  }
    where
      a : Appends w bs (f w)
      a = hf w same grow (omega (arith, length-append bs cs))

      b : Appends a.after cs (g a.after)
      b =
          hg a.after (a.same_order ∙ same) a.grows
            (omega (arith, length-append bs cs, ap length a.written, length-append (contents w) bs))

  pub Writes-none : Writes flip (λ w. some w) []
  Writes-none w same grow room = record {
    after = w;
    returns = refl;
    grows = grow;
    same_order = refl;
    written = sym (append-nil (contents w));
  }

pub write8-Writes : (flip : Bool) (v : ℕ) → IsByte v → Writes flip (λ w. write8 w v) (v ∷ [])
unfolding write8
write8-Writes flip v h =
    subst (λ (b : ℕ). Writes flip (λ w. write_raw w (b ∷ [])) (v ∷ [])) (omega arith)
      (write_raw-Writes flip (v ∷ []))
