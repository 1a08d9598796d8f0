-- ===== src/Binary/Reader/Rest.antt =====
-- A reader as the list of its unread bytes.
use mona_server.Base.{
  ==_iff, get_or-take-drop, ◌==◌, subst, if◌then◌else◌, Bool-cases, ltb, inl, inr, drop-drop,
  take-take, ℕ, ◌+◌, ◌-◌, ◌≤◌, ◌≡◌, ap, ◌∙◌, sym, List, [], ◌∷◌, ◌++◌, take, drop, length, arith,
  length-take, length-drop, take_all, drop_all, drop-take,
}
use mona_server.Base.Words.{IsU32}
use mona_server.Binary.{Order}
use mona_server.Binary.Reader.{Reader, reader, available, next, reset, shrink, read_raw, read8}

pub record IsValid (r : Reader) : Type 0 where
  pub ahead : r.current ≤ r.end
  pub ends : r.end ≡ r.size
  pub backed : r.size ≤ length r.memory
  pub narrow : IsU32 r.size

-- `n`, but at most `limit`.
abbrev clamp : ℕ → ℕ → ℕ
clamp limit n = if ltb limit n then limit else n

drop-clamp : (limit n : ℕ) (xs : List ℕ) → limit ≡ length xs → drop (clamp limit n) xs ≡ drop n xs
drop-clamp limit n xs h = ground (arith, drop_all n xs, drop_all limit xs)

take-clamp : (limit n : ℕ) (xs : List ℕ) → limit ≡ length xs → take (clamp limit n) xs ≡ take n xs
take-clamp limit n xs h = ground (arith, take_all n xs, take_all limit xs)

-- The bytes that are still to be read.
abbrev pub rest : Reader → List ℕ
rest r = take (r.end - r.current) (drop r.current r.memory)

pub reader-IsValid : (m : List ℕ) (o : Order) → IsU32 (length m) → IsValid (reader m o)
unfolding reader
reader-IsValid m o h = ground arith

pub rest-reader : (m : List ℕ) (o : Order) → rest (reader m o) ≡ m
unfolding reader
rest-reader m o = take_all (length m - 0) m (omega arith)

-- `r` is at the bytes `xs`.
pub record At (r : Reader) (xs : List ℕ) : Type 0 where
  pub valid : IsValid r
  pub unread : rest r ≡ xs

module _ (r : Reader) (v : IsValid r) where
  length-rest : length (rest r) ≡ r.end - r.current
  length-rest = omega (
    arith,
    length-take (r.end - r.current) (drop r.current r.memory),
    length-drop r.current r.memory,
  )

  pub available-length : available r ≡ length (rest r)
  available-length = omega (arith, length-rest)

  -- A step forward within the unread bytes leaves the others.
  forward :
      (k : ℕ) → k ≤ length (rest r) → At (record r { current = r.current + k }) (drop k (rest r))
  forward k h = record { valid = omega (arith, length-rest); unread = moved }
    where
      moved : take (r.end - (r.current + k)) (drop (r.current + k) r.memory) ≡ drop k (rest r)
      moved = ground (
        arith,
        drop-take k (r.end - r.current) (drop r.current r.memory),
        drop-drop k r.current r.memory,
      )

  -- On a valid reader `next` leaves a valid reader behind the first `n` of the unread bytes, or at
  -- the end if they are fewer.
  pub next-At : (n : ℕ) → At (next r n) (drop n (rest r))
  unfolding next
  next-At n =
      subst (At (next r n)) (drop-clamp (available r) n (rest r) available-length)
        (forward (clamp (available r) n) (ground (arith, available-length)))

  pub reset-IsValid : (n : ℕ) → IsValid (reset r n)
  unfolding reset
  reset-IsValid n = ground arith

  -- On a valid reader, after `reset` to a position the unread bytes are all those from that
  -- position to the end of the data, none if it is past the end.
  rest-reset : (n : ℕ) → rest (reset r n) ≡ drop n (take r.size r.memory)
  unfolding reset
  rest-reset n =
      ap (λ (e : ℕ). take (e - k) (drop k r.memory)) v.ends
      ∙ sym (drop-take k r.size r.memory)
      ∙ drop-clamp r.size n (take r.size r.memory) (omega (arith, length-take r.size r.memory))
    where
      k : ℕ
      k = clamp r.size n

  -- On a valid reader `shrink` leaves a valid reader at the first `n` of the unread bytes, or at
  -- all if they are fewer.
  pub shrink-At : (n : ℕ) → At (shrink r n) (take n (rest r))
  unfolding shrink
  shrink-At n = record { valid = ground (arith, available-length, length-rest); unread = cut }
    where
      k : ℕ
      k = clamp (available r) n

      cut : take (r.current + k - r.current) (drop r.current r.memory) ≡ take n (rest r)
      cut =
          ap (λ (m : ℕ). take m (drop r.current r.memory)) (omega arith)
          ∙ sym (take-take k _ _ (ground (arith, available-length, length-rest)))
          ∙ take-clamp (available r) n (rest r) available-length

-- At a byte, `read8` takes it; at the end it gives 0 and stays.
pub read8-cons :
    (r : Reader) (b : ℕ) (xs : List ℕ) → At r (b ∷ xs) → ((read8 r).0 ≡ b) × At (read8 r).1 xs
unfolding read8
read8-cons r b xs a = elim (Bool-cases (r.current == r.end)) [
  | inl end ↦ absurd (ground (arith, length-rest r a.valid, ap length a.unread))
  | inr more ↦ rw more (
    get_or-take-drop (r.end - r.current) r.current r.memory 0 a.unread,
    rw (ap (drop 1) a.unread) at (forward r a.valid 1 (omega (arith, ap length a.unread))),
  )
]

pub read8-nil : (r : Reader) → At r [] → read8 r ≡ (0, r)
unfolding read8
read8-nil r a = ground (arith, length-rest r a.valid, ap length a.unread)

module _ (r : Reader) (v : IsValid r) (value : List ℕ) where
  -- How many bytes are copied.
  copied : ℕ
  copied = clamp (available r) (length value)

  filled :
      take copied (drop r.current r.memory) ++ drop copied value
      ≡ take (length value) (rest r) ++ drop (length (rest r)) value
  unfolding copied
  filled = ground (
    arith,
    available-length r v,
    length-rest r v,
    take-take copied (r.end - r.current) (drop r.current r.memory),
    take-clamp (available r) (length value) (rest r) (available-length r v),
    drop_all (length value) value,
    drop_all (length (rest r)) value,
  )

  left : drop copied (rest r) ≡ drop (length value) (rest r)
  unfolding copied
  left = drop-clamp (available r) (length value) (rest r) (available-length r v)

  copied-le : copied ≤ length (rest r)
  unfolding copied
  copied-le = ground (arith, available-length r v)

  read_raw-rest :
      ((read_raw r value).0 ≡ take (length value) (rest r) ++ drop (length (rest r)) value)
      × At (read_raw r value).1 (drop (length value) (rest r))
  unfolding read_raw copied
  read_raw-rest = elim (Bool-cases (copied == 0)) [
    | inl nothing ↦
        let none_copied : copied ≡ 0 = (==_iff copied 0).0 nothing in
        rw nothing (rw none_copied at filled, record { valid = v; unread = rw none_copied at left })
    | inr some ↦ rw some (filled, subst (At _) left (forward r v copied copied-le))
  ]

-- At the unread bytes `xs`, `readRaw` into `value` copies as many as there are and as `value`
-- takes, keeps the rest of `value` as it was, and leaves the reader valid and at the bytes behind
-- those copied.
pub read_raw-At :
    (r : Reader) (value xs : List ℕ)
    → At r xs
    → ((read_raw r value).0 ≡ take (length value) xs ++ drop (length xs) value)
      × At (read_raw r value).1 (drop (length value) xs)
read_raw-At r value xs a = rw a.unread at (read_raw-rest r a.valid value)
