-- ===== src/Rtmp/Chunks.antt =====
-- The loop of `buildPacket` that takes the bytes between the chunks of a body out.
use mona_server.Base.{
  ℕ, zero, suc, ◌+◌, ◌-◌, ◌*◌, ◌/◌, ◌^◌, ◌<◌, ◌≤◌, ◌≡◌, refl, sym, ap, ◌∙◌, List, [], ◌∷◌, ◌++◌,
  length, length-append, append_assoc, append-nil, take, drop, min, take-append_length,
  drop-append_length, take_all, length-drop, All, arith,
}
use native.Mathlib.Nat.{add-mul-div_right, div-eq_of_lt}
use mona_server.Rtmp.{chunk_count, join_chunks}

-- Chunks with the byte behind each.
abbrev pub Cut : Type 0
Cut = List (List ℕ × ℕ)

abbrev pub chunked : Cut → List ℕ → List ℕ
chunked [] last = last
chunked ((x, between) ∷ rest) last = x ++ between ∷ chunked rest last

abbrev pub whole : Cut → List ℕ → List ℕ
whole [] last = last
whole ((x, between) ∷ rest) last = x ++ whole rest last

abbrev pub AreFull : ℕ → Cut → Type 0
AreFull n = All (λ (c : List ℕ × ℕ). length c.0 ≡ n)

pub length-chunked :
    (cut : Cut) (last : List ℕ) → length (chunked cut last) ≡ length (whole cut last) + length cut
length-chunked [] last = omega arith
length-chunked ((x, between) ∷ cut) last = omega (
  arith,
  length-append x (between ∷ chunked cut last),
  length-append x (whole cut last),
  length-chunked cut last,
)

pub length-whole :
    (n : ℕ) (cut : Cut) (last : List ℕ)
    → AreFull n cut
    → length (whole cut last) ≡ length last + length cut * n
length-whole n [] last full = omega arith
length-whole n ((x, between) ∷ cut) last full =
    omega (arith, length-append x (whole cut last), full.0, length-whole n cut last full.1)

drop-append_add : (xs ys : List ℕ) (n : ℕ) → drop (length xs + n) (xs ++ ys) ≡ drop n ys
drop-append_add [] ys n = ap (λ (k : ℕ). drop k ys) (omega arith)
drop-append_add (x ∷ xs) ys n =
    let e : suc (length xs) + n ≡ suc (length xs + n) = omega arith in
    ap (λ (k : ℕ). drop k (x ∷ (xs ++ ys))) e ∙ drop-append_add xs ys n

drop-append_left : (n : ℕ) (xs ys : List ℕ) → n ≤ length xs → drop n (xs ++ ys) ≡ drop n xs ++ ys
drop-append_left zero xs ys h = refl
drop-append_left (suc n) [] ys h = absurd (omega arith)
drop-append_left (suc n) (x ∷ xs) ys h = drop-append_left n xs ys (omega arith)

-- One round: `x` moves over the gap in front of it.
module _ (done gap x after : List ℕ) (i chunk : ℕ) (i_is : i ≡ length done)
    (chunk_is : chunk ≡ length gap) where
  abbrev bytes : List ℕ
  bytes = done ++ (gap ++ (x ++ after))

  abbrev moved_gap : List ℕ
  moved_gap = drop (length x) (gap ++ x)

  moved_gap-length : length moved_gap ≡ chunk
  moved_gap-length = omega (arith, length-drop (length x) (gap ++ x), length-append gap x, chunk_is)

  moved_over :
      take i bytes ++ take (length x) (drop (i + chunk) bytes) ++ drop (i + length x) bytes
      ≡ (done ++ x) ++ (moved_gap ++ after)
  moved_over =
      let front : take i bytes ≡ done =
        ap (λ (k : ℕ). take k bytes) i_is ∙ take-append_length done (gap ++ (x ++ after)) in
      let at : i + chunk ≡ length done + length gap = omega (arith, i_is, chunk_is) in
      let place : drop (i + chunk) bytes ≡ x ++ after =
        ap (λ (k : ℕ). drop k bytes) at
        ∙ drop-append_add done (gap ++ (x ++ after)) (length gap)
        ∙ drop-append_length gap (x ++ after) in
      let piece : take (length x) (drop (i + chunk) bytes) ≡ x =
        ap (take (length x)) place ∙ take-append_length x after in
      let back : drop (i + length x) bytes ≡ moved_gap ++ after =
        ap (λ (k : ℕ). drop (k + length x) bytes) i_is
        ∙ drop-append_add done (gap ++ (x ++ after)) (length x)
        ∙ ap (drop (length x)) (sym (append_assoc gap x after))
        ∙ drop-append_left (length x) (gap ++ x) after (omega (arith, length-append gap x)) in
      rw (front, piece, back) refl

  join_chunks-round :
      (rounds chunk_size size : ℕ)
      → min chunk_size (size - i) ≡ length x
      → join_chunks (suc rounds) chunk_size size chunk i bytes
        ≡ join_chunks rounds chunk_size size
            (chunk + 1)
            (i + chunk_size)
            ((done ++ x) ++ (moved_gap ++ after))
  unfolding join_chunks
  join_chunks-round rounds chunk_size size n =
      ap
        (λ (k : ℕ).
          join_chunks rounds chunk_size size (chunk + 1) (i + chunk_size)
            (take i bytes ++ take k (drop (i + chunk) bytes) ++ drop (i + k) bytes))
        n
      ∙ ap (join_chunks rounds chunk_size size (chunk + 1) (i + chunk_size)) moved_over

join_none : (chunk_size size chunk i : ℕ) (b : List ℕ) → join_chunks 0 chunk_size size chunk i b ≡ b
unfolding join_chunks
join_none chunk_size size chunk i b = refl

pub join_chunks-whole :
    (cut : Cut) (last done gap : List ℕ) (chunk_size size chunk i : ℕ)
    → AreFull chunk_size cut
    → length last ≤ chunk_size
    → i ≡ length done
    → chunk ≡ length gap
    → size ≡ i + length (whole cut last)
    → take size
        (join_chunks (suc (length cut)) chunk_size size chunk i (done ++ (gap ++ chunked cut last)))
      ≡ done ++ whole cut last
join_chunks-whole [] last done gap chunk_size size chunk i full small i_is chunk_is size_is =
    let moved = drop (length last) (gap ++ last) ++ [] in
    let n : min chunk_size (size - i) ≡ length last = omega (arith, size_is, small) in
    let all : size ≡ length (done ++ last) =
      omega (arith, size_is, i_is, length-append done last) in
    ap (λ (l : List ℕ). take size (join_chunks 1 chunk_size size chunk i (done ++ (gap ++ l))))
      (sym (append-nil last))
    ∙ ap (take size) (join_chunks-round done gap last [] i chunk i_is chunk_is 0 chunk_size size n)
    ∙ ap (take size)
        (join_none chunk_size size (chunk + 1) (i + chunk_size) ((done ++ last) ++ moved))
    ∙ ap (λ (k : ℕ). take k ((done ++ last) ++ moved)) all
    ∙ take-append_length (done ++ last) moved
join_chunks-whole ((x, between) ∷ cut) last done gap chunk_size size chunk i full small i_is
      chunk_is size_is =
    let after = between ∷ chunked cut last in
    let moved = drop (length x) (gap ++ x) in
    let part = length-append x (whole cut last) in
    let n : min chunk_size (size - i) ≡ length x = omega (arith, size_is, full.0, part) in
    let held : length moved ≡ chunk = moved_gap-length done gap x after i chunk i_is chunk_is in
    ap (take size) (
      join_chunks-round done gap x after i chunk i_is chunk_is (suc (length cut)) chunk_size size n
      ∙ ap
          (λ (b : List ℕ).
            join_chunks (suc (length cut)) chunk_size size (chunk + 1) (i + chunk_size)
              ((done ++ x) ++ b))
          (sym (append_assoc moved (between ∷ []) (chunked cut last))))
    ∙ join_chunks-whole cut last (done ++ x) (moved ++ between ∷ []) chunk_size size (chunk + 1)
        (i + chunk_size) full.1 small (omega (arith, i_is, full.0, length-append done x))
        (omega (arith, held, length-append moved (between ∷ [])))
        (omega (arith, size_is, full.0, part))
    ∙ append_assoc done x (whole cut last)

pub chunk_count-chunked :
    (chunk_size : ℕ) (cut : Cut) (last : List ℕ)
    → AreFull chunk_size cut
    → 0 < length last
    → length last ≤ chunk_size
    → length cut + 1 < 2 ^ 16
    → chunk_count (length (whole cut last)) chunk_size ≡ length cut
unfolding chunk_count
chunk_count-chunked chunk_size cut last full some_bytes small few =
    let sum : length (whole cut last) + chunk_size - 1
        ≡ (length last - 1) + (length cut + 1) * chunk_size =
      omega (arith, length-whole chunk_size cut last full) in
    let less : length last - 1 < chunk_size = omega arith in
    let count : (length (whole cut last) + chunk_size - 1) / chunk_size ≡ length cut + 1 =
      ap (λ (n : ℕ). n / chunk_size) sum
      ∙ add-mul-div_right (length last - 1) (length cut + 1) (omega arith)
      ∙ omega (arith, div-eq_of_lt less) in
    omega (arith, count, few)

-- The bytes of a body in chunks become the body.
pub joined-chunks :
    (chunk_size : ℕ) (cut : Cut) (last : List ℕ)
    → AreFull chunk_size cut
    → length last ≤ chunk_size
    → take (length (whole cut last)) (
        join_chunks
          (length cut)
          chunk_size
          (length (whole cut last))
          1
          chunk_size
          (chunked cut last))
      ≡ whole cut last
joined-chunks chunk_size [] last full small =
    ap (take (length last)) (join_none chunk_size (length last) 1 chunk_size last)
    ∙ take_all (length last) last (omega arith)
joined-chunks chunk_size ((x, between) ∷ cut) last full small =
    join_chunks-whole cut last x (between ∷ []) chunk_size (length (x ++ whole cut last)) 1
      chunk_size full.1 small (omega (arith, full.0)) refl
      (omega (arith, full.0, length-append x (whole cut last)))
