-- ===== src/Rtmp/Headers.antt =====
-- The bytes of a message once `pack` has filled in its size.
use mona_server.Base.{
  ℕ, ◌+◌, ◌^◌, ◌<◌, ◌≡◌, refl, sym, ap, ◌∙◌, false, List, [], ◌∷◌, ◌++◌, ◌==◌, length,
  length-append, append_assoc, take, drop, take-append_length, drop-append_length, arith,
}
use mona_server.Binary.{store, flip24}
use mona_server.Rtmp.{Channel, Sender, packed_size, pack}

-- The place of the size is filled, and the size is that of the body.
module _ (front stamp mid body : List ℕ) (type head : ℕ) (c : Channel) (three : length stamp ≡ 3)
    (head_is : head ≡ 8 + length mid)
    (fits : length front + 7 + length mid + length body < 2 ^ 32) where
  abbrev before : List ℕ
  before = front ++ stamp

  abbrev gap : List ℕ
  gap = 0 ∷ 0 ∷ 0 ∷ []

  abbrev behind : List ℕ
  behind = type ∷ (mid ++ body)

  abbrev open_sender : Sender
  open_sender = record {
    packet = before ++ (gap ++ behind);
    size_pos = length front + 3;
    head_size = head;
  }

  before-length : length before ≡ length front + 3
  before-length = omega (arith, length-append front stamp, three)

  size_is : packed_size open_sender ≡ length body
  unfolding packed_size
  size_is = omega (
    arith,
    length-append before (gap ++ behind),
    before-length,
    length-append mid body,
    head_is,
    fits,
  )

  front_cut : take (length front + 3) (before ++ (gap ++ behind)) ≡ before
  front_cut =
      ap (λ (n : ℕ). take n (before ++ (gap ++ behind))) (sym before-length)
      ∙ take-append_length before (gap ++ behind)

  back_cut : drop (length front + 3 + 3) (before ++ (gap ++ behind)) ≡ behind
  back_cut =
      ap (λ (n : ℕ). drop n (before ++ (gap ++ behind)))
        (omega (arith, before-length, length-append before gap))
      ∙ ap (drop (length (before ++ gap))) (sym (append_assoc before gap behind))
      ∙ drop-append_length (before ++ gap) behind

  pub pack-filled : pack open_sender c ≡ (
    record {
      packet = before ++ store 3 (flip24 (length body)) ++ behind;
      size_pos = 0;
      head_size = head;
    },
    record c { body_size = length body },
  )
  unfolding pack
  pack-filled =
      let some_place : (length front + 3 == 0) ≡ false = ground arith in
      rw (some_place, front_cut, back_cut, size_is) refl
