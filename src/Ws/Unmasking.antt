-- ===== src/Ws/Unmasking.antt =====
-- What a mask hides, `decode` shows, with the type in front.
use mona_server.Base.{
  ℕ, suc, ◌+◌, ◌-◌, ◌%◌, ◌^◌, ◌≤◌, ◌<◌, ◌≡◌, refl, sym, ap, ◌∙◌, subst, true, List, [], ◌∷◌, ◌++◌,
  ltb, if◌then◌else◌, length, length-append, length-take, length-drop, take, drop, take_all,
  drop_all, take-append_length, drop-append_length, append-nil, bit_xor, get_or, arith,
}
use mona_server.Base.Bits.{bit_xor-cancel}
use mona_server.Base.Words.{IsU32, sub32}
use mona_server.Binary.{Order}
use mona_server.Binary.Reader.{Reader, reader, available, reset, read_raw}
use mona_server.Binary.Reader.Rest.{At}
use mona_server.Ws.{put, put_type, xor_mask, unmask_bytes, unmask, decode}

pub xor_mask-twice :
    (mask : List ℕ) (i : ℕ) (bytes : List ℕ) → xor_mask mask i (xor_mask mask i bytes) ≡ bytes
unfolding xor_mask
xor_mask-twice mask i [] = refl
xor_mask-twice mask i (b ∷ bytes) =
    ap (◌∷◌ (bit_xor (bit_xor b (get_or mask (i % 4) 0)) (get_or mask (i % 4) 0)))
      (xor_mask-twice mask (i + 1) bytes)
    ∙ ap (λ (x : ℕ). x ∷ bytes) (bit_xor-cancel b (get_or mask (i % 4) 0))

-- A payload under a mask of four bytes, which turns with every byte (RFC 6455, 5.3).
abbrev pub hide : ℕ → ℕ → ℕ → ℕ → List ℕ → List ℕ
hide a b c d [] = []
hide a b c d (byte ∷ rest) = bit_xor byte a ∷ hide b c d a rest

-- The four places of a mask, from each of them on.
record Turns (a b c d i : ℕ) (bytes : List ℕ) : Type 0 where
  first : i % 4 ≡ 0 → xor_mask (a ∷ b ∷ c ∷ d ∷ []) i bytes ≡ hide a b c d bytes
  second : i % 4 ≡ 1 → xor_mask (a ∷ b ∷ c ∷ d ∷ []) i bytes ≡ hide b c d a bytes
  third : i % 4 ≡ 2 → xor_mask (a ∷ b ∷ c ∷ d ∷ []) i bytes ≡ hide c d a b bytes
  fourth : i % 4 ≡ 3 → xor_mask (a ∷ b ∷ c ∷ d ∷ []) i bytes ≡ hide d a b c bytes

turns : (a b c d i : ℕ) (bytes : List ℕ) → Turns a b c d i bytes
unfolding xor_mask
turns a b c d i [] = record {
  first = λ e. refl;
  second = λ e. refl;
  third = λ e. refl;
  fourth = λ e. refl;
}
turns a b c d i (byte ∷ rest) =
    let t = turns a b c d (i + 1) rest in
    record {
      first = λ e. rw e (ap (◌∷◌ (bit_xor byte a)) (t.second (omega (arith, e))));
      second = λ e. rw e (ap (◌∷◌ (bit_xor byte b)) (t.third (omega (arith, e))));
      third = λ e. rw e (ap (◌∷◌ (bit_xor byte c)) (t.fourth (omega (arith, e))));
      fourth = λ e. rw e (ap (◌∷◌ (bit_xor byte d)) (t.first (omega (arith, e))));
    }

pub xor_mask-hide :
    (a b c d : ℕ) (bytes : List ℕ) → xor_mask (a ∷ b ∷ c ∷ d ∷ []) 0 bytes ≡ hide a b c d bytes
xor_mask-hide a b c d bytes = (turns a b c d 0 bytes).first refl

pub length-xor_mask :
    (mask : List ℕ) (i : ℕ) (bytes : List ℕ) → length (xor_mask mask i bytes) ≡ length bytes
unfolding xor_mask
length-xor_mask mask i [] = refl
length-xor_mask mask i (b ∷ bytes) = ap suc (length-xor_mask mask (i + 1) bytes)

module _ (c type : ℕ) (memory : List ℕ) (inside : c < length memory) where
  abbrev placed : List ℕ
  placed = take c memory ++ type ∷ drop (c + 1) memory

  front_is : length (take c memory) ≡ c
  front_is = omega (arith, length-take c memory, inside)

  length-placed : length placed ≡ length memory
  length-placed = omega (
    arith,
    front_is,
    length-append (take c memory) (type ∷ drop (c + 1) memory),
    length-drop (c + 1) memory,
    inside,
  )

  drop-placed : drop c placed ≡ type ∷ drop (c + 1) memory
  drop-placed =
      ap (λ (n : ℕ). drop n placed) (sym front_is)
      ∙ drop-append_length (take c memory) (type ∷ drop (c + 1) memory)

take-placed :
    (n c type : ℕ) (xs : List ℕ) → c < n → take (n - c) (type ∷ xs) ≡ type ∷ take (n - (c + 1)) xs
take-placed n c type xs h = ap (λ (k : ℕ). take k (type ∷ xs)) (step n c h)
  where
    step : (n c : ℕ) → c < n → n - c ≡ suc (n - (c + 1))
    step n c h = omega arith

placed-At :
    (r : Reader) (xs : List ℕ) (type c : ℕ)
    → At r xs
    → c + 1 ≡ r.current
    → At
        (record r { memory = take c r.memory ++ type ∷ drop (c + 1) r.memory; current = c })
        (type ∷ xs)
placed-At r xs type c a e =
    let inside : c < length r.memory = omega (arith, e, a.valid) in
    record {
      valid = record {
        ahead = omega (arith, e, a.valid);
        ends = a.valid.ends;
        backed = omega (arith, a.valid, length-placed c type r.memory inside);
        narrow = a.valid.narrow;
      };
      unread =
          ap (take (r.end - c)) (drop-placed c type r.memory inside)
          ∙ take-placed r.end c type (drop (c + 1) r.memory) (omega (arith, e, a.valid))
          ∙ ap (λ (n : ℕ). type ∷ take (r.end - n) (drop n r.memory)) e
          ∙ ap (◌∷◌ type) a.unread;
    }

-- The type takes the place of the byte before those to be read.
pub put_type-At :
    (r : Reader) (xs : List ℕ) (type : ℕ)
    → At r xs
    → 1 ≤ r.current
    → At (put_type r type) (type ∷ xs)
unfolding put_type put reset
put_type-At r xs type a h =
    let pos : (if ltb r.size (r.current - 1) then r.size else r.current - 1) ≡ r.current - 1 =
      ground (arith, a.valid) in
    subst
      (λ (c : ℕ).
        At (record r { memory = take c r.memory ++ type ∷ drop (c + 1) r.memory; current = c })
          (type ∷ xs))
      (sym pos) (placed-At r xs type (r.current - 1) a (omega (arith, h)))

module _ (initial mask hidden : List ℕ) (four : length initial ≡ 4) (four' : length mask ≡ 4)
    (room : IsU32 (length (mask ++ hidden))) where
  abbrev fresh : Reader
  fresh = reader (mask ++ hidden) Order.big_endian

  abbrev shown : List ℕ
  shown = xor_mask mask 0 hidden

  abbrev behind : Reader
  behind = record {
    flip_bytes = true;
    memory = mask ++ hidden;
    end = length (mask ++ hidden);
    current = 4;
    size = length (mask ++ hidden);
  }

  front : take 4 (mask ++ hidden) ≡ mask
  front = ap (λ (n : ℕ). take n (mask ++ hidden)) (sym four') ∙ take-append_length mask hidden

  back : drop 4 (mask ++ hidden) ≡ hidden
  back = ap (λ (n : ℕ). drop n (mask ++ hidden)) (sym four') ∙ drop-append_length mask hidden

  read_mask : read_raw fresh initial ≡ (mask, behind)
  unfolding read_raw reader
  read_mask =
      let size : (if ltb (sub32 (length (mask ++ hidden)) 0) (length initial)
            then sub32 (length (mask ++ hidden)) 0
            else length initial)
          ≡ 4 =
        ground (arith, four, four', length-append mask hidden, room) in
      let none_kept : drop 4 initial ≡ [] = drop_all 4 initial (omega (arith, four)) in
      rw (size, none_kept, front) (ap (λ (xs : List ℕ). (xs, behind)) (append-nil mask))

  behind-length : available behind ≡ length hidden
  behind-length = omega (arith, room, length-append mask hidden, four')

  unmasked_memory : (unmask_bytes mask behind).memory ≡ mask ++ shown
  unfolding unmask_bytes
  unmasked_memory =
      let none_left : drop (4 + length hidden) (mask ++ hidden) ≡ [] =
        drop_all (4 + length hidden) (mask ++ hidden)
          (omega (arith, length-append mask hidden, four')) in
      rw (behind-length, front, back, none_left, take_all (length hidden) hidden (omega arith))
        (append-nil (mask ++ shown))

  over-At : At (record behind { memory = mask ++ shown }) shown
  over-At =
      let size = length-xor_mask mask 0 hidden in
      record {
        valid = record {
          ahead = omega (arith, length-append mask hidden, four');
          ends = refl;
          backed = omega (arith, length-append mask hidden, length-append mask shown, size);
          narrow = room;
        };
        unread =
            ap (λ (xs : List ℕ). take (length (mask ++ hidden) - 4) xs)
              (ap (λ (n : ℕ). drop n (mask ++ shown)) (sym four') ∙ drop-append_length mask shown)
            ∙ take_all (length (mask ++ hidden) - 4) shown
                (omega (arith, length-append mask hidden, four', size));
      }

  behind-At : At (unmask_bytes mask behind) shown
  unfolding unmask_bytes
  behind-At =
      subst (λ (m : List ℕ). At (record behind { memory = m }) shown) (sym unmasked_memory) over-At

  behind-current : 1 ≤ (unmask_bytes mask behind).current
  unfolding unmask_bytes
  behind-current = omega arith

  pub unmask-At : At (unmask initial fresh) shown × (1 ≤ (unmask initial fresh).current)
  unfolding unmask
  unmask-At =
      subst
        (λ (p : List ℕ × Reader).
          At (unmask_bytes p.0 p.1) shown × (1 ≤ (unmask_bytes p.0 p.1).current))
        (sym read_mask) (behind-At, behind-current)

-- What is hidden behind a mask is shown, behind the type.
pub decode-At :
    (initial mask payload : List ℕ) (type : ℕ)
    → length initial ≡ 4
    → length mask ≡ 4
    → length mask + length payload < 2 ^ 32
    → At (decode initial (mask ++ xor_mask mask 0 payload) type) (type ∷ payload)
unfolding decode
decode-At initial mask payload type four four' room =
    let hidden = xor_mask mask 0 payload in
    let fits : IsU32 (length (mask ++ hidden)) =
      omega (arith, length-append mask hidden, length-xor_mask mask 0 payload, room) in
    let u = unmask-At initial mask hidden four four' fits in
    subst (λ (xs : List ℕ). At (decode initial (mask ++ hidden) type) (type ∷ xs))
      (xor_mask-twice mask 0 payload)
      (put_type-At (unmask initial (reader (mask ++ hidden) Order.big_endian))
        (xor_mask mask 0 hidden) type u.0 u.1)
