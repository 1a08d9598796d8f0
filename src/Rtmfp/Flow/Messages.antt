-- ===== src/Rtmfp/Flow/Messages.antt =====
-- `RTMFPFlow::fragmentSortedHandler`: the fragments of one message, in order, give one message.
use mona_server.Base.{
  ℕ, suc, ◌+◌, ◌^◌, ◌<◌, ◌≡◌, refl, sym, ap, true, false, List, [], ◌∷◌, ◌++◌, none, some, arith,
  length, All, append-nil, append_assoc,
}
use mona_server.Base.Words.{add64}
use mona_server.Binary.{big_endian}
use mona_server.Binary.Reader.{Reader, reader}
use mona_server.Rtmfp.Fragment.{
  Message, with_afterpart, with_beforepart, abandonment, unread, new_packet, add,
}
use mona_server.Rtmfp.Flow.{Flow, assemble, join, process, sorted_handler, unpack}

-- Fragments with their flags.
abbrev pub Pieces : Type 0
Pieces = List (Reader × ℕ)

-- Fragments that arrive in order, each at the stage that follows.
abbrev pub in_order : Flow → Pieces → Flow
in_order f [] = f
in_order f ((fragment, flags) ∷ rest) =
    in_order (sorted_handler f (add64 f.stage 1) fragment flags) rest

abbrev pub joined : Pieces → List ℕ
joined [] = []
joined ((fragment, flags) ∷ rest) = unread fragment ++ joined rest

abbrev pub IsFirst : ℕ → Type 0
IsFirst flags =
    (abandonment flags ≡ false) × (with_beforepart flags ≡ false) × (with_afterpart flags ≡ true)

abbrev pub IsMiddle : ℕ → Type 0
IsMiddle flags =
    (abandonment flags ≡ false) × (with_beforepart flags ≡ true) × (with_afterpart flags ≡ true)

abbrev pub IsLast : ℕ → Type 0
IsLast flags =
    (abandonment flags ≡ false) × (with_beforepart flags ≡ true) × (with_afterpart flags ≡ false)

-- `f` after the first `n` fragments of a message, with these bytes.
record Holds (f : Flow) (n : ℕ) (bytes : List ℕ) (g : Flow) : Type 0 where
  stage_is : g.stage ≡ f.stage + n
  packet_is : g.packet ≡ some (record { fragments = n; buffer = bytes })
  same_lost : g.number_lost ≡ f.number_lost
  same_processed : g.processed ≡ f.processed

pub sorted_handler-next :
    (f : Flow) (fragment : Reader) (flags : ℕ)
    → f.stage + 1 < 2 ^ 64
    → sorted_handler f (add64 f.stage 1) fragment flags
      ≡ assemble (record f { stage = f.stage + 1 }) fragment flags
unfolding sorted_handler
sorted_handler-next f fragment flags h = ground arith

first-Holds :
    (f : Flow) (fragment : Reader) (flags : ℕ)
    → f.packet ≡ none
    → IsFirst flags
    → Holds f 1 (unread fragment) (assemble (record f { stage = f.stage + 1 }) fragment flags)
unfolding assemble new_packet
first-Holds f fragment flags e i = ground arith

middle-Holds :
    (f g : Flow) (n : ℕ) (bytes : List ℕ) (fragment : Reader) (flags : ℕ)
    → Holds f n bytes g
    → n + 1 < 2 ^ 16
    → IsMiddle flags
    → Holds f
        (n + 1)
        (bytes ++ unread fragment)
        (assemble (record g { stage = g.stage + 1 }) fragment flags)
unfolding assemble join add
middle-Holds f g n bytes fragment flags h small i = ground arith

-- `g` is `f` after a message of `n` fragments with these bytes.
pub record Delivers (f : Flow) (n : ℕ) (bytes : List ℕ) (g : Flow) : Type 0 where
  pub stage_is : g.stage ≡ f.stage + n
  pub nothing_held : g.packet ≡ none
  pub none_lost : g.number_lost ≡ 0
  pub message : Message
  pub one_more : g.processed ≡ f.processed ++ message ∷ []
  pub unpacked : (message.kind, message.time, message.packet) ≡ unpack (reader bytes big_endian)
  pub fragments_are : message.fragments ≡ n
  pub lost_is : message.lost ≡ f.number_lost

last-Delivers :
    (f g : Flow) (n : ℕ) (bytes : List ℕ) (fragment : Reader) (flags : ℕ)
    → Holds f n bytes g
    → n + 1 < 2 ^ 16
    → IsLast flags
    → Delivers f
        (n + 1)
        (bytes ++ unread fragment)
        (assemble (record g { stage = g.stage + 1 }) fragment flags)
unfolding assemble join add process
last-Delivers f g n bytes fragment flags h small i =
    let (type, time, r) = unpack (reader (bytes ++ unread fragment) big_endian) in
    record {
      stage_is = ground arith;
      nothing_held = ground arith;
      none_lost = ground arith;
      message = record {
        kind = type;
        time = time;
        packet = r;
        fragments = n + 1;
        lost = f.number_lost;
      };
      one_more = ground arith;
      unpacked = refl;
      fragments_are = refl;
      lost_is = refl;
    }

pub Delivers-cast :
    {f : Flow} {n n' : ℕ} {bytes bytes' : List ℕ} {g g' : Flow}
    → n ≡ n'
    → bytes ≡ bytes'
    → g' ≡ g
    → Delivers f n bytes g
    → Delivers f n' bytes' g'
Delivers-cast e1 e2 e3 d = rw (← e1, ← e2, e3) d

rest-Delivers :
    (f g : Flow) (n : ℕ) (bytes : List ℕ) (middles : Pieces) (fragment : Reader) (flags : ℕ)
    → Holds f n bytes g
    → All (λ (p : Reader × ℕ). IsMiddle p.1) middles
    → IsLast flags
    → n + length middles + 1 < 2 ^ 16
    → f.stage + n + length middles + 1 < 2 ^ 64
    → Delivers f
        (n + length middles + 1)
        (bytes ++ joined (middles ++ (fragment, flags) ∷ []))
        (in_order g (middles ++ (fragment, flags) ∷ []))
rest-Delivers f g n bytes [] fragment flags h m l small fits =
    let count : n + 1 ≡ n + 0 + 1 = omega arith in
    let one : unread fragment ≡ joined ((fragment, flags) ∷ []) =
      sym (append-nil (unread fragment)) in
    let next = sorted_handler-next g fragment flags (omega (arith, h.stage_is)) in
    Delivers-cast count (ap (λ (b : List ℕ). bytes ++ b) one) next
      (last-Delivers f g n bytes fragment flags h (omega arith) l)
rest-Delivers f g n bytes ((x, y) ∷ middles) fragment flags h m l small fits =
    let count : n + 1 + length middles + 1 ≡ n + suc (length middles) + 1 = omega arith in
    let rest : Pieces = middles ++ (fragment, flags) ∷ [] in
    let next = sorted_handler-next g x y (omega (arith, h.stage_is)) in
    let held = middle-Holds f g n bytes x y h (omega arith) m.0 in
    Delivers-cast count (append_assoc bytes (unread x) (joined rest))
      (ap (λ (k : Flow). in_order k rest) next)
      (rest-Delivers f (assemble (record g { stage = g.stage + 1 }) x y) (n + 1) (bytes ++ unread x)
        middles fragment flags held m.1 l (omega arith) (omega arith))

-- A flow that holds no packet takes a first fragment (AFTERPART), middle ones (BEFOREPART and
-- AFTERPART) and a last one (BEFOREPART), none of them abandoned, at the stages that follow: fewer
-- than 2 ^ 16 fragments in all, the stages below 2 ^ 64. Then the stage has moved on by their
-- number, exactly one message more was processed, which is what `unpack` gives of the joined bytes
-- with the number of fragments and of those lost before, and neither a packet nor a count of
-- losses is left.
pub in_order-Delivers :
    (f : Flow) (first : Reader) (first_flags : ℕ) (middles : Pieces) (last : Reader)
    (last_flags : ℕ)
    → f.packet ≡ none
    → IsFirst first_flags
    → All (λ (p : Reader × ℕ). IsMiddle p.1) middles
    → IsLast last_flags
    → length middles + 2 < 2 ^ 16
    → f.stage + length middles + 2 < 2 ^ 64
    → Delivers f
        (length middles + 2)
        (joined ((first, first_flags) ∷ middles ++ (last, last_flags) ∷ []))
        (in_order f ((first, first_flags) ∷ middles ++ (last, last_flags) ∷ []))
in_order-Delivers f first first_flags middles last last_flags e i m l small fits =
    let count : 1 + length middles + 1 ≡ length middles + 2 = omega arith in
    let rest : Pieces = middles ++ (last, last_flags) ∷ [] in
    let next = sorted_handler-next f first first_flags (omega arith) in
    Delivers-cast count refl (ap (λ (k : Flow). in_order k rest) next) (
      rest-Delivers f (assemble (record f { stage = f.stage + 1 }) first first_flags) 1
        (unread first) middles last last_flags (first-Holds f first first_flags e i) m l
        (omega arith) (omega arith))
