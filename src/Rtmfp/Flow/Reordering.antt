-- ===== src/Rtmfp/Flow/Reordering.antt =====
-- `RTMFPFlow::fragmentHandler`: fragments in any order, against the same fragments in order.
use mona_server.Base.{
  ℕ, suc, ◌+◌, ◌-◌, ◌^◌, ◌≤◌, ◌<◌, ◌≡◌, ◌⊎◌, refl, sym, ap, ◌∙◌, subst, true, false, ◌||◌, List, [],
  ◌∷◌, some, length, get_elem?, take_all, All, inl, inr, Option-cases, arith, ◌*◌, ◌/◌, ◌%◌, ◌++◌,
}
use native.Mathlib.Decide.{dec_le}
use mona_server.Base.Words.{IsU32, add64}
use mona_server.Binary.{big_endian}
use mona_server.Binary.Reader.{Reader, reader}
use mona_server.Rtmfp.Fragment.{
  Packet, Fragment, unread, new_packet, add, message_end, with_afterpart, with_beforepart,
}
use mona_server.Rtmfp.Flow.{Flow, sorted_handler, assemble, join, process, buffered}
use mona_server.Rtmfp.Flow.Handled.{Entries, with_fragments, Handled, sorted_handler-Handled}
use mona_server.Rtmfp.Flow.Messages.{Pieces, in_order, sorted_handler-next}

abbrev fresh : List ℕ → Packet
fresh b = record { fragments = 1; buffer = b }

abbrev more : Packet → List ℕ → Packet
more p b = record {
  fragments = p.fragments / 2 ^ 16 * 2 ^ 16 + (p.fragments + 1) % 2 ^ 16;
  buffer = p.buffer ++ b;
}

-- A fragment that is not the end of a flow.
abbrev pub IsPart : Fragment → Type 0
IsPart x = (message_end x.flags ≡ false) × IsU32 (length x.bytes)

-- Only the bytes of a part of a message are copied; a whole message keeps its reader.
abbrev pub IsOwn : Reader → ℕ → Type 0
IsOwn r flags =
    ((with_beforepart flags || with_afterpart flags) ≡ true) ⊎ (r ≡ reader (unread r) big_endian)

abbrev pub pieces : List Fragment → Pieces
pieces [] = []
pieces (x ∷ rest) = (buffered x, x.flags) ∷ pieces rest

with_fragments-assemble :
    (w : Entries) (f : Flow) (r : Reader) (flags : ℕ)
    → assemble (with_fragments w f) r flags ≡ with_fragments w (assemble f r flags)
unfolding assemble join process
with_fragments-assemble w f r flags = ground arith

-- Only the unread bytes of a part matter.
assemble-unread :
    (f : Flow) (r r' : Reader) (flags : ℕ)
    → unread r ≡ unread r'
    → (with_beforepart flags || with_afterpart flags) ≡ true
    → assemble f r flags ≡ assemble f r' flags
unfolding assemble join new_packet add
assemble-unread f r r' flags e p = elim (Option-cases f.packet) [
  | inl empty ↦ ground (arith, empty, p, started)
  | inr (q, held) ↦ ground (arith, held, p, started, added q)
]
  where
    started : new_packet r ≡ new_packet r'
    started = ap (λ (b : List ℕ). fresh b) e

    added : (q : Packet) → add q r ≡ add q r'
    added q = ap (λ (b : List ℕ). more q b) e

pub unread-buffered : (x : Fragment) → IsU32 (length x.bytes) → unread (buffered x) ≡ x.bytes
unfolding reader
unread-buffered x h = take_all _ x.bytes (omega arith)

-- The next fragment in order.
abbrev pub taken : Flow → Fragment → Flow
taken h x = assemble (record h { stage = h.stage + 1 }) (buffered x) x.flags

pub sorted_handler-taken :
    (w : Entries) (h : Flow) (x : Fragment) (r : Reader)
    → h.stage + 1 < 2 ^ 64
    → unread r ≡ x.bytes
    → IsPart x
    → IsOwn r x.flags
    → sorted_handler (with_fragments w h) (add64 h.stage 1) r x.flags ≡ with_fragments w (taken h x)
sorted_handler-taken w h x r fits e part own =
    let f = record h { stage = h.stage + 1 } in
    sorted_handler-next (with_fragments w h) r x.flags fits
    ∙ with_fragments-assemble w f r x.flags
    ∙ ap (with_fragments w) (elim own [
      | inl p ↦ assemble-unread f r (buffered x) x.flags (e ∙ sym (unread-buffered x part.1)) p
      | inr q ↦
          ap (λ (r' : Reader). assemble f r' x.flags)
            (q ∙ ap (λ (b : List ℕ). reader b big_endian) e)
    ])

pub buffered-IsOwn : (x : Fragment) → IsPart x → IsOwn (buffered x) x.flags
buffered-IsOwn x part =
    inr (ap (λ (b : List ℕ). reader b big_endian) (sym (unread-buffered x part.1)))

-- `rest` are the fragments that follow the stage `base`; `x` is the one at `stage`, or `stage` is past.
abbrev pub IsPieceAt : ℕ → List Fragment → ℕ → Fragment → Type 0
IsPieceAt base rest stage x = (stage ≤ base) ⊎ (get_elem? rest (stage - base - 1) ≡ some x)

-- The flow that has taken everything up to its stage, where `rest` is still to come.
pub record IsReady (h : Flow) (rest : List Fragment) : Type 0 where
  pub still_open : h.completed ≡ false
  pub known : h.has_stream ≡ true
  pub fits : h.stage + length rest + 1 < 2 ^ 64
  pub parts : All IsPart rest

-- Entries that wait behind `low`.
abbrev pub Waiting : ℕ → List Fragment → ℕ → Entries → Type 0
Waiting base rest low [] = Unit {0}
Waiting base rest low ((stage, x) ∷ w) =
    (low < stage) × IsPieceAt base rest stage x × Waiting base rest stage w

abbrev pub In : ℕ → Entries → Type 0
In stage [] = ⊥
In stage ((first, x) ∷ w) = (first ≡ stage) ⊎ In stage w

-- `h2` has taken some of `rest`, and `rest2` is left.
pub record Follows (h : Flow) (rest : List Fragment) (h2 : Flow) (rest2 : List Fragment)
    : Type 0 where
  pub ready : IsReady h2 rest2
  pub same_end : in_order h2 (pieces rest2) ≡ in_order h (pieces rest)
  pub later : h.stage ≤ h2.stage
  pub sum : h2.stage + length rest2 ≡ h.stage + length rest
  pub moves :
      (stage : ℕ) (x : Fragment) → IsPieceAt h.stage rest stage x → IsPieceAt h2.stage rest2 stage x

pub taken-Handled :
    (h : Flow) (x : Fragment) → h.stage + 1 < 2 ^ 64 → Handled h (h.stage + 1) (taken h x)
taken-Handled h x fits =
    subst (Handled h (h.stage + 1)) (sorted_handler-next h (buffered x) x.flags fits) (
      let next : add64 h.stage 1 ≡ h.stage + 1 = omega arith in
      subst (λ (n : ℕ). Handled h (h.stage + 1) (sorted_handler h n (buffered x) x.flags))
        (sym next) (sorted_handler-Handled h (h.stage + 1) (buffered x) x.flags (omega arith) fits))

piece-moves :
    (base : ℕ) (x : Fragment) (rest : List Fragment) (stage : ℕ) (y : Fragment)
    → IsPieceAt base (x ∷ rest) stage y
    → IsPieceAt (base + 1) rest stage y
piece-moves base x rest stage y (inl old) = inl (omega arith)
piece-moves base x rest stage y (inr e) = elim (dec_le stage (base + 1)) [
  | yes old ↦ inl old
  | no new ↦
      let n : stage - base - 1 ≡ suc (stage - (base + 1) - 1) = omega arith in
      inr (subst (λ (k : ℕ). get_elem? (x ∷ rest) k ≡ some y) n e)
]

pub taken-Follows :
    (h : Flow) (x : Fragment) (rest : List Fragment)
    → IsReady h (x ∷ rest)
    → Follows h (x ∷ rest) (taken h x) rest
taken-Follows h x rest r =
    let n : h.stage + 1 < 2 ^ 64 = omega (arith, r.fits) in
    let t = taken-Handled h x n in
    record {
      ready = record {
        still_open = t.same_completed ∙ r.still_open;
        known = t.same_stream ∙ r.known;
        fits = omega (arith, r.fits, t.stage_is);
        parts = r.parts.1;
      };
      same_end =
          ap (λ (f : Flow). in_order f (pieces rest))
            (sym (sorted_handler-next h (buffered x) x.flags n));
      later = omega (arith, t.stage_is);
      sum = omega (arith, t.stage_is);
      moves = λ stage y m.
          subst (λ (k : ℕ). IsPieceAt k rest stage y) (sym t.stage_is)
            (piece-moves h.stage x rest stage y m);
    }

pub Follows-refl : (h : Flow) (rest : List Fragment) → IsReady h rest → Follows h rest h rest
Follows-refl h rest r = record {
  ready = r;
  same_end = refl;
  later = omega arith;
  sum = refl;
  moves = λ stage x m. m;
}

pub Follows-trans :
    (h : Flow) (rest : List Fragment) (h2 : Flow) (rest2 : List Fragment) (h3 : Flow)
    (rest3 : List Fragment)
    → Follows h rest h2 rest2
    → Follows h2 rest2 h3 rest3
    → Follows h rest h3 rest3
Follows-trans h rest h2 rest2 h3 rest3 f g = record {
  ready = g.ready;
  same_end = g.same_end ∙ f.same_end;
  later = omega (arith, f.later, g.later);
  sum = g.sum ∙ f.sum;
  moves = λ stage x m. g.moves stage x (f.moves stage x m);
}
