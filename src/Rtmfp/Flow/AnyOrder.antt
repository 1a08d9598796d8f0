-- ===== src/Rtmfp/Flow/AnyOrder.antt =====
-- `RTMFPFlow::fragmentHandler`: fragments that arrive in any order, once or more than once.
use mona_server.Base.{
  ℕ, ◌+◌, ◌-◌, ◌^◌, ◌≤◌, ◌<◌, ◌≡◌, ◌⊎◌, refl, sym, ap, ◌∙◌, true, false, List, [], ◌∷◌, Option,
  some, ◌>>=◌, length, get_elem?_outside, All, inl, inr, arith,
}
use native.Mathlib.Decide.{dec_le}
use mona_server.Binary.Reader.{Reader}
use mona_server.Rtmfp.Fragment.{Fragment, new_fragment}
use mona_server.Rtmfp.Flow.{Flow, fragment_handler}
use mona_server.Rtmfp.Flow.Handled.{Entries, with_fragments}
use mona_server.Rtmfp.Flow.Messages.{in_order}
use mona_server.Rtmfp.Flow.Reordering.{
  IsOwn, IsPart, pieces, IsPieceAt, IsReady, Waiting, In, Follows,
}
use mona_server.Rtmfp.Flow.Collected.{first_piece}
use mona_server.Rtmfp.Flow.Stepped.{
  Stepped, Waiting-above, old-Stepped, early-Stepped, next-Stepped,
}

-- A call of the handler.
pub record Arrival : Type 0 where
  pub stage : ℕ
  pub delta_nack : ℕ
  pub fragment : Reader
  pub flags : ℕ

abbrev pub arrive : List Arrival → Flow → Option Flow
arrive [] f = some f
arrive (a ∷ rest) f = fragment_handler f a.stage a.delta_nack a.fragment a.flags >>= arrive rest

-- It brings one of the fragments `rest` that follow `base`, or an old one, and the sender has not
-- given up those before it.
abbrev pub Brings : ℕ → List Fragment → Arrival → Type 0
Brings base rest a =
    (a.stage ≤ base + a.delta_nack)
    × IsPieceAt base rest a.stage (new_fragment a.fragment a.flags)
    × IsOwn a.fragment a.flags

abbrev pub ComesIn : ℕ → List Arrival → Type 0
ComesIn stage [] = ⊥
ComesIn stage (a ∷ rest) = (a.stage ≡ stage) ⊎ ComesIn stage rest

piece-length :
    (base : ℕ) (rest : List Fragment) (stage : ℕ) (x : Fragment)
    → IsPieceAt base rest stage x
    → stage ≤ base + length rest
piece-length base rest stage x (inl old) = omega arith
piece-length base rest stage x (inr p) = elim (dec_le stage (base + length rest)) [
  | yes inside ↦ inside
  | no outside ↦ absurd (ground (arith, p, get_elem?_outside rest (stage - base - 1) (omega arith)))
]

module _ (h : Flow) (w : Entries) (a : Arrival) where
  abbrev Follow : List Fragment → Type 0
  Follow rest =
      Stepped h rest w a.stage
        (fragment_handler (with_fragments w h) a.stage a.delta_nack a.fragment a.flags)

  at_next-Stepped :
      (rest : List Fragment)
      → IsReady h rest
      → Waiting h.stage rest (h.stage + 1) w
      → Brings h.stage rest a
      → a.stage ≡ h.stage + 1
      → Follow rest
  at_next-Stepped [] ready waits b e =
      absurd
        (omega (arith, e, piece-length h.stage [] a.stage (new_fragment a.fragment a.flags) b.1))
  at_next-Stepped (y ∷ rest) ready waits b e =
      next-Stepped h w a.stage a.delta_nack a.fragment a.flags y rest ready waits
        (first_piece h.stage a.stage y rest (new_fragment a.fragment a.flags) e b.1) e b.0 b.2

  arrival-Stepped :
      (rest : List Fragment)
      → IsReady h rest
      → Waiting h.stage rest (h.stage + 1) w
      → Brings h.stage rest a
      → Follow rest
  arrival-Stepped rest ready waits b = elim (dec_le a.stage h.stage) [
    | yes old ↦ old-Stepped h w a.stage a.delta_nack a.fragment a.flags rest ready waits old
    | no new ↦ elim (dec_le a.stage (h.stage + 1)) [
      | yes near ↦ at_next-Stepped rest ready waits b (omega arith)
      | no far ↦
          early-Stepped h w a.stage a.delta_nack a.fragment a.flags rest ready waits b.1
            (omega arith) b.0
            (omega (
              arith,
              piece-length h.stage rest a.stage (new_fragment a.fragment a.flags) b.1,
              ready.fits,
            ))
    ]
  ]

Brings-moves :
    (h : Flow) (rest : List Fragment) (h2 : Flow) (rest2 : List Fragment) (arrivals : List Arrival)
    → Follows h rest h2 rest2
    → All (Brings h.stage rest) arrivals
    → All (Brings h2.stage rest2) arrivals
Brings-moves h rest h2 rest2 [] f b = tt
Brings-moves h rest h2 rest2 (a ∷ arrivals) f (b, more) = (
  (omega (arith, b.0, f.later), f.moves a.stage (new_fragment a.fragment a.flags) b.1, b.2),
  Brings-moves h rest h2 rest2 arrivals f more,
)

-- Nothing is left once every stage has come.
all_taken :
    (h : Flow) (rest : List Fragment) (w : Entries)
    → Waiting h.stage rest (h.stage + 1) w
    → ((i : ℕ) → h.stage < i → i ≤ h.stage + length rest → In i w)
    → (rest ≡ []) × (w ≡ [])
all_taken h [] [] a c = (refl, refl)
all_taken h [] ((first, x) ∷ w) a c =
    absurd (omega (arith, a.0, piece-length h.stage [] first x a.1))
all_taken h (y ∷ rest) w a c = absurd (
    omega (
      arith,
      Waiting-above h.stage (y ∷ rest) (h.stage + 1) w (h.stage + 1) a
          (c (h.stage + 1) (omega arith) (omega arith)),
    ))

arrive-collects :
    (arrivals : List Arrival) (h : Flow) (rest : List Fragment) (w : Entries)
    → IsReady h rest
    → Waiting h.stage rest (h.stage + 1) w
    → All (Brings h.stage rest) arrivals
    → ((i : ℕ) → h.stage < i → i ≤ h.stage + length rest → In i w ⊎ ComesIn i arrivals)
    → arrive arrivals (with_fragments w h) ≡ some (with_fragments [] (in_order h (pieces rest)))
arrive-collects [] h rest w ready a b c =
    let e = all_taken h rest w a (λ i l u. elim (c i l u) [ inl m ↦ m | inr m ↦ elim m [ ] ]) in
    rw (e.0, e.1) refl
arrive-collects (x ∷ arrivals) h rest w ready a b c =
    let s = arrival-Stepped h w x rest ready a b.0 in
    ap (λ (o : Option Flow). o >>= arrive arrivals) s.result_is
    ∙ arrive-collects arrivals s.flow s.left s.late s.follows.ready s.waits
        (Brings-moves h rest s.flow s.left arrivals s.follows b.1)
        (λ i l u. elim (c i (omega (arith, l, s.follows.later)) (omega (arith, u, s.follows.sum))) [
          | inl m ↦ inl (s.keeps i l (inl m))
          | inr (inl e) ↦ inl (s.keeps i l (inr (sym e)))
          | inr (inr m) ↦ inr m
        ])
    ∙ ap (λ (f : Flow). some (with_fragments [] f)) s.follows.same_end

-- Fragments, each without MESSAGE_END and below 2 ^ 32 bytes, are to follow the stage of an open
-- flow with a stream, all below 2 ^ 64. In the flow some of those behind the next one wait, by
-- ascending stages. Calls of the handler bring them in any order, any number of times, perhaps old
-- stages too, `delta_nack` gives up none, and what has neither BEFOREPART nor AFTERPART is read
-- from its own bytes; each of them comes or waits already. Then the calls return the flow that
-- `fragmentSortedHandler` makes of the same fragments in order, and nothing waits.
pub arrive-in_order :
    (f : Flow) (rest : List Fragment) (arrivals : List Arrival)
    → f.completed ≡ false
    → f.has_stream ≡ true
    → f.stage + length rest + 1 < 2 ^ 64
    → All IsPart rest
    → Waiting f.stage rest (f.stage + 1) f.fragments
    → All (Brings f.stage rest) arrivals
    → ((stage : ℕ)
        → f.stage < stage
        → stage ≤ f.stage + length rest
        → In stage f.fragments ⊎ ComesIn stage arrivals)
    → arrive arrivals f ≡ some (with_fragments [] (in_order f (pieces rest)))
arrive-in_order f rest arrivals o s n p a b c =
    arrive-collects arrivals f rest f.fragments
      (record { still_open = o; known = s; fits = n; parts = p }) a b c
