-- ===== src/Rtmfp/Flow/Collected.antt =====
-- `RTMFPFlow::fragmentHandler`: the fragments that wait, taken once the gap in front of them is filled.
use mona_server.Base.{
  ℕ, ◌+◌, ◌-◌, ◌^◌, ◌<◌, ◌≡◌, refl, sym, ap, ◌∙◌, subst, true, false, List, [], ◌∷◌, some, ltb,
  get_elem?, inl, inr, if_false, arith,
}
use native.Mathlib.Decide.{dec_le}
use mona_server.Base.Words.{add64}
use mona_server.Rtmfp.Fragment.{Fragment, message_end}
use mona_server.Rtmfp.Flow.{Flow, sorted_handler, buffered, drain_following}
use mona_server.Rtmfp.Flow.Handled.{Entries, with_fragments}
use mona_server.Rtmfp.Flow.Reordering.{
  buffered-IsOwn, IsPart, IsPieceAt, IsReady, Waiting, In, Follows, Follows-refl, Follows-trans,
  taken, taken-Follows, taken-Handled, sorted_handler-taken, unread-buffered,
}

-- The flow `result` has taken what follows, and the others wait.
pub record Caught (h : Flow) (rest : List Fragment) (w : Entries) (result : Flow) : Type 0 where
  pub flow : Flow
  pub left : List Fragment
  pub late : Entries
  pub result_is : result ≡ with_fragments late flow
  pub follows : Follows h rest flow left
  pub waits : Waiting flow.stage left (flow.stage + 1) late
  pub keeps : (stage : ℕ) → flow.stage < stage → In stage w → In stage late

pub Waiting-moves :
    (h : Flow) (rest : List Fragment) (h2 : Flow) (rest2 : List Fragment) (low : ℕ) (w : Entries)
    → Follows h rest h2 rest2
    → Waiting h.stage rest low w
    → Waiting h2.stage rest2 low w
Waiting-moves h rest h2 rest2 low [] f a = tt
Waiting-moves h rest h2 rest2 low ((stage, x) ∷ w) f a =
    (a.0, f.moves stage x a.1, Waiting-moves h rest h2 rest2 stage w f a.2)

pub first_piece :
    (base stage : ℕ) (y : Fragment) (rest : List Fragment) (x : Fragment)
    → stage ≡ base + 1
    → IsPieceAt base (y ∷ rest) stage x
    → x ≡ y
first_piece base stage y rest x e (inl old) = absurd (omega arith)
first_piece base stage y rest x e (inr p) =
    let n : stage - base - 1 ≡ 0 = omega arith in
    let q : some y ≡ some x = subst (λ (k : ℕ). get_elem? (y ∷ rest) k ≡ some x) n p in
    ground (arith, q)

drained_none : (n : ℕ) (f : Flow) → drain_following n [] f ≡ f
unfolding drain_following
drained_none n f = refl

drained_gap :
    (h : Flow) (first : ℕ) (x : Fragment) (w : Entries)
    → h.stage + 1 < first
    → drain_following (add64 h.stage 1) ((first, x) ∷ w) (with_fragments ((first, x) ∷ w) h)
      ≡ with_fragments ((first, x) ∷ w) h
unfolding drain_following
drained_gap h first x w l =
    let gap : ltb (add64 h.stage 1) first ≡ true = ground (arith, l) in rw gap refl

-- A gap is left in front of all that wait.
waits_all :
    (h : Flow) (rest : List Fragment) (first : ℕ) (x : Fragment) (w : Entries)
    → IsReady h rest
    → Waiting h.stage rest h.stage ((first, x) ∷ w)
    → h.stage + 1 < first
    → Caught h rest ((first, x) ∷ w) (with_fragments ((first, x) ∷ w) h)
waits_all h rest first x w r a gap = record {
  flow = h;
  left = rest;
  late = (first, x) ∷ w;
  result_is = refl;
  follows = Follows-refl h rest r;
  waits = (gap, a.1, a.2);
  keeps = λ stage l i. i;
}

-- A round of the second loop at the next stage.
drain_following-round :
    (h : Flow) (x : Fragment) (w : Entries)
    → h.stage + 1 < 2 ^ 64
    → IsPart x
    → drain_following
        (add64 h.stage 1)
        ((h.stage + 1, x) ∷ w)
        (with_fragments ((h.stage + 1, x) ∷ w) h)
      ≡ drain_following (add64 (taken h x).stage 1) w (with_fragments w (taken h x))
unfolding drain_following
drain_following-round h x w fits part =
    let next : ltb (add64 h.stage 1) (h.stage + 1) ≡ false = ground (arith, fits) in
    let stage : add64 (add64 h.stage 1) 1 ≡ add64 (taken h x).stage 1 =
      omega (arith, (taken-Handled h x fits).stage_is) in
    let handled =
      sorted_handler (with_fragments ((h.stage + 1, x) ∷ w) h) (add64 h.stage 1) (buffered x)
        x.flags in
    if_false (ltb (add64 h.stage 1) (h.stage + 1)) _ _ next
    ∙ if_false (message_end x.flags) _ _ part.0
    ∙ ap (λ (g : Flow). drain_following (add64 (add64 h.stage 1) 1) w (with_fragments w g))
        (sorted_handler-taken ((h.stage + 1, x) ∷ w) h x (buffered x) fits
          (unread-buffered x part.1) part (buffered-IsOwn x part))
    ∙ ap (λ (n : ℕ). drain_following n w (with_fragments w (taken h x))) stage

-- What has taken the next fragment and then others.
Caught-next :
    (h : Flow) (x : Fragment) (rest : List Fragment) (w : Entries) (result : Flow)
    → IsReady h (x ∷ rest)
    → Caught (taken h x) rest w result
    → Caught h (x ∷ rest) ((h.stage + 1, x) ∷ w) result
Caught-next h x rest w result r c =
    let t = taken-Handled h x (omega (arith, r.fits)) in
    record {
      flow = c.flow;
      left = c.left;
      late = c.late;
      result_is = c.result_is;
      follows =
          Follows-trans h (x ∷ rest) (taken h x) rest c.flow c.left (taken-Follows h x rest r)
            c.follows;
      waits = c.waits;
      keeps = λ stage later i. elim i [
        | inl e ↦ absurd (omega (arith, e, later, t.stage_is, c.follows.later))
        | inr i' ↦ c.keeps stage later i'
      ];
    }

pub drain_following-Caught :
    (h : Flow) (rest : List Fragment) (w : Entries)
    → IsReady h rest
    → Waiting h.stage rest h.stage w
    → Caught h rest w (drain_following (add64 h.stage 1) w (with_fragments w h))
drain_following-Caught h rest [] r a =
    rw (drained_none (add64 h.stage 1) (with_fragments [] h)) (record {
      flow = h;
      left = rest;
      late = [];
      result_is = refl;
      follows = Follows-refl h rest r;
      waits = tt;
      keeps = λ stage l i. i;
    })
drain_following-Caught h [] ((first, x) ∷ w) r a = no_piece a.1
  where
    no_piece : {A : Type 0} → IsPieceAt h.stage [] first x → A
    no_piece (inl old) = absurd (omega (arith, a.0))
    no_piece (inr p) = absurd (ground (arith, p))
drain_following-Caught h (y ∷ rest) ((first, x) ∷ w) r a = elim (dec_le first (h.stage + 1)) [
  | yes low ↦
      let e : first ≡ h.stage + 1 = omega (arith, a.0) in
      let same : x ≡ y = first_piece h.stage first y rest x e a.1 in
      let t = taken-Handled h y (omega (arith, r.fits)) in
      let f = taken-Follows h y rest r in
      let a' : Waiting (taken h y).stage rest (taken h y).stage w =
        subst (λ (k : ℕ). Waiting (taken h y).stage rest k w) (e ∙ sym t.stage_is)
          (Waiting-moves h (y ∷ rest) (taken h y) rest first w f a.2) in
      subst
        (λ (p : ℕ × Fragment).
          Caught h (y ∷ rest) (p ∷ w)
            (drain_following (add64 h.stage 1) (p ∷ w) (with_fragments (p ∷ w) h)))
        (λ i. (sym e i, sym same i))
        (rw (drain_following-round h y w (omega (arith, r.fits)) r.parts.0)
          (Caught-next h y rest w _ r (drain_following-Caught (taken h y) rest w f.ready a')))
  | no far ↦
      rw (drained_gap h first x w (omega arith))
        (waits_all h (y ∷ rest) first x w r a (omega arith))
]
