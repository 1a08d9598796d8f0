-- ===== src/Rtmfp/Flow/Stepped.antt =====
-- `RTMFPFlow::fragmentHandler`: what one fragment changes in a flow that collects the parts of messages.
use mona_server.Base.{
  ℕ, ◌+◌, ◌^◌, ◌≤◌, ◌<◌, ◌≡◌, ◌⊎◌, sym, ap, ◌∙◌, subst, true, false, List, [], ◌∷◌, Option, some,
  ltb, ◌==◌, inl, inr, Bool-cases, if_false, arith,
}
use mona_server.Base.Words.{add64}
use mona_server.Binary.Reader.{Reader}
use mona_server.Rtmfp.Fragment.{Fragment, unread, new_fragment, message_end}
use mona_server.Rtmfp.Flow.{Flow, sorted_handler, drain_following, emplace, place, fragment_handler}
use mona_server.Rtmfp.Flow.Handled.{Entries, with_fragments}
use mona_server.Rtmfp.Flow.Buffering.{fragment_handler-old}
use mona_server.Rtmfp.Flow.Arrival.{fragment_handler-kept}
use mona_server.Rtmfp.Flow.Reordering.{
  IsOwn, IsPart, IsPieceAt, IsReady, Waiting, In, Follows, Follows-refl, Follows-trans, taken,
  taken-Follows, taken-Handled, sorted_handler-taken,
}
use mona_server.Rtmfp.Flow.Collected.{Waiting-moves, drain_following-Caught}

emplace-Waiting :
    (base : ℕ) (rest : List Fragment) (low stage : ℕ) (x : Fragment) (w : Entries)
    → low < stage
    → IsPieceAt base rest stage x
    → Waiting base rest low w
    → Waiting base rest low (emplace stage x w)
unfolding emplace
emplace-Waiting base rest low stage x [] l p a = (l, p, tt)
emplace-Waiting base rest low stage x ((first, y) ∷ w) l p a = elim (Bool-cases (ltb first stage)) [
  | inl before ↦
      rw before (a.0, a.1, emplace-Waiting base rest first stage x w (ground (arith, before)) p a.2)
  | inr not_before ↦ rw not_before (elim (Bool-cases (first == stage)) [
    | inl there ↦ rw there a
    | inr behind ↦ rw behind (l, p, (ground (arith, not_before, behind), a.1, a.2))
  ])
]

emplace-In :
    (stage : ℕ) (x : Fragment) (w : Entries) (i : ℕ)
    → In i w ⊎ (i ≡ stage)
    → In i (emplace stage x w)
unfolding emplace
emplace-In stage x [] i (inl m) = elim m [ ]
emplace-In stage x [] i (inr e) = inl (sym e)
emplace-In stage x ((first, y) ∷ w) i m = elim (Bool-cases (ltb first stage)) [
  | inl before ↦ rw before (elim m [
    | inl (inl e) ↦ inl e
    | inl (inr m') ↦ inr (emplace-In stage x w i (inl m'))
    | inr e ↦ inr (emplace-In stage x w i (inr e))
  ])
  | inr not_before ↦ rw not_before (elim (Bool-cases (first == stage)) [
    | inl there ↦ rw there (elim m [ inl m' ↦ m' | inr e ↦ inl (ground (arith, there, e)) ])
    | inr behind ↦ rw behind (elim m [ inl m' ↦ inr m' | inr e ↦ inl (sym e) ])
  ])
]

pub Waiting-above :
    (base : ℕ) (rest : List Fragment) (low : ℕ) (w : Entries) (i : ℕ)
    → Waiting base rest low w
    → In i w
    → low < i
Waiting-above base rest low [] i a m = elim m [ ]
Waiting-above base rest low ((first, x) ∷ w) i a (inl e) = omega (arith, a.0, e)
Waiting-above base rest low ((first, x) ∷ w) i a (inr m) =
    omega (arith, a.0, Waiting-above base rest first w i a.2 m)

-- What one arrival at `stage` leaves.
pub record Stepped (h : Flow) (rest : List Fragment) (w : Entries) (stage : ℕ)
    (result : Option Flow) : Type 0 where
  pub flow : Flow
  pub left : List Fragment
  pub late : Entries
  pub result_is : result ≡ some (with_fragments late flow)
  pub follows : Follows h rest flow left
  pub waits : Waiting flow.stage left (flow.stage + 1) late
  pub keeps : (i : ℕ) → flow.stage < i → In i w ⊎ (i ≡ stage) → In i late

module _ (h : Flow) (w : Entries) (stage delta_nack : ℕ) (r : Reader) (flags : ℕ) where
  abbrev pub result : Option Flow
  result = fragment_handler (with_fragments w h) stage delta_nack r flags

  pub old-Stepped :
      (rest : List Fragment)
      → IsReady h rest
      → Waiting h.stage rest (h.stage + 1) w
      → stage ≤ h.stage
      → Stepped h rest w stage result
  old-Stepped rest ready a old = record {
    flow = h;
    left = rest;
    late = w;
    result_is =
        fragment_handler-old (with_fragments w h) stage delta_nack r flags ready.known
          (ground (arith, old, ready.fits));
    follows = Follows-refl h rest ready;
    waits = a;
    keeps = λ i later m. elim m [ inl m' ↦ m' | inr e ↦ absurd (omega (arith, e, later, old)) ];
  }

  pub early-Stepped :
      (rest : List Fragment)
      → IsReady h rest
      → Waiting h.stage rest (h.stage + 1) w
      → IsPieceAt h.stage rest stage (new_fragment r flags)
      → h.stage + 1 < stage
      → stage ≤ h.stage + delta_nack
      → stage < 2 ^ 64
      → Stepped h rest w stage result
  early-Stepped rest ready a p early alive fits = record {
    flow = h;
    left = rest;
    late = emplace stage (new_fragment r flags) w;
    result_is = fragment_handler-kept (with_fragments w h) stage delta_nack r flags (record {
      still_open = ready.still_open;
      known = ready.known;
      behind_gap = early;
      stage_fits = fits;
      gap_alive = alive;
    });
    follows = Follows-refl h rest ready;
    waits = emplace-Waiting h.stage rest (h.stage + 1) stage (new_fragment r flags) w early p a;
    keeps = λ i later m. emplace-In stage (new_fragment r flags) w i m;
  }

  -- The arrival that follows opens the way for those that wait.
  next_placed :
      h.completed ≡ false
      → h.has_stream ≡ true
      → h.stage + 1 < 2 ^ 64
      → stage ≡ h.stage + 1
      → stage ≤ h.stage + delta_nack
      → result ≡ some (place (with_fragments w h) (add64 h.stage 1) stage r flags)
  unfolding fragment_handler
  next_placed o s fits e alive = ground arith

  placed :
      (x : Fragment)
      → h.stage + 1 < 2 ^ 64
      → stage ≡ h.stage + 1
      → unread r ≡ x.bytes
      → flags ≡ x.flags
      → IsPart x
      → IsOwn r flags
      → place (with_fragments w h) (add64 h.stage 1) stage r flags
        ≡ drain_following (add64 (taken h x).stage 1) w (with_fragments w (taken h x))
  unfolding place
  placed x fits e bytes same part own =
      let next : ltb (add64 h.stage 1) stage ≡ false = ground (arith, e, fits) in
      let open_end : message_end flags ≡ false = ap message_end same ∙ part.0 in
      let handled = sorted_handler (with_fragments w h) (add64 h.stage 1) r flags in
      let after : add64 (add64 h.stage 1) 1 ≡ add64 (taken h x).stage 1 =
        omega (arith, (taken-Handled h x fits).stage_is) in
      if_false (ltb (add64 h.stage 1) stage) _ _ next
      ∙ ap (λ (g : Flow). drain_following (add64 (add64 h.stage 1) 1) g.fragments g)
          (if_false (message_end flags) _ handled open_end
            ∙ ap (λ (n : ℕ). sorted_handler (with_fragments w h) (add64 h.stage 1) r n) same
            ∙ sorted_handler-taken w h x r fits bytes part (subst (IsOwn r) same own))
      ∙ ap (λ (n : ℕ). drain_following n w (with_fragments w (taken h x))) after

  pub next-Stepped :
      (y : Fragment) (rest : List Fragment)
      → IsReady h (y ∷ rest)
      → Waiting h.stage (y ∷ rest) (h.stage + 1) w
      → new_fragment r flags ≡ y
      → stage ≡ h.stage + 1
      → stage ≤ h.stage + delta_nack
      → IsOwn r flags
      → Stepped h (y ∷ rest) w stage result
  unfolding new_fragment
  next-Stepped y rest ready a same e alive own =
      let fits : h.stage + 1 < 2 ^ 64 = omega (arith, ready.fits) in
      let t = taken-Handled h y fits in
      let f = taken-Follows h y rest ready in
      let c = drain_following-Caught (taken h y) rest w f.ready (
        subst (λ (k : ℕ). Waiting (taken h y).stage rest k w) (sym t.stage_is)
          (Waiting-moves h (y ∷ rest) (taken h y) rest (h.stage + 1) w f a)) in
      record {
        flow = c.flow;
        left = c.left;
        late = c.late;
        result_is =
            next_placed ready.still_open ready.known fits e alive
            ∙ ap some (
                placed y fits e (ap (λ (x : Fragment). x.bytes) same)
                  (ap (λ (x : Fragment). x.flags) same) ready.parts.0 own
                ∙ c.result_is);
        follows = Follows-trans h (y ∷ rest) (taken h y) rest c.flow c.left f c.follows;
        waits = c.waits;
        keeps = λ i later m. elim m [
          | inl m' ↦ c.keeps i later m'
          | inr e' ↦ absurd (omega (arith, e, e', later, t.stage_is, c.follows.later))
        ];
      }
