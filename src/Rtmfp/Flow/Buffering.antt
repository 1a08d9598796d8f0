-- ===== src/Rtmfp/Flow/Buffering.antt =====
-- `RTMFPFlow::fragmentHandler` keeps the invariant, and the stage never goes back.
use mona_server.Base.{
  ℕ, suc, ◌-◌, ◌^◌, ◌≤◌, ◌<◌, ◌≡◌, refl, sym, ◌∙◌, subst, Bool, true, false, [], ◌∷◌, some, ltb,
  ◌==◌, lt→ltb, le→ltb_false, if◌then◌else◌, inl, inr, Bool-cases, arith,
}
use native.Mathlib.Decide.{dec_le}
use mona_server.Base.Words.{add64}
use mona_server.Binary.Reader.{Reader}
use mona_server.Rtmfp.Fragment.{Fragment, message_end, new_fragment}
use mona_server.Rtmfp.Flow.{
  Flow, complete, sorted_handler, buffered, drain_up_to, drain_following, emplace, place,
  fragment_handler,
}
use mona_server.Rtmfp.Flow.Handled.{Entries, with_fragments, Above, Handled, sorted_handler-Handled}
use mona_server.Rtmfp.Flow.Draining.{
  IsValid, IsOpen, Round, sorted_handler-Round, Later, Later-trans, complete-Later, open-IsValid,
  drain_following-Later,
}

-- What the first loop leaves, up to the entry `stage`.
abbrev Drained : ℕ → ℕ → Flow × Bool → Type 0
Drained low stage (g, true) = Later low g
Drained low stage (g, false) =
    IsOpen g.stage g.fragments g × Above stage g.fragments × (low ≤ g.stage) × (g.stage ≤ stage)

Above-lower : (m n : ℕ) (l : Entries) → m ≤ n → Above n l → Above m l
Above-lower m n [] h a = tt
Above-lower m n ((first, x) ∷ rest) h a = (omega (arith, a.0), a.1, a.2)

Drained-lower :
    (m n stage : ℕ) (result : Flow × Bool) → m ≤ n → Drained n stage result → Drained m stage result
Drained-lower m n stage (g, true) h d = Later-trans m n g h d
Drained-lower m n stage (g, false) h (o, a, low, up) = (o, a, omega arith, up)

drain_up_to-Drained :
    (stage : ℕ) (l : Entries) (f : Flow)
    → f.stage ≤ stage
    → IsOpen f.stage l f
    → Drained f.stage stage (drain_up_to stage l f)
unfolding drain_up_to
drain_up_to-Drained stage [] f h o = (
  subst (λ (k : Entries). IsOpen f.stage k f) (sym o.entries) o,
  subst (Above stage) (sym o.entries) tt,
  omega arith,
  h,
)
drain_up_to-Drained stage ((first, x) ∷ rest) f h o = elim (Bool-cases (ltb stage first)) [
  | inl past ↦ rw past (
      let w : Above stage ((first, x) ∷ rest) = (ground (arith, past), o.waiting.1, o.waiting.2) in
      (
        subst (λ (k : Entries). IsOpen f.stage k f) (sym o.entries) o,
        subst (Above stage) (sym o.entries) w,
        omega arith,
        h,
      ))
  | inr up_to ↦ rw up_to (
      let handled = sorted_handler f first (buffered x) x.flags in
      let r : Round first rest handled =
        sorted_handler-Round first rest f (buffered x) x.flags (omega (arith, o.waiting.0))
          o.waiting.1 o.still_open o.waiting.2 in
      let low : f.stage ≤ first = omega (arith, o.waiting.0) in
      elim (Bool-cases (message_end x.flags)) [
        | inl end ↦ rw end (complete-Later first f.stage rest handled low r)
        | inr no_end ↦ rw no_end (
            Drained-lower f.stage handled.stage stage _ (omega (arith, r.stage_is)) (
              drain_up_to-Drained stage rest (with_fragments rest handled)
                (ground (arith, r.stage_is, up_to))
                (subst (λ (k : ℕ). IsOpen k rest (with_fragments rest handled)) (sym r.stage_is)
                  r.if_not)))
      ])
]

emplace-Above :
    (low stage : ℕ) (x : Fragment) (l : Entries)
    → low < stage
    → stage < 2 ^ 64 - 1
    → Above low l
    → Above low (emplace stage x l)
unfolding emplace
emplace-Above low stage x [] h b a = (h, b, tt)
emplace-Above low stage x ((first, y) ∷ rest) h b a = elim (Bool-cases (ltb first stage)) [
  | inl before ↦
      rw before (a.0, a.1, emplace-Above first stage x rest (ground (arith, before)) b a.2)
  | inr not_before ↦ rw not_before (elim (Bool-cases (first == stage)) [
    | inl there ↦ rw there a
    | inr behind ↦ rw behind (h, b, (ground (arith, not_before, behind), a.1, a.2))
  ])
]

place_far :
    (f : Flow) (next stage : ℕ) (fragment : Reader) (flags : ℕ)
    → IsOpen (suc f.stage) f.fragments f
    → next ≡ suc f.stage
    → next < stage
    → stage < 2 ^ 64 - 1
    → Later f.stage (place f next stage fragment flags)
unfolding place
place_far f next stage fragment flags o e h b = rw (lt→ltb next stage h) (
    let l : Entries = emplace stage (new_fragment fragment flags) f.fragments in
    open-IsValid (with_fragments l f) l (record {
      stage_fits = o.stage_fits;
      entries = refl;
      waiting =
          emplace-Above (suc f.stage) stage (new_fragment fragment flags) f.fragments (omega arith)
            b o.waiting;
      still_open = o.still_open;
    }))

drain_following-complete :
    (next : ℕ) (g : Flow)
    → IsValid (complete g)
    → g.completed ≡ false
    → drain_following next (complete g).fragments (complete g) ≡ complete g
unfolding drain_following complete
drain_following-complete next g v o = rw o refl

place_here :
    (f : Flow) (stage : ℕ) (fragment : Reader) (flags : ℕ)
    → f.stage ≤ stage
    → stage < 2 ^ 64 - 1
    → f.completed ≡ false
    → Above stage f.fragments
    → Later stage (place f stage stage fragment flags)
unfolding place
place_here f stage fragment flags low b o w =
    let handled = sorted_handler f stage fragment flags in
    let h : Handled f stage handled =
      sorted_handler-Handled f stage fragment flags low (omega arith) in
    let r : Round stage f.fragments handled =
      sorted_handler-Round stage f.fragments f fragment flags low b o w in
    let o2 : IsOpen handled.stage handled.fragments handled = record {
      stage_fits = r.if_not.stage_fits;
      entries = refl;
      waiting = rw (h.stage_is, h.same_fragments) w;
      still_open = h.same_completed ∙ o;
    } in
    rw (le→ltb_false stage stage (omega arith)) (elim (Bool-cases (message_end flags)) [
      | inl end ↦
          rw
            (
              end,
              drain_following-complete (add64 stage 1) handled r.if_ended (h.same_completed ∙ o),
            )
            (complete-Later stage stage f.fragments handled (omega arith) r)
      | inr no_end ↦ rw no_end (
          Later-trans stage handled.stage _ (omega (arith, h.stage_is)) (
            drain_following-Later (add64 stage 1) handled.fragments handled
              (omega (arith, h.stage_is)) o2))
    ])

after_drain :
    (low stage : ℕ) (drained : Flow) (ended : Bool) (fragment : Reader) (flags : ℕ)
    → low < stage
    → stage < 2 ^ 64 - 1
    → Drained low stage (drained, ended)
    → Later low (if ended then drained else place drained stage stage fragment flags)
after_drain low stage g true fragment flags h b d = d
after_drain low stage g false fragment flags h b (o, w, _, up) =
    Later-trans low stage _ (omega arith) (place_here g stage fragment flags up b o.still_open w)

not_drained :
    (f : Flow) (stage : ℕ) (fragment : Reader) (flags : ℕ)
    → IsValid f
    → f.completed ≡ false
    → add64 f.stage 1 ≤ stage
    → stage < 2 ^ 64 - 1
    → Later f.stage (place f (add64 f.stage 1) stage fragment flags)
not_drained f stage fragment flags v o h b =
    let next : add64 f.stage 1 ≡ suc f.stage = omega (arith, v.stage_fits) in
    elim (dec_le stage (suc f.stage)) [
      | yes here ↦
          let same : add64 f.stage 1 ≡ stage = omega arith in
          subst (λ (k : ℕ). Later f.stage (place f k stage fragment flags)) (sym same)
            (Later-trans f.stage stage _ (omega arith)
              (place_here f stage fragment flags (omega arith) b o (Above-at same next v.waiting)))
      | no far ↦
          place_far f (add64 f.stage 1) stage fragment flags
            (record {
              stage_fits = v.stage_fits;
              entries = refl;
              waiting = v.waiting;
              still_open = o;
            })
            next (omega arith) b
    ]
  where
    Above-at :
        add64 f.stage 1 ≡ stage
        → add64 f.stage 1 ≡ suc f.stage
        → Above (suc f.stage) f.fragments
        → Above stage f.fragments
    Above-at same next = subst (λ (k : ℕ). Above k f.fragments) (sym next ∙ same)

fragment_handler-completed :
    (f : Flow) (stage delta_nack : ℕ) (fragment : Reader) (flags : ℕ)
    → f.completed ≡ true
    → fragment_handler f stage delta_nack fragment flags ≡ some f
unfolding fragment_handler
fragment_handler-completed f stage delta_nack fragment flags done = ground (arith, done)

pub fragment_handler-old :
    (f : Flow) (stage delta_nack : ℕ) (fragment : Reader) (flags : ℕ)
    → f.has_stream ≡ true
    → ltb stage (add64 f.stage 1) ≡ true
    → fragment_handler f stage delta_nack fragment flags ≡ some f
unfolding fragment_handler
fragment_handler-old f stage delta_nack fragment flags s old = ground (arith, s, old)

-- The two ways to take a new fragment.
abbrev drained_first : Flow → ℕ → Reader → ℕ → Flow × Bool → Flow
drained_first f stage fragment flags result =
    if result.1 then result.0 else place result.0 stage stage fragment flags

abbrev capped : ℕ → ℕ → ℕ
capped stage delta_nack = if ltb stage delta_nack then stage else delta_nack

fragment_handler-new :
    (f : Flow) (stage delta_nack : ℕ) (fragment : Reader) (flags : ℕ)
    → f.completed ≡ false
    → f.has_stream ≡ true
    → ltb stage (add64 f.stage 1) ≡ false
    → fragment_handler f stage delta_nack fragment flags ≡ (
        if ltb f.stage (stage - capped stage delta_nack)
        then some (drained_first f stage fragment flags (drain_up_to stage f.fragments f))
        else some (place f (add64 f.stage 1) stage fragment flags))
unfolding fragment_handler
fragment_handler-new f stage delta_nack fragment flags o s new = ground (arith, o, s, new)

-- Of a valid flow with a stream and a stage below 2 ^ 64 - 1, whatever the flags, the bytes and
-- `delta_nack`: the handler returns a valid flow whose stage is no earlier. Valid means that the
-- waiting stages ascend from behind the next one, and that a completed flow holds nothing.
pub fragment_handler-IsValid :
    (f : Flow) (stage delta_nack : ℕ) (fragment : Reader) (flags : ℕ)
    → IsValid f
    → f.has_stream ≡ true
    → stage < 2 ^ 64 - 1
    → (g : Flow) × (fragment_handler f stage delta_nack fragment flags ≡ some g) × Later f.stage g
fragment_handler-IsValid f stage delta_nack fragment flags v s b = elim (Bool-cases f.completed) [
  | inl done ↦ (f, fragment_handler-completed f stage delta_nack fragment flags done, same)
  | inr o ↦ elim (Bool-cases (ltb stage (add64 f.stage 1))) [
    | inl old ↦ (f, fragment_handler-old f stage delta_nack fragment flags s old, same)
    | inr new ↦ elim (Bool-cases (ltb f.stage (stage - capped stage delta_nack))) [
      | inl jump ↦ (
        drained_first f stage fragment flags (drain_up_to stage f.fragments f),
        ground (arith, jump, fragment_handler-new f stage delta_nack fragment flags o s new),
        after_drain f.stage stage (drain_up_to stage f.fragments f).0
            (drain_up_to stage f.fragments f).1 fragment flags (behind new) b
            (drain_up_to-Drained stage f.fragments f (omega (arith, behind new)) (record {
              stage_fits = v.stage_fits;
              entries = refl;
              waiting = Above-lower f.stage (suc f.stage) f.fragments (omega arith) v.waiting;
              still_open = o;
            })),
      )
      | inr near ↦ (
        place f (add64 f.stage 1) stage fragment flags,
        ground (arith, near, fragment_handler-new f stage delta_nack fragment flags o s new),
        not_drained f stage fragment flags v o (ground (arith, new)) b,
      )
    ]
  ]
]
  where
    same : Later f.stage f
    same = record { is_valid = v; no_earlier = omega arith }

    behind : ltb stage (add64 f.stage 1) ≡ false → f.stage < stage
    behind new = ground (arith, new, v.stage_fits)
