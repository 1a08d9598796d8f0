-- ===== src/Rtmfp/Flow/Draining.antt =====
-- The invariant of `RTMFPFlow` and the rounds of the loops in `fragmentHandler`.
use mona_server.Base.{
  ℕ, suc, ◌-◌, ◌^◌, ◌≤◌, ◌<◌, ◌≡◌, refl, sym, ◌∙◌, subst, true, false, [], ◌∷◌, none, ltb, inl, inr,
  Bool-cases, arith,
}
use mona_server.Base.Words.{add64}
use mona_server.Binary.Reader.{Reader}
use mona_server.Rtmfp.Fragment.{message_end}
use mona_server.Rtmfp.Flow.{Flow, complete, sorted_handler, buffered, drain_following}
use mona_server.Rtmfp.Flow.Handled.{Entries, with_fragments, Above, Handled, sorted_handler-Handled}

-- Stages ascend from behind the next one, and a completed flow holds nothing.
pub record IsValid (f : Flow) : Type 0 where
  pub stage_fits : f.stage < 2 ^ 64 - 1
  pub waiting : Above (suc f.stage) f.fragments
  pub closed : f.completed ≡ true → (f.fragments ≡ []) × (f.packet ≡ none)

-- The flow while `fragmentHandler` works on it: `low` bounds the entries `l`.
pub record IsOpen (low : ℕ) (l : Entries) (f : Flow) : Type 0 where
  pub stage_fits : f.stage < 2 ^ 64 - 1
  pub entries : f.fragments ≡ l
  pub waiting : Above low l
  pub still_open : f.completed ≡ false

complete-IsValid : (f : Flow) → f.stage < 2 ^ 64 - 1 → f.completed ≡ false → IsValid (complete f)
unfolding complete
complete-IsValid f h e = rw e (record { stage_fits = h; waiting = tt; closed = λ c. (refl, refl) })

complete-stage : (f : Flow) → (complete f).stage ≡ f.stage
unfolding complete
complete-stage f = ground arith

-- One round of either loop at the entry `n`.
pub record Round (n : ℕ) (rest : Entries) (g : Flow) : Type 0 where
  pub stage_is : g.stage ≡ n
  pub if_ended : IsValid (complete g)
  pub if_not : IsOpen n rest (with_fragments rest g)

pub sorted_handler-Round :
    (n : ℕ) (rest : Entries) (f : Flow) (fragment : Reader) (flags : ℕ)
    → f.stage ≤ n
    → n < 2 ^ 64 - 1
    → f.completed ≡ false
    → Above n rest
    → Round n rest (sorted_handler f n fragment flags)
sorted_handler-Round n rest f fragment flags low b o w =
    let h : Handled f n (sorted_handler f n fragment flags) =
      sorted_handler-Handled f n fragment flags low (omega arith) in
    let fits : (sorted_handler f n fragment flags).stage < 2 ^ 64 - 1 = omega (arith, h.stage_is) in
    record {
      stage_is = h.stage_is;
      if_ended = complete-IsValid (sorted_handler f n fragment flags) fits (h.same_completed ∙ o);
      if_not = record {
        stage_fits = fits;
        entries = refl;
        waiting = w;
        still_open = h.same_completed ∙ o;
      };
    }

-- A valid flow that is no earlier than `low`.
pub record Later (low : ℕ) (f : Flow) : Type 0 where
  pub is_valid : IsValid f
  pub no_earlier : low ≤ f.stage

pub Later-trans : (m n : ℕ) (f : Flow) → m ≤ n → Later n f → Later m f
Later-trans m n f h l = record { is_valid = l.is_valid; no_earlier = omega (arith, l.no_earlier) }

pub complete-Later :
    (n m : ℕ) (rest : Entries) (g : Flow) → m ≤ n → Round n rest g → Later m (complete g)
complete-Later n m rest g h r = record {
  is_valid = r.if_ended;
  no_earlier = omega (arith, complete-stage g, r.stage_is);
}

pub open-IsValid : (f : Flow) (l : Entries) → IsOpen (suc f.stage) l f → Later f.stage f
open-IsValid f l o = record {
  is_valid = record {
    stage_fits = o.stage_fits;
    waiting = subst (Above (suc f.stage)) (sym o.entries) o.waiting;
    closed = λ c. absurd (ground (arith, c, o.still_open));
  };
  no_earlier = omega arith;
}

pub drain_following-Later :
    (next : ℕ) (l : Entries) (f : Flow)
    → next ≡ suc f.stage
    → IsOpen f.stage l f
    → Later f.stage (drain_following next l f)
unfolding drain_following
drain_following-Later next [] f e o = open-IsValid f [] (record {
  stage_fits = o.stage_fits;
  entries = o.entries;
  waiting = tt;
  still_open = o.still_open;
})
drain_following-Later next ((first, x) ∷ rest) f e o = elim (Bool-cases (ltb next first)) [
  | inl gap ↦ rw gap (
      open-IsValid f ((first, x) ∷ rest) (record {
        stage_fits = o.stage_fits;
        entries = o.entries;
        waiting = (ground (arith, gap), o.waiting.1, o.waiting.2);
        still_open = o.still_open;
      }))
  | inr follows ↦ rw follows (
      let same : next ≡ first = ground (arith, o.waiting.0) in
      let handled = sorted_handler f next (buffered x) x.flags in
      let r : Round next rest handled =
        sorted_handler-Round next rest f (buffered x) x.flags (omega (arith, o.waiting.0))
          (omega (arith, o.waiting)) o.still_open
          (subst (λ (k : ℕ). Above k rest) (sym same) o.waiting.2) in
      elim (Bool-cases (message_end x.flags)) [
        | inl end ↦ rw end (complete-Later next f.stage rest handled (omega arith) r)
        | inr no_end ↦ rw no_end (
            Later-trans f.stage handled.stage _ (omega (arith, r.stage_is)) (
              drain_following-Later (add64 next 1) rest (with_fragments rest handled)
                (omega (arith, r.stage_is, o.waiting))
                (subst (λ (k : ℕ). IsOpen k rest (with_fragments rest handled)) (sym r.stage_is)
                  r.if_not)))
      ])
]
