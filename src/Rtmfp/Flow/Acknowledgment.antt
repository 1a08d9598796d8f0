-- ===== src/Rtmfp/Flow/Acknowledgment.antt =====
-- `RTMFPFlow::commit`: the acknowledgment, as the peer reads it.
use mona_server.Base.{
  ℕ, zero, suc, ◌+◌, ◌-◌, ◌%◌, ◌^◌, ◌≤◌, ◌<◌, ◌≡◌, refl, sym, ap, ◌∙◌, subst, List, [], ◌∷◌, ◌++◌,
  map, Option, some, ◌==◌, inl, inr, Bool-cases, arith, length, All, ◌>>=◌,
}
use mona_server.Base.Words.{add32, add64, sub64}
use mona_server.Binary.Writer.{get7_bit_value_size}
use mona_server.Binary.Writer.Sizes.{get7_bit_value_size-IsGroupCount}
use mona_server.Rtmfp.Fragment.{Fragment, Sent, long_value, value}
use mona_server.Rtmfp.Flow.{Flow}
use mona_server.Rtmfp.Flow.Commit.{run_length, lost_loop, commit, buffer_size}
use mona_server.Rtmfp.Flow.Handled.{Entries, Above}
use mona_server.Rtmfp.Flow.Draining.{IsValid}

-- `n` stages from `first` on.
abbrev stages_from : ℕ → ℕ → List ℕ
stages_from first zero = []
stages_from first (suc n) = first ∷ stages_from (suc first) n

-- The stages that a list of losts tells, for a reader that knows the stage of the flow: each pair
-- skips what is missing and one more, and names one stage more than it counts.
abbrev pub received : ℕ → List ℕ → List ℕ
received current [] = []
received current (missing ∷ []) = []
received current (missing ∷ count ∷ losts) =
    stages_from (current + missing + 2) (count + 1)
    ++ received (current + missing + 2 + count) losts

abbrev pub stages : Entries → List ℕ
stages [] = []
stages ((first, x) ∷ rest) = first ∷ stages rest

-- Stages that `Get7BitValueSize` can measure.
abbrev pub Small : Entries → Type 0
Small = All (λ (e : ℕ × Fragment). e.0 < 2 ^ 63)

-- A run of `n` more stages behind `current`.
record Run (current count : ℕ) (l : Entries) (result : ℕ × ℕ × Entries) : Type 0 where
  more : ℕ
  count_is : result.0 ≡ count + more
  last_is : result.1 ≡ current + more
  split : stages l ≡ stages_from (suc current) more ++ stages result.2
  gap : Above (suc (current + more)) result.2
  small : Small result.2
  shorter : length result.2 ≤ length l
  last_small : current + more < 2 ^ 63

Run-one :
    (current count : ℕ) (x : Fragment) (rest : Entries) (result : ℕ × ℕ × Entries)
    → Run (suc current) (suc count) rest result
    → Run current count ((suc current, x) ∷ rest) result
Run-one current count x rest result r = record {
  more = suc r.more;
  count_is = omega (arith, r.count_is);
  last_is = omega (arith, r.last_is);
  split = ap (◌∷◌ (suc current)) r.split;
  gap = subst (λ (k : ℕ). Above (suc k) result.2) (omega arith) r.gap;
  small = r.small;
  shorter = omega (arith, r.shorter);
  last_small = omega (arith, r.last_small);
}

Run-none :
    (current count : ℕ) (l : Entries)
    → current < 2 ^ 63
    → Above (suc current) l
    → Small l
    → Run current count l (count, current, l)
Run-none current count l b a s = record {
  more = 0;
  count_is = omega arith;
  last_is = omega arith;
  split = refl;
  gap = subst (λ (k : ℕ). Above (suc k) l) (omega arith) a;
  small = s;
  shorter = omega arith;
  last_small = omega arith;
}

run_length-Run :
    (current : ℕ) (l : Entries) (count : ℕ)
    → current < 2 ^ 63
    → Above current l
    → Small l
    → count + length l < 2 ^ 32
    → Run current count l (run_length current l count)
unfolding run_length
run_length-Run current [] count b a s h = Run-none current count [] b tt tt
run_length-Run current ((first, x) ∷ rest) count b a s h =
    let next_count : add32 count 1 ≡ suc count = omega arith in
    let next_current : add64 current 1 ≡ suc current = omega arith in
    elim (Bool-cases (first == add64 current 1)) [
      | inl next ↦
          let e : first ≡ suc current = ground (arith, next) in
          rw next (
            rw (next_count, next_current, e)
              (Run-one current count x rest _ (
                run_length-Run (suc current) rest (suc count) (omega (arith, s.0, e))
                  (subst (λ (k : ℕ). Above k rest) e a.2) s.1 (omega arith))))
      | inr not_next ↦
          rw not_next (
            Run-none current count ((first, x) ∷ rest) b (ground (arith, not_next, a.0), a.1, a.2)
              s)
    ]

-- What the loop of `commit` gives.
record Told (current : ℕ) (l : Entries) (result : Option (ℕ × List ℕ)) : Type 0 where
  size : ℕ
  losts : List ℕ
  returns : result ≡ some (size, losts)
  tells : received current losts ≡ stages l

sized : (v : ℕ) → v < 2 ^ 63 → (n : ℕ) × (get7_bit_value_size v ≡ some n)
sized v h = (let (n, e, _, _) = get7_bit_value_size-IsGroupCount v h in (n, e))

-- One run of stages in front of what the rest of the loop tells.
abbrev told_sum : Option ℕ → Option ℕ → ℕ → ℕ → Option (ℕ × List ℕ) → Option (ℕ × List ℕ)
told_sum missing_size count_size missing count rest = do
  a ← missing_size
  b ← count_size
  (size, losts) ← rest
  some (add32 (add32 a b) size, missing ∷ count ∷ losts)

Told-cons :
    (current first missing count last : ℕ) (x : Fragment) (rest left : Entries)
    (result : Option (ℕ × List ℕ))
    → missing + current + 2 ≡ first
    → missing < 2 ^ 63
    → count < 2 ^ 63
    → last ≡ first + count
    → stages rest ≡ stages_from (suc first) count ++ stages left
    → Told last left result
    → Told current
        ((first, x) ∷ rest)
        (told_sum (get7_bit_value_size missing) (get7_bit_value_size count) missing count result)
Told-cons current first missing count last x rest left result e m c e2 split t =
    let (a, a_is) = sized missing m in
    let (b, b_is) = sized count c in
    record {
      size = add32 (add32 a b) t.size;
      losts = missing ∷ count ∷ t.losts;
      returns = ground (arith, a_is, b_is, t.returns);
      tells =
          let p : current + missing + 2 ≡ first = omega (arith, e) in
          let q : count + 1 ≡ suc count = omega arith in rw (p, q, sym e2, t.tells, split);
    }

lost_loop-Told :
    (fuel current : ℕ) (l : Entries)
    → length l < fuel
    → current < 2 ^ 63
    → Above (suc current) l
    → Small l
    → length l < 2 ^ 32 - 1
    → Told current l (lost_loop fuel current l)
unfolding lost_loop
lost_loop-Told zero current l f b a s h = absurd (omega arith)
lost_loop-Told (suc fuel) current [] f b a s h = record {
  size = 0;
  losts = [];
  returns = refl;
  tells = refl;
}
lost_loop-Told (suc fuel) current ((first, x) ∷ rest) f b a s h =
    let missing = sub64 (sub64 first current) 2 in
    let r : Run first 0 rest (run_length first rest 0) =
      run_length-Run first rest 0 s.0 a.2 s.1 (omega arith) in
    Told-cons current first missing (run_length first rest 0).0 (run_length first rest 0).1 x rest
      (run_length first rest 0).2 _ (omega (arith, a.0, s.0)) (omega (arith, s.0))
      (omega (arith, r.last_small, r.count_is)) (omega (arith, r.last_is, r.count_is))
      (r.split
        ∙ ap (λ (k : ℕ). stages_from (suc first) k ++ stages (run_length first rest 0).2)
            (omega (arith, r.count_is)))
      (lost_loop-Told fuel (run_length first rest 0).1 (run_length first rest 0).2
        (omega (arith, r.shorter)) (omega (arith, r.last_is, r.last_small))
        (subst (λ (k : ℕ). Above (suc k) (run_length first rest 0).2) (sym r.last_is) r.gap) r.small
        (omega (arith, r.shorter)))

-- `commit` gives the flow with one acknowledgment more, whose losts tell the stages that wait.
pub record Acknowledges (f : Flow) (result : Option Flow) : Type 0 where
  pub sent : Sent
  pub losts : List ℕ
  pub returns : result ≡ some (record f { band = f.band ++ sent ∷ [] })
  pub is_acknowledgment : sent.kind ≡ 0x51
  pub fields_are :
      sent.fields
      ≡ long_value f.id ∷ value (buffer_size f) ∷ long_value f.stage ∷ map long_value losts
  pub tells : received f.stage losts ≡ stages f.fragments

buffer_size_small : (f : Flow) → buffer_size f < 2 ^ 63
unfolding buffer_size
buffer_size_small f = ground arith

-- Of a valid flow whose id, stage and waiting stages are below 2 ^ 63, with fewer than 2 ^ 32 - 1
-- fragments waiting: `commit` returns the flow with one acknowledgment (0x51) more on the band. It
-- has the id, the window, the stage and a list of losts from which a reader that knows the stage
-- gets back exactly the stages that wait.
pub commit-Acknowledges :
    (f : Flow)
    → IsValid f
    → f.id < 2 ^ 63
    → f.stage < 2 ^ 63
    → Small f.fragments
    → length f.fragments < 2 ^ 32 - 1
    → Acknowledges f (commit f)
unfolding commit
commit-Acknowledges f v i s small few =
    let t =
      lost_loop-Told (suc (length f.fragments)) f.stage f.fragments (omega arith) s v.waiting small
        few in
    let (a, a_is) = sized f.id i in
    let (b, b_is) = sized (buffer_size f) (buffer_size_small f) in
    let (c, c_is) = sized f.stage s in
    record {
      sent = record {
        kind = 0x51;
        size = add32 (a + b + c) t.size % 2 ^ 16;
        fields =
            long_value f.id ∷ value (buffer_size f) ∷ long_value f.stage ∷ map long_value t.losts;
      };
      losts = t.losts;
      returns = ground (arith, t.returns, a_is, b_is, c_is);
      is_acknowledgment = refl;
      fields_are = refl;
      tells = t.tells;
    }
