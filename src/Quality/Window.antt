-- ===== src/Quality/Window.antt =====
-- `QualityOfService::add`: the counters are the sums of the samples in the window.
use mona_server.Base.{
  ◌/◌, subst, ℕ, ◌+◌, ◌%◌, ◌^◌, ◌≤◌, ◌<◌, ◌≡◌, refl, sym, ap, inl, inr, Bool-cases, All,
  if◌then◌else◌, ltb, List, [], ◌∷◌, ◌++◌, arith,
}
use mona_server.Base.Words.{add32, sub32, IsU32}
use mona_server.Trigger.{is_elapsed}
use mona_server.Quality.{Sample, Quality, forget, rated, add}

abbrev pub losses : List Sample → ℕ
losses [] = 0
losses (s ∷ samples) = s.lost + losses samples

abbrev pub attempts : List Sample → ℕ
attempts [] = 0
attempts (s ∷ samples) = s.success + s.lost + attempts samples

abbrev pub sizes : List Sample → ℕ
sizes [] = 0
sizes (s ∷ samples) = s.size + sizes samples

-- The fields of a sample are UInt32.
abbrev pub Fits : Sample → Type 0
Fits s = IsU32 s.success × IsU32 s.lost × IsU32 s.size

-- The counters, with what is counted of a sample that is not there yet.
record Counts (lost tried bytes : ℕ) (q : Quality) : Type 0 where
  num_is : q.num ≡ (losses q.samples + lost) % 2 ^ 32
  den_is : q.den ≡ (attempts q.samples + tried) % 2 ^ 32
  total_is : q.total ≡ (sizes q.samples + bytes) % 2 ^ 32

pub record IsValid (q : Quality) : Type 0 where
  pub samples_fit : All Fits q.samples
  pub num_is : q.num ≡ losses q.samples % 2 ^ 32
  pub den_is : q.den ≡ attempts q.samples % 2 ^ 32
  pub total_is : q.total ≡ sizes q.samples % 2 ^ 32

-- The samples behind those that are too old.
abbrev pub recent : ℕ → List Sample → List Sample
recent now [] = []
recent now (s ∷ samples) =
    let rest = recent now samples in if is_elapsed now s.time 5000 then rest else s ∷ samples

record Forgets (now lost tried bytes : ℕ) (l : List Sample) (q : Quality) : Type 0 where
  kept : q.samples ≡ recent now l
  counts : Counts lost tried bytes q

forget-Forgets :
    (now lost tried bytes : ℕ) (l : List Sample) (q : Quality)
    → q.samples ≡ l
    → All Fits l
    → Counts lost tried bytes q
    → Forgets now lost tried bytes l (forget now l q)
unfolding forget
forget-Forgets now lost tried bytes [] q e f c = record { kept = e; counts = c }
forget-Forgets now lost tried bytes (s ∷ samples) q e f c =
    elim (Bool-cases (is_elapsed now s.time 5000)) [
      | inl old ↦ rw old (
          let r = record q {
            den = sub32 q.den (add32 s.success s.lost);
            num = sub32 q.num s.lost;
            total = sub32 q.total s.size;
            samples = samples;
          } in
          let next = forget-Forgets now lost tried bytes samples r refl f.1 (record {
            num_is = ground (arith, c.num_is, ap losses e, f.0);
            den_is = ground (arith, c.den_is, ap attempts e, f.0);
            total_is = ground (arith, c.total_is, ap sizes e, f.0);
          }) in
          record { kept = ground (arith, next.kept, old); counts = next.counts })
      | inr young ↦ rw young (record { kept = ground (arith, e, young); counts = c })
    ]

losses-append : (l : List Sample) (s : Sample) → losses (l ++ s ∷ []) ≡ losses l + s.lost
losses-append [] s = omega arith
losses-append (x ∷ l) s = omega (arith, losses-append l s)

attempts-append :
    (l : List Sample) (s : Sample) → attempts (l ++ s ∷ []) ≡ attempts l + (s.lost + s.success)
attempts-append [] s = omega arith
attempts-append (x ∷ l) s = omega (arith, attempts-append l s)

sizes-append : (l : List Sample) (s : Sample) → sizes (l ++ s ∷ []) ≡ sizes l + s.size
sizes-append [] s = omega arith
sizes-append (x ∷ l) s = omega (arith, sizes-append l s)

All-append : (l : List Sample) (s : Sample) → All Fits l → Fits s → All Fits (l ++ s ∷ [])
All-append [] s a f = (f, tt)
All-append (x ∷ l) s a f = (a.0, All-append l s a.1 f)

All-recent : (now : ℕ) (l : List Sample) → All Fits l → All Fits (recent now l)
All-recent now [] a = tt
All-recent now (s ∷ l) a = elim (Bool-cases (is_elapsed now s.time 5000)) [
  | inl old ↦ rw old (All-recent now l a.1)
  | inr young ↦ rw young a
]

-- `q` counts the window, and rates the losses and by it.
pub record Rates (window : List Sample) (q : Quality) : Type 0 where
  pub holds : q.samples ≡ window
  pub counts : IsValid q
  pub rates :
      q.lost_rate ≡ (if ltb 0 (attempts window) then (losses window, attempts window) else (0, 1))

losses_bound : (l : List Sample) → losses l ≤ attempts l
losses_bound [] = omega arith
losses_bound (s ∷ l) = omega (arith, losses_bound l)

rated-Rates :
    (now : ℕ) (s : Sample) (l : List Sample) (q : Quality)
    → q.samples ≡ l
    → Counts s.lost (s.lost + s.success) s.size q
    → All Fits (l ++ s ∷ [])
    → attempts (l ++ s ∷ []) < 2 ^ 32
    → Rates (l ++ s ∷ []) (rated now (record q { samples = q.samples ++ s ∷ [] }))
unfolding rated
rated-Rates now s l q e c f b =
    let window : List Sample = l ++ s ∷ [] in
    let same : q.samples ++ s ∷ [] ≡ window = ap (λ (k : List Sample). k ++ s ∷ []) e in
    let den_is : q.den ≡ attempts window =
      omega (arith, c.den_is, ap attempts e, attempts-append l s) in
    let num_is : q.num ≡ losses window =
      omega (arith, c.num_is, ap losses e, losses-append l s, losses_bound window) in
    record {
      holds = same;
      counts = record {
        samples_fit = subst (All Fits) (sym same) f;
        num_is = omega (arith, num_is, ap losses same, losses_bound window);
        den_is = omega (arith, den_is, ap attempts same);
        total_is = omega (arith, c.total_is, sizes-append q.samples s);
      };
      rates = ground (arith, num_is, den_is);
    }

-- Of valid counters, where each UInt32 is one and what was tried in the window and is added stays
-- below 2 ^ 32: `add` drops the samples at the front that are older than five seconds and puts the
-- new one at the back, its counters are the sums of these, and the loss rate is the fraction of
-- the losses among what was tried, or 0 if nothing was.
pub add-Rates :
    (q : Quality) (now ping size success lost : ℕ)
    → IsValid q
    → IsU32 size
    → IsU32 success
    → IsU32 lost
    → attempts (recent now q.samples) + success + lost < 2 ^ 32
    → Rates
        (recent now q.samples
          ++ record { time = now; success = success; lost = lost; size = size } ∷ [])
        (add q now ping size success lost)
unfolding add
add-Rates q now ping size success lost v hb hs hl room =
    let sample : Sample = record { time = now; success = success; lost = lost; size = size } in
    let counted : Quality = record q {
      latency = ping / 2;
      num = add32 q.num lost;
      den = add32 q.den (add32 lost success);
      total = add32 q.total size;
    } in
    let k =
      forget-Forgets now lost (lost + success) size q.samples counted refl v.samples_fit (record {
        num_is = omega (arith, v.num_is);
        den_is = omega (arith, v.den_is);
        total_is = omega (arith, v.total_is);
      }) in
    rated-Rates now sample (recent now q.samples) (forget now q.samples counted) k.kept k.counts
      (All-append (recent now q.samples) sample (All-recent now q.samples v.samples_fit)
        (hs, hl, hb))
      (omega (arith, attempts-append (recent now q.samples) sample))
