-- ===== src/Trigger/Repeats.antt =====
-- `Trigger::raise`: how often a message is repeated, and when the trigger gives up.
use mona_server.Base.{
  ℕ, zero, suc, ◌+◌, ◌-◌, ◌≤◌, ◌<◌, ◌≡◌, refl, ap, ◌∙◌, Bool, true, false, ◌⊎◌, inl, inr, List, [],
  ◌∷◌, length, All, arith, ltb, ◌==◌, if◌then◌else◌,
}
use native.Mathlib.Decide.{dec_le}
use mona_server.Trigger.{Trigger, Raised, start, raise, reset}

-- A running trigger.
abbrev ticking : ℕ → ℕ → ℕ → Trigger
ticking since cycle time = record { time_init = since; cycle = cycle; time = time; running = true }

-- Within a cycle below the eighth.
record IsAlive (cycle time : ℕ) : Type 0 where
  some_time : 1 ≤ time
  in_cycle : (time ≡ 1) ⊎ (time < cycle)
  not_last : cycle < 8

-- How many calls are left from the start of a cycle, and within it, the failing one included.
abbrev calls_from : ℕ → ℕ
calls_from cycle =
    if ltb cycle 3
    then 23 - cycle
    else if cycle == 3
    then 20
    else if cycle == 4
    then 18
    else if cycle == 5
    then 15
    else if cycle == 6
    then 11
    else 6

abbrev calls_left : ℕ → ℕ → ℕ
calls_left cycle time = calls_from cycle - (time - 1)

stays :
    (since cycle time now : ℕ)
    → since + 1000 < now
    → IsAlive cycle time
    → time + 1 < cycle
    → raise (ticking since cycle time) now
      ≡ record { after = ticking since cycle (time + 1); result = 0; fails = false }
unfolding raise
stays since cycle time now e a h = ground arith

moves :
    (since cycle time now : ℕ)
    → since + 1000 < now
    → IsAlive cycle time
    → cycle ≤ time + 1
    → cycle < 7
    → raise (ticking since cycle time) now
      ≡ record { after = ticking since (cycle + 1) 1; result = cycle + 1; fails = false }
unfolding raise
moves since cycle time now e a h b = ground arith

gives_up :
    (since cycle time now : ℕ)
    → since + 1000 < now
    → IsAlive cycle time
    → cycle ≡ 7
    → 7 ≤ time + 1
    → ((raise (ticking since cycle time) now).fails ≡ true)
      × ((raise (ticking since cycle time) now).result ≡ 0)
unfolding raise
gives_up since cycle time now e a seven h = ground arith

-- Which of some calls set the exception, and the repetitions that they ask for.
abbrev pub failures : Trigger → List ℕ → List Bool
failures t [] = []
failures t (now ∷ nows) = let raised = raise t now in raised.fails ∷ failures raised.after nows

abbrev pub repetitions : Trigger → List ℕ → List ℕ
repetitions t [] = []
repetitions t (now ∷ nows) =
    let raised = raise t now in
    let rest = repetitions raised.after nows in
    if raised.result == 0 then rest else raised.result ∷ rest

-- `n` numbers from `first` on.
abbrev pub numbered : ℕ → ℕ → List ℕ
numbered first zero = []
numbered first (suc n) = first ∷ numbered (suc first) n

-- `n` calls of which only the last fails.
abbrev pub last_fails : ℕ → List Bool
last_fails zero = []
last_fails (suc zero) = true ∷ []
last_fails (suc (suc n)) = false ∷ last_fails (suc n)

record Ends (since cycle time : ℕ) (nows : List ℕ) : Type 0 where
  fails : failures (ticking since cycle time) nows ≡ last_fails (length nows)
  repeats : repetitions (ticking since cycle time) nows ≡ numbered (cycle + 1) (7 - cycle)

abbrev first_of : Raised → List ℕ → List ℕ
first_of raised nows =
    let rest = repetitions raised.after nows in
    if raised.result == 0 then rest else raised.result ∷ rest

Ends-stays :
    (since cycle time now : ℕ) (nows : List ℕ)
    → raise (ticking since cycle time) now
      ≡ record { after = ticking since cycle (time + 1); result = 0; fails = false }
    → 1 ≤ length nows
    → Ends since cycle (time + 1) nows
    → Ends since cycle time (now ∷ nows)
Ends-stays since cycle time now [] e l d = absurd (omega arith)
Ends-stays since cycle time now (x ∷ xs) e l d = record {
  fails = ap (λ (r : Raised). r.fails ∷ failures r.after (x ∷ xs)) e ∙ ap (◌∷◌ false) d.fails;
  repeats = ap (λ (r : Raised). first_of r (x ∷ xs)) e ∙ d.repeats;
}

Ends-moves :
    (since cycle time now : ℕ) (nows : List ℕ)
    → raise (ticking since cycle time) now
      ≡ record { after = ticking since (cycle + 1) 1; result = cycle + 1; fails = false }
    → 1 ≤ length nows
    → cycle < 7
    → Ends since (cycle + 1) 1 nows
    → Ends since cycle time (now ∷ nows)
Ends-moves since cycle time now [] e l h d = absurd (omega arith)
Ends-moves since cycle time now (x ∷ xs) e l h d = record {
  fails = ap (λ (r : Raised). r.fails ∷ failures r.after (x ∷ xs)) e ∙ ap (◌∷◌ false) d.fails;
  repeats =
      ap (λ (r : Raised). first_of r (x ∷ xs)) e
      ∙ ap (λ (l : List ℕ). if cycle + 1 == 0 then l else (cycle + 1) ∷ l) d.repeats
      ∙ one_more;
}
  where
    one_more :
        (if cycle + 1 == 0
          then numbered (cycle + 1 + 1) (7 - (cycle + 1))
          else (cycle + 1) ∷ numbered (cycle + 1 + 1) (7 - (cycle + 1)))
        ≡ numbered (cycle + 1) (7 - cycle)
    one_more =
        let left : 7 - cycle ≡ suc (7 - (cycle + 1)) = omega arith in
        let some : (cycle + 1 == 0) ≡ false = ground arith in
        let after : cycle + 1 + 1 ≡ suc (cycle + 1) = omega arith in rw (left, some, after) refl

Ends-gives_up :
    (since cycle time now : ℕ) (nows : List ℕ)
    → ((raise (ticking since cycle time) now).fails ≡ true)
      × ((raise (ticking since cycle time) now).result ≡ 0)
    → length nows ≡ 0
    → cycle ≡ 7
    → Ends since cycle time (now ∷ nows)
Ends-gives_up since cycle time now [] e l seven = record {
  fails = ap (λ (b : Bool). b ∷ []) e.0;
  repeats = ground (arith, e.1, seven, ap (numbered (cycle + 1)) none_left);
}
  where
    none_left : 7 - cycle ≡ 0
    none_left = omega arith
Ends-gives_up since cycle time now (x ∷ xs) e l seven = absurd (omega arith)

calls-Ends :
    (since cycle time : ℕ) (nows : List ℕ)
    → All (λ (now : ℕ). since + 1000 < now) nows
    → IsAlive cycle time
    → length nows ≡ calls_left cycle time
    → Ends since cycle time nows
calls-Ends since cycle time [] e a l = absurd (ground arith)
calls-Ends since cycle time (now ∷ nows) e a l = elim (dec_le (time + 2) cycle) [
  | yes more ↦
      Ends-stays since cycle time now nows (stays since cycle time now e.0 a (omega arith))
        (ground arith)
        (calls-Ends since cycle (time + 1) nows e.1
          (record { some_time = omega arith; in_cycle = inr (omega arith); not_last = a.not_last })
          (ground arith))
  | no next ↦ elim (dec_le 7 cycle) [
    | yes last ↦
        Ends-gives_up since cycle time now nows
          (gives_up since cycle time now e.0 a (omega arith) (omega arith)) (ground arith)
          (omega arith)
    | no not_last ↦
        Ends-moves since cycle time now nows
          (moves since cycle time now e.0 a (omega arith) (omega arith)) (ground arith)
          (omega arith)
          (calls-Ends since (cycle + 1) 1 nows e.1
            (record { some_time = omega arith; in_cycle = inl refl; not_last = omega arith })
            (ground arith))
  ]
]

-- A trigger that does not run is started, and `raise` is called 23 times, always more than a
-- second later: exactly the last call sets the exception, and the calls before it ask for seven
-- repetitions, numbered 1 to 7.
pub start-gives_up :
    (t : Trigger) (now : ℕ) (nows : List ℕ)
    → t.running ≡ false
    → All (λ (later : ℕ). now + 1000 < later) nows
    → length nows ≡ 23
    → (failures (start t now) nows ≡ last_fails 23)
      × (repetitions (start t now) nows ≡ 1 ∷ 2 ∷ 3 ∷ 4 ∷ 5 ∷ 6 ∷ 7 ∷ [])
unfolding start reset
start-gives_up t now nows s e l =
    let d =
      calls-Ends now 0 1 nows e
        (record { some_time = omega arith; in_cycle = inl refl; not_last = omega arith }) l in
    let started : (if t.running then t else ticking now 0 1) ≡ ticking now 0 1 =
      ground (arith, s) in
    (
      ap (λ (u : Trigger). failures u nows) started ∙ d.fails ∙ ap last_fails l,
      ap (λ (u : Trigger). repetitions u nows) started ∙ d.repeats,
    )
