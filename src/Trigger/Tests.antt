-- ===== src/Trigger/Tests.antt =====
-- Runs of `Trigger`.
use mona_server.Base.{ℕ, zero, suc, ◌+◌, ◌<◌, ◌≡◌, refl, List, [], ◌∷◌, All, replicate, arith}
use mona_server.Trigger.{trigger, start}
use mona_server.Trigger.Repeats.{failures, repetitions, last_fails, start-gives_up}

abbrev readings : List ℕ
readings = replicate 23 5000

late_readings : (n : ℕ) → All (λ (later : ℕ). 1000 + 1000 < later) (replicate n 5000)
late_readings zero = tt
late_readings (suc n) = (omega arith, late_readings n)

start-gives_up_example :
    (failures (start (trigger 7) 1000) readings ≡ last_fails 23)
    × (repetitions (start (trigger 7) 1000) readings ≡ 1 ∷ 2 ∷ 3 ∷ 4 ∷ 5 ∷ 6 ∷ 7 ∷ [])
unfolding trigger
start-gives_up_example = start-gives_up (trigger 7) 1000 readings refl (late_readings 23) refl
