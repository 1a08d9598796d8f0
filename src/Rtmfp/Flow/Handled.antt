-- ===== src/Rtmfp/Flow/Handled.antt =====
-- `RTMFPFlow::fragmentSortedHandler`: what it changes in the stage and in the fragments that wait.
use mona_server.Base.{ℕ, ◌-◌, ◌%◌, ◌^◌, ◌≤◌, ◌<◌, ◌≡◌, List, [], ◌∷◌, none, arith}
use mona_server.Base.Words.{add32}
use mona_server.Binary.Reader.{Reader}
use mona_server.Rtmfp.Fragment.{Fragment}
use mona_server.Rtmfp.Flow.{Flow, process, join, assemble, after_gap, sorted_handler}

abbrev pub Entries : Type 0
Entries = List (ℕ × Fragment)

abbrev pub with_fragments : Entries → Flow → Flow
with_fragments l f = record f { fragments = l }

-- Ascending stages, all past `low` and small enough to be followed by another.
abbrev pub Above : ℕ → Entries → Type 0
Above low [] = Unit {0}
Above low ((first, x) ∷ rest) = (low < first) × (first < 2 ^ 64 - 1) × Above first rest

-- What `assemble` leaves alone.
record Frame (f g : Flow) : Type 0 where
  same_fragments : g.fragments ≡ f.fragments
  same_stage : g.stage ≡ f.stage
  same_completed : g.completed ≡ f.completed
  same_stream : g.has_stream ≡ f.has_stream
  same_id : g.id ≡ f.id

assemble-Frame : (f : Flow) (fragment : Reader) (flags : ℕ) → Frame f (assemble f fragment flags)
unfolding assemble join process
assemble-Frame f fragment flags = ground arith

-- The handler of one fragment: it moves the stage on, and does not look at those that wait.
pub record Handled (f : Flow) (stage : ℕ) (g : Flow) : Type 0 where
  pub same_fragments : g.fragments ≡ f.fragments
  pub stage_is : g.stage ≡ stage
  pub same_completed : g.completed ≡ f.completed
  pub same_stream : g.has_stream ≡ f.has_stream

pub sorted_handler-Handled :
    (f : Flow) (stage : ℕ) (fragment : Reader) (flags : ℕ)
    → f.stage ≤ stage
    → stage < 2 ^ 64
    → Handled f stage (sorted_handler f stage fragment flags)
unfolding sorted_handler after_gap
sorted_handler-Handled f stage fragment flags h b =
    let lost_count : ℕ = (stage - f.stage - 1) % 2 ^ 32 in
    let near = assemble-Frame (record f { stage = stage }) fragment flags in
    let far =
      assemble-Frame
        (record f { stage = stage; packet = none; number_lost = add32 f.number_lost lost_count })
        fragment flags in
    ground (arith, near, far)
