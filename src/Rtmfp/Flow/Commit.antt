-- ===== src/Rtmfp/Flow/Commit.antt =====
-- `RTMFPFlow::commit` of MonaCore/sources/RTMFP/RTMFPFlow.cpp: the acknowledgment of a flow.
use mona_server.Base.{
  ℕ, zero, suc, ◌+◌, ◌-◌, ◌%◌, ◌^◌, not, List, [], ◌∷◌, ◌++◌, Option, none, some, map, ltb, ◌==◌,
  if◌then◌else◌, ◌>>=◌, length,
}
use mona_server.Base.Words.{add32, add64, sub64}
use mona_server.Binary.Writer.{get7_bit_value_size}
use mona_server.Rtmfp.Fragment.{Fragment, long_value, value, Sent}
use mona_server.Rtmfp.Flow.{Flow}

-- The loop of `commit` over the entries: for each run of stages without a gap, what is missing in
-- front of it less one, and its length less one; and the sum of their sizes.
unfoldable pub run_length : ℕ → List (ℕ × Fragment) → ℕ → ℕ × ℕ × List (ℕ × Fragment)
run_length current [] count = (count, current, [])
run_length current ((first, second) ∷ rest) count =
    if first == add64 current 1
    then run_length (add64 current 1) rest (add32 count 1)
    else (count, current, (first, second) ∷ rest)

unfoldable pub lost_loop : ℕ → ℕ → List (ℕ × Fragment) → Option (ℕ × List ℕ)
lost_loop zero current entries = none
lost_loop (suc fuel) current [] = some (0, [])
lost_loop (suc fuel) current ((first, second) ∷ rest) = do
  let missing = sub64 (sub64 first current) 2
  let (count, last, left) = run_length first rest 0
  missing_size ← get7_bit_value_size missing
  count_size ← get7_bit_value_size count
  (size, losts) ← lost_loop fuel last left
  some (add32 (add32 missing_size count_size) size, missing ∷ count ∷ losts)

-- The window that `commit` announces.
unfoldable pub buffer_size : Flow → ℕ
buffer_size f = if not f.has_stream then 0 else elim f.packet [
  | none ↦ 0x7f
  | some p ↦ if ltb 0x3f00 p.fragments then 0 else 0x3f00 - p.fragments
]

-- `commit` up to its calls of `flush`, which belong to the stream and the writer.
unfoldable pub commit : Flow → Option Flow
commit f = do
  (size, losts) ← lost_loop (suc (length f.fragments)) f.stage f.fragments
  id_size ← get7_bit_value_size f.id
  buffer_size_size ← get7_bit_value_size (buffer_size f)
  stage_size ← get7_bit_value_size f.stage
  let sent : Sent = record {
    kind = 0x51;
    size = add32 (id_size + buffer_size_size + stage_size) size % 2 ^ 16;
    fields = long_value f.id ∷ value (buffer_size f) ∷ long_value f.stage ∷ map long_value losts;
  }
  some (record f { band = f.band ++ sent ∷ [] })
