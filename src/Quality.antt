-- ===== src/Quality.antt =====
-- `QualityOfService` of MonaBase/include/Mona/QualityOfService.h and
-- MonaBase/sources/QualityOfService.cpp: the losses and the bytes of the last seconds. `now` is the
-- clock, in milliseconds, which is read once in a call. A double is held as its fraction.
pub mod Window
mod Tests
use mona_server.Base.{
  ℕ, ◌+◌, ◌-◌, ◌*◌, ◌/◌, ◌%◌, ◌^◌, Bool, true, false, not, List, [], ◌∷◌, ◌++◌, ltb, if◌then◌else◌,
}
use mona_server.Base.Words.{add32, sub32}
use mona_server.Trigger.{is_elapsed}

pub record Sample : Type 0 where
  pub time : ℕ
  pub success : ℕ
  pub lost : ℕ
  pub size : ℕ

-- `num`, `den` and `total` are `_num`, `_den` and `_size`.
pub record Quality : Type 0 where
  pub lost_rate : ℕ × ℕ
  pub byte_rate : ℕ × ℕ
  pub latency : ℕ
  pub samples : List Sample
  pub total : ℕ
  pub num : ℕ
  pub den : ℕ

unfoldable pub quality : Quality
quality = record {
  lost_rate = (0, 1);
  byte_rate = (0, 1);
  latency = 0;
  samples = [];
  total = 0;
  num = 0;
  den = 0;
}

unfoldable pub reset : Quality → Quality
reset q = quality

-- The loop of `add` over the samples at the front that are older than 5 seconds.
unfoldable pub forget : ℕ → List Sample → Quality → Quality
forget now [] q = q
forget now (sample ∷ samples) q =
    let rest = forget now samples (record q {
      den = sub32 q.den (add32 sample.success sample.lost);
      num = sub32 q.num sample.lost;
      total = sub32 q.total sample.size;
      samples = samples;
    }) in
    if not (is_elapsed now sample.time 5000) then q else rest

-- The rates at the end of `add`.
unfoldable pub rated : ℕ → Quality → Quality
rated now q = record q {
  byte_rate = rate q.samples;
  lost_rate = if ltb 0 q.den then (q.num, q.den) else (0, 1);
}
  where
    rate : List Sample → ℕ × ℕ
    rate [] = (q.total, 1)
    rate (first ∷ _) =
        if ltb 0 (now - first.time) then (q.total * 1000, now - first.time) else (q.total, 1)

unfoldable pub add : Quality → ℕ → ℕ → ℕ → ℕ → ℕ → Quality
add q now ping size success lost =
    let counted = record q {
      latency = ping / 2;
      num = add32 q.num lost;
      den = add32 q.den (add32 lost success);
      total = add32 q.total size;
    } in
    let kept = forget now q.samples counted in
    let sample : Sample = record { time = now; success = success; lost = lost; size = size } in
    rated now (record kept { samples = kept.samples ++ sample ∷ [] })
