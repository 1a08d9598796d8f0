-- ===== src/Trigger.antt =====
-- `Trigger` of MonaBase/include/Mona/Trigger.h and MonaBase/sources/Trigger.cpp: the pauses between
-- the repetitions of an unacknowledged message. `now` is what `Time::Now()` gives, in milliseconds.
pub mod Repeats
mod Tests
use mona_server.Base.{
  ℕ, ◌+◌, ◌-◌, ◌%◌, ◌^◌, Bool, true, false, not, ◌&&◌, ◌||◌, ltb, leb, ◌==◌, if◌then◌else◌,
}

-- `_time` is a UInt8. `_cycle` is an Int8, held as its byte: from 128 on it is negative.
pub record Trigger : Type 0 where
  pub time_init : ℕ
  pub cycle : ℕ
  pub time : ℕ
  pub running : Bool

unfoldable pub trigger : ℕ → Trigger
trigger now = record { time_init = now; cycle = 0; time = 1; running = false }

unfoldable pub reset : Trigger → ℕ → Trigger
reset t now = record t { time_init = now; time = 1; cycle = 0 }

unfoldable pub start : Trigger → ℕ → Trigger
start t now = if t.running then t else record (reset t now) { running = true }

unfoldable pub stop : Trigger → Trigger
stop t = record t { running = false }

-- `Time::isElapsed`; a clock that went back has elapsed by a negative time.
abbrev pub is_elapsed : ℕ → ℕ → ℕ → Bool
is_elapsed now since time = ltb time (now - since)

-- A call of `raise`: the trigger after it, what it returns, and whether it sets the exception.
pub record Raised : Type 0 where
  pub after : Trigger
  pub result : ℕ
  pub fails : Bool

-- The return of an Int8 as a UInt16 keeps its sign.
abbrev pub widened : ℕ → ℕ
widened cycle = if leb 0x80 cycle then cycle + 0xff00 else cycle

unfoldable pub raise : Trigger → ℕ → Raised
raise t now =
    if not t.running
    then record { after = t; result = 0; fails = false }
    else if (t.time == 1) && not (is_elapsed now t.time_init 1000)
    then record { after = t; result = 0; fails = false }
    else let time' = (t.time + 1) % 2 ^ 8 in
      let cycle' = (t.cycle + 1) % 2 ^ 8 in
      if leb 0x80 t.cycle || leb t.cycle time'
      then if cycle' == 8
        then record { after = record t { time = 1; cycle = cycle' }; result = 0; fails = true }
        else record {
          after = record t { time = 1; cycle = cycle' };
          result = widened cycle';
          fails = false;
        }
      else record { after = record t { time = time' }; result = 0; fails = false }
