-- ===== src/Scan/Timing.antt =====
-- `TimingRecorder` of tuw_camera_laserscan/src/timing_recorder.cpp.
pub mod Frames
use tuw_spike.Base.{ℕ, suc, ◌+◌, ◌/◌, Bool, true, false, List, [], ◌∷◌, ◌++◌, if◌then◌else◌}
use tuw_spike.Base.Int.{ℤ, pos, negsuc, neg, ◌+ℤ◌, ◌-ℤ◌}
use tuw_spike.Base.Text.{Bytes, bytes_eq}

-- `TimeRecord`; a duration is its count of clock ticks. The count is below 2^31, where an int stops.
pub record TimeRecord : Type 0 where
  pub name : Bytes
  pub count : ℕ
  pub avg_time : ℤ

-- `records`, as those before `current` and those from it on; `current` is the end if these are none.
pub record Recorder : Type 0 where
  pub last_time : ℤ
  pub before : List TimeRecord
  pub rest : List TimeRecord

abbrev pub records : Recorder → List TimeRecord
records r = r.before ++ r.rest

-- `duration / count`, which rounds towards 0.
abbrev pub quotient : ℤ → ℕ → ℤ
quotient (pos n) c = pos (n / c)
quotient (negsuc n) c = neg (pos (suc n / c))

-- `start`, over the reading of the clock.
unfoldable pub start : ℤ → Recorder → Recorder
start now r = record { last_time = now; before = []; rest = records r }

-- `count++`, and the mean moved by its share of the duration.
abbrev pub note : ℤ → TimeRecord → TimeRecord
note duration t = record t {
  count = t.count + 1;
  avg_time = t.avg_time +ℤ quotient (duration -ℤ t.avg_time) (t.count + 1);
}

abbrev pub fresh : Bytes → TimeRecord
fresh name = record { name = name; count = 0; avg_time = pos 0 }

-- The record at `current`, noted, and `++current`; a new one is put there where the name differs.
abbrev pub push_at : Bytes → ℤ → List TimeRecord → TimeRecord × List TimeRecord
push_at name duration [] = (note duration (fresh name), [])
push_at name duration (t ∷ ts) =
    if bytes_eq t.name name then (note duration t, ts) else (note duration (fresh name), t ∷ ts)

-- `push_time`, over the two readings of the clock.
unfoldable pub push_time : Bytes → ℤ → ℤ → Recorder → Recorder
push_time name now later r =
    let p = push_at name (now -ℤ r.last_time) r.rest in
    record { last_time = later; before = r.before ++ p.0 ∷ []; rest = p.1 }
