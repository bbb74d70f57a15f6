-- ===== src/Camera/Tests/Threads.antt =====
-- The writes of `handle` and `execute` between each other, at concrete requests.
use tuw_spike.Base.{ℕ, ◌+◌, ◌%◌, ◌^◌, ◌<◌, ◌≡◌, ◌⊎◌, refl, true, false, some, arith}
use tuw_spike.Camera.Tests.Progress.{fresh, fresh-IsFresh, reuse, waiting}
use tuw_spike.Camera.Controls.{update_request}
use tuw_spike.Camera.Requests.{Context, is_ready, start, create_requests}
use tuw_spike.Camera.Requests.Cycle.{count_waiting}
use tuw_spike.Camera.Requests.Threads.{
  Threads, set_waiting, count_down, flag, lower, Moves, here, then_move,
}
use tuw_spike.Camera.Requests.Threads.Counted.{busy, begun, Moves-ready}

-- The second request has its flag, and is counted down before it is counted.
abbrev idle : Context ℕ
idle = record waiting { waiting = false }

abbrev flagged : Threads ℕ ℕ
flagged = record (begun fresh) { handler = set_waiting 1 idle (start fresh); uncounted = 1 }

abbrev counted_down : Threads ℕ ℕ
counted_down = record flagged { handler = count_down flagged.handler; serving = some 1 }

counted_down-Moves : Moves reuse (begun fresh) counted_down
unfolding create_requests update_request
counted_down-Moves =
    then_move (then_move here (flag (begun fresh) 1 idle refl refl))
      (lower flagged 1 waiting refl refl refl)

Moves-ready_example :
    ((is_ready counted_down.handler ≡ true) ⊎ (0 < 1) ⊎ ((j : ℕ) × (some 1 ≡ some j)))
    × ((counted_down.handler.waiting_requests + 1 + busy (some 1)) % 2 ^ 64
        ≡ count_waiting counted_down.handler.request_ctx)
unfolding create_requests
Moves-ready_example =
    Moves-ready reuse fresh counted_down 1 waiting fresh-IsFresh refl (omega arith)
      counted_down-Moves refl refl
