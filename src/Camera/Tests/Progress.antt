-- ===== src/Camera/Tests/Progress.antt =====
-- A completion and a service, at concrete requests.
use tuw_spike.Base.{ℕ, refl, true, false, [], ◌∷◌, arith}
use tuw_spike.Base.Int.{pos}
use tuw_spike.Camera.Tests.{handler, no_controls}
use tuw_spike.Camera.Controls.{ControlList, update_request}
use tuw_spike.Camera.Requests.{Context, State, create, handle, start, queue_all, create_requests}
use tuw_spike.Camera.Requests.Interleaving.{System, complete, Reach, here, next, count}
use tuw_spike.Camera.Requests.Progress.{IsFresh, started, Placed, Reach-Placed}

-- Two requests without buffers.
abbrev pub fresh : State ℕ ℕ
fresh = create handler no_controls 2 (pos 9) (λ c. pos c)

pub fresh-IsFresh : IsFresh fresh
unfolding create_requests
fresh-IsFresh = record { unqueued = refl; idle = (refl, (refl, tt)) }

abbrev pub reuse : ControlList ℕ → ControlList ℕ
reuse c = c

-- The second request has completed.
abbrev second_done : System ℕ ℕ
second_done = record (started fresh) {
  handler = (handle false 1 (start fresh)).1;
  completed = 1 ∷ [];
}

second_done-Reach : Reach reuse (started fresh) second_done
unfolding count queue_all create_requests
second_done-Reach = next here (complete (started fresh) 1 (omega arith))

abbrev pub waiting : Context ℕ
waiting = record { cookies = []; controls = no_controls; control_seq = 3; waiting = true }

Reach-Placed_example : Placed reuse 1 waiting second_done
unfolding handle create_requests update_request
Reach-Placed_example =
    Reach-Placed reuse fresh second_done 1 waiting fresh-IsFresh second_done-Reach refl
