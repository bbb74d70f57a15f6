-- ===== src/Camera/Capture.antt =====
-- Parts of `CaptureNode` of tuw_libcamera/src/capture/capture_node.cpp: the choice of the camera, the
-- number of requests, and the streams of the request handler.
pub mod Startup
pub mod Configuration
use tuw_spike.Base.{
  ℕ, ◌-◌, ◌^◌, ◌≡◌, Bool, true, false, ◌||◌, List, [], ◌∷◌, Option, none, some, ◌==◌, ltb,
  if◌then◌else◌,
}
use tuw_spike.Base.Text.{Bytes, bytes_eq}
use tuw_spike.Base.Result.{Exception, runtime_error, Result, ok, throws}
use tuw_spike.Camera.Requests.{State, add_stream}

abbrev pub size_max : ℕ
size_max = 2 ^ 64 - 1

-- A configured stream: how many buffers the allocator gives it, if `allocate` succeeds, and what its
-- parameter lookups and `create_stream_handler` throw.
pub record Stream : Type 0 where
  pub allocated : Option ℕ
  pub failure : Option Exception

-- The loop of `allocate_buffers`.
unfoldable pub fewest : List Stream → ℕ → Result ℕ
fewest [] num_requests = ok num_requests
fewest (s ∷ ss) num_requests = elim s.allocated [
  | none ↦ throws runtime_error
  | some n ↦ fewest ss (if ltb n num_requests then n else num_requests)
]

abbrev pub check_requests : Result ℕ → Result ℕ
check_requests (throws e) = throws e
check_requests (ok n) = if (n == 0) || (n == size_max) then throws runtime_error else ok n

-- `allocate_buffers`
unfoldable pub allocate_buffers : List Stream → Result ℕ
allocate_buffers ss = check_requests (fewest ss size_max)

-- What `allocator.buffers(stream)` holds.
abbrev pub buffers_of : Stream → ℕ
buffers_of s = elim s.allocated [ none ↦ 0 | some n ↦ n ]

-- `create_stream_handlers`
unfoldable pub create_stream_handlers :
    {P V : Type 0} → (ℕ → Bool) → List Stream → State P V → Option Exception × State P V
create_stream_handlers accepts [] s = (none, s)
create_stream_handlers accepts (x ∷ xs) s = elim x.failure [
  | some e ↦ (some e, s)
  | none ↦
      let r = add_stream accepts (buffers_of x) s in
      elim r.0 [ some e ↦ (some e, r.1) | none ↦ create_stream_handlers accepts xs r.1 ]
]

-- The cameras of `acquire_camera`, by their ids: the first, or the one that the parameter names.
abbrev pub find_camera : List Bytes → Bytes → Result Bytes
find_camera [] id = throws runtime_error
find_camera (c ∷ cs) id = if bytes_eq c id then ok c else find_camera cs id

unfoldable pub acquire_camera : List Bytes → Bytes → Result Bytes
acquire_camera [] id = throws runtime_error
acquire_camera (c ∷ cs) [] = ok c
acquire_camera (c ∷ cs) (b ∷ id) = find_camera (c ∷ cs) (b ∷ id)
