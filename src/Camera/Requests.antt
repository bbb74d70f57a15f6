-- ===== src/Camera/Requests.antt =====
-- `RequestHandler` of tuw_libcamera/src/capture/request_handler.cpp: completed requests wait until
-- the executor publishes their frames and queues them again.
pub mod Cycle
pub mod Layout
pub mod Batch
pub mod Interleaving
pub mod Progress
pub mod Accepted
pub mod Service
pub mod Threads
use tuw_spike.Base.{
  ℕ, zero, suc, ◌+◌, ◌-◌, ◌%◌, ◌^◌, ◌≡◌, Bool, true, false, not, List, [], ◌∷◌, ◌++◌, Option, none,
  some, ltb, if◌then◌else◌, get_elem?, set, length,
}
use tuw_spike.Base.Int.{ℤ, pos, ◌+ℤ◌}
use tuw_spike.Base.Result.{Exception, runtime_error, out_of_range, Result, ok, throws}
use tuw_spike.Camera.Controls.{ControlList, Handler, update_request}

-- `RequestContext` with what the code uses of its request: the cookies of its buffers, in the order
-- of `buffers()`, and its controls.
pub record Context (V : Type 0) : Type 0 where
  pub cookies : List ℕ
  pub controls : ControlList V
  pub control_seq : ℕ
  pub waiting : Bool

-- One call of `publish_buffer`: the stream handler, the buffer, and the stamp of the header.
pub record Frame : Type 0 where
  pub stream : ℕ
  pub cookie : ℕ
  pub stamp : ℤ

pub record State (P V : Type 0) : Type 0 where
  pub request_ctx : List (Context V)
  -- The stream index of each `BufferContext`.
  pub buffer_ctx : List ℕ
  -- The number of stream handlers.
  pub stream_handlers : ℕ
  pub controls_handler : Handler P V
  pub waiting_requests : ℕ
  pub time_offset : ℤ
  -- The timestamp in the metadata of each buffer, which the camera writes.
  pub metadata : ℕ → ℤ
  -- What was passed to `camera->queueRequest`, to `publish_buffer`, and to the callback.
  pub queued : List ℕ
  pub published : List Frame
  pub called_back : List ℤ
  pub has_callback : Bool

-- `std::atomic<size_t>` increments and decrements.
abbrev pub increment : ℕ → ℕ
increment n = (n + 1) % 2 ^ 64

abbrev pub decrement : ℕ → ℕ
decrement n = (n + 2 ^ 64 - 1) % 2 ^ 64

module _ {P V : Type 0} where
  -- The part of `handle` behind `request_ctx.at`.
  abbrev pub mark : State P V → ℕ → Option (Context V) → Result (Unit {0}) × State P V
  mark s i none = (throws out_of_range, s)
  mark s i (some ctx) = if ctx.waiting then (throws runtime_error, s) else (
    ok tt,
    record s {
      request_ctx = set s.request_ctx i (record ctx { waiting = true });
      waiting_requests = increment s.waiting_requests;
    },
  )

  -- `handle`, over the status and the cookie of the completed request.
  unfoldable pub handle : Bool → ℕ → State P V → Result (Unit {0}) × State P V
  handle cancelled cookie s =
      if cancelled then (ok tt, s) else mark s cookie (get_elem? s.request_ctx cookie)

  -- `is_ready`
  unfoldable pub is_ready : State P V → Bool
  is_ready s = ltb 0 s.waiting_requests

-- `stream_handlers.at(buffer_ctx.at(cookie).stream_idx())`
unfoldable pub stream_of : List ℕ → ℕ → ℕ → Option ℕ
stream_of buffer_ctx stream_handlers c = elim (get_elem? buffer_ctx c) [
  | none ↦ none
  | some stream ↦ if ltb stream stream_handlers then some stream else none
]

-- What the loop over the buffers of a request leaves: a throw of one of the `at` calls, and the
-- last stamp, 0 in a fresh header.
pub record Sent : Type 0 where
  pub failure : Option Exception
  pub frames : List Frame
  pub stamp : ℤ

-- What an iteration of `execute` leaves of its context, or all of them.
pub record Processed (P V : Type 0) : Type 0 where
  pub failure : Option Exception
  pub context : Context V
  pub state : State P V

pub record Executed (P V : Type 0) : Type 0 where
  pub failure : Option Exception
  pub contexts : List (Context V)
  pub state : State P V

module _ {P V : Type 0} where
  abbrev pub stamp_of : State P V → ℕ → ℤ
  stamp_of s c = s.time_offset +ℤ s.metadata c

  -- `for (auto [stream, buffer] : ctx.request->buffers())`
  unfoldable pub publish_buffers : State P V → List ℕ → List Frame → ℤ → Sent
  publish_buffers s [] frames stamp = record { failure = none; frames = frames; stamp = stamp }
  publish_buffers s (c ∷ cs) frames stamp = elim (stream_of s.buffer_ctx s.stream_handlers c) [
    | none ↦ record { failure = some out_of_range; frames = frames; stamp = stamp_of s c }
    | some stream ↦
        publish_buffers s cs
          (frames ++ record { stream = stream; cookie = c; stamp = stamp_of s c } ∷ [])
          (stamp_of s c)
  ]

  -- The iteration behind the publications: the callback, the reused request with the controls of
  -- the handler, and its place in the camera's queue. `reuse` is what `Request::reuse` leaves of the
  -- controls.
  abbrev pub requeue :
      (ControlList V → ControlList V) → ℕ → Context V → Sent → State P V → Processed P V
  requeue reuse i ctx sent s =
      let u = update_request s.controls_handler false (reuse ctx.controls) ctx.control_seq in
      record {
        failure = none;
        context = record ctx { controls = u.0; control_seq = u.1; waiting = false };
        state = record s {
          published = sent.frames;
          called_back = if s.has_callback then s.called_back ++ sent.stamp ∷ [] else s.called_back;
          queued = s.queued ++ i ∷ [];
        };
      }

  abbrev pub finish_sent :
      (ControlList V → ControlList V) → ℕ → Context V → Sent → State P V → Processed P V
  finish_sent reuse i ctx sent s = elim sent.failure [
    | some e ↦ record {
      failure = some e;
      context = ctx;
      state = record s { published = sent.frames };
    }
    | none ↦ requeue reuse i ctx sent s
  ]

  -- An iteration of `execute`, over the index of the context.
  unfoldable pub process :
      (ControlList V → ControlList V) → ℕ → Context V → State P V → Processed P V
  process reuse i ctx s =
      if ctx.waiting
      then finish_sent reuse i ctx (publish_buffers s ctx.cookies s.published (pos 0))
          (record s { waiting_requests = decrement s.waiting_requests })
      else record { failure = none; context = ctx; state = s }

  -- `for (auto &ctx : request_ctx)`
  unfoldable pub execute_from :
      (ControlList V → ControlList V) → ℕ → List (Context V) → State P V → Executed P V
  execute_from reuse i [] s = record { failure = none; contexts = []; state = s }
  execute_from reuse i (ctx ∷ rest) s =
      let p = process reuse i ctx s in
      elim p.failure [
        | some e ↦ record { failure = some e; contexts = p.context ∷ rest; state = p.state }
        | none ↦
            let r = execute_from reuse (suc i) rest p.state in
            record { failure = r.failure; contexts = p.context ∷ r.contexts; state = r.state }
      ]

  -- `execute`: what it throws, and the handler.
  unfoldable pub execute :
      (ControlList V → ControlList V) → State P V → Option Exception × State P V
  execute reuse s =
      let r = execute_from reuse 0 s.request_ctx s in
      (r.failure, record r.state { request_ctx = r.contexts })

  -- `add_stream`: the iteration for each request, over the number of buffers that the allocator has
  -- left, adds a buffer with the next cookie to the request. `accepts` tells whether
  -- `Request::addBuffer` takes the buffer with this cookie.
  unfoldable pub add_buffers : (ℕ → Bool) → ℕ → ℕ → List (Context V) → State P V → Executed P V
  add_buffers accepts stream buffers [] s = record { failure = none; contexts = []; state = s }
  add_buffers accepts stream zero (ctx ∷ rest) s = record {
    failure = some out_of_range;
    contexts = ctx ∷ rest;
    state = s;
  }
  add_buffers accepts stream (suc n) (ctx ∷ rest) s =
      let s₁ = record s { buffer_ctx = s.buffer_ctx ++ stream ∷ [] } in
      elim (accepts (length s.buffer_ctx)) [
        | false ↦ record { failure = some runtime_error; contexts = ctx ∷ rest; state = s₁ }
        | true ↦
            let r = add_buffers accepts stream n rest s₁ in
            record {
              failure = r.failure;
              contexts =
                  record ctx { cookies = ctx.cookies ++ length s.buffer_ctx ∷ [] } ∷ r.contexts;
              state = r.state;
            }
      ]

  abbrev pub finish_stream : Executed P V → Option Exception × State P V
  finish_stream r = elim r.failure [
    | some e ↦ (some e, record r.state { request_ctx = r.contexts })
    | none ↦ (
      none,
      record r.state { request_ctx = r.contexts; stream_handlers = suc r.state.stream_handlers },
    )
  ]

  unfoldable pub add_stream : (ℕ → Bool) → ℕ → State P V → Option Exception × State P V
  add_stream accepts buffers s =
      finish_stream (add_buffers accepts s.stream_handlers buffers s.request_ctx s)

-- `set_frame_publish_callback`
abbrev pub set_frame_publish_callback : {P V : Type 0} → State P V → State P V
set_frame_publish_callback s = record s { has_callback = true }

-- `for (const auto &ctx : request_ctx) camera->queueRequest(ctx.request.get())`
unfoldable pub queue_all : {V : Type 0} → ℕ → List (Context V) → List ℕ
queue_all i [] = []
queue_all i (ctx ∷ rest) = i ∷ queue_all (suc i) rest

-- `start`
abbrev pub start : {P V : Type 0} → State P V → State P V
start s = record s { queued = s.queued ++ queue_all 0 s.request_ctx }

-- The loop of the constructor: `num_requests` contexts, with all the controls.
unfoldable pub create_requests : {P V : Type 0} → Handler P V → ControlList V → ℕ → List (Context V)
create_requests h fresh zero = []
create_requests h fresh (suc n) =
    let u = update_request h true fresh 0 in
    record { cookies = []; controls = u.0; control_seq = u.1; waiting = false }
    ∷ create_requests h fresh n

-- The constructor, over the controls of a fresh request, the time offset that it measures, and
-- what the camera writes.
abbrev pub create : {P V : Type 0} → Handler P V → ControlList V → ℕ → ℤ → (ℕ → ℤ) → State P V
create h fresh num_requests offset metadata = record {
  request_ctx = create_requests h fresh num_requests;
  buffer_ctx = [];
  stream_handlers = 0;
  controls_handler = h;
  waiting_requests = 0;
  time_offset = offset;
  metadata = metadata;
  queued = [];
  published = [];
  called_back = [];
  has_callback = false;
}
