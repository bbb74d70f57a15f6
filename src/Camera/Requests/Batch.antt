-- ===== src/Camera/Requests/Batch.antt =====
-- What one `execute` does to all the requests together.
use tuw_spike.Base.{
  ℕ, suc, ◌^◌, ◌<◌, ◌≡◌, refl, ap, ◌∙◌, Bool, true, false, List, [], ◌∷◌, ◌++◌, Option, none, some,
  map, if◌then◌else◌, length, All, arith, Bool-cases, append_assoc, append-nil, inl, inr,
}
use tuw_spike.Base.Int.{ℤ, pos, ◌+ℤ◌}
use tuw_spike.Camera.Controls.{ControlList, Handler, update_request}
use tuw_spike.Camera.Requests.{
  Context, Frame, State, decrement, Executed, stamp_of, stream_of, publish_buffers, process,
  execute_from, execute,
}
use tuw_spike.Camera.Requests.Cycle.{count_waiting, count_waiting-bound, IsCounted}

-- What the frames of a buffer depend on; `execute` does not change it.
pub record Source : Type 0 where
  pub buffers : List ℕ
  pub handlers : ℕ
  pub offset : ℤ
  pub stamps : ℕ → ℤ

abbrev pub source : {P V : Type 0} → State P V → Source
source s = record {
  buffers = s.buffer_ctx;
  handlers = s.stream_handlers;
  offset = s.time_offset;
  stamps = s.metadata;
}

abbrev pub stream_at : Source → ℕ → Option ℕ
stream_at o c = stream_of o.buffers o.handlers c

abbrev pub stamp_at : Source → ℕ → ℤ
stamp_at o c = o.offset +ℤ o.stamps c

-- Every buffer has a stream handler.
abbrev pub HasStreams : Source → List ℕ → Type 0
HasStreams o = All (λ c. (stream : ℕ) × (stream_at o c ≡ some stream))

abbrev pub IsLaidOut : {P V : Type 0} → State P V → List (Context V) → Type 0
IsLaidOut s = All (λ ctx. HasStreams (source s) ctx.cookies)

-- The frames of buffers, in their order.
unfoldable pub frames_of : Source → List ℕ → List Frame
frames_of o [] = []
frames_of o (c ∷ cs) = elim (stream_at o c) [
  | none ↦ frames_of o cs
  | some stream ↦ record { stream = stream; cookie = c; stamp = stamp_at o c } ∷ frames_of o cs
]

-- The stamp of the last buffer.
unfoldable pub last_stamp : Source → List ℕ → ℤ → ℤ
last_stamp o [] d = d
last_stamp o (c ∷ cs) d = last_stamp o cs (stamp_at o c)

-- What `execute` publishes, queues and reports for the waiting contexts.
unfoldable pub waiting_frames : {V : Type 0} → Source → List (Context V) → List Frame
waiting_frames o [] = []
waiting_frames o (ctx ∷ rest) =
    let frames = waiting_frames o rest in
    if ctx.waiting then frames_of o ctx.cookies ++ frames else frames

unfoldable pub waiting_stamps : {V : Type 0} → Source → List (Context V) → List ℤ
waiting_stamps o [] = []
waiting_stamps o (ctx ∷ rest) =
    let stamps = waiting_stamps o rest in
    if ctx.waiting then last_stamp o ctx.cookies (pos 0) ∷ stamps else stamps

if_append :
    {A : Type 0} (b : Bool) (xs : List A) (y : A) (ys : List A)
    → (if b then (if b then xs ++ y ∷ [] else xs) ++ ys else (if b then xs ++ y ∷ [] else xs))
      ≡ (if b then xs ++ y ∷ ys else xs)
if_append true xs y ys = append_assoc xs (y ∷ []) ys
if_append false xs y ys = refl

if_nil : {A : Type 0} (b : Bool) (xs : List A) → (if b then xs ++ [] else xs) ≡ xs
if_nil true xs = append-nil xs
if_nil false xs = refl

module _ {P V : Type 0} where
  publish_buffers-frames :
      (s : State P V) (cs : List ℕ) (frames : List Frame) (d : ℤ)
      → HasStreams (source s) cs
      → publish_buffers s cs frames d ≡ record {
        failure = none;
        frames = frames ++ frames_of (source s) cs;
        stamp = last_stamp (source s) cs d;
      }
  unfolding publish_buffers frames_of last_stamp
  publish_buffers-frames s [] frames d h = rw (append-nil frames)
  publish_buffers-frames s (c ∷ cs) frames d h =
      let ih =
        publish_buffers-frames s cs
          (frames ++ record { stream = h.0.0; cookie = c; stamp = stamp_of s c } ∷ [])
          (stamp_of s c) h.1 in
      rw (
        publish_buffers,
        frames_of,
        last_stamp,
        h.0.1,
        ih,
        append_assoc frames (record { stream = h.0.0; cookie = c; stamp = stamp_of s c } ∷ [])
            (frames_of (source s) cs),
      )

  -- The context of a served request.
  abbrev pub served : (ControlList V → ControlList V) → Handler P V → Context V → Context V
  served reuse h ctx =
      let u = update_request h false (reuse ctx.controls) ctx.control_seq in
      if ctx.waiting then record ctx { controls = u.0; control_seq = u.1; waiting = false } else ctx

unfoldable pub waiting_indices : {V : Type 0} → ℕ → List (Context V) → List ℕ
waiting_indices i [] = []
waiting_indices i (ctx ∷ rest) =
    let indices = waiting_indices (suc i) rest in if ctx.waiting then i ∷ indices else indices

module _ {P V : Type 0} (reuse : ControlList V → ControlList V) where
  -- The state behind the served contexts.
  abbrev pub behind : ℕ → List (Context V) → State P V → State P V
  behind i ctxs s = record s {
    waiting_requests = 0;
    published = s.published ++ waiting_frames (source s) ctxs;
    called_back =
        if s.has_callback then s.called_back ++ waiting_stamps (source s) ctxs else s.called_back;
    queued = s.queued ++ waiting_indices i ctxs;
  }

  abbrev pub after : ℕ → Context V → State P V → State P V
  after i ctx s = record s {
    waiting_requests = decrement s.waiting_requests;
    published = s.published ++ frames_of (source s) ctx.cookies;
    called_back =
        if s.has_callback
        then s.called_back ++ last_stamp (source s) ctx.cookies (pos 0) ∷ []
        else s.called_back;
    queued = s.queued ++ i ∷ [];
  }

  pub process-waiting :
      (i : ℕ) (ctx : Context V) (s : State P V)
      → ctx.waiting ≡ true
      → HasStreams (source s) ctx.cookies
      → process reuse i ctx s ≡ record {
        failure = none;
        context = served reuse s.controls_handler ctx;
        state = after i ctx s;
      }
  unfolding process
  process-waiting i ctx s w h = rw (w, publish_buffers-frames s ctx.cookies s.published (pos 0) h)

  pub process-idle :
      (i : ℕ) (ctx : Context V) (s : State P V)
      → ctx.waiting ≡ false
      → process reuse i ctx s ≡ record { failure = none; context = ctx; state = s }
  unfolding process
  process-idle i ctx s w = rw w

  execute_from-step :
      (i : ℕ) (ctx : Context V) (rest : List (Context V)) (s : State P V) (c : Context V)
      (t : State P V) (r : Executed P V)
      → process reuse i ctx s ≡ record { failure = none; context = c; state = t }
      → execute_from reuse (suc i) rest t ≡ r
      → execute_from reuse i (ctx ∷ rest) s
        ≡ record { failure = r.failure; contexts = c ∷ r.contexts; state = r.state }
  unfolding execute_from
  execute_from-step i ctx rest s c t r e f =
      ap {B = Executed P V}
        (λ p. elim p.failure as (λ x. Executed P V) [
          | some x ↦ record { failure = some x; contexts = p.context ∷ rest; state = p.state }
          | none ↦
              let q = execute_from reuse (suc i) rest p.state in
              record { failure = q.failure; contexts = p.context ∷ q.contexts; state = q.state }
        ])
        e
      ∙ ap {B = Executed P V}
          (λ q. record { failure = q.failure; contexts = c ∷ q.contexts; state = q.state }) f

  count_waiting-after :
      (ctx : Context V) (rest : List (Context V)) (s : State P V)
      → length (ctx ∷ rest) < 2 ^ 64
      → s.waiting_requests ≡ count_waiting (ctx ∷ rest)
      → ctx.waiting ≡ true
      → decrement s.waiting_requests ≡ count_waiting rest
  unfolding count_waiting
  count_waiting-after ctx rest s b c w =
      let bound = count_waiting-bound rest in
      let n = c ∙ ap (λ x. if x then suc (count_waiting rest) else count_waiting rest) w in
      omega arith

  execute_from-behind :
      (i : ℕ) (ctxs : List (Context V)) (s : State P V)
      → length ctxs < 2 ^ 64
      → s.waiting_requests ≡ count_waiting ctxs
      → IsLaidOut s ctxs
      → execute_from reuse i ctxs s ≡ record {
        failure = none;
        contexts = map (served reuse s.controls_handler) ctxs;
        state = behind i ctxs s;
      }
  unfolding execute_from waiting_frames waiting_stamps waiting_indices count_waiting
  execute_from-behind i [] s b c h =
      ap {B = Executed P V}
        (λ n. record { failure = none; contexts = []; state = record s { waiting_requests = n } }) c
      ∙ rw (append-nil s.published, append-nil s.queued, if_nil s.has_callback s.called_back)
  execute_from-behind i (ctx ∷ rest) s b c h = elim (Bool-cases ctx.waiting) [
    | inl w ↦
        let ih =
          execute_from-behind (suc i) rest (after i ctx s) (omega arith)
            (count_waiting-after ctx rest s b c w) h.1 in
        execute_from-step i ctx rest s (served reuse s.controls_handler ctx) (after i ctx s) _
          (process-waiting i ctx s w h.0) ih
        ∙ rw (
          w,
          append_assoc s.published (frames_of (source s) ctx.cookies)
              (waiting_frames (source s) rest),
          append_assoc s.queued (i ∷ []) (waiting_indices (suc i) rest),
          if_append s.has_callback s.called_back (last_stamp (source s) ctx.cookies (pos 0))
              (waiting_stamps (source s) rest),
        )
    | inr w ↦
        let ih = execute_from-behind (suc i) rest s (omega arith) (c ∙ rw w) h.1 in
        execute_from-step i ctx rest s ctx s _ (process-idle i ctx s w) ih ∙ rw w
  ]

  -- `execute`: if every buffer has a stream handler, fewer than 2^64 requests exist and the counter
  -- counts the waiting ones, then it throws nothing, publishes the frames of the waiting requests and
  -- no others, in the order of the requests and of their buffers, each with the stamp of its buffer,
  -- queues those requests again in that order, reports each with its last stamp to the callback, if
  -- there is one, updates their controls as `update_request` does and leaves no request waiting.
  pub execute-batch :
      (s : State P V)
      → length s.request_ctx < 2 ^ 64
      → IsCounted s
      → IsLaidOut s s.request_ctx
      → execute reuse s ≡ (
        none,
        record (behind 0 s.request_ctx s) {
          request_ctx = map (served reuse s.controls_handler) s.request_ctx;
        },
      )
  unfolding execute
  execute-batch s b c h = rw (execute_from-behind 0 s.request_ctx s b c h)

  served-count :
      (h : Handler P V) (ctxs : List (Context V)) → count_waiting (map (served reuse h) ctxs) ≡ 0
  unfolding count_waiting
  served-count h [] = refl
  served-count h (ctx ∷ rest) =
      let ih = served-count h rest in
      elim (Bool-cases ctx.waiting) [ inl w ↦ rw (w, ih) | inr w ↦ rw (w, ih) ]
