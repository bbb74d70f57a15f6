-- ===== src/Camera/Node/Frames.antt =====
-- A node that is constructed serves every request that completes.
use tuw_spike.Base.{
  ℕ, ◌<◌, ◌≡◌, ap, ◌∙◌, true, List, [], ◌∷◌, ◌++◌, none, some, length, get_elem?, All, arith,
  lt→ltb,
}
use mathlib.Core.Path.{subst}
use tuw_spike.Base.Result.{ok}
use tuw_spike.Camera.Controls.{ControlList}
use tuw_spike.Camera.Requests.{Context, Frame, Processed, process, is_ready}
use tuw_spike.Camera.Requests.Batch.{Source, source, HasStreams, frames_of, process-waiting}
use tuw_spike.Camera.Requests.Interleaving.{System, Holds, served, Reach}
use tuw_spike.Camera.Requests.Progress.{started, serve-Holds}
use tuw_spike.Camera.Requests.Service.{
  count_waiting-positive, IsServable, Reach-IsServable, started-IsServable,
}
use tuw_spike.Camera.Node.{Params, Platform, Node, construct}
use tuw_spike.Camera.Node.Served.{
  Handled, handlers_of-Handled, stream_of-bound, construct-IsStarted,
}

-- Frames of streams that exist.
frames_of-All :
    (P : ℕ → Type 0) (o : Source) (cs : List ℕ)
    → ((k : ℕ) → k < o.handlers → P k)
    → HasStreams o cs
    → All (λ (f : Frame). P f.stream) (frames_of o cs)
unfolding frames_of
frames_of-All P o [] all h = tt
frames_of-All P o (c ∷ cs) all h =
    let rest = frames_of-All P o cs all h.1 in
    rw (frames_of, h.0.1) (all h.0.0 (stream_of-bound o.buffers o.handlers c h.0.0 h.0.1), rest)

-- The node behind its constructor.
abbrev pub running : {P V : Type 0} → Node P V → System P V
running node = record { handler = node.request_handler; completed = []; cancelled = [] }

module _ {P V : Type 0} (params : Params) (p : Platform P V)
    (reuse : ControlList V → ControlList V) where
  is_ready-waiting :
      (o : Source) (m : System P V) (i : ℕ) (ctx : Context V)
      → IsServable o m
      → get_elem? m.handler.request_ctx i ≡ some ctx
      → ctx.waiting ≡ true
      → is_ready m.handler ≡ true
  unfolding is_ready
  is_ready-waiting o m i ctx h e w =
      lt→ltb 0 m.handler.waiting_requests
        (omega (arith, h.counted, count_waiting-positive m.handler.request_ctx i ctx e w))

  -- From the constructor on: in every state that a constructed node reaches, by any sequence of
  -- completions, cancellations and services, a request that waits makes the executor ready, and the
  -- iteration of `execute` for it throws nothing, gives the request back to the camera, which holds it
  -- then, and publishes exactly the frames of its buffers, each to a stream that has a configuration
  -- and the handler that `create_stream_handler` made for it with the
  -- parameters of its role.
  pub construct-serves :
      (node : Node P V) (m : System P V) (i : ℕ) (ctx : Context V)
      → construct params p ≡ ok node
      → Reach reuse (running node) m
      → get_elem? m.handler.request_ctx i ≡ some ctx
      → ctx.waiting ≡ true
      → let q = process reuse i ctx m.handler in
        let frames = frames_of (source m.handler) ctx.cookies in
        (is_ready m.handler ≡ true)
        × (q.failure ≡ none)
        × Holds reuse i (record m { handler = served reuse i ctx m.handler })
        × (q.state.published ≡ m.handler.published ++ frames)
        × All
            (λ (f : Frame).
              Handled p.table p.ros params params.stream_roles node.config node.stream_handlers
                f.stream)
            frames
  construct-serves node m i ctx made r e w =
      let b = construct-IsStarted params p node made in
      let from : Reach reuse (started b.before) m =
        subst (λ s. Reach reuse (record { handler = s; completed = []; cancelled = [] }) m) b.begun
          r in
      let begun =
        started-IsServable b.before b.ready.fresh b.ready.laid b.ready.none_waits
          (omega (arith, b.ready.size, b.few)) in
      let h = Reach-IsServable reuse begun from in
      let run = process-waiting reuse i ctx m.handler w (h.layout i ctx e) in
      let fine = ap (λ (q : Processed P V). q.failure) run in
      let count : (source m.handler).handlers ≡ length node.config =
        ap (λ o. o.handlers) h.same ∙ b.ready.made in
      (
        is_ready-waiting (source b.before) m i ctx h e w,
        fine,
        (serve-Holds reuse b.before m i ctx b.ready.fresh from e w fine).1,
        ap (λ (q : Processed P V). q.state.published) run,
        frames_of-All
            (Handled p.table p.ros params params.stream_roles node.config node.stream_handlers)
            (source m.handler) ctx.cookies
            (λ k less.
              handlers_of-Handled p.table p.ros params params.stream_roles node.config
                node.stream_handlers k b.handlers (omega (arith, count, less)))
            (h.layout i ctx e),
      )
