-- ===== src/Camera/Requests/Threads.antt =====
-- `handle` and `execute` of tuw_libcamera/src/capture/request_handler.cpp at the grain of their writes:
-- `handle` sets the flag of a request before it counts it, and `execute` counts it off before it
-- publishes and clears the flag. The writes of the two threads come in any order.
pub mod Counted
use tuw_spike.Base.{
  ℕ, suc, ◌≡◌, refl, sym, ap, ◌∙◌, Option-cases, inl, inr, true, false, Option, none, some,
  get_elem?, set, List, [], ◌∷◌, ◌++◌, if◌then◌else◌,
}
use tuw_spike.Base.Int.{ℤ, pos}
use tuw_spike.Camera.Controls.{ControlList}
use tuw_spike.Camera.Requests.{
  Context, Frame, State, Processed, handle, process, stream_of, stamp_of, finish_sent,
  publish_buffers, increment, decrement,
}
use tuw_spike.Camera.Requests.Cycle.{mark-free}
use tuw_spike.Camera.Requests.Interleaving.{served}

module _ {P V : Type 0} where
  -- `ctx.waiting = true`
  abbrev pub set_waiting : ℕ → Context V → State P V → State P V
  set_waiting i ctx s = record s {
    request_ctx = set s.request_ctx i (record ctx { waiting = true });
  }

  -- `waiting_requests++` and `waiting_requests--`
  abbrev pub count_up : State P V → State P V
  count_up s = record s { waiting_requests = increment s.waiting_requests }

  abbrev pub count_down : State P V → State P V
  count_down s = record s { waiting_requests = decrement s.waiting_requests }

  -- The iteration of `execute` behind `waiting_requests--`.
  abbrev pub finish : (ControlList V → ControlList V) → ℕ → Context V → State P V → Processed P V
  finish reuse i ctx s =
      finish_sent reuse i ctx (publish_buffers s ctx.cookies s.published (pos 0)) s

  abbrev pub write_back : ℕ → Processed P V → State P V
  write_back i p = record p.state { request_ctx = set p.state.request_ctx i p.context }

-- The handler; how many calls of `handle` have set a flag and not counted it yet; and the request for
-- which the executor has counted down and not cleared the flag yet.
pub record Threads (P V : Type 0) : Type 0 where
  pub handler : State P V
  pub uncounted : ℕ
  pub serving : Option ℕ

module _ {P V : Type 0} (reuse : ControlList V → ControlList V) where
  pub data Move : Threads P V → Threads P V → Type 0 where
    -- `handle`, for a request that does not wait, which is where it goes on.
    flag :
        (m : Threads P V) (i : ℕ) (ctx : Context V)
        → get_elem? m.handler.request_ctx i ≡ some ctx
        → ctx.waiting ≡ false
        → Move m (record m { handler = set_waiting i ctx m.handler; uncounted = suc m.uncounted })
    raise :
        (m : Threads P V) (n : ℕ)
        → m.uncounted ≡ suc n
        → Move m (record m { handler = count_up m.handler; uncounted = n })
    -- `execute`
    lower :
        (m : Threads P V) (i : ℕ) (ctx : Context V)
        → m.serving ≡ none
        → get_elem? m.handler.request_ctx i ≡ some ctx
        → ctx.waiting ≡ true
        → Move m (record m { handler = count_down m.handler; serving = some i })
    clear :
        (m : Threads P V) (i : ℕ) (ctx : Context V)
        → m.serving ≡ some i
        → get_elem? m.handler.request_ctx i ≡ some ctx
        → (finish reuse i ctx m.handler).failure ≡ none
        → Move m
            (record m { handler = write_back i (finish reuse i ctx m.handler); serving = none })

  pub data Moves (m : Threads P V) : Threads P V → Type 0 where
    here : Moves m m
    then_move : {n o : Threads P V} → Moves m n → Move n o → Moves m o

-- Both writes of `handle` in turn, and the iteration of `execute`, are the whole calls.
module _ {P V : Type 0} where
  handle-two_writes :
      (s : State P V) (i : ℕ) (ctx : Context V)
      → get_elem? s.request_ctx i ≡ some ctx
      → ctx.waiting ≡ false
      → (handle false i s).1 ≡ count_up (set_waiting i ctx s)
  unfolding handle
  handle-two_writes s i ctx e w = rw (e, mark-free s i ctx w) refl

  publish_buffers-count_down :
      (s : State P V) (cs : List ℕ) (frames : List Frame) (stamp : ℤ)
      → publish_buffers (count_down s) cs frames stamp ≡ publish_buffers s cs frames stamp
  unfolding publish_buffers
  publish_buffers-count_down s [] frames stamp = refl
  publish_buffers-count_down s (c ∷ cs) frames stamp =
      elim (Option-cases (stream_of s.buffer_ctx s.stream_handlers c)) [
        | inl e ↦ rw (publish_buffers, e) refl
        | inr (st, e) ↦
            let ih =
              publish_buffers-count_down s cs
                (frames ++ record { stream = st; cookie = c; stamp = stamp_of s c } ∷ [])
                (stamp_of s c) in
            rw (publish_buffers, e) ih
      ]

  served-two_writes :
      (reuse : ControlList V → ControlList V) (s : State P V) (i : ℕ) (ctx : Context V)
      → ctx.waiting ≡ true
      → served reuse i ctx s ≡ write_back i (finish reuse i ctx (count_down s))
  unfolding process
  served-two_writes reuse s i ctx w =
      let run : process reuse i ctx s
          ≡ finish_sent reuse i ctx (publish_buffers s ctx.cookies s.published (pos 0))
              (count_down s) =
        rw (process, w) in
      ap (write_back i) (
        run
        ∙ ap (λ sent. finish_sent reuse i ctx sent (count_down s))
            (sym (publish_buffers-count_down s ctx.cookies s.published (pos 0))))
