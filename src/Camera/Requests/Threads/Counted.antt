-- ===== src/Camera/Requests/Threads/Counted.antt =====
-- No wake-up is lost between the writes of the two threads.
use tuw_spike.Base.{
  ℕ, suc, ◌+◌, ◌%◌, ◌^◌, ◌<◌, ◌≡◌, ◌≢◌, ◌⊎◌, refl, sym, ap, ◌∙◌, true, false, Option, none, some,
  get_elem?, set, length, arith, length-set, get_elem?-set_ne, Option-cases, inl, inr, lt→ltb,
}
use mathlib.Core.Path.{subst}
use mathlib.Core.Option.{some-injective}
use tuw_spike.Base.Int.{pos}
use tuw_spike.Camera.Controls.{ControlList}
use tuw_spike.Camera.Requests.{
  Context, State, Sent, is_ready, start, requeue, finish_sent, publish_buffers,
}
use tuw_spike.Camera.Requests.Cycle.{count_waiting, count_waiting-bound, count_waiting-set}
use tuw_spike.Camera.Requests.Service.{count_waiting-clear, idle-count, count_waiting-positive}
use tuw_spike.Camera.Requests.Progress.{IsFresh, zero-cases}
use tuw_spike.Camera.Requests.Threads.{
  Threads, set_waiting, count_up, count_down, finish, write_back, Move, flag, raise, lower, clear,
  Moves, here, then_move,
}

abbrev pub busy : Option ℕ → ℕ
busy none = 0
busy (some i) = 1

-- The counter, with the calls of `handle` that still count up and the iteration that already counted
-- down, counts the requests that wait, modulo 2^64. The request that is served waits.
pub record IsTallied {P V : Type 0} (m : Threads P V) : Type 0 where
  pub few : length m.handler.request_ctx < 2 ^ 64
  pub word : m.handler.waiting_requests < 2 ^ 64
  pub tally :
      (m.handler.waiting_requests + m.uncounted + busy m.serving) % 2 ^ 64
      ≡ count_waiting m.handler.request_ctx
  pub served_waits :
      (i : ℕ)
      → m.serving ≡ some i
      → (ctx : Context V) × (get_elem? m.handler.request_ctx i ≡ some ctx) × (ctx.waiting ≡ true)

module _ {P V : Type 0} where
  finish-requeue :
      (reuse : ControlList V → ControlList V) (i : ℕ) (ctx : Context V) (sent : Sent)
      (s : State P V)
      → (finish_sent reuse i ctx sent s).failure ≡ none
      → finish_sent reuse i ctx sent s ≡ requeue reuse i ctx sent s
  finish-requeue reuse i ctx sent s e = elim (Option-cases sent.failure) [
    | inl fine ↦ rw fine
    | inr (x, f) ↦
        let thrown : (finish_sent reuse i ctx sent s).failure ≡ some x = rw f in cc (e, thrown)
  ]

  flag-IsTallied :
      (m : Threads P V) (i : ℕ) (ctx : Context V)
      → IsTallied m
      → get_elem? m.handler.request_ctx i ≡ some ctx
      → ctx.waiting ≡ false
      → IsTallied (record m { handler = set_waiting i ctx m.handler; uncounted = suc m.uncounted })
  flag-IsTallied m i ctx h e w =
      let on = record ctx { waiting = true } in
      let size = length-set m.handler.request_ctx i on in
      let more = count_waiting-set m.handler.request_ctx i ctx e w in
      let bound = count_waiting-bound (set m.handler.request_ctx i on) in
      record {
        few = omega (arith, h.few, size);
        word = h.word;
        tally = omega (arith, h.tally, more, bound, size, h.few);
        served_waits = λ j at.
            let (c, there, waits) = h.served_waits j at in
            let apart : i ≢ j =
              λ z. cc (w, waits, ap (λ k. get_elem? m.handler.request_ctx k) z, e, there) in
            (c, get_elem?-set_ne m.handler.request_ctx on apart ∙ there, waits);
      }

  raise-IsTallied :
      (m : Threads P V) (n : ℕ)
      → IsTallied m
      → m.uncounted ≡ suc n
      → IsTallied (record m { handler = count_up m.handler; uncounted = n })
  raise-IsTallied m n h e = record {
    few = h.few;
    word = omega arith;
    tally = omega (arith, h.tally, e, h.word);
    served_waits = h.served_waits;
  }

  lower-IsTallied :
      (m : Threads P V) (i : ℕ) (ctx : Context V)
      → IsTallied m
      → m.serving ≡ none
      → get_elem? m.handler.request_ctx i ≡ some ctx
      → ctx.waiting ≡ true
      → IsTallied (record m { handler = count_down m.handler; serving = some i })
  lower-IsTallied m i ctx h none_served e w =
      let idle : busy m.serving ≡ 0 = ap busy none_served in
      record {
        few = h.few;
        word = omega arith;
        tally = omega (arith, h.tally, idle, h.word);
        served_waits = λ j at.
            (ctx, ap (λ k. get_elem? m.handler.request_ctx k) (sym (some-injective i j at)) ∙ e, w);
      }

  clear-IsTallied :
      (reuse : ControlList V → ControlList V) (m : Threads P V) (i : ℕ) (ctx : Context V)
      → IsTallied m
      → m.serving ≡ some i
      → get_elem? m.handler.request_ctx i ≡ some ctx
      → (finish reuse i ctx m.handler).failure ≡ none
      → IsTallied
          (record m { handler = write_back i (finish reuse i ctx m.handler); serving = none })
  clear-IsTallied reuse m i ctx h at e fine =
      let sent = publish_buffers m.handler ctx.cookies m.handler.published (pos 0) in
      let p = requeue reuse i ctx sent m.handler in
      let one : busy m.serving ≡ 1 = ap busy at in
      let (c, there, waits) = h.served_waits i at in
      let w : ctx.waiting ≡ true =
        ap (λ x. x.waiting) (some-injective ctx c (sym e ∙ there)) ∙ waits in
      let less = count_waiting-clear m.handler.request_ctx i ctx p.context e w refl in
      let size = length-set m.handler.request_ctx i p.context in
      let bound = count_waiting-bound m.handler.request_ctx in
      subst (λ q. IsTallied (record m { handler = write_back i q; serving = none }))
        (sym (finish-requeue reuse i ctx sent m.handler fine))
        (record {
          few = omega (arith, h.few, size);
          word = h.word;
          tally = omega (arith, h.tally, one, less, bound, h.few, h.word);
          served_waits = λ j none_left. cc none_left;
        })

  Move-IsTallied :
      (reuse : ControlList V → ControlList V) {m n : Threads P V}
      → Move reuse m n
      → IsTallied m
      → IsTallied n
  Move-IsTallied reuse (flag m i ctx e w) h = flag-IsTallied m i ctx h e w
  Move-IsTallied reuse (raise m n e) h = raise-IsTallied m n h e
  Move-IsTallied reuse (lower m i ctx s e w) h = lower-IsTallied m i ctx h s e w
  Move-IsTallied reuse (clear m i ctx s e f) h = clear-IsTallied reuse m i ctx h s e f

  Moves-IsTallied :
      (reuse : ControlList V → ControlList V) {m n : Threads P V}
      → Moves reuse m n
      → IsTallied m
      → IsTallied n
  Moves-IsTallied reuse here h = h
  Moves-IsTallied reuse (then_move r st) h = Move-IsTallied reuse st (Moves-IsTallied reuse r h)

  -- The threads behind `start`.
  abbrev pub begun : State P V → Threads P V
  begun s = record { handler = start s; uncounted = 0; serving = none }

  begun-IsTallied :
      (s : State P V)
      → IsFresh s
      → s.waiting_requests ≡ 0
      → length s.request_ctx < 2 ^ 64
      → IsTallied (begun s)
  begun-IsTallied s f z b =
      let idle = idle-count s.request_ctx f.idle in
      record {
        few = b;
        word = omega (arith, z);
        tally = omega (arith, z, idle);
        served_waits = λ i none_served. cc none_served;
      }

  ready-cases :
      (m : Threads P V)
      → IsTallied m
      → 0 < count_waiting m.handler.request_ctx
      → (is_ready m.handler ≡ true) ⊎ (0 < m.uncounted) ⊎ ((j : ℕ) × (m.serving ≡ some j))
  unfolding is_ready
  ready-cases m h w = elim (Option-cases m.serving) [
    | inr (j, e) ↦ inr (inr (j, e))
    | inl e ↦
        let idle : busy m.serving ≡ 0 = ap busy e in
        elim (zero-cases m.uncounted) [
          | inr some_left ↦ inr (inl some_left)
          | inl none_left ↦
              inl (lt→ltb 0 m.handler.waiting_requests (omega (arith, h.tally, idle, none_left, w)))
        ]
  ]

  -- `handle` and `execute` may be interrupted between their writes, in any order: in every state that is
  -- reached from `start`, if a request waits then the handler is ready, or a call of `handle` is still to
  -- count, or the executor is in the middle of an iteration. The
  -- counter, together with the calls that are still to count and the iteration that has counted down, is
  -- the number of requests that wait, modulo 2^64.
  pub Moves-ready :
      (reuse : ControlList V → ControlList V) (s : State P V) (m : Threads P V) (i : ℕ)
      (ctx : Context V)
      → IsFresh s
      → s.waiting_requests ≡ 0
      → length s.request_ctx < 2 ^ 64
      → Moves reuse (begun s) m
      → get_elem? m.handler.request_ctx i ≡ some ctx
      → ctx.waiting ≡ true
      → ((is_ready m.handler ≡ true) ⊎ (0 < m.uncounted) ⊎ ((j : ℕ) × (m.serving ≡ some j)))
        × ((m.handler.waiting_requests + m.uncounted + busy m.serving) % 2 ^ 64
            ≡ count_waiting m.handler.request_ctx)
  Moves-ready reuse s m i ctx f z b r e w =
      let h = Moves-IsTallied reuse r (begun-IsTallied s f z b) in
      (ready-cases m h (count_waiting-positive m.handler.request_ctx i ctx e w), h.tally)
