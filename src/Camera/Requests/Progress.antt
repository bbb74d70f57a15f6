-- ===== src/Camera/Requests/Progress.antt =====
-- In every order of completions, cancellations and services, no request is lost.
use tuw_spike.Base.{
  ℕ, zero, suc, ◌+◌, ◌<◌, ◌≡◌, refl, sym, ap, ◌∙◌, true, false, List, [], ◌∷◌, ◌++◌, Option, none,
  some, ◌⊎◌, if◌then◌else◌, get_elem?, arith, Bool-cases, All, inl, inr,
}
use tuw_spike.Base.Result.{ok}
use tuw_spike.Camera.Controls.{ControlList}
use tuw_spike.Camera.Requests.Cycle.{mark-free}
use tuw_spike.Camera.Requests.{Context, State, handle, process, queue_all, start}
use tuw_spike.Camera.Requests.Interleaving.{
  count, System, Holds, served, serve, Reach, next, waits, IsPlaced, count-append, count-cons_self,
  count-nil, count-cons_ne, process-requeued, Reach-IsPlaced,
}

-- No request was queued, and none waits, as it is behind the constructor and `add_stream`.
pub record IsFresh {P V : Type 0} (s : State P V) : Type 0 where
  pub unqueued : s.queued ≡ []
  pub idle : All (λ (c : Context V). c.waiting ≡ false) s.request_ctx

-- The system behind `start`.
abbrev pub started : {P V : Type 0} → State P V → System P V
started s = record { handler = start s; completed = []; cancelled = [] }

pub zero-cases : (n : ℕ) → (n ≡ 0) ⊎ (0 < n)
zero-cases zero = inl refl
zero-cases (suc n) = inr (omega arith)

module _ {V : Type 0} where
  abbrev one_if : Option (Context V) → ℕ
  one_if none = 0
  one_if (some c) = 1

  count-queue_all_low : (j i : ℕ) (ctxs : List (Context V)) → i < j → count i (queue_all j ctxs) ≡ 0
  unfolding queue_all
  count-queue_all_low j i [] b = count-nil i
  count-queue_all_low j i (c ∷ cs) b =
      count-cons_ne j i (queue_all (suc j) cs) (λ e. omega (arith, e))
      ∙ count-queue_all_low (suc j) i cs (omega arith)

  count-queue_all :
      (j k : ℕ) (ctxs : List (Context V))
      → count (j + k) (queue_all j ctxs) ≡ one_if (get_elem? ctxs k)
  unfolding queue_all
  count-queue_all j k [] = count-nil (j + k)
  count-queue_all j zero (c ∷ cs) =
      let e : j + 0 ≡ j = omega arith in
      ap (λ i. count i (j ∷ queue_all (suc j) cs)) e
      ∙ count-cons_self j (queue_all (suc j) cs)
      ∙ ap suc (count-queue_all_low (suc j) j cs (omega arith))
  count-queue_all j (suc k) (c ∷ cs) =
      let e : j + suc k ≡ suc j + k = omega arith in
      count-cons_ne j (j + suc k) (queue_all (suc j) cs) (λ z. omega (arith, z))
      ∙ ap (λ i. count i (queue_all (suc j) cs)) e
      ∙ count-queue_all (suc j) k cs

  pub All-get :
      (ctxs : List (Context V)) (i : ℕ) (ctx : Context V)
      → All (λ (c : Context V). c.waiting ≡ false) ctxs
      → get_elem? ctxs i ≡ some ctx
      → ctx.waiting ≡ false
  All-get [] i ctx h e = cc e
  All-get (c ∷ cs) zero ctx h e = cc (h.0, e)
  All-get (c ∷ cs) (suc i) ctx h e = All-get cs i ctx h.1 e

module _ {P V : Type 0} where
  started-count :
      (s : State P V) (i : ℕ)
      → IsFresh s
      → count i (started s).handler.queued ≡ one_if (get_elem? s.request_ctx i)
  started-count s i f =
      let e : 0 + i ≡ i = omega arith in
      ap (λ q. count i (q ++ queue_all 0 s.request_ctx)) f.unqueued
      ∙ ap (λ k. count k (queue_all 0 s.request_ctx)) (sym e)
      ∙ count-queue_all 0 i s.request_ctx

  pub started-IsPlaced : (s : State P V) → IsFresh s → IsPlaced (started s)
  started-IsPlaced s f = record {
    places = λ i ctx e.
        let once = started-count s i f ∙ ap one_if e in
        let idle : waits ctx ≡ 0 =
          ap (λ b. if b then 1 else 0) (All-get s.request_ctx i ctx f.idle e) in
        omega (arith, once, idle, count-nil i);
    handed = λ i. omega (arith, count-nil i);
    known = λ i e. started-count s i f ∙ ap one_if e;
  }

  -- Where a request is: with the camera, so that `handle` returns when it completes, or waiting for the
  -- executor, or cancelled.
  abbrev pub Placed : (ControlList V → ControlList V) → ℕ → Context V → System P V → Type 0
  Placed reuse i ctx m =
      (Holds reuse i m × (ctx.waiting ≡ false) × ((handle false i m.handler).0 ≡ ok tt))
      ⊎ ((ctx.waiting ≡ true) × ¬ (Holds reuse i m))
      ⊎ ((0 < count i m.cancelled) × (ctx.waiting ≡ false) × ¬ (Holds reuse i m))

  idle-Placed :
      (reuse : ControlList V → ControlList V) (i : ℕ) (ctx : Context V) (m : System P V)
      → IsPlaced m
      → get_elem? m.handler.request_ctx i ≡ some ctx
      → ctx.waiting ≡ false
      → Placed reuse i ctx m
  unfolding handle
  idle-Placed reuse i ctx m h e w =
      let none_waits : waits ctx ≡ 0 = ap (λ b. if b then 1 else 0) w in
      elim (zero-cases (count i m.cancelled)) [
        | inl z ↦ inl (
          omega (arith, h.places i ctx e, none_waits, z),
          w,
          rw (e, mark-free m.handler i ctx w) refl,
        )
        | inr z ↦ inr (inr (z, w, λ b. omega (arith, h.places i ctx e, none_waits, z, b)))
      ]

  -- In every state that the handler reaches from `start`, by any sequence of completions,
  -- cancellations and services, each request is in exactly one place. The camera holds it, and then
  -- `handle` returns when it completes; or it waits for the executor; or the camera cancelled it. So
  -- no completion makes `handle` throw, and no request is lost.
  pub Reach-Placed :
      (reuse : ControlList V → ControlList V) (s : State P V) (m : System P V) (i : ℕ)
      (ctx : Context V)
      → IsFresh s
      → Reach reuse (started s) m
      → get_elem? m.handler.request_ctx i ≡ some ctx
      → Placed reuse i ctx m
  Reach-Placed reuse s m i ctx f r e =
      let h = Reach-IsPlaced reuse (started-IsPlaced s f) r in
      elim (Bool-cases ctx.waiting) [
        | inl w ↦
            let one : waits ctx ≡ 1 = ap (λ b. if b then 1 else 0) w in
            inr (inl (w, λ b. omega (arith, h.places i ctx e, one, b)))
        | inr w ↦ idle-Placed reuse i ctx m h e w
      ]

  -- A request that waits comes back to the camera: in every state that is reached from `start`, the
  -- iteration of `execute` for a waiting request, if it does not throw, leaves a state that is
  -- reached too, in which the camera holds the request and its context no longer waits.
  pub serve-Holds :
      (reuse : ControlList V → ControlList V) (s : State P V) (m : System P V) (i : ℕ)
      (ctx : Context V)
      → IsFresh s
      → Reach reuse (started s) m
      → get_elem? m.handler.request_ctx i ≡ some ctx
      → ctx.waiting ≡ true
      → (process reuse i ctx m.handler).failure ≡ none
      → let n : System P V = record m { handler = served reuse i ctx m.handler } in
        Reach reuse (started s) n
        × Holds reuse i n
        × ((process reuse i ctx m.handler).context.waiting ≡ false)
  serve-Holds reuse s m i ctx f r e w fine =
      let h = Reach-IsPlaced reuse (started-IsPlaced s f) r in
      let p = process-requeued reuse i ctx m.handler w fine in
      let one : waits ctx ≡ 1 = ap (λ b. if b then 1 else 0) w in
      let grown : count i (process reuse i ctx m.handler).state.queued
          ≡ count i m.handler.queued + 1 =
        ap (λ q. count i q.state.queued) p
        ∙ count-append i m.handler.queued (i ∷ [])
        ∙ ap (λ k. count i m.handler.queued + k) (count-cons_self i [] ∙ ap suc (count-nil i)) in
      (
        next r (serve m i ctx e fine),
        omega (arith, h.places i ctx e, h.handed i, one, grown),
        ap (λ q. q.context.waiting) p,
      )
