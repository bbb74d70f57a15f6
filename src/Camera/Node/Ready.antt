-- ===== src/Camera/Node/Ready.antt =====
-- The request handler behind the constructor.
use tuw_spike.Base.{
  ℕ, zero, suc, ◌+◌, ◌==◌, ◌≡◌, refl, sym, ap, ◌∙◌, Bool, false, List, [], ◌∷◌, Option, none, some,
  length, All, arith, Bool-cases, Option-cases, inl, inr,
}
use mathlib.Core.Path.{subst}
use tuw_spike.Base.Int.{ℤ}
use tuw_spike.Base.Text.{Bytes}
use tuw_spike.Base.Result.{Exception, ok, ok-injective}
use tuw_spike.Camera.Controls.{ControlList, Handler}
use tuw_spike.Camera.Requests.{Context, State, create_requests, create, add_stream}
use tuw_spike.Camera.Requests.Batch.{IsLaidOut}
use tuw_spike.Camera.Requests.Layout.{added, added-length}
use tuw_spike.Camera.Requests.Accepted.{extended, add_stream-extended, extended-IsLaidOut}
use tuw_spike.Camera.Requests.Progress.{IsFresh}
use tuw_spike.Camera.Capture.{Stream, buffers_of, create_stream_handlers}
use tuw_spike.Camera.Capture.Startup.{create_requests-length, create-IsLaidOut}
use tuw_spike.Camera.Node.{state_or_throw, with_callback}

-- Before `start`: `n` requests, none queued and none waiting, and `k` streams, of which every buffer
-- has its handler.
pub record IsReady {P V : Type 0} (n k : ℕ) (s : State P V) : Type 0 where
  pub fresh : IsFresh s
  pub laid : IsLaidOut s s.request_ctx
  pub none_waits : s.waiting_requests ≡ 0
  pub size : length s.request_ctx ≡ n
  pub made : s.stream_handlers ≡ k

added-idle :
    {V : Type 0} (k : ℕ) (ctxs : List (Context V))
    → All (λ (c : Context V). c.waiting ≡ false) ctxs
    → All (λ (c : Context V). c.waiting ≡ false) (added k ctxs)
added-idle k [] h = tt
added-idle k (c ∷ cs) h = (h.0, added-idle (suc k) cs h.1)

module _ {P V : Type 0} where
  created-idle :
      (h : Handler P V) (fresh : ControlList V) (n : ℕ)
      → All (λ (c : Context V). c.waiting ≡ false) (create_requests h fresh n)
  unfolding create_requests
  created-idle h fresh zero = tt
  created-idle h fresh (suc n) = (refl, created-idle h fresh n)

  pub create-IsReady :
      (h : Handler P V) (fresh : ControlList V) (n : ℕ) (offset : ℤ) (metadata : ℕ → ℤ)
      → IsReady n 0 (create h fresh n offset metadata)
  create-IsReady h fresh n offset metadata = record {
    fresh = record { unqueued = refl; idle = created-idle h fresh n };
    laid = create-IsLaidOut h fresh n offset metadata n;
    none_waits = refl;
    size = create_requests-length h fresh n;
    made = refl;
  }

  extended-IsReady : (n k : ℕ) (s : State P V) → IsReady n k s → IsReady n (suc k) (extended s)
  extended-IsReady n k s h = record {
    fresh = record {
      unqueued = h.fresh.unqueued;
      idle = added-idle (length s.buffer_ctx) s.request_ctx h.fresh.idle;
    };
    laid = extended-IsLaidOut s h.laid;
    none_waits = h.none_waits;
    size = added-length (length s.buffer_ctx) s.request_ctx ∙ h.size;
    made = ap suc h.made;
  }

  module _ (accepts : ℕ → Bool) where
    create_stream_handlers-throws :
        (x : Stream) (xs : List Stream) (s : State P V) (e : Exception)
        → x.failure ≡ some e
        → (create_stream_handlers accepts (x ∷ xs) s).0 ≡ some e
    unfolding create_stream_handlers
    create_stream_handlers-throws x xs s e f = rw (create_stream_handlers, f)

    create_stream_handlers-fails :
        (x : Stream) (xs : List Stream) (s : State P V) (e : Exception)
        → x.failure ≡ none
        → (add_stream accepts (buffers_of x) s).0 ≡ some e
        → (create_stream_handlers accepts (x ∷ xs) s).0 ≡ some e
    unfolding create_stream_handlers
    create_stream_handlers-fails x xs s e f g = rw (create_stream_handlers, f, g)

    create_stream_handlers-goes :
        (x : Stream) (xs : List Stream) (s : State P V)
        → x.failure ≡ none
        → (add_stream accepts (buffers_of x) s).0 ≡ none
        → create_stream_handlers accepts (x ∷ xs) s
          ≡ create_stream_handlers accepts xs (add_stream accepts (buffers_of x) s).1
    unfolding create_stream_handlers
    create_stream_handlers-goes x xs s f g = rw (create_stream_handlers, f, g)

    pub create_stream_handlers-IsReady :
        (xs : List Stream) (s : State P V) (n k : ℕ)
        → (create_stream_handlers accepts xs s).0 ≡ none
        → IsReady n k s
        → IsReady n (k + length xs) (create_stream_handlers accepts xs s).1
    create_stream_handlers-IsReady [] s n k e h =
        let same : k ≡ k + 0 = omega arith in
        unfold create_stream_handlers in subst (λ j. IsReady n j s) same h
    create_stream_handlers-IsReady (x ∷ xs) s n k e h = elim (Option-cases x.failure) [
      | inr (y, f) ↦ cc (e, create_stream_handlers-throws x xs s y f)
      | inl f ↦ elim (Option-cases (add_stream accepts (buffers_of x) s).0) [
        | inr (y, g) ↦ cc (e, create_stream_handlers-fails x xs s y f g)
        | inl g ↦
            let step = create_stream_handlers-goes x xs s f g in
            let next =
              subst (IsReady n (suc k)) (sym (add_stream-extended accepts (buffers_of x) s g))
                (extended-IsReady n k s h) in
            let more : suc k + length xs ≡ k + suc (length xs) = omega arith in
            let rest =
              create_stream_handlers-IsReady xs (add_stream accepts (buffers_of x) s).1 n (suc k)
                (sym (ap (λ r. r.0) step) ∙ e) next in
            subst (λ r. IsReady n (k + suc (length xs)) r.1) (sym step)
              (subst
                (λ j.
                  IsReady n j
                    (create_stream_handlers accepts xs (add_stream accepts (buffers_of x) s).1).1)
                more rest)
      ]
    ]

  pub with_callback-IsReady :
      (name : Bytes) (n k : ℕ) (s : State P V) → IsReady n k s → IsReady n k (with_callback name s)
  with_callback-IsReady name n k s h = elim (Bool-cases (length name == 0)) [
    | inl t ↦ rw t h
    | inr f ↦ rw f (record {
      fresh = record { unqueued = h.fresh.unqueued; idle = h.fresh.idle };
      laid = h.laid;
      none_waits = h.none_waits;
      size = h.size;
      made = h.made;
    })
  ]

  pub state_or_throw-ok :
      (r : Option Exception × State P V) (s : State P V)
      → state_or_throw r ≡ ok s
      → (r.0 ≡ none) × (r.1 ≡ s)
  state_or_throw-ok (none, t) s e = (refl, ok-injective e)
  state_or_throw-ok (some x, t) s e = cc e
