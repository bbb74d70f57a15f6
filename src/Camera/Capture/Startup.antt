-- ===== src/Camera/Capture/Startup.antt =====
-- The requests of a started node have all their buffers.
use tuw_spike.Base.{
  ℕ, zero, suc, ◌^◌, ◌<◌, ◌≤◌, ◌≡◌, refl, sym, ap, ◌∙◌, Bool, true, List, [], ◌∷◌, none, some, ltb,
  if◌then◌else◌, All, arith, length, Option-cases, inl, inr, ◌⊎◌,
}
use mathlib.Core.Path.{subst}
use tuw_spike.Base.Result.{runtime_error, Result, ok, throws}
use tuw_spike.Base.Int.{ℤ}
use tuw_spike.Camera.Controls.{ControlList, Handler}
use tuw_spike.Camera.Requests.{State, add_stream, create_requests, create}
use tuw_spike.Camera.Requests.Batch.{IsLaidOut}
use tuw_spike.Camera.Requests.Layout.{add_stream-IsLaidOut, add_stream-length}
use tuw_spike.Camera.Capture.{
  Stream, size_max, fewest, check_requests, allocate_buffers, buffers_of, create_stream_handlers,
}

fewest-none :
    (s : Stream) (ss : List Stream) (start : ℕ)
    → s.allocated ≡ none
    → fewest (s ∷ ss) start ≡ throws runtime_error
unfolding fewest
fewest-none s ss start e = rw (fewest, e)

fewest-some :
    (s : Stream) (ss : List Stream) (start k : ℕ)
    → s.allocated ≡ some k
    → fewest (s ∷ ss) start ≡ fewest ss (if ltb k start then k else start)
unfolding fewest
fewest-some s ss start k e = rw (fewest, e)

smaller : (k start n : ℕ) → n ≤ (if ltb k start then k else start) → (n ≤ k) × (n ≤ start)
smaller k start n h = ground arith

fewest-nil : (start n : ℕ) → fewest [] start ≡ ok n → n ≤ start
unfolding fewest
fewest-nil start n e = ground arith

-- The loop ends with a number that no stream falls short of, and that is not above the start.
fewest-bound :
    (ss : List Stream) (start n : ℕ)
    → fewest ss start ≡ ok n
    → All (λ s. n ≤ buffers_of s) ss × (n ≤ start)
fewest-bound [] start n e = (tt, fewest-nil start n e)
fewest-bound (s ∷ ss) start n e = elim (Option-cases s.allocated) [
  | inl f ↦ cc (e, fewest-none s ss start f)
  | inr (k, f) ↦
      let (all, low) =
        fewest-bound ss (if ltb k start then k else start) n
          (sym (fewest-some s ss start k f) ∙ e) in
      let (under, below) = smaller k start n low in ((rw f under, all), below)
]

check_requests-ok :
    (r : Result ℕ) (n : ℕ)
    → check_requests r ≡ ok n
    → (r ≡ ok n) × (0 < n) × (n < size_max ⊎ size_max < n)
check_requests-ok (throws x) n e = cc
check_requests-ok (ok m) n e = ground arith

pub allocate_buffers-bound : (ss : List Stream) (n : ℕ) → allocate_buffers ss ≡ ok n → n < 2 ^ 64
unfolding allocate_buffers
allocate_buffers-bound ss n e =
    let (found, positive, other) = check_requests-ok (fewest ss size_max) n e in
    let (enough, low) = fewest-bound ss size_max n found in omega arith

module _ {P V : Type 0} where
  pub create_requests-length :
      (h : Handler P V) (fresh : ControlList V) (n : ℕ) → length (create_requests h fresh n) ≡ n
  unfolding create_requests
  create_requests-length h fresh zero = refl
  create_requests-length h fresh (suc n) = ap suc (create_requests-length h fresh n)

  pub create-IsLaidOut :
      (h : Handler P V) (fresh : ControlList V) (n : ℕ) (offset : ℤ) (metadata : ℕ → ℤ) (k : ℕ)
      → IsLaidOut (create h fresh n offset metadata) (create_requests {P = P} h fresh k)
  unfolding create_requests
  create-IsLaidOut h fresh n offset metadata zero = tt
  create-IsLaidOut h fresh n offset metadata (suc k) =
      (tt, create-IsLaidOut h fresh n offset metadata k)

  module _ (accepts : ℕ → Bool) (taken : (c : ℕ) → accepts c ≡ true) where
    create_stream_handlers-step :
        (x : Stream) (xs : List Stream) (s : State P V)
        → x.failure ≡ none
        → (add_stream accepts (buffers_of x) s).0 ≡ none
        → create_stream_handlers accepts (x ∷ xs) s
          ≡ create_stream_handlers accepts xs (add_stream accepts (buffers_of x) s).1
    unfolding create_stream_handlers
    create_stream_handlers-step x xs s e f = rw (create_stream_handlers, e, f)

    create_stream_handlers-IsLaidOut :
        (xs : List Stream) (s : State P V)
        → All (λ x. length s.request_ctx ≤ buffers_of x) xs
        → All (λ (x : Stream). x.failure ≡ none) xs
        → IsLaidOut s s.request_ctx
        → ((create_stream_handlers accepts xs s).0 ≡ none)
          × IsLaidOut
              (create_stream_handlers accepts xs s).1
              (create_stream_handlers accepts xs s).1.request_ctx
    create_stream_handlers-IsLaidOut [] s enough made h = unfold create_stream_handlers in (refl, h)
    create_stream_handlers-IsLaidOut (x ∷ xs) s enough made h =
        let (fine, laid, count) = add_stream-IsLaidOut accepts taken (buffers_of x) s enough.0 h in
        let same = add_stream-length accepts taken (buffers_of x) s enough.0 in
        rw (create_stream_handlers-step x xs s made.0 fine) (
          create_stream_handlers-IsLaidOut xs (add_stream accepts (buffers_of x) s).1
            (subst (λ k. All (λ y. k ≤ buffers_of y) xs) (sym same) enough.1) made.1 laid)

    -- The start of the capture node: if `allocate_buffers` returns a number, libcamera takes every
    -- buffer and no stream handler fails, then with that number of requests, which is not 0,
    -- `create_stream_handlers` throws nothing, and every buffer has its stream handler, so no `at` of
    -- `execute` throws.
    pub create_stream_handlers-ready :
        (h : Handler P V) (fresh : ControlList V) (offset : ℤ) (metadata : ℕ → ℤ) (xs : List Stream)
        (n : ℕ)
        → allocate_buffers xs ≡ ok n
        → All (λ (x : Stream). x.failure ≡ none) xs
        → let r = create_stream_handlers accepts xs (create h fresh n offset metadata) in
          (0 < n) × (r.0 ≡ none) × IsLaidOut r.1 r.1.request_ctx
    unfolding allocate_buffers
    create_stream_handlers-ready h fresh offset metadata xs n e made =
        let (found, positive, other) = check_requests-ok (fewest xs size_max) n e in
        let (enough, low) = fewest-bound xs size_max n found in
        let size = create_requests-length h fresh n in
        let (fine, laid) =
          create_stream_handlers-IsLaidOut xs (create h fresh n offset metadata)
            (subst (λ k. All (λ y. k ≤ buffers_of y) xs) (sym size) enough) made
            (create-IsLaidOut h fresh n offset metadata n) in
        (positive, fine, laid)
