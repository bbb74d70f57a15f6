-- ===== src/Camera/Requests/Layout.antt =====
-- `add_stream` gives each buffer a cookie that leads to its stream handler.
use tuw_spike.Base.{
  ℕ, zero, suc, ◌+◌, ◌≤◌, ◌≡◌, refl, sym, ap, ◌∙◌, Bool, true, List, [], ◌∷◌, ◌++◌, none, some, ltb,
  lt→ltb, if◌then◌else◌, get_elem?, length, length-append, length-replicate, replicate, All,
  All-append, arith, Option-cases, append_assoc, append-nil, inl, inr,
}
use tuw_spike.Camera.Requests.{Context, State, stream_of, add_buffers, add_stream}
use tuw_spike.Camera.Requests.Batch.{Source, source, stream_at, HasStreams, IsLaidOut}

get_elem?-append {ℓ} :
    {A : Type ℓ} (xs ys : List A) (i : ℕ) (a : A)
    → get_elem? xs i ≡ some a
    → get_elem? (xs ++ ys) i ≡ some a
get_elem?-append [] ys i a h = ground arith
get_elem?-append (x ∷ xs) ys zero a h = h
get_elem?-append (x ∷ xs) ys (suc i) a h = get_elem?-append xs ys i a h

get_elem?-middle {ℓ} :
    {A : Type ℓ} (xs : List A) (a : A) (ys : List A) → get_elem? (xs ++ a ∷ ys) (length xs) ≡ some a
get_elem?-middle [] a ys = refl
get_elem?-middle (x ∷ xs) a ys = get_elem?-middle xs a ys

pub stream_of-none : (b : List ℕ) (h c : ℕ) → get_elem? b c ≡ none → stream_of b h c ≡ none
unfolding stream_of
stream_of-none b h c e = rw (stream_of, e)

pub stream_of-some :
    (b : List ℕ) (h c x : ℕ)
    → get_elem? b c ≡ some x
    → stream_of b h c ≡ (if ltb x h then some x else none)
unfolding stream_of
stream_of-some b h c x e = rw (stream_of, e)

kept :
    (x h st : ℕ)
    → (if ltb x h then some x else none) ≡ some st
    → (if ltb x (suc h) then some x else none) ≡ some st
kept x h st e = ground arith

-- A buffer that has a handler keeps it.
stream_of-grow :
    (b ys : List ℕ) (h c st : ℕ)
    → stream_of b h c ≡ some st
    → stream_of (b ++ ys) (suc h) c ≡ some st
stream_of-grow b ys h c st e = elim (Option-cases (get_elem? b c)) [
  | inl n ↦ ground (arith, stream_of-none b h c n)
  | inr (x, f) ↦
      stream_of-some (b ++ ys) (suc h) c x (get_elem?-append b ys c x f)
      ∙ kept x h st (sym (stream_of-some b h c x f) ∙ e)
]

stream_of-new : (b ys : List ℕ) (h : ℕ) → stream_of (b ++ h ∷ ys) (suc h) (length b) ≡ some h
stream_of-new b ys h =
    stream_of-some (b ++ h ∷ ys) (suc h) (length b) h (get_elem?-middle b h ys)
    ∙ rw (lt→ltb h (suc h) (omega arith))

-- The contexts with their new buffers, whose cookies start at `k`.
abbrev pub added : {V : Type 0} → ℕ → List (Context V) → List (Context V)
added k [] = []
added k (ctx ∷ rest) = record ctx { cookies = ctx.cookies ++ k ∷ [] } ∷ added (suc k) rest

pub length-snoc {ℓ} : {A : Type ℓ} (xs : List A) (a : A) → length (xs ++ a ∷ []) ≡ suc (length xs)
length-snoc xs a = omega (arith, length-append xs (a ∷ []))

pub added-length :
    {V : Type 0} (k : ℕ) (ctxs : List (Context V)) → length (added k ctxs) ≡ length ctxs
added-length k [] = refl
added-length k (ctx ∷ rest) = ap suc (added-length (suc k) rest)

-- Old buffers keep their handlers.
grow-HasStreams :
    (o : Source) (ys cs : List ℕ)
    → HasStreams o cs
    → HasStreams (record o { buffers = o.buffers ++ ys; handlers = suc o.handlers }) cs
grow-HasStreams o ys [] h = tt
grow-HasStreams o ys (c ∷ cs) h =
    ((h.0.0, stream_of-grow o.buffers ys o.handlers c h.0.0 h.0.1), grow-HasStreams o ys cs h.1)

pub grow-IsLaidOut :
    {V : Type 0} (o : Source) (ys : List ℕ) (ctxs : List (Context V))
    → All (λ ctx. HasStreams o ctx.cookies) ctxs
    → All
        (λ ctx.
          HasStreams
            (record o { buffers = o.buffers ++ ys; handlers = suc o.handlers })
            ctx.cookies)
        ctxs
grow-IsLaidOut o ys [] h = tt
grow-IsLaidOut o ys (ctx ∷ rest) h =
    (grow-HasStreams o ys ctx.cookies h.0, grow-IsLaidOut o ys rest h.1)

-- The new buffers have the new handler.
pub added-IsLaidOut :
    {V : Type 0} (o : Source) (stream : ℕ) (ctxs : List (Context V)) (b : List ℕ)
    → o.handlers ≡ suc stream
    → o.buffers ≡ b ++ replicate (length ctxs) stream
    → All (λ ctx. HasStreams o ctx.cookies) ctxs
    → All (λ ctx. HasStreams o ctx.cookies) (added (length b) ctxs)
added-IsLaidOut o stream [] b e f h = tt
added-IsLaidOut o stream (ctx ∷ rest) b e f h =
    let new : stream_at o (length b) ≡ some stream =
      rw (f, e) (stream_of-new b (replicate (length rest) stream) stream) in
    let tail =
      added-IsLaidOut o stream rest (b ++ stream ∷ []) e
        (f ∙ sym (append_assoc b (stream ∷ []) (replicate (length rest) stream))) h.1 in
    (
      All-append (λ c. (st : ℕ) × (stream_at o c ≡ some st)) ctx.cookies (length b ∷ []) h.0
          ((stream, new), tt),
      rw (sym (length-snoc b stream)) tail,
    )

module _ {P V : Type 0} (accepts : ℕ → Bool) (taken : (c : ℕ) → accepts c ≡ true) where
  add_buffers-added :
      (stream n : ℕ) (ctxs : List (Context V)) (s : State P V)
      → length ctxs ≤ n
      → add_buffers accepts stream n ctxs s ≡ record {
        failure = none;
        contexts = added (length s.buffer_ctx) ctxs;
        state = record s { buffer_ctx = s.buffer_ctx ++ replicate (length ctxs) stream };
      }
  unfolding add_buffers
  add_buffers-added stream n [] s h = rw (append-nil s.buffer_ctx)
  add_buffers-added stream zero (ctx ∷ rest) s h = absurd (omega arith)
  add_buffers-added stream (suc n) (ctx ∷ rest) s h =
      let ih =
        add_buffers-added stream n rest (record s { buffer_ctx = s.buffer_ctx ++ stream ∷ [] })
          (omega arith) in
      rw (
        add_buffers,
        taken (length s.buffer_ctx),
        ih,
        length-snoc s.buffer_ctx stream,
        append_assoc s.buffer_ctx (stream ∷ []) (replicate (length rest) stream),
      )

  -- `add_stream`: if libcamera takes every buffer and the allocator has one for each request, then it
  -- throws nothing, and if every buffer had a stream handler before, every buffer has one behind it,
  -- the new ones included, so that no `at` of `execute` throws; there is one new buffer for each
  -- request.
  pub add_stream-IsLaidOut :
      (buffers : ℕ) (s : State P V)
      → length s.request_ctx ≤ buffers
      → IsLaidOut s s.request_ctx
      → ((add_stream accepts buffers s).0 ≡ none)
        × IsLaidOut (add_stream accepts buffers s).1 (add_stream accepts buffers s).1.request_ctx
        × (length (add_stream accepts buffers s).1.buffer_ctx
            ≡ length s.buffer_ctx + length s.request_ctx)
  unfolding add_stream
  add_stream-IsLaidOut buffers s n h =
      let ys = replicate (length s.request_ctx) s.stream_handlers in
      let o = record (source s) {
        buffers = s.buffer_ctx ++ ys;
        handlers = suc s.stream_handlers;
      } in
      rw (add_buffers-added s.stream_handlers buffers s.request_ctx s n) (
        refl,
        added-IsLaidOut o s.stream_handlers s.request_ctx s.buffer_ctx refl refl
            (grow-IsLaidOut (source s) ys s.request_ctx h),
        length-append s.buffer_ctx ys
            ∙ ap (λ k. length s.buffer_ctx + k)
                (length-replicate (length s.request_ctx) s.stream_handlers),
      )

  pub add_stream-length :
      (buffers : ℕ) (s : State P V)
      → length s.request_ctx ≤ buffers
      → length (add_stream accepts buffers s).1.request_ctx ≡ length s.request_ctx
  unfolding add_stream
  add_stream-length buffers s n =
      rw (add_buffers-added s.stream_handlers buffers s.request_ctx s n)
        (added-length (length s.buffer_ctx) s.request_ctx)
