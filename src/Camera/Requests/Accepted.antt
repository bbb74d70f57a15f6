-- ===== src/Camera/Requests/Accepted.antt =====
-- What holds behind an `add_stream` that throws nothing, whatever libcamera takes.
use tuw_spike.Base.{
  ℕ, zero, suc, ◌≡◌, refl, sym, ap, ◌∙◌, Bool, true, false, List, [], ◌∷◌, ◌++◌, none, some, length,
  replicate, Bool-cases, Option-cases, append_assoc, append-nil, inl, inr,
}
use tuw_spike.Base.Result.{runtime_error}
use tuw_spike.Camera.Requests.{Context, State, Executed, add_buffers, finish_stream, add_stream}
use tuw_spike.Camera.Requests.Batch.{source, IsLaidOut}
use tuw_spike.Camera.Requests.Layout.{added, added-IsLaidOut, grow-IsLaidOut, length-snoc}

module _ {P V : Type 0} where
  -- The state behind `add_stream`.
  abbrev pub extended : State P V → State P V
  extended s = record s {
    request_ctx = added (length s.buffer_ctx) s.request_ctx;
    buffer_ctx = s.buffer_ctx ++ replicate (length s.request_ctx) s.stream_handlers;
    stream_handlers = suc s.stream_handlers;
  }

  pub extended-IsLaidOut :
      (s : State P V) → IsLaidOut s s.request_ctx → IsLaidOut (extended s) (extended s).request_ctx
  extended-IsLaidOut s h =
      let ys = replicate (length s.request_ctx) s.stream_handlers in
      let o = record (source s) {
        buffers = s.buffer_ctx ++ ys;
        handlers = suc s.stream_handlers;
      } in
      added-IsLaidOut o s.stream_handlers s.request_ctx s.buffer_ctx refl refl
        (grow-IsLaidOut (source s) ys s.request_ctx h)

module _ {P V : Type 0} (accepts : ℕ → Bool) where
  -- The contexts and the buffers behind the loop.
  abbrev laid : ℕ → List (Context V) → State P V → Executed P V
  laid stream ctxs s = record {
    failure = none;
    contexts = added (length s.buffer_ctx) ctxs;
    state = record s { buffer_ctx = s.buffer_ctx ++ replicate (length ctxs) stream };
  }

  add_buffers-true :
      (stream n : ℕ) (ctx : Context V) (rest : List (Context V)) (s : State P V)
      → accepts (length s.buffer_ctx) ≡ true
      → add_buffers accepts stream (suc n) (ctx ∷ rest) s ≡ (
          let r =
            add_buffers accepts stream n rest
              (record s { buffer_ctx = s.buffer_ctx ++ stream ∷ [] }) in
          record {
            failure = r.failure;
            contexts =
                record ctx { cookies = ctx.cookies ++ length s.buffer_ctx ∷ [] } ∷ r.contexts;
            state = r.state;
          })
  unfolding add_buffers
  add_buffers-true stream n ctx rest s e = rw (add_buffers, e)

  add_buffers-false :
      (stream n : ℕ) (ctx : Context V) (rest : List (Context V)) (s : State P V)
      → accepts (length s.buffer_ctx) ≡ false
      → (add_buffers accepts stream (suc n) (ctx ∷ rest) s).failure ≡ some runtime_error
  unfolding add_buffers
  add_buffers-false stream n ctx rest s e = rw (add_buffers, e)

  add_buffers-laid :
      (stream n : ℕ) (ctxs : List (Context V)) (s : State P V)
      → (add_buffers accepts stream n ctxs s).failure ≡ none
      → add_buffers accepts stream n ctxs s ≡ laid stream ctxs s
  add_buffers-laid stream n [] s h = unfold add_buffers in rw (append-nil s.buffer_ctx)
  add_buffers-laid stream zero (ctx ∷ rest) s h = unfold add_buffers in cc h
  add_buffers-laid stream (suc n) (ctx ∷ rest) s h =
      elim (Bool-cases (accepts (length s.buffer_ctx))) [
        | inr f ↦ cc (h, add_buffers-false stream n ctx rest s f)
        | inl t ↦
            let step = add_buffers-true stream n ctx rest s t in
            let ih =
              add_buffers-laid stream n rest (record s { buffer_ctx = s.buffer_ctx ++ stream ∷ [] })
                (sym (ap (λ r. r.failure) step) ∙ h) in
            step
            ∙ rw (
              ih,
              length-snoc s.buffer_ctx stream,
              append_assoc s.buffer_ctx (stream ∷ []) (replicate (length rest) stream),
            )
      ]

  finish_stream-none : (r : Executed P V) → (finish_stream r).0 ≡ none → r.failure ≡ none
  finish_stream-none r h = elim (Option-cases r.failure) [ inl e ↦ e | inr (x, e) ↦ cc (h, e) ]

  pub add_stream-extended :
      (buffers : ℕ) (s : State P V)
      → (add_stream accepts buffers s).0 ≡ none
      → (add_stream accepts buffers s).1 ≡ extended s
  unfolding add_stream
  add_stream-extended buffers s h =
      let r = add_buffers accepts s.stream_handlers buffers s.request_ctx s in
      ap (λ q. (finish_stream q).1)
        (add_buffers-laid s.stream_handlers buffers s.request_ctx s (finish_stream-none r h))
