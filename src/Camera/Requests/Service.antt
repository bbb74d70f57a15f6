-- ===== src/Camera/Requests/Service.antt =====
-- The executor never fails on a request that waits, in any order of the steps of both threads.
use tuw_spike.Base.{
  ℕ, zero, suc, ◌^◌, ◌<◌, ◌≡◌, refl, sym, ap, ◌∙◌, true, false, List, [], ◌∷◌, some, get_elem?, set,
  length, length-set, get_elem?-set_self, get_elem?-set_ne, get_elem?-bound, All, arith, Bool-cases,
  inl, inr,
}
use mathlib.Core.Path.{subst}
use mathlib.Core.Option.{some-injective}
use tuw_spike.Camera.Controls.{ControlList}
use tuw_spike.Camera.Requests.{Context, State, Processed, handle}
use tuw_spike.Camera.Requests.Cycle.{
  count_waiting, count_waiting-bound, IsCounted, handle-IsCounted, marked, mark-free,
}
use tuw_spike.Camera.Requests.Batch.{
  Source, source, HasStreams, IsLaidOut, served, after, process-waiting, process-idle,
}
use tuw_spike.Camera.Requests.Interleaving.{
  System, Holds, served as written, Step, complete, cancel, serve, Reach, here, next, IsPlaced,
  held-idle, eq-cases, Step-IsPlaced,
}
use tuw_spike.Camera.Requests.Progress.{IsFresh, started, started-IsPlaced}

module _ {V : Type 0} where
  pub count_waiting-clear :
      (ctxs : List (Context V)) (i : ℕ) (ctx c : Context V)
      → get_elem? ctxs i ≡ some ctx
      → ctx.waiting ≡ true
      → c.waiting ≡ false
      → suc (count_waiting (set ctxs i c)) ≡ count_waiting ctxs
  unfolding count_waiting
  count_waiting-clear [] i ctx c e w u = ground arith
  count_waiting-clear (x ∷ xs) zero ctx c e w u =
      let same : x.waiting ≡ true = ap (λ y. y.waiting) (some-injective x ctx e) ∙ w in
      rw (same, u) refl
  count_waiting-clear (x ∷ xs) (suc i) ctx c e w u =
      let ih = count_waiting-clear xs i ctx c e w u in
      elim (Bool-cases x.waiting) [ inl t ↦ rw (t, ih) refl | inr f ↦ rw (f, ih) refl ]

  pub count_waiting-positive :
      (ctxs : List (Context V)) (i : ℕ) (ctx : Context V)
      → get_elem? ctxs i ≡ some ctx
      → ctx.waiting ≡ true
      → 0 < count_waiting ctxs
  unfolding count_waiting
  count_waiting-positive [] i ctx e w = cc e
  count_waiting-positive (c ∷ cs) zero ctx e w =
      let here : c.waiting ≡ true = ap (λ x. x.waiting) (some-injective c ctx e) ∙ w in
      rw here (omega arith)
  count_waiting-positive (c ∷ cs) (suc i) ctx e w =
      let ih = count_waiting-positive cs i ctx e w in
      elim (Bool-cases c.waiting) [ inl t ↦ rw t (omega arith) | inr f ↦ rw f ih ]

  set_same :
      (ctxs : List (Context V)) (i : ℕ) (ctx : Context V)
      → get_elem? ctxs i ≡ some ctx
      → set ctxs i ctx ≡ ctxs
  set_same [] i ctx e = refl
  set_same (x ∷ xs) zero ctx e = ap (λ y. y ∷ xs) (sym (some-injective x ctx e))
  set_same (x ∷ xs) (suc i) ctx e = ap (λ l. x ∷ l) (set_same xs i ctx e)

  All-Layout :
      (o : Source) (ctxs : List (Context V)) (i : ℕ) (ctx : Context V)
      → All (λ (c : Context V). HasStreams o c.cookies) ctxs
      → get_elem? ctxs i ≡ some ctx
      → HasStreams o ctx.cookies
  All-Layout o [] i ctx h e = cc e
  All-Layout o (c ∷ cs) zero ctx h e =
      subst (λ d. HasStreams o d.cookies) (some-injective c ctx e) h.0
  All-Layout o (c ∷ cs) (suc i) ctx h e = All-Layout o cs i ctx h.1 e

  pub idle-count :
      (ctxs : List (Context V))
      → All (λ (c : Context V). c.waiting ≡ false) ctxs
      → count_waiting ctxs ≡ 0
  unfolding count_waiting
  idle-count [] h = refl
  idle-count (c ∷ cs) h = let ih = idle-count cs h.1 in rw (h.0, ih) refl

module _ {P V : Type 0} where
  -- Every buffer of every context has its stream handler.
  abbrev pub Layout : State P V → Type 0
  Layout s =
      (i : ℕ) (ctx : Context V)
      → get_elem? s.request_ctx i ≡ some ctx
      → HasStreams (source s) ctx.cookies

  -- What both threads keep; `o` is what frames depend on.
  pub record IsServable (o : Source) (m : System P V) : Type 0 where
    pub placed : IsPlaced m
    pub counted : IsCounted m.handler
    pub small : length m.handler.request_ctx < 2 ^ 64
    pub layout : Layout m.handler
    pub same : source m.handler ≡ o

  -- A write of a context that keeps its buffers.
  Layout-set :
      (s t : State P V) (i : ℕ) (ctx c : Context V)
      → Layout s
      → get_elem? s.request_ctx i ≡ some ctx
      → t.request_ctx ≡ set s.request_ctx i c
      → c.cookies ≡ ctx.cookies
      → source t ≡ source s
      → Layout t
  Layout-set s t i ctx c h e written cookies same = λ j d x. elim (eq-cases i j) [
    | inl z ↦
        let at_self =
          ap (λ xs. get_elem? xs i) written
          ∙ get_elem?-set_self s.request_ctx i c (get_elem?-bound s.request_ctx i ctx e) in
        let found : c ≡ d =
          some-injective c d (sym at_self ∙ ap (λ k. get_elem? t.request_ctx k) z ∙ x) in
        subst (λ o. HasStreams o d.cookies) (sym same)
          (subst (HasStreams (source s)) (sym cookies ∙ ap (λ y. y.cookies) found) (h i ctx e))
    | inr z ↦
        let at_other = ap (λ xs. get_elem? xs j) written ∙ get_elem?-set_ne s.request_ctx c z in
        subst (λ o. HasStreams o d.cookies) (sym same) (h j d (sym at_other ∙ x))
  ]

  complete-IsServable :
      (reuse : ControlList V → ControlList V) (o : Source) (m : System P V) (i : ℕ)
      → (b : Holds reuse i m) → IsServable o m
      → IsServable o
          (record m { handler = (handle false i m.handler).1; completed = i ∷ m.completed })
  unfolding handle
  complete-IsServable reuse o m i b h =
      let (ctx, e, w) = held-idle m i h.placed b in
      let done : (handle false i m.handler).1 ≡ marked m.handler i ctx =
        unfold handle in rw (e, mark-free m.handler i ctx w) refl in
      record {
        placed = Step-IsPlaced reuse (complete m i b) h.placed;
        counted = handle-IsCounted false i m.handler h.small h.counted;
        small =
            subst (λ (s : State P V). length s.request_ctx < 2 ^ 64) (sym done)
              (omega (
                arith,
                h.small,
                length-set m.handler.request_ctx i (record ctx { waiting = true }),
              ));
        layout = subst Layout (sym done) (
            Layout-set m.handler (marked m.handler i ctx) i ctx (record ctx { waiting = true })
              h.layout e refl refl refl);
        same = subst (λ (s : State P V). source s ≡ o) (sym done) h.same;
      }

  abbrev Sound : Source → State P V → Type 0
  Sound o t = IsCounted t × (length t.request_ctx < 2 ^ 64) × Layout t × (source t ≡ o)

  -- The state behind an iteration, from what the iteration leaves.
  abbrev behind_service : ℕ → Processed P V → State P V
  behind_service i p = record p.state { request_ctx = set p.state.request_ctx i p.context }

  served-waiting :
      (reuse : ControlList V → ControlList V) (s : State P V) (ctx : Context V)
      → ctx.waiting ≡ true
      → ((served reuse s.controls_handler ctx).waiting ≡ false)
        × ((served reuse s.controls_handler ctx).cookies ≡ ctx.cookies)
  served-waiting reuse s ctx w = rw w (refl, refl)

  serve-waiting :
      (reuse : ControlList V → ControlList V) (o : Source) (m : System P V) (i : ℕ)
      (ctx : Context V)
      → get_elem? m.handler.request_ctx i ≡ some ctx
      → ctx.waiting ≡ true
      → IsServable o m
      → let t = written reuse i ctx m.handler in Sound o t
  serve-waiting reuse o m i ctx e w h =
      let s = m.handler in
      let c = served reuse s.controls_handler ctx in
      let (idle, kept) = served-waiting reuse s ctx w in
      let fewer = count_waiting-clear s.request_ctx i ctx c e w idle in
      let bound = count_waiting-bound s.request_ctx in
      subst (λ p. Sound o (behind_service i p))
        (sym (process-waiting reuse i ctx s w (h.layout i ctx e)))
        (
          omega (arith, fewer, bound, h.counted, h.small),
          omega (arith, h.small, length-set s.request_ctx i c),
          Layout-set s (record (after reuse i ctx s) { request_ctx = set s.request_ctx i c }) i ctx
              c h.layout e refl kept refl,
          h.same,
        )

  serve-idle :
      (reuse : ControlList V → ControlList V) (o : Source) (m : System P V) (i : ℕ)
      (ctx : Context V)
      → get_elem? m.handler.request_ctx i ≡ some ctx
      → ctx.waiting ≡ false
      → IsServable o m
      → let t = written reuse i ctx m.handler in Sound o t
  serve-idle reuse o m i ctx e w h =
      let s = m.handler in
      subst (λ p. Sound o (behind_service i p)) (sym (process-idle reuse i ctx s w))
        (subst (λ l. Sound o (record s { request_ctx = l })) (sym (set_same s.request_ctx i ctx e))
          (h.counted, h.small, h.layout, h.same))

  Step-IsServable :
      (reuse : ControlList V → ControlList V) {o : Source} {m n : System P V}
      → Step reuse m n
      → IsServable o m
      → IsServable o n
  unfolding handle
  Step-IsServable reuse {o} (complete m i b) h = complete-IsServable reuse o m i b h
  Step-IsServable reuse {o} (cancel m i b) h = record {
    placed = Step-IsPlaced reuse (cancel m i b) h.placed;
    counted = h.counted;
    small = h.small;
    layout = h.layout;
    same = h.same;
  }
  Step-IsServable reuse {o} (serve m i ctx e f) h = elim (Bool-cases ctx.waiting) [
    | inl w ↦
        let (c, l, y, z) = serve-waiting reuse o m i ctx e w h in
        record {
          placed = Step-IsPlaced reuse (serve m i ctx e f) h.placed;
          counted = c;
          small = l;
          layout = y;
          same = z;
        }
    | inr w ↦
        let (c, l, y, z) = serve-idle reuse o m i ctx e w h in
        record {
          placed = Step-IsPlaced reuse (serve m i ctx e f) h.placed;
          counted = c;
          small = l;
          layout = y;
          same = z;
        }
  ]

  pub Reach-IsServable :
      (reuse : ControlList V → ControlList V) {o : Source} {m n : System P V}
      → IsServable o m
      → Reach reuse m n
      → IsServable o n
  Reach-IsServable reuse h here = h
  Reach-IsServable reuse h (next r st) = Step-IsServable reuse st (Reach-IsServable reuse h r)

  pub started-IsServable :
      (s : State P V)
      → IsFresh s
      → IsLaidOut s s.request_ctx
      → s.waiting_requests ≡ 0
      → length s.request_ctx < 2 ^ 64
      → IsServable (source s) (started s)
  started-IsServable s f laid w b = record {
    placed = started-IsPlaced s f;
    counted = w ∙ sym (idle-count s.request_ctx f.idle);
    small = b;
    layout = λ i ctx e. All-Layout (source s) s.request_ctx i ctx laid e;
    same = refl;
  }
