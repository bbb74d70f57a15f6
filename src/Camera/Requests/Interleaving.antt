-- ===== src/Camera/Requests/Interleaving.antt =====
-- The camera's thread, which completes or cancels requests, and the executor, which serves them, in
-- any order of their steps.
use tuw_spike.Base.{
  ℕ, suc, ◌+◌, ◌<◌, ◌≤◌, ◌≡◌, ◌≢◌, refl, sym, ap, ◌∙◌, true, false, List, [], ◌∷◌, ◌++◌, Option,
  none, some, ◌==◌, ◌⊎◌, if◌then◌else◌, get_elem?, set, arith, Bool-cases, get_elem?-set_self,
  get_elem?-set_ne, get_elem?-bound, Option-cases, inl, inr, ==_iff,
}
use tuw_spike.Base.Result.{Exception}
use tuw_spike.Base.Int.{pos}
use mathlib.Core.Option.{some-injective}
use tuw_spike.Camera.Controls.{ControlList}
use tuw_spike.Camera.Requests.Cycle.{marked, mark-free}
use tuw_spike.Camera.Requests.{
  Context, State, Processed, handle, process, requeue, finish_sent, publish_buffers, decrement,
}

unfoldable pub count : ℕ → List ℕ → ℕ
count i [] = 0
count i (j ∷ js) = if j == i then suc (count i js) else count i js

-- The handler, and the requests that the camera has handed back: completed, or cancelled.
pub record System (P V : Type 0) : Type 0 where
  pub handler : State P V
  pub completed : List ℕ
  pub cancelled : List ℕ

module _ {P V : Type 0} (reuse : ControlList V → ControlList V) where
  -- The camera holds a request if it was queued more often than handed back.
  abbrev pub Holds : ℕ → System P V → Type 0
  Holds i m = count i m.completed + count i m.cancelled < count i m.handler.queued

  -- The handler behind an iteration of `execute` for the context `i`, which it writes back.
  abbrev pub served : ℕ → Context V → State P V → State P V
  served i ctx s =
      let p = process reuse i ctx s in
      record p.state { request_ctx = set p.state.request_ctx i p.context }

  -- The camera hands back a request that it holds, and `handle` runs, or the executor runs an iteration
  -- of `execute` that does not throw.
  pub data Step : System P V → System P V → Type 0 where
    complete :
        (m : System P V) (i : ℕ)
        → Holds i m
        → Step m (record m { handler = (handle false i m.handler).1; completed = i ∷ m.completed })
    cancel :
        (m : System P V) (i : ℕ)
        → Holds i m
        → Step m (record m { handler = (handle true i m.handler).1; cancelled = i ∷ m.cancelled })
    serve :
        (m : System P V) (i : ℕ) (ctx : Context V)
        → get_elem? m.handler.request_ctx i ≡ some ctx
        → (process reuse i ctx m.handler).failure ≡ none
        → Step m (record m { handler = served i ctx m.handler })

  pub data Reach (m : System P V) : System P V → Type 0 where
    here : Reach m m
    next : {n o : System P V} → Reach m n → Step n o → Reach m o

abbrev pub waits : {V : Type 0} → Context V → ℕ
waits ctx = if ctx.waiting then 1 else 0

-- Each request is in one place: it was queued once more often than completed, unless it waits; the
-- camera hands back what it was given, and it was given requests that exist.
pub record IsPlaced {P V : Type 0} (m : System P V) : Type 0 where
  pub places :
      (i : ℕ) (ctx : Context V)
      → get_elem? m.handler.request_ctx i ≡ some ctx
      → count i m.handler.queued + waits ctx ≡ count i m.completed + 1
  pub handed : (i : ℕ) → count i m.completed + count i m.cancelled ≤ count i m.handler.queued
  pub known : (i : ℕ) → get_elem? m.handler.request_ctx i ≡ none → count i m.handler.queued ≡ 0

pub count-append : (i : ℕ) (xs ys : List ℕ) → count i (xs ++ ys) ≡ count i xs + count i ys
unfolding count
count-append i [] ys = omega arith
count-append i (x ∷ xs) ys = let ih = count-append i xs ys in ground arith

pub count-nil : (i : ℕ) → count i [] ≡ 0
unfolding count
count-nil i = refl

pub count-cons_self : (i : ℕ) (xs : List ℕ) → count i (i ∷ xs) ≡ suc (count i xs)
unfolding count
count-cons_self i xs = ground arith

pub count-cons_ne : (i j : ℕ) (xs : List ℕ) → i ≢ j → count j (i ∷ xs) ≡ count j xs
unfolding count
count-cons_ne i j xs h = ground arith

pub eq-cases : (i j : ℕ) → (i ≡ j) ⊎ (i ≢ j)
eq-cases i j = elim (Bool-cases (i == j)) [
  | inl e ↦ inl ((==_iff i j).0 e)
  | inr e ↦ inr (λ z. cc (e, (==_iff i j).1 z))
]

module _ {P V : Type 0} where
  -- A request that the camera holds exists and does not wait.
  pub held-idle :
      (m : System P V) (i : ℕ)
      → IsPlaced m
      → count i m.completed + count i m.cancelled < count i m.handler.queued
      → (ctx : Context V) × (get_elem? m.handler.request_ctx i ≡ some ctx) × (ctx.waiting ≡ false)
  held-idle m i h b = elim (Option-cases (get_elem? m.handler.request_ctx i)) [
    | inl e ↦ absurd (omega (arith, h.known i e))
    | inr (ctx, e) ↦ elim (Bool-cases ctx.waiting) [
      | inl w ↦
          let one : waits ctx ≡ 1 = ap (λ b. if b then 1 else 0) w in
          absurd (omega (arith, h.places i ctx e, one))
      | inr w ↦ (ctx, e, w)
    ]
  ]

  -- A step that writes one context: it is enough to look at its request.
  IsPlaced-set :
      (m n : System P V) (i : ℕ) (ctx c : Context V)
      → IsPlaced m
      → get_elem? m.handler.request_ctx i ≡ some ctx
      → n.handler.request_ctx ≡ set m.handler.request_ctx i c
      → count i n.handler.queued + waits c ≡ count i n.completed + 1
      → ((j : ℕ)
          → i ≢ j
          → (count j n.handler.queued ≡ count j m.handler.queued)
            × (count j n.completed ≡ count j m.completed))
      → ((j : ℕ) → count j n.completed + count j n.cancelled ≤ count j n.handler.queued)
      → IsPlaced n
  IsPlaced-set m n i ctx c h e written own others handed =
      let inside = get_elem?-bound m.handler.request_ctx i ctx e in
      let at_self : get_elem? n.handler.request_ctx i ≡ some c =
        ap (λ xs. get_elem? xs i) written ∙ get_elem?-set_self m.handler.request_ctx i c inside in
      let at_other = λ (j : ℕ) (z : i ≢ j).
        ap {B = Option (Context V)} (λ xs. get_elem? xs j) written
        ∙ get_elem?-set_ne m.handler.request_ctx c z in
      record {
        places = λ j d x. elim (eq-cases i j) [
          | inl z ↦
              let same : c ≡ d =
                some-injective c d
                  (sym at_self ∙ ap (λ k. get_elem? n.handler.request_ctx k) z ∙ x) in
              ap (λ k. count k n.handler.queued + waits d) (sym z)
              ∙ ap (λ b. count i n.handler.queued + waits b) (sym same)
              ∙ own
              ∙ ap (λ k. count k n.completed + 1) z
          | inr z ↦
              let (q, comp) = others j z in
              let old = h.places j d (sym (at_other j z) ∙ x) in omega (arith, q, comp, old)
        ];
        handed = handed;
        known = λ j x. elim (eq-cases i j) [
          | inl z ↦ cc (at_self, ap (λ k. get_elem? n.handler.request_ctx k) z, x)
          | inr z ↦ (others j z).0 ∙ h.known j (sym (at_other j z) ∙ x)
        ];
      }

  complete-IsPlaced :
      (m : System P V) (i : ℕ)
      → IsPlaced m
      → count i m.completed + count i m.cancelled < count i m.handler.queued
      → IsPlaced (record m { handler = (handle false i m.handler).1; completed = i ∷ m.completed })
  unfolding handle
  complete-IsPlaced m i h b =
      let (ctx, e, w) = held-idle m i h b in
      let n : System P V = record m {
        handler = marked m.handler i ctx;
        completed = i ∷ m.completed;
      } in
      let idle : waits ctx ≡ 0 = ap (λ x. if x then 1 else 0) w in
      rw (e, mark-free m.handler i ctx w)
        (IsPlaced-set m n i ctx (record ctx { waiting = true }) h e refl
          (omega (arith, h.places i ctx e, idle, count-cons_self i m.completed))
          (λ j z. (refl, count-cons_ne i j m.completed z))
          (λ j. elim (eq-cases i j) [
            | inl z ↦ rw (sym z) (omega (arith, count-cons_self i m.completed))
            | inr z ↦ rw (count-cons_ne i j m.completed z) (h.handed j)
          ]))

  cancel-IsPlaced :
      (m : System P V) (i : ℕ)
      → IsPlaced m
      → count i m.completed + count i m.cancelled < count i m.handler.queued
      → IsPlaced (record m { handler = (handle true i m.handler).1; cancelled = i ∷ m.cancelled })
  unfolding handle
  cancel-IsPlaced m i h b = record {
    places = h.places;
    handed = λ j. elim (eq-cases i j) [
      | inl z ↦ rw (sym z) (omega (arith, count-cons_self i m.cancelled))
      | inr z ↦ rw (count-cons_ne i j m.cancelled z) (h.handed j)
    ];
    known = h.known;
  }

  process-idle :
      (reuse : ControlList V → ControlList V) (i : ℕ) (ctx : Context V) (s : State P V)
      → ctx.waiting ≡ false
      → process reuse i ctx s ≡ record { failure = none; context = ctx; state = s }
  unfolding process
  process-idle reuse i ctx s w = rw (process, w)

  -- An iteration for a waiting request that does not throw.
  abbrev pub requeued : (ControlList V → ControlList V) → ℕ → Context V → State P V → Processed P V
  requeued reuse i ctx s =
      requeue reuse i ctx (publish_buffers s ctx.cookies s.published (pos 0))
        (record s { waiting_requests = decrement s.waiting_requests })

  pub process-requeued :
      (reuse : ControlList V → ControlList V) (i : ℕ) (ctx : Context V) (s : State P V)
      → ctx.waiting ≡ true
      → (process reuse i ctx s).failure ≡ none
      → process reuse i ctx s ≡ requeued reuse i ctx s
  unfolding process
  process-requeued reuse i ctx s w e =
      let sent = publish_buffers s ctx.cookies s.published (pos 0) in
      let t = record s { waiting_requests = decrement s.waiting_requests } in
      let run : process reuse i ctx s ≡ finish_sent reuse i ctx sent t = rw (process, w) in
      elim (Option-cases sent.failure) [
        | inl ok_sent ↦ run ∙ rw ok_sent
        | inr (x, failed) ↦
            let thrown : (finish_sent reuse i ctx sent t).failure ≡ some x = rw failed in
            cc (e, ap {B = Option Exception} (λ p. p.failure) run, thrown)
      ]

  pub serve-IsPlaced :
      (reuse : ControlList V → ControlList V) (m : System P V) (i : ℕ) (ctx : Context V)
      → IsPlaced m
      → get_elem? m.handler.request_ctx i ≡ some ctx
      → (process reuse i ctx m.handler).failure ≡ none
      → IsPlaced (record m { handler = served reuse i ctx m.handler })
  serve-IsPlaced reuse m i ctx h e f = elim (Bool-cases ctx.waiting) [
    | inl w ↦
        let one : waits ctx ≡ 1 = ap (λ b. if b then 1 else 0) w in
        let n = requeued reuse i ctx m.handler in
        let grown = λ (j : ℕ). count-append j m.handler.queued (i ∷ []) in
        let last : count i (i ∷ []) ≡ 1 = count-cons_self i [] ∙ ap suc (count-nil i) in
        rw (process-requeued reuse i ctx m.handler w f) (
          IsPlaced-set m
            (record m {
              handler = record n.state { request_ctx = set m.handler.request_ctx i n.context };
            })
            i ctx n.context h e refl (omega (arith, h.places i ctx e, one, grown i, last))
            (λ j z. (grown j ∙ omega (arith, count-cons_ne i j [] z, count-nil j), refl))
            (λ j. omega (arith, h.handed j, grown j)))
    | inr w ↦ rw (process-idle reuse i ctx m.handler w) (
        IsPlaced-set m
          (record m {
            handler = record m.handler { request_ctx = set m.handler.request_ctx i ctx };
          })
          i ctx ctx h e refl (h.places i ctx e) (λ j z. (refl, refl)) h.handed)
  ]

  pub Step-IsPlaced :
      (reuse : ControlList V → ControlList V) {m n : System P V}
      → Step reuse m n
      → IsPlaced m
      → IsPlaced n
  Step-IsPlaced reuse (complete m i b) h = complete-IsPlaced m i h b
  Step-IsPlaced reuse (cancel m i b) h = cancel-IsPlaced m i h b
  Step-IsPlaced reuse (serve m i ctx e f) h = serve-IsPlaced reuse m i ctx h e f

  pub Reach-IsPlaced :
      (reuse : ControlList V → ControlList V) {m n : System P V}
      → IsPlaced m
      → Reach reuse m n
      → IsPlaced n
  Reach-IsPlaced reuse h here = h
  Reach-IsPlaced reuse h (next r st) = Step-IsPlaced reuse st (Reach-IsPlaced reuse h r)
