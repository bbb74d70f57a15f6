-- ===== src/Camera/Requests/Cycle.antt =====
-- A completed request waits once, and `execute` publishes and queues each waiting one.
use tuw_spike.Base.{
  ℕ, zero, suc, ◌^◌, ◌<◌, ◌≤◌, ◌≡◌, ap, ◌∙◌, Bool, true, false, List, [], ◌∷◌, Option, none, some,
  if◌then◌else◌, get_elem?, set, length, arith, Bool-cases, length-set, get_elem?-set_self,
  get_elem?-bound, Option-cases, inl, inr,
}
use tuw_spike.Base.Result.{runtime_error, ok, throws}
use tuw_spike.Camera.Requests.{Context, State, increment, mark, handle}

unfoldable pub count_waiting : {V : Type 0} → List (Context V) → ℕ
count_waiting [] = 0
count_waiting (ctx ∷ rest) = if ctx.waiting then suc (count_waiting rest) else count_waiting rest

-- The counter counts the waiting contexts.
abbrev pub IsCounted : {P V : Type 0} → State P V → Type 0
IsCounted s = s.waiting_requests ≡ count_waiting s.request_ctx

module _ {V : Type 0} where
  abbrev waits : Option (Context V) → Bool
  waits none = false
  waits (some c) = c.waiting

  pub count_waiting-bound : (ctxs : List (Context V)) → count_waiting ctxs ≤ length ctxs
  unfolding count_waiting
  count_waiting-bound [] = omega arith
  count_waiting-bound (c ∷ cs) = let ih = count_waiting-bound cs in ground arith

  pub count_waiting-set :
      (ctxs : List (Context V)) (i : ℕ) (ctx : Context V)
      → get_elem? ctxs i ≡ some ctx
      → ctx.waiting ≡ false
      → count_waiting (set ctxs i (record ctx { waiting = true })) ≡ suc (count_waiting ctxs)
  unfolding count_waiting
  count_waiting-set [] i ctx e w = ground arith
  count_waiting-set (c ∷ cs) zero ctx e w = rw (ap waits e ∙ w)
  count_waiting-set (c ∷ cs) (suc i) ctx e w =
      let ih = count_waiting-set cs i ctx e w in
      elim (Bool-cases c.waiting) [ inl t ↦ rw (t, ih) | inr f ↦ rw (f, ih) ]

module _ {P V : Type 0} where
  mark-waiting :
      (s : State P V) (i : ℕ) (ctx : Context V)
      → ctx.waiting ≡ true
      → mark s i (some ctx) ≡ (throws runtime_error, s)
  mark-waiting s i ctx w = rw w

  abbrev pub marked : State P V → ℕ → Context V → State P V
  marked s i ctx = record s {
    request_ctx = set s.request_ctx i (record ctx { waiting = true });
    waiting_requests = increment s.waiting_requests;
  }

  pub mark-free :
      (s : State P V) (i : ℕ) (ctx : Context V)
      → ctx.waiting ≡ false
      → mark s i (some ctx) ≡ (ok tt, marked s i ctx)
  mark-free s i ctx w = rw w

  marked-IsCounted :
      (s : State P V) (i : ℕ) (ctx : Context V)
      → length s.request_ctx < 2 ^ 64
      → get_elem? s.request_ctx i ≡ some ctx
      → ctx.waiting ≡ false
      → IsCounted s
      → IsCounted (marked s i ctx)
  marked-IsCounted s i ctx b e w c =
      let set_lem = count_waiting-set s.request_ctx i ctx e w in
      let bound = count_waiting-bound (set s.request_ctx i (record ctx { waiting = true })) in
      let same = length-set s.request_ctx i (record ctx { waiting = true }) in omega arith

  -- `handle` keeps the count: if fewer than 2^64 requests exist and `waiting_requests` is the number
  -- of contexts that wait, then it is so behind `handle`, whatever request completes.
  pub handle-IsCounted :
      (cancelled : Bool) (cookie : ℕ) (s : State P V)
      → length s.request_ctx < 2 ^ 64
      → IsCounted s
      → IsCounted (handle cancelled cookie s).1
  unfolding handle
  handle-IsCounted true cookie s b c = c
  handle-IsCounted false cookie s b c = elim (Option-cases (get_elem? s.request_ctx cookie)) [
    | inl e ↦ rw e c
    | inr (ctx, e) ↦ rw e (elim (Bool-cases ctx.waiting) [
      | inl w ↦ rw (mark-waiting s cookie ctx w) c
      | inr w ↦ rw (mark-free s cookie ctx w) (marked-IsCounted s cookie ctx b e w c)
    ])
  ]

  -- A request that completes again before `execute` has served it makes `handle` throw
  -- std::runtime_error, and changes nothing more.
  pub handle-again :
      (cookie : ℕ) (s : State P V) (ctx : Context V)
      → get_elem? s.request_ctx cookie ≡ some ctx
      → handle false cookie (handle false cookie s).1
        ≡ (throws runtime_error, (handle false cookie s).1)
  unfolding handle
  handle-again cookie s ctx e = elim (Bool-cases ctx.waiting) [
    | inl w ↦ rw (e, mark-waiting s cookie ctx w, e, mark-waiting s cookie ctx w)
    | inr w ↦ rw (
      e,
      mark-free s cookie ctx w,
      get_elem?-set_self s.request_ctx cookie (record ctx { waiting = true })
          (get_elem?-bound s.request_ctx cookie ctx e),
    )
  ]
