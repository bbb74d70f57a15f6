-- ===== src/Camera/Node/Stop.antt =====
-- The destructor of `CaptureNode`: the calls of `handle` that `camera->stop()` causes. Which requests
-- come back, and in which order, is libcamera's, and a parameter.
use tuw_spike.Base.{
  ℕ, ◌+◌, ◌<◌, ◌≡◌, refl, sym, ap, ◌∙◌, true, List, [], ◌∷◌, ltb, if◌then◌else◌, get_elem?, arith,
  All, length, ltb→lt, get_elem?-bound, ◌≤◌, Bool-cases, Option-cases, inl, inr,
}
use mathlib.Core.Path.{subst}
use tuw_spike.Base.Result.{Result, ok, throws}
use tuw_spike.Camera.Controls.{ControlList}
use tuw_spike.Camera.Requests.{Context, handle}
use tuw_spike.Camera.Requests.Interleaving.{
  System, Holds, count, cancel, Reach, here, next, IsPlaced, waits, held-idle, count-cons_self,
  count-cons_ne, count-nil, eq-cases, Reach-IsPlaced,
}
use tuw_spike.Camera.Requests.Progress.{started, started-IsPlaced}
use tuw_spike.Camera.Node.{Params, Platform, Node, construct}
use tuw_spike.Camera.Node.Served.{construct-IsStarted}
use tuw_spike.Camera.Node.Frames.{running}

count-cons_le : (i j : ℕ) (xs : List ℕ) → count j xs ≤ count j (i ∷ xs)
unfolding count
count-cons_le i j xs = ground arith

module _ {P V : Type 0} where
  -- `handle`, if the camera holds the request, which comes back as cancelled: what it throws, and the
  -- system behind it.
  abbrev pub hand_back : ℕ → System P V → Result (Unit {0}) × System P V
  hand_back i m =
      if ltb (count i m.completed + count i m.cancelled) (count i m.handler.queued)
      then (
        (handle true i m.handler).0,
        record m { handler = (handle true i m.handler).1; cancelled = i ∷ m.cancelled },
      )
      else (ok tt, m)

  -- The calls of `handle` during the destructor, over the order in which requests come back; a throw of
  -- one ends them, and the program.
  unfoldable pub stop : List ℕ → System P V → Result (Unit {0}) × System P V
  stop [] m = (ok tt, m)
  stop (i ∷ order) m =
      let r = hand_back i m in elim r.0 [ throws e ↦ (throws e, r.1) | ok u ↦ stop order r.1 ]

  -- A request comes back, and is not held any more.
  record Returned (reuse : ControlList V → ControlList V) (i : ℕ) (m : System P V)
      (r : Result (Unit {0}) × System P V) : Type 0 where
    pub returned : r.0 ≡ ok tt
    pub reached : Reach reuse m r.1
    pub same : r.1.handler ≡ m.handler
    pub gone : ¬ (Holds reuse i r.1)
    pub others : (j : ℕ) → ¬ (Holds reuse j m) → ¬ (Holds reuse j r.1)

  -- The camera was given a request that it holds once more than handed back.
  held-once :
      (m : System P V) (i : ℕ)
      → IsPlaced m
      → count i m.completed + count i m.cancelled < count i m.handler.queued
      → count i m.handler.queued ≡ count i m.completed + 1
  held-once m i h b =
      let (ctx, e, w) = held-idle m i h b in
      let idle : waits ctx ≡ 0 = ap (λ x. if x then 1 else 0) w in
      omega (arith, h.places i ctx e, idle)

  hand_back-Returned :
      (reuse : ControlList V → ControlList V) (i : ℕ) (m : System P V)
      → IsPlaced m
      → Returned reuse i m (hand_back i m)
  unfolding handle
  hand_back-Returned reuse i m h =
      elim (Bool-cases
        (ltb (count i m.completed + count i m.cancelled) (count i m.handler.queued))) [
          | inr e ↦ rw e (record {
            returned = refl;
            reached = here;
            same = refl;
            gone = λ b. ground arith;
            others = λ j z. z;
          })
          | inl e ↦
              let held : count i m.completed + count i m.cancelled < count i m.handler.queued =
                ltb→lt _ _ e in
              let once = held-once m i h held in
              rw e (record {
                returned = refl;
                reached = next here (cancel m i held);
                same = refl;
                gone = λ b. omega (arith, b, once, count-cons_self i m.cancelled);
                others = λ j z b. z (omega (arith, b, count-cons_le i j m.cancelled));
              })
        ]

  -- All requests of the order are back.
  record Stopped (reuse : ControlList V → ControlList V) (order : List ℕ) (m : System P V)
      (r : Result (Unit {0}) × System P V) : Type 0 where
    pub returned : r.0 ≡ ok tt
    pub reached : Reach reuse m r.1
    pub same : r.1.handler ≡ m.handler
    pub gone : All (λ (i : ℕ). ¬ (Holds reuse i r.1)) order
    pub others : (j : ℕ) → ¬ (Holds reuse j m) → ¬ (Holds reuse j r.1)

  Reach-trans :
      (reuse : ControlList V → ControlList V) {m n o : System P V}
      → Reach reuse m n
      → Reach reuse n o
      → Reach reuse m o
  Reach-trans reuse r here = r
  Reach-trans reuse r (next q st) = next (Reach-trans reuse r q) st

  stop-next :
      (i : ℕ) (order : List ℕ) (m : System P V)
      → (hand_back i m).0 ≡ ok tt
      → stop (i ∷ order) m ≡ stop order (hand_back i m).1
  unfolding stop
  stop-next i order m e =
      ap
        (λ (r : Result (Unit {0})). elim r [
          | throws x ↦ (throws x, (hand_back i m).1)
          | ok u ↦ stop order (hand_back i m).1
        ])
        e

  stop-Stopped :
      (reuse : ControlList V → ControlList V) (order : List ℕ) (m : System P V)
      → IsPlaced m
      → Stopped reuse order m (stop order m)
  unfolding stop
  stop-Stopped reuse [] m h = record {
    returned = refl;
    reached = here;
    same = refl;
    gone = tt;
    others = λ j z. z;
  }
  stop-Stopped reuse (i ∷ order) m h =
      let one = hand_back-Returned reuse i m h in
      let next_m = (hand_back i m).1 in
      let rest = stop-Stopped reuse order next_m (Reach-IsPlaced reuse h one.reached) in
      subst (Stopped reuse (i ∷ order) m) (sym (stop-next i order m one.returned)) (record {
        returned = rest.returned;
        reached = Reach-trans reuse one.reached rest.reached;
        same = rest.same ∙ one.same;
        gone = (rest.others i one.gone, rest.gone);
        others = λ j z. rest.others j (one.others j z);
      })

-- The order has each request of the handler, as libcamera documents it of `stop`.
abbrev pub Covers : {V : Type 0} → List ℕ → List (Context V) → Type 0
Covers order ctxs = (i : ℕ) → i < length ctxs → 0 < count i order

All-count : (Q : ℕ → Type 0) (xs : List ℕ) (i : ℕ) → All Q xs → 0 < count i xs → Q i
All-count Q [] i h o = absurd (omega (arith, o, count-nil i))
All-count Q (x ∷ xs) i h o = elim (eq-cases x i) [
  | inl e ↦ subst Q e h.0
  | inr e ↦ All-count Q xs i h.1 (omega (arith, o, count-cons_ne x i xs e))
]

-- The destructor of a constructed node, in every state that the node reaches, if libcamera goes through
-- all requests: each `handle` that `camera->stop()` causes returns, and changes nothing of the handler,
-- so no frame is published; and the camera holds no request when it is released, in whatever order the requests come back.
pub stop-releases :
    {P V : Type 0} (params : Params) (p : Platform P V) (reuse : ControlList V → ControlList V)
    (node : Node P V) (m : System P V) (order : List ℕ)
    → construct params p ≡ ok node
    → Reach reuse (running node) m
    → Covers order m.handler.request_ctx
    → ((stop order m).0 ≡ ok tt)
      × ((stop order m).1.handler ≡ m.handler)
      × Reach reuse (running node) (stop order m).1
      × ((i : ℕ) → ¬ (Holds reuse i (stop order m).1))
stop-releases params p reuse node m order made r all =
    let b = construct-IsStarted params p node made in
    let from : Reach reuse (started b.before) m =
      subst (λ s. Reach reuse (record { handler = s; completed = []; cancelled = [] }) m) b.begun
        r in
    let placed = Reach-IsPlaced reuse (started-IsPlaced b.before b.ready.fresh) from in
    let done = stop-Stopped reuse order m placed in
    (
      done.returned,
      done.same,
      Reach-trans reuse r done.reached,
      λ i. elim (Option-cases (get_elem? m.handler.request_ctx i)) [
        | inl e ↦ done.others i (λ b. omega (arith, b, placed.known i e))
        | inr (ctx, e) ↦
            All-count (λ j. ¬ (Holds reuse j (stop order m).1)) order i done.gone
              (all i (get_elem?-bound m.handler.request_ctx i ctx e))
      ],
    )
