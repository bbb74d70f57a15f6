-- ===== src/Scan/Geometry/Clip/Edges.antt =====
-- The loop of `ray_clip` over the edges of the viewport.
use tuw_spike.Base.{
  ◌≡◌, ◌↔◌, inl, inr, sym, ap, Bool, true, false, ◌||◌, List, [], ◌∷◌, Option, none, some, All,
  if◌then◌else◌, Bool-cases,
}
use mathlib.Core.Path.{subst}
use tuw_spike.Scan.Scalar.{Scalar, Le, OrderLaws, max_d, min_d}
use tuw_spike.Scan.Geometry.{Edge, zero_d, parallel_or, clip_from}

module _ (s : Scalar) where
  open s use {D, neg, add, sub, mul, div, lt, epsilon, infinity}

  -- The edge is not parallel to the ray.
  abbrev pub crosses : Edge s → Bool
  crosses e = lt e.p (neg epsilon) || lt epsilon e.p

  -- The ray at `t` is within the edge.
  abbrev pub Within : D → Edge s → Type 0
  Within t e = if crosses e then Le s (mul e.p t) e.q else Le s (zero_d s) e.q

  -- Division is exact for the edge: `p * t <= q` is an order between t and q / p.
  pub record IsExact (e : Edge s) : Type 0 where
    pub falling :
        (t : D) → lt e.p (neg epsilon) ≡ true → Le s (mul e.p t) e.q ↔ Le s (div e.q e.p) t
    pub rising : (t : D) → lt epsilon e.p ≡ true → Le s (mul e.p t) e.q ↔ Le s t (div e.q e.p)

  module _ (laws : OrderLaws s) where
    open laws use {le_trans, le_of_lt, le_infinity}

    max_d-Le : (a b t : D) → Le s (max_d s a b) t ↔ (Le s a t × Le s b t)
    max_d-Le a b t = elim (Bool-cases (lt a b)) [
      | inl e ↦ rw e ((λ h. (le_trans a b t (le_of_lt a b e) h, h)), (λ h. h.1))
      | inr e ↦ rw e ((λ h. (h, le_trans b a t e h)), (λ h. h.0))
    ]

    min_d-Le : (a b t : D) → Le s t (min_d s a b) ↔ (Le s t a × Le s t b)
    min_d-Le a b t = elim (Bool-cases (lt b a)) [
      | inl e ↦ rw e ((λ h. (le_trans t b a h (le_of_lt b a e), h)), (λ h. h.1))
      | inr e ↦ rw e ((λ h. (h, le_trans t a b h e)), (λ h. h.0))
    ]

    -- What the loop finds: the parameters between the bounds that are within all edges.
    abbrev pub Finds : List (Edge s) → D → D → Option (D × D) → Type 0
    Finds es t1 t2 none = (t : D) → ¬ (Le s t1 t × Le s t t2 × All (Within t) es)
    Finds es t1 t2 (some (u1, u2)) =
        (t : D) → (Le s u1 t × Le s t u2) ↔ (Le s t1 t × Le s t t2 × All (Within t) es)

    shift-Finds :
        (e : Edge s) (es : List (Edge s)) (a b a' b' : D) (o : Option (D × D))
        → ((t : D) → (Le s a' t × Le s t b') ↔ (Le s a t × Le s t b × Within t e))
        → Finds es a' b' o
        → Finds (e ∷ es) a b o
    shift-Finds e es a b a' b' none same h =
        λ t k. let g = (same t).1 (k.0, k.1, k.2.0) in h t (g.0, g.1, k.2.1)
    shift-Finds e es a b a' b' (some (u1, u2)) same h = λ t. (
      (λ k. let r = (h t).0 k in let g = (same t).0 (r.0, r.1) in (g.0, g.1, (g.2, r.2))),
      (λ k. let g = (same t).1 (k.0, k.1, k.2.0) in (h t).1 (g.0, g.1, k.2.1)),
    )

    Within-falling :
        (e : Edge s) (t : D)
        → IsExact e
        → lt e.p (neg epsilon) ≡ true
        → Within t e ↔ Le s (div e.q e.p) t
    Within-falling e t x f = rw f (x.falling t f)

    Within-rising :
        (e : Edge s) (t : D)
        → IsExact e
        → lt e.p (neg epsilon) ≡ false
        → lt epsilon e.p ≡ true
        → Within t e ↔ Le s t (div e.q e.p)
    Within-rising e t x f r = rw (f, r) (x.rising t r)

    falling-bounds :
        (e : Edge s) (t1 t2 t : D)
        → IsExact e
        → lt e.p (neg epsilon) ≡ true
        → (Le s (max_d s t1 (div e.q e.p)) t × Le s t t2) ↔ (Le s t1 t × Le s t t2 × Within t e)
    falling-bounds e t1 t2 t x f =
        let m = max_d-Le t1 (div e.q e.p) t in
        let w = Within-falling e t x f in
        ((λ h. let k = m.0 h.0 in (k.0, h.1, w.1 k.1)), (λ h. (m.1 (h.0, w.0 h.2), h.1)))

    rising-bounds :
        (e : Edge s) (t1 t2 t : D)
        → IsExact e
        → lt e.p (neg epsilon) ≡ false
        → lt epsilon e.p ≡ true
        → (Le s t1 t × Le s t (min_d s t2 (div e.q e.p))) ↔ (Le s t1 t × Le s t t2 × Within t e)
    rising-bounds e t1 t2 t x f r =
        let m = min_d-Le t2 (div e.q e.p) t in
        let w = Within-rising e t x f r in
        ((λ h. let k = m.0 h.1 in (h.0, k.0, w.1 k.1)), (λ h. (h.0, m.1 (h.1, w.0 h.2))))

    -- One round of the loop, by the sign of `p`.
    clip-falling :
        (e : Edge s) (es : List (Edge s)) (t1 t2 : D)
        → lt e.p (neg epsilon) ≡ true
        → clip_from s (e ∷ es) t1 t2 ≡ clip_from s es (max_d s t1 (div e.q e.p)) t2
    unfolding clip_from
    clip-falling e es t1 t2 f = rw (clip_from, f)

    clip-rising :
        (e : Edge s) (es : List (Edge s)) (t1 t2 : D)
        → lt e.p (neg epsilon) ≡ false
        → lt epsilon e.p ≡ true
        → clip_from s (e ∷ es) t1 t2 ≡ clip_from s es t1 (min_d s t2 (div e.q e.p))
    unfolding clip_from
    clip-rising e es t1 t2 f r = rw (clip_from, f, r)

    clip-parallel :
        (e : Edge s) (es : List (Edge s)) (t1 t2 : D)
        → lt e.p (neg epsilon) ≡ false
        → lt epsilon e.p ≡ false
        → clip_from s (e ∷ es) t1 t2 ≡ parallel_or s e (clip_from s es t1 t2)
    unfolding clip_from
    clip-parallel e es t1 t2 f r = rw (clip_from, f, r)

    Within-parallel :
        (e : Edge s) (t : D)
        → lt e.p (neg epsilon) ≡ false
        → lt epsilon e.p ≡ false
        → Within t e ≡ Le s (zero_d s) e.q
    Within-parallel e t f r = rw (f, r)

    parallel-Finds :
        (e : Edge s) (es : List (Edge s)) (t1 t2 : D) (o : Option (D × D))
        → ((t : D) → Within t e ≡ Le s (zero_d s) e.q)
        → Finds es t1 t2 o
        → Finds (e ∷ es) t1 t2 (parallel_or s e o)
    parallel-Finds e es t1 t2 o same h = elim (Bool-cases (lt e.q (zero_d s))) [
      | inl out ↦
          subst (Finds (e ∷ es) t1 t2) (ap (λ b. if b then none else o) (sym out))
            (λ t k. cc (subst (λ X. X) (same t) k.2.0, out))
      | inr within ↦ subst (Finds (e ∷ es) t1 t2) (ap (λ b. if b then none else o) (sym within)) (
          shift-Finds e es t1 t2 t1 t2 o
            (λ t. ((λ g. (g.0, g.1, subst (λ X. X) (sym (same t)) within)), (λ g. (g.0, g.1)))) h)
    ]

    pub clip_from-Finds :
        (es : List (Edge s)) (t1 t2 : D) → All IsExact es → Finds es t1 t2 (clip_from s es t1 t2)
    clip_from-Finds [] t1 t2 x = unfold clip_from in λ t. ((λ h. (h.0, h.1, tt)), (λ h. (h.0, h.1)))
    clip_from-Finds (e ∷ es) t1 t2 x = elim (Bool-cases (lt e.p (neg epsilon))) [
      | inl f ↦ subst (Finds (e ∷ es) t1 t2) (sym (clip-falling e es t1 t2 f)) (
          shift-Finds e es t1 t2 (max_d s t1 (div e.q e.p)) t2 _
            (λ t. falling-bounds e t1 t2 t x.0 f)
            (clip_from-Finds es (max_d s t1 (div e.q e.p)) t2 x.1))
      | inr f ↦ elim (Bool-cases (lt epsilon e.p)) [
        | inl r ↦ subst (Finds (e ∷ es) t1 t2) (sym (clip-rising e es t1 t2 f r)) (
            shift-Finds e es t1 t2 t1 (min_d s t2 (div e.q e.p)) _
              (λ t. rising-bounds e t1 t2 t x.0 f r)
              (clip_from-Finds es t1 (min_d s t2 (div e.q e.p)) x.1))
        | inr r ↦ subst (Finds (e ∷ es) t1 t2) (sym (clip-parallel e es t1 t2 f r)) (
            parallel-Finds e es t1 t2 _ (λ t. Within-parallel e t f r)
              (clip_from-Finds es t1 t2 x.1))
      ]
    ]
