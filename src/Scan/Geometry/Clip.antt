-- ===== src/Scan/Geometry/Clip.antt =====
-- The clipped ray is the part of the ray within the viewport.
pub mod Edges
use tuw_spike.Base.{
  ◌≡◌, ◌↔◌, ◌⊎◌, inl, inr, refl, sym, ap, Bool, true, false, ◌||◌, List, [], ◌∷◌, Option, none,
  some, All, if◌then◌else◌, Bool-cases,
}
use mathlib.Core.Path.{subst}
use tuw_spike.Scan.Scalar.{Scalar, Vec2, Rect, Le, OrderLaws, max_d, min_d}
use tuw_spike.Scan.Geometry.{Edge, edges_of, zero_d, parallel_or, clip_from, point_at, ray_clip}
use tuw_spike.Scan.Geometry.Clip.Edges.{Within, IsExact, Finds, clip_from-Finds}

module _ (s : Scalar) where
  open s use {D, neg, add, sub, mul, div, lt, epsilon, infinity}

  -- The clipped ray: what `ray_clip` returns are the points of the ray at `t1 <= t2`.
  abbrev pub Clipped : Vec2 D → Vec2 D → Rect D → D → D → Type 0
  Clipped start dir bounds t1 t2 =
      (ray_clip s start dir bounds ≡ some (point_at s start dir t1, point_at s start dir t2))
      × Le s t1 t2

  -- Where a ray that starts at `c` with the speed `d` is at `t`, in one coordinate. One that does
  -- not move by more than DBL_EPSILON stays.
  abbrev coordinate : D → D → D → D
  coordinate c d t = if lt d (neg epsilon) || lt epsilon d then add c (mul t d) else c

  -- The parameters of the ray that lie in the viewport: both coordinates are between its sides.
  abbrev pub InView : Vec2 D → Vec2 D → Rect D → D → Type 0
  InView start dir bounds t =
      Le s (zero_d s) t
      × Le s t infinity
      × Le s bounds.left (coordinate start.d0 dir.d0 t)
      × Le s (coordinate start.d0 dir.d0 t) (add bounds.left bounds.width)
      × Le s bounds.top (coordinate start.d1 dir.d1 t)
      × Le s (coordinate start.d1 dir.d1 t) (add bounds.top bounds.height)

  -- The arithmetic of one coordinate is exact: negation turns comparisons round, a division by the
  -- speed that is a product, and a sum that is a difference.
  pub record IsExactSide (c d low high : D) : Type 0 where
    pub neg_below : lt (neg d) (neg epsilon) ≡ lt epsilon d
    pub neg_above : lt epsilon (neg d) ≡ lt d (neg epsilon)
    pub low_exact : IsExact s (record { p = neg d; q = sub c low })
    pub high_exact : IsExact s (record { p = d; q = sub high c })
    pub low_moving : (t : D) → Le s (mul (neg d) t) (sub c low) ↔ Le s low (add c (mul t d))
    pub high_moving : (t : D) → Le s (mul d t) (sub high c) ↔ Le s (add c (mul t d)) high
    pub low_still : Le s (zero_d s) (sub c low) ↔ Le s low c
    pub high_still : Le s (zero_d s) (sub high c) ↔ Le s c high

  low-Within :
      (c d low high t : D)
      → IsExactSide c d low high
      → Within s t (record { p = neg d; q = sub c low }) ↔ Le s low (coordinate c d t)
  low-Within c d low high t x =
      rw (x.neg_below, x.neg_above)
        (elim (Bool-cases (lt epsilon d)) [
          | inl e ↦ elim (Bool-cases (lt d (neg epsilon))) [
            | inl f ↦ rw (e, f) (x.low_moving t)
            | inr f ↦ rw (e, f) (x.low_moving t)
          ]
          | inr e ↦ elim (Bool-cases (lt d (neg epsilon))) [
            | inl f ↦ rw (e, f) (x.low_moving t)
            | inr f ↦ rw (e, f) x.low_still
          ]
        ])

  high-Within :
      (c d low high t : D)
      → IsExactSide c d low high
      → Within s t (record { p = d; q = sub high c }) ↔ Le s (coordinate c d t) high
  high-Within c d low high t x = elim (Bool-cases (lt d (neg epsilon) || lt epsilon d)) [
    | inl e ↦ rw e (x.high_moving t)
    | inr e ↦ rw e x.high_still
  ]

  module _ (laws : OrderLaws s) where
    open laws use {le_trans, le_of_lt, le_infinity}

    -- The parameters that are within the edges, from 0 on.
    abbrev InEdges : Vec2 D → Vec2 D → Rect D → D → Type 0
    InEdges start dir bounds t =
        Le s (zero_d s) t × Le s t infinity × All (Within s t) (edges_of s start dir bounds)

    module _ (start dir : Vec2 D) (bounds : Rect D)
        (x : IsExactSide start.d0 dir.d0 bounds.left (add bounds.left bounds.width))
        (y : IsExactSide start.d1 dir.d1 bounds.top (add bounds.top bounds.height)) where
      InEdges-InView : (t : D) → InEdges start dir bounds t ↔ InView start dir bounds t
      InEdges-InView t =
          let l = low-Within start.d0 dir.d0 bounds.left (add bounds.left bounds.width) t x in
          let r = high-Within start.d0 dir.d0 bounds.left (add bounds.left bounds.width) t x in
          let u = low-Within start.d1 dir.d1 bounds.top (add bounds.top bounds.height) t y in
          let v = high-Within start.d1 dir.d1 bounds.top (add bounds.top bounds.height) t y in
          (
            (λ h. (h.0, h.1, l.0 h.2.0, r.0 h.2.1.0, u.0 h.2.1.1.0, v.0 h.2.1.1.1.0)),
            (λ h. (h.0, h.1, (l.1 h.2, (r.1 h.3, (u.1 h.4, (v.1 h.5, tt)))))),
          )

      cut :
          (o : Option (D × D))
          → clip_from s (edges_of s start dir bounds) (zero_d s) infinity ≡ o
          → Finds s laws (edges_of s start dir bounds) (zero_d s) infinity o
          → ((ray_clip s start dir bounds ≡ none) × ((t : D) → ¬ (InView start dir bounds t)))
            ⊎ ((t1 : D) × (t2 : D) × Clipped start dir bounds t1 t2
                × ((t : D) → (Le s t1 t × Le s t t2) ↔ InView start dir bounds t))
      unfolding ray_clip
      cut none e h = inl (rw e refl, λ t k. h t ((InEdges-InView t).1 k))
      cut (some (t1, t2)) e h = elim (Bool-cases (lt t2 t1)) [
        | inl late ↦ inl (
          rw (e, late) refl,
          λ t k. let g = (h t).1 ((InEdges-InView t).1 k) in cc (late, le_trans t1 t t2 g.0 g.1),
        )
        | inr early ↦ inr (
          t1,
          t2,
          (rw (e, early) refl, early),
          λ t. ((λ k. (InEdges-InView t).0 ((h t).0 k)), (λ k. (h t).1 ((InEdges-InView t).1 k))),
        )
      ]

    -- `ray_clip`: if doubles are ordered without NaN and the arithmetic is exact for both
    -- coordinates, then either it returns nothing, and no point of the ray lies in the viewport, or
    -- it returns the points at two parameters `t1 <= t2` between which lie exactly the points of the
    -- ray in the viewport: those whose coordinates are between its left and right and its top and
    -- bottom sides. A coordinate that does not change by more than DBL_EPSILON counts as that of the
    -- start.
    pub ray_clip-InView :
        (start dir : Vec2 D) (bounds : Rect D)
        → IsExactSide start.d0 dir.d0 bounds.left (add bounds.left bounds.width)
        → IsExactSide start.d1 dir.d1 bounds.top (add bounds.top bounds.height)
        → ((ray_clip s start dir bounds ≡ none) × ((t : D) → ¬ (InView start dir bounds t)))
          ⊎ ((t1 : D) × (t2 : D) × Clipped start dir bounds t1 t2
              × ((t : D) → (Le s t1 t × Le s t t2) ↔ InView start dir bounds t))
    ray_clip-InView start dir bounds x y = cut start dir bounds x y _ refl (
        clip_from-Finds s laws (edges_of s start dir bounds) (zero_d s) infinity
          (x.low_exact, (x.high_exact, (y.low_exact, (y.high_exact, tt)))))
