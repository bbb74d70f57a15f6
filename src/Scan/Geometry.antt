-- ===== src/Scan/Geometry.antt =====
-- tuw_camera_laserscan/src/geometry.cpp: points and lines of the projective plane, and rays clipped
-- to a viewport.
pub mod Clip
use tuw_spike.Base.{ℕ, Bool, true, false, ◌||◌, List, [], ◌∷◌, Option, none, some, if◌then◌else◌}
use tuw_spike.Base.Int.{pos}
use tuw_spike.Scan.Scalar.{Scalar, Vec2, Vec3, Rect, Vision, max_d, min_d}

module _ (s : Scalar) where
  open s use {D, of_int, neg, add, sub, mul, div, lt, epsilon, infinity}

  abbrev pub zero_d : D
  zero_d = of_int (pos 0)

  -- `ProjPoint2d(x, y)`
  abbrev pub proj_point : D → D → Vec3 D
  proj_point x y = record { v0 = x; v1 = y; v2 = of_int (pos 1) }

  -- `abs((*this)(2)) <= DBL_EPSILON`
  abbrev pub at_infinity : Vec3 D → Bool
  at_infinity p = s.le (s.abs p.v2) epsilon

  abbrev pub x_of : Vec3 D → D
  x_of p = div p.v0 p.v2

  abbrev pub y_of : Vec3 D → D
  y_of p = div p.v1 p.v2

  -- `ProjPoint2d::distance`
  unfoldable pub point_distance : Vec3 D → Vec3 D → D
  point_distance p q =
      if at_infinity p || at_infinity q
      then infinity
      else (let dx = sub (x_of p) (x_of q) in
          let dy = sub (y_of p) (y_of q) in s.sqrt (add (mul dx dx) (mul dy dy)))

  -- `operator cv::Point_<double>`
  abbrev pub to_vec : Vec3 D → Vec2 D
  to_vec p = record { d0 = x_of p; d1 = y_of p }

  -- `ProjLine2d(point, dir)` and `ProjLine2d(point, angle)`
  abbrev pub line_along : Vec2 D → Vec2 D → Vec3 D
  line_along point dir = record {
    v0 = neg dir.d1;
    v1 = dir.d0;
    v2 = sub (mul dir.d1 point.d0) (mul dir.d0 point.d1);
  }

  abbrev pub line_at : Vec2 D → D → Vec3 D
  line_at point angle = line_along point (record { d0 = s.cos angle; d1 = s.sin angle })

  module _ (cv : Vision D) where
    -- `ProjLine2d::intersect`, `direction` and `distance`
    abbrev pub intersect : Vec3 D → Vec3 D → Vec3 D
    intersect l m = cv.cross l m

    abbrev pub direction : Vec3 D → Vec2 D
    direction l = cv.normalize (record { d0 = l.v1; d1 = neg l.v0 })

    unfoldable pub line_distance : Vec3 D → Vec3 D → D
    line_distance l p =
        let tmp = div (cv.dot l p) p.v2 in
        div (if lt tmp zero_d then neg tmp else tmp) (s.sqrt (add (mul l.v0 l.v0) (mul l.v1 l.v1)))

  -- `p` and `q` of an edge of the viewport: the ray at the parameter t is within it if p * t <= q.
  pub record Edge : Type 0 where
    pub p : D
    pub q : D

  abbrev pub edges_of : Vec2 D → Vec2 D → Rect D → List Edge
  edges_of start dir bounds =
      record { p = neg dir.d0; q = sub start.d0 bounds.left }
      ∷ record { p = dir.d0; q = sub (add bounds.left bounds.width) start.d0 }
      ∷ record { p = neg dir.d1; q = sub start.d1 bounds.top }
      ∷ record { p = dir.d1; q = sub (add bounds.top bounds.height) start.d1 }
      ∷ []

  abbrev pub parallel_or : Edge → Option (D × D) → Option (D × D)
  parallel_or e rest = if lt e.q zero_d then none else rest

  -- The loop over the edges.
  unfoldable pub clip_from : List Edge → D → D → Option (D × D)
  clip_from [] t1 t2 = some (t1, t2)
  clip_from (e ∷ es) t1 t2 = elim (lt e.p (neg epsilon)) [
    | true ↦ clip_from es (max_d s t1 (div e.q e.p)) t2
    | false ↦ elim (lt epsilon e.p) [
      | true ↦ clip_from es t1 (min_d s t2 (div e.q e.p))
      | false ↦ parallel_or e (clip_from es t1 t2)
    ]
  ]

  -- `ray_start + t * direction`
  abbrev pub point_at : Vec2 D → Vec2 D → D → Vec2 D
  point_at start dir t = record {
    d0 = add start.d0 (mul t dir.d0);
    d1 = add start.d1 (mul t dir.d1);
  }

  abbrev pub finish_clip : Vec2 D → Vec2 D → Option (D × D) → Option (Vec2 D × Vec2 D)
  finish_clip start dir none = none
  finish_clip start dir (some (t1, t2)) =
      if lt t2 t1 then none else some (point_at start dir t1, point_at start dir t2)

  unfoldable pub ray_clip : Vec2 D → Vec2 D → Rect D → Option (Vec2 D × Vec2 D)
  ray_clip start dir bounds =
      finish_clip start dir (clip_from (edges_of start dir bounds) zero_d infinity)
