-- ===== src/Scan/Edges.antt =====
-- `RayLocalizer::detect_edge` of tuw_camera_laserscan/src/ray_localizer.cpp, over what the filter
-- yields in each round of its loop. Debug drawing, which is compiled out, and logging are left out.
pub mod Pairs
use tuw_spike.Base.{
  ℕ, Bool, true, false, not, ◌&&◌, ◌||◌, List, [], ◌∷◌, ◌++◌, Option, none, some, if◌then◌else◌,
}
use tuw_spike.Base.Int.{ℤ, neg, pos, ltb_ℤ}
use tuw_spike.Base.Text.{Bytes}
use tuw_spike.Scan.Scalar.{Scalar, Vec3, Matrix, Point, Vision}
use tuw_spike.Scan.Geometry.{proj_point, line_distance, zero_d}

-- The parameters of tuw_camera_laserscan/src/ray_localizer_parameters.yaml that the code reads.
pub record Params (D : Type 0) : Type 0 where
  pub ray_frame : Bytes
  pub num_rays : ℕ
  pub edge_enter_threshold : ℤ
  pub edge_exit_threshold : ℤ
  pub edge_min_width : D
  pub edge_max_width : D

module _ (s : Scalar) (cv : Vision s.D) (params : Params s.D) where
  open s use {D, of_int, add, mul, div, lt}

  -- An entry and an exit in the plane of the rays.
  abbrev pub Pair : Type 0
  Pair = Vec3 D × Vec3 D

  -- The locals of the loop: `detected`, `entry`, `point_pairs`, and the pairs of the previous ray from
  -- `prev_ray_iter` on.
  pub record Search : Type 0 where
    pub detected : Option (Vec3 D)
    pub entry : Option Point
    pub point_pairs : List Pair
    pub previous : List Pair

  abbrev pub enters : ℤ → Bool
  enters v = ltb_ℤ params.edge_enter_threshold (neg v)

  abbrev pub leaves : ℤ → Bool
  leaves v = ltb_ℤ params.edge_exit_threshold v

  -- `state.inv_homography * ProjPoint2d(point)`
  abbrev pub project : Matrix D → Point → Vec3 D
  project inv p = cv.apply inv (proj_point s (of_int p.column) (of_int p.row))

  -- `edge_width`, from the pair and the pair of the previous ray; 0.5 is 1 / 2.
  abbrev pub edge_width : Pair → Pair → D
  edge_width pair last =
      let entry_line = cv.cross pair.0 last.0 in
      mul (add (line_distance s cv entry_line pair.1) (line_distance s cv entry_line last.1))
        (div (of_int (pos 1)) (of_int (pos 2)))

  -- `edge_min_width <= edge_width && (edge_max_width < 0 || edge_width < edge_max_width)`
  abbrev pub fits : Pair → Pair → Bool
  fits pair last =
      s.le params.edge_min_width (edge_width pair last)
      && (lt params.edge_max_width (zero_d s) || lt (edge_width pair last) params.edge_max_width)

  -- What follows `entry = std::nullopt`: the pair is compared with that of the previous ray.
  abbrev pub compare_pair : Pair → List Pair → Option (Vec3 D) → Option (Vec3 D) × List Pair
  compare_pair pair [] detected = (detected, [])
  compare_pair pair (last ∷ rest) (some d) = (some d, last ∷ rest)
  compare_pair pair (last ∷ rest) none = (if fits pair last then some pair.0 else none, rest)

  abbrev pub leave_edge : Matrix D → Point → Point → Search → Search
  leave_edge inv entry place c =
      let pair : Pair = (project inv entry, project inv place) in
      let compared = compare_pair pair c.previous c.detected in
      record {
        detected = compared.0;
        entry = none;
        point_pairs = c.point_pairs ++ pair ∷ [];
        previous = compared.1;
      }

  -- The body of the loop.
  unfoldable pub visit : Matrix D → Point × ℤ → Search → Search
  visit inv (place, value) c = elim c.entry [
    | none ↦ if enters value then record c { entry = some place } else c
    | some entry ↦ if leaves value then leave_edge inv entry place c else c
  ]

  unfoldable pub search_line : Matrix D → List (Point × ℤ) → Search → Search
  search_line inv [] c = c
  search_line inv (v ∷ vs) c = search_line inv vs (visit inv v c)

  abbrev pub start_search : List Pair → Search
  start_search prev_ray = record {
    detected = none;
    entry = none;
    point_pairs = [];
    previous = prev_ray;
  }

  -- `detect_edge`: what it returns, and `prev_ray` behind it.
  unfoldable pub detect_edge : Matrix D → List (Point × ℤ) → List Pair → Option (Vec3 D) × List Pair
  detect_edge inv line prev_ray =
      let c = search_line inv line (start_search prev_ray) in (c.detected, c.point_pairs)
