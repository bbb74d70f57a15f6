-- ===== src/Scan/Localizer/Ranges.antt =====
-- The ranges of the scan, ray by ray.
use tuw_spike.Base.{
  ℕ, zero, suc, ◌%◌, ◌==◌, ◌≡◌, refl, ap, ◌∙◌, List, [], ◌∷◌, Option, none, some, if◌then◌else◌,
  length,
}
use tuw_spike.Base.Int.{ℤ, pos, negsuc}
use tuw_spike.Base.Text.{Bytes, bytes}
use tuw_spike.Base.Result.{runtime_error, Result, ok, throws, ◌>>=◌}
use tuw_spike.Scan.Scalar.{Scalar, Vec2, Vec3, Point, Matrix, Matrix34, Vision}
use tuw_spike.Scan.Kernel.{Pixel, FilterLine, create_line, visits}
use tuw_spike.Scan.Kernel.Gaussian.{scan_kernel, length-scan_kernel}
use tuw_spike.Scan.Kernel.Visits.{fresh}
use tuw_spike.Scan.Edges.{Params, Pair}
use tuw_spike.Scan.Edges.Pairs.{outside, first_fit, detect_edge-edges}
use tuw_spike.Scan.Localizer.{
  Picture, CameraInfo, Transform, LaserScan, Localizer, Processing, get_homography, range_of,
  clipped, cast_clipped, ray_cast, cast_rays, processing, angles, increment_of, scan_of, scan_image,
  current_params, start_timing, push_stage, after_homography, process_frame,
}

create_line-odd :
    (pixel : ℕ → Pixel Point) (count : ℕ) (kernel : List ℤ)
    → length kernel ≡ 7
    → create_line pixel count kernel ≡ ok (fresh pixel kernel count)
unfolding create_line
create_line-odd pixel count kernel e =
    ap {B = Result (FilterLine Point)}
      (λ n. if n % 2 == 0 then throws runtime_error else ok (fresh pixel kernel count)) e

module _ (s : Scalar) (cv : Vision s.D) (params : Params s.D) (st : Processing s cv) where
  open s use {D, of_int, add, mul, div, infinity, to_float}

  -- The distance of a point of the projective plane from the origin.
  abbrev distance_of : Option (Vec3 D) → D
  distance_of none = infinity
  distance_of (some p) = to_float (cv.norm (record { d0 = div p.v0 p.v2; d1 = div p.v1 p.v2 }))

  range_of-distance_of : (o : Option (Vec3 D)) → range_of s cv o ≡ distance_of o
  range_of-distance_of none = refl
  range_of-distance_of (some p) = refl

  -- The edges on a clipped ray of the image.
  abbrev pub edges_along : Vec2 D × Vec2 D → List (Pair s cv params)
  edges_along (start, end) =
      let a = cv.to_point start in
      let b = cv.to_point end in
      outside s cv params st.inv_homography (
        visits (suc (st.image.count a b))
          (fresh (st.image.pixel a b) (scan_kernel s) (st.image.count a b)))

  -- The range of a ray, by the edges of the last ray before it that met the image.
  abbrev pub range_at : Option (Vec2 D × Vec2 D) → List (Pair s cv params) → D
  range_at none previous = infinity
  range_at (some c) previous =
      distance_of (first_fit s cv params st.inv_homography (edges_along c) previous)

  abbrev pub edges_or : Option (Vec2 D × Vec2 D) → List (Pair s cv params) → List (Pair s cv params)
  edges_or none previous = previous
  edges_or (some c) previous = edges_along c

  abbrev behind : List (Pair s cv params) → Processing s cv
  behind previous = record st { prev_ray = previous }

  cast_clipped-range :
      (c : Option (Vec2 D × Vec2 D)) (previous : List (Pair s cv params))
      → cast_clipped s cv params (behind previous) c
        ≡ ok (range_at c previous, behind (edges_or c previous))
  cast_clipped-range none previous = refl
  cast_clipped-range (some (start, end)) previous =
      let a = cv.to_point start in
      let b = cv.to_point end in
      let line =
        create_line-odd (st.image.pixel a b) (st.image.count a b) (scan_kernel s)
          (length-scan_kernel s) in
      let search =
        detect_edge-edges s cv params st.inv_homography
          (visits (suc (st.image.count a b))
            (fresh (st.image.pixel a b) (scan_kernel s) (st.image.count a b)))
          previous in
      let distance =
        range_of-distance_of
          (first_fit s cv params st.inv_homography (edges_along (start, end)) previous) in
      rw (line, search, distance) refl

  module _ (start_angle increment : D) where
    -- The angle of a ray.
    abbrev pub angle_at : ℕ → D
    angle_at i = add start_angle (mul (of_int (pos i)) increment)

    -- The edges that ray `i` is compared with.
    unfoldable pub previous : ℕ → List (Pair s cv params)
    previous zero = []
    previous (suc i) = edges_or (clipped s cv st (angle_at i)) (previous i)

    -- The ranges of `n` rays, from ray `i` on.
    unfoldable pub ranges_from : ℕ → ℕ → List D
    ranges_from zero i = []
    ranges_from (suc n) i =
        range_at (clipped s cv st (angle_at i)) (previous i) ∷ ranges_from n (suc i)

    -- One ray before the others.
    cast_rays-more :
        (n i : ℕ) (rest : List D) (last : Processing s cv)
        → cast_rays s cv params n (suc i) start_angle increment (behind (previous (suc i)))
          ≡ ok (rest, last)
        → cast_rays s cv params (suc n) i start_angle increment (behind (previous i))
          ≡ ok (range_at (clipped s cv st (angle_at i)) (previous i) ∷ rest, last)
    unfolding cast_rays ray_cast previous
    cast_rays-more n i rest last e =
        rw (cast_clipped-range (clipped s cv st (angle_at i)) (previous i), e) refl

    cast_rays-ranges :
        (n i : ℕ)
        → (last : Processing s cv) × (cast_rays s cv params n i start_angle increment
              (behind (previous i))
            ≡ ok (ranges_from n i, last))
    unfolding ranges_from
    cast_rays-ranges zero i = (behind (previous i), unfold cast_rays in refl)
    cast_rays-ranges (suc n) i =
        let (last, rest) = cast_rays-ranges n (suc i) in
        (last, cast_rays-more n i (ranges_from n (suc i)) last rest)

module _ (s : Scalar) (cv : Vision s.D) where
  open s use {D, of_int, lt}

  -- The first two columns of the rotation and the translation as the third.
  abbrev ground_matrix : Matrix34 D → Matrix D
  ground_matrix m = record {
    r0 = record { v0 = m.c0.v0; v1 = m.c1.v0; v2 = m.c3.v0 };
    r1 = record { v0 = m.c0.v1; v1 = m.c1.v1; v2 = m.c3.v1 };
    r2 = record { v0 = m.c0.v2; v1 = m.c1.v2; v2 = m.c3.v2 };
  }

  -- The camera matrix times the rotation and the translation of a transform.
  abbrev projection : Matrix D → Transform D → Matrix34 D
  projection k t =
      let m = t.basis in
      cv.times34 k (record {
        c0 = record { v0 = m.r0.v0; v1 = m.r1.v0; v2 = m.r2.v0 };
        c1 = record { v0 = m.r0.v1; v1 = m.r1.v1; v2 = m.r2.v1 };
        c2 = record { v0 = m.r0.v2; v1 = m.r1.v2; v2 = m.r2.v2 };
        c3 = t.origin;
      })

  -- The same projection with a determinant that is not negative.
  abbrev oriented : Matrix D → Matrix D
  oriented h = if lt (cv.determinant h) (of_int (pos 0)) then cv.scaled h (of_int (negsuc 0)) else h

  -- The map from the ground plane to the image, if there is a transform to the camera.
  abbrev pub ground_to_image : CameraInfo D → Option (Transform D) → Option (Matrix D)
  ground_to_image info none = none
  ground_to_image info (some t) = some (oriented (ground_matrix (projection info.k t)))

  pub get_homography-ground_to_image :
      (info : CameraInfo D) (o : Option (Transform D))
      → get_homography s cv info o ≡ ground_to_image info o
  unfolding get_homography
  get_homography-ground_to_image info none = refl
  get_homography-ground_to_image info (some t) = refl

  -- The message for an image: the frame and the stamp, the angles of the two lower corners, and a
  -- range for each of the rays between them.
  abbrev pub full_scan : Params D → ℤ → Processing s cv → LaserScan D
  full_scan params stamp st =
      let a = angles s cv st in
      scan_of s cv params stamp a
        (ranges_from s cv params st a.0 (increment_of s cv params a) params.num_rays 0)

  pub scan_image-full :
      (params : Params D) (stamp : ℤ) (image : Picture) (homography : Matrix D)
      → scan_image s cv params stamp (processing s cv image homography)
        ≡ ok (full_scan params stamp (processing s cv image homography))
  unfolding scan_image previous
  scan_image-full params stamp image homography =
      let st = processing s cv image homography in
      let a = angles s cv st in
      let (last, e) =
        cast_rays-ranges s cv params st a.0 (increment_of s cv params a) params.num_rays 0 in
      ap (λ r. r >>= λ x. ok (scan_of s cv params stamp a x.0)) e

  -- What is returned for an image, by the homography.
  abbrev pub scan_or_null : Params D → ℤ → Picture → Option (Matrix D) → Option (LaserScan D)
  scan_or_null params stamp image none = none
  scan_or_null params stamp image (some h) = some (full_scan params stamp (processing s cv image h))

  after_homography-scan :
      (clock : ℕ → ℤ) (stamp : ℤ) (image : Picture) (l : Localizer D) (h : Option (Matrix D))
      → (after_homography s cv clock stamp image l h).1 ≡ ok (scan_or_null l.params stamp image h)
  after_homography-scan clock stamp image l none = refl
  after_homography-scan clock stamp image l (some h) =
      rw (scan_image-full l.params stamp image h) refl

  -- `process_frame` on an image that `toCvShare` accepts: it never throws. Without a transform to the
  -- camera it returns a null pointer; otherwise the message has one range for each ray, by the
  -- homography of the ground plane: the columns 0, 1 and 3 of the camera matrix times the transform,
  -- with its sign changed if the determinant is negative. A ray that does not meet the image, or on
  -- which no edge fits, has an infinite range; any other has the distance of the entry of its first
  -- edge that fits the edge of the same number on the last ray before it that met the image.
  pub process_frame-ranges :
      (update : Option (Params D)) (clock : ℕ → ℤ) (image : Picture) (stamp : ℤ)
      (info : CameraInfo D) (lookup : Bytes → Bytes → ℤ → Option (Transform D)) (l : Localizer D)
      → let params = (current_params s cv update l).params in
        (process_frame s cv update clock (ok image) stamp info lookup l).1
        ≡ ok (
            scan_or_null params stamp image
              (ground_to_image info (lookup info.frame_id params.ray_frame info.stamp)))
  unfolding process_frame
  process_frame-ranges update clock image stamp info lookup l =
      let now =
        push_stage s cv clock (bytes "img_convert") 0
          (start_timing s cv clock (current_params s cv update l)) in
      let found = lookup info.frame_id now.params.ray_frame info.stamp in
      after_homography-scan clock stamp image now (get_homography s cv info found)
      ∙ ap (λ h. ok (scan_or_null now.params stamp image h))
          (get_homography-ground_to_image info found)
