-- ===== src/Scan/Localizer.antt =====
-- `RayLocalizer` of tuw_camera_laserscan/src/ray_localizer.cpp: from an image to a laser scan. Debug
-- images, which are compiled out, and logging are left out.
pub mod Ranges
pub mod Stages
use tuw_spike.Base.{
  ℕ, zero, suc, ◌+◌, ◌*◌, ◌-◌, Bool, true, false, List, [], ◌∷◌, Option, none, some, if◌then◌else◌,
}
use tuw_spike.Base.Int.{ℤ, pos, negsuc, ◌-ℤ◌, ltb_ℤ}
use tuw_spike.Base.Text.{Bytes, bytes}
use tuw_spike.Base.Result.{Result, ok, throws, ◌>>=◌}
use tuw_spike.Scan.Scalar.{Scalar, Vec2, Vec3, Rect, Point, Matrix, Matrix34, Vision}
use tuw_spike.Scan.Geometry.{proj_point, x_of, y_of, to_vec, line_at, direction, ray_clip, zero_d}
use tuw_spike.Scan.Kernel.{Pixel, FilterLine, create_line, visits}
use tuw_spike.Scan.Kernel.Gaussian.{scan_kernel}
use tuw_spike.Scan.Edges.{Params, Pair, detect_edge}
use tuw_spike.Scan.Timing.{Recorder, start, push_time}

-- `cv::Mat`, with the pixels that `cv::LineIterator` goes through from point to point, and their count.
pub record Picture : Type 0 where
  pub cols : ℤ
  pub rows : ℤ
  pub pixel : Point → Point → ℕ → Pixel Point
  pub count : Point → Point → ℕ

-- `sensor_msgs::msg::CameraInfo`
pub record CameraInfo (D : Type 0) : Type 0 where
  pub k : Matrix D
  pub frame_id : Bytes
  pub stamp : ℤ

-- `tf2::Transform`
pub record Transform (D : Type 0) : Type 0 where
  pub basis : Matrix D
  pub origin : Vec3 D

-- `sensor_msgs::msg::LaserScan`
pub record LaserScan (D : Type 0) : Type 0 where
  pub frame_id : Bytes
  pub stamp : ℤ
  pub angle_increment : D
  pub angle_min : D
  pub angle_max : D
  pub time_increment : D
  pub scan_time : D
  pub range_min : D
  pub range_max : D
  pub ranges : List D

-- The members of `RayLocalizer` that change.
pub record Localizer (D : Type 0) : Type 0 where
  pub params : Params D
  pub timings : Recorder
  pub last_timings_print : ℤ

module _ (s : Scalar) (cv : Vision s.D) where
  open s use {D, of_int, add, sub, mul, div, lt, infinity, to_float}

  -- `ProcessingState`
  pub record Processing : Type 0 where
    pub image : Picture
    pub homography : Matrix D
    pub inv_homography : Matrix D
    pub viewport : Rect D
    pub ray_center : Vec3 D
    pub prev_ray : List (Vec3 D × Vec3 D)

  -- `get_camera_extrinsic`: the rotation and the translation side by side.
  abbrev pub get_camera_extrinsic : Transform D → Matrix34 D
  get_camera_extrinsic t = record {
    c0 = record { v0 = t.basis.r0.v0; v1 = t.basis.r1.v0; v2 = t.basis.r2.v0 };
    c1 = record { v0 = t.basis.r0.v1; v1 = t.basis.r1.v1; v2 = t.basis.r2.v1 };
    c2 = record { v0 = t.basis.r0.v2; v1 = t.basis.r1.v2; v2 = t.basis.r2.v2 };
    c3 = t.origin;
  }

  -- The columns 0, 1 and 3.
  abbrev pub plane_columns : Matrix34 D → Matrix D
  plane_columns m = record {
    r0 = record { v0 = m.c0.v0; v1 = m.c1.v0; v2 = m.c3.v0 };
    r1 = record { v0 = m.c0.v1; v1 = m.c1.v1; v2 = m.c3.v1 };
    r2 = record { v0 = m.c0.v2; v1 = m.c1.v2; v2 = m.c3.v2 };
  }

  -- `get_homography`, over what `lookupTransform` finds.
  unfoldable pub get_homography : CameraInfo D → Option (Transform D) → Option (Matrix D)
  get_homography info none = none
  get_homography info (some t) =
      let homography = plane_columns (cv.times34 info.k (get_camera_extrinsic t)) in
      some (
        if lt (cv.determinant homography) (zero_d s)
        then cv.scaled homography (of_int (negsuc 0))
        else homography)

  -- The search behind the construction of the line iterator. A round of the loop for each pixel and one
  -- more are enough.
  abbrev pub search_with :
      Params D → Processing → ℕ → Result (FilterLine Point) → Result (Option (Vec3 D) × Processing)
  search_with params st count (throws e) = throws e
  search_with params st count (ok line) =
      let found = detect_edge s cv params st.inv_homography (visits (suc count) line) st.prev_ray in
      ok (found.0, record st { prev_ray = found.1 })

  -- `detect_edge` on the image.
  abbrev pub detect_between :
      Params D → Processing → Point → Point → Result (Option (Vec3 D) × Processing)
  detect_between params st start end =
      search_with params st (st.image.count start end)
        (create_line (st.image.pixel start end) (st.image.count start end) (scan_kernel s))

  -- The distance that `ray_cast` returns, a float, for the edge that was found.
  abbrev pub range_of : Option (Vec3 D) → D
  range_of none = infinity
  range_of (some edge) = to_float (cv.norm (to_vec s edge))

  -- `line_img` of `ray_cast`, clipped.
  abbrev pub clipped : Processing → D → Option (Vec2 D × Vec2 D)
  clipped st angle =
      let line = line_at s (record { d0 = zero_d s; d1 = zero_d s }) angle in
      let line_img = cv.apply (cv.transpose st.inv_homography) line in
      ray_clip s (to_vec s st.ray_center) (direction s cv line_img) st.viewport

  abbrev pub cast_clipped :
      Params D → Processing → Option (Vec2 D × Vec2 D) → Result (D × Processing)
  cast_clipped params st none = ok (infinity, st)
  cast_clipped params st (some (start, end)) = do
    found ← detect_between params st (cv.to_point start) (cv.to_point end)
    ok (range_of found.0, found.1)

  -- `ray_cast`
  unfoldable pub ray_cast : Params D → Processing → D → Result (D × Processing)
  ray_cast params st angle = cast_clipped params st (clipped st angle)

  -- The loop over the rays, from the ray `i` on.
  unfoldable pub cast_rays : Params D → ℕ → ℕ → D → D → Processing → Result (List D × Processing)
  cast_rays params zero i start_angle increment st = ok ([], st)
  cast_rays params (suc n) i start_angle increment st = do
    r ← ray_cast params st (add start_angle (mul (of_int (pos i)) increment))
    rest ← cast_rays params n (suc i) start_angle increment r.1
    ok (r.0 ∷ rest.0, rest.1)

  abbrev pub viewport_of : Picture → Rect D
  viewport_of image = record {
    left = zero_d s;
    top = zero_d s;
    width = of_int (image.cols -ℤ pos 1);
    height = of_int (image.rows -ℤ pos 1);
  }

  -- `state`, once the homography is known.
  abbrev pub processing : Picture → Matrix D → Processing
  processing image homography = record {
    image = image;
    homography = homography;
    inv_homography = cv.inverse homography;
    viewport = viewport_of image;
    ray_center = cv.apply homography (proj_point s (zero_d s) (zero_d s));
    prev_ray = [];
  }

  -- The angle of a corner of the viewport, seen from the ray center.
  abbrev pub corner_angle : Processing → D → D → D
  corner_angle st x y =
      let p = cv.apply st.inv_homography (proj_point s x y) in s.atan2 (y_of s p) (x_of s p)

  -- `start_angle` and `end_angle`, in order.
  abbrev pub angles : Processing → D × D
  angles st =
      let bottom = add st.viewport.top st.viewport.height in
      let a = corner_angle st st.viewport.left bottom in
      let b = corner_angle st (add st.viewport.left st.viewport.width) bottom in
      if lt b a then (b, a) else (a, b)

  abbrev pub increment_of : Params D → D × D → D
  increment_of params a = div (sub a.1 a.0) (of_int (pos params.num_rays -ℤ pos 1))

  -- The message, with its ranges.
  abbrev pub scan_of : Params D → ℤ → D × D → List D → LaserScan D
  scan_of params stamp a ranges = record {
    frame_id = params.ray_frame;
    stamp = stamp;
    angle_increment = to_float (increment_of params a);
    angle_min = to_float a.0;
    angle_max = to_float a.1;
    time_increment = of_int (pos 0);
    scan_time = of_int (pos 0);
    range_min = of_int (pos 0);
    range_max = of_int (pos 100);
    ranges = ranges;
  }

  -- What `process_frame` does with an image and the homography.
  unfoldable pub scan_image : Params D → ℤ → Processing → Result (LaserScan D)
  scan_image params stamp st =
      let a = angles st in
      cast_rays params params.num_rays 0 a.0 (increment_of params a) st >>= λ r.
      ok (scan_of params stamp a r.0)

  abbrev pub current_params : Option (Params D) → Localizer D → Localizer D
  current_params none l = l
  current_params (some params) l = record l { params = params }

  abbrev pub start_timing : (ℕ → ℤ) → Localizer D → Localizer D
  start_timing clock l = record l { timings = start (clock 0) l.timings }

  -- `timings.push_time`, the `n`-th of a frame, counted from 0.
  abbrev pub push_stage : (ℕ → ℤ) → Bytes → ℕ → Localizer D → Localizer D
  push_stage clock name n l = record l {
    timings = push_time name (clock (2 * n + 1)) (clock (2 * n + 2)) l.timings;
  }

  -- `last_timings_print`, in nanoseconds.
  abbrev pub print_timings : ℤ → Localizer D → Localizer D
  print_timings now l =
      if ltb_ℤ (pos 5000000000) (now -ℤ l.last_timings_print)
      then record l { last_timings_print = now }
      else l

  abbrev pub after_scan :
      (ℕ → ℤ) → Localizer D → Result (LaserScan D) → Localizer D × Result (Option (LaserScan D))
  after_scan clock l (throws e) = (l, throws e)
  after_scan clock l (ok scan) =
      (print_timings (clock 11) (push_stage clock (bytes "laser_scan") 4 l), ok (some scan))

  abbrev pub after_homography :
      (ℕ → ℤ)
      → ℤ
      → Picture
      → Localizer D
      → Option (Matrix D)
      → Localizer D × Result (Option (LaserScan D))
  after_homography clock stamp image l none = (l, ok none)
  after_homography clock stamp image l (some homography) =
      after_scan clock
        (push_stage clock (bytes "laser_scan_init") 3 (
          push_stage clock (bytes "debug_img_setup") 2
            (push_stage clock (bytes "determine_homography") 1 l)))
        (scan_image l.params stamp (processing image homography))

  abbrev pub after_convert :
      (ℕ → ℤ)
      → ℤ
      → CameraInfo D
      → (Bytes → Bytes → ℤ → Option (Transform D))
      → Localizer D
      → Result Picture
      → Localizer D × Result (Option (LaserScan D))
  after_convert clock stamp info lookup l (throws e) = (l, throws e)
  after_convert clock stamp info lookup l (ok image) =
      after_homography clock stamp image (push_stage clock (bytes "img_convert") 0 l)
        (get_homography info (lookup info.frame_id l.params.ray_frame info.stamp))

  -- `process_frame`, over the parameters if they have changed, the readings of the clock, the image
  -- that `toCvShare` returns or its exception, and `lookupTransform`: the localizer behind it, and a
  -- message, a null pointer or an exception.
  unfoldable pub process_frame :
      Option (Params D)
      → (ℕ → ℤ)
      → Result Picture
      → ℤ
      → CameraInfo D
      → (Bytes → Bytes → ℤ → Option (Transform D))
      → Localizer D
      → Localizer D × Result (Option (LaserScan D))
  process_frame update clock image stamp info lookup l =
      after_convert clock stamp info lookup (start_timing clock (current_params update l)) image
