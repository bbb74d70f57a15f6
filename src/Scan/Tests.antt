-- ===== src/Scan/Tests.antt =====
-- The laser scan at concrete inputs.
mod Numbers
use tuw_spike.Base.{
  ℕ, suc, ◌+◌, ◌-◌, ◌/◌, ◌%◌, ◌≡◌, refl, ap, ◌∙◌, Bool, true, false, List, [], ◌∷◌, Option, none,
  some, ltb, leb, ◌&&◌, ◌⊎◌, ◌<◌, ◌≤◌, arith, length, get_elem?, take, ◌==◌, max, ◌↔◌,
  if◌then◌else◌, All,
}
use tuw_spike.Base.Int.{ℤ, pos, negsuc, neg, ◌+ℤ◌}
use tuw_spike.Base.Text.{Bytes, bytes, bytes_eq}
use tuw_spike.Base.Result.{runtime_error, ok, throws}
use tuw_spike.Scan.Scalar.{Scalar, Vec2, Vec3, Matrix, Point, Rect, Le}
use tuw_spike.Scan.Kernel.{Pixel, FilterLine, create_line, visits, convolve}
use tuw_spike.Base.Words.{wrap16}
use tuw_spike.Scan.Kernel.Product.{coefficient, convolve-coefficient}
use tuw_spike.Scan.Kernel.Window.{filtered}
use tuw_spike.Scan.Kernel.Visits.{fresh, visits-line}
use tuw_spike.Scan.Edges.{Params, Pair, detect_edge}
use tuw_spike.Scan.Edges.Pairs.{outside, first_fit, detect_edge-edges}
use tuw_spike.Scan.Timing.{Recorder, records}
use tuw_spike.Scan.Timing.Frames.{names}
use tuw_spike.Scan.Localizer.{Picture, CameraInfo, Transform, Localizer, process_frame}
use tuw_spike.Scan.Localizer.Ranges.{scan_or_null, ground_to_image, process_frame-ranges}
use tuw_spike.Scan.Localizer.Stages.{stages}
use tuw_spike.Scan.Node.{Arrival, create_node, on_frames}
use tuw_spike.Scan.Node.Published.{expected, on_frames-expected}
use tuw_spike.Scan.Geometry.{edges_of, ray_clip, zero_d}
use tuw_spike.Scan.Geometry.Clip.{Clipped, InView, ray_clip-InView}
use tuw_spike.Scan.Tests.Numbers.{
  Number, numbers, vision, square, at, numbers_laws, rising-IsExactSide,
}

-- A line that is bright at its third pixel.
abbrev pixel : ℕ → Pixel ℕ
pixel n = record { place = n; value = if n == 2 then 200 else 10 }

abbrev kernel : List ℤ
kernel = pos 1 ∷ pos 0 ∷ negsuc 0 ∷ []

visits-line_example :
    (length (visits 9 (fresh pixel kernel 5)) ≡ 5)
    × (((length kernel ≤ 3 + 1)
          × (get_elem? (visits 9 (fresh pixel kernel 5)) 3
              ≡ some
                  ((pixel (3 - length kernel / 2)).place, filtered pixel kernel (3 + 1) (pos 0))))
        ⊎ ((3 + 1 < length kernel)
            × (p : ℕ) × (get_elem? (visits 9 (fresh pixel kernel 5)) 3 ≡ some (p, pos 0))))
unfolding create_line
visits-line_example =
    visits-line pixel kernel 5 (fresh pixel kernel 5) 9 3 refl (omega arith) (omega arith)
      (omega arith)

-- The product of two kernels, of which an element wraps.
abbrev steep : List ℤ
steep = pos 32767 ∷ negsuc 1 ∷ []

abbrev smooth : List ℤ
smooth = pos 1 ∷ pos 2 ∷ pos 1 ∷ []

convolve-coefficient_example :
    (length (convolve steep smooth) ≡ 4)
    × (get_elem? (convolve steep smooth) 1 ≡ some (wrap16 (coefficient steep smooth 1)))
convolve-coefficient_example = convolve-coefficient steep smooth 1 (omega arith) (omega arith)

-- A ray along the diagonal, from within the viewport.
abbrev ray_start : Vec2 Number
ray_start = record { d0 = at (pos 2); d1 = at (pos 3) }

abbrev diagonal : Vec2 Number
diagonal = record { d0 = at (pos 1); d1 = at (pos 1) }

abbrev viewport : Rect Number
viewport = record { left = at (pos 0); top = at (pos 0); width = at (pos 9); height = at (pos 9) }

ray_clip-InView_example :
    ((ray_clip numbers ray_start diagonal viewport ≡ none)
      × ((t : Number) → ¬ (InView numbers ray_start diagonal viewport t)))
    ⊎ ((t1 : Number) × (t2 : Number) × Clipped numbers ray_start diagonal viewport t1 t2
        × ((t : Number)
            → (Le numbers t1 t × Le numbers t t2) ↔ InView numbers ray_start diagonal viewport t))
unfolding ◌+ℤ◌
ray_clip-InView_example =
    ray_clip-InView numbers numbers_laws ray_start diagonal viewport
      (rising-IsExactSide (pos 2) (pos 0) (pos 9)) (rising-IsExactSide (pos 3) (pos 0) (pos 9))

abbrev params : Params Number
params = record {
  ray_frame = bytes "rays";
  num_rays = 3;
  edge_enter_threshold = pos 50;
  edge_exit_threshold = pos 50;
  edge_min_width = at (pos 0);
  edge_max_width = at (negsuc 0);
}

abbrev samples : List (Point × ℤ)
samples =
    (record { column = pos 0; row = pos 0 }, negsuc 99)
    ∷ (record { column = pos 1; row = pos 0 }, pos 0)
    ∷ (record { column = pos 2; row = pos 0 }, pos 100)
    ∷ []

detect_edge-edges_example : detect_edge numbers vision params square samples [] ≡ (
  first_fit numbers vision params square (outside numbers vision params square samples) [],
  outside numbers vision params square samples,
)
detect_edge-edges_example = detect_edge-edges numbers vision params square samples []

-- A frame after one that ended early.
abbrev recorder : Recorder
recorder = record {
  last_time = pos 7;
  before = record { name = bytes "img_convert"; count = 1; avg_time = pos 3 } ∷ [];
  rest = [];
}

-- A line with a dark stripe, whichever its ends.
abbrev picture : Picture
picture = record {
  cols = pos 10;
  rows = pos 10;
  pixel = λ a b n. record {
    place = record { column = pos n; row = pos n };
    value = if leb 3 n && ltb n 5 then 0 else 200;
  };
  count = λ a b. 9;
}

abbrev info : CameraInfo Number
info = record { k = square; frame_id = bytes "camera"; stamp = pos 0 }

-- The camera stands in the ray frame, and no other transform is known.
abbrev lookup : Bytes → Bytes → ℤ → Option (Transform Number)
lookup optical ray stamp =
    if bytes_eq ray (bytes "rays")
    then some (record { basis = square; origin = square.r2 })
    else none

abbrev localizer : Localizer Number
localizer = record { params = params; timings = recorder; last_timings_print = pos 0 }

process_frame-ranges_example :
    (process_frame numbers vision none (λ n. pos n) (ok picture) (pos 4) info lookup localizer).1
    ≡ ok (
        scan_or_null numbers vision params
          (pos 4)
          picture
          (ground_to_image numbers vision info (lookup (bytes "camera") (bytes "rays") (pos 0))))
process_frame-ranges_example =
    process_frame-ranges numbers vision none (λ n. pos n) picture (pos 4) info lookup localizer

-- A frame, one without a transform, and one whose image does not convert.
abbrev arrival : Arrival Number
arrival = record {
  update = none;
  clock = λ n. pos n;
  image = ok picture;
  stamp = pos 4;
  info = info;
  lookup = lookup;
}

abbrev arrivals : List (Arrival Number)
arrivals =
    arrival
    ∷ record arrival { lookup = λ from into stamp. none }
    ∷ record arrival { image = throws runtime_error }
    ∷ arrival
    ∷ []

on_frames-expected_example :
    let out = on_frames numbers vision arrivals (create_node params (pos 0)) in
    let e = expected numbers vision params arrivals in
    (out.0 ≡ e.failure)
    × (out.1.laser_scan_pub ≡ e.scans)
    × (names (records out.1.ray_localizer.timings) ≡ take e.depth stages)
on_frames-expected_example = on_frames-expected numbers vision params (pos 0) arrivals
