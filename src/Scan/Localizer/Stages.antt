-- ===== src/Scan/Localizer/Stages.antt =====
-- The timing records of a localizer.
use tuw_spike.Base.{
  ℕ, suc, ◌+◌, ◌*◌, ◌≡◌, refl, ap, ◌∙◌, List, [], ◌∷◌, Option, none, some, max, take, Bool-cases,
  inl, inr,
}
use tuw_spike.Base.Int.{ℤ, pos, ltb_ℤ, ◌-ℤ◌}
use tuw_spike.Base.Text.{Bytes, bytes}
use tuw_spike.Base.Result.{Result, ok, throws}
use tuw_spike.Scan.Scalar.{Scalar, Matrix, Vision}
use tuw_spike.Scan.Edges.{Params}
use tuw_spike.Scan.Timing.{Recorder, records}
use tuw_spike.Scan.Timing.Frames.{Push, names, frame, push_all, pushed, frame-names}
use tuw_spike.Scan.Localizer.Ranges.{scan_image-full}
use tuw_spike.Scan.Localizer.{
  Picture, CameraInfo, Transform, LaserScan, Localizer, get_homography, current_params,
  start_timing, push_stage, print_timings, after_scan, after_homography, after_convert,
  process_frame,
}

-- The names that `process_frame` pushes, in order.
abbrev pub stages : List Bytes
stages =
    bytes "img_convert"
    ∷ bytes "determine_homography"
    ∷ bytes "debug_img_setup"
    ∷ bytes "laser_scan_init"
    ∷ bytes "laser_scan"
    ∷ []

-- The pushes of the first `k` stages.
abbrev pushes_from : (ℕ → ℤ) → ℕ → List Bytes → List Push
pushes_from clock n [] = []
pushes_from clock n (name ∷ ns) =
    record { name = name; now = clock (2 * n + 1); later = clock (2 * n + 2) }
    ∷ pushes_from clock (suc n) ns

pushed-pushes_from :
    (clock : ℕ → ℤ) (n : ℕ) (ns : List Bytes) → pushed (pushes_from clock n ns) ≡ ns
unfolding pushed
pushed-pushes_from clock n [] = refl
pushed-pushes_from clock n (x ∷ ns) = ap (λ l. x ∷ l) (pushed-pushes_from clock (suc n) ns)

-- The recorder behind a frame of the first `k` stages.
abbrev pub timed : (ℕ → ℤ) → ℕ → Recorder → Recorder
timed clock k r = frame (clock 0) (pushes_from clock 0 (take k stages)) r

timed-names :
    (clock : ℕ → ℤ) (k m : ℕ) (r : Recorder)
    → names (records r) ≡ take m stages
    → names (records (timed clock k r)) ≡ take (max k m) stages
timed-names clock k m r e =
    frame-names stages k m (clock 0) (pushes_from clock 0 (take k stages)) r
      (pushed-pushes_from clock 0 (take k stages)) e

module _ (s : Scalar) (cv : Vision s.D) where
  open s use {D}

  -- How many stages a frame gets through.
  abbrev pub stages_of : Result (Option (LaserScan D)) → ℕ
  stages_of (throws e) = 0
  stages_of (ok none) = 1
  stages_of (ok (some scan)) = 5

  print_timings-same : (now : ℤ) (l : Localizer D) → (print_timings s cv now l).timings ≡ l.timings
  print_timings-same now l =
      elim (Bool-cases (ltb_ℤ (pos 5000000000) (now -ℤ l.last_timings_print))) [
        | inl e ↦ rw e refl
        | inr e ↦ rw e refl
      ]

  abbrev Times : (ℕ → ℤ) → Recorder → Localizer D × Result (Option (LaserScan D)) → Type 0
  Times clock r out = out.0.timings ≡ timed clock (stages_of out.1) r

  after_scan-Times :
      (clock : ℕ → ℤ) (r : Recorder) (l : Localizer D) (scan : LaserScan D)
      (o : Result (LaserScan D))
      → o ≡ ok scan
      → (push_stage s cv clock (bytes "laser_scan") 4 l).timings ≡ timed clock 5 r
      → Times clock r (after_scan s cv clock l o)
  after_scan-Times clock r l scan o e h =
      rw e (print_timings-same (clock 11) (push_stage s cv clock (bytes "laser_scan") 4 l) ∙ h)

  after_homography-Times :
      (clock : ℕ → ℤ) (stamp : ℤ) (image : Picture) (l : Localizer D) (h : Option (Matrix D))
      → Times clock l.timings (
          after_homography s cv clock stamp image
            (push_stage s cv clock (bytes "img_convert") 0 (start_timing s cv clock l))
            h)
  unfolding frame push_all
  after_homography-Times clock stamp image l none = refl
  after_homography-Times clock stamp image l (some h) =
      after_scan-Times clock l.timings _ _ _ (scan_image-full s cv l.params stamp image h) refl

  after_convert-Times :
      (clock : ℕ → ℤ) (image : Result Picture) (stamp : ℤ) (info : CameraInfo D)
      (lookup : Bytes → Bytes → ℤ → Option (Transform D)) (l : Localizer D)
      → Times clock l.timings
          (after_convert s cv clock stamp info lookup (start_timing s cv clock l) image)
  unfolding frame push_all
  after_convert-Times clock (throws e) stamp info lookup l = refl
  after_convert-Times clock (ok image) stamp info lookup l =
      after_homography-Times clock stamp image l
        (get_homography s cv info (lookup info.frame_id l.params.ray_frame info.stamp))

  same_timings :
      (update : Option (Params D)) (l : Localizer D)
      → (current_params s cv update l).timings ≡ l.timings
  same_timings none l = refl
  same_timings (some params) l = refl

  -- The records of a localizer are those of the first `m` stages of a frame, in their order, if they
  -- were so before: `process_frame` leaves the records of the more stages, of those that it got
  -- through and those there were. It gets through all five if it returns a message, through one if it
  -- returns a null pointer, and through none if the conversion of the image throws.
  pub process_frame-names :
      (update : Option (Params D)) (clock : ℕ → ℤ) (image : Result Picture) (stamp : ℤ)
      (info : CameraInfo D) (lookup : Bytes → Bytes → ℤ → Option (Transform D)) (l : Localizer D)
      (m : ℕ)
      → names (records l.timings) ≡ take m stages
      → let out = process_frame s cv update clock image stamp info lookup l in
        names (records out.0.timings) ≡ take (max (stages_of out.1) m) stages
  unfolding process_frame
  process_frame-names update clock image stamp info lookup l m e =
      let now = current_params s cv update l in
      let out = after_convert s cv clock stamp info lookup (start_timing s cv clock now) image in
      let times : Times clock now.timings out =
        after_convert-Times clock image stamp info lookup now in
      ap (λ r. names (records r)) times
      ∙ timed-names clock (stages_of out.1) m now.timings
          (ap (λ r. names (records r)) (same_timings update l) ∙ e)
