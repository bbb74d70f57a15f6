-- ===== src/Scan/Node.antt =====
-- The node of tuw_camera_laserscan/src/ray_localizer_node.cpp, and the constructor of `RayLocalizer`.
pub mod Frame
pub mod Published
use tuw_spike.Base.{ℕ, List, [], ◌∷◌, ◌++◌, Option, none, some}
use tuw_spike.Base.Int.{ℤ}
use tuw_spike.Base.Text.{Bytes}
use tuw_spike.Base.Result.{Exception, Result, ok, throws}
use tuw_spike.Scan.Scalar.{Scalar, Vision}
use tuw_spike.Scan.Edges.{Params}
use tuw_spike.Scan.Localizer.{Picture, CameraInfo, Transform, LaserScan, Localizer, process_frame}

-- The constructor of `RayLocalizer`, over the parameters and the clock. The iterator of the timings is
-- set by their first `start`.
abbrev pub create_localizer : {D : Type 0} → Params D → ℤ → Localizer D
create_localizer params now = record {
  params = params;
  timings = record { last_time = now; before = []; rest = [] };
  last_timings_print = now;
}

-- What comes with a call of the camera callback: the changed parameters, the readings of the clock, the
-- image that `toCvShare` returns or its exception, the stamp, the camera, and `lookupTransform`.
pub record Arrival (D : Type 0) : Type 0 where
  pub update : Option (Params D)
  pub clock : ℕ → ℤ
  pub image : Result Picture
  pub stamp : ℤ
  pub info : CameraInfo D
  pub lookup : Bytes → Bytes → ℤ → Option (Transform D)

-- The localizer that the callback holds, and the messages on `laser_scan`.
pub record Node (D : Type 0) : Type 0 where
  pub ray_localizer : Localizer D
  pub laser_scan_pub : List (LaserScan D)

abbrev pub create_node : {D : Type 0} → Params D → ℤ → Node D
create_node params now = record { ray_localizer = create_localizer params now; laser_scan_pub = [] }

-- `if (auto scan = ...) laser_scan_pub->publish(scan)`
abbrev pub publish_scan :
    {D : Type 0}
    → Result (Option (LaserScan D))
    → List (LaserScan D)
    → Option Exception × List (LaserScan D)
publish_scan (throws e) sent = (some e, sent)
publish_scan (ok none) sent = (none, sent)
publish_scan (ok (some scan)) sent = (none, sent ++ scan ∷ [])

module _ (s : Scalar) (cv : Vision s.D) where
  open s use {D}

  -- The callback of the camera subscription.
  unfoldable pub on_frame : Arrival D → Node D → Option Exception × Node D
  on_frame a n =
      let out =
        process_frame s cv a.update a.clock a.image a.stamp a.info a.lookup n.ray_localizer in
      let sent = publish_scan out.1 n.laser_scan_pub in
      (sent.0, record { ray_localizer = out.0; laser_scan_pub = sent.1 })

  -- The callback for each frame, until one throws, which ends the program.
  unfoldable pub on_frames : List (Arrival D) → Node D → Option Exception × Node D
  on_frames [] n = (none, n)
  on_frames (a ∷ more) n =
      let r = on_frame a n in elim r.0 [ some e ↦ (some e, r.1) | none ↦ on_frames more r.1 ]
