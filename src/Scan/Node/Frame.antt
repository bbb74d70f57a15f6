-- ===== src/Scan/Node/Frame.antt =====
-- What one frame leaves of the localizer, and what it returns.
use tuw_spike.Base.{
  ℕ, ◌≡◌, refl, sym, ap, ◌∙◌, List, [], ◌∷◌, ◌++◌, append-nil, Option, none, some, max, take,
  Bool-cases, inl, inr,
}
use mathlib.Core.Path.{subst}
use tuw_spike.Base.Int.{ℤ, pos, ltb_ℤ, ◌-ℤ◌}
use tuw_spike.Base.Text.{bytes}
use tuw_spike.Base.Result.{Exception, Result, ok, throws}
use tuw_spike.Scan.Scalar.{Scalar, Matrix, Vision}
use tuw_spike.Scan.Edges.{Params}
use tuw_spike.Scan.Timing.{records}
use tuw_spike.Scan.Timing.Frames.{names}
use tuw_spike.Scan.Localizer.{
  Picture, LaserScan, Localizer, current_params, start_timing, push_stage, after_scan,
  after_homography, after_convert, process_frame, print_timings,
}
use tuw_spike.Scan.Localizer.Ranges.{scan_or_null, ground_to_image, process_frame-ranges}
use tuw_spike.Scan.Localizer.Stages.{stages, stages_of, process_frame-names}
use tuw_spike.Scan.Node.{Arrival, publish_scan}

module _ {D : Type 0} where
  abbrev pub newest : Option (Params D) → Params D → Params D
  newest none params = params
  newest (some changed) params = changed

  abbrev pub to_list : Option (LaserScan D) → List (LaserScan D)
  to_list none = []
  to_list (some scan) = scan ∷ []

  -- The stages that a frame gets through, by what it returns.
  abbrev pub reached : Option (LaserScan D) → ℕ
  reached none = 1
  reached (some scan) = 5

  pub publish_scan-to_list :
      (o : Option (LaserScan D)) (sent : List (LaserScan D))
      → publish_scan (ok o) sent ≡ (none, sent ++ to_list o)
  publish_scan-to_list none sent = ap (λ l. (none, l)) (sym (append-nil sent))
  publish_scan-to_list (some scan) sent = refl

module _ (s : Scalar) (cv : Vision s.D) where
  open s use {D}

  -- The message for an image under the parameters, if there is a transform to the camera.
  abbrev pub scan_for : Params D → Picture → Arrival D → Option (LaserScan D)
  scan_for params image a =
      scan_or_null s cv params a.stamp image
        (ground_to_image s cv a.info (a.lookup a.info.frame_id params.ray_frame a.info.stamp))

  current_params-newest :
      (update : Option (Params D)) (l : Localizer D)
      → (current_params s cv update l).params ≡ newest update l.params
  current_params-newest none l = refl
  current_params-newest (some changed) l = refl

  print_timings-params : (now : ℤ) (l : Localizer D) → (print_timings s cv now l).params ≡ l.params
  print_timings-params now l =
      elim (Bool-cases (ltb_ℤ (pos 5000000000) (now -ℤ l.last_timings_print))) [
        | inl e ↦ rw e refl
        | inr e ↦ rw e refl
      ]

  after_scan-params :
      (clock : ℕ → ℤ) (l : Localizer D) (o : Result (LaserScan D))
      → (after_scan s cv clock l o).0.params ≡ l.params
  after_scan-params clock l (throws e) = refl
  after_scan-params clock l (ok scan) =
      print_timings-params (clock 11) (push_stage s cv clock (bytes "laser_scan") 4 l)

  after_homography-params :
      (clock : ℕ → ℤ) (stamp : ℤ) (image : Picture) (l : Localizer D) (h : Option (Matrix D))
      → (after_homography s cv clock stamp image l h).0.params ≡ l.params
  after_homography-params clock stamp image l none = refl
  after_homography-params clock stamp image l (some h) = after_scan-params clock _ _

  after_convert-params :
      (a : Arrival D) (l : Localizer D) (image : Result Picture)
      → (after_convert s cv a.clock a.stamp a.info a.lookup l image).0.params ≡ l.params
  after_convert-params a l (throws e) = refl
  after_convert-params a l (ok image) = after_homography-params a.clock a.stamp image _ _

  abbrev pub out_of : Arrival D → Localizer D → Localizer D × Result (Option (LaserScan D))
  out_of a l = process_frame s cv a.update a.clock a.image a.stamp a.info a.lookup l

  pub process_frame-params :
      (a : Arrival D) (l : Localizer D) → (out_of a l).0.params ≡ newest a.update l.params
  unfolding process_frame
  process_frame-params a l =
      after_convert-params a (start_timing s cv a.clock (current_params s cv a.update l)) a.image
      ∙ current_params-newest a.update l

  pub out_of-accepted :
      (a : Arrival D) (l : Localizer D) (image : Picture)
      → a.image ≡ ok image
      → (out_of a l).1 ≡ ok (scan_for (newest a.update l.params) image a)
  out_of-accepted a l image e =
      subst
        (λ i.
          (process_frame s cv a.update a.clock i a.stamp a.info a.lookup l).1
          ≡ ok (scan_for (newest a.update l.params) image a))
        (sym e)
        (process_frame-ranges s cv a.update a.clock image a.stamp a.info a.lookup l
          ∙ ap (λ p. ok (scan_for p image a)) (current_params-newest a.update l))

  pub out_of-refused :
      (a : Arrival D) (l : Localizer D) (x : Exception)
      → a.image ≡ throws x
      → (out_of a l).1 ≡ throws x
  unfolding process_frame
  out_of-refused a l x e = rw e refl

  reached-stages_of : (o : Option (LaserScan D)) → stages_of s cv (ok o) ≡ reached o
  reached-stages_of none = refl
  reached-stages_of (some scan) = refl

  pub accepted-names :
      (a : Arrival D) (l : Localizer D) (image : Picture) (m : ℕ)
      → a.image ≡ ok image
      → names (records l.timings) ≡ take m stages
      → names (records (out_of a l).0.timings)
        ≡ take (max (reached (scan_for (newest a.update l.params) image a)) m) stages
  accepted-names a l image m e h =
      process_frame-names s cv a.update a.clock a.image a.stamp a.info a.lookup l m h
      ∙ ap (λ r. take (max (stages_of s cv r) m) stages) (out_of-accepted a l image e)
      ∙ ap (λ k. take (max k m) stages)
          (reached-stages_of (scan_for (newest a.update l.params) image a))

  pub refused-names :
      (a : Arrival D) (l : Localizer D) (x : Exception) (m : ℕ)
      → a.image ≡ throws x
      → names (records l.timings) ≡ take m stages
      → names (records (out_of a l).0.timings) ≡ take (max 0 m) stages
  refused-names a l x m e h =
      process_frame-names s cv a.update a.clock a.image a.stamp a.info a.lookup l m h
      ∙ ap (λ r. take (max (stages_of s cv r) m) stages) (out_of-refused a l x e)
