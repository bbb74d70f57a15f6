-- ===== src/Scan/Node/Published.antt =====
-- What the node publishes over any sequence of frames.
use tuw_spike.Base.{
  ℕ, ◌≡◌, refl, sym, ap, ◌∙◌, List, [], ◌∷◌, ◌++◌, append-nil, append_assoc, Option, none, some,
  max, take, arith, inl, inr,
}
use mathlib.Core.Path.{subst}
use tuw_spike.Base.Int.{ℤ}
use tuw_spike.Base.Result.{Exception, Result, ok, throws, Result-cases}
use tuw_spike.Scan.Scalar.{Scalar, Vision}
use tuw_spike.Scan.Edges.{Params}
use tuw_spike.Scan.Timing.{records}
use tuw_spike.Scan.Timing.Frames.{names}
use tuw_spike.Scan.Localizer.{Picture, LaserScan, Localizer}
use tuw_spike.Scan.Localizer.Stages.{stages}
use tuw_spike.Scan.Node.Frame.{
  newest, to_list, reached, scan_for, out_of, publish_scan-to_list, process_frame-params,
  out_of-accepted, out_of-refused, accepted-names, refused-names,
}
use tuw_spike.Scan.Node.{Arrival, Node, create_node, publish_scan, on_frame, on_frames}

-- What is expected of a sequence of frames.
pub record Expected (D : Type 0) : Type 0 where
  pub failure : Option Exception
  pub scans : List (LaserScan D)
  pub depth : ℕ

module _ (s : Scalar) (cv : Vision s.D) where
  open s use {D}

  -- The messages of the frames, each by its image and the newest parameters alone, up to the first image
  -- that `toCvShare` throws on; and the most stages that a frame gets through.
  unfoldable pub expected : Params D → List (Arrival D) → Expected D
  expected params [] = record { failure = none; scans = []; depth = 0 }
  expected params (a ∷ more) = elim a.image [
    | throws e ↦ record { failure = some e; scans = []; depth = 0 }
    | ok image ↦
        let now = newest a.update params in
        let scan = scan_for s cv now image a in
        let rest = expected now more in
        record {
          failure = rest.failure;
          scans = to_list scan ++ rest.scans;
          depth = max (reached scan) rest.depth;
        }
  ]

  -- A run of the node, from a node with these parameters, messages, and stages in its timings.
  record Ran (params : Params D) (sent : List (LaserScan D)) (m : ℕ) (arrivals : List (Arrival D))
      (out : Option Exception × Node D) : Type 0 where
    pub failed : out.0 ≡ (expected params arrivals).failure
    pub published : out.1.laser_scan_pub ≡ sent ++ (expected params arrivals).scans
    pub timed :
        names (records out.1.ray_localizer.timings)
        ≡ take (max (expected params arrivals).depth m) stages

  -- The node behind a frame, and the frames after it.
  abbrev node_of : Localizer D → Option Exception × List (LaserScan D) → Option Exception × Node D
  node_of l sent = (sent.0, record { ray_localizer = l; laser_scan_pub = sent.1 })

  abbrev follow : List (Arrival D) → Option Exception × Node D → Option Exception × Node D
  follow more r = elim r.0 [ some e ↦ (some e, r.1) | none ↦ on_frames s cv more r.1 ]

  on_frames-follow :
      (a : Arrival D) (more : List (Arrival D)) (n : Node D) (r : Result (Option (LaserScan D)))
      → (out_of s cv a n.ray_localizer).1 ≡ r
      → on_frames s cv (a ∷ more) n
        ≡ follow more (node_of (out_of s cv a n.ray_localizer).0 (publish_scan r n.laser_scan_pub))
  unfolding on_frames on_frame
  on_frames-follow a more n r e =
      ap
        (λ x.
          follow more (node_of (out_of s cv a n.ray_localizer).0 (publish_scan x n.laser_scan_pub)))
        e

  -- The node behind a frame whose image is accepted.
  abbrev behind : Arrival D → Picture → Node D → Node D
  behind a image n = record {
    ray_localizer = (out_of s cv a n.ray_localizer).0;
    laser_scan_pub =
        n.laser_scan_pub
        ++ to_list (scan_for s cv (newest a.update n.ray_localizer.params) image a);
  }

  on_frames-accepted :
      (a : Arrival D) (more : List (Arrival D)) (n : Node D) (image : Picture)
      → a.image ≡ ok image
      → on_frames s cv (a ∷ more) n ≡ on_frames s cv more (behind a image n)
  on_frames-accepted a more n image e =
      let scan = scan_for s cv (newest a.update n.ray_localizer.params) image a in
      on_frames-follow a more n (ok scan) (out_of-accepted s cv a n.ray_localizer image e)
      ∙ ap (λ x. follow more (node_of (out_of s cv a n.ray_localizer).0 x))
          (publish_scan-to_list scan n.laser_scan_pub)

  -- What an accepted frame adds to the others.
  abbrev with_frame : Option (LaserScan D) → Expected D → Expected D
  with_frame scan rest = record {
    failure = rest.failure;
    scans = to_list scan ++ rest.scans;
    depth = max (reached scan) rest.depth;
  }

  expected-accepted :
      (params : Params D) (a : Arrival D) (more : List (Arrival D)) (image : Picture)
      → a.image ≡ ok image
      → let now = newest a.update params in
        expected params (a ∷ more) ≡ with_frame (scan_for s cv now image a) (expected now more)
  unfolding expected
  expected-accepted params a more image e = rw e refl

  expected-refused :
      (params : Params D) (a : Arrival D) (more : List (Arrival D)) (x : Exception)
      → a.image ≡ throws x
      → expected params (a ∷ more) ≡ record { failure = some x; scans = []; depth = 0 }
  unfolding expected
  expected-refused params a more x e = rw e refl

  -- One accepted frame before the others.
  Ran-accepted :
      (params : Params D) (a : Arrival D) (more : List (Arrival D)) (image : Picture)
      (sent : List (LaserScan D)) (m : ℕ) (out : Option Exception × Node D)
      → a.image ≡ ok image
      → let now = newest a.update params in
        Ran now
          (sent ++ to_list (scan_for s cv now image a))
          (max (reached (scan_for s cv now image a)) m)
          more
          out
        → Ran params sent m (a ∷ more) out
  Ran-accepted params a more image sent m out e r =
      let step = expected-accepted params a more image e in
      let now = newest a.update params in
      let scan = scan_for s cv now image a in
      let most : max (expected now more).depth (max (reached scan) m)
          ≡ max (max (reached scan) (expected now more).depth) m =
        omega arith in
      record {
        failed = r.failed ∙ sym (ap {B = Option Exception} (λ x. x.failure) step);
        published =
            r.published
            ∙ append_assoc sent (to_list scan) (expected now more).scans
            ∙ ap (λ x. sent ++ x.scans) (sym step);
        timed =
            r.timed
            ∙ ap (λ k. take k stages) most
            ∙ ap (λ x. take (max x.depth m) stages) (sym step);
      }

  Ran-refused :
      (params : Params D) (a : Arrival D) (more : List (Arrival D)) (x : Exception)
      (l : Localizer D) (sent : List (LaserScan D)) (m : ℕ)
      → a.image ≡ throws x
      → names (records l.timings) ≡ take (max 0 m) stages
      → Ran params sent m (a ∷ more) (some x, record { ray_localizer = l; laser_scan_pub = sent })
  Ran-refused params a more x l sent m e h =
      let step = sym (expected-refused params a more x e) in
      record {
        failed = ap {B = Option Exception} (λ y. y.failure) step;
        published = sym (append-nil sent) ∙ ap (λ y. sent ++ y.scans) step;
        timed = h ∙ ap (λ y. take (max y.depth m) stages) step;
      }

  on_frames-Ran :
      (arrivals : List (Arrival D)) (n : Node D) (m : ℕ)
      → names (records n.ray_localizer.timings) ≡ take m stages
      → Ran n.ray_localizer.params n.laser_scan_pub m arrivals (on_frames s cv arrivals n)
  on_frames-Ran [] n m h =
      let same : m ≡ max 0 m = omega arith in
      unfold on_frames expected in
      record {
        failed = refl;
        published = sym (append-nil n.laser_scan_pub);
        timed = h ∙ ap (λ k. take k stages) same;
      }
  on_frames-Ran (a ∷ more) n m h = elim (Result-cases a.image) [
    | inl (image, e) ↦
        let now = newest a.update n.ray_localizer.params in
        let next = behind a image n in
        let ih =
          on_frames-Ran more next (max (reached (scan_for s cv now image a)) m)
            (accepted-names s cv a n.ray_localizer image m e h) in
        let run =
          subst
            (λ p.
              Ran p next.laser_scan_pub (max (reached (scan_for s cv now image a)) m) more
                (on_frames s cv more next))
            (process_frame-params s cv a n.ray_localizer) ih in
        subst (Ran n.ray_localizer.params n.laser_scan_pub m (a ∷ more))
          (sym (on_frames-accepted a more n image e))
          (Ran-accepted n.ray_localizer.params a more image n.laser_scan_pub m
            (on_frames s cv more next) e run)
    | inr (x, e) ↦
        subst (Ran n.ray_localizer.params n.laser_scan_pub m (a ∷ more))
          (sym (on_frames-follow a more n (throws x) (out_of-refused s cv a n.ray_localizer x e)))
          (Ran-refused n.ray_localizer.params a more x (out_of s cv a n.ray_localizer).0
            n.laser_scan_pub m e (refused-names s cv a n.ray_localizer x m e h))
  ]

  -- A node that was just constructed, over any sequence of frames. It publishes exactly the messages that
  -- are expected of each frame alone, in their order, by its image and the newest parameters, and it
  -- stops with the exception of the first image that `toCvShare` throws on, if there is one. Its timings
  -- are then the first stages, in their order and each once, as many as the deepest frame reached.
  pub on_frames-expected :
      (params : Params D) (now : ℤ) (arrivals : List (Arrival D))
      → let out = on_frames s cv arrivals (create_node params now) in
        let e = expected params arrivals in
        (out.0 ≡ e.failure)
        × (out.1.laser_scan_pub ≡ e.scans)
        × (names (records out.1.ray_localizer.timings) ≡ take e.depth stages)
  unfolding names
  on_frames-expected params now arrivals =
      let r = on_frames-Ran arrivals (create_node params now) 0 refl in
      let none_before : max (expected params arrivals).depth 0 ≡ (expected params arrivals).depth =
        omega arith in
      (r.failed, r.published, r.timed ∙ ap (λ k. take k stages) none_before)
