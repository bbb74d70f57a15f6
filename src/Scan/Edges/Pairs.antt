-- ===== src/Scan/Edges/Pairs.antt =====
-- What the search along a line finds, in two passes.
use tuw_spike.Base.{
  ◌≡◌, Bool, ◌&&◌, ◌||◌, refl, sym, ◌∙◌, List, [], ◌∷◌, ◌++◌, append_assoc, append-nil, Option,
  none, some, if◌then◌else◌, Bool-cases, inl, inr,
}
use mathlib.Core.Path.{ap₂}
use tuw_spike.Base.Int.{ℤ, pos, neg, ltb_ℤ}
use tuw_spike.Scan.Scalar.{Scalar, Vec3, Matrix, Point, Vision}
use tuw_spike.Scan.Geometry.{line_distance}
use tuw_spike.Scan.Edges.{
  Params, Pair, Search, enters, leaves, project, fits, compare_pair, visit, search_line,
  detect_edge,
}

module _ (s : Scalar) (cv : Vision s.D) (params : Params s.D) (inv : Matrix s.D) where
  open s use {D, of_int, add, mul, div, lt}

  -- The edges on a line, from a place outside or within one: an edge goes from the first place where
  -- the filter falls below the entry threshold to the first place behind it where it rises above the
  -- exit threshold. An edge that is not left does not count.
  mutual
    pub outside : List (Point × ℤ) → List (Pair s cv params)
    outside [] = []
    outside ((p, v) ∷ vs) =
        if ltb_ℤ params.edge_enter_threshold (neg v) then within p vs else outside vs

    pub within : Point → List (Point × ℤ) → List (Pair s cv params)
    within e [] = []
    within e ((p, v) ∷ vs) =
        if ltb_ℤ params.edge_exit_threshold v
        then (project s cv params inv e, project s cv params inv p) ∷ outside vs
        else within e vs

  abbrev pub edges_from : Option Point → List (Point × ℤ) → List (Pair s cv params)
  edges_from none vs = outside vs
  edges_from (some e) vs = within e vs

  -- The mean distance of the ends of two edges from the line through their starts.
  abbrev gap : Pair s cv params → Pair s cv params → D
  gap (a, b) (c, d) =
      let starts = cv.cross a c in
      mul (add (line_distance s cv starts b) (line_distance s cv starts d))
        (div (of_int (pos 1)) (of_int (pos 2)))

  -- Two edges fit if the gap is not below the least width and, unless the greatest width is
  -- negative, below that one.
  abbrev fitting : Pair s cv params → Pair s cv params → Bool
  fitting x l =
      s.le params.edge_min_width (gap x l)
      && (lt params.edge_max_width (of_int (pos 0)) || lt (gap x l) params.edge_max_width)

  -- The entry of the first edge that fits the edge of the same number on the previous ray.
  pub first_fit : List (Pair s cv params) → List (Pair s cv params) → Option (Vec3 D)
  first_fit [] last = none
  first_fit (x ∷ xs) [] = none
  first_fit (x ∷ xs) (l ∷ ls) = if fitting x l then some x.0 else first_fit xs ls

  -- The edge that is found, once one may have been detected.
  abbrev found :
      Option (Vec3 D) → List (Pair s cv params) → List (Pair s cv params) → Option (Vec3 D)
  found (some d) xs last = some d
  found none xs last = first_fit xs last

  abbrev state :
      Option (Vec3 D)
      → Option Point
      → List (Pair s cv params)
      → List (Pair s cv params)
      → Search s cv params
  state d e ps l = record { detected = d; entry = e; point_pairs = ps; previous = l }

  first_fit-nil : (xs : List (Pair s cv params)) → first_fit xs [] ≡ none
  unfolding first_fit
  first_fit-nil [] = refl
  first_fit-nil (x ∷ xs) = refl

  -- What is found behind a pair depends on what the comparison leaves.
  found-compare :
      (x : Pair s cv params) (xs last : List (Pair s cv params)) (d : Option (Vec3 D))
      → found (compare_pair s cv params x last d).0 xs (compare_pair s cv params x last d).1
        ≡ found d (x ∷ xs) last
  unfolding first_fit
  found-compare x xs [] none = first_fit-nil xs
  found-compare x xs [] (some d) = refl
  found-compare x xs (l ∷ ls) (some d) = refl
  found-compare x xs (l ∷ ls) none = elim (Bool-cases (fits s cv params x l)) [
    | inl e ↦ rw e refl
    | inr e ↦ rw e refl
  ]

  abbrev Agrees :
      Option (Vec3 D)
      → Option Point
      → List (Pair s cv params)
      → List (Pair s cv params)
      → List (Point × ℤ)
      → Search s cv params
      → Type 0
  Agrees d e ps l vs c =
      (c.point_pairs ≡ ps ++ edges_from e vs) × (c.detected ≡ found d (edges_from e vs) l)

  found-nil : (d : Option (Vec3 D)) (l : List (Pair s cv params)) → d ≡ found d [] l
  unfolding first_fit
  found-nil none l = refl
  found-nil (some d) l = refl

  search_line-Agrees :
      (vs : List (Point × ℤ)) (d : Option (Vec3 D)) (e : Option Point)
      (ps l : List (Pair s cv params))
      → Agrees d e ps l vs (search_line s cv params inv vs (state d e ps l))
  unfolding search_line visit outside within
  search_line-Agrees [] d none ps l = (sym (append-nil ps), found-nil d l)
  search_line-Agrees [] d (some e) ps l = (sym (append-nil ps), found-nil d l)
  search_line-Agrees ((p, v) ∷ vs) d none ps l = elim (Bool-cases (enters s cv params v)) [
    | inl t ↦ rw (search_line, visit, outside, t) (search_line-Agrees vs d (some p) ps l)
    | inr f ↦ rw (search_line, visit, outside, f) (search_line-Agrees vs d none ps l)
  ]
  search_line-Agrees ((p, v) ∷ vs) d (some e) ps l = elim (Bool-cases (leaves s cv params v)) [
    | inl t ↦
        let x : Pair s cv params = (project s cv params inv e, project s cv params inv p) in
        let compared = compare_pair s cv params x l d in
        let ih = search_line-Agrees vs compared.0 none (ps ++ x ∷ []) compared.1 in
        rw (search_line, visit, within, t)
          (ih.0 ∙ append_assoc ps (x ∷ []) (outside vs), ih.1 ∙ found-compare x (outside vs) l d)
    | inr f ↦ rw (search_line, visit, within, f) (search_line-Agrees vs d (some e) ps l)
  ]

  -- `detect_edge`: it keeps all the edges of the line for the next ray, and returns the entry of the
  -- first edge whose width, taken with the edge of the same number on the previous ray, is within the
  -- parameters.
  pub detect_edge-edges :
      (line : List (Point × ℤ)) (prev_ray : List (Pair s cv params))
      → detect_edge s cv params inv line prev_ray
        ≡ (first_fit (outside line) prev_ray, outside line)
  unfolding detect_edge
  detect_edge-edges line prev_ray =
      let h = search_line-Agrees line none none [] prev_ray in
      ap₂ {C = Option (Vec3 D) × List (Pair s cv params)} (λ a b. (a, b)) h.1 h.0
