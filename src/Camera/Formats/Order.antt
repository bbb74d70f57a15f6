-- ===== src/Camera/Formats/Order.antt =====
-- The order of the entries of `FORMAT_MAP` does not matter to a lookup by name.
use tuw_spike.Base.{
  ℕ, suc, ◌≡◌, ◌≢◌, ◌≤◌, refl, sym, ap, ◌∙◌, Bool, true, false, ◌&&◌, [], ◌∷◌, Option, some, ◌==◌,
  if◌then◌else◌, arith, Bool-cases, inl, inr, All, ◌+◌, ◌<◌,
}
use mathlib.Core.List.{Permᴰ}
use tuw_spike.Base.Text.{Bytes, bytes, bytes_eq, bytes_eq→eq}
use tuw_spike.Camera.Formats.{
  PixelFormat, r8, r16, rgb888, bgr888, abgr8888, argb8888, rgb161616, bgr161616, mjpeg, uyvy, yuyv,
  other_format, number, FormatMapping, convert_direct, convert_decode, convert_compressed, Table,
  Encoding, ros_mono8, ros_mono16, ros_bgr8, ros_rgb8, ros_rgba8, ros_bgra16, ros_bgr16, ros_rgb16,
  ros_yuv422, ros_yuyv, format_map, equal_range, suits, find_if, get_format_mapping,
}
use tuw_spike.Camera.Formats.Targets.{suits-named}

module _ (fmt : PixelFormat) (target : Bytes) where
  -- The entry answers the lookup.
  abbrev hit : PixelFormat × FormatMapping → Bool
  hit e = (number e.0 == number fmt) && suits target e.1

  unfoldable hits : Table → ℕ
  hits [] = 0
  hits (e ∷ t) = if hit e then suc (hits t) else hits t

  get_format_mapping-cons :
      (e : PixelFormat × FormatMapping) (t : Table)
      → get_format_mapping (e ∷ t) fmt target
        ≡ (if hit e then some e.1 else get_format_mapping t fmt target)
  unfolding get_format_mapping equal_range find_if
  get_format_mapping-cons e t = elim (Bool-cases (number e.0 == number fmt)) [
    | inl y ↦ rw y refl
    | inr n ↦ rw n refl
  ]

  abbrev cons_hits : Bool → ℕ → ℕ
  cons_hits b n = if b then suc n else n

  cons_hits-swap : (a b : Bool) (n : ℕ) → cons_hits a (cons_hits b n) ≡ cons_hits b (cons_hits a n)
  cons_hits-swap true true n = refl
  cons_hits-swap true false n = refl
  cons_hits-swap false true n = refl
  cons_hits-swap false false n = refl

  hits-Perm : {t u : Table} → Permᴰ t u → hits t ≡ hits u
  unfolding hits
  hits-Perm Permᴰ.nil = refl
  hits-Perm (Permᴰ.cons {a = a} {b = b} {l₁ = l} {l₂ = m} e p) =
      ap (λ x. cons_hits (hit x) (hits l)) e ∙ ap (cons_hits (hit b)) (hits-Perm p)
  hits-Perm (Permᴰ.swap {a = a} {b = b} {a' = c} {b' = d} {l = l} e f) =
      cons_hits-swap (hit a) (hit b) (hits l)
      ∙ ap (λ x. cons_hits (hit x) (cons_hits (hit a) (hits l))) f
      ∙ ap (λ x. cons_hits (hit c) (cons_hits (hit x) (hits l))) e
  hits-Perm (Permᴰ.trans p q) = hits-Perm p ∙ hits-Perm q

  -- One entry before what is found behind it.
  abbrev first_of : PixelFormat × FormatMapping → Option FormatMapping → Option FormatMapping
  first_of e o = if hit e then some e.1 else o

  first_of-swap :
      (a b : PixelFormat × FormatMapping) (n : ℕ) (o : Option FormatMapping)
      → cons_hits (hit a) (cons_hits (hit b) n) ≤ 1
      → first_of a (first_of b o) ≡ first_of b (first_of a o)
  first_of-swap a b n o h = elim (Bool-cases (hit a)) [
    | inr f ↦ rw f refl
    | inl t ↦ elim (Bool-cases (hit b)) [
      | inr g ↦ rw (t, g) refl
      | inl u ↦
          let two : cons_hits (hit a) (cons_hits (hit b) n) ≡ suc (suc n) = rw (t, u) refl in
          absurd (omega (arith, h, two))
    ]
  ]

  tail-hits : (e : PixelFormat × FormatMapping) (t : Table) → hits (e ∷ t) ≤ 1 → hits t ≤ 1
  unfolding hits
  tail-hits e t h = elim (Bool-cases (hit e)) [
    | inl y ↦ let more : hits (e ∷ t) ≡ suc (hits t) = rw y refl in omega (arith, h, more)
    | inr n ↦ let same : hits (e ∷ t) ≡ hits t = rw n refl in omega (arith, h, same)
  ]

  -- With at most one entry that answers, a lookup is the same in every order.
  get_format_mapping-Perm :
      {t u : Table}
      → Permᴰ t u
      → hits t ≤ 1
      → get_format_mapping t fmt target ≡ get_format_mapping u fmt target
  get_format_mapping-Perm Permᴰ.nil h = refl
  get_format_mapping-Perm (Permᴰ.cons {a = a} {b = b} {l₁ = l} {l₂ = m} e p) h =
      get_format_mapping-cons a l
      ∙ ap (first_of a) (get_format_mapping-Perm p (tail-hits a l h))
      ∙ ap (λ x. first_of x (get_format_mapping m fmt target)) e
      ∙ sym (get_format_mapping-cons b m)
  get_format_mapping-Perm (Permᴰ.swap {a = a} {b = b} {a' = c} {b' = d} {l = l} e f) h =
      let rest = get_format_mapping l fmt target in
      get_format_mapping-cons a (b ∷ l)
      ∙ ap (first_of a) (get_format_mapping-cons b l)
      ∙ first_of-swap a b (hits l) rest (unfold hits in h)
      ∙ ap (λ x. first_of x (first_of a rest)) f
      ∙ ap (λ x. first_of c (first_of x rest)) e
      ∙ ap (first_of c) (sym (get_format_mapping-cons d l))
      ∙ sym (get_format_mapping-cons c (d ∷ l))
  get_format_mapping-Perm (Permᴰ.trans {l₁ = t} {l₂ = m} {l₃ = u} p q) h =
      get_format_mapping-Perm p h ∙ get_format_mapping-Perm q (omega (arith, h, hits-Perm p))

at_most_one : (b : Bool) → (if b then 1 else 0) ≤ 1
at_most_one true = omega arith
at_most_one false = omega arith

hits-other :
    (fmt : PixelFormat) (target : Bytes) (t : Table)
    → All (λ (e : PixelFormat × FormatMapping). (number e.0 == number fmt) ≡ false) t
    → hits fmt target t ≡ 0
unfolding hits
hits-other fmt target [] h = refl
hits-other fmt target (e ∷ t) h = let ih = hits-other fmt target t h.1 in rw (h.0, ih) refl

apart : (m n : ℕ) → m < 11 → (m == 11 + n) ≡ false
apart m n h = ground arith

both-suit :
    (target a b : Bytes)
    → a ≢ b
    → target ≢ []
    → hits mjpeg target ((mjpeg, convert_decode a) ∷ (mjpeg, convert_compressed b) ∷ []) ≤ 1
unfolding hits
both-suit target a b h named = elim (Bool-cases (bytes_eq a target)) [
  | inr e ↦
      rw (suits-named target (convert_decode a) named, e)
        (at_most_one (suits target (convert_compressed b)))
  | inl e ↦ elim (Bool-cases (bytes_eq b target)) [
    | inr f ↦
        rw
          (
            suits-named target (convert_decode a) named,
            e,
            suits-named target (convert_compressed b) named,
            f,
          )
          (omega arith)
    | inl f ↦ absurd (h (bytes_eq→eq a target e ∙ sym (bytes_eq→eq b target f)))
  ]
]

module _ (ros : Encoding → Bytes) (target : Bytes) (text : ros ros_bgr8 ≢ bytes "jpeg")
    (named : target ≢ []) where
  others-apart :
      (n : ℕ)
      → All
          (λ (e : PixelFormat × FormatMapping). (number e.0 == number (other_format n)) ≡ false)
          (format_map ros)
  others-apart n = (
    apart 0 n (omega arith),
    (
      apart 1 n (omega arith),
      (
        apart 2 n (omega arith),
        (
          apart 3 n (omega arith),
          (
            apart 4 n (omega arith),
            (
              apart 5 n (omega arith),
              (
                apart 6 n (omega arith),
                (
                  apart 7 n (omega arith),
                  (
                    apart 8 n (omega arith),
                    (
                      apart 8 n (omega arith),
                      (apart 9 n (omega arith), (apart 10 n (omega arith), tt)),
                    ),
                  ),
                ),
              ),
            ),
          ),
        ),
      ),
    ),
  )

  format_map-hits : (fmt : PixelFormat) → hits fmt target (format_map ros) ≤ 1
  format_map-hits mjpeg =
      let h = both-suit target (ros ros_bgr8) (bytes "jpeg") text named in unfold hits in h
  format_map-hits (other_format n) =
      let h = hits-other (other_format n) target (format_map ros) (others-apart n) in
      omega (arith, h)
  format_map-hits r8 = unfold hits in at_most_one (suits target (convert_direct (ros ros_mono8)))
  format_map-hits r16 = unfold hits in at_most_one (suits target (convert_direct (ros ros_mono16)))
  format_map-hits rgb888 = unfold hits in at_most_one (suits target (convert_direct (ros ros_bgr8)))
  format_map-hits bgr888 = unfold hits in at_most_one (suits target (convert_direct (ros ros_rgb8)))
  format_map-hits abgr8888 =
      unfold hits in at_most_one (suits target (convert_direct (ros ros_rgba8)))
  format_map-hits argb8888 =
      unfold hits in at_most_one (suits target (convert_direct (ros ros_bgra16)))
  format_map-hits rgb161616 =
      unfold hits in at_most_one (suits target (convert_direct (ros ros_bgr16)))
  format_map-hits bgr161616 =
      unfold hits in at_most_one (suits target (convert_direct (ros ros_rgb16)))
  format_map-hits uyvy = unfold hits in at_most_one (suits target (convert_direct (ros ros_yuv422)))
  format_map-hits yuyv = unfold hits in at_most_one (suits target (convert_direct (ros ros_yuyv)))

-- For a target that is named, `get_format_mapping` finds the same mapping in whatever order the container
-- holds the entries of `FORMAT_MAP`, if the text of BGR8 is not "jpeg": no format has two entries with
-- one ROS format.
pub get_format_mapping-any_order :
    (ros : Encoding → Bytes) (table : Table) (fmt : PixelFormat) (target : Bytes)
    → ros ros_bgr8 ≢ bytes "jpeg"
    → target ≢ []
    → Permᴰ (format_map ros) table
    → get_format_mapping table fmt target ≡ get_format_mapping (format_map ros) fmt target
get_format_mapping-any_order ros table fmt target text named p =
    sym (get_format_mapping-Perm fmt target p (format_map-hits ros target text named fmt))
