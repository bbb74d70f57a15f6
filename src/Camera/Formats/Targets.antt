-- ===== src/Camera/Formats/Targets.antt =====
-- The two functions of the table agree.
use tuw_spike.Base.{
  ◌≡◌, ◌≢◌, refl, sym, ap, false, List, [], ◌∷◌, Option, none, some, arith, Bool-cases, inl, inr,
  ◌⊎◌,
}
use tuw_spike.Base.Text.{Bytes, bytes_eq, bytes_eq_refl, bytes_eq→eq}
use tuw_spike.Camera.Formats.{
  PixelFormat, FormatMapping, ros_format, Table, equal_range, suits, find_if, get_format_mapping,
  formats_of, get_target_formats,
}

-- Occurrence in a list.
unfoldable pub Occurs : {A : Type 0} → A → List A → Type 0
Occurs a [] = ⊥
Occurs a (x ∷ xs) = (a ≡ x) ⊎ Occurs a xs

pub suits-named :
    (target : Bytes) (m : FormatMapping)
    → target ≢ []
    → suits target m ≡ bytes_eq (ros_format m) target
suits-named [] m h = absurd (h refl)
suits-named (b ∷ target) m h = ground arith

-- What a lookup for a target answers: none, where the target is not one of the formats, or else one
-- of the mappings, whose format is the target, which is then one of the formats.
unfoldable Answers : Bytes → List FormatMapping → Option FormatMapping → Type 0
Answers target ms none = ¬ (Occurs target (formats_of ms))
Answers target ms (some m) = Occurs m ms × (ros_format m ≡ target) × Occurs target (formats_of ms)

later :
    (target : Bytes) (m : FormatMapping) (ms : List FormatMapping) (o : Option FormatMapping)
    → target ≢ ros_format m
    → Answers target ms o
    → Answers target (m ∷ ms) o
unfolding Answers Occurs formats_of
later target m ms none h a = λ x. elim x [ inl e ↦ h e | inr y ↦ a y ]
later target m ms (some n) h a = (inr a.0, a.1, inr a.2)

found :
    (target : Bytes) (m : FormatMapping) (ms : List FormatMapping)
    → ros_format m ≡ target
    → Answers target (m ∷ ms) (some m)
unfolding Answers Occurs formats_of
found target m ms e = (inl refl, e, inl (sym e))

differs :
    (target : Bytes) (m : FormatMapping)
    → bytes_eq (ros_format m) target ≡ false
    → target ≢ ros_format m
differs target m e q =
    let same = bytes_eq_refl target in cc (e, same, ap (λ x. bytes_eq x target) q)

Answers-nil : (target : Bytes) → Answers target [] none
unfolding Answers Occurs formats_of
Answers-nil target = λ x. x

find_if-Answers :
    (target : Bytes) (ms : List FormatMapping)
    → target ≢ []
    → Answers target ms (find_if (suits target) ms)
unfolding find_if
find_if-Answers target [] h = Answers-nil target
find_if-Answers target (m ∷ ms) h =
    let ih = find_if-Answers target ms h in
    elim (Bool-cases (bytes_eq (ros_format m) target)) [
      | inl e ↦
          rw (suits-named target m h, e) (found target m ms (bytes_eq→eq (ros_format m) target e))
      | inr e ↦ rw (suits-named target m h, e) (later target m ms _ (differs target m e) ih)
    ]

Answers-split :
    (target : Bytes) (ms : List FormatMapping) (o : Option FormatMapping)
    → Answers target ms o
    → ((o ≡ none) × ¬ (Occurs target (formats_of ms)))
      ⊎ ((m : FormatMapping) × (o ≡ some m)
          × Occurs m ms
          × (ros_format m ≡ target)
          × Occurs target (formats_of ms))
unfolding Answers
Answers-split target ms none a = inl (refl, a)
Answers-split target ms (some m) a = inr (m, refl, a.0, a.1, a.2)

-- In whatever order the table holds its entries: for a target that is named,
-- `get_format_mapping` finds nothing exactly if the target is none of `get_target_formats`, and what
-- it finds is a mapping of the pixel format whose ROS format is the target.
pub get_format_mapping-named :
    (table : Table) (fmt : PixelFormat) (target : Bytes)
    → target ≢ []
    → ((get_format_mapping table fmt target ≡ none)
        × ¬ (Occurs target (get_target_formats table fmt)))
      ⊎ ((m : FormatMapping) × (get_format_mapping table fmt target ≡ some m)
          × Occurs m (equal_range table fmt)
          × (ros_format m ≡ target)
          × Occurs target (get_target_formats table fmt))
unfolding get_format_mapping get_target_formats
get_format_mapping-named table fmt target h =
    Answers-split target (equal_range table fmt) _
      (find_if-Answers target (equal_range table fmt) h)
