-- ===== src/Camera/Controls/Shapes.antt =====
-- `control_value_converter` for rectangles and sizes, of
-- tuw_libcamera/src/capture/camera_controls_handler.cpp: lists of int64_t as parameters.
use tuw_spike.Base.{
  ℕ, ◌-◌, ◌%◌, ◌^◌, ◌<◌, ◌≡◌, refl, Bool, true, false, ◌||◌, List, [], ◌∷◌, if◌then◌else◌, arith,
}
use tuw_spike.Base.Int.{ℤ, pos, negsuc}
use tuw_spike.Base.Words.{wrap32, IsInt32}
use tuw_spike.Base.Result.{domain_error, Result, ok, throws}

-- `libcamera::Rectangle`: two ints and two unsigned ints.
pub record Rectangle : Type 0 where
  pub x : ℤ
  pub y : ℤ
  pub width : ℕ
  pub height : ℕ

pub record Size : Type 0 where
  pub width : ℕ
  pub height : ℕ

-- The conversion of an int64_t to unsigned int.
abbrev pub to_unsigned : ℤ → ℕ
to_unsigned (pos n) = n % 2 ^ 32
to_unsigned (negsuc n) = 2 ^ 32 - 1 - n % 2 ^ 32

abbrev is_negative : ℤ → Bool
is_negative (pos n) = false
is_negative (negsuc n) = true

unfoldable pub rectangle_from_parameter : List ℤ → Result Rectangle
rectangle_from_parameter (x ∷ y ∷ w ∷ h ∷ []) =
    if is_negative w || is_negative h
    then throws domain_error
    else ok (record { x = wrap32 x; y = wrap32 y; width = to_unsigned w; height = to_unsigned h })
rectangle_from_parameter param = throws domain_error

unfoldable pub rectangle_to_parameter : Rectangle → List ℤ
rectangle_to_parameter r = r.x ∷ r.y ∷ pos r.width ∷ pos r.height ∷ []

unfoldable pub size_from_parameter : List ℤ → Result Size
size_from_parameter (w ∷ h ∷ []) =
    if is_negative w || is_negative h
    then throws domain_error
    else ok (record { width = to_unsigned w; height = to_unsigned h })
size_from_parameter param = throws domain_error

unfoldable pub size_to_parameter : Size → List ℤ
size_to_parameter s = pos s.width ∷ pos s.height ∷ []

pub record IsRectangle (r : Rectangle) : Type 0 where
  pub x_int : IsInt32 r.x
  pub y_int : IsInt32 r.y
  pub width_unsigned : r.width < 2 ^ 32
  pub height_unsigned : r.height < 2 ^ 32

wrap32-IsInt32 : (z : ℤ) → IsInt32 z → wrap32 z ≡ z
wrap32-IsInt32 z h = ground arith

-- Every rectangle of the library survives the way into a parameter and back.
pub rectangle_roundtrip :
    (r : Rectangle) → IsRectangle r → rectangle_from_parameter (rectangle_to_parameter r) ≡ ok r
unfolding rectangle_from_parameter rectangle_to_parameter
rectangle_roundtrip r h = ground (arith, wrap32-IsInt32 r.x h.x_int, wrap32-IsInt32 r.y h.y_int)

-- A parameter that is accepted for a rectangle has four values, of which the last two are not
-- negative; the width and the height are those modulo 2^32, so a parameter of 2^32 becomes 0.
pub rectangle_from_parameter-ok :
    (param : List ℤ) (r : Rectangle)
    → rectangle_from_parameter param ≡ ok r
    → (x : ℤ) × (y : ℤ) × (w : ℕ) × (h : ℕ) × (param ≡ x ∷ y ∷ pos w ∷ pos h ∷ [])
      × (r.width ≡ w % 2 ^ 32)
      × (r.height ≡ h % 2 ^ 32)
unfolding rectangle_from_parameter
rectangle_from_parameter-ok [] r e = cc
rectangle_from_parameter-ok (x ∷ []) r e = cc
rectangle_from_parameter-ok (x ∷ y ∷ []) r e = cc
rectangle_from_parameter-ok (x ∷ y ∷ w ∷ []) r e = cc
rectangle_from_parameter-ok (x ∷ y ∷ pos w ∷ pos h ∷ []) r e =
    (x, y, w, h, refl, ground arith, ground arith)
rectangle_from_parameter-ok (x ∷ y ∷ pos w ∷ negsuc h ∷ []) r e = cc
rectangle_from_parameter-ok (x ∷ y ∷ negsuc w ∷ h ∷ []) r e = cc
rectangle_from_parameter-ok (x ∷ y ∷ w ∷ h ∷ z ∷ more) r e = cc
