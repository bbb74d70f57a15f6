-- ===== src/Scan/Scalar.antt =====
-- What tuw_camera_laserscan takes from the language and from OpenCV: `double` with the functions of
-- <cmath>, left abstract, and vectors and matrices with the operations that the sources call.
use tuw_spike.Base.{◌≡◌, Bool, true, false, if◌then◌else◌}
use tuw_spike.Base.Int.{ℤ}

pub record Scalar : Type 1 where
  pub D : Type 0
  pub of_int : ℤ → D
  pub neg : D → D
  pub add : D → D → D
  pub sub : D → D → D
  pub mul : D → D → D
  pub div : D → D → D
  -- The tests `a < b` and `a <= b`; both fail for a NaN.
  pub lt : D → D → Bool
  pub le : D → D → Bool
  pub infinity : D
  -- DBL_EPSILON
  pub epsilon : D
  pub abs : D → D
  pub sqrt : D → D
  pub cos : D → D
  pub sin : D → D
  pub atan2 : D → D → D
  -- `static_cast<int16_t>`, and `static_cast<float>` read as a double again.
  pub to_int : D → ℤ
  pub to_float : D → D

-- `cv::Vec2d` and `cv::Point2d`, `cv::Vec3d`, `cv::Rect2d`, `cv::Point`.
pub record Vec2 (D : Type 0) : Type 0 where
  pub d0 : D
  pub d1 : D

pub record Vec3 (D : Type 0) : Type 0 where
  pub v0 : D
  pub v1 : D
  pub v2 : D

pub record Rect (D : Type 0) : Type 0 where
  pub left : D
  pub top : D
  pub width : D
  pub height : D

pub record Point : Type 0 where
  pub column : ℤ
  pub row : ℤ

-- `cv::Matx33d` by its rows.
pub record Matrix (D : Type 0) : Type 0 where
  pub r0 : Vec3 D
  pub r1 : Vec3 D
  pub r2 : Vec3 D

-- `cv::Matx34d` by its columns.
pub record Matrix34 (D : Type 0) : Type 0 where
  pub c0 : Vec3 D
  pub c1 : Vec3 D
  pub c2 : Vec3 D
  pub c3 : Vec3 D

-- The operations of OpenCV.
pub record Vision (D : Type 0) : Type 0 where
  pub cross : Vec3 D → Vec3 D → Vec3 D
  pub dot : Vec3 D → Vec3 D → D
  pub normalize : Vec2 D → Vec2 D
  pub norm : Vec2 D → D
  pub apply : Matrix D → Vec3 D → Vec3 D
  pub transpose : Matrix D → Matrix D
  pub inverse : Matrix D → Matrix D
  pub determinant : Matrix D → D
  pub times34 : Matrix D → Matrix34 D → Matrix34 D
  pub scaled : Matrix D → D → Matrix D
  -- `static_cast<cv::Point>`
  pub to_point : Vec2 D → Point

module _ (s : Scalar) where
  open s use {D, lt}

  -- `a <= b` of doubles that are no NaN.
  abbrev pub Le : D → D → Type 0
  Le a b = lt b a ≡ false

  -- `std::max` and `std::min`.
  abbrev pub max_d : D → D → D
  max_d a b = if lt a b then b else a

  abbrev pub min_d : D → D → D
  min_d a b = if lt b a then b else a

  -- The order of doubles without NaN.
  pub record OrderLaws : Type 0 where
    pub le_trans : (a b c : D) → Le a b → Le b c → Le a c
    pub le_of_lt : (a b : D) → lt a b ≡ true → Le a b
    pub le_infinity : (a : D) → Le a s.infinity
