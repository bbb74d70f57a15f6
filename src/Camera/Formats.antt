-- ===== src/Camera/Formats.antt =====
-- tuw_libcamera/src/capture/convert.cpp: which ROS encodings a pixel format of libcamera has.
pub mod Targets
pub mod Order
use tuw_spike.Base.{
  ℕ, ◌+◌, ◌≡◌, Bool, true, false, ◌||◌, List, [], ◌∷◌, Option, none, some, ◌==◌, if◌then◌else◌,
  length,
}
use tuw_spike.Base.Text.{Bytes, bytes, bytes_eq}

-- The pixel formats of libcamera, by the names that the table uses.
pub data PixelFormat : Type 0 where
  r8 r16 rgb888 bgr888 abgr8888 argb8888 rgb161616 bgr161616 mjpeg uyvy yuyv : PixelFormat
  other_format : ℕ → PixelFormat

abbrev pub number : PixelFormat → ℕ
number r8 = 0
number r16 = 1
number rgb888 = 2
number bgr888 = 3
number abgr8888 = 4
number argb8888 = 5
number rgb161616 = 6
number bgr161616 = 7
number mjpeg = 8
number uyvy = 9
number yuyv = 10
number (other_format n) = 11 + n

-- `FormatMapping`
pub data FormatMapping : Type 0 where
  convert_direct convert_decode convert_compressed : Bytes → FormatMapping

abbrev pub ros_format : FormatMapping → Bytes
ros_format (convert_direct f) = f
ros_format (convert_decode f) = f
ros_format (convert_compressed f) = f

abbrev pub Table : Type 0
Table = List (PixelFormat × FormatMapping)

-- The names of `sensor_msgs::image_encodings` that the table uses; their texts are that package's.
pub data Encoding : Type 0 where
  ros_mono8 ros_mono16 ros_bgr8 ros_rgb8 ros_rgba8 ros_bgra16 ros_bgr16 ros_rgb16 ros_yuv422
        ros_yuyv :
      Encoding

-- `FORMAT_MAP`, in the order in which the source lists it. The entries of a format may follow each
-- other in another order in the container, so the functions below take the table that it holds.
abbrev pub format_map : (Encoding → Bytes) → Table
format_map ros =
    (r8, convert_direct (ros ros_mono8))
    ∷ (r16, convert_direct (ros ros_mono16))
    ∷ (rgb888, convert_direct (ros ros_bgr8))
    ∷ (bgr888, convert_direct (ros ros_rgb8))
    ∷ (abgr8888, convert_direct (ros ros_rgba8))
    ∷ (argb8888, convert_direct (ros ros_bgra16))
    ∷ (rgb161616, convert_direct (ros ros_bgr16))
    ∷ (bgr161616, convert_direct (ros ros_rgb16))
    ∷ (mjpeg, convert_decode (ros ros_bgr8))
    ∷ (mjpeg, convert_compressed (bytes "jpeg"))
    ∷ (uyvy, convert_direct (ros ros_yuv422))
    ∷ (yuyv, convert_direct (ros ros_yuyv))
    ∷ []

-- `FORMAT_MAP.equal_range(fmt)`
unfoldable pub equal_range : Table → PixelFormat → List FormatMapping
equal_range [] fmt = []
equal_range (e ∷ table) fmt =
    let rest = equal_range table fmt in if number e.0 == number fmt then e.1 ∷ rest else rest

-- The test of `find_if`.
abbrev pub suits : Bytes → FormatMapping → Bool
suits target m = (length target == 0) || bytes_eq (ros_format m) target

unfoldable pub find_if : (FormatMapping → Bool) → List FormatMapping → Option FormatMapping
find_if p [] = none
find_if p (m ∷ ms) = let rest = find_if p ms in if p m then some m else rest

unfoldable pub get_format_mapping : Table → PixelFormat → Bytes → Option FormatMapping
get_format_mapping table fmt target = find_if (suits target) (equal_range table fmt)

unfoldable pub formats_of : List FormatMapping → List Bytes
formats_of [] = []
formats_of (m ∷ ms) = ros_format m ∷ formats_of ms

unfoldable pub get_target_formats : Table → PixelFormat → List Bytes
get_target_formats table fmt = formats_of (equal_range table fmt)
