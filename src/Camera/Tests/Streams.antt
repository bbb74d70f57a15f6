-- ===== src/Camera/Tests/Streams.antt =====
-- A stream of compressed frames that are decoded, at concrete inputs.
use tuw_spike.Base.{◌≢◌, ap, get_or, [], ◌∷◌, ℕ, ◌≡◌, ◌⊎◌, refl, false, some, replicate, arith}
use tuw_spike.Base.Text.{Bytes, bytes}
use tuw_spike.Base.Result.{runtime_error, ok, throws}
use mathlib.Core.List.{Permᴰ}
use tuw_spike.Camera.Formats.Order.{get_format_mapping-any_order}
use tuw_spike.Camera.Formats.{
  Table, convert_direct, convert_decode, convert_compressed, r8, r16, rgb888, bgr888, abgr8888,
  argb8888, rgb161616, bgr161616, uyvy, yuyv, ros_mono8, ros_mono16, ros_rgb8, ros_rgba8,
  ros_bgra16, ros_bgr16, ros_rgb16, ros_yuv422, ros_yuyv, Encoding, ros_bgr8, mjpeg, format_map,
  equal_range, find_if, get_format_mapping, get_target_formats,
}
use tuw_spike.Camera.Formats.Targets.{Occurs}
use tuw_spike.Camera.Streams.{
  StreamConfiguration, StreamParams, StreamHandler, decoder, Message, image, Decoded,
  decoder_members, topic_name, create_stream_handler, publish_buffer,
}
use tuw_spike.Camera.Streams.Published.{
  IsDecodable, create_stream_handler-throws, IsSized, encoding_of, Fills, StaysInPlace,
  publish_buffer-IsProper,
}

abbrev pub ros : Encoding → Bytes
ros ros_bgr8 = bytes "bgr8"
ros e = bytes "other"

abbrev pub cfg : StreamConfiguration
cfg = record { pixel_format = mjpeg; config_width = 2; config_height = 1; config_stride = 0 }

abbrev pub params : StreamParams
params = record { sub_topic = bytes "left"; target_format = bytes "bgr8" }

-- A decoder that leaves the matrix as it is.
abbrev imdecode : Bytes → ℕ → ℕ → Bytes → Decoded
imdecode buffer h w old = record { rows = h; cols = w; in_place = some old }

imdecode-StaysInPlace : StaysInPlace imdecode
unfolding StaysInPlace
imdecode-StaysInPlace buffer h w old new e = (cc e, refl, refl)

create_stream_handler-throws_example :
    ((create_stream_handler (format_map ros) ros cfg params ≡ throws runtime_error)
      × ¬ (Occurs (bytes "bgr8") (get_target_formats (format_map ros) mjpeg)))
    ⊎ ((h : StreamHandler) × (create_stream_handler (format_map ros) ros cfg params ≡ ok h)
        × Occurs (bytes "bgr8") (get_target_formats (format_map ros) mjpeg))
unfolding IsDecodable equal_range
create_stream_handler-throws_example =
    create_stream_handler-throws ros cfg params (format_map ros) (λ e. cc e) (refl, (tt, tt))

abbrev frame : Message ℕ
frame = image (record {
  image_topic = bytes "left/image";
  image_data = replicate 6 0;
  encoding = bytes "bgr8";
  image_width = 2;
  image_height = 1;
  step = 6;
  is_bigendian = false;
  header = 7;
})

publish_buffer-IsProper_example : IsSized frame × (encoding_of frame ≡ bytes "bgr8")
unfolding create_stream_handler get_format_mapping equal_range find_if publish_buffer Fills
    topic_name
publish_buffer-IsProper_example =
    publish_buffer-IsProper ros imdecode (format_map ros) cfg params
      (decoder (decoder_members cfg params)) (bytes "jpeg") 7 frame (λ e. cc e) refl (omega arith)
      imdecode-StaysInPlace tt refl

-- The two entries of MJPEG in the other order.
abbrev reordered : Table
reordered =
    (r8, convert_direct (ros ros_mono8))
    ∷ (r16, convert_direct (ros ros_mono16))
    ∷ (rgb888, convert_direct (ros ros_bgr8))
    ∷ (bgr888, convert_direct (ros ros_rgb8))
    ∷ (abgr8888, convert_direct (ros ros_rgba8))
    ∷ (argb8888, convert_direct (ros ros_bgra16))
    ∷ (rgb161616, convert_direct (ros ros_bgr16))
    ∷ (bgr161616, convert_direct (ros ros_rgb16))
    ∷ (mjpeg, convert_compressed (bytes "jpeg"))
    ∷ (mjpeg, convert_decode (ros ros_bgr8))
    ∷ (uyvy, convert_direct (ros ros_yuv422))
    ∷ (yuyv, convert_direct (ros ros_yuyv))
    ∷ []

reordered-Perm : Permᴰ (format_map ros) reordered
reordered-Perm = Permᴰ.cons refl (
    Permᴰ.cons refl (
      Permᴰ.cons refl (
        Permᴰ.cons refl (
          Permᴰ.cons refl
            (Permᴰ.cons refl (Permᴰ.cons refl (Permᴰ.cons refl (Permᴰ.swap refl refl))))))))

other_text : ros ros_bgr8 ≢ bytes "jpeg"
other_text e = let first : 98 ≡ 106 = ap (λ l. get_or l 0 0) e in absurd (omega (arith, first))

get_format_mapping-any_order_example :
    get_format_mapping reordered mjpeg (bytes "jpeg")
    ≡ get_format_mapping (format_map ros) mjpeg (bytes "jpeg")
get_format_mapping-any_order_example =
    get_format_mapping-any_order ros reordered mjpeg (bytes "jpeg") other_text (λ e. cc e)
      reordered-Perm
