-- ===== src/Camera/Streams.antt =====
-- tuw_libcamera/src/capture/stream_handler.cpp: the messages that a stream publishes.
pub mod Published
use tuw_spike.Base.{
  ℕ, ◌+◌, ◌*◌, ◌%◌, ◌^◌, Bool, true, false, List, [], ◌∷◌, ◌++◌, Option, none, some, length,
  replicate, ◌==◌, if◌then◌else◌,
}
use tuw_spike.Base.Text.{Bytes, bytes, bytes_eq}
use tuw_spike.Base.Result.{runtime_error, Result, ok, throws}
use tuw_spike.Camera.Formats.{
  PixelFormat, FormatMapping, convert_direct, convert_decode, convert_compressed, Encoding,
  ros_bgr8, Table, get_format_mapping,
}

-- `libcamera::StreamConfiguration`, and the parameters of a stream that are read here.
pub record StreamConfiguration : Type 0 where
  pub pixel_format : PixelFormat
  pub config_width : ℕ
  pub config_height : ℕ
  pub config_stride : ℕ

pub record StreamParams : Type 0 where
  pub sub_topic : Bytes
  pub target_format : Bytes

unfoldable pub topic_name : StreamParams → Bytes → Bytes
topic_name params suffix =
    let base = if length params.sub_topic == 0 then [] else params.sub_topic ++ bytes "/" in
    base ++ bytes "image" ++ (if length suffix == 0 then [] else bytes "/" ++ suffix)

-- The members of the three handlers; `topic` is that of `publisher`.
pub record Direct : Type 0 where
  pub topic : Bytes
  pub ros_format : Bytes
  pub width : ℕ
  pub height : ℕ
  pub stride : ℕ

pub record Compressed : Type 0 where
  pub topic : Bytes
  pub ros_format : Bytes
  pub width : ℕ
  pub height : ℕ

pub record Decoder : Type 0 where
  pub topic : Bytes
  pub width : ℕ
  pub height : ℕ
  pub stride : ℕ
  pub decompressed_size : ℕ

-- `StreamHandler`
pub data StreamHandler : Type 0 where
  direct : Direct → StreamHandler
  compressed : Compressed → StreamHandler
  decoder : Decoder → StreamHandler

-- `sensor_msgs::msg::Image` and `CompressedImage`, with the topic they go to. `H` is a header.
pub record Image (H : Type 0) : Type 0 where
  pub image_topic : Bytes
  pub image_data : Bytes
  pub encoding : Bytes
  pub image_width : ℕ
  pub image_height : ℕ
  pub step : ℕ
  pub is_bigendian : Bool
  pub header : H

pub record CompressedImage (H : Type 0) : Type 0 where
  pub compressed_topic : Bytes
  pub compressed_data : Bytes
  pub format : Bytes
  pub compressed_header : H

pub data Message (H : Type 0) : Type 0 where
  image : Image H → Message H
  compressed_image : CompressedImage H → Message H

-- What `cv::imdecode` makes of `dst`: its sizes, and the decoded pixels, if they stand in the message.
pub record Decoded : Type 0 where
  pub rows : ℕ
  pub cols : ℕ
  pub in_place : Option Bytes

-- `width * height * CHANNELS` and `width * CHANNELS` on uint32_t.
abbrev pub mul32 : ℕ → ℕ → ℕ
mul32 a b = a * b % 2 ^ 32

abbrev pub channels : ℕ
channels = 3

-- The constructors.
abbrev pub create_direct : StreamConfiguration → StreamParams → Bytes → Direct
create_direct cfg params fmt = record {
  topic = topic_name params [];
  ros_format = fmt;
  width = cfg.config_width;
  height = cfg.config_height;
  stride = cfg.config_stride;
}

abbrev pub create_compressed : StreamConfiguration → StreamParams → Bytes → Compressed
create_compressed cfg params fmt = record {
  topic = topic_name params (bytes "compressed");
  ros_format = fmt;
  width = cfg.config_width;
  height = cfg.config_height;
}

abbrev pub decoder_members : StreamConfiguration → StreamParams → Decoder
decoder_members cfg params = record {
  topic = topic_name params [];
  width = cfg.config_width;
  height = cfg.config_height;
  stride = mul32 cfg.config_width channels;
  decompressed_size = mul32 (mul32 cfg.config_width cfg.config_height) channels;
}

abbrev pub create_decoder :
    (Encoding → Bytes) → StreamConfiguration → StreamParams → Bytes → Result Decoder
create_decoder ros cfg params fmt =
    if bytes_eq fmt (ros ros_bgr8) then ok (decoder_members cfg params) else throws runtime_error

abbrev pub decoder_or_throw : Result Decoder → Result StreamHandler
decoder_or_throw (throws e) = throws e
decoder_or_throw (ok d) = ok (decoder d)

-- `StreamFactory`
abbrev pub visit_mapping :
    (Encoding → Bytes) → StreamConfiguration → StreamParams → FormatMapping → Result StreamHandler
visit_mapping ros cfg params (convert_direct fmt) = ok (direct (create_direct cfg params fmt))
visit_mapping ros cfg params (convert_compressed fmt) =
    ok (compressed (create_compressed cfg params fmt))
visit_mapping ros cfg params (convert_decode fmt) =
    decoder_or_throw (create_decoder ros cfg params fmt)

abbrev pub visit_or_throw :
    (Encoding → Bytes)
    → StreamConfiguration
    → StreamParams
    → Option FormatMapping
    → Result StreamHandler
visit_or_throw ros cfg params none = throws runtime_error
visit_or_throw ros cfg params (some mapping) = visit_mapping ros cfg params mapping

-- `create_stream_handler`, over the table and the texts of the encodings. The text of the error is
-- left out.
unfoldable pub create_stream_handler :
    Table → (Encoding → Bytes) → StreamConfiguration → StreamParams → Result StreamHandler
create_stream_handler table ros cfg params =
    visit_or_throw ros cfg params (get_format_mapping table cfg.pixel_format params.target_format)

module _ {H : Type 0} where
  -- The message behind `imdecode`. A failing `assert` ends the program: there is no message.
  abbrev pub decoded_message :
      (Encoding → Bytes) → Decoder → H → ℕ → ℕ → Option Bytes → Option (Message H)
  decoded_message ros h header rows cols none = none
  decoded_message ros h header rows cols (some pixels) = some (
      image (record {
        image_topic = h.topic;
        image_data = pixels;
        encoding = ros ros_bgr8;
        image_width = cols;
        image_height = rows;
        step = h.stride;
        is_bigendian = false;
        header = header;
      }))

  -- The three `publish_buffer`, on the bytes of a buffer.
  abbrev pub publish_direct : Direct → Bytes → H → Image H
  publish_direct h buffer header = record {
    image_topic = h.topic;
    image_data = buffer;
    encoding = h.ros_format;
    image_width = h.width;
    image_height = h.height;
    step = h.stride;
    is_bigendian = false;
    header = header;
  }

  abbrev pub publish_compressed : Compressed → Bytes → H → CompressedImage H
  publish_compressed h buffer header = record {
    compressed_topic = h.topic;
    compressed_data = buffer;
    format = h.ros_format;
    compressed_header = header;
  }

  -- `imdecode` takes the bytes, the sizes of `dst` and the data of the message, which `resize` has
  -- filled with 0.
  abbrev pub publish_decoded :
      (Encoding → Bytes)
      → (Bytes → ℕ → ℕ → Bytes → Decoded)
      → Decoder
      → Bytes
      → H
      → Option (Message H)
  publish_decoded ros imdecode h buffer header =
      let dst = imdecode buffer h.height h.width (replicate h.decompressed_size 0) in
      decoded_message ros h header dst.rows dst.cols dst.in_place

  -- The virtual `publish_buffer`.
  unfoldable pub publish_buffer :
      (Encoding → Bytes)
      → (Bytes → ℕ → ℕ → Bytes → Decoded)
      → StreamHandler
      → Bytes
      → H
      → Option (Message H)
  publish_buffer ros imdecode (direct h) buffer header =
      some (image (publish_direct h buffer header))
  publish_buffer ros imdecode (compressed h) buffer header =
      some (compressed_image (publish_compressed h buffer header))
  publish_buffer ros imdecode (decoder h) buffer header =
      publish_decoded ros imdecode h buffer header
