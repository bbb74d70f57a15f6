-- ===== src/Camera/Streams/Published.antt =====
-- What the handler of a stream publishes.
use tuw_spike.Base.{
  ℕ, zero, suc, ◌+◌, ◌*◌, ◌^◌, ◌<◌, ◌≡◌, ◌≢◌, ◌⊎◌, inl, inr, refl, sym, ap, ◌∙◌, true, List, [],
  ◌∷◌, some, length, replicate, All, Option-cases, length-replicate, Bool-cases, arith,
}
use native.Mathlib.Nat.{mul-suc, mul_right_comm}
use mathlib.Core.Path.{subst}
use mathlib.Core.Option.{some-injective}
use tuw_spike.Base.Text.{Bytes, bytes_eq, bytes_eq_refl, bytes_eq→eq}
use tuw_spike.Base.Result.{ok-injective, runtime_error, ok, throws}
use tuw_spike.Camera.Formats.{
  FormatMapping, convert_direct, convert_decode, convert_compressed, ros_format, Encoding, ros_bgr8,
  Table, equal_range, get_target_formats,
}
use tuw_spike.Camera.Formats.Targets.{Occurs, get_format_mapping-named}
use tuw_spike.Camera.Streams.{
  StreamConfiguration, StreamParams, StreamHandler, direct, compressed, decoder, Message, image,
  compressed_image, Decoded, mul32, create_direct, create_compressed, create_decoder,
  decoder_members, decoder_or_throw, visit_mapping, visit_or_throw, create_stream_handler,
  decoded_message, publish_buffer,
}

-- A mapping that decodes does so into BGR8, as the one entry of the table that decodes does.
unfoldable pub IsDecodable : (Encoding → Bytes) → FormatMapping → Type 0
IsDecodable ros (convert_decode fmt) = fmt ≡ ros ros_bgr8
IsDecodable ros m = Unit

Occurs-All : {A : Type 0} (P : A → Type 0) (a : A) (xs : List A) → Occurs a xs → All P xs → P a
unfolding Occurs
Occurs-All P a [] o h = absurd o
Occurs-All P a (x ∷ xs) (inl e) h = subst P (sym e) h.0
Occurs-All P a (x ∷ xs) (inr o) h = Occurs-All P a xs o h.1

module _ (ros : Encoding → Bytes) (cfg : StreamConfiguration) (params : StreamParams) where
  create_decoder-bgr8 :
      (fmt : Bytes)
      → fmt ≡ ros ros_bgr8
      → create_decoder ros cfg params fmt ≡ ok (decoder_members cfg params)
  create_decoder-bgr8 fmt d =
      let same : bytes_eq fmt (ros ros_bgr8) ≡ true =
        ap (λ x. bytes_eq x (ros ros_bgr8)) d ∙ bytes_eq_refl (ros ros_bgr8) in
      rw same refl

  visit_mapping-total :
      (m : FormatMapping)
      → IsDecodable ros m
      → (h : StreamHandler) × (visit_mapping ros cfg params m ≡ ok h)
  unfolding IsDecodable
  visit_mapping-total (convert_direct fmt) d = (direct (create_direct cfg params fmt), refl)
  visit_mapping-total (convert_compressed fmt) d =
      (compressed (create_compressed cfg params fmt), refl)
  visit_mapping-total (convert_decode fmt) d =
      (decoder (decoder_members cfg params), ap decoder_or_throw (create_decoder-bgr8 fmt d))

  -- `create_stream_handler` for a target that is named, if the mappings of the pixel format that
  -- decode do so into BGR8: it throws exactly if the target is none of `get_target_formats`.
  pub create_stream_handler-throws :
      (table : Table)
      → params.target_format ≢ []
      → All (IsDecodable ros) (equal_range table cfg.pixel_format)
      → ((create_stream_handler table ros cfg params ≡ throws runtime_error)
          × ¬ (Occurs params.target_format (get_target_formats table cfg.pixel_format)))
        ⊎ ((h : StreamHandler) × (create_stream_handler table ros cfg params ≡ ok h)
            × Occurs params.target_format (get_target_formats table cfg.pixel_format))
  unfolding create_stream_handler
  create_stream_handler-throws table named d =
      elim (get_format_mapping-named table cfg.pixel_format params.target_format named) [
        | inl (e, never) ↦ inl (ap (visit_or_throw ros cfg params) e, never)
        | inr (m, e, among, same, target) ↦
            let (h, made) =
              visit_mapping-total m
                (Occurs-All (IsDecodable ros) m (equal_range table cfg.pixel_format) among d) in
            inr (h, ap (visit_or_throw ros cfg params) e ∙ made, target)
      ]

module _ {H : Type 0} where
  -- The encoding of a message, or its format.
  abbrev pub encoding_of : Message H → Bytes
  encoding_of (image m) = m.encoding
  encoding_of (compressed_image m) = m.format

  -- An image has as many bytes as its rows, of `step` bytes.
  unfoldable pub IsSized : Message H → Type 0
  IsSized (image m) = length m.image_data ≡ m.step * m.image_height
  IsSized (compressed_image m) = Unit

-- The buffer of a handler has the size of its configuration; that of a decoder is any.
unfoldable pub Fills : StreamHandler → Bytes → Type 0
Fills (direct h) buffer = length buffer ≡ h.stride * h.height
Fills (compressed h) buffer = Unit
Fills (decoder h) buffer = Unit

-- `cv::imdecode` into a matrix of a size: if it stays where it is, so do its size and its bytes.
unfoldable pub StaysInPlace : (Bytes → ℕ → ℕ → Bytes → Decoded) → Type 0
StaysInPlace imdecode =
    (buffer : Bytes) (h w : ℕ) (old new : Bytes)
    → (imdecode buffer h w old).in_place ≡ some new
    → (length new ≡ length old)
      × ((imdecode buffer h w old).rows ≡ h)
      × ((imdecode buffer h w old).cols ≡ w)

size32 : (w h : ℕ) → w * h * 3 < 2 ^ 32 → mul32 (mul32 w h) 3 ≡ mul32 w 3 * h
size32 w zero b = omega arith
size32 w (suc k) b =
    let e : w * suc k ≡ w * k + w = mul-suc w k in
    let whole : mul32 (mul32 w (suc k)) 3 ≡ w * suc k * 3 = omega (arith, e) in
    let row : w * 3 ≡ mul32 w 3 = omega (arith, e) in
    whole ∙ mul_right_comm w (suc k) 3 ∙ ap (λ x. x * suc k) row

module _ {H : Type 0} (ros : Encoding → Bytes) (imdecode : Bytes → ℕ → ℕ → Bytes → Decoded) where
  -- What a message is to be: sized, and in an encoding.
  abbrev pub IsProper : Bytes → Message H → Type 0
  IsProper target m = IsSized m × (encoding_of m ≡ target)

  IsProper-some :
      (target : Bytes) (m n : Message H) → some m ≡ some n → IsProper target m → IsProper target n
  IsProper-some target m n e h = subst (IsProper target) (some-injective m n e) h

  decoder-IsProper :
      (cfg : StreamConfiguration) (params : StreamParams) (buffer : Bytes) (header : H)
      (msg : Message H)
      → cfg.config_width * cfg.config_height * 3 < 2 ^ 32
      → StaysInPlace imdecode
      → publish_buffer ros imdecode (decoder (decoder_members cfg params)) buffer header ≡ some msg
      → IsProper (ros ros_bgr8) msg
  unfolding publish_buffer IsSized StaysInPlace
  decoder-IsProper cfg params buffer header msg small stays e =
      let h = decoder_members cfg params in
      let old : Bytes = replicate h.decompressed_size 0 in
      let dst = imdecode buffer h.height h.width old in
      elim (Option-cases dst.in_place) [
        | inl x ↦ cc (e, ap (decoded_message ros h header dst.rows dst.cols) x)
        | inr (pixels, x) ↦
            let (size, rows, cols) = stays buffer h.height h.width old pixels x in
            IsProper-some (ros ros_bgr8) _ msg
              (sym (ap (decoded_message ros h header dst.rows dst.cols) x) ∙ e)
              (
                size
                    ∙ length-replicate h.decompressed_size 0
                    ∙ size32 cfg.config_width cfg.config_height small
                    ∙ ap (λ r. mul32 cfg.config_width 3 * r) (sym rows),
                refl,
              )
      ]

  made-IsProper :
      (cfg : StreamConfiguration) (params : StreamParams) (m : FormatMapping) (h : StreamHandler)
      (buffer : Bytes) (header : H) (msg : Message H)
      → visit_mapping ros cfg params m ≡ ok h
      → cfg.config_width * cfg.config_height * 3 < 2 ^ 32
      → StaysInPlace imdecode
      → Fills h buffer
      → publish_buffer ros imdecode h buffer header ≡ some msg
      → IsProper (ros_format m) msg
  unfolding publish_buffer IsSized Fills
  made-IsProper cfg params (convert_direct fmt) h buffer header msg made small stays fills e =
      let same : direct (create_direct cfg params fmt) ≡ h = ok-injective made in
      IsProper-some fmt _ msg (ap (λ g. publish_buffer ros imdecode g buffer header) same ∙ e)
        (subst (λ g. Fills g buffer) (sym same) fills, refl)
  made-IsProper cfg params (convert_compressed fmt) h buffer header msg made small stays fills e =
      let same : compressed (create_compressed cfg params fmt) ≡ h = ok-injective made in
      IsProper-some fmt _ msg (ap (λ g. publish_buffer ros imdecode g buffer header) same ∙ e)
        (tt, refl)
  made-IsProper cfg params (convert_decode fmt) h buffer header msg made small stays fills e =
      elim (Bool-cases (bytes_eq fmt (ros ros_bgr8))) [
        | inl t ↦
            let bgr8 = bytes_eq→eq fmt (ros ros_bgr8) t in
            let same : decoder (decoder_members cfg params) ≡ h =
              ok-injective
                (sym (ap decoder_or_throw (create_decoder-bgr8 ros cfg params fmt bgr8)) ∙ made) in
            subst (λ f. IsProper f msg) (sym bgr8)
              (decoder-IsProper cfg params buffer header msg small stays
                (ap (λ g. publish_buffer ros imdecode g buffer header) same ∙ e))
        | inr f ↦ cc (made, f)
      ]

  -- A stream from its configuration to its messages. If the target is named and
  -- `create_stream_handler` returns, then every message that the handler publishes has the target as
  -- its encoding or format, and the bytes of every image are `step` times its height. This holds if
  -- 3 bytes a pixel do not overflow an unsigned int, if what `imdecode` leaves in its place has the
  -- size it was given, and if a buffer that is published as it is has the size of the configuration.
  pub publish_buffer-IsProper :
      (table : Table) (cfg : StreamConfiguration) (params : StreamParams) (h : StreamHandler)
      (buffer : Bytes) (header : H) (msg : Message H)
      → params.target_format ≢ []
      → create_stream_handler table ros cfg params ≡ ok h
      → cfg.config_width * cfg.config_height * 3 < 2 ^ 32
      → StaysInPlace imdecode
      → Fills h buffer
      → publish_buffer ros imdecode h buffer header ≡ some msg
      → IsSized msg × (encoding_of msg ≡ params.target_format)
  unfolding create_stream_handler
  publish_buffer-IsProper table cfg params h buffer header msg named made small stays fills e =
      elim (get_format_mapping-named table cfg.pixel_format params.target_format named) [
        | inl (missing, never) ↦ cc (made, ap (visit_or_throw ros cfg params) missing)
        | inr (m, found, among, same, target) ↦
            let visited : visit_mapping ros cfg params m ≡ ok h =
              sym (ap (visit_or_throw ros cfg params) found) ∙ made in
            subst (λ t. IsProper t msg) same
              (made-IsProper cfg params m h buffer header msg visited small stays fills e)
      ]
