-- ===== src/Camera/Capture/Configuration.antt =====
-- `configure_camera` of `CaptureNode`, over libcamera's configuration. The warnings are left out.
use tuw_spike.Base.{◌==◌, Bool, List, [], ◌∷◌, Option, none, some, length, if◌then◌else◌}
use tuw_spike.Base.Int.{ℤ, pos, eqb_ℤ}
use tuw_spike.Camera.Controls.Shapes.{to_unsigned}
use tuw_spike.Base.Text.{Bytes, bytes, lookup}
use tuw_spike.Base.Result.{runtime_error, out_of_range, Result, ok, throws, ◌>>=◌}
use tuw_spike.Camera.Formats.{PixelFormat}
use tuw_spike.Camera.Streams.{StreamConfiguration}

-- `libcamera::StreamRole`
pub data StreamRole : Type 0 where
  raw_role video_role still_role viewfinder_role : StreamRole

-- The parameters of a stream that are read here; the sizes are int64_t.
pub record StreamSetup : Type 0 where
  pub width : ℤ
  pub height : ℤ
  pub format : Bytes

-- `CameraConfiguration::Status`
pub data Status : Type 0 where
  is_valid is_adjusted is_invalid : Status

abbrev pub role_map : List (Bytes × StreamRole)
role_map =
    (bytes "raw", raw_role)
    ∷ (bytes "video", video_role)
    ∷ (bytes "still", still_role)
    ∷ (bytes "viewfinder", viewfinder_role)
    ∷ []

-- `map::at`
abbrev pub found_or_throw : {A : Type 0} → Option A → Result A
found_or_throw none = throws out_of_range
found_or_throw (some a) = ok a

unfoldable pub roles_of : List Bytes → Result (List StreamRole)
roles_of [] = ok []
roles_of (name ∷ names) = do
  role ← found_or_throw (lookup name role_map)
  roles ← roles_of names
  ok (role ∷ roles)

-- What a stream's parameters set: sizes that are not 0, and a format that is not empty.
abbrev pub apply_setup :
    (Bytes → PixelFormat) → StreamSetup → StreamConfiguration → StreamConfiguration
apply_setup from_string p cfg = record cfg {
  config_width = if eqb_ℤ p.width (pos 0) then cfg.config_width else to_unsigned p.width;
  config_height = if eqb_ℤ p.height (pos 0) then cfg.config_height else to_unsigned p.height;
  pixel_format = if length p.format == 0 then cfg.pixel_format else from_string p.format;
}

-- The loop over the streams; the camera generates one for each role.
unfoldable pub apply_setups :
    (Bytes → PixelFormat)
    → List (Bytes × StreamSetup)
    → List Bytes
    → List StreamConfiguration
    → Result (List StreamConfiguration)
apply_setups from_string setups [] cfgs = ok cfgs
apply_setups from_string setups (name ∷ names) [] = ok []
apply_setups from_string setups (name ∷ names) (cfg ∷ cfgs) = do
  p ← found_or_throw (lookup name setups)
  rest ← apply_setups from_string setups names cfgs
  ok (apply_setup from_string p cfg ∷ rest)

abbrev pub generated : Option (List StreamConfiguration) → Result (List StreamConfiguration)
generated none = throws runtime_error
generated (some cfgs) = ok cfgs

abbrev pub validated : Status × List StreamConfiguration → Result (List StreamConfiguration)
validated (is_valid, cfgs) = ok cfgs
validated (is_adjusted, cfgs) = ok cfgs
validated (is_invalid, cfgs) = throws runtime_error

-- `configure_camera`: the configuration, over what `generateConfiguration`, `validate` (which may
-- adjust it) and `configure` do.
unfoldable pub configure_camera :
    (Bytes → PixelFormat)
    → (List StreamRole → Option (List StreamConfiguration))
    → (List StreamConfiguration → Status × List StreamConfiguration)
    → (List StreamConfiguration → Bool)
    → List (Bytes × StreamSetup)
    → List Bytes
    → Result (List StreamConfiguration)
configure_camera from_string generate validate configure setups stream_roles = do
  roles ← roles_of stream_roles
  plan ← generated (generate roles)
  adapted ← apply_setups from_string setups stream_roles plan
  cfgs ← validated (validate adapted)
  if configure cfgs then ok cfgs else throws runtime_error
