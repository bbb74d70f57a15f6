-- ===== src/Camera/Node.antt =====
-- The constructor of `CaptureNode` (tuw_libcamera/src/capture/capture_node.cpp), which joins the
-- parts of the package.
pub mod Ready
pub mod Served
pub mod Frames
pub mod Stop
use tuw_spike.Base.{
  ℕ, zero, suc, ◌==◌, Bool, true, false, List, [], ◌∷◌, Option, none, some, length, if◌then◌else◌,
}
use tuw_spike.Base.Int.{ℤ}
use tuw_spike.Base.Text.{Bytes, lookup}
use tuw_spike.Base.Result.{Exception, runtime_error, out_of_range, Result, ok, throws, ◌>>=◌}
use tuw_spike.Camera.Formats.{PixelFormat, Encoding, Table}
use tuw_spike.Camera.Streams.{
  StreamConfiguration, StreamParams, StreamHandler, create_stream_handler,
}
use tuw_spike.Camera.Controls.{ControlList, Handler}
use tuw_spike.Camera.Requests.{State, create, set_frame_publish_callback, start}
use tuw_spike.Camera.Capture.{Stream, allocate_buffers, create_stream_handlers, acquire_camera}
use tuw_spike.Camera.Capture.Configuration.{
  StreamRole, StreamSetup, Status, found_or_throw, configure_camera,
}

-- `Params`, with the parameters of each stream by its role.
pub record Params : Type 0 where
  pub camera : Bytes
  pub camera_info_name : Bytes
  pub stream_roles : List Bytes
  pub setups : List (Bytes × StreamSetup)
  pub topics : List (Bytes × StreamParams)

-- What libcamera does for the node: the cameras, the configuration, the number of buffers that are
-- allocated for each stream, in their order, the requests and what `addBuffer` takes, and the timestamps.
pub record Platform (P V : Type 0) : Type 0 where
  pub cameras : List Bytes
  pub from_string : Bytes → PixelFormat
  pub generate : List StreamRole → Option (List StreamConfiguration)
  pub validate : List StreamConfiguration → Status × List StreamConfiguration
  pub configure : List StreamConfiguration → Bool
  pub allocate : ℕ → Option ℕ
  pub creates : ℕ → Bool
  pub fresh_controls : ControlList V
  pub accepts : ℕ → Bool
  pub metadata : ℕ → ℤ
  -- The constructor of `CameraControlsHandler`, and the offset of the clocks.
  pub controls : Result (Handler P V)
  pub offset : ℤ
  -- `FORMAT_MAP` and the texts of the encodings.
  pub table : Table
  pub ros : Encoding → Bytes

-- The members of the node that stay, and the stream handlers.
pub record Node (P V : Type 0) : Type 0 where
  pub config : List StreamConfiguration
  pub stream_handlers : List StreamHandler
  pub request_handler : State P V

-- `params.stream_roles.at(i)`, the parameters of the role, and its stream handler.
abbrev pub handler_of :
    Table → (Encoding → Bytes) → Params → Option Bytes → StreamConfiguration → Result StreamHandler
handler_of table ros params role cfg = do
  name ← found_or_throw role
  topic ← found_or_throw (lookup name params.topics)
  create_stream_handler table ros cfg topic

abbrev pub first : List Bytes → Option Bytes
first [] = none
first (r ∷ rs) = some r

abbrev pub others : List Bytes → List Bytes
others [] = []
others (r ∷ rs) = rs

abbrev pub failure_of : Result StreamHandler → Option Exception
failure_of (ok h) = none
failure_of (throws e) = some e

-- The streams of the configuration from the stream `i` on, with the roles that are left.
unfoldable pub streams_of :
    (ℕ → Option ℕ)
    → ℕ
    → Table
    → (Encoding → Bytes)
    → Params
    → List Bytes
    → List StreamConfiguration
    → List Stream
streams_of allocate i table ros params roles [] = []
streams_of allocate i table ros params roles (cfg ∷ cfgs) =
    record {
      allocated = allocate i;
      failure = failure_of (handler_of table ros params (first roles) cfg);
    }
    ∷ streams_of allocate (suc i) table ros params (others roles) cfgs

-- The handlers that `create_stream_handlers` passes on.
unfoldable pub handlers_of :
    Table
    → (Encoding → Bytes)
    → Params
    → List Bytes
    → List StreamConfiguration
    → Result (List StreamHandler)
handlers_of table ros params roles [] = ok []
handlers_of table ros params roles (cfg ∷ cfgs) = do
  h ← handler_of table ros params (first roles) cfg
  hs ← handlers_of table ros params (others roles) cfgs
  ok (h ∷ hs)

-- Whether `createRequest` succeeds for the requests from `i` on that are left.
unfoldable pub created_from : (ℕ → Bool) → ℕ → ℕ → Result (Unit {0})
created_from creates i zero = ok tt
created_from creates i (suc n) = elim (creates i) [
  | true ↦ created_from creates (suc i) n
  | false ↦ throws runtime_error
]

-- The constructor of `RequestHandler`.
abbrev pub create_handler : {P V : Type 0} → Platform P V → ℕ → Result (State P V)
create_handler p num_requests = do
  h ← p.controls
  made ← created_from p.creates 0 num_requests
  ok (create h p.fresh_controls num_requests p.offset p.metadata)

abbrev pub state_or_throw : {P V : Type 0} → Option Exception × State P V → Result (State P V)
state_or_throw (none, s) = ok s
state_or_throw (some e, s) = throws e

-- The callback for the camera info.
abbrev pub with_callback : {P V : Type 0} → Bytes → State P V → State P V
with_callback name s = if length name == 0 then s else set_frame_publish_callback s

-- The constructor; what `acquire` and `start` of the camera return is not looked at.
unfoldable pub construct : {P V : Type 0} → Params → Platform P V → Result (Node P V)
construct params p = do
  camera ← acquire_camera p.cameras params.camera
  config ←
      configure_camera p.from_string p.generate p.validate p.configure params.setups
        params.stream_roles
  let streams = streams_of p.allocate 0 p.table p.ros params params.stream_roles config
  num_requests ← allocate_buffers streams
  fresh ← create_handler p num_requests
  ready ← state_or_throw (create_stream_handlers p.accepts streams fresh)
  handlers ← handlers_of p.table p.ros params params.stream_roles config
  ok (record {
    config = config;
    stream_handlers = handlers;
    request_handler = start (with_callback params.camera_info_name ready);
  })
