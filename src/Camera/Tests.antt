-- ===== src/Camera/Tests.antt =====
-- Witnesses on concrete handlers of requests and of controls.
mod Streams
mod Startup
mod Transport
mod Controls
mod Progress
mod Threads
mod Node
use tuw_spike.Base.{
  ℕ, ◌%◌, ◌^◌, ◌≡◌, ◌≢◌, refl, sym, ap, true, false, List, [], ◌∷◌, none, some, map, arith, length,
  ltb, if◌then◌else◌,
}
use mathlib.Core.Option.{some-injective}
use tuw_spike.Base.Int.{ℤ, pos, negsuc}
use tuw_spike.Base.Text.{bytes, lookup}
use tuw_spike.Base.Result.{runtime_error, domain_error, Result, ok, throws}
use tuw_spike.Camera.Controls.{
  ControlList, Converter, Parameter, Handler, apply_parameters, parameter_callback, update_request,
}
use tuw_spike.Camera.Controls.Updates.{callback_reaches_requests, callback_throws_midway}
use tuw_spike.Camera.Controls.Shapes.{
  Rectangle, rectangle_from_parameter, rectangle_to_parameter, rectangle_roundtrip,
  rectangle_from_parameter-ok,
}
use tuw_spike.Camera.Requests.{Context, State, stream_of, handle, execute, add_stream}
use tuw_spike.Camera.Requests.Cycle.{IsCounted, count_waiting, handle-IsCounted, handle-again}
use tuw_spike.Camera.Requests.Batch.{IsLaidOut, behind, served, execute-batch}
use tuw_spike.Camera.Requests.Layout.{add_stream-IsLaidOut}

-- A conversion that refuses numbers from 100 on.
abbrev below_100 : ℕ → Result ℕ
below_100 n = if ltb n 100 then ok n else throws domain_error

abbrev gain : Converter ℕ ℕ
gain = record { ctrl_id = 7; conversion = below_100 }

abbrev no_controls : ControlList ℕ
no_controls = λ id. none

abbrev handler : Handler ℕ ℕ
handler = record {
  converters = (bytes "controls.Gain", gain) ∷ [];
  current_controls = no_controls;
  update_seq = 3;
}

abbrev set_gain : ℕ → Parameter ℕ
set_gain n = record { name = bytes "controls.Gain"; value = n }

callback_reaches_requests_example :
    let h' = (parameter_callback (set_gain 4 ∷ set_gain 5 ∷ []) handler).1 in
    ((update_request h' false no_controls 3).0 7 ≡ some 5)
    × ((update_request h' false no_controls 3).1 ≡ h'.update_seq)
    × (h'.update_seq ≢ 3)
unfolding parameter_callback lookup apply_parameters
callback_reaches_requests_example =
    callback_reaches_requests (set_gain 4 ∷ []) (set_gain 5) [] handler 7 5 no_controls
      (record { converter = gain; found = refl; at_id = refl; converted = refl }) tt (omega arith)
      refl

-- A parameter of the node that is no control.
abbrev other_setting : Parameter ℕ
other_setting = record { name = bytes "camera"; value = 0 }

gain_4 :
    (c : Converter ℕ ℕ)
    → lookup (bytes "controls.Gain") handler.converters ≡ some c
    → c.conversion 4 ≡ ok 4
unfolding lookup
gain_4 c e = ap (λ (k : Converter ℕ ℕ). k.conversion 4) (sym (some-injective gain c e))

callback_throws_midway_example :
    let (result, h') =
      parameter_callback
        (set_gain 4 ∷ set_gain 5 ∷ other_setting ∷ set_gain 100 ∷ set_gain 6 ∷ [])
        handler in
    (result ≡ throws domain_error)
    × (h'.current_controls 7 ≡ some 5)
    × (update_request h' false no_controls 3 ≡ (no_controls, 3))
unfolding lookup
callback_throws_midway_example =
    callback_throws_midway (set_gain 4 ∷ []) (other_setting ∷ []) (set_gain 6 ∷ []) (set_gain 5)
      (set_gain 100) handler 7 5 gain domain_error no_controls ((λ c e. (4, gain_4 c e)), tt)
      (record { converter = gain; found = refl; at_id = refl; converted = refl })
      ((λ c e. cc e), tt) ((λ c e. cc e), tt) refl refl

abbrev crop : Rectangle
crop = record { x = negsuc 2; y = pos 4; width = 640; height = 480 }

rectangle_roundtrip_example : rectangle_from_parameter (rectangle_to_parameter crop) ≡ ok crop
rectangle_roundtrip_example = rectangle_roundtrip crop (record {
  x_int = (omega arith, omega arith);
  y_int = (omega arith, omega arith);
  width_unsigned = omega arith;
  height_unsigned = omega arith;
})

abbrev huge : List ℤ
huge = pos 0 ∷ pos 0 ∷ pos 4294967296 ∷ pos 480 ∷ []

abbrev empty_width : Rectangle
empty_width = record { x = pos 0; y = pos 0; width = 0; height = 480 }

rectangle_from_parameter-ok_example :
    (x : ℤ) × (y : ℤ) × (w : ℕ) × (h : ℕ) × (huge ≡ x ∷ y ∷ pos w ∷ pos h ∷ [])
    × (0 ≡ w % 2 ^ 32)
    × (480 ≡ h % 2 ^ 32)
unfolding rectangle_from_parameter
rectangle_from_parameter-ok_example = rectangle_from_parameter-ok huge empty_width refl

-- A request that waits and one that does not, each with two buffers, of two streams.
abbrev waiting_context : Context ℕ
waiting_context = record {
  cookies = 0 ∷ 2 ∷ [];
  controls = no_controls;
  control_seq = 2;
  waiting = true;
}

abbrev free_context : Context ℕ
free_context = record {
  cookies = 1 ∷ 3 ∷ [];
  controls = no_controls;
  control_seq = 3;
  waiting = false;
}

abbrev camera : State ℕ ℕ
camera = record {
  request_ctx = waiting_context ∷ free_context ∷ [];
  buffer_ctx = 0 ∷ 0 ∷ 1 ∷ 1 ∷ [];
  stream_handlers = 2;
  controls_handler = handler;
  waiting_requests = 1;
  time_offset = pos 1000;
  metadata = λ c. pos c;
  queued = 0 ∷ 1 ∷ [];
  published = [];
  called_back = [];
  has_callback = true;
}

abbrev keep : ControlList ℕ → ControlList ℕ
keep c = c

camera-IsLaidOut : IsLaidOut camera camera.request_ctx
unfolding stream_of
camera-IsLaidOut = (((0, refl), ((1, refl), tt)), (((0, refl), ((1, refl), tt)), tt))

execute-batch_example : execute keep camera ≡ (
  none,
  record (behind keep 0 camera.request_ctx camera) {
    request_ctx = map (served keep handler) camera.request_ctx;
  },
)
unfolding count_waiting
execute-batch_example = execute-batch keep camera (omega arith) refl camera-IsLaidOut
