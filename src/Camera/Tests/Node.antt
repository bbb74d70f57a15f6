-- ===== src/Camera/Tests/Node.antt =====
-- A node with one camera and a stream of decoded frames, at concrete inputs.
use tuw_spike.Base.{
  List, ℕ, zero, suc, ◌+◌, length, ◌≡◌, refl, true, false, [], ◌∷◌, ◌++◌, none, some, All, arith,
}
use tuw_spike.Base.Text.{bytes, lookup}
use tuw_spike.Base.Int.{pos}
use tuw_spike.Base.Result.{ok}
use tuw_spike.Camera.Tests.{handler, no_controls, keep}
use tuw_spike.Camera.Tests.Streams.{ros, cfg}
use tuw_spike.Camera.Tests.Streams as streams
use tuw_spike.Camera.Formats.{mjpeg, format_map, equal_range, find_if, get_format_mapping}
use tuw_spike.Camera.Streams.{decoder, decoder_members, create_stream_handler}
use tuw_spike.Camera.Controls.{update_request}
use tuw_spike.Camera.Requests.{
  Context, Frame, State, is_ready, handle, process, start, queue_all, create, create_requests,
  add_buffers, add_stream, set_frame_publish_callback,
}
use tuw_spike.Camera.Requests.Batch.{source, frames_of}
use tuw_spike.Camera.Requests.Interleaving.{
  System, Holds, served, complete, Reach, here, next, count,
}
use tuw_spike.Camera.Capture.{fewest, allocate_buffers, create_stream_handlers, acquire_camera}
use tuw_spike.Camera.Capture.Configuration.{is_valid, roles_of, apply_setups, configure_camera}
use tuw_spike.Camera.Node.{Params, Platform, Node, streams_of, handlers_of, created_from, construct}
use tuw_spike.Camera.Node.Served.{Handled}
use tuw_spike.Camera.Node.Stop.{stop, Covers, stop-releases}
use tuw_spike.Camera.Manager.{Event, construct_node, destroy_node, run, no_managers}
use tuw_spike.Camera.Manager.Single.{IsSingle, starts, run-IsSingle}
use tuw_spike.Camera.Node.Frames.{running, construct-serves}

abbrev node_params : Params
node_params = record {
  camera = [];
  camera_info_name = bytes "spike";
  stream_roles = bytes "video" ∷ [];
  setups = (bytes "video", record { width = pos 2; height = pos 0; format = [] }) ∷ [];
  topics = (bytes "video", streams.params) ∷ [];
}

-- Two buffers are allocated, so there are two requests.
abbrev platform : Platform ℕ ℕ
platform = record {
  cameras = bytes "front" ∷ [];
  from_string = λ name. mjpeg;
  generate = λ roles. some (cfg ∷ []);
  validate = λ cfgs. (is_valid, cfgs);
  configure = λ cfgs. true;
  allocate = λ i. some 2;
  creates = λ i. true;
  fresh_controls = no_controls;
  accepts = λ c. true;
  metadata = λ c. pos c;
  controls = ok handler;
  offset = pos 9;
  table = format_map ros;
  ros = ros;
}

abbrev with_stream : State ℕ ℕ
with_stream = (add_stream (λ c. true) 2 (create handler no_controls 2 (pos 9) (λ c. pos c))).1

abbrev spike_node : Node ℕ ℕ
spike_node = record {
  config = cfg ∷ [];
  stream_handlers = decoder (decoder_members cfg streams.params) ∷ [];
  request_handler = start (set_frame_publish_callback with_stream);
}

spike_node-construct : construct node_params platform ≡ ok spike_node
unfolding construct acquire_camera configure_camera roles_of apply_setups streams_of handlers_of
    created_from fewest allocate_buffers create_stream_handlers create_stream_handler
    get_format_mapping equal_range find_if lookup add_stream add_buffers create_requests
spike_node-construct = refl

-- The second request has completed.
abbrev second_done : System ℕ ℕ
second_done = record (running spike_node) {
  handler = (handle false 1 spike_node.request_handler).1;
  completed = 1 ∷ [];
}

second_done-Reach : Reach keep (running spike_node) second_done
unfolding count queue_all create_requests add_stream add_buffers
second_done-Reach = next here (complete (running spike_node) 1 (omega arith))

abbrev waiting : Context ℕ
waiting = record { cookies = 1 ∷ []; controls = no_controls; control_seq = 3; waiting = true }

construct-serves_example :
    let q = process keep 1 waiting second_done.handler in
    let frames = frames_of (source second_done.handler) waiting.cookies in
    (is_ready second_done.handler ≡ true)
    × (q.failure ≡ none)
    × Holds keep 1 (record second_done { handler = served keep 1 waiting second_done.handler })
    × (q.state.published ≡ second_done.handler.published ++ frames)
    × All
        (λ (f : Frame).
          Handled platform.table ros node_params node_params.stream_roles spike_node.config
            spike_node.stream_handlers f.stream)
        frames
unfolding handle create_requests update_request add_stream add_buffers
construct-serves_example =
    construct-serves node_params platform keep spike_node second_done 1 waiting spike_node-construct
      second_done-Reach refl refl

abbrev both : List ℕ
both = 0 ∷ 1 ∷ []

both-Covers : Covers both second_done.handler.request_ctx
unfolding count handle create_requests add_stream add_buffers
both-Covers zero h = omega arith
both-Covers (suc zero) h = omega arith
both-Covers (suc (suc i)) h =
    let size : length second_done.handler.request_ctx ≡ 2 = refl in absurd (omega (arith, h, size))

stop-releases_example :
    ((stop both second_done).0 ≡ ok tt)
    × ((stop both second_done).1.handler ≡ second_done.handler)
    × Reach keep (running spike_node) (stop both second_done).1
    × ((i : ℕ) → ¬ (Holds keep i (stop both second_done).1))
stop-releases_example =
    stop-releases node_params platform keep spike_node second_done both spike_node-construct
      second_done-Reach both-Covers

-- Two nodes at once, and one after both are gone.
abbrev comings : List Event
comings = construct_node ∷ construct_node ∷ destroy_node 0 ∷ destroy_node 0 ∷ construct_node ∷ []

run-IsSingle_example :
    IsSingle (run comings no_managers)
    × ((run comings no_managers).started
        ≡ no_managers.started + starts (length no_managers.owners) comings)
run-IsSingle_example = run-IsSingle comings no_managers tt
