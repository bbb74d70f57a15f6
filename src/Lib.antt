-- ===== src/Lib.antt =====
-- Verification library for tuw_spike, the ROS 2 software of a small differential-drive robot: the
-- drive behind a Raspberry Pi Build HAT (tuw_spike_control), the camera (tuw_libcamera), and a
-- laser scan from camera images (tuw_camera_laserscan).
--
-- The parts and how they meet. `TuwSpikeSystemInterface`
-- (tuw_spike_control/src/tuw_spike_control_interface.cpp) talks to the Build HAT over a serial
-- port: it uploads the firmware, sets up the two motors, and then answers ros2_control's cycle of
-- `read` and `write`. Either ros2_control drives it, or the node of diffdrive_node.cpp, or the
-- program of demo.cpp. In the camera package a `CaptureNode` allocates buffers, a `RequestHandler`
-- passes requests between libcamera's thread and the executor, and a `CameraControlsHandler`
-- brings the parameters into the requests; each stream has a handler that publishes its frames,
-- and a transport node forwards them. The ray localizer takes such an image, filters it along rays
-- from a center, and turns the edges it finds into a laser scan. A spawner puts the robot into a
-- simulated world.
--
-- Files and code:
--
-- - Base: shared numbers, lists, texts, results. Base/Decimal and Base/Words hold the decimal
--   notation and the 32-bit arithmetic of the sources.
-- - Control/Checksum: `checksum`. Control/Params: interface_utils.hpp.
-- - Control/Status: the scan of status lines, with `std::string::find`, `substr` and `std::stoi`
--   written out, and the loop over chunks of 128 bytes; it is used by `read` and `on_configure`.
-- - Control/Machine: the members, the port, and how a call returns, throws or waits.
-- - Control/Motor: `on_init`, the exported handles, `read`, `write`. Control/Firmware:
--   `loadFirmware`. Control/Lifecycle: `on_configure` and the calls that end the connection.
-- - Control/DiffDrive: diffdrive_node.cpp. Control/Demo: demo.cpp.
-- - Camera/Controls: `CameraControlsHandler` (tuw_libcamera/src/capture/camera_controls_handler.cpp);
--   Camera/Controls/Setup is its constructor, Camera/Controls/Shapes the rectangles and sizes.
-- - Camera/Requests: `RequestHandler` (tuw_libcamera/src/capture/request_handler.cpp);
--   Camera/Requests/Interleaving is a step relation of the camera's thread and the executor,
--   Camera/Requests/Threads one at the grain of their writes to the flags and the counter.
-- - Camera/Streams: stream_handler.cpp, on top of Camera/Formats. Camera/Transport:
--   tuw_libcamera/src/transport/transport_node.cpp.
-- - Camera/Buffers: `BufferContext`; Camera/Buffers/Vector the vector of them. Camera/Capture:
--   parts of `CaptureNode` (capture_node.cpp), Camera/Capture/Configuration its `configure_camera`. Camera/Formats: the
--   table of convert.cpp and its lookups. Camera/Node: the constructor of `CaptureNode`, which
--   joins these parts; Camera/Node/Stop its destructor; Camera/Manager: `init_camera_manager`.
-- - Scan/Scalar: doubles and the operations of OpenCV. Scan/Geometry:
--   tuw_camera_laserscan/src/geometry.cpp. Scan/Kernel: filter_kernel.hpp. Scan/Timing:
--   timing_recorder.cpp.
-- - Scan/Edges: `detect_edge`, and Scan/Localizer: the rest of
--   tuw_camera_laserscan/src/ray_localizer.cpp, which joins the others. Scan/Node: the
--   constructor of `RayLocalizer` and the callback of
--   tuw_camera_laserscan/src/ray_localizer_node.cpp.
-- - Spawn: tuw_spike_simulation/src/spawn_robot.cpp.
-- - The Tests modules run the theorems on concrete inputs.
--
-- State and effects. A C++ object is a record of its members; a call takes the record and gives it
-- back, also where it throws. In Control a call works on a `World`: the members, the port, the
-- streambuf, and the replies and chunks that the environment will deliver. Exceptions are values
-- of `Exception` and keep apart what the handlers catch and what they let through.
--
-- Bounds and fuel. The loop `while (++line)` along a line of the image, `visits`, runs on fuel,
-- one round for each pixel: the theorems on it and the callers give it one more than there are
-- pixels, with which it ends by its own test. No other definition runs on fuel: the loops over
-- input take one reply or chunk a round and wait when the list that the environment chose is used
-- up. Words of 32 and 64 bits have their remainders written out.
--
-- Parameters. Doubles are an abstract type with the operations of the sources; only the theorem on
-- clipped rays assumes of them that they are ordered and that the arithmetic of a coordinate is
-- exact. The operations of OpenCV and what its line iterator and `imdecode` yield are parameters
-- too, as are tf2's lookup, `toCvShare`, the clock, `declare_parameter`, and the services of the
-- simulator. Boost.Asio's port is a record of four calls, with laws that say that writes to an
-- open port work and send their bytes and that writes to a closed one throw. The conversions of
-- camera parameters, what `Request::reuse` leaves of the controls, and whether `addBuffer` takes a
-- buffer are functions that the theorems range over; the record `Platform` of Camera/Node holds
-- them with the rest of what libcamera does for a node, and the order in which its `stop` hands
-- requests back, each as cancelled, is a list that has each request. `std::stoi` and the searches
-- in strings are written out as the language documents them.
--
-- Not modelled: logging, sleeps, the mutex and the guard condition (a call of the model, and an
-- iteration of `execute`, is atomic, but in Camera/Requests/Threads); what ROS does with the
-- topics of the nodes; the debug images of the localizer, which are compiled out, and the text of
-- its timings; launch files, robot description and the simulated world. The buffers of a request
-- are taken in the order in which their streams were added, while libcamera's map orders them by
-- the address of the stream. The construction of a time stamp, publishing and the callback of a
-- request are taken not to throw, so a negative stamp is left out. A failing `assert` gives no
-- message, as in a build without NDEBUG. A read of a line takes one reply, also where the
-- streambuf holds a whole line already.
mod Base
pub mod Control
pub mod Camera
pub mod Scan
pub mod Spawn
