-- ===== src/Camera.antt =====
-- The package tuw_libcamera.
mod Tests
pub mod Controls
pub mod Requests
pub mod Formats
pub mod Streams
pub mod Transport
pub mod Buffers
pub mod Capture
pub mod Node
pub mod Manager
