-- ===== src/Scan.antt =====
-- tuw_camera_laserscan: a laser scan from the edges along rays of a camera image.
mod Tests
pub mod Kernel
pub mod Scalar
pub mod Geometry
pub mod Edges
pub mod Timing
pub mod Localizer
pub mod Node
