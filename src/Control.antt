-- ===== src/Control.antt =====
mod Tests
pub mod Checksum
pub mod Params
pub mod Status
pub mod Machine
pub mod Motor
pub mod Firmware
pub mod Lifecycle
pub mod DiffDrive
pub mod Demo
