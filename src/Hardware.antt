-- ===== src/Hardware.antt =====
-- hardware_interface: the hardware components that the resource manager drives.
pub mod Types
pub mod Plugin
pub mod Component
