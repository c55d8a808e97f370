-- ===== src/Limits.antt =====
-- Limits of joint commands (joint_limits).
pub mod Double
pub mod Helpers
pub mod Range
pub mod Enforcement
pub mod Bounds
