-- ===== src/Resource/Groups/Revival.antt =====
-- A read can bring a finalized component back.
use ros2_control.Base.{◌≡◌}
use ros2_control.Hardware.Plugin.{Plugin}
use ros2_control.Hardware.Component
use ros2_control.Hardware.Component.{HardwareComponent}
use ros2_control.Resource.Storage
use ros2_control.Resource.Cycle

module _ {D : Type 0} (p : Plugin D) where
  -- The component's state, its device and whether it has a thread.
  abbrev SameDevice : HardwareComponent D → HardwareComponent D → Type 0
  SameDevice c d =
      (c.lifecycle_state ≡ d.lifecycle_state) × (c.device ≡ d.device) × (c.is_async ≡ d.is_async)
