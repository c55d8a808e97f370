-- ===== src/Hardware/Component/Cycles.antt =====
-- Reading from and writing to a component (hardware_component.cpp).
use ros2_control.Base.{ℕ, ◌≡◌, ◌≢◌, ◌⊎◌, true, some, arith, returned}
use ros2_control.Base.Int.{ℤ}
use ros2_control.Hardware.Types.{LifecycleState, CallbackReturn, ReturnType, requires_no_action}
use ros2_control.Hardware.Plugin.{Plugin}
use ros2_control.Hardware.Component
use ros2_control.Hardware.Component.{HardwareComponent}

module _ {D : Type 0} (p : Plugin D) (time : ℕ) (period : ℤ) (c : HardwareComponent D) where
  -- `read` reaches the plugin only in the inactive and active states: in any other it returns OK,
  -- notes the time and changes nothing else.
  pub read_idle :
      requires_no_action c.lifecycle_state ≡ true
      → Component.read p time period c
        ≡ (record c { last_read_cycle_time = some time }, returned ReturnType.ok)
  unfolding Component.read
  read_idle h = ground arith

  -- A read that returns an error has called `on_error`, in the component's state and on the device as
  -- the read and the pause of its thread left it: the device is as `on_error` left it, and the
  -- component is unconfigured if that returned success, and finalized otherwise.
  pub read_error :
      (Component.read p time period c).1 ≡ returned ReturnType.error
      → let c' = (Component.read p time period c).0 in
        let read = (Component.trigger_read p time period c).0 in
        let called =
          p.on_error c.lifecycle_state (Component.pause_async_operations p read).device in
        (c'.device ≡ called.0)
        × (((called.1 ≡ returned CallbackReturn.success)
              × (c'.lifecycle_state ≡ LifecycleState.unconfigured))
            ⊎ ((called.1 ≢ returned CallbackReturn.success)
                × (c'.lifecycle_state ≡ LifecycleState.finalized)))
  unfolding Component.read Component.trigger_read Component.pause_async_operations
  read_error h = ground arith

  -- A write that returns an error leaves the component unconfigured or finalized, like a read.
  pub write_error :
      (Component.write p time period c).1 ≡ returned ReturnType.error
      → ((Component.write p time period c).0.lifecycle_state ≡ LifecycleState.unconfigured)
        ⊎ ((Component.write p time period c).0.lifecycle_state ≡ LifecycleState.finalized)
  unfolding Component.write
  write_error h = ground arith
