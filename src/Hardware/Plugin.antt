-- ===== src/Hardware/Plugin.antt =====
-- The hardware plugin behind a component, which is not part of the repository: the virtual methods
-- of `HardwareComponentInterface` that a driver overrides, and the realtime_tools thread of an
-- asynchronous component. `D` is the device with its environment, the steady clock included. Any
-- method may throw, and keeps what it did to the device before.
use ros2_control.Base.{ℕ, Bool, List, Outcome, Name}
use ros2_control.Base.Int.{ℤ}
use ros2_control.Hardware.Types.{LifecycleState, CallbackReturn, ReturnType}

abbrev pub Callback : Type 0 → Type 0
Callback D = LifecycleState → D → D × Outcome CallbackReturn

-- A clock reading and the time since the last cycle, in nanoseconds.
abbrev pub Cycle : Type 0 → Type 0
Cycle D = ℕ → ℤ → D → D × Outcome ReturnType

abbrev pub ModeSwitch : Type 0 → Type 0
ModeSwitch D = List Name → List Name → D → D × Outcome ReturnType

pub record Plugin (D : Type 0) : Type 0 where
  -- `init`: `on_init`, and the component's node and status publisher
  pub init : D → D × Outcome CallbackReturn
  pub on_configure : Callback D
  pub on_cleanup : Callback D
  pub on_shutdown : Callback D
  pub on_activate : Callback D
  pub on_deactivate : Callback D
  pub on_error : Callback D
  pub read : Cycle D
  pub write : Cycle D
  pub prepare_command_mode_switch : ModeSwitch D
  pub perform_command_mode_switch : ModeSwitch D
  -- `AsyncFunctionHandler`: stop the thread's work, and wake it (false if it is still at work)
  pub pause_execution : D → D
  pub trigger_async_callback : ℕ → ℤ → D → D × Bool
  pub steady_clock : D → ℕ
