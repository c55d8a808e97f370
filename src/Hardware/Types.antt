-- ===== src/Hardware/Types.antt =====
-- hardware_interface/include/hardware_interface/types: lifecycle states and return values. The
-- numbers of the lifecycle states and the values of `CallbackReturn` are those of lifecycle_msgs.
use ros2_control.Base.{ℕ, Bool, true, false, Option}

-- lifecycle_state_names.hpp
pub data LifecycleState : Type 0 where
  unknown unconfigured inactive active finalized : LifecycleState

pub data CallbackReturn : Type 0 where
  success failure error : CallbackReturn

-- hardware_interface_return_values.hpp, `return_type`
pub data ReturnType : Type 0 where
  ok error deactivate : ReturnType

-- `HardwareComponentCycleStatus`; an execution time is in nanoseconds.
pub record CycleStatus : Type 0 where
  pub successful : Bool
  pub result : ReturnType
  pub execution_time : Option ℕ

-- lifecycle_helpers.hpp, `lifecycleStateThatRequiresNoAction`
unfoldable pub requires_no_action : LifecycleState → Bool
requires_no_action LifecycleState.unknown = true
requires_no_action LifecycleState.unconfigured = true
requires_no_action LifecycleState.finalized = true
requires_no_action _ = false

abbrev pub is_unknown : LifecycleState → Bool
is_unknown LifecycleState.unknown = true
is_unknown _ = false

abbrev pub is_unconfigured : LifecycleState → Bool
is_unconfigured LifecycleState.unconfigured = true
is_unconfigured _ = false

abbrev pub is_inactive : LifecycleState → Bool
is_inactive LifecycleState.inactive = true
is_inactive _ = false

abbrev pub is_active : LifecycleState → Bool
is_active LifecycleState.active = true
is_active _ = false

abbrev pub is_finalized : LifecycleState → Bool
is_finalized LifecycleState.finalized = true
is_finalized _ = false

abbrev pub is_ok : ReturnType → Bool
is_ok ReturnType.ok = true
is_ok _ = false

abbrev pub is_error : ReturnType → Bool
is_error ReturnType.error = true
is_error _ = false
