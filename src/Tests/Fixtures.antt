-- ===== src/Tests/Fixtures.antt =====
-- A driver that answers as it is told, and a robot with one joint.
use ros2_control.Base.{ℕ, ◌+◌, ◌-◌, ◌*◌, ◌/◌, leb, true, false, none, List, [], ◌∷◌, Name, returned}
use ros2_control.Base.Int.{pos, pos_part}
use ros2_control.Hardware.Types.{LifecycleState, CallbackReturn, ReturnType}
use ros2_control.Hardware.Plugin.{Plugin}
use ros2_control.Hardware.Component.{HardwareComponent, no_statistics}
use ros2_control.Resource.Storage.{ResourceManager, HardwareComponentInfo, Interface, no_info}
use ros2_control.Resource.Transitions.{Focus}
use ros2_control.Resource.Cycle.{Doubles, Surroundings}

-- The answers of the transitions, of `on_error` and of the cycles. The device counts the calls.
abbrev pub scripted : CallbackReturn → CallbackReturn → ReturnType → Plugin ℕ
scripted transition recovery cycle = record {
  init = λ d. (d + 1, returned transition);
  on_configure = λ s d. (d + 1, returned transition);
  on_cleanup = λ s d. (d + 1, returned transition);
  on_shutdown = λ s d. (d + 1, returned transition);
  on_activate = λ s d. (d + 1, returned transition);
  on_deactivate = λ s d. (d + 1, returned transition);
  on_error = λ s d. (d + 1, returned recovery);
  read = λ time period d. (d + 1, returned cycle);
  write = λ time period d. (d + 1, returned cycle);
  prepare_command_mode_switch = λ start stop d. (d + 1, returned cycle);
  perform_command_mode_switch = λ start stop d. (d + 1, returned cycle);
  pause_execution = λ d. d;
  trigger_async_callback = λ time period d. (d, true);
  steady_clock = λ d. d;
}

abbrev pub willing : Plugin ℕ
willing = scripted CallbackReturn.success CallbackReturn.success ReturnType.ok

abbrev pub failing : Plugin ℕ
failing = scripted CallbackReturn.error CallbackReturn.success ReturnType.error

abbrev pub arm : LifecycleState → HardwareComponent ℕ
arm s = record {
  name = "arm";
  group = "robot";
  is_sensor = false;
  is_async = false;
  lifecycle_state = s;
  introspection = false;
  last_read_cycle_time = none;
  last_write_cycle_time = none;
  read_statistics = no_statistics;
  write_statistics = no_statistics;
  read_return_info = ReturnType.ok;
  write_return_info = ReturnType.ok;
  read_execution_time = 0;
  write_execution_time = 0;
  device = 0;
}

abbrev pub arm_info : HardwareComponentInfo
arm_info = record no_info {
  rw_rate = 100;
  state_interfaces = "joint1/position" ∷ [];
  command_interfaces = "joint1/position" ∷ [];
}

abbrev pub position : Interface
position = record { name = "joint1/position"; data_type = "double" }

-- The manager of the arm: in its state, with its interfaces available or not, and its group's state.
abbrev pub rig : LifecycleState → List Name → ReturnType → ResourceManager ℕ
rig s available group = record {
  handle_exceptions = true;
  allow_controller_activation_with_inactive_hardware = false;
  return_failed_hardware_names_on_return_deactivate_write_cycle = true;
  cm_update_rate = 100;
  actuators = arm s ∷ [];
  sensors = [];
  systems = [];
  hardware_info_map = ("arm", arm_info) ∷ [];
  hw_group_state = ("robot", group) ∷ [];
  hardware_used_by_controllers = ("arm", []) ∷ [];
  controllers_exported_state_interfaces_map = [];
  controllers_reference_interfaces_map = [];
  state_interface_map = ("joint1/position", position) ∷ [];
  command_interface_map = ("joint1/position", position) ∷ [];
  available_state_interfaces = available;
  available_command_interfaces = available;
  claimed_command_interface_map = ("joint1/position", false) ∷ [];
  has_state_switch_callback = false;
  state_switches = 0;
  limiter_resets = 0;
  read_write_status = record { result = ReturnType.ok; failed_hardware_names = [] };
}

abbrev pub joint1 : List Name
joint1 = "joint1/position" ∷ []

abbrev pub focused : LifecycleState → List Name → ReturnType → Focus ℕ
focused s available group = record { manager = rig s available group; hardware = arm s }

-- Numbers of nanoseconds in place of doubles, and distances in place of differences.
abbrev fixed_point : Doubles
fixed_point = record {
  from_ℕ = λ n. n * 1_000_000_000;
  seconds = pos_part;
  from_seconds = pos;
  add = λ a b. a + b;
  sub = λ a b. (a - b) + (b - a);
  mul = λ a b. a * b / 1_000_000_000;
  div = λ a b. a * 1_000_000_000 / b;
  abs = λ a. a;
  le = leb;
}

abbrev pub undisturbed : Surroundings
undisturbed = record {
  resources_locked = false;
  is_locked = λ name. false;
  now = λ name. 0;
  doubles = fixed_point;
}
