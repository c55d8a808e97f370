-- ===== src/Tests/Chain.antt =====
-- A chain of two controllers on the robot with one joint: "traj" commands the reference interface of
-- "pid", which commands the joint. The device is the number of the controller.
use ros2_control.Base.{ℕ, zero, suc, true, false, List, [], ◌∷◌, Name}
use ros2_control.Hardware.Types.{LifecycleState, ReturnType}
use ros2_control.Resource.Storage.{ResourceManager, Interface}
use ros2_control.Controllers.Spec.{
  ConfigurationType, InterfaceConfiguration, ControllerPlugin, ControllerSpec, ControllerManager,
  SwitchParams, Strictness,
}
use ros2_control.Controllers.Callback.{Environment}
use ros2_control.Tests.Fixtures.{rig, position}

abbrev individual : List Name → InterfaceConfiguration
individual names = record { kind = ConfigurationType.individual; names = names }

abbrev pub commands_of : ℕ → InterfaceConfiguration
commands_of zero = individual ("joint1/position" ∷ [])
commands_of (suc n) = individual ("pid/position" ∷ [])

abbrev pub code : ControllerPlugin ℕ
code = record {
  command_interface_configuration = commands_of;
  state_interface_configuration = λ d. individual [];
  activate =
      λ s d. record { device = d; state = LifecycleState.active; raised = false; released = false };
  deactivate = λ s d. record {
    device = d;
    state = LifecycleState.inactive;
    raised = false;
    released = false;
  };
  on_set_chained_mode = λ mode d. (d, true);
  prepare_for_deactivation = λ d. d;
  regex_match = λ a b. false;
}

abbrev pub controller : Name → ℕ → LifecycleState → ControllerSpec ℕ
controller name d s = record {
  name = name;
  claimed_interfaces = [];
  fallback_controllers_names = [];
  controllers_chain_group = [];
  last_update_cycle_time = 0;
  execution_time_statistics = [];
  periodicity_statistics = [];
  c = record {
    lifecycle_state = s;
    is_chainable = true;
    in_chained_mode = false;
    command_interfaces = [];
    state_interfaces = [];
    device = d;
  };
}

abbrev pub pair : LifecycleState → List (ControllerSpec ℕ)
pair s = controller "traj" 1 s ∷ controller "pid" 0 s ∷ []

abbrev pub no_request : SwitchParams
no_request = record {
  do_switch = false;
  ready_to_switch = false;
  activate_asap = false;
  strictness = Strictness.unspecified;
  activate_request = [];
  deactivate_request = [];
  to_chained_mode_request = [];
  from_chained_mode_request = [];
  activate_command_interface_request = [];
  deactivate_command_interface_request = [];
}

abbrev reference : Interface
reference = record { name = "pid/position"; data_type = "double" }

-- The joint's interfaces are available, and the reference interface is exported.
abbrev pub robot : ResourceManager ℕ
robot = record (rig LifecycleState.active ("joint1/position" ∷ []) ReturnType.ok) {
  controllers_exported_state_interfaces_map = ("pid", []) ∷ ("traj", []) ∷ [];
  controllers_reference_interfaces_map = ("pid", "pid/position" ∷ []) ∷ ("traj", []) ∷ [];
  command_interface_map = ("joint1/position", position) ∷ ("pid/position", reference) ∷ [];
  claimed_command_interface_map = ("joint1/position", false) ∷ ("pid/position", false) ∷ [];
}

abbrev pub manager : LifecycleState → SwitchParams → ControllerManager ℕ ℕ
manager s q = record {
  resource_manager = robot;
  controllers = pair s;
  switch_params = q;
  handle_exceptions = true;
  default_is_strict = true;
  controller_chained_reference_interfaces_cache = ("pid", "traj" ∷ []) ∷ [];
  controller_chained_state_interfaces_cache = [];
  controller_chain_spec =
      ("pid", record { following_controllers = []; preceding_controllers = "traj" ∷ [] })
      ∷ ("traj", record { following_controllers = "pid" ∷ []; preceding_controllers = [] })
      ∷ [];
  ordered_controllers_names = [];
}

-- The wait for the realtime thread ends in time, and nothing else happens.
abbrev pub quiet : Environment ℕ ℕ
quiet = record {
  initialized = true;
  wait_until_switched = λ s. (s, true);
  wait_until_ready = λ s. (s, true);
  is_locked = false;
}
