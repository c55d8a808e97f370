-- ===== src/Tests/Requests.antt =====
-- The cycles of an arm whose group has failed, the rates of components, and requests for a switch.
use ros2_control.Base.{
  ℕ, ◌+◌, ◌*◌, ◌≤◌, ◌≡◌, refl, ◌↔◌, Bool, true, false, ◌&&◌, none, List, [], ◌∷◌, arith, Name,
  has_item, lookup, name_discrete, returned,
}
use ros2_control.Base.Int.{pos}
use ros2_control.Hardware.Types.{LifecycleState, ReturnType}
use ros2_control.Resource.Storage
use ros2_control.Resource.Cycle
use ros2_control.Resource.Switch
use ros2_control.Resource.Groups.{HasFailed}
use ros2_control.Resource.Groups.Failure
use ros2_control.Resource.Groups.Failure.{IsFailed}
use ros2_control.Resource.Groups.Revival
use ros2_control.Resource.Requests
use ros2_control.Tests.Fixtures.{willing, rig, joint1, focused, undisturbed}

robot-HasFailed :
    (s : LifecycleState) (available : List Name)
    → HasFailed "robot" (rig s available ReturnType.error) ReturnType.error
unfolding lookup name_discrete
robot-HasFailed s available = (λ e. cc, refl, refl)

read_component_group-IsFailed_example :
    IsFailed willing undisturbed
      (pos 5)
      (focused LifecycleState.active joint1 ReturnType.error)
      (Cycle.read_component willing undisturbed
        (pos 5)
        (focused LifecycleState.active joint1 ReturnType.error)).0
unfolding has_item Cycle.read_component Cycle.read_unlocked Cycle.try_read Cycle.at_rate
    Storage.hardware_info lookup Storage.touch_hardware_info ros2_control.Base.emplace name_discrete
    ros2_control.Hardware.Component.read Storage.update_hardware_component_group_state
    Storage.set_hardware_info Cycle.fail_component
read_component_group-IsFailed_example =
    Failure.read_component_group-IsFailed willing undisturbed (pos 5)
      (focused LifecycleState.active joint1 ReturnType.error) refl refl
      (robot-HasFailed LifecycleState.active joint1) ((refl, tt), (refl, tt)) refl

prepare_refused_example :
    Switch.prepare_command_mode_switch willing joint1 []
      (rig LifecycleState.unconfigured [] ReturnType.ok)
    ≡ (rig LifecycleState.unconfigured [] ReturnType.ok, returned false)
unfolding has_item name_discrete lookup
prepare_refused_example =
    Requests.prepare_refused (rig LifecycleState.unconfigured [] ReturnType.ok) willing joint1 []
      "joint1/position" refl refl
