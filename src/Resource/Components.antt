-- ===== src/Resource/Components.antt =====
-- A component by its name: `ResourceManager::set_component_state`.
use mathlib.Core.Option
use ros2_control.Base.{
  ℕ, suc, Bool, true, false, Option, none, some, List, [], ◌∷◌, if◌then◌else◌, ite, Name,
  name_discrete, has_key, ◌>>=◌, done, branch,
}
use ros2_control.Hardware.Types.{LifecycleState, ReturnType, is_unknown}
use ros2_control.Hardware.Plugin.{Plugin}
use ros2_control.Hardware.Component.{HardwareComponent}
use ros2_control.Resource.Storage.{ManagerAction, Kind}
use ros2_control.Resource.Transitions.{focus, set_hardware_state}

-- A target names its state by an id, or by a label with the id 0 (PRIMARY_STATE_UNKNOWN).
pub record TargetState : Type 0 where
  pub id : LifecycleState
  pub label : Name

unfoldable pub of_label : Name → LifecycleState
of_label label = ite (name_discrete label "unconfigured") LifecycleState.unconfigured (
    ite (name_discrete label "inactive") LifecycleState.inactive (
      ite (name_discrete label "active") LifecycleState.active
        (ite (name_discrete label "finalized") LifecycleState.finalized LifecycleState.unknown)))

unfoldable pub resolve : TargetState → LifecycleState
unfolding of_label
resolve target = if is_unknown target.id then of_label target.label else target.id

abbrev result_of : Bool → ReturnType
result_of true = ReturnType.ok
result_of false = ReturnType.error

module _ {D : Type 0} where
  -- `std::find_if` on the components' names
  unfoldable pub find_component : Name → List (HardwareComponent D) → Option ℕ
  find_component name [] = none
  find_component name (c ∷ cs) =
      ite (name_discrete c.name name) (some 0) (Option.map suc (find_component name cs))

  module _ (p : Plugin D) (name : Name) (target : LifecycleState) where
    abbrev pub set_state_in :
        Kind → Option ℕ → ManagerAction D ReturnType → ManagerAction D ReturnType
    set_state_in k none otherwise = otherwise
    set_state_in k (some i) otherwise = do
      result ← focus k i (set_hardware_state p target)
      done (result_of result)

    -- The containers are searched in this order, and the first match ends the search.
    unfoldable pub set_found_component_state : ManagerAction D ReturnType
    set_found_component_state r =
        set_state_in Kind.actuator (find_component name r.actuators)
          (set_state_in Kind.sensor (find_component name r.sensors)
            (set_state_in Kind.system (find_component name r.systems) (done ReturnType.ok)))
          r

    -- the same, once the target is resolved
    unfoldable pub set_component_state : ManagerAction D ReturnType
    set_component_state r =
        branch (has_key name r.hardware_info_map) set_found_component_state (done ReturnType.error)
          r

  -- `ResourceManager::set_component_state`
  unfoldable pub set_target_state : Plugin D → Name → TargetState → ManagerAction D ReturnType
  unfolding resolve
  set_target_state p name target = set_component_state p name (resolve target)
