-- ===== src/Controllers/Spec.antt =====
-- Controllers as the controller manager sees them (controller_spec.hpp, controller_info.hpp and
-- controller_interface_base.hpp), and the state of the controller manager. The two lists of specs
-- share their controllers by pointers, so that a controller is one object; it stands in the one list
-- here, and `Controllers.Lists` is about the pair.
use ros2_control.Base.{
  ℕ, Bool, true, false, Option, none, some, List, [], ◌∷◌, ite, Name, name_discrete, Action,
}
use ros2_control.Hardware.Types.{LifecycleState, is_active}
use ros2_control.Resource.Storage.{ResourceManager}

pub data ConfigurationType : Type 0 where
  all individual no_interfaces individual_best_effort regex : ConfigurationType

pub record InterfaceConfiguration : Type 0 where
  pub kind : ConfigurationType
  pub names : List Name

-- What a call of the node's lifecycle leaves: the controller's own state, its lifecycle state,
-- whether an exception came out, and whether `on_error` was called on the way, which releases the
-- interfaces.
pub record Transition (E : Type 0) : Type 0 where
  pub device : E
  pub state : LifecycleState
  pub raised : Bool
  pub released : Bool

-- A controller's own code and rclcpp's lifecycle node, which are not part of the repository, and
-- `std::regex_match` of a pattern and a name.
pub record ControllerPlugin (E : Type 0) : Type 0 where
  pub command_interface_configuration : E → InterfaceConfiguration
  pub state_interface_configuration : E → InterfaceConfiguration
  pub activate : LifecycleState → E → Transition E
  pub deactivate : LifecycleState → E → Transition E
  pub on_set_chained_mode : Bool → E → E × Bool
  pub prepare_for_deactivation : E → E
  pub regex_match : Name → Name → Bool

-- `ControllerInterfaceBase`. The loans are the names of the interfaces that it holds.
pub record Controller (E : Type 0) : Type 0 where
  pub lifecycle_state : LifecycleState
  pub is_chainable : Bool
  pub in_chained_mode : Bool
  pub command_interfaces : List Name
  pub state_interfaces : List Name
  pub device : E

-- `ControllerSpec`, with its `info` in it.
pub record ControllerSpec (E : Type 0) : Type 0 where
  pub name : Name
  pub claimed_interfaces : List Name
  pub fallback_controllers_names : List Name
  pub controllers_chain_group : List Name
  pub last_update_cycle_time : ℕ
  pub execution_time_statistics : List ℕ
  pub periodicity_statistics : List ℕ
  pub c : Controller E

-- `ControllerChainSpec`
pub record ControllerChainSpec : Type 0 where
  pub following_controllers : List Name
  pub preceding_controllers : List Name

-- `SwitchRequest::Request` of controller_manager_msgs: the values of its field `strictness`
pub data Strictness : Type 0 where
  unspecified best_effort strict auto force_auto : Strictness

pub record SwitchParams : Type 0 where
  pub do_switch : Bool
  pub ready_to_switch : Bool
  pub activate_asap : Bool
  pub strictness : Strictness
  pub activate_request : List Name
  pub deactivate_request : List Name
  pub to_chained_mode_request : List Name
  pub from_chained_mode_request : List Name
  pub activate_command_interface_request : List Name
  pub deactivate_command_interface_request : List Name

pub record ControllerManager (D E : Type 0) : Type 0 where
  pub resource_manager : ResourceManager D
  pub controllers : List (ControllerSpec E)
  pub switch_params : SwitchParams
  pub handle_exceptions : Bool
  pub default_is_strict : Bool
  pub controller_chained_reference_interfaces_cache : List (Name × List Name)
  pub controller_chained_state_interfaces_cache : List (Name × List Name)
  pub controller_chain_spec : List (Name × ControllerChainSpec)
  pub ordered_controllers_names : List Name

abbrev pub CmAction : Type 0 → Type 0 → Type 0 → Type 0
CmAction D E = Action (ControllerManager D E)

abbrev pub is_strict : Strictness → Bool
is_strict Strictness.strict = true
is_strict _ = false

abbrev pub is_best_effort : Strictness → Bool
is_best_effort Strictness.best_effort = true
is_best_effort _ = false

module _ {E : Type 0} where
  abbrev pub is_controller_active : ControllerSpec E → Bool
  is_controller_active s = is_active s.c.lifecycle_state

  -- `std::find_if` with `controller_name_compare`
  unfoldable pub find_controller : Name → List (ControllerSpec E) → Option (ControllerSpec E)
  find_controller name [] = none
  find_controller name (s ∷ ss) = ite (name_discrete s.name name) (some s) (find_controller name ss)

  -- The controller that was found, changed in its place.
  unfoldable pub put_controller :
      Name → ControllerSpec E → List (ControllerSpec E) → List (ControllerSpec E)
  put_controller name s' [] = []
  put_controller name s' (s ∷ ss) =
      ite (name_discrete s.name name) (s' ∷ ss) (s ∷ put_controller name s' ss)
