-- ===== src/Controllers/Configuration.antt =====
-- Which interfaces a controller wants, and which interfaces belong to a controller: the helpers at
-- the head of controller_manager.cpp.
use Prim.Native.String.{String}
use text.Mathlib.Text.{◌==◌ as str_eq}
use ros2_control.Base.{
  Bool, ◌&&◌, ◌||◌, Option, none, some, List, [], ◌∷◌, ◌++◌, if◌then◌else◌, Name, has_item,
  add_item, Outcome, returned, thrown,
}
use ros2_control.Hardware.Types.{is_active, is_inactive}
use ros2_control.Resource.Storage.{ResourceManager}
use ros2_control.Controllers.Spec.{
  ConfigurationType, ControllerPlugin, Controller, ControllerSpec, find_controller,
  is_controller_active,
}

-- The names that are available, in the configuration's order.
abbrev pub keep_available : List Name → List Name → List Name
keep_available available [] = []
keep_available available (name ∷ names) =
    if has_item available name
    then name ∷ keep_available available names
    else keep_available available names

abbrev matching : (Name → Bool) → List Name → List Name
matching f [] = []
matching f (name ∷ names) = if f name then name ∷ matching f names else matching f names

abbrev pub matching_any : (Name → Name → Bool) → List Name → List Name → List Name
matching_any f available [] = []
matching_any f available (pattern' ∷ patterns) =
    matching (f pattern') available ++ matching_any f available patterns

unfoldable pub select_interfaces :
    (Name → Name → Bool) → ConfigurationType → List Name → List Name → List Name
unfolding has_item
select_interfaces f ConfigurationType.all names available = available
select_interfaces f ConfigurationType.individual names available = names
select_interfaces f ConfigurationType.individual_best_effort names available =
    keep_available available names
select_interfaces f ConfigurationType.regex names available = matching_any f available names
select_interfaces f ConfigurationType.no_interfaces names available = []

module _ {D E : Type 0} (p : ControllerPlugin E) where
  unfoldable pub get_command_interfaces_names : Controller E → ResourceManager D → List Name
  unfolding select_interfaces
  get_command_interfaces_names c r =
      let config = p.command_interface_configuration c.device in
      select_interfaces p.regex_match config.kind config.names r.available_command_interfaces

  unfoldable pub get_state_interfaces_names : Controller E → ResourceManager D → List Name
  unfolding select_interfaces
  get_state_interfaces_names c r =
      let config = p.state_interface_configuration c.device in
      select_interfaces p.regex_match config.kind config.names r.available_state_interfaces

  unfoldable pub extract_command_interfaces_for_controller :
      ControllerSpec E → ResourceManager D → List Name → List Name
  unfolding get_command_interfaces_names
  extract_command_interfaces_for_controller ctrl r request =
      if is_active ctrl.c.lifecycle_state || is_inactive ctrl.c.lifecycle_state
      then request ++ get_command_interfaces_names ctrl.c r
      else request

  unfoldable pub get_controller_list_command_interfaces :
      List Name → List (ControllerSpec E) → ResourceManager D → List Name → List Name
  unfolding extract_command_interfaces_for_controller
  get_controller_list_command_interfaces [] specs r request = request
  get_controller_list_command_interfaces (name ∷ names) specs r request =
      get_controller_list_command_interfaces names specs r (elim (find_controller name specs) [
        | none ↦ request
        | some ctrl ↦ extract_command_interfaces_for_controller ctrl r request
      ])

  -- The active controllers of a list that have the interface.
  abbrev add_users : Name → List (ControllerSpec E) → ResourceManager D → List Name → List Name
  add_users itf [] r users = users
  add_users itf (s ∷ ss) r users = add_users itf ss r (
      if is_controller_active s && has_item (get_command_interfaces_names s.c r) itf
      then add_item users s.name
      else users)

  abbrev add_users_of_any :
      List Name → List (ControllerSpec E) → ResourceManager D → List Name → List Name
  add_users_of_any [] specs r users = users
  add_users_of_any (itf ∷ itfs) specs r users =
      add_users_of_any itfs specs r (add_users itf specs r users)

  unfoldable pub get_active_controllers_using_command_interfaces_of_controller :
      Name → List (ControllerSpec E) → ResourceManager D → List Name → List Name
  unfolding get_command_interfaces_names
  get_active_controllers_using_command_interfaces_of_controller name specs r users =
      elim (find_controller name specs) [
        | none ↦ users
        | some ctrl ↦ add_users_of_any (get_command_interfaces_names ctrl.c r) specs r users
      ]

-- `interface_name.substr(0, interface_name.find_first_of('/'))`, or `none` without a slash
unfoldable pub interface_prefix : String → Option String
interface_prefix String.[] = none
interface_prefix (String.◌∷◌ ch rest) =
    if str_eq (String.◌∷◌ ch String.[]) "/"
    then some String.[]
    else elim (interface_prefix rest) [ none ↦ none | some pre ↦ some (String.◌∷◌ ch pre) ]

-- The controller that the interface belongs to. An interface without a slash throws.
unfoldable pub is_interface_a_chained_interface :
    {E : Type 0} → Name → List (ControllerSpec E) → Outcome (Option (ControllerSpec E))
unfolding interface_prefix
is_interface_a_chained_interface itf specs = elim (interface_prefix itf) [
  | none ↦ thrown
  | some pre ↦ returned (find_controller pre specs)
]
