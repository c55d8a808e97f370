-- ===== src/Controllers/Claimable.antt =====
-- `check_for_interfaces_availability_to_activate`: the interfaces of the controllers that are to be
-- activated can be claimed.
pub mod Disjoint
use ros2_control.Base.{
  Bool, true, false, not, ◌&&◌, ◌||◌, Option, none, some, List, [], ◌∷◌, ◌++◌, if◌then◌else◌, Name,
  has_item, Outcome, returned, thrown,
}
use ros2_control.Resource.Storage.{ResourceManager}
use ros2_control.Resource.Interfaces.{
  command_interface_is_claimed, state_interface_is_available, command_interface_is_available,
}
use ros2_control.Controllers.Spec.{
  ConfigurationType, ControllerPlugin, ControllerSpec, find_controller,
}
use ros2_control.Controllers.Configuration.{
  get_command_interfaces_names, get_state_interfaces_names,
}

abbrev pub is_individual : ConfigurationType → Bool
is_individual ConfigurationType.individual = true
is_individual _ = false

abbrev pub all_states_available : {D : Type 0} → List Name → ResourceManager D → Bool
all_states_available [] r = true
all_states_available (itf ∷ itfs) r =
    state_interface_is_available itf r && all_states_available itfs r

module _ {D E : Type 0} (p : ControllerPlugin E) (specs : List (ControllerSpec E))
    (r : ResourceManager D) where
  -- What the deactivated controllers give back: `none` if one is not in the list.
  unfoldable pub future_available : List Name → Option (List Name)
  future_available [] = some []
  future_available (name ∷ names) = elim (find_controller name specs) [
    | none ↦ none
    | some spec ↦
        let config = p.command_interface_configuration spec.c.device in
        let itfs = if is_individual config.kind then config.names else spec.claimed_interfaces in
        elim (future_available names) [ none ↦ none | some rest ↦ some (itfs ++ rest) ]
  ]

  -- The names that will be taken, with those of the list: `none` is a refusal.
  unfoldable pub take_commands : List Name → List Name → List Name → Outcome (Option (List Name))
  take_commands available [] taken = returned (some taken)
  take_commands available (itf ∷ itfs) taken =
      let rest = take_commands available itfs (taken ++ itf ∷ []) in
      elim (command_interface_is_claimed itf r).1 [
        | thrown ↦ thrown
        | returned claimed ↦
            if not (command_interface_is_available itf r)
              || claimed && not (has_item available itf)
              || has_item taken itf
            then returned none
            else rest
      ]

  unfoldable pub check_claims : List Name → List Name → List Name → List Name → Outcome Bool
  check_claims available deactivation_list [] taken = returned true
  check_claims available deactivation_list (name ∷ names) taken =
      if has_item deactivation_list name
      then check_claims available deactivation_list names taken
      else elim (find_controller name specs) [
        | none ↦ returned false
        | some spec ↦
            let cmds = get_command_interfaces_names p spec.c r in
            elim (take_commands available cmds taken) [
              | thrown ↦ thrown
              | returned none ↦ returned false
              | returned (some taken') ↦
                  if all_states_available (get_state_interfaces_names p spec.c r) r
                  then check_claims available deactivation_list names taken'
                  else returned false
            ]
      ]

  unfoldable pub check_for_interfaces_availability_to_activate :
      List Name → List Name → Outcome Bool
  check_for_interfaces_availability_to_activate activation_list deactivation_list =
      elim (future_available deactivation_list) [
        | none ↦ returned false
        | some available ↦ check_claims available deactivation_list activation_list []
      ]
