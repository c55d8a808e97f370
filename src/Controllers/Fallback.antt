-- ===== src/Controllers/Fallback.antt =====
-- `check_fallback_controllers_state_pre_activation`: the fallback controllers of a controller could
-- take over.
use ros2_control.Base.{
  Bool, true, false, ◌||◌, Option, none, some, List, if◌then◌else◌, Name, has_item, lookup, Outcome,
  returned, thrown, all_pass,
}
use ros2_control.Hardware.Types.{is_active, is_inactive}
use ros2_control.Resource.Interfaces.{state_interface_is_available, command_interface_is_available}
use ros2_control.Controllers.Spec.{
  ControllerPlugin, ControllerSpec, ControllerManager, find_controller,
}
use ros2_control.Controllers.Configuration.{
  get_command_interfaces_names, get_state_interfaces_names, is_interface_a_chained_interface,
}

-- `get_controller_reference_interface_names` and its companion throw without an entry.
abbrev pub exports : Option (List Name) → Name → Outcome Bool
exports none itf = thrown
exports (some names) itf = returned (has_item names itf)

module _ {E : Type 0} where
  -- An interface of a fallback controller that is not available has to come from another one of the
  -- fallback controllers, or from a controller that is not inactive.
  unfoldable pub check_missing :
      (Name → Option (List Name)) → List Name → List (ControllerSpec E) → Name → Outcome Bool
  check_missing exported fallbacks specs itf = elim (is_interface_a_chained_interface itf specs) [
    | thrown ↦ thrown
    | returned none ↦ returned false
    | returned (some following) ↦
        if is_inactive following.c.lifecycle_state
        then (if has_item fallbacks following.name
            then exports (exported following.name) itf
            else returned false)
        else returned true
  ]

  -- One list of interfaces of a fallback controller.
  abbrev pub check_usable :
      (Name → Bool)
      → (Name → Option (List Name))
      → List Name
      → List (ControllerSpec E)
      → List Name
      → Outcome Bool
  check_usable available exported fallbacks specs =
      all_pass
        λ itf. if available itf then returned true else check_missing exported fallbacks specs itf

module _ {D E : Type 0} (p : ControllerPlugin E) where
  unfoldable pub check_fallback : ControllerManager D E → List Name → Name → Outcome Bool
  check_fallback s fallbacks name =
      let r = s.resource_manager in
      elim (find_controller name s.controllers) [
        | none ↦ returned false
        | some fb ↦
            let cmds =
              check_usable (λ itf. command_interface_is_available itf r)
                (λ n. lookup n r.controllers_reference_interfaces_map) fallbacks s.controllers
                (get_command_interfaces_names p fb.c r) in
            let states =
              check_usable (λ itf. state_interface_is_available itf r)
                (λ n. lookup n r.controllers_exported_state_interfaces_map) fallbacks s.controllers
                (get_state_interfaces_names p fb.c r) in
            if is_inactive fb.c.lifecycle_state || is_active fb.c.lifecycle_state
            then elim cmds [
              | thrown ↦ thrown
              | returned false ↦ returned false
              | returned true ↦ states
            ]
            else returned false
      ]

  unfoldable pub check_fallback_controllers_state_pre_activation :
      ControllerSpec E → ControllerManager D E → Outcome Bool
  check_fallback_controllers_state_pre_activation spec s =
      all_pass (check_fallback s spec.fallback_controllers_names) spec.fallback_controllers_names
