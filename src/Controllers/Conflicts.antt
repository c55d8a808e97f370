-- ===== src/Controllers/Conflicts.antt =====
-- The loop of `switch_controller_cb` that restarts controllers for their chained mode, drops or
-- refuses what is in conflict with their states, and collects the interfaces of the request.
use ros2_control.Base.{
  Bool, true, false, not, ◌&&◌, ◌||◌, Option, none, some, List, [], ◌∷◌, ◌++◌, if◌then◌else◌, Name,
  has_item, remove_item, returned,
}
use ros2_control.Hardware.Types.{is_active, is_inactive}
use ros2_control.Resource.UsedBy.{cache_controller_to_hardware}
use ros2_control.Controllers.Spec.{
  ControllerPlugin, ControllerSpec, ControllerManager, CmAction, Strictness, SwitchParams,
  is_strict,
}
use ros2_control.Controllers.Configuration.{
  get_command_interfaces_names, get_state_interfaces_names,
  extract_command_interfaces_for_controller,
}

-- The requests, with the loop's local variables.
pub record Marks : Type 0 where
  pub params : SwitchParams
  pub in_deactivate_list : Bool
  pub in_activate_list : Bool

-- `handle_conflict`: `none` ends the request, otherwise the controller leaves the list.
abbrev pub handle_conflict : Strictness → Bool → (Marks → Marks) → Option Marks → Option Marks
handle_conflict strictness test drop none = none
handle_conflict strictness test drop (some m) =
    if test then (if is_strict strictness then none else some (drop m)) else some m

abbrev pub clear_lists : SwitchParams → SwitchParams
clear_lists q = record q {
  deactivate_request = [];
  deactivate_command_interface_request = [];
  activate_request = [];
  activate_command_interface_request = [];
  to_chained_mode_request = [];
  from_chained_mode_request = [];
}

-- The erasures of the first place of the name.
abbrev drop_deactivation : Name → Marks → Marks
drop_deactivation name m = record m {
  params = record m.params { deactivate_request = remove_item m.params.deactivate_request name };
  in_deactivate_list = false;
}

abbrev drop_activation : Name → Marks → Marks
drop_activation name m = record m {
  params = record m.params { activate_request = remove_item m.params.activate_request name };
  in_activate_list = false;
}

abbrev test_marks : (Marks → Bool) → Option Marks → Bool
test_marks f none = false
test_marks f (some m) = f m

-- Whether the controller has to be restarted to change its chained mode.
abbrev pub needs_restart : SwitchParams → Name → Bool → Bool
needs_restart q name is_active =
    (has_item q.to_chained_mode_request name || has_item q.from_chained_mode_request name)
    && is_active
    && not (has_item q.deactivate_request name)

abbrev pub restart : SwitchParams → Name → SwitchParams
restart q name = record q {
  deactivate_request = q.deactivate_request ++ name ∷ [];
  activate_request = q.activate_request ++ name ∷ [];
}

unfoldable pub resolve_marks : Strictness → Name → Bool → Bool → SwitchParams → Option Marks
resolve_marks strictness name is_active is_inactive q =
    let q' = if needs_restart q name is_active then restart q name else q in
    let m : Option Marks = some (record {
      params = q';
      in_deactivate_list = has_item q'.deactivate_request name;
      in_activate_list = has_item q'.activate_request name;
    }) in
    let double_stop =
      handle_conflict strictness (test_marks (λ m. not is_active && m.in_deactivate_list) m)
        (drop_deactivation name) m in
    let doubled =
      handle_conflict strictness
        (test_marks (λ m. is_active && not m.in_deactivate_list && m.in_activate_list) double_stop)
        (drop_activation name) double_stop in
    handle_conflict strictness
      (test_marks (λ m. not is_inactive && not m.in_deactivate_list && m.in_activate_list) doubled)
      (drop_activation name) doubled

module _ {D E : Type 0} (p : ControllerPlugin E) where
  -- The interfaces of the request, and the record of the hardware that the controller uses.
  unfoldable pub collect : ControllerSpec E → Marks → ControllerManager D E → ControllerManager D E
  collect spec m s =
      let q = m.params in
      let r = s.resource_manager in
      let itfs = get_command_interfaces_names p spec.c r ++ get_state_interfaces_names p spec.c r in
      record s {
        resource_manager =
            if m.in_activate_list then cache_controller_to_hardware spec.name itfs r else r;
        switch_params = record q {
          activate_command_interface_request =
              if m.in_activate_list
              then extract_command_interfaces_for_controller p spec r
                  q.activate_command_interface_request
              else q.activate_command_interface_request;
          deactivate_command_interface_request =
              if m.in_deactivate_list
              then extract_command_interfaces_for_controller p spec r
                  q.deactivate_command_interface_request
              else q.deactivate_command_interface_request;
        };
      }

  -- Whether the request goes on.
  unfoldable pub resolve_conflicts : Strictness → List (ControllerSpec E) → CmAction D E Bool
  resolve_conflicts strictness [] s = (s, returned true)
  resolve_conflicts strictness (spec ∷ specs) s =
      elim (resolve_marks strictness spec.name (is_active spec.c.lifecycle_state)
        (is_inactive spec.c.lifecycle_state) s.switch_params) [
          | none ↦ (record s { switch_params = clear_lists s.switch_params }, returned false)
          | some m ↦ resolve_conflicts strictness specs (collect spec m s)
        ]
