-- ===== src/Resource/Transitions.antt =====
-- Lifecycle transitions of hardware through the resource manager: `configure_hardware` to
-- `set_component_state`.
use ros2_control.Base.{
  ℕ, ◌+◌, Bool, true, false, none, some, if◌then◌else◌, get_elem?, Name, add_items, remove_items,
  returned, thrown, Action, ◌>>=◌, ◌>>◌, done, modify, read_state, when, branch,
}
use ros2_control.Hardware.Types.{
  LifecycleState, is_unconfigured, is_inactive, is_active, is_finalized,
}
use ros2_control.Hardware.Plugin.{Plugin}
use ros2_control.Hardware.Component
use ros2_control.Hardware.Component.{HardwareComponent, ComponentAction}
use ros2_control.Resource.Storage.{
  ResourceManager, ManagerAction, Kind, container, put, hardware_info, touch_hardware_info,
  reset_group_state,
}

-- The manager, and the component that a method of the storage has a reference to. Meanwhile the
-- component's place in its container is not looked at.
pub record Focus (D : Type 0) : Type 0 where
  pub manager : ResourceManager D
  pub hardware : HardwareComponent D

abbrev pub FocusAction : Type 0 → Type 0 → Type 0
FocusAction D = Action (Focus D)

module _ {D : Type 0} where
  abbrev pub on_hardware {ℓ} : {A : Type ℓ} → Action (HardwareComponent D) A → Action (Focus D) A
  on_hardware m f = let (c, o) = m f.hardware in (record f { hardware = c }, o)

  abbrev pub on_manager : (ResourceManager D → ResourceManager D) → Focus D → Focus D
  on_manager g f = record f { manager = g f.manager }

  -- Take the reference, and leave the component changed in its place.
  unfoldable pub focus : {A : Type 0} → Kind → ℕ → Action (Focus D) A → ManagerAction D A
  focus k i m r = elim (get_elem? (container k r) i) [
    | none ↦ (r, thrown)
    | some c ↦
        let (f, o) = m (record { manager = r; hardware = c }) in (put k i f.hardware f.manager, o)
  ]

  -- `catch (...) { handle_exception_ ? void() : throw; }` with `result` still false
  abbrev pub attempt : FocusAction D Bool → FocusAction D Bool
  attempt m f =
      let (f', o) = m f in
      elim o [
        | returned b ↦ (f', returned b)
        | thrown ↦ if f'.manager.handle_exceptions then (f', returned false) else (f', thrown)
      ]

  -- `trigger_and_print_hardware_state_transition`
  abbrev pub trigger_transition :
      ComponentAction D LifecycleState → (LifecycleState → Bool) → FocusAction D Bool
  trigger_transition m is_target = do s ← on_hardware m; done (is_target s)

  unfoldable pub add_all_hardware_interfaces_to_available_list :
      Name → ResourceManager D → ResourceManager D
  unfolding touch_hardware_info hardware_info
  add_all_hardware_interfaces_to_available_list name r =
      let info = hardware_info name r in
      record (touch_hardware_info name r) {
        available_state_interfaces = add_items r.available_state_interfaces info.state_interfaces;
        available_command_interfaces =
            add_items r.available_command_interfaces info.command_interfaces;
      }

  unfoldable pub remove_all_hardware_interfaces_from_available_list :
      Name → ResourceManager D → ResourceManager D
  unfolding touch_hardware_info hardware_info
  remove_all_hardware_interfaces_from_available_list name r =
      let info = hardware_info name r in
      record (touch_hardware_info name r) {
        available_state_interfaces =
            remove_items r.available_state_interfaces info.state_interfaces;
        available_command_interfaces =
            remove_items r.available_command_interfaces info.command_interfaces;
      }

  abbrev make_available : Focus D → Focus D
  make_available f = on_manager (add_all_hardware_interfaces_to_available_list f.hardware.name) f

  abbrev pub make_unavailable : Focus D → Focus D
  make_unavailable f =
      on_manager (remove_all_hardware_interfaces_from_available_list f.hardware.name) f

  abbrev clear_group : Focus D → Focus D
  clear_group f = on_manager (reset_group_state f.hardware.group) f

  module _ (p : Plugin D) where
    unfoldable pub configure_hardware : FocusAction D Bool
    configure_hardware = do
      result ← attempt (trigger_transition (Component.configure p) is_inactive)
      when result (modify make_available)
      modify clear_group
      done result

    unfoldable pub cleanup_hardware : FocusAction D Bool
    cleanup_hardware = do
      result ← attempt (trigger_transition (Component.cleanup p) is_unconfigured)
      when result (modify make_unavailable)
      modify clear_group
      done result

    unfoldable pub shutdown_hardware : FocusAction D Bool
    shutdown_hardware = do
      result ← attempt (trigger_transition (Component.shutdown p) is_finalized)
      when result (do modify make_unavailable; modify clear_group)
      done result

    unfoldable pub activate_hardware : FocusAction D Bool
    activate_hardware = attempt (trigger_transition (Component.activate p) is_active)

    unfoldable pub deactivate_hardware : FocusAction D Bool
    deactivate_hardware = attempt (trigger_transition (Component.deactivate p) is_inactive)

    abbrev pub and_then : FocusAction D Bool → FocusAction D Bool → FocusAction D Bool
    and_then m n = do result ← m; branch result n (done false)

    -- The switch over the target state and the state that the component is in.
    unfoldable pub transition_to : LifecycleState → LifecycleState → FocusAction D Bool
    transition_to LifecycleState.unconfigured LifecycleState.unconfigured = done true
    transition_to LifecycleState.unconfigured LifecycleState.inactive = cleanup_hardware
    transition_to LifecycleState.unconfigured LifecycleState.active =
        and_then deactivate_hardware cleanup_hardware
    transition_to LifecycleState.inactive LifecycleState.unconfigured = configure_hardware
    transition_to LifecycleState.inactive LifecycleState.inactive = done true
    transition_to LifecycleState.inactive LifecycleState.active = deactivate_hardware
    transition_to LifecycleState.active LifecycleState.unconfigured =
        and_then configure_hardware activate_hardware
    transition_to LifecycleState.active LifecycleState.inactive = activate_hardware
    transition_to LifecycleState.active LifecycleState.active = done true
    transition_to LifecycleState.finalized LifecycleState.unconfigured = shutdown_hardware
    transition_to LifecycleState.finalized LifecycleState.inactive = shutdown_hardware
    transition_to LifecycleState.finalized LifecycleState.active =
        and_then deactivate_hardware shutdown_hardware
    transition_to LifecycleState.finalized LifecycleState.finalized = done true
    transition_to _ _ = done false

    abbrev count_switch : Focus D → Focus D
    count_switch = on_manager λ r. record r {
      state_switches =
          if r.has_state_switch_callback then r.state_switches + 1 else r.state_switches;
    }

    -- `ResourceStorage::set_component_state`
    unfoldable pub set_hardware_state : LifecycleState → FocusAction D Bool
    set_hardware_state target = do
      s ← read_state (λ f. f.hardware.lifecycle_state)
      result ← transition_to target s
      modify count_switch
      done result
