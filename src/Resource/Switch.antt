-- ===== src/Resource/Switch.antt =====
-- `ResourceManager::prepare_command_mode_switch` and `perform_command_mode_switch`.
use ros2_control.Base.{
  ℕ, zero, suc, ◌+◌, Bool, true, false, not, ◌&&◌, ◌||◌, Option, none, some, List, [], ◌∷◌,
  if◌then◌else◌, ltb, length, is_empty, Name, has_item, lookup, returned, thrown, Action, ◌>>=◌,
  done, raise, modify, read_state, when, branch, ◌>>◌,
}
use ros2_control.Hardware.Types.{ReturnType, is_inactive, is_active}
use ros2_control.Hardware.Plugin.{Plugin}
use ros2_control.Hardware.Component
use ros2_control.Hardware.Component.{HardwareComponent, ComponentAction}
use ros2_control.Resource.Storage.{
  ResourceManager, ManagerAction, HardwareComponentInfo, Kind, container,
}
use ros2_control.Resource.Transitions.{Focus, FocusAction, focus, on_hardware}
use ros2_control.Resource.Interfaces.{command_interface_exists, command_interface_is_available}

abbrev pub keep_items : List Name → List Name → List Name
keep_items lookup [] = []
keep_items lookup (x ∷ xs) =
    if has_item lookup x then x ∷ keep_items lookup xs else keep_items lookup xs

-- Iterate over the longer list, and keep what the shorter one has.
unfoldable pub find_common_hardware_interfaces : List Name → List Name → List Name
find_common_hardware_interfaces hw_command_itfs start_stop =
    if ltb (length hw_command_itfs) (length start_stop)
    then keep_items hw_command_itfs start_stop
    else keep_items start_stop hw_command_itfs

-- How the loop over the components goes on: with what this component makes of the result, or by
-- `return false` from the whole lambda.
pub data Verdict : Type 0 where
  accepted refused stop : Verdict

abbrev accepts : ReturnType → Verdict
accepts ReturnType.ok = accepted
accepts _ = refused

module _ {D : Type 0} where
  unfoldable pub check_exist : List Name → ResourceManager D → Bool
  check_exist [] r = true
  check_exist (itf ∷ itfs) r = command_interface_exists itf r && check_exist itfs r

  unfoldable pub check_available : List Name → ResourceManager D → Bool
  unfolding command_interface_is_available
  check_available [] r = true
  check_available (itf ∷ itfs) r = command_interface_is_available itf r && check_available itfs r

  -- The `try` block with its handlers.
  abbrev caught_switch : ComponentAction D ReturnType → FocusAction D Verdict
  caught_switch m f =
      let (f', o) = on_hardware m f in
      elim o [
        | returned value ↦ (f', returned (accepts value))
        | thrown ↦ if f'.manager.handle_exceptions then (f', returned refused) else (f', thrown)
      ]

  abbrev command_interfaces_at : Option HardwareComponentInfo → Action (Focus D) (List Name)
  command_interfaces_at none = raise
  command_interfaces_at (some info) = done info.command_interfaces

  module _ (call : List Name → List Name → ComponentAction D ReturnType)
      (start_interfaces stop_interfaces : List Name) where
    -- One component, once its share of the interfaces is known.
    unfoldable pub switch_share : List Name → List Name → FocusAction D Verdict
    switch_share start stop_share f =
        let s = f.hardware.lifecycle_state in
        let allowed = f.manager.allow_controller_activation_with_inactive_hardware in
        branch (is_empty start && is_empty stop_share) (done accepted)
          (branch (not (is_empty start) && is_inactive s && not allowed) (done stop) (
            branch (is_inactive s || is_active s) (caught_switch (call start stop_share))
              (done refused)))
          f

    unfoldable pub switch_component : FocusAction D Verdict
    switch_component = do
      info ← read_state λ f. lookup f.hardware.name f.manager.hardware_info_map
      itfs ← command_interfaces_at info
      switch_share (find_common_hardware_interfaces itfs start_interfaces)
          (find_common_hardware_interfaces itfs stop_interfaces)

    -- The lambda over one container, from index `i` on, with `ret` so far.
    unfoldable pub switch_components : Kind → ℕ → ℕ → Bool → ManagerAction D Bool
    switch_components k zero i ret = done ret
    switch_components k (suc n) i ret = do
      verdict ← focus k i switch_component
      elim verdict [
        | accepted ↦ switch_components k n (i + 1) ret
        | refused ↦ switch_components k n (i + 1) false
        | stop ↦ done false
      ]

    unfoldable pub switch_container : Kind → ManagerAction D Bool
    switch_container k r = switch_components k (length (container k r)) 0 true r

    -- Both containers are always gone through.
    unfoldable pub switch_all : ManagerAction D Bool
    switch_all = do
      actuators_result ← switch_container Kind.actuator
      systems_result ← switch_container Kind.system
      done (actuators_result && systems_result)

  module _ (p : Plugin D) (start_interfaces stop_interfaces : List Name) where
    unfoldable pub prepare_command_mode_switch : ManagerAction D Bool
    prepare_command_mode_switch r =
        branch (is_empty start_interfaces && is_empty stop_interfaces) (done true)
          (branch (not (check_exist start_interfaces r && check_exist stop_interfaces r))
            (done false)
            (branch (not (check_available start_interfaces r && check_available stop_interfaces r))
              (done false)
              (switch_all (Component.prepare_command_mode_switch p) start_interfaces
                stop_interfaces)))
          r

    -- A switch that succeeded resets the joint limiters.
    abbrev pub reset_limiters : ManagerAction D Bool → ManagerAction D Bool
    reset_limiters m = do
      result ← m
      when result (modify λ r. record r { limiter_resets = r.limiter_resets + 1 })
      done result

    unfoldable pub perform_command_mode_switch : ManagerAction D Bool
    perform_command_mode_switch r =
        branch (is_empty start_interfaces && is_empty stop_interfaces) (done true)
          (reset_limiters
            (switch_all (Component.perform_command_mode_switch p) start_interfaces stop_interfaces))
          r
