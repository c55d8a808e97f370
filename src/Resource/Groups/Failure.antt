-- ===== src/Resource/Groups/Failure.antt =====
-- What a failed read leaves behind (`read` of `ResourceManager`).
use ros2_control.Base.{
  ◌≡◌, true, false, ◌&&◌, ◌∷◌, [], arith, Name, has_item, has_item-append, has_item-remove_items,
  lookup-assign, lookup-emplace, returned,
}
use ros2_control.Base.Int.{ℤ}
use ros2_control.Hardware.Types.{ReturnType}
use ros2_control.Hardware.Plugin.{Plugin}
use ros2_control.Hardware.Component
use ros2_control.Resource.Storage
use ros2_control.Resource.Storage.{ResourceManager}
use ros2_control.Resource.Transitions
use ros2_control.Resource.Transitions.{Focus}
use ros2_control.Resource.Cycle
use ros2_control.Resource.Cycle.{Surroundings}
use ros2_control.Resource.Availability.Effects.{HasUniqueLists}
use ros2_control.Resource.Groups.{
  HasFailed, touched, at_rate-SameGroup, read_step, error-group, try_read_fails,
}

-- What the body of the `try` block keeps.
pub record KeepsRest {D : Type 0} (g f : Focus D) : Type 0 where
  pub name : g.hardware.name ≡ f.hardware.name
  pub handle_exceptions : g.manager.handle_exceptions ≡ f.manager.handle_exceptions
  pub status : g.manager.read_write_status ≡ f.manager.read_write_status
  pub commands : g.manager.available_command_interfaces ≡ f.manager.available_command_interfaces
  pub states : g.manager.available_state_interfaces ≡ f.manager.available_state_interfaces
  pub own_commands :
      (Storage.hardware_info f.hardware.name g.manager).command_interfaces
      ≡ (Storage.hardware_info f.hardware.name f.manager).command_interfaces

module _ {D : Type 0} (p : Plugin D) (env : Surroundings) (period : ℤ) (f : Focus D) where
  pub try_read-KeepsRest : KeepsRest (Cycle.try_read p env period f).0 f
  unfolding Cycle.try_read Storage.touch_hardware_info Storage.set_hardware_info
      Storage.hardware_info Storage.update_hardware_component_group_state
  try_read-KeepsRest =
      let name = f.hardware.name in
      let g = (read_step p env period f).0 in
      let info = Storage.hardware_info g.hardware.name g.manager in
      let refreshed : Storage.HardwareComponentInfo = record info {
        read_statistics = Cycle.refresh info.read_statistics g.hardware.read_statistics;
      } in
      ground (
        arith,
        at_rate-SameGroup p env.doubles f.hardware.last_read_cycle_time
            (Storage.hardware_info name (touched p env period f).manager) (env.now name) period
            (touched p env period f),
        lookup-emplace name name Storage.no_info f.manager.hardware_info_map,
        lookup-assign g.hardware.name name refreshed g.manager.hardware_info_map,
      )

  -- A component that has failed: whoever it was, its name is among the failed ones, and no command
  -- interface of its own is available any more.
  abbrev pub IsFailed : Focus D → Type 0
  IsFailed g =
      (g.manager.read_write_status.result ≡ ReturnType.error)
      × (has_item g.manager.read_write_status.failed_hardware_names f.hardware.name ≡ true)
      × ((a : Name)
          → has_item (Storage.hardware_info f.hardware.name f.manager).command_interfaces a
              && has_item g.manager.available_command_interfaces a
            ≡ false)

  fail_component-IsFailed :
      (g : Focus D)
      → KeepsRest g f
      → HasUniqueLists f.manager
      → (Cycle.fail_component p env period ReturnType.error g).1 ≡ returned tt
      → IsFailed (Cycle.fail_component p env period ReturnType.error g).0
  unfolding Cycle.fail_component Transitions.remove_all_hardware_interfaces_from_available_list
      has_item
  fail_component-IsFailed g k u e = (
    ground (arith, error-group p g.hardware),
    ground (
      arith,
      k.name,
      error-group p g.hardware,
      has_item-append g.manager.read_write_status.failed_hardware_names
          ((Component.error p g.hardware).0.name ∷ []) f.hardware.name,
    ),
    λ a. ground (
      arith,
      k.name,
      k.commands,
      k.own_commands,
      error-group p g.hardware,
      has_item-remove_items g.manager.available_command_interfaces
          (Storage.hardware_info g.hardware.name g.manager).command_interfaces a
          (rw (k.commands) u.0),
    ),
  )

  -- If a component's group has failed, its read counts as failed whatever its plugin returns, or even
  -- if it throws: its name is reported, the cycle's result is an error, and none of its command
  -- interfaces is available afterwards. Exceptions are handled and not passed on, the component's
  -- mutex is free, the lists of available interfaces have no repetitions, and `on_error` does not
  -- throw.
  pub read_component_group-IsFailed :
      {v : ReturnType}
      → f.manager.handle_exceptions ≡ true
      → env.is_locked f.hardware.name ≡ false
      → HasFailed f.hardware.group f.manager v
      → HasUniqueLists f.manager
      → (Cycle.read_component p env period f).1 ≡ returned tt
      → IsFailed (Cycle.read_component p env period f).0
  unfolding Cycle.read_component Cycle.read_unlocked
  read_component_group-IsFailed h free failed u e =
      let g = (Cycle.try_read p env period f).0 in
      let k = try_read-KeepsRest in
      ground (
        arith,
        k.handle_exceptions,
        try_read_fails p env period f {w = ReturnType.ok} failed,
        fail_component-IsFailed g k u,
      )
