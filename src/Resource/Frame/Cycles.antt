-- ===== src/Resource/Frame/Cycles.antt =====
-- Reading and writing keep the claims and the stored command interfaces.
use ros2_control.Base.{ℕ, zero, suc, ◌+◌, refl, arith, Name, read_state, length}
use ros2_control.Base.Int.{ℤ}
use ros2_control.Hardware.Types.{LifecycleState, ReturnType}
use ros2_control.Hardware.Plugin.{Plugin}
use ros2_control.Resource.Storage
use ros2_control.Resource.Storage.{ResourceManager, ManagerAction, Kind, Interface}
use ros2_control.Resource.Transitions
use ros2_control.Resource.Transitions.{Focus, FocusAction}
use ros2_control.Resource.Cycle
use ros2_control.Resource.Cycle.{Surroundings}
use ros2_control.Resource.Frame.{
  KeepsStore, KeepsFocus, focus-KeepsStore, bind-KeepsStore, set_component_state-KeepsStore,
}

module _ {D : Type 0} where
  module _ (p : Plugin D) (env : Surroundings) (period : ℤ) where
    try_read-KeepsFocus : KeepsFocus (Cycle.try_read p env period)
    unfolding Cycle.try_read Cycle.at_rate Storage.touch_hardware_info Storage.set_hardware_info
        Storage.update_hardware_component_group_state
    try_read-KeepsFocus f = ground arith

    try_write-KeepsFocus : KeepsFocus (Cycle.try_write p env period)
    unfolding Cycle.try_write Cycle.at_rate Storage.touch_hardware_info Storage.set_hardware_info
        Storage.update_hardware_component_group_state
    try_write-KeepsFocus f = ground arith

    fail_component-KeepsFocus :
        (result : ReturnType) → KeepsFocus (Cycle.fail_component p env period result)
    unfolding Cycle.fail_component Transitions.remove_all_hardware_interfaces_from_available_list
    fail_component-KeepsFocus result f = ground arith

    read_component-KeepsFocus : KeepsFocus (Cycle.read_component p env period)
    unfolding Cycle.read_component Cycle.read_unlocked
    read_component-KeepsFocus f = ground (
      arith,
      try_read-KeepsFocus f,
      fail_component-KeepsFocus ReturnType.error (Cycle.try_read p env period f).0,
    )

    read_components-KeepsStore :
        (k : Kind) (n i : ℕ) → KeepsStore (Cycle.read_components p env period k n i)
    unfolding Cycle.read_components
    read_components-KeepsStore k zero i r = refl
    read_components-KeepsStore k (suc n) i r =
        let one = Transitions.focus k i (Cycle.read_component p env period) in
        ground (
          arith,
          focus-KeepsStore k i (Cycle.read_component p env period) read_component-KeepsFocus r,
          read_components-KeepsStore k n (i + 1) (one r).0,
        )

    read_all-KeepsStore : (k : Kind) → KeepsStore (Cycle.read_all p env period k)
    unfolding Cycle.read_all
    read_all-KeepsStore k r = read_components-KeepsStore k (length (Storage.container k r)) 0 r

    pub read-KeepsStore : KeepsStore (Cycle.read p env period)
    unfolding Cycle.read
    read-KeepsStore r =
        let cleared = Cycle.clear_status r in
        let first = (Cycle.read_all p env period Kind.actuator cleared).0 in
        let second = (Cycle.read_all p env period Kind.sensor first).0 in
        ground (
          arith,
          read_all-KeepsStore Kind.actuator cleared,
          read_all-KeepsStore Kind.sensor first,
          read_all-KeepsStore Kind.system second,
        )

    write_unlocked-KeepsFocus : KeepsFocus (Cycle.write_unlocked p env period)
    unfolding Cycle.write_unlocked
    write_unlocked-KeepsFocus f = ground (arith, try_write-KeepsFocus f)

    deactivate_component-KeepsStore :
        (name : Name) → KeepsStore (Cycle.deactivate_component p env period name)
    unfolding Cycle.deactivate_component
    deactivate_component-KeepsStore name r =
        ground (arith, set_component_state-KeepsStore p name LifecycleState.inactive r)

    after_write-KeepsStore :
        (k : Kind) (i : ℕ) (value : ReturnType)
        → KeepsStore (Cycle.after_write p env period k i value)
    unfolding Cycle.after_write
    after_write-KeepsStore k i ReturnType.ok r = refl
    after_write-KeepsStore k i ReturnType.error r =
        focus-KeepsStore k i (Cycle.fail_component p env period ReturnType.error)
          (fail_component-KeepsFocus ReturnType.error) r
    after_write-KeepsStore k i ReturnType.deactivate r =
        bind-KeepsStore (Transitions.focus k i (read_state Cycle.get_name))
          (Cycle.deactivate_component p env period)
          (focus-KeepsStore k i (read_state Cycle.get_name) (λ f. refl))
          deactivate_component-KeepsStore r

    write_component-KeepsStore :
        (k : Kind) (i : ℕ) → KeepsStore (Cycle.write_component p env period k i)
    unfolding Cycle.write_component
    write_component-KeepsStore k i =
        bind-KeepsStore (Transitions.focus k i (Cycle.write_unlocked p env period))
          (Cycle.after_write p env period k i)
          (focus-KeepsStore k i (Cycle.write_unlocked p env period) write_unlocked-KeepsFocus)
          (after_write-KeepsStore k i)

    write_components-KeepsStore :
        (k : Kind) (n i : ℕ) → KeepsStore (Cycle.write_components p env period k n i)
    unfolding Cycle.write_components
    write_components-KeepsStore k zero i r = refl
    write_components-KeepsStore k (suc n) i r = ground (
      arith,
      write_component-KeepsStore k i r,
      write_components-KeepsStore k n (i + 1) (Cycle.write_component p env period k i r).0,
    )

    write_all-KeepsStore : (k : Kind) → KeepsStore (Cycle.write_all p env period k)
    unfolding Cycle.write_all
    write_all-KeepsStore k r = write_components-KeepsStore k (length (Storage.container k r)) 0 r

    pub write-KeepsStore : KeepsStore (Cycle.write p env period)
    unfolding Cycle.write
    write-KeepsStore r =
        let cleared = Cycle.clear_status r in
        let first = (Cycle.write_all p env period Kind.actuator cleared).0 in
        ground (
          arith,
          write_all-KeepsStore Kind.actuator cleared,
          write_all-KeepsStore Kind.system first,
        )
