-- ===== src/Resource/Availability/Effects.antt =====
-- What a successful transition does to the lists of available interfaces.
use ros2_control.Base.{
  ◌≡◌, refl, Bool, true, false, ◌||◌, List, arith, Name, has_item, has_item-add_items,
  has_item-remove_items, IsUnique, returned, if◌then◌else◌,
}
use ros2_control.Hardware.Types.{LifecycleState}
use ros2_control.Hardware.Plugin.{Plugin}
use ros2_control.Hardware.Component
use ros2_control.Resource.Storage
use ros2_control.Resource.Storage.{ResourceManager}
use ros2_control.Resource.Transitions
use ros2_control.Resource.Transitions.{Focus, FocusAction}
use ros2_control.Resource.Availability.{
  and_then-true, SameName, activate_hardware-SameName, deactivate_hardware-SameName,
}

-- What becomes of an interface: it stays as it is, or is offered or withdrawn if it is one of the
-- hardware's own.
pub data Change : Type 0 where
  stays offered withdrawn : Change

-- The change that a successful transition to the target, from the given state, makes.
unfoldable pub change : LifecycleState → LifecycleState → Change
change LifecycleState.inactive LifecycleState.unconfigured = Change.offered
change LifecycleState.active LifecycleState.unconfigured = Change.offered
change LifecycleState.unconfigured LifecycleState.inactive = Change.withdrawn
change LifecycleState.unconfigured LifecycleState.active = Change.withdrawn
change LifecycleState.finalized LifecycleState.unconfigured = Change.withdrawn
change LifecycleState.finalized LifecycleState.inactive = Change.withdrawn
change LifecycleState.finalized LifecycleState.active = Change.withdrawn
change _ _ = Change.stays

unfoldable pub available_after : Change → Bool → Bool → Bool
available_after Change.stays own before = before
available_after Change.offered own before = before || own
available_after Change.withdrawn own before = if own then false else before

module _ {D : Type 0} where
  abbrev own_commands : Focus D → List Name
  own_commands f = (Storage.hardware_info f.hardware.name f.manager).command_interfaces

  abbrev own_states : Focus D → List Name
  own_states f = (Storage.hardware_info f.hardware.name f.manager).state_interfaces

  -- Both lists change as said, and by the hardware's own interfaces only.
  abbrev pub Changes : Change → Focus D → Focus D → Type 0
  Changes ch f g =
      (a : Name)
      → (has_item g.manager.available_command_interfaces a
          ≡ available_after ch (has_item (own_commands f) a)
              (has_item f.manager.available_command_interfaces a))
        × (has_item g.manager.available_state_interfaces a
            ≡ available_after ch (has_item (own_states f) a)
                (has_item f.manager.available_state_interfaces a))

  abbrev pub HasUniqueLists : ResourceManager D → Type 0
  HasUniqueLists r = IsUnique r.available_command_interfaces × IsUnique r.available_state_interfaces

  module _ (p : Plugin D) where
    configure-name : (f : Focus D) → (Component.configure p f.hardware).0.name ≡ f.hardware.name
    unfolding Component.configure
    configure-name f = ground arith

    cleanup-name : (f : Focus D) → (Component.cleanup p f.hardware).0.name ≡ f.hardware.name
    unfolding Component.cleanup
    cleanup-name f = ground arith

    shutdown-name : (f : Focus D) → (Component.shutdown p f.hardware).0.name ≡ f.hardware.name
    unfolding Component.shutdown
    shutdown-name f = ground arith

    configure_hardware-Changes :
        (f : Focus D)
        → (Transitions.configure_hardware p f).1 ≡ returned true
        → Changes Change.offered f (Transitions.configure_hardware p f).0
    unfolding Transitions.configure_hardware available_after
        Transitions.add_all_hardware_interfaces_to_available_list Storage.reset_group_state
    configure_hardware-Changes f e a =
        let info = Storage.hardware_info f.hardware.name f.manager in
        ground (
          arith,
          configure-name f,
          has_item-add_items f.manager.available_command_interfaces info.command_interfaces a,
          has_item-add_items f.manager.available_state_interfaces info.state_interfaces a,
        )

    cleanup_hardware-Changes :
        (f : Focus D)
        → HasUniqueLists f.manager
        → (Transitions.cleanup_hardware p f).1 ≡ returned true
        → Changes Change.withdrawn f (Transitions.cleanup_hardware p f).0
    unfolding Transitions.cleanup_hardware available_after
        Transitions.remove_all_hardware_interfaces_from_available_list Storage.reset_group_state
    cleanup_hardware-Changes f u e a =
        let info = Storage.hardware_info f.hardware.name f.manager in
        ground (
          arith,
          cleanup-name f,
          has_item-remove_items f.manager.available_command_interfaces info.command_interfaces a
              u.0,
          has_item-remove_items f.manager.available_state_interfaces info.state_interfaces a u.1,
        )

    shutdown_hardware-Changes :
        (f : Focus D)
        → HasUniqueLists f.manager
        → (Transitions.shutdown_hardware p f).1 ≡ returned true
        → Changes Change.withdrawn f (Transitions.shutdown_hardware p f).0
    unfolding Transitions.shutdown_hardware available_after
        Transitions.remove_all_hardware_interfaces_from_available_list Storage.reset_group_state
    shutdown_hardware-Changes f u e a =
        let info = Storage.hardware_info f.hardware.name f.manager in
        ground (
          arith,
          shutdown-name f,
          has_item-remove_items f.manager.available_command_interfaces info.command_interfaces a
              u.0,
          has_item-remove_items f.manager.available_state_interfaces info.state_interfaces a u.1,
        )

    -- A change seen from the same name and manager is the same change.
    Changes-SameName :
        (ch : Change) (f g h : Focus D) → SameName g f → Changes ch g h → Changes ch f h
    Changes-SameName ch f g h (n, m) c a = ground (arith, c a)

    SameName-Changes : (f g : Focus D) → SameName g f → Changes Change.stays f g
    unfolding available_after
    SameName-Changes f g (n, m) a = ground arith

    then_same : (ch : Change) (f g h : Focus D) → SameName h g → Changes ch f g → Changes ch f h
    then_same ch f g h (n, m) c a = ground (arith, c a)

    after_deactivate :
        (f : Focus D) (m : FocusAction D Bool)
        → HasUniqueLists f.manager
        → ((g : Focus D)
            → HasUniqueLists g.manager
            → (m g).1 ≡ returned true
            → Changes Change.withdrawn g (m g).0)
        → (Transitions.and_then p (Transitions.deactivate_hardware p) m f).1 ≡ returned true
        → Changes Change.withdrawn f
            (Transitions.and_then p (Transitions.deactivate_hardware p) m f).0
    after_deactivate f m u withdraws e =
        let (_, last, both) = and_then-true p (Transitions.deactivate_hardware p) m f e in
        let g = (Transitions.deactivate_hardware p f).0 in
        let same = deactivate_hardware-SameName p f in
        rw both
          (Changes-SameName Change.withdrawn f g (m g).0 same (withdraws g (rw (same.1) u) last))

    transition_to-Changes :
        (target s : LifecycleState) (f : Focus D)
        → HasUniqueLists f.manager
        → (Transitions.transition_to p target s f).1 ≡ returned true
        → Changes (change target s) f (Transitions.transition_to p target s f).0
    unfolding Transitions.transition_to change
    transition_to-Changes LifecycleState.unconfigured LifecycleState.inactive f u e =
        cleanup_hardware-Changes f u e
    transition_to-Changes LifecycleState.unconfigured LifecycleState.active f u e =
        after_deactivate f (Transitions.cleanup_hardware p) u cleanup_hardware-Changes e
    transition_to-Changes LifecycleState.inactive LifecycleState.unconfigured f u e =
        configure_hardware-Changes f e
    transition_to-Changes LifecycleState.inactive LifecycleState.active f u e =
        SameName-Changes f (Transitions.deactivate_hardware p f).0
          (deactivate_hardware-SameName p f)
    transition_to-Changes LifecycleState.active LifecycleState.unconfigured f u e =
        let m = Transitions.configure_hardware p in
        let (first, _, both) = and_then-true p m (Transitions.activate_hardware p) f e in
        let g = (m f).0 in
        rw both (
          then_same Change.offered f g (Transitions.activate_hardware p g).0
            (activate_hardware-SameName p g) (configure_hardware-Changes f first))
    transition_to-Changes LifecycleState.active LifecycleState.inactive f u e =
        SameName-Changes f (Transitions.activate_hardware p f).0 (activate_hardware-SameName p f)
    transition_to-Changes LifecycleState.finalized LifecycleState.unconfigured f u e =
        shutdown_hardware-Changes f u e
    transition_to-Changes LifecycleState.finalized LifecycleState.inactive f u e =
        shutdown_hardware-Changes f u e
    transition_to-Changes LifecycleState.finalized LifecycleState.active f u e =
        after_deactivate f (Transitions.shutdown_hardware p) u shutdown_hardware-Changes e
    transition_to-Changes _ _ f u e = SameName-Changes f f (refl, refl)

    -- A successful transition offers exactly the hardware's own interfaces when it leads from
    -- unconfigured to inactive or active, withdraws exactly these when it leads to unconfigured from
    -- inactive or active, or to finalized, and changes no availability otherwise. The lists of
    -- available interfaces have no repetitions beforehand.
    pub set_hardware_state-Changes :
        (target : LifecycleState) (f : Focus D)
        → HasUniqueLists f.manager
        → (Transitions.set_hardware_state p target f).1 ≡ returned true
        → Changes
            (change target f.hardware.lifecycle_state)
            f
            (Transitions.set_hardware_state p target f).0
    unfolding Transitions.set_hardware_state
    set_hardware_state-Changes target f u e a =
        let s = f.hardware.lifecycle_state in
        ground (
          arith,
          λ (e : (Transitions.transition_to p target s f).1 ≡ returned true).
              transition_to-Changes target s f u e a,
        )
