-- ===== src/Resource/Availability.antt =====
-- Which interfaces are available after a lifecycle transition of hardware (`configure_hardware` to
-- `set_component_state` of `ResourceStorage`).
pub mod Effects
use ros2_control.Base.{
  ℕ, ◌≡◌, refl, ◌⊎◌, inl, inr, Bool, true, false, ◌||◌, List, arith, Name, has_item, add_items,
  remove_items, has_item-add_items, has_item-remove_items, IsUnique, Outcome, returned, thrown,
  if◌then◌else◌, Outcome-cases,
}
use ros2_control.Hardware.Types.{
  LifecycleState, CallbackReturn, is_active, is_inactive, is_unconfigured,
}
use ros2_control.Hardware.Plugin.{Plugin}
use ros2_control.Hardware.Component
use ros2_control.Hardware.Component.{HardwareComponent}
use ros2_control.Resource.Storage
use ros2_control.Resource.Storage.{ResourceManager}
use ros2_control.Resource.Transitions
use ros2_control.Resource.Transitions.{Focus, FocusAction}

-- A transition that returns reports the state in which it leaves the component.
abbrev Reports : {D : Type 0} → HardwareComponent D × Outcome LifecycleState → Type 0
Reports (c, o) = (o ≡ thrown) ⊎ (o ≡ returned c.lifecycle_state)

-- The same component, as far as the manager is concerned.
abbrev pub SameName : {D : Type 0} → Focus D → Focus D → Type 0
SameName f g = (f.hardware.name ≡ g.hardware.name) × (f.manager ≡ g.manager)

module _ {D : Type 0} (p : Plugin D) where
  module _ (c : HardwareComponent D) where
    configure-Reports : Reports (Component.configure p c)
    unfolding Component.configure
    configure-Reports = ground arith

    cleanup-Reports : Reports (Component.cleanup p c)
    unfolding Component.cleanup
    cleanup-Reports = ground arith

    shutdown-Reports : Reports (Component.shutdown p c)
    unfolding Component.shutdown
    shutdown-Reports = ground arith

    activate-Reports : Reports (Component.activate p c)
    unfolding Component.activate
    activate-Reports = ground arith

    deactivate-Reports : Reports (Component.deactivate p c)
    unfolding Component.deactivate
    deactivate-Reports = ground arith

  module _ (f : Focus D) where
    configure_hardware-true :
        (Transitions.configure_hardware p f).1 ≡ returned true
        → (Transitions.configure_hardware p f).0.hardware.lifecycle_state ≡ LifecycleState.inactive
    unfolding Transitions.configure_hardware
    configure_hardware-true e = ground (arith, configure-Reports f.hardware)

    cleanup_hardware-true :
        (Transitions.cleanup_hardware p f).1 ≡ returned true
        → (Transitions.cleanup_hardware p f).0.hardware.lifecycle_state
          ≡ LifecycleState.unconfigured
    unfolding Transitions.cleanup_hardware
    cleanup_hardware-true e = ground (arith, cleanup-Reports f.hardware)

    shutdown_hardware-true :
        (Transitions.shutdown_hardware p f).1 ≡ returned true
        → (Transitions.shutdown_hardware p f).0.hardware.lifecycle_state ≡ LifecycleState.finalized
    unfolding Transitions.shutdown_hardware
    shutdown_hardware-true e = ground (arith, shutdown-Reports f.hardware)

    activate_hardware-true :
        (Transitions.activate_hardware p f).1 ≡ returned true
        → (Transitions.activate_hardware p f).0.hardware.lifecycle_state ≡ LifecycleState.active
    unfolding Transitions.activate_hardware
    activate_hardware-true e = ground (arith, activate-Reports f.hardware)

    deactivate_hardware-true :
        (Transitions.deactivate_hardware p f).1 ≡ returned true
        → (Transitions.deactivate_hardware p f).0.hardware.lifecycle_state ≡ LifecycleState.inactive
    unfolding Transitions.deactivate_hardware
    deactivate_hardware-true e = ground (arith, deactivate-Reports f.hardware)

  pub and_then-true :
      (m n : FocusAction D Bool) (f : Focus D)
      → (Transitions.and_then p m n f).1 ≡ returned true
      → ((m f).1 ≡ returned true)
        × ((n (m f).0).1 ≡ returned true)
        × (Transitions.and_then p m n f ≡ n (m f).0)
  and_then-true m n f e = ground arith

  transition_to-true :
      (target s : LifecycleState) (f : Focus D)
      → f.hardware.lifecycle_state ≡ s
      → (Transitions.transition_to p target s f).1 ≡ returned true
      → (Transitions.transition_to p target s f).0.hardware.lifecycle_state ≡ target
  unfolding Transitions.transition_to
  transition_to-true LifecycleState.unconfigured LifecycleState.unconfigured f h e = h
  transition_to-true LifecycleState.unconfigured LifecycleState.inactive f h e =
      cleanup_hardware-true f e
  transition_to-true LifecycleState.unconfigured LifecycleState.active f h e =
      let m = Transitions.deactivate_hardware p in
      let (_, last, both) = and_then-true m (Transitions.cleanup_hardware p) f e in
      rw both (cleanup_hardware-true (m f).0 last)
  transition_to-true LifecycleState.inactive LifecycleState.unconfigured f h e =
      configure_hardware-true f e
  transition_to-true LifecycleState.inactive LifecycleState.inactive f h e = h
  transition_to-true LifecycleState.inactive LifecycleState.active f h e =
      deactivate_hardware-true f e
  transition_to-true LifecycleState.active LifecycleState.unconfigured f h e =
      let m = Transitions.configure_hardware p in
      let (_, last, both) = and_then-true m (Transitions.activate_hardware p) f e in
      rw both (activate_hardware-true (m f).0 last)
  transition_to-true LifecycleState.active LifecycleState.inactive f h e =
      activate_hardware-true f e
  transition_to-true LifecycleState.active LifecycleState.active f h e = h
  transition_to-true LifecycleState.finalized LifecycleState.unconfigured f h e =
      shutdown_hardware-true f e
  transition_to-true LifecycleState.finalized LifecycleState.inactive f h e =
      shutdown_hardware-true f e
  transition_to-true LifecycleState.finalized LifecycleState.active f h e =
      let m = Transitions.deactivate_hardware p in
      let (_, last, both) = and_then-true m (Transitions.shutdown_hardware p) f e in
      rw both (shutdown_hardware-true (m f).0 last)
  transition_to-true LifecycleState.finalized LifecycleState.finalized f h e = h
  transition_to-true _ _ f h e = cc

  -- A transition that is reported as successful has reached its target.
  pub set_hardware_state-true :
      (target : LifecycleState) (f : Focus D)
      → (Transitions.set_hardware_state p target f).1 ≡ returned true
      → (Transitions.set_hardware_state p target f).0.hardware.lifecycle_state ≡ target
  unfolding Transitions.set_hardware_state
  set_hardware_state-true target f e =
      ground (arith, transition_to-true target f.hardware.lifecycle_state f)

  pub activate_hardware-SameName : (f : Focus D) → SameName (Transitions.activate_hardware p f).0 f
  unfolding Transitions.activate_hardware Component.activate
  activate_hardware-SameName f = ground arith

  pub deactivate_hardware-SameName :
      (f : Focus D) → SameName (Transitions.deactivate_hardware p f).0 f
  unfolding Transitions.deactivate_hardware Component.deactivate
  deactivate_hardware-SameName f = ground arith
