-- ===== src/Resource/Frame.antt =====
-- What lifecycle transitions, cycles and mode switches leave alone: the interfaces that are in store
-- and the record of who has claimed them.
pub mod Cycles
pub mod Switches
use ros2_control.Base.{
  ℕ, zero, suc, ◌+◌, ◌≡◌, refl, ◌∙◌, Bool, true, false, Option, none, some, List, arith, Name,
  Outcome, returned, thrown, ◌>>=◌, done, read_state, inl, inr, get_elem?, length, Bool-cases,
  Option-cases, lookup, has_key,
}
use ros2_control.Base.Int.{ℤ}
use ros2_control.Hardware.Types.{LifecycleState, ReturnType}
use ros2_control.Hardware.Plugin.{Plugin}
use ros2_control.Hardware.Component
use ros2_control.Hardware.Component.{HardwareComponent, ComponentAction}
use ros2_control.Resource.Storage
use ros2_control.Resource.Storage.{ResourceManager, ManagerAction, Kind, Interface}
use ros2_control.Resource.Transitions
use ros2_control.Resource.Transitions.{Focus, FocusAction}
use ros2_control.Resource.Components
use ros2_control.Resource.Cycle
use ros2_control.Resource.Cycle.{Surroundings}
use ros2_control.Resource.Switch

-- The claims and the stored command interfaces.
abbrev pub Store : Type 0
Store = List (Name × Bool) × List (Name × Interface)

module _ {D : Type 0} where
  abbrev pub store : ResourceManager D → Store
  store r = (r.claimed_command_interface_map, r.command_interface_map)

  abbrev pub KeepsStore : {A : Type 0} → ManagerAction D A → Type 0
  KeepsStore m = (r : ResourceManager D) → store (m r).0 ≡ store r

  abbrev pub KeepsFocus : {A : Type 0} → FocusAction D A → Type 0
  KeepsFocus m = (f : Focus D) → store (m f).0.manager ≡ store f.manager

  module _ (p : Plugin D) where
    configure_hardware-KeepsFocus : KeepsFocus (Transitions.configure_hardware p)
    unfolding Transitions.configure_hardware
        Transitions.add_all_hardware_interfaces_to_available_list Storage.reset_group_state
    configure_hardware-KeepsFocus f = ground arith

    cleanup_hardware-KeepsFocus : KeepsFocus (Transitions.cleanup_hardware p)
    unfolding Transitions.cleanup_hardware
        Transitions.remove_all_hardware_interfaces_from_available_list Storage.reset_group_state
    cleanup_hardware-KeepsFocus f = ground arith

    shutdown_hardware-KeepsFocus : KeepsFocus (Transitions.shutdown_hardware p)
    unfolding Transitions.shutdown_hardware
        Transitions.remove_all_hardware_interfaces_from_available_list Storage.reset_group_state
    shutdown_hardware-KeepsFocus f = ground arith

    activate_hardware-KeepsFocus : KeepsFocus (Transitions.activate_hardware p)
    unfolding Transitions.activate_hardware
    activate_hardware-KeepsFocus f = ground arith

    deactivate_hardware-KeepsFocus : KeepsFocus (Transitions.deactivate_hardware p)
    unfolding Transitions.deactivate_hardware
    deactivate_hardware-KeepsFocus f = ground arith

    and_then-KeepsFocus :
        (m n : FocusAction D Bool)
        → KeepsFocus m
        → KeepsFocus n
        → KeepsFocus (Transitions.and_then p m n)
    and_then-KeepsFocus m n hm hn f = ground (arith, hm f, hn (m f).0)

    transition_to-KeepsFocus :
        (target s : LifecycleState) → KeepsFocus (Transitions.transition_to p target s)
    unfolding Transitions.transition_to
    transition_to-KeepsFocus LifecycleState.unconfigured LifecycleState.inactive =
        cleanup_hardware-KeepsFocus
    transition_to-KeepsFocus LifecycleState.unconfigured LifecycleState.active =
        and_then-KeepsFocus _ _ deactivate_hardware-KeepsFocus cleanup_hardware-KeepsFocus
    transition_to-KeepsFocus LifecycleState.inactive LifecycleState.unconfigured =
        configure_hardware-KeepsFocus
    transition_to-KeepsFocus LifecycleState.inactive LifecycleState.active =
        deactivate_hardware-KeepsFocus
    transition_to-KeepsFocus LifecycleState.active LifecycleState.unconfigured =
        and_then-KeepsFocus _ _ configure_hardware-KeepsFocus activate_hardware-KeepsFocus
    transition_to-KeepsFocus LifecycleState.active LifecycleState.inactive =
        activate_hardware-KeepsFocus
    transition_to-KeepsFocus LifecycleState.finalized LifecycleState.unconfigured =
        shutdown_hardware-KeepsFocus
    transition_to-KeepsFocus LifecycleState.finalized LifecycleState.inactive =
        shutdown_hardware-KeepsFocus
    transition_to-KeepsFocus LifecycleState.finalized LifecycleState.active =
        and_then-KeepsFocus _ _ deactivate_hardware-KeepsFocus shutdown_hardware-KeepsFocus
    transition_to-KeepsFocus _ _ = λ f. refl

    set_hardware_state-KeepsFocus :
        (target : LifecycleState) → KeepsFocus (Transitions.set_hardware_state p target)
    unfolding Transitions.set_hardware_state
    set_hardware_state-KeepsFocus target f =
        ground (arith, transition_to-KeepsFocus target f.hardware.lifecycle_state f)

  put-store :
      (k : Kind) (i : ℕ) (c : HardwareComponent D) (r : ResourceManager D)
      → store (Storage.put k i c r) ≡ store r
  put-store Kind.actuator i c r = refl
  put-store Kind.sensor i c r = refl
  put-store Kind.system i c r = refl

  pub focus-KeepsStore :
      {A : Type 0} (k : Kind) (i : ℕ) (m : FocusAction D A)
      → KeepsFocus m
      → KeepsStore (Transitions.focus k i m)
  unfolding Transitions.focus
  focus-KeepsStore k i m h r = elim (Option-cases (get_elem? (Storage.container k r) i)) [
    | inl e ↦ rw (e, Transitions.focus) refl
    | inr (c, e) ↦
        let f : Focus D = record { manager = r; hardware = c } in
        rw (e, Transitions.focus) (put-store k i (m f).0.hardware (m f).0.manager ∙ h f)
  ]

  abbrev after :
      {A B : Type 0}
      → (A → ManagerAction D B)
      → ResourceManager D
      → Outcome A
      → ResourceManager D × Outcome B
  after n s (returned a) = n a s
  after n s thrown = (s, thrown)

  pub bind-KeepsStore :
      {A B : Type 0} (m : ManagerAction D A) (n : A → ManagerAction D B)
      → KeepsStore m
      → ((a : A) → KeepsStore (n a))
      → KeepsStore (m >>= n)
  bind-KeepsStore {A} {B} m n hm hn r = continues (m r).1 (m r).0 (hm r)
    where
      continues :
          (o : Outcome A) (s : ResourceManager D)
          → store s ≡ store r
          → store (after n s o).0 ≡ store r
      continues (returned a) s h = hn a s ∙ h
      continues thrown s h = h

  module _ (p : Plugin D) where
    set_state_in-KeepsStore :
        (name : Name) (target : LifecycleState) (k : Kind) (i : Option ℕ)
        (otherwise : ManagerAction D ReturnType)
        → KeepsStore otherwise
        → KeepsStore (Components.set_state_in p name target k i otherwise)
    set_state_in-KeepsStore name target k none otherwise h r = h r
    set_state_in-KeepsStore name target k (some i) otherwise h r = ground (
      arith,
      focus-KeepsStore k i (Transitions.set_hardware_state p target)
          (set_hardware_state-KeepsFocus p target) r,
    )

    pub set_component_state-KeepsStore :
        (name : Name) (target : LifecycleState)
        → KeepsStore (Components.set_component_state p name target)
    unfolding Components.set_component_state Components.set_found_component_state
    set_component_state-KeepsStore name target r = ground (
      arith,
      set_state_in-KeepsStore name target Kind.actuator (Components.find_component name r.actuators)
          (Components.set_state_in p name target Kind.sensor
            (Components.find_component name r.sensors)
            (Components.set_state_in p name target Kind.system
              (Components.find_component name r.systems) (done ReturnType.ok)))
          (set_state_in-KeepsStore name target Kind.sensor
            (Components.find_component name r.sensors)
            (Components.set_state_in p name target Kind.system
              (Components.find_component name r.systems) (done ReturnType.ok))
            (set_state_in-KeepsStore name target Kind.system
              (Components.find_component name r.systems) (done ReturnType.ok) (λ s. refl)))
          r,
    )
