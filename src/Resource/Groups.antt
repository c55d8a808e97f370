-- ===== src/Resource/Groups.antt =====
-- Component groups: a failure of one component fails its group (`hw_group_state_`), and what a
-- failed read leaves behind.
pub mod Failure
pub mod Revival
use ros2_control.Base.{
  ℕ, ◌≡◌, ◌≢◌, refl, ◌⊎◌, Bool, true, false, Option, some, List, ◌++◌, ◌∷◌, [], arith, Name,
  has_item, has_item-append, has_item-remove_items, lookup, assign, emplace, lookup-assign,
  lookup-emplace, returned, thrown, Outcome, name_discrete, ite, not,
}
use ros2_control.Base.Int.{ℤ}
use ros2_control.Hardware.Types.{
  LifecycleState, CallbackReturn, ReturnType, is_ok, is_unconfigured, is_finalized, is_unknown,
}
use ros2_control.Hardware.Plugin.{Plugin}
use ros2_control.Hardware.Component
use ros2_control.Hardware.Component.{HardwareComponent}
use ros2_control.Resource.Storage
use ros2_control.Resource.Storage.{ResourceManager}
use ros2_control.Resource.Transitions
use ros2_control.Resource.Transitions.{Focus}
use ros2_control.Resource.Cycle
use ros2_control.Resource.Cycle.{Doubles, Surroundings}
use ros2_control.Resource.Availability.Effects.{HasUniqueLists}

abbrev pub HasFailed : {D : Type 0} → Name → ResourceManager D → ReturnType → Type 0
HasFailed group r v = (group ≢ "") × (lookup group r.hw_group_state ≡ some v) × (is_ok v ≡ false)

module _ {D : Type 0} (group : Name) (r : ResourceManager D) where
  -- The state of a group is the last result other than OK of its members: a member that succeeds
  -- gets the result of the one that failed.
  update_group_latches :
      {v : ReturnType}
      → HasFailed group r v
      → Storage.update_hardware_component_group_state group ReturnType.ok r ≡ (r, returned v)
  unfolding Storage.update_hardware_component_group_state
  update_group_latches h = ground arith

  update_group_fails :
      (value : ReturnType) {v w : ReturnType}
      → HasFailed group r v
      → (Storage.update_hardware_component_group_state group value r).1 ≡ returned w
      → is_ok w ≡ false
  unfolding Storage.update_hardware_component_group_state
  update_group_fails value h e = ground arith

module _ {D : Type 0} (p : Plugin D) where
  pub read-group :
      (time : ℕ) (elapsed : ℤ) (c : HardwareComponent D)
      → ((Component.read p time elapsed c).0.group ≡ c.group)
        × ((Component.read p time elapsed c).0.name ≡ c.name)
  unfolding Component.read
  read-group time elapsed c = ground arith

  pub error-group :
      (c : HardwareComponent D)
      → ((Component.error p c).0.group ≡ c.group) × ((Component.error p c).0.name ≡ c.name)
  unfolding Component.error
  error-group c = ground arith

  -- The same manager and the same names.
  abbrev pub SameGroup : Focus D → Focus D → Type 0
  SameGroup g f =
      (g.hardware.group ≡ f.hardware.group)
      × (g.hardware.name ≡ f.hardware.name)
      × (g.manager ≡ f.manager)

  pub at_rate-SameGroup :
      (d : Doubles) (last : Option ℕ) (info : Storage.HardwareComponentInfo) (now : ℕ) (period : ℤ)
      (f : Focus D)
      → SameGroup (Cycle.at_rate d (Component.read p) last info now period f).0 f
  unfolding Cycle.at_rate
  at_rate-SameGroup d last info now period f = ground (
    arith,
    read-group now period f.hardware,
    read-group now (Cycle.elapsed_since d last now info.rw_rate) f.hardware,
  )

  module _ (env : Surroundings) (period : ℤ) (f : Focus D) where
    -- What `try_read` hands to `at_rate`.
    abbrev pub touched : Focus D
    touched = record f { manager = Storage.touch_hardware_info f.hardware.name f.manager }

    abbrev pub read_step : Focus D × Outcome ReturnType
    read_step =
        Cycle.at_rate env.doubles (Component.read p) f.hardware.last_read_cycle_time
          (Storage.hardware_info f.hardware.name touched.manager) (env.now f.hardware.name) period
          touched

    pub try_read_fails :
        {v w : ReturnType}
        → HasFailed f.hardware.group f.manager v
        → (Cycle.try_read p env period f).1 ≡ returned w
        → is_ok w ≡ false
    unfolding Cycle.try_read Storage.touch_hardware_info Storage.set_hardware_info
        Storage.update_hardware_component_group_state
    try_read_fails h e = ground (
      arith,
      at_rate-SameGroup env.doubles f.hardware.last_read_cycle_time
          (Storage.hardware_info f.hardware.name touched.manager) (env.now f.hardware.name) period
          touched,
    )
