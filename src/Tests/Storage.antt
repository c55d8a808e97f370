-- ===== src/Tests/Storage.antt =====
-- Claims of the arm's command interface, and the arm's transitions through the manager.
use ros2_control.Base.{
  ℕ, arith, ◌≡◌, refl, ◌⊎◌, inl, inr, ◌↔◌, true, false, none, some, List, [], ◌∷◌, Name, has_item,
  lookup, assign, returned, thrown,
}
use ros2_control.Base.Int.{pos}
use ros2_control.Hardware.Types.{LifecycleState, ReturnType}
use ros2_control.Resource.Interfaces
use ros2_control.Resource.Transitions
use ros2_control.Resource.Availability
use ros2_control.Resource.Availability.Effects
use ros2_control.Resource.Availability.Effects.{Change, Changes}
use ros2_control.Resource.Claims
use ros2_control.Resource.Claims.Exclusive
use ros2_control.Resource.Claims.Exclusive.{IsConsistent}
use ros2_control.Resource.Claims.Loans
use ros2_control.Resource.Claims.Loans.{LoanSystem, Event}
use ros2_control.Resource.Frame.{store}
use ros2_control.Tests.Fixtures.{willing, failing, rig, joint1, focused, undisturbed}

abbrev key : Name
key = "joint1/position"

abbrev free_arm : LoanSystem ℕ
free_arm = record { manager = rig LifecycleState.active joint1 ReturnType.ok; loans = [] }

-- Nothing is lent.
free-IsConsistent : IsConsistent (store free_arm.manager) []
unfolding lookup has_item
free-IsConsistent = record { lent = λ k. ground arith; stored = λ k. ground arith; unique = tt }

abbrev day : List Event
day =
    Event.claims key
    ∷ Event.claims key
    ∷ Event.reads undisturbed (pos 5)
    ∷ Event.releases key
    ∷ Event.sets_state "arm" LifecycleState.unconfigured
    ∷ []

run-IsConsistent_example :
    IsConsistent
      (store (Loans.run failing day free_arm).manager)
      (Loans.run failing day free_arm).loans
run-IsConsistent_example = Exclusive.run-IsConsistent failing day free_arm free-IsConsistent

claim-returned_iff_example :
    ((Interfaces.claim_command_interface key free_arm.manager).1
      ≡ returned (record { name = key; data_type = "double" }))
    ↔ ((has_item joint1 key ≡ true)
        × (lookup key ((key, false) ∷ []) ≡ some false)
        × (lookup key free_arm.manager.command_interface_map
            ≡ some (record { name = key; data_type = "double" })))
claim-returned_iff_example =
    Claims.claim-returned_iff key free_arm.manager (record { name = key; data_type = "double" })

claim-release-claim_example :
    let r' = (Interfaces.claim_command_interface key free_arm.manager).0 in
    (Interfaces.claim_command_interface key (Interfaces.release_command_interface key r')).1
    ≡ returned (record { name = key; data_type = "double" })
unfolding Interfaces.claim_command_interface has_item lookup assign ros2_control.Base.name_discrete
claim-release-claim_example = Claims.claim-release-claim key free_arm.manager refl

set_hardware_state-true_example :
    (Transitions.set_hardware_state willing LifecycleState.active
      (focused LifecycleState.unconfigured [] ReturnType.ok)).0.hardware.lifecycle_state
    ≡ LifecycleState.active
unfolding Transitions.set_hardware_state Transitions.transition_to Transitions.configure_hardware
    ros2_control.Hardware.Component.configure Transitions.activate_hardware
    ros2_control.Hardware.Component.activate
set_hardware_state-true_example =
    Availability.set_hardware_state-true willing LifecycleState.active
      (focused LifecycleState.unconfigured [] ReturnType.ok) refl

set_hardware_state-Changes_example :
    Changes Change.withdrawn
      (focused LifecycleState.active joint1 ReturnType.ok)
      (Transitions.set_hardware_state willing LifecycleState.unconfigured
        (focused LifecycleState.active joint1 ReturnType.ok)).0
unfolding Transitions.set_hardware_state has_item Effects.change Transitions.transition_to
    Transitions.deactivate_hardware ros2_control.Hardware.Component.deactivate
    Transitions.cleanup_hardware ros2_control.Hardware.Component.cleanup
set_hardware_state-Changes_example =
    Effects.set_hardware_state-Changes willing LifecycleState.unconfigured
      (focused LifecycleState.active joint1 ReturnType.ok) ((refl, tt), (refl, tt)) refl
