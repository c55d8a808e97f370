-- ===== src/Tests/Switching.antt =====
-- Switches of a chain of two controllers.
use ros2_control.Base.{
  ℕ, ◌≡◌, refl, inr, true, false, some, [], ◌∷◌, Name, arith, returned, IsUnique, name_discrete,
  has_item, add_item, add_items, lookup, assign,
}
use ros2_control.Hardware.Types.{LifecycleState, is_active, is_inactive}
use ros2_control.Hardware.Component
use ros2_control.Resource.Storage
use ros2_control.Resource.Interfaces
use ros2_control.Resource.Transitions
use ros2_control.Resource.Switch
use ros2_control.Resource.UsedBy
use ros2_control.Controllers.Spec
use ros2_control.Controllers.Configuration
use ros2_control.Controllers.Loans
use ros2_control.Controllers.Changes
use ros2_control.Controllers.Fallback
use ros2_control.Controllers.Conflicts
use ros2_control.Controllers.Claimable
use ros2_control.Resource.Storage.{ResourceManager}
use ros2_control.Controllers.Spec.{ControllerSpec, Strictness, SwitchParams, find_controller}
use ros2_control.Controllers.Chains
use ros2_control.Controllers.Requests
use ros2_control.Controllers.Requests.Startable
use ros2_control.Controllers.Requests.Stoppable
use ros2_control.Controllers.Switching
use ros2_control.Controllers.Switching.Accounts.{copies}
use ros2_control.Controllers.Switching.Ownership.{held, Holds}
use ros2_control.Controllers.Switching.Conservation
use ros2_control.Controllers.Callback
use ros2_control.Controllers.Callback.Emptied.{Emptied}
use ros2_control.Controllers.Callback.Ownership
use ros2_control.Controllers.Callback.Returns
use ros2_control.Controllers.Claimable.Disjoint
use ros2_control.Controllers.Callback.Refusal
use ros2_control.Controllers.Callback.Report
use ros2_control.Tests.Fixtures.{willing}
use ros2_control.Tests.Chain.{code, pair, manager, no_request, robot, quiet, controller}

-- Both controllers of the chain are activated and claim their interfaces.
chain_is_activated :
    let (s, ok) =
      Callback.switch_controller_cb code 5 willing quiet
        ("pid" ∷ "traj" ∷ [])
        []
        Strictness.strict
        false
        (manager LifecycleState.inactive no_request) in
    (ok ≡ returned true)
    × (held s.controllers ≡ "pid/position" ∷ "joint1/position" ∷ [])
    × (s.resource_manager.claimed_command_interface_map
        ≡ ("joint1/position", true) ∷ ("pid/position", true) ∷ [])
unfolding name_discrete has_item add_item add_items lookup assign
    Interfaces.state_interface_is_available Interfaces.command_interface_is_available
    Interfaces.claim_state_interface Interfaces.command_interface_is_claimed
    Interfaces.claim_unclaimed Interfaces.claim_command_interface
    Interfaces.make_controller_exported_state_interfaces_available
    Interfaces.make_controller_reference_interfaces_available Transitions.focus
    Transitions.add_all_hardware_interfaces_to_available_list Transitions.activate_hardware
    Transitions.deactivate_hardware Transitions.set_hardware_state
    Switch.find_common_hardware_interfaces Switch.check_exist Switch.check_available
    Switch.switch_share Switch.switch_component Switch.switch_components Switch.switch_container
    Switch.switch_all Switch.prepare_command_mode_switch Switch.perform_command_mode_switch
    UsedBy.cache_controller_to_hardware Storage.hardware_info Storage.touch_hardware_info
    Storage.set_hardware_info Storage.update_hardware_component_group_state
    Storage.reset_group_state Spec.find_controller Spec.put_controller
    Configuration.select_interfaces Configuration.get_command_interfaces_names
    Configuration.get_state_interfaces_names Configuration.extract_command_interfaces_for_controller
    Configuration.get_controller_list_command_interfaces Configuration.interface_prefix
    Configuration.is_interface_a_chained_interface Loans.claim_one Loans.claim_command_interfaces
    Loans.claim_state_interfaces Changes.set_chained_mode Chains.keep_following
    Chains.propagate_deactivation_of_chained_mode Chains.check_following Chains.check_interfaces
    Chains.check_following_controllers_for_activate
    Chains.check_preceding_controllers_for_deactivate Fallback.check_missing Fallback.check_fallback
    Fallback.check_fallback_controllers_state_pre_activation Conflicts.resolve_marks
    Conflicts.collect Conflicts.resolve_conflicts Claimable.future_available Claimable.take_commands
    Claimable.check_claims Claimable.check_for_interfaces_availability_to_activate
    Requests.list_controllers Requests.check_state_and_chain Requests.check_activation
    Requests.after_check Requests.check_activations Requests.check_deactivation
    Requests.check_deactivations Switching.deactivate_controllers Switching.switch_chained_mode
    Switching.make_all_available Switching.assign_interfaces Switching.call_activate
    Switching.settle_activation Switching.activate_with Switching.claim_states
    Switching.activate_spec Switching.activate_one Switching.activate_all Switching.clean_up_failed
    Switching.activate_controllers Switching.switch_controllers Switching.manage_switch
    Callback.evaluate_switch_result Callback.check_stoppable Callback.check_startable
    Callback.check_requests Callback.resolve_requests Callback.prepare_controllers
    Callback.prepare_switch Callback.prepare_requests Callback.wait_or_switch Callback.run_switch
    Callback.report Callback.switch_requested Callback.request_switch Callback.switch_controller_cb
    held Changes.run_transition Loans.release_loans Component.prepare_command_mode_switch
    Component.perform_command_mode_switch
chain_is_activated = (refl, refl, refl)

no_loans-Holds : Holds [] (manager LifecycleState.inactive no_request)
unfolding held copies lookup
no_loans-Holds = record { counted = λ k. ground arith; stored = λ k. ground arith }

manage_switch-Holds_example :
    Holds []
      (Switching.manage_switch code willing false (manager LifecycleState.inactive no_request)).0
manage_switch-Holds_example =
    Conservation.manage_switch-Holds code willing false (manager LifecycleState.inactive no_request)
      no_loans-Holds

switch_controller_cb-Emptied_example :
    Emptied
      (Callback.switch_controller_cb code 5 willing quiet
        ("pid" ∷ [])
        ("other" ∷ [])
        Strictness.strict
        false
        (manager LifecycleState.inactive no_request)).0
unfolding Callback.switch_controller_cb Callback.request_switch Requests.list_controllers
    find_controller name_discrete
switch_controller_cb-Emptied_example =
    Returns.switch_controller_cb-Emptied code 5 willing quiet ("pid" ∷ []) ("other" ∷ [])
      Strictness.strict false (manager LifecycleState.inactive no_request) false refl refl

switch_controller_cb-missing_example :
    Callback.switch_controller_cb code 5 willing quiet
      ("pid" ∷ [])
      ("other" ∷ [])
      Strictness.strict
      false
      (manager LifecycleState.inactive no_request)
    ≡ (manager LifecycleState.inactive no_request, returned false)
unfolding find_controller name_discrete has_item
switch_controller_cb-missing_example =
    Refusal.switch_controller_cb-missing code 5 willing quiet ("pid" ∷ []) ("other" ∷ [])
      Strictness.strict false (manager LifecycleState.inactive no_request) "other" refl refl refl
      refl (inr refl)

evaluate_switch_result-find_example :
    let (specs, ok) =
      Callback.evaluate_switch_result code robot ("pid" ∷ []) [] (pair LifecycleState.active) in
    (find_controller "pid" specs
      ≡ some (record (controller "pid" 0 LifecycleState.active) {
        claimed_interfaces =
            Configuration.get_command_interfaces_names code
              (controller "pid" 0 LifecycleState.active).c
              robot;
      }))
    × (ok ≡ true → has_item ("pid" ∷ []) "pid" ≡ true → true ≡ true)
    × (ok ≡ true → has_item [] "pid" ≡ true → has_item ("pid" ∷ []) "pid" ≡ false → true ≡ false)
unfolding find_controller name_discrete
evaluate_switch_result-find_example =
    Report.evaluate_switch_result-find code robot ("pid" ∷ []) [] "pid"
      (controller "pid" 0 LifecycleState.active) (pair LifecycleState.active) refl

abbrev both_requested : SwitchParams
both_requested = record no_request { activate_request = "pid" ∷ "traj" ∷ [] }

abbrev both_stopped : SwitchParams
both_stopped = record no_request { deactivate_request = "traj" ∷ "pid" ∷ [] }

check_activations-AllStartable_example :
    let m = Startable.check_all code 5 Strictness.strict in
    let s = manager LifecycleState.inactive both_requested in
    ((m s).0.controllers ≡ s.controllers)
    × ((m s).0.switch_params.deactivate_request ≡ [])
    × Startable.AllStartable s.controllers [] (m s).0.switch_params.activate_request
unfolding find_controller name_discrete has_item lookup Configuration.get_command_interfaces_names
    Configuration.get_state_interfaces_names Configuration.select_interfaces
    Requests.check_activations Requests.after_check Requests.check_activation
    Requests.check_state_and_chain Chains.check_following_controllers_for_activate
    Chains.check_interfaces Chains.check_following Chains.keep_following
    Configuration.is_interface_a_chained_interface Configuration.interface_prefix
    Interfaces.make_controller_exported_state_interfaces_available
    Interfaces.make_controller_reference_interfaces_available
    Fallback.check_fallback_controllers_state_pre_activation add_items add_item
check_activations-AllStartable_example =
    Startable.check_activations-AllStartable code 5 Strictness.strict
      (manager LifecycleState.inactive both_requested) refl refl

check_deactivations-AllStoppable_example :
    let s = manager LifecycleState.active both_stopped in
    ((Requests.check_deactivations code 5 Strictness.strict [] ("traj" ∷ "pid" ∷ []) s).0 ≡ s)
    × ((name : Name)
        → has_item ("traj" ∷ "pid" ∷ []) name ≡ true
        → (spec : ControllerSpec ℕ) × (find_controller name s.controllers ≡ some spec)
          × (is_active spec.c.lifecycle_state ≡ true)
          × ((c : Name) (preceding : ControllerSpec ℕ)
              → spec.c.is_chainable ≡ true
              → has_item (Chains.preceding_controllers spec.name s) c ≡ true
              → find_controller c s.controllers ≡ some preceding
              → (is_active preceding.c.lifecycle_state ≡ true
                  → has_item ("traj" ∷ "pid" ∷ []) preceding.name ≡ true)
                × (is_inactive preceding.c.lifecycle_state ≡ true
                    → has_item [] preceding.name ≡ false)))
unfolding find_controller name_discrete has_item lookup Requests.check_deactivations
    Requests.after_check Requests.check_deactivation
    Chains.check_preceding_controllers_for_deactivate
check_deactivations-AllStoppable_example =
    Stoppable.check_deactivations-AllStoppable code 5 Strictness.strict
      (manager LifecycleState.active both_stopped) refl refl

check_for_interfaces_availability-AllCanClaim_example :
    let specs = pair LifecycleState.inactive in
    Disjoint.AllListed code specs robot ("traj" ∷ [])
    × ((itf : Name)
        → has_item (Disjoint.wanted code specs robot ("traj" ∷ []) ("pid" ∷ [])) itf ≡ true
        → (Interfaces.command_interface_is_available itf robot ≡ true)
          × ((Interfaces.command_interface_is_claimed itf robot).1 ≡ returned true
              → Disjoint.IsGivenBack code specs robot ("traj" ∷ []) itf))
    × IsUnique (Disjoint.wanted code specs robot ("traj" ∷ []) ("pid" ∷ []))
unfolding find_controller name_discrete has_item lookup Configuration.get_command_interfaces_names
    Configuration.get_state_interfaces_names Configuration.select_interfaces
    Claimable.check_for_interfaces_availability_to_activate Claimable.future_available
    Claimable.check_claims Claimable.take_commands Interfaces.command_interface_is_claimed
    Interfaces.command_interface_is_available Interfaces.state_interface_is_available
check_for_interfaces_availability-AllCanClaim_example =
    Disjoint.check_for_interfaces_availability-AllCanClaim code (pair LifecycleState.inactive) robot
      ("pid" ∷ []) ("traj" ∷ []) refl

switch_controller_cb-Holds_example :
    Holds []
      (Callback.switch_controller_cb code 5 willing quiet
        ("pid" ∷ [])
        []
        Strictness.strict
        false
        (manager LifecycleState.inactive no_request)).0
switch_controller_cb-Holds_example =
    Ownership.switch_controller_cb-Holds code 5 willing quiet (λ s h. (h, h)) ("pid" ∷ []) []
      Strictness.strict false (manager LifecycleState.inactive no_request) no_loans-Holds
