-- ===== src/Controllers/Callback.antt =====
-- `switch_controller_cb`: a request is checked and completed, the switch is done by the realtime
-- thread or in its place, and the result is read off the controllers. The callback holds the lock of
-- the controllers throughout. `true` is `return_type::OK`; messages are not modelled.
pub mod Emptied
pub mod Returns
pub mod Report
pub mod Refusal
pub mod Keeping
pub mod Ownership
use ros2_control.Base.{
  ℕ, Bool, true, false, not, ◌&&◌, ◌||◌, Option, none, some, List, [], ◌∷◌, ◌++◌, if◌then◌else◌,
  Name, has_item, is_empty, Outcome, returned, thrown, ◌>>=◌, ◌>>◌, done, raise, modify, read_state,
  when, branch,
}
use ros2_control.Hardware.Types.{is_active}
use ros2_control.Hardware.Plugin.{Plugin}
use ros2_control.Resource.Storage.{ResourceManager}
use ros2_control.Resource.Switch.{prepare_command_mode_switch}
use ros2_control.Controllers.Spec.{
  ControllerPlugin, Controller, ControllerSpec, ControllerManager, CmAction, Strictness,
  SwitchParams,
}
use ros2_control.Controllers.Configuration.{get_command_interfaces_names}
use ros2_control.Controllers.Changes.{on_resources, put_c, with_controller}
use ros2_control.Controllers.Chains.{on_params, propagate_deactivation_of_chained_mode}
use ros2_control.Controllers.Claimable.{check_for_interfaces_availability_to_activate}
use ros2_control.Controllers.Conflicts.{resolve_conflicts}
use ros2_control.Controllers.Requests.{
  list_controllers, clear, check_activations, check_deactivations,
}
use ros2_control.Controllers.Switching.{manage_switch}

-- What the callback meets: whether the resource manager is initialized, what the other threads do
-- while it waits and whether the wait ends before the timeout, and whether they hold the mutex of the
-- switch when it is tried.
pub record Environment (D E : Type 0) : Type 0 where
  pub initialized : Bool
  pub wait_until_switched : ControllerManager D E → ControllerManager D E × Bool
  pub wait_until_ready : ControllerManager D E → ControllerManager D E × Bool
  pub is_locked : Bool

abbrev pub effective : Bool → Strictness → Strictness
effective default_is_strict Strictness.unspecified =
    if default_is_strict then Strictness.strict else Strictness.best_effort
effective default_is_strict Strictness.best_effort = Strictness.best_effort
effective default_is_strict Strictness.strict = Strictness.strict
effective default_is_strict Strictness.auto = Strictness.best_effort
effective default_is_strict Strictness.force_auto = Strictness.best_effort

-- `SwitchParams::reset`, which leaves the lists alone.
abbrev pub reset : SwitchParams → SwitchParams
reset q = record q {
  do_switch = false;
  strictness = Strictness.unspecified;
  activate_asap = false;
  ready_to_switch = false;
}

abbrev pub are_lists_empty : SwitchParams → Bool
are_lists_empty q =
    is_empty q.deactivate_request
    && is_empty q.activate_request
    && is_empty q.deactivate_command_interface_request
    && is_empty q.activate_command_interface_request
    && is_empty q.from_chained_mode_request
    && is_empty q.to_chained_mode_request

abbrev pub is_idle : SwitchParams → Bool
is_idle q = is_empty q.activate_request && is_empty q.deactivate_request

module _ {D E : Type 0} (p : ControllerPlugin E) (r : ResourceManager D)
    (activate_list deactivate_list : List Name) where
  -- Whether the controller is as requested; one that is restarted counts as activated only.
  abbrev pub is_as_requested : ControllerSpec E → Bool
  is_as_requested spec =
      let is_active = is_active spec.c.lifecycle_state in
      (not (has_item activate_list spec.name) || is_active)
      && (not (has_item deactivate_list spec.name && not (has_item activate_list spec.name))
          || not is_active)

  abbrev pub renew_claims : ControllerSpec E → ControllerSpec E
  renew_claims spec = record spec {
    claimed_interfaces =
        if is_active spec.c.lifecycle_state then get_command_interfaces_names p spec.c r else [];
  }

  unfoldable pub evaluate_switch_result : List (ControllerSpec E) → List (ControllerSpec E) × Bool
  evaluate_switch_result [] = ([], true)
  evaluate_switch_result (spec ∷ specs) =
      let (specs', ok) = evaluate_switch_result specs in
      (renew_claims spec ∷ specs', is_as_requested spec && ok)

module _ {D E : Type 0} where
  abbrev pub go_on : CmAction D E Bool → Option Bool → CmAction D E Bool
  go_on rest none = rest
  go_on rest (some b) = done b

  -- A part of the callback that may return from it, and the rest.
  abbrev pub unless_returned : CmAction D E (Option Bool) → CmAction D E Bool → CmAction D E Bool
  unless_returned m rest = m >>= go_on rest

  abbrev pub return_cleared : Bool → CmAction D E (Option Bool)
  return_cleared b = do modify clear; done (some b)

  abbrev pub return_if_idle : CmAction D E (Option Bool)
  return_if_idle s = branch (is_idle s.switch_params) (return_cleared true) (done none) s

  -- A check that has cleaned up where it fails.
  abbrev pub guarded : CmAction D E Bool → CmAction D E (Option Bool) → CmAction D E (Option Bool)
  guarded m rest = do ok ← m; branch ok rest (done (some false))

  -- A step after whose failure the requests are cleared.
  abbrev pub or_clear : CmAction D E Bool → CmAction D E (Option Bool) → CmAction D E (Option Bool)
  or_clear m rest = do ok ← m; branch ok rest (return_cleared false)

  abbrev pub wait : (ControllerManager D E → ControllerManager D E × Bool) → CmAction D E Bool
  wait f s = let (s', in_time) = f s in (s', returned in_time)

  module _ (p : ControllerPlugin E) (fuel : ℕ) where
    unfoldable pub check_stoppable : Strictness → CmAction D E (Option Bool)
    check_stoppable strictness s =
        let q = s.switch_params in
        guarded (check_deactivations p fuel strictness [] q.deactivate_request) return_if_idle s

    unfoldable pub check_startable : Strictness → CmAction D E (Option Bool)
    check_startable strictness s =
        let q = s.switch_params in
        guarded (check_activations p fuel strictness [] q.activate_request)
          (check_stoppable strictness) s

    unfoldable pub check_requests : Strictness → CmAction D E (Option Bool)
    check_requests strictness s =
        (propagate_deactivation_of_chained_mode p s.controllers >> check_startable strictness) s

    unfoldable pub resolve_requests : Strictness → CmAction D E (Option Bool)
    resolve_requests strictness s =
        guarded (resolve_conflicts p strictness s.controllers) return_if_idle s

    unfoldable pub prepare_controllers : List Name → CmAction D E (Unit {0})
    prepare_controllers [] s = (s, returned tt)
    prepare_controllers (name ∷ names) s =
        (do
          with_controller name λ spec.
              modify
                (put_c spec (record spec.c { device = p.prepare_for_deactivation spec.c.device }))
          prepare_controllers names)
          s

    abbrev pub check_availability : CmAction D E Bool
    check_availability s =
        let q = s.switch_params in
        (
          s,
          check_for_interfaces_availability_to_activate p s.controllers s.resource_manager
              q.activate_request q.deactivate_request,
        )

    module _ (hw : Plugin D) (env : Environment D E) where
      -- The hardware is asked only where interfaces are to be switched.
      abbrev pub prepare_hardware : CmAction D E Bool
      prepare_hardware s =
          let start = s.switch_params.activate_command_interface_request in
          let stop = s.switch_params.deactivate_command_interface_request in
          branch (is_empty start && is_empty stop) (done true)
            (on_resources (prepare_command_mode_switch hw start stop)) s

      unfoldable pub prepare_switch : CmAction D E (Option Bool)
      prepare_switch s =
          (prepare_controllers s.switch_params.deactivate_request
              >> or_clear prepare_hardware (done none))
            s

      unfoldable pub prepare_requests : CmAction D E (Option Bool)
      prepare_requests = or_clear check_availability prepare_switch

      -- The switch itself, by the realtime thread or here.
      unfoldable pub wait_or_switch : Bool → CmAction D E (Option Bool)
      wait_or_switch asap =
          branch asap (or_clear (wait env.wait_until_switched) (done none))
            (or_clear (wait env.wait_until_ready) (manage_switch p hw env.is_locked >> done none))

      unfoldable pub run_switch : Strictness → Bool → CmAction D E (Option Bool)
      run_switch strictness asap = do
        on_params λ q. record q {
          strictness = strictness;
          activate_asap = asap;
          ready_to_switch = false;
          do_switch = true;
        }
        wait_or_switch asap

      -- The claims of the list are renewed and the result is read off it.
      unfoldable pub report : CmAction D E Bool
      report s =
          let q = s.switch_params in
          let (specs, ok) =
            evaluate_switch_result p s.resource_manager q.activate_request q.deactivate_request
              s.controllers in
          (clear (record s { controllers = specs }), returned ok)

      -- From where both lists of requests are complete.
      unfoldable pub switch_requested : Strictness → Bool → CmAction D E Bool
      switch_requested strictness asap = unless_returned (check_requests strictness) (
          unless_returned (resolve_requests strictness) (
            unless_returned prepare_requests (unless_returned (run_switch strictness asap) report)))

      -- With what both calls of `list_controllers` have found.
      unfoldable pub request_switch :
          Strictness → Bool → List Name × Bool → List Name × Bool → CmAction D E Bool
      request_switch strictness asap stop start =
          branch (stop.1 && start.1)
            (do
              on_params λ q. record q { deactivate_request = stop.0; activate_request = start.0 }
              switch_requested strictness asap)
            (done false)

      unfoldable pub switch_controller_cb :
          List Name → List Name → Strictness → Bool → CmAction D E Bool
      switch_controller_cb activate deactivate strictness asap s =
          let s' : ControllerManager D E = record s { switch_params = reset s.switch_params } in
          let strictness' = effective s.default_is_strict strictness in
          let stop = list_controllers strictness' s.controllers deactivate [] true in
          let start = list_controllers strictness' s.controllers activate [] true in
          branch (not env.initialized) (done false)
            (λ t.
              branch (are_lists_empty s.switch_params) (request_switch strictness' asap stop start)
                raise s')
            s
