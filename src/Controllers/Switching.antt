-- ===== src/Controllers/Switching.antt =====
-- Controllers are switched in the realtime thread: `deactivate_controllers`, `switch_chained_mode`,
-- `activate_controllers` and `manage_switch`.
pub mod Accounts
pub mod Ownership
pub mod Steps
pub mod Deactivation
pub mod Activation
pub mod Conservation
use ros2_control.Base.{
  Bool, true, false, not, ◌&&◌, ◌||◌, Option, none, some, List, [], ◌∷◌, ◌++◌, if◌then◌else◌, Name,
  add_items, is_empty, Outcome, returned, thrown, ◌>>=◌, ◌>>◌, done, modify, read_state, when,
  branch,
}
use ros2_control.Hardware.Types.{LifecycleState, is_active, is_inactive}
use ros2_control.Hardware.Plugin.{Plugin}
use ros2_control.Resource.Storage.{ResourceManager, ManagerAction}
use ros2_control.Resource.Interfaces.{
  make_controller_exported_state_interfaces_available,
  make_controller_exported_state_interfaces_unavailable,
  make_controller_reference_interfaces_available, make_controller_reference_interfaces_unavailable,
}
use ros2_control.Resource.Switch.{prepare_command_mode_switch, perform_command_mode_switch}
use ros2_control.Controllers.Spec.{
  ControllerPlugin, Controller, ControllerSpec, ControllerManager, CmAction, Strictness,
  SwitchParams, Transition, find_controller, put_controller, is_strict,
}
use ros2_control.Controllers.Configuration.{
  get_command_interfaces_names, get_state_interfaces_names,
}
use ros2_control.Controllers.Loans.{release_loans, claim_command_interfaces, claim_state_interfaces}
use ros2_control.Controllers.Changes.{
  drop_interfaces, after_call, set_chained_mode, on_resources, put_spec, put_c, give_back,
  release_interfaces, run_transition, with_controller, make_exported_available,
  make_exported_unavailable, handled, finish_switch,
}

module _ {D E : Type 0} where
  module _ (p : ControllerPlugin E) where
    -- The `try` block for an active controller.
    unfoldable pub try_deactivate : ControllerSpec E → CmAction D E (Unit {0})
    try_deactivate spec s =
        let t = p.deactivate spec.c.lifecycle_state spec.c.device in
        let c' = after_call spec.c t in
        let spec' : ControllerSpec E = record spec { c = c' } in
        let s' = run_transition spec t s in
        let s'' = release_interfaces spec' s' in
        if t.raised
        then (s', thrown)
        else branch spec.c.is_chainable
            (do
              modify (put_c spec (set_chained_mode p false (drop_interfaces c')))
              make_exported_unavailable spec.name)
            (done tt) s''

    unfoldable pub deactivate_one : Name → CmAction D E (Unit {0})
    deactivate_one name =
        with_controller name
          λ spec. when (is_active spec.c.lifecycle_state) (handled (try_deactivate spec))

    unfoldable pub deactivate_controllers : List Name → CmAction D E (Unit {0})
    deactivate_controllers [] = done tt
    deactivate_controllers (name ∷ names) = do deactivate_one name; deactivate_controllers names

    unfoldable pub switch_chained_mode : Bool → List Name → CmAction D E (Unit {0})
    switch_chained_mode mode [] = done tt
    switch_chained_mode mode (name ∷ names) = do
      with_controller name λ spec.
          when (not (is_active spec.c.lifecycle_state))
            (modify (put_c spec (set_chained_mode p mode spec.c)))
      switch_chained_mode mode names

    -- The first loop of `activate_controllers`.
    unfoldable pub make_all_available : List Name → CmAction D E (Unit {0})
    make_all_available [] = done tt
    make_all_available (name ∷ names) = do
      with_controller name λ spec. when spec.c.is_chainable (make_exported_available name)
      make_all_available names

    -- The loans become the controller's own; what it held before goes back.
    unfoldable pub assign_interfaces :
        ControllerSpec E → List Name → List Name → ControllerManager D E → ControllerManager D E
    assign_interfaces spec loans states s =
        put_c spec (record spec.c { command_interfaces = loans; state_interfaces = states })
          (give_back spec.c.command_interfaces s)

    -- The node is activated; `raised` without `handle_exceptions` is passed on.
    unfoldable pub call_activate : ControllerSpec E → CmAction D E LifecycleState
    call_activate spec s =
        let t = p.activate spec.c.lifecycle_state spec.c.device in
        let fresh : ControllerSpec E = record spec {
          periodicity_statistics = [];
          execution_time_statistics = [];
        } in
        let s' = run_transition fresh t (put_spec fresh s) in
        if t.raised
        then (s', if s'.handle_exceptions then returned spec.c.lifecycle_state else thrown)
        else (s', returned t.state)

    -- What follows the call: the interfaces go back if the controller is not active.
    unfoldable pub settle_activation :
        Name → List Name → LifecycleState → CmAction D E (Bool × List Name)
    settle_activation name cmds state s = elim (find_controller name s.controllers) [
      | none ↦ (s, returned (true, []))
      | some spec ↦
          branch (is_active state)
            (do when spec.c.is_chainable (make_exported_available name); done (true, []))
            (do
              modify (release_interfaces spec)
              when spec.c.is_chainable (make_exported_unavailable name)
              done (false, cmds))
            s
    ]

    -- With all loans at hand.
    unfoldable pub activate_with :
        ControllerSpec E → List Name → List Name → List Name → CmAction D E (Bool × List Name)
    activate_with spec cmds loans states = do
      modify (assign_interfaces spec loans states)
      state ← call_activate (record spec {
        c = record spec.c { command_interfaces = loans; state_interfaces = states };
      })
      settle_activation spec.name cmds state

    -- What follows the claims of the state interfaces, with the loans of the command interfaces.
    abbrev pub with_states :
        List Name → CmAction D E (Bool × List Name) → Outcome Bool → CmAction D E (Bool × List Name)
    with_states loans m thrown s = (give_back loans s, thrown)
    with_states loans m (returned false) s = (give_back loans s, returned (false, []))
    with_states loans m (returned true) s = m s

    unfoldable pub claim_states :
        ControllerSpec E → List Name → List Name → CmAction D E (Bool × List Name)
    claim_states spec cmds loans s =
        let states = get_state_interfaces_names p spec.c s.resource_manager in
        let (s', o) = on_resources (claim_state_interfaces s.handle_exceptions states) s in
        with_states loans (activate_with spec cmds loans states) o s'

    -- What follows the claims of the command interfaces.
    abbrev pub with_loans :
        (List Name → CmAction D E (Bool × List Name))
        → Outcome (Option (List Name))
        → CmAction D E (Bool × List Name)
    with_loans f thrown s = (s, thrown)
    with_loans f (returned none) s = (s, returned (false, []))
    with_loans f (returned (some loans)) s = f loans s

    unfoldable pub activate_spec : ControllerSpec E → CmAction D E (Bool × List Name)
    activate_spec spec s =
        let cmds = get_command_interfaces_names p spec.c s.resource_manager in
        let (s', o) = on_resources (claim_command_interfaces s.handle_exceptions cmds []) s in
        with_loans (claim_states spec cmds) o s'

    -- One round: whether it was successful, and the interfaces of a controller that failed.
    unfoldable pub activate_one : Name → CmAction D E (Bool × List Name)
    activate_one name s = elim (find_controller name s.controllers) [
      | none ↦ (s, returned (true, []))
      | some spec ↦
          let spec' : ControllerSpec E = record spec { last_update_cycle_time = 0 } in
          activate_spec spec' (put_spec spec' s)
    ]

    unfoldable pub activate_all : List Name → Bool → List Name → CmAction D E (Bool × List Name)
    activate_all [] successful failed = done (successful, failed)
    activate_all (name ∷ names) successful failed = do
      one ← activate_one name
      activate_all names (successful && one.0) (add_items failed one.1)

    module _ (hw : Plugin D) where
      -- `prepare` and, if it accepts, `perform`, with interfaces to stop only; a refusal is logged.
      abbrev pub stop_interfaces : List Name → CmAction D E (Unit {0})
      stop_interfaces itfs = do
        ready ← on_resources (prepare_command_mode_switch hw [] itfs)
        when ready (do switched ← on_resources (perform_command_mode_switch hw [] itfs); done tt)

      unfoldable pub clean_up_failed :
          List Name → Strictness → Bool → List Name → CmAction D E (Unit {0})
      clean_up_failed names strictness successful failed =
          branch (not successful && is_strict strictness)
            (do
              deactivate_controllers names
              request ← read_state λ s. s.switch_params.activate_command_interface_request
              stop_interfaces request)
            (when (not (is_empty failed)) (stop_interfaces failed))

      unfoldable pub activate_controllers : List Name → Strictness → CmAction D E (Unit {0})
      activate_controllers names strictness = do
        make_all_available names
        result ← activate_all names true []
        clean_up_failed names strictness result.0 result.1

      unfoldable pub switch_controllers : CmAction D E (Unit {0})
      switch_controllers = do
        q ← read_state λ s. s.switch_params
        deactivate_controllers q.deactivate_request
        switch_chained_mode true q.to_chained_mode_request
        switch_chained_mode false q.from_chained_mode_request
        activate_controllers q.activate_request q.strictness
        modify finish_switch

      -- The mutex of the parameters may be held elsewhere: then nothing is done in this cycle.
      unfoldable pub manage_switch : Bool → CmAction D E (Unit {0})
      manage_switch is_locked = branch is_locked (done tt) (do
        q ← read_state λ s. s.switch_params
        performed ← on_resources (
            perform_command_mode_switch hw q.activate_command_interface_request
              q.deactivate_command_interface_request)
        branch performed switch_controllers (modify finish_switch))
