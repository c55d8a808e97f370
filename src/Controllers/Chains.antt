-- ===== src/Controllers/Chains.antt =====
-- Chains of controllers in a switch request: `propagate_deactivation_of_chained_mode`,
-- `check_following_controllers_for_activate` and `check_preceding_controllers_for_deactivate`.
pub mod Known
pub mod Finishing
pub mod Termination
use ros2_control.Base.{
  ℕ, zero, suc, Bool, true, false, not, ◌&&◌, ◌||◌, Option, none, some, List, [], ◌∷◌, ◌++◌,
  if◌then◌else◌, Name, has_item, add_item, remove_item, lookup, Outcome, returned, thrown, ◌>>=◌,
  ◌>>◌, done, modify, read_state, when, branch,
}
use ros2_control.Hardware.Types.{is_active, is_inactive}
use ros2_control.Resource.Storage.{ResourceManager}
use ros2_control.Resource.Interfaces.{
  make_controller_exported_state_interfaces_available,
  make_controller_reference_interfaces_available,
}
use ros2_control.Controllers.Spec.{
  ConfigurationType, ControllerPlugin, ControllerSpec, ControllerManager, CmAction, SwitchParams,
  find_controller, is_controller_active,
}
use ros2_control.Controllers.Configuration.{
  get_command_interfaces_names, get_state_interfaces_names, is_interface_a_chained_interface,
}
use ros2_control.Controllers.Changes.{on_resources}

-- `return_type` of a check, or `unfinished` where the fuel of a recursion is used up.
pub data Verdict : Type 0 where
  ok error unfinished : Verdict

abbrev pub is_all : ConfigurationType → Bool
is_all ConfigurationType.all = true
is_all _ = false

abbrev pub list_or_empty : Option (List Name) → List Name
list_or_empty none = []
list_or_empty (some names) = names

module _ {E : Type 0} where
  -- Whether the interface comes from a configuration that takes whatever there is.
  abbrev pub is_optional :
      ControllerPlugin E → ControllerSpec E → List Name → List Name → Name → Bool
  is_optional p spec cmds states itf =
      has_item states itf && is_all (p.state_interface_configuration spec.c.device).kind
      || has_item cmds itf && is_all (p.command_interface_configuration spec.c.device).kind

  -- Whether the preceding controller does not need the controller after the switch.
  abbrev pub lets_go : SwitchParams → ControllerSpec E → Bool
  lets_go q preceding =
      not (is_inactive preceding.c.lifecycle_state && has_item q.activate_request preceding.name)
      && not (
          is_active preceding.c.lifecycle_state
          && not (has_item q.deactivate_request preceding.name))

  abbrev pub all_let_go : SwitchParams → List (ControllerSpec E) → List Name → Bool
  all_let_go q specs [] = true
  all_let_go q specs (name ∷ names) = elim (find_controller name specs) [
    | none ↦ all_let_go q specs names
    | some preceding ↦ lets_go q preceding && all_let_go q specs names
  ]

module _ {D E : Type 0} where
  abbrev pub on_params : (SwitchParams → SwitchParams) → CmAction D E (Unit {0})
  on_params f s = (record s { switch_params = f s.switch_params }, returned tt)

  -- Go on where a check was passed.
  abbrev pub if_ok : Verdict → CmAction D E Verdict → CmAction D E Verdict
  if_ok Verdict.ok m = m
  if_ok Verdict.error m = done Verdict.error
  if_ok Verdict.unfinished m = done Verdict.unfinished

  -- The command interfaces and then the state interfaces.
  abbrev pub all_interfaces : ControllerPlugin E → ControllerSpec E → ResourceManager D → List Name
  all_interfaces p spec r =
      get_command_interfaces_names p spec.c r ++ get_state_interfaces_names p spec.c r

  -- It stays in chained mode.
  abbrev pub stay_chained : Name → CmAction D E (Unit {0})
  stay_chained name =
      on_params
        λ q. record q { from_chained_mode_request = remove_item q.from_chained_mode_request name }

  -- Its reference interfaces are used, so that it comes into chained mode.
  abbrev pub enter_chained : Name → CmAction D E (Unit {0})
  enter_chained name = do
    on_resources (make_controller_reference_interfaces_available name)
    on_params λ q. record q { to_chained_mode_request = q.to_chained_mode_request ++ name ∷ [] }

  abbrev pub make_reachable : Bool → Name → CmAction D E (Unit {0})
  make_reachable is_reference name = do
    on_resources (make_controller_exported_state_interfaces_available name)
    when is_reference (enter_chained name)

  -- A following controller that has passed.
  unfoldable pub keep_following : List Name → Name → ControllerSpec E → CmAction D E (Unit {0})
  keep_following cmds itf following s =
      let to = s.switch_params.to_chained_mode_request in
      branch following.c.in_chained_mode (stay_chained following.name)
        (when (not (has_item to following.name))
          (make_reachable (has_item cmds itf) following.name))
        s

  module _ (p : ControllerPlugin E) where
    -- The following controllers of one that is deactivated.
    unfoldable pub add_following : List Name → CmAction D E (Unit {0})
    add_following [] s = (s, returned tt)
    add_following (itf ∷ itfs) s = elim (is_interface_a_chained_interface itf s.controllers) [
      | thrown ↦ (s, thrown)
      | returned none ↦ add_following itfs s
      | returned (some following) ↦
          (do
            on_params λ q. record q {
              from_chained_mode_request = add_item q.from_chained_mode_request following.name;
            }
            add_following itfs)
            s
    ]

    -- The loop ends at a controller of the request that is not active.
    unfoldable pub propagate_deactivation_of_chained_mode :
        List (ControllerSpec E) → CmAction D E (Unit {0})
    propagate_deactivation_of_chained_mode [] s = (s, returned tt)
    propagate_deactivation_of_chained_mode (spec ∷ specs) s =
        branch (has_item s.switch_params.deactivate_request spec.name)
          (branch (is_controller_active spec)
            (do
              add_following (all_interfaces p spec s.resource_manager)
              propagate_deactivation_of_chained_mode specs)
            (done tt))
          (propagate_deactivation_of_chained_mode specs) s

    module _ (check : ControllerSpec E → CmAction D E Verdict) (spec : ControllerSpec E)
        (cmds states : List Name) where
      -- The round for an interface that belongs to `following`.
      unfoldable pub check_following : Name → ControllerSpec E → CmAction D E Verdict
      check_following itf following s =
          let q = s.switch_params in
          let is_active = is_controller_active following in
          let go_on : CmAction D E Verdict = (do
            v ← check following
            if_ok v (do keep_following cmds itf following; done Verdict.ok)) in
          branch (not following.c.is_chainable) (done Verdict.error)
            (branch (is_active && has_item q.deactivate_request following.name)
              (done (if is_optional p spec cmds states itf then Verdict.ok else Verdict.error))
              (branch (not is_active && not (has_item q.activate_request following.name))
                (done Verdict.error) go_on))
            s

      unfoldable pub check_interfaces : List Name → CmAction D E Verdict
      check_interfaces [] s = (s, returned Verdict.ok)
      check_interfaces (itf ∷ itfs) s = elim (is_interface_a_chained_interface itf s.controllers) [
        | thrown ↦ (s, thrown)
        | returned none ↦ check_interfaces itfs s
        | returned (some following) ↦
            (do v ← check_following itf following; if_ok v (check_interfaces itfs)) s
      ]

    -- The recursion goes along the chain; the fuel bounds its depth.
    unfoldable pub check_following_controllers_for_activate :
        ℕ → ControllerSpec E → CmAction D E Verdict
    check_following_controllers_for_activate zero spec s = (s, returned Verdict.unfinished)
    check_following_controllers_for_activate (suc n) spec s =
        let cmds = get_command_interfaces_names p spec.c s.resource_manager in
        let states = get_state_interfaces_names p spec.c s.resource_manager in
        check_interfaces (check_following_controllers_for_activate n) spec cmds states
          (cmds ++ states) s

  -- `operator[]` of the caches: nothing precedes a controller without an entry.
  abbrev pub preceding_controllers : Name → ControllerManager D E → List Name
  preceding_controllers name s =
      list_or_empty (lookup name s.controller_chained_state_interfaces_cache)
      ++ list_or_empty (lookup name s.controller_chained_reference_interfaces_cache)

  unfoldable pub check_preceding_controllers_for_deactivate :
      ControllerSpec E → ControllerManager D E → Bool
  check_preceding_controllers_for_deactivate spec s =
      not spec.c.is_chainable
      || all_let_go s.switch_params s.controllers (preceding_controllers spec.name s)
