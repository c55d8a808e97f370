-- ===== src/Controllers/Requests.antt =====
-- The requests of a switch: `list_controllers` and the two loops of `switch_controller_cb` over the
-- controllers to activate and to deactivate.
pub mod View
pub mod Startable
pub mod Stoppable
use ros2_control.Base.{
  ℕ, Bool, true, false, not, ◌&&◌, ◌||◌, Option, none, some, List, [], ◌∷◌, ◌++◌, if◌then◌else◌,
  Name, has_item, is_empty, Outcome, returned, thrown, ◌>>=◌, ◌>>◌, done, modify, branch,
}
use ros2_control.Hardware.Types.{is_active, is_inactive, is_unconfigured}
use ros2_control.Controllers.Spec.{
  ControllerPlugin, ControllerSpec, ControllerManager, CmAction, Strictness, SwitchParams,
  find_controller, is_strict, is_best_effort,
}
use ros2_control.Controllers.Chains.{
  Verdict, on_params, if_ok, check_following_controllers_for_activate,
  check_preceding_controllers_for_deactivate,
}
use ros2_control.Controllers.Fallback.{check_fallback_controllers_state_pre_activation}

abbrev pub clear_requests : SwitchParams → SwitchParams
clear_requests q = record q {
  do_switch = false;
  ready_to_switch = false;
  activate_asap = false;
  deactivate_request = [];
  activate_request = [];
  to_chained_mode_request = [];
  from_chained_mode_request = [];
  activate_command_interface_request = [];
  deactivate_command_interface_request = [];
}

abbrev pub no_controller : {E : Type 0} → Option (ControllerSpec E) → Bool
no_controller none = true
no_controller (some spec) = false

-- The list of the request so far, and whether the last result was `OK`. A strict switch ends at a
-- name that does not exist.
unfoldable pub list_controllers :
    {E : Type 0}
    → Strictness
    → List (ControllerSpec E)
    → List Name
    → List Name
    → Bool
    → List Name × Bool
list_controllers strictness specs [] request result = (request, result)
list_controllers strictness specs (name ∷ names) request result =
    let missing = no_controller (find_controller name specs) in
    let skipped = list_controllers strictness specs names request (not (is_empty request)) in
    let listed = list_controllers strictness specs names (request ++ name ∷ []) true in
    if missing then (if is_strict strictness then (request, false) else skipped) else listed

abbrev pub verdict : Outcome Bool → Outcome Verdict
verdict thrown = thrown
verdict (returned true) = returned Verdict.ok
verdict (returned false) = returned Verdict.error

module _ {D E : Type 0} where
  abbrev pub put_activate : List Name → ControllerManager D E → ControllerManager D E
  put_activate names s = record s {
    switch_params = record s.switch_params { activate_request = names };
  }

  abbrev pub put_deactivate : List Name → ControllerManager D E → ControllerManager D E
  put_deactivate names s = record s {
    switch_params = record s.switch_params { deactivate_request = names };
  }

  abbrev pub clear : ControllerManager D E → ControllerManager D E
  clear s = record s { switch_params = clear_requests s.switch_params }

  module _ (p : ControllerPlugin E) (fuel : ℕ) where
    -- The state of a controller that is to be activated, and its following controllers.
    unfoldable pub check_state_and_chain : ControllerSpec E → CmAction D E Verdict
    check_state_and_chain spec s =
        let l = spec.c.lifecycle_state in
        let restarts = has_item s.switch_params.deactivate_request spec.name in
        branch (is_unconfigured l) (done Verdict.error)
          (branch (is_active l) (done (if restarts then Verdict.ok else Verdict.error)) (
            branch (not (is_inactive l)) (done Verdict.error)
              (check_following_controllers_for_activate p fuel spec)))
          s

    unfoldable pub check_activation : ControllerSpec E → CmAction D E Verdict
    check_activation spec = do
      v ← check_state_and_chain spec
      if_ok v λ s. (s, verdict (check_fallback_controllers_state_pre_activation p spec s))

    -- What follows a check. The controllers before the iterator stay; `erase` takes out the one at
    -- the iterator, `go_on` is the rest of the loop. Without fuel nothing can be said.
    unfoldable pub after_check :
        Strictness
        → (List Name → ControllerManager D E → ControllerManager D E)
        → List Name
        → Name
        → List Name
        → (List Name → CmAction D E Bool)
        → Verdict
        → CmAction D E Bool
    after_check strictness put kept name names go_on Verdict.ok s = go_on (kept ++ name ∷ []) s
    after_check strictness put kept name names go_on Verdict.unfinished s = (s, thrown)
    after_check strictness put kept name names go_on Verdict.error s =
        branch (is_strict strictness) (do modify clear; done false)
          (branch (is_best_effort strictness) (do modify (put (kept ++ names)); go_on kept)
            (go_on (kept ++ name ∷ [])))
          s

    -- The loop over the rest of the activate request. The controllers exist by `list_controllers`.
    unfoldable pub check_activations : Strictness → List Name → List Name → CmAction D E Bool
    check_activations strictness kept [] s = (s, returned true)
    check_activations strictness kept (name ∷ names) s = elim (find_controller name s.controllers) [
      | none ↦ (s, thrown)
      | some spec ↦
          (check_activation spec
              >>= after_check strictness put_activate kept name names
                  (λ kept'. check_activations strictness kept' names))
            s
    ]

    unfoldable pub check_deactivation : ControllerSpec E → ControllerManager D E → Verdict
    check_deactivation spec s =
        if is_active spec.c.lifecycle_state && check_preceding_controllers_for_deactivate spec s
        then Verdict.ok
        else Verdict.error

    unfoldable pub check_deactivations : Strictness → List Name → List Name → CmAction D E Bool
    check_deactivations strictness kept [] s = (s, returned true)
    check_deactivations strictness kept (name ∷ names) s =
        elim (find_controller name s.controllers) [
          | none ↦ (s, thrown)
          | some spec ↦
              after_check strictness put_deactivate kept name names
                (λ kept'. check_deactivations strictness kept' names) (check_deactivation spec s) s
        ]
