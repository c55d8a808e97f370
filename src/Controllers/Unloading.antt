-- ===== src/Controllers/Unloading.antt =====
-- Cleaning up, unloading and shutting down controllers: `cleanup_controller`, `shutdown_controller`,
-- `unload_controller` and `shutdown_controllers`.
use ros2_control.Base.{
  Bool, true, false, not, ◌&&◌, ◌||◌, none, some, List, [], ◌∷◌, if◌then◌else◌, ite, Name,
  name_discrete, returned, ◌>>=◌, ◌>>◌, done, raise, modify, read_state, branch,
}
use ros2_control.Hardware.Types.{is_unconfigured, is_inactive, is_active, is_finalized}
use ros2_control.Resource.Interfaces.{
  remove_controller_exported_state_interfaces, remove_controller_reference_interfaces,
}
use ros2_control.Controllers.Spec.{
  ControllerPlugin, ControllerSpec, ControllerManager, CmAction, find_controller,
}
use ros2_control.Controllers.Changes.{release_interfaces, run_transition}
use ros2_control.Controllers.Topology.{controller_chain_spec_cleanup}
use ros2_control.Controllers.Loading.{ControllerLoader, caught}

module _ {E : Type 0} where
  -- `to.erase(found_it)`
  unfoldable pub erase_controller : Name → List (ControllerSpec E) → List (ControllerSpec E)
  erase_controller name [] = []
  erase_controller name (s ∷ ss) = ite (name_discrete s.name name) ss (s ∷ erase_controller name ss)

module _ {D E : Type 0} where
  abbrev pub release_again : Name → ControllerManager D E → ControllerManager D E
  release_again name s = elim (find_controller name s.controllers) [
    | none ↦ s
    | some spec ↦ release_interfaces spec s
  ]

  unfoldable pub cleanup_controller_exported_interfaces :
      ControllerSpec E → ControllerManager D E → ControllerManager D E
  cleanup_controller_exported_interfaces spec s =
      if not (is_active spec.c.lifecycle_state) && spec.c.is_chainable
      then record s {
        resource_manager =
            remove_controller_reference_interfaces spec.name
              (remove_controller_exported_state_interfaces spec.name s.resource_manager);
      }
      else s

  module _ (lo : ControllerLoader E) where
    -- `cleanup_controller` of a spec.
    unfoldable pub cleanup_spec : ControllerSpec E → CmAction D E Bool
    cleanup_spec spec s =
        let t = lo.cleanup spec.c.lifecycle_state spec.c.device in
        let s' = run_transition spec t (cleanup_controller_exported_interfaces spec s) in
        branch t.raised caught (done (is_unconfigured t.state)) s'

    unfoldable pub cleanup_controller : Name → CmAction D E Bool
    cleanup_controller name s = elim (find_controller name s.controllers) [
      | none ↦ (s, returned false)
      | some spec ↦
          let state = spec.c.lifecycle_state in
          branch (is_unconfigured state) (done true)
            (branch (is_active state || is_finalized state) (done false) (cleanup_spec spec)) s
    ]

    unfoldable pub shutdown_controller : ControllerSpec E → CmAction D E (Unit {0})
    shutdown_controller spec s =
        let t = lo.shutdown spec.c.lifecycle_state spec.c.device in
        branch (t.raised && not s.handle_exceptions) raise (done tt) (run_transition spec t s)

    abbrev pub shutdown_idle : ControllerSpec E → CmAction D E (Unit {0})
    shutdown_idle spec s =
        let state = spec.c.lifecycle_state in
        branch (is_inactive state || is_unconfigured state) (shutdown_controller spec) (done tt) s

    -- The controller as its pointer shows it now.
    abbrev pub shutdown_found : Name → CmAction D E (Unit {0})
    shutdown_found name s = elim (find_controller name s.controllers) [
      | none ↦ (s, returned tt)
      | some spec ↦ shutdown_idle spec s
    ]

    abbrev pub remove_controller : Name → CmAction D E Bool
    remove_controller name s =
        (record s { controllers = erase_controller name s.controllers }, returned true)

    -- From where the controller is cleaned up.
    unfoldable pub finish_unload : Name → CmAction D E Bool
    finish_unload name s = (shutdown_found name >> remove_controller name) (record s {
      controller_chain_spec = controller_chain_spec_cleanup s.controller_chain_spec name;
    })

    unfoldable pub unload_controller : Name → CmAction D E Bool
    unload_controller name s = elim (find_controller name s.controllers) [
      | none ↦ (s, returned false)
      | some spec ↦
          branch (is_active spec.c.lifecycle_state) (done false)
            (do cleaned ← cleanup_controller name; branch cleaned (finish_unload name) (done false))
            s
    ]

  module _ (p : ControllerPlugin E) (lo : ControllerLoader E) where
    abbrev pub deactivate_node : ControllerSpec E → CmAction D E (Unit {0})
    deactivate_node spec s =
        let t = p.deactivate spec.c.lifecycle_state spec.c.device in
        branch t.raised raise (modify λ s. release_again spec.name s) (run_transition spec t s)

    abbrev pub deactivate_active : Name → CmAction D E (Unit {0})
    deactivate_active name s = elim (find_controller name s.controllers) [
      | none ↦ (s, returned tt)
      | some spec ↦ branch (is_active spec.c.lifecycle_state) (deactivate_node spec) (done tt) s
    ]

    abbrev pub is_shut_down : Name → ControllerManager D E → Bool
    is_shut_down name s = elim (find_controller name s.controllers) [
      | none ↦ true
      | some spec ↦ is_finalized spec.c.lifecycle_state
    ]

    -- `shutdown_controllers`, over the names of the list, which stays as it is.
    unfoldable pub shutdown_controllers : List Name → CmAction D E Bool
    shutdown_controllers [] s = (s, returned true)
    shutdown_controllers (name ∷ names) s =
        (do
          deactivate_active name
          shutdown_found lo name
          ok ← read_state (is_shut_down name)
          rest ← shutdown_controllers names
          done (ok && rest))
          s
