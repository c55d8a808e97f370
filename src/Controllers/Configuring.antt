-- ===== src/Controllers/Configuring.antt =====
-- Configuring a controller: `configure_controller`, which also exports the interfaces of a chainable
-- controller, finds the chains and sorts the list of controllers.
use ros2_control.Base.{
  Bool, true, false, not, ◌&&◌, none, some, List, [], ◌∷◌, Name, has_item, is_empty, length,
  Outcome, returned, thrown, ◌>>=◌, ◌>>◌, done, modify, branch, suc,
}
use ros2_control.Hardware.Types.{is_unconfigured, is_inactive}
use ros2_control.Resource.Storage.{Interface}
use ros2_control.Resource.Interfaces.{
  import_controller_exported_state_interfaces, import_controller_reference_interfaces,
}
use ros2_control.Controllers.Spec.{ControllerPlugin, ControllerSpec, CmAction, find_controller}
use ros2_control.Controllers.Configuration.{
  get_command_interfaces_names, get_state_interfaces_names,
}
use ros2_control.Controllers.Changes.{
  on_resources, put_c, set_chained_mode, run_transition, make_exported_unavailable,
}
use ros2_control.Controllers.Topology.{build_controllers_topology_info}
use ros2_control.Controllers.Sorting.{order_names, sort_controllers}
use ros2_control.Controllers.Loading.{ControllerLoader, caught, branch_handled, with_device}
use ros2_control.Controllers.Unloading.{cleanup_spec, cleanup_controller_exported_interfaces}

-- `ros2_control::is_unique`, which sorts and looks for equal neighbours.
unfoldable pub is_unique : List Name → Bool
is_unique [] = true
is_unique (x ∷ xs) = not (has_item xs x) && is_unique xs

module _ {E : Type 0} where
  module _ (lo : ControllerLoader E) where
    -- The second export is not called where the first one throws.
    abbrev pub export_references : Outcome (List Interface) → E → E × Outcome (List Interface)
    export_references thrown e = (e, thrown)
    export_references (returned states) e = lo.export_reference_interfaces e

module _ {D E : Type 0} where
  -- The end of `configure_controller`, under the lock of the controllers. The depth of the chains
  -- is at most the number of their entries.
  abbrev pub replace_list : CmAction D E Bool
  replace_list s =
      let m = s.controller_chain_spec in
      let fuel = suc (length m) in
      (
        record s {
          controllers = sort_controllers fuel m s.controllers;
          ordered_controllers_names = order_names fuel m m [];
        },
        returned true,
      )

  module _ (lo : ControllerLoader E) where
    -- `cleanup_controller(*found_it)` before an error is returned.
    unfoldable pub undo_configuration : Name → CmAction D E Bool
    undo_configuration name s = elim (find_controller name s.controllers) [
      | none ↦ (s, returned false)
      | some spec ↦ (do cleaned ← cleanup_spec lo spec; done false) s
    ]

  module _ (p : ControllerPlugin E) where
    unfoldable pub sort_list : CmAction D E Bool
    sort_list s = (build_controllers_topology_info p s.controllers >> replace_list) s

  module _ (p : ControllerPlugin E) (lo : ControllerLoader E) where
    unfoldable pub check_names : Name → CmAction D E Bool
    check_names name s = elim (find_controller name s.controllers) [
      | none ↦ (s, returned false)
      | some spec ↦
          let cmd_itfs = get_command_interfaces_names p spec.c s.resource_manager in
          let state_itfs = get_state_interfaces_names p spec.c s.resource_manager in
          branch (is_unique cmd_itfs && is_unique state_itfs) (sort_list p)
            (undo_configuration lo name) s
    ]

    unfoldable pub import_exported :
        ControllerSpec E → List Interface → List Interface → CmAction D E (Unit {0})
    import_exported spec state_interfaces ref_interfaces = do
      on_resources (import_controller_reference_interfaces spec.name ref_interfaces)
      on_resources (import_controller_exported_state_interfaces spec.name state_interfaces)
      modify (put_c spec (set_chained_mode p false spec.c))
      make_exported_unavailable spec.name

    -- With what both exports have returned.
    unfoldable pub take_exported :
        ControllerSpec E → Outcome (List Interface) → Outcome (List Interface) → CmAction D E Bool
    take_exported spec thrown refs = branch_handled (undo_configuration lo spec.name)
    take_exported spec (returned states) thrown = branch_handled (undo_configuration lo spec.name)
    take_exported spec (returned states) (returned refs) =
        branch (is_empty refs && is_empty states) (undo_configuration lo spec.name)
          (import_exported spec states refs >> check_names spec.name)

    unfoldable pub export_interfaces : ControllerSpec E → CmAction D E Bool
    export_interfaces spec s =
        let (e, states) = lo.export_state_interfaces spec.c.device in
        let (e', refs) = export_references lo states e in
        let spec' = with_device spec e' in take_exported spec' states refs (put_c spec spec'.c s)

    -- From where the controller is inactive.
    unfoldable pub complete_configuration : Name → CmAction D E Bool
    complete_configuration name s = elim (find_controller name s.controllers) [
      | none ↦ (s, returned false)
      | some spec ↦ branch spec.c.is_chainable (export_interfaces spec) (check_names name) s
    ]

    unfoldable pub configure_spec : ControllerSpec E → CmAction D E Bool
    configure_spec spec s =
        let t = lo.configure spec.c.lifecycle_state spec.c.device in
        let s' = run_transition spec t (cleanup_controller_exported_interfaces spec s) in
        branch t.raised caught
          (branch (is_inactive t.state) (complete_configuration spec.name) (done false)) s'

    unfoldable pub configure_controller : Name → CmAction D E Bool
    configure_controller name s = elim (find_controller name s.controllers) [
      | none ↦ (s, returned false)
      | some spec ↦
          branch (is_unconfigured spec.c.lifecycle_state) (configure_spec spec) (done false) s
    ]
