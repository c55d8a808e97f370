-- ===== src/Controllers/Inventory/Configuring.antt =====
-- Configuring a controller keeps the inventory.
use ros2_control.Base.{
  refl, Bool, false, ◌&&◌, List, Name, Option-cases, inl, inr, Outcome, returned, thrown, ◌>>◌,
  done, raise, modify, branch, is_empty,
}
use ros2_control.Hardware.Types.{is_unconfigured, is_inactive}
use ros2_control.Resource.Storage.{Interface}
use ros2_control.Resource.Interfaces
use ros2_control.Controllers.Spec.{ControllerPlugin, ControllerSpec, CmAction, find_controller}
use ros2_control.Controllers.Configuration.{
  get_command_interfaces_names, get_state_interfaces_names,
}
use ros2_control.Controllers.Changes
use ros2_control.Controllers.Loading
use ros2_control.Controllers.Loading.{ControllerLoader}
use ros2_control.Controllers.Unloading
use ros2_control.Controllers.Configuring
use ros2_control.Controllers.Inventory.{Same-trans, Same-IsLoaded}
use ros2_control.Controllers.Inventory.Frames.{
  KeepsNames, bind-KeepsNames, put_c-Same, run_transition-Same, caught-KeepsNames,
  cleanup_exported-Same, undo-KeepsNames,
}
use ros2_control.Controllers.Inventory.Sorting.{
  KeepsLoaded, same-KeepsLoaded, bind-KeepsLoaded, branch-KeepsLoaded, sort_list-KeepsLoaded,
}

module _ {D E : Type 0} where
  module _ (p : ControllerPlugin E) (lo : ControllerLoader E) where
    check_names-KeepsLoaded :
        (name : Name) → KeepsLoaded (Configuring.check_names {D = D} p lo name)
    unfolding Configuring.check_names
    check_names-KeepsLoaded name s l = elim (Option-cases (find_controller name s.controllers)) [
      | inl e ↦ rw (e, Configuring.check_names) l
      | inr (spec, e) ↦
          let cmds = get_command_interfaces_names p spec.c s.resource_manager in
          let states = get_state_interfaces_names p spec.c s.resource_manager in
          let undo : CmAction D E Bool = Configuring.undo_configuration lo name in
          rw (e, Configuring.check_names)
            (branch-KeepsLoaded (Configuring.is_unique cmds && Configuring.is_unique states)
              (Configuring.sort_list p) undo (sort_list-KeepsLoaded p)
              (same-KeepsLoaded undo (undo-KeepsNames lo name)) s l)
    ]

    handled_undo-KeepsLoaded :
        (name : Name)
        → KeepsLoaded {D = D} (Loading.branch_handled (Configuring.undo_configuration lo name))
    handled_undo-KeepsLoaded name s =
        let undo : CmAction D E Bool = Configuring.undo_configuration lo name in
        branch-KeepsLoaded s.handle_exceptions undo raise
          (same-KeepsLoaded undo (undo-KeepsNames lo name)) (λ s l. l) s

    make_exported_unavailable-KeepsNames :
        (name : Name) → KeepsNames {D = D} {E = E} (Changes.make_exported_unavailable name)
    make_exported_unavailable-KeepsNames name =
        let states : CmAction D E (Unit {0}) =
          Changes.on_resources
            (Interfaces.make_controller_exported_state_interfaces_unavailable name) in
        let refs : CmAction D E (Unit {0}) =
          Changes.on_resources (Interfaces.make_controller_reference_interfaces_unavailable name) in
        bind-KeepsNames states (λ _. refs) (λ s. record { names = refl; specs = refl })
          λ _. λ s. record { names = refl; specs = refl }

    pub import_exported-KeepsNames :
        (spec : ControllerSpec E) (states refs : List Interface)
        → KeepsNames (Configuring.import_exported {D = D} p lo spec states refs)
    unfolding Configuring.import_exported
    import_exported-KeepsNames spec states refs =
        let import_refs : CmAction D E (Unit {0}) =
          Changes.on_resources (Interfaces.import_controller_reference_interfaces spec.name refs) in
        let import_states : CmAction D E (Unit {0}) =
          Changes.on_resources
            (Interfaces.import_controller_exported_state_interfaces spec.name states) in
        let c = Changes.set_chained_mode p false spec.c in
        let leave : CmAction D E (Unit {0}) = modify (Changes.put_c spec c) in
        let hide : CmAction D E (Unit {0}) = Changes.make_exported_unavailable spec.name in
        bind-KeepsNames import_refs (λ _. import_states >> (leave >> hide))
          (λ s. record { names = refl; specs = refl })
          λ _.
            bind-KeepsNames import_states (λ _. leave >> hide)
              (λ s. record { names = refl; specs = refl })
              λ _.
                bind-KeepsNames leave (λ _. hide) (put_c-Same spec c)
                  λ _. make_exported_unavailable-KeepsNames spec.name

    take_exported-KeepsLoaded :
        (spec : ControllerSpec E) (states refs : Outcome (List Interface))
        → KeepsLoaded (Configuring.take_exported {D = D} p lo spec states refs)
    unfolding Configuring.take_exported
    take_exported-KeepsLoaded spec thrown refs s = handled_undo-KeepsLoaded spec.name s
    take_exported-KeepsLoaded spec (returned states) thrown s = handled_undo-KeepsLoaded spec.name s
    take_exported-KeepsLoaded spec (returned states) (returned refs) s =
        let undo : CmAction D E Bool = Configuring.undo_configuration lo spec.name in
        let import : CmAction D E (Unit {0}) = Configuring.import_exported p lo spec states refs in
        let check : CmAction D E Bool = Configuring.check_names p lo spec.name in
        branch-KeepsLoaded (is_empty refs && is_empty states) undo (import >> check)
          (same-KeepsLoaded undo (undo-KeepsNames lo spec.name))
          (bind-KeepsLoaded import (λ _. check)
            (same-KeepsLoaded import (import_exported-KeepsNames spec states refs))
            λ _. check_names-KeepsLoaded spec.name)
          s

    export_interfaces-KeepsLoaded :
        (spec : ControllerSpec E) → KeepsLoaded (Configuring.export_interfaces {D = D} p lo spec)
    unfolding Configuring.export_interfaces
    export_interfaces-KeepsLoaded spec s l =
        let states = lo.export_state_interfaces spec.c.device in
        let refs = Configuring.export_references lo states.1 states.0 in
        let spec' = Loading.with_device spec refs.0 in
        take_exported-KeepsLoaded spec' states.1 refs.1 (Changes.put_c spec spec'.c s)
          (Same-IsLoaded s _ (put_c-Same spec spec'.c s) l)

    complete_configuration-KeepsLoaded :
        (name : Name) → KeepsLoaded (Configuring.complete_configuration {D = D} p lo name)
    unfolding Configuring.complete_configuration
    complete_configuration-KeepsLoaded name s l =
        elim (Option-cases (find_controller name s.controllers)) [
          | inl e ↦ rw (e, Configuring.complete_configuration) l
          | inr (spec, e) ↦
              rw (e, Configuring.complete_configuration)
                (branch-KeepsLoaded spec.c.is_chainable (Configuring.export_interfaces p lo spec)
                  (Configuring.check_names p lo name) (export_interfaces-KeepsLoaded spec)
                  (check_names-KeepsLoaded name) s l)
        ]

    configure_spec-KeepsLoaded :
        (spec : ControllerSpec E) → KeepsLoaded (Configuring.configure_spec {D = D} p lo spec)
    unfolding Configuring.configure_spec
    configure_spec-KeepsLoaded spec s l =
        let t = lo.configure spec.c.lifecycle_state spec.c.device in
        let s1 = Unloading.cleanup_controller_exported_interfaces spec s in
        let s2 = Changes.run_transition spec t s1 in
        let same = Same-trans (cleanup_exported-Same spec s) (run_transition-Same spec t s1) in
        let complete : CmAction D E Bool = Configuring.complete_configuration p lo spec.name in
        let fails : CmAction D E Bool = Loading.caught in
        branch-KeepsLoaded t.raised fails (branch (is_inactive t.state) complete (done false))
          (same-KeepsLoaded fails caught-KeepsNames)
          (branch-KeepsLoaded (is_inactive t.state) complete (done false)
            (complete_configuration-KeepsLoaded spec.name) λ s l. l)
          s2 (Same-IsLoaded s s2 same l)

    -- Whether it returns or throws.
    pub configure_controller-IsLoaded :
        (name : Name) → KeepsLoaded (Configuring.configure_controller {D = D} p lo name)
    unfolding Configuring.configure_controller
    configure_controller-IsLoaded name s l =
        elim (Option-cases (find_controller name s.controllers)) [
          | inl e ↦ rw (e, Configuring.configure_controller) l
          | inr (spec, e) ↦
              rw (e, Configuring.configure_controller)
                (branch-KeepsLoaded (is_unconfigured spec.c.lifecycle_state)
                  (Configuring.configure_spec p lo spec) (done false)
                  (configure_spec-KeepsLoaded spec) (λ s l. l) s l)
        ]
