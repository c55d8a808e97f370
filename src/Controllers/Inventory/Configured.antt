-- ===== src/Controllers/Inventory/Configured.antt =====
-- The branches of `configure_controller`, and the state of the controller on each.
use ros2_control.Base.{
  ◌≡◌, ◌≢◌, refl, sym, subst, Bool, true, false, ◌&&◌, some, List, [], Name, is_empty, Option-cases,
  Bool-cases, if◌then◌else◌, Outcome, returned, thrown, inl, inr, ◌>>◌, raise, modify, arith,
}
use ros2_control.Hardware.Types.{is_unconfigured, is_inactive}
use ros2_control.Resource.Storage.{Interface}
use ros2_control.Resource.Interfaces
use ros2_control.Controllers.Spec.{
  ControllerPlugin, ControllerSpec, ControllerManager, CmAction, Transition, find_controller,
}
use ros2_control.Controllers.Configuration.{
  get_command_interfaces_names, get_state_interfaces_names,
}
use ros2_control.Controllers.Changes
use ros2_control.Controllers.Switching.Ownership.{find-name}
use ros2_control.Controllers.Loading
use ros2_control.Controllers.Loading.{ControllerLoader}
use ros2_control.Controllers.Unloading
use ros2_control.Controllers.Configuring
use ros2_control.Controllers.Inventory.{IsLoaded, Same-IsLoaded, Same-trans}
use ros2_control.Controllers.Inventory.Frames.{
  put_c-Same, cleanup_exported-Same, run_transition-Same,
}
use ros2_control.Controllers.Inventory.Sorting.{same-KeepsLoaded}
use ros2_control.Controllers.Inventory.Configuring.{import_exported-KeepsNames}
use ros2_control.Controllers.Inventory.Inactive.{
  IsInactive, KeepsInactive, Succeeds, bind-KeepsInactive, bind-Succeeds, branch-Succeeds,
  put_c-IsInactive, on_resources-KeepsInactive, sort_list-Succeeds,
}

module _ {D E : Type 0} (name : Name) where
  module _ (p : ControllerPlugin E) (lo : ControllerLoader E) where
    undo-Succeeds : Succeeds {D = D} name (Configuring.undo_configuration lo name)
    unfolding Configuring.undo_configuration
    undo-Succeeds s l i e = absurd (ground (arith, e))

    check_names-Succeeds : Succeeds {D = D} name (Configuring.check_names p lo name)
    unfolding Configuring.check_names
    check_names-Succeeds s l i =
        let spec = i.spec in
        let cmds = get_command_interfaces_names p spec.c s.resource_manager in
        let states = get_state_interfaces_names p spec.c s.resource_manager in
        rw (i.found, Configuring.check_names)
          (branch-Succeeds name (Configuring.is_unique cmds && Configuring.is_unique states)
            (Configuring.sort_list p) (Configuring.undo_configuration lo name)
            (sort_list-Succeeds name p) undo-Succeeds s l i)

    import_exported-KeepsInactive :
        (spec : ControllerSpec E) (states refs : List Interface)
        → spec.name ≡ name
        → is_inactive spec.c.lifecycle_state ≡ true
        → KeepsInactive name (Configuring.import_exported {D = D} p lo spec states refs)
    unfolding Configuring.import_exported
    import_exported-KeepsInactive spec states refs en inactive =
        let import_refs : CmAction D E (Unit {0}) =
          Changes.on_resources (Interfaces.import_controller_reference_interfaces spec.name refs) in
        let import_states : CmAction D E (Unit {0}) =
          Changes.on_resources
            (Interfaces.import_controller_exported_state_interfaces spec.name states) in
        let hide_states : CmAction D E (Unit {0}) =
          Changes.on_resources
            (Interfaces.make_controller_exported_state_interfaces_unavailable spec.name) in
        let hide_refs : CmAction D E (Unit {0}) =
          Changes.on_resources
            (Interfaces.make_controller_reference_interfaces_unavailable spec.name) in
        let c = Changes.set_chained_mode p false spec.c in
        let leave : CmAction D E (Unit {0}) = modify (Changes.put_c spec c) in
        let same : c.lifecycle_state ≡ spec.c.lifecycle_state =
          unfold Changes.set_chained_mode in ground arith in
        bind-KeepsInactive name import_refs
          (λ _. import_states >> (leave >> (hide_states >> hide_refs)))
          (on_resources-KeepsInactive name
            (Interfaces.import_controller_reference_interfaces spec.name refs))
          λ _.
            bind-KeepsInactive name import_states (λ _. leave >> (hide_states >> hide_refs))
              (on_resources-KeepsInactive name
                (Interfaces.import_controller_exported_state_interfaces spec.name states))
              λ _.
                bind-KeepsInactive name leave (λ _. hide_states >> hide_refs)
                  (λ s i. put_c-IsInactive name spec c s en (rw same inactive) i.spec i.found)
                  λ _.
                    bind-KeepsInactive name hide_states (λ _. hide_refs)
                      (on_resources-KeepsInactive name (
                        Interfaces.make_controller_exported_state_interfaces_unavailable spec.name))
                      λ _.
                        on_resources-KeepsInactive name
                          (Interfaces.make_controller_reference_interfaces_unavailable spec.name)

    -- An export that throws is no success, handled or not.
    handled_undo-Succeeds :
        Succeeds {D = D} name (Loading.branch_handled (Configuring.undo_configuration lo name))
    handled_undo-Succeeds s =
        branch-Succeeds name s.handle_exceptions (Configuring.undo_configuration lo name) raise
          undo-Succeeds (λ s l i e. absurd (ground (arith, e))) s

    take_exported-Succeeds :
        (spec : ControllerSpec E) (states refs : Outcome (List Interface))
        → spec.name ≡ name
        → is_inactive spec.c.lifecycle_state ≡ true
        → Succeeds {D = D} name (Configuring.take_exported p lo spec states refs)
    unfolding Configuring.take_exported
    take_exported-Succeeds spec thrown refs en a = rw en handled_undo-Succeeds
    take_exported-Succeeds spec (returned states) thrown en a = rw en handled_undo-Succeeds
    take_exported-Succeeds spec (returned states) (returned refs) en a =
        let undo : CmAction D E Bool = Configuring.undo_configuration lo spec.name in
        let import : CmAction D E (Unit {0}) = Configuring.import_exported p lo spec states refs in
        let check : CmAction D E Bool = Configuring.check_names p lo spec.name in
        branch-Succeeds name (is_empty refs && is_empty states) undo (import >> check)
          (subst (λ n. Succeeds {D = D} name (Configuring.undo_configuration lo n)) (sym en)
            undo-Succeeds)
          (bind-Succeeds name import (λ _. check)
            (same-KeepsLoaded import (import_exported-KeepsNames p lo spec states refs))
            (import_exported-KeepsInactive spec states refs en a)
            λ _.
              subst (λ n. Succeeds {D = D} name (Configuring.check_names p lo n)) (sym en)
                check_names-Succeeds)

    export_interfaces-Succeeds :
        (spec : ControllerSpec E)
        → spec.name ≡ name
        → is_inactive spec.c.lifecycle_state ≡ true
        → Succeeds {D = D} name (Configuring.export_interfaces p lo spec)
    unfolding Configuring.export_interfaces
    export_interfaces-Succeeds spec en a s l i =
        let states = lo.export_state_interfaces spec.c.device in
        let refs = Configuring.export_references lo states.1 states.0 in
        let spec' = Loading.with_device spec refs.0 in
        take_exported-Succeeds spec' states.1 refs.1 en a (Changes.put_c spec spec'.c s)
          (Same-IsLoaded s _ (put_c-Same spec spec'.c s) l)
          (put_c-IsInactive name spec spec'.c s en a i.spec i.found)

    complete_configuration-Succeeds :
        Succeeds {D = D} name (Configuring.complete_configuration p lo name)
    unfolding Configuring.complete_configuration
    complete_configuration-Succeeds s l i =
        let spec = i.spec in
        rw (i.found, Configuring.complete_configuration)
          (branch-Succeeds name spec.c.is_chainable (Configuring.export_interfaces p lo spec)
            (Configuring.check_names p lo name)
            (export_interfaces-Succeeds spec (find-name name spec s.controllers i.found) i.inactive)
            check_names-Succeeds s l i)

    not_caught : (s : ControllerManager D E) → (Loading.caught s).1 ≢ returned true
    not_caught s e = ground (arith, e)

    run_transition-IsInactive :
        (spec : ControllerSpec E) (t : Transition E) (s : ControllerManager D E)
        → spec.name ≡ name
        → is_inactive t.state ≡ true
        → find_controller name s.controllers ≡ some spec
        → IsInactive name (Changes.run_transition spec t s)
    unfolding Changes.run_transition
    run_transition-IsInactive spec t s en a f =
        put_c-IsInactive name spec (Changes.after_call spec.c t)
          (Changes.give_back (if t.released then spec.c.command_interfaces else []) s) en
          (ground arith) spec f

    -- From the transition of `configure`.
    configured-Succeeds :
        (spec : ControllerSpec E) (s : ControllerManager D E)
        → find_controller name s.controllers ≡ some spec
        → IsLoaded s
        → (Configuring.configure_spec p lo spec s).1 ≡ returned true
        → IsInactive name (Configuring.configure_spec p lo spec s).0
    unfolding Configuring.configure_spec Changes.run_transition
    configured-Succeeds spec s f l =
        let en = find-name name spec s.controllers f in
        let t = lo.configure spec.c.lifecycle_state spec.c.device in
        let s1 = Unloading.cleanup_controller_exported_interfaces spec s in
        let s2 = Changes.run_transition spec t s1 in
        let l2 =
          Same-IsLoaded s s2
            (Same-trans (cleanup_exported-Same spec s) (run_transition-Same spec t s1)) l in
        let complete : CmAction D E Bool = Configuring.complete_configuration p lo spec.name in
        elim (Bool-cases t.raised) [
          | inl r ↦ rw r λ e. absurd (not_caught s2 e)
          | inr r ↦ rw r (elim (Bool-cases (is_inactive t.state)) [
            | inr b ↦ rw b λ e. absurd (ground (arith, e))
            | inl b ↦ rw b (
                subst (λ n. Succeeds {D = D} name (Configuring.complete_configuration p lo n))
                  (sym en) complete_configuration-Succeeds s2 l2
                  (run_transition-IsInactive spec t s1 en b
                    (unfold Unloading.cleanup_controller_exported_interfaces in ground (arith, f))))
          ])
        ]

-- In order, a call of `configure_controller` that reports success has found the controller in the
-- list, unconfigured, and leaves it in the list, inactive, whatever its plugin and the others do.
pub configure_controller-IsInactive :
    {D E : Type 0} (p : ControllerPlugin E) (lo : ControllerLoader E) (name : Name)
    (s : ControllerManager D E)
    → IsLoaded s
    → (Configuring.configure_controller p lo name s).1 ≡ returned true
    → ((spec : ControllerSpec E) × (find_controller name s.controllers ≡ some spec)
        × (is_unconfigured spec.c.lifecycle_state ≡ true))
      × IsInactive name (Configuring.configure_controller p lo name s).0
unfolding Configuring.configure_controller
configure_controller-IsInactive p lo name s l =
    elim (Option-cases (find_controller name s.controllers)) [
      | inl e ↦ rw (e, Configuring.configure_controller) λ h. absurd (ground (arith, h))
      | inr (spec, e) ↦
          rw (e, Configuring.configure_controller)
            (elim (Bool-cases (is_unconfigured spec.c.lifecycle_state)) [
              | inr b ↦ rw b λ h. absurd (ground (arith, h))
              | inl b ↦ rw b λ h. ((spec, refl, b), configured-Succeeds name p lo spec s e l h)
            ])
    ]
