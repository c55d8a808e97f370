-- ===== src/Controllers/Switching/Conservation.antt =====
-- Whole switches keep the accounts of loans.
use ros2_control.Base.{
  Bool, true, false, List, [], Name, ◌>>=◌, ◌>>◌, done, modify, read_state, when, branch, ◌&&◌, not,
  is_empty,
}
use ros2_control.Hardware.Plugin.{Plugin}
use ros2_control.Resource.Switch
use ros2_control.Resource.Frame.Switches.{prepare-KeepsStore, perform-KeepsStore}
use ros2_control.Controllers.Spec.{
  ControllerPlugin, ControllerManager, CmAction, Strictness, SwitchParams, is_strict,
}
use ros2_control.Controllers.Changes
use ros2_control.Controllers.Switching
use ros2_control.Controllers.Switching.Ownership.{Holds}
use ros2_control.Controllers.Switching.Steps.{
  Keeps, bind-Keeps, branch-Keeps, when-Keeps, on_resources-Keeps,
}
use ros2_control.Controllers.Switching.Activation.{make_all_available-Keeps, activate_all-Keeps}
use ros2_control.Controllers.Switching.Deactivation.{
  deactivate_controllers-Keeps, switch_chained_mode-Keeps,
}

module _ {D E : Type 0} (hw : Plugin D) (start stop : List Name) where
  pub prepare-Keeps :
      Keeps {E = E} (Changes.on_resources (Switch.prepare_command_mode_switch hw start stop))
  prepare-Keeps =
      on_resources-Keeps (Switch.prepare_command_mode_switch hw start stop)
        (prepare-KeepsStore hw start stop)

  pub perform-Keeps :
      Keeps {E = E} (Changes.on_resources (Switch.perform_command_mode_switch hw start stop))
  perform-Keeps =
      on_resources-Keeps (Switch.perform_command_mode_switch hw start stop)
        (perform-KeepsStore hw start stop)

module _ {D E : Type 0} (p : ControllerPlugin E) (hw : Plugin D) where
  stop_interfaces-Keeps :
      (itfs : List Name) → Keeps {D = D} {E = E} (Switching.stop_interfaces p hw itfs)
  stop_interfaces-Keeps itfs =
      let perform : CmAction D E Bool =
        Changes.on_resources (Switch.perform_command_mode_switch hw [] itfs) in
      bind-Keeps (Changes.on_resources (Switch.prepare_command_mode_switch hw [] itfs))
        (λ ready. when ready (perform >>= λ switched. done tt)) (prepare-Keeps hw [] itfs)
        λ ready.
          when-Keeps ready (perform >>= λ switched. done tt) (
            bind-Keeps perform (λ switched. done tt) (perform-Keeps hw [] itfs)
              λ switched. λ s h. h)

  clean_up_failed-Keeps :
      (names : List Name) (strictness : Strictness) (successful : Bool) (failed : List Name)
      → Keeps {D = D} {E = E} (Switching.clean_up_failed p hw names strictness successful failed)
  unfolding Switching.clean_up_failed
  clean_up_failed-Keeps names strictness successful failed =
      let request : CmAction D E (List Name) =
        read_state (λ s. s.switch_params.activate_command_interface_request) in
      branch-Keeps (not successful && is_strict strictness)
        (Switching.deactivate_controllers p names >> (request >>= Switching.stop_interfaces p hw))
        (when (not (is_empty failed)) (Switching.stop_interfaces p hw failed))
        (bind-Keeps (Switching.deactivate_controllers p names)
          (λ _. request >>= Switching.stop_interfaces p hw) (deactivate_controllers-Keeps p names)
          λ _. bind-Keeps request (Switching.stop_interfaces p hw) (λ s h. h) stop_interfaces-Keeps)
        (when-Keeps (not (is_empty failed)) (Switching.stop_interfaces p hw failed)
          (stop_interfaces-Keeps failed))

  pub activate_controllers-Keeps :
      (names : List Name) (strictness : Strictness)
      → Keeps {D = D} {E = E} (Switching.activate_controllers p hw names strictness)
  unfolding Switching.activate_controllers
  activate_controllers-Keeps names strictness =
      let finish : Bool × List Name → CmAction D E (Unit {0}) =
        λ result. Switching.clean_up_failed p hw names strictness result.0 result.1 in
      bind-Keeps (Switching.make_all_available p names)
        (λ _. Switching.activate_all p names true [] >>= finish) (make_all_available-Keeps p names)
        λ _.
          bind-Keeps (Switching.activate_all p names true []) finish
            (activate_all-Keeps p names true [])
            λ result. clean_up_failed-Keeps names strictness result.0 result.1

  switch_controllers-Keeps : Keeps {D = D} {E = E} (Switching.switch_controllers p hw)
  unfolding Switching.switch_controllers
  switch_controllers-Keeps s =
      let q = s.switch_params in
      let finish : CmAction D E (Unit {0}) = modify (Changes.finish_switch) in
      let activate : CmAction D E (Unit {0}) =
        Switching.activate_controllers p hw q.activate_request q.strictness in
      let leave : CmAction D E (Unit {0}) =
        Switching.switch_chained_mode p false q.from_chained_mode_request in
      let enter : CmAction D E (Unit {0}) =
        Switching.switch_chained_mode p true q.to_chained_mode_request in
      bind-Keeps (Switching.deactivate_controllers p q.deactivate_request)
        (λ _. enter >> (leave >> (activate >> finish)))
        (deactivate_controllers-Keeps p q.deactivate_request)
        (λ _.
          bind-Keeps enter (λ _. leave >> (activate >> finish))
            (switch_chained_mode-Keeps p true q.to_chained_mode_request)
            λ _.
              bind-Keeps leave (λ _. activate >> finish)
                (switch_chained_mode-Keeps p false q.from_chained_mode_request)
                λ _.
                  bind-Keeps activate (λ _. finish)
                    (activate_controllers-Keeps q.activate_request q.strictness) λ _. λ s h. h)
        s

  -- Where the controllers of the list hold together one loan of each interface that is recorded as
  -- claimed and no other loans, and an interface has a record exactly if it is stored, it is so again
  -- after a call of `manage_switch`, whatever the hardware's and the controllers' own calls do, and
  -- also where an exception comes out of it.
  pub manage_switch-Holds :
      (is_locked : Bool) (s : ControllerManager D E)
      → Holds [] s
      → Holds [] (Switching.manage_switch p hw is_locked s).0
  unfolding Switching.manage_switch
  manage_switch-Holds is_locked s =
      let perform : SwitchParams → CmAction D E Bool = λ q. Changes.on_resources (
        Switch.perform_command_mode_switch hw q.activate_command_interface_request
          q.deactivate_command_interface_request) in
      let switch' : Bool → CmAction D E (Unit {0}) = λ performed.
        branch performed (Switching.switch_controllers p hw) (modify Changes.finish_switch) in
      let params : CmAction D E SwitchParams = read_state (λ s. s.switch_params) in
      branch-Keeps is_locked (done tt) (params >>= λ q. perform q >>= switch') (λ s h. h)
        (bind-Keeps params (λ q. perform q >>= switch') (λ s h. h)
          λ q.
            bind-Keeps (perform q) switch'
              (perform-Keeps hw q.activate_command_interface_request
                q.deactivate_command_interface_request)
              λ performed.
                branch-Keeps performed (Switching.switch_controllers p hw)
                  (modify Changes.finish_switch) switch_controllers-Keeps λ s h. h)
        s
