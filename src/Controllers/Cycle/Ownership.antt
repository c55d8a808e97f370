-- ===== src/Controllers/Cycle/Ownership.antt =====
-- A cycle of the realtime loop keeps the accounts of loans.
use ros2_control.Base.{
  refl, Bool, true, not, ◌&&◌, List, [], ◌∷◌, Name, is_empty, add_items, ◌>>=◌, ◌>>◌, done, raise,
  when, branch, inl, inr, Option-cases,
}
use ros2_control.Hardware.Types.{ReturnType, is_ok}
use ros2_control.Hardware.Plugin.{Plugin}
use ros2_control.Resource.Storage.{ReadWriteStatus, ManagerAction}
use ros2_control.Resource.Switch
use ros2_control.Resource.Cycle as ResourceCycle
use ros2_control.Resource.Frame.Cycles.{read-KeepsStore, write-KeepsStore}
use ros2_control.Controllers.Spec.{
  ControllerPlugin, ControllerSpec, ControllerManager, CmAction, Strictness, find_controller,
}
use ros2_control.Controllers.Configuration.{get_controller_list_command_interfaces}
use ros2_control.Controllers.Loans
use ros2_control.Controllers.Changes
use ros2_control.Controllers.Chains
use ros2_control.Controllers.Failures
use ros2_control.Controllers.Cycle
use ros2_control.Controllers.Cycle.{UpdatePlugin, UpdateStatus, CycleInput}
use ros2_control.Controllers.Switching
use ros2_control.Controllers.Switching.Ownership.{Holds}
use ros2_control.Controllers.Switching.Steps.{
  Keeps, KeepsFor, bind-Keeps, branch-Keeps, branch-Holds, when-Keeps, on_resources-Keeps,
  put-Keeps, found,
}
use ros2_control.Controllers.Switching.Deactivation.{deactivate_controllers-Keeps}
use ros2_control.Controllers.Switching.Conservation.{
  prepare-Keeps, perform-Keeps, activate_controllers-Keeps, manage_switch-Holds,
}

module _ {D E : Type 0} (p : ControllerPlugin E) (hw : Plugin D) where
  mode_change-Keeps :
      (activate deactivate : List Name)
      → Keeps {D = D} (Failures.perform_hardware_command_mode_change p hw activate deactivate)
  unfolding Failures.perform_hardware_command_mode_change
  mode_change-Keeps activate deactivate s =
      let r = s.resource_manager in
      let stop = get_controller_list_command_interfaces p deactivate s.controllers r [] in
      let start = get_controller_list_command_interfaces p activate s.controllers r [] in
      let prepare : CmAction D E Bool =
        Changes.on_resources (Switch.prepare_command_mode_switch hw start stop) in
      let perform : CmAction D E Bool =
        Changes.on_resources (Switch.perform_command_mode_switch hw start stop) in
      let performing : CmAction D E (Unit {0}) = perform >>= λ performed. done tt in
      when-Keeps (not (is_empty stop && is_empty start))
        (prepare >>= λ prepared. when prepared performing)
        (bind-Keeps prepare (λ prepared. when prepared performing) (prepare-Keeps hw start stop)
          λ prepared. when-Keeps prepared performing (
            bind-Keeps perform (λ performed. done tt) (perform-Keeps hw start stop)
              λ performed. λ s h. h))
        s

  stop_controllers-Keeps :
      (names : List Name) → Keeps {D = D} (Failures.stop_controllers p hw names)
  unfolding Failures.stop_controllers
  stop_controllers-Keeps names =
      bind-Keeps (Failures.perform_hardware_command_mode_change p hw [] names)
        (λ _. Switching.deactivate_controllers p names) (mode_change-Keeps [] names)
        λ _. deactivate_controllers-Keeps p names

  after_read-Keeps : (status : ReadWriteStatus) → Keeps {D = D} (Failures.after_read p hw status)
  unfolding Failures.after_read
  after_read-Keeps status s =
      let users = Failures.users_of p hw status.failed_hardware_names s.resource_manager in
      branch-Keeps (is_ok status.result) (done tt) (Failures.stop_controllers p hw users) (λ s h. h)
        (stop_controllers-Keeps users) s

  replace_failed-Keeps : (failed : List Name) → Keeps {D = D} (Failures.replace_failed p hw failed)
  unfolding Failures.replace_failed
  replace_failed-Keeps failed s =
      let (fallbacks, users) = Failures.fallbacks_of p hw failed s ([], []) in
      let stopped = add_items failed users in
      let activate : CmAction D E (Unit {0}) =
        Switching.activate_controllers p hw fallbacks Strictness.strict in
      let take_over : CmAction D E (Unit {0}) = when (not (is_empty fallbacks)) activate in
      bind-Keeps (Failures.perform_hardware_command_mode_change p hw fallbacks stopped)
        (λ _. Switching.deactivate_controllers p stopped >> take_over)
        (mode_change-Keeps fallbacks stopped)
        (λ _.
          bind-Keeps (Switching.deactivate_controllers p stopped) (λ _. take_over)
            (deactivate_controllers-Keeps p stopped)
            λ _.
              when-Keeps (not (is_empty fallbacks)) activate
                (activate_controllers-Keeps p hw fallbacks Strictness.strict))
        s

  stop_users-Keeps :
      (result : ReturnType) (users : List Name)
      → Keeps {D = D} (Failures.stop_users p hw result users)
  unfolding Failures.stop_users
  stop_users-Keeps ReturnType.ok users s h = h
  stop_users-Keeps ReturnType.error users s h = stop_controllers-Keeps users s h
  stop_users-Keeps ReturnType.deactivate users s h =
      stop_controllers-Keeps (Failures.commanding p hw users s) s h

  after_write-Keeps : (status : ReadWriteStatus) → Keeps {D = D} (Failures.after_write p hw status)
  unfolding Failures.after_write
  after_write-Keeps status s =
      stop_users-Keeps status.result
        (Failures.users_of p hw status.failed_hardware_names s.resource_manager) s

  module _ (u : UpdatePlugin E) (t : CycleInput) where
    update_spec-Keeps :
        (found' : List Name × Bool)
        → KeepsFor {D = D} (λ spec. Cycle.update_spec p hw u t spec found')
    unfolding Cycle.update_spec Cycle.updated Loans.release_loans
    update_spec-Keeps found' spec s f h =
        let (device, status) = u.trigger_update (Cycle.actual_period u t spec) spec.c.device in
        let spec' = Cycle.updated u t spec device status in
        let unfinished : ControllerSpec E = record spec { c = spec'.c } in
        branch-Holds (status.raised && not s.handle_exceptions) _ _ s
          (put-Keeps spec unfinished s refl f refl h) (put-Keeps spec spec' s refl f refl h)

    update_one-Keeps :
        (name : Name) (found' : List Name × Bool)
        → Keeps {D = D} (Cycle.update_one p hw u t name found')
    unfolding Cycle.update_one
    update_one-Keeps name found' s h = elim (Option-cases (find_controller name s.controllers)) [
      | inl e ↦ rw (e, Cycle.update_one) h
      | inr (spec, e) ↦
          rw (e, Cycle.update_one)
            (branch-Holds
              (Cycle.takes_part u t s.switch_params spec && Cycle.controller_go u t spec)
              (Cycle.update_spec p hw u t spec found') (done found') s
              (update_spec-Keeps found' spec s (found name s spec e) h) h)
    ]

    update_all-Keeps :
        (names : List Name) (found' : List Name × Bool)
        → Keeps {D = D} (Cycle.update_all p hw u t names found')
    unfolding Cycle.update_all
    update_all-Keeps [] found' = λ s h. h
    update_all-Keeps (name ∷ names) found' =
        bind-Keeps (Cycle.update_one p hw u t name found') (Cycle.update_all p hw u t names)
          (update_one-Keeps name found') (update_all-Keeps names)

    serve_switch-Keeps : Keeps {D = D} (Cycle.serve_switch p hw u t)
    unfolding Cycle.serve_switch
    serve_switch-Keeps s =
        let q = s.switch_params in
        let tell : CmAction D E (Unit {0}) =
          Chains.on_params λ q. record q { ready_to_switch = true } in
        let manage : CmAction D E (Unit {0}) = Switching.manage_switch p hw t.is_locked in
        when-Keeps q.do_switch (branch q.activate_asap manage tell)
          (branch-Keeps q.activate_asap manage tell (manage_switch-Holds p hw t.is_locked) λ s h. h)
          s

    finish_update-Keeps :
        (found' : List Name × Bool) → Keeps {D = D} (Cycle.finish_update p hw u t found')
    unfolding Cycle.finish_update
    finish_update-Keeps found' =
        let replace : CmAction D E (Unit {0}) = Failures.replace_failed p hw found'.0 in
        let serve : CmAction D E (Unit {0}) = Cycle.serve_switch p hw u t in
        bind-Keeps (when (not (is_empty found'.0)) replace) (λ _. serve >> done found'.1)
          (when-Keeps (not (is_empty found'.0)) replace (replace_failed-Keeps found'.0))
          λ _. bind-Keeps serve (λ _. done found'.1) serve_switch-Keeps λ _. λ s h. h

    update-Keeps : Keeps {D = D} (Cycle.update p hw u t)
    unfolding Cycle.update
    update-Keeps s =
        let all : CmAction D E (List Name × Bool) =
          Cycle.update_all p hw u t (Cycle.get_names p hw u t s.controllers) ([], true) in
        let finish : List Name × Bool → CmAction D E Bool = Cycle.finish_update p hw u t in
        branch-Keeps (not t.clock_started && t.is_time_zero) raise (all >>= finish) (λ s h. h)
          (bind-Keeps all finish
            (update_all-Keeps (Cycle.get_names p hw u t s.controllers) ([], true))
            finish_update-Keeps)
          s

    read-Keeps : Keeps {D = D} (Cycle.read p hw u t)
    unfolding Cycle.read
    read-Keeps =
        let m : ManagerAction D ReadWriteStatus = ResourceCycle.read hw t.surroundings t.period in
        bind-Keeps (Changes.on_resources m) (Failures.after_read p hw)
          (on_resources-Keeps m (read-KeepsStore hw t.surroundings t.period)) after_read-Keeps

    write-Keeps : Keeps {D = D} (Cycle.write p hw u t)
    unfolding Cycle.write
    write-Keeps =
        let m : ManagerAction D ReadWriteStatus = ResourceCycle.write hw t.surroundings t.period in
        bind-Keeps (Changes.on_resources m) (Failures.after_write p hw)
          (on_resources-Keeps m (write-KeepsStore hw t.surroundings t.period)) after_write-Keeps

    -- Where the controllers of the list hold together one loan of each interface that is recorded as
    -- claimed and no other loans, and an interface has a record exactly if it is stored, it is so
    -- again after `read`, after `update`, and after `write` of the controller manager, whatever
    -- hardware or controllers fail in them, fallback controllers and a switch that is served on the
    -- way included, and also where an exception comes out.
    pub read_update_write-Holds :
        (s : ControllerManager D E)
        → Holds [] s
        → Holds [] (Cycle.read p hw u t s).0
          × Holds [] (Cycle.update p hw u t s).0
          × Holds [] (Cycle.write p hw u t s).0
    read_update_write-Holds s h = (read-Keeps s h, update-Keeps s h, write-Keeps s h)
