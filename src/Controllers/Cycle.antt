-- ===== src/Controllers/Cycle.antt =====
-- The realtime loop of the controller manager: `read`, `update` and `write`, which deactivate the
-- controllers that fail, or whose hardware fails, and activate fallback controllers.
pub mod Ownership
use ros2_control.Base.{
  ℕ, ◌/◌, leb, ◌==◌, Bool, true, false, not, ◌&&◌, ◌||◌, Option, none, some, List, [], ◌∷◌, ◌++◌,
  map, if◌then◌else◌, Name, has_item, add_item, add_items, is_empty, Outcome, returned, thrown,
  ◌>>=◌, ◌>>◌, done, raise, modify, read_state, when, branch,
}
use ros2_control.Base.Int.{ℤ, pos, sub_ℕ}
use ros2_control.Hardware.Types.{ReturnType, is_active, is_ok}
use ros2_control.Hardware.Plugin.{Plugin}
use ros2_control.Resource.Storage.{ResourceManager, ManagerAction, ReadWriteStatus}
use ros2_control.Resource.Cycle as ResourceCycle
use ros2_control.Resource.Cycle.{Surroundings, is_due, period_of}
use ros2_control.Resource.Switch.{prepare_command_mode_switch, perform_command_mode_switch}
use ros2_control.Resource.UsedBy.{get_cached_controllers_to_hardware}
use ros2_control.Controllers.Spec.{
  ControllerPlugin, Controller, ControllerSpec, ControllerManager, CmAction, Strictness,
  SwitchParams, find_controller,
}
use ros2_control.Controllers.Configuration.{
  extract_command_interfaces_for_controller, get_controller_list_command_interfaces,
  get_active_controllers_using_command_interfaces_of_controller,
}
use ros2_control.Controllers.Changes.{on_resources, put_spec}
use ros2_control.Controllers.Chains.{on_params}
use ros2_control.Controllers.Switching.{deactivate_controllers, activate_controllers, manage_switch}
use ros2_control.Controllers.Failures.{replace_failed, after_read, after_write}

-- `ControllerUpdateStatus`, or an exception. Times are nanoseconds.
pub record UpdateStatus : Type 0 where
  pub raised : Bool
  pub successful : Bool
  pub is_ok : Bool
  pub execution_time : Option ℕ
  pub period : Option ℕ

-- What the loop asks of a controller; the update is the controller's own code, or its thread's.
pub record UpdatePlugin (E : Type 0) : Type 0 where
  pub is_async : E → Bool
  pub update_rate : E → ℕ
  pub trigger_update : ℤ → E → E × UpdateStatus

-- The clocks in a cycle, its period, and the locks that are only tried.
pub record CycleInput : Type 0 where
  pub clock_started : Bool
  pub is_time_zero : Bool
  pub current_time : ℕ
  pub period : ℤ
  pub update_rate : ℕ
  pub is_locked : Bool
  pub surroundings : Surroundings

abbrev pub skip_cycle : SwitchParams → Name → Bool
skip_cycle q name =
    has_item q.activate_request name
    || has_item q.deactivate_request name
    || has_item q.to_chained_mode_request name
    || has_item q.from_chained_mode_request name

abbrev pub measure : Option ℕ → List ℕ → List ℕ
measure none statistics = statistics
measure (some value) statistics = statistics ++ value ∷ []

module _ {E : Type 0} (u : UpdatePlugin E) (t : CycleInput) where
  -- The time since the last update; a first update is given the controller's own period.
  unfoldable pub actual_period : ControllerSpec E → ℤ
  unfolding period_of
  actual_period spec =
      let rate = u.update_rate spec.c.device in
      let d = t.surroundings.doubles in
      let own = if leb t.update_rate rate then t.period else d.from_seconds (period_of d rate) in
      if spec.last_update_cycle_time == 0
      then own
      else sub_ℕ t.current_time spec.last_update_cycle_time

  unfoldable pub controller_go : ControllerSpec E → Bool
  controller_go spec =
      let rate = u.update_rate spec.c.device in
      leb t.update_rate rate
      || t.is_time_zero
      || is_due t.surroundings.doubles rate t.update_rate (actual_period spec)
      || spec.last_update_cycle_time == 0

  -- Whether the controller is updated in this cycle, before its rate is looked at.
  abbrev pub takes_part : SwitchParams → ControllerSpec E → Bool
  takes_part q spec =
      not (q.do_switch && not q.activate_asap && skip_cycle q spec.name)
      && is_active spec.c.lifecycle_state
      && not (q.do_switch && u.is_async spec.c.device && has_item q.deactivate_request spec.name)

  -- The controller after its update; an exception leaves the statistics alone.
  unfoldable pub updated : ControllerSpec E → E → UpdateStatus → ControllerSpec E
  updated spec device status =
      let good = not status.raised && status.successful in
      let first = spec.last_update_cycle_time == 0 in
      record spec {
        c = record spec.c { device = device };
        execution_time_statistics =
            if good
            then measure status.execution_time spec.execution_time_statistics
            else spec.execution_time_statistics;
        periodicity_statistics =
            if good && not first
            then measure status.period spec.periodicity_statistics
            else spec.periodicity_statistics;
        last_update_cycle_time = t.current_time;
      }

module _ {D E : Type 0} (p : ControllerPlugin E) (hw : Plugin D) where
  module _ (u : UpdatePlugin E) (t : CycleInput) where
    abbrev pub get_names : List (ControllerSpec E) → List Name
    get_names = map (λ spec. spec.name)

    -- One controller: the controllers to stop so far, and whether all is well.
    unfoldable pub update_spec :
        ControllerSpec E → List Name × Bool → CmAction D E (List Name × Bool)
    update_spec spec found s =
        let (device, status) = u.trigger_update (actual_period u t spec) spec.c.device in
        let spec' = updated u t spec device status in
        let unfinished : ControllerSpec E = record spec { c = spec'.c } in
        branch (status.raised && not s.handle_exceptions) (do modify (put_spec unfinished); raise)
          (do
            modify (put_spec spec')
            done (
                if not status.raised && status.is_ok
                then found
                else (add_items found.0 spec.controllers_chain_group, false)))
          s

    unfoldable pub update_one : Name → List Name × Bool → CmAction D E (List Name × Bool)
    update_one name found s = elim (find_controller name s.controllers) [
      | none ↦ (s, returned found)
      | some spec ↦
          branch (takes_part u t s.switch_params spec && controller_go u t spec)
            (update_spec spec found) (done found) s
    ]

    -- The loop over the list, by the names of its controllers.
    unfoldable pub update_all : List Name → List Name × Bool → CmAction D E (List Name × Bool)
    update_all [] found = done found
    update_all (name ∷ names) found = do found' ← update_one name found; update_all names found'

    unfoldable pub serve_switch : CmAction D E (Unit {0})
    serve_switch s =
        let q = s.switch_params in
        when q.do_switch
          (branch q.activate_asap (manage_switch p hw t.is_locked)
            (on_params λ q. record q { ready_to_switch = true }))
          s

    unfoldable pub finish_update : List Name × Bool → CmAction D E Bool
    finish_update found = do
      when (not (is_empty found.0)) (replace_failed p hw found.0)
      serve_switch
      done found.1

    unfoldable pub update : CmAction D E Bool
    update s =
        branch (not t.clock_started && t.is_time_zero) raise
          (update_all (get_names s.controllers) ([], true) >>= finish_update) s

    unfoldable pub read : CmAction D E (Unit {0})
    read = on_resources (ResourceCycle.read hw t.surroundings t.period) >>= after_read p hw

    unfoldable pub write : CmAction D E (Unit {0})
    write = on_resources (ResourceCycle.write hw t.surroundings t.period) >>= after_write p hw
