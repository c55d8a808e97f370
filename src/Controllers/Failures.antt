-- ===== src/Controllers/Failures.antt =====
-- What the realtime loop does about failed hardware and failed controllers: the controllers stop, and
-- fallback controllers take over (`perform_hardware_command_mode_change`, and the parts of `read`,
-- `update` and `write` for errors).
use ros2_control.Base.{
  not, ◌&&◌, none, some, List, [], ◌∷◌, ◌++◌, if◌then◌else◌, Name, add_item, add_items, is_empty,
  returned, ◌>>=◌, ◌>>◌, done, when, branch,
}
use ros2_control.Hardware.Types.{ReturnType, is_ok}
use ros2_control.Hardware.Plugin.{Plugin}
use ros2_control.Resource.Storage.{ResourceManager, ReadWriteStatus}
use ros2_control.Resource.Switch.{prepare_command_mode_switch, perform_command_mode_switch}
use ros2_control.Resource.UsedBy.{get_cached_controllers_to_hardware}
use ros2_control.Controllers.Spec.{
  ControllerPlugin, ControllerManager, CmAction, Strictness, find_controller,
}
use ros2_control.Controllers.Configuration.{
  extract_command_interfaces_for_controller, get_controller_list_command_interfaces,
  get_active_controllers_using_command_interfaces_of_controller,
}
use ros2_control.Controllers.Changes.{on_resources}
use ros2_control.Controllers.Switching.{deactivate_controllers, activate_controllers}

module _ {D E : Type 0} (p : ControllerPlugin E) (hw : Plugin D) where
  unfoldable pub perform_hardware_command_mode_change :
      List Name → List Name → CmAction D E (Unit {0})
  perform_hardware_command_mode_change activate deactivate s =
      let r = s.resource_manager in
      let stop = get_controller_list_command_interfaces p deactivate s.controllers r [] in
      let start = get_controller_list_command_interfaces p activate s.controllers r [] in
      when (not (is_empty stop && is_empty start))
        (do
          prepared ← on_resources (prepare_command_mode_switch hw start stop)
          when prepared
              (do performed ← on_resources (perform_command_mode_switch hw start stop); done tt))
        s

  -- Controllers stop because of an error.
  unfoldable pub stop_controllers : List Name → CmAction D E (Unit {0})
  stop_controllers names = do
    perform_hardware_command_mode_change [] names
    deactivate_controllers p names

  -- The controllers that use one of the components, with repetitions.
  abbrev pub users_of : List Name → ResourceManager D → List Name
  users_of [] r = []
  users_of (name ∷ names) r = get_cached_controllers_to_hardware name r ++ users_of names r

  -- Those of them that are in the list and have command interfaces.
  abbrev pub commanding : List Name → ControllerManager D E → List Name
  commanding [] s = []
  commanding (name ∷ names) s =
      let rest = commanding names s in
      elim (find_controller name s.controllers) [
        | none ↦ rest
        | some spec ↦
            if is_empty (extract_command_interfaces_for_controller p spec s.resource_manager [])
            then rest
            else name ∷ rest
      ]

  unfoldable pub after_read : ReadWriteStatus → CmAction D E (Unit {0})
  after_read status s =
      branch (is_ok status.result) (done tt)
        (stop_controllers (users_of status.failed_hardware_names s.resource_manager)) s

  unfoldable pub stop_users : ReturnType → List Name → CmAction D E (Unit {0})
  stop_users ReturnType.ok users s = (s, returned tt)
  stop_users ReturnType.error users s = stop_controllers users s
  stop_users ReturnType.deactivate users s = stop_controllers (commanding users s) s

  unfoldable pub after_write : ReadWriteStatus → CmAction D E (Unit {0})
  after_write status s =
      stop_users status.result (users_of status.failed_hardware_names s.resource_manager) s

  -- The fallback controllers of the failed ones, and the active controllers in their way.
  unfoldable pub collect_fallbacks :
      List Name → ControllerManager D E → List Name × List Name → List Name × List Name
  collect_fallbacks [] s lists = lists
  collect_fallbacks (fallback ∷ fallbacks) s lists = collect_fallbacks fallbacks s (
    add_item lists.0 fallback,
    get_active_controllers_using_command_interfaces_of_controller p fallback s.controllers
        s.resource_manager lists.1,
  )

  unfoldable pub fallbacks_of :
      List Name → ControllerManager D E → List Name × List Name → List Name × List Name
  fallbacks_of [] s lists = lists
  fallbacks_of (name ∷ names) s lists = elim (find_controller name s.controllers) [
    | none ↦ fallbacks_of names s lists
    | some spec ↦ fallbacks_of names s (collect_fallbacks spec.fallback_controllers_names s lists)
  ]

  unfoldable pub replace_failed : List Name → CmAction D E (Unit {0})
  replace_failed failed s =
      let (fallbacks, users) = fallbacks_of failed s ([], []) in
      let stopped = add_items failed users in
      (do
        perform_hardware_command_mode_change fallbacks stopped
        deactivate_controllers p stopped
        when (not (is_empty fallbacks)) (activate_controllers p hw fallbacks Strictness.strict))
        s
