-- ===== src/Resource/Storage.antt =====
-- The state of `ResourceManager` and `ResourceStorage` (resource_manager.cpp) in one record. Locks
-- of the manager are held throughout a method, which makes it one step; those that are only tried
-- are arguments (`Resource.Cycle`).
use ros2_control.Base.{
  ℕ, Bool, Option, none, some, List, [], set, if◌then◌else◌, ite, Name, name_discrete, lookup,
  assign, emplace, returned, thrown, Action,
}
use ros2_control.Hardware.Types.{ReturnType, is_ok}
use ros2_control.Hardware.Component.{HardwareComponent, Statistics}

-- hardware_component_info.hpp. A statistics pointer is `none` where it is null.
pub record HardwareComponentInfo : Type 0 where
  pub rw_rate : ℕ
  pub read_statistics : Option Statistics
  pub write_statistics : Option Statistics
  pub state_interfaces : List Name
  pub command_interfaces : List Name

-- What `operator[]` puts under a missing name.
abbrev pub no_info : HardwareComponentInfo
no_info = record {
  rw_rate = 0;
  read_statistics = none;
  write_statistics = none;
  state_interfaces = [];
  command_interfaces = [];
}

abbrev info_or : Option HardwareComponentInfo → HardwareComponentInfo
info_or none = no_info
info_or (some info) = info

-- A handle, under the name that its `get_name` returns.
pub record Interface : Type 0 where
  pub name : Name
  pub data_type : Name

pub record ReadWriteStatus : Type 0 where
  pub result : ReturnType
  pub failed_hardware_names : List Name

pub record ResourceManager (D : Type 0) : Type 0 where
  pub handle_exceptions : Bool
  pub allow_controller_activation_with_inactive_hardware : Bool
  pub return_failed_hardware_names_on_return_deactivate_write_cycle : Bool
  pub cm_update_rate : ℕ
  pub actuators : List (HardwareComponent D)
  pub sensors : List (HardwareComponent D)
  pub systems : List (HardwareComponent D)
  pub hardware_info_map : List (Name × HardwareComponentInfo)
  pub hw_group_state : List (Name × ReturnType)
  pub hardware_used_by_controllers : List (Name × List Name)
  pub controllers_exported_state_interfaces_map : List (Name × List Name)
  pub controllers_reference_interfaces_map : List (Name × List Name)
  pub state_interface_map : List (Name × Interface)
  pub command_interface_map : List (Name × Interface)
  pub available_state_interfaces : List Name
  pub available_command_interfaces : List Name
  pub claimed_command_interface_map : List (Name × Bool)
  -- calls of `on_component_state_switch_callback_`, and whether one is set
  pub has_state_switch_callback : Bool
  pub state_switches : ℕ
  -- how often `reset_internals` was called on the joint limiters
  pub limiter_resets : ℕ
  pub read_write_status : ReadWriteStatus

abbrev pub ManagerAction : Type 0 → Type 0 → Type 0
ManagerAction D = Action (ResourceManager D)

-- The three containers.
pub data Kind : Type 0 where
  actuator sensor system : Kind

module _ {D : Type 0} where
  abbrev pub container : Kind → ResourceManager D → List (HardwareComponent D)
  container Kind.actuator r = r.actuators
  container Kind.sensor r = r.sensors
  container Kind.system r = r.systems

  abbrev pub put : Kind → ℕ → HardwareComponent D → ResourceManager D → ResourceManager D
  put Kind.actuator i c r = record r { actuators = set r.actuators i c }
  put Kind.sensor i c r = record r { sensors = set r.sensors i c }
  put Kind.system i c r = record r { systems = set r.systems i c }

  -- `hardware_info_map_[name]`: the entry, and the map in which there is one
  unfoldable pub hardware_info : Name → ResourceManager D → HardwareComponentInfo
  hardware_info name r = info_or (lookup name r.hardware_info_map)

  unfoldable pub touch_hardware_info : Name → ResourceManager D → ResourceManager D
  touch_hardware_info name r = record r {
    hardware_info_map = emplace name no_info r.hardware_info_map;
  }

  unfoldable pub set_hardware_info :
      Name → HardwareComponentInfo → ResourceManager D → ResourceManager D
  set_hardware_info name info r = record r {
    hardware_info_map = assign name info r.hardware_info_map;
  }

  -- `hw_group_state_.at` throws for a group that was never loaded.
  unfoldable pub update_hardware_component_group_state :
      Name → ReturnType → ManagerAction D ReturnType
  update_hardware_component_group_state group value r =
      ite (name_discrete group "") (r, returned value)
        (elim (lookup group r.hw_group_state) [
          | none ↦ (r, thrown)
          | some old ↦ if is_ok value then (r, returned old) else (
            record r { hw_group_state = assign group value r.hw_group_state },
            returned value,
          )
        ])

  unfoldable pub reset_group_state : Name → ResourceManager D → ResourceManager D
  reset_group_state group r =
      ite (name_discrete group "") r
        (record r { hw_group_state = assign group ReturnType.ok r.hw_group_state })
