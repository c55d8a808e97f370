-- ===== src/Tests/Loading.antt =====
-- Loading, configuring and unloading the controllers of the chain.
use ros2_control.Base.{
  ℕ, zero, suc, ◌≡◌, refl, true, false, some, List, [], ◌∷◌, name_eq, has_item, returned, thrown,
  if◌then◌else◌, assign, emplace, erase, lookup, add_item, remove_item, remove_items, remove_items,
  name_discrete,
}
use ros2_control.Hardware.Types.{LifecycleState, is_unconfigured}
use ros2_control.Resource.Storage.{Interface}
use ros2_control.Controllers.Spec.{ControllerSpec, ControllerManager, Transition}
use ros2_control.Controllers.Loading
use ros2_control.Controllers.Loading.{ControllerLoader}
use ros2_control.Controllers.Unloading
use ros2_control.Controllers.Configuring
use ros2_control.Controllers.Changes
use ros2_control.Controllers.Configuration
use ros2_control.Controllers.Loans
use ros2_control.Controllers.Sorting
use ros2_control.Controllers.Topology
use ros2_control.Resource.Interfaces
use ros2_control.Controllers.Spec
use ros2_control.Controllers.Sorting.Keeping.{names_of}
use ros2_control.Controllers.Topology.Links.{follows, precedes}
use ros2_control.Controllers.Inventory.{IsLoaded}
use ros2_control.Controllers.Inventory.Inactive.{IsInactive}
use ros2_control.Controllers.Inventory.Configured
use ros2_control.Controllers.Inventory.Histories
use ros2_control.Controllers.Inventory.Histories.{Request, serve_all}
use ros2_control.Controllers.Inventory.Unloading as Removal
use ros2_control.Tests.Chain.{code, manager, no_request}

abbrev to : LifecycleState → ℕ → Transition ℕ
to state d = record { device = d; state = state; raised = false; released = false }

abbrev exported : ℕ → List Interface
exported zero = record { name = "pid/position"; data_type = "double" } ∷ []
exported (suc n) = record { name = "traj/position"; data_type = "double" } ∷ []

abbrev pub loader : ControllerLoader ℕ
loader = record {
  is_class_available = λ type. false;
  is_chainable_class_available = λ type. true;
  create = λ type. thrown;
  create_chainable = λ type. returned (if name_eq type "Trajectory" then 1 else 0);
  type_parameter = λ name. some (if name_eq name "traj" then "Trajectory" else "Pid");
  fallback_controllers = λ name. [];
  init = λ name d. (d, returned true);
  configure = λ state. to LifecycleState.inactive;
  cleanup = λ state. to LifecycleState.unconfigured;
  shutdown = λ state. to LifecycleState.finalized;
  export_state_interfaces = λ d. (d, returned []);
  export_reference_interfaces = λ d. (d, returned (exported d));
}

abbrev nothing_loaded : ControllerManager ℕ ℕ
nothing_loaded = record (manager LifecycleState.active no_request) {
  controllers = [];
  controller_chain_spec = [];
  controller_chained_reference_interfaces_cache = [];
}

abbrev both_configured : List Request
both_configured =
    Request.loads "pid"
    ∷ Request.loads "traj"
    ∷ Request.configures "pid"
    ∷ Request.configures "traj"
    ∷ []

-- The controllers are listed in the order of the chain, though "pid" was loaded first.
loaded_in_order :
    let (s, o) = serve_all code loader both_configured nothing_loaded in
    (o ≡ returned tt)
    × (names_of s.controllers ≡ "traj" ∷ "pid" ∷ [])
    × (follows "pid" "traj" s.controller_chain_spec ≡ true)
unfolding Changes.run_transition Changes.set_chained_mode Configuration.get_command_interfaces_names
    Configuration.get_state_interfaces_names Configuration.interface_prefix
    Configuration.is_interface_a_chained_interface Configuration.select_interfaces
    Configuring.check_names Configuring.complete_configuration Configuring.configure_controller
    Configuring.configure_spec Configuring.export_interfaces Configuring.import_exported
    Configuring.is_unique Configuring.sort_list Configuring.take_exported
    Configuring.undo_configuration Interfaces.add_command_interfaces Interfaces.add_state_interface
    Interfaces.add_state_interfaces Interfaces.caught_add_state_interface
    Interfaces.import_controller_exported_state_interfaces
    Interfaces.import_controller_reference_interfaces Interfaces.insert_command_interface
    Interfaces.make_controller_exported_state_interfaces_unavailable
    Interfaces.make_controller_reference_interfaces_unavailable Interfaces.release_command_interface
    Interfaces.remove_command_interfaces Interfaces.remove_controller_exported_state_interfaces
    Interfaces.remove_controller_reference_interfaces Interfaces.remove_state_interfaces
    Loading.add_controller_impl Loading.append_controller Loading.create_instance
    Loading.load_controller Loading.load_controller_of_type Loans.release_loans Sorting.earliest
    Sorting.find Sorting.insert Sorting.latest Sorting.order_names Sorting.place Sorting.put_groups
    Sorting.reorder Sorting.sort_controllers Sorting.update_list_with_controller_chain Sorting.visit
    Spec.find_controller Spec.put_controller Topology.add_cached
    Topology.build_controller_full_chain_map_cache Topology.build_controllers_topology_info
    Topology.clear_cache Topology.clear_chains Topology.get_full_chain_spec Topology.join_following
    Topology.join_preceding Topology.link_controllers Topology.link_interfaces
    Topology.put_following Topology.put_preceding Topology.visit_chain
    Unloading.cleanup_controller_exported_interfaces Unloading.cleanup_spec add_item assign emplace
    erase has_item lookup name_discrete remove_item remove_items
loaded_in_order = (refl, refl, refl)

nothing_loaded-IsLoaded : IsLoaded nothing_loaded
unfolding has_item lookup
nothing_loaded-IsLoaded = record {
  unique = tt;
  unique_keys = tt;
  listed = λ n. refl;
  chains = record {
    keys_are = refl;
    mirrored = λ a b. refl;
    known_following = λ a b e. e;
    known_preceding = λ a b e. e;
    unique_following = λ a. tt;
    unique_preceding = λ a. tt;
  };
}

serve_all-IsLoaded_example : IsLoaded (serve_all code loader both_configured nothing_loaded).0
serve_all-IsLoaded_example =
    Histories.serve_all-IsLoaded code loader both_configured nothing_loaded nothing_loaded-IsLoaded
      loaded_in_order.0

abbrev configured : ControllerManager ℕ ℕ
configured = (serve_all code loader both_configured nothing_loaded).0

-- "pid" is cleaned up, shut down and taken out.
unloaded : (Unloading.unload_controller loader "pid" configured).1 ≡ returned true
unfolding Changes.run_transition Changes.set_chained_mode Configuration.get_command_interfaces_names
    Configuration.get_state_interfaces_names Configuration.interface_prefix
    Configuration.is_interface_a_chained_interface Configuration.select_interfaces
    Configuring.check_names Configuring.complete_configuration Configuring.configure_controller
    Configuring.configure_spec Configuring.export_interfaces Configuring.import_exported
    Configuring.is_unique Configuring.sort_list Configuring.take_exported
    Configuring.undo_configuration Interfaces.add_command_interfaces Interfaces.add_state_interface
    Interfaces.add_state_interfaces Interfaces.caught_add_state_interface
    Interfaces.import_controller_exported_state_interfaces
    Interfaces.import_controller_reference_interfaces Interfaces.insert_command_interface
    Interfaces.make_controller_exported_state_interfaces_unavailable
    Interfaces.make_controller_reference_interfaces_unavailable Interfaces.release_command_interface
    Interfaces.remove_command_interfaces Interfaces.remove_controller_exported_state_interfaces
    Interfaces.remove_controller_reference_interfaces Interfaces.remove_state_interfaces
    Loading.add_controller_impl Loading.append_controller Loading.create_instance
    Loading.load_controller Loading.load_controller_of_type Loans.release_loans Sorting.earliest
    Sorting.find Sorting.insert Sorting.latest Sorting.order_names Sorting.place Sorting.put_groups
    Sorting.reorder Sorting.sort_controllers Sorting.update_list_with_controller_chain Sorting.visit
    Spec.find_controller Spec.put_controller Topology.add_cached
    Topology.build_controller_full_chain_map_cache Topology.build_controllers_topology_info
    Topology.clear_cache Topology.clear_chains Topology.controller_chain_spec_cleanup
    Topology.get_full_chain_spec Topology.join_following Topology.join_preceding
    Topology.leave_following Topology.leave_preceding Topology.link_controllers
    Topology.link_interfaces Topology.put_following Topology.put_preceding Topology.visit_chain
    Unloading.cleanup_controller Unloading.cleanup_controller_exported_interfaces
    Unloading.cleanup_spec Unloading.erase_controller Unloading.finish_unload
    Unloading.shutdown_controller Unloading.unload_controller add_item assign emplace erase has_item
    lookup name_discrete remove_item remove_items
unloaded = refl

unload_controller-removes_example :
    let s' = (Unloading.unload_controller loader "pid" configured).0 in
    (has_item (names_of s'.controllers) "traj" ≡ has_item (names_of configured.controllers) "traj")
    × (follows "pid" "traj" s'.controller_chain_spec ≡ false)
    × (precedes "traj" "pid" s'.controller_chain_spec ≡ false)
unfolding name_discrete
unload_controller-removes_example =
    Removal.unload_controller-removes loader "pid" configured true "traj" "pid"
      (Histories.serve_all-IsLoaded code loader both_configured nothing_loaded
        nothing_loaded-IsLoaded loaded_in_order.0)
      unloaded

load_controller-loaded_example :
    Histories.Refused
      (Loading.load_controller loader "pid" (manager LifecycleState.inactive no_request))
      (manager LifecycleState.inactive no_request)
unfolding has_item name_discrete
load_controller-loaded_example =
    Histories.load_controller-loaded loader "pid" (manager LifecycleState.inactive no_request) refl

abbrev loads : List Request
loads = Request.loads "pid" ∷ Request.loads "traj" ∷ []

abbrev loaded : ControllerManager ℕ ℕ
loaded = (serve_all code loader loads nothing_loaded).0

both_loaded : (serve_all code loader loads nothing_loaded).1 ≡ returned tt
unfolding Loading.add_controller_impl Loading.append_controller Loading.create_instance
    Loading.load_controller Loading.load_controller_of_type Spec.find_controller has_item
    name_discrete
both_loaded = refl

pid_configured : (Configuring.configure_controller code loader "pid" loaded).1 ≡ returned true
unfolding Changes.run_transition Changes.set_chained_mode Configuration.get_command_interfaces_names
    Configuration.get_state_interfaces_names Configuration.interface_prefix
    Configuration.is_interface_a_chained_interface Configuration.select_interfaces
    Configuring.check_names Configuring.complete_configuration Configuring.configure_controller
    Configuring.configure_spec Configuring.export_interfaces Configuring.import_exported
    Configuring.is_unique Configuring.sort_list Configuring.take_exported
    Configuring.undo_configuration Interfaces.add_command_interfaces Interfaces.add_state_interface
    Interfaces.add_state_interfaces Interfaces.caught_add_state_interface
    Interfaces.import_controller_exported_state_interfaces
    Interfaces.import_controller_reference_interfaces Interfaces.insert_command_interface
    Interfaces.make_controller_exported_state_interfaces_unavailable
    Interfaces.make_controller_reference_interfaces_unavailable Interfaces.release_command_interface
    Interfaces.remove_command_interfaces Interfaces.remove_controller_exported_state_interfaces
    Interfaces.remove_controller_reference_interfaces Interfaces.remove_state_interfaces
    Loading.add_controller_impl Loading.append_controller Loading.create_instance
    Loading.load_controller Loading.load_controller_of_type Loans.release_loans Sorting.earliest
    Sorting.find Sorting.insert Sorting.latest Sorting.order_names Sorting.place Sorting.put_groups
    Sorting.reorder Sorting.sort_controllers Sorting.update_list_with_controller_chain Sorting.visit
    Spec.find_controller Spec.put_controller Topology.add_cached
    Topology.build_controller_full_chain_map_cache Topology.build_controllers_topology_info
    Topology.clear_cache Topology.clear_chains Topology.get_full_chain_spec Topology.join_following
    Topology.join_preceding Topology.link_controllers Topology.link_interfaces
    Topology.put_following Topology.put_preceding Topology.visit_chain
    Unloading.cleanup_controller_exported_interfaces Unloading.cleanup_spec add_item assign emplace
    erase has_item lookup name_discrete remove_item remove_items
pid_configured = refl

configure_controller-IsInactive_example :
    ((spec : ControllerSpec ℕ) × (Spec.find_controller "pid" loaded.controllers ≡ some spec)
      × (is_unconfigured spec.c.lifecycle_state ≡ true))
    × IsInactive "pid" (Configuring.configure_controller code loader "pid" loaded).0
configure_controller-IsInactive_example =
    Configured.configure_controller-IsInactive code loader "pid" loaded
      (Histories.serve_all-IsLoaded code loader loads nothing_loaded nothing_loaded-IsLoaded
        both_loaded)
      pid_configured
