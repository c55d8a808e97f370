-- ===== src/Lib.antt =====
-- Verification of ros2_control: the lifecycle of a hardware component, the
-- resource manager, which owns the components and lends their interfaces to controllers, the limiter
-- of joint commands, and of the controller manager the lists of controllers that the realtime thread
-- shares with the others, and the loading, configuring and switching of controllers.
--
-- The parts and how they interact. A driver is a plugin: the program calls its callbacks and its
-- `read` and `write`. `HardwareComponent` wraps a plugin and keeps its lifecycle state: a callback's
-- return value decides the next state, and errors go to `on_error`. `ResourceManager` holds the
-- components in three containers, moves them between states on request, keeps the lists of available
-- state and command interfaces, lends command interfaces, prepares and performs mode switches of the
-- hardware, and runs the read and write cycles, in which failing components and groups are dealt
-- with. The controller manager is the client of all this. It loads controllers, configures them, whereby it finds the chains between them and orders them,
-- and unloads them; it shares a pair of lists of controllers with the realtime thread. A request to switch controllers is checked and completed against the
-- chains of controllers (a controller may command the reference interfaces of another one), against
-- the states of the controllers and the interfaces that are available and claimed; then the
-- realtime thread, or the service in its place, asks the hardware to change its mode, deactivates
-- controllers, changes chained modes, and activates controllers, which claim their interfaces; the
-- result is read off the states of the controllers. The realtime loop reads the hardware, updates the
-- active controllers that are due, and writes; controllers that fail, or whose hardware fails, are
-- deactivated, and fallback controllers take the place of the former. A joint limiter changes the commands that are
-- written to an interface so that they keep to the limits of the joint.
--
-- Files, with the code that they model:
-- - Base: Booleans, names, association lists for `std::map` and `std::unordered_map`, and actions,
--   which take a state to a state and a result or an exception (Base/Actions). Base/Names has the
--   list functions of hardware_interface/include/hardware_interface/helpers.hpp.
-- - Hardware/Types: lifecycle states and return values (hardware_interface/include/
--   hardware_interface/types). Hardware/Plugin: the driver, a parameter, with a device state of its
--   own; every callback may return any value or throw.
-- - Hardware/Component: hardware_interface/src/hardware_component.cpp and the parts of
--   hardware_component_interface.cpp that it calls; a method of the class is the function of the
--   same name. Hardware/Component/Lifecycle and Cycles have the proofs.
-- - Resource/Storage, Interfaces, Transitions, Components, Cycle, Switch: the state and the
--   operations of hardware_interface/src/resource_manager.cpp, under the source's names. A method
--   of the storage that has a reference to a component works on a `Focus`: the manager with that
--   component. Template instances for actuators, sensors and systems are one definition.
-- - Resource/Frame, Claims, Availability, Groups, Requests: proofs about these.
-- - Controllers/Lists: `RTControllerListWrapper` of controller_manager/src/controller_manager.cpp, as
--   interleaved steps of two threads. Controllers/Lists/Snapshot says what it promises, and
--   Controllers/Lists/Exclusion and Refinement have the proofs.
-- - Resource/UsedBy: the record in the resource manager of the controllers that use a component.
-- - Controllers/Spec: the state of the controller manager (controller_manager/include/
--   controller_manager/controller_spec.hpp and controller_manager.hpp, controller_interface/include/
--   controller_interface/controller_interface_base.hpp). A controller's own code, its lifecycle node
--   and `std::regex_match` are parameters (`ControllerPlugin`); patterns are taken to be valid.
-- - Controllers/Configuration, Loans, Changes, Switching: the helpers at the head of
--   controller_manager.cpp, and `deactivate_controllers`, `switch_chained_mode`,
--   `activate_controllers` and `manage_switch`. Controllers/Switching/Accounts, Ownership, Steps,
--   Deactivation, Activation and Conservation have the proofs.
-- - Controllers/Chains, Fallback, Conflicts, Claimable, Requests, Callback: `switch_controller_cb` and
--   the checks that it calls, each under its name in the source; what waits for another thread is a
--   parameter (`Environment`). The child modules of Chains, Claimable, Requests and Callback have the
--   proofs.
-- - Controllers/Topology: the chains of controllers, `build_controllers_topology_info` and the helpers
--   for it; Controllers/Sorting: `update_list_with_controller_chain` and the order of the list.
--   Controllers/Loading, Configuring, Unloading: `load_controller`, `configure_controller`,
--   `cleanup_controller`, `unload_controller` and `shutdown_controllers`. pluginlib, the parameters and
--   the calls of a controller are parameters (`ControllerLoader`). The child modules of Topology and
--   Sorting, and Controllers/Inventory, have the proofs.
-- - Controllers/Cycle, Failures: `read`, `update` and `write` of the controller manager and what they
--   do about failed hardware and failed controllers; Controllers/Cycle/Ownership has the proofs.
-- - Limits/Helpers: joint_limits/src/joint_limits_helpers.cpp; Limits/Range: `on_enforce` of
--   joint_limits/src/joint_range_limiter.cpp. Limits/Double is what they do with doubles, a parameter.
--   Limits/Enforcement and Limits/Bounds have the proofs.
-- - Tests: concrete runs, and the theorems applied at concrete robots.
--
-- Time is in nanoseconds: a clock reading is a natural number, a period an integer. The program
-- computes with doubles when it decides whether a component or controller with a rate of its own is
-- due; the arithmetic of doubles is a parameter there (`Doubles`). Loops run over lists or over the
-- number of components at their start; only the recursions along the chains of controllers run on
-- fuel. Where that of `check_following_controllers_for_activate` runs out, its result is
-- `unfinished`; fuel above the number of a controller's followers in its longest chain is enough
-- (Controllers/Chains/Termination), and a chain with a cycle is endless in the source. For the order of
-- the list, and for the groups of chained controllers (Controllers/Sorting/Groups), one more than there
-- are controllers is enough (Controllers/Sorting/Termination), which
-- `configure_controller` takes here. A lock that a method holds throughout
-- makes it one step; the locks that are only tried are arguments of a cycle (`Surroundings`).
--
-- What is not modelled: the work of an asynchronous component's thread, whose last results are
-- fields of the component that only `prepare_for_activation` sets here; logging, publishers and
-- introspection values; the robot description, its parser and the loading of plugins; handles'
-- values; the binding of joint limiters to interfaces, whose `reset_internals` is only counted, and
-- the limiters for trajectories and with soft limits; of the controller manager the node
-- options of a controller, the executor, the messages and the times that are
-- measured; statistics are lists of measurements; the controllers; the transmissions; and the Python tools. A removal of an interface that is not in
-- store is a null dereference in the source, and no change here.
pub mod Base
pub mod Hardware
pub mod Resource
pub mod Controllers
pub mod Limits
pub mod Tests
