-- ===== src/Controllers/Loading.antt =====
-- Loading controllers: `load_controller` and `add_controller_impl`.
-- The two lists of controllers are one here, and what is done to it is what a finished draft replaces it by
-- (Controllers/Lists/Refinement). `true` is `return_type::OK` or a pointer that is not null.
-- Messages, statistics, the executor and the parameters of a controller's node are not modelled;
-- every exception is a `std::exception`, as those of pluginlib and rclcpp are.
use ros2_control.Base.{
  Bool, true, false, ◌||◌, Option, none, some, List, [], ◌∷◌, ◌++◌, if◌then◌else◌, Name, has_item,
  assign, Outcome, returned, thrown, done, raise, branch,
}
use ros2_control.Hardware.Types.{LifecycleState}
use ros2_control.Resource.Storage.{Interface}
use ros2_control.Controllers.Spec.{
  ControllerSpec, ControllerManager, CmAction, Transition, find_controller,
}
use ros2_control.Controllers.Topology.{no_chain}

-- pluginlib's two loaders, the parameters of the node, and the calls of a controller that loading
-- makes: `init`, the transitions of its node, and the export of interfaces. What `init` returns is
-- `OK` or not.
pub record ControllerLoader (E : Type 0) : Type 0 where
  pub is_class_available : Name → Bool
  pub is_chainable_class_available : Name → Bool
  pub create : Name → Outcome E
  pub create_chainable : Name → Outcome E
  pub type_parameter : Name → Option Name
  pub fallback_controllers : Name → List Name
  pub init : Name → E → E × Outcome Bool
  pub configure : LifecycleState → E → Transition E
  pub cleanup : LifecycleState → E → Transition E
  pub shutdown : LifecycleState → E → Transition E
  pub export_state_interfaces : E → E × Outcome (List Interface)
  pub export_reference_interfaces : E → E × Outcome (List Interface)

module _ {E : Type 0} where
  abbrev pub new_spec : Name → List Name → Bool → E → ControllerSpec E
  new_spec name fallback chainable device = record {
    name = name;
    claimed_interfaces = [];
    fallback_controllers_names = fallback;
    controllers_chain_group = [];
    last_update_cycle_time = 0;
    execution_time_statistics = [];
    periodicity_statistics = [];
    c = record {
      lifecycle_state = LifecycleState.unconfigured;
      is_chainable = chainable;
      in_chained_mode = false;
      command_interfaces = [];
      state_interfaces = [];
      device = device;
    };
  }

  abbrev pub with_device : ControllerSpec E → E → ControllerSpec E
  with_device spec device = record spec { c = record spec.c { device = device } }

  abbrev pub instance_of : Bool → Outcome E → Outcome (E × Bool)
  instance_of chainable thrown = thrown
  instance_of chainable (returned e) = returned (e, chainable)

  -- An instance of `chainable_loader_` takes the place of one of `loader_`.
  abbrev pub then_chainable : Outcome E → Outcome E → Outcome (E × Bool)
  then_chainable thrown o = thrown
  then_chainable (returned e) o = instance_of true o

  unfoldable pub create_instance : ControllerLoader E → Name → Outcome (E × Bool)
  create_instance lo type =
      if lo.is_chainable_class_available type
      then if lo.is_class_available type
        then then_chainable (lo.create type) (lo.create_chainable type)
        else instance_of true (lo.create_chainable type)
      else instance_of false (lo.create type)

module _ {D E : Type 0} where
  -- `catch (const std::exception &) { handle_exceptions ? void() : throw; return ...; }`
  abbrev pub caught : CmAction D E Bool
  caught s = branch s.handle_exceptions (done false) raise s

  abbrev pub branch_handled : CmAction D E Bool → CmAction D E Bool
  branch_handled m s = branch s.handle_exceptions m raise s

  -- The controller is at the end of the list, with an entry in each map.
  unfoldable pub append_controller :
      ControllerSpec E → ControllerManager D E → ControllerManager D E
  append_controller spec s = record s {
    controllers = s.controllers ++ spec ∷ [];
    controller_chain_spec = assign spec.name no_chain s.controller_chain_spec;
    controller_chained_state_interfaces_cache =
        assign spec.name [] s.controller_chained_state_interfaces_cache;
    controller_chained_reference_interfaces_cache =
        assign spec.name [] s.controller_chained_reference_interfaces_cache;
  }

  module _ (lo : ControllerLoader E) where
    unfoldable pub add_controller_impl : ControllerSpec E → CmAction D E Bool
    add_controller_impl spec s = elim (find_controller spec.name s.controllers) [
      | some found ↦ (s, returned false)
      | none ↦
          let (e, o) = lo.init spec.name spec.c.device in
          elim o [
            | thrown ↦ caught s
            | returned false ↦ (s, returned false)
            | returned true ↦ (append_controller (with_device spec e) s, returned true)
          ]
    ]

    unfoldable pub load_controller_of_type : Name → Name → CmAction D E Bool
    load_controller_of_type name type s =
        if lo.is_class_available type || lo.is_chainable_class_available type
        then elim (create_instance lo type) [
          | thrown ↦ caught s
          | returned (e, chainable) ↦
              let fallback = lo.fallback_controllers name in
              if has_item fallback name
              then (s, returned false)
              else add_controller_impl (new_spec name fallback chainable e) s
        ]
        else (s, returned false)

    unfoldable pub load_controller : Name → CmAction D E Bool
    load_controller name s = elim (lo.type_parameter name) [
      | none ↦ (s, returned false)
      | some type ↦ load_controller_of_type name type s
    ]
