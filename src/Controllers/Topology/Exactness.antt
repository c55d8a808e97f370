-- ===== src/Controllers/Topology/Exactness.antt =====
-- The topology that is built is exactly what the controllers' interfaces say.
use ros2_control.Base.{
  ◌≡◌, refl, Bool, false, not, ◌||◌, ◌&&◌, Option, none, some, List, [], ◌∷◌, Name, name_eq,
  has_item, lookup, Outcome, returned, thrown, Outcome-cases, Bool-cases, inl, inr, arith,
}
use ros2_control.Hardware.Types.{is_unconfigured}
use ros2_control.Resource.Storage.{ResourceManager}
use ros2_control.Controllers.Spec.{ControllerPlugin, ControllerSpec, ControllerManager, CmAction}
use ros2_control.Controllers.Configuration.{
  get_command_interfaces_names, get_state_interfaces_names, is_interface_a_chained_interface,
}
use ros2_control.Controllers.Topology
use ros2_control.Controllers.Topology.{ChainSpecs, link_command, link_state}
use ros2_control.Controllers.Topology.Links.{
  follows, precedes, follows-join_following, precedes-join_following, follows-join_preceding,
  precedes-join_preceding,
}

module _ {E : Type 0} where
  abbrev names_owner : Name → Outcome (Option (ControllerSpec E)) → Bool
  names_owner name thrown = false
  names_owner name (returned none) = false
  names_owner name (returned (some target)) = name_eq target.name name

  -- Whether one of the interfaces belongs to the controller of the name.
  abbrev pub any_of : List (ControllerSpec E) → List Name → Name → Bool
  any_of specs [] name = false
  any_of specs (itf ∷ itfs) name =
      names_owner name (is_interface_a_chained_interface itf specs) || any_of specs itfs name

  -- Whether a controller of the list that is configured makes `b` follow `a`: `a` commands an
  -- interface of `b`, or `b` reads an interface of `a`.
  abbrev pub leads :
      {D : Type 0}
      → ControllerPlugin E
      → ResourceManager D
      → List (ControllerSpec E)
      → List (ControllerSpec E)
      → Name
      → Name
      → Bool
  leads p r specs [] a b = false
  leads p r specs (spec ∷ rest) a b =
      (not (is_unconfigured spec.c.lifecycle_state)
        && ((name_eq spec.name a && any_of specs (get_command_interfaces_names p spec.c r) b)
            || (name_eq spec.name b && any_of specs (get_state_interfaces_names p spec.c r) a)))
      || leads p r specs rest a b

module _ {D E : Type 0} (a b : Name) where
  -- Both lists of the chain specs say of `a` and `b` what they said, or `more`.
  abbrev Says : Bool → ControllerManager D E → ControllerManager D E → Type 0
  Says more s s' =
      (s'.resource_manager ≡ s.resource_manager)
      × (follows b a s'.controller_chain_spec ≡ follows b a s.controller_chain_spec || more)
      × (precedes a b s'.controller_chain_spec ≡ precedes a b s.controller_chain_spec || more)

  link_commands-Says :
      (name : Name) (specs : List (ControllerSpec E)) (itfs : List Name)
      (s s' : ControllerManager D E)
      → Topology.link_interfaces (link_command name) specs itfs s ≡ (s', returned tt)
      → Says (name_eq name a && any_of specs itfs b) s s'
  unfolding Topology.link_interfaces
  link_commands-Says name specs [] s s' e = ground arith
  link_commands-Says name specs (itf ∷ itfs) s s' e =
      elim (Outcome-cases (is_interface_a_chained_interface itf specs)) [
        | inl o ↦ ground (arith, o)
        | inr (none, o) ↦ ground (arith, o, link_commands-Says name specs itfs s s')
        | inr (some target, o) ↦ ground (
          arith,
          o,
          link_commands-Says name specs itfs (link_command name target s) s',
          follows-join_following name target.name a b s.controller_chain_spec,
          precedes-join_following name target.name a b s.controller_chain_spec,
        )
      ]

  link_states-Says :
      (name : Name) (specs : List (ControllerSpec E)) (itfs : List Name)
      (s s' : ControllerManager D E)
      → Topology.link_interfaces (link_state name) specs itfs s ≡ (s', returned tt)
      → Says (name_eq name b && any_of specs itfs a) s s'
  unfolding Topology.link_interfaces
  link_states-Says name specs [] s s' e = ground arith
  link_states-Says name specs (itf ∷ itfs) s s' e =
      elim (Outcome-cases (is_interface_a_chained_interface itf specs)) [
        | inl o ↦ ground (arith, o)
        | inr (none, o) ↦ ground (arith, o, link_states-Says name specs itfs s s')
        | inr (some target, o) ↦ ground (
          arith,
          o,
          link_states-Says name specs itfs (link_state name target s) s',
          follows-join_preceding name target.name a b s.controller_chain_spec,
          precedes-join_preceding name target.name a b s.controller_chain_spec,
        )
      ]

  module _ (p : ControllerPlugin E) (specs : List (ControllerSpec E)) where
    link_controller-Says :
        (spec : ControllerSpec E) (s s' : ControllerManager D E)
        → Topology.link_controller p specs spec s ≡ (s', returned tt)
        → Says
            ((name_eq spec.name a
                && any_of specs (get_command_interfaces_names p spec.c s.resource_manager) b)
              || (name_eq spec.name b
                  && any_of specs (get_state_interfaces_names p spec.c s.resource_manager) a))
            s
            s'
    link_controller-Says spec s s' e =
        let cmds = get_command_interfaces_names p spec.c s.resource_manager in
        let states = get_state_interfaces_names p spec.c s.resource_manager in
        let run : CmAction D E (Unit {0}) =
          Topology.link_interfaces (link_command spec.name) specs cmds in
        elim (Outcome-cases (run s).1) [
          | inl o ↦ ground (arith, o)
          | inr (u, o) ↦ ground (
            arith,
            o,
            link_commands-Says spec.name specs cmds s (run s).0,
            link_states-Says spec.name specs states (run s).0 s',
          )
        ]

    link_controllers-Says :
        (rest : List (ControllerSpec E)) (s s' : ControllerManager D E)
        → Topology.link_controllers p specs rest s ≡ (s', returned tt)
        → Says (leads p s.resource_manager specs rest a b) s s'
    unfolding Topology.link_controllers
    link_controllers-Says [] s s' e = ground arith
    link_controllers-Says (spec ∷ rest) s s' e =
        let run : CmAction D E (Unit {0}) = Topology.link_controller p specs spec in
        elim (Bool-cases (is_unconfigured spec.c.lifecycle_state)) [
          | inl skipped ↦ ground (arith, skipped, link_controllers-Says rest s s')
          | inr linked ↦ elim (Outcome-cases (run s).1) [
            | inl o ↦ ground (arith, linked, o)
            | inr (u, o) ↦ ground (
              arith,
              linked,
              o,
              link_controller-Says spec s (run s).0,
              link_controllers-Says rest (run s).0 s',
            )
          ]
        ]

pub lookup-clear_chains :
    (m : ChainSpecs) (n : Name)
    → Topology.spec_or (lookup n (Topology.clear_chains m)) ≡ Topology.no_chain
unfolding Topology.clear_chains lookup
lookup-clear_chains [] n = refl
lookup-clear_chains ((k, spec) ∷ m) n = ground (arith, lookup-clear_chains m n)

-- Where `build_controllers_topology_info` returns, `b` is among the controllers that follow `a`, and
-- `a` among those that precede `b`, exactly if some controller of the list is not unconfigured and
-- either is `a` and has a command interface of `b`, or is `b` and has a state interface of `a`.
pub build_controllers_topology_info-leads :
    {D E : Type 0} (p : ControllerPlugin E) (specs : List (ControllerSpec E))
    (s s' : ControllerManager D E) (a b : Name)
    → Topology.build_controllers_topology_info p specs s ≡ (s', returned tt)
    → (follows b a s'.controller_chain_spec ≡ leads p s.resource_manager specs specs a b)
      × (precedes a b s'.controller_chain_spec ≡ leads p s.resource_manager specs specs a b)
unfolding Topology.build_controllers_topology_info has_item
build_controllers_topology_info-leads {D} {E} p specs s s' a b e =
    let cleared : ControllerManager D E = record s {
      controller_chain_spec = Topology.clear_chains s.controller_chain_spec;
      controller_chained_reference_interfaces_cache =
          Topology.clear_cache s.controller_chained_reference_interfaces_cache;
      controller_chained_state_interfaces_cache =
          Topology.clear_cache s.controller_chained_state_interfaces_cache;
    } in
    ground (
      arith,
      link_controllers-Says a b p specs specs cleared s',
      lookup-clear_chains s.controller_chain_spec a,
      lookup-clear_chains s.controller_chain_spec b,
    )
