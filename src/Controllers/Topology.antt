-- ===== src/Controllers/Topology.antt =====
-- Which controllers follow and precede which: `controller_chain_spec_`, its cleanup, the groups of
-- chained controllers (the helpers at the head of controller_manager.cpp) and
-- `build_controllers_topology_info`.
pub mod Links
pub mod Exactness
pub mod Cleanup
pub mod Invariant
pub mod Joining
pub mod Building
use ros2_control.Base.{
  ℕ, zero, suc, Bool, Option, none, some, List, [], ◌∷◌, if◌then◌else◌, Name, has_item, add_item,
  remove_item, lookup, assign, erase, returned, thrown, ◌>>=◌, ◌>>◌, done, raise, modify,
}
use ros2_control.Hardware.Types.{is_unconfigured}
use ros2_control.Controllers.Spec.{
  ControllerPlugin, ControllerSpec, ControllerChainSpec, ControllerManager, CmAction,
}
use ros2_control.Controllers.Configuration.{
  get_command_interfaces_names, get_state_interfaces_names, is_interface_a_chained_interface,
}

abbrev pub ChainSpecs : Type 0
ChainSpecs = List (Name × ControllerChainSpec)

abbrev pub no_chain : ControllerChainSpec
no_chain = record { following_controllers = []; preceding_controllers = [] }

abbrev pub spec_or : Option ControllerChainSpec → ControllerChainSpec
spec_or none = no_chain
spec_or (some spec) = spec

-- `controller_chain_spec_[name]`
abbrev pub chain_of : Name → ChainSpecs → ControllerChainSpec
chain_of name m = spec_or (lookup name m)

unfoldable pub put_following : Name → List Name → ChainSpecs → ChainSpecs
put_following name l m = assign name (record (chain_of name m) { following_controllers = l }) m

unfoldable pub put_preceding : Name → List Name → ChainSpecs → ChainSpecs
put_preceding name l m = assign name (record (chain_of name m) { preceding_controllers = l }) m

unfoldable pub leave_following : Name → List Name → ChainSpecs → ChainSpecs
leave_following controller [] m = m
leave_following controller (f ∷ fs) m =
    leave_following controller fs
      (put_preceding f (remove_item (chain_of f m).preceding_controllers controller) m)

unfoldable pub leave_preceding : Name → List Name → ChainSpecs → ChainSpecs
leave_preceding controller [] m = m
leave_preceding controller (p ∷ ps) m =
    leave_preceding controller ps
      (put_following p (remove_item (chain_of p m).following_controllers controller) m)

unfoldable pub controller_chain_spec_cleanup : ChainSpecs → Name → ChainSpecs
controller_chain_spec_cleanup m controller =
    let spec = chain_of controller m in
    erase controller (
      leave_preceding controller spec.preceding_controllers
        (leave_following controller spec.following_controllers m))

-- The controllers of a list that are not yet in the chain.
unfoldable pub visit_chain : (Name → List Name → List Name) → List Name → List Name → List Name
visit_chain go [] full_chain_list = full_chain_list
visit_chain go (name ∷ names) full_chain_list =
    visit_chain go names
      (if has_item full_chain_list name then full_chain_list else go name full_chain_list)

-- The recursion of the source has no bound of its own; here it takes fuel.
unfoldable pub get_full_chain_spec : ℕ → ChainSpecs → Name → List Name → List Name
get_full_chain_spec zero m name full_chain_list = full_chain_list
get_full_chain_spec (suc fuel) m name full_chain_list = elim (lookup name m) [
  | none ↦ full_chain_list
  | some spec ↦ visit_chain (get_full_chain_spec fuel m) spec.preceding_controllers (
      visit_chain (get_full_chain_spec fuel m) spec.following_controllers
        (add_item full_chain_list name))
]

unfoldable pub build_controller_full_chain_map_cache :
    ℕ → ChainSpecs → ChainSpecs → List (Name × List Name)
build_controller_full_chain_map_cache fuel m [] = []
build_controller_full_chain_map_cache fuel m ((name, spec) ∷ rest) =
    (name, get_full_chain_spec fuel m name (add_item [] name))
    ∷ build_controller_full_chain_map_cache fuel m rest

-- `clear()` of both lists of every entry
unfoldable pub clear_chains : ChainSpecs → ChainSpecs
clear_chains [] = []
clear_chains ((name, spec) ∷ m) = (name, no_chain) ∷ clear_chains m

unfoldable pub clear_cache : List (Name × List Name) → List (Name × List Name)
clear_cache [] = []
clear_cache ((name, names) ∷ m) = (name, []) ∷ clear_cache m

abbrev names_or : Option (List Name) → List Name
names_or none = []
names_or (some names) = names

unfoldable pub add_cached : Name → Name → List (Name × List Name) → List (Name × List Name)
add_cached key name m = assign key (add_item (names_or (lookup key m)) name) m

-- `a` commands an interface of `b`, and `b` follows.
unfoldable pub join_following : Name → Name → ChainSpecs → ChainSpecs
join_following a b m =
    let m' = put_following a (add_item (chain_of a m).following_controllers b) m in
    put_preceding b (add_item (chain_of b m').preceding_controllers a) m'

-- `a` reads an interface of `b`, and `b` precedes.
unfoldable pub join_preceding : Name → Name → ChainSpecs → ChainSpecs
join_preceding a b m =
    let m' = put_preceding a (add_item (chain_of a m).preceding_controllers b) m in
    put_following b (add_item (chain_of b m').following_controllers a) m'

module _ {D E : Type 0} where
  abbrev pub link_command : Name → ControllerSpec E → ControllerManager D E → ControllerManager D E
  link_command name target s = record s {
    controller_chain_spec = join_following name target.name s.controller_chain_spec;
    controller_chained_reference_interfaces_cache =
        add_cached target.name name s.controller_chained_reference_interfaces_cache;
  }

  abbrev pub link_state : Name → ControllerSpec E → ControllerManager D E → ControllerManager D E
  link_state name target s = record s {
    controller_chain_spec = join_preceding name target.name s.controller_chain_spec;
    controller_chained_state_interfaces_cache =
        add_cached target.name name s.controller_chained_state_interfaces_cache;
  }

  -- The loop over the interfaces of a controller.
  unfoldable pub link_interfaces :
      (ControllerSpec E → ControllerManager D E → ControllerManager D E)
      → List (ControllerSpec E)
      → List Name
      → CmAction D E (Unit {0})
  link_interfaces link specs [] s = (s, returned tt)
  link_interfaces link specs (itf ∷ itfs) s = elim (is_interface_a_chained_interface itf specs) [
    | thrown ↦ (s, thrown)
    | returned none ↦ link_interfaces link specs itfs s
    | returned (some target) ↦ link_interfaces link specs itfs (link target s)
  ]

  module _ (p : ControllerPlugin E) where
    abbrev pub link_controller :
        List (ControllerSpec E) → ControllerSpec E → CmAction D E (Unit {0})
    link_controller specs spec s =
        let cmd_itfs = get_command_interfaces_names p spec.c s.resource_manager in
        let state_itfs = get_state_interfaces_names p spec.c s.resource_manager in
        (link_interfaces (link_command spec.name) specs cmd_itfs
            >> link_interfaces (link_state spec.name) specs state_itfs)
          s

    unfoldable pub link_controllers :
        List (ControllerSpec E) → List (ControllerSpec E) → CmAction D E (Unit {0})
    link_controllers specs [] s = (s, returned tt)
    link_controllers specs (spec ∷ rest) s =
        ((if is_unconfigured spec.c.lifecycle_state then done tt else link_controller specs spec)
            >> link_controllers specs rest)
          s

    unfoldable pub build_controllers_topology_info :
        List (ControllerSpec E) → CmAction D E (Unit {0})
    build_controllers_topology_info specs s = link_controllers specs specs (record s {
      controller_chain_spec = clear_chains s.controller_chain_spec;
      controller_chained_reference_interfaces_cache =
          clear_cache s.controller_chained_reference_interfaces_cache;
      controller_chained_state_interfaces_cache =
          clear_cache s.controller_chained_state_interfaces_cache;
    })
