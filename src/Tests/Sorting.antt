-- ===== src/Tests/Sorting.antt =====
-- The order of controllers, and the two lists as one.
use ros2_control.Base.{
  ℕ, ◌≡◌, refl, ap, returned, arith, true, some, none, has_key, IsUnique, List, [], ◌∷◌, Name,
  lookup, name_discrete, has_item, add_item,
}
use ros2_control.Controllers.Spec.{ControllerChainSpec}
use ros2_control.Controllers.Topology
use ros2_control.Controllers.Topology.{ChainSpecs}
use ros2_control.Controllers.Sorting
use ros2_control.Controllers.Sorting.Keeping
use ros2_control.Controllers.Sorting.Groups
use ros2_control.Controllers.Sorting.Termination
use ros2_control.Controllers.Sorting.Termination.{IsClosed}
use ros2_control.Controllers.Topology.Exactness
use ros2_control.Controllers.Topology.Links.{follows, precedes}
use ros2_control.Hardware.Types.{LifecycleState}
use ros2_control.Controllers.Configuration
use ros2_control.Controllers.Spec.{find_controller, ControllerSpec, ControllerManager, CmAction}
use ros2_control.Tests.Chain.{code, manager, no_request, pair}

abbrev chain : List Name → List Name → ControllerChainSpec
chain following preceding = record {
  following_controllers = following;
  preceding_controllers = preceding;
}

-- "a" commands "d" and "b", "b" commands "c" and "c" commands "d".
abbrev bypass : ChainSpecs
bypass =
    ("c", chain ("d" ∷ []) ("b" ∷ []))
    ∷ ("d", chain [] ("c" ∷ "a" ∷ []))
    ∷ ("b", chain ("c" ∷ []) ("a" ∷ []))
    ∷ ("a", chain ("d" ∷ "b" ∷ []) [])
    ∷ []

-- Though "b" precedes "c", it comes after it.
preceding_is_later : Sorting.order_names 9 bypass bypass [] ≡ "c" ∷ "a" ∷ "b" ∷ "d" ∷ []
unfolding Sorting.order_names Sorting.update_list_with_controller_chain Sorting.visit Sorting.place
    Sorting.earliest Sorting.latest Sorting.insert Sorting.find has_item name_discrete lookup
preceding_is_later = refl

full_chain : Topology.get_full_chain_spec 9 bypass "b" [] ≡ "b" ∷ "c" ∷ "d" ∷ "a" ∷ []
unfolding Topology.get_full_chain_spec Topology.visit_chain has_item add_item name_discrete lookup
full_chain = refl

bypass-IsClosed : IsClosed bypass
unfolding lookup has_item
bypass-IsClosed = record { following = λ a b h. ground arith; preceding = λ a b h. ground arith }

order_names-enough_example :
    Sorting.order_names 9 bypass bypass [] ≡ Sorting.order_names 5 bypass bypass []
order_names-enough_example = Termination.order_names-enough bypass bypass-IsClosed 4

abbrev topology : ChainSpecs
topology = (manager LifecycleState.inactive no_request).controller_chain_spec

known :
    (n : Name)
    → has_item (Keeping.names_of (pair LifecycleState.inactive)) n ≡ true
    → has_key n topology ≡ true
unfolding has_item lookup
known n h = ground arith

topology-IsClosed : IsClosed topology
unfolding lookup has_item
topology-IsClosed = record { following = λ a b h. ground arith; preceding = λ a b h. ground arith }

sort_controllers-IsGroup_example :
    let specs = pair LifecycleState.inactive in
    let specs' = Sorting.sort_controllers 4 topology specs in
    ((n : Name) (spec : ControllerSpec ℕ)
      → find_controller n specs ≡ some spec
      → (group : List Name) × (find_controller n specs'
          ≡ some (record spec { controllers_chain_group = group }))
        × Groups.IsGroup topology n group)
    × ((n : Name) → find_controller n specs ≡ none → find_controller n specs' ≡ none)
    × IsUnique (Keeping.names_of specs')
unfolding has_item name_discrete
sort_controllers-IsGroup_example =
    Groups.sort_controllers-IsGroup 1 topology (pair LifecycleState.inactive) (refl, (refl, tt))
      topology-IsClosed known

abbrev chained : ControllerManager ℕ ℕ
chained = manager LifecycleState.inactive no_request

abbrev build : CmAction ℕ ℕ (Unit {0})
build = Topology.build_controllers_topology_info code (pair LifecycleState.inactive)

built : (build chained).1 ≡ returned tt
unfolding Configuration.get_command_interfaces_names Configuration.get_state_interfaces_names
    Configuration.is_interface_a_chained_interface Topology.build_controllers_topology_info
    Topology.link_controllers Topology.link_interfaces find_controller name_discrete
built = refl

build_controllers_topology_info-leads_example :
    let m = (build chained).0.controller_chain_spec in
    let led =
      Exactness.leads code chained.resource_manager
        (pair LifecycleState.inactive)
        (pair LifecycleState.inactive)
        "traj"
        "pid" in
    (follows "pid" "traj" m ≡ led) × (precedes "traj" "pid" m ≡ led)
build_controllers_topology_info-leads_example =
    Exactness.build_controllers_topology_info-leads code (pair LifecycleState.inactive) chained
      (build chained).0 "traj" "pid" (ap (λ o. ((build chained).0, o)) built)
