-- ===== src/Controllers/Sorting.antt =====
-- The order of the controllers in a cycle: `update_list_with_controller_chain` and the part of
-- `configure_controller` that reorders the list. An iterator is an index, and the end is the length.
pub mod Bounds
pub mod Complete
pub mod Keeping
pub mod Termination
pub mod Groups
use ros2_control.Base.{
  ℕ, zero, suc, ◌+◌, Bool, true, false, ◌&&◌, Option, none, some, List, [], ◌∷◌, ltb, length, ite,
  if◌then◌else◌, Name, name_discrete, has_item,
}
use ros2_control.Controllers.Spec.{
  ControllerSpec, ControllerChainSpec, find_controller, put_controller,
}
use ros2_control.Controllers.Topology.{ChainSpecs, chain_of, build_controller_full_chain_map_cache}

-- `std::find`
unfoldable pub find : List Name → Name → ℕ
find [] name = 0
find (x ∷ xs) name = ite (name_discrete x name) 0 (suc (find xs name))

-- `insert`, which is undefined past the end; here it leaves the list as it is.
unfoldable pub insert : ℕ → Name → List Name → List Name
insert zero name xs = name ∷ xs
insert (suc i) name [] = []
insert (suc i) name (x ∷ xs) = x ∷ insert i name xs

unfoldable pub earliest : List Name → ℕ → List Name → ℕ
unfolding find
earliest [] iterator names = iterator
earliest (ctrl ∷ ctrls) iterator names =
    let it = find names ctrl in
    earliest ctrls (if has_item names ctrl && ltb it iterator then it else iterator) names

unfoldable pub latest : List Name → ℕ → List Name → ℕ
unfolding find
latest [] iterator names = iterator
latest (ctrl ∷ ctrls) iterator names =
    let it = find names ctrl in
    latest ctrls (if has_item names ctrl && ltb iterator it then it else iterator) names

-- Where the controller is inserted, before or after the iterator that was found.
unfoldable pub place : ControllerChainSpec → ℕ → Bool → List Name → ℕ
place spec iterator append_to_controller names =
    let it =
      latest spec.preceding_controllers (earliest spec.following_controllers iterator names)
        names in
    if append_to_controller then it + 1 else it

-- The loop over the neighbours of a controller, whose place is looked up again for each.
unfoldable pub visit :
    (Name → ℕ → Bool → List Name → List Name) → Bool → Name → List Name → List Name → List Name
visit go append name [] names = names
visit go append name (ctrl ∷ ctrls) names =
    visit go append name ctrls (go ctrl (find names name) append names)

-- The names in a chain spec are those of controllers that have one, so that reading an entry adds
-- none. The recursion of the source has no bound of its own; here it takes fuel.
unfoldable pub update_list_with_controller_chain :
    ℕ → ChainSpecs → Name → ℕ → Bool → List Name → List Name
update_list_with_controller_chain zero m name iterator append names = names
update_list_with_controller_chain (suc fuel) m name iterator append names =
    let spec = chain_of name m in
    let go = update_list_with_controller_chain fuel m in
    elim (has_item names name) [
      | true ↦ names
      | false ↦ visit go false name spec.preceding_controllers (
          visit go true name spec.following_controllers
            (insert (place spec iterator append names) name names))
    ]

-- `ordered_controllers_names_` for the entries of the chain specs
unfoldable pub order_names : ℕ → ChainSpecs → ChainSpecs → List Name → List Name
order_names fuel m [] names = names
order_names fuel m ((name, spec) ∷ rest) names =
    order_names fuel m rest
      (update_list_with_controller_chain fuel m name (length names) false names)

module _ {E : Type 0} where
  unfoldable pub reorder : List Name → List (ControllerSpec E) → List (ControllerSpec E)
  reorder [] specs = []
  reorder (name ∷ names) specs = elim (find_controller name specs) [
    | none ↦ reorder names specs
    | some spec ↦ spec ∷ reorder names specs
  ]

  unfoldable pub put_groups :
      List (Name × List Name) → List (ControllerSpec E) → List (ControllerSpec E)
  put_groups [] specs = specs
  put_groups ((name, group) ∷ rest) specs = put_groups rest (elim (find_controller name specs) [
    | none ↦ specs
    | some spec ↦ put_controller name (record spec { controllers_chain_group = group }) specs
  ])

  -- What `configure_controller` makes of the list of controllers.
  unfoldable pub sort_controllers :
      ℕ → ChainSpecs → List (ControllerSpec E) → List (ControllerSpec E)
  sort_controllers fuel m specs =
      put_groups (build_controller_full_chain_map_cache fuel m m)
        (reorder (order_names fuel m m []) specs)
