-- ===== src/Controllers/Sorting/Keeping.antt =====
-- Reordering keeps the controllers.
use ros2_control.Base.{
  ℕ, suc, ◌≡◌, refl, sym, ap, subst, ◌∙◌, true, false, Option, none, some, List, [], ◌∷◌, ite,
  if◌then◌else◌, Name, name_discrete, has_item, has_key, keys, lookup, lookup-none, add_item,
  IsUnique, arith, inl, inr, Option-cases,
}
use ros2_control.Controllers.Spec.{ControllerSpec, find_controller, put_controller}
use ros2_control.Controllers.Topology
use ros2_control.Controllers.Topology.{ChainSpecs}
use ros2_control.Controllers.Sorting
use ros2_control.Controllers.Sorting.Complete.{order_names-IsUnique, order_names-has_key}
use ros2_control.Controllers.Switching.Ownership.{find-name, find-put}

module _ {E : Type 0} where
  abbrev pub names_of : List (ControllerSpec E) → List Name
  names_of [] = []
  names_of (s ∷ ss) = s.name ∷ names_of ss

  abbrev pub with_group : List Name → Option (ControllerSpec E) → Option (ControllerSpec E)
  with_group group none = none
  with_group group (some spec) = some (record spec { controllers_chain_group = group })

  pub find-names :
      (specs : List (ControllerSpec E)) (n : Name)
      → has_item (names_of specs) n ≡ false
      → find_controller n specs ≡ none
  unfolding find_controller has_item
  find-names [] n h = refl
  find-names (s ∷ ss) n h = ground (arith, find-names ss n)

  pub found-name :
      (name : Name) (spec : ControllerSpec E) (specs : List (ControllerSpec E))
      → find_controller name specs ≡ some spec
      → has_item (names_of specs) spec.name ≡ true
  unfolding find_controller has_item
  found-name name spec [] h = ground arith
  found-name name spec (s ∷ ss) h = ground (arith, found-name name spec ss)

  pub find-reorder :
      (names : List Name) (specs : List (ControllerSpec E)) (n : Name)
      → find_controller n (Sorting.reorder names specs)
        ≡ (if has_item names n then find_controller n specs else none)
  unfolding Sorting.reorder find_controller has_item
  find-reorder [] specs n = refl
  find-reorder (name ∷ names) specs n = elim (Option-cases (find_controller name specs)) [
    | inl e ↦ rw (e, Sorting.reorder) (ground (arith, find-reorder names specs n, e))
    | inr (spec, e) ↦
        rw (e, Sorting.reorder)
          (ground (arith, find-reorder names specs n, e, find-name name spec specs e))
  ]

  names-reorder_le :
      (names : List Name) (specs : List (ControllerSpec E)) (n : Name)
      → has_item names n ≡ false
      → has_item (names_of (Sorting.reorder names specs)) n ≡ false
  unfolding Sorting.reorder has_item
  names-reorder_le [] specs n h = refl
  names-reorder_le (name ∷ names) specs n h = elim (Option-cases (find_controller name specs)) [
    | inl e ↦ rw (e, Sorting.reorder) (names-reorder_le names specs n (ground arith))
    | inr (spec, e) ↦
        rw (e, Sorting.reorder)
          (ground (arith, names-reorder_le names specs n, find-name name spec specs e))
  ]

  pub names-reorder-IsUnique :
      (names : List Name) (specs : List (ControllerSpec E))
      → IsUnique names
      → IsUnique (names_of (Sorting.reorder names specs))
  unfolding Sorting.reorder
  names-reorder-IsUnique [] specs u = tt
  names-reorder-IsUnique (name ∷ names) specs u = elim (Option-cases (find_controller name specs)) [
    | inl e ↦ rw (e, Sorting.reorder) (names-reorder-IsUnique names specs u.1)
    | inr (spec, e) ↦
        rw (e, Sorting.reorder)
          (
            rw (find-name name spec specs e) (names-reorder_le names specs name u.0),
            names-reorder-IsUnique names specs u.1,
          )
  ]

  -- A change of a controller that keeps its name keeps all names.
  pub names-put :
      (spec : ControllerSpec E) (specs : List (ControllerSpec E))
      → names_of (put_controller spec.name spec specs) ≡ names_of specs
  unfolding put_controller
  names-put spec [] = refl
  names-put spec (s ∷ ss) = ground (arith, names-put spec ss)

  pub find-put_ne :
      (n : Name) (spec : ControllerSpec E) (specs : List (ControllerSpec E))
      → ¬ (spec.name ≡ n)
      → find_controller n (put_controller spec.name spec specs) ≡ find_controller n specs
  unfolding put_controller find_controller
  find-put_ne n spec [] h = refl
  find-put_ne n spec (s ∷ ss) h = ground (arith, find-put_ne n spec ss h)

  -- A controller of the list gets the group that is recorded for it.
  abbrev regrouped : Option (List Name) → Option (ControllerSpec E) → Option (ControllerSpec E)
  regrouped none found = found
  regrouped (some group) found = with_group group found

  abbrev put_group : Name → List Name → List (ControllerSpec E) → List (ControllerSpec E)
  put_group name group specs = elim (find_controller name specs) [
    | none ↦ specs
    | some spec ↦ put_controller name (record spec { controllers_chain_group = group }) specs
  ]

  find-put_group :
      (name : Name) (group : List Name) (specs : List (ControllerSpec E)) (n : Name)
      → find_controller n (put_group name group specs)
        ≡ ite
            (name_discrete name n)
            (with_group group (find_controller n specs))
            (find_controller n specs)
  find-put_group name group specs n = elim (Option-cases (find_controller name specs)) [
    | inl e ↦ ground (arith, e)
    | inr (spec, e) ↦
        let spec' : ControllerSpec E = record spec { controllers_chain_group = group } in
        let same = find-name name spec specs e in
        ground (arith, e, same, find-put name spec spec' specs same e, find-put_ne n spec' specs)
  ]

  names-put_group :
      (name : Name) (group : List Name) (specs : List (ControllerSpec E))
      → names_of (put_group name group specs) ≡ names_of specs
  names-put_group name group specs = elim (Option-cases (find_controller name specs)) [
    | inl e ↦ rw (e, put_group) refl
    | inr (spec, e) ↦
        let spec' : ControllerSpec E = record spec { controllers_chain_group = group } in
        ground (arith, e, find-name name spec specs e, names-put spec' specs)
  ]

  find-put_groups :
      (cache : List (Name × List Name)) (specs : List (ControllerSpec E)) (n : Name)
      → IsUnique (keys cache)
      → find_controller n (Sorting.put_groups cache specs)
        ≡ regrouped (lookup n cache) (find_controller n specs)
  unfolding Sorting.put_groups lookup
  find-put_groups [] specs n u = refl
  find-put_groups ((name, group) ∷ rest) specs n u = ground (
    arith,
    find-put_groups rest (put_group name group specs) n u.1,
    find-put_group name group specs n,
    lookup-none rest name,
  )

  names-put_groups :
      (cache : List (Name × List Name)) (specs : List (ControllerSpec E))
      → names_of (Sorting.put_groups cache specs) ≡ names_of specs
  unfolding Sorting.put_groups
  names-put_groups [] specs = refl
  names-put_groups ((name, group) ∷ rest) specs =
      names-put_groups rest (put_group name group specs) ∙ names-put_group name group specs

module _ (fuel : ℕ) (m : ChainSpecs) where
  abbrev full_chain : Name → List Name
  full_chain n = Topology.get_full_chain_spec fuel m n (add_item [] n)

  keys-cache :
      (rest : ChainSpecs)
      → keys (Topology.build_controller_full_chain_map_cache fuel m rest) ≡ keys rest
  unfolding Topology.build_controller_full_chain_map_cache
  keys-cache [] = refl
  keys-cache ((name, spec) ∷ rest) = ap (λ l. name ∷ l) (keys-cache rest)

  lookup-cache :
      (rest : ChainSpecs) (n : Name)
      → lookup n (Topology.build_controller_full_chain_map_cache fuel m rest)
        ≡ (if has_key n rest then some (full_chain n) else none)
  unfolding Topology.build_controller_full_chain_map_cache lookup
  lookup-cache [] n = refl
  lookup-cache ((name, spec) ∷ rest) n = ground (arith, lookup-cache rest n)

-- Where every controller of the list has its one entry in the chain specs, sorting the list keeps
-- each of its controllers with nothing changed but its group, which is what `get_full_chain_spec` finds
-- with the fuel given; it adds none and lists none twice, for any fuel but zero.
pub sort_controllers-find :
    {E : Type 0} (fuel : ℕ) (m : ChainSpecs) (specs : List (ControllerSpec E))
    → IsUnique (keys m)
    → ((n : Name) → has_item (names_of specs) n ≡ true → has_key n m ≡ true)
    → ((n : Name)
        → find_controller n (Sorting.sort_controllers (suc fuel) m specs)
          ≡ with_group
              (Topology.get_full_chain_spec (suc fuel) m n (add_item [] n))
              (find_controller n specs))
      × IsUnique (names_of (Sorting.sort_controllers (suc fuel) m specs))
unfolding Sorting.sort_controllers
sort_controllers-find fuel m specs u known =
    let names = Sorting.order_names (suc fuel) m m [] in
    let cache = Topology.build_controller_full_chain_map_cache (suc fuel) m m in
    let unique : IsUnique (keys cache) = subst IsUnique (sym (keys-cache (suc fuel) m m)) u in
    (
      λ n. ground (
        arith,
        find-put_groups cache (Sorting.reorder names specs) n unique,
        lookup-cache (suc fuel) m m n,
        find-reorder names specs n,
        order_names-has_key fuel m n,
        known n,
        find-names specs n,
      ),
      subst IsUnique (sym (names-put_groups cache (Sorting.reorder names specs)))
          (names-reorder-IsUnique names specs (order_names-IsUnique (suc fuel) m)),
    )
