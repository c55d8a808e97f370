-- ===== src/Controllers/Inventory/Loading.antt =====
-- Loading a controller keeps the inventory.
use ros2_control.Base.{
  ◌≡◌, refl, sym, ap, ◌∙◌, subst, Bool, true, false, ◌||◌, if◌then◌else◌, none, List, [], ◌∷◌, ◌++◌,
  Name, has_item, has_item-append, append_new-IsUnique, keys, has_item-keys, assign, lookup-assign,
  IsUnique, Option-cases, Outcome-cases, Bool-cases, inl, inr, returned, arith,
}
use ros2_control.Controllers.Spec.{ControllerSpec, ControllerManager, find_controller}
use ros2_control.Controllers.Loading
use ros2_control.Controllers.Loading.{ControllerLoader}
use ros2_control.Controllers.Topology.{ChainSpecs, chain_of, no_chain}
use ros2_control.Controllers.Topology.Invariant.{IsChainMap}
use ros2_control.Controllers.Sorting.Keeping.{names_of}
use ros2_control.Controllers.Inventory.{IsLoaded, Same-IsLoaded}
use ros2_control.Controllers.Inventory.Frames.{caught-KeepsNames}

keys-assign_new :
    (k : Name) (m : ChainSpecs)
    → has_item (keys m) k ≡ false
    → keys (assign k no_chain m) ≡ keys m ++ k ∷ []
unfolding assign has_item
keys-assign_new k [] h = refl
keys-assign_new k ((j, v) ∷ m) h = ground (arith, keys-assign_new k m)

-- An entry for a controller that no chain names.
module _ (k : Name) (m : ChainSpecs) (h : IsChainMap (keys m) m)
    (n : has_item (keys m) k ≡ false) where
  chain_of-assign_new : (x : Name) → chain_of x (assign k no_chain m) ≡ chain_of x m
  chain_of-assign_new x = ground (arith, lookup-assign k x no_chain m, has_item-keys m k)

  assign_new-IsChainMap : IsChainMap (keys (assign k no_chain m)) (assign k no_chain m)
  assign_new-IsChainMap = record {
    keys_are = refl;
    mirrored = λ a b. ground (arith, chain_of-assign_new a, chain_of-assign_new b, h.mirrored a b);
    known_following = λ a b e. ground (
      arith,
      chain_of-assign_new a,
      h.known_following a b,
      keys-assign_new k m n,
      has_item-append (keys m) (k ∷ []) b,
    );
    known_preceding = λ a b e. ground (
      arith,
      chain_of-assign_new b,
      h.known_preceding a b,
      keys-assign_new k m n,
      has_item-append (keys m) (k ∷ []) a,
    );
    unique_following = λ a.
        subst (λ spec. IsUnique spec.following_controllers) (sym (chain_of-assign_new a))
          (h.unique_following a);
    unique_preceding = λ a.
        subst (λ spec. IsUnique spec.preceding_controllers) (sym (chain_of-assign_new a))
          (h.unique_preceding a);
  }

names-append :
    {E : Type 0} (specs : List (ControllerSpec E)) (spec : ControllerSpec E)
    → names_of (specs ++ spec ∷ []) ≡ names_of specs ++ spec.name ∷ []
names-append [] spec = refl
names-append (s ∷ ss) spec = ap (λ l. s.name ∷ l) (names-append ss spec)

find_none :
    {E : Type 0} (name : Name) (specs : List (ControllerSpec E))
    → find_controller name specs ≡ none
    → has_item (names_of specs) name ≡ false
unfolding find_controller has_item
find_none name [] h = refl
find_none name (s ∷ ss) h = ground (arith, find_none name ss)

module _ {D E : Type 0} where
  append_controller-IsLoaded :
      (spec : ControllerSpec E) (s : ControllerManager D E)
      → find_controller spec.name s.controllers ≡ none
      → IsLoaded s
      → IsLoaded (Loading.append_controller spec s)
  unfolding Loading.append_controller
  append_controller-IsLoaded spec s e h =
      let m = s.controller_chain_spec in
      let absent = find_none spec.name s.controllers e in
      let new : has_item (keys m) spec.name ≡ false = sym (h.listed spec.name) ∙ absent in
      record {
        unique =
            subst IsUnique (sym (names-append s.controllers spec))
              (append_new-IsUnique (names_of s.controllers) spec.name absent h.unique);
        unique_keys =
            subst IsUnique (sym (keys-assign_new spec.name m new))
              (append_new-IsUnique (keys m) spec.name new h.unique_keys);
        listed = λ n. ground (
          arith,
          names-append s.controllers spec,
          keys-assign_new spec.name m new,
          has_item-append (names_of s.controllers) (spec.name ∷ []) n,
          has_item-append (keys m) (spec.name ∷ []) n,
          h.listed n,
        );
        chains = assign_new-IsChainMap spec.name m h.chains new;
      }

  module _ (lo : ControllerLoader E) where
    add_controller_impl-IsLoaded :
        (spec : ControllerSpec E) (s : ControllerManager D E)
        → IsLoaded s
        → IsLoaded (Loading.add_controller_impl lo spec s).0
    unfolding Loading.add_controller_impl
    add_controller_impl-IsLoaded spec s h =
        elim (Option-cases (find_controller spec.name s.controllers)) [
          | inr (found, e) ↦ rw (e, Loading.add_controller_impl) h
          | inl e ↦ elim (Outcome-cases (lo.init spec.name spec.c.device).1) [
            | inl o ↦
                rw (e, Loading.add_controller_impl)
                  (rw (o, Loading.add_controller_impl) (Same-IsLoaded s _ (caught-KeepsNames s) h))
            | inr (false, o) ↦
                rw (e, Loading.add_controller_impl) (rw (o, Loading.add_controller_impl) h)
            | inr (true, o) ↦
                rw (e, Loading.add_controller_impl)
                  (rw (o, Loading.add_controller_impl)
                    (append_controller-IsLoaded
                      (Loading.with_device spec (lo.init spec.name spec.c.device).0) s e h))
          ]
        ]

    created-IsLoaded :
        (name : Name) (chainable : Bool) (e : E) (s : ControllerManager D E)
        → IsLoaded s
        → let fallback = lo.fallback_controllers name in
          IsLoaded
            (if has_item fallback name
              then (s, returned false)
              else Loading.add_controller_impl lo (Loading.new_spec name fallback chainable e) s).0
    created-IsLoaded name chainable e s h =
        let fallback = lo.fallback_controllers name in
        elim (Bool-cases (has_item fallback name)) [
          | inl b ↦ rw b h
          | inr b ↦
              rw b (add_controller_impl-IsLoaded (Loading.new_spec name fallback chainable e) s h)
        ]

    -- Whether it returns or throws.
    pub load_controller-IsLoaded :
        (name : Name) (s : ControllerManager D E)
        → IsLoaded s
        → IsLoaded (Loading.load_controller lo name s).0
    unfolding Loading.load_controller Loading.load_controller_of_type
    load_controller-IsLoaded name s h = elim (Option-cases (lo.type_parameter name)) [
      | inl o ↦ rw (o, Loading.load_controller) h
      | inr (type, o) ↦
          rw (o, Loading.load_controller)
            (elim (Bool-cases
              (lo.is_class_available type || lo.is_chainable_class_available type)) [
                | inr b ↦ rw (b, Loading.load_controller_of_type) h
                | inl b ↦
                    rw (b, Loading.load_controller_of_type)
                      (elim (Outcome-cases (Loading.create_instance lo type)) [
                        | inl i ↦
                            rw (i, Loading.load_controller_of_type)
                              (Same-IsLoaded s _ (caught-KeepsNames s) h)
                        | inr ((e, chainable), i) ↦
                            rw (i, Loading.load_controller_of_type)
                              (created-IsLoaded name chainable e s h)
                      ])
              ])
    ]
