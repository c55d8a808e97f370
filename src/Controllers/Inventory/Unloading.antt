-- ===== src/Controllers/Inventory/Unloading.antt =====
-- Unloading a controller keeps the inventory.
use ros2_control.Base.{
  ◌≡◌, ◌≢◌, refl, sym, ap, ◌∙◌, subst, Bool, true, false, ◌&&◌, ◌||◌, if◌then◌else◌, List, [], ◌∷◌,
  Name, name_eq, has_item, remove_item, remove_item-IsUnique, keys, IsUnique, Option-cases,
  Outcome-cases, inl, inr, returned, ◌>>=◌, done, branch, arith,
}
use ros2_control.Hardware.Types.{is_active}
use ros2_control.Controllers.Spec.{ControllerSpec, ControllerManager, CmAction, find_controller}
use ros2_control.Controllers.Loading.{ControllerLoader}
use ros2_control.Controllers.Unloading
use ros2_control.Controllers.Topology
use ros2_control.Controllers.Topology.{ChainSpecs, chain_of, no_chain}
use ros2_control.Controllers.Topology.Cleanup.{remove_item-has}
use ros2_control.Controllers.Topology.Links.{follows, precedes}
use ros2_control.Controllers.Topology.Invariant.{
  IsChainMap, cleanup-IsChainMap, cleanup-follows, cleanup-precedes,
}
use ros2_control.Controllers.Sorting.Keeping.{names_of}
use ros2_control.Controllers.Inventory.{IsLoaded, Same, Same-refl, Same-trans, Same-IsLoaded}
use ros2_control.Controllers.Inventory.Frames.{
  KeepsNames, cleanup_controller-KeepsNames, shutdown_found-KeepsNames,
}

names-erase :
    {E : Type 0} (name : Name) (specs : List (ControllerSpec E))
    → names_of (Unloading.erase_controller name specs) ≡ remove_item (names_of specs) name
unfolding Unloading.erase_controller remove_item
names-erase name [] = refl
names-erase name (s ∷ ss) = ground (arith, names-erase name ss)

module _ {D E : Type 0} where
  module _ (lo : ControllerLoader E) where
    -- One controller is taken out of the list and of the chains.
    pub record IsRemoved (name : Name) (s s' : ControllerManager D E) : Type 0 where
      pub names : names_of s'.controllers ≡ remove_item (names_of s.controllers) name
      pub specs :
          s'.controller_chain_spec
          ≡ Topology.controller_chain_spec_cleanup s.controller_chain_spec name

    removed-IsLoaded :
        (name : Name) (s s' : ControllerManager D E)
        → IsLoaded s
        → IsRemoved name s s'
        → IsLoaded s'
    removed-IsLoaded name s s' h r =
        let m = s.controller_chain_spec in
        let m' = Topology.controller_chain_spec_cleanup m name in
        let c = cleanup-IsChainMap (keys m) m h.chains name h.unique_keys in
        let unique_keys : IsUnique (keys m') =
          subst IsUnique (sym c.keys_are) (remove_item-IsUnique (keys m) name h.unique_keys) in
        record {
          unique =
              subst IsUnique (sym r.names)
                (remove_item-IsUnique (names_of s.controllers) name h.unique);
          unique_keys = subst (λ m. IsUnique (keys m)) (sym r.specs) unique_keys;
          listed = λ n. ground (
            arith,
            r.names,
            ap keys r.specs,
            c.keys_are,
            remove_item-has (names_of s.controllers) name n h.unique,
            remove_item-has (keys m) name n h.unique_keys,
            h.listed n,
          );
          chains =
              subst (λ m. IsChainMap (keys m) m) (sym r.specs)
                (subst (λ ks. IsChainMap ks m') (sym c.keys_are) c);
        }

    finish_unload-ne-false :
        (name : Name) (s : ControllerManager D E)
        → (Unloading.finish_unload lo name s).1 ≢ returned false
    unfolding Unloading.finish_unload
    finish_unload-ne-false name s e = ground (arith, e)

    finish_unload-IsRemoved :
        (name : Name) (s : ControllerManager D E) (result : Bool)
        → (Unloading.finish_unload lo name s).1 ≡ returned result
        → IsRemoved name s (Unloading.finish_unload lo name s).0
    unfolding Unloading.finish_unload
    finish_unload-IsRemoved name s result e =
        let s' : ControllerManager D E = record s {
          controller_chain_spec =
              Topology.controller_chain_spec_cleanup s.controller_chain_spec name;
        } in
        let shut : CmAction D E (Unit {0}) = Unloading.shutdown_found lo name in
        let same = shutdown_found-KeepsNames lo name s' in
        elim (Outcome-cases (shut s').1) [
          | inl o ↦ absurd (ground (arith, o, e))
          | inr (u, o) ↦
              rw (o, ◌>>=◌)
                (record {
                  names =
                      names-erase name (shut s').0.controllers
                      ∙ ap (λ l. remove_item l name) same.names;
                  specs = same.specs;
                })
        ]

    -- An unload that reports success has removed the controller, and any other has left the names and
    -- the chains, if it returns.
    abbrev Unloaded : Bool → Name → ControllerManager D E → ControllerManager D E → Type 0
    Unloaded true name s s' = IsRemoved name s s'
    Unloaded false name s s' = Same s s'

    Unloaded-Same :
        (result : Bool) (name : Name) (s t u : ControllerManager D E)
        → Same s t
        → Unloaded result name t u
        → Unloaded result name s u
    Unloaded-Same true name s t u h r = record {
      names = r.names ∙ ap (λ l. remove_item l name) h.names;
      specs = r.specs ∙ ap (λ m. Topology.controller_chain_spec_cleanup m name) h.specs;
    }
    Unloaded-Same false name s t u h r = Same-trans h r

    finish_unload-Unloaded :
        (name : Name) (s : ControllerManager D E) (result : Bool)
        → (Unloading.finish_unload lo name s).1 ≡ returned result
        → Unloaded result name s (Unloading.finish_unload lo name s).0
    finish_unload-Unloaded name s true e = finish_unload-IsRemoved name s true e
    finish_unload-Unloaded name s false e = absurd (finish_unload-ne-false name s e)

    module _ (name : Name) where
      -- For every state and result.
      abbrev Unloads : CmAction D E Bool → Type 0
      Unloads m =
          (s : ControllerManager D E) (result : Bool)
          → (m s).1 ≡ returned result
          → Unloaded result name s (m s).0

      refuse-Unloads : Unloads (done false)
      refuse-Unloads s true e = absurd (ground (arith, e))
      refuse-Unloads s false e = Same-refl s

      branch-Unloads :
          (b : Bool) (m n : CmAction D E Bool) → Unloads m → Unloads n → Unloads (branch b m n)
      branch-Unloads true m n hm hn = hm
      branch-Unloads false m n hm hn = hn

      bind-Unloads :
          (m : CmAction D E Bool) (f : Bool → CmAction D E Bool)
          → KeepsNames m
          → ((c : Bool) → Unloads (f c))
          → Unloads (m >>= f)
      bind-Unloads m f hm hf s = elim (Outcome-cases (m s).1) [
        | inl o ↦ rw (o, ◌>>=◌) λ r e. absurd (ground (arith, e))
        | inr (c, o) ↦
            rw (o, ◌>>=◌) λ r e. Unloaded-Same r name s (m s).0 _ (hm s) (hf c (m s).0 r e)
      ]

      -- Whatever the plugins do.
      unload_controller-Unloads : Unloads (Unloading.unload_controller lo name)
      unfolding Unloading.unload_controller
      unload_controller-Unloads s = elim (Option-cases (find_controller name s.controllers)) [
        | inl e ↦ rw (e, Unloading.unload_controller) (refuse-Unloads s)
        | inr (spec, e) ↦
            let finish : CmAction D E Bool = Unloading.finish_unload lo name in
            let clean : CmAction D E Bool = Unloading.cleanup_controller lo name in
            let after : Bool → CmAction D E Bool = λ cleaned. branch cleaned finish (done false) in
            rw (e, Unloading.unload_controller)
              (branch-Unloads (is_active spec.c.lifecycle_state) (done false) (clean >>= after)
                refuse-Unloads
                (bind-Unloads clean after (cleanup_controller-KeepsNames lo name) λ c.
                  branch-Unloads c finish (done false) (finish_unload-Unloaded name) refuse-Unloads)
                s)
      ]

    -- Where it returns. An exception of the shutdown leaves the controller in the list with no entry
    -- in the chain specs.
    pub unload_controller-IsLoaded :
        (name : Name) (s : ControllerManager D E) (result : Bool)
        → IsLoaded s
        → (Unloading.unload_controller lo name s).1 ≡ returned result
        → IsLoaded (Unloading.unload_controller lo name s).0
    unload_controller-IsLoaded name s true h e =
        removed-IsLoaded name s _ h (unload_controller-Unloads name s true e)
    unload_controller-IsLoaded name s false h e =
        Same-IsLoaded s _ (unload_controller-Unloads name s false e) h

    -- In order, an unload that reports success has removed the controller from the list and from all
    -- chains, and kept the other controllers and the chains between them; any other that returns has
    -- kept all of these.
    pub unload_controller-removes :
        (name : Name) (s : ControllerManager D E) (result : Bool) (a b : Name)
        → IsLoaded s
        → (Unloading.unload_controller lo name s).1 ≡ returned result
        → let s' = (Unloading.unload_controller lo name s).0 in
          (has_item (names_of s'.controllers) a
            ≡ (if result && name_eq name a then false else has_item (names_of s.controllers) a))
          × (follows b a s'.controller_chain_spec ≡ (
              if result && (name_eq name a || name_eq name b)
              then false
              else follows b a s.controller_chain_spec))
          × (precedes a b s'.controller_chain_spec ≡ (
              if result && (name_eq name a || name_eq name b)
              then false
              else precedes a b s.controller_chain_spec))
    unload_controller-removes name s true a b h e =
        let m = s.controller_chain_spec in
        let r = unload_controller-Unloads name s true e in
        (
          ground (arith, r.names, remove_item-has (names_of s.controllers) name a h.unique),
          ap (follows b a) r.specs ∙ cleanup-follows (keys m) m h.chains name a b,
          ap (precedes a b) r.specs ∙ cleanup-precedes (keys m) m h.chains name a b,
        )
    unload_controller-removes name s false a b h e =
        let r = unload_controller-Unloads name s false e in
        (ap (λ l. has_item l a) r.names, ap (follows b a) r.specs, ap (precedes a b) r.specs)
