-- ===== src/Controllers/Inventory/Sorting.antt =====
-- Sorting the list of controllers keeps the inventory.
use ros2_control.Base.{
  ◌≡◌, refl, sym, ap, ◌∙◌, subst, Bool, true, false, none, some, List, [], ◌∷◌, Name, has_item,
  keys, has_item-keys, has_key, IsUnique, Outcome-cases, inl, inr, ◌>>=◌, branch, suc, length,
  arith,
}
use ros2_control.Controllers.Spec.{
  ControllerPlugin, ControllerSpec, ControllerManager, CmAction, find_controller,
}
use ros2_control.Controllers.Configuring
use ros2_control.Controllers.Topology
use ros2_control.Controllers.Topology.{ChainSpecs, chain_of, no_chain}
use ros2_control.Controllers.Topology.Invariant.{IsChainMap}
use ros2_control.Controllers.Topology.Building.{Tracks, build_controllers_topology_info-Tracks}
use ros2_control.Controllers.Sorting
use ros2_control.Controllers.Sorting.Keeping.{names_of, sort_controllers-find}
use ros2_control.Controllers.Inventory.{IsLoaded, Same-IsLoaded}
use ros2_control.Controllers.Inventory.Frames.{KeepsNames}

pub has_item-names :
    {E : Type 0} (specs : List (ControllerSpec E)) (n : Name)
    → has_item (names_of specs) n
      ≡ elim (find_controller n specs) [ none ↦ false | some spec ↦ true ]
unfolding find_controller has_item
has_item-names [] n = refl
has_item-names (s ∷ ss) n = ground (arith, has_item-names ss n)

module _ {D E : Type 0} where
  abbrev pub KeepsLoaded : {A : Type 0} → CmAction D E A → Type 0
  KeepsLoaded m = (s : ControllerManager D E) → IsLoaded s → IsLoaded (m s).0

  pub same-KeepsLoaded : {A : Type 0} (m : CmAction D E A) → KeepsNames m → KeepsLoaded m
  same-KeepsLoaded m h s l = Same-IsLoaded s (m s).0 (h s) l

  pub bind-KeepsLoaded :
      {A B : Type 0} (m : CmAction D E A) (f : A → CmAction D E B)
      → KeepsLoaded m
      → ((a : A) → KeepsLoaded (f a))
      → KeepsLoaded (m >>= f)
  bind-KeepsLoaded m f hm hf s l = elim (Outcome-cases (m s).1) [
    | inl o ↦ rw (o, ◌>>=◌) (hm s l)
    | inr (a, o) ↦ rw (o, ◌>>=◌) (hf a (m s).0 (hm s l))
  ]

  pub branch-KeepsLoaded :
      {A : Type 0} (b : Bool) (m n : CmAction D E A)
      → KeepsLoaded m
      → KeepsLoaded n
      → KeepsLoaded (branch b m n)
  branch-KeepsLoaded true m n hm hn = hm
  branch-KeepsLoaded false m n hm hn = hn

  pub tracked-IsLoaded :
      (s s' : ControllerManager D E)
      → IsLoaded s
      → Tracks (keys s.controller_chain_spec) s s'
      → IsLoaded s'
  tracked-IsLoaded s s' l t = record {
    unique = subst (λ c. IsUnique (names_of c)) (sym t.same_controllers) l.unique;
    unique_keys = subst IsUnique (sym t.chains.keys_are) l.unique_keys;
    listed = λ n.
        ap (λ c. has_item (names_of c) n) t.same_controllers
        ∙ l.listed n
        ∙ ap (λ ks. has_item ks n) (sym t.chains.keys_are);
    chains = subst (λ ks. IsChainMap ks s'.controller_chain_spec) (sym t.chains.keys_are) t.chains;
  }

  pub known_keys :
      (s : ControllerManager D E)
      → IsLoaded s
      → (n : Name) → has_item (names_of s.controllers) n ≡ true
      → has_key n s.controller_chain_spec ≡ true
  known_keys s l n e = sym (has_item-keys s.controller_chain_spec n) ∙ sym (l.listed n) ∙ e

  replace_list-KeepsLoaded : KeepsLoaded Configuring.replace_list
  replace_list-KeepsLoaded s l =
      let m = s.controller_chain_spec in
      let sorted = Sorting.sort_controllers (suc (length m)) m s.controllers in
      let known = known_keys s l in
      let found = sort_controllers-find (length m) m s.controllers l.unique_keys known in
      record {
        unique = found.1;
        unique_keys = l.unique_keys;
        listed = λ n.
            ground (
              arith,
              has_item-names sorted n,
              has_item-names s.controllers n,
              found.0 n,
              l.listed n,
            );
        chains = l.chains;
      }

  module _ (p : ControllerPlugin E) where
    pub built_topology :
        (s : ControllerManager D E)
        → IsLoaded s
        → Tracks
            (keys s.controller_chain_spec)
            s
            (Topology.build_controllers_topology_info p s.controllers s).0
    built_topology s l =
        build_controllers_topology_info-Tracks (keys s.controller_chain_spec) s.controllers
          (λ n e. sym (l.listed n) ∙ e) p s l.chains

    pub sort_list-KeepsLoaded : KeepsLoaded (Configuring.sort_list p)
    unfolding Configuring.sort_list
    sort_list-KeepsLoaded s l =
        let build : CmAction D E (Unit {0}) =
          Topology.build_controllers_topology_info p s.controllers in
        let t = built_topology s l in
        let built = tracked-IsLoaded s (build s).0 l t in
        elim (Outcome-cases (build s).1) [
          | inl o ↦ rw (o, ◌>>=◌) built
          | inr (u, o) ↦ rw (o, ◌>>=◌) (replace_list-KeepsLoaded (build s).0 built)
        ]
