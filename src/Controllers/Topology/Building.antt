-- ===== src/Controllers/Topology/Building.antt =====
-- `build_controllers_topology_info` keeps the invariant of the chain specs.
use ros2_control.Base.{
  ◌≡◌, refl, sym, ap, ◌∙◌, subst, true, List, [], ◌∷◌, Name, has_item, keys, IsUnique,
  Outcome-cases, Option-cases, Bool-cases, done, ◌>>=◌, ◌>>◌, inl, inr, arith,
}
use ros2_control.Hardware.Types.{is_unconfigured}
use ros2_control.Controllers.Spec.{
  ControllerPlugin, ControllerSpec, ControllerManager, CmAction, find_controller,
}
use ros2_control.Controllers.Configuration.{
  get_command_interfaces_names, get_state_interfaces_names, is_interface_a_chained_interface,
  interface_prefix,
}
use ros2_control.Controllers.Topology
use ros2_control.Controllers.Topology.{ChainSpecs, chain_of, link_command, link_state}
use ros2_control.Controllers.Topology.Exactness.{lookup-clear_chains}
use ros2_control.Controllers.Topology.Invariant.{IsChainMap}
use ros2_control.Controllers.Topology.Joining.{join_following-IsChainMap, join_preceding-IsChainMap}
use ros2_control.Controllers.Sorting.Keeping.{names_of, found-name}

keys-clear_chains : (m : ChainSpecs) → keys (Topology.clear_chains m) ≡ keys m
unfolding Topology.clear_chains
keys-clear_chains [] = refl
keys-clear_chains ((k, spec) ∷ m) = ap (λ l. k ∷ l) (keys-clear_chains m)

clear_chains-IsChainMap :
    (ks : List Name) (m : ChainSpecs) → keys m ≡ ks → IsChainMap ks (Topology.clear_chains m)
unfolding has_item
clear_chains-IsChainMap ks m e = record {
  keys_are = keys-clear_chains m ∙ e;
  mirrored = λ a b. ground (arith, lookup-clear_chains m a, lookup-clear_chains m b);
  known_following = λ a b h. ground (arith, lookup-clear_chains m a);
  known_preceding = λ a b h. ground (arith, lookup-clear_chains m b);
  unique_following =
      λ a. subst (λ spec. IsUnique spec.following_controllers) (sym (lookup-clear_chains m a)) tt;
  unique_preceding =
      λ a. subst (λ spec. IsUnique spec.preceding_controllers) (sym (lookup-clear_chains m a)) tt;
}

module _ {D E : Type 0} (ks : List Name) where
  -- The chain specs are in order, and the controllers and the resource manager are as before.
  pub record Tracks (s s' : ControllerManager D E) : Type 0 where
    pub chains : IsChainMap ks s'.controller_chain_spec
    pub same_controllers : s'.controllers ≡ s.controllers
    pub same_resources : s'.resource_manager ≡ s.resource_manager

  Tracks-trans : {s t u : ControllerManager D E} → Tracks s t → Tracks t u → Tracks s u
  Tracks-trans h k = record {
    chains = k.chains;
    same_controllers = k.same_controllers ∙ h.same_controllers;
    same_resources = k.same_resources ∙ h.same_resources;
  }

  abbrev TracksFrom : CmAction D E (Unit {0}) → Type 0
  TracksFrom f =
      (s : ControllerManager D E) → IsChainMap ks s.controller_chain_spec → Tracks s (f s).0

  done-Tracks : TracksFrom (done tt)
  done-Tracks s h = record { chains = h; same_controllers = refl; same_resources = refl }

  bind-Tracks : (f g : CmAction D E (Unit {0})) → TracksFrom f → TracksFrom g → TracksFrom (f >> g)
  bind-Tracks f g hf hg s h = elim (Outcome-cases (f s).1) [
    | inl o ↦ rw (o, ◌>>=◌) (hf s h)
    | inr (u, o) ↦ rw (o, ◌>>=◌) (Tracks-trans (hf s h) (hg (f s).0 (hf s h).chains))
  ]

  abbrev LinkTracks : (ControllerSpec E → ControllerManager D E → ControllerManager D E) → Type 0
  LinkTracks link =
      (target : ControllerSpec E) (s : ControllerManager D E)
      → has_item ks target.name ≡ true
      → IsChainMap ks s.controller_chain_spec
      → Tracks s (link target s)

  link_command-Tracks : (name : Name) → has_item ks name ≡ true → LinkTracks (link_command name)
  link_command-Tracks name hn target s ht h = record {
    chains = join_following-IsChainMap ks name target.name s.controller_chain_spec h hn ht;
    same_controllers = refl;
    same_resources = refl;
  }

  link_state-Tracks : (name : Name) → has_item ks name ≡ true → LinkTracks (link_state name)
  link_state-Tracks name hn target s ht h = record {
    chains = join_preceding-IsChainMap ks name target.name s.controller_chain_spec h hn ht;
    same_controllers = refl;
    same_resources = refl;
  }

  module _ (specs : List (ControllerSpec E))
      (known : (n : Name) → has_item (names_of specs) n ≡ true → has_item ks n ≡ true) where
    link_interfaces-Tracks :
        (link : ControllerSpec E → ControllerManager D E → ControllerManager D E) (itfs : List Name)
        → LinkTracks link
        → TracksFrom (Topology.link_interfaces link specs itfs)
    unfolding Topology.link_interfaces is_interface_a_chained_interface
    link_interfaces-Tracks link [] hl s h = done-Tracks s h
    link_interfaces-Tracks link (itf ∷ itfs) hl s h = elim (Option-cases (interface_prefix itf)) [
      | inl o ↦ rw (o, Topology.link_interfaces) (done-Tracks s h)
      | inr (pre, o) ↦ elim (Option-cases (find_controller pre specs)) [
        | inl f ↦
            rw (o, Topology.link_interfaces)
              (rw (f, Topology.link_interfaces) (link_interfaces-Tracks link itfs hl s h))
        | inr (target, f) ↦
            let t = hl target s (known target.name (found-name pre target specs f)) h in
            rw (o, Topology.link_interfaces)
              (rw (f, Topology.link_interfaces)
                (Tracks-trans t (link_interfaces-Tracks link itfs hl (link target s) t.chains)))
      ]
    ]

    module _ (p : ControllerPlugin E) where
      link_controller-Tracks :
          (spec : ControllerSpec E)
          → has_item ks spec.name ≡ true
          → TracksFrom (Topology.link_controller p specs spec)
      link_controller-Tracks spec hn s =
          let cmds = get_command_interfaces_names p spec.c s.resource_manager in
          let states = get_state_interfaces_names p spec.c s.resource_manager in
          bind-Tracks (Topology.link_interfaces (link_command spec.name) specs cmds)
            (Topology.link_interfaces (link_state spec.name) specs states)
            (link_interfaces-Tracks (link_command spec.name) cmds
              (link_command-Tracks spec.name hn))
            (link_interfaces-Tracks (link_state spec.name) states (link_state-Tracks spec.name hn))
            s

      link_controllers-Tracks :
          (rest : List (ControllerSpec E))
          → ((n : Name) → has_item (names_of rest) n ≡ true → has_item ks n ≡ true)
          → TracksFrom (Topology.link_controllers p specs rest)
      unfolding Topology.link_controllers has_item
      link_controllers-Tracks [] k s h = done-Tracks s h
      link_controllers-Tracks (spec ∷ rest) k s h =
          let linked = link_controllers-Tracks rest (λ n e. k n (ground arith)) in
          elim (Bool-cases (is_unconfigured spec.c.lifecycle_state)) [
            | inl b ↦ rw b (
                bind-Tracks (done tt) (Topology.link_controllers p specs rest) done-Tracks linked s
                  h)
            | inr b ↦ rw b (
                bind-Tracks (Topology.link_controller p specs spec)
                  (Topology.link_controllers p specs rest)
                  (link_controller-Tracks spec (k spec.name (ground arith))) linked s h)
          ]

      -- Also where an interface without a slash throws.
      pub build_controllers_topology_info-Tracks :
          TracksFrom (Topology.build_controllers_topology_info p specs)
      unfolding Topology.build_controllers_topology_info
      build_controllers_topology_info-Tracks s h =
          let t =
            link_controllers-Tracks specs known _
              (clear_chains-IsChainMap ks s.controller_chain_spec h.keys_are) in
          record {
            chains = t.chains;
            same_controllers = t.same_controllers;
            same_resources = t.same_resources;
          }
