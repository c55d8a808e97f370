-- ===== src/Controllers/Inventory/Inactive.antt =====
-- A controller that is in the list and inactive, and what keeps it so.
use ros2_control.Base.{
  ◌≡◌, refl, sym, subst, ◌∙◌, Bool, true, false, some, [], Name, add_item, Outcome-cases, returned,
  inl, inr, ◌>>=◌, branch, suc, length, arith,
}
use ros2_control.Hardware.Types.{is_inactive}
use ros2_control.Resource.Storage.{ManagerAction}
use ros2_control.Controllers.Spec.{
  ControllerPlugin, Controller, ControllerSpec, ControllerManager, CmAction, find_controller,
}
use ros2_control.Controllers.Changes
use ros2_control.Controllers.Topology
use ros2_control.Controllers.Sorting.Keeping.{sort_controllers-find}
use ros2_control.Controllers.Switching.Ownership.{find-put}
use ros2_control.Controllers.Configuring
use ros2_control.Controllers.Inventory.{IsLoaded}
use ros2_control.Controllers.Inventory.Sorting.{
  KeepsLoaded, tracked-IsLoaded, known_keys, built_topology,
}

module _ {D E : Type 0} (name : Name) where
  -- The controller is in the list and inactive.
  pub record IsInactive (s : ControllerManager D E) : Type 0 where
    pub spec : ControllerSpec E
    pub found : find_controller name s.controllers ≡ some spec
    pub inactive : is_inactive spec.c.lifecycle_state ≡ true

  abbrev pub KeepsInactive : {A : Type 0} → CmAction D E A → Type 0
  KeepsInactive m = (s : ControllerManager D E) → IsInactive s → IsInactive (m s).0

  -- Where the list is in order and the controller inactive, a call that succeeds leaves it inactive.
  abbrev pub Succeeds : CmAction D E Bool → Type 0
  Succeeds m =
      (s : ControllerManager D E)
      → IsLoaded s
      → IsInactive s
      → (m s).1 ≡ returned true
      → IsInactive (m s).0

  pub bind-KeepsInactive :
      {A B : Type 0} (m : CmAction D E A) (f : A → CmAction D E B)
      → KeepsInactive m
      → ((a : A) → KeepsInactive (f a))
      → KeepsInactive (m >>= f)
  bind-KeepsInactive m f hm hf s i = elim (Outcome-cases (m s).1) [
    | inl o ↦ rw (o, ◌>>=◌) (hm s i)
    | inr (a, o) ↦ rw (o, ◌>>=◌) (hf a (m s).0 (hm s i))
  ]

  pub bind-Succeeds :
      {A : Type 0} (m : CmAction D E A) (f : A → CmAction D E Bool)
      → KeepsLoaded m
      → KeepsInactive m
      → ((a : A) → Succeeds (f a))
      → Succeeds (m >>= f)
  bind-Succeeds m f hl hm hf s l i = elim (Outcome-cases (m s).1) [
    | inl o ↦ rw (o, ◌>>=◌) λ e. absurd (ground (arith, e))
    | inr (a, o) ↦ rw (o, ◌>>=◌) (hf a (m s).0 (hl s l) (hm s i))
  ]

  pub branch-Succeeds :
      (b : Bool) (m n : CmAction D E Bool) → Succeeds m → Succeeds n → Succeeds (branch b m n)
  branch-Succeeds true m n hm hn = hm
  branch-Succeeds false m n hm hn = hn

  pub on_resources-KeepsInactive :
      {A : Type 0} (m : ManagerAction D A) → KeepsInactive (Changes.on_resources m)
  on_resources-KeepsInactive m s i = record {
    spec = i.spec;
    found = i.found;
    inactive = i.inactive;
  }

  pub put_c-IsInactive :
      (spec : ControllerSpec E) (c : Controller E) (s : ControllerManager D E)
      → spec.name ≡ name
      → is_inactive c.lifecycle_state ≡ true
      → (old : ControllerSpec E) → find_controller name s.controllers ≡ some old
      → IsInactive (Changes.put_c spec c s)
  put_c-IsInactive spec c s e i old f = record {
    spec = record spec { c = c };
    found =
        subst
          (λ n.
            find_controller n (Changes.put_c spec c s).controllers ≡ some (record spec { c = c }))
          e
          (find-put spec.name old (record spec { c = c }) s.controllers refl
            (subst (λ n. find_controller n s.controllers ≡ some old) (sym e) f));
    inactive = i;
  }

  module _ (p : ControllerPlugin E) where
    replace_list-Succeeds : Succeeds Configuring.replace_list
    replace_list-Succeeds s l i e =
        let m = s.controller_chain_spec in
        let sorted =
          sort_controllers-find (length m) m s.controllers l.unique_keys (known_keys s l) in
        record {
          spec = record i.spec {
            controllers_chain_group =
                Topology.get_full_chain_spec (suc (length m)) m name (add_item [] name);
          };
          found = sorted.0 name ∙ rw i.found refl;
          inactive = i.inactive;
        }

    pub sort_list-Succeeds : Succeeds (Configuring.sort_list p)
    unfolding Configuring.sort_list
    sort_list-Succeeds s l i =
        let build : CmAction D E (Unit {0}) =
          Topology.build_controllers_topology_info p s.controllers in
        let t = built_topology p s l in
        let built : IsInactive (build s).0 = record {
          spec = i.spec;
          found = rw t.same_controllers i.found;
          inactive = i.inactive;
        } in
        elim (Outcome-cases (build s).1) [
          | inl o ↦ rw (o, ◌>>=◌) λ e. absurd (ground (arith, e))
          | inr (u, o) ↦
              rw (o, ◌>>=◌)
                (replace_list-Succeeds (build s).0 (tracked-IsLoaded s (build s).0 l t) built)
        ]
