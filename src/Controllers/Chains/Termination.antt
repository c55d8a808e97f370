-- ===== src/Controllers/Chains/Termination.antt =====
-- The recursion of `check_following_controllers_for_activate` ends where the chains have no cycle.
use ros2_control.Base.{
  ℕ, zero, suc, ◌<◌, ◌≡◌, sym, Bool, true, not, ◌&&◌, none, some, List, [], ◌∷◌, ◌++◌, Name, arith,
  has_item, returned, ◌>>◌, done, inl, inr, Outcome-cases, Option-cases, if◌then◌else◌, subst,
}
use ros2_control.Resource.Storage.{ResourceManager}
use ros2_control.Controllers.Spec.{
  ControllerPlugin, ControllerSpec, ControllerManager, CmAction, is_controller_active,
  find_controller,
}
use ros2_control.Controllers.Configuration.{
  get_command_interfaces_names, get_state_interfaces_names, interface_prefix,
  is_interface_a_chained_interface,
}
use ros2_control.Controllers.Chains
use ros2_control.Controllers.Chains.{Verdict, all_interfaces}
use ros2_control.Controllers.Chains.Known.{KnownInterfaces}
use ros2_control.Controllers.Switching.Ownership.{find-name}
use ros2_control.Controllers.Chains.Finishing.{
  Keeping, FinishesAt, branch-At, and_then-FinishesAt, kept-FinishesAt,
}

chained-found :
    {E : Type 0} (itf : Name) (cs : List (ControllerSpec E)) (f : ControllerSpec E)
    → is_interface_a_chained_interface itf cs ≡ returned (some f)
    → find_controller f.name cs ≡ some f
unfolding is_interface_a_chained_interface
chained-found itf cs f e = elim (Option-cases (interface_prefix itf)) [
  | inl n ↦ ground (arith, n)
  | inr (pre, n) ↦
      let found : find_controller pre cs ≡ some f = ground (arith, e, n) in
      subst (λ x. find_controller x cs ≡ some f) (sym (find-name pre f cs found)) found
]

module _ {D E : Type 0} (known : Name → Bool) (cs : List (ControllerSpec E)) where
  module _ (p : ControllerPlugin E) where
    module _ (check : ControllerSpec E → CmAction D E Verdict) (spec : ControllerSpec E)
        (cmds states : List Name) where
      check_following-FinishesAt :
          (itf : Name) (following : ControllerSpec E) (s : ControllerManager D E)
          → Keeping known cs s
          → (following.c.is_chainable ≡ true → FinishesAt known cs (check following) s)
          → FinishesAt known cs (Chains.check_following p check spec cmds states itf following) s
      unfolding Chains.check_following
      check_following-FinishesAt itf following s h hc =
          let q = s.switch_params in
          let active = is_controller_active following in
          let chainable = following.c.is_chainable in
          let verdict =
            if Chains.is_optional p spec cmds states itf then Verdict.ok else Verdict.error in
          branch-At known cs (λ r. Keeping known cs r.0 × ¬ (r.1 ≡ returned Verdict.unfinished))
            (not chainable) _ _ s (λ b. (h, λ t. ground arith))
            λ b.
              branch-At known cs (λ r. Keeping known cs r.0 × ¬ (r.1 ≡ returned Verdict.unfinished))
                (active && has_item q.deactivate_request following.name) _ _ s
                (λ c. (h, λ t. ground arith))
                λ c.
                  branch-At known cs
                    (λ r. Keeping known cs r.0 × ¬ (r.1 ≡ returned Verdict.unfinished))
                    (not active && not (has_item q.activate_request following.name)) _ _ s
                    (λ d. (h, λ t. ground arith))
                    λ d.
                      let checked = hc (ground (arith, b)) in
                      and_then-FinishesAt known cs (check following)
                        (Chains.keep_following cmds itf following >> done Verdict.ok) s checked
                        (kept-FinishesAt known cs cmds itf following (check following s).0
                          checked.0)

      check_interfaces-FinishesAt :
          (itfs : List Name)
          → ((itf : Name) (following : ControllerSpec E) (t : ControllerManager D E)
              → has_item itfs itf ≡ true
              → is_interface_a_chained_interface itf cs ≡ returned (some following)
              → following.c.is_chainable ≡ true
              → Keeping known cs t
              → FinishesAt known cs (check following) t)
          → (s : ControllerManager D E) → Keeping known cs s
          → FinishesAt known cs (Chains.check_interfaces p check spec cmds states itfs) s
      unfolding Chains.check_interfaces has_item
      check_interfaces-FinishesAt [] hc s h = (h, λ t. ground arith)
      check_interfaces-FinishesAt (itf ∷ itfs) hc s h =
          let rest = check_interfaces-FinishesAt itfs (λ i f t m. hc i f t (ground (arith, m))) in
          elim (Outcome-cases (is_interface_a_chained_interface itf s.controllers)) [
            | inl e ↦ rw (e, Chains.check_interfaces) (h, λ t. ground arith)
            | inr (none, e) ↦ rw (e, Chains.check_interfaces) (rest s h)
            | inr (some following, e) ↦
                let e' : is_interface_a_chained_interface itf cs ≡ returned (some following) =
                  rw⁻¹ h.0 e in
                let one =
                  check_following-FinishesAt itf following s h
                    λ c. hc itf following s (ground arith) e' c h in
                rw (e, Chains.check_interfaces)
                  (and_then-FinishesAt known cs
                    (Chains.check_following p check spec cmds states itf following)
                    (Chains.check_interfaces p check spec cmds states itfs) s one
                    (rest (Chains.check_following p check spec cmds states itf following s).0
                      one.0))
          ]

    check-FinishesAt :
        (rank : Name → ℕ)
        → ((spec following : ControllerSpec E) (itf : Name) (r : ResourceManager D)
            → find_controller spec.name cs ≡ some spec
            → KnownInterfaces known r
            → has_item (all_interfaces p spec r) itf ≡ true
            → is_interface_a_chained_interface itf cs ≡ returned (some following)
            → following.c.is_chainable ≡ true
            → rank following.name < rank spec.name)
        → (n : ℕ) (spec : ControllerSpec E) (s : ControllerManager D E) → rank spec.name < n
        → find_controller spec.name cs ≡ some spec
        → Keeping known cs s
        → FinishesAt known cs (Chains.check_following_controllers_for_activate p n spec) s
    unfolding Chains.check_following_controllers_for_activate
    check-FinishesAt rank ranked zero spec s l fs h = ground arith
    check-FinishesAt rank ranked (suc n) spec s l fs h =
        let r = s.resource_manager in
        let cmds = get_command_interfaces_names p spec.c r in
        let states = get_state_interfaces_names p spec.c r in
        check_interfaces-FinishesAt (Chains.check_following_controllers_for_activate p n) spec cmds
          states (cmds ++ states)
          (λ itf f t m e c k.
            check-FinishesAt rank ranked n f t (omega (arith, l, ranked spec f itf r fs h.1 m e c))
              (chained-found itf cs f e) k)
          s h

    -- Let every chainable controller that a controller of the list leads to, by an interface that it
    -- wants, have a smaller rank, whatever of the known interfaces is available. Then fuel above the
    -- rank of a controller of the list is enough for `check_following_controllers_for_activate`: it
    -- does not run out, in a state with these controllers whose interfaces are known.
    pub check_following_controllers_for_activate-FinishesAt :
        (rank : Name → ℕ)
        → ((spec following : ControllerSpec E) (itf : Name) (r : ResourceManager D)
            → find_controller spec.name cs ≡ some spec
            → KnownInterfaces known r
            → has_item (all_interfaces p spec r) itf ≡ true
            → is_interface_a_chained_interface itf cs ≡ returned (some following)
            → following.c.is_chainable ≡ true
            → rank following.name < rank spec.name)
        → (n : ℕ) (spec : ControllerSpec E) (s : ControllerManager D E) → rank spec.name < n
        → find_controller spec.name cs ≡ some spec
        → s.controllers ≡ cs
        → KnownInterfaces known s.resource_manager
        → ¬ (
            (Chains.check_following_controllers_for_activate p n spec s).1
            ≡ returned Verdict.unfinished)
    check_following_controllers_for_activate-FinishesAt rank ranked n spec s l fs same known' =
        (check-FinishesAt rank ranked n spec s l fs (same, known')).1
