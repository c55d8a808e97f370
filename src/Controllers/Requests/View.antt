-- ===== src/Controllers/Requests/View.antt =====
-- The check of a controller to activate changes neither the controllers nor the lists of the request
-- that it reads, and claims nothing.
use ros2_control.Base.{
  ℕ, zero, suc, ◌≡◌, refl, ap, ◌∙◌, Bool, true, false, not, ◌&&◌, none, some, List, [], ◌∷◌, ◌++◌,
  Name, arith, has_item, ◌>>=◌, ◌>>◌, done, branch, inl, inr, Outcome-cases, if◌then◌else◌,
}
use ros2_control.Hardware.Types.{is_active, is_inactive, is_unconfigured}
use ros2_control.Resource.Interfaces
use ros2_control.Resource.Frame.{Store, store}
use ros2_control.Controllers.Spec.{
  ControllerPlugin, ControllerSpec, ControllerManager, CmAction, is_controller_active,
}
use ros2_control.Controllers.Configuration.{
  get_command_interfaces_names, get_state_interfaces_names, is_interface_a_chained_interface,
}
use ros2_control.Controllers.Chains
use ros2_control.Controllers.Chains.{Verdict}
use ros2_control.Controllers.Fallback
use ros2_control.Controllers.Requests

module _ {D E : Type 0} where
  abbrev pub view : ControllerManager D E → List (ControllerSpec E) × List Name × List Name
  view s = (s.controllers, s.switch_params.activate_request, s.switch_params.deactivate_request)

  -- With the claims and the stored command interfaces.
  abbrev pub full_view :
      ControllerManager D E → List (ControllerSpec E) × List Name × List Name × Store
  full_view s = (
    s.controllers,
    s.switch_params.activate_request,
    s.switch_params.deactivate_request,
    store s.resource_manager,
  )

  abbrev pub KeepsView : {A : Type 0} → CmAction D E A → Type 0
  KeepsView m = (s : ControllerManager D E) → full_view (m s).0 ≡ full_view s

  pub bind-KeepsView :
      {A B : Type 0} (m : CmAction D E A) (f : A → CmAction D E B)
      → KeepsView m
      → ((a : A) → KeepsView (f a))
      → KeepsView (m >>= f)
  bind-KeepsView m f hm hf s = elim (Outcome-cases (m s).1) [
    | inl e ↦ rw (e, ◌>>=◌) (hm s)
    | inr (a, e) ↦ rw (e, ◌>>=◌) (hf a (m s).0 ∙ hm s)
  ]

  pub branch-KeepsView :
      {A : Type 0} (b : Bool) (m n : CmAction D E A)
      → KeepsView m
      → KeepsView n
      → KeepsView (branch b m n)
  branch-KeepsView true m n hm hn = hm
  branch-KeepsView false m n hm hn = hn

  if_ok-KeepsView :
      (v : Verdict) (rest : CmAction D E Verdict) → KeepsView rest → KeepsView (Chains.if_ok v rest)
  if_ok-KeepsView Verdict.ok rest h = h
  if_ok-KeepsView Verdict.error rest h = λ s. refl
  if_ok-KeepsView Verdict.unfinished rest h = λ s. refl

  keep_following-KeepsView :
      (cmds : List Name) (itf : Name) (following : ControllerSpec E)
      → KeepsView (Chains.keep_following cmds itf following)
  unfolding Chains.keep_following Interfaces.make_controller_exported_state_interfaces_available
      Interfaces.make_controller_reference_interfaces_available
  keep_following-KeepsView cmds itf following s = ground arith

  module _ (p : ControllerPlugin E) where
    module _ (check : ControllerSpec E → CmAction D E Verdict) (spec : ControllerSpec E)
        (cmds states : List Name) (checks : (c : ControllerSpec E) → KeepsView (check c)) where
      check_following-KeepsView :
          (itf : Name) (following : ControllerSpec E)
          → KeepsView (Chains.check_following p check spec cmds states itf following)
      unfolding Chains.check_following
      check_following-KeepsView itf following s =
          let keep : CmAction D E Verdict =
            Chains.keep_following cmds itf following >> done Verdict.ok in
          let q = s.switch_params in
          let active = is_controller_active following in
          let optional = Chains.is_optional p spec cmds states itf in
          let go_on : CmAction D E Verdict = check following >>= λ v. Chains.if_ok v keep in
          let stops = active && has_item q.deactivate_request following.name in
          let stays_off = not active && not (has_item q.activate_request following.name) in
          let rest : CmAction D E Verdict = branch stays_off (done Verdict.error) go_on in
          let stopping : CmAction D E Verdict =
            done (if optional then Verdict.ok else Verdict.error) in
          branch-KeepsView (not following.c.is_chainable) (done Verdict.error)
            (branch stops stopping rest) (λ t. refl)
            (branch-KeepsView stops stopping rest (λ t. refl)
              (branch-KeepsView stays_off (done Verdict.error) go_on (λ t. refl)
                (bind-KeepsView (check following) (λ v. Chains.if_ok v keep) (checks following)
                  λ v. if_ok-KeepsView v keep (
                    bind-KeepsView (Chains.keep_following cmds itf following) (λ _. done Verdict.ok)
                      (keep_following-KeepsView cmds itf following) λ _. λ t. refl))))
            s

      check_interfaces-KeepsView :
          (itfs : List Name) → KeepsView (Chains.check_interfaces p check spec cmds states itfs)
      unfolding Chains.check_interfaces
      check_interfaces-KeepsView [] s = refl
      check_interfaces-KeepsView (itf ∷ itfs) s =
          elim (Outcome-cases (is_interface_a_chained_interface itf s.controllers)) [
            | inl e ↦ rw (e, Chains.check_interfaces) refl
            | inr (none, e) ↦ rw (e, Chains.check_interfaces) (check_interfaces-KeepsView itfs s)
            | inr (some following, e) ↦
                let rest : CmAction D E Verdict =
                  Chains.check_interfaces p check spec cmds states itfs in
                rw (e, Chains.check_interfaces)
                  (bind-KeepsView (Chains.check_following p check spec cmds states itf following)
                    (λ v. Chains.if_ok v rest) (check_following-KeepsView itf following)
                    (λ v. if_ok-KeepsView v rest (check_interfaces-KeepsView itfs)) s)
          ]

    check_chain-KeepsView :
        (n : ℕ) (spec : ControllerSpec E)
        → KeepsView (Chains.check_following_controllers_for_activate p n spec)
    unfolding Chains.check_following_controllers_for_activate
    check_chain-KeepsView zero spec s = refl
    check_chain-KeepsView (suc n) spec s =
        let cmds = get_command_interfaces_names p spec.c s.resource_manager in
        let states = get_state_interfaces_names p spec.c s.resource_manager in
        check_interfaces-KeepsView (Chains.check_following_controllers_for_activate p n) spec cmds
          states (check_chain-KeepsView n) (cmds ++ states) s

    pub check_activation-KeepsView :
        (fuel : ℕ) (spec : ControllerSpec E) → KeepsView (Requests.check_activation p fuel spec)
    unfolding Requests.check_activation Requests.check_state_and_chain
    check_activation-KeepsView fuel spec s =
        let l = spec.c.lifecycle_state in
        let restarts = has_item s.switch_params.deactivate_request spec.name in
        let chain : CmAction D E Verdict =
          Chains.check_following_controllers_for_activate p fuel spec in
        let active : CmAction D E Verdict = done (if restarts then Verdict.ok else Verdict.error) in
        let inactive : CmAction D E Verdict =
          branch (not (is_inactive l)) (done Verdict.error) chain in
        let configured : CmAction D E Verdict = branch (is_active l) active inactive in
        let fallbacks : CmAction D E Verdict = λ t. (
          t,
          Requests.verdict (Fallback.check_fallback_controllers_state_pre_activation p spec t),
        ) in
        bind-KeepsView (branch (is_unconfigured l) (done Verdict.error) configured)
          (λ v. Chains.if_ok v fallbacks)
          (branch-KeepsView (is_unconfigured l) (done Verdict.error) configured (λ t. refl)
            (branch-KeepsView (is_active l) active inactive (λ t. refl)
              (branch-KeepsView (not (is_inactive l)) (done Verdict.error) chain (λ t. refl)
                (check_chain-KeepsView fuel spec))))
          (λ v. if_ok-KeepsView v fallbacks λ t. refl) s

    pub check_activation-view :
        (fuel : ℕ) (spec : ControllerSpec E) (s : ControllerManager D E)
        → view (Requests.check_activation p fuel spec s).0 ≡ view s
    check_activation-view fuel spec s =
        ap (λ v. (v.0, v.1, v.2)) (check_activation-KeepsView fuel spec s)
