-- ===== src/Controllers/Callback/Keeping.antt =====
-- The checks of a request to switch keep the accounts of loans.
use ros2_control.Base.{
  ℕ, ◌≡◌, refl, sym, subst, Bool, false, none, some, List, [], ◌∷◌, ◌++◌, Name, arith, has_item,
  ◌>>◌, done, modify, branch, inl, inr, Option-cases, Outcome-cases,
}
use ros2_control.Resource.Storage.{ResourceManager}
use ros2_control.Resource.UsedBy
use ros2_control.Resource.Frame.{store}
use ros2_control.Controllers.Spec.{
  ControllerPlugin, ControllerSpec, ControllerManager, CmAction, Strictness, find_controller,
  is_strict, is_best_effort, is_controller_active,
}
use ros2_control.Controllers.Configuration.{is_interface_a_chained_interface}
use ros2_control.Controllers.Chains
use ros2_control.Controllers.Chains.{Verdict}
use ros2_control.Controllers.Requests
use ros2_control.Controllers.Requests.View.{KeepsView, check_activation-KeepsView}
use ros2_control.Controllers.Switching.Accounts.{Accounts}
use ros2_control.Controllers.Switching.Ownership.{held, Holds}
use ros2_control.Controllers.Switching.Steps.{Keeps, bind-Keeps, branch-Keeps}

module _ {D : Type 0} where
  pub cache-store :
      (controller : Name) (itfs : List Name) (r : ResourceManager D)
      → store (UsedBy.cache_controller_to_hardware controller itfs r) ≡ store r
  unfolding UsedBy.cache_controller_to_hardware
  cache-store controller [] r = refl
  cache-store controller (itf ∷ itfs) r =
      ground (arith, cache-store controller itfs (UsedBy.cache_one controller itf r))

module _ {D E : Type 0} where
  view-Keeps : {A : Type 0} (m : CmAction D E A) → KeepsView m → Keeps m
  view-Keeps m keeps s h = subst (λ v. Accounts v.3 (held v.0)) (sym (keeps s)) h

module _ {D E : Type 0} (p : ControllerPlugin E) (fuel : ℕ) where
  add_following-Keeps : (itfs : List Name) → Keeps {D = D} (Chains.add_following p itfs)
  unfolding Chains.add_following
  add_following-Keeps [] s h = h
  add_following-Keeps (itf ∷ itfs) s h =
      elim (Outcome-cases (is_interface_a_chained_interface itf s.controllers)) [
        | inl e ↦ rw (e, Chains.add_following) h
        | inr (none, e) ↦ rw (e, Chains.add_following) (add_following-Keeps itfs s h)
        | inr (some following, e) ↦ rw (e, Chains.add_following) (add_following-Keeps itfs _ h)
      ]

  pub propagate-Keeps :
      (specs : List (ControllerSpec E))
      → Keeps {D = D} (Chains.propagate_deactivation_of_chained_mode p specs)
  unfolding Chains.propagate_deactivation_of_chained_mode
  propagate-Keeps [] s = λ h. h
  propagate-Keeps (spec ∷ specs) s =
      let itfs = Chains.all_interfaces p spec s.resource_manager in
      let rest : CmAction D E (Unit {0}) = Chains.propagate_deactivation_of_chained_mode p specs in
      let follow : CmAction D E (Unit {0}) = Chains.add_following p itfs in
      let requested : CmAction D E (Unit {0}) =
        branch (is_controller_active spec) (follow >> rest) (done tt) in
      branch-Keeps (has_item s.switch_params.deactivate_request spec.name) requested rest
        (branch-Keeps (is_controller_active spec) (follow >> rest) (done tt)
          (bind-Keeps follow (λ _. rest) (add_following-Keeps itfs) λ _. propagate-Keeps specs)
          λ s h. h)
        (propagate-Keeps specs) s

  -- A change of the request's lists keeps the accounts.
  abbrev LeavesLoans : (List Name → ControllerManager D E → ControllerManager D E) → Type 0
  LeavesLoans put =
      (names : List Name) (s : ControllerManager D E) → Holds [] s → Holds [] (put names s)

  after_check-Keeps :
      (strictness : Strictness) (put : List Name → ControllerManager D E → ControllerManager D E)
      (kept : List Name) (name : Name) (names : List Name) (go_on : List Name → CmAction D E Bool)
      (v : Verdict)
      → LeavesLoans put
      → ((kept' : List Name) → Keeps (go_on kept'))
      → Keeps (Requests.after_check p fuel strictness put kept name names go_on v)
  unfolding Requests.after_check
  after_check-Keeps strictness put kept name names go_on Verdict.ok hp hg = hg (kept ++ name ∷ [])
  after_check-Keeps strictness put kept name names go_on Verdict.unfinished hp hg = λ s h. h
  after_check-Keeps strictness put kept name names go_on Verdict.error hp hg =
      let clear : CmAction D E Bool = modify Requests.clear >> done false in
      let erase : CmAction D E Bool = modify (put (kept ++ names)) >> go_on kept in
      let keep : CmAction D E Bool = go_on (kept ++ name ∷ []) in
      branch-Keeps (is_strict strictness) clear (branch (is_best_effort strictness) erase keep)
        (λ s h. h)
        (branch-Keeps (is_best_effort strictness) erase keep
          (λ s h. hg kept (put (kept ++ names) s) (hp (kept ++ names) s h))
          (hg (kept ++ name ∷ [])))

  pub check_activations-Keeps :
      (strictness : Strictness) (kept names : List Name)
      → Keeps {D = D} (Requests.check_activations p fuel strictness kept names)
  unfolding Requests.check_activations
  check_activations-Keeps strictness kept [] s h = h
  check_activations-Keeps strictness kept (name ∷ names) s h =
      elim (Option-cases (find_controller name s.controllers)) [
        | inl e ↦ rw (e, Requests.check_activations) h
        | inr (spec, e) ↦
            let check : CmAction D E Verdict = Requests.check_activation p fuel spec in
            let go_on : List Name → CmAction D E Bool =
              λ kept'. Requests.check_activations p fuel strictness kept' names in
            let after : Verdict → CmAction D E Bool =
              Requests.after_check p fuel strictness Requests.put_activate kept name names go_on in
            rw (e, Requests.check_activations)
              (bind-Keeps check after (view-Keeps check (check_activation-KeepsView p fuel spec))
                (λ v.
                  after_check-Keeps strictness Requests.put_activate kept name names go_on v
                    (λ names s h. h) λ kept'. check_activations-Keeps strictness kept' names)
                s h)
      ]

  pub check_deactivations-Keeps :
      (strictness : Strictness) (kept names : List Name)
      → Keeps {D = D} (Requests.check_deactivations p fuel strictness kept names)
  unfolding Requests.check_deactivations
  check_deactivations-Keeps strictness kept [] s h = h
  check_deactivations-Keeps strictness kept (name ∷ names) s h =
      elim (Option-cases (find_controller name s.controllers)) [
        | inl e ↦ rw (e, Requests.check_deactivations) h
        | inr (spec, e) ↦
            let go_on : List Name → CmAction D E Bool =
              λ kept'. Requests.check_deactivations p fuel strictness kept' names in
            rw (e, Requests.check_deactivations)
              (after_check-Keeps strictness Requests.put_deactivate kept name names go_on
                (Requests.check_deactivation p fuel spec s) (λ names s h. h)
                (λ kept'. check_deactivations-Keeps strictness kept' names) s h)
      ]
